-- ===== src/Base/Code.antt =====
-- The status codes of include/uapi/sys/errno.h that the modelled code returns.
use mathlib.Core.Path.{◌≡◌, refl}
use mathlib.Core.Logic.{◌⊎◌, inl, inr}

-- `SUCCESS` and the negative codes, one constructor each.
pub data Errno : Type 0 where
  einval enomem enoent erange enosys enodev enotsup eshutdown : Errno

-- A pointer or a count on success, a negative code otherwise.
pub data Result {ℓ} (A : Type ℓ) : Type ℓ where
  ok : A → Result A
  err : Errno → Result A

pub Result-cases {ℓ} :
    {A : Type ℓ} (r : Result A) → ((e : Errno) × (r ≡ err e)) ⊎ ((a : A) × (r ≡ ok a))
Result-cases (err e) = inl (e, refl)
Result-cases (ok a) = inr (a, refl)
