-- ===== src/Util/Text/Move.antt =====
-- Copying: both loops, and the choice between them.
use wey_os.Base.{
  ℕ, zero, suc, ◌+◌, ◌-◌, ◌%◌, ◌≤◌, ◌<◌, ◌≡◌, ◌⊎◌, ap, inl, inr, Bool, ◌&&◌, ltb, leb,
  if◌then◌else◌, arith, Bool-cases,
}
use wey_os.Util.Text.{Bytes, store, set_from, memset, copy_up, copy_down, memcpy, memmove}

-- `a` lies in the `n` bytes from `d` on.
abbrev pub inside : ℕ → ℕ → ℕ → Bool
inside a d n = leb d a && ltb a (d + n)

-- The memory after a copy from the memory before it.
abbrev pub Copied : Bytes → ℕ → ℕ → ℕ → Bytes → Type 0
Copied m d s n m' = (a : ℕ) → m' a ≡ (if inside a d n then m (s + (a - d)) else m a)

-- Upwards is right unless the target starts inside the source.
pub copy_up-Copied :
    (m : Bytes) (d s n : ℕ) → (d ≤ s) ⊎ (s + n ≤ d) → Copied m d s n (copy_up m d s n)
unfolding copy_up
copy_up-Copied m d s zero h a = ground arith
copy_up-Copied m d s (suc n) h a =
    let ih = copy_up-Copied (store m d (m s)) (d + 1) (s + 1) n (later h) a in
    ground (arith, ih, same)
  where
    later : (d ≤ s) ⊎ (s + suc n ≤ d) → (d + 1 ≤ s + 1) ⊎ (s + 1 + n ≤ d + 1)
    later (inl k) = inl (omega arith)
    later (inr k) = inr (omega arith)

    same : d + 1 ≤ a → m (s + 1 + (a - (d + 1))) ≡ m (s + (a - d))
    same k = ap m (omega arith)

-- Downwards is right unless the source starts inside the target.
pub copy_down-Copied :
    (m : Bytes) (d s n : ℕ) → (s ≤ d) ⊎ (d + n ≤ s) → Copied m d s n (copy_down m d s n)
unfolding copy_down
copy_down-Copied m d s zero h a = ground arith
copy_down-Copied m d s (suc n) h a =
    let ih = copy_down-Copied (store m (d + n) (m (s + n))) d s n (later h) a in ground (arith, ih)
  where
    later : (s ≤ d) ⊎ (d + suc n ≤ s) → (s ≤ d) ⊎ (d + n ≤ s)
    later (inl k) = inl k
    later (inr k) = inr (omega arith)

-- `memmove` and `memcpy` both copy the `n` bytes of the source as they were before the call and
-- leave every other byte, however source and target overlap.
pub memmove-Copied :
    (m : Bytes) (dest src n : ℕ)
    → Copied m dest src n (memmove m dest src n).0 × Copied m dest src n (memcpy m dest src n).0
unfolding memmove memcpy
memmove-Copied m dest src n = (move, copy)
  where
    move : Copied m dest src n (memmove m dest src n).0
    move a = elim (Bool-cases (ltb dest src)) [
      | inl e ↦ rw (e, memmove) (copy_up-Copied m dest src n (inl (ground arith)) a)
      | inr e ↦ elim (Bool-cases (leb (src + n) dest)) [
        | inl f ↦ rw (e, memmove) (rw f (copy_up-Copied m dest src n (inr (ground arith)) a))
        | inr f ↦ rw (e, memmove) (rw f (copy_down-Copied m dest src n (inl (ground arith)) a))
      ]
    ]

    copy : Copied m dest src n (memcpy m dest src n).0
    copy a = elim (Bool-cases (ltb dest src)) [
      | inl e ↦ rw (e, memcpy) (copy_up-Copied m dest src n (inl (ground arith)) a)
      | inr e ↦ rw (e, memcpy) (copy_down-Copied m dest src n (inl (ground arith)) a)
    ]

-- The pointer that `memcpy` returns is not always the target: when it copies upwards, and at least
-- one byte, it is the first address behind the copy.
memcpy_pointer :
    (m : Bytes) (dest src n : ℕ)
    → dest < src
    → 0 < n
    → ((memcpy m dest src n).1 ≡ dest + n) × ((memmove m dest src n).1 ≡ dest)
unfolding memcpy memmove
memcpy_pointer m dest src n h p = ground arith

-- `memset` writes the low byte of the value to each of the `n` bytes and to no other.
pub memset_lem :
    (m : Bytes) (p c n a : ℕ) → memset m p c n a ≡ (if inside a p n then c % 256 else m a)
unfolding memset set_from
memset_lem m p c n a = go m p n
  where
    go : (m : Bytes) (p n : ℕ) → set_from m p c n a ≡ (if inside a p n then c % 256 else m a)
    go m p zero = ground arith
    go m p (suc n) = ground (arith, go (store m p (c % 256)) (p + 1) n)
