-- ===== src/Util/Text/Tests.antt =====
-- Strings in a small memory.
use wey_os.Base.{
  ℕ, ◌+◌, ◌<◌, ◌≡◌, ◌≢◌, ◌%◌, if◌then◌else◌, All, zero, suc, refl, min, some, [], ◌∷◌, arith, List,
  get_or,
}
use wey_os.Util.Text.{Bytes, memcpy, memmove, memset, strlen, strnlen, strcmp, greater}
use wey_os.Util.Text.Move.{Copied, inside, memmove-Copied, memset_lem}
use wey_os.Util.Text.Terminated.{Str, strlen_lem}

-- "ab" at 0, "ac" at 8.
abbrev memory : Bytes
memory a = get_or (97 ∷ 98 ∷ 0 ∷ 0 ∷ 0 ∷ 0 ∷ 0 ∷ 0 ∷ 97 ∷ 99 ∷ 0 ∷ []) a 0

ab : Str memory 0 2
ab = record { chars = chars; stop = refl }
  where
    chars : (k : ℕ) → k < 2 → memory (0 + k) ≢ 0
    chars zero h = omega arith
    chars (suc zero) h = omega arith
    chars (suc (suc k)) h = absurd (omega arith)

get_or_lt : (xs : List ℕ) → All (λ x. x < 256) xs → (a : ℕ) → get_or xs a 0 < 256
get_or_lt [] h a = omega arith
get_or_lt (x ∷ xs) h zero = h.0
get_or_lt (x ∷ xs) h (suc a) = get_or_lt xs h.1 a

memory_bytes : (a : ℕ) → memory a < 256
memory_bytes a = get_or_lt (97 ∷ 98 ∷ 0 ∷ 0 ∷ 0 ∷ 0 ∷ 0 ∷ 0 ∷ 97 ∷ 99 ∷ 0 ∷ []) (omega arith) a

strlen_lem_example : (strlen 5 memory 0 ≡ some 2) × (strnlen memory 0 1 ≡ min 2 1)
strlen_lem_example = strlen_lem 5 memory 0 2 1 ab (omega arith)

compared : strcmp 5 memory 8 0 ≡ some greater
unfolding strcmp
compared = refl

memmove-Copied_example :
    Copied memory 1 0 3 (memmove memory 1 0 3).0 × Copied memory 1 0 3 (memcpy memory 1 0 3).0
memmove-Copied_example = memmove-Copied memory 1 0 3

memset_lem_example : memset memory 4 300 2 5 ≡ (if inside 5 4 2 then 300 % 256 else memory 5)
memset_lem_example = memset_lem memory 4 300 2 5
