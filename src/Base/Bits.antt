-- ===== src/Base/Bits.antt =====
-- Masks at variables: what `& ~(2^k - 1)` and `& 1` do to a word. The library's bit operations
-- compute at numerals only, so their laws are derived here from the digit recursion.
use Prim.Native.Nat.{
  ℕ, zero, suc, ◌+◌, ◌-◌, ◌*◌, ◌/◌, ◌%◌, ◌^◌, ◌≤◌, ◌<◌, min, bit_and, digits, bit_and-bitwise,
}
use native.Mathlib.Nat.{pow-suc}
use mathlib.Core.Path.{◌≡◌, refl, sym, ◌∙◌}
use native.Mathlib.Decide.{dec_lt}
use native.Mathlib.Omega.{arith}

-- The digit recursion of `&`, on `n` rounds.
abbrev rounds : ℕ → ℕ → ℕ → ℕ
rounds = digits (λ _. 0) min

-- A number needs no more rounds than it says.
one_more : (x y n : ℕ) → x ≤ n → rounds (suc n) x y ≡ rounds n x y
one_more zero y zero le = refl
one_more zero y (suc n) le = refl
one_more (suc x) y zero le = elim le [ ]
one_more (suc x) y (suc n) le = omega (arith, one_more (suc x / 2) (y / 2) n (omega arith))

settled : (n x y : ℕ) → x ≤ n → rounds n x y ≡ bit_and x y
settled zero x y le = let e : x ≡ 0 = omega arith in rw e (sym (bit_and-bitwise 0 y))
settled (suc n) x y le = elim (dec_lt n x) [
  | yes last ↦ let e : x ≡ suc n = omega arith in rw e (sym (bit_and-bitwise (suc n) y))
  | no below ↦ one_more x y n (omega arith) ∙ settled n x y (omega arith)
]

-- `&` digit by digit, from the lowest.
pub bit_and_step : (x y : ℕ) → bit_and x y ≡ min (x % 2) (y % 2) + 2 * bit_and (x / 2) (y / 2)
bit_and_step zero y = omega (arith, settled 0 0 y (omega arith), settled 0 0 (y / 2) (omega arith))
bit_and_step (suc x) y =
    omega
      (arith, settled (suc x) (suc x) y (omega arith), settled x (suc x / 2) (y / 2) (omega arith))

pub pow_two_suc : (k : ℕ) → 2 ^ suc k ≡ 2 * 2 ^ k
pow_two_suc k = omega (arith, pow-suc 2 k)

pub pow_two_pos : (k : ℕ) → 0 < 2 ^ k
pow_two_pos zero = omega arith
pow_two_pos (suc k) = omega (arith, pow_two_suc k, pow_two_pos k)

-- `x` with its `k` low bits cleared.
abbrev pub clear_low : ℕ → ℕ → ℕ
clear_low zero x = x
clear_low (suc k) x = clear_low k (x / 2) * 2

pub clear_low_bounds : (k x : ℕ) → (clear_low k x ≤ x) × (x < clear_low k x + 2 ^ k)
clear_low_bounds zero x = (omega arith, omega arith)
clear_low_bounds (suc k) x =
    let ih : (clear_low k (x / 2) ≤ x / 2) × (x / 2 < clear_low k (x / 2) + 2 ^ k) =
      clear_low_bounds k (x / 2) in
    (omega (arith, pow_two_suc k), omega (arith, pow_two_suc k))

-- The cleared number is a multiple of 2^k.
pub clear_low_multiple : (k x : ℕ) → (q : ℕ) × (clear_low k x ≡ q * 2 ^ k)
clear_low_multiple zero x = (x, omega arith)
clear_low_multiple (suc k) x =
    let (q, e) = clear_low_multiple k (x / 2) in
    (q, omega (arith, pow_two_suc k, e, ap_mul q (pow_two_suc k)))
  where
    ap_mul : (q : ℕ) {a b : ℕ} → a ≡ b → q * a ≡ q * b
    ap_mul q p = λ i. q * p i

pub pow_two_mono : (j k : ℕ) → j ≤ k → 2 ^ j ≤ 2 ^ k
pow_two_mono zero k h = pow_two_pos k
pow_two_mono (suc j) zero h = absurd (omega arith)
pow_two_mono (suc j) (suc k) h =
    omega (arith, pow_two_suc j, pow_two_suc k, pow_two_mono j k (omega arith))

-- `x & ~(2^k - 1)` on a word of `w` bits clears the `k` low bits.
pub bit_and-high_mask : (w k x : ℕ) → k ≤ w → x < 2 ^ w → bit_and x (2 ^ w - 2 ^ k) ≡ clear_low k x
bit_and-high_mask zero zero x h lt = let e : x ≡ 0 = omega arith in rw e
bit_and-high_mask zero (suc k) x h lt = absurd (omega arith)
bit_and-high_mask (suc w) zero x h lt = omega (
  arith,
  bit_and_step x (2 ^ suc w - 1),
  pow_two_suc w,
  pow_two_pos w,
  halves,
  bit_and-high_mask w zero (x / 2) (omega arith) (omega (arith, pow_two_suc w)),
)
  where
    halves : bit_and (x / 2) ((2 ^ suc w - 1) / 2) ≡ bit_and (x / 2) (2 ^ w - 2 ^ 0)
    halves = λ i. bit_and (x / 2) (half i)
      where
        half : (2 ^ suc w - 1) / 2 ≡ 2 ^ w - 2 ^ 0
        half = omega (arith, pow_two_suc w, pow_two_pos w)
bit_and-high_mask (suc w) (suc k) x h lt = omega (
  arith,
  bit_and_step x (2 ^ suc w - 2 ^ suc k),
  pow_two_suc w,
  pow_two_suc k,
  pow_two_mono k w (omega arith),
  halves,
  bit_and-high_mask w k (x / 2) (omega arith) (omega (arith, pow_two_suc w)),
)
  where
    halves : bit_and (x / 2) ((2 ^ suc w - 2 ^ suc k) / 2) ≡ bit_and (x / 2) (2 ^ w - 2 ^ k)
    halves = λ i. bit_and (x / 2) (half i)
      where
        half : (2 ^ suc w - 2 ^ suc k) / 2 ≡ 2 ^ w - 2 ^ k
        half = omega (arith, pow_two_suc w, pow_two_suc k)
