-- ===== src/Memory/Page/Siblings.antt =====
-- The buddy of a block, and the block that the two make.
use native.Mathlib.Nat.{le-div_iff_mul-le, div-lt_iff_lt-mul}
use wey_os.Base.{
  ℕ, suc, ◌+◌, ◌*◌, ◌/◌, ◌%◌, ◌^◌, ◌≡◌, ◌⊎◌, inl, inr, ap, true, false, ◌==◌, arith, Bool-cases,
}
use wey_os.Base.Bits.{pow_two_suc, pow_two_pos}
use wey_os.Memory.Page.{is_upper, buddy_of, lower_of}
use wey_os.Memory.Page.Cover.{IsAligned}

-- The lower half of the block that a block and its buddy make, with its number among the blocks of
-- that order.
pub record Siblings (k p : ℕ) : Type 0 where
  pub number : ℕ
  pub lower : lower_of k p ≡ number * 2 ^ suc k
  pub either :
      ((p ≡ number * 2 ^ suc k) × (buddy_of k p ≡ number * 2 ^ suc k + 2 ^ k))
      ⊎ ((p ≡ number * 2 ^ suc k + 2 ^ k) × (buddy_of k p ≡ number * 2 ^ suc k))

quotient : (k p i : ℕ) → p ≡ i * 2 ^ k → p / 2 ^ k ≡ i
quotient k p i e =
    let c = pow_two_pos k in
    let a = (le-div_iff_mul-le {k = 2 ^ k} {x = i} {y = p} c).1 (omega arith) in
    let b = (div-lt_iff_lt-mul {k = 2 ^ k} {x = p} {y = i + 1} c).1 (grind arith) in omega arith

pub aligned-Siblings : (k p : ℕ) → IsAligned k p → Siblings k p
unfolding lower_of buddy_of is_upper
aligned-Siblings k p (i, e) = elim (Bool-cases (p / 2 ^ k % 2 == 1)) [
  | inl u ↦ record {
    number = i / 2;
    lower = rw u (let o = odd u in omega arith);
    either = rw u (inr (odd u, let o = odd u in omega arith));
  }
  | inr u ↦ record {
    number = i / 2;
    lower = rw u (even u);
    either = rw u (inl (even u, ap (λ x. x + 2 ^ k) (even u)));
  }
]
  where
    q : p / 2 ^ k ≡ i
    q = quotient k p i e

    twice : (j x y : ℕ) → y ≡ 2 * x → j * y ≡ 2 * j * x
    twice j x y f = grind arith

    odd : (p / 2 ^ k % 2 == 1) ≡ true → p ≡ i / 2 * 2 ^ suc k + 2 ^ k
    odd u =
        let s : i ≡ 2 * (i / 2) + 1 = ground (arith, q) in
        let t = twice (i / 2) (2 ^ k) (2 ^ suc k) (pow_two_suc k) in
        let r : i * 2 ^ k ≡ (2 * (i / 2) + 1) * 2 ^ k = ap (λ x. x * 2 ^ k) s in grind arith

    even : (p / 2 ^ k % 2 == 1) ≡ false → p ≡ i / 2 * 2 ^ suc k
    even u =
        let s : i ≡ 2 * (i / 2) = ground (arith, q) in
        let t = twice (i / 2) (2 ^ k) (2 ^ suc k) (pow_two_suc k) in
        let r : i * 2 ^ k ≡ 2 * (i / 2) * 2 ^ k = ap (λ x. x * 2 ^ k) s in omega arith
