-- ===== src/Util/Div64.antt =====
-- 64-bit division by shifting and subtracting, src/lib/div64.c.
mod Tests
use wey_os.Base.{
  ℕ, zero, suc, ◌+◌, ◌-◌, ◌*◌, ◌/◌, ◌%◌, ◌^◌, ◌≤◌, ◌<◌, ◌≡◌, refl, ap, ap₂, sym, ◌∙◌, inl, inr,
  Bool, true, false, ltb, leb, if◌then◌else◌, arith, Bool-cases, Option, none, some, le→leb, leb→le,
}
use native.Mathlib.Nat.{
  div-div-eq-div-mul, add-mul-div_right, div-eq_of_lt, div-add-mod, le-div_iff_mul-le,
  div-lt_iff_lt-mul,
}
use wey_os.Base.Bits.{pow_two_suc, pow_two_pos}

-- The loop's variables.
pub record Division : Type 0 where
  pub quotient : ℕ
  pub remainder : ℕ

-- One turn, at bit `i`: `remainder << 1 | bit` drops what leaves 64 bits, and the bit that `|=`
-- sets in the quotient is clear before, so it is added.
pub turn : ℕ → ℕ → ℕ → Division → Division
turn dividend base i s =
    let r = (s.remainder * 2) % 2 ^ 64 + (dividend / 2 ^ i) % 2 in
    if leb base r
    then record { quotient = s.quotient + 2 ^ i; remainder = r - base }
    else record { quotient = s.quotient; remainder = r }

-- The turns for the bits below `n`, the highest first.
pub turns : ℕ → ℕ → ℕ → Division → Division
turns dividend base zero s = s
turns dividend base (suc i) s = turns dividend base i (turn dividend base i s)

-- `__do_div_generic`: the new `*n` and the result, which is cut to 32 bits.
unfoldable pub do_div : ℕ → ℕ → ℕ × ℕ
do_div n base =
    let s = turns n base 64 (record { quotient = 0; remainder = 0 }) in
    (s.quotient, s.remainder % 2 ^ 32)

-- What the bits from `i` up have been divided into.
record Inv (dividend base i : ℕ) (s : Division) : Type 0 where
  value : dividend / 2 ^ i * 2 ^ i ≡ s.quotient * base + s.remainder * 2 ^ i
  small : s.remainder < base

halve : (x i : ℕ) → x / 2 ^ i ≡ 2 * (x / 2 ^ suc i) + (x / 2 ^ i) % 2
halve x i =
    let e : x / 2 ^ suc i ≡ x / 2 ^ i / 2 =
      ap (λ d. x / d) (omega (arith, pow_two_suc i)) ∙ sym (div-div-eq-div-mul x (2 ^ i) 2) in
    omega (arith, e)

-- The arithmetic of one turn, with the weight of the bit for a variable.
extend :
    (d d' bit q r p base : ℕ)
    → d' ≡ 2 * d + bit
    → d * (2 * p) ≡ q * base + r * (2 * p)
    → d' * p ≡ q * base + (r * 2 + bit) * p
extend d d' bit q r p base e f = omega (arith, ap (λ t. t * p) e)

subtract : (q r p base : ℕ) → base ≤ r → q * base + r * p ≡ (q + p) * base + (r - base) * p
subtract q r p base h =
    let e : r ≡ (r - base) + base = omega arith in omega (arith, ap (λ t. t * p) e)

turn-Inv :
    (dividend base i : ℕ) (s : Division)
    → 0 < base
    → base < 2 ^ 32
    → Inv dividend base (suc i) s
    → Inv dividend base i (turn dividend base i s)
unfolding turn
turn-Inv dividend base i s p b v =
    let bit = (dividend / 2 ^ i) % 2 in
    let w : (s.remainder * 2) % 2 ^ 64 ≡ s.remainder * 2 = omega (arith, v.small) in
    let e =
      extend (dividend / 2 ^ suc i) (dividend / 2 ^ i) bit s.quotient s.remainder (2 ^ i) base
        (halve dividend i)
        (ap (λ t. dividend / 2 ^ suc i * t) (sym (pow_two_suc i))
          ∙ v.value
          ∙ ap (λ t. s.quotient * base + s.remainder * t) (pow_two_suc i)) in
    rw w (elim (Bool-cases (leb base (s.remainder * 2 + bit))) [
      | inl h ↦ rw h (record {
        value = e ∙ subtract s.quotient (s.remainder * 2 + bit) (2 ^ i) base (ground arith);
        small = omega (arith, v.small);
      })
      | inr h ↦ rw h (record { value = e; small = ground arith })
    ])

turns-Inv :
    (dividend base n : ℕ) (s : Division)
    → 0 < base
    → base < 2 ^ 32
    → Inv dividend base n s
    → Inv dividend base 0 (turns dividend base n s)
unfolding turns
turns-Inv dividend base zero s p b v = v
turns-Inv dividend base (suc i) s p b v =
    turns-Inv dividend base i (turn dividend base i s) p b (turn-Inv dividend base i s p b v)

-- A quotient with a small remainder is the quotient.
pub divided : (n q r base : ℕ) → r < base → n ≡ q * base + r → (q ≡ n / base) × (r ≡ n % base)
divided n q r base h e =
    let d : n / base ≡ q =
      ap (λ t. t / base) (omega (arith, e))
      ∙ add-mul-div_right r q (omega arith)
      ∙ omega (arith, div-eq_of_lt h) in
    (sym d, omega (arith, div-add-mod n base, ap (λ t. base * t) d, e))

-- The shift-and-subtract loop computes the quotient and the remainder of the division, for every
-- 64-bit dividend and every 32-bit divisor but 0.
pub do_div_lem :
    (n base : ℕ) → n < 2 ^ 64 → 0 < base → base < 2 ^ 32 → do_div n base ≡ (n / base, n % base)
unfolding do_div
do_div_lem n base h p b =
    let start : Inv n base 64 (record { quotient = 0; remainder = 0 }) = record {
      value = omega arith;
      small = p;
    } in
    let v = turns-Inv n base 64 (record { quotient = 0; remainder = 0 }) p b start in
    let s = turns n base 64 (record { quotient = 0; remainder = 0 }) in
    let d = divided n s.quotient s.remainder base v.small (omega (arith, v.value)) in
    let cut : s.remainder % 2 ^ 32 ≡ n % base = omega (arith, d.1, v.small) in
    ap₂ (λ a c. (a, c)) d.0 cut

-- `__do_div_arch` of src/arch/i386/include/asm/div64.h: `divl` divides `high:low` by the divisor,
-- and raises a divide error (`none`) when the quotient does not fit 32 bits.
unfoldable pub do_div_arch : ℕ → ℕ → Option (ℕ × ℕ)
do_div_arch n base = if leb base (n / 2 ^ 32) then none else some (n / base, n % base)

-- The instruction and the generic loop agree wherever the instruction does not fault, and it
-- faults exactly when the true quotient is 2^32 or more.
do_div_arch_lem :
    (n base : ℕ)
    → n < 2 ^ 64
    → 0 < base
    → base < 2 ^ 32
    → do_div_arch n base ≡ (if leb (2 ^ 32) (do_div n base).0 then none else some (do_div n base))
unfolding do_div_arch
do_div_arch_lem n base h p b =
    let e = do_div_lem n base h p b in
    rw e (elim (Bool-cases (leb base (n / 2 ^ 32))) [
      | inl f ↦ rw f (rw (le→leb (2 ^ 32) (n / base) (high f)))
      | inr f ↦ rw f (rw (low f))
    ])
  where
    parts : base * (n / base) + n % base ≡ n
    parts = div-add-mod n base

    high : leb base (n / 2 ^ 32) ≡ true → 2 ^ 32 ≤ n / base
    high f = (le-div_iff_mul-le p).1 (omega (arith, leb→le base (n / 2 ^ 32) f))

    below : (a c : ℕ) → leb a c ≡ false → c < a
    below a c f = ground arith

    low : leb base (n / 2 ^ 32) ≡ false → leb (2 ^ 32) (n / base) ≡ false
    low f =
        let lt : n / base < 2 ^ 32 =
          (div-lt_iff_lt-mul p).1 (omega (arith, below base (n / 2 ^ 32) f)) in
        ground arith
