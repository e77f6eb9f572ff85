-- ===== src/Memory/Page/Cover.antt =====
-- How often a page lies in a block of the free lists, and how list operations change that.
use wey_os.Base.{
  ℕ, zero, suc, ◌+◌, ◌*◌, ◌^◌, ◌≤◌, ◌<◌, ◌≡◌, inl, inr, refl, ap, ◌∙◌, false, ◌&&◌, List, [], ◌∷◌,
  In, ltb, leb, ◌==◌, if◌then◌else◌, arith, Bool-cases,
}
use native.Mathlib.Nat.{lt_of_mul-lt-mul_right, mul-le-mul_right}
use wey_os.Base.Bits.{pow_two_suc, pow_two_pos}
use wey_os.Memory.Page.{max_order, update, remove}

-- Whether the block of 2^k pages from `p` on holds the page `a`.
abbrev pub inside : ℕ → ℕ → ℕ → ℕ
inside k p a = if leb p a && ltb a (p + 2 ^ k) then 1 else 0

-- The same, for blocks of order `lo` or more only.
abbrev pub weight : ℕ → ℕ → ℕ → ℕ → ℕ
weight lo k p a = if leb lo k then inside k p a else 0

-- The blocks of a list.
abbrev pub weights : ℕ → ℕ → List ℕ → ℕ → ℕ
weights lo k [] a = 0
weights lo k (p ∷ ps) a = weight lo k p a + weights lo k ps a

-- The blocks of the lists of the orders below `n`.
abbrev pub cover_below : ℕ → ℕ → (ℕ → List ℕ) → ℕ → ℕ
cover_below zero lo lists a = 0
cover_below (suc k) lo lists a = weights lo k (lists k) a + cover_below k lo lists a

-- How many free blocks of order `lo` or more hold the page `a`.
abbrev pub cover : ℕ → (ℕ → List ℕ) → ℕ → ℕ
cover lo lists a = cover_below max_order lo lists a

pub weights-remove :
    (lo k p : ℕ) (ps : List ℕ) (a : ℕ)
    → In p ps
    → weights lo k (remove p ps) a + weight lo k p a ≡ weights lo k ps a
unfolding remove
weights-remove lo k p [] a h = elim h [ ]
weights-remove lo k p (q ∷ qs) a h = elim (Bool-cases (p == q)) [
  | inl e ↦ let s : p ≡ q = ground arith in rw (e, s) (omega arith)
  | inr e ↦ elim h [
    | inl s ↦ absurd (ground arith)
    | inr s ↦ rw e (omega (arith, weights-remove lo k p qs a s))
  ]
]

-- A list of an order below `n` is replaced.
cover_below-above :
    (n lo : ℕ) (lists : ℕ → List ℕ) (k : ℕ) (ys : List ℕ) (a : ℕ)
    → n ≤ k
    → cover_below n lo (update lists k ys) a ≡ cover_below n lo lists a
cover_below-above zero lo lists k ys a h = refl
cover_below-above (suc n) lo lists k ys a h =
    let ih = cover_below-above n lo lists k ys a (omega arith) in
    let e : (k == n) ≡ false = ground arith in rw e (omega (arith, ih))

cover_below-update :
    (n lo : ℕ) (lists : ℕ → List ℕ) (k : ℕ) (ys : List ℕ) (a : ℕ)
    → k < n
    → cover_below n lo (update lists k ys) a + weights lo k (lists k) a
      ≡ cover_below n lo lists a + weights lo k ys a
cover_below-update zero lo lists k ys a h = absurd (omega arith)
cover_below-update (suc n) lo lists k ys a h = elim (Bool-cases (k == n)) [
  | inl e ↦
      let s : k ≡ n = ground arith in
      rw (e, s) (omega (arith, cover_below-above n lo lists n ys a (omega arith)))
  | inr e ↦ let ih = cover_below-update n lo lists k ys a (ground arith) in rw e (omega (arith, ih))
]

pub cover-update :
    (lo : ℕ) (lists : ℕ → List ℕ) (k : ℕ) (ys : List ℕ) (a : ℕ)
    → k < max_order
    → cover lo (update lists k ys) a + weights lo k (lists k) a
      ≡ cover lo lists a + weights lo k ys a
cover-update lo lists k ys a h = cover_below-update max_order lo lists k ys a h

-- A block is its two halves.
pub inside-halves : (k p a : ℕ) → inside (suc k) p a ≡ inside k p a + inside k (p + 2 ^ k) a
inside-halves k p a = let e = pow_two_suc k in let f = pow_two_pos k in ground arith

-- A multiple of 2^k.
abbrev pub IsAligned : ℕ → ℕ → Type 0
IsAligned k p = (i : ℕ) × (p ≡ i * 2 ^ k)

-- Multiples of `l` lie at least `l` apart.
pub step_up : (a b l : ℕ) → a * l < b * l → a * l + l ≤ b * l
step_up a b l lt =
    let up =
      mul-le-mul_right {m = a + 1} {n = b} l
        (let c = lt_of_mul-lt-mul_right l {m = a} {n = b} lt in omega arith) in
    grind arith

pub pow_two_multiple : (k m : ℕ) → k ≤ m → (x : ℕ) × (2 ^ m ≡ x * 2 ^ k)
pow_two_multiple zero m h = (2 ^ m, omega arith)
pow_two_multiple (suc k) zero h = absurd (omega arith)
pow_two_multiple (suc k) (suc m) h =
    let (x, e) = pow_two_multiple k m (omega arith) in
    (x, omega (arith, pow_two_suc m, e, ap (λ t. x * t) (pow_two_suc k), double x (2 ^ k)))
  where
    double : (x p : ℕ) → x * (2 * p) ≡ 2 * (x * p)
    double x p = grind arith

-- An aligned block of a higher order holds both halves of an aligned block or none.
pub inside-siblings :
    (m r k h : ℕ)
    → k < m
    → IsAligned m r
    → inside m r (h * 2 ^ suc k) ≡ inside m r (h * 2 ^ suc k + 2 ^ k)
inside-siblings m r k h lt (j, e) =
    let (x, f) = pow_two_multiple (suc k) m (omega arith) in
    let r_lem : r ≡ j * x * 2 ^ suc k = e ∙ grouped j x (2 ^ m) (2 ^ suc k) f in
    let end_lem : r + 2 ^ m ≡ (j * x + x) * 2 ^ suc k =
      omega (arith, spread (j * x) x (2 ^ suc k)) in
    let below = step_up h (j * x) (2 ^ suc k) in
    let above = step_up h (j * x + x) (2 ^ suc k) in
    let s = pow_two_suc k in let p = pow_two_pos k in ground arith
  where
    grouped : (j x n l : ℕ) → n ≡ x * l → j * n ≡ j * x * l
    grouped j x n l g = grind arith

    spread : (a b l : ℕ) → (a + b) * l ≡ a * l + b * l
    spread a b l = grind arith
