-- ===== src/Memory/Heap/Slots.antt =====
-- How often a number stands in a list, and the objects of a slab.
use native.Mathlib.Nat.{eq_of_mul-eq-mul_right}
use wey_os.Base.{
  ℕ, zero, suc, ◌+◌, ◌-◌, ◌*◌, ◌≤◌, ◌<◌, ◌≡◌, ◌≢◌, inl, inr, refl, ap, sym, ◌∙◌, false, List, [],
  ◌∷◌, ◌==◌, if◌then◌else◌, arith, Bool-cases, length,
}
use wey_os.Memory.Page.{remove}

abbrev same : ℕ → ℕ → ℕ
same a b = if a == b then 1 else 0

-- How often `a` stands in a list.
abbrev pub occ : ℕ → List ℕ → ℕ
occ a [] = 0
occ a (x ∷ xs) = same a x + occ a xs

-- The `n` objects from `start` on.
abbrev pub IsSlot : ℕ → ℕ → ℕ → ℕ → Type 0
IsSlot n start size a = (j : ℕ) × (j < n) × (a ≡ start + j * size)

-- The sum of `f` below `n`.
abbrev total : ℕ → (ℕ → ℕ) → ℕ
total zero f = 0
total (suc n) f = f n + total n f

total-add : (n : ℕ) (f g : ℕ → ℕ) → total n (λ j. f j + g j) ≡ total n f + total n g
total-add zero f g = refl
total-add (suc n) f g = omega (arith, total-add n f g)

total-zero : (n : ℕ) (f : ℕ → ℕ) → ((j : ℕ) → j < n → f j ≡ 0) → total n f ≡ 0
total-zero zero f e = refl
total-zero (suc n) f e = omega (arith, e n (omega arith), total-zero n f (λ j l. e j (omega arith)))

total-one : (n k : ℕ) (f : ℕ → ℕ) → k < n → f k ≡ 1 → ((j : ℕ) → j ≢ k → f j ≡ 0) → total n f ≡ 1
total-one zero k f l e z = absurd (omega arith)
total-one (suc n) k f l e z = elim (Bool-cases (k == n)) [
  | inl s ↦
      let t : k ≡ n = ground arith in
      let v = ap f t in
      let w = total-zero n f (λ j m. z j (λ u. absurd (omega arith))) in omega arith
  | inr s ↦
      let v = z n (λ u. absurd (ground arith)) in
      let w = total-one n k f (ground arith) e z in omega arith
]

total-bound : (n : ℕ) (f : ℕ → ℕ) → ((j : ℕ) → f j ≤ 1) → total n f ≤ n
total-bound zero f u = omega arith
total-bound (suc n) f u = omega (arith, u n, total-bound n f u)

-- Numbers that are at most one and sum to how many they are.
total-full : (n : ℕ) (f : ℕ → ℕ) → ((j : ℕ) → f j ≤ 1) → n ≤ total n f → (j : ℕ) → j < n → f j ≡ 1
total-full zero f u t j l = absurd (omega arith)
total-full (suc n) f u t j l =
    let b = total-bound n f u in
    let v = u n in
    elim (Bool-cases (n == j)) [
      | inl e ↦ let s : n ≡ j = ground arith in let w = ap f s in omega arith
      | inr e ↦ total-full n f u (omega arith) j (ground arith)
    ]

pub occ_self : (a : ℕ) (xs : List ℕ) → occ a (a ∷ xs) ≡ suc (occ a xs)
occ_self a xs = ground arith

pub occ_ne : (a b : ℕ) (xs : List ℕ) → a ≢ b → occ a (b ∷ xs) ≡ occ a xs
occ_ne a b xs n = let e : (a == b) ≡ false = ground arith in rw e (omega arith)

pub occ-remove : (a b : ℕ) (xs : List ℕ) → a ≢ b → occ a (remove b xs) ≡ occ a xs
unfolding remove
occ-remove a b [] n = refl
occ-remove a b (x ∷ xs) n = elim (Bool-cases (b == x)) [
  | inl e ↦
      let s : b ≡ x = ground arith in rw e (let f = occ_ne a x xs (λ t. n (t ∙ sym s)) in sym f)
  | inr e ↦ let ih = occ-remove a b xs n in rw e (omega arith)
]

pub occ-remove_self : (a : ℕ) (xs : List ℕ) → occ a (remove a xs) ≡ occ a xs - 1
unfolding remove
occ-remove_self a [] = refl
occ-remove_self a (x ∷ xs) = elim (Bool-cases (a == x)) [
  | inl e ↦ rw e (omega arith)
  | inr e ↦ let ih = occ-remove_self a xs in rw (e, e) (omega arith)
]

-- The multiples of a positive number differ.
pub slot-ne : (start size j k : ℕ) → 0 < size → start + j * size ≡ start + k * size → j ≡ k
slot-ne start size j k p e = eq_of_mul-eq-mul_right size p j k (omega arith)

-- A list of objects that stands without repetition is as long as the slab has objects only when it
-- holds all of them.
total-occ :
    (n start size : ℕ) (xs : List ℕ)
    → 0 < size
    → ((a : ℕ) → 0 < occ a xs → IsSlot n start size a)
    → total n (λ j. occ (start + j * size) xs) ≡ length xs
total-occ n start size [] p s = total-zero n (λ j. 0) (λ j l. refl)
total-occ n start size (x ∷ xs) p s =
    let (k, l, e) = s x (let o = occ_self x xs in omega arith) in
    let one =
      total-one n k (λ j. same (start + j * size) x) l (ground arith)
        (λ j m.
          let t : start + j * size ≢ x = (λ f. m (slot-ne start size j k p (f ∙ e))) in
          ground arith) in
    total-add n (λ j. same (start + j * size) x) (λ j. occ (start + j * size) xs)
    ∙ (let ih = total-occ n start size xs p (λ a o. s a (omega arith)) in omega arith)

pub occ_full :
    (n start size : ℕ) (xs : List ℕ)
    → 0 < size
    → ((a : ℕ) → 0 < occ a xs → IsSlot n start size a)
    → ((a : ℕ) → occ a xs ≤ 1)
    → n ≤ length xs
    → (a : ℕ) → IsSlot n start size a
    → occ a xs ≡ 1
occ_full n start size xs p s u l a (j, m, e) =
    let t = total-occ n start size xs p s in
    ap (λ x. occ x xs) e
    ∙ total-full n (λ j. occ (start + j * size) xs) (λ j. u (start + j * size)) (omega arith) j m

pub length-slots :
    (n start size : ℕ) (xs : List ℕ)
    → 0 < size
    → ((a : ℕ) → 0 < occ a xs → IsSlot n start size a)
    → ((a : ℕ) → occ a xs ≤ 1)
    → length xs ≤ n
length-slots n start size xs p s u =
    let t = total-occ n start size xs p s in
    let b = total-bound n (λ j. occ (start + j * size) xs) (λ j. u (start + j * size)) in
    omega arith
