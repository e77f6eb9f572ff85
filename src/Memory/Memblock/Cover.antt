-- ===== src/Memory/Memblock/Cover.antt =====
-- Which addresses a table covers, and that sorting and merging keep them.
use wey_os.Base.{
  ℕ, ◌+◌, ◌≤◌, ◌≡◌, refl, ◌∙◌, ap, Bool, false, ◌&&◌, ◌||◌, List, [], ◌∷◌, ◌++◌, ltb, leb, arith,
  Bool-cases, inl, inr, All, reverse_onto, sym, or_assoc, or_rotate, or_swap, or_false,
}
use wey_os.Memory.Memblock.{
  Region, MemblockType, shift, sort_from, sort, end_of, absorb, merge_from, merge,
}
use wey_os.Memory.Memblock.Order.{Fits, Asc, end_of-Fits, absorb-Fits}

-- `a` lies in `[base, base + size)`.
abbrev pub within : ℕ → ℕ → ℕ → Bool
within a base size = leb base a && ltb a (base + size)

abbrev pub covers : ℕ → List Region → Bool
covers a [] = false
covers a (r ∷ rs) = within a r.base r.size || covers a rs

covers-shift :
    (a : ℕ) (key : Region) (rs : List Region) → covers a (shift key rs) ≡ covers a (key ∷ rs)
unfolding shift
covers-shift a key [] = refl
covers-shift a key (r ∷ rs) = elim (Bool-cases (ltb key.base r.base)) [
  | inl e ↦ rw e (
      ap (λ c. within a r.base r.size || c) (covers-shift a key rs)
      ∙ or_swap (within a r.base r.size) (within a key.base key.size) (covers a rs))
  | inr e ↦ rw e refl
]

covers-sort_from :
    (a : ℕ) (prefix rest : List Region)
    → covers a (sort_from prefix rest) ≡ (covers a rest || covers a prefix)
unfolding sort_from
covers-sort_from a prefix [] = refl
covers-sort_from a prefix (key ∷ rest) =
    covers-sort_from a (shift key prefix) rest
    ∙ ap (λ c. covers a rest || c) (covers-shift a key prefix)
    ∙ or_rotate (covers a rest) (within a key.base key.size) (covers a prefix)

covers-reverse_onto :
    (a : ℕ) (xs ys : List Region) → covers a (reverse_onto xs ys) ≡ (covers a xs || covers a ys)
covers-reverse_onto a [] ys = refl
covers-reverse_onto a (x ∷ xs) ys =
    covers-reverse_onto a xs (x ∷ ys)
    ∙ or_rotate (covers a xs) (within a x.base x.size) (covers a ys)

pub covers-append :
    (a : ℕ) (xs ys : List Region) → covers a (xs ++ ys) ≡ (covers a xs || covers a ys)
covers-append a [] ys = refl
covers-append a (x ∷ xs) ys =
    ap (λ c. within a x.base x.size || c) (covers-append a xs ys)
    ∙ sym (or_assoc (within a x.base x.size) (covers a xs) (covers a ys))

pub covers-sort : (a : ℕ) (rs : List Region) → covers a (sort rs) ≡ covers a rs
unfolding sort
covers-sort a rs =
    covers-reverse_onto a (sort_from [] rs) []
    ∙ or_false (covers a (sort_from [] rs))
    ∙ covers-sort_from a [] rs
    ∙ or_false (covers a rs)

covers-absorb :
    (a : ℕ) (out cur : Region)
    → Fits out
    → Fits cur
    → out.base ≤ cur.base
    → cur.base ≤ out.base + out.size
    → within a (absorb out cur).base (absorb out cur).size
      ≡ (within a out.base out.size || within a cur.base cur.size)
unfolding absorb
covers-absorb a out cur f g h k = ground (arith, end_of-Fits out f, end_of-Fits cur g)

-- Merging neither loses nor invents an address.
pub covers-merge_from :
    (a : ℕ) (out : Region) (rest : List Region)
    → Fits out
    → All Fits rest
    → Asc out.base rest
    → covers a (merge_from out rest) ≡ covers a (out ∷ rest)
unfolding merge_from
covers-merge_from a out [] f al s = refl
covers-merge_from a out (cur ∷ rest) f al s = elim (Bool-cases (leb cur.base (end_of out))) [
  | inl e ↦
      let step : ((absorb out cur).base ≡ out.base) × Fits (absorb out cur) =
        absorb-Fits out cur f al.0 s.0 in
      rw e (
        covers-merge_from a (absorb out cur) rest step.1 al.1 (lower rest (omega arith) s.1)
        ∙ ap (λ c. c || covers a rest)
            (covers-absorb a out cur f al.0 s.0 (ground (arith, end_of-Fits out f)))
        ∙ or_assoc (within a out.base out.size) (within a cur.base cur.size) (covers a rest))
  | inr e ↦
      rw e (ap (λ c. within a out.base out.size || c) (covers-merge_from a cur rest al.0 al.1 s.1))
]
  where
    lower :
        (rs : List Region)
        → (absorb out cur).base ≤ cur.base
        → Asc cur.base rs
        → Asc (absorb out cur).base rs
    lower [] h t = tt
    lower (r ∷ rs) h t = (omega arith, t.1)

-- Merging a sorted table keeps the covered addresses.
pub covers-merge :
    (a : ℕ) (t : MemblockType)
    → All Fits t.regions
    → Asc 0 t.regions
    → covers a (merge t).regions ≡ covers a t.regions
unfolding merge
covers-merge a t al s = go t.regions (λ i. t.regions) al s
  where
    go :
        (rs : List Region)
        → t.regions ≡ rs
        → All Fits rs
        → Asc 0 rs
        → covers a (merge t).regions ≡ covers a t.regions
    go [] e b u = rw (e, merge) (rw e refl)
    go (r ∷ []) e b u = rw (e, merge) (rw e refl)
    go (r ∷ q ∷ rs) e b u = rw (e, merge) (covers-merge_from a r (q ∷ rs) b.0 b.1 u.1)
