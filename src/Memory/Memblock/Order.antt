-- ===== src/Memory/Memblock/Order.antt =====
-- The order that `memblock_sort` and `memblock_merge` establish: regions that lie below
-- UINTPTR_MAX, ascending, and with a gap before each next one.
use wey_os.Base.{
  ℕ, suc, ◌+◌, ◌≤◌, ◌<◌, ◌≡◌, inl, inr, List, [], ◌∷◌, ◌++◌, ltb, leb, arith, Bool-cases, All,
  length, reverse_onto,
}
use wey_os.Memory.Memblock.{
  Region, MemblockType, uintptr_max, shift, sort_from, sort, end_of, absorb, merge_from, merge,
}

-- A region that is not empty and whose end does not pass UINTPTR_MAX.
pub record Fits (r : Region) : Type 0 where
  pub pos : 0 < r.size
  pub bound : r.base + r.size ≤ uintptr_max

-- Ascending, separated regions that fit, from `lo` on.
abbrev pub Table : ℕ → List Region → Type 0
Table lo [] = Unit
Table lo (r ∷ rs) = (lo ≤ r.base) × Fits r × Table (r.base + r.size + 1) rs

abbrev pub Asc : ℕ → List Region → Type 0
Asc lo [] = Unit
Asc lo (r ∷ rs) = (lo ≤ r.base) × Asc r.base rs

abbrev Desc : ℕ → List Region → Type 0
Desc hi [] = Unit
Desc hi (r ∷ rs) = (r.base ≤ hi) × Desc r.base rs

pub end_of-Fits : (r : Region) → Fits r → end_of r ≡ r.base + r.size
unfolding end_of
end_of-Fits r f = ground arith

pub Table-weaken : (lo lo' : ℕ) (rs : List Region) → lo' ≤ lo → Table lo rs → Table lo' rs
Table-weaken lo lo' [] h t = tt
Table-weaken lo lo' (r ∷ rs) h t = (omega arith, t.1, t.2)

pub Table-Fits : (lo : ℕ) (rs : List Region) → Table lo rs → All Fits rs
Table-Fits lo [] t = tt
Table-Fits lo (r ∷ rs) t = (t.1, Table-Fits (r.base + r.size + 1) rs t.2)

Asc-weaken : (lo lo' : ℕ) (rs : List Region) → lo' ≤ lo → Asc lo rs → Asc lo' rs
Asc-weaken lo lo' [] h t = tt
Asc-weaken lo lo' (r ∷ rs) h t = (omega arith, t.1)

Desc-shift :
    (hi : ℕ) (key : Region) (rs : List Region) → key.base ≤ hi → Desc hi rs → Desc hi (shift key rs)
unfolding shift
Desc-shift hi key [] h d = (h, tt)
Desc-shift hi key (r ∷ rs) h d = elim (Bool-cases (ltb key.base r.base)) [
  | inl e ↦ rw e (d.0, Desc-shift r.base key rs (ground arith) d.1)
  | inr e ↦ rw e (h, (ground arith, d.1))
]

Fits-shift : (key : Region) (rs : List Region) → Fits key → All Fits rs → All Fits (shift key rs)
unfolding shift
Fits-shift key [] f a = (f, tt)
Fits-shift key (r ∷ rs) f a = elim (Bool-cases (ltb key.base r.base)) [
  | inl e ↦ rw e (a.0, Fits-shift key rs f a.1)
  | inr e ↦ rw e (f, (a.0, a.1))
]

sort_from-Desc :
    (prefix rest : List Region)
    → Desc uintptr_max prefix
    → All Fits rest
    → Desc uintptr_max (sort_from prefix rest)
unfolding sort_from
sort_from-Desc prefix [] d a = d
sort_from-Desc prefix (key ∷ rest) d a =
    sort_from-Desc (shift key prefix) rest
      (Desc-shift uintptr_max key prefix (omega (arith, a.0.bound)) d) a.1

sort_from-Fits :
    (prefix rest : List Region) → All Fits prefix → All Fits rest → All Fits (sort_from prefix rest)
unfolding sort_from
sort_from-Fits prefix [] d a = d
sort_from-Fits prefix (key ∷ rest) d a =
    sort_from-Fits (shift key prefix) rest (Fits-shift key prefix a.0 d) a.1

Asc-reverse_onto : (b : ℕ) (xs ys : List Region) → Desc b xs → Asc b ys → Asc 0 (reverse_onto xs ys)
Asc-reverse_onto b [] ys d a = Asc-weaken b 0 ys (omega arith) a
Asc-reverse_onto b (x ∷ xs) ys d a =
    Asc-reverse_onto x.base xs (x ∷ ys) d.1 (omega arith, Asc-weaken b x.base ys d.0 a)

All-reverse_onto : (xs ys : List Region) → All Fits xs → All Fits ys → All Fits (reverse_onto xs ys)
All-reverse_onto [] ys a b = b
All-reverse_onto (x ∷ xs) ys a b = All-reverse_onto xs (x ∷ ys) a.1 (a.0, b)

pub All-append : (xs ys : List Region) → All Fits xs → All Fits ys → All Fits (xs ++ ys)
All-append [] ys a b = b
All-append (x ∷ xs) ys a b = (a.0, All-append xs ys a.1 b)

pub sort-Asc : (rs : List Region) → All Fits rs → Asc 0 (sort rs) × All Fits (sort rs)
unfolding sort
sort-Asc rs a = (
  Asc-reverse_onto uintptr_max (sort_from [] rs) [] (sort_from-Desc [] rs tt a) tt,
  All-reverse_onto (sort_from [] rs) [] (sort_from-Fits [] rs tt a) tt,
)

pub absorb-Fits :
    (out cur : Region)
    → Fits out
    → Fits cur
    → out.base ≤ cur.base
    → ((absorb out cur).base ≡ out.base) × Fits (absorb out cur)
unfolding absorb
absorb-Fits out cur f g h = ground (arith, end_of-Fits out f, end_of-Fits cur g)

pub merge_from-Table :
    (out : Region) (rest : List Region)
    → Fits out
    → All Fits rest
    → Asc out.base rest
    → Table out.base (merge_from out rest)
unfolding merge_from
merge_from-Table out [] f a s = (omega arith, f, tt)
merge_from-Table out (cur ∷ rest) f a s = elim (Bool-cases (leb cur.base (end_of out))) [
  | inl e ↦
      let step : ((absorb out cur).base ≡ out.base) × Fits (absorb out cur) =
        absorb-Fits out cur f a.0 s.0 in
      rw e (
        Table-weaken (absorb out cur).base out.base (merge_from (absorb out cur) rest) (omega arith)
          (merge_from-Table (absorb out cur) rest step.1 a.1
            (Asc-weaken cur.base (absorb out cur).base rest (omega arith) s.1)))
  | inr e ↦ rw e (
    omega arith,
    f,
    Table-weaken cur.base (out.base + out.size + 1) (merge_from cur rest)
        (ground (arith, end_of-Fits out f)) (merge_from-Table cur rest a.0 a.1 s.1),
  )
]

pub merge-Table :
    (t : MemblockType) → All Fits t.regions → Asc 0 t.regions → Table 0 (merge t).regions
unfolding merge
merge-Table t a s = go t.regions refl' a s
  where
    refl' : t.regions ≡ t.regions
    refl' = λ i. t.regions

    go : (rs : List Region) → t.regions ≡ rs → All Fits rs → Asc 0 rs → Table 0 (merge t).regions
    go [] e a s = rw (e, merge) (rw e tt)
    go (r ∷ []) e a s = rw (e, merge) (rw e (s.0, a.0, tt))
    go (r ∷ q ∷ rs) e a s =
        rw (e, merge)
          (Table-weaken r.base 0 (merge_from r (q ∷ rs)) (omega arith)
            (merge_from-Table r (q ∷ rs) a.0 a.1 s.1))

length-shift : (key : Region) (rs : List Region) → length (shift key rs) ≡ suc (length rs)
unfolding shift
length-shift key [] = refl'
  where
    refl' : 1 ≡ suc (length {A = Region} [])
    refl' = omega arith
length-shift key (r ∷ rs) = ground (arith, length-shift key rs)

length-sort_from :
    (prefix rest : List Region) → length (sort_from prefix rest) ≡ length prefix + length rest
unfolding sort_from
length-sort_from prefix [] = omega arith
length-sort_from prefix (key ∷ rest) =
    omega (arith, length-sort_from (shift key prefix) rest, length-shift key prefix)

length-reverse_onto : (xs ys : List Region) → length (reverse_onto xs ys) ≡ length xs + length ys
length-reverse_onto [] ys = omega arith
length-reverse_onto (x ∷ xs) ys = omega (arith, length-reverse_onto xs (x ∷ ys))

pub length-sort : (rs : List Region) → length (sort rs) ≡ length rs
unfolding sort
length-sort rs = omega (arith, length-reverse_onto (sort_from [] rs) [], length-sort_from [] rs)

pub length-merge_from :
    (out : Region) (rest : List Region) → length (merge_from out rest) ≤ suc (length rest)
unfolding merge_from
length-merge_from out [] = omega arith
length-merge_from out (cur ∷ rest) =
    ground (arith, length-merge_from (absorb out cur) rest, length-merge_from cur rest)
