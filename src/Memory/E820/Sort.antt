-- ===== src/Memory/E820/Sort.antt =====
-- `e820_sort` orders the entries by base address, and loses and invents none.
use wey_os.Base.{
  ℕ, ◌+◌, ◌≤◌, ◌≡◌, inl, inr, refl, Bool, List, [], ◌∷◌, ltb, if◌then◌else◌, arith, Bool-cases, All,
  reverse_onto,
}
use wey_os.Memory.E820.{Entry, shift, sort_from, e820_sort}

-- Ascending from `lo` on, and descending from `hi` on.
abbrev pub Asc : ℕ → List Entry → Type 0
Asc lo [] = Unit
Asc lo (e ∷ es) = (lo ≤ e.base_addr) × Asc e.base_addr es

abbrev Desc : ℕ → List Entry → Type 0
Desc hi [] = Unit
Desc hi (e ∷ es) = (e.base_addr ≤ hi) × Desc e.base_addr es

-- How many entries a test picks.
abbrev pub count : (Entry → Bool) → List Entry → ℕ
count p [] = 0
count p (e ∷ es) = (if p e then 1 else 0) + count p es

shift-Desc :
    (hi : ℕ) (key : Entry) (es : List Entry)
    → Desc hi es
    → key.base_addr ≤ hi
    → Desc hi (shift key es)
unfolding shift
shift-Desc hi key [] d l = (l, tt)
shift-Desc hi key (e ∷ es) d l = elim (Bool-cases (ltb key.base_addr e.base_addr)) [
  | inl x ↦ rw x (d.0, shift-Desc e.base_addr key es d.1 (ground arith))
  | inr x ↦ rw x (l, (ground arith, d.1))
]

sort_from-Desc :
    (hi : ℕ) (sorted es : List Entry)
    → Desc hi sorted
    → All (λ e. e.base_addr ≤ hi) es
    → Desc hi (sort_from sorted es)
unfolding sort_from
sort_from-Desc hi sorted [] d a = d
sort_from-Desc hi sorted (key ∷ es) d a =
    sort_from-Desc hi (shift key sorted) es (shift-Desc hi key sorted d a.0) a.1

Asc-weaken : (lo hi : ℕ) (es : List Entry) → lo ≤ hi → Asc hi es → Asc lo es
Asc-weaken lo hi [] l a = tt
Asc-weaken lo hi (e ∷ es) l a = (omega arith, a.1)

reverse_onto-Asc :
    (hi : ℕ) (xs ys : List Entry) → Desc hi xs → Asc hi ys → Asc 0 (reverse_onto xs ys)
reverse_onto-Asc hi [] ys d a = Asc-weaken 0 hi ys (omega arith) a
reverse_onto-Asc hi (x ∷ xs) ys d a =
    reverse_onto-Asc x.base_addr xs (x ∷ ys) d.1 (omega arith, Asc-weaken x.base_addr hi ys d.0 a)

-- A bound on the base addresses.
abbrev bound : List Entry → ℕ
bound [] = 0
bound (e ∷ es) = e.base_addr + bound es

All-bound : (hi : ℕ) (es : List Entry) → bound es ≤ hi → All (λ e. e.base_addr ≤ hi) es
All-bound hi [] l = tt
All-bound hi (e ∷ es) l = (omega arith, All-bound hi es (omega arith))

count-shift :
    (p : Entry → Bool) (key : Entry) (es : List Entry) → count p (shift key es) ≡ count p (key ∷ es)
unfolding shift
count-shift p key [] = refl
count-shift p key (e ∷ es) = elim (Bool-cases (ltb key.base_addr e.base_addr)) [
  | inl x ↦ let ih = count-shift p key es in rw x (omega arith)
  | inr x ↦ rw x refl
]

count-sort_from :
    (p : Entry → Bool) (sorted es : List Entry)
    → count p (sort_from sorted es) ≡ count p sorted + count p es
unfolding sort_from
count-sort_from p sorted [] = omega arith
count-sort_from p sorted (key ∷ es) =
    let ih = count-sort_from p (shift key sorted) es in
    let s = count-shift p key sorted in omega arith

count-reverse_onto :
    (p : Entry → Bool) (xs ys : List Entry) → count p (reverse_onto xs ys) ≡ count p xs + count p ys
count-reverse_onto p [] ys = omega arith
count-reverse_onto p (x ∷ xs) ys = let ih = count-reverse_onto p xs (x ∷ ys) in omega arith

-- `e820_sort` leaves the entries with ascending base addresses, and every entry as often as it was
-- there: any test picks as many entries before and after.
e820_sort-Asc :
    (es : List Entry)
    → Asc 0 (e820_sort es) × ((p : Entry → Bool) → count p (e820_sort es) ≡ count p es)
unfolding e820_sort
e820_sort-Asc es = (
  reverse_onto-Asc (bound es) (sort_from [] es) []
      (sort_from-Desc (bound es) [] es tt (All-bound (bound es) es (omega arith))) tt,
  λ p.
      let r = count-reverse_onto p (sort_from [] es) [] in
      let s = count-sort_from p [] es in omega arith,
)
