-- ===== src/Memory/Memblock/Reserve.antt =====
-- `memblock_add`, `memblock_reserve` and `memblock_is_reserved`.
use wey_os.Base.{
  ℕ, ◌+◌, ◌%◌, ◌^◌, max, ◌≤◌, ◌<◌, ◌≡◌, ◌↔◌, refl, ◌∙◌, ap, inl, inr, false, ◌||◌, List, [], ◌∷◌,
  ◌++◌, leb, ◌==◌, arith, Bool-cases, length, length-append, or_false,
}
use wey_os.Memory.Memblock.{
  Region, MemblockType, Memblock, uintptr_max, max_regions, sort, merge, merge_from, total_from,
  insert, overlaps, any_overlap, is_reserved,
}
use wey_os.Memory.Memblock.Order.{
  Table, Table-Fits, sort-Asc, merge-Table, All-append, length-sort, length-merge_from,
}
use wey_os.Memory.Memblock.Cover.{within, covers, covers-append, covers-sort, covers-merge}

abbrev placed : MemblockType → ℕ → ℕ → MemblockType
placed t base size = record t {
  regions = sort (t.regions ++ (record { base = base; size = size }) ∷ []);
}

insert_room :
    (t : MemblockType) (base size : ℕ)
    → 0 < size
    → length t.regions < max_regions
    → insert t base size ≡ merge (placed t base size)
unfolding insert
insert_room t base size p h = ground arith

insert_full :
    (t : MemblockType) (base size : ℕ) → max_regions ≤ length t.regions → insert t base size ≡ t
unfolding insert
insert_full t base size h = ground arith

insert_none : (t : MemblockType) (base size : ℕ) → size ≡ 0 → insert t base size ≡ t
unfolding insert
insert_none t base size h = ground arith

module _ (t : MemblockType) (base size : ℕ) (table : Table 0 t.regions)
    (bound : base + size ≤ uintptr_max) (pos : 0 < size) where
  sorted : Table 0 (merge (placed t base size)).regions
  sorted =
      let all =
        All-append t.regions ((record { base = base; size = size }) ∷ [])
          (Table-Fits 0 t.regions table) (record { pos = pos; bound = bound }, tt) in
      let s = sort-Asc (t.regions ++ (record { base = base; size = size }) ∷ []) all in
      merge-Table (placed t base size) s.1 s.0

  covered :
      (a : ℕ)
      → covers a (merge (placed t base size)).regions ≡ (covers a t.regions || within a base size)
  covered a =
      let all =
        All-append t.regions ((record { base = base; size = size }) ∷ [])
          (Table-Fits 0 t.regions table) (record { pos = pos; bound = bound }, tt) in
      let s = sort-Asc (t.regions ++ (record { base = base; size = size }) ∷ []) all in
      covers-merge a (placed t base size) s.1 s.0
      ∙ covers-sort a (t.regions ++ (record { base = base; size = size }) ∷ [])
      ∙ covers-append a t.regions ((record { base = base; size = size }) ∷ [])
      ∙ ap (λ c. covers a t.regions || c) (or_false (within a base size))

-- A table of ascending, separated, non-overflowing regions is one again after `memblock_add` or
-- `memblock_reserve` of any range that ends at or below UINTPTR_MAX, also an empty one and also
-- when the table is full.
pub insert-Table :
    (t : MemblockType) (base size : ℕ)
    → Table 0 t.regions
    → base + size ≤ uintptr_max
    → Table 0 (insert t base size).regions
insert-Table t base size table bound = elim (Bool-cases (size == 0)) [
  | inl e ↦ rw (insert_none t base size (ground arith)) table
  | inr e ↦ elim (Bool-cases (leb max_regions (length t.regions))) [
    | inl f ↦ rw (insert_full t base size (ground arith)) table
    | inr f ↦
        rw (insert_room t base size (ground arith) (ground arith))
          (sorted t base size table bound (ground arith))
  ]
]

-- While there is room, inserting a range that ends at or below UINTPTR_MAX into a table of ascending,
-- separated, non-overflowing regions makes an address covered exactly when it was covered or lies in
-- the range: sorting and merging lose and invent nothing.
pub insert-covers :
    (t : MemblockType) (base size a : ℕ)
    → Table 0 t.regions
    → base + size ≤ uintptr_max
    → length t.regions < max_regions
    → covers a (insert t base size).regions ≡ (covers a t.regions || within a base size)
insert-covers t base size a table bound room = elim (Bool-cases (size == 0)) [
  | inl e ↦ rw (insert_none t base size (ground arith)) (ground arith)
  | inr e ↦
      rw (insert_room t base size (ground arith) room)
        (covered t base size table bound (ground arith) a)
]

length-merge : (t : MemblockType) → length (merge t).regions ≤ length t.regions
unfolding merge
length-merge t = go t.regions (λ i. t.regions)
  where
    go : (rs : List Region) → t.regions ≡ rs → length (merge t).regions ≤ length t.regions
    go [] e = rw (e, merge) (rw e (omega arith))
    go (r ∷ []) e = rw (e, merge) (rw e (omega arith))
    go (r ∷ q ∷ rs) e = rw (e, merge) (length-merge_from r (q ∷ rs))

-- The array of MAX_REGIONS entries is never overrun, whatever is inserted.
pub insert-length :
    (t : MemblockType) (base size : ℕ)
    → length t.regions ≤ max_regions
    → length (insert t base size).regions ≤ max_regions
insert-length t base size h = elim (Bool-cases (size == 0)) [
  | inl e ↦ rw (insert_none t base size (ground arith)) h
  | inr e ↦ elim (Bool-cases (leb max_regions (length t.regions))) [
    | inl f ↦ rw (insert_full t base size (ground arith)) h
    | inr f ↦
        let room : length t.regions < max_regions = ground arith in
        rw (insert_room t base size (ground arith) room) (
          omega (
            arith,
            length-merge (placed t base size),
            length-sort (t.regions ++ (record { base = base; size = size }) ∷ []),
            length-append t.regions ((record { base = base; size = size }) ∷ []),
          ))
  ]
]

-- The sum of the sizes.
abbrev pub sizes : List Region → ℕ
sizes [] = 0
sizes (r ∷ rs) = r.size + sizes rs

sizes-Table :
    (lo : ℕ) (rs : List Region) → Table lo rs → lo ≤ uintptr_max → lo + sizes rs ≤ uintptr_max + 1
sizes-Table lo [] t h = omega arith
sizes-Table lo (r ∷ rs) t h = elim (Bool-cases (leb uintptr_max (r.base + r.size))) [
  | inl e ↦ last rs t.2 (ground arith)
  | inr e ↦ omega (arith, sizes-Table (r.base + r.size + 1) rs t.2 (ground arith), t.0, t.1.pos)
]
  where
    last :
        (rs : List Region)
        → Table (r.base + r.size + 1) rs
        → uintptr_max ≤ r.base + r.size
        → lo + (r.size + sizes rs) ≤ uintptr_max + 1
    last [] u e = omega (arith, t.0, t.1.bound)
    last (q ∷ qs) u e = absurd (omega (arith, u.0, u.1.pos, u.1.bound))

total_from-sizes :
    (acc : ℕ) (rs : List Region) → acc + sizes rs < 2 ^ 64 → total_from acc rs ≡ acc + sizes rs
unfolding total_from
total_from-sizes acc [] h = omega arith
total_from-sizes acc (r ∷ rs) h =
    let e : (acc + r.size) % 2 ^ 64 ≡ acc + r.size = omega arith in
    rw e (omega (arith, total_from-sizes (acc + r.size) rs (omega arith)))

total_from-sizes_zero : (rs : List Region) → sizes rs < 2 ^ 64 → total_from 0 rs ≡ sizes rs
total_from-sizes_zero rs h = omega (arith, total_from-sizes 0 rs (omega arith))

any_overlap_free :
    (lo base end : ℕ) (rs : List Region)
    → Table lo rs
    → base < end
    → (any_overlap base end rs ≡ false) ↔ ((a : ℕ) → base ≤ a → a < end → covers a rs ≡ false)
unfolding any_overlap overlaps
any_overlap_free lo base end [] t h = (λ _ a p q. refl, λ _. refl)
any_overlap_free lo base end (r ∷ rs) t h =
    let ih = any_overlap_free (r.base + r.size + 1) base end rs t.2 h in
    (
      λ e a p q. ground (arith, ih.0 (ground arith) a p q, t.1.bound),
      λ all. ground (
        arith,
        t.1.bound,
        t.1.pos,
        all (max base r.base),
        ih.1 (λ a p q. ground (arith, all a p q)),
      ),
    )

-- `memblock_is_reserved` says no exactly when no address of the range is covered by a reserved
-- region, for a range that is not empty and ends at or below UINTPTR_MAX.
pub is_reserved_free :
    (m : Memblock) (base size : ℕ)
    → Table 0 m.reserved.regions
    → 0 < size
    → base + size ≤ uintptr_max
    → (is_reserved m base size ≡ false)
      ↔ ((a : ℕ) → base ≤ a → a < base + size → covers a m.reserved.regions ≡ false)
unfolding is_reserved
is_reserved_free m base size t pos bound =
    let free = any_overlap_free 0 base (base + size) m.reserved.regions t (omega arith) in
    (λ e. free.0 (ground arith), λ all. ground (arith, free.1 all))

totalmem-merge :
    (t : MemblockType)
    → 2 ≤ length t.regions
    → Table 0 (merge t).regions
    → (merge t).totalmem ≡ sizes (merge t).regions
unfolding merge
totalmem-merge t = go t.regions (λ i. t.regions)
  where
    go :
        (rs : List Region)
        → t.regions ≡ rs
        → 2 ≤ length t.regions
        → Table 0 (merge t).regions
        → (merge t).totalmem ≡ sizes (merge t).regions
    go [] e h u = absurd (omega (arith, ap length e))
    go (r ∷ []) e h u = absurd (omega (arith, ap length e))
    go (r ∷ q ∷ rs) e h u =
        let u' : Table 0 (merge_from r (q ∷ rs)) = rw (e, merge) at u in
        rw (e, merge)
          (total_from-sizes_zero (merge_from r (q ∷ rs))
            (omega (arith, sizes-Table 0 (merge_from r (q ∷ rs)) u' (omega arith))))

-- After an insertion into a table that already has a region and has room, `totalmem` is the sum
-- of the sizes of the regions: the 64-bit sum does not wrap.
insert-totalmem :
    (t : MemblockType) (base size : ℕ)
    → Table 0 t.regions
    → base + size ≤ uintptr_max
    → 0 < size
    → 0 < length t.regions
    → length t.regions < max_regions
    → (insert t base size).totalmem ≡ sizes (insert t base size).regions
insert-totalmem t base size table bound pos one room = rw (insert_room t base size pos room) (
    totalmem-merge (placed t base size)
      (omega (
        arith,
        length-sort (t.regions ++ (record { base = base; size = size }) ∷ []),
        length-append t.regions ((record { base = base; size = size }) ∷ []),
      ))
      (sorted t base size table bound pos))
