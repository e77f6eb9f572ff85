-- ===== src/Memory/Memblock.antt =====
-- The boot-time allocator, src/memory/pmm/memblock.c and src/include/mm/memblock.h.
-- `regions[0 .. count)` is a list; what lies behind `count` is never read. The names of the two
-- tables, which only the dump prints, are left out. Addresses are 64 bits wide, sizes 32 bits.
pub mod Order
pub mod Cover
pub mod Reserve
pub mod Scan
pub mod Alloc
pub mod Range
mod Tests
use wey_os.Base.{
  ℕ, zero, suc, ◌+◌, ◌-◌, ◌%◌, ◌^◌, Bool, true, false, ◌||◌, not, Option, none, some, List, [], ◌∷◌,
  ◌++◌, reverse_onto, ltb, leb, ◌==◌, if◌then◌else◌, length, bit_and,
}

-- `struct memblock_region`
pub record Region : Type 0 where
  pub base : ℕ
  pub size : ℕ

-- `struct memblock_type`
pub record MemblockType : Type 0 where
  pub regions : List Region
  pub totalmem : ℕ

-- `struct memblock`
pub record Memblock : Type 0 where
  pub memory : MemblockType
  pub reserved : MemblockType

abbrev pub max_regions : ℕ
max_regions = 128

abbrev pub u64 : ℕ
u64 = 2 ^ 64

abbrev pub size_mod : ℕ
size_mod = 2 ^ 32

-- `UINTPTR_MAX`
abbrev pub uintptr_max : ℕ
uintptr_max = 2 ^ 32 - 1

-- The inner loop of `memblock_sort`: the sorted prefix is read from its end.
pub shift : Region → List Region → List Region
shift key [] = key ∷ []
shift key (r ∷ rs) = if ltb key.base r.base then r ∷ shift key rs else key ∷ r ∷ rs

-- The outer loop, over the prefix in reverse and the regions from index `i` on.
pub sort_from : List Region → List Region → List Region
sort_from prefix [] = prefix
sort_from prefix (key ∷ rest) = sort_from (shift key prefix) rest

pub sort : List Region → List Region
unfolding sort_from shift
sort regions = reverse_onto (sort_from [] regions) []

-- `size > UINTPTR_MAX - base`, a 64-bit subtraction that wraps.
pub overflows : Region → Bool
overflows r = ltb ((u64 + uintptr_max - r.base) % u64) r.size

-- `prev_end` and `cur_end` of `memblock_merge`.
pub end_of : Region → ℕ
unfolding overflows
end_of r = if overflows r then uintptr_max else (r.base + r.size) % u64

-- What the region at index `out` becomes when the region at index `i` touches it.
pub absorb : Region → Region → Region
unfolding end_of
absorb out cur =
    if ltb (end_of out) (end_of cur)
    then record out { size = (u64 + end_of cur - out.base) % u64 % size_mod }
    else out

-- The loop of `memblock_merge`: `out` is `regions[out]`, the list is `regions[i .. count)`.
pub merge_from : Region → List Region → List Region
unfolding absorb
merge_from out [] = out ∷ []
merge_from out (cur ∷ rest) =
    let joined = merge_from (absorb out cur) rest in
    let apart = merge_from cur rest in if leb cur.base (end_of out) then joined else out ∷ apart

-- The loop that adds the sizes up in `totalmem`.
pub total_from : ℕ → List Region → ℕ
total_from acc [] = acc
total_from acc (r ∷ rs) = total_from ((acc + r.size) % u64) rs

pub merge : MemblockType → MemblockType
unfolding merge_from total_from
merge t = elim t.regions [
  | [] ↦ t
  | r ∷ rest ↦ elim rest [
    | [] ↦ t
    | s ∷ more ↦
        let merged = merge_from r (s ∷ more) in
        record { regions = merged; totalmem = total_from 0 merged }
  ]
]

-- The body that `memblock_add` and `memblock_reserve` share.
pub insert : MemblockType → ℕ → ℕ → MemblockType
unfolding sort merge
insert t base size =
    if size == 0
    then t
    else if leb max_regions (length t.regions)
    then t
    else merge
        (record t { regions = sort (t.regions ++ (record { base = base; size = size }) ∷ []) })

-- `memblock_init` on a zeroed table.
pub init : Memblock
init = record {
  memory = record { regions = []; totalmem = 0 };
  reserved = record { regions = []; totalmem = 0 };
}

pub add : Memblock → ℕ → ℕ → Memblock
unfolding insert
add m base size = record m { memory = insert m.memory base size }

pub reserve : Memblock → ℕ → ℕ → Memblock
unfolding insert
reserve m base size = record m { reserved = insert m.reserved base size }

-- The overlap test of the loop in `memblock_is_reserved`.
pub overlaps : ℕ → ℕ → Region → Bool
overlaps base end r = not (leb end r.base || leb ((r.base + r.size) % u64) base)

pub any_overlap : ℕ → ℕ → List Region → Bool
unfolding overlaps
any_overlap base end [] = false
any_overlap base end (r ∷ rs) = overlaps base end r || any_overlap base end rs

pub is_reserved : Memblock → ℕ → ℕ → Bool
unfolding any_overlap
is_reserved m base size =
    if ltb ((u64 + uintptr_max - base) % u64) size
    then true
    else any_overlap base ((base + size) % u64) m.reserved.regions

-- `ALIGN_UP(v, a)`: the mask `~(a - 1)` is 32 bits wide and is extended with zeros.
pub align_up : ℕ → ℕ → ℕ
align_up v a = bit_and ((v + a - 1) % u64) (uintptr_max - (a - 1))

-- The inner `while` of both allocators: `cur` goes up by `step` until a free range is found.
-- `none` means that the loop ends without one.
pub scan : ℕ → Memblock → ℕ → ℕ → ℕ → ℕ → Option ℕ
scan zero m size step end cur = none
scan (suc fuel) m size step end cur =
    let next = scan fuel m size step end ((cur + step) % u64) in
    if leb ((cur + size) % u64) end
    then (if is_reserved m cur size then next else some cur)
    else none

-- The rest of the loop body of `memblock_alloc` once `region.end` does not overflow.
pub data Found : Type 0 where
  at : ℕ → Found
  skip : Found
  stop : Found

pub alloc_in : Memblock → ℕ → ℕ → Region → Found
unfolding overflows
alloc_in m size align r =
    if overflows r
    then skip
    else let end = (r.base + r.size) % u64 in
      let cur = align_up r.base align in
      if ltb ((u64 + uintptr_max - cur) % u64) size
      then stop
      else elim (scan (suc end) m size align end cur) [ none ↦ skip | some a ↦ at a ]

pub alloc_from : Memblock → ℕ → ℕ → List Region → Option ℕ
alloc_from m size align [] = none
alloc_from m size align (r ∷ rs) =
    let rest = alloc_from m size align rs in
    elim (alloc_in m size align r) [ at a ↦ some a | skip ↦ rest | stop ↦ none ]

-- `memblock_alloc`: the address, or `none` for NULL, and the new table.
pub alloc : Memblock → ℕ → ℕ → Option ℕ × Memblock
alloc m size align =
    if size == 0
    then (none, m)
    else elim (alloc_from m size (if align == 0 then 1 else align) m.memory.regions) [
      | none ↦ (none, m)
      | some a ↦ (some a, reserve m a size)
    ]

-- The part of a memory region that lies in the asked range, and the search in it.
pub range_in : Memblock → ℕ → ℕ → ℕ → Region → Option ℕ
unfolding end_of
range_in m base end size r =
    let start = if ltb base r.base then r.base else base in
    let stop = if ltb (end_of r) end then end_of r else end in
    if leb stop start || ltb (stop - start) size then none else scan (suc stop) m size 1 stop start

pub range_from : Memblock → ℕ → ℕ → ℕ → List Region → Option ℕ
range_from m base end size [] = none
range_from m base end size (r ∷ rs) =
    let rest = range_from m base end size rs in
    elim (range_in m base end size r) [ some a ↦ some a | none ↦ rest ]

-- `memblock_alloc_range`
pub alloc_range : Memblock → ℕ → ℕ → ℕ → Option ℕ × Memblock
alloc_range m base end size =
    if size == 0 || leb end base
    then (none, m)
    else elim (range_from m base end size m.memory.regions) [
      | none ↦ (none, m)
      | some a ↦ (some a, reserve m a size)
    ]
