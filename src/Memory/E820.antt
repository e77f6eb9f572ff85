-- ===== src/Memory/E820.antt =====
-- The memory map of the firmware, src/arch/i386/kernel/e820.c. `entries` is the array that the boot
-- loader handed over. `size_t` is 32 bits wide, addresses and lengths are 64 bits wide.
pub mod Sort
pub mod Ram
mod Tests
use wey_os.Base.{
  ℕ, zero, suc, ◌+◌, ◌-◌, ◌*◌, ◌/◌, ◌%◌, ◌^◌, Bool, true, false, not, ◌&&◌, ◌||◌, Option, none,
  some, List, [], ◌∷◌, ltb, leb, ◌==◌, if◌then◌else◌, reverse_onto,
}

abbrev pub u64 : ℕ
u64 = 2 ^ 64

abbrev pub size_mod : ℕ
size_mod = 2 ^ 32

-- `struct e820_entry`; `kind` is its `type`.
pub record Entry : Type 0 where
  pub base_addr : ℕ
  pub length : ℕ
  pub kind : ℕ

-- `E820_TYPE_RAM`
abbrev pub ram : ℕ
ram = 1

-- `E820_TYPE_ACPI`
abbrev pub acpi : ℕ
acpi = 3

-- `MAX_ARCH_PFN`
abbrev pub max_arch_pfn : ℕ
max_arch_pfn = 2 ^ 20

-- `base_addr + length`
abbrev pub end_of : Entry → ℕ
end_of e = (e.base_addr + e.length) % u64

-- The inner loop of `e820_sort`: the entries before `key`, last one first.
pub shift : Entry → List Entry → List Entry
shift key [] = key ∷ []
shift key (e ∷ es) =
    let rest = shift key es in if ltb key.base_addr e.base_addr then e ∷ rest else key ∷ e ∷ es

-- The outer loop of `e820_sort`: the sorted entries, last one first, and those that are left.
pub sort_from : List Entry → List Entry → List Entry
sort_from sorted [] = sorted
sort_from sorted (key ∷ es) = sort_from (shift key sorted) es

-- `e820_sort`
pub e820_sort : List Entry → List Entry
e820_sort es = reverse_onto (sort_from [] es) []

abbrev pub store : (ℕ → Entry) → ℕ → Entry → ℕ → Entry
store map i e j = if i == j then e else map j

-- "Resolve conflicts" of `e820_merge`, for `n` rounds from `i` on: `new_count` and the array.
pub resolve : ℕ → ℕ → ℕ → ℕ → (ℕ → Entry) → ℕ × (ℕ → Entry)
resolve zero i count new_count map = (new_count, map)
resolve (suc n) i count new_count map =
    let cur = map i in
    let next = map (i + 1) in
    let last = if ltb (end_of next) (end_of cur) then end_of cur else end_of next in
    let joined : Entry = record {
      base_addr = cur.base_addr;
      length = (last + u64 - cur.base_addr) % u64;
      kind = next.kind;
    } in
    let cut : Entry = record {
      base_addr = cur.base_addr;
      length = (next.base_addr + u64 - cur.base_addr) % u64;
      kind = cur.kind;
    } in
    let overlap = ltb (i + 1) count && ltb next.base_addr (end_of cur) in
    let kept = if overlap then cut else cur in
    let absorbed = resolve n (i + 1) count new_count (store map (i + 1) joined) in
    let stored = resolve n (i + 1) count (new_count + 1) (store map new_count kept) in
    let skipped = resolve n (i + 1) count new_count map in
    if overlap && (cur.kind == next.kind)
    then absorbed
    else if ltb 0 kept.length
    then stored
    else skipped

-- Two neighbours that can be merged: touching, or with a gap of one byte.
pub touches : Entry → Entry → Bool
touches cur next = (cur.kind == next.kind) && (end_of cur == next.base_addr)

pub touches_gap : Entry → Entry → Bool
touches_gap cur next =
    (cur.kind == next.kind) && ((cur.base_addr + cur.length + 1) % u64 == next.base_addr)

-- "Merge" of `e820_merge`, for `n` rounds at most from `i` on.
pub join : ℕ → ℕ → ℕ → ℕ → (ℕ → Entry) → ℕ × (ℕ → Entry)
join zero i count new_count map = (new_count, map)
join (suc n) i count new_count map =
    let cur = map i in
    let next = map (i + 1) in
    let longer = λ (extra : ℕ). store map new_count (record {
      base_addr = cur.base_addr;
      length = (cur.length + next.length + extra) % u64;
      kind = cur.kind;
    }) in
    let touching = join n (i + 2) count (new_count + 1) (longer 0) in
    let gap = join n (i + 2) count (new_count + 1) (longer 1) in
    let single = join n (i + 1) count (new_count + 1) (store map new_count cur) in
    if leb count i
    then (new_count, map)
    else if ltb (i + 1) count && touches cur next
    then touching
    else if ltb (i + 1) count && touches_gap cur next
    then gap
    else single

-- "Everything merged?", for the `n` pairs from `i` on.
pub any_left : ℕ → ℕ → (ℕ → Entry) → Bool
any_left zero i map = false
any_left (suc n) i map =
    let rest = any_left n (i + 1) map in
    if touches (map i) (map (i + 1)) || touches_gap (map i) (map (i + 1)) then true else rest

-- `while(1)` of `e820_merge`, for `fuel` rounds at most; `new_count` is 0 in the first round, and in
-- a later one what the round before it left.
pub merge_rounds : ℕ → ℕ → ℕ → (ℕ → Entry) → Option (ℕ × (ℕ → Entry))
merge_rounds zero new_count count map = none
merge_rounds (suc fuel) new_count count map =
    let (n, map') = resolve count 0 count new_count map in
    let (n', map'') = join n 0 n 0 map' in
    let again = merge_rounds fuel n' n' map'' in
    if any_left ((n' + size_mod - 1) % size_mod) 0 map'' then again else some (n', map'')

-- `e820_merge`
pub e820_merge : ℕ → ℕ → (ℕ → Entry) → Option (ℕ × (ℕ → Entry))
e820_merge fuel count map = merge_rounds fuel 0 count map

-- The loop of `e820_end_ram_pfn`, with `last_pfn`.
pub scan_ram : ℕ → ℕ → List Entry → ℕ
scan_ram limit last [] = last
scan_ram limit last (e ∷ es) =
    let start = e.base_addr / 4096 % size_mod in
    let end = end_of e / 4096 % size_mod in
    let same = scan_ram limit last es in
    let later = scan_ram limit end es in
    if not (e.kind == ram) && not (e.kind == acpi)
    then same
    else if leb limit start
    then same
    else if ltb limit end
    then limit
    else if ltb last end
    then later
    else same

-- `e820_end_ram_pfn`
pub e820_end_ram_pfn : ℕ → List Entry → ℕ
e820_end_ram_pfn limit es =
    let last = scan_ram limit 0 es in if ltb max_arch_pfn last then max_arch_pfn else last
