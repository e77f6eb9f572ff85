-- ===== src/Memory/Page/Init.antt =====
-- `page_init`: the memory that memblock has left over becomes free blocks, as large as alignment and
-- reservations allow. `pages` is `vmemmap` before the call. The messages are left out.
pub mod Sound
pub mod Complete
pub mod Regions
use wey_os.Base.{
  ℕ, zero, suc, ◌+◌, ◌-◌, ◌*◌, ◌/◌, ◌%◌, ◌^◌, Bool, true, false, not, ◌&&◌, ◌||◌, List, [], ◌∷◌,
  ltb, leb, ◌==◌, if◌then◌else◌,
}
use wey_os.Memory.Memblock.{Region, Memblock, u64, is_reserved}
use wey_os.Memory.Page.{Page, Zone, max_order, ulong_mod, update, put}

-- `PAGE_SIZE`
abbrev pub page_size : ℕ
page_size = 4096

-- `pfn_is_reserved`; PG_BAD is 4.
pub pfn_is_reserved : Memblock → Zone → ℕ → Bool
pfn_is_reserved m z pfn =
    let flags = (z.page pfn).flags in
    if (flags / 2 % 2 == 1) || (flags == 4)
    then true
    else if flags % 2 == 1
    then true
    else is_reserved m (pfn * page_size % ulong_mod) page_size

-- `pfn_range_reserved`, for `n` pages.
pub pfn_range_reserved : Memblock → Zone → ℕ → ℕ → Bool
pfn_range_reserved m z start zero = false
pfn_range_reserved m z start (suc n) =
    let rest = pfn_range_reserved m z (start + 1) n in
    if pfn_is_reserved m z start then true else rest

-- `while(order < MAX_ORDER - 1)`, for that many rounds more.
pub grow : ℕ → Memblock → Zone → ℕ → ℕ → ℕ → ℕ
grow zero m z end pfn order = order
grow (suc rounds) m z end pfn order =
    let rest = grow rounds m z end pfn (suc order) in
    if ltb end ((pfn + 2 ^ suc order) % ulong_mod)
    then order
    else if not (pfn % 2 ^ suc order == 0)
    then order
    else if pfn_range_reserved m z pfn (2 ^ suc order)
    then order
    else rest

-- `page->flags = PG_RESERVED`, and `reserved_pages++`.
pub set_reserved : ℕ → Zone → Zone
set_reserved pfn z = record z {
  page =
      update z.page pfn
        (record { order = (z.page pfn).order; flags = 2; refcount = (z.page pfn).refcount });
  reserved_pages = (z.reserved_pages + 1) % ulong_mod;
}

-- A block that starts at `pfn` becomes free.
pub add_block : ℕ → ℕ → Zone → Zone
add_block order pfn z =
    let z' = put order pfn z in record z' { free_pages = (z'.free_pages + 2 ^ order) % ulong_mod }

-- `for (pfn = start_pfn; pfn < end_pfn; )`, of which every round takes one page at least.
pub init_pfns : ℕ → Memblock → ℕ → ℕ → Zone → Zone
init_pfns zero m end pfn z = z
init_pfns (suc fuel) m end pfn z =
    let order = grow (max_order - 1) m z end pfn 0 in
    let reserved = init_pfns fuel m end (pfn + 1) (set_reserved pfn z) in
    let free = init_pfns fuel m end ((pfn + 2 ^ order) % ulong_mod) (add_block order pfn z) in
    if not (ltb pfn end) then z else if pfn_is_reserved m z pfn then reserved else free

-- `ALIGN_UP(base, PAGE_SIZE) >> PAGE_SHIFT`
pub start_pfn : Region → ℕ
start_pfn r = (r.base + (page_size - 1)) % u64 / page_size % ulong_mod

-- `(base + size) >> PAGE_SHIFT`
pub end_pfn : Region → ℕ
end_pfn r = (r.base + r.size) % u64 / page_size % ulong_mod

-- The loop over the regions.
pub init_regions : Memblock → ℕ → List Region → Zone → Zone
init_regions m max_pfn [] z = z
init_regions m max_pfn (r ∷ rs) z =
    let end = if ltb max_pfn (end_pfn r) then max_pfn else end_pfn r in
    let z' =
      if leb max_pfn (start_pfn r)
      then z
      else init_pfns (end - start_pfn r) m end (start_pfn r) z in
    init_regions m max_pfn rs z'

-- `page_init`
pub page_init : Memblock → ℕ → (ℕ → Page) → Zone
page_init m max_pfn pages = init_regions m max_pfn m.memory.regions (record {
  page = pages;
  free_list = λ k. [];
  nr_free = λ k. 0;
  free_pages = 0;
  reserved_pages = 0;
})
