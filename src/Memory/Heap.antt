-- ===== src/Memory/Heap.antt =====
-- The slab allocator and the kernel heap, src/memory/heap/slab.c and kheap.c. An address is its
-- distance from KERNEL_DIRECTMAP_START, so that the page frame number of a page is its address
-- divided by PAGE_SIZE; NULL is `none`. A slab is named by the page that holds it. The chain of free
-- objects, which runs through the objects themselves, is a list.
pub mod Slots
pub mod Order
pub mod Take
pub mod Fresh
pub mod Grow
pub mod Alloc
pub mod Destroy
pub mod Free
pub mod Large
pub mod Release
pub mod Uses
mod Tests
use wey_os.Base.{
  ℕ, zero, suc, ◌+◌, ◌-◌, ◌*◌, ◌/◌, ◌%◌, ◌^◌, Bool, true, false, not, ◌&&◌, Option, none, some,
  List, [], ◌∷◌, ltb, leb, ◌==◌, if◌then◌else◌,
}
use wey_os.Memory.Page.{Page, Zone, ulong_mod, update, remove, page_alloc, page_free}
use wey_os.Memory.Page.Init.{page_size}

-- `SLAB_SIZES`
abbrev pub slab_sizes : List ℕ
slab_sizes = 8 ∷ 16 ∷ 32 ∷ 64 ∷ 128 ∷ 256 ∷ 512 ∷ 1024 ∷ 2048 ∷ []

-- `SLAB_MAX_SIZE`
abbrev pub slab_max_size : ℕ
slab_max_size = 2048

-- `sizeof(struct slab)`, seven words.
abbrev pub header_size : ℕ
header_size = 28

-- `struct slab`
pub record Slab : Type 0 where
  pub page : ℕ
  pub start : ℕ
  pub free_list : List ℕ
  pub free_count : ℕ
  pub total_objects : ℕ

-- The page allocator, `private` of every page, the slabs, and the list of slabs of every cache.
pub record Heap : Type 0 where
  pub zone : Zone
  pub private : ℕ → Option ℕ
  pub slab : ℕ → Slab
  pub slabs : ℕ → List ℕ

-- `slab_sizes[i]`, which `slab_init` makes the `object_size` of a cache.
abbrev size_in : List ℕ → ℕ → ℕ
size_in [] i = 0
size_in (s ∷ ss) zero = s
size_in (s ∷ ss) (suc i) = size_in ss i

abbrev pub object_size : ℕ → ℕ
object_size i = size_in slab_sizes i

-- The loop of `get_cache_index`, from the cache `i` on.
pub index_from : ℕ → List ℕ → ℕ → Option ℕ
index_from i [] size = none
index_from i (s ∷ ss) size =
    let rest = index_from (suc i) ss size in if leb size s then some i else rest

-- `get_cache_index`
pub get_cache_index : ℕ → Option ℕ
get_cache_index size = index_from 0 slab_sizes size

-- The loop of `slab_create` over the objects.
pub thread : ℕ → ℕ → ℕ → List ℕ → List ℕ
thread zero obj size free = free
thread (suc n) obj size free = thread n (obj + size) size (obj ∷ free)

-- The slab that `slab_create` makes on the page `p`.
pub new_slab : ℕ → ℕ → Slab
new_slab size p =
    let start = p * page_size % ulong_mod + header_size in
    let total = (page_size - header_size) / size in
    record {
      page = p;
      start = start;
      free_list = thread total start size [];
      free_count = total;
      total_objects = total;
    }

-- `slab_create`, behind `page_alloc`.
pub create_on : ℕ → Option ℕ × Zone → Heap → Option ℕ × Heap
create_on size (none, z) h = (none, record h { zone = z })
create_on size (some p, z) h = (
  some p,
  record h {
    zone = z;
    private = update h.private p (some p);
    slab = update h.slab p (new_slab size p);
  },
)

-- `slab_create`; PG_KERNEL is 8 and PG_SLAB 16.
pub slab_create : ℕ → Heap → Option ℕ × Heap
slab_create size h = create_on size (page_alloc 0 24 h.zone) h

-- `list_for_each_entry`: the first slab with a free object.
pub first_free : (ℕ → Slab) → List ℕ → Option ℕ
first_free slab [] = none
first_free slab (s ∷ ss) =
    let rest = first_free slab ss in if ltb 0 (slab s).free_count then some s else rest

-- `found:`. A slab that counts a free object has one.
pub take_object : ℕ → Heap → Option ℕ × Heap
take_object s h = elim (h.slab s).free_list [
  | [] ↦ (none, h)
  | obj ∷ rest ↦ (
    some obj,
    record h {
      slab = update h.slab s (record {
        page = (h.slab s).page;
        start = (h.slab s).start;
        free_list = rest;
        free_count = ((h.slab s).free_count + ulong_mod - 1) % ulong_mod;
        total_objects = (h.slab s).total_objects;
      });
    },
  )
]

-- A new slab enters the list of its cache.
pub take_new : ℕ → Option ℕ × Heap → Option ℕ × Heap
take_new i (none, h) = (none, h)
take_new i (some s, h) = take_object s (record h { slabs = update h.slabs i (s ∷ h.slabs i) })

-- The part of `slab_alloc` behind the choice of a cache.
pub alloc_from_cache : ℕ → Heap → Option ℕ × Heap
alloc_from_cache i h = elim (first_free h.slab (h.slabs i)) [
  | none ↦ take_new i (slab_create (object_size i) h)
  | some s ↦ take_object s h
]

-- `slab_alloc`
pub slab_alloc : ℕ → Heap → Option ℕ × Heap
slab_alloc size h =
    let found : Option ℕ × Heap = elim (get_cache_index size) [
      | none ↦ (none, h)
      | some i ↦ alloc_from_cache i h
    ] in
    if size == 0 then (none, h) else found

-- `page->flags & PG_SLAB`, bit 4.
abbrev pub is_slab : Page → Bool
is_slab p = p.flags / 16 % 2 == 1

-- The object enters the chain of its slab.
pub put_object : ℕ → ℕ → Heap → Heap
put_object s obj h = record h {
  slab = update h.slab s (record {
    page = (h.slab s).page;
    start = (h.slab s).start;
    free_list = obj ∷ (h.slab s).free_list;
    free_count = ((h.slab s).free_count + 1) % ulong_mod;
    total_objects = (h.slab s).total_objects;
  });
}

-- `list_remove` from the list that the slab stands in, and `slab_destroy`.
pub destroy : ℕ → ℕ → Heap → Heap
destroy max_pfn s h = record h {
  zone = (page_free max_pfn (h.slab s).page h.zone).1;
  slabs = λ i. remove s (h.slabs i);
}

-- The part of `slab_free` behind BUG_ON.
pub give_object : ℕ → ℕ → ℕ → Heap → Heap
give_object max_pfn s obj h =
    let h' = put_object s obj h in
    if (h'.slab s).free_count == (h'.slab s).total_objects then destroy max_pfn s h' else h'

-- `slab_free`, of an address that is not NULL; `none` when BUG_ON stops the kernel.
pub slab_free : ℕ → ℕ → Heap → Option Heap
slab_free max_pfn ptr h =
    let p = ptr / page_size in
    let found : Option Heap = elim (h.private p) [
      | none ↦ some h
      | some s ↦ if (h.slab s).page == p then some (give_object max_pfn s ptr h) else none
    ] in
    if is_slab (h.zone.page p) then found else some h

-- `64 - __builtin_clzll(n)`: the number of bits of `n`, for a fuel of 64.
pub bits : ℕ → ℕ → ℕ
bits zero n = 0
bits (suc fuel) n = let rest = bits fuel (n / 2) in if n == 0 then 0 else suc rest

-- `order_for_pages`
pub order_for_pages : ℕ → ℕ
order_for_pages pages = if leb pages 1 then 0 else bits 64 (pages - 1)

-- The pages that `kmalloc` asks for, `ALIGN(size, PAGE_SIZE) / PAGE_SIZE`.
pub pages_for : ℕ → ℕ
pages_for size = (size + (page_size - 1)) % ulong_mod / page_size

-- `page_to_virt`
abbrev pub page_to_virt : Option ℕ → Option ℕ
page_to_virt none = none
page_to_virt (some p) = some (p * page_size % ulong_mod)

-- `kmalloc`
pub kmalloc : ℕ → Heap → Option ℕ × Heap
kmalloc size h =
    let (p, z) = page_alloc (order_for_pages (pages_for size)) 8 h.zone in
    if size == 0
    then (none, h)
    else if ltb slab_max_size size
    then (page_to_virt p, record h { zone = z })
    else slab_alloc size h

-- `kfree`, of an address that is not NULL.
pub kfree : ℕ → ℕ → Heap → Option Heap
kfree max_pfn ptr h =
    let p = ptr / page_size in
    let freed = some (record h { zone = (page_free max_pfn p h.zone).1 }) in
    let found : Option Heap = elim (h.private p) [
      | none ↦ freed
      | some s ↦ slab_free max_pfn ptr h
    ] in
    if is_slab (h.zone.page p) then found else freed
