-- ===== src/Memory/Page.antt =====
-- The page allocator, src/memory/heap/page.c: buddy lists of free blocks of 2^order pages. A page is
-- its page frame number, the free list of an order the list of the page frame numbers in it, first
-- one first, and `vmemmap` a function. `unsigned long` is 32 bits wide. The lock is taken to exclude
-- every other call.
pub mod Cover
pub mod Blocks
pub mod Moves
pub mod Halve
pub mod Hands
pub mod Alloc
pub mod Siblings
pub mod Grow
pub mod Free
pub mod Runs
pub mod Refs
pub mod Init
mod Tests
use wey_os.Base.{
  ℕ, zero, suc, ◌+◌, ◌-◌, ◌*◌, ◌/◌, ◌%◌, ◌^◌, Bool, true, false, not, ◌&&◌, ◌||◌, Option, none,
  some, List, [], ◌∷◌, ltb, leb, ◌==◌, if◌then◌else◌, Result, ok, err, einval,
}

-- `MAX_ORDER`
abbrev pub max_order : ℕ
max_order = 11

abbrev pub ulong_mod : ℕ
ulong_mod = 2 ^ 32

-- `struct page`
pub record Page : Type 0 where
  pub order : ℕ
  pub flags : ℕ
  pub refcount : ℕ

-- `struct zone`, with `free_list` and `nr_free` of every order, and the pages.
pub record Zone : Type 0 where
  pub page : ℕ → Page
  pub free_list : ℕ → List ℕ
  pub nr_free : ℕ → ℕ
  pub free_pages : ℕ
  pub reserved_pages : ℕ

-- `flags & PG_BUDDY`, bit 0.
abbrev pub is_buddy : Page → Bool
is_buddy p = p.flags % 2 == 1

-- `flags & PG_RESERVED`, bit 1.
abbrev pub is_reserved : Page → Bool
is_reserved p = p.flags / 2 % 2 == 1

-- `PG_BUDDY`
abbrev pub pg_buddy : ℕ
pg_buddy = 1

abbrev pub update {ℓ} : {A : Type ℓ} → (ℕ → A) → ℕ → A → ℕ → A
update f i v j = if i == j then v else f j

-- A block enters the list of its order: `list_add` at its head, `nr_free++`, and the fields of its
-- first page, as the ends of `page_alloc`, `page_free` and `page_init` set them.
unfoldable pub put : ℕ → ℕ → Zone → Zone
put k p z = record {
  page = update z.page p (record { order = k; flags = pg_buddy; refcount = 0 });
  free_list = update z.free_list k (p ∷ z.free_list k);
  nr_free = update z.nr_free k ((z.nr_free k + 1) % ulong_mod);
  free_pages = z.free_pages;
  reserved_pages = z.reserved_pages;
}

-- `list_remove`, of a page that stands in the list.
unfoldable pub remove : ℕ → List ℕ → List ℕ
remove p [] = []
remove p (q ∷ qs) = let rest = remove p qs in if p == q then qs else q ∷ rest

-- A block leaves the list of its order, and `nr_free--`.
unfoldable pub take_out : ℕ → ℕ → Zone → Zone
take_out k p z = record z {
  free_list = update z.free_list k (remove p (z.free_list k));
  nr_free = update z.nr_free k ((z.nr_free k + ulong_mod - 1) % ulong_mod);
}

-- `while (cur > order)` of `page_alloc`, for `cur` the order and `rounds` more: the upper half of the
-- block becomes free.
unfoldable pub split : ℕ → ℕ → ℕ → Zone → Zone
split zero order p z = z
split (suc rounds) order p z =
    split rounds order p (put (order + rounds) (p + 2 ^ (order + rounds)) z)

-- The fields of the page that is handed out, and the count of free pages.
unfoldable pub hand_out : ℕ → ℕ → ℕ → Zone → Zone
hand_out order flags p z = record z {
  page = update z.page p (record { order = order; flags = flags; refcount = 1 });
  free_pages = (z.free_pages + ulong_mod - 2 ^ order) % ulong_mod;
}

-- The loop of `page_alloc` over the orders from `order + skipped` on.
unfoldable pub alloc_from : ℕ → ℕ → ℕ → ℕ → Zone → Option ℕ × Zone
alloc_from zero skipped order flags z = (none, z)
alloc_from (suc rounds) skipped order flags z = elim (z.free_list (order + skipped)) [
  | [] ↦ alloc_from rounds (suc skipped) order flags z
  | p ∷ rest ↦
      (some p, hand_out order flags p (split skipped order p (take_out (order + skipped) p z)))
]

-- `page_alloc`
unfoldable pub page_alloc : ℕ → ℕ → Zone → Option ℕ × Zone
page_alloc order flags z = alloc_from (max_order - order) 0 order flags z

-- `pfn & (1UL << order)`
pub is_upper : ℕ → ℕ → Bool
is_upper k p = p / 2 ^ k % 2 == 1

-- `pfn ^ (1UL << order)`
pub buddy_of : ℕ → ℕ → ℕ
buddy_of k p = if is_upper k p then p - 2 ^ k else p + 2 ^ k

-- `pfn & ~(1UL << order)`
pub lower_of : ℕ → ℕ → ℕ
lower_of k p = if is_upper k p then p - 2 ^ k else p

-- `!(buddy->flags & PG_BUDDY) || (buddy->order != order)` does not hold.
pub can_merge : ℕ → Page → Bool
can_merge k b = is_buddy b && (b.order == k)

-- The buddy leaves its list: `flags &= ~PG_BUDDY`, `order = 0`.
pub detach : ℕ → ℕ → Zone → Zone
detach k b z =
    let z' = take_out k b z in
    record z' {
      page = update z'.page b (record {
        order = 0;
        flags = (z'.page b).flags - (z'.page b).flags % 2;
        refcount = (z'.page b).refcount;
      });
    }

-- The loop of `page_free`: the order and the page frame number that it ends with.
pub merge : ℕ → ℕ → ℕ → ℕ → Zone → ℕ × ℕ × Zone
merge max_pfn zero k p z = (k, p, z)
merge max_pfn (suc rounds) k p z =
    let rest = merge max_pfn rounds (suc k) (lower_of k p) (detach k (buddy_of k p) z) in
    if leb max_pfn (buddy_of k p)
    then (k, p, z)
    else if can_merge k (z.page (buddy_of k p))
    then rest
    else (k, p, z)

-- `page->flags = PG_BUDDY; atomic_set(&page->refcount, 0)`
pub mark_free : ℕ → Zone → Zone
mark_free p z = record z {
  page = update z.page p (record { order = (z.page p).order; flags = pg_buddy; refcount = 0 });
}

-- The part of `page_free` behind its checks.
pub release : ℕ → ℕ → Zone → Zone
release max_pfn p z =
    let (k, q, z') =
      merge max_pfn (max_order - 1 - (z.page p).order) (z.page p).order p (mark_free p z) in
    let z'' = put k q z' in
    record z'' { free_pages = (z''.free_pages + 2 ^ (z.page p).order) % ulong_mod }

-- `page_free`, of a page that is not NULL; `max_pfn` is `max_pfn_mapped`.
pub page_free : ℕ → ℕ → Zone → Result (Unit {0}) × Zone
page_free max_pfn p z =
    if is_reserved (z.page p)
    then (err einval, z)
    else if ltb 1 (z.page p).refcount
    then (err einval, z)
    else if is_buddy (z.page p)
    then (err einval, z)
    else (ok tt, release max_pfn p z)
