-- ===== src/Memory/Mmu.antt =====
-- Page tables, src/memory/vmm/mmu.c with the entries of src/arch/i386/mm/paging.c. A table is known
-- by its physical page, and `entry` gives the 32 bits of each entry of each table. The masks of the
-- entries are written out: bit k of a word is (w / 2^k) % 2, `& PAGE_MASK` takes w % 4096 off, and
-- an `|` of different bits is a sum. Flushing the TLB leaves no trace. Mapping is not modelled, nor is
-- the choice among the page sizes that `check_pse` of src/arch/i386/kernel/setup.c enters at boot.
pub mod Flags
pub mod Unmap
pub mod Range
mod Tests
use wey_os.Base.{
  ℕ, zero, suc, ◌+◌, ◌-◌, ◌*◌, ◌/◌, ◌%◌, ◌^◌, Bool, true, false, not, ◌&&◌, ◌||◌, Option, none,
  some, List, [], ◌∷◌, ◌==◌, if◌then◌else◌,
}

abbrev pub page_size : ℕ
page_size = 4096

abbrev pub word : ℕ
word = 2 ^ 32

-- Bit `k` of a word.
abbrev pub bit : ℕ → ℕ → ℕ
bit k w = w / 2 ^ k % 2

-- The entries of all tables, the table of the context, and the tables that were given back by
-- `page_put`.
pub record Paging : Type 0 where
  pub entry : ℕ → ℕ → ℕ
  pub root : ℕ
  pub put_back : List ℕ

-- `x86_present`, `x86_pte_phys`, `x86_pte_flags`
abbrev pub is_present : ℕ → Bool
is_present e = bit 0 e == 1

abbrev pub pte_phys : ℕ → ℕ
pte_phys e = e - e % page_size

abbrev pub pte_flags : ℕ → ℕ
pte_flags e = e % page_size

-- `x86_leaf`: bit 7 is _PAGE_PSIZE.
abbrev pub is_leaf : ℕ → ℕ → Bool
is_leaf e level = (bit 7 e == 1) || (level == 1)

-- `x86_mk_pte`, with _PAGE_P set.
abbrev pub mk_pte : ℕ → ℕ → ℕ
mk_pte phys flags = pte_phys phys + (pte_flags flags + (1 - bit 0 flags))

-- `mmu_flags_arch`: _PAGE_P, and the bits for MEM_WRITE, MEM_USER, MEM_GLOBAL, MEM_HUGE_PAGE and
-- MEM_DEVICE.
unfoldable pub mmu_flags_arch : ℕ → ℕ
mmu_flags_arch f = 1 + 2 * bit 1 f + 4 * bit 2 f + 256 * bit 3 f + 128 * bit 6 f + 24 * bit 4 f

-- `arch_mmu_flags`: _PAGE_PCD or _PAGE_PWT makes MEM_DEVICE.
unfoldable pub arch_mmu_flags : ℕ → ℕ
arch_mmu_flags a =
    bit 0 a
    + 2 * bit 1 a
    + (if (bit 4 a == 1) || (bit 3 a == 1) then 16 else 0)
    + 8 * bit 8 a
    + 64 * bit 7 a
    + 4 * bit 2 a

-- The indices of the two levels.
abbrev pub index_top : ℕ → ℕ
index_top va = va / 2 ^ 22 % 1024

abbrev pub index_leaf : ℕ → ℕ
index_leaf va = va / 2 ^ 12 % 1024

-- `walk`: the table and the index of the entry that maps the address. The second level ends the
-- loop, since every present entry of it is a leaf.
unfoldable pub walk : Paging → ℕ → Option (ℕ × ℕ)
walk s va =
    let top = s.entry s.root (index_top va) in
    let low = s.entry (pte_phys top) (index_leaf va) in
    if not (is_present top)
    then none
    else if is_leaf top 0
    then some (s.root, index_top va)
    else if is_present low
    then some (pte_phys top, index_leaf va)
    else none

-- `mmu_translate`
unfoldable pub mmu_translate : Paging → ℕ → ℕ
unfolding walk
mmu_translate s va = elim (walk s va) [ none ↦ 0 | some (t, i) ↦ pte_phys (s.entry t i) ]

-- `MEM_NOT_MAPPED`
abbrev pub mem_not_mapped : ℕ
mem_not_mapped = 2 ^ 16

-- `mmu_get_flags`
unfoldable pub mmu_get_flags : Paging → ℕ → ℕ
unfolding walk arch_mmu_flags
mmu_get_flags s va = elim (walk s va) [
  | none ↦ mem_not_mapped
  | some (t, i) ↦ arch_mmu_flags (pte_flags (s.entry t i))
]

-- `set_pte` and `clear_pte`
unfoldable pub set_pte : ℕ → ℕ → ℕ → Paging → Paging
set_pte t i v s = record s { entry = λ u j. if (u == t) && (j == i) then v else s.entry u j }

-- `mmu_set_flags`
unfoldable pub mmu_set_flags : ℕ → ℕ → Paging → Paging
unfolding walk mmu_flags_arch set_pte
mmu_set_flags va flags s = elim (walk s va) [
  | none ↦ s
  | some (t, i) ↦ set_pte t i (mk_pte (pte_phys (s.entry t i)) (mmu_flags_arch flags)) s
]

-- `mmu_set_flags_range`, for `pages` pages.
unfoldable pub set_flags_pages : ℕ → ℕ → ℕ → Paging → Paging
unfolding mmu_set_flags
set_flags_pages zero va flags s = s
set_flags_pages (suc n) va flags s =
    set_flags_pages n ((va + page_size) % word) flags (mmu_set_flags va flags s)

-- ALIGN(size, PAGE_SIZE) / PAGE_SIZE
abbrev pub pages_of : ℕ → ℕ
pages_of size = (size + (page_size - 1)) % word / page_size

unfoldable pub mmu_set_flags_range : ℕ → ℕ → ℕ → Paging → Paging
unfolding set_flags_pages
mmu_set_flags_range va size flags s = set_flags_pages (pages_of size) va flags s

-- `table_empty`, for the entries below `n`.
unfoldable pub empty_below : ℕ → (ℕ → ℕ) → Bool
empty_below zero e = true
empty_below (suc n) e = let rest = empty_below n e in if is_present (e n) then false else rest

unfoldable pub table_empty : ℕ → Paging → Bool
unfolding empty_below
table_empty t s = empty_below 1024 (s.entry t)

-- `walk_to`: the table of the second level, when both entries are present.
unfoldable pub walk_to : Paging → ℕ → Option ℕ
walk_to s va =
    let top = s.entry s.root (index_top va) in
    if not (is_present top)
    then none
    else if is_present (s.entry (pte_phys top) (index_leaf va))
    then some (pte_phys top)
    else none

-- The levels above, in `mmu_munmap`: a table without entries leaves its parent and goes back.
unfoldable pub prune : ℕ → ℕ → Paging → Paging
unfolding table_empty set_pte
prune t va s =
    let s' = set_pte s.root (index_top va) 0 s in
    if table_empty t s then record s' { put_back = t ∷ s'.put_back } else s

-- The body of the loop of `mmu_munmap`.
unfoldable pub unmap_page : ℕ → Paging → Paging
unfolding walk_to set_pte prune
unmap_page va s = elim (walk_to s va) [
  | none ↦ s
  | some t ↦ prune t va (set_pte t (index_leaf va) 0 s)
]

-- The loop of `mmu_munmap`.
unfoldable pub unmap_pages : ℕ → ℕ → Paging → Paging
unfolding unmap_page
unmap_pages zero va s = s
unmap_pages (suc n) va s = unmap_pages n ((va + page_size) % word) (unmap_page va s)

-- `mmu_munmap`
unfoldable pub mmu_munmap : ℕ → ℕ → Paging → Paging
unfolding unmap_pages
mmu_munmap va size s = unmap_pages (pages_of size) va s
