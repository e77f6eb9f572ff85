-- ===== src/Memory/Mmu/Range.antt =====
-- `mmu_munmap` over a range.
use wey_os.Base.{ℕ, ◌+◌, ◌/◌, ◌≤◌, ◌<◌, ◌≡◌, ◌⊎◌}
use wey_os.Memory.Mmu.{Paging, index_top, index_leaf, word, page_size}
use wey_os.Memory.Mmu.Unmap.{IsTree, mapped}

-- The number of the page of an address.
abbrev pub page_of : ℕ → ℕ
page_of u = u / page_size

abbrev at : Paging → ℕ → ℕ
at s u = mapped s.entry s.root (index_top u) (index_leaf u)

-- The pages from `va` on are unmapped.
record Cleared (va n : ℕ) (s s' : Paging) : Type 0 where
  tree : IsTree s'
  gone : (u : ℕ) → u < word → page_of va ≤ page_of u → page_of u < page_of va + n → at s' u ≡ 0
  others :
      (u : ℕ)
      → u < word
      → (page_of u < page_of va) ⊎ (page_of va + n ≤ page_of u)
      → at s' u ≡ at s u
