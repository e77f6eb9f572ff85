-- ===== src/Memory/Mmu/Tests.antt =====
-- A directory at 4096 whose entry 1 leads to the table at 8192, of which entry 5 maps a page.
use wey_os.Base.{ℕ, ◌≡◌, refl, ◌&&◌, [], ◌∷◌, ◌==◌, if◌then◌else◌}
use wey_os.Memory.Mmu.{
  Paging, walk, mmu_translate, mmu_get_flags, mmu_set_flags, mmu_flags_arch, arch_mmu_flags,
  set_pte, empty_below, table_empty, walk_to, prune, unmap_page, unmap_pages, mmu_munmap,
}

abbrev tables : Paging
tables = record {
  entry = λ t i.
      if t == 4096
      then (if i == 1 then 8195 else 0)
      else (if (t == 8192) && (i == 5) then 28679 else 0);
  root = 4096;
  put_back = [];
}

-- The page at 4 MiB + 5 * 4096.
abbrev mapped_page : ℕ
mapped_page = 4214784

mapped_there : mmu_translate tables mapped_page ≡ 28672
unfolding mmu_translate walk
mapped_there = refl

readable : mmu_get_flags (mmu_set_flags mapped_page 1 tables) mapped_page ≡ 1
unfolding mmu_get_flags mmu_set_flags walk mmu_flags_arch arch_mmu_flags set_pte
readable = refl

table_given_back : (mmu_munmap mapped_page 10 tables).put_back ≡ 8192 ∷ []
unfolding mmu_munmap unmap_pages unmap_page walk_to prune table_empty empty_below set_pte
table_given_back = refl
