-- ===== src/Memory/E820/Tests.antt =====
-- Three neighbours of one type.
use wey_os.Base.{ℕ, ◌≡◌, refl, Option, none, some, [], ◌∷◌, if◌then◌else◌, ◌==◌}
use wey_os.Memory.E820.{
  Entry, shift, sort_from, e820_sort, e820_merge, merge_rounds, resolve, join, any_left, touches,
  touches_gap, scan_ram, e820_end_ram_pfn,
}

abbrev entry : ℕ → Entry
entry b = record { base_addr = b; length = 8192; kind = 1 }

abbrev three : ℕ → Entry
three i = if i == 0 then entry 0 else if i == 1 then entry 8192 else entry 16384

abbrev whole : Entry
whole = record { base_addr = 0; length = 24576; kind = 1 }

abbrev first_two : Option (ℕ × (ℕ → Entry)) → Option (ℕ × (Entry × Entry))
first_two none = none
first_two (some (n, map)) = some (n, (map 0, map 1))

-- The second round starts behind the entries of the first one: the map ends up with the memory twice.
merge_test : first_two (e820_merge 3 3 three) ≡ some (2, (whole, whole))
unfolding e820_merge merge_rounds resolve join any_left touches touches_gap
merge_test = refl

sort_test :
    e820_sort (entry 16384 ∷ entry 0 ∷ entry 8192 ∷ []) ≡ entry 0 ∷ entry 8192 ∷ entry 16384 ∷ []
unfolding e820_sort sort_from shift
sort_test = refl

end_test : e820_end_ram_pfn 1000 (entry 0 ∷ entry 8192 ∷ []) ≡ 4
unfolding e820_end_ram_pfn scan_ram
end_test = refl
