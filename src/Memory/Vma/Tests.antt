-- ===== src/Memory/Vma/Tests.antt =====
-- An address space with two regions, and the theorems at it.
use wey_os.Base.{
  ℕ, ◌+◌, ◌≡◌, refl, true, false, some, none, [], ◌∷◌, arith, if◌then◌else◌, ok, err, einval,
}
use wey_os.Memory.Vma.{
  VmRegion, MmStruct, Refs, Request, region_of, align_up, align_down, slot, add, lookup, hit,
  remove, destroy, dup, dup_from, file_get,
}
use wey_os.Memory.Vma.Order.{Regions}
use wey_os.Memory.Vma.Slot.{add-Regions, lookup-add}
use wey_os.Memory.Vma.Lookup.{Removed, remove-Removed}
use wey_os.Memory.Vma.Refs.{uses, Counted}
use wey_os.Memory.Vma.Dup.{dup_lem}

abbrev text : VmRegion
text = record {
  start = 0x1000;
  end = 0x3000;
  mem_flags = 1;
  prot_flags = 0;
  file = some 7;
  file_offset = 0;
}

abbrev stack : VmRegion
stack = record {
  start = 0x8000;
  end = 0x9000;
  mem_flags = 3;
  prot_flags = 0;
  file = none;
  file_offset = 0;
}

abbrev mm : MmStruct
mm = record { ctx = some 1; vma = text ∷ stack ∷ []; brk_start = 0; brk = 0; refcount = 1 }

abbrev held : Refs
held g = uses g mm.vma + 1

abbrev others : Refs
others g = 1

abbrev asked : Request
asked = record {
  start = 0x4010;
  end = 0x5001;
  mem_flags = 3;
  prot_flags = 0;
  file = some 7;
  file_offset = 0x10;
}

mm-Regions : Regions 0 mm.vma
mm-Regions = omega arith

add_between : add true mm held asked ≡ (
  ok (region_of asked),
  record mm { vma = text ∷ region_of asked ∷ stack ∷ [] },
  file_get (some 7) held,
)
unfolding add slot region_of align_up align_down
add_between = refl

add_overlap : (add true mm held (record asked { end = 0x8001 })).0 ≡ err einval
unfolding add slot region_of align_up align_down
add_overlap = refl

-- An end that cannot be rounded up in 32 bits: the region goes in front and hides the others.
add_wrapped :
    lookup (add true mm held (record asked { start = 0xFFFFE000; end = 0xFFFFF001 })).1 0x2000
    ≡ none
unfolding add slot region_of align_up align_down lookup
add_wrapped = refl

found_before : lookup mm 0x2000 ≡ some text
unfolding lookup
found_before = refl

add-Regions_example : Regions 0 (add true mm held asked).1.vma
add-Regions_example = add-Regions true mm held asked mm-Regions (omega arith)

lookup-add_example :
    lookup (add true mm held asked).1 0x4800
    ≡ (if hit 0x4800 (region_of asked) then some (region_of asked) else lookup mm 0x4800)
lookup-add_example =
    lookup-add mm held asked 0x4800 mm-Regions (omega arith) (λ i. (add_between i).0)

remove-Removed_example : Removed mm 0x2000 (remove mm held 0x2000).1 (remove mm held 0x2000).0
remove-Removed_example = remove-Removed mm held 0x2000 mm-Regions

counted : Counted others mm.vma held
counted g = omega arith

dup_lem_example :
    ((dup (λ _. true) (some 5) mm held).0 ≡ some (record mm { ctx = some 5; refcount = 1 }))
    × ((g : ℕ) → (dup (λ _. true) (some 5) mm held).1 g ≡ held g + uses g mm.vma)
dup_lem_example = dup_lem 5 mm held mm-Regions (omega arith)

dup_without : (dup (λ _. false) (some 5) mm held).0 ≡ none
unfolding dup dup_from add slot region_of align_up align_down destroy
dup_without = refl
