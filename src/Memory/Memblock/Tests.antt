-- ===== src/Memory/Memblock/Tests.antt =====
-- Runs of the boot allocator on a small machine, and the theorems at its tables.
use wey_os.Base.{ℕ, ◌*◌, ◌^◌, ◌≡◌, refl, false, ◌||◌, some, [], ◌∷◌, arith}
use wey_os.Memory.Memblock.{
  Region, MemblockType, Memblock, insert, is_reserved, alloc, alloc_range, alloc_in, alloc_from,
  range_in, range_from, scan, align_up,
}
use wey_os.Memory.Memblock.Order.{Table}
use wey_os.Memory.Memblock.Cover.{within, covers}
use wey_os.Memory.Memblock.Reserve.{insert-Table, insert-covers}
use wey_os.Memory.Memblock.Alloc.{Granted, alloc-Granted}

abbrev region : ℕ → ℕ → Region
region b s = record { base = b; size = s }

abbrev low : MemblockType
low = record { regions = region 0x1000 0x100 ∷ region 0x4000 0x100 ∷ []; totalmem = 0x200 }

abbrev machine : Memblock
machine = record {
  memory = record { regions = region 0x1000 0x40 ∷ []; totalmem = 0x40 };
  reserved = record { regions = region 0x1000 0x10 ∷ []; totalmem = 0 };
}

-- A touching range is joined to its neighbour.
insert_joins :
    insert low 0x1100 0x80
    ≡ record { regions = region 0x1000 0x180 ∷ region 0x4000 0x100 ∷ []; totalmem = 0x280 }
unfolding insert
insert_joins = refl

-- The merged end is cut at UINTPTR_MAX, and the last address is lost.
insert_cut :
    covers 0xFFFFFFFF
      (insert (record low { regions = region 0xFFFFE000 0x1000 ∷ [] }) 0xFFFFF000 0x2000).regions
    ≡ false
unfolding insert
insert_cut = refl

alloc_aligned : (alloc machine 8 16).0 ≡ some 0x1010
unfolding alloc alloc_from alloc_in align_up scan is_reserved
alloc_aligned = refl

-- The total is not brought up to date for the first region.
first_total : (insert (record { regions = []; totalmem = 0 }) 0x1000 0x100).totalmem ≡ 0
unfolding insert
first_total = refl

low-Table : Table 0 low.regions
low-Table = omega arith

insert-Table_example : Table 0 (insert low 0x1100 0x80).regions
insert-Table_example = insert-Table low 0x1100 0x80 low-Table (omega arith)

insert-covers_example :
    covers 0x1150 (insert low 0x1100 0x80).regions
    ≡ (covers 0x1150 low.regions || within 0x1150 0x1100 0x80)
insert-covers_example = insert-covers low 0x1100 0x80 0x1150 low-Table (omega arith) (omega arith)

alloc-Granted_example :
    Granted machine 8 0x1010 (alloc machine 8 (2 ^ 4)).1 × ((q : ℕ) × (0x1010 ≡ q * 2 ^ 4))
alloc-Granted_example =
    alloc-Granted machine 8 4 (omega arith) (omega arith) (omega arith) (omega arith) (omega arith)
      (omega arith) alloc_aligned

range_result : (alloc_range machine 0x1000 0x1030 8).0 ≡ some 0x1010
unfolding alloc_range range_from range_in scan is_reserved
range_result = refl
