-- ===== src/Memory/E820/Ram.antt =====
-- The end of usable memory.
use wey_os.Base.{ℕ, ◌/◌, ◌%◌, ◌&&◌, ◌||◌, List, [], ◌∷◌, ltb, ◌==◌, if◌then◌else◌}
use wey_os.Memory.E820.{Entry, ram, acpi, size_mod, end_of}

abbrev pub min : ℕ → ℕ → ℕ
min a b = if ltb a b then a else b

abbrev pub max : ℕ → ℕ → ℕ
max a b = if ltb a b then b else a

-- What one entry contributes: the end of usable memory that begins below the limit, cut at it.
abbrev pub ram_end : ℕ → Entry → ℕ
ram_end limit e =
    if ((e.kind == ram) || (e.kind == acpi)) && ltb (e.base_addr / 4096 % size_mod) limit
    then min limit (end_of e / 4096 % size_mod)
    else 0

-- The largest contribution.
abbrev pub top : ℕ → List Entry → ℕ
top limit [] = 0
top limit (e ∷ es) = max (ram_end limit e) (top limit es)
