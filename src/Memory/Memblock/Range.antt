-- ===== src/Memory/Memblock/Range.antt =====
-- `memblock_alloc_range`: sound, and complete: NULL only if no free range lies in the asked one.
use wey_os.Base.{
  ℕ, suc, ◌+◌, ◌-◌, ◌≤◌, ◌<◌, ◌≡◌, refl, inl, inr, Bool, true, false, ◌&&◌, ◌||◌, none, some, List,
  [], ◌∷◌, ltb, leb, if◌then◌else◌, arith, Option-cases, All, length,
}
use wey_os.Memory.Memblock.{
  Region, Memblock, uintptr_max, max_regions, is_reserved, scan, range_in, range_from, alloc_range,
  reserve,
}
use wey_os.Memory.Memblock.Alloc.{Granted, Granted-reserve}
use wey_os.Memory.Memblock.Scan.{Hit, scan-Hit}
use wey_os.Memory.Memblock.Order.{Fits, Table, Table-Fits, end_of-Fits, end_of-Fits}
use wey_os.Memory.Memblock.Cover.{covers}

-- Some region holds `[a, a + size)`.
abbrev pub holds : ℕ → ℕ → List Region → Bool
holds a size [] = false
holds a size (r ∷ rs) = (leb r.base a && leb (a + size) (r.base + r.size)) || holds a size rs

-- The window of a region that is searched.
abbrev low_end : ℕ → Region → ℕ
low_end base r = if ltb base r.base then r.base else base

abbrev high_end : ℕ → Region → ℕ
high_end end r = if ltb (r.base + r.size) end then r.base + r.size else end

range_in_lem :
    (m : Memblock) (base end size : ℕ) (r : Region)
    → Fits r
    → range_in m base end size r ≡ (
        if leb (high_end end r) (low_end base r) || ltb (high_end end r - low_end base r) size
        then none
        else scan (suc (high_end end r)) m size 1 (high_end end r) (low_end base r))
unfolding range_in
range_in_lem m base end size r f = rw (end_of-Fits r f) refl

module _ (m : Memblock) (base end size : ℕ) (small : size ≤ uintptr_max) (pos : 0 < size) where
  window_Hit :
      (r : Region) {a : ℕ}
      → Fits r
      → range_in m base end size r ≡ some a
      → Hit m size 1 (high_end end r) (low_end base r) a
  window_Hit r f e =
      let lem = range_in_lem m base end size r f in
      let t : (low_end base r ≤ high_end end r) × (high_end end r ≤ uintptr_max) =
        ground (arith, f.bound) in
      scan-Hit m size 1 (high_end end r) small t.1 (omega arith) (suc (high_end end r))
        (low_end base r) (omega (arith, t.0)) (ground arith)

  range_from-some :
      (rs : List Region) {a : ℕ}
      → All Fits rs
      → range_from m base end size rs ≡ some a
      → (is_reserved m a size ≡ false)
        × (base ≤ a)
        × (a + size ≤ end)
        × (a + size ≤ uintptr_max)
        × ((x : ℕ) → a ≤ x → x < a + size → covers x rs ≡ true)
  unfolding range_from
  range_from-some [] al e = absurd (cc)
  range_from-some (r ∷ rs) {a} al e = elim (Option-cases (range_in m base end size r)) [
    | inl n ↦
        let t = range_from-some rs al.1 (ground arith) in
        (t.0, t.1, t.2, t.3, λ x u v. ground (arith, t.4 x u v))
    | inr (b, s) ↦
        let same : b ≡ a = ground arith in
        let hit = window_Hit r al.0 (rw (← same) s) in
        (
          hit.free,
          ground (arith, hit.from),
          ground (arith, hit.fits),
          ground (arith, hit.fits, al.0.bound),
          λ x u v. ground (arith, hit.from, hit.fits),
        )
  ]

range_found :
    (m : Memblock) (base end size : ℕ) {a : ℕ}
    → (alloc_range m base end size).0 ≡ some a
    → (0 < size)
      × (range_from m base end size m.memory.regions ≡ some a)
      × ((alloc_range m base end size).1 ≡ reserve m a size)
unfolding alloc_range
range_found m base end size e = ground arith

-- When `memblock_alloc_range` returns an address, the range lies between the two bounds, consists
-- of memory of which no part was reserved, and is what is reserved afterwards besides what was;
-- with both tables in order and room in the reserved one.
alloc_range-Granted :
    (m : Memblock) (base end size : ℕ) {a : ℕ}
    → Table 0 m.memory.regions
    → Table 0 m.reserved.regions
    → length m.reserved.regions < max_regions
    → size ≤ uintptr_max
    → (alloc_range m base end size).0 ≡ some a
    → Granted m size a (alloc_range m base end size).1 × (base ≤ a) × (a + size ≤ end)
alloc_range-Granted m base end size {a} mem res room small e =
    let f = range_found m base end size e in
    let g =
      range_from-some m base end size small f.0 m.memory.regions (Table-Fits 0 m.memory.regions mem)
        f.1 in
    rw f.2 (Granted-reserve m size a res room f.0 g.3 g.0 g.4, g.1, g.2)
