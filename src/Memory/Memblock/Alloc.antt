-- ===== src/Memory/Memblock/Alloc.antt =====
-- `memblock_alloc`: what it returns is free, aligned memory, and is reserved afterwards.
use wey_os.Base.{
  ℕ, suc, ◌+◌, ◌-◌, ◌*◌, ◌%◌, ◌^◌, ◌≤◌, ◌<◌, ◌≡◌, refl, inl, inr, true, false, ◌||◌, some, List, [],
  ◌∷◌, arith, Bool-cases, All, length, bit_and,
}
use wey_os.Base.Bits.{
  clear_low, clear_low_bounds, clear_low_multiple, bit_and-high_mask, pow_two_pos, pow_two_mono,
}
use wey_os.Memory.Memblock.{
  Region, Memblock, uintptr_max, max_regions, u64, is_reserved, align_up, scan, alloc_in,
  alloc_from, alloc, reserve, Found, at, skip, stop,
}
use wey_os.Memory.Memblock.Scan.{scan-Hit}
use wey_os.Memory.Memblock.Order.{Fits, Table, Table-Fits}
use wey_os.Memory.Memblock.Cover.{within, covers}
use wey_os.Memory.Memblock.Reserve.{insert-Table, insert-covers, is_reserved_free}

align_up_power :
    (v k : ℕ)
    → k ≤ 32
    → v + 2 ^ k ≤ 2 ^ 32
    → (v ≤ align_up v (2 ^ k))
      × (align_up v (2 ^ k) < v + 2 ^ k)
      × ((q : ℕ) × (align_up v (2 ^ k) ≡ q * 2 ^ k))
unfolding align_up
align_up_power v k h b =
    let p : 0 < 2 ^ k = pow_two_pos k in
    let x : (v + 2 ^ k - 1) % u64 ≡ v + 2 ^ k - 1 = omega arith in
    let y : uintptr_max - (2 ^ k - 1) ≡ 2 ^ 32 - 2 ^ k = omega arith in
    let z : bit_and (v + 2 ^ k - 1) (2 ^ 32 - 2 ^ k) ≡ clear_low k (v + 2 ^ k - 1) =
      bit_and-high_mask 32 k (v + 2 ^ k - 1) h (omega arith) in
    rw x (
      rw y (
        rw z (
          omega (arith, clear_low_bounds k (v + 2 ^ k - 1)),
          omega (arith, clear_low_bounds k (v + 2 ^ k - 1)),
          clear_low_multiple k (v + 2 ^ k - 1),
        )))

-- A region of memory that holds the range, all of it free.
record Inside (m : Memblock) (size a : ℕ) (r : Region) : Type 0 where
  from : r.base ≤ a
  fits : a + size ≤ r.base + r.size
  free : is_reserved m a size ≡ false

module _ (m : Memblock) (size k : ℕ) (small : size ≤ uintptr_max) (short : k < 32) where
  alloc_in-at :
      (r : Region) {a : ℕ}
      → Fits r
      → r.base + 2 ^ k ≤ 2 ^ 32
      → alloc_in m size (2 ^ k) r ≡ at a
      → Inside m size a r × ((q : ℕ) × (a ≡ q * 2 ^ k))
  unfolding alloc_in
  alloc_in-at r {a} f low e =
      let up = align_up_power r.base k (omega arith) low in
      let p : 0 < 2 ^ k = pow_two_pos k in
      let found : scan (suc (r.base + r.size)) m size (2 ^ k) (r.base + r.size)
            (align_up r.base (2 ^ k))
          ≡ some a =
        ground arith in
      let hit =
        scan-Hit m size (2 ^ k) (r.base + r.size) small f.bound
          (omega (arith, pow_two_mono k 31 (omega arith))) (suc (r.base + r.size))
          (align_up r.base (2 ^ k)) (omega (arith, up.1)) found in
      (
        record { from = omega (arith, up.0, hit.from); fits = hit.fits; free = hit.free },
        (up.2.0 + hit.steps.0, omega (arith, up.2.1, hit.steps.1)),
      )

  alloc_from-some :
      (rs : List Region) {a : ℕ}
      → All Fits rs
      → All (λ r. r.base + 2 ^ k ≤ 2 ^ 32) rs
      → alloc_from m size (2 ^ k) rs ≡ some a
      → (is_reserved m a size ≡ false)
        × ((q : ℕ) × (a ≡ q * 2 ^ k))
        × ((x : ℕ) → a ≤ x → x < a + size → covers x rs ≡ true)
  unfolding alloc_from
  alloc_from-some [] al low e = absurd (cc)
  alloc_from-some (r ∷ rs) {a} al low e =
      go (alloc_in m size (2 ^ k) r) (λ i. alloc_in m size (2 ^ k) r)
        (λ w. alloc_from-some rs al.1 low.1 w)
    where
      go :
          (f : Found)
          → alloc_in m size (2 ^ k) r ≡ f
          → (alloc_from m size (2 ^ k) rs ≡ some a
              → (is_reserved m a size ≡ false)
                × ((q : ℕ) × (a ≡ q * 2 ^ k))
                × ((x : ℕ) → a ≤ x → x < a + size → covers x rs ≡ true))
          → (is_reserved m a size ≡ false)
            × ((q : ℕ) × (a ≡ q * 2 ^ k))
            × ((x : ℕ) → a ≤ x → x < a + size → covers x (r ∷ rs) ≡ true)
      go (at b) e' ih =
          let hit = alloc_in-at r al.0 low.0 e' in
          let same : b ≡ a = ground arith in
          rw (← same) (hit.0.free, hit.1, λ x u v. ground (arith, hit.0.from, hit.0.fits))
      go skip e' ih = let t = ih (ground arith) in (t.0, t.1, λ x u v. ground (arith, t.2 x u v))
      go stop e' ih = absurd (ground arith)

-- What a successful allocation guarantees.
pub record Granted (m : Memblock) (size a : ℕ) (m' : Memblock) : Type 0 where
  pub free : (x : ℕ) → a ≤ x → x < a + size → covers x m.reserved.regions ≡ false
  pub memory : (x : ℕ) → a ≤ x → x < a + size → covers x m.memory.regions ≡ true
  pub taken :
      (x : ℕ) → covers x m'.reserved.regions ≡ (covers x m.reserved.regions || within x a size)
  pub table : Table 0 m'.reserved.regions
  pub kept : m'.memory ≡ m.memory

module _ (m : Memblock) (size a : ℕ) (reserved : Table 0 m.reserved.regions)
    (room : length m.reserved.regions < max_regions) (pos : 0 < size) where
  pub Granted-reserve :
      a + size ≤ uintptr_max
      → is_reserved m a size ≡ false
      → ((x : ℕ) → a ≤ x → x < a + size → covers x m.memory.regions ≡ true)
      → Granted m size a (reserve m a size)
  unfolding reserve
  Granted-reserve bound clear inside = record {
    free = (is_reserved_free m a size reserved pos bound).0 clear;
    memory = inside;
    taken = λ x. insert-covers m.reserved a size x reserved bound room;
    table = insert-Table m.reserved a size reserved bound;
    kept = refl;
  }

covers-bound : (x : ℕ) (rs : List Region) → All Fits rs → covers x rs ≡ true → x < uintptr_max
covers-bound x [] al e = absurd (cc)
covers-bound x (r ∷ rs) al e = elim (Bool-cases (within x r.base r.size)) [
  | inl h ↦ ground (arith, al.0.bound)
  | inr h ↦ covers-bound x rs al.1 (ground arith)
]

alloc_found :
    (m : Memblock) (size align : ℕ) {a : ℕ}
    → 0 < align
    → (alloc m size align).0 ≡ some a
    → (0 < size)
      × (alloc_from m size align m.memory.regions ≡ some a)
      × ((alloc m size align).1 ≡ reserve m a size)
unfolding alloc
alloc_found m size align p e = ground arith

-- When `memblock_alloc` returns an address for a power-of-two alignment, the range consists of
-- memory, no part of it was reserved, the address is a multiple of the alignment, and afterwards
-- exactly this range is reserved besides what was. The conditions: both tables are in order, the
-- reserved one has room, and no memory region starts so near 2^32 that rounding its base up to
-- the alignment would leave the 32 bits of the mask.
pub alloc-Granted :
    (m : Memblock) (size k : ℕ) {a : ℕ}
    → Table 0 m.memory.regions
    → Table 0 m.reserved.regions
    → length m.reserved.regions < max_regions
    → size ≤ uintptr_max
    → k < 32
    → All (λ r. r.base + 2 ^ k ≤ 2 ^ 32) m.memory.regions
    → (alloc m size (2 ^ k)).0 ≡ some a
    → Granted m size a (alloc m size (2 ^ k)).1 × ((q : ℕ) × (a ≡ q * 2 ^ k))
alloc-Granted m size k {a} mem res room small short low e =
    let f = alloc_found m size (2 ^ k) (pow_two_pos k) e in
    let g =
      alloc_from-some m size k small short m.memory.regions (Table-Fits 0 m.memory.regions mem) low
        f.1 in
    let last : covers (a + size - 1) m.memory.regions ≡ true =
      g.2 (a + size - 1) (omega (arith, f.0)) (omega (arith, f.0)) in
    let bound : a + size ≤ uintptr_max = omega (
      arith,
      f.0,
      covers-bound (a + size - 1) m.memory.regions (Table-Fits 0 m.memory.regions mem) last,
    ) in
    rw f.2 (Granted-reserve m size a res room f.0 bound g.0 g.2, g.1)
