-- ===== src/Memory/Memblock/Scan.antt =====
-- The search loop that both allocators of src/memory/pmm/memblock.c run.
use wey_os.Base.{
  ℕ, zero, suc, ◌+◌, ◌*◌, ◌%◌, ◌≤◌, ◌<◌, ◌≡◌, refl, inl, inr, true, false, none, some, leb,
  if◌then◌else◌, arith, Bool-cases,
}
use wey_os.Memory.Memblock.{Memblock, uintptr_max, u64, is_reserved, scan}

-- What one turn of the loop does.
scan_in :
    (fuel : ℕ) (m : Memblock) (size step end cur : ℕ)
    → cur + size ≤ end
    → end ≤ uintptr_max
    → step ≤ uintptr_max
    → scan (suc fuel) m size step end cur
      ≡ (if is_reserved m cur size then scan fuel m size step end (cur + step) else some cur)
unfolding scan
scan_in fuel m size step end cur h b c =
    let e : (cur + size) % u64 ≡ cur + size = omega arith in
    let f : (cur + step) % u64 ≡ cur + step = omega arith in
    let g : leb (cur + size) end ≡ true = ground arith in rw e (rw f (rw g))

scan_out :
    (fuel : ℕ) (m : Memblock) (size step end cur : ℕ)
    → end < cur + size
    → cur + size < u64
    → scan (suc fuel) m size step end cur ≡ none
unfolding scan
scan_out fuel m size step end cur h b =
    let e : (cur + size) % u64 ≡ cur + size = omega arith in
    let g : leb (cur + size) end ≡ false = ground arith in rw e (rw g)

scan_zero : (m : Memblock) (size step end cur : ℕ) → scan 0 m size step end cur ≡ none
unfolding scan
scan_zero m size step end cur = refl

-- What the search returns is free, fits below `end`, and lies a whole number of steps on.
pub record Hit (m : Memblock) (size step end cur a : ℕ) : Type 0 where
  pub from : cur ≤ a
  pub fits : a + size ≤ end
  pub free : is_reserved m a size ≡ false
  pub steps : (j : ℕ) × (a ≡ cur + j * step)

module _ (m : Memblock) (size step end : ℕ) (small : size ≤ uintptr_max) (low : end ≤ uintptr_max)
    (short : step ≤ uintptr_max) where
  pub scan-Hit :
      (fuel cur : ℕ) {a : ℕ}
      → cur ≤ end + step
      → scan fuel m size step end cur ≡ some a
      → Hit m size step end cur a
  scan-Hit zero cur k e = absurd (cc (scan_zero m size step end cur))
  scan-Hit (suc fuel) cur {a} k e = elim (Bool-cases (leb (cur + size) end)) [
    | inl y ↦ elim (Bool-cases (is_reserved m cur size)) [
      | inl r ↦
          let ih : Hit m size step end (cur + step) a =
            scan-Hit fuel (cur + step) (ground arith)
              (ground (arith, scan_in fuel m size step end cur (ground arith) low short)) in
          record {
            from = omega (arith, ih.from);
            fits = ih.fits;
            free = ih.free;
            steps = (suc ih.steps.0, omega (arith, ih.steps.1));
          }
      | inr r ↦
          let e' : cur ≡ a =
            ground (arith, scan_in fuel m size step end cur (ground arith) low short) in
          record {
            from = omega arith;
            fits = ground arith;
            free = rw (← e') r;
            steps = (0, omega arith);
          }
    ]
    | inr y ↦ absurd (cc (scan_out fuel m size step end cur (ground arith) (omega arith)))
  ]

  scan_rest :
      (fuel cur : ℕ)
      → scan (suc fuel) m size step end cur ≡ none
      → cur + size ≤ end
      → (is_reserved m cur size ≡ true) × (scan fuel m size step end (cur + step) ≡ none)
  scan_rest fuel cur e h = ground (arith, scan_in fuel m size step end cur h low short)

  -- With fuel for the distance to `end`, a failed search has seen every candidate.
  pub scan-none :
      (fuel cur j : ℕ)
      → 0 < step
      → suc end ≤ fuel + cur
      → scan fuel m size step end cur ≡ none
      → cur + j * step + size ≤ end
      → is_reserved m (cur + j * step) size ≡ true
  scan-none zero cur j p f e h = absurd (omega arith)
  scan-none (suc fuel) cur zero p f e h =
      let z : cur + 0 * step ≡ cur = omega arith in rw z (scan_rest fuel cur e (omega arith)).0
  scan-none (suc fuel) cur (suc j) p f e h =
      let z : cur + suc j * step ≡ cur + step + j * step = omega arith in
      rw z (
        scan-none fuel (cur + step) j p (omega arith) (scan_rest fuel cur e (omega arith)).1
          (omega arith))
