-- ===== src/Memory/Vma/Lookup.antt =====
-- `vma_remove` beside `vma_lookup`: they agree on which region an address belongs to.
use wey_os.Base.{
  ℕ, ◌≤◌, ◌<◌, ◌≡◌, ◌⊎◌, refl, inl, inr, true, false, Option, none, some, List, [], ◌∷◌,
  if◌then◌else◌, arith, Bool-cases, Option-cases, Result, ok, err, enoent,
}
use wey_os.Memory.Vma.{VmRegion, MmStruct, Refs, find, lookup, hit, unlink, remove}
use wey_os.Memory.Vma.Order.{Regions, Regions-weaken}

beyond : (addr lo : ℕ) (rs : List VmRegion) → Regions lo rs → addr < lo → find addr rs ≡ none
unfolding find
beyond addr lo [] t h = refl
beyond addr lo (r ∷ rs) t h = ground arith

unlink_beyond :
    (addr lo : ℕ) (rs : List VmRegion) → Regions lo rs → addr < lo → unlink addr rs ≡ none
unfolding unlink
unlink_beyond addr lo [] t h = refl
unlink_beyond addr lo (r ∷ rs) t h =
    ground (arith, unlink_beyond addr r.end rs t.2 (ground (arith, t.1.ordered)))

-- The two ways in which the walk ends at a region.
pub unlink-cons :
    (addr : ℕ) (q : VmRegion) (qs : List VmRegion) {r : VmRegion} {rest : List VmRegion}
    → unlink addr (q ∷ qs) ≡ some (r, rest)
    → ((hit addr q ≡ true) × (q ≡ r) × (qs ≡ rest))
      ⊎ ((hit addr q ≡ false)
          × ((rest' : List VmRegion) × (unlink addr qs ≡ some (r, rest')) × (q ∷ rest' ≡ rest)))
unfolding unlink
unlink-cons addr q qs {r} {rest} e = elim (Bool-cases (hit addr q)) [
  | inl h ↦ inl (h, ground arith, ground arith)
  | inr h ↦ inr (h, later h (unlink addr qs) (λ i. unlink addr qs))
]
  where
    later :
        hit addr q ≡ false
        → (o : Option (VmRegion × List VmRegion)) → unlink addr qs ≡ o
        → (rest' : List VmRegion) × (unlink addr qs ≡ some (r, rest')) × (q ∷ rest' ≡ rest)
    later h none n = absurd (ground arith)
    later h (some (r', rest')) s = (rest', ground arith, ground arith)

-- What the walk of `vma_remove` drops, beside what `vma_lookup` finds.
record Dropped (addr lo : ℕ) (rs : List VmRegion) (r : VmRegion) (rest : List VmRegion)
    : Type 0 where
  found : find addr rs ≡ some r
  holds : hit addr r ≡ true
  after : lo ≤ r.start
  ordered : Regions lo rest
  others : (v : ℕ) → find v rest ≡ (if hit v r then none else find v rs)

unlink-Dropped :
    (addr lo : ℕ) (rs : List VmRegion) {r : VmRegion} {rest : List VmRegion}
    → Regions lo rs
    → unlink addr rs ≡ some (r, rest)
    → Dropped addr lo rs r rest
unfolding find unlink
unlink-Dropped addr lo [] t e = absurd (ground arith)
unlink-Dropped addr lo (q ∷ qs) {r} t e = elim (unlink-cons addr q qs e) [
  | inl (h, a, b) ↦ rw (← a) (
      rw (← b) (record {
        found = ground arith;
        holds = h;
        after = t.0;
        ordered = Regions-weaken q.end lo qs (omega (arith, t.0, t.1.ordered)) t.2;
        others = λ v. ground (arith, beyond v q.end qs t.2, t.1.ordered);
      }))
  | inr (h, (rest', s, b)) ↦
      let ih = unlink-Dropped addr q.end qs t.2 s in
      rw (← b) (record {
        found = ground (arith, ih.found, beyond addr q.end qs t.2);
        holds = ih.holds;
        after = omega (arith, ih.after, t.0, t.1.ordered);
        ordered = (t.0, t.1, ih.ordered);
        others = λ v. ground (arith, ih.others v, ih.holds, ih.after, beyond v q.end qs t.2);
      })
]

unlink-none :
    (addr lo : ℕ) (rs : List VmRegion) → Regions lo rs → unlink addr rs ≡ none → find addr rs ≡ none
unfolding unlink find
unlink-none addr lo [] t e = refl
unlink-none addr lo (q ∷ qs) t e = ground (arith, unlink-none addr q.end qs t.2 (ground arith))

-- The outcome of `vma_remove` in terms of `vma_lookup`.
pub record Removed (mm : MmStruct) (addr : ℕ) (mm' : MmStruct) (res : Result (Unit {0}))
    : Type 0 where
  pub result : res ≡ (elim (lookup mm addr) [ none ↦ err enoent | some _ ↦ ok tt ])
  pub ordered : Regions 0 mm'.vma
  pub others :
      (v : ℕ)
      → lookup mm' v ≡ (elim (lookup mm addr) [
        | none ↦ lookup mm v
        | some r ↦ if hit v r then none else lookup mm v
      ])

-- `vma_remove` fails with ENOENT exactly where `vma_lookup` finds no region, and otherwise unlinks
-- the very region that `vma_lookup` returns: its addresses become unmapped, every other address
-- is looked up as before, and the list stays page-aligned, ascending and disjoint.
pub remove-Removed :
    (mm : MmStruct) (refs : Refs) (addr : ℕ)
    → Regions 0 mm.vma
    → Removed mm addr (remove mm refs addr).1 (remove mm refs addr).0
unfolding remove lookup
remove-Removed mm refs addr inv = elim (Option-cases (unlink addr mm.vma)) [
  | inl n ↦
      let f = unlink-none addr 0 mm.vma inv n in
      record {
        result = rw (n, remove) (rw f);
        ordered = rw (n, remove) inv;
        others = λ v. rw (n, remove) (rw f);
      }
  | inr ((r, rest), s) ↦
      let d = unlink-Dropped addr 0 mm.vma inv s in
      record {
        result = rw (s, remove) (rw d.found);
        ordered = rw (s, remove) d.ordered;
        others = λ v. rw (s, remove) (rw d.found (d.others v));
      }
]
