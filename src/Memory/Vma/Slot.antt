-- ===== src/Memory/Vma/Slot.antt =====
-- `vma_add`: where the new region goes, and what comes back on each path.
use wey_os.Base.{
  ℕ, zero, suc, ◌+◌, ◌≤◌, ◌<◌, ◌≡◌, inl, inr, Bool, true, false, ◌&&◌, ◌||◌, none, some, List, [],
  ◌∷◌, ltb, leb, le→leb, if◌then◌else◌, arith, Bool-cases, ok, err, einval, enomem,
}
use wey_os.Memory.Vma.{
  VmRegion, MmStruct, Refs, Request, word, page_size, slot, link, region_of, add, find, lookup, hit,
  file_get,
}
use wey_os.Memory.Vma.Order.{IsRegion, Regions, region_of-IsRegion}

-- Some region of the whole list meets `[start, end)`.
abbrev pub clash : ℕ → ℕ → List VmRegion → Bool
clash start end [] = false
clash start end (r ∷ rs) = (ltb start r.end && ltb r.start end) || clash start end rs

clash_beyond :
    (start end lo : ℕ) (rs : List VmRegion) → Regions lo rs → end ≤ lo → clash start end rs ≡ false
clash_beyond start end lo [] t h = λ i. false
clash_beyond start end lo (r ∷ rs) t h =
    ground (arith, clash_beyond start end r.end rs, t.1.ordered)

-- Stopping at the first region at or beyond `end` misses no overlap.
pub slot-clash :
    (start end lo : ℕ) (rs : List VmRegion)
    → Regions lo rs
    → (clash start end rs ≡ true → slot start end rs ≡ none)
      × (clash start end rs ≡ false → (n : ℕ) × (slot start end rs ≡ some n))
unfolding slot
slot-clash start end lo [] t = (λ h. cc, λ h. (0, λ i. some 0))
slot-clash start end lo (r ∷ rs) t =
    let ih = slot-clash start end r.end rs t.2 in
    elim (Bool-cases (ltb r.start end)) [
      | inl a ↦ elim (Bool-cases (ltb start r.end)) [
        | inl b ↦ (λ h. ground arith, λ h. absurd (ground arith))
        | inr b ↦ (
          λ h. rw a (rw b (rw (ih.0 (ground arith)))),
          λ h. let found = ih.1 (ground arith) in (suc found.0, rw a (rw b (rw found.1))),
        )
      ]
      | inr a ↦ (
        λ h. absurd (ground (arith, clash_beyond start end r.end rs t.2, t.1.ordered)),
        λ h. (0, rw a),
      )
    ]

-- Linking a region in at the slot keeps the list ascending and disjoint.
pub link-Regions :
    (q : VmRegion) (lo n : ℕ) (rs : List VmRegion)
    → IsRegion q
    → lo ≤ q.start
    → Regions lo rs
    → slot q.start q.end rs ≡ some n
    → Regions lo (link n q rs)
unfolding slot link
link-Regions q lo zero [] v h t e = (h, v, tt)
link-Regions q lo (suc n) [] v h t e = absurd (ground arith)
link-Regions q lo zero (r ∷ rs) v h t e = (h, v, (ground (arith, v.ordered), t.1, t.2))
link-Regions q lo (suc n) (r ∷ rs) v h t e =
    (t.0, t.1, link-Regions q r.end n rs v (ground arith) t.2 (ground arith))

abbrev Ordered : Request → Type 0
Ordered q = (q.start < q.end) × (q.end + page_size ≤ word)

module _ (mm : MmStruct) (refs : Refs) (q : Request) (inv : Regions 0 mm.vma) where
  add_bad : (memory : Bool) → q.end ≤ q.start → add memory mm refs q ≡ (err einval, mm, refs)
  unfolding add
  add_bad memory h = rw (le→leb q.end q.start h)

  add_clash :
      (memory : Bool)
      → q.start < q.end
      → slot (region_of q).start (region_of q).end mm.vma ≡ none
      → add memory mm refs q ≡ (err einval, mm, refs)
  unfolding add
  add_clash memory h e = let f : leb q.end q.start ≡ false = ground arith in rw f (rw e)

  add_memory :
      (n : ℕ)
      → q.start < q.end
      → slot (region_of q).start (region_of q).end mm.vma ≡ some n
      → (add true mm refs q ≡ (
        ok (region_of q),
        record mm { vma = link n (region_of q) mm.vma },
        file_get q.file refs,
      ))
        × (add false mm refs q ≡ (err enomem, mm, refs))
  unfolding add
  add_memory n h e = let f : leb q.end q.start ≡ false = ground arith in (rw f (rw e), rw f (rw e))

-- The three ways through `vma_add`.
pub data Way (mm : MmStruct) (refs : Refs) (q : Request) : Type 0 where
  refused :
      ((memory : Bool) → add memory mm refs q ≡ (err einval, mm, refs))
      → (leb q.end q.start || clash (region_of q).start (region_of q).end mm.vma) ≡ true
      → Way mm refs q
  linked :
      (n : ℕ)
      → q.start < q.end
      → clash (region_of q).start (region_of q).end mm.vma ≡ false
      → slot (region_of q).start (region_of q).end mm.vma ≡ some n
      → add true mm refs q
        ≡ (ok (region_of q), record mm { vma = link n (region_of q) mm.vma }, file_get q.file refs)
      → add false mm refs q ≡ (err enomem, mm, refs)
      → Way mm refs q

pub way : (mm : MmStruct) (refs : Refs) (q : Request) → Regions 0 mm.vma → Way mm refs q
way mm refs q inv = elim (Bool-cases (leb q.end q.start)) [
  | inl bad ↦ refused (λ m. add_bad mm refs q inv m (ground arith)) (rw bad)
  | inr fine ↦
      let both = slot-clash (region_of q).start (region_of q).end 0 mm.vma inv in
      elim (Bool-cases (clash (region_of q).start (region_of q).end mm.vma)) [
        | inl c ↦ refused (λ m. add_clash mm refs q inv m (ground arith) (both.0 c)) (rw fine c)
        | inr c ↦
            let found = both.1 c in
            let outcome = add_memory mm refs q inv found.0 (ground arith) found.1 in
            linked found.0 (ground arith) c found.1 outcome.0 outcome.1
      ]
]

-- `vma_add` fails with EINVAL exactly on an empty range and on one that, rounded to pages, meets
-- some region of the list; otherwise with ENOMEM when the allocation fails; otherwise it returns
-- the rounded region.
add_result :
    (memory : Bool) (mm : MmStruct) (refs : Refs) (q : Request)
    → Regions 0 mm.vma
    → (add memory mm refs q).0 ≡ (
        if leb q.end q.start || clash (region_of q).start (region_of q).end mm.vma
        then err einval
        else (if memory then ok (region_of q) else err enomem))
add_result memory mm refs q inv = go memory (way mm refs q inv)
  where
    go :
        (m : Bool)
        → Way mm refs q
        → (add m mm refs q).0 ≡ (
            if leb q.end q.start || clash (region_of q).start (region_of q).end mm.vma
            then err einval
            else (if m then ok (region_of q) else err enomem))
    go m (refused e bad) = rw (e m) (rw bad)
    go true (linked n h c s e f) =
        let g : leb q.end q.start ≡ false = ground arith in rw e (rw g (rw c))
    go false (linked n h c s e f) =
        let g : leb q.end q.start ≡ false = ground arith in rw f (rw g (rw c))

-- Whatever `vma_add` answers, the list it leaves is page-aligned, ascending and disjoint, if it
-- was before and the end of the request can be rounded up in 32 bits.
pub add-Regions :
    (memory : Bool) (mm : MmStruct) (refs : Refs) (q : Request)
    → Regions 0 mm.vma
    → q.end + page_size ≤ word
    → Regions 0 (add memory mm refs q).1.vma
add-Regions memory mm refs q inv b = go memory (way mm refs q inv)
  where
    go : (m : Bool) → Way mm refs q → Regions 0 (add m mm refs q).1.vma
    go m (refused e bad) = rw (e m) inv
    go true (linked n h c s e f) =
        let v = region_of-IsRegion q h b in
        rw e (link-Regions (region_of q) 0 n mm.vma v.0 (omega arith) inv s)
    go false (linked n h c s e f) = rw f inv

-- A region that was linked in is found at its addresses, and hides no other region.
pub find-link :
    (q : VmRegion) (addr lo n : ℕ) (rs : List VmRegion)
    → IsRegion q
    → Regions lo rs
    → slot q.start q.end rs ≡ some n
    → find addr (link n q rs) ≡ (if hit addr q then some q else find addr rs)
unfolding slot link find
find-link q addr lo zero [] v t e = ground arith
find-link q addr lo (suc n) [] v t e = absurd (ground arith)
find-link q addr lo zero (r ∷ rs) v t e = ground (arith, v.ordered, t.1.ordered)
find-link q addr lo (suc n) (r ∷ rs) v t e =
    ground (arith, v.ordered, t.1.ordered, find-link q addr r.end n rs v t.2 (ground arith))

-- After a successful `vma_add` to a list that is page-aligned, ascending and disjoint, of a request
-- whose end is at most 2^32 - 4096, so that it can be rounded up in 32 bits, `vma_lookup` returns the
-- new region at each of its addresses and at every other address what it returned before.
pub lookup-add :
    (mm : MmStruct) (refs : Refs) (q : Request) (addr : ℕ) {r : VmRegion}
    → Regions 0 mm.vma
    → q.end + page_size ≤ word
    → (add true mm refs q).0 ≡ ok r
    → lookup (add true mm refs q).1 addr ≡ (if hit addr r then some r else lookup mm addr)
unfolding lookup
lookup-add mm refs q addr {r} inv b e = go (way mm refs q inv)
  where
    go :
        Way mm refs q
        → find addr (add true mm refs q).1.vma ≡ (if hit addr r then some r else find addr mm.vma)
    go (refused f bad) = absurd (cc (f true))
    go (linked n h c s f g) =
        let same : region_of q ≡ r = cc f in
        rw f
          (rw (← same) (find-link (region_of q) addr 0 n mm.vma (region_of-IsRegion q h b).0 inv s))
