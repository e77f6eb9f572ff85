-- ===== src/Memory/Vma/Dup.antt =====
-- `vma_dup`: the copy of an address space.
use wey_os.Base.{
  ℕ, suc, ◌+◌, ◌^◌, ◌≤◌, ◌<◌, ◌≡◌, refl, ap, ◌∙◌, Bool, true, false, Option, none, some, List, [],
  ◌∷◌, ◌++◌, append-nil, append_assoc, leb, arith, All, length, Result, ok, err,
}
use wey_os.Memory.Vma.{
  VmRegion, MmStruct, Refs, word, page_size, fresh, slot, link, request_of, region_of,
  aligned_offset, align_down, align_up, add, dup_from, dup_next, dup, file_get,
}
use wey_os.Memory.Vma.Order.{IsRegion, Regions, align_down_lem, align_up_lem}
use wey_os.Memory.Vma.Refs.{uses, Counted, add-Counted, destroy-Counted}

-- A region that a process can have: its end can be rounded up, its offset is a 64-bit pattern.
abbrev pub InUser : VmRegion → Type 0
InUser r = (r.end + page_size ≤ word) × (r.file_offset < 2 ^ 64)

-- An aligned region asks for itself.
region_of-request_of : (r : VmRegion) → IsRegion r → InUser r → region_of (request_of r) ≡ r
unfolding region_of aligned_offset
region_of-request_of r v u =
    let d : align_down r.start ≡ r.start =
      omega (arith, align_down_lem r.start (omega (arith, v.ordered, u.0)), v.start_aligned) in
    let e : align_up r.end ≡ r.end = omega (arith, align_up_lem r.end u.0, v.end_aligned) in
    rw d (rw e (ground (arith, d)))

-- Behind regions that all lie below it, a region goes to the end of the list.
slot_end :
    (r : VmRegion) (lo : ℕ) (cs rs : List VmRegion)
    → Regions lo (cs ++ (r ∷ rs))
    → r.start < r.end
    → (slot r.start r.end cs ≡ some (length cs))
      × (link (length cs) r cs ≡ cs ++ (r ∷ []))
      × (lo ≤ r.start)
unfolding slot link
slot_end r lo [] rs t h = (refl, refl, t.0)
slot_end r lo (c ∷ cs) rs t h =
    let ih = slot_end r c.end cs rs t.2 h in
    (
      ground (arith, ih.0, ih.2, t.1.ordered),
      ap (λ l. c ∷ l) ih.1,
      omega (arith, ih.2, t.0, t.1.ordered),
    )

abbrev extended : MmStruct → List VmRegion → MmStruct
extended mm rs = record mm { vma = rs }

add_end :
    (copy : MmStruct) (refs : Refs) (r : VmRegion) (rs : List VmRegion)
    → Regions 0 (copy.vma ++ (r ∷ rs))
    → IsRegion r
    → InUser r
    → add true copy refs (request_of r)
      ≡ (ok r, extended copy (copy.vma ++ (r ∷ [])), file_get r.file refs)
unfolding add
add_end copy refs r rs t v u =
    let s = slot_end r 0 copy.vma rs t v.ordered in
    let f : leb r.end r.start ≡ false = ground (arith, v.ordered) in
    let same = region_of-request_of r v u in rw f (rw same (rw s.0 (rw same (rw s.1))))

Regions-last :
    (lo : ℕ) (cs : List VmRegion) (r : VmRegion) (rs : List VmRegion)
    → Regions lo (cs ++ (r ∷ rs))
    → IsRegion r
Regions-last lo [] r rs t = t.1
Regions-last lo (c ∷ cs) r rs t = Regions-last c.end cs r rs t.2

-- With memory for every region the loop copies them all, in order.
dup_from_lem :
    (copy : MmStruct) (refs : Refs) (rs : List VmRegion)
    → Regions 0 (copy.vma ++ rs)
    → All InUser rs
    → ((dup_from (λ _. true) copy refs rs).0 ≡ true)
      × ((dup_from (λ _. true) copy refs rs).1 ≡ extended copy (copy.vma ++ rs))
unfolding dup_from
dup_from_lem copy refs [] t u = (refl, rw (append-nil copy.vma))
dup_from_lem copy refs (r ∷ rs) t u =
    let e = add_end copy refs r rs t (Regions-last 0 copy.vma r rs t) u.0 in
    let a : (copy.vma ++ (r ∷ [])) ++ rs ≡ copy.vma ++ (r ∷ rs) =
      append_assoc copy.vma (r ∷ []) rs in
    let ih =
      dup_from_lem (extended copy (copy.vma ++ (r ∷ []))) (file_get r.file refs) rs (rw a t) u.1 in
    rw (e, dup_from) (ih.0, ih.1 ∙ ap (extended copy) a)

dup_from-Counted :
    (memory : ℕ → Bool) (base : Refs) (copy : MmStruct) (refs : Refs) (rs : List VmRegion)
    → Counted base copy.vma refs
    → Counted base (dup_from memory copy refs rs).1.vma (dup_from memory copy refs rs).2
unfolding dup_from
dup_from-Counted memory base copy refs [] c = c
dup_from-Counted memory base copy refs (r ∷ rs) c =
    next (add (memory 0) copy refs (request_of r)).0 _ _ _ added (
      dup_from-Counted (λ n. memory (suc n)) base (add (memory 0) copy refs (request_of r)).1
        (add (memory 0) copy refs (request_of r)).2 rs added)
  where
    added :
        Counted base
          (add (memory 0) copy refs (request_of r)).1.vma
          (add (memory 0) copy refs (request_of r)).2
    added = add-Counted base copy refs c (memory 0) (request_of r)

    next :
        (res : Result VmRegion) (copy' : MmStruct) (refs' : Refs) (rest : Bool × MmStruct × Refs)
        → Counted base copy'.vma refs'
        → Counted base rest.1.vma rest.2
        → Counted base (dup_next res copy' refs' rest).1.vma (dup_next res copy' refs' rest).2
    next (ok _) copy' refs' rest a b = b
    next (err _) copy' refs' rest a b = a

-- With memory and a cloned context, the copy has the same regions in the same order, the same
-- break and the new context, and each file gains one reference for each region that maps it.
pub dup_lem :
    (c : ℕ) (mm : MmStruct) (refs : Refs)
    → Regions 0 mm.vma
    → All InUser mm.vma
    → ((dup (λ _. true) (some c) mm refs).0 ≡ some (record mm { ctx = some c; refcount = 1 }))
      × ((g : ℕ) → (dup (λ _. true) (some c) mm refs).1 g ≡ refs g + uses g mm.vma)
unfolding dup
dup_lem c mm refs t u =
    let d = dup_from_lem fresh refs mm.vma t u in
    let n = dup_from-Counted (λ _. true) refs fresh refs mm.vma (λ g. omega arith) in
    (
      rw (d.0, dup) (rw d.1 refl),
      λ g. rw (d.0, dup) (n g ∙ ap (λ (m : MmStruct). refs g + uses g m.vma) d.1),
    )

-- When `vma_dup` returns NULL, for want of memory for some region or of a context, every file's
-- reference count is what it was before the call.
pub dup-none :
    (memory : ℕ → Bool) (cloned : Option ℕ) (mm : MmStruct) (refs : Refs)
    → (dup memory cloned mm refs).0 ≡ none
    → (g : ℕ) → (dup memory cloned mm refs).1 g ≡ refs g
unfolding dup
dup-none memory cloned mm refs e g =
    go cloned e (dup_from memory fresh refs mm.vma).0 (λ i. (dup_from memory fresh refs mm.vma).0)
  where
    out : Bool × MmStruct × Refs
    out = dup_from memory fresh refs mm.vma

    counted : Counted refs out.1.vma out.2
    counted = dup_from-Counted memory refs fresh refs mm.vma (λ k. omega arith)

    go :
        (c : Option ℕ)
        → (dup memory c mm refs).0 ≡ none
        → (b : Bool) → out.0 ≡ b
        → (dup memory c mm refs).1 g ≡ refs g
    go none e true h = rw (h, dup) (destroy-Counted refs out.1 out.2 counted g)
    go none e false h = rw (h, dup) (destroy-Counted refs out.1 out.2 counted g)
    go (some c) e true h = absurd (ground arith)
    go (some c) e false h = rw (h, dup) (destroy-Counted refs out.1 out.2 counted g)
