-- ===== src/Memory/Heap/Destroy.antt =====
-- `slab_destroy`: a slab of which every object is free leaves its cache, and its page is freed.
use wey_os.Base.{
  ℕ, ◌<◌, ◌≡◌, ◌≢◌, inl, inr, ap, subst, sym, ◌∙◌, List, [], ◌∷◌, ◌++◌, ◌==◌, arith, Bool-cases,
}
use wey_os.Memory.Page.{Zone, remove}
use wey_os.Memory.Page.Blocks.{Block, IsZone}
use wey_os.Memory.Page.Free.{Freed, page_free-Freed}
use wey_os.Memory.Page.Runs.{IsZone-middle}
use wey_os.Memory.Heap.{Heap, object_size, destroy}
use wey_os.Memory.Heap.Slots.{occ, occ-remove, occ-remove_self, IsSlot, occ_full}
use wey_os.Memory.Heap.Order.{Holds, IsSlab, IsHeap, Live, object_size_pos}
use wey_os.Memory.Heap.Grow.{slab_taken}

Holds-split :
    (held : List Block) (b : Block)
    → Holds held b
    → (before : List Block) × (after : List Block) × (held ≡ before ++ (b ∷ after))
Holds-split [] b l = absurd l
Holds-split (c ∷ held) b (inl e) = ([], held, ap (λ x. x ∷ held) (sym e))
Holds-split (c ∷ held) b (inr l) =
    let (before, after, e) = Holds-split held b l in (c ∷ before, after, ap (λ x. c ∷ x) e)

Holds-left :
    (before after : List Block) (b c : Block)
    → Holds (before ++ (b ∷ after)) c
    → c ≢ b
    → Holds (before ++ after) c
Holds-left [] after b c (inl e) n = absurd (n e)
Holds-left [] after b c (inr l) n = l
Holds-left (x ∷ before) after b c (inl e) n = inl e
Holds-left (x ∷ before) after b c (inr l) n = inr (Holds-left before after b c l n)

module _ (max_pfn : ℕ) (h : Heap) (held : List Block) (heap : IsHeap h held) (i s : ℕ)
    (listed : 0 < occ s (h.slabs i)) (full : (h.slab s).free_count ≡ (h.slab s).total_objects) where
  -- What stands in a list that the slab left.
  listed_left : (j t : ℕ) → 0 < occ t (remove s (h.slabs j)) → (t ≢ s) × (0 < occ t (h.slabs j))
  listed_left j t l = elim (Bool-cases (t == s)) [
    | inl e ↦
        let f : t ≡ s = ground arith in
        let l' : 0 < occ s (remove s (h.slabs j)) =
          subst (λ x. 0 < occ x (remove s (h.slabs j))) f l in
        let o = occ-remove_self s (h.slabs j) in let u = heap.single j s in absurd (omega arith)
    | inr e ↦
        let n : t ≢ s = (λ f. absurd (ground arith)) in
        (n, (let o = occ-remove t s (h.slabs j) n in omega arith))
  ]

  -- No object of the slab is in use.
  unused : (a n : ℕ) (x : Live h a n) → x.place ≢ s
  unused a n x e =
      let c =
        heap.unique x.cache i s (subst (λ t. 0 < occ t (h.slabs x.cache)) e x.listed) listed in
      let ok = heap.slab i s listed in
      let at_s : IsSlot (h.slab s).total_objects (h.slab s).start (object_size i) a =
        subst (λ k. IsSlot (h.slab s).total_objects (h.slab s).start (object_size k) a) c
          (subst (λ t. IsSlot (h.slab t).total_objects (h.slab t).start (object_size x.cache) a) e
            x.slot) in
      let k = ok.count in
      let one =
        occ_full (h.slab s).total_objects (h.slab s).start (object_size i) (h.slab s).free_list
          (object_size_pos i (heap.caches i s listed)) ok.slots ok.single (omega arith) a at_s in
      let u = ap (λ t. occ a (h.slab t).free_list) (sym e) ∙ x.used in omega arith

  pub destroy-Live : (a n : ℕ) → Live (destroy max_pfn s h) a n → Live h a n
  unfolding destroy
  destroy-Live a n x = record {
    cache = x.cache;
    place = x.place;
    listed = (listed_left x.cache x.place x.listed).1;
    slot = x.slot;
    used = x.used;
    sized = x.sized;
  }

  pub Live-destroy : (a n : ℕ) → Live h a n → Live (destroy max_pfn s h) a n
  unfolding destroy
  Live-destroy a n x = record {
    cache = x.cache;
    place = x.place;
    listed =
        let o = occ-remove x.place s (h.slabs x.cache) (unused a n x) in
        let l = x.listed in omega arith;
    slot = x.slot;
    used = x.used;
    sized = x.sized;
  }

  pub destroy-IsHeap :
      (blocks : List Block) × IsHeap (destroy max_pfn s h) blocks
      × ((b : Block) → Holds held b → b ≢ (0, s) → Holds blocks b)
  unfolding destroy
  destroy-IsHeap =
      let slab_ok = heap.slab i s listed in
      let k = slab_ok.kind in
      let r = slab_ok.references in
      let (before, after, split) = Holds-split held (0, s) (heap.owned i s listed) in
      let zone =
        IsZone-middle h.zone before after (0, s) (subst (λ x. IsZone h.zone x) split heap.zone) in
      let (z, e, freed) =
        page_free-Freed max_pfn 0 s h.zone (before ++ after) zone (ground arith) (omega arith) in
      let keeps = λ (b : Block) (l : Holds held b) (n : b ≢ (0, s)).
        Holds-left before after (0, s) b (subst (λ x. Holds x b) split l) n in
      (before ++ after, rw (slab_ok.on_page, e) (left z (before ++ after) freed keeps), keeps)
    where
      left :
          (z : Zone) (blocks : List Block)
          → Freed h.zone blocks 0 s z
          → ((b : Block) → Holds held b → b ≢ (0, s) → Holds blocks b)
          → IsHeap (record h { zone = z; slabs = λ j. remove s (h.slabs j) }) blocks
      left z blocks freed keeps = record {
        zone = freed.zone;
        bounded = λ a c. elim (Bool-cases (a == s)) [
          | inl e ↦ let l = (heap.slab i s listed).low in ground arith
          | inr e ↦ heap.bounded a (let g = freed.given a in ground arith)
        ];
        caches = λ j t l. heap.caches j t (listed_left j t l).1;
        slab = λ j t l.
            let (n, m) = listed_left j t l in
            subst (λ x. IsSlab (object_size j) t (h.slab t) (h.private t) x)
              (sym (freed.others t (slab_taken h held heap j t m) (ground arith)))
              (heap.slab j t m);
        owned = λ j t l.
            let (n, m) = listed_left j t l in
            keeps (0, t) (heap.owned j t m) (λ e. n (ap (λ b. b.1) e));
        single = λ j t. elim (Bool-cases (t == s)) [
          | inl e ↦
              let f : t ≡ s = ground arith in
              let c = ap (λ x. occ x (remove s (h.slabs j))) f in
              let o = occ-remove_self s (h.slabs j) in let u = heap.single j s in omega arith
          | inr e ↦
              let o = occ-remove t s (h.slabs j) (λ f. absurd (ground arith)) in
              let u = heap.single j t in omega arith
        ];
        unique = λ j k t l m. heap.unique j k t (listed_left j t l).1 (listed_left k t m).1;
      }
