-- ===== src/Memory/Heap/Grow.antt =====
-- A new slab enters the list of its cache.
use wey_os.Base.{
  ℕ, ◌≤◌, ◌<◌, ◌≡◌, ◌≢◌, ◌⊎◌, inl, inr, ap, subst, sym, ◌∙◌, true, some, List, ◌∷◌, ◌==◌, ltb,
  arith, Bool-cases,
}
use wey_os.Memory.Page.{Zone, update}
use wey_os.Memory.Page.Cover.{cover}
use wey_os.Memory.Page.Blocks.{Block}
use wey_os.Memory.Page.Moves.{update_self, update_ne, inside_self}
use wey_os.Memory.Page.Alloc.{Allocated}
use wey_os.Memory.Heap.{Slab, Heap, object_size, new_slab}
use wey_os.Memory.Heap.Slots.{occ, occ_self, occ_ne, IsSlot, occ_full}
use wey_os.Memory.Heap.Order.{Holds-cover, IsSlab, IsHeap, Live, object_size_pos}
use wey_os.Memory.Heap.Fresh.{new_slab-IsSlab, new_slab_full}

-- The page of a slab is not free.
pub slab_taken :
    (h : Heap) (held : List Block)
    → IsHeap h held
    → (i s : ℕ) → 0 < occ s (h.slabs i)
    → cover 0 h.zone.free_list s ≡ 0
slab_taken h held heap i s l =
    let c = Holds-cover held 0 s s (heap.owned i s l) in
    let d = heap.zone.disjoint s in let e = inside_self 0 s in omega arith

-- A new slab on the page `p` in the cache `i`.
module _ (h : Heap) (held : List Block) (heap : IsHeap h held) (i : ℕ) (small : i < 9) (p : ℕ)
    (z : Zone) (got : Allocated h.zone held 0 24 p z) where
  abbrev pub slab : Slab
  slab = new_slab (object_size i) p

  abbrev pub grown : Heap
  grown = record {
    zone = z;
    private = update h.private p (some p);
    slab = update h.slab p slab;
    slabs = update h.slabs i (p ∷ h.slabs i);
  }

  p_free : 0 < cover 0 h.zone.free_list p
  p_free = let t = got.taken p in let e = inside_self 0 p in omega arith

  listed_ne : (j s : ℕ) → 0 < occ s (h.slabs j) → s ≢ p
  listed_ne j s l e =
      let c = slab_taken h held heap j s l in
      let d = ap (λ x. cover 0 h.zone.free_list x) e in let f = p_free in omega arith

  listed_cases :
      (j s : ℕ) → 0 < occ s (grown.slabs j) → ((s ≡ p) × (j ≡ i)) ⊎ (0 < occ s (h.slabs j))
  listed_cases j s l = elim (Bool-cases (i == j)) [
    | inl e ↦
        let f : i ≡ j = ground arith in
        let l' : 0 < occ s (p ∷ h.slabs i) = rw e at l in
        elim (Bool-cases (s == p)) [
          | inl g ↦ inl (ground arith, sym f)
          | inr g ↦ inr (
              subst (λ x. 0 < occ s (h.slabs x)) f
                (let o = occ_ne s p (h.slabs i) (λ t. absurd (ground arith)) in omega arith))
        ]
    | inr e ↦ inr (rw e at l)
  ]

  listed_grown : (j s : ℕ) → 0 < occ s (h.slabs j) → 0 < occ s (grown.slabs j)
  listed_grown j s l = elim (Bool-cases (i == j)) [
    | inl e ↦
        let f : i ≡ j = ground arith in
        let l' : 0 < occ s (h.slabs i) = subst (λ x. 0 < occ s (h.slabs x)) (sym f) l in
        rw e (omega arith)
    | inr e ↦ rw e l
  ]

  pub listed_new : 0 < occ p (grown.slabs i)
  listed_new =
      let e : (i == i) ≡ true = ground arith in rw e (let o = occ_self p (h.slabs i) in omega arith)

  pub new-IsSlab : IsSlab (object_size i) p slab (some p) (z.page p)
  new-IsSlab =
      new_slab-IsSlab (object_size i) p (z.page p) (object_size_pos i small) (heap.bounded p p_free)
        (ap (λ x. x.flags) got.handed) (ap (λ x. x.refcount) got.handed)

  all_free :
      (b : ℕ) → IsSlot slab.total_objects slab.start (object_size i) b → occ b slab.free_list ≡ 1
  all_free b at_p =
      let ok = new-IsSlab in
      let c = ok.count in
      let d = new_slab_full (object_size i) p in
      occ_full slab.total_objects slab.start (object_size i) slab.free_list
        (object_size_pos i small) ok.slots ok.single (omega arith) b at_p

  grown-IsSlab :
      (j s : ℕ)
      → 0 < occ s (grown.slabs j)
      → IsSlab (object_size j) s (grown.slab s) (grown.private s) (z.page s)
  grown-IsSlab j s l = elim (listed_cases j s l) [
    | inl (e, f) ↦
        subst (λ x. IsSlab (object_size x) s (grown.slab s) (grown.private s) (z.page s)) (sym f)
          (subst (λ x. IsSlab (object_size i) x (grown.slab x) (grown.private x) (z.page x)) (sym e)
            (subst (λ x. IsSlab (object_size i) p x (grown.private p) (z.page p))
              (sym (update_self h.slab p slab))
              (subst (λ x. IsSlab (object_size i) p slab x (z.page p))
                (sym (update_self h.private p (some p))) new-IsSlab)))
    | inr m ↦
        let n = listed_ne j s m in
        subst (λ x. IsSlab (object_size j) s x (grown.private s) (z.page s))
          (sym (update_ne h.slab p slab s n))
          (subst (λ x. IsSlab (object_size j) s (h.slab s) x (z.page s))
            (sym (update_ne h.private p (some p) s n))
            (subst (λ x. IsSlab (object_size j) s (h.slab s) (h.private s) x)
              (sym (got.others s (slab_taken h held heap j s m))) (heap.slab j s m)))
  ]

  grown_single : (j s : ℕ) → occ s (grown.slabs j) ≤ 1
  grown_single j s = elim (Bool-cases (i == j)) [
    | inl e ↦ rw e (elim (Bool-cases (s == p)) [
      | inl g ↦ elim (Bool-cases (ltb 0 (occ s (h.slabs i)))) [
        | inl l ↦ absurd (listed_ne i s (ground arith) (ground arith))
        | inr l ↦ let o = occ_self p (h.slabs i) in ground arith
      ]
      | inr g ↦
          let o = occ_ne s p (h.slabs i) (λ t. absurd (ground arith)) in
          let u = heap.single i s in omega arith
    ])
    | inr e ↦ rw e (heap.single j s)
  ]

  pub grown-IsHeap : IsHeap grown ((0, p) ∷ held)
  grown-IsHeap = record {
    zone = got.zone;
    bounded = λ a c. heap.bounded a (let t = got.taken a in omega arith);
    caches =
        λ j s l. elim (listed_cases j s l) [ inl (e, f) ↦ omega arith | inr m ↦ heap.caches j s m ];
    slab = grown-IsSlab;
    owned = λ j s l. elim (listed_cases j s l) [
      | inl (e, f) ↦ inl (ap (λ x. (0, x)) e)
      | inr m ↦ inr (heap.owned j s m)
    ];
    single = grown_single;
    unique = λ j k s l m. elim (listed_cases j s l) [
      | inl (e, f) ↦ elim (listed_cases k s m) [
        | inl (e', f') ↦ f ∙ sym f'
        | inr m' ↦ absurd (listed_ne k s m' e)
      ]
      | inr l' ↦ elim (listed_cases k s m) [
        | inl (e', f') ↦ absurd (listed_ne j s l' e')
        | inr m' ↦ heap.unique j k s l' m'
      ]
    ];
  }

  pub Live-grown : (b n : ℕ) → Live h b n → Live grown b n
  Live-grown b n x =
      let e = update_ne h.slab p slab x.place (listed_ne x.cache x.place x.listed) in
      record {
        cache = x.cache;
        place = x.place;
        listed = listed_grown x.cache x.place x.listed;
        slot = subst (λ t. IsSlot t.total_objects t.start (object_size x.cache) b) (sym e) x.slot;
        used = ap (λ t. occ b t.free_list) e ∙ x.used;
        sized = x.sized;
      }

  pub grown-Live : (b n : ℕ) → Live grown b n → Live h b n
  grown-Live b n x = elim (listed_cases x.cache x.place x.listed) [
    | inl (e, f) ↦ absurd (
        let same = ap grown.slab e ∙ update_self h.slab p slab in
        let at_p : IsSlot slab.total_objects slab.start (object_size i) b =
          subst (λ t. IsSlot t.total_objects t.start (object_size i) b) same
            (subst
              (λ c.
                IsSlot (grown.slab x.place).total_objects (grown.slab x.place).start (object_size c)
                  b)
              f x.slot) in
        let one = all_free b at_p in
        let u = ap (λ t. occ b t.free_list) (sym same) ∙ x.used in omega arith)
    | inr m ↦
        let e = update_ne h.slab p slab x.place (listed_ne x.cache x.place m) in
        record {
          cache = x.cache;
          place = x.place;
          listed = m;
          slot = subst (λ t. IsSlot t.total_objects t.start (object_size x.cache) b) e x.slot;
          used = ap (λ t. occ b t.free_list) (sym e) ∙ x.used;
          sized = x.sized;
        }
  ]
