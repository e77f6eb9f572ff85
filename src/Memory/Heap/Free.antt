-- ===== src/Memory/Heap/Free.antt =====
-- `slab_free`.
use wey_os.Base.{
  ℕ, suc, ◌+◌, ◌/◌, ◌%◌, ◌≤◌, ◌<◌, ◌≡◌, ◌≢◌, inl, inr, refl, ap, subst, sym, ◌∙◌, true, some, List,
  ◌∷◌, ◌==◌, arith, Bool-cases, length,
}
use wey_os.Memory.Page.{ulong_mod}
use wey_os.Memory.Page.Init.{page_size}
use wey_os.Memory.Page.Blocks.{Block}
use wey_os.Memory.Page.Moves.{update_self}
use wey_os.Memory.Heap.{Heap, object_size, is_slab, put_object, give_object, slab_free}
use wey_os.Memory.Heap.Slots.{occ, occ_self, occ_ne, IsSlot, length-slots}
use wey_os.Memory.Heap.Order.{Holds, IsSlab, IsHeap, Live, object_size_pos, Live-bounds}
use wey_os.Memory.Heap.Take.{
  objects_bound, rechain, with_chain, with_chain-IsHeap, Live-with_chain, with_chain-Live,
}
use wey_os.Memory.Heap.Destroy.{destroy-IsHeap, destroy-Live, Live-destroy}

-- What the return of the object `a` has done; `blocks` are the blocks that are held then.
pub record Returned (h : Heap) (held : List Block) (a : ℕ) (h' : Heap) (blocks : List Block)
    : Type 0 where
  pub heap : IsHeap h' blocks
  pub held_on : (b : Block) → Holds held b → b ≢ (0, a / page_size) → Holds blocks b
  pub gone : (n : ℕ) → Live h' a n → ⊥
  pub others : (b n : ℕ) → Live h b n → b ≢ a → Live h' b n
  pub no_others : (b n : ℕ) → Live h' b n → Live h b n

module _ (h : Heap) (held : List Block) (heap : IsHeap h held) (a n : ℕ) (x : Live h a n) where
  abbrev i : ℕ
  i = x.cache

  abbrev s : ℕ
  s = x.place

  abbrev count : ℕ
  count = ((h.slab s).free_count + 1) % ulong_mod

  abbrev put : Heap
  put = with_chain s (a ∷ (h.slab s).free_list) count h

  old : IsSlab (object_size i) s (h.slab s) (h.private s) (h.zone.page s)
  old = heap.slab i s x.listed

  pos : 0 < object_size i
  pos = object_size_pos i (heap.caches i s x.listed)

  count_lem : count ≡ suc (length (h.slab s).free_list)
  count_lem =
      let c = old.count in
      let o = old.objects in
      let b = objects_bound (object_size i) in
      let l =
        length-slots (h.slab s).total_objects (h.slab s).start (object_size i) (h.slab s).free_list
          pos old.slots old.single in
      omega arith

  put-IsSlab :
      IsSlab
        (object_size i)
        s
        (rechain (h.slab s) (a ∷ (h.slab s).free_list) count)
        (h.private s)
        (h.zone.page s)
  put-IsSlab = record {
    on_page = old.on_page;
    first = old.first;
    objects = old.objects;
    count = count_lem;
    slots = λ b l. elim (Bool-cases (b == a)) [
      | inl e ↦
          let f : a ≡ b = ground arith in
          subst (λ t. IsSlot (h.slab s).total_objects (h.slab s).start (object_size i) t) f x.slot
      | inr e ↦
          old.slots b
            (let o = occ_ne b a (h.slab s).free_list (λ f. absurd (ground arith)) in omega arith)
    ];
    single = λ b. elim (Bool-cases (b == a)) [
      | inl e ↦
          let f : b ≡ a = ground arith in
          let c = ap (λ t. occ t (a ∷ (h.slab s).free_list)) f in
          let o = occ_self a (h.slab s).free_list in let u = x.used in omega arith
      | inr e ↦
          let o = occ_ne b a (h.slab s).free_list (λ f. absurd (ground arith)) in
          let u = old.single b in omega arith
    ];
    known = old.known;
    kind = old.kind;
    references = old.references;
    low = old.low;
  }

  -- The object is in the chain again.
  put-Returned : Returned h held a put held
  put-Returned =
      let heap1 =
        with_chain-IsHeap h held heap i s x.listed (a ∷ (h.slab s).free_list) count put-IsSlab in
      record {
        heap = heap1;
        held_on = λ b l d. l;
        gone = λ m y.
            let p = Live-bounds put held heap1 a m y in
            let q = Live-bounds h held heap a n x in
            let e : y.place ≡ s = sym p.2 ∙ q.2 in
            let u = ap (λ t. occ a (put.slab t).free_list) (sym e) ∙ y.used in
            let v =
              ap (λ t. occ a t.free_list)
                (update_self h.slab s (rechain (h.slab s) (a ∷ (h.slab s).free_list) count)) in
            let o = occ_self a (h.slab s).free_list in absurd (omega arith);
        others = λ b m y d. Live-with_chain h s (a ∷ (h.slab s).free_list) count b m y (λ e.
            occ_ne b a (h.slab s).free_list d
            ∙ ap (λ t. occ b (h.slab t).free_list) (sym e)
            ∙ y.used);
        no_others = λ b m y. with_chain-Live h s (a ∷ (h.slab s).free_list) count b m y (λ e z.
            let l : occ b (h.slab s).free_list ≤ occ b (a ∷ (h.slab s).free_list) = omega arith in
            omega arith);
      }

  -- The slab goes when this was its last object in use.
  give-Returned :
      (max_pfn : ℕ) → (blocks : List Block) × Returned h held a (give_object max_pfn s a h) blocks
  unfolding give_object put_object
  give-Returned max_pfn =
      elim (Bool-cases ((put.slab s).free_count == (put.slab s).total_objects)) [
        | inr e ↦ rw e (held, put-Returned)
        | inl e ↦
            let r = put-Returned in
            let f : (put.slab s).free_count ≡ (put.slab s).total_objects = ground arith in
            let (blocks, heap2, on) = destroy-IsHeap max_pfn put held r.heap i s x.listed f in
            let p = (Live-bounds h held heap a n x).2 in
            rw e (
              blocks,
              record {
                heap = heap2;
                held_on = λ b l d. on b l (λ t. d (t ∙ ap (λ y. (0, y)) (sym p)));
                gone = λ m y. r.gone m (destroy-Live max_pfn put held r.heap i s x.listed f a m y);
                others = λ b m y d.
                    Live-destroy max_pfn put held r.heap i s x.listed f b m (r.others b m y d);
                no_others = λ b m y.
                    r.no_others b m (destroy-Live max_pfn put held r.heap i s x.listed f b m y);
              },
            )
      ]

-- `slab_free` of an object in use, on a heap in order: BUG_ON does not stop it, the heap is in order
-- again, and of all objects exactly this one is no longer in use; every block that was held still is,
-- except perhaps the page of the object, which is given back when nothing in it is in use.
pub slab_free-Returned :
    (max_pfn : ℕ) (h : Heap) (held : List Block) (a n : ℕ)
    → IsHeap h held
    → Live h a n
    → (h' : Heap) × (slab_free max_pfn a h ≡ some h')
      × ((blocks : List Block) × Returned h held a h' blocks)
unfolding slab_free
slab_free-Returned max_pfn h held a n heap x =
    let ok = heap.slab x.cache x.place x.listed in
    let p = (Live-bounds h held heap a n x).2 in
    let k = ok.kind in
    let m : is_slab (h.zone.page x.place) ≡ true = ground arith in
    let e : ((h.slab x.place).page == x.place) ≡ true = let t = ok.on_page in ground arith in
    (
      give_object max_pfn x.place a h,
      rw (p, m, ok.known, p, e) refl,
      give-Returned h held heap a n x max_pfn,
    )
