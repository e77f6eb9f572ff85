-- ===== src/Memory/Heap/Take.antt =====
-- An object leaves the chain of its slab.
use native.Mathlib.Nat.{div-le_self}
use wey_os.Base.{
  ℕ, ◌+◌, ◌-◌, ◌*◌, ◌/◌, ◌%◌, ◌≤◌, ◌<◌, ◌≡◌, ◌≢◌, inl, inr, refl, ap, subst, sym, ◌∙◌, true, List,
  ◌∷◌, ◌==◌, if◌then◌else◌, arith, Bool-cases, length,
}
use wey_os.Memory.Page.{ulong_mod, update}
use wey_os.Memory.Page.Init.{page_size}
use wey_os.Memory.Page.Blocks.{Block}
use wey_os.Memory.Page.Moves.{update_self, update_ne}
use wey_os.Memory.Heap.{Slab, Heap, object_size, header_size}
use wey_os.Memory.Heap.Slots.{occ, occ_self, occ_ne, IsSlot, length-slots}
use wey_os.Memory.Heap.Order.{Holds, IsSlab, IsHeap, Live, object_size_pos, Live-bounds, slot-page}

-- What the allocation of `a` for `size` bytes has done; `blocks` are the blocks that are held then.
pub record Given (h : Heap) (held : List Block) (size a : ℕ) (h' : Heap) (blocks : List Block)
    : Type 0 where
  pub heap : IsHeap h' blocks
  pub held_on : (b : Block) → Holds held b → Holds blocks b
  pub room : ℕ
  pub large : size ≤ room
  pub live : Live h' a room
  pub fresh : (n : ℕ) → Live h a n → ⊥
  pub others : (b n : ℕ) → Live h b n → Live h' b n
  pub no_others : (b n : ℕ) → Live h' b n → b ≢ a → Live h b n

-- The number of objects of a slab fits a word.
pub objects_bound : (size : ℕ) → (page_size - header_size) / size ≤ 4068
objects_bound size = div-le_self (page_size - header_size) size

-- The slab with another chain.
abbrev pub rechain : Slab → List ℕ → ℕ → Slab
rechain slab free n = record {
  page = slab.page;
  start = slab.start;
  free_list = free;
  free_count = n;
  total_objects = slab.total_objects;
}

-- The chain of one slab is replaced.
abbrev pub with_chain : ℕ → List ℕ → ℕ → Heap → Heap
with_chain s free n h = record h { slab = update h.slab s (rechain (h.slab s) free n) }

module _ (h : Heap) (held : List Block) (heap : IsHeap h held) (i s : ℕ)
    (listed : 0 < occ s (h.slabs i)) where
  -- The other slabs stay.
  pub with_chain-IsHeap :
      (free : List ℕ) (n : ℕ)
      → IsSlab (object_size i) s (rechain (h.slab s) free n) (h.private s) (h.zone.page s)
      → IsHeap (with_chain s free n h) held
  with_chain-IsHeap free n ok = record {
    zone = heap.zone;
    bounded = heap.bounded;
    caches = heap.caches;
    slab = λ j t l. elim (Bool-cases (s == t)) [
      | inl e ↦
          let f : s ≡ t = ground arith in
          let c : i ≡ j = heap.unique i j s listed (subst (λ x. 0 < occ x (h.slabs j)) (sym f) l) in
          subst
            (λ x.
              IsSlab (object_size j) x (update h.slab s (rechain (h.slab s) free n) x) (h.private x)
                (h.zone.page x))
            f
            (subst
              (λ x.
                IsSlab (object_size x) s (update h.slab s (rechain (h.slab s) free n) s)
                  (h.private s) (h.zone.page s))
              c
              (subst (λ x. IsSlab (object_size i) s x (h.private s) (h.zone.page s))
                (sym (update_self h.slab s (rechain (h.slab s) free n))) ok))
      | inr e ↦
          subst (λ x. IsSlab (object_size j) t x (h.private t) (h.zone.page t))
            (sym (update_ne h.slab s (rechain (h.slab s) free n) t (λ f. absurd (ground arith))))
            (heap.slab j t l)
    ];
    owned = heap.owned;
    single = heap.single;
    unique = heap.unique;
  }

-- What the other fields of a slab are behind a change of chain.
module _ (h : Heap) (s : ℕ) (free : List ℕ) (n : ℕ) where
  with_chain_kept :
      (t : ℕ)
      → (((with_chain s free n h).slab t).total_objects ≡ (h.slab t).total_objects)
        × (((with_chain s free n h).slab t).start ≡ (h.slab t).start)
  with_chain_kept t = elim (Bool-cases (s == t)) [
    | inl e ↦
        let f : s ≡ t = ground arith in
        rw e (ap (λ x. (h.slab x).total_objects) f, ap (λ x. (h.slab x).start) f)
    | inr e ↦ rw e (refl, refl)
  ]

  with_chain_free :
      (t a : ℕ)
      → occ a ((with_chain s free n h).slab t).free_list
        ≡ (if s == t then occ a free else occ a (h.slab t).free_list)
  with_chain_free t a = elim (Bool-cases (s == t)) [ inl e ↦ rw e refl | inr e ↦ rw e refl ]

  pub Live-with_chain :
      (a m : ℕ) (x : Live h a m) → (x.place ≡ s → occ a free ≡ 0) → Live (with_chain s free n h) a m
  Live-with_chain a m x u = record {
    cache = x.cache;
    place = x.place;
    listed = x.listed;
    slot =
        let (p, q) = with_chain_kept x.place in
        let (j, l, e) = x.slot in
        (j, omega arith, e ∙ ap (λ t. t + j * object_size x.cache) (sym q));
    used = with_chain_free x.place a ∙ elim (Bool-cases (s == x.place)) [
      | inl e ↦ rw e (u (let f : x.place ≡ s = ground arith in f))
      | inr e ↦ rw e x.used
    ];
    sized = x.sized;
  }

  pub with_chain-Live :
      (a m : ℕ) (x : Live (with_chain s free n h) a m)
      → (x.place ≡ s → occ a free ≡ 0 → occ a (h.slab s).free_list ≡ 0)
      → Live h a m
  with_chain-Live a m x u = record {
    cache = x.cache;
    place = x.place;
    listed = x.listed;
    slot =
        let (p, q) = with_chain_kept x.place in
        let (j, l, e) = x.slot in (j, omega arith, e ∙ ap (λ t. t + j * object_size x.cache) q);
    used =
        let v = sym (with_chain_free x.place a) ∙ x.used in
        elim (Bool-cases (s == x.place)) [
          | inl e ↦
              let f : x.place ≡ s = ground arith in
              ap (λ t. occ a (h.slab t).free_list) f ∙ u f (rw e at v)
          | inr e ↦ rw e at v
        ];
    sized = x.sized;
  }

module _ (h : Heap) (held : List Block) (heap : IsHeap h held) (i s : ℕ)
    (listed : 0 < occ s (h.slabs i)) (obj : ℕ) (rest : List ℕ)
    (chain : (h.slab s).free_list ≡ obj ∷ rest) where
  abbrev left : ℕ
  left = ((h.slab s).free_count + ulong_mod - 1) % ulong_mod

  left_lem : left ≡ length rest
  left_lem =
      let ok = heap.slab i s listed in
      let c = ok.count in
      let o = ok.objects in
      let e = ap (λ x. length x) chain in
      let b = objects_bound (object_size i) in
      let l =
        length-slots (h.slab s).total_objects (h.slab s).start (object_size i) (h.slab s).free_list
          (object_size_pos i (heap.caches i s listed)) ok.slots ok.single in
      omega arith

  rest-occ : (a : ℕ) → occ a (h.slab s).free_list ≡ occ a (obj ∷ rest)
  rest-occ a = ap (λ x. occ a x) chain

  taken-IsSlab :
      IsSlab (object_size i) s (rechain (h.slab s) rest left) (h.private s) (h.zone.page s)
  taken-IsSlab =
      let ok = heap.slab i s listed in
      record {
        on_page = ok.on_page;
        first = ok.first;
        objects = ok.objects;
        count = left_lem;
        slots = λ a l. ok.slots a (let e = rest-occ a in omega arith);
        single = λ a. let e = rest-occ a in let f = ok.single a in omega arith;
        known = ok.known;
        kind = ok.kind;
        references = ok.references;
        low = ok.low;
      }

  slot : IsSlot (h.slab s).total_objects (h.slab s).start (object_size i) obj
  slot =
      let r = rest-occ obj in
      let o = occ_self obj rest in (heap.slab i s listed).slots obj (omega arith)

  unused : occ obj rest ≡ 0
  unused =
      let r = rest-occ obj in
      let o = occ_self obj rest in let u = (heap.slab i s listed).single obj in omega arith

  -- The first object of the chain comes into use.
  pub take-Given :
      (size : ℕ) → size ≤ object_size i → Given h held size obj (with_chain s rest left h) held
  take-Given size large = record {
    heap = with_chain-IsHeap h held heap i s listed rest left taken-IsSlab;
    held_on = λ b l. l;
    room = object_size i;
    large = large;
    live =
        let (p, q) = with_chain_kept h s rest left s in
        let (j, l, e) = slot in
        record {
          cache = i;
          place = s;
          listed = listed;
          slot = (j, omega arith, e ∙ ap (λ t. t + j * object_size i) (sym q));
          used =
              with_chain_free h s rest left s obj
              ∙ (let t : (s == s) ≡ true = ground arith in rw t unused);
          sized = refl;
        };
    fresh = λ n x.
        let b = Live-bounds h held heap obj n x in
        let g =
          slot-page (object_size i) s (object_size_pos i (heap.caches i s listed)) (h.slab s)
            (h.private s) (h.zone.page s) (heap.slab i s listed) obj slot in
        let u = ap (λ t. occ obj (h.slab t).free_list) (sym b.2 ∙ g) in
        let v = x.used in let r = rest-occ obj in let o = occ_self obj rest in absurd (omega arith);
    others = λ b n x. Live-with_chain h s rest left b n x (λ e.
        let r = rest-occ b in
        let u = ap (λ t. occ b (h.slab t).free_list) (sym e) in let v = x.used in omega arith);
    no_others = λ b n x d.
        with_chain-Live h s rest left b n x (λ e z. rest-occ b ∙ occ_ne b obj rest d ∙ z);
  }
