-- ===== src/Memory/Heap/Alloc.antt =====
-- `slab_alloc`.
use wey_os.Base.{
  ℕ, zero, suc, ◌+◌, ◌≤◌, ◌<◌, ◌≡◌, inl, inr, refl, ap, ◌∙◌, false, Option, none, some, List, [],
  ◌∷◌, ◌==◌, ltb, leb, arith, Bool-cases, length,
}
use wey_os.Memory.Page.{Zone, update, page_alloc, max_order}
use wey_os.Memory.Page.Blocks.{Block}
use wey_os.Memory.Page.Moves.{update_self}
use wey_os.Memory.Page.Alloc.{Searched, Allocated, page_alloc-Searched}
use wey_os.Memory.Heap.{
  Slab, Heap, slab_sizes, size_in, object_size, slab_max_size, index_from, get_cache_index,
  new_slab, create_on, slab_create, first_free, take_object, take_new, alloc_from_cache, slab_alloc,
}
use wey_os.Memory.Heap.Slots.{occ}
use wey_os.Memory.Heap.Order.{IsHeap, object_size-bounds}
use wey_os.Memory.Heap.Take.{Given, take-Given}
use wey_os.Memory.Heap.Fresh.{new_slab_pos}
use wey_os.Memory.Heap.Grow.{slab, grown, grown-IsHeap, Live-grown, grown-Live, listed_new}

index_from_lem :
    (n : ℕ) (sizes : List ℕ) (size k : ℕ)
    → k < length sizes
    → size ≤ size_in sizes k
    → (i : ℕ) × (index_from n sizes size ≡ some (n + i))
      × (i < length sizes)
      × (size ≤ size_in sizes i)
unfolding index_from
index_from_lem n [] size k l s = absurd (omega arith)
index_from_lem n (x ∷ xs) size k l s = elim (Bool-cases (leb size x)) [
  | inl e ↦ (0, rw e (ap some (omega arith)), omega arith, ground arith)
  | inr e ↦
      let (i, f, m, t) = later (index_from_lem (suc n) xs size) k l s e in
      (suc i, rw e (f ∙ ap some (omega arith)), omega arith, t)
]
  where
    Found : Type 0
    Found =
        (i : ℕ) × (index_from (suc n) xs size ≡ some (suc n + i))
        × (i < length xs)
        × (size ≤ size_in xs i)

    later :
        ((k : ℕ) → k < length xs → size ≤ size_in xs k → Found)
        → (k : ℕ) → k < suc (length xs)
        → size ≤ size_in (x ∷ xs) k
        → leb size x ≡ false
        → Found
    later ih zero l s e = absurd (ground arith)
    later ih (suc k) l s e = ih k (omega arith) s

pub get_cache_index_lem :
    (size : ℕ)
    → size ≤ slab_max_size
    → (i : ℕ) × (get_cache_index size ≡ some i) × (i < 9) × (size ≤ object_size i)
unfolding get_cache_index
get_cache_index_lem size l =
    let (i, e, m, s) = index_from_lem 0 slab_sizes size 8 (omega arith) l in
    (i, e ∙ ap some (omega arith), m, s)

-- What `first_free` says of a list of slabs.
abbrev FirstFree : (ℕ → Slab) → List ℕ → Option ℕ → Type 0
FirstFree slab ss none = (s : ℕ) → 0 < occ s ss → (slab s).free_count ≡ 0
FirstFree slab ss (some s) = (0 < occ s ss) × (0 < (slab s).free_count)

first_free_lem : (slab : ℕ → Slab) (ss : List ℕ) → FirstFree slab ss (first_free slab ss)
unfolding first_free
first_free_lem slab [] = λ s l. absurd (omega arith)
first_free_lem slab (s ∷ ss) = elim (Bool-cases (ltb 0 (slab s).free_count)) [
  | inl e ↦ rw e (ground arith, ground arith)
  | inr e ↦ rw e (go (first_free slab ss) (first_free_lem slab ss) e)
]
  where
    go :
        (o : Option ℕ)
        → FirstFree slab ss o
        → ltb 0 (slab s).free_count ≡ false
        → FirstFree slab (s ∷ ss) o
    go none f e = λ t l. elim (Bool-cases (t == s)) [
      | inl g ↦ let t : t ≡ s = ground arith in ap (λ x. (slab x).free_count) t ∙ ground arith
      | inr g ↦ f t (ground arith)
    ]
    go (some t) (l, m) e = (omega arith, m)

-- What `slab_alloc` answers.
abbrev pub Answered : Heap → List Block → ℕ → Option ℕ × Heap → Type 0
Answered h held size (none, h') =
    (h' ≡ h)
    × ((k : ℕ) → k < max_order → h.zone.free_list k ≡ [])
    × ((i : ℕ) × (size ≤ object_size i)
        × ((s : ℕ) → 0 < occ s (h.slabs i) → (h.slab s).free_count ≡ 0))
Answered h held size (some a, h') = (blocks : List Block) × Given h held size a h' blocks

-- A slab with a free object gives one.
take_object_lem :
    (h : Heap) (held : List Block) (i s size : ℕ)
    → IsHeap h held
    → 0 < occ s (h.slabs i)
    → 0 < (h.slab s).free_count
    → size ≤ object_size i
    → (a : ℕ) × (h' : Heap) × (take_object s h ≡ (some a, h')) × Given h held size a h' held
unfolding take_object
take_object_lem h held i s size heap l f large = go (h.slab s).free_list refl
  where
    go :
        (free : List ℕ)
        → (h.slab s).free_list ≡ free
        → (a : ℕ) × (h' : Heap) × (take_object s h ≡ (some a, h')) × Given h held size a h' held
    go [] e =
        absurd (let c = (heap.slab i s l).count in let d = ap (λ x. length x) e in omega arith)
    go (o ∷ rest) e =
        (o, _, rw (e, take_object) refl, take-Given h held heap i s l o rest e size large)

module _ (h : Heap) (held : List Block) (size : ℕ) (heap : IsHeap h held) (i : ℕ) (small : i < 9)
    (large : size ≤ object_size i) where
  -- A new slab gives its first object.
  take_new-Answered :
      (p : ℕ) (z : Zone)
      → Allocated h.zone held 0 24 p z
      → Answered h held size (
          take_new i (
            some p,
            record h {
              zone = z;
              private = update h.private p (some p);
              slab = update h.slab p (new_slab (object_size i) p);
            },
          ))
  unfolding take_new
  take_new-Answered p z got =
      let h1 = grown h held heap i small p z got in
      let heap1 = grown-IsHeap h held heap i small p z got in
      let (a, h', e, g) =
        take_object_lem h1 ((0, p) ∷ held) i p size heap1 (listed_new h held heap i small p z got)
          (let b = object_size-bounds i small in
            let c = ap (λ x. x.free_count) (update_self h.slab p (new_slab (object_size i) p)) in
            let d = new_slab_pos (object_size i) p b.0 b.1 in omega arith)
          large in
      rw e (
        (0, p) ∷ held,
        record {
          heap = g.heap;
          held_on = λ b m. inr m;
          room = g.room;
          large = g.large;
          live = g.live;
          fresh = λ n x. g.fresh n (Live-grown h held heap i small p z got a n x);
          others = λ b n x. g.others b n (Live-grown h held heap i small p z got b n x);
          no_others = λ b n x d. grown-Live h held heap i small p z got b n (g.no_others b n x d);
        },
      )

  -- No slab has a free object, and a page is asked for.
  created-Answered :
      ((s : ℕ) → 0 < occ s (h.slabs i) → (h.slab s).free_count ≡ 0)
      → (r : Option ℕ × Zone) → Searched max_order 0 0 24 h.zone held r
      → Answered h held size (take_new i (create_on (object_size i) r h))
  unfolding take_new create_on
  created-Answered none_free (none, z) (same, empty) = (
    ap (λ x. record h { zone = x }) same,
    λ k l. empty k (omega arith) (omega arith),
    (i, large, none_free),
  )
  created-Answered none_free (some p, z) got = take_new-Answered p z got

  -- The cache `i` answers.
  alloc_from_cache-Answered : Answered h held size (alloc_from_cache i h)
  unfolding alloc_from_cache slab_create
  alloc_from_cache-Answered = go (first_free h.slab (h.slabs i)) (first_free_lem h.slab (h.slabs i))
    where
      go :
          (o : Option ℕ)
          → FirstFree h.slab (h.slabs i) o
          → Answered h held size (elim o [
            | none ↦ take_new i (slab_create (object_size i) h)
            | some s ↦ take_object s h
          ])
      go none f =
          created-Answered f (page_alloc 0 24 h.zone)
            (page_alloc-Searched 0 24 h.zone held (omega arith) (omega arith) heap.zone)
      go (some s) (l, f) =
          let (a, h', e, g) = take_object_lem h held i s size heap l f large in rw e (held, g)

-- `slab_alloc` of a positive size of at most SLAB_MAX_SIZE, on a heap in order: it returns NULL, and
-- changes nothing, only when no slab of the cache has a free object and no page is free. Otherwise
-- the heap is in order again, the blocks that were held still are, and of all objects exactly the
-- one returned, which has room for the size, was not in use before and is in use now.
pub slab_alloc-Answered :
    (h : Heap) (held : List Block) (size : ℕ)
    → IsHeap h held
    → 0 < size
    → size ≤ slab_max_size
    → Answered h held size (slab_alloc size h)
unfolding slab_alloc
slab_alloc-Answered h held size heap p l =
    let (i, e, m, s) = get_cache_index_lem size l in
    let z : (size == 0) ≡ false = ground arith in
    rw (z, e) (alloc_from_cache-Answered h held size heap i m s)
