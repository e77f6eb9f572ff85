-- ===== src/Memory/Heap/Release.antt =====
-- `kfree`, of objects and of blocks of pages.
use wey_os.Base.{
  ℕ, ◌+◌, ◌*◌, ◌/◌, ◌^◌, ◌≤◌, ◌<◌, ◌≡◌, ◌≢◌, inl, inr, refl, ap, subst, sym, false, some, List, ◌∷◌,
  ltb, arith, Bool-cases,
}
use wey_os.Memory.Page.{Zone}
use wey_os.Memory.Page.Init.{page_size}
use wey_os.Memory.Page.Cover.{inside}
use wey_os.Memory.Page.Blocks.{Block}
use wey_os.Memory.Page.Moves.{inside_self}
use wey_os.Memory.Page.Grow.{weight_zero}
use wey_os.Memory.Page.Free.{Freed, page_free-Freed}
use wey_os.Memory.Heap.{Heap, object_size, is_slab, kfree}
use wey_os.Memory.Heap.Slots.{occ}
use wey_os.Memory.Heap.Order.{Holds, Holds-cover, IsSlab, IsHeap, Live}
use wey_os.Memory.Heap.Grow.{slab_taken}
use wey_os.Memory.Heap.Large.{zone-Live, Live-zone}

-- What the return of the block of the order `k` on the page `p` has done.
pub record Unpaged (h : Heap) (held : List Block) (k p : ℕ) (h' : Heap) : Type 0 where
  pub heap : IsHeap h' held
  -- Exactly the pages of the block become free.
  pub freed : Freed h.zone held k p h'.zone
  pub same_slabs : h' ≡ record h { zone = h'.zone }
  pub others : (b n : ℕ) → Live h b n → Live h' b n
  pub no_others : (b n : ℕ) → Live h' b n → Live h b n

module _ (max_pfn : ℕ) (h : Heap) (held : List Block) (k p : ℕ) (heap : IsHeap h ((k, p) ∷ held))
    (kind : (h.zone.page p).flags ≡ 8) (references : (h.zone.page p).refcount ≡ 1)
    (low : p + 2 ^ k ≤ 2 ^ 20) where
  -- The block is not the page of a slab.
  slab_ne : (i s : ℕ) → 0 < occ s (h.slabs i) → s ≢ p
  slab_ne i s l e =
      let f = (heap.slab i s l).kind in
      let g = ap (λ x. (h.zone.page x).flags) e in absurd (omega arith)

  owned_left : (i s : ℕ) → 0 < occ s (h.slabs i) → Holds held (0, s)
  owned_left i s l = elim (heap.owned i s l) [
    | inl e ↦ absurd (slab_ne i s l (ap (λ b. b.1) e))
    | inr m ↦ m
  ]

  outside : (i s : ℕ) → 0 < occ s (h.slabs i) → inside k p s ≡ 0
  outside i s l =
      let c = Holds-cover held 0 s s (owned_left i s l) in
      let d = heap.zone.disjoint s in
      let e = inside_self 0 s in let w = weight_zero k p s in omega arith

  freed-IsHeap : (z : Zone) → Freed h.zone held k p z → IsHeap (record h { zone = z }) held
  freed-IsHeap z freed = record {
    zone = freed.zone;
    bounded = λ a c. elim (Bool-cases (ltb a (p + 2 ^ k))) [
      | inl e ↦ ground arith
      | inr e ↦ heap.bounded a (let g = freed.given a in ground arith)
    ];
    caches = heap.caches;
    slab = λ i s l.
        subst (λ x. IsSlab (object_size i) s (h.slab s) (h.private s) x)
          (sym (freed.others s (slab_taken h ((k, p) ∷ held) heap i s l) (outside i s l)))
          (heap.slab i s l);
    owned = owned_left;
    single = heap.single;
    unique = heap.unique;
  }

-- `kfree` of the address of a block that is held, whose first page has the flags and the one
-- reference that `kmalloc` gives it, and that ends within the first 2^20 pages, on a heap in order:
-- exactly the pages of the block become free, other pages that were not free keep their fields, the
-- slabs and the objects in use are the same, and the heap is in order again without the block.
pub kfree-Unpaged :
    (max_pfn : ℕ) (h : Heap) (held : List Block) (k p : ℕ)
    → IsHeap h ((k, p) ∷ held)
    → (h.zone.page p).flags ≡ 8
    → (h.zone.page p).refcount ≡ 1
    → p + 2 ^ k ≤ 2 ^ 20
    → (h' : Heap) × (kfree max_pfn (p * page_size) h ≡ some h') × Unpaged h held k p h'
unfolding kfree
kfree-Unpaged max_pfn h held k p heap kind references low =
    let (z, e, freed) =
      page_free-Freed max_pfn k p h.zone held heap.zone (ground arith) (omega arith) in
    let n : is_slab (h.zone.page p) ≡ false = ground arith in
    let q : p * page_size / page_size ≡ p = omega arith in
    (
      record h { zone = z },
      rw (q, n, e) refl,
      record {
        heap = freed-IsHeap max_pfn h held k p heap kind references low z freed;
        freed = freed;
        same_slabs = refl;
        others = zone-Live h z;
        no_others = Live-zone h z;
      },
    )
