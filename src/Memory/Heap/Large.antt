-- ===== src/Memory/Heap/Large.antt =====
-- `kmalloc` of more than SLAB_MAX_SIZE bytes takes pages.
use wey_os.Base.{
  ℕ, zero, suc, ◌+◌, ◌-◌, ◌*◌, ◌/◌, ◌%◌, ◌^◌, ◌≤◌, ◌<◌, ◌≡◌, inl, inr, refl, ap, subst, sym, ◌∙◌,
  true, false, Option, none, some, List, [], ◌∷◌, ◌==◌, ltb, leb, arith, Bool-cases,
}
use wey_os.Base.Bits.{pow_two_suc, pow_two_pos, pow_two_mono}
use wey_os.Memory.Page.{Zone, ulong_mod, max_order, page_alloc}
use wey_os.Memory.Page.Init.{page_size}
use wey_os.Memory.Page.Cover.{IsAligned}
use wey_os.Memory.Page.Blocks.{Block}
use wey_os.Memory.Page.Moves.{inside_self}
use wey_os.Memory.Page.Alloc.{Searched, Allocated, page_alloc-Searched, page_alloc_large}
use wey_os.Memory.Heap.{
  Heap, object_size, slab_max_size, bits, order_for_pages, pages_for, page_to_virt, kmalloc,
}
use wey_os.Memory.Heap.Order.{IsSlab, IsHeap, Live}
use wey_os.Memory.Heap.Grow.{slab_taken}

bits_zero : (fuel : ℕ) → bits fuel 0 ≡ 0
unfolding bits
bits_zero zero = refl
bits_zero (suc fuel) = refl

bits_lem : (fuel n : ℕ) → n < 2 ^ fuel → (n < 2 ^ bits fuel n) × (0 < n → 2 ^ bits fuel n ≤ 2 * n)
unfolding bits
bits_lem zero n l = (l, λ p. absurd (omega arith))
bits_lem (suc fuel) n l = elim (Bool-cases (n == 0)) [
  | inl e ↦ rw e (ground arith, λ p. absurd (ground arith))
  | inr e ↦
      let (u, d) = bits_lem fuel (n / 2) (let s = pow_two_suc fuel in omega arith) in
      let s = pow_two_suc (bits fuel (n / 2)) in
      rw e (
        omega arith,
        λ p. elim (Bool-cases (n / 2 == 0)) [
          | inl f ↦
              let g : n / 2 ≡ 0 = ground arith in
              let z = ap (λ x. 2 ^ bits fuel x) g ∙ ap (λ x. 2 ^ x) (bits_zero fuel) in omega arith
          | inr f ↦ let v = d (ground arith) in omega arith
        ],
      )
]

-- The order is the least with as many pages.
order_for_pages_lem :
    (pages : ℕ)
    → pages < 2 ^ 64
    → (pages ≤ 2 ^ order_for_pages pages) × (1 < pages → 2 ^ order_for_pages pages < 2 * pages)
unfolding order_for_pages
order_for_pages_lem pages l = elim (Bool-cases (leb pages 1)) [
  | inl e ↦ rw e (ground arith, λ p. absurd (ground arith))
  | inr e ↦
      let (u, d) = bits_lem 64 (pages - 1) (omega arith) in
      rw e (ground arith, λ p. let v = d (omega arith) in omega arith)
]

order_for_pages_small : (pages : ℕ) → leb pages 1 ≡ true → order_for_pages pages ≡ 0
unfolding order_for_pages
order_for_pages_small pages e = rw e refl

-- What `kmalloc` has done that returned the block of the order `k` on the page `p`.
pub record Paged (h : Heap) (held : List Block) (size k p : ℕ) (h' : Heap) : Type 0 where
  pub heap : IsHeap h' ((k, p) ∷ held)
  pub aligned : IsAligned k p
  pub room : size ≤ 2 ^ k * page_size
  pub least : (j : ℕ) → size ≤ 2 ^ j * page_size → k ≤ j
  pub others : (b n : ℕ) → Live h b n → Live h' b n
  pub no_others : (b n : ℕ) → Live h' b n → Live h b n

abbrev pub PageAnswer : Heap → List Block → ℕ → Option ℕ × Heap → Type 0
PageAnswer h held size (none, h') =
    (h' ≡ h) × ((k : ℕ) → size ≤ 2 ^ k * page_size → k < max_order → h.zone.free_list k ≡ [])
PageAnswer h held size (some a, h') =
    (k : ℕ) × (p : ℕ) × (a ≡ p * page_size) × Paged h held size k p h'

-- The page allocator hands a block out, and the slabs stay.
zone-IsHeap :
    (h : Heap) (held : List Block) (k p : ℕ) (z : Zone)
    → IsHeap h held
    → Allocated h.zone held k 8 p z
    → IsHeap (record h { zone = z }) ((k, p) ∷ held)
zone-IsHeap h held k p z heap got = record {
  zone = got.zone;
  bounded = λ a c. heap.bounded a (let t = got.taken a in omega arith);
  caches = heap.caches;
  slab = λ i s l.
      subst (λ x. IsSlab (object_size i) s (h.slab s) (h.private s) x)
        (sym (got.others s (slab_taken h held heap i s l))) (heap.slab i s l);
  owned = λ i s l. inr (heap.owned i s l);
  single = heap.single;
  unique = heap.unique;
}

pub zone-Live : (h : Heap) (z : Zone) (b n : ℕ) → Live h b n → Live (record h { zone = z }) b n
zone-Live h z b n x = record {
  cache = x.cache;
  place = x.place;
  listed = x.listed;
  slot = x.slot;
  used = x.used;
  sized = x.sized;
}

pub Live-zone : (h : Heap) (z : Zone) (b n : ℕ) → Live (record h { zone = z }) b n → Live h b n
Live-zone h z b n x = record {
  cache = x.cache;
  place = x.place;
  listed = x.listed;
  slot = x.slot;
  used = x.used;
  sized = x.sized;
}

module _ (h : Heap) (held : List Block) (size : ℕ) (heap : IsHeap h held) where
  answer :
      (k : ℕ)
      → k < max_order
      → size ≤ 2 ^ k * page_size
      → ((j : ℕ) → size ≤ 2 ^ j * page_size → k ≤ j)
      → (r : Option ℕ × Zone) → Searched (max_order - k) 0 k 8 h.zone held r
      → PageAnswer h held size (page_to_virt r.0, record h { zone = r.1 })
  answer k l room least (none, z) (same, empty) = (
    ap (λ x. record h { zone = x }) same,
    λ j s m. empty j (let v = least j s in omega arith) (omega arith),
  )
  answer k l room least (some p, z) got =
      let b = heap.bounded p (let t = got.taken p in let e = inside_self k p in omega arith) in
      (
        k,
        p,
        omega arith,
        record {
          heap = zone-IsHeap h held k p z heap got;
          aligned = got.zone.held_blocks.0.aligned;
          room = room;
          least = least;
          others = zone-Live h z;
          no_others = Live-zone h z;
        },
      )

  -- The pages that are asked for hold the size, and half as many would not.
  pages_for_lem :
      slab_max_size < size
      → size + page_size ≤ ulong_mod
      → (size ≤ 2 ^ order_for_pages (pages_for size) * page_size)
        × ((j : ℕ) → size ≤ 2 ^ j * page_size → order_for_pages (pages_for size) ≤ j)
  unfolding pages_for
  pages_for_lem l u =
      let pages = (size + (page_size - 1)) % ulong_mod / page_size in
      let (a, b) = order_for_pages_lem pages (omega arith) in
      (
        omega arith,
        λ j s. elim (Bool-cases (leb (order_for_pages pages) j)) [
          | inl e ↦ ground arith
          | inr e ↦
              let m = pow_two_mono (suc j) (order_for_pages pages) (ground arith) in
              let t = pow_two_suc j in
              let q = pow_two_pos j in
              absurd (elim (Bool-cases (leb pages 1)) [
                | inl f ↦ let o = order_for_pages_small pages f in ground arith
                | inr f ↦ let c = b (ground arith) in omega arith
              ])
        ],
      )

-- `kmalloc` of more than SLAB_MAX_SIZE bytes, and at most 2^32 − 4096, on a heap in order: it returns
-- NULL, and changes nothing, only when no list of blocks with room for the size holds one. Otherwise
-- it returns the address of an aligned block of the least order with room for the size, which is held
-- from now on; the heap is in order again, and the objects in use are the same.
pub kmalloc-PageAnswer :
    (h : Heap) (held : List Block) (size : ℕ)
    → IsHeap h held
    → slab_max_size < size
    → size + page_size ≤ ulong_mod
    → PageAnswer h held size (kmalloc size h)
unfolding kmalloc
kmalloc-PageAnswer h held size heap l u =
    let (room, least) = pages_for_lem h held size heap l u in
    let k = order_for_pages (pages_for size) in
    let z : (size == 0) ≡ false = ground arith in
    let t : ltb slab_max_size size ≡ true = ground arith in
    elim (Bool-cases (ltb k max_order)) [
      | inl e ↦
          rw (z, t)
            (answer h held size heap k (ground arith) room least (page_alloc k 8 h.zone)
              (page_alloc-Searched k 8 h.zone held (ground arith) (omega arith) heap.zone))
      | inr e ↦
          rw (z, t, page_alloc_large k 8 h.zone (ground arith))
            (refl, λ j s m. absurd (let v = least j s in ground arith))
    ]
