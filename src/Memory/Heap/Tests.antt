-- ===== src/Memory/Heap/Tests.antt =====
-- A heap over one free block of eight pages, from page 8 on.
use wey_os.Base.{ℕ, ◌≤◌, ◌≡◌, refl, ap, ◌*◌, none, some, List, [], ◌∷◌, All, arith}
use wey_os.Memory.Page.{Zone, put, split, hand_out, take_out, alloc_from, page_alloc}
use wey_os.Memory.Page.Blocks.{Block, HasHand}
use wey_os.Memory.Page.Hands.{put-IsZone}
use wey_os.Memory.Page.Moves.{cover-cons}
use wey_os.Memory.Heap.{
  Heap, get_cache_index, index_from, thread, new_slab, create_on, slab_create, first_free,
  take_object, take_new, alloc_from_cache, slab_alloc, slab_free, put_object, give_object, kmalloc,
  kfree, pages_for, order_for_pages, bits,
}
use wey_os.Memory.Heap.Order.{IsHeap}
use wey_os.Memory.Heap.Uses.{
  Calls, stop, call, gets, gets_pages, frees, there, here, Apart, Calls-Apart,
}
use wey_os.Memory.Heap.Take.{Given}
use wey_os.Memory.Heap.Alloc.{Answered, slab_alloc-Answered}
use wey_os.Memory.Heap.Large.{Paged, PageAnswer, kmalloc-PageAnswer}
use wey_os.Memory.Page.Init.{page_size}
use wey_os.Base.Bits.{pow_two_mono}
use wey_os.Memory.Heap.Release.{Unpaged, kfree-Unpaged}
use wey_os.Memory.Heap.Free.{Returned, slab_free-Returned}

abbrev empty : Zone
empty = record {
  page = λ p. record { order = 0; flags = 0; refcount = 0 };
  free_list = λ k. [];
  nr_free = λ k. 0;
  free_pages = 0;
  reserved_pages = 0;
}

empty_hand : HasHand empty [] 3 8
empty_hand = record {
  free_blocks = λ j p l i. absurd i;
  held_blocks = tt;
  hand_small = omega arith;
  hand_aligned = (1, omega arith);
  disjoint = λ a. ground arith;
  listed = λ q n m. absurd (ground arith);
}

abbrev heap : Heap
heap = record {
  zone = put 3 8 empty;
  private = λ p. none;
  slab = λ p. record { page = 0; start = 0; free_list = []; free_count = 0; total_objects = 0 };
  slabs = λ i. [];
}

heap-IsHeap : IsHeap heap []
unfolding put
heap-IsHeap = record {
  zone = put-IsZone empty [] 3 8 empty_hand;
  bounded = λ a c. let e = cover-cons 0 empty.free_list 3 8 a (omega arith) in ground arith;
  caches = λ i s l. absurd (omega arith);
  slab = λ i s l. absurd (omega arith);
  owned = λ i s l. absurd (omega arith);
  single = λ i s. omega arith;
  unique = λ i j s l m. absurd (omega arith);
}

-- The heap behind an allocation of 20 bytes.
abbrev after : Heap
after = (slab_alloc 20 heap).1

alloc_test : (slab_alloc 20 heap).0 ≡ some 36828
unfolding slab_alloc get_cache_index index_from alloc_from_cache first_free slab_create create_on
    page_alloc alloc_from take_new take_object new_slab thread put
alloc_test = refl

slab_alloc-Answered_example : Answered heap [] 20 (slab_alloc 20 heap)
slab_alloc-Answered_example = slab_alloc-Answered heap [] 20 heap-IsHeap (omega arith) (omega arith)

after-Given : (blocks : List Block) × Given heap [] 20 36828 after blocks
unfolding slab_alloc get_cache_index index_from alloc_from_cache first_free slab_create create_on
    page_alloc alloc_from take_new take_object new_slab thread put
after-Given = slab_alloc-Answered heap [] 20 heap-IsHeap (omega arith) (omega arith)

-- The heap behind two allocations of 20 bytes, and the second object.
abbrev later : Heap
later = (slab_alloc 20 after).1

later-Given : (blocks : List Block) × Given after after-Given.0 20 36796 later blocks
unfolding slab_alloc get_cache_index index_from alloc_from_cache first_free slab_create create_on
    page_alloc alloc_from take_new take_object new_slab thread put
later-Given =
    slab_alloc-Answered after after-Given.0 20 after-Given.1.heap (omega arith) (omega arith)

-- Two allocations of 20 bytes, one of two pages, the return of the first object, and another of 20
-- bytes, which gets its place.
abbrev crowded : Heap
crowded = (kmalloc 5000 later).1

abbrev left : Heap
left = elim (kfree 100 36828 crowded) [ some h ↦ h | none ↦ crowded ]

abbrev again : Heap
again = (kmalloc 20 left).1

calls : Calls 100 heap [] again ((36828, 20) ∷ (36796, 20) ∷ [])
unfolding kmalloc kfree slab_free give_object put_object slab_alloc get_cache_index index_from
    alloc_from_cache first_free slab_create create_on page_alloc alloc_from take_new take_object
    new_slab thread put pages_for order_for_pages bits split hand_out take_out
calls = call (gets heap after [] 20 36828 (omega arith) (omega arith) refl) (
    call (gets after later ((36828, 20) ∷ []) 20 36796 (omega arith) (omega arith) refl) (
      call
        (gets_pages later crowded ((36796, 20) ∷ (36828, 20) ∷ []) 5000 (some 40960) (omega arith)
          (omega arith) refl)
        (call
          (frees crowded left ((36796, 20) ∷ (36828, 20) ∷ []) ((36796, 20) ∷ []) 36828 20
            (there here) refl)
          (call (gets left again ((36796, 20) ∷ []) 20 36828 (omega arith) (omega arith) refl)
            stop))))

Calls-Apart_example :
    Apart ((36828, 20) ∷ (36796, 20) ∷ [])
    × All
        (λ (o : ℕ × ℕ). (h : Heap) × (kfree 100 o.0 again ≡ some h))
        ((36828, 20) ∷ (36796, 20) ∷ [])
Calls-Apart_example =
    Calls-Apart 100 heap again [] ((36828, 20) ∷ (36796, 20) ∷ []) heap-IsHeap calls

slab_free-Returned_example :
    (h' : Heap) × (slab_free 100 36828 after ≡ some h')
    × ((blocks : List Block) × Returned after after-Given.0 36828 h' blocks)
slab_free-Returned_example =
    slab_free-Returned 100 after after-Given.0 36828 after-Given.1.room after-Given.1.heap
      after-Given.1.live

-- 5000 bytes need two pages.
kmalloc_test : (kmalloc 5000 heap).0 ≡ some 32768
unfolding kmalloc pages_for order_for_pages bits page_alloc alloc_from put
kmalloc_test = refl

kmalloc-PageAnswer_example : PageAnswer heap [] 5000 (kmalloc 5000 heap)
kmalloc-PageAnswer_example = kmalloc-PageAnswer heap [] 5000 heap-IsHeap (omega arith) (omega arith)

-- A size behind which no page boundary fits a word gets one page.
overflow_test : (kmalloc 4294967295 heap).0 ≡ some 32768
unfolding kmalloc pages_for order_for_pages bits page_alloc alloc_from put
overflow_test = refl

-- The heap behind an allocation of two pages.
abbrev paged : Heap
paged = (kmalloc 5000 heap).1

paged-Paged : (k : ℕ) × (p : ℕ) × (32768 ≡ p * page_size) × Paged heap [] 5000 k p paged
unfolding kmalloc pages_for order_for_pages bits page_alloc alloc_from put
paged-Paged = kmalloc-PageAnswer heap [] 5000 heap-IsHeap (omega arith) (omega arith)

paged_order : paged-Paged.0 ≤ 1
paged_order = paged-Paged.3.least 1 (omega arith)

paged_page : paged-Paged.1 ≡ 8
paged_page = let e = paged-Paged.2 in omega arith

kfree-Unpaged_example :
    (h' : Heap) × (kfree 100 (paged-Paged.1 * page_size) paged ≡ some h')
    × Unpaged paged [] paged-Paged.0 paged-Paged.1 h'
unfolding kmalloc pages_for order_for_pages bits page_alloc alloc_from put split hand_out take_out
kfree-Unpaged_example =
    kfree-Unpaged 100 paged [] paged-Paged.0 paged-Paged.1 paged-Paged.3.heap
      (ap (λ q. (paged.zone.page q).flags) paged_page)
      (ap (λ q. (paged.zone.page q).refcount) paged_page)
      (let o = paged_order in
        let q = paged_page in let m = pow_two_mono paged-Paged.0 1 o in omega arith)
