-- ===== src/Memory/Page/Tests.antt =====
-- One free block of eight pages, from page 8 on.
use wey_os.Base.{ℕ, ◌≡◌, inl, refl, some, [], ◌∷◌, arith, ok, err, einval}
use wey_os.Memory.Page.{
  Page, Zone, put, remove, take_out, split, hand_out, alloc_from, page_alloc, is_upper, buddy_of,
  lower_of, can_merge, detach, merge, mark_free, release, page_free,
}
use wey_os.Memory.Page.Blocks.{IsZone, HasHand}
use wey_os.Memory.Page.Hands.{put-IsZone}
use wey_os.Memory.Page.Alloc.{Searched, Allocated, page_alloc-Searched}
use wey_os.Memory.Page.Free.{Freed, page_free-Freed, page_free-refused}
use wey_os.Memory.Memblock.{Memblock}
use wey_os.Memory.Page.Init.{page_init}
use wey_os.Memory.Page.Init.Regions.{IsInitial, page_init-IsInitial}
use wey_os.Memory.Page.Runs.{State, allocates, here, next, IsKept, Reach-IsKept}

abbrev empty : Zone
empty = record {
  page = λ p. record { order = 0; flags = 0; refcount = 0 };
  free_list = λ k. [];
  nr_free = λ k. 0;
  free_pages = 0;
  reserved_pages = 0;
}

abbrev zone : Zone
zone = put 3 8 empty

-- What is left of the block after a block of two pages has been handed out.
abbrev after : Zone
after = (page_alloc 1 8 zone).1

alloc_test : (page_alloc 1 8 zone).0 ≡ some 8
unfolding page_alloc alloc_from put
alloc_test = refl

lists_test :
    (after.free_list 1 ≡ 10 ∷ []) × (after.free_list 2 ≡ 12 ∷ []) × (after.free_list 3 ≡ [])
unfolding page_alloc alloc_from put split hand_out take_out remove
lists_test = (refl, refl, refl)

free_test : (page_free 100 8 after).1.free_list 3 ≡ 8 ∷ []
unfolding page_alloc alloc_from put split hand_out take_out remove page_free release merge mark_free
    detach can_merge buddy_of lower_of is_upper
free_test = refl

empty_hand : HasHand empty [] 3 8
empty_hand = record {
  free_blocks = λ j p l i. absurd i;
  held_blocks = tt;
  hand_small = omega arith;
  hand_aligned = (1, omega arith);
  disjoint = λ a. ground arith;
  listed = λ q n m. absurd (ground arith);
}

zone-IsZone : IsZone zone []
zone-IsZone = put-IsZone empty [] 3 8 empty_hand

page_alloc-Searched_example : Searched 10 0 1 8 zone [] (page_alloc 1 8 zone)
page_alloc-Searched_example =
    page_alloc-Searched 1 8 zone [] (omega arith) (omega arith) zone-IsZone

after-Allocated : Allocated zone [] 1 8 8 after
unfolding page_alloc alloc_from put
after-Allocated = page_alloc-Searched 1 8 zone [] (omega arith) (omega arith) zone-IsZone

abbrev start : State
start = record { zone = zone; held = [] }

abbrev held_two : State
held_two = record { zone = after; held = (1, 8) ∷ [] }

handed : page_alloc 1 8 zone ≡ (some 8, after)
unfolding page_alloc alloc_from put
handed = refl

Reach-IsKept_example : IsKept start held_two
Reach-IsKept_example =
    Reach-IsKept 100 start held_two zone-IsZone
      (next here (allocates 1 8 8 (omega arith) (omega arith) handed refl))

after-IsZone : IsZone after ((1, 8) ∷ [])
after-IsZone = after-Allocated.zone

-- 64 KiB of memory from 4 KiB on, of which memblock has reserved the page at 16 KiB.
abbrev small_memory : Memblock
small_memory = record {
  memory = record { regions = record { base = 4096; size = 65536 } ∷ []; totalmem = 65536 };
  reserved = record { regions = record { base = 16384; size = 4096 } ∷ []; totalmem = 4096 };
}

abbrev no_pages : ℕ → Page
no_pages p = record { order = 0; flags = 0; refcount = 0 }

page_init-IsInitial_example :
    IsInitial small_memory 100 no_pages (page_init small_memory 100 no_pages)
page_init-IsInitial_example =
    page_init-IsInitial small_memory 100 no_pages
      (omega arith, record { pos = omega arith; bound = omega arith }, tt) (omega arith) (λ a. refl)

page_free-Freed_example :
    (z' : Zone) × (page_free 100 8 after ≡ (ok tt, z')) × Freed after [] 1 8 z'
unfolding page_alloc alloc_from put split hand_out take_out
page_free-Freed_example = page_free-Freed 100 1 8 after [] after-IsZone refl (omega arith)

page_free-refused_example : page_free 100 8 zone ≡ (err einval, zone)
unfolding put
page_free-refused_example =
    page_free-refused 100 8 zone [] zone-IsZone (inl (3, omega arith, inl refl))
