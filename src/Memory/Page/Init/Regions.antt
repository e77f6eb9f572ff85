-- ===== src/Memory/Page/Init/Regions.antt =====
-- The loop of `page_init` over the regions of memblock, and the whole call.
use wey_os.Base.{
  ℕ, ◌+◌, ◌-◌, ◌*◌, ◌/◌, ◌≤◌, ◌<◌, ◌≡◌, ◌⊎◌, inl, inr, refl, false, List, [], ◌∷◌, ltb, leb,
  if◌then◌else◌, arith, Bool-cases,
}
use wey_os.Memory.Memblock.{Region, Memblock}
use wey_os.Memory.Memblock.Order.{Fits, Table}
use wey_os.Memory.Page.{Page, Zone, ulong_mod, is_buddy}
use wey_os.Memory.Page.Cover.{cover}
use wey_os.Memory.Page.Blocks.{IsZone}
use wey_os.Memory.Page.Init.{
  page_size, pfn_is_reserved, init_pfns, start_pfn, end_pfn, init_regions, page_init,
}
use wey_os.Memory.Page.Init.Sound.{IsSound, reserved_at, init_pfns-IsSound}
use wey_os.Memory.Page.Init.Complete.{init_pfns-Filled}

-- A page that lies whole in one of the regions, below `max_pfn`.
abbrev pub IsManaged : ℕ → List Region → ℕ → Type 0
IsManaged max_pfn [] a = ⊥
IsManaged max_pfn (r ∷ rs) a =
    ((r.base ≤ a * page_size) × (a * page_size + page_size ≤ r.base + r.size) × (a < max_pfn))
    ⊎ IsManaged max_pfn rs a

-- What the pages before and behind the first `lo` bytes are like, after the regions so far.
record IsReady (m : Memblock) (z0 : Zone) (lo : ℕ) (z : Zone) : Type 0 where
  sound : IsSound m z
  below : (a : ℕ) → lo ≤ a * page_size + (page_size - 1) → cover 0 z.free_list a ≡ 0
  fresh : (a : ℕ) → lo ≤ a * page_size + (page_size - 1) → z.page a ≡ z0.page a

record IsDone (m : Memblock) (z0 : Zone) (max_pfn : ℕ) (rs : List Region) (z z' : Zone)
    : Type 0 where
  sound : IsSound m z'
  grows : (a : ℕ) → cover 0 z.free_list a ≤ cover 0 z'.free_list a
  complete :
      (a : ℕ) → IsManaged max_pfn rs a → pfn_is_reserved m z0 a ≡ false → 0 < cover 0 z'.free_list a

start_pfn-Fits : (r : Region) → Fits r → start_pfn r ≡ (r.base + 4095) / 4096
unfolding start_pfn
start_pfn-Fits r f = let b = f.bound in let p = f.pos in ground arith

end_pfn-Fits : (r : Region) → Fits r → end_pfn r ≡ (r.base + r.size) / 4096
unfolding end_pfn
end_pfn-Fits r f = let b = f.bound in let p = f.pos in ground arith

-- One region that the loop is not done with at once.
record IsRound (m : Memblock) (z0 : Zone) (max_pfn : ℕ) (r : Region) (z z' : Zone) : Type 0 where
  ready : IsReady m z0 (r.base + r.size + 1) z'
  grows : (a : ℕ) → cover 0 z.free_list a ≤ cover 0 z'.free_list a
  complete :
      (a : ℕ)
      → r.base ≤ a * page_size
      → a * page_size + page_size ≤ r.base + r.size
      → a < max_pfn
      → pfn_is_reserved m z0 a ≡ false
      → 0 < cover 0 z'.free_list a

module _ (m : Memblock) (z0 : Zone) (max_pfn lo : ℕ) (mapped : max_pfn + 1024 < ulong_mod)
    (r : Region) (fits : Fits r) (above : lo ≤ r.base) (z : Zone) (ready : IsReady m z0 lo z) where
  -- No page of the region is below `max_pfn`, or the region holds no whole page.
  nothing-IsRound :
      ((a : ℕ)
        → r.base ≤ a * page_size
        → a * page_size + page_size ≤ r.base + r.size
        → a < max_pfn
        → ⊥)
      → IsRound m z0 max_pfn r z z
  nothing-IsRound n = record {
    ready = record {
      sound = ready.sound;
      below = λ a l. ready.below a (omega arith);
      fresh = λ a l. ready.fresh a (omega arith);
    };
    grows = λ a. omega arith;
    complete = λ a b c d e. absurd (n a b c d);
  }

  filled-IsRound :
      (start end : ℕ)
      → start ≡ (r.base + 4095) / 4096
      → end ≤ max_pfn
      → end ≤ (r.base + r.size) / 4096
      → start ≤ end
      → ((a : ℕ) → a * page_size + page_size ≤ r.base + r.size → a < max_pfn → a < end)
      → IsRound m z0 max_pfn r z (init_pfns (end - start) m end start z)
  filled-IsRound start end s e f l u =
      let (sound, below) =
        init_pfns-IsSound (end - start) m end start z (omega arith) l (omega arith) ready.sound
          (λ a c. ready.below a (omega arith)) in
      let filled =
        init_pfns-Filled (end - start) m z0 end start z (omega arith) l (omega arith)
          (λ a c. ready.fresh a (omega arith)) in
      record {
        ready = record {
          sound = sound;
          below = λ a c. below a (omega arith);
          fresh = λ a c. filled.fresh a (omega arith);
        };
        grows = filled.grows;
        complete = λ a b c d g. filled.complete a (omega arith) (u a c d) g;
      }

  stays : (end start : ℕ) → init_pfns 0 m end start z ≡ z
  unfolding init_pfns
  stays end start = refl

  -- One round of the loop over the regions.
  round : Zone
  round =
      let end = if ltb max_pfn (end_pfn r) then max_pfn else end_pfn r in
      if leb max_pfn (start_pfn r) then z else init_pfns (end - start_pfn r) m end (start_pfn r) z

  round-IsRound : IsRound m z0 max_pfn r z round
  unfolding round
  round-IsRound =
      let s = start_pfn-Fits r fits in
      let t = end_pfn-Fits r fits in
      elim (Bool-cases (leb max_pfn (start_pfn r))) [
        | inl x ↦ rw x (nothing-IsRound (λ a b c d. ground arith))
        | inr x ↦ rw x (
            ended (start_pfn r) (if ltb max_pfn (end_pfn r) then max_pfn else end_pfn r) s
              (ground arith) (ground arith) (λ a b c. ground arith))
      ]
    where
      ended :
          (start end : ℕ)
          → start ≡ (r.base + 4095) / 4096
          → end ≤ max_pfn
          → end ≤ (r.base + r.size) / 4096
          → ((a : ℕ) → a * page_size + page_size ≤ r.base + r.size → a < max_pfn → a < end)
          → IsRound m z0 max_pfn r z (init_pfns (end - start) m end start z)
      ended start end s e f u = elim (Bool-cases (leb start end)) [
        | inl x ↦ filled-IsRound start end s e f (ground arith) u
        | inr x ↦
            let d : end - start ≡ 0 = ground arith in
            rw (d, stays end start) (nothing-IsRound (λ a b c g. let h = u a c g in ground arith))
      ]

init_regions-IsDone :
    (m : Memblock) (z0 : Zone) (max_pfn lo : ℕ) (rs : List Region) (z : Zone)
    → max_pfn + 1024 < ulong_mod
    → Table lo rs
    → IsReady m z0 lo z
    → IsDone m z0 max_pfn rs z (init_regions m max_pfn rs z)
unfolding init_regions round
init_regions-IsDone m z0 max_pfn lo [] z l t y = record {
  sound = y.sound;
  grows = λ a. omega arith;
  complete = λ a i. absurd i;
}
init_regions-IsDone m z0 max_pfn lo (r ∷ rs) z l t y =
    let now = round-IsRound m z0 max_pfn lo l r t.1 t.0 z y in
    let later =
      init_regions-IsDone m z0 max_pfn (r.base + r.size + 1) rs
        (round m z0 max_pfn lo l r t.1 t.0 z y) l t.2 now.ready in
    record {
      sound = later.sound;
      grows = λ a. let g = now.grows a in let h = later.grows a in omega arith;
      complete = λ a i f. elim i [
        | inl w ↦ let g = later.grows a in let h = now.complete a w.0 w.1 w.2 f in omega arith
        | inr w ↦ later.complete a w f
      ];
    }

-- The zone before the call.
abbrev pub zone_of : (ℕ → Page) → Zone
zone_of pages = record {
  page = pages;
  free_list = λ k. [];
  nr_free = λ k. 0;
  free_pages = 0;
  reserved_pages = 0;
}

-- What a zone with no free block satisfies.
zone_of-IsReady :
    (m : Memblock) (pages : ℕ → Page)
    → ((a : ℕ) → is_buddy (pages a) ≡ false)
    → IsReady m (zone_of pages) 0 (zone_of pages)
zone_of-IsReady m pages u = record {
  sound = record {
    zone = record {
      free_blocks = λ k p l i. absurd i;
      held_blocks = tt;
      disjoint = λ a. omega arith;
      listed = λ q b. absurd (let v = u q in ground arith);
    };
    unreserved = λ a c. absurd (omega arith);
  };
  below = λ a l. refl;
  fresh = λ a l. refl;
}

-- What `page_init` makes of the pages.
pub record IsInitial (m : Memblock) (max_pfn : ℕ) (pages : ℕ → Page) (z : Zone) : Type 0 where
  pub zone : IsZone z []
  pub free_unreserved : (a : ℕ) → 0 < cover 0 z.free_list a → reserved_at m a ≡ false
  pub unreserved_free :
      (a : ℕ)
      → IsManaged max_pfn m.memory.regions a
      → pfn_is_reserved m (zone_of pages) a ≡ false
      → cover 0 z.free_list a ≡ 1

-- For regions of memory that `memblock_merge` left ascending and separated, at most 2^32 − 1025
-- mapped page frames, and pages none of which is marked PG_BUDDY: behind `page_init` the buddy lists
-- are in order, with aligned free blocks that do not overlap; no page of a free block is one that
-- memblock has reserved; and every page that lies whole in a region below `max_pfn_mapped` and that
-- `pfn_is_reserved` does not hold of lies in exactly one free block.
pub page_init-IsInitial :
    (m : Memblock) (max_pfn : ℕ) (pages : ℕ → Page)
    → Table 0 m.memory.regions
    → max_pfn + 1024 < ulong_mod
    → ((a : ℕ) → is_buddy (pages a) ≡ false)
    → IsInitial m max_pfn pages (page_init m max_pfn pages)
unfolding page_init
page_init-IsInitial m max_pfn pages t l u =
    let done =
      init_regions-IsDone m (zone_of pages) max_pfn 0 m.memory.regions (zone_of pages) l t
        (zone_of-IsReady m pages u) in
    record {
      zone = done.sound.zone;
      free_unreserved = done.sound.unreserved;
      unreserved_free =
          λ a i f. let c = done.complete a i f in let d = done.sound.zone.disjoint a in omega arith;
    }
