-- ===== src/Memory/Page/Refs.antt =====
-- References to a held block: `page_get` and `page_put`, src/include/mm/page.h.
use wey_os.Base.{
  ℕ, ◌+◌, ◌-◌, ◌%◌, ◌<◌, ◌≡◌, refl, ap, subst, sym, ◌∙◌, false, List, ◌∷◌, ◌==◌, if◌then◌else◌,
  arith,
}
use wey_os.Memory.Page.{Page, Zone, ulong_mod, update, is_buddy, is_reserved, page_free}
use wey_os.Memory.Page.Cover.{inside}
use wey_os.Memory.Page.Blocks.{IsZone}
use wey_os.Memory.Page.Moves.{update_self, update_ne, inside_self}
use wey_os.Memory.Page.Hands.{give-HasHand, repage-HasHand, hold-IsZone}
use wey_os.Memory.Page.Free.{Freed, page_free-Freed}

abbrev pub set_refcount : ℕ → ℕ → Zone → Zone
set_refcount p n z = record z {
  page =
      update z.page p (record { order = (z.page p).order; flags = (z.page p).flags; refcount = n });
}

-- `page_get`
pub page_get : ℕ → Zone → Zone
page_get p z = set_refcount p (((z.page p).refcount + 1) % ulong_mod) z

-- `page_put`
pub page_put : ℕ → ℕ → Zone → Zone
page_put max_pfn p z =
    let n = ((z.page p).refcount + ulong_mod - 1) % ulong_mod in
    let z' = set_refcount p n z in if n == 0 then (page_free max_pfn p z').1 else z'

module _ (k p : ℕ) (z : Zone) (held : List (ℕ × ℕ)) (zone : IsZone z ((k, p) ∷ held)) (n : ℕ) where
  abbrev recounted : Page
  recounted = record { order = (z.page p).order; flags = (z.page p).flags; refcount = n }

  -- A held block stays held when its count changes.
  set_refcount-IsZone : IsZone (set_refcount p n z) ((k, p) ∷ held)
  set_refcount-IsZone =
      let b = zone.held_blocks.0 in
      hold-IsZone (set_refcount p n z) held k p
        (repage-HasHand z held k p recounted (give-HasHand z held k p zone))
        (ap (λ x. is_buddy x) (update_self z.page p recounted) ∙ b.unmarked)
        (ap (λ x. x.order) (update_self z.page p recounted) ∙ b.sized)

-- What `page_put` makes of the zone `z`, for a held block with `n` references.
pub record Put (z : Zone) (held : List (ℕ × ℕ)) (k p n : ℕ) (z' : Zone) : Type 0 where
  pub last : n ≡ 1 → Freed z held k p z'
  pub others :
      1 < n
      → IsZone z' ((k, p) ∷ held) × (z'.free_list ≡ z.free_list) × ((z'.page p).refcount ≡ n - 1)

-- `page_put` of a held block that is not reserved and has at least one reference, fewer than 2^32:
-- the last reference gives exactly its pages back, with the free and held blocks in order; any other
-- leaves the block held and the lists as they are, with one reference fewer.
page_put-Put :
    (max_pfn k p : ℕ) (z : Zone) (held : List (ℕ × ℕ))
    → IsZone z ((k, p) ∷ held)
    → is_reserved (z.page p) ≡ false
    → 0 < (z.page p).refcount
    → (z.page p).refcount < ulong_mod
    → Put z held k p (z.page p).refcount (page_put max_pfn p z)
unfolding page_put
page_put-Put max_pfn k p z held zone r l u = record {
  last = λ e.
      let c : ((z.page p).refcount + ulong_mod - 1) % ulong_mod ≡ 0 = ground arith in
      let same = update_self z.page p (recounted k p z held zone 0) in
      let (z', f, done) =
        page_free-Freed max_pfn k p (set_refcount p 0 z) held
          (set_refcount-IsZone k p z held zone 0) (ap (λ x. is_reserved x) same ∙ r)
          (let q = ap (λ x. x.refcount) same in omega arith) in
      rw c (
        subst (λ x. Freed z held k p x.1) (sym f)
          (record {
            zone = done.zone;
            given = done.given;
            others = λ q c i.
                done.others q c i
                ∙ update_ne z.page p (recounted k p z held zone 0) q (λ t.
                  let s' : inside k p q ≡ 1 = ap (λ x. inside k p x) t ∙ inside_self k p in
                  absurd (omega arith));
          }));
  others = λ h.
      let c : ((z.page p).refcount + ulong_mod - 1) % ulong_mod ≡ (z.page p).refcount - 1 =
        ground arith in
      let d : ((z.page p).refcount - 1 == 0) ≡ false = ground arith in
      rw (c, d)
        (
          set_refcount-IsZone k p z held zone ((z.page p).refcount - 1),
          refl,
          ap (λ x. x.refcount)
              (update_self z.page p (recounted k p z held zone ((z.page p).refcount - 1))),
        );
}
