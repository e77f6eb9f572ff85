-- ===== src/Memory/Page/Free.antt =====
-- `page_free` gives a held block back, joined with its free buddies.
use wey_os.Base.{
  ok, err, einval, ℕ, zero, suc, ◌+◌, ◌-◌, ◌%◌, ◌^◌, ◌≤◌, ◌<◌, ◌≡◌, ◌≢◌, ◌⊎◌, inl, inr, refl, ap,
  subst, sym, ◌∙◌, true, false, List, ◌∷◌, ltb, leb, arith, Bool-cases, In,
}
use wey_os.Memory.Page.{
  Page, Zone, max_order, ulong_mod, update, put, is_buddy, pg_buddy, mark_free, detach, buddy_of,
  lower_of, is_reserved, can_merge, merge, release, page_free,
}
use wey_os.Memory.Page.Cover.{inside, cover}
use wey_os.Memory.Page.Blocks.{Block, IsZone, HasHand}
use wey_os.Memory.Page.Moves.{cover-cons, update_self, update_ne, inside_self}
use wey_os.Memory.Page.Hands.{give-HasHand, repage-HasHand, put-IsZone, recount-IsZone}
use wey_os.Memory.Page.Grow.{weight_zero, detach-HasHand, detach_order, cover-detach, detach-page}

can_merge_lem : (k : ℕ) (pg : Page) → can_merge k pg ≡ true → (is_buddy pg ≡ true) × (pg.order ≡ k)
unfolding can_merge
can_merge_lem k pg m = ground arith

-- What the loop of `page_free` ends with.
record Merged (z : Zone) (held : List Block) (k p : ℕ) (r : ℕ × ℕ × Zone) : Type 0 where
  hand : HasHand r.2 held r.0 r.1
  kept : (a : ℕ) → cover 0 r.2.free_list a + inside r.0 r.1 a ≡ cover 0 z.free_list a + inside k p a
  others : (q : ℕ) → cover 0 z.free_list q ≡ 0 → inside k p q ≡ 0 → r.2.page q ≡ z.page q

merge-Merged :
    (max_pfn rounds k p : ℕ) (z : Zone) (held : List Block)
    → HasHand z held k p
    → (z.page p).order ≤ k
    → k + rounds < max_order
    → Merged z held k p (merge max_pfn rounds k p z)
unfolding merge
merge-Merged max_pfn zero k p z held hand o l = record {
  hand = hand;
  kept = λ a. refl;
  others = λ q c i. refl;
}
merge-Merged max_pfn (suc rounds) k p z held hand o l =
    elim (Bool-cases (leb max_pfn (buddy_of k p))) [
      | inl e ↦ rw e (record { hand = hand; kept = λ a. refl; others = λ q c i. refl })
      | inr e ↦ elim (Bool-cases (can_merge k (z.page (buddy_of k p)))) [
        | inl m ↦
            let (marked, sized) = can_merge_lem k (z.page (buddy_of k p)) m in
            let ih =
              merge-Merged max_pfn rounds (suc k) (lower_of k p) (detach k (buddy_of k p) z) held
                (detach-HasHand z held k p hand o marked sized (omega arith))
                (detach_order z held k p hand o marked sized (omega arith)) (omega arith) in
            rw (e, m)
              (record {
                hand = ih.hand;
                kept = λ a. ih.kept a ∙ cover-detach z held k p hand o marked sized (omega arith) a;
                others = λ q c i.
                    let d = cover-detach z held k p hand o marked sized (omega arith) q in
                    ih.others q (omega arith) (omega arith)
                    ∙ detach-page z held k p hand o marked sized (omega arith) q c;
              })
        | inr m ↦ rw (e, m) (record { hand = hand; kept = λ a. refl; others = λ q c i. refl })
      ]
    ]

-- What `page_free` of a held block has done.
pub record Freed (z : Zone) (held : List Block) (k p : ℕ) (z' : Zone) : Type 0 where
  pub zone : IsZone z' held
  pub given : (a : ℕ) → cover 0 z'.free_list a ≡ cover 0 z.free_list a + inside k p a
  pub others : (q : ℕ) → cover 0 z.free_list q ≡ 0 → inside k p q ≡ 0 → z'.page q ≡ z.page q

cover-put :
    (k p : ℕ) (z : Zone) (a : ℕ)
    → k < max_order
    → cover 0 (put k p z).free_list a ≡ cover 0 z.free_list a + inside k p a
unfolding put
cover-put k p z a l = omega (arith, cover-cons 0 z.free_list k p a l, weight_zero k p a)

put-page : (k p : ℕ) (z : Zone) (q : ℕ) → q ≢ p → (put k p z).page q ≡ z.page q
unfolding put
put-page k p z q n = update_ne z.page p _ q n

release-Freed :
    (max_pfn p : ℕ) (z : Zone) (held : List Block)
    → IsZone z (((z.page p).order, p) ∷ held)
    → Freed z held (z.page p).order p (release max_pfn p z)
unfolding release mark_free
release-Freed max_pfn p z held zone =
    let k = (z.page p).order in
    let pg : Page = record { order = k; flags = pg_buddy; refcount = 0 } in
    let z₁ : Zone = record z { page = update z.page p pg } in
    let small = zone.held_blocks.0.small in
    let hand = repage-HasHand z held k p pg (give-HasHand z held k p zone) in
    let m =
      merge-Merged max_pfn (max_order - 1 - k) k p z₁ held hand
        (let e = ap (λ x. x.order) (update_self z.page p pg) in omega arith) (omega arith) in
    let r = merge max_pfn (max_order - 1 - k) k p z₁ in
    record {
      zone =
          recount-IsZone (put r.0 r.1 r.2) (((put r.0 r.1 r.2).free_pages + 2 ^ k) % ulong_mod) held
            (put-IsZone r.2 held r.0 r.1 m.hand);
      given = λ a. cover-put r.0 r.1 r.2 a m.hand.hand_small ∙ m.kept a;
      others = λ q c i.
          let e = m.kept q in
          let s = inside_self r.0 q in
          put-page r.0 r.1 r.2 q (λ t.
            let s' : inside r.0 r.1 q ≡ 1 = ap (λ x. inside r.0 x q) (sym t) ∙ s in
            absurd (omega arith))
          ∙ m.others q c i
          ∙ update_ne z.page p pg q (λ t.
            let s' : inside k p q ≡ 1 = ap (λ x. inside k p x) t ∙ inside_self k p in
            absurd (omega arith));
    }

-- `page_free` of a held block that is not reserved and has at most one reference succeeds: exactly its
-- pages become free, other pages that were not free keep their fields, and the free and held blocks
-- are disjoint and aligned again, however many buddies were joined.
pub page_free-Freed :
    (max_pfn k p : ℕ) (z : Zone) (held : List Block)
    → IsZone z ((k, p) ∷ held)
    → is_reserved (z.page p) ≡ false
    → (z.page p).refcount ≤ 1
    → (z' : Zone) × (page_free max_pfn p z ≡ (ok tt, z')) × Freed z held k p z'
unfolding page_free
page_free-Freed max_pfn k p z held zone r c =
    let b = zone.held_blocks.0 in
    let u = b.unmarked in
    let l : ltb 1 (z.page p).refcount ≡ false = ground arith in
    (
      release max_pfn p z,
      rw (r, l, u) refl,
      subst (λ j. Freed z held j p (release max_pfn p z)) b.sized
          (release-Freed max_pfn p z held
            (subst (λ j. IsZone z ((j, p) ∷ held)) (sym b.sized) zone)),
    )

-- `page_free` fails with EINVAL and changes nothing when the page is the first of a free block, in
-- lists that are in order, when it is reserved, and when it has more than one reference.
pub page_free-refused :
    (max_pfn p : ℕ) (z : Zone) (held : List Block)
    → IsZone z held
    → ((k : ℕ) × (k < max_order) × In p (z.free_list k))
      ⊎ (is_reserved (z.page p) ≡ true)
      ⊎ (1 < (z.page p).refcount)
    → page_free max_pfn p z ≡ (err einval, z)
unfolding page_free
page_free-refused max_pfn p z held zone (inl (k, l, i)) =
    let m = (zone.free_blocks k p l i).marked in ground arith
page_free-refused max_pfn p z held zone (inr (inl r)) = rw r refl
page_free-refused max_pfn p z held zone (inr (inr h)) = ground arith
