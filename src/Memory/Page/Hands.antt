-- ===== src/Memory/Page/Hands.antt =====
-- A block comes into hand from a free list or from its holder, and leaves the hand for one of them.
use wey_os.Base.{
  ℕ, suc, ◌+◌, ◌<◌, ◌≡◌, ◌≢◌, inl, inr, refl, ap, subst, sym, true, false, List, ◌∷◌, ◌==◌, arith,
  Bool-cases, In,
}
use wey_os.Memory.Page.{Page, Zone, max_order, update, put, remove, take_out, is_buddy, pg_buddy}
use wey_os.Memory.Page.Cover.{weight, cover}
use wey_os.Memory.Page.Blocks.{Block, IsFree, IsListed, IsZone, HasHand}
use wey_os.Memory.Page.Moves.{
  cover-cons, cover-remove, inside_self, free_ne, held_ne, IsFree-kept, IsHeld-each_kept,
  IsHeld-each_same, update_ne, update_self, In-cons, In-grows, In-new, In-out, In-stays,
}

-- The fields of the first page of the block in hand change.
pub repage-HasHand :
    (z : Zone) (held : List Block) (k h : ℕ) (pg : Page)
    → HasHand z held k h
    → HasHand (record z { page = update z.page h pg }) held k h
repage-HasHand z held k h pg hand = record {
  free_blocks = λ j p l i.
      IsFree-kept z z' j p
        (update_ne z.page h pg p (free_ne z held k h hand j p h l i (inside_self k h)))
        (hand.free_blocks j p l i);
  held_blocks =
      IsHeld-each_kept z z' h held (update_ne z.page h pg)
        (held_ne k h held (λ a. let d = hand.disjoint a in ground arith) h (inside_self k h))
        hand.held_blocks;
  hand_small = hand.hand_small;
  hand_aligned = hand.hand_aligned;
  disjoint = hand.disjoint;
  listed = λ q n m.
      let e = update_ne z.page h pg q n in
      subst (λ x. IsListed z.free_list ((k, h) ∷ held) q x) (sym e) (hand.listed q n (rw e at m));
}
  where
    z' : Zone
    z' = record z { page = update z.page h pg }

-- Somebody holds the block that was in hand, or gives it.
pub hold-IsZone :
    (z : Zone) (held : List Block) (k h : ℕ)
    → HasHand z held k h
    → is_buddy (z.page h) ≡ false
    → (z.page h).order ≡ k
    → IsZone z ((k, h) ∷ held)
hold-IsZone z held k h hand u o = record {
  free_blocks = hand.free_blocks;
  held_blocks = (
    record { aligned = hand.hand_aligned; small = hand.hand_small; unmarked = u; sized = o },
    hand.held_blocks,
  );
  disjoint = hand.disjoint;
  listed = λ q m.
      hand.listed q (λ e. absurd (let e' = ap (λ x. is_buddy (z.page x)) e in ground arith)) m;
}

pub give-HasHand :
    (z : Zone) (held : List Block) (k h : ℕ) → IsZone z ((k, h) ∷ held) → HasHand z held k h
give-HasHand z held k h zone = record {
  free_blocks = zone.free_blocks;
  held_blocks = zone.held_blocks.1;
  hand_small = zone.held_blocks.0.small;
  hand_aligned = zone.held_blocks.0.aligned;
  disjoint = zone.disjoint;
  listed = λ q n m. zone.listed q m;
}

-- The counts are no part of the invariant.
pub recount-IsZone :
    (z : Zone) (n : ℕ) (held : List Block)
    → IsZone z held
    → IsZone (record z { free_pages = n }) held
recount-IsZone z n held zone = record {
  free_blocks =
      λ k p l i. IsFree-kept z (record z { free_pages = n }) k p refl (zone.free_blocks k p l i);
  held_blocks = IsHeld-each_same z (record z { free_pages = n }) held (λ p. refl) zone.held_blocks;
  disjoint = zone.disjoint;
  listed = zone.listed;
}

-- The block in hand becomes free.
module _ (z : Zone) (held : List Block) (k h : ℕ) (hand : HasHand z held k h) where
  abbrev new : Page
  new = record { order = k; flags = pg_buddy; refcount = 0 }

  abbrev lists : ℕ → List ℕ
  lists = update z.free_list k (h ∷ z.free_list k)

  put-IsFree : (j p : ℕ) → j < max_order → In p (lists j) → IsFree (put k h z) j p
  unfolding put
  put-IsFree j p l i = elim (In-cons z.free_list k h j p i) [
    | inl (e, f) ↦
        rw (e, f)
          (record {
            aligned = hand.hand_aligned;
            marked = ap (λ x. is_buddy x) (update_self z.page h new);
            sized = ap (λ x. x.order) (update_self z.page h new);
          })
    | inr i' ↦
        IsFree-kept z (put k h z) j p
          (update_ne z.page h new p (free_ne z held k h hand j p h l i' (inside_self k h)))
          (hand.free_blocks j p l i')
  ]

  put-IsListed_ne :
      (q j : ℕ)
      → IsListed z.free_list
          ((k, h) ∷ held)
          q
          (record { order = j; flags = pg_buddy; refcount = 0 })
      → IsListed lists held q (record { order = j; flags = pg_buddy; refcount = 0 })
  put-IsListed_ne q j (a, inl i) = (a, inl (In-grows z.free_list k h j q i))
  put-IsListed_ne q j (a, inr w) =
      (a, inr (let e = cover-cons (suc j) z.free_list k h q hand.hand_small in omega arith))

  put-IsListed :
      (q : ℕ) → is_buddy ((put k h z).page q) ≡ true → IsListed lists held q ((put k h z).page q)
  unfolding put
  put-IsListed q m = elim (Bool-cases (h == q)) [
    | inl e ↦
        let s : h ≡ q = ground arith in
        subst (λ x. IsListed lists held x (update z.page h new x)) s
          (subst (λ pg. IsListed lists held h pg) (sym (update_self z.page h new))
            (hand.hand_aligned, inl (In-new z.free_list k h)))
    | inr e ↦
        let d : q ≢ h = (λ s. absurd (ground arith)) in
        let f = update_ne z.page h new q d in
        subst (λ pg. IsListed lists held q pg) (sym f)
          (put-IsListed_ne q (z.page q).order (hand.listed q d (rw f at m)))
  ]

  pub put-IsZone : IsZone (put k h z) held
  unfolding put
  put-IsZone = record {
    free_blocks = put-IsFree;
    held_blocks =
        IsHeld-each_kept z (put k h z) h held (update_ne z.page h new)
          (held_ne k h held (λ a. let d = hand.disjoint a in ground arith) h (inside_self k h))
          hand.held_blocks;
    disjoint = λ a.
        let d = hand.disjoint a in
        let e = cover-cons 0 z.free_list k h a hand.hand_small in omega arith;
    listed = put-IsListed;
  }

-- A free block comes into hand.
module _ (z : Zone) (held : List Block) (k h : ℕ) (small : k < max_order)
    (free : In h (z.free_list k)) (zone : IsZone z held) where
  abbrev left : ℕ → List ℕ
  left = update z.free_list k (remove h (z.free_list k))

  take_out_left :
      (q j : ℕ)
      → q ≢ h
      → IsListed z.free_list held q (record { order = j; flags = pg_buddy; refcount = 0 })
      → IsListed left ((k, h) ∷ held) q (record { order = j; flags = pg_buddy; refcount = 0 })
  take_out_left q j n (a, inl i) = (a, inl (In-stays z.free_list k h j q n i))
  take_out_left q j n (a, inr w) =
      (a, inr (let e = cover-remove (suc j) z.free_list k h q small free in omega arith))

  pub take_out-HasHand : HasHand (take_out k h z) held k h
  unfolding take_out
  take_out-HasHand = record {
    free_blocks = λ j p l i.
        IsFree-kept z (take_out k h z) j p refl
          (zone.free_blocks j p l (In-out z.free_list k h j p i));
    held_blocks = IsHeld-each_same z (take_out k h z) held (λ p. refl) zone.held_blocks;
    hand_small = small;
    hand_aligned = (zone.free_blocks k h small free).aligned;
    disjoint = λ a.
        let d = zone.disjoint a in
        let e = cover-remove 0 z.free_list k h a small free in omega arith;
    listed = λ q n m. take_out_left q (z.page q).order n (zone.listed q m);
  }

pub cover-take_out :
    (lo k p : ℕ) (z : Zone) (a : ℕ)
    → k < max_order
    → In p (z.free_list k)
    → cover lo (take_out k p z).free_list a + weight lo k p a ≡ cover lo z.free_list a
unfolding take_out
cover-take_out lo k p z a l i = cover-remove lo z.free_list k p a l i
