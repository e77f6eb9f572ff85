-- ===== src/Memory/Page/Grow.antt =====
-- `page_free` joins the block in hand with its free buddy.
use wey_os.Base.{
  ℕ, suc, ◌+◌, ◌-◌, ◌*◌, ◌%◌, ◌^◌, ◌≤◌, ◌<◌, ◌≡◌, ◌≢◌, ◌⊎◌, inl, inr, ap, ap₂, subst, sym, ◌∙◌,
  true, false, List, ◌∷◌, ◌==◌, arith, Bool-cases, In,
}
use wey_os.Base.Bits.{pow_two_pos}
use wey_os.Memory.Page.{
  Page, Zone, max_order, update, remove, take_out, is_buddy, pg_buddy, detach, buddy_of, lower_of,
}
use wey_os.Memory.Page.Cover.{inside, weight, cover, IsAligned, inside-halves, pow_two_multiple}
use wey_os.Memory.Page.Blocks.{
  Block, held_cover, IsListed, HasHand, In-cover, cover_antitone, held_cover_antitone,
  cover-siblings, held_cover-siblings,
}
use wey_os.Memory.Page.Moves.{
  cover-remove, inside_self, held_ne, IsFree-kept, IsHeld-each_kept, update_ne, update_self, In-out,
  In-stays,
}
use wey_os.Memory.Page.Siblings.{Siblings, aligned-Siblings}

pub weight_zero : (k p a : ℕ) → weight 0 k p a ≡ inside k p a
weight_zero k p a = ground arith

IsAligned-below : (j k p : ℕ) → j ≤ k → IsAligned k p → IsAligned j p
IsAligned-below j k p l (i, e) =
    let (x, f) = pow_two_multiple j k l in (i * x, e ∙ grouped i x (2 ^ k) (2 ^ j) f)
  where
    grouped : (i x n l : ℕ) → n ≡ x * l → i * n ≡ i * x * l
    grouped i x n l g = grind arith

module _ (z : Zone) (held : List Block) (k p : ℕ) (hand : HasHand z held k p)
    (low_order : (z.page p).order ≤ k) (marked : is_buddy (z.page (buddy_of k p)) ≡ true)
    (sized : (z.page (buddy_of k p)).order ≡ k) (small : suc k < max_order) where
  abbrev b : ℕ
  b = buddy_of k p

  abbrev low : ℕ
  low = lower_of k p

  siblings : Siblings k p
  siblings = aligned-Siblings k p hand.hand_aligned

  -- The block of the two.
  pair : (a : ℕ) → inside (suc k) low a ≡ inside k p a + inside k b a
  pair a =
      let s = siblings in
      let c = inside-halves k (s.number * 2 ^ suc k) a in
      elim s.either [
        | inl (e, f) ↦ rw (s.lower, f) (let g = ap (λ x. inside k x a) e in omega arith)
        | inr (e, f) ↦ rw (s.lower, f) (let g = ap (λ x. inside k x a) e in omega arith)
      ]

  b_ne : b ≢ p
  b_ne s =
      let t = siblings in
      let c = pow_two_pos k in elim t.either [ inl (e, f) ↦ omega arith | inr (e, f) ↦ omega arith ]

  abbrev total : ℕ → ℕ
  total x = cover (suc k) z.free_list x + held_cover (suc k) held x

  -- A block of a higher order that held the buddy would hold the block in hand.
  higher : total b ≡ total p
  higher =
      let s = siblings in
      let c =
        cover-siblings k s.number z.free_list (λ m q l i. (hand.free_blocks m q l i).aligned) in
      let d = held_cover-siblings k s.number z held hand.held_blocks in
      let both : total (s.number * 2 ^ suc k) ≡ total (s.number * 2 ^ suc k + 2 ^ k) =
        ap₂ (λ x y. x + y) c d in
      elim s.either [
        | inl (e, f) ↦ ap total f ∙ sym both ∙ ap total (sym e)
        | inr (e, f) ↦ ap total f ∙ both ∙ ap total (sym e)
      ]

  member : In b (z.free_list k)
  member = go (
      subst
        (λ j.
          In b (z.free_list j)
          ⊎ (0 < cover (suc j) z.free_list b + held_cover (suc j) ((k, p) ∷ held) b))
        sized ((hand.listed b b_ne marked).1))
    where
      go :
          In b (z.free_list k)
            ⊎ (0 < cover (suc k) z.free_list b + held_cover (suc k) ((k, p) ∷ held) b)
          → In b (z.free_list k)
      go (inl i) = i
      go (inr w) = absurd (
          let d = hand.disjoint p in
          let o = inside_self k p in
          let h = higher in
          let c = cover_antitone (suc k) z.free_list p in
          let e = held_cover_antitone (suc k) held p in ground arith)

  abbrev left : ℕ → List ℕ
  left = update z.free_list k (remove b (z.free_list k))

  abbrev cleared : Page
  cleared = record {
    order = 0;
    flags = (z.page b).flags - (z.page b).flags % 2;
    refcount = (z.page b).refcount;
  }

  left-cover : (lo a : ℕ) → cover lo left a + weight lo k b a ≡ cover lo z.free_list a
  left-cover lo a = cover-remove lo z.free_list k b a hand.hand_small member

  -- No other free block starts at the buddy.
  left_ne : (j q : ℕ) → j < max_order → In q (left j) → q ≢ b
  left_ne j q l i s =
      let c = In-cover 0 left j q q l i in
      let o = inside_self j q in
      let d = hand.disjoint q in
      let e = left-cover 0 q in let o' : inside k b q ≡ 1 = rw s (inside_self k b) in ground arith

  cleared_unmarked : is_buddy cleared ≡ false
  cleared_unmarked = ground arith

  -- A page that was left over in the block or in the buddy is left over in the two.
  grow_left :
      (q j : ℕ)
      → q ≢ b
      → IsListed z.free_list
          ((k, p) ∷ held)
          q
          (record { order = j; flags = pg_buddy; refcount = 0 })
      → IsListed left ((suc k, low) ∷ held) q (record { order = j; flags = pg_buddy; refcount = 0 })
  grow_left q j n (a, inl i) = (a, inl (In-stays z.free_list k b j q n i))
  grow_left q j n (a, inr w) =
      (a, inr (let e = left-cover (suc j) q in let f = pair q in ground arith))

  -- So is the first page of the block, if it does not head the two.
  grow_first : p ≢ low → IsListed left ((suc k, low) ∷ held) p (z.page p)
  grow_first n = (
    IsAligned-below (z.page p).order k p low_order hand.hand_aligned,
    inr (let f = pair p in let o = inside_self k p in ground arith),
  )

  grow-IsListed :
      (q : ℕ)
      → q ≢ low
      → is_buddy (update z.page b cleared q) ≡ true
      → IsListed left ((suc k, low) ∷ held) q (update z.page b cleared q)
  grow-IsListed q n m = elim (Bool-cases (b == q)) [
    | inl e ↦ absurd (
        let s : q ≡ b = ground arith in
        let f = ap (λ x. is_buddy (update z.page b cleared x)) s in
        let g = ap (λ x. is_buddy x) (update_self z.page b cleared) in
        let u = cleared_unmarked in true_false (sym m ∙ f ∙ g ∙ u))
    | inr e ↦
        let d : q ≢ b = (λ s. absurd (ground arith)) in
        let f = update_ne z.page b cleared q d in
        subst (λ pg. IsListed left ((suc k, low) ∷ held) q pg) (sym f)
          (elim (Bool-cases (q == p)) [
            | inl s ↦
                let s' : q ≡ p = ground arith in
                subst (λ x. IsListed left ((suc k, low) ∷ held) x (z.page x)) (sym s')
                  (grow_first (λ t. n (s' ∙ t)))
            | inr s ↦
                grow_left q (z.page q).order d
                  (hand.listed q (λ t. absurd (ground arith)) (rw f at m))
          ])
  ]
    where
      true_false : true ≡ false → ⊥
      true_false h = ground arith

  pub detach-HasHand : HasHand (detach k b z) held (suc k) low
  unfolding detach take_out
  detach-HasHand = record {
    free_blocks = λ j q l i.
        IsFree-kept z (detach k b z) j q (update_ne z.page b cleared q (left_ne j q l i))
          (hand.free_blocks j q l (In-out z.free_list k b j q i));
    held_blocks =
        IsHeld-each_kept z (detach k b z) b held (update_ne z.page b cleared)
          (held_ne k b held
            (λ a.
              let d = hand.disjoint a in
              let e = left-cover 0 a in let w = weight_zero k b a in ground arith)
            b (inside_self k b))
          hand.held_blocks;
    hand_small = small;
    hand_aligned = let s = siblings in (s.number, s.lower);
    disjoint =
        λ a. let d = hand.disjoint a in let e = left-cover 0 a in let f = pair a in ground arith;
    listed = grow-IsListed;
  }

  pub detach_order : ((detach k b z).page low).order ≤ suc k
  unfolding detach take_out
  detach_order =
      let s = siblings in
      let n : p ≢ b = (λ t. b_ne (sym t)) in
      let kept = ap (λ x. x.order) (update_ne z.page b cleared p n) in
      let cut = ap (λ x. x.order) (update_self z.page b cleared) in
      elim s.either [
        | inl (e, f) ↦
            let g = ap (λ x. (update z.page b cleared x).order) (s.lower ∙ sym e) in omega arith
        | inr (e, f) ↦
            let g = ap (λ x. (update z.page b cleared x).order) (s.lower ∙ sym f) in omega arith
      ]

  pub cover-detach :
      (a : ℕ)
      → cover 0 (detach k b z).free_list a + inside (suc k) low a
        ≡ cover 0 z.free_list a + inside k p a
  unfolding detach take_out
  cover-detach a = omega (arith, left-cover 0 a, pair a, weight_zero k b a)

  pub detach-page : (q : ℕ) → cover 0 z.free_list q ≡ 0 → (detach k b z).page q ≡ z.page q
  unfolding detach take_out
  detach-page q c =
      let e = left-cover 0 b in
      let w = weight_zero k b b in
      let i = inside_self k b in
      update_ne z.page b _ q (λ t.
        let c' : cover 0 z.free_list b ≡ 0 = ap (λ x. cover 0 z.free_list x) (sym t) ∙ c in
        absurd (omega arith))
