-- ===== src/Memory/Page/Halve.antt =====
-- `page_alloc` halves the block in hand.
use wey_os.Base.{
  ℕ, suc, ◌+◌, ◌*◌, ◌^◌, ◌≤◌, ◌<◌, ◌≡◌, ◌≢◌, ◌⊎◌, inl, inr, ap, subst, sym, ◌∙◌, true, List, ◌∷◌,
  ◌==◌, arith, Bool-cases, In,
}
use wey_os.Base.Bits.{pow_two_suc, pow_two_pos}
use wey_os.Memory.Page.{Page, Zone, max_order, update, put, is_buddy, pg_buddy}
use wey_os.Memory.Page.Cover.{inside, cover, IsAligned, inside-halves, step_up}
use wey_os.Memory.Page.Blocks.{Block, held_cover, IsFree, IsListed, HasHand}
use wey_os.Memory.Page.Moves.{
  cover-cons, free_ne, held_ne, IsFree-kept, IsHeld-each_kept, update_ne, update_self, In-cons,
  In-grows, In-new,
}

-- A block in hand is halved: its upper half becomes free.
module _ (z : Zone) (held : List Block) (c h : ℕ) (hand : HasHand z held (suc c) h) where
  abbrev upper : ℕ
  upper = h + 2 ^ c

  abbrev new : Page
  new = record { order = c; flags = pg_buddy; refcount = 0 }

  halved : (a : ℕ) → inside (suc c) h a ≡ inside c h a + inside c upper a
  halved a = inside-halves c h a

  upper_inside : inside (suc c) h upper ≡ 1
  upper_inside = let a = pow_two_suc c in let b = pow_two_pos c in ground arith

  halves-IsAligned : IsAligned c h × IsAligned c upper
  halves-IsAligned =
      let (i, e) = hand.hand_aligned in
      let f : h ≡ 2 * i * 2 ^ c = e ∙ twice i (2 ^ c) (2 ^ suc c) (pow_two_suc c) in
      ((2 * i, f), (2 * i + 1, ap (λ x. x + 2 ^ c) f ∙ next (2 * i) (2 ^ c)))
    where
      twice : (i p q : ℕ) → q ≡ 2 * p → i * q ≡ 2 * i * p
      twice i p q e = grind arith

      next : (i p : ℕ) → i * p + p ≡ (i + 1) * p
      next i p = grind arith

  -- A multiple of 2^c in a block of 2^(c + 1) pages is the first page of one of its halves.
  first_of_half : (q : ℕ) → IsAligned c q → inside (suc c) h q ≡ 1 → (q ≡ h) ⊎ (q ≡ upper)
  first_of_half q (j, f) e =
      let (i, g) = halves-IsAligned.0 in
      let (i', g') = halves-IsAligned.1 in
      let a = step_up i j (2 ^ c) in
      let b = step_up i' j (2 ^ c) in
      let s = pow_two_suc c in
      elim (Bool-cases (h == q)) [ inl d ↦ inl (ground arith) | inr d ↦ inr (ground arith) ]

  halve-IsFree :
      (j p : ℕ)
      → j < max_order
      → In p (update z.free_list c (upper ∷ z.free_list c) j)
      → IsFree (put c upper z) j p
  unfolding put
  halve-IsFree j p l i = elim (In-cons z.free_list c upper j p i) [
    | inl (e, f) ↦
        rw (e, f)
          (record {
            aligned = halves-IsAligned.1;
            marked = ap (λ x. is_buddy x) (update_self z.page upper new);
            sized = ap (λ x. x.order) (update_self z.page upper new);
          })
    | inr i' ↦
        IsFree-kept z (put c upper z) j p
          (update_ne z.page upper new p (free_ne z held (suc c) h hand j p upper l i' upper_inside))
          (hand.free_blocks j p l i')
  ]

  halve_disjoint :
      (a : ℕ)
      → cover 0 (update z.free_list c (upper ∷ z.free_list c)) a + held_cover 0 ((c, h) ∷ held) a
        ≤ 1
  halve_disjoint a =
      let d = hand.disjoint a in
      let e = cover-cons 0 z.free_list c upper a (let l = hand.hand_small in omega arith) in
      let f = halved a in ground arith

  abbrev lists : ℕ → List ℕ
  lists = update z.free_list c (upper ∷ z.free_list c)

  -- A page that is left over in the block is left over in one of its halves, or heads one.
  halve_left :
      (q j : ℕ)
      → q ≢ h
      → q ≢ upper
      → IsListed z.free_list
          ((suc c, h) ∷ held)
          q
          (record { order = j; flags = pg_buddy; refcount = 0 })
      → IsListed lists ((c, h) ∷ held) q (record { order = j; flags = pg_buddy; refcount = 0 })
  halve_left q j n u (a, inl i) = (a, inl (In-grows z.free_list c upper j q i))
  halve_left q j n u (a, inr w) = (
    a,
    inr (
        let e = cover-cons (suc j) z.free_list c upper q (let l = hand.hand_small in omega arith) in
        let f = halved q in
        elim (Bool-cases (j == c)) [
          | inl s ↦
              let s' : j ≡ c = ground arith in
              let g = first_of_half q (subst (λ x. IsAligned x q) s' a) in ground arith
          | inr s ↦ ground arith
        ]),
  )

  halve-IsListed :
      (q : ℕ)
      → q ≢ h
      → is_buddy ((put c upper z).page q) ≡ true
      → IsListed lists ((c, h) ∷ held) q ((put c upper z).page q)
  unfolding put
  halve-IsListed q n m = elim (Bool-cases (upper == q)) [
    | inl e ↦
        let s : upper ≡ q = ground arith in
        subst (λ x. IsListed lists ((c, h) ∷ held) x (update z.page upper new x)) s
          (subst (λ pg. IsListed lists ((c, h) ∷ held) upper pg)
            (sym (update_self z.page upper new))
            (halves-IsAligned.1, inl (In-new z.free_list c upper)))
    | inr e ↦
        let d : q ≢ upper = (λ s. absurd (ground arith)) in
        let k = update_ne z.page upper new q d in
        subst (λ pg. IsListed lists ((c, h) ∷ held) q pg) (sym k)
          (halve_left q (z.page q).order n d (hand.listed q n (rw k at m)))
  ]

  pub halve-HasHand : HasHand (put c upper z) held c h
  unfolding put
  halve-HasHand = record {
    free_blocks = halve-IsFree;
    held_blocks =
        IsHeld-each_kept z (put c upper z) upper held (update_ne z.page upper new)
          (held_ne (suc c) h held (λ a. let d = hand.disjoint a in ground arith) upper upper_inside)
          hand.held_blocks;
    hand_small = let l = hand.hand_small in omega arith;
    hand_aligned = halves-IsAligned.0;
    disjoint = halve_disjoint;
    listed = halve-IsListed;
  }
