-- ===== src/Memory/Page/Alloc.antt =====
-- `page_alloc` hands a free block of the order out, and fails only when there is none.
use wey_os.Base.{
  ℕ, zero, suc, ◌+◌, ◌-◌, ◌%◌, ◌^◌, ◌≤◌, ◌<◌, ◌≡◌, inl, inr, refl, ap, subst, sym, ◌∙◌, Option,
  none, some, List, [], ◌∷◌, ◌==◌, arith, Bool-cases, In,
}
use wey_os.Base.Bits.{pow_two_pos}
use wey_os.Memory.Page.{
  Page, Zone, max_order, ulong_mod, update, put, take_out, is_buddy, hand_out, split, alloc_from,
  page_alloc,
}
use wey_os.Memory.Page.Cover.{inside, weight, cover, inside-halves}
use wey_os.Memory.Page.Blocks.{Block, IsZone, HasHand}
use wey_os.Memory.Page.Moves.{cover-cons, update_self, update_ne}
use wey_os.Memory.Page.Halve.{halve-HasHand}
use wey_os.Memory.Page.Hands.{
  repage-HasHand, hold-IsZone, recount-IsZone, take_out-HasHand, cover-take_out,
}

split-HasHand :
    (rounds order p : ℕ) (z : Zone) (held : List Block)
    → HasHand z held (order + rounds) p
    → HasHand (split rounds order p z) held order p
unfolding split
split-HasHand zero order p z held hand = subst (λ k. HasHand z held k p) (omega arith) hand
split-HasHand (suc rounds) order p z held hand =
    split-HasHand rounds order p (put (order + rounds) (p + 2 ^ (order + rounds)) z) held (
      halve-HasHand z held (order + rounds) p (
        subst (λ k. HasHand z held k p)
          (let e : order + suc rounds ≡ suc (order + rounds) = omega arith in e) hand))

weight_zero : (k p a : ℕ) → weight 0 k p a ≡ inside k p a
weight_zero k p a = ground arith

-- The halves that become free and the block that is left are the block that was there.
cover-split :
    (rounds order p : ℕ) (z : Zone) (a : ℕ)
    → order + rounds < max_order
    → cover 0 (split rounds order p z).free_list a + inside order p a
      ≡ cover 0 z.free_list a + inside (order + rounds) p a
unfolding split put
cover-split zero order p z a l = ap (λ k. cover 0 z.free_list a + inside k p a) (omega arith)
cover-split (suc rounds) order p z a l =
    let c = order + rounds in
    let ih = cover-split rounds order p (put c (p + 2 ^ c) z) a (omega arith) in
    let e = cover-cons 0 z.free_list c (p + 2 ^ c) a (omega arith) in
    let h = inside-halves c p a in
    let s : inside (order + suc rounds) p a ≡ inside (suc c) p a =
      ap (λ k. inside k p a) (omega arith) in
    omega (arith, weight_zero c (p + 2 ^ c) a)

-- Pages outside the block keep their fields.
split-page :
    (rounds order p : ℕ) (z : Zone) (q : ℕ)
    → inside (order + rounds) p q ≡ 0
    → (split rounds order p z).page q ≡ z.page q
unfolding split put
split-page zero order p z q e = refl
split-page (suc rounds) order p z q e =
    let c = order + rounds in
    let s : inside (suc c) p q ≡ 0 = ap (λ k. inside k p q) (omega arith) ∙ e in
    let h = inside-halves c p q in
    let l = pow_two_pos c in
    split-page rounds order p (put c (p + 2 ^ c) z) q (omega arith)
    ∙ update_ne z.page (p + 2 ^ c) _ q (λ f. absurd (ground arith))

-- What `page_alloc` has done.
pub record Allocated (z : Zone) (held : List Block) (order flags p : ℕ) (z' : Zone) : Type 0 where
  pub zone : IsZone z' ((order, p) ∷ held)
  pub taken : (a : ℕ) → cover 0 z.free_list a ≡ cover 0 z'.free_list a + inside order p a
  pub handed : z'.page p ≡ record { order = order; flags = flags; refcount = 1 }
  pub others : (q : ℕ) → cover 0 z.free_list q ≡ 0 → z'.page q ≡ z.page q

-- What the loop comes to, from the order `order + skipped` on.
abbrev pub Searched : ℕ → ℕ → ℕ → ℕ → Zone → List Block → Option ℕ × Zone → Type 0
Searched rounds skipped order flags z held (none, z') =
    (z' ≡ z) × ((k : ℕ) → order + skipped ≤ k → k < order + skipped + rounds → z.free_list k ≡ [])
Searched rounds skipped order flags z held (some p, z') = Allocated z held order flags p z'

module _ (order flags : ℕ) (plain : flags % 2 ≡ 0) (z : Zone) (held : List Block)
    (zone : IsZone z held) where
  -- The first block of a list that is not empty is split and handed out.
  found :
      (skipped p : ℕ) (rest : List ℕ)
      → order + skipped < max_order
      → z.free_list (order + skipped) ≡ p ∷ rest
      → Allocated z held order flags p
          (hand_out order flags p (split skipped order p (take_out (order + skipped) p z)))
  unfolding hand_out take_out
  found skipped p rest l e = record {
    zone =
        recount-IsZone paged ((s.free_pages + ulong_mod - 2 ^ order) % ulong_mod)
          ((order, p) ∷ held)
          (hold-IsZone paged held order p
            (repage-HasHand s held order p given (
              split-HasHand skipped order p taken_out held
                (take_out-HasHand z held (order + skipped) p l i zone)))
            (ap (λ x. is_buddy x) (update_self s.page p given) ∙ ground arith)
            (ap (λ x. x.order) (update_self s.page p given)));
    taken = λ a.
        let c = cover-split skipped order p taken_out a l in
        let r = cover-out a in let w = weight_zero (order + skipped) p a in omega arith;
    handed = update_self s.page p given;
    others = λ q c.
        let o = cover-out q in
        let w = weight_zero (order + skipped) p q in
        let h = pow_two_pos (order + skipped) in
        update_ne s.page p given q (λ e. absurd (ground arith))
        ∙ split-page skipped order p taken_out q (omega arith);
  }
    where
      given : Page
      given = record { order = order; flags = flags; refcount = 1 }

      taken_out : Zone
      taken_out = take_out (order + skipped) p z

      s : Zone
      s = split skipped order p taken_out

      paged : Zone
      paged = record s { page = update s.page p given }

      i : In p (z.free_list (order + skipped))
      i = subst (λ ps. In p ps) (sym e) (inl refl)

      cover-out :
          (a : ℕ)
          → cover 0 taken_out.free_list a + weight 0 (order + skipped) p a ≡ cover 0 z.free_list a
      cover-out a = cover-take_out 0 (order + skipped) p z a l i

  -- An empty list is passed over.
  wider :
      (rounds skipped : ℕ) (o : Option ℕ × Zone)
      → z.free_list (order + skipped) ≡ []
      → Searched rounds (suc skipped) order flags z held o
      → Searched (suc rounds) skipped order flags z held o
  wider rounds skipped (none, z') e (same, empty) = (
    same,
    λ k a b. elim (Bool-cases (k == order + skipped)) [
      | inl s ↦ let s' : k ≡ order + skipped = ground arith in ap (λ x. z.free_list x) s' ∙ e
      | inr s ↦ empty k (ground arith) (omega arith)
    ],
  )
  wider rounds skipped (some p, z') e a = a

  alloc_from_lem :
      (rounds skipped : ℕ)
      → order + skipped + rounds ≡ max_order
      → Searched rounds skipped order flags z held (alloc_from rounds skipped order flags z)
  unfolding alloc_from
  alloc_from_lem zero skipped l = (refl, λ k a b. absurd (omega arith))
  alloc_from_lem (suc rounds) skipped l =
      go (z.free_list (order + skipped)) refl (alloc_from_lem rounds (suc skipped) (omega arith))
    where
      go :
          (ps : List ℕ)
          → z.free_list (order + skipped) ≡ ps
          → Searched rounds
              (suc skipped)
              order
              flags
              z
              held
              (alloc_from rounds (suc skipped) order flags z)
          → Searched (suc rounds) skipped order flags z held (elim ps [
            | [] ↦ alloc_from rounds (suc skipped) order flags z
            | p ∷ rest ↦ (
              some p,
              hand_out order flags p (split skipped order p (take_out (order + skipped) p z)),
            )
          ])
      go [] e ih = wider rounds skipped (alloc_from rounds (suc skipped) order flags z) e ih
      go (p ∷ rest) e ih = found skipped p rest (omega arith) e

-- `page_alloc` of an order below MAX_ORDER, with flags without PG_BUDDY: when it returns a block, the
-- block was free, is aligned, and exactly its pages are no longer free; its first page has the order,
-- the flags and one reference, no page that was not free changes its fields, and the free and held
-- blocks are disjoint again. It returns NULL, and
-- changes nothing, only when every list of that order and above is empty.
pub page_alloc-Searched :
    (order flags : ℕ) (z : Zone) (held : List Block)
    → order < max_order
    → flags % 2 ≡ 0
    → IsZone z held
    → Searched (max_order - order) 0 order flags z held (page_alloc order flags z)
unfolding page_alloc
page_alloc-Searched order flags z held l plain zone =
    alloc_from_lem order flags plain z held zone (max_order - order) 0 (omega arith)

-- There is no list of an order of MAX_ORDER or more.
pub page_alloc_large :
    (order flags : ℕ) (z : Zone) → max_order ≤ order → page_alloc order flags z ≡ (none, z)
unfolding page_alloc alloc_from
page_alloc_large order flags z l = let e : max_order - order ≡ 0 = omega arith in rw e refl
