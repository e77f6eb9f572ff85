-- ===== src/Memory/Page/Init/Complete.antt =====
-- `page_init` leaves out no page of a region that it may use.
use wey_os.Base.{
  ℕ, zero, suc, ◌+◌, ◌-◌, ◌%◌, ◌^◌, ◌≤◌, ◌<◌, ◌≡◌, inl, inr, refl, sym, ◌∙◌, true, false, ltb, ◌==◌,
  arith, Bool-cases,
}
use wey_os.Base.Bits.{pow_two_pos}
use wey_os.Memory.Memblock.{Memblock}
use wey_os.Memory.Page.{Zone, max_order, ulong_mod, put}
use wey_os.Memory.Page.Cover.{cover}
use wey_os.Memory.Page.Moves.{cover-cons, update_ne}
use wey_os.Memory.Page.Init.{pfn_is_reserved, grow, set_reserved, add_block, init_pfns}
use wey_os.Memory.Page.Init.Sound.{IsFit, first-IsFit}

-- What filling the pages from `pfn` to `end` makes of a zone `z`; `z0` is the zone before the call.
pub record Filled (m : Memblock) (z0 : Zone) (pfn end : ℕ) (z z' : Zone) : Type 0 where
  pub grows : (a : ℕ) → cover 0 z.free_list a ≤ cover 0 z'.free_list a
  pub fresh : (a : ℕ) → end ≤ a → z'.page a ≡ z0.page a
  pub complete :
      (a : ℕ) → pfn ≤ a → a < end → pfn_is_reserved m z0 a ≡ false → 0 < cover 0 z'.free_list a

pub pfn_is_reserved-page :
    (m : Memblock) (z z0 : Zone) (a : ℕ)
    → z.page a ≡ z0.page a
    → pfn_is_reserved m z a ≡ pfn_is_reserved m z0 a
unfolding pfn_is_reserved
pfn_is_reserved-page m z z0 a e = rw e refl

-- One round, and then the others.
module _ (m : Memblock) (z0 : Zone) (end pfn : ℕ) (z z' : Zone) where
  reserved-Filled :
      pfn_is_reserved m z0 pfn ≡ true
      → Filled m z0 (pfn + 1) end (set_reserved pfn z) z'
      → Filled m z0 pfn end z z'
  unfolding set_reserved
  reserved-Filled r f = record {
    grows = f.grows;
    fresh = f.fresh;
    complete = λ a l u n. elim (Bool-cases (pfn == a)) [
      | inl e ↦ let s : pfn ≡ a = ground arith in absurd (let r' = (rw s at r) in ground arith)
      | inr e ↦ f.complete a (ground arith) u n
    ];
  }

  block-Filled :
      (k : ℕ)
      → k < max_order
      → Filled m z0 (pfn + 2 ^ k) end (add_block k pfn z) z'
      → Filled m z0 pfn end z z'
  unfolding add_block put
  block-Filled k small f = record {
    grows = λ a. let g = f.grows a in let c = cover-cons 0 z.free_list k pfn a small in omega arith;
    fresh = f.fresh;
    complete = λ a l u n. elim (Bool-cases (ltb a (pfn + 2 ^ k))) [
      | inl e ↦ let g = f.grows a in let c = cover-cons 0 z.free_list k pfn a small in ground arith
      | inr e ↦ f.complete a (ground arith) u n
    ];
  }

-- The pages behind the one that a round changes.
reserved_fresh :
    (z0 : Zone) (pfn : ℕ) (z : Zone)
    → ((a : ℕ) → pfn ≤ a → z.page a ≡ z0.page a)
    → (a : ℕ) → pfn + 1 ≤ a
    → (set_reserved pfn z).page a ≡ z0.page a
unfolding set_reserved
reserved_fresh z0 pfn z s a l =
    update_ne z.page pfn _ a (λ e. absurd (omega arith)) ∙ s a (omega arith)

block_fresh :
    (z0 : Zone) (pfn k : ℕ) (z : Zone)
    → ((a : ℕ) → pfn ≤ a → z.page a ≡ z0.page a)
    → (a : ℕ) → pfn + 2 ^ k ≤ a
    → (add_block k pfn z).page a ≡ z0.page a
unfolding add_block put
block_fresh z0 pfn k z s a l =
    let p = pow_two_pos k in
    update_ne z.page pfn _ a (λ e. absurd (omega arith)) ∙ s a (omega arith)

-- The loop over the pages of a region.
pub init_pfns-Filled :
    (fuel : ℕ) (m : Memblock) (z0 : Zone) (end pfn : ℕ) (z : Zone)
    → end + 1024 < ulong_mod
    → pfn ≤ end
    → end ≤ pfn + fuel
    → ((a : ℕ) → pfn ≤ a → z.page a ≡ z0.page a)
    → Filled m z0 pfn end z (init_pfns fuel m end pfn z)
unfolding init_pfns
init_pfns-Filled zero m z0 end pfn z e l u s = record {
  grows = λ a. omega arith;
  fresh = λ a c. s a (omega arith);
  complete = λ a b c. absurd (omega arith);
}
init_pfns-Filled (suc fuel) m z0 end pfn z e l u s = elim (Bool-cases (ltb pfn end)) [
  | inr x ↦ rw x (record {
    grows = λ a. omega arith;
    fresh = λ a c. s a (omega arith);
    complete = λ a b c. absurd (ground arith);
  })
  | inl x ↦ elim (Bool-cases (pfn_is_reserved m z pfn)) [
    | inl y ↦
        rw (x, y)
          (reserved-Filled m z0 end pfn z _
            (sym (pfn_is_reserved-page m z z0 pfn (s pfn (omega arith))) ∙ y)
            (init_pfns-Filled fuel m z0 end (pfn + 1) (set_reserved pfn z) e (ground arith)
              (omega arith) (reserved_fresh z0 pfn z s)))
    | inr y ↦
        let order = grow (max_order - 1) m z end pfn 0 in
        let f : IsFit m end pfn order = first-IsFit m z end pfn e (ground arith) y in
        let p = pow_two_pos order in
        let w = f.within in
        let q : (pfn + 2 ^ order) % ulong_mod ≡ pfn + 2 ^ order = ground arith in
        rw (x, y, q)
          (block-Filled m z0 end pfn z _ order f.small (
            init_pfns-Filled fuel m z0 end (pfn + 2 ^ order) (add_block order pfn z) e w
              (omega arith) (block_fresh z0 pfn order z s)))
  ]
]
