-- ===== src/Memory/Page/Init/Sound.antt =====
-- What `page_init` makes is in order, and holds no reserved page.
use wey_os.Base.{
  ℕ, zero, suc, ◌+◌, ◌-◌, ◌*◌, ◌/◌, ◌%◌, ◌^◌, ◌≤◌, ◌<◌, ◌≡◌, inl, inr, subst, sym, Bool, true,
  false, ◌&&◌, [], ◌∷◌, ltb, leb, ◌==◌, arith, Bool-cases,
}
use native.Mathlib.Nat.{div-add-mod'}
use wey_os.Base.Bits.{pow_two_pos, pow_two_mono}
use wey_os.Memory.Memblock.{Memblock, is_reserved}
use wey_os.Memory.Page.{Page, Zone, max_order, ulong_mod, update, put, is_buddy}
use wey_os.Memory.Page.Cover.{cover, IsAligned}
use wey_os.Memory.Page.Blocks.{IsListed, IsZone, HasHand}
use wey_os.Memory.Page.Hands.{put-IsZone, recount-IsZone}
use wey_os.Memory.Page.Moves.{cover-cons, update_self, update_ne, IsFree-kept, free_ne, inside_self}
use wey_os.Memory.Page.Init.{
  page_size, pfn_is_reserved, pfn_range_reserved, grow, set_reserved, add_block, init_pfns,
}

-- What memblock says of a page.
abbrev pub reserved_at : Memblock → ℕ → Bool
reserved_at m a = is_reserved m (a * page_size % ulong_mod) page_size

pfn_is_reserved-false :
    (m : Memblock) (z : Zone) (a : ℕ) → pfn_is_reserved m z a ≡ false → reserved_at m a ≡ false
unfolding pfn_is_reserved
pfn_is_reserved-false m z a h = ground arith

pfn_range_reserved-false :
    (m : Memblock) (z : Zone) (start n a : ℕ)
    → pfn_range_reserved m z start n ≡ false
    → start ≤ a
    → a < start + n
    → reserved_at m a ≡ false
unfolding pfn_range_reserved
pfn_range_reserved-false m z start zero a h l u = absurd (omega arith)
pfn_range_reserved-false m z start (suc n) a h l u = elim (Bool-cases (pfn_is_reserved m z start)) [
  | inl r ↦ absurd (let h' : true ≡ false = rw r at h in ground arith)
  | inr r ↦ elim (Bool-cases (start == a)) [
    | inl e ↦ let s : start ≡ a = ground arith in pfn_is_reserved-false m z a (rw s at r)
    | inr e ↦ pfn_range_reserved-false m z (start + 1) n a (rw r at h) (ground arith) (omega arith)
  ]
]

multiple : (a n : ℕ) → a % n == 0 ≡ true → a ≡ a / n * n
multiple a n h = let d = div-add-mod' a n in ground arith

-- A block that may be made free.
pub record IsFit (m : Memblock) (end pfn k : ℕ) : Type 0 where
  pub small : k < max_order
  pub aligned : IsAligned k pfn
  pub within : pfn + 2 ^ k ≤ end
  pub unreserved : (a : ℕ) → pfn ≤ a → a < pfn + 2 ^ k → reserved_at m a ≡ false

grow-IsFit :
    (rounds : ℕ) (m : Memblock) (z : Zone) (end pfn k : ℕ)
    → k + rounds < max_order
    → end + 1024 < ulong_mod
    → IsFit m end pfn k
    → IsFit m end pfn (grow rounds m z end pfn k)
unfolding grow
grow-IsFit zero m z end pfn k l e f = f
grow-IsFit (suc rounds) m z end pfn k l e f =
    elim (Bool-cases (ltb end ((pfn + 2 ^ suc k) % ulong_mod))) [
      | inl x ↦ rw x f
      | inr x ↦ elim (Bool-cases (pfn % 2 ^ suc k == 0)) [
        | inr y ↦ rw (x, y) f
        | inl y ↦ elim (Bool-cases (pfn_range_reserved m z pfn (2 ^ suc k))) [
          | inl w ↦ rw (x, y, w) f
          | inr w ↦
              rw (x, y, w)
                (grow-IsFit rounds m z end pfn (suc k) (omega arith) e (record {
                  small = omega arith;
                  aligned = (pfn / 2 ^ suc k, multiple pfn (2 ^ suc k) y);
                  within =
                      let p = pow_two_mono (suc k) 10 (omega arith) in
                      let q = f.within in ground arith;
                  unreserved = λ a b c. pfn_range_reserved-false m z pfn (2 ^ suc k) a w b c;
                }))
        ]
      ]
    ]

-- The block that the loop over the orders finds, from a page that is not reserved on.
pub first-IsFit :
    (m : Memblock) (z : Zone) (end pfn : ℕ)
    → end + 1024 < ulong_mod
    → pfn < end
    → pfn_is_reserved m z pfn ≡ false
    → IsFit m end pfn (grow (max_order - 1) m z end pfn 0)
first-IsFit m z end pfn e x y = grow-IsFit (max_order - 1) m z end pfn 0 (omega arith) e (record {
  small = omega arith;
  aligned = (pfn, omega arith);
  within = omega arith;
  unreserved = λ a c d.
      let t : pfn ≡ a = omega arith in
      subst (λ x. reserved_at m x ≡ false) t (pfn_is_reserved-false m z pfn y);
})

-- Nothing from `low` on is free.
abbrev pub IsBelow : Zone → ℕ → Type 0
IsBelow z low = (a : ℕ) → low ≤ a → cover 0 z.free_list a ≡ 0

-- What holds of the zone while it is filled.
pub record IsSound (m : Memblock) (z : Zone) : Type 0 where
  pub zone : IsZone z []
  pub unreserved : (a : ℕ) → 0 < cover 0 z.free_list a → reserved_at m a ≡ false

module _ (m : Memblock) (z : Zone) (sound : IsSound m z) (end pfn : ℕ) (below : IsBelow z pfn) where
  -- A block from `pfn` on comes into hand.
  fresh-HasHand : (k : ℕ) → k < max_order → IsAligned k pfn → HasHand z [] k pfn
  fresh-HasHand k small al = record {
    free_blocks = sound.zone.free_blocks;
    held_blocks = tt;
    hand_small = small;
    hand_aligned = al;
    disjoint = λ a. let d = sound.zone.disjoint a in let b = below a in ground arith;
    listed = λ q n b. widened q (z.page q) (sound.zone.listed q b);
  }
    where
      widened :
          (q : ℕ) (pg : Page)
          → IsListed z.free_list [] q pg
          → IsListed z.free_list ((k, pfn) ∷ []) q pg
      widened q pg (a, inl i) = (a, inl i)
      widened q pg (a, inr w) = (a, inr (omega arith))

  add_block-IsSound :
      (k : ℕ)
      → IsFit m end pfn k
      → IsSound m (add_block k pfn z) × IsBelow (add_block k pfn z) (pfn + 2 ^ k)
  unfolding add_block put
  add_block-IsSound k f = (
    record {
      zone = recount-IsZone _ _ [] (put-IsZone z [] k pfn (fresh-HasHand k f.small f.aligned));
      unreserved = λ a c. elim (Bool-cases (leb pfn a && ltb a (pfn + 2 ^ k))) [
        | inl e ↦ f.unreserved a (ground arith) (ground arith)
        | inr e ↦
            let g = cover-cons 0 z.free_list k pfn a f.small in sound.unreserved a (ground arith)
      ];
    },
    λ a l.
        let g = cover-cons 0 z.free_list k pfn a f.small in
        let b = below a (let p = pow_two_pos k in omega arith) in ground arith,
  )

  set_reserved-IsSound : IsSound m (set_reserved pfn z) × IsBelow (set_reserved pfn z) (pfn + 1)
  unfolding set_reserved
  set_reserved-IsSound = (
    record {
      zone = record {
        free_blocks = λ j p l i.
            IsFree-kept z (set_reserved pfn z) j p
              (update_ne z.page pfn kept p (
                free_ne z [] 0 pfn (fresh-HasHand 0 (omega arith) (pfn, omega arith)) j p pfn l i
                  (inside_self 0 pfn)))
              (sound.zone.free_blocks j p l i);
        held_blocks = tt;
        disjoint = sound.zone.disjoint;
        listed = marked;
      };
      unreserved = sound.unreserved;
    },
    λ a l. below a (omega arith),
  )
    where
      kept : Page
      kept = record { order = (z.page pfn).order; flags = 2; refcount = (z.page pfn).refcount }

      unmarked : is_buddy (update z.page pfn kept pfn) ≡ true → ⊥
      unmarked b =
          let b' : is_buddy kept ≡ true = rw (update_self z.page pfn kept) at b in ground arith

      marked :
          (q : ℕ)
          → is_buddy (update z.page pfn kept q) ≡ true
          → IsListed z.free_list [] q (update z.page pfn kept q)
      marked q b = elim (Bool-cases (pfn == q)) [
        | inl e ↦
            let s : pfn ≡ q = ground arith in
            absurd (unmarked (subst (λ x. is_buddy (update z.page pfn kept x) ≡ true) (sym s) b))
        | inr e ↦
            let f = update_ne z.page pfn kept q (λ s. absurd (ground arith)) in
            subst (λ x. IsListed z.free_list [] q x) (sym f) (sound.zone.listed q (rw f at b))
      ]

-- The loop over the pages of a region.
pub init_pfns-IsSound :
    (fuel : ℕ) (m : Memblock) (end pfn : ℕ) (z : Zone)
    → end + 1024 < ulong_mod
    → pfn ≤ end
    → end ≤ pfn + fuel
    → IsSound m z
    → IsBelow z pfn
    → IsSound m (init_pfns fuel m end pfn z) × IsBelow (init_pfns fuel m end pfn z) end
unfolding init_pfns
init_pfns-IsSound zero m end pfn z e l u s b = (s, λ a c. b a (omega arith))
init_pfns-IsSound (suc fuel) m end pfn z e l u s b = elim (Bool-cases (ltb pfn end)) [
  | inr x ↦ rw x (s, λ a c. b a (ground arith))
  | inl x ↦ elim (Bool-cases (pfn_is_reserved m z pfn)) [
    | inl y ↦
        let (s', b') = set_reserved-IsSound m z s end pfn b in
        rw (x, y) (init_pfns-IsSound fuel m end (pfn + 1) _ e (ground arith) (omega arith) s' b')
    | inr y ↦
        let order = grow (max_order - 1) m z end pfn 0 in
        let f : IsFit m end pfn order = first-IsFit m z end pfn e (ground arith) y in
        let (s', b') = add_block-IsSound m z s end pfn b order f in
        let p = pow_two_pos order in
        let w = f.within in
        let q : (pfn + 2 ^ order) % ulong_mod ≡ pfn + 2 ^ order = ground arith in
        rw (x, y, q) (init_pfns-IsSound fuel m end (pfn + 2 ^ order) _ e w (omega arith) s' b')
  ]
]
