-- ===== src/Memory/Mmu/Unmap.antt =====
-- What `mmu_munmap` does to the addresses.
use wey_os.Base.{
  ℕ, zero, suc, ◌<◌, ◌≡◌, ◌≢◌, ◌⊎◌, inl, inr, refl, ap, sym, subst, ◌∙◌, ◌∷◌, true, false, none,
  some, ◌==◌, if◌then◌else◌, arith, Bool-cases, ==_iff,
}
use wey_os.Memory.Mmu.{
  Paging, is_present, pte_phys, bit, index_top, index_leaf, walk, mmu_translate, set_pte,
  empty_below, table_empty, walk_to, prune, unmap_page,
}

-- Every table of the second level hangs at one entry of the root, which is none of them, and there
-- are no large pages.
pub record IsTree (s : Paging) : Type 0 where
  pub small :
      (i : ℕ) → is_present (s.entry s.root i) ≡ true → (bit 7 (s.entry s.root i) == 1) ≡ false
  pub below : (i : ℕ) → is_present (s.entry s.root i) ≡ true → pte_phys (s.entry s.root i) ≢ s.root
  pub apart :
      (i j : ℕ)
      → is_present (s.entry s.root i) ≡ true
      → is_present (s.entry s.root j) ≡ true
      → pte_phys (s.entry s.root i) ≡ pte_phys (s.entry s.root j)
      → i ≡ j

-- What an address is mapped to, by its two indices.
abbrev pub mapped : (ℕ → ℕ → ℕ) → ℕ → ℕ → ℕ → ℕ
mapped entry root i j =
    let low = entry (pte_phys (entry root i)) j in
    if is_present (entry root i) then (if is_present low then pte_phys low else 0) else 0

module _ (s : Paging) (va : ℕ) where
  abbrev top : ℕ
  top = s.entry s.root (index_top va)

  abbrev low : ℕ
  low = s.entry (pte_phys top) (index_leaf va)

  walk-top : is_present top ≡ false → walk s va ≡ none
  unfolding walk
  walk-top n = rw n refl

  walk-low :
      is_present top ≡ true → (bit 7 top == 1) ≡ false → is_present low ≡ false → walk s va ≡ none
  unfolding walk
  walk-low y l n = rw (y, l, n) refl

  walk-found :
      is_present top ≡ true
      → (bit 7 top == 1) ≡ false
      → is_present low ≡ true
      → walk s va ≡ some (pte_phys top, index_leaf va)
  unfolding walk
  walk-found y l p = rw (y, l, p) refl

  translate-none : walk s va ≡ none → mmu_translate s va ≡ 0
  unfolding mmu_translate
  translate-none e = rw (e, mmu_translate) refl

  translate-some : (t i : ℕ) → walk s va ≡ some (t, i) → mmu_translate s va ≡ pte_phys (s.entry t i)
  unfolding mmu_translate
  translate-some t i e = rw (e, mmu_translate) refl

  pub translate-mapped :
      IsTree s → mmu_translate s va ≡ mapped s.entry s.root (index_top va) (index_leaf va)
  translate-mapped t = elim (Bool-cases (is_present top)) [
    | inr n ↦ translate-none (walk-top n) ∙ (rw n refl)
    | inl y ↦ elim (Bool-cases (is_present low)) [
      | inr n ↦ translate-none (walk-low y (t.small (index_top va) y) n) ∙ (rw (y, n) refl)
      | inl p ↦
          translate-some (pte_phys top) (index_leaf va) (walk-found y (t.small (index_top va) y) p)
          ∙ (rw (y, p) refl)
    ]
  ]

-- An empty table has no entry that is present.
empty_below-none :
    (n : ℕ) (e : ℕ → ℕ) → empty_below n e ≡ true → (i : ℕ) → i < n → is_present (e i) ≡ false
unfolding empty_below
empty_below-none zero e h i l = absurd (omega arith)
empty_below-none (suc n) e h i l = elim (Bool-cases (is_present (e n))) [
  | inl y ↦ absurd (cc (rw y at h))
  | inr y ↦ elim (Bool-cases (i == n)) [
    | inl q ↦ ap (λ k. is_present (e k)) ((==_iff i n).0 q) ∙ y
    | inr q ↦ empty_below-none n e (rw y at h) i (ground arith)
  ]
]

entry-set_pte_self : (t i v : ℕ) (s : Paging) → (set_pte t i v s).entry t i ≡ v
unfolding set_pte
entry-set_pte_self t i v s =
    let a : (t == t) ≡ true = ground arith in
    let b : (i == i) ≡ true = ground arith in rw (a, b) refl

entry-set_pte_ne :
    (t i v : ℕ) (s : Paging) (u j : ℕ)
    → (u ≢ t) ⊎ (j ≢ i)
    → (set_pte t i v s).entry u j ≡ s.entry u j
unfolding set_pte
entry-set_pte_ne t i v s u j (inl n) = let a : (u == t) ≡ false = ground arith in rw a refl
entry-set_pte_ne t i v s u j (inr n) = elim (Bool-cases (u == t)) [
  | inl y ↦ let b : (j == i) ≡ false = ground arith in rw (y, b) refl
  | inr y ↦ rw y refl
]

differs : (i j : ℕ) → (i == j) ≡ false → i ≢ j
differs i j y q = absurd (ground arith)

-- The entries on the way decide.
mapped-kept :
    (e e' : ℕ → ℕ → ℕ) (r i j : ℕ)
    → e' r i ≡ e r i
    → (is_present (e r i) ≡ true → e' (pte_phys (e r i)) j ≡ e (pte_phys (e r i)) j)
    → mapped e' r i j ≡ mapped e r i j
mapped-kept e e' r i j k l = elim (Bool-cases (is_present (e r i))) [
  | inr n ↦ rw (k, n) refl
  | inl y ↦ let m = l y in rw (k, m) refl
]

mapped-none : (e : ℕ → ℕ → ℕ) (r i j : ℕ) → is_present (e r i) ≡ false → mapped e r i j ≡ 0
mapped-none e r i j n = rw n refl

mapped-low :
    (e : ℕ → ℕ → ℕ) (r i j : ℕ) → is_present (e (pte_phys (e r i)) j) ≡ false → mapped e r i j ≡ 0
mapped-low e r i j n = elim (Bool-cases (is_present (e r i))) [
  | inr y ↦ rw y refl
  | inl y ↦ rw (y, n) refl
]

-- Entries of the root may go.
IsTree-kept :
    (s s' : Paging)
    → s'.root ≡ s.root
    → ((i : ℕ) → (s'.entry s.root i ≡ s.entry s.root i) ⊎ (is_present (s'.entry s.root i) ≡ false))
    → IsTree s
    → IsTree s'
IsTree-kept s s' r k t = record {
  small = λ i p.
      let q = same i (rw r at p) in rw (r, q) (t.small i (sym (ap is_present q) ∙ (rw r at p)));
  below = λ i p.
      let q = same i (rw r at p) in rw (r, q) (t.below i (sym (ap is_present q) ∙ (rw r at p)));
  apart = λ i j p p' e.
      let q = same i (rw r at p) in
      let q' = same j (rw r at p') in
      t.apart i j (sym (ap is_present q) ∙ (rw r at p)) (sym (ap is_present q') ∙ (rw r at p'))
        (sym (ap pte_phys q) ∙ (rw r at e) ∙ ap pte_phys q');
}
  where
    same : (i : ℕ) → is_present (s'.entry s.root i) ≡ true → s'.entry s.root i ≡ s.entry s.root i
    same i p = elim (k i) [ inl e ↦ e | inr n ↦ absurd (cc (rw n at p)) ]

module _ (s : Paging) (t : IsTree s) (i₀ j₀ : ℕ)
    (present : is_present (s.entry s.root i₀) ≡ true) where
  abbrev table : ℕ
  table = pte_phys (s.entry s.root i₀)

  abbrev cleared : Paging
  cleared = set_pte table j₀ 0 s

  cleared-root : (i : ℕ) → cleared.entry s.root i ≡ s.entry s.root i
  cleared-root i = entry-set_pte_ne table j₀ 0 s s.root i (inl (λ e. t.below i₀ present (sym e)))

  cleared-gone : mapped cleared.entry s.root i₀ j₀ ≡ 0
  cleared-gone = mapped-low cleared.entry s.root i₀ j₀ (
      ap (λ e. is_present (cleared.entry (pte_phys e) j₀)) (cleared-root i₀)
      ∙ ap is_present (entry-set_pte_self table j₀ 0 s))

  cleared-other :
      (i j : ℕ) → (i ≢ i₀) ⊎ (j ≢ j₀) → mapped cleared.entry s.root i j ≡ mapped s.entry s.root i j
  cleared-other i j n =
      mapped-kept s.entry cleared.entry s.root i j (cleared-root i)
        (λ p. entry-set_pte_ne table j₀ 0 s (pte_phys (s.entry s.root i)) j (differ p n))
    where
      differ :
          is_present (s.entry s.root i) ≡ true
          → (i ≢ i₀) ⊎ (j ≢ j₀)
          → (pte_phys (s.entry s.root i) ≢ table) ⊎ (j ≢ j₀)
      differ p (inl m) = inl (λ e. m (t.apart i i₀ p present e))
      differ p (inr m) = inr m

  cleared-IsTree : IsTree cleared
  unfolding set_pte
  cleared-IsTree = IsTree-kept s cleared refl (λ i. inl (cleared-root i)) t

module _ (s : Paging) (t : IsTree s) (va : ℕ)
    (present : is_present (s.entry s.root (index_top va)) ≡ true) where
  abbrev hung : ℕ
  hung = pte_phys (s.entry s.root (index_top va))

  abbrev cut_off : Paging
  cut_off = set_pte s.root (index_top va) 0 s

  cut_off-mapped :
      table_empty hung s ≡ true
      → (i j : ℕ) → j < 1024
      → mapped cut_off.entry s.root i j ≡ mapped s.entry s.root i j
  unfolding table_empty
  cut_off-mapped e i j l = elim (Bool-cases (i == index_top va)) [
    | inl y ↦
        let q = (==_iff i (index_top va)).0 y in
        rw q (
          mapped-none cut_off.entry s.root (index_top va) j
            (ap is_present (entry-set_pte_self s.root (index_top va) 0 s))
          ∙ sym (
              mapped-low s.entry s.root (index_top va) j
                (empty_below-none 1024 (s.entry hung) e j l)))
    | inr y ↦
        let n : i ≢ index_top va = differs i (index_top va) y in
        mapped-kept s.entry cut_off.entry s.root i j
          (entry-set_pte_ne s.root (index_top va) 0 s s.root i (inr n))
          (λ p.
            entry-set_pte_ne s.root (index_top va) 0 s (pte_phys (s.entry s.root i)) j
              (inl (t.below i p)))
  ]

  cut_off-IsTree : IsTree cut_off
  unfolding set_pte
  cut_off-IsTree = IsTree-kept s cut_off refl left t
    where
      left :
          (i : ℕ)
          → (cut_off.entry s.root i ≡ s.entry s.root i)
            ⊎ (is_present (cut_off.entry s.root i) ≡ false)
      left i = elim (Bool-cases (i == index_top va)) [
        | inl y ↦
            let q = (==_iff i (index_top va)).0 y in
            inr (rw q (ap is_present (entry-set_pte_self s.root (index_top va) 0 s)))
        | inr y ↦
            inl (
              entry-set_pte_ne s.root (index_top va) 0 s s.root i
                (inr (differs i (index_top va) y)))
      ]

  -- Whether the table goes or stays, no address is mapped otherwise.
  prune-same :
      IsTree (prune hung va s)
      × ((prune hung va s).root ≡ s.root)
      × ((i j : ℕ)
          → j < 1024
          → mapped (prune hung va s).entry s.root i j ≡ mapped s.entry s.root i j)
  unfolding prune set_pte
  prune-same = elim (Bool-cases (table_empty hung s)) [
    | inl y ↦ rw y (
      IsTree-kept cut_off (record cut_off { put_back = hung ∷ s.put_back }) refl (λ i. inl refl)
          cut_off-IsTree,
      refl,
      cut_off-mapped y,
    )
    | inr n ↦ rw n (t, refl, (λ i j l. refl))
  ]

-- What `prune` leaves of the tables of `s`, in `mid`.
abbrev pub Pruned : ℕ → ℕ → Paging → Paging → Type 0
Pruned h va s mid =
    IsTree (prune h va mid)
    × ((prune h va mid).root ≡ s.root)
    × ((i j : ℕ)
        → j < 1024
        → mapped (prune h va mid).entry s.root i j ≡ mapped mid.entry s.root i j)

-- One page is unmapped.
pub record Unmapped (va : ℕ) (s s' : Paging) : Type 0 where
  pub tree : IsTree s'
  pub same_root : s'.root ≡ s.root
  pub gone : mapped s'.entry s.root (index_top va) (index_leaf va) ≡ 0
  pub others :
      (i j : ℕ)
      → j < 1024
      → (i ≢ index_top va) ⊎ (j ≢ index_leaf va)
      → mapped s'.entry s.root i j ≡ mapped s.entry s.root i j

module _ (va : ℕ) (s : Paging) where
  walk_to-top : is_present (top s va) ≡ false → walk_to s va ≡ none
  unfolding walk_to
  walk_to-top n = rw n refl

  walk_to-low : is_present (top s va) ≡ true → is_present (low s va) ≡ false → walk_to s va ≡ none
  unfolding walk_to
  walk_to-low y n = rw (y, n) refl

  walk_to-found :
      is_present (top s va) ≡ true
      → is_present (low s va) ≡ true
      → walk_to s va ≡ some (pte_phys (top s va))
  unfolding walk_to
  walk_to-found y p = rw (y, p) refl

  unmap_none : walk_to s va ≡ none → unmap_page va s ≡ s
  unfolding unmap_page
  unmap_none e = rw (e, unmap_page) refl

  unmap_some :
      (t : ℕ) → walk_to s va ≡ some t → unmap_page va s ≡ prune t va (set_pte t (index_leaf va) 0 s)
  unfolding unmap_page
  unmap_some t e = rw (e, unmap_page) refl

  -- The table that lost an entry stays or goes.
  cleared-Pruned :
      IsTree s
      → is_present (top s va) ≡ true
      → Pruned (pte_phys (top s va)) va s (set_pte (pte_phys (top s va)) (index_leaf va) 0 s)
  unfolding set_pte
  cleared-Pruned t y =
      let mid = set_pte (pte_phys (top s va)) (index_leaf va) 0 s in
      let k = cleared-root s t (index_top va) (index_leaf va) y (index_top va) in
      subst (λ h. Pruned h va s mid) (ap pte_phys k)
        (prune-same mid (cleared-IsTree s t (index_top va) (index_leaf va) y) va
          (ap is_present k ∙ y))

  nothing-Unmapped :
      IsTree s → mapped s.entry s.root (index_top va) (index_leaf va) ≡ 0 → Unmapped va s s
  nothing-Unmapped t g = record { tree = t; same_root = refl; gone = g; others = λ i j l d. refl }

  found-Unmapped :
      IsTree s
      → is_present (top s va) ≡ true
      → Unmapped va s
          (prune (pte_phys (top s va)) va (set_pte (pte_phys (top s va)) (index_leaf va) 0 s))
  found-Unmapped t y = record {
    tree = q.0;
    same_root = q.1;
    gone =
        (q.2 (index_top va) (index_leaf va) (omega arith))
        ∙ cleared-gone s t (index_top va) (index_leaf va) y;
    others = λ i j l d. q.2 i j l ∙ cleared-other s t (index_top va) (index_leaf va) y i j d;
  }
    where
      q : Pruned (pte_phys (top s va)) va s (set_pte (pte_phys (top s va)) (index_leaf va) 0 s)
      q = cleared-Pruned t y

-- One page of `mmu_munmap`.
pub unmap_page-Unmapped : (va : ℕ) (s : Paging) → IsTree s → Unmapped va s (unmap_page va s)
unmap_page-Unmapped va s t = elim (Bool-cases (is_present (top s va))) [
  | inr n ↦
      subst (Unmapped va s) (sym (unmap_none va s (walk_to-top va s n)))
        (nothing-Unmapped va s t (mapped-none s.entry s.root (index_top va) (index_leaf va) n))
  | inl y ↦ elim (Bool-cases (is_present (low s va))) [
    | inr n ↦
        subst (Unmapped va s) (sym (unmap_none va s (walk_to-low va s y n)))
          (nothing-Unmapped va s t (mapped-low s.entry s.root (index_top va) (index_leaf va) n))
    | inl p ↦
        subst (Unmapped va s) (sym (unmap_some va s (pte_phys (top s va)) (walk_to-found va s y p)))
          (found-Unmapped va s t y)
  ]
]
