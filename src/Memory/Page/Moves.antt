-- ===== src/Memory/Page/Moves.antt =====
-- What the lists and the fields of a page say after one block was put in or taken out.
use wey_os.Base.{
  ℕ, ◌+◌, ◌≤◌, ◌<◌, ◌≡◌, ◌≢◌, ◌⊎◌, inl, inr, refl, ap, subst, sym, ◌∙◌, true, false, List, [], ◌∷◌,
  ◌==◌, arith, Bool-cases, All, In,
}
use wey_os.Base.Bits.{pow_two_pos}
use wey_os.Memory.Page.{Zone, max_order, update, remove, is_buddy}
use wey_os.Memory.Page.Cover.{inside, weight, cover, weights-remove, cover-update}
use wey_os.Memory.Page.Blocks.{
  Block, held_cover, IsFree, IsHeld, HasHand, In-cover, In-remove, In-remove_ne,
}

-- A list with one block more, and with one less.
pub cover-cons :
    (lo : ℕ) (lists : ℕ → List ℕ) (k p a : ℕ)
    → k < max_order
    → cover lo (update lists k (p ∷ lists k)) a ≡ cover lo lists a + weight lo k p a
cover-cons lo lists k p a h = omega (arith, cover-update lo lists k (p ∷ lists k) a h)

pub cover-remove :
    (lo : ℕ) (lists : ℕ → List ℕ) (k p a : ℕ)
    → k < max_order
    → In p (lists k)
    → cover lo (update lists k (remove p (lists k))) a + weight lo k p a ≡ cover lo lists a
cover-remove lo lists k p a h i =
    omega
      (arith, cover-update lo lists k (remove p (lists k)) a h, weights-remove lo k p (lists k) a i)

-- A block holds its first page.
pub inside_self : (k p : ℕ) → inside k p p ≡ 1
inside_self k p = let e = pow_two_pos k in ground arith

module _ (z : Zone) (held : List Block) (k h : ℕ) (hand : HasHand z held k h) where
  -- No free block starts at a page of the block in hand.
  pub free_ne : (j p u : ℕ) → j < max_order → In p (z.free_list j) → inside k h u ≡ 1 → p ≢ u
  free_ne j p u l i e s =
      let c = In-cover 0 z.free_list j p p l i in
      let d = hand.disjoint p in
      let o = inside_self j p in let e' : inside k h p ≡ 1 = rw s e in ground arith

-- Nor does a held block start there.
pub held_ne :
    (k h : ℕ) (bs : List Block)
    → ((a : ℕ) → held_cover 0 bs a + inside k h a ≤ 1)
    → (u : ℕ) → inside k h u ≡ 1
    → All (λ b. b.1 ≢ u) bs
held_ne k h [] d u e = tt
held_ne k h ((j, p) ∷ bs) d u e = (
  (λ s.
      let o = inside_self j p in let c = d p in let e' : inside k h p ≡ 1 = rw s e in ground arith),
  held_ne k h bs (λ a. let c = d a in ground arith) u e,
)

pub IsFree-kept : (z z' : Zone) (k p : ℕ) → z'.page p ≡ z.page p → IsFree z k p → IsFree z' k p
IsFree-kept z z' k p e f = record {
  aligned = f.aligned;
  marked = ap (λ x. is_buddy x) e ∙ f.marked;
  sized = ap (λ x. x.order) e ∙ f.sized;
}

pub IsHeld-kept : (z z' : Zone) (b : Block) → z'.page b.1 ≡ z.page b.1 → IsHeld z b → IsHeld z' b
IsHeld-kept z z' b e f = record {
  aligned = f.aligned;
  small = f.small;
  unmarked = ap (λ x. is_buddy x) e ∙ f.unmarked;
  sized = ap (λ x. x.order) e ∙ f.sized;
}

-- A change of the fields of one page that no held block starts at.
pub IsHeld-each_kept :
    (z z' : Zone) (u : ℕ) (bs : List Block)
    → ((p : ℕ) → p ≢ u → z'.page p ≡ z.page p)
    → All (λ b. b.1 ≢ u) bs
    → All (IsHeld z) bs
    → All (IsHeld z') bs
IsHeld-each_kept z z' u [] e n v = tt
IsHeld-each_kept z z' u (b ∷ bs) e n v =
    (IsHeld-kept z z' b (e b.1 n.0) v.0, IsHeld-each_kept z z' u bs e n.1 v.1)

pub update_ne {ℓ} : {A : Type ℓ} (f : ℕ → A) (i : ℕ) (v : A) (j : ℕ) → j ≢ i → update f i v j ≡ f j
update_ne f i v j n = let e : (i == j) ≡ false = ground arith in rw e refl

pub update_self {ℓ} : {A : Type ℓ} (f : ℕ → A) (i : ℕ) (v : A) → update f i v i ≡ v
update_self f i v = let e : (i == i) ≡ true = ground arith in rw e refl

-- No field of a page changes.
pub IsHeld-each_same :
    (z z' : Zone) (bs : List Block)
    → ((p : ℕ) → z'.page p ≡ z.page p)
    → All (IsHeld z) bs
    → All (IsHeld z') bs
IsHeld-each_same z z' [] e v = tt
IsHeld-each_same z z' (b ∷ bs) e v =
    (IsHeld-kept z z' b (e b.1) v.0, IsHeld-each_same z z' bs e v.1)

-- What stands in a list that one block was put in.
pub In-cons :
    (lists : ℕ → List ℕ) (c u j p : ℕ)
    → In p (update lists c (u ∷ lists c) j)
    → ((p ≡ u) × (j ≡ c)) ⊎ In p (lists j)
In-cons lists c u j p i = elim (Bool-cases (c == j)) [
  | inl e ↦
      let s : c ≡ j = ground arith in
      let i' : (p ≡ u) ⊎ In p (lists c) = rw e at i in
      elim i' [ inl f ↦ inl (f, sym s) | inr f ↦ inr (subst (λ x. In p (lists x)) s f) ]
  | inr e ↦ inr (rw e at i)
]

pub In-grows :
    (lists : ℕ → List ℕ) (c u j p : ℕ) → In p (lists j) → In p (update lists c (u ∷ lists c) j)
In-grows lists c u j p i = elim (Bool-cases (c == j)) [
  | inl e ↦ let s : c ≡ j = ground arith in rw e (inr (subst (λ x. In p (lists x)) (sym s) i))
  | inr e ↦ rw e i
]

pub In-new : (lists : ℕ → List ℕ) (c u : ℕ) → In u (update lists c (u ∷ lists c) c)
In-new lists c u = let e : (c == c) ≡ true = ground arith in rw e (inl refl)

-- What stands in the lists when one block was taken out.
pub In-out :
    (lists : ℕ → List ℕ) (k h j p : ℕ)
    → In p (update lists k (remove h (lists k)) j)
    → In p (lists j)
In-out lists k h j p i = elim (Bool-cases (k == j)) [
  | inl e ↦
      let s : k ≡ j = ground arith in
      let i' : In p (remove h (lists k)) = rw e at i in
      subst (λ x. In p (lists x)) s (In-remove p h (lists k) i')
  | inr e ↦ rw e at i
]

pub In-stays :
    (lists : ℕ → List ℕ) (k h j p : ℕ)
    → p ≢ h
    → In p (lists j)
    → In p (update lists k (remove h (lists k)) j)
In-stays lists k h j p n i = elim (Bool-cases (k == j)) [
  | inl e ↦
      let s : k ≡ j = ground arith in
      rw e (In-remove_ne p h (lists k) n (subst (λ x. In p (lists x)) (sym s) i))
  | inr e ↦ rw e i
]
