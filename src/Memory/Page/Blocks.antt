-- ===== src/Memory/Page/Blocks.antt =====
-- The invariant of the buddy lists: free and held blocks are aligned and disjoint, and the fields of
-- a page say which block starts there.
use wey_os.Base.{
  ℕ, zero, suc, ◌+◌, ◌*◌, ◌^◌, ◌≤◌, ◌<◌, ◌≡◌, ◌≢◌, ◌⊎◌, inl, inr, refl, ap₂, true, false, List, [],
  ◌∷◌, leb, ◌==◌, arith, Bool-cases, All, In,
}
use wey_os.Memory.Page.{Page, Zone, max_order, remove, is_buddy}
use wey_os.Memory.Page.Cover.{weight, weights, cover_below, cover, IsAligned, inside-siblings}

-- A block that somebody holds: its order and its first page.
abbrev pub Block : Type 0
Block = ℕ × ℕ

-- How many held blocks of order `lo` or more hold the page `a`.
abbrev pub held_cover : ℕ → List Block → ℕ → ℕ
held_cover lo [] a = 0
held_cover lo ((k, p) ∷ bs) a = weight lo k p a + held_cover lo bs a

-- What is known of the first page of a free block, and of a held one.
pub record IsFree (z : Zone) (k p : ℕ) : Type 0 where
  pub aligned : IsAligned k p
  pub marked : is_buddy (z.page p) ≡ true
  pub sized : (z.page p).order ≡ k

pub record IsHeld (z : Zone) (b : Block) : Type 0 where
  pub aligned : IsAligned b.0 b.1
  pub small : b.0 < max_order
  pub unmarked : is_buddy (z.page b.1) ≡ false
  pub sized : (z.page b.1).order ≡ b.0

-- A page that is marked as the first of a free block stands in the list, or is left over inside a
-- larger block.
abbrev pub IsListed : (ℕ → List ℕ) → List Block → ℕ → Page → Type 0
IsListed lists held q pg =
    IsAligned pg.order q
    × (In q (lists pg.order)
        ⊎ (0 < cover (suc pg.order) lists q + held_cover (suc pg.order) held q))

-- The invariant.
pub record IsZone (z : Zone) (held : List Block) : Type 0 where
  pub free_blocks : (k p : ℕ) → k < max_order → In p (z.free_list k) → IsFree z k p
  pub held_blocks : All (IsHeld z) held
  pub disjoint : (a : ℕ) → cover 0 z.free_list a + held_cover 0 held a ≤ 1
  pub listed : (q : ℕ) → is_buddy (z.page q) ≡ true → IsListed z.free_list held q (z.page q)

-- The invariant inside a call, which has the block `h` of order `k` in hand; nothing is said of the
-- fields of its first page.
pub record HasHand (z : Zone) (held : List Block) (k h : ℕ) : Type 0 where
  pub free_blocks : (j p : ℕ) → j < max_order → In p (z.free_list j) → IsFree z j p
  pub held_blocks : All (IsHeld z) held
  pub hand_small : k < max_order
  pub hand_aligned : IsAligned k h
  pub disjoint : (a : ℕ) → cover 0 z.free_list a + held_cover 0 ((k, h) ∷ held) a ≤ 1
  pub listed :
      (q : ℕ)
      → q ≢ h
      → is_buddy (z.page q) ≡ true
      → IsListed z.free_list ((k, h) ∷ held) q (z.page q)

pub In-weights : (lo k p : ℕ) (ps : List ℕ) (a : ℕ) → In p ps → weight lo k p a ≤ weights lo k ps a
In-weights lo k p [] a h = elim h [ ]
In-weights lo k p (q ∷ qs) a (inl e) = rw e (omega arith)
In-weights lo k p (q ∷ qs) a (inr e) = omega (arith, In-weights lo k p qs a e)

In-cover_below :
    (n lo : ℕ) (lists : ℕ → List ℕ) (k p a : ℕ)
    → k < n
    → In p (lists k)
    → weight lo k p a ≤ cover_below n lo lists a
In-cover_below zero lo lists k p a h i = absurd (omega arith)
In-cover_below (suc n) lo lists k p a h i = elim (Bool-cases (k == n)) [
  | inl e ↦ let s : n ≡ k = ground arith in rw s (omega (arith, In-weights lo k p (lists k) a i))
  | inr e ↦ let ih = In-cover_below n lo lists k p a (ground arith) i in omega arith
]

-- A free block counts.
pub In-cover :
    (lo : ℕ) (lists : ℕ → List ℕ) (k p a : ℕ)
    → k < max_order
    → In p (lists k)
    → weight lo k p a ≤ cover lo lists a
In-cover lo lists k p a h i = In-cover_below max_order lo lists k p a h i

weights_antitone : (j k : ℕ) (ps : List ℕ) (a : ℕ) → weights j k ps a ≤ weights 0 k ps a
weights_antitone j k [] a = omega arith
weights_antitone j k (p ∷ ps) a = let ih = weights_antitone j k ps a in ground arith

cover_below_antitone :
    (n j : ℕ) (lists : ℕ → List ℕ) (a : ℕ) → cover_below n j lists a ≤ cover_below n 0 lists a
cover_below_antitone zero j lists a = omega arith
cover_below_antitone (suc n) j lists a =
    omega (arith, weights_antitone j n (lists n) a, cover_below_antitone n j lists a)

pub cover_antitone : (j : ℕ) (lists : ℕ → List ℕ) (a : ℕ) → cover j lists a ≤ cover 0 lists a
cover_antitone j lists a = cover_below_antitone max_order j lists a

pub held_cover_antitone :
    (j : ℕ) (held : List Block) (a : ℕ) → held_cover j held a ≤ held_cover 0 held a
held_cover_antitone j [] a = omega arith
held_cover_antitone j ((k, p) ∷ bs) a = let ih = held_cover_antitone j bs a in ground arith

pub In-remove : (p q : ℕ) (qs : List ℕ) → In p (remove q qs) → In p qs
unfolding remove
In-remove p q [] i = elim i [ ]
In-remove p q (r ∷ rs) i = elim (Bool-cases (q == r)) [
  | inl e ↦ inr (rw e at i)
  | inr e ↦
      let i' : (p ≡ r) ⊎ In p (remove q rs) = rw e at i in
      elim i' [ inl s ↦ inl s | inr s ↦ inr (In-remove p q rs s) ]
]

pub In-remove_ne : (p q : ℕ) (qs : List ℕ) → p ≢ q → In p qs → In p (remove q qs)
unfolding remove
In-remove_ne p q [] n i = elim i [ ]
In-remove_ne p q (r ∷ rs) n (inl s) = let e : (q == r) ≡ false = ground arith in rw e (inl s)
In-remove_ne p q (r ∷ rs) n (inr s) = elim (Bool-cases (q == r)) [
  | inl e ↦ rw e s
  | inr e ↦ rw e (inr (In-remove_ne p q rs n s))
]

-- Aligned blocks of higher orders hold both halves of a block or none.
weight-siblings :
    (m p k h : ℕ)
    → IsAligned m p
    → weight (suc k) m p (h * 2 ^ suc k) ≡ weight (suc k) m p (h * 2 ^ suc k + 2 ^ k)
weight-siblings m p k h a = elim (Bool-cases (leb (suc k) m)) [
  | inl e ↦ rw e (inside-siblings m p k h (ground arith) a)
  | inr e ↦ rw e refl
]

weights-siblings :
    (m k h : ℕ) (ps : List ℕ)
    → ((p : ℕ) → In p ps → IsAligned m p)
    → weights (suc k) m ps (h * 2 ^ suc k) ≡ weights (suc k) m ps (h * 2 ^ suc k + 2 ^ k)
weights-siblings m k h [] al = refl
weights-siblings m k h (p ∷ ps) al =
    ap₂ (λ x y. x + y) (weight-siblings m p k h (al p (inl refl)))
      (weights-siblings m k h ps (λ q i. al q (inr i)))

cover_below-siblings :
    (n k h : ℕ) (lists : ℕ → List ℕ)
    → ((m p : ℕ) → m < n → In p (lists m) → IsAligned m p)
    → cover_below n (suc k) lists (h * 2 ^ suc k)
      ≡ cover_below n (suc k) lists (h * 2 ^ suc k + 2 ^ k)
cover_below-siblings zero k h lists al = refl
cover_below-siblings (suc n) k h lists al =
    ap₂ (λ x y. x + y) (weights-siblings n k h (lists n) (λ p i. al n p (omega arith) i))
      (cover_below-siblings n k h lists (λ m p l i. al m p (omega arith) i))

pub cover-siblings :
    (k h : ℕ) (lists : ℕ → List ℕ)
    → ((m p : ℕ) → m < max_order → In p (lists m) → IsAligned m p)
    → cover (suc k) lists (h * 2 ^ suc k) ≡ cover (suc k) lists (h * 2 ^ suc k + 2 ^ k)
cover-siblings k h lists al = cover_below-siblings max_order k h lists al

pub held_cover-siblings :
    (k h : ℕ) (z : Zone) (held : List Block)
    → All (IsHeld z) held
    → held_cover (suc k) held (h * 2 ^ suc k) ≡ held_cover (suc k) held (h * 2 ^ suc k + 2 ^ k)
held_cover-siblings k h z [] al = refl
held_cover-siblings k h z ((m, p) ∷ bs) al =
    ap₂ (λ x y. x + y) (weight-siblings m p k h al.0.aligned) (held_cover-siblings k h z bs al.1)
