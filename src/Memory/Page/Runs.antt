-- ===== src/Memory/Page/Runs.antt =====
-- Any sequence of allocations and frees.
use wey_os.Base.{
  ok, err, einval, ℕ, suc, ◌+◌, ◌-◌, ◌%◌, ◌≤◌, ◌<◌, ◌≡◌, inl, inr, refl, ap, subst, sym, ◌∙◌, false,
  some, List, ◌++◌, [], ◌∷◌, ltb, arith, Bool-cases, All,
}
use wey_os.Memory.Page.{Page, Zone, max_order, is_reserved, page_free, page_alloc}
use wey_os.Memory.Page.Cover.{cover}
use wey_os.Memory.Page.Blocks.{Block, held_cover, IsHeld, IsListed, IsZone}
use wey_os.Memory.Page.Alloc.{Searched, Allocated, page_alloc-Searched}
use wey_os.Memory.Page.Free.{Freed, page_free-Freed}
use wey_os.Memory.Page.Grow.{weight_zero}

-- The allocator with the blocks that are held.
pub record State : Type 0 where
  pub zone : Zone
  pub held : List Block

-- A call of `page_alloc` that returns a block, or one of `page_free`, of a held block, that succeeds.
pub data Step (max_pfn : ℕ) (s t : State) : Type 0 where
  allocates :
      (order flags p : ℕ)
      → order < max_order
      → flags % 2 ≡ 0
      → page_alloc order flags s.zone ≡ (some p, t.zone)
      → t.held ≡ (order, p) ∷ s.held
      → Step max_pfn s t
  frees :
      (before after : List Block) (k p : ℕ)
      → s.held ≡ before ++ ((k, p) ∷ after)
      → page_free max_pfn p s.zone ≡ (ok tt, t.zone)
      → t.held ≡ before ++ after
      → Step max_pfn s t

pub data Reach (max_pfn : ℕ) (s : State) : State → Type 0 where
  here : Reach max_pfn s s
  next : {t u : State} → Reach max_pfn s t → Step max_pfn t u → Reach max_pfn s u

-- The order of the held blocks does not matter.
held_cover-middle :
    (lo : ℕ) (before after : List Block) (b : Block) (a : ℕ)
    → held_cover lo (before ++ (b ∷ after)) a ≡ held_cover lo (b ∷ before ++ after) a
held_cover-middle lo [] after b a = refl
held_cover-middle lo ((k, p) ∷ before) after b a =
    let ih = held_cover-middle lo before after b a in omega arith

All-middle :
    (P : Block → Type 0) (before after : List Block) (b : Block)
    → All P (before ++ (b ∷ after))
    → All P (b ∷ before ++ after)
All-middle P [] after b v = v
All-middle P (x ∷ before) after b v =
    let ih = All-middle P before after b v.1 in (ih.0, (v.0, ih.1))

pub IsZone-middle :
    (z : Zone) (before after : List Block) (b : Block)
    → IsZone z (before ++ (b ∷ after))
    → IsZone z (b ∷ before ++ after)
IsZone-middle z before after b zone = record {
  free_blocks = zone.free_blocks;
  held_blocks = All-middle (IsHeld z) before after b zone.held_blocks;
  disjoint =
      λ a. let d = zone.disjoint a in let e = held_cover-middle 0 before after b a in omega arith;
  listed = λ q m. moved q (z.page q) (zone.listed q m);
}
  where
    moved :
        (q : ℕ) (pg : Page)
        → IsListed z.free_list (before ++ (b ∷ after)) q pg
        → IsListed z.free_list (b ∷ before ++ after) q pg
    moved q pg (a, inl i) = (a, inl i)
    moved q pg (a, inr w) =
        (a, inr (let e = held_cover-middle (suc pg.order) before after b q in omega arith))

page_free-passed :
    (max_pfn p : ℕ) (z z' : Zone)
    → page_free max_pfn p z ≡ (ok tt, z')
    → (is_reserved (z.page p) ≡ false) × ((z.page p).refcount ≤ 1)
unfolding page_free
page_free-passed max_pfn p z z' e = elim (Bool-cases (is_reserved (z.page p))) [
  | inl r ↦ absurd (let e' : (err einval, z) ≡ (ok tt, z') = rw r at e in ground arith)
  | inr r ↦ (
    r,
    elim (Bool-cases (ltb 1 (z.page p).refcount)) [
      | inl c ↦ absurd (let e' : (err einval, z) ≡ (ok tt, z') = rw (r, c) at e in ground arith)
      | inr c ↦ ground arith
    ],
  )
]

-- How many blocks, free or held, hold the page `a`.
abbrev pub owners : State → ℕ → ℕ
owners s a = cover 0 s.zone.free_list a + held_cover 0 s.held a

abbrev pub IsKept : State → State → Type 0
IsKept s t = IsZone t.zone t.held × ((a : ℕ) → owners t a ≡ owners s a)

Step-IsKept : (max_pfn : ℕ) (s t : State) → IsZone s.zone s.held → Step max_pfn s t → IsKept s t
Step-IsKept max_pfn s t v (allocates order flags p l plain e f) =
    let a : Allocated s.zone s.held order flags p t.zone =
      subst (λ o. Searched (max_order - order) 0 order flags s.zone s.held o) e
        (page_alloc-Searched order flags s.zone s.held l plain v) in
    (
      subst (λ h. IsZone t.zone h) (sym f) a.zone,
      λ x.
          ap (λ h. cover 0 t.zone.free_list x + held_cover 0 h x) f
          ∙ (let c = a.taken x in let w = weight_zero order p x in omega arith),
    )
Step-IsKept max_pfn s t v (frees before after k p e f g) =
    let v' = IsZone-middle s.zone before after (k, p) (subst (λ h. IsZone s.zone h) e v) in
    let (u, c) = page_free-passed max_pfn p s.zone t.zone f in
    let (z', f', done) = page_free-Freed max_pfn k p s.zone (before ++ after) v' u c in
    let d : Freed s.zone (before ++ after) k p t.zone =
      subst (λ z. Freed s.zone (before ++ after) k p z) (ap (λ r. r.1) (sym f' ∙ f)) done in
    (
      subst (λ h. IsZone t.zone h) (sym g) d.zone,
      λ x.
          ap (λ h. cover 0 t.zone.free_list x + held_cover 0 h x) g
          ∙ (let q = d.given x in
              let w = weight_zero k p x in
              let m = held_cover-middle 0 before after (k, p) x in omega arith)
          ∙ ap (λ h. cover 0 s.zone.free_list x + held_cover 0 h x) (sym e),
    )

-- From a state in order, whatever blocks are allocated and freed, every page lies in as many free and
-- held blocks as at the beginning, which is one or none: no page is lost, and none is handed out twice.
pub Reach-IsKept :
    (max_pfn : ℕ) (s t : State) → IsZone s.zone s.held → Reach max_pfn s t → IsKept s t
Reach-IsKept max_pfn s t v here = (v, λ a. refl)
Reach-IsKept max_pfn s t v (next {t = m} r st) =
    let a = Reach-IsKept max_pfn s m v r in
    let b = Step-IsKept max_pfn m t a.0 st in (b.0, λ x. b.1 x ∙ a.1 x)
