-- ===== src/Memory/Vma/Refs.antt =====
-- The reference counts of mapped files: no operation loses or invents one.
use wey_os.Base.{
  ℕ, zero, suc, ◌+◌, ◌≡◌, refl, ap, inl, inr, Bool, true, false, Option, none, some, List, [], ◌∷◌,
  ◌==◌, if◌then◌else◌, leb, arith, Bool-cases, Option-cases,
}
use wey_os.Memory.Vma.Lookup.{unlink-cons}
use wey_os.Memory.Vma.{
  VmRegion, MmStruct, Refs, Request, file_get, file_put, link, slot, region_of, add, unlink, remove,
  put_all, clean, destroy,
}

abbrev pub holds : ℕ → Option ℕ → ℕ
holds g none = 0
holds g (some f) = if f == g then 1 else 0

-- How many regions map the file `g`.
abbrev pub uses : ℕ → List VmRegion → ℕ
uses g [] = 0
uses g (r ∷ rs) = holds g r.file + uses g rs

-- The count of each file is what others hold plus one for each region that maps it.
abbrev pub Counted : Refs → List VmRegion → Refs → Type 0
Counted base rs refs = (g : ℕ) → refs g ≡ base g + uses g rs

get_lem : (f : Option ℕ) (refs : Refs) (g : ℕ) → file_get f refs g ≡ refs g + holds g f
unfolding file_get
get_lem none refs g = omega arith
get_lem (some f) refs g = ground arith

put_lem : (f : Option ℕ) (refs : Refs) (g m : ℕ) → refs g ≡ m + holds g f → file_put f refs g ≡ m
unfolding file_put
put_lem none refs g m e = omega arith
put_lem (some f) refs g m e = ground arith

uses-link :
    (g n : ℕ) (r : VmRegion) (rs : List VmRegion)
    → uses g (link n r rs) ≡ uses g rs + holds g r.file
unfolding link
uses-link g zero r rs = omega arith
uses-link g (suc n) r [] = omega arith
uses-link g (suc n) r (q ∷ rs) = omega (arith, uses-link g n r rs)

file-region_of : (q : Request) → (region_of q).file ≡ q.file
unfolding region_of
file-region_of q = refl

uses-unlink :
    (g addr : ℕ) (rs : List VmRegion) {r : VmRegion} {rest : List VmRegion}
    → unlink addr rs ≡ some (r, rest)
    → uses g rs ≡ uses g rest + holds g r.file
unfolding unlink
uses-unlink g addr [] e = absurd (cc)
uses-unlink g addr (q ∷ qs) {r} {rest} e = elim (unlink-cons addr q qs e) [
  | inl (h, a, b) ↦ rw (← a) (rw (← b) (omega arith))
  | inr (h, (rest', s, b)) ↦ rw (← b) (omega (arith, uses-unlink g addr qs s))
]

module _ (base : Refs) (mm : MmStruct) (refs : Refs) (counted : Counted base mm.vma refs) where
  -- `vma_add` takes one reference to the file for the region that it links in, and none if it
  -- fails, so that each file's count stays what others hold plus its mappings.
  pub add-Counted :
      (memory : Bool) (q : Request)
      → Counted base (add memory mm refs q).1.vma (add memory mm refs q).2
  unfolding add
  add-Counted true q = elim (Bool-cases (leb q.end q.start)) [
    | inl bad ↦ rw bad counted
    | inr fine ↦ elim (Option-cases (slot (region_of q).start (region_of q).end mm.vma)) [
      | inl n ↦ rw fine (rw n counted)
      | inr (n, s) ↦ rw fine (
          rw s λ g. omega (
            arith,
            counted g,
            uses-link g n (region_of q) mm.vma,
            get_lem q.file refs g,
            ap (holds g) (file-region_of q),
          ))
    ]
  ]
  add-Counted false q = elim (Bool-cases (leb q.end q.start)) [
    | inl bad ↦ rw bad counted
    | inr fine ↦ elim (Option-cases (slot (region_of q).start (region_of q).end mm.vma)) [
      | inl n ↦ rw fine (rw n counted)
      | inr (n, s) ↦ rw fine (rw s counted)
    ]
  ]

  -- `vma_remove` gives back the one reference of the region that it unlinks.
  pub remove-Counted : (addr : ℕ) → Counted base (remove mm refs addr).1.vma (remove mm refs addr).2
  unfolding remove
  remove-Counted addr = elim (Option-cases (unlink addr mm.vma)) [
    | inl n ↦ rw (n, remove) counted
    | inr ((r, rest), s) ↦
        rw (s, remove)
          λ g.
            put_lem r.file refs g (base g + uses g rest)
              (omega (arith, counted g, uses-unlink g addr mm.vma s))
  ]

put_all_lem :
    (rs : List VmRegion) (base refs : Refs)
    → Counted base rs refs
    → (g : ℕ) → put_all rs refs g ≡ base g
unfolding put_all
put_all_lem [] base refs c g = omega (arith, c g)
put_all_lem (r ∷ rs) base refs c g =
    put_all_lem rs base (file_put r.file refs)
      (λ k. put_lem r.file refs k (base k + uses k rs) (omega (arith, c k))) g

-- `vma_destroy` returns every file's count to what others hold: no mapping leaks a reference and
-- none is given back twice.
pub destroy-Counted :
    (base : Refs) (mm : MmStruct) (refs : Refs)
    → Counted base mm.vma refs
    → (g : ℕ) → destroy mm refs g ≡ base g
unfolding destroy clean
destroy-Counted base mm refs c g = go mm.vma (λ i. mm.vma)
  where
    go : (rs : List VmRegion) → mm.vma ≡ rs → destroy mm refs g ≡ base g
    go [] e = rw (e, destroy) (omega (arith, c g, ap (uses g) e))
    go (r ∷ rs) e = rw (e, destroy) (put_all_lem mm.vma base refs c g)
