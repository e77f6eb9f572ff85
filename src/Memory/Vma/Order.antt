-- ===== src/Memory/Vma/Order.antt =====
-- The invariant of a region list: page-aligned, not empty, ascending and disjoint.
use wey_os.Base.{ℕ, ◌+◌, ◌-◌, ◌*◌, ◌/◌, ◌%◌, ◌≤◌, ◌<◌, ◌≡◌, ◌∙◌, List, [], ◌∷◌, arith}
use wey_os.Base.Bits.{clear_low_bounds, clear_low_multiple, bit_and-high_mask}
use wey_os.Memory.Vma.{VmRegion, Request, word, page_size, align_down, align_up, region_of}

pub record IsRegion (r : VmRegion) : Type 0 where
  pub ordered : r.start < r.end
  pub start_aligned : r.start % page_size ≡ 0
  pub end_aligned : r.end % page_size ≡ 0

abbrev pub Regions : ℕ → List VmRegion → Type 0
Regions lo [] = Unit
Regions lo (r ∷ rs) = (lo ≤ r.start) × IsRegion r × Regions r.end rs

pub Regions-weaken : (lo lo' : ℕ) (rs : List VmRegion) → lo' ≤ lo → Regions lo rs → Regions lo' rs
Regions-weaken lo lo' [] h t = tt
Regions-weaken lo lo' (r ∷ rs) h t = (omega arith, t.1, t.2)

pub align_down_lem : (v : ℕ) → v < word → align_down v ≡ v / page_size * page_size
unfolding align_down
align_down_lem v h =
    let m = clear_low_multiple 12 v in
    bit_and-high_mask 32 12 v (omega arith) h ∙ omega (arith, clear_low_bounds 12 v, m.1)

pub align_up_lem :
    (v : ℕ) → v + page_size ≤ word → align_up v ≡ (v + page_size - 1) / page_size * page_size
unfolding align_up
align_up_lem v h =
    let e : (v + page_size - 1) % word ≡ v + page_size - 1 = omega arith in
    rw e (align_down_lem (v + page_size - 1) (omega arith))

-- A request that is in order becomes a region that contains it.
pub region_of-IsRegion :
    (q : Request)
    → q.start < q.end
    → q.end + page_size ≤ word
    → IsRegion (region_of q)
      × ((region_of q).start ≤ q.start)
      × (q.end ≤ (region_of q).end)
      × (q.start < (region_of q).start + page_size)
      × ((region_of q).end < q.end + page_size)
unfolding region_of
region_of-IsRegion q h b =
    let d = align_down_lem q.start (omega arith) in
    let u = align_up_lem q.end b in
    (
      record {
        ordered = omega (arith, d, u);
        start_aligned = omega (arith, d);
        end_aligned = omega (arith, u);
      },
      omega (arith, d),
      omega (arith, u),
      omega (arith, d),
      omega (arith, u),
    )
