-- ===== src/Memory/Heap/Order.antt =====
-- The invariant of slabs and caches, and which objects are in use.
use native.Mathlib.Nat.{div-mul-le_self, mul-le-mul_right}
use wey_os.Base.{
  ℕ, zero, suc, ◌+◌, ◌-◌, ◌*◌, ◌/◌, ◌^◌, ◌≤◌, ◌<◌, ◌≡◌, ◌⊎◌, inl, inr, ap, subst, sym, ◌∙◌, Option,
  some, List, [], ◌∷◌, ◌==◌, ltb, arith, Bool-cases, All, length,
}
use wey_os.Memory.Page.{Page}
use wey_os.Memory.Page.Init.{page_size}
use wey_os.Memory.Page.Cover.{inside, cover}
use wey_os.Memory.Page.Blocks.{Block, held_cover, IsZone}
use wey_os.Memory.Heap.{Slab, Heap, size_in, slab_sizes, object_size, header_size}
use wey_os.Memory.Heap.Slots.{occ, IsSlot}

abbrev pub Holds : List Block → Block → Type 0
Holds [] b = ⊥
Holds (c ∷ cs) b = (b ≡ c) ⊎ Holds cs b

pub Holds-cover :
    (held : List Block) (k p a : ℕ) → Holds held (k, p) → inside k p a ≤ held_cover 0 held a
Holds-cover [] k p a h = absurd h
Holds-cover ((j, q) ∷ held) k p a (inl e) = let f = ap (λ b. inside b.0 b.1 a) e in ground arith
Holds-cover ((j, q) ∷ held) k p a (inr h) = let ih = Holds-cover held k p a h in omega arith

-- A slab of objects of `size` bytes on the page `s`.
pub record IsSlab (size s : ℕ) (slab : Slab) (private : Option ℕ) (page : Page) : Type 0 where
  pub on_page : slab.page ≡ s
  pub first : slab.start ≡ s * page_size + header_size
  pub objects : slab.total_objects ≡ (page_size - header_size) / size
  pub count : slab.free_count ≡ length slab.free_list
  pub slots : (a : ℕ) → 0 < occ a slab.free_list → IsSlot slab.total_objects slab.start size a
  pub single : (a : ℕ) → occ a slab.free_list ≤ 1
  pub known : private ≡ some s
  pub kind : page.flags ≡ 24
  pub references : page.refcount ≡ 1
  pub low : s < 2 ^ 20

-- The invariant; `held` are the blocks of pages in use.
pub record IsHeap (h : Heap) (held : List Block) : Type 0 where
  pub zone : IsZone h.zone held
  pub bounded : (a : ℕ) → 0 < cover 0 h.zone.free_list a → a < 2 ^ 20
  pub caches : (i s : ℕ) → 0 < occ s (h.slabs i) → i < 9
  pub slab :
      (i s : ℕ)
      → 0 < occ s (h.slabs i)
      → IsSlab (object_size i) s (h.slab s) (h.private s) (h.zone.page s)
  pub owned : (i s : ℕ) → 0 < occ s (h.slabs i) → Holds held (0, s)
  pub single : (i s : ℕ) → occ s (h.slabs i) ≤ 1
  pub unique : (i j s : ℕ) → 0 < occ s (h.slabs i) → 0 < occ s (h.slabs j) → i ≡ j

-- `a` is the address of an object of `n` bytes that is in use.
pub record Live (h : Heap) (a n : ℕ) : Type 0 where
  pub cache : ℕ
  pub place : ℕ
  pub listed : 0 < occ place (h.slabs cache)
  pub slot : IsSlot (h.slab place).total_objects (h.slab place).start (object_size cache) a
  pub used : occ a (h.slab place).free_list ≡ 0
  pub sized : n ≡ object_size cache

size_in-All : (P : ℕ → Type 0) (xs : List ℕ) → All P xs → (i : ℕ) → i < length xs → P (size_in xs i)
size_in-All P [] v i l = absurd (omega arith)
size_in-All P (x ∷ xs) v zero l = v.0
size_in-All P (x ∷ xs) v (suc i) l = size_in-All P xs v.1 i (omega arith)

pub object_size-bounds : (i : ℕ) → i < 9 → (0 < object_size i) × (object_size i ≤ 2048)
object_size-bounds i l =
    size_in-All (λ x. (0 < x) × (x ≤ 2048)) slab_sizes
      (
        (omega arith, omega arith),
        (
          (omega arith, omega arith),
          (
            (omega arith, omega arith),
            (
              (omega arith, omega arith),
              (
                (omega arith, omega arith),
                (
                  (omega arith, omega arith),
                  (
                    (omega arith, omega arith),
                    ((omega arith, omega arith), ((omega arith, omega arith), tt)),
                  ),
                ),
              ),
            ),
          ),
        ),
      )
      i l

pub object_size_pos : (i : ℕ) → i < 9 → 0 < object_size i
object_size_pos i l = (object_size-bounds i l).0

module _ (size s : ℕ) (pos : 0 < size) (slab : Slab) (private : Option ℕ) (page : Page)
    (ok : IsSlab size s slab private page) where
  -- An object lies inside its page, behind the header.
  pub slot-bounds :
      (a : ℕ)
      → IsSlot slab.total_objects slab.start size a
      → (s * page_size + header_size ≤ a) × (a + size ≤ s * page_size + page_size)
  slot-bounds a (j, l, e) =
      let f = ok.first in
      let o = ok.objects in
      let d = div-mul-le_self (page_size - header_size) size in
      let m =
        mul-le-mul_right {m = j + 1} {n = (page_size - header_size) / size} size (omega arith) in
      (omega arith, let g = next j size in omega arith)
    where
      next : (j n : ℕ) → (j + 1) * n ≡ j * n + n
      next j n = grind arith

  pub slot-page : (a : ℕ) → IsSlot slab.total_objects slab.start size a → a / page_size ≡ s
  slot-page a t = let b = slot-bounds a t in omega (arith, b.0, b.1, pos)

-- Two objects of one slab.
slots_apart :
    (start n j k a b : ℕ)
    → a ≡ start + j * n
    → b ≡ start + k * n
    → (a ≡ b) ⊎ (a + n ≤ b) ⊎ (b + n ≤ a)
slots_apart start n j k a b e f = elim (Bool-cases (ltb j k)) [
  | inl l ↦ inr (inl (let m = behind j k (ground arith) in omega arith))
  | inr l ↦ elim (Bool-cases (ltb k j)) [
    | inl g ↦ inr (inr (let m = behind k j (ground arith) in omega arith))
    | inr g ↦ inl (let t : j ≡ k = ground arith in e ∙ ap (λ x. start + x * n) t ∙ sym f)
  ]
]
  where
    next : (j n : ℕ) → (j + 1) * n ≡ j * n + n
    next j n = grind arith

    behind : (j k : ℕ) → j < k → j * n + n ≤ k * n
    behind j k l =
        let m = mul-le-mul_right {m = j + 1} {n = k} n (omega arith) in
        let g = next j n in omega arith

module _ (h : Heap) (held : List Block) (heap : IsHeap h held) where
  pub Live-bounds :
      (a n : ℕ) (live : Live h a n)
      → (live.place * page_size + header_size ≤ a)
        × (a + n ≤ live.place * page_size + page_size)
        × (a / page_size ≡ live.place)
  Live-bounds a n live =
      let i = live.cache in
      let s = live.place in
      let p = object_size_pos i (heap.caches i s live.listed) in
      let ok = heap.slab i s live.listed in
      let z = live.sized in
      let b =
        slot-bounds (object_size i) s p (h.slab s) (h.private s) (h.zone.page s) ok a live.slot in
      (
        b.0,
        omega (arith, b.1),
        slot-page (object_size i) s p (h.slab s) (h.private s) (h.zone.page s) ok a live.slot,
      )

  -- Objects in use lie apart.
  pub Live-apart : (a n b m : ℕ) → Live h a n → Live h b m → (a ≡ b) ⊎ (a + n ≤ b) ⊎ (b + m ≤ a)
  Live-apart a n b m x y =
      let p = Live-bounds a n x in
      let q = Live-bounds b m y in
      elim (Bool-cases (x.place == y.place)) [
        | inr e ↦ elim (Bool-cases (ltb x.place y.place)) [
          | inl f ↦
              inr (
                inl (let g = pages_apart x.place y.place (ground arith) in omega (arith, p.1, q.0)))
          | inr f ↦
              inr (
                inr (let g = pages_apart y.place x.place (ground arith) in omega (arith, q.1, p.0)))
        ]
        | inl e ↦
            let s : x.place ≡ y.place = ground arith in
            let i =
              heap.unique x.cache y.cache x.place x.listed
                (subst (λ t. 0 < occ t (h.slabs y.cache)) (sym s) y.listed) in
            let size = ap object_size i in
            let start = ap (λ t. (h.slab t).start) s in
            let (j, k, f) = x.slot in
            let (j', k', f') = y.slot in
            let c =
              slots_apart (h.slab x.place).start n j j' a b
                (f ∙ ap (λ t. (h.slab x.place).start + j * t) (sym x.sized))
                (f'
                  ∙ ap (λ t. t + j' * object_size y.cache) (sym start)
                  ∙ ap (λ t. (h.slab x.place).start + j' * t) (sym size ∙ sym x.sized)) in
            let z = x.sized ∙ size ∙ sym y.sized in omega arith
      ]
    where
      pages_apart : (s t : ℕ) → s < t → s * page_size + page_size ≤ t * page_size
      pages_apart s t l = omega arith
