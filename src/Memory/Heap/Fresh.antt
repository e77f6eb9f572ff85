-- ===== src/Memory/Heap/Fresh.antt =====
-- A new slab: all of its objects are in the chain.
use native.Mathlib.Nat.{le-div_iff_mul-le}
use wey_os.Base.{
  ℕ, zero, suc, ◌+◌, ◌-◌, ◌*◌, ◌/◌, ◌%◌, ◌^◌, ◌≤◌, ◌<◌, ◌≡◌, ◌⊎◌, inl, inr, refl, sym, ◌∙◌, some,
  List, [], ◌∷◌, ◌==◌, arith, Bool-cases, length,
}
use wey_os.Memory.Page.{Page, ulong_mod}
use wey_os.Memory.Page.Init.{page_size}
use wey_os.Memory.Heap.{header_size, thread, new_slab}
use wey_os.Memory.Heap.Slots.{occ, occ_ne, IsSlot}
use wey_os.Memory.Heap.Order.{IsSlab}

length-thread : (n obj size : ℕ) (free : List ℕ) → length (thread n obj size free) ≡ n + length free
unfolding thread
length-thread zero obj size free = omega arith
length-thread (suc n) obj size free = omega (arith, length-thread n (obj + size) size (obj ∷ free))

thread-slots :
    (n obj size : ℕ) (free : List ℕ) (a : ℕ)
    → 0 < occ a (thread n obj size free)
    → IsSlot n obj size a ⊎ (0 < occ a free)
unfolding thread
thread-slots zero obj size free a l = inr l
thread-slots (suc n) obj size free a l = elim (thread-slots n (obj + size) size (obj ∷ free) a l) [
  | inl (j, m, e) ↦ inl (suc j, omega arith, e ∙ next obj size j)
  | inr m ↦ elim (Bool-cases (a == obj)) [
    | inl e ↦ inl (0, omega arith, ground arith)
    | inr e ↦ inr (let f = occ_ne a obj free (λ t. absurd (ground arith)) in omega arith)
  ]
]
  where
    next : (obj size j : ℕ) → obj + size + j * size ≡ obj + suc j * size
    next obj size j = grind arith

thread-single :
    (n obj size : ℕ) (free : List ℕ)
    → 0 < size
    → ((a : ℕ) → obj ≤ a → occ a free ≡ 0)
    → ((a : ℕ) → occ a free ≤ 1)
    → (a : ℕ) → occ a (thread n obj size free) ≤ 1
unfolding thread
thread-single zero obj size free p z u a = u a
thread-single (suc n) obj size free p z u a =
    thread-single n (obj + size) size (obj ∷ free) p
      (λ b l. occ_ne b obj free (λ t. absurd (omega arith)) ∙ z b (omega arith))
      (λ b. elim (Bool-cases (b == obj)) [
        | inl e ↦ let v = z b (ground arith) in ground arith
        | inr e ↦
            let f = occ_ne b obj free (λ t. absurd (ground arith)) in let v = u b in omega arith
      ])
      a

pub new_slab-IsSlab :
    (size p : ℕ) (page : Page)
    → 0 < size
    → p < 2 ^ 20
    → page.flags ≡ 24
    → page.refcount ≡ 1
    → IsSlab size p (new_slab size p) (some p) page
unfolding new_slab
new_slab-IsSlab size p page pos low kind refs = record {
  on_page = refl;
  first = omega arith;
  objects = refl;
  count = sym (
      length-thread ((page_size - header_size) / size) (p * page_size % ulong_mod + header_size)
        size []
      ∙ omega arith);
  slots = λ a l.
      elim (thread-slots ((page_size - header_size) / size)
        (p * page_size % ulong_mod + header_size) size [] a l) [
          | inl s ↦ s
          | inr v ↦ absurd (omega arith)
        ];
  single =
      thread-single ((page_size - header_size) / size) (p * page_size % ulong_mod + header_size)
        size [] pos (λ a l. refl) (λ a. omega arith);
  known = refl;
  kind = kind;
  references = refs;
  low = low;
}

pub new_slab_full : (size p : ℕ) → (new_slab size p).free_count ≡ (new_slab size p).total_objects
unfolding new_slab
new_slab_full size p = refl

-- It has objects.
pub new_slab_pos : (size p : ℕ) → 0 < size → size ≤ 2048 → 0 < (new_slab size p).free_count
unfolding new_slab
new_slab_pos size p l u =
    let p : 1 ≤ (page_size - header_size) / size = (le-div_iff_mul-le l).1 (omega arith) in
    omega arith
