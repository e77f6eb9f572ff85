-- ===== src/Memory/Heap/Uses.antt =====
-- What the callers of `kmalloc` and `kfree` have, over calls in any order.
use wey_os.Base.{
  ℕ, ◌+◌, ◌≤◌, ◌<◌, ◌≡◌, ◌≢◌, ◌⊎◌, inl, inr, refl, subst, sym, ◌∙◌, true, Option, none, some, List,
  [], ◌∷◌, ◌==◌, ltb, false, arith, All,
}
use wey_os.Memory.Page.{ulong_mod}
use wey_os.Memory.Page.Init.{page_size}
use wey_os.Memory.Page.Blocks.{Block}
use wey_os.Memory.Heap.{Heap, slab_max_size, is_slab, slab_alloc, slab_free, kmalloc, kfree}
use wey_os.Memory.Heap.Order.{IsHeap, Live, Live-bounds, Live-apart}
use wey_os.Memory.Heap.Take.{Given}
use wey_os.Memory.Heap.Alloc.{Answered, slab_alloc-Answered}
use wey_os.Memory.Heap.Free.{Returned, slab_free-Returned}
use wey_os.Memory.Heap.Large.{PageAnswer, kmalloc-PageAnswer}

-- An address that `kmalloc` returned, and the bytes that were asked for.
abbrev pub Object : Type 0
Object = ℕ × ℕ

-- `Without o os rest`: the list `os` is `rest` with one entry `o` more.
pub data Without (o : Object) : List Object → List Object → Type 0 where
  here : {os : List Object} → Without o (o ∷ os) os
  there : {x : Object} {os rest : List Object} → Without o os rest → Without o (x ∷ os) (x ∷ rest)

-- One call, with the objects that the callers have before and after it. A caller frees what it has,
-- once. Requests for pages may come between; the pages are not listed.
pub data Call (max_pfn : ℕ) : Heap → List Object → Heap → List Object → Type 0 where
  gets :
      (h h' : Heap) (os : List Object) (size a : ℕ)
      → 0 < size
      → size ≤ slab_max_size
      → kmalloc size h ≡ (some a, h')
      → Call max_pfn h os h' ((a, size) ∷ os)
  gets_null :
      (h h' : Heap) (os : List Object) (size : ℕ)
      → 0 < size
      → size ≤ slab_max_size
      → kmalloc size h ≡ (none, h')
      → Call max_pfn h os h' os
  gets_pages :
      (h h' : Heap) (os : List Object) (size : ℕ) (answer : Option ℕ)
      → slab_max_size < size
      → size + page_size ≤ ulong_mod
      → kmalloc size h ≡ (answer, h')
      → Call max_pfn h os h' os
  frees :
      (h h' : Heap) (os rest : List Object) (a size : ℕ)
      → Without (a, size) os rest
      → kfree max_pfn a h ≡ some h'
      → Call max_pfn h os h' rest

-- Calls one after the other.
pub data Calls (max_pfn : ℕ) : Heap → List Object → Heap → List Object → Type 0 where
  stop : {h : Heap} {os : List Object} → Calls max_pfn h os h os
  call :
      {h h' h'' : Heap} {os os' os'' : List Object}
      → Call max_pfn h os h' os'
      → Calls max_pfn h' os' h'' os''
      → Calls max_pfn h os h'' os''

-- Two objects have no byte in common.
abbrev pub Beside : Object → Object → Type 0
Beside o p = (o.0 + o.1 ≤ p.0) ⊎ (p.0 + p.1 ≤ o.0)

-- No two entries of the list have a byte in common.
abbrev pub Apart : List Object → Type 0
Apart [] = Unit {0}
Apart (o ∷ os) = All (Beside o) os × Apart os

-- The object is in use, with room for what was asked for.
record IsUsed (h : Heap) (o : Object) : Type 0 where
  room : ℕ
  large : o.1 ≤ room
  live : Live h o.0 room

abbrev Differs : Object → Object → Type 0
Differs o p = o.0 ≢ p.0

abbrev Distinct : List Object → Type 0
Distinct [] = Unit {0}
Distinct (o ∷ os) = All (Differs o) os × Distinct os

-- The invariant of the calls.
record IsKept (h : Heap) (os : List Object) : Type 0 where
  held : List Block
  heap : IsHeap h held
  used : All (IsUsed h) os
  distinct : Distinct os

All-map :
    {P Q : Object → Type 0} (os : List Object) → ((o : Object) → P o → Q o) → All P os → All Q os
All-map [] f v = tt
All-map (o ∷ os) f v = (f o v.0, All-map os f v.1)

All-zip :
    {P Q R : Object → Type 0} (os : List Object)
    → ((o : Object) → P o → Q o → R o)
    → All P os
    → All Q os
    → All R os
All-zip [] f v w = tt
All-zip (o ∷ os) f v w = (f o v.0 w.0, All-zip os f v.1 w.1)

All-Without :
    (P : Object → Type 0) {o : Object} {os rest : List Object}
    → Without o os rest
    → All P os
    → P o × All P rest
All-Without P here v = (v.0, v.1)
All-Without P (there w) v = let (p, r) = All-Without P w v.1 in (p, (v.0, r))

Distinct-Without :
    {o : Object} {os rest : List Object}
    → Without o os rest
    → Distinct os
    → All (Differs o) rest × Distinct rest
Distinct-Without here d = (d.0, d.1)
Distinct-Without {o} (there {x} w) d =
    let (p, r) = All-Without (Differs x) w d.0 in
    let (q, s) = Distinct-Without w d.1 in (((λ e. p (sym e)), q), (r, s))

IsUsed-Live :
    (h h' : Heap) (o : Object) → ((n : ℕ) → Live h o.0 n → Live h' o.0 n) → IsUsed h o → IsUsed h' o
IsUsed-Live h h' o f u = record { room = u.room; large = u.large; live = f u.room u.live }

kmalloc_small :
    (h : Heap) (size : ℕ) → 0 < size → size ≤ slab_max_size → kmalloc size h ≡ slab_alloc size h
unfolding kmalloc
kmalloc_small h size p l =
    let z : (size == 0) ≡ false = ground arith in
    let t : ltb slab_max_size size ≡ false = ground arith in rw (z, t) refl

-- `kfree` of an object leaves it to `slab_free`.
kfree_used :
    (max_pfn : ℕ) (h : Heap) (held : List Block) (a n : ℕ)
    → IsHeap h held
    → Live h a n
    → kfree max_pfn a h ≡ slab_free max_pfn a h
unfolding kfree
kfree_used max_pfn h held a n heap x =
    let ok = heap.slab x.cache x.place x.listed in
    let p = (Live-bounds h held heap a n x).2 in
    let k = ok.kind in
    let m : is_slab (h.zone.page x.place) ≡ true = ground arith in rw (p, m, ok.known) refl

Given-IsKept :
    (h h' : Heap) (os : List Object) (size a : ℕ) (k : IsKept h os) (blocks : List Block)
    → Given h k.held size a h' blocks
    → IsKept h' ((a, size) ∷ os)
Given-IsKept h h' os size a k blocks g = record {
  held = blocks;
  heap = g.heap;
  used = (
    record { room = g.room; large = g.large; live = g.live },
    All-map os (λ o. IsUsed-Live h h' o (g.others o.0)) k.used,
  );
  distinct = (
    All-map os (λ o u e. g.fresh u.room (subst (λ b. Live h b u.room) (sym e) u.live)) k.used,
    k.distinct,
  );
}

PageAnswer-IsKept :
    (h : Heap) (os : List Object) (size : ℕ) (k : IsKept h os) (answer : Option ℕ) (h' : Heap)
    → PageAnswer h k.held size (answer, h')
    → IsKept h' os
PageAnswer-IsKept h os size k none h' (same, empty) = subst (λ x. IsKept x os) (sym same) k
PageAnswer-IsKept h os size k (some a) h' (j, p, e, got) = record {
  held = (j, p) ∷ k.held;
  heap = got.heap;
  used = All-map os (λ o. IsUsed-Live h h' o (got.others o.0)) k.used;
  distinct = k.distinct;
}

Returned-IsKept :
    (h h' : Heap) (os rest : List Object) (a size : ℕ) (k : IsKept h os) (blocks : List Block)
    → Without (a, size) os rest
    → Returned h k.held a h' blocks
    → IsKept h' rest
Returned-IsKept h h' os rest a size k blocks w r =
    let (d, ds) = Distinct-Without w k.distinct in
    record {
      held = blocks;
      heap = r.heap;
      used =
          All-zip rest (λ o n. IsUsed-Live h h' o (λ m y. r.others o.0 m y (λ e. n (sym e)))) d
            (All-Without (IsUsed h) w k.used).1;
      distinct = ds;
    }

-- An object in use can be freed.
kfree-Returned :
    (max_pfn : ℕ) (h : Heap) (held : List Block) (o : Object)
    → IsHeap h held
    → IsUsed h o
    → (h' : Heap) × (kfree max_pfn o.0 h ≡ some h')
      × ((blocks : List Block) × Returned h held o.0 h' blocks)
kfree-Returned max_pfn h held o heap u =
    let (h', e, r) = slab_free-Returned max_pfn h held o.0 u.room heap u.live in
    (h', kfree_used max_pfn h held o.0 u.room heap u.live ∙ e, r)

Call-IsKept :
    {max_pfn : ℕ} {h h' : Heap} {os os' : List Object}
    → Call max_pfn h os h' os'
    → IsKept h os
    → IsKept h' os'
Call-IsKept (gets h h' os size a p l e) k =
    let (blocks, g) =
      subst (Answered h k.held size) (sym (kmalloc_small h size p l) ∙ e)
        (slab_alloc-Answered h k.held size k.heap p l) in
    Given-IsKept h h' os size a k blocks g
Call-IsKept (gets_null h h' os size p l e) k =
    let (same, empty, full) =
      subst (Answered h k.held size) (sym (kmalloc_small h size p l) ∙ e)
        (slab_alloc-Answered h k.held size k.heap p l) in
    subst (λ x. IsKept x os) (sym same) k
Call-IsKept (gets_pages h h' os size answer l u e) k =
    PageAnswer-IsKept h os size k answer h'
      (subst (PageAnswer h k.held size) e (kmalloc-PageAnswer h k.held size k.heap l u))
Call-IsKept {max_pfn} (frees h h' os rest a size w e) k =
    let (h1, f, (blocks, r)) =
      kfree-Returned max_pfn h k.held (a, size) k.heap (All-Without (IsUsed h) w k.used).0 in
    let same : h1 ≡ h' = cc in
    subst (λ x. IsKept x rest) same (Returned-IsKept h h1 os rest a size k blocks w r)

Calls-IsKept :
    {max_pfn : ℕ} {h h' : Heap} {os os' : List Object}
    → Calls max_pfn h os h' os'
    → IsKept h os
    → IsKept h' os'
Calls-IsKept stop k = k
Calls-IsKept (call c on) k = Calls-IsKept on (Call-IsKept c k)

module _ (h : Heap) (held : List Block) (heap : IsHeap h held) where
  used-Beside : (o p : Object) → IsUsed h o → Differs o p → IsUsed h p → Beside o p
  used-Beside o p u d v = elim (Live-apart h held heap o.0 u.room p.0 v.room u.live v.live) [
    | inl e ↦ absurd (d e)
    | inr (inl l) ↦ inl (let m = u.large in omega arith)
    | inr (inr l) ↦ inr (let m = v.large in omega arith)
  ]

  used-Apart : (os : List Object) → All (IsUsed h) os → Distinct os → Apart os
  used-Apart [] u d = tt
  used-Apart (o ∷ os) u d =
      (All-zip os (λ p e v. used-Beside o p u.0 e v) d.0 u.1, used-Apart os u.1 d.1)

-- Whatever calls of `kmalloc` and `kfree` follow one another from a heap in order, where requests are
-- positive and at most 2^32 - 4096 bytes and a caller frees an object of at most SLAB_MAX_SIZE bytes
-- that it has: of the objects of at most SLAB_MAX_SIZE bytes that callers got and did not free, no
-- two have a requested byte in common, and BUG_ON does not stop the `kfree` of any of them.
pub Calls-Apart :
    (max_pfn : ℕ) (h h' : Heap) (held : List Block) (os : List Object)
    → IsHeap h held
    → Calls max_pfn h [] h' os
    → Apart os × All (λ o. (h'' : Heap) × (kfree max_pfn o.0 h' ≡ some h'')) os
Calls-Apart max_pfn h h' held os heap on =
    let k = Calls-IsKept on (record { held = held; heap = heap; used = tt; distinct = tt }) in
    (
      used-Apart h' k.held k.heap os k.used k.distinct,
      All-map os (λ o u. let (h'', e, r) = kfree-Returned max_pfn h' k.held o k.heap u in (h'', e))
          k.used,
    )
