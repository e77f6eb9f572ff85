-- ===== src/Drivers/Tty/Ldisc/Ring.antt =====
-- The ring of the line discipline as a sequence of bytes.
use wey_os.Base.{
  ℕ, zero, suc, ◌+◌, ◌-◌, ◌%◌, ◌≤◌, ◌<◌, ◌≡◌, ◌≢◌, refl, ap, ap₂, sym, ◌∙◌, Bool, true, false, List,
  [], ◌∷◌, ◌++◌, ltb, if◌then◌else◌, arith, Bool-cases, inl, inr, get_or, set, length, length-set,
  ltb→lt, length-append, get_or-set_self, get_or-set_ne,
}
use wey_os.Drivers.Tty.Ldisc.{Data, size, append, erase}

-- The indices are in range, and `head` stands `count` bytes behind `tail`.
pub record IsRing (d : Data) : Type 0 where
  pub storage : length d.buffer ≡ size
  pub tail_lt : d.tail < size
  pub count_le : d.count ≤ size
  pub head_at : d.head ≡ (d.tail + d.count) % size

-- The `n` bytes from index `t` on, oldest first.
abbrev pub window : List ℕ → ℕ → ℕ → List ℕ
window buf t zero = []
window buf t (suc n) = window buf t n ++ (get_or buf ((t + n) % size) 0 ∷ [])

abbrev pub contents : Data → List ℕ
contents d = window d.buffer d.tail d.count

-- Writing outside a window leaves it.
window-set :
    (buf : List ℕ) (t n i v : ℕ)
    → ((k : ℕ) → k < n → (t + k) % size ≢ i)
    → window (set buf i v) t n ≡ window buf t n
window-set buf t zero i v h = refl
window-set buf t (suc n) i v h =
    ap₂ (λ a b. a ++ (b ∷ [])) (window-set buf t n i v (λ k l. h k (omega arith)))
      (get_or-set_ne buf i ((t + n) % size) v 0 (λ e. h n (omega arith) (sym e)))

outside : (t n : ℕ) → t < size → n < size → (k : ℕ) → k < n → (t + k) % size ≢ (t + n) % size
outside t n ht hn k lt e = omega arith

-- The oldest byte of a window in front.
pub window-front :
    (buf : List ℕ) (t n : ℕ)
    → t < size
    → window buf t (suc n) ≡ get_or buf t 0 ∷ window buf ((t + 1) % size) n
window-front buf t zero h = ap (λ i. get_or buf i 0 ∷ []) (omega arith)
window-front buf t (suc n) h =
    ap₂ (λ a i. a ++ (get_or buf i 0 ∷ [])) (window-front buf t n h) (omega arith)

pub append-IsRing : (w : Bool) (d : Data) (ch : ℕ) → IsRing d → IsRing (append w d ch).0
unfolding append
append-IsRing w d ch v = ground (arith, length-set d.buffer d.head ch)

pub contents-append :
    (w : Bool) (d : Data) (ch : ℕ)
    → IsRing d
    → contents (append w d ch).0
      ≡ (if ltb d.count size then contents d ++ (ch ∷ []) else contents d)
unfolding append
contents-append w d ch v = elim (Bool-cases (ltb d.count size)) [
  | inl e ↦ rw e (
      more e
      ∙ ap₂ (λ a b. a ++ (b ∷ []))
          (ap (λ i. window (set d.buffer i ch) d.tail d.count) v.head_at
            ∙ window-set d.buffer d.tail d.count ((d.tail + d.count) % size) ch
                (outside d.tail d.count v.tail_lt (ground arith)))
          (ap (λ i. get_or (set d.buffer d.head ch) i 0) (sym v.head_at)
            ∙ get_or-set_self d.buffer d.head ch 0 (omega (arith, v.storage, v.head_at))))
  | inr e ↦ rw e refl
]
  where
    more :
        ltb d.count size ≡ true
        → window (set d.buffer d.head ch) d.tail (d.count + 1)
          ≡ window (set d.buffer d.head ch) d.tail (suc d.count)
    more e =
        ap (window (set d.buffer d.head ch) d.tail) {x = d.count + 1} {y = suc d.count}
          (omega arith)

pub erase-IsRing : (w : Bool) (d : Data) → IsRing d → IsRing (erase w d).0
unfolding erase
erase-IsRing w d v = ground (arith, length-set d.buffer ((d.head + size - 1) % size) 0)

-- All but the last.
abbrev pub drop_last : List ℕ → List ℕ
drop_last [] = []
drop_last (x ∷ []) = []
drop_last (x ∷ y ∷ r) = x ∷ drop_last (y ∷ r)

pub drop_last-append : (xs : List ℕ) (x : ℕ) → drop_last (xs ++ (x ∷ [])) ≡ xs
drop_last-append [] x = refl
drop_last-append (y ∷ []) x = refl
drop_last-append (y ∷ z ∷ r) x = ap (λ l. y ∷ l) (drop_last-append (z ∷ r) x)

-- Taking the newest byte back, with the fields for variables.
window-shorter :
    (buf : List ℕ) (h t c : ℕ)
    → t < size
    → c ≤ size
    → h ≡ (t + c) % size
    → 0 < c
    → window (set buf ((h + size - 1) % size) 0) t (c - 1) ≡ drop_last (window buf t c)
window-shorter buf h t zero a b e p = absurd (omega arith)
window-shorter buf h t (suc n) a b e p =
    let i : (h + size - 1) % size ≡ (t + n) % size = omega arith in
    let m : suc n - 1 ≡ n = omega arith in
    rw i (
      rw m (
        window-set buf t n ((t + n) % size) 0 (outside t n a (omega arith))
        ∙ sym (drop_last-append (window buf t n) (get_or buf ((t + n) % size) 0))))

window-none :
    (buf : List ℕ) (t c : ℕ) → ltb 0 c ≡ false → window buf t c ≡ drop_last (window buf t c)
window-none buf t zero e = refl
window-none buf t (suc c) e = absurd (ground arith)

pub contents-erase :
    (w : Bool) (d : Data) → IsRing d → contents (erase w d).0 ≡ drop_last (contents d)
unfolding erase
contents-erase w d v = elim (Bool-cases (ltb 0 d.count)) [
  | inl e ↦ rw e (
      window-shorter d.buffer d.head d.tail d.count v.tail_lt v.count_le v.head_at
        (ltb→lt 0 d.count e))
  | inr e ↦ rw e (window-none d.buffer d.tail d.count e)
]

pub length-window : (buf : List ℕ) (t n : ℕ) → length (window buf t n) ≡ n
length-window buf t zero = refl
length-window buf t (suc n) = omega (
  arith,
  length-append (window buf t n) (get_or buf ((t + n) % size) 0 ∷ []),
  length-window buf t n,
)
