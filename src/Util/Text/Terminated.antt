-- ===== src/Util/Text/Terminated.antt =====
-- Strings with a terminator: `strlen`, `strnlen`, `strcpy`, `strcat`, `strcmp`.
use wey_os.Base.{
  ℕ, zero, suc, ◌+◌, ◌-◌, ◌≤◌, ◌<◌, ◌≡◌, ◌≢◌, ◌↔◌, ap, sym, ◌∙◌, inl, inr, true, false, min, some,
  ◌==◌, if◌then◌else◌, arith, Bool-cases, ==_iff,
}
use wey_os.Util.Text.{
  Bytes, store, strlen, strnlen, strcpy, strcat, strcmp, memcpy, Sign, less, equal, greater,
  signed_lt,
}
use wey_os.Util.Text.Move.{Copied, memmove-Copied}

-- A string of `n` characters stands at `p`.
pub record Str (m : Bytes) (p n : ℕ) : Type 0 where
  pub chars : (k : ℕ) → k < n → m (p + k) ≢ 0
  pub stop : m (p + n) ≡ 0

Str-tail : (m : Bytes) (p n : ℕ) → Str m p (suc n) → Str m (p + 1) n
Str-tail m p n s = record {
  chars = λ k h e. s.chars (suc k) (omega arith) (ap m (omega arith) ∙ e);
  stop = ap m (omega arith) ∙ s.stop;
}

Str-head : (m : Bytes) (p n : ℕ) → Str m p (suc n) → (m p == 0) ≡ false
Str-head m p n s = ground (arith, s.chars 0 (omega arith), here)
  where
    here : m (p + 0) ≡ m p
    here = ap m (omega arith)

Str-nil : (m : Bytes) (p : ℕ) → Str m p 0 → (m p == 0) ≡ true
Str-nil m p s = ground (arith, s.stop, here)
  where
    here : m (p + 0) ≡ m p
    here = ap m (omega arith)

pub strlen-Str : (fuel : ℕ) (m : Bytes) (p n : ℕ) → Str m p n → n < fuel → strlen fuel m p ≡ some n
unfolding strlen
strlen-Str zero m p n s h = absurd (omega arith)
strlen-Str (suc fuel) m p zero s h = rw (Str-nil m p s)
strlen-Str (suc fuel) m p (suc n) s h =
    rw (Str-head m p n s) (rw (strlen-Str fuel m (p + 1) n (Str-tail m p n s) (omega arith)))

strnlen-Str : (m : Bytes) (p n max : ℕ) → Str m p n → strnlen m p max ≡ min n max
unfolding strnlen
strnlen-Str m p n zero s = omega arith
strnlen-Str m p zero (suc max) s = rw (Str-nil m p s) (omega arith)
strnlen-Str m p (suc n) (suc max) s =
    rw (Str-head m p n s) (omega (arith, strnlen-Str m (p + 1) n max (Str-tail m p n s)))

-- `strlen` ends with the number of characters before the terminator, and `strnlen` returns the
-- smaller of this number and its bound.
pub strlen_lem :
    (fuel : ℕ) (m : Bytes) (p n max : ℕ)
    → Str m p n
    → n < fuel
    → (strlen fuel m p ≡ some n) × (strnlen m p max ≡ min n max)
strlen_lem fuel m p n max s h = (strlen-Str fuel m p n s h, strnlen-Str m p n max s)

-- `strcpy` copies the characters and the terminator and changes no other byte, also where the two
-- strings overlap.
strcpy_lem :
    (fuel : ℕ) (m : Bytes) (dst src n : ℕ)
    → Str m src n
    → n < fuel
    → (m' : Bytes) × (strcpy fuel m dst src ≡ some m') × Copied m dst src (n + 1) m'
unfolding strcpy
strcpy_lem fuel m dst src n s h = (
  store (memcpy m dst src n).0 (dst + n) 0,
  rw (strlen-Str fuel m src n s h, strcpy),
  λ a. ground (arith, (memmove-Copied m dst src n).1 a, s.stop, last a),
)
  where
    last : (a : ℕ) → a ≡ dst + n → m (src + (a - dst)) ≡ m (src + n)
    last a e = ap m (omega arith)

-- `strcat` does not append: on a target of fewer than four characters that the source does not
-- meet it writes behind the terminator, so that the target reads as the same string as before.
strcat_short :
    (fuel : ℕ) (m : Bytes) (dst src n k : ℕ)
    → Str m dst k
    → k < 4
    → Str m src n
    → n < fuel
    → (m' : Bytes) × (strcat fuel m dst src ≡ some m') × Str m' dst k
unfolding strcat
strcat_short fuel m dst src n k t h s f =
    let c = strcpy_lem fuel m (dst + 4) src n s f in
    (
      c.0,
      c.1,
      record {
        chars = λ j l e. t.chars j l (ground (arith, c.2 (dst + j)));
        stop = ground (arith, c.2 (dst + k), t.stop);
      },
    )

-- The strings at `s` and `t` agree up to and with the terminator of the first.
abbrev pub SameString : Bytes → ℕ → ℕ → ℕ → Type 0
SameString m s t n = (k : ℕ) → k ≤ n → m (s + k) ≡ m (t + k)

shift : (m : Bytes) (s k : ℕ) → m (s + 1 + k) ≡ m (s + suc k)
shift m s k = ap m (omega arith)

same_zero : (m : Bytes) (s t : ℕ) → m s ≡ m t → SameString m s t 0
same_zero m s t e k h =
    ap m {x = s + k} {y = s} (omega arith) ∙ e ∙ ap m {x = t} {y = t + k} (omega arith)

same_cons :
    (m : Bytes) (s t n : ℕ) → m s ≡ m t → SameString m (s + 1) (t + 1) n → SameString m s t (suc n)
same_cons m s t n e h zero l = same_zero m s t e 0 (omega arith)
same_cons m s t n e h (suc k) l = sym (shift m s k) ∙ h k (omega arith) ∙ shift m t k

same_head : (m : Bytes) (s t n : ℕ) → SameString m s t n → m s ≡ m t
same_head m s t n h =
    ap m {x = s} {y = s + 0} (omega arith)
    ∙ h 0 (omega arith)
    ∙ ap m {x = t + 0} {y = t} (omega arith)

same_tail : (m : Bytes) (s t n : ℕ) → SameString m s t (suc n) → SameString m (s + 1) (t + 1) n
same_tail m s t n h k l = shift m s k ∙ h (suc k) (omega arith) ∙ sym (shift m t k)

abbrev verdict : ℕ → ℕ → Sign
verdict a b = if signed_lt b a then greater else if signed_lt a b then less else equal

verdict_equal : (a b : ℕ) → a < 256 → b < 256 → (verdict a b ≡ equal) ↔ (a ≡ b)
verdict_equal a b h k = (λ e. ground arith, λ e. ground arith)

-- `strcmp` ends, and says equal exactly if the two strings agree up to and with the terminator;
-- for a memory of bytes.
strcmp_lem :
    (fuel : ℕ) (m : Bytes) (s t n : ℕ)
    → ((a : ℕ) → m a < 256)
    → Str m s n
    → n < fuel
    → (r : Sign) × (strcmp fuel m s t ≡ some r) × ((r ≡ equal) ↔ SameString m s t n)
unfolding strcmp
strcmp_lem zero m s t n b v h = absurd (omega arith)
strcmp_lem (suc fuel) m s t zero b v h =
    let d = verdict_equal (m s) (m t) (b s) (b t) in
    (
      verdict (m s) (m t),
      rw (Str-nil m s v),
      (λ e. same_zero m s t (d.0 e), λ e. d.1 (same_head m s t 0 e)),
    )
strcmp_lem (suc fuel) m s t (suc n) b v h = elim (Bool-cases (m s == m t)) [
  | inl y ↦
      let ih = strcmp_lem fuel m (s + 1) (t + 1) n b (Str-tail m s n v) (omega arith) in
      (
        ih.0,
        rw (Str-head m s n v) (rw y ih.1),
        (
          λ e. same_cons m s t n ((==_iff (m s) (m t)).0 y) (ih.2.0 e),
          λ e. ih.2.1 (same_tail m s t n e),
        ),
      )
  | inr y ↦
      let d = verdict_equal (m s) (m t) (b s) (b t) in
      (
        verdict (m s) (m t),
        rw (Str-head m s n v) (rw y),
        (
          λ e. absurd (false_true (sym y ∙ (==_iff (m s) (m t)).1 (d.0 e))),
          λ e. d.1 (same_head m s t (suc n) e),
        ),
      )
]
  where
    false_true : false ≡ true → ⊥
    false_true e = cc e
