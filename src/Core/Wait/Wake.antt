-- ===== src/Core/Wait/Wake.antt =====
-- Whom `__wake_up` wakes.
use wey_os.Base.{
  ℕ, zero, suc, ◌+◌, ◌-◌, ◌%◌, ◌≤◌, ◌<◌, ◌≡◌, ◌≢◌, inl, inr, refl, ap, sym, ◌∙◌, true, false, List,
  [], ◌∷◌, map, ◌==◌, if◌then◌else◌, arith, Bool-cases, In, Distinct, length, take, length-take,
}
use wey_os.Core.Sched.{task_ready, Kernel, is_blocked, task_wakeup, scheduler_add}
use wey_os.Core.Sched.Fields.{states, states-set_state}
use wey_os.Core.Wait.{Entry, int_mod, waiter, task_default_wakeup, wake_from, wake_up}

-- The tasks of a list that sleep.
abbrev pub sleepers : Kernel → List ℕ → List ℕ
sleepers s [] = []
sleepers s (t ∷ ts) = let rest = sleepers s ts in if is_blocked (states s t) then t ∷ rest else rest

-- Tasks woken one after the other.
abbrev pub wake_each : List ℕ → Kernel → Kernel
wake_each [] s = s
wake_each (t ∷ ts) s = wake_each ts (task_wakeup t s)

-- A count of 0 is no bound: the counter would have to pass all its values.
abbrev pub bound : ℕ → ℕ
bound count = if count == 0 then int_mod else count

wakeup_kept : (t u : ℕ) (s : Kernel) → u ≢ t → states (task_wakeup t s) u ≡ states s u
unfolding task_wakeup scheduler_add
wakeup_kept t u s n = elim (Bool-cases (is_blocked (states s t))) [
  | inl b ↦
      let e : (u == t) ≡ false = ground arith in
      rw b (states-set_state t task_ready s u ∙ (rw e refl))
  | inr b ↦ rw b refl
]

sleepers_kept :
    (t : ℕ) (s : Kernel) (ts : List ℕ) → ¬ In t ts → sleepers (task_wakeup t s) ts ≡ sleepers s ts
sleepers_kept t s [] n = refl
sleepers_kept t s (u ∷ us) n =
    let k : states (task_wakeup t s) u ≡ states s u = wakeup_kept t u s (λ e. n (inl (sym e))) in
    rw (k, sleepers_kept t s us (λ i. n (inr i))) refl

length-sleepers : (s : Kernel) (ts : List ℕ) → length (sleepers s ts) ≤ length ts
length-sleepers s [] = omega arith
length-sleepers s (t ∷ ts) = let ih = length-sleepers s ts in ground arith

asleep-wakeup :
    (t : ℕ) (s : Kernel)
    → is_blocked (states s t) ≡ true
    → task_default_wakeup t s ≡ (1, task_wakeup t s)
unfolding task_default_wakeup
asleep-wakeup t s b = rw b refl

awake-wakeup :
    (t : ℕ) (s : Kernel) → is_blocked (states s t) ≡ false → task_default_wakeup t s ≡ (0, s)
unfolding task_default_wakeup
awake-wakeup t s b = rw b refl

wake_from-nil : (count : ℕ) (s : Kernel) → wake_from [] count s ≡ (count, s)
unfolding wake_from
wake_from-nil count s = refl

-- The turn of the loop for an entry of `waiter`.
module _ (t : ℕ) (es : List Entry) (count : ℕ) (s : Kernel) where
  awake_turn :
      is_blocked (states s t) ≡ false → wake_from (waiter t ∷ es) count s ≡ wake_from es count s
  unfolding wake_from waiter
  awake_turn b = rw (awake-wakeup t s b) refl

  module _ (b : is_blocked (states s t) ≡ true) where
    last_turn :
        (count + int_mod - 1) % int_mod ≡ 0
        → wake_from (waiter t ∷ es) count s ≡ (0, task_wakeup t s)
    unfolding wake_from waiter
    last_turn z = rw (asleep-wakeup t s b, z) refl

    next_turn :
        (left : ℕ)
        → (count + int_mod - 1) % int_mod ≡ left
        → (left == 0) ≡ false
        → wake_from (waiter t ∷ es) count s ≡ wake_from es left (task_wakeup t s)
    unfolding wake_from waiter
    next_turn left z n = rw (asleep-wakeup t s b, z, n) refl

-- The loop, for `m` tasks to wake.
wake_from_lem :
    (ts : List ℕ) (m count : ℕ) (s : Kernel)
    → Distinct ts
    → 0 < m
    → m ≤ int_mod
    → count ≡ m % int_mod
    → wake_from (map waiter ts) count s
      ≡ ((m - length (take m (sleepers s ts))) % int_mod, wake_each (take m (sleepers s ts)) s)
wake_from_lem [] zero count s d p l e = absurd (omega arith)
wake_from_lem [] (suc m) count s d p l e =
    wake_from-nil count s ∙ ap (λ x. (x, s)) (omega (arith, e))
wake_from_lem (t ∷ ts) zero count s d p l e = absurd (omega arith)
wake_from_lem (t ∷ ts) (suc m) count s d p l e = elim (Bool-cases (is_blocked (states s t))) [
  | inr b ↦
      rw b (awake_turn t (map waiter ts) count s b ∙ wake_from_lem ts (suc m) count s d.1 p l e)
  | inl b ↦
      let z : (count + int_mod - 1) % int_mod ≡ m = omega (arith, e, l) in
      rw b (elim (Bool-cases (m == 0)) [
        | inl y ↦
            let y' : m ≡ 0 = ground arith in rw y' (last_turn t (map waiter ts) count s b (z ∙ y'))
        | inr y ↦
            next_turn t (map waiter ts) count s b m z y
            ∙ wake_from_lem ts m m (task_wakeup t s) d.1 (ground arith) (omega arith) (omega arith)
            ∙ rw (sleepers_kept t s ts d.0) (
                ap (λ n. (n % int_mod, wake_each (take m (sleepers s ts)) (task_wakeup t s)))
                  (omega arith))
      ])
]

-- `__wake_up` on tasks that each wait once: as many of those that sleep as `count` says, the first
-- ones, are woken in the order of the queue, and their number is returned; for a count of 0, all.
pub wake_up_lem :
    (ts : List ℕ) (count : ℕ) (s : Kernel)
    → Distinct ts
    → count < int_mod
    → length ts < int_mod
    → let woken = take (bound count) (sleepers s ts) in
      wake_up (map waiter ts) count s ≡ (length woken, wake_each woken s)
unfolding wake_up
wake_up_lem ts count s d low short =
    rw (wake_from_lem ts (bound count) count s d (ground arith) (ground arith) (ground arith))
      (ap (λ n. (n, wake_each (take (bound count) (sleepers s ts)) s)) returned)
  where
    woken : ℕ
    woken = length (take (bound count) (sleepers s ts))

    few : (woken ≤ bound count) × (woken < int_mod)
    few =
        let a = length-take (bound count) (sleepers s ts) in
        let b = length-sleepers s ts in (omega (arith, a), omega (arith, a, b))

    returned : (count + int_mod - (bound count - woken) % int_mod) % int_mod ≡ woken
    returned = elim (Bool-cases (count == 0)) [
      | inl e ↦
          let z : count ≡ 0 = ground arith in
          let y : bound count ≡ int_mod = ground arith in omega (arith, few.1, z, y)
      | inr e ↦ let y : bound count ≡ count = ground arith in omega (arith, few.0, y, low)
    ]
