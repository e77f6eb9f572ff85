-- ===== src/Core/Task/Wait.antt =====
-- The answers of `waitpid`.
use wey_os.Base.{
  ℕ, ◌≡◌, ◌≢◌, refl, ap, sym, subst, ◌∙◌, inl, inr, Bool, true, false, Option, none, some, List, [],
  ◌∷◌, map, ◌==◌, Bool-cases, ==_iff, In, ok, err, enoent,
}
use wey_os.Core.Pid.{Pids, free}
use wey_os.Core.Sched.{Kernel, is_zombie, set_task, delete, put_mm, drop_memory, sleep_current}
use wey_os.Core.Sched.Fields.{states, pids, set_task_kept}
use wey_os.Core.Sched.View.{SameView}
use wey_os.Core.Task.{
  returns, unlink, close_from, task_close_files, task_destroy, child_with, zombie_of,
  task_get_child, task_find_zombie_child, Turn, returned, slept, reap, wait_on, wait_for, waitpid,
}
use wey_os.Core.Task.Exit.{task_destroy-view}

abbrev pub children_of : ℕ → Kernel → List ℕ
children_of t s = (s.task t).children

-- The pid that the caller asked for, if any.
abbrev pub Wanted : Option ℕ → ℕ → Type 0
Wanted none p = Unit
Wanted (some q) p = p ≡ q

-- The end of the child `c`.
pub record Reaped (closes : ℕ → Bool) (c : ℕ) (s s' : Kernel) (i i' : Pids) : Type 0 where
  pub view : SameView s s'
  pub unlinked : (u : ℕ) → children_of u s' ≡ delete c (children_of u s)
  pub files : s'.refs ≡ close_from closes (s.task c).file_table (put_mm (s.task c).mm s.refs)
  pub freed : i' ≡ free i (pids s c)

-- No child that the caller waits for has ended.
abbrev pub Unready : Option ℕ → Kernel → Type 0
Unready none s = (c : ℕ) → In c (children_of s.current s) → is_zombie (states s c) ≡ false
Unready (some pid) s =
    (c : ℕ) × In c (children_of s.current s) × (pids s c ≡ pid) × (is_zombie (states s c) ≡ false)

-- What one turn of `waitpid` may come to.
pub data Waited (closes : ℕ → Bool) (want : Option ℕ) (no_hang : Bool) (s : Kernel) (i : Pids)
    : Turn → Type 0 where
  missing :
      (pid : ℕ)
      → want ≡ some pid
      → ((c : ℕ) → In c (children_of s.current s) → pids s c ≢ pid)
      → Waited closes want no_hang s i (returned (err enoent) none s i)
  not_yet :
      no_hang ≡ true → Unready want s → Waited closes want no_hang s i (returned (ok 0) none s i)
  asleep :
      no_hang ≡ false → Unready want s → Waited closes want no_hang s i (slept (sleep_current s))
  reaped :
      (c : ℕ) (s' : Kernel) (i' : Pids)
      → In c (children_of s.current s)
      → is_zombie (states s c) ≡ true
      → Wanted want (pids s c)
      → Reaped closes c s s' i i'
      → Waited closes want no_hang s i (returned (ok (pids s c)) (some (s.task c).exit_code) s' i')

some_inj : {a b : ℕ} → ◌≡◌ {A = Option ℕ} (some a) (some b) → a ≡ b
some_inj h = cc

-- The two searches.
child_with-some :
    (pid : ℕ) (s : Kernel) (cs : List ℕ) (c : ℕ)
    → child_with pid s.task cs ≡ some c
    → In c cs × (pids s c ≡ pid)
unfolding child_with
child_with-some pid s [] c e = absurd (cc e)
child_with-some pid s (d ∷ ds) c e = elim (Bool-cases (pids s d == pid)) [
  | inl y ↦
      let same : d ≡ c = some_inj (rw y at e) in
      (inl (sym same), ap (pids s) (sym same) ∙ (==_iff (pids s d) pid).0 y)
  | inr n ↦ let (i, p) = child_with-some pid s ds c (rw n at e) in (inr i, p)
]

child_with-none :
    (pid : ℕ) (s : Kernel) (cs : List ℕ)
    → child_with pid s.task cs ≡ none
    → (c : ℕ) → In c cs
    → pids s c ≢ pid
unfolding child_with
child_with-none pid s [] e c h = absurd h
child_with-none pid s (d ∷ ds) e c h = λ p. elim (Bool-cases (pids s d == pid)) [
  | inl y ↦ absurd (cc (rw y at e))
  | inr n ↦ elim h [
    | inl x ↦
        let q : (pids s d == pid) ≡ true = (==_iff (pids s d) pid).1 (ap (pids s) (sym x) ∙ p) in
        absurd (cc (rw n at q))
    | inr x ↦ child_with-none pid s ds (rw n at e) c x p
  ]
]

zombie_of-some :
    (s : Kernel) (cs : List ℕ) (c : ℕ)
    → zombie_of s.task cs ≡ some c
    → In c cs × (is_zombie (states s c) ≡ true)
unfolding zombie_of
zombie_of-some s [] c e = absurd (cc e)
zombie_of-some s (d ∷ ds) c e = elim (Bool-cases (is_zombie (states s d))) [
  | inl y ↦
      let same : d ≡ c = some_inj (rw y at e) in
      (inl (sym same), ap (λ x. is_zombie (states s x)) (sym same) ∙ y)
  | inr n ↦ let (i, p) = zombie_of-some s ds c (rw n at e) in (inr i, p)
]

zombie_of-none :
    (s : Kernel) (cs : List ℕ)
    → zombie_of s.task cs ≡ none
    → (c : ℕ) → In c cs
    → is_zombie (states s c) ≡ false
unfolding zombie_of
zombie_of-none s [] e c h = absurd h
zombie_of-none s (d ∷ ds) e c h = elim (Bool-cases (is_zombie (states s d))) [
  | inl y ↦ absurd (cc (rw y at e))
  | inr n ↦ elim h [
    | inl x ↦ ap (λ u. is_zombie (states s u)) x ∙ n
    | inr x ↦ zombie_of-none s ds (rw n at e) c x
  ]
]

-- A zombie is reaped, and `panic` is not called.
module _ (closes : ℕ → Bool) (c : ℕ) (s : Kernel) (i : Pids)
    (z : is_zombie (states s c) ≡ true) where
  after : Kernel
  after = unlink c (task_close_files closes c (drop_memory c s))

  destroyed : task_destroy closes c s i ≡ returns (after, free i (pids s c))
  unfolding task_destroy after
  destroyed = rw z refl

  kept_children :
      (u : ℕ) → children_of u (task_close_files closes c (drop_memory c s)) ≡ children_of u s
  unfolding task_close_files drop_memory
  kept_children u =
      set_task_kept (λ x. x.children) c
        (record ((drop_memory c s).task c) {
          file_table = map (λ _. none) ((drop_memory c s).task c).file_table;
        })
        (drop_memory c s) refl u
      ∙ set_task_kept (λ x. x.children) c
          (record (s.task c) { pwd = none; kstack = none; mm = none }) s refl u

  destroyed-Reaped : Reaped closes c s after i (free i (pids s c))
  unfolding after unlink task_close_files drop_memory set_task
  destroyed-Reaped = record {
    view = task_destroy-view closes c s after i (free i (pids s c)) destroyed;
    unlinked = λ u. ap (delete c) (kept_children u);
    files =
        ap (λ t. close_from closes t (put_mm (s.task c).mm s.refs))
          (set_task_kept (λ x. x.file_table) c
            (record (s.task c) { pwd = none; kstack = none; mm = none }) s refl c);
    freed = refl;
  }

  reaped_lem :
      reap closes c s i
      ≡ returned (ok (pids s c)) (some (s.task c).exit_code) after (free i (pids s c))
  unfolding reap
  reaped_lem = rw (destroyed, reap) refl

module _ (closes : ℕ → Bool) (want : Option ℕ) (no_hang : Bool) (s : Kernel) (i : Pids) where
  wait_on-Waited : Unready want s → Waited closes want no_hang s i (wait_on no_hang s i)
  unfolding wait_on
  wait_on-Waited u = elim (Bool-cases no_hang) [
    | inl y ↦ rw y (not_yet refl u)
    | inr n ↦ rw n (asleep refl u)
  ]

  reap-Waited :
      (c : ℕ)
      → In c (children_of s.current s)
      → is_zombie (states s c) ≡ true
      → Wanted want (pids s c)
      → Waited closes want no_hang s i (reap closes c s i)
  reap-Waited c m z w =
      subst (Waited closes want no_hang s i) (sym (reaped_lem closes c s i z)) (
        reaped c (after closes c s i z) (free i (pids s c)) m z w (destroyed-Reaped closes c s i z))

-- `waitpid`, in every case: ENOENT for a pid that no child has; the pid and the exit code of a child
-- that has ended, which is taken out of the list, its files closed and its pid free again; otherwise
-- 0 with WNOHANG, or the caller sleeps. It never calls `panic`.
pub waitpid-Waited :
    (closes : ℕ → Bool) (want : Option ℕ) (no_hang : Bool) (s : Kernel) (i : Pids)
    → Waited closes want no_hang s i (waitpid closes want no_hang s i)
unfolding waitpid wait_for task_get_child task_find_zombie_child
waitpid-Waited closes none no_hang s i = by_child (zombie_of s.task kids) refl
  where
    kids : List ℕ
    kids = children_of s.current s

    by_child :
        (o : Option ℕ)
        → zombie_of s.task kids ≡ o
        → Waited closes none no_hang s i (wait_for closes o no_hang s i)
    by_child none e = wait_on-Waited closes none no_hang s i (zombie_of-none s kids e)
    by_child (some c) e =
        let (m, z) = zombie_of-some s kids c e in
        rw z (reap-Waited closes none no_hang s i c m z tt)
waitpid-Waited closes (some pid) no_hang s i = by_child (child_with pid s.task kids) refl
  where
    kids : List ℕ
    kids = children_of s.current s

    by_child :
        (o : Option ℕ)
        → child_with pid s.task kids ≡ o
        → Waited closes (some pid) no_hang s i (waitpid closes (some pid) no_hang s i)
    by_child none e = rw (e, waitpid) (missing pid refl (child_with-none pid s kids e))
    by_child (some c) e =
        let (m, p) = child_with-some pid s kids c e in
        rw (e, waitpid)
          (elim (Bool-cases (is_zombie (states s c))) [
            | inl z ↦ rw z (reap-Waited closes (some pid) no_hang s i c m z p)
            | inr z ↦ rw z (wait_on-Waited closes (some pid) no_hang s i (c, m, p, z))
          ])
