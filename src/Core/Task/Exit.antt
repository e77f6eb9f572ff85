-- ===== src/Core/Task/Exit.antt =====
-- `task_exit` and `task_destroy`, as the scheduler sees them.
use wey_os.Base.{
  ℕ, ◌≡◌, ◌≢◌, refl, ap, sym, subst, ◌∙◌, Bool, false, Option, none, some, List, [], ◌∷◌, inl, inr,
  map, ◌==◌, arith, Bool-cases,
}
use wey_os.Core.Pid.{Pids}
use wey_os.Core.Sched.{
  task_zombie, Task, Kernel, is_blocked, is_zombie, set_task, drop_memory, task_wakeup,
}
use wey_os.Core.Sched.Order.{Fits-pointwise}
use wey_os.Core.Sched.Moves.{Fits-current}
use wey_os.Core.Sched.Fields.{
  IsSched, states, pids, states-drop_memory, pids-drop_memory, set_task_self, set_task_kept,
  states-set_task,
}
use wey_os.Core.Sched.Dispatch.{task_wakeup_awake-IsSched}
use wey_os.Core.Sched.View.{SameView, view_refl, view_trans, set_task-view, view-IsSched}
use wey_os.Core.Sched.Shape.{Grown, grown_trans, view-Grown, wakeup-Grown}
use wey_os.Core.Sched.Quiet.{wakeup_same}
use wey_os.Core.Task.{
  Run, returns, panics, faults, unlink, link, adopt, adopt_all, reparent_from,
  task_reparent_children, wake_parent, and_then, task_exit, task_close_files, task_destroy,
}

unreturned {ℓ} : {A : Type ℓ} → A → Run A → A
unreturned d (returns a) = a
unreturned d _ = d

pub returns_inj {ℓ} : {A : Type ℓ} {a b : A} → ◌≡◌ {A = Run A} (returns a) (returns b) → a ≡ b
unfolding unreturned
returns_inj {a = a} e = ap (unreturned a) e

unlink-view : (t : ℕ) (s : Kernel) → SameView s (unlink t s)
unfolding unlink
unlink-view t s = record {
  view_states = λ u. refl;
  view_pids = λ u. refl;
  view_queue = refl;
  view_current = refl;
  view_idle = refl;
  view_scheduling = refl;
}

pub link-view : (t p : ℕ) (s : Kernel) → SameView s (link t p s)
unfolding link
link-view t p s =
    set_task-view p (record (s.task p) { children = t ∷ (s.task p).children }) s refl refl

adopt-view : (p c : ℕ) (s : Kernel) → SameView s (adopt p c s)
unfolding adopt
adopt-view p c s =
    let s₁ = set_task c (record (s.task c) { parent = some p }) s in
    let s₂ = unlink c s₁ in
    view_trans s s₁ (link c p s₂)
      (set_task-view c (record (s.task c) { parent = some p }) s refl refl)
      (view_trans s₁ s₂ (link c p s₂) (unlink-view c s₁) (link-view c p s₂))

adopt_all-view : (p : ℕ) (cs : List ℕ) (s : Kernel) → SameView s (adopt_all p cs s)
unfolding adopt_all
adopt_all-view p [] s = view_refl s
adopt_all-view p (c ∷ cs) s =
    view_trans s (adopt p c s) (adopt_all p cs (adopt p c s)) (adopt-view p c s)
      (adopt_all-view p cs (adopt p c s))

reparent_from-view :
    (new : Option ℕ) (cs : List ℕ) (s s' : Kernel)
    → reparent_from new cs s ≡ returns s'
    → SameView s s'
unfolding reparent_from
reparent_from-view new [] s s' e = subst (SameView s) (returns_inj e) (view_refl s)
reparent_from-view none (c ∷ cs) s s' e = absurd (cc e)
reparent_from-view (some p) (c ∷ cs) s s' e =
    subst (SameView s) (returns_inj e) (adopt_all-view p (c ∷ cs) s)

-- Which steps a function that returns went through.
pub and_then-returns {ℓ κ} :
    {A : Type ℓ} {B : Type κ} (r : Run A) (f : A → Run B) (b : B)
    → and_then r f ≡ returns b
    → (a : A) × (r ≡ returns a) × (f a ≡ returns b)
unfolding and_then
and_then-returns (returns a) f b e = (a, refl, e)
and_then-returns panics f b e = absurd (cc e)
and_then-returns faults f b e = absurd (cc e)

wake_parent-returns :
    (o : Option ℕ) (s s' : Kernel)
    → wake_parent o s ≡ returns s'
    → (p : ℕ) × (o ≡ some p) × (s' ≡ task_wakeup p s)
unfolding wake_parent
wake_parent-returns none s s' e = absurd (cc e)
wake_parent-returns (some p) s s' e = (p, refl, sym (returns_inj e))

-- The task after the first two assignments of `task_exit`.
abbrev pub ended : ℕ → ℕ → Kernel → Kernel
ended t status s = set_task t (record (s.task t) { exit_code = status; state = task_zombie }) s

-- The stages of a `task_exit` that returns.
pub record Stages (init_task : Option ℕ) (t status : ℕ) (s s' : Kernel) : Type 0 where
  pub not_init : pids s t ≢ 1
  pub orphaned : Kernel
  pub reparented : task_reparent_children t init_task (ended t status s) ≡ returns orphaned
  pub waiting_parent : ℕ
  pub has_parent : (orphaned.task t).parent ≡ some waiting_parent
  pub woken : s' ≡ task_wakeup waiting_parent orphaned

pub task_exit-Stages :
    (init_task : Option ℕ) (t status : ℕ) (s s' : Kernel)
    → task_exit init_task t status s ≡ returns s'
    → Stages init_task t status s s'
unfolding task_exit
task_exit-Stages init_task t status s s' e = elim (Bool-cases (pids s t == 1)) [
  | inl y ↦ absurd (cc (rw y at e))
  | inr n ↦
      let (o, a, b) =
        and_then-returns (task_reparent_children t init_task (ended t status s))
          (λ x. wake_parent (x.task t).parent x) s' (rw n at e) in
      let (p, c, d) = wake_parent-returns (o.task t).parent o s' b in
      record {
        not_init = λ h. absurd (ground arith);
        orphaned = o;
        reparented = a;
        waiting_parent = p;
        has_parent = c;
        woken = d;
      }
]

module _ (init_task : Option ℕ) (status : ℕ) (s s' : Kernel)
    (e : task_exit init_task s.current status s ≡ returns s') where
  left : Kernel
  left = ended s.current status s

  stages : Stages init_task s.current status s s'
  stages = task_exit-Stages init_task s.current status s s' e

  abbrev gone : Task
  gone = record (s.task s.current) { exit_code = status; state = task_zombie }

  orphaned-view : SameView left stages.orphaned
  unfolding left task_reparent_children
  orphaned-view =
      reparent_from-view init_task (left.task s.current).children left stages.orphaned
        stages.reparented

  -- The current task ends.
  pub task_exit-IsSched : IsSched s → s.current ≢ s.idle → IsSched s'
  unfolding left set_task
  task_exit-IsSched f n = subst IsSched (sym stages.woken) (
      task_wakeup_awake-IsSched stages.orphaned
        (view-IsSched left stages.orphaned orphaned-view started) stages.waiting_parent calm)
    where
      started : IsSched left
      started =
          Fits-pointwise (states-set_task s.current gone s)
            (set_task_kept (λ x. x.pid) s.current gone s refl) (Fits-current task_zombie n refl f)

      calm : is_blocked (states stages.orphaned stages.orphaned.current) ≡ false
      calm =
          ap (λ t. is_blocked (states stages.orphaned t)) orphaned-view.view_current
          ∙ ap is_blocked (orphaned-view.view_states s.current)
          ∙ ap (λ x. is_blocked x.state) (set_task_self s.current gone s)

  -- It is still the current one, and the queue grew at most by its parent.
  pub task_exit-Grown : Grown s.ready_queue s'.ready_queue × (s'.scheduling ≡ s.scheduling)
  unfolding left set_task
  task_exit-Grown =
      let w = wakeup-Grown stages.waiting_parent stages.orphaned in
      let v = view-Grown left stages.orphaned orphaned-view in
      subst (λ x. Grown s.ready_queue x.ready_queue × (x.scheduling ≡ s.scheduling))
        (sym stages.woken)
        (
          grown_trans s.ready_queue stages.orphaned.ready_queue
              (task_wakeup stages.waiting_parent stages.orphaned).ready_queue v w,
          (wakeup_same stages.waiting_parent stages.orphaned).1 ∙ orphaned-view.view_scheduling,
        )

drop_memory-view : (t : ℕ) (s : Kernel) → SameView s (drop_memory t s)
unfolding drop_memory set_task
drop_memory-view t s = record {
  view_states = states-drop_memory t s;
  view_pids = pids-drop_memory t s;
  view_queue = refl;
  view_current = refl;
  view_idle = refl;
  view_scheduling = refl;
}

task_close_files-view :
    (closes : ℕ → Bool) (t : ℕ) (s : Kernel) → SameView s (task_close_files closes t s)
unfolding task_close_files set_task
task_close_files-view closes t s =
    let v =
      set_task-view t (record (s.task t) { file_table = map (λ _. none) (s.task t).file_table }) s
        refl refl in
    record {
      view_states = v.view_states;
      view_pids = v.view_pids;
      view_queue = refl;
      view_current = refl;
      view_idle = refl;
      view_scheduling = refl;
    }

-- The end of a zombie is nothing that the scheduler sees.
pub task_destroy-view :
    (closes : ℕ → Bool) (t : ℕ) (s s' : Kernel) (i i' : Pids)
    → task_destroy closes t s i ≡ returns (s', i')
    → SameView s s'
unfolding task_destroy
task_destroy-view closes t s s' i i' e = elim (Bool-cases (is_zombie (states s t))) [
  | inr n ↦ absurd (cc (rw n at e))
  | inl y ↦
      let e' = returns_inj (rw y at e) in
      subst (SameView s) (ap (λ x. x.0) e') (
        view_trans s dropped (unlink t closed) (drop_memory-view t s) (
          view_trans dropped closed (unlink t closed) (task_close_files-view closes t dropped)
            (unlink-view t closed)))
]
  where
    dropped : Kernel
    dropped = drop_memory t s

    closed : Kernel
    closed = task_close_files closes t dropped
