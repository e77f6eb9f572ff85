-- ===== src/Core/Fork/Queue.antt =====
-- `kernel_thread`, as the scheduler sees it.
use wey_os.Base.{
  ℕ, ◌≡◌, ◌≢◌, refl, ap, sym, subst, ◌∙◌, inl, inr, true, Option, none, some, [], ◌∷◌, ◌==◌, arith,
  Bool-cases, In,
}
use wey_os.Core.Pid.{Pids, alloc}
use wey_os.Core.Pid.Alloc.{IsPids, IsFree, alloc-Taken}
use wey_os.Core.Sched.{task_new, task_ready, Task, Kernel, set_task, scheduler_add}
use wey_os.Core.Sched.Order.{is_waiting, put, Fits-pointwise, Fits-enqueue, Fits-created}
use wey_os.Core.Sched.Fields.{IsSched, states, pids, set_task_self, set_task_ne, states-set_task}
use wey_os.Core.Sched.View.{SameView}
use wey_os.Core.Sched.Shape.{grown_refl}
use wey_os.Core.Sched.Quiet.{Kept, Kept-refl, Kept-trans}
use wey_os.Core.Fork.{minus, created, task_create, pid_word, start_thread, kernel_thread}

-- Memory that holds no task that the scheduler knows.
pub record IsFresh (t : ℕ) (s : Kernel) : Type 0 where
  pub not_idle : t ≢ s.idle
  pub not_current : t ≢ s.current
  pub not_queued : ¬ In t s.ready_queue

-- The identifiers are in order, and that of the idle task is taken.
abbrev pub HasReserved : Pids → Type 0
HasReserved i = IsPids i × (¬ IsFree i.pids 0)

pub alloc_positive : (i : Pids) (p : ℕ) → HasReserved i → (alloc i).0 ≡ some p → p ≢ 0
alloc_positive i p (v, n) e z = n (subst (IsFree i.pids) z ((alloc-Taken i v).0 p e).was_free)

module _ (t : ℕ) (s : Kernel) (fresh : IsFresh t s) (f : IsSched s) where
  -- A task that waits for the processor under a pid is added.
  add-IsSched :
      (v : Task)
      → is_waiting v.state ≡ true
      → v.pid ≢ 0
      → IsSched (scheduler_add t (set_task t v s))
  unfolding scheduler_add set_task
  add-IsSched v w n =
      Fits-pointwise both (λ u. refl)
        (Fits-enqueue v.state t w fresh.not_idle fresh.not_current fresh.not_queued named (
          Fits-created t (pids (set_task t v s)) fresh.not_idle fresh.not_current fresh.not_queued
            (λ u h. ap (λ x. x.pid) (set_task_ne t v s u h)) f))
    where
      named : pids (set_task t v s) t ≢ 0
      named e = n (sym (ap (λ x. x.pid) (set_task_self t v s)) ∙ e)

      both : (u : ℕ) → states (set_task t v s) u ≡ put t v.state (put t task_new (states s)) u
      both u =
          states-set_task t v s u
          ∙ elim (Bool-cases (u == t)) [ inl e ↦ rw e refl | inr e ↦ rw e refl ]

  -- Memory is cleared for a task.
  task_create-IsSched : (priority : ℕ) → IsSched (task_create t priority s)
  unfolding task_create set_task
  task_create-IsSched priority =
      Fits-pointwise (states-set_task t (created priority) s) (λ u. refl)
        (Fits-created t (pids (set_task t (created priority) s)) fresh.not_idle fresh.not_current
          fresh.not_queued (λ u h. ap (λ x. x.pid) (set_task_ne t (created priority) s u h)) f)

  pub add-Kept :
      (v : Task) → is_waiting v.state ≡ true → v.pid ≢ 0 → Kept s (scheduler_add t (set_task t v s))
  unfolding scheduler_add set_task
  add-Kept v w n = record {
    order = add-IsSched v w n;
    same_current = refl;
    same_scheduling = refl;
    same_state = ap (λ x. x.state) (set_task_ne t v s s.current (λ e. fresh.not_current (sym e)));
    longer = (t ∷ [], refl);
  }

  pub task_create-Kept : (priority : ℕ) → Kept s (task_create t priority s)
  unfolding task_create set_task
  task_create-Kept priority = record {
    order = task_create-IsSched priority;
    same_current = refl;
    same_scheduling = refl;
    same_state =
        ap (λ x. x.state)
          (set_task_ne t (created priority) s s.current (λ e. fresh.not_current (sym e)));
    longer = grown_refl s.ready_queue;
  }

  pub task_create-IsFresh : (priority : ℕ) → IsFresh t (task_create t priority s)
  unfolding task_create set_task
  task_create-IsFresh priority = record {
    not_idle = fresh.not_idle;
    not_current = fresh.not_current;
    not_queued = fresh.not_queued;
  }

pub view-IsFresh : (t : ℕ) (s s' : Kernel) → SameView s s' → IsFresh t s → IsFresh t s'
view-IsFresh t s s' v h = record {
  not_idle = λ e. h.not_idle (e ∙ v.view_idle);
  not_current = λ e. h.not_current (e ∙ v.view_current);
  not_queued = λ i. h.not_queued (subst (In t) v.view_queue i);
}

start_thread-Kept :
    (t ksp : ℕ) (s : Kernel) (i : Pids)
    → IsFresh t s
    → IsSched s
    → HasReserved i
    → Kept s (start_thread t ksp s i).1
unfolding start_thread
start_thread-Kept t ksp s i fresh f r = go (alloc i).0 refl
  where
    started : Option ℕ → Task
    started o = record (s.task t) { pid = pid_word o; kstack = some ksp; state = task_ready }

    go : (o : Option ℕ) → (alloc i).0 ≡ o → Kept s (start_thread t ksp s i).1
    go none e =
        rw (e, start_thread) (add-Kept t s fresh f (started none) refl (λ z. absurd (omega arith)))
    go (some p) e =
        let n = alloc_positive i p r e in
        elim (Bool-cases (p == minus 1)) [
          | inl y ↦ rw (e, y, start_thread) (Kept-refl s f)
          | inr y ↦ rw (e, y, start_thread) (add-Kept t s fresh f (started (some p)) refl n)
        ]

-- `kernel_thread`, whatever it returns.
pub kernel_thread-Kept :
    (t : ℕ) (ksp : Option ℕ) (s : Kernel) (i : Pids)
    → IsFresh t s
    → IsSched s
    → HasReserved i
    → Kept s (kernel_thread (some t) ksp s i).1
unfolding kernel_thread
kernel_thread-Kept t none s i fresh f r = task_create-Kept t s fresh f 0
kernel_thread-Kept t (some ksp) s i fresh f r =
    let c = task_create-Kept t s fresh f 0 in
    Kept-trans s (task_create t 0 s) (start_thread t ksp (task_create t 0 s) i).1 c
      (start_thread-Kept t ksp (task_create t 0 s) i (task_create-IsFresh t s fresh f 0) c.order r)
