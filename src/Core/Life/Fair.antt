-- ===== src/Core/Life/Fair.antt =====
-- No task that waits for the processor is forgotten.
use wey_os.Base.{
  ℕ, suc, ◌≤◌, ◌<◌, ◌≡◌, ◌≢◌, ◌⊎◌, refl, ap, sym, ◌∙◌, inl, inr, Bool, true, false, Option, List,
  [], ◌∷◌, ◌++◌, append_assoc, if◌then◌else◌, arith, length, In,
}
use wey_os.Core.Sched.{
  task_ready, task_blocked, Kernel, is_blocked, set_task, set_state, task_sleep, schedule,
  sleep_current,
}
use wey_os.Core.Sched.Order.{is_ready}
use wey_os.Core.Sched.Fields.{IsSched, states}
use wey_os.Core.Sched.Dispatch.{set_current-IsSched, schedule-IsSched}
use wey_os.Core.Sched.Shape.{Grown, grown_refl, grown_trans, schedule-Switched}
use wey_os.Core.Sched.Quiet.{Kept, wakeup-Kept, view-Kept}
use wey_os.Core.Task.{returns, task_exit}
use wey_os.Core.Task.Exit.{task_exit-IsSched, task_exit-Grown, task_destroy-view}
use wey_os.Core.Fork.Queue.{kernel_thread-Kept}
use wey_os.Core.Fork.Child.{fork-Kept}
use wey_os.Core.Life.{Step, tick, sleep, wake, thread, child, exit, reap, Trace, stop, step, Live}

-- The operations that end in `schedule`.
abbrev pub is_switch : {s s' : Kernel} → Step s s' → Bool
is_switch (tick s) = true
is_switch (sleep s n) = true
is_switch (exit s s' i c n e) = true
is_switch _ = false

abbrev pub switches : {s s' : Kernel} → Trace s s' → ℕ
switches (stop s) = 0
switches (step st on) = let rest = switches on in if is_switch st then suc rest else rest

-- The first of the queue runs behind a switch.
record Advanced (s s' : Kernel) : Type 0 where
  live : Live s'
  first :
      (t : ℕ) (ts : List ℕ) → s.ready_queue ≡ t ∷ ts → (s'.current ≡ t) × Grown ts s'.ready_queue

record Stayed (s s' : Kernel) : Type 0 where
  live : Live s'
  longer : Grown s.ready_queue s'.ready_queue

Kept-Stayed : {s s' : Kernel} → Live s → Kept s s' → Stayed s s'
Kept-Stayed {s} {s'} l k = record {
  live = record {
    in_order = k.order;
    awake =
        ap (λ t. is_blocked (states s' t)) k.same_current ∙ ap is_blocked k.same_state ∙ l.awake;
    running = k.same_scheduling ∙ l.running;
  };
  longer = k.longer;
}

schedule-Advanced : (s : Kernel) → IsSched s → s.scheduling ≡ true → Advanced s (schedule s)
schedule-Advanced s f on =
    let w = schedule-Switched s f on in
    record {
      live = record { in_order = schedule-IsSched s f; awake = w.awake; running = w.still_on };
      first = w.taken;
    }

-- Something was added to the queue before.
after-Grown : {s u s' : Kernel} → Grown s.ready_queue u.ready_queue → Advanced u s' → Advanced s s'
after-Grown {s} {u} {s'} (extra, g) a = record {
  live = a.live;
  first = λ t ts q.
      let (e, h) = a.first t (ts ++ extra) (g ∙ ap (λ l. l ++ extra) q) in
      (e, grown_trans ts (ts ++ extra) s'.ready_queue (extra, refl) h);
}

sleep-Advanced : (s : Kernel) → Live s → s.current ≢ s.idle → Advanced s (sleep_current s)
unfolding sleep_current task_sleep set_state set_task
sleep-Advanced s l n = after-Grown {u = task_sleep s.current s} (grown_refl s.ready_queue) (
    schedule-Advanced (task_sleep s.current s)
      (set_current-IsSched s l.in_order task_blocked n refl) l.running)

exit-Advanced :
    (init_task : Option ℕ) (status : ℕ) (s s' : Kernel)
    → Live s
    → s.current ≢ s.idle
    → task_exit init_task s.current status s ≡ returns s'
    → Advanced s (schedule s')
exit-Advanced init_task status s s' l n e =
    let g = task_exit-Grown init_task status s s' e in
    after-Grown {u = s'} g.0 (
      schedule-Advanced s' (task_exit-IsSched init_task status s s' e l.in_order n)
        (g.1 ∙ l.running))

-- What one operation does.
Step-cases :
    {s s' : Kernel} (st : Step s s')
    → Live s
    → ((is_switch st ≡ true) × Advanced s s') ⊎ ((is_switch st ≡ false) × Stayed s s')
Step-cases (tick s) l = inl (refl, schedule-Advanced s l.in_order l.running)
Step-cases (sleep s n) l = inl (refl, sleep-Advanced s l n)
Step-cases (wake s t) l = inr (refl, Kept-Stayed l (wakeup-Kept t s l.in_order l.awake))
Step-cases (thread s t ksp i fr r) l =
    inr (refl, Kept-Stayed l (kernel_thread-Kept t ksp s i fr l.in_order r))
Step-cases (child s s' a i i' res fr r e) l =
    inr (refl, Kept-Stayed l (fork-Kept a s s' i i' res fr l.in_order r e))
Step-cases (exit s s' init_task status n e) l =
    inl (refl, exit-Advanced init_task status s s' l n e)
Step-cases (reap s s' closes t i i' e) l =
    inr (refl, Kept-Stayed l (view-Kept s s' (task_destroy-view closes t s s' i i' e) l.in_order))

-- Whatever the tasks do, from a kernel in order, which asks that only the idle task has the pid 0
-- once tasks are started: the scheduler runs on, the current task does not sleep, every ready task
-- stands in the queue, no task stands in it twice, what stands in it waits for the processor, the
-- current and the idle task do not stand in it, and among the tasks other than the idle one none but
-- the current one is marked as running. Nothing is said of the mark of the idle task, which keeps it
-- when it is preempted.
pub Trace-Live : {s s' : Kernel} → Live s → Trace s s' → Live s'
Trace-Live l (stop s) = l
Trace-Live l (step st on) = elim (Step-cases st l) [
  | inl h ↦ Trace-Live h.1.live on
  | inr h ↦ Trace-Live h.1.live on
]

-- The task is the current one at some point.
abbrev pub Runs : ℕ → {s s' : Kernel} → Trace s s' → Type 0
Runs t (stop s) = s.current ≡ t
Runs t (step {s} st on) = (s.current ≡ t) ⊎ Runs t on

Runs-first : (t : ℕ) {s s' : Kernel} (on : Trace s s') → s.current ≡ t → Runs t on
Runs-first t (stop s) e = e
Runs-first t (step st on) e = inl e

-- A task in the queue runs after at most one switch more than there are tasks before it, whatever
-- else is done meanwhile.
pub queued-Runs :
    (before : List ℕ) (t : ℕ) (behind : List ℕ) {s s' : Kernel} (on : Trace s s')
    → Live s
    → s.ready_queue ≡ before ++ (t ∷ behind)
    → length before < switches on
    → Runs t on
queued-Runs before t behind (stop s) l q n = absurd (omega arith)
queued-Runs [] t behind (step st on) l q n = elim (Step-cases st l) [
  | inr (k, a) ↦
      let (extra, g) = a.longer in
      inr (queued-Runs [] t (behind ++ extra) on a.live (g ∙ ap (λ x. x ++ extra) q) (rw k at n))
  | inl (k, a) ↦ inr (Runs-first t on (a.first t behind q).0)
]
queued-Runs (u ∷ before) t behind (step st on) l q n = elim (Step-cases st l) [
  | inr (k, a) ↦
      let (extra, g) = a.longer in
      inr (
        queued-Runs (u ∷ before) t (behind ++ extra) on a.live
          (g ∙ ap (λ x. x ++ extra) q ∙ append_assoc (u ∷ before) (t ∷ behind) extra) (rw k at n))
  | inl (k, a) ↦
      let (extra, g) = (a.first u (before ++ (t ∷ behind)) q).1 in
      inr (
        queued-Runs before t (behind ++ extra) on a.live
          (g ∙ append_assoc before (t ∷ behind) extra) (omega (arith, rw k at n)))
]

-- The place of a task in the queue.
split_at :
    (t : ℕ) (q : List ℕ)
    → In t q
    → (before : List ℕ) × (behind : List ℕ) × (q ≡ before ++ (t ∷ behind))
      × (length before < length q)
split_at t [] h = absurd h
split_at t (u ∷ us) (inl e) = ([], us, ap (λ x. x ∷ us) (sym e), omega arith)
split_at t (u ∷ us) (inr h) =
    let (before, behind, e, n) = split_at t us h in
    (u ∷ before, behind, ap (λ l. u ∷ l) e, omega (arith, n))

-- From a kernel in order, in which only the idle task has the pid 0 once tasks are started, a ready
-- task other than the idle one runs after at most as many switches as tasks are queued, whatever else
-- is done meanwhile.
pub ready-Runs :
    (t : ℕ) {s s' : Kernel} (on : Trace s s')
    → Live s
    → t ≢ s.idle
    → states s t ≡ task_ready
    → length s.ready_queue ≤ switches on
    → Runs t on
ready-Runs t {s} on l n e h =
    let (before, behind, q, m) =
      split_at t s.ready_queue (l.in_order.complete t n (ap is_ready e)) in
    queued-Runs before t behind on l q (omega arith)
