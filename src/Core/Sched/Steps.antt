-- ===== src/Core/Sched/Steps.antt =====
-- A switch from one task to another keeps the invariant of the scheduler.
use wey_os.Base.{
  ℕ, ◌≡◌, ◌≢◌, ◌⊎◌, inl, inr, refl, ap, sym, ◌∙◌, true, false, ◌∷◌, ◌==◌, arith, Bool-cases, ==_iff,
}
use wey_os.Core.Sched.{
  TaskState, task_ready, task_running, Kernel, is_zombie, is_running, set_state, scheduler_add,
  task_handle_prev_status, cpu_update_current_task, switch_to,
}
use wey_os.Core.Sched.Order.{Fits, put, Fits-pointwise}
use wey_os.Core.Sched.Moves.{Fits-start, Fits-preempt}
use wey_os.Core.Sched.Fields.{
  IsSched, pids, pids-drop_memory, pids-set_state, put-pointwise, set_task_ne, states,
  states-drop_memory, states-set_state,
}

module _ (t : ℕ) (s : Kernel)
    (f : Fits s.idle (states s) (pids s) (t ∷ s.ready_queue) s.current) where
  -- `_switch_to` the task that was taken from the queue.
  pub switch_to-IsSched : IsSched (switch_to s.current t s)
  unfolding switch_to task_handle_prev_status cpu_update_current_task scheduler_add
  switch_to-IsSched = elim (Bool-cases (pids here s.current == 0)) [
    | inl z ↦ rw z (
        moved (
          inr (
            nobody (
              sym (pids-set_state t task_running left s.current)
              ∙ (==_iff (pids here s.current) 0).0 z))))
    | inr z ↦ elim (Bool-cases (is_zombie (states here s.current))) [
      | inl y ↦
          rw (z, y)
            (Fits-pointwise (states-drop_memory s.current here) (pids-drop_memory s.current here)
              (moved (inl (ap is_running (sym kept) ∙ not_both (states here s.current) y))))
      | inr y ↦ elim (Bool-cases (is_running (states here s.current))) [
        | inl r ↦
            rw (z, y, r)
              (Fits-pointwise behind
                (λ u.
                  pids-set_state s.current task_ready here u ∙ pids-set_state t task_running left u)
                (Fits-preempt f (busy z) (named z)))
        | inr r ↦ rw (z, y, r) (moved (inl (ap is_running (sym kept) ∙ r)))
      ]
    ]
  ]
    where
      left : Kernel
      left = record s { current = t }

      here : Kernel
      here = set_state t task_running left

      kept : states here s.current ≡ states s s.current
      kept =
          ap (λ x. x.state)
            (set_task_ne t (record (s.task t) { state = task_running }) left s.current
              (λ e. f.current_out (inl e)))

      not_both : (x : TaskState) → is_zombie x ≡ true → is_running x ≡ false
      not_both x h = ground arith

      named : (pids here s.current == 0) ≡ false → pids s s.current ≢ 0
      named z e =
          let y : (pids here s.current == 0) ≡ true =
            (==_iff (pids here s.current) 0).1 (pids-set_state t task_running left s.current ∙ e) in
          absurd (cc (rw z at y))

      busy : (pids here s.current == 0) ≡ false → s.current ≢ s.idle
      busy z e = named z (ap (pids s) e ∙ f.idle_pid)

      behind :
          (u : ℕ)
          → states (set_state s.current task_ready here) u
            ≡ put s.current task_ready (put t task_running (states s)) u
      behind u =
          states-set_state s.current task_ready here u
          ∙ put-pointwise s.current task_ready (states-set_state t task_running left) u

      nobody : pids s s.current ≡ 0 → s.current ≡ s.idle
      nobody z = elim (Bool-cases (s.current == s.idle)) [
        | inl e ↦ (==_iff s.current s.idle).0 e
        | inr e ↦ absurd ((f.named s.current (λ h. absurd (ground arith)) z).2 refl)
      ]

      moved : (is_running (states s s.current) ≡ false) ⊎ (s.current ≡ s.idle) → IsSched here
      moved o =
          Fits-pointwise (states-set_state t task_running left) (pids-set_state t task_running left)
            (Fits-start f o)
