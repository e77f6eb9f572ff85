-- ===== src/Core/Sched/Dispatch.antt =====
-- `schedule`, and the wakeup of a task, keep the invariant of the scheduler.
use wey_os.Base.{
  ℕ, ◌≡◌, ◌≢◌, inl, inr, refl, ap, sym, subst, ◌∙◌, true, false, none, some, List, [], ◌∷◌, ◌==◌,
  not, if◌then◌else◌, arith, Bool-cases, ==_iff, In,
}
use wey_os.Core.Sched.{
  TaskState, task_ready, task_new, task_running, Kernel, is_blocked, is_zombie, is_running,
  set_task, set_state, scheduler_add, next, task_wakeup, task_handle_prev_status,
  cpu_update_current_task, switch_to, context_switch, fallback, dispatch, schedule,
}
use wey_os.Core.Sched.Order.{Fits, is_waiting, Fits-pointwise, Fits-enqueue}
use wey_os.Core.Sched.Moves.{Fits-current, Fits-idle}
use wey_os.Core.Sched.Fields.{
  IsSched, List-cases, pids, pids-set_state, set_task_ne, states, states-set_state,
}
use wey_os.Core.Sched.Steps.{switch_to-IsSched}

-- What `schedule` does, by the queue.
module _ (s : Kernel) where
  pub schedule-off : s.scheduling ≡ false → schedule s ≡ s
  unfolding schedule
  schedule-off off = rw off refl

  next-cons :
      {t : ℕ} {ts : List ℕ}
      → s.ready_queue ≡ t ∷ ts
      → next s ≡ (some t, record s { ready_queue = ts })
  unfolding next
  next-cons q = rw q refl

  next-nil : s.ready_queue ≡ [] → next s ≡ (none, s)
  unfolding next
  next-nil q = rw q refl

  pub schedule-cons :
      {t : ℕ} {ts : List ℕ}
      → s.scheduling ≡ true
      → s.ready_queue ≡ t ∷ ts
      → schedule s ≡ context_switch s.current t (record s { ready_queue = ts })
  unfolding schedule dispatch
  schedule-cons on q =
      ap (λ b. if not b then s else dispatch (next s)) on ∙ ap dispatch (next-cons q)

  pub schedule-nil :
      s.scheduling ≡ true
      → s.ready_queue ≡ []
      → schedule s ≡ context_switch s.current (fallback s) s
  unfolding schedule dispatch
  schedule-nil on q = ap (λ b. if not b then s else dispatch (next s)) on ∙ ap dispatch (next-nil q)

pub context_switch_ne :
    (prev to : ℕ) (s : Kernel)
    → prev ≢ to
    → to ≢ s.current
    → context_switch prev to s ≡ switch_to prev to s
unfolding context_switch
context_switch_ne prev to s n m =
    let e : (prev == to) ≡ false = ground arith in
    let e' : (to == s.current) ≡ false = ground arith in rw (e, e') refl

context_switch_self : (t : ℕ) (s : Kernel) → context_switch t t s ≡ s
unfolding context_switch
context_switch_self t s = let e : (t == t) ≡ true = ground arith in rw e refl

fallback_blocked : (s : Kernel) → is_blocked (states s s.current) ≡ true → fallback s ≡ s.idle
unfolding fallback
fallback_blocked s b = rw b refl

fallback_awake : (s : Kernel) → is_blocked (states s s.current) ≡ false → fallback s ≡ s.current
unfolding fallback
fallback_awake s b = rw b refl

-- A blocked task is left alone when it is switched from.
handle_blocked :
    (t : ℕ) (s : Kernel) → is_blocked (states s t) ≡ true → task_handle_prev_status t s ≡ s
unfolding task_handle_prev_status
handle_blocked t s b =
    let z : is_zombie (states s t) ≡ false = only_zombie (states s t) b in
    let r : is_running (states s t) ≡ false = only_running (states s t) b in
    elim (Bool-cases (pids s t == 0)) [ inl e ↦ rw e refl | inr e ↦ rw (e, z, r) refl ]
  where
    only_zombie : (x : TaskState) → is_blocked x ≡ true → is_zombie x ≡ false
    only_zombie x h = ground arith

    only_running : (x : TaskState) → is_blocked x ≡ true → is_running x ≡ false
    only_running x h = ground arith

module _ (s : Kernel) (f : IsSched s) (b : is_blocked (states s s.current) ≡ true) where
  blocked_busy : s.current ≢ s.idle
  blocked_busy e =
      let y : is_blocked (states s s.idle) ≡ true = ap (λ t. is_blocked (states s t)) (sym e) ∙ b in
      absurd (cc (rw (f.idle_awake.1) at y))

  -- With nothing to run, the idle task takes the place of a blocked one.
  pub switch_to-idle :
      switch_to s.current s.idle s ≡ set_state s.idle task_running (record s { current = s.idle })
  unfolding switch_to cpu_update_current_task
  switch_to-idle = handle_blocked s.current (set_state s.idle task_running left) stays
    where
      left : Kernel
      left = record s { current = s.idle }

      stays : is_blocked (states (set_state s.idle task_running left) s.current) ≡ true
      stays =
          ap (λ x. is_blocked x.state)
            (set_task_ne s.idle (record (s.task s.idle) { state = task_running }) left s.current
              blocked_busy)
          ∙ b

  switch_to_idle-IsSched : IsSched (switch_to s.current s.idle s)
  unfolding set_state
  switch_to_idle-IsSched = subst IsSched (sym switch_to-idle) (
      Fits-pointwise (states-set_state s.idle task_running (record s { current = s.idle }))
        (pids-set_state s.idle task_running (record s { current = s.idle }))
        (Fits-idle (stopped (states s s.current) b) f))
    where
      stopped : (x : TaskState) → is_blocked x ≡ true → is_running x ≡ false
      stopped x h = ground arith

-- What `schedule` comes to, by the queue and the state of the current task.
pub schedule-taken :
    (s : Kernel) {t : ℕ} {ts : List ℕ}
    → IsSched s
    → s.scheduling ≡ true
    → s.ready_queue ≡ t ∷ ts
    → schedule s ≡ switch_to s.current t (record s { ready_queue = ts })
schedule-taken s {t} {ts} f on q =
    schedule-cons s on q
    ∙ context_switch_ne s.current t (record s { ready_queue = ts }) apart (λ e. apart (sym e))
  where
    apart : s.current ≢ t
    apart e = f.current_out (subst (λ l. In s.current l) (sym q) (inl e))

pub schedule-blocked :
    (s : Kernel)
    → IsSched s
    → s.scheduling ≡ true
    → s.ready_queue ≡ []
    → is_blocked (states s s.current) ≡ true
    → schedule s ≡ switch_to s.current s.idle s
schedule-blocked s f on q b =
    schedule-nil s on q
    ∙ ap (λ t. context_switch s.current t s) (fallback_blocked s b)
    ∙ context_switch_ne s.current s.idle s (blocked_busy s f b) (λ e. blocked_busy s f b (sym e))

pub schedule-stays :
    (s : Kernel)
    → s.scheduling ≡ true
    → s.ready_queue ≡ []
    → is_blocked (states s s.current) ≡ false
    → schedule s ≡ s
schedule-stays s on q b =
    schedule-nil s on q
    ∙ ap (λ t. context_switch s.current t s) (fallback_awake s b)
    ∙ context_switch_self s.current s

-- `schedule` keeps the invariant, in every state of the current task.
pub schedule-IsSched : (s : Kernel) → IsSched s → IsSched (schedule s)
schedule-IsSched s f = elim (Bool-cases s.scheduling) [
  | inr off ↦ subst IsSched (sym (schedule-off s off)) f
  | inl on ↦ elim (List-cases s.ready_queue) [
    | inr (t, ts, q) ↦ subst IsSched (sym (schedule-taken s f on q)) (
        switch_to-IsSched t (record s { ready_queue = ts })
          (subst (λ l. Fits s.idle (states s) (pids s) l s.current) q f))
    | inl q ↦ elim (Bool-cases (is_blocked (states s s.current))) [
      | inl b ↦ subst IsSched (sym (schedule-blocked s f on q b)) (switch_to_idle-IsSched s f b)
      | inr b ↦ subst IsSched (sym (schedule-stays s on q b)) f
    ]
  ]
]

module _ (s : Kernel) (f : IsSched s) where
  -- A task that takes the current one to `schedule` in another state: `task_sleep`, `task_exit`.
  pub set_current-IsSched :
      (v : TaskState)
      → s.current ≢ s.idle
      → is_waiting v ≡ false
      → IsSched (set_state s.current v s)
  unfolding set_state set_task
  set_current-IsSched v n w =
      Fits-pointwise (states-set_state s.current v s) (pids-set_state s.current v s)
        (Fits-current v n w f)

  pub task_wakeup-IsSched : (t : ℕ) → t ≢ s.current → IsSched (task_wakeup t s)
  unfolding task_wakeup scheduler_add
  task_wakeup-IsSched t n = elim (Bool-cases (is_blocked (states s t))) [
    | inr r ↦ rw r f
    | inl b ↦ rw b (
        Fits-pointwise (states-set_state t task_ready s) (pids-set_state t task_ready s) (
          Fits-enqueue task_ready t refl (woken b) n (λ i. asleep (states s t) b (f.queued t i))
            (has_pid b) f))
  ]
    where
      asleep : (x : TaskState) → is_blocked x ≡ true → ¬ (is_waiting x ≡ true)
      asleep x h g = absurd (ground arith)

      woken : is_blocked (states s t) ≡ true → t ≢ s.idle
      woken b e =
          let y : is_blocked (states s s.idle) ≡ true =
            ap (λ u. is_blocked (states s u)) (sym e) ∙ b in
          absurd (cc (rw (f.idle_awake.1) at y))

      has_pid : is_blocked (states s t) ≡ true → pids s t ≢ 0
      has_pid b e =
          let y : is_blocked task_new ≡ true = rw (f.named t (woken b) e).0 at b in absurd (cc y)

  -- The wakeup of any task, while the current one is not about to sleep.
  pub task_wakeup_awake-IsSched :
      (t : ℕ) → is_blocked (states s s.current) ≡ false → IsSched (task_wakeup t s)
  unfolding task_wakeup
  task_wakeup_awake-IsSched t a = elim (Bool-cases (t == s.current)) [
    | inr n ↦ task_wakeup-IsSched t (λ e. absurd (ground arith))
    | inl y ↦
        let b : is_blocked (states s t) ≡ false =
          ap (λ u. is_blocked (states s u)) ((==_iff t s.current).0 y) ∙ a in
        rw b f
  ]
