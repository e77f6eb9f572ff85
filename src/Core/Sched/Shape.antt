-- ===== src/Core/Sched/Shape.antt =====
-- The queue, and the task that runs, after an operation of the scheduler.
use wey_os.Base.{
  ℕ, ◌≡◌, ◌≢◌, refl, ap, sym, subst, ◌∙◌, inl, inr, true, false, List, [], ◌∷◌, ◌++◌, append-nil,
  append_assoc, ◌==◌, arith, Bool-cases, In,
}
use wey_os.Core.Sched.{
  task_ready, task_running, Kernel, is_blocked, is_zombie, is_running, set_state, set_task,
  scheduler_add, task_wakeup, drop_memory, task_handle_prev_status, cpu_update_current_task,
  switch_to, schedule,
}
use wey_os.Core.Sched.Fields.{IsSched, states, List-cases, states-set_state, states-drop_memory}
use wey_os.Core.Sched.Dispatch.{schedule-taken, schedule-blocked, schedule-stays, switch_to-idle}
use wey_os.Core.Sched.View.{SameView}

-- A queue that grew at its end.
abbrev pub Grown : List ℕ → List ℕ → Type 0
Grown q q' = (extra : List ℕ) × (q' ≡ q ++ extra)

pub grown_refl : (q : List ℕ) → Grown q q
grown_refl q = ([], sym (append-nil q))

pub grown_trans : (p q r : List ℕ) → Grown p q → Grown q r → Grown p r
grown_trans p q r (x, e) (y, e') = (x ++ y, e' ∙ ap (λ l. l ++ y) e ∙ append_assoc p x y)

pub view-Grown : (s s' : Kernel) → SameView s s' → Grown s.ready_queue s'.ready_queue
view-Grown s s' v = ([], v.view_queue ∙ sym (append-nil s.ready_queue))

-- What happens to a task that is switched from, beside its own state.
record Handled (s s' : Kernel) (t : ℕ) : Type 0 where
  keeps_current : s'.current ≡ s.current
  keeps_scheduling : s'.scheduling ≡ s.scheduling
  keeps_state : states s' t ≡ states s t
  grows : Grown s.ready_queue s'.ready_queue

Handled-refl : (s : Kernel) (t : ℕ) → Handled s s t
Handled-refl s t = record {
  keeps_current = refl;
  keeps_scheduling = refl;
  keeps_state = refl;
  grows = grown_refl s.ready_queue;
}

handle-Handled : (prev t : ℕ) (s : Kernel) → t ≢ prev → Handled s (task_handle_prev_status prev s) t
unfolding task_handle_prev_status drop_memory scheduler_add set_state
handle-Handled prev t s n = elim (Bool-cases ((s.task prev).pid == 0)) [
  | inl z ↦ rw z (Handled-refl s t)
  | inr z ↦ elim (Bool-cases (is_zombie (states s prev))) [
    | inl y ↦
        rw (z, y)
          (record {
            keeps_current = refl;
            keeps_scheduling = refl;
            keeps_state = states-drop_memory prev s t;
            grows = grown_refl s.ready_queue;
          })
    | inr y ↦ elim (Bool-cases (is_running (states s prev))) [
      | inl r ↦
          rw (z, y, r)
            (record {
              keeps_current = refl;
              keeps_scheduling = refl;
              keeps_state =
                  let e : (t == prev) ≡ false = ground arith in
                  states-set_state prev task_ready s t ∙ (rw e refl);
              grows = (prev ∷ [], refl);
            })
      | inr r ↦ rw (z, y, r) (Handled-refl s t)
    ]
  ]
]

states-current : (t : ℕ) (s : Kernel) → is_blocked (states (cpu_update_current_task t s) t) ≡ false
unfolding cpu_update_current_task
states-current t s =
    let e : (t == t) ≡ true = ground arith in
    ap is_blocked (states-set_state t task_running (record s { current = t }) t) ∙ (rw e refl)

-- After `schedule` the first task of the queue runs, and the others have moved up.
pub record Switched (s s' : Kernel) : Type 0 where
  pub taken :
      (t : ℕ) (ts : List ℕ) → s.ready_queue ≡ t ∷ ts → (s'.current ≡ t) × Grown ts s'.ready_queue
  pub awake : is_blocked (states s' s'.current) ≡ false
  pub still_on : s'.scheduling ≡ true

cons_inj : {t u : ℕ} {ts us : List ℕ} → ◌≡◌ {A = List ℕ} (t ∷ ts) (u ∷ us) → (t ≡ u) × (ts ≡ us)
cons_inj e = (cc, cc)

no_first : (s : Kernel) {t : ℕ} {ts : List ℕ} → s.ready_queue ≡ [] → ¬ (s.ready_queue ≡ t ∷ ts)
no_first s e e' = absurd (cc)

taken-Switched :
    (s : Kernel) (t : ℕ) (ts : List ℕ)
    → t ≢ s.current
    → s.scheduling ≡ true
    → s.ready_queue ≡ t ∷ ts
    → Switched s (switch_to s.current t (record s { ready_queue = ts }))
unfolding switch_to cpu_update_current_task set_state set_task
taken-Switched s t ts n on q = record {
  taken = λ u us q'.
      let (e, e') = cons_inj (sym q ∙ q') in
      (h.keeps_current ∙ e, subst (λ l. Grown l after.ready_queue) e' h.grows);
  awake =
      ap (λ x. is_blocked (states after x)) h.keeps_current
      ∙ ap is_blocked h.keeps_state
      ∙ states-current t (record s { ready_queue = ts });
  still_on = h.keeps_scheduling ∙ on;
}
  where
    here : Kernel
    here = cpu_update_current_task t (record s { ready_queue = ts })

    after : Kernel
    after = task_handle_prev_status s.current here

    h : Handled here after t
    h = handle-Handled s.current t here n

pub schedule-Switched : (s : Kernel) → IsSched s → s.scheduling ≡ true → Switched s (schedule s)
unfolding cpu_update_current_task set_state set_task
schedule-Switched s f on = elim (List-cases s.ready_queue) [
  | inr (t, ts, q) ↦
      subst (Switched s) (sym (schedule-taken s f on q)) (
        taken-Switched s t ts (λ e. f.current_out (subst (In s.current) (sym q) (inl (sym e)))) on
          q)
  | inl q ↦ elim (Bool-cases (is_blocked (states s s.current))) [
    | inl b ↦
        subst (Switched s) (sym (schedule-blocked s f on q b ∙ switch_to-idle s f b)) (record {
          taken = λ t ts q'. absurd (no_first s q q');
          awake = states-current s.idle s;
          still_on = on;
        })
    | inr b ↦
        subst (Switched s) (sym (schedule-stays s on q b))
          (record { taken = λ t ts q'. absurd (no_first s q q'); awake = b; still_on = on })
  ]
]

-- A wakeup of any task.
pub wakeup-Grown : (t : ℕ) (s : Kernel) → Grown s.ready_queue (task_wakeup t s).ready_queue
unfolding task_wakeup scheduler_add set_state set_task
wakeup-Grown t s = elim (Bool-cases (is_blocked (states s t))) [
  | inl b ↦ rw b (t ∷ [], refl)
  | inr b ↦ rw b (grown_refl s.ready_queue)
]
