-- ===== src/Core/Sched/Quiet.antt =====
-- Operations that leave the current task on the processor.
use wey_os.Base.{ℕ, ◌≡◌, refl, ap, sym, ◌∙◌, inl, inr, true, false, ◌==◌, Bool-cases, ==_iff}
use wey_os.Core.Sched.{
  task_ready, Kernel, is_blocked, set_task, set_state, scheduler_add, task_wakeup,
}
use wey_os.Core.Sched.Fields.{IsSched, states, states-set_state}
use wey_os.Core.Sched.Dispatch.{task_wakeup_awake-IsSched}
use wey_os.Core.Sched.View.{SameView, view-IsSched}
use wey_os.Core.Sched.Shape.{Grown, grown_refl, grown_trans, view-Grown, wakeup-Grown}

-- The invariant holds, and the queue grew at its end at most.
pub record Kept (s s' : Kernel) : Type 0 where
  pub order : IsSched s'
  pub same_current : s'.current ≡ s.current
  pub same_scheduling : s'.scheduling ≡ s.scheduling
  pub same_state : states s' s.current ≡ states s s.current
  pub longer : Grown s.ready_queue s'.ready_queue

pub Kept-refl : (s : Kernel) → IsSched s → Kept s s
Kept-refl s f = record {
  order = f;
  same_current = refl;
  same_scheduling = refl;
  same_state = refl;
  longer = grown_refl s.ready_queue;
}

pub Kept-trans : (s u v : Kernel) → Kept s u → Kept u v → Kept s v
Kept-trans s u v a b = record {
  order = b.order;
  same_current = b.same_current ∙ a.same_current;
  same_scheduling = b.same_scheduling ∙ a.same_scheduling;
  same_state =
      ap (states v) (sym a.same_current)
      ∙ b.same_state
      ∙ ap (states u) a.same_current
      ∙ a.same_state;
  longer = grown_trans s.ready_queue u.ready_queue v.ready_queue a.longer b.longer;
}

pub view-Kept : (s s' : Kernel) → SameView s s' → IsSched s → Kept s s'
view-Kept s s' v f = record {
  order = view-IsSched s s' v f;
  same_current = v.view_current;
  same_scheduling = v.view_scheduling;
  same_state = v.view_states s.current;
  longer = view-Grown s s' v;
}

module _ (t : ℕ) (s : Kernel) where
  pub wakeup_same :
      ((task_wakeup t s).current ≡ s.current) × ((task_wakeup t s).scheduling ≡ s.scheduling)
  unfolding task_wakeup scheduler_add set_state set_task
  wakeup_same = elim (Bool-cases (is_blocked (states s t))) [
    | inl b ↦ rw b (refl, refl)
    | inr b ↦ rw b (refl, refl)
  ]

  wakeup_state :
      is_blocked (states s s.current) ≡ false
      → states (task_wakeup t s) s.current ≡ states s s.current
  unfolding task_wakeup scheduler_add
  wakeup_state a = elim (Bool-cases (is_blocked (states s t))) [
    | inr b ↦ rw b refl
    | inl b ↦ elim (Bool-cases (s.current == t)) [
      | inl y ↦
          let e : is_blocked (states s s.current) ≡ true =
            ap (λ u. is_blocked (states s u)) ((==_iff s.current t).0 y) ∙ b in
          absurd (cc (rw a at e))
      | inr y ↦ rw b (states-set_state t task_ready s s.current ∙ (rw y refl))
    ]
  ]

  -- A wakeup, when the current task is not about to sleep.
  pub wakeup-Kept : IsSched s → is_blocked (states s s.current) ≡ false → Kept s (task_wakeup t s)
  wakeup-Kept f a = record {
    order = task_wakeup_awake-IsSched s f t a;
    same_current = wakeup_same.0;
    same_scheduling = wakeup_same.1;
    same_state = wakeup_state a;
    longer = wakeup-Grown t s;
  }
