-- ===== src/Core/Sched/View.antt =====
-- Changes of tasks that the scheduler does not see.
use wey_os.Base.{ℕ, ◌≡◌, refl, sym, subst, ◌∙◌}
use wey_os.Core.Sched.{Kernel, Task, set_task}
use wey_os.Core.Sched.Order.{Fits, Fits-pointwise}
use wey_os.Core.Sched.Fields.{IsSched, states, pids, set_task_kept}

-- The same states and identifiers, the same queue and the same current task.
pub record SameView (s s' : Kernel) : Type 0 where
  pub view_states : (t : ℕ) → states s' t ≡ states s t
  pub view_pids : (t : ℕ) → pids s' t ≡ pids s t
  pub view_queue : s'.ready_queue ≡ s.ready_queue
  pub view_current : s'.current ≡ s.current
  pub view_idle : s'.idle ≡ s.idle
  pub view_scheduling : s'.scheduling ≡ s.scheduling

pub view_refl : (s : Kernel) → SameView s s
view_refl s = record {
  view_states = λ t. refl;
  view_pids = λ t. refl;
  view_queue = refl;
  view_current = refl;
  view_idle = refl;
  view_scheduling = refl;
}

pub view_trans : (s u v : Kernel) → SameView s u → SameView u v → SameView s v
view_trans s u v a b = record {
  view_states = λ t. b.view_states t ∙ a.view_states t;
  view_pids = λ t. b.view_pids t ∙ a.view_pids t;
  view_queue = b.view_queue ∙ a.view_queue;
  view_current = b.view_current ∙ a.view_current;
  view_idle = b.view_idle ∙ a.view_idle;
  view_scheduling = b.view_scheduling ∙ a.view_scheduling;
}

-- A write to one task that keeps its state and identifier.
pub set_task-view :
    (t : ℕ) (v : Task) (s : Kernel)
    → v.state ≡ states s t
    → v.pid ≡ pids s t
    → SameView s (set_task t v s)
unfolding set_task
set_task-view t v s e e' = record {
  view_states = set_task_kept (λ x. x.state) t v s e;
  view_pids = set_task_kept (λ x. x.pid) t v s e';
  view_queue = refl;
  view_current = refl;
  view_idle = refl;
  view_scheduling = refl;
}

pub view-IsSched : (s s' : Kernel) → SameView s s' → IsSched s → IsSched s'
view-IsSched s s' v f =
    subst (λ i. Fits i (states s') (pids s') s'.ready_queue s'.current) (sym v.view_idle)
      (subst (λ q. Fits s.idle (states s') (pids s') q s'.current) (sym v.view_queue)
        (subst (λ c. Fits s.idle (states s') (pids s') s.ready_queue c) (sym v.view_current)
          (Fits-pointwise v.view_states v.view_pids f)))
