-- ===== src/Core/Sched/Fields.antt =====
-- The states and identifiers of the tasks after a write to one of them, and the invariant on a kernel.
use wey_os.Base.{
  ℕ, ◌≡◌, ◌≢◌, ◌⊎◌, inl, inr, refl, ap, sym, subst, ◌∙◌, true, false, none, List, [], ◌∷◌, ◌==◌,
  arith, Bool-cases, ==_iff,
}
use wey_os.Core.Sched.{TaskState, Task, Kernel, set_task, set_state, drop_memory}
use wey_os.Core.Sched.Order.{Fits, put}

abbrev pub states : Kernel → ℕ → TaskState
states s t = (s.task t).state

abbrev pub pids : Kernel → ℕ → ℕ
pids s t = (s.task t).pid

-- The queue holds the tasks that wait for the processor, each once, and no other task than the
-- current and the idle one is marked as running.
abbrev pub IsSched : Kernel → Type 0
IsSched s = Fits s.idle (states s) (pids s) s.ready_queue s.current

pub List-cases {ℓ} :
    {A : Type ℓ} (xs : List A) → (xs ≡ []) ⊎ ((y : A) × (ys : List A) × (xs ≡ y ∷ ys))
List-cases [] = inl refl
List-cases (y ∷ ys) = inr (y, ys, refl)

module _ (t : ℕ) (v : Task) (s : Kernel) where
  pub set_task_self : (set_task t v s).task t ≡ v
  unfolding set_task
  set_task_self = let e : (t == t) ≡ true = ground arith in rw e refl

  pub set_task_ne : (u : ℕ) → u ≢ t → (set_task t v s).task u ≡ s.task u
  unfolding set_task
  set_task_ne u n = let e : (u == t) ≡ false = ground arith in rw e refl

-- A write to one task that keeps a field keeps it everywhere.
pub set_task_kept {ℓ} :
    {A : Type ℓ} (field : Task → A) (t : ℕ) (v : Task) (s : Kernel)
    → field v ≡ field (s.task t)
    → (u : ℕ) → field ((set_task t v s).task u) ≡ field (s.task u)
set_task_kept field t v s k u = elim (Bool-cases (u == t)) [
  | inl e ↦
      let same : u ≡ t = (==_iff u t).0 e in
      subst (λ w. field ((set_task t v s).task w) ≡ field (s.task w)) (sym same)
        (ap field (set_task_self t v s) ∙ k)
  | inr e ↦ ap field (set_task_ne t v s u (λ h. absurd (ground arith)))
]

pub states-set_task :
    (t : ℕ) (v : Task) (s : Kernel) (u : ℕ) → states (set_task t v s) u ≡ put t v.state (states s) u
states-set_task t v s u = elim (Bool-cases (u == t)) [
  | inl e ↦ rw e (
      subst (λ w. states (set_task t v s) w ≡ v.state) (sym ((==_iff u t).0 e))
        (ap (λ x. x.state) (set_task_self t v s)))
  | inr e ↦ rw e (ap (λ x. x.state) (set_task_ne t v s u (λ h. absurd (ground arith))))
]

pub states-set_state :
    (t : ℕ) (v : TaskState) (s : Kernel) (u : ℕ) → states (set_state t v s) u ≡ put t v (states s) u
unfolding set_state
states-set_state t v s u = states-set_task t (record (s.task t) { state = v }) s u

pub pids-set_state :
    (t : ℕ) (v : TaskState) (s : Kernel) (u : ℕ) → pids (set_state t v s) u ≡ pids s u
unfolding set_state
pids-set_state t v s u = set_task_kept (λ x. x.pid) t (record (s.task t) { state = v }) s refl u

abbrev emptied : Task → Task
emptied x = record x { pwd = none; kstack = none; mm = none }

pub states-drop_memory : (t : ℕ) (s : Kernel) (u : ℕ) → states (drop_memory t s) u ≡ states s u
unfolding drop_memory
states-drop_memory t s u = set_task_kept (λ x. x.state) t (emptied (s.task t)) s refl u

pub pids-drop_memory : (t : ℕ) (s : Kernel) (u : ℕ) → pids (drop_memory t s) u ≡ pids s u
unfolding drop_memory
pids-drop_memory t s u = set_task_kept (λ x. x.pid) t (emptied (s.task t)) s refl u

pub put-pointwise :
    (t : ℕ) (v : TaskState) {f g : ℕ → TaskState}
    → ((u : ℕ) → f u ≡ g u)
    → (u : ℕ) → put t v f u ≡ put t v g u
put-pointwise t v e u = elim (Bool-cases (u == t)) [ inl s ↦ rw s refl | inr s ↦ rw s (e u) ]
