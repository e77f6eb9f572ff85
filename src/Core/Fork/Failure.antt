-- ===== src/Core/Fork/Failure.antt =====
-- A `fork` that fails.
use wey_os.Base.{
  ℕ, ◌≡◌, ◌≢◌, refl, ap, sym, subst, ◌∙◌, inl, inr, Bool, true, false, Option, none, some, ◌==◌,
  arith, Bool-cases, ==_iff, Result, ok, err, Errno, get_or, set, get_or-set_self, get_or-set_ne,
}
use wey_os.Core.Pid.{Pids, alloc, free}
use wey_os.Core.Pid.Alloc.{IsPids, alloc-Taken, alloc-none}
use wey_os.Memory.Vma.{MmStruct, Refs}
use wey_os.Memory.Vma.Dup.{dup-none}
use wey_os.Core.Sched.{Kernel, set_task}
use wey_os.Core.Sched.Fields.{set_task_ne}
use wey_os.Core.Task.{Run, returns}
use wey_os.Core.Task.Exit.{returns_inj}
use wey_os.Core.Fork.{
  created, task_create, Answers, vma_dup, copy_memory, copy_process, enter, fork,
}

-- Nothing is left of the attempt but the memory that was cleared for the task and given back.
pub record RolledBack (a : Answers) (s s' : Kernel) (i i' : Pids) : Type 0 where
  pub same_queue : s'.ready_queue ≡ s.ready_queue
  pub same_current : s'.current ≡ s.current
  pub same_refs : (g : ℕ) → s'.refs g ≡ s.refs g
  pub same_tasks : (u : ℕ) → a.task ≢ some u → s'.task u ≡ s.task u
  pub same_pids : (p : ℕ) → get_or i'.pids p 1 ≡ get_or i.pids p 1

vma_dup-none :
    (a : Answers) (mm : MmStruct) (refs : Refs)
    → (vma_dup a mm refs).0 ≡ none
    → (g : ℕ) → (vma_dup a mm refs).1 g ≡ refs g
unfolding vma_dup
vma_dup-none a mm refs e g = elim (Bool-cases a.mm) [
  | inl y ↦ rw y (dup-none a.regions a.context mm refs (rw y at e) g)
  | inr n ↦ rw n refl
]

-- The identifier goes back.
free-alloc :
    (i : Pids) (p : ℕ)
    → IsPids i
    → (alloc i).0 ≡ some p
    → (q : ℕ) → get_or (free (alloc i).1 p).pids q 1 ≡ get_or i.pids q 1
unfolding free
free-alloc i p v e q =
    let t = (alloc-Taken i v).0 p e in
    elim (Bool-cases (p == q)) [
      | inl y ↦
          let s = (==_iff p q).0 y in
          subst (λ x. get_or (set (alloc i).1.pids p 0) x 1 ≡ get_or i.pids x 1) s
            (get_or-set_self (alloc i).1.pids p 0 1 (omega (arith, t.in_range, t.valid.size))
              ∙ sym t.was_free)
      | inr n ↦
          let d : p ≢ q = λ h. absurd (ground arith) in
          get_or-set_ne (alloc i).1.pids p q 0 1 d ∙ t.others q d
    ]

module _ (a : Answers) (child pid : ℕ) (s s' : Kernel) (i i' : Pids) (code : Errno) where
  -- Behind `pid_alloc`: the reference counts are as before, and the identifier is free.
  memory-failed :
      enter (copy_memory a child pid s i) ≡ returns (err code, s', i')
      → (s' ≡ record s { refs = s'.refs }) × ((g : ℕ) → s'.refs g ≡ s.refs g) × (i' ≡ free i pid)
  unfolding enter copy_memory
  memory-failed e = by_stack a.kstack (s.task s.current).mm refl refl
    where
      Goal : Type 0
      Goal =
          (s' ≡ record s { refs = s'.refs }) × ((g : ℕ) → s'.refs g ≡ s.refs g) × (i' ≡ free i pid)

      Answer : Type 0
      Answer = Result ℕ × Kernel × Pids

      left :
          {r : Refs} {x : Result ℕ}
          → ((g : ℕ) → r g ≡ s.refs g)
          → ◌≡◌ {A = Run Answer}
              (returns (x, record s { refs = r }, free i pid))
              (returns (err code, s', i'))
          → Goal
      left {r} {x} h q =
          let p = returns_inj q in
          subst
            (λ (z : Answer).
              (z.1 ≡ record s { refs = z.1.refs })
              × ((g : ℕ) → z.1.refs g ≡ s.refs g)
              × (z.2 ≡ free i pid))
            p (refl, h, refl)

      by_copy :
          (ksp : ℕ) (mm : MmStruct)
          → a.kstack ≡ some ksp
          → (s.task s.current).mm ≡ some mm
          → (o : Option MmStruct) → (vma_dup a mm s.refs).0 ≡ o
          → Goal
      by_copy ksp mm k m none o =
          left (vma_dup-none a mm s.refs o) (rw (k, m, o, copy_memory, enter) at e)
      by_copy ksp mm k m (some mm') o =
          absurd (cc (ap is_error (returns_inj (rw (k, m, o, copy_memory, enter) at e))))
        where
          is_error : Answer → Bool
          is_error (ok _, _, _) = false
          is_error (err _, _, _) = true

      by_stack :
          (o : Option ℕ) (o' : Option MmStruct) → a.kstack ≡ o → (s.task s.current).mm ≡ o' → Goal
      by_stack none o' k m = left (λ g. refl) (rw (k, copy_memory, enter) at e)
      by_stack (some ksp) none k m = absurd (cc (rw (k, m, copy_memory, enter) at e))
      by_stack (some ksp) (some mm) k m = by_copy ksp mm k m (vma_dup a mm s.refs).0 refl

task_create-other :
    (t priority u : ℕ) (s : Kernel) → t ≢ u → (task_create t priority s).task u ≡ s.task u
unfolding task_create
task_create-other t priority u s n = set_task_ne t (created priority) s u (λ e. n (sym e))

-- A `fork` that returns an error gives back what it took: every process identifier and every
-- reference to a file is as before, no other task is changed and none is queued.
pub fork-RolledBack :
    (a : Answers) (s s' : Kernel) (i i' : Pids) (code : Errno)
    → IsPids i
    → fork a s i ≡ returns (err code, s', i')
    → RolledBack a s s' i i'
unfolding fork copy_process task_create set_task
fork-RolledBack a s s' i i' code v e = by_task a.task refl
  where
    Answer : Type 0
    Answer = Result ℕ × Kernel × Pids

    by_pid : (t : ℕ) → a.task ≡ some t → (o : Option ℕ) → (alloc i).0 ≡ o → RolledBack a s s' i i'
    by_pid t k none o =
        let p = returns_inj (rw (k, o, copy_process, enter) at e) in
        subst (λ (z : Answer). RolledBack a s z.1 i z.2) p
          (record {
            same_queue = refl;
            same_current = refl;
            same_refs = λ g. refl;
            same_tasks =
                λ u n. task_create-other t (s.task s.current).priority u s (λ h. n (k ∙ ap some h));
            same_pids = λ q. ap (λ x. get_or x.pids q 1) (alloc-none i o);
          })
    by_pid t k (some pid) o =
        let c = task_create t (s.task s.current).priority s in
        let (b, r, f) =
          memory-failed a t pid c s' (alloc i).1 i' code (rw (k, o, copy_process) at e) in
        record {
          same_queue = ap (λ x. x.ready_queue) b;
          same_current = ap (λ x. x.current) b;
          same_refs = r;
          same_tasks = λ u n.
              ap (λ x. x.task u) b
              ∙ task_create-other t (s.task s.current).priority u s (λ h. n (k ∙ ap some h));
          same_pids = λ q. ap (λ x. get_or x.pids q 1) f ∙ free-alloc i pid v o q;
        }

    by_task : (o : Option ℕ) → a.task ≡ o → RolledBack a s s' i i'
    by_task none k =
        let p = returns_inj (rw (k, copy_process, enter) at e) in
        subst (λ (z : Answer). RolledBack a s z.1 i z.2) p
          (record {
            same_queue = refl;
            same_current = refl;
            same_refs = λ g. refl;
            same_tasks = λ u n. refl;
            same_pids = λ q. refl;
          })
    by_task (some t) k = by_pid t k (alloc i).0 refl
