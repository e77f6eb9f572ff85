-- ===== src/Core/Fork/Child.antt =====
-- `fork`, as the scheduler sees it.
use wey_os.Base.{ℕ, ◌≡◌, ◌≢◌, refl, ap, sym, subst, ◌∙◌, Option, none, some, Result}
use wey_os.Core.Pid.{Pids, alloc}
use wey_os.Memory.Vma.{MmStruct, Refs}
use wey_os.Core.Sched.{task_new, Kernel, set_task, scheduler_add}
use wey_os.Core.Sched.Order.{is_waiting}
use wey_os.Core.Sched.Fields.{IsSched, states, set_task_self}
use wey_os.Core.Sched.View.{SameView, view_trans, set_task-view, view-IsSched}
use wey_os.Core.Sched.Quiet.{Kept, Kept-refl, Kept-trans, view-Kept}
use wey_os.Core.Task.{Run, returns, link}
use wey_os.Core.Task.Exit.{returns_inj, link-view}
use wey_os.Core.Fork.{
  created, task_create, get_from, Answers, vma_dup, adorn, copy_memory, copy_process, enter, fork,
}
use wey_os.Core.Fork.Queue.{
  HasReserved, IsFresh, add-Kept, alloc_positive, task_create-IsFresh, task_create-Kept,
  view-IsFresh,
}

-- A change of reference counts.
refs-view : (r : Refs) (s : Kernel) → SameView s (record s { refs = r })
refs-view r s = record {
  view_states = λ u. refl;
  view_pids = λ u. refl;
  view_queue = refl;
  view_current = refl;
  view_idle = refl;
  view_scheduling = refl;
}

-- The child of `copy_process` before it has its identifier.
abbrev unnamed : ℕ → ℕ → MmStruct → Kernel → Kernel
unnamed child ksp mm s =
    let table = (s.task s.current).file_table in
    let filled =
      set_task child
        (record (s.task child) {
          kstack = some ksp;
          mm = some mm;
          file_table = table;
          parent = some s.current;
        })
        s in
    link child s.current (record filled { refs = get_from table s.refs })

unnamed-view : (child ksp : ℕ) (mm : MmStruct) (s : Kernel) → SameView s (unnamed child ksp mm s)
unfolding set_task
unnamed-view child ksp mm s =
    let table = (s.task s.current).file_table in
    let filled =
      set_task child
        (record (s.task child) {
          kstack = some ksp;
          mm = some mm;
          file_table = table;
          parent = some s.current;
        })
        s in
    let counted = record filled { refs = get_from table s.refs } in
    view_trans s filled (link child s.current counted)
      (set_task-view child
        (record (s.task child) {
          kstack = some ksp;
          mm = some mm;
          file_table = table;
          parent = some s.current;
        })
        s refl refl)
      (view_trans filled counted (link child s.current counted)
        (refs-view (get_from table s.refs) filled) (link-view child s.current counted))

-- The child in the queue: a task that is new, with its identifier.
entered-Kept :
    (child pid ksp : ℕ) (mm : MmStruct) (s : Kernel)
    → IsFresh child s
    → IsSched s
    → states s child ≡ task_new
    → pid ≢ 0
    → Kept s (scheduler_add child (adorn child pid ksp mm s))
unfolding adorn
entered-Kept child pid ksp mm s fresh f e n =
    let v = unnamed-view child ksp mm s in
    let u = unnamed child ksp mm s in
    let w = record (u.task child) { pid = pid } in
    let k = view-Kept s u v f in
    Kept-trans s u (scheduler_add child (set_task child w u)) k (
      add-Kept child u (view-IsFresh child s u v fresh) k.order w
        (ap is_waiting (v.view_states child ∙ e)) n)

module _ (a : Answers) (child pid : ℕ) (s : Kernel) (i : Pids) where
  -- `copy_process` behind `pid_alloc` and what `fork` does with its answer.
  entered-memory :
      (res : Result ℕ) (s' : Kernel) (i' : Pids)
      → IsFresh child s
      → IsSched s
      → states s child ≡ task_new
      → pid ≢ 0
      → enter (copy_memory a child pid s i) ≡ returns (res, s', i')
      → Kept s s'
  unfolding enter copy_memory
  entered-memory res s' i' fresh f new n e = by_stack a.kstack (s.task s.current).mm refl refl
    where
      Goal : Type 0
      Goal = Kept s s'

      left :
          {x : Kernel} {y : Result ℕ × Kernel × Pids}
          → Kept s x
          → y.1 ≡ x
          → ◌≡◌ {A = Run (Result ℕ × Kernel × Pids)} (returns y) (returns (res, s', i'))
          → Goal
      left fx same q = subst (Kept s) (sym same ∙ ap (λ z. z.1) (returns_inj q)) fx

      counted : MmStruct → Kernel
      counted mm = record s { refs = (vma_dup a mm s.refs).1 }

      view : (mm : MmStruct) → SameView s (counted mm)
      view mm = refs-view (vma_dup a mm s.refs).1 s

      by_copy :
          (ksp : ℕ) (mm : MmStruct)
          → a.kstack ≡ some ksp
          → (s.task s.current).mm ≡ some mm
          → (o : Option MmStruct) → (vma_dup a mm s.refs).0 ≡ o
          → Goal
      by_copy ksp mm k m none o =
          left (view-Kept s (counted mm) (view mm) f) refl (rw (k, m, o, copy_memory, enter) at e)
      by_copy ksp mm k m (some mm') o =
          left
            (Kept-trans s (counted mm) (scheduler_add child (adorn child pid ksp mm' (counted mm)))
              (view-Kept s (counted mm) (view mm) f)
              (entered-Kept child pid ksp mm' (counted mm)
                (view-IsFresh child s (counted mm) (view mm) fresh)
                (view-IsSched s (counted mm) (view mm) f) new n))
            refl (rw (k, m, o, copy_memory, enter) at e)

      by_stack :
          (o : Option ℕ) (o' : Option MmStruct) → a.kstack ≡ o → (s.task s.current).mm ≡ o' → Goal
      by_stack none o' k m = left (Kept-refl s f) refl (rw (k, copy_memory, enter) at e)
      by_stack (some ksp) none k m = absurd (cc (rw (k, m, copy_memory, enter) at e))
      by_stack (some ksp) (some mm) k m = by_copy ksp mm k m (vma_dup a mm s.refs).0 refl

-- `fork`, whatever it returns.
pub fork-Kept :
    (a : Answers) (s s' : Kernel) (i i' : Pids) (res : Result ℕ)
    → ((t : ℕ) → a.task ≡ some t → IsFresh t s)
    → IsSched s
    → HasReserved i
    → fork a s i ≡ returns (res, s', i')
    → Kept s s'
unfolding fork copy_process
fork-Kept a s s' i i' res fresh f r e = by_task a.task refl
  where
    by_pid : (t : ℕ) → a.task ≡ some t → (o : Option ℕ) → (alloc i).0 ≡ o → Kept s s'
    by_pid t k none o =
        subst (Kept s) (ap (λ z. z.1) (returns_inj (rw (k, o, copy_process, enter) at e)))
          (task_create-Kept t s (fresh t k) f (s.task s.current).priority)
    by_pid t k (some pid) o =
        let p = (s.task s.current).priority in
        let g = fresh t k in
        let c = task_create-Kept t s g f p in
        Kept-trans s (task_create t p s) s' c (
          entered-memory a t pid (task_create t p s) (alloc i).1 res s' i'
            (task_create-IsFresh t s g f p) c.order
            (ap (λ x. x.state) (set_task_self t (created p) s)) (alloc_positive i pid r o)
            (rw (k, o, copy_process) at e))

    by_task : (o : Option ℕ) → a.task ≡ o → Kept s s'
    by_task none k =
        subst (Kept s) (ap (λ z. z.1) (returns_inj (rw (k, copy_process, enter) at e)))
          (Kept-refl s f)
    by_task (some t) k = by_pid t k (alloc i).0 refl
