-- ===== src/Core/Fork.antt =====
-- The start of a task: `task_create` of src/core/sched/task.c and src/core/fork.c, over the scheduler,
-- the process identifiers and the copies of address spaces. What `kmalloc` returns for the task and
-- for its stack are arguments, and so are the answers that `vma_dup` gets. A returned pid_t is the
-- bit pattern of its 32 bits.
pub mod Queue
pub mod Child
pub mod Failure
mod Tests
use wey_os.Base.{
  ℕ, ◌-◌, ◌^◌, Bool, Option, none, some, List, [], ◌∷◌, ◌==◌, if◌then◌else◌, replicate, Result, ok,
  err, enomem, enoent,
}
use wey_os.Memory.Vma.{MmStruct, Refs, file_get, dup}
use wey_os.Core.Pid.{Pids, alloc, free}
use wey_os.Core.Sched.{
  cleared, TaskState, task_new, task_ready, Task, Kernel, set_task, scheduler_add,
}
use wey_os.Core.Task.{Run, returns, faults, link}

-- A negative pid_t.
abbrev pub minus : ℕ → ℕ
minus n = 2 ^ 32 - n

-- What `task_create` stores in the memory for a task.
abbrev pub created : ℕ → Task
created priority = record cleared { priority = priority }

-- `task_create`, after a `kmalloc` that returns `t`.
unfoldable pub task_create : ℕ → ℕ → Kernel → Kernel
unfolding set_task
task_create t priority s = set_task t (created priority) s

-- What `pid_alloc` returns: an identifier or -ENOENT.
abbrev pub pid_word : Option ℕ → ℕ
pid_word none = minus 2
pid_word (some p) = p

-- `kernel_thread` behind its two allocations. A pid of -1 would be a failure of `pid_alloc`.
unfoldable pub start_thread : ℕ → ℕ → Kernel → Pids → ℕ × Kernel × Pids
unfolding alloc set_task scheduler_add
start_thread t ksp s pids =
    let (answer, pids') = alloc pids in
    let pid = pid_word answer in
    if pid == minus 1 then (minus 2, s, pids') else (
      pid,
      scheduler_add t
          (set_task t (record (s.task t) { pid = pid; kstack = some ksp; state = task_ready }) s),
      pids',
    )

-- `kernel_thread`, for what the two calls of `kmalloc` return.
unfoldable pub kernel_thread : Option ℕ → Option ℕ → Kernel → Pids → ℕ × Kernel × Pids
unfolding task_create start_thread
kernel_thread none ksp s pids = (minus 12, s, pids)
kernel_thread (some t) none s pids = (minus 12, task_create t 0 s, pids)
kernel_thread (some t) (some ksp) s pids = start_thread t ksp (task_create t 0 s) pids

-- The loop over the table of files in `copy_process`, on the references.
unfoldable pub get_from : List (Option ℕ) → Refs → Refs
unfolding file_get
get_from [] refs = refs
get_from (file ∷ rest) refs = get_from rest (file_get file refs)

-- The answers that `copy_process` gets: the memory for the task, for its stack and for the regions,
-- and the clone of the page directory.
pub record Answers : Type 0 where
  pub task : Option ℕ
  pub kstack : Option ℕ
  pub mm : Bool
  pub regions : ℕ → Bool
  pub context : Option ℕ

-- `vma_dup`
unfoldable pub vma_dup : Answers → MmStruct → Refs → Option MmStruct × Refs
unfolding dup
vma_dup a mm refs = if a.mm then dup a.regions a.context mm refs else (none, refs)

-- The child behind `vma_dup`: its files, its parent and its identifier.
unfoldable pub adorn : ℕ → ℕ → ℕ → MmStruct → Kernel → Kernel
unfolding set_task get_from link
adorn child pid ksp mm s =
    let table = (s.task s.current).file_table in
    let filled =
      set_task child
        (record (s.task child) {
          kstack = some ksp;
          mm = some mm;
          file_table = table;
          parent = some s.current;
        })
        s in
    let listed = link child s.current (record filled { refs = get_from table s.refs }) in
    set_task child (record (listed.task child) { pid = pid }) listed

-- `copy_process` behind `pid_alloc`. The address space of the parent is not looked for: a task that
-- has none makes `vma_dup` use a NULL pointer.
unfoldable pub copy_memory : Answers → ℕ → ℕ → Kernel → Pids → Run (Result ℕ × Kernel × Pids)
unfolding vma_dup adorn free
copy_memory a child pid s pids = elim a.kstack [
  | none ↦ returns (err enomem, s, free pids pid)
  | some ksp ↦ elim (s.task s.current).mm [
    | none ↦ faults
    | some mm ↦
        let (copy, refs) = vma_dup a mm s.refs in
        let s' = record s { refs = refs } in
        elim copy [
          | none ↦ returns (err enomem, s', free pids pid)
          | some mm' ↦ returns (ok child, adorn child pid ksp mm' s', pids)
        ]
  ]
]

-- `copy_process`
unfoldable pub copy_process : Answers → Kernel → Pids → Run (Result ℕ × Kernel × Pids)
unfolding task_create copy_memory alloc
copy_process a s pids = elim a.task [
  | none ↦ returns (err enomem, s, pids)
  | some child ↦
      let s' = task_create child (s.task s.current).priority s in
      let (answer, pids') = alloc pids in
      elim answer [
        | none ↦ returns (err enoent, s', pids')
        | some pid ↦ copy_memory a child pid s' pids'
      ]
]

-- What `fork` does with the answer of `copy_process`.
unfoldable pub enter : Run (Result ℕ × Kernel × Pids) → Run (Result ℕ × Kernel × Pids)
unfolding scheduler_add
enter (returns (ok child, s, pids)) = returns (ok (s.task child).pid, scheduler_add child s, pids)
enter r = r

-- `fork`
unfoldable pub fork : Answers → Kernel → Pids → Run (Result ℕ × Kernel × Pids)
unfolding copy_process enter
fork a s pids = enter (copy_process a s pids)
