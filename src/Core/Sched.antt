-- ===== src/Core/Sched.antt =====
-- Tasks and the scheduler: src/core/sched/sched.c, src/core/sched/task.c, the C part of
-- src/arch/i386/kernel/sched/process.c and the order of the calls in switch.asm. A `struct task *` is
-- a number and `task` gives what it points to. The ready queue and the lists of children are lists,
-- which `list_remove` leaves without the node and `list_add_tail` with it at the end. Stacks, saved
-- registers and page directories stand for themselves: a switch is the change of `current`. One
-- processor; the spinlock of the scheduler excludes other callers.
pub mod Order
pub mod Moves
pub mod Fields
pub mod Steps
pub mod Dispatch
pub mod View
pub mod Shape
pub mod Quiet
use wey_os.Base.{
  ℕ, Bool, true, false, not, Option, none, some, List, [], ◌∷◌, ◌++◌, ◌==◌, if◌then◌else◌,
  replicate, Result, ok, err, enomem,
}
use wey_os.Memory.Vma.{MmStruct, Refs, destroy}

-- `PROC_FD_MAX`
abbrev pub proc_fd_max : ℕ
proc_fd_max = 16

-- `task_state_t`
pub data TaskState : Type 0 where
  task_new task_ready task_running task_zombie task_blocked : TaskState

-- `struct task`. The name and the links of the lists are left out, `children` is the list itself.
pub record Task : Type 0 where
  pub pid : ℕ
  pub state : TaskState
  pub priority : ℕ
  pub exit_code : ℕ
  pub kstack : Option ℕ
  pub pwd : Option ℕ
  pub mm : Option MmStruct
  pub file_table : List (Option ℕ)
  pub parent : Option ℕ
  pub children : List ℕ

-- The scheduler's variables, the tasks, the address of `idle_task`, and the reference counts of the
-- open files.
pub record Kernel : Type 0 where
  pub task : ℕ → Task
  pub ready_queue : List ℕ
  pub current : ℕ
  pub scheduling : Bool
  pub idle : ℕ
  pub refs : Refs

abbrev pub is_blocked : TaskState → Bool
is_blocked task_blocked = true
is_blocked _ = false

abbrev pub is_zombie : TaskState → Bool
is_zombie task_zombie = true
is_zombie _ = false

abbrev pub is_running : TaskState → Bool
is_running task_running = true
is_running _ = false

-- `*t = v`
unfoldable pub set_task : ℕ → Task → Kernel → Kernel
set_task t v s = record s { task = λ u. if u == t then v else s.task u }

-- `t->state = state`
unfoldable pub set_state : ℕ → TaskState → Kernel → Kernel
unfolding set_task
set_state t state s = set_task t (record (s.task t) { state = state }) s

-- `list_remove` of a node that stands at most once in the list, and leaves it.
unfoldable pub delete : ℕ → List ℕ → List ℕ
delete t [] = []
delete t (u ∷ us) = let rest = delete t us in if t == u then rest else u ∷ rest

-- `scheduler_add` and `scheduler_remove`
unfoldable pub scheduler_add : ℕ → Kernel → Kernel
scheduler_add t s = record s { ready_queue = s.ready_queue ++ (t ∷ []) }

unfoldable pub scheduler_remove : ℕ → Kernel → Kernel
unfolding delete
scheduler_remove t s = record s { ready_queue = delete t s.ready_queue }

-- `_next`: the first task of the queue, which leaves it.
unfoldable pub next : Kernel → Option ℕ × Kernel
next s = elim s.ready_queue [ [] ↦ (none, s) | t ∷ ts ↦ (some t, record s { ready_queue = ts }) ]

-- `task_sleep` and `task_wakeup`
unfoldable pub task_sleep : ℕ → Kernel → Kernel
unfolding set_state
task_sleep t s = set_state t task_blocked s

unfoldable pub task_wakeup : ℕ → Kernel → Kernel
unfolding set_state scheduler_add
task_wakeup t s =
    if is_blocked (s.task t).state then scheduler_add t (set_state t task_ready s) else s

-- `vma_put`; the count in a structure that nobody else holds goes with it.
unfoldable pub vma_put : MmStruct → Refs → Refs
vma_put mm refs = if mm.refcount == 1 then destroy mm refs else refs

-- `task_destroy_mm`, on the files that the regions map.
unfoldable pub put_mm : Option MmStruct → Refs → Refs
unfolding vma_put
put_mm none refs = refs
put_mm (some mm) refs = vma_put mm refs

-- The frees of `task_handle_prev_status` and of `task_destroy`: the fields become NULL.
unfoldable pub drop_memory : ℕ → Kernel → Kernel
unfolding set_task put_mm
drop_memory t s =
    record (set_task t (record (s.task t) { pwd = none; kstack = none; mm = none }) s) {
      refs = put_mm (s.task t).mm s.refs;
    }

-- `task_handle_prev_status`
unfoldable pub task_handle_prev_status : ℕ → Kernel → Kernel
unfolding drop_memory set_state scheduler_add
task_handle_prev_status prev s =
    let state = (s.task prev).state in
    if (s.task prev).pid == 0
    then s
    else if is_zombie state
    then drop_memory prev s
    else if is_running state
    then scheduler_add prev (set_state prev task_ready s)
    else s

-- `cpu_update_current_task`
unfoldable pub cpu_update_current_task : ℕ → Kernel → Kernel
unfolding set_state
cpu_update_current_task t s = set_state t task_running (record s { current = t })

-- `_switch_to`: the calls after the change of stacks.
unfoldable pub switch_to : ℕ → ℕ → Kernel → Kernel
unfolding cpu_update_current_task task_handle_prev_status
switch_to prev to s = task_handle_prev_status prev (cpu_update_current_task to s)

-- `context_switch`
unfoldable pub context_switch : ℕ → ℕ → Kernel → Kernel
unfolding switch_to
context_switch prev to s =
    if prev == to then s else if to == s.current then s else switch_to prev to s

-- The choice of `schedule` when the queue is empty.
unfoldable pub fallback : Kernel → ℕ
fallback s = if is_blocked (s.task s.current).state then s.idle else s.current

-- What `schedule` does with the answer of `_next`.
unfoldable pub dispatch : Option ℕ × Kernel → Kernel
unfolding fallback context_switch
dispatch (none, s) = context_switch s.current (fallback s) s
dispatch (some t, s) = context_switch s.current t s

-- `schedule`
unfoldable pub schedule : Kernel → Kernel
unfolding next dispatch
schedule s = if not s.scheduling then s else dispatch (next s)

-- `sleep_current`
unfoldable pub sleep_current : Kernel → Kernel
unfolding task_sleep schedule
sleep_current s = schedule (task_sleep s.current s)

-- What `memset` leaves of a task.
abbrev pub cleared : Task
cleared = record {
  pid = 0;
  state = task_new;
  priority = 0;
  exit_code = 0;
  kstack = none;
  pwd = none;
  mm = none;
  file_table = replicate proc_fd_max none;
  parent = none;
  children = [];
}

-- `create_idle_task`, for what `kzalloc` returns.
unfoldable pub create_idle_task : Option ℕ → Kernel → Result (Unit {0}) × Kernel
unfolding set_task
create_idle_task none s = (err enomem, set_task s.idle cleared s)
create_idle_task (some stack) s =
    let s' = set_task s.idle (record cleared { kstack = some stack }) s in
    (ok tt, record s' { current = s.idle })

-- `scheduler_init`; `listens` is whether the listener could be registered.
unfoldable pub scheduler_init : Bool → Option ℕ → Kernel → Result (Unit {0}) × Kernel
unfolding create_idle_task
scheduler_init listens stack s =
    let s' = record s { ready_queue = []; scheduling = false } in
    if not listens then (err enomem, s') else create_idle_task stack s'

-- `scheduler_start`
unfoldable pub scheduler_start : Kernel → Kernel
scheduler_start s = record s { scheduling = true }

-- `getpid`
unfoldable pub getpid : Kernel → ℕ
getpid s = (s.task s.current).pid
