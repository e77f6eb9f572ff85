-- ===== src/Core/Task.antt =====
-- The end of a task: src/core/sched/task.c and `waitpid` of src/core/pid.c, over the scheduler. The
-- list of children is the list itself, so that `list_remove` of a node takes the task out of
-- whichever list holds it. `init_task` is an argument, since nothing sets it; so is the answer of a
-- file's own `close`. The memory that `kfree` takes is not looked at again.
pub mod Exit
pub mod Wait
mod Tests
use wey_os.Base.{
  ℕ, Bool, true, false, not, Option, none, some, List, [], ◌∷◌, ◌==◌, if◌then◌else◌, map, Result,
  ok, err, enoent,
}
use wey_os.Memory.Vma.{Refs, file_put}
use wey_os.Core.Pid.{Pids, free}
use wey_os.Core.Sched.{
  TaskState, task_zombie, Task, Kernel, is_zombie, set_task, set_state, delete, task_wakeup,
  drop_memory, sleep_current,
}

-- The return of a function, its call of `panic`, or the use of a NULL pointer.
pub data Run {ℓ} (A : Type ℓ) : Type ℓ where
  returns : A → Run A
  panics faults : Run A

-- `list_remove(&t->sibling)`
unfoldable pub unlink : ℕ → Kernel → Kernel
unfolding delete
unlink t s = record s { task = λ u. record (s.task u) { children = delete t (s.task u).children } }

-- `list_add(&t->sibling, &p->children)`
unfoldable pub link : ℕ → ℕ → Kernel → Kernel
unfolding set_task
link t p s = set_task p (record (s.task p) { children = t ∷ (s.task p).children }) s

-- The body of the loop of `task_reparent_children`.
unfoldable pub adopt : ℕ → ℕ → Kernel → Kernel
unfolding set_task unlink link
adopt new_parent child s =
    link child new_parent
      (unlink child (set_task child (record (s.task child) { parent = some new_parent }) s))

-- The loop, over the children that the list had.
unfoldable pub adopt_all : ℕ → List ℕ → Kernel → Kernel
unfolding adopt
adopt_all new_parent [] s = s
adopt_all new_parent (child ∷ rest) s = adopt_all new_parent rest (adopt new_parent child s)

-- `task_reparent_children`; the first child is added to a list of NULL when there is no new parent.
unfoldable pub reparent_from : Option ℕ → List ℕ → Kernel → Run Kernel
unfolding adopt_all
reparent_from new_parent [] s = returns s
reparent_from none (child ∷ rest) s = faults
reparent_from (some p) (child ∷ rest) s = returns (adopt_all p (child ∷ rest) s)

unfoldable pub task_reparent_children : ℕ → Option ℕ → Kernel → Run Kernel
unfolding reparent_from
task_reparent_children t new_parent s = reparent_from new_parent (s.task t).children s

-- `task_wakeup(task->parent)`
unfoldable pub wake_parent : Option ℕ → Kernel → Run Kernel
unfolding task_wakeup
wake_parent none s = faults
wake_parent (some p) s = returns (task_wakeup p s)

unfoldable pub and_then {ℓ κ} : {A : Type ℓ} {B : Type κ} → Run A → (A → Run B) → Run B
and_then (returns a) f = f a
and_then panics f = panics
and_then faults f = faults

-- `task_exit`
unfoldable pub task_exit : Option ℕ → ℕ → ℕ → Kernel → Run Kernel
unfolding set_task task_reparent_children wake_parent and_then
task_exit init_task t status s =
    if (s.task t).pid == 1
    then panics
    else let ended = set_task t (record (s.task t) { exit_code = status; state = task_zombie }) s in
      and_then (task_reparent_children t init_task ended) (λ s'. wake_parent (s'.task t).parent s')

-- `vfs_close` of an open file, whose reference is kept when its `close` fails.
unfoldable pub vfs_close : (ℕ → Bool) → ℕ → Refs → Refs
unfolding file_put
vfs_close closes file refs = if closes file then file_put (some file) refs else refs

-- The loop of `task_close_files`, on the references.
unfoldable pub close_from : (ℕ → Bool) → List (Option ℕ) → Refs → Refs
unfolding vfs_close
close_from closes [] refs = refs
close_from closes (none ∷ rest) refs = close_from closes rest refs
close_from closes (some file ∷ rest) refs = close_from closes rest (vfs_close closes file refs)

-- `task_close_files`
unfoldable pub task_close_files : (ℕ → Bool) → ℕ → Kernel → Kernel
unfolding close_from set_task
task_close_files closes t s =
    let table = (s.task t).file_table in
    let s' = set_task t (record (s.task t) { file_table = map (λ _. none) table }) s in
    record s' { refs = close_from closes table s.refs }

-- `task_destroy`
unfoldable pub task_destroy : (ℕ → Bool) → ℕ → Kernel → Pids → Run (Kernel × Pids)
unfolding drop_memory task_close_files unlink free
task_destroy closes t s pids =
    if not (is_zombie (s.task t).state)
    then panics
    else returns (unlink t (task_close_files closes t (drop_memory t s)), free pids (s.task t).pid)

-- The loops of `task_get_child` and `task_find_zombie_child`.
unfoldable pub child_with : ℕ → (ℕ → Task) → List ℕ → Option ℕ
child_with pid task [] = none
child_with pid task (c ∷ cs) =
    let rest = child_with pid task cs in if (task c).pid == pid then some c else rest

unfoldable pub zombie_of : (ℕ → Task) → List ℕ → Option ℕ
zombie_of task [] = none
zombie_of task (c ∷ cs) =
    let rest = zombie_of task cs in if is_zombie (task c).state then some c else rest

unfoldable pub task_get_child : ℕ → ℕ → Kernel → Option ℕ
unfolding child_with
task_get_child parent pid s = child_with pid s.task (s.task parent).children

unfoldable pub task_find_zombie_child : ℕ → Kernel → Option ℕ
unfolding zombie_of
task_find_zombie_child parent s = zombie_of s.task (s.task parent).children

-- One turn of the loop of `waitpid`: it returns with what it stored in `*wstatus`, or it sleeps and
-- begins again when the task runs the next time.
pub data Turn : Type 0 where
  returned : Result ℕ → Option ℕ → Kernel → Pids → Turn
  slept : Kernel → Turn
  panicked : Turn

-- The child is a zombie.
unfoldable pub reap : (ℕ → Bool) → ℕ → Kernel → Pids → Turn
unfolding task_destroy
reap closes c s pids = elim (task_destroy closes c s pids) [
  | returns (s', pids') ↦ returned (ok (s.task c).pid) (some (s.task c).exit_code) s' pids'
  | _ ↦ panicked
]

-- No child has ended.
unfoldable pub wait_on : Bool → Kernel → Pids → Turn
unfolding sleep_current
wait_on no_hang s pids = if no_hang then returned (ok 0) none s pids else slept (sleep_current s)

-- The turn behind the choice of the child.
unfoldable pub wait_for : (ℕ → Bool) → Option ℕ → Bool → Kernel → Pids → Turn
unfolding reap wait_on
wait_for closes none no_hang s pids = wait_on no_hang s pids
wait_for closes (some c) no_hang s pids =
    if is_zombie (s.task c).state then reap closes c s pids else wait_on no_hang s pids

-- The body of the loop of `waitpid`, for a `wstatus` that is not NULL; `none` is any `pid` of 0 or
-- less.
unfoldable pub waitpid : (ℕ → Bool) → Option ℕ → Bool → Kernel → Pids → Turn
unfolding task_get_child task_find_zombie_child wait_for
waitpid closes none no_hang s pids =
    wait_for closes (task_find_zombie_child s.current s) no_hang s pids
waitpid closes (some pid) no_hang s pids = elim (task_get_child s.current pid s) [
  | none ↦ returned (err enoent) none s pids
  | some c ↦ wait_for closes (some c) no_hang s pids
]
