-- ===== src/Core/Task/Tests.antt =====
-- Task 1 waits for its children 2, which runs, and 3, which has ended with status 7.
use wey_os.Base.{
  ℕ, ◌+◌, ◌≡◌, refl, true, false, Option, none, some, [], ◌∷◌, replicate, Result, ok, err, enoent,
  if◌then◌else◌, ◌==◌,
}
use wey_os.Core.Pid.{Pids}
use wey_os.Core.Sched.{Kernel, task_ready, task_running, task_zombie, set_task, drop_memory}
use wey_os.Core.Fork.{created}
use wey_os.Core.Task.{
  faults, Turn, returned, unlink, task_close_files, task_destroy, child_with, zombie_of,
  task_get_child, task_find_zombie_child, reap, wait_for, waitpid, task_exit,
  task_reparent_children, reparent_from, wake_parent, and_then,
}
use wey_os.Core.Task.Wait.{Waited, waitpid-Waited}

abbrev family : Kernel
family = record {
  task = λ t. record (created 0) {
    pid = t + 1;
    state = if t == 3 then task_zombie else if t == 1 then task_running else task_ready;
    exit_code = if t == 3 then 7 else 0;
    file_table = if t == 3 then some 40 ∷ [] else [];
    parent = if t == 1 then none else some 1;
    children = if t == 1 then 2 ∷ 3 ∷ [] else [];
  };
  ready_queue = 2 ∷ [];
  current = 1;
  scheduling = true;
  idle = 0;
  refs = λ g. 2;
}

abbrev all_taken : Pids
all_taken = record { pids = replicate 32 1; next_free = 1 }

waitpid-Waited_example :
    Waited (λ f. true) none false family all_taken (waitpid (λ f. true) none false family all_taken)
waitpid-Waited_example = waitpid-Waited (λ f. true) none false family all_taken

-- The status and the pid that the caller gets.
abbrev answer : Turn → Option (Result ℕ × Option ℕ)
answer (returned r status s i) = some (r, status)
answer _ = none

reaps_third : answer (waitpid (λ f. true) none false family all_taken) ≡ some (ok 4, some 7)
unfolding waitpid task_find_zombie_child zombie_of wait_for reap task_destroy unlink
    task_close_files drop_memory set_task
reaps_third = refl

no_such_child :
    answer (waitpid (λ f. true) (some 9) false family all_taken) ≡ some (err enoent, none)
unfolding waitpid task_get_child child_with
no_such_child = refl

-- `init_task` is NULL, so that a task with children cannot end.
orphans_fault : task_exit none 1 0 family ≡ faults
unfolding task_exit task_reparent_children reparent_from and_then set_task
orphans_fault = refl

-- Nor can a task without a parent, such as a kernel thread.
no_parent_faults : wake_parent none family ≡ faults
unfolding wake_parent
no_parent_faults = refl
