-- ===== src/Core/Fork/Tests.antt =====
-- A `fork` that runs out of memory, and threads beyond the last pid and before `pid_init`.
use wey_os.Base.{◌≡◌, refl, true, none, some, [], ◌∷◌, replicate, arith, err, enomem}
use wey_os.Core.Pid.{Pids, alloc, search, free}
use wey_os.Core.Pid.Alloc.{IsPids}
use wey_os.Core.Sched.{Kernel, task_running, set_task, scheduler_add}
use wey_os.Core.Task.{returns}
use wey_os.Core.Fork.{
  created, task_create, start_thread, kernel_thread, Answers, copy_memory, copy_process, enter,
  fork,
}
use wey_os.Core.Fork.Failure.{RolledBack, fork-RolledBack}

abbrev parent_runs : Kernel
parent_runs = record {
  task = λ t. record (created 0) { pid = 1; state = task_running; file_table = some 40 ∷ [] };
  ready_queue = [];
  current = 1;
  scheduling = true;
  idle = 0;
  refs = λ g. 1;
}

abbrev some_free : Pids
some_free = record { pids = 1 ∷ 1 ∷ replicate 30 0; next_free = 2 }

some_free-IsPids : IsPids some_free
some_free-IsPids = record { size = refl; cursor = omega arith }

abbrev no_stack : Answers
no_stack = record { task = some 9; kstack = none; mm = true; regions = λ n. true; context = some 1 }

abbrev after : Kernel
after = task_create 9 0 parent_runs

stack_missing :
    fork no_stack parent_runs some_free ≡ returns (err enomem, after, free (alloc some_free).1 2)
unfolding fork copy_process copy_memory enter alloc search
stack_missing = refl

fork-RolledBack_example :
    RolledBack no_stack parent_runs after some_free (free (alloc some_free).1 2)
fork-RolledBack_example =
    fork-RolledBack no_stack parent_runs after some_free (free (alloc some_free).1 2) enomem
      some_free-IsPids stack_missing

-- With every pid taken, the thread is started all the same, under the pid -ENOENT.
abbrev none_free : Pids
none_free = record { pids = replicate 32 1; next_free = 0 }

thread_without_pid : (kernel_thread (some 9) (some 90) parent_runs none_free).1.ready_queue ≡ 9 ∷ []
unfolding kernel_thread start_thread alloc search task_create set_task scheduler_add
thread_without_pid = refl

-- Before `pid_init` the array is cleared memory, and the first thread, `init`, gets the pid 0.
abbrev zeroed : Pids
zeroed = record { pids = replicate 32 0; next_free = 0 }

init_pid : (kernel_thread (some 9) (some 90) parent_runs zeroed).0 ≡ 0
unfolding kernel_thread start_thread alloc search
init_pid = refl
