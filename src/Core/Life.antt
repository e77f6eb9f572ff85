-- ===== src/Core/Life.antt =====
-- What happens to the tasks of the kernel, one operation after the other: src/core/sched/, fork.c and
-- pid.c of src/core/, together. An operation is taken to end before the next one begins; the timer
-- interrupt between two operations is `schedule`, and an interrupt handler may wake any task.
pub mod Fair
mod Tests
use wey_os.Base.{ℕ, ◌≡◌, ◌≢◌, Option, some, Bool, false, true, Result}
use wey_os.Core.Pid.{Pids}
use wey_os.Core.Sched.{Kernel, is_blocked, task_wakeup, schedule, sleep_current}
use wey_os.Core.Sched.Fields.{IsSched, states}
use wey_os.Core.Task.{returns, task_exit, task_destroy}
use wey_os.Core.Fork.{Answers, kernel_thread, fork}
use wey_os.Core.Fork.Queue.{IsFresh, HasReserved}

-- One operation. The idle task neither sleeps nor ends, and `kmalloc` returns memory that is not in
-- use.
pub data Step : Kernel → Kernel → Type 0 where
  tick : (s : Kernel) → Step s (schedule s)
  sleep : (s : Kernel) → s.current ≢ s.idle → Step s (sleep_current s)
  wake : (s : Kernel) (t : ℕ) → Step s (task_wakeup t s)
  thread :
      (s : Kernel) (t : ℕ) (ksp : Option ℕ) (i : Pids)
      → IsFresh t s
      → HasReserved i
      → Step s (kernel_thread (some t) ksp s i).1
  child :
      (s s' : Kernel) (a : Answers) (i i' : Pids) (res : Result ℕ)
      → ((t : ℕ) → a.task ≡ some t → IsFresh t s)
      → HasReserved i
      → fork a s i ≡ returns (res, s', i')
      → Step s s'
  exit :
      (s s' : Kernel) (init_task : Option ℕ) (status : ℕ)
      → s.current ≢ s.idle
      → task_exit init_task s.current status s ≡ returns s'
      → Step s (schedule s')
  reap :
      (s s' : Kernel) (closes : ℕ → Bool) (t : ℕ) (i i' : Pids)
      → task_destroy closes t s i ≡ returns (s', i')
      → Step s s'

-- Operations one after the other.
pub data Trace : Kernel → Kernel → Type 0 where
  stop : (s : Kernel) → Trace s s
  step : {s t u : Kernel} → Step s t → Trace t u → Trace s u

-- The scheduler runs, its queue is in order, and the current task is not asleep.
pub record Live (s : Kernel) : Type 0 where
  pub in_order : IsSched s
  pub awake : is_blocked (states s s.current) ≡ false
  pub running : s.scheduling ≡ true
