-- ===== src/Core/Life/Tests.antt =====
-- A kernel thread is started, runs, sleeps and is woken; and a wakeup that comes too early.
use wey_os.Base.{◌≡◌, ◌≢◌, refl, true, some, [], ◌∷◌, replicate, arith}
use wey_os.Core.Pid.{Pids, alloc, search}
use wey_os.Core.Sched.{
  Kernel, task_ready, set_task, set_state, scheduler_add, next, task_sleep, task_wakeup,
  task_handle_prev_status, cpu_update_current_task, switch_to, context_switch, dispatch, schedule,
  sleep_current,
}
use wey_os.Core.Sched.Fields.{states}
use wey_os.Core.Fork.{created, task_create, start_thread, kernel_thread}
use wey_os.Core.Fork.Queue.{IsFresh, HasReserved}
use wey_os.Core.Life.{tick, sleep, wake, thread, stop, step, Live}
use wey_os.Core.Life.Fair.{Runs, Trace-Live, ready-Runs}

-- The idle task is task 0; no other was started.
abbrev booted : Kernel
booted = record {
  task = λ t. created 0;
  ready_queue = [];
  current = 0;
  scheduling = true;
  idle = 0;
  refs = λ g. 0;
}

booted-Live : Live booted
booted-Live = record {
  in_order = record {
    distinct = tt;
    idle_out = λ h. absurd h;
    current_out = λ h. absurd h;
    queued = λ t h. absurd h;
    complete = λ t n r. absurd (cc r);
    alone = λ t n m. refl;
    on_cpu = λ n. absurd (n refl);
    idle_awake = (refl, refl);
    idle_pid = refl;
    named = λ t n z. (refl, (λ h. absurd h), n);
  };
  awake = refl;
  running = refl;
}

abbrev all_free : Pids
all_free = record { pids = 1 ∷ replicate 31 0; next_free = 1 }

all_free-HasReserved : HasReserved all_free
all_free-HasReserved =
    (record { size = refl; cursor = omega arith }, (λ h. absurd (omega (arith, h))))

five-IsFresh : IsFresh 5 booted
five-IsFresh = record {
  not_idle = λ e. absurd (omega (arith, e));
  not_current = λ e. absurd (omega (arith, e));
  not_queued = λ h. absurd h;
}

abbrev started : Kernel
started = (kernel_thread (some 5) (some 900) booted all_free).1

started-Live : Live started
started-Live =
    Trace-Live booted-Live
      (step (thread booted 5 (some 900) all_free five-IsFresh all_free-HasReserved) (stop started))

five_ready : states started 5 ≡ task_ready
unfolding kernel_thread start_thread task_create alloc search set_task scheduler_add
five_ready = refl

started_ne : 5 ≢ started.idle
unfolding kernel_thread start_thread task_create alloc search set_task scheduler_add
started_ne e = absurd (omega (arith, e))

ready-Runs_example : Runs 5 (step (tick started) (stop (schedule started)))
unfolding kernel_thread start_thread task_create alloc search set_task scheduler_add
ready-Runs_example =
    ready-Runs 5 (step (tick started) (stop (schedule started))) started-Live started_ne five_ready
      (omega arith)

runs_five : (schedule started).current ≡ 5
unfolding kernel_thread start_thread task_create alloc search set_task scheduler_add schedule
    dispatch next context_switch switch_to cpu_update_current_task task_handle_prev_status set_state
runs_five = refl

asleep_ne : (schedule started).current ≢ (schedule started).idle
unfolding kernel_thread start_thread task_create alloc search set_task scheduler_add schedule
    dispatch next context_switch switch_to cpu_update_current_task task_handle_prev_status set_state
asleep_ne e = absurd (omega (arith, e))

Trace-Live_example : Live (task_wakeup 5 (sleep_current (schedule started)))
Trace-Live_example = Trace-Live booted-Live (
    step (thread booted 5 (some 900) all_free five-IsFresh all_free-HasReserved) (
      step (tick started) (
        step (sleep (schedule started) asleep_ne) (
          step (wake (sleep_current (schedule started)) 5)
            (stop (task_wakeup 5 (sleep_current (schedule started))))))))

-- The task is woken between `task_sleep` and `schedule` of `sleep_current`, and there is nothing else
-- to run: `context_switch` returns, and the task that runs is ready and in no queue.
abbrev woken_early : Kernel
woken_early = schedule (task_wakeup 5 (task_sleep 5 (schedule started)))

lost_wakeup : (states woken_early 5 ≡ task_ready) × (woken_early.ready_queue ≡ [])
unfolding kernel_thread start_thread task_create alloc search set_task scheduler_add schedule
    dispatch next context_switch switch_to cpu_update_current_task task_handle_prev_status set_state
    task_sleep task_wakeup
lost_wakeup = (refl, refl)
