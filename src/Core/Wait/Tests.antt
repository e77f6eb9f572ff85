-- ===== src/Core/Wait/Tests.antt =====
-- Tasks 1 to 3 wait, and the second is awake.
use wey_os.Base.{
  ℕ, ◌≡◌, refl, true, List, [], ◌∷◌, map, arith, Distinct, length, take, if◌then◌else◌, ◌==◌,
}
use wey_os.Core.Sched.{
  Kernel, task_ready, task_blocked, set_task, set_state, scheduler_add, task_wakeup,
}
use wey_os.Core.Fork.{created}
use wey_os.Core.Wait.{waiter, task_default_wakeup, wake_from, wake_up}
use wey_os.Core.Wait.Wake.{sleepers, wake_each, bound, wake_up_lem}

abbrev waiting : Kernel
waiting = record {
  task = λ t. record (created 0) { pid = t; state = if t == 2 then task_ready else task_blocked };
  ready_queue = 2 ∷ [];
  current = 4;
  scheduling = true;
  idle = 0;
  refs = λ g. 0;
}

abbrev readers : List ℕ
readers = 1 ∷ 2 ∷ 3 ∷ []

readers-Distinct : Distinct readers
readers-Distinct = ground arith

wake_up_lem_example : wake_up (map waiter readers) 1 waiting ≡ (
  length (take (bound 1) (sleepers waiting readers)),
  wake_each (take (bound 1) (sleepers waiting readers)) waiting,
)
wake_up_lem_example = wake_up_lem readers 1 waiting readers-Distinct (omega arith) (omega arith)

all_woken : (wake_up (map waiter readers) 0 waiting).0 ≡ 2
unfolding wake_up wake_from waiter task_default_wakeup task_wakeup scheduler_add set_state set_task
all_woken = refl

woken_in_order : (wake_up (map waiter readers) 0 waiting).1.ready_queue ≡ 2 ∷ 1 ∷ 3 ∷ []
unfolding wake_up wake_from waiter task_default_wakeup task_wakeup scheduler_add set_state set_task
woken_in_order = refl
