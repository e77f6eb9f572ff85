-- ===== src/Core/Wait.antt =====
-- Wait queues, src/core/sched/wait.c and src/include/kernel/wait.h, over the scheduler. The entries of
-- a queue are a list, and an entry is its `private` pointer and its callback: a function of the task
-- and of the state that returns an int. `count` is the bit pattern of an int. The spinlock excludes
-- other callers.
pub mod Wake
mod Tests
use wey_os.Base.{
  ℕ, ◌+◌, ◌-◌, ◌%◌, ◌^◌, Bool, true, false, not, ◌&&◌, List, [], ◌∷◌, ◌++◌, ltb, ◌==◌,
  if◌then◌else◌,
}
use wey_os.Core.Sched.{Kernel, is_blocked, task_wakeup}

abbrev pub int_mod : ℕ
int_mod = 2 ^ 32

-- `ret < 0`
abbrev pub is_negative : ℕ → Bool
is_negative n = not (ltb n (2 ^ 31))

-- `wait_queue_func_t`, on the private pointer and the state.
abbrev pub Callback : Type 0
Callback = ℕ → Kernel → ℕ × Kernel

-- `struct wait_queue_entry`
pub record Entry : Type 0 where
  pub private_task : ℕ
  pub callback : Callback

-- `task_default_wakeup`
unfoldable pub task_default_wakeup : Callback
unfolding task_wakeup
task_default_wakeup t s = if not (is_blocked (s.task t).state) then (0, s) else (1, task_wakeup t s)

-- The loop of `__wake_up`: `count` when it ends.
unfoldable pub wake_from : List Entry → ℕ → Kernel → ℕ × Kernel
wake_from [] count s = (count, s)
wake_from (e ∷ es) count s =
    let (ret, s') = e.callback e.private_task s in
    let less = (count + int_mod - 1) % int_mod in
    let go_on = wake_from es count s' in
    let count_down = wake_from es less s' in
    if is_negative ret
    then (count, s')
    else if ret == 0
    then go_on
    else if less == 0
    then (less, s')
    else count_down

-- `__wake_up`; an empty queue ends the loop at once.
unfoldable pub wake_up : List Entry → ℕ → Kernel → ℕ × Kernel
unfolding wake_from
wake_up entries count s =
    let (left, s') = wake_from entries count s in ((count + int_mod - left) % int_mod, s')

-- `wait_queue_entry_init` for a task, and `wait_queue_add`
unfoldable pub waiter : ℕ → Entry
unfolding task_default_wakeup
waiter t = record { private_task = t; callback = task_default_wakeup }

unfoldable pub wait_queue_add : List Entry → Entry → List Entry
wait_queue_add entries e = entries ++ (e ∷ [])
