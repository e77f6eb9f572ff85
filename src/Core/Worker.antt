-- ===== src/Core/Worker.antt =====
-- Kernel lists, src/lib/list.c, and the work queues on them, src/core/sched/worker.c. A node is a
-- number, and `next` and `prev` are functions of it. The lock is taken to exclude every other call.
pub mod Queue
mod Tests
use wey_os.Base.{ℕ, Bool, true, false, ◌==◌, if◌then◌else◌, Result, ok, err, eshutdown}

-- The `struct list_head` of every node.
pub record Nodes : Type 0 where
  pub next : ℕ → ℕ
  pub prev : ℕ → ℕ

-- `n->next = v`
pub set_next : ℕ → ℕ → Nodes → Nodes
set_next n v s = record { next = λ m. if m == n then v else s.next m; prev = s.prev }

-- `n->prev = v`
pub set_prev : ℕ → ℕ → Nodes → Nodes
set_prev n v s = record { next = s.next; prev = λ m. if m == n then v else s.prev m }

-- `INIT_LIST_HEAD`
pub init_list_head : ℕ → Nodes → Nodes
init_list_head n s = set_prev n n (set_next n n s)

-- `list_add`, its four assignments one after the other.
pub list_add : ℕ → ℕ → Nodes → Nodes
list_add new head s =
    let s₁ = set_next new (s.next head) s in
    let s₂ = set_prev new head s₁ in let s₃ = set_prev (s₂.next head) new s₂ in set_next head new s₃

-- `list_remove`
pub list_remove : ℕ → Nodes → Nodes
list_remove entry s =
    let s₁ = set_prev (s.next entry) (s.prev entry) s in
    let s₂ = set_next (s₁.prev entry) (s₁.next entry) s₁ in
    set_prev entry entry (set_next entry entry s₂)

-- `queue_work`, for a queue with the list head `works`.
pub queue_work : Bool → ℕ → ℕ → Nodes → Result (Unit {0}) × Nodes
queue_work stopping works work s =
    let ready = init_list_head work s in
    if stopping then (err eshutdown, ready) else (ok tt, list_add works work ready)
