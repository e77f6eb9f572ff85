-- ===== src/Core/Worker/Queue.antt =====
-- What a work queue holds after `queue_work`, and what insertion behind a head does.
use wey_os.Base.{ℕ, ◌≡◌, ◌≢◌, false, arith}
use wey_os.Core.Worker.{Nodes, set_next, set_prev, init_list_head, list_add, queue_work}

-- The ring of two nodes.
pub record IsPair (s : Nodes) (a b : ℕ) : Type 0 where
  pub out : s.next a ≡ b
  pub back : s.next b ≡ a
  pub out_prev : s.prev a ≡ b
  pub back_prev : s.prev b ≡ a

-- `queue_work` on a queue that is not stopping leaves the list of the new work alone, whatever stood
-- in the list before: works that waited are no longer reached from the head.
queue_work-IsPair :
    (works work : ℕ) (s : Nodes)
    → works ≢ work
    → IsPair ((queue_work false works work s).1) works work
unfolding queue_work list_add init_list_head set_next set_prev
queue_work-IsPair works work s n = record {
  out = ground arith;
  back = ground arith;
  out_prev = ground arith;
  back_prev = ground arith;
}
