-- ===== src/Core/Worker/Tests.antt =====
-- A second work is queued while the first one, node 1, waits.
use wey_os.Base.{◌≡◌, refl, true, false, err, eshutdown}
use wey_os.Core.Worker.{
  Nodes, set_next, set_prev, init_list_head, list_add, list_remove, queue_work,
}

abbrev empty : Nodes
empty = record { next = λ n. n; prev = λ n. n }

abbrev one_waits : Nodes
one_waits = (queue_work false 0 1 empty).1

first_queued : one_waits.next 0 ≡ 1
unfolding queue_work list_add init_list_head set_next set_prev
first_queued = refl

first_taken : (list_remove 1 one_waits).next 0 ≡ 0
unfolding queue_work list_add list_remove init_list_head set_next set_prev
first_taken = refl

stopped : (queue_work true 0 1 empty).0 ≡ err eshutdown
unfolding queue_work
stopped = refl
