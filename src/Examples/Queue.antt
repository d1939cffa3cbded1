-- ===== src/Examples/Queue.antt =====
-- A queue with three threads of priority 3 between one of 5 and one of 1.
use mathlib.Core.List.{Perm}
use thread_scheduler_multipl.Base.{◌≡◌, refl, some, All, List, [], ◌∷◌, arith}
use thread_scheduler_multipl.PriorityQueue.{
  PqData, pq_data, push_node_pq, pop_node_pq, peak_pq, insert_loop,
}
use thread_scheduler_multipl.PriorityQueue.Bag.{bag_lem}
use thread_scheduler_multipl.PriorityQueue.Order.{Below, IsSorted, push-IsSorted}
use thread_scheduler_multipl.PriorityQueue.Fifo.{
  stable_insert, count_priority, push-stable_insert, push-overtakes,
}

abbrev queue : List PqData
queue = pq_data 1 5 ∷ pq_data 2 3 ∷ pq_data 3 3 ∷ pq_data 4 1 ∷ []

push_runs :
    push_node_pq queue 9 3
    ≡ pq_data 1 5 ∷ pq_data 2 3 ∷ pq_data 9 3 ∷ pq_data 3 3 ∷ pq_data 4 1 ∷ []
unfolding push_node_pq insert_loop
push_runs = refl

push-IsSorted_example : IsSorted (push_node_pq queue 9 3)
push-IsSorted_example = push-IsSorted queue 9 3 (omega arith)

bag_example :
    (x : PqData) × (peak_pq (push_node_pq queue 9 3) ≡ some x)
    × All (Below x.priority) (pop_node_pq (push_node_pq queue 9 3))
    × Perm (x ∷ pop_node_pq (push_node_pq queue 9 3)) (pq_data 9 3 ∷ queue)
bag_example = bag_lem queue 9 3 (omega arith)

push-stable_insert_example : push_node_pq queue 9 5 ≡ stable_insert (pq_data 9 5) queue
unfolding count_priority
push-stable_insert_example = push-stable_insert queue 9 5 (omega arith) (omega arith)

push-overtakes_example :
    push_node_pq queue 9 3
    ≡ pq_data 1 5 ∷ pq_data 2 3 ∷ pq_data 9 3 ∷ pq_data 3 3 ∷ pq_data 4 1 ∷ []
push-overtakes_example =
    push-overtakes (pq_data 1 5 ∷ []) (pq_data 3 3 ∷ pq_data 4 1 ∷ []) (pq_data 2 3) 9 3
      (omega arith) refl (omega arith)
