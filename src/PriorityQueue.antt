-- ===== src/PriorityQueue.antt =====
-- Linux/priority_queue.c: a list of threads kept by falling priority.
pub mod Order
pub mod Fifo
pub mod Bag
pub mod Nodes
pub mod Insert
pub mod PushNodes
pub mod TopNodes
pub mod KeepsNodes
use thread_scheduler_multipl.Base.{
  ℕ, Bool, Option, none, some, List, [], ◌∷◌, ◌||◌, ltb, leb, ◌==◌, if◌then◌else◌, last,
}
use thread_scheduler_multipl.LinkedList.{add_first_node_list, add_last_node_list}

-- `PQData`; `data` points to a copy of the thread's id.
pub record PqData : Type 0 where
  pub thread : ℕ
  pub priority : ℕ

abbrev pub pq_data : ℕ → ℕ → PqData
pq_data t p = record { thread = t; priority = p }

-- The `while` of `push_node_pq`: what follows `prev` when it is done. At the end of the list the
-- new node has been linked nowhere.
unfoldable pub insert_loop : PqData → PqData → List PqData → List PqData
insert_loop new_node prev [] = []
insert_loop new_node prev (curr ∷ next) =
    if prev.priority == new_node.priority || ltb curr.priority new_node.priority
    then new_node ∷ curr ∷ next
    else curr ∷ insert_loop new_node curr next

unfoldable pub push_node_pq : List PqData → ℕ → ℕ → List PqData
push_node_pq [] t priority = add_first_node_list [] (pq_data t priority)
push_node_pq (head ∷ next) t priority =
    if ltb head.priority priority
    then add_first_node_list (head ∷ next) (pq_data t priority)
    else if leb priority (last head next).priority
    then add_last_node_list (head ∷ next) (pq_data t priority)
    else head ∷ insert_loop (pq_data t priority) head next

unfoldable pub pop_node_pq : List PqData → List PqData
pop_node_pq [] = []
pop_node_pq (head ∷ next) = next

-- `none` is NULL.
unfoldable pub peak_pq : List PqData → Option PqData
peak_pq [] = none
peak_pq (head ∷ next) = some head
