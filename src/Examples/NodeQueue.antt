-- ===== src/Examples/NodeQueue.antt =====
-- A priority queue of two nodes, and a table of nodes with one entry.
use thread_scheduler_multipl.Base.{
  ◌<◌, ℕ, ◌^◌, ◌≡◌, refl, false, none, some, [], ◌∷◌, ◌==◌, if◌then◌else◌, arith, List, get_elem?,
  length, suc,
}
use thread_scheduler_multipl.LinkedList.Nodes.{Memory, node, write, load, set_next}
use thread_scheduler_multipl.LinkedList.Pointers.{ListHandle}
use thread_scheduler_multipl.LinkedList.Contents.{Holds, HoldsAfter}
use thread_scheduler_multipl.PriorityQueue.{PqData, pq_data, push_node_pq}
use thread_scheduler_multipl.PriorityQueue.Nodes.{push_node, push_inside, push_loop}
use thread_scheduler_multipl.PriorityQueue.PushNodes.{push_node-refines}
use thread_scheduler_multipl.HashTable.{
  get_value_hashtable, find_value, Entry, HashTable, put_hashtable, index,
}
use thread_scheduler_multipl.HashTable.Nodes.{NodeTable, put_table}
use thread_scheduler_multipl.HashTable.Holds.{TableHolds}
use thread_scheduler_multipl.HashTable.Refines.{Stores, put_table-Stores}

abbrev memory : Memory PqData
memory p =
    if p == 16
    then some (node (pq_data 1 5) 32)
    else if p == 32
    then some (node (pq_data 2 1) 0)
    else none

abbrev pq : ListHandle
pq = record { head = 16; tail = 32; size = 2 }

pq-Holds : Holds memory pq (pq_data 1 5 ∷ pq_data 2 1 ∷ [])
pq-Holds = (
  (16, pq_data 1 5) ∷ (32, pq_data 2 1) ∷ [],
  record {
    head = refl;
    tail = refl;
    size = refl;
    small = omega arith;
    chain = (omega arith, refl, refl, (omega arith, refl, refl, tt));
  },
  refl,
)

push_runs :
    push_node 48 7 pq 3 3 memory
    ≡ some (
      record { head = 16; tail = 32; size = 3 },
      write
          (write (write memory 48 (some (node (pq_data 3 3) 7))) 16 (some (node (pq_data 1 5) 48)))
          48
          (some (node (pq_data 3 3) 32)),
    )
unfolding push_node push_inside push_loop load set_next
push_runs = refl

push_node-refines_example :
    HoldsAfter (push_node_pq (pq_data 1 5 ∷ pq_data 2 1 ∷ []) 3 3) (push_node 48 7 pq 3 3 memory)
push_node-refines_example =
    push_node-refines memory pq 48 7 3 3 (omega arith) refl (pq_data 1 5 ∷ pq_data 2 1 ∷ [])
      pq-Holds (omega arith)

abbrev hash : ℕ → ℕ
hash k = k

abbrev compare_keys : Entry ℕ ℕ → ℕ → ℕ
compare_keys e k = if e.key == k then 0 else 1

abbrev cells : Memory (Entry ℕ ℕ)
cells p = if p == 16 then some (node (record { key = 4; value = 40 }) 0) else none

abbrev node_table : NodeTable
node_table = record {
  lists = record { head = 16; tail = 16; size = 1 } ∷ record { head = 0; tail = 0; size = 0 } ∷ [];
  size = 1;
  capacity = 2;
  deep_copy_value = false;
}

abbrev table : HashTable ℕ ℕ
table = record {
  lists = (record { key = 4; value = 40 } ∷ []) ∷ [] ∷ [];
  size = 1;
  capacity = 2;
  deep_copy_value = false;
}

table-TableHolds : TableHolds cells node_table table
table-TableHolds = record {
  lists = (
    (
      (16, record { key = 4; value = 40 }) ∷ [],
      record {
        head = refl;
        tail = refl;
        size = refl;
        small = omega arith;
        chain = (omega arith, refl, refl, tt);
      },
      refl,
    ),
    (
      ([], record { head = refl; tail = refl; size = refl; small = omega arith; chain = tt }, refl),
      tt,
    ),
  );
  size = refl;
  capacity = refl;
  deep_copy_value = refl;
}

short :
    (xs : List (Entry ℕ ℕ))
    → get_elem? table.lists (index hash compare_keys table 6) ≡ some xs
    → suc (length xs) < 2 ^ 32
short xs e = ground arith

put_table-Stores_example :
    Stores hash compare_keys
      (put_hashtable hash compare_keys 6 60 table)
      (put_table hash compare_keys 32 6 60 node_table cells)
unfolding get_value_hashtable find_value
put_table-Stores_example =
    put_table-Stores hash compare_keys 32 6 60 cells node_table table table-TableHolds
      (record { pos = omega arith; chains = refl }) refl (omega arith) refl short
