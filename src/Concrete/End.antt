-- ===== src/Concrete/End.antt =====
-- `so_end` of _test/so_scheduler.c on memory, in every state that a program can reach.
use thread_scheduler_multipl.Base.{
  ℕ, zero, suc, ◌≡◌, ◌↔◌, Bool, true, false, Option, none, some, List, [], ◌==◌, if◌then◌else◌, All,
}
use thread_scheduler_multipl.LinkedList.Nodes.{Node, load}
use thread_scheduler_multipl.LinkedList.Chain.{Chain}
use thread_scheduler_multipl.HashTable.{HashTable}
use thread_scheduler_multipl.HashTable.Nodes.{empty_list, free_list}
use thread_scheduler_multipl.Scheduler.State.{Scheduler, update}
use thread_scheduler_multipl.Concrete.State.{
  created_block, ready_block, waiting_block, table_block, array_block, data_block, Store, Cmd, pure,
  ◌>>=◌, ◌>>◌,
}
use thread_scheduler_multipl.Concrete.Release.{release_lists}

unfoldable pub load_created : ℕ → Cmd (Node ℕ)
load_created curr c = elim (load curr c.created_nodes) [
  | none ↦ none
  | some (n, h) ↦ some (n, record c { created_nodes = h })
]

-- The `while` of `so_end`: `false` while it is blocked in the join of a thread that has not ended.
unfoldable pub join_nodes : (ℕ → Bool) → (fuel curr : ℕ) → Cmd Bool
join_nodes ended zero curr c = none
join_nodes ended (suc fuel) curr c =
    let rest = λ (n : Node ℕ). join_nodes ended fuel n.next in
    if curr == 0
    then some (true, c)
    else (load_created curr >>= λ n. if ended n.content then rest n else pure false) c

unfoldable pub release_created : Cmd (Unit {0})
release_created c = elim (free_list c.pthreads_created c.created_nodes) [
  | none ↦ none
  | some (u, h) ↦ some (tt, record c { created_nodes = h })
]

unfoldable pub release_ready : Cmd (Unit {0})
release_ready c = elim (free_list c.ready_threads_pq c.ready_nodes) [
  | none ↦ none
  | some (u, h) ↦ some (tt, record c { ready_nodes = h })
]

unfoldable pub release_waiting : Cmd (Unit {0})
release_waiting c = elim (free_list c.waiting_threads c.waiting_nodes) [
  | none ↦ none
  | some (u, h) ↦ some (tt, record c { waiting_nodes = h })
]

unfoldable pub release_table : Cmd (Unit {0})
release_table c = release_lists c.pthreads_data.lists c

-- The `memset` of `so_scheduler`
unfoldable pub clear : Cmd Bool
clear c = some (
  true,
  record c {
    pthreads_data = record { lists = []; size = 0; capacity = 0; deep_copy_value = false };
    running_thread = record { thread = 0; priority = 0 };
    ready_threads_pq = empty_list;
    waiting_threads = empty_list;
    pthreads_created = empty_list;
    time_quantum = 0;
    io = 0;
    is_a_thread_running = false;
  },
)

-- The release of one of the other blocks
unfoldable pub free_block : ℕ → Cmd (Unit {0})
free_block k c =
    if c.blocks k then some (tt, record c { blocks = update c.blocks k false }) else none

-- What reads through the pointer to a block, and then the release of the block
unfoldable pub with_block : ℕ → Cmd (Unit {0}) → Cmd (Unit {0})
with_block k reads c = if c.blocks k then (reads >> free_block k) c else none

unfoldable pub release_all : Cmd Bool
release_all =
    with_block created_block release_created
    >> (with_block ready_block release_ready
        >> (with_block waiting_block release_waiting
            >> (with_block table_block (with_block array_block release_table)
                >> (free_block data_block >> clear))))

-- `so_end`, where `false` says that it is blocked
unfoldable pub so_end : (ℕ → Bool) → Cmd Bool
so_end ended c =
    (join_nodes ended (suc c.pthreads_created.size) c.pthreads_created.head >>= λ all.
    if all then release_all else pure false)
      c

-- What the loop returns
abbrev Joins : (ℕ → Bool) → List ℕ → Store → Option (Bool × Store) → Type 0
Joins ended ts c r = (b : Bool) × (r ≡ some (b, c)) × ((b ≡ true) ↔ All (λ t. ended t ≡ true) ts)

module _ (ended : ℕ → Bool) where
  -- `so_end` returns if all of the threads have ended and is blocked, with nothing changed, otherwise.
  abbrev pub Ends : List ℕ → Store → Option (Bool × Store) → Type 0
  Ends ts c r =
      (all : Bool) × (c' : Store) × (r ≡ some (all, if all then c' else c))
      × ((all ≡ true) ↔ All (λ t. ended t ≡ true) ts)
