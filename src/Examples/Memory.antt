-- ===== src/Examples/Memory.antt =====
-- The theorems on the scheduler in memory, at concrete inputs.
use thread_scheduler_multipl.Base.{
  [], ◌∷◌, ◌+◌, ◌^◌, ◌≢◌, ℕ, suc, ◌<◌, ltb, ◌==◌, ◌≡◌, refl, Bool, true, false, Option, none, some,
  List, arith, All,
}
use thread_scheduler_multipl.LinkedList.Pointers.{pop_node, add_first, add_last}
use thread_scheduler_multipl.PriorityQueue.Nodes.{push_node, pop_top}
use thread_scheduler_multipl.HashTable.Hashing.{hash_function_ulong}
use thread_scheduler_multipl.HashTable.Nodes.{
  initialize_table, chain_of, value_loop, get_value, add_entry, put_table,
}
use thread_scheduler_multipl.LinkedList.Nodes.{load, free, set_next}
use thread_scheduler_multipl.LinkedList.Contents.{Holds}
use thread_scheduler_multipl.PriorityQueue.{PqData}
use thread_scheduler_multipl.PriorityQueue.Order.{Below, IsSorted}
use thread_scheduler_multipl.Scheduler.State.{PthreadParam}
use thread_scheduler_multipl.Scheduler
use thread_scheduler_multipl.Scheduler.{compare_io_signal_thread}
use thread_scheduler_multipl.Machine
use thread_scheduler_multipl.Machine.{
  active, parked, unborn, fork_request, wait_request, signal_request,
}
use thread_scheduler_multipl.Concrete.State.{
  add_waiting, Store, compare_pthreads_attr, load_param, write_param, find_param, pop_ready,
  peak_ready, load_ready, push_ready, add_created, new_param, put_value,
}
use thread_scheduler_multipl.Concrete.Relates.{IsMalloc}
use thread_scheduler_multipl.Concrete.Machine.{
  HasSpace, System, Reach, Step, start, later, wake, call, run,
}
use thread_scheduler_multipl.Concrete.{
  initialized, fork, create_thread, start_first, set_running, set_fastest_thread,
  reschedule_after_fork, spend_quantum, finish_thread, wait, signal, wake_loop, pop_waiting,
  load_waiting, free_waiting, start_next, has_no_nodes,
}
use thread_scheduler_multipl.Concrete.Start.{empty_table, initialized-Related}
use thread_scheduler_multipl.Concrete.Follows.{StopsAs, CreatedBy, run-StopsAs}
use thread_scheduler_multipl.Concrete.Steps.{Refined}
use thread_scheduler_multipl.Concrete.Ids.{ids_of, Reach-Run, run_refines, turn_moves}
use thread_scheduler_multipl.Machine.Room.{IsUnique}
use thread_scheduler_multipl.Concrete.End.{
  so_end, join_nodes, load_created, release_all, with_block, free_block, release_created,
  release_ready, release_waiting, release_table, clear,
}
use thread_scheduler_multipl.Concrete.Release.{
  release_lists, release_entries, destroy_semaphore, release_value, free_param, load_entry,
  release_entry,
}
use thread_scheduler_multipl.HashTable.Nodes.{free_list}
use thread_scheduler_multipl.LinkedList.Pointers.{free_loop}
use thread_scheduler_multipl.Concrete.Safety.{
  call_no_fault, finish_no_fault, parked_on_own, running_highest,
}

-- A `malloc` that returns the first address beyond the memory in use but one
abbrev next_address : (ℕ → Bool) → ℕ → ℕ
next_address used limit = suc limit

next_address-IsMalloc : IsMalloc next_address
next_address-IsMalloc = record {
  fresh = λ used limit h. (omega arith, h (suc limit) (omega arith));
}

one_fits : 1 + 2 < 2 ^ 32
one_fits = omega arith

two_fit : 2 + 2 < 2 ^ 32
two_fit = omega arith

six_not_null : (n : ℕ) → n ≡ 6 → n ≢ 0
six_not_null n e = omega (arith, e)

-- After `so_init(2, 1)`, thread 5 of priority 2 forks thread 6 of the same priority and waits for
-- device 0; thread 6 signals that device and gets the turn again, so that thread 5 is ready.
abbrev signalled : (u : System) × Reach next_address 7 2 1 u
unfolding fork create_thread start_first set_fastest_thread compare_pthreads_attr load_param
    write_param find_param pop_ready peak_ready load_ready set_running push_ready add_created
    new_param put_value push_node pop_top add_first add_last chain_of value_loop get_value add_entry
    put_table initialize_table hash_function_ulong load free set_next reschedule_after_fork
    spend_quantum wait signal wake_loop pop_waiting load_waiting free_waiting add_waiting pop_node
    start_next compare_io_signal_thread
signalled =
    let forked =
      start 9 2 5 (omega arith) (omega arith) (omega arith) (omega arith) (omega arith)
        (omega arith) refl in
    let running = later forked (wake 5 1 _ 0 refl refl refl) in
    let two =
      later running (call 5 (fork_request 9 2 6) refl (refl, six_not_null 6 refl) one_fits refl) in
    let waiting = later two (call 5 (wait_request 0) refl tt two_fit refl) in
    let next = later waiting (wake 6 9 _ 0 refl refl refl) in
    let woken = later next (call 6 (signal_request 0) refl tt two_fit refl) in
    (_, later woken (wake 6 9 _ 0 refl refl refl))

-- The ids that have been given
signalled_ids : ids_of next_address 7 signalled.1 ≡ 5 ∷ 6 ∷ []
unfolding fork create_thread start_first set_fastest_thread compare_pthreads_attr load_param
    write_param find_param pop_ready peak_ready load_ready set_running push_ready add_created
    new_param put_value push_node pop_top add_first add_last chain_of value_loop get_value add_entry
    put_table initialize_table hash_function_ulong load free set_next reschedule_after_fork
    spend_quantum wait signal wake_loop pop_waiting load_waiting free_waiting add_waiting pop_node
    start_next compare_io_signal_thread
signalled_ids = refl

ids-IsUnique : IsUnique (ids_of next_address 7 signalled.1)
ids-IsUnique = rw signalled_ids (refl, (refl, tt))

-- Where its threads are, and what its lists hold
signalled_lem :
    (signalled.0.pc 6 ≡ active)
    × (signalled.0.pc 5 ≡ parked 1)
    × (signalled.0.pc 8 ≡ unborn)
    × HasSpace signalled.0.store
    × (has_no_nodes signalled.0.store.ready_threads_pq ≡ false)
unfolding fork create_thread start_first set_fastest_thread compare_pthreads_attr load_param
    write_param find_param pop_ready peak_ready load_ready set_running push_ready add_created
    new_param put_value push_node pop_top add_first add_last chain_of value_loop get_value add_entry
    put_table initialize_table hash_function_ulong load free set_next reschedule_after_fork
    spend_quantum wait signal wake_loop pop_waiting load_waiting free_waiting add_waiting pop_node
    start_next compare_io_signal_thread
signalled_lem = (refl, refl, refl, two_fit, refl)

run_refines_example : Refined 2 1 signalled.0
run_refines_example =
    run_refines next_address 7 next_address-IsMalloc (Reach-Run next_address 7 signalled.1)
      ids-IsUnique

call_no_fault_example :
    (stop : Option ℕ) × (c : Store) × (run next_address 7 (fork_request 9 5 8) signalled.0.store
      ≡ some (stop, c))
call_no_fault_example =
    call_no_fault next_address 7 next_address-IsMalloc signalled.1 6 (fork_request 9 5 8)
      signalled_lem.0 (signalled_lem.2, omega arith) signalled_lem.3

finish_no_fault_example : (c : Store) × (finish_thread signalled.0.store ≡ some (tt, c))
finish_no_fault_example =
    finish_no_fault next_address 7 next_address-IsMalloc signalled.1 6 signalled_lem.0

parked_on_own_example :
    ((p : PthreadParam) × (0 < 1) × (signalled.0.store.params 1 ≡ some p) × (p.pthread_id ≡ 5))
    × ((j : ℕ) → signalled.0.pc j ≡ parked 1 → j ≡ 5)
parked_on_own_example =
    parked_on_own next_address 7 next_address-IsMalloc signalled.1 5 1 signalled_lem.1

running_highest_example :
    (signalled.0.store.running_thread.thread ≡ 6)
    × ((j : ℕ) → signalled.0.pc j ≡ active → j ≡ 6)
    × ((xs : List PqData) × Holds signalled.0.store.ready_nodes signalled.0.store.ready_threads_pq
          xs
        × IsSorted xs
        × All (Below signalled.0.store.running_thread.priority) xs)
running_highest_example =
    running_highest next_address 7 next_address-IsMalloc signalled.1 6 signalled_lem.0

turn_moves_example : (v : System) × Step next_address 7 signalled.0 v
turn_moves_example =
    turn_moves next_address 7 next_address-IsMalloc (Reach-Run next_address 7 signalled.1)
      ids-IsUnique signalled_lem.3 signalled_lem.4

run-StopsAs_example :
    StopsAs empty_table
      (CreatedBy next_address 7 next_address-IsMalloc (fork_request 9 2 5) (initialized 2 1))
      (run next_address 7 (fork_request 9 2 5) (initialized 2 1))
      (Machine.run (fork_request 9 2 5) (Scheduler.initialized 2 1))
run-StopsAs_example =
    run-StopsAs next_address 7 next_address-IsMalloc empty_table (fork_request 9 2 5)
      (initialized 2 1) (Scheduler.initialized 2 1) (initialized-Related 2 1) refl (omega arith)

abbrev ap_first : Option (Bool × Store) → Option Bool
ap_first none = none
ap_first (some (b, c)) = some b

-- `so_end` after both threads have ended, and while thread 6 has not
so_end_returns : ap_first (so_end (λ t. ltb t 9) signalled.0.store) ≡ some true
unfolding fork create_thread start_first set_fastest_thread compare_pthreads_attr load_param
    write_param find_param pop_ready peak_ready load_ready set_running push_ready add_created
    new_param put_value push_node pop_top add_first add_last chain_of value_loop get_value add_entry
    put_table initialize_table hash_function_ulong load free set_next reschedule_after_fork
    spend_quantum wait signal wake_loop pop_waiting load_waiting free_waiting add_waiting pop_node
    start_next compare_io_signal_thread so_end join_nodes load_created release_all with_block
    free_block release_created release_ready release_waiting release_table release_lists
    release_entries load_entry release_entry clear free_list free_loop destroy_semaphore
    release_value free_param
so_end_returns = refl

so_end_blocked : ap_first (so_end (λ t. t == 5) signalled.0.store) ≡ some false
unfolding fork create_thread start_first set_fastest_thread compare_pthreads_attr load_param
    write_param find_param pop_ready peak_ready load_ready set_running push_ready add_created
    new_param put_value push_node pop_top add_first add_last chain_of value_loop get_value add_entry
    put_table initialize_table hash_function_ulong load free set_next reschedule_after_fork
    spend_quantum wait signal wake_loop pop_waiting load_waiting free_waiting add_waiting pop_node
    start_next compare_io_signal_thread so_end join_nodes load_created release_all with_block
    free_block release_created release_ready release_waiting release_table release_lists
    release_entries load_entry release_entry clear free_list free_loop destroy_semaphore
    release_value free_param
so_end_blocked = refl
