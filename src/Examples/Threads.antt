-- ===== src/Examples/Threads.antt =====
-- Three states that a program reaches, and what the theorems say of them.
use thread_scheduler_multipl.Base.{
  length, ◌+◌, ℕ, ◌≡◌, ◌≢◌, ◌⊎◌, refl, true, false, Option, none, some, [], ◌∷◌, arith, All, ◌<◌,
  ◌≤◌,
}
use thread_scheduler_multipl.PriorityQueue.{push_node_pq, insert_loop}
use thread_scheduler_multipl.PriorityQueue.Order.{Below, has_thread}
use thread_scheduler_multipl.Scheduler.State.{PthreadParam, Scheduler, update}
use thread_scheduler_multipl.Scheduler.{fork, wait, finish_thread}
use thread_scheduler_multipl.Machine.{
  unborn, active, parked, ended, System, system, exec_request, fork_request, wait_request, run,
  Step, wake, call, finish, Reach, start, later,
}
use thread_scheduler_multipl.Machine.Invariant.{has_waiter, HasSemaphore}
use thread_scheduler_multipl.Machine.Start.{first_state, first_param, first_fork_lem}
use thread_scheduler_multipl.Machine.Finish.{taken}
use thread_scheduler_multipl.Machine.Ids.{
  Run, first, next, joins, turn_kept, stuck_waiting, parked_place, joined_all,
}
use thread_scheduler_multipl.Machine.Preemption.{Fate, fork_preempts_lem}
use thread_scheduler_multipl.Machine.Room.{queued-created}
use thread_scheduler_multipl.Machine.Quantum.{Spends, exec_quantum_lem}
use thread_scheduler_multipl.Machine.Safety.{
  mutual_exclusion, highest_priority, call_no_crash, quantum_in_range,
}

-- `main` has forked thread 10.
abbrev forked : System
forked = system (first_state 2 3 1 2 10) (update (λ _. unborn) 10 (parked 10))

forked-Reach : Reach 2 3 forked
forked-Reach =
    start 1 2 10 (omega arith) (omega arith) (omega arith) (omega arith) (omega arith) (omega arith)
      (first_fork_lem 2 3 1 2 10 (omega arith) (omega arith))

-- Thread 10 runs.
abbrev running : System
running = system (taken forked.sched 10 (first_param 1 2 10 2) 0) (update forked.pc 10 active)

running-Reach : Reach 2 3 running
running-Reach = later forked-Reach (wake 10 10 (first_param 1 2 10 2) 0 refl refl refl)

-- Thread 10 has forked thread 11, which is ready.
abbrev two_threads : (u : System) × Reach 2 3 u
unfolding fork push_node_pq insert_loop
two_threads = (_, later running-Reach (call 10 (fork_request 1 2 11) refl (refl, omega arith) refl))

-- Thread 10 waits for device 1, with no other thread.
abbrev all_wait : (u : System) × Reach 2 3 u
unfolding wait
all_wait = (_, later running-Reach (call 10 (wait_request 1) refl tt refl))

mutual_exclusion_example : ◌≡◌ {A = ℕ} 10 10
unfolding fork push_node_pq insert_loop
mutual_exclusion_example = mutual_exclusion two_threads.1 10 10 refl refl

highest_priority_example :
    (p : PthreadParam) × (two_threads.0.sched.pthreads_data 10 ≡ some p)
    × (two_threads.0.sched.running_thread.thread ≡ 10)
    × All (Below p.priority) two_threads.0.sched.ready_threads_pq
unfolding fork push_node_pq insert_loop
highest_priority_example = highest_priority two_threads.1 10 refl

call_no_crash_example : run (fork_request 1 5 12) two_threads.0.sched ≢ none
unfolding fork push_node_pq insert_loop
call_no_crash_example =
    call_no_crash two_threads.1 10 (fork_request 1 5 12) refl (refl, omega arith)

abbrev new_param : PthreadParam
new_param = record { semaphore = 0; pthread_id = 11; func = 1; priority = 2; time_quantum = 2 }

quantum_in_range_example :
    (0 < new_param.time_quantum) × (new_param.time_quantum ≤ two_threads.0.sched.time_quantum)
unfolding fork push_node_pq insert_loop
quantum_in_range_example = quantum_in_range two_threads.1 11 new_param refl

stuck : (u : System) → ¬ Step all_wait.0 u
unfolding wait
stuck u (wake t owner p n park e up) = ground arith
stuck u (call t r a fresh e) = ground arith
stuck u (finish t a e) = ground arith

-- Thread 10 has ended.
abbrev over : (u : System) × Reach 2 3 u
unfolding finish_thread
over = (_, later running-Reach (finish 10 refl refl))

fork_preempts_example :
    (p : PthreadParam) × (running.sched.pthreads_data 10 ≡ some p)
    × ((stop : Option ℕ) × (s' : Scheduler) × (run (fork_request 1 5 12) running.sched
          ≡ some (stop, s'))
        × Fate running.sched 10 12 5 p stop s')
fork_preempts_example =
    fork_preempts_lem 10 1 5 12 running-Reach refl refl (omega arith) (omega arith)

exec_quantum_example :
    (p : PthreadParam) × (two_threads.0.sched.pthreads_data 10 ≡ some p)
    × ((stop : Option ℕ) × (s' : Scheduler) × (run exec_request two_threads.0.sched
          ≡ some (stop, s'))
        × Spends two_threads.0.sched 10 p stop s')
unfolding fork push_node_pq insert_loop
exec_quantum_example = exec_quantum_lem 10 two_threads.1 refl

queued-created_example :
    length two_threads.0.sched.ready_threads_pq + length two_threads.0.sched.waiting_threads
    ≤ length two_threads.0.sched.pthreads_created
queued-created_example = queued-created two_threads.1

-- The same as runs, with the ids that have been given
forked-Run : Run 2 3 forked (10 ∷ []) 0
forked-Run =
    first 1 2 10 (omega arith) (omega arith) (omega arith) (omega arith) (omega arith) (omega arith)
      (first_fork_lem 2 3 1 2 10 (omega arith) (omega arith))

running-Run : Run 2 3 running (10 ∷ []) 0
running-Run = next forked-Run (wake 10 10 (first_param 1 2 10 2) 0 refl refl refl)

two_threads-Run : Run 2 3 two_threads.0 (10 ∷ 11 ∷ []) 0
unfolding fork push_node_pq insert_loop
two_threads-Run = next running-Run (call 10 (fork_request 1 2 11) refl (refl, omega arith) refl)

all_wait-Run : Run 2 3 all_wait.0 (10 ∷ []) 0
unfolding wait
all_wait-Run = next running-Run (call 10 (wait_request 1) refl tt refl)

-- `so_end` has joined thread 10.
over-Run : Run 2 3 over.0 (10 ∷ []) 1
unfolding finish_thread
over-Run = joins 10 (next running-Run (finish 10 refl refl)) refl refl

turn_kept_example : (u : System) × Step two_threads.0 u
unfolding fork push_node_pq insert_loop
turn_kept_example = turn_kept two_threads-Run (refl, (refl, tt)) (λ e. ground arith)

stuck_waiting_example :
    (all_wait.0.pc 10 ≡ unborn)
    ⊎ (all_wait.0.pc 10 ≡ ended)
    ⊎ ((all_wait.0.pc 10 ≡ parked 10) × (has_waiter 10 all_wait.0.sched.waiting_threads ≡ true))
stuck_waiting_example = stuck_waiting all_wait-Run (refl, tt) stuck 10

parked_place_example :
    ◌≡◌ {A = ℕ} 11 11
    × (((has_thread 11 two_threads.0.sched.ready_threads_pq ≡ true)
          × (has_waiter 11 two_threads.0.sched.waiting_threads ≡ false)
          × HasSemaphore (two_threads.0.sched.pthreads_data 11) 0)
        ⊎ ((has_thread 11 two_threads.0.sched.ready_threads_pq ≡ false)
            × (has_waiter 11 two_threads.0.sched.waiting_threads ≡ true)
            × HasSemaphore (two_threads.0.sched.pthreads_data 11) 0)
        ⊎ ((has_thread 11 two_threads.0.sched.ready_threads_pq ≡ false)
            × (has_waiter 11 two_threads.0.sched.waiting_threads ≡ false)
            × HasSemaphore (two_threads.0.sched.pthreads_data 11) 1
            × (two_threads.0.sched.running_thread.thread ≡ 11)))
unfolding fork push_node_pq insert_loop
parked_place_example = parked_place two_threads-Run (refl, (refl, tt)) 11 11 refl

joined_all_example :
    ((t : ℕ) → (over.0.pc t ≡ unborn) ⊎ (over.0.pc t ≡ ended)) × ((u : System) → ¬ Step over.0 u)
unfolding finish_thread
joined_all_example = joined_all over-Run (refl, tt) refl
