-- ===== src/Examples/WindowsThreads.antt =====
-- States that a program reaches on Windows. The handle of thread `t` is `t + 100`.
use thread_scheduler_multipl.Base.{ℕ, ◌+◌, ◌-◌, ◌≡◌, refl, some, Option, arith, All, ◌<◌, ◌⊎◌}
use thread_scheduler_multipl.PriorityQueue.{push_node_pq, peak_pq, pop_node_pq, insert_loop}
use thread_scheduler_multipl.PriorityQueue.Order.{Below}
use thread_scheduler_multipl.Machine
use thread_scheduler_multipl.Machine.{unborn, active, parked, ended}
use thread_scheduler_multipl.Windows
use thread_scheduler_multipl.Windows.State.{
  PthreadParam, Scheduler, ok, pure, ◌>>=◌, asks, modify, get_value, set_time_quantum,
  release_semaphore, put_value, push_ready, pop_ready, peak_ready, add_created,
}
use thread_scheduler_multipl.Windows.Machine.{
  System, fork_request, run, linux_system, Step, wake, call, finish, Reach, start, later,
}
use thread_scheduler_multipl.Windows.Join.{begin, join, wait_handles_lem}
use thread_scheduler_multipl.Windows.Safety.{
  Reach-linux, call_returns, running_thread_lem, ready_moves,
}

abbrev thread_of : ℕ → ℕ
thread_of h = h - 100

abbrev entry : (thread semaphore : ℕ) → PthreadParam
entry thread semaphore = record {
  semaphore = semaphore;
  pthread_id = thread;
  func = 1;
  priority = 2;
  time_quantum = 2;
  h_thread = thread + 100;
}

-- `main` has forked thread 10.
abbrev forked : (u : System) × Reach thread_of 2 3 u
unfolding Windows.fork Windows.create_thread Windows.start_first Windows.set_fastest_thread
    Windows.reschedule_after_fork Windows.spend_quantum Windows.preempt pure ◌>>=◌ asks modify
    get_value set_time_quantum release_semaphore put_value push_ready pop_ready peak_ready
    add_created push_node_pq insert_loop peak_pq pop_node_pq
forked = (
  _,
  start 1 2 10 110 (omega arith) (omega arith) (omega arith) (omega arith) (omega arith)
      (omega arith) refl refl,
)

-- Thread 10 runs.
abbrev running : (u : System) × Reach thread_of 2 3 u
unfolding Windows.fork Windows.create_thread Windows.start_first Windows.set_fastest_thread
    Windows.reschedule_after_fork Windows.spend_quantum Windows.preempt pure ◌>>=◌ asks modify
    get_value set_time_quantum release_semaphore put_value push_ready pop_ready peak_ready
    add_created push_node_pq insert_loop peak_pq pop_node_pq
running = (_, later forked.1 (wake 10 10 (entry 10 1) 0 refl refl refl))

-- Thread 10 has forked thread 11, which is ready.
abbrev two_threads : (u : System) × Reach thread_of 2 3 u
unfolding Windows.fork Windows.create_thread Windows.start_first Windows.set_fastest_thread
    Windows.reschedule_after_fork Windows.spend_quantum Windows.preempt pure ◌>>=◌ asks modify
    get_value set_time_quantum release_semaphore put_value push_ready pop_ready peak_ready
    add_created push_node_pq insert_loop peak_pq pop_node_pq
two_threads =
    (_, later running.1 (call 10 (fork_request 1 2 11 111) refl (refl, omega arith) refl refl))

Reach-linux_example : Machine.Reach 2 3 (linux_system thread_of two_threads.0)
Reach-linux_example = Reach-linux thread_of two_threads.1

call_returns_example :
    (stop : Option ℕ) × (w : Scheduler) × (run (fork_request 1 5 12 112) two_threads.0.sched
      ≡ ok stop w)
unfolding Windows.fork Windows.create_thread Windows.start_first Windows.set_fastest_thread
    Windows.reschedule_after_fork Windows.spend_quantum Windows.preempt pure ◌>>=◌ asks modify
    get_value set_time_quantum release_semaphore put_value push_ready pop_ready peak_ready
    add_created push_node_pq insert_loop peak_pq pop_node_pq
call_returns_example =
    call_returns thread_of two_threads.1 10 (fork_request 1 5 12 112) refl (refl, omega arith) refl

running_thread_example :
    ((j : ℕ) → two_threads.0.pc j ≡ active → j ≡ 10)
    × (two_threads.0.sched.running_thread.thread ≡ 10)
    × ((p : PthreadParam) × (two_threads.0.sched.pthreads_data 10 ≡ some p)
        × (0 < p.time_quantum)
        × All (Below p.priority) two_threads.0.sched.ready_threads_pq)
unfolding Windows.fork Windows.create_thread Windows.start_first Windows.set_fastest_thread
    Windows.reschedule_after_fork Windows.spend_quantum Windows.preempt pure ◌>>=◌ asks modify
    get_value set_time_quantum release_semaphore put_value push_ready pop_ready peak_ready
    add_created push_node_pq insert_loop peak_pq pop_node_pq
running_thread_example = running_thread_lem thread_of two_threads.1 10 refl

ready_moves_example : (v : System) × Step thread_of two_threads.0 v
unfolding Windows.fork Windows.create_thread Windows.start_first Windows.set_fastest_thread
    Windows.reschedule_after_fork Windows.spend_quantum Windows.preempt pure ◌>>=◌ asks modify
    get_value set_time_quantum release_semaphore put_value push_ready pop_ready peak_ready
    add_created push_node_pq insert_loop peak_pq pop_node_pq
ready_moves_example = ready_moves thread_of two_threads.1 (λ e. ground arith)

-- Thread 10 has ended, and `so_end` has waited for its handle.
abbrev over : (u : System) × Reach thread_of 2 3 u
unfolding Windows.fork Windows.create_thread Windows.start_first Windows.set_fastest_thread
    Windows.reschedule_after_fork Windows.spend_quantum Windows.preempt pure ◌>>=◌ asks modify
    get_value set_time_quantum release_semaphore put_value push_ready pop_ready peak_ready
    add_created push_node_pq insert_loop peak_pq pop_node_pq Windows.finish_thread
over = (_, later running.1 (finish 10 refl refl))

wait_handles_example :
    ((t : ℕ) → (over.0.pc t ≡ unborn) ⊎ (over.0.pc t ≡ ended))
    × ((v : System) → ¬ Step thread_of over.0 v)
unfolding Windows.fork Windows.create_thread Windows.start_first Windows.set_fastest_thread
    Windows.reschedule_after_fork Windows.spend_quantum Windows.preempt pure ◌>>=◌ asks modify
    get_value set_time_quantum release_semaphore put_value push_ready pop_ready peak_ready
    add_created push_node_pq insert_loop peak_pq pop_node_pq Windows.finish_thread
wait_handles_example = wait_handles_lem thread_of (join 110 (begin over.1) refl refl) refl
