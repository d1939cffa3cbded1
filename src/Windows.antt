-- ===== src/Windows.antt =====
-- The functions of Windows/so_scheduler.c. A call runs up to its `WaitForSingleObject` on the
-- calling thread's semaphore, if it has one: what follows that is the return of a value.
pub mod State
pub mod Follows
pub mod Writes
pub mod Handover
pub mod Calls
pub mod Machine
pub mod Safety
pub mod Join
use thread_scheduler_multipl.Base.{
  ℕ, zero, suc, ◌+◌, Bool, true, false, not, ◌||◌, Option, none, some, List, [], ◌∷◌, ◌==◌, ltb,
  leb, if◌then◌else◌, dec_u32, ℤ, pos, minus_one, length,
}
use thread_scheduler_multipl.LinkedList.{is_empty_list, pop_node_list}
use thread_scheduler_multipl.PriorityQueue.{PqData, pq_data, push_node_pq}
use thread_scheduler_multipl.Scheduler.State.{
  so_max_prio, so_max_num_events, invalid_tid, WaitingPthread, Exit, returns, sem_wait,
}
use thread_scheduler_multipl.Windows.State.{
  PthreadParam, Scheduler, SoScheduler, zeroed, live, Outcome, ok, exits, crash, Cmd, pure, ◌>>=◌,
  ◌>>◌, asks, modify, get_value, set_time_quantum, release_semaphore, put_value, push_ready,
  pop_ready, peak_ready, add_created, add_waiting,
}

-- "0" on a match
unfoldable pub compare_io_signal_thread : WaitingPthread → ℕ → ℕ
compare_io_signal_thread a b = if a.io == b then 0 else 1

unfoldable pub set_fastest_thread : PqData → Cmd (Unit {0})
set_fastest_thread max = modify (λ s. record s { running_thread = pq_data max.thread max.priority })

-- The sequence by which four functions hand the processor over: the first thread of the queue
-- becomes the running one, leaves the queue, and is released.
unfoldable pub start_next : Cmd (Unit {0})
start_next = do
  max ← peak_ready
  get_value max.thread >>= λ _. set_fastest_thread max
  pop_ready
  release_semaphore max.thread

-- `t` is the id under which the table holds `running_pthread_pararm`.
unfoldable pub set_fastest_thread_after_quantum : ℕ → Cmd (Unit {0})
set_fastest_thread_after_quantum t = do
  quantum ← asks (λ s. s.time_quantum)
  set_time_quantum t quantum
  p ← get_value t
  push_ready p.pthread_id p.priority
  start_next

-- What `so_init` leaves in the struct.
abbrev pub initialized : (time_quantum io : ℕ) → Scheduler
initialized time_quantum io = record {
  pthreads_data = λ _. none;
  running_thread = pq_data 0 0;
  ready_threads_pq = [];
  waiting_threads = [];
  pthreads_created = [];
  time_quantum = time_quantum;
  io = io;
  is_a_thread_running = false;
}

unfoldable pub so_init : (time_quantum io : ℕ) → SoScheduler → ℤ × SoScheduler
so_init time_quantum io (live s) = (minus_one, live s)
so_init time_quantum io zeroed =
    if ltb so_max_num_events io || time_quantum == 0
    then (minus_one, zeroed)
    else (pos 0, live (initialized time_quantum io))

-- The end of `start_thread`, after the handler.
unfoldable pub finish_thread : Cmd (Unit {0})
finish_thread = do
  idle ← asks (λ s. is_empty_list s.ready_threads_pq)
  if idle then pure tt else start_next

-- `CreateThread` gives the id `new` and the handle `h`.
unfoldable pub create_thread : (func priority new h : ℕ) → Cmd (Unit {0})
create_thread func priority new h = do
  quantum ← asks (λ s. s.time_quantum)
  add_created h
  push_ready new priority
  put_value new (record {
    semaphore = 0;
    pthread_id = new;
    func = func;
    priority = priority;
    time_quantum = quantum;
    h_thread = h;
  })

-- The replacement of the running thread `t` by a ready one of a bigger priority.
unfoldable pub preempt : (t : ℕ) → PqData → Cmd (Unit {0})
preempt t max = do
  get_value max.thread >>= λ _. set_fastest_thread max
  pop_ready
  p ← get_value t
  push_ready p.pthread_id p.priority
  release_semaphore max.thread

-- The quantum of the running thread falls by one; 0 is left if it has expired.
unfoldable pub spend_quantum : ℕ → Cmd ℕ
spend_quantum t = do
  p ← get_value t
  set_time_quantum t (dec_u32 p.time_quantum)
  pure (dec_u32 p.time_quantum)

-- `so_fork`, the branch that is not the first fork
unfoldable pub reschedule_after_fork : (new : ℕ) → Cmd (Exit ℕ)
reschedule_after_fork new = do
  t ← asks (λ s. s.running_thread.thread)
  left ← spend_quantum t
  idle ← asks (λ s. is_empty_list s.ready_threads_pq)
  if left == 0
      then (do set_fastest_thread_after_quantum t; pure (sem_wait t new))
      else if idle
      then pure (returns new)
      else do
        max ← peak_ready
        running ← asks (λ s. s.running_thread.priority)
        if ltb running max.priority
            then (do preempt t max; pure (sem_wait t new))
            else pure (returns new)

-- `so_fork`, the branch of the first fork
unfoldable pub start_first : (new : ℕ) → Cmd (Exit ℕ)
start_first new = do
  modify (λ s. record s { is_a_thread_running = true })
  max ← peak_ready
  set_fastest_thread max
  pop_ready
  release_semaphore new
  pure (returns new)

unfoldable pub fork : (func priority new h : ℕ) → Cmd (Exit ℕ)
fork func priority new h =
    if ltb so_max_prio priority || func == 0 then pure (returns invalid_tid) else do
      create_thread func priority new h
      started ← asks (λ s. s.is_a_thread_running)
      if started then reschedule_after_fork new else start_first new

unfoldable pub exec : Cmd (Exit (Unit {0}))
exec = do
  started ← asks (λ s. s.is_a_thread_running)
  if not started then pure (returns tt) else do
    t ← asks (λ s. s.running_thread.thread)
    left ← spend_quantum t
    if left == 0
        then (do set_fastest_thread_after_quantum t; pure (sem_wait t tt))
        else pure (returns tt)

unfoldable pub wait : ℕ → Cmd (Exit ℤ)
wait io = do
  started ← asks (λ s. s.is_a_thread_running)
  devices ← asks (λ s. s.io)
  if not started
      then pure (returns (pos 0))
      else if leb devices io
      then pure (returns minus_one)
      else do
        t ← asks (λ s. s.running_thread.thread)
        p ← get_value t
        add_waiting (record { pthread_id = p.pthread_id; priority = p.priority; io = io })
        idle ← asks (λ s. is_empty_list s.ready_threads_pq)
        if idle then pure tt else start_next
        pure (sem_wait t (pos 0))

-- The `while` of `so_signal`, with the number of rounds at most `fuel`.
unfoldable pub wake_loop : (fuel io num_threads : ℕ) → Cmd ℕ
unfolding compare_io_signal_thread
wake_loop zero io num_threads s = crash
wake_loop (suc fuel) io num_threads s =
    elim (pop_node_list (λ w. compare_io_signal_thread w io == 0) s.waiting_threads) [
      | none ↦ ok num_threads s
      | some (w, rest) ↦ wake_loop fuel io (num_threads + 1) (record s {
        waiting_threads = rest;
        ready_threads_pq = push_node_pq s.ready_threads_pq w.pthread_id w.priority;
      })
    ]

unfoldable pub signal : ℕ → Cmd (Exit ℤ)
signal io = do
  devices ← asks (λ s. s.io)
  started ← asks (λ s. s.is_a_thread_running)
  waiting ← asks (λ s. s.waiting_threads)
  if leb devices io
      then pure (returns minus_one)
      else if not started || is_empty_list waiting
      then pure (returns (pos 0))
      else do
        t ← asks (λ s. s.running_thread.thread)
        p ← get_value t
        push_ready p.pthread_id p.priority
        woken ← wake_loop (length waiting + 1) io 0
        start_next
        pure (sem_wait t (pos woken))

-- The `while` of `so_end`: `none` while it is blocked on the handle of a thread that has not ended.
unfoldable pub join_loop : (ℕ → Bool) → List ℕ → Option (Unit {0})
join_loop signaled [] = some tt
join_loop signaled (h ∷ hs) = if signaled h then join_loop signaled hs else none

unfoldable pub so_end : (ℕ → Bool) → SoScheduler → Option SoScheduler
unfolding join_loop
so_end signaled zeroed = some zeroed
so_end signaled (live s) = elim (join_loop signaled s.pthreads_created) [
  | none ↦ none
  | some u ↦ some zeroed
]
