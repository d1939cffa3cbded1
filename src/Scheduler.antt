-- ===== src/Scheduler.antt =====
-- The functions of Linux/so_scheduler.c. A call runs up to its `sem_wait`, if it has one: what
-- follows that is the return of a value.
pub mod State
pub mod Wake
pub mod Lifecycle
pub mod Table
mod Tests
use thread_scheduler_multipl.Base.{
  ℕ, zero, suc, ◌+◌, Bool, true, false, not, ◌||◌, Option, none, some, List, [], ◌∷◌, ◌==◌, ltb,
  leb, if◌then◌else◌, dec_u32, ℤ, pos, minus_one, length,
}
use thread_scheduler_multipl.LinkedList.{is_empty_list, pop_node_list}
use thread_scheduler_multipl.PriorityQueue.{PqData, pq_data, push_node_pq, pop_node_pq, peak_pq}
use thread_scheduler_multipl.Scheduler.State.{
  so_max_prio, so_max_num_events, invalid_tid, PthreadParam, WaitingPthread, Scheduler, SoScheduler,
  zeroed, live, Cmd, pure, ◌>>=◌, ◌>>◌, Exit, returns, sem_wait, asks, get_value, set_time_quantum,
  sem_post, put_value, push_ready, pop_ready, peak_ready, add_created, add_waiting,
}

-- "0" on a match
unfoldable pub compare_io_signal_thread : WaitingPthread → ℕ → ℕ
compare_io_signal_thread a b = if a.io == b then 0 else 1

unfoldable pub set_fastest_thread : PqData → Cmd (Unit {0})
set_fastest_thread max s = some (tt, record s { running_thread = pq_data max.thread max.priority })

-- The sequence by which four functions hand the processor over: the first thread of the queue
-- becomes the running one, leaves the queue, and is signalled.
unfoldable pub start_next : Cmd (Unit {0})
unfolding peak_pq pop_node_pq set_fastest_thread
start_next = do
  max ← peak_ready
  get_value max.thread >>= λ _. set_fastest_thread max
  pop_ready
  sem_post max.thread

-- `t` is the id under which the table holds `running_pthread_pararm`.
unfoldable pub set_fastest_thread_after_quantum : ℕ → Cmd (Unit {0})
unfolding start_next
set_fastest_thread_after_quantum t = do
  set_time_quantum t (← asks (λ s. s.time_quantum))
  p ← get_value t
  push_ready p.pthread_id p.priority
  start_next

abbrev pub no_thread : PqData
no_thread = pq_data 0 0

-- What `so_init` leaves in the struct.
abbrev pub initialized : (time_quantum io : ℕ) → Scheduler
initialized time_quantum io = record {
  running_thread = no_thread;
  pthreads_data = λ _. none;
  ready_threads_pq = [];
  waiting_threads = [];
  pthreads_created = [];
  time_quantum = time_quantum;
  io = io;
  is_a_thread_running = false;
}

-- `time_quantum` is not 0 in a scheduler that is live.
pub so_init : (time_quantum io : ℕ) → SoScheduler → ℤ × SoScheduler
so_init time_quantum io (live s) = (minus_one, live s)
so_init time_quantum io zeroed =
    if ltb so_max_num_events io || time_quantum == 0
    then (minus_one, zeroed)
    else (pos 0, live (initialized time_quantum io))

-- The end of `start_thread`, after the handler.
unfoldable pub finish_thread : Cmd (Unit {0})
unfolding start_next
finish_thread = do
  idle ← asks (λ s. is_empty_list s.ready_threads_pq)
  if idle then pure tt else start_next

-- `new` is the id that `pthread_create` gives.
unfoldable pub create_thread : (func priority new : ℕ) → Cmd (Unit {0})
create_thread func priority new = do
  quantum ← asks (λ s. s.time_quantum)
  add_created new
  push_ready new priority
  put_value new (record {
    semaphore = 0;
    pthread_id = new;
    func = func;
    priority = priority;
    time_quantum = quantum;
  })

-- The replacement of the running thread `t` by a ready one of a bigger priority.
unfoldable pub preempt : (t : ℕ) → PqData → Cmd (Unit {0})
unfolding set_fastest_thread pop_node_pq
preempt t max = do
  get_value max.thread >>= λ _. set_fastest_thread max
  pop_ready
  p ← get_value t
  push_ready p.pthread_id p.priority
  sem_post max.thread

-- The quantum of the running thread falls by one; 0 is left if it has expired.
unfoldable pub spend_quantum : ℕ → Cmd ℕ
spend_quantum t = do
  p ← get_value t
  set_time_quantum t (dec_u32 p.time_quantum)
  pure (dec_u32 p.time_quantum)

-- `so_fork`, the branch that is not the first fork
unfoldable pub reschedule_after_fork : (new : ℕ) → Cmd (Exit ℕ)
unfolding spend_quantum set_fastest_thread_after_quantum preempt peak_pq
reschedule_after_fork new = do
  t ← asks (λ s. s.running_thread.thread)
  left ← spend_quantum t
  idle ← asks (λ s. is_empty_list s.ready_threads_pq)
  if left == 0
      then (do set_fastest_thread_after_quantum t; pure (sem_wait t new))
      else if idle
      then pure (returns new)
      else do
        max ← peak_ready
        running ← asks (λ s. s.running_thread.priority)
        if ltb running max.priority
            then (do preempt t max; pure (sem_wait t new))
            else pure (returns new)

-- `so_fork`, the branch of the first fork
unfoldable pub start_first : (new : ℕ) → Cmd (Exit ℕ)
unfolding set_fastest_thread peak_pq pop_node_pq
start_first new = do
  (λ s. some (tt, record s { is_a_thread_running = true }))
  max ← peak_ready
  set_fastest_thread max
  pop_ready
  sem_post new
  pure (returns new)

unfoldable pub fork : (func priority new : ℕ) → Cmd (Exit ℕ)
unfolding create_thread reschedule_after_fork start_first
fork func priority new =
    if ltb so_max_prio priority || func == 0 then pure (returns invalid_tid) else do
      create_thread func priority new
      started ← asks (λ s. s.is_a_thread_running)
      if started then reschedule_after_fork new else start_first new

unfoldable pub exec : Cmd (Exit (Unit {0}))
unfolding spend_quantum set_fastest_thread_after_quantum
exec = do
  started ← asks (λ s. s.is_a_thread_running)
  if not started then pure (returns tt) else do
    t ← asks (λ s. s.running_thread.thread)
    left ← spend_quantum t
    if left == 0
        then (do set_fastest_thread_after_quantum t; pure (sem_wait t tt))
        else pure (returns tt)

unfoldable pub wait : ℕ → Cmd (Exit ℤ)
unfolding start_next
wait io = do
  started ← asks (λ s. s.is_a_thread_running)
  devices ← asks (λ s. s.io)
  if not started
      then pure (returns (pos 0))
      else if leb devices io
      then pure (returns minus_one)
      else do
        t ← asks (λ s. s.running_thread.thread)
        p ← get_value t
        add_waiting (record { pthread_id = p.pthread_id; priority = p.priority; io = io })
        idle ← asks (λ s. is_empty_list s.ready_threads_pq)
        if idle then pure tt else start_next
        pure (sem_wait t (pos 0))

-- The `while` of `so_signal`, with the number of rounds at most `fuel`.
unfoldable pub wake_loop : (fuel io num_threads : ℕ) → Cmd ℕ
unfolding compare_io_signal_thread
wake_loop zero io num_threads s = none
wake_loop (suc fuel) io num_threads s =
    elim (pop_node_list (λ w. compare_io_signal_thread w io == 0) s.waiting_threads) [
      | none ↦ some (num_threads, s)
      | some (w, rest) ↦ wake_loop fuel io (num_threads + 1) (record s {
        waiting_threads = rest;
        ready_threads_pq = push_node_pq s.ready_threads_pq w.pthread_id w.priority;
      })
    ]

unfoldable pub signal : ℕ → Cmd (Exit ℤ)
unfolding wake_loop start_next
signal io = do
  devices ← asks (λ s. s.io)
  started ← asks (λ s. s.is_a_thread_running)
  waiting ← asks (λ s. s.waiting_threads)
  if leb devices io
      then pure (returns minus_one)
      else if not started || is_empty_list waiting
      then pure (returns (pos 0))
      else do
        t ← asks (λ s. s.running_thread.thread)
        p ← get_value t
        push_ready p.pthread_id p.priority
        woken ← wake_loop (length waiting + 1) io 0
        start_next
        pure (sem_wait t (pos woken))

-- The calls on the global `so_scheduler`. On zeroed bytes `so_fork` creates its thread and then
-- reads through the NULL that `peak_pq` returns; the other calls return at their guards.
pub on_live : {A : Type 0} → Option (A × Scheduler) → Option (A × SoScheduler)
on_live none = none
on_live (some (a, s)) = some (a, live s)

pub so_fork : (func priority new : ℕ) → SoScheduler → Option (Exit ℕ × SoScheduler)
unfolding on_live fork
so_fork func priority new zeroed =
    if ltb so_max_prio priority || func == 0 then some (returns invalid_tid, zeroed) else none
so_fork func priority new (live s) = on_live (fork func priority new s)

pub so_exec : SoScheduler → Option (Exit (Unit {0}) × SoScheduler)
unfolding on_live exec
so_exec zeroed = some (returns tt, zeroed)
so_exec (live s) = on_live (exec s)

pub so_wait : ℕ → SoScheduler → Option (Exit ℤ × SoScheduler)
unfolding on_live wait
so_wait io zeroed = some (returns (pos 0), zeroed)
so_wait io (live s) = on_live (wait io s)

pub so_signal : ℕ → SoScheduler → Option (Exit ℤ × SoScheduler)
unfolding on_live signal
so_signal io zeroed = some (returns minus_one, zeroed)
so_signal io (live s) = on_live (signal io s)

-- The `while` of `so_end`: `none` while it is blocked in the join of a thread that has not ended.
pub join_loop : (ℕ → Bool) → List ℕ → Option (Unit {0})
join_loop ended [] = some tt
join_loop ended (t ∷ ts) = if ended t then join_loop ended ts else none

pub so_end : (ℕ → Bool) → SoScheduler → Option SoScheduler
unfolding join_loop
so_end ended zeroed = some zeroed
so_end ended (live s) = elim (join_loop ended s.pthreads_created) [
  | none ↦ none
  | some u ↦ some zeroed
]
