-- ===== src/Concrete.antt =====
-- The functions of _test/so_scheduler.c (the same text as in Linux/) on the memory that they work
-- on. A call runs up to its `sem_wait`, if it has one, and gives the address of the struct whose
-- semaphore it waits on.
pub mod State
pub mod Relates
pub mod Sim
pub mod Params
pub mod Queues
pub mod Additions
pub mod Listing
pub mod Handover
pub mod Chains
pub mod Values
pub mod Entries
pub mod Creation
pub mod Waking
pub mod Calls
pub mod Runs
pub mod Forks
pub mod Machine
pub mod Start
pub mod Follows
pub mod Steps
pub mod Release
pub mod Safety
pub mod End
pub mod Ids
use thread_scheduler_multipl.Base.{
  ℕ, zero, suc, ◌+◌, Bool, true, false, not, ◌||◌, Option, none, some, ◌==◌, ltb, leb,
  if◌then◌else◌, dec_u32, ℤ, pos, minus_one,
}
use thread_scheduler_multipl.LinkedList.Nodes.{Node, load, free}
use thread_scheduler_multipl.LinkedList.Pointers.{ListHandle, pop_node}
use thread_scheduler_multipl.PriorityQueue.{PqData, pq_data}
use thread_scheduler_multipl.HashTable.Nodes.{empty_list, initialize_table}
use thread_scheduler_multipl.Scheduler.State.{
  so_max_prio, invalid_tid, PthreadParam, WaitingPthread, Exit, returns, sem_wait,
}
use thread_scheduler_multipl.Scheduler.{compare_io_signal_thread}
use thread_scheduler_multipl.Scheduler.Table.{ht_capacity}
use thread_scheduler_multipl.Concrete.State.{
  Store, Cmd, pure, ◌>>=◌, ◌>>◌, asks, load_param, set_time_quantum, sem_post, find_param,
  pop_ready, peak_ready, load_ready, push_ready, add_created, add_waiting, new_param, put_value,
}

-- `is_empty_list`
abbrev pub has_no_nodes : ListHandle → Bool
has_no_nodes list = list.size == 0

unfoldable pub set_running : PqData → Cmd (Unit {0})
set_running found c = some (tt, record c { running_thread = pq_data found.thread found.priority })

-- The argument points into the queue.
unfoldable pub set_fastest_thread : (max : ℕ) → Cmd (Unit {0})
set_fastest_thread max = load_ready max >>= set_running

-- The sequence by which four functions hand the processor over
unfoldable pub start_next : Cmd (Unit {0})
start_next = do
  max ← peak_ready
  found ← load_ready max
  ready ← find_param found.thread
  set_fastest_thread max
  pop_ready
  sem_post ready

-- What `so_init` leaves in the struct and in an empty memory
abbrev pub initialized : (time_quantum io : ℕ) → Store
initialized time_quantum io = record {
  params = λ p. none;
  entry_nodes = λ p. none;
  ready_nodes = λ p. none;
  waiting_nodes = λ p. none;
  created_nodes = λ p. none;
  limit = 0;
  blocks = λ k. true;
  pthreads_data = initialize_table ht_capacity false;
  running_thread = pq_data 0 0;
  ready_threads_pq = empty_list;
  waiting_threads = empty_list;
  pthreads_created = empty_list;
  time_quantum = time_quantum;
  io = io;
  is_a_thread_running = false;
}

-- The end of `start_thread`, after the handler
unfoldable pub finish_thread : Cmd (Unit {0})
finish_thread = do
  idle ← asks (λ c. has_no_nodes c.ready_threads_pq)
  if idle then pure tt else start_next

-- The quantum of the running thread falls by one; 0 is left if it has expired.
unfoldable pub spend_quantum : (running : ℕ) → Cmd ℕ
spend_quantum running = do
  p ← load_param running
  set_time_quantum running (dec_u32 p.time_quantum)
  pure (dec_u32 p.time_quantum)

-- The `while` of `so_signal` takes a node out of the list, pushes the thread, and releases the node.
unfoldable pub pop_waiting : (io : ℕ) → Cmd ℕ
pop_waiting io c =
    elim (pop_node (λ w. compare_io_signal_thread w io == 0) c.waiting_threads c.waiting_nodes) [
      | none ↦ none
      | some ((found, l), h) ↦ some (found, record c { waiting_threads = l; waiting_nodes = h })
    ]

unfoldable pub load_waiting : ℕ → Cmd WaitingPthread
load_waiting found c = elim (load found c.waiting_nodes) [
  | none ↦ none
  | some (n, h) ↦ some (n.content, record c { waiting_nodes = h })
]

unfoldable pub free_waiting : ℕ → Cmd (Unit {0})
free_waiting found c = elim (free found c.waiting_nodes) [
  | none ↦ none
  | some (u, h) ↦ some (tt, record c { waiting_nodes = h })
]

module _ (malloc : (ℕ → Bool) → ℕ → ℕ) (garbage : ℕ) where
  unfoldable pub set_fastest_thread_after_quantum : (running : ℕ) → Cmd (Unit {0})
  set_fastest_thread_after_quantum running = do
    quantum ← asks (λ c. c.time_quantum)
    set_time_quantum running quantum
    p ← load_param running
    push_ready malloc garbage p.pthread_id p.priority
    start_next

  -- The replacement of the running thread by a ready one of a bigger priority
  unfoldable pub preempt : (running max : ℕ) → Cmd (Unit {0})
  preempt running max = do
    found ← load_ready max
    ready ← find_param found.thread
    set_fastest_thread max
    pop_ready
    p ← load_param running
    push_ready malloc garbage p.pthread_id p.priority
    sem_post ready

  -- `pthread_create` gives the id `new`. What is left is the address of the struct.
  unfoldable pub create_thread : (func priority new : ℕ) → Cmd ℕ
  create_thread func priority new = do
    quantum ← asks (λ c. c.time_quantum)
    created ← new_param malloc garbage (record {
      semaphore = 0;
      pthread_id = new;
      func = func;
      priority = priority;
      time_quantum = quantum;
    })
    add_created malloc garbage new
    push_ready malloc garbage new priority
    put_value malloc garbage new created
    pure created

  -- `so_fork`, the branch that is not the first fork
  unfoldable pub reschedule_after_fork : (new : ℕ) → Cmd (Exit ℕ)
  reschedule_after_fork new = do
    t ← asks (λ c. c.running_thread.thread)
    running ← find_param t
    left ← spend_quantum running
    idle ← asks (λ c. has_no_nodes c.ready_threads_pq)
    if left == 0
        then (do set_fastest_thread_after_quantum running; pure (sem_wait running new))
        else if idle
        then pure (returns new)
        else do
          max ← peak_ready
          found ← load_ready max
          priority ← asks (λ c. c.running_thread.priority)
          if ltb priority found.priority
              then (do preempt running max; pure (sem_wait running new))
              else pure (returns new)

  -- `so_fork`, the branch of the first fork
  unfoldable pub start_first : (new created : ℕ) → Cmd (Exit ℕ)
  start_first new created = do
    (λ c. some (tt, record c { is_a_thread_running = true }))
    max ← peak_ready
    set_fastest_thread max
    pop_ready
    sem_post created
    pure (returns new)

  unfoldable pub fork : (func priority new : ℕ) → Cmd (Exit ℕ)
  fork func priority new =
      if ltb so_max_prio priority || func == 0 then pure (returns invalid_tid) else do
        created ← create_thread func priority new
        started ← asks (λ c. c.is_a_thread_running)
        if started then reschedule_after_fork new else start_first new created

  unfoldable pub exec : Cmd (Exit (Unit {0}))
  exec = do
    started ← asks (λ c. c.is_a_thread_running)
    if not started then pure (returns tt) else do
      t ← asks (λ c. c.running_thread.thread)
      running ← find_param t
      left ← spend_quantum running
      if left == 0
          then (do set_fastest_thread_after_quantum running; pure (sem_wait running tt))
          else pure (returns tt)

  unfoldable pub wait : ℕ → Cmd (Exit ℤ)
  wait io = do
    started ← asks (λ c. c.is_a_thread_running)
    devices ← asks (λ c. c.io)
    if not started
        then pure (returns (pos 0))
        else if leb devices io
        then pure (returns minus_one)
        else do
          t ← asks (λ c. c.running_thread.thread)
          running ← find_param t
          p ← load_param running
          add_waiting malloc garbage
              (record { pthread_id = p.pthread_id; priority = p.priority; io = io })
          idle ← asks (λ c. has_no_nodes c.ready_threads_pq)
          if idle then pure tt else start_next
          pure (sem_wait running (pos 0))

  -- The `while` of `so_signal`, with the number of rounds at most `fuel`
  unfoldable pub wake_loop : (fuel io num_threads : ℕ) → Cmd ℕ
  wake_loop zero io num_threads c = none
  wake_loop (suc fuel) io num_threads c =
      let rest = wake_loop fuel io (num_threads + 1) in
      (do
        found ← pop_waiting io
        if found == 0 then pure num_threads else (do
          w ← load_waiting found
          push_ready malloc garbage w.pthread_id w.priority
          free_waiting found
          rest))
        c

  unfoldable pub signal : ℕ → Cmd (Exit ℤ)
  signal io = do
    devices ← asks (λ c. c.io)
    started ← asks (λ c. c.is_a_thread_running)
    waiting ← asks (λ c. c.waiting_threads)
    if leb devices io
        then pure (returns minus_one)
        else if not started || has_no_nodes waiting
        then pure (returns (pos 0))
        else do
          t ← asks (λ c. c.running_thread.thread)
          running ← find_param t
          p ← load_param running
          push_ready malloc garbage p.pthread_id p.priority
          woken ← wake_loop (waiting.size + 1) io 0
          start_next
          pure (sem_wait running (pos woken))
