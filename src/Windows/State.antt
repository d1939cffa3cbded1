-- ===== src/Windows/State.antt =====
-- The data of Windows/so_scheduler.c, and the reads and writes that its functions are made of.
use thread_scheduler_multipl.Base.{ℕ, ◌+◌, Bool, Option, none, some, List, ltb, if◌then◌else◌}
use thread_scheduler_multipl.LinkedList.{add_last_node_list}
use thread_scheduler_multipl.PriorityQueue.{PqData, push_node_pq, pop_node_pq, peak_pq}
use thread_scheduler_multipl.Scheduler.State.{WaitingPthread, update}

-- The maximum that `so_fork` gives `CreateSemaphore`
abbrev pub maximum_count : ℕ
maximum_count = 1

-- `pthread_param_t`. The semaphore is its count, `func` the handler's address (0 is NULL), and a
-- handle is a number.
pub record PthreadParam : Type 0 where
  pub semaphore : ℕ
  pub pthread_id : ℕ
  pub func : ℕ
  pub priority : ℕ
  pub time_quantum : ℕ
  pub h_thread : ℕ

abbrev pub PthreadTable : Type 0
PthreadTable = ℕ → Option PthreadParam

-- `so_scheduler_t` once `so_init` has allocated its parts; `pthreads_created` holds handles.
pub record Scheduler : Type 0 where
  pub pthreads_data : PthreadTable
  pub running_thread : PqData
  pub ready_threads_pq : List PqData
  pub waiting_threads : List WaitingPthread
  pub pthreads_created : List ℕ
  pub time_quantum : ℕ
  pub io : ℕ
  pub is_a_thread_running : Bool

-- `so_scheduler`: all its bytes are 0 before `so_init` and after `so_end`.
pub data SoScheduler : Type 0 where
  zeroed : SoScheduler
  live : Scheduler → SoScheduler

-- `exits` is `perror` and `exit(1)`, `crash` the dereference of NULL.
pub data Outcome (A : Type 0) : Type 0 where
  ok : A → Scheduler → Outcome A
  exits : Outcome A
  crash : Outcome A

abbrev pub Cmd : Type 0 → Type 0
Cmd A = Scheduler → Outcome A

unfoldable pub pure : {A : Type 0} → A → Cmd A
pure a s = ok a s

infixl 5 ◌>>=◌ ◌>>◌
unfoldable pub ◌>>=◌ : {A B : Type 0} → Cmd A → (A → Cmd B) → Cmd B
unfolding pure
◌>>=◌ m f s = elim (m s) [ ok a s' ↦ f a s' | exits ↦ exits | crash ↦ crash ]

abbrev pub ◌>>◌ : {B : Type 0} → Cmd (Unit {0}) → Cmd B → Cmd B
m >> k = m >>= λ _. k

unfoldable pub asks : {A : Type 0} → (Scheduler → A) → Cmd A
asks f s = ok (f s) s

-- The writes that cannot fail
unfoldable pub modify : (Scheduler → Scheduler) → Cmd (Unit {0})
modify f s = ok tt (f s)

-- `get_value_hashtable`, and the dereference of what it returns
unfoldable pub get_value : ℕ → Cmd PthreadParam
get_value t s = elim (s.pthreads_data t) [ none ↦ crash | some p ↦ ok p s ]

abbrev pub with_param : Scheduler → ℕ → PthreadParam → Scheduler
with_param s t p = record s { pthreads_data = update s.pthreads_data t (some p) }

unfoldable pub set_time_quantum : ℕ → ℕ → Cmd (Unit {0})
set_time_quantum t q s = elim (s.pthreads_data t) [
  | none ↦ crash
  | some p ↦ ok tt (with_param s t (record p { time_quantum = q }))
]

-- `ReleaseSemaphore(semaphore, 1, NULL)`, which fails if the count would exceed the maximum.
unfoldable pub release_semaphore : ℕ → Cmd (Unit {0})
release_semaphore t s = elim (s.pthreads_data t) [
  | none ↦ crash
  | some p ↦
      if ltb maximum_count (p.semaphore + 1)
      then exits
      else ok tt (with_param s t (record p { semaphore = p.semaphore + 1 }))
]

-- `put_hashtable` of a new key; `CreateThread` gives no id that is still in use.
unfoldable pub put_value : ℕ → PthreadParam → Cmd (Unit {0})
put_value t p s = elim (s.pthreads_data t) [ none ↦ ok tt (with_param s t p) | some old ↦ crash ]

unfoldable pub push_ready : ℕ → ℕ → Cmd (Unit {0})
push_ready t priority s =
    ok tt (record s { ready_threads_pq = push_node_pq s.ready_threads_pq t priority })

unfoldable pub pop_ready : Cmd (Unit {0})
pop_ready s = ok tt (record s { ready_threads_pq = pop_node_pq s.ready_threads_pq })

unfoldable pub peak_ready : Cmd PqData
peak_ready s = elim (peak_pq s.ready_threads_pq) [ none ↦ crash | some x ↦ ok x s ]

unfoldable pub add_created : ℕ → Cmd (Unit {0})
add_created h s = ok tt (record s { pthreads_created = add_last_node_list s.pthreads_created h })

unfoldable pub add_waiting : WaitingPthread → Cmd (Unit {0})
add_waiting w s = ok tt (record s { waiting_threads = add_last_node_list s.waiting_threads w })
