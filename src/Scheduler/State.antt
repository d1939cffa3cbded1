-- ===== src/Scheduler/State.antt =====
-- The data of Linux/so_scheduler.c, and the reads and writes that its functions are made of.
use thread_scheduler_multipl.Base.{ℕ, ◌+◌, Bool, Option, none, some, List, ◌==◌, if◌then◌else◌}
use thread_scheduler_multipl.LinkedList.{add_last_node_list}
use thread_scheduler_multipl.PriorityQueue.{PqData, push_node_pq, pop_node_pq, peak_pq}

-- `SO_MAX_PRIO`, `SO_MAX_NUM_EVENTS` and `INVALID_TID`
abbrev pub so_max_prio : ℕ
so_max_prio = 5

abbrev pub so_max_num_events : ℕ
so_max_num_events = 256

abbrev pub invalid_tid : ℕ
invalid_tid = 0

-- `pthread_param_t`. The semaphore is its value, `func` the handler's address (0 is NULL).
pub record PthreadParam : Type 0 where
  pub semaphore : ℕ
  pub pthread_id : ℕ
  pub func : ℕ
  pub priority : ℕ
  pub time_quantum : ℕ

-- `waiting_pthread_t`
pub record WaitingPthread : Type 0 where
  pub pthread_id : ℕ
  pub priority : ℕ
  pub io : ℕ

abbrev pub PthreadTable : Type 0
PthreadTable = ℕ → Option PthreadParam

-- `so_scheduler_t` once `so_init` has allocated its parts. The table is read as the map from a
-- thread's id to the `pthread_param_t` that its entry points to.
pub record Scheduler : Type 0 where
  pub running_thread : PqData
  pub pthreads_data : PthreadTable
  pub ready_threads_pq : List PqData
  pub waiting_threads : List WaitingPthread
  pub pthreads_created : List ℕ
  pub time_quantum : ℕ
  pub io : ℕ
  pub is_a_thread_running : Bool

-- The global `so_scheduler`: all its bytes are 0 before `so_init` and after `so_end`.
pub data SoScheduler : Type 0 where
  zeroed : SoScheduler
  live : Scheduler → SoScheduler

-- `none` is a crash: a NULL pointer is dereferenced.
abbrev pub Cmd : Type 0 → Type 0
Cmd A = Scheduler → Option (A × Scheduler)

abbrev pub pure : {A : Type 0} → A → Cmd A
pure a s = some (a, s)

infixl 5 ◌>>=◌ ◌>>◌
abbrev pub ◌>>=◌ : {A B : Type 0} → Cmd A → (A → Cmd B) → Cmd B
◌>>=◌ m f s = elim (m s) [ none ↦ none | some (a, s') ↦ f a s' ]

abbrev pub ◌>>◌ : {B : Type 0} → Cmd (Unit {0}) → Cmd B → Cmd B
m >> k = m >>= λ _. k

abbrev pub update {ℓ} : {A : Type ℓ} → (ℕ → A) → ℕ → A → ℕ → A
update f t a j = if t == j then a else f j

-- How a call ends: it returns a value, or it first waits on the semaphore of a thread.
pub data Exit (A : Type 0) : Type 0 where
  returns : A → Exit A
  sem_wait : ℕ → A → Exit A

abbrev pub asks : {A : Type 0} → (Scheduler → A) → Cmd A
asks f s = some (f s, s)

-- `get_value_hashtable`, and the dereference of what it returns
abbrev pub get_value : ℕ → Cmd PthreadParam
get_value t s = elim (s.pthreads_data t) [ none ↦ none | some p ↦ some (p, s) ]

-- A write through the pointer that the entry of `t` holds.
abbrev pub write_param : ℕ → (PthreadParam → PthreadParam) → Cmd (Unit {0})
write_param t f s = elim (s.pthreads_data t) [
  | none ↦ none
  | some p ↦ some (tt, record s { pthreads_data = update s.pthreads_data t (some (f p)) })
]

abbrev pub set_time_quantum : ℕ → ℕ → Cmd (Unit {0})
set_time_quantum t q = write_param t (λ p. record p { time_quantum = q })

abbrev pub sem_post : ℕ → Cmd (Unit {0})
sem_post t = write_param t (λ p. record p { semaphore = p.semaphore + 1 })

-- `put_hashtable` of a new key. For a key that has an entry the code writes into the old value as
-- if it were an `Entry`, which is undefined, so there is no result; Machine/Ids.antt has the call
-- that does so.
abbrev pub put_value : ℕ → PthreadParam → Cmd (Unit {0})
put_value t p s = elim (s.pthreads_data t) [
  | none ↦ some (tt, record s { pthreads_data = update s.pthreads_data t (some p) })
  | some old ↦ none
]

abbrev pub push_ready : ℕ → ℕ → Cmd (Unit {0})
push_ready t priority s =
    some (tt, record s { ready_threads_pq = push_node_pq s.ready_threads_pq t priority })

abbrev pub pop_ready : Cmd (Unit {0})
pop_ready s = some (tt, record s { ready_threads_pq = pop_node_pq s.ready_threads_pq })

abbrev pub peak_ready : Cmd PqData
peak_ready s = elim (peak_pq s.ready_threads_pq) [ none ↦ none | some x ↦ some (x, s) ]

abbrev pub add_created : ℕ → Cmd (Unit {0})
add_created t s = some (tt, record s { pthreads_created = add_last_node_list s.pthreads_created t })

abbrev pub add_waiting : WaitingPthread → Cmd (Unit {0})
add_waiting w s = some (tt, record s { waiting_threads = add_last_node_list s.waiting_threads w })
