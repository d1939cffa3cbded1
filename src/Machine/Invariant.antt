-- ===== src/Machine/Invariant.antt =====
-- What holds of a system between any two steps.
use thread_scheduler_multipl.Base.{
  ℕ, ◌≤◌, ◌<◌, ◌^◌, ◌≡◌, Bool, true, false, not, Option, none, some, List, [], ◌∷◌, ◌⊎◌, ◌||◌, ◌==◌,
  All,
}
use thread_scheduler_multipl.LinkedList.{is_empty_list}
use thread_scheduler_multipl.PriorityQueue.{PqData}
use thread_scheduler_multipl.PriorityQueue.Order.{Below, IsSorted, IsDistinct, has_thread}
use thread_scheduler_multipl.Scheduler.State.{PthreadParam, PthreadTable, WaitingPthread, Scheduler}
use thread_scheduler_multipl.Machine.{Pc, unborn, parked, active, ended}

abbrev pub has_waiter : ℕ → List WaitingPthread → Bool
has_waiter t [] = false
has_waiter t (w ∷ ws) = (w.pthread_id == t) || has_waiter t ws

abbrev pub AreDistinct : List WaitingPthread → Type 0
AreDistinct [] = Unit
AreDistinct (w ∷ ws) = (has_waiter w.pthread_id ws ≡ false) × AreDistinct ws

abbrev pub priority_of : Option PthreadParam → Option ℕ
priority_of none = none
priority_of (some p) = some p.priority

-- The table holds the thread, with the priority that the queue or the list has for it.
abbrev pub Known : PthreadTable → ℕ → ℕ → Type 0
Known table t priority = priority_of (table t) ≡ some priority

abbrev pub KnownReady : PthreadTable → PqData → Type 0
KnownReady table x = Known table x.thread x.priority

abbrev pub KnownWaiting : PthreadTable → WaitingPthread → Type 0
KnownWaiting table w = Known table w.pthread_id w.priority

-- An entry holds its own key, and a quantum that is not spent.
abbrev pub IsGood : ℕ → ℕ → Option PthreadParam → Type 0
IsGood quantum t none = Unit
IsGood quantum t (some p) = (p.pthread_id ≡ t) × (0 < p.time_quantum) × (p.time_quantum ≤ quantum)

pub record IsWellFormed (s : Scheduler) : Type 0 where
  pub quantum_pos : 0 < s.time_quantum
  pub quantum_small : s.time_quantum < 2 ^ 32
  pub started : s.is_a_thread_running ≡ true
  pub sorted : IsSorted s.ready_threads_pq
  pub distinct : IsDistinct s.ready_threads_pq
  pub waiters_distinct : AreDistinct s.waiting_threads
  pub known : All (KnownReady s.pthreads_data) s.ready_threads_pq
  pub waiters_known : All (KnownWaiting s.pthreads_data) s.waiting_threads
  pub good : (t : ℕ) → IsGood s.time_quantum t (s.pthreads_data t)
  pub running_known : Known s.pthreads_data s.running_thread.thread s.running_thread.priority

abbrev pub HasSemaphore : Option PthreadParam → ℕ → Type 0
HasSemaphore none n = ⊥
HasSemaphore (some p) n = p.semaphore ≡ n

-- How a thread's position agrees with its entry, with whether it is ready, waiting or the running
-- one, and with whether no thread is ready.
abbrev pub Place : ℕ → Pc → Option PthreadParam → (ready waiting running idle : Bool) → Type 0
Place t unborn e r w u i = (e ≡ none) × (r ≡ false) × (w ≡ false)
Place t (parked owner) e r w u i =
    (owner ≡ t)
    × ((HasSemaphore e 0 × (r ≡ true) × (w ≡ false) × (u ≡ false))
        ⊎ (HasSemaphore e 0 × (r ≡ false) × (w ≡ true) × (u ≡ true → i ≡ true))
        ⊎ (HasSemaphore e 1 × (r ≡ false) × (w ≡ false) × (u ≡ true)))
Place t active e r w u i = HasSemaphore e 0 × (r ≡ false) × (w ≡ false) × (u ≡ true)
Place t ended e r w u i = HasSemaphore e 0 × (r ≡ false) × (w ≡ false) × (u ≡ true → i ≡ true)

abbrev pub PlaceIn : Scheduler → (ℕ → Pc) → ℕ → Type 0
PlaceIn s pc t =
    Place t (pc t) (s.pthreads_data t) (has_thread t s.ready_threads_pq)
      (has_waiter t s.waiting_threads) (s.running_thread.thread == t)
      (is_empty_list s.ready_threads_pq)

-- The same while no thread has the turn: none is active, none has been signalled.
abbrev pub Rest : ℕ → Pc → Option PthreadParam → (ready waiting : Bool) → Type 0
Rest t unborn e r w = (e ≡ none) × (r ≡ false) × (w ≡ false)
Rest t (parked owner) e r w = (owner ≡ t) × HasSemaphore e 0 × (r ≡ not w)
Rest t active e r w = ⊥
Rest t ended e r w = HasSemaphore e 0 × (r ≡ false) × (w ≡ false)

abbrev pub RestIn : Scheduler → (ℕ → Pc) → ℕ → Type 0
RestIn s pc t =
    Rest t (pc t) (s.pthreads_data t) (has_thread t s.ready_threads_pq)
      (has_waiter t s.waiting_threads)

pub record IsPlaced (s : Scheduler) (pc : ℕ → Pc) : Type 0 where
  pub wf : IsWellFormed s
  pub places : (t : ℕ) → PlaceIn s pc t

pub record IsResting (s : Scheduler) (pc : ℕ → Pc) : Type 0 where
  pub wf : IsWellFormed s
  pub rests : (t : ℕ) → RestIn s pc t

-- No ready thread has a bigger priority than the running one.
pub record Inv (s : Scheduler) (pc : ℕ → Pc) : Type 0 where
  pub placed : IsPlaced s pc
  pub top : All (Below s.running_thread.priority) s.ready_threads_pq
