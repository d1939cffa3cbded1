-- ===== src/Machine/Ids.antt =====
-- The programs that use the scheduler, with the joins of `so_end` and the ids that `pthread_create`
-- gives. Threads have different ids until they are joined; the id of a thread that has been joined
-- may be given again.
use thread_scheduler_multipl.Base.{
  ℕ, suc, ◌≤◌, ◌<◌, ◌^◌, ◌≡◌, ◌≢◌, ◌∙◌, sym, refl, true, false, ◌||◌, none, some, List, [], ◌∷◌,
  ◌++◌, ◌⊎◌, inl, inr, ◌==◌, ltb, if◌then◌else◌, arith, Bool-cases, get_elem?,
}
use thread_scheduler_multipl.PriorityQueue.Order.{has_thread}
use thread_scheduler_multipl.Scheduler.State.{
  so_max_prio, so_max_num_events, Scheduler, Exit, update,
}
use thread_scheduler_multipl.Scheduler.{initialized, fork}
use thread_scheduler_multipl.Machine.{
  unborn, active, parked, ended, System, system, Request, fork_request, Step, wake, call, finish,
  Reach, start, later,
}
use thread_scheduler_multipl.Machine.Invariant.{has_waiter, HasSemaphore}
use thread_scheduler_multipl.Machine.Join.{Joined, begin, step, join, join_lem}
use thread_scheduler_multipl.Machine.Room.{has_id, IsUnique, has-append, index_has}
use thread_scheduler_multipl.Machine.Safety.{parked_states, no_lost_turn, deadlock_only_waiting}

-- The ids that have been given after a request
abbrev pub given : Request → List ℕ → List ℕ
given (fork_request func priority new) ids =
    if ltb so_max_prio priority || func == 0 then ids else ids ++ (new ∷ [])
given _ ids = ids

abbrev given_by : {s u : System} → Step s u → List ℕ → List ℕ
given_by (wake t owner p n park e up) ids = ids
given_by (call t r act fresh e) ids = given r ids
given_by (finish t act e) ids = ids

-- The system, the ids that `pthread_create` has given, and how many threads `so_end` has joined
pub data Run (time_quantum io : ℕ) : System → List ℕ → ℕ → Type 0 where
  first :
      (func priority new : ℕ) {e : Exit ℕ} {s : Scheduler}
      → 0 < time_quantum
      → time_quantum < 2 ^ 32
      → io ≤ so_max_num_events
      → func ≢ 0
      → priority ≤ so_max_prio
      → new ≢ 0
      → fork func priority new (initialized time_quantum io) ≡ some (e, s)
      → Run time_quantum io (system s (update (λ _. unborn) new (parked new))) (new ∷ []) 0
  next :
      {s u : System} {ids : List ℕ} {n : ℕ}
      → Run time_quantum io s ids n
      → (st : Step s u) → Run time_quantum io u (given_by st ids) n
  -- `pthread_join` in `so_end` returns: the next thread of the list has ended.
  joins :
      {s : System} {ids : List ℕ} {n : ℕ} (t : ℕ)
      → Run time_quantum io s ids n
      → get_elem? s.sched.pthreads_created n ≡ some t
      → s.pc t ≡ ended
      → Run time_quantum io s ids (suc n)
  -- `so_fork` creates a thread with the id of one that has been joined. `put_hashtable` then takes
  -- the struct of that one for an `Entry` and writes through it, after which any state may follow.
  reuse :
      {s u : System} {ids : List ℕ} {n : ℕ} (t func priority new i : ℕ)
      → Run time_quantum io s ids n
      → s.pc t ≡ active
      → (ltb so_max_prio priority || func == 0) ≡ false
      → i < n
      → get_elem? ids i ≡ some new
      → Run time_quantum io u (ids ++ (new ∷ [])) n

pub before_last : (ids : List ℕ) (new : ℕ) → IsUnique (ids ++ (new ∷ [])) → IsUnique ids
before_last [] new u = tt
before_last (x ∷ xs) new u =
    let h = sym (has-append x xs (new ∷ [])) ∙ u.0 in (ground (arith, h), before_last xs new u.1)

pub last_new : (ids : List ℕ) (new : ℕ) → IsUnique (ids ++ (new ∷ [])) → has_id new ids ≡ false
last_new [] new u = refl
last_new (x ∷ xs) new u =
    let h = sym (has-append x xs (new ∷ [])) ∙ u.0 in ground (arith, h, last_new xs new u.1)

pub given-IsUnique : (r : Request) (ids : List ℕ) → IsUnique (given r ids) → IsUnique ids
given-IsUnique (fork_request func priority new) ids u =
    elim (Bool-cases (ltb so_max_prio priority || func == 0)) [
      | inl bad ↦ (rw bad at u)
      | inr fine ↦ before_last ids new (rw fine at u)
    ]
given-IsUnique r ids u = u

given_by-IsUnique :
    {s u : System} (st : Step s u) (ids : List ℕ) → IsUnique (given_by st ids) → IsUnique ids
given_by-IsUnique (wake t owner p n park e up) ids u = u
given_by-IsUnique (call t r act fresh e) ids u = given-IsUnique r ids u
given_by-IsUnique (finish t act e) ids u = u

Run-Joined :
    {time_quantum io : ℕ} {s : System} {ids : List ℕ} {n : ℕ}
    → Run time_quantum io s ids n
    → IsUnique ids
    → Joined time_quantum io s n
Run-Joined (first func priority new lo hi devices nonnull small fresh e) u =
    begin (start func priority new lo hi devices nonnull small fresh e)
Run-Joined (next {ids = ids} r st) u = step (Run-Joined r (given_by-IsUnique st ids u)) st
Run-Joined (joins t r at over) u = join t (Run-Joined r u) at over
Run-Joined (reuse {ids = ids} t func priority new i r act fine below at) u =
    absurd (let h = index_has ids i new at in let f = last_new ids new u in cc)

Joined-Reach :
    {time_quantum io : ℕ} {s : System} {n : ℕ}
    → Joined time_quantum io s n
    → Reach time_quantum io s
Joined-Reach (begin r) = r
Joined-Reach (step j st) = later (Joined-Reach j) st
Joined-Reach (join t j at over) = Joined-Reach j

module _ {time_quantum io : ℕ} {s : System} {ids : List ℕ} {n : ℕ} (r : Run time_quantum io s ids n)
    (unique : IsUnique ids) where
  reached : Reach time_quantum io s
  reached = Joined-Reach (Run-Joined r unique)

  -- In every state that a program can be in, as long as `pthread_create` has given no id twice, if
  -- the ready queue is not empty, some thread can take a step.
  pub turn_kept : s.sched.ready_threads_pq ≢ [] → (u : System) × Step s u
  turn_kept = no_lost_turn reached

  -- In every state that a program can be in and from which no step is left, as long as
  -- `pthread_create` has given no id twice, each thread has not been created, has ended, or is
  -- parked and in the waiting list.
  pub stuck_waiting :
      ((u : System) → ¬ Step s u)
      → (t : ℕ)
      → (s.pc t ≡ unborn)
        ⊎ (s.pc t ≡ ended)
        ⊎ ((s.pc t ≡ parked t) × (has_waiter t s.sched.waiting_threads ≡ true))
  stuck_waiting = deadlock_only_waiting reached

  -- In every state that a program can be in, as long as `pthread_create` has given no id twice, a
  -- thread in `sem_wait` waits on its own semaphore and is in exactly one place: in the ready queue
  -- with its semaphore at 0, in the waiting list with its semaphore at 0, or signalled (its
  -- semaphore at 1) as the running thread.
  pub parked_place :
      (t owner : ℕ)
      → s.pc t ≡ parked owner
      → (owner ≡ t)
        × (((has_thread t s.sched.ready_threads_pq ≡ true)
              × (has_waiter t s.sched.waiting_threads ≡ false)
              × HasSemaphore (s.sched.pthreads_data t) 0)
            ⊎ ((has_thread t s.sched.ready_threads_pq ≡ false)
                × (has_waiter t s.sched.waiting_threads ≡ true)
                × HasSemaphore (s.sched.pthreads_data t) 0)
            ⊎ ((has_thread t s.sched.ready_threads_pq ≡ false)
                × (has_waiter t s.sched.waiting_threads ≡ false)
                × HasSemaphore (s.sched.pthreads_data t) 1
                × (s.sched.running_thread.thread ≡ t)))
  parked_place = parked_states reached

  -- When `so_end` has joined every thread in the list of created threads, as long as
  -- `pthread_create` has given no id twice, no thread is left: each has ended or was never created,
  -- and none can take a step.
  pub joined_all :
      get_elem? s.sched.pthreads_created n ≡ none
      → ((t : ℕ) → (s.pc t ≡ unborn) ⊎ (s.pc t ≡ ended)) × ((u : System) → ¬ Step s u)
  joined_all = join_lem (Run-Joined r unique)
