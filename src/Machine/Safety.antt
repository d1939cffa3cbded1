-- ===== src/Machine/Safety.antt =====
-- What holds in every state that a program can reach.
use thread_scheduler_multipl.Base.{
  ℕ, ◌≤◌, ◌<◌, ◌≡◌, ◌≢◌, refl, ◌||◌, true, false, Option, none, some, [], ◌⊎◌, inl, inr, arith, All,
}
use thread_scheduler_multipl.PriorityQueue.Order.{Below, IsDistinct, has_thread}
use thread_scheduler_multipl.Scheduler.State.{PthreadParam, Scheduler}
use thread_scheduler_multipl.Scheduler.{finish_thread}
use thread_scheduler_multipl.Machine.{
  unborn, active, parked, ended, System, Request, exec_request, IsFresh, run, Step, wake, call,
  Reach,
}
use thread_scheduler_multipl.Machine.Invariant.{Inv, has_waiter, HasSemaphore, AreDistinct}
use thread_scheduler_multipl.Machine.Handover.{active-eq, queue-cases}
use thread_scheduler_multipl.Machine.Active.{active-entry}
use thread_scheduler_multipl.Machine.Start.{Reach-Inv, run-Ends}
use thread_scheduler_multipl.Machine.Finish.{finish-Settles}

module _ {time_quantum io : ℕ} {s : System} (r : Reach time_quantum io s) where
  inv : Inv s.sched s.pc
  inv = Reach-Inv r

  -- In every state that a program can reach, at most one thread is in its handler, so no two calls
  -- of the scheduler overlap.
  pub mutual_exclusion : (t u : ℕ) → s.pc t ≡ active → s.pc u ≡ active → t ≡ u
  mutual_exclusion t u a b = omega (arith, active-eq t inv.placed a, active-eq u inv.placed b)

  -- In every state that a program can reach, the thread in its handler is the one that the
  -- scheduler records as running, and no thread in the ready queue has a bigger priority than the
  -- priority of its entry in the table.
  pub highest_priority :
      (t : ℕ)
      → s.pc t ≡ active
      → (p : PthreadParam) × (s.sched.pthreads_data t ≡ some p)
        × (s.sched.running_thread.thread ≡ t)
        × All (Below p.priority) s.sched.ready_threads_pq
  highest_priority t a =
      let (p, e) = active-entry t inv.placed a in (p, e.entry, e.runs, rw e.priority inv.top)

  -- In every state that a program can reach, every call by the thread in its handler gives a
  -- result: it dereferences no NULL and its loop ends. The id of a thread that the call creates is
  -- fresh.
  pub call_no_crash :
      (t : ℕ) (q : Request) → s.pc t ≡ active → IsFresh s.pc q → run q s.sched ≢ none
  call_no_crash t q a fresh e = rw e at (run-Ends t q inv a fresh)

  -- In every state that a program can reach, the end of `start_thread` in the active thread gives a
  -- result: it dereferences no NULL.
  pub finish_no_crash : (t : ℕ) → s.pc t ≡ active → finish_thread s.sched ≢ none
  finish_no_crash t a e = rw e at (finish-Settles t inv a)

  -- In every state that a program can reach, the quantum of every thread in the table is at least 1
  -- and at most the scheduler's quantum.
  pub quantum_in_range :
      (t : ℕ) (p : PthreadParam)
      → s.sched.pthreads_data t ≡ some p
      → (0 < p.time_quantum) × (p.time_quantum ≤ s.sched.time_quantum)
  quantum_in_range t p e = ground (arith, inv.placed.wf.good t)

  -- In every state that a program can reach, the semaphore of a thread in the table is 0, or it is
  -- 1 and the thread is the running one and is parked on it.
  pub semaphore_binary :
      (t : ℕ) (p : PthreadParam)
      → s.sched.pthreads_data t ≡ some p
      → (p.semaphore ≡ 0)
        ⊎ ((p.semaphore ≡ 1) × (s.sched.running_thread.thread ≡ t) × (s.pc t ≡ parked t))
  semaphore_binary t p e = ground (arith, inv.placed.places t)

  -- The thread that the scheduler records can move if any thread is ready.
  pub turn :
      s.sched.ready_threads_pq ≢ []
      → let t = s.sched.running_thread.thread in
        (s.pc t ≡ active) ⊎ ((s.pc t ≡ parked t) × HasSemaphore (s.sched.pthreads_data t) 1)
  turn h =
      let t = s.sched.running_thread.thread in
      ground (arith, inv.placed.places t, inv.placed.wf.running_known)

  -- In every state that a program can reach, a thread in `sem_wait` waits on its own semaphore and
  -- is in exactly one place: in the ready queue with its semaphore at 0, in the waiting list with
  -- its semaphore at 0, or signalled (its semaphore at 1) as the running thread.
  pub parked_states :
      (t owner : ℕ)
      → s.pc t ≡ parked owner
      → (owner ≡ t)
        × (((has_thread t s.sched.ready_threads_pq ≡ true)
              × (has_waiter t s.sched.waiting_threads ≡ false)
              × HasSemaphore (s.sched.pthreads_data t) 0)
            ⊎ ((has_thread t s.sched.ready_threads_pq ≡ false)
                × (has_waiter t s.sched.waiting_threads ≡ true)
                × HasSemaphore (s.sched.pthreads_data t) 0)
            ⊎ ((has_thread t s.sched.ready_threads_pq ≡ false)
                × (has_waiter t s.sched.waiting_threads ≡ false)
                × HasSemaphore (s.sched.pthreads_data t) 1
                × (s.sched.running_thread.thread ≡ t)))
  parked_states t owner h = ground (arith, inv.placed.places t)

  -- In every state that a program can reach, the ready queue holds no thread twice, the waiting
  -- list holds none twice, and every thread in either is parked on its own semaphore.
  pub queued_parked :
      IsDistinct s.sched.ready_threads_pq
      × AreDistinct s.sched.waiting_threads
      × ((t : ℕ)
          → (has_thread t s.sched.ready_threads_pq || has_waiter t s.sched.waiting_threads) ≡ true
          → s.pc t ≡ parked t)
  queued_parked = (
    inv.placed.wf.distinct,
    inv.placed.wf.waiters_distinct,
    λ t h. ground (arith, inv.placed.places t),
  )

  run-Step :
      (t : ℕ)
      → s.pc t ≡ active
      → (o : Option (Option ℕ × Scheduler)) → run exec_request s.sched ≡ o
      → (u : System) × Step s u
  run-Step t a none e = absurd (call_no_crash t exec_request a tt e)
  run-Step t a (some (stop, s')) e = (_, call t exec_request a tt e)

  wake-Step :
      (t : ℕ)
      → s.pc t ≡ parked t
      → (o : Option PthreadParam) → s.sched.pthreads_data t ≡ o
      → HasSemaphore o 1
      → (u : System) × Step s u
  wake-Step t a none e up = absurd up
  wake-Step t a (some p) e up = (_, wake t t p 0 a e (omega (arith, up)))

  -- In every state that a program can reach, if the ready queue is not empty, some thread can take
  -- a step.
  pub no_lost_turn : s.sched.ready_threads_pq ≢ [] → (u : System) × Step s u
  no_lost_turn h =
      let t = s.sched.running_thread.thread in
      elim (turn h) [
        | inl a ↦ run-Step t a (run exec_request s.sched) refl
        | inr (park, up) ↦ wake-Step t park (s.sched.pthreads_data t) refl up
      ]

  -- In every state that a program can reach and from which no step is left, each thread has not
  -- been created, has ended, or is parked and in the waiting list.
  pub deadlock_only_waiting :
      ((u : System) → ¬ Step s u)
      → (t : ℕ)
      → (s.pc t ≡ unborn)
        ⊎ (s.pc t ≡ ended)
        ⊎ ((s.pc t ≡ parked t) × (has_waiter t s.sched.waiting_threads ≡ true))
  deadlock_only_waiting stuck t = elim (queue-cases s.sched.ready_threads_pq) [
    | inl e ↦ ground (arith, inv.placed.places t, e, not_active, down)
    | inr (x, xs, e) ↦ let (u, st) = no_lost_turn (λ f. ground arith) in absurd (stuck u st)
  ]
    where
      not_active : s.pc t ≢ active
      not_active a = let (u, st) = run-Step t a (run exec_request s.sched) refl in stuck u st

      down : s.pc t ≡ parked t → HasSemaphore (s.sched.pthreads_data t) 1 → ⊥
      down park up = let (u, st) = wake-Step t park (s.sched.pthreads_data t) refl up in stuck u st
