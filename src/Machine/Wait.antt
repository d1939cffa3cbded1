-- ===== src/Machine/Wait.antt =====
-- The step of `so_wait` in the active thread, up to its `sem_wait`.
use thread_scheduler_multipl.Base.{
  ℕ, ◌≡◌, true, false, some, List, [], ◌∷◌, ◌++◌, inl, inr, arith, Bool-cases, leb, pos, minus_one,
  All-append,
}
use thread_scheduler_multipl.PriorityQueue.{PqData}
use thread_scheduler_multipl.Scheduler.State.{
  PthreadParam, WaitingPthread, Scheduler, returns, sem_wait, update,
}
use thread_scheduler_multipl.Scheduler.{start_next, wait}
use thread_scheduler_multipl.Machine.{Pc, active, parked, parks}
use thread_scheduler_multipl.Machine.Invariant.{Inv, IsPlaced, IsResting, KnownWaiting}
use thread_scheduler_multipl.Machine.Waiters.{has_waiter-append, append-AreDistinct}
use thread_scheduler_multipl.Machine.Handover.{start_next-Settles, resting-Inv, queue-cases}
use thread_scheduler_multipl.Machine.Active.{
  Ends, ActiveEntry, active-entry, then_wait, then_wait-Ends,
}

abbrev waiter : ℕ → ℕ → ℕ → WaitingPthread
waiter t priority io = record { pthread_id = t; priority = priority; io = io }

-- The running thread at the end of the waiting list.
abbrev pub waited : Scheduler → ℕ → ℕ → Scheduler
waited s t io = record s {
  waiting_threads = s.waiting_threads ++ (waiter t s.running_thread.priority io ∷ []);
}

waited-IsResting :
    {s : Scheduler} {pc : ℕ → Pc} (t io : ℕ) (p : PthreadParam)
    → IsPlaced s pc
    → pc t ≡ active
    → ActiveEntry s t p
    → IsResting (waited s t io) (update pc t (parked t))
waited-IsResting {s} {pc} t io p placed act a = record {
  wf = record {
    quantum_pos = wf.quantum_pos;
    quantum_small = wf.quantum_small;
    started = wf.started;
    sorted = wf.sorted;
    distinct = wf.distinct;
    waiters_distinct =
        append-AreDistinct new s.waiting_threads wf.waiters_distinct (ground (arith, places t));
    known = wf.known;
    waiters_known =
        All-append (KnownWaiting s.pthreads_data) s.waiting_threads (new ∷ []) wf.waiters_known
          (ground (arith, a.entry, a.priority), tt);
    good = wf.good;
    running_known = wf.running_known;
  };
  rests = λ j. ground (arith, places j, places t, has_waiter-append j s.waiting_threads (new ∷ []));
}
  where
    open placed use {wf, places}

    new : WaitingPthread
    new = waiter t s.running_thread.priority io

wait_idle :
    (s : Scheduler) (t io : ℕ) (p : PthreadParam)
    → ActiveEntry s t p
    → s.is_a_thread_running ≡ true
    → leb s.io io ≡ false
    → s.ready_threads_pq ≡ []
    → wait io s ≡ some (sem_wait t (pos 0), waited s t io)
unfolding wait
wait_idle s t io p a started known idle = ground (arith, a.runs, a.entry, a.key, a.priority)

wait_hands :
    (s : Scheduler) (t io : ℕ) (p : PthreadParam) (x : PqData) (xs : List PqData)
    → ActiveEntry s t p
    → s.is_a_thread_running ≡ true
    → leb s.io io ≡ false
    → s.ready_threads_pq ≡ x ∷ xs
    → wait io s ≡ then_wait t (pos 0) (start_next (waited s t io))
unfolding wait
wait_hands s t io p x xs a started known e = ground (arith, a.runs, a.entry, a.key, a.priority)

wait_refuses :
    (s : Scheduler) (io : ℕ)
    → s.is_a_thread_running ≡ true
    → leb s.io io ≡ true
    → wait io s ≡ some (returns minus_one, s)
unfolding wait
wait_refuses s io started absent = ground arith

pub wait-Ends :
    {s : Scheduler} {pc : ℕ → Pc} (t io : ℕ)
    → Inv s pc
    → pc t ≡ active
    → Ends t pc (parks (wait io s))
wait-Ends {s} {pc} t io inv act =
    let (p, a) = active-entry t inv.placed act in
    let rest = waited-IsResting t io p inv.placed act a in
    elim (Bool-cases (leb s.io io)) [
      | inl absent ↦ rw (wait_refuses s io inv.placed.wf.started absent) inv
      | inr known ↦ elim (queue-cases s.ready_threads_pq) [
        | inl e ↦ rw (wait_idle s t io p a inv.placed.wf.started known e) (resting-Inv rest e)
        | inr (x, xs, e) ↦
            rw (wait_hands s t io p x xs a inv.placed.wf.started known e)
              (then_wait-Ends t (pos 0) pc _ (start_next-Settles x xs rest e))
      ]
    ]
