-- ===== src/Machine/Finish.antt =====
-- The end of `start_thread`, and the return of `sem_wait`.
use thread_scheduler_multipl.Base.{ℕ, suc, ◌≡◌, some, List, [], ◌∷◌, inl, inr, arith, All-map}
use thread_scheduler_multipl.PriorityQueue.{PqData}
use thread_scheduler_multipl.Scheduler.State.{PthreadParam, Scheduler, update}
use thread_scheduler_multipl.Scheduler.{start_next, finish_thread}
use thread_scheduler_multipl.Machine.{Pc, active, ended, parked}
use thread_scheduler_multipl.Machine.Invariant.{Inv, IsPlaced, IsResting, priority_of}
use thread_scheduler_multipl.Machine.Handover.{
  Settles, start_next-Settles, resting-Inv, queue-cases, Known-update,
}

ended-IsResting :
    {s : Scheduler} {pc : ℕ → Pc} (t : ℕ)
    → IsPlaced s pc
    → pc t ≡ active
    → IsResting s (update pc t ended)
ended-IsResting t placed act = record {
  wf = placed.wf;
  rests = λ j. ground (arith, placed.places j, placed.places t);
}

finish_idle : (s : Scheduler) → s.ready_threads_pq ≡ [] → finish_thread s ≡ some (tt, s)
unfolding finish_thread
finish_idle s e = ground arith

finish_hands :
    (s : Scheduler) (x : PqData) (xs : List PqData)
    → s.ready_threads_pq ≡ x ∷ xs
    → finish_thread s ≡ start_next s
unfolding finish_thread
finish_hands s x xs e = ground arith

pub finish-Settles :
    {s : Scheduler} {pc : ℕ → Pc} (t : ℕ)
    → Inv s pc
    → pc t ≡ active
    → Settles (update pc t ended) (finish_thread s)
finish-Settles {s} t inv act =
    let rest = ended-IsResting t inv.placed act in
    elim (queue-cases s.ready_threads_pq) [
      | inl e ↦ rw (finish_idle s e) (resting-Inv rest e)
      | inr (x, xs, e) ↦ rw (finish_hands s x xs e) (start_next-Settles x xs rest e)
    ]

-- The state once a thread has taken the signal from the semaphore of `owner`.
abbrev pub taken : Scheduler → ℕ → PthreadParam → ℕ → Scheduler
taken s owner p n = record s {
  pthreads_data = update s.pthreads_data owner (some (record p { semaphore = n }));
}

pub wake-Inv :
    {s : Scheduler} {pc : ℕ → Pc} (t owner : ℕ) (p : PthreadParam) (n : ℕ)
    → Inv s pc
    → pc t ≡ parked owner
    → s.pthreads_data owner ≡ some p
    → p.semaphore ≡ suc n
    → Inv (taken s owner p n) (update pc t active)
wake-Inv {s} {pc} t owner p n inv park e up = record {
  placed = record {
    wf = record {
      quantum_pos = wf.quantum_pos;
      quantum_small = wf.quantum_small;
      started = wf.started;
      sorted = wf.sorted;
      distinct = wf.distinct;
      waiters_distinct = wf.waiters_distinct;
      known =
          All-map
            (λ y.
              Known-update s.pthreads_data owner (record p { semaphore = n }) same y.thread
                y.priority)
            s.ready_threads_pq wf.known;
      waiters_known =
          All-map
            (λ w.
              Known-update s.pthreads_data owner (record p { semaphore = n }) same w.pthread_id
                w.priority)
            s.waiting_threads wf.waiters_known;
      good = λ j. ground (arith, wf.good j, wf.good owner, e);
      running_known =
          Known-update s.pthreads_data owner (record p { semaphore = n }) same
            s.running_thread.thread s.running_thread.priority wf.running_known;
    };
    places = λ j. ground (arith, places j, places t, e);
  };
  top = inv.top;
}
  where
    open (inv.placed) use {wf, places}

    same : priority_of (s.pthreads_data owner) ≡ some p.priority
    same = ground arith
