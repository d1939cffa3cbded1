-- ===== src/Machine/Signal.antt =====
-- The step of `so_signal` in the active thread, up to its `sem_wait`.
use thread_scheduler_multipl.Base.{
  ℕ, zero, suc, ◌+◌, ◌<◌, ◌≡◌, true, false, Option, none, some, List, ◌∷◌, inl, inr, arith,
  Bool-cases, leb, ℤ, pos, minus_one, ◌==◌, length,
}
use thread_scheduler_multipl.LinkedList.{is_empty_list, pop_node_list}
use thread_scheduler_multipl.PriorityQueue.{PqData, push_node_pq}
use thread_scheduler_multipl.PriorityQueue.Order.{
  has_thread, has_thread-push, push-IsSorted, push-IsDistinct, push-All, push-cons,
}
use thread_scheduler_multipl.Scheduler.State.{
  PthreadParam, WaitingPthread, Scheduler, Exit, returns, update,
}
use thread_scheduler_multipl.Scheduler.{start_next, signal, wake_loop, compare_io_signal_thread}
use thread_scheduler_multipl.Machine.{Pc, active, parked, parks}
use thread_scheduler_multipl.Machine.Invariant.{Inv, IsResting, KnownWaiting, KnownReady}
use thread_scheduler_multipl.Machine.Waiters.{Popped, PopsTo, pop-PopsTo}
use thread_scheduler_multipl.Machine.Handover.{start_next-Settles, pushed, pushed-IsResting}
use thread_scheduler_multipl.Machine.Active.{
  Ends, ActiveEntry, active-entry, then_wait, then_wait-Ends,
}

-- One waiting thread becomes ready.
woken : Scheduler → WaitingPthread → List WaitingPthread → Scheduler
woken s w rest = record s {
  waiting_threads = rest;
  ready_threads_pq = push_node_pq s.ready_threads_pq w.pthread_id w.priority;
}

woken-IsResting :
    {s : Scheduler} {pc : ℕ → Pc} (w : WaitingPthread) (ys : List WaitingPthread)
    → IsResting s pc
    → Popped (KnownWaiting s.pthreads_data) s.waiting_threads w ys
    → IsResting (woken s w ys) pc
unfolding woken
woken-IsResting {s} {pc} w ys resting o = record {
  wf = record {
    quantum_pos = wf.quantum_pos;
    quantum_small = wf.quantum_small;
    started = wf.started;
    sorted = push-IsSorted s.ready_threads_pq w.pthread_id w.priority wf.sorted;
    distinct = push-IsDistinct s.ready_threads_pq w.pthread_id w.priority wf.distinct not_ready;
    waiters_distinct = o.distinct;
    known =
        push-All (KnownReady s.pthreads_data) s.ready_threads_pq w.pthread_id w.priority o.holds
          wf.known;
    waiters_known = o.rest;
    good = wf.good;
    running_known = wf.running_known;
  };
  rests = λ j. ground (
    arith,
    rests j,
    o.split j,
    o.unique,
    has_thread-push s.ready_threads_pq w.pthread_id w.priority j,
  );
}
  where
    open resting use {wf, rests}

    not_ready : has_thread w.pthread_id s.ready_threads_pq ≡ false
    not_ready = ground (arith, rests w.pthread_id, o.split w.pthread_id)

abbrev NonEmpty : List PqData → Type 0
NonEmpty l = (x : PqData) × (xs : List PqData) × (l ≡ x ∷ xs)

-- The loop ends, with every thread at its place and with a thread to hand over to.
abbrev WakesTo : (ℕ → Pc) → Option (ℕ × Scheduler) → Type 0
WakesTo pc none = ⊥
WakesTo pc (some (n, s)) = IsResting s pc × NonEmpty s.ready_threads_pq

wake_loop-WakesTo :
    (fuel io n : ℕ) {s : Scheduler} {pc : ℕ → Pc}
    → length s.waiting_threads < fuel
    → IsResting s pc
    → NonEmpty s.ready_threads_pq
    → WakesTo pc (wake_loop fuel io n s)
unfolding wake_loop woken
wake_loop-WakesTo zero io n h resting ready = absurd (omega arith)
wake_loop-WakesTo (suc fuel) io n {s} {pc} h resting ready =
    go (pop_node_list (λ w. compare_io_signal_thread w io == 0) s.waiting_threads)
      (pop-PopsTo (KnownWaiting s.pthreads_data) (λ w. compare_io_signal_thread w io == 0)
        s.waiting_threads resting.wf.waiters_distinct resting.wf.waiters_known)
      (λ w ys o.
        wake_loop-WakesTo fuel io (n + 1) (omega (arith, o.shorter))
          (woken-IsResting w ys resting o) (push-cons s.ready_threads_pq w.pthread_id w.priority))
  where
    go :
        (r : Option (WaitingPthread × List WaitingPthread))
        → PopsTo (KnownWaiting s.pthreads_data) s.waiting_threads r
        → ((w : WaitingPthread) (ys : List WaitingPthread)
            → Popped (KnownWaiting s.pthreads_data) s.waiting_threads w ys
            → WakesTo pc (wake_loop fuel io (n + 1) (woken s w ys)))
        → WakesTo pc (elim r [
          | none ↦ some (n, s)
          | some (w, ys) ↦ wake_loop fuel io (n + 1) (woken s w ys)
        ])
    go none o next = (resting, ready)
    go (some (w, ys)) o next = next w ys o

abbrev wake_then_start : ℕ → Option (ℕ × Scheduler) → Option (Exit ℤ × Scheduler)
wake_then_start t none = none
wake_then_start t (some (n, s)) = then_wait t (pos n) (start_next s)

wake_then_start-Ends :
    (t : ℕ) (pc : ℕ → Pc) (r : Option (ℕ × Scheduler))
    → WakesTo (update pc t (parked t)) r
    → Ends t pc (parks (wake_then_start t r))
wake_then_start-Ends t pc none h = h
wake_then_start-Ends t pc (some (n, s)) (resting, (x, xs, e)) =
    then_wait-Ends t (pos n) pc (start_next s) (start_next-Settles x xs resting e)

signal_wakes :
    (s : Scheduler) (t io : ℕ) (p : PthreadParam)
    → ActiveEntry s t p
    → s.is_a_thread_running ≡ true
    → leb s.io io ≡ false
    → is_empty_list s.waiting_threads ≡ false
    → signal io s
      ≡ wake_then_start t
          (wake_loop (length s.waiting_threads + 1) io 0 (pushed s t s.running_thread.priority))
unfolding signal
signal_wakes s t io p a started known some_wait = ground (arith, a.runs, a.entry, a.key, a.priority)

signal_quiet :
    (s : Scheduler) (io : ℕ)
    → s.is_a_thread_running ≡ true
    → leb s.io io ≡ false
    → is_empty_list s.waiting_threads ≡ true
    → signal io s ≡ some (returns (pos 0), s)
unfolding signal
signal_quiet s io started known quiet = ground arith

signal_refuses :
    (s : Scheduler) (io : ℕ) → leb s.io io ≡ true → signal io s ≡ some (returns minus_one, s)
unfolding signal
signal_refuses s io absent = ground arith

pub signal-Ends :
    {s : Scheduler} {pc : ℕ → Pc} (t io : ℕ)
    → Inv s pc
    → pc t ≡ active
    → Ends t pc (parks (signal io s))
signal-Ends {s} {pc} t io inv act =
    let (p, a) = active-entry t inv.placed act in
    elim (Bool-cases (leb s.io io)) [
      | inl absent ↦ rw (signal_refuses s io absent) inv
      | inr known ↦ elim (Bool-cases (is_empty_list s.waiting_threads)) [
        | inl quiet ↦ rw (signal_quiet s io inv.placed.wf.started known quiet) inv
        | inr some_wait ↦ rw (signal_wakes s t io p a inv.placed.wf.started known some_wait) (
            wake_then_start-Ends t pc _ (
              wake_loop-WakesTo (length s.waiting_threads + 1) io 0 (omega arith)
                (pushed-IsResting t inv.placed act)
                (push-cons s.ready_threads_pq t s.running_thread.priority)))
      ]
    ]
