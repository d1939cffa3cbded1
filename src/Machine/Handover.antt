-- ===== src/Machine/Handover.antt =====
-- The turn goes from one thread to another.
use thread_scheduler_multipl.Base.{
  ℕ, ◌+◌, ◌≤◌, ◌<◌, ◌≡◌, refl, Option, none, some, List, [], ◌∷◌, ◌⊎◌, inl, inr, All, All-map,
  arith,
}
use thread_scheduler_multipl.PriorityQueue.{PqData, pq_data, push_node_pq}
use thread_scheduler_multipl.PriorityQueue.Order.{
  IsSorted, IsDistinct, has_thread-push, push-IsSorted, push-IsDistinct, push-All, push-cons,
}
use thread_scheduler_multipl.Scheduler.State.{PthreadParam, PthreadTable, Scheduler, update}
use thread_scheduler_multipl.Scheduler.{start_next}
use thread_scheduler_multipl.Machine.{Pc, parked, active}
use thread_scheduler_multipl.Machine.Invariant.{
  IsPlaced, IsResting, Inv, IsWellFormed, KnownReady, Known, priority_of, PlaceIn,
}

-- A write to an entry that leaves its priority alone.
pub Known-update :
    (table : PthreadTable) (t : ℕ) (p : PthreadParam)
    → priority_of (table t) ≡ some p.priority
    → (j k : ℕ) → Known table j k
    → Known (update table t (some p)) j k
Known-update table t p e j k h = ground arith

pub Known-some :
    (table : PthreadTable) (t k : ℕ)
    → Known table t k
    → (p : PthreadParam) × (table t ≡ some p) × (p.priority ≡ k)
Known-some table t k h = go (table t) refl h
  where
    go :
        (e : Option PthreadParam)
        → table t ≡ e
        → priority_of e ≡ some k
        → (p : PthreadParam) × (table t ≡ some p) × (p.priority ≡ k)
    go none e h = absurd (ground arith)
    go (some p) e h = (p, e, ground arith)

-- What `start_next` makes of a queue with head `x` and rest `xs`.
abbrev pub handed : Scheduler → PqData → List PqData → PthreadParam → Scheduler
handed s x xs p = record s {
  running_thread = pq_data x.thread x.priority;
  ready_threads_pq = xs;
  pthreads_data = update s.pthreads_data x.thread (some (record p { semaphore = p.semaphore + 1 }));
}

pub start_next_lem :
    (s : Scheduler) (x : PqData) (xs : List PqData) (p : PthreadParam)
    → s.ready_threads_pq ≡ x ∷ xs
    → s.pthreads_data x.thread ≡ some p
    → start_next s ≡ some (tt, handed s x xs p)
unfolding start_next
start_next_lem s x xs p e h = ground arith

module _ {s : Scheduler} {pc : ℕ → Pc} (rest : IsResting s pc) (x : PqData) (xs : List PqData)
    (p : PthreadParam) (e : s.ready_threads_pq ≡ x ∷ xs)
    (h : s.pthreads_data x.thread ≡ some p) where
  open rest use {wf, rests}

  queue : (IsSorted (x ∷ xs)) × IsDistinct (x ∷ xs) × All (KnownReady s.pthreads_data) (x ∷ xs)
  queue = (rw e at wf.sorted, rw e at wf.distinct, rw e at wf.known)

  handed-PlaceIn : (j : ℕ) → PlaceIn (handed s x xs p) pc j
  handed-PlaceIn j = let q = queue in ground (arith, e, h, rests j, rests x.thread, q.1.0)

  same : priority_of (s.pthreads_data x.thread) ≡ some p.priority
  same = ground arith

  handed-IsWellFormed : IsWellFormed (handed s x xs p)
  handed-IsWellFormed = record {
    quantum_pos = wf.quantum_pos;
    quantum_small = wf.quantum_small;
    started = wf.started;
    sorted = queue.0.1;
    distinct = queue.1.1;
    waiters_distinct = wf.waiters_distinct;
    known =
        All-map
          (λ y.
            Known-update s.pthreads_data x.thread (record p { semaphore = p.semaphore + 1 }) same
              y.thread y.priority)
          xs queue.2.1;
    waiters_known =
        All-map
          (λ w.
            Known-update s.pthreads_data x.thread (record p { semaphore = p.semaphore + 1 }) same
              w.pthread_id w.priority)
          s.waiting_threads wf.waiters_known;
    good = λ t. ground (arith, wf.good t, wf.good x.thread, h);
    running_known = let q = queue in ground (arith, q.2.0, h);
  }

  handed-Inv : Inv (handed s x xs p) pc
  handed-Inv = record {
    placed = record { wf = handed-IsWellFormed; places = handed-PlaceIn };
    top = queue.0.0;
  }

-- A run that ends, with every thread at its place.
abbrev pub Settles : (ℕ → Pc) → Option (Unit {0} × Scheduler) → Type 0
Settles pc none = ⊥
Settles pc (some (u, s)) = Inv s pc

pub start_next-Settles :
    {s : Scheduler} {pc : ℕ → Pc} (x : PqData) (xs : List PqData)
    → IsResting s pc
    → s.ready_threads_pq ≡ x ∷ xs
    → Settles pc (start_next s)
start_next-Settles {s} x xs rest e =
    let (p, h, _) = Known-some s.pthreads_data x.thread x.priority (All-head e rest.wf.known) in
    rw (start_next_lem s x xs p e h) (handed-Inv rest x xs p e h)
  where
    All-head :
        s.ready_threads_pq ≡ x ∷ xs
        → All (KnownReady s.pthreads_data) s.ready_threads_pq
        → KnownReady s.pthreads_data x
    All-head e k = let (h, t) : All (KnownReady s.pthreads_data) (x ∷ xs) = rw e at k in h

-- The active thread is the running one.
pub active-eq :
    {s : Scheduler} {pc : ℕ → Pc} (t : ℕ)
    → IsPlaced s pc
    → pc t ≡ active
    → s.running_thread.thread ≡ t
active-eq t placed a = ground (arith, placed.places t)

abbrev pub pushed : Scheduler → ℕ → ℕ → Scheduler
pushed s t priority = record s { ready_threads_pq = push_node_pq s.ready_threads_pq t priority }

-- The active thread goes back to the queue.
pub pushed-IsResting :
    {s : Scheduler} {pc : ℕ → Pc} (t : ℕ)
    → IsPlaced s pc
    → pc t ≡ active
    → IsResting (pushed s t s.running_thread.priority) (update pc t (parked t))
pushed-IsResting {s} {pc} t placed a = record {
  wf = record {
    quantum_pos = wf.quantum_pos;
    quantum_small = wf.quantum_small;
    started = wf.started;
    sorted = push-IsSorted s.ready_threads_pq t s.running_thread.priority wf.sorted;
    distinct =
        push-IsDistinct s.ready_threads_pq t s.running_thread.priority wf.distinct
          (ground (arith, places t));
    waiters_distinct = wf.waiters_distinct;
    known =
        push-All (KnownReady s.pthreads_data) s.ready_threads_pq t s.running_thread.priority
          (rw (active-eq t placed a) at wf.running_known) wf.known;
    waiters_known = wf.waiters_known;
    good = wf.good;
    running_known = wf.running_known;
  };
  rests = λ j.
      ground (
        arith,
        places j,
        places t,
        has_thread-push s.ready_threads_pq t s.running_thread.priority j,
      );
}
  where
    open placed use {wf, places}

pub yield-Settles :
    {s : Scheduler} {pc : ℕ → Pc} (t : ℕ)
    → IsPlaced s pc
    → pc t ≡ active
    → Settles (update pc t (parked t)) (start_next (pushed s t s.running_thread.priority))
yield-Settles {s} t placed a =
    let (x, xs, e) = push-cons s.ready_threads_pq t s.running_thread.priority in
    start_next-Settles x xs (pushed-IsResting t placed a) e

-- A new quantum for one thread.
abbrev pub with_quantum : Scheduler → ℕ → PthreadParam → ℕ → Scheduler
with_quantum s t p q = record s {
  pthreads_data = update s.pthreads_data t (some (record p { time_quantum = q }));
}

pub with_quantum-IsPlaced :
    {s : Scheduler} {pc : ℕ → Pc} (t : ℕ) (p : PthreadParam) (q : ℕ)
    → s.pthreads_data t ≡ some p
    → 0 < q
    → q ≤ s.time_quantum
    → IsPlaced s pc
    → IsPlaced (with_quantum s t p q) pc
with_quantum-IsPlaced {s} {pc} t p q e lo hi placed = record {
  wf = record {
    quantum_pos = wf.quantum_pos;
    quantum_small = wf.quantum_small;
    started = wf.started;
    sorted = wf.sorted;
    distinct = wf.distinct;
    waiters_distinct = wf.waiters_distinct;
    known =
        All-map
          (λ y.
            Known-update s.pthreads_data t (record p { time_quantum = q }) same y.thread y.priority)
          s.ready_threads_pq wf.known;
    waiters_known =
        All-map
          (λ w.
            Known-update s.pthreads_data t (record p { time_quantum = q }) same w.pthread_id
              w.priority)
          s.waiting_threads wf.waiters_known;
    good = λ j. ground (arith, wf.good j, wf.good t, e);
    running_known = ground (arith, e, wf.running_known);
  };
  places = λ j. ground (arith, places j, e);
}
  where
    open placed use {wf, places}

    same : priority_of (s.pthreads_data t) ≡ some p.priority
    same = ground arith

-- With no thread to hand over to, the invariant holds whoever ran last.
pub resting-Inv :
    {s : Scheduler} {pc : ℕ → Pc} → IsResting s pc → s.ready_threads_pq ≡ [] → Inv s pc
resting-Inv {s} {pc} rest e = record {
  placed = record { wf = rest.wf; places = λ j. ground (arith, e, rest.rests j) };
  top = rw e tt;
}

pub queue-cases : (l : List PqData) → (l ≡ []) ⊎ ((x : PqData) × (xs : List PqData) × (l ≡ x ∷ xs))
queue-cases [] = inl refl
queue-cases (x ∷ xs) = inr (x, xs, refl)
