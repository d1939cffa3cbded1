-- ===== src/Machine/Fork.antt =====
-- The step of `so_fork` in the active thread.
use thread_scheduler_multipl.Base.{
  ℕ, ◌-◌, ◌≤◌, ◌≡◌, ◌≢◌, true, false, none, some, List, [], ◌∷◌, ◌++◌, inl, inr, ◌||◌, ◌==◌, arith,
  Bool-cases, ltb, All, All-map,
}
use thread_scheduler_multipl.PriorityQueue.{PqData, push_node_pq}
use thread_scheduler_multipl.PriorityQueue.Order.{
  IsSorted, has_thread-push, push-IsSorted, push-IsDistinct, push-All, push-cons, push-cons_above,
}
use thread_scheduler_multipl.Scheduler.State.{
  so_max_prio, invalid_tid, PthreadParam, Scheduler, returns, update,
}
use thread_scheduler_multipl.Scheduler.{
  start_next, fork, create_thread, preempt, reschedule_after_fork,
}
use thread_scheduler_multipl.Machine.{Pc, unborn, active, parked, parks, spawn, fork_request}
use thread_scheduler_multipl.Machine.Invariant.{Inv, IsPlaced, KnownReady, Known}
use thread_scheduler_multipl.Machine.Handover.{
  Settles, start_next_lem, pushed, yield-Settles, with_quantum, with_quantum-IsPlaced, Known-some,
}
use thread_scheduler_multipl.Machine.Active.{
  Ends, ActiveEntry, active-entry, then_wait, then_wait-Ends, spend_quantum_lem, after_quantum_lem,
}

abbrev new_param : Scheduler → (func priority new : ℕ) → PthreadParam
new_param s func priority new = record {
  semaphore = 0;
  pthread_id = new;
  func = func;
  priority = priority;
  time_quantum = s.time_quantum;
}

-- The state with the new thread in the queue and in the table.
abbrev pub created : Scheduler → (func priority new : ℕ) → Scheduler
created s func priority new = record s {
  pthreads_created = s.pthreads_created ++ (new ∷ []);
  ready_threads_pq = push_node_pq s.ready_threads_pq new priority;
  pthreads_data = update s.pthreads_data new (some (new_param s func priority new));
}

pub create_thread_lem :
    (s : Scheduler) (func priority new : ℕ)
    → s.pthreads_data new ≡ none
    → create_thread func priority new s ≡ some (tt, created s func priority new)
unfolding create_thread
create_thread_lem s func priority new e = ground arith

-- A new entry hides none that there was.
Known-new :
    (s : Scheduler) (func priority new : ℕ)
    → s.pthreads_data new ≡ none
    → (j k : ℕ) → Known s.pthreads_data j k
    → Known (created s func priority new).pthreads_data j k
Known-new s func priority new e j k h = ground arith

module _ {s : Scheduler} {pc : ℕ → Pc} (t func priority new : ℕ) (placed : IsPlaced s pc)
    (act : pc t ≡ active) (fresh : pc new ≡ unborn) where
  open placed use {wf, places}

  pub no_entry : s.pthreads_data new ≡ none
  no_entry = ground (arith, places new)

  pub created-IsPlaced : IsPlaced (created s func priority new) (update pc new (parked new))
  created-IsPlaced = record {
    wf = record {
      quantum_pos = wf.quantum_pos;
      quantum_small = wf.quantum_small;
      started = wf.started;
      sorted = push-IsSorted s.ready_threads_pq new priority wf.sorted;
      distinct =
          push-IsDistinct s.ready_threads_pq new priority wf.distinct (ground (arith, places new));
      waiters_distinct = wf.waiters_distinct;
      known =
          push-All (KnownReady (created s func priority new).pthreads_data) s.ready_threads_pq new
            priority (ground arith)
            (All-map (λ y. Known-new s func priority new no_entry y.thread y.priority)
              s.ready_threads_pq wf.known);
      waiters_known =
          All-map (λ w. Known-new s func priority new no_entry w.pthread_id w.priority)
            s.waiting_threads wf.waiters_known;
      good = λ j. ground (arith, wf.good j, wf.quantum_pos);
      running_known =
          Known-new s func priority new no_entry s.running_thread.thread s.running_thread.priority
            wf.running_known;
    };
    places = λ j.
        ground (
          arith,
          places j,
          places t,
          places new,
          has_thread-push s.ready_threads_pq new priority j,
        );
  }

pub preempt_lem :
    (s : Scheduler) (t : ℕ) (x : PqData) (xs : List PqData) (p q : PthreadParam)
    → ActiveEntry s t p
    → s.pthreads_data x.thread ≡ some q
    → s.ready_threads_pq ≡ x ∷ xs
    → push_node_pq (x ∷ xs) t s.running_thread.priority
      ≡ x ∷ push_node_pq xs t s.running_thread.priority
    → preempt t x s ≡ start_next (pushed s t s.running_thread.priority)
unfolding preempt
preempt_lem s t x xs p q a b e f =
    rw
      (start_next_lem (pushed s t s.running_thread.priority) x
        (push_node_pq xs t s.running_thread.priority) q (ground arith) b)
      (ground (arith, a.entry, a.key, a.priority))

-- What the active thread does once the new one is in the queue, with head `x`.
module _ {s : Scheduler} {pc : ℕ → Pc} (t new : ℕ) (placed : IsPlaced s pc) (act : pc t ≡ active)
    (x : PqData) (xs : List PqData) (e : s.ready_threads_pq ≡ x ∷ xs) (p : PthreadParam)
    (a : ActiveEntry s t p) where
  open placed use {wf}

  pub reschedule_expired :
      p.time_quantum ≡ 1
      → reschedule_after_fork new s
        ≡ then_wait t new
            (start_next (pushed (with_quantum s t p s.time_quantum) t s.running_thread.priority))
  unfolding reschedule_after_fork
  reschedule_expired last =
      ground (arith, a.runs, spend_quantum_lem s t p a, after_quantum_lem s t 0 p a)

  pub reschedule_keeps :
      p.time_quantum ≢ 1
      → ltb s.running_thread.priority x.priority ≡ false
      → reschedule_after_fork new s ≡ some (returns new, with_quantum s t p (p.time_quantum - 1))
  unfolding reschedule_after_fork
  reschedule_keeps more lower = ground (arith, a.runs, e, spend_quantum_lem s t p a)

  pub reschedule_preempts :
      p.time_quantum ≢ 1
      → ltb s.running_thread.priority x.priority ≡ true
      → reschedule_after_fork new s
        ≡ then_wait t new (preempt t x (with_quantum s t p (p.time_quantum - 1)))
  unfolding reschedule_after_fork
  reschedule_preempts more higher = ground (arith, a.runs, e, spend_quantum_lem s t p a)

  pub spent-IsPlaced : p.time_quantum ≢ 1 → IsPlaced (with_quantum s t p (p.time_quantum - 1)) pc
  spent-IsPlaced more =
      with_quantum-IsPlaced t p (p.time_quantum - 1) a.entry (ground (arith, a.pos))
        (omega (arith, a.most)) placed

  pub queue : IsSorted (x ∷ xs) × All (KnownReady s.pthreads_data) (x ∷ xs)
  queue = (rw e at wf.sorted, rw e at wf.known)

  preempt-Settles :
      p.time_quantum ≢ 1
      → ltb s.running_thread.priority x.priority ≡ true
      → Settles (update pc t (parked t)) (preempt t x (with_quantum s t p (p.time_quantum - 1)))
  preempt-Settles more higher =
      let s' : Scheduler = with_quantum s t p (p.time_quantum - 1) in
      let placed' = spent-IsPlaced more in
      let (p', a') = active-entry t placed' act in
      let known : All (KnownReady s'.pthreads_data) (x ∷ xs) = rw e at placed'.wf.known in
      let (q, b, _) = Known-some s'.pthreads_data x.thread x.priority known.0 in
      rw
        (preempt_lem s' t x xs p' q a' b e
          (push-cons_above x xs t s.running_thread.priority queue.0.1 (ground arith)))
        (yield-Settles t placed' act)

  keeps-Inv :
      p.time_quantum ≢ 1
      → ltb s.running_thread.priority x.priority ≡ false
      → Inv (with_quantum s t p (p.time_quantum - 1)) pc
  keeps-Inv more lower =
      let le : x.priority ≤ s.running_thread.priority = ground arith in
      record {
        placed = spent-IsPlaced more;
        top = rw e (le, All-map (λ y k. omega (arith, k)) xs queue.0.0);
      }

  reschedule-Ends : Ends t pc (parks (reschedule_after_fork new s))
  reschedule-Ends = elim (Bool-cases (p.time_quantum == 1)) [
    | inl last ↦ rw (reschedule_expired (ground arith)) (
        then_wait-Ends t new pc _ (
          yield-Settles t
            (with_quantum-IsPlaced t p s.time_quantum a.entry wf.quantum_pos (omega arith) placed)
            act))
    | inr more ↦
        let m : p.time_quantum ≢ 1 = ground arith in
        elim (Bool-cases (ltb s.running_thread.priority x.priority)) [
          | inl higher ↦
              rw (reschedule_preempts m higher)
                (then_wait-Ends t new pc _ (preempt-Settles m higher))
          | inr lower ↦ rw (reschedule_keeps m lower) (keeps-Inv m lower)
        ]
  ]

fork_refuses :
    (s : Scheduler) (func priority new : ℕ)
    → (ltb so_max_prio priority || func == 0) ≡ true
    → fork func priority new s ≡ some (returns invalid_tid, s)
unfolding fork
fork_refuses s func priority new h = rw h

pub fork_goes :
    (s : Scheduler) (func priority new : ℕ)
    → (ltb so_max_prio priority || func == 0) ≡ false
    → s.pthreads_data new ≡ none
    → s.is_a_thread_running ≡ true
    → fork func priority new s ≡ reschedule_after_fork new (created s func priority new)
unfolding fork
fork_goes s func priority new h e started =
    rw h (ground (arith, create_thread_lem s func priority new e))

pub fork-Ends :
    {s : Scheduler} {pc : ℕ → Pc} (t func priority new : ℕ)
    → Inv s pc
    → pc t ≡ active
    → pc new ≡ unborn
    → Ends t (spawn (fork_request func priority new) pc) (parks (fork func priority new s))
fork-Ends {s} {pc} t func priority new inv act fresh =
    elim (Bool-cases (ltb so_max_prio priority || func == 0)) [
      | inl bad ↦ rw (bad, fork_refuses s func priority new bad) inv
      | inr fine ↦
          let placed = created-IsPlaced t func priority new inv.placed act fresh in
          let act' : update pc new (parked new) t ≡ active = ground arith in
          let (x, xs, e) = push-cons s.ready_threads_pq new priority in
          let (p, a) = active-entry t placed act' in
          rw
            (
              fine,
              fork_goes s func priority new fine (no_entry t func priority new inv.placed act fresh)
                  inv.placed.wf.started,
            )
            (reschedule-Ends t new placed act' x xs e p a)
    ]
