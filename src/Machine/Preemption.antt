-- ===== src/Machine/Preemption.antt =====
-- When `so_fork` takes the processor from the thread that calls it.
use thread_scheduler_multipl.Base.{
  ℕ, ◌-◌, ◌≤◌, ◌<◌, ◌≡◌, ◌≢◌, refl, sym, true, false, ◌||◌, ◌==◌, ltb, Option, none, some, List, [],
  ◌∷◌, inl, inr, arith, Bool-cases, All,
}
use thread_scheduler_multipl.PriorityQueue.{PqData, pq_data, push_node_pq}
use thread_scheduler_multipl.PriorityQueue.Order.{Below, push-cons, push-cons_above}
use thread_scheduler_multipl.Scheduler.State.{so_max_prio, PthreadParam, Scheduler, update, Exit}
use thread_scheduler_multipl.Scheduler.{reschedule_after_fork}
use thread_scheduler_multipl.Machine.{
  Pc, unborn, active, parked, System, Reach, run, parks, fork_request,
}
use thread_scheduler_multipl.Machine.Invariant.{Inv, IsPlaced, KnownReady}
use thread_scheduler_multipl.Machine.Handover.{
  Settles, start_next_lem, pushed, yield-Settles, with_quantum, with_quantum-IsPlaced, Known-some,
}
use thread_scheduler_multipl.Machine.Active.{ActiveEntry, active-entry, then_wait}
use thread_scheduler_multipl.Machine.Start.{Reach-Inv}
use thread_scheduler_multipl.Machine.Fork.{
  created, no_entry, created-IsPlaced, preempt_lem, reschedule_expired, reschedule_keeps,
  reschedule_preempts, queue, spent-IsPlaced, fork_goes,
}

-- A push of a bigger priority than all goes to the head; another push leaves no bigger one there.
push-head :
    (ys : List PqData) (new priority r : ℕ) (x : PqData) (xs : List PqData)
    → All (Below r) ys
    → push_node_pq ys new priority ≡ x ∷ xs
    → (r < priority → x ≡ pq_data new priority) × (priority ≤ r → x.priority ≤ r)
unfolding push_node_pq
push-head [] new priority r x xs top e =
    let q : pq_data new priority ≡ x = cc in (λ lt. sym q, λ le. rw (sym q) le)
push-head (y ∷ ys) new priority r x xs top e = elim (Bool-cases (ltb y.priority priority)) [
  | inl front ↦
      let q : pq_data new priority ≡ x = ground (arith, e, front) in
      (λ lt. sym q, λ le. rw (sym q) le)
  | inr rest ↦
      let q : y ≡ x = ground (arith, e, rest) in
      (λ lt. absurd (ground (arith, top.0, rest, lt)), λ le. rw (sym q) (top.0))
]

-- What a call that forks does to the thread `t` that calls it, with the entry `p`
pub data Fate (s : Scheduler) (t new priority : ℕ) (p : PthreadParam)
    : Option ℕ → Scheduler → Type 0 where
  expires : {s' : Scheduler} → p.time_quantum ≡ 1 → Fate s t new priority p (some t) s'
  yields :
      {s' : Scheduler}
      → p.time_quantum ≢ 1
      → p.priority < priority
      → s'.running_thread ≡ pq_data new priority
      → Fate s t new priority p (some t) s'
  goes_on :
      {s' : Scheduler}
      → p.time_quantum ≢ 1
      → priority ≤ p.priority
      → s'.running_thread ≡ s.running_thread
      → Fate s t new priority p none s'

then_wait-stop :
    {A : Type 0} (t : ℕ) (v : A) (pc : ℕ → Pc) (r : Option (Unit {0} × Scheduler))
    → Settles pc r
    → (s : Scheduler) × (parks (then_wait t v r) ≡ some (some t, s))
then_wait-stop t v pc none h = absurd h
then_wait-stop t v pc (some (u, s)) h = (s, refl)

module _ {s : Scheduler} {pc : ℕ → Pc} (t func priority new : ℕ) (inv : Inv s pc)
    (act : pc t ≡ active) (fresh : pc new ≡ unborn) where
  placed : IsPlaced (created s func priority new) (update pc new (parked new))
  placed = created-IsPlaced t func priority new inv.placed act fresh

  act' : update pc new (parked new) t ≡ active
  act' = ground arith

  created-entry :
      (p : PthreadParam) → ActiveEntry s t p → ActiveEntry (created s func priority new) t p
  created-entry p a = record {
    runs = a.runs;
    entry = ground (arith, a.entry, act, fresh);
    priority = a.priority;
    key = a.key;
    pos = a.pos;
    most = a.most;
    small = a.small;
  }

  -- The result of a fork whose arguments are valid
  Decided : PthreadParam → Option (Exit ℕ × Scheduler) → Type 0
  Decided p r =
      (stop : Option ℕ) × (s' : Scheduler) × (parks r ≡ some (stop, s'))
      × Fate s t new priority p stop s'

  module _ (x : PqData) (xs : List PqData)
      (e : (created s func priority new).ready_threads_pq ≡ x ∷ xs) (p : PthreadParam)
      (a : ActiveEntry (created s func priority new) t p) where
    head :
        (s.running_thread.priority < priority → x ≡ pq_data new priority)
        × (priority ≤ s.running_thread.priority → x.priority ≤ s.running_thread.priority)
    head = push-head s.ready_threads_pq new priority s.running_thread.priority x xs inv.top e

    expired-Decided :
        p.time_quantum ≡ 1 → Decided p (reschedule_after_fork new (created s func priority new))
    unfolding Decided
    expired-Decided last =
        let (s', q) = then_wait-stop t new _ _ (
          yield-Settles t
            (with_quantum-IsPlaced t p s.time_quantum a.entry inv.placed.wf.quantum_pos
              (omega arith) placed)
            act') in
        rw (reschedule_expired t new placed act' x xs e p a last) (some t, s', q, expires last)

    yields-Decided :
        p.time_quantum ≢ 1
        → s.running_thread.priority < priority
        → Decided p (reschedule_after_fork new (created s func priority new))
    unfolding Decided
    yields-Decided more higher =
        let n : x ≡ pq_data new priority = head.0 higher in
        let up : ltb s.running_thread.priority x.priority ≡ true = rw n (ground (arith, higher)) in
        let w : Scheduler = with_quantum (created s func priority new) t p (p.time_quantum - 1) in
        let placed' = spent-IsPlaced t new placed act' x xs e p a more in
        let (p', a') = active-entry t placed' act' in
        let known : All (KnownReady w.pthreads_data) (x ∷ xs) = rw e at placed'.wf.known in
        let (q, b, _) = Known-some w.pthreads_data x.thread x.priority known.0 in
        let above =
          push-cons_above x xs t s.running_thread.priority
            ((queue t new placed act' x xs e p a).0.1) (ground (arith, up)) in
        rw
          (
            reschedule_preempts t new placed act' x xs e p a more up,
            preempt_lem w t x xs p' q a' b e above,
            start_next_lem (pushed w t s.running_thread.priority) x
                (push_node_pq xs t s.running_thread.priority) q (rw e above) b,
          )
          (some t, _, refl, yields more (rw a.priority higher) (rw n refl))

    goes_on-Decided :
        p.time_quantum ≢ 1
        → priority ≤ s.running_thread.priority
        → Decided p (reschedule_after_fork new (created s func priority new))
    unfolding Decided
    goes_on-Decided more low =
        let below : x.priority ≤ s.running_thread.priority = head.1 low in
        rw (reschedule_keeps t new placed act' x xs e p a more (ground (arith, below)))
          (none, _, refl, goes_on more (rw a.priority low) refl)

    reschedule-Decided : Decided p (reschedule_after_fork new (created s func priority new))
    reschedule-Decided = elim (Bool-cases (p.time_quantum == 1)) [
      | inl last ↦ expired-Decided (ground (arith, last))
      | inr more ↦ elim (Bool-cases (ltb s.running_thread.priority priority)) [
        | inl higher ↦ yields-Decided (ground (arith, more)) (ground (arith, higher))
        | inr low ↦ goes_on-Decided (ground (arith, more)) (ground (arith, low))
      ]
    ]

-- In every state that a program can reach, a call of `so_fork` with valid arguments by the thread
-- in its handler returns or parks that thread, by its entry in the table. If its quantum is 1, it
-- parks. If its quantum is more and the new thread has a bigger priority, it parks and the new
-- thread is the running one. Otherwise it goes on and is still the running one. The id of the new
-- thread is fresh.
pub fork_preempts_lem :
    {time_quantum io : ℕ} {s : System} (t func priority new : ℕ)
    → Reach time_quantum io s
    → s.pc t ≡ active
    → s.pc new ≡ unborn
    → func ≢ 0
    → priority ≤ so_max_prio
    → (p : PthreadParam) × (s.sched.pthreads_data t ≡ some p)
      × ((stop : Option ℕ) × (s' : Scheduler) × (run (fork_request func priority new) s.sched
            ≡ some (stop, s'))
          × Fate s.sched t new priority p stop s')
unfolding Decided
fork_preempts_lem {s = s} t func priority new r act fresh nonnull small =
    let inv = Reach-Inv r in
    let (p, a) = active-entry t inv.placed act in
    let (x, xs, e) = push-cons s.sched.ready_threads_pq new priority in
    let fine : (ltb so_max_prio priority || func == 0) ≡ false = ground arith in
    (
      p,
      a.entry,
      rw
          (fork_goes s.sched func priority new fine
            (no_entry t func priority new inv.placed act fresh) inv.placed.wf.started)
          (reschedule-Decided t func priority new inv act fresh x xs e p
            (created-entry t func priority new inv act fresh p a)),
    )
