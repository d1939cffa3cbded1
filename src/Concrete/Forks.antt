-- ===== src/Concrete/Forks.antt =====
-- `so_fork` on memory against the one of `Scheduler`.
use thread_scheduler_multipl.Base.{
  ℕ, suc, ◌<◌, ◌^◌, ◌≡◌, refl, ap, ◌∙◌, Bool, true, false, ◌||◌, none, some, ◌==◌, ltb, length,
  if◌then◌else◌, arith, Bool-cases, inl, inr,
}
use thread_scheduler_multipl.LinkedList.{is_empty_list}
use thread_scheduler_multipl.PriorityQueue.{PqData}
use thread_scheduler_multipl.HashTable.{HashTable}
use thread_scheduler_multipl.Scheduler.State as Linux
use thread_scheduler_multipl.Scheduler.State.{
  Scheduler, Exit, returns, sem_wait, so_max_prio, invalid_tid,
}
use thread_scheduler_multipl.Scheduler
use thread_scheduler_multipl.Concrete.State.{
  Store, Cmd, ◌>>=◌, asks, pure, load_ready, fresh_address,
}
use thread_scheduler_multipl.Concrete.Relates.{Related, IsMalloc, address_of}
use thread_scheduler_multipl.Concrete.Sim.{
  Same, Sim, Sim-pure, Sim-if, Sim-bind, Sim-seq, Sim-ask, Sim-find_then, Related-less, Agrees,
  Agrees-bind, after,
}
use thread_scheduler_multipl.Concrete.Params.{Sim-sem_post}
use thread_scheduler_multipl.Concrete.Queues.{Sim-peak, Sim-pop_ready, Agrees-set_fastest}
use thread_scheduler_multipl.Concrete.Handover.{
  idle_agrees, Sim-spend_quantum, Sim-after_quantum, Agrees-preempt,
}
use thread_scheduler_multipl.Concrete.Relates.{absent_address}
use thread_scheduler_multipl.Concrete.Creation.{bind-ok, created_state, create_thread-refines}
use thread_scheduler_multipl.Concrete.Calls.{ExitsAs, spend_quantum-none}
use thread_scheduler_multipl.Concrete
use thread_scheduler_multipl.Concrete.Runs.{RunsAs, Agrees-RunsAs, RunsAs-Grows, created-Grows}

module _ (ht : HashTable ℕ ℕ) where
  Sim-started :
      {n : ℕ}
      → Sim ht n n Same
          (λ c. some (tt, record c { is_a_thread_running = true }))
          (λ s. some (tt, record s { is_a_thread_running = true }))
  Sim-started = record {
    at = λ c s rel. (
      refl,
      record {
        ready = rel.ready;
        waiting = rel.waiting;
        created = rel.created;
        table = rel.table;
        chains = rel.chains;
        session = rel.session;
        tidy = rel.tidy;
        allocated = rel.allocated;
        short = rel.short;
        points = rel.points;
        apart = rel.apart;
        bounded = λ p h.
            let f = rel.bounded p h in
            record {
              params = f.params;
              entries = f.entries;
              ready = f.ready;
              waiting = f.waiting;
              created = f.created;
            };
        running_thread = rel.running_thread;
        time_quantum = rel.time_quantum;
        io = rel.io;
        started = refl;
        room = rel.room;
      },
    );
  }

  module _ (malloc : (ℕ → Bool) → ℕ → ℕ) (garbage : ℕ) (is_malloc : IsMalloc malloc) where
    -- The branch of `so_fork` with a ready thread, whose data are at the address `b`
    Agrees-replace :
        (new t a b : ℕ) (x : PqData) (c : Store) (s : Scheduler)
        → address_of ht t ≡ some a
        → Related ht 1 c s
        → load_ready b c ≡ some (x, c)
        → Agrees ht 0
            (ExitsAs ht)
            ((if ltb c.running_thread.priority x.priority
                then (Concrete.preempt malloc garbage a b >>= λ _. pure (sem_wait a new))
                else pure (returns new))
              c)
            ((if ltb s.running_thread.priority x.priority
                then Linux.◌>>=◌ (Scheduler.preempt t x) (λ _. Linux.pure (sem_wait t new))
                else Linux.pure (returns new))
              s)
    Agrees-replace new t a b x c s e rel loads =
        go (ltb c.running_thread.priority x.priority) (ltb s.running_thread.priority x.priority)
          (ap (λ y. ltb y.priority x.priority) rel.running_thread)
      where
        go :
            (p q : Bool)
            → p ≡ q
            → Agrees ht 0
                (ExitsAs ht)
                ((if p
                    then (Concrete.preempt malloc garbage a b >>= λ _. pure (sem_wait a new))
                    else pure (returns new))
                  c)
                ((if q
                    then Linux.◌>>=◌ (Scheduler.preempt t x) (λ _. Linux.pure (sem_wait t new))
                    else Linux.pure (returns new))
                  s)
        go true true same =
            Agrees-bind ht 0 0 (ExitsAs ht) _ _ _ _
              (Agrees-preempt ht malloc garbage is_malloc 0 t a b x c s e rel loads)
              (λ u. Sim-pure ht 0 _ (sem_wait a new) (sem_wait t new) (omega arith) (e, refl))
        go false false same = (refl, Related-less ht 1 0 c s (omega arith) rel)
        go true false same = absurd (cc)
        go false true same = absurd (cc)

    -- What `so_fork` does with the address that `peak_pq` returns
    abbrev compare_running : (new running max : ℕ) → PqData → Cmd (Exit ℕ)
    compare_running new running max found = asks (λ c. c.running_thread.priority) >>= λ priority.
        if ltb priority found.priority
        then (Concrete.preempt malloc garbage running max >>= λ _. pure (sem_wait running new))
        else pure (returns new)

    Sim-reschedule :
        (new : ℕ)
        → Sim ht 1 0
            (ExitsAs ht)
            (Concrete.reschedule_after_fork malloc garbage new)
            (Scheduler.reschedule_after_fork new)
    unfolding Concrete.reschedule_after_fork Scheduler.reschedule_after_fork
    Sim-reschedule new =
        Sim-ask ht _ (λ c. c.running_thread.thread) (λ s. s.running_thread.thread)
          (λ c s rel. ap (λ x. x.thread) rel.running_thread)
          (λ t. Sim-find_then ht t (Scheduler.spend_quantum t) _ (spend_quantum-none t) (λ a e.
            Sim-bind ht _ (Sim-spend_quantum ht t a e) (λ left.
              Sim-ask ht _ (λ c. Concrete.has_no_nodes c.ready_threads_pq)
                (λ s. is_empty_list s.ready_threads_pq) (idle_agrees ht)
                (λ idle.
                  Sim-if ht (left == 0)
                    (Sim-seq ht (Sim-after_quantum ht malloc garbage is_malloc t a e)
                      (Sim-pure ht 0 _ (sem_wait a new) (sem_wait t new) (omega arith) (e, refl)))
                    (Sim-if ht idle (Sim-pure ht 0 _ (returns new) (returns new) (omega arith) refl)
                      (Sim-peak ht (λ b. load_ready b >>= compare_running new a b) _
                        (λ c s b x rel loads.
                          after ht 0 (ExitsAs ht) (load_ready b c) x c (compare_running new a b) _
                            loads (Agrees-replace new t a b x c s e rel loads))))))))

    Sim-start_first :
        (new a : ℕ)
        → address_of ht new ≡ some a
        → Sim ht 1 0
            (ExitsAs ht)
            (Concrete.start_first malloc garbage new a)
            (Scheduler.start_first new)
    unfolding Concrete.start_first Scheduler.start_first
    Sim-start_first new a e = Sim-seq ht Sim-started (
        Sim-peak ht _ _ (λ c s b x rel loads.
          Agrees-set_fastest ht 1 0 b (ExitsAs ht) x _ _ c s rel loads (
            Sim-seq ht (Sim-pop_ready ht) (
              Sim-seq ht (Sim-sem_post ht new a e)
                (Sim-pure ht 0 _ (returns new) (returns new) (omega arith) refl)))))

    -- What follows the creation of the thread
    abbrev rest : (new created : ℕ) → Cmd (Exit ℕ)
    rest new created = asks (λ c. c.is_a_thread_running) >>= λ started.
        if started
        then Concrete.reschedule_after_fork malloc garbage new
        else Concrete.start_first malloc garbage new created

    abbrev linux_rest : (new : ℕ) → Linux.Cmd (Exit ℕ)
    linux_rest new = Linux.◌>>=◌ (Linux.asks (λ s. s.is_a_thread_running)) (λ started.
        if started then Scheduler.reschedule_after_fork new else Scheduler.start_first new)

    Sim-rest :
        (new a : ℕ)
        → address_of ht new ≡ some a
        → Sim ht 1 0 (ExitsAs ht) (rest new a) (linux_rest new)
    Sim-rest new a e =
        Sim-ask ht _ (λ c. c.is_a_thread_running) (λ s. s.is_a_thread_running)
          (λ c s rel. rel.started)
          (λ started. Sim-if ht started (Sim-reschedule new) (Sim-start_first new a e))

    fork_refused :
        (func priority new : ℕ) (c : Store)
        → (ltb so_max_prio priority || func == 0) ≡ true
        → Concrete.fork malloc garbage func priority new c ≡ some (returns invalid_tid, c)
    unfolding Concrete.fork
    fork_refused func priority new c bad = rw (bad, Concrete.fork) refl

    linux_fork_refused :
        (func priority new : ℕ) (s : Scheduler)
        → (ltb so_max_prio priority || func == 0) ≡ true
        → Scheduler.fork func priority new s ≡ some (returns invalid_tid, s)
    unfolding Scheduler.fork
    linux_fork_refused func priority new s bad = rw (bad, Scheduler.fork) refl

    fork_goes :
        (func priority new a : ℕ) (c c' : Store)
        → (ltb so_max_prio priority || func == 0) ≡ false
        → Concrete.create_thread malloc garbage func priority new c ≡ some (a, c')
        → Concrete.fork malloc garbage func priority new c ≡ rest new a c'
    unfolding Concrete.fork
    fork_goes func priority new a c c' fine e =
        rw (fine, Concrete.fork)
          (bind-ok (Concrete.create_thread malloc garbage func priority new) (rest new) a c c' e)

    linux_fork_goes :
        (func priority new : ℕ) (s s' : Scheduler)
        → (ltb so_max_prio priority || func == 0) ≡ false
        → Scheduler.create_thread func priority new s ≡ some (tt, s')
        → Scheduler.fork func priority new s ≡ linux_rest new s'
    unfolding Scheduler.fork
    linux_fork_goes func priority new s s' fine e = rw (fine, Scheduler.fork, Linux.◌>>=◌, e) refl

module _ (malloc : (ℕ → Bool) → ℕ → ℕ) (garbage : ℕ) (is_malloc : IsMalloc malloc) where
  -- The struct of the thread that a call creates is the first that it allocates.
  abbrev pub Created : (func priority new : ℕ) → Store → HashTable ℕ ℕ → Type 0
  Created func priority new c ht' =
      (ltb so_max_prio priority || func == 0) ≡ false
      → address_of ht' new ≡ some (fresh_address malloc garbage c)

  pub fork-RunsAs :
      (ht : HashTable ℕ ℕ) (func priority new : ℕ) (c : Store) (s : Scheduler)
      → Related ht 2 c s
      → s.pthreads_data new ≡ none
      → suc (length s.pthreads_created) < 2 ^ 32
      → RunsAs ht
          (Created func priority new c)
          (Concrete.fork malloc garbage func priority new c)
          (Scheduler.fork func priority new s)
  fork-RunsAs ht func priority new c s rel absent small =
      elim (Bool-cases (ltb so_max_prio priority || func == 0)) [
        | inl bad ↦
            rw
              (
                fork_refused ht malloc garbage is_malloc func priority new c bad,
                linux_fork_refused ht malloc garbage is_malloc func priority new s bad,
              )
              (
                ht,
                λ j a f. f,
                λ fine. absurd (let f = rw bad at fine in cc),
                refl,
                Related-less ht 2 0 c s (omega arith) rel,
              )
        | inr fine ↦
            let (goes, (ht', a, c', e, here, self, others, rel')) =
              create_thread-refines ht malloc garbage is_malloc 1 func priority new c s rel absent
                small in
            let none_yet =
              absent_address c.params (address_of ht new) (rw absent at (rel.points new)) in
            rw
              (
                fork_goes ht malloc garbage is_malloc func priority new a c c' fine e,
                linux_fork_goes ht malloc garbage is_malloc func priority new s
                    (created_state func priority new s) fine goes,
              )
              (RunsAs-Grows ht ht' (Created func priority new c) _ _
                (created-Grows ht ht' new none_yet others)
                (Agrees-RunsAs ht' (Created func priority new c) _ _
                  (λ f. self ∙ ap (λ x. some x) here)
                  ((Sim-rest ht' malloc garbage is_malloc new a self).at c' _ rel')))
      ]
