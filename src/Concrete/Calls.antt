-- ===== src/Concrete/Calls.antt =====
-- `so_exec`, `so_wait` and `so_signal` on memory against those of `Scheduler`.
use thread_scheduler_multipl.Base.{
  ℕ, ◌+◌, ◌≡◌, refl, sym, ap, ◌∙◌, Bool, List, not, ◌||◌, none, some, ◌==◌, leb, length, pos,
  minus_one, arith,
}
use thread_scheduler_multipl.LinkedList.{is_empty_list}
use thread_scheduler_multipl.LinkedList.Pointers.{ListHandle}
use thread_scheduler_multipl.LinkedList.Contents.{length-contents}
use thread_scheduler_multipl.HashTable.{HashTable}
use thread_scheduler_multipl.Scheduler.State as Linux
use thread_scheduler_multipl.Scheduler.State.{WaitingPthread, Scheduler, Exit, returns, sem_wait}
use thread_scheduler_multipl.Scheduler
use thread_scheduler_multipl.Concrete.State.{Store, pure, ◌>>=◌}
use thread_scheduler_multipl.Concrete.Relates.{Related, IsMalloc, address_of}
use thread_scheduler_multipl.Concrete.Sim.{
  Same, Sim, Sim-pure, Sim-if, Sim-if_as, Sim-bind, Sim-seq, Sim-ask, Sim-find_then, Sim-ask_as,
}
use thread_scheduler_multipl.Concrete.Params.{Sim-load}
use thread_scheduler_multipl.Concrete.Queues.{empty-Holds}
use thread_scheduler_multipl.Concrete.Additions.{Sim-push_ready, Sim-add_waiting}
use thread_scheduler_multipl.Concrete.Handover.{
  idle_agrees, Sim-start_next, Sim-spend_quantum, Sim-after_quantum,
}
use thread_scheduler_multipl.Concrete.Waking.{Sim-wake_loop}
use thread_scheduler_multipl.Concrete

-- A call waits on the struct of the thread whose semaphore the other waits on.
abbrev pub ExitsAs : {A : Type 0} → HashTable ℕ ℕ → Exit A → Exit A → Type 0
ExitsAs ht (returns a) (returns b) = a ≡ b
ExitsAs ht (returns a) (sem_wait t b) = ⊥
ExitsAs ht (sem_wait p a) (returns b) = ⊥
ExitsAs ht (sem_wait p a) (sem_wait t b) = (address_of ht t ≡ some p) × (a ≡ b)

pub spend_quantum-none :
    (t : ℕ) (s : Scheduler) → s.pthreads_data t ≡ none → Scheduler.spend_quantum t s ≡ none
unfolding Scheduler.spend_quantum
spend_quantum-none t s e = rw (Linux.◌>>=◌, Linux.get_value, e) refl

get_value-none : (t : ℕ) (s : Scheduler) → s.pthreads_data t ≡ none → Linux.get_value t s ≡ none
get_value-none t s e = rw (Linux.get_value, e) refl

module _ (ht : HashTable ℕ ℕ) (malloc : (ℕ → Bool) → ℕ → ℕ) (garbage : ℕ)
    (is_malloc : IsMalloc malloc) where
  pub Sim-exec : Sim ht 1 0 (ExitsAs ht) (Concrete.exec malloc garbage) Scheduler.exec
  unfolding Concrete.exec Scheduler.exec
  Sim-exec =
      Sim-ask ht _ (λ c. c.is_a_thread_running) (λ s. s.is_a_thread_running)
        (λ c s rel. rel.started)
        (λ started.
          Sim-if ht (not started) (Sim-pure ht 0 _ (returns tt) (returns tt) (omega arith) refl) (
            Sim-ask ht _ (λ c. c.running_thread.thread) (λ s. s.running_thread.thread)
              (λ c s rel. ap (λ x. x.thread) rel.running_thread)
              (λ t. Sim-find_then ht t (Scheduler.spend_quantum t) _ (spend_quantum-none t) (λ a e.
                Sim-bind ht _ (Sim-spend_quantum ht t a e) (λ left.
                  Sim-if ht (left == 0)
                    (Sim-seq ht (Sim-after_quantum ht malloc garbage is_malloc t a e)
                      (Sim-pure ht 0 _ (sem_wait a tt) (sem_wait t tt) (omega arith) (e, refl)))
                    (Sim-pure ht 0 _ (returns tt) (returns tt) (omega arith) refl))))))

  pub Sim-wait :
      (io : ℕ) → Sim ht 1 0 (ExitsAs ht) (Concrete.wait malloc garbage io) (Scheduler.wait io)
  unfolding Concrete.wait Scheduler.wait
  Sim-wait io =
      Sim-ask ht _ (λ c. c.is_a_thread_running) (λ s. s.is_a_thread_running)
        (λ c s rel. rel.started)
        (λ started.
          Sim-ask ht _ (λ c. c.io) (λ s. s.io) (λ c s rel. rel.io)
            (λ devices.
              Sim-if ht (not started)
                (Sim-pure ht 0 _ (returns (pos 0)) (returns (pos 0)) (omega arith) refl)
                (Sim-if ht (leb devices io)
                  (Sim-pure ht 0 _ (returns minus_one) (returns minus_one) (omega arith) refl)
                  (Sim-ask ht _ (λ c. c.running_thread.thread) (λ s. s.running_thread.thread)
                    (λ c s rel. ap (λ x. x.thread) rel.running_thread)
                    (λ t. Sim-find_then ht t (Linux.get_value t) _ (get_value-none t) (λ a e.
                      Sim-bind ht _ (Sim-load ht t a e) (λ p.
                        Sim-seq ht
                          (Sim-add_waiting ht malloc garbage is_malloc
                            (record { pthread_id = p.pthread_id; priority = p.priority; io = io }))
                          (Sim-ask ht _ (λ c. Concrete.has_no_nodes c.ready_threads_pq)
                            (λ s. is_empty_list s.ready_threads_pq) (idle_agrees ht)
                            (λ idle.
                              Sim-seq ht
                                (Sim-if ht idle (Sim-pure ht 0 Same tt tt (omega arith) refl)
                                  (Sim-start_next ht))
                                (Sim-pure ht 0 _ (sem_wait a (pos 0)) (sem_wait t (pos 0))
                                  (omega arith) (e, refl)))))))))))

  -- The size of the list of waiting threads, and whether it has any
  abbrev SameSize : ListHandle → List WaitingPthread → Type 0
  SameSize list ws = (list.size ≡ length ws) × (Concrete.has_no_nodes list ≡ is_empty_list ws)

  waiting-SameSize :
      (c : Store) (s : Scheduler) → Related ht 1 c s → SameSize c.waiting_threads s.waiting_threads
  waiting-SameSize c s rel =
      let (cs, is, e) = rel.waiting in
      (
        is.size ∙ sym (length-contents cs) ∙ ap (λ xs. length xs) e,
        empty-Holds c.waiting_nodes c.waiting_threads s.waiting_threads rel.waiting,
      )

  signal_started :
      (io t a fuel fuel' : ℕ)
      → fuel ≡ fuel'
      → address_of ht t ≡ some a
      → Sim ht 0 0
          (ExitsAs ht)
          (Concrete.wake_loop malloc garbage fuel io 0 >>= λ woken.
            Concrete.start_next >>= λ _. pure (sem_wait a (pos woken)))
          (Linux.◌>>=◌
            (Scheduler.wake_loop fuel' io 0)
            (λ woken. Linux.◌>>=◌ Scheduler.start_next (λ _. Linux.pure (sem_wait t (pos woken)))))
  signal_started io t a fuel fuel' same e = rw same (
      Sim-bind ht _ (Sim-wake_loop ht malloc garbage is_malloc fuel' io 0) (λ woken.
        Sim-seq ht (Sim-start_next ht) (
          Sim-pure ht 0 _ (sem_wait a (pos woken)) (sem_wait t (pos woken)) (omega arith)
            (e, refl))))

  pub Sim-signal :
      (io : ℕ) → Sim ht 1 0 (ExitsAs ht) (Concrete.signal malloc garbage io) (Scheduler.signal io)
  unfolding Concrete.signal Scheduler.signal
  Sim-signal io =
      Sim-ask ht _ (λ c. c.io) (λ s. s.io) (λ c s rel. rel.io)
        (λ devices.
          Sim-ask ht _ (λ c. c.is_a_thread_running) (λ s. s.is_a_thread_running)
            (λ c s rel. rel.started)
            (λ started.
              Sim-ask_as ht SameSize _ (λ c. c.waiting_threads) (λ s. s.waiting_threads)
                waiting-SameSize
                (λ list ws same.
                  Sim-if ht (leb devices io)
                    (Sim-pure ht 0 _ (returns minus_one) (returns minus_one) (omega arith) refl)
                    (Sim-if_as ht (not started || Concrete.has_no_nodes list)
                      (not started || is_empty_list ws) (ap (λ b. not started || b) same.1)
                      (Sim-pure ht 0 _ (returns (pos 0)) (returns (pos 0)) (omega arith) refl)
                      (Sim-ask ht _ (λ c. c.running_thread.thread) (λ s. s.running_thread.thread)
                        (λ c s rel. ap (λ x. x.thread) rel.running_thread)
                        (λ t. Sim-find_then ht t (Linux.get_value t) _ (get_value-none t) (λ a e.
                          Sim-bind ht _ (Sim-load ht t a e) (λ p.
                            Sim-seq ht
                              (Sim-push_ready ht malloc garbage is_malloc p.pthread_id p.priority)
                              (signal_started io t a (list.size + 1) (length ws + 1)
                                (ap (λ k. k + 1) same.0) e)))))))))
