-- ===== src/Concrete/Handover.antt =====
-- The hand-overs of the processor on memory against those of `Scheduler`.
use thread_scheduler_multipl.Base.{ℕ, suc, ◌≡◌, refl, Bool, some, dec_u32, arith}
use thread_scheduler_multipl.LinkedList.{is_empty_list}
use thread_scheduler_multipl.PriorityQueue.{PqData}
use thread_scheduler_multipl.HashTable.{HashTable}
use thread_scheduler_multipl.Scheduler.State as Linux
use thread_scheduler_multipl.Scheduler.State.{PthreadParam, Scheduler}
use thread_scheduler_multipl.Scheduler
use thread_scheduler_multipl.Concrete.State.{Store, Cmd, ◌>>=◌, find_param, load_ready}
use thread_scheduler_multipl.Concrete.Relates.{Related, IsMalloc, address_of}
use thread_scheduler_multipl.Concrete.Sim.{
  Same, Sim, Sim-pure, Sim-if, Sim-bind, Sim-seq, Sim-ask, Agrees, Agrees-find, after,
}
use thread_scheduler_multipl.Concrete.Params.{Sim-load, Sim-set_time_quantum, Sim-sem_post}
use thread_scheduler_multipl.Concrete.Queues.{
  empty-Holds, Agrees-set_fastest, Sim-peak, Sim-pop_ready,
}
use thread_scheduler_multipl.Concrete.Additions.{Sim-push_ready}
use thread_scheduler_multipl.Concrete

module _ (ht : HashTable ℕ ℕ) where
  -- The lookup of the thread at an address in the queue, and its start, if the rest follows
  pub Agrees-take :
      {A B : Type 0} (n m a : ℕ) (R : A → B → Type 0) (x : PqData) (k : ℕ → Cmd A) (g : Linux.Cmd B)
      (c : Store) (s : Scheduler)
      → Related ht n c s
      → load_ready a c ≡ some (x, c)
      → ((b : ℕ) → address_of ht x.thread ≡ some b → Sim ht n m R (k b) g)
      → Agrees ht m R
          ((find_param x.thread >>= λ b. Concrete.set_fastest_thread a >>= λ _. k b) c)
          (Linux.◌>>=◌
            (Linux.◌>>=◌ (Linux.get_value x.thread) (λ _. Scheduler.set_fastest_thread x))
            (λ _. g)
            s)
  Agrees-take n m a R x k g c s rel loads rule =
      Agrees-find ht n m x.thread R (λ b. Concrete.set_fastest_thread a >>= λ _. k b)
        (Linux.◌>>=◌ (Linux.◌>>=◌ (Linux.get_value x.thread) (λ _. Scheduler.set_fastest_thread x))
          (λ _. g))
        (Linux.◌>>=◌ (Scheduler.set_fastest_thread x) (λ _. g)) c s rel
        (λ e. rw (Linux.◌>>=◌, Linux.get_value, e) refl)
        (λ p e. rw (Linux.◌>>=◌, Linux.get_value, e) refl)
        (λ b e. Agrees-set_fastest ht n m a R x (k b) g c s rel loads (rule b e))

  -- The size of the queue tells whether a thread is ready.
  pub idle_agrees :
      {n : ℕ} (c : Store) (s : Scheduler)
      → Related ht n c s
      → Concrete.has_no_nodes c.ready_threads_pq ≡ is_empty_list s.ready_threads_pq
  idle_agrees c s rel = empty-Holds c.ready_nodes c.ready_threads_pq s.ready_threads_pq rel.ready

  pub Sim-start_next : {n : ℕ} → Sim ht n n Same Concrete.start_next Scheduler.start_next
  unfolding Concrete.start_next Scheduler.start_next
  Sim-start_next {n} = Sim-peak ht _ _ (λ c s a x rel loads.
      after ht n Same (load_ready a c) x c _ _ loads (
        Agrees-take n n a Same x _ _ c s rel loads
          (λ b e. Sim-seq ht (Sim-pop_ready ht) (Sim-sem_post ht x.thread b e))))

  pub Sim-finish_thread : {n : ℕ} → Sim ht n n Same Concrete.finish_thread Scheduler.finish_thread
  unfolding Concrete.finish_thread Scheduler.finish_thread
  Sim-finish_thread {n} =
      Sim-ask ht _ (λ c. Concrete.has_no_nodes c.ready_threads_pq)
        (λ s. is_empty_list s.ready_threads_pq) idle_agrees
        (λ idle. Sim-if ht idle (Sim-pure ht n Same tt tt (omega arith) refl) Sim-start_next)

  pub Sim-spend_quantum :
      {n : ℕ} (t a : ℕ)
      → address_of ht t ≡ some a
      → Sim ht n n Same (Concrete.spend_quantum a) (Scheduler.spend_quantum t)
  unfolding Concrete.spend_quantum Scheduler.spend_quantum
  Sim-spend_quantum {n} t a e = Sim-bind ht _ (Sim-load ht t a e) (λ p.
      Sim-seq ht (Sim-set_time_quantum ht t a (dec_u32 p.time_quantum) e)
        (Sim-pure ht n Same _ _ (omega arith) refl))

  module _ (malloc : (ℕ → Bool) → ℕ → ℕ) (garbage : ℕ) (is_malloc : IsMalloc malloc) where
    pub Sim-after_quantum :
        {n : ℕ} (t a : ℕ)
        → address_of ht t ≡ some a
        → Sim ht
            (suc n)
            n
            Same
            (Concrete.set_fastest_thread_after_quantum malloc garbage a)
            (Scheduler.set_fastest_thread_after_quantum t)
    unfolding Concrete.set_fastest_thread_after_quantum Scheduler.set_fastest_thread_after_quantum
    Sim-after_quantum t a e =
        Sim-ask ht _ (λ c. c.time_quantum) (λ s. s.time_quantum) (λ c s rel. rel.time_quantum)
          (λ q. Sim-seq ht (Sim-set_time_quantum ht t a q e) (
            Sim-bind ht _ (Sim-load ht t a e) (λ p.
              Sim-seq ht (Sim-push_ready ht malloc garbage is_malloc p.pthread_id p.priority)
                Sim-start_next)))

    -- The address is the one of a thread in the queue.
    pub Agrees-preempt :
        (n t a b : ℕ) (x : PqData) (c : Store) (s : Scheduler)
        → address_of ht t ≡ some a
        → Related ht (suc n) c s
        → load_ready b c ≡ some (x, c)
        → Agrees ht n Same (Concrete.preempt malloc garbage a b c) (Scheduler.preempt t x s)
    unfolding Concrete.preempt Scheduler.preempt
    Agrees-preempt n t a b x c s e rel loads = after ht n Same (load_ready b c) x c _ _ loads (
        Agrees-take (suc n) n b Same x _ _ c s rel loads (λ ready f. Sim-seq ht (Sim-pop_ready ht) (
          Sim-bind ht _ (Sim-load ht t a e) (λ p.
            Sim-seq ht (Sim-push_ready ht malloc garbage is_malloc p.pthread_id p.priority)
              (Sim-sem_post ht x.thread ready f)))))
