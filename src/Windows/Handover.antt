-- ===== src/Windows/Handover.antt =====
-- The pieces of the calls of Windows/so_scheduler.c against those of Linux/so_scheduler.c.
use thread_scheduler_multipl.Base.{ℕ, ◌≡◌, refl, true, false, dec_u32}
use thread_scheduler_multipl.LinkedList.{is_empty_list}
use thread_scheduler_multipl.PriorityQueue.{PqData}
use thread_scheduler_multipl.Scheduler.State as Linux
use thread_scheduler_multipl.Scheduler.State.{
  so_max_prio, invalid_tid, WaitingPthread, Exit, returns, sem_wait,
}
use thread_scheduler_multipl.Scheduler
use thread_scheduler_multipl.Windows
use thread_scheduler_multipl.Windows.State.{modify}
use thread_scheduler_multipl.Windows.Follows.{
  Follows, Follows-pure, Follows-ask, Follows-if, Follows-bind, Follows-seq,
}
use thread_scheduler_multipl.Windows.Writes.{
  get_value-Follows, set_time_quantum-Follows, release-Follows, put_value-Follows,
  push_ready-Follows, pop_ready-Follows, peak_ready-Follows, add_created-Follows,
}

module _ (thread_of : ℕ → ℕ) where
  pub set_fastest_thread-Follows :
      (max : PqData)
      → Follows thread_of true
          (λ u. u)
          (Windows.set_fastest_thread max)
          (Scheduler.set_fastest_thread max)
  unfolding modify Windows.set_fastest_thread Scheduler.set_fastest_thread
  set_fastest_thread-Follows max = record { at = λ w d. (refl, λ h. d) }

  pub start_next-Follows : Follows thread_of false (λ u. u) Windows.start_next Scheduler.start_next
  unfolding Windows.start_next Scheduler.start_next
  start_next-Follows = Follows-bind thread_of _ (peak_ready-Follows thread_of) (λ max.
      Follows-seq thread_of
        (Follows-bind thread_of (λ _. Scheduler.set_fastest_thread max)
          (get_value-Follows thread_of max.thread) (λ _. set_fastest_thread-Follows max))
        (Follows-seq thread_of (pop_ready-Follows thread_of)
          (release-Follows thread_of max.thread)))

  pub set_fastest_thread_after_quantum-Follows :
      (t : ℕ)
      → Follows thread_of false
          (λ u. u)
          (Windows.set_fastest_thread_after_quantum t)
          (Scheduler.set_fastest_thread_after_quantum t)
  unfolding Windows.set_fastest_thread_after_quantum Scheduler.set_fastest_thread_after_quantum
  set_fastest_thread_after_quantum-Follows t =
      Follows-ask thread_of _ (λ w. w.time_quantum) (λ s. s.time_quantum) (λ w. refl)
        (λ q. Follows-seq thread_of (set_time_quantum-Follows thread_of t q) (
          Follows-bind thread_of
            (λ p. Linux.◌>>◌ (Linux.push_ready p.pthread_id p.priority) Scheduler.start_next)
            (get_value-Follows thread_of t)
            (λ p.
              Follows-seq thread_of (push_ready-Follows thread_of p.pthread_id p.priority)
                start_next-Follows)))

  pub finish_thread-Follows :
      Follows thread_of false (λ u. u) Windows.finish_thread Scheduler.finish_thread
  unfolding Windows.finish_thread Scheduler.finish_thread
  finish_thread-Follows =
      Follows-ask thread_of _ (λ w. is_empty_list w.ready_threads_pq)
        (λ s. is_empty_list s.ready_threads_pq) (λ w. refl)
        (λ idle.
          Follows-if thread_of _ _ idle _ _ _ _ (Follows-pure thread_of _ _ tt) start_next-Follows)

  pub create_thread-Follows :
      (func priority new h : ℕ)
      → thread_of h ≡ new
      → Follows thread_of true
          (λ u. u)
          (Windows.create_thread func priority new h)
          (Scheduler.create_thread func priority new)
  unfolding Windows.create_thread Scheduler.create_thread
  create_thread-Follows func priority new h e =
      let created : Follows thread_of true (λ u. u) (Windows.add_created h)
          (Linux.add_created new) =
        rw e at (add_created-Follows thread_of h) in
      Follows-ask thread_of _ (λ w. w.time_quantum) (λ s. s.time_quantum) (λ w. refl)
        (λ quantum. Follows-seq thread_of created (
          Follows-seq thread_of (push_ready-Follows thread_of new priority)
            (put_value-Follows thread_of new _ refl)))

  pub preempt-Follows :
      (t : ℕ) (max : PqData)
      → Follows thread_of false (λ u. u) (Windows.preempt t max) (Scheduler.preempt t max)
  unfolding Windows.preempt Scheduler.preempt
  preempt-Follows t max =
      Follows-seq thread_of
        (Follows-bind thread_of (λ _. Scheduler.set_fastest_thread max)
          (get_value-Follows thread_of max.thread) (λ _. set_fastest_thread-Follows max))
        (Follows-seq thread_of (pop_ready-Follows thread_of) (
          Follows-bind thread_of
            (λ p. Linux.◌>>◌ (Linux.push_ready p.pthread_id p.priority) (Linux.sem_post max.thread))
            (get_value-Follows thread_of t)
            (λ p.
              Follows-seq thread_of (push_ready-Follows thread_of p.pthread_id p.priority)
                (release-Follows thread_of max.thread))))

  pub spend_quantum-Follows :
      (t : ℕ)
      → Follows thread_of true (λ q. q) (Windows.spend_quantum t) (Scheduler.spend_quantum t)
  unfolding Windows.spend_quantum Scheduler.spend_quantum
  spend_quantum-Follows t =
      Follows-bind thread_of
        (λ p.
          Linux.◌>>◌ (Linux.set_time_quantum t (dec_u32 p.time_quantum))
            (Linux.pure (dec_u32 p.time_quantum)))
        (get_value-Follows thread_of t)
        (λ p.
          Follows-seq thread_of (set_time_quantum-Follows thread_of t (dec_u32 p.time_quantum))
            (Follows-pure thread_of true (λ q. q) (dec_u32 p.time_quantum)))
