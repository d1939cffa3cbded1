-- ===== src/Windows/Calls.antt =====
-- The functions of Windows/so_scheduler.c against those of Linux/so_scheduler.c.
use thread_scheduler_multipl.Base.{
  ℕ, zero, suc, ◌+◌, ◌≡◌, refl, true, false, not, ◌||◌, ◌==◌, Option, none, some, List, ltb, leb,
  if◌then◌else◌, ℤ, pos, minus_one, length,
}
use thread_scheduler_multipl.LinkedList.{is_empty_list, pop_node_list}
use thread_scheduler_multipl.PriorityQueue.{push_node_pq}
use thread_scheduler_multipl.Scheduler.State as Linux
use thread_scheduler_multipl.Scheduler.State.{
  so_max_prio, invalid_tid, WaitingPthread, Exit, returns, sem_wait,
}
use thread_scheduler_multipl.Scheduler
use thread_scheduler_multipl.Windows
use thread_scheduler_multipl.Windows.State.{Cmd, ok, modify, ◌>>=◌}
use thread_scheduler_multipl.Windows.Follows.{
  linux_state, Down, Agrees, Follows, Follows-pure, Follows-ask, Follows-if, Follows-bind,
  Follows-seq, Follows-then,
}
use thread_scheduler_multipl.Windows.Writes.{
  get_value-Follows, release-Follows, push_ready-Follows, pop_ready-Follows, peak_ready-Follows,
  add_waiting-Follows,
}
use thread_scheduler_multipl.Windows.Handover.{
  set_fastest_thread-Follows, start_next-Follows, set_fastest_thread_after_quantum-Follows,
  create_thread-Follows, preempt-Follows, spend_quantum-Follows,
}

-- What `wait` and `signal` do there after the write that needs the thread's data
abbrev wait_end : ℕ → Linux.Cmd (Exit ℤ)
wait_end t = Linux.◌>>=◌ (Linux.asks (λ s. is_empty_list s.ready_threads_pq)) (λ idle.
    Linux.◌>>◌ (if idle then Linux.pure tt else Scheduler.start_next)
      (Linux.pure (sem_wait t (pos 0))))

abbrev signal_end : (fuel io t : ℕ) → Linux.Cmd (Exit ℤ)
signal_end fuel io t =
    Linux.◌>>=◌ (Scheduler.wake_loop fuel io 0)
      (λ woken. Linux.◌>>◌ Scheduler.start_next (Linux.pure (sem_wait t (pos woken))))

module _ (thread_of : ℕ → ℕ) where
  reschedule-Follows :
      (new : ℕ)
      → Follows thread_of false
          (λ e. e)
          (Windows.reschedule_after_fork new)
          (Scheduler.reschedule_after_fork new)
  unfolding Windows.reschedule_after_fork Scheduler.reschedule_after_fork
  reschedule-Follows new =
      Follows-ask thread_of _ (λ w. w.running_thread.thread) (λ s. s.running_thread.thread)
        (λ w. refl)
        (λ t. Follows-bind thread_of _ (spend_quantum-Follows thread_of t) (λ left.
          Follows-ask thread_of _ (λ w. is_empty_list w.ready_threads_pq)
            (λ s. is_empty_list s.ready_threads_pq) (λ w. refl)
            (λ idle.
              Follows-if thread_of _ _ (left == 0) _ _ _ _
                (Follows-then thread_of _ _ _
                  (set_fastest_thread_after_quantum-Follows thread_of t))
                (Follows-if thread_of _ _ idle _ _ _ _ (Follows-pure thread_of _ _ (returns new)) (
                  Follows-bind thread_of _ (peak_ready-Follows thread_of) (λ max.
                    Follows-ask thread_of _ (λ w. w.running_thread.priority)
                      (λ s. s.running_thread.priority) (λ w. refl)
                      (λ running.
                        Follows-if thread_of _ _ (ltb running max.priority) _ _ _ _
                          (Follows-then thread_of _ _ _ (preempt-Follows thread_of t max))
                          (Follows-pure thread_of _ _ (returns new)))))))))

  start_first-Follows :
      (new : ℕ)
      → Follows thread_of false (λ e. e) (Windows.start_first new) (Scheduler.start_first new)
  unfolding Windows.start_first Scheduler.start_first modify
  start_first-Follows new =
      Follows-seq thread_of {m' = λ s. some (tt, record s { is_a_thread_running = true })}
        (record { at = λ w d. (refl, λ h. d) })
        (Follows-bind thread_of _ (peak_ready-Follows thread_of) (λ max.
          Follows-seq thread_of (set_fastest_thread-Follows thread_of max) (
            Follows-seq thread_of (pop_ready-Follows thread_of)
              (Follows-then thread_of _ _ (returns new) (release-Follows thread_of new)))))

  pub fork-Follows :
      (func priority new h : ℕ)
      → thread_of h ≡ new
      → Follows thread_of false
          (λ e. e)
          (Windows.fork func priority new h)
          (Scheduler.fork func priority new)
  unfolding Windows.fork Scheduler.fork
  fork-Follows func priority new h e =
      Follows-if thread_of _ _ (ltb so_max_prio priority || func == 0) _ _ _ _
        (Follows-pure thread_of _ _ (returns invalid_tid))
        (Follows-seq thread_of (create_thread-Follows thread_of func priority new h e) (
          Follows-ask thread_of _ (λ w. w.is_a_thread_running) (λ s. s.is_a_thread_running)
            (λ w. refl)
            (λ started.
              Follows-if thread_of _ _ started _ _ _ _ (reschedule-Follows new)
                (start_first-Follows new))))

  pub exec-Follows : Follows thread_of false (λ e. e) Windows.exec Scheduler.exec
  unfolding Windows.exec Scheduler.exec
  exec-Follows =
      Follows-ask thread_of _ (λ w. w.is_a_thread_running) (λ s. s.is_a_thread_running) (λ w. refl)
        (λ started.
          Follows-if thread_of _ _ (not started) _ _ _ _ (Follows-pure thread_of _ _ (returns tt)) (
            Follows-ask thread_of _ (λ w. w.running_thread.thread) (λ s. s.running_thread.thread)
              (λ w. refl)
              (λ t. Follows-bind thread_of _ (spend_quantum-Follows thread_of t) (λ left.
                Follows-if thread_of _ _ (left == 0) _ _ _ _
                  (Follows-then thread_of _ _ _
                    (set_fastest_thread_after_quantum-Follows thread_of t))
                  (Follows-pure thread_of _ _ (returns tt))))))

  pub wait-Follows :
      (io : ℕ) → Follows thread_of false (λ e. e) (Windows.wait io) (Scheduler.wait io)
  unfolding Windows.wait Scheduler.wait
  wait-Follows io =
      Follows-ask thread_of _ (λ w. w.is_a_thread_running) (λ s. s.is_a_thread_running) (λ w. refl)
        (λ started.
          Follows-ask thread_of _ (λ w. w.io) (λ s. s.io) (λ w. refl)
            (λ devices.
              Follows-if thread_of _ _ (not started) _ _ _ _
                (Follows-pure thread_of _ _ (returns (pos 0)))
                (Follows-if thread_of _ _ (leb devices io) _ _ _ _
                  (Follows-pure thread_of _ _ (returns minus_one))
                  (Follows-ask thread_of _ (λ w. w.running_thread.thread)
                    (λ s. s.running_thread.thread) (λ w. refl)
                    (λ t.
                      Follows-bind thread_of
                        (λ p.
                          Linux.◌>>◌
                            (Linux.add_waiting (record {
                              pthread_id = p.pthread_id;
                              priority = p.priority;
                              io = io;
                            }))
                            (wait_end t))
                        (get_value-Follows thread_of t)
                        (λ p.
                          Follows-seq thread_of
                            (add_waiting-Follows thread_of (record {
                              pthread_id = p.pthread_id;
                              priority = p.priority;
                              io = io;
                            }))
                            (Follows-ask thread_of _ (λ w. is_empty_list w.ready_threads_pq)
                              (λ s. is_empty_list s.ready_threads_pq) (λ w. refl)
                              (λ idle. Follows-then thread_of _ _ _ (
                                Follows-if thread_of _ _ idle _ _ _ _
                                  (Follows-pure thread_of _ _ tt)
                                  (start_next-Follows thread_of))))))))))

  wake-at :
      (fuel io n : ℕ) (w : Windows.State.Scheduler)
      → Down w
      → Follows thread_of true
          (λ (k : ℕ). k)
          (Windows.wake_loop fuel io (n + 1))
          (Scheduler.wake_loop fuel io (n + 1))
      → (o : Option (WaitingPthread × List WaitingPthread))
      → Agrees thread_of true
          (λ (k : ℕ). k)
          (elim o [
            | none ↦ ok n w
            | some (x, rest) ↦ Windows.wake_loop fuel io (n + 1) (record w {
              waiting_threads = rest;
              ready_threads_pq = push_node_pq w.ready_threads_pq x.pthread_id x.priority;
            })
          ])
          (elim o [
            | none ↦ some (n, linux_state thread_of w)
            | some (x, rest) ↦
                Scheduler.wake_loop fuel io (n + 1) (record (linux_state thread_of w) {
                  waiting_threads = rest;
                  ready_threads_pq = push_node_pq w.ready_threads_pq x.pthread_id x.priority;
                })
          ])
  wake-at fuel io n w d ih none = (refl, λ h. d)
  wake-at fuel io n w d ih (some (x, rest)) =
      ih.at
        (record w {
          waiting_threads = rest;
          ready_threads_pq = push_node_pq w.ready_threads_pq x.pthread_id x.priority;
        })
        d

  wake_loop-Follows :
      (fuel io n : ℕ)
      → Follows thread_of true
          (λ k. k)
          (Windows.wake_loop fuel io n)
          (Scheduler.wake_loop fuel io n)
  unfolding Windows.wake_loop Scheduler.wake_loop
  wake_loop-Follows zero io n = record { at = λ w d. refl }
  wake_loop-Follows (suc fuel) io n = record {
    at = λ w d.
        wake-at fuel io n w d (wake_loop-Follows fuel io (n + 1))
          (pop_node_list (λ x. (if x.io == io then 0 else 1) == 0) w.waiting_threads);
  }

  pub signal-Follows :
      (io : ℕ) → Follows thread_of false (λ e. e) (Windows.signal io) (Scheduler.signal io)
  unfolding Windows.signal Scheduler.signal
  signal-Follows io =
      Follows-ask thread_of _ (λ w. w.io) (λ s. s.io) (λ w. refl)
        (λ devices.
          Follows-ask thread_of _ (λ w. w.is_a_thread_running) (λ s. s.is_a_thread_running)
            (λ w. refl)
            (λ started.
              Follows-ask thread_of _ (λ w. w.waiting_threads) (λ s. s.waiting_threads) (λ w. refl)
                (λ waiting.
                  Follows-if thread_of _ _ (leb devices io) _ _ _ _
                    (Follows-pure thread_of _ _ (returns minus_one))
                    (Follows-if thread_of _ _ (not started || is_empty_list waiting) _ _ _ _
                      (Follows-pure thread_of _ _ (returns (pos 0)))
                      (Follows-ask thread_of _ (λ w. w.running_thread.thread)
                        (λ s. s.running_thread.thread) (λ w. refl)
                        (λ t.
                          Follows-bind thread_of
                            (λ p.
                              Linux.◌>>◌ (Linux.push_ready p.pthread_id p.priority)
                                (signal_end (length waiting + 1) io t))
                            (get_value-Follows thread_of t)
                            (λ p.
                              Follows-seq thread_of
                                (push_ready-Follows thread_of p.pthread_id p.priority)
                                (Follows-bind thread_of _
                                  (wake_loop-Follows (length waiting + 1) io 0)
                                  (λ woken.
                                    Follows-then thread_of _ _ _
                                      (start_next-Follows thread_of))))))))))
