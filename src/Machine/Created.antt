-- ===== src/Machine/Created.antt =====
-- The list of created threads: which commands leave it, and what `so_fork` adds.
use thread_scheduler_multipl.Base.{
  ℕ, zero, suc, ◌+◌, refl, true, not, Option, none, some, List, [], ◌∷◌, ◌++◌, ◌||◌, ◌==◌, ltb, leb,
  if◌then◌else◌, inl, inr, arith, Bool-cases, pos, minus_one, length, dec_u32,
}
use thread_scheduler_multipl.LinkedList.{is_empty_list, pop_node_list}
use thread_scheduler_multipl.PriorityQueue.{PqData, push_node_pq}
use thread_scheduler_multipl.Scheduler.State.{
  so_max_prio, PthreadParam, WaitingPthread, Scheduler, ◌>>=◌, ◌>>◌, returns, sem_wait, asks,
  put_value, push_ready, add_created, add_waiting,
}
use thread_scheduler_multipl.Scheduler.{
  start_next, set_fastest_thread_after_quantum, finish_thread, create_thread, preempt,
  spend_quantum, reschedule_after_fork, start_first, fork, exec, wait, wake_loop, signal,
}
use thread_scheduler_multipl.Machine.Leaves.{
  CreatedAs, Leaves, Adds, Leaves-bind, Adds-bind, Adds-later, Leaves-pure, Leaves-asks, Leaves-if,
  Leaves-seq, Leaves-get_value, Leaves-peak_ready, Leaves-set_fastest, Leaves-sem_post,
  Leaves-set_time_quantum, Leaves-push_ready, Leaves-pop_ready, Leaves-take,
}

Leaves-start_next : Leaves start_next
unfolding start_next
Leaves-start_next =
    Leaves-bind _ _ Leaves-peak_ready (λ max.
      Leaves-seq (Leaves-take max) (Leaves-seq Leaves-pop_ready (Leaves-sem_post max.thread)))

pub Leaves-finish_thread : Leaves finish_thread
unfolding finish_thread
Leaves-finish_thread =
    Leaves-bind _ _ (Leaves-asks (λ s. is_empty_list s.ready_threads_pq))
      (λ idle. Leaves-if idle _ _ (Leaves-pure tt) Leaves-start_next)

Leaves-after_quantum : (t : ℕ) → Leaves (set_fastest_thread_after_quantum t)
unfolding set_fastest_thread_after_quantum
Leaves-after_quantum t = Leaves-bind _ _ (Leaves-asks (λ s. s.time_quantum)) (λ q.
    Leaves-seq (Leaves-set_time_quantum t q) (
      Leaves-bind _ _ (Leaves-get_value t)
        (λ p. Leaves-seq (Leaves-push_ready p.pthread_id p.priority) Leaves-start_next)))

Leaves-spend_quantum : (t : ℕ) → Leaves (spend_quantum t)
unfolding spend_quantum
Leaves-spend_quantum t = Leaves-bind _ _ (Leaves-get_value t) (λ p.
    Leaves-seq (Leaves-set_time_quantum t (dec_u32 p.time_quantum))
      (Leaves-pure (dec_u32 p.time_quantum)))

Leaves-preempt : (t : ℕ) (max : PqData) → Leaves (preempt t max)
unfolding preempt
Leaves-preempt t max = Leaves-seq (Leaves-take max) (
    Leaves-seq Leaves-pop_ready (
      Leaves-bind _ _ (Leaves-get_value t)
        (λ p. Leaves-seq (Leaves-push_ready p.pthread_id p.priority) (Leaves-sem_post max.thread))))

Leaves-reschedule : (new : ℕ) → Leaves (reschedule_after_fork new)
unfolding reschedule_after_fork
Leaves-reschedule new = Leaves-bind _ _ (Leaves-asks (λ s. s.running_thread.thread)) (λ t.
    Leaves-bind _ _ (Leaves-spend_quantum t) (λ left.
      Leaves-bind _ _ (Leaves-asks (λ s. is_empty_list s.ready_threads_pq)) (λ idle.
        Leaves-if (left == 0) _ _
          (Leaves-seq (Leaves-after_quantum t) (Leaves-pure (sem_wait t new)))
          (Leaves-if idle _ _ (Leaves-pure (returns new)) (
            Leaves-bind _ _ Leaves-peak_ready (λ max.
              Leaves-bind _ _ (Leaves-asks (λ s. s.running_thread.priority)) (λ running.
                Leaves-if (ltb running max.priority) _ _
                  (Leaves-seq (Leaves-preempt t max) (Leaves-pure (sem_wait t new)))
                  (Leaves-pure (returns new)))))))))

Leaves-start_first : (new : ℕ) → Leaves (start_first new)
unfolding start_first
Leaves-start_first new =
    Leaves-seq {m = λ s. some (tt, record s { is_a_thread_running = true })}
      (record { at = λ s. refl })
      (Leaves-bind _ _ Leaves-peak_ready (λ max. Leaves-seq (Leaves-set_fastest max) (
        Leaves-seq Leaves-pop_ready
          (Leaves-seq (Leaves-sem_post new) (Leaves-pure (returns new))))))

pub Leaves-exec : Leaves exec
unfolding exec
Leaves-exec = Leaves-bind _ _ (Leaves-asks (λ s. s.is_a_thread_running)) (λ started.
    Leaves-if (not started) _ _ (Leaves-pure (returns tt)) (
      Leaves-bind _ _ (Leaves-asks (λ s. s.running_thread.thread)) (λ t.
        Leaves-bind _ _ (Leaves-spend_quantum t) (λ left.
          Leaves-if (left == 0) _ _
            (Leaves-seq (Leaves-after_quantum t) (Leaves-pure (sem_wait t tt)))
            (Leaves-pure (returns tt))))))

pub Leaves-wait : (io : ℕ) → Leaves (wait io)
unfolding wait
Leaves-wait io = Leaves-bind _ _ (Leaves-asks (λ s. s.is_a_thread_running)) (λ started.
    Leaves-bind _ _ (Leaves-asks (λ s. s.io)) (λ devices.
      Leaves-if (not started) _ _ (Leaves-pure (returns (pos 0))) (
        Leaves-if (leb devices io) _ _ (Leaves-pure (returns minus_one)) (
          Leaves-bind _ _ (Leaves-asks (λ s. s.running_thread.thread)) (λ t.
            Leaves-bind _ _ (Leaves-get_value t) (λ p.
              Leaves-seq
                {m = add_waiting
                  (record { pthread_id = p.pthread_id; priority = p.priority; io = io })}
                (record { at = λ s. refl })
                (Leaves-bind _ _ (Leaves-asks (λ s. is_empty_list s.ready_threads_pq)) (λ idle.
                  Leaves-seq (Leaves-if idle _ _ (Leaves-pure tt) Leaves-start_next)
                    (Leaves-pure (sem_wait t (pos 0)))))))))))

wake-CreatedAs :
    (fuel io n : ℕ) (s : Scheduler)
    → Leaves (wake_loop fuel io (n + 1))
    → (o : Option (WaitingPthread × List WaitingPthread))
    → CreatedAs s.pthreads_created (elim o [
      | none ↦ some (n, s)
      | some (w, rest) ↦ wake_loop fuel io (n + 1) (record s {
        waiting_threads = rest;
        ready_threads_pq = push_node_pq s.ready_threads_pq w.pthread_id w.priority;
      })
    ])
wake-CreatedAs fuel io n s ih none = refl
wake-CreatedAs fuel io n s ih (some (w, rest)) = ih.at (record s {
  waiting_threads = rest;
  ready_threads_pq = push_node_pq s.ready_threads_pq w.pthread_id w.priority;
})

Leaves-wake_loop : (fuel io n : ℕ) → Leaves (wake_loop fuel io n)
unfolding wake_loop
Leaves-wake_loop zero io n = record { at = λ s. tt }
Leaves-wake_loop (suc fuel) io n = record {
  at = λ s.
      wake-CreatedAs fuel io n s (Leaves-wake_loop fuel io (n + 1))
        (pop_node_list (λ w. (if w.io == io then 0 else 1) == 0) s.waiting_threads);
}

pub Leaves-signal : (io : ℕ) → Leaves (signal io)
unfolding signal
Leaves-signal io = Leaves-bind _ _ (Leaves-asks (λ s. s.io)) (λ devices.
    Leaves-bind _ _ (Leaves-asks (λ s. s.is_a_thread_running)) (λ started.
      Leaves-bind _ _ (Leaves-asks (λ s. s.waiting_threads)) (λ waiting.
        Leaves-if (leb devices io) _ _ (Leaves-pure (returns minus_one)) (
          Leaves-if (not started || is_empty_list waiting) _ _ (Leaves-pure (returns (pos 0))) (
            Leaves-bind _ _ (Leaves-asks (λ s. s.running_thread.thread)) (λ t.
              Leaves-bind _ _ (Leaves-get_value t) (λ p.
                Leaves-seq (Leaves-push_ready p.pthread_id p.priority) (
                  Leaves-bind _ _ (Leaves-wake_loop (length waiting + 1) io 0) (λ woken.
                    Leaves-seq Leaves-start_next (Leaves-pure (sem_wait t (pos woken))))))))))))

Leaves-put_value : (t : ℕ) (p : PthreadParam) → Leaves (put_value t p)
Leaves-put_value t p = record { at = λ s. ground arith }

Adds-create_thread : (func priority new : ℕ) → Adds new (create_thread func priority new)
unfolding create_thread
Adds-create_thread func priority new =
    Adds-later new _ _ (Leaves-asks (λ s. s.time_quantum)) (λ quantum.
      Adds-bind new (add_created new)
        (λ _.
          push_ready new priority
          >> put_value new (record {
            semaphore = 0;
            pthread_id = new;
            func = func;
            priority = priority;
            time_quantum = quantum;
          }))
        (record { at = λ s. refl })
        (λ _. Leaves-seq (Leaves-push_ready new priority) (Leaves-put_value new _)))

-- `so_fork` adds the new thread, unless it returns at its guard.
pub fork-created :
    (func priority new : ℕ) (s : Scheduler)
    → CreatedAs
        (if ltb so_max_prio priority || func == 0
          then s.pthreads_created
          else s.pthreads_created ++ (new ∷ []))
        (fork func priority new s)
unfolding fork
fork-created func priority new s = elim (Bool-cases (ltb so_max_prio priority || func == 0)) [
  | inl bad ↦ rw bad refl
  | inr fine ↦ rw fine (
      (Adds-bind new (create_thread func priority new)
          (λ _. asks (λ u. u.is_a_thread_running) >>= λ started.
            if started then reschedule_after_fork new else start_first new)
          (Adds-create_thread func priority new)
          (λ _.
            Leaves-bind _ _ (Leaves-asks (λ u. u.is_a_thread_running)) (λ started.
              Leaves-if started _ _ (Leaves-reschedule new) (Leaves-start_first new)))).at
        s)
]
