-- ===== src/Windows/Writes.antt =====
-- The reads and writes of Windows/so_scheduler.c against those of Linux/so_scheduler.c.
use mathlib.Core.Path.{fun_ext}
use thread_scheduler_multipl.Base.{
  ℕ, ◌+◌, ◌≡◌, refl, sym, ap, Bool, true, false, Option, none, some, List, [], ◌∷◌, ◌++◌, map,
  arith, if◌then◌else◌, ltb,
}
use thread_scheduler_multipl.PriorityQueue.{PqData, peak_pq}
use thread_scheduler_multipl.Scheduler.State.{PthreadParam, Scheduler, WaitingPthread, update}
use thread_scheduler_multipl.Scheduler.State as Linux
use thread_scheduler_multipl.Windows.State.{
  maximum_count, PthreadParam as WinParam, PthreadTable, Scheduler as WinScheduler, Outcome, ok,
  exits, crash, get_value, with_param, set_time_quantum, release_semaphore, put_value, push_ready,
  pop_ready, peak_ready, add_created, add_waiting,
}
use thread_scheduler_multipl.Windows.Follows.{
  linux_param, linux_entry, linux_state, Down, Agrees, Follows,
}

linux_entry-update :
    (table : PthreadTable) (t : ℕ) (p : WinParam)
    → ◌≡◌ {A = Linux.PthreadTable}
        (λ j. linux_entry (update table t (some p) j))
        (update (λ j. linux_entry (table j)) t (some (linux_param p)))
linux_entry-update table t p = fun_ext (λ j. ground arith)

-- A write to a thread's data, and to its counterpart's
pub linux-with_param :
    (thread_of : ℕ → ℕ) (w : WinScheduler) (t : ℕ) (p : WinParam)
    → linux_state thread_of (with_param w t p) ≡ record (linux_state thread_of w) {
      pthreads_data = update (linux_state thread_of w).pthreads_data t (some (linux_param p));
    }
linux-with_param thread_of w t p =
    ap (λ (table : Linux.PthreadTable). record (linux_state thread_of w) { pthreads_data = table })
      (linux_entry-update w.pthreads_data t p)

Down-with_param :
    (w : WinScheduler) (t : ℕ) (p : WinParam) → Down w → p.semaphore ≡ 0 → Down (with_param w t p)
Down-with_param w t p d e = λ j q h. ground (arith, d j q)

module _ (thread_of : ℕ → ℕ) where
  -- A read of a thread's entry
  Agrees-entry :
      {A B : Type 0} (quiet : Bool) (f : A → B) (o : Option WinParam) (k : WinParam → Outcome A)
      (k' : PthreadParam → Option (B × Scheduler))
      → ((p : WinParam) → o ≡ some p → Agrees thread_of quiet f (k p) (k' (linux_param p)))
      → Agrees thread_of quiet f
          (elim o [ none ↦ crash | some p ↦ k p ])
          (elim (linux_entry o) [ none ↦ none | some p ↦ k' p ])
  Agrees-entry quiet f none k k' h = refl
  Agrees-entry quiet f (some p) k k' h = h p refl

  pub get_value-Follows :
      (t : ℕ) → Follows thread_of true linux_param (get_value t) (Linux.get_value t)
  unfolding get_value
  get_value-Follows t = record {
    at = λ w d.
        Agrees-entry true linux_param (w.pthreads_data t) (λ p. ok p w)
          (λ p. some (p, linux_state thread_of w)) (λ p e. (refl, λ q. d));
  }

  -- A write to the data of `t` that leaves the semaphore as it is
  written :
      (t : ℕ) (p : WinParam) (w : WinScheduler)
      → Down w
      → p.semaphore ≡ 0
      → Agrees thread_of true
          (λ u. u)
          (ok tt (with_param w t p))
          (some (
            tt,
            record (linux_state thread_of w) {
              pthreads_data =
                  update (linux_state thread_of w).pthreads_data t (some (linux_param p));
            },
          ))
  written t p w d z = (
    ap (λ s. some (tt, s)) (sym (linux-with_param thread_of w t p)),
    λ h. Down-with_param w t p d z,
  )

  pub set_time_quantum-Follows :
      (t q : ℕ)
      → Follows thread_of true (λ u. u) (set_time_quantum t q) (Linux.set_time_quantum t q)
  unfolding set_time_quantum
  set_time_quantum-Follows t q = record {
    at = λ w d.
        Agrees-entry true (λ u. u) (w.pthreads_data t)
          (λ p. ok tt (with_param w t (record p { time_quantum = q })))
          (λ p. some (
            tt,
            record (linux_state thread_of w) {
              pthreads_data =
                  update (linux_state thread_of w).pthreads_data t
                    (some (record p { time_quantum = q }));
            },
          ))
          (λ p e. written t (record p { time_quantum = q }) w d (d t p e));
  }

  released :
      (t : ℕ) (p : WinParam) (w : WinScheduler)
      → p.semaphore ≡ 0
      → Agrees thread_of false
          (λ u. u)
          (if ltb maximum_count (p.semaphore + 1)
            then exits
            else ok tt (with_param w t (record p { semaphore = p.semaphore + 1 })))
          (some (
            tt,
            record (linux_state thread_of w) {
              pthreads_data =
                  update
                    (linux_state thread_of w).pthreads_data
                    t
                    (some (linux_param (record p { semaphore = p.semaphore + 1 })));
            },
          ))
  released t p w z =
      let free : ltb 1 (p.semaphore + 1) ≡ false = ground arith in
      rw free (
        ap (λ s. some (tt, s))
            (sym (linux-with_param thread_of w t (record p { semaphore = p.semaphore + 1 }))),
        λ h. absurd (cc),
      )

  pub release-Follows :
      (t : ℕ) → Follows thread_of false (λ u. u) (release_semaphore t) (Linux.sem_post t)
  unfolding release_semaphore
  release-Follows t = record {
    at = λ w d.
        Agrees-entry false (λ u. u) (w.pthreads_data t)
          (λ p.
            if ltb maximum_count (p.semaphore + 1)
            then exits
            else ok tt (with_param w t (record p { semaphore = p.semaphore + 1 })))
          (λ p. some (
            tt,
            record (linux_state thread_of w) {
              pthreads_data =
                  update (linux_state thread_of w).pthreads_data t
                    (some (record p { semaphore = p.semaphore + 1 }));
            },
          ))
          (λ p e. released t p w (d t p e));
  }

  put-at :
      (t : ℕ) (p : WinParam) (w : WinScheduler)
      → Down w
      → p.semaphore ≡ 0
      → (o : Option WinParam)
      → Agrees thread_of true
          (λ u. u)
          (elim o [ none ↦ ok tt (with_param w t p) | some old ↦ crash ])
          (elim (linux_entry o) [
            | none ↦ some (
              tt,
              record (linux_state thread_of w) {
                pthreads_data =
                    update (linux_state thread_of w).pthreads_data t (some (linux_param p));
              },
            )
            | some old ↦ none
          ])
  put-at t p w d z none = written t p w d z
  put-at t p w d z (some old) = refl

  pub put_value-Follows :
      (t : ℕ) (p : WinParam)
      → p.semaphore ≡ 0
      → Follows thread_of true (λ u. u) (put_value t p) (Linux.put_value t (linux_param p))
  unfolding put_value
  put_value-Follows t p z = record { at = λ w d. put-at t p w d z (w.pthreads_data t) }

  pub push_ready-Follows :
      (t priority : ℕ)
      → Follows thread_of true (λ u. u) (push_ready t priority) (Linux.push_ready t priority)
  unfolding push_ready
  push_ready-Follows t priority = record { at = λ w d. (refl, λ h. d) }

  pub pop_ready-Follows : Follows thread_of true (λ u. u) pop_ready Linux.pop_ready
  unfolding pop_ready
  pop_ready-Follows = record { at = λ w d. (refl, λ h. d) }

  peak-at :
      (w : WinScheduler)
      → Down w
      → (o : Option PqData)
      → Agrees thread_of true
          (λ (x : PqData). x)
          (elim o [ none ↦ crash | some x ↦ ok x w ])
          (elim o [ none ↦ none | some x ↦ some (x, linux_state thread_of w) ])
  peak-at w d none = refl
  peak-at w d (some x) = (refl, λ h. d)

  pub peak_ready-Follows : Follows thread_of true (λ x. x) peak_ready Linux.peak_ready
  unfolding peak_ready
  peak_ready-Follows = record { at = λ w d. peak-at w d (peak_pq w.ready_threads_pq) }

  map-snoc :
      (hs : List ℕ) (h : ℕ)
      → map thread_of (hs ++ (h ∷ [])) ≡ map thread_of hs ++ (thread_of h ∷ [])
  map-snoc [] h = refl
  map-snoc (x ∷ hs) h = ap (λ ts. thread_of x ∷ ts) (map-snoc hs h)

  pub add_created-Follows :
      (h : ℕ) → Follows thread_of true (λ u. u) (add_created h) (Linux.add_created (thread_of h))
  unfolding add_created
  add_created-Follows h = record { at = λ w d. (rw (map-snoc w.pthreads_created h) refl, λ q. d) }

  pub add_waiting-Follows :
      (x : WaitingPthread) → Follows thread_of true (λ u. u) (add_waiting x) (Linux.add_waiting x)
  unfolding add_waiting
  add_waiting-Follows x = record { at = λ w d. (refl, λ h. d) }
