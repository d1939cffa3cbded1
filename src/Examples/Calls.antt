-- ===== src/Examples/Calls.antt =====
-- Calls on a scheduler with two waiting threads.
use thread_scheduler_multipl.Base.{
  minus_one, ◌↔◌, true, ℕ, ◌+◌, ◌≡◌, ◌≤◌, ◌<◌, ◌↔◌, ◌⊎◌, true, some, [], ◌∷◌, arith, length, pos,
  minus_one, All, ◌==◌,
}
use thread_scheduler_multipl.Scheduler.State.{
  returns, Scheduler, zeroed, live, WaitingPthread, so_max_num_events,
}
use thread_scheduler_multipl.Scheduler.{signal, initialized, so_init, so_end, wait, wake_loop}
use thread_scheduler_multipl.Scheduler.Wake.{waiting_for, after_wake, wake_loop_lem}
use thread_scheduler_multipl.Scheduler.Lifecycle.{so_init_lem, so_end_lem, errors_iff}

abbrev waiter : ℕ → ℕ → WaitingPthread
waiter t io = record { pthread_id = t; priority = 2; io = io }

abbrev two_wait : Scheduler
two_wait = record (initialized 2 3) {
  waiting_threads = waiter 7 1 ∷ waiter 8 0 ∷ [];
  pthreads_created = 7 ∷ 8 ∷ [];
  is_a_thread_running = true;
}

wake_loop_example :
    wake_loop 3 1 0 two_wait
    ≡ some (0 + length (waiting_for 1 two_wait.waiting_threads), after_wake 1 two_wait)
wake_loop_example = wake_loop_lem 3 1 0 two_wait (omega arith)

so_init_example :
    (((so_init 2 3 zeroed).0 ≡ pos 0) ↔ ((zeroed ≡ zeroed) × (0 < 2) × (3 ≤ so_max_num_events)))
    × (((so_init 2 3 zeroed).0 ≡ pos 0) ⊎ (so_init 2 3 zeroed ≡ (minus_one, zeroed)))
so_init_example = so_init_lem 2 3 zeroed

so_end_example :
    (so_end (λ t. t == 7) (live two_wait) ≡ some zeroed)
    ↔ All (λ t. (t == 7) ≡ true) two_wait.pthreads_created
so_end_example = so_end_lem (λ t. t == 7) two_wait

errors_iff_example :
    ((wait 3 two_wait ≡ some (returns minus_one, two_wait))
      ↔ ((two_wait ≡ two_wait) × (two_wait.is_a_thread_running ≡ true) × (two_wait.io ≤ 3)))
    × ((signal 3 two_wait ≡ some (returns minus_one, two_wait))
        ↔ ((two_wait ≡ two_wait) × (two_wait.io ≤ 3)))
errors_iff_example = errors_iff 3 two_wait two_wait
