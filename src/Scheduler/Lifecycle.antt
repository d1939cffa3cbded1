-- ===== src/Scheduler/Lifecycle.antt =====
-- `so_init`, `so_end`, and what the calls do on errors.
use thread_scheduler_multipl.Base.{
  ℕ, ◌≤◌, ◌<◌, ◌≡◌, ◌↔◌, refl, Bool, true, Option, none, some, List, [], ◌∷◌, pos, minus_one, All,
  arith, Bool-cases, inl, inr, ◌⊎◌,
}
use thread_scheduler_multipl.Scheduler.State.{
  so_max_num_events, Scheduler, SoScheduler, zeroed, live, returns,
}
use thread_scheduler_multipl.Scheduler.{so_init, join_loop, so_end, wait, signal}

-- `so_init` returns 0 exactly if the scheduler is not initialized, the quantum is not 0 and there
-- are at most `so_max_num_events` devices; otherwise it returns -1 and changes nothing.
pub so_init_lem :
    (time_quantum io : ℕ) (g : SoScheduler)
    → (((so_init time_quantum io g).0 ≡ pos 0)
        ↔ ((g ≡ zeroed) × (0 < time_quantum) × (io ≤ so_max_num_events)))
      × (((so_init time_quantum io g).0 ≡ pos 0) ⊎ (so_init time_quantum io g ≡ (minus_one, g)))
unfolding so_init
so_init_lem time_quantum io zeroed = (ground arith, ground arith)
so_init_lem time_quantum io (live s) = (ground arith, inr refl)

join_loop_iff :
    (ended : ℕ → Bool) (ts : List ℕ) → (join_loop ended ts ≡ some tt) ↔ All (λ t. ended t ≡ true) ts
unfolding join_loop
join_loop_iff ended [] = (λ e. tt, λ h. refl)
join_loop_iff ended (t ∷ ts) =
    let (f, g) = join_loop_iff ended ts in
    elim (Bool-cases (ended t)) [
      | inl done ↦ rw done (λ e. (refl, f e), λ h. g h.1)
      | inr blocked ↦ (λ e. absurd (ground arith), λ h. absurd (ground arith))
    ]

-- `so_end` of an initialized scheduler returns, with the scheduler zeroed, exactly if every thread
-- in the list of created threads has ended.
pub so_end_lem :
    (ended : ℕ → Bool) (s : Scheduler)
    → ((so_end ended (live s) ≡ some zeroed) ↔ All (λ t. ended t ≡ true) s.pthreads_created)
unfolding so_end
so_end_lem ended s =
    go (join_loop ended s.pthreads_created) (join_loop_iff ended s.pthreads_created)
  where
    never : ◌≡◌ {A = Option (Unit {0})} none (some tt) → ⊥
    never h = cc

    go :
        (o : Option (Unit {0}))
        → ((o ≡ some tt) ↔ All (λ t. ended t ≡ true) s.pthreads_created)
        → ((elim o [ none ↦ none | some u ↦ some zeroed ]) ≡ some zeroed)
          ↔ All (λ t. ended t ≡ true) s.pthreads_created
    go none e = (λ h. cc, λ h. absurd (never (e.1 h)))
    go (some u) e = (λ h. e.0 refl, λ h. refl)

wait_error :
    (io : ℕ) (s s' : Scheduler)
    → wait io s ≡ some (returns minus_one, s')
    → (s' ≡ s) × (s.is_a_thread_running ≡ true) × (s.io ≤ io)
unfolding wait
wait_error io s s' e = ground arith

signal_error :
    (io : ℕ) (s s' : Scheduler)
    → signal io s ≡ some (returns minus_one, s')
    → (s' ≡ s) × (s.io ≤ io)
unfolding signal
signal_error io s s' e = ground arith

wait_refused :
    (io : ℕ) (s s' : Scheduler)
    → (s' ≡ s) × (s.is_a_thread_running ≡ true) × (s.io ≤ io)
    → wait io s ≡ some (returns minus_one, s')
unfolding wait
wait_refused io s s' (e, started, beyond) = ground (arith, e, started, beyond)

signal_refused :
    (io : ℕ) (s s' : Scheduler)
    → (s' ≡ s) × (s.io ≤ io)
    → signal io s ≡ some (returns minus_one, s')
unfolding signal
signal_refused io s s' (e, beyond) = ground (arith, e, beyond)

-- `so_wait` returns -1 exactly if a thread is running and the device number is not below the number
-- of devices, and `so_signal` exactly if the device number is not below the number of devices; the
-- call has then changed nothing.
pub errors_iff :
    (io : ℕ) (s s' : Scheduler)
    → ((wait io s ≡ some (returns minus_one, s'))
        ↔ ((s' ≡ s) × (s.is_a_thread_running ≡ true) × (s.io ≤ io)))
      × ((signal io s ≡ some (returns minus_one, s')) ↔ ((s' ≡ s) × (s.io ≤ io)))
errors_iff io s s' =
    ((wait_error io s s', wait_refused io s s'), (signal_error io s s', signal_refused io s s'))
