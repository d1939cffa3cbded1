-- ===== src/Concrete/Machine.antt =====
-- The threads of a program that uses the scheduler in memory, interleaved at the semaphores. A
-- thread that is parked waits on the semaphore of the struct at an address.
use thread_scheduler_multipl.Base.{
  ℕ, suc, ◌+◌, ◌≤◌, ◌<◌, ◌^◌, ◌≡◌, ◌≢◌, Bool, Option, none, some, ◌||◌, ◌==◌, ltb, if◌then◌else◌,
}
use thread_scheduler_multipl.Scheduler.State.{
  so_max_prio, so_max_num_events, PthreadParam, Exit, returns, sem_wait, update,
}
use thread_scheduler_multipl.Machine.{
  Pc, unborn, parked, active, ended, Request, exec_request, wait_request, signal_request,
  fork_request, IsFresh, park,
}
use thread_scheduler_multipl.Concrete.State.{Store, with_param, fresh_address}
use thread_scheduler_multipl.Concrete.{initialized, fork, exec, wait, signal, finish_thread}

pub record System : Type 0 where
  pub store : Store
  pub pc : ℕ → Pc

abbrev pub system : Store → (ℕ → Pc) → System
system c pc = record { store = c; pc = pc }

-- The struct whose semaphore a call ends at
abbrev pub parks : {A : Type 0} → Option (Exit A × Store) → Option (Option ℕ × Store)
parks none = none
parks (some (returns a, c)) = some (none, c)
parks (some (sem_wait p a, c)) = some (some p, c)

-- Fewer than 2^32 - 2 threads have been created.
abbrev pub HasSpace : Store → Type 0
HasSpace c = c.pthreads_created.size + 2 < 2 ^ 32

module _ (malloc : (ℕ → Bool) → ℕ → ℕ) (garbage : ℕ) where
  abbrev pub run : Request → Store → Option (Option ℕ × Store)
  run exec_request c = parks (exec malloc garbage c)
  run (wait_request io) c = parks (wait malloc garbage io c)
  run (signal_request io) c = parks (signal malloc garbage io c)
  run (fork_request func priority new) c = parks (fork malloc garbage func priority new c)

  -- A thread that `so_fork` creates begins at the `sem_wait` of `start_thread`, on the struct that
  -- `so_fork` allocates for it before anything else.
  abbrev pub spawn : Request → Store → (ℕ → Pc) → ℕ → Pc
  spawn (fork_request func priority new) c pc =
      if ltb so_max_prio priority || func == 0
      then pc
      else update pc new (parked (fresh_address malloc garbage c))
  spawn _ c pc = pc

  pub data Step (u : System) : System → Type 0 where
    -- `sem_wait` returns: the semaphore's value was not 0, and falls by one.
    wake :
        (t a : ℕ) (p : PthreadParam) (n : ℕ)
        → u.pc t ≡ parked a
        → u.store.params a ≡ some p
        → p.semaphore ≡ suc n
        → Step u (system (with_param u.store a (record p { semaphore = n })) (update u.pc t active))
    call :
        (t : ℕ) (r : Request) {stop : Option ℕ} {c : Store}
        → u.pc t ≡ active
        → IsFresh u.pc r
        → HasSpace u.store
        → run r u.store ≡ some (stop, c)
        → Step u (system c (park t stop (spawn r u.store u.pc)))
    finish :
        (t : ℕ) {c : Store}
        → u.pc t ≡ active
        → finish_thread u.store ≡ some (tt, c)
        → Step u (system c (update u.pc t ended))

  -- `main` initializes the scheduler and forks the first thread, `new`; no id is given twice.
  pub data Reach (time_quantum io : ℕ) : System → Type 0 where
    start :
        (func priority new : ℕ) {e : Exit ℕ} {c : Store}
        → 0 < time_quantum
        → time_quantum < 2 ^ 32
        → io ≤ so_max_num_events
        → func ≢ 0
        → priority ≤ so_max_prio
        → new ≢ 0
        → fork malloc garbage func priority new (initialized time_quantum io) ≡ some (e, c)
        → Reach time_quantum io (
            system c (
              update
                (λ _. unborn)
                new
                (parked (fresh_address malloc garbage (initialized time_quantum io)))))
    later : {u v : System} → Reach time_quantum io u → Step u v → Reach time_quantum io v
