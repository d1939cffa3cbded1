-- ===== src/Machine.antt =====
-- The threads of a program that uses the scheduler, interleaved at the semaphores. A thread may
-- make any call at any time, so every handler is covered. What a function does between two of its
-- semaphore operations is one step.
pub mod Invariant
pub mod Handover
pub mod Waiters
pub mod Active
pub mod Exec
pub mod Wait
pub mod Signal
pub mod Fork
pub mod Finish
pub mod Start
pub mod Safety
pub mod Preemption
pub mod Quantum
pub mod Leaves
pub mod Created
pub mod Grows
pub mod Join
pub mod Room
pub mod Ids
use thread_scheduler_multipl.Base.{
  ℕ, suc, ◌≤◌, ◌<◌, ◌^◌, ◌≡◌, ◌≢◌, Option, none, some, ◌||◌, ◌==◌, ltb, if◌then◌else◌,
}
use thread_scheduler_multipl.Scheduler.State.{
  so_max_prio, so_max_num_events, Scheduler, PthreadParam, Exit, returns, sem_wait, update,
}
use thread_scheduler_multipl.Scheduler.{initialized, fork, exec, wait, signal, finish_thread}

-- Where a thread stands.
pub data Pc : Type 0 where
  unborn : Pc  -- `pthread_create` has not given the id
  parked : (owner : ℕ) → Pc  -- in `sem_wait` on the semaphore of `owner`
  active : Pc  -- in its handler
  ended : Pc  -- `start_thread` has returned

pub record System : Type 0 where
  pub sched : Scheduler
  pub pc : ℕ → Pc

abbrev pub system : Scheduler → (ℕ → Pc) → System
system s pc = record { sched = s; pc = pc }

-- The calls that a handler makes; `new` is the id that `pthread_create` gives.
pub data Request : Type 0 where
  exec_request : Request
  wait_request : (io : ℕ) → Request
  signal_request : (io : ℕ) → Request
  fork_request : (func priority new : ℕ) → Request

-- The semaphore that a call ends at.
abbrev pub parks : {A : Type 0} → Option (Exit A × Scheduler) → Option (Option ℕ × Scheduler)
parks none = none
parks (some (returns a, s)) = some (none, s)
parks (some (sem_wait t a, s)) = some (some t, s)

abbrev pub run : Request → Scheduler → Option (Option ℕ × Scheduler)
run exec_request s = parks (exec s)
run (wait_request io) s = parks (wait io s)
run (signal_request io) s = parks (signal io s)
run (fork_request func priority new) s = parks (fork func priority new s)

-- `pthread_create` gives an id that is not 0 and that no thread has had. The id of a thread that
-- has been joined may be given again, too: that call is in Machine/Ids.antt.
abbrev pub IsFresh : (ℕ → Pc) → Request → Type 0
IsFresh pc (fork_request func priority new) = (pc new ≡ Pc.unborn) × (new ≢ 0)
IsFresh pc _ = Unit

-- A thread that `so_fork` creates begins at the `sem_wait` of `start_thread`.
abbrev pub spawn : Request → (ℕ → Pc) → ℕ → Pc
spawn (fork_request func priority new) pc =
    if ltb so_max_prio priority || func == 0 then pc else update pc new (Pc.parked new)
spawn _ pc = pc

abbrev pub park : ℕ → Option ℕ → (ℕ → Pc) → ℕ → Pc
park t none pc = pc
park t (some owner) pc = update pc t (Pc.parked owner)

pub data Step (s : System) : System → Type 0 where
  -- `sem_wait` returns: the semaphore's value was not 0, and falls by one.
  wake :
      (t owner : ℕ) (p : PthreadParam) (n : ℕ)
      → s.pc t ≡ Pc.parked owner
      → s.sched.pthreads_data owner ≡ some p
      → p.semaphore ≡ suc n
      → Step s (
          system
            (record s.sched {
              pthreads_data =
                  update s.sched.pthreads_data owner (some (record p { semaphore = n }));
            })
            (update s.pc t Pc.active))
  call :
      (t : ℕ) (r : Request) {stop : Option ℕ} {s' : Scheduler}
      → s.pc t ≡ Pc.active
      → IsFresh s.pc r
      → run r s.sched ≡ some (stop, s')
      → Step s (system s' (park t stop (spawn r s.pc)))
  finish :
      (t : ℕ) {s' : Scheduler}
      → s.pc t ≡ Pc.active
      → finish_thread s.sched ≡ some (tt, s')
      → Step s (system s' (update s.pc t Pc.ended))

-- `main` initializes the scheduler and forks the first thread, `new`; no id is given twice.
pub data Reach (time_quantum io : ℕ) : System → Type 0 where
  start :
      (func priority new : ℕ) {e : Exit ℕ} {s : Scheduler}
      → 0 < time_quantum
      → time_quantum < 2 ^ 32
      → io ≤ so_max_num_events
      → func ≢ 0
      → priority ≤ so_max_prio
      → new ≢ 0
      → fork func priority new (initialized time_quantum io) ≡ some (e, s)
      → Reach time_quantum io (system s (update (λ _. Pc.unborn) new (Pc.parked new)))
  later : {s u : System} → Reach time_quantum io s → Step s u → Reach time_quantum io u
