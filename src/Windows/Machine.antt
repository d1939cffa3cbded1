-- ===== src/Windows/Machine.antt =====
-- The threads of a program that uses the scheduler on Windows, interleaved at the semaphores.
use thread_scheduler_multipl.Base.{ℕ, suc, ◌≤◌, ◌<◌, ◌^◌, ◌≡◌, ◌≢◌, Option, none, some}
use thread_scheduler_multipl.Scheduler.State.{
  so_max_prio, so_max_num_events, Exit, returns, sem_wait, update,
}
use thread_scheduler_multipl.Machine
use thread_scheduler_multipl.Machine.{Pc, unborn, parked, active, ended}
use thread_scheduler_multipl.Windows.State.{
  PthreadParam, Scheduler, Outcome, ok, exits, crash, with_param,
}
use thread_scheduler_multipl.Windows.{initialized, fork, exec, wait, signal, finish_thread}
use thread_scheduler_multipl.Windows.Follows.{linux_state}

pub record System : Type 0 where
  pub sched : Scheduler
  pub pc : ℕ → Pc

abbrev pub system : Scheduler → (ℕ → Pc) → System
system w pc = record { sched = w; pc = pc }

-- The calls that a handler makes; `CreateThread` gives the id `new` and the handle `h`.
pub data Request : Type 0 where
  exec_request : Request
  wait_request : (io : ℕ) → Request
  signal_request : (io : ℕ) → Request
  fork_request : (func priority new h : ℕ) → Request

-- The semaphore that a call ends at
abbrev pub parks : {A : Type 0} → Outcome (Exit A) → Outcome (Option ℕ)
parks (ok (returns a) w) = ok none w
parks (ok (sem_wait t a) w) = ok (some t) w
parks exits = exits
parks crash = crash

abbrev pub run : Request → Scheduler → Outcome (Option ℕ)
run exec_request w = parks (exec w)
run (wait_request io) w = parks (wait io w)
run (signal_request io) w = parks (signal io w)
run (fork_request func priority new h) w = parks (fork func priority new h w)

-- The same call on Linux
abbrev pub linux_request : Request → Machine.Request
linux_request exec_request = Machine.Request.exec_request
linux_request (wait_request io) = Machine.Request.wait_request io
linux_request (signal_request io) = Machine.Request.signal_request io
linux_request (fork_request func priority new h) = Machine.Request.fork_request func priority new

-- `thread_of` is the id of the thread that a handle stands for.
module _ (thread_of : ℕ → ℕ) where
  abbrev pub linux_system : System → Machine.System
  linux_system u = Machine.system (linux_state thread_of u.sched) u.pc

  abbrev pub HasHandle : Request → Type 0
  HasHandle (fork_request func priority new h) = thread_of h ≡ new
  HasHandle _ = Unit

  pub data Step (u : System) : System → Type 0 where
    -- `WaitForSingleObject` returns: the count was not 0, and falls by one.
    wake :
        (t owner : ℕ) (p : PthreadParam) (n : ℕ)
        → u.pc t ≡ parked owner
        → u.sched.pthreads_data owner ≡ some p
        → p.semaphore ≡ suc n
        → Step u
            (system (with_param u.sched owner (record p { semaphore = n })) (update u.pc t active))
    call :
        (t : ℕ) (r : Request) {stop : Option ℕ} {w : Scheduler}
        → u.pc t ≡ active
        → Machine.IsFresh u.pc (linux_request r)
        → HasHandle r
        → run r u.sched ≡ ok stop w
        → Step u (system w (Machine.park t stop (Machine.spawn (linux_request r) u.pc)))
    finish :
        (t : ℕ) {w : Scheduler}
        → u.pc t ≡ active
        → finish_thread u.sched ≡ ok tt w
        → Step u (system w (update u.pc t ended))

  -- `main` initializes the scheduler and forks the first thread, `new`.
  pub data Reach (time_quantum io : ℕ) : System → Type 0 where
    start :
        (func priority new h : ℕ) {e : Exit ℕ} {w : Scheduler}
        → 0 < time_quantum
        → time_quantum < 2 ^ 32
        → io ≤ so_max_num_events
        → func ≢ 0
        → priority ≤ so_max_prio
        → new ≢ 0
        → thread_of h ≡ new
        → fork func priority new h (initialized time_quantum io) ≡ ok e w
        → Reach time_quantum io (system w (update (λ _. unborn) new (parked new)))
    later : {u v : System} → Reach time_quantum io u → Step u v → Reach time_quantum io v
