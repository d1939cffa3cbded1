-- ===== src/Machine/Start.antt =====
-- The first fork, and the induction on steps.
use thread_scheduler_multipl.Base.{
  ℕ, ◌≤◌, ◌<◌, ◌^◌, ◌≡◌, ◌≢◌, refl, true, false, Option, none, some, [], ◌∷◌, arith, ◌||◌, ◌==◌,
  ltb,
}
use thread_scheduler_multipl.PriorityQueue.{pq_data, push_node_pq}
use thread_scheduler_multipl.Scheduler.State.{
  so_max_prio, PthreadParam, Scheduler, update, Exit, returns,
}
use thread_scheduler_multipl.Scheduler.{initialized, fork}
use thread_scheduler_multipl.Machine.{
  Pc, unborn, active, parked, System, Request, exec_request, wait_request, signal_request,
  fork_request, IsFresh, spawn, park, run, Step, wake, call, finish, Reach, start, later,
}
use thread_scheduler_multipl.Machine.Invariant.{Inv}
use thread_scheduler_multipl.Machine.Active.{Ends, update-update}
use thread_scheduler_multipl.Machine.Exec.{exec-Ends}
use thread_scheduler_multipl.Machine.Wait.{wait-Ends}
use thread_scheduler_multipl.Machine.Signal.{signal-Ends}
use thread_scheduler_multipl.Machine.Fork.{fork-Ends}
use thread_scheduler_multipl.Machine.Finish.{finish-Settles, wake-Inv}

-- Any call of the active thread.
pub run-Ends :
    {s : Scheduler} {pc : ℕ → Pc} (t : ℕ) (r : Request)
    → Inv s pc
    → pc t ≡ active
    → IsFresh pc r
    → Ends t (spawn r pc) (run r s)
run-Ends t exec_request inv act fresh = exec-Ends t inv act
run-Ends t (wait_request io) inv act fresh = wait-Ends t io inv act
run-Ends t (signal_request io) inv act fresh = signal-Ends t io inv act
run-Ends t (fork_request func priority new) inv act fresh =
    fork-Ends t func priority new inv act fresh.0

pub Step-Inv : {s u : System} → Step s u → Inv s.sched s.pc → Inv u.sched u.pc
Step-Inv (wake t owner p n park e up) inv = wake-Inv t owner p n inv park e up
Step-Inv {s} (call t r act fresh e) inv = rw e at (run-Ends t r inv act fresh)
Step-Inv {s} (finish t act e) inv = rw e at (finish-Settles t inv act)

abbrev pub first_param : (func priority new quantum : ℕ) → PthreadParam
first_param func priority new quantum = record {
  semaphore = 1;
  pthread_id = new;
  func = func;
  priority = priority;
  time_quantum = quantum;
}

-- The state after the first fork: the new thread has the turn, and its signal.
abbrev pub first_state : (time_quantum io func priority new : ℕ) → Scheduler
first_state time_quantum io func priority new = record (initialized time_quantum io) {
  running_thread = pq_data new priority;
  pthreads_data = update (λ _. none) new (some (first_param func priority new time_quantum));
  pthreads_created = new ∷ [];
  is_a_thread_running = true;
}

pub first_fork_lem :
    (time_quantum io func priority new : ℕ)
    → func ≢ 0
    → priority ≤ so_max_prio
    → fork func priority new (initialized time_quantum io)
      ≡ some (returns new, first_state time_quantum io func priority new)
unfolding fork push_node_pq
first_fork_lem time_quantum io func priority new nonnull small =
    let fine : (ltb so_max_prio priority || func == 0) ≡ false = ground arith in
    rw fine (
      ground (
        arith,
        update-update {A = Option PthreadParam} (λ _. none) new
            (some (record (first_param func priority new time_quantum) { semaphore = 0 }))
            (some (first_param func priority new time_quantum)),
      ))

first-Inv :
    (time_quantum io func priority new : ℕ)
    → 0 < time_quantum
    → time_quantum < 2 ^ 32
    → Inv (first_state time_quantum io func priority new) (update (λ _. unborn) new (parked new))
first-Inv time_quantum io func priority new lo hi = record {
  placed = record {
    wf = record {
      quantum_pos = lo;
      quantum_small = hi;
      started = refl;
      sorted = tt;
      distinct = tt;
      waiters_distinct = tt;
      known = tt;
      waiters_known = tt;
      good = λ j. ground arith;
      running_known = ground arith;
    };
    places = λ j. ground arith;
  };
  top = tt;
}

abbrev Finished : Option (Exit ℕ × Scheduler) → ℕ → Type 0
Finished none new = ⊥
Finished (some (e, s)) new = Inv s (update (λ _. unborn) new (parked new))

first-Finished :
    (time_quantum io func priority new : ℕ)
    → 0 < time_quantum
    → time_quantum < 2 ^ 32
    → func ≢ 0
    → priority ≤ so_max_prio
    → Finished (fork func priority new (initialized time_quantum io)) new
first-Finished time_quantum io func priority new lo hi nonnull small =
    rw (first_fork_lem time_quantum io func priority new nonnull small)
      (first-Inv time_quantum io func priority new lo hi)

-- The invariant holds of every state that a program can reach.
pub Reach-Inv : {time_quantum io : ℕ} {s : System} → Reach time_quantum io s → Inv s.sched s.pc
Reach-Inv {time_quantum} {io} (start func priority new lo hi devices nonnull small fresh e) =
    rw e at (first-Finished time_quantum io func priority new lo hi nonnull small)
Reach-Inv (later r st) = Step-Inv st (Reach-Inv r)
