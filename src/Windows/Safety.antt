-- ===== src/Windows/Safety.antt =====
-- What holds in every state that a program can reach on Windows.
use thread_scheduler_multipl.Base.{
  subst, inl, inr, [], All, false, ℕ, ◌<◌, ◌≡◌, ◌≢◌, refl, sym, Option, none, some, arith,
}
use thread_scheduler_multipl.Scheduler.State as Linux
use thread_scheduler_multipl.Scheduler
use thread_scheduler_multipl.Scheduler.State.{Exit, returns, sem_wait, update}
use thread_scheduler_multipl.Machine
use thread_scheduler_multipl.Machine.{Pc, active, parked}
use thread_scheduler_multipl.Machine.Invariant.{Inv, HasSemaphore}
use thread_scheduler_multipl.PriorityQueue.Order.{Below}
use thread_scheduler_multipl.Machine.Start.{Reach-Inv}
use thread_scheduler_multipl.Machine.Safety as LinuxSafety
use thread_scheduler_multipl.Windows.State.{PthreadParam, Scheduler, Outcome, ok, exits, crash}
use thread_scheduler_multipl.Windows.{initialized, finish_thread}
use thread_scheduler_multipl.Windows.Follows.{linux_entry, linux_param, linux_state, Down, Agrees}
use thread_scheduler_multipl.Windows.Writes.{linux-with_param}
use thread_scheduler_multipl.Windows.Handover.{finish_thread-Follows}
use thread_scheduler_multipl.Windows.Calls.{
  fork-Follows, exec-Follows, wait-Follows, signal-Follows,
}
use thread_scheduler_multipl.Windows.Machine.{
  System, Request, exec_request, wait_request, signal_request, fork_request, parks, run,
  linux_request, linux_system, HasHandle, Step, wake, call, finish, Reach, start, later,
}

module _ (thread_of : ℕ → ℕ) where
  -- Before a call, no semaphore is up.
  active-Down :
      (w : Scheduler) (pc : ℕ → Pc) (t : ℕ)
      → Inv (linux_state thread_of w) pc
      → pc t ≡ active
      → Down w
  active-Down w pc t inv act j p e =
      ground (arith, e, act, inv.placed.places t, inv.placed.places j)

  parks-Agrees :
      {A : Type 0} (r : Outcome (Exit A)) (o : Option (Exit A × Linux.Scheduler))
      → Agrees thread_of false (λ (e : Exit A). e) r o
      → Agrees thread_of false (λ (e : Option ℕ). e) (parks r) (Machine.parks o)
  parks-Agrees (ok (returns a) w) o h = rw h.0 (refl, λ q. absurd (cc))
  parks-Agrees (ok (sem_wait t a) w) o h = rw h.0 (refl, λ q. absurd (cc))
  parks-Agrees exits o h = h
  parks-Agrees crash o h = rw h refl

  run-Agrees :
      (r : Request) (w : Scheduler)
      → HasHandle thread_of r
      → Down w
      → Agrees thread_of false
          (λ e. e)
          (run r w)
          (Machine.run (linux_request r) (linux_state thread_of w))
  run-Agrees exec_request w h d = parks-Agrees _ _ ((exec-Follows thread_of).at w d)
  run-Agrees (wait_request io) w h d = parks-Agrees _ _ ((wait-Follows thread_of io).at w d)
  run-Agrees (signal_request io) w h d = parks-Agrees _ _ ((signal-Follows thread_of io).at w d)
  run-Agrees (fork_request func priority new hd) w h d =
      parks-Agrees _ _ ((fork-Follows thread_of func priority new hd h).at w d)

  -- A step of a thread on Windows is one on Linux.
  pub Step-linux :
      {u v : System}
      → Inv (linux_state thread_of u.sched) u.pc
      → Step thread_of u v
      → Machine.Step (linux_system thread_of u) (linux_system thread_of v)
  Step-linux {u} inv (wake t owner p n park e up) =
      subst (λ s. Machine.Step (linux_system thread_of u) (Machine.system s (update u.pc t active)))
        (sym (linux-with_param thread_of u.sched owner (record p { semaphore = n })))
        (Machine.wake t owner (linux_param p) n park (rw e refl) up)
  Step-linux {u} inv (call t r act fresh h e) =
      Machine.call t (linux_request r) act fresh
        ((rw e at (run-Agrees r u.sched h (active-Down u.sched u.pc t inv act))).0)
  Step-linux {u} inv (finish t act e) = Machine.finish t act (
      (rw e at
        ((finish_thread-Follows thread_of).at u.sched (active-Down u.sched u.pc t inv act))).0)

  -- The state that a program reaches on Windows is, but for its handles, one that a program reaches
  -- on Linux.
  pub Reach-linux :
      {time_quantum io : ℕ} {u : System}
      → Reach thread_of time_quantum io u
      → Machine.Reach time_quantum io (linux_system thread_of u)
  Reach-linux {time_quantum} {io}
        (start func priority new h lo hi devices nonnull small fresh owns e) =
      Machine.start func priority new lo hi devices nonnull small fresh (
        (rw e at (
          (fork-Follows thread_of func priority new h owns).at (initialized time_quantum io)
            (λ t p f. absurd (cc)))).0)
  Reach-linux (later r st) =
      Machine.later (Reach-linux r) (Step-linux (Reach-Inv (Reach-linux r)) st)

  Returned : {A : Type 0} → Outcome A → Type 0
  Returned {A} r = (a : A) × (w : Scheduler) × (r ≡ ok a w)

  Agrees-Returned :
      {A : Type 0} (r : Outcome A) (o : Option (A × Linux.Scheduler))
      → Agrees thread_of false (λ (a : A). a) r o
      → o ≢ none
      → Returned r
  unfolding Returned
  Agrees-Returned (ok a w) o h ne = (a, w, refl)
  Agrees-Returned exits o h ne = absurd h
  Agrees-Returned crash o h ne = absurd (ne h)

  entry-some :
      (o : Option PthreadParam) (q : Linux.PthreadParam)
      → linux_entry o ≡ some q
      → (p : PthreadParam) × (o ≡ some p) × (linux_param p ≡ q)
  entry-some none q e = absurd (cc)
  entry-some (some p) q e = (p, refl, cc)

  module _ {time_quantum io : ℕ} {u : System} (r : Reach thread_of time_quantum io u) where
    pub inv : Inv (linux_state thread_of u.sched) u.pc
    inv = Reach-Inv (Reach-linux r)

    -- In every state that a program can reach on Windows, every call by the thread in its handler
    -- gives a result: it does not exit with an error, so `ReleaseSemaphore` does not fail, it
    -- dereferences no NULL, and its loop ends. The id of a thread that the call creates is fresh,
    -- and the handle stands for it.
    pub call_returns :
        (t : ℕ) (q : Request)
        → u.pc t ≡ active
        → Machine.IsFresh u.pc (linux_request q)
        → HasHandle thread_of q
        → (stop : Option ℕ) × (w : Scheduler) × (run q u.sched ≡ ok stop w)
    unfolding Returned
    call_returns t q act fresh h =
        Agrees-Returned (run q u.sched)
          (Machine.run (linux_request q) (linux_state thread_of u.sched))
          (run-Agrees q u.sched h (active-Down u.sched u.pc t inv act))
          (LinuxSafety.call_no_crash (Reach-linux r) t (linux_request q) act fresh)

    -- The end of `start_thread` returns too.
    pub finish_returns :
        (t : ℕ)
        → u.pc t ≡ active
        → (a : Unit {0}) × (w : Scheduler) × (finish_thread u.sched ≡ ok a w)
    unfolding Returned
    finish_returns t act =
        Agrees-Returned (finish_thread u.sched)
          (Scheduler.finish_thread (linux_state thread_of u.sched))
          ((finish_thread-Follows thread_of).at u.sched (active-Down u.sched u.pc t inv act))
          (LinuxSafety.finish_no_crash (Reach-linux r) t act)

    -- In every state that a program can reach on Windows, the thread in its handler is the only one
    -- there and the one that the scheduler records; its quantum is not spent, and no ready thread
    -- has a bigger priority than the priority of its entry.
    pub running_thread_lem :
        (t : ℕ)
        → u.pc t ≡ active
        → ((j : ℕ) → u.pc j ≡ active → j ≡ t)
          × (u.sched.running_thread.thread ≡ t)
          × ((p : PthreadParam) × (u.sched.pthreads_data t ≡ some p)
              × (0 < p.time_quantum)
              × All (Below p.priority) u.sched.ready_threads_pq)
    running_thread_lem t act =
        let (q, e, runs, top) = LinuxSafety.highest_priority (Reach-linux r) t act in
        let (p, f, g) = entry-some (u.sched.pthreads_data t) q e in
        (
          λ j a. LinuxSafety.mutual_exclusion (Reach-linux r) j t a act,
          runs,
          (
            p,
            f,
            rw (sym g) at ((LinuxSafety.quantum_in_range (Reach-linux r) t q e).0),
            rw (sym g) at top,
          ),
        )

    wake-Step :
        (t : ℕ) (o : Option PthreadParam)
        → u.pc t ≡ parked t
        → u.sched.pthreads_data t ≡ o
        → HasSemaphore (linux_entry o) 1
        → (v : System) × Step thread_of u v
    wake-Step t none park e up = absurd up
    wake-Step t (some p) park e up = (_, wake t t p 0 park e up)

    -- If the ready queue is not empty, some thread can take a step.
    pub ready_moves : u.sched.ready_threads_pq ≢ [] → (v : System) × Step thread_of u v
    ready_moves h =
        let t = u.sched.running_thread.thread in
        elim (LinuxSafety.turn (Reach-linux r) h) [
          | inl a ↦
              let (stop, w, e) = call_returns t exec_request a tt tt in
              (_, call t exec_request a tt tt e)
          | inr (park, up) ↦ wake-Step t (u.sched.pthreads_data t) park refl up
        ]
