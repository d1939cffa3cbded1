-- ===== src/Windows/Follows.antt =====
-- Commands of Windows/so_scheduler.c against the ones of Linux/so_scheduler.c: what a state is
-- there, and a rule for each way to build a command.
use thread_scheduler_multipl.Base.{
  ℕ, ◌≡◌, refl, Bool, true, false, Option, none, some, map, if◌then◌else◌,
}
use thread_scheduler_multipl.Scheduler.State.{PthreadParam, Scheduler, update}
use thread_scheduler_multipl.Scheduler.State as Linux
use thread_scheduler_multipl.Windows.State.{
  PthreadParam as WinParam, Scheduler as WinScheduler, Outcome, ok, exits, crash, Cmd, pure, ◌>>=◌,
  asks,
}

-- A thread's data without its handle
abbrev pub linux_param : WinParam → PthreadParam
linux_param p = record {
  semaphore = p.semaphore;
  pthread_id = p.pthread_id;
  func = p.func;
  priority = p.priority;
  time_quantum = p.time_quantum;
}

abbrev pub linux_entry : Option WinParam → Option PthreadParam
linux_entry none = none
linux_entry (some p) = some (linux_param p)

-- The state of Linux/so_scheduler.c that has the same threads; `thread_of` is the id of a handle.
abbrev pub linux_state : (thread_of : ℕ → ℕ) → WinScheduler → Scheduler
linux_state thread_of w = record {
  running_thread = w.running_thread;
  pthreads_data = λ t. linux_entry (w.pthreads_data t);
  ready_threads_pq = w.ready_threads_pq;
  waiting_threads = w.waiting_threads;
  pthreads_created = map thread_of w.pthreads_created;
  time_quantum = w.time_quantum;
  io = w.io;
  is_a_thread_running = w.is_a_thread_running;
}

-- No semaphore is up.
abbrev pub Down : WinScheduler → Type 0
Down w = (t : ℕ) (p : WinParam) → w.pthreads_data t ≡ some p → p.semaphore ≡ 0

module _ (thread_of : ℕ → ℕ) where
  -- A result has a counterpart there; `quiet` says that no semaphore has gone up.
  abbrev pub Agrees :
      {A B : Type 0} → (quiet : Bool) → (A → B) → Outcome A → Option (B × Scheduler) → Type 0
  Agrees quiet f (ok a w) r = (r ≡ some (f a, linux_state thread_of w)) × (quiet ≡ true → Down w)
  Agrees quiet f exits r = ⊥
  Agrees quiet f crash r = r ≡ none

  pub record Follows {A B : Type 0} (quiet : Bool) (f : A → B) (m : Cmd A) (n : Linux.Cmd B)
      : Type 0 where
    pub at : (w : WinScheduler) → Down w → Agrees quiet f (m w) (n (linux_state thread_of w))

  pub Follows-pure :
      {A B : Type 0} (quiet : Bool) (f : A → B) (a : A)
      → Follows quiet f (pure a) (Linux.pure (f a))
  unfolding pure
  Follows-pure quiet f a = record { at = λ w d. (refl, λ q. d) }

  pub Follows-asks :
      {A B : Type 0} (quiet : Bool) (f : A → B) (g : WinScheduler → A) (h : Scheduler → B)
      → ((w : WinScheduler) → h (linux_state thread_of w) ≡ f (g w))
      → Follows quiet f (asks g) (Linux.asks h)
  unfolding asks
  Follows-asks quiet f g h e = record { at = λ w d. (rw (e w), λ q. d) }

  pub Follows-if :
      {A B : Type 0} (quiet : Bool) (f : A → B) (b : Bool) (m n : Cmd A) (m' n' : Linux.Cmd B)
      → Follows quiet f m m'
      → Follows quiet f n n'
      → Follows quiet f (if b then m else n) (if b then m' else n')
  Follows-if quiet f true m n m' n' h k = h
  Follows-if quiet f false m n m' n' h k = k

  Agrees-bind :
      {A B C D : Type 0} (quiet : Bool) (f : A → B) (g : C → D) (r : Outcome A)
      (o : Option (B × Scheduler)) (m : A → Cmd C) (n : B → Linux.Cmd D)
      → Agrees true f r o
      → ((a : A) → Follows quiet g (m a) (n (f a)))
      → Agrees quiet g
          (elim r [ ok a s ↦ m a s | exits ↦ exits | crash ↦ crash ])
          (elim o [ none ↦ none | some (b, s) ↦ n b s ])
  Agrees-bind quiet f g (ok a w) o m n h k = rw h.0 ((k a).at w (h.1 refl))
  Agrees-bind quiet f g exits o m n h k = h
  Agrees-bind quiet f g crash o m n h k = rw h refl

  pub Follows-bind :
      {A B C D : Type 0} {quiet : Bool} {f : A → B} {g : C → D} {m : Cmd A} {m' : Linux.Cmd B}
      {n : A → Cmd C} (n' : B → Linux.Cmd D)
      → Follows true f m m'
      → ((a : A) → Follows quiet g (n a) (n' (f a)))
      → Follows quiet g (m >>= n) (Linux.◌>>=◌ m' n')
  unfolding ◌>>=◌
  Follows-bind {quiet = quiet} {f = f} {g = g} {m = m} {m' = m'} {n = n} n' h k = record {
    at = λ w d. Agrees-bind quiet f g (m w) (m' (linux_state thread_of w)) n n' (h.at w d) k;
  }

  pub Follows-seq :
      {C D : Type 0} {quiet : Bool} {g : C → D} {m : Cmd (Unit {0})} {m' : Linux.Cmd (Unit {0})}
      {n : Cmd C} {n' : Linux.Cmd D}
      → Follows true (λ u. u) m m'
      → Follows quiet g n n'
      → Follows quiet g (m >>= λ _. n) (Linux.◌>>=◌ m' (λ _. n'))
  Follows-seq {n' = n'} h k = Follows-bind (λ _. n') h (λ _. k)

  pub Follows-ask :
      {A C D : Type 0} {quiet : Bool} {g : C → D} {n : A → Cmd C} (n' : A → Linux.Cmd D)
      (f : WinScheduler → A) (f' : Scheduler → A)
      → ((w : WinScheduler) → f' (linux_state thread_of w) ≡ f w)
      → ((a : A) → Follows quiet g (n a) (n' a))
      → Follows quiet g (asks f >>= n) (Linux.◌>>=◌ (Linux.asks f') n')
  Follows-ask n' f f' e k = Follows-bind n' (Follows-asks true (λ a. a) f f' e) k

  Agrees-then :
      {A : Type 0} (a : A) (r : Outcome (Unit {0})) (o : Option (Unit {0} × Scheduler))
      → Agrees false (λ u. u) r o
      → Agrees false
          (λ (b : A). b)
          (elim r [ ok u s ↦ ok a s | exits ↦ exits | crash ↦ crash ])
          (elim o [ none ↦ none | some (u, s) ↦ some (a, s) ])
  Agrees-then a (ok u w) o h = (rw h.0 refl, λ q. absurd (cc))
  Agrees-then a exits o h = h
  Agrees-then a crash o h = rw h refl

  -- A command that may raise a semaphore is the last but for the value that is returned.
  pub Follows-then :
      {A : Type 0} (m : Cmd (Unit {0})) (m' : Linux.Cmd (Unit {0})) (a : A)
      → Follows false (λ u. u) m m'
      → Follows false (λ (b : A). b) (m >>= λ _. pure a) (Linux.◌>>=◌ m' (λ _. Linux.pure a))
  unfolding ◌>>=◌
  Follows-then m m' a h = record {
    at = λ w d. Agrees-then a (m w) (m' (linux_state thread_of w)) (h.at w d);
  }

  Agrees-loud :
      {A B : Type 0} (f : A → B) (r : Outcome A) (o : Option (B × Scheduler))
      → Agrees true f r o
      → Agrees false f r o
  Agrees-loud f (ok a w) o h = (h.0, λ q. h.1 refl)
  Agrees-loud f exits o h = h
  Agrees-loud f crash o h = h

  pub Follows-loud :
      {A B : Type 0} (f : A → B) (m : Cmd A) (n : Linux.Cmd B)
      → Follows true f m n
      → Follows false f m n
  Follows-loud f m n h = record {
    at = λ w d. Agrees-loud f (m w) (n (linux_state thread_of w)) (h.at w d);
  }
