-- ===== src/Machine/Active.antt =====
-- The active thread's entry, and what calls share that spend its quantum.
use mathlib.Core.Path.{fun_ext}
use thread_scheduler_multipl.Base.{ℕ, ◌-◌, ◌≤◌, ◌<◌, ◌^◌, ◌≡◌, Option, none, some, arith, dec_u32}
use thread_scheduler_multipl.Scheduler.State.{PthreadParam, Scheduler, update, Exit, sem_wait}
use thread_scheduler_multipl.Scheduler.{start_next, set_fastest_thread_after_quantum, spend_quantum}
use thread_scheduler_multipl.Machine.{Pc, parked, active, parks, park}
use thread_scheduler_multipl.Machine.Invariant.{IsPlaced, Inv, IsGood}
use thread_scheduler_multipl.Machine.Handover.{Settles, pushed, active-eq, with_quantum, Known-some}

abbrev pub Ends : ℕ → (ℕ → Pc) → Option (Option ℕ × Scheduler) → Type 0
Ends t pc none = ⊥
Ends t pc (some (stop, s)) = Inv s (park t stop pc)

pub update-update :
    {A : Type 0} (f : ℕ → A) (t : ℕ) (a b : A) → update (update f t a) t b ≡ update f t b
update-update f t a b = fun_ext λ j. ground arith

pub update_self : {A : Type 0} (f : ℕ → A) (t : ℕ) (a : A) → update f t a t ≡ a
update_self f t a = ground arith

-- The entry of the active thread.
pub record ActiveEntry (s : Scheduler) (t : ℕ) (p : PthreadParam) : Type 0 where
  pub runs : s.running_thread.thread ≡ t
  pub entry : s.pthreads_data t ≡ some p
  pub priority : p.priority ≡ s.running_thread.priority
  pub key : p.pthread_id ≡ t
  pub pos : 0 < p.time_quantum
  pub most : p.time_quantum ≤ s.time_quantum
  pub small : s.time_quantum < 2 ^ 32

pub active-entry :
    {s : Scheduler} {pc : ℕ → Pc} (t : ℕ)
    → IsPlaced s pc
    → pc t ≡ active
    → (p : PthreadParam) × ActiveEntry s t p
active-entry {s} t placed a =
    let runs = active-eq t placed a in
    let (p, e, k) =
      Known-some s.pthreads_data t s.running_thread.priority (rw runs at wf.running_known) in
    let g : IsGood s.time_quantum t (some p) = rw e at (wf.good t) in
    (
      p,
      record {
        runs = runs;
        entry = e;
        priority = k;
        key = g.0;
        pos = g.1;
        most = g.2;
        small = wf.quantum_small;
      },
    )
  where
    open placed use {wf}

-- `set_fastest_thread_after_quantum`, after the quantum has been spent, is a new quantum and a turn back to the queue.
pub after_quantum_lem :
    (s : Scheduler) (t q : ℕ) (p : PthreadParam)
    → ActiveEntry s t p
    → set_fastest_thread_after_quantum t (with_quantum s t p q)
      ≡ start_next (pushed (with_quantum s t p s.time_quantum) t s.running_thread.priority)
unfolding set_fastest_thread_after_quantum
after_quantum_lem s t q p a = ground (
  arith,
  a.entry,
  a.key,
  a.priority,
  update-update s.pthreads_data t (some (record p { time_quantum = q }))
      (some (record p { time_quantum = s.time_quantum })),
)

abbrev pub then_wait :
    {A : Type 0} → ℕ → A → Option (Unit {0} × Scheduler) → Option (Exit A × Scheduler)
then_wait t v none = none
then_wait t v (some (u, s)) = some (sem_wait t v, s)

pub then_wait-Ends :
    {A : Type 0} (t : ℕ) (v : A) (pc : ℕ → Pc) (r : Option (Unit {0} × Scheduler))
    → Settles (update pc t (parked t)) r
    → Ends t pc (parks (then_wait t v r))
then_wait-Ends t v pc none h = h
then_wait-Ends t v pc (some (u, s)) h = h

pub spend_quantum_lem :
    (s : Scheduler) (t : ℕ) (p : PthreadParam)
    → ActiveEntry s t p
    → spend_quantum t s ≡ some (p.time_quantum - 1, with_quantum s t p (p.time_quantum - 1))
unfolding spend_quantum
spend_quantum_lem s t p a =
    let e : dec_u32 p.time_quantum ≡ p.time_quantum - 1 = omega arith in ground (arith, a.entry, e)
