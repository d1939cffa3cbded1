-- ===== src/Machine/Grows.antt =====
-- What a step does to the threads and to the list of created threads.
use thread_scheduler_multipl.Base.{
  Bool, ℕ, zero, suc, ◌<◌, ◌≡◌, ◌≢◌, refl, true, false, Option, none, some, List, [], ◌∷◌, ◌++◌,
  ◌⊎◌, inl, inr, arith, ◌||◌, ◌==◌, ltb, if◌then◌else◌, Bool-cases, get_elem?,
}
use thread_scheduler_multipl.Scheduler.State.{
  so_max_prio, Scheduler, Exit, returns, sem_wait, update,
}
use thread_scheduler_multipl.Scheduler.{initialized, fork, exec, wait, signal}
use thread_scheduler_multipl.Machine.{
  Pc, unborn, active, parked, ended, System, system, exec_request, wait_request, signal_request,
  fork_request, park, parks, Step, wake, call, finish, Reach, start, later,
}
use thread_scheduler_multipl.Machine.Leaves.{CreatedAs}
use thread_scheduler_multipl.Machine.Created.{
  Leaves-exec, Leaves-wait, Leaves-signal, Leaves-finish_thread, fork-created,
}

abbrev pub Has : List ℕ → ℕ → Type 0
Has xs t = (i : ℕ) × (get_elem? xs i ≡ some t)

get_elem?-append :
    (xs ys : List ℕ) (i t : ℕ) → get_elem? xs i ≡ some t → get_elem? (xs ++ ys) i ≡ some t
get_elem?-append [] ys i t e = absurd (cc)
get_elem?-append (x ∷ xs) ys zero t e = e
get_elem?-append (x ∷ xs) ys (suc i) t e = get_elem?-append xs ys i t e

get_elem?-last : (xs : List ℕ) (t : ℕ) → Has (xs ++ (t ∷ [])) t
get_elem?-last [] t = (0, refl)
get_elem?-last (x ∷ xs) t = let (i, e) = get_elem?-last xs t in (suc i, e)

pub get_elem?-below :
    (xs : List ℕ) (i n t : ℕ) → get_elem? xs n ≡ none → get_elem? xs i ≡ some t → i < n
get_elem?-below [] i n t e f = absurd (cc)
get_elem?-below (x ∷ xs) i zero t e f = absurd (cc)
get_elem?-below (x ∷ xs) zero (suc n) t e f = omega arith
get_elem?-below (x ∷ xs) (suc i) (suc n) t e f = omega (arith, get_elem?-below xs i n t e f)

-- How a step changes the threads: none comes back from its end, and a new one is in the list.
pub record Grows (s u : System) : Type 0 where
  pub extends :
      (i t : ℕ)
      → get_elem? s.sched.pthreads_created i ≡ some t
      → get_elem? u.sched.pthreads_created i ≡ some t
  pub stays : (t : ℕ) → s.pc t ≡ ended → u.pc t ≡ ended
  pub listed : (t : ℕ) → u.pc t ≢ unborn → (s.pc t ≢ unborn) ⊎ Has u.sched.pthreads_created t

-- A thread that has a position keeps one.
moved-listed :
    (s : System) (t j : ℕ) (c : Pc) → s.pc t ≢ unborn → update s.pc t c j ≢ unborn → s.pc j ≢ unborn
moved-listed s t j c b h e = elim (Bool-cases (t == j)) [
  | inl same ↦ let q : t ≡ j = ground arith in b (rw q e)
  | inr apart ↦ h (rw apart e)
]

move-Grows :
    (s : System) (t : ℕ) (c : Pc) (s' : Scheduler)
    → s.pc t ≢ unborn
    → s.pc t ≢ ended
    → s'.pthreads_created ≡ s.sched.pthreads_created
    → Grows s (system s' (update s.pc t c))
move-Grows s t c s' born going e = record {
  extends = λ i j f. rw e f;
  stays = λ j f. ground (arith, f, going);
  listed = λ j h. inl (moved-listed s t j c born h);
}

same-Grows :
    (s : System) (s' : Scheduler)
    → s'.pthreads_created ≡ s.sched.pthreads_created
    → Grows s (system s' s.pc)
same-Grows s s' e = record { extends = λ i j f. rw e f; stays = λ j f. f; listed = λ j h. inl h }

-- A call that leaves the list of threads
park-Grows :
    (s : System) (t : ℕ) (stop : Option ℕ) (s' : Scheduler)
    → s.pc t ≡ active
    → s'.pthreads_created ≡ s.sched.pthreads_created
    → Grows s (system s' (park t stop s.pc))
park-Grows s t none s' act e = same-Grows s s' e
park-Grows s t (some owner) s' act e =
    move-Grows s t (parked owner) s' (λ f. absurd (cc)) (λ f. absurd (cc)) e

-- The call that adds one
spawn-Grows :
    (s : System) (t new : ℕ) (s' : Scheduler)
    → s.pc new ≡ unborn
    → s'.pthreads_created ≡ s.sched.pthreads_created ++ (new ∷ [])
    → Grows s (system s' (update s.pc new (parked new)))
spawn-Grows s t new s' fresh e = record {
  extends = λ i j f. rw e (get_elem?-append s.sched.pthreads_created (new ∷ []) i j f);
  stays = λ j f. ground (arith, f, fresh);
  listed = λ j h. elim (Bool-cases (new == j)) [
    | inl same ↦
        let q : new ≡ j = ground arith in
        inr (rw (e, ← q) (get_elem?-last s.sched.pthreads_created new))
    | inr apart ↦ inl (rw apart at h)
  ];
}

Grows-trans : {s u v : System} → Grows s u → Grows u v → Grows s v
Grows-trans {s} {u} {v} g k = record {
  extends = λ i t f. k.extends i t (g.extends i t f);
  stays = λ t f. k.stays t (g.stays t f);
  listed = λ t h. elim (k.listed t h) [
    | inl b ↦ elim (g.listed t b) [ inl c ↦ inl c | inr (i, e) ↦ inr (i, k.extends i t e) ]
    | inr x ↦ inr x
  ];
}

parks-CreatedAs :
    {A : Type 0} (ts : List ℕ) (r : Option (Exit A × Scheduler))
    → CreatedAs ts r
    → CreatedAs ts (parks r)
parks-CreatedAs ts none h = tt
parks-CreatedAs ts (some (returns a, s)) h = h
parks-CreatedAs ts (some (sem_wait t a, s)) h = h

fork-Grows :
    (s : System) (t func priority new : ℕ) (stop : Option ℕ) (s' : Scheduler) (guard : Bool)
    → s.pc t ≡ active
    → s.pc new ≡ unborn
    → s'.pthreads_created
      ≡ (if guard then s.sched.pthreads_created else s.sched.pthreads_created ++ (new ∷ []))
    → Grows s (system s' (park t stop (if guard then s.pc else update s.pc new (parked new))))
fork-Grows s t func priority new stop s' true act fresh e = park-Grows s t stop s' act e
fork-Grows s t func priority new stop s' false act fresh e =
    Grows-trans (spawn-Grows s t new s' fresh e) (
      park-Grows (system s' (update s.pc new (parked new))) t stop s' (ground (arith, act, fresh))
        refl)

pub Step-Grows : {s u : System} → Step s u → Grows s u
Step-Grows {s} (wake t owner p n park e up) =
    move-Grows s t active _ (λ f. absurd (cc)) (λ f. absurd (cc)) refl
Step-Grows {s} (call t exec_request {stop} {s'} act fresh e) =
    park-Grows s t stop s' act
      (rw e at (parks-CreatedAs s.sched.pthreads_created (exec s.sched) (Leaves-exec.at s.sched)))
Step-Grows {s} (call t (wait_request io) {stop} {s'} act fresh e) = park-Grows s t stop s' act (
    rw e at
      (parks-CreatedAs s.sched.pthreads_created (wait io s.sched) ((Leaves-wait io).at s.sched)))
Step-Grows {s} (call t (signal_request io) {stop} {s'} act fresh e) = park-Grows s t stop s' act (
    rw e at (
      parks-CreatedAs s.sched.pthreads_created (signal io s.sched) ((Leaves-signal io).at s.sched)))
Step-Grows {s} (call t (fork_request func priority new) {stop} {s'} act fresh e) =
    fork-Grows s t func priority new stop s' (ltb so_max_prio priority || func == 0) act fresh.0 (
      rw e at (
        parks-CreatedAs _ (fork func priority new s.sched)
          (fork-created func priority new s.sched)))
Step-Grows {s} (finish t {s'} act e) =
    move-Grows s t ended s' (λ f. absurd (cc)) (λ f. absurd (cc))
      (rw e at (Leaves-finish_thread.at s.sched))

unfoldable pub Listed : System → Type 0
Listed s = (t : ℕ) → s.pc t ≢ unborn → Has s.sched.pthreads_created t

pub Grows-Listed : {s u : System} → Grows s u → Listed s → Listed u
unfolding Listed
Grows-Listed g l t h = elim (g.listed t h) [
  | inl b ↦ let (i, e) = l t b in (i, g.extends i t e)
  | inr x ↦ x
]

pub Reach-Listed : {time_quantum io : ℕ} {s : System} → Reach time_quantum io s → Listed s
unfolding Listed
Reach-Listed {time_quantum} {io}
      (start func priority new {e} {s} lo hi devices nonnull small fresh run_fork) =
    let fine : (ltb so_max_prio priority || func == 0) ≡ false = ground arith in
    let created : s.pthreads_created ≡ new ∷ [] =
      rw (run_fork, fine) at (fork-created func priority new (initialized time_quantum io)) in
    λ t h. elim (Bool-cases (new == t)) [
      | inl same ↦ let q : new ≡ t = ground arith in (0, rw (created, q) refl)
      | inr apart ↦ absurd ((rw apart at h) refl)
    ]
Reach-Listed (later r st) = Grows-Listed (Step-Grows st) (Reach-Listed r)
