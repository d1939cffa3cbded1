-- ===== src/Concrete/Sim.antt =====
-- Commands on memory against commands of `Scheduler`: a rule for each way to build a command.
use thread_scheduler_multipl.Base.{
  ℕ, ◌≤◌, ◌≡◌, refl, sym, Bool, true, false, Option, none, some, if◌then◌else◌, arith,
}
use thread_scheduler_multipl.HashTable.{HashTable}
use thread_scheduler_multipl.HashTable.Hashing.{hash_function_ulong}
use thread_scheduler_multipl.HashTable.Reads.{get_value-refines}
use thread_scheduler_multipl.Scheduler.State as Linux
use thread_scheduler_multipl.Scheduler.State.{PthreadParam, Scheduler}
use thread_scheduler_multipl.Concrete.State.{
  Store, Cmd, pure, ◌>>=◌, asks, find_param, compare_pthreads_attr, address,
}
use thread_scheduler_multipl.Concrete.Relates.{Related, HasRoom, Points, address_of}

-- A command that has a result there has one here, and the states agree again.
abbrev pub Agrees :
    {A B : Type 0}
    → HashTable ℕ ℕ
    → ℕ
    → (A → B → Type 0)
    → Option (A × Store)
    → Option (B × Scheduler)
    → Type 0
Agrees ht m R r none = Unit
Agrees ht m R none (some (b, s)) = ⊥
Agrees ht m R (some (a, c)) (some (b, s)) = R a b × Related ht m c s

abbrev pub Same : {A : Type 0} → A → A → Type 0
Same a b = a ≡ b

module _ (ht : HashTable ℕ ℕ) where
  pub Agrees-result :
      {B : Type 0} (m : ℕ) (r : Option (B × Store)) (b : B) (s : Scheduler)
      → Agrees ht m Same r (some (b, s))
      → (c : Store) × (r ≡ some (b, c)) × Related ht m c s
  Agrees-result m none b s h = absurd h
  Agrees-result m (some (a, c)) b s h = (c, rw h.0 refl, h.1)

  -- The lists have room for `n` nodes before, and for `m` after.
  pub record Sim {A B : Type 0} (n m : ℕ) (R : A → B → Type 0) (f : Cmd A) (g : Linux.Cmd B)
      : Type 0 where
    pub at : (c : Store) (s : Scheduler) → Related ht n c s → Agrees ht m R (f c) (g s)

  -- The same states with room for another number of nodes
  pub Related-room :
      (n m : ℕ) (c : Store) (s : Scheduler) → HasRoom m s → Related ht n c s → Related ht m c s
  Related-room n m c s room h = record {
    ready = h.ready;
    waiting = h.waiting;
    created = h.created;
    table = h.table;
    chains = h.chains;
    session = h.session;
    tidy = h.tidy;
    allocated = h.allocated;
    short = h.short;
    points = h.points;
    apart = h.apart;
    bounded = h.bounded;
    running_thread = h.running_thread;
    time_quantum = h.time_quantum;
    io = h.io;
    started = h.started;
    room = room;
  }

  pub Related-less :
      (n m : ℕ) (c : Store) (s : Scheduler) → m ≤ n → Related ht n c s → Related ht m c s
  Related-less n m c s k h = Related-room n m c s (omega (arith, k, h.room)) h

  pub Sim-pure :
      {A B : Type 0} {n : ℕ} (m : ℕ) (R : A → B → Type 0) (a : A) (b : B)
      → m ≤ n
      → R a b
      → Sim n m R (pure a) (Linux.pure b)
  Sim-pure {n = n} m R a b k r = record { at = λ c s h. (r, Related-less n m c s k h) }

  pub Sim-if :
      {A B : Type 0} {n m : ℕ} {R : A → B → Type 0} (b : Bool) {f f' : Cmd A} {g g' : Linux.Cmd B}
      → Sim n m R f g
      → Sim n m R f' g'
      → Sim n m R (if b then f else f') (if b then g else g')
  Sim-if true h k = h
  Sim-if false h k = k

  pub Sim-if_as :
      {A B : Type 0} {n m : ℕ} {R : A → B → Type 0} (b b' : Bool) {f f' : Cmd A}
      {g g' : Linux.Cmd B}
      → b ≡ b'
      → Sim n m R f g
      → Sim n m R f' g'
      → Sim n m R (if b then f else f') (if b' then g else g')
  Sim-if_as b b' {f} {f'} {g} {g'} e h k = rw e (Sim-if b' h k)

  pub Agrees-bind :
      {A C D : Type 0} (k m : ℕ) (R : C → D → Type 0) (r : Option (A × Store))
      (o : Option (A × Scheduler)) (f : A → Cmd C) (g : A → Linux.Cmd D)
      → Agrees ht k Same r o
      → ((a : A) → Sim k m R (f a) (g a))
      → Agrees ht m R
          (elim r [ none ↦ none | some (a, c) ↦ f a c ])
          (elim o [ none ↦ none | some (b, s) ↦ g b s ])
  Agrees-bind k m R r none f g h rule = tt
  Agrees-bind k m R none (some (b, s)) f g h rule = absurd h
  Agrees-bind k m R (some (a, c)) (some (b, s)) f g h rule = rw (sym h.0) ((rule a).at c s h.1)

  pub Sim-bind :
      {A C D : Type 0} {n k m : ℕ} {R : C → D → Type 0} {f : Cmd A} {f' : Linux.Cmd A}
      {g : A → Cmd C} (g' : A → Linux.Cmd D)
      → Sim n k Same f f'
      → ((a : A) → Sim k m R (g a) (g' a))
      → Sim n m R (f >>= g) (Linux.◌>>=◌ f' g')
  Sim-bind {k = k} {m = m} {R = R} {f = f} {f' = f'} {g = g} g' h rule = record {
    at = λ c s rel. Agrees-bind k m R (f c) (f' s) g g' (h.at c s rel) rule;
  }

  pub Sim-seq :
      {C D : Type 0} {n k m : ℕ} {R : C → D → Type 0} {f : Cmd (Unit {0})}
      {f' : Linux.Cmd (Unit {0})} {g : Cmd C} {g' : Linux.Cmd D}
      → Sim n k Same f f'
      → Sim k m R g g'
      → Sim n m R (f >>= λ _. g) (Linux.◌>>=◌ f' (λ _. g'))
  Sim-seq {g' = g'} h k = Sim-bind (λ _. g') h (λ _. k)

  pub Sim-ask :
      {A C D : Type 0} {n m : ℕ} {R : C → D → Type 0} {g : A → Cmd C} (g' : A → Linux.Cmd D)
      (f : Store → A) (f' : Scheduler → A)
      → ((c : Store) (s : Scheduler) → Related ht n c s → f c ≡ f' s)
      → ((a : A) → Sim n m R (g a) (g' a))
      → Sim n m R (asks f >>= g) (Linux.◌>>=◌ (Linux.asks f') g')
  Sim-ask g' f f' e rule =
      Sim-bind {f = asks f} {f' = Linux.asks f'} g' (record { at = λ c s rel. (e c s rel, rel) })
        rule

  find_at :
      (t n : ℕ) (c : Store) (s : Scheduler)
      → Related ht n c s
      → find_param t c ≡ some (address (address_of ht t), c)
  unfolding find_param
  find_at t n c s rel =
      rw
        (
          get_value-refines hash_function_ulong compare_pthreads_attr c.entry_nodes c.pthreads_data
              ht t rel.table rel.chains,
          find_param,
        )
        refl

  found :
      {A B : Type 0} (n m t : ℕ) (R : A → B → Type 0) (k : ℕ → Cmd A) (g g' : Linux.Cmd B)
      (c : Store) (s : Scheduler)
      → Related ht n c s
      → ((a : ℕ) → address_of ht t ≡ some a → Agrees ht m R (k a c) (g' s))
      → (s.pthreads_data t ≡ none → g s ≡ none)
      → ((p : PthreadParam) → s.pthreads_data t ≡ some p → g s ≡ g' s)
      → (o : Option ℕ) → address_of ht t ≡ o
      → Points c.params o (s.pthreads_data t)
      → Agrees ht m R (k (address o) c) (g s)
  found n m t R k g g' c s rel there gone same none e p = rw (gone p) tt
  found n m t R k g g' c s rel there gone same (some a) e (p, pos, at, f) =
      rw (same p f) (there a e)

  -- A command that changes nothing before another
  pub after :
      {A B C : Type 0} (m : ℕ) (R : C → B → Type 0) (r : Option (A × Store)) (a : A) (c : Store)
      (k : A → Cmd C) (o : Option (B × Scheduler))
      → r ≡ some (a, c)
      → Agrees ht m R (k a c) o
      → Agrees ht m R (elim r [ none ↦ none | some (a, c) ↦ k a c ]) o
  after m R r a c k o e h = rw e h

  -- `get_value_hashtable` on states that agree, whose result is used or dereferenced later
  pub Agrees-find :
      {A B : Type 0} (n m t : ℕ) (R : A → B → Type 0) (k : ℕ → Cmd A) (g g' : Linux.Cmd B)
      (c : Store) (s : Scheduler)
      → Related ht n c s
      → (s.pthreads_data t ≡ none → g s ≡ none)
      → ((p : PthreadParam) → s.pthreads_data t ≡ some p → g s ≡ g' s)
      → ((a : ℕ) → address_of ht t ≡ some a → Agrees ht m R (k a c) (g' s))
      → Agrees ht m R ((find_param t >>= k) c) (g s)
  Agrees-find n m t R k g g' c s rel gone same there =
      after m R (find_param t c) (address (address_of ht t)) c k (g s) (find_at t n c s rel)
        (found n m t R k g g' c s rel there gone same (address_of ht t) refl (rel.points t))

  pub Sim-find :
      {A B : Type 0} {n m : ℕ} (t : ℕ) {R : A → B → Type 0} {k : ℕ → Cmd A} {g : Linux.Cmd B}
      (g' : Linux.Cmd B)
      → ((s : Scheduler) → s.pthreads_data t ≡ none → g s ≡ none)
      → ((s : Scheduler) (p : PthreadParam) → s.pthreads_data t ≡ some p → g s ≡ g' s)
      → ((a : ℕ) → address_of ht t ≡ some a → Sim n m R (k a) g')
      → Sim n m R (find_param t >>= k) g
  Sim-find {n = n} {m = m} t {R = R} {k = k} {g = g} g' gone same there = record {
    at = λ c s rel.
        Agrees-find n m t R k g g' c s rel (gone s) (same s) (λ a e. (there a e).at c s rel);
  }

  bind_none :
      {X B : Type 0} (f : Linux.Cmd X) (g : X → Linux.Cmd B) (s : Scheduler)
      → f s ≡ none
      → Linux.◌>>=◌ f g s ≡ none
  bind_none f g s e = rw (Linux.◌>>=◌, e) refl

  -- The same before a command that has no result without the thread's data
  pub Sim-find_then :
      {A B X : Type 0} {n m : ℕ} (t : ℕ) {R : A → B → Type 0} {k : ℕ → Cmd A} (f : Linux.Cmd X)
      (g : X → Linux.Cmd B)
      → ((s : Scheduler) → s.pthreads_data t ≡ none → f s ≡ none)
      → ((a : ℕ) → address_of ht t ≡ some a → Sim n m R (k a) (Linux.◌>>=◌ f g))
      → Sim n m R (find_param t >>= k) (Linux.◌>>=◌ f g)
  Sim-find_then t f g gone there =
      Sim-find t (Linux.◌>>=◌ f g) (λ s e. bind_none f g s (gone s e)) (λ s p e. refl) there

  -- A read of parts that differ, of which `P` holds
  pub Sim-ask_as :
      {A A' C D : Type 0} {n m : ℕ} {R : C → D → Type 0} (P : A → A' → Type 0) {g : A → Cmd C}
      (g' : A' → Linux.Cmd D) (f : Store → A) (f' : Scheduler → A')
      → ((c : Store) (s : Scheduler) → Related ht n c s → P (f c) (f' s))
      → ((a : A) (b : A') → P a b → Sim n m R (g a) (g' b))
      → Sim n m R (asks f >>= g) (Linux.◌>>=◌ (Linux.asks f') g')
  Sim-ask_as P g' f f' e rule = record {
    at = λ c s rel. (rule (f c) (f' s) (e c s rel)).at c s rel;
  }
