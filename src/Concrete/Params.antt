-- ===== src/Concrete/Params.antt =====
-- Reads and writes of a thread's struct, by its address and by the thread's id.
use thread_scheduler_multipl.Base.{
  ℕ, ◌+◌, ◌<◌, ◌≡◌, ◌≢◌, refl, sym, ap, ◌∙◌, true, false, Option, none, some, ◌==◌, arith,
  Bool-cases, inl, inr,
}
use thread_scheduler_multipl.HashTable.{HashTable}
use thread_scheduler_multipl.Scheduler.State as Linux
use thread_scheduler_multipl.Scheduler.State.{PthreadParam, Scheduler, update}
use thread_scheduler_multipl.Concrete.State.{
  Store, load_param, write_param, with_param, set_time_quantum, sem_post,
}
use thread_scheduler_multipl.Concrete.Relates.{Related, Points, address_of}
use thread_scheduler_multipl.Concrete.Sim.{Same, Sim}

pub load_param-ok :
    (a : ℕ) (p : PthreadParam) (c : Store)
    → 0 < a
    → c.params a ≡ some p
    → load_param a c ≡ some (p, c)
unfolding load_param
load_param-ok a p c pos e = let f : (a == 0) ≡ false = ground arith in rw (f, e) refl

pub write_param-ok :
    (a : ℕ) (f : PthreadParam → PthreadParam) (p : PthreadParam) (c : Store)
    → 0 < a
    → c.params a ≡ some p
    → write_param a f c ≡ some (tt, with_param c a (f p))
unfolding write_param
write_param-ok a f p c pos e = rw (load_param-ok a p c pos e, write_param) refl

module _ (ht : HashTable ℕ ℕ) where
  -- A struct at an address with an entry holds what the state has for the thread.
  pub Points-at :
      (n t a : ℕ) (c : Store) (s : Scheduler)
      → Related ht n c s
      → address_of ht t ≡ some a
      → Points c.params (some a) (s.pthreads_data t)
  Points-at n t a c s rel e = rw e at (rel.points t)

  abbrev state_with : Scheduler → ℕ → PthreadParam → Scheduler
  state_with s t q = record s { pthreads_data = update s.pthreads_data t (some q) }

  pub Points-other :
      (params : ℕ → Option PthreadParam) (a : ℕ) (q : PthreadParam) (o : Option ℕ)
      (e : Option PthreadParam)
      → ((b : ℕ) → o ≡ some b → a ≢ b)
      → Points params o e
      → Points (update params a (some q)) o e
  Points-other params a q none e ne p = p
  Points-other params a q (some b) e ne (p, pos, at, f) =
      let apart : (a == b) ≡ false = let n = ne b refl in ground (arith, n) in
      (p, pos, rw apart at, f)

  -- A write through the address of a thread's struct
  pub with_param-Related :
      (n t a : ℕ) (q : PthreadParam) (c : Store) (s : Scheduler)
      → Related ht n c s
      → address_of ht t ≡ some a
      → Related ht n (with_param c a q) (state_with s t q)
  with_param-Related n t a q c s rel e =
      let (p, pos, at, f) = Points-at n t a c s rel e in
      record {
        ready = rel.ready;
        waiting = rel.waiting;
        created = rel.created;
        table = rel.table;
        chains = rel.chains;
        session = rel.session;
        tidy = rel.tidy;
        allocated = rel.allocated;
        short = rel.short;
        points = λ j. elim (Bool-cases (t == j)) [
          | inl same ↦
              let i : t ≡ j = ground arith in
              let ej : address_of ht j ≡ some a = ap (λ k. address_of ht k) (sym i) ∙ e in
              rw (same, ej) (q, pos, (let b : (a == a) ≡ true = ground arith in rw b refl), refl)
          | inr other ↦ rw other (
              Points-other c.params a q (address_of ht j) (s.pthreads_data j)
                (λ b eb ab.
                  let i = rel.apart t j a e (eb ∙ ap (λ x. some x) (sym ab)) in
                  ground (arith, i, other))
                (rel.points j))
        ];
        apart = rel.apart;
        bounded = λ r h.
            let g = rel.bounded r h in
            record {
              params = let z = g.params in ground (arith, at, z);
              entries = g.entries;
              ready = g.ready;
              waiting = g.waiting;
              created = g.created;
            };
        running_thread = rel.running_thread;
        time_quantum = rel.time_quantum;
        io = rel.io;
        started = rel.started;
        room = rel.room;
      }

  pub Sim-load :
      {n : ℕ} (t a : ℕ)
      → address_of ht t ≡ some a
      → Sim ht n n Same (load_param a) (Linux.get_value t)
  Sim-load {n} t a e = record {
    at = λ c s rel.
        let (p, pos, at, f) = Points-at n t a c s rel e in
        rw (load_param-ok a p c pos at, Linux.get_value, f) (refl, rel);
  }

  pub Sim-write :
      {n : ℕ} (t a : ℕ) (f : PthreadParam → PthreadParam)
      → address_of ht t ≡ some a
      → Sim ht n n Same (write_param a f) (Linux.write_param t f)
  Sim-write {n} t a f e = record {
    at = λ c s rel.
        let (p, pos, at, g) = Points-at n t a c s rel e in
        rw (write_param-ok a f p c pos at, Linux.write_param, g)
          (refl, with_param-Related n t a (f p) c s rel e);
  }

  pub Sim-set_time_quantum :
      {n : ℕ} (t a q : ℕ)
      → address_of ht t ≡ some a
      → Sim ht n n Same (set_time_quantum a q) (Linux.set_time_quantum t q)
  Sim-set_time_quantum t a q e = Sim-write t a (λ p. record p { time_quantum = q }) e

  pub Sim-sem_post :
      {n : ℕ} (t a : ℕ) → address_of ht t ≡ some a → Sim ht n n Same (sem_post a) (Linux.sem_post t)
  Sim-sem_post t a e = Sim-write t a (λ p. record p { semaphore = p.semaphore + 1 }) e
