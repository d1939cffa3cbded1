-- ===== src/Concrete/Queues.antt =====
-- The lists and the queue of the scheduler in memory against those of `Scheduler`.
use thread_scheduler_multipl.Base.{
  ℕ, suc, ◌≤◌, ◌≡◌, refl, sym, ap, subst, ◌∙◌, false, ◌==◌, Option, none, some, List, [], ◌∷◌,
  length, arith,
}
use thread_scheduler_multipl.LinkedList.{is_empty_list}
use thread_scheduler_multipl.LinkedList.Nodes.{Memory, node, load-ok}
use thread_scheduler_multipl.LinkedList.Pointers.{ListHandle}
use thread_scheduler_multipl.LinkedList.Chain.{Cells, first, IsList}
use thread_scheduler_multipl.LinkedList.Contents.{contents, Holds, HoldsAfter}
use thread_scheduler_multipl.LinkedList.Keeps.{StaysFree}
use thread_scheduler_multipl.PriorityQueue.{PqData, pop_node_pq, peak_pq}
use thread_scheduler_multipl.PriorityQueue.Nodes.{pop_top}
use thread_scheduler_multipl.PriorityQueue.TopNodes.{pop_top-refines}
use thread_scheduler_multipl.PriorityQueue.KeepsNodes.{Keeps-pop_top}
use thread_scheduler_multipl.HashTable.{HashTable}
use thread_scheduler_multipl.Scheduler.State as Linux
use thread_scheduler_multipl.Scheduler.State.{WaitingPthread, Scheduler}
use thread_scheduler_multipl.Scheduler
use thread_scheduler_multipl.Concrete.State.{Store, Cmd, ◌>>=◌, pop_ready, peak_ready, load_ready}
use thread_scheduler_multipl.Concrete.Relates.{Related}
use thread_scheduler_multipl.Concrete.Sim.{Agrees, Same, Sim, Sim-seq, after}
use thread_scheduler_multipl.Concrete

empty-cells :
    {A : Type 0} (h : Memory A) (list : ListHandle) (cs : Cells A)
    → IsList h list cs
    → Concrete.has_no_nodes list ≡ is_empty_list (contents cs)
empty-cells h list [] is = ground (arith, is.size)
empty-cells h list ((a, x) ∷ cs) is = ground (arith, is.size)

-- `is_empty_list` reads the size.
pub empty-Holds :
    {A : Type 0} (h : Memory A) (list : ListHandle) (xs : List A)
    → Holds h list xs
    → Concrete.has_no_nodes list ≡ is_empty_list xs
empty-Holds h list xs (cs, is, e) = rw (sym e) (empty-cells h list cs is)

module _ (ht : HashTable ℕ ℕ) where
  pub Sim-set_running :
      {n : ℕ} (max : PqData)
      → Sim ht n n Same (Concrete.set_running max) (Scheduler.set_fastest_thread max)
  unfolding Concrete.set_running Scheduler.set_fastest_thread
  Sim-set_running max = record {
    at = λ c s rel. (
      refl,
      record {
        ready = rel.ready;
        waiting = rel.waiting;
        created = rel.created;
        table = rel.table;
        chains = rel.chains;
        session = rel.session;
        tidy = rel.tidy;
        allocated = rel.allocated;
        short = rel.short;
        points = rel.points;
        apart = rel.apart;
        bounded = λ p h.
            let f = rel.bounded p h in
            record {
              params = f.params;
              entries = f.entries;
              ready = f.ready;
              waiting = f.waiting;
              created = f.created;
            };
        running_thread = refl;
        time_quantum = rel.time_quantum;
        io = rel.io;
        started = rel.started;
        room = rel.room;
      },
    );
  }

  -- The address that `peak_pq` returns holds the first element.
  peak_ready-ok :
      (c : Store) (x : PqData) (xs : List PqData)
      → Holds c.ready_nodes c.ready_threads_pq (x ∷ xs)
      → (a : ℕ) × (peak_ready c ≡ some (a, c)) × (load_ready a c ≡ some (x, c))
  unfolding peak_ready load_ready
  peak_ready-ok c x xs ([], is, e) = absurd (cc)
  peak_ready-ok c x xs ((a, y) ∷ cs, is, e) =
      let (pos, at, new, chain) = is.chain in
      let same : y ≡ x = ap (λ (l : List PqData). elim l [ [] ↦ y | z ∷ zs ↦ z ]) e in
      let l = c.ready_threads_pq.head in
      let full : (c.ready_threads_pq.size == 0) ≡ false = ground (arith, is.size) in
      let at_head : c.ready_nodes l ≡ some (node y (first cs)) = ap c.ready_nodes is.head ∙ at in
      let here =
        load-ok c.ready_nodes l (node y (first cs)) (let h = is.head in omega (arith, h, pos))
          at_head in
      (l, rw (full, here, peak_ready) refl, rw (here, load_ready) (ap (λ z. some (z, c)) same))

  pub Sim-peak :
      {A B : Type 0} {n m : ℕ} {R : A → B → Type 0} (k : ℕ → Cmd A) (g : PqData → Linux.Cmd B)
      → ((c : Store) (s : Scheduler) (a : ℕ) (x : PqData)
          → Related ht n c s
          → load_ready a c ≡ some (x, c)
          → Agrees ht m R (k a c) (g x s))
      → Sim ht n m R (peak_ready >>= k) (Linux.◌>>=◌ Linux.peak_ready g)
  unfolding peak_pq
  Sim-peak {A} {B} {n} {m} {R} k g rule = record {
    at = λ c s rel. go c s rel s.ready_threads_pq refl;
  }
    where
      go :
          (c : Store) (s : Scheduler)
          → Related ht n c s
          → (xs : List PqData) → s.ready_threads_pq ≡ xs
          → Agrees ht m R ((peak_ready >>= k) c) (Linux.◌>>=◌ Linux.peak_ready g s)
      go c s rel [] e = rw (Linux.◌>>=◌, Linux.peak_ready, e, peak_pq) tt
      go c s rel (x ∷ xs) e =
          let (a, peaks, loads) = peak_ready-ok c x xs (rw e at rel.ready) in
          rw (Linux.◌>>=◌, Linux.peak_ready, e, peak_pq)
            (after ht m R (peak_ready c) a c k (g x s) peaks (rule c s a x rel loads))

  set_fastest-running :
      (a : ℕ) (x : PqData) (c : Store)
      → load_ready a c ≡ some (x, c)
      → Concrete.set_fastest_thread a c ≡ Concrete.set_running x c
  unfolding Concrete.set_fastest_thread
  set_fastest-running a x c e =
      ap
        (λ (o : Option (PqData × Store)). elim o [
          | none ↦ none
          | some (y, d) ↦ Concrete.set_running y d
        ])
        e

  -- `set_fastest_thread` at the address of a thread in the queue
  pub Agrees-set_fastest :
      {A B : Type 0} (n m a : ℕ) (R : A → B → Type 0) (x : PqData) (f : Cmd A) (g : Linux.Cmd B)
      (c : Store) (s : Scheduler)
      → Related ht n c s
      → load_ready a c ≡ some (x, c)
      → Sim ht n m R f g
      → Agrees ht m R
          ((Concrete.set_fastest_thread a >>= λ _. f) c)
          (Linux.◌>>=◌ (Scheduler.set_fastest_thread x) (λ _. g) s)
  Agrees-set_fastest {A} {B} n m a R x f g c s rel loads rule =
      subst
        (λ (o : Option (Unit {0} × Store)).
          Agrees ht m R (elim o [ none ↦ none | some (u, d) ↦ f d ])
            (Linux.◌>>=◌ (Scheduler.set_fastest_thread x) (λ _. g) s))
        (sym (set_fastest-running a x c loads)) ((Sim-seq ht (Sim-set_running x) rule).at c s rel)

  length-pop : (xs : List PqData) → length (pop_node_pq xs) ≤ length xs
  unfolding pop_node_pq
  length-pop [] = omega arith
  length-pop (x ∷ xs) = omega arith

  after_pop :
      (n : ℕ) (c : Store) (s : Scheduler) (r : Option (ListHandle × Memory PqData))
      → Related ht n c s
      → HoldsAfter (pop_node_pq s.ready_threads_pq) r
      → ((q : ℕ) → StaysFree q c.ready_nodes r)
      → Agrees ht n Same
          (elim r [
            | none ↦ none
            | some (l, h) ↦ some (tt, record c { ready_threads_pq = l; ready_nodes = h })
          ])
          (some (tt, record s { ready_threads_pq = pop_node_pq s.ready_threads_pq }))
  after_pop n c s none rel holds keeps = holds
  after_pop n c s (some (l, h)) rel holds keeps = (
    refl,
    record {
      ready = holds;
      waiting = rel.waiting;
      created = rel.created;
      table = rel.table;
      chains = rel.chains;
      session = rel.session;
      tidy = rel.tidy;
      allocated = rel.allocated;
      short = rel.short;
      points = rel.points;
      apart = rel.apart;
      bounded = λ p k.
          let f = rel.bounded p k in
          record {
            params = f.params;
            entries = f.entries;
            ready = keeps (suc p) p (omega arith) f.ready;
            waiting = f.waiting;
            created = f.created;
          };
      running_thread = rel.running_thread;
      time_quantum = rel.time_quantum;
      io = rel.io;
      started = rel.started;
      room = omega (arith, rel.room, length-pop s.ready_threads_pq);
    },
  )

  pub Sim-pop_ready : {n : ℕ} → Sim ht n n Same pop_ready Linux.pop_ready
  unfolding pop_ready
  Sim-pop_ready {n} = record {
    at = λ c s rel.
        after_pop n c s (pop_top c.ready_threads_pq c.ready_nodes) rel
          ((pop_top-refines c.ready_nodes c.ready_threads_pq s.ready_threads_pq rel.ready).0)
          (λ q. (Keeps-pop_top q c.ready_threads_pq).at c.ready_nodes);
  }
