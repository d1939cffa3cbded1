-- ===== src/Concrete/Listing.antt =====
-- What a push leaves as it was, and an addition to the list of created threads.
use thread_scheduler_multipl.Base.{
  ◌<◌, ◌^◌, sym, ap, ◌<◌, ◌≡◌, length, none, some, Option, ℕ, suc, refl, Bool, [], ◌∷◌,
  length-append, arith,
}
use thread_scheduler_multipl.LinkedList.{add_last_node_list}
use thread_scheduler_multipl.LinkedList.Nodes.{Memory}
use thread_scheduler_multipl.LinkedList.Pointers.{ListHandle}
use thread_scheduler_multipl.LinkedList.Contents.{HoldsAfter, add_last-refines}
use thread_scheduler_multipl.LinkedList.Keeps.{StaysFree, Keeps-add_last}
use thread_scheduler_multipl.PriorityQueue.{PqData}
use thread_scheduler_multipl.HashTable.{HashTable}
use thread_scheduler_multipl.Scheduler.State.{Scheduler}
use thread_scheduler_multipl.Concrete.State.{Store, grown, push_ready, add_created, fresh_address}
use thread_scheduler_multipl.Concrete.Relates.{Related, IsMalloc, malloc-IsFree}
use thread_scheduler_multipl.Concrete.Additions.{beyond_grown}

module _ (ht : HashTable ℕ ℕ) (malloc : (ℕ → Bool) → ℕ → ℕ) (garbage : ℕ)
    (is_malloc : IsMalloc malloc) where
  -- What a push leaves as it was
  pub record Pushed (c c' : Store) : Type 0 where
    pub params : c'.params ≡ c.params
    pub waiting_nodes : c'.waiting_nodes ≡ c.waiting_nodes
    pub waiting_threads : c'.waiting_threads ≡ c.waiting_threads

  push_frame :
      (c c' : Store) (r : Option (ListHandle × Memory PqData))
      → elim r as (λ _. Option (Unit {0} × Store)) [
        | none ↦ none
        | some (l, h) ↦ some (
          tt,
          record c {
            ready_threads_pq = l;
            ready_nodes = h;
            limit = grown c.limit (fresh_address malloc garbage c);
          },
        )
      ]
        ≡ some (tt, c')
      → Pushed c c'
  push_frame c c' none e = absurd (cc)
  push_frame c c' (some (l, h)) e = record {
    params = sym (
        ap (λ (o : Option (Unit {0} × Store)). elim o [ none ↦ c.params | some (u, d) ↦ d.params ])
          e);
    waiting_nodes = sym (
        ap
          (λ (o : Option (Unit {0} × Store)). elim o [
            | none ↦ c.waiting_nodes
            | some (u, d) ↦ d.waiting_nodes
          ])
          e);
    waiting_threads = sym (
        ap
          (λ (o : Option (Unit {0} × Store)). elim o [
            | none ↦ c.waiting_threads
            | some (u, d) ↦ d.waiting_threads
          ])
          e);
  }

  pub push_ready-Pushed :
      (t priority : ℕ) (c c' : Store)
      → push_ready malloc garbage t priority c ≡ some (tt, c')
      → Pushed c c'
  unfolding push_ready
  push_ready-Pushed t priority c c' e = push_frame c c' _ e

  -- What an addition to the created threads leaves as it was, and what it does
  after_created :
      (n t : ℕ) (c : Store) (s : Scheduler) (r : Option (ListHandle × Memory ℕ))
      → Related ht n c s
      → HoldsAfter (add_last_node_list s.pthreads_created t) r
      → StaysFree (fresh_address malloc garbage c) c.created_nodes r
      → let s' : Scheduler = record s {
        pthreads_created = add_last_node_list s.pthreads_created t;
      } in
        (c' : Store) × (elim r as (λ _. Option (Unit {0} × Store)) [
          | none ↦ none
          | some (l, h) ↦ some (
            tt,
            record c {
              pthreads_created = l;
              created_nodes = h;
              limit = grown c.limit (fresh_address malloc garbage c);
            },
          )
        ]
          ≡ some (tt, c'))
        × (c'.params ≡ c.params)
        × Related ht n c' s'
  after_created n t c s none rel holds keeps = absurd holds
  after_created n t c s (some (l, h)) rel holds keeps = (
    _,
    refl,
    refl,
    record {
      ready = rel.ready;
      waiting = rel.waiting;
      created = holds;
      table = rel.table;
      chains = rel.chains;
      session = rel.session;
      tidy = rel.tidy;
      allocated = rel.allocated;
      short = λ i xs e. omega (arith, rel.short i xs e, length-append s.pthreads_created (t ∷ []));
      points = rel.points;
      apart = rel.apart;
      bounded = λ p k.
          let (below, ne) = beyond_grown c.limit (fresh_address malloc garbage c) p k in
          let f = rel.bounded p below in
          record {
            params = f.params;
            entries = f.entries;
            ready = f.ready;
            waiting = f.waiting;
            created = keeps p ne f.created;
          };
      running_thread = rel.running_thread;
      time_quantum = rel.time_quantum;
      io = rel.io;
      started = rel.started;
      room = rel.room;
    },
  )

  pub add_created-runs :
      (n t : ℕ) (c : Store) (s : Scheduler)
      → Related ht n c s
      → suc (length s.pthreads_created) < 2 ^ 32
      → (c' : Store) × (add_created malloc garbage t c ≡ some (tt, c'))
        × (c'.params ≡ c.params)
        × Related ht n c' (record s { pthreads_created = add_last_node_list s.pthreads_created t })
  unfolding add_created
  add_created-runs n t c s rel small =
      let (pos, free) = malloc-IsFree malloc is_malloc c rel.bounded in
      after_created n t c s _ rel
        (add_last-refines c.created_nodes c.pthreads_created (fresh_address malloc garbage c) t
          s.pthreads_created rel.created pos free.created small)
        ((Keeps-add_last (fresh_address malloc garbage c) c.pthreads_created t).at c.created_nodes)
