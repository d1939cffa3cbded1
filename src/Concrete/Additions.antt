-- ===== src/Concrete/Additions.antt =====
-- Additions to the lists and to the queue of the scheduler in memory against those of `Scheduler`.
use thread_scheduler_multipl.Base.{
  none, some, Option, ℕ, suc, ◌≤◌, ◌≢◌, refl, Bool, [], ◌∷◌, length-append, ltb, arith, Bool-cases,
  inl, inr,
}
use thread_scheduler_multipl.LinkedList.{add_last_node_list}
use thread_scheduler_multipl.LinkedList.Nodes.{Memory}
use thread_scheduler_multipl.LinkedList.Pointers.{ListHandle}
use thread_scheduler_multipl.LinkedList.Contents.{HoldsAfter, add_last-refines}
use thread_scheduler_multipl.LinkedList.Keeps.{StaysFree, Keeps-add_last}
use thread_scheduler_multipl.PriorityQueue.{PqData, push_node_pq}
use thread_scheduler_multipl.PriorityQueue.Order.{length-push}
use thread_scheduler_multipl.PriorityQueue.PushNodes.{push_node-refines}
use thread_scheduler_multipl.PriorityQueue.KeepsNodes.{Keeps-push_node}
use thread_scheduler_multipl.HashTable.{HashTable}
use thread_scheduler_multipl.Scheduler.State as Linux
use thread_scheduler_multipl.Scheduler.State.{WaitingPthread, Scheduler}
use thread_scheduler_multipl.Concrete.State.{Store, grown, push_ready, add_waiting, fresh_address}
use thread_scheduler_multipl.Concrete.Relates.{Related, IsMalloc, malloc-IsFree}
use thread_scheduler_multipl.Concrete.Sim.{Agrees, Same, Sim}

-- The end of the memory in use after a growth, against an address beyond it
pub beyond_grown : (limit a p : ℕ) → grown limit a ≤ p → (limit ≤ p) × (p ≢ a)
beyond_grown limit a p h = elim (Bool-cases (ltb a limit)) [
  | inl below ↦ let k : limit ≤ p = rw below at h in (k, ground (arith, k))
  | inr above ↦ let k : suc a ≤ p = rw above at h in (ground (arith, k), ground (arith, k))
]

module _ (ht : HashTable ℕ ℕ) (malloc : (ℕ → Bool) → ℕ → ℕ) (garbage : ℕ)
    (is_malloc : IsMalloc malloc) where
  after_push :
      (n t priority : ℕ) (c : Store) (s : Scheduler) (r : Option (ListHandle × Memory PqData))
      → Related ht (suc n) c s
      → HoldsAfter (push_node_pq s.ready_threads_pq t priority) r
      → StaysFree (fresh_address malloc garbage c) c.ready_nodes r
      → Agrees ht n Same
          (elim r [
            | none ↦ none
            | some (l, h) ↦ some (
              tt,
              record c {
                ready_threads_pq = l;
                ready_nodes = h;
                limit = grown c.limit (fresh_address malloc garbage c);
              },
            )
          ])
          (some (tt, record s { ready_threads_pq = push_node_pq s.ready_threads_pq t priority }))
  after_push n t priority c s none rel holds keeps = holds
  after_push n t priority c s (some (l, h)) rel holds keeps = (
    refl,
    record {
      ready = holds;
      waiting = rel.waiting;
      created = rel.created;
      table = rel.table;
      chains = rel.chains;
      session = rel.session;
      tidy = rel.tidy;
      allocated = rel.allocated;
      short = rel.short;
      points = rel.points;
      apart = rel.apart;
      bounded = λ p k.
          let (below, ne) = beyond_grown c.limit (fresh_address malloc garbage c) p k in
          let f = rel.bounded p below in
          record {
            params = f.params;
            entries = f.entries;
            ready = keeps p ne f.ready;
            waiting = f.waiting;
            created = f.created;
          };
      running_thread = rel.running_thread;
      time_quantum = rel.time_quantum;
      io = rel.io;
      started = rel.started;
      room = omega (arith, rel.room, length-push s.ready_threads_pq t priority);
    },
  )

  pub Sim-push_ready :
      {n : ℕ} (t priority : ℕ)
      → Sim ht (suc n) n Same (push_ready malloc garbage t priority) (Linux.push_ready t priority)
  unfolding push_ready
  Sim-push_ready {n} t priority = record {
    at = λ c s rel.
        let (pos, free) = malloc-IsFree malloc is_malloc c rel.bounded in
        after_push n t priority c s _ rel
          (push_node-refines c.ready_nodes c.ready_threads_pq (fresh_address malloc garbage c)
            garbage t priority pos free.ready s.ready_threads_pq rel.ready
            (omega (arith, rel.room)))
          ((Keeps-push_node (fresh_address malloc garbage c) garbage c.ready_threads_pq t
              priority).at
            c.ready_nodes);
  }

  after_wait :
      (n : ℕ) (w : WaitingPthread) (c : Store) (s : Scheduler)
      (r : Option (ListHandle × Memory WaitingPthread))
      → Related ht (suc n) c s
      → HoldsAfter (add_last_node_list s.waiting_threads w) r
      → StaysFree (fresh_address malloc garbage c) c.waiting_nodes r
      → Agrees ht n Same
          (elim r [
            | none ↦ none
            | some (l, h) ↦ some (
              tt,
              record c {
                waiting_threads = l;
                waiting_nodes = h;
                limit = grown c.limit (fresh_address malloc garbage c);
              },
            )
          ])
          (some (tt, record s { waiting_threads = add_last_node_list s.waiting_threads w }))
  after_wait n w c s none rel holds keeps = holds
  after_wait n w c s (some (l, h)) rel holds keeps = (
    refl,
    record {
      ready = rel.ready;
      waiting = holds;
      created = rel.created;
      table = rel.table;
      chains = rel.chains;
      session = rel.session;
      tidy = rel.tidy;
      allocated = rel.allocated;
      short = rel.short;
      points = rel.points;
      apart = rel.apart;
      bounded = λ p k.
          let (below, ne) = beyond_grown c.limit (fresh_address malloc garbage c) p k in
          let f = rel.bounded p below in
          record {
            params = f.params;
            entries = f.entries;
            ready = f.ready;
            waiting = keeps p ne f.waiting;
            created = f.created;
          };
      running_thread = rel.running_thread;
      time_quantum = rel.time_quantum;
      io = rel.io;
      started = rel.started;
      room = omega (arith, rel.room, length-append s.waiting_threads (w ∷ []));
    },
  )

  pub Sim-add_waiting :
      {n : ℕ} (w : WaitingPthread)
      → Sim ht (suc n) n Same (add_waiting malloc garbage w) (Linux.add_waiting w)
  unfolding add_waiting
  Sim-add_waiting {n} w = record {
    at = λ c s rel.
        let (pos, free) = malloc-IsFree malloc is_malloc c rel.bounded in
        after_wait n w c s _ rel
          (add_last-refines c.waiting_nodes c.waiting_threads (fresh_address malloc garbage c) w
            s.waiting_threads rel.waiting pos free.waiting (omega (arith, rel.room)))
          ((Keeps-add_last (fresh_address malloc garbage c) c.waiting_threads w).at
            c.waiting_nodes);
  }
