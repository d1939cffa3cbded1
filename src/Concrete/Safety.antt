-- ===== src/Concrete/Safety.antt =====
-- What holds in every state that a program can reach in memory.
use thread_scheduler_multipl.Base.{
  ℕ, ◌<◌, ◌≡◌, ◌≢◌, refl, sym, ap, ◌∙◌, Bool, false, Option, none, some, List, [], ◌∷◌, ◌||◌, ◌==◌,
  ltb, arith, All, inl, inr,
}
use thread_scheduler_multipl.LinkedList.{is_empty_list}
use thread_scheduler_multipl.LinkedList.Contents.{Holds}
use thread_scheduler_multipl.LinkedList.Nodes.{Memory}
use thread_scheduler_multipl.HashTable.{Entry}
use thread_scheduler_multipl.HashTable.Hashing.{hash_function_ulong}
use thread_scheduler_multipl.HashTable.Nodes.{free_table}
use thread_scheduler_multipl.HashTable.Session.{free_table-restores}
use thread_scheduler_multipl.HashTable.{HashTable}
use thread_scheduler_multipl.PriorityQueue.{PqData}
use thread_scheduler_multipl.PriorityQueue.Order.{Below, IsSorted}
use thread_scheduler_multipl.Scheduler.State.{so_max_prio, PthreadParam, Scheduler, Exit, update}
use thread_scheduler_multipl.Scheduler
use thread_scheduler_multipl.Machine
use thread_scheduler_multipl.Machine.{Pc, unborn, parked, active, Request, exec_request, IsFresh}
use thread_scheduler_multipl.Machine.Invariant.{HasSemaphore}
use thread_scheduler_multipl.Machine.Start.{Reach-Inv, first_fork_lem}
use thread_scheduler_multipl.Machine.Safety as Abstract
use thread_scheduler_multipl.Concrete.State.{compare_pthreads_attr, Store}
use thread_scheduler_multipl.Concrete.Relates.{IsMalloc, address_of}
use thread_scheduler_multipl.Concrete.Sim.{Agrees, Same}
use thread_scheduler_multipl.Concrete.Params.{Points-at}
use thread_scheduler_multipl.Concrete.Handover.{idle_agrees, Sim-finish_thread}
use thread_scheduler_multipl.Concrete.Forks.{Created, fork-RunsAs}
use thread_scheduler_multipl.Concrete.Runs.{RunsAs}
use thread_scheduler_multipl.Concrete.Machine.{
  System, system, HasSpace, run, Step, wake, call, Reach, start, later,
}
use thread_scheduler_multipl.Concrete.Start.{empty_table, initialized-Related}
use thread_scheduler_multipl.Concrete.Follows.{
  place_parked, update-SamePlaces, active_place, parked_place,
}
use thread_scheduler_multipl.Concrete.Steps.{
  Refined, Step-Refined, call-StopsAs, stops_both, IsFresh-IsNew, there_active,
}
use thread_scheduler_multipl.Concrete

module _ (malloc : (ℕ → Bool) → ℕ → ℕ) (garbage : ℕ) (is_malloc : IsMalloc malloc) where
  start-Refined :
      (time_quantum io func priority new : ℕ) (c : Store) (s : Scheduler)
      → (ltb so_max_prio priority || func == 0) ≡ false
      → ((e : Exit ℕ)
          → (e' : Exit ℕ)
          → RunsAs empty_table
              (Created malloc garbage is_malloc func priority new
                (Concrete.initialized time_quantum io))
              (some (e, c))
              (some (e', s))
          → Machine.Reach time_quantum io (Machine.system s (update (λ _. unborn) new (parked new)))
          → Refined time_quantum io (
              system c (
                update
                  (λ _. unborn)
                  new
                  (parked (
                    Concrete.State.fresh_address malloc garbage
                      (Concrete.initialized time_quantum io))))))
  start-Refined time_quantum io func priority new c s fine e e' (ht, grows, created, same, rel) r =
      (
        ht,
        _,
        r,
        record {
          memory = rel;
          places =
              update-SamePlaces ht (λ _. unborn) (λ _. unborn) new _ (parked new) (λ t. tt)
                (created fine);
        },
      )

  -- For every state that a program can reach in memory, there is a state of `Scheduler` that a
  -- program can reach and that the memory stands for: the lists' pointers lead through nodes that
  -- hold its lists, the table's entries to the structs of its threads, and each parked thread is
  -- parked on its struct. `malloc` returns addresses that are not NULL and not in use.
  pub memory_refines :
      {time_quantum io : ℕ} {u : System}
      → Reach malloc garbage time_quantum io u
      → Refined time_quantum io u
  memory_refines {time_quantum} {io}
        (start func priority new {e} {c} lo hi devices nonnull small fresh run_fork) =
      let first = first_fork_lem time_quantum io func priority new nonnull small in
      let runs =
        fork-RunsAs malloc garbage is_malloc empty_table func priority new
          (Concrete.initialized time_quantum io) (Scheduler.initialized time_quantum io)
          (initialized-Related time_quantum io) refl (omega arith) in
      start-Refined time_quantum io func priority new c _ (ground arith) e _
        (rw (run_fork, first) at runs)
        (Machine.start func priority new lo hi devices nonnull small fresh first)
  memory_refines (later r st) =
      let (ht, s, r', h) = memory_refines r in Step-Refined malloc garbage is_malloc r' ht h st

  module _ {time_quantum io : ℕ} {u : System} (r : Reach malloc garbage time_quantum io u) where
    -- In every state that a program can reach in memory, with fewer than 2^32 - 2 threads created,
    -- every call by the thread in its handler gives a result: it reads and writes only through
    -- pointers to memory in use, releases nothing twice, and its loop ends. `malloc` returns
    -- addresses that are not NULL and not in use, and the id of a thread that the call creates is
    -- fresh.
    pub call_no_fault :
        (t : ℕ) (q : Request)
        → u.pc t ≡ active
        → IsFresh u.pc q
        → HasSpace u.store
        → (stop : Option ℕ) × (c : Store) × (run malloc garbage q u.store ≡ some (stop, c))
    call_no_fault t q act fresh space =
        let (ht, s, r', h) = memory_refines r in
        stops_both malloc garbage is_malloc ht _ _ _
          (call-StopsAs malloc garbage is_malloc r' ht u q h fresh space)
          (Abstract.call_no_crash r' t q
            (there_active malloc garbage is_malloc ht u.pc s.pc t h.places act)
            ((IsFresh-IsNew malloc garbage is_malloc r' ht u.pc q h.places fresh).1))

    both_end :
        (ht : HashTable ℕ ℕ) (f : Option (Unit {0} × Store)) (o : Option (Unit {0} × Scheduler))
        → Agrees ht 0 Same f o
        → o ≢ none
        → (c : Store) × (f ≡ some (tt, c))
    both_end ht f none a ne = absurd (ne refl)
    both_end ht none (some (v, s)) a ne = absurd a
    both_end ht (some (v, c)) (some (w, s)) a ne = (c, refl)

    -- In every state that a program can reach in memory, the end of `start_thread` in the active
    -- thread gives a result: it reads and writes only through pointers to memory in use. `malloc`
    -- returns addresses that are not NULL and not in use.
    pub finish_no_fault :
        (t : ℕ) → u.pc t ≡ active → (c : Store) × (Concrete.finish_thread u.store ≡ some (tt, c))
    finish_no_fault t act =
        let (ht, s, r', h) = memory_refines r in
        both_end ht _ _ ((Sim-finish_thread ht).at u.store s.sched h.memory) (
          Abstract.finish_no_crash r' t
            (there_active malloc garbage is_malloc ht u.pc s.pc t h.places act))

    -- In every state that a program can reach in memory, a thread that is parked waits on a struct
    -- that is in use, that has the thread's own id, and on which no other thread is parked.
    -- `malloc` returns addresses that are not NULL and not in use.
    pub parked_on_own :
        (t a : ℕ)
        → u.pc t ≡ parked a
        → ((p : PthreadParam) × (0 < a) × (u.store.params a ≡ some p) × (p.pthread_id ≡ t))
          × ((j : ℕ) → u.pc j ≡ parked a → j ≡ t)
    parked_on_own t a park =
        let (ht, s, r', h) = memory_refines r in
        let own : (j : ℕ) → u.pc j ≡ parked a → (s.pc j ≡ parked j) × (address_of ht j ≡ some a) =
          λ j e.
            let (o, f, addr) = place_parked ht a (s.pc j) (rw e at (h.places j)) in
            let o_is_j = (Abstract.parked_states r' j o f).0 in
            (rw o_is_j at f, rw o_is_j at addr) in
        let (here, addr) = own t park in
        let (p, pos, at, e) = Points-at ht 0 t a u.store s.sched h.memory addr in
        let good = (Reach-Inv r').placed.wf.good t in
        ((p, pos, at, (rw e at good).0), λ j e. h.memory.apart j t a ((own j e).1) addr)

    -- In every state that a program can reach in memory, the thread in its handler is the only one
    -- there and the one that the scheduler records, and the nodes of the ready queue hold a sorted
    -- sequence without a bigger priority than the one recorded. `malloc` returns addresses that are
    -- not NULL and not in use.
    pub running_highest :
        (t : ℕ)
        → u.pc t ≡ active
        → (u.store.running_thread.thread ≡ t)
          × ((j : ℕ) → u.pc j ≡ active → j ≡ t)
          × ((xs : List PqData) × Holds u.store.ready_nodes u.store.ready_threads_pq xs
              × IsSorted xs
              × All (Below u.store.running_thread.priority) xs)
    running_highest t act =
        let (ht, s, r', h) = memory_refines r in
        let there : (j : ℕ) → u.pc j ≡ active → s.pc j ≡ active =
          λ j e. there_active malloc garbage is_malloc ht u.pc s.pc j h.places e in
        let (p, e, runs, top) = Abstract.highest_priority r' t (there t act) in
        let inv = Reach-Inv r' in
        (
          ap (λ x. x.thread) h.memory.running_thread ∙ runs,
          λ j e. Abstract.mutual_exclusion r' j t (there j e) (there t act),
          (
            s.sched.ready_threads_pq,
            h.memory.ready,
            inv.placed.wf.sorted,
            rw h.memory.running_thread inv.top,
          ),
        )

    not_empty : (xs : List PqData) → is_empty_list xs ≡ false → xs ≢ []
    not_empty [] e f = absurd (cc)
    not_empty (x ∷ xs) e f = absurd (cc)

    one_up :
        (o : Option PthreadParam) (p : PthreadParam)
        → HasSemaphore o 1
        → o ≡ some p
        → p.semaphore ≡ 1
    one_up none p h e = absurd h
    one_up (some q) p h e =
        ap (λ (x : Option PthreadParam). elim x [ none ↦ 0 | some y ↦ y.semaphore ]) (sym e) ∙ h

    -- In every state that a program can reach in memory, with fewer than 2^32 - 2 threads created,
    -- if the size of the ready queue is not 0, some thread can take a step. `malloc` returns
    -- addresses that are not NULL and not in use.
    pub ready_moves :
        HasSpace u.store
        → Concrete.has_no_nodes u.store.ready_threads_pq ≡ false
        → (v : System) × Step malloc garbage u v
    ready_moves space some_ready =
        let (ht, s, r', h) = memory_refines r in
        let t = s.sched.running_thread.thread in
        let ready =
          not_empty s.sched.ready_threads_pq
            (sym (idle_agrees ht u.store s.sched h.memory) ∙ some_ready) in
        elim (Abstract.turn r' ready) [
          | inl act ↦
              let here = active_place ht (u.pc t) (rw act at (h.places t)) in
              let (stop, c, e) = call_no_fault t exec_request here tt space in
              (_, call t exec_request here tt space e)
          | inr (park, up) ↦
              let (a, here, addr) = parked_place ht (u.pc t) t (rw park at (h.places t)) in
              let (p, pos, at, e) = Points-at ht 0 t a u.store s.sched h.memory addr in
              (_, wake t a p 0 here at (one_up (s.sched.pthreads_data t) p up e))
        ]

    -- In every state that a program can reach in memory, `free_table` on the table of threads ends
    -- without a fault, so it releases no node twice, and leaves no node of an entry in use.
    -- `malloc` returns addresses that are not NULL and not in use.
    pub table_restored :
        (g : Memory (Entry ℕ ℕ)) × (free_table u.store.pthreads_data u.store.entry_nodes
          ≡ some (tt, g))
        × ((p : ℕ) → g p ≡ none)
    table_restored =
        let (ht, s, r', h) = memory_refines r in
        free_table-restores hash_function_ulong compare_pthreads_attr h.memory.session
