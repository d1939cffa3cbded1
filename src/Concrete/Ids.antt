-- ===== src/Concrete/Ids.antt =====
-- The programs that use the scheduler in memory, with the joins of `so_end` and the ids that
-- `pthread_create` gives, which may be those of threads that have been joined.
use thread_scheduler_multipl.Base.{
  ℕ, suc, ◌≤◌, ◌<◌, ◌^◌, ◌≡◌, ◌≢◌, Bool, false, ◌||◌, some, List, [], ◌∷◌, ◌++◌, ◌==◌, ltb,
  get_elem?,
}
use thread_scheduler_multipl.Scheduler.State.{so_max_prio, so_max_num_events, Exit, update}
use thread_scheduler_multipl.Machine.{unborn, active, parked, ended}
use thread_scheduler_multipl.Machine.Room.{IsUnique, index_has}
use thread_scheduler_multipl.Machine.Ids.{given, given-IsUnique, last_new}
use thread_scheduler_multipl.Concrete.State.{Store, fresh_address}
use thread_scheduler_multipl.Concrete.Relates.{IsMalloc}
use thread_scheduler_multipl.Concrete.Machine.{
  System, system, HasSpace, Step, wake, call, finish, Reach, start, later,
}
use thread_scheduler_multipl.Concrete.Steps.{Refined}
use thread_scheduler_multipl.Concrete.Safety.{memory_refines, ready_moves}
use thread_scheduler_multipl.Concrete.{initialized, fork, has_no_nodes}

module _ (malloc : (ℕ → Bool) → ℕ → ℕ) (garbage : ℕ) where
  abbrev pub given_by : {u v : System} → Step malloc garbage u v → List ℕ → List ℕ
  given_by (wake t a p n park at up) ids = ids
  given_by (call t r act fresh space e) ids = given r ids
  given_by (finish t act e) ids = ids

  -- The system, the ids that `pthread_create` has given, and how many threads `so_end` has joined
  pub data Run (time_quantum io : ℕ) : System → List ℕ → ℕ → Type 0 where
    first :
        (func priority new : ℕ) {e : Exit ℕ} {c : Store}
        → 0 < time_quantum
        → time_quantum < 2 ^ 32
        → io ≤ so_max_num_events
        → func ≢ 0
        → priority ≤ so_max_prio
        → new ≢ 0
        → fork malloc garbage func priority new (initialized time_quantum io) ≡ some (e, c)
        → Run time_quantum io
            (system c (
              update
                (λ _. unborn)
                new
                (parked (fresh_address malloc garbage (initialized time_quantum io)))))
            (new ∷ [])
            0
    next :
        {u v : System} {ids : List ℕ} {n : ℕ}
        → Run time_quantum io u ids n
        → (st : Step malloc garbage u v) → Run time_quantum io v (given_by st ids) n
    -- `pthread_join` in `so_end` returns: the next of the created threads has ended.
    joins :
        {u : System} {ids : List ℕ} {n : ℕ} (t : ℕ)
        → Run time_quantum io u ids n
        → get_elem? ids n ≡ some t
        → u.pc t ≡ ended
        → Run time_quantum io u ids (suc n)
    -- `so_fork` creates a thread with the id of one that has been joined. `put_hashtable` then
    -- takes the struct of that one for an `Entry` and writes through it, after which any state may
    -- follow.
    reuse :
        {u v : System} {ids : List ℕ} {n : ℕ} (t func priority new i : ℕ)
        → Run time_quantum io u ids n
        → u.pc t ≡ active
        → (ltb so_max_prio priority || func == 0) ≡ false
        → i < n
        → get_elem? ids i ≡ some new
        → Run time_quantum io v (ids ++ (new ∷ [])) n

  abbrev pub ids_of :
      {time_quantum io : ℕ} {u : System} → Reach malloc garbage time_quantum io u → List ℕ
  ids_of (start func priority new lo hi devices nonnull small fresh e) = new ∷ []
  ids_of (later r st) = given_by st (ids_of r)

  pub Reach-Run :
      {time_quantum io : ℕ} {u : System} (r : Reach malloc garbage time_quantum io u)
      → Run time_quantum io u (ids_of r) 0
  Reach-Run (start func priority new lo hi devices nonnull small fresh e) =
      first func priority new lo hi devices nonnull small fresh e
  Reach-Run (later r st) = next (Reach-Run r) st

  given_by-IsUnique :
      {u v : System} (st : Step malloc garbage u v) (ids : List ℕ)
      → IsUnique (given_by st ids)
      → IsUnique ids
  given_by-IsUnique (wake t a p n park at up) ids unique = unique
  given_by-IsUnique (call t r act fresh space e) ids unique = given-IsUnique r ids unique
  given_by-IsUnique (finish t act e) ids unique = unique

  Run-Reach :
      {time_quantum io : ℕ} {u : System} {ids : List ℕ} {n : ℕ}
      → Run time_quantum io u ids n
      → IsUnique ids
      → Reach malloc garbage time_quantum io u
  Run-Reach (first func priority new lo hi devices nonnull small fresh e) unique =
      start func priority new lo hi devices nonnull small fresh e
  Run-Reach (next {ids = ids} r st) unique =
      later (Run-Reach r (given_by-IsUnique st ids unique)) st
  Run-Reach (joins t r at over) unique = Run-Reach r unique
  Run-Reach (reuse {ids = ids} t func priority new i r act fine below at) unique =
      absurd (let h = index_has ids i new at in let f = last_new ids new unique in cc)

  module _ (is_malloc : IsMalloc malloc) {time_quantum io : ℕ} {u : System} {ids : List ℕ} {n : ℕ}
      (r : Run time_quantum io u ids n) (unique : IsUnique ids) where
    -- For every state that a program can be in on memory, as long as `pthread_create` has given no
    -- id twice, there is a state of `Scheduler` that a program can reach and that the memory stands
    -- for: the lists' pointers lead through nodes that hold its lists, the table's entries to the
    -- structs of its threads, and each parked thread is parked on its struct. `malloc` returns
    -- addresses that are not NULL and not in use.
    pub run_refines : Refined time_quantum io u
    run_refines = memory_refines malloc garbage is_malloc (Run-Reach r unique)

    -- In every state that a program can be in on memory, as long as `pthread_create` has given no
    -- id twice and fewer than 2^32 - 2 threads have been created, if the size of the ready queue is
    -- not 0, some thread can take a step. `malloc` returns addresses that are not NULL and not in
    -- use.
    pub turn_moves :
        HasSpace u.store
        → has_no_nodes u.store.ready_threads_pq ≡ false
        → (v : System) × Step malloc garbage u v
    turn_moves = ready_moves malloc garbage is_malloc (Run-Reach r unique)
