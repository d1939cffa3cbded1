-- ===== src/Concrete/Follows.antt =====
-- Steps of threads on memory against steps of threads on the states of `Scheduler`.
use thread_scheduler_multipl.Base.{
  ℕ, suc, ◌<◌, ◌^◌, ◌≡◌, refl, Bool, Option, none, some, ◌||◌, ◌==◌, ltb, length, arith, Bool-cases,
  inl, inr,
}
use thread_scheduler_multipl.HashTable.{HashTable}
use thread_scheduler_multipl.Scheduler.State.{
  so_max_prio, Scheduler, Exit, returns, sem_wait, update,
}
use thread_scheduler_multipl.Machine
use thread_scheduler_multipl.Machine.{
  Pc, unborn, parked, active, ended, Request, exec_request, wait_request, signal_request,
  fork_request, IsFresh, park,
}
use thread_scheduler_multipl.Concrete.State.{Store}
use thread_scheduler_multipl.Concrete.Relates.{Related, IsMalloc, address_of}
use thread_scheduler_multipl.Concrete.Sim.{Related-less}
use thread_scheduler_multipl.Concrete.Calls.{Sim-exec, Sim-wait, Sim-signal}
use thread_scheduler_multipl.Concrete.Forks.{Created, fork-RunsAs}
use thread_scheduler_multipl.Concrete.Runs.{Grows, RunsAs, Agrees-RunsAs}
use thread_scheduler_multipl.Concrete.Machine.{parks, run, spawn}

-- Two threads at the same place, the one on memory at the address of the other's struct.
abbrev pub SamePlace : HashTable ℕ ℕ → Pc → Pc → Type 0
SamePlace ht unborn unborn = Unit
SamePlace ht (parked a) (parked t) = address_of ht t ≡ some a
SamePlace ht active active = Unit
SamePlace ht ended ended = Unit
SamePlace ht _ _ = ⊥

-- Two calls that end in the same way
abbrev pub SameStop : HashTable ℕ ℕ → Option ℕ → Option ℕ → Type 0
SameStop ht none none = Unit
SameStop ht (some a) (some t) = address_of ht t ≡ some a
SameStop ht _ _ = ⊥

abbrev pub StopsAs :
    HashTable ℕ ℕ
    → (P : HashTable ℕ ℕ → Type 0) → Option (Option ℕ × Store)
    → Option (Option ℕ × Scheduler)
    → Type 0
StopsAs ht P r none = Unit
StopsAs ht P none (some (e, s)) = ⊥
StopsAs ht P (some (e, c)) (some (e', s)) =
    (ht' : HashTable ℕ ℕ) × Grows ht ht' × P ht' × SameStop ht' e e' × Related ht' 0 c s

parks-StopsAs :
    {A : Type 0} (ht : HashTable ℕ ℕ) (P : HashTable ℕ ℕ → Type 0) (r : Option (Exit A × Store))
    (o : Option (Exit A × Scheduler))
    → RunsAs ht P r o
    → StopsAs ht P (parks r) (Machine.parks o)
parks-StopsAs ht P r none h = tt
parks-StopsAs ht P none (some (returns a, s)) h = h
parks-StopsAs ht P none (some (sem_wait t a, s)) h = h
parks-StopsAs ht P (some (returns a, c)) (some (returns b, s)) (ht', g, p, e, rel) =
    (ht', g, p, tt, rel)
parks-StopsAs ht P (some (returns a, c)) (some (sem_wait t b, s)) (ht', g, p, e, rel) = absurd e
parks-StopsAs ht P (some (sem_wait q a, c)) (some (returns b, s)) (ht', g, p, e, rel) = absurd e
parks-StopsAs ht P (some (sem_wait q a, c)) (some (sem_wait t b, s)) (ht', g, p, e, rel) =
    (ht', g, p, e.0, rel)

pub Grows-SamePlace :
    (ht ht' : HashTable ℕ ℕ) (x y : Pc) → Grows ht ht' → SamePlace ht x y → SamePlace ht' x y
Grows-SamePlace ht ht' unborn unborn g h = tt
Grows-SamePlace ht ht' unborn (parked t) g h = h
Grows-SamePlace ht ht' unborn active g h = h
Grows-SamePlace ht ht' unborn ended g h = h
Grows-SamePlace ht ht' (parked a) unborn g h = h
Grows-SamePlace ht ht' (parked a) (parked t) g h = g t a h
Grows-SamePlace ht ht' (parked a) active g h = h
Grows-SamePlace ht ht' (parked a) ended g h = h
Grows-SamePlace ht ht' active unborn g h = h
Grows-SamePlace ht ht' active (parked t) g h = h
Grows-SamePlace ht ht' active active g h = tt
Grows-SamePlace ht ht' active ended g h = h
Grows-SamePlace ht ht' ended unborn g h = h
Grows-SamePlace ht ht' ended (parked t) g h = h
Grows-SamePlace ht ht' ended active g h = h
Grows-SamePlace ht ht' ended ended g h = tt

pub place_active : (ht : HashTable ℕ ℕ) (y : Pc) → SamePlace ht active y → y ≡ active
place_active ht unborn h = absurd h
place_active ht (parked t) h = absurd h
place_active ht active h = refl
place_active ht ended h = absurd h

pub place_unborn : (ht : HashTable ℕ ℕ) (y : Pc) → SamePlace ht unborn y → y ≡ unborn
place_unborn ht unborn h = refl
place_unborn ht (parked t) h = absurd h
place_unborn ht active h = absurd h
place_unborn ht ended h = absurd h

pub place_parked :
    (ht : HashTable ℕ ℕ) (a : ℕ) (y : Pc)
    → SamePlace ht (parked a) y
    → (t : ℕ) × (y ≡ parked t) × (address_of ht t ≡ some a)
place_parked ht a unborn h = absurd h
place_parked ht a (parked t) h = (t, refl, h)
place_parked ht a active h = absurd h
place_parked ht a ended h = absurd h

pub active_place : (ht : HashTable ℕ ℕ) (x : Pc) → SamePlace ht x active → x ≡ active
active_place ht unborn h = absurd h
active_place ht (parked a) h = absurd h
active_place ht active h = refl
active_place ht ended h = absurd h

pub parked_place :
    (ht : HashTable ℕ ℕ) (x : Pc) (t : ℕ)
    → SamePlace ht x (parked t)
    → (a : ℕ) × (x ≡ parked a) × (address_of ht t ≡ some a)
parked_place ht unborn t h = absurd h
parked_place ht (parked a) t h = (a, refl, h)
parked_place ht active t h = absurd h
parked_place ht ended t h = absurd h

-- All threads at the same places
abbrev pub SamePlaces : HashTable ℕ ℕ → (ℕ → Pc) → (ℕ → Pc) → Type 0
SamePlaces ht pc pc' = (t : ℕ) → SamePlace ht (pc t) (pc' t)

pub update-SamePlaces :
    (ht : HashTable ℕ ℕ) (pc pc' : ℕ → Pc) (t : ℕ) (x y : Pc)
    → SamePlaces ht pc pc'
    → SamePlace ht x y
    → SamePlaces ht (update pc t x) (update pc' t y)
update-SamePlaces ht pc pc' t x y h k j = elim (Bool-cases (t == j)) [
  | inl same ↦ rw same k
  | inr other ↦ rw other (h j)
]

pub park-SamePlaces :
    (ht : HashTable ℕ ℕ) (pc pc' : ℕ → Pc) (t : ℕ) (e e' : Option ℕ)
    → SamePlaces ht pc pc'
    → SameStop ht e e'
    → SamePlaces ht (park t e pc) (park t e' pc')
park-SamePlaces ht pc pc' t none none h k = h
park-SamePlaces ht pc pc' t none (some o) h k = absurd k
park-SamePlaces ht pc pc' t (some a) none h k = absurd k
park-SamePlaces ht pc pc' t (some a) (some o) h k =
    update-SamePlaces ht pc pc' t (parked a) (parked o) h k

module _ (malloc : (ℕ → Bool) → ℕ → ℕ) (garbage : ℕ) (is_malloc : IsMalloc malloc) where
  -- What holds of the table of a call's end
  abbrev pub CreatedBy : Request → Store → HashTable ℕ ℕ → Type 0
  CreatedBy (fork_request func priority new) c ht' =
      Created malloc garbage is_malloc func priority new c ht'
  CreatedBy _ c ht' = Unit

  pub spawn-SamePlaces :
      (ht : HashTable ℕ ℕ) (r : Request) (c : Store) (pc pc' : ℕ → Pc)
      → CreatedBy r c ht
      → SamePlaces ht pc pc'
      → SamePlaces ht (spawn malloc garbage r c pc) (Machine.spawn r pc')
  spawn-SamePlaces ht exec_request c pc pc' p h = h
  spawn-SamePlaces ht (wait_request io) c pc pc' p h = h
  spawn-SamePlaces ht (signal_request io) c pc pc' p h = h
  spawn-SamePlaces ht (fork_request func priority new) c pc pc' p h =
      elim (Bool-cases (ltb so_max_prio priority || func == 0)) [
        | inl bad ↦ rw bad h
        | inr fine ↦ rw fine (update-SamePlaces ht pc pc' new _ (parked new) h (p fine))
      ]

  -- The table has no data for the thread that a call creates.
  abbrev pub IsNew : Request → Scheduler → Type 0
  IsNew (fork_request func priority new) s = s.pthreads_data new ≡ none
  IsNew _ s = Unit

  -- A call on memory that stands for a state of `Scheduler` does what the call does there: if that
  -- has a result, the call has one, it parks on the struct of the thread on whose semaphore that
  -- parks or does not park, the memory stands for the state that it leaves, and the addresses of
  -- the threads' structs stay the same. The lists have room for what the call adds, the id of a
  -- thread that it creates has no data, and `malloc` returns addresses that are not NULL and not in
  -- use.
  pub run-StopsAs :
      (ht : HashTable ℕ ℕ) (r : Request) (c : Store) (s : Scheduler)
      → Related ht 2 c s
      → IsNew r s
      → suc (length s.pthreads_created) < 2 ^ 32
      → StopsAs ht (CreatedBy r c) (run malloc garbage r c) (Machine.run r s)
  run-StopsAs ht exec_request c s rel new small = parks-StopsAs ht _ _ _ (
      Agrees-RunsAs ht _ _ _ tt
        ((Sim-exec ht malloc garbage is_malloc).at c s (Related-less ht 2 1 c s (omega arith) rel)))
  run-StopsAs ht (wait_request io) c s rel new small = parks-StopsAs ht _ _ _ (
      Agrees-RunsAs ht _ _ _ tt (
        (Sim-wait ht malloc garbage is_malloc io).at c s
          (Related-less ht 2 1 c s (omega arith) rel)))
  run-StopsAs ht (signal_request io) c s rel new small = parks-StopsAs ht _ _ _ (
      Agrees-RunsAs ht _ _ _ tt (
        (Sim-signal ht malloc garbage is_malloc io).at c s
          (Related-less ht 2 1 c s (omega arith) rel)))
  run-StopsAs ht (fork_request func priority new_) c s rel new small =
      parks-StopsAs ht _ _ _
        (fork-RunsAs malloc garbage is_malloc ht func priority new_ c s rel new small)
