-- ===== src/Concrete/Steps.antt =====
-- A step of threads on memory against one of threads on the states of `Scheduler`.
use thread_scheduler_multipl.Base.{
  ℕ, suc, ◌<◌, ◌^◌, ◌≡◌, ◌≢◌, refl, sym, ap, ◌∙◌, Bool, Option, none, some, List, length, arith,
}
use thread_scheduler_multipl.LinkedList.Contents.{Holds, length-contents}
use thread_scheduler_multipl.LinkedList.Nodes.{Memory}
use thread_scheduler_multipl.LinkedList.Pointers.{ListHandle}
use thread_scheduler_multipl.HashTable.{HashTable}
use thread_scheduler_multipl.Scheduler.State.{PthreadParam, Scheduler, update}
use thread_scheduler_multipl.Scheduler
use thread_scheduler_multipl.Machine
use thread_scheduler_multipl.Machine.{
  Pc, unborn, parked, active, ended, Request, exec_request, wait_request, signal_request,
  fork_request, IsFresh,
}
use thread_scheduler_multipl.Machine.Start.{Reach-Inv}
use thread_scheduler_multipl.Machine.Room.{queued-created}
use thread_scheduler_multipl.Machine.Safety as Abstract
use thread_scheduler_multipl.Concrete.State.{Store, with_param}
use thread_scheduler_multipl.Concrete.Relates.{Related, IsMalloc}
use thread_scheduler_multipl.Concrete.Sim.{Agrees, Same, Related-room}
use thread_scheduler_multipl.Concrete.Params.{Points-at, with_param-Related}
use thread_scheduler_multipl.Concrete.Handover.{Sim-finish_thread}
use thread_scheduler_multipl.Concrete.Machine.{
  System, system, HasSpace, run, spawn, Step, wake, call, finish,
}
use thread_scheduler_multipl.Concrete.Follows.{
  SamePlaces, StopsAs, CreatedBy, IsNew, Grows-SamePlace, place_active, place_unborn, place_parked,
  update-SamePlaces, park-SamePlaces, spawn-SamePlaces, run-StopsAs,
}

-- A state of threads on memory that stands for a state of threads on `Scheduler`
pub record Refines (ht : HashTable ℕ ℕ) (u : System) (s : Machine.System) : Type 0 where
  pub memory : Related ht 0 u.store s.sched
  pub places : SamePlaces ht u.pc s.pc

-- It stands for one that a program can reach.
abbrev pub Refined : (time_quantum io : ℕ) → System → Type 0
Refined time_quantum io u =
    (ht : HashTable ℕ ℕ) × (s : Machine.System) × Machine.Reach time_quantum io s × Refines ht u s

size-Holds :
    {A : Type 0} (h : Memory A) (list : ListHandle) (xs : List A)
    → Holds h list xs
    → list.size ≡ length xs
size-Holds h list xs (cs, is, e) = is.size ∙ sym (length-contents cs) ∙ ap (λ ys. length ys) e

module _ {time_quantum io : ℕ} {s : Machine.System} (r : Machine.Reach time_quantum io s) where
  -- A call has the room that it needs.
  room-Related :
      (ht : HashTable ℕ ℕ) (c : Store)
      → Related ht 0 c s.sched
      → HasSpace c
      → Related ht 2 c s.sched × (suc (length s.sched.pthreads_created) < 2 ^ 32)
  room-Related ht c rel space =
      let size =
        size-Holds c.created_nodes c.pthreads_created s.sched.pthreads_created rel.created in
      let few = queued-created r in
      (
        Related-room ht 0 2 c s.sched (omega (arith, few, size, space)) rel,
        omega (arith, size, space),
      )

  -- The table has no data for a thread that is not born.
  unborn_data : (t : ℕ) → s.pc t ≡ unborn → s.sched.pthreads_data t ≡ none
  unborn_data t e = ground (arith, e, (Reach-Inv r).placed.places t)

module _ (malloc : (ℕ → Bool) → ℕ → ℕ) (garbage : ℕ) (is_malloc : IsMalloc malloc) where
  pub IsFresh-IsNew :
      {time_quantum io : ℕ} {s : Machine.System} (r : Machine.Reach time_quantum io s)
      (ht : HashTable ℕ ℕ) (pc : ℕ → Pc) (q : Request)
      → SamePlaces ht pc s.pc
      → IsFresh pc q
      → IsNew malloc garbage is_malloc q s.sched × IsFresh s.pc q
  IsFresh-IsNew r ht pc exec_request places fresh = (tt, tt)
  IsFresh-IsNew r ht pc (wait_request io) places fresh = (tt, tt)
  IsFresh-IsNew r ht pc (signal_request io) places fresh = (tt, tt)
  IsFresh-IsNew {s = s} r ht pc (fork_request func priority new) places fresh =
      let e = place_unborn ht (s.pc new) (rw fresh.0 at (places new)) in
      (unborn_data r new e, (e, fresh.1))

  -- The thread at its handler is at it there, too.
  pub there_active :
      (ht : HashTable ℕ ℕ) (pc pc' : ℕ → Pc) (t : ℕ)
      → SamePlaces ht pc pc'
      → pc t ≡ active
      → pc' t ≡ active
  there_active ht pc pc' t places act = place_active ht (pc' t) (rw act at (places t))

  -- A call by the active thread against the same call there
  pub call-StopsAs :
      {time_quantum io : ℕ} {s : Machine.System} (r : Machine.Reach time_quantum io s)
      (ht : HashTable ℕ ℕ) (u : System) (q : Request)
      → Refines ht u s
      → IsFresh u.pc q
      → HasSpace u.store
      → StopsAs ht
          (CreatedBy malloc garbage is_malloc q u.store)
          (run malloc garbage q u.store)
          (Machine.run q s.sched)
  call-StopsAs {s = s} r ht u q h fresh space =
      let (rel, small) = room-Related r ht u.store h.memory space in
      run-StopsAs malloc garbage is_malloc ht q u.store s.sched rel
        ((IsFresh-IsNew r ht u.pc q h.places fresh).0) small

  -- A call that has a result there has one here.
  pub stops_both :
      (ht : HashTable ℕ ℕ) (P : HashTable ℕ ℕ → Type 0) (r : Option (Option ℕ × Store))
      (o : Option (Option ℕ × Scheduler))
      → StopsAs ht P r o
      → o ≢ none
      → (stop : Option ℕ) × (c : Store) × (r ≡ some (stop, c))
  stops_both ht P r none h ne = absurd (ne refl)
  stops_both ht P none (some (e, s)) h ne = absurd h
  stops_both ht P (some (e, c)) (some (e', s)) h ne = (e, c, refl)

  module _ {time_quantum io : ℕ} {u : System} {s : Machine.System}
      (r : Machine.Reach time_quantum io s) (ht : HashTable ℕ ℕ) (h : Refines ht u s) where
    wake-Refined :
        (t a : ℕ) (p : PthreadParam) (n : ℕ)
        → u.pc t ≡ parked a
        → u.store.params a ≡ some p
        → p.semaphore ≡ suc n
        → Refined time_quantum io
            (system (with_param u.store a (record p { semaphore = n })) (update u.pc t active))
    wake-Refined t a p n park at up =
        let (j, e, addr) = place_parked ht a (s.pc t) (rw park at (h.places t)) in
        let (p', pos, at', f) = Points-at ht 0 j a u.store s.sched h.memory addr in
        let same : p' ≡ p = cc in
        (
          ht,
          _,
          Machine.later r (Machine.wake t j p n e (rw same at f) up),
          record {
            memory =
                with_param-Related ht 0 j a (record p { semaphore = n }) u.store s.sched h.memory
                  addr;
            places = update-SamePlaces ht u.pc s.pc t active active h.places tt;
          },
        )

    call-Refined :
        (t : ℕ) (q : Request) (stop : Option ℕ) (c : Store) (o : Option (Option ℕ × Scheduler))
        → u.pc t ≡ active
        → IsFresh u.pc q
        → Machine.run q s.sched ≡ o
        → StopsAs ht (CreatedBy malloc garbage is_malloc q u.store) (some (stop, c)) o
        → Refined time_quantum io
            (system c (Machine.park t stop (spawn malloc garbage q u.store u.pc)))
    call-Refined t q stop c none act fresh e stops = absurd (
        Abstract.call_no_crash r t q (there_active ht u.pc s.pc t h.places act)
          ((IsFresh-IsNew r ht u.pc q h.places fresh).1) e)
    call-Refined t q stop c (some (stop', s')) act fresh e (ht', grows, created, same, rel) = (
      ht',
      _,
      Machine.later r (
          Machine.call t q (there_active ht u.pc s.pc t h.places act)
            ((IsFresh-IsNew r ht u.pc q h.places fresh).1) e),
      record {
        memory = rel;
        places =
            park-SamePlaces ht' _ _ t stop stop'
              (spawn-SamePlaces malloc garbage is_malloc ht' q u.store u.pc s.pc created
                (λ j. Grows-SamePlace ht ht' (u.pc j) (s.pc j) grows (h.places j)))
              same;
      },
    )

    finish-Refined :
        (t : ℕ) (c : Store) (o : Option (Unit {0} × Scheduler))
        → u.pc t ≡ active
        → Scheduler.finish_thread s.sched ≡ o
        → Agrees ht 0 Same (some (tt, c)) o
        → Refined time_quantum io (system c (update u.pc t ended))
    finish-Refined t c none act e agrees =
        absurd (Abstract.finish_no_crash r t (there_active ht u.pc s.pc t h.places act) e)
    finish-Refined t c (some (v, s')) act e agrees = (
      ht,
      _,
      Machine.later r (Machine.finish t (there_active ht u.pc s.pc t h.places act) e),
      record {
        memory = agrees.1;
        places = update-SamePlaces ht u.pc s.pc t ended ended h.places tt;
      },
    )

    pub Step-Refined : {v : System} → Step malloc garbage u v → Refined time_quantum io v
    Step-Refined (wake t a p n park at up) = wake-Refined t a p n park at up
    Step-Refined (call t q {stop} {c} act fresh space e) =
        call-Refined t q stop c (Machine.run q s.sched) act fresh refl
          (rw e at (call-StopsAs r ht u q h fresh space))
    Step-Refined (finish t {c} act e) =
        finish-Refined t c (Scheduler.finish_thread s.sched) act refl
          (rw e at ((Sim-finish_thread ht).at u.store s.sched h.memory))
