-- ===== src/Machine/Quantum.antt =====
-- What `so_exec` does to the thread that calls it.
use thread_scheduler_multipl.Base.{
  ℕ, ◌-◌, ◌≡◌, ◌≢◌, refl, ◌==◌, Option, none, some, List, ◌∷◌, inl, inr, arith, Bool-cases, All,
}
use thread_scheduler_multipl.PriorityQueue.{PqData, push_node_pq, peak_pq, pop_node_pq}
use thread_scheduler_multipl.PriorityQueue.Order.{push-cons}
use thread_scheduler_multipl.Scheduler.State.{PthreadParam, Scheduler}
use thread_scheduler_multipl.Scheduler.{exec}
use thread_scheduler_multipl.Machine.{Pc, active, System, Reach, run, parks, exec_request}
use thread_scheduler_multipl.Machine.Invariant.{Inv, KnownReady}
use thread_scheduler_multipl.Machine.Handover.{
  start_next_lem, pushed, pushed-IsResting, with_quantum, with_quantum-IsPlaced, Known-some,
}
use thread_scheduler_multipl.Machine.Active.{ActiveEntry, active-entry}
use thread_scheduler_multipl.Machine.Start.{Reach-Inv}
use thread_scheduler_multipl.Machine.Exec.{exec_expired, exec_continues}

-- What `so_exec` does to the thread `t` that calls it, with the entry `p`
pub data Spends (s : Scheduler) (t : ℕ) (p : PthreadParam) : Option ℕ → Scheduler → Type 0 where
  goes_on : p.time_quantum ≢ 1 → Spends s t p none (with_quantum s t p (p.time_quantum - 1))
  rotates :
      {s' : Scheduler} (x : PqData)
      → p.time_quantum ≡ 1
      → peak_pq (push_node_pq s.ready_threads_pq t p.priority) ≡ some x
      → s'.running_thread ≡ x
      → s'.ready_threads_pq ≡ pop_node_pq (push_node_pq s.ready_threads_pq t p.priority)
      → Spends s t p (some t) s'

-- A hand-over to the head of the queue
next-Spends :
    {s : Scheduler} {pc : ℕ → Pc} (t : ℕ) (p : PthreadParam) (x : PqData) (xs : List PqData)
    → Inv s pc
    → pc t ≡ active
    → ActiveEntry s t p
    → p.time_quantum ≡ 1
    → push_node_pq s.ready_threads_pq t s.running_thread.priority ≡ x ∷ xs
    → (stop : Option ℕ) × (s' : Scheduler) × (parks (exec s) ≡ some (stop, s'))
      × Spends s t p stop s'
unfolding peak_pq pop_node_pq
next-Spends {s} {pc} t p x xs inv act a last e =
    let w : Scheduler = with_quantum s t p s.time_quantum in
    let placed =
      with_quantum-IsPlaced t p s.time_quantum a.entry inv.placed.wf.quantum_pos (omega arith)
        inv.placed in
    let rest = pushed-IsResting t placed act in
    let known : All (KnownReady w.pthreads_data) (x ∷ xs) = rw e at rest.wf.known in
    let (q, b, _) = Known-some w.pthreads_data x.thread x.priority known.0 in
    rw
      (
        exec_expired s t p a inv.placed.wf.started last,
        start_next_lem (pushed w t s.running_thread.priority) x xs q e b,
      )
      (some t, _, refl, rotates x last (rw (a.priority, e) refl) refl (rw (a.priority, e) refl))

-- In every state that a program can reach, a call of `so_exec` by the thread in its handler gives a
-- result, by its entry in the table. If its quantum is 1, the thread parks, and the running thread
-- and the ready queue are what `peak_pq` and `pop_node_pq` make of the queue after a push of the
-- thread with its priority. Otherwise the thread goes on, its quantum is less by one, and nothing
-- else has changed.
pub exec_quantum_lem :
    {time_quantum io : ℕ} {s : System} (t : ℕ)
    → Reach time_quantum io s
    → s.pc t ≡ active
    → (p : PthreadParam) × (s.sched.pthreads_data t ≡ some p)
      × ((stop : Option ℕ) × (s' : Scheduler) × (run exec_request s.sched ≡ some (stop, s'))
          × Spends s.sched t p stop s')
exec_quantum_lem {s = s} t r act =
    let inv = Reach-Inv r in
    let (p, a) = active-entry t inv.placed act in
    let (x, xs, e) = push-cons s.sched.ready_threads_pq t s.sched.running_thread.priority in
    (
      p,
      a.entry,
      elim (Bool-cases (p.time_quantum == 1)) [
        | inl last ↦ next-Spends t p x xs inv act a (ground (arith, last)) e
        | inr more ↦
            let m : p.time_quantum ≢ 1 = ground (arith, more) in
            rw (exec_continues s.sched t p a inv.placed.wf.started m) (none, _, refl, goes_on m)
      ],
    )
