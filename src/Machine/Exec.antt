-- ===== src/Machine/Exec.antt =====
-- The step of `so_exec` in the active thread.
use thread_scheduler_multipl.Base.{ℕ, ◌-◌, ◌≡◌, ◌≢◌, true, some, inl, inr, ◌==◌, arith, Bool-cases}
use thread_scheduler_multipl.Scheduler.State.{PthreadParam, Scheduler, returns}
use thread_scheduler_multipl.Scheduler.{start_next, exec}
use thread_scheduler_multipl.Machine.{Pc, active, parks}
use thread_scheduler_multipl.Machine.Invariant.{Inv}
use thread_scheduler_multipl.Machine.Handover.{
  pushed, yield-Settles, with_quantum, with_quantum-IsPlaced,
}
use thread_scheduler_multipl.Machine.Active.{
  Ends, ActiveEntry, active-entry, then_wait, then_wait-Ends, spend_quantum_lem, after_quantum_lem,
}

pub exec_expired :
    (s : Scheduler) (t : ℕ) (p : PthreadParam)
    → ActiveEntry s t p
    → s.is_a_thread_running ≡ true
    → p.time_quantum ≡ 1
    → exec s
      ≡ then_wait t tt
          (start_next (pushed (with_quantum s t p s.time_quantum) t s.running_thread.priority))
unfolding exec
exec_expired s t p a started last =
    ground (arith, a.runs, started, spend_quantum_lem s t p a, after_quantum_lem s t 0 p a)

pub exec_continues :
    (s : Scheduler) (t : ℕ) (p : PthreadParam)
    → ActiveEntry s t p
    → s.is_a_thread_running ≡ true
    → p.time_quantum ≢ 1
    → exec s ≡ some (returns tt, with_quantum s t p (p.time_quantum - 1))
unfolding exec
exec_continues s t p a started more = ground (arith, a.runs, started, spend_quantum_lem s t p a)

pub exec-Ends :
    {s : Scheduler} {pc : ℕ → Pc} (t : ℕ) → Inv s pc → pc t ≡ active → Ends t pc (parks (exec s))
exec-Ends {s} {pc} t inv act =
    let (p, a) = active-entry t inv.placed act in
    elim (Bool-cases (p.time_quantum == 1)) [
      | inl last ↦ rw (exec_expired s t p a inv.placed.wf.started (ground arith)) (
          then_wait-Ends t tt pc _ (
            yield-Settles t
              (with_quantum-IsPlaced t p s.time_quantum a.entry inv.placed.wf.quantum_pos
                (omega arith) inv.placed)
              act))
      | inr more ↦ rw (exec_continues s t p a inv.placed.wf.started (ground arith)) (record {
        placed =
            with_quantum-IsPlaced t p (p.time_quantum - 1) a.entry (ground (arith, a.pos))
              (omega (arith, a.most)) inv.placed;
        top = inv.top;
      })
    ]
