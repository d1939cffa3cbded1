-- ===== src/Scheduler/Tests.antt =====
-- Runs of the calls on small states.
use thread_scheduler_multipl.Base.{ℕ, ◌≡◌, refl, Option, none, some, List, [], ◌∷◌, ℤ, pos, length}
use thread_scheduler_multipl.PriorityQueue.{PqData, pq_data, push_node_pq, insert_loop}
use thread_scheduler_multipl.LinkedList.{pop_node_list}
use thread_scheduler_multipl.Scheduler.State.{Scheduler, Exit, returns, sem_wait, Cmd, ◌>>=◌}
use thread_scheduler_multipl.Scheduler.{initialized, fork, wait, signal}

-- What a call returns, the running thread, the ready threads, the number of waiting threads.
abbrev View : Type 0
View = Exit ℤ × ℕ × List PqData × ℕ

abbrev view : Option (Exit ℤ × Scheduler) → Option View
view none = none
view (some (a, s)) = some (a, s.running_thread.thread, s.ready_threads_pq, length s.waiting_threads)

-- Thread 10 forks 11 (its quantum of 2 is now 1) and 12, which has a bigger priority, but the
-- quantum has expired first. Thread 12 waits for device 1.
abbrev session : Cmd (Exit ℤ)
session = do first ← fork 1 2 10; second ← fork 1 2 11; third ← fork 1 5 12; wait 1

session_result :
    view (session (initialized 2 3)) ≡ some (sem_wait 12 (pos 0), 11, pq_data 10 2 ∷ [], 1)
unfolding fork wait push_node_pq insert_loop
session_result = refl

abbrev woken : Cmd (Exit ℤ)
woken = session >>= λ _. signal 1

woken_result :
    view (woken (initialized 2 3))
    ≡ some (sem_wait 11 (pos 1), 12, pq_data 10 2 ∷ pq_data 11 2 ∷ [], 0)
unfolding fork wait signal push_node_pq insert_loop pop_node_list
woken_result = refl

absent_device : view (wait 3 (initialized 2 3)) ≡ some (returns (pos 0), 0, [], 0)
unfolding wait
absent_device = refl
