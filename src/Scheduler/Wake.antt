-- ===== src/Scheduler/Wake.antt =====
-- The threads that `so_signal` wakes.
use thread_scheduler_multipl.Base.{
  ℕ, zero, suc, ◌+◌, ◌<◌, ◌≡◌, refl, Option, none, some, List, [], ◌∷◌, ◌==◌, if◌then◌else◌, length,
  arith, Bool, ap, ◌∙◌,
}
use thread_scheduler_multipl.LinkedList.{pop_node_list}
use thread_scheduler_multipl.PriorityQueue.{PqData, push_node_pq}
use thread_scheduler_multipl.Scheduler.State.{WaitingPthread, Scheduler}
use thread_scheduler_multipl.Scheduler.{wake_loop, compare_io_signal_thread}

-- The threads that wait for device `io`, and the others, in the order of the list.
pub waiting_for : ℕ → List WaitingPthread → List WaitingPthread
waiting_for io [] = []
waiting_for io (w ∷ ws) = if w.io == io then w ∷ waiting_for io ws else waiting_for io ws

pub waiting_for_others : ℕ → List WaitingPthread → List WaitingPthread
waiting_for_others io [] = []
waiting_for_others io (w ∷ ws) =
    if w.io == io then waiting_for_others io ws else w ∷ waiting_for_others io ws

-- The queue after each of the threads has been pushed in turn.
pub push_all : List PqData → List WaitingPthread → List PqData
push_all queue [] = queue
push_all queue (w ∷ ws) = push_all (push_node_pq queue w.pthread_id w.priority) ws

-- What `pop_node_list` gives for a device.
abbrev PopsDevice : ℕ → List WaitingPthread → Option (WaitingPthread × List WaitingPthread) → Type 0
PopsDevice io ws none = (waiting_for io ws ≡ []) × (waiting_for_others io ws ≡ ws)
PopsDevice io ws (some (w, rest)) =
    (waiting_for io ws ≡ w ∷ waiting_for io rest)
    × (waiting_for_others io ws ≡ waiting_for_others io rest)
    × (length ws ≡ suc (length rest))

abbrev is_device : ℕ → WaitingPthread → Bool
is_device io w = compare_io_signal_thread w io == 0

pop-PopsDevice :
    (io : ℕ) (ws : List WaitingPthread) → PopsDevice io ws (pop_node_list (is_device io) ws)
unfolding pop_node_list waiting_for waiting_for_others compare_io_signal_thread
pop-PopsDevice io [] = (refl, refl)
pop-PopsDevice io (w ∷ ws) = ground (arith, pop-PopsDevice io ws)

abbrev pub after_wake : ℕ → Scheduler → Scheduler
after_wake io s = record s {
  waiting_threads = waiting_for_others io s.waiting_threads;
  ready_threads_pq = push_all s.ready_threads_pq (waiting_for io s.waiting_threads);
}

-- If the fuel is more than the number of waiting threads, the loop of `so_signal` ends: it pushes
-- exactly the threads that wait for the device to the ready queue, in the order of the waiting
-- list, adds their number to the count, and leaves the others in the waiting list in their order.
pub wake_loop_lem :
    (fuel io n : ℕ) (s : Scheduler)
    → length s.waiting_threads < fuel
    → wake_loop fuel io n s ≡ some (n + length (waiting_for io s.waiting_threads), after_wake io s)
unfolding wake_loop push_all
wake_loop_lem zero io n s h = absurd (omega arith)
wake_loop_lem (suc fuel) io n s h =
    go (pop_node_list (is_device io) s.waiting_threads) refl (pop-PopsDevice io s.waiting_threads)
      (λ w rest k. wake_loop_lem fuel io (n + 1) (moved w rest) k)
  where
    moved : WaitingPthread → List WaitingPthread → Scheduler
    moved w rest = record s {
      waiting_threads = rest;
      ready_threads_pq = push_node_pq s.ready_threads_pq w.pthread_id w.priority;
    }

    go :
        (r : Option (WaitingPthread × List WaitingPthread))
        → pop_node_list (is_device io) s.waiting_threads ≡ r
        → PopsDevice io s.waiting_threads r
        → ((w : WaitingPthread) (rest : List WaitingPthread)
            → length rest < fuel
            → wake_loop fuel io (n + 1) (moved w rest)
              ≡ some (n + 1 + length (waiting_for io rest), after_wake io (moved w rest)))
        → wake_loop (suc fuel) io n s
          ≡ some (n + length (waiting_for io s.waiting_threads), after_wake io s)
    go none e pops next =
        rw (e, wake_loop)
          (rw (pops.0, pops.1) (ap {B = Option (ℕ × Scheduler)} (λ m. some (m, s)) (omega arith)))
    go (some (w, rest)) e pops next =
        rw (e, wake_loop)
          (next w rest (omega (arith, pops.2))
            ∙ rw (pops.0, pops.1)
                (ap {B = Option (ℕ × Scheduler)} (λ m. some (m, after_wake io (moved w rest)))
                  (omega arith)))
