-- ===== src/PriorityQueue/KeepsNodes.antt =====
-- Which addresses the functions on a queue of nodes may take into use.
use thread_scheduler_multipl.Base.{ℕ, zero, suc, ◌||◌, ◌==◌, ltb, leb}
use thread_scheduler_multipl.LinkedList.Pointers.{ListHandle}
use thread_scheduler_multipl.LinkedList.Keeps.{
  Keeps, StaysFree-if, Keeps-done, Keeps-bind, Keeps-seq, Keeps-if, Keeps-load, Keeps-store,
  Keeps-free, Keeps-set_next, Keeps-add_first, Keeps-add_last,
}
use thread_scheduler_multipl.PriorityQueue.{PqData}
use thread_scheduler_multipl.PriorityQueue.Nodes.{push_loop, push_inside, push_node, pop_top}

Keeps-push_loop :
    (fuel fresh priority prev curr : ℕ) → Keeps fresh (push_loop fuel priority fresh prev curr)
unfolding push_loop
Keeps-push_loop zero fresh priority prev curr = record { at = λ h. tt }
Keeps-push_loop (suc fuel) fresh priority prev curr = record {
  at = λ h.
      StaysFree-if fresh h _ _ (curr == 0) (λ p ne e. e)
        ((Keeps-bind (Keeps-load fresh prev) (λ p. Keeps-bind (Keeps-load fresh curr) (λ n.
            Keeps-if (p.content.priority == priority || ltb n.content.priority priority)
              (Keeps-seq (Keeps-set_next fresh _ _) (Keeps-set_next fresh _ _))
              (Keeps-push_loop fuel fresh priority curr n.next)))).at
          h);
}

Keeps-push_inside :
    (fresh garbage : ℕ) (pq : ListHandle) (x : PqData)
    → Keeps fresh (push_inside fresh garbage pq x)
unfolding push_inside
Keeps-push_inside fresh garbage pq x = Keeps-seq (Keeps-store fresh _) (
    Keeps-bind (Keeps-load fresh pq.head) (λ p.
      Keeps-seq (Keeps-push_loop pq.size fresh x.priority pq.head p.next) (Keeps-done fresh _)))

pub Keeps-push_node :
    (fresh garbage : ℕ) (pq : ListHandle) (t priority : ℕ)
    → Keeps fresh (push_node fresh garbage pq t priority)
unfolding push_node
Keeps-push_node fresh garbage pq t priority = Keeps-if (pq.size == 0) (Keeps-add_first fresh pq _) (
    Keeps-bind (Keeps-load fresh pq.head) (λ first.
      Keeps-if (ltb first.content.priority priority) (Keeps-add_first fresh pq _) (
        Keeps-bind (Keeps-load fresh pq.tail) (λ last.
          Keeps-if (leb priority last.content.priority) (Keeps-add_last fresh pq _)
            (Keeps-push_inside fresh garbage pq _)))))

pub Keeps-pop_top : (fresh : ℕ) (pq : ListHandle) → Keeps fresh (pop_top pq)
unfolding pop_top
Keeps-pop_top fresh pq = Keeps-if (pq.size == 0) (Keeps-done fresh _) (
    Keeps-bind (Keeps-load fresh pq.head)
      (λ first. Keeps-seq (Keeps-free fresh pq.head) (Keeps-done fresh _)))
