-- ===== src/PriorityQueue/Bag.antt =====
-- The queue of Linux/priority_queue.c as a bag: its elements, up to order.
use mathlib.Core.List.{Perm}
use mathlib.Core.List.Perm
use thread_scheduler_multipl.Base.{
  ℕ, ◌≤◌, ◌<◌, ◌≡◌, refl, ◌||◌, ◌==◌, ltb, leb, some, List, [], ◌∷◌, ◌++◌, inl, inr, last, arith,
  Bool-cases, All,
}
use thread_scheduler_multipl.PriorityQueue.{
  PqData, pq_data, insert_loop, push_node_pq, pop_node_pq, peak_pq,
}
use thread_scheduler_multipl.PriorityQueue.Order.{Below, IsSorted, push-IsSorted, push-cons}

insert_loop-Perm :
    (n prev : PqData) (xs : List PqData)
    → (last prev xs).priority < n.priority
    → n.priority ≤ prev.priority
    → Perm (insert_loop n prev xs) (n ∷ xs)
unfolding insert_loop
insert_loop-Perm n prev [] h k = absurd (omega (arith, h, k))
insert_loop-Perm n prev (x ∷ xs) h k =
    elim (Bool-cases (prev.priority == n.priority || ltb x.priority n.priority)) [
      | inl here ↦ rw here (Perm.refl (n ∷ x ∷ xs))
      | inr later ↦ rw later (
          Perm.trans (Perm.cons x (insert_loop-Perm n x xs h (ground (arith, later))))
            (Perm.swap n x xs))
    ]

append_one-Perm : (x : PqData) (xs : List PqData) → Perm (xs ++ (x ∷ [])) (x ∷ xs)
append_one-Perm x [] = Perm.refl (x ∷ [])
append_one-Perm x (y ∷ ys) = Perm.trans (Perm.cons y (append_one-Perm x ys)) (Perm.swap x y ys)

push-Perm : (l : List PqData) (t p : ℕ) → Perm (push_node_pq l t p) (pq_data t p ∷ l)
unfolding push_node_pq
push-Perm [] t p = Perm.refl (pq_data t p ∷ [])
push-Perm (x ∷ xs) t p = elim (Bool-cases (ltb x.priority p)) [
  | inl front ↦ rw front (Perm.refl (pq_data t p ∷ x ∷ xs))
  | inr rest ↦ rw rest (elim (Bool-cases (leb p (last x xs).priority)) [
    | inl end ↦ rw end (append_one-Perm (pq_data t p) (x ∷ xs))
    | inr inner ↦ rw inner (
        Perm.trans
          (Perm.cons x
            (insert_loop-Perm (pq_data t p) x xs (ground (arith, inner)) (ground (arith, rest))))
          (Perm.swap (pq_data t p) x xs))
  ])
]

-- If the queue is sorted, then after a push `peak_pq` finds an element; none that `pop_node_pq`
-- leaves has a bigger priority, and that element and those left are, up to order, the pushed thread
-- and the queue before.
pub bag_lem :
    (l : List PqData) (t p : ℕ)
    → IsSorted l
    → (x : PqData) × (peak_pq (push_node_pq l t p) ≡ some x)
      × All (Below x.priority) (pop_node_pq (push_node_pq l t p))
      × Perm (x ∷ pop_node_pq (push_node_pq l t p)) (pq_data t p ∷ l)
unfolding peak_pq pop_node_pq
bag_lem l t p s =
    let (x, xs, e) = push-cons l t p in
    let sorted : IsSorted (x ∷ xs) = rw e at (push-IsSorted l t p s) in
    (x, rw e refl, rw e (sorted.0), rw e (rw e at (push-Perm l t p)))
