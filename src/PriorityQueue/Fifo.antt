-- ===== src/PriorityQueue/Fifo.antt =====
-- Where `push_node_pq` puts a thread among those of its own priority.
use thread_scheduler_multipl.Base.{
  ℕ, suc, ◌≤◌, ◌<◌, ◌≡◌, refl, List, [], ◌∷◌, ◌++◌, arith, ◌==◌, ltb, All, last, if◌then◌else◌,
}
use thread_scheduler_multipl.PriorityQueue.{PqData, pq_data, insert_loop, push_node_pq}
use thread_scheduler_multipl.PriorityQueue.Order.{IsSorted, last-le}

-- Round-robin order: behind every thread that is not of a lower priority.
unfoldable pub stable_insert : PqData → List PqData → List PqData
stable_insert n [] = n ∷ []
stable_insert n (x ∷ xs) = if ltb x.priority n.priority then n ∷ x ∷ xs else x ∷ stable_insert n xs

unfoldable pub count_priority : ℕ → List PqData → ℕ
count_priority p [] = 0
count_priority p (x ∷ xs) =
    let rest = count_priority p xs in if x.priority == p then suc rest else rest

insert_loop-stable :
    (n prev : PqData) (xs : List PqData)
    → IsSorted (prev ∷ xs)
    → count_priority n.priority (prev ∷ xs) ≤ 1
    → (last prev xs).priority < n.priority
    → n.priority ≤ prev.priority
    → insert_loop n prev xs ≡ stable_insert n xs
unfolding insert_loop stable_insert count_priority
insert_loop-stable n prev [] s c h k = absurd (omega arith)
insert_loop-stable n prev (x ∷ xs) s c h k = ground (arith, s.0.0, insert_loop-stable n x xs s.1)

stable_insert-end :
    (n : PqData) (x : PqData) (xs : List PqData)
    → IsSorted (x ∷ xs)
    → n.priority ≤ (last x xs).priority
    → stable_insert n (x ∷ xs) ≡ (x ∷ xs) ++ (n ∷ [])
unfolding stable_insert
stable_insert-end n x [] s h = ground arith
stable_insert-end n x (y ∷ ys) s h =
    ground (arith, stable_insert-end n y ys s.1 h, last-le x (y ∷ ys) s)

stable_insert-front :
    (n : PqData) (x : PqData) (xs : List PqData)
    → x.priority < n.priority
    → stable_insert n (x ∷ xs) ≡ n ∷ x ∷ xs
unfolding stable_insert
stable_insert-front n x xs h = ground arith

stable_insert-back :
    (n : PqData) (x : PqData) (xs : List PqData)
    → n.priority ≤ x.priority
    → stable_insert n (x ∷ xs) ≡ x ∷ stable_insert n xs
unfolding stable_insert
stable_insert-back n x xs h = ground arith

-- On a sorted queue with at most one thread of the pushed priority, `push_node_pq` puts the new
-- thread behind every thread that is not of a lower priority, and before the others.
pub push-stable_insert :
    (l : List PqData) (t p : ℕ)
    → IsSorted l
    → count_priority p l ≤ 1
    → push_node_pq l t p ≡ stable_insert (pq_data t p) l
unfolding push_node_pq
push-stable_insert [] t p s c = unfold stable_insert in refl
push-stable_insert (x ∷ xs) t p s c = ground (
  arith,
  stable_insert-front (pq_data t p) x xs,
  stable_insert-end (pq_data t p) x xs s,
  insert_loop-stable (pq_data t p) x xs s c,
  stable_insert-back (pq_data t p) x xs,
)

insert_loop-overtakes :
    (n prev e : PqData) (hs es : List PqData)
    → n.priority < prev.priority
    → All (λ x. n.priority < x.priority) hs
    → e.priority ≡ n.priority
    → (last e es).priority < n.priority
    → insert_loop n prev (hs ++ (e ∷ es)) ≡ hs ++ (e ∷ n ∷ es)
unfolding insert_loop
insert_loop-overtakes n prev e [] [] above hs-above eq low = absurd (omega arith)
insert_loop-overtakes n prev e [] (y ∷ ys) above hs-above eq low = ground arith
insert_loop-overtakes n prev e (h ∷ hs) es above hs-above eq low =
    ground (arith, insert_loop-overtakes n h e hs es hs-above.0 hs-above.1 eq low)

last-append : (x e : PqData) (hs es : List PqData) → last x (hs ++ (e ∷ es)) ≡ last e es
last-append x e [] es = refl
last-append x e (h ∷ hs) es = last-append h e hs es

-- If all of `hs` have a bigger priority than `p`, `e` has the priority `p`, and the last thread of
-- `e ∷ es` has a lower one, then a push of priority `p` puts the new thread directly behind `e`,
-- before all of `es`.
pub push-overtakes :
    (hs es : List PqData) (e : PqData) (t p : ℕ)
    → All (λ x. p < x.priority) hs
    → e.priority ≡ p
    → (last e es).priority < p
    → push_node_pq (hs ++ (e ∷ es)) t p ≡ hs ++ (e ∷ pq_data t p ∷ es)
unfolding push_node_pq insert_loop
push-overtakes [] [] e t p above eq low = absurd (omega arith)
push-overtakes [] (y ∷ ys) e t p above eq low = ground arith
push-overtakes (h ∷ hs) es e t p above eq low = ground (
  arith,
  last-append h e hs es,
  insert_loop-overtakes (pq_data t p) h e hs es above.0 above.1 eq low,
)
