-- ===== src/PriorityQueue/Order.antt =====
-- What the queue holds, and in which order.
use thread_scheduler_multipl.Base.{
  ℕ, ◌≤◌, ◌<◌, ◌≡◌, refl, Bool, false, ◌||◌, List, [], ◌∷◌, ◌++◌, arith, ◌==◌, ltb, leb, All, last,
  All-append, All-map, Bool-cases, inl, inr, length, length-append, suc, if◌then◌else◌,
}
use thread_scheduler_multipl.PriorityQueue.{PqData, pq_data, insert_loop, push_node_pq}

abbrev pub Below : ℕ → PqData → Type 0
Below b x = x.priority ≤ b

abbrev pub IsSorted : List PqData → Type 0
IsSorted [] = Unit
IsSorted (x ∷ xs) = All (Below x.priority) xs × IsSorted xs

abbrev pub has_thread : ℕ → List PqData → Bool
has_thread t [] = false
has_thread t (x ∷ xs) = (x.thread == t) || has_thread t xs

abbrev pub IsDistinct : List PqData → Type 0
IsDistinct [] = Unit
IsDistinct (x ∷ xs) = (has_thread x.thread xs ≡ false) × IsDistinct xs

pub has_thread-append :
    (t : ℕ) (xs ys : List PqData) → has_thread t (xs ++ ys) ≡ (has_thread t xs || has_thread t ys)
has_thread-append t [] ys = refl
has_thread-append t (x ∷ xs) ys = ground (arith, has_thread-append t xs ys)

IsDistinct-append_one :
    (x : PqData) (xs : List PqData)
    → IsDistinct xs
    → has_thread x.thread xs ≡ false
    → IsDistinct (xs ++ (x ∷ []))
IsDistinct-append_one x [] d h = (refl, tt)
IsDistinct-append_one x (y ∷ ys) d h = (
  ground (arith, has_thread-append y.thread ys (x ∷ [])),
  IsDistinct-append_one x ys d.1 (ground arith),
)

IsSorted-append_one :
    (x : PqData) (xs : List PqData)
    → IsSorted xs
    → All (λ y. x.priority ≤ y.priority) xs
    → IsSorted (xs ++ (x ∷ []))
IsSorted-append_one x [] s h = (tt, tt)
IsSorted-append_one x (y ∷ ys) s h =
    (All-append (Below y.priority) ys (x ∷ []) s.0 (h.0, tt), IsSorted-append_one x ys s.1 h.1)

-- In a sorted queue all stand above a bound that the last stands above.
Above-last :
    (b : ℕ) (x : PqData) (xs : List PqData)
    → IsSorted (x ∷ xs)
    → b ≤ (last x xs).priority
    → All (λ y. b ≤ y.priority) (x ∷ xs)
Above-last b x [] s h = (h, tt)
Above-last b x (y ∷ ys) s h = let r = Above-last b y ys s.1 h in (omega (arith, r.0, s.0.0), r)

Below-trans : (a b : ℕ) → a ≤ b → (xs : List PqData) → All (Below a) xs → All (Below b) xs
Below-trans a b h = All-map (λ x k. omega (arith, k))

-- The walk of `push_node_pq` is entered only if the last node has a lower priority, so it links the new node.
module _ (n : PqData) where
  has-insert_loop :
      (prev : PqData) (xs : List PqData) (t : ℕ)
      → (last prev xs).priority < n.priority
      → n.priority ≤ prev.priority
      → has_thread t (insert_loop n prev xs) ≡ ((n.thread == t) || has_thread t xs)
  unfolding insert_loop
  has-insert_loop prev [] t h k = absurd (omega arith)
  has-insert_loop prev (x ∷ xs) t h k = ground (arith, has-insert_loop x xs t)

  length-insert_loop :
      (prev : PqData) (xs : List PqData)
      → (last prev xs).priority < n.priority
      → n.priority ≤ prev.priority
      → length (insert_loop n prev xs) ≡ suc (length xs)
  unfolding insert_loop
  length-insert_loop prev [] h k = absurd (omega arith)
  length-insert_loop prev (x ∷ xs) h k = ground (arith, length-insert_loop x xs)

  insert_loop-IsDistinct :
      (prev : PqData) (xs : List PqData)
      → (last prev xs).priority < n.priority
      → n.priority ≤ prev.priority
      → IsDistinct xs
      → has_thread n.thread xs ≡ false
      → IsDistinct (insert_loop n prev xs)
  unfolding insert_loop
  insert_loop-IsDistinct prev [] h k d new = absurd (omega arith)
  insert_loop-IsDistinct prev (x ∷ xs) h k d new =
      ground (arith, insert_loop-IsDistinct x xs, has-insert_loop x xs x.thread)

  module _ {ℓ} (P : PqData → Type ℓ) where
    insert_loop-All :
        (prev : PqData) (xs : List PqData) → P n → All P xs → All P (insert_loop n prev xs)
    unfolding insert_loop
    insert_loop-All prev [] h k = tt
    insert_loop-All prev (x ∷ xs) h k =
        elim (Bool-cases (prev.priority == n.priority || ltb x.priority n.priority)) [
          | inl here ↦ rw here (h, k)
          | inr later ↦ rw later (k.0, insert_loop-All x xs h k.1)
        ]

  insert_loop-IsSorted :
      (prev : PqData) (xs : List PqData)
      → n.priority ≤ prev.priority
      → IsSorted (prev ∷ xs)
      → IsSorted (insert_loop n prev xs)
  unfolding insert_loop
  insert_loop-IsSorted prev [] k s = tt
  insert_loop-IsSorted prev (x ∷ xs) k s =
      elim (Bool-cases (prev.priority == n.priority || ltb x.priority n.priority)) [
        | inl here ↦
            let le : x.priority ≤ n.priority = ground (arith, s.0.0) in
            rw here ((le, Below-trans x.priority n.priority le xs s.1.0), s.1)
        | inr later ↦
            let le : n.priority ≤ x.priority = ground arith in
            rw later
              (insert_loop-All (Below x.priority) x xs le s.1.0, insert_loop-IsSorted x xs le s.1)
      ]

-- One more thread is in the queue, and no other has come or gone.
pub has_thread-push :
    (l : List PqData) (t p j : ℕ) → has_thread j (push_node_pq l t p) ≡ ((t == j) || has_thread j l)
unfolding push_node_pq
has_thread-push [] t p j = refl
has_thread-push (x ∷ xs) t p j =
    ground (arith, has_thread-append j xs (pq_data t p ∷ []), has-insert_loop (pq_data t p) x xs j)

pub length-push : (l : List PqData) (t p : ℕ) → length (push_node_pq l t p) ≡ suc (length l)
unfolding push_node_pq
length-push [] t p = refl
length-push (x ∷ xs) t p =
    ground (arith, length-append xs (pq_data t p ∷ []), length-insert_loop (pq_data t p) x xs)

pub push-IsDistinct :
    (l : List PqData) (t p : ℕ)
    → IsDistinct l
    → has_thread t l ≡ false
    → IsDistinct (push_node_pq l t p)
unfolding push_node_pq
push-IsDistinct [] t p d h = (refl, tt)
push-IsDistinct (x ∷ xs) t p d h = elim (Bool-cases (ltb x.priority p)) [
  | inl front ↦ rw front (ground arith, d)
  | inr rest ↦ rw rest (elim (Bool-cases (leb p (last x xs).priority)) [
    | inl end ↦ rw end (IsDistinct-append_one (pq_data t p) (x ∷ xs) d h)
    | inr walk ↦ rw walk (
      ground (arith, has-insert_loop (pq_data t p) x xs x.thread),
      insert_loop-IsDistinct (pq_data t p) x xs (ground arith) (ground arith) d.1 (ground arith),
    )
  ])
]

-- If the queue is sorted by falling priority, it is after `push_node_pq`.
pub push-IsSorted : (l : List PqData) (t p : ℕ) → IsSorted l → IsSorted (push_node_pq l t p)
unfolding push_node_pq
push-IsSorted [] t p s = (tt, tt)
push-IsSorted (x ∷ xs) t p s = elim (Bool-cases (ltb x.priority p)) [
  | inl front ↦
      let le : x.priority ≤ p = ground arith in
      rw front ((le, Below-trans x.priority p le xs s.0), s)
  | inr rest ↦ rw rest (elim (Bool-cases (leb p (last x xs).priority)) [
    | inl end ↦
        rw end (IsSorted-append_one (pq_data t p) (x ∷ xs) s (Above-last p x xs s (ground arith)))
    | inr walk ↦
        let le : p ≤ x.priority = ground arith in
        rw walk (
          insert_loop-All (pq_data t p) (Below x.priority) x xs le s.0,
          insert_loop-IsSorted (pq_data t p) x xs le s,
        )
  ])
]

pub push-All {ℓ} :
    (P : PqData → Type ℓ) (l : List PqData) (t p : ℕ)
    → P (pq_data t p)
    → All P l
    → All P (push_node_pq l t p)
unfolding push_node_pq
push-All P [] t p h k = (h, tt)
push-All P (x ∷ xs) t p h k = elim (Bool-cases (ltb x.priority p)) [
  | inl front ↦ rw front (h, k)
  | inr rest ↦ rw rest (elim (Bool-cases (leb p (last x xs).priority)) [
    | inl end ↦ rw end (All-append P (x ∷ xs) (pq_data t p ∷ []) k (h, tt))
    | inr walk ↦ rw walk (k.0, insert_loop-All (pq_data t p) P x xs h k.1)
  ])
]

-- A queue that something was pushed onto has a head.
pub push-cons :
    (l : List PqData) (t p : ℕ) → (x : PqData) × (xs : List PqData) × (push_node_pq l t p ≡ x ∷ xs)
unfolding push_node_pq
push-cons [] t p = (_, _, refl)
push-cons (x ∷ xs) t p = elim (Bool-cases (ltb x.priority p)) [
  | inl front ↦ (pq_data t p, x ∷ xs, rw front)
  | inr rest ↦ (
    x,
    (if leb p (last x xs).priority
        then xs ++ (pq_data t p ∷ [])
        else insert_loop (pq_data t p) x xs),
    rw rest (ground arith),
  )
]

pub last-le :
    (x : PqData) (xs : List PqData) → IsSorted (x ∷ xs) → (last x xs).priority ≤ x.priority
last-le x xs s = (Above-last (last x xs).priority x xs s (omega arith)).0

-- A push below the head is a push onto the rest.
pub push-cons_above :
    (x : PqData) (xs : List PqData) (t p : ℕ)
    → IsSorted xs
    → p < x.priority
    → push_node_pq (x ∷ xs) t p ≡ x ∷ push_node_pq xs t p
unfolding push_node_pq insert_loop
push-cons_above x [] t p s h = ground arith
push-cons_above x (y ∷ ys) t p s h = ground (arith, last-le y ys s)

-- A push adds one thread to the queue: a thread is in the queue afterwards if it is the pushed one or
-- was there before, and the queue is longer by one.
pub push_contents :
    (l : List PqData) (t p j : ℕ)
    → (has_thread j (push_node_pq l t p) ≡ ((t == j) || has_thread j l))
      × (length (push_node_pq l t p) ≡ suc (length l))
push_contents l t p j = (has_thread-push l t p j, length-push l t p)
