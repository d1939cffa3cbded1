-- ===== src/LinkedList/Keeps.antt =====
-- Which addresses a function on nodes may take into use: a rule for each way of building one.
use thread_scheduler_multipl.Base.{
  ℕ, zero, suc, ◌≡◌, ◌≢◌, Bool, true, false, Option, none, some, ◌==◌, if◌then◌else◌, arith, ◌⊎◌,
  inl, inr,
}
use thread_scheduler_multipl.LinkedList.Nodes.{
  Node, node, Memory, Access, write, done, ◌>>=◌, load, store, set_next, free, load-cases, load-at,
}
use thread_scheduler_multipl.LinkedList.Pointers.{
  ListHandle, add_first, add_last, pop_loop, pop_node,
}

module _ {A : Type 0} where
  abbrev pub StaysFree : {B : Type 0} → ℕ → Memory A → Option (B × Memory A) → Type 0
  StaysFree fresh h none = Unit
  StaysFree fresh h (some (b, g)) = (p : ℕ) → p ≢ fresh → h p ≡ none → g p ≡ none

  -- Every free address but `fresh` stays free.
  pub record Keeps {B : Type 0} (fresh : ℕ) (m : Access A B) : Type 0 where
    pub at : (h : Memory A) → StaysFree fresh h (m h)

  pub Keeps-done : {B : Type 0} (fresh : ℕ) (b : B) → Keeps fresh (done b)
  Keeps-done fresh b = record { at = λ h p ne e. e }

  then-StaysFree :
      {B C : Type 0} (fresh : ℕ) (h : Memory A) (r : Option (B × Memory A)) (f : B → Access A C)
      → StaysFree fresh h r
      → ((b : B) → Keeps fresh (f b))
      → StaysFree fresh h (elim r [ none ↦ none | some (b, g) ↦ f b g ])
  then-StaysFree fresh h none f k rule = tt
  then-StaysFree {C = C} fresh h (some (b, g)) f k rule = after (f b g) ((rule b).at g)
    where
      after : (r : Option (C × Memory A)) → StaysFree fresh g r → StaysFree fresh h r
      after none l = tt
      after (some (c, g')) l = λ p ne e. l p ne (k p ne e)

  pub Keeps-bind :
      {B C : Type 0} {fresh : ℕ} {m : Access A B} {f : B → Access A C}
      → Keeps fresh m
      → ((b : B) → Keeps fresh (f b))
      → Keeps fresh (m >>= f)
  Keeps-bind {fresh = fresh} {m = m} {f = f} k rule = record {
    at = λ h. then-StaysFree fresh h (m h) f (k.at h) rule;
  }

  pub Keeps-seq :
      {C : Type 0} {fresh : ℕ} {m : Access A (Unit {0})} {n : Access A C}
      → Keeps fresh m
      → Keeps fresh n
      → Keeps fresh (m >>= λ _. n)
  Keeps-seq k l = Keeps-bind k (λ _. l)

  pub Keeps-if :
      {B : Type 0} {fresh : ℕ} {m n : Access A B} (b : Bool)
      → Keeps fresh m
      → Keeps fresh n
      → Keeps fresh (if b then m else n)
  Keeps-if true k l = k
  Keeps-if false k l = l

  pub StaysFree-if :
      {B : Type 0} (fresh : ℕ) (h : Memory A) (r o : Option (B × Memory A)) (b : Bool)
      → StaysFree fresh h r
      → StaysFree fresh h o
      → StaysFree fresh h (if b then r else o)
  StaysFree-if fresh h r o true k l = k
  StaysFree-if fresh h r o false k l = l

  load-StaysFree : (fresh p : ℕ) (h : Memory A) → StaysFree fresh h (load p h)
  load-StaysFree fresh p h = elim (load-cases h p) [
    | inl e ↦ rw e tt
    | inr (n, valid, e) ↦ rw e (λ q ne f. f)
  ]

  pub Keeps-load : (fresh p : ℕ) → Keeps fresh (load p)
  Keeps-load fresh p = record { at = load-StaysFree fresh p }

  pub Keeps-store : (fresh : ℕ) (n : Node A) → Keeps fresh (store fresh n)
  Keeps-store fresh n = record { at = λ h p ne e. ground (arith, e, ne) }

  pub Keeps-free : (fresh p : ℕ) → Keeps fresh (free p)
  unfolding free
  Keeps-free fresh p =
      Keeps-bind (Keeps-load fresh p) (λ n. record { at = λ h q ne e. ground (arith, e) })

  set_next-cases :
      (p q : ℕ) (h : Memory A)
      → (set_next p q h ≡ none)
        ⊎ ((n : Node A) × (h p ≡ some n)
            × (set_next p q h ≡ some (tt, write h p (some (node n.content q)))))
  unfolding set_next
  set_next-cases p q h = elim (load-cases h p) [
    | inl e ↦ inl (ground (arith, e))
    | inr (n, valid, e) ↦ inr (n, load-at h p n e, ground (arith, e))
  ]

  set_next-StaysFree : (fresh p q : ℕ) (h : Memory A) → StaysFree fresh h (set_next p q h)
  set_next-StaysFree fresh p q h = elim (set_next-cases p q h) [
    | inl e ↦ rw e tt
    | inr (n, at, e) ↦ rw e (λ r ne f. ground (arith, at, f))
  ]

  -- A node that is linked is in use.
  pub Keeps-set_next : (fresh p q : ℕ) → Keeps fresh (set_next p q)
  Keeps-set_next fresh p q = record { at = set_next-StaysFree fresh p q }

  pub Keeps-add_first :
      (fresh : ℕ) (list : ListHandle) (x : A) → Keeps fresh (add_first fresh list x)
  unfolding add_first
  Keeps-add_first fresh list x =
      Keeps-if (list.size == 0) (Keeps-seq (Keeps-store fresh _) (Keeps-done fresh _))
        (Keeps-seq (Keeps-store fresh _) (Keeps-done fresh _))

  pub Keeps-add_last : (fresh : ℕ) (list : ListHandle) (x : A) → Keeps fresh (add_last fresh list x)
  unfolding add_last
  Keeps-add_last fresh list x = Keeps-seq (Keeps-store fresh _) (
      Keeps-if (list.size == 0) (Keeps-done fresh _)
        (Keeps-seq (Keeps-set_next fresh _ _) (Keeps-done fresh _)))

  Keeps-pop_loop :
      (fuel fresh : ℕ) (matches : A → Bool) (tail prev curr : ℕ)
      → Keeps fresh (pop_loop fuel matches tail prev curr)
  unfolding pop_loop
  Keeps-pop_loop zero fresh matches tail prev curr = record { at = λ h. tt }
  Keeps-pop_loop (suc fuel) fresh matches tail prev curr = Keeps-bind (Keeps-load fresh curr) (λ n.
      Keeps-if (curr == tail)
        (Keeps-if (matches n.content) (Keeps-seq (Keeps-set_next fresh _ _) (Keeps-done fresh _))
          (Keeps-done fresh _))
        (Keeps-if (matches n.content) (Keeps-seq (Keeps-set_next fresh _ _) (Keeps-done fresh _))
          (Keeps-pop_loop fuel fresh matches tail curr n.next)))

  pub Keeps-pop_node :
      (fresh : ℕ) (matches : A → Bool) (list : ListHandle) → Keeps fresh (pop_node matches list)
  unfolding pop_node
  Keeps-pop_node fresh matches list = Keeps-if (list.size == 0) (Keeps-done fresh _) (
      Keeps-bind (Keeps-load fresh list.head) (λ n.
        Keeps-if (list.size == 1)
          (Keeps-if (matches n.content) (Keeps-done fresh _) (Keeps-done fresh _))
          (Keeps-if (matches n.content) (Keeps-done fresh _) (
            Keeps-bind (Keeps-pop_loop list.size fresh matches list.tail list.head n.next)
              (λ r. Keeps-done fresh _)))))
