-- ===== src/HashTable/Holds.antt =====
-- The tables of nodes that hold a table of sequences.
use thread_scheduler_multipl.Base.{
  ℕ, zero, suc, ◌≡◌, refl, Bool, Option, none, some, List, [], ◌∷◌, ◌==◌, arith, Bool-cases, inl,
  inr, get_elem?, set, replicate,
}
use thread_scheduler_multipl.LinkedList.Nodes.{Node, node, Memory, write}
use thread_scheduler_multipl.LinkedList.Pointers.{ListHandle, add_first, inc_u32}
use thread_scheduler_multipl.LinkedList.Chain.{Chain-write}
use thread_scheduler_multipl.LinkedList.Contents.{Holds, free-has}
use thread_scheduler_multipl.HashTable.{Entry, HashTable, initialize_hashtable}
use thread_scheduler_multipl.HashTable.Nodes.{NodeTable, empty_list, initialize_table}

module _ {A : Type 0} where
  abbrev pub AllHold : Memory A → List ListHandle → List (List A) → Type 0
  AllHold h [] [] = Unit
  AllHold h [] (c ∷ cs) = ⊥
  AllHold h (l ∷ ls) [] = ⊥
  AllHold h (l ∷ ls) (c ∷ cs) = Holds h l c × AllHold h ls cs

  abbrev pub BothHold : Memory A → Option ListHandle → Option (List A) → Type 0
  BothHold h none none = Unit
  BothHold h none (some c) = ⊥
  BothHold h (some l) none = ⊥
  BothHold h (some l) (some c) = Holds h l c

  pub AllHold-get :
      (h : Memory A) (ls : List ListHandle) (cs : List (List A)) (i : ℕ)
      → AllHold h ls cs
      → BothHold h (get_elem? ls i) (get_elem? cs i)
  AllHold-get h [] [] i a = tt
  AllHold-get h [] (c ∷ cs) i a = absurd a
  AllHold-get h (l ∷ ls) [] i a = absurd a
  AllHold-get h (l ∷ ls) (c ∷ cs) zero a = a.0
  AllHold-get h (l ∷ ls) (c ∷ cs) (suc i) a = AllHold-get h ls cs i a.1

  pub AllHold-set :
      (h : Memory A) (ls : List ListHandle) (cs : List (List A)) (i : ℕ) (l : ListHandle)
      (c : List A)
      → AllHold h ls cs
      → Holds h l c
      → AllHold h (set ls i l) (set cs i c)
  AllHold-set h [] [] i l c a b = tt
  AllHold-set h [] (c' ∷ cs) i l c a b = absurd a
  AllHold-set h (l' ∷ ls) [] i l c a b = absurd a
  AllHold-set h (l' ∷ ls) (c' ∷ cs) zero l c a b = (b, a.1)
  AllHold-set h (l' ∷ ls) (c' ∷ cs) (suc i) l c a b = (a.0, AllHold-set h ls cs i l c a.1 b)

  -- A write at a free address disturbs no list.
  Holds-write :
      (h : Memory A) (p : ℕ) (n : Option (Node A)) (l : ListHandle) (xs : List A)
      → h p ≡ none
      → Holds h l xs
      → Holds (write h p n) l xs
  Holds-write h p n l xs free (cs, is, e) = (
    cs,
    record {
      head = is.head;
      tail = is.tail;
      size = is.size;
      small = is.small;
      chain = Chain-write h p n cs is.chain (free-has h p cs is.chain free);
    },
    e,
  )

  pub AllHold-write :
      (h : Memory A) (p : ℕ) (n : Option (Node A)) (ls : List ListHandle) (cs : List (List A))
      → h p ≡ none
      → AllHold h ls cs
      → AllHold (write h p n) ls cs
  AllHold-write h p n [] [] free a = tt
  AllHold-write h p n [] (c ∷ cs) free a = absurd a
  AllHold-write h p n (l ∷ ls) [] free a = absurd a
  AllHold-write h p n (l ∷ ls) (c ∷ cs) free a =
      (Holds-write h p n l c free a.0, AllHold-write h p n ls cs free a.1)

  -- `add_first` writes the new node and nothing else.
  pub add_first_writes :
      (fresh : ℕ) (list : ListHandle) (x : A) (h : Memory A)
      → (l : ListHandle) × (n : Node A) × (add_first fresh list x h
          ≡ some (l, write h fresh (some n)))
  unfolding add_first
  add_first_writes fresh list x h = elim (Bool-cases (list.size == 0)) [
    | inl e ↦ (record { head = fresh; tail = fresh; size = inc_u32 list.size }, node x 0, rw e refl)
    | inr e ↦ (record list { head = fresh; size = inc_u32 list.size }, node x list.head, rw e refl)
  ]

  Holds-empty : (h : Memory A) → Holds h empty_list []
  Holds-empty h =
      ([], record { head = refl; tail = refl; size = refl; small = omega arith; chain = tt }, refl)

  pub AllHold-replicate :
      (h : Memory A) (n : ℕ) → AllHold h (replicate n empty_list) (replicate n [])
  AllHold-replicate h zero = tt
  AllHold-replicate h (suc n) = (Holds-empty h, AllHold-replicate h n)

pub record TableHolds {K V : Type 0} (h : Memory (Entry K V)) (nt : NodeTable) (ht : HashTable K V)
    : Type 0 where
  pub lists : AllHold h nt.lists ht.lists
  pub size : nt.size ≡ ht.size
  pub capacity : nt.capacity ≡ ht.capacity
  pub deep_copy_value : nt.deep_copy_value ≡ ht.deep_copy_value

pub initialize-TableHolds :
    {K V : Type 0} (h : Memory (Entry K V)) (capacity : ℕ) (deep : Bool)
    → TableHolds {K = K} {V = V} h
        (initialize_table capacity deep)
        (initialize_hashtable capacity deep)
unfolding initialize_table initialize_hashtable
initialize-TableHolds h capacity deep = record {
  lists = AllHold-replicate h capacity;
  size = refl;
  capacity = refl;
  deep_copy_value = refl;
}
