-- ===== src/Concrete/Chains.antt =====
-- The table of addresses: how an entry changes its chains.
use thread_scheduler_multipl.Base.{
  ◌<◌, ◌^◌, ℕ, suc, ◌≤◌, ◌≡◌, sym, ap, ◌∙◌, Option, none, some, List, [], ◌∷◌, length, get_elem?,
  set, arith, inl, inr, ◌⊎◌, zero,
}
use thread_scheduler_multipl.HashTable.{
  Entry, HashTable, Put, stored, index, get_value_hashtable, put_hashtable,
}
use thread_scheduler_multipl.HashTable.Hashing.{hash_function_ulong}
use thread_scheduler_multipl.HashTable.Lookup.{Compares, HasChains}
use thread_scheduler_multipl.LinkedList.Nodes.{Memory}
use thread_scheduler_multipl.LinkedList.Pointers.{ListHandle}
use thread_scheduler_multipl.LinkedList.Contents.{length-contents}
use thread_scheduler_multipl.HashTable.Nodes.{NodeTable, chain_of}
use thread_scheduler_multipl.HashTable.Holds.{TableHolds}
use thread_scheduler_multipl.HashTable.Reads.{some-chain, chain-lookup}
use thread_scheduler_multipl.HashTable.Refines.{add_entry-lists, put_hashtable-runs}
use thread_scheduler_multipl.Concrete.State.{compare_pthreads_attr}

pub compare_pthreads-Compares : Compares compare_pthreads_attr
unfolding compare_pthreads_attr
compare_pthreads-Compares e k = ground arith

get_elem?-set :
    {A : Type 0} (xs : List A) (i j : ℕ) (v w : A)
    → get_elem? (set xs i v) j ≡ some w
    → (w ≡ v) ⊎ (get_elem? xs j ≡ some w)
get_elem?-set [] i j v w e = inr e
get_elem?-set (x ∷ xs) zero zero v w e = inl (cc)
get_elem?-set (x ∷ xs) zero (suc j) v w e = inr e
get_elem?-set (x ∷ xs) (suc i) zero v w e = inr e
get_elem?-set (x ∷ xs) (suc i) (suc j) v w e = get_elem?-set xs i j v w e

abbrev lists_of : List (List (Entry ℕ ℕ)) → Put ℕ ℕ → List (List (Entry ℕ ℕ))
lists_of ls (stored ht) = ht.lists
lists_of ls _ = ls

-- A put of a new key makes one chain longer.
pub put-lists :
    (ht ht' : HashTable ℕ ℕ) (k v : ℕ) (xs : List (Entry ℕ ℕ))
    → get_value_hashtable hash_function_ulong compare_pthreads_attr k ht ≡ none
    → get_elem? ht.lists (index hash_function_ulong compare_pthreads_attr ht k) ≡ some xs
    → put_hashtable hash_function_ulong compare_pthreads_attr k v ht ≡ stored ht'
    → ht'.lists
      ≡ set ht.lists
          (index hash_function_ulong compare_pthreads_attr ht k)
          (record { key = k; value = v } ∷ xs)
put-lists ht ht' k v xs absent e put =
    let runs = put_hashtable-runs hash_function_ulong compare_pthreads_attr k v ht in
    let adds = add_entry-lists hash_function_ulong compare_pthreads_attr ht k v xs e in
    ap (lists_of []) (sym put ∙ (rw absent at runs) ∙ adds)

pub short_put :
    (ht ht' : HashTable ℕ ℕ) (k v m : ℕ)
    → HasChains ht
    → get_value_hashtable hash_function_ulong compare_pthreads_attr k ht ≡ none
    → put_hashtable hash_function_ulong compare_pthreads_attr k v ht ≡ stored ht'
    → ((i : ℕ) (xs : List (Entry ℕ ℕ)) → get_elem? ht.lists i ≡ some xs → suc (length xs) ≤ m)
    → (i : ℕ) (xs : List (Entry ℕ ℕ)) → get_elem? ht'.lists i ≡ some xs
    → length xs ≤ m
short_put ht ht' k v m chains absent put short i xs e =
    let (ys, f) = some-chain hash_function_ulong compare_pthreads_attr ht k chains in
    let lists = put-lists ht ht' k v ys absent f put in
    let g = rw lists at e in
    elim (get_elem?-set ht.lists (index hash_function_ulong compare_pthreads_attr ht k) i
      (record { key = k; value = v } ∷ ys) xs g) [
        | inl same ↦ rw same (short (index hash_function_ulong compare_pthreads_attr ht k) ys f)
        | inr old ↦ let n = short i xs old in omega (arith, n)
      ]

chain-size :
    (h : Memory (Entry ℕ ℕ)) (nt : NodeTable) (ht : HashTable ℕ ℕ) (k : ℕ) (l : ListHandle)
    → TableHolds h nt ht
    → HasChains ht
    → chain_of hash_function_ulong compare_pthreads_attr k nt h ≡ some (l, h)
    → (xs : List (Entry ℕ ℕ)) × (get_elem? ht.lists
          (index hash_function_ulong compare_pthreads_attr ht k)
        ≡ some xs)
      × (l.size ≡ length xs)
chain-size h nt ht k l th c e =
    let (xs, f) = some-chain hash_function_ulong compare_pthreads_attr ht k c in
    let (list, at, there, (cs, is, g)) =
      chain-lookup hash_function_ulong compare_pthreads_attr h nt ht k xs th f in
    let same : list ≡ l =
      ap (λ (o : Option (ListHandle × Memory (Entry ℕ ℕ))). elim o [ none ↦ l | some (m, d) ↦ m ])
        (sym there ∙ e) in
    (
      xs,
      f,
      ap (λ m. m.size) (sym same) ∙ is.size ∙ sym (length-contents cs) ∙ ap (λ ys. length ys) g,
    )

-- The key's list in memory can take one more entry.
pub key_chain-short :
    (h : Memory (Entry ℕ ℕ)) (nt : NodeTable) (ht : HashTable ℕ ℕ) (k m : ℕ)
    → TableHolds h nt ht
    → HasChains ht
    → ((i : ℕ) (xs : List (Entry ℕ ℕ)) → get_elem? ht.lists i ≡ some xs → suc (length xs) ≤ m)
    → m < 2 ^ 32
    → (l : ListHandle) → chain_of hash_function_ulong compare_pthreads_attr k nt h ≡ some (l, h)
    → suc l.size < 2 ^ 32
key_chain-short h nt ht k m th c short small l e =
    let (xs, f, size) = chain-size h nt ht k l th c e in
    let bound = short _ xs f in omega (arith, bound, size, small)
