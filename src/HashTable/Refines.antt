-- ===== src/HashTable/Refines.antt =====
-- The hash table on nodes against the one on sequences.
use thread_scheduler_multipl.Base.{
  ℕ, suc, ◌+◌, ◌%◌, ◌<◌, ◌^◌, ◌≡◌, refl, sym, ◌∙◌, ◌⊎◌, inl, inr, Option, none, some, List, [], ◌∷◌,
  ◌==◌, if◌then◌else◌, length, arith, get_elem?, set,
}
use thread_scheduler_multipl.LinkedList.{is_empty_list}
use thread_scheduler_multipl.LinkedList.Nodes.{Memory, Access, write, bind-ok, done}
use thread_scheduler_multipl.LinkedList.Pointers.{ListHandle, add_first}
use thread_scheduler_multipl.LinkedList.Chain.{Cells, IsList}
use thread_scheduler_multipl.LinkedList.Contents.{contents, Holds, add_first-refines}
use thread_scheduler_multipl.HashTable.{
  Entry, HashTable, Put, stored, clobbered, out_of_range, index, find_value, get_value_hashtable,
  put_hashtable,
}
use thread_scheduler_multipl.HashTable as Sequences
use thread_scheduler_multipl.HashTable.Lookup.{HasChains}
use thread_scheduler_multipl.HashTable.Nodes.{
  NodeTable, NodePut, chain_of, value_loop, get_value, add_entry, put_table,
}
use thread_scheduler_multipl.HashTable.Nodes as Nodes
use thread_scheduler_multipl.HashTable.Holds.{
  AllHold, AllHold-set, AllHold-write, add_first_writes, TableHolds,
}
use thread_scheduler_multipl.HashTable.Reads.{chain-lookup, some-chain, get_value-refines}

module _ {K V : Type 0} (hash_function : K → ℕ) (compare_function : Entry K V → K → ℕ) where
  abbrev pub PutHolds : Memory (Entry K V) → NodePut V → Put K V → Type 0
  PutHolds h (Nodes.stored nt) (stored ht) = TableHolds h nt ht
  PutHolds h (Nodes.clobbered deep old nt) (clobbered deep' old' ht) =
      (deep ≡ deep') × (old ≡ old') × TableHolds h nt ht
  PutHolds h _ _ = ⊥

  abbrev pub PutsTo : Put K V → Option (NodePut V × Memory (Entry K V)) → Type 0
  PutsTo p none = ⊥
  PutsTo p (some (q, g)) = PutHolds g q p

  -- The table after an addition to the key's list
  unfoldable pub new_table : NodeTable → K → ListHandle → ListHandle → NodeTable
  new_table nt key list after = record nt {
    lists = set nt.lists (hash_function key % 2 ^ 32 % nt.capacity) after;
    size = if list.size == 0 then (nt.size + 1) % 2 ^ 32 else nt.size;
  }

  pub add_entry-at :
      (fresh : ℕ) (key : K) (value : V) (nt : NodeTable) (h g : Memory (Entry K V))
      (list after : ListHandle)
      → chain_of hash_function compare_function key nt h ≡ some (list, h)
      → add_first fresh list (record { key = key; value = value }) h ≡ some (after, g)
      → add_entry hash_function compare_function fresh key value nt h
        ≡ some (Nodes.stored (new_table nt key list after), g)
  unfolding add_entry new_table
  add_entry-at fresh key value nt h g list after e f =
      bind-ok (chain_of hash_function compare_function key nt) _ h h list e
      ∙ bind-ok (add_first fresh list (record { key = key; value = value })) _ h g after f

  empty-cells :
      (h : Memory (Entry K V)) (list : ListHandle) (cs : Cells (Entry K V))
      → IsList h list cs
      → (list.size == 0) ≡ is_empty_list (contents cs)
  empty-cells h list [] is = ground (arith, is.size)
  empty-cells h list ((a, x) ∷ cs) is = ground (arith, is.size)

  empty-agrees :
      (h : Memory (Entry K V)) (list : ListHandle) (xs : List (Entry K V))
      → Holds h list xs
      → (list.size == 0) ≡ is_empty_list xs
  empty-agrees h list xs (cs, is, e) = rw (sym e) (empty-cells h list cs is)

  new_table-TableHolds :
      (h g : Memory (Entry K V)) (nt : NodeTable) (ht : HashTable K V) (key : K)
      (list after : ListHandle) (xs ys : List (Entry K V))
      → TableHolds h nt ht
      → AllHold g nt.lists ht.lists
      → Holds h list xs
      → Holds g after ys
      → TableHolds g (new_table nt key list after) (record ht {
        lists = set ht.lists (index hash_function compare_function ht key) ys;
        size = if is_empty_list xs then (ht.size + 1) % 2 ^ 32 else ht.size;
      })
  unfolding new_table
  new_table-TableHolds h g nt ht key list after xs ys th all holds holds' = record {
    lists = rw th.capacity (
        AllHold-set g nt.lists ht.lists (index hash_function compare_function ht key) after ys all
          holds');
    size = rw (empty-agrees h list xs holds, th.size) refl;
    capacity = th.capacity;
    deep_copy_value = th.deep_copy_value;
  }

  pub add_entry-lists :
      (ht : HashTable K V) (key : K) (value : V) (xs : List (Entry K V))
      → get_elem? ht.lists (index hash_function compare_function ht key) ≡ some xs
      → Sequences.add_entry hash_function compare_function key value ht
        ≡ stored (record ht {
          lists =
              set ht.lists
                (index hash_function compare_function ht key)
                (record { key = key; value = value } ∷ xs);
          size = if is_empty_list xs then (ht.size + 1) % 2 ^ 32 else ht.size;
        })
  unfolding Sequences.add_entry
  add_entry-lists ht key value xs e = rw (e, Sequences.add_entry)

  add-PutsTo :
      (fresh : ℕ) (key : K) (value : V) (h : Memory (Entry K V)) (nt : NodeTable)
      (ht : HashTable K V)
      → TableHolds h nt ht
      → HasChains ht
      → 0 < fresh
      → h fresh ≡ none
      → ((xs : List (Entry K V))
          → get_elem? ht.lists (index hash_function compare_function ht key) ≡ some xs
          → suc (length xs) < 2 ^ 32)
      → PutsTo
          (Sequences.add_entry hash_function compare_function key value ht)
          (add_entry hash_function compare_function fresh key value nt h)
  add-PutsTo fresh key value h nt ht th c pos free short =
      let (xs, e) = some-chain hash_function compare_function ht key c in
      let (list, at, there, holds) =
        chain-lookup hash_function compare_function h nt ht key xs th e in
      let (after, n, wrote) = add_first_writes fresh list (record { key = key; value = value }) h in
      let held : Holds (write h fresh (some n)) after (record { key = key; value = value } ∷ xs) =
        rw wrote at (
          add_first-refines h list fresh (record { key = key; value = value }) xs holds pos free
            (short xs e)) in
      rw
        (
          add_entry-lists ht key value xs e,
          add_entry-at fresh key value nt h (write h fresh (some n)) list after there wrote,
        )
        (new_table-TableHolds h (write h fresh (some n)) nt ht key list after xs
          (record { key = key; value = value } ∷ xs) th
          (AllHold-write h fresh (some n) nt.lists ht.lists free th.lists) holds held)

  put-cases :
      (fresh : ℕ) (key : K) (value : V) (h : Memory (Entry K V)) (nt : NodeTable)
      (ht : HashTable K V) (o : Option V)
      → TableHolds h nt ht
      → PutsTo
          (Sequences.add_entry hash_function compare_function key value ht)
          (add_entry hash_function compare_function fresh key value nt h)
      → PutsTo
          (elim o [
            | none ↦ Sequences.add_entry hash_function compare_function key value ht
            | some tmp ↦ clobbered ht.deep_copy_value tmp ht
          ])
          ((elim o as (λ _. Access (Entry K V) (NodePut V)) [
            | none ↦ add_entry hash_function compare_function fresh key value nt
            | some old ↦ done (Nodes.clobbered nt.deep_copy_value old nt)
          ])
            h)
  put-cases fresh key value h nt ht none th p = p
  put-cases fresh key value h nt ht (some old) th p = (th.deep_copy_value, refl, th)

  pub put_table-runs :
      (fresh : ℕ) (key : K) (value : V) (h : Memory (Entry K V)) (nt : NodeTable) (o : Option V)
      → get_value hash_function compare_function key nt h ≡ some (o, h)
      → put_table hash_function compare_function fresh key value nt h
        ≡ (elim o as (λ _. Access (Entry K V) (NodePut V)) [
          | none ↦ add_entry hash_function compare_function fresh key value nt
          | some old ↦ done (Nodes.clobbered nt.deep_copy_value old nt)
        ])
            h
  unfolding put_table
  put_table-runs fresh key value h nt o e =
      bind-ok (get_value hash_function compare_function key nt) _ h h o e

  pub put_hashtable-runs :
      (key : K) (value : V) (ht : HashTable K V)
      → put_hashtable hash_function compare_function key value ht
        ≡ elim (get_value_hashtable hash_function compare_function key ht) [
          | none ↦ Sequences.add_entry hash_function compare_function key value ht
          | some tmp ↦ clobbered ht.deep_copy_value tmp ht
        ]
  unfolding put_hashtable
  put_hashtable-runs key value ht = refl

  pub put_table-refines :
      (fresh : ℕ) (key : K) (value : V) (h : Memory (Entry K V)) (nt : NodeTable)
      (ht : HashTable K V)
      → TableHolds h nt ht
      → HasChains ht
      → 0 < fresh
      → h fresh ≡ none
      → ((xs : List (Entry K V))
          → get_elem? ht.lists (index hash_function compare_function ht key) ≡ some xs
          → suc (length xs) < 2 ^ 32)
      → PutsTo
          (put_hashtable hash_function compare_function key value ht)
          (put_table hash_function compare_function fresh key value nt h)
  put_table-refines fresh key value h nt ht th c pos free short =
      rw
        (
          put_table-runs fresh key value h nt
              (get_value_hashtable hash_function compare_function key ht)
              (get_value-refines hash_function compare_function h nt ht key th c),
          put_hashtable-runs key value ht,
        )
        (put-cases fresh key value h nt ht
          (get_value_hashtable hash_function compare_function key ht) th
          (add-PutsTo fresh key value h nt ht th c pos free short))

  add_entry-cases :
      (key : K) (value : V) (ht : HashTable K V)
      → (Sequences.add_entry hash_function compare_function key value ht ≡ out_of_range)
        ⊎ ((ht' : HashTable K V) × (Sequences.add_entry hash_function compare_function key value ht
              ≡ stored ht'))
  unfolding Sequences.add_entry
  add_entry-cases key value ht =
      go _ (get_elem? ht.lists (index hash_function compare_function ht key))
    where
      go :
          (f : List (Entry K V) → HashTable K V) (o : Option (List (Entry K V)))
          → ((elim o [ none ↦ out_of_range | some chain ↦ stored (f chain) ]) ≡ out_of_range)
            ⊎ ((ht' : HashTable K V) × ((elim o [
              | none ↦ out_of_range
              | some chain ↦ stored (f chain)
            ])
                  ≡ stored ht'))
      go f none = inl refl
      go f (some chain) = inr (f chain, refl)

  -- A table with one more entry, and the array that holds it
  abbrev pub Stores : Put K V → Option (NodePut V × Memory (Entry K V)) → Type 0
  Stores p r =
      (ht' : HashTable K V) × (nt' : NodeTable) × (g : Memory (Entry K V)) × (p ≡ stored ht')
      × (r ≡ some (Nodes.stored nt', g))
      × TableHolds g nt' ht'

  stored-Stores :
      (ht' : HashTable K V) (r : Option (NodePut V × Memory (Entry K V)))
      → PutsTo (stored ht') r
      → Stores (stored ht') r
  stored-Stores ht' none p = absurd p
  stored-Stores ht' (some (Nodes.stored nt', g)) p = (ht', nt', g, refl, refl, p)
  stored-Stores ht' (some (Nodes.clobbered deep old nt', g)) p = absurd p

  not-out_of_range : (r : Option (NodePut V × Memory (Entry K V))) → PutsTo out_of_range r → ⊥
  not-out_of_range none p = p
  not-out_of_range (some (Nodes.stored nt', g)) p = p
  not-out_of_range (some (Nodes.clobbered deep old nt', g)) p = p

  -- If the array's lists hold the table's chains, there is one for each index, the key has no
  -- value, `malloc` returns a free address, and the key's chain stays shorter than 2^32,
  -- `put_table` ends without a fault and stores an entry, as `put_hashtable` does: the array's
  -- lists then hold the new table's chains.
  pub put_table-Stores :
      (fresh : ℕ) (key : K) (value : V) (h : Memory (Entry K V)) (nt : NodeTable)
      (ht : HashTable K V)
      → TableHolds h nt ht
      → HasChains ht
      → get_value_hashtable hash_function compare_function key ht ≡ none
      → 0 < fresh
      → h fresh ≡ none
      → ((xs : List (Entry K V))
          → get_elem? ht.lists (index hash_function compare_function ht key) ≡ some xs
          → suc (length xs) < 2 ^ 32)
      → Stores
          (put_hashtable hash_function compare_function key value ht)
          (put_table hash_function compare_function fresh key value nt h)
  put_table-Stores fresh key value h nt ht th c absent pos free short =
      let puts = put_table-refines fresh key value h nt ht th c pos free short in
      let adds = rw absent at (put_hashtable-runs key value ht) in
      elim (add_entry-cases key value ht) [
        | inl out ↦ absurd (not-out_of_range _ (rw (adds ∙ out) at puts))
        | inr (ht', e) ↦ rw (adds ∙ e) (stored-Stores ht' _ (rw (adds ∙ e) at puts))
      ]
