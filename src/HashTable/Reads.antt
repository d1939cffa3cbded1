-- ===== src/HashTable/Reads.antt =====
-- `get_value_hashtable` on nodes against the one on sequences.
use thread_scheduler_multipl.Base.{
  ℕ, zero, suc, ◌%◌, ◌<◌, ◌^◌, ◌≡◌, refl, sym, ap, ◌∙◌, Option, none, some, List, [], ◌∷◌, length,
  arith, get_elem?, get_elem?-lt,
}
use thread_scheduler_multipl.LinkedList.Nodes.{node, Memory, load-ok, bind-ok}
use thread_scheduler_multipl.LinkedList.Pointers.{ListHandle}
use thread_scheduler_multipl.LinkedList.Chain.{Cells, first, Chain}
use thread_scheduler_multipl.LinkedList.Contents.{contents, Holds}
use thread_scheduler_multipl.HashTable.{
  Entry, HashTable, index, find_value, get_value_hashtable, find_key, has_value_hashtable,
}
use thread_scheduler_multipl.HashTable.Lookup.{HasChains}
use thread_scheduler_multipl.HashTable.Nodes.{
  NodeTable, chain_of, value_loop, get_value, key_loop, has_value,
}
use thread_scheduler_multipl.HashTable.Holds.{BothHold, AllHold-get, TableHolds}

module _ {K V : Type 0} (hash_function : K → ℕ) (compare_function : Entry K V → K → ℕ) where
  value_loop_lem :
      (fuel : ℕ) (h : Memory (Entry K V)) (key : K) (cs : Cells (Entry K V))
      → length cs < fuel
      → Chain h cs
      → value_loop hash_function compare_function fuel key (first cs) h
        ≡ some (find_value hash_function compare_function (contents cs) key, h)
  unfolding value_loop find_value
  value_loop_lem zero h key cs k c = absurd (omega arith)
  value_loop_lem (suc fuel) h key [] k c = refl
  value_loop_lem (suc fuel) h key ((a, x) ∷ cs) k c = ground (
    arith,
    load-ok h a (node x (first cs)) c.0 c.1,
    c.0,
    value_loop_lem fuel h key cs (omega arith) c.3,
  )

  value_loop-Holds :
      (h : Memory (Entry K V)) (key : K) (list : ListHandle) (xs : List (Entry K V))
      → Holds h list xs
      → value_loop hash_function compare_function (suc list.size) key list.head h
        ≡ some (find_value hash_function compare_function xs key, h)
  value_loop-Holds h key list xs (cs, is, e) =
      rw (is.head, sym e)
        (value_loop_lem (suc list.size) h key cs (omega (arith, is.size)) is.chain)

  -- The array holds a list for the key's chain.
  some-list :
      (h : Memory (Entry K V)) (o : Option ListHandle) (xs : List (Entry K V))
      → BothHold h o (some xs)
      → (list : ListHandle) × (o ≡ some list) × Holds h list xs
  some-list h none xs b = absurd b
  some-list h (some list) xs b = (list, refl, b)

  pub chain-lookup :
      (h : Memory (Entry K V)) (nt : NodeTable) (ht : HashTable K V) (key : K)
      (xs : List (Entry K V))
      → TableHolds h nt ht
      → get_elem? ht.lists (index hash_function compare_function ht key) ≡ some xs
      → (list : ListHandle) × (get_elem? nt.lists (hash_function key % 2 ^ 32 % nt.capacity)
          ≡ some list)
        × (chain_of hash_function compare_function key nt h ≡ some (list, h))
        × Holds h list xs
  unfolding chain_of
  chain-lookup h nt ht key xs th e =
      let (list, f, holds) =
        some-list h (get_elem? nt.lists (index hash_function compare_function ht key)) xs (
          rw e at (
            AllHold-get h nt.lists ht.lists (index hash_function compare_function ht key)
              th.lists)) in
      let at : get_elem? nt.lists (hash_function key % 2 ^ 32 % nt.capacity) ≡ some list =
        rw th.capacity f in
      (list, at, rw (at, chain_of), holds)

  pub some-chain :
      (ht : HashTable K V) (key : K)
      → HasChains ht
      → (xs : List (Entry K V)) × (get_elem? ht.lists (index hash_function compare_function ht key)
          ≡ some xs)
  some-chain ht key c =
      get_elem?-lt ht.lists (index hash_function compare_function ht key)
        (grind (arith, c.pos, c.chains))

  value-in :
      (ht : HashTable K V) (key : K) (xs : List (Entry K V))
      → get_elem? ht.lists (index hash_function compare_function ht key) ≡ some xs
      → get_value_hashtable hash_function compare_function key ht
        ≡ find_value hash_function compare_function xs key
  unfolding get_value_hashtable
  value-in ht key xs e = rw (e, get_value_hashtable)

  pub get_value-at :
      (h : Memory (Entry K V)) (nt : NodeTable) (key : K) (list : ListHandle)
      (xs : List (Entry K V))
      → chain_of hash_function compare_function key nt h ≡ some (list, h)
      → Holds h list xs
      → get_value hash_function compare_function key nt h
        ≡ some (find_value hash_function compare_function xs key, h)
  unfolding get_value
  get_value-at h nt key list xs e holds =
      bind-ok (chain_of hash_function compare_function key nt)
        (λ l. value_loop hash_function compare_function (suc l.size) key l.head) h h list e
      ∙ value_loop-Holds h key list xs holds

  -- If the array's lists hold the table's chains, and there is one for each index, `get_value` ends
  -- without a fault, writes nothing, and returns what `get_value_hashtable` does.
  pub get_value-refines :
      (h : Memory (Entry K V)) (nt : NodeTable) (ht : HashTable K V) (key : K)
      → TableHolds h nt ht
      → HasChains ht
      → get_value hash_function compare_function key nt h
        ≡ some (get_value_hashtable hash_function compare_function key ht, h)
  get_value-refines h nt ht key th c =
      let (xs, e) = some-chain ht key c in
      let (list, at, there, holds) = chain-lookup h nt ht key xs th e in
      get_value-at h nt key list xs there holds
      ∙ ap (λ (v : Option V). some (v, h)) (sym (value-in ht key xs e))

  key_loop_lem :
      (fuel : ℕ) (h : Memory (Entry K V)) (key : K) (cs : Cells (Entry K V))
      → length cs < fuel
      → Chain h cs
      → key_loop hash_function compare_function fuel key (first cs) h
        ≡ some (find_key hash_function compare_function (contents cs) key, h)
  unfolding key_loop find_key
  key_loop_lem zero h key cs k c = absurd (omega arith)
  key_loop_lem (suc fuel) h key [] k c = refl
  key_loop_lem (suc fuel) h key ((a, x) ∷ cs) k c = ground (
    arith,
    load-ok h a (node x (first cs)) c.0 c.1,
    c.0,
    key_loop_lem fuel h key cs (omega arith) c.3,
  )

  key_loop-Holds :
      (h : Memory (Entry K V)) (key : K) (list : ListHandle) (xs : List (Entry K V))
      → Holds h list xs
      → key_loop hash_function compare_function (suc list.size) key list.head h
        ≡ some (find_key hash_function compare_function xs key, h)
  key_loop-Holds h key list xs (cs, is, e) =
      rw (is.head, sym e) (key_loop_lem (suc list.size) h key cs (omega (arith, is.size)) is.chain)

  has_value-in :
      (ht : HashTable K V) (key : K) (xs : List (Entry K V))
      → get_elem? ht.lists (index hash_function compare_function ht key) ≡ some xs
      → has_value_hashtable hash_function compare_function key ht
        ≡ find_key hash_function compare_function xs key
  unfolding has_value_hashtable
  has_value-in ht key xs e = rw (e, has_value_hashtable)

  -- If the array's lists hold the table's chains, and there is one for each index, `has_value` ends
  -- without a fault, writes nothing, and returns what `has_value_hashtable` does.
  pub has_value-refines :
      (h : Memory (Entry K V)) (nt : NodeTable) (ht : HashTable K V) (key : K)
      → TableHolds h nt ht
      → HasChains ht
      → has_value hash_function compare_function key nt h
        ≡ some (has_value_hashtable hash_function compare_function key ht, h)
  unfolding has_value
  has_value-refines h nt ht key th c =
      let (xs, e) = some-chain ht key c in
      let (list, at, there, holds) = chain-lookup h nt ht key xs th e in
      bind-ok (chain_of hash_function compare_function key nt)
        (λ l. key_loop hash_function compare_function (suc l.size) key l.head) h h list there
      ∙ key_loop-Holds h key list xs holds
      ∙ ap (λ (v : ℕ). some (v, h)) (sym (has_value-in ht key xs e))
