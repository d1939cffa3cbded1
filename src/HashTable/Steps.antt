-- ===== src/HashTable/Steps.antt =====
-- `put_hashtable` and `remove_entry_hashtable` on the memory that a table owns.
use thread_scheduler_multipl.Base.{
  ◌∙◌, ap, sym, ℕ, suc, ◌%◌, ◌<◌, ◌^◌, ◌≡◌, refl, Bool, inl, inr, Option, none, some, List, ◌∷◌,
  ◌==◌, arith, get_elem?, set,
}
use thread_scheduler_multipl.LinkedList.Nodes.{Memory, bind-ok, result-cases}
use thread_scheduler_multipl.LinkedList.Pointers.{ListHandle, add_first, remove_node}
use thread_scheduler_multipl.LinkedList.Chain.{Cells, IsList}
use thread_scheduler_multipl.LinkedList.PopLoop.{remove_cell}
use thread_scheduler_multipl.LinkedList.Contents.{contents, free-has}
use thread_scheduler_multipl.LinkedList.Add.{AddsTo, add_first-AddsTo}
use thread_scheduler_multipl.HashTable.{Entry, find_value}
use thread_scheduler_multipl.HashTable.Nodes.{
  NodeTable, stored, chain_of, get_value, add_entry, put_table, remove_entry,
}
use thread_scheduler_multipl.HashTable.Reads.{get_value-at}
use thread_scheduler_multipl.HashTable.Refines.{add_entry-at, put_table-runs, new_table}
use thread_scheduler_multipl.HashTable.Removed.{remove_node-Change}
use thread_scheduler_multipl.HashTable.Owned.{Owned, Leads-get, Owned-Change, Adds-Change}

module _ {K V : Type 0} (hash_function : K → ℕ) (compare_function : Entry K V → K → ℕ) where
  at_index : NodeTable → K → ℕ
  at_index nt key = hash_function key % 2 ^ 32 % nt.capacity

  chain_of-lists :
      (key : K) (nt : NodeTable) (h : Memory (Entry K V)) (list : ListHandle)
      → get_elem? nt.lists (at_index nt key) ≡ some list
      → chain_of hash_function compare_function key nt h ≡ some (list, h)
  unfolding chain_of at_index
  chain_of-lists key nt h list e = rw (e, chain_of)

  chain_of-fault :
      (key : K) (nt : NodeTable) (h : Memory (Entry K V))
      → get_elem? nt.lists (at_index nt key) ≡ none
      → chain_of hash_function compare_function key nt h ≡ none
  unfolding chain_of at_index
  chain_of-fault key nt h e = rw (e, chain_of)

  -- A list to which an entry is added
  add-Owned :
      (h₀ h g : Memory (Entry K V)) (nt after : NodeTable) (fresh : ℕ) (key : K) (value : V)
      (css : List (Cells (Entry K V))) (cs : Cells (Entry K V)) (l : ListHandle)
      (r : Option (ListHandle × Memory (Entry K V)))
      → Owned h₀ nt h css
      → h fresh ≡ none
      → get_elem? css (at_index nt key) ≡ some cs
      → chain_of hash_function compare_function key nt h ≡ some (l, h)
      → add_first fresh l (record { key = key; value = value }) h ≡ r
      → AddsTo h fresh cs ((fresh, record { key = key; value = value }) ∷ cs) r
      → add_entry hash_function compare_function fresh key value nt h ≡ some (stored after, g)
      → (ds : List (Cells (Entry K V))) × Owned h₀ after g ds
  unfolding at_index new_table
  add-Owned h₀ h g nt after fresh key value css cs l none o free ec ce ea adds e = absurd adds
  add-Owned h₀ h g nt after fresh key value css cs l (some (l', k)) o free ec ce ea adds e =
      let run = add_entry-at hash_function compare_function fresh key value nt h k l l' ce ea in
      let q : (new_table hash_function compare_function nt key l l' ≡ after) × (k ≡ g) =
        let both = sym run ∙ e in (cc, cc) in
      (
        set css (at_index nt key) ((fresh, record { key = key; value = value }) ∷ cs),
        rw (sym q.0, sym q.1)
            (Owned-Change h₀ h k nt (new_table hash_function compare_function nt key l l') css
              (at_index nt key) cs ((fresh, record { key = key; value = value }) ∷ cs) l' o ec
              (Adds-Change h k fresh (record { key = key; value = value }) cs l' free adds) refl
              refl),
      )

  put-fault :
      (key : K) (value : V) (nt : NodeTable) (h : Memory (Entry K V)) (fresh : ℕ)
      → chain_of hash_function compare_function key nt h ≡ none
      → put_table hash_function compare_function fresh key value nt h ≡ none
  unfolding put_table get_value
  put-fault key value nt h fresh e = ground (arith, e)

  -- An entry is stored if the search has found no value.
  put-stored :
      (h g : Memory (Entry K V)) (nt after : NodeTable) (fresh : ℕ) (key : K) (value : V)
      (v : Option V)
      → get_value hash_function compare_function key nt h ≡ some (v, h)
      → put_table hash_function compare_function fresh key value nt h ≡ some (stored after, g)
      → add_entry hash_function compare_function fresh key value nt h ≡ some (stored after, g)
  put-stored h g nt after fresh key value none got e =
      sym (put_table-runs hash_function compare_function fresh key value h nt none got) ∙ e
  put-stored h g nt after fresh key value (some old) got e =
      let run =
        sym (put_table-runs hash_function compare_function fresh key value h nt (some old) got)
        ∙ e in
      absurd (cc)

  pub put-Owned :
      (h₀ h g : Memory (Entry K V)) (nt after : NodeTable) (fresh : ℕ) (key : K) (value : V)
      (css : List (Cells (Entry K V)))
      → Owned h₀ nt h css
      → 0 < fresh
      → h fresh ≡ none
      → ((l : ListHandle)
          → chain_of hash_function compare_function key nt h ≡ some (l, h)
          → suc l.size < 2 ^ 32)
      → put_table hash_function compare_function fresh key value nt h ≡ some (stored after, g)
      → (ds : List (Cells (Entry K V))) × Owned h₀ after g ds
  put-Owned h₀ h g nt after fresh key value css o pos free short e =
      elim (result-cases (get_elem? nt.lists (at_index nt key))) [
        | inl f ↦
            let stuck = put-fault key value nt h fresh (chain_of-fault key nt h f) in
            absurd (ground (arith, e, stuck))
        | inr (l, f) ↦
            let (cs, ec, is) = Leads-get h nt.lists css (at_index nt key) l o.leads f in
            let ce = chain_of-lists key nt h l f in
            let got =
              get_value-at hash_function compare_function h nt key l (contents cs) ce
                (cs, is, refl) in
            add-Owned h₀ h g nt after fresh key value css cs l
              (add_first fresh l (record { key = key; value = value }) h) o free ec ce refl
              (add_first-AddsTo h l fresh (record { key = key; value = value }) cs is pos
                (free-has h fresh cs is.chain free) (omega (arith, is.size, short l ce)))
              (put-stored h g nt after fresh key value
                (find_value hash_function compare_function (contents cs) key) got e)
      ]

  key_matches : K → Entry K V → Bool
  key_matches key e = compare_function e key == 0

  -- The table after a removal from the key's list
  removed_table : NodeTable → K → ListHandle → NodeTable
  removed_table nt key l = record nt { lists = set nt.lists (at_index nt key) l }

  remove-fault :
      (key : K) (nt : NodeTable) (h : Memory (Entry K V))
      → chain_of hash_function compare_function key nt h ≡ none
      → remove_entry hash_function compare_function key nt h ≡ none
  unfolding remove_entry
  remove-fault key nt h e = ground (arith, e)

  remove-runs :
      (key : K) (nt : NodeTable) (h : Memory (Entry K V)) (l : ListHandle)
      (r : Option (ListHandle × Memory (Entry K V)))
      → chain_of hash_function compare_function key nt h ≡ some (l, h)
      → remove_node (key_matches key) l h ≡ r
      → remove_entry hash_function compare_function key nt h
        ≡ elim r [ none ↦ none | some (l', k) ↦ some (removed_table nt key l', k) ]
  unfolding remove_entry removed_table at_index key_matches
  remove-runs key nt h l r ce e =
      bind-ok (chain_of hash_function compare_function key nt) _ h h l ce
      ∙ ap
          (λ (o : Option (ListHandle × Memory (Entry K V))).
            elim o as (λ _. Option (NodeTable × Memory (Entry K V))) [
              | none ↦ none
              | some (l', k) ↦ some (removed_table nt key l', k)
            ])
          e

  remove-at :
      (h₀ h g : Memory (Entry K V)) (nt after : NodeTable) (key : K)
      (css : List (Cells (Entry K V))) (cs : Cells (Entry K V)) (l : ListHandle)
      (r : Option (ListHandle × Memory (Entry K V)))
      → Owned h₀ nt h css
      → get_elem? css (at_index nt key) ≡ some cs
      → IsList h l cs
      → remove_node (key_matches key) l h ≡ r
      → (elim r as (λ _. Option (NodeTable × Memory (Entry K V))) [
        | none ↦ none
        | some (l', k) ↦ some (removed_table nt key l', k)
      ])
        ≡ some (after, g)
      → (ds : List (Cells (Entry K V))) × Owned h₀ after g ds
  unfolding removed_table at_index
  remove-at h₀ h g nt after key css cs l none o ec is er e = absurd (cc)
  remove-at h₀ h g nt after key css cs l (some (l', k)) o ec is er e =
      let q : (removed_table nt key l' ≡ after) × (k ≡ g) = (cc, cc) in
      (
        set css (at_index nt key) (remove_cell (key_matches key) cs),
        rw (sym q.0, sym q.1)
            (Owned-Change h₀ h k nt (removed_table nt key l') css (at_index nt key) cs
              (remove_cell (key_matches key) cs) l' o ec
              (remove_node-Change (key_matches key) h k l l' cs is er) refl refl),
      )

  pub remove-Owned :
      (h₀ h g : Memory (Entry K V)) (nt after : NodeTable) (key : K)
      (css : List (Cells (Entry K V)))
      → Owned h₀ nt h css
      → remove_entry hash_function compare_function key nt h ≡ some (after, g)
      → (ds : List (Cells (Entry K V))) × Owned h₀ after g ds
  remove-Owned h₀ h g nt after key css o e =
      elim (result-cases (get_elem? nt.lists (at_index nt key))) [
        | inl f ↦
            let stuck = remove-fault key nt h (chain_of-fault key nt h f) in
            absurd (ground (arith, e, stuck))
        | inr (l, f) ↦
            let (cs, ec, is) = Leads-get h nt.lists css (at_index nt key) l o.leads f in
            let run =
              remove-runs key nt h l (remove_node (key_matches key) l h)
                (chain_of-lists key nt h l f) refl in
            remove-at h₀ h g nt after key css cs l (remove_node (key_matches key) l h) o ec is refl
              (sym run ∙ e)
      ]
