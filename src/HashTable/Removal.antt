-- ===== src/HashTable/Removal.antt =====
-- `remove_entry_hashtable`.
use thread_scheduler_multipl.Base.{
  suc, ap, ◌<◌, ℕ, ◌≡◌, ◌≢◌, refl, sym, ◌∙◌, Bool, true, false, Option, none, some, List, [], ◌∷◌,
  ◌==◌, get_elem?, set, length, length-set, get_elem?-set_self, get_elem?-set_ne, get_elem?-lt,
  arith, Bool-cases, inl, inr,
}
use thread_scheduler_multipl.LinkedList.{pop_node_list, remove_node_list}
use thread_scheduler_multipl.HashTable.{
  Entry, HashTable, index, find_value, get_value_hashtable, remove_entry_hashtable,
}
use thread_scheduler_multipl.HashTable.Lookup.{HasChains, Compares}

module _ {A : Type 0} (found : A → Bool) (x : A) where
  pop_hit : (xs : List A) → found x ≡ true → pop_node_list found (x ∷ xs) ≡ some (x, xs)
  unfolding pop_node_list
  pop_hit xs h = rw (h, pop_node_list)

  pop_miss :
      (xs : List A)
      → found x ≡ false
      → pop_node_list found (x ∷ xs)
        ≡ elim (pop_node_list found xs) [ none ↦ none | some (y, ys) ↦ some (y, x ∷ ys) ]
  unfolding pop_node_list
  pop_miss xs h = rw (h, pop_node_list)

  remove_only : found x ≡ true → remove_node_list found (x ∷ []) ≡ some []
  unfolding remove_node_list
  remove_only h = rw (h, remove_node_list)

module _ {K V : Type 0} (hash_function : K → ℕ) (compare_function : Entry K V → K → ℕ)
    (compares : Compares compare_function) where
  abbrev value_in : List (Entry K V) → K → Option V
  value_in = find_value hash_function compare_function

  abbrev is_key : K → Entry K V → Bool
  is_key k e = compare_function e k == 0

  -- A chain of a key, after the key has been popped.
  record Dropped (k : K) (chain rest : List (Entry K V)) : Type 0 where
    shorter : length chain ≡ suc (length rest)
    others : (j : K) → j ≢ k → value_in rest j ≡ value_in chain j

  abbrev PopDrops : K → List (Entry K V) → V → Option (Entry K V × List (Entry K V)) → Type 0
  PopDrops k chain v none = ⊥
  PopDrops k chain v (some (e, rest)) = Dropped k chain rest

  value_in-ne :
      (k j : K) (e : Entry K V) (chain : List (Entry K V))
      → compare_function e k ≡ 0
      → j ≢ k
      → value_in chain j ≡ value_in (e ∷ chain) j
  unfolding find_value
  value_in-ne k j e chain m ne = elim (Bool-cases (compare_function e j == 0)) [
    | inl hit ↦ absurd (ne (sym ((compares e j).0 (ground arith)) ∙ (compares e k).0 m))
    | inr miss ↦ rw miss refl
  ]

  Dropped-step :
      (k : K) (e : Entry K V) (chain rest : List (Entry K V))
      → Dropped k chain rest
      → Dropped k (e ∷ chain) (e ∷ rest)
  unfolding find_value
  Dropped-step k e chain rest d = record {
    shorter = ap suc d.shorter;
    others = λ j ne. rw (d.others j ne) refl;
  }

  PopDrops-step :
      (k : K) (e : Entry K V) (chain : List (Entry K V)) (v : V)
      (r : Option (Entry K V × List (Entry K V)))
      → PopDrops k chain v r
      → PopDrops k (e ∷ chain) v (elim r [ none ↦ none | some (y, ys) ↦ some (y, e ∷ ys) ])
  PopDrops-step k e chain v none o = o
  PopDrops-step k e chain v (some (y, ys)) o = Dropped-step k e chain ys o

  key_later :
      (k : K) (v : V) (x : Entry K V) (xs : List (Entry K V))
      → (compare_function x k == 0) ≡ false
      → value_in (x ∷ xs) k ≡ some v
      → value_in xs k ≡ some v
  unfolding find_value
  key_later k v x xs miss e = ground (arith, miss, e)

  pop-PopDrops :
      (k : K) (v : V) (chain : List (Entry K V))
      → value_in chain k ≡ some v
      → PopDrops k chain v (pop_node_list (is_key k) chain)
  unfolding find_value
  pop-PopDrops k v [] e = absurd (ground (arith, e))
  pop-PopDrops k v (x ∷ xs) e = elim (Bool-cases (compare_function x k == 0)) [
    | inl hit ↦
        rw (pop_hit (is_key k) x xs hit)
          (record { shorter = refl; others = λ j ne. value_in-ne k j x xs (ground arith) ne })
    | inr miss ↦ rw (pop_miss (is_key k) x xs miss) (
        PopDrops-step k x xs v (pop_node_list (is_key k) xs)
          (pop-PopDrops k v xs (key_later k v x xs miss e)))
  ]

  -- The chain after a removal
  abbrev RemovesTo : K → List (Entry K V) → Option (List (Entry K V)) → Type 0
  RemovesTo k chain none = ⊥
  RemovesTo k chain (some rest) = Dropped k chain rest

  pop-RemovesTo :
      (k : K) (v : V) (chain : List (Entry K V)) (r : Option (Entry K V × List (Entry K V)))
      → PopDrops k chain v r
      → RemovesTo k chain (elim r [ none ↦ some chain | some (z, zs) ↦ some zs ])
  pop-RemovesTo k v chain none o = absurd o
  pop-RemovesTo k v chain (some (z, zs)) o = o

  only-hit :
      (k : K) (v : V) (x : Entry K V)
      → value_in (x ∷ []) k ≡ some v
      → (compare_function x k == 0) ≡ true
  unfolding find_value
  only-hit k v x e = ground (arith, e)

  remove-RemovesTo :
      (k : K) (v : V) (chain : List (Entry K V))
      → value_in chain k ≡ some v
      → RemovesTo k chain (remove_node_list (is_key k) chain)
  unfolding remove_node_list find_value
  remove-RemovesTo k v [] e = absurd (ground (arith, e))
  remove-RemovesTo k v (x ∷ []) e =
      let hit = only-hit k v x e in
      rw (remove_only (is_key k) x hit)
        (record { shorter = refl; others = λ j ne. value_in-ne k j x [] (ground (arith, hit)) ne })
  remove-RemovesTo k v (x ∷ y ∷ xs) e =
      pop-RemovesTo k v (x ∷ y ∷ xs) (pop_node_list (is_key k) (x ∷ y ∷ xs))
        (pop-PopDrops k v (x ∷ y ∷ xs) e)

  removed :
      (k : K) (chain : List (Entry K V)) (r : Option (List (Entry K V)))
      → RemovesTo k chain r
      → (rest : List (Entry K V)) × (r ≡ some rest) × Dropped k chain rest
  removed k chain none o = absurd o
  removed k chain (some rest) o = (rest, refl, o)

  abbrev i : HashTable K V → K → ℕ
  i = index hash_function compare_function

  i-lt : (ht : HashTable K V) (k : K) → HasChains ht → i ht k < length ht.lists
  i-lt ht k c = grind (arith, c.pos, c.chains)

  get-chain :
      (ht : HashTable K V) (k : K) (chain : List (Entry K V))
      → get_elem? ht.lists (i ht k) ≡ some chain
      → get_value_hashtable hash_function compare_function k ht ≡ value_in chain k
  unfolding get_value_hashtable
  get-chain ht k chain e = rw (e, get_value_hashtable)

  remove_entry-chain :
      (ht : HashTable K V) (k : K) (chain rest : List (Entry K V))
      → get_elem? ht.lists (i ht k) ≡ some chain
      → remove_node_list (is_key k) chain ≡ some rest
      → remove_entry_hashtable hash_function compare_function k ht
        ≡ some (record ht { lists = set ht.lists (i ht k) rest })
  unfolding remove_entry_hashtable
  remove_entry-chain ht k chain rest e f = rw (e, remove_entry_hashtable) (rw f refl)

  get-others :
      (ht : HashTable K V) (k j : K) (chain rest : List (Entry K V))
      → HasChains ht
      → get_elem? ht.lists (i ht k) ≡ some chain
      → Dropped k chain rest
      → j ≢ k
      → get_value_hashtable hash_function compare_function j
          (record ht { lists = set ht.lists (i ht k) rest })
        ≡ get_value_hashtable hash_function compare_function j ht
  get-others ht k j chain rest c e d ne = elim (Bool-cases (i ht k == i ht j)) [
    | inl same ↦
        let q : i ht k ≡ i ht j = ground arith in
        get-chain (record ht { lists = set ht.lists (i ht k) rest }) j rest
          (rw (← q) (get_elem?-set_self ht.lists (i ht k) rest (i-lt ht k c)))
        ∙ d.others j ne
        ∙ sym (get-chain ht j chain (rw (← q) e))
    | inr apart ↦
        let q : i ht k ≢ i ht j = ground arith in
        let (other, f) = get_elem?-lt ht.lists (i ht j) (i-lt ht j c) in
        get-chain (record ht { lists = set ht.lists (i ht k) rest }) j other
          (get_elem?-set_ne ht.lists _ _ rest q ∙ f)
        ∙ sym (get-chain ht j other f)
  ]

  -- The chain at `n` has lost an entry.
  abbrev pub ShorterChain : ℕ → HashTable K V → HashTable K V → Type 0
  ShorterChain n ht ht' =
      (chain rest : List (Entry K V)) × (get_elem? ht.lists n ≡ some chain)
      × (get_elem? ht'.lists n ≡ some rest)
      × (length chain ≡ suc (length rest))

  -- If the comparison function is 0 exactly on a match, there is a chain for each index, and the
  -- key has a value, `remove_entry_hashtable` gives a table: it dereferences no NULL, there still
  -- is a chain for each index, the key's chain has one entry less, and every other key has what it
  -- had.
  pub remove_entry_lem :
      (ht : HashTable K V) (k : K) (v : V)
      → HasChains ht
      → get_value_hashtable hash_function compare_function k ht ≡ some v
      → (ht' : HashTable K V) × (remove_entry_hashtable hash_function compare_function k ht
          ≡ some ht')
        × HasChains ht'
        × ShorterChain (index hash_function compare_function ht k) ht ht'
        × ((j : K)
            → j ≢ k
            → get_value_hashtable hash_function compare_function j ht'
              ≡ get_value_hashtable hash_function compare_function j ht)
  remove_entry_lem ht k v c e =
      let (chain, at) = get_elem?-lt ht.lists (i ht k) (i-lt ht k c) in
      let (rest, f, d) =
        removed k chain (remove_node_list (is_key k) chain)
          (remove-RemovesTo k v chain (sym (get-chain ht k chain at) ∙ e)) in
      (
        record ht { lists = set ht.lists (i ht k) rest },
        remove_entry-chain ht k chain rest at f,
        record { pos = c.pos; chains = length-set ht.lists (i ht k) rest ∙ c.chains },
        (chain, rest, at, get_elem?-set_self ht.lists (i ht k) rest (i-lt ht k c), d.shorter),
        λ j ne. get-others ht k j chain rest c at d ne,
      )
