-- ===== src/HashTable/Lookup.antt =====
-- What a table maps its keys to.
use thread_scheduler_multipl.Base.{
  ℕ, ◌+◌, ◌%◌, ◌^◌, ◌<◌, ◌≡◌, ◌≢◌, ◌↔◌, refl, Bool, Option, none, some, List, [], ◌∷◌, ◌==◌,
  get_elem?, set, length, length-set, get_elem?-set_self, get_elem?-set_ne, get_elem?-lt,
  length-replicate, get_elem?-replicate, arith, Bool-cases, inl, inr, sym, ◌∙◌, if◌then◌else◌,
}
use thread_scheduler_multipl.LinkedList.{is_empty_list}
use thread_scheduler_multipl.HashTable.{
  Entry, HashTable, initialize_hashtable, stored, clobbered, index, find_value, get_value_hashtable,
  add_entry, put_hashtable, find_key, has_value_hashtable,
}

-- 1 for a value, 0 for NULL
abbrev pub found_as_int {ℓ} : {V : Type ℓ} → Option V → ℕ
found_as_int none = 0
found_as_int (some v) = 1

-- There is a chain for each index.
pub record HasChains {ℓ κ} {K : Type ℓ} {V : Type κ} (ht : HashTable K V) : Type 0 where
  pub pos : 0 < ht.capacity
  pub chains : length ht.lists ≡ ht.capacity

pub initialize-HasChains {ℓ κ} :
    {K : Type ℓ} {V : Type κ} (capacity : ℕ) (deep : Bool)
    → 0 < capacity
    → HasChains (initialize_hashtable {K = K} {V = V} capacity deep)
unfolding initialize_hashtable
initialize-HasChains capacity deep h = record { pos = h; chains = length-replicate capacity [] }

-- The documented contract of a comparison function: 0 on a match.
abbrev pub Compares {ℓ κ} : {K : Type ℓ} {V : Type κ} → (Entry K V → K → ℕ) → Type (ℓ ⊔ κ)
Compares {K} {V} compare_function =
    (e : Entry K V) (k : K) → (compare_function e k ≡ 0) ↔ (e.key ≡ k)

module _ {ℓ κ} {K : Type ℓ} {V : Type κ} (hash_function : K → ℕ)
    (compare_function : Entry K V → K → ℕ) (compares : Compares compare_function) where
  get : K → HashTable K V → Option V
  get = get_value_hashtable hash_function compare_function

  -- What a put does to a table without the key.
  abbrev with_entry : K → V → List (Entry K V) → HashTable K V → List (List (Entry K V))
  with_entry key value chain ht =
      set ht.lists (index hash_function compare_function ht key)
        (record { key = key; value = value } ∷ chain)

  find_value_self :
      (k : K) (v : V) (chain : List (Entry K V))
      → find_value hash_function compare_function (record { key = k; value = v } ∷ chain) k ≡ some v
  unfolding find_value
  find_value_self k v chain = rw ((compares (record { key = k; value = v }) k).1 refl)

  find_value-ne :
      (k j : K) (v : V) (chain : List (Entry K V))
      → j ≢ k
      → find_value hash_function compare_function (record { key = k; value = v } ∷ chain) j
        ≡ find_value hash_function compare_function chain j
  unfolding find_value
  find_value-ne k j v chain ne =
      elim (Bool-cases (compare_function (record { key = k; value = v }) j == 0)) [
        | inl hit ↦
            absurd (ne (sym ((compares (record { key = k; value = v }) j).0 (ground arith))))
        | inr miss ↦ rw miss
      ]

  index-lt :
      (ht : HashTable K V) (k : K)
      → HasChains ht
      → index hash_function compare_function ht k < length ht.lists
  index-lt ht k c = grind (arith, c.pos, c.chains)

  get_lem :
      (ht : HashTable K V) (k : K) (chain : List (Entry K V))
      → get_elem? ht.lists (index hash_function compare_function ht k) ≡ some chain
      → get k ht ≡ find_value hash_function compare_function chain k
  unfolding get get_value_hashtable
  get_lem ht k chain e = rw (e, get, get_value_hashtable)

  abbrev inserted : K → V → List (Entry K V) → HashTable K V → HashTable K V
  inserted k v chain ht = record ht {
    lists = with_entry k v chain ht;
    size = if is_empty_list chain then (ht.size + 1) % 2 ^ 32 else ht.size;
  }

  put_lem :
      (ht : HashTable K V) (k : K) (v : V) (chain : List (Entry K V))
      → get_elem? ht.lists (index hash_function compare_function ht k) ≡ some chain
      → get k ht ≡ none
      → put_hashtable hash_function compare_function k v ht ≡ stored (inserted k v chain ht)
  unfolding get put_hashtable add_entry
  put_lem ht k v chain e absent = rw (absent, put_hashtable) (rw (e, add_entry))

  module _ (ht : HashTable K V) (c : HasChains ht) (k : K) (v : V) (chain : List (Entry K V))
      (e : get_elem? ht.lists (index hash_function compare_function ht k) ≡ some chain) where
    inserted-HasChains : HasChains (inserted k v chain ht)
    inserted-HasChains = record {
      pos = c.pos;
      chains =
          length-set ht.lists (index hash_function compare_function ht k)
            (record { key = k; value = v } ∷ chain)
          ∙ c.chains;
    }

    chain_self :
        get_elem? (inserted k v chain ht).lists (index hash_function compare_function ht k)
        ≡ some (record { key = k; value = v } ∷ chain)
    chain_self =
        get_elem?-set_self ht.lists (index hash_function compare_function ht k)
          (record { key = k; value = v } ∷ chain) (index-lt ht k c)

    get-inserted_self : get k (inserted k v chain ht) ≡ some v
    get-inserted_self =
        get_lem (inserted k v chain ht) k (record { key = k; value = v } ∷ chain) chain_self
        ∙ find_value_self k v chain

    get-inserted_ne : (j : K) → j ≢ k → get j (inserted k v chain ht) ≡ get j ht
    get-inserted_ne j ne =
        elim (Bool-cases (
          index hash_function compare_function ht k == index hash_function compare_function ht j)) [
            | inl same ↦
                let i : index hash_function compare_function ht k
                    ≡ index hash_function compare_function ht j =
                  ground arith in
                get_lem (inserted k v chain ht) j (record { key = k; value = v } ∷ chain)
                  (rw (← i) chain_self)
                ∙ find_value-ne k j v chain ne
                ∙ sym (get_lem ht j chain (rw (← i) e))
            | inr apart ↦
                let i : index hash_function compare_function ht k
                    ≢ index hash_function compare_function ht j =
                  ground arith in
                let (other, f) =
                  get_elem?-lt ht.lists (index hash_function compare_function ht j)
                    (index-lt ht j c) in
                get_lem (inserted k v chain ht) j other
                  (get_elem?-set_ne ht.lists _ _ (record { key = k; value = v } ∷ chain) i ∙ f)
                ∙ sym (get_lem ht j other f)
          ]

  -- If the comparison function is 0 exactly on a match, the table has a chain for each index, and
  -- the key has no value, then `put_hashtable` stores an entry: the key then has the value, every
  -- other key has what it had, and the table still has a chain for each index.
  pub get-put :
      (ht : HashTable K V) (k : K) (v : V)
      → HasChains ht
      → get_value_hashtable hash_function compare_function k ht ≡ none
      → (ht' : HashTable K V) × (put_hashtable hash_function compare_function k v ht ≡ stored ht')
        × HasChains ht'
        × (get_value_hashtable hash_function compare_function k ht' ≡ some v)
        × ((j : K)
            → j ≢ k
            → get_value_hashtable hash_function compare_function j ht'
              ≡ get_value_hashtable hash_function compare_function j ht)
  unfolding get
  get-put ht k v c absent =
      let (chain, e) =
        get_elem?-lt ht.lists (index hash_function compare_function ht k) (index-lt ht k c) in
      (
        inserted k v chain ht,
        put_lem ht k v chain e absent,
        inserted-HasChains ht c k v chain e,
        get-inserted_self ht c k v chain e,
        get-inserted_ne ht c k v chain e,
      )

  -- A put of a key that the table has leaves the table as it was: the key keeps its old value, and the new one goes
  -- to the memory that the old one points to.
  pub put-clobbers :
      (ht : HashTable K V) (k : K) (v old : V)
      → get_value_hashtable hash_function compare_function k ht ≡ some old
      → put_hashtable hash_function compare_function k v ht ≡ clobbered ht.deep_copy_value old ht
  unfolding put_hashtable
  put-clobbers ht k v old e = rw (e, put_hashtable)

  find_key-find_value :
      (chain : List (Entry K V)) (k : K)
      → find_key hash_function compare_function chain k
        ≡ found_as_int (find_value hash_function compare_function chain k)
  unfolding find_key find_value
  find_key-find_value [] k = refl
  find_key-find_value (x ∷ xs) k = elim (Bool-cases (compare_function x k == 0)) [
    | inl hit ↦ rw hit
    | inr miss ↦ rw miss (find_key-find_value xs k)
  ]

  -- If the table has a chain for each index, `has_value_hashtable` is 1 for the keys for which
  -- `get_value_hashtable` finds a value, and 0 for the others.
  pub has_value-get_value :
      (ht : HashTable K V) (k : K)
      → HasChains ht
      → has_value_hashtable hash_function compare_function k ht
        ≡ found_as_int (get_value_hashtable hash_function compare_function k ht)
  unfolding has_value_hashtable get_value_hashtable
  has_value-get_value ht k c =
      let (chain, e) =
        get_elem?-lt ht.lists (index hash_function compare_function ht k) (index-lt ht k c) in
      rw (e, has_value_hashtable, get_value_hashtable) (find_key-find_value chain k)

-- An empty table maps no key.
pub get-initialize {ℓ κ} :
    {K : Type ℓ} {V : Type κ} (hash_function : K → ℕ) (compare_function : Entry K V → K → ℕ)
    (capacity : ℕ) (deep : Bool) (k : K)
    → 0 < capacity
    → get_value_hashtable hash_function compare_function k
        (initialize_hashtable {K = K} {V = V} capacity deep)
      ≡ none
unfolding get_value_hashtable initialize_hashtable find_value
get-initialize {K} {V} hash_function compare_function capacity deep k h = rw (
  get_elem?-replicate {A = List (Entry K V)} capacity [] (hash_function k % 2 ^ 32 % capacity)
      (grind arith),
  get_value_hashtable,
)
