-- ===== src/HashTable.antt =====
-- Linux/hashtable.c: a table of chains, over any key. A chain is read as the sequence of its
-- entries; a value is the pointer that the caller stores.
pub mod Lookup
pub mod Removal
pub mod Hashing
pub mod Nodes
pub mod Holds
pub mod Reads
pub mod Refines
pub mod Release
pub mod Change
pub mod Removed
pub mod Owned
pub mod Steps
pub mod Session
pub mod KeepsNodes
use thread_scheduler_multipl.Base.{
  ℕ, zero, suc, ◌+◌, ◌%◌, ◌^◌, Bool, true, false, Option, none, some, List, [], ◌∷◌, ◌==◌,
  if◌then◌else◌, get_elem?, set, replicate,
}
use thread_scheduler_multipl.LinkedList.{is_empty_list, add_first_node_list, remove_node_list}

-- `Entry`
pub record Entry {ℓ κ} (K : Type ℓ) (V : Type κ) : Type (ℓ ⊔ κ) where
  pub key : K
  pub value : V

-- `HashTable`; the function pointers are parameters of the functions below.
pub record HashTable {ℓ κ} (K : Type ℓ) (V : Type κ) : Type (ℓ ⊔ κ) where
  pub lists : List (List (Entry K V))
  pub size : ℕ
  pub capacity : ℕ
  pub deep_copy_value : Bool

unfoldable pub initialize_hashtable {ℓ κ} :
    {K : Type ℓ} {V : Type κ} (capacity : ℕ) (deep_copy_value : Bool) → HashTable K V
initialize_hashtable capacity deep_copy_value = record {
  lists = replicate capacity [];
  size = 0;
  capacity = capacity;
  deep_copy_value = deep_copy_value;
}

-- What `put_hashtable` does: it stores an entry, or, for a key with the value `old`, it takes `old`
-- for an `Entry` and writes to that one's `value`, which is undefined. With `deep` it reallocates what
-- it finds there and copies the new value to it, and otherwise it puts the new value there.
pub data Put {ℓ κ} (K : Type ℓ) (V : Type κ) : Type (ℓ ⊔ κ) where
  stored : HashTable K V → Put K V
  clobbered : (deep : Bool) (old : V) → HashTable K V → Put K V
  out_of_range : Put K V

module _ {ℓ κ} {K : Type ℓ} {V : Type κ} (hash_function : K → ℕ)
    (compare_function : Entry K V → K → ℕ) where
  -- `ht->hash_function(key) % ht->capacity`; the hash is an `unsigned int`
  abbrev pub index : HashTable K V → K → ℕ
  index ht key = hash_function key % 2 ^ 32 % ht.capacity

  -- The `while` of `get_value_hashtable`.
  unfoldable pub find_value : List (Entry K V) → K → Option V
  find_value [] key = none
  find_value (curr ∷ next) key =
      if compare_function curr key == 0 then some curr.value else find_value next key

  -- `none` is NULL. An index beyond the chains is not reached.
  unfoldable pub get_value_hashtable : K → HashTable K V → Option V
  unfolding find_value
  get_value_hashtable key ht = elim (get_elem? ht.lists (index ht key)) [
    | none ↦ none
    | some chain ↦ find_value chain key
  ]

  -- The `while` of `has_value_hashtable`.
  unfoldable pub find_key : List (Entry K V) → K → ℕ
  find_key [] key = 0
  find_key (curr ∷ next) key = if compare_function curr key == 0 then 1 else find_key next key

  unfoldable pub has_value_hashtable : K → HashTable K V → ℕ
  unfolding find_key
  has_value_hashtable key ht = elim (get_elem? ht.lists (index ht key)) [
    | none ↦ 0
    | some chain ↦ find_key chain key
  ]

  -- The end of `put_hashtable`, for a key that has no entry: `size` counts the chains in use.
  unfoldable pub add_entry : K → V → HashTable K V → Put K V
  add_entry key value ht = elim (get_elem? ht.lists (index ht key)) [
    | none ↦ out_of_range
    | some chain ↦ stored (record ht {
      lists =
          set ht.lists (index ht key)
            (add_first_node_list chain (record { key = key; value = value }));
      size = if is_empty_list chain then (ht.size + 1) % 2 ^ 32 else ht.size;
    })
  ]

  unfoldable pub put_hashtable : K → V → HashTable K V → Put K V
  unfolding get_value_hashtable add_entry
  put_hashtable key value ht = elim (get_value_hashtable key ht) [
    | none ↦ add_entry key value ht
    | some tmp ↦ clobbered ht.deep_copy_value tmp ht
  ]

  unfoldable pub remove_entry_hashtable : K → HashTable K V → Option (HashTable K V)
  remove_entry_hashtable key ht = elim (get_elem? ht.lists (index ht key)) [
    | none ↦ none
    | some chain ↦ elim (remove_node_list (λ e. compare_function e key == 0) chain) [
      | none ↦ none
      | some rest ↦ some (record ht { lists = set ht.lists (index ht key) rest })
    ]
  ]
