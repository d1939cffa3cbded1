-- ===== src/HashTable/Nodes.antt =====
-- Windows/hashtable.c, the same text as in Linux/, on nodes and pointers. `fresh` is the address
-- that `malloc` returns for the new node.
use thread_scheduler_multipl.Base.{
  ℕ, zero, suc, ◌+◌, ◌%◌, ◌^◌, Bool, Option, none, some, List, ◌==◌, if◌then◌else◌, get_elem?, set,
  replicate,
}
use thread_scheduler_multipl.LinkedList.Nodes.{Node, Access, done, ◌>>=◌, ◌>>◌, load}
use thread_scheduler_multipl.LinkedList.Pointers.{ListHandle, add_first, free_loop, remove_node}
use thread_scheduler_multipl.HashTable.{Entry}

-- `HashTable`, without its function pointers; `lists` points to an array.
pub record NodeTable : Type 0 where
  pub lists : List ListHandle
  pub size : ℕ
  pub capacity : ℕ
  pub deep_copy_value : Bool

-- `initialize_list`
abbrev pub empty_list : ListHandle
empty_list = record { head = 0; tail = 0; size = 0 }

unfoldable pub initialize_table : (capacity : ℕ) (deep_copy_value : Bool) → NodeTable
initialize_table capacity deep_copy_value = record {
  lists = replicate capacity empty_list;
  size = 0;
  capacity = capacity;
  deep_copy_value = deep_copy_value;
}

-- What `put_hashtable` does: it stores an entry, or, for a key with the value `old`, it takes `old`
-- for an `Entry` and writes to that one's `value`, which is undefined. With `deep` it reallocates what
-- it finds there and copies the new value to it, and otherwise it puts the new value there.
pub data NodePut (V : Type 0) : Type 0 where
  stored : NodeTable → NodePut V
  clobbered : (deep : Bool) (old : V) → NodeTable → NodePut V

module _ {A : Type 0} where
  -- `free_list`, but for the release of the handle, which is not a node.
  unfoldable pub free_list : ListHandle → Access A (Unit {0})
  free_list list = free_loop (suc list.size) list.head

  -- The `for` of `free_hashtable`, with `rounds` to go; an index beyond the array is a fault.
  unfoldable pub lists_loop : (rounds i : ℕ) → List ListHandle → Access A (Unit {0})
  lists_loop zero i lists h = some (tt, h)
  lists_loop (suc rounds) i lists h = elim (get_elem? lists i) [
    | none ↦ none
    | some list ↦ (do free_list list; lists_loop rounds (suc i) lists) h
  ]

  -- `free_hashtable`, but for the release of the array and of the table
  unfoldable pub free_table : NodeTable → Access A (Unit {0})
  free_table ht = lists_loop ht.capacity 0 ht.lists

module _ {K V : Type 0} (hash_function : K → ℕ) (compare_function : Entry K V → K → ℕ) where
  -- `ht->lists[index]`; an index beyond the array is a fault.
  unfoldable pub chain_of : K → NodeTable → Access (Entry K V) ListHandle
  chain_of key ht h = elim (get_elem? ht.lists (hash_function key % 2 ^ 32 % ht.capacity)) [
    | none ↦ none
    | some list ↦ some (list, h)
  ]

  -- The `while` of `get_value_hashtable`
  unfoldable pub value_loop : (fuel : ℕ) → K → (curr : ℕ) → Access (Entry K V) (Option V)
  value_loop zero key curr h = none
  value_loop (suc fuel) key curr h =
      let rest = λ (n : Node (Entry K V)). value_loop fuel key n.next in
      if curr == 0
      then some (none, h)
      else (do
        n ← load curr
        if compare_function n.content key == 0 then done (some n.content.value) else rest n)
          h

  unfoldable pub get_value : K → NodeTable → Access (Entry K V) (Option V)
  get_value key ht = do list ← chain_of key ht; value_loop (suc list.size) key list.head

  -- The `while` of `has_value_hashtable`
  unfoldable pub key_loop : (fuel : ℕ) → K → (curr : ℕ) → Access (Entry K V) ℕ
  key_loop zero key curr h = none
  key_loop (suc fuel) key curr h =
      let rest = λ (n : Node (Entry K V)). key_loop fuel key n.next in
      if curr == 0
      then some (0, h)
      else (do n ← load curr; if compare_function n.content key == 0 then done 1 else rest n) h

  unfoldable pub has_value : K → NodeTable → Access (Entry K V) ℕ
  has_value key ht = do list ← chain_of key ht; key_loop (suc list.size) key list.head

  -- The end of `put_hashtable`, for a key that has no entry
  unfoldable pub add_entry : (fresh : ℕ) → K → V → NodeTable → Access (Entry K V) (NodePut V)
  add_entry fresh key value ht = do
    list ← chain_of key ht
    after ← add_first fresh list (record { key = key; value = value })
    done (
        stored (record ht {
          lists = set ht.lists (hash_function key % 2 ^ 32 % ht.capacity) after;
          size = if list.size == 0 then (ht.size + 1) % 2 ^ 32 else ht.size;
        }))

  unfoldable pub put_table : (fresh : ℕ) → K → V → NodeTable → Access (Entry K V) (NodePut V)
  put_table fresh key value ht = do
    tmp ← get_value key ht
    elim tmp [
      | none ↦ add_entry fresh key value ht
      | some old ↦ done (clobbered ht.deep_copy_value old ht)
    ]

  unfoldable pub remove_entry : K → NodeTable → Access (Entry K V) NodeTable
  remove_entry key ht = do
    list ← chain_of key ht
    after ← remove_node (λ e. compare_function e key == 0) list
    done (record ht { lists = set ht.lists (hash_function key % 2 ^ 32 % ht.capacity) after })
