-- ===== src/Scheduler/Table.antt =====
-- `pthreads_data` as `so_init` and `so_fork` use the hash table of Linux/hashtable.c: what `State` reads as a map.
use thread_scheduler_multipl.Base.{
  ℕ, ◌≡◌, false, none, some, ◌==◌, if◌then◌else◌, arith, Bool-cases, inl, inr,
}
use thread_scheduler_multipl.HashTable.{
  Entry, HashTable, initialize_hashtable, stored, get_value_hashtable, put_hashtable,
}
use thread_scheduler_multipl.HashTable.Hashing.{hash_function_ulong}
use thread_scheduler_multipl.HashTable.Lookup.{Compares, HasChains, get-put, get-initialize}
use thread_scheduler_multipl.Scheduler.State.{PthreadParam, PthreadTable, update}

abbrev pub ht_capacity : ℕ
ht_capacity = 1000

pub compare_pthreads_attr : Entry ℕ PthreadParam → ℕ → ℕ
compare_pthreads_attr a b = if a.key == b then 0 else 1

compare_pthreads-Compares : Compares compare_pthreads_attr
unfolding compare_pthreads_attr
compare_pthreads-Compares e k = ground arith

-- The map that a hash table stands for.
abbrev pub map_of : HashTable ℕ PthreadParam → PthreadTable
map_of ht t = get_value_hashtable hash_function_ulong compare_pthreads_attr t ht

-- The table that `so_init` makes stands for the empty map.
pub map_of-initialize : (t : ℕ) → map_of (initialize_hashtable ht_capacity false) t ≡ none
map_of-initialize t =
    get-initialize hash_function_ulong compare_pthreads_attr ht_capacity false t (omega arith)

-- If the table has a chain for each index and the id of the new thread has no entry,
-- `put_hashtable` stores the entry, the table still has a chain for each index, and the map that it
-- stands for is the old map updated at that id.
pub put-update :
    (ht : HashTable ℕ PthreadParam) (new : ℕ) (p : PthreadParam)
    → HasChains ht
    → map_of ht new ≡ none
    → (ht' : HashTable ℕ PthreadParam) × (put_hashtable hash_function_ulong compare_pthreads_attr
          new p ht
        ≡ stored ht')
      × HasChains ht'
      × ((t : ℕ) → map_of ht' t ≡ update (map_of ht) new (some p) t)
put-update ht new p c absent =
    let (ht', e, chains, self, others) =
      get-put hash_function_ulong compare_pthreads_attr compare_pthreads-Compares ht new p c
        absent in
    (
      ht',
      e,
      chains,
      λ t. elim (Bool-cases (new == t)) [
        | inl same ↦ let i : new ≡ t = ground arith in rw same (rw i at self)
        | inr apart ↦ rw apart (others t (ground arith))
      ],
    )
