-- ===== src/Examples/Table.antt =====
-- A table of two chains.
use thread_scheduler_multipl.Base.{
  ℕ, ◌≡◌, ◌≢◌, refl, false, some, [], ◌∷◌, ◌==◌, if◌then◌else◌, arith, ◌%◌, ◌^◌,
}
use thread_scheduler_multipl.HashTable.{
  Entry, HashTable, stored, put_hashtable, get_value_hashtable, find_value, remove_entry_hashtable,
}
use thread_scheduler_multipl.HashTable.Lookup.{Compares, HasChains, get-put}
use thread_scheduler_multipl.HashTable.Removal.{ShorterChain, remove_entry_lem}
use thread_scheduler_multipl.HashTable.Hashing.{
  hash_function_strings, polynomial, hash_strings-polynomial,
}
use thread_scheduler_multipl.Scheduler.State.{PthreadParam}

abbrev hash : ℕ → ℕ
hash k = k

abbrev compare_keys : Entry ℕ ℕ → ℕ → ℕ
compare_keys e k = if e.key == k then 0 else 1

compare_keys-Compares : Compares compare_keys
compare_keys-Compares e k = ground arith

abbrev table : HashTable ℕ ℕ
table = record {
  lists = (record { key = 4; value = 40 } ∷ []) ∷ [] ∷ [];
  size = 1;
  capacity = 2;
  deep_copy_value = false;
}

table-HasChains : HasChains table
table-HasChains = record { pos = omega arith; chains = refl }

get-put_example :
    (ht' : HashTable ℕ ℕ) × (put_hashtable hash compare_keys 6 60 table ≡ stored ht')
    × HasChains ht'
    × (get_value_hashtable hash compare_keys 6 ht' ≡ some 60)
    × ((j : ℕ)
        → j ≢ 6
        → get_value_hashtable hash compare_keys j ht'
          ≡ get_value_hashtable hash compare_keys j table)
unfolding get_value_hashtable find_value
get-put_example = get-put hash compare_keys compare_keys-Compares table 6 60 table-HasChains refl

hash_strings_example : hash_function_strings (97 ∷ 98 ∷ []) ≡ polynomial 7 (97 ∷ 98 ∷ []) % 2 ^ 32
hash_strings_example = hash_strings-polynomial (97 ∷ 98 ∷ [])

abbrev param : PthreadParam
param = record { semaphore = 0; pthread_id = 5; func = 1; priority = 2; time_quantum = 2 }

remove_entry_example :
    (ht' : HashTable ℕ ℕ) × (remove_entry_hashtable hash compare_keys 4 table ≡ some ht')
    × HasChains ht'
    × ShorterChain hash compare_keys compare_keys-Compares 0 table ht'
    × ((j : ℕ)
        → j ≢ 4
        → get_value_hashtable hash compare_keys j ht'
          ≡ get_value_hashtable hash compare_keys j table)
unfolding get_value_hashtable find_value
remove_entry_example =
    remove_entry_lem hash compare_keys compare_keys-Compares table 4 40 table-HasChains refl
