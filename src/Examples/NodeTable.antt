-- ===== src/Examples/NodeTable.antt =====
-- A table on nodes, from its creation on.
use thread_scheduler_multipl.Base.{ℕ, ◌≡◌, refl, false, none, some, ◌==◌, if◌then◌else◌, arith}
use thread_scheduler_multipl.LinkedList.Nodes.{Memory, node, load, set_next, free}
use thread_scheduler_multipl.LinkedList.Pointers.{add_first, remove_node, remove_loop}
use thread_scheduler_multipl.HashTable.{Entry}
use thread_scheduler_multipl.HashTable.Nodes.{
  NodeTable, initialize_table, chain_of, value_loop, get_value, add_entry, put_table, remove_entry,
  free_table,
}
use thread_scheduler_multipl.HashTable.Session.{Used, created, put, remove, free_table-restores}

abbrev hash : ℕ → ℕ
hash k = k

abbrev compare_keys : Entry ℕ ℕ → ℕ → ℕ
compare_keys e k = if e.key == k then 0 else 1

abbrev other_data : Memory (Entry ℕ ℕ)
other_data p = if p == 8 then some (node (record { key = 1; value = 1 }) 0) else none

abbrev one_entry :
    (nt : NodeTable) × (h : Memory (Entry ℕ ℕ)) × Used hash compare_keys 2 false other_data nt h
unfolding put_table get_value value_loop chain_of add_entry add_first initialize_table
one_entry = (_, _, put 16 4 40 created (omega arith) refl (λ l e. ground (arith, e)) refl)

abbrev two_entries :
    (nt : NodeTable) × (h : Memory (Entry ℕ ℕ)) × Used hash compare_keys 2 false other_data nt h
unfolding put_table get_value value_loop chain_of add_entry add_first initialize_table load
two_entries = (_, _, put 32 6 60 one_entry.2 (omega arith) refl (λ l e. ground (arith, e)) refl)

-- Key 4 has been removed.
abbrev one_left :
    (nt : NodeTable) × (h : Memory (Entry ℕ ℕ)) × Used hash compare_keys 2 false other_data nt h
unfolding put_table get_value value_loop chain_of add_entry add_first initialize_table load
    remove_entry remove_node remove_loop set_next free
one_left = (_, _, remove 4 two_entries.2 refl)

free_table-restores_example :
    (g : Memory (Entry ℕ ℕ)) × (free_table one_left.0 one_left.1 ≡ some (tt, g))
    × ((p : ℕ) → g p ≡ other_data p)
free_table-restores_example = free_table-restores hash compare_keys one_left.2
