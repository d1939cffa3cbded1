-- ===== src/HashTable/KeepsNodes.antt =====
-- Which addresses an addition to a table of nodes may take into use.
use thread_scheduler_multipl.Base.{ℕ, zero, suc, ◌%◌, ◌^◌, Option, none, some, ◌==◌, get_elem?}
use thread_scheduler_multipl.LinkedList.Nodes.{Memory, Access, done}
use thread_scheduler_multipl.LinkedList.Pointers.{ListHandle}
use thread_scheduler_multipl.LinkedList.Keeps.{
  StaysFree, Keeps, StaysFree-if, Keeps-done, Keeps-bind, Keeps-if, Keeps-load, Keeps-add_first,
}
use thread_scheduler_multipl.HashTable.{Entry}
use thread_scheduler_multipl.HashTable.Nodes.{
  NodeTable, NodePut, clobbered, chain_of, value_loop, get_value, add_entry, put_table,
}

module _ {K V : Type 0} (hash_function : K → ℕ) (compare_function : Entry K V → K → ℕ) where
  chain-StaysFree :
      (fresh : ℕ) (h : Memory (Entry K V)) (o : Option ListHandle)
      → StaysFree fresh h (elim o as (λ _. Option (ListHandle × Memory (Entry K V))) [
        | none ↦ none
        | some list ↦ some (list, h)
      ])
  chain-StaysFree fresh h none = tt
  chain-StaysFree fresh h (some list) = λ p ne e. e

  Keeps-chain_of :
      (fresh : ℕ) (key : K) (ht : NodeTable)
      → Keeps fresh (chain_of hash_function compare_function key ht)
  unfolding chain_of
  Keeps-chain_of fresh key ht = record {
    at = λ h.
        chain-StaysFree fresh h (get_elem? ht.lists (hash_function key % 2 ^ 32 % ht.capacity));
  }

  Keeps-value_loop :
      (fuel fresh : ℕ) (key : K) (curr : ℕ)
      → Keeps fresh (value_loop hash_function compare_function fuel key curr)
  unfolding value_loop
  Keeps-value_loop zero fresh key curr = record { at = λ h. tt }
  Keeps-value_loop (suc fuel) fresh key curr = record {
    at = λ h.
        StaysFree-if fresh h _ _ (curr == 0) (λ p ne e. e)
          ((Keeps-bind (Keeps-load fresh curr) (λ n.
              Keeps-if (compare_function n.content key == 0) (Keeps-done fresh _)
                (Keeps-value_loop fuel fresh key n.next))).at
            h);
  }

  Keeps-get_value :
      (fresh : ℕ) (key : K) (ht : NodeTable)
      → Keeps fresh (get_value hash_function compare_function key ht)
  unfolding get_value
  Keeps-get_value fresh key ht =
      Keeps-bind (Keeps-chain_of fresh key ht)
        (λ list. Keeps-value_loop (suc list.size) fresh key list.head)

  Keeps-add_entry :
      (fresh : ℕ) (key : K) (value : V) (ht : NodeTable)
      → Keeps fresh (add_entry hash_function compare_function fresh key value ht)
  unfolding add_entry
  Keeps-add_entry fresh key value ht =
      Keeps-bind (Keeps-chain_of fresh key ht)
        (λ list. Keeps-bind (Keeps-add_first fresh list _) (λ after. Keeps-done fresh _))

  Keeps-put_at :
      (fresh : ℕ) (key : K) (value : V) (ht : NodeTable) (tmp : Option V)
      → Keeps fresh (elim tmp as (λ _. Access (Entry K V) (NodePut V)) [
        | none ↦ add_entry hash_function compare_function fresh key value ht
        | some old ↦ done (clobbered ht.deep_copy_value old ht)
      ])
  Keeps-put_at fresh key value ht none = Keeps-add_entry fresh key value ht
  Keeps-put_at fresh key value ht (some old) = Keeps-done fresh _

  pub Keeps-put_table :
      (fresh : ℕ) (key : K) (value : V) (ht : NodeTable)
      → Keeps fresh (put_table hash_function compare_function fresh key value ht)
  unfolding put_table
  Keeps-put_table fresh key value ht =
      Keeps-bind (Keeps-get_value fresh key ht) (λ tmp. Keeps-put_at fresh key value ht tmp)
