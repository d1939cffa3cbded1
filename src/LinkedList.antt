-- ===== src/LinkedList.antt =====
-- Linux/linkedlist.c, read as operations on the sequence of a list's elements.
pub mod Nodes
pub mod Pointers
pub mod Chain
pub mod PopLoop
pub mod Pop
pub mod Add
pub mod Remove
pub mod Search
pub mod Contents
pub mod Keeps
pub mod Released
use thread_scheduler_multipl.Base.{Bool, true, false, Option, none, some, List, [], ◌∷◌, ◌++◌}

module _ {ℓ} {A : Type ℓ} where
  abbrev pub add_first_node_list : List A → A → List A
  add_first_node_list list x = x ∷ list

  abbrev pub add_last_node_list : List A → A → List A
  add_last_node_list list x = list ++ (x ∷ [])

  abbrev pub is_empty_list : List A → Bool
  is_empty_list [] = true
  is_empty_list (x ∷ xs) = false

  -- `found` stands for `!list->compare_function(curr->data, data)`. The first node found leaves
  -- the list, and is returned.
  unfoldable pub pop_node_list : (A → Bool) → List A → Option (A × List A)
  pop_node_list found [] = none
  pop_node_list found (x ∷ xs) = elim (found x) [
    | true ↦ some (x, xs)
    | false ↦ elim (pop_node_list found xs) [ none ↦ none | some (y, ys) ↦ some (y, x ∷ ys) ]
  ]

  -- `none` is the dereference of NULL on a list of one node that does not match.
  unfoldable pub remove_node_list : (A → Bool) → List A → Option (List A)
  unfolding pop_node_list
  remove_node_list found [] = some []
  remove_node_list found (x ∷ []) = elim (found x) [ true ↦ some [] | false ↦ none ]
  remove_node_list found (x ∷ y ∷ xs) = elim (pop_node_list found (x ∷ y ∷ xs)) [
    | none ↦ some (x ∷ y ∷ xs)
    | some (z, zs) ↦ some zs
  ]
