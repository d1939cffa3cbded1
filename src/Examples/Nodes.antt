-- ===== src/Examples/Nodes.antt =====
-- Lists of nodes in a memory.
use thread_scheduler_multipl.Base.{
  if◌then◌else◌, ℕ, ◌≡◌, refl, Bool, none, some, [], ◌∷◌, ◌==◌, arith,
}
use thread_scheduler_multipl.LinkedList.Nodes.{Memory, node, write, load, set_next}
use thread_scheduler_multipl.LinkedList.Pointers.{ListHandle, pop_loop, pop_node}
use thread_scheduler_multipl.LinkedList.Pointers.{remove_node}
use thread_scheduler_multipl.LinkedList.Contents.{Holds, PopsAs, pop_node-refines}
use thread_scheduler_multipl.LinkedList.Remove.{
  pop_release, remove_node-pop_release, remove_node-fault,
}
use thread_scheduler_multipl.LinkedList.Chain.{Cells, IsList}

abbrev cells : Cells ℕ
cells = (16, 1) ∷ (32, 2) ∷ (48, 3) ∷ []

abbrev memory : Memory ℕ
memory p =
    if p == 16
    then some (node 1 32)
    else if p == 32
    then some (node 2 48)
    else if p == 48
    then some (node 3 0)
    else none

abbrev list : ListHandle
list = record { head = 16; tail = 48; size = 3 }

abbrev is_three : ℕ → Bool
is_three x = x == 3

list-IsList : IsList memory list cells
list-IsList = record {
  head = refl;
  tail = refl;
  size = refl;
  small = omega arith;
  chain = (omega arith, refl, refl, (omega arith, refl, refl, (omega arith, refl, refl, tt)));
}

pop_runs :
    pop_node is_three list memory
    ≡ some ((48, record { head = 16; tail = 32; size = 2 }), write memory 32 (some (node 2 0)))
unfolding pop_node pop_loop load set_next
pop_runs = refl

abbrev is_two : ℕ → Bool
is_two x = x == 2

remove_node-pop_release_example : remove_node is_two list memory ≡ pop_release is_two list memory
remove_node-pop_release_example =
    remove_node-pop_release is_two list memory (λ one n e. absurd (ground (arith, one)))

abbrev single : ListHandle
single = record { head = 48; tail = 48; size = 1 }

single-IsList : IsList memory single ((48, 3) ∷ [])
single-IsList = record {
  head = refl;
  tail = refl;
  size = refl;
  small = omega arith;
  chain = (omega arith, refl, refl, tt);
}

remove_node-fault_example : remove_node is_two single memory ≡ none
remove_node-fault_example = remove_node-fault is_two single memory 48 3 single-IsList refl

list-Holds : Holds memory list (1 ∷ 2 ∷ 3 ∷ [])
list-Holds = (cells, list-IsList, refl)

pop_node-refines_example : PopsAs is_three (1 ∷ 2 ∷ 3 ∷ []) (pop_node is_three list memory)
pop_node-refines_example = pop_node-refines is_three memory list (1 ∷ 2 ∷ 3 ∷ []) list-Holds
