-- ===== src/LinkedList/Contents.antt =====
-- Linux/linkedlist.c on nodes against the operations on the sequence of a list's elements.
use thread_scheduler_multipl.Base.{
  ℕ, suc, ◌<◌, ◌^◌, ◌≡◌, refl, sym, ap, ◌∙◌, Bool, false, inl, inr, ◌⊎◌, Option, none, some, List,
  [], ◌∷◌, ◌++◌, length, arith, Bool-cases,
}
use thread_scheduler_multipl.LinkedList.{add_first_node_list, add_last_node_list, pop_node_list}
use thread_scheduler_multipl.LinkedList.Nodes.{Memory, node}
use thread_scheduler_multipl.LinkedList.Pointers.{ListHandle, pop_node, add_first, add_last}
use thread_scheduler_multipl.LinkedList.Chain.{Cells, first, Chain, IsList, has_cell}
use thread_scheduler_multipl.LinkedList.PopLoop.{find_cell, remove_cell}
use thread_scheduler_multipl.LinkedList.Pop.{PopsTo, pop_node-PopsTo}
use thread_scheduler_multipl.LinkedList.Add.{AddsTo, add_first-AddsTo, add_last-AddsTo}

module _ {A : Type 0} where
  abbrev pub contents : Cells A → List A
  contents [] = []
  contents ((a, x) ∷ cs) = x ∷ contents cs

  -- The handle's pointers lead through nodes whose data are `xs`.
  abbrev pub Holds : Memory A → ListHandle → List A → Type 0
  Holds h list xs = (cs : Cells A) × (IsList h list cs) × (contents cs ≡ xs)

  contents-append : (cs ds : Cells A) → contents (cs ++ ds) ≡ contents cs ++ contents ds
  contents-append [] ds = refl
  contents-append ((a, x) ∷ cs) ds = ap (λ xs. x ∷ xs) (contents-append cs ds)

  pub length-contents : (cs : Cells A) → length (contents cs) ≡ length cs
  length-contents [] = refl
  length-contents ((a, x) ∷ cs) = ap suc (length-contents cs)

  -- No cell is at an address that is free.
  pub free-has :
      (h : Memory A) (p : ℕ) (cs : Cells A) → Chain h cs → h p ≡ none → has_cell p cs ≡ false
  free-has h p [] c e = refl
  free-has h p ((a, x) ∷ cs) c e = ground (arith, c.1, free-has h p cs c.3 e)

  -- A result of an addition that leaves a list of `xs`.
  abbrev pub HoldsAfter : List A → Option (ListHandle × Memory A) → Type 0
  HoldsAfter xs none = ⊥
  HoldsAfter xs (some (list, g)) = Holds g list xs

  after-add :
      (h : Memory A) (fresh : ℕ) (before after : Cells A) (r : Option (ListHandle × Memory A))
      → AddsTo h fresh before after r
      → HoldsAfter (contents after) r
  after-add h fresh before after none o = o
  after-add h fresh before after (some (list, g)) o = (after, o.list_after, refl)

  -- If the handle's pointers lead through nodes whose data are a sequence, `malloc` returns a free
  -- address, and the size stays below 2^32, `add_first` ends and the data are what
  -- `add_first_node_list` makes of the sequence.
  pub add_first-refines :
      (h : Memory A) (list : ListHandle) (fresh : ℕ) (x : A) (xs : List A)
      → Holds h list xs
      → 0 < fresh
      → h fresh ≡ none
      → suc (length xs) < 2 ^ 32
      → HoldsAfter (add_first_node_list xs x) (add_first fresh list x h)
  add_first-refines h list fresh x xs (cs, is, e) pos new small = rw (sym e) (
      after-add h fresh cs ((fresh, x) ∷ cs) (add_first fresh list x h) (
        add_first-AddsTo h list fresh x cs is pos (free-has h fresh cs is.chain new)
          (rw (sym (length-contents cs)) (rw e small))))

  -- If the handle's pointers lead through nodes whose data are a sequence, `malloc` returns a free
  -- address, and the size stays below 2^32, `add_last` ends and the data are what
  -- `add_last_node_list` makes of the sequence.
  pub add_last-refines :
      (h : Memory A) (list : ListHandle) (fresh : ℕ) (x : A) (xs : List A)
      → Holds h list xs
      → 0 < fresh
      → h fresh ≡ none
      → suc (length xs) < 2 ^ 32
      → HoldsAfter (add_last_node_list xs x) (add_last fresh list x h)
  add_last-refines h list fresh x xs (cs, is, e) pos new small =
      rw (sym e, sym (contents-append cs ((fresh, x) ∷ [])))
        (after-add h fresh cs (cs ++ ((fresh, x) ∷ [])) (add_last fresh list x h) (
          add_last-AddsTo h list fresh x cs is pos (free-has h fresh cs is.chain new)
            (rw (sym (length-contents cs)) (rw e small))))

  module _ (matches : A → Bool) where
    abbrev PopsList : List A → Option (A × List A) → ℕ → ListHandle → Memory A → Type 0
    PopsList xs none found list g = (found ≡ 0) × Holds g list xs
    PopsList xs (some (x, ys)) found list g =
        (0 < found) × ((q : ℕ) × g found ≡ some (node x q)) × Holds g list ys

    -- A result that leaves the list and the return value that `pop_node_list` on `xs` has.
    abbrev pub PopsAs : List A → Option ((ℕ × ListHandle) × Memory A) → Type 0
    PopsAs xs none = ⊥
    PopsAs xs (some ((found, list), g)) = PopsList xs (pop_node_list matches xs) found list g

    pub pop-contents :
        (h : Memory A) (cs : Cells A)
        → Chain h cs
        → ((find_cell matches cs ≡ 0)
            × (remove_cell matches cs ≡ cs)
            × (pop_node_list matches (contents cs) ≡ none))
          ⊎ ((x : A) × (0 < find_cell matches cs)
              × ((q : ℕ) × h (find_cell matches cs) ≡ some (node x q))
              × (pop_node_list matches (contents cs) ≡ some (x, contents (remove_cell matches cs))))
    unfolding find_cell remove_cell pop_node_list
    pop-contents h [] c = inl (refl, refl, refl)
    pop-contents h ((a, x) ∷ cs) c = elim (Bool-cases (matches x)) [
      | inl hit ↦ inr (x, rw hit c.0, rw hit (first cs, c.1), rw hit refl)
      | inr miss ↦ elim (pop-contents h cs c.3) [
        | inl (f, r, e) ↦ inl (rw miss f, rw miss (ap (λ ds. (a, x) ∷ ds) r), rw (miss, e) refl)
        | inr (y, f, n, e) ↦ inr (y, rw miss f, rw miss n, rw (miss, e) refl)
      ]
    ]

    after-pop :
        (h : Memory A) (cs : Cells A) (r : Option ((ℕ × ListHandle) × Memory A))
        → Chain h cs
        → PopsTo matches h cs r
        → PopsAs (contents cs) r
    after-pop h cs none c o = o
    after-pop h cs (some ((found, list), g)) c o = elim (pop-contents h cs c) [
      | inl (f, r, e) ↦ rw e (o.address ∙ f, (remove_cell matches cs, o.list_after, ap contents r))
      | inr (x, f, (q, n), e) ↦ rw e (
        rw o.address f,
        (q, o.kept ∙ ap h o.address ∙ n),
        (remove_cell matches cs, o.list_after, refl),
      )
    ]

    -- If the handle's pointers lead through nodes whose data are a sequence, `pop_node` ends
    -- without a fault. If `pop_node_list` finds nothing in the sequence, it returns 0 and the
    -- handle still leads through the sequence; otherwise it returns a node that holds the element
    -- found, and the handle leads through the rest.
    pub pop_node-refines :
        (h : Memory A) (list : ListHandle) (xs : List A)
        → Holds h list xs
        → PopsAs xs (pop_node matches list h)
    pop_node-refines h list xs (cs, is, e) =
        rw (sym e)
          (after-pop h cs (pop_node matches list h) is.chain (pop_node-PopsTo matches h list cs is))
