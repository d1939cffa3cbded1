-- ===== src/LinkedList/Released.antt =====
-- A node that `pop_node_list` took out of a list, and its release.
use thread_scheduler_multipl.Base.{
  ℕ, ◌<◌, ◌≡◌, refl, sym, ap, ◌∙◌, Bool, false, inl, inr, Option, none, some, List, [], ◌∷◌, ◌==◌,
  arith, Bool-cases,
}
use thread_scheduler_multipl.LinkedList.{pop_node_list}
use thread_scheduler_multipl.LinkedList.Nodes.{node, Memory, write}
use thread_scheduler_multipl.LinkedList.Pointers.{ListHandle, pop_node}
use thread_scheduler_multipl.LinkedList.Chain.{Cells, has_cell, Chain, Chain-write}
use thread_scheduler_multipl.LinkedList.PopLoop.{find_cell, remove_cell}
use thread_scheduler_multipl.LinkedList.Pop.{PopsTo, pop_node-PopsTo}
use thread_scheduler_multipl.LinkedList.Contents.{contents, Holds, pop-contents}

module _ {A : Type 0} (matches : A → Bool) where
  find-other :
      (a : ℕ) (cs : Cells A) → 0 < a → has_cell a cs ≡ false → (a == find_cell matches cs) ≡ false
  unfolding find_cell
  find-other a [] pos out = ground (arith, pos)
  find-other a ((b, y) ∷ cs) pos out = elim (Bool-cases (matches y)) [
    | inl hit ↦ ground (arith, hit, out)
    | inr miss ↦ ground (arith, miss, out, find-other a cs)
  ]

  -- The cell found is no cell of the rest.
  pub find-gone :
      (h : Memory A) (cs : Cells A)
      → Chain h cs
      → has_cell (find_cell matches cs) (remove_cell matches cs) ≡ false
  unfolding find_cell remove_cell
  find-gone h [] c = refl
  find-gone h ((a, x) ∷ cs) c = elim (Bool-cases (matches x)) [
    | inl hit ↦ rw hit (c.2)
    | inr miss ↦ rw miss (ground (arith, find-other a cs c.0 c.2, find-gone h cs c.3))
  ]

  abbrev pub Takes : List A → Option (A × List A) → ℕ → ListHandle → Memory A → Type 0
  Takes xs none found list g = (found ≡ 0) × Holds g list xs
  Takes xs (some (x, ys)) found list g =
      (0 < found)
      × ((q : ℕ) × g found ≡ some (node x q))
      × Holds g list ys
      × Holds (write g found none) list ys

  -- A result of `pop_node` that does what `pop_node_list` does, and whose node can be released.
  abbrev pub TakesAs : List A → Option ((ℕ × ListHandle) × Memory A) → Type 0
  TakesAs xs none = ⊥
  TakesAs xs (some ((found, list), g)) = Takes xs (pop_node_list matches xs) found list g

  after_take :
      (h : Memory A) (cs : Cells A) (r : Option ((ℕ × ListHandle) × Memory A))
      → Chain h cs
      → PopsTo matches h cs r
      → TakesAs (contents cs) r
  after_take h cs none c o = o
  after_take h cs (some ((found, list), g)) c o = elim (pop-contents matches h cs c) [
    | inl (f, r, e) ↦ rw e (o.address ∙ f, (remove_cell matches cs, o.list_after, ap contents r))
    | inr (x, f, (q, n), e) ↦ rw e (
      rw o.address f,
      (q, o.kept ∙ ap h o.address ∙ n),
      (remove_cell matches cs, o.list_after, refl),
      (
        remove_cell matches cs,
        record {
          head = o.list_after.head;
          tail = o.list_after.tail;
          size = o.list_after.size;
          small = o.list_after.small;
          chain =
              Chain-write g found none (remove_cell matches cs) o.list_after.chain
                (rw o.address (find-gone h cs c));
        },
        refl,
      ),
    )
  ]

  -- `pop_node` takes out the node of the element that `pop_node_list` finds, and the handle leads
  -- through the rest before and after the release of that node.
  pub pop_node-TakesAs :
      (h : Memory A) (list : ListHandle) (xs : List A)
      → Holds h list xs
      → TakesAs xs (pop_node matches list h)
  pop_node-TakesAs h list xs (cs, is, e) =
      rw (sym e)
        (after_take h cs (pop_node matches list h) is.chain (pop_node-PopsTo matches h list cs is))
