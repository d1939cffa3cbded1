-- ===== src/HashTable/Removed.antt =====
-- `remove_node_list` as a change of a list's cells.
use thread_scheduler_multipl.Base.{
  ◌∙◌, sym, false≢true, ℕ, ◌<◌, ◌≡◌, refl, Bool, true, false, inl, inr, Option, none, some, [], ◌∷◌,
  ◌==◌, arith, Bool-cases,
}
use thread_scheduler_multipl.LinkedList.Nodes.{
  Node, node, Memory, load, load-ok, load-cases, result-cases, free, write,
}
use thread_scheduler_multipl.LinkedList.Pointers.{ListHandle, pop_node, remove_node}
use thread_scheduler_multipl.LinkedList.Chain.{
  Cells, has_cell, Chain, IsList, Chain-write, write-other, has-ne,
}
use thread_scheduler_multipl.LinkedList.PopLoop.{find_cell, remove_cell}
use thread_scheduler_multipl.LinkedList.Pop.{Pops, PopsTo, pop_node-PopsTo, remove-cases}
use thread_scheduler_multipl.LinkedList.Released.{find-gone}
use thread_scheduler_multipl.LinkedList.Remove.{
  pop_release, remove_node-pop_release, remove_node-fault,
}
use thread_scheduler_multipl.HashTable.Change.{Change}

module _ {A : Type 0} (matches : A → Bool) where
  only-found :
      (p : ℕ) (cs : Cells A)
      → has_cell p cs ≡ true
      → has_cell p (remove_cell matches cs) ≡ false
      → p ≡ find_cell matches cs
  unfolding find_cell remove_cell
  only-found p [] t f = absurd (ground (arith, t))
  only-found p ((a, x) ∷ cs) t f = elim (Bool-cases (matches x)) [
    | inl hit ↦ ground (arith, t, f, hit)
    | inr miss ↦ ground (arith, t, f, miss, only-found p cs)
  ]

  has-remains :
      (p : ℕ) (cs : Cells A) → has_cell p (remove_cell matches cs) ≡ true → has_cell p cs ≡ true
  unfolding remove_cell
  has-remains p [] t = t
  has-remains p ((a, x) ∷ cs) t = elim (Bool-cases (matches x)) [
    | inl hit ↦ ground (arith, t, hit)
    | inr miss ↦ ground (arith, t, miss, has-remains p cs)
  ]

  free-effect :
      (p : ℕ) (u : Unit {0}) (h g : Memory A) → free p h ≡ some (u, g) → g ≡ write h p none
  unfolding free
  free-effect p u h g e = elim (load-cases h p) [
    | inl f ↦ absurd (ground (arith, e, f))
    | inr (n, valid, f) ↦ ground (arith, e, f)
  ]

  -- A list of one cell is left only if the cell matches.
  single-hit :
      (h g : Memory A) (list after : ListHandle) (cs : Cells A)
      → IsList h list cs
      → remove_node matches list h ≡ some (after, g)
      → list.size ≡ 1
      → (n : Node A) → load list.head h ≡ some (n, h)
      → matches n.content ≡ true
  single-hit h g list after [] is e one n l = absurd (omega (arith, is.size, one))
  single-hit h g list after ((a, x) ∷ []) is e one n l = elim (Bool-cases (matches x)) [
    | inl hit ↦
        let at : load list.head h ≡ some (node x 0, h) =
          rw is.head (load-ok h a (node x 0) is.chain.0 is.chain.1) in
        ground (arith, l, at, hit)
    | inr miss ↦ absurd (ground (arith, e, remove_node-fault matches list h a x is miss))
  ]
  single-hit h g list after ((a, x) ∷ (b, y) ∷ cs) is e one n l =
      absurd (omega (arith, is.size, one))

  found-in : (a : ℕ) (cs : Cells A) → find_cell matches cs ≡ a → 0 < a → has_cell a cs ≡ true
  unfolding find_cell
  found-in a [] e pos = absurd (omega (arith, e, pos))
  found-in a ((b, x) ∷ cs) e pos = elim (Bool-cases (matches x)) [
    | inl hit ↦ ground (arith, hit, e)
    | inr miss ↦ ground (arith, found-in a cs (rw miss at e) pos)
  ]

  released :
      (h g : Memory A) (cs : Cells A) (found : ℕ) (list : ListHandle)
      → Chain h cs
      → Pops matches h cs found list g
      → 0 < found
      → Change h cs (remove_cell matches cs) list (write g found none)
  released h g cs found list c o pos =
      let there : has_cell found cs ≡ true = found-in found cs (sym o.address) pos in
      record {
        list = record {
          head = o.list_after.head;
          tail = o.list_after.tail;
          size = o.list_after.size;
          small = o.list_after.small;
          chain =
              Chain-write g found none (remove_cell matches cs) o.list_after.chain
                (rw o.address (find-gone matches h cs c));
        };
        added = λ p t. inl (has-remains p cs t);
        dropped = λ p t f. let q = only-found p cs t f in ground (arith, q, o.address);
        same = λ p out f.
            write-other g found p none (λ e. has-ne p found cs out there (sym e)) ∙ o.same p out;
      }

  unchanged :
      (h g : Memory A) (cs : Cells A) (list : ListHandle)
      → Chain h cs
      → Pops matches h cs 0 list g
      → Change h cs (remove_cell matches cs) list g
  unchanged h g cs list c o = elim (remove-cases matches h cs c) [
    | inl e ↦ record {
      list = o.list_after;
      added = λ p t. inl (has-remains p cs t);
      dropped = λ p t f. absurd (false≢true (sym (rw e.1 at f) ∙ t));
      same = λ p out f. o.same p out;
    }
    | inr e ↦ absurd (omega (arith, e.0, o.address))
  ]

  after-pop :
      (h g : Memory A) (list after : ListHandle) (cs : Cells A)
      (r : Option ((ℕ × ListHandle) × Memory A))
      → Chain h cs
      → pop_node matches list h ≡ r
      → PopsTo matches h cs r
      → pop_release matches list h ≡ some (after, g)
      → Change h cs (remove_cell matches cs) after g
  after-pop h g list after cs none c e o f = absurd o
  after-pop h g list after cs (some ((found, l), k)) c e o f = elim (Bool-cases (found == 0)) [
    | inl null ↦
        let zero_found : found ≡ 0 = ground (arith, null) in
        let ended : (l ≡ after) × (k ≡ g) = ground (arith, e, f, null) in
        rw (sym ended.0, sym ended.1) (unchanged h k cs l c (rw zero_found at o))
    | inr valid ↦ elim (result-cases (free found k)) [
      | inl fault ↦ absurd (ground (arith, e, f, valid, fault))
      | inr ((u, k'), freed) ↦
          let ended : (l ≡ after) × (k' ≡ g) = ground (arith, e, f, valid, freed) in
          rw (sym ended.0, sym ended.1, free-effect found u k k' freed)
            (released h k cs found l c o (ground (arith, valid)))
    ]
  ]

  -- If `remove_node` ends without a fault, it has taken the first match out and released it.
  pub remove_node-Change :
      (h g : Memory A) (list after : ListHandle) (cs : Cells A)
      → IsList h list cs
      → remove_node matches list h ≡ some (after, g)
      → Change h cs (remove_cell matches cs) after g
  remove_node-Change h g list after cs is e =
      after-pop h g list after cs (pop_node matches list h) is.chain refl
        (pop_node-PopsTo matches h list cs is)
        (sym (remove_node-pop_release matches list h (single-hit h g list after cs is e)) ∙ e)
