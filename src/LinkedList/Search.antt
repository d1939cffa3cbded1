-- ===== src/LinkedList/Search.antt =====
-- `get_node_list`, `has_node_list` and `free_list` on pointers.
use thread_scheduler_multipl.Base.{
  ◌∙◌, ap, ℕ, zero, suc, ◌<◌, ◌≡◌, refl, Bool, true, false, not, ◌||◌, inl, inr, Option, none, some,
  [], ◌∷◌, ◌==◌, length, arith, Bool-cases,
}
use thread_scheduler_multipl.LinkedList.Nodes.{bind-ok, done, node, Memory, write, load-ok, free-ok}
use thread_scheduler_multipl.LinkedList.Pointers.{
  ListHandle, get_loop, get_node, has_node, free_loop,
}
use thread_scheduler_multipl.LinkedList.Chain.{
  Cells, first, has_cell, Chain, IsList, SameOutside, Chain-write,
}
use thread_scheduler_multipl.LinkedList.PopLoop.{find_cell}

module _ {A : Type 0} (matches : A → Bool) where
  abbrev pub any_cell : Cells A → Bool
  any_cell [] = false
  any_cell ((a, x) ∷ cs) = matches x || any_cell cs

  get_loop_lem :
      (fuel : ℕ) (h : Memory A) (cs : Cells A)
      → length cs < fuel
      → Chain h cs
      → get_loop fuel matches (first cs) h ≡ some (find_cell matches cs, h)
  unfolding get_loop find_cell
  get_loop_lem zero h cs k c = absurd (omega arith)
  get_loop_lem (suc fuel) h [] k c = refl
  get_loop_lem (suc fuel) h ((a, x) ∷ cs) k c = ground (
    arith,
    load-ok h a (node x (first cs)) c.0 c.1,
    c.0,
    get_loop_lem fuel h cs (omega arith) c.3,
  )

  find-any :
      (h : Memory A) (cs : Cells A) → Chain h cs → not (find_cell matches cs == 0) ≡ any_cell cs
  unfolding find_cell
  find-any h [] c = refl
  find-any h ((a, x) ∷ cs) c = ground (arith, c.0, find-any h cs c.3)

  has_node_lem :
      (h : Memory A) (list : ListHandle) (p : ℕ)
      → get_loop (suc list.size) matches list.head h ≡ some (p, h)
      → has_node matches list h ≡ some (not (p == 0), h)
  unfolding has_node
  has_node_lem h list p e =
      bind-ok (get_loop (suc list.size) matches list.head) (λ q. done (not (q == 0))) h h p e

  -- If the handle's pointers lead through a sequence of cells, `get_node` ends and returns the
  -- address of the first cell that matches, or 0, and `has_node` ends and tells if one matches;
  -- neither writes.
  pub search_lem :
      (h : Memory A) (list : ListHandle) (cs : Cells A)
      → IsList h list cs
      → (get_node matches list h ≡ some (find_cell matches cs, h))
        × (has_node matches list h ≡ some (any_cell cs, h))
  unfolding get_node
  search_lem h list cs is =
      let found : get_loop (suc list.size) matches list.head h ≡ some (find_cell matches cs, h) =
        rw is.head (get_loop_lem (suc list.size) h cs (omega (arith, is.size)) is.chain) in
      (
        found,
        has_node_lem h list (find_cell matches cs) found
            ∙ ap (λ b. some (b, h)) (find-any h cs is.chain),
      )

module _ {A : Type 0} where
  pub record Freed (h : Memory A) (cs : Cells A) (g : Memory A) : Type 0 where
    pub gone : (p : ℕ) → has_cell p cs ≡ true → g p ≡ none
    pub same : SameOutside cs h g

  abbrev pub Frees : Memory A → Cells A → Option (Unit {0} × Memory A) → Type 0
  Frees h cs none = ⊥
  Frees h cs (some (u, g)) = Freed h cs g

  Freed-step :
      (h g : Memory A) (a : ℕ) (x : A) (cs : Cells A)
      → has_cell a cs ≡ false
      → Freed (write h a none) cs g
      → Freed h ((a, x) ∷ cs) g
  Freed-step h g a x cs new f = record {
    gone = λ p k. elim (Bool-cases (has_cell p cs)) [
      | inl t ↦ f.gone p t
      | inr e ↦ ground (arith, f.same p e, e, k)
    ];
    same = λ p k. ground (arith, f.same p, k);
  }

  Frees-step :
      (h : Memory A) (a : ℕ) (x : A) (cs : Cells A) (r : Option (Unit {0} × Memory A))
      → has_cell a cs ≡ false
      → Frees (write h a none) cs r
      → Frees h ((a, x) ∷ cs) r
  Frees-step h a x cs none new f = f
  Frees-step h a x cs (some (u, g)) new f = Freed-step h g a x cs new f

  free_step :
      (fuel : ℕ) (h : Memory A) (a q : ℕ) (x : A)
      → 0 < a
      → h a ≡ some (node x q)
      → free_loop (suc fuel) a h ≡ free_loop fuel q (write h a none)
  unfolding free_loop
  free_step fuel h a q x pos at =
      ground (arith, load-ok h a (node x q) pos at, free-ok h a (node x q) pos at)

  -- The loop of `free_list` releases the cells from `curr` on, and nothing else.
  pub free_loop_lem :
      (fuel : ℕ) (h : Memory A) (cs : Cells A)
      → length cs < fuel
      → Chain h cs
      → Frees h cs (free_loop fuel (first cs) h)
  unfolding free_loop
  free_loop_lem zero h cs k c = absurd (omega arith)
  free_loop_lem (suc fuel) h [] k c = record {
    gone = λ p o. absurd (ground (arith, o));
    same = λ p o. refl;
  }
  free_loop_lem (suc fuel) h ((a, x) ∷ cs) k c = rw (free_step fuel h a (first cs) x c.0 c.1) (
      Frees-step h a x cs (free_loop fuel (first cs) (write h a none)) c.2
        (free_loop_lem fuel (write h a none) cs (omega arith) (Chain-write h a none cs c.3 c.2)))
