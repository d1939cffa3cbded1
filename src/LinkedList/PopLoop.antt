-- ===== src/LinkedList/PopLoop.antt =====
-- The `while` of `pop_node_list` on pointers, and the removal of the first match from a sequence.
use thread_scheduler_multipl.Base.{
  ℕ, zero, suc, ◌<◌, ◌≡◌, refl, Bool, true, false, Option, none, some, [], ◌∷◌, ◌==◌, length, arith,
  Bool-cases, inl, inr, if◌then◌else◌,
}
use thread_scheduler_multipl.LinkedList.Nodes.{node, Memory, write, load-ok, set_next-ok}
use thread_scheduler_multipl.LinkedList.Pointers.{pop_loop}
use thread_scheduler_multipl.LinkedList.Chain.{
  Cells, first, end, has_cell, Chain, SameOutside, Chain-write,
}

module _ {A : Type 0} (matches : A → Bool) where
  -- The address of the first cell that matches, or 0, and the cells without it.
  unfoldable pub find_cell : Cells A → ℕ
  find_cell [] = 0
  find_cell ((a, x) ∷ cs) = if matches x then a else find_cell cs

  unfoldable pub remove_cell : Cells A → Cells A
  remove_cell [] = []
  remove_cell ((a, x) ∷ cs) = if matches x then cs else (a, x) ∷ remove_cell cs

  has-remove : (p : ℕ) (cs : Cells A) → has_cell p cs ≡ false → has_cell p (remove_cell cs) ≡ false
  unfolding remove_cell
  has-remove p [] h = refl
  has-remove p ((a, x) ∷ cs) h = ground (arith, has-remove p cs)

  pub record Walked (h : Memory A) (prev : ℕ) (v : A) (cs : Cells A) (found tail : ℕ) (g : Memory A)
      : Type 0 where
    pub address : found ≡ find_cell cs
    pub last : tail ≡ end prev (remove_cell cs)
    pub chain : Chain g ((prev, v) ∷ remove_cell cs)
    pub kept : g found ≡ h found
    pub same : SameOutside ((prev, v) ∷ cs) h g

  abbrev pub Walks : Memory A → ℕ → A → Cells A → Option ((ℕ × ℕ) × Memory A) → Type 0
  Walks h prev v cs none = ⊥
  Walks h prev v cs (some ((found, tail), g)) = Walked h prev v cs found tail g

  has-end :
      (a : ℕ) (x : A) (p : ℕ) (cs : Cells A) → has_cell (end p ((a, x) ∷ cs)) ((a, x) ∷ cs) ≡ true
  has-end a x p [] = ground arith
  has-end a x p ((b, y) ∷ cs) = ground (arith, has-end b y a cs)

  -- A cell before the last is not the last.
  end-ne :
      (c d : ℕ) (y : A) (cs : Cells A) → has_cell c ((d, y) ∷ cs) ≡ false → (c == end d cs) ≡ false
  end-ne c d y cs h = ground (arith, has-end d y c cs)

  Walked-last :
      (h : Memory A) (prev c : ℕ) (v w : A)
      → matches w ≡ true
      → Chain h ((prev, v) ∷ (c, w) ∷ [])
      → Walked h prev v ((c, w) ∷ []) c prev (write h prev (some (node v 0)))
  unfolding find_cell remove_cell
  Walked-last h prev c v w hit chain = record {
    address = rw hit;
    last = rw hit;
    chain = rw hit (ground arith);
    kept = ground (arith, chain.2);
    same = λ p out. ground arith;
  }

  Walked-miss :
      (h : Memory A) (prev c : ℕ) (v w : A)
      → matches w ≡ false
      → Chain h ((prev, v) ∷ (c, w) ∷ [])
      → Walked h prev v ((c, w) ∷ []) 0 c h
  unfolding find_cell remove_cell
  Walked-miss h prev c v w miss chain = record {
    address = rw miss;
    last = rw miss;
    chain = rw miss chain;
    kept = refl;
    same = λ p out. refl;
  }

  Walked-inner :
      (h : Memory A) (prev c : ℕ) (v w : A) (rest : Cells A)
      → matches w ≡ true
      → Chain h ((prev, v) ∷ (c, w) ∷ rest)
      → Walked h prev v
          ((c, w) ∷ rest)
          c
          (end prev rest)
          (write h prev (some (node v (first rest))))
  unfolding find_cell remove_cell
  Walked-inner h prev c v w rest hit chain = record {
    address = rw hit;
    last = rw hit;
    chain = rw hit (
      chain.0,
      ground arith,
      ground (arith, chain.2),
      Chain-write h prev (some (node v (first rest))) rest chain.3.3 (ground (arith, chain.2)),
    );
    kept = ground (arith, chain.2);
    same = λ p out. ground arith;
  }

  Walked-step :
      (h g : Memory A) (prev c found tail : ℕ) (v w : A) (rest : Cells A)
      → matches w ≡ false
      → Chain h ((prev, v) ∷ (c, w) ∷ rest)
      → Walked h c w rest found tail g
      → Walked h prev v ((c, w) ∷ rest) found tail g
  unfolding find_cell remove_cell
  Walked-step h g prev c found tail v w rest miss chain o = record {
    address = rw miss o.address;
    last = rw miss o.last;
    chain = rw miss (
      chain.0,
      ground (arith, o.same prev, chain.1, chain.2),
      ground (arith, has-remove prev rest, chain.2),
      o.chain,
    );
    kept = o.kept;
    same = λ p out. ground (arith, o.same p);
  }

  -- One round of the loop, at a node `c` with content `w` and successor `q`.
  module _ (fuel : ℕ) (h : Memory A) (tail prev c q r : ℕ) (v w : A) (allocated : 0 < prev)
      (at_prev : h prev ≡ some (node v r)) (allocated_c : 0 < c)
      (at_c : h c ≡ some (node w q)) where
    last_hit :
        c ≡ tail
        → matches w ≡ true
        → pop_loop (suc fuel) matches tail prev c h
          ≡ some ((tail, prev), write h prev (some (node v 0)))
    unfolding pop_loop
    last_hit e m = ground (
      arith,
      m,
      load-ok h c (node w q) allocated_c at_c,
      set_next-ok h prev 0 r v allocated at_prev,
    )

    last_miss :
        c ≡ tail
        → matches w ≡ false
        → pop_loop (suc fuel) matches tail prev c h ≡ some ((0, tail), h)
    unfolding pop_loop
    last_miss e m = ground (arith, m, load-ok h c (node w q) allocated_c at_c)

    inner_hit :
        (c == tail) ≡ false
        → matches w ≡ true
        → pop_loop (suc fuel) matches tail prev c h
          ≡ some ((c, tail), write h prev (some (node v q)))
    unfolding pop_loop
    inner_hit e m = ground (
      arith,
      m,
      load-ok h c (node w q) allocated_c at_c,
      set_next-ok h prev q r v allocated at_prev,
    )

    inner_miss :
        (c == tail) ≡ false
        → matches w ≡ false
        → pop_loop (suc fuel) matches tail prev c h ≡ pop_loop fuel matches tail c q h
    unfolding pop_loop
    inner_miss e m = ground (arith, m, load-ok h c (node w q) allocated_c at_c)

  Walks-step :
      (h : Memory A) (prev c : ℕ) (v w : A) (rest : Cells A) (r : Option ((ℕ × ℕ) × Memory A))
      → matches w ≡ false
      → Chain h ((prev, v) ∷ (c, w) ∷ rest)
      → Walks h c w rest r
      → Walks h prev v ((c, w) ∷ rest) r
  Walks-step h prev c v w rest none miss chain o = o
  Walks-step h prev c v w rest (some ((found, tail), g)) miss chain o =
      Walked-step h g prev c found tail v w rest miss chain o

  pub pop_loop-Walks :
      (fuel : ℕ) (h : Memory A) (prev c : ℕ) (v w : A) (rest : Cells A)
      → length rest < fuel
      → Chain h ((prev, v) ∷ (c, w) ∷ rest)
      → Walks h prev v ((c, w) ∷ rest) (pop_loop fuel matches (end c rest) prev c h)
  pop_loop-Walks zero h prev c v w rest k chain = absurd (omega arith)
  pop_loop-Walks (suc fuel) h prev c v w [] k chain = elim (Bool-cases (matches w)) [
    | inl hit ↦
        rw (last_hit fuel h c prev c 0 c v w chain.0 chain.1 chain.3.0 chain.3.1 refl hit)
          (Walked-last h prev c v w hit chain)
    | inr miss ↦
        rw (last_miss fuel h c prev c 0 c v w chain.0 chain.1 chain.3.0 chain.3.1 refl miss)
          (Walked-miss h prev c v w miss chain)
  ]
  pop_loop-Walks (suc fuel) h prev c v w ((d, y) ∷ rest) k chain =
      let inner : (c == end d rest) ≡ false = end-ne c d y rest chain.3.2 in
      elim (Bool-cases (matches w)) [
        | inl hit ↦
            rw
              (inner_hit fuel h (end d rest) prev c d c v w chain.0 chain.1 chain.3.0 chain.3.1
                inner hit)
              (Walked-inner h prev c v w ((d, y) ∷ rest) hit chain)
        | inr miss ↦
            rw
              (inner_miss fuel h (end d rest) prev c d c v w chain.0 chain.1 chain.3.0 chain.3.1
                inner miss)
              (Walks-step h prev c v w ((d, y) ∷ rest) (pop_loop fuel matches (end d rest) c d h)
                miss chain (pop_loop-Walks fuel h c d w y rest (omega arith) chain.3))
      ]
