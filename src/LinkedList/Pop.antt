-- ===== src/LinkedList/Pop.antt =====
-- `pop_node_list` on pointers against the removal of the first match from a sequence.
use thread_scheduler_multipl.Base.{
  ℕ, suc, ◌<◌, ◌≡◌, refl, Bool, true, false, Option, none, some, [], ◌∷◌, ◌==◌, length, arith,
  Bool-cases, inl, inr, ◌⊎◌, if◌then◌else◌, dec_u32,
}
use thread_scheduler_multipl.LinkedList.Nodes.{node, Memory, load-ok}
use thread_scheduler_multipl.LinkedList.Pointers.{ListHandle, pop_loop, pop_node}
use thread_scheduler_multipl.LinkedList.PopLoop.{
  find_cell, remove_cell, Walked, Walks, pop_loop-Walks,
}
use thread_scheduler_multipl.LinkedList.Chain.{Cells, end, Chain, IsList, SameOutside}

module _ {A : Type 0} (matches : A → Bool) where
  -- Either no cell matches, and all stay, or one has gone.
  pub remove-cases :
      (h : Memory A) (cs : Cells A)
      → Chain h cs
      → ((find_cell matches cs ≡ 0) × (remove_cell matches cs ≡ cs))
        ⊎ ((0 < find_cell matches cs) × (length cs ≡ suc (length (remove_cell matches cs))))
  unfolding find_cell remove_cell
  remove-cases h [] chain = inl (refl, refl)
  remove-cases h ((a, x) ∷ cs) chain = elim (Bool-cases (matches x)) [
    | inl hit ↦ rw hit (inr (chain.0, refl))
    | inr miss ↦ rw miss (elim (remove-cases h cs chain.3) [
      | inl e ↦ inl (e.0, rw e.1 refl)
      | inr e ↦ inr (e.0, rw e.1 refl)
    ])
  ]

  pub record Pops (h : Memory A) (cs : Cells A) (found : ℕ) (list : ListHandle) (g : Memory A)
      : Type 0 where
    pub address : found ≡ find_cell matches cs
    pub list_after : IsList g list (remove_cell matches cs)
    pub kept : g found ≡ h found
    pub same : SameOutside cs h g

  abbrev pub PopsTo : Memory A → Cells A → Option ((ℕ × ListHandle) × Memory A) → Type 0
  PopsTo h cs none = ⊥
  PopsTo h cs (some ((found, list), g)) = Pops h cs found list g

  -- What `pop_node` does with the result of the loop.
  abbrev after_loop :
      ListHandle → Option ((ℕ × ℕ) × Memory A) → Option ((ℕ × ListHandle) × Memory A)
  after_loop list none = none
  after_loop list (some ((found, tail), g)) = some (
    (found, if found == 0 then list else record list { tail = tail; size = dec_u32 list.size }),
    g,
  )

  pop_empty :
      (h : Memory A) (list : ListHandle)
      → list.size ≡ 0
      → pop_node matches list h ≡ some ((0, list), h)
  unfolding pop_node
  pop_empty h list e = ground (arith, e)

  module _ (h : Memory A) (list : ListHandle) (a : ℕ) (x : A) where
    module _ (head : list.head ≡ a) (pos : 0 < a) (n : ℕ) (at : h a ≡ some (node x n)) where
      pop_only_hit :
          list.size ≡ 1
          → matches x ≡ true
          → pop_node matches list h ≡ some ((a, record { head = 0; tail = 0; size = 0 }), h)
      unfolding pop_node
      pop_only_hit e m = ground (arith, load-ok h a (node x n) pos at)

      pop_only_miss :
          list.size ≡ 1 → matches x ≡ false → pop_node matches list h ≡ some ((0, list), h)
      unfolding pop_node
      pop_only_miss e m = ground (arith, load-ok h a (node x n) pos at)

      pop_first_hit :
          1 < list.size
          → matches x ≡ true
          → pop_node matches list h
            ≡ some ((a, record list { head = n; size = dec_u32 list.size }), h)
      unfolding pop_node
      pop_first_hit e m = ground (arith, load-ok h a (node x n) pos at)

      pop_first_miss :
          (t : ℕ)
          → list.tail ≡ t
          → 1 < list.size
          → matches x ≡ false
          → pop_node matches list h ≡ after_loop list (pop_loop list.size matches t a n h)
      unfolding pop_node
      pop_first_miss t et e m = ground (arith, load-ok h a (node x n) pos at)

  loop-kept :
      (h g : Memory A) (list : ListHandle) (a : ℕ) (x : A) (cs : Cells A) (found tail : ℕ)
      → IsList h list ((a, x) ∷ cs)
      → matches x ≡ false
      → Walked matches h a x cs found tail g
      → find_cell matches cs ≡ 0
      → remove_cell matches cs ≡ cs
      → Pops h ((a, x) ∷ cs) found list g
  unfolding find_cell remove_cell
  loop-kept h g list a x cs found tail is miss o e all = record {
    address = rw miss o.address;
    list_after = rw miss (record {
      head = is.head;
      tail = rw all is.tail;
      size = rw all is.size;
      small = rw all is.small;
      chain = o.chain;
    });
    kept = o.kept;
    same = λ p out. o.same p out;
  }

  loop-gone :
      (h g : Memory A) (list : ListHandle) (a : ℕ) (x : A) (cs : Cells A) (found tail : ℕ)
      → IsList h list ((a, x) ∷ cs)
      → matches x ≡ false
      → Walked matches h a x cs found tail g
      → length cs ≡ suc (length (remove_cell matches cs))
      → Pops h ((a, x) ∷ cs) found (record list { tail = tail; size = dec_u32 list.size }) g
  unfolding find_cell remove_cell
  loop-gone h g list a x cs found tail is miss o e = record {
    address = rw miss o.address;
    list_after = rw miss (record {
      head = is.head;
      tail = o.last;
      size = omega (arith, is.size, e, is.small);
      small = omega (arith, e, is.small);
      chain = o.chain;
    });
    kept = o.kept;
    same = λ p out. o.same p out;
  }

  loop-PopsTo :
      (h : Memory A) (list : ListHandle) (a : ℕ) (x : A) (cs : Cells A)
      (r : Option ((ℕ × ℕ) × Memory A))
      → IsList h list ((a, x) ∷ cs)
      → matches x ≡ false
      → Walks matches h a x cs r
      → PopsTo h ((a, x) ∷ cs) (after_loop list r)
  loop-PopsTo h list a x cs none is miss o = o
  loop-PopsTo h list a x cs (some ((found, tail), g)) is miss o =
      elim (remove-cases h cs is.chain.3) [
        | inl e ↦
            let null : (found == 0) ≡ true = ground (arith, o.address, e.0) in
            rw null (loop-kept h g list a x cs found tail is miss o e.0 e.1)
        | inr e ↦
            let valid : (found == 0) ≡ false = ground (arith, o.address, e.0) in
            rw valid (loop-gone h g list a x cs found tail is miss o e.1)
      ]

  -- If the handle's pointers lead through a sequence of cells, `pop_node` ends without a fault. It
  -- returns the address of the first cell that matches, whose content stays, or 0; the handle then
  -- leads through the cells without that one, tail and size included, and memory outside the cells
  -- has not changed.
  pub pop_node-PopsTo :
      (h : Memory A) (list : ListHandle) (cs : Cells A)
      → IsList h list cs
      → PopsTo h cs (pop_node matches list h)
  unfolding find_cell remove_cell
  pop_node-PopsTo h list [] is =
      rw (pop_empty h list is.size)
        (record { address = refl; list_after = is; kept = refl; same = λ p o. refl })
  pop_node-PopsTo h list ((a, x) ∷ []) is = elim (Bool-cases (matches x)) [
    | inl hit ↦ rw (pop_only_hit h list a x is.head is.chain.0 0 is.chain.1 is.size hit) (record {
      address = rw hit refl;
      list_after =
          rw hit
            (record { head = refl; tail = refl; size = refl; small = omega arith; chain = tt });
      kept = refl;
      same = λ p o. refl;
    })
    | inr miss ↦
        rw (pop_only_miss h list a x is.head is.chain.0 0 is.chain.1 is.size miss) (record {
          address = rw miss refl;
          list_after = rw miss is;
          kept = refl;
          same = λ p o. refl;
        })
  ]
  pop_node-PopsTo h list ((a, x) ∷ (b, y) ∷ cs) is = elim (Bool-cases (matches x)) [
    | inl hit ↦
        rw (pop_first_hit h list a x is.head is.chain.0 b is.chain.1 (omega (arith, is.size)) hit)
          (record {
            address = rw hit refl;
            list_after = rw hit (record {
              head = refl;
              tail = is.tail;
              size = omega (arith, is.size, is.small);
              small = omega (arith, is.small);
              chain = is.chain.3;
            });
            kept = refl;
            same = λ p o. refl;
          })
    | inr miss ↦
        rw
          (pop_first_miss h list a x is.head is.chain.0 b is.chain.1 (end b cs) is.tail
            (omega (arith, is.size)) miss)
          (loop-PopsTo h list a x ((b, y) ∷ cs) (pop_loop list.size matches (end b cs) a b h) is
            miss (pop_loop-Walks matches list.size h a b x y cs (omega (arith, is.size)) is.chain))
  ]
