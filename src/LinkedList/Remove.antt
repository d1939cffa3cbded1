-- ===== src/LinkedList/Remove.antt =====
-- `remove_node_list` against `pop_node_list`.
use thread_scheduler_multipl.Base.{
  false≢true, sym, ◌∙◌, dec_u32, ℕ, zero, suc, ◌≡◌, ◌≢◌, refl, Bool, true, false, inl, inr, none,
  some, [], ◌∷◌, ◌==◌, arith, Bool-cases, if◌then◌else◌,
}
use thread_scheduler_multipl.LinkedList.Nodes.{
  Node, node, Memory, Access, done, ◌>>=◌, ◌>>◌, load, free, set_next, load-ok, result-cases,
  load-cases,
}
use thread_scheduler_multipl.LinkedList.Pointers.{
  ListHandle, pop_loop, pop_node, remove_loop, remove_node,
}
use thread_scheduler_multipl.LinkedList.Chain.{IsList}

module _ {A : Type 0} (matches : A → Bool) where
  -- The release of the node whose address is the first component, unless that is 0.
  abbrev pub release : {B : Type 0} → ℕ × B → Access A (ℕ × B)
  release (found, b) = if found == 0 then done (found, b) else (do free found; done (found, b))

  -- A link is written, then the node that is out of the list is released.
  unlink-release :
      {B : Type 0} (prev q found : ℕ) (b : B) (h : Memory A)
      → (found == 0) ≡ false
      → (do set_next prev q; free found; done (found, b)) h
        ≡ ((do set_next prev q; done (found, b)) >>= release) h
  unlink-release prev q found b h valid = elim (result-cases (set_next prev q h)) [
    | inl e ↦ ground (arith, e)
    | inr (u, e) ↦ ground (arith, e, valid)
  ]

  remove_loop-pop_loop :
      (fuel tail prev curr : ℕ) (h : Memory A)
      → remove_loop fuel matches tail prev curr h
        ≡ (pop_loop fuel matches tail prev curr >>= release) h
  unfolding remove_loop pop_loop
  remove_loop-pop_loop zero tail prev curr h = refl
  remove_loop-pop_loop (suc fuel) tail prev curr h = elim (load-cases h curr) [
    | inl e ↦ ground (arith, e)
    | inr (n, valid, e) ↦ elim (Bool-cases (matches n.content)) [
      | inl hit ↦ elim (Bool-cases (curr == tail)) [
        | inl last ↦ ground (arith, e, hit, last, valid, unlink-release prev 0 tail prev h)
        | inr inner ↦ ground (arith, e, hit, inner, unlink-release prev n.next curr tail h valid)
      ]
      | inr miss ↦ ground (arith, e, miss, remove_loop-pop_loop fuel tail curr n.next h)
    ]
  ]

  -- `pop_node_list`, and the release of the node that it returns.
  abbrev pub pop_release : ListHandle → Access A ListHandle
  pop_release list = do r ← pop_node matches list; s ← release r; done s.1

  -- What both functions do with the result of the loop.
  loop-release :
      (list : ListHandle) (m : Access A (ℕ × ℕ)) (h : Memory A)
      → ((m >>= release) >>= λ r.
            done (if r.0 == 0 then list else record list { tail = r.1; size = dec_u32 list.size }))
          h
        ≡ (((m >>= λ r. done (
          r.0,
          if r.0 == 0 then list else record list { tail = r.1; size = dec_u32 list.size },
        ))
                >>= release)
              >>= λ s. done s.1)
            h
  loop-release list m h = elim (result-cases (m h)) [
    | inl e ↦ ground (arith, e)
    | inr (((found, tail), g), e) ↦ elim (Bool-cases (found == 0)) [
      | inl null ↦ ground (arith, e, null)
      | inr valid ↦ elim (result-cases (free found g)) [
        | inl f ↦ ground (arith, e, f, valid)
        | inr (u, f) ↦ ground (arith, e, f, valid)
      ]
    ]
  ]

  -- Unless the list has one node and that does not match, `remove_node` does what `pop_node` and
  -- the release of the node that it returns do, faults included.
  pub remove_node-pop_release :
      (list : ListHandle) (h : Memory A)
      → (list.size ≡ 1 → (n : Node A) → load list.head h ≡ some (n, h) → matches n.content ≡ true)
      → remove_node matches list h ≡ pop_release list h
  unfolding remove_node pop_node
  remove_node-pop_release list h single = elim (Bool-cases (list.size == 0)) [
    | inl empty ↦ ground (arith, empty)
    | inr nonempty ↦ elim (load-cases h list.head) [
      | inl e ↦ ground (arith, e, nonempty)
      | inr (n, valid, e) ↦ elim (Bool-cases (matches n.content)) [
        | inl hit ↦ elim (result-cases (free list.head h)) [
          | inl f ↦ ground (arith, e, f, nonempty, hit, valid)
          | inr (u, f) ↦ ground (arith, e, f, nonempty, hit, valid)
        ]
        | inr miss ↦
            let ne : list.size ≢ 1 = λ one. false≢true (sym miss ∙ single one n e) in
            let many : (list.size == 1) ≡ false = ground (arith, ne) in
            ground (
              arith,
              e,
              nonempty,
              miss,
              many,
              remove_loop-pop_loop list.size list.tail list.head n.next h,
              loop-release list (pop_loop list.size matches list.tail list.head n.next) h,
            )
      ]
    ]
  ]

  loop_null : (fuel tail prev : ℕ) (h : Memory A) → remove_loop fuel matches tail prev 0 h ≡ none
  unfolding remove_loop load
  loop_null zero tail prev h = refl
  loop_null (suc fuel) tail prev h = refl

  -- On a list of one node that does not match, `remove_node` dereferences NULL.
  pub remove_node-fault :
      (list : ListHandle) (h : Memory A) (a : ℕ) (x : A)
      → IsList h list ((a, x) ∷ [])
      → matches x ≡ false
      → remove_node matches list h ≡ none
  unfolding remove_node
  remove_node-fault list h a x is miss =
      let at : load list.head h ≡ some (node x 0, h) =
        rw is.head (load-ok h a (node x 0) is.chain.0 is.chain.1) in
      ground (arith, is.size, at, miss, loop_null list.size list.tail list.head h)
