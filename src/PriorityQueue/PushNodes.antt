-- ===== src/PriorityQueue/PushNodes.antt =====
-- `push_node_pq` on pointers against the one on sequences.
use thread_scheduler_multipl.Base.{
  ℕ, suc, ◌≤◌, ◌<◌, ◌^◌, ◌≡◌, ◌≢◌, refl, sym, ap, ◌∙◌, true, false, Option, none, some, List, [],
  ◌∷◌, ◌==◌, ltb, leb, length, last, arith, Bool-cases, inl, inr,
}
use thread_scheduler_multipl.LinkedList.Nodes.{
  bind-ok, node, Memory, write, load, done, ◌>>◌, load-ok,
}
use thread_scheduler_multipl.LinkedList.Pointers.{ListHandle, add_first, add_last, inc_u32}
use thread_scheduler_multipl.LinkedList.Chain.{
  Cells, first, end, end_content, at_end, has_cell, not_first, IsList, Chain-write, write-at,
  write-other,
}
use thread_scheduler_multipl.LinkedList.Contents.{
  contents, Holds, HoldsAfter, add_first-refines, add_last-refines, free-has, length-contents,
}
use thread_scheduler_multipl.PriorityQueue.{insert_loop, PqData, pq_data, push_node_pq}
use thread_scheduler_multipl.PriorityQueue.Nodes.{push_loop, push_inside, push_node}
use thread_scheduler_multipl.PriorityQueue.Insert.{
  insert_cells, contents-insert, Inserts, push_loop-Inserts,
}

end_content-last : (x : PqData) (cs : Cells PqData) → end_content x cs ≡ last x (contents cs)
end_content-last x [] = refl
end_content-last x ((a, y) ∷ cs) = end_content-last y cs

-- What `push_inside` does after the loop
abbrev grown : ListHandle → Option (Unit {0} × Memory PqData) → Option (ListHandle × Memory PqData)
grown pq r = elim r [ none ↦ none | some (u, g) ↦ some (record pq { size = inc_u32 pq.size }, g) ]

module _ (h : Memory PqData) (pq : ListHandle) (fresh garbage : ℕ) (x : PqData) (a : ℕ) (v : PqData)
    (cs : Cells PqData) (is : IsList h pq ((a, v) ∷ cs)) where
  push_inside-loop :
      a ≢ fresh
      → push_inside fresh garbage pq x h
        ≡ grown pq (
            push_loop pq.size x.priority fresh a (first cs) (write h fresh (some (node x garbage))))
  unfolding push_inside
  push_inside-loop ne =
      let at : load pq.head (write h fresh (some (node x garbage)))
          ≡ some (node v (first cs), write h fresh (some (node x garbage))) =
        rw is.head (
          load-ok (write h fresh (some (node x garbage))) a (node v (first cs)) is.chain.0
            (write-other h fresh a (some (node x garbage)) ne ∙ is.chain.1)) in
      bind-ok (load pq.head)
        (λ p.
          push_loop pq.size x.priority fresh pq.head p.next
          >> done (record pq { size = inc_u32 pq.size }))
        (write h fresh (some (node x garbage))) (write h fresh (some (node x garbage)))
        (node v (first cs)) at
      ∙ ap
          (λ (p : ℕ). grown pq (
            push_loop pq.size x.priority fresh p (first cs)
              (write h fresh (some (node x garbage)))))
          is.head

  Inserts-HoldsAfter :
      (g : Memory PqData) (r : Option (Unit {0} × Memory PqData))
      → suc (length ((a, v) ∷ cs)) < 2 ^ 32
      → Inserts g fresh x a v cs r
      → HoldsAfter (v ∷ insert_loop x v (contents cs)) (grown pq r)
  Inserts-HoldsAfter g none small i = i
  Inserts-HoldsAfter g (some (u, k)) small i = (
    (a, v) ∷ insert_cells fresh x v cs,
    record {
      head = is.head;
      tail = is.tail ∙ sym i.tail;
      size = omega (arith, is.size, i.longer, small);
      small = omega (arith, i.longer, small);
      chain = i.chain;
    },
    ap (λ ys. v ∷ ys) (contents-insert fresh x v cs),
  )

  push_inside-HoldsAfter :
      0 < fresh
      → h fresh ≡ none
      → suc (length ((a, v) ∷ cs)) < 2 ^ 32
      → x.priority ≤ v.priority
      → (last v (contents cs)).priority < x.priority
      → HoldsAfter (v ∷ insert_loop x v (contents cs)) (push_inside fresh garbage pq x h)
  push_inside-HoldsAfter pos new small hi lo =
      let out : has_cell fresh ((a, v) ∷ cs) ≡ false =
        free-has h fresh ((a, v) ∷ cs) is.chain new in
      let g : Memory PqData = write h fresh (some (node x garbage)) in
      let ne : a ≢ fresh = λ e. (not_first fresh a v cs out).0 (sym e) in
      rw (push_inside-loop ne) (
        Inserts-HoldsAfter g (push_loop pq.size x.priority fresh a (first cs) g) small (
          push_loop-Inserts g fresh garbage x pos (write-at h fresh (some (node x garbage))) pq.size
            a v cs (omega (arith, is.size))
            (Chain-write h fresh (some (node x garbage)) ((a, v) ∷ cs) is.chain out) out hi lo))

-- `push_node`, by what it finds at the two ends of the list
module _ (h : Memory PqData) (pq : ListHandle) (fresh garbage t priority : ℕ) where
  push_empty :
      pq.size ≡ 0
      → push_node fresh garbage pq t priority h ≡ add_first fresh pq (pq_data t priority) h
  unfolding push_node
  push_empty e = rw e refl

  module _ (v w : PqData) (q : ℕ) (some_nodes : (pq.size == 0) ≡ false)
      (at_head : load pq.head h ≡ some (node v q, h)) where
    push_above :
        ltb v.priority priority ≡ true
        → push_node fresh garbage pq t priority h ≡ add_first fresh pq (pq_data t priority) h
    unfolding push_node
    push_above above = ground (arith, some_nodes, at_head, above)

    push_below :
        load pq.tail h ≡ some (node w 0, h)
        → ltb v.priority priority ≡ false
        → leb priority w.priority ≡ true
        → push_node fresh garbage pq t priority h ≡ add_last fresh pq (pq_data t priority) h
    unfolding push_node
    push_below at_tail above below = ground (arith, some_nodes, at_head, at_tail, above, below)

    push_between :
        load pq.tail h ≡ some (node w 0, h)
        → ltb v.priority priority ≡ false
        → leb priority w.priority ≡ false
        → push_node fresh garbage pq t priority h
          ≡ push_inside fresh garbage pq (pq_data t priority) h
    unfolding push_node
    push_between at_tail above below = ground (arith, some_nodes, at_head, at_tail, above, below)

module _ (h : Memory PqData) (pq : ListHandle) (fresh garbage t priority : ℕ) (pos : 0 < fresh)
    (new : h fresh ≡ none) where
  push-cells :
      (cs : Cells PqData)
      → IsList h pq cs
      → suc (length cs) < 2 ^ 32
      → HoldsAfter (push_node_pq (contents cs) t priority) (push_node fresh garbage pq t priority h)
  unfolding push_node_pq
  push-cells [] is small =
      rw (push_empty h pq fresh garbage t priority is.size)
        (add_first-refines h pq fresh (pq_data t priority) [] ([], is, refl) pos new small)
  push-cells ((a, v) ∷ cs) is small =
      let long : suc (length (contents ((a, v) ∷ cs))) < 2 ^ 32 =
        omega (arith, small, length-contents cs) in
      let some_nodes : (pq.size == 0) ≡ false = ground (arith, is.size) in
      let at_head : load pq.head h ≡ some (node v (first cs), h) =
        rw is.head (load-ok h a (node v (first cs)) is.chain.0 is.chain.1) in
      let (apos, last_at) = at_end h a v cs is.chain in
      let at_tail : load pq.tail h ≡ some (node (last v (contents cs)) 0, h) = rw is.tail (
        load-ok h (end a cs) (node (last v (contents cs)) 0) apos
          (rw (← end_content-last v cs) last_at)) in
      elim (Bool-cases (ltb v.priority priority)) [
        | inl above ↦
            rw
              (
                above,
                push_above h pq fresh garbage t priority v v (first cs) some_nodes at_head above,
              )
              (add_first-refines h pq fresh (pq_data t priority) (v ∷ contents cs)
                ((a, v) ∷ cs, is, refl) pos new long)
        | inr not_above ↦ elim (Bool-cases (leb priority (last v (contents cs)).priority)) [
          | inl below ↦
              rw
                (
                  not_above,
                  below,
                  push_below h pq fresh garbage t priority v (last v (contents cs)) (first cs)
                      some_nodes at_head at_tail not_above below,
                )
                (add_last-refines h pq fresh (pq_data t priority) (v ∷ contents cs)
                  ((a, v) ∷ cs, is, refl) pos new long)
          | inr between ↦
              rw
                (
                  not_above,
                  between,
                  push_between h pq fresh garbage t priority v (last v (contents cs)) (first cs)
                      some_nodes at_head at_tail not_above between,
                )
                (push_inside-HoldsAfter h pq fresh garbage (pq_data t priority) a v cs is pos new
                  small (ground arith) (ground arith))
        ]
      ]

  -- If the handle's pointers lead through nodes whose data are `xs`, `malloc` returns a free
  -- address, and the size stays below 2^32, `push_node` ends and the data are what `push_node_pq`
  -- makes of `xs`.
  pub push_node-refines :
      (xs : List PqData)
      → Holds h pq xs
      → suc (length xs) < 2 ^ 32
      → HoldsAfter (push_node_pq xs t priority) (push_node fresh garbage pq t priority h)
  push_node-refines xs (cs, is, e) small =
      rw (sym e) (push-cells cs is (rw (sym (length-contents cs)) (rw e small)))
