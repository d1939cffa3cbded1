-- ===== src/PriorityQueue/TopNodes.antt =====
-- `pop_node_pq` and `peak_pq` on pointers against the ones on sequences.
use thread_scheduler_multipl.Base.{
  ℕ, suc, ◌<◌, ◌^◌, ◌≡◌, refl, sym, true, false, none, some, List, [], ◌∷◌, ◌==◌, if◌then◌else◌,
  length, arith, dec_u32,
}
use thread_scheduler_multipl.LinkedList.Nodes.{node, Memory, write, load, free, load-ok, free-ok}
use thread_scheduler_multipl.LinkedList.Pointers.{ListHandle}
use thread_scheduler_multipl.LinkedList.Chain.{Cells, first, end, IsList, Chain-write}
use thread_scheduler_multipl.LinkedList.Contents.{contents, Holds, HoldsAfter}
use thread_scheduler_multipl.PriorityQueue.{PqData, pop_node_pq, peak_pq}
use thread_scheduler_multipl.PriorityQueue.Nodes.{pop_top, peak_top}

pop_none : (h : Memory PqData) (pq : ListHandle) → pq.size ≡ 0 → pop_top pq h ≡ some (pq, h)
unfolding pop_top
pop_none h pq e = ground (arith, e)

pop_step :
    (h : Memory PqData) (pq : ListHandle) (a n : ℕ) (v : PqData)
    → (pq.size == 0) ≡ false
    → pq.head ≡ a
    → 0 < a
    → h a ≡ some (node v n)
    → pop_top pq h
      ≡ some (
        record {
          head = n;
          tail = if dec_u32 pq.size == 0 then 0 else pq.tail;
          size = dec_u32 pq.size;
        },
        write h a none,
      )
unfolding pop_top
pop_step h pq a n v some_nodes head pos at =
    let at_head : load pq.head h ≡ some (node v n, h) = rw head (load-ok h a (node v n) pos at) in
    let freed : free pq.head h ≡ some (tt, write h a none) =
      rw head (free-ok h a (node v n) pos at) in
    ground (arith, some_nodes, at_head, freed)

popped_tail :
    (pq : ListHandle) (a : ℕ) (cs : Cells PqData)
    → pq.tail ≡ end a cs
    → pq.size ≡ suc (length cs)
    → suc (length cs) < 2 ^ 32
    → (if dec_u32 pq.size == 0 then 0 else pq.tail) ≡ end 0 cs
popped_tail pq a [] tail size small =
    let one : (dec_u32 pq.size == 0) ≡ true = ground (arith, size) in rw one refl
popped_tail pq a ((b, w) ∷ cs) tail size small =
    let more : (dec_u32 pq.size == 0) ≡ false = ground (arith, size, small) in rw more tail

pop-cells :
    (h : Memory PqData) (pq : ListHandle) (cs : Cells PqData)
    → IsList h pq cs
    → HoldsAfter (pop_node_pq (contents cs)) (pop_top pq h)
unfolding pop_node_pq
pop-cells h pq [] is = rw (pop_none h pq is.size) ([], is, refl)
pop-cells h pq ((a, v) ∷ cs) is =
    rw (pop_step h pq a (first cs) v (ground (arith, is.size)) is.head is.chain.0 is.chain.1) (
      cs,
      record {
        head = refl;
        tail = popped_tail pq a cs is.tail is.size is.small;
        size = omega (arith, is.size, is.small);
        small = omega (arith, is.small);
        chain = Chain-write h a none cs is.chain.3 is.chain.2;
      },
      refl,
    )

peak-cells :
    (h : Memory PqData) (pq : ListHandle) (cs : Cells PqData)
    → IsList h pq cs
    → peak_top pq h ≡ some (peak_pq (contents cs), h)
unfolding peak_pq peak_top
peak-cells h pq [] is = ground (arith, is.size)
peak-cells h pq ((a, v) ∷ cs) is =
    let at_head : load pq.head h ≡ some (node v (first cs), h) =
      rw is.head (load-ok h a (node v (first cs)) is.chain.0 is.chain.1) in
    ground (arith, is.size, at_head)

-- If the handle's pointers lead through nodes whose data are `xs`, `pop_top` ends and the data are
-- what `pop_node_pq` makes of `xs`, and `peak_top` ends, writes nothing, and returns what `peak_pq`
-- does.
pub pop_top-refines :
    (h : Memory PqData) (pq : ListHandle) (xs : List PqData)
    → Holds h pq xs
    → HoldsAfter (pop_node_pq xs) (pop_top pq h) × (peak_top pq h ≡ some (peak_pq xs, h))
pop_top-refines h pq xs (cs, is, e) =
    (rw (sym e) (pop-cells h pq cs is), rw (sym e) (peak-cells h pq cs is))
