-- ===== src/PriorityQueue/Nodes.antt =====
-- Windows/priority_queue.c, the same text as in Linux/, on nodes and pointers. `fresh` is the address
-- that `malloc` returns, and `garbage` what the new node's `next` holds before it is written.
use thread_scheduler_multipl.Base.{
  ℕ, zero, suc, Option, none, some, ◌||◌, ◌==◌, ltb, leb, if◌then◌else◌, dec_u32,
}
use thread_scheduler_multipl.LinkedList.Nodes.{
  Node, node, Access, done, ◌>>=◌, ◌>>◌, load, store, set_next, free,
}
use thread_scheduler_multipl.LinkedList.Pointers.{ListHandle, add_first, add_last, inc_u32}
use thread_scheduler_multipl.PriorityQueue.{PqData, pq_data}

-- The `while` of `push_node_pq`
unfoldable pub push_loop : (fuel priority new_node prev curr : ℕ) → Access PqData (Unit {0})
push_loop zero priority new_node prev curr h = none
push_loop (suc fuel) priority new_node prev curr h =
    let rest = λ (n : Node PqData). push_loop fuel priority new_node curr n.next in
    if curr == 0
    then some (tt, h)
    else (do
      p ← load prev
      n ← load curr
      if p.content.priority == priority || ltb n.content.priority priority
          then (do set_next prev new_node; set_next new_node curr)
          else rest n)
        h

-- The branch of `push_node_pq` that links the node itself
unfoldable pub push_inside : (fresh garbage : ℕ) → ListHandle → PqData → Access PqData ListHandle
push_inside fresh garbage pq x = do
  store fresh (node x garbage)
  p ← load pq.head
  push_loop pq.size x.priority fresh pq.head p.next
  done (record pq { size = inc_u32 pq.size })

unfoldable pub push_node :
    (fresh garbage : ℕ) → ListHandle → (thread priority : ℕ) → Access PqData ListHandle
push_node fresh garbage pq thread priority =
    if pq.size == 0 then add_first fresh pq (pq_data thread priority) else do
      first ← load pq.head
      if ltb first.content.priority priority
          then add_first fresh pq (pq_data thread priority)
          else do
            last ← load pq.tail
            if leb priority last.content.priority
                then add_last fresh pq (pq_data thread priority)
                else push_inside fresh garbage pq (pq_data thread priority)

unfoldable pub pop_top : ListHandle → Access PqData ListHandle
pop_top pq = if pq.size == 0 then done pq else do
  first ← load pq.head
  free pq.head
  done (record {
    head = first.next;
    tail = if dec_u32 pq.size == 0 then 0 else pq.tail;
    size = dec_u32 pq.size;
  })

-- `none` is NULL.
unfoldable pub peak_top : ListHandle → Access PqData (Option PqData)
peak_top pq = if pq.size == 0 then done none else do first ← load pq.head; done (some first.content)
