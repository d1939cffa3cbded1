-- ===== src/LinkedList/Pointers.antt =====
-- The functions of linkedlist.c on nodes and pointers; Linux/ and Windows/ have the same text. `fresh`
-- is the address that `malloc` returns, `matches x` stands for `!list->compare_function(x, data)`.
use thread_scheduler_multipl.Base.{
  ℕ, zero, suc, ◌+◌, ◌%◌, ◌^◌, Bool, none, some, not, ◌&&◌, ◌==◌, if◌then◌else◌, dec_u32,
}
use thread_scheduler_multipl.LinkedList.Nodes.{
  Node, node, Access, done, ◌>>=◌, ◌>>◌, load, store, set_next, free,
}

-- `LinkedList`, without its function pointers
pub record ListHandle : Type 0 where
  pub head : ℕ
  pub tail : ℕ
  pub size : ℕ

abbrev pub inc_u32 : ℕ → ℕ
inc_u32 n = (n + 1) % 2 ^ 32

module _ {A : Type 0} where
  unfoldable pub add_first : (fresh : ℕ) → ListHandle → A → Access A ListHandle
  add_first fresh list x =
      if list.size == 0
      then (do
        store fresh (node x 0)
        done (record { head = fresh; tail = fresh; size = inc_u32 list.size }))
      else (do
        store fresh (node x list.head)
        done (record list { head = fresh; size = inc_u32 list.size }))

  unfoldable pub add_last : (fresh : ℕ) → ListHandle → A → Access A ListHandle
  add_last fresh list x = do
    store fresh (node x 0)
    if list.size == 0
        then done (record { head = fresh; tail = fresh; size = inc_u32 list.size })
        else (do
          set_next list.tail fresh
          done (record list { tail = fresh; size = inc_u32 list.size }))

  -- The `while` of `has_node_list`; that of `get_node_list` returns the address.
  unfoldable pub get_loop : (fuel : ℕ) → (A → Bool) → (curr : ℕ) → Access A ℕ
  get_loop zero matches curr h = none
  get_loop (suc fuel) matches curr h =
      if curr == 0
      then some (0, h)
      else (do n ← load curr; if matches n.content then done curr else get_loop fuel matches n.next)
          h

  -- The `while` of `pop_node_list` and what follows it: the address of the node that has left the
  -- list, or 0, and the new tail.
  unfoldable pub pop_loop : (fuel : ℕ) → (A → Bool) → (tail prev curr : ℕ) → Access A (ℕ × ℕ)
  pop_loop zero matches tail prev curr h = none
  pop_loop (suc fuel) matches tail prev curr h =
      let rest = λ (n : Node A). pop_loop fuel matches tail curr n.next in
      (do
        n ← load curr
        if curr == tail
            then if matches n.content
              then (do set_next prev 0; done (tail, prev))
              else done (0, tail)
            else if matches n.content
            then (do set_next prev n.next; done (curr, tail))
            else rest n)
        h

  unfoldable pub pop_node : (A → Bool) → ListHandle → Access A (ℕ × ListHandle)
  unfolding pop_loop
  pop_node matches list = if list.size == 0 then done (0, list) else do
    n ← load list.head
    if list.size == 1
        then if matches n.content
          then done (list.head, record { head = 0; tail = 0; size = dec_u32 list.size })
          else done (0, list)
        else if matches n.content
        then done (list.head, record list { head = n.next; size = dec_u32 list.size })
        else do
          (found, tail) ← pop_loop list.size matches list.tail list.head n.next
          done (
            found,
            if found == 0 then list else record list { tail = tail; size = dec_u32 list.size },
          )

  -- The `while` of `remove_node_list` and what follows it: the address of the node that has been
  -- released, or 0, and the new tail.
  unfoldable pub remove_loop : (fuel : ℕ) → (A → Bool) → (tail prev curr : ℕ) → Access A (ℕ × ℕ)
  remove_loop zero matches tail prev curr h = none
  remove_loop (suc fuel) matches tail prev curr h =
      let rest = λ (n : Node A). remove_loop fuel matches tail curr n.next in
      (do
        n ← load curr
        if curr == tail
            then if matches n.content
              then (do set_next prev 0; free tail; done (tail, prev))
              else done (0, tail)
            else if matches n.content
            then (do set_next prev n.next; free curr; done (curr, tail))
            else rest n)
        h

  unfoldable pub remove_node : (A → Bool) → ListHandle → Access A ListHandle
  unfolding remove_loop
  remove_node matches list = if list.size == 0 then done list else do
    n ← load list.head
    if (list.size == 1) && matches n.content
        then (do free list.head; done (record { head = 0; tail = 0; size = dec_u32 list.size }))
        else if matches n.content
        then (do free list.head; done (record list { head = n.next; size = dec_u32 list.size }))
        else do
          (found, tail) ← remove_loop list.size matches list.tail list.head n.next
          done (if found == 0 then list else record list { tail = tail; size = dec_u32 list.size })

  unfoldable pub get_node : (A → Bool) → ListHandle → Access A ℕ
  get_node matches list = get_loop (suc list.size) matches list.head

  unfoldable pub has_node : (A → Bool) → ListHandle → Access A Bool
  has_node matches list = do p ← get_loop (suc list.size) matches list.head; done (not (p == 0))

  -- The `while` of `free_list`.
  unfoldable pub free_loop : (fuel : ℕ) → (curr : ℕ) → Access A (Unit {0})
  free_loop zero curr h = none
  free_loop (suc fuel) curr h =
      if curr == 0 then some (tt, h) else (do n ← load curr; free curr; free_loop fuel n.next) h
