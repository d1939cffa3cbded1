-- ===== src/LinkedList/Add.antt =====
-- `add_first_node_list` and `add_last_node_list` on pointers.
use thread_scheduler_multipl.Base.{
  ◌∙◌, sym, ℕ, suc, ◌<◌, ◌^◌, ◌≡◌, ◌≢◌, refl, false, Option, none, some, [], ◌∷◌, ◌++◌, ◌==◌,
  length, arith,
}
use thread_scheduler_multipl.LinkedList.Nodes.{Node, node, Memory, write, set_next-ok}
use thread_scheduler_multipl.LinkedList.Pointers.{ListHandle, add_first, add_last, inc_u32}
use thread_scheduler_multipl.LinkedList.Chain.{
  Cells, end, has_cell, Chain, IsList, Chain-write, end_content, at_end, has_end, end-snoc,
  length-snoc, write-at, write-other, has-ne, Chain-snoc,
}

module _ {A : Type 0} where
  pub record Adds (h : Memory A) (fresh : ℕ) (before after : Cells A) (list : ListHandle)
      (g : Memory A) : Type 0 where
    pub list_after : IsList g list after
    pub same : (p : ℕ) → has_cell p before ≡ false → p ≢ fresh → g p ≡ h p

  abbrev pub AddsTo : Memory A → ℕ → Cells A → Cells A → Option (ListHandle × Memory A) → Type 0
  AddsTo h fresh before after none = ⊥
  AddsTo h fresh before after (some (list, g)) = Adds h fresh before after list g

  add_first_empty :
      (h : Memory A) (list : ListHandle) (fresh : ℕ) (x : A)
      → list.size ≡ 0
      → add_first fresh list x h
        ≡ some (record { head = fresh; tail = fresh; size = 1 }, write h fresh (some (node x 0)))
  unfolding add_first
  add_first_empty h list fresh x e = rw e refl

  add_first_more :
      (h : Memory A) (list : ListHandle) (fresh : ℕ) (x : A)
      → (list.size == 0) ≡ false
      → add_first fresh list x h
        ≡ some (
          record list { head = fresh; size = inc_u32 list.size },
          write h fresh (some (node x list.head)),
        )
  unfolding add_first
  add_first_more h list fresh x e = rw e refl

  add_last_empty :
      (h : Memory A) (list : ListHandle) (fresh : ℕ) (x : A)
      → list.size ≡ 0
      → add_last fresh list x h
        ≡ some (record { head = fresh; tail = fresh; size = 1 }, write h fresh (some (node x 0)))
  unfolding add_last
  add_last_empty h list fresh x e = rw e refl

  add_last_more :
      (h : Memory A) (list : ListHandle) (fresh q : ℕ) (x y : A)
      → (list.size == 0) ≡ false
      → 0 < list.tail
      → list.tail ≢ fresh
      → h list.tail ≡ some (node y q)
      → add_last fresh list x h
        ≡ some (
          record list { tail = fresh; size = inc_u32 list.size },
          write (write h fresh (some (node x 0))) list.tail (some (node y fresh)),
        )
  unfolding add_last
  add_last_more h list fresh q x y e pos ne at =
      let written : write h fresh (some (node x 0)) list.tail ≡ some (node y q) =
        ground (arith, at, ne) in
      ground
        (arith, e, set_next-ok (write h fresh (some (node x 0))) list.tail fresh q y pos written)

  -- If the handle's pointers lead through `cs`, `malloc` returns a free address `fresh`, and the size
  -- stays below 2^32, `add_first` ends and the handle leads through the new cell, then `cs`; memory
  -- outside these has not changed.
  pub add_first-AddsTo :
      (h : Memory A) (list : ListHandle) (fresh : ℕ) (x : A) (cs : Cells A)
      → IsList h list cs
      → 0 < fresh
      → has_cell fresh cs ≡ false
      → suc (length cs) < 2 ^ 32
      → AddsTo h fresh cs ((fresh, x) ∷ cs) (add_first fresh list x h)
  add_first-AddsTo h list fresh x [] is pos new small =
      rw (add_first_empty h list fresh x is.size) (record {
        list_after = record {
          head = refl;
          tail = refl;
          size = refl;
          small = small;
          chain = (pos, ground arith, refl, tt);
        };
        same = λ p out ne. ground (arith, ne);
      })
  add_first-AddsTo h list fresh x ((a, y) ∷ cs) is pos new small =
      rw (add_first_more h list fresh x (ground (arith, is.size))) (record {
        list_after = record {
          head = refl;
          tail = is.tail;
          size = omega (arith, is.size, small);
          small = small;
          chain = (
            pos,
            ground (arith, is.head),
            new,
            Chain-write h fresh (some (node x list.head)) ((a, y) ∷ cs) is.chain new,
          );
        };
        same = λ p out ne. ground (arith, ne);
      })

  -- The memory after the new cell and then the link to it are written.
  abbrev linked : Memory A → ℕ → A → ℕ → Node A → Memory A
  linked h fresh x last n = write (write h fresh (some (node x 0))) last (some n)

  linked-other :
      (h : Memory A) (fresh last p : ℕ) (x : A) (n : Node A)
      → p ≢ fresh
      → p ≢ last
      → linked h fresh x last n p ≡ h p
  linked-other h fresh last p x n f l =
      write-other (write h fresh (some (node x 0))) last p (some n) l
      ∙ write-other h fresh p (some (node x 0)) f

  linked-Chain :
      (h : Memory A) (fresh a : ℕ) (x y : A) (cs : Cells A)
      → Chain h ((a, y) ∷ cs)
      → 0 < fresh
      → has_cell fresh ((a, y) ∷ cs) ≡ false
      → Chain
          (linked h fresh x (end a cs) (node (end_content y cs) fresh))
          (((a, y) ∷ cs) ++ ((fresh, x) ∷ []))
  linked-Chain h fresh a x y cs c pos new =
      let ne = has-ne fresh (end a cs) ((a, y) ∷ cs) new (has_end a y cs) in
      Chain-snoc h (linked h fresh x (end a cs) (node (end_content y cs) fresh)) fresh a x y cs c
        pos new
        (write-other (write h fresh (some (node x 0))) (end a cs) fresh
            (some (node (end_content y cs) fresh)) (λ e. ne (sym e))
          ∙ write-at h fresh (some (node x 0)))
        (write-at (write h fresh (some (node x 0))) (end a cs)
          (some (node (end_content y cs) fresh)))
        (λ p k o.
          linked-other h fresh (end a cs) p x (node (end_content y cs) fresh)
            (has-ne fresh p ((a, y) ∷ cs) new k) o)

  -- If the handle's pointers lead through `cs`, `malloc` returns a free address `fresh`, and the size
  -- stays below 2^32, `add_last` ends and the handle leads through `cs`, then the new cell; memory
  -- outside these has not changed.
  pub add_last-AddsTo :
      (h : Memory A) (list : ListHandle) (fresh : ℕ) (x : A) (cs : Cells A)
      → IsList h list cs
      → 0 < fresh
      → has_cell fresh cs ≡ false
      → suc (length cs) < 2 ^ 32
      → AddsTo h fresh cs (cs ++ ((fresh, x) ∷ [])) (add_last fresh list x h)
  add_last-AddsTo h list fresh x [] is pos new small =
      rw (add_last_empty h list fresh x is.size) (record {
        list_after = record {
          head = refl;
          tail = refl;
          size = refl;
          small = small;
          chain = (pos, ground arith, refl, tt);
        };
        same = λ p out ne. ground (arith, ne);
      })
  add_last-AddsTo h list fresh x ((a, y) ∷ cs) is pos new small =
      let last = at_end h a y cs is.chain in
      let ne : end a cs ≢ fresh = has-ne fresh (end a cs) ((a, y) ∷ cs) new (has_end a y cs) in
      rw
        (add_last_more h list fresh 0 x (end_content y cs) (ground (arith, is.size))
          (rw is.tail last.0) (rw is.tail ne) (rw is.tail last.1))
        (rw is.tail (record {
          list_after = record {
            head = is.head;
            tail = sym (end-snoc a fresh x cs);
            size = omega (arith, is.size, small, length-snoc fresh x cs);
            small = omega (arith, small, length-snoc fresh x cs);
            chain = linked-Chain h fresh a x y cs is.chain pos new;
          };
          same = λ p out o.
              linked-other h fresh (end a cs) p x (node (end_content y cs) fresh) o
                (λ e. has-ne p (end a cs) ((a, y) ∷ cs) out (has_end a y cs) (sym e));
        }))
