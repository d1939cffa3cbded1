-- ===== src/PriorityQueue/Insert.antt =====
-- The `while` of `push_node_pq` on pointers, and the insertion into a sequence.
use thread_scheduler_multipl.Base.{
  ℕ, zero, suc, ◌≤◌, ◌<◌, ◌≡◌, ◌≢◌, refl, sym, ap, ◌∙◌, true, false, Option, none, some, [], ◌∷◌,
  ◌||◌, ◌==◌, ltb, if◌then◌else◌, length, last, arith, Bool-cases, inl, inr,
}
use thread_scheduler_multipl.LinkedList.Nodes.{node, Memory, write, load-ok, set_next-ok}
use thread_scheduler_multipl.LinkedList.Chain.{
  Cells, first, end, has_cell, Chain, Chain-write, not_first, write-at, write-other,
}
use thread_scheduler_multipl.LinkedList.Contents.{contents}
use thread_scheduler_multipl.PriorityQueue.{PqData, insert_loop}
use thread_scheduler_multipl.PriorityQueue.Nodes.{push_loop}

pub insert_cells : (new : ℕ) (x v : PqData) → Cells PqData → Cells PqData
insert_cells new x v [] = []
insert_cells new x v ((c, w) ∷ cs) =
    if v.priority == x.priority || ltb w.priority x.priority
    then (new, x) ∷ (c, w) ∷ cs
    else (c, w) ∷ insert_cells new x w cs

pub contents-insert :
    (new : ℕ) (x v : PqData) (cs : Cells PqData)
    → contents (insert_cells new x v cs) ≡ insert_loop x v (contents cs)
unfolding insert_cells insert_loop
contents-insert new x v [] = refl
contents-insert new x v ((c, w) ∷ cs) =
    elim (Bool-cases (v.priority == x.priority || ltb w.priority x.priority)) [
      | inl here ↦ rw here refl
      | inr on ↦ rw on (ap (λ ys. w ∷ ys) (contents-insert new x w cs))
    ]

has-insert :
    (p new : ℕ) (x v : PqData) (cs : Cells PqData)
    → has_cell p cs ≡ false
    → p ≢ new
    → has_cell p (insert_cells new x v cs) ≡ false
unfolding insert_cells
has-insert p new x v [] out ne = refl
has-insert p new x v ((c, w) ∷ cs) out ne = ground (arith, has-insert p new x w cs)

not_lower : (a b c : ℕ) → (a == c || ltb b c) ≡ false → c ≤ b
not_lower a b c h = ground arith

-- What the loop leaves in memory
pub record Inserted (h : Memory PqData) (new : ℕ) (x : PqData) (prev : ℕ) (v : PqData)
    (cs : Cells PqData) (g : Memory PqData) : Type 0 where
  pub chain : Chain g ((prev, v) ∷ insert_cells new x v cs)
  pub longer : length (insert_cells new x v cs) ≡ suc (length cs)
  pub tail : end prev (insert_cells new x v cs) ≡ end prev cs
  pub same : (p : ℕ) → has_cell p ((prev, v) ∷ cs) ≡ false → p ≢ new → g p ≡ h p

abbrev pub Inserts :
    Memory PqData
    → ℕ
    → PqData
    → ℕ
    → PqData
    → Cells PqData
    → Option (Unit {0} × Memory PqData)
    → Type 0
Inserts h new x prev v cs none = ⊥
Inserts h new x prev v cs (some (u, g)) = Inserted h new x prev v cs g

module _ (h : Memory PqData) (new garbage : ℕ) (x : PqData) (pos : 0 < new)
    (at_new : h new ≡ some (node x garbage)) where
  abbrev linked : (prev : ℕ) (v : PqData) (c : ℕ) → Memory PqData
  linked prev v c = write (write h prev (some (node v new))) new (some (node x c))

  linked-Inserted :
      (prev c : ℕ) (v w : PqData) (cs : Cells PqData)
      → Chain h ((prev, v) ∷ (c, w) ∷ cs)
      → has_cell new ((prev, v) ∷ (c, w) ∷ cs) ≡ false
      → (v.priority == x.priority || ltb w.priority x.priority) ≡ true
      → Inserted h new x prev v ((c, w) ∷ cs) (linked prev v c)
  unfolding insert_cells
  linked-Inserted prev c v w cs chain out here =
      let (ne, later) = not_first new prev v ((c, w) ∷ cs) out in
      let inner : Chain (linked prev v c) ((c, w) ∷ cs) =
        Chain-write (write h prev (some (node v new))) new (some (node x c)) ((c, w) ∷ cs)
          (Chain-write h prev (some (node v new)) ((c, w) ∷ cs) chain.3 chain.2) later in
      record {
        chain = rw here (
          chain.0,
          write-other (write h prev (some (node v new))) new prev (some (node x c))
                (λ e. ne (sym e))
              ∙ write-at h prev (some (node v new)),
          ground (arith, ne, chain.2),
          (pos, write-at (write h prev (some (node v new))) new (some (node x c)), later, inner),
        );
        longer = rw here refl;
        tail = rw here refl;
        same = λ p o other.
            write-other (write h prev (some (node v new))) new p (some (node x c)) other
            ∙ write-other h prev p (some (node v new)) ((not_first p prev v ((c, w) ∷ cs) o).0);
      }

  -- A round that goes on
  Inserted-step :
      (g : Memory PqData) (prev c : ℕ) (v w : PqData) (cs : Cells PqData)
      → Chain h ((prev, v) ∷ (c, w) ∷ cs)
      → has_cell new ((prev, v) ∷ (c, w) ∷ cs) ≡ false
      → (v.priority == x.priority || ltb w.priority x.priority) ≡ false
      → Inserted h new x c w cs g
      → Inserted h new x prev v ((c, w) ∷ cs) g
  unfolding insert_cells
  Inserted-step g prev c v w cs chain out on i =
      let (ne, later) = not_first new prev v ((c, w) ∷ cs) out in
      let other : prev ≢ new = λ e. ne (sym e) in
      let (apart, rest) = not_first prev c w cs chain.2 in
      record {
        chain = rw on (
          chain.0,
          i.same prev chain.2 other ∙ chain.1,
          ground (arith, apart, has-insert prev new x w cs rest other),
          i.chain,
        );
        longer = rw on (ap suc i.longer);
        tail = rw on i.tail;
        same = λ p o f. i.same p ((not_first p prev v ((c, w) ∷ cs) o).1) f;
      }

  module _ (fuel prev c q r : ℕ) (v w : PqData) (allocated : 0 < prev)
      (at_prev : h prev ≡ some (node v r)) (allocated_c : 0 < c)
      (at_c : h c ≡ some (node w q)) where
    round_links :
        prev ≢ new
        → (v.priority == x.priority || ltb w.priority x.priority) ≡ true
        → push_loop (suc fuel) x.priority new prev c h ≡ some (tt, linked prev v c)
    unfolding push_loop
    round_links ne here =
        let kept : write h prev (some (node v new)) new ≡ some (node x garbage) =
          write-other h prev new (some (node v new)) (λ e. ne (sym e)) ∙ at_new in
        ground (
          arith,
          here,
          load-ok h prev (node v r) allocated at_prev,
          load-ok h c (node w q) allocated_c at_c,
          set_next-ok h prev new r v allocated at_prev,
          set_next-ok (write h prev (some (node v new))) new c garbage x pos kept,
        )

    round_goes_on :
        (v.priority == x.priority || ltb w.priority x.priority) ≡ false
        → push_loop (suc fuel) x.priority new prev c h ≡ push_loop fuel x.priority new c q h
    unfolding push_loop
    round_goes_on on = ground (
      arith,
      on,
      load-ok h prev (node v r) allocated at_prev,
      load-ok h c (node w q) allocated_c at_c,
    )

  Inserts-step :
      (o : Option (Unit {0} × Memory PqData)) (prev c : ℕ) (v w : PqData) (cs : Cells PqData)
      → Chain h ((prev, v) ∷ (c, w) ∷ cs)
      → has_cell new ((prev, v) ∷ (c, w) ∷ cs) ≡ false
      → (v.priority == x.priority || ltb w.priority x.priority) ≡ false
      → Inserts h new x c w cs o
      → Inserts h new x prev v ((c, w) ∷ cs) o
  Inserts-step none prev c v w cs chain out on i = i
  Inserts-step (some (u, g)) prev c v w cs chain out on i =
      Inserted-step g prev c v w cs chain out on i

  -- From a node whose priority is not lower, and where the last one's is, the loop links the new node.
  pub push_loop-Inserts :
      (fuel prev : ℕ) (v : PqData) (cs : Cells PqData)
      → length cs < fuel
      → Chain h ((prev, v) ∷ cs)
      → has_cell new ((prev, v) ∷ cs) ≡ false
      → x.priority ≤ v.priority
      → (last v (contents cs)).priority < x.priority
      → Inserts h new x prev v cs (push_loop fuel x.priority new prev (first cs) h)
  push_loop-Inserts zero prev v cs k chain out hi lo = absurd (omega arith)
  push_loop-Inserts (suc fuel) prev v [] k chain out hi lo = absurd (omega arith)
  push_loop-Inserts (suc fuel) prev v ((c, w) ∷ cs) k chain out hi lo =
      let (ne, later) = not_first new prev v ((c, w) ∷ cs) out in
      elim (Bool-cases (v.priority == x.priority || ltb w.priority x.priority)) [
        | inl here ↦
            rw
              (round_links fuel prev c (first cs) c v w chain.0 chain.1 chain.3.0 chain.3.1
                (λ e. ne (sym e)) here)
              (linked-Inserted prev c v w cs chain out here)
        | inr on ↦
            rw (round_goes_on fuel prev c (first cs) c v w chain.0 chain.1 chain.3.0 chain.3.1 on) (
              Inserts-step (push_loop fuel x.priority new c (first cs) h) prev c v w cs chain out on
                (push_loop-Inserts fuel c w cs (omega arith) chain.3 later
                  (not_lower v.priority w.priority x.priority on) lo))
      ]
