-- ===== src/Concrete/Waking.antt =====
-- The `while` of `so_signal` on memory against the one of `Scheduler`.
use thread_scheduler_multipl.Base.{
  ℕ, zero, suc, ◌+◌, ◌≤◌, ◌<◌, ◌^◌, ◌≡◌, refl, ap, ◌∙◌, Bool, true, false, Option, none, some, List,
  [], ◌∷◌, ◌==◌, length, if◌then◌else◌, arith, Bool-cases, inl, inr,
}
use thread_scheduler_multipl.LinkedList.{pop_node_list}
use thread_scheduler_multipl.LinkedList.Nodes.{Memory, node, write, load-ok, free-ok}
use thread_scheduler_multipl.LinkedList.Pointers.{ListHandle, pop_node}
use thread_scheduler_multipl.LinkedList.Contents.{Holds}
use thread_scheduler_multipl.LinkedList.Keeps.{StaysFree, Keeps-pop_node}
use thread_scheduler_multipl.LinkedList.Released.{Takes, TakesAs, pop_node-TakesAs}
use thread_scheduler_multipl.PriorityQueue.{push_node_pq}
use thread_scheduler_multipl.HashTable.{HashTable}
use thread_scheduler_multipl.Scheduler.State.{WaitingPthread, Scheduler}
use thread_scheduler_multipl.Scheduler.{compare_io_signal_thread}
use thread_scheduler_multipl.Scheduler
use thread_scheduler_multipl.Concrete.State.{Store, Cmd, ◌>>=◌, pure, push_ready}
use thread_scheduler_multipl.Concrete.Relates.{Related, IsMalloc}
use thread_scheduler_multipl.Concrete.Sim.{Agrees, Same, Sim, Agrees-result}
use thread_scheduler_multipl.Concrete.Additions.{Sim-push_ready}
use thread_scheduler_multipl.Concrete.Listing.{push_ready-Pushed}
use thread_scheduler_multipl.Concrete.Creation.{bind-ok}
use thread_scheduler_multipl.Concrete

-- The threads for which `so_signal` looks
abbrev for_device : ℕ → WaitingPthread → Bool
for_device io w = compare_io_signal_thread w io == 0

abbrev with_waiting : Store → ListHandle → Memory WaitingPthread → Store
with_waiting c l h = record c { waiting_threads = l; waiting_nodes = h }

length-pop_node_list :
    {A : Type 0} (matches : A → Bool) (xs ys : List A) (x : A)
    → pop_node_list matches xs ≡ some (x, ys)
    → length xs ≡ suc (length ys)
unfolding pop_node_list
length-pop_node_list matches [] ys x e = absurd (cc)
length-pop_node_list {A} matches (y ∷ xs) ys x e = elim (Bool-cases (matches y)) [
  | inl hit ↦
      let f = rw (hit, pop_node_list) at e in
      ap (λ (o : Option (A × List A)). elim o [ none ↦ 0 | some (z, zs) ↦ suc (length zs) ]) f
  | inr miss ↦
      later (λ zs z. length-pop_node_list matches xs zs z) (pop_node_list matches xs) refl
        (rw (miss, pop_node_list) at e)
]
  where
    later :
        ((zs : List A) (z : A)
          → pop_node_list matches xs ≡ some (z, zs)
          → length xs ≡ suc (length zs))
        → (o : Option (A × List A)) → pop_node_list matches xs ≡ o
        → elim o as (λ _. Option (A × List A)) [ none ↦ none | some (z, zs) ↦ some (z, y ∷ zs) ]
          ≡ some (x, ys)
        → suc (length xs) ≡ suc (length ys)
    later ih none o e = absurd (cc)
    later ih (some (z, zs)) o e =
        ap suc (ih zs z o)
        ∙ ap (λ (o : Option (A × List A)). elim o [ none ↦ 0 | some (z, zs) ↦ suc (length zs) ]) e

load_waiting-ok :
    (found q : ℕ) (w : WaitingPthread) (c : Store)
    → 0 < found
    → c.waiting_nodes found ≡ some (node w q)
    → Concrete.load_waiting found c ≡ some (w, c)
unfolding Concrete.load_waiting
load_waiting-ok found q w c pos e =
    rw (load-ok c.waiting_nodes found (node w q) pos e, Concrete.load_waiting) refl

free_waiting-ok :
    (found q : ℕ) (w : WaitingPthread) (c : Store)
    → 0 < found
    → c.waiting_nodes found ≡ some (node w q)
    → Concrete.free_waiting found c
      ≡ some (tt, with_waiting c c.waiting_threads (write c.waiting_nodes found none))
unfolding Concrete.free_waiting
free_waiting-ok found q w c pos e =
    rw (free-ok c.waiting_nodes found (node w q) pos e, Concrete.free_waiting) refl

module _ (ht : HashTable ℕ ℕ) where
  -- Another waiting list in memory
  waiting-Related :
      (n m : ℕ) (c : Store) (s : Scheduler) (l : ListHandle) (h : Memory WaitingPthread)
      (ws : List WaitingPthread)
      → Related ht n c s
      → Holds h l ws
      → ((p : ℕ) → c.limit ≤ p → c.waiting_nodes p ≡ none → h p ≡ none)
      → length s.ready_threads_pq + length ws + m < 2 ^ 32
      → Related ht m (with_waiting c l h) (record s { waiting_threads = ws })
  waiting-Related n m c s l h ws rel holds keeps small = record {
    ready = rel.ready;
    waiting = holds;
    created = rel.created;
    table = rel.table;
    chains = rel.chains;
    session = rel.session;
    tidy = rel.tidy;
    allocated = rel.allocated;
    short = rel.short;
    points = rel.points;
    apart = rel.apart;
    bounded = λ p k.
        let f = rel.bounded p k in
        record {
          params = f.params;
          entries = f.entries;
          ready = f.ready;
          waiting = keeps p k f.waiting;
          created = f.created;
        };
    running_thread = rel.running_thread;
    time_quantum = rel.time_quantum;
    io = rel.io;
    started = rel.started;
    room = small;
  }

  module _ (malloc : (ℕ → Bool) → ℕ → ℕ) (garbage : ℕ) (is_malloc : IsMalloc malloc) where
    -- A round of the loop after the search, with `rest` for the other rounds
    abbrev round : (rest : Cmd ℕ) (num found : ℕ) → Cmd ℕ
    round rest num found =
        if found == 0
        then pure num
        else (Concrete.load_waiting found >>= λ w.
            push_ready malloc garbage w.pthread_id w.priority >>= λ _.
            Concrete.free_waiting found >>= λ _. rest)

    round_found :
        (rest : Cmd ℕ) (num found q : ℕ) (w : WaitingPthread) (c c' : Store)
        → 0 < found
        → c.waiting_nodes found ≡ some (node w q)
        → push_ready malloc garbage w.pthread_id w.priority c ≡ some (tt, c')
        → c'.waiting_nodes found ≡ some (node w q)
        → round rest num found c
          ≡ rest (with_waiting c' c'.waiting_threads (write c'.waiting_nodes found none))
    round_found rest num found q w c c' pos at push at' =
        let f : (found == 0) ≡ false = ground arith in
        rw f (
          bind-ok (Concrete.load_waiting found) _ w c c (load_waiting-ok found q w c pos at)
          ∙ bind-ok (push_ready malloc garbage w.pthread_id w.priority) _ tt c c' push
          ∙ bind-ok (Concrete.free_waiting found) (λ _. rest) tt c' _
              (free_waiting-ok found q w c' pos at'))

    round-Agrees :
        (fuel io n num : ℕ) (rest : Cmd ℕ) (c : Store) (s : Scheduler) (found : ℕ) (l : ListHandle)
        (h : Memory WaitingPthread)
        → Related ht n c s
        → Sim ht n n Same rest (Scheduler.wake_loop fuel io (num + 1))
        → ((p : ℕ) → c.limit ≤ p → c.waiting_nodes p ≡ none → h p ≡ none)
        → (o : Option (WaitingPthread × List WaitingPthread))
        → pop_node_list (for_device io) s.waiting_threads ≡ o
        → Takes (for_device io) s.waiting_threads o found l h
        → Agrees ht n Same (round rest num found (with_waiting c l h)) (elim o [
          | none ↦ some (num, s)
          | some (w, ys) ↦ Scheduler.wake_loop fuel io (num + 1) (record s {
            waiting_threads = ys;
            ready_threads_pq = push_node_pq s.ready_threads_pq w.pthread_id w.priority;
          })
        ])
    round-Agrees fuel io n num rest c s found l h rel ih keeps none e (zero_, holds) =
        let f : (found == 0) ≡ true = ground arith in
        rw f (refl, waiting-Related n n c s l h s.waiting_threads rel holds keeps rel.room)
    round-Agrees fuel io n num rest c s found l h rel ih keeps (some (w, ys)) e
          (pos, (q, at), holds, freed) =
        let shorter = length-pop_node_list (for_device io) s.waiting_threads ys w e in
        let rel1 =
          waiting-Related n (suc n) c s l h ys rel holds keeps (omega (arith, rel.room, shorter)) in
        let (c2, e2, rel2) = Agrees-result ht n _ tt _ (
          (Sim-push_ready ht malloc garbage is_malloc w.pthread_id w.priority).at
            (with_waiting c l h) _ rel1) in
        let kept =
          push_ready-Pushed ht malloc garbage is_malloc w.pthread_id w.priority (with_waiting c l h)
            c2 e2 in
        let at2 : c2.waiting_nodes found ≡ some (node w q) =
          ap (λ f. f found) kept.waiting_nodes ∙ at in
        let rel3 =
          waiting-Related n n c2 _ c2.waiting_threads (write c2.waiting_nodes found none) ys rel2
            (rw (kept.waiting_nodes, kept.waiting_threads) freed) (λ p k f. ground (arith, f))
            rel2.room in
        rw (round_found rest num found q w (with_waiting c l h) c2 pos at e2 at2) (ih.at _ _ rel3)

    rounds :
        (fuel io n num : ℕ) (rest : Cmd ℕ) (c : Store) (s : Scheduler)
        (r : Option ((ℕ × ListHandle) × Memory WaitingPthread))
        → Related ht n c s
        → Sim ht n n Same rest (Scheduler.wake_loop fuel io (num + 1))
        → TakesAs (for_device io) s.waiting_threads r
        → ((q : ℕ) → StaysFree q c.waiting_nodes r)
        → Agrees ht n Same
            (elim (elim r as (λ _. Option (ℕ × Store)) [
              | none ↦ none
              | some ((found, l), h) ↦ some (found, with_waiting c l h)
            ]) [ none ↦ none | some (found, c') ↦ round rest num found c' ])
            (elim (pop_node_list (for_device io) s.waiting_threads) [
              | none ↦ some (num, s)
              | some (w, ys) ↦ Scheduler.wake_loop fuel io (num + 1) (record s {
                waiting_threads = ys;
                ready_threads_pq = push_node_pq s.ready_threads_pq w.pthread_id w.priority;
              })
            ])
    rounds fuel io n num rest c s none rel ih takes keeps = absurd takes
    rounds fuel io n num rest c s (some ((found, l), h)) rel ih takes keeps =
        round-Agrees fuel io n num rest c s found l h rel ih
          (λ p k f. keeps (suc p) p (omega arith) f)
          (pop_node_list (for_device io) s.waiting_threads) refl takes

    pub Sim-wake_loop :
        {n : ℕ} (fuel io num : ℕ)
        → Sim ht n n Same
            (Concrete.wake_loop malloc garbage fuel io num)
            (Scheduler.wake_loop fuel io num)
    unfolding Concrete.wake_loop Concrete.pop_waiting Scheduler.wake_loop
    Sim-wake_loop zero io num = record { at = λ c s rel. tt }
    Sim-wake_loop {n} (suc fuel) io num = record {
      at = λ c s rel.
          rounds fuel io n num (Concrete.wake_loop malloc garbage fuel io (num + 1)) c s
            (pop_node (for_device io) c.waiting_threads c.waiting_nodes) rel
            (Sim-wake_loop fuel io (num + 1))
            (pop_node-TakesAs (for_device io) c.waiting_nodes c.waiting_threads s.waiting_threads
              rel.waiting)
            (λ q. (Keeps-pop_node q (for_device io) c.waiting_threads).at c.waiting_nodes);
    }
