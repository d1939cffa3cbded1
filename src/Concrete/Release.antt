-- ===== src/Concrete/Release.antt =====
-- `so_end` of _test/so_scheduler.c on memory: the joins, and the release of the lists, of the table
-- and of the threads' structs.
use thread_scheduler_multipl.Base.{
  ℕ, zero, suc, ◌<◌, ◌≡◌, refl, sym, ap, ◌∙◌, true, false, Option, none, some, List, [], ◌∷◌, ◌==◌,
  if◌then◌else◌, length, arith,
}
use thread_scheduler_multipl.LinkedList.Nodes.{
  Node, node, Memory, load, load-ok, free, free-ok, write,
}
use thread_scheduler_multipl.LinkedList.Pointers.{ListHandle}
use thread_scheduler_multipl.LinkedList.Chain.{Cells, first, Chain, Chain-write, has_cell}
use thread_scheduler_multipl.LinkedList.Contents.{contents}
use thread_scheduler_multipl.HashTable.{Entry}
use thread_scheduler_multipl.HashTable.Holds.{AllHold}
use thread_scheduler_multipl.HashTable.Release.{Leads, Leads-frame}
use thread_scheduler_multipl.Machine.Room.{has_id, IsUnique}
use thread_scheduler_multipl.Scheduler.State.{PthreadParam, update}
use thread_scheduler_multipl.Concrete.State.{Store, Cmd, pure, ◌>>=◌, ◌>>◌, load_param}
use thread_scheduler_multipl.Concrete.Params.{load_param-ok}
use thread_scheduler_multipl.Concrete.Creation.{bind-ok}
use thread_scheduler_multipl.Concrete.Values.{values_then, values}

unfoldable pub load_entry : ℕ → Cmd (Node (Entry ℕ ℕ))
load_entry curr c = elim (load curr c.entry_nodes) [
  | none ↦ none
  | some (n, h) ↦ some (n, record c { entry_nodes = h })
]

-- `free_entries_pthreads_attr` reads `entry->value` for each of its first two releases: `sem_destroy`
-- on the struct, and the release of the struct.
unfoldable pub destroy_semaphore : ℕ → Cmd (Unit {0})
destroy_semaphore curr = do n ← load_entry curr; p ← load_param n.content.value; pure tt

unfoldable pub free_param : ℕ → Cmd (Unit {0})
free_param a = load_param a >>= λ p c. some (tt, record c { params = update c.params a none })

unfoldable pub release_value : ℕ → Cmd (Unit {0})
release_value curr = load_entry curr >>= λ n. free_param n.content.value

-- The release of the key, of the entry and of the node, which are one piece of memory here
unfoldable pub release_entry : ℕ → Cmd (Unit {0})
release_entry curr c = elim (free curr c.entry_nodes) [
  | none ↦ none
  | some (u, h) ↦ some (tt, record c { entry_nodes = h })
]

-- The `while` of `free_list` on a list of the table
unfoldable pub release_entries : (fuel curr : ℕ) → Cmd (Unit {0})
release_entries zero curr c = none
release_entries (suc fuel) curr c =
    let rest = λ (n : Node (Entry ℕ ℕ)). release_entries fuel n.next in
    if curr == 0
    then some (tt, c)
    else (do
      n ← load_entry curr
      destroy_semaphore curr
      release_value curr
      release_entry curr
      rest n)
        c

-- The `for` of `free_hashtable`
unfoldable pub release_lists : List ListHandle → Cmd (Unit {0})
release_lists [] = pure tt
release_lists (l ∷ ls) = release_entries (suc l.size) l.head >>= λ _. release_lists ls

-- The structs at some addresses are in use, and no address stands there twice.
abbrev pub Live : (ℕ → Option PthreadParam) → List ℕ → Type 0
Live params [] = Unit
Live params (v ∷ vs) =
    (0 < v) × ((p : PthreadParam) × (params v ≡ some p)) × (has_id v vs ≡ false) × Live params vs

pub Live-all :
    (params : ℕ → Option PthreadParam) (vs : List ℕ)
    → IsUnique vs
    → ((v : ℕ) → has_id v vs ≡ true → (0 < v) × ((p : PthreadParam) × (params v ≡ some p)))
    → Live params vs
Live-all params [] u h = tt
Live-all params (v ∷ vs) u h =
    let (pos, p) = h v (ground arith) in
    (pos, p, u.0, Live-all params vs u.1 (λ w k. h w (ground (arith, k))))

Live-update :
    (params : ℕ → Option PthreadParam) (a : ℕ) (vs : List ℕ)
    → has_id a vs ≡ false
    → Live params vs
    → Live (update params a none) vs
Live-update params a [] new h = tt
Live-update params a (v ∷ vs) new (pos, (p, at), out, h) =
    let ne : (a == v) ≡ false = ground (arith, new) in
    (pos, (p, rw ne at), out, Live-update params a vs (ground (arith, new)) h)

load_entry-ok :
    (a : ℕ) (n : Node (Entry ℕ ℕ)) (c : Store)
    → 0 < a
    → c.entry_nodes a ≡ some n
    → load_entry a c ≡ some (n, c)
unfolding load_entry
load_entry-ok a n c pos e = rw (load-ok c.entry_nodes a n pos e, load_entry) refl

destroy_semaphore-ok :
    (a : ℕ) (n : Node (Entry ℕ ℕ)) (p : PthreadParam) (c : Store)
    → load_entry a c ≡ some (n, c)
    → load_param n.content.value c ≡ some (p, c)
    → destroy_semaphore a c ≡ some (tt, c)
unfolding destroy_semaphore
destroy_semaphore-ok a n p c e f =
    bind-ok (load_entry a) _ n c c e ∙ bind-ok (load_param n.content.value) (λ _. pure tt) p c c f

release_value-ok :
    (a : ℕ) (n : Node (Entry ℕ ℕ)) (p : PthreadParam) (c : Store)
    → load_entry a c ≡ some (n, c)
    → load_param n.content.value c ≡ some (p, c)
    → release_value a c ≡ some (tt, record c { params = update c.params n.content.value none })
unfolding release_value free_param
release_value-ok a n p c e f =
    bind-ok (load_entry a) _ n c c e ∙ bind-ok (load_param n.content.value) _ p c c f

release_entry-ok :
    (a : ℕ) (n : Node (Entry ℕ ℕ)) (c : Store)
    → 0 < a
    → c.entry_nodes a ≡ some n
    → release_entry a c ≡ some (tt, record c { entry_nodes = write c.entry_nodes a none })
unfolding release_entry
release_entry-ok a n c pos e = rw (free-ok c.entry_nodes a n pos e, release_entry) refl

abbrev without_entry : Store → (a v : ℕ) → Store
without_entry c a v = record c {
  params = update c.params v none;
  entry_nodes = write c.entry_nodes a none;
}

entries_step :
    (fuel a q : ℕ) (x : Entry ℕ ℕ) (p : PthreadParam) (c : Store)
    → 0 < a
    → c.entry_nodes a ≡ some (node x q)
    → 0 < x.value
    → c.params x.value ≡ some p
    → release_entries (suc fuel) a c ≡ release_entries fuel q (without_entry c a x.value)
unfolding release_entries
entries_step fuel a q x p c pos at vpos vat =
    let f : (a == 0) ≡ false = ground arith in
    let entry = load_entry-ok a (node x q) c pos at in
    let param = load_param-ok x.value p c vpos vat in
    rw f (
      bind-ok (load_entry a) _ (node x q) c c entry
      ∙ bind-ok (destroy_semaphore a) _ tt c c (destroy_semaphore-ok a (node x q) p c entry param)
      ∙ bind-ok (release_value a) _ tt c _ (release_value-ok a (node x q) p c entry param)
      ∙ bind-ok (release_entry a) (λ _. release_entries fuel q) tt
          (record c { params = update c.params x.value none }) _
          (release_entry-ok a (node x q) _ pos at))

-- What the release of some cells leaves
abbrev Rest : Store → Cells (Entry ℕ ℕ) → List ℕ → Option (Unit {0} × Store) → Type 0
Rest c cs rest r =
    (c' : Store) × (r ≡ some (tt, c'))
    × Live c'.params rest
    × ((p : ℕ) → has_cell p cs ≡ false → c'.entry_nodes p ≡ c.entry_nodes p)
    × (c'.blocks ≡ c.blocks)

release_entries-Rest :
    (fuel : ℕ) (c : Store) (cs : Cells (Entry ℕ ℕ)) (rest : List ℕ)
    → length cs < fuel
    → Chain c.entry_nodes cs
    → Live c.params (values_then (contents cs) rest)
    → Rest c cs rest (release_entries fuel (first cs) c)
unfolding release_entries
release_entries-Rest zero c cs rest k chain live = absurd (omega arith)
release_entries-Rest (suc fuel) c [] rest k chain live = (c, refl, live, (λ p out. refl), refl)
release_entries-Rest (suc fuel) c ((a, x) ∷ cs) rest k chain live =
    let (vpos, (p, vat), new, later) = live in
    let (c', e, live', same, blocks) =
      release_entries-Rest fuel (without_entry c a x.value) cs rest (omega arith)
        (Chain-write c.entry_nodes a none cs chain.3 chain.2)
        (Live-update c.params x.value _ new later) in
    (
      c',
      entries_step fuel a (first cs) x p c chain.0 chain.1 vpos vat ∙ e,
      live',
      (λ q out. same q (ground (arith, out)) ∙ ground (arith, out)),
      blocks,
    )

-- The cells of all lists
abbrev pub all_contents : List (Cells (Entry ℕ ℕ)) → List (List (Entry ℕ ℕ))
all_contents [] = []
all_contents (cs ∷ css) = contents cs ∷ all_contents css

pub release_lists-runs :
    (c : Store) (ls : List ListHandle) (css : List (Cells (Entry ℕ ℕ)))
    → Leads c.entry_nodes ls css
    → Live c.params (values (all_contents css))
    → (c' : Store) × (release_lists ls c ≡ some (tt, c')) × (c'.blocks ≡ c.blocks)
unfolding release_lists
release_lists-runs c [] [] leads live = (c, refl, refl)
release_lists-runs c [] (cs ∷ css) leads live = absurd leads
release_lists-runs c (l ∷ ls) [] leads live = absurd leads
release_lists-runs c (l ∷ ls) (cs ∷ css) leads live =
    let is = leads.0 in
    let (c1, e1, live1, same, kept) =
      release_entries-Rest (suc l.size) c cs (values (all_contents css)) (omega (arith, is.size))
        is.chain live in
    let (c2, e2, also) =
      release_lists-runs c1 ls css
        (Leads-frame c.entry_nodes c1.entry_nodes ls css leads.2
          (λ p k. same p (ground (arith, k, leads.1 p))))
        live1 in
    (
      c2,
      bind-ok (release_entries (suc l.size) l.head) (λ _. release_lists ls) tt c c1 (rw is.head e1)
          ∙ e2,
      also ∙ kept,
    )

some-next : {A : Type 0} (n m : Node A) → some n ≡ some m → n.next ≡ m.next
some-next n m e = ap (λ (o : Option (Node _)). elim o [ none ↦ n.next | some k ↦ k.next ]) e

some-content : {A : Type 0} (n m : Node A) → some n ≡ some m → n.content ≡ m.content
some-content n m e =
    ap (λ (o : Option (Node _)). elim o [ none ↦ n.content | some k ↦ k.content ]) e

-- The cells that a handle's pointers lead through are determined.
same_contents :
    {A : Type 0} (h : Memory A) (cs ds : Cells A)
    → Chain h cs
    → Chain h ds
    → first cs ≡ first ds
    → contents cs ≡ contents ds
same_contents h [] [] c d e = refl
same_contents h [] ((b, y) ∷ ds) c d e = absurd (let f = d.0 in omega (arith, e, f))
same_contents h ((a, x) ∷ cs) [] c d e = absurd (let f = c.0 in omega (arith, e, f))
same_contents {A} h ((a, x) ∷ cs) ((b, y) ∷ ds) c d e =
    let both : some (node x (first cs)) ≡ some (node y (first ds)) = sym c.1 ∙ ap h e ∙ d.1 in
    let rest = same_contents h cs ds c.3 d.3 (some-next _ _ both) in
    let here : x ≡ y = some-content _ _ both in rw (here, rest) refl

pub Leads-contents :
    (h : Memory (Entry ℕ ℕ)) (ls : List ListHandle) (css : List (Cells (Entry ℕ ℕ)))
    (xss : List (List (Entry ℕ ℕ)))
    → Leads h ls css
    → AllHold h ls xss
    → all_contents css ≡ xss
Leads-contents h [] [] [] v a = refl
Leads-contents h [] [] (xs ∷ xss) v a = absurd a
Leads-contents h [] (cs ∷ css) xss v a = absurd v
Leads-contents h (l ∷ ls) [] xss v a = absurd v
Leads-contents h (l ∷ ls) (cs ∷ css) [] v a = absurd a
Leads-contents h (l ∷ ls) (cs ∷ css) (xs ∷ xss) v ((ds, is, e), a) =
    let one : contents cs ≡ xs =
      same_contents h cs ds v.0.chain is.chain (sym v.0.head ∙ is.head) ∙ e in
    let others = Leads-contents h ls css xss v.2 a in rw (one, others) refl
