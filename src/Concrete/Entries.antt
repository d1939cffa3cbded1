-- ===== src/Concrete/Entries.antt =====
-- A new struct and its entry in the table in memory, against the map of `Scheduler`.
use thread_scheduler_multipl.Base.{
  ℕ, suc, ◌≤◌, ◌<◌, ◌^◌, ◌≡◌, ◌≢◌, refl, sym, ap, ◌∙◌, Bool, Option, none, some, List, ◌==◌, length,
  get_elem?, arith, Bool-cases, inl, inr,
}
use thread_scheduler_multipl.LinkedList.Nodes.{Memory}
use thread_scheduler_multipl.LinkedList.Keeps.{StaysFree}
use thread_scheduler_multipl.HashTable.{Entry, HashTable, stored}
use thread_scheduler_multipl.HashTable.Hashing.{hash_function_ulong}
use thread_scheduler_multipl.HashTable.Lookup.{HasChains, get-put}
use thread_scheduler_multipl.HashTable.Nodes.{NodePut, put_table}
use thread_scheduler_multipl.HashTable.Nodes as Nodes
use thread_scheduler_multipl.HashTable.Refines.{PutsTo, put_table-refines}
use thread_scheduler_multipl.HashTable.KeepsNodes.{Keeps-put_table}
use thread_scheduler_multipl.Scheduler.State.{PthreadParam, Scheduler, update}
use thread_scheduler_multipl.Concrete.State.{
  Store, grown, compare_pthreads_attr, new_param, put_value, fresh_address,
}
use thread_scheduler_multipl.Concrete.Relates.{Related, IsMalloc, Points, address_of, malloc-IsFree}
use thread_scheduler_multipl.Concrete.Sim.{Agrees, Same, Agrees-result}
use thread_scheduler_multipl.Concrete.Params.{Points-other}
use thread_scheduler_multipl.Concrete.Additions.{beyond_grown}
use thread_scheduler_multipl.HashTable.Nodes.{NodeTable}
use thread_scheduler_multipl.HashTable.Session.{put}
use thread_scheduler_multipl.Concrete.Relates.{TableSession}
use thread_scheduler_multipl.Concrete.Values.{IsTidy, put-IsTidy}
use thread_scheduler_multipl.Concrete.Chains.{key_chain-short, compare_pthreads-Compares, short_put}
use thread_scheduler_multipl.Concrete.Relates.{absent_address}

module _ (ht : HashTable ℕ ℕ) (malloc : (ℕ → Bool) → ℕ → ℕ) (garbage : ℕ)
    (is_malloc : IsMalloc malloc) where
  -- The address is not the one of a thread.
  abbrev pub IsNobody : ℕ → Type 0
  IsNobody a = (j b : ℕ) → address_of ht j ≡ some b → a ≢ b

  Points-ne :
      (params : ℕ → Option PthreadParam) (a : ℕ) (o : Option ℕ) (e : Option PthreadParam)
      → params a ≡ none
      → Points params o e
      → (b : ℕ) → o ≡ some b
      → a ≢ b
  Points-ne params a none e free p b f = absurd (cc)
  Points-ne params a (some d) e free (p, pos, at, g) b f = λ same. absurd (
      let x : d ≡ a = (let y : some d ≡ some b = f in ground (arith, y, same)) in
      let at' = rw x at at in cc)

  pub new_param-runs :
      (n : ℕ) (p : PthreadParam) (c : Store) (s : Scheduler)
      → Related ht n c s
      → (a : ℕ) × (c' : Store) × (new_param malloc garbage p c ≡ some (a, c'))
        × (a ≡ fresh_address malloc garbage c)
        × (0 < a)
        × (c'.params a ≡ some p)
        × IsNobody a
        × Related ht n c' s
  unfolding new_param
  new_param-runs n p c s rel =
      let (pos, free) = malloc-IsFree malloc is_malloc c rel.bounded in
      let a = fresh_address malloc garbage c in
      let nobody : IsNobody a = λ j b e.
        Points-ne c.params a (address_of ht j) (s.pthreads_data j) free.params (rel.points j) b e in
      (
        a,
        _,
        refl,
        refl,
        pos,
        ground arith,
        nobody,
        record {
          ready = rel.ready;
          waiting = rel.waiting;
          created = rel.created;
          table = rel.table;
          chains = rel.chains;
          session = rel.session;
          tidy = rel.tidy;
          allocated = rel.allocated;
          short = rel.short;
          points = λ j.
              Points-other ht c.params a p (address_of ht j) (s.pthreads_data j) (nobody j)
                (rel.points j);
          apart = rel.apart;
          bounded = λ q k.
              let (below, ne) = beyond_grown c.limit a q k in
              let f = rel.bounded q below in
              record {
                params = let z = f.params in ground (arith, z, ne);
                entries = f.entries;
                ready = f.ready;
                waiting = f.waiting;
                created = f.created;
              };
          running_thread = rel.running_thread;
          time_quantum = rel.time_quantum;
          io = rel.io;
          started = rel.started;
          room = rel.room;
        },
      )

  -- The states after the put of thread `t`, whose struct is at `a`
  put-Related :
      (ht' : HashTable ℕ ℕ) (n t a : ℕ) (p : PthreadParam) (c c' : Store) (s : Scheduler)
      → Related ht n c s
      → 0 < a
      → c.params a ≡ some p
      → IsNobody a
      → (address_of ht' t ≡ some a)
      → ((j : ℕ) → j ≢ t → address_of ht' j ≡ address_of ht j)
      → (j : ℕ) → Points c.params (address_of ht' j) (update s.pthreads_data t (some p) j)
  put-Related ht' n t a p c c' s rel pos at nobody self others j = elim (Bool-cases (t == j)) [
    | inl same ↦
        let i : t ≡ j = ground arith in
        let e : address_of ht' j ≡ some a = ap (λ k. address_of ht' k) (sym i) ∙ self in
        rw (same, e) (p, pos, at, refl)
    | inr other ↦ rw (other, others j (ground arith)) (rel.points j)
  ]

  put_apart :
      (ht' : HashTable ℕ ℕ) (t a : ℕ)
      → ((t j a : ℕ) → address_of ht t ≡ some a → address_of ht j ≡ some a → t ≡ j)
      → IsNobody a
      → (address_of ht' t ≡ some a)
      → ((j : ℕ) → j ≢ t → address_of ht' j ≡ address_of ht j)
      → (i j b : ℕ) → address_of ht' i ≡ some b
      → address_of ht' j ≡ some b
      → i ≡ j
  put_apart ht' t a apart nobody self others i j b e f =
      let old : (k : ℕ) → k ≢ t → address_of ht' k ≡ some b → address_of ht k ≡ some b =
        λ k ne g. sym (others k ne) ∙ g in
      let never : (k : ℕ) → k ≢ t → address_of ht' t ≡ some b → address_of ht' k ≡ some b → ⊥ =
        λ k ne g g'.
          nobody k b (old k ne g') (let h : some a ≡ some b = sym self ∙ g in ground (arith, h)) in
      elim (Bool-cases (i == t)) [
        | inl it ↦
            let is : i ≡ t = ground arith in
            elim (Bool-cases (j == t)) [
              | inl jt ↦ let js : j ≡ t = ground arith in is ∙ sym js
              | inr jn ↦ absurd (never j (ground arith) (ap (λ k. address_of ht' k) (sym is) ∙ e) f)
            ]
        | inr in_ ↦ elim (Bool-cases (j == t)) [
          | inl jt ↦
              let js : j ≡ t = ground arith in
              absurd (never i (ground arith) (ap (λ k. address_of ht' k) (sym js) ∙ f) e)
          | inr jn ↦ apart i j b (old i (ground arith) e) (old j (ground arith) f)
        ]
      ]

  after_put :
      (ht' : HashTable ℕ ℕ) (n t a : ℕ) (p : PthreadParam) (c : Store) (s : Scheduler)
      (r : Option (NodePut ℕ × Memory (Entry ℕ ℕ)))
      → Related ht n c s
      → 0 < a
      → c.params a ≡ some p
      → IsNobody a
      → HasChains ht'
      → (address_of ht' t ≡ some a)
      → ((j : ℕ) → j ≢ t → address_of ht' j ≡ address_of ht j)
      → ((i : ℕ) (xs : List (Entry ℕ ℕ))
          → get_elem? ht'.lists i ≡ some xs
          → length xs ≤ length s.pthreads_created)
      → IsTidy ht'
      → ((nt : NodeTable) (h : Memory (Entry ℕ ℕ))
          → r ≡ some (Nodes.stored nt, h)
          → TableSession nt h)
      → PutsTo hash_function_ulong compare_pthreads_attr (stored ht') r
      → StaysFree (fresh_address malloc garbage c) c.entry_nodes r
      → Agrees ht' n Same
          (elim r [
            | none ↦ none
            | some (Nodes.clobbered deep old nt, h) ↦ none
            | some (Nodes.stored nt, h) ↦ some (
              tt,
              record c {
                pthreads_data = nt;
                entry_nodes = h;
                limit = grown c.limit (fresh_address malloc garbage c);
              },
            )
          ])
          (some (tt, record s { pthreads_data = update s.pthreads_data t (some p) }))
  after_put ht' n t a p c s none rel pos at nobody chains self others short tidy session puts
        keeps =
      puts
  after_put ht' n t a p c s (some (Nodes.clobbered deep old nt, h)) rel pos at nobody chains self
        others short tidy session puts keeps =
      puts
  after_put ht' n t a p c s (some (Nodes.stored nt, h)) rel pos at nobody chains self others short
        tidy session puts keeps =
      (
        refl,
        record {
          ready = rel.ready;
          waiting = rel.waiting;
          created = rel.created;
          table = puts;
          chains = chains;
          session = session nt h refl;
          tidy = tidy;
          allocated = rel.allocated;
          short = short;
          points = put-Related ht' n t a p c c s rel pos at nobody self others;
          apart = put_apart ht' t a rel.apart nobody self others;
          bounded = λ q k.
              let (below, ne) = beyond_grown c.limit (fresh_address malloc garbage c) q k in
              let f = rel.bounded q below in
              record {
                params = f.params;
                entries = keeps q ne f.entries;
                ready = f.ready;
                waiting = f.waiting;
                created = f.created;
              };
          running_thread = rel.running_thread;
          time_quantum = rel.time_quantum;
          io = rel.io;
          started = rel.started;
          room = rel.room;
        },
      )

  -- The table after a put, and what it has
  abbrev pub Puts : (n t a : ℕ) → Option (Unit {0} × Store) → Scheduler → Type 0
  Puts n t a r s' =
      (ht' : HashTable ℕ ℕ) × (address_of ht' t ≡ some a)
      × ((j : ℕ) → j ≢ t → address_of ht' j ≡ address_of ht j)
      × ((c : Store) × (r ≡ some (tt, c)) × Related ht' n c s')

  pub put_value-runs :
      (n t a : ℕ) (p : PthreadParam) (c : Store) (s : Scheduler)
      → Related ht n c s
      → 0 < a
      → c.params a ≡ some p
      → IsNobody a
      → s.pthreads_data t ≡ none
      → ((i : ℕ) (xs : List (Entry ℕ ℕ))
          → get_elem? ht.lists i ≡ some xs
          → suc (length xs) ≤ length s.pthreads_created)
      → length s.pthreads_created < 2 ^ 32
      → Puts n t a
          (put_value malloc garbage t a c)
          (record s { pthreads_data = update s.pthreads_data t (some p) })
  unfolding put_value
  put_value-runs n t a p c s rel pos at nobody new short small =
      let (fpos, free) = malloc-IsFree malloc is_malloc c rel.bounded in
      let fresh = fresh_address malloc garbage c in
      let absent : address_of ht t ≡ none =
        absent_address c.params (address_of ht t) (rw new at (rel.points t)) in
      let (ht', stores, chains, self, others) =
        get-put hash_function_ulong compare_pthreads_attr compare_pthreads-Compares ht t a
          rel.chains absent in
      let puts =
        put_table-refines hash_function_ulong compare_pthreads_attr fresh t a c.entry_nodes
          c.pthreads_data ht rel.table rel.chains fpos free.entries
          (λ xs e. let k = short _ xs e in omega (arith, k, small)) in
      (
        ht',
        self,
        others,
        Agrees-result ht' n _ tt _ (
            after_put ht' n t a p c s _ rel pos at nobody chains self others
              (short_put ht ht' t a (length s.pthreads_created) rel.chains absent stores short)
              (put-IsTidy ht ht' t a rel.chains absent stores self others nobody rel.tidy)
              (λ nt h e.
                put fresh t a rel.session fpos free.entries
                  (key_chain-short c.entry_nodes c.pthreads_data ht t (length s.pthreads_created)
                    rel.table rel.chains short small)
                  e)
              (rw stores at puts)
              ((Keeps-put_table hash_function_ulong compare_pthreads_attr fresh t a
                  c.pthreads_data).at
                c.entry_nodes)),
      )
