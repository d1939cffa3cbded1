-- ===== src/Concrete/Creation.antt =====
-- The creation of a thread on memory against the one of `Scheduler`.
use thread_scheduler_multipl.Base.{
  ℕ, suc, ◌<◌, ◌^◌, ◌≡◌, ◌≢◌, refl, ap, ◌∙◌, Bool, none, some, [], ◌∷◌, length, length-append,
  arith,
}
use thread_scheduler_multipl.LinkedList.{add_last_node_list}
use thread_scheduler_multipl.PriorityQueue.{push_node_pq}
use thread_scheduler_multipl.HashTable.{HashTable}
use thread_scheduler_multipl.Scheduler.State as Linux
use thread_scheduler_multipl.Scheduler.State.{PthreadParam, Scheduler, update}
use thread_scheduler_multipl.Scheduler
use thread_scheduler_multipl.Concrete.State.{
  Store, Cmd, ◌>>=◌, fresh_address, new_param, add_created, push_ready, put_value,
}
use thread_scheduler_multipl.Concrete.Relates.{Related, IsMalloc, address_of}
use thread_scheduler_multipl.Concrete.Sim.{Agrees-result}
use thread_scheduler_multipl.Concrete.Additions.{Sim-push_ready}
use thread_scheduler_multipl.Concrete.Listing.{push_ready-Pushed, add_created-runs}
use thread_scheduler_multipl.Concrete.Entries.{new_param-runs, put_value-runs}
use thread_scheduler_multipl.Concrete

pub bind-ok :
    {A B : Type 0} (m : Cmd A) (f : A → Cmd B) (a : A) (c c' : Store)
    → m c ≡ some (a, c')
    → (m >>= f) c ≡ f a c'
bind-ok m f a c c' e = rw (◌>>=◌, e) refl

-- What `create_thread` writes for the new thread
abbrev pub new_thread : (func priority new quantum : ℕ) → PthreadParam
new_thread func priority new quantum = record {
  semaphore = 0;
  pthread_id = new;
  func = func;
  priority = priority;
  time_quantum = quantum;
}

-- The state that `create_thread` leaves
abbrev pub created_state : (func priority new : ℕ) → Scheduler → Scheduler
created_state func priority new s = record s {
  pthreads_created = add_last_node_list s.pthreads_created new;
  ready_threads_pq = push_node_pq s.ready_threads_pq new priority;
  pthreads_data = update s.pthreads_data new (some (new_thread func priority new s.time_quantum));
}

create_thread-result :
    (func priority new : ℕ) (s : Scheduler)
    → s.pthreads_data new ≡ none
    → Scheduler.create_thread func priority new s ≡ some (tt, created_state func priority new s)
unfolding Scheduler.create_thread
create_thread-result func priority new s e = rw (Linux.put_value, e) refl

module _ (ht : HashTable ℕ ℕ) (malloc : (ℕ → Bool) → ℕ → ℕ) (garbage : ℕ)
    (is_malloc : IsMalloc malloc) where
  create_steps :
      (func priority new q a : ℕ) (c c1 c2 c3 c4 : Store)
      → c.time_quantum ≡ q
      → new_param malloc garbage (new_thread func priority new q) c ≡ some (a, c1)
      → add_created malloc garbage new c1 ≡ some (tt, c2)
      → push_ready malloc garbage new priority c2 ≡ some (tt, c3)
      → put_value malloc garbage new a c3 ≡ some (tt, c4)
      → Concrete.create_thread malloc garbage func priority new c ≡ some (a, c4)
  unfolding Concrete.create_thread
  create_steps func priority new q a c c1 c2 c3 c4 eq e1 e2 e3 e4 =
      bind-ok (new_param malloc garbage (new_thread func priority new c.time_quantum)) _ a c c1
        (ap (λ k. new_param malloc garbage (new_thread func priority new k) c) eq ∙ e1)
      ∙ bind-ok (add_created malloc garbage new) _ tt c1 c2 e2
      ∙ bind-ok (push_ready malloc garbage new priority) _ tt c2 c3 e3
      ∙ bind-ok (put_value malloc garbage new a) _ tt c3 c4 e4

  -- If the new thread has no data, `create_thread` ends without a fault, and the state is again one
  -- of memory, with a table that has the new thread's address and every other that it had.
  pub create_thread-refines :
      (n func priority new : ℕ) (c : Store) (s : Scheduler)
      → Related ht (suc n) c s
      → s.pthreads_data new ≡ none
      → suc (length s.pthreads_created) < 2 ^ 32
      → (Scheduler.create_thread func priority new s ≡ some (tt, created_state func priority new s))
        × ((ht' : HashTable ℕ ℕ) × (a : ℕ) × (c' : Store) × (Concrete.create_thread malloc garbage
                func priority new c
              ≡ some (a, c'))
            × (a ≡ fresh_address malloc garbage c)
            × (address_of ht' new ≡ some a)
            × ((j : ℕ) → j ≢ new → address_of ht' j ≡ address_of ht j)
            × Related ht' n c' (created_state func priority new s))
  create_thread-refines n func priority new c s rel absent small =
      let p = new_thread func priority new s.time_quantum in
      let (a, c1, e1, where_, pos, at, nobody, rel1) =
        new_param-runs ht malloc garbage is_malloc (suc n) p c s rel in
      let (c2, e2, keep2, rel2) =
        add_created-runs ht malloc garbage is_malloc (suc n) new c1 s rel1 small in
      let (c3, e3, rel3) =
        Agrees-result ht n _ tt _
          ((Sim-push_ready ht malloc garbage is_malloc new priority).at c2 _ rel2) in
      let keep3 = push_ready-Pushed ht malloc garbage is_malloc new priority c2 c3 e3 in
      let at3 : c3.params a ≡ some p = ap (λ f. f a) keep3.params ∙ ap (λ f. f a) keep2 ∙ at in
      let longer = length-append s.pthreads_created (new ∷ []) in
      let (ht', self, others, (c4, e4, rel4)) =
        put_value-runs ht malloc garbage is_malloc n new a p c3 _ rel3 pos at3 nobody absent
          (λ i xs e. let k = rel.short i xs e in omega (arith, k, longer))
          (omega (arith, small, longer)) in
      (
        create_thread-result func priority new s absent,
        (
          ht',
          a,
          c4,
          create_steps func priority new s.time_quantum a c c1 c2 c3 c4 rel.time_quantum e1 e2 e3
              e4,
          where_,
          self,
          others,
          rel4,
        ),
      )
