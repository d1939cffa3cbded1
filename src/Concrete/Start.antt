-- ===== src/Concrete/Start.antt =====
-- What `so_init` leaves in memory.
use thread_scheduler_multipl.Base.{
  ℕ, ◌≡◌, refl, true, false, not, ◌||◌, ◌==◌, ltb, if◌then◌else◌, ℤ, pos, minus_one, Option, none,
  some, List, [], replicate, get_elem?, length, zero, suc, ◌≤◌, arith, sym, ap,
}
use thread_scheduler_multipl.LinkedList.Nodes.{Memory}
use thread_scheduler_multipl.LinkedList.Contents.{Holds}
use thread_scheduler_multipl.HashTable.{Entry, HashTable, initialize_hashtable}
use thread_scheduler_multipl.HashTable.Hashing.{hash_function_ulong}
use thread_scheduler_multipl.HashTable.Nodes.{empty_list, initialize_table}
use thread_scheduler_multipl.HashTable.Lookup.{initialize-HasChains, get-initialize}
use thread_scheduler_multipl.HashTable.Session.{created}
use thread_scheduler_multipl.HashTable.Holds.{initialize-TableHolds}
use thread_scheduler_multipl.Scheduler.Table.{ht_capacity}
use thread_scheduler_multipl.Scheduler
use thread_scheduler_multipl.Concrete.Values.{IsTidy, replicate-IsTidy}
use thread_scheduler_multipl.Scheduler.State.{so_max_num_events}
use thread_scheduler_multipl.Concrete.State.{Store, Cmd, compare_pthreads_attr}
use thread_scheduler_multipl.Concrete.Relates.{Related, address_of}
use thread_scheduler_multipl.Concrete

-- The global before any call: zeroed, with nothing allocated
abbrev zeroed_store : Store
zeroed_store = record (Concrete.initialized 0 0) {
  pthreads_data = record { lists = []; size = 0; capacity = 0; deep_copy_value = false };
  blocks = λ k. false;
}

-- `so_init`; `running_thread.data` is what `malloc` left there until the first thread runs.
unfoldable so_init : (time_quantum io : ℕ) → Cmd ℤ
so_init time_quantum io c =
    if ltb so_max_num_events io || time_quantum == 0 || not (c.time_quantum == 0)
    then some (minus_one, c)
    else some (
      pos 0,
      record c {
        time_quantum = time_quantum;
        io = io;
        pthreads_data = initialize_table ht_capacity false;
        ready_threads_pq = empty_list;
        pthreads_created = empty_list;
        waiting_threads = empty_list;
        blocks = λ k. true;
      },
    )

-- On the zeroed global `so_init` leaves the state from which programs start, if the quantum is not 0
-- and there are at most `so_max_num_events` devices, and otherwise returns -1 with nothing changed.
so_init-initialized :
    (time_quantum io : ℕ)
    → so_init time_quantum io zeroed_store ≡ (
        if ltb so_max_num_events io || time_quantum == 0
        then some (minus_one, zeroed_store)
        else some (pos 0, Concrete.initialized time_quantum io))
unfolding so_init
so_init-initialized time_quantum io = ground arith

empty-Holds : {A : Type 0} (h : Memory A) → Holds h empty_list []
empty-Holds h =
    ([], record { head = refl; tail = refl; size = refl; small = omega arith; chain = tt }, refl)

abbrev pub empty_table : HashTable ℕ ℕ
empty_table = initialize_hashtable ht_capacity false

no_address : (t : ℕ) → address_of empty_table t ≡ none
no_address t =
    get-initialize hash_function_ulong compare_pthreads_attr ht_capacity false t (omega arith)

replicate-[] :
    {A : Type 0} (n i : ℕ) (xs : List A) → get_elem? (replicate n []) i ≡ some xs → length xs ≤ 0
replicate-[] zero i xs e = absurd (cc)
replicate-[] {A} (suc n) zero xs e =
    let f : [] ≡ xs = ap (λ (o : Option (List A)). elim o [ none ↦ [] | some ys ↦ ys ]) e in
    rw (sym f) (omega arith)
replicate-[] (suc n) (suc i) xs e = replicate-[] n i xs e

short_empty :
    (i : ℕ) (xs : List (Entry ℕ ℕ)) → get_elem? empty_table.lists i ≡ some xs → length xs ≤ 0
unfolding initialize_hashtable
short_empty i xs e = replicate-[] ht_capacity i xs e

empty-IsTidy : IsTidy empty_table
unfolding initialize_hashtable
empty-IsTidy = replicate-IsTidy empty_table ht_capacity refl

-- The memory that `so_init` leaves stands for the state that it leaves.
pub initialized-Related :
    (time_quantum io : ℕ)
    → Related empty_table 2
        (Concrete.initialized time_quantum io)
        (Scheduler.initialized time_quantum io)
initialized-Related time_quantum io = record {
  ready = empty-Holds _;
  waiting = empty-Holds _;
  created = empty-Holds _;
  table = initialize-TableHolds _ ht_capacity false;
  chains = initialize-HasChains ht_capacity false (omega arith);
  session = created;
  tidy = empty-IsTidy;
  allocated = λ k. refl;
  short = short_empty;
  points = λ t. rw (no_address t) refl;
  apart = λ t j a e f. absurd (let g = rw (no_address t) at e in cc);
  bounded =
      λ p h. record { params = refl; entries = refl; ready = refl; waiting = refl; created = refl };
  running_thread = refl;
  time_quantum = refl;
  io = refl;
  started = refl;
  room = omega arith;
}
