-- ===== src/Concrete/Relates.antt =====
-- The states of memory that stand for a state of `Scheduler`.
use thread_scheduler_multipl.Base.{
  ℕ, ◌+◌, ◌≤◌, ◌<◌, ◌^◌, ◌≡◌, refl, Bool, true, false, Option, none, some, length, arith, get_elem?,
  List,
}
use thread_scheduler_multipl.LinkedList.Contents.{Holds}
use thread_scheduler_multipl.HashTable.{Entry, HashTable, get_value_hashtable}
use thread_scheduler_multipl.HashTable.Hashing.{hash_function_ulong}
use thread_scheduler_multipl.HashTable.Lookup.{HasChains}
use thread_scheduler_multipl.LinkedList.Nodes.{Memory}
use thread_scheduler_multipl.HashTable.Nodes.{NodeTable}
use thread_scheduler_multipl.HashTable.Session.{Used}
use thread_scheduler_multipl.Scheduler.Table.{ht_capacity}
use thread_scheduler_multipl.HashTable.Holds.{TableHolds}
use thread_scheduler_multipl.Scheduler.State.{PthreadParam, Scheduler}
use thread_scheduler_multipl.Concrete.Values.{IsTidy}
use thread_scheduler_multipl.Concrete.State.{Store, compare_pthreads_attr, is_some, used}

-- The documented behaviour of `malloc` that the scheduler relies on: it returns an address that is
-- neither NULL nor in use. The addresses in use are below `limit`, so there is always one.
pub record IsMalloc (malloc : (ℕ → Bool) → ℕ → ℕ) : Type 0 where
  pub fresh :
      (used : ℕ → Bool) (limit : ℕ)
      → ((p : ℕ) → limit ≤ p → used p ≡ false)
      → (0 < malloc used limit) × (used (malloc used limit) ≡ false)

-- Nothing is at the address.
pub record IsFree (c : Store) (p : ℕ) : Type 0 where
  pub params : c.params p ≡ none
  pub entries : c.entry_nodes p ≡ none
  pub ready : c.ready_nodes p ≡ none
  pub waiting : c.waiting_nodes p ≡ none
  pub created : c.created_nodes p ≡ none

IsFree-used : (c : Store) (p : ℕ) → IsFree c p → used c p ≡ false
IsFree-used c p f = rw (f.params, f.entries, f.ready, f.waiting, f.created) refl

none_cases : {A : Type 0} (o : Option A) → is_some o ≡ false → o ≡ none
none_cases none e = refl
none_cases (some a) e = absurd (cc)

used-IsFree : (c : Store) (p : ℕ) → used c p ≡ false → IsFree c p
used-IsFree c p e = record {
  params = none_cases (c.params p) (ground (arith, e));
  entries = none_cases (c.entry_nodes p) (ground (arith, e));
  ready = none_cases (c.ready_nodes p) (ground (arith, e));
  waiting = none_cases (c.waiting_nodes p) (ground (arith, e));
  created = none_cases (c.created_nodes p) (ground (arith, e));
}

-- The address that the table has for a thread
abbrev pub address_of : HashTable ℕ ℕ → ℕ → Option ℕ
address_of ht t = get_value_hashtable hash_function_ulong compare_pthreads_attr t ht

-- What is at that address
abbrev pub Points : (ℕ → Option PthreadParam) → Option ℕ → Option PthreadParam → Type 0
Points params none e = e ≡ none
Points params (some a) e = (p : PthreadParam) × (0 < a) × (params a ≡ some p) × (e ≡ some p)

-- A thread without data has no entry.
pub absent_address :
    (params : ℕ → Option PthreadParam) (o : Option ℕ) → Points params o none → o ≡ none
absent_address params none p = refl
absent_address params (some a) (p, pos, at, f) = absurd (cc)

-- The queue and the waiting list can take `n` more nodes before a size wraps around.
abbrev pub HasRoom : ℕ → Scheduler → Type 0
HasRoom n s = length s.ready_threads_pq + length s.waiting_threads + n < 2 ^ 32

-- The table and its entries come from `initialize_hashtable` by puts.
abbrev pub TableSession : NodeTable → Memory (Entry ℕ ℕ) → Type 0
TableSession nt h =
    Used hash_function_ulong compare_pthreads_attr ht_capacity false (λ p. none) nt h

-- The handles lead through nodes that hold what the state's lists hold, the table's chains through
-- the entries of `ht`, each entry to a struct of its own that holds what the state has for the
-- thread, and nothing is in use from `limit` on.
pub record Related (ht : HashTable ℕ ℕ) (n : ℕ) (c : Store) (s : Scheduler) : Type 0 where
  pub ready : Holds c.ready_nodes c.ready_threads_pq s.ready_threads_pq
  pub waiting : Holds c.waiting_nodes c.waiting_threads s.waiting_threads
  pub created : Holds c.created_nodes c.pthreads_created s.pthreads_created
  pub table : TableHolds c.entry_nodes c.pthreads_data ht
  pub chains : HasChains ht
  pub tidy : IsTidy ht
  pub allocated : (k : ℕ) → c.blocks k ≡ true
  pub session : TableSession c.pthreads_data c.entry_nodes
  pub short :
      (i : ℕ) (xs : List (Entry ℕ ℕ))
      → get_elem? ht.lists i ≡ some xs
      → length xs ≤ length s.pthreads_created
  pub points : (t : ℕ) → Points c.params (address_of ht t) (s.pthreads_data t)
  pub apart : (t j a : ℕ) → address_of ht t ≡ some a → address_of ht j ≡ some a → t ≡ j
  pub bounded : (p : ℕ) → c.limit ≤ p → IsFree c p
  pub running_thread : c.running_thread ≡ s.running_thread
  pub time_quantum : c.time_quantum ≡ s.time_quantum
  pub io : c.io ≡ s.io
  pub started : c.is_a_thread_running ≡ s.is_a_thread_running
  pub room : HasRoom n s

module _ (malloc : (ℕ → Bool) → ℕ → ℕ) (is_malloc : IsMalloc malloc) (c : Store)
    (bounded : (p : ℕ) → c.limit ≤ p → IsFree c p) where
  pub malloc-IsFree : (0 < malloc (used c) c.limit) × IsFree c (malloc (used c) c.limit)
  malloc-IsFree =
      let (pos, e) = is_malloc.fresh (used c) c.limit (λ p h. IsFree-used c p (bounded p h)) in
      (pos, used-IsFree c (malloc (used c) c.limit) e)
