-- ===== src/Concrete/State.antt =====
-- The global state of _test/so_scheduler.c (the same text as in Linux/), with its lists, its queue
-- and its table in memory, and the reads and writes that its functions are made of.
use thread_scheduler_multipl.Base.{
  ℕ, suc, ◌+◌, Bool, true, false, ◌||◌, Option, none, some, ◌==◌, ltb, if◌then◌else◌,
}
use thread_scheduler_multipl.LinkedList.Nodes.{Memory, load}
use thread_scheduler_multipl.LinkedList.Pointers.{ListHandle, add_last}
use thread_scheduler_multipl.PriorityQueue.{PqData}
use thread_scheduler_multipl.PriorityQueue.Nodes.{push_node, pop_top}
use thread_scheduler_multipl.HashTable.{Entry}
use thread_scheduler_multipl.HashTable.Hashing.{hash_function_ulong}
use thread_scheduler_multipl.HashTable.Nodes.{NodeTable, stored, clobbered, get_value, put_table}
use thread_scheduler_multipl.Scheduler.State.{PthreadParam, WaitingPthread, update}

-- "0" on a match; the value of an entry is the address of a `pthread_param_t`.
unfoldable pub compare_pthreads_attr : Entry ℕ ℕ → ℕ → ℕ
compare_pthreads_attr a b = if a.key == b then 0 else 1

-- `so_scheduler_t`, and the memory that it points to: the `pthread_param_t` structs, and the nodes
-- of the lists by what they hold. No address from `limit` on is in use.
pub record Store : Type 0 where
  pub params : ℕ → Option PthreadParam
  pub entry_nodes : Memory (Entry ℕ ℕ)
  pub ready_nodes : Memory PqData
  pub waiting_nodes : Memory WaitingPthread
  pub created_nodes : Memory ℕ
  pub limit : ℕ
  pub blocks : ℕ → Bool
  pub pthreads_data : NodeTable
  pub running_thread : PqData
  pub ready_threads_pq : ListHandle
  pub waiting_threads : ListHandle
  pub pthreads_created : ListHandle
  pub time_quantum : ℕ
  pub io : ℕ
  pub is_a_thread_running : Bool

-- The other memory that `so_init` allocates: the structs of the three lists, the table's array and
-- struct, and `running_thread.data`. `blocks` tells which of them are in use.
abbrev pub created_block : ℕ
created_block = 0

abbrev pub ready_block : ℕ
ready_block = 1

abbrev pub waiting_block : ℕ
waiting_block = 2

abbrev pub array_block : ℕ
array_block = 3

abbrev pub table_block : ℕ
table_block = 4

abbrev pub data_block : ℕ
data_block = 5

-- `none` is a fault: a dereference of NULL or of memory that has been released, or a second release.
abbrev pub Cmd : Type 0 → Type 0
Cmd A = Store → Option (A × Store)

abbrev pub pure : {A : Type 0} → A → Cmd A
pure a c = some (a, c)

infixl 5 ◌>>=◌ ◌>>◌
abbrev pub ◌>>=◌ : {A B : Type 0} → Cmd A → (A → Cmd B) → Cmd B
◌>>=◌ m f c = elim (m c) [ none ↦ none | some (a, c') ↦ f a c' ]

abbrev pub ◌>>◌ : {B : Type 0} → Cmd (Unit {0}) → Cmd B → Cmd B
m >> k = m >>= λ _. k

abbrev pub asks : {A : Type 0} → (Store → A) → Cmd A
asks f c = some (f c, c)

abbrev pub is_some {ℓ} : {A : Type ℓ} → Option A → Bool
is_some none = false
is_some (some a) = true

abbrev pub used : Store → ℕ → Bool
used c p =
    is_some (c.params p)
    || is_some (c.entry_nodes p)
    || is_some (c.ready_nodes p)
    || is_some (c.waiting_nodes p)
    || is_some (c.created_nodes p)

-- The end of the memory in use once address `a` is.
abbrev pub grown : ℕ → ℕ → ℕ
grown limit a = if ltb a limit then limit else suc a

-- A read through a pointer to a `pthread_param_t`
unfoldable pub load_param : ℕ → Cmd PthreadParam
load_param a c = if a == 0 then none else elim (c.params a) [ none ↦ none | some p ↦ some (p, c) ]

abbrev pub with_param : Store → ℕ → PthreadParam → Store
with_param c a p = record c { params = update c.params a (some p) }

-- A write through it
unfoldable pub write_param : ℕ → (PthreadParam → PthreadParam) → Cmd (Unit {0})
write_param a f c = elim (load_param a c) [
  | none ↦ none
  | some (p, c') ↦ some (tt, with_param c' a (f p))
]

abbrev pub set_time_quantum : ℕ → ℕ → Cmd (Unit {0})
set_time_quantum a q = write_param a (λ p. record p { time_quantum = q })

abbrev pub sem_post : ℕ → Cmd (Unit {0})
sem_post a = write_param a (λ p. record p { semaphore = p.semaphore + 1 })

-- The address that `get_value_hashtable` returns; 0 is NULL.
abbrev pub address : Option ℕ → ℕ
address none = 0
address (some a) = a

unfoldable pub find_param : ℕ → Cmd ℕ
find_param t c =
    elim (get_value hash_function_ulong compare_pthreads_attr t c.pthreads_data c.entry_nodes) [
      | none ↦ none
      | some (v, h) ↦ some (address v, record c { entry_nodes = h })
    ]

unfoldable pub pop_ready : Cmd (Unit {0})
pop_ready c = elim (pop_top c.ready_threads_pq c.ready_nodes) [
  | none ↦ none
  | some (l, h) ↦ some (tt, record c { ready_threads_pq = l; ready_nodes = h })
]

-- `peak_pq`: the address of the data in the head node; 0 is NULL.
unfoldable pub peak_ready : Cmd ℕ
peak_ready c =
    if c.ready_threads_pq.size == 0
    then some (0, c)
    else elim (load c.ready_threads_pq.head c.ready_nodes) [
      | none ↦ none
      | some (n, h) ↦ some (c.ready_threads_pq.head, record c { ready_nodes = h })
    ]

-- A read through the pointer that `peak_pq` returns
unfoldable pub load_ready : ℕ → Cmd PqData
load_ready max c = elim (load max c.ready_nodes) [
  | none ↦ none
  | some (n, h) ↦ some (n.content, record c { ready_nodes = h })
]

-- `malloc used limit` is the address that `malloc` returns while the addresses `used` are in use,
-- all of them below `limit`; `garbage` is what a new node's `next` holds.
module _ (malloc : (ℕ → Bool) → ℕ → ℕ) (garbage : ℕ) where
  abbrev pub fresh_address : Store → ℕ
  fresh_address c = malloc (used c) c.limit

  unfoldable pub push_ready : ℕ → ℕ → Cmd (Unit {0})
  push_ready t priority c =
      elim (push_node (fresh_address c) garbage c.ready_threads_pq t priority c.ready_nodes) [
        | none ↦ none
        | some (l, h) ↦ some (
          tt,
          record c {
            ready_threads_pq = l;
            ready_nodes = h;
            limit = grown c.limit (fresh_address c);
          },
        )
      ]

  unfoldable pub add_created : ℕ → Cmd (Unit {0})
  add_created t c = elim (add_last (fresh_address c) c.pthreads_created t c.created_nodes) [
    | none ↦ none
    | some (l, h) ↦ some (
      tt,
      record c { pthreads_created = l; created_nodes = h; limit = grown c.limit (fresh_address c) },
    )
  ]

  unfoldable pub add_waiting : WaitingPthread → Cmd (Unit {0})
  add_waiting w c = elim (add_last (fresh_address c) c.waiting_threads w c.waiting_nodes) [
    | none ↦ none
    | some (l, h) ↦ some (
      tt,
      record c { waiting_threads = l; waiting_nodes = h; limit = grown c.limit (fresh_address c) },
    )
  ]

  -- `malloc` of a `pthread_param_t`, and the writes of its fields
  unfoldable pub new_param : PthreadParam → Cmd ℕ
  new_param p c = some (
    fresh_address c,
    record c {
      params = update c.params (fresh_address c) (some p);
      limit = grown c.limit (fresh_address c);
    },
  )

  -- `put_hashtable`; for a key that has an entry it writes into the struct that the entry points to
  -- as if that were an `Entry`, which is undefined; Concrete/Ids.antt has the call that does so.
  unfoldable pub put_value : (t a : ℕ) → Cmd (Unit {0})
  put_value t a c =
      elim (put_table hash_function_ulong compare_pthreads_attr (fresh_address c) t a
        c.pthreads_data c.entry_nodes) [
          | none ↦ none
          | some (clobbered deep old nt, h) ↦ none
          | some (stored nt, h) ↦ some (
            tt,
            record c {
              pthreads_data = nt;
              entry_nodes = h;
              limit = grown c.limit (fresh_address c);
            },
          )
        ]
