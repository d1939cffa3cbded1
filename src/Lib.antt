-- ===== src/Lib.antt =====
-- Verification of the thread scheduler of this repository (Linux/ and Windows/).
--
-- The program. A process calls `so_init` and forks a first thread; from then on one thread at a time
-- runs, and threads hand the processor to one another in `so_fork`, `so_exec`, `so_wait`, `so_signal`
-- and at the end of `start_thread`. Each thread has a semaphore in its `pthread_param_t`: a hand-over
-- posts the semaphore of the next thread and waits on the own one. `so_end` waits in `main` for every
-- thread that was created. The lists, the queue and the hash table have the same text for both
-- systems, but for one declaration.
--
-- Parts, and the files that model them:
--   Base            numbers, lists, C's `int` and `unsigned int`
--   LinkedList      Linux/linkedlist.c, on the sequence of a list's elements; below it, on nodes,
--                   Windows/linkedlist.c and the searches of Linux/: Nodes has the memory, Pointers
--                   the functions, Chain the cells that a list's pointers lead through, Add, PopLoop,
--                   Pop, Remove and Search the functions of these names, Contents the two readings
--                   together, Released a node that is taken out and released, Keeps which addresses a
--                   function may take into use
--   PriorityQueue   Linux/priority_queue.c; Order has order and contents, Fifo the place of a push, Bag
--                   the queue up to order; Nodes is Windows/priority_queue.c on nodes, Insert has its
--                   loop, PushNodes and TopNodes relate it to the sequence, KeepsNodes has the
--                   addresses that it takes
--   HashTable       Linux/hashtable.c; Lookup has what a table maps, Removal the removal of a
--                   key, Hashing the hash functions; Nodes is Windows/hashtable.c with an array of
--                   lists of nodes, Holds, Reads and Refines relate it to the chains as sequences,
--                   Release is `free_hashtable`, Change, Removed, Owned and Steps follow the cells that
--                   a table owns, Session has the tables in use, KeepsNodes the addresses that a put takes
--   Scheduler       Linux/so_scheduler.c: State has the structs and the reads and writes, Scheduler
--                   the functions, Wake the loop of `so_signal`, Lifecycle `so_init` and `so_end`,
--                   Table the use of the hash table
--   Machine         the threads: Machine has the positions and the steps, Invariant what holds between
--                   steps, Handover and the files named for calls that it is kept, Start that it
--                   holds of every state that is reached, Safety the consequences; Leaves, Created and
--                   Grows follow the list of created threads, Join is the loop of `so_end` among the
--                   steps, Preemption and Quantum have what `so_fork` and `so_exec` do to the thread that
--                   calls them, Room how many threads the lists can hold, Ids the programs with the joins of
--                   `so_end` and the ids that `pthread_create` gives
--   Windows         Windows/so_scheduler.c: State has the structs and the reads and writes, Windows
--                   the functions, Machine the threads; Follows, Writes, Handover and Calls relate each
--                   piece to the one of Linux, Safety has what follows for programs on Windows, Join
--                   the loop of `so_end`
--   Concrete        _test/so_scheduler.c, the same text as in Linux/, on the memory that it works on: State
--                   has the struct with what it points to and the reads and writes, Concrete the
--                   functions, Machine the threads. Relates says which states of Scheduler a memory
--                   stands for, Sim has a rule for each way to build a command, Params, Queues,
--                   Additions, Listing, Chains, Values, Entries and Creation the reads and writes,
--                   Handover, Waking, Calls, Runs and Forks the functions, Start what `so_init`
--                   leaves, Follows and Steps the threads, Safety what follows for programs in
--                   memory, Release and End `so_end` with its releases, Ids the programs with the joins and
--                   the ids
--   Examples        the theorems at concrete inputs
--
-- State and operations. `Scheduler` is `so_scheduler_t` once `so_init` has run, and `zeroed` the
-- struct before that and after `so_end`. A function of so_scheduler.c is a command on the state that
-- runs up to its `sem_wait`, where the thread parks; `none` is a crash (a NULL dereference), or a
-- put of a key that has an entry, which is undefined (below). `fork`,
-- `exec`, `wait` and `signal` are `so_fork`, `so_exec`, `so_wait` and `so_signal` on an initialized
-- scheduler. `pthreads_data` is read as the map that its hash table stands for; Scheduler/Table.antt
-- relates the two. A handler may be any code: the active thread may make any call at any time.
--
-- On Windows a command ends with a value, with `exits` (`perror` and `exit(1)`) or with `crash`.
-- `release_semaphore` exits if the count would exceed `maximum_count`, the maximum that `so_fork` gives
-- `CreateSemaphore`. The list of created threads holds handles; `thread_of` is the id of the thread
-- that a handle stands for, and `CreateThread` gives a handle that stands for the new id.
--
-- Assumptions. `main` forks once and then only waits in `so_end`. `pthread_create` and `CreateThread`
-- give ids that are not 0 and that no thread has that is not joined. On Windows the handles stay open, so
-- no id comes back. With pthreads the id of a thread that `so_end` has joined may be given again:
-- `put_hashtable` then writes into the old struct as if it were an `Entry`, which is undefined. A Run
-- (Machine/Ids.antt, Concrete/Ids.antt) has the joins and that call, after which any state may follow;
-- the theorems on runs say that no id has been given twice. Reach (Machine, Concrete/Machine.antt) has
-- the steps without it. But for `ReleaseSemaphore`, the calls of malloc, of the
-- semaphores and of the threads library succeed. A step of a thread is what it does between two of its
-- semaphore operations.
--
-- Loops. The loop of `so_signal` takes fuel, the number of waiting threads plus one, as each round
-- takes a thread out of the list. The loops over nodes take the size of the list as fuel, and one
-- more where they read the NULL at its end. The other loops are recursions on a list, and
-- the one of `free_hashtable` on the capacity.
--
-- A node's address is a number, NULL is 0, and a read of a free address is a fault (`none`). A node
-- holds its data, as `data` points to a copy that the list owns. `garbage` is what the `next` of a new
-- node holds before it is written.
--
-- In Concrete the lists, the queue and the table are those of LinkedList, PriorityQueue and HashTable on
-- nodes, the table's values are addresses of `pthread_param_t` structs, and a thread parks on the
-- semaphore of the struct at an address. `none` is a read or a write through NULL or through a pointer
-- to memory that is not in use, a release of such memory, or fuel that has run out. `malloc` is a
-- parameter: it is given the addresses in use and a bound above them, and returns one that is not NULL
-- and not in use (IsMalloc in Concrete/Relates.antt). A node and its data are one piece of memory. The
-- size of a list is an `unsigned int`: a call is made while fewer than 2^32 - 2 threads have been
-- created, so no size wraps around.
--
-- The counter of woken threads in `so_signal` is an `int`; it has no bound here, as there are never
-- 2^31 waiting threads.
--
-- Not modelled: printing, the wrappers of `strcmp`, the guards against NULL arguments, and the programs
-- in _test, whose calls are among those that a handler may make. The lists, the queue and the hash
-- table in _test are those of Linux/. LinkedList and HashTable leave out the release of a list's struct and
-- of a table's array, which changes no node; Concrete/End.antt has them, but for the structs of the
-- table's own lists.
mod Base
pub mod LinkedList
pub mod PriorityQueue
pub mod HashTable
pub mod Scheduler
pub mod Machine
pub mod Windows
pub mod Concrete
mod Examples
