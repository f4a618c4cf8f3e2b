-- ===== src/Lib.antt =====
-- mod-cpp: models of the C++ components of the repository, and what holds of them.
--
-- The repository is a collection of components that do not call each other: each file has a class
-- template or two and a `..._routine` that exercises it, and `main.cc` calls one of the routines. So
-- each modelled file has a module here, with its own state:
--
--   MemoryAllocator   memory_allocator.cc   free regions with `allocate` and `release`
--   ObjectPool        object-pool.cc        raw chunks with an intrusive free list
--   FreeListPool      opool.cc              arrays of objects with a list of the freed ones
--   H2o               h2o.cc                threads that print hydrogen and oxygen
--   HashTable         hash_table.cc         chained hash table
--   StringClass       string.cc             an owning string
--   SharedPointer     shared_ptr.cc         `shared_pointer` and `weak_pointer`
--   Cow               cow.cc                copy on write
--   MinHeap           heap.cc               binary heap in an array
--   LinkedList        linked_list.cc        ring of nodes
--   SmallVec          vec.cc                small vector, first on the stack and then on the heap
--   Operators         operator.cc           overloaded operators
--   Iterator          iterator.cc           array iterators and a quicksort
--   Tcp               tcp.cc                sender and receiver with sliding windows
--   BoundedQueue      bounded_queue.cc      queue under a mutex with two condition variables
--   LocklessQueue     lockless_queue.cc     ring with atomic indices
--   LocklessStack     lockless_stack.cc     list of nodes with an atomic head
--   Keyword           keyword.cc            the sieve `filter_primes`
--   RuleOfFive        ro5.cc                classes that own memory and a socket
--   Coro              coro.cc               a coroutine that counts
--   Exceptions        exception.cc          what is thrown and which handler runs
--   ObjectOrientation oo.cc                 classes with what their special members print
--
-- The module of a file has the state as a record with the names of the members, and one function for
-- each method, with the method's name (constructors are `new`, `construct`, `copy_construct` and so on,
-- destructors `destroy`). Its child modules have the invariants and the proofs, and its `Tests` has the
-- routine and concrete instances. `Common` has what they share. `Common.Outcome` is the result of code
-- that can fail: a value, an exception with its text, an assertion that fails, or undefined behaviour
-- (a read out of range, an access through a null or a deleted pointer).
--
-- Objects and pointers. Where a file is about ownership (SharedPointer, Cow, LinkedList, ObjectPool,
-- FreeListPool, MemoryAllocator, LocklessStack, RuleOfFive) there is a store: objects have numbers, a
-- pointer is a number or `none` for null, and the store says what exists. Functions take the store and
-- return the new one, so that aliasing is visible. `Common.RefCount` counts how many
-- pointers of a store point to a cell.
--
-- Threads. H2o, BoundedQueue, LocklessQueue, LocklessStack and Tcp have a step relation, and `Reach` for
-- the states that a run comes to. Under a mutex a step is what a thread does from taking the mutex to
-- releasing it or to sleeping; in the lockless files it is one access to shared memory, the atomics being
-- sequentially consistent; in Tcp it is an access to a field that no lock protects, taken as sequentially
-- consistent too, or what is done under the lock of a queue, and one thread calls `tcp_send`. Threads take
-- steps in any order, and a sleeping thread may wake without a reason.
--
-- Numbers. Sizes, indices and addresses are natural numbers; where the code subtracts size_t values the
-- wrap at 2 ^ 64 is written out (`take_from` in MemoryAllocator, `add_64` and `sub_64` in Tcp, where
-- `int_ge` and `through_int` are conversions to int). An `int` that is an index is a ℤ where
-- it may be negative. The ints of Operators are unbounded ℤ: the code adds and multiplies without care
-- for overflow. The items of MinHeap are only compared, so an int is its distance from the least one.
--
-- Fuel. In MinHeap, Tcp and Iterator a loop that runs out of fuel counts as undefined behaviour, so that
-- a theorem on what the code returns says that it ends. `down` in MinHeap has `last + 1` steps: each call goes to a greater index and
-- stops behind `last`. `up` has as many steps as the index it starts at, since each call goes to a smaller
-- one. `deliver` in Tcp has a step more than the window has places: a place is taken at most once. In Iterator
-- `partition` has two steps more than the array has elements, since a round moves both ends, and
-- `ministl_sort` a step more than the last index, since each part it sorts is shorter. `clear_loop`
-- in Keyword has `N` steps, since `j` grows by at least one in each. The other loops
-- recurse on the list, the string or the count that they run over.
--
-- Parameters. What the standard library and the host provide is an argument: the addresses that `new`
-- returns, which may also be none (MemoryAllocator, ObjectPool), the hash function and the equality of
-- keys (HashTable), what a new array holds (SmallVec), the sizes of the windows (Tcp), the capacities and the
-- numbers of threads (H2o and the queues), whether a weak exchange fails (LocklessStack) and the
-- descriptor that `socket` returns (RuleOfFive). `std::set`, `std::map` and `std::list` are lists in order
-- or functions from keys.
--
-- Not modelled: printing and tracing; the bytes inside allocated memory and the objects placed there;
-- `MemoryNode` moves and destructors, where the standard containers call them; exceptions thrown by
-- constructors of items; the assignments of ro5.cc, which do not compile where they are used. In the other
-- files there is no state of their own: they show language features and print (templates, lambdas,
-- overloads), call the standard library (threads, futures, random numbers), or switch stacks
-- in assembly (coroutine.cc).
pub mod Common
pub mod MemoryAllocator
pub mod ObjectPool
pub mod H2o
pub mod HashTable
pub mod SharedPointer
pub mod Cow
pub mod MinHeap
pub mod LinkedList
pub mod SmallVec
pub mod FreeListPool
pub mod StringClass
pub mod Operators
pub mod Tcp
pub mod Iterator
pub mod BoundedQueue
pub mod LocklessQueue
pub mod LocklessStack
pub mod Keyword
pub mod RuleOfFive
pub mod Coro
pub mod Exceptions
pub mod ObjectOrientation
