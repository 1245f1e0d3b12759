-- ===== src/Lib.antt =====
-- The thread-safe caches of this repository: an LRU cache over a doubly linked list of boxes, the
-- same cache behind a mutex, and a sharded cache over an eviction policy, LRU or FIFO, whose shards
-- keep their nodes in a vector.
--
-- How the parts interact. `ThreadSafeLru` (src/basic/safe.rs) takes its mutex and calls `Lru`
-- (src/basic/lru.rs), which keeps a map from pointers to keys to list nodes beside a `Dll`
-- (src/basic/dll.rs). `Cache` (src/sharded/cache.rs) hashes a key, picks a shard and calls a method
-- of the `Eviction` trait (src/sharded/eviction/mod.rs), which `Lru` and `Fifo`
-- (src/sharded/eviction/lru.rs and fifo.rs) implement.
--
-- Which file models which part:
--   Basic/Dll      src/basic/dll.rs. A pointer is an address in ℕ, `cells` holds the live boxes, and
--                  the use of a pointer to no live box is a fault. The allocator is an argument: the
--                  address of the new box, of which the theorems ask that no live box has it.
--   Basic/Lru      src/basic/lru.rs. `KeyRef` is the address of the box with the key; every
--                  comparison in the map reads through it, so a dangling one would be a fault.
--   Basic/Safe     src/basic/safe.rs. A mutex with its poison flag; a call is one critical section.
--                  Basic/Safe/Recency tells the eviction order from what the callers see.
--   Sharded/Slots  the state of both policies: the nodes, the map, the stack of free slots, head and
--                  tail; its invariant and the lemmas on writes.
--   Sharded/Lru    src/sharded/eviction/lru.rs, with the buffer of slots whose promotion is held
--                  back. `get` is `get_read` under the read lock and `get_finish` after it.
--                  Sharded/Lru/Concurrent has the interleavings of whole critical sections,
--                  Sharded/Lru/Buffer the buffer under them, and Sharded/Lru/Threads the threads one
--                  lock operation at a time, with Sharded/Lru/Threads/Recency the eviction
--                  order that their callers see.
--   Sharded/Fifo   src/sharded/eviction/fifo.rs.
--   Sharded/Eviction  src/sharded/eviction/mod.rs: the trait as a record of operations, and a record
--                  of laws that both policies fill and the cache relies on.
--   Sharded/Cache  src/sharded/cache.rs, over any policy with those laws; Sharded/Cache/Threads has
--                  threads on a cache of LRU shards, one lock operation at a time, and the two
--                  modules Fresh what reads return, against the writes alone. Fresh/Roomy is the
--                  case of so few pushes that nothing is evicted.
--   Report         examples/report.rs: the load of the report generator on the mutex cache and on the
--                  sharded FIFO cache, with the counters of its hit rate. The rounds of the threads come in any order, each as
--                  one step. Report/Html has its tables and charts, Report/Clock its clock.
--   Stress         tests of the sources with many rounds, for any number of rounds. Stress/BasicLru is
--                  the load of examples/basic_lru.rs, and Stress/ShardedExample is
--                  examples/sharded.rs.
-- Chain has lists of addresses without repetition, Store a store of nodes that are linked as such a
-- list says, Assoc association lists, which stand for the hash maps, and Spec what an LRU and a FIFO
-- cache do to a list of entries. Base has the shared names. Tests has runs on concrete inputs, and
-- the unit tests of the source in Tests/Suite and Tests/SuiteBasic.
--
-- A function that can panic returns `none` when it does. `usize` is ℕ, since each size is a number
-- of entries in memory; the one sum that can wrap around, `capacity / shards + 1`, has its 64 bits,
-- and so have the counters of the report. A subtraction below zero is a panic. A fault is `none` too:
-- no theorem tells the use of a dead box from a failed assertion, only success from both. The locks
-- are those of parking_lot: a read guard is given out only while nobody writes, a write guard only
-- while nobody holds a guard. A waiting writer may hold a reader back; the executions are those with
-- and without that, and the theorems on progress use no read lock while another thread wants to write.
--
-- Fuel: only the loop of `Drop` for the list has fuel, the number of its rounds; the size of the list
-- is enough. The other loops are recursions on the lists that they walk, or on their numbers of
-- rounds.
--
-- Not modelled: the hasher (a function of the key, an argument), the cloning of values and `Arc`
-- (a clone is the value), the fairness of the locks, weak memory, the bounds on types and the `Send`
-- and `Sync` implementations, `EvictionPolicy` and `lru_async`, which nothing uses, and the
-- benchmarks, the scripts, the runs of the report on the sharded LRU cache, and the times, printing
-- and markup of the examples; the floating-point numbers of the report are a parameter. The hash map
-- compares a sought key with all keys up to the one found, where the real one compares a few.
pub mod Assoc
pub mod Base
pub mod Basic
pub mod Chain
pub mod Report
pub mod Spec
pub mod Sharded
pub mod Store
pub mod Stress
pub mod Tests
