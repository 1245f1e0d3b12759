-- ===== src/Stress.antt =====
-- The stress tests of the sources, for any number of rounds and any schedule.
pub mod Leak
pub mod Threads
pub mod Mutex
pub mod Shards
pub mod BasicLru
pub mod ShardedExample
