-- ===== src/Sharded.antt =====
-- The sharded cache: src/sharded.
pub mod Cache
pub mod Eviction
pub mod Fifo
pub mod Lru
pub mod Slots
