-- ===== src/Basic.antt =====
-- The cache over a doubly linked list of boxes: src/basic.
pub mod Dll
pub mod Lru
pub mod Safe
