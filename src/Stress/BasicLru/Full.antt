-- ===== src/Stress/BasicLru/Full.antt =====
-- The cache of examples/basic_lru.rs is full from the barrier on.
use test_thread_safe_lru_cac.Assoc
