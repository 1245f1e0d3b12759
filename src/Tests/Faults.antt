-- ===== src/Tests/Faults.antt =====
-- The rounds of the leak tests of src/basic.
use test_thread_safe_lru_cac.Base.{ℕ, ◌≡◌, none, some, arith, ◌+◌}
use test_thread_safe_lru_cac.Basic.Dll
use test_thread_safe_lru_cac.Stress.Leak.{
  memory_leak_test, move_front_memory_leak_test, memory_leak_test_lem,
}

abbrev next_address : ℕ → ℕ
next_address i = 100 + i

memory_leak_test_lem_example :
    (d d' : Dll.Dll ℕ ℕ) × ((memory_leak_test next_address 9999 ≡ some d)
      × ((b : ℕ) → d.cells b ≡ none))
    × ((move_front_memory_leak_test next_address 9999 ≡ some d') × ((b : ℕ) → d'.cells b ≡ none))
memory_leak_test_lem_example = memory_leak_test_lem next_address (λ i j e. omega arith) 9999
