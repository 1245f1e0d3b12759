-- ===== src/Tests/StressRuns.antt =====
-- Schedules of the tests of src/basic/safe.rs and src/sharded/cache.rs.
use test_thread_safe_lru_cac.Base.{
  ℕ, ◌+◌, ◌≤◌, ◌≡◌, refl, some, List, [], ◌∷◌, ◌*◌, ◌%◌, ℕ_discrete,
}
use test_thread_safe_lru_cac.Tests.Allocator.{next_box, next_box_vacant}
use test_thread_safe_lru_cac.Basic.Safe.{ThreadSafeLru, len}
use test_thread_safe_lru_cac.Stress.Threads.{Interleaves, joined, next, spawned}
use test_thread_safe_lru_cac.Stress.Mutex.{
  Call, call_push, call_get, hot_loop, stress_thread, single_loop, hot_keys_test, stress_test,
}
use test_thread_safe_lru_cac.Sharded.Cache.Runs
use test_thread_safe_lru_cac.Stress.Shards.{keys_from, push_loop, push_and_get}
use test_thread_safe_lru_cac.Stress.Shards.Suite.{LruEnds, FifoEnds, sharded_tests_lem}
use test_thread_safe_lru_cac.Stress.Mutex.Ends.{stress_tests_lem}

abbrev same : ℕ → ℕ
same k = k

-- Two threads of two rounds, in turn.
abbrev hot : List (Call ℕ)
hot = call_push 1 1 ∷ call_push 1 1 ∷ call_get 1 ∷ call_get 1 ∷ call_push 2 2 ∷ call_push 2 2 ∷ []

hot_order : Interleaves (spawned (λ t. hot_loop same 2 0) 2 0) hot
hot_order =
    next 0 refl (next 1 refl (next 0 refl (next 1 refl (next 0 refl (next 1 refl (joined tt))))))

-- The first thread starts late.
abbrev stress : List (Call ℕ)
stress =
    call_push 2 2
    ∷ call_push 0 0
    ∷ call_get 0
    ∷ call_push 1 1
    ∷ call_get 2
    ∷ call_push 3 3
    ∷ call_get 1
    ∷ call_get 3
    ∷ []

stress_order : Interleaves (spawned (stress_thread same 2) 2 0) stress
stress_order = next 1 refl (
    next 0 refl (
      next 0 refl
        (next 0 refl (next 1 refl (next 1 refl (next 0 refl (next 1 refl (joined tt))))))))

stress_tests_lem_example :
    ((n : ℕ) × (hot_keys_test next_box hot ≡ some n) × (n ≤ 5))
    × ((c : ThreadSafeLru ℕ ℕ) × (n : ℕ) × (stress_test next_box 1000 stress ≡ some c)
        × ((len c).1 ≡ some n)
        × (n ≤ 1000)
        × (n ≤ 2 * 2))
    × ((c : ThreadSafeLru ℕ ℕ) × (n : ℕ) × (stress_test next_box 1000 (single_loop same 2 2 0)
          ≡ some c)
        × ((len c).1 ≡ some n)
        × (n ≤ 1000)
        × (n ≤ 2 * 2 + 1))
stress_tests_lem_example =
    stress_tests_lem next_box same next_box_vacant 2 2 hot stress hot_order stress_order

-- Two threads that push and read two keys.
abbrev pushes : List (Runs.Call ℕ ℕ)
pushes = Runs.call_push 0 0 ∷ Runs.call_push 0 0 ∷ Runs.call_push 1 1 ∷ Runs.call_push 1 1 ∷ []

pushes_order : Interleaves (spawned (λ t. push_loop same (keys_from 0 2)) 2 0) pushes
pushes_order = next 0 refl (next 1 refl (next 1 refl (next 0 refl (joined tt))))

abbrev calls : List (Runs.Call ℕ ℕ)
calls =
    Runs.call_push 0 0
    ∷ Runs.call_push 1 1
    ∷ Runs.call_get 0
    ∷ Runs.call_push 0 0
    ∷ Runs.call_get 1
    ∷ Runs.call_push 1 1
    ∷ Runs.call_get 0
    ∷ Runs.call_get 1
    ∷ []

calls_order : Interleaves (spawned (λ t. push_and_get same (keys_from 0 2)) 2 0) calls
calls_order = next 0 refl (
    next 0 refl (
      next 0 refl
        (next 1 refl (next 0 refl (next 1 refl (next 1 refl (next 1 refl (joined tt))))))))

abbrev hash_one : ℕ → ℕ
hash_one k = k * 7 % 64

abbrev texts : List ℕ
texts = 70 ∷ 71 ∷ 70 ∷ []

sharded_tests_lem_example :
    LruEnds hash_one ℕ_discrete same 2 texts (71 ∷ []) pushes
    × FifoEnds hash_one ℕ_discrete same 2 texts (71 ∷ []) pushes calls
sharded_tests_lem_example =
    sharded_tests_lem hash_one ℕ_discrete same 2 texts (71 ∷ []) 2 pushes calls pushes_order
      calls_order

-- A cache of two entries, and two threads of two rounds each.
abbrev val : ℕ → ℕ → ℕ
val t key = t * 100 + key

abbrev rounds : List (Call ℕ)
rounds =
    call_push 2 102
    ∷ call_push 0 0
    ∷ call_get 2
    ∷ call_get 0
    ∷ call_push 1 1
    ∷ call_push 3 103
    ∷ call_get 1
    ∷ call_get 3
    ∷ []
