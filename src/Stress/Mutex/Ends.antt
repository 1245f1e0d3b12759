-- ===== src/Stress/Mutex/Ends.antt =====
-- The stress tests of src/basic/safe.rs end, with their assertion.
use test_thread_safe_lru_cac.Base.{
  ℕ, ◌+◌, ◌*◌, ◌≤◌, ◌<◌, ◌≡◌, none, some, List, length, arith, ℕ_discrete,
}
use test_thread_safe_lru_cac.Assoc
use test_thread_safe_lru_cac.Basic.Lru.Methods.{Unique-IsCacheOf}
use test_thread_safe_lru_cac.Basic.Safe.{ThreadSafeLru, len}
use test_thread_safe_lru_cac.Basic.Safe.Concurrent.{IsGuardOf, len-IsGuardOf, answered-some}
use test_thread_safe_lru_cac.Stress.Threads.{
  spawned, Interleaves, All, All-Interleaves, All-spawned,
}
use test_thread_safe_lru_cac.Stress.Mutex.{
  Call, call_push, call_get, hot_loop, stress_thread, single_loop, stress_test, hot_keys_test,
}
use test_thread_safe_lru_cac.Stress.Mutex.Runs.{after, stress_test-ends}
use test_thread_safe_lru_cac.Stress.Mutex.Keys.{
  OnlyWithin, length-OnlyWithin, push-OnlyWithin, get-OnlyWithin, IsCallWithin, hot_loop-Within,
  stress_loop-Within, single_loop-Within,
}

module _ {V : Type 0} (alloc : ThreadSafeLru ℕ V → ℕ) (to_string : ℕ → V)
    (vacant : (cap : ℕ) (c : ThreadSafeLru ℕ V) (l : List (ℕ × V))
      → IsGuardOf ℕ_discrete cap c l
      → c.lru.dll.cells (alloc c) ≡ none) where
  after-OnlyWithin :
      (cap first n : ℕ) (l : List (ℕ × V)) (x : Call V)
      → Assoc.Unique ℕ_discrete l
      → IsCallWithin first n x
      → OnlyWithin first n l
      → OnlyWithin first n (after alloc cap (vacant cap) l x)
  after-OnlyWithin cap first n l (call_push k v) u ok h = push-OnlyWithin first n cap k v l ok h
  after-OnlyWithin cap first n l (call_get k) u ok h = get-OnlyWithin first n k l h

  test-Within :
      (cap first n : ℕ) (calls : List (Call V))
      → 0 < cap
      → All (IsCallWithin first n) calls
      → (c : ThreadSafeLru ℕ V) × (m : ℕ) × (stress_test alloc cap calls ≡ some c)
        × ((len c).1 ≡ some m)
        × (m ≤ cap)
        × (m ≤ n)
  test-Within cap first n calls h ok =
      let (c, l, ran, g, only) =
        stress_test-ends alloc cap (vacant cap) (IsCallWithin first n) (OnlyWithin first n)
          (after-OnlyWithin cap first n) h calls ok (λ k m. absurd (ground arith)) in
      let (_, counted, bound) = len-IsGuardOf ℕ_discrete cap g in
      (
        c,
        length l,
        ran,
        counted,
        bound,
        length-OnlyWithin first n l (Unique-IsCacheOf ℕ_discrete cap g.inside) only,
      )

  -- If the allocator gives each new box an address that no live box has, then for any numbers of
  -- threads and rounds and any order of the calls of the threads, the stress tests of the mutex
  -- cache end without a panic: with hot keys, the assertion on the length holds and at most five
  -- entries are left; with keys of every thread for itself, len then reports at most 1000 entries
  -- and at most as many as there are keys; and in the test with one thread, it reports at most 1000
  -- entries and at most one more than the product of its two numbers.
  pub stress_tests_lem :
      (num_threads ops_per_thread : ℕ) (hot stress : List (Call V))
      → Interleaves (spawned (λ t. hot_loop to_string ops_per_thread 0) num_threads 0) hot
      → Interleaves (spawned (stress_thread to_string ops_per_thread) num_threads 0) stress
      → ((n : ℕ) × (hot_keys_test alloc hot ≡ some n) × (n ≤ 5))
        × ((c : ThreadSafeLru ℕ V) × (n : ℕ) × (stress_test alloc 1000 stress ≡ some c)
            × ((len c).1 ≡ some n)
            × (n ≤ 1000)
            × (n ≤ num_threads * ops_per_thread))
        × ((c : ThreadSafeLru ℕ V) × (n : ℕ) × (stress_test alloc 1000
                (single_loop to_string ops_per_thread num_threads 0)
              ≡ some c)
            × ((len c).1 ≡ some n)
            × (n ≤ 1000)
            × (n ≤ num_threads * ops_per_thread + 1))
  unfolding hot_keys_test
  stress_tests_lem num_threads ops_per_thread hot stress hot_order order =
      let hot_in = All-Interleaves (IsCallWithin 1 5) _ hot hot_order (
        All-spawned (IsCallWithin 1 5) (λ t. hot_loop to_string ops_per_thread 0) num_threads 0
          (λ t h. hot_loop-Within to_string ops_per_thread 0)) in
      let (c, n, ran, counted, _, few) = test-Within 16 1 5 hot (omega arith) hot_in in
      let stress_in =
        All-Interleaves (IsCallWithin 0 (num_threads * ops_per_thread)) _ stress order (
          All-spawned (IsCallWithin 0 (num_threads * ops_per_thread))
            (stress_thread to_string ops_per_thread) num_threads 0
            (λ t h.
              stress_loop-Within to_string num_threads ops_per_thread t ops_per_thread 0
                (omega arith) (omega arith))) in
      (
        (n, rw (ran, answered-some (len c) counted) (ground arith), few),
        test-Within 1000 0 (num_threads * ops_per_thread) stress (omega arith) stress_in,
        test-Within 1000 0 (num_threads * ops_per_thread + 1) _ (omega arith)
            (single_loop-Within to_string num_threads ops_per_thread num_threads 0 (omega arith)),
      )
