-- ===== src/Stress/Shards/Suite.antt =====
-- The ten tests of src/sharded/cache.rs.
use test_thread_safe_lru_cac.Base.{ℕ, ◌+◌, List, ◌++◌, ℕ_discrete}
use test_thread_safe_lru_cac.Sharded.Eviction.Policies.{lru-IsPolicy, fifo-IsPolicy}
use test_thread_safe_lru_cac.Sharded.Cache.Runs.{Call}
use test_thread_safe_lru_cac.Stress.Threads.{spawned, Interleaves}
use test_thread_safe_lru_cac.Stress.Shards.{keys_from, push_loop, get_loop, push_and_get}
use test_thread_safe_lru_cac.Stress.Shards.Ends.{
  EndsWith, single_thread_push-EndsWith, single_thread_push_get-EndsWith,
  with_threads_push-EndsWith, with_threads_push_and_get-EndsWith,
}
use test_thread_safe_lru_cac.Stress.Shards.LruTests
use test_thread_safe_lru_cac.Stress.Shards.FifoTests

module _ (hash_one : ℕ → ℕ) {S : Type 0} (dec : Discrete S) (hash_string : S → ℕ) (rounds : ℕ)
    (strings reads : List S) where
  -- How the tests of each policy end; `pushes` and `calls` are what the threads did.
  abbrev pub LruEnds : List (Call ℕ ℕ) → Type 0
  LruEnds pushes =
      EndsWith (lru-IsPolicy ℕ_discrete) hash_one (λ key. key + 1) 100000
        (push_loop (λ key. key + 1) (keys_from 0 rounds))
        (LruTests.single_thread_push hash_one rounds)
      × EndsWith (lru-IsPolicy ℕ_discrete) hash_one (λ key. key + 1) 100000
          (push_loop (λ key. key + 1) (keys_from 0 rounds) ++ get_loop (keys_from 0 rounds))
          (LruTests.single_thread_push_get hash_one rounds)
      × EndsWith (lru-IsPolicy dec) hash_string (λ key. key) 100000
          (push_loop (λ key. key) strings ++ get_loop reads)
          (LruTests.single_thread_push_get_string dec hash_string strings reads)
      × EndsWith (lru-IsPolicy ℕ_discrete) hash_one (λ key. key) 100000 pushes
          (LruTests.with_threads_push hash_one pushes)
      × EndsWith (lru-IsPolicy ℕ_discrete) hash_one (λ key. key) 1000000 pushes
          (LruTests.with_threads_push_and_get hash_one pushes)

  abbrev pub FifoEnds : List (Call ℕ ℕ) → List (Call ℕ ℕ) → Type 0
  FifoEnds pushes calls =
      EndsWith (fifo-IsPolicy ℕ_discrete) hash_one (λ key. key + 1) 100000
        (push_loop (λ key. key + 1) (keys_from 0 rounds))
        (FifoTests.single_thread_push hash_one rounds)
      × EndsWith (fifo-IsPolicy ℕ_discrete) hash_one (λ key. key + 1) 100000
          (push_loop (λ key. key + 1) (keys_from 0 rounds) ++ get_loop (keys_from 0 rounds))
          (FifoTests.single_thread_push_get hash_one rounds)
      × EndsWith (fifo-IsPolicy dec) hash_string (λ key. key) 100000
          (push_loop (λ key. key) strings ++ get_loop reads)
          (FifoTests.single_thread_push_get_string dec hash_string strings reads)
      × EndsWith (fifo-IsPolicy ℕ_discrete) hash_one (λ key. key) 100000 pushes
          (FifoTests.with_threads_push hash_one pushes)
      × EndsWith (fifo-IsPolicy ℕ_discrete) hash_one (λ key. key) 100000 calls
          (FifoTests.with_threads_push_and_get hash_one calls)

  -- For any hashes, numbers of rounds and threads and random texts, and any order of the calls of
  -- the threads, the ten tests of the sharded cache end without a panic, with a size of at most the
  -- capacity and one more for each of the ten shards, and every read has a reply, which is nothing
  -- or the value that the test pushes for its key.
  pub sharded_tests_lem :
      (num_threads : ℕ) (pushes calls : List (Call ℕ ℕ))
      → Interleaves
          (spawned (λ t. push_loop (λ key. key) (keys_from 0 rounds)) num_threads 0)
          pushes
      → Interleaves
          (spawned (λ t. push_and_get (λ key. key) (keys_from 0 rounds)) num_threads 0)
          calls
      → LruEnds pushes × FifoEnds pushes calls
  unfolding LruTests.single_thread_push LruTests.single_thread_push_get LruTests.with_threads_push
      LruTests.with_threads_push_and_get LruTests.single_thread_push_get_string
      FifoTests.single_thread_push FifoTests.single_thread_push_get FifoTests.with_threads_push
      FifoTests.with_threads_push_and_get FifoTests.single_thread_push_get_string
  sharded_tests_lem num_threads pushes calls order order' = (
    (
      single_thread_push-EndsWith (lru-IsPolicy ℕ_discrete) hash_one (λ key. key + 1) 100000
          (keys_from 0 rounds),
      single_thread_push_get-EndsWith (lru-IsPolicy ℕ_discrete) hash_one (λ key. key + 1) 100000
          (keys_from 0 rounds) (keys_from 0 rounds),
      single_thread_push_get-EndsWith (lru-IsPolicy dec) hash_string (λ key. key) 100000 strings
          reads,
      with_threads_push-EndsWith (lru-IsPolicy ℕ_discrete) hash_one (λ key. key) 100000
          (keys_from 0 rounds) num_threads pushes order,
      with_threads_push-EndsWith (lru-IsPolicy ℕ_discrete) hash_one (λ key. key) 1000000
          (keys_from 0 rounds) num_threads pushes order,
    ),
    (
      single_thread_push-EndsWith (fifo-IsPolicy ℕ_discrete) hash_one (λ key. key + 1) 100000
          (keys_from 0 rounds),
      single_thread_push_get-EndsWith (fifo-IsPolicy ℕ_discrete) hash_one (λ key. key + 1) 100000
          (keys_from 0 rounds) (keys_from 0 rounds),
      single_thread_push_get-EndsWith (fifo-IsPolicy dec) hash_string (λ key. key) 100000 strings
          reads,
      with_threads_push-EndsWith (fifo-IsPolicy ℕ_discrete) hash_one (λ key. key) 100000
          (keys_from 0 rounds) num_threads pushes order,
      with_threads_push_and_get-EndsWith (fifo-IsPolicy ℕ_discrete) hash_one (λ key. key) 100000
          (keys_from 0 rounds) num_threads calls order',
    ),
  )
