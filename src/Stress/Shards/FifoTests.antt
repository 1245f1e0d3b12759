-- ===== src/Stress/Shards/FifoTests.antt =====
-- The tests of the module fifo_tests of src/sharded/cache.rs, for any number of rounds and threads.
-- `strings` and `reads` stand for the random texts.
use test_thread_safe_lru_cac.Base.{ℕ, ◌+◌, Option, List, ℕ_discrete}
use test_thread_safe_lru_cac.Sharded.Eviction.Policies.{fifo}
use test_thread_safe_lru_cac.Sharded.Cache.{Cache}
use test_thread_safe_lru_cac.Sharded.Cache.Runs.{Call}
use test_thread_safe_lru_cac.Stress.Shards

module _ (hash_one : ℕ → ℕ) where
  unfoldable pub single_thread_push : ℕ → Option (Cache (fifo {V = ℕ} ℕ_discrete) × List (Option ℕ))
  single_thread_push rounds =
      Shards.single_thread_push (fifo ℕ_discrete) hash_one 100000 (λ key. key + 1)
        (Shards.keys_from 0 rounds)

  unfoldable pub single_thread_push_get :
      ℕ → Option (Cache (fifo {V = ℕ} ℕ_discrete) × List (Option ℕ))
  single_thread_push_get rounds =
      Shards.single_thread_push_get (fifo ℕ_discrete) hash_one 100000 (λ key. key + 1)
        (Shards.keys_from 0 rounds) (Shards.keys_from 0 rounds)

  unfoldable pub with_threads_push :
      List (Call ℕ ℕ) → Option (Cache (fifo {V = ℕ} ℕ_discrete) × List (Option ℕ))
  with_threads_push calls = Shards.with_threads_push (fifo ℕ_discrete) hash_one 100000 calls

  unfoldable pub with_threads_push_and_get :
      List (Call ℕ ℕ) → Option (Cache (fifo {V = ℕ} ℕ_discrete) × List (Option ℕ))
  with_threads_push_and_get calls =
      Shards.with_threads_push_and_get (fifo ℕ_discrete) hash_one 100000 calls

unfoldable pub single_thread_push_get_string :
    {S : Type 0} (dec : Discrete S)
    → (S → ℕ)
    → List S
    → List S
    → Option (Cache (fifo {V = S} dec) × List (Option S))
single_thread_push_get_string dec hash_one strings reads =
    Shards.single_thread_push_get (fifo dec) hash_one 100000 (λ key. key) strings reads
