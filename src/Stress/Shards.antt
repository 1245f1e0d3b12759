-- ===== src/Stress/Shards.antt =====
-- The tests of src/sharded/cache.rs, for any keys, capacity and policy. The loops of lru_tests and
-- fifo_tests push every key of a range, or as many random strings, and read them back; here the keys
-- are a list, and `value` is what a test stores for a key. With several threads, the calls of all of
-- them run in some order, each as one step.
pub mod Ends
pub mod LruTests
pub mod FifoTests
pub mod Suite
use test_thread_safe_lru_cac.Base.{ℕ, zero, suc, ◌+◌, Option, List, [], ◌∷◌, ◌++◌, ◌>>=◌}
use test_thread_safe_lru_cac.Sharded.Eviction.{Eviction}
use test_thread_safe_lru_cac.Sharded.Cache.{Cache, build}
use test_thread_safe_lru_cac.Sharded.Cache.Runs.{Call, call_push, call_get, run}

-- `n` keys from `key` on.
abbrev pub keys_from : ℕ → ℕ → List ℕ
keys_from key zero = []
keys_from key (suc n) = key ∷ keys_from (key + 1) n

module _ {K V : Type 0} where
  -- The loop that pushes, and the loop that reads.
  abbrev pub push_loop : (K → V) → List K → List (Call K V)
  push_loop value [] = []
  push_loop value (key ∷ keys) = call_push key (value key) ∷ push_loop value keys

  abbrev pub get_loop : List K → List (Call K V)
  get_loop [] = []
  get_loop (key ∷ keys) = call_get key ∷ get_loop keys

  -- A thread of `with_threads_push_and_get`.
  abbrev pub push_and_get : (K → V) → List K → List (Call K V)
  push_and_get value keys = push_loop value keys ++ get_loop keys

  module _ (e : Eviction K V) (hash_one : K → ℕ) where
    -- The calls of a test on a new cache, with the replies to its reads.
    unfoldable pub on_new : ℕ → List (Call K V) → Option (Cache e × List (Option V))
    on_new capacity calls = do c ← build e capacity 10; run e hash_one c calls

    unfoldable pub single_thread_push : ℕ → (K → V) → List K → Option (Cache e × List (Option V))
    unfolding on_new
    single_thread_push capacity value keys = on_new capacity (push_loop value keys)

    unfoldable pub single_thread_push_get :
        ℕ → (K → V) → List K → List K → Option (Cache e × List (Option V))
    unfolding on_new
    single_thread_push_get capacity value keys reads =
        on_new capacity (push_loop value keys ++ get_loop reads)

    -- The calls of the threads in the order in which they run.
    unfoldable pub with_threads_push : ℕ → List (Call K V) → Option (Cache e × List (Option V))
    unfolding on_new
    with_threads_push capacity calls = on_new capacity calls

    unfoldable pub with_threads_push_and_get :
        ℕ → List (Call K V) → Option (Cache e × List (Option V))
    unfolding on_new
    with_threads_push_and_get capacity calls = on_new capacity calls
