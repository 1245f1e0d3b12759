-- ===== src/Stress/BasicLru.antt =====
-- examples/basic_lru.rs, for any capacity and numbers of threads and rounds. The first thread fills
-- the cache, and a barrier keeps all threads from their own rounds until then; those run in any
-- order. `warm` and `val` are the texts that are stored.
pub mod Full
use test_thread_safe_lru_cac.Base.{ℕ, zero, suc, ◌+◌, ◌*◌, ◌%◌, Option, List, [], ◌∷◌, ◌>>=◌}
use test_thread_safe_lru_cac.Basic.Safe.{ThreadSafeLru, new}
use test_thread_safe_lru_cac.Stress.Mutex.{Call, call_push, call_get, run}

-- `i`-th round of thread `t`.
abbrev pub key_of_round : ℕ → ℕ → ℕ → ℕ → ℕ
key_of_round capacity ops_per_thread t i = (t * ops_per_thread + i) % (capacity * 2)

module _ {V : Type 0} where
  -- The loop of the first thread before the barrier.
  abbrev pub warm_loop : (ℕ → V) → ℕ → ℕ → List (Call V)
  warm_loop warm zero i = []
  warm_loop warm (suc rounds) i = call_push i (warm i) ∷ warm_loop warm rounds (i + 1)

  -- The loop of thread `t` after the barrier, from round `i`.
  abbrev pub worker_loop : (ℕ → ℕ → V) → ℕ → ℕ → ℕ → ℕ → ℕ → List (Call V)
  worker_loop val capacity ops_per_thread t zero i = []
  worker_loop val capacity ops_per_thread t (suc rounds) i =
      call_push (key_of_round capacity ops_per_thread t i)
        (val t (key_of_round capacity ops_per_thread t i))
      ∷ call_get (key_of_round capacity ops_per_thread t i)
      ∷ worker_loop val capacity ops_per_thread t rounds (i + 1)

  abbrev pub worker : (ℕ → ℕ → V) → ℕ → ℕ → ℕ → List (Call V)
  worker val capacity ops_per_thread t = worker_loop val capacity ops_per_thread t ops_per_thread 0

  -- The cache, the calls before the barrier and those after it.
  unfoldable pub basic_lru :
      (ThreadSafeLru ℕ V → ℕ) → (ℕ → V) → ℕ → List (Call V) → Option (ThreadSafeLru ℕ V)
  basic_lru alloc warm capacity calls = do
    c ← new capacity
    c ← run alloc c (warm_loop warm capacity 0)
    run alloc c calls
