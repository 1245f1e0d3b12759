-- ===== src/Stress/Mutex.antt =====
-- The stress tests of src/basic/safe.rs, for any numbers of threads and rounds. Every call is one
-- critical section, so a test runs the calls of its threads in some order. `alloc` is the address
-- that the allocator gives the next box.
pub mod Runs
pub mod Keys
pub mod Ends
use test_thread_safe_lru_cac.Base.{
  ℕ, zero, suc, ◌+◌, ◌-◌, ◌*◌, ◌%◌, ◌≤◌, ◌<◌, ◌≡◌, refl, ◌∙◌, ap, Bool, true, false, Option, none,
  some, List, [], ◌∷◌, ◌==◌, leb, if◌then◌else◌, is_some, length, get_elem?, ◌>>=◌, arith,
  Option-cases, inl, inr, ℕ_discrete,
}
use test_thread_safe_lru_cac.Assoc
use test_thread_safe_lru_cac.Spec.{lru_push, lru_get, lru_push_miss, lru_push_hit, get-lru_get}
use test_thread_safe_lru_cac.Basic.Lru.Methods.{new-IsCacheOf, size-IsCacheOf, Unique-IsCacheOf}
use test_thread_safe_lru_cac.Basic.Safe.{ThreadSafeLru, new, push, get, len, answered}
use test_thread_safe_lru_cac.Basic.Safe.Concurrent.{
  IsGuardOf, push-IsGuardOf, get-IsGuardOf, len-IsGuardOf, answered-some,
}
use test_thread_safe_lru_cac.Stress.Threads.{
  spawned, Interleaves, All, All-Interleaves, All-spawned,
}

-- A call with its key, and the value of a push.
pub data Call (V : Type 0) : Type 0 where
  call_push : ℕ → V → Call V
  call_get : ℕ → Call V

module _ {V : Type 0} where
  abbrev pub key_of_call : Call V → ℕ
  key_of_call (call_push k v) = k
  key_of_call (call_get k) = k

-- `hot_keys[i % hot_keys.len()]` of the keys 1 to 5.
abbrev pub hot_key : ℕ → ℕ
hot_key i = i % 5 + 1

-- `to_string` is the value that is made from a key.
module _ {V : Type 0} (to_string : ℕ → V) where
  -- Thread `t` of `test_concurrent_stress`, from round `i`.
  abbrev pub stress_loop : ℕ → ℕ → ℕ → ℕ → List (Call V)
  stress_loop ops_per_thread t zero i = []
  stress_loop ops_per_thread t (suc rounds) i =
      call_push (t * ops_per_thread + i) (to_string (t * ops_per_thread + i))
      ∷ call_get (t * ops_per_thread + i)
      ∷ stress_loop ops_per_thread t rounds (i + 1)

  abbrev pub stress_thread : ℕ → ℕ → List (Call V)
  stress_thread ops_per_thread t = stress_loop ops_per_thread t ops_per_thread 0

  -- The loop of `test_stress`, from round `t`.
  abbrev pub single_loop : ℕ → ℕ → ℕ → List (Call V)
  single_loop ops_per_thread zero t = []
  single_loop ops_per_thread (suc rounds) t =
      call_push (t * ops_per_thread) (to_string (t * ops_per_thread))
      ∷ call_get (t * ops_per_thread)
      ∷ single_loop ops_per_thread rounds (t + 1)

  -- A thread of `test_concurrent_hot_keys`, from round `i`.
  abbrev pub hot_loop : ℕ → ℕ → List (Call V)
  hot_loop zero i = []
  hot_loop (suc rounds) i =
      let rest = hot_loop rounds (i + 1) in
      call_push (hot_key i) (to_string (hot_key i))
      ∷ (if i % 3 == 0 then call_get (hot_key i) ∷ rest else rest)

module _ {V : Type 0} (alloc : ThreadSafeLru ℕ V → ℕ) where
  unfoldable pub call : ThreadSafeLru ℕ V → Call V → Option (ThreadSafeLru ℕ V)
  call c (call_push k v) = do (c, _) ← answered (push ℕ_discrete (alloc c) c k v); some c
  call c (call_get k) = do (c, _) ← answered (get ℕ_discrete c k); some c

  unfoldable pub run : ThreadSafeLru ℕ V → List (Call V) → Option (ThreadSafeLru ℕ V)
  run c [] = some c
  run c (x ∷ calls) = do c ← call c x; run c calls

  -- The calls on a new cache.
  unfoldable pub stress_test : ℕ → List (Call V) → Option (ThreadSafeLru ℕ V)
  stress_test capacity calls = do c ← new capacity; run c calls

  -- `test_concurrent_hot_keys`, with its assertion; the number is the length in it.
  unfoldable pub hot_keys_test : List (Call V) → Option ℕ
  hot_keys_test calls = do
    c ← stress_test 16 calls
    (_, n) ← answered (len c)
    if leb n 16 then some n else none
