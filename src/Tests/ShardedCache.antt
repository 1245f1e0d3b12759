-- ===== src/Tests/ShardedCache.antt =====
-- Calls of src/sharded/cache.rs over two shards of the LRU policy, and the theorems at them.
use test_thread_safe_lru_cac.Base.{
  ℕ, ◌≡◌, ◌≤◌, ◌+◌, ◌/◌, refl, true, false, none, some, List, [], ◌∷◌, arith, ℕ_discrete, ◌≢◌,
  Option, ◌%◌,
}
use test_thread_safe_lru_cac.Sharded.Eviction.Policies.{lru, lru-IsPolicy, fifo, fifo-IsPolicy}
use test_thread_safe_lru_cac.Sharded.Lru
use test_thread_safe_lru_cac.Sharded.Lru.Refine.{new-Represents}
use test_thread_safe_lru_cac.Sharded.Cache.{
  Cache, push, get, remove, contains, build, size, capacity_per_shard,
}
use test_thread_safe_lru_cac.Sharded.Cache.Shards.{empties}
use test_thread_safe_lru_cac.Sharded.Cache.Methods.{IsSpreadOf, get-cache_write}
use test_thread_safe_lru_cac.Sharded.Cache.Isolation.{get-push_other}
use test_thread_safe_lru_cac.Sharded.Cache.Fresh.{AllFresh, run-AllFresh}
use test_thread_safe_lru_cac.Sharded.Cache.Fresh.Roomy.{last_writes, run-last_writes}
use test_thread_safe_lru_cac.Sharded.Cache.Runs.{
  Call, call_push, call_get, call_remove, run, replies_after,
}
use test_thread_safe_lru_cac.Tests.ShardedLru.{two_items, two_items-Represents}

-- Keys below 10 hash to the first shard.
abbrev hash_one : ℕ → ℕ
hash_one k = k / 10

-- One full shard, with a promotion held back, and one empty shard.
abbrev two_shards : Cache (lru {V = ℕ} ℕ_discrete)
two_shards = record { shards = two_items (0 ∷ []) ∷ Lru.new 2 ∷ [] }

two_shards-IsSpreadOf :
    IsSpreadOf
      (lru-IsPolicy ℕ_discrete)
      hash_one
      2
      2
      two_shards
      (((1, 10) ∷ (2, 20) ∷ []) ∷ [] ∷ [])
unfolding lru-IsPolicy
two_shards-IsSpreadOf = record {
  positive = omega arith;
  count = refl;
  stand = (two_items-Represents, (new-Represents ℕ_discrete 2, tt));
}

get-cache_write_example :
    ((c' c'' : Cache (lru {V = ℕ} ℕ_discrete)) × (push (lru ℕ_discrete) hash_one two_shards 1 30
        ≡ some c')
      × (contains (lru ℕ_discrete) hash_one c' 1 ≡ some true)
      × (get (lru ℕ_discrete) hash_one c' 1 ≡ some (c'', some 30)))
    × ((c' c'' : Cache (lru {V = ℕ} ℕ_discrete)) × (remove (lru ℕ_discrete) hash_one two_shards 1
          ≡ some c')
        × (contains (lru ℕ_discrete) hash_one c' 1 ≡ some false)
        × (get (lru ℕ_discrete) hash_one c' 1 ≡ some (c'', none)))
get-cache_write_example =
    get-cache_write (lru-IsPolicy ℕ_discrete) hash_one two_shards-IsSpreadOf 1 30

abbrev calls : List (Call ℕ ℕ)
calls =
    call_push 1 10 ∷ call_push 12 20 ∷ call_get 1 ∷ call_push 3 30 ∷ call_remove 1 ∷ call_get 1 ∷ []

get-push_other_example :
    (c1 c2 c3 c4 c5 : Cache (lru {V = ℕ} ℕ_discrete)) × (o : Option ℕ) × (get
        (lru ℕ_discrete)
        hash_one
        two_shards
        1
      ≡ some (c1, o))
    × (push (lru ℕ_discrete) hash_one two_shards 12 30 ≡ some c2)
    × (get (lru ℕ_discrete) hash_one c2 1 ≡ some (c3, o))
    × (remove (lru ℕ_discrete) hash_one two_shards 12 ≡ some c4)
    × (get (lru ℕ_discrete) hash_one c4 1 ≡ some (c5, o))
get-push_other_example =
    get-push_other (lru-IsPolicy ℕ_discrete) hash_one two_shards-IsSpreadOf 12 1 30 other_shard
  where
    other_shard : hash_one 12 % 2 ≢ hash_one 1 % 2
    other_shard = ground arith

abbrev replies : List (Option ℕ)
replies =
    replies_after (fifo-IsPolicy ℕ_discrete) hash_one (capacity_per_shard 3 2) 2 (empties 2) calls

run-AllFresh_example :
    (c c' : Cache (fifo {V = ℕ} ℕ_discrete)) × (build (fifo ℕ_discrete) 3 2 ≡ some c)
    × (run (fifo ℕ_discrete) hash_one c calls ≡ some (c', replies))
    × AllFresh ℕ_discrete [] calls replies
    × (size (fifo ℕ_discrete) c' ≤ 3 + 2)
run-AllFresh_example = run-AllFresh (fifo-IsPolicy ℕ_discrete) hash_one 3 2 calls (omega arith)

-- Two shards of capacity 3, for three pushes.
run-last_writes_example :
    (c c' : Cache (lru {V = ℕ} ℕ_discrete)) × (build (lru ℕ_discrete) 4 2 ≡ some c)
    × (run (lru ℕ_discrete) hash_one c calls ≡ some (c', last_writes ℕ_discrete [] calls))
run-last_writes_example =
    run-last_writes (lru-IsPolicy ℕ_discrete) hash_one 4 2 calls (omega arith) (omega arith)

-- They are what a map finds.
unbounded_replies : last_writes ℕ_discrete [] calls ≡ some 10 ∷ none ∷ []
unfolding ℕ_discrete
unbounded_replies = refl
