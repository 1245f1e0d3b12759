-- ===== src/Sharded/Cache.antt =====
-- src/sharded/cache.rs: the cache over shards of one eviction policy. `hash_one` is the hash builder
-- of the cache, a fixed function of the key. A method that changes a shard returns the cache with
-- that shard replaced; `none` is a panic.
pub mod Shards
pub mod Threads
pub mod Isolation
pub mod Methods
pub mod Runs
pub mod Fresh
use test_thread_safe_lru_cac.Base.{
  ℕ, zero, suc, ◌+◌, ◌/◌, ◌%◌, Bool, true, false, Option, none, some, List, [], ◌∷◌, ◌++◌, leb,
  if◌then◌else◌, length, get_elem?, set, ◌>>=◌, ◌^◌,
}
use test_thread_safe_lru_cac.Sharded.Eviction.{Eviction}
use test_thread_safe_lru_cac.Sharded.Eviction.Policies

pub record Cache {K V : Type 0} (e : Eviction K V) : Type 0 where
  pub shards : List e.Shard

-- `capacity / shards + 1` on a `usize` of 64 bits, which wraps around in a release build.
abbrev pub capacity_per_shard : ℕ → ℕ → ℕ
capacity_per_shard capacity shards = (capacity / shards + 1) % 2 ^ 64

module _ {K V : Type 0} (e : Eviction K V) where
  -- The loop that fills the vector of shards.
  unfoldable pub build_shards : ℕ → ℕ → List e.Shard → List e.Shard
  build_shards zero capacity_per_shard cache_shards = cache_shards
  build_shards (suc rounds) capacity_per_shard cache_shards =
      build_shards rounds capacity_per_shard (cache_shards ++ e.new capacity_per_shard ∷ [])

  -- What `Cache::lru` and `Cache::fifo` do for their policies.
  unfoldable pub build : ℕ → ℕ → Option (Cache e)
  unfolding build_shards
  build capacity shards =
      if leb 1 shards
      then some (record { shards = build_shards shards (capacity_per_shard capacity shards) [] })
      else none

  unfoldable pub is_empty_loop : List e.Shard → Bool
  is_empty_loop [] = true
  is_empty_loop (s ∷ ss) = let rest = is_empty_loop ss in if e.is_empty s then rest else false

  unfoldable pub size_loop : ℕ → List e.Shard → ℕ
  size_loop size [] = size
  size_loop size (s ∷ ss) = size_loop (size + e.len s) ss

  unfoldable pub is_empty : Cache e → Bool
  unfolding is_empty_loop
  is_empty c = is_empty_loop c.shards

  unfoldable pub size : Cache e → ℕ
  unfolding size_loop
  size c = size_loop 0 c.shards

module _ {K V : Type 0} (e : Eviction K V) (hash_one : K → ℕ) where
  -- `(shard_hash as usize) % self.shards.len()`, which panics where there is no shard.
  abbrev pub shard_index : K → ℕ → Option ℕ
  shard_index k zero = none
  shard_index k (suc n) = some (hash_one k % suc n)

  unfoldable pub push : Cache e → K → V → Option (Cache e)
  push c k v = do
    shard ← shard_index k (length c.shards)
    s ← get_elem? c.shards shard
    s' ← e.push s k v
    some (record { shards = set c.shards shard s' })

  unfoldable pub get : Cache e → K → Option (Cache e × Option V)
  get c k = do
    shard ← shard_index k (length c.shards)
    s ← get_elem? c.shards shard
    (s', found) ← e.get s k
    some (record { shards = set c.shards shard s' }, found)

  unfoldable pub remove : Cache e → K → Option (Cache e)
  remove c k = do
    shard ← shard_index k (length c.shards)
    s ← get_elem? c.shards shard
    s' ← e.remove s k
    some (record { shards = set c.shards shard s' })

  unfoldable pub contains : Cache e → K → Option Bool
  contains c k = do
    shard ← shard_index k (length c.shards)
    s ← get_elem? c.shards shard
    some (e.contains s k)

module _ {K V : Type 0} (dec : Discrete K) where
  unfoldable pub lru : ℕ → ℕ → Option (Cache (Policies.lru {K = K} {V = V} dec))
  lru capacity shards = build (Policies.lru dec) capacity shards

  unfoldable pub fifo : ℕ → ℕ → Option (Cache (Policies.fifo {K = K} {V = V} dec))
  fifo capacity shards = build (Policies.fifo dec) capacity shards
