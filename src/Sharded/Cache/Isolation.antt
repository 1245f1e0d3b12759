-- ===== src/Sharded/Cache/Isolation.antt =====
-- The shards of src/sharded/cache.rs do not affect one another.
use test_thread_safe_lru_cac.Base.{ℕ, ◌%◌, ◌≡◌, ◌≢◌, Option, some, List}
use test_thread_safe_lru_cac.Sharded.Eviction.{Eviction, IsPolicy}
use test_thread_safe_lru_cac.Sharded.Cache.{Cache, push, get, remove}
use test_thread_safe_lru_cac.Sharded.Cache.Methods.{
  IsSpreadOf, find, find-replace_other, push-IsSpreadOf, get-IsSpreadOf, remove-IsSpreadOf,
}

module _ {K V : Type 0} {dec : Discrete K} {e : Eviction K V} (p : IsPolicy dec e)
    (hash_one : K → ℕ) {cap n : ℕ} {c : Cache e} {ls : List (List (K × V))}
    (r : IsSpreadOf p hash_one cap n c ls) where
  -- From a sharded cache that stands for lists of entries, over any policy that keeps the promises
  -- of the trait: a push or a remove of a key on another shard does not change what get of a key
  -- returns, and no call panics.
  pub get-push_other :
      (k j : K) (v : V)
      → hash_one k % n ≢ hash_one j % n
      → (c1 c2 c3 c4 c5 : Cache e) × (o : Option V) × (get e hash_one c j ≡ some (c1, o))
        × (push e hash_one c k v ≡ some c2)
        × (get e hash_one c2 j ≡ some (c3, o))
        × (remove e hash_one c k ≡ some c4)
        × (get e hash_one c4 j ≡ some (c5, o))
  get-push_other k j v ne =
      let (c1, e1, _) = get-IsSpreadOf p hash_one r j in
      let (c2, e2, r2) = push-IsSpreadOf p hash_one r k v in
      let (c3, e3, _) = get-IsSpreadOf p hash_one r2 j in
      let (c4, e4, r4) = remove-IsSpreadOf p hash_one r k in
      let (c5, e5, _) = get-IsSpreadOf p hash_one r4 j in
      (
        c1,
        c2,
        c3,
        c4,
        c5,
        find p hash_one n ls j,
        e1,
        e2,
        rw (find-replace_other p hash_one r k j _ ne) at e3,
        e4,
        rw (find-replace_other p hash_one r k j _ ne) at e5,
      )
