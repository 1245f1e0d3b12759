-- ===== src/Sharded/Cache/Runs.antt =====
-- A cache from its constructor through any sequence of calls: src/sharded/cache.rs as its users see
-- it.
use native.Mathlib.Nat.{mul-div-le, mul-le-mul_left}
use test_thread_safe_lru_cac.Base.{
  ℕ, zero, suc, ◌+◌, ◌*◌, ◌/◌, ◌≤◌, ◌<◌, max, ◌≡◌, refl, sym, ap, ◌∙◌, Option, some, List, [], ◌∷◌,
  length, ◌>>=◌, arith, ◌%◌, ◌^◌,
}
use test_thread_safe_lru_cac.Assoc
use test_thread_safe_lru_cac.Sharded.Eviction.{Eviction, IsPolicy}
use test_thread_safe_lru_cac.Sharded.Cache.{
  Cache, build, push, get, remove, size, build_shards, capacity_per_shard,
}
use test_thread_safe_lru_cac.Sharded.Cache.Shards.{
  AllStand, length-AllStand, empties, build_shards-AllStand,
}
use test_thread_safe_lru_cac.Sharded.Cache.Methods.{
  IsSpreadOf, list_of, find, replace, push-IsSpreadOf, get-IsSpreadOf, remove-IsSpreadOf,
  size-IsSpreadOf,
}

-- The capacities of the shards, together; also where the sum wraps around to zero.
pub per_shard_le :
    (capacity shards : ℕ)
    → 0 < shards
    → shards * max 1 (capacity_per_shard capacity shards) ≤ capacity + shards
per_shard_le capacity shards h = at_quotient (capacity / shards) (mul-div-le capacity shards)
  where
    wrapped_le : (q : ℕ) → max 1 ((q + 1) % 2 ^ 64) ≤ suc q
    wrapped_le q = omega arith

    at_quotient :
        (q : ℕ) → shards * q ≤ capacity → shards * max 1 ((q + 1) % 2 ^ 64) ≤ capacity + shards
    at_quotient q b = omega (arith, mul-le-mul_left shards (wrapped_le q))

-- A call of the cache.
pub data Call (K V : Type 0) : Type 0 where
  call_push : K → V → Call K V
  call_get : K → Call K V
  call_remove : K → Call K V

module _ {K V : Type 0} (e : Eviction K V) (hash_one : K → ℕ) where
  -- The calls one after the other, with what the reads returned; `none` if one panics.
  unfoldable pub run : Cache e → List (Call K V) → Option (Cache e × List (Option V))
  run c [] = some (c, [])
  run c (call_push k v ∷ calls) = do c ← push e hash_one c k v; run c calls
  run c (call_get k ∷ calls) = do
    (c, found) ← get e hash_one c k
    (c, replies) ← run c calls
    some (c, found ∷ replies)
  run c (call_remove k ∷ calls) = do c ← remove e hash_one c k; run c calls

module _ {K V : Type 0} {dec : Discrete K} {e : Eviction K V} (p : IsPolicy dec e)
    (hash_one : K → ℕ) where
  -- The same calls on the lists of entries of the shards.
  abbrev pub lists_after : ℕ → ℕ → List (List (K × V)) → List (Call K V) → List (List (K × V))
  lists_after cap n ls [] = ls
  lists_after cap n ls (call_push k v ∷ calls) =
      lists_after cap n
        (replace p hash_one n ls k (p.push_list cap k v (list_of p hash_one n ls k))) calls
  lists_after cap n ls (call_get k ∷ calls) =
      lists_after cap n (replace p hash_one n ls k (p.get_list k (list_of p hash_one n ls k))) calls
  lists_after cap n ls (call_remove k ∷ calls) =
      lists_after cap n (replace p hash_one n ls k (Assoc.remove dec k (list_of p hash_one n ls k)))
        calls

  abbrev pub replies_after : ℕ → ℕ → List (List (K × V)) → List (Call K V) → List (Option V)
  replies_after cap n ls [] = []
  replies_after cap n ls (call_push k v ∷ calls) =
      replies_after cap n
        (replace p hash_one n ls k (p.push_list cap k v (list_of p hash_one n ls k))) calls
  replies_after cap n ls (call_get k ∷ calls) =
      find p hash_one n ls k
      ∷ replies_after cap n (replace p hash_one n ls k (p.get_list k (list_of p hash_one n ls k)))
          calls
  replies_after cap n ls (call_remove k ∷ calls) =
      replies_after cap n
        (replace p hash_one n ls k (Assoc.remove dec k (list_of p hash_one n ls k))) calls

  -- No sequence of calls panics, and every read returns what the lists of entries say.
  pub run-IsSpreadOf :
      {cap n : ℕ} (calls : List (Call K V)) {c : Cache e} {ls : List (List (K × V))}
      → IsSpreadOf p hash_one cap n c ls
      → (c' : Cache e) × (run e hash_one c calls ≡ some (c', replies_after cap n ls calls))
        × IsSpreadOf p hash_one cap n c' (lists_after cap n ls calls)
  unfolding run
  run-IsSpreadOf [] {c} r = (c, refl, r)
  run-IsSpreadOf (call_push k v ∷ calls) r =
      let (c1, e1, r1) = push-IsSpreadOf p hash_one r k v in
      let (c2, e2, r2) = run-IsSpreadOf calls r1 in (c2, rw (e1, e2) refl, r2)
  run-IsSpreadOf (call_get k ∷ calls) r =
      let (c1, e1, r1) = get-IsSpreadOf p hash_one r k in
      let (c2, e2, r2) = run-IsSpreadOf calls r1 in (c2, rw (e1, e2) refl, r2)
  run-IsSpreadOf (call_remove k ∷ calls) r =
      let (c1, e1, r1) = remove-IsSpreadOf p hash_one r k in
      let (c2, e2, r2) = run-IsSpreadOf calls r1 in (c2, rw (e1, e2) refl, r2)

  new_shards : (shards cap : ℕ) → AllStand p cap (build_shards e shards cap []) (empties shards)
  new_shards shards cap =
      let a : AllStand p cap (build_shards e shards cap []) (empties (shards + 0)) =
        build_shards-AllStand p cap shards 0 [] tt in
      rw (add_zero shards) at a
    where
      add_zero : (m : ℕ) → m + 0 ≡ m
      add_zero m = omega arith

  length-empties : (A : Type 0) (n : ℕ) → length (empties {A = A} n) ≡ n
  length-empties A zero = refl
  length-empties A (suc n) = ap suc (length-empties A n)

  -- A new cache of at least one shard has every shard empty.
  pub build-IsSpreadOf :
      (capacity shards : ℕ)
      → 0 < shards
      → (c : Cache e) × (build e capacity shards ≡ some c)
        × IsSpreadOf p hash_one (capacity_per_shard capacity shards) shards c (empties shards)
  unfolding build
  build-IsSpreadOf capacity shards h = (
    record { shards = build_shards e shards (capacity_per_shard capacity shards) [] },
    ground arith,
    record {
      positive = h;
      count =
          sym (
            length-AllStand p (capacity_per_shard capacity shards) _ (empties shards)
              (new_shards shards (capacity_per_shard capacity shards)))
          ∙ length-empties (K × V) shards;
      stand = new_shards shards (capacity_per_shard capacity shards);
    },
  )

  -- A cache over any policy that keeps the promises of the trait, built with at least one shard,
  -- runs any sequence of pushes, reads and removals without a panic, every read returns what the
  -- lists of entries of the shards say, and the size never exceeds capacity + shards.
  pub size-run :
      (capacity shards : ℕ) (calls : List (Call K V))
      → 0 < shards
      → (c c' : Cache e) × (build e capacity shards ≡ some c)
        × (run e hash_one c calls
            ≡ some (
              c',
              replies_after (capacity_per_shard capacity shards) shards (empties shards) calls,
            ))
        × (size e c' ≤ capacity + shards)
  size-run capacity shards calls h =
      let (c, e1, r1) = build-IsSpreadOf capacity shards h in
      let (c', e2, r2) = run-IsSpreadOf calls r1 in
      (c, c', e1, e2, omega (arith, size-IsSpreadOf p hash_one r2, per_shard_le capacity shards h))
