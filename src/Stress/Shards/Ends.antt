-- ===== src/Stress/Shards/Ends.antt =====
-- The tests of src/sharded/cache.rs end, with a bounded cache and true replies.
use test_thread_safe_lru_cac.Base.{
  ℕ, ◌+◌, ◌≤◌, ◌≡◌, ◌⊎◌, inl, inr, refl, sym, ◌∙◌, ap, Option, none, some, List, [], ◌∷◌, ◌++◌,
  if_pos, if_neg, arith,
}
use test_thread_safe_lru_cac.Sharded.Eviction.{Eviction, IsPolicy}
use test_thread_safe_lru_cac.Sharded.Cache.{Cache, size}
use test_thread_safe_lru_cac.Sharded.Cache.Runs.{Call, call_push, call_get, call_remove}
use test_thread_safe_lru_cac.Sharded.Cache.Fresh.{last_write, AllFresh, run-AllFresh}
use test_thread_safe_lru_cac.Stress.Threads.{
  spawned, Interleaves, All, All-Interleaves, All-spawned,
}
use test_thread_safe_lru_cac.Stress.Shards.{
  push_loop, get_loop, push_and_get, on_new, single_thread_push, single_thread_push_get,
  with_threads_push, with_threads_push_and_get,
}

module _ {K V : Type 0} (value : K → V) where
  -- One reply for each read, which is empty or the value that the test stores for the key.
  abbrev pub AllTrue : List (Call K V) → List (Option V) → Type 0
  AllTrue [] [] = Unit
  AllTrue [] (r ∷ rs) = ⊥
  AllTrue (call_push k v ∷ calls) rs = AllTrue calls rs
  AllTrue (call_remove k ∷ calls) rs = AllTrue calls rs
  AllTrue (call_get k ∷ calls) [] = ⊥
  AllTrue (call_get k ∷ calls) (r ∷ rs) = ((r ≡ none) ⊎ (r ≡ some (value k))) × AllTrue calls rs

  abbrev IsTrue : Call K V → Type 0
  IsTrue (call_push k v) = v ≡ value k
  IsTrue (call_get k) = Unit
  IsTrue (call_remove k) = Unit

  push_loop-IsTrue : (keys : List K) → All IsTrue (push_loop value keys)
  push_loop-IsTrue [] = tt
  push_loop-IsTrue (k ∷ keys) = (refl, push_loop-IsTrue keys)

  get_loop-IsTrue : (keys : List K) → All IsTrue (get_loop keys)
  get_loop-IsTrue [] = tt
  get_loop-IsTrue (k ∷ keys) = (tt, get_loop-IsTrue keys)

  append-IsTrue : (xs ys : List (Call K V)) → All IsTrue xs → All IsTrue ys → All IsTrue (xs ++ ys)
  append-IsTrue [] ys a b = b
  append-IsTrue (x ∷ xs) ys a b = (a.0, append-IsTrue xs ys a.1 b)

  module _ (dec : Discrete K) where
    last_write_true :
        (k : K) (past : List (Call K V))
        → All IsTrue past
        → (last_write dec k past ≡ none) ⊎ (last_write dec k past ≡ some (value k))
    last_write_true k [] a = inl refl
    last_write_true k (call_push j v ∷ past) (e, a) = elim (dec k j) [
      | yes p ↦ inr (if_pos (dec k j) p _ _ ∙ ap some (e ∙ ap value (sym p)))
      | no p ↦ rw (if_neg (dec k j) p) (last_write_true k past a)
    ]
    last_write_true k (call_get j ∷ past) (e, a) = last_write_true k past a
    last_write_true k (call_remove j ∷ past) (e, a) = elim (dec k j) [
      | yes p ↦ inl (if_pos (dec k j) p _ _)
      | no p ↦ rw (if_neg (dec k j) p) (last_write_true k past a)
    ]

    reply_true :
        (r w : Option V) (v : V)
        → (r ≡ none) ⊎ (r ≡ w)
        → (w ≡ none) ⊎ (w ≡ some v)
        → (r ≡ none) ⊎ (r ≡ some v)
    reply_true r w v (inl e) t = inl e
    reply_true r w v (inr e) (inl t) = inl (e ∙ t)
    reply_true r w v (inr e) (inr t) = inr (e ∙ t)

    AllFresh-AllTrue :
        (calls past : List (Call K V)) (rs : List (Option V))
        → All IsTrue past
        → All IsTrue calls
        → AllFresh dec past calls rs
        → AllTrue calls rs
    AllFresh-AllTrue [] past [] a b f = tt
    AllFresh-AllTrue [] past (r ∷ rs) a b f = f
    AllFresh-AllTrue (call_push k v ∷ calls) past rs a b f =
        AllFresh-AllTrue calls (call_push k v ∷ past) rs (b.0, a) b.1 f
    AllFresh-AllTrue (call_remove k ∷ calls) past rs a b f =
        AllFresh-AllTrue calls (call_remove k ∷ past) rs (b.0, a) b.1 f
    AllFresh-AllTrue (call_get k ∷ calls) past [] a b f = f
    AllFresh-AllTrue (call_get k ∷ calls) past (r ∷ rs) a b f = (
      reply_true r (last_write dec k past) (value k) f.0 (last_write_true k past a),
      AllFresh-AllTrue calls (call_get k ∷ past) rs (b.0, a) b.1 f.1,
    )

module _ {K V : Type 0} {dec : Discrete K} {e : Eviction K V} (p : IsPolicy dec e)
    (hash_one : K → ℕ) (value : K → V) (capacity : ℕ) where
  -- A test ends with a cache within its bound and true replies.
  abbrev pub EndsWith : List (Call K V) → Option (Cache e × List (Option V)) → Type 0
  EndsWith calls result =
      (c : Cache e) × (replies : List (Option V)) × (result ≡ some (c, replies))
      × AllTrue value calls replies
      × (size e c ≤ capacity + 10)

  on_new-EndsWith :
      (calls : List (Call K V))
      → All (IsTrue value) calls
      → EndsWith calls (on_new e hash_one capacity calls)
  unfolding on_new
  on_new-EndsWith calls a =
      let (c, c', built, ran, fresh, bound) =
        run-AllFresh p hash_one capacity 10 calls (omega arith) in
      (c', _, rw (built, ran) refl, AllFresh-AllTrue value dec calls [] _ tt a fresh, bound)

  pub single_thread_push-EndsWith :
      (keys : List K)
      → EndsWith (push_loop value keys) (single_thread_push e hash_one capacity value keys)
  unfolding single_thread_push
  single_thread_push-EndsWith keys = on_new-EndsWith _ (push_loop-IsTrue value keys)

  pub single_thread_push_get-EndsWith :
      (keys reads : List K)
      → EndsWith
          (push_loop value keys ++ get_loop reads)
          (single_thread_push_get e hash_one capacity value keys reads)
  unfolding single_thread_push_get
  single_thread_push_get-EndsWith keys reads =
      on_new-EndsWith _
        (append-IsTrue value _ _ (push_loop-IsTrue value keys) (get_loop-IsTrue value reads))

  pub with_threads_push-EndsWith :
      (keys : List K) (num_threads : ℕ) (calls : List (Call K V))
      → Interleaves (spawned (λ t. push_loop value keys) num_threads 0) calls
      → EndsWith calls (with_threads_push e hash_one capacity calls)
  unfolding with_threads_push
  with_threads_push-EndsWith keys num_threads calls order = on_new-EndsWith calls (
      All-Interleaves (IsTrue value) _ calls order (
        All-spawned (IsTrue value) (λ t. push_loop value keys) num_threads 0
          (λ u h. push_loop-IsTrue value keys)))

  pub with_threads_push_and_get-EndsWith :
      (keys : List K) (num_threads : ℕ) (calls : List (Call K V))
      → Interleaves (spawned (λ t. push_and_get value keys) num_threads 0) calls
      → EndsWith calls (with_threads_push_and_get e hash_one capacity calls)
  unfolding with_threads_push_and_get
  with_threads_push_and_get-EndsWith keys num_threads calls order = on_new-EndsWith calls (
      All-Interleaves (IsTrue value) _ calls order (
        All-spawned (IsTrue value) (λ t. push_and_get value keys) num_threads 0
          (λ u h.
            append-IsTrue value _ _ (push_loop-IsTrue value keys) (get_loop-IsTrue value keys))))
