-- ===== src/Sharded/Cache/Fresh/Roomy.antt =====
-- A cache of src/sharded/cache.rs that was asked to keep no more entries than one of its shards can
-- hold: it forgets nothing, however the hash spreads the keys.
use test_thread_safe_lru_cac.Base.{
  ℕ, zero, suc, ◌+◌, ◌%◌, ◌≤◌, ◌<◌, ◌≡◌, ◌≢◌, refl, sym, ap, ◌∙◌, Option, List, [], ◌∷◌, ◌==◌,
  ==_refl, if_pos, if_neg, subst, length, get_elem?, Bool-cases, inl, inr, arith, some, zero_add,
}
use test_thread_safe_lru_cac.Assoc
use test_thread_safe_lru_cac.Sharded.Eviction.{Eviction, IsPolicy}
use test_thread_safe_lru_cac.Sharded.Cache.{Cache, build, capacity_per_shard}
use test_thread_safe_lru_cac.Sharded.Cache.Shards.{empties}
use test_thread_safe_lru_cac.Sharded.Cache.Methods.{
  IsSpreadOf, list_of, find, replace, or_empty, list_of-replace, find-replace, Unique-list_of,
  push-IsSpreadOf, get-IsSpreadOf, remove-IsSpreadOf,
}
use test_thread_safe_lru_cac.Sharded.Cache.Runs.{
  Call, call_push, call_get, call_remove, run, replies_after, size-run, build-IsSpreadOf,
}
use test_thread_safe_lru_cac.Spec.Roomy.{length-remove_le}
use test_thread_safe_lru_cac.Sharded.Cache.Fresh.{last_write, same_find, other_key}

module _ {K V : Type 0} where
  abbrev pub pushes : List (Call K V) → ℕ
  pushes [] = 0
  pushes (call_push k v ∷ calls) = suc (pushes calls)
  pushes (_ ∷ calls) = pushes calls

module _ {K V : Type 0} (dec : Discrete K) where
  -- The replies of a map without a bound, where `past` are the calls before.
  abbrev pub last_writes : List (Call K V) → List (Call K V) → List (Option V)
  last_writes past [] = []
  last_writes past (call_get k ∷ calls) =
      last_write dec k past ∷ last_writes (call_get k ∷ past) calls
  last_writes past (call_push k v ∷ calls) = last_writes (call_push k v ∷ past) calls
  last_writes past (call_remove k ∷ calls) = last_writes (call_remove k ∷ past) calls

module _ {K V : Type 0} {dec : Discrete K} {e : Eviction K V} (p : IsPolicy dec e)
    (hash_one : K → ℕ) where
  abbrev HoldsAll : ℕ → List (List (K × V)) → List (Call K V) → Type 0
  HoldsAll n ls past = (k : K) → find p hash_one n ls k ≡ last_write dec k past

  abbrev AllShort : ℕ → ℕ → List (List (K × V)) → Type 0
  AllShort m n ls = (k : K) → length (list_of p hash_one n ls k) ≤ m

  module _ {cap n : ℕ} {c : Cache e} {ls : List (List (K × V))}
      (r : IsSpreadOf p hash_one cap n c ls) where
    replaced-AllShort :
        (k : K) (l : List (K × V)) (m m' : ℕ)
        → AllShort m n ls
        → m ≤ m'
        → length l ≤ m'
        → AllShort m' n (replace p hash_one n ls k l)
    replaced-AllShort k l m m' a h own j = elim (Bool-cases (hash_one k % n == hash_one j % n)) [
      | inl b ↦ rw (list_of-replace p hash_one r k j l, b) own
      | inr b ↦ rw (list_of-replace p hash_one r k j l, b) (omega (arith, a j))
    ]

    -- A call of `k` that changes its list.
    replaced-HoldsAll :
        (k : K) (l : List (K × V)) (past past' : List (Call K V))
        → HoldsAll n ls past
        → ((j : K)
            → j ≢ k
            → (Assoc.get dec j l ≡ Assoc.get dec j (list_of p hash_one n ls k))
              × (last_write dec j past' ≡ last_write dec j past))
        → Assoc.get dec k l ≡ last_write dec k past'
        → HoldsAll n (replace p hash_one n ls k l) past'
    replaced-HoldsAll k l past past' f others own j =
        elim (Bool-cases (hash_one k % n == hash_one j % n)) [
          | inl h ↦ elim (dec j k) [
            | yes e ↦
                subst
                  (λ i. find p hash_one n (replace p hash_one n ls k l) i ≡ last_write dec i past')
                  (sym e) (rw (find-replace p hash_one r k k l, ==_refl (hash_one k % n)) own)
            | no ne ↦
                rw (find-replace p hash_one r k j l, h)
                  ((others j ne).0 ∙ same_find p hash_one r k j h ∙ f j ∙ sym (others j ne).1)
          ]
          | inr h ↦
              rw (find-replace p hash_one r k j l, h)
                (f j ∙ sym (others j (other_key p hash_one r k j h)).1)
        ]

    push-HoldsAll :
        (k : K) (v : V) (past : List (Call K V)) (m : ℕ)
        → m < cap
        → HoldsAll n ls past
        → AllShort m n ls
        → HoldsAll n
            (replace p hash_one n ls k (p.push_list cap k v (list_of p hash_one n ls k)))
            (call_push k v ∷ past)
          × AllShort
              (suc m)
              n
              (replace p hash_one n ls k (p.push_list cap k v (list_of p hash_one n ls k)))
    push-HoldsAll k v past m h f a =
        let l = list_of p hash_one n ls k in
        let roomy : length l < cap = omega (arith, a k) in
        (
          replaced-HoldsAll k _ past (call_push k v ∷ past) f
              (λ j ne. (p.roomy-push_list cap k j v l ne roomy, if_neg (dec j k) ne _ _))
              (p.get-push_list cap k v _ (Unique-list_of p hash_one r k)
                ∙ sym (if_pos (dec k k) refl _ _)),
          replaced-AllShort k _ m (suc m) a (omega arith)
              (omega (arith, p.length-push_list cap k v l roomy, a k)),
        )

  replies_after-last_writes :
      {cap n : ℕ} (calls past : List (Call K V)) (m : ℕ) {c : Cache e} {ls : List (List (K × V))}
      → IsSpreadOf p hash_one cap n c ls
      → HoldsAll n ls past
      → AllShort m n ls
      → m + pushes calls ≤ cap
      → replies_after p hash_one cap n ls calls ≡ last_writes dec past calls
  replies_after-last_writes [] past m r f a h = refl
  replies_after-last_writes (call_push k v ∷ calls) past m r f a h =
      let (f', a') = push-HoldsAll r k v past m (omega arith) f a in
      replies_after-last_writes calls _ (suc m) (push-IsSpreadOf p hash_one r k v).2 f' a'
        (omega arith)
  replies_after-last_writes (call_get k ∷ calls) past m {ls = ls} r f a h = rw (f k) (
      ap (λ rs. last_write dec k past ∷ rs)
        (replies_after-last_writes calls _ m (get-IsSpreadOf p hash_one r k).2
          (replaced-HoldsAll r k _ past (call_get k ∷ past) f (λ j ne. (p.get-get_list k j _, refl))
            (p.get-get_list k k _ ∙ f k))
          (replaced-AllShort r k _ m m a (omega arith)
            (omega (arith, p.length-get_list k (list_of p hash_one _ ls k), a k)))
          h))
  replies_after-last_writes (call_remove k ∷ calls) past m {ls = ls} r f a h =
      replies_after-last_writes calls _ m (remove-IsSpreadOf p hash_one r k).2
        (replaced-HoldsAll r k _ past (call_remove k ∷ past) f
          (λ j ne. (Assoc.get-remove_ne dec k j _ ne, if_neg (dec j k) ne _ _))
          (Assoc.get-remove_self dec k _ (Unique-list_of p hash_one r k)
            ∙ sym (if_pos (dec k k) refl _ _)))
        (replaced-AllShort r k _ m m a (omega arith)
          (omega (arith, length-remove_le dec k (list_of p hash_one _ ls k), a k)))
        h

  pub list_of-empties : (n : ℕ) (k : K) → list_of p hash_one n (empties n) k ≡ []
  list_of-empties n k = at_index n (hash_one k % n)
    where
      at_index : (m i : ℕ) → or_empty p hash_one (get_elem? (empties {A = K × V} m) i) ≡ []
      at_index zero i = refl
      at_index (suc m) zero = refl
      at_index (suc m) (suc i) = at_index m i

  pub new-last_writes :
      (capacity shards : ℕ) (calls : List (Call K V))
      → 0 < shards
      → pushes calls ≤ capacity_per_shard capacity shards
      → replies_after p hash_one (capacity_per_shard capacity shards) shards (empties shards) calls
        ≡ last_writes dec [] calls
  new-last_writes capacity shards calls h few =
      let (_, _, r) = build-IsSpreadOf p hash_one capacity shards h in
      replies_after-last_writes calls [] 0 r (λ k. ap (Assoc.get dec k) (list_of-empties shards k))
        (λ k. rw (list_of-empties shards k) (omega arith)) (rw (zero_add (pushes calls)) few)

  -- A cache over any policy that keeps the promises of the trait, built with at least one shard,
  -- runs any sequence of calls with at most capacity / shards + 1 pushes, in 64 bits, without a
  -- panic, and every read returns what a map without a bound returns, however the hash spreads the
  -- keys: the value of the last push of the key, or nothing if there is none or the key was removed
  -- since.
  pub run-last_writes :
      (capacity shards : ℕ) (calls : List (Call K V))
      → 0 < shards
      → pushes calls ≤ capacity_per_shard capacity shards
      → (c c' : Cache e) × (build e capacity shards ≡ some c)
        × (run e hash_one c calls ≡ some (c', last_writes dec [] calls))
  run-last_writes capacity shards calls h few =
      let (c, c', built, ran, _) = size-run p hash_one capacity shards calls h in
      (c, c', built, ran ∙ ap (λ rs. some (c', rs)) (new-last_writes capacity shards calls h few))
