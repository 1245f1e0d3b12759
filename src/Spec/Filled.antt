-- ===== src/Spec/Filled.antt =====
-- An LRU cache while it is filled with the keys from 0 on.
use test_thread_safe_lru_cac.Base.{
  ℕ, suc, ◌≤◌, ◌<◌, ◌≡◌, refl, true, none, List, [], length, is_some, arith, ℕ_discrete,
}
use test_thread_safe_lru_cac.Assoc
use test_thread_safe_lru_cac.Spec.{lru_push, lru_push_roomy}

module _ {V : Type 0} where
  -- All keys below `n` are cached.
  abbrev pub AllCached : ℕ → List (ℕ × V) → Type 0
  AllCached n l = (k : ℕ) → k < n → is_some (Assoc.get ℕ_discrete k l) ≡ true

  -- The keys below `n` and no others.
  pub record CachedBelow (n : ℕ) (l : List (ℕ × V)) : Type 0 where
    pub cached : AllCached n l
    pub others : (k : ℕ) → n ≤ k → Assoc.get ℕ_discrete k l ≡ none
    pub count_is : length l ≡ n

  pub push-CachedBelow :
      (cap n : ℕ) (v : V) (l : List (ℕ × V))
      → n < cap
      → CachedBelow n l
      → CachedBelow (suc n) (lru_push ℕ_discrete cap n v l)
  push-CachedBelow cap n v l h r =
      rw
        (lru_push_roomy ℕ_discrete cap n v l (r.others n (omega arith)) (omega (arith, r.count_is)))
        (record {
          cached = λ k lt. ground (arith, r.cached k);
          others = λ k le. ground (arith, r.others k);
          count_is = omega (arith, r.count_is);
        })

  pub nothing_cached : CachedBelow 0 []
  nothing_cached = record {
    cached = λ k lt. absurd (omega arith);
    others = λ k le. refl;
    count_is = refl;
  }
