-- ===== src/Sharded/Cache/Fresh.antt =====
-- What a user of src/sharded/cache.rs reads back, against the writes alone: a cache may forget an
-- entry, but it never returns an old value.
pub mod Roomy
use test_thread_safe_lru_cac.Base.{
  ℕ, ◌+◌, ◌%◌, ◌≤◌, ◌<◌, ◌≡◌, ◌≢◌, ◌⊎◌, inl, inr, refl, sym, ap, ◌∙◌, Option, none, some, List, [],
  ◌∷◌, ◌==◌, ==_refl, ite, if_pos, true, false, zero, suc, subst, if_neg, arith, get_elem?,
  Bool-cases,
}
use test_thread_safe_lru_cac.Assoc
use test_thread_safe_lru_cac.Sharded.Eviction.{Eviction, IsPolicy}
use test_thread_safe_lru_cac.Sharded.Cache.{Cache, build, size, capacity_per_shard}
use test_thread_safe_lru_cac.Sharded.Cache.Shards.{empties}
use test_thread_safe_lru_cac.Sharded.Cache.Methods.{
  IsSpreadOf, list_of, find, replace, or_empty, find-replace, Unique-list_of, push-IsSpreadOf,
  get-IsSpreadOf, remove-IsSpreadOf,
}
use test_thread_safe_lru_cac.Sharded.Cache.Runs.{
  Call, call_push, call_get, call_remove, run, replies_after, size-run, build-IsSpreadOf,
}

module _ {K V : Type 0} (dec : Discrete K) where
  -- The value that the calls before wrote last, the most recent call first.
  abbrev pub last_write : K → List (Call K V) → Option V
  last_write k [] = none
  last_write k (call_push j v ∷ past) = ite (dec k j) (some v) (last_write k past)
  last_write k (call_get j ∷ past) = last_write k past
  last_write k (call_remove j ∷ past) = ite (dec k j) none (last_write k past)

  -- One reply for each read, and each of them is empty or the last value written.
  abbrev pub AllFresh : List (Call K V) → List (Call K V) → List (Option V) → Type 0
  AllFresh past [] [] = Unit
  AllFresh past [] (r ∷ rs) = ⊥
  AllFresh past (call_push k v ∷ calls) rs = AllFresh (call_push k v ∷ past) calls rs
  AllFresh past (call_remove k ∷ calls) rs = AllFresh (call_remove k ∷ past) calls rs
  AllFresh past (call_get k ∷ calls) [] = ⊥
  AllFresh past (call_get k ∷ calls) (r ∷ rs) =
      ((r ≡ none) ⊎ (r ≡ last_write k past)) × AllFresh (call_get k ∷ past) calls rs

module _ {K V : Type 0} {dec : Discrete K} {e : Eviction K V} (p : IsPolicy dec e)
    (hash_one : K → ℕ) where
  abbrev IsFresh : ℕ → List (List (K × V)) → List (Call K V) → Type 0
  IsFresh n ls past =
      (k : K) → (find p hash_one n ls k ≡ none) ⊎ (find p hash_one n ls k ≡ last_write dec k past)

  module _ {cap n : ℕ} {c : Cache e} {ls : List (List (K × V))}
      (r : IsSpreadOf p hash_one cap n c ls) where
    -- The list of the shard of `k`, for a key on the same shard.
    pub same_list :
        (k j : K)
        → (hash_one k % n == hash_one j % n) ≡ true
        → list_of p hash_one n ls k ≡ list_of p hash_one n ls j
    same_list k j h = ap (λ i. or_empty p hash_one (get_elem? ls i)) (ground arith)

    pub same_find :
        (k j : K)
        → (hash_one k % n == hash_one j % n) ≡ true
        → Assoc.get dec j (list_of p hash_one n ls k) ≡ find p hash_one n ls j
    same_find k j h = ap (Assoc.get dec j) (same_list k j h)

    pub other_key : (k j : K) → (hash_one k % n == hash_one j % n) ≡ false → j ≢ k
    other_key k j h e = ground (arith, ap (λ i. hash_one i % n) e)

    -- A call of `k` that changes its list.
    replaced-IsFresh :
        (k : K) (l : List (K × V)) (past past' : List (Call K V))
        → IsFresh n ls past
        → ((j : K)
            → j ≢ k
            → ((Assoc.get dec j l ≡ none)
                ⊎ (Assoc.get dec j l ≡ Assoc.get dec j (list_of p hash_one n ls k)))
              × (last_write dec j past' ≡ last_write dec j past))
        → (Assoc.get dec k l ≡ none) ⊎ (Assoc.get dec k l ≡ last_write dec k past')
        → IsFresh n (replace p hash_one n ls k l) past'
    replaced-IsFresh k l past past' f others own j =
        elim (Bool-cases (hash_one k % n == hash_one j % n)) [
          | inl h ↦ elim (dec j k) [
            | yes e ↦
                subst (λ i. Reads i) (sym e)
                  (rw (find-replace p hash_one r k k l, ==_refl (hash_one k % n)) own)
            | no ne ↦ rw (find-replace p hash_one r k j l, h) (kept j ne h)
          ]
          | inr h ↦ rw (find-replace p hash_one r k j l, h, (others j (other_key k j h)).1) (f j)
        ]
      where
        Reads : K → Type 0
        Reads i =
            (find p hash_one n (replace p hash_one n ls k l) i ≡ none)
            ⊎ (find p hash_one n (replace p hash_one n ls k l) i ≡ last_write dec i past')

        kept :
            (j : K)
            → j ≢ k
            → (hash_one k % n == hash_one j % n) ≡ true
            → (Assoc.get dec j l ≡ none) ⊎ (Assoc.get dec j l ≡ last_write dec j past')
        kept j ne h = elim ((others j ne).0) [
          | inl e ↦ inl e
          | inr e ↦ elim (f j) [
            | inl g ↦ inl (e ∙ same_find k j h ∙ g)
            | inr g ↦ inr (e ∙ same_find k j h ∙ g ∙ sym (others j ne).1)
          ]
        ]

    push-IsFresh :
        (k : K) (v : V) (past : List (Call K V))
        → IsFresh n ls past
        → IsFresh n
            (replace p hash_one n ls k (p.push_list cap k v (list_of p hash_one n ls k)))
            (call_push k v ∷ past)
    push-IsFresh k v past f =
        replaced-IsFresh k _ past (call_push k v ∷ past) f
          (λ j ne. (
            p.kept-push_list cap k j v _ (Unique-list_of p hash_one r k) ne,
            if_neg (dec j k) ne _ _,
          ))
          (inr (
            p.get-push_list cap k v _ (Unique-list_of p hash_one r k)
            ∙ sym (if_pos (dec k k) refl _ _)))

    remove-IsFresh :
        (k : K) (past : List (Call K V))
        → IsFresh n ls past
        → IsFresh n
            (replace p hash_one n ls k (Assoc.remove dec k (list_of p hash_one n ls k)))
            (call_remove k ∷ past)
    remove-IsFresh k past f =
        replaced-IsFresh k _ past (call_remove k ∷ past) f
          (λ j ne. (inr (Assoc.get-remove_ne dec k j _ ne), if_neg (dec j k) ne _ _))
          (inl (Assoc.get-remove_self dec k _ (Unique-list_of p hash_one r k)))

    get-IsFresh :
        (k : K) (past : List (Call K V))
        → IsFresh n ls past
        → IsFresh n
            (replace p hash_one n ls k (p.get_list k (list_of p hash_one n ls k)))
            (call_get k ∷ past)
    get-IsFresh k past f =
        replaced-IsFresh k _ past (call_get k ∷ past) f (λ j ne. (inr (p.get-get_list k j _), refl))
          (rw (p.get-get_list k k (list_of p hash_one n ls k)) (f k))

  replies_after-AllFresh :
      {cap n : ℕ} (calls past : List (Call K V)) {c : Cache e} {ls : List (List (K × V))}
      → IsSpreadOf p hash_one cap n c ls
      → IsFresh n ls past
      → AllFresh dec past calls (replies_after p hash_one cap n ls calls)
  replies_after-AllFresh [] past r f = tt
  replies_after-AllFresh (call_push k v ∷ calls) past r f =
      replies_after-AllFresh calls _ (push-IsSpreadOf p hash_one r k v).2
        (push-IsFresh r k v past f)
  replies_after-AllFresh (call_get k ∷ calls) past r f = (
    f k,
    replies_after-AllFresh calls _ (get-IsSpreadOf p hash_one r k).2 (get-IsFresh r k past f),
  )
  replies_after-AllFresh (call_remove k ∷ calls) past r f =
      replies_after-AllFresh calls _ (remove-IsSpreadOf p hash_one r k).2
        (remove-IsFresh r k past f)

  empties-IsFresh : (n : ℕ) → IsFresh n (empties n) []
  empties-IsFresh n k = inl (nothing n (hash_one k % n))
    where
      nothing : (m i : ℕ) → Assoc.get dec k (or_empty p hash_one (get_elem? (empties m) i)) ≡ none
      nothing zero i = refl
      nothing (suc m) zero = refl
      nothing (suc m) (suc i) = nothing m i

  -- A cache over any policy that keeps the promises of the trait, built with at least one shard,
  -- runs any sequence of pushes, reads and removals without a panic, every read returns what the
  -- lists of entries of the shards say, which is nothing or the value that the last push of the key
  -- wrote, and nothing if the key was removed since, and the size never exceeds capacity + shards.
  pub run-AllFresh :
      (capacity shards : ℕ) (calls : List (Call K V))
      → 0 < shards
      → (c c' : Cache e) × (build e capacity shards ≡ some c)
        × (run e hash_one c calls
            ≡ some (
              c',
              replies_after p hash_one
                  (capacity_per_shard capacity shards)
                  shards
                  (empties shards)
                  calls,
            ))
        × AllFresh dec [] calls (
            replies_after p hash_one
              (capacity_per_shard capacity shards)
              shards
              (empties shards)
              calls)
        × (size e c' ≤ capacity + shards)
  run-AllFresh capacity shards calls h =
      let (c, c', built, ran, bound) = size-run p hash_one capacity shards calls h in
      let (_, _, r) = build-IsSpreadOf p hash_one capacity shards h in
      (c, c', built, ran, replies_after-AllFresh calls [] r (empties-IsFresh shards), bound)
