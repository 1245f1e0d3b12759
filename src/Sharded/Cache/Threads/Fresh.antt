-- ===== src/Sharded/Cache/Threads/Fresh.antt =====
-- What the readers of the whole cache get, against the writes alone, whichever shards and threads
-- they come from.
use test_thread_safe_lru_cac.Base.{
  ℕ, ◌%◌, ◌≡◌, ◌≢◌, ◌⊎◌, inl, inr, refl, ap, ◌∙◌, ◌==◌, if◌then◌else◌, is_some, true, false, Bool,
  Option, none, some, List, [], ◌∷◌, ite, if_neg, arith, Bool-cases,
}
use test_thread_safe_lru_cac.Sharded.Lru.Concurrent.{
  Event, event_read, event_flush, event_push, event_remove, event_contains, event_len,
  event_is_empty,
}
use test_thread_safe_lru_cac.Sharded.Lru.Fresh as ShardFresh
use test_thread_safe_lru_cac.Sharded.Lru.Threads.{System}
use test_thread_safe_lru_cac.Sharded.Cache.Threads.{turn, shown, Reach, start, later, events_of}
use test_thread_safe_lru_cac.Sharded.Cache.Threads.Refine.{key_of_event, key-event, Reach-CacheInv}
use test_thread_safe_lru_cac.Sharded.Cache.Threads.Explained.{
  IsCoherent, IsAnswer, find_after, Reach-IsCoherent,
}

elsewhere :
    {K : Type 0} (hash_one : K → ℕ) (n : ℕ) (k j : K) (i : ℕ)
    → (hash_one k % n == i) ≡ false
    → hash_one j % n ≡ i
    → k ≢ j
elsewhere hash_one n k j i e at p = ground (arith, ap (λ m. hash_one m % n) p)

module _ {K V : Type 0} (dec : Discrete K) where
  -- The value that the events before wrote last, on any shard.
  abbrev pub last_write : K → List (ℕ × Event K V) → Option V
  last_write k [] = none
  last_write k ((i, event_push j v) ∷ past) = ite (dec k j) (some v) (last_write k past)
  last_write k ((i, event_remove j) ∷ past) = ite (dec k j) none (last_write k past)
  last_write k (_ ∷ past) = last_write k past

  -- A read returns nothing or the last value written, and a key that `contains` has was written.
  abbrev pub IsFreshAnswer : Event K V → List (ℕ × Event K V) → Type 0
  IsFreshAnswer (event_read k o) past = (o ≡ none) ⊎ (o ≡ last_write k past)
  IsFreshAnswer (event_contains k b) past = (b ≡ false) ⊎ (b ≡ is_some (last_write k past))
  IsFreshAnswer _ past = Unit

  abbrev pub AllFresh : List (ℕ × Event K V) → Type 0
  AllFresh [] = Unit
  AllFresh ((j, ev) ∷ past) = IsFreshAnswer ev past × AllFresh past

  module _ (hash_one : K → ℕ) (n : ℕ) where
    -- Every event of a key stands on the shard that its hash names.
    abbrev IsRouted : List (ℕ × Event K V) → Type 0
    IsRouted [] = Unit
    IsRouted ((j, ev) ∷ past) =
        ((k : K) → key_of_event (some ev) ≡ some k → hash_one k % n ≡ j) × IsRouted past

    passed :
        (k : K) (b : Bool) (ev : Event K V) (rest : List (Event K V))
        → ShardFresh.last_write dec k (ev ∷ rest) ≡ ShardFresh.last_write dec k rest
        → ShardFresh.last_write dec k (if b then ev ∷ rest else rest)
          ≡ ShardFresh.last_write dec k rest
    passed k true ev rest e = e
    passed k false ev rest e = refl

    -- The last write of a key stands on its shard.
    last_write-events_of :
        (k : K) (past : List (ℕ × Event K V))
        → IsRouted past
        → ShardFresh.last_write dec k (events_of (hash_one k % n) past) ≡ last_write k past
    last_write-events_of k [] r = refl
    last_write-events_of k ((i, event_push j v) ∷ past) (at, r) =
        elim (Bool-cases (hash_one k % n == i)) [
          | inl e ↦ rw (e, last_write-events_of k past r) refl
          | inr e ↦
              rw (e, if_neg (dec k j) (elsewhere hash_one n k j i e (at j refl)))
                (last_write-events_of k past r)
        ]
    last_write-events_of k ((i, event_remove j) ∷ past) (at, r) =
        elim (Bool-cases (hash_one k % n == i)) [
          | inl e ↦ rw (e, last_write-events_of k past r) refl
          | inr e ↦
              rw (e, if_neg (dec k j) (elsewhere hash_one n k j i e (at j refl)))
                (last_write-events_of k past r)
        ]
    last_write-events_of k ((i, event_read j o) ∷ past) (at, r) =
        passed k (hash_one k % n == i) (event_read j o) _ refl ∙ last_write-events_of k past r
    last_write-events_of k ((i, event_contains j b) ∷ past) (at, r) =
        passed k (hash_one k % n == i) (event_contains j b) _ refl ∙ last_write-events_of k past r
    last_write-events_of k ((i, event_flush) ∷ past) (at, r) =
        passed k (hash_one k % n == i) event_flush _ refl ∙ last_write-events_of k past r
    last_write-events_of k ((i, event_len m) ∷ past) (at, r) =
        passed k (hash_one k % n == i) (event_len m) _ refl ∙ last_write-events_of k past r
    last_write-events_of k ((i, event_is_empty b) ∷ past) (at, r) =
        passed k (hash_one k % n == i) (event_is_empty b) _ refl ∙ last_write-events_of k past r

    module _ (cap : ℕ) where
      found-IsCurrent :
          (k : K) (past : List (ℕ × Event K V))
          → IsRouted past
          → (find_after dec hash_one cap n past k ≡ none)
            ⊎ (find_after dec hash_one cap n past k ≡ last_write k past)
      found-IsCurrent k past r =
          rw (← last_write-events_of k past r)
            (ShardFresh.entries_after-IsCurrent dec cap k (events_of (hash_one k % n) past))

      answer-IsFreshAnswer :
          (j : ℕ) (ev : Event K V) (past : List (ℕ × Event K V))
          → IsRouted past
          → IsAnswer dec hash_one cap n j ev past
          → IsFreshAnswer ev past
      answer-IsFreshAnswer j (event_read k o) past r e = elim (found-IsCurrent k past r) [
        | inl f ↦ inl (e ∙ f)
        | inr f ↦ inr (e ∙ f)
      ]
      answer-IsFreshAnswer j (event_contains k b) past r e = elim (found-IsCurrent k past r) [
        | inl f ↦ inl (e ∙ ap is_some f)
        | inr f ↦ inr (e ∙ ap is_some f)
      ]
      answer-IsFreshAnswer j _ past r e = tt

      coherent-AllFresh :
          (past : List (ℕ × Event K V))
          → IsRouted past
          → IsCoherent dec hash_one cap n past
          → AllFresh past
      coherent-AllFresh [] r x = tt
      coherent-AllFresh ((j, ev) ∷ past) (at, r) (a, x) =
          (answer-IsFreshAnswer j ev past r a, coherent-AllFresh past r x)

      module _ (threads : ℕ) where
        shown-IsRouted :
            (j : ℕ) (ev : Option (Event K V)) (past : List (ℕ × Event K V))
            → ((k : K) → key_of_event ev ≡ some k → hash_one k % n ≡ j)
            → IsRouted past
            → IsRouted (shown j ev past)
        shown-IsRouted j none past at r = r
        shown-IsRouted j (some ev) past at r = (at, r)

        Reach-IsRouted :
            {past : List (ℕ × Event K V)} {s : List (System K V)}
            → Reach dec hash_one cap threads n past s
            → IsRouted past
        Reach-IsRouted start = tt
        Reach-IsRouted (later {past} {ev = ev} reach (turn j i {sys} {p = p} at_j at_i mv route)) =
            let shard = (Reach-CacheInv dec hash_one cap threads n reach).shard j sys at_j in
            shown-IsRouted j ev past (λ k e. shard.routed i p at_i k (key-event dec mv k e))
              (Reach-IsRouted reach)

        -- In every execution of any number of threads on a new cache of LRU shards, one lock
        -- operation at a time, every get returns nothing or the value that the last push of its key
        -- before it wrote, and nothing if the key was removed since, and contains is true only of a
        -- key whose last write is a push.
        pub Reach-AllFresh :
            {past : List (ℕ × Event K V)} {s : List (System K V)}
            → Reach dec hash_one cap threads n past s
            → AllFresh past
        Reach-AllFresh {past} reach =
            coherent-AllFresh past (Reach-IsRouted reach)
              (Reach-IsCoherent dec hash_one cap n threads reach)
