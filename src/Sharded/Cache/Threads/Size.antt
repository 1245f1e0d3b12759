-- ===== src/Sharded/Cache/Threads/Size.antt =====
-- `Cache::size` under concurrent calls: it asks one shard after the other, and every shard may
-- change meanwhile.
use test_thread_safe_lru_cac.Base.{
  ℕ, suc, ◌+◌, ◌*◌, ◌≤◌, ◌<◌, max, ◌≡◌, true, ◌==◌, if◌then◌else◌, List, [], ◌∷◌, length, arith,
}
use test_thread_safe_lru_cac.Chain.{has}
use test_thread_safe_lru_cac.Sharded.Lru.Concurrent.{Event, event_len}
use test_thread_safe_lru_cac.Sharded.Lru.Threads.{System}
use test_thread_safe_lru_cac.Sharded.Cache.{capacity_per_shard}
use test_thread_safe_lru_cac.Sharded.Cache.Runs.{per_shard_le}
use test_thread_safe_lru_cac.Sharded.Cache.Threads.{Reach}
use test_thread_safe_lru_cac.Sharded.Cache.Threads.Explained.{IsCoherent, Reach-IsCoherent}

-- The loop of `size`, where the shards have reported these lengths.
abbrev pub add_lens : ℕ → List ℕ → ℕ
add_lens size [] = size
add_lens size (m ∷ ms) = add_lens (size + m) ms

module _ {K V : Type 0} where
  -- The lengths that shard `j` has reported so far.
  abbrev pub lens_of : ℕ → List (ℕ × Event K V) → List ℕ
  lens_of j [] = []
  lens_of j ((i, event_len m) ∷ past) = if j == i then m ∷ lens_of j past else lens_of j past
  lens_of j ((i, _) ∷ past) = lens_of j past

  -- Shard `j` and those after it have reported these lengths, each at some moment.
  abbrev pub AreReported : ℕ → List ℕ → List (ℕ × Event K V) → Type 0
  AreReported j [] past = Unit
  AreReported j (m ∷ ms) past = (has m (lens_of j past) ≡ true) × AreReported (suc j) ms past

module _ {K V : Type 0} (dec : Discrete K) (hash_one : K → ℕ) where
  module _ (cap n : ℕ) where
    reported_le :
        (j m : ℕ) (past : List (ℕ × Event K V))
        → IsCoherent dec hash_one cap n past
        → has m (lens_of j past) ≡ true
        → m ≤ max 1 cap
    reported_le j m [] x h = absurd (ground arith)
    reported_le j m ((i, event_len k) ∷ past) x h = ground (arith, reported_le j m past x.1, x.0.1)
    reported_le j m ((i, _) ∷ past) x h = reported_le j m past x.1 h

    add_lens-le :
        (size j : ℕ) (lens : List ℕ) (past : List (ℕ × Event K V))
        → IsCoherent dec hash_one cap n past
        → AreReported j lens past
        → add_lens size lens ≤ size + length lens * max 1 cap
    add_lens-le size j [] past x r = omega arith
    add_lens-le size j (m ∷ ms) past x r =
        omega (arith, add_lens-le (size + m) (suc j) ms past x r.1, reported_le j m past x r.0)

  -- If every shard of a cache built with at least one shard has reported a length, each at a moment
  -- of its own while other threads ran, then the sum that size returns is at most capacity +
  -- shards.
  pub concurrent_size_le :
      (capacity shards threads : ℕ) {past : List (ℕ × Event K V)} {s : List (System K V)}
      (lens : List ℕ)
      → 0 < shards
      → Reach dec hash_one (capacity_per_shard capacity shards) threads shards past s
      → length lens ≡ shards
      → AreReported 0 lens past
      → add_lens 0 lens ≤ capacity + shards
  concurrent_size_le capacity shards threads {past} lens h reach same r =
      let bound =
        add_lens-le (capacity_per_shard capacity shards) shards 0 0 lens past
          (Reach-IsCoherent dec hash_one (capacity_per_shard capacity shards) shards threads reach)
          r in
      omega (arith, rw same at bound, per_shard_le capacity shards h)
