-- ===== src/Sharded/Lru/Buffer.antt =====
-- The buffer `recent_nodes_idx` of src/sharded/eviction/lru.rs under concurrent calls.
use test_thread_safe_lru_cac.Base.{
  ℕ, ◌+◌, ◌<◌, ◌≡◌, Option, some, List, [], ◌∷◌, length, arith, length-append, Option-cases, inl,
  inr, Bool,
}
use test_thread_safe_lru_cac.Assoc
use test_thread_safe_lru_cac.Sharded.Slots.{slot}
use test_thread_safe_lru_cac.Sharded.Lru.{
  Lru, new, get_read, promote_nodes, handle_recent_used, push_inner, push, remove_node, remove,
}
use test_thread_safe_lru_cac.Sharded.Lru.Concurrent.{
  System, Event, step_read, step_flush, step_push, step_remove, step_contains, step_len,
  step_is_empty, Reach, start, later, waiting_after,
}

module _ {K V : Type 0} where
  pub recent_flush : (c c' : Lru K V) → handle_recent_used c ≡ some c' → c'.recent_nodes_idx ≡ []
  unfolding handle_recent_used
  recent_flush c c' e = elim (Option-cases (promote_nodes c.inner c.recent_nodes_idx)) [
    | inl o ↦ absurd (ground arith)
    | inr (inner, o) ↦ ground arith
  ]

module _ {K V : Type 0} (dec : Discrete K) where
  recent_push :
      (c c' : Lru K V) (k : K) (v : V) → push dec c k v ≡ some c' → c'.recent_nodes_idx ≡ []
  unfolding push
  recent_push c c' k v e = elim (Option-cases (handle_recent_used c)) [
    | inl o ↦ absurd (ground arith)
    | inr (d, o) ↦ elim (Option-cases (push_inner dec d.inner d.capacity k v)) [
      | inl p ↦ absurd (ground arith)
      | inr (inner, p) ↦ ground (arith, recent_flush c d o)
    ]
  ]

  recent_remove :
      (c c' : Lru K V) (k : K) → remove dec c k ≡ some c' → c'.recent_nodes_idx ≡ c.recent_nodes_idx
  unfolding remove
  recent_remove c c' k e = elim (Option-cases (Assoc.get dec k c.inner.map)) [
    | inl o ↦ ground arith
    | inr (a, o) ↦ elim (Option-cases (remove_node dec c.inner a)) [
      | inl p ↦ absurd (ground arith)
      | inr (inner, p) ↦ ground arith
    ]
  ]

  recent_read :
      (c c' : Lru K V) (k : K) (hit : Option (V × Bool)) (w : ℕ)
      → get_read dec c k ≡ some (c', hit)
      → length c.recent_nodes_idx < 64 + w
      → length c'.recent_nodes_idx < 64 + waiting_after hit w
  unfolding get_read
  recent_read c c' k hit w e h = elim (Option-cases (Assoc.get dec k c.inner.map)) [
    | inl o ↦ ground arith
    | inr (a, o) ↦ elim (Option-cases (slot c.inner.nodes a)) [
      | inl p ↦ absurd (ground arith)
      | inr (n, p) ↦ ground (arith, length-append c.recent_nodes_idx (a ∷ []))
    ]
  ]

  -- In every reachable state of one LRU shard, under any interleaving of any number of threads, the
  -- buffer of recorded reads holds fewer than 64 slots plus one for each reader that waits to flush
  -- it.
  pub length-Reach :
      (cap : ℕ) {past : List (Event K V)} {s : System K V}
      → Reach dec cap past s
      → length s.cache.recent_nodes_idx < 64 + s.waiting
  unfolding new
  length-Reach cap start = omega arith
  length-Reach cap (later {s} {t} reach (step_read {c'} k hit e)) =
      recent_read s.cache c' k hit s.waiting e (length-Reach cap reach)
  length-Reach cap (later {s} {t} reach (step_flush {c'} e f)) =
      ground (arith, recent_flush s.cache c' f)
  length-Reach cap (later {s} {t} reach (step_push {c'} k v e)) =
      ground (arith, recent_push s.cache c' k v e)
  length-Reach cap (later {s} {t} reach (step_remove {c'} k e)) =
      ground (arith, recent_remove s.cache c' k e, length-Reach cap reach)
  length-Reach cap (later reach (step_contains k)) = length-Reach cap reach
  length-Reach cap (later reach step_len) = length-Reach cap reach
  length-Reach cap (later reach step_is_empty) = length-Reach cap reach
