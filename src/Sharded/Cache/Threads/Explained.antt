-- ===== src/Sharded/Cache/Threads/Explained.antt =====
-- What the callers of the whole cache see, and that no shard comes to a halt in the middle of its
-- calls.
use test_thread_safe_lru_cac.Base.{
  ℕ, ◌%◌, ◌≤◌, ◌<◌, max, ◌≡◌, refl, ◌==◌, is_some, Option, none, some, List, [], ◌∷◌, length,
  get_elem?, set, arith,
}
use test_thread_safe_lru_cac.Assoc
use test_thread_safe_lru_cac.Sharded.Lru.{Lru}
use test_thread_safe_lru_cac.Sharded.Lru.Methods.{len-Represents}
use test_thread_safe_lru_cac.Sharded.Lru.Concurrent.{
  Event, event_read, event_contains, event_len, event_is_empty, entries_after, IsExplained,
}
use test_thread_safe_lru_cac.Sharded.Lru.Threads
use test_thread_safe_lru_cac.Sharded.Lru.Threads.{Pc, Move, System, Guards}
use test_thread_safe_lru_cac.Sharded.Lru.Threads.Counts.{count}
use test_thread_safe_lru_cac.Sharded.Lru.Threads.Refine.{Step-Inv}
use test_thread_safe_lru_cac.Sharded.Lru.Threads.Refine
use test_thread_safe_lru_cac.Sharded.Lru.Threads.Calls.{rank}
use test_thread_safe_lru_cac.Sharded.Lru.Threads.Progress.{
  find-Mover, Advance, Mover-Advance, Advance-fewer,
}
use test_thread_safe_lru_cac.Sharded.Cache.Threads.{
  key_of_call, Step, turn, shown, Reach, start, later, events_of,
}
use test_thread_safe_lru_cac.Sharded.Cache.Threads.Refine.{
  CacheInv, key_of_event, key-event, Reach-CacheInv,
}

module _ {K V : Type 0} (dec : Discrete K) (hash_one : K → ℕ) (cap n : ℕ) where
  -- What the events leave in one shard, and for one key.
  abbrev pub entries_of : ℕ → List (ℕ × Event K V) → List (K × V)
  entries_of j past = entries_after dec cap (events_of j past)

  abbrev pub find_after : List (ℕ × Event K V) → K → Option V
  find_after past k = Assoc.get dec k (entries_of (hash_one k % n) past)

  abbrev pub IsAnswer : ℕ → Event K V → List (ℕ × Event K V) → Type 0
  IsAnswer j (event_read k o) past = o ≡ find_after past k
  IsAnswer j (event_contains k b) past = b ≡ is_some (find_after past k)
  IsAnswer j (event_len m) past = (m ≡ length (entries_of j past)) × (m ≤ max 1 cap)
  IsAnswer j (event_is_empty b) past = b ≡ (length (entries_of j past) == 0)
  IsAnswer j _ past = Unit

  -- Every read and query of the cache returned what the events before it had left.
  abbrev pub IsCoherent : List (ℕ × Event K V) → Type 0
  IsCoherent [] = Unit
  IsCoherent ((j, ev) ∷ past) = IsAnswer j ev past × IsCoherent past

  explained-IsAnswer :
      (j : ℕ) (ev : Event K V) (past : List (ℕ × Event K V))
      → IsExplained dec cap (ev ∷ events_of j past)
      → ((k : K) → key_of_event (some ev) ≡ some k → hash_one k % n ≡ j)
      → length (entries_of j past) ≤ max 1 cap
      → IsAnswer j ev past
  explained-IsAnswer j (event_read k o) past x route bound = rw (route k refl) x.0
  explained-IsAnswer j (event_contains k b) past x route bound = rw (route k refl) x.0
  explained-IsAnswer j (event_len m) past x route bound = (x.0, omega (arith, x.0))
  explained-IsAnswer j (event_is_empty b) past x route bound = x.0
  explained-IsAnswer j _ past x route bound = tt

  module _ (threads : ℕ) where
    Move-IsCoherent :
        {past : List (ℕ × Event K V)} {s : List (System K V)} (j i : ℕ) (sys : System K V)
        {p p' : Pc K V} {ev : Option (Event K V)} {c' : Lru K V}
        → CacheInv dec hash_one cap threads n past s
        → get_elem? s j ≡ some sys
        → get_elem? sys.threads i ≡ some p
        → Move dec (Threads.guards sys.threads) sys.cache p ev c' p'
        → IsCoherent past
        → IsCoherent (shown j ev past)
    Move-IsCoherent j i sys {ev = none} inv at_j at_i mv x = x
    Move-IsCoherent {past} j i sys {p = p} {ev = some ev} inv at_j at_i mv x =
        let shard = inv.shard j sys at_j in
        let before = Threads.Refine.Reach-Inv dec cap shard.own in
        let after = Threads.Refine.Step-Inv dec cap (Threads.turn i at_i mv) before in
        (
          explained-IsAnswer j ev past after.explained
              (λ k e. shard.routed i p at_i k (key-event dec mv k e))
              (len-Represents dec cap before.stands).2,
          x,
        )

    -- In every execution of any number of threads on a new cache of LRU shards, one lock operation
    -- at a time, every get and contains finds what the events of the shard of its key have left,
    -- whichever threads ran on the other shards, and every length that a shard reports is its
    -- number of entries, at most its capacity, or one where that is zero.
    pub Reach-IsCoherent :
        {past : List (ℕ × Event K V)} {s : List (System K V)}
        → Reach dec hash_one cap threads n past s
        → IsCoherent past
    Reach-IsCoherent start = tt
    Reach-IsCoherent (later reach (turn j i {sys} at_j at_i mv route)) =
        Move-IsCoherent j i sys (Reach-CacheInv dec hash_one cap threads n reach) at_j at_i mv
          (Reach-IsCoherent reach)

    no_key :
        {g : Guards} {c c' : Lru K V} {p p' : Pc K V} {ev : Option (Event K V)}
        → (mv : Move dec g c p ev c' p') → 0 < rank p
        → key_of_call mv ≡ none
    no_key (Move.call_get k) b = absurd (omega arith)
    no_key (Move.call_push k v) b = absurd (omega arith)
    no_key (Move.call_remove k) b = absurd (omega arith)
    no_key (Move.call_contains k) b = absurd (omega arith)
    no_key _ b = refl

    -- In every reachable state of the threads on a cache of LRU shards, on each shard on which some
    -- call has not returned, some thread in a call there can make a move of that call without a
    -- panic, which is no read lock while another thread wants to write there and is a step of the
    -- cache, and fewer moves are left of the calls of the shard after it.
    pub cache_no_deadlock :
        {past : List (ℕ × Event K V)} {s : List (System K V)} {sys : System K V} (j : ℕ)
        → Reach dec hash_one cap threads n past s
        → get_elem? s j ≡ some sys
        → 0 < count rank sys.threads
        → (ev : Option (Event K V)) × (t : System K V) × Advance dec sys ev t
          × Step dec hash_one s j ev (set s j t)
          × (count rank t.threads < count rank sys.threads)
    cache_no_deadlock {sys = sys} j reach at_j busy =
        let shard = (Reach-CacheInv dec hash_one cap threads n reach).shard j sys at_j in
        let m = find-Mover dec cap _ sys (Threads.Refine.Reach-Inv dec cap shard.own) busy in
        (
          m.ready.event,
          _,
          Mover-Advance dec cap m,
          turn j m.index at_j m.here m.ready.move
              (λ k e. absurd (ground (arith, no_key m.ready.move m.busy))),
          Advance-fewer dec cap (Mover-Advance dec cap m),
        )
