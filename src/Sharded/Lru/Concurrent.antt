-- ===== src/Sharded/Lru/Concurrent.antt =====
-- The LRU policy of src/sharded/eviction/lru.rs under concurrent calls. A call that takes a lock is
-- a step; `get` is two, since it gives the read lock back before it takes the write lock to flush,
-- and other threads may run in between. Reads that share the read lock are ordered by their pushes
-- into the buffer.
use test_thread_safe_lru_cac.Base.{
  ℕ, suc, ◌≡◌, refl, Bool, true, false, Option, none, some, List, [], ◌∷◌, ◌==◌, is_some, length,
  same_result,
}
use test_thread_safe_lru_cac.Assoc
use test_thread_safe_lru_cac.Spec.{lru_get, lru_push}
use test_thread_safe_lru_cac.Sharded.Lru.{
  Lru, new, get_read, handle_recent_used, push, remove, contains, len, is_empty,
}
use test_thread_safe_lru_cac.Sharded.Lru.Refine.{
  Represents, new-Represents, handle_recent_used-Represents,
}
use test_thread_safe_lru_cac.Sharded.Lru.Methods.{
  marked, get_read-Represents, push-Represents, remove-Represents, contains-Represents,
  len-Represents,
}

-- The policy and the number of readers that wait for the write lock, to flush the buffer.
pub record System (K V : Type 0) : Type 0 where
  pub cache : Lru K V
  pub waiting : ℕ

-- What a step shows: a read shows what it returns.
pub data Event (K V : Type 0) : Type 0 where
  event_read : K → Option V → Event K V
  event_flush : Event K V
  event_push : K → V → Event K V
  event_remove : K → Event K V
  event_contains : K → Bool → Event K V
  event_len : ℕ → Event K V
  event_is_empty : Bool → Event K V

abbrev pub reply_of : {V : Type 0} → Option (V × Bool) → Option V
reply_of none = none
reply_of (some (v, due)) = some v

-- A read that finds the buffer due waits for the write lock.
abbrev pub waiting_after : {V : Type 0} → Option (V × Bool) → ℕ → ℕ
waiting_after (some (v, true)) w = suc w
waiting_after (some (v, false)) w = w
waiting_after none w = w

pub data Step {K V : Type 0} (dec : Discrete K) (s : System K V)
    : Event K V → System K V → Type 0 where
  step_read :
      {c' : Lru K V} (k : K) (hit : Option (V × Bool))
      → get_read dec s.cache k ≡ some (c', hit)
      → Step dec s
          (event_read k (reply_of hit))
          (record { cache = c'; waiting = waiting_after hit s.waiting })
  step_flush :
      {c' : Lru K V} {w : ℕ}
      → s.waiting ≡ suc w
      → handle_recent_used s.cache ≡ some c'
      → Step dec s event_flush (record { cache = c'; waiting = w })
  step_push :
      {c' : Lru K V} (k : K) (v : V)
      → push dec s.cache k v ≡ some c'
      → Step dec s (event_push k v) (record { cache = c'; waiting = s.waiting })
  step_remove :
      {c' : Lru K V} (k : K)
      → remove dec s.cache k ≡ some c'
      → Step dec s (event_remove k) (record { cache = c'; waiting = s.waiting })
  step_contains : (k : K) → Step dec s (event_contains k (contains dec s.cache k)) s
  step_len : Step dec s (event_len (len s.cache)) s
  step_is_empty : Step dec s (event_is_empty (is_empty s.cache)) s

-- Any interleaving of any number of threads, from a new cache.
pub data Reach {K V : Type 0} (dec : Discrete K) (cap : ℕ)
    : List (Event K V) → System K V → Type 0 where
  start : Reach dec cap [] (record { cache = new cap; waiting = 0 })
  later :
      {past : List (Event K V)} {s t : System K V} {ev : Event K V}
      → Reach dec cap past s
      → Step dec s ev t
      → Reach dec cap (ev ∷ past) t

-- The specification: every event acts at once on the list of entries, and a flush does nothing.
module _ {K V : Type 0} (dec : Discrete K) (cap : ℕ) where
  abbrev pub entries_after : List (Event K V) → List (K × V)
  entries_after [] = []
  entries_after (event_read k o ∷ past) = lru_get dec k (entries_after past)
  entries_after (event_flush ∷ past) = entries_after past
  entries_after (event_push k v ∷ past) = lru_push dec cap k v (entries_after past)
  entries_after (event_remove k ∷ past) = Assoc.remove dec k (entries_after past)
  entries_after (event_contains k b ∷ past) = entries_after past
  entries_after (event_len n ∷ past) = entries_after past
  entries_after (event_is_empty b ∷ past) = entries_after past

  -- Every read and query returned what the events before it had left.
  abbrev pub IsExplained : List (Event K V) → Type 0
  IsExplained [] = Unit
  IsExplained (event_read k o ∷ past) =
      (o ≡ Assoc.get dec k (entries_after past)) × IsExplained past
  IsExplained (event_flush ∷ past) = IsExplained past
  IsExplained (event_push k v ∷ past) = IsExplained past
  IsExplained (event_remove k ∷ past) = IsExplained past
  IsExplained (event_contains k b ∷ past) =
      (b ≡ is_some (Assoc.get dec k (entries_after past))) × IsExplained past
  IsExplained (event_len n ∷ past) = (n ≡ length (entries_after past)) × IsExplained past
  IsExplained (event_is_empty b ∷ past) =
      (b ≡ (length (entries_after past) == 0)) × IsExplained past

  reply_of-marked : (due : Bool) (o : Option V) → reply_of (marked due o) ≡ o
  reply_of-marked due none = refl
  reply_of-marked due (some v) = refl

  Step-Represents :
      {s t : System K V} {ev : Event K V} (past : List (Event K V))
      → Step dec s ev t
      → Represents dec cap s.cache (entries_after past)
      → IsExplained past
      → Represents dec cap t.cache (entries_after (ev ∷ past)) × IsExplained (ev ∷ past)
  Step-Represents {s} past (step_read k hit e) r x =
      let (c1, due, e1, r1) = get_read-Represents dec cap k r in
      same_result {A = Lru K V × Option (V × Bool)}
        (λ z.
          Represents dec cap z.0 (lru_get dec k (entries_after past))
          × ((reply_of z.1 ≡ Assoc.get dec k (entries_after past)) × IsExplained past))
        (
          (c1, marked due (Assoc.get dec k (entries_after past))),
          e1,
          (r1, (reply_of-marked due _, x)),
        )
        e
  Step-Represents past (step_flush e f) r x =
      same_result (λ z. Represents dec cap z (entries_after past) × IsExplained past)
        (let (c1, e1, r1, _) = handle_recent_used-Represents dec cap r in (c1, e1, (r1, x))) f
  Step-Represents past (step_push k v e) r x =
      same_result
        (λ z. Represents dec cap z (lru_push dec cap k v (entries_after past)) × IsExplained past)
        (let (c1, e1, r1) = push-Represents dec cap k v r in (c1, e1, (r1, x))) e
  Step-Represents past (step_remove k e) r x =
      same_result
        (λ z. Represents dec cap z (Assoc.remove dec k (entries_after past)) × IsExplained past)
        (let (c1, e1, r1) = remove-Represents dec cap k r in (c1, e1, (r1, x))) e
  Step-Represents past (step_contains k) r x = (r, (contains-Represents dec cap r k, x))
  Step-Represents past step_len r x = (r, ((len-Represents dec cap r).0, x))
  Step-Represents past step_is_empty r x = (r, ((len-Represents dec cap r).1, x))

  -- In every interleaving of reads, queries, delayed flushes, pushes and removals of any number of
  -- threads on one new LRU shard, every read and query returns what the LRU specification says
  -- after the events before it, and the shard stands for the entries they left.
  pub Reach-IsExplained :
      {past : List (Event K V)} {s : System K V}
      → Reach dec cap past s
      → Represents dec cap s.cache (entries_after past) × IsExplained past
  Reach-IsExplained start = (new-Represents dec cap, tt)
  Reach-IsExplained (later {past} reach step) =
      let (r, x) = Reach-IsExplained reach in Step-Represents past step r x

  -- In every reachable state of one LRU shard, a read of every key returns what the LRU
  -- specification finds, and it, every push, every removal and a flush run without a panic.
  pub Reach-progress :
      {past : List (Event K V)} {s : System K V}
      → Reach dec cap past s
      → ((k : K)
          → (t : System K V) × Step dec s (event_read k (Assoc.get dec k (entries_after past))) t)
        × ((k : K) (v : V) → (t : System K V) × Step dec s (event_push k v) t)
        × ((k : K) → (t : System K V) × Step dec s (event_remove k) t)
        × ((c' : Lru K V) × (handle_recent_used s.cache ≡ some c'))
  Reach-progress {past} {s} reach =
      let r = (Reach-IsExplained reach).0 in
      (
        λ k.
            let (c1, due, e1, r1) = get_read-Represents dec cap k r in
            let found = Assoc.get dec k (entries_after past) in
            let step : Step dec s (event_read k (reply_of (marked due found))) _ =
              step_read k (marked due found) e1 in
            (_, rw (reply_of-marked due found) at step),
        λ k v. let (c1, e1, r1) = push-Represents dec cap k v r in (_, step_push k v e1),
        λ k. let (c1, e1, r1) = remove-Represents dec cap k r in (_, step_remove k e1),
        let (c1, e1, r1, _) = handle_recent_used-Represents dec cap r in (c1, e1),
      )
