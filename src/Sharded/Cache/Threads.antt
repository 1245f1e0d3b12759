-- ===== src/Sharded/Cache/Threads.antt =====
-- src/sharded/cache.rs over LRU shards under concurrent calls, one lock operation at a time. A call
-- of a key goes to the shard that its hash names, and a thread is one of the threads of every shard
-- that it calls. A thread may have a call on several shards at once; in the code it has one at a time,
-- so that these executions are those of the code and more.
pub mod Explained
pub mod Fresh
pub mod Refine
pub mod Size
use test_thread_safe_lru_cac.Base.{
  ℕ, zero, suc, ◌%◌, ◌≡◌, ◌==◌, if◌then◌else◌, Option, none, some, List, [], ◌∷◌, get_elem?, set,
  length,
}
use test_thread_safe_lru_cac.Sharded.Lru.{Lru, new}
use test_thread_safe_lru_cac.Sharded.Lru.Concurrent.{Event}
use test_thread_safe_lru_cac.Sharded.Lru.Threads.{Pc, Move, System, Guards, guards, all_idle}

-- The key of a call that starts.
abbrev pub key_of_call :
    {K V : Type 0} {dec : Discrete K} {g : Guards} {c c' : Lru K V} {p p' : Pc K V}
    {ev : Option (Event K V)}
    → Move dec g c p ev c' p'
    → Option K
key_of_call (Move.call_get k) = some k
key_of_call (Move.call_push k v) = some k
key_of_call (Move.call_remove k) = some k
key_of_call (Move.call_contains k) = some k
key_of_call _ = none

-- A move on shard `j`.
pub data Step {K V : Type 0} (dec : Discrete K) (hash_one : K → ℕ) (s : List (System K V))
    : ℕ → Option (Event K V) → List (System K V) → Type 0 where
  turn :
      (j i : ℕ) {sys : System K V} {p p' : Pc K V} {ev : Option (Event K V)} {c' : Lru K V}
      → get_elem? s j ≡ some sys
      → get_elem? sys.threads i ≡ some p
      → (mv : Move dec (guards sys.threads) sys.cache p ev c' p')
      → ((k : K) → key_of_call mv ≡ some k → hash_one k % length s ≡ j)
      → Step dec hash_one s j ev (set s j (record { cache = c'; threads = set sys.threads i p' }))

abbrev pub new_shards : {K V : Type 0} → ℕ → ℕ → ℕ → List (System K V)
new_shards cap threads zero = []
new_shards cap threads (suc n) =
    record { cache = new cap; threads = all_idle threads } ∷ new_shards cap threads n

abbrev pub shown :
    {K V : Type 0} → ℕ → Option (Event K V) → List (ℕ × Event K V) → List (ℕ × Event K V)
shown j none past = past
shown j (some ev) past = (j, ev) ∷ past

-- The executions of `threads` threads on `n` new shards of capacity `cap`, with the events so far in
-- reverse, each with its shard.
pub data Reach {K V : Type 0} (dec : Discrete K) (hash_one : K → ℕ) (cap threads n : ℕ)
    : List (ℕ × Event K V) → List (System K V) → Type 0 where
  start : Reach dec hash_one cap threads n [] (new_shards cap threads n)
  later :
      {past : List (ℕ × Event K V)} {s t : List (System K V)} {j : ℕ} {ev : Option (Event K V)}
      → Reach dec hash_one cap threads n past s
      → Step dec hash_one s j ev t
      → Reach dec hash_one cap threads n (shown j ev past) t

-- The events of one shard.
abbrev pub events_of : {K V : Type 0} → ℕ → List (ℕ × Event K V) → List (Event K V)
events_of j [] = []
events_of j ((i, ev) ∷ past) = if j == i then ev ∷ events_of j past else events_of j past
