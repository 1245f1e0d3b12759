-- ===== src/Sharded/Lru/Threads.antt =====
-- src/sharded/eviction/lru.rs, one lock operation at a time. Each thread has a program counter, and
-- holds the guards of the locks that its counter names: the read or the write lock of `inner`, and
-- the mutex of `recent_nodes_idx`. A read guard is given out while nobody writes, a write guard while
-- nobody holds a guard, the mutex to one thread. parking_lot holds a reader back also while a writer
-- waits, so these moves are all of its moves and more; Progress keeps to its own.
pub mod Counts
pub mod Invariant
pub mod Calls
pub mod Progress
pub mod Refine
pub mod Recency
use test_thread_safe_lru_cac.Base.{
  ℕ, suc, ◌+◌, ◌≡◌, Bool, true, false, Option, none, some, List, [], ◌∷◌, ◌++◌, leb, length,
  get_elem?, set, ◌>>=◌, zero,
}
use test_thread_safe_lru_cac.Assoc
use test_thread_safe_lru_cac.Sharded.Slots.{slot}
use test_thread_safe_lru_cac.Sharded.Lru.{
  Lru, new, handle_recent_used, push_inner, remove, contains, len, is_empty,
}
use test_thread_safe_lru_cac.Sharded.Lru.Concurrent.{
  Event, event_read, event_flush, event_push, event_remove, event_contains, event_len,
  event_is_empty,
}
use Counts.{count}

-- Where a thread stands, with the locals that are live there. At `…_start` it waits for `inner`, at
-- `…_locking` for the mutex.
pub data Pc (K V : Type 0) : Type 0 where
  idle : Pc K V
  get_start : K → Pc K V
  get_reading : K → Pc K V
  get_locking : K → ℕ → V → Pc K V
  get_recording : K → ℕ → V → Pc K V
  get_recorded : V → Bool → Pc K V
  flush_start : V → Pc K V
  flush_locking : V → Pc K V
  flush_running : V → Pc K V
  push_start : K → V → Pc K V
  push_locking : K → V → Pc K V
  push_flushing : K → V → Pc K V
  push_writing : K → V → Pc K V
  remove_start : K → Pc K V
  remove_writing : K → Pc K V
  contains_start : K → Pc K V
  contains_reading : K → Pc K V
  len_start : Pc K V
  len_reading : Pc K V
  is_empty_start : Pc K V
  is_empty_reading : Pc K V
  read_leaving : Pc K V  -- about to drop the read guard, and return
  write_leaving : Pc K V  -- about to drop the write guard, and return

-- How many guards of each kind a thread holds.
abbrev pub reads : {K V : Type 0} → Pc K V → ℕ
reads (get_reading _) = 1
reads (get_locking _ _ _) = 1
reads (get_recording _ _ _) = 1
reads (get_recorded _ _) = 1
reads (contains_reading _) = 1
reads len_reading = 1
reads is_empty_reading = 1
reads read_leaving = 1
reads _ = 0

abbrev pub writes : {K V : Type 0} → Pc K V → ℕ
writes (flush_locking _) = 1
writes (flush_running _) = 1
writes (push_locking _ _) = 1
writes (push_flushing _ _) = 1
writes (push_writing _ _) = 1
writes (remove_writing _) = 1
writes write_leaving = 1
writes _ = 0

abbrev pub mutexes : {K V : Type 0} → Pc K V → ℕ
mutexes (get_recording _ _ _) = 1
mutexes (flush_running _) = 1
mutexes (push_flushing _ _) = 1
mutexes _ = 0

-- Whether a thread is about to take the read lock, and the write lock.
abbrev pub reads_next : {K V : Type 0} → Pc K V → ℕ
reads_next (get_start _) = 1
reads_next (contains_start _) = 1
reads_next len_start = 1
reads_next is_empty_start = 1
reads_next _ = 0

abbrev pub writes_next : {K V : Type 0} → Pc K V → ℕ
writes_next (flush_start _) = 1
writes_next (push_start _ _) = 1
writes_next (remove_start _) = 1
writes_next _ = 0

module _ {K V : Type 0} (dec : Discrete K) where
  -- `get` up to the clone of the value: the slot and the value, if the key is found.
  unfoldable pub get_lookup : Lru K V → K → Option (Option (ℕ × V))
  get_lookup c key = elim (Assoc.get dec key c.inner.map) [
    | none ↦ some none
    | some node_index ↦ do
      node ← slot c.inner.nodes node_index
      some (some (node_index, node.value))
  ]

-- `get` under the mutex.
abbrev pub get_record : {K V : Type 0} → Lru K V → ℕ → Lru K V
get_record c node_index = record c { recent_nodes_idx = c.recent_nodes_idx ++ node_index ∷ [] }

abbrev pub is_due : {K V : Type 0} → Lru K V → Bool
is_due c = leb 64 (length c.recent_nodes_idx)

-- The guards that are out: of reading, of writing, and of the mutex.
pub record Guards : Type 0 where
  pub reading : ℕ
  pub writing : ℕ
  pub locking : ℕ

-- One move of one thread, where the guards that are out allow it.
pub data Move {K V : Type 0} (dec : Discrete K) (g : Guards) (c : Lru K V)
    : Pc K V → Option (Event K V) → Lru K V → Pc K V → Type 0 where
  call_get : (k : K) → Move dec g c idle none c (get_start k)
  call_push : (k : K) (v : V) → Move dec g c idle none c (push_start k v)
  call_remove : (k : K) → Move dec g c idle none c (remove_start k)
  call_contains : (k : K) → Move dec g c idle none c (contains_start k)
  call_len : Move dec g c idle none c len_start
  call_is_empty : Move dec g c idle none c is_empty_start
  get_read_lock : {k : K} → g.writing ≡ 0 → Move dec g c (get_start k) none c (get_reading k)
  get_missed :
      {k : K}
      → get_lookup dec c k ≡ some none
      → Move dec g c (get_reading k) (some (event_read k none)) c read_leaving
  get_found :
      {k : K} {i : ℕ} {v : V}
      → get_lookup dec c k ≡ some (some (i, v))
      → Move dec g c (get_reading k) none c (get_locking k i v)
  get_lock :
      {k : K} {i : ℕ} {v : V}
      → g.locking ≡ 0
      → Move dec g c (get_locking k i v) none c (get_recording k i v)
  get_unlock :
      {k : K} {i : ℕ} {v : V}
      → Move dec g c
          (get_recording k i v)
          (some (event_read k (some v)))
          (get_record c i)
          (get_recorded v (is_due (get_record c i)))
  get_done : {v : V} → Move dec g c (get_recorded v false) none c idle
  get_due : {v : V} → Move dec g c (get_recorded v true) none c (flush_start v)
  flush_write_lock :
      {v : V}
      → g.reading ≡ 0
      → g.writing ≡ 0
      → Move dec g c (flush_start v) none c (flush_locking v)
  flush_lock : {v : V} → g.locking ≡ 0 → Move dec g c (flush_locking v) none c (flush_running v)
  flush_unlock :
      {v : V} {c' : Lru K V}
      → handle_recent_used c ≡ some c'
      → Move dec g c (flush_running v) (some event_flush) c' write_leaving
  push_write_lock :
      {k : K} {v : V}
      → g.reading ≡ 0
      → g.writing ≡ 0
      → Move dec g c (push_start k v) none c (push_locking k v)
  push_lock :
      {k : K} {v : V} → g.locking ≡ 0 → Move dec g c (push_locking k v) none c (push_flushing k v)
  push_unlock :
      {k : K} {v : V} {c' : Lru K V}
      → handle_recent_used c ≡ some c'
      → Move dec g c (push_flushing k v) (some event_flush) c' (push_writing k v)
  push_write :
      {k : K} {v : V} {c' : Lru K V}
      → (do inner ← push_inner dec c.inner c.capacity k v; some (record c { inner = inner }))
        ≡ some c'
      → Move dec g c (push_writing k v) (some (event_push k v)) c' write_leaving
  remove_write_lock :
      {k : K}
      → g.reading ≡ 0
      → g.writing ≡ 0
      → Move dec g c (remove_start k) none c (remove_writing k)
  remove_write :
      {k : K} {c' : Lru K V}
      → remove dec c k ≡ some c'
      → Move dec g c (remove_writing k) (some (event_remove k)) c' write_leaving
  contains_read_lock :
      {k : K} → g.writing ≡ 0 → Move dec g c (contains_start k) none c (contains_reading k)
  contains_read :
      {k : K}
      → Move dec g c
          (contains_reading k)
          (some (event_contains k (contains dec c k)))
          c
          read_leaving
  len_read_lock : g.writing ≡ 0 → Move dec g c len_start none c len_reading
  len_read : Move dec g c len_reading (some (event_len (len c))) c read_leaving
  is_empty_read_lock : g.writing ≡ 0 → Move dec g c is_empty_start none c is_empty_reading
  is_empty_read : Move dec g c is_empty_reading (some (event_is_empty (is_empty c))) c read_leaving
  read_unlock : Move dec g c read_leaving none c idle
  write_unlock : Move dec g c write_leaving none c idle

pub record System (K V : Type 0) : Type 0 where
  pub cache : Lru K V
  pub threads : List (Pc K V)

abbrev pub guards : {K V : Type 0} → List (Pc K V) → Guards
guards ps = record {
  reading = count reads ps;
  writing = count writes ps;
  locking = count mutexes ps;
}

pub data Step {K V : Type 0} (dec : Discrete K) (s : System K V)
    : Option (Event K V) → System K V → Type 0 where
  turn :
      (i : ℕ) {p p' : Pc K V} {ev : Option (Event K V)} {c' : Lru K V}
      → get_elem? s.threads i ≡ some p
      → Move dec (guards s.threads) s.cache p ev c' p'
      → Step dec s ev (record { cache = c'; threads = set s.threads i p' })

abbrev pub all_idle : {K V : Type 0} → ℕ → List (Pc K V)
all_idle zero = []
all_idle (suc n) = idle ∷ all_idle n

abbrev pub shown : {K V : Type 0} → Option (Event K V) → List (Event K V) → List (Event K V)
shown none past = past
shown (some ev) past = ev ∷ past

-- The executions of `n` threads on a new shard, with the events so far in reverse.
pub data Reach {K V : Type 0} (dec : Discrete K) (cap n : ℕ)
    : List (Event K V) → System K V → Type 0 where
  start : Reach dec cap n [] (record { cache = new cap; threads = all_idle n })
  later :
      {past : List (Event K V)} {s t : System K V} {ev : Option (Event K V)}
      → Reach dec cap n past s
      → Step dec s ev t
      → Reach dec cap n (shown ev past) t
