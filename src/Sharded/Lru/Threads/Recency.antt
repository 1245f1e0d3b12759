-- ===== src/Sharded/Lru/Threads/Recency.antt =====
-- The eviction order of src/sharded/eviction/lru.rs, told from what its callers see. A read is put
-- off as an entry of the buffer, and still counts as a use at once.
use test_thread_safe_lru_cac.Base.{
  ℕ, zero, suc, ◌<◌, ◌≡◌, refl, sym, ap, ◌∙◌, some, List, [], ◌∷◌, arith,
}
use test_thread_safe_lru_cac.Assoc
use test_thread_safe_lru_cac.Spec.{lru_push, lru_get}
use test_thread_safe_lru_cac.Basic.Safe.Concurrent as Calls
use test_thread_safe_lru_cac.Basic.Safe.Concurrent.{Call, call_push, call_get}
use test_thread_safe_lru_cac.Basic.Safe.Recency.{IsRecent, explained-IsRecent}
use test_thread_safe_lru_cac.Sharded.Lru.Concurrent.{
  Event, event_read, event_flush, event_push, event_remove, event_contains, event_len,
  event_is_empty, entries_after, IsExplained,
}
use test_thread_safe_lru_cac.Sharded.Lru.Threads.{System, Reach}
use test_thread_safe_lru_cac.Sharded.Lru.Threads.Refine.{Reach-Inv}

module _ {K V : Type 0} where
  abbrev pub NoRemoval : List (Event K V) → Type 0
  NoRemoval [] = Unit
  NoRemoval (event_remove k ∷ past) = ⊥
  NoRemoval (_ ∷ past) = NoRemoval past

  -- The reads and pushes, as calls with what their callers got.
  abbrev pub calls_of : List (Event K V) → List (Call K V)
  calls_of [] = []
  calls_of (event_read k o ∷ past) = call_get k (some o) ∷ calls_of past
  calls_of (event_push k v ∷ past) = call_push k v (some tt) ∷ calls_of past
  calls_of (_ ∷ past) = calls_of past

module _ {K V : Type 0} (dec : Discrete K) (cap : ℕ) where
  entries_after-calls_of :
      (past : List (Event K V))
      → NoRemoval past
      → Calls.entries_after dec cap (calls_of past) ≡ entries_after dec cap past
  entries_after-calls_of [] h = refl
  entries_after-calls_of (event_read k o ∷ past) h =
      ap (lru_get dec k) (entries_after-calls_of past h)
  entries_after-calls_of (event_push k v ∷ past) h =
      ap (lru_push dec cap k v) (entries_after-calls_of past h)
  entries_after-calls_of (event_remove k ∷ past) h = absurd h
  entries_after-calls_of (event_flush ∷ past) h = entries_after-calls_of past h
  entries_after-calls_of (event_contains k b ∷ past) h = entries_after-calls_of past h
  entries_after-calls_of (event_len m ∷ past) h = entries_after-calls_of past h
  entries_after-calls_of (event_is_empty b ∷ past) h = entries_after-calls_of past h

  IsExplained-calls_of :
      (past : List (Event K V))
      → NoRemoval past
      → IsExplained dec cap past
      → Calls.IsExplained dec cap (calls_of past)
  IsExplained-calls_of [] h x = tt
  IsExplained-calls_of (event_read k o ∷ past) h x = (
    ap some (x.0 ∙ ap (Assoc.get dec k) (sym (entries_after-calls_of past h))),
    IsExplained-calls_of past h x.1,
  )
  IsExplained-calls_of (event_push k v ∷ past) h x = (refl, IsExplained-calls_of past h x)
  IsExplained-calls_of (event_remove k ∷ past) h x = absurd h
  IsExplained-calls_of (event_flush ∷ past) h x = IsExplained-calls_of past h x
  IsExplained-calls_of (event_contains k b ∷ past) h x = IsExplained-calls_of past h x.1
  IsExplained-calls_of (event_len m ∷ past) h x = IsExplained-calls_of past h x.1
  IsExplained-calls_of (event_is_empty b ∷ past) h x = IsExplained-calls_of past h x.1

module _ {K V : Type 0} (dec : Discrete K) where
  -- In every execution of any number of threads on one new LRU shard of positive capacity, one lock
  -- operation at a time, in which no key is removed, a get finds a key, with the value of its last
  -- push, exactly if fewer distinct other keys than the capacity were used since its last use,
  -- where a use is a push of the key or a get that found it.
  pub threads-IsRecent :
      (cap : ℕ) {n : ℕ} {past : List (Event K V)} {s : System K V}
      → 0 < cap
      → NoRemoval past
      → Reach dec cap n past s
      → IsRecent dec cap (calls_of past)
  threads-IsRecent zero h kept reach = absurd (omega arith)
  threads-IsRecent (suc m) {past = past} h kept reach =
      explained-IsRecent dec m (calls_of past)
        (IsExplained-calls_of dec (suc m) past kept (Reach-Inv dec (suc m) reach).explained)
