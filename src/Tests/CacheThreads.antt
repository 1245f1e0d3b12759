-- ===== src/Tests/CacheThreads.antt =====
-- Two threads on a cache of two LRU shards, one lock operation at a time, and the theorems at them:
-- one pushes, the other asks for the size.
use test_thread_safe_lru_cac.Base.{
  ℕ, ◌+◌, ◌/◌, ◌≤◌, ◌<◌, set, refl, Option, none, some, List, [], ◌∷◌, arith, ℕ_discrete,
}
use test_thread_safe_lru_cac.Sharded.Slots.{slot}
use test_thread_safe_lru_cac.Sharded.Lru.{
  Lru, link_head, push_front, promote_nodes, handle_recent_used, new, place, evict, push_inner, len,
}
use test_thread_safe_lru_cac.Sharded.Lru.Concurrent.{
  Event, event_push, event_flush, event_len, event_read,
}
use test_thread_safe_lru_cac.Sharded.Lru.Threads.{Pc, Move, System, get_lookup}
use test_thread_safe_lru_cac.Sharded.Lru.Threads.Counts.{count}
use test_thread_safe_lru_cac.Sharded.Lru.Threads.Calls.{rank}
use test_thread_safe_lru_cac.Sharded.Lru.Threads.Progress.{Advance}
use test_thread_safe_lru_cac.Sharded.Cache.Threads.{Step, turn, Reach, start, later}
use test_thread_safe_lru_cac.Sharded.Cache.Threads.Fresh.{AllFresh, Reach-AllFresh}
use test_thread_safe_lru_cac.Sharded.Cache.Threads.Explained.{
  IsCoherent, Reach-IsCoherent, cache_no_deadlock,
}
use test_thread_safe_lru_cac.Sharded.Cache.Threads.Size.{add_lens, concurrent_size_le}

-- Keys below 10 hash to the first shard.
abbrev hash_one : ℕ → ℕ
hash_one k = k / 10

-- Thread 0 has pushed on the first shard, and thread 1 has asked both shards for their lengths.
abbrev history : List (ℕ × Event ℕ ℕ)
history = (1, event_len 0) ∷ (0, event_len 1) ∷ (0, event_push 1 10) ∷ (0, event_flush) ∷ []

abbrev one_item : Lru ℕ ℕ
one_item = record {
  inner = record {
    map = (1, 0) ∷ [];
    nodes = some (record { key = 1; value = 10; prev = none; next = none }) ∷ [];
    available_slots = [];
    head = some 0;
    tail = some 0;
  };
  recent_nodes_idx = [];
  capacity = 2;
}

abbrev measured : List (System ℕ ℕ)
measured =
    record { cache = one_item; threads = Pc.idle ∷ Pc.idle ∷ [] }
    ∷ record { cache = new 2; threads = Pc.idle ∷ Pc.read_leaving ∷ [] }
    ∷ []

history-Reach : Reach ℕ_discrete hash_one 2 2 2 history measured
unfolding slot link_head push_front promote_nodes handle_recent_used new place evict push_inner len
    ℕ_discrete
history-Reach =
    later
      (later
        (later
          (later
            (later
              (later
                (later
                  (later
                    (later
                      (later
                        (later
                          (later
                            (later start
                              (turn 0 0 refl refl (Move.call_push 1 10) (λ k e. ground (arith, e))))
                            (turn 0 0 refl refl (Move.push_write_lock refl refl)
                              (λ k e. absurd (ground arith))))
                          (turn 0 0 refl refl (Move.push_lock refl) (λ k e. absurd (ground arith))))
                        (turn 0 0 refl refl (Move.push_unlock refl) (λ k e. absurd (ground arith))))
                      (turn 0 0 refl refl (Move.push_write refl) (λ k e. absurd (ground arith))))
                    (turn 0 0 refl refl Move.write_unlock (λ k e. absurd (ground arith))))
                  (turn 0 1 refl refl Move.call_len (λ k e. absurd (ground arith))))
                (turn 0 1 refl refl (Move.len_read_lock refl) (λ k e. absurd (ground arith))))
              (turn 0 1 refl refl Move.len_read (λ k e. absurd (ground arith))))
            (turn 0 1 refl refl Move.read_unlock (λ k e. absurd (ground arith))))
          (turn 1 1 refl refl Move.call_len (λ k e. absurd (ground arith))))
        (turn 1 1 refl refl (Move.len_read_lock refl) (λ k e. absurd (ground arith))))
      (turn 1 1 refl refl Move.len_read (λ k e. absurd (ground arith)))

Reach-IsCoherent_example : IsCoherent ℕ_discrete hash_one 2 2 history
Reach-IsCoherent_example = Reach-IsCoherent ℕ_discrete hash_one 2 2 2 history-Reach

abbrev leaving : System ℕ ℕ
leaving = record { cache = new 2; threads = Pc.idle ∷ Pc.read_leaving ∷ [] }

cache_no_deadlock_example :
    (ev : Option (Event ℕ ℕ)) × (t : System ℕ ℕ) × Advance ℕ_discrete leaving ev t
    × Step ℕ_discrete hash_one measured 1 ev (set measured 1 t)
    × (count rank t.threads < 1)
cache_no_deadlock_example =
    cache_no_deadlock ℕ_discrete hash_one 2 2 2 1 history-Reach refl (omega arith)

concurrent_size_le_example : add_lens 0 (1 ∷ 0 ∷ []) ≤ 3 + 2
concurrent_size_le_example =
    concurrent_size_le ℕ_discrete hash_one 3 2 2 (1 ∷ 0 ∷ []) (omega arith) history-Reach refl
      (refl, (refl, tt))

-- Thread 0 then reads the key.
abbrev read_history : List (ℕ × Event ℕ ℕ)
read_history = (0, event_read 1 (some 10)) ∷ history

read-Reach : (s : List (System ℕ ℕ)) × Reach ℕ_discrete hash_one 2 2 2 read_history s
unfolding slot get_lookup new ℕ_discrete
read-Reach = (
  _,
  later
      (later
        (later
          (later
            (later history-Reach (turn 0 0 refl refl (Move.call_get 1) (λ k e. ground (arith, e))))
            (turn 0 0 refl refl (Move.get_read_lock refl) (λ k e. absurd (ground arith))))
          (turn 0 0 refl refl (Move.get_found {i = 0} {v = 10} refl)
            (λ k e. absurd (ground arith))))
        (turn 0 0 refl refl (Move.get_lock refl) (λ k e. absurd (ground arith))))
      (turn 0 0 refl refl Move.get_unlock (λ k e. absurd (ground arith))),
)

Reach-AllFresh_example : AllFresh ℕ_discrete read_history
Reach-AllFresh_example = Reach-AllFresh ℕ_discrete hash_one 2 2 2 read-Reach.1
