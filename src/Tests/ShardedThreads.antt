-- ===== src/Tests/ShardedThreads.antt =====
-- Two threads on one shard of src/sharded/eviction/lru.rs, one lock operation at a time, and the
-- theorems at them.
use test_thread_safe_lru_cac.Base.{
  ℕ, ◌+◌, ◌≡◌, ◌≤◌, ◌<◌, refl, Option, none, some, List, [], ◌∷◌, arith, ℕ_discrete,
}
use test_thread_safe_lru_cac.Sharded.Slots.{slot}
use test_thread_safe_lru_cac.Sharded.Lru.{
  link_head, push_front, promote_nodes, handle_recent_used, new, place, evict, push_inner,
}
use test_thread_safe_lru_cac.Sharded.Lru.Concurrent.{Event, event_push, event_flush, event_read}
use test_thread_safe_lru_cac.Sharded.Lru.Threads.{
  Pc, Move, System, turn, Reach, start, later, get_lookup,
}
use test_thread_safe_lru_cac.Sharded.Lru.Threads.Counts.{count}
use test_thread_safe_lru_cac.Sharded.Lru.Threads.Invariant.{Inv}
use test_thread_safe_lru_cac.Sharded.Lru.Threads.Refine.{Reach-Inv}
use test_thread_safe_lru_cac.Sharded.Lru.Threads.Recency.{calls_of, threads-IsRecent}
use test_thread_safe_lru_cac.Basic.Safe.Recency.{IsRecent}
use test_thread_safe_lru_cac.Sharded.Lru.Threads.Calls.{rank}
use test_thread_safe_lru_cac.Sharded.Lru.Threads.Progress.{Advance, Advances, no_deadlock, drain}

-- Thread 0 has the write guard and is about to take the mutex; thread 1 waits to read.
abbrev contended : System ℕ ℕ
contended = record { cache = new 2; threads = Pc.push_locking 1 10 ∷ Pc.get_start 1 ∷ [] }

contended-Reach : Reach ℕ_discrete 2 2 [] contended
contended-Reach =
    later
      (later (later start (turn 0 refl (Move.call_push 1 10)))
        (turn 0 refl (Move.push_write_lock refl refl)))
      (turn 1 refl (Move.call_get 1))

-- Thread 0 reads, thread 1 waits to write, and thread 2 to read, which it may not do before thread 1.
abbrev queued : System ℕ ℕ
queued = record {
  cache = new 2;
  threads = Pc.len_reading ∷ Pc.push_start 1 10 ∷ Pc.get_start 1 ∷ [];
}

queued-Reach : Reach ℕ_discrete 2 3 [] queued
queued-Reach =
    later
      (later
        (later (later start (turn 0 refl Move.call_len)) (turn 0 refl (Move.len_read_lock refl)))
        (turn 1 refl (Move.call_push 1 10)))
      (turn 2 refl (Move.call_get 1))

no_deadlock_example :
    (ev : Option (Event ℕ ℕ)) × (t : System ℕ ℕ) × Advance ℕ_discrete queued ev t
    × (count rank t.threads < 2 + 5 + 9)
no_deadlock_example = no_deadlock ℕ_discrete 2 queued-Reach (omega arith)

drain_example :
    ((m : ℕ) × (t : System ℕ ℕ) × Advances ℕ_discrete m queued t × (count rank t.threads ≡ 0))
    × ((m : ℕ) (t : System ℕ ℕ) → Advances ℕ_discrete m queued t → m ≤ 2 + 5 + 9)
drain_example = drain ℕ_discrete 2 queued-Reach

-- Thread 0 has pushed, and thread 1 holds the mutex to record its read.
abbrev recording : System ℕ ℕ
recording = record {
  cache = record {
    inner = record {
      map = (1, 0) ∷ [];
      nodes = some (record { key = 1; value = 10; prev = none; next = none }) ∷ [];
      available_slots = [];
      head = some 0;
      tail = some 0;
    };
    recent_nodes_idx = [];
    capacity = 2;
  };
  threads = Pc.idle ∷ Pc.get_recording 1 0 10 ∷ [];
}

recording-Reach : Reach ℕ_discrete 2 2 (event_push 1 10 ∷ event_flush ∷ []) recording
unfolding slot link_head push_front promote_nodes handle_recent_used new place evict push_inner
    get_lookup ℕ_discrete
recording-Reach =
    later
      (later
        (later
          (later
            (later
              (later (later contended-Reach (turn 0 refl (Move.push_lock refl)))
                (turn 0 refl (Move.push_unlock refl)))
              (turn 0 refl (Move.push_write refl)))
            (turn 0 refl Move.write_unlock))
          (turn 1 refl (Move.get_read_lock refl)))
        (turn 1 refl (Move.get_found refl)))
      (turn 1 refl (Move.get_lock refl))

Reach-Inv_example : Inv ℕ_discrete 2 (event_push 1 10 ∷ event_flush ∷ []) recording
Reach-Inv_example = Reach-Inv ℕ_discrete 2 recording-Reach

abbrev read_history : List (Event ℕ ℕ)
read_history = event_read 1 (some 10) ∷ event_push 1 10 ∷ event_flush ∷ []

read-Reach : (s : System ℕ ℕ) × Reach ℕ_discrete 2 2 read_history s
read-Reach = (_, later recording-Reach (turn 1 refl Move.get_unlock))

threads-IsRecent_example : IsRecent ℕ_discrete 2 (calls_of read_history)
threads-IsRecent_example = threads-IsRecent ℕ_discrete 2 (omega arith) tt read-Reach.1
