-- ===== src/Tests/ShardedLru.antt =====
-- Runs of src/sharded/eviction/lru.rs at capacity 2: two keys are pushed and the first is read, so
-- that the buffer holds its slot back. Then the theorems at that state.
use test_thread_safe_lru_cac.Base.{
  ℕ, length, ◌≡◌, ◌≤◌, ◌<◌, ◌+◌, refl, max, true, false, none, some, List, [], ◌∷◌, ℕ_discrete,
}
use test_thread_safe_lru_cac.Assoc
use test_thread_safe_lru_cac.Spec.{lru_push}
use test_thread_safe_lru_cac.Sharded.Slots.{slot}
use test_thread_safe_lru_cac.Sharded.Lru.{
  Lru, link_head, push_front, unlink_prev, unlink_next, unlink_node, promote_node, promote_nodes,
  handle_recent_used, get_read, get, new, place, remove_node, evict, push_inner, push, remove,
  contains, len, is_empty,
}
use test_thread_safe_lru_cac.Sharded.Lru.Refine.{Represents, handle_recent_used-Represents}
use test_thread_safe_lru_cac.Sharded.Lru.Methods.{
  push-Represents, get-Represents, remove-Represents, queries-Represents,
}
use test_thread_safe_lru_cac.Sharded.Lru.Buffer.{length-Reach}
use test_thread_safe_lru_cac.Sharded.Lru.Concurrent.{
  System, Event, event_push, event_read, event_remove, Step, step_push, step_read, Reach, start,
  later, entries_after, Reach-IsExplained, Reach-progress,
}

abbrev one_item : Lru ℕ ℕ
one_item = record {
  inner = record {
    map = (1, 0) ∷ [];
    nodes = some (record { key = 1; value = 10; prev = none; next = none }) ∷ [];
    available_slots = [];
    head = some 0;
    tail = some 0;
  };
  recent_nodes_idx = [];
  capacity = 2;
}

abbrev pub two_items : List ℕ → Lru ℕ ℕ
two_items recent = record {
  inner = record {
    map = (1, 0) ∷ (2, 1) ∷ [];
    nodes =
        some (record { key = 1; value = 10; prev = some 1; next = none })
        ∷ some (record { key = 2; value = 20; prev = none; next = some 0 })
        ∷ [];
    available_slots = [];
    head = some 1;
    tail = some 0;
  };
  recent_nodes_idx = recent;
  capacity = 2;
}

push_first : push ℕ_discrete (new 2) 1 10 ≡ some one_item
unfolding slot push_front promote_nodes handle_recent_used new place evict push_inner push
    ℕ_discrete
push_first = refl

push_second : push ℕ_discrete one_item 2 20 ≡ some (two_items [])
unfolding slot link_head push_front promote_nodes handle_recent_used place evict push_inner push
    ℕ_discrete
push_second = refl

read_first : get_read ℕ_discrete (two_items []) 1 ≡ some (two_items (0 ∷ []), some (10, false))
unfolding slot get_read ℕ_discrete
read_first = refl

abbrev history : List (Event ℕ ℕ)
history = event_read 1 (some 10) ∷ event_push 2 20 ∷ event_push 1 10 ∷ []

abbrev reading : System ℕ ℕ
reading = record { cache = two_items (0 ∷ []); waiting = 0 }

history-Reach : Reach ℕ_discrete 2 history reading
history-Reach =
    later (later (later start (step_push 1 10 push_first)) (step_push 2 20 push_second))
      (step_read 1 (some (10, false)) read_first)

-- The read counts, though the list still has key 2 in front.
pub two_items-Represents : Represents ℕ_discrete 2 (two_items (0 ∷ [])) ((1, 10) ∷ (2, 20) ∷ [])
unfolding ℕ_discrete
two_items-Represents = (Reach-IsExplained ℕ_discrete 2 history-Reach).0

-- The push of a third key evicts key 2, the one not read, and uses its slot again.
push_third :
    push ℕ_discrete (two_items (0 ∷ [])) 3 30
    ≡ some (record {
      inner = record {
        map = (1, 0) ∷ (3, 1) ∷ [];
        nodes =
            some (record { key = 1; value = 10; prev = some 1; next = none })
            ∷ some (record { key = 3; value = 30; prev = none; next = some 0 })
            ∷ [];
        available_slots = [];
        head = some 1;
        tail = some 0;
      };
      recent_nodes_idx = [];
      capacity = 2;
    })
unfolding slot link_head push_front unlink_prev unlink_next unlink_node promote_node promote_nodes
    handle_recent_used place remove_node evict push_inner push ℕ_discrete
push_third = refl

Reach-progress_example :
    ((k : ℕ)
      → (t : System ℕ ℕ) × Step ℕ_discrete reading
          (event_read k (Assoc.get ℕ_discrete k (entries_after ℕ_discrete 2 history)))
          t)
    × ((k : ℕ) (v : ℕ) → (t : System ℕ ℕ) × Step ℕ_discrete reading (event_push k v) t)
    × ((k : ℕ) → (t : System ℕ ℕ) × Step ℕ_discrete reading (event_remove k) t)
    × ((c' : Lru ℕ ℕ) × (handle_recent_used (two_items (0 ∷ [])) ≡ some c'))
Reach-progress_example = Reach-progress ℕ_discrete 2 history-Reach

push-Represents_example :
    (c' : Lru ℕ ℕ) × (push ℕ_discrete (two_items (0 ∷ [])) 3 30 ≡ some c')
    × Represents ℕ_discrete 2 c' (lru_push ℕ_discrete 2 3 30 ((1, 10) ∷ (2, 20) ∷ []))
push-Represents_example = push-Represents ℕ_discrete 2 3 30 two_items-Represents

get-Represents_example :
    (c' : Lru ℕ ℕ) × (get ℕ_discrete (two_items (0 ∷ [])) 2 ≡ some (c', some 20))
    × Represents ℕ_discrete 2 c' ((2, 20) ∷ (1, 10) ∷ [])
unfolding ℕ_discrete
get-Represents_example = get-Represents ℕ_discrete 2 2 two_items-Represents

remove-Represents_example :
    (c' : Lru ℕ ℕ) × (remove ℕ_discrete (two_items (0 ∷ [])) 1 ≡ some c')
    × Represents ℕ_discrete 2 c' ((2, 20) ∷ [])
unfolding ℕ_discrete
remove-Represents_example = remove-Represents ℕ_discrete 2 1 two_items-Represents

handle_recent_used-Represents_example :
    (c' : Lru ℕ ℕ) × (handle_recent_used (two_items (0 ∷ [])) ≡ some c')
    × Represents ℕ_discrete 2 c' ((1, 10) ∷ (2, 20) ∷ [])
    × (c'.recent_nodes_idx ≡ [])
handle_recent_used-Represents_example =
    handle_recent_used-Represents ℕ_discrete 2 two_items-Represents

length-Reach_example : length reading.cache.recent_nodes_idx < 64 + reading.waiting
length-Reach_example = length-Reach ℕ_discrete 2 history-Reach

queries-Represents_example :
    (contains ℕ_discrete (two_items (0 ∷ [])) 2 ≡ true)
    × (len (two_items (0 ∷ [])) ≡ 2)
    × (is_empty (two_items (0 ∷ [])) ≡ false)
    × (2 ≤ max 1 2)
unfolding ℕ_discrete
queries-Represents_example = queries-Represents ℕ_discrete 2 two_items-Represents 2
