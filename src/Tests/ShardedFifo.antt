-- ===== src/Tests/ShardedFifo.antt =====
-- Runs of src/sharded/eviction/fifo.rs at capacity 2, and the theorems at them.
use test_thread_safe_lru_cac.Base.{
  ℕ, ◌≡◌, ◌≤◌, refl, max, true, false, none, some, [], ◌∷◌, ℕ_discrete, same_result,
}
use test_thread_safe_lru_cac.Spec.{fifo_push}
use test_thread_safe_lru_cac.Sharded.Slots.{slot}
use test_thread_safe_lru_cac.Sharded.Fifo.{
  Fifo, link_tail, push_back, unlink_prev, unlink_next, unlink_node, get, new, update_value, place,
  evict, push_inner, push, remove, contains, len, is_empty,
}
use test_thread_safe_lru_cac.Sharded.Fifo.Methods.{
  IsQueueOf, new-IsQueueOf, queries-IsQueueOf, push-IsQueueOf, remove-IsQueueOf,
}

abbrev one_item : Fifo ℕ ℕ
one_item = record {
  inner = record {
    map = (1, 0) ∷ [];
    nodes = some (record { key = 1; value = 10; prev = none; next = none }) ∷ [];
    available_slots = [];
    head = some 0;
    tail = some 0;
  };
  capacity = 2;
}

abbrev two_items : Fifo ℕ ℕ
two_items = record {
  inner = record {
    map = (1, 0) ∷ (2, 1) ∷ [];
    nodes =
        some (record { key = 1; value = 10; prev = none; next = some 1 })
        ∷ some (record { key = 2; value = 20; prev = some 0; next = none })
        ∷ [];
    available_slots = [];
    head = some 0;
    tail = some 1;
  };
  capacity = 2;
}

push_first : push ℕ_discrete (new 2) 1 10 ≡ some one_item
unfolding slot link_tail push_back new place evict push_inner push ℕ_discrete
push_first = refl

push_second : push ℕ_discrete one_item 2 20 ≡ some two_items
unfolding slot link_tail push_back place evict push_inner push ℕ_discrete
push_second = refl

one_item-IsQueueOf : IsQueueOf ℕ_discrete 2 one_item ((1, 10) ∷ [])
one_item-IsQueueOf =
    same_result (λ c. IsQueueOf ℕ_discrete 2 c ((1, 10) ∷ []))
      (push-IsQueueOf ℕ_discrete 2 (new-IsQueueOf ℕ_discrete 2) 1 10) push_first

two_items-IsQueueOf : IsQueueOf ℕ_discrete 2 two_items ((1, 10) ∷ (2, 20) ∷ [])
unfolding ℕ_discrete
two_items-IsQueueOf =
    same_result (λ c. IsQueueOf ℕ_discrete 2 c ((1, 10) ∷ (2, 20) ∷ []))
      (push-IsQueueOf ℕ_discrete 2 one_item-IsQueueOf 2 20) push_second

push-IsQueueOf_example :
    (c' : Fifo ℕ ℕ) × (push ℕ_discrete two_items 3 30 ≡ some c')
    × IsQueueOf ℕ_discrete 2 c' (fifo_push ℕ_discrete 2 3 30 ((1, 10) ∷ (2, 20) ∷ []))
push-IsQueueOf_example = push-IsQueueOf ℕ_discrete 2 two_items-IsQueueOf 3 30

remove-IsQueueOf_example :
    (c' : Fifo ℕ ℕ) × (remove ℕ_discrete two_items 1 ≡ some c')
    × IsQueueOf ℕ_discrete 2 c' ((2, 20) ∷ [])
unfolding ℕ_discrete
remove-IsQueueOf_example = remove-IsQueueOf ℕ_discrete 2 two_items-IsQueueOf 1

-- A present key gets its new value and becomes the newest, so that key 2 is evicted before it.
push_again :
    push ℕ_discrete two_items 1 11
    ≡ some (record {
      inner = record {
        map = (1, 0) ∷ (2, 1) ∷ [];
        nodes =
            some (record { key = 1; value = 11; prev = some 1; next = none })
            ∷ some (record { key = 2; value = 20; prev = none; next = some 0 })
            ∷ [];
        available_slots = [];
        head = some 1;
        tail = some 0;
      };
      capacity = 2;
    })
unfolding slot link_tail push_back unlink_prev unlink_next unlink_node update_value push_inner push
    ℕ_discrete
push_again = refl

queries-IsQueueOf_example :
    (get ℕ_discrete two_items 2 ≡ some (some 20))
    × (contains ℕ_discrete two_items 2 ≡ true)
    × (len two_items ≡ 2)
    × (is_empty two_items ≡ false)
    × (2 ≤ max 1 2)
unfolding ℕ_discrete
queries-IsQueueOf_example = queries-IsQueueOf ℕ_discrete 2 two_items-IsQueueOf 2
