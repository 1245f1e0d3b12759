-- ===== src/Tests/Suite.antt =====
-- The unit tests of src/sharded/eviction/lru.rs and src/sharded/eviction/fifo.rs, run on the model.
-- A test is `none` if an assertion fails or a call panics.
use test_thread_safe_lru_cac.Base.{
  ℕ, ◌≡◌, Bool, true, false, Option, none, some, List, [], ◌∷◌, ◌==◌, ◌>>=◌, refl, ℕ_discrete,
}
use test_thread_safe_lru_cac.Sharded.Eviction.{Eviction}
use test_thread_safe_lru_cac.Sharded.Eviction.Policies.{lru, fifo, fifo_get}
use test_thread_safe_lru_cac.Sharded.Slots.{slot}
use test_thread_safe_lru_cac.Sharded.Lru
use test_thread_safe_lru_cac.Sharded.Fifo

abbrev assert : Bool → Option {0} Unit
assert true = some tt
assert false = none

abbrev same : Option ℕ → Option ℕ → Bool
same none none = true
same none (some b) = false
same (some a) none = false
same (some a) (some b) = a == b

module _ (e : Eviction ℕ ℕ) where
  -- Calls of `push`, and reads with the results asserted of them.
  abbrev pushes : e.Shard → List (ℕ × ℕ) → Option e.Shard
  pushes s [] = some s
  pushes s ((k, v) ∷ kvs) = do s ← e.push s k v; pushes s kvs

  abbrev reads : e.Shard → List (ℕ × Option ℕ) → Option e.Shard
  reads s [] = some s
  reads s ((k, found) ∷ ks) = do (s, value) ← e.get s k; _ ← assert (same value found); reads s ks

  abbrev assert_len : e.Shard → ℕ → Option {0} Unit
  assert_len s n = assert (e.len s == n)

  abbrev first_keys : List (ℕ × ℕ)
  first_keys =
      (0, 1)
      ∷ (1, 2)
      ∷ (2, 3)
      ∷ (3, 4)
      ∷ (5, 1)
      ∷ (6, 1)
      ∷ (7, 1)
      ∷ (8, 1)
      ∷ (12, 1)
      ∷ (13, 1)
      ∷ (14, 1)
      ∷ (15, 1)
      ∷ (16, 1)
      ∷ (17, 1)
      ∷ (18, 1)
      ∷ []

  abbrev repeated_keys : List (ℕ × ℕ)
  repeated_keys =
      (5, 1)
      ∷ (6, 1)
      ∷ (7, 1)
      ∷ (8, 1)
      ∷ (12, 1)
      ∷ (13, 1)
      ∷ (14, 1)
      ∷ (15, 1)
      ∷ (16, 1)
      ∷ (17, 1)
      ∷ (18, 1)
      ∷ []

  abbrev push_test : ℕ → Option {0} Unit
  push_test capacity = do
    let cache = e.new capacity
    _ ← assert_len cache 0
    cache ← pushes cache first_keys
    assert_len cache capacity

  abbrev push_test_with_repeat_key : ℕ → Option {0} Unit
  push_test_with_repeat_key capacity = do
    let cache = e.new capacity
    _ ← assert_len cache 0
    cache ← pushes cache first_keys
    cache ← pushes cache repeated_keys
    assert_len cache capacity

  abbrev push_and_get_test : Option {0} Unit
  push_and_get_test = do
    let cache = e.new 10
    _ ← assert_len cache 0
    cache ← pushes cache (
        (0, 1)
        ∷ (1, 2)
        ∷ (2, 3)
        ∷ (3, 4)
        ∷ (4, 5)
        ∷ (5, 6)
        ∷ (6, 7)
        ∷ (7, 8)
        ∷ (8, 9)
        ∷ (9, 10)
        ∷ [])
    _ ← assert_len cache 10
    cache ← reads cache (
        (0, some 1)
        ∷ (1, some 2)
        ∷ (2, some 3)
        ∷ (3, some 4)
        ∷ (4, some 5)
        ∷ (5, some 6)
        ∷ (6, some 7)
        ∷ (7, some 8)
        ∷ (8, some 9)
        ∷ (9, some 10)
        ∷ [])
    _ ← assert_len cache 10
    cache ← pushes cache (
        (10, 11)
        ∷ (11, 12)
        ∷ (12, 13)
        ∷ (13, 14)
        ∷ (14, 15)
        ∷ (15, 16)
        ∷ (16, 17)
        ∷ (17, 18)
        ∷ (18, 19)
        ∷ (19, 20)
        ∷ [])
    cache ← reads cache (
        (0, none)
        ∷ (1, none)
        ∷ (2, none)
        ∷ (3, none)
        ∷ (4, none)
        ∷ (5, none)
        ∷ (6, none)
        ∷ (7, none)
        ∷ (8, none)
        ∷ (9, none)
        ∷ [])
    _ ← assert_len cache 10
    cache ← reads cache (
        (10, some 11)
        ∷ (11, some 12)
        ∷ (12, some 13)
        ∷ (13, some 14)
        ∷ (14, some 15)
        ∷ (15, some 16)
        ∷ (16, some 17)
        ∷ (17, some 18)
        ∷ (18, some 19)
        ∷ (19, some 20)
        ∷ [])
    assert_len cache 10

abbrev lru_push_test : Option {0} Unit
lru_push_test = push_test (lru ℕ_discrete) 2

abbrev lru_push_test_with_repeat_key : Option {0} Unit
lru_push_test_with_repeat_key = push_test_with_repeat_key (lru ℕ_discrete) 2

abbrev lru_push_and_get_test : Option {0} Unit
lru_push_and_get_test = push_and_get_test (lru ℕ_discrete)

abbrev fifo_push_test : Option {0} Unit
fifo_push_test = push_test (fifo ℕ_discrete) 10

abbrev fifo_push_test_with_repeat_key : Option {0} Unit
fifo_push_test_with_repeat_key = push_test_with_repeat_key (fifo ℕ_discrete) 5

abbrev fifo_push_and_get_test : Option {0} Unit
fifo_push_and_get_test = push_and_get_test (fifo ℕ_discrete)

lru_tests_pass :
    (lru_push_test ≡ some tt)
    × (lru_push_test_with_repeat_key ≡ some tt)
    × (lru_push_and_get_test ≡ some tt)
unfolding slot Lru.link_head Lru.push_front Lru.unlink_prev Lru.unlink_next Lru.unlink_node
    Lru.promote_node Lru.promote_nodes Lru.handle_recent_used Lru.get_read Lru.get_finish Lru.get
    Lru.new Lru.update_value Lru.place Lru.remove_node Lru.evict Lru.push_inner Lru.push Lru.len
    ℕ_discrete
lru_tests_pass = (refl, refl, refl)

fifo_tests_pass :
    (fifo_push_test ≡ some tt)
    × (fifo_push_test_with_repeat_key ≡ some tt)
    × (fifo_push_and_get_test ≡ some tt)
unfolding slot fifo_get Fifo.link_tail Fifo.push_back Fifo.unlink_prev Fifo.unlink_next
    Fifo.unlink_node Fifo.get Fifo.new Fifo.update_value Fifo.place Fifo.remove_node Fifo.evict
    Fifo.push_inner Fifo.push Fifo.len ℕ_discrete
fifo_tests_pass = (refl, refl, refl)
