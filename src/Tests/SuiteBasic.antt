-- ===== src/Tests/SuiteBasic.antt =====
-- The unit tests of src/basic/dll.rs and src/basic/lru.rs, run on the model, but for the two that
-- fill a list with 10000 nodes. A test is `none` if an assertion fails or a call has a fault. Each
-- new box gets the next address, and the strings "A" to "E" are the keys 1 to 5.
use test_thread_safe_lru_cac.Base.{
  ℕ, ◌≡◌, Bool, true, false, Option, none, some, ◌==◌, ◌>>=◌, refl, ℕ_discrete,
}
use test_thread_safe_lru_cac.Basic.Dll
use test_thread_safe_lru_cac.Basic.Lru

abbrev assert : Bool → Option {0} Unit
assert true = some tt
assert false = none

abbrev is_key : Option (ℕ × ℕ) → ℕ → Bool
is_key none k = false
is_key (some (j, v)) k = j == k

-- `push_front` with the assertion on the size after it.
abbrev pushed : ℕ → Dll.Dll ℕ ℕ → ℕ → Option (Dll.Dll ℕ ℕ)
pushed fresh d n = do (d, _) ← Dll.push_front fresh d n n; _ ← assert (d.size == n); some d

abbrev popped : Dll.Dll ℕ ℕ → ℕ → Option (Dll.Dll ℕ ℕ)
popped d n = do (d, _) ← Dll.pop_back d; _ ← assert (d.size == n); some d

-- `pop_back` and `remove` with the assertions on the key and the size.
abbrev popped_key : Dll.Dll ℕ ℕ → ℕ → ℕ → Option (Dll.Dll ℕ ℕ)
popped_key d k n = do
  (d, entry) ← Dll.pop_back d
  _ ← assert (is_key entry k)
  _ ← assert (d.size == n)
  some d

abbrev removed_key : Dll.Dll ℕ ℕ → ℕ → ℕ → ℕ → Option (Dll.Dll ℕ ℕ)
removed_key d node k n = do
  (d, entry) ← Dll.remove d node
  _ ← assert (entry.0 == k)
  _ ← assert (d.size == n)
  some d

abbrev push_and_size : Option {0} Unit
push_and_size = do
  _ ← assert (Dll.is_empty (Dll.new {K = ℕ} {V = ℕ}))
  dll ← pushed 101 Dll.new 1
  _ ← pushed 102 dll 2
  some tt

abbrev push_and_pop : Option {0} Unit
push_and_pop = do
  _ ← assert (Dll.is_empty (Dll.new {K = ℕ} {V = ℕ}))
  dll ← pushed 101 Dll.new 1
  dll ← pushed 102 dll 2
  dll ← pushed 103 dll 3
  dll ← popped dll 2
  dll ← popped dll 1
  _ ← popped dll 0
  some tt

abbrev move_front_test : Option {0} Unit
move_front_test = do
  _ ← assert (Dll.is_empty (Dll.new {K = ℕ} {V = ℕ}))
  dll ← pushed 101 Dll.new 1
  dll ← pushed 102 dll 2
  dll ← pushed 103 dll 3
  dll ← Dll.move_to_front dll 102
  _ ← assert (dll.size == 3)
  dll ← Dll.move_to_front dll 101
  _ ← assert (dll.size == 3)
  dll ← popped_key dll 3 2
  dll ← popped_key dll 2 1
  _ ← popped_key dll 1 0
  some tt

abbrev remove_test : Option {0} Unit
remove_test = do
  _ ← assert (Dll.is_empty (Dll.new {K = ℕ} {V = ℕ}))
  dll ← pushed 101 Dll.new 1
  dll ← pushed 102 dll 2
  dll ← pushed 103 dll 3
  dll ← removed_key dll 102 2 2
  dll ← removed_key dll 101 1 1
  _ ← removed_key dll 103 3 0
  some tt

abbrev assert_size : Lru.Lru ℕ ℕ → ℕ → Option {0} Unit
assert_size c n = do size ← Lru.size c; assert (size == n)

abbrev assert_get : Lru.Lru ℕ ℕ → ℕ → Option ℕ → Option (Lru.Lru ℕ ℕ)
assert_get c k expected = do
  (c, found) ← Lru.get ℕ_discrete c k
  _ ← assert (same found expected)
  some c
  where
    same : Option ℕ → Option ℕ → Bool
    same none none = true
    same none (some b) = false
    same (some a) none = false
    same (some a) (some b) = a == b

abbrev lru_create_test : Option {0} Unit
lru_create_test = do
  lru ← Lru.new {K = ℕ} {V = ℕ} 3
  _ ← assert_size lru 0
  assert (Lru.is_empty lru)

abbrev lru_push_test : Option {0} Unit
lru_push_test = do
  lru ← Lru.new 3
  lru ← Lru.push ℕ_discrete 101 lru 1 1
  lru ← Lru.push ℕ_discrete 102 lru 2 2
  lru ← Lru.push ℕ_discrete 103 lru 3 3
  _ ← assert_size lru 3
  lru ← Lru.push ℕ_discrete 104 lru 4 4
  assert_size lru 3

abbrev lru_push_same_node_test : Option {0} Unit
lru_push_same_node_test = do
  lru ← Lru.new 3
  lru ← Lru.push ℕ_discrete 101 lru 1 1
  lru ← Lru.push ℕ_discrete 102 lru 2 2
  lru ← Lru.push ℕ_discrete 103 lru 3 3
  lru ← Lru.push ℕ_discrete 104 lru 1 4
  _ ← assert_size lru 3
  lru ← Lru.push ℕ_discrete 105 lru 4 5
  assert_size lru 3

abbrev lru_push_and_get_test : Option {0} Unit
lru_push_and_get_test = do
  lru ← Lru.new 3
  lru ← Lru.push ℕ_discrete 101 lru 1 1
  _ ← assert_size lru 1
  lru ← Lru.push ℕ_discrete 102 lru 2 2
  _ ← assert_size lru 2
  lru ← Lru.push ℕ_discrete 103 lru 3 3
  _ ← assert_size lru 3
  lru ← Lru.push ℕ_discrete 104 lru 4 4
  _ ← assert_size lru 3
  lru ← assert_get lru 1 none
  lru ← assert_get lru 4 (some 4)
  lru ← assert_get lru 2 (some 2)
  lru ← Lru.push ℕ_discrete 105 lru 5 5
  lru ← assert_get lru 3 none
  assert_size lru 3

dll_tests_pass :
    (push_and_size ≡ some tt)
    × (push_and_pop ≡ some tt)
    × (move_front_test ≡ some tt)
    × (remove_test ≡ some tt)
unfolding Dll.new Dll.is_empty Dll.set_next Dll.set_prev Dll.shrink Dll.link_front Dll.push_front
    Dll.cut_tail Dll.pop_back Dll.unlink_inner Dll.relink_front Dll.move_to_front Dll.cut Dll.remove
dll_tests_pass = (refl, refl, refl, refl)

lru_tests_pass :
    (lru_create_test ≡ some tt)
    × (lru_push_test ≡ some tt)
    × (lru_push_same_node_test ≡ some tt)
    × (lru_push_and_get_test ≡ some tt)
unfolding Dll.new Dll.set_next Dll.set_prev Dll.shrink Dll.link_front Dll.push_front Dll.cut_tail
    Dll.pop_back Dll.peek_back_ref Dll.unlink_inner Dll.relink_front Dll.move_to_front Dll.cut
    Dll.remove Lru.new Lru.size Lru.is_empty Lru.map_get Lru.map_remove Lru.map_insert Lru.decrement
    Lru.take_present Lru.evict Lru.add Lru.push Lru.get ℕ_discrete
lru_tests_pass = (refl, refl, refl, refl)
