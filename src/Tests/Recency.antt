-- ===== src/Tests/Recency.antt =====
-- A mutex cache of two entries: of three keys, the one that was not used is evicted.
use test_thread_safe_lru_cac.Base.{
  ℕ, refl, ◌≡◌, none, some, false, List, [], ◌∷◌, arith, ℕ_discrete,
}
use test_thread_safe_lru_cac.Basic.Dll
use test_thread_safe_lru_cac.Basic.Lru
use test_thread_safe_lru_cac.Basic.Safe.{ThreadSafeLru, new, push, get, locked}
use test_thread_safe_lru_cac.Basic.Safe.Concurrent.{
  Call, call_push, call_get, Reach, start, later, step_push, step_get,
}
use test_thread_safe_lru_cac.Basic.Safe.Recency.{IsRecent, Reach-IsRecent}

abbrev state0 : ThreadSafeLru ℕ ℕ
state0 = record { lru = record { dll = Dll.new; map = []; size = 0; cap = 2 }; poisoned = false }

abbrev state1 : ThreadSafeLru ℕ ℕ
state1 = (push ℕ_discrete 5 state0 1 10).0

abbrev state2 : ThreadSafeLru ℕ ℕ
state2 = (push ℕ_discrete 6 state1 2 20).0

abbrev state3 : ThreadSafeLru ℕ ℕ
state3 = (get ℕ_discrete state2 1).0

abbrev state4 : ThreadSafeLru ℕ ℕ
state4 = (push ℕ_discrete 7 state3 3 30).0

abbrev state5 : ThreadSafeLru ℕ ℕ
state5 = (get ℕ_discrete state4 2).0

abbrev history : List (Call ℕ ℕ)
history =
    call_get 1 (get ℕ_discrete state5 1).1
    ∷ call_get 2 (get ℕ_discrete state4 2).1
    ∷ call_push 3 30 (push ℕ_discrete 7 state3 3 30).1
    ∷ call_get 1 (get ℕ_discrete state2 1).1
    ∷ call_push 2 20 (push ℕ_discrete 6 state1 2 20).1
    ∷ call_push 1 10 (push ℕ_discrete 5 state0 1 10).1
    ∷ []

-- Key 2 is gone, key 1 is not.
evicted : (get ℕ_discrete state4 2).1 ≡ some none
unfolding Dll.new Dll.set_next Dll.set_prev Dll.shrink Dll.link_front Dll.push_front Dll.cut_tail
    Dll.pop_back Dll.peek_back_ref Dll.unlink_inner Dll.relink_front Dll.move_to_front Dll.cut
    Dll.remove Lru.new Lru.map_get Lru.map_remove Lru.map_insert Lru.decrement Lru.take_present
    Lru.evict Lru.add Lru.push Lru.get locked push get ℕ_discrete
evicted = refl

vacant2 : state1.lru.dll.cells 6 ≡ none
unfolding Dll.new Dll.set_next Dll.set_prev Dll.shrink Dll.link_front Dll.push_front Dll.cut_tail
    Dll.pop_back Dll.peek_back_ref Dll.unlink_inner Dll.relink_front Dll.move_to_front Dll.cut
    Dll.remove Lru.new Lru.map_get Lru.map_remove Lru.map_insert Lru.decrement Lru.take_present
    Lru.evict Lru.add Lru.push Lru.get locked push get ℕ_discrete
vacant2 = refl

vacant3 : state3.lru.dll.cells 7 ≡ none
unfolding Dll.new Dll.set_next Dll.set_prev Dll.shrink Dll.link_front Dll.push_front Dll.cut_tail
    Dll.pop_back Dll.peek_back_ref Dll.unlink_inner Dll.relink_front Dll.move_to_front Dll.cut
    Dll.remove Lru.new Lru.map_get Lru.map_remove Lru.map_insert Lru.decrement Lru.take_present
    Lru.evict Lru.add Lru.push Lru.get locked push get ℕ_discrete
vacant3 = refl

history-Reach : Reach ℕ_discrete 2 history (get ℕ_discrete state5 1).0
unfolding new Lru.new Dll.new
history-Reach =
    later
      (later
        (later
          (later (later (later (start refl) (step_push 5 1 10 refl)) (step_push 6 2 20 vacant2))
            (step_get 1))
          (step_push 7 3 30 vacant3))
        (step_get 2))
      (step_get 1)

Reach-IsRecent_example : IsRecent ℕ_discrete 2 history
Reach-IsRecent_example = Reach-IsRecent ℕ_discrete 2 (omega arith) history-Reach
