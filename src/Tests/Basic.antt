-- ===== src/Tests/Basic.antt =====
-- Runs of src/basic at capacity 2, and the theorems at them. The boxes stand at the addresses 5, 6
-- and 7.
use test_thread_safe_lru_cac.Base.{
  ℕ, ◌≡◌, ◌==◌, refl, false, none, some, List, [], ◌∷◌, if◌then◌else◌, arith, ℕ_discrete,
}
use test_thread_safe_lru_cac.Spec.{lru_push}
use test_thread_safe_lru_cac.Store.{entry_of}
use test_thread_safe_lru_cac.Basic.Dll
use test_thread_safe_lru_cac.Basic.Dll.Drop.{drop-IsValid}
use test_thread_safe_lru_cac.Basic.Dll.Methods.{
  IsValid, push_front-IsValid, remove-IsValid, pop_back-IsValid, move_to_front-IsValid,
}
use test_thread_safe_lru_cac.Basic.Lru
use test_thread_safe_lru_cac.Basic.Lru.Refine.{IsCacheOf}
use test_thread_safe_lru_cac.Basic.Lru.Methods.{push-IsCacheOf}
use test_thread_safe_lru_cac.Basic.Safe
use test_thread_safe_lru_cac.Basic.Safe.Concurrent.{
  Call, call_push, call_get, call_len, Reach, start, later, step_push, step_get, step_len,
  IsGuardOf, IsExplained, entries_after, Reach-IsGuardOf,
}

-- Key 2 in front of key 1.
abbrev pub two_boxes : Dll.Dll ℕ ℕ
two_boxes = record {
  cells = λ a.
      if a == 5
      then some (record { key = 1; value = 10; prev = some 6; next = none })
      else if a == 6
      then some (record { key = 2; value = 20; prev = none; next = some 5 })
      else none;
  head = some 6;
  tail = some 5;
  size = 2;
}

pub two_boxes-IsValid : IsValid two_boxes (6 ∷ 5 ∷ [])
two_boxes-IsValid = record {
  linked = record {
    distinct = (refl, (refl, tt));
    head_is = refl;
    tail_is = refl;
    linked = λ a m. ground arith;
  };
  live = λ a. ground arith;
  size_is = refl;
}

push_front-IsValid_example :
    (d' : Dll.Dll ℕ ℕ) × (Dll.push_front 7 two_boxes 3 30 ≡ some (d', 7))
    × IsValid d' (7 ∷ 6 ∷ 5 ∷ [])
    × ((b : ℕ)
        → entry_of (d'.cells b) ≡ (if 7 == b then some (3, 30) else entry_of (two_boxes.cells b)))
push_front-IsValid_example = push_front-IsValid two_boxes 7 3 30 (6 ∷ 5 ∷ []) two_boxes-IsValid refl

remove-IsValid_example :
    (d' : Dll.Dll ℕ ℕ) × (Dll.remove two_boxes 6 ≡ some (d', (2, 20)))
    × IsValid d' (5 ∷ [])
    × ((b : ℕ) → entry_of (d'.cells b) ≡ (if 6 == b then none else entry_of (two_boxes.cells b)))
remove-IsValid_example = remove-IsValid two_boxes (6 ∷ 5 ∷ []) two_boxes-IsValid 6 refl 2 20 refl

pop_back-IsValid_example :
    (d' : Dll.Dll ℕ ℕ) × (Dll.pop_back two_boxes ≡ some (d', some (1, 10)))
    × IsValid d' (6 ∷ [])
    × ((b : ℕ) → entry_of (d'.cells b) ≡ (if 5 == b then none else entry_of (two_boxes.cells b)))
pop_back-IsValid_example =
    pop_back-IsValid two_boxes (6 ∷ 5 ∷ []) two_boxes-IsValid 5 refl 1 10 refl refl

move_to_front-IsValid_example :
    (d' : Dll.Dll ℕ ℕ) × (Dll.move_to_front two_boxes 5 ≡ some d')
    × IsValid d' (5 ∷ 6 ∷ [])
    × ((b : ℕ) → entry_of (d'.cells b) ≡ entry_of (two_boxes.cells b))
move_to_front-IsValid_example =
    move_to_front-IsValid two_boxes (6 ∷ 5 ∷ []) two_boxes-IsValid 5 refl

drop-IsValid_example :
    (d' : Dll.Dll ℕ ℕ) × (Dll.drop 2 two_boxes ≡ some d') × ((b : ℕ) → d'.cells b ≡ none)
drop-IsValid_example = drop-IsValid 2 two_boxes (6 ∷ 5 ∷ []) two_boxes-IsValid refl

abbrev two_items : Lru.Lru ℕ ℕ
two_items = record {
  dll = two_boxes;
  map = (record { key_ref = 5 }, 5) ∷ (record { key_ref = 6 }, 6) ∷ [];
  size = 2;
  cap = 2;
}

two_items-IsCacheOf : IsCacheOf ℕ_discrete 2 two_items ((2, 20) ∷ (1, 10) ∷ [])
two_items-IsCacheOf = record {
  order = 6 ∷ 5 ∷ [];
  index = (1, 5) ∷ (2, 6) ∷ [];
  chain = two_boxes-IsValid;
  indexed = record {
    unique = ground arith;
    sound = λ k a e. ground arith;
    complete = λ k a e. ground arith;
  };
  resolves = (refl, refl, refl, (refl, refl, refl, tt));
  holds = refl;
  size_is = refl;
  bound = omega arith;
  cap_is = refl;
  positive = omega arith;
}

push-IsCacheOf_example :
    (c' : Lru.Lru ℕ ℕ) × (Lru.push ℕ_discrete 7 two_items 3 30 ≡ some c')
    × IsCacheOf ℕ_discrete 2 c' (lru_push ℕ_discrete 2 3 30 ((2, 20) ∷ (1, 10) ∷ []))
push-IsCacheOf_example = push-IsCacheOf ℕ_discrete 2 7 3 30 two_items-IsCacheOf refl

-- A thread pushes, another reads and asks for the size.
abbrev safe_new : Safe.ThreadSafeLru ℕ ℕ
safe_new = record { lru = record { dll = Dll.new; map = []; size = 0; cap = 2 }; poisoned = false }

abbrev safe_pushed : Safe.ThreadSafeLru ℕ ℕ
safe_pushed = (Safe.push ℕ_discrete 5 safe_new 1 10).0

abbrev safe_read : Safe.ThreadSafeLru ℕ ℕ
safe_read = (Safe.get ℕ_discrete safe_pushed 1).0

abbrev history : List (Call ℕ ℕ)
history =
    call_len (Safe.len safe_read).1
    ∷ call_get 1 (Safe.get ℕ_discrete safe_pushed 1).1
    ∷ call_push 1 10 (Safe.push ℕ_discrete 5 safe_new 1 10).1
    ∷ []

history-Reach : Reach ℕ_discrete 2 history (Safe.len safe_read).0
unfolding Safe.new Lru.new Dll.new
history-Reach = later (later (later (start refl) (step_push 5 1 10 refl)) (step_get 1)) step_len

Reach-IsGuardOf_example :
    IsGuardOf ℕ_discrete 2 (Safe.len safe_read).0 (entries_after ℕ_discrete 2 history)
    × IsExplained ℕ_discrete 2 history
Reach-IsGuardOf_example = Reach-IsGuardOf ℕ_discrete 2 (omega arith) history-Reach
