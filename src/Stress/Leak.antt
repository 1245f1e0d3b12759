-- ===== src/Stress/Leak.antt =====
-- The tests of src/basic/dll.rs that fill a list with thousands of nodes, for any number of rounds.
-- The allocator gives the box of round `i` the address `alloc i`. The list is dropped at the end.
use test_thread_safe_lru_cac.Base.{
  ℕ, zero, suc, ◌+◌, ◌%◌, ◌<◌, ◌≡◌, refl, sym, ◌∙◌, Bool, true, false, Option, none, some, List, [],
  ◌∷◌, ◌==◌, ==_refl, if◌then◌else◌, length, ◌>>=◌, arith, Option-cases, inl, inr, Bool-cases,
  zero_add, suc_add, shift,
}
use test_thread_safe_lru_cac.Chain.{has, erase, has-erase}
use test_thread_safe_lru_cac.Chain.Erase.{length-erase}
use test_thread_safe_lru_cac.Basic.Dll.{Dll, new, is_empty, push_front, move_to_front, drop}
use test_thread_safe_lru_cac.Basic.Dll.Methods.{IsValid, push_front-IsValid, move_to_front-IsValid}
use test_thread_safe_lru_cac.Basic.Dll.Drop.{drop-IsValid}

abbrev pub assert : Bool → Option {0} Unit
assert true = some tt
assert false = none

module _ (alloc : ℕ → ℕ) where
  unfoldable pub memory_leak_loop : ℕ → ℕ → Dll ℕ ℕ → Option (Dll ℕ ℕ)
  memory_leak_loop zero i dll = some dll
  memory_leak_loop (suc rounds) i dll = do
    (dll, _) ← push_front (alloc i) dll i i
    _ ← assert (dll.size == i)
    memory_leak_loop rounds (i + 1) dll

  unfoldable pub memory_leak_test : ℕ → Option (Dll ℕ ℕ)
  unfolding memory_leak_loop
  memory_leak_test rounds = do
    _ ← assert (is_empty (new {K = ℕ} {V = ℕ}))
    dll ← memory_leak_loop rounds 1 new
    drop rounds dll

  unfoldable pub move_front_loop : ℕ → ℕ → Dll ℕ ℕ → Option (Dll ℕ ℕ)
  move_front_loop zero i dll = some dll
  move_front_loop (suc rounds) i dll = do
    (dll, node) ← push_front (alloc i) dll i i
    dll ← (let moved = move_to_front dll node in if i % 5 == 0 then moved else some dll)
    _ ← assert (dll.size == i)
    move_front_loop rounds (i + 1) dll

  unfoldable pub move_front_memory_leak_test : ℕ → Option (Dll ℕ ℕ)
  unfolding move_front_loop
  move_front_memory_leak_test rounds = do
    _ ← assert (is_empty (new {K = ℕ} {V = ℕ}))
    dll ← move_front_loop rounds 1 new
    drop rounds dll

  -- The list before round `i`: its boxes are those of earlier rounds.
  record Filled (i : ℕ) (d : Dll ℕ ℕ) : Type 0 where
    order : List ℕ
    valid : IsValid d order
    count : suc (length order) ≡ i
    old : (b : ℕ) → has b order ≡ true → (j : ℕ) × (j < i) × (b ≡ alloc j)

  module _ (fresh : (i j : ℕ) → alloc i ≡ alloc j → i ≡ j) where
    push_round :
        (i : ℕ) (d : Dll ℕ ℕ)
        → Filled i d
        → (d' : Dll ℕ ℕ) × (order : List ℕ) × (push_front (alloc i) d i i ≡ some (d', alloc i))
          × (d'.size ≡ i)
          × Filled (suc i) d'
          × IsValid d' (alloc i ∷ order)
    push_round i d f =
        let (d', ran, v, _) = push_front-IsValid d (alloc i) i i f.order f.valid vacant in
        (
          d',
          f.order,
          ran,
          omega (arith, v.size_is, f.count),
          record {
            order = alloc i ∷ f.order;
            valid = v;
            count = omega (arith, f.count);
            old = λ b m. elim (Bool-cases (b == alloc i)) [
              | inl e ↦ (i, omega arith, ground (arith, e))
              | inr e ↦ let (j, lt, is) = f.old b (ground (arith, m, e)) in (j, omega arith, is)
            ];
          },
          v,
        )
      where
        new_address : has (alloc i) f.order ≡ true → ⊥
        new_address m = let (j, lt, is) = f.old (alloc i) m in omega (arith, fresh i j is)

        vacant : d.cells (alloc i) ≡ none
        vacant = elim (Option-cases (d.cells (alloc i))) [
          | inl o ↦ o
          | inr (n, o) ↦ absurd (new_address (ground (arith, f.valid.live (alloc i))))
        ]

    moved_round :
        (i : ℕ) (d : Dll ℕ ℕ) (order : List ℕ)
        → Filled (suc i) d
        → IsValid d (alloc i ∷ order)
        → (d' : Dll ℕ ℕ) × (move_to_front d (alloc i) ≡ some d') × Filled (suc i) d'
    moved_round i d order f v =
        let (d', ran, w, _) = move_to_front-IsValid d f.order f.valid (alloc i) member in
        (
          d',
          ran,
          record {
            order = alloc i ∷ erase (alloc i) f.order;
            valid = w;
            count = omega (arith, f.count, length-erase (alloc i) f.order member);
            old = λ b m.
                f.old b (
                  ground (arith, m, member, has-erase (alloc i) b f.order f.valid.linked.distinct));
          },
        )
      where
        member : has (alloc i) f.order ≡ true
        member = sym (f.valid.live (alloc i)) ∙ v.live (alloc i) ∙ ground (arith, ==_refl (alloc i))

    memory_leak_rounds :
        (rounds i : ℕ) (d : Dll ℕ ℕ)
        → Filled i d
        → (d' : Dll ℕ ℕ) × (memory_leak_loop rounds i d ≡ some d') × Filled (rounds + i) d'
    unfolding memory_leak_loop
    memory_leak_rounds zero i d f = (d, refl, rw (zero_add i) f)
    memory_leak_rounds (suc rounds) i d f =
        let (d1, order, ran, size, f1, _) = push_round i d f in
        let (d2, rest, f2) = memory_leak_rounds rounds (i + 1) d1 (rw (suc_add i) f1) in
        (d2, rw (ran, size, ==_refl i) rest, rw (shift rounds i) f2)

    maybe_moved :
        (i : ℕ) (d : Dll ℕ ℕ) (order : List ℕ) (b : Bool)
        → Filled (suc i) d
        → IsValid d (alloc i ∷ order)
        → (d' : Dll ℕ ℕ) × ((if b then move_to_front d (alloc i) else some d) ≡ some d')
          × Filled (suc i) d'
    maybe_moved i d order true f v = moved_round i d order f v
    maybe_moved i d order false f v = (d, refl, f)

    size_before : (i : ℕ) (d : Dll ℕ ℕ) → Filled (suc i) d → d.size ≡ i
    size_before i d f = omega (arith, f.valid.size_is, f.count)

    move_front_rounds :
        (rounds i : ℕ) (d : Dll ℕ ℕ)
        → Filled i d
        → (d' : Dll ℕ ℕ) × (move_front_loop rounds i d ≡ some d') × Filled (rounds + i) d'
    unfolding move_front_loop
    move_front_rounds zero i d f = (d, refl, rw (zero_add i) f)
    move_front_rounds (suc rounds) i d f =
        let (d1, order, ran, _, f1, v1) = push_round i d f in
        let (d2, moved, f2) = maybe_moved i d1 order (i % 5 == 0) f1 v1 in
        let (d3, rest, f3) = move_front_rounds rounds (i + 1) d2 (rw (suc_add i) f2) in
        (d3, rw (ran, moved, size_before i d2 f2, ==_refl i) rest, rw (shift rounds i) f3)

    new-Filled : Filled 1 new
    unfolding new
    new-Filled = record {
      order = [];
      valid = record {
        linked = record {
          distinct = tt;
          head_is = refl;
          tail_is = refl;
          linked = λ a m. ground arith;
        };
        live = λ a. refl;
        size_is = refl;
      };
      count = refl;
      old = λ b m. absurd (ground arith);
    }

    new_is_empty : is_empty (new {K = ℕ} {V = ℕ}) ≡ true
    unfolding new is_empty
    new_is_empty = refl

    -- For any number of rounds, if no two rounds get the same address, the leak tests of the list
    -- pass all their assertions, with and without the moves to the front, and the drop of the list
    -- gives every box back.
    pub memory_leak_test_lem :
        (rounds : ℕ)
        → (d d' : Dll ℕ ℕ) × ((memory_leak_test rounds ≡ some d) × ((b : ℕ) → d.cells b ≡ none))
          × ((move_front_memory_leak_test rounds ≡ some d') × ((b : ℕ) → d'.cells b ≡ none))
    unfolding memory_leak_test move_front_memory_leak_test
    memory_leak_test_lem rounds =
        let (d1, ran1, f1) = memory_leak_rounds rounds 1 new new-Filled in
        let (d2, dropped, gone) =
          drop-IsValid rounds d1 f1.order f1.valid (omega (arith, f1.count)) in
        let (d3, ran3, f3) = move_front_rounds rounds 1 new new-Filled in
        let (d4, dropped', gone') =
          drop-IsValid rounds d3 f3.order f3.valid (omega (arith, f3.count)) in
        (
          d2,
          d4,
          (rw (new_is_empty, ran1, dropped) refl, gone),
          (rw (new_is_empty, ran3, dropped') refl, gone'),
        )
