-- ===== src/Basic/Dll/Drop.antt =====
-- `Drop` of the doubly linked list: the loop of src/basic/dll.rs ends, and gives every box back.
use test_thread_safe_lru_cac.Base.{
  ℕ, zero, suc, ◌≡◌, ◌≢◌, refl, false, Option, none, some, List, [], ◌∷◌, arith, length,
  Option-cases, inl, inr,
}
use test_thread_safe_lru_cac.Chain.{erase, last_or, has-last_at}
use test_thread_safe_lru_cac.Chain.Erase.{length-erase}
use test_thread_safe_lru_cac.Basic.Dll.{Dll, drop, pop_back, is_empty}
use test_thread_safe_lru_cac.Basic.Dll.Methods.{IsValid, pop_back-IsValid}

last_or-some : (x : ℕ) (xs : List ℕ) → last_or (some x) xs ≢ none
last_or-some x [] h = ground arith
last_or-some x (y ∷ ys) h = last_or-some y ys h

module _ {K V : Type 0} where
  freed : (d : Dll K V) → IsValid d [] → (b : ℕ) → d.cells b ≡ none
  freed d v b = elim (Option-cases (d.cells b)) [
    | inl o ↦ o
    | inr (n, o) ↦ absurd (ground (arith, v.live b))
  ]

  drop_round :
      (n : ℕ) (d d1 : Dll K V) (popped : Option (K × V)) (d2 : Dll K V)
      → is_empty d ≡ false
      → pop_back d ≡ some (d1, popped)
      → drop n d1 ≡ some d2
      → drop (suc n) d ≡ some d2
  unfolding drop
  drop_round n d d1 popped d2 busy e1 e2 = rw (busy, e1, e2) refl

  -- The loop of drop on a valid list ends after as many rounds as the list has nodes, without a
  -- fault, and leaves no live box.
  pub drop-IsValid :
      (rounds : ℕ) (d : Dll K V) (xs : List ℕ)
      → IsValid d xs
      → length xs ≡ rounds
      → (d' : Dll K V) × (drop rounds d ≡ some d') × ((b : ℕ) → d'.cells b ≡ none)
  unfolding drop is_empty
  drop-IsValid zero d [] v e = (d, ground (arith, v.size_is), freed d v)
  drop-IsValid zero d (x ∷ xs) v e = absurd (omega arith)
  drop-IsValid (suc n) d [] v e = absurd (omega arith)
  drop-IsValid (suc n) d (x ∷ xs) v e = elim (Option-cases (last_or (some x) xs)) [
    | inl o ↦ absurd (last_or-some x xs o)
    | inr (t, o) ↦
        let m = has-last_at t (x ∷ xs) (ground (arith, o)) in
        elim (Option-cases (d.cells t)) [
          | inl none_there ↦ absurd (ground (arith, v.live t))
          | inr (node, there) ↦
              let (d1, e1, v1, same) =
                pop_back-IsValid d (x ∷ xs) v t m node.key node.value o (ground arith) in
              let (d2, e2, gone) =
                drop-IsValid n d1 (erase t (x ∷ xs)) v1
                  (omega (arith, length-erase t (x ∷ xs) m)) in
              (d2, drop_round n d d1 _ d2 (ground (arith, v.size_is)) e1 e2, gone)
        ]
  ]
