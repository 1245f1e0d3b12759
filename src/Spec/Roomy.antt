-- ===== src/Spec/Roomy.antt =====
-- A push on a cache that is not full, or of a present key, keeps every other entry.
use test_thread_safe_lru_cac.Base.{
  ℕ, suc, ◌≤◌, ◌<◌, ◌≡◌, ◌≢◌, ap, List, [], ◌∷◌, ◌++◌, length, is_some, arith, Option-cases, inl,
  inr, if_neg, refl, none, true,
}
use test_thread_safe_lru_cac.Assoc
use test_thread_safe_lru_cac.Spec.{
  lru_get, lru_push, fifo_push, lru_push_hit, lru_push_roomy, lru_get_hit, lru_get_miss,
  fifo_push_hit, fifo_push_miss, get-append_other,
}

module _ {K V : Type 0} (dec : Discrete K) where
  pub length-remove_le : (k : K) (l : List (K × V)) → length (Assoc.remove dec k l) ≤ length l
  length-remove_le k [] = omega arith
  length-remove_le k ((j, w) ∷ l) = ground (arith, length-remove_le k l)

  pub length-lru_get : (k : K) (l : List (K × V)) → length (lru_get dec k l) ≤ length l
  length-lru_get k l = elim (Option-cases (Assoc.get dec k l)) [
    | inl o ↦ rw (lru_get_miss dec k l o) (omega arith)
    | inr (w, o) ↦
        rw (lru_get_hit dec k l o) (omega (arith, Assoc.length-remove dec k l (ap is_some o)))
  ]

  pub length-lru_push :
      (cap : ℕ) (k : K) (v : V) (l : List (K × V))
      → length l < cap
      → length (lru_push dec cap k v l) ≤ suc (length l)
  length-lru_push cap k v l h = elim (Option-cases (Assoc.get dec k l)) [
    | inl o ↦ rw (lru_push_roomy dec cap k v l o h) (omega arith)
    | inr (w, o) ↦ rw (lru_push_hit dec cap k v l o) (omega (arith, length-remove_le k l))
  ]

  pub get-lru_push_roomy :
      (cap : ℕ) (k j : K) (v : V) (l : List (K × V))
      → j ≢ k
      → length l < cap
      → Assoc.get dec j (lru_push dec cap k v l) ≡ Assoc.get dec j l
  get-lru_push_roomy cap k j v l ne h = elim (Option-cases (Assoc.get dec k l)) [
    | inl o ↦ rw (lru_push_roomy dec cap k v l o h) (if_neg (dec j k) ne _ _)
    | inr (w, o) ↦
        rw (lru_push_hit dec cap k v l o, if_neg (dec j k) ne) (Assoc.get-remove_ne dec k j l ne)
  ]

  fifo_push_roomy :
      (cap : ℕ) (k : K) (v : V) (l : List (K × V))
      → Assoc.get dec k l ≡ none
      → length l < cap
      → fifo_push dec cap k v l ≡ l ++ (k, v) ∷ []
  fifo_push_roomy cap k v l e h = rw (fifo_push_miss dec cap k v l e) (ground arith)

  length-append_last : (x : K × V) (l : List (K × V)) → length (l ++ x ∷ []) ≡ suc (length l)
  length-append_last x [] = refl
  length-append_last x (y ∷ l) = ap suc (length-append_last x l)

  pub length-fifo_push :
      (cap : ℕ) (k : K) (v : V) (l : List (K × V))
      → length l < cap
      → length (fifo_push dec cap k v l) ≤ suc (length l)
  length-fifo_push cap k v l h = elim (Option-cases (Assoc.get dec k l)) [
    | inl o ↦ rw (fifo_push_roomy cap k v l o h) (omega (arith, length-append_last (k, v) l))
    | inr (w, o) ↦
        rw (fifo_push_hit dec cap k v l o)
          (omega (arith, length-append_last (k, v) (Assoc.remove dec k l), length-remove_le k l))
  ]

  pub get-fifo_push_roomy :
      (cap : ℕ) (k j : K) (v : V) (l : List (K × V))
      → j ≢ k
      → length l < cap
      → Assoc.get dec j (fifo_push dec cap k v l) ≡ Assoc.get dec j l
  get-fifo_push_roomy cap k j v l ne h = elim (Option-cases (Assoc.get dec k l)) [
    | inl o ↦ rw (fifo_push_roomy cap k v l o h) (get-append_other dec k j v l ne)
    | inr (w, o) ↦
        rw (fifo_push_hit dec cap k v l o, get-append_other dec k j v _ ne)
          (Assoc.get-remove_ne dec k j l ne)
  ]

  pub get-lru_push_present :
      (cap : ℕ) (k j : K) (v : V) (l : List (K × V))
      → j ≢ k
      → is_some (Assoc.get dec k l) ≡ true
      → Assoc.get dec j (lru_push dec cap k v l) ≡ Assoc.get dec j l
  get-lru_push_present cap k j v l ne h = elim (Option-cases (Assoc.get dec k l)) [
    | inl o ↦ absurd (ground (arith, o))
    | inr (w, o) ↦
        rw (lru_push_hit dec cap k v l o, if_neg (dec j k) ne) (Assoc.get-remove_ne dec k j l ne)
  ]

  pub get-fifo_push_present :
      (cap : ℕ) (k j : K) (v : V) (l : List (K × V))
      → j ≢ k
      → is_some (Assoc.get dec k l) ≡ true
      → Assoc.get dec j (fifo_push dec cap k v l) ≡ Assoc.get dec j l
  get-fifo_push_present cap k j v l ne h = elim (Option-cases (Assoc.get dec k l)) [
    | inl o ↦ absurd (ground (arith, o))
    | inr (w, o) ↦
        rw (fifo_push_hit dec cap k v l o, get-append_other dec k j v _ ne)
          (Assoc.get-remove_ne dec k j l ne)
  ]
