-- ===== src/Basic/Lru/Map.antt =====
-- The map of key references against the map of the keys that they point to.
use test_thread_safe_lru_cac.Base.{ℕ, ◌≡◌, ◌≢◌, refl, none, some, List, [], ◌∷◌, arith, if_pos}
use test_thread_safe_lru_cac.Assoc
use test_thread_safe_lru_cac.Store.{Store, key_of}
use test_thread_safe_lru_cac.Basic.Lru.{KeyRef, map_get, map_remove, map_insert}

module _ {K V : Type 0} where
  -- Every key reference points into the live box of its own node, at the key that `am` has.
  abbrev pub Resolves : Store K V → List (KeyRef × ℕ) → List (K × ℕ) → Type 0
  Resolves s [] [] = Unit
  Resolves s [] (e ∷ am) = ⊥
  Resolves s (e ∷ m) [] = ⊥
  Resolves s ((r, node) ∷ m) ((k, a) ∷ am) =
      (r.key_ref ≡ node) × (node ≡ a) × (key_of (s a) ≡ some k) × Resolves s m am

module _ {K V : Type 0} (dec : Discrete K) (s : Store K V) where
  pub map_get_lem :
      (k : K) (m : List (KeyRef × ℕ)) (am : List (K × ℕ))
      → Resolves s m am
      → map_get dec s k m ≡ some (Assoc.get dec k am)
  unfolding map_get
  map_get_lem k [] [] r = refl
  map_get_lem k [] (e ∷ am) r = absurd r
  map_get_lem k (e ∷ m) [] r = absurd r
  map_get_lem k ((x, node) ∷ m) ((j, a) ∷ am) r = ground (arith, map_get_lem k m am)

  pub map_remove_lem :
      (k : K) (m : List (KeyRef × ℕ)) (am : List (K × ℕ))
      → Resolves s m am
      → (m' : List (KeyRef × ℕ)) × (map_remove dec s k m ≡ some m')
        × Resolves s m' (Assoc.remove dec k am)
  unfolding map_remove
  map_remove_lem k [] [] r = ([], refl, tt)
  map_remove_lem k [] (e ∷ am) r = absurd r
  map_remove_lem k (e ∷ m) [] r = absurd r
  map_remove_lem k ((x, node) ∷ m) ((j, a) ∷ am) r = elim (dec k j) [
    | yes p ↦ (m, ground arith, rw (if_pos (dec k j) p) r.3)
    | no p ↦
        let (m', e, r') = map_remove_lem k m am r.3 in ((x, node) ∷ m', ground arith, ground arith)
  ]

  pub map_insert_lem :
      (x : KeyRef) (i : ℕ) (k : K) (m : List (KeyRef × ℕ)) (am : List (K × ℕ))
      → Resolves s m am
      → x.key_ref ≡ i
      → key_of (s i) ≡ some k
      → Assoc.get dec k am ≡ none
      → (m' : List (KeyRef × ℕ)) × (map_insert dec s x i m ≡ some m')
        × Resolves s m' (Assoc.insert dec k i am)
  unfolding map_insert
  map_insert_lem x i k [] [] r e h f = ((x, i) ∷ [], refl, (e, refl, h, tt))
  map_insert_lem x i k [] (_ ∷ am) r e h f = absurd r
  map_insert_lem x i k (_ ∷ m) [] r e h f = absurd r
  map_insert_lem x i k ((y, node) ∷ m) ((j, a) ∷ am) r e h f = elim (dec k j) [
    | yes p ↦ absurd (ground arith)
    | no p ↦
        let (m', e', r') = map_insert_lem x i k m am r.3 e h (ground arith) in
        ((y, node) ∷ m', ground arith, ground arith)
  ]

  -- Boxes that hold no key of the map may change.
  pub Resolves-cong :
      (t : Store K V) (m : List (KeyRef × ℕ)) (am : List (K × ℕ))
      → ((b : ℕ) (j : K)
          → Assoc.get dec j am ≢ none
          → key_of (s b) ≡ some j
          → key_of (t b) ≡ some j)
      → Resolves s m am
      → Resolves t m am
  Resolves-cong t [] [] h r = tt
  Resolves-cong t [] (e ∷ am) h r = absurd r
  Resolves-cong t (e ∷ m) [] h r = absurd r
  Resolves-cong t ((x, node) ∷ m) ((k, a) ∷ am) h r = (
    r.0,
    r.1,
    h a k (rw (if_pos (dec k k) refl) (λ e. ground arith)) r.2,
    Resolves-cong t m am (λ b j g. h b j (tail_ne j g)) r.3,
  )
    where
      tail_ne : (j : K) → Assoc.get dec j am ≢ none → Assoc.get dec j ((k, a) ∷ am) ≢ none
      tail_ne j g e = ground arith
