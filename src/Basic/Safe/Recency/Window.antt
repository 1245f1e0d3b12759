-- ===== src/Basic/Safe/Recency/Window.antt =====
-- A cache as a window on the list of all entries ever used.
use test_thread_safe_lru_cac.Base.{
  ℕ, zero, suc, ◌≡◌, ◌≢◌, refl, ap, ◌∙◌, none, some, List, [], ◌∷◌, ite, arith, length, ltb, leb,
  is_some, true, if◌then◌else◌, Option-cases, inl, inr,
}
use test_thread_safe_lru_cac.Assoc
use test_thread_safe_lru_cac.Spec.{
  drop_last, lru_push, lru_get, lru_push_hit, lru_push_miss, lru_get_hit,
}

module _ {ℓ} {A : Type ℓ} where
  abbrev pub take : ℕ → List A → List A
  take zero l = []
  take (suc n) [] = []
  take (suc n) (x ∷ l) = x ∷ take n l

module _ {K V : Type 0} (dec : Discrete K) where
  -- A use puts the entry in front.
  abbrev pub touch : K → V → List (K × V) → List (K × V)
  touch k v h = (k, v) ∷ Assoc.remove dec k h

  -- The keys in front of a key.
  abbrev pub before : K → List (K × V) → List K
  before k [] = []
  before k ((j, v) ∷ h) = ite (dec k j) [] (j ∷ before k h)

  pub get-take :
      (k : K) (n : ℕ) (h : List (K × V))
      → Assoc.get dec k (take n h)
        ≡ (if ltb (length (before k h)) n then Assoc.get dec k h else none)
  get-take k zero h = ground arith
  get-take k (suc n) [] = ground arith
  get-take k (suc n) ((j, v) ∷ h) = ground (arith, get-take k n h)

module _ {K : Type 0} (dec : Discrete K) where
  -- The keys without one.
  abbrev pub delete : K → List K → List K
  delete k [] = []
  delete k (j ∷ js) = ite (dec k j) js (j ∷ delete k js)

module _ {K V : Type 0} (dec : Discrete K) where
  before-remove :
      (k j : K) (h : List (K × V))
      → k ≢ j
      → before dec k (Assoc.remove dec j h) ≡ delete dec j (before dec k h)
  before-remove k j [] ne = refl
  before-remove k j ((i, w) ∷ h) ne = ground (arith, before-remove k j h)

  pub before-touch :
      (k j : K) (v : V) (h : List (K × V))
      → before dec k (touch dec j v h) ≡ ite (dec k j) [] (j ∷ delete dec j (before dec k h))
  before-touch k j v h = ground (arith, before-remove k j h)

  take-remove_in :
      (k : K) (m : ℕ) (h : List (K × V))
      → is_some (Assoc.get dec k (take (suc m) h)) ≡ true
      → Assoc.remove dec k (take (suc m) h) ≡ take m (Assoc.remove dec k h)
  take-remove_in k m [] e = ground arith
  take-remove_in k zero ((j, w) ∷ h) e = ground arith
  take-remove_in k (suc m) ((j, w) ∷ h) e = ground (arith, take-remove_in k m h)

  take-remove_out :
      (k : K) (m : ℕ) (h : List (K × V))
      → Assoc.get dec k (take (suc m) h) ≡ none
      → (if leb (suc m) (length (take (suc m) h))
          then drop_last (take (suc m) h)
          else take (suc m) h)
        ≡ take m (Assoc.remove dec k h)
  take-remove_out k zero [] e = ground arith
  take-remove_out k (suc m) [] e = ground arith
  take-remove_out k zero ((j, w) ∷ h) e = ground arith
  take-remove_out k (suc m) ((j, w) ∷ []) e = ground (arith, take-remove_out k m [])
  take-remove_out k (suc m) ((j, w) ∷ x ∷ h) e = ground (arith, take-remove_out k m (x ∷ h))

  pub lru_push-take :
      (m : ℕ) (k : K) (v : V) (h : List (K × V))
      → lru_push dec (suc m) k v (take (suc m) h) ≡ take (suc m) (touch dec k v h)
  lru_push-take m k v h = elim (Option-cases (Assoc.get dec k (take (suc m) h))) [
    | inl e ↦ lru_push_miss dec (suc m) k v _ e ∙ ap (◌∷◌ (k, v)) (take-remove_out k m h e)
    | inr (w, e) ↦
        lru_push_hit dec (suc m) k v _ e ∙ ap (◌∷◌ (k, v)) (take-remove_in k m h (ap is_some e))
  ]

  pub lru_get-take :
      (m : ℕ) (k : K) (v : V) (h : List (K × V))
      → Assoc.get dec k (take (suc m) h) ≡ some v
      → lru_get dec k (take (suc m) h) ≡ take (suc m) (touch dec k v h)
  lru_get-take m k v h e =
      lru_get_hit dec k _ e ∙ ap (◌∷◌ (k, v)) (take-remove_in k m h (ap is_some e))

  pub get-touch :
      (k j : K) (v : V) (h : List (K × V))
      → Assoc.get dec k (touch dec j v h) ≡ ite (dec k j) (some v) (Assoc.get dec k h)
  get-touch k j v h = ground (arith, Assoc.get-remove_ne dec j k h)
