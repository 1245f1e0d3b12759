-- ===== src/Spec.antt =====
-- What a cache promises, over its contents as a list of keys and values: most recently used first
-- for the LRU policy, oldest first for the FIFO policy.
pub mod Filled
pub mod Roomy
use test_thread_safe_lru_cac.Base.{
  ℕ, ◌≡◌, none, some, List, [], ◌∷◌, ◌++◌, leb, if◌then◌else◌, length, Option-cases, if_pos, arith,
  Bool, inl, inr, refl, true, false, ◌<◌, ◌⊎◌, ◌≢◌, if_neg,
}
use test_thread_safe_lru_cac.Assoc

abbrev pub drop_last {ℓ} : {A : Type ℓ} → List A → List A
drop_last [] = []
drop_last (e ∷ []) = []
drop_last (e ∷ f ∷ l) = e ∷ drop_last (f ∷ l)

abbrev pub drop_first {ℓ} : {A : Type ℓ} → List A → List A
drop_first [] = []
drop_first (e ∷ l) = l

module _ {K V : Type 0} (dec : Discrete K) where
  -- A hit becomes the most recent entry.
  abbrev pub lru_get : K → List (K × V) → List (K × V)
  lru_get k l = elim (Assoc.get dec k l) [ none ↦ l | some v ↦ (k, v) ∷ Assoc.remove dec k l ]

  -- A present key is moved to the front with its new value; a new key evicts the last entry of a
  -- full cache.
  abbrev pub lru_push : ℕ → K → V → List (K × V) → List (K × V)
  lru_push cap k v l = elim (Assoc.get dec k l) [
    | none ↦ (k, v) ∷ (if leb cap (length l) then drop_last l else l)
    | some _ ↦ (k, v) ∷ Assoc.remove dec k l
  ]

  -- A present key is moved to the back with its new value; a new key evicts the first entry of a
  -- full cache.
  abbrev pub fifo_push : ℕ → K → V → List (K × V) → List (K × V)
  fifo_push cap k v l = elim (Assoc.get dec k l) [
    | none ↦ (if leb cap (length l) then drop_first l else l) ++ (k, v) ∷ []
    | some _ ↦ Assoc.remove dec k l ++ (k, v) ∷ []
  ]

  pub lru_push_hit :
      (cap : ℕ) (k : K) (v : V) (l : List (K × V)) {w : V}
      → Assoc.get dec k l ≡ some w
      → lru_push cap k v l ≡ (k, v) ∷ Assoc.remove dec k l
  lru_push_hit cap k v l e = rw (e, lru_push)

  pub lru_push_miss :
      (cap : ℕ) (k : K) (v : V) (l : List (K × V))
      → Assoc.get dec k l ≡ none
      → lru_push cap k v l ≡ (k, v) ∷ (if leb cap (length l) then drop_last l else l)
  lru_push_miss cap k v l e = rw (e, lru_push)

  pub lru_push_roomy :
      (cap : ℕ) (k : K) (v : V) (l : List (K × V))
      → Assoc.get dec k l ≡ none
      → length l < cap
      → lru_push cap k v l ≡ (k, v) ∷ l
  lru_push_roomy cap k v l e h = rw (lru_push_miss cap k v l e) (ground arith)

  pub lru_get_hit :
      (k : K) (l : List (K × V)) {v : V}
      → Assoc.get dec k l ≡ some v
      → lru_get k l ≡ (k, v) ∷ Assoc.remove dec k l
  lru_get_hit k l e = rw (e, lru_get)

  pub lru_get_miss : (k : K) (l : List (K × V)) → Assoc.get dec k l ≡ none → lru_get k l ≡ l
  lru_get_miss k l e = rw (e, lru_get)

  pub fifo_push_hit :
      (cap : ℕ) (k : K) (v : V) (l : List (K × V)) {w : V}
      → Assoc.get dec k l ≡ some w
      → fifo_push cap k v l ≡ Assoc.remove dec k l ++ (k, v) ∷ []
  fifo_push_hit cap k v l e = rw (e, fifo_push)

  pub fifo_push_miss :
      (cap : ℕ) (k : K) (v : V) (l : List (K × V))
      → Assoc.get dec k l ≡ none
      → fifo_push cap k v l ≡ (if leb cap (length l) then drop_first l else l) ++ (k, v) ∷ []
  fifo_push_miss cap k v l e = rw (e, fifo_push)

  -- The pushed key is found with its new value.
  pub get-lru_push :
      (cap : ℕ) (k : K) (v : V) (l : List (K × V)) → Assoc.get dec k (lru_push cap k v l) ≡ some v
  get-lru_push cap k v l = elim (Option-cases (Assoc.get dec k l)) [
    | inl e ↦ rw (lru_push_miss cap k v l e) (if_pos (dec k k) refl _ _)
    | inr (w, e) ↦ rw (lru_push_hit cap k v l e) (if_pos (dec k k) refl _ _)
  ]

  -- A read hides no key and shows none.
  pub get-lru_get : (k j : K) (l : List (K × V)) → Assoc.get dec j (lru_get k l) ≡ Assoc.get dec j l
  get-lru_get k j l = elim (Option-cases (Assoc.get dec k l)) [
    | inl e ↦ rw (lru_get_miss k l e)
    | inr (w, e) ↦ rw (lru_get_hit k l e) (ground (arith, Assoc.get-remove_ne dec k j l))
  ]

  get-append_last :
      (k : K) (v : V) (l : List (K × V))
      → Assoc.get dec k l ≡ none
      → Assoc.get dec k (l ++ (k, v) ∷ []) ≡ some v
  get-append_last k v [] e = if_pos (dec k k) refl _ _
  get-append_last k v ((j, w) ∷ l) e = ground (arith, get-append_last k v l)

  get-drop_first :
      (k : K) (l : List (K × V)) → Assoc.get dec k l ≡ none → Assoc.get dec k (drop_first l) ≡ none
  get-drop_first k [] e = refl
  get-drop_first k ((j, w) ∷ l) e = ground arith

  get-kept_first :
      (b : Bool) (k : K) (l : List (K × V))
      → Assoc.get dec k l ≡ none
      → Assoc.get dec k (if b then drop_first l else l) ≡ none
  get-kept_first true k l e = get-drop_first k l e
  get-kept_first false k l e = e

  pub get-fifo_push :
      (cap : ℕ) (k : K) (v : V) (l : List (K × V))
      → Assoc.Unique dec l
      → Assoc.get dec k (fifo_push cap k v l) ≡ some v
  get-fifo_push cap k v l u = elim (Option-cases (Assoc.get dec k l)) [
    | inl e ↦
        rw (fifo_push_miss cap k v l e)
          (get-append_last k v _ (get-kept_first (leb cap (length l)) k l e))
    | inr (w, e) ↦
        rw (fifo_push_hit cap k v l e) (get-append_last k v _ (Assoc.get-remove_self dec k l u))
  ]

  -- What a push leaves of another entry: all of it, or nothing.
  abbrev pub IsKept : K → List (K × V) → List (K × V) → Type 0
  IsKept j m l = (Assoc.get dec j m ≡ none) ⊎ (Assoc.get dec j m ≡ Assoc.get dec j l)

  drop_last-IsKept : (j : K) (l : List (K × V)) → IsKept j (drop_last l) l
  drop_last-IsKept j [] = inl refl
  drop_last-IsKept j (e ∷ []) = inl refl
  drop_last-IsKept j ((k, v) ∷ e ∷ l) = elim (dec j k) [
    | yes p ↦ inr (ground arith)
    | no p ↦ elim (drop_last-IsKept j (e ∷ l)) [
      | inl g ↦ inl (ground arith)
      | inr g ↦ inr (ground arith)
    ]
  ]

  drop_first-IsKept : (j : K) (l : List (K × V)) → Assoc.Unique dec l → IsKept j (drop_first l) l
  drop_first-IsKept j [] u = inl refl
  drop_first-IsKept j ((k, v) ∷ l) u = elim (dec j k) [
    | yes p ↦ inl (ground arith)
    | no p ↦ inr (ground arith)
  ]

  if-IsKept :
      (b : Bool) (j : K) (m l : List (K × V)) → IsKept j m l → IsKept j (if b then m else l) l
  if-IsKept true j m l h = h
  if-IsKept false j m l h = inr refl

  pub get-append_other :
      (k j : K) (v : V) (l : List (K × V))
      → j ≢ k
      → Assoc.get dec j (l ++ (k, v) ∷ []) ≡ Assoc.get dec j l
  get-append_other k j v [] ne = if_neg (dec j k) ne _ _
  get-append_other k j v ((i, w) ∷ l) ne = ground (arith, get-append_other k j v l ne)

  pub lru_push-IsKept :
      (cap : ℕ) (k j : K) (v : V) (l : List (K × V)) → j ≢ k → IsKept j (lru_push cap k v l) l
  lru_push-IsKept cap k j v l ne = elim (Option-cases (Assoc.get dec k l)) [
    | inl e ↦
        rw (lru_push_miss cap k v l e, if_neg (dec j k) ne)
          (if-IsKept (leb cap (length l)) j (drop_last l) l (drop_last-IsKept j l))
    | inr (w, e) ↦
        rw (lru_push_hit cap k v l e, if_neg (dec j k) ne) (inr (Assoc.get-remove_ne dec k j l ne))
  ]

  pub fifo_push-IsKept :
      (cap : ℕ) (k j : K) (v : V) (l : List (K × V))
      → Assoc.Unique dec l
      → j ≢ k
      → IsKept j (fifo_push cap k v l) l
  fifo_push-IsKept cap k j v l u ne = elim (Option-cases (Assoc.get dec k l)) [
    | inl e ↦
        rw (fifo_push_miss cap k v l e, get-append_other k j v _ ne)
          (if-IsKept (leb cap (length l)) j (drop_first l) l (drop_first-IsKept j l u))
    | inr (w, e) ↦
        rw (fifo_push_hit cap k v l e, get-append_other k j v _ ne)
          (inr (Assoc.get-remove_ne dec k j l ne))
  ]
