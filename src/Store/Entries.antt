-- ===== src/Store/Entries.antt =====
-- The keys and values of a chain, in its order: the abstract contents of a linked store.
use test_thread_safe_lru_cac.Base.{
  ℕ, ◌≡◌, ◌≢◌, refl, true, Option, none, some, List, [], ◌∷◌, ◌++◌, arith, length, is_some,
}
use test_thread_safe_lru_cac.Assoc
use test_thread_safe_lru_cac.Chain.{has, Distinct, erase, last_or}
use test_thread_safe_lru_cac.Chain.Ends.{has-last_or}
use test_thread_safe_lru_cac.Spec.{drop_last}
use test_thread_safe_lru_cac.Store.{Store, entry_of, key_of}

abbrev pub cons_some {ℓ} : {A : Type ℓ} → Option A → List A → List A
cons_some none l = l
cons_some (some e) l = e ∷ l

module _ {K V : Type 0} where
  abbrev pub entries : Store K V → List ℕ → List (K × V)
  entries s [] = []
  entries s (a ∷ xs) = cons_some (entry_of (s a)) (entries s xs)

  -- Every address of the chain holds a node.
  abbrev pub Held : Store K V → List ℕ → Type 0
  Held s xs = (b : ℕ) → has b xs ≡ true → is_some (s b) ≡ true

  -- Only the node at `a` has the key `k`.
  abbrev pub Only : Store K V → K → ℕ → List ℕ → Type 0
  Only s k a xs = (b : ℕ) → has b xs ≡ true → key_of (s b) ≡ some k → a ≡ b

  pub entries_cong :
      (s t : Store K V) (xs : List ℕ)
      → ((b : ℕ) → has b xs ≡ true → entry_of (t b) ≡ entry_of (s b))
      → entries t xs ≡ entries s xs
  entries_cong s t [] h = refl
  entries_cong s t (x ∷ xs) h = ground (arith, h x, entries_cong s t xs (λ b m. h b (ground arith)))

  pub length-entries : (s : Store K V) (xs : List ℕ) → Held s xs → length (entries s xs) ≡ length xs
  length-entries s [] h = refl
  length-entries s (x ∷ xs) h = ground (arith, h x, length-entries s xs (λ b m. h b (ground arith)))

  pub entries-append_last :
      (s : Store K V) (xs : List ℕ) (a : ℕ)
      → entries s (xs ++ a ∷ []) ≡ entries s xs ++ entries s (a ∷ [])
  entries-append_last s [] a = refl
  entries-append_last s (x ∷ xs) a = ground (arith, entries-append_last s xs a)

  -- The last entry is the one of the last address.
  pub entries-erase_last :
      (s : Store K V) (xs : List ℕ) (t : ℕ)
      → Distinct xs
      → Held s xs
      → last_or none xs ≡ some t
      → entries s (erase t xs) ≡ drop_last (entries s xs)
  entries-erase_last s [] t d h e = refl
  entries-erase_last s (x ∷ []) t d h e = ground (arith, h x)
  entries-erase_last s (x ∷ y ∷ ys) t d h e = ground (
    arith,
    h x,
    h y,
    has-last_or none (y ∷ ys) {t = t},
    entries-erase_last s (y ∷ ys) t d.1 (λ b m. h b (ground arith)) e,
  )

module _ {K V : Type 0} (dec : Discrete K) (s : Store K V) (k : K) where
  pub get-entries_absent :
      (xs : List ℕ)
      → ((b : ℕ) → has b xs ≡ true → key_of (s b) ≢ some k)
      → Assoc.get dec k (entries s xs) ≡ none
  get-entries_absent [] h = refl
  get-entries_absent (x ∷ xs) h =
      ground (arith, h x, get-entries_absent xs (λ b m. h b (ground arith)))

  pub get-entries :
      (a : ℕ) (v : V) (xs : List ℕ)
      → entry_of (s a) ≡ some (k, v)
      → Only s k a xs
      → has a xs ≡ true
      → Assoc.get dec k (entries s xs) ≡ some v
  get-entries a v [] e o m = ground arith
  get-entries a v (x ∷ xs) e o m =
      ground (arith, o x, get-entries a v xs e (λ b m. o b (ground arith)))

  -- Taking the node out of the chain takes the key out of the contents.
  pub entries-erase :
      (a : ℕ) (xs : List ℕ)
      → key_of (s a) ≡ some k
      → Only s k a xs
      → has a xs ≡ true
      → entries s (erase a xs) ≡ Assoc.remove dec k (entries s xs)
  entries-erase a [] e o m = refl
  entries-erase a (x ∷ xs) e o m =
      ground (arith, o x, entries-erase a xs e (λ b m. o b (ground arith)))
