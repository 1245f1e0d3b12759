-- ===== src/Assoc.antt =====
-- Association lists over keys with a decidable equality: the model of std's `HashMap`, and the
-- abstract contents of a cache. A hash map holds a key at most once, which `Unique` states.
use test_thread_safe_lru_cac.Base.{
  suc, ◌≡◌, refl, ◌≢◌, Bool, true, Option, none, some, List, [], ◌∷◌, arith, length, is_some, ite,
}

module _ {K V : Type 0} (dec : Discrete K) where
  -- `map.get(&k)`
  abbrev pub get : K → List (K × V) → Option V
  get k [] = none
  get k ((j, v) ∷ m) = ite (dec k j) (some v) (get k m)

  -- `map.remove(&k)`
  abbrev pub remove : K → List (K × V) → List (K × V)
  remove k [] = []
  remove k ((j, v) ∷ m) = ite (dec k j) m ((j, v) ∷ remove k m)

  -- `map.insert(k, v)`: the value of a present key is replaced
  abbrev pub insert : K → V → List (K × V) → List (K × V)
  insert k v [] = (k, v) ∷ []
  insert k v ((j, w) ∷ m) = ite (dec k j) ((j, v) ∷ m) ((j, w) ∷ insert k v m)

  abbrev pub contains_key : K → List (K × V) → Bool
  contains_key k m = is_some (get k m)

  abbrev pub Unique : List (K × V) → Type 0
  Unique [] = Unit
  Unique ((j, v) ∷ m) = (get j m ≡ none) × Unique m

  pub get-insert :
      (k j : K) (v : V) (m : List (K × V)) → get j (insert k v m) ≡ ite (dec j k) (some v) (get j m)
  get-insert k j v [] = refl
  get-insert k j v ((i, w) ∷ m) = ground (arith, get-insert k j v m)

  pub get-remove_ne : (k j : K) (m : List (K × V)) → j ≢ k → get j (remove k m) ≡ get j m
  get-remove_ne k j [] h = refl
  get-remove_ne k j ((i, w) ∷ m) h = ground (arith, get-remove_ne k j m)

  pub get-remove_self : (k : K) (m : List (K × V)) → Unique m → get k (remove k m) ≡ none
  get-remove_self k [] u = refl
  get-remove_self k ((i, w) ∷ m) u = ground (arith, get-remove_self k m)

  pub Unique-insert : (k : K) (v : V) (m : List (K × V)) → Unique m → Unique (insert k v m)
  Unique-insert k v [] u = (refl, tt)
  Unique-insert k v ((i, w) ∷ m) u = ground (arith, get-insert k i v m, Unique-insert k v m)

  pub Unique-remove : (k : K) (m : List (K × V)) → Unique m → Unique (remove k m)
  Unique-remove k [] u = tt
  Unique-remove k ((i, w) ∷ m) u = ground (arith, get-remove_ne k i m, Unique-remove k m)

  pub length-insert_new :
      (k : K) (v : V) (m : List (K × V)) → get k m ≡ none → length (insert k v m) ≡ suc (length m)
  length-insert_new k v [] h = refl
  length-insert_new k v ((i, w) ∷ m) h = ground (arith, length-insert_new k v m)

  pub length-remove :
      (k : K) (m : List (K × V)) → contains_key k m ≡ true → suc (length (remove k m)) ≡ length m
  length-remove k [] h = ground arith
  length-remove k ((i, w) ∷ m) h = ground (arith, length-remove k m)

  pub remove_absent : (k : K) (m : List (K × V)) → get k m ≡ none → remove k m ≡ m
  remove_absent k [] h = refl
  remove_absent k ((i, w) ∷ m) h = ground (arith, remove_absent k m)
