-- ===== src/Store/Index.antt =====
-- A map from keys to addresses that agrees with the nodes of a store.
use test_thread_safe_lru_cac.Base.{
  ℕ, ◌≡◌, sym, ◌∙◌, Option, none, some, List, ◌==◌, if◌then◌else◌, arith, [], ◌∷◌, inl, inr,
  Option-cases,
}
use test_thread_safe_lru_cac.Assoc
use test_thread_safe_lru_cac.Chain.{Distinct}
use test_thread_safe_lru_cac.Store.Entries.{entries, get-entries_absent}
use test_thread_safe_lru_cac.Store.{Node, Store, entry_of, key_of}

module _ {K V : Type 0} where
  -- The map holds exactly the keys of the nodes, each with its node's address.
  pub record Indexed (dec : Discrete K) (m : List (K × ℕ)) (s : Store K V) : Type 0 where
    pub unique : Assoc.Unique dec m
    pub sound : (k : K) (a : ℕ) → Assoc.get dec k m ≡ some a → key_of (s a) ≡ some k
    pub complete : (k : K) (a : ℕ) → key_of (s a) ≡ some k → Assoc.get dec k m ≡ some a

  pub key_of-entry_of : (o o' : Option (Node K V)) → entry_of o ≡ entry_of o' → key_of o ≡ key_of o'
  key_of-entry_of o o' e = ground arith

  -- Writes of links keep the index.
  pub Indexed-cong :
      {dec : Discrete K} {m : List (K × ℕ)} (s t : Store K V)
      → ((b : ℕ) → entry_of (t b) ≡ entry_of (s b))
      → Indexed dec m s
      → Indexed dec m t
  Indexed-cong s t same i = record {
    unique = i.unique;
    sound = λ k a e. key_of-entry_of (t a) (s a) (same a) ∙ i.sound k a e;
    complete = λ k a e. i.complete k a (sym (key_of-entry_of (t a) (s a) (same a)) ∙ e);
  }

  -- A new node at a vacant address, with a new key. Links may change everywhere.
  pub Indexed-insert :
      (dec : Discrete K) (m : List (K × ℕ)) (s t : Store K V) (i : ℕ) (new : K)
      → ((b : ℕ) → key_of (t b) ≡ (if i == b then some new else key_of (s b)))
      → s i ≡ none
      → Assoc.get dec new m ≡ none
      → Indexed dec m s
      → Indexed dec (Assoc.insert dec new i m) t
  Indexed-insert dec m s t i new write vacant fresh ix = record {
    unique = Assoc.Unique-insert dec new i m ix.unique;
    sound = λ k a e.
        ground (arith, write a, ix.sound k a, Assoc.get-insert dec new k i m, key_of-none k a);
    complete = λ k a e. ground (arith, write a, ix.complete k a, Assoc.get-insert dec new k i m);
  }
    where
      key_of-none : (k : K) (a : ℕ) → i ≡ a → key_of (s a) ≡ some k → ⊥
      key_of-none k a p q = ground arith

  -- A node and its key given up. Links may change everywhere.
  pub Indexed-remove :
      (dec : Discrete K) (m : List (K × ℕ)) (s t : Store K V) (i : ℕ) (k : K)
      → ((b : ℕ) → key_of (t b) ≡ (if i == b then none else key_of (s b)))
      → key_of (s i) ≡ some k
      → Indexed dec m s
      → Indexed dec (Assoc.remove dec k m) t
  Indexed-remove dec m s t i k write held ix = record {
    unique = Assoc.Unique-remove dec k m ix.unique;
    sound = λ j a e. elim (dec j k) [
      | yes p ↦ ground (arith, Assoc.get-remove_self dec k m)
      | no p ↦ ground (arith, write a, ix.sound j a, Assoc.get-remove_ne dec k j m p)
    ];
    complete = λ j a e. elim (dec j k) [
      | yes p ↦ ground (arith, write a, ix.complete j a, ix.complete j i)
      | no p ↦ ground (arith, write a, ix.complete j a, Assoc.get-remove_ne dec k j m p)
    ];
  }

  -- No key stands twice among the entries of a chain.
  pub Unique-entries :
      (dec : Discrete K) (m : List (K × ℕ)) (s : Store K V) (xs : List ℕ)
      → Indexed dec m s
      → Distinct xs
      → Assoc.Unique dec (entries s xs)
  Unique-entries dec m s [] ix d = tt
  Unique-entries dec m s (x ∷ xs) ix d = elim (Option-cases (s x)) [
    | inl o ↦ rw o (Unique-entries dec m s xs ix d.1)
    | inr (n, o) ↦ rw o (
      get-entries_absent dec s n.key xs
          (λ b h e. ground (arith, ix.complete n.key b, ix.complete n.key x)),
      Unique-entries dec m s xs ix d.1,
    )
  ]
