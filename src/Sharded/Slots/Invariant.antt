-- ===== src/Sharded/Slots/Invariant.antt =====
-- The invariant of the slot array: the links, the key index and the pool of free slots agree with
-- the chain of linked slots.
use test_thread_safe_lru_cac.Base.{
  ℕ, suc, ◌+◌, ◌<◌, ◌≡◌, true, false, Option, none, some, List, ◌∷◌, is_some, arith, length, ◌∙◌,
  sym, ==_refl,
}
use test_thread_safe_lru_cac.Chain.{has, Distinct, is_at}
use test_thread_safe_lru_cac.Store.{Node, Linked, entry_of, links_of}
use test_thread_safe_lru_cac.Store.Index.{Indexed}
use test_thread_safe_lru_cac.Sharded.Slots.{LruInner, slot}
use test_thread_safe_lru_cac.Sharded.Slots.Links.{LiveAt}

module _ {K V : Type 0} where
  -- A slot is occupied exactly when it is linked, and is free otherwise.
  pub record Pooled (nodes : List (Option (Node K V))) (free xs : List ℕ) : Type 0 where
    pub live : (a : ℕ) → is_some (slot nodes a) ≡ has a xs
    pub vacant : (a : ℕ) → has a free ≡ true → (a < length nodes) × (has a xs ≡ false)
    pub free_distinct : Distinct free
    pub filled : length nodes ≡ length xs + length free

  pub record IsValid (dec : Discrete K) (inner : LruInner K V) (xs : List ℕ) : Type 0 where
    pub linked : Linked (slot inner.nodes) inner.head inner.tail xs
    pub indexed : Indexed dec inner.map (slot inner.nodes)
    pub counted : length inner.map ≡ length xs
    pub pooled : Pooled inner.nodes inner.available_slots xs

  pub is_some-entry_of :
      (o o' : Option (Node K V)) → entry_of o ≡ entry_of o' → is_some o ≡ is_some o'
  is_some-entry_of o o' e = ground arith

  pub is_some-links_of :
      (o : Option (Node K V)) {l : Option ℕ × Option ℕ} → links_of o ≡ some l → is_some o ≡ true
  is_some-links_of o e = ground arith

  -- Writes of links and moves within the chain keep the pool.
  pub Pooled-cong :
      (nodes ns : List (Option (Node K V))) {free : List ℕ} (xs ys : List ℕ)
      → ((b : ℕ) → entry_of (slot ns b) ≡ entry_of (slot nodes b))
      → length ns ≡ length nodes
      → ((b : ℕ) → has b ys ≡ has b xs)
      → length ys ≡ length xs
      → Pooled nodes free xs
      → Pooled ns free ys
  Pooled-cong nodes ns xs ys same len members count p = record {
    live = λ a. is_some-entry_of (slot ns a) (slot nodes a) (same a) ∙ p.live a ∙ sym (members a);
    vacant = λ a h. (omega (arith, p.vacant a h), members a ∙ (p.vacant a h).1);
    free_distinct = p.free_distinct;
    filled = omega (arith, p.filled);
  }

  -- The invariant between the two halves of an operation: the node at `a` is taken out of the
  -- chain, or not yet put in, and everything else agrees.
  pub record Loose (dec : Discrete K) (inner : LruInner K V) (a : ℕ) (ys : List ℕ) : Type 0 where
    pub linked : Linked (slot inner.nodes) inner.head inner.tail ys
    pub indexed : Indexed dec inner.map (slot inner.nodes)
    pub counted : length inner.map ≡ suc (length ys)
    pub pooled : Pooled inner.nodes inner.available_slots (a ∷ ys)
    pub new : has a ys ≡ false

  -- `inner'` has the keys, the values and the free slots of `inner`.
  pub record SameData (inner inner' : LruInner K V) : Type 0 where
    pub same_entries : (b : ℕ) → entry_of (slot inner'.nodes b) ≡ entry_of (slot inner.nodes b)
    pub same_map : inner'.map ≡ inner.map
    pub same_length : length inner'.nodes ≡ length inner.nodes

  pub SameData-trans :
      {inner mid inner' : LruInner K V}
      → SameData inner mid
      → SameData mid inner'
      → SameData inner inner'
  SameData-trans d e = record {
    same_entries = λ b. e.same_entries b ∙ d.same_entries b;
    same_map = e.same_map ∙ d.same_map;
    same_length = e.same_length ∙ d.same_length;
  }

  -- A linked neighbour is occupied.
  pub LiveAt-chain :
      {dec : Discrete K} {inner : LruInner K V} {xs : List ℕ} (p : Option ℕ)
      → IsValid dec inner xs
      → ((x : ℕ) → is_at p x ≡ true → has x xs ≡ true)
      → LiveAt inner.nodes p
  LiveAt-chain none v h = tt
  LiveAt-chain (some x) v h = v.pooled.live x ∙ h x (==_refl x)
