-- ===== src/Sharded/Slots/Contents.antt =====
-- The keys and values of a valid slot array in the order of its chain, and what the map says of them.
use test_thread_safe_lru_cac.Base.{
  ℕ, ◌≡◌, ◌∙◌, sym, true, Option, none, some, List, ◌∷◌, arith, length,
}
use test_thread_safe_lru_cac.Assoc
use test_thread_safe_lru_cac.Chain.{has, erase}
use test_thread_safe_lru_cac.Store.{Node, Store, entry_of, key_of}
use test_thread_safe_lru_cac.Store.Entries.{
  entries, entries_cong, length-entries, Only, get-entries, get-entries_absent, entries-erase,
}
use test_thread_safe_lru_cac.Sharded.Slots.{LruInner, slot}
use test_thread_safe_lru_cac.Sharded.Slots.Invariant.{IsValid}

abbrev pub contents : {K V : Type 0} → LruInner K V → List ℕ → List (K × V)
contents inner xs = entries (slot inner.nodes) xs

pub entries-cons_kept :
    {K V : Type 0} (s t : Store K V) (a : ℕ) (e : K × V) (ys : List ℕ)
    → entry_of (t a) ≡ some e
    → ((b : ℕ) → has b ys ≡ true → entry_of (t b) ≡ entry_of (s b))
    → entries t (a ∷ ys) ≡ e ∷ entries s ys
entries-cons_kept s t a e ys here same = ground (arith, entries_cong s t ys same)

module _ {K V : Type 0} (dec : Discrete K) (inner : LruInner K V) (xs : List ℕ)
    (v : IsValid dec inner xs) where
  pub length-contents : length (contents inner xs) ≡ length inner.map
  length-contents =
      length-entries (slot inner.nodes) xs (λ b m. v.pooled.live b ∙ m) ∙ sym v.counted

  module _ (k : K) where
    pub get-contents_absent :
        Assoc.get dec k inner.map ≡ none → Assoc.get dec k (contents inner xs) ≡ none
    get-contents_absent e =
        get-entries_absent dec (slot inner.nodes) k xs
          (λ b m h. ground (arith, v.indexed.complete k b))

    module _ (a : ℕ) (e : Assoc.get dec k inner.map ≡ some a) where
      pub Only-map : Only (slot inner.nodes) k a xs
      Only-map b m h = ground (arith, v.indexed.complete k b)

      pub has-map : has a xs ≡ true
      has-map = ground (arith, v.indexed.sound k a, v.pooled.live a)

      pub get-contents :
          (w : V)
          → entry_of (slot inner.nodes a) ≡ some (k, w)
          → Assoc.get dec k (contents inner xs) ≡ some w
      get-contents w h = get-entries dec (slot inner.nodes) k a w xs h Only-map has-map

      -- The map leads to the node of the key.
      pub node_of_map : (w : V) × (entry_of (slot inner.nodes a) ≡ some (k, w))
      node_of_map = found (slot inner.nodes a) (v.indexed.sound k a e)
        where
          found : (o : Option (Node K V)) → key_of o ≡ some k → (w : V) × (entry_of o ≡ some (k, w))
          found none h = absurd (ground arith)
          found (some n) h = (n.value, ground arith)

      pub contents-erase : contents inner (erase a xs) ≡ Assoc.remove dec k (contents inner xs)
      contents-erase =
          entries-erase dec (slot inner.nodes) k a xs (v.indexed.sound k a e) Only-map has-map
