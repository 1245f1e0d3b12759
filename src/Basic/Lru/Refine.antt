-- ===== src/Basic/Lru/Refine.antt =====
-- What it means that a `Lru` stands for a list of entries, and what its index finds.
use test_thread_safe_lru_cac.Base.{
  ℕ, ◌≤◌, ◌<◌, ◌≡◌, ◌≢◌, sym, ◌∙◌, true, Option, none, some, List, ◌==◌, if◌then◌else◌, arith,
  length, ap,
}
use test_thread_safe_lru_cac.Assoc
use test_thread_safe_lru_cac.Chain.{has, erase}
use test_thread_safe_lru_cac.Store.{Node, entry_of, key_of}
use test_thread_safe_lru_cac.Store.Index.{Indexed, Indexed-remove}
use test_thread_safe_lru_cac.Store.Entries.{
  entries, entries_cong, length-entries, Only, get-entries, get-entries_absent, entries-erase,
}
use test_thread_safe_lru_cac.Basic.Dll.{Dll}
use test_thread_safe_lru_cac.Basic.Dll.Methods.{IsValid}
use test_thread_safe_lru_cac.Basic.Lru.{Lru, KeyRef}
use test_thread_safe_lru_cac.Basic.Lru.Map.{Resolves, Resolves-cong}

-- `c` stands for a cache of capacity `cap` with the entries `l`, most recently used first: the
-- boxes are exactly the linked nodes, no key reference dangles, and both sizes are right.
pub record IsCacheOf {K V : Type 0} (dec : Discrete K) (cap : ℕ) (c : Lru K V) (l : List (K × V))
    : Type 0 where
  pub order : List ℕ
  pub index : List (K × ℕ)
  pub chain : IsValid c.dll order
  pub indexed : Indexed dec index c.dll.cells
  pub resolves : Resolves c.dll.cells c.map index
  pub holds : entries c.dll.cells order ≡ l
  pub size_is : c.size ≡ length order
  pub bound : length order ≤ cap
  pub cap_is : c.cap ≡ cap
  pub positive : 0 < cap

module _ {K V : Type 0} (dec : Discrete K) (cap : ℕ) {c : Lru K V} {l : List (K × V)}
    (r : IsCacheOf dec cap c l) where
  pub length-IsCacheOf : length l ≡ length r.order
  length-IsCacheOf =
      ap length (sym r.holds) ∙ length-entries c.dll.cells r.order (λ b m. r.chain.live b ∙ m)

  module _ (k : K) where
    pub lookup_miss : Assoc.get dec k r.index ≡ none → Assoc.get dec k l ≡ none
    lookup_miss e = rw (← r.holds) (
        get-entries_absent dec c.dll.cells k r.order
          (λ b m h. ground (arith, r.indexed.complete k b)))

    -- What a hit in the index finds.
    pub record Hit (a : ℕ) : Type 0 where
      pub value : V
      pub entry : entry_of (c.dll.cells a) ≡ some (k, value)
      pub found : Assoc.get dec k l ≡ some value
      pub member : has a r.order ≡ true
      pub taken : entries c.dll.cells (erase a r.order) ≡ Assoc.remove dec k l

    value_of : (o : Option (Node K V)) → key_of o ≡ some k → (w : V) × (entry_of o ≡ some (k, w))
    value_of none h = absurd (ground arith)
    value_of (some n) h = (n.value, ground arith)

    pub lookup-Hit : (a : ℕ) → Assoc.get dec k r.index ≡ some a → Hit a
    lookup-Hit a e =
        let (w, here) = value_of (c.dll.cells a) (r.indexed.sound k a e) in
        let only : Only c.dll.cells k a r.order = λ b m h. ground (arith, r.indexed.complete k b) in
        let member : has a r.order ≡ true = sym (r.chain.live a) ∙ ground arith in
        record {
          value = w;
          entry = here;
          found = rw (← r.holds) (get-entries dec c.dll.cells k a w r.order here only member);
          member = member;
          taken =
              entries-erase dec c.dll.cells k a r.order (r.indexed.sound k a e) only member
              ∙ ap (Assoc.remove dec k) r.holds;
        }

  -- The state after the node at `a` and its key were given up.
  pub dropped-IsCacheOf :
      (k : K) (a : ℕ) {d' : Dll K V} {m : List (KeyRef × ℕ)} (size : ℕ)
      → Hit k a
      → IsValid d' (erase a r.order)
      → ((b : ℕ) → entry_of (d'.cells b) ≡ (if a == b then none else entry_of (c.dll.cells b)))
      → Resolves c.dll.cells m (Assoc.remove dec k r.index)
      → size ≡ length (erase a r.order)
      → length (erase a r.order) ≤ cap
      → IsCacheOf dec cap (record c { dll = d'; map = m; size = size }) (Assoc.remove dec k l)
  dropped-IsCacheOf k a {d'} {m} size h v same res s b = record {
    order = erase a r.order;
    index = Assoc.remove dec k r.index;
    chain = v;
    indexed =
        Indexed-remove dec r.index c.dll.cells d'.cells a k (λ b. ground (arith, same b))
          (ground (arith, h.entry)) r.indexed;
    resolves = Resolves-cong dec c.dll.cells d'.cells m (Assoc.remove dec k r.index) still res;
    holds = entries_cong c.dll.cells d'.cells (erase a r.order) kept ∙ h.taken;
    size_is = s;
    bound = b;
    cap_is = r.cap_is;
    positive = r.positive;
  }
    where
      still :
          (b : ℕ) (j : K)
          → Assoc.get dec j (Assoc.remove dec k r.index) ≢ none
          → key_of (c.dll.cells b) ≡ some j
          → key_of (d'.cells b) ≡ some j
      still b j g e =
          ground (arith, same b, h.entry, Assoc.get-remove_self dec k r.index r.indexed.unique)

      kept :
          (b : ℕ)
          → has b (erase a r.order) ≡ true
          → entry_of (d'.cells b) ≡ entry_of (c.dll.cells b)
      kept b e = ground (arith, same b, v.live b)
