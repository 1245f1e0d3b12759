-- ===== src/Sharded/Lru/Methods.antt =====
-- Every method of the sharded LRU policy, from a state that stands for the entries `l`, does what
-- the specification says of `l`, and does not panic.
use test_thread_safe_lru_cac.Base.{
  ℕ, ◌≤◌, max, ◌≡◌, refl, ◌∙◌, sym, ap, Bool, true, false, Option, none, some, List, [], ◌∷◌, ◌++◌,
  ◌==◌, is_some, arith, length, Option-cases, inl, inr, leb,
}
use test_thread_safe_lru_cac.Assoc
use test_thread_safe_lru_cac.Spec.{lru_get, lru_get_hit, lru_get_miss, lru_push}
use test_thread_safe_lru_cac.Chain.{has, erase, has-erase, Distinct}
use test_thread_safe_lru_cac.Chain.Promote.{
  promote, promote-append_last, promote-erase, has-promote, Distinct-promote,
}
use test_thread_safe_lru_cac.Store.{entry_of}
use test_thread_safe_lru_cac.Store.Entries.{entries_cong}
use test_thread_safe_lru_cac.Sharded.Slots.{LruInner, slot}
use test_thread_safe_lru_cac.Sharded.Slots.Contents.{length-contents}
use test_thread_safe_lru_cac.Sharded.Lru.{
  Lru, get_read, get_finish, get, push, remove, contains, len, is_empty,
}
use test_thread_safe_lru_cac.Sharded.Lru.Evict.{Removed, remove_node-Removed}
use test_thread_safe_lru_cac.Sharded.Lru.Push.{push_inner-Holds}
use test_thread_safe_lru_cac.Sharded.Lru.Refine.{
  Represents, flush, Hit, lookup-Hit, lookup_miss, handle_recent_used-Represents,
  handle_recent_used_lem,
}

-- What a read reports: the value, with the mark that the buffer is due.
abbrev pub marked : {V : Type 0} → Bool → Option V → Option (V × Bool)
marked due none = none
marked due (some v) = some (v, due)

module _ {K V : Type 0} (dec : Discrete K) where
  abbrev pub buffered : Lru K V → ℕ → Lru K V
  buffered c a = record c { recent_nodes_idx = c.recent_nodes_idx ++ a ∷ [] }

  get_read_found :
      (c : Lru K V) (k : K) (a : ℕ) (w : V)
      → Assoc.get dec k c.inner.map ≡ some a
      → entry_of (slot c.inner.nodes a) ≡ some (k, w)
      → get_read dec c k
        ≡ some (buffered c a, some (w, leb 64 (length (c.recent_nodes_idx ++ a ∷ []))))
  unfolding get_read
  get_read_found c k a w e h = elim (Option-cases (slot c.inner.nodes a)) [
    | inl o ↦ absurd (ground arith)
    | inr (n, o) ↦ rw (e, get_read, o) (ground arith)
  ]

  get_read_missed :
      (c : Lru K V) (k : K) → Assoc.get dec k c.inner.map ≡ none → get_read dec c k ≡ some (c, none)
  unfolding get_read
  get_read_missed c k e = rw (e, get_read)

module _ {K V : Type 0} (dec : Discrete K) (cap : ℕ) where
  pub buffered-Represents :
      {c : Lru K V} {l : List (K × V)} (r : Represents dec cap c l) (k : K) (a : ℕ)
      → Hit dec cap r k a
      → Represents dec cap (buffered dec c a) (lru_get dec k l)
  buffered-Represents {c} {l} r k a h = record {
    order = r.order;
    valid = r.valid;
    holds =
        rw (promote-append_last c.recent_nodes_idx a r.order, h.member, lru_get_hit dec k l h.found)
          (ground (arith, h.entry, h.taken));
    memory = r.memory;
    capacity_is = r.capacity_is;
  }

  -- The part of `get` under the read lock returns what the specification finds, and counts as the
  -- access, though it moves no node.
  pub get_read-Represents :
      {c : Lru K V} {l : List (K × V)} (k : K)
      → Represents dec cap c l
      → (c' : Lru K V) × (due : Bool) × (get_read dec c k
          ≡ some (c', marked due (Assoc.get dec k l)))
        × Represents dec cap c' (lru_get dec k l)
  get_read-Represents {c} {l} k r = elim (Option-cases (Assoc.get dec k c.inner.map)) [
    | inl e ↦
        let miss = lookup_miss dec cap r k e in
        (c, false, rw miss (get_read_missed dec c k e), rw (lru_get_miss dec k l miss) r)
    | inr (a, e) ↦
        let h = lookup-Hit dec cap r k a e in
        (
          buffered dec c a,
          leb 64 (length (c.recent_nodes_idx ++ a ∷ [])),
          rw h.found (get_read_found dec c k a h.value e h.entry),
          buffered-Represents r k a h,
        )
  ]

  -- The rest of `get` changes nothing that can be observed.
  pub get_finish-Represents :
      {c : Lru K V} {l : List (K × V)} (due : Bool) (o : Option V)
      → Represents dec cap c l
      → (c' : Lru K V) × (get_finish c (marked due o) ≡ some (c', o)) × Represents dec cap c' l
  unfolding get_finish
  get_finish-Represents {c} due none r = (c, refl, r)
  get_finish-Represents {c} true (some v) r =
      let (c', e, r', _) = handle_recent_used-Represents dec cap r in (c', rw e, r')
  get_finish-Represents {c} false (some v) r = (c, refl, r)

  -- From a cache that stands for a list of entries, get of the sharded LRU policy does not panic,
  -- returns the value of the key if it is cached, and makes it the most recent entry.
  pub get-Represents :
      {c : Lru K V} {l : List (K × V)} (k : K)
      → Represents dec cap c l
      → (c' : Lru K V) × (get dec c k ≡ some (c', Assoc.get dec k l))
        × Represents dec cap c' (lru_get dec k l)
  unfolding get
  get-Represents {l} k r =
      let (mid, due, e, r') = get_read-Represents k r in
      let (c', e', r'') = get_finish-Represents due (Assoc.get dec k l) r' in (c', rw (e, e'), r'')

  Removed-Represents :
      {c : Lru K V} {l : List (K × V)} (r : Represents dec cap c l) (k : K) (a : ℕ)
      {inner' : LruInner K V}
      → Hit dec cap r k a
      → Removed dec c.inner inner' a k r.order
      → Represents dec cap (record c { inner = inner' }) (Assoc.remove dec k l)
  Removed-Represents {c} r k a {inner'} h d = record {
    order = erase a r.order;
    valid = d.valid;
    holds = rw (promote-erase c.recent_nodes_idx a r.order distinct) (
        entries_cong (slot c.inner.nodes) (slot inner'.nodes) (erase a zs)
          (λ b m. d.kept b (kept b m))
        ∙ h.taken);
    memory = omega (arith, r.memory, d.length_is);
    capacity_is = r.capacity_is;
  }
    where
      zs : List ℕ
      zs = promote c.recent_nodes_idx r.order

      distinct : Distinct r.order
      distinct = r.valid.linked.distinct

      kept : (b : ℕ) → has b (erase a zs) ≡ true → has b (erase a r.order) ≡ true
      kept b m = ground (
        arith,
        has-erase a b r.order distinct,
        has-erase a b zs (Distinct-promote c.recent_nodes_idx r.order distinct),
        has-promote c.recent_nodes_idx b r.order distinct,
      )

  -- From a cache that stands for a list of entries, push of the sharded LRU policy does not panic
  -- and does what the LRU specification says: the pushed entry is in front, and a new key evicts
  -- the least recently used entry of a full cache, promotions held back in the buffer included.
  pub push-Represents :
      {c : Lru K V} {l : List (K × V)} (k : K) (v : V)
      → Represents dec cap c l
      → (c' : Lru K V) × (push dec c k v ≡ some c') × Represents dec cap c' (lru_push dec cap k v l)
  unfolding push
  push-Represents {c} {l} k v r =
      let f = flush dec cap r in
      let zs = promote c.recent_nodes_idx r.order in
      let (inner', ys, e, h) =
        push_inner-Holds dec f.inner' cap k v zs f.valid
          (omega (arith, r.memory, f.data_is.same_length)) in
      (
        record c { inner = inner'; recent_nodes_idx = [] },
        rw (handle_recent_used_lem dec cap f, r.capacity_is, e),
        record {
          order = ys;
          valid = h.valid;
          holds = h.holds ∙ ap (lru_push dec cap k v) f.holds;
          memory = h.memory;
          capacity_is = r.capacity_is;
        },
      )

  -- From a cache that stands for a list of entries, remove of the sharded LRU policy does not panic
  -- and drops exactly the entry of the key, also where the buffer still holds its slot.
  pub remove-Represents :
      {c : Lru K V} {l : List (K × V)} (k : K)
      → Represents dec cap c l
      → (c' : Lru K V) × (remove dec c k ≡ some c') × Represents dec cap c' (Assoc.remove dec k l)
  unfolding remove
  remove-Represents {c} {l} k r = elim (Option-cases (Assoc.get dec k c.inner.map)) [
    | inl e ↦ (c, rw (e, remove), rw (Assoc.remove_absent dec k l (lookup_miss dec cap r k e)) r)
    | inr (a, e) ↦
        let (inner', e', d) =
          remove_node-Removed dec c.inner a k r.order r.valid (r.valid.indexed.sound k a e) in
        (
          record c { inner = inner' },
          rw (e, remove, e'),
          Removed-Represents r k a (lookup-Hit dec cap r k a e) d,
        )
  ]

  module _ {c : Lru K V} {l : List (K × V)} (r : Represents dec cap c l) where
    length-Represents : length l ≡ length c.inner.map
    length-Represents =
        let f = flush dec cap r in
        ap length (sym f.holds)
        ∙ length-contents dec f.inner' _ f.valid
        ∙ ap length f.data_is.same_map

    -- From a cache that stands for a list of entries, len and is_empty of the sharded LRU policy
    -- report the number of entries, and that is at most the capacity, or one where the capacity is
    -- zero.
    pub len-Represents :
        (len c ≡ length l) × (is_empty c ≡ (length l == 0)) × (length l ≤ max 1 cap)
    unfolding len is_empty
    len-Represents = (
      sym length-Represents,
      rw length-Represents,
      omega (arith, length-Represents, r.valid.counted, r.valid.pooled.filled, r.memory),
    )

    -- From a cache that stands for a list of entries, contains of the sharded LRU policy tells
    -- whether the key is among the entries.
    pub contains-Represents : (k : K) → contains dec c k ≡ is_some (Assoc.get dec k l)
    unfolding contains
    contains-Represents k = elim (Option-cases (Assoc.get dec k c.inner.map)) [
      | inl e ↦ rw (e, lookup_miss dec cap r k e)
      | inr (a, e) ↦ let h = lookup-Hit dec cap r k a e in rw (e, h.found)
    ]

    -- From a cache that stands for a list of entries, contains of the sharded LRU policy tells
    -- whether the key is among the entries, len and is_empty report the number of entries, and that
    -- is at most the capacity, or one where the capacity is zero.
    pub queries-Represents :
        (k : K)
        → (contains dec c k ≡ is_some (Assoc.get dec k l))
          × (len c ≡ length l)
          × (is_empty c ≡ (length l == 0))
          × (length l ≤ max 1 cap)
    queries-Represents k =
        let (counted, empty, bound) = len-Represents in
        (contains-Represents k, counted, empty, bound)
