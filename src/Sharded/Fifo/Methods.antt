-- ===== src/Sharded/Fifo/Methods.antt =====
-- Every method of the FIFO policy, from a state that stands for the entries `l`, oldest first,
-- does what the specification says of `l`, and does not panic.
use test_thread_safe_lru_cac.Base.{
  ℕ, ◌≤◌, max, ◌≡◌, refl, ◌∙◌, sym, ap, none, some, List, [], ◌==◌, is_some, arith, length,
  Option-cases, inl, inr,
}
use test_thread_safe_lru_cac.Assoc
use test_thread_safe_lru_cac.Spec.{fifo_push}
use test_thread_safe_lru_cac.Chain.{erase}
use test_thread_safe_lru_cac.Store.{entry_of}
use test_thread_safe_lru_cac.Store.Entries.{entries_cong}
use test_thread_safe_lru_cac.Sharded.Slots.{slot}
use test_thread_safe_lru_cac.Sharded.Slots.Contents.{
  contents, length-contents, get-contents, get-contents_absent, node_of_map, contents-erase,
}
use test_thread_safe_lru_cac.Sharded.Slots.Invariant.{IsValid}
use test_thread_safe_lru_cac.Sharded.Lru.Evict.{remove_node-Removed}
use test_thread_safe_lru_cac.Sharded.Fifo.{Fifo, new, get, push, remove, contains, len, is_empty}
use test_thread_safe_lru_cac.Sharded.Fifo.Back.{remove_node-eq}
use test_thread_safe_lru_cac.Sharded.Fifo.Push.{push_inner-Holds}

-- `c` stands for a cache of capacity `cap` with the entries `l`, oldest first. Its vector of nodes
-- never grows beyond the capacity.
pub record IsQueueOf {K V : Type 0} (dec : Discrete K) (cap : ℕ) (c : Fifo K V) (l : List (K × V))
    : Type 0 where
  pub order : List ℕ
  pub valid : IsValid dec c.inner order
  pub holds : contents c.inner order ≡ l
  pub memory : length c.inner.nodes ≤ max 1 cap
  pub capacity_is : c.capacity ≡ cap

module _ {K V : Type 0} (dec : Discrete K) (cap : ℕ) where
  -- A new cache is empty.
  pub new-IsQueueOf : IsQueueOf dec cap (new {K = K} {V = V} cap) []
  unfolding new slot
  new-IsQueueOf = record {
    order = [];
    valid = record {
      linked = record {
        distinct = tt;
        head_is = refl;
        tail_is = refl;
        linked = λ a m. ground arith;
      };
      indexed = record {
        unique = tt;
        sound = λ k a e. ground arith;
        complete = λ k a e. ground arith;
      };
      counted = refl;
      pooled = record {
        live = λ a. refl;
        vacant = λ a m. ground arith;
        free_distinct = tt;
        filled = omega arith;
      };
    };
    holds = refl;
    memory = omega arith;
    capacity_is = refl;
  }

  module _ {c : Fifo K V} {l : List (K × V)} (r : IsQueueOf dec cap c l) (k : K) where
    lookup_miss : Assoc.get dec k c.inner.map ≡ none → Assoc.get dec k l ≡ none
    lookup_miss e = rw (← r.holds) (get-contents_absent dec c.inner r.order r.valid k e)

    lookup-Hit :
        (a : ℕ)
        → Assoc.get dec k c.inner.map ≡ some a
        → (w : V) × (entry_of (slot c.inner.nodes a) ≡ some (k, w)) × (Assoc.get dec k l ≡ some w)
    lookup-Hit a e =
        let (w, here) = node_of_map dec c.inner r.order r.valid k a e in
        (w, here, rw (← r.holds) (get-contents dec c.inner r.order r.valid k a e w here))

    -- From a cache that stands for a list of entries, get of the FIFO policy does not panic and
    -- returns the value of the key if it is cached.
    pub get-IsQueueOf : get dec c k ≡ some (Assoc.get dec k l)
    unfolding get
    get-IsQueueOf = elim (Option-cases (Assoc.get dec k c.inner.map)) [
      | inl e ↦ rw (e, get, lookup_miss e)
      | inr (a, e) ↦
          let (w, here, found) = lookup-Hit a e in
          elim (Option-cases (slot c.inner.nodes a)) [
            | inl o ↦ absurd (ground arith)
            | inr (n, o) ↦ rw (e, get, o, found) (ground arith)
          ]
    ]

    -- From a cache that stands for a list of entries, contains of the FIFO policy tells whether the
    -- key is among the entries.
    pub contains-IsQueueOf : contains dec c k ≡ is_some (Assoc.get dec k l)
    unfolding contains
    contains-IsQueueOf = elim (Option-cases (Assoc.get dec k c.inner.map)) [
      | inl e ↦ rw (e, lookup_miss e)
      | inr (a, e) ↦ let (w, here, found) = lookup-Hit a e in rw (e, found)
    ]

    -- From a cache that stands for a list of entries, push of the FIFO policy does not panic and
    -- does what the FIFO specification says: the entry becomes the newest, also for a present key,
    -- and a new key evicts the oldest entry of a full cache.
    pub push-IsQueueOf :
        (v : V)
        → (c' : Fifo K V) × (push dec c k v ≡ some c')
          × IsQueueOf dec cap c' (fifo_push dec cap k v l)
    unfolding push
    push-IsQueueOf v =
        let (inner', ys, e, h) = push_inner-Holds dec c.inner cap k v r.order r.valid r.memory in
        (
          record c { inner = inner' },
          rw (r.capacity_is, e),
          record {
            order = ys;
            valid = h.valid;
            holds = h.holds ∙ ap (fifo_push dec cap k v) r.holds;
            memory = h.memory;
            capacity_is = r.capacity_is;
          },
        )

    -- From a cache that stands for a list of entries, remove of the FIFO policy does not panic and
    -- drops exactly the entry of the key.
    pub remove-IsQueueOf :
        (c' : Fifo K V) × (remove dec c k ≡ some c') × IsQueueOf dec cap c' (Assoc.remove dec k l)
    unfolding remove
    remove-IsQueueOf = elim (Option-cases (Assoc.get dec k c.inner.map)) [
      | inl e ↦ (c, rw (e, remove), rw (Assoc.remove_absent dec k l (lookup_miss e)) r)
      | inr (a, e) ↦
          let (inner', e', d) =
            remove_node-Removed dec c.inner a k r.order r.valid (r.valid.indexed.sound k a e) in
          (
            record c { inner = inner' },
            rw (e, remove, remove_node-eq c.inner a dec, e'),
            record {
              order = erase a r.order;
              valid = d.valid;
              holds =
                  entries_cong (slot c.inner.nodes) (slot inner'.nodes) (erase a r.order) d.kept
                  ∙ contents-erase dec c.inner r.order r.valid k a e
                  ∙ ap (Assoc.remove dec k) r.holds;
              memory = omega (arith, r.memory, d.length_is);
              capacity_is = r.capacity_is;
            },
          )
    ]

  module _ {c : Fifo K V} {l : List (K × V)} (r : IsQueueOf dec cap c l) where
    length-IsQueueOf : length l ≡ length c.inner.map
    length-IsQueueOf = ap length (sym r.holds) ∙ length-contents dec c.inner r.order r.valid

    -- From a cache that stands for a list of entries, len and is_empty of the FIFO policy report
    -- the number of entries, and that is at most the capacity, or one where the capacity is zero.
    pub len-IsQueueOf : (len c ≡ length l) × (is_empty c ≡ (length l == 0)) × (length l ≤ max 1 cap)
    unfolding len is_empty
    len-IsQueueOf = (
      sym length-IsQueueOf,
      rw length-IsQueueOf,
      omega (arith, length-IsQueueOf, r.valid.counted, r.valid.pooled.filled, r.memory),
    )

    -- From a cache that stands for a list of entries, get of the FIFO policy does not panic and
    -- returns the value of the key if it is cached, contains tells whether it is, len and is_empty
    -- report the number of entries, and that is at most the capacity, or one where the capacity is
    -- zero.
    pub queries-IsQueueOf :
        (k : K)
        → (get dec c k ≡ some (Assoc.get dec k l))
          × (contains dec c k ≡ is_some (Assoc.get dec k l))
          × (len c ≡ length l)
          × (is_empty c ≡ (length l == 0))
          × (length l ≤ max 1 cap)
    queries-IsQueueOf k =
        let (counted, empty, bound) = len-IsQueueOf in
        (get-IsQueueOf r k, contains-IsQueueOf r k, counted, empty, bound)
