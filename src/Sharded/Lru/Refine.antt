-- ===== src/Sharded/Lru/Refine.antt =====
-- The LRU policy of src/sharded/eviction/lru.rs against its specification: what the buffer still
-- holds back counts as done, so that a flush of the buffer changes nothing that can be observed.
use test_thread_safe_lru_cac.Base.{
  ℕ, ◌≤◌, max, ◌≡◌, refl, ◌∙◌, sym, ap, true, none, some, List, [], arith, length,
}
use test_thread_safe_lru_cac.Assoc
use test_thread_safe_lru_cac.Chain.{has, erase}
use test_thread_safe_lru_cac.Chain.Promote.{promote}
use test_thread_safe_lru_cac.Store.{entry_of}
use test_thread_safe_lru_cac.Store.Entries.{entries_cong}
use test_thread_safe_lru_cac.Sharded.Slots.{LruInner, slot}
use test_thread_safe_lru_cac.Sharded.Slots.Contents.{
  contents, get-contents, get-contents_absent, has-map, node_of_map, contents-erase,
}
use test_thread_safe_lru_cac.Sharded.Slots.Invariant.{IsValid, SameData}
use test_thread_safe_lru_cac.Sharded.Lru.{Lru, new, promote_nodes, handle_recent_used}
use test_thread_safe_lru_cac.Sharded.Lru.Promote.{promote_nodes-IsValid}

-- `c` stands for a cache of capacity `cap` with the entries `l`, most recently used first. Its
-- vector of nodes never grows beyond the capacity.
pub record Represents {K V : Type 0} (dec : Discrete K) (cap : ℕ) (c : Lru K V) (l : List (K × V))
    : Type 0 where
  pub order : List ℕ
  pub valid : IsValid dec c.inner order
  pub holds : contents c.inner (promote c.recent_nodes_idx order) ≡ l
  pub memory : length c.inner.nodes ≤ max 1 cap
  pub capacity_is : c.capacity ≡ cap

module _ {K V : Type 0} (dec : Discrete K) (cap : ℕ) where
  -- The slot array after a flush, beside the one before.
  pub record Flushed (c : Lru K V) (l : List (K × V)) (zs : List ℕ) : Type 0 where
    pub inner' : LruInner K V
    pub runs : promote_nodes c.inner c.recent_nodes_idx ≡ some inner'
    pub valid : IsValid dec inner' zs
    pub data_is : SameData c.inner inner'
    pub same : (ys : List ℕ) → contents c.inner ys ≡ contents inner' ys
    pub holds : contents inner' zs ≡ l

  pub flush :
      {c : Lru K V} {l : List (K × V)}
      → (r : Represents dec cap c l) → Flushed c l (promote c.recent_nodes_idx r.order)
  flush {c} r =
      let (inner', e, v, d) =
        promote_nodes-IsValid dec c.recent_nodes_idx c.inner r.order r.valid in
      let same : (ys : List ℕ) → contents c.inner ys ≡ contents inner' ys = λ ys.
        sym (entries_cong (slot c.inner.nodes) (slot inner'.nodes) ys (λ b m. d.same_entries b)) in
      record {
        inner' = inner';
        runs = e;
        valid = v;
        data_is = d;
        same = same;
        holds = sym (same _) ∙ r.holds;
      }

  pub handle_recent_used_lem :
      {c : Lru K V} {l : List (K × V)} {zs : List ℕ} (f : Flushed c l zs)
      → handle_recent_used c ≡ some (record c { inner = f.inner'; recent_nodes_idx = [] })
  unfolding handle_recent_used
  handle_recent_used_lem f = rw f.runs

  -- From a cache that stands for a list of entries, a flush of the buffer does not panic, empties
  -- the buffer, and leaves the entries and their order as they count.
  pub handle_recent_used-Represents :
      {c : Lru K V} {l : List (K × V)}
      → Represents dec cap c l
      → (c' : Lru K V) × (handle_recent_used c ≡ some c')
        × Represents dec cap c' l
        × (c'.recent_nodes_idx ≡ [])
  handle_recent_used-Represents {c} r =
      let f = flush r in
      (
        record c { inner = f.inner'; recent_nodes_idx = [] },
        handle_recent_used_lem f,
        record {
          order = promote c.recent_nodes_idx r.order;
          valid = f.valid;
          holds = f.holds;
          memory = omega (arith, r.memory, f.data_is.same_length);
          capacity_is = r.capacity_is;
        },
        refl,
      )

  pub new-Represents : Represents dec cap (new {K = K} {V = V} cap) []
  unfolding new slot
  new-Represents = record {
    order = [];
    valid = record {
      linked = record {
        distinct = tt;
        head_is = refl;
        tail_is = refl;
        linked = λ a m. ground arith;
      };
      indexed = record {
        unique = tt;
        sound = λ k a e. ground arith;
        complete = λ k a e. ground arith;
      };
      counted = refl;
      pooled = record {
        live = λ a. refl;
        vacant = λ a m. ground arith;
        free_distinct = tt;
        filled = omega arith;
      };
    };
    holds = refl;
    memory = omega arith;
    capacity_is = refl;
  }

  module _ {c : Lru K V} {l : List (K × V)} (r : Represents dec cap c l) (k : K) where
    pub lookup_miss : Assoc.get dec k c.inner.map ≡ none → Assoc.get dec k l ≡ none
    lookup_miss e =
        let f = flush r in
        rw (← f.holds) (
          get-contents_absent dec f.inner' _ f.valid k
            (ap (Assoc.get dec k) f.data_is.same_map ∙ e))

    -- What a hit in the map finds.
    pub record Hit (a : ℕ) : Type 0 where
      pub value : V
      pub entry : entry_of (slot c.inner.nodes a) ≡ some (k, value)
      pub found : Assoc.get dec k l ≡ some value
      pub member : has a (promote c.recent_nodes_idx r.order) ≡ true
      pub taken :
          contents c.inner (erase a (promote c.recent_nodes_idx r.order)) ≡ Assoc.remove dec k l

    pub lookup-Hit : (a : ℕ) → Assoc.get dec k c.inner.map ≡ some a → Hit a
    lookup-Hit a e =
        let f = flush r in
        let zs = promote c.recent_nodes_idx r.order in
        let e' : Assoc.get dec k f.inner'.map ≡ some a =
          ap (Assoc.get dec k) f.data_is.same_map ∙ e in
        let (w, here) = node_of_map dec f.inner' zs f.valid k a e' in
        record {
          value = w;
          entry = sym (f.data_is.same_entries a) ∙ here;
          found = rw (← f.holds) (get-contents dec f.inner' zs f.valid k a e' w here);
          member = has-map dec f.inner' zs f.valid k a e';
          taken =
              f.same (erase a zs)
              ∙ contents-erase dec f.inner' zs f.valid k a e'
              ∙ ap (Assoc.remove dec k) f.holds;
        }
