-- ===== src/Sharded/Lru/Place.antt =====
-- A new node gets a slot: a free one, or one more at the end while the vector is below capacity.
use test_thread_safe_lru_cac.Base.{
  ℕ, ◌<◌, ◌≤◌, ◌≡◌, ap, true, none, some, List, [], ◌∷◌, arith, length, length-set, length-append,
  is_some-get_elem?, inl, inr, List-cases,
}
use test_thread_safe_lru_cac.Assoc
use test_thread_safe_lru_cac.Chain.{has}
use test_thread_safe_lru_cac.Store.{entry_of}
use test_thread_safe_lru_cac.Sharded.Slots.{LruInner, slot}
use test_thread_safe_lru_cac.Sharded.Slots.Claim.{
  reused, reused-Loose, reused_vacant, slot-reused, grown, grown-Loose, grown_vacant, slot-grown,
}
use test_thread_safe_lru_cac.Sharded.Slots.Invariant.{IsValid, Loose}
use test_thread_safe_lru_cac.Sharded.Lru.{new_node, place}

module _ {K V : Type 0} (dec : Discrete K) where
  -- The slot array with a new loose node at `i`, and the other data of `inner`.
  pub record Placed (inner inner' : LruInner K V) (i : ℕ) (k : K) (v : V) (bound : ℕ) (ys : List ℕ)
      : Type 0 where
    pub loose : Loose dec inner' i ys
    pub kept :
        (b : ℕ) → has b ys ≡ true → entry_of (slot inner'.nodes b) ≡ entry_of (slot inner.nodes b)
    pub filled : entry_of (slot inner'.nodes i) ≡ some (k, v)
    pub memory : length inner'.nodes ≤ bound

  module _ (inner : LruInner K V) (k : K) (v : V) (bound : ℕ) (ys : List ℕ)
      (valid : IsValid dec inner ys) (fresh : Assoc.get dec k inner.map ≡ none) where
    reused-Placed :
        (i : ℕ) (rest : List ℕ)
        → inner.available_slots ≡ i ∷ rest
        → length inner.nodes ≤ bound
        → Placed inner (reused dec inner ys valid (new_node k v) fresh i rest) i k v bound ys
    reused-Placed i rest e memory = record {
      loose = reused-Loose dec inner ys valid (new_node k v) fresh i rest e;
      kept = λ b m. ground (
        arith,
        slot-reused dec inner ys valid (new_node k v) fresh i rest e b,
        reused_vacant dec inner ys valid (new_node k v) fresh i rest e,
      );
      filled = ground (arith, slot-reused dec inner ys valid (new_node k v) fresh i rest e i);
      memory = omega (arith, memory, length-set inner.nodes i (some (new_node k v)));
    }

    grown-Placed :
        inner.available_slots ≡ []
        → length ys < bound
        → Placed inner
            (grown dec inner ys valid (new_node k v) fresh)
            (length inner.nodes)
            k
            v
            bound
            ys
    grown-Placed e room = record {
      loose = grown-Loose dec inner ys valid (new_node k v) fresh;
      kept = λ b m. ground (
        arith,
        slot-grown dec inner ys valid (new_node k v) fresh b,
        grown_vacant dec inner ys valid (new_node k v) fresh,
      );
      filled =
          ground (arith, slot-grown dec inner ys valid (new_node k v) fresh (length inner.nodes));
      memory = omega (
        arith,
        room,
        valid.pooled.filled,
        ap length e,
        length-append inner.nodes (some (new_node k v) ∷ []),
      );
    }

    -- `place` does not panic, and grows the vector only while it is full of linked nodes.
    pub place-Placed :
        length ys < bound
        → length inner.nodes ≤ bound
        → (inner' : LruInner K V) × (i : ℕ) × (place inner k v ≡ some (inner', i))
          × Placed inner (record inner' { map = Assoc.insert dec k i inner'.map }) i k v bound ys
    unfolding place
    place-Placed room memory = elim (List-cases inner.available_slots) [
      | inl e ↦ (
        record inner { nodes = (grown dec inner ys valid (new_node k v) fresh).nodes },
        length inner.nodes,
        ground arith,
        grown-Placed e room,
      )
      | inr (i, rest, e) ↦ (
        record inner {
          nodes = (reused dec inner ys valid (new_node k v) fresh i rest).nodes;
          available_slots = rest;
        },
        i,
        ground (
          arith,
          is_some-get_elem? inner.nodes i,
          reused_vacant dec inner ys valid (new_node k v) fresh i rest e,
        ),
        reused-Placed i rest e memory,
      )
    ]
