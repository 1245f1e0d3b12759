-- ===== src/Sharded/Lru/Evict.antt =====
-- `remove` of a node and the eviction at capacity.
use test_thread_safe_lru_cac.Base.{
  ℕ, ◌≡◌, ◌∙◌, ap, true, none, some, List, arith, Option-cases, inl, inr, length, get_elem?,
  length-set,
}
use test_thread_safe_lru_cac.Assoc
use test_thread_safe_lru_cac.Chain.{has, erase}
use test_thread_safe_lru_cac.Store.{Node, entry_of, key_of}
use test_thread_safe_lru_cac.Store.Index.{key_of-entry_of}
use test_thread_safe_lru_cac.Sharded.Slots.{LruInner, slot}
use test_thread_safe_lru_cac.Sharded.Slots.Release.{released, released-IsValid, slot-released_ne}
use test_thread_safe_lru_cac.Sharded.Slots.Invariant.{IsValid, Loose, SameData}
use test_thread_safe_lru_cac.Sharded.Lru.{remove_node}
use test_thread_safe_lru_cac.Sharded.Lru.Detach.{unlink_node-Loose}

module _ {K V : Type 0} (dec : Discrete K) where
  take_node :
      (mid : LruInner K V) (i : ℕ) (n : Node K V)
      → slot mid.nodes i ≡ some n
      → get_elem? mid.nodes i ≡ some (some n)
  unfolding slot
  take_node mid i n e = ground arith

  -- What `remove` leaves: the chain without the node, the other nodes' data, and the map without
  -- the key.
  pub record Removed (inner inner' : LruInner K V) (i : ℕ) (k : K) (xs : List ℕ) : Type 0 where
    pub valid : IsValid dec inner' (erase i xs)
    pub kept :
        (b : ℕ)
        → has b (erase i xs) ≡ true
        → entry_of (slot inner'.nodes b) ≡ entry_of (slot inner.nodes b)
    pub map_is : inner'.map ≡ Assoc.remove dec k inner.map
    pub length_is : length inner'.nodes ≡ length inner.nodes

  released-Removed :
      (inner mid : LruInner K V) (i : ℕ) (k : K) (xs : List ℕ)
      → Loose dec mid i (erase i xs)
      → SameData inner mid
      → key_of (slot mid.nodes i) ≡ some k
      → Removed inner (released dec mid i k) i k xs
  released-Removed inner mid i k xs l d e = record {
    valid = released-IsValid dec mid i (erase i xs) l k e;
    kept = λ b m. ap entry_of (slot-released_ne dec mid i (erase i xs) l k b m) ∙ d.same_entries b;
    map_is = ap (Assoc.remove dec k) d.same_map;
    length_is = length-set mid.nodes i none ∙ d.same_length;
  }

  -- `Self::remove` of a linked node does not panic.
  pub remove_node-Removed :
      (inner : LruInner K V) (i : ℕ) (k : K) (xs : List ℕ)
      → IsValid dec inner xs
      → key_of (slot inner.nodes i) ≡ some k
      → (inner' : LruInner K V) × (remove_node dec inner i ≡ some inner')
        × Removed inner inner' i k xs
  unfolding remove_node
  remove_node-Removed inner i k xs v h =
      let (mid, e, l, d) = unlink_node-Loose dec inner i xs v (ground (arith, v.pooled.live i)) in
      let held : key_of (slot mid.nodes i) ≡ some k = key_of-entry_of _ _ (d.same_entries i) ∙ h in
      elim (Option-cases (slot mid.nodes i)) [
        | inl o ↦ absurd (ground arith)
        | inr (n, o) ↦ (
          released dec mid i k,
          rw (e, take_node mid i n o) (ground arith),
          released-Removed inner mid i k xs l d held,
        )
      ]
