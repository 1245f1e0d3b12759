-- ===== src/Sharded/Slots/Release.antt =====
-- A loose node given up: its slot emptied and pushed on the free stack, its key dropped.
use test_thread_safe_lru_cac.Base.{
  ℕ, ◌<◌, ◌≡◌, true, false, none, some, List, ◌∷◌, ◌==◌, if◌then◌else◌, arith, length, set,
  length-set,
}
use test_thread_safe_lru_cac.Assoc
use test_thread_safe_lru_cac.Chain.{has}
use test_thread_safe_lru_cac.Store.{Linked-cong, key_of}
use test_thread_safe_lru_cac.Store.Index.{Indexed-remove}
use test_thread_safe_lru_cac.Sharded.Slots.{LruInner, slot}
use test_thread_safe_lru_cac.Sharded.Slots.Writes.{slot-set, lt_of_slot}
use test_thread_safe_lru_cac.Sharded.Slots.Invariant.{IsValid, Loose, Pooled}

module _ {K V : Type 0} (dec : Discrete K) (inner : LruInner K V) (a : ℕ) where
  abbrev pub released : K → LruInner K V
  released k = record inner {
    map = Assoc.remove dec k inner.map;
    nodes = set inner.nodes a none;
    available_slots = a ∷ inner.available_slots;
  }

  module _ (ys : List ℕ) (l : Loose dec inner a ys) where
    lt_length : a < length inner.nodes
    lt_length = lt_of_slot inner.nodes a (ground (arith, l.pooled.live a))

    pub slot-released :
        (k : K) (b : ℕ) → slot (released k).nodes b ≡ (if a == b then none else slot inner.nodes b)
    slot-released k b = slot-set inner.nodes a none b lt_length

    pub slot-released_ne :
        (k : K) (b : ℕ) → has b ys ≡ true → slot (released k).nodes b ≡ slot inner.nodes b
    slot-released_ne k b m = ground (arith, slot-released k b, l.new)

    released-Pooled : (k : K) → Pooled (released k).nodes (released k).available_slots ys
    released-Pooled k = record {
      live = λ b. ground (arith, slot-released k b, l.pooled.live b, l.new);
      vacant =
          λ b m. ground (arith, l.pooled.vacant b, l.new, lt_length, length-set inner.nodes a none);
      free_distinct = (not_free, l.pooled.free_distinct);
      filled = omega (arith, l.pooled.filled, length-set inner.nodes a none);
    }
      where
        not_free : has a inner.available_slots ≡ false
        not_free = ground (arith, l.pooled.vacant a)

    -- The slot and the key are free again, and the chain is valid without the node.
    pub released-IsValid :
        (k : K) → key_of (slot inner.nodes a) ≡ some k → IsValid dec (released k) ys
    released-IsValid k e = record {
      linked =
          Linked-cong (slot inner.nodes) (slot (released k).nodes) (slot-released_ne k) l.linked;
      indexed =
          Indexed-remove dec inner.map (slot inner.nodes) (slot (released k).nodes) a k
            (λ b. ground (arith, slot-released k b)) e l.indexed;
      counted = counted;
      pooled = released-Pooled k;
    }
      where
        counted : length (Assoc.remove dec k inner.map) ≡ length ys
        counted =
            ground (arith, l.counted, l.indexed.complete k a, Assoc.length-remove dec k inner.map)
