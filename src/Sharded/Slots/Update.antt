-- ===== src/Sharded/Slots/Update.antt =====
-- The value of a loose node replaced in place.
use test_thread_safe_lru_cac.Base.{
  ℕ, ◌≡◌, some, List, ◌∷◌, ◌==◌, if◌then◌else◌, arith, set, length-set,
}
use test_thread_safe_lru_cac.Store.{Node, Linked-cong}
use test_thread_safe_lru_cac.Store.Index.{Indexed}
use test_thread_safe_lru_cac.Sharded.Slots.{LruInner, slot}
use test_thread_safe_lru_cac.Sharded.Slots.Writes.{slot-set, lt_of_slot}
use test_thread_safe_lru_cac.Sharded.Slots.Invariant.{Loose, Pooled}

module _ {K V : Type 0} (dec : Discrete K) (inner : LruInner K V) (a : ℕ) (value : V)
    (n : Node K V) where
  abbrev pub updated : LruInner K V
  updated = record inner { nodes = set inner.nodes a (some (record n { value = value })) }

  module _ (e : slot inner.nodes a ≡ some n) where
    pub slot-updated :
        (b : ℕ)
        → slot updated.nodes b
          ≡ (if a == b then some (record n { value = value }) else slot inner.nodes b)
    slot-updated b =
        slot-set inner.nodes a (some (record n { value = value })) b
          (lt_of_slot inner.nodes a (rw e))

    updated-Indexed :
        Indexed dec inner.map (slot inner.nodes) → Indexed dec inner.map (slot updated.nodes)
    updated-Indexed ix = record {
      unique = ix.unique;
      sound = λ k b g. ground (arith, slot-updated b, ix.sound k b);
      complete = λ k b h. ground (arith, slot-updated b, ix.complete k b);
    }

    updated-Pooled :
        (xs : List ℕ)
        → Pooled inner.nodes inner.available_slots xs
        → Pooled updated.nodes inner.available_slots xs
    updated-Pooled xs p = record {
      live = λ b. ground (arith, slot-updated b, p.live b);
      vacant =
          λ b m. rw (length-set inner.nodes a (some (record n { value = value }))) (p.vacant b m);
      free_distinct = p.free_distinct;
      filled =
          omega (arith, p.filled, length-set inner.nodes a (some (record n { value = value })));
    }

    pub updated-Loose : (ys : List ℕ) → Loose dec inner a ys → Loose dec updated a ys
    updated-Loose ys l = record {
      linked =
          Linked-cong (slot inner.nodes) (slot updated.nodes)
            (λ b m. ground (arith, slot-updated b, l.new)) l.linked;
      indexed = updated-Indexed l.indexed;
      counted = l.counted;
      pooled = updated-Pooled (a ∷ ys) l.pooled;
      new = l.new;
    }
