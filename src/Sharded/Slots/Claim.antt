-- ===== src/Sharded/Slots/Claim.antt =====
-- A slot taken for a new node: the top of the free stack, or one more at the end of the vector.
use test_thread_safe_lru_cac.Base.{
  ℕ, ◌<◌, ◌≡◌, false, Option, none, some, List, [], ◌∷◌, ◌++◌, ◌==◌, if◌then◌else◌, arith, length,
  set, length-set, length-append,
}
use test_thread_safe_lru_cac.Assoc
use test_thread_safe_lru_cac.Chain.{has}
use test_thread_safe_lru_cac.Store.{Node, Linked-cong}
use test_thread_safe_lru_cac.Store.Index.{Indexed-insert}
use test_thread_safe_lru_cac.Sharded.Slots.{LruInner, slot}
use test_thread_safe_lru_cac.Sharded.Slots.Writes.{slot-set, slot-append_last, lt_of_slot}
use test_thread_safe_lru_cac.Sharded.Slots.Invariant.{IsValid, Loose, Pooled}

module _ {K V : Type 0} (dec : Discrete K) (inner : LruInner K V) (ys : List ℕ)
    (v : IsValid dec inner ys) (n : Node K V) (fresh : Assoc.get dec n.key inner.map ≡ none) where
  -- What both ways to take a slot share.
  claimed-Loose :
      (i : ℕ) (ns : List (Option (Node K V))) (free : List ℕ)
      → ((b : ℕ) → slot ns b ≡ (if i == b then some n else slot inner.nodes b))
      → has i ys ≡ false
      → Pooled ns free (i ∷ ys)
      → Loose dec
          (record inner {
            map = Assoc.insert dec n.key i inner.map;
            nodes = ns;
            available_slots = free;
          })
          i
          ys
  claimed-Loose i ns free write new pool = record {
    linked = Linked-cong (slot inner.nodes) (slot ns) (λ b m. ground (arith, write b)) v.linked;
    indexed =
        Indexed-insert dec inner.map (slot inner.nodes) (slot ns) i n.key
          (λ b. ground (arith, write b)) vacant fresh v.indexed;
    counted = ground (arith, v.counted, Assoc.length-insert_new dec n.key i inner.map);
    pooled = pool;
    new = new;
  }
    where
      vacant : slot inner.nodes i ≡ none
      vacant = ground (arith, v.pooled.live i)

  abbrev pub reused : ℕ → List ℕ → LruInner K V
  reused i rest = record inner {
    map = Assoc.insert dec n.key i inner.map;
    nodes = set inner.nodes i (some n);
    available_slots = rest;
  }

  module _ (i : ℕ) (rest : List ℕ) (e : inner.available_slots ≡ i ∷ rest) where
    pub reused_vacant : (i < length inner.nodes) × (has i ys ≡ false)
    reused_vacant = v.pooled.vacant i (rw e (ground arith))

    pub slot-reused :
        (b : ℕ) → slot (reused i rest).nodes b ≡ (if i == b then some n else slot inner.nodes b)
    slot-reused b = slot-set inner.nodes i (some n) b reused_vacant.0

    reused-Pooled : Pooled (reused i rest).nodes rest (i ∷ ys)
    reused-Pooled = record {
      live = λ b. ground (arith, slot-reused b, v.pooled.live b);
      vacant =
          λ b m. ground (arith, e, distinct, length-set inner.nodes i (some n), v.pooled.vacant b);
      free_distinct = distinct.1;
      filled = ground (arith, e, v.pooled.filled, length-set inner.nodes i (some n));
    }
      where
        distinct : (has i rest ≡ false) × test_thread_safe_lru_cac.Chain.Distinct rest
        distinct = rw e at v.pooled.free_distinct

    pub reused-Loose : Loose dec (reused i rest) i ys
    reused-Loose = claimed-Loose i _ rest slot-reused reused_vacant.1 reused-Pooled

  abbrev pub grown : LruInner K V
  grown = record inner {
    map = Assoc.insert dec n.key (length inner.nodes) inner.map;
    nodes = inner.nodes ++ some n ∷ [];
  }

  pub grown_vacant : has (length inner.nodes) ys ≡ false
  grown_vacant =
      ground
        (arith, v.pooled.live (length inner.nodes), lt_of_slot inner.nodes (length inner.nodes))

  pub slot-grown :
      (b : ℕ)
      → slot grown.nodes b ≡ (if length inner.nodes == b then some n else slot inner.nodes b)
  slot-grown b = slot-append_last inner.nodes (some n) b

  grown-Pooled : Pooled grown.nodes inner.available_slots (length inner.nodes ∷ ys)
  grown-Pooled = record {
    live = λ b. ground (arith, slot-grown b, v.pooled.live b);
    vacant = λ b m. ground (arith, v.pooled.vacant b, length-append inner.nodes (some n ∷ []));
    free_distinct = v.pooled.free_distinct;
    filled = omega (arith, v.pooled.filled, length-append inner.nodes (some n ∷ []));
  }

  pub grown-Loose : Loose dec grown (length inner.nodes) ys
  grown-Loose = claimed-Loose _ _ inner.available_slots slot-grown grown_vacant grown-Pooled
