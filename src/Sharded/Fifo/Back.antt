-- ===== src/Sharded/Fifo/Back.antt =====
-- `push_back` puts a loose node last. The other steps on the slot array are those of the LRU policy.
use test_thread_safe_lru_cac.Base.{
  ℕ, ◌≡◌, refl, sym, ◌∙◌, true, Option, none, some, List, [], ◌∷◌, ◌++◌, if◌then◌else◌, is_some,
  arith, length, length-append,
}
use test_thread_safe_lru_cac.Chain.{has, is_at, has-last_at}
use test_thread_safe_lru_cac.Chain.Ends.{has-append_last}
use test_thread_safe_lru_cac.Store.{Linked-cong, entry_of, backed}
use test_thread_safe_lru_cac.Store.Index.{Indexed-cong}
use test_thread_safe_lru_cac.Store.Ends.{backed-Linked, entry_of-backed}
use test_thread_safe_lru_cac.Sharded.Slots.{LruInner, slot}
use test_thread_safe_lru_cac.Sharded.Slots.Links.{
  LiveAt, back_nodes, slot-back_nodes, length-back_nodes, write_next, slot-write_next,
}
use test_thread_safe_lru_cac.Sharded.Slots.Invariant.{IsValid, Loose, SameData, Pooled-cong}
use test_thread_safe_lru_cac.Sharded.Lru
use test_thread_safe_lru_cac.Sharded.Fifo.{
  link_tail, push_back, unlink_node, unlink_prev, unlink_next, update_value, place, remove_node,
}

module _ {K V : Type 0} (inner : LruInner K V) (a : ℕ) where
  pub unlink_node-eq : unlink_node inner a ≡ Lru.unlink_node inner a
  unfolding unlink_node unlink_prev unlink_next Lru.unlink_node Lru.unlink_prev Lru.unlink_next
  unlink_node-eq = ground arith

  pub update_value-eq : (v : V) → update_value inner a v ≡ Lru.update_value inner a v
  unfolding update_value Lru.update_value
  update_value-eq v = refl

  pub remove_node-eq : (dec : Discrete K) → remove_node dec inner a ≡ Lru.remove_node dec inner a
  unfolding remove_node Lru.remove_node
  remove_node-eq dec = rw unlink_node-eq refl

pub place-eq :
    {K V : Type 0} (inner : LruInner K V) (k : K) (v : V) → place inner k v ≡ Lru.place inner k v
unfolding place Lru.place
place-eq inner k v = refl

module _ {K V : Type 0} (inner : LruInner K V) (a : ℕ) where
  abbrev last_linked : LruInner K V
  last_linked = record inner {
    nodes = back_nodes inner.nodes a inner.tail;
    head = if is_some inner.tail then inner.head else some a;
    tail = some a;
  }

  link_tail_lem :
      LiveAt inner.nodes inner.tail
      → link_tail inner a
        ≡ some (record inner {
          nodes = write_next inner.nodes inner.tail (some a);
          head = if is_some inner.tail then inner.head else some a;
        })
  unfolding link_tail
  link_tail_lem lt = ground arith

  push_back_lem :
      is_some (slot inner.nodes a) ≡ true
      → LiveAt inner.nodes inner.tail
      → push_back inner a ≡ some last_linked
  unfolding push_back
  push_back_lem live lt =
      rw (link_tail_lem lt) (ground (arith, slot-write_next inner.nodes inner.tail (some a) a))

module _ {K V : Type 0} (dec : Discrete K) (inner : LruInner K V) (a : ℕ) where
  LiveAt-tail :
      (ys : List ℕ) (p : Option ℕ)
      → Loose dec inner a ys
      → ((x : ℕ) → is_at p x ≡ true → has x ys ≡ true)
      → LiveAt inner.nodes p
  LiveAt-tail ys none l h = tt
  LiveAt-tail ys (some x) l h = ground (arith, l.pooled.live x, h x)

  last_linked-entries :
      (b : ℕ)
      → is_some (slot inner.nodes a) ≡ true
      → entry_of (slot (last_linked inner a).nodes b) ≡ entry_of (slot inner.nodes b)
  last_linked-entries b live =
      rw (slot-back_nodes inner.nodes a inner.tail b live)
        (entry_of-backed (slot inner.nodes) a inner.tail b)

  has-rotated : (b : ℕ) (ys : List ℕ) → has b (ys ++ a ∷ []) ≡ has b (a ∷ ys)
  has-rotated b ys = ground (arith, has-append_last a b ys)

  length-rotated : (ys : List ℕ) → length (ys ++ a ∷ []) ≡ length (a ∷ ys)
  length-rotated ys = omega (arith, length-append ys (a ∷ []))

  last_linked-IsValid :
      (ys : List ℕ)
      → Loose dec inner a ys
      → is_some (slot inner.nodes a) ≡ true
      → IsValid dec (last_linked inner a) (ys ++ a ∷ [])
  last_linked-IsValid ys l live = record {
    linked =
        Linked-cong (backed a inner.tail (slot inner.nodes)) (slot (last_linked inner a).nodes)
          (λ b _. slot-back_nodes inner.nodes a inner.tail b live)
          (backed-Linked a l.linked l.new live);
    indexed =
        Indexed-cong (slot inner.nodes) (slot (last_linked inner a).nodes)
          (λ b. last_linked-entries b live) l.indexed;
    counted = l.counted ∙ sym (length-rotated ys);
    pooled =
        Pooled-cong inner.nodes (last_linked inner a).nodes (a ∷ ys) (ys ++ a ∷ [])
          (λ b. last_linked-entries b live) (length-back_nodes inner.nodes a inner.tail)
          (λ b. has-rotated b ys) (length-rotated ys) l.pooled;
  }

  pub push_back-IsValid :
      (ys : List ℕ)
      → Loose dec inner a ys
      → (inner' : LruInner K V) × (push_back inner a ≡ some inner')
        × IsValid dec inner' (ys ++ a ∷ [])
        × SameData inner inner'
  push_back-IsValid ys l =
      let live : is_some (slot inner.nodes a) ≡ true = ground (arith, l.pooled.live a) in
      (
        last_linked inner a,
        push_back_lem inner a live
            (LiveAt-tail ys inner.tail l (rw l.linked.tail_is (λ x. has-last_at x ys))),
        last_linked-IsValid ys l live,
        record {
          same_entries = λ b. last_linked-entries b live;
          same_map = refl;
          same_length = length-back_nodes inner.nodes a inner.tail;
        },
      )
