-- ===== src/Sharded/Lru/Links.antt =====
-- `unlink_node` and `push_front` do not panic on linked and occupied slots, and write exactly the
-- links that join the neighbours and that put the node first.
use test_thread_safe_lru_cac.Base.{
  ℕ, ◌≡◌, refl, true, Option, none, some, if◌then◌else◌, is_some, arith, Option-cases, inl, inr,
}
use test_thread_safe_lru_cac.Store.{links_of}
use test_thread_safe_lru_cac.Sharded.Slots.{LruInner, slot}
use test_thread_safe_lru_cac.Sharded.Slots.Links.{
  LiveAt, write_next, write_prev, join_nodes, front_nodes, slot-write_next, slot-write_prev,
}
use test_thread_safe_lru_cac.Sharded.Lru.{
  push_front, link_head, unlink_prev, unlink_next, unlink_node,
}

module _ {K V : Type 0} (inner : LruInner K V) where
  unlink_prev_lem :
      (p q : Option ℕ)
      → LiveAt inner.nodes p
      → unlink_prev inner p q
        ≡ some (record inner {
          nodes = write_next inner.nodes p q;
          head = if is_some p then inner.head else q;
        })
  unfolding unlink_prev
  unlink_prev_lem none q l = refl
  unlink_prev_lem (some i) q l = ground arith

  unlink_next_lem :
      (p q : Option ℕ)
      → LiveAt inner.nodes q
      → unlink_next inner p q
        ≡ some (record inner {
          nodes = write_prev inner.nodes q p;
          tail = if is_some q then inner.tail else p;
        })
  unfolding unlink_next
  unlink_next_lem p none l = refl
  unlink_next_lem p (some i) l = ground arith

module _ {K V : Type 0} (inner : LruInner K V) where
  LiveAt-write_next :
      (p q r : Option ℕ) → LiveAt inner.nodes r → LiveAt (write_next inner.nodes p q) r
  LiveAt-write_next p q none l = tt
  LiveAt-write_next p q (some i) l = ground (arith, slot-write_next inner.nodes p q i)

  pub unlink_node_lem :
      (a : ℕ) (p q : Option ℕ)
      → links_of (slot inner.nodes a) ≡ some (p, q)
      → LiveAt inner.nodes p
      → LiveAt inner.nodes q
      → unlink_node inner a
        ≡ some (record inner {
          nodes = join_nodes inner.nodes p q;
          head = if is_some p then inner.head else q;
          tail = if is_some q then inner.tail else p;
        })
  unfolding unlink_node
  unlink_node_lem a p q e lp lq = elim (Option-cases (slot inner.nodes a)) [
    | inl o ↦ ground arith
    | inr (n, o) ↦ ground (
      arith,
      unlink_prev_lem inner p q,
      unlink_next_lem
          (record inner {
            nodes = write_next inner.nodes p q;
            head = if is_some p then inner.head else q;
          })
          p q,
      LiveAt-write_next p q q,
    )
  ]

  link_head_lem :
      (h i : ℕ)
      → is_some (slot inner.nodes h) ≡ true
      → link_head inner h i
        ≡ some (record inner { nodes = write_prev inner.nodes (some h) (some i) })
  unfolding link_head slot
  link_head_lem h i l = ground arith

  pub push_front_lem :
      (a : ℕ)
      → is_some (slot inner.nodes a) ≡ true
      → LiveAt inner.nodes inner.head
      → push_front inner a
        ≡ some (record inner {
          nodes = front_nodes inner.nodes a inner.head;
          head = some a;
          tail = if is_some inner.head then inner.tail else some a;
        })
  unfolding push_front
  push_front_lem a live lh = elim (Option-cases inner.head) [
    | inl e ↦ ground arith
    | inr (h, e) ↦
        ground (arith, link_head_lem h a, slot-write_prev inner.nodes (some h) (some a) a)
  ]
