-- ===== src/Sharded/Lru/Detach.antt =====
-- `unlink_node` takes a linked node out of the chain, `push_front` puts a loose node first.
use test_thread_safe_lru_cac.Base.{
  ℕ, ◌≡◌, refl, sym, ◌∙◌, true, Option, none, some, List, ◌∷◌, if◌then◌else◌, is_some, arith,
}
use test_thread_safe_lru_cac.Chain.{
  has, erase, pred_or, succ_of, is_at, has-pred_or, has-succ_of, has-first_or, has-erase,
}
use test_thread_safe_lru_cac.Chain.Erase.{length-erase}
use test_thread_safe_lru_cac.Store.{Linked-cong, entry_of, joined, fronted}
use test_thread_safe_lru_cac.Store.Index.{Indexed-cong}
use test_thread_safe_lru_cac.Store.Unlink.{joined-Linked, entry_of-joined}
use test_thread_safe_lru_cac.Store.Ends.{fronted-Linked, entry_of-fronted}
use test_thread_safe_lru_cac.Sharded.Slots.{LruInner, slot}
use test_thread_safe_lru_cac.Sharded.Slots.Links.{
  LiveAt, join_nodes, front_nodes, slot-join_nodes, slot-front_nodes, length-join_nodes,
  length-front_nodes,
}
use test_thread_safe_lru_cac.Sharded.Slots.Invariant.{
  IsValid, Loose, SameData, Pooled-cong, LiveAt-chain,
}
use test_thread_safe_lru_cac.Sharded.Lru.{push_front, unlink_node}
use test_thread_safe_lru_cac.Sharded.Lru.Links.{unlink_node_lem, push_front_lem}

module _ {K V : Type 0} (dec : Discrete K) (inner : LruInner K V) (a : ℕ) where
  abbrev unlinked : List ℕ → LruInner K V
  unlinked xs =
      let p = pred_or none a xs in
      let q = succ_of a xs in
      record inner {
        nodes = join_nodes inner.nodes p q;
        head = if is_some p then inner.head else q;
        tail = if is_some q then inner.tail else p;
      }

  has-cons_erase :
      (b : ℕ) (xs : List ℕ)
      → IsValid dec inner xs
      → has a xs ≡ true
      → has b (a ∷ erase a xs) ≡ has b xs
  has-cons_erase b xs v m = ground (arith, has-erase a b xs v.linked.distinct)

  unlinked-entries :
      (xs : List ℕ) (b : ℕ) → entry_of (slot (unlinked xs).nodes b) ≡ entry_of (slot inner.nodes b)
  unlinked-entries xs b =
      rw (slot-join_nodes inner.nodes (pred_or none a xs) (succ_of a xs) b)
        (entry_of-joined (slot inner.nodes) _ _ b)

  unlinked-Loose :
      (xs : List ℕ)
      → IsValid dec inner xs
      → has a xs ≡ true
      → Loose dec (unlinked xs) a (erase a xs)
  unlinked-Loose xs v m = record {
    linked =
        Linked-cong (joined (pred_or none a xs) (succ_of a xs) (slot inner.nodes))
          (slot (unlinked xs).nodes) (λ b _. slot-join_nodes inner.nodes _ _ b)
          (joined-Linked (slot inner.nodes) a v.linked m);
    indexed =
        Indexed-cong (slot inner.nodes) (slot (unlinked xs).nodes) (unlinked-entries xs) v.indexed;
    counted = v.counted ∙ sym (length-erase a xs m);
    pooled =
        Pooled-cong inner.nodes (unlinked xs).nodes xs (a ∷ erase a xs) (unlinked-entries xs)
          (length-join_nodes inner.nodes _ _) (λ b. has-cons_erase b xs v m) (length-erase a xs m)
          v.pooled;
    new = ground (arith, has-erase a a xs v.linked.distinct);
  }

  pub unlink_node-Loose :
      (xs : List ℕ)
      → IsValid dec inner xs
      → has a xs ≡ true
      → (inner' : LruInner K V) × (unlink_node inner a ≡ some inner')
        × Loose dec inner' a (erase a xs)
        × SameData inner inner'
  unlink_node-Loose xs v m = (
    unlinked xs,
    unlink_node_lem inner a (pred_or none a xs) (succ_of a xs) (v.linked.linked a m)
        (LiveAt-chain {xs = xs} _ v (λ x. has-pred_or a x xs))
        (LiveAt-chain {xs = xs} _ v (λ x. has-succ_of a x xs)),
    unlinked-Loose xs v m,
    record {
      same_entries = unlinked-entries xs;
      same_map = refl;
      same_length = length-join_nodes inner.nodes _ _;
    },
  )

  abbrev first_linked : LruInner K V
  first_linked = record inner {
    nodes = front_nodes inner.nodes a inner.head;
    head = some a;
    tail = if is_some inner.head then inner.tail else some a;
  }

  LiveAt-Loose :
      (ys : List ℕ) (p : Option ℕ)
      → Loose dec inner a ys
      → ((x : ℕ) → is_at p x ≡ true → has x ys ≡ true)
      → LiveAt inner.nodes p
  LiveAt-Loose ys none l h = tt
  LiveAt-Loose ys (some x) l h = ground (arith, l.pooled.live x, h x)

  first_linked-entries :
      (b : ℕ)
      → is_some (slot inner.nodes a) ≡ true
      → entry_of (slot first_linked.nodes b) ≡ entry_of (slot inner.nodes b)
  first_linked-entries b live =
      rw (slot-front_nodes inner.nodes a inner.head b live)
        (entry_of-fronted (slot inner.nodes) a inner.head b)

  first_linked-IsValid :
      (ys : List ℕ)
      → Loose dec inner a ys
      → is_some (slot inner.nodes a) ≡ true
      → IsValid dec first_linked (a ∷ ys)
  first_linked-IsValid ys l live = record {
    linked =
        Linked-cong (fronted a inner.head (slot inner.nodes)) (slot first_linked.nodes)
          (λ b _. slot-front_nodes inner.nodes a inner.head b live)
          (fronted-Linked a l.linked l.new live);
    indexed =
        Indexed-cong (slot inner.nodes) (slot first_linked.nodes) (λ b. first_linked-entries b live)
          l.indexed;
    counted = l.counted;
    pooled =
        Pooled-cong inner.nodes first_linked.nodes (a ∷ ys) (a ∷ ys)
          (λ b. first_linked-entries b live) (length-front_nodes inner.nodes a inner.head)
          (λ b. refl) refl l.pooled;
  }

  pub push_front-IsValid :
      (ys : List ℕ)
      → Loose dec inner a ys
      → (inner' : LruInner K V) × (push_front inner a ≡ some inner')
        × IsValid dec inner' (a ∷ ys)
        × SameData inner inner'
  push_front-IsValid ys l =
      let live : is_some (slot inner.nodes a) ≡ true = ground (arith, l.pooled.live a) in
      (
        first_linked,
        push_front_lem inner a live
            (LiveAt-Loose ys inner.head l (rw l.linked.head_is (λ x. has-first_or x ys))),
        first_linked-IsValid ys l live,
        record {
          same_entries = λ b. first_linked-entries b live;
          same_map = refl;
          same_length = length-front_nodes inner.nodes a inner.head;
        },
      )
