-- ===== src/Sharded/Lru/Promote.antt =====
-- `handle_recent_used` moves each buffered node that is still linked to the front, in the order
-- of the buffer, and changes nothing else.
use test_thread_safe_lru_cac.Base.{
  ℕ, ◌≡◌, refl, true, some, List, [], ◌∷◌, ◌>>=◌, Bool-cases, inl, inr,
}
use test_thread_safe_lru_cac.Chain.{has, erase}
use test_thread_safe_lru_cac.Chain.Promote.{move_front, promote}
use test_thread_safe_lru_cac.Sharded.Slots.{LruInner}
use test_thread_safe_lru_cac.Sharded.Slots.Invariant.{IsValid, SameData, SameData-trans}
use test_thread_safe_lru_cac.Sharded.Lru.{push_front, unlink_node, promote_node, promote_nodes}
use test_thread_safe_lru_cac.Sharded.Lru.Detach.{unlink_node-Loose, push_front-IsValid}

module _ {K V : Type 0} (dec : Discrete K) where
  -- `unlink_node` and then `push_front` move a linked node to the front.
  pub relink-IsValid :
      (inner : LruInner K V) (i : ℕ) (xs : List ℕ)
      → IsValid dec inner xs
      → has i xs ≡ true
      → (inner' : LruInner K V) × ((unlink_node inner i >>= λ mid. push_front mid i) ≡ some inner')
        × IsValid dec inner' (i ∷ erase i xs)
        × SameData inner inner'
  relink-IsValid inner i xs v m =
      let (mid, e, l, d) = unlink_node-Loose dec inner i xs v m in
      let (inner', e', v', d') = push_front-IsValid dec mid i (erase i xs) l in
      (inner', rw (e, e'), v', SameData-trans d d')

  pub promote_node-IsValid :
      (inner : LruInner K V) (i : ℕ) (xs : List ℕ)
      → IsValid dec inner xs
      → (inner' : LruInner K V) × (promote_node inner i ≡ some inner')
        × IsValid dec inner' (move_front i xs)
        × SameData inner inner'
  unfolding promote_node
  promote_node-IsValid inner i xs v = elim (Bool-cases (has i xs)) [
    | inl m ↦ rw (v.pooled.live i, m) (relink-IsValid inner i xs v m)
    | inr m ↦
        rw (v.pooled.live i, m)
          (inner, refl, v, record { same_entries = λ b. refl; same_map = refl; same_length = refl })
  ]

  pub promote_nodes-IsValid :
      (is : List ℕ) (inner : LruInner K V) (xs : List ℕ)
      → IsValid dec inner xs
      → (inner' : LruInner K V) × (promote_nodes inner is ≡ some inner')
        × IsValid dec inner' (promote is xs)
        × SameData inner inner'
  unfolding promote_nodes
  promote_nodes-IsValid [] inner xs v =
      (inner, refl, v, record { same_entries = λ b. refl; same_map = refl; same_length = refl })
  promote_nodes-IsValid (i ∷ is) inner xs v =
      let (mid, e, w, d) = promote_node-IsValid inner i xs v in
      let (inner', e', v', d') = promote_nodes-IsValid is mid (move_front i xs) w in
      (inner', rw (e, e'), v', SameData-trans d d')
