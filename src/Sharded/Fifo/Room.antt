-- ===== src/Sharded/Fifo/Room.antt =====
-- Eviction at capacity: the first entry goes, and a slot is left for a new one.
use test_thread_safe_lru_cac.Base.{
  ℕ, ◌≤◌, max, ◌≡◌, refl, ◌∙◌, true, none, some, List, [], ◌∷◌, is_some, leb, if◌then◌else◌, arith,
  Bool-cases, Option-cases, inl, inr, length,
}
use test_thread_safe_lru_cac.Assoc
use test_thread_safe_lru_cac.Spec.{drop_first}
use test_thread_safe_lru_cac.Chain.{erase}
use test_thread_safe_lru_cac.Store.{Node, key_of}
use test_thread_safe_lru_cac.Store.Entries.{entries_cong}
use test_thread_safe_lru_cac.Sharded.Slots.{LruInner, slot}
use test_thread_safe_lru_cac.Sharded.Slots.Invariant.{IsValid}
use test_thread_safe_lru_cac.Sharded.Slots.Contents.{contents, length-contents}
use test_thread_safe_lru_cac.Sharded.Lru.Evict.{Removed, remove_node-Removed}
use test_thread_safe_lru_cac.Sharded.Lru.Room.{Roomy, kept-Roomy}
use test_thread_safe_lru_cac.Sharded.Fifo.{evict}
use test_thread_safe_lru_cac.Sharded.Fifo.Back.{remove_node-eq}

erase_first : (x : ℕ) (xs : List ℕ) → erase x (x ∷ xs) ≡ xs
erase_first x xs = ground arith

module _ {K V : Type 0} (dec : Discrete K) where
  Removed-Roomy :
      (inner inner' : LruInner K V) (capacity x : ℕ) (n : Node K V) (xs : List ℕ)
      → IsValid dec inner (x ∷ xs)
      → slot inner.nodes x ≡ some n
      → length (x ∷ xs) ≤ max 1 capacity
      → Removed dec inner inner' x n.key (x ∷ xs)
      → Roomy dec inner inner' capacity xs (drop_first (contents inner (x ∷ xs)))
  Removed-Roomy inner inner' capacity x n xs v here bound r = record {
    valid = rw (erase_first x xs) at r.valid;
    holds =
        entries_cong (slot inner.nodes) (slot inner'.nodes) xs
          (λ b m. r.kept b (rw (erase_first x xs) m))
        ∙ ground arith;
    room = omega (arith, bound);
    length_is = r.length_is;
    absent = λ j e. rw r.map_is (absent j e);
  }
    where
      absent :
          (j : K)
          → Assoc.get dec j inner.map ≡ none
          → Assoc.get dec j (Assoc.remove dec n.key inner.map) ≡ none
      absent j e = elim (dec j n.key) [
        | yes p ↦ rw p (Assoc.get-remove_self dec n.key inner.map v.indexed.unique)
        | no p ↦ Assoc.get-remove_ne dec n.key j inner.map p ∙ e
      ]

  -- `evict` drops the first entry of a full cache, keeps any other cache, and does not panic.
  pub evict-Roomy :
      (inner : LruInner K V) (capacity : ℕ) (xs : List ℕ)
      → IsValid dec inner xs
      → length xs ≤ max 1 capacity
      → (inner' : LruInner K V) × (ys : List ℕ) × (evict dec inner capacity ≡ some inner')
        × Roomy dec inner inner' capacity ys (
            if leb capacity (length (contents inner xs))
            then drop_first (contents inner xs)
            else contents inner xs)
  unfolding evict
  evict-Roomy inner capacity [] v bound = (
    inner,
    [],
    ground (arith, v.linked.head_is),
    rw ends (kept-Roomy dec inner capacity [] v (omega arith)),
  )
    where
      ends :
          (if leb capacity (length (contents inner []))
            then drop_first (contents inner [])
            else contents inner [])
          ≡ []
      ends = ground arith
  evict-Roomy inner capacity (x ∷ xs) v bound =
      rw (length-contents dec inner (x ∷ xs) v)
        (elim (Bool-cases (leb capacity (length inner.map))) [
          | inl full ↦ rw full (
              let held : is_some (slot inner.nodes x) ≡ true = ground (arith, v.pooled.live x) in
              elim (Option-cases (slot inner.nodes x)) [
                | inl o ↦ absurd (ground arith)
                | inr (n, o) ↦
                    let here : key_of (slot inner.nodes x) ≡ some n.key = rw o refl in
                    let (inner', e, r) = remove_node-Removed dec inner x n.key (x ∷ xs) v here in
                    (
                      inner',
                      xs,
                      rw v.linked.head_is (remove_node-eq inner x dec ∙ e),
                      Removed-Roomy inner inner' capacity x n xs v o bound r,
                    )
              ])
          | inr free ↦ rw free (
            inner,
            x ∷ xs,
            refl,
            kept-Roomy dec inner capacity (x ∷ xs) v (ground (arith, v.counted)),
          )
        ])
