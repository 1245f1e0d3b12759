-- ===== src/Sharded/Lru/Room.antt =====
-- Eviction at capacity: the last entry goes, and a slot is left for a new one.
use test_thread_safe_lru_cac.Base.{
  ℕ, ◌<◌, ◌≤◌, max, ◌≡◌, refl, ◌∙◌, true, none, some, List, [], ◌∷◌, is_some, leb, if◌then◌else◌,
  arith, Bool-cases, Option-cases, inl, inr, length,
}
use test_thread_safe_lru_cac.Assoc
use test_thread_safe_lru_cac.Spec.{drop_last}
use test_thread_safe_lru_cac.Chain.{erase, last_or}
use test_thread_safe_lru_cac.Chain.Erase.{length-erase}
use test_thread_safe_lru_cac.Chain.Ends.{has-last_or, last_or-cons}
use test_thread_safe_lru_cac.Store.{key_of}
use test_thread_safe_lru_cac.Store.Entries.{entries_cong, entries-erase_last}
use test_thread_safe_lru_cac.Sharded.Slots.{LruInner, slot}
use test_thread_safe_lru_cac.Sharded.Slots.Invariant.{IsValid}
use test_thread_safe_lru_cac.Sharded.Slots.Contents.{contents, length-contents}
use test_thread_safe_lru_cac.Sharded.Lru.{evict}
use test_thread_safe_lru_cac.Sharded.Lru.Evict.{Removed, remove_node-Removed}

module _ {K V : Type 0} (dec : Discrete K) where
  -- A chain `ys` with contents `l` and room for one more entry.
  pub record Roomy (inner inner' : LruInner K V) (capacity : ℕ) (ys : List ℕ) (l : List (K × V))
      : Type 0 where
    pub valid : IsValid dec inner' ys
    pub holds : contents inner' ys ≡ l
    pub room : length ys < max 1 capacity
    pub length_is : length inner'.nodes ≡ length inner.nodes
    pub absent : (k : K) → Assoc.get dec k inner.map ≡ none → Assoc.get dec k inner'.map ≡ none

  Removed-Roomy :
      (inner inner' : LruInner K V) (capacity t : ℕ) (k : K) (xs : List ℕ)
      → IsValid dec inner xs
      → last_or none xs ≡ some t
      → key_of (slot inner.nodes t) ≡ some k
      → length xs ≤ max 1 capacity
      → Removed dec inner inner' t k xs
      → Roomy inner inner' capacity (erase t xs) (drop_last (contents inner xs))
  Removed-Roomy inner inner' capacity t k xs v last held bound r = record {
    valid = r.valid;
    holds =
        entries_cong (slot inner.nodes) (slot inner'.nodes) (erase t xs) r.kept
        ∙ entries-erase_last (slot inner.nodes) xs t v.linked.distinct (λ b m. v.pooled.live b ∙ m)
            last;
    room = omega (arith, length-erase t xs (has-last_or none xs last refl));
    length_is = r.length_is;
    absent = λ j e. rw r.map_is (absent j e);
  }
    where
      absent :
          (j : K)
          → Assoc.get dec j inner.map ≡ none
          → Assoc.get dec j (Assoc.remove dec k inner.map) ≡ none
      absent j e = elim (dec j k) [
        | yes p ↦ rw p (Assoc.get-remove_self dec k inner.map v.indexed.unique)
        | no p ↦ Assoc.get-remove_ne dec k j inner.map p ∙ e
      ]

  pub kept-Roomy :
      (inner : LruInner K V) (capacity : ℕ) (xs : List ℕ)
      → IsValid dec inner xs
      → length xs < max 1 capacity
      → Roomy inner inner capacity xs (contents inner xs)
  kept-Roomy inner capacity xs v h = record {
    valid = v;
    holds = refl;
    room = h;
    length_is = refl;
    absent = λ k e. e;
  }

  -- `evict` drops the last entry of a full cache, keeps any other cache, and does not panic.
  pub evict-Roomy :
      (inner : LruInner K V) (capacity : ℕ) (xs : List ℕ)
      → IsValid dec inner xs
      → length xs ≤ max 1 capacity
      → (inner' : LruInner K V) × (ys : List ℕ) × (evict dec inner capacity ≡ some inner')
        × Roomy inner inner' capacity ys (
            if leb capacity (length (contents inner xs))
            then drop_last (contents inner xs)
            else contents inner xs)
  unfolding evict
  evict-Roomy inner capacity [] v bound = (
    inner,
    [],
    ground (arith, v.linked.tail_is),
    rw ends (kept-Roomy inner capacity [] v (omega arith)),
  )
    where
      ends :
          (if leb capacity (length (contents inner []))
            then drop_last (contents inner [])
            else contents inner [])
          ≡ []
      ends = ground arith
  evict-Roomy inner capacity (x ∷ xs) v bound =
      rw (length-contents dec inner (x ∷ xs) v)
        (elim (Bool-cases (leb capacity (length inner.map))) [
          | inl full ↦ rw full (
              let (t, last) = last_or-cons x xs in
              let held : is_some (slot inner.nodes t) ≡ true =
                v.pooled.live t ∙ has-last_or none (x ∷ xs) last refl in
              elim (Option-cases (slot inner.nodes t)) [
                | inl o ↦ absurd (ground arith)
                | inr (n, o) ↦
                    let here : key_of (slot inner.nodes t) ≡ some n.key = rw o refl in
                    let (inner', e, r) = remove_node-Removed dec inner t n.key (x ∷ xs) v here in
                    (
                      inner',
                      erase t (x ∷ xs),
                      rw (v.linked.tail_is, last) e,
                      Removed-Roomy inner inner' capacity t n.key (x ∷ xs) v last here bound r,
                    )
              ])
          | inr free ↦ rw free (
            inner,
            x ∷ xs,
            refl,
            kept-Roomy inner capacity (x ∷ xs) v (ground (arith, v.counted)),
          )
        ])
