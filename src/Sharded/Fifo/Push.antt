-- ===== src/Sharded/Fifo/Push.antt =====
-- `push` on the slot array is `fifo_push` on the contents.
use test_thread_safe_lru_cac.Base.{
  ℕ, ◌≤◌, max, ◌≡◌, ◌∙◌, true, Option, none, some, List, [], ◌∷◌, ◌++◌, ◌>>=◌, arith, length,
  Option-cases, inl, inr, length-set, ap₂,
}
use test_thread_safe_lru_cac.Assoc
use test_thread_safe_lru_cac.Spec.{fifo_push, fifo_push_hit, fifo_push_miss}
use test_thread_safe_lru_cac.Chain.{has, erase}
use test_thread_safe_lru_cac.Store.{Store, entry_of}
use test_thread_safe_lru_cac.Store.Entries.{entries, entries_cong, entries-append_last}
use test_thread_safe_lru_cac.Sharded.Slots.{LruInner, slot}
use test_thread_safe_lru_cac.Sharded.Slots.Update.{updated, updated-Loose, slot-updated}
use test_thread_safe_lru_cac.Sharded.Slots.Contents.{
  contents, get-contents, get-contents_absent, has-map, node_of_map, contents-erase,
}
use test_thread_safe_lru_cac.Sharded.Slots.Invariant.{IsValid, Loose, SameData}
use test_thread_safe_lru_cac.Sharded.Lru.Detach.{unlink_node-Loose}
use test_thread_safe_lru_cac.Sharded.Lru.Place.{Placed, place-Placed}
use test_thread_safe_lru_cac.Sharded.Lru.Push.{Holds}
use test_thread_safe_lru_cac.Sharded.Fifo.{
  push_back, unlink_node, update_value, evict, place, push_inner,
}
use test_thread_safe_lru_cac.Sharded.Fifo.Back.{push_back-IsValid, unlink_node-eq, place-eq}
use test_thread_safe_lru_cac.Sharded.Fifo.Room.{evict-Roomy}

entries-append_kept :
    {K V : Type 0} (s t : Store K V) (a : ℕ) (e : K × V) (ys : List ℕ)
    → entry_of (t a) ≡ some e
    → ((b : ℕ) → has b ys ≡ true → entry_of (t b) ≡ entry_of (s b))
    → entries t (ys ++ a ∷ []) ≡ entries s ys ++ e ∷ []
entries-append_kept s t a e ys here same =
    entries-append_last t ys a ∙ ap₂ ◌++◌ (entries_cong s t ys same) (ground arith)

module _ {K V : Type 0} (dec : Discrete K) where
  abbrev pub Outcome : Option (LruInner K V) → ℕ → List (K × V) → Type 0
  Outcome r bound l =
      (inner' : LruInner K V) × (ys : List ℕ) × (r ≡ some inner') × Holds dec inner' bound ys l

  -- The value of a loose node replaced, and the node put last.
  update-push_back :
      (inner mid : LruInner K V) (a : ℕ) (k : K) (w value : V) (bound : ℕ) (ys : List ℕ)
      → Loose dec mid a ys
      → SameData inner mid
      → entry_of (slot inner.nodes a) ≡ some (k, w)
      → length inner.nodes ≤ bound
      → Outcome
          (update_value mid a value >>= λ i. push_back i a)
          bound
          (contents inner ys ++ (k, value) ∷ [])
  unfolding update_value
  update-push_back inner mid a k w value bound ys l d here memory =
      elim (Option-cases (slot mid.nodes a)) [
        | inl o ↦ absurd (ground (arith, d.same_entries a))
        | inr (n, o) ↦
            let (inner', e, valid, d') =
              push_back-IsValid dec (updated dec mid a value n) a ys
                (updated-Loose dec mid a value n o ys l) in
            (
              inner',
              ys ++ a ∷ [],
              rw (o) e,
              record {
                valid = valid;
                holds =
                    entries-append_kept (slot inner.nodes) (slot inner'.nodes) a (k, value) ys
                      (ground (
                        arith,
                        d.same_entries a,
                        d'.same_entries a,
                        slot-updated dec mid a value n o a,
                      ))
                      (λ b m. ground (
                        arith,
                        d.same_entries b,
                        d'.same_entries b,
                        slot-updated dec mid a value n o b,
                        l.new,
                      ));
                memory = omega (
                  arith,
                  memory,
                  d.same_length,
                  d'.same_length,
                  length-set mid.nodes a (some (record n { value = value })),
                );
              },
            )
      ]

  push_back-Placed :
      (inner mid : LruInner K V) (i : ℕ) (k : K) (value : V) (bound : ℕ) (ys : List ℕ)
      → Placed dec inner mid i k value bound ys
      → Outcome (push_back mid i) bound (contents inner ys ++ (k, value) ∷ [])
  push_back-Placed inner mid i k value bound ys p =
      let (inner', e, valid, d) = push_back-IsValid dec mid i ys p.loose in
      (
        inner',
        ys ++ i ∷ [],
        e,
        record {
          valid = valid;
          holds =
              entries-append_kept (slot inner.nodes) (slot inner'.nodes) i (k, value) ys
                (d.same_entries i ∙ p.filled) (λ b m. d.same_entries b ∙ p.kept b m);
          memory = omega (arith, p.memory, d.same_length);
        },
      )

  module _ (inner : LruInner K V) (capacity : ℕ) (k : K) (value : V) (xs : List ℕ)
      (v : IsValid dec inner xs) (memory : length inner.nodes ≤ max 1 capacity) where
    push_inner_present :
        (a : ℕ)
        → Assoc.get dec k inner.map ≡ some a
        → push_inner dec inner capacity k value
          ≡ (do mid ← unlink_node inner a; next ← update_value mid a value; push_back next a)
    unfolding push_inner
    push_inner_present a e = rw (e, push_inner)

    push_inner_absent :
        Assoc.get dec k inner.map ≡ none
        → push_inner dec inner capacity k value ≡ (do
          mid ← evict dec inner capacity
          (mid', i) ← place mid k value
          push_back (record mid' { map = Assoc.insert dec k i mid'.map }) i)
    unfolding push_inner
    push_inner_absent e = rw (e, push_inner)

    push_inner-present :
        (a : ℕ)
        → Assoc.get dec k inner.map ≡ some a
        → Outcome
            (push_inner dec inner capacity k value)
            (max 1 capacity)
            (fifo_push dec capacity k value (contents inner xs))
    push_inner-present a e =
        let (w, here) = node_of_map dec inner xs v k a e in
        let (mid, e', l, d) = unlink_node-Loose dec inner a xs v (has-map dec inner xs v k a e) in
        rw
          (
            push_inner_present a e,
            unlink_node-eq inner a,
            e',
            fifo_push_hit dec capacity k value (contents inner xs)
                (get-contents dec inner xs v k a e w here),
            ← contents-erase dec inner xs v k a e,
          )
          (update-push_back inner mid a k w value (max 1 capacity) (erase a xs) l d here memory)

    push_inner-absent :
        Assoc.get dec k inner.map ≡ none
        → Outcome
            (push_inner dec inner capacity k value)
            (max 1 capacity)
            (fifo_push dec capacity k value (contents inner xs))
    push_inner-absent e =
        let (mid, ys, e', r) =
          evict-Roomy dec inner capacity xs v (omega (arith, memory, v.pooled.filled)) in
        let (mid', i, e'', p) =
          place-Placed dec mid k value (max 1 capacity) ys r.valid (r.absent k e) r.room
            (omega (arith, memory, r.length_is)) in
        rw
          (
            push_inner_absent e,
            e',
            place-eq mid k value,
            e'',
            fifo_push_miss dec capacity k value (contents inner xs)
                (get-contents_absent dec inner xs v k e),
            ← r.holds,
          )
          (push_back-Placed mid (record mid' { map = Assoc.insert dec k i mid'.map }) i k value
            (max 1 capacity) ys p)

    pub push_inner-Holds :
        Outcome
          (push_inner dec inner capacity k value)
          (max 1 capacity)
          (fifo_push dec capacity k value (contents inner xs))
    push_inner-Holds = elim (Option-cases (Assoc.get dec k inner.map)) [
      | inl e ↦ push_inner-absent e
      | inr (a, e) ↦ push_inner-present a e
    ]
