-- ===== src/Sharded/Lru/Threads/Refine.antt =====
-- Every execution of the threads, one lock operation at a time, is one of the specification.
use test_thread_safe_lru_cac.Base.{
  ℕ, zero, suc, ◌≤◌, ◌≡◌, ◌≢◌, refl, sym, ◌∙◌, inl, inr, Option, some, List, [], length, get_elem?,
  set, get_elem?-set, lt_of_get_elem?, arith, ℕ_discrete, same_result, ◌>>=◌, ◌<◌,
}
use test_thread_safe_lru_cac.Assoc
use test_thread_safe_lru_cac.Spec.{lru_push, lru_get_miss}
use test_thread_safe_lru_cac.Sharded.Lru.{
  Lru, new, promote_nodes, handle_recent_used, push_inner, push,
}
use test_thread_safe_lru_cac.Sharded.Lru.Refine.{
  Represents, new-Represents, handle_recent_used-Represents, lookup-Hit,
}
use test_thread_safe_lru_cac.Sharded.Lru.Methods.{
  buffered-Represents, push-Represents, remove-Represents, contains-Represents, len-Represents,
}
use test_thread_safe_lru_cac.Sharded.Lru.Concurrent.{Event, entries_after, IsExplained}
use test_thread_safe_lru_cac.Sharded.Lru.Threads.{
  Pc, Move, System, Guards, reads, writes, mutexes, shown, turn, Step, all_idle, Reach, start,
  later,
}
use test_thread_safe_lru_cac.Sharded.Lru.Threads.Counts.{count, le-count, add-le-count}
use test_thread_safe_lru_cac.Sharded.Lru.Threads.Invariant.{
  IsFresh, Excludes, Inv, Move-Takes, Takes-Excludes, Move-Keeps, IsFresh-other,
  get_lookup-Represents, Move-IsFresh,
}

reads-le : {K V : Type 0} (p : Pc K V) → reads p ≤ 1
reads-le p = ground arith

pub get_elem?-all_idle :
    {K V : Type 0} (n i : ℕ) (p : Pc K V) → get_elem? (all_idle n) i ≡ some p → p ≡ Pc.idle
get_elem?-all_idle zero i p e = absurd (ground arith)
get_elem?-all_idle (suc n) zero p e = ground arith
get_elem?-all_idle (suc n) (suc i) p e = get_elem?-all_idle n i p e

module _ {K V : Type 0} (dec : Discrete K) (cap : ℕ) where
  -- The rest of `push` after its flush is the whole `push`, where the buffer is empty.
  pub push_flushed :
      (c : Lru K V) (k : K) (v : V)
      → c.recent_nodes_idx ≡ []
      → push dec c k v
        ≡ (do inner ← push_inner dec c.inner c.capacity k v; some (record c { inner = inner }))
  unfolding push handle_recent_used promote_nodes
  push_flushed c k v e = rw e refl

  pub Move-Represents :
      {g : Guards} {c c' : Lru K V} {p p' : Pc K V} {ev : Option (Event K V)}
      (past : List (Event K V))
      → Move dec g c p ev c' p'
      → IsFresh dec cap c p
      → Represents dec cap c (entries_after dec cap past)
      → IsExplained dec cap past
      → Represents dec cap c' (entries_after dec cap (shown ev past))
        × IsExplained dec cap (shown ev past)
  Move-Represents past (Move.get_missed {k} e) f r x = elim (get_lookup-Represents dec cap r k) [
    | inl (ran, missed) ↦ (rw (lru_get_miss dec k _ missed) r, (sym missed, x))
    | inr found ↦ absurd (ground (arith, found.ran))
  ]
  Move-Represents past (Move.get_unlock {k} {i} {v}) f r x =
      let h = lookup-Hit dec cap r k i f.0 in
      (buffered-Represents dec cap r k i h, (ground (arith, h.found, h.entry, f.1), x))
  Move-Represents past (Move.flush_unlock e) f r x =
      same_result
        (λ z. Represents dec cap z (entries_after dec cap past) × IsExplained dec cap past)
        (let (c1, e1, r1, _) = handle_recent_used-Represents dec cap r in (c1, e1, (r1, x))) e
  Move-Represents past (Move.push_unlock e) f r x =
      same_result
        (λ z. Represents dec cap z (entries_after dec cap past) × IsExplained dec cap past)
        (let (c1, e1, r1, _) = handle_recent_used-Represents dec cap r in (c1, e1, (r1, x))) e
  Move-Represents {c = c} past (Move.push_write {k} {v} e) f r x =
      same_result
        (λ z.
          Represents dec cap z (lru_push dec cap k v (entries_after dec cap past))
          × IsExplained dec cap past)
        (let (c1, e1, r1) = push-Represents dec cap k v r in (c1, e1, (r1, x)))
        (push_flushed c k v f ∙ e)
  Move-Represents past (Move.remove_write {k} e) f r x =
      same_result
        (λ z.
          Represents dec cap z (Assoc.remove dec k (entries_after dec cap past))
          × IsExplained dec cap past)
        (let (c1, e1, r1) = remove-Represents dec cap k r in (c1, e1, (r1, x))) e
  Move-Represents past (Move.contains_read {k}) f r x = (r, (contains-Represents dec cap r k, x))
  Move-Represents past Move.len_read f r x = (r, ((len-Represents dec cap r).0, x))
  Move-Represents past Move.is_empty_read f r x = (r, ((len-Represents dec cap r).1, x))
  Move-Represents past _ f r x = (r, x)

  -- Two different threads never hold guards that exclude one another.
  pub others :
      (ps : List (Pc K V)) (i j : ℕ) (p q : Pc K V)
      → i ≢ j
      → get_elem? ps i ≡ some p
      → get_elem? ps j ≡ some q
      → Excludes dec cap ps
      → (writes p ≡ 1 → (reads q ≡ 0) × (writes q ≡ 0)) × (reads p ≡ 1 → writes q ≡ 0)
  others ps i j p q ne e f x = (
    λ w. ground (arith, add-le-count writes ps i j p q ne e f, le-count reads ps j q f, x.apart),
    λ r. ground (arith, le-count reads ps i p e, le-count writes ps j q f, x.apart),
  )

  -- Every move of a thread keeps the invariant.
  pub Step-Inv :
      {past : List (Event K V)} {s t : System K V} {ev : Option (Event K V)}
      → Step dec s ev t
      → Inv dec cap past s
      → Inv dec cap (shown ev past) t
  Step-Inv {past} {s} (turn i {p} {p'} {ev} {c'} e mv) inv =
      let (r, x) = Move-Represents past mv (inv.fresh i p e) inv.stands inv.explained in
      record {
        stands = r;
        explained = x;
        excludes = Takes-Excludes dec cap s.threads i p p' (Move-Takes dec cap mv) e inv.excludes;
        fresh = λ j q f. elim (ℕ_discrete i j) [
          | yes same ↦
              rw (at_mover j q same f) (Move-IsFresh dec cap mv inv.stands (inv.fresh i p e))
          | no ne ↦
              let f' = at_other j q ne f in
              let (w, r) = others s.threads i j p q ne e f' inv.excludes in
              IsFresh-other dec cap s.cache c' p q (Move-Keeps dec cap mv) w r (inv.fresh j q f')
        ];
      }
    where
      within : i < length s.threads
      within = lt_of_get_elem? s.threads i (ground arith)

      at_mover : (j : ℕ) (q : Pc K V) → i ≡ j → get_elem? (set s.threads i p') j ≡ some q → q ≡ p'
      at_mover j q same f = ground (arith, get_elem?-set s.threads i j p' within)

      at_other :
          (j : ℕ) (q : Pc K V)
          → i ≢ j
          → get_elem? (set s.threads i p') j ≡ some q
          → get_elem? s.threads j ≡ some q
      at_other j q ne f = ground (arith, get_elem?-set s.threads i j p' within)

  all_idle-Inv : (n : ℕ) → Inv {V = V} dec cap [] (record { cache = new cap; threads = all_idle n })
  all_idle-Inv n = record {
    stands = new-Represents dec cap;
    explained = tt;
    excludes = record {
      apart = inl (none_held writes refl n);
      single = omega (arith, none_held mutexes refl n);
    };
    fresh = λ i p e. rw (get_elem?-all_idle n i p e) tt;
  }
    where
      none_held : (w : Pc K V → ℕ) → w Pc.idle ≡ 0 → (n : ℕ) → count w (all_idle n) ≡ 0
      none_held w h zero = refl
      none_held w h (suc n) = omega (arith, h, none_held w h n)

  -- In every execution of any number of threads on one new LRU shard, one lock operation at a time,
  -- the locks exclude one another, the locals of every thread are still true of the shard when it
  -- uses them, every read and query returns what the LRU specification says after the events before
  -- it, and the shard stands for the entries they left.
  pub Reach-Inv :
      {n : ℕ} {past : List (Event K V)} {s : System K V}
      → Reach dec cap n past s
      → Inv dec cap past s
  Reach-Inv {n} start = all_idle-Inv n
  Reach-Inv (later reach step) = Step-Inv step (Reach-Inv reach)
