-- ===== src/Sharded/Cache/Threads/Refine.antt =====
-- Every execution of the threads on the whole cache is one of the specification of each shard, and
-- a read finds what the events of its key's shard have left.
use test_thread_safe_lru_cac.Base.{
  ℕ, zero, suc, ◌%◌, ◌<◌, ◌≡◌, ◌≢◌, refl, sym, ap, ◌∙◌, ◌⊎◌, inl, inr, ==_refl, ==_ne, Option, none,
  some, List, [], length, length-set, get_elem?, set, get_elem?-set, lt_of_get_elem?, arith,
  ℕ_discrete,
}
use test_thread_safe_lru_cac.Sharded.Lru.{Lru, new}
use test_thread_safe_lru_cac.Sharded.Lru.Concurrent.{
  Event, event_read, event_push, event_remove, event_contains,
}
use test_thread_safe_lru_cac.Sharded.Lru.Threads
use test_thread_safe_lru_cac.Sharded.Lru.Threads.{Pc, Move, System, Guards, guards, all_idle}
use test_thread_safe_lru_cac.Sharded.Lru.Threads.Refine.{get_elem?-all_idle}
use test_thread_safe_lru_cac.Sharded.Cache.Threads.{
  key_of_call, Step, turn, new_shards, shown, Reach, start, later, events_of,
}

module _ {K V : Type 0} where
  -- The keys that a thread works on, and that an event is about.
  abbrev pub key_of_pc : Pc K V → Option K
  key_of_pc (Pc.get_start k) = some k
  key_of_pc (Pc.get_reading k) = some k
  key_of_pc (Pc.get_locking k i v) = some k
  key_of_pc (Pc.get_recording k i v) = some k
  key_of_pc (Pc.push_start k v) = some k
  key_of_pc (Pc.push_locking k v) = some k
  key_of_pc (Pc.push_flushing k v) = some k
  key_of_pc (Pc.push_writing k v) = some k
  key_of_pc (Pc.remove_start k) = some k
  key_of_pc (Pc.remove_writing k) = some k
  key_of_pc (Pc.contains_start k) = some k
  key_of_pc (Pc.contains_reading k) = some k
  key_of_pc _ = none

  abbrev pub key_of_event : Option (Event K V) → Option K
  key_of_event (some (event_read k o)) = some k
  key_of_event (some (event_push k v)) = some k
  key_of_event (some (event_remove k)) = some k
  key_of_event (some (event_contains k b)) = some k
  key_of_event _ = none

module _ {K V : Type 0} (dec : Discrete K) where
  -- A thread shows events of its own key, and gets a key when its call starts.
  pub key-event :
      {g : Guards} {c c' : Lru K V} {p p' : Pc K V} {ev : Option (Event K V)}
      → Move dec g c p ev c' p'
      → (k : K) → key_of_event ev ≡ some k
      → key_of_pc p ≡ some k
  key-event Move.get_unlock k e = e
  key-event (Move.push_write _) k e = e
  key-event _ k e = ground (arith, e)

  key-next :
      {g : Guards} {c c' : Lru K V} {p p' : Pc K V} {ev : Option (Event K V)}
      → (mv : Move dec g c p ev c' p') → (k : K) → key_of_pc p' ≡ some k
      → (key_of_call mv ≡ some k) ⊎ (key_of_pc p ≡ some k)
  key-next (Move.call_get _) k e = inl e
  key-next (Move.call_push _ _) k e = inl e
  key-next (Move.call_remove _) k e = inl e
  key-next (Move.call_contains _) k e = inl e
  key-next _ k e = inr (ground (arith, e))

module _ {K V : Type 0} (dec : Discrete K) (hash_one : K → ℕ) (cap threads n : ℕ) where
  -- What holds of shard `j`: it runs as a shard of its own, on keys whose hash names it.
  pub record OfShard (past : List (ℕ × Event K V)) (j : ℕ) (sys : System K V) : Type 0 where
    pub own : Threads.Reach dec cap threads (events_of j past) sys
    pub routed :
        (i : ℕ) (p : Pc K V)
        → get_elem? sys.threads i ≡ some p
        → (k : K) → key_of_pc p ≡ some k
        → hash_one k % n ≡ j

  pub record CacheInv (past : List (ℕ × Event K V)) (s : List (System K V)) : Type 0 where
    pub size : length s ≡ n
    pub shard : (j : ℕ) (sys : System K V) → get_elem? s j ≡ some sys → OfShard past j sys

  events-shown_other :
      (i j : ℕ) (ev : Option (Event K V)) (past : List (ℕ × Event K V))
      → i ≢ j
      → events_of j (shown i ev past) ≡ events_of j past
  events-shown_other i j none past ne = refl
  events-shown_other i j (some ev) past ne = ground (arith, ==_ne ne)

  events-shown_self :
      (j : ℕ) (ev : Option (Event K V)) (past : List (ℕ × Event K V))
      → events_of j (shown j ev past) ≡ Threads.shown ev (events_of j past)
  events-shown_self j none past = refl
  events-shown_self j (some ev) past = ground (arith, ==_refl j)

  new_shards-CacheInv : CacheInv [] (new_shards cap threads n)
  new_shards-CacheInv = record { size = length-new n; shard = λ j sys e. new_at n j sys e }
    where
      length-new : (m : ℕ) → length (new_shards {K = K} {V = V} cap threads m) ≡ m
      length-new zero = refl
      length-new (suc m) = ap suc (length-new m)

      is_new :
          (m j : ℕ) (sys : System K V)
          → get_elem? (new_shards cap threads m) j ≡ some sys
          → sys ≡ record { cache = new cap; threads = all_idle threads }
      is_new zero j sys e = absurd (ground arith)
      is_new (suc m) zero sys e = ground arith
      is_new (suc m) (suc j) sys e = is_new m j sys e

      new_at :
          (m j : ℕ) (sys : System K V)
          → get_elem? (new_shards cap threads m) j ≡ some sys
          → OfShard [] j sys
      new_at m j sys e = rw (is_new m j sys e) (record {
        own = Threads.start;
        routed = λ i p f k h. absurd (ground (arith, h, get_elem?-all_idle threads i p f));
      })

  Step-CacheInv :
      {past : List (ℕ × Event K V)} {s t : List (System K V)} {j : ℕ} {ev : Option (Event K V)}
      → Step dec hash_one s j ev t
      → CacheInv past s
      → CacheInv (shown j ev past) t
  Step-CacheInv {past} {s} (turn j i {sys} {p} {p'} {ev} {c'} at_j at_i mv route) inv = record {
    size = length-set s j _ ∙ inv.size;
    shard = λ m sys' e. elim (ℕ_discrete j m) [
      | yes same ↦ rw (← same, at_mover m sys' same e) moved
      | no ne ↦
          let f = inv.shard m sys' (at_other m sys' ne e) in
          record { own = rw (events-shown_other j m ev past ne) f.own; routed = f.routed }
    ];
  }
    where
      within : j < length s
      within = lt_of_get_elem? s j (ground arith)

      inside : i < length sys.threads
      inside = lt_of_get_elem? sys.threads i (ground arith)

      after : System K V
      after = record { cache = c'; threads = set sys.threads i p' }

      at_mover :
          (m : ℕ) (sys' : System K V)
          → j ≡ m
          → get_elem? (set s j after) m ≡ some sys'
          → sys' ≡ after
      at_mover m sys' same e = ground (arith, get_elem?-set s j m after within)

      at_other :
          (m : ℕ) (sys' : System K V)
          → j ≢ m
          → get_elem? (set s j after) m ≡ some sys'
          → get_elem? s m ≡ some sys'
      at_other m sys' ne e = ground (arith, get_elem?-set s j m after within)

      routed_after :
          (i' : ℕ) (q : Pc K V)
          → get_elem? (set sys.threads i p') i' ≡ some q
          → (k : K) → key_of_pc q ≡ some k
          → hash_one k % n ≡ j
      routed_after i' q e k h = elim (ℕ_discrete i i') [
        | yes same ↦ elim (key-next dec mv k (ap key_of_pc (sym (q_moved i' q same e)) ∙ h)) [
          | inl call ↦ rw (← inv.size) (route k call)
          | inr own ↦ (inv.shard j sys at_j).routed i p at_i k own
        ]
        | no ne ↦ (inv.shard j sys at_j).routed i' q (q_kept i' q ne e) k h
      ]
        where
          q_moved :
              (i' : ℕ) (q : Pc K V) → i ≡ i' → get_elem? (set sys.threads i p') i' ≡ some q → q ≡ p'
          q_moved i' q same e = ground (arith, get_elem?-set sys.threads i i' p' inside)

          q_kept :
              (i' : ℕ) (q : Pc K V)
              → i ≢ i'
              → get_elem? (set sys.threads i p') i' ≡ some q
              → get_elem? sys.threads i' ≡ some q
          q_kept i' q ne e = ground (arith, get_elem?-set sys.threads i i' p' inside)

      moved : OfShard (shown j ev past) j after
      moved = record {
        own =
            rw (events-shown_self j ev past)
              (Threads.later (inv.shard j sys at_j).own (Threads.turn i at_i mv));
        routed = routed_after;
      }

  pub Reach-CacheInv :
      {past : List (ℕ × Event K V)} {s : List (System K V)}
      → Reach dec hash_one cap threads n past s
      → CacheInv past s
  Reach-CacheInv start = new_shards-CacheInv
  Reach-CacheInv (later reach step) = Step-CacheInv step (Reach-CacheInv reach)
