-- ===== src/Sharded/Lru/Threads/Progress.antt =====
-- The threads of src/sharded/eviction/lru.rs do not block one another: the locks are taken in one
-- order, `inner` before `recent_nodes_idx`, and no call panics while it holds a guard.
use test_thread_safe_lru_cac.Base.{
  ℕ, zero, suc, ◌+◌, ◌≤◌, ◌<◌, ◌≡◌, ◌⊎◌, inl, inr, Option, some, List, get_elem?, set, arith,
}
use test_thread_safe_lru_cac.Sharded.Lru.{Lru}
use test_thread_safe_lru_cac.Sharded.Lru.Concurrent.{Event}
use test_thread_safe_lru_cac.Sharded.Lru.Threads.{
  Pc, Move, System, guards, reads, writes, mutexes, turn, Step, Reach, later, reads_next,
  writes_next,
}
use test_thread_safe_lru_cac.Sharded.Lru.Threads.Counts.{count, count-set, find-count}
use test_thread_safe_lru_cac.Sharded.Lru.Threads.Invariant.{Inv}
use test_thread_safe_lru_cac.Sharded.Lru.Threads.Refine.{Reach-Inv}
use test_thread_safe_lru_cac.Sharded.Lru.Threads.Calls.{
  rank, holds, zero-cases, count-holds, mutexes-le-holds, holds-rank, Ready, can_move, rank-Move,
}

-- A move of a thread in a call, under the lock that parking_lot documents: a thread that wants to
-- read also waits while another wants to write.
pub data Advance {K V : Type 0} (dec : Discrete K) (s : System K V)
    : Option (Event K V) → System K V → Type 0 where
  advance :
      (i : ℕ) {p p' : Pc K V} {ev : Option (Event K V)} {c' : Lru K V}
      → get_elem? s.threads i ≡ some p
      → 0 < rank p
      → (0 < reads_next p → count writes_next s.threads ≡ 0)
      → Move dec (guards s.threads) s.cache p ev c' p'
      → Advance dec s ev (record { cache = c'; threads = set s.threads i p' })

-- So many of these moves, one after the other.
pub data Advances {K V : Type 0} (dec : Discrete K) : ℕ → System K V → System K V → Type 0 where
  stay : {s : System K V} → Advances dec 0 s s
  go :
      {m : ℕ} {s t u : System K V} {ev : Option (Event K V)}
      → Advance dec s ev t
      → Advances dec m t u
      → Advances dec (suc m) s u

starts_free : {K V : Type 0} (p : Pc K V) → 0 < holds p → reads_next p ≡ 0
starts_free p h = ground arith

writer_busy : {K V : Type 0} (p : Pc K V) → 0 < writes_next p → (0 < rank p) × (reads_next p ≡ 0)
writer_busy p h = (ground arith, ground arith)

module _ {K V : Type 0} (dec : Discrete K) (cap : ℕ) where
  -- A thread in a call and a move that it can make.
  pub record Mover (s : System K V) : Type 0 where
    pub index : ℕ
    pub p : Pc K V
    pub busy : 0 < rank p
    pub here : get_elem? s.threads index ≡ some p
    pub polite : 0 < reads_next p → count writes_next s.threads ≡ 0
    pub ready : Ready dec cap (guards s.threads) s.cache p

  -- Who holds the mutex, else who holds a guard, else who waits to write, else anyone in a call.
  pub find-Mover :
      (past : List (Event K V)) (s : System K V)
      → Inv dec cap past s
      → 0 < count rank s.threads
      → Mover s
  find-Mover past s inv busy = elim (zero-cases (count mutexes s.threads)) [
    | inr pos ↦
        let (j, q, e, h) = find-count mutexes s.threads pos in
        let held : 0 < holds q = omega (arith, mutexes-le-holds q) in
        at j q e (holds-rank q held) (inl h) (inl held)
          (λ w. absurd (omega (arith, starts_free q held)))
    | inl free ↦ elim (zero-cases (count holds s.threads)) [
      | inr pos ↦
          let (j, q, e, h) = find-count holds s.threads pos in
          at j q e (holds-rank q h) (inr free) (inl h)
            (λ w. absurd (omega (arith, starts_free q h)))
      | inl none_held ↦
          let none_reads : count reads s.threads ≡ 0 =
            omega (arith, none_held, count-holds s.threads) in
          let none_writes : count writes s.threads ≡ 0 =
            omega (arith, none_held, count-holds s.threads) in
          elim (zero-cases (count writes_next s.threads)) [
            | inr pos ↦
                let (j, q, e, h) = find-count writes_next s.threads pos in
                at j q e (writer_busy q h).0 (inr free) (inr (none_reads, none_writes))
                  (λ w. absurd (omega (arith, (writer_busy q h).1)))
            | inl no_writer ↦
                let (j, q, e, h) = find-count rank s.threads busy in
                at j q e h (inr free) (inr (none_reads, none_writes)) (λ w. no_writer)
          ]
    ]
  ]
    where
      at :
          (j : ℕ) (q : Pc K V)
          → get_elem? s.threads j ≡ some q
          → 0 < rank q
          → (0 < mutexes q) ⊎ (count mutexes s.threads ≡ 0)
          → (0 < holds q) ⊎ ((count reads s.threads ≡ 0) × (count writes s.threads ≡ 0))
          → (0 < reads_next q → count writes_next s.threads ≡ 0)
          → Mover s
      at j q e b m h w = record {
        index = j;
        p = q;
        busy = b;
        here = e;
        polite = w;
        ready = can_move dec cap (guards s.threads) s.cache _ q inv.stands (inv.fresh j q e) b m h;
      }

  pub Mover-Advance :
      {s : System K V} (m : Mover s)
      → Advance dec s m.ready.event
          (record { cache = m.ready.cache'; threads = set s.threads m.index m.ready.p' })
  Mover-Advance m = advance m.index m.here m.busy m.polite m.ready.move

  Advance-Step : {s t : System K V} {ev : Option (Event K V)} → Advance dec s ev t → Step dec s ev t
  Advance-Step (advance i here busy polite mv) = turn i here mv

  pub Advance-fewer :
      {s t : System K V} {ev : Option (Event K V)}
      → Advance dec s ev t
      → count rank t.threads < count rank s.threads
  Advance-fewer {s} (advance i {p} {p'} here busy polite mv) =
      omega (arith, count-set rank s.threads i p p' here, rank-Move dec cap mv busy)

  -- In every reachable state of the threads on one LRU shard in which some call has not returned,
  -- some thread in a call can make a move without a panic, which is no read lock while another
  -- thread wants to write, and fewer moves are left of the calls after it.
  pub no_deadlock :
      {n : ℕ} {past : List (Event K V)} {s : System K V}
      → Reach dec cap n past s
      → 0 < count rank s.threads
      → (ev : Option (Event K V)) × (t : System K V) × Advance dec s ev t
        × (count rank t.threads < count rank s.threads)
  no_deadlock {past = past} {s} reach busy =
      let m = find-Mover past s (Reach-Inv dec cap reach) busy in
      (m.ready.event, _, Mover-Advance m, Advance-fewer (Mover-Advance m))

  length-Advances :
      {m : ℕ} {s t : System K V}
      → Advances dec m s t
      → m + count rank t.threads ≤ count rank s.threads
  length-Advances stay = omega arith
  length-Advances (go a path) = omega (arith, Advance-fewer a, length-Advances path)

  find-Advances :
      (fuel : ℕ) {n : ℕ} {past : List (Event K V)} {s : System K V}
      → Reach dec cap n past s
      → count rank s.threads ≤ fuel
      → (m : ℕ) × (t : System K V) × Advances dec m s t × (count rank t.threads ≡ 0)
  find-Advances zero {s = s} reach h = (0, s, stay, omega arith)
  find-Advances (suc fuel) {s = s} reach h = elim (zero-cases (count rank s.threads)) [
    | inl quiet ↦ (0, s, stay, quiet)
    | inr busy ↦
        let (ev, t, a, less) = no_deadlock reach busy in
        let (m, u, path, quiet) = find-Advances fuel (later reach (Advance-Step a)) (omega arith) in
        (suc m, u, go a path, quiet)
  ]

  -- From every reachable state of the threads on one LRU shard, some moves of the calls, none of
  -- them a read lock while another thread wants to write, lead to a state in which every call has
  -- returned, and no sequence of such moves is longer than the sum of what the calls have left.
  pub drain :
      {n : ℕ} {past : List (Event K V)} {s : System K V}
      → Reach dec cap n past s
      → ((m : ℕ) × (t : System K V) × Advances dec m s t × (count rank t.threads ≡ 0))
        × ((m : ℕ) (t : System K V) → Advances dec m s t → m ≤ count rank s.threads)
  drain {s = s} reach = (
    find-Advances (count rank s.threads) reach (omega arith),
    λ m t path. omega (arith, length-Advances path),
  )
