-- ===== src/Report/Rounds.antt =====
-- The rounds of examples/report.rs on a cache that answers every call: the counters that they leave.
use test_thread_safe_lru_cac.Base.{
  ℕ, suc, ◌+◌, ◌^◌, ◌≤◌, ◌<◌, min, ◌≡◌, refl, ap, ap₂, sym, ◌∙◌, Bool, true, false, some, List, [],
  ◌∷◌, ◌==◌, if◌then◌else◌, length, arith, Bool-cases, inl, inr, zero_add,
}
use test_thread_safe_lru_cac.Report.{
  CacheBench, Worker, no_rounds, wrap, key_at, is_write, counted, set_worker, round, run, fetch_add,
  run_bench, prefill, key_space, capacity,
}
use test_thread_safe_lru_cac.Report.Counts.{
  reads_of, count, sum, AllBelow, sum_cong, sum_le, sum-count, fetch_add-sum, totals, key_at_lt,
  reads_of-write, reads_of-read, reads_of_le, wrap_next,
}

-- Where every read hits.
pub every_hit : (h r : ℕ) (hit : Bool) → hit ≡ true → h ≡ r → (if hit then suc h else h) ≡ suc r
every_hit h r hit ok e = ground arith

pub same_le : (h r : ℕ) → h ≡ r → h ≤ r
same_le h r e = omega arith

-- A cache that answers every call of the load, and how its hits count against the reads.
pub record Answers (b : CacheBench) : Type 1 where
  pub Sound : b.State → Type 0
  pub Allowed : Bool → Type 0
  pub Counts : ℕ → ℕ → Type 0
  pub pushed :
      (c : b.State) (key : ℕ)
      → key < key_space
      → Sound c
      → (c' : b.State) × (b.do_push c key key ≡ some c') × Sound c'
  pub got :
      (c : b.State) (key : ℕ)
      → key < key_space
      → Sound c
      → (c' : b.State) × (hit : Bool) × (b.do_get c key ≡ some (c', hit)) × Sound c' × Allowed hit
  pub no_counts : Counts 0 0
  pub next_counts :
      (h r : ℕ) (hit : Bool) → Allowed hit → Counts h r → Counts (if hit then suc h else h) (suc r)
  pub counts_le : (h r : ℕ) → Counts h r → h ≤ r

module _ {b : CacheBench} (a : Answers b) where
  -- A worker after `n` rounds.
  pub record Done (n : ℕ) (w : Worker) : Type 0 where
    pub ops_is : w.ops ≡ n
    pub i_is : w.i ≡ n
    pub counts : a.Counts w.hits (reads_of n)

  counted-Done :
      (n : ℕ) (w : Worker) (hits : ℕ)
      → suc n < 2 ^ 64
      → Done n w
      → a.Counts hits (reads_of (suc n))
      → Done (suc n) (counted w hits)
  counted-Done n w hits h d c = record {
    ops_is = ap (λ m. wrap (m + 1)) d.ops_is ∙ wrap_next n h;
    i_is = ap (λ m. wrap (m + 1)) d.i_is ∙ wrap_next n h;
    counts = c;
  }

  hits_next :
      (n : ℕ) (w : Worker) (hit : Bool)
      → suc n < 2 ^ 64
      → Done n w
      → (if hit then wrap (w.hits + 1) else w.hits) ≡ (if hit then suc w.hits else w.hits)
  hits_next n w true h d = omega (arith, a.counts_le w.hits (reads_of n) d.counts, reads_of_le n)
  hits_next n w false h d = refl

  round-Done :
      (t n : ℕ) (c : b.State) (w : Worker)
      → suc n < 2 ^ 64
      → a.Sound c
      → Done n w
      → (c' : b.State) × (w' : Worker) × (round b t c w ≡ some (c', w'))
        × a.Sound c'
        × Done (suc n) w'
  unfolding round
  round-Done t n c w h s d = elim (Bool-cases (is_write w.i)) [
    | inl e ↦
        let (c', ran, s') = a.pushed c (key_at t w.i) (key_at_lt t w.i) s in
        let same = reads_of-write n (ap is_write (sym d.i_is) ∙ e) in
        (c', counted w w.hits, rw (e, ran) refl, s', counted-Done n w w.hits h d (rw same d.counts))
    | inr e ↦
        let (c', hit, ran, s', ok) = a.got c (key_at t w.i) (key_at_lt t w.i) s in
        let next = reads_of-read n (ap is_write (sym d.i_is) ∙ e) in
        (
          c',
          counted w (if hit then wrap (w.hits + 1) else w.hits),
          rw (e, ran) refl,
          s',
          counted-Done n w _ h d (
              rw (next, hits_next n w hit h d) (a.next_counts w.hits (reads_of n) hit ok d.counts)),
        )
  ]

  Done-cong : {n m : ℕ} {w : Worker} → n ≡ m → Done n w → Done m w
  Done-cong e d = record { ops_is = d.ops_is ∙ e; i_is = d.i_is ∙ e; counts = rw (← e) d.counts }

  set_worker-Done :
      (before : ℕ → ℕ) (ws : ℕ → Worker) (t : ℕ) (w : Worker)
      → ((u : ℕ) → Done (before u) (ws u))
      → Done (suc (before t)) w
      → (u : ℕ) → Done (if u == t then suc (before u) else before u) (set_worker ws t w u)
  set_worker-Done before ws t w ds d u = elim (Bool-cases (u == t)) [
    | inl e ↦ rw e (Done-cong (ap (λ x. suc (before x)) (ground arith)) d)
    | inr e ↦ rw e (ds u)
  ]

  -- The rounds of all threads are answered, and each thread counts its own.
  run-Done :
      (rounds : List ℕ) (before : ℕ → ℕ) (c : b.State) (ws : ℕ → Worker)
      → ((u : ℕ) → before u + length rounds < 2 ^ 64)
      → a.Sound c
      → ((u : ℕ) → Done (before u) (ws u))
      → (c' : b.State) × (ws' : ℕ → Worker) × (run b rounds c ws ≡ some (c', ws'))
        × ((u : ℕ) → Done (before u + count u rounds) (ws' u))
  unfolding run
  run-Done [] before c ws h s ds = (c, ws, refl, λ u. Done-cong (omega arith) (ds u))
  run-Done (t ∷ rounds) before c ws h s ds =
      let (c1, w, ran, s1, d) = round-Done t (before t) c (ws t) (omega (arith, h t)) s (ds t) in
      let (c2, ws2, rest, ds2) =
        run-Done rounds (λ u. if u == t then suc (before u) else before u) c1 (set_worker ws t w)
          (λ u. ground (arith, h u)) s1 (set_worker-Done before ws t w ds d) in
      (c2, ws2, rw (ran, rest) refl, λ u. Done-cong (ground arith) (ds2 u))

  -- From a filled cache, the benchmark ends with the number of rounds and with the hits of each
  -- thread.
  pub run_bench-Done :
      (n : ℕ) (rounds : List ℕ) (c c1 : b.State)
      → length rounds < 2 ^ 64
      → AllBelow n rounds
      → prefill b (min key_space capacity) 0 c ≡ some c1
      → a.Sound c1
      → (hits : ℕ → ℕ) × (run_bench b n rounds c ≡ some (totals (length rounds) (sum n hits)))
        × ((t : ℕ) → a.Counts (hits t) (reads_of (count t rounds)))
  unfolding run_bench
  run_bench-Done n rounds c c1 h below filled s =
      let (c2, ws, ran, ds) =
        run-Done rounds (λ u. 0) c1 (λ u. no_rounds) (λ u. omega arith) s
          (λ u. record { ops_is = refl; i_is = refl; counts = a.no_counts }) in
      (
        λ t. (ws t).hits,
        rw (filled, ran) (both ws ds),
        λ t. (Done-cong (zero_add (count t rounds)) (ds t)).counts,
      )
    where
      ops_total :
          (ws : ℕ → Worker)
          → ((u : ℕ) → Done (0 + count u rounds) (ws u))
          → sum n (λ t. (ws t).ops) ≡ length rounds
      ops_total ws ds =
          sum_cong n (λ t. (ws t).ops) (λ t. count t rounds) (λ t. omega (arith, (ds t).ops_is))
          ∙ sum-count n rounds below

      hits_total :
          (ws : ℕ → Worker)
          → ((u : ℕ) → Done (0 + count u rounds) (ws u))
          → sum n (λ t. (ws t).hits) ≤ length rounds
      hits_total ws ds = omega (
        arith,
        sum_le n (λ t. (ws t).hits) (λ t. count t rounds)
            (λ t. omega (
              arith,
              a.counts_le (ws t).hits (reads_of (0 + count t rounds)) (ds t).counts,
              reads_of_le (0 + count t rounds),
            )),
        sum-count n rounds below,
      )

      both :
          (ws : ℕ → Worker)
          → ((u : ℕ) → Done (0 + count u rounds) (ws u))
          → some (totals (fetch_add n (λ t. (ws t).ops)) (fetch_add n (λ t. (ws t).hits)))
            ≡ some (totals (length rounds) (sum n (λ t. (ws t).hits)))
      both ws ds =
          ap₂ (λ x y. some (totals x y))
            (fetch_add-sum n (λ t. (ws t).ops) (omega (arith, ops_total ws ds)) ∙ ops_total ws ds)
            (fetch_add-sum n (λ t. (ws t).hits) (omega (arith, hits_total ws ds)))
