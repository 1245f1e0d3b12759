-- ===== src/Report.antt =====
-- examples/report.rs: the load that the report generator puts on each cache, and the counters of its
-- hit rate. A round of a thread calls the cache once, and is one step here, since a call is one
-- critical section on the mutex cache and on the sharded FIFO cache; `get` of the sharded LRU cache
-- has two, and its runs are not modelled. Time decides how many rounds the threads do and in which order; here both are a list
-- with the number of the thread of every round. Arithmetic on `u64` wraps around, as in a release
-- build.
pub mod Clock
pub mod Counts
pub mod Rounds
pub mod ShardLoad
pub mod FifoReads
pub mod EveryRead
pub mod Html
use test_thread_safe_lru_cac.Base.{
  ℕ, zero, suc, ◌+◌, ◌*◌, ◌/◌, ◌%◌, ◌^◌, min, Bool, Option, none, some, List, [], ◌∷◌, ◌==◌, ltb,
  if◌then◌else◌, is_some, ◌>>=◌, ℕ_discrete,
}
use test_thread_safe_lru_cac.Basic.Safe
use test_thread_safe_lru_cac.Sharded.Cache
use test_thread_safe_lru_cac.Sharded.Eviction.Policies

abbrev pub capacity : ℕ
capacity = 10000

abbrev pub default_shards : ℕ
default_shards = 4

abbrev pub write_pct : ℕ
write_pct = 25

abbrev pub key_space : ℕ
key_space = 5000

-- The trait of the caches under test, without their names. `none` is a panic.
pub record CacheBench : Type 1 where
  pub State : Type 0
  pub do_push : State → ℕ → ℕ → Option State
  pub do_get : State → ℕ → Option (State × Bool)

-- The mutex cache; `alloc` is the address that the allocator gives the next box.
abbrev pub basic_lru : (Safe.ThreadSafeLru ℕ ℕ → ℕ) → CacheBench
basic_lru alloc = record {
  State = Safe.ThreadSafeLru ℕ ℕ;
  do_push = λ c key value. (do
    (c, _) ← Safe.answered (Safe.push ℕ_discrete (alloc c) c key value)
    some c);
  do_get =
      λ c key. (do (c, found) ← Safe.answered (Safe.get ℕ_discrete c key); some (c, is_some found));
}

-- The sharded FIFO cache.
abbrev pub sharded_fifo : (ℕ → ℕ) → CacheBench
sharded_fifo hash_one = record {
  State = Cache.Cache (Policies.fifo {V = ℕ} ℕ_discrete);
  do_push = λ c key value. Cache.push (Policies.fifo ℕ_discrete) hash_one c key value;
  do_get = λ c key. (do
    (c, found) ← Cache.get (Policies.fifo ℕ_discrete) hash_one c key
    some (c, is_some found));
}

-- The counters of one thread.
pub record Worker : Type 0 where
  pub ops : ℕ
  pub hits : ℕ
  pub i : ℕ

abbrev pub no_rounds : Worker
no_rounds = record { ops = 0; hits = 0; i = 0 }

-- A `u64`
abbrev pub wrap : ℕ → ℕ
wrap n = n % 2 ^ 64

-- The key of round `i` of thread `t`.
abbrev pub key_at : ℕ → ℕ → ℕ
key_at t i = wrap (wrap (t * 1000003) + i) % key_space

abbrev pub is_write : ℕ → Bool
is_write i = ltb (i % 100) write_pct

-- The end of a round.
abbrev pub counted : Worker → ℕ → Worker
counted w hits = record { ops = wrap (w.ops + 1); hits = hits; i = wrap (w.i + 1) }

abbrev pub set_worker : (ℕ → Worker) → ℕ → Worker → ℕ → Worker
set_worker ws t w u = if u == t then w else ws u

module _ (b : CacheBench) where
  -- The first loop, which fills the cache.
  unfoldable pub prefill : ℕ → ℕ → b.State → Option b.State
  prefill zero i cache = some cache
  prefill (suc rounds) i cache = do cache ← b.do_push cache i i; prefill rounds (i + 1) cache

  -- One round of the loop of thread `t`.
  unfoldable pub round : ℕ → b.State → Worker → Option (b.State × Worker)
  round t cache w =
      if is_write w.i
      then (do
        cache ← b.do_push cache (key_at t w.i) (key_at t w.i)
        some (cache, counted w w.hits))
      else (do
        (cache, hit) ← b.do_get cache (key_at t w.i)
        some (cache, counted w (if hit then wrap (w.hits + 1) else w.hits)))

  -- The rounds of all threads, in their order.
  unfoldable pub run : List ℕ → b.State → (ℕ → Worker) → Option (b.State × (ℕ → Worker))
  run [] cache ws = some (cache, ws)
  run (t ∷ rounds) cache ws = do
    (cache, w) ← round t cache (ws t)
    run rounds cache (set_worker ws t w)

-- The threads add their counters to a shared one.
abbrev pub fetch_add : ℕ → (ℕ → ℕ) → ℕ
fetch_add zero counter = 0
fetch_add (suc t) counter = wrap (fetch_add t counter + counter t)

-- The counters from which the report computes its rates.
pub record Totals : Type 0 where
  pub total_ops : ℕ
  pub total_hits : ℕ

unfoldable pub run_bench : (b : CacheBench) → ℕ → List ℕ → b.State → Option Totals
run_bench b num_threads rounds cache = do
  cache ← prefill b (min key_space capacity) 0 cache
  (cache, ws) ← run b rounds cache (λ t. no_rounds)
  some (record {
    total_ops = fetch_add num_threads (λ t. (ws t).ops);
    total_hits = fetch_add num_threads (λ t. (ws t).hits);
  })
