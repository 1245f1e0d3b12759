-- ===== src/Tests/Report.antt =====
-- Runs of the benchmark of examples/report.rs.
use test_thread_safe_lru_cac.Base.{
  ℕ, zero, suc, ◌++◌, ◌*◌, ◌+◌, ◌-◌, ◌≤◌, ◌≡◌, some, List, [], ◌∷◌, arith, ℕ_discrete, ◌%◌,
}
use test_thread_safe_lru_cac.Basic.Safe.{ThreadSafeLru, new}
use test_thread_safe_lru_cac.Tests.Allocator.{next_box, next_box_vacant}
use test_thread_safe_lru_cac.Sharded.Cache
use test_thread_safe_lru_cac.Sharded.Eviction.Policies
use test_thread_safe_lru_cac.Report.{
  basic_lru, sharded_fifo, key_space, run_bench, capacity, default_shards,
}
use test_thread_safe_lru_cac.Report.Counts.{totals}
use test_thread_safe_lru_cac.Report.ShardLoad.{Fifo, load}
use test_thread_safe_lru_cac.Report.FifoReads.{fifo_read_hits}
use test_thread_safe_lru_cac.Report.EveryRead.{every_read_hits}

-- 30 rounds of one thread and 26 of another: the first 25 of each are writes.
abbrev repeated : ℕ → ℕ → List ℕ
repeated zero t = []
repeated (suc n) t = t ∷ repeated n t

abbrev rounds : List ℕ
rounds = repeated 30 0 ++ repeated 26 1

every_read_hits_example :
    (c : ThreadSafeLru ℕ ℕ) × (new capacity ≡ some c)
    × (run_bench (basic_lru next_box) 2 rounds c ≡ some (totals 56 6))
every_read_hits_example =
    every_read_hits next_box (next_box_vacant capacity) 2 rounds (omega arith) (omega arith)

-- A hash that deals the keys out to the four shards.
abbrev hash_one : ℕ → ℕ
hash_one k = k

-- At most a quarter of the keys, rounded up.
dealt : (j n : ℕ) → 4 * load hash_one j n ≤ n + 3 - j % 4
dealt j zero = omega arith
dealt j (suc n) = ground (arith, dealt j n)

fifo_read_hits_example :
    (c : Fifo) × (Cache.build (Policies.fifo ℕ_discrete) capacity default_shards ≡ some c)
    × (run_bench (sharded_fifo hash_one) 2 rounds c ≡ some (totals 56 6))
fifo_read_hits_example =
    fifo_read_hits hash_one (λ j. omega (arith, dealt j key_space)) 2 rounds (omega arith)
      (omega arith)
