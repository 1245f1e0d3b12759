-- ===== src/Report/FifoReads.antt =====
-- The reads of examples/report.rs on the sharded FIFO cache, where the hash leaves every shard room
-- for its keys.
use test_thread_safe_lru_cac.Base.{
  ℕ, zero, suc, ◌+◌, ◌%◌, ◌^◌, ◌≤◌, ◌<◌, min, ◌≡◌, refl, ap, ◌∙◌, true, some, List, Bool, is_some,
  length, arith, ℕ_discrete, suc_add,
}
use test_thread_safe_lru_cac.Sharded.Cache
use test_thread_safe_lru_cac.Sharded.Cache.{capacity_per_shard}
use test_thread_safe_lru_cac.Sharded.Cache.Shards.{empties}
use test_thread_safe_lru_cac.Sharded.Cache.Methods.{
  IsSpreadOf, push-IsSpreadOf, get-IsSpreadOf, find, Unique-list_of,
}
use test_thread_safe_lru_cac.Sharded.Cache.Runs.{build-IsSpreadOf}
use test_thread_safe_lru_cac.Sharded.Cache.Fresh.Roomy.{list_of-empties}
use test_thread_safe_lru_cac.Sharded.Eviction.Policies
use test_thread_safe_lru_cac.Sharded.Eviction.Policies.{fifo-IsPolicy}
use test_thread_safe_lru_cac.Report.{
  sharded_fifo, prefill, run_bench, key_space, capacity, default_shards,
}
use test_thread_safe_lru_cac.Report.Counts.{AllBelow, sum, sum_cong, reads_of, count, totals}
use test_thread_safe_lru_cac.Report.Rounds.{Answers, run_bench-Done, every_hit, same_le}
use test_thread_safe_lru_cac.Report.ShardLoad.{
  Fifo, load, load_room, policy, cap, AllFound, AllRoomy, replaced-IsFound, filled-AllFound,
}

module _ (hash_one : ℕ → ℕ) where
  Filled : ℕ → Fifo → Type 0
  Filled m c =
      (ls : List (List (ℕ × ℕ))) × IsSpreadOf policy hash_one cap default_shards c ls
      × AllFound hash_one m ls
      × AllRoomy hash_one m ls

  Full : Fifo → Type 0
  Full c =
      (ls : List (List (ℕ × ℕ))) × IsSpreadOf policy hash_one cap default_shards c ls
      × AllFound hash_one key_space ls

  prefill-Filled :
      (fits : (j : ℕ) → load hash_one j key_space ≤ cap) (rounds i : ℕ) (c : Fifo)
      → rounds + i ≡ key_space
      → Filled i c
      → (c' : Fifo) × (prefill (sharded_fifo hash_one) rounds i c ≡ some c') × Full c'
  unfolding prefill Filled Full
  prefill-Filled fits zero i c h (ls, r, f, a) = (c, refl, (ls, r, λ k lt. f k (omega arith)))
  prefill-Filled fits (suc rounds) i c h (ls, r, f, a) =
      let (c1, ran, r1) = push-IsSpreadOf policy hash_one r i i in
      let room =
        load_room hash_one i rounds key_space cap (shifted rounds i h)
          (fits (hash_one i % default_shards)) in
      let (f1, a1) = filled-AllFound hash_one r i room f a in
      let (c2, rest, full) =
        prefill-Filled fits rounds (suc i) c1 (shifted rounds i h) (_, r1, f1, a1) in
      (c2, rw (suc_add i, ran, rest) refl, full)
    where
      shifted : (rounds i : ℕ) → suc rounds + i ≡ key_space → rounds + suc i ≡ key_space
      shifted rounds i h = omega arith

  push-Full :
      (c : Fifo) (k : ℕ)
      → k < key_space
      → Full c
      → (c' : Fifo) × ((sharded_fifo hash_one).do_push c k k ≡ some c') × Full c'
  unfolding Full
  push-Full c k h (ls, r, f) =
      let (c1, ran, r1) = push-IsSpreadOf policy hash_one r k k in
      (
        c1,
        ran,
        (
          _,
          r1,
          λ j lt.
              replaced-IsFound hash_one r k j _
                (ap is_some (policy.get-push_list cap k k _ (Unique-list_of policy hash_one r k)))
                (λ ne. policy.present-push_list cap k j k _ ne (f k h)) (λ ne. f j lt),
        ),
      )

  get-Full :
      (c : Fifo) (k : ℕ)
      → k < key_space
      → Full c
      → (c' : Fifo) × (hit : Bool) × ((sharded_fifo hash_one).do_get c k ≡ some (c', hit))
        × Full c'
        × (hit ≡ true)
  unfolding Full
  get-Full c k h (ls, r, f) =
      let (c1, ran, r1) = get-IsSpreadOf policy hash_one r k in
      (
        c1,
        is_some (find policy hash_one default_shards ls k),
        rw ran refl,
        (
          _,
          r1,
          λ j lt.
              replaced-IsFound hash_one r k j _ (ap is_some (policy.get-get_list k k _) ∙ f k h)
                (λ ne. policy.get-get_list k j _) (λ ne. f j lt),
        ),
        f k h,
      )

  abbrev fifo-Answers : Answers (sharded_fifo hash_one)
  fifo-Answers = record {
    Sound = Full;
    Allowed = λ hit. hit ≡ true;
    Counts = λ h r. h ≡ r;
    pushed = push-Full;
    got = get-Full;
    no_counts = refl;
    next_counts = λ h r hit ok e. every_hit h r hit ok e;
    counts_le = λ h r e. same_le h r e;
  }

  -- If the hash puts no more of the 5000 keys on any of the four shards than the shard has room
  -- for, then every run of the benchmark on a new sharded FIFO cache, of any number of threads with
  -- any order of fewer than 2 ^ 64 rounds, ends without a panic, counts all rounds, and counts a
  -- hit for every read of every thread.
  pub fifo_read_hits :
      ((j : ℕ) → load hash_one j key_space ≤ capacity_per_shard capacity default_shards)
      → (num_threads : ℕ) (rounds : List ℕ) → length rounds < 2 ^ 64
      → AllBelow num_threads rounds
      → (c : Fifo) × (Cache.build (Policies.fifo ℕ_discrete) capacity default_shards ≡ some c)
        × (run_bench (sharded_fifo hash_one) num_threads rounds c
            ≡ some (totals (length rounds) (sum num_threads (λ t. reads_of (count t rounds)))))
  unfolding Filled
  fifo_read_hits fits num_threads rounds h below =
      let (c, built, r) = build-IsSpreadOf policy hash_one capacity default_shards (omega arith) in
      let none_yet : AllRoomy hash_one 0 (empties default_shards) =
        λ k. rw (list_of-empties policy hash_one default_shards k) (omega arith) in
      let (c1, ran_fill, full) =
        prefill-Filled fits (min key_space capacity) 0 c (omega arith)
          (_, r, λ k lt. absurd (omega arith), none_yet) in
      let (hits, ran, counts) =
        run_bench-Done fifo-Answers num_threads rounds c c1 h below ran_fill full in
      (
        c,
        built,
        ran ∙ ap (λ x. some (totals (length rounds) x)) (sum_cong num_threads hits _ counts),
      )
