-- ===== src/Report/EveryRead.antt =====
-- The reads of examples/report.rs on the mutex cache, whose capacity is twice the number of keys.
use test_thread_safe_lru_cac.Base.{
  ℕ, zero, suc, ◌+◌, ◌^◌, ◌≤◌, ◌<◌, min, ◌≡◌, refl, ap, ◌∙◌, Bool, true, false, none, some, List,
  [], is_some, length, arith, Option-cases, inl, inr, ℕ_discrete, zero_add, suc_add, shift,
}
use test_thread_safe_lru_cac.Assoc
use test_thread_safe_lru_cac.Spec.{lru_push, lru_get, lru_push_hit, get-lru_get}
use test_thread_safe_lru_cac.Spec.Filled.{AllCached, CachedBelow, push-CachedBelow, nothing_cached}
use test_thread_safe_lru_cac.Basic.Lru.Methods.{new-IsCacheOf}
use test_thread_safe_lru_cac.Basic.Safe.{ThreadSafeLru, new, push, get}
use test_thread_safe_lru_cac.Basic.Safe.Concurrent.{
  IsGuardOf, push-IsGuardOf, answered-some, get-IsGuardOf,
}
use test_thread_safe_lru_cac.Report.{basic_lru, prefill, run_bench, key_space, capacity}
use test_thread_safe_lru_cac.Report.Counts.{AllBelow, sum, sum_cong, reads_of, count, totals}
use test_thread_safe_lru_cac.Report.Rounds.{every_hit, same_le, Answers, run_bench-Done}

push-AllCached :
    (cap n k v : ℕ) (l : List (ℕ × ℕ))
    → k < n
    → AllCached n l
    → AllCached n (lru_push ℕ_discrete cap k v l)
push-AllCached cap n k v l h all = elim (Option-cases (Assoc.get ℕ_discrete k l)) [
  | inl e ↦ absurd (ground (arith, all k h))
  | inr (w, e) ↦
      rw (lru_push_hit ℕ_discrete cap k v l e)
        (λ j lt. ground (arith, all j lt, Assoc.get-remove_ne ℕ_discrete k j l))
]

get-AllCached : (n k : ℕ) (l : List (ℕ × ℕ)) → AllCached n l → AllCached n (lru_get ℕ_discrete k l)
get-AllCached n k l all j lt = rw (get-lru_get ℕ_discrete k j l) (all j lt)

-- The allocator gives the next box an address that no live box has.
module _ (alloc : ThreadSafeLru ℕ ℕ → ℕ)
    (vacant : (c : ThreadSafeLru ℕ ℕ) (l : List (ℕ × ℕ))
      → IsGuardOf ℕ_discrete capacity c l
      → c.lru.dll.cells (alloc c) ≡ none) where
  push_guarded :
      (c : ThreadSafeLru ℕ ℕ) (l : List (ℕ × ℕ)) (k v : ℕ)
      → IsGuardOf ℕ_discrete capacity c l
      → (c' : ThreadSafeLru ℕ ℕ) × ((basic_lru alloc).do_push c k v ≡ some c')
        × IsGuardOf ℕ_discrete capacity c' (lru_push ℕ_discrete capacity k v l)
  push_guarded c l k v g =
      let (g', a) = push-IsGuardOf ℕ_discrete capacity (alloc c) k v (vacant c l g) g in
      (
        (push ℕ_discrete (alloc c) c k v).0,
        rw (answered-some (push ℕ_discrete (alloc c) c k v) a) refl,
        g',
      )

  get_guarded :
      (c : ThreadSafeLru ℕ ℕ) (l : List (ℕ × ℕ)) (k : ℕ)
      → IsGuardOf ℕ_discrete capacity c l
      → (c' : ThreadSafeLru ℕ ℕ) × ((basic_lru alloc).do_get c k
          ≡ some (c', is_some (Assoc.get ℕ_discrete k l)))
        × IsGuardOf ℕ_discrete capacity c' (lru_get ℕ_discrete k l)
  get_guarded c l k g =
      let (g', a) = get-IsGuardOf ℕ_discrete capacity k g in
      ((get ℕ_discrete c k).0, rw (answered-some (get ℕ_discrete c k) a) refl, g')

  Guarded : (List (ℕ × ℕ) → Type 0) → ThreadSafeLru ℕ ℕ → Type 0
  Guarded P c = (l : List (ℕ × ℕ)) × IsGuardOf ℕ_discrete capacity c l × P l

  push-Guarded :
      (c : ThreadSafeLru ℕ ℕ) (k : ℕ)
      → k < key_space
      → Guarded (AllCached key_space) c
      → (c' : ThreadSafeLru ℕ ℕ) × ((basic_lru alloc).do_push c k k ≡ some c')
        × Guarded (AllCached key_space) c'
  unfolding Guarded
  push-Guarded c k h (l, g, all) =
      let (c', ran, g') = push_guarded c l k k g in
      (c', ran, (_, g', push-AllCached capacity key_space k k l h all))

  get-Guarded :
      (c : ThreadSafeLru ℕ ℕ) (k : ℕ)
      → k < key_space
      → Guarded (AllCached key_space) c
      → (c' : ThreadSafeLru ℕ ℕ) × (hit : Bool) × ((basic_lru alloc).do_get c k ≡ some (c', hit))
        × Guarded (AllCached key_space) c'
        × (hit ≡ true)
  unfolding Guarded
  get-Guarded c k h (l, g, all) =
      let (c', ran, g') = get_guarded c l k g in
      (
        c',
        is_some (Assoc.get ℕ_discrete k l),
        ran,
        (_, g', get-AllCached key_space k l all),
        all k h,
      )

  abbrev basic-Answers : Answers (basic_lru alloc)
  basic-Answers = record {
    Sound = Guarded (AllCached key_space);
    Allowed = λ hit. hit ≡ true;
    Counts = λ h r. h ≡ r;
    pushed = push-Guarded;
    got = get-Guarded;
    no_counts = refl;
    next_counts = λ h r hit ok e. every_hit h r hit ok e;
    counts_le = λ h r e. same_le h r e;
  }

  prefill-Guarded :
      (rounds i : ℕ) (c : ThreadSafeLru ℕ ℕ)
      → rounds + i ≤ capacity
      → Guarded (CachedBelow i) c
      → (c' : ThreadSafeLru ℕ ℕ) × (prefill (basic_lru alloc) rounds i c ≡ some c')
        × Guarded (CachedBelow (rounds + i)) c'
  unfolding prefill Guarded
  prefill-Guarded zero i c h (l, g, r) = (c, refl, (l, g, rw (zero_add i) r))
  prefill-Guarded (suc rounds) i c h (l, g, r) =
      let (c1, ran, g1) = push_guarded c l i i g in
      let (c2, rest, s2) =
        prefill-Guarded rounds (i + 1) c1 (omega arith)
          (_, g1, rw (suc_add i) (push-CachedBelow capacity i i l (omega arith) r)) in
      (c2, rw (ran, rest) refl, rw (shift rounds i) s2)

  -- If the allocator gives each new box an address that no live box has, then every run of the
  -- benchmark on a new mutex cache, of any number of threads with any order of fewer than 2 ^ 64
  -- rounds, ends without a panic, counts all rounds, and counts a hit for every read of every
  -- thread.
  pub every_read_hits :
      (num_threads : ℕ) (rounds : List ℕ)
      → length rounds < 2 ^ 64
      → AllBelow num_threads rounds
      → (c : ThreadSafeLru ℕ ℕ) × (new capacity ≡ some c)
        × (run_bench (basic_lru alloc) num_threads rounds c
            ≡ some (totals (length rounds) (sum num_threads (λ t. reads_of (count t rounds)))))
  unfolding new Guarded
  every_read_hits num_threads rounds h below =
      let (lru, built, r) = new-IsCacheOf ℕ_discrete capacity (omega arith) in
      let c : ThreadSafeLru ℕ ℕ = record { lru = lru; poisoned = false } in
      let (c1, full, (l, g, all)) =
        prefill-Guarded (min key_space capacity) 0 c (omega arith)
          ([], record { inside = r; sound = refl }, nothing_cached) in
      let (hits, ran, counts) =
        run_bench-Done basic-Answers num_threads rounds c c1 h below full (l, g, all.cached) in
      (
        c,
        rw built refl,
        ran ∙ ap (λ x. some (totals (length rounds) x)) (sum_cong num_threads hits _ counts),
      )
