-- ===== src/Report/Counts.antt =====
-- The counters of examples/report.rs: the reads among the rounds, and their sums.
use test_thread_safe_lru_cac.Base.{
  ℕ, zero, suc, ◌+◌, ◌-◌, ◌*◌, ◌/◌, ◌%◌, ◌^◌, ◌≤◌, ◌<◌, ◌≡◌, refl, ap, ◌∙◌, true, false, List, [],
  ◌∷◌, ◌==◌, ltb, if◌then◌else◌, length, arith,
}
use test_thread_safe_lru_cac.Report.{wrap, key_at, is_write, fetch_add, Totals, key_space}

-- The reads among the first `n` rounds of a thread: all but the first 25 of each hundred.
abbrev pub reads_of : ℕ → ℕ
reads_of n = 75 * (n / 100) + (n % 100 - 25)

-- The rounds of one thread.
abbrev pub count : ℕ → List ℕ → ℕ
count t [] = 0
count t (u ∷ rounds) = (if t == u then 1 else 0) + count t rounds

abbrev pub sum : ℕ → (ℕ → ℕ) → ℕ
sum zero f = 0
sum (suc t) f = sum t f + f t

abbrev pub AllBelow : ℕ → List ℕ → Type 0
AllBelow n [] = Unit
AllBelow n (t ∷ rounds) = (t < n) × AllBelow n rounds

pub sum_cong : (n : ℕ) (f g : ℕ → ℕ) → ((t : ℕ) → f t ≡ g t) → sum n f ≡ sum n g
sum_cong zero f g h = refl
sum_cong (suc n) f g h = omega (arith, sum_cong n f g h, h n)

pub sum_le : (n : ℕ) (f g : ℕ → ℕ) → ((t : ℕ) → f t ≤ g t) → sum n f ≤ sum n g
sum_le zero f g h = omega arith
sum_le (suc n) f g h = omega (arith, sum_le n f g h, h n)

pub sum_add : (n : ℕ) (f g : ℕ → ℕ) → sum n (λ t. f t + g t) ≡ sum n f + sum n g
sum_add zero f g = refl
sum_add (suc n) f g = omega (arith, sum_add n f g)

pub sum_one : (n u : ℕ) → sum n (λ t. if t == u then 1 else 0) ≡ (if ltb u n then 1 else 0)
sum_one zero u = ground arith
sum_one (suc n) u = ground (arith, sum_one n u)

-- Every round is a round of one of the threads.
pub sum-count :
    (n : ℕ) (rounds : List ℕ) → AllBelow n rounds → sum n (λ t. count t rounds) ≡ length rounds
sum-count n [] below = nothing n
  where
    nothing : (m : ℕ) → sum m (λ t. 0) ≡ 0
    nothing zero = refl
    nothing (suc m) = omega (arith, nothing m)
sum-count n (u ∷ rounds) below =
    sum_add n (λ t. if t == u then 1 else 0) (λ t. count t rounds)
    ∙ ground (arith, sum_one n u, sum-count n rounds below.1, below.0)

-- Below 2 ^ 64 the shared counter does not wrap around.
pub fetch_add-sum : (n : ℕ) (f : ℕ → ℕ) → sum n f < 2 ^ 64 → fetch_add n f ≡ sum n f
fetch_add-sum zero f h = refl
fetch_add-sum (suc n) f h =
    ap (λ m. wrap (m + f n)) (fetch_add-sum n f (omega arith)) ∙ small (sum n f + f n) h
  where
    small : (m : ℕ) → m < 2 ^ 64 → wrap m ≡ m
    small m h = omega arith

abbrev pub totals : ℕ → ℕ → Totals
totals ops hits = record { total_ops = ops; total_hits = hits }

pub key_at_lt : (t i : ℕ) → key_at t i < key_space
key_at_lt t i = omega arith

pub reads_of-write : (n : ℕ) → is_write n ≡ true → reads_of (suc n) ≡ reads_of n
reads_of-write n h = ground arith

pub reads_of-read : (n : ℕ) → is_write n ≡ false → reads_of (suc n) ≡ suc (reads_of n)
reads_of-read n h = ground arith

pub reads_of_le : (n : ℕ) → reads_of n ≤ n
reads_of_le n = omega arith

pub wrap_next : (n : ℕ) → suc n < 2 ^ 64 → wrap (n + 1) ≡ suc n
wrap_next n h = omega arith
