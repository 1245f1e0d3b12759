-- ===== src/Report/Html/Tables.antt =====
-- The tables and charts of examples/report.rs show every run of main.
use test_thread_safe_lru_cac.Base.{
  ℕ, ◌≡◌, Option, some, List, [], ◌∷◌, String, ◌≤◌, ◌<◌, true, false,
}
use test_thread_safe_lru_cac.Report.Html.{
  Floats, Impl, basic_lru, sharded_lru, sharded_fifo, impl_name, thread_counts, BenchResult,
  Measured, result, all_results, throughput_class, Cell, rate, map_list, Svg, Class, good, ok, bad,
  max_val,
}
use test_thread_safe_lru_cac.Report.Html.Layout.{IsOrder, AllAtMost, AllLaidOut}

abbrev pub AllOf {ℓ} : {A : Type ℓ} → (A → Type 0) → List A → Type 0
AllOf P [] = Unit
AllOf P (x ∷ xs) = P x × AllOf P xs

abbrev pub all_impls : List Impl
all_impls = basic_lru ∷ sharded_lru ∷ sharded_fifo ∷ []

module _ {f : Floats} (measure : Impl → ℕ → Measured f) where
  abbrev pub run_of : Impl → ℕ → BenchResult f
  run_of i t = result f i t (measure i t)

  abbrev pub results : List (BenchResult f)
  results = all_results f measure thread_counts

  -- The row of one cache, with a number for every thread count.
  abbrev pub row_of : Impl → String × List (Cell f)
  row_of i = (
    impl_name i,
    map_list (λ t. rate (throughput_class f (run_of i t)) (measure i t).ops_per_sec) thread_counts,
  )

-- What the classes mean: below a microsecond, below ten, or more.
abbrev pub IsLatencyClass : ℕ → Class → Type 0
IsLatencyClass ns good = ns < 1000
IsLatencyClass ns ok = (1000 ≤ ns) × (ns < 10000)
IsLatencyClass ns bad = 10000 ≤ ns

-- Above 70 percent, above 40, or neither.
abbrev pub IsHitClass : (f : Floats) → f.Float → Class → Type 0
IsHitClass f pct good = f.above pct 70 ≡ true
IsHitClass f pct ok = (f.above pct 70 ≡ false) × (f.above pct 40 ≡ true)
IsHitClass f pct bad = (f.above pct 70 ≡ false) × (f.above pct 40 ≡ false)

-- The runs in the order of main: for every thread count, the three caches.
abbrev pub all_runs : List (Impl × ℕ)
all_runs =
    (basic_lru, 1)
    ∷ (sharded_lru, 1)
    ∷ (sharded_fifo, 1)
    ∷ (basic_lru, 2)
    ∷ (sharded_lru, 2)
    ∷ (sharded_fifo, 2)
    ∷ (basic_lru, 4)
    ∷ (sharded_lru, 4)
    ∷ (sharded_fifo, 4)
    ∷ (basic_lru, 8)
    ∷ (sharded_lru, 8)
    ∷ (sharded_fifo, 8)
    ∷ []

module _ {f : Floats} (measure : Impl → ℕ → Measured f)
    (IsClass : BenchResult f → Class → Type 0) where
  -- One row for each run, with its result and class.
  abbrev pub AllRows : List (BenchResult f × Class) → List (Impl × ℕ) → Type 0
  AllRows [] [] = Unit
  AllRows [] (x ∷ runs) = ⊥
  AllRows (row ∷ rows) [] = ⊥
  AllRows ((r, c) ∷ rows) ((i, t) ∷ runs) =
      (r ≡ run_of measure i t) × IsClass r c × AllRows rows runs

module _ {f : Floats} (o : IsOrder f) (measure : Impl → ℕ → Measured f) where
  abbrev pub values_of : (BenchResult f → f.Float) → ℕ → List (String × f.Float)
  values_of value t = map_list (λ i. (impl_name i, value (run_of measure i t))) all_impls

  -- The picture of the values of the three caches at one thread count.
  abbrev pub IsChartOf : (BenchResult f → f.Float) → ℕ → Option (Option (Svg f)) → Type 0
  IsChartOf value t picture =
      (svg : Svg f) × (picture ≡ some (some svg))
      × AllAtMost o (max_val f (values_of value t)) (values_of value t)
      × AllLaidOut o (max_val f (values_of value t)) 0 svg.width svg.height svg.x_label_y svg.bars
          (values_of value t)
