-- ===== src/Report/Html.antt =====
-- examples/report.rs: from the measurements of main to the tables and charts of the report, without
-- the markup around them. Floating-point numbers are a type with the operations that the code uses.
pub mod Layout
pub mod Tables
use text.Mathlib.Text.{◌==◌ as str_eq}
use test_thread_safe_lru_cac.Base.{
  ℕ, suc, ◌+◌, ◌-◌, ◌*◌, ◌%◌, Bool, true, false, ◌&&◌, Option, none, some, List, [], ◌∷◌, ◌++◌,
  ◌==◌, ltb, if◌then◌else◌, length, get_elem?, ◌>>=◌, String,
}

-- `f64`: its maximum, `x > c` and `x >= c` for a whole number `c`, `n as f64`, and
-- `((v / m) * w as f64) as usize`.
pub record Floats : Type 1 where
  pub Float : Type 0
  pub from : ℕ → Float
  pub maximum : Float → Float → Float
  pub above : Float → ℕ → Bool
  pub at_least : Float → ℕ → Bool
  pub scaled : Float → Float → ℕ → ℕ

-- The caches under test and their names.
pub data Impl : Type 0 where
  basic_lru : Impl
  sharded_lru : Impl
  sharded_fifo : Impl

abbrev pub impl_name : Impl → String
impl_name basic_lru = "basic::ThreadSafeLru (global Mutex)"
impl_name sharded_lru = "sharded::Cache (LRU, 4 shards)"
impl_name sharded_fifo = "sharded::Cache (FIFO, 4 shards)"

abbrev pub thread_counts : List ℕ
thread_counts = 1 ∷ 2 ∷ 4 ∷ 8 ∷ []

-- The names that the throughput table looks for.
abbrev pub impls : List String
impls =
    "basic::ThreadSafeLru (global Mutex)" ∷ "sharded::Cache (LRU, 4 shards)"
    ∷ "sharded::Cache (FIFO, 4 shards)" ∷ []

-- The class of a table cell.
pub data Class : Type 0 where
  good : Class
  ok : Class
  bad : Class

abbrev pub colors : List String
colors = "#6366f1" ∷ "#22d3ee" ∷ "#f59e0b" ∷ "#34d399" ∷ "#f87171" ∷ "#a78bfa" ∷ []

abbrev pub map_list {ℓ κ} : {A : Type ℓ} {B : Type κ} → (A → B) → List A → List B
map_list f [] = []
map_list f (x ∷ xs) = f x ∷ map_list f xs

-- The color of bar `i`; an index out of range would panic.
abbrev pub color_of : String → ℕ → Option String
color_of color_base i =
    if str_eq color_base "" then get_elem? colors (i % length colors) else some color_base

module _ (f : Floats) where
  pub record BenchResult : Type 0 where
    pub impl_name : String
    pub threads : ℕ
    pub ops_per_sec : f.Float
    pub hit_rate_pct : f.Float
    pub p50_ns : ℕ
    pub p95_ns : ℕ
    pub p99_ns : ℕ
    pub p999_ns : ℕ

  -- What one run of the benchmark measures.
  pub record Measured : Type 0 where
    pub ops_per_sec : f.Float
    pub hit_rate_pct : f.Float
    pub p50_ns : ℕ
    pub p95_ns : ℕ
    pub p99_ns : ℕ
    pub p999_ns : ℕ

  -- The result of a run, with the name of its cache and its number of threads.
  abbrev pub result : Impl → ℕ → Measured → BenchResult
  result i num_threads m = record {
    impl_name = impl_name i;
    threads = num_threads;
    ops_per_sec = m.ops_per_sec;
    hit_rate_pct = m.hit_rate_pct;
    p50_ns = m.p50_ns;
    p95_ns = m.p95_ns;
    p99_ns = m.p99_ns;
    p999_ns = m.p999_ns;
  }

  -- The loop of main over the thread counts.
  abbrev pub all_results : (Impl → ℕ → Measured) → List ℕ → List BenchResult
  all_results measure [] = []
  all_results measure (t ∷ ts) =
      result basic_lru t (measure basic_lru t)
      ∷ result sharded_lru t (measure sharded_lru t)
      ∷ result sharded_fifo t (measure sharded_fifo t)
      ∷ all_results measure ts

  -- `results.iter().find(...)` of the throughput table.
  abbrev pub find : List BenchResult → String → ℕ → Option BenchResult
  find [] name t = none
  find (r ∷ rs) name t =
      let rest = find rs name t in
      if str_eq r.impl_name name && r.threads == t then some r else rest

  abbrev pub for_threads : List BenchResult → ℕ → List BenchResult
  for_threads [] t = []
  for_threads (r ∷ rs) t = let rest = for_threads rs t in if r.threads == t then r ∷ rest else rest

  abbrev pub throughput_class : BenchResult → Class
  throughput_class r =
      if f.above r.ops_per_sec 5000000
      then good
      else if f.above r.ops_per_sec 1000000
      then ok
      else bad

  abbrev pub latency_class : BenchResult → Class
  latency_class r = if ltb r.p99_ns 1000 then good else if ltb r.p99_ns 10000 then ok else bad

  abbrev pub hit_class : BenchResult → Class
  hit_class r =
      if f.above r.hit_rate_pct 70 then good else if f.above r.hit_rate_pct 40 then ok else bad

  -- A cell of the throughput table, a dash where there is no result.
  pub data Cell : Type 0 where
    dash : Cell
    rate : Class → f.Float → Cell

  abbrev pub cell : Option BenchResult → Cell
  cell none = dash
  cell (some r) = rate (throughput_class r) r.ops_per_sec

  abbrev pub throughput_table : List BenchResult → List (String × List Cell)
  throughput_table results =
      map_list (λ name. (name, map_list (λ t. cell (find results name t)) thread_counts)) impls

  abbrev pub latency_table : List BenchResult → List (BenchResult × Class)
  latency_table results = map_list (λ r. (r, latency_class r)) results

  abbrev pub hit_table : List BenchResult → List (BenchResult × Class)
  hit_table results = map_list (λ r. (r, hit_class r)) results

  -- A number beside a bar, in millions, thousands or ones.
  pub data Figure : Type 0 where
    millions : f.Float → Figure
    thousands : f.Float → Figure
    ones : f.Float → Figure

  abbrev pub val_str : f.Float → Figure
  val_str val =
      if f.at_least val 1000000
      then millions val
      else if f.at_least val 1000
      then thousands val
      else ones val

  -- A bar with its label and number; the label ends at x 274, and the bar starts at x 280.
  pub record Bar : Type 0 where
    pub label : String
    pub text_y : ℕ
    pub y : ℕ
    pub bar_px : ℕ
    pub color : String
    pub figure_x : ℕ
    pub figure : Figure

  pub record Svg : Type 0 where
    pub width : ℕ
    pub height : ℕ
    pub bars : List Bar
    pub x_label : String
    pub x_label_y : ℕ

  abbrev pub max_loop : f.Float → List (String × f.Float) → f.Float
  max_loop m [] = m
  max_loop m ((label, val) ∷ values) = max_loop (f.maximum m val) values

  abbrev pub max_val : List (String × f.Float) → f.Float
  max_val values = f.maximum (max_loop (f.from 0) values) (f.from 1)

  -- Bar `i`, where `m` is the largest value.
  abbrev pub bar : f.Float → ℕ → String → f.Float → String → Bar
  bar m i label val color = record {
    label = label;
    text_y = 20 + i * (28 + 8) + 28 - 8;
    y = 20 + i * (28 + 8);
    bar_px = f.scaled val m 380;
    color = color;
    figure_x = 280 + f.scaled val m 380 + 6;
    figure = val_str val;
  }

  unfoldable pub bars_loop : f.Float → String → ℕ → List (String × f.Float) → Option (List Bar)
  bars_loop m color_base i [] = some []
  bars_loop m color_base i ((label, val) ∷ values) = do
    color ← color_of color_base i
    bars ← bars_loop m color_base (i + 1) values
    some (bar m i label val color ∷ bars)

  -- The chart of some values, and an empty text for none.
  unfoldable pub svg_bars : List (String × f.Float) → String → String → Option (Option Svg)
  unfolding bars_loop
  svg_bars [] x_label color_base = some none
  svg_bars (v ∷ vs) x_label color_base = do
    bars ← bars_loop (max_val (v ∷ vs)) color_base 0 (v ∷ vs)
    some (
        some (record {
          width = 280 + 380 + 60;
          height = length (v ∷ vs) * (28 + 8) + 40;
          bars = bars;
          x_label = x_label;
          x_label_y = length (v ∷ vs) * (28 + 8) + 40 - 6;
        }))

  -- The charts of one thread count.
  unfoldable pub throughput_chart : List BenchResult → ℕ → Option (Option Svg)
  unfolding svg_bars
  throughput_chart results t =
      svg_bars (map_list (λ r. (r.impl_name, r.ops_per_sec)) (for_threads results t)) "ops/sec" ""

  unfoldable pub p99_chart : List BenchResult → ℕ → Option (Option Svg)
  unfolding svg_bars
  p99_chart results t =
      svg_bars (map_list (λ r. (r.impl_name, f.from r.p99_ns)) (for_threads results t))
        "p99 latency (ns)" "#f87171"
