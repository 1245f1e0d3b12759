-- ===== src/Tests/ReportHtml.antt =====
-- The report of examples/report.rs with whole numbers in place of floating-point ones.
use test_thread_safe_lru_cac.Base.{ℕ, ◌*◌, ◌/◌, max, leb, ltb}
use test_thread_safe_lru_cac.Report.Html.{Floats, Impl, Measured}

abbrev whole : Floats
whole = record {
  Float = ℕ;
  from = λ n. n;
  maximum = max;
  above = λ x c. ltb c x;
  at_least = λ x c. leb c x;
  scaled = λ v m w. v * w / m;
}

abbrev measure : Impl → ℕ → Measured whole
measure i t = record {
  ops_per_sec = 1000000 * t;
  hit_rate_pct = 75;
  p50_ns = 100;
  p95_ns = 400;
  p99_ns = 900 * t;
  p999_ns = 5000;
}
