-- ===== src/Report/Clock.antt =====
-- The clock in the footer of examples/report.rs, from the seconds since 1970.
use test_thread_safe_lru_cac.Base.{ℕ, ◌+◌, ◌*◌, ◌/◌, ◌%◌, ◌<◌, ◌≡◌, arith}

-- Hours, minutes and seconds; each is written with two digits.
abbrev chrono_now : ℕ → ℕ × ℕ × ℕ
chrono_now secs = (secs / 3600 % 24, secs / 60 % 60, secs % 60)

-- The clock is the time of the day, in range.
chrono_now_lem :
    (secs : ℕ)
    → let (h, m, s) = chrono_now secs in
      (h < 24) × (m < 60) × (s < 60) × (h * 3600 + m * 60 + s ≡ secs % 86400)
chrono_now_lem secs = (omega arith, omega arith, omega arith, omega arith)
