-- ===== src/Report/Format/Durations.antt =====
-- What `formatDuration` shows of a duration (dashboard-commons.js under
-- tools/jmeter/results/*-report/content/js).
use high_performance_e_comme.Common.{ℕ, ◌+◌, ◌*◌, ◌%◌, ◌<◌, ◌≡◌, ◌↔◌, arith}
use high_performance_e_comme.Report.Format.{DurationParts, duration_parts}

-- The duration that the shown numbers stand for.
abbrev pub shown : DurationParts → ℕ
shown p = p.days * 86400000 + p.hours * 3600000 + p.minutes * 60000 + p.seconds * 1000 + p.millis

-- The shown numbers stand for the duration exactly when its part beyond whole days is below 2.4
-- hours (8640000 ms); and the minutes, seconds and milliseconds are in range.
pub duration_parts-exact_iff :
    (d : ℕ)
    → ((shown (duration_parts d) ≡ d) ↔ (d % 86400000 < 8640000))
      × ((duration_parts d).minutes < 60)
      × ((duration_parts d).seconds < 60)
      × ((duration_parts d).millis < 1000)
unfolding duration_parts
duration_parts-exact_iff d =
    ((λ h. omega arith, λ h. omega arith), omega arith, omega arith, omega arith)
