-- ===== src/StatusView/Tests.antt =====
-- Two monitors and the theorems at them.
use sentinel_project.Base.{
  String, [], false, if◌then◌else◌, map, nat_eq, none, refl, some, string_eq, ℕ, ◌==◌, ◌∷◌, ◌≡◌,
}
use sentinel_project.Base.Number.{int, lt_num, nan, num, ℤ}
use sentinel_project.Base.Text.{Platform}
use sentinel_project.PublicStatus.{uptime}
use sentinel_project.StatusView.{
  PublicStatusMonitor, StatusOptions, classify_status, summarize_status,
}
use sentinel_project.StatusView.Classified.{IsFresh, classify_status-IsFresh}
use sentinel_project.StatusView.Worst.{IsSummary, summarize_status-IsSummary}

abbrev platform : Platform
platform = record {
  parse_url = λ s. none;
  to_lower = λ s. s;
  to_number = λ s. nan;
  parse_date = λ s. if s == "t" then some 900 else none;
}

abbrev options : StatusOptions
options = record { now = 1000; stale_after_minutes = num 5; degraded_threshold_percent = num 99 }

abbrev seen : String → ℕ → PublicStatusMonitor
seen state uptime = record {
  name = "site";
  last_state = some state;
  uptime_percentage = some (num uptime);
  last_checked_at = some "t";
}

degraded_summary :
    summarize_status platform (seen "healthy" 100 ∷ seen "healthy" 98 ∷ []) options
    ≡ record { label = "Degraded"; all_operational = false }
unfolding summarize_status
degraded_summary = refl

classify_status-IsFresh_example :
    IsFresh platform options (seen "healthy" 100)
    × ((seen "healthy" 100).last_state ≡ some "healthy")
    × (z : ℤ) × ((seen "healthy" 100).uptime_percentage ≡ some (int z))
    × (lt_num (int z) options.degraded_threshold_percent ≡ false)
unfolding classify_status
classify_status-IsFresh_example = classify_status-IsFresh platform options (seen "healthy" 100) refl

summarize_status-IsSummary_example :
    IsSummary
      (map
        (λ m. classify_status platform m options)
        (seen "healthy" 100 ∷ seen "unhealthy" 98 ∷ []))
      (summarize_status platform (seen "healthy" 100 ∷ seen "unhealthy" 98 ∷ []) options)
summarize_status-IsSummary_example =
    summarize_status-IsSummary platform (seen "healthy" 100 ∷ seen "unhealthy" 98 ∷ []) options
