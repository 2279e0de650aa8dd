-- ===== src/Freshness/Tests.antt =====
-- A check at 12:00 UTC, and the theorem at it.
use sentinel_project.Base.{
  arith, false, if◌then◌else◌, nat_eq, none, refl, some, string_eq, true, ◌==◌, ◌≡◌,
}
use sentinel_project.Base.Number.{nan}
use sentinel_project.Base.Text.{Platform}
use sentinel_project.Freshness.{
  format_relative, freshness_delay, is_engine_stale, is_shown_stale, parse_api_date,
}
use sentinel_project.Freshness.Stale.{IsTimely, freshness_delay-IsTimely}

abbrev platform : Platform
platform = record {
  parse_url = λ s. none;
  to_lower = λ s. s;
  to_number = λ s. nan;
  parse_date = λ s. if s == "12:00Z" then some 1000 else none;
}

naive_is_utc : parse_api_date platform "12:00" ≡ some 1000
unfolding parse_api_date
naive_is_utc = refl

hours : format_relative (some 1000) 7201000 ≡ "2h ago"
unfolding format_relative
hours = refl

doubtful : is_engine_stale platform (some "12:00") 60 200000 ≡ true
unfolding is_engine_stale
doubtful = refl

-- The clock read at 100 seconds, the effect run again at 110.
freshness_delay-IsTimely_example :
    IsTimely
      (is_shown_stale platform (some "12:00") 60 true)
      (freshness_delay platform (some "12:00") 60 true 110000)
      100000
      110000
      120999
unfolding freshness_delay parse_api_date
freshness_delay-IsTimely_example =
    freshness_delay-IsTimely platform (some "12:00") 60 true 100000 110000 120999 (omega arith)
      (omega arith) (omega arith)

-- The effect run again at 130 seconds, after the expiry: fresh is shown for half a minute more.
shown_late :
    (is_shown_stale platform (some "12:00") 60 true 100000 ≡ false)
    × (is_shown_stale platform (some "12:00") 60 true 130000 ≡ true)
    × (freshness_delay platform (some "12:00") 60 true 130000 ≡ 30000)
unfolding is_shown_stale freshness_delay
shown_late = (refl, refl, refl)
