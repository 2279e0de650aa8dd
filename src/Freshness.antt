-- ===== src/Freshness.antt =====
-- Dates of the API in the client: frontend/src/lib/datetime.ts, and the clock of
-- frontend/src/features/monitors/useMonitorFreshness.ts. A date is its milliseconds since the
-- epoch, or `none` where it is invalid; `Date.parse` is the platform's. `formatDateTime` calls
-- `Intl`.
pub mod Stale
mod Tests
use sentinel_project.Base.{
  Bool, List, Option, String, [], false, if◌then◌else◌, leb, ltb, max, min, nat_eq, none, some,
  string_eq, ℕ, ◌&&◌, ◌*◌, ◌+◌, ◌-◌, ◌/◌, ◌==◌, ◌||◌, ◌∷◌,
}
use sentinel_project.Base.Number.{show}
use sentinel_project.Base.Text.{Platform, codes, ◌⋯◌}
use sentinel_project.StatusView.{minutes}

abbrev is_digit : ℕ → Bool
is_digit c = leb 48 c && leb c 57

abbrev is_sign : ℕ → Bool
is_sign c = c == b'+' || c == b'-'

-- `[zZ]` or `[+-]\d{2}:?\d{2}`, as all that is left of the text.
unfoldable pub is_designator : List ℕ → Bool
is_designator (c ∷ []) = c == b'z' || c == b'Z'
is_designator (s ∷ a ∷ b ∷ c ∷ d ∷ []) =
    is_sign s && (is_digit a && (is_digit b && (is_digit c && is_digit d)))
is_designator (s ∷ a ∷ b ∷ m ∷ c ∷ d ∷ []) =
    is_sign s && (m == b':' && (is_digit a && (is_digit b && (is_digit c && is_digit d))))
is_designator _ = false

-- `TZ_DESIGNATOR.test(value)`.
unfoldable pub has_designator : List ℕ → Bool
unfolding is_designator
has_designator [] = false
has_designator (c ∷ cs) = is_designator (c ∷ cs) || has_designator cs

unfoldable pub parse_api_date : Platform → String → Option ℕ
unfolding has_designator
parse_api_date p s = p.parse_date (if has_designator (codes s) then s else s ⋯ "Z")

abbrev minutes_ago : ℕ → String
minutes_ago minutes =
    if ltb minutes 60 then show minutes ⋯ "m ago" else show (minutes / 60) ⋯ "h ago"

-- `Math.max(0, …)` is the subtraction of natural numbers.
unfoldable pub format_relative : Option ℕ → ℕ → String
unfolding show
format_relative none now = "NaNh ago"
format_relative (some date) now =
    let seconds = (now - date) / 1000 in
    if ltb seconds 60 then show seconds ⋯ "s ago" else minutes_ago (seconds / 60)

-- `ageSeconds > thresholdSeconds`, in milliseconds.
abbrev pub older : Option ℕ → ℕ → ℕ → Bool
older none threshold now = false
older (some checked) threshold now = ltb (threshold * 1000) (now - checked)

unfoldable pub is_engine_stale : Platform → Option String → ℕ → ℕ → Bool
unfolding parse_api_date
is_engine_stale p none frequency now = false
is_engine_stale p (some s) frequency now = older (parse_api_date p s) (max frequency 30 * 2) now

abbrev pub max_clock_update_ms : ℕ
max_clock_update_ms = 30000

-- `remaining` is above 0 where the subtraction does not stop at 0.
abbrev pub clock_delay : Option ℕ → ℕ → Bool → ℕ → ℕ
clock_delay none frequency enabled now = max_clock_update_ms
clock_delay (some checked) frequency enabled now =
    let remaining = checked + max frequency 30 * 2000 + 1 - now in
    if enabled && ltb 0 remaining then min max_clock_update_ms remaining else max_clock_update_ms

abbrev pub checked_time : Platform → Option String → Option ℕ
checked_time p none = none
checked_time p (some s) = parse_api_date p s

-- After how long the effect, which runs at the time `now`, has the clock read again.
unfoldable pub freshness_delay : Platform → Option String → ℕ → Bool → ℕ → ℕ
freshness_delay p last_checked_at frequency enabled now =
    clock_delay (checked_time p last_checked_at) frequency enabled now

-- What the hook shows where the state `clock` is its time, which the effect does not read: when the
-- effect runs again because its other arguments have changed, `clock` may be long past.
unfoldable pub is_shown_stale : Platform → Option String → ℕ → Bool → ℕ → Bool
unfolding is_engine_stale
is_shown_stale p last_checked_at frequency enabled clock =
    enabled && is_engine_stale p last_checked_at frequency clock
