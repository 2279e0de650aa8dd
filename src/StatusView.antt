-- ===== src/StatusView.antt =====
-- The status page's classification: frontend/src/features/status/status.ts. A percentage and its
-- threshold are counted in one unit that makes both whole; minutes are whole numbers.
pub mod Classified
pub mod Worst
mod Tests
use sentinel_project.Base.{
  Bool, List, Option, String, [], all, false, if◌then◌else◌, ltb, map, nat_eq, none, not, opt_eq,
  some, string_eq, true, ℕ, ◌&&◌, ◌*◌, ◌+◌, ◌-◌, ◌==◌, ◌||◌, ◌∷◌,
}
use sentinel_project.Base.Number.{Number, int, is_finite, le_num, lt_num, nan, negsuc, num, pos}
use sentinel_project.Base.Text.{Platform, trim}

pub record PublicStatusMonitor : Type 0 where
  pub name : String
  pub last_state : Option String
  pub uptime_percentage : Option Number
  pub last_checked_at : Option String

pub data StatusLabel : Type 0 where
  operational : StatusLabel
  degraded : StatusLabel
  down : StatusLabel
  no_data : StatusLabel

-- The options, with the defaults of the environment filled in.
pub record StatusOptions : Type 0 where
  pub now : ℕ
  pub stale_after_minutes : Number
  pub degraded_threshold_percent : Number

pub record StatusSummary : Type 0 where
  pub label : String
  pub all_operational : Bool

-- `value === undefined || value.trim() === "" ? Number.NaN : Number(value)`.
abbrev parse_setting : Platform → Option String → Number
parse_setting p none = nan
parse_setting p (some s) = if trim s == "" then nan else p.to_number s

unfoldable pub positive_setting : Platform → Option String → Number → Number → Number → Number
positive_setting p value fallback low high =
    let parsed = parse_setting p value in
    if is_finite parsed && (lt_num low parsed && le_num parsed high) then parsed else fallback

-- `staleAfterMinutes * 60_000`.
unfoldable pub minutes : Number → Number
minutes (int (pos n)) = num (n * 60000)
minutes (int (negsuc n)) = int (negsuc (n * 60000 + 59999))
minutes n = n

-- `Date.parse(monitor.last_checked_at)`; `none` is NaN.
abbrev pub checked_at : Platform → PublicStatusMonitor → Option ℕ
checked_at p m = elim m.last_checked_at [ none ↦ none | some s ↦ p.parse_date s ]

unfoldable pub by_uptime : Option Number → Number → StatusLabel
by_uptime none threshold = no_data
by_uptime (some u) threshold =
    if not (is_finite u) then no_data else if lt_num u threshold then degraded else operational

unfoldable pub is_stale : Option ℕ → StatusOptions → Bool
unfolding minutes
is_stale none o = true
is_stale (some t) o = ltb o.now t || lt_num (minutes o.stale_after_minutes) (num (o.now - t))

abbrev pub is_state : String → PublicStatusMonitor → Bool
is_state s m = opt_eq m.last_state (some s)

unfoldable pub classify_status : Platform → PublicStatusMonitor → StatusOptions → StatusLabel
unfolding is_stale by_uptime
classify_status p m o =
    let rated = by_uptime m.uptime_percentage o.degraded_threshold_percent in
    if is_stale (checked_at p m) o || (not (is_state "healthy" m) && not (is_state "unhealthy" m))
    then no_data
    else if is_state "unhealthy" m
    then down
    else rated

abbrev pub severity : StatusLabel → ℕ
severity operational = 0
severity no_data = 1
severity degraded = 2
severity down = 3

abbrev pub is_operational : StatusLabel → Bool
is_operational operational = true
is_operational _ = false

abbrev pub label_text : StatusLabel → String
label_text operational = "Operational"
label_text degraded = "Degraded"
label_text down = "Down"
label_text no_data = "No data"

abbrev pub worse : StatusLabel → StatusLabel → StatusLabel
worse worst label = if ltb (severity worst) (severity label) then label else worst

-- `labels.reduce(…)`: the first label is where it starts.
unfoldable pub worst_of : StatusLabel → List StatusLabel → StatusLabel
worst_of worst [] = worst
worst_of worst (l ∷ ls) = worst_of (worse worst l) ls

unfoldable pub summarize_labels : List StatusLabel → StatusSummary
unfolding worst_of
summarize_labels [] = record { label = "No data"; all_operational = false }
summarize_labels (l ∷ ls) =
    if all is_operational (l ∷ ls)
    then record { label = "All systems operational"; all_operational = true }
    else record { label = label_text (worst_of l ls); all_operational = false }

unfoldable pub summarize_status :
    Platform → List PublicStatusMonitor → StatusOptions → StatusSummary
unfolding classify_status summarize_labels
summarize_status p ms o = summarize_labels (map (λ m. classify_status p m o) ms)
