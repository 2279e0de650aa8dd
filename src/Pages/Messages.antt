-- ===== src/Pages/Messages.antt =====
-- What the pages tell of errors, times and lists: the helpers of
-- frontend/src/features/monitors/MonitorsPage.tsx, frontend/src/features/status/StatusPage.tsx and
-- frontend/src/features/monitors/history/MonitorHistoryPage.tsx.
use sentinel_project.Base.{
  Bool, List, Option, String, all, false, filter, get_or, if◌then◌else◌, leb, length, ltb, max,
  nat_eq, none, not, opt_eq, some, string_eq, ℕ, ◌&&◌, ◌-◌, ◌/◌, ◌==◌, ◌||◌,
}
use sentinel_project.Base.Number.{Number, infinity, int, nan, neg_infinity, negsuc, pos, show}
use sentinel_project.Base.Text.{Platform, codes, is_blank_text, trim, ◌⋯◌}
use sentinel_project.Client.{ApiError}
use sentinel_project.Monitors.Dto.{MonitorResponse}
use sentinel_project.Pages.{has_status}

abbrev is_server_error : Option ApiError → Bool
is_server_error none = false
is_server_error (some e) = leb 500 e.status

-- `initialErrorMessage`.
unfoldable pub initial_error_message : Option ApiError → String
initial_error_message e =
    if has_status 429 e
    then "Too many requests. Please wait before refreshing your monitors."
    else if has_status 401 e
    then "Your session has expired. Sign in again to load your monitors."
    else if has_status 403 e || has_status 404 e
    then "Your monitors are not available. Try signing in again."
    else if is_server_error e
    then "The monitor service is temporarily unavailable. Try again in a moment."
    else "Unable to load monitors. Check your connection and try again."

abbrev wait_message : Option String → String
wait_message none = "Too many requests. Please wait a moment and try again."
wait_message (some s) =
    if is_blank_text s
    then "Too many requests. Please wait a moment and try again."
    else "Too many requests. Try again in " ⋯ s ⋯ " seconds."

-- `friendlyError`.
unfoldable pub friendly_error : Option ApiError → String
friendly_error none = "Unable to load service status. Check your connection and try again."
friendly_error (some e) =
    if e.status == 429
    then wait_message e.retry_after
    else "Unable to load service status. Check your connection and try again."

-- `terminalFailure`.
unfoldable pub terminal_failure : Option ApiError → Bool
terminal_failure e = has_status 401 e || has_status 403 e || has_status 404 e

-- `retryMessage`, for a `Retry-After` header in whole seconds or with a date; `show_time` is
-- `toLocaleTimeString`.
abbrev seconds_message : ℕ → String
seconds_message n =
    "Too many requests. Please wait " ⋯ show (max 1 n) ⋯ " seconds before trying again."

abbrev date_message : (ℕ → String) → Option ℕ → String
date_message show_time none = "Too many requests. Please wait before trying again."
date_message show_time (some t) =
    "Too many requests. Please wait until " ⋯ show_time t ⋯ " before trying again."

abbrev header_message : Platform → (ℕ → String) → String → String
header_message p show_time s = elim (p.to_number s) [
  | int z ↦ seconds_message (elim z [ pos n ↦ n | negsuc n ↦ 0 ])
  | nan ↦ date_message show_time (p.parse_date s)
  | infinity ↦ date_message show_time (p.parse_date s)
  | neg_infinity ↦ date_message show_time (p.parse_date s)
]

unfoldable pub retry_message : Platform → (ℕ → String) → Option ApiError → String
unfolding trim show
retry_message p show_time none = "This section is temporarily unavailable. Please try again."
retry_message p show_time (some e) =
    let header = trim (get_or e.retry_after "") in
    if e.status == 429
    then if is_blank_text header
      then "Too many requests. Please wait before trying again."
      else header_message p show_time header
    else "This section is temporarily unavailable. Please try again."

abbrev is_decimal : ℕ → Bool
is_decimal c = leb 48 c && leb c 57

-- `parseMonitorId`: digits only, and a safe integer above 0.
abbrev safe_id : Number → Option ℕ
safe_id (int (pos n)) = if ltb 0 n && leb n 9007199254740991 then some n else none
safe_id _ = none

unfoldable pub parse_monitor_id : Platform → Option String → Option ℕ
parse_monitor_id p none = none
parse_monitor_id p (some s) =
    if not (is_blank_text s) && all is_decimal (codes s) then safe_id (p.to_number s) else none

-- `relativeCheckTime`; `format` is that of `Intl.RelativeTimeFormat`, for minutes ago.
unfoldable pub relative_check_time : Platform → (ℕ → String) → ℕ → Option String → String
relative_check_time p format now none = "No check recorded"
relative_check_time p format now (some s) = elim (p.parse_date s) [
  | none ↦ "No check recorded"
  | some t ↦
      let minutes = (now - t) / 60000 in
      if ltb now t
      then "No check recorded"
      else if ltb minutes 1
      then "Last checked less than a minute ago"
      else "Last checked " ⋯ format minutes
]

-- `formatRelativeTime`, between two times in milliseconds.
unfoldable pub format_relative_time : ℕ → ℕ → String
unfolding show
format_relative_time now t =
    let seconds = (now - t) / 1000 in
    let minutes = seconds / 60 in
    if ltb seconds 60
    then show seconds ⋯ "s ago"
    else if ltb minutes 60
    then show minutes ⋯ "m ago"
    else show (minutes / 60) ⋯ "h ago"

-- The counts of the monitors.
pub record MonitorCounts : Type 0 where
  pub total : ℕ
  pub healthy : ℕ
  pub unhealthy : ℕ
  pub pending : ℕ
  pub paused : ℕ

abbrev is_active : MonitorResponse → Bool
is_active m = m.state == "Active"

unfoldable pub count_monitors : List MonitorResponse → MonitorCounts
count_monitors ms =
    let active = filter is_active ms in
    record {
      total = length ms;
      healthy = length (filter (λ m. opt_eq m.last_state (some "healthy")) active);
      unhealthy = length (filter (λ m. opt_eq m.last_state (some "unhealthy")) active);
      pending = length (filter (λ m. opt_eq m.last_state none) active);
      paused = length (filter (λ m. m.state == "Paused") ms);
    }
