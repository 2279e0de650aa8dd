-- ===== src/History.antt =====
-- The history of a monitor in the browser: frontend/src/features/monitors/history/useMonitorHistory.ts
-- with the requests of frontend/src/app/api/endpoints.ts. The hook is a state, its render, its effect
-- and its callbacks; what `useQuery` returns at a render is an input. Times are in milliseconds.
pub mod Limits
pub mod Polling
pub mod Summary
pub mod Percentile
mod Tests
use sentinel_project.Base.{
  Bool, List, Option, String, [], any, false, if◌then◌else◌, is_some, leb, length, ltb, max, min,
  nat_eq, none, not, some, string_eq, ℕ, ◌&&◌, ◌*◌, ◌+◌, ◌-◌, ◌==◌, ◌||◌, ◌∷◌,
}
use sentinel_project.Base.Number.{Number, int, is_finite, lt_num, negsuc, num, pos, show_num}
use sentinel_project.Base.Result.{Result, error, ok, range_error, throw, ◌>>◌}
use sentinel_project.Base.Text.{Platform, trim, ◌⋯◌}

abbrev pub max_monitor_history_limit : ℕ
max_monitor_history_limit = 200

abbrev pub history_limits : List ℕ
history_limits = 50 ∷ 100 ∷ 150 ∷ 200 ∷ []

abbrev pub positive : Number → Bool
positive n = is_finite n && lt_num (num 0) n

unfoldable pub assert_monitor_limit : Number → Number → Result (Unit {0})
assert_monitor_limit monitor_id limit =
    if not (positive monitor_id)
    then throw (range_error "Monitor id must be a positive integer")
    else if not (is_finite limit)
        || lt_num limit (num 1)
        || lt_num (num max_monitor_history_limit) limit
    then throw (range_error "Limit must be an integer between 1 and 200")
    else ok tt

abbrev pub is_history_limit : Number → Bool
is_history_limit (int (pos n)) = any (λ k. k == n) history_limits
is_history_limit _ = false

abbrev history_path : Number → Number → Result String
history_path monitor_id limit =
    if not (is_history_limit limit)
    then throw (range_error "History limit must be 50, 100, 150, or 200")
    else ok ("/api/v1/monitors/" ⋯ show_num monitor_id ⋯ "/history?limit=" ⋯ show_num limit)

-- The path that is asked for, or the error that is thrown at once.
unfoldable pub fetch_monitor_history : Number → Number → Result String
unfolding assert_monitor_limit
fetch_monitor_history monitor_id limit =
    assert_monitor_limit monitor_id limit >> history_path monitor_id limit

unfoldable pub fetch_monitor_alerts : Number → Number → Result String
unfolding assert_monitor_limit
fetch_monitor_alerts monitor_id limit =
    assert_monitor_limit monitor_id limit
    >> ok ("/api/v1/monitors/" ⋯ show_num monitor_id ⋯ "/alerts?limit=" ⋯ show_num limit)

-- What a query failed with: an `ApiError`, with its status and `Retry-After`, or anything else.
pub data QueryError : Type 0 where
  api_error : ℕ → Option String → QueryError
  other_error : QueryError

abbrev refresh_ms : ℕ
refresh_ms = 30000

abbrev default_history_limit : ℕ
default_history_limit = 50

abbrev pub deadline_of : Platform → String → ℕ → Number → Option ℕ
deadline_of p value updated_at (int (pos n)) = some (updated_at + n * 1000)
deadline_of p value updated_at (int (negsuc n)) = some updated_at
deadline_of p value updated_at _ = p.parse_date value

unfoldable pub retry_after_deadline : Platform → Option QueryError → ℕ → Option ℕ
unfolding trim
retry_after_deadline p (some (api_error status (some s))) updated_at =
    let deadline = deadline_of p (trim s) updated_at (p.to_number (trim s)) in
    if s == "" then none else deadline
retry_after_deadline p _ updated_at = none

unfoldable pub is_terminal_failure : Option QueryError → Bool
is_terminal_failure (some (api_error status r)) = status == 401 || status == 403 || status == 404
is_terminal_failure _ = false

abbrev pub before : Option ℕ → ℕ → Bool
before none now = false
before (some deadline) now = ltb now deadline

unfoldable pub is_in_retry_cooldown : Platform → ℕ → Option QueryError → ℕ → Bool
unfolding retry_after_deadline
is_in_retry_cooldown p now e updated_at = before (retry_after_deadline p e updated_at) now

abbrev pub interval : Option ℕ → ℕ → ℕ
interval none now = refresh_ms
interval (some deadline) now = max refresh_ms (deadline - now)

-- `none` is `false`: no polling.
unfoldable pub polling_policy : Platform → ℕ → Option QueryError → ℕ → Option ℕ
unfolding is_terminal_failure retry_after_deadline
polling_policy p now e updated_at =
    if is_terminal_failure e
    then none
    else some (interval (retry_after_deadline p e updated_at) now)

unfoldable pub permits_automatic_refetch : Platform → ℕ → Option QueryError → ℕ → Bool
unfolding is_terminal_failure is_in_retry_cooldown
permits_automatic_refetch p now e updated_at =
    not (is_terminal_failure e) && not (is_in_retry_cooldown p now e updated_at)

-- What `useQuery` returns for the key of a monitor and a limit, with rows of a type `R`.
pub record Query {ℓ} (R : Type ℓ) : Type ℓ where
  pub data_ : Option (List R)
  pub is_success : Bool
  pub is_placeholder_data : Bool
  pub is_fetching : Bool
  pub error : Option QueryError
  pub error_updated_at : ℕ

pub record Scope {ℓ} (R : Type ℓ) : Type ℓ where
  pub monitor_id : ℕ
  pub limit : ℕ
  pub rows : Option (List R)

-- The hook's state and refs.
pub record Hook {ℓ} (R : Type ℓ) : Type ℓ where
  pub limit_id : ℕ
  pub limit : ℕ
  pub previous : Scope R
  pub expansion : Option (ℕ × ℕ)

abbrev pub is_for : ℕ → Option (ℕ × ℕ) → Bool
is_for i none = false
is_for i (some e) = e.0 == i

module _ {ℓ} {R : Type ℓ} where
  abbrev pub no_rows : ℕ → Scope R
  no_rows i = record { monitor_id = i; limit = default_history_limit; rows = none }

  abbrev pub mounted : ℕ → Hook R
  mounted i = record {
    limit_id = i;
    limit = default_history_limit;
    previous = no_rows i;
    expansion = none;
  }

  unfoldable pub history_limit : ℕ → Hook R → ℕ
  history_limit i h = if h.limit_id == i then h.limit else default_history_limit

  -- The refs of another monitor are reset.
  abbrev reset : ℕ → Hook R → Hook R
  reset i h =
      if h.previous.monitor_id == i then h else record h { previous = no_rows i; expansion = none }

  abbrev remember : ℕ → ℕ → Query R → Hook R → Hook R
  remember i limit q h =
      if q.is_success && (is_some q.data_ && not q.is_placeholder_data)
      then record h { previous = record { monitor_id = i; limit = limit; rows = q.data_ } }
      else h

  unfoldable pub render : ℕ → Query R → Hook R → Hook R
  unfolding history_limit
  render i q h = remember i (history_limit i h) q (reset i h)

  -- `successfulScope.rows`, for the monitor and the limit of the render.
  abbrev pub scope_rows : ℕ → ℕ → Hook R → Option (List R)
  scope_rows i limit h =
      if h.previous.monitor_id == i && h.previous.limit == limit then h.previous.rows else none

  abbrev pub is_full : ℕ → Option (List R) → Bool
  is_full limit none = false
  is_full limit (some rows) = leb limit (length rows)

  -- The effect that ends an expansion.
  unfoldable pub settle : ℕ → Query R → Hook R → Hook R
  settle i q h =
      if is_for i h.expansion && not q.is_fetching then record h { expansion = none } else h

  unfoldable pub can_load_more : Platform → ℕ → ℕ → Query R → Hook R → Bool
  unfolding history_limit is_terminal_failure is_in_retry_cooldown
  can_load_more p now i q h =
      let limit = history_limit i h in
      is_full limit (scope_rows i limit h)
      && (ltb limit max_monitor_history_limit
          && (not (is_some q.error)
              && (not (is_terminal_failure q.error)
                  && not (is_in_retry_cooldown p now q.error q.error_updated_at))))

  unfoldable pub load_more_history : Platform → ℕ → ℕ → Query R → Hook R → Hook R
  unfolding can_load_more history_limit
  load_more_history p now i q h =
      let next_limit = min max_monitor_history_limit (history_limit i h + 50) in
      if not (can_load_more p now i q h) || (q.is_fetching || is_for i h.expansion)
      then h
      else record h { limit_id = i; limit = next_limit; expansion = some (i, next_limit) }

  unfoldable pub history_exhausted : ℕ → Hook R → Bool
  unfolding history_limit
  history_exhausted i h =
      let limit = history_limit i h in
      is_some (scope_rows i limit h) && not (is_full limit (scope_rows i limit h))

  unfoldable pub history_at_limit : ℕ → Hook R → Bool
  unfolding history_limit
  history_at_limit i h =
      let limit = history_limit i h in
      limit == max_monitor_history_limit && is_full limit (scope_rows i limit h)

  unfoldable pub history_expansion_pending : ℕ → Query R → Hook R → Bool
  unfolding history_limit
  history_expansion_pending i q h = elim h.expansion [
    | none ↦ false
    | some e ↦ e.0 == i && (e.1 == history_limit i h && q.is_fetching)
  ]

  -- Whether `refetchHistory` asks again; `refetchAlerts` does so for its own query.
  unfoldable pub refetches : Platform → ℕ → Query R → Bool
  unfolding is_terminal_failure is_in_retry_cooldown
  refetches p now q =
      not (is_terminal_failure q.error || is_in_retry_cooldown p now q.error q.error_updated_at)
