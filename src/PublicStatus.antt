-- ===== src/PublicStatus.antt =====
-- The public status: sentinel-api/src/status/public-status.service.ts. The query is read as a
-- function of the tables and of the database's clock; the order of its rows, which depends on the
-- database's collation, is not represented. The service's cache and its query in flight are a state,
-- and each part of `getPublicStatus` between two awaits is a step.
pub mod Published
pub mod Cache
mod Tests
use sentinel_project.Base.{
  Bool, List, Option, String, [], any, filter, if◌then◌else◌, leb, length, ltb, map, max, min,
  nat_eq, none, not, some, string_eq, suc, zero, ℕ, ◌&&◌, ◌*◌, ◌+◌, ◌-◌, ◌==◌, ◌||◌, ◌∷◌,
}
use sentinel_project.Base.Number.{Number, int, is_finite, le_num, num, pos}
use sentinel_project.Base.Result.{Result, error, ok, throw, ◌>>=◌, ◌>>◌}
use sentinel_project.Base.Text.{Platform, ◌⋯◌}
use sentinel_project.Db.{CheckResult, Monitor, Tables, User}

-- `uptime_percentage` is the exact quotient of the two counts, in percent: `none` stands for NULL.
pub record CheckSummary : Type 0 where
  pub window_hours : ℕ
  pub total_checks : ℕ
  pub healthy_checks : ℕ
  pub window_start : ℕ
  pub window_end : ℕ
  pub first_check_at : Option ℕ
  pub last_check_at : Option ℕ

pub record PublicStatusResponse : Type 0 where
  pub name : String
  pub last_state : Option String
  pub uptime_percentage : Option (ℕ × ℕ)
  pub last_checked_at : Option ℕ
  pub check_summary : CheckSummary

abbrev pub hour : ℕ
hour = 3600000

-- `cr.monitor_id = m.id AND cr.created_at >= window_start AND cr.created_at <= window_end`.
abbrev pub in_window : ℕ → ℕ → ℕ → CheckResult → Bool
in_window i from to r = r.monitor_id == i && (leb from r.created_at && leb r.created_at to)

abbrev is_healthy : CheckResult → Bool
is_healthy r = r.state == "healthy"

-- `MIN` and `MAX` over rows; NULL over none.
earliest : List CheckResult → Option ℕ
earliest [] = none
earliest (r ∷ rs) = elim (earliest rs) [
  | none ↦ some r.created_at
  | some t ↦ some (min r.created_at t)
]

latest : List CheckResult → Option ℕ
latest [] = none
latest (r ∷ rs) = elim (latest rs) [ none ↦ some r.created_at | some t ↦ some (max r.created_at t) ]

-- `healthy * 100 / total`, as a numerator and a denominator.
unfoldable pub uptime : ℕ → ℕ → Option (ℕ × ℕ)
uptime healthy zero = none
uptime healthy (suc n) = some (healthy * 100, suc n)

-- One row of the query. `window_end - hours * 1 hour` does not fall below 0 for a present time.
unfoldable pub status_row : ℕ → ℕ → List CheckResult → Monitor → PublicStatusResponse
unfolding uptime earliest latest
status_row hours now results m =
    let from = now - hours * hour in
    let checks = filter (in_window m.id from now) results in
    let total = length checks in
    let healthy = length (filter is_healthy checks) in
    record {
      name = m.name;
      last_state = m.last_state;
      uptime_percentage = uptime healthy total;
      last_checked_at = m.last_checked_at;
      check_summary = record {
        window_hours = hours;
        total_checks = total;
        healthy_checks = healthy;
        window_start = from;
        window_end = now;
        first_check_at = earliest checks;
        last_check_at = latest checks;
      };
    }

-- `INNER JOIN users … WHERE m.state = 'Active' AND m.is_public = TRUE AND u.is_demo = FALSE`.
unfoldable pub is_published : List User → Monitor → Bool
is_published users m =
    m.state == "Active" && (m.is_public && any (λ u. u.id == m.user_id && not u.is_demo) users)

unfoldable pub query_public_status : ℕ → ℕ → Tables → List PublicStatusResponse
unfolding status_row is_published
query_public_status hours now t =
    map (status_row hours now t.results) (filter (is_published t.users) t.monitors)

-- `readPositiveConfig`: the setting as a number that is finite and above 0.
read_positive_config : Platform → (String → Option String) → String → ℕ → Result Number
read_positive_config p config key fallback =
    let value : Number = elim (config key) [ none ↦ num fallback | some s ↦ p.to_number s ] in
    if not (is_finite value) || le_num value (num 0)
    then throw (error (key ⋯ " must be a positive finite number"))
    else ok value

abbrev seconds : Number → Number
seconds (int (pos n)) = num (n * 1000)
seconds n = n

settings : Number → Number → Result (Number × Number)
settings hours ttl =
    if is_finite ttl
    then ok (hours, ttl)
    else throw (error "STATUS_CACHE_TTL_SECONDS must be a positive finite number")

-- `onModuleInit`: the window in hours and the life of the cache in milliseconds. A product of
-- integers is finite here; that of the source overflows above 10 ^ 305.
pub on_module_init : Platform → (String → Option String) → Result (Number × Number)
unfolding read_positive_config settings
on_module_init p config = do
  hours ← read_positive_config p config "STATUS_UPTIME_WINDOW_HOURS" 24
  ttl ← read_positive_config p config "STATUS_CACHE_TTL_SECONDS" 30
  settings hours (seconds ttl)

pub record Cached : Type 0 where
  pub expires_at : ℕ
  pub rows : List PublicStatusResponse

-- The service's fields, with what the database sees of it: the queries that run, how many were
-- started, and the results that came back with their times.
pub record Service : Type 0 where
  pub cached : Option Cached
  pub in_flight : Option ℕ
  pub running : List ℕ
  pub started : ℕ
  pub arrived : List (ℕ × List PublicStatusResponse)

-- What a caller gets at once: the cached rows, or the promise of a query.
pub data Answer : Type 0 where
  cached_rows : List PublicStatusResponse → Answer
  promise : ℕ → Answer

abbrev pub init : Service
init = record { cached = none; in_flight = none; running = []; started = 0; arrived = [] }

-- `this.inFlight` is returned, or a query is started.
join_or_start : Option ℕ → Service → Answer × Service
join_or_start (some q) s = (promise q, s)
join_or_start none s = (
  promise s.started,
  record s { in_flight = some s.started; running = s.started ∷ s.running; started = s.started + 1 },
)

answer_call : Option Cached → ℕ → Service → Answer × Service
unfolding join_or_start
answer_call none now s = join_or_start s.in_flight s
answer_call (some c) now s =
    if ltb now c.expires_at then (cached_rows c.rows, s) else join_or_start s.in_flight s

-- `getPublicStatus` up to its await, at the time `now`.
unfoldable pub call : ℕ → Service → Answer × Service
unfolding answer_call
call now s = answer_call s.cached now s

abbrev remove : ℕ → List ℕ → List ℕ
remove q = filter (λ r. not (r == q))

-- The rest of `getPublicStatus` for the query `q`: its rows have come at `now`, or it has failed.
unfoldable pub arrive : ℕ → ℕ → ℕ → List PublicStatusResponse → Service → Service
arrive ttl q now rows s = record s {
  cached = some (record { expires_at = now + ttl; rows = rows });
  in_flight = none;
  running = remove q s.running;
  arrived = (now, rows) ∷ s.arrived;
}

unfoldable pub fail : ℕ → Service → Service
fail q s = record s { in_flight = none; running = remove q s.running }
