-- ===== src/Throttle.antt =====
-- The throttler guard: sentinel-api/src/common/guards/app-throttler.guard.ts, and the throttlers of
-- sentinel-api/src/app.module.ts. The counting is in the framework's guard, a parameter.
mod Tests
use sentinel_project.Base.{
  Bool, List, Option, String, [], get_or, if◌then◌else◌, is_some, nat_eq, none, not, some,
  string_eq, suc, true, zero, ℕ, ◌&&◌, ◌==◌, ◌∷◌,
}
use sentinel_project.Base.Number.{show}
use sentinel_project.Base.Text.{◌⋯◌}

-- A named throttler with its settings; a text that is configured is passed on as it is.
pub record Throttler : Type 0 where
  pub name : String
  pub ttl : String
  pub limit : String

abbrev throttler : (String → Option String) → String → String → String → String → Throttler
throttler config name ttl_key limit_key limit = record {
  name = name;
  ttl = get_or (config ttl_key) "60000";
  limit = get_or (config limit_key) limit;
}

pub throttlers : (String → Option String) → List Throttler
throttlers config =
    throttler config "default" "THROTTLE_DEFAULT_TTL" "THROTTLE_DEFAULT_LIMIT" "100"
    ∷ throttler config "auth" "THROTTLE_AUTH_TTL" "THROTTLE_AUTH_LIMIT" "5"
    ∷ throttler config "monitors" "THROTTLE_MONITORS_TTL" "THROTTLE_MONITORS_LIMIT" "20"
    ∷ []

-- `getAllAndOverride`: the handler's limit, and else the controller's.
abbrev route_limit : Option ℕ → Option ℕ → Option ℕ
route_limit (some n) controller = some n
route_limit none controller = controller

-- `true` lets the request pass; `counted` is what the framework's guard answers.
unfoldable pub handle_request : Throttler → Option ℕ → Option ℕ → Bool → Bool
handle_request t handler controller counted =
    if not (t.name == "default") && not (is_some (route_limit handler controller))
    then true
    else counted

abbrev or_next : Option String → String → String
or_next none d = d
or_next (some s) d = if s == "" then d else s

-- By whom a request is counted: its user, where it has one with an identifier other than 0, and else
-- the address of its client.
unfoldable pub get_tracker : Option ℕ → Option String → Option String → String
unfolding show
get_tracker (some (suc n)) ip remote = "user_" ⋯ show (suc n)
get_tracker _ ip remote = "ip_" ⋯ or_next ip (or_next remote "127.0.0.1")

-- The `Retry-After` header that is set before the exception, where the time is not 0.
unfoldable pub retry_after_header : ℕ → Option String
unfolding show
retry_after_header zero = none
retry_after_header (suc n) = some (show (suc n))
