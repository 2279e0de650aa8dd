-- ===== src/Throttle/Tests.antt =====
-- Runs of the guard.
use sentinel_project.Base.{false, none, refl, some, true, ◌≡◌}
use sentinel_project.Throttle.{Throttler, get_tracker, handle_request}

strict : Throttler
strict = record { name = "auth"; ttl = "60000"; limit = "5" }

-- A route without a limit of its own is not counted by a named throttler.
passes : handle_request strict none none false ≡ true
unfolding handle_request strict
passes = refl

stops : handle_request strict (some 5) none false ≡ false
unfolding handle_request strict
stops = refl

by_address : get_tracker (some 0) none (some "10.0.0.1") ≡ "ip_10.0.0.1"
unfolding get_tracker
by_address = refl

by_user : get_tracker (some 7) none none ≡ "user_7"
unfolding get_tracker
by_user = refl
