-- ===== src/PublicStatus/Tests.antt =====
-- A run of the service, and the theorems at it.
use sentinel_project.Base.{
  All, Any, Bool, [], false, inl, inr, length, none, refl, some, true, ◌+◌, ◌<◌, ◌∷◌, ◌≡◌, ◌≤◌,
}
use sentinel_project.Db.{Monitor, Tables, User}
use sentinel_project.PublicStatus.{
  PublicStatusResponse, Service, arrive, call, init, query_public_status, status_row,
}
use sentinel_project.PublicStatus.Cache.{Reach, call_fresh, called, came, here, next, one_query}
use sentinel_project.PublicStatus.Published.{
  IsShown, query_public_status-IsShown, query_public_status_complete,
}

abbrev row : PublicStatusResponse
row = record {
  name = "site";
  last_state = some "healthy";
  uptime_percentage = some (100, 1);
  last_checked_at = some 900;
  check_summary = record {
    window_hours = 24;
    total_checks = 1;
    healthy_checks = 1;
    window_start = 0;
    window_end = 1000;
    first_check_at = some 900;
    last_check_at = some 900;
  };
}

-- A call at 1000 starts the query 0, which comes back at 1100.
abbrev after_call : Service
after_call = record init { in_flight = some 0; running = 0 ∷ []; started = 1 }

abbrev after_rows : Service
after_rows = record {
  cached = some (record { expires_at = 31100; rows = row ∷ [] });
  in_flight = none;
  running = [];
  started = 1;
  arrived = (1100, row ∷ []) ∷ [];
}

run_call : Reach 30000 after_call
unfolding call
run_call = next here (called 1000 refl)

run_rows : Reach 30000 after_rows
unfolding arrive
run_rows = next run_call (came 0 1100 (row ∷ []) (inl refl) refl)

one_query_example : length after_call.running ≤ 1
one_query_example = one_query 30000 after_call run_call

call_fresh_example : Any (λ a. (a.1 ≡ row ∷ []) × (20000 < a.0 + 30000)) after_rows.arrived
unfolding call
call_fresh_example = call_fresh 30000 after_rows 20000 (row ∷ []) run_rows refl

abbrev owner : Bool → User
owner demo = record {
  id = 1;
  name = "";
  last_name = "";
  username = "";
  email = "";
  password = "";
  phonenumber = none;
  created_at = 0;
  updated_at = 0;
  status = none;
  is_active = false;
  is_demo = demo;
}

abbrev site : Bool → Monitor
site public = record {
  id = 1;
  name = "site";
  target = "https://example.com/";
  frequency = 60;
  state = "Active";
  created_at = 0;
  check_type = "http";
  check_config = none;
  last_state = some "healthy";
  last_checked_at = some 900;
  consecutive_failures = 0;
  user_id = 1;
  seed_key = none;
  is_public = public;
}

abbrev stored : Tables
stored = record {
  monitors = site false ∷ site true ∷ [];
  results = [];
  alerts = [];
  users = owner false ∷ [];
}

shows_public : length (query_public_status 24 1000 stored) ≡ 1
unfolding query_public_status
shows_public = refl

query_public_status-IsShown_example :
    All (IsShown 24 1000 stored) (query_public_status 24 1000 stored)
query_public_status-IsShown_example = query_public_status-IsShown 24 1000 stored

query_public_status_complete_example :
    Any
      (λ r. r ≡ status_row 24 1000 stored.results (site true))
      (query_public_status 24 1000 stored)
query_public_status_complete_example =
    query_public_status_complete 24 1000 stored (site true) (inr (inl refl)) refl refl
      (inl (refl, refl))
