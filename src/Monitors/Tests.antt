-- ===== src/Monitors/Tests.antt =====
-- Runs of the service over the client in memory, and its theorems at concrete inputs.
use sentinel_project.Base.{
  List, [], arith, false, if◌then◌else◌, inl, inr, nat_eq, none, refl, some, string_eq, ℕ, ◌<◌,
  ◌==◌, ◌∷◌, ◌≡◌, ◌≤◌,
}
use sentinel_project.Base.Number.{nan, num}
use sentinel_project.Base.Result.{ok}
use sentinel_project.Base.Text.{Platform, member}
use sentinel_project.Db.{Alert, CheckResult, Monitor, Tables}
use sentinel_project.Db.Memory.{above, memory, page}
use sentinel_project.Monitors.{
  Config, UserRef, after_check, bad_type, below, by_user, check_type_or_http, create_check,
  create_monitor, create_store, delete_found, delete_monitor, get_history, max_monitors,
  min_frequency, new_row, patch, setting, update_found, update_monitor, updated,
}
use sentinel_project.Monitors.Calls.{ServiceCall, creating, deleting, serve_all, updating}
use sentinel_project.Monitors.Consistent.{Consistent, serve_all-Consistent}
use sentinel_project.Monitors.Create.{IsCreated, count_of, create_monitor-IsCreated}
use sentinel_project.Monitors.Delete.{IsDeleted, delete_monitor-IsDeleted}
use sentinel_project.Monitors.Dto.{
  CreateMonitorDto, UpdateMonitorDto, monitor_response, result_response,
}
use sentinel_project.Monitors.Isolation.{serve_all-view, view}
use sentinel_project.Monitors.Limit.{Request, interleave, interleave-above_limit}
use sentinel_project.Monitors.Reads.{IsRead, ShowsResult, get_history-IsRead}
use sentinel_project.Monitors.Served.{serve_all-limit}
use sentinel_project.Monitors.Update.{IsUpdated, update_monitor-IsUpdated}

abbrev platform : Platform
platform = record {
  parse_url = λ s. none;
  to_lower = λ s. s;
  to_number = λ s. if s == "2" then num 2 else nan;
  parse_date = λ s. none;
}

-- The limit of monitors is 2, all else is left at its default.
abbrev config : Config
config s = if s == "MAX_MONITORS_PER_USER" then some "2" else none

abbrev row : ℕ → ℕ → Monitor
row i u = record {
  id = i;
  name = "site";
  target = "https://example.com/";
  frequency = 60;
  state = "Active";
  created_at = 5;
  check_type = "http";
  check_config = none;
  last_state = none;
  last_checked_at = none;
  consecutive_failures = 0;
  user_id = u;
  seed_key = none;
  is_public = false;
}

abbrev check : ℕ → ℕ → ℕ → CheckResult
check i m at = record {
  id = i;
  monitor_id = m;
  state = "healthy";
  status_code = some 200;
  latency_ms = some 12;
  response_sample = none;
  error_message = none;
  extra_data = none;
  created_at = at;
}

abbrev alert : ℕ → ℕ → Alert
alert i m = record { id = i; monitor_id = m; alert_type = "down"; message = "down"; created_at = 9 }

-- User 7 has the monitor 1, user 8 the monitor 2.
abbrev start : Tables
start = record {
  monitors = row 1 7 ∷ row 2 8 ∷ [];
  results = check 1 1 100 ∷ check 2 1 300 ∷ check 3 2 200 ∷ [];
  alerts = alert 1 1 ∷ [];
  users = [];
}

abbrev site : CreateMonitorDto
site = record {
  name = "new";
  target = "https://example.org/";
  check_type = none;
  check_config = none;
  frequency = none;
}

abbrev user_7 : UserRef
user_7 = by_user 7 (some false)

abbrev slower : UpdateMonitorDto
slower = record {
  name = none;
  target = none;
  check_type = none;
  check_config = none;
  frequency = some 90;
}

created :
    (create_monitor platform config memory site user_7 50 start).0
    ≡ ok (monitor_response (new_row site user_7 50 3))
unfolding create_monitor create_check after_check create_store member min_frequency max_monitors
    setting check_type_or_http above
created = refl

create_monitor-IsCreated_example :
    IsCreated platform config memory site user_7 50 start
      (create_monitor platform config memory site user_7 50 start).1
      (monitor_response (new_row site user_7 50 3))
create_monitor-IsCreated_example =
    create_monitor-IsCreated platform config memory site user_7 50 start
      (monitor_response (new_row site user_7 50 3)) created

abbrev request : Request
request = record { dto = site; user = user_7; now = 50 }

-- Two calls at once take user 7 from one monitor to three, over the limit of 2.
interleave-above_limit_example :
    2
    < count_of 7
        (memory.tables (interleave platform config memory start (request ∷ request ∷ []) start))
unfolding min_frequency max_monitors setting check_type_or_http
interleave-above_limit_example =
    interleave-above_limit platform config memory user_7 2 (request ∷ request ∷ []) start refl
      (omega arith) (omega arith) ((refl, refl, refl), ((refl, refl, refl), tt))

updated_ok :
    (update_monitor platform config memory 1 user_7 slower start).0
    ≡ ok (monitor_response (record (row 1 7) { frequency = 90 }))
unfolding update_monitor update_found bad_type below min_frequency setting updated patch
updated_ok = refl

update_monitor-IsUpdated_example :
    IsUpdated platform config memory 1 user_7 slower start
      (update_monitor platform config memory 1 user_7 slower start).1
      (monitor_response (record (row 1 7) { frequency = 90 }))
update_monitor-IsUpdated_example =
    update_monitor-IsUpdated platform config memory 1 user_7 slower start
      (monitor_response (record (row 1 7) { frequency = 90 })) (omega arith) updated_ok

deleted : (delete_monitor platform config memory 1 7 start).0 ≡ ok "Monitor deleted successfully"
unfolding delete_monitor delete_found
deleted = refl

delete_monitor-IsDeleted_example :
    IsDeleted platform config memory 1 7 start (delete_monitor platform config memory 1 7 start).1
delete_monitor-IsDeleted_example =
    delete_monitor-IsDeleted platform config memory 1 7 start "Monitor deleted successfully" deleted

history :
    get_history platform config memory 1 7 5 start
    ≡ ok (result_response (check 2 1 300) ∷ result_response (check 1 1 100) ∷ [])
unfolding get_history page result_response
history = refl

get_history-IsRead_example :
    IsRead
      (λ r. r.created_at)
      (λ r. r.monitor_id)
      ShowsResult
      1
      7
      5
      start.monitors
      start.results
      (get_history platform config memory 1 7 5 start)
get_history-IsRead_example = get_history-IsRead platform config memory 1 7 5 start

-- User 7 makes a monitor, user 8 tries to delete that of user 7, then changes and deletes its own.
abbrev busy_day : List ServiceCall
busy_day =
    creating site user_7 50 ∷ deleting 1 8 ∷ updating 2 (by_user 8 none) slower ∷ deleting 2 8 ∷ []

start-Consistent : Consistent start
start-Consistent = record {
  distinct = omega arith;
  no_orphans = record {
    results = (inl refl, (inl refl, (inr (inl refl), tt)));
    alerts = (inl refl, tt);
  };
}

serve_all-Consistent_example :
    Consistent (memory.tables (serve_all platform config memory busy_day start))
serve_all-Consistent_example =
    serve_all-Consistent platform config memory busy_day start start-Consistent

serve_all-limit_example :
    count_of 7 (memory.tables (serve_all platform config memory busy_day start)) ≤ 2
unfolding max_monitors setting
serve_all-limit_example =
    serve_all-limit platform config memory 7 2 busy_day start (inr refl, (tt, (tt, (tt, tt))))
      (omega arith)

serve_all-view_example :
    view 7
      (memory.tables (serve_all platform config memory (deleting 1 8 ∷ deleting 2 8 ∷ []) start))
    ≡ record {
      mine = row 1 7 ∷ [];
      results = check 1 1 100 ∷ check 2 1 300 ∷ [];
      alerts = alert 1 1 ∷ [];
    }
serve_all-view_example =
    serve_all-view platform config memory 7 (deleting 1 8 ∷ deleting 2 8 ∷ []) start (omega arith)
      start-Consistent
