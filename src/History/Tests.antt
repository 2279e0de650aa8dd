-- ===== src/History/Tests.antt =====
-- A hook that has loaded as many rows as it asked for, and the theorems at it.
use sentinel_project.Base.{
  List, Option, [], false, if◌then◌else◌, nat_eq, none, refl, some, sort, string_eq, suc, true,
  zero, ℕ, ◌==◌, ◌∷◌, ◌≡◌,
}
use sentinel_project.Base.Number.{nan, num, show_num}
use sentinel_project.Base.Result.{ok}
use sentinel_project.Base.Text.{Platform, ◌⋯◌}
use sentinel_project.History.{
  Hook, Query, QueryError, api_error, can_load_more, fetch_monitor_history, history_limit,
  load_more_history, mounted, polling_policy,
}
use sentinel_project.History.Limits.{
  Action, act_all, act_all-fetch_monitor_history, asked_more, rendered, settled,
}
use sentinel_project.History.Percentile.{IsP95, summarize_monitor_history-IsP95}
use sentinel_project.History.Polling.{IsPatient, polling_policy-IsPatient}
use sentinel_project.History.Summary.{MonitorHistoryRow, summarize_monitor_history}

abbrev platform : Platform
platform = record {
  parse_url = λ s. none;
  to_lower = λ s. s;
  to_number = λ s. if s == "60" then num 60 else nan;
  parse_date = λ s. none;
}

abbrev rows : ℕ → List ℕ
rows zero = []
rows (suc n) = n ∷ rows n

abbrev loaded_rows : ℕ → Query ℕ
loaded_rows n = record {
  data_ = some (rows n);
  is_success = true;
  is_placeholder_data = false;
  is_fetching = false;
  error = none;
  error_updated_at = 0;
}

abbrev full_hook : Hook ℕ
full_hook = record {
  limit_id = 7;
  limit = 50;
  previous = record { monitor_id = 7; limit = 50; rows = some (rows 50) };
  expansion = none;
}

grows : history_limit 7 (load_more_history platform 5 7 (loaded_rows 50) full_hook) ≡ 100
unfolding load_more_history history_limit can_load_more
grows = refl

abbrev waiting : Option QueryError
waiting = some (api_error 429 (some "60"))

polling_policy-IsPatient_example :
    IsPatient platform 1000 2000 waiting (polling_policy platform 1000 waiting 2000)
polling_policy-IsPatient_example = polling_policy-IsPatient platform 1000 2000 waiting

abbrev actions : List (Action ℕ)
actions =
    rendered 7 (loaded_rows 50) ∷ asked_more 5 7 (loaded_rows 50) ∷ settled 7 (loaded_rows 50) ∷ []

act_all-fetch_monitor_history_example :
    fetch_monitor_history (num 7) (num (history_limit 7 (act_all platform actions (mounted 7))))
    ≡ ok (
        "/api/v1/monitors/"
        ⋯ show_num (num 7)
        ⋯ "/history?limit="
        ⋯ show_num (num (history_limit 7 (act_all platform actions (mounted 7)))))
act_all-fetch_monitor_history_example = act_all-fetch_monitor_history platform 6 7 actions

abbrev measured_row : ℕ → MonitorHistoryRow
measured_row latency = record {
  id = latency;
  monitor_id = 7;
  state = "healthy";
  status_code = some 200;
  latency_ms = some latency;
  error_message = none;
  created_at = "10:00";
}

abbrev measured_rows : List MonitorHistoryRow
measured_rows = measured_row 30 ∷ measured_row 10 ∷ measured_row 20 ∷ []

summarize_monitor_history-IsP95_example : IsP95 (some 30) (30 ∷ 10 ∷ 20 ∷ [])
unfolding summarize_monitor_history sort
summarize_monitor_history-IsP95_example = summarize_monitor_history-IsP95 measured_rows
