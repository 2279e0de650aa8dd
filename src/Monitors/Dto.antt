-- ===== src/Monitors/Dto.antt =====
-- The objects that the service of monitors takes and gives: sentinel-api/src/monitors/dto. An
-- optional field is there or is `undefined`; one that is null, which `@IsOptional()` lets pass, is
-- not represented.
use sentinel_project.Base.{Option, String, get_or, ℕ}
use sentinel_project.Base.Json.{Json, end, obj}
use sentinel_project.Db.{Alert, CheckResult, Monitor}

pub record CreateMonitorDto : Type 0 where
  pub name : String
  pub target : String
  pub check_type : Option String
  pub check_config : Option Json
  pub frequency : Option ℕ

pub record UpdateMonitorDto : Type 0 where
  pub name : Option String
  pub target : Option String
  pub check_type : Option String
  pub check_config : Option Json
  pub frequency : Option ℕ

pub record MonitorResponse : Type 0 where
  pub id : ℕ
  pub name : String
  pub target : String
  pub check_type : String
  pub check_config : Json
  pub frequency : ℕ
  pub state : String
  pub last_state : Option String
  pub last_checked_at : Option ℕ
  pub consecutive_failures : ℕ
  pub created_at : ℕ
  pub user_id : ℕ

-- `MonitorResponseDto.fromEntity`.
unfoldable pub monitor_response : Monitor → MonitorResponse
monitor_response m = record {
  id = m.id;
  name = m.name;
  target = m.target;
  check_type = m.check_type;
  check_config = get_or m.check_config (obj end);
  frequency = m.frequency;
  state = m.state;
  last_state = m.last_state;
  last_checked_at = m.last_checked_at;
  consecutive_failures = m.consecutive_failures;
  created_at = m.created_at;
  user_id = m.user_id;
}

pub record CheckResultResponse : Type 0 where
  pub id : ℕ
  pub monitor_id : ℕ
  pub state : String
  pub status_code : Option ℕ
  pub latency_ms : Option ℕ
  pub error_message : Option String
  pub created_at : ℕ

-- `CheckResultResponseDto.fromEntity`.
unfoldable pub result_response : CheckResult → CheckResultResponse
result_response r = record {
  id = r.id;
  monitor_id = r.monitor_id;
  state = r.state;
  status_code = r.status_code;
  latency_ms = r.latency_ms;
  error_message = r.error_message;
  created_at = r.created_at;
}

pub record AlertResponse : Type 0 where
  pub id : ℕ
  pub monitor_id : ℕ
  pub alert_type : String
  pub message : String
  pub created_at : ℕ

-- `AlertResponseDto.fromEntity`.
unfoldable pub alert_response : Alert → AlertResponse
alert_response a = record {
  id = a.id;
  monitor_id = a.monitor_id;
  alert_type = a.alert_type;
  message = a.message;
  created_at = a.created_at;
}
