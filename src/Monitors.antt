-- ===== src/Monitors.antt =====
-- The service of monitors: sentinel-api/src/monitors/monitors.service.ts, and its response objects
-- in sentinel-api/src/monitors/dto. A method is a function of the database and, where it asks for
-- it, the time; an exception leaves the database as it was at the throw.
pub mod Dto
pub mod Create
pub mod Limit
pub mod Owner
pub mod Update
pub mod Delete
pub mod Reads
pub mod Calls
pub mod Consistent
pub mod Isolation
pub mod Served
mod Tests
use sentinel_project.Base.{
  Bool, List, Option, String, [], false, get_or, if◌then◌else◌, map, nat_eq, none, not, some,
  string_eq, ℕ, ◌&&◌, ◌==◌, ◌∷◌,
}
use sentinel_project.Base.Json.{Json, end, obj}
use sentinel_project.Base.Number.{Number, le_num, lt_num, num, show_num}
use sentinel_project.Base.Result.{
  Exception, Exec, Result, bad_request, error, forbidden, not_found, ok, throw, ◌>>=◌, ◌>>◌,
}
use sentinel_project.Base.Text.{Platform, is_blank_text, member, ◌⋯◌}
use sentinel_project.Db.{Monitor, Prisma}
use sentinel_project.Monitors.Dto.{
  AlertResponse, CheckResultResponse, CreateMonitorDto, MonitorResponse, UpdateMonitorDto,
  alert_response, monitor_response, result_response,
}

-- `userOrId: number | { id: number; is_demo?: boolean }`.
pub data UserRef : Type 0 where
  by_id : ℕ → UserRef
  by_user : ℕ → Option Bool → UserRef

abbrev pub user_id : UserRef → ℕ
user_id (by_id i) = i
user_id (by_user i demo) = i

-- `typeof userOrId === 'object' && userOrId.is_demo === true`.
abbrev pub is_demo : UserRef → Bool
is_demo (by_id i) = false
is_demo (by_user i none) = false
is_demo (by_user i (some b)) = b

-- A setting: the texts of the environment, or the number that the call gives as its default.
abbrev pub Config : Type 0
Config = String → Option String

-- `Number(configService.get<number>(key, fallback))`.
unfoldable pub setting : Platform → Config → String → ℕ → Number
setting p config key fallback = elim (config key) [ none ↦ num fallback | some s ↦ p.to_number s ]

abbrev pub valid_check_types : List String
valid_check_types = "http" ∷ []

unfoldable pub min_frequency : Platform → Config → UserRef → Number
min_frequency p config user =
    setting p config
      (if is_demo user then "DEMO_MIN_FREQUENCY_SECONDS" else "MIN_MONITOR_FREQUENCY_SECONDS") 60

unfoldable pub max_monitors : Platform → Config → UserRef → Number
max_monitors p config user =
    setting p config (if is_demo user then "DEMO_MAX_MONITORS" else "MAX_MONITORS_PER_USER")
      (if is_demo user then 3 else 10)

pub unknown_type : String → Exception
unknown_type check_type = bad_request ("Unknown checker type: " ⋯ check_type)

pub too_frequent : Number → Exception
too_frequent least =
    bad_request ("Monitor frequency cannot be less than " ⋯ show_num least ⋯ " seconds")

pub limit_reached : Number → Exception
limit_reached most =
    bad_request ("Monitor limit reached. Maximum allowed: " ⋯ show_num most ⋯ " monitors")

abbrev pub empty_object : Json
empty_object = obj end

-- `dto.check_type || 'http'`.
unfoldable pub check_type_or_http : Option String → String
check_type_or_http none = "http"
check_type_or_http (some s) = if is_blank_text s then "http" else s

-- The row that `createMonitor` stores, once it has an id.
unfoldable pub new_row : CreateMonitorDto → UserRef → ℕ → ℕ → Monitor
new_row dto user now i = record {
  id = i;
  name = dto.name;
  target = dto.target;
  frequency = get_or dto.frequency 60;
  state = "Active";
  created_at = now;
  check_type = check_type_or_http dto.check_type;
  check_config = some (get_or dto.check_config empty_object);
  last_state = none;
  last_checked_at = none;
  consecutive_failures = 0;
  user_id = user_id user;
  seed_key = none;
  is_public = false;
}

abbrev pub owned_by : ℕ → Monitor → Bool
owned_by u m = m.user_id == u

abbrev pub is_owned : ℕ → ℕ → Monitor → Bool
is_owned i u m = m.id == i && m.user_id == u

-- The fields of `dto` that are given replace those of the row.
unfoldable pub patch : UpdateMonitorDto → Monitor → Monitor
patch dto m = record m {
  name = get_or dto.name m.name;
  target = get_or dto.target m.target;
  check_type = get_or dto.check_type m.check_type;
  check_config = elim dto.check_config [ none ↦ m.check_config | some c ↦ some c ];
  frequency = get_or dto.frequency m.frequency;
}

-- `dto.check_type && !VALID_CHECK_TYPES.includes(dto.check_type)`.
unfoldable pub bad_type : Option String → Bool
unfolding member
bad_type none = false
bad_type (some s) = not (is_blank_text s) && not (member s valid_check_types)

-- `dto.frequency !== undefined && dto.frequency < minFrequency`.
unfoldable pub below : Option ℕ → Number → Bool
below none least = false
below (some f) least = lt_num (num f) least

abbrev pub update_missing : Exception
update_missing = not_found "Monitor not found or you do not have permission to modify it."

abbrev pub delete_missing : Exception
delete_missing = not_found "Monitor not found or you don't have permission to delete it"

abbrev pub monitor_missing : Exception
monitor_missing = not_found "Monitor no encontrado"

abbrev pub not_yours : Exception
not_yours = forbidden "No tienes permiso para ver el historial de este monitor"

module _ (p : Platform) (config : Config) (c : Prisma) where
  open c use {
    Db, monitor_count, monitor_find_many, monitor_find_first, monitor_create, monitor_update,
    monitor_delete, results_delete_many, alerts_delete_many, results_page, alerts_page,
  }

  -- The checks of `createMonitor`: the type, the frequency, then the number of monitors.
  pub create_check : CreateMonitorDto → UserRef → Db → Result (Unit {0})
  create_check dto user db =
      let check_type = check_type_or_http dto.check_type in
      let least = min_frequency p config user in
      let most = max_monitors p config user in
      if not (member check_type valid_check_types)
      then throw (unknown_type check_type)
      else if lt_num (num (get_or dto.frequency 60)) least
      then throw (too_frequent least)
      else if le_num most (num (monitor_count (owned_by (user_id user)) db))
      then throw (limit_reached most)
      else ok tt

  pub create_store : CreateMonitorDto → UserRef → ℕ → Db → Result MonitorResponse × Db
  create_store dto user now db =
      let (m, db') = monitor_create (new_row dto user now) db in (ok (monitor_response m), db')

  pub after_check : Result (Unit {0}) → CreateMonitorDto → UserRef → ℕ → Exec Db MonitorResponse
  unfolding create_store
  after_check (throw e) dto user now db = (throw e, db)
  after_check (ok _) dto user now db = create_store dto user now db

  pub create_monitor : CreateMonitorDto → UserRef → ℕ → Exec Db MonitorResponse
  create_monitor dto user now db = after_check (create_check dto user db) dto user now db

  pub get_monitors_by_user : ℕ → Db → List MonitorResponse
  get_monitors_by_user u db = map monitor_response (monitor_find_many (owned_by u) db)

  pub get_monitor_by_id : ℕ → Db → Option Monitor
  get_monitor_by_id i db = monitor_find_first (λ m. m.id == i) db

  pub updated : Option Monitor × Db → Result MonitorResponse × Db
  updated (none, db) = (
    throw (
        error
          "An operation failed because it depends on one or more records that were required but not found."),
    db,
  )
  updated (some m, db) = (ok (monitor_response m), db)

  update_found : Option Monitor → ℕ → UserRef → UpdateMonitorDto → Exec Db MonitorResponse
  unfolding updated
  update_found none i user dto db = (throw update_missing, db)
  update_found (some m) i user dto db =
      let least = min_frequency p config user in
      if bad_type dto.check_type
      then (throw (unknown_type (get_or dto.check_type "")), db)
      else if below dto.frequency least
      then (throw (too_frequent least), db)
      else updated (monitor_update i (patch dto) db)

  pub update_monitor : ℕ → UserRef → UpdateMonitorDto → Exec Db MonitorResponse
  update_monitor i user dto db =
      update_found (monitor_find_first (is_owned i (user_id user)) db) i user dto db

  -- The transaction of `deleteMonitor`: results, alerts, then the monitor.
  pub delete_all : ℕ → Db → Db
  delete_all i db = monitor_delete i (
      alerts_delete_many (λ a. a.monitor_id == i) (results_delete_many (λ r. r.monitor_id == i) db))

  delete_found : Option Monitor → ℕ → Exec Db String
  unfolding delete_all
  delete_found none i db = (throw delete_missing, db)
  delete_found (some m) i db = (ok "Monitor deleted successfully", delete_all i db)

  pub delete_monitor : ℕ → ℕ → Exec Db String
  delete_monitor i u db = delete_found (monitor_find_first (is_owned i u) db) i db

  -- Both reads find the monitor, then ask whose it is.
  readable : ℕ → Option Monitor → Result (Unit {0})
  readable u none = throw monitor_missing
  readable u (some m) = if m.user_id == u then ok tt else throw not_yours

  pub get_history : ℕ → ℕ → ℕ → Db → Result (List CheckResultResponse)
  unfolding get_monitor_by_id readable
  get_history i u limit db = do
    readable u (get_monitor_by_id i db)
    ok (map result_response (results_page (λ r. r.monitor_id == i) limit db))

  pub get_alerts : ℕ → ℕ → ℕ → Db → Result (List AlertResponse)
  unfolding get_monitor_by_id readable
  get_alerts i u limit db = do
    readable u (get_monitor_by_id i db)
    ok (map alert_response (alerts_page (λ a. a.monitor_id == i) limit db))
