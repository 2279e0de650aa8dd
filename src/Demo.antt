-- ===== src/Demo.antt =====
-- The demo user and its monitors: sentinel-api/src/demo/demo-seed.ts. A frequency of the manifest
-- is a natural number, and a call that the database refuses is not represented.
pub mod Found
pub mod Stored
pub mod Seeded
mod Tests
use sentinel_project.Base.{
  Bool, List, Option, String, [], false, get_or, if◌then◌else◌, length, nat_eq, none, not, some,
  string_eq, true, ℕ, ◌==◌, ◌||◌, ◌∷◌,
}
use sentinel_project.Base.Json.{Json, str}
use sentinel_project.Base.Number.{Number, int, ltb_ℤ, num, pos}
use sentinel_project.Base.Result.{Exception, Exec, Result, bad_request, ok, throw}
use sentinel_project.Base.Text.{Platform, is_blank_text, ◌⋯◌}
use sentinel_project.Db.{Monitor, Prisma, User}
use sentinel_project.Monitors.{is_demo, user_id}
use sentinel_project.Seed.{has_key}
use sentinel_project.Target.{validate}

pub record DemoEntry : Type 0 where
  pub seed_key : String
  pub name : String
  pub target : String
  pub frequency : ℕ
  pub check_type : String
  pub check_config : Json

pub record DemoManifest : Type 0 where
  pub email : String
  pub password : String
  pub monitors : List DemoEntry

-- `Number(process.env.DEMO_MAX_MONITORS ?? 3)`, and that it is an integer above the number of
-- monitors.
abbrev pub demo_limit : Platform → Option String → Number
demo_limit p none = num 3
demo_limit p (some s) = p.to_number s

abbrev pub has_room : Number → ℕ → Bool
has_room (int z) n = ltb_ℤ (pos n) z
has_room _ n = false

abbrev pub no_room : Exception
no_room = bad_request "DEMO_MAX_MONITORS must leave at least one free monitor slot"

unfoldable pub check_demo : Platform → List DemoEntry → Result (Unit {0})
check_demo p [] = ok tt
check_demo p (e ∷ es) =
    let rest = check_demo p es in
    if is_blank_text e.seed_key || not (validate p (str e.target))
    then throw (bad_request ("Invalid demo monitor manifest entry: " ⋯ e.seed_key))
    else rest

-- The update and the row of the demo user.
abbrev pub as_demo : String → User → User
as_demo hashed u = record u { password = hashed; is_demo = true }

abbrev pub demo_user_row : String → String → ℕ → ℕ → User
demo_user_row email hashed now i = record {
  id = i;
  name = "Demo";
  last_name = "User";
  username = email;
  email = email;
  password = hashed;
  phonenumber = none;
  created_at = now;
  updated_at = now;
  status = some "Active";
  is_active = true;
  is_demo = true;
}

-- `values`, written over a row, and the row that is made of them.
abbrev pub demo_values : DemoEntry → Monitor → Monitor
demo_values e m = record m {
  name = e.name;
  target = e.target;
  frequency = e.frequency;
  state = "Active";
  check_type = e.check_type;
  check_config = some e.check_config;
  consecutive_failures = 0;
  is_public = false;
}

abbrev pub demo_row : DemoEntry → ℕ → ℕ → ℕ → Monitor
demo_row e owner now i = record {
  id = i;
  name = e.name;
  target = e.target;
  frequency = e.frequency;
  state = "Active";
  created_at = now;
  check_type = e.check_type;
  check_config = some e.check_config;
  last_state = none;
  last_checked_at = none;
  consecutive_failures = 0;
  user_id = owner;
  seed_key = some e.seed_key;
  is_public = false;
}

module _ (p : Platform) (c : Prisma) where
  open c use {
    Db, monitor_find_first, monitor_create, monitor_update, user_find_first, user_create,
    user_update,
  }

  -- `users.upsert`, for the user with the address or for none.
  abbrev pub upsert_user : Option User → String → String → ℕ → Db → ℕ × Db
  upsert_user none email hashed now db =
      let (u, db') = user_create (demo_user_row email hashed now) db in (u.id, db')
  upsert_user (some u) email hashed now db = (u.id, user_update u.id (as_demo hashed) db)

  -- `monitor.upsert`, for the monitor with the key or for none.
  abbrev pub upsert_monitor : Option Monitor → DemoEntry → ℕ → ℕ → Db → Db
  upsert_monitor none e owner now db = (monitor_create (demo_row e owner now) db).1
  upsert_monitor (some m) e owner now db = (monitor_update m.id (demo_values e) db).1

  unfoldable pub upsert_monitors : List DemoEntry → ℕ → ℕ → Db → Db
  upsert_monitors [] owner now db = db
  upsert_monitors (e ∷ es) owner now db =
      upsert_monitors es owner now
        (upsert_monitor (monitor_find_first (has_key owner e.seed_key) db) e owner now db)

  abbrev pub store_demo :
      (String → String) → String → String → List DemoEntry → ℕ → Exec Db (Unit {0})
  store_demo hash email password es now db =
      let (owner, db') =
        upsert_user (user_find_first (λ u. u.email == email) db) email (hash password) now db in
      (ok tt, upsert_monitors es owner now db')

  abbrev pub demo_checked :
      Result (Unit {0})
      → (String → String)
      → (String → Option String)
      → DemoManifest
      → ℕ
      → Exec Db (Unit {0})
  demo_checked (throw e) hash env manifest now db = (throw e, db)
  demo_checked (ok _) hash env manifest now db =
      store_demo hash (get_or (env "DEMO_USER_EMAIL") manifest.email)
        (get_or (env "DEMO_USER_PASSWORD") manifest.password) manifest.monitors now db

  -- `DemoSeed.seed`; `hash` is that of argon2.
  unfoldable pub seed_demo :
      (String → String) → (String → Option String) → DemoManifest → ℕ → Exec Db (Unit {0})
  unfolding upsert_monitors check_demo
  seed_demo hash env manifest now db =
      if has_room (demo_limit p (env "DEMO_MAX_MONITORS")) (length manifest.monitors)
      then demo_checked (check_demo p manifest.monitors) hash env manifest now db
      else (throw no_room, db)
