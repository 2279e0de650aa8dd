-- ===== src/Seed.antt =====
-- The publication of status monitors: sentinel-api/src/status/status-seed.ts. The manifest has been
-- parsed into entries, so that the tests of `typeof` hold by their types. The transaction is read as
-- a sequence of calls; that the database refuses one, and the `catch` for it, is not represented.
pub mod Publication
pub mod Manifest
mod Tests
use sentinel_project.Base.{
  Bool, List, Option, String, [], any, false, get_or, if◌then◌else◌, is_empty, map, nat_eq, none,
  not, opt_eq, some, string_eq, true, ℕ, ◌&&◌, ◌==◌, ◌||◌, ◌∷◌,
}
use sentinel_project.Base.Json.{end, obj, str}
use sentinel_project.Base.Number.{Number, int, is_finite, le_num, num, pos}
use sentinel_project.Base.Result.{Exec, Result, bad_request, ok, throw}
use sentinel_project.Base.Text.{Platform, codes, is_blank, is_space, member, split, ◌⋯◌}
use sentinel_project.Db.{Monitor, Prisma, User}
use sentinel_project.Monitors.{is_demo, user_id}
use sentinel_project.Target.{validate}

pub record SeedEntry : Type 0 where
  pub seed_key : String
  pub name : String
  pub target : String
  pub frequency : Option Number

abbrev disabled_owner_password : String
disabled_owner_password = "STATUS_SEED_DISABLED_PASSWORD_SENTINEL"

abbrev bad_frequency : Option Number → Bool
bad_frequency none = false
bad_frequency (some n) = not (is_finite n) || le_num n (num 0)

-- The entry is rejected, where the keys before it are `seen`.
unfoldable pub is_invalid : Platform → List String → SeedEntry → Bool
unfolding is_blank member
is_invalid p seen e =
    is_blank e.seed_key
    || member e.seed_key seen
    || is_blank e.name
    || not (validate p (str e.target))
    || bad_frequency e.frequency

-- The loop over the manifest.
unfoldable pub check_manifest : Platform → List String → List SeedEntry → Result (Unit {0})
unfolding is_invalid
check_manifest p seen [] = ok tt
check_manifest p seen (e ∷ es) =
    let rest = check_manifest p (e.seed_key ∷ seen) es in
    if is_invalid p seen e
    then throw (bad_request ("Invalid status monitor manifest entry: " ⋯ e.seed_key))
    else rest

-- A dot that is neither the first nor the last of the characters.
dot_before_last : List ℕ → Bool
dot_before_last [] = false
dot_before_last (c ∷ []) = false
dot_before_last (c ∷ d ∷ cs) = c == b'.' || dot_before_last (d ∷ cs)

abbrev has_inner_dot : List ℕ → Bool
has_inner_dot [] = false
has_inner_dot (c ∷ cs) = dot_before_last cs

abbrev two_parts : List String → Bool
two_parts (local ∷ domain ∷ []) = not (local == "") && has_inner_dot (codes domain)
two_parts _ = false

-- `/^[^\s@]+@[^\s@]+\.[^\s@]+$/`.
unfoldable pub is_email : String → Bool
unfolding dot_before_last split is_space
is_email s = not (any is_space (codes s)) && two_parts (split s b'@')

abbrev frequency_of : Option Number → ℕ
frequency_of (some (int (pos n))) = n
frequency_of _ = 60

-- `values`, written over a row.
abbrev pub seeded : SeedEntry → Monitor → Monitor
seeded e m = record m {
  name = e.name;
  target = e.target;
  frequency = frequency_of e.frequency;
  state = "Active";
  check_type = "http";
  check_config = some (obj end);
  consecutive_failures = 0;
  is_public = true;
}

abbrev pub seeded_row : SeedEntry → ℕ → ℕ → ℕ → Monitor
seeded_row e owner now i = record {
  id = i;
  name = e.name;
  target = e.target;
  frequency = frequency_of e.frequency;
  state = "Active";
  created_at = now;
  check_type = "http";
  check_config = some (obj end);
  last_state = none;
  last_checked_at = none;
  consecutive_failures = 0;
  user_id = owner;
  seed_key = some e.seed_key;
  is_public = true;
}

abbrev pub owner_row : String → ℕ → ℕ → User
owner_row email now i = record {
  id = i;
  name = "Public Status";
  last_name = "Owner";
  username = email;
  email = email;
  password = disabled_owner_password;
  phonenumber = none;
  created_at = now;
  updated_at = now;
  status = some "Active";
  is_active = false;
  is_demo = false;
}

abbrev pub has_key : ℕ → String → Monitor → Bool
has_key owner key m = m.user_id == owner && opt_eq m.seed_key (some key)

abbrev pub in_keys : List String → Option String → Bool
in_keys keys none = false
in_keys keys (some k) = member k keys

-- The `where` of the reconciliation: the public monitors that the manifest does not name.
unfoldable pub is_withdrawn : ℕ → List SeedEntry → Monitor → Bool
is_withdrawn owner es m =
    m.is_public
    && (is_empty es
        || not (m.user_id == owner)
        || not (in_keys (map (λ e. e.seed_key) es) m.seed_key))

abbrev pub hide : Monitor → Monitor
hide m = record m { is_public = false }

abbrev taken_over : User → Bool
taken_over u = u.is_demo || u.is_active || not (u.password == disabled_owner_password)

module _ (p : Platform) (c : Prisma) where
  open c use {
    Db, monitor_find_first, monitor_create, monitor_update, monitor_update_many, user_find_first,
    user_create,
  }

  -- `upsert`, for the monitor that has the key or for none.
  abbrev pub store_entry : Option Monitor → SeedEntry → ℕ → ℕ → Db → Db
  store_entry none e owner now db = (monitor_create (seeded_row e owner now) db).1
  store_entry (some m) e owner now db = (monitor_update m.id (seeded e) db).1

  unfoldable pub upsert_all : List SeedEntry → ℕ → ℕ → Db → Db
  upsert_all [] owner now db = db
  upsert_all (e ∷ es) owner now db =
      upsert_all es owner now
        (store_entry (monitor_find_first (has_key owner e.seed_key) db) e owner now db)

  -- The transaction, for an owner who is there: the monitors, then the reconciliation.
  unfoldable pub publish : List SeedEntry → ℕ → ℕ → Db → Result ℕ × Db
  unfolding upsert_all is_withdrawn
  publish es owner now db =
      let (hidden, db') =
        monitor_update_many (is_withdrawn owner es) hide (upsert_all es owner now db) in
      (ok hidden, db')

  unfoldable pub with_owner : Option User → String → List SeedEntry → ℕ → Exec Db ℕ
  unfolding publish
  with_owner none email es now db =
      let (u, db') = user_create (owner_row email now) db in publish es u.id now db'
  with_owner (some u) email es now db =
      if taken_over u
      then (
        throw (
            bad_request (
              "STATUS_OWNER_EMAIL " ⋯ email
              ⋯ " already belongs to an account; refusing to take it over")),
        db,
      )
      else publish es u.id now db

  abbrev same_email : String → Option String → Bool
  same_email a none = false
  same_email a (some b) = p.to_lower a == p.to_lower b

  -- Without an owner, all monitors are hidden.
  unfoldable pub hide_all : Db → Result ℕ × Db
  hide_all db =
      let (hidden, db') = monitor_update_many (λ m. m.is_public) hide db in (ok hidden, db')

  unfoldable pub seed_for : (String → Option String) → String → List SeedEntry → ℕ → Exec Db ℕ
  unfolding is_email with_owner hide_all
  seed_for env email es now db =
      if email == ""
      then hide_all db
      else if not (is_email email)
      then (throw (bad_request "STATUS_OWNER_EMAIL must be a valid email address"), db)
      else if same_email email (env "DEMO_USER_EMAIL")
      then (throw (bad_request "STATUS_OWNER_EMAIL must be different from DEMO_USER_EMAIL"), db)
      else with_owner (user_find_first (λ u. u.email == email) db) email es now db

  abbrev seed_checked :
      Result (Unit {0}) → (String → Option String) → List SeedEntry → ℕ → Exec Db ℕ
  seed_checked (throw e) env es now db = (throw e, db)
  seed_checked (ok _) env es now db = seed_for env (get_or (env "STATUS_OWNER_EMAIL") "") es now db

  unfoldable pub seed : (String → Option String) → List SeedEntry → ℕ → Exec Db ℕ
  unfolding check_manifest seed_for
  seed env es now db = seed_checked (check_manifest p [] es) env es now db
