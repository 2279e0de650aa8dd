-- ===== src/Auth.antt =====
-- Authentication: sentinel-api/src/auth/auth.service.ts, auth/guards/jwt-auth.guard.ts,
-- auth/strategies/jwt.strategy.ts and auth/utils/secret-validator.ts. The signing of a token and the
-- verification of a password are parameters.
pub mod Login
pub mod Guards
mod Tests
use sentinel_project.Base.{
  Bool, List, Option, String, [], false, get_or, if◌then◌else◌, nat_eq, none, not, some, string_eq,
  true, ◌&&◌, ◌==◌, ◌||◌, ◌∷◌,
}
use sentinel_project.Base.Result.{
  Exception, Result, bad_request, error, ok, throw, unauthorized, unavailable,
}
use sentinel_project.Base.Text.{member, trim, ◌⋯◌}
use sentinel_project.Db.{Prisma, User}
use sentinel_project.Monitors.{is_demo}
use sentinel_project.Users.{Argon, find_by_email, find_by_username}
use sentinel_project.Users.Samples.{argon}

pub record Token : Type 0 where
  pub access_token : String
  pub token_type : String

-- The payload of a token; `is_demo` is left out for a user who is no demo user.
pub record Payload : Type 0 where
  pub sub : String
  pub is_demo : Option Bool

-- `!s`: null, undefined or empty.
abbrev pub is_missing : Option String → Bool
is_missing none = true
is_missing (some s) = s == ""

-- `argon2.verify` in its `try`.
abbrev pub accepts : Result Bool → Bool
accepts (ok b) = b
accepts (throw e) = false

abbrev pub payload_of : User → Payload
payload_of u = record { sub = u.email; is_demo = if u.is_demo then some true else none }

abbrev pub bearer : (Payload → String → String) → Payload → String → Token
bearer sign p minutes = record { access_token = sign p (minutes ⋯ "m"); token_type = "bearer" }

-- The life of a token, in minutes.
abbrev pub expire_minutes : (String → Option String) → User → String
expire_minutes config u =
    if u.is_demo
    then get_or (config "DEMO_ACCESS_TOKEN_EXPIRE_MINUTES") "15"
    else get_or (config "ACCESS_TOKEN_EXPIRE_MINUTES") "30"

module _ (prisma : Prisma) (argon : Argon) (sign : Payload → String → String)
    (config : String → Option String) where
  open prisma use {Db}

  abbrev identify : Option User → String → Db → Option User
  identify (some u) login db = some u
  identify none login db = find_by_username prisma login db

  -- The user who is found, if the password is his.
  abbrev pub confirmed : Option User → String → Option User
  confirmed none pass = none
  confirmed (some u) pass = if accepts (argon.verify u.password pass) then some u else none

  unfoldable pub authenticate_user : String → String → Db → Option User
  authenticate_user login pass db =
      confirmed (identify (find_by_email prisma login db) login db) pass

  abbrev pub answer_login : Option User → Result Token
  answer_login none = throw (unauthorized "Incorrect username or password")
  answer_login (some u) = ok (bearer sign (payload_of u) (expire_minutes config u))

  unfoldable pub login : String → String → Db → Result Token
  unfolding authenticate_user
  login identifier pass db = answer_login (authenticate_user identifier pass db)

  abbrev pub demo_user : Option User → Result Token
  demo_user none = throw (unavailable "Configured demo account is unavailable")
  demo_user (some u) =
      if not u.is_active || not u.is_demo
      then throw (unavailable "Configured demo account is unavailable")
      else ok (
          bearer sign (record { sub = u.email; is_demo = some true })
            (get_or (config "DEMO_ACCESS_TOKEN_EXPIRE_MINUTES") "15"))

  unfoldable pub demo_login : Db → Result Token
  demo_login db =
      if is_missing (config "DEMO_USER_EMAIL")
      then throw (unavailable "Demo account is not configured")
      else demo_user (find_by_email prisma (get_or (config "DEMO_USER_EMAIL") "") db)

module _ (prisma : Prisma) where
  abbrev pub active_user : Option User → Result User
  active_user none = throw (unauthorized "Could not validate credentials")
  active_user (some u) = if not u.is_active then throw (bad_request "Inactive user") else ok u

  -- `JwtStrategy.validate`, on a payload that Passport has verified.
  unfoldable pub validate_payload : Payload → prisma.Db → Result User
  validate_payload payload db =
      if payload.sub == ""
      then throw (unauthorized "Could not validate credentials")
      else active_user (find_by_email prisma payload.sub db)

-- `getAllAndOverride`: the handler's metadata, and else the controller's.
abbrev is_public_route : Option Bool → Option Bool → Bool
is_public_route handler controller = get_or handler (get_or controller false)

-- `canActivate`; `super.canActivate` is a parameter.
unfoldable pub can_activate {ℓ} : {A : Type ℓ} → Option Bool → Option Bool → (Bool → A) → A → A
can_activate handler controller allow passport =
    if is_public_route handler controller then allow true else passport

-- `handleRequest`: the error where there is one, and else the user.
unfoldable pub handle_request : Option Exception → Option User → Result User
handle_request (some e) user = throw e
handle_request none none = throw (unauthorized "Not authenticated")
handle_request none (some u) = ok u

abbrev pub insecure_default_secrets : List String
insecure_default_secrets =
    "default-secret-key" ∷ "change-me-secret-key-sentinel" ∷ "change-me-to-a-random-secret" ∷ []

abbrev pub is_default_or_empty : Option String → Bool
is_default_or_empty none = true
is_default_or_empty (some s) = s == "" || (trim s == "" || member (trim s) insecure_default_secrets)

unfoldable pub validate_secret_key : (String → Option String) → Result String
validate_secret_key config =
    let secret = config "SECRET_KEY" in
    let production = get_or (config "NODE_ENV") "development" == "production" in
    if production && is_default_or_empty secret
    then throw (
        error
          "FATAL: In production, SECRET_KEY environment variable is mandatory and cannot be a default or placeholder value.")
    else ok (if is_missing secret then "default-secret-key" else get_or secret "")
