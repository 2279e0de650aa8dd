-- ===== src/Auth/Tests.antt =====
-- Logins over the client in memory, and the theorems at them.
use sentinel_project.Auth.{Payload, Token, bearer, login, validate_payload}
use sentinel_project.Auth.Guards.{validate_payload-IsActive}
use sentinel_project.Auth.Login.{IsLoggedIn, login-IsLoggedIn, register_login, session}
use sentinel_project.Base.{
  Option, String, [], arith, eq_iff, find, get_or, if◌then◌else◌, nat_eq, none, refl, some,
  string_eq, true, ◌==◌, ◌∷◌, ◌≡◌, ◌≢◌,
}
use sentinel_project.Base.Result.{ok}
use sentinel_project.Base.Text.{◌⋯◌}
use sentinel_project.Db.{Tables, User}
use sentinel_project.Db.Memory.{memory}
use sentinel_project.Users.{create, has_email, user_response, user_row}
use sentinel_project.Users.Samples.{ada, argon, empty, registered, registers}

abbrev sign : Payload → String → String
sign p life = p.sub ⋯ life

abbrev config : String → Option String
config s =
    if s == "DEMO_USER_EMAIL"
    then some "demo@example.com"
    else if s == "NODE_ENV"
    then some "production"
    else if s == "SECRET_KEY"
    then some "a long key"
    else none

abbrev after : Tables
after = record empty { users = user_row ada "secret12" 7 1 ∷ [] }

abbrev demo : User
demo = record (user_row ada "secret12" 7 1) { email = "demo@example.com"; is_demo = true }

abbrev with_demo : Tables
with_demo = record empty { users = demo ∷ [] }

abbrev ada_token : Token
ada_token = record { access_token = "ada@example.com30m"; token_type = "bearer" }

abbrev demo_token : Token
demo_token = record { access_token = "demo@example.com15m"; token_type = "bearer" }

login-IsLoggedIn_example : IsLoggedIn memory argon sign config "ada" "secret12" after ada_token
unfolding login
login-IsLoggedIn_example =
    login-IsLoggedIn memory argon sign config "ada" "secret12" after ada_token refl

register_login_example :
    (login memory argon sign config ada.email ada.password (create memory argon.hash ada 7 empty).1
      ≡ ok (bearer sign (session ada.email) (get_or (config "ACCESS_TOKEN_EXPIRE_MINUTES") "30")))
    × (u : User) × (validate_payload memory
          (session ada.email)
          (create memory argon.hash ada 7 empty).1
        ≡ ok u)
    × (user_response u ≡ registered)
register_login_example =
    register_login memory argon sign config ada 7 empty registered registers
      (λ e. ground (arith, (eq_iff ada.email "").1 e))

validate_payload-IsActive_example :
    (demo.email ≢ "")
    × (find (has_email "demo@example.com") with_demo.users ≡ some demo)
    × (demo.email ≡ "demo@example.com")
    × (demo.is_active ≡ true)
unfolding validate_payload
validate_payload-IsActive_example =
    validate_payload-IsActive memory (record { sub = "demo@example.com"; is_demo = some true })
      with_demo demo refl
