-- ===== src/Settings/Tests.antt =====
-- An environment of production, and the theorems at it.
use sentinel_project.Auth.{validate_secret_key}
use sentinel_project.Base.{
  Option, String, if◌then◌else◌, nat_eq, none, refl, some, string_eq, ◌==◌, ◌≡◌,
}
use sentinel_project.Base.Json.{Json, arr, nil}
use sentinel_project.Base.Number.{nan}
use sentinel_project.Base.Result.{ok}
use sentinel_project.Base.Text.{Platform, Url, is_blank, member, trim}
use sentinel_project.Seed.{is_email}
use sentinel_project.Settings.{entries, validate_production_environment}
use sentinel_project.Settings.Environment.{IsAccepted, validate_production_environment-IsAccepted}

abbrev url : String → Url
url protocol = record {
  protocol = protocol;
  hostname = "db";
  origin = "https://localhost";
  username = "";
  password = "";
}

abbrev known : String → Option Url
known s =
    if s == "https://localhost"
    then some (url "https:")
    else if s == "postgres://"
    then some (record (url "postgres:") { username = "sentinel"; password = "pw" })
    else none

abbrev platform : Platform
platform = record {
  parse_url = known;
  to_lower = λ s. s;
  to_number = λ s. nan;
  parse_date = λ s. none;
}

abbrev env : String → Option String
env n =
    if n == "NODE_ENV"
    then some "production"
    else if n == "DATABASE_URL"
    then some "postgres://"
    else if n == "SECRET_KEY"
    then some "a long key"
    else if n == "DEMO_USER_EMAIL"
    then some "demo@example.com"
    else if n == "DEMO_USER_PASSWORD"
    then some "secret12"
    else if n == "STATUS_OWNER_EMAIL"
    then some "status@example.com"
    else if n == "CORS_ORIGINS"
    then some "https://localhost"
    else none

abbrev decode_uri : String → Option String
decode_uri s = some s

abbrev read : String → Option Json
read path = some (arr nil)

accepts : validate_production_environment platform decode_uri read env ≡ ok tt
unfolding validate_production_environment validate_secret_key is_blank trim member entries is_email
accepts = refl

validate_production_environment-IsAccepted_example : IsAccepted platform decode_uri env
validate_production_environment-IsAccepted_example =
    validate_production_environment-IsAccepted platform decode_uri read env refl accepts
