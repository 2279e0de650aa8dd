-- ===== src/Client/Tests.antt =====
-- Two answers and the theorems at them.
use sentinel_project.Base.{
  false, if◌then◌else◌, nat_eq, none, refl, some, string_eq, true, ◌==◌, ◌≡◌,
}
use sentinel_project.Base.Json.{end, field, obj, str}
use sentinel_project.Client.{Headers, Options, Parser, Response, has_name, store_after}
use sentinel_project.Client.Fetched.{Keeps, store_after-Keeps}
use sentinel_project.Session.{TokenStore}

abbrev parser : Parser
parser = record {
  parse_json = λ s.
      if s == "{}"
      then some (obj (field "message" (str "ThrottlerException: Too Many Requests") end))
      else none;
  to_text = λ j. "";
  to_lower = λ s. s;
}

abbrev refused_answer : Response
refused_answer = record { succeeded = false; status = 401; body = ""; retry_after = none }

abbrev limited_answer : Response
limited_answer = record { succeeded = false; status = 429; body = "{}"; retry_after = some "60" }

abbrev with_session : Options
with_session = record { ignores_unauthorized = false; anonymous = false }

abbrev without_session : Options
without_session = record { ignores_unauthorized = false; anonymous = true }

abbrev store : TokenStore
store = record { token = some "t"; restored = true; stored = some "t"; available = true }

abbrev no_headers : Headers
no_headers = record { authorization = none; content_type = none }

name_test : has_name "the name is empty" ≡ true
unfolding has_name
name_test = refl

username_test : has_name "username taken" ≡ false
unfolding has_name
username_test = refl

store_after-Keeps_example :
    Keeps with_session refused_answer store (store_after with_session refused_answer store)
store_after-Keeps_example = store_after-Keeps with_session refused_answer store
