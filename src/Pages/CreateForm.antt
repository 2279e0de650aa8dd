-- ===== src/Pages/CreateForm.antt =====
-- The values and the messages of the form for a new monitor:
-- frontend/src/features/monitors/CreateMonitorForm.tsx. The combinators of zod are read as the
-- tests that they are named for; the length of a text is in UTF-16 code units.
use sentinel_project.Base.{
  Bool, List, Option, String, [], any, false, if◌then◌else◌, leb, nat_eq, none, not, some,
  string_eq, true, ℕ, ◌&&◌, ◌+◌, ◌==◌, ◌||◌, ◌∷◌,
}
use sentinel_project.Base.Json.{Json, end, field, number, obj, str}
use sentinel_project.Base.Number.{Number, int, num, pos}
use sentinel_project.Base.Text.{Platform, Url, codes, ends_with, includes, is_blank_text}
use sentinel_project.Client.{ApiError}
use sentinel_project.Monitors.Dto.{CreateMonitorDto}
use sentinel_project.Target.{validate}

pub record CreateValues : Type 0 where
  pub name : String
  pub target : String
  pub frequency : Number

abbrev units_of : ℕ → ℕ
units_of c = if leb 65536 c then 2 else 1

abbrev pub units : List ℕ → ℕ
units [] = 0
units (c ∷ cs) = units_of c + units cs

-- The `protocol` and the `hostname` of the target, in the refinements.
abbrev has_web_protocol : Url → Bool
has_web_protocol u = u.protocol == "http:" || u.protocol == "https:"

abbrev has_public_name : Platform → Url → Bool
has_public_name p u =
    let hostname = p.to_lower u.hostname in
    not (hostname == "localhost") && not (ends_with hostname ".localhost")

abbrev allows : Platform → Option Url → Bool
allows p none = false
allows p (some u) = has_web_protocol u && has_public_name p u

unfoldable pub is_target : Platform → String → Bool
unfolding ends_with
is_target p s = not (is_blank_text s) && allows p (p.parse_url s)

abbrev is_name : String → Bool
is_name s = not (is_blank_text s) && leb (units (codes s)) 100

abbrev pub is_frequency : Number → Bool
is_frequency (int (pos n)) = leb 10 n
is_frequency _ = false

-- `createSchema`.
unfoldable pub is_valid : Platform → CreateValues → Bool
unfolding is_target
is_valid p v = is_name v.name && is_target p v.target && is_frequency v.frequency

unfoldable pub api_error_message : Platform → ApiError → String
unfolding includes
api_error_message p e =
    if e.status == 429
    then "Too many requests. Please wait before creating a monitor."
    else if e.status == 403
    then "You do not have permission to create this monitor."
    else if e.status == 409
    then "Your monitor limit has been reached."
    else if e.status == 400 || e.status == 422
    then if includes (p.to_lower e.message) "already exists"
      then "Target already exists"
      else "Check the monitor details and try again."
    else if leb 500 e.status
    then "The monitor service is temporarily unavailable. Try again in a moment."
    else "Unable to create this monitor. Check the details and try again."

-- `/[áéíóúñ¿¡]|error|debe|…/i`, on the text in lower case.
abbrev spanish_words : List String
spanish_words =
    "á" ∷ "é" ∷ "í" ∷ "ó" ∷ "ú" ∷ "ñ" ∷ "¿" ∷ "¡" ∷ "error" ∷ "debe" ∷ "deben" ∷ "inválid"
    ∷ "obligatori" ∷ "superior" ∷ "inferior" ∷ "mínim" ∷ "máxim" ∷ []

abbrev is_spanish : String → Bool
is_spanish s = any (includes s) spanish_words

abbrev default_message : String → String
default_message key =
    if key == "name"
    then "Enter a valid monitor name."
    else if key == "target"
    then "Enter a valid public HTTP or HTTPS URL."
    else "Choose a check frequency allowed for your account."

unfoldable pub field_error_message : Platform → String → String → String
unfolding includes
field_error_message p key detail =
    let lower = p.to_lower detail in
    if not (is_blank_text detail)
      && not (is_spanish lower)
      && (key == "frequency" && includes lower "greater than or equal to 10")
    then "value must be greater than or equal to 10"
    else default_message key

abbrev is_form_field : String → Bool
is_form_field key = key == "name" || key == "target" || key == "frequency"

-- The loop over the fields of the error.
unfoldable pub field_errors : Platform → List (String × String) → List (String × String)
unfolding field_error_message
field_errors p [] = []
field_errors p ((key, detail) ∷ rest) =
    let others = field_errors p rest in
    if is_form_field key then (key, field_error_message p key detail) ∷ others else others

abbrev pub whole : Number → Option ℕ
whole (int (pos n)) = some n
whole _ = none

-- `CHECKER_CONFIG_SCHEMA.http`.
abbrev http_config : Json
http_config = obj (
    field "expected_status" (number (num 200))
      (field "timeout" (number (num 10)) (field "method" (str "GET") end)))

-- What the form posts, for values that its schema accepts.
unfoldable pub posted_monitor : CreateValues → CreateMonitorDto
posted_monitor v = record {
  name = v.name;
  target = v.target;
  check_type = some "http";
  check_config = some http_config;
  frequency = whole v.frequency;
}

abbrev pub is_least : Option ℕ → Bool
is_least none = true
is_least (some n) = leb 10 n

-- The decorators of the API's `CreateMonitorDto`, which are tested before the service is called;
-- `size` is the length of a text as class-validator counts it.
unfoldable pub is_accepted_monitor : Platform → (String → ℕ) → CreateMonitorDto → Bool
is_accepted_monitor p size dto =
    not (is_blank_text dto.name)
    && leb 1 (size dto.name)
    && leb (size dto.name) 100
    && not (is_blank_text dto.target)
    && validate p (str dto.target)
    && is_least dto.frequency
