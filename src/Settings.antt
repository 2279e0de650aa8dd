-- ===== src/Settings.antt =====
-- The settings of the API: sentinel-api/src/common/config/cors-options.ts and production-env.ts. An
-- environment is a function; `decodeURIComponent` and the reading of a manifest file as JSON are
-- parameters, `none` where they throw.
pub mod Origins
pub mod Environment
mod Tests
use sentinel_project.Auth.{is_missing, validate_secret_key}
use sentinel_project.Base.{
  Bool, List, Option, String, [], all, any, false, filter, get_or, if◌then◌else◌, is_empty, is_some,
  map, nat_eq, none, not, opt_eq, some, string_eq, true, ◌&&◌, ◌==◌, ◌||◌, ◌∷◌,
}
use sentinel_project.Base.Json.{Fields, Items, Json, arr, cons, end, lookup, nil, number, obj, str}
use sentinel_project.Base.Number.{is_finite, lt_num, num}
use sentinel_project.Base.Result.{Exception, Result, error, ok, throw, ◌>>◌}
use sentinel_project.Base.Text.{Platform, Url, includes, is_blank, member, split, trim, ◌⋯◌}
use sentinel_project.Seed.{is_email}

abbrev Env : Type 0
Env = String → Option String

-- `origin`: the wildcard, or a list.
pub data Origin : Type 0 where
  wildcard : Origin
  listed : List String → Origin

abbrev pub filled : List String → List String
filled = filter (λ s. not (s == ""))

-- `value?.split(',').map((origin) => origin.trim()) ?? []`.
unfoldable pub entries : Option String → List String
unfolding split trim
entries none = []
entries (some s) = map trim (split s b',')

abbrev pub cors_error : Exception
cors_error = error "CORS_ORIGINS must contain explicit HTTP(S) origins in production"

abbrev pub is_bare : String → Url → Bool
is_bare origin u =
    member u.protocol ("http:" ∷ "https:" ∷ [])
    && (u.origin == origin && (u.username == "" && u.password == ""))

abbrev pub is_origin : Platform → String → Bool
is_origin p origin = elim (p.parse_url origin) [ none ↦ false | some u ↦ is_bare origin u ]

unfoldable pub production_origins : Platform → Option String → Result (List String)
unfolding entries includes
production_origins p value =
    let es = entries value in
    let origins = filled es in
    if is_empty origins || any (λ s. s == "") es || any (λ s. includes s "*") origins
    then throw cors_error
    else if all (is_origin p) origins
    then ok origins
    else throw cors_error

abbrev listed_result : Result (List String) → Result Origin
listed_result (ok os) = ok (listed os)
listed_result (throw e) = throw e

-- The credentials are allowed in each case.
unfoldable pub get_cors_options : Platform → Option String → Option String → Result Origin
unfolding production_origins entries
get_cors_options p cors_origins node_env =
    if opt_eq node_env (some "production")
    then listed_result (production_origins p cors_origins)
    else if is_missing cors_origins
    then ok wildcard
    else ok (listed (filled (entries cors_origins)))

abbrev pub required_settings : List String
required_settings =
    "DATABASE_URL" ∷ "SECRET_KEY" ∷ "DEMO_USER_EMAIL" ∷ "DEMO_USER_PASSWORD" ∷ "STATUS_OWNER_EMAIL"
    ∷ "CORS_ORIGINS" ∷ []

abbrev pub is_blank_setting : Option String → Bool
is_blank_setting none = true
is_blank_setting (some s) = is_blank s

unfoldable pub require_all : Env → List String → Result (Unit {0})
unfolding is_blank
require_all env [] = ok tt
require_all env (n ∷ ns) =
    let rest = require_all env ns in
    if is_blank_setting (env n) then throw (error (n ⋯ " is required in production")) else rest

abbrev url_error : Exception
url_error = error "DATABASE_URL must be a valid PostgreSQL connection URL with credentials"

abbrev decoded_password : Option String → Result (Unit {0})
decoded_password none = throw (error "DATABASE_URL contains invalid connection credentials")
decoded_password (some s) =
    if s == "postgres"
    then throw (error "DATABASE_URL must not use the known default PostgreSQL password")
    else ok tt

abbrev pub has_no_credentials : Url → Bool
has_no_credentials u =
    not (member u.protocol ("postgres:" ∷ "postgresql:" ∷ []))
    || u.hostname == ""
    || u.username == ""
    || u.password == ""

abbrev pub check_url : (String → Option String) → Option Url → Result (Unit {0})
check_url decode_uri none = throw (error "DATABASE_URL must be a valid PostgreSQL connection URL")
check_url decode_uri (some u) =
    if has_no_credentials u then throw url_error else decoded_password (decode_uri u.password)

unfoldable pub check_database : Platform → (String → Option String) → String → Result (Unit {0})
check_database p decode_uri url = check_url decode_uri (p.parse_url url)

unfoldable pub require_email : String → String → Result (Unit {0})
unfolding is_email
require_email name value =
    if is_email value then ok tt else throw (error (name ⋯ " must be a valid email address"))

abbrev text_filled : Option Json → Bool
text_filled (some (str s)) = not (is_blank s)
text_filled _ = false

abbrev is_object : Option Json → Bool
is_object (some (obj fs)) = true
is_object (some (arr xs)) = true
is_object _ = false

abbrev is_text : Option Json → Bool
is_text (some (str s)) = true
is_text _ = false

-- An integer above 0.
abbrev is_positive : Option Json → Bool
is_positive (some (number n)) = is_finite n && lt_num (num 0) n
is_positive _ = false

abbrev pub demo_manifest : String
demo_manifest = "DEMO_MONITORS_MANIFEST_PATH"

abbrev pub entry_error : String → Fields → Option Exception
entry_error name fs =
    if not (text_filled (lookup "seed_key" fs))
      || not (text_filled (lookup "name" fs))
      || not (text_filled (lookup "target" fs))
    then some (error (name ⋯ " contains an invalid seed entry"))
    else if name == demo_manifest
        && (not (is_text (lookup "check_type" fs))
            || not (is_object (lookup "check_config" fs))
            || not (is_positive (lookup "frequency" fs)))
    then some (error (name ⋯ " contains an invalid demo seed entry"))
    else if is_some (lookup "frequency" fs) && not (is_positive (lookup "frequency" fs))
    then some (error (name ⋯ " contains an invalid monitor frequency"))
    else none

-- An array or another value has none of the properties.
abbrev fields_of : Json → Fields
fields_of (obj fs) = fs
fields_of _ = end

unfoldable pub check_entries : String → Items → Result (Unit {0})
unfolding is_blank lookup
check_entries name nil = ok tt
check_entries name (cons j js) =
    let rest = check_entries name js in
    elim (entry_error name (fields_of j)) [ none ↦ rest | some e ↦ throw e ]

abbrev check_parsed : String → Option Json → Result (Unit {0})
check_parsed name none = throw (error (name ⋯ " must point to an available valid JSON manifest"))
check_parsed name (some (arr js)) = check_entries name js
check_parsed name (some j) = throw (error (name ⋯ " must point to a JSON array manifest"))

-- `configuredPath?.trim() || fallback`.
abbrev path_or : Option String → String → String
path_or none fallback = fallback
path_or (some s) fallback = if is_blank s then fallback else trim s

unfoldable pub validate_manifest :
    (String → Option Json) → String → Option String → String → Result (Unit {0})
unfolding check_entries
validate_manifest read name configured fallback =
    check_parsed name (read (path_or configured fallback))

abbrev done {ℓ} : {A : Type ℓ} → Exception → Result A → Result (Unit {0})
done e (ok a) = ok tt
done e (throw x) = throw e

abbrev void : Result String → Result (Unit {0})
void (ok a) = ok tt
void (throw x) = throw x

abbrev require_distinct : Platform → String → String → Result (Unit {0})
require_distinct p demo status =
    if p.to_lower demo == p.to_lower status
    then throw (error "STATUS_OWNER_EMAIL must be different from DEMO_USER_EMAIL")
    else ok tt

abbrev pub text : Env → String → String
text env n = get_or (env n) ""

-- The checks after `NODE_ENV` and the required settings.
unfoldable pub check_settings :
    Platform → (String → Option String) → (String → Option Json) → Env → Result (Unit {0})
unfolding check_database require_email validate_manifest get_cors_options
check_settings p decode_uri read env =
    check_database p decode_uri (text env "DATABASE_URL")
    >> void (validate_secret_key env)
    >> done (error "CORS_ORIGINS must contain only explicit valid HTTP(S) origins in production")
        (get_cors_options p (env "CORS_ORIGINS") (some "production"))
    >> require_email "DEMO_USER_EMAIL" (text env "DEMO_USER_EMAIL")
    >> require_email "STATUS_OWNER_EMAIL" (text env "STATUS_OWNER_EMAIL")
    >> require_distinct p (text env "DEMO_USER_EMAIL") (text env "STATUS_OWNER_EMAIL")
    >> validate_manifest read demo_manifest (env demo_manifest) "/app/demo-monitors.json"
    >> validate_manifest read "STATUS_MONITORS_MANIFEST_PATH" (env "STATUS_MONITORS_MANIFEST_PATH")
        "/app/status-monitors.json"

unfoldable pub validate_production_environment :
    Platform → (String → Option String) → (String → Option Json) → Env → Result (Unit {0})
unfolding require_all check_settings
validate_production_environment p decode_uri read env =
    if opt_eq (env "NODE_ENV") (some "production")
    then require_all env required_settings >> check_settings p decode_uri read env
    else ok tt
