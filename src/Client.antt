-- ===== src/Client.antt =====
-- The API client: frontend/src/app/api/client.ts and frontend/src/lib/api/errors.ts. The response is
-- an input; `JSON.parse` and `String` on a JSON value are parameters.
pub mod Fetched
mod Tests
use sentinel_project.Auth.{is_missing}
use sentinel_project.Base.{
  Bool, List, Option, String, [], false, get_elem?, get_or, if◌then◌else◌, is_some, leb, nat_eq,
  none, not, some, string_eq, true, ℕ, ◌&&◌, ◌++◌, ◌==◌, ◌||◌, ◌∷◌,
}
use sentinel_project.Base.Json.{Fields, Items, Json, arr, cons, lookup, nil, null, obj, str}
use sentinel_project.Base.Number.{show}
use sentinel_project.Base.Result.{error}
use sentinel_project.Base.Text.{codes, includes, prefix_of, ◌⋯◌}
use sentinel_project.Session.{TokenStore, clear, read_through}

pub record Parser : Type 0 where
  pub parse_json : String → Option Json
  pub to_text : Json → String
  pub to_lower : String → String

-- The fields of an error with their messages, the last one written first.
pub record NormalizedDetail : Type 0 where
  pub message : Option String
  pub fields : List (String × String)

-- `[A-Za-z0-9_]`.
abbrev is_word : ℕ → Bool
is_word c = leb 48 c && leb c 57 || (leb 65 c && leb c 90 || (leb 97 c && leb c 122 || c == 95))

abbrev ends_word : Option ℕ → Bool
ends_word none = true
ends_word (some c) = not (is_word c)

-- The word `name` from some position on, where `prev` tells whether a word character is before it.
name_from : Bool → List ℕ → Bool
name_from prev [] = false
name_from prev (c ∷ cs) =
    not prev && (prefix_of (codes "name") (c ∷ cs) && ends_word (get_elem? (c ∷ cs) 4))
    || name_from (is_word c) cs

-- `/\bname\b/.test(s)`.
unfoldable pub has_name : String → Bool
unfolding name_from prefix_of
has_name s = name_from false (codes s)

-- A field is written where its test holds.
abbrev write : Bool → String → String → List (String × String) → List (String × String)
write b key text fields = if b then (key, text) ∷ fields else fields

unfoldable pub text_fields : String → String → List (String × String) → List (String × String)
unfolding has_name includes
text_fields lower text fields =
    let is_last_name = includes lower "last_name" || includes lower "last name" in
    write (not is_last_name && has_name lower) "name" text (
      write (includes lower "password") "password" text (
        write (includes lower "email") "email" text (
          write (includes lower "username") "username" text (
            write is_last_name "last_name" text (
              write (includes lower "frequency") "frequency" text
                (write (includes lower "target") "target" text fields))))))

last_item : Items → Option Json
last_item nil = none
last_item (cons j nil) = some j
last_item (cons j (cons k js)) = last_item (cons k js)

-- The field that a FastAPI error is about.
abbrev field_of : Parser → Option Json → String
field_of p none = "detail"
field_of p (some null) = "detail"
field_of p (some (arr js)) = elim (last_item js) [ none ↦ "detail" | some j ↦ p.to_text j ]
field_of p (some j) = p.to_text j

abbrev with_message :
    Parser → Fields → Option Json → List (String × String) → List (String × String)
with_message p fs none fields = fields
with_message p fs (some msg) fields = (field_of p (lookup "loc" fs), p.to_text msg) ∷ fields

abbrev add_item : Parser → Json → NormalizedDetail × List String → NormalizedDetail × List String
add_item p (str s) (d, messages) =
    (record d { fields = text_fields (p.to_lower s) s d.fields }, messages ++ s ∷ [])
add_item p (obj fs) (d, messages) =
    (record d { fields = with_message p fs (lookup "msg" fs) d.fields }, messages)
add_item p j (d, messages) = (d, messages)

-- The loop over the items.
unfoldable pub add_items :
    Parser → Items → NormalizedDetail × List String → NormalizedDetail × List String
unfolding text_fields lookup last_item
add_items p nil d = d
add_items p (cons j js) d = add_items p js (add_item p j d)

abbrev joined : List String → String
joined [] = ""
joined (s ∷ []) = s
joined (s ∷ t ∷ ss) = s ⋯ ". " ⋯ joined (t ∷ ss)

abbrev with_messages : NormalizedDetail × List String → NormalizedDetail
with_messages (d, []) = record d { message = none }
with_messages (d, (s ∷ ss)) = record d { message = some (joined (s ∷ ss)) }

abbrev no_detail : NormalizedDetail
no_detail = record { message = none; fields = [] }

unfoldable pub normalize_detail : Parser → Json → NormalizedDetail
unfolding add_items
normalize_detail p (str s) = record { message = some s; fields = [] }
normalize_detail p (arr js) = with_messages (add_items p js (no_detail, []))
normalize_detail p _ = no_detail

pub record ApiError : Type 0 where
  pub status : ℕ
  pub message : String
  pub fields : List (String × String)
  pub retry_after : Option String

-- The headers that the client reads or sets.
pub record Headers : Type 0 where
  pub authorization : Option String
  pub content_type : Option String

pub record Options : Type 0 where
  pub ignores_unauthorized : Bool
  pub anonymous : Bool

pub record Response : Type 0 where
  pub succeeded : Bool
  pub status : ℕ
  pub body : String
  pub retry_after : Option String

-- What `apiFetch` ends with: a value, nothing, an `ApiError`, or what `response.json()` throws.
pub data Outcome : Type 0 where
  content : Json → Outcome
  no_content : Outcome
  failed : ApiError → Outcome
  syntax_error : Outcome

-- `token && !headers.has("Authorization")`.
abbrev bearer_header : Option String → Option String → Option String
bearer_header token (some h) = some h
bearer_header token none = if is_missing token then none else some ("Bearer " ⋯ get_or token "")

unfoldable pub request_headers : Options → Option String → Bool → Headers → Headers
request_headers o token text_body h = record {
  authorization = if o.anonymous then none else bearer_header token h.authorization;
  content_type =
      if text_body && not (is_some h.content_type) then some "application/json" else h.content_type;
}

abbrev first_of : Option Json → Option Json → Option Json → Json
first_of (some m) d e = m
first_of none (some d) e = d
first_of none none e = get_or e null

-- The body's `message`, `detail` or `error`.
unfoldable pub detail_of : Option Json → Json
unfolding lookup
detail_of (some (obj fs)) = first_of (lookup "message" fs) (lookup "detail" fs) (lookup "error" fs)
detail_of _ = null

abbrev pub too_many : String
too_many = "Too many requests. Please wait a moment before trying again."

-- An empty message is taken for none.
abbrev limited_message : Option String → String
limited_message none = too_many
limited_message (some m) = if m == "" || includes m "ThrottlerException" then too_many else m

unfoldable pub error_message : ℕ → Option String → String
unfolding includes show
error_message status message =
    if status == 429 then limited_message message else get_or message ("API error " ⋯ show status)

abbrev parsed_body : Parser → String → Option Json
parsed_body p body = if body == "" then none else p.parse_json body

unfoldable pub error_of : Parser → Response → ApiError
unfolding detail_of normalize_detail error_message
error_of p r =
    let normalized = normalize_detail p (detail_of (parsed_body p r.body)) in
    record {
      status = r.status;
      message = error_message r.status normalized.message;
      fields = normalized.fields;
      retry_after = r.retry_after;
    }

abbrev json_value : Option Json → Outcome
json_value none = syntax_error
json_value (some j) = content j

unfoldable pub outcome : Parser → Response → Outcome
unfolding error_of
outcome p r =
    let parsed = json_value (p.parse_json r.body) in
    let error = failed (error_of p r) in
    if r.succeeded then if r.status == 204 then no_content else parsed else error

-- A 401 that ends the session.
unfoldable pub ends_session : Options → Response → Bool
ends_session o r =
    not r.succeeded && (r.status == 401 && (not o.anonymous && not o.ignores_unauthorized))

-- What `apiFetch` does to the store: it reads it, unless the request is anonymous, and clears it
-- where the session ends.
unfoldable pub store_after : Options → Response → TokenStore → TokenStore
unfolding ends_session read_through clear
store_after o r s =
    let seen = if o.anonymous then s else read_through s in
    if ends_session o r then clear seen else seen
