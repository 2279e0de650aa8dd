-- ===== src/Pages/LoginPage.antt =====
-- Signing in: frontend/src/features/login/LoginPage.tsx, and the redirection to it in
-- frontend/src/app/auth/guards.tsx. The calls of `login` and `demoLogin` are requests with an
-- answer.
use mathlib.Core.Option
use sentinel_project.Base.{
  Bool, List, Option, String, [], false, if◌then◌else◌, none, not, some, true, ◌&&◌, ◌∷◌,
}
use sentinel_project.Base.Json.{Json, bool, end, field, lookup, obj, str}
use sentinel_project.Base.Text.{is_blank_text}
use sentinel_project.Client.{ApiError}
use sentinel_project.Pages.{Reply, has_status, rejected, succeeded}

pub data Operation : Type 0 where
  login : Operation
  demo : Operation

-- The state of the router's location that `RequireAuth` sets, with the attempted path.
abbrev pub redirect_state : String → Json
redirect_state pathname = obj (field "from" (str pathname) end)

abbrev is_json_true : Option Json → Bool
is_json_true (some (bool b)) = b
is_json_true _ = false

unfoldable pub account_created : Json → Bool
unfolding lookup
account_created (obj fs) = is_json_true (lookup "accountCreated" fs)
account_created _ = false

abbrev text_or_root : Option Json → String
text_or_root (some (str s)) = s
text_or_root _ = "/"

-- `from`.
unfoldable pub destination : Json → String
unfolding lookup
destination (obj fs) = text_or_root (lookup "from" fs)
destination _ = "/"

-- The state and the references of the page, the requests that have no answer yet, and where it
-- navigated to, the last place first. `root_error` is the last one that was set.
pub record LoginPage : Type 0 where
  pub active_operation : Option Operation
  pub demo_error : Option String
  pub root_error : Option String
  pub busy : Bool
  pub owns_navigation : Bool
  pub running : List Operation
  pub navigated : List String

abbrev pub opened : LoginPage
opened = record {
  active_operation = none;
  demo_error = none;
  root_error = none;
  busy = false;
  owns_navigation = false;
  running = [];
  navigated = [];
}

abbrev pub demo_message : Option ApiError → String
demo_message e =
    if has_status 503 e
    then "Demo access is currently unavailable. Please try again later."
    else "Unable to sign in to the demo right now. Please try again."

abbrev pub login_message : Option ApiError → String
login_message e = if has_status 401 e then "Invalid credentials or email" else "API unreachable"

abbrev begin : Operation → LoginPage → LoginPage
begin o s = record s {
  busy = true;
  active_operation = some o;
  owns_navigation = true;
  running = o ∷ s.running;
}

abbrev pub on_demo_login : LoginPage → LoginPage
on_demo_login s = if s.busy then s else record (begin demo s) { demo_error = none }

-- The schema of the form, then `onSubmit`.
abbrev pub is_login : String → String → Bool
is_login username password = not (is_blank_text username) && not (is_blank_text password)

abbrev pub submit_login : String → String → LoginPage → LoginPage
submit_login username password s =
    if is_login username password && not s.busy then begin login s else s

-- The `finally` of both.
abbrev finish : LoginPage → LoginPage
finish s = record s { busy = false; active_operation = none }

abbrev pub settle_login : String → Operation → Reply → LoginPage → LoginPage
settle_login from o succeeded s = finish (record s { navigated = from ∷ s.navigated })
settle_login from demo (rejected e) s = finish (record s { demo_error = some (demo_message e) })
settle_login from login (rejected e) s = finish (record s { root_error = some (login_message e) })

abbrev is_op : Operation → Operation → Bool
is_op login login = true
is_op demo demo = true
is_op _ _ = false

-- The request, where it is there, is no longer without an answer.
abbrev pub without_op : Operation → List Operation → Option (List Operation)
without_op o [] = none
without_op o (x ∷ xs) = if is_op o x then some xs else Option.map (λ ys. x ∷ ys) (without_op o xs)

abbrev pub answer_to : String → Operation → Reply → Option (List Operation) → LoginPage → LoginPage
answer_to from o a none s = s
answer_to from o a (some rest) s = settle_login from o a (record s { running = rest })

pub data LoginEvent : Type 0 where
  demo_clicked : LoginEvent
  login_submitted : String → String → LoginEvent
  login_answered : Operation → Reply → LoginEvent
  authentication_seen : Bool → LoginEvent

-- `authentication_seen` is the effect that runs after a render with `isAuthenticated`.
unfoldable pub handle_login : String → LoginEvent → LoginPage → LoginPage
handle_login from demo_clicked s = on_demo_login s
handle_login from (login_submitted username password) s = submit_login username password s
handle_login from (login_answered o a) s = answer_to from o a (without_op o s.running) s
handle_login from (authentication_seen b) s =
    if b && not s.owns_navigation then record s { navigated = "/" ∷ s.navigated } else s

unfoldable pub handle_logins : String → List LoginEvent → LoginPage → LoginPage
unfolding handle_login
handle_logins from [] s = s
handle_logins from (e ∷ es) s = handle_logins from es (handle_login from e s)
