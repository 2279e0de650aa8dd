-- ===== src/Pages/RegisterPage.antt =====
-- The page for a new account: frontend/src/features/register/RegisterPage.tsx. The calls of
-- `registerUser` and `demoLogin` are requests with an answer.
use mathlib.Core.Option
use sentinel_project.Base.{
  Bool, List, Option, String, [], false, if◌then◌else◌, nat_eq, none, not, some, string_eq, true,
  ◌&&◌, ◌==◌, ◌∷◌,
}
use sentinel_project.Base.Text.{Platform, includes}
use sentinel_project.Client.{ApiError}
use sentinel_project.Pages.{Reply, rejected, succeeded}
use sentinel_project.Pages.RegisterForm.{
  RegisterValues, field_errors, is_registration, registration_message,
}

pub data RegisterOperation : Type 0 where
  registration : RegisterOperation
  demo_access : RegisterOperation

-- Where the page goes, and whether it says that an account was created.
abbrev pub Place : Type 0
Place = String × Bool

pub record RegisterPage : Type 0 where
  pub demo_submitting : Bool
  pub demo_error : Option String
  pub root_error : Option String
  pub errors : List (String × String)
  pub busy : Bool
  pub running : List RegisterOperation
  pub navigated : List Place

abbrev pub blank_page : RegisterPage
blank_page = record {
  demo_submitting = false;
  demo_error = none;
  root_error = none;
  errors = [];
  busy = false;
  running = [];
  navigated = [];
}

abbrev pub submit_registration : Bool → RegisterPage → RegisterPage
submit_registration valid s =
    if valid && not s.busy then record s { busy = true; running = registration ∷ s.running } else s

abbrev pub on_demo : RegisterPage → RegisterPage
on_demo s = if s.busy then s else record s {
  busy = true;
  demo_submitting = true;
  demo_error = none;
  running = demo_access ∷ s.running;
}

-- The errors that the form shows for a failure, and its root error, where it sets one.
unfoldable pub failure : Platform → Option ApiError → List (String × String) × Option String
unfolding includes
failure p none = ([], some (registration_message p none))
failure p (some e) =
    let raw = p.to_lower e.message in
    if e.status == 400
    then if includes raw "email already registered"
      then (("email", "Email already registered") ∷ [], none)
      else if includes raw "username already taken"
      then (("username", "Username already taken") ∷ [], none)
      else (field_errors e.fields, some (registration_message p (some e)))
    else ([], some (registration_message p (some e)))

abbrev pub settle_registration : Platform → RegisterOperation → Reply → RegisterPage → RegisterPage
settle_registration p registration succeeded s = record s {
  busy = false;
  navigated = ("/login", true) ∷ s.navigated;
}
settle_registration p registration (rejected e) s = record s {
  busy = false;
  errors = (failure p e).0;
  root_error = (failure p e).1;
}
settle_registration p demo_access succeeded s = record s {
  busy = false;
  demo_submitting = false;
  navigated = ("/", false) ∷ s.navigated;
}
settle_registration p demo_access (rejected e) s = record s {
  busy = false;
  demo_submitting = false;
  demo_error = some "Unable to open the demo right now. Please try again.";
}

abbrev same_operation : RegisterOperation → RegisterOperation → Bool
same_operation registration registration = true
same_operation demo_access demo_access = true
same_operation _ _ = false

abbrev pub settled_operation :
    RegisterOperation → List RegisterOperation → Option (List RegisterOperation)
settled_operation o [] = none
settled_operation o (x ∷ xs) =
    if same_operation o x then some xs else Option.map (λ ys. x ∷ ys) (settled_operation o xs)

abbrev pub registration_answer :
    Platform
    → RegisterOperation
    → Reply
    → Option (List RegisterOperation)
    → RegisterPage
    → RegisterPage
registration_answer p o a none s = s
registration_answer p o a (some rest) s = settle_registration p o a (record s { running = rest })

pub data RegisterEvent : Type 0 where
  register_submitted : RegisterValues → RegisterEvent
  register_demo : RegisterEvent
  register_answered : RegisterOperation → Reply → RegisterEvent

unfoldable pub handle_register :
    Platform → (String → Bool) → RegisterEvent → RegisterPage → RegisterPage
handle_register p is_email (register_submitted v) s =
    submit_registration (is_registration is_email v) s
handle_register p is_email register_demo s = on_demo s
handle_register p is_email (register_answered o a) s =
    registration_answer p o a (settled_operation o s.running) s

unfoldable pub handle_registers :
    Platform → (String → Bool) → List RegisterEvent → RegisterPage → RegisterPage
unfolding handle_register
handle_registers p is_email [] s = s
handle_registers p is_email (e ∷ es) s =
    handle_registers p is_email es (handle_register p is_email e s)
