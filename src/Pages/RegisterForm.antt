-- ===== src/Pages/RegisterForm.antt =====
-- The values and the messages of the form for a new account:
-- frontend/src/features/register/RegisterPage.tsx; and what the API asks of what it posts:
-- sentinel-api/src/users/dto/create-user.dto.ts. The combinators of zod and the decorators of
-- class-validator are read as the tests that they are named for; zod counts UTF-16 code units. What
-- class-validator counts as the length of a text, and what each takes for an address of e-mail, are
-- parameters.
use sentinel_project.Base.{
  Bool, List, Option, String, [], all, any, if◌then◌else◌, is_empty, leb, length, nat_eq, none, not,
  some, string_eq, ℕ, ◌&&◌, ◌==◌, ◌||◌, ◌∷◌,
}
use sentinel_project.Base.Text.{Platform, codes, includes, is_blank, is_blank_text, trim}
use sentinel_project.Client.{ApiError}
use sentinel_project.Pages.CreateForm.{units}
use sentinel_project.Users.{CreateUserDto}

pub record RegisterValues : Type 0 where
  pub name : String
  pub last_name : String
  pub username : String
  pub email : String
  pub password : String
  pub confirm_password : String

abbrev is_figure : ℕ → Bool
is_figure c = leb 48 c && leb c 57

abbrev is_letter : ℕ → Bool
is_letter c = leb 65 c && leb c 90 || leb 97 c && leb c 122

abbrev pub is_alphanumeric : ℕ → Bool
is_alphanumeric c = is_letter c || is_figure c

-- `/^[A-Za-z0-9]{3,20}$/`.
abbrev is_username : String → Bool
is_username s =
    let cs = codes s in all is_alphanumeric cs && (leb 3 (length cs) && leb (length cs) 20)

abbrev is_password : String → Bool
is_password s = let cs = codes s in leb 8 (units cs) && any is_letter cs && any is_figure cs

-- `registerSchema`.
unfoldable pub is_registration : (String → Bool) → RegisterValues → Bool
is_registration is_email v =
    not (is_blank v.name)
    && not (is_blank v.last_name)
    && is_username v.username
    && is_email v.email
    && is_password v.password
    && (v.password == v.confirm_password)

-- What the form posts: the two names as the schema has trimmed them.
unfoldable pub posted : RegisterValues → CreateUserDto
posted v = record {
  name = trim v.name;
  last_name = trim v.last_name;
  username = v.username;
  email = v.email;
  password = v.password;
  phonenumber = none;
}

abbrev is_terminator : ℕ → Bool
is_terminator c = c == 10 || c == 13 || c == 8232 || c == 8233

-- `.+`, between the ends of the text.
abbrev pub is_one_line : String → Bool
is_one_line s = not (is_blank_text s) && not (any is_terminator (codes s))

-- `size` is the length of a text as class-validator counts it.
abbrev pub is_long_enough : (String → ℕ) → String → Bool
is_long_enough size s = leb 8 (size s)

-- `/^(?=.*[A-Za-z])(?=.*\d).+$/`.
abbrev has_letter_and_digit : String → Bool
has_letter_and_digit s = let cs = codes s in any is_letter cs && any is_figure cs && is_one_line s

abbrev is_user_name : (String → ℕ) → String → Bool
is_user_name size s =
    let cs = codes s in
    leb 3 (size s) && leb (size s) 20 && (not (is_empty cs) && all is_alphanumeric cs)

-- The decorators of `CreateUserDto`; `phonenumber` is optional.
unfoldable pub is_accepted : (String → Bool) → (String → ℕ) → CreateUserDto → Bool
is_accepted is_email size dto =
    not (is_blank_text dto.name)
    && not (is_blank_text dto.last_name)
    && is_user_name size dto.username
    && is_email dto.email
    && is_long_enough size dto.password
    && has_letter_and_digit dto.password

unfoldable pub registration_message : Platform → Option ApiError → String
unfolding includes
registration_message p none = "Unable to create your account right now. Please try again."
registration_message p (some e) =
    let raw = p.to_lower e.message in
    if e.status == 429
    then "Too many requests. Please wait a moment before trying again."
    else if e.status == 400 && includes raw "email already registered"
    then "Email already registered"
    else if e.status == 400 && includes raw "username already taken"
    then "Username already taken"
    else if e.status == 400 || e.status == 422
    then "Please review the registration details and try again."
    else "Unable to create your account right now. Please try again."

-- `fieldMap`, without `confirmPassword`.
abbrev field_map : String → Option String
field_map key =
    if key == "name" || key == "username" || key == "email" || key == "password"
    then some key
    else if key == "last_name" || key == "lastname"
    then some "last_name"
    else none

unfoldable pub field_errors : List (String × String) → List (String × String)
field_errors [] = []
field_errors ((key, detail) ∷ rest) =
    let others = field_errors rest in
    elim (field_map key) [
      | none ↦ others
      | some name ↦ (name, "Check this value and try again.") ∷ others
    ]
