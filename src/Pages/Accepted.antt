-- ===== src/Pages/Accepted.antt =====
-- What the form for a new account accepts, and what the API accepts of it.
use sentinel_project.Base.{Bool, String, all, arith, length, true, ℕ, ◌&&◌, ◌≡◌}
use sentinel_project.Base.Text.{codes, is_blank}
use sentinel_project.Pages.RegisterForm.{
  RegisterValues, is_accepted, is_alphanumeric, is_long_enough, is_one_line, is_registration,
  posted,
}

registered_name :
    (client_email : String → Bool) (v : RegisterValues)
    → is_registration client_email v ≡ true
    → all is_alphanumeric (codes v.username) ≡ true
unfolding is_registration
registered_name client_email v h = ground arith

-- The decorators of the API's DTO accept what the form posts, where their own test of the address
-- holds, exactly when class-validator counts eight characters in the password and the password is
-- one line. That class-validator counts the characters of a text of ASCII letters and digits is a
-- hypothesis. Whether the name and the address are free is asked later, by the service.
pub is_registration-is_accepted :
    (client_email server_email : String → Bool) (size : String → ℕ) (v : RegisterValues)
    → ((s : String) → all is_alphanumeric (codes s) ≡ true → size s ≡ length (codes s))
    → is_registration client_email v ≡ true
    → is_accepted server_email size (posted v)
      ≡ (server_email v.email && is_long_enough size v.password && is_one_line v.password)
unfolding is_registration is_accepted posted is_blank
is_registration-is_accepted client_email server_email size v k h =
    let counted = k v.username (registered_name client_email v h) in ground (arith, h, counted)
