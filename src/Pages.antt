-- ===== src/Pages.antt =====
-- The pages of the client that send a request and wait for its answer. What a handler reads from
-- the last render, such as `isPending` of a mutation, is an argument of its event, with any value.
pub mod DeleteButton
pub mod Deleting
pub mod LoginPage
pub mod SigningIn
pub mod CreateForm
pub mod MonitorsPage
pub mod Creating
pub mod RegisterForm
pub mod RegisterPage
pub mod Registering
pub mod Accepted
pub mod Lenient
pub mod Messages
pub mod Counted
pub mod DeletionFocus
mod Tests
use sentinel_project.Base.{Bool, Option, false, nat_eq, none, some, string_eq, true, ℕ, ◌==◌}
use sentinel_project.Client.{ApiError}

-- What a request ends with. A failure is an `ApiError`, or another error.
pub data Reply : Type 0 where
  succeeded : Reply
  rejected : Option ApiError → Reply

abbrev pub has_status : ℕ → Option ApiError → Bool
has_status n none = false
has_status n (some e) = e.status == n

-- How many requests a flag stands for.
abbrev pub flight : Bool → ℕ
flight true = 1
flight false = 0
