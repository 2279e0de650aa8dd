-- ===== src/Session.antt =====
-- The session in the browser: frontend/src/app/api/token.ts (the access token, in memory and in
-- sessionStorage), frontend/src/app/auth/jwt.ts (its payload), and
-- frontend/src/app/auth/AuthProvider.tsx (what the application shows and where it goes).
pub mod Jwt
pub mod Reload
pub mod Refined
pub mod Provider
mod Tests
use sentinel_project.Base.{Bool, Option, String, false, if◌then◌else◌, none, some, true}

-- The module's variables, and sessionStorage under its key: its item, and whether its methods throw.
pub record TokenStore : Type 0 where
  pub token : Option String
  pub restored : Bool
  pub stored : Option String
  pub available : Bool

-- A page that has just been loaded.
abbrev pub loaded : Option String → Bool → TokenStore
loaded stored available = record {
  token = none;
  restored = false;
  stored = stored;
  available = available;
}

abbrev pub reload : TokenStore → TokenStore
reload s = loaded s.stored s.available

-- `sessionStorage.getItem` in its `try`.
abbrev pub item : TokenStore → Option String
item s = if s.available then s.stored else none

abbrev pub restored_token : Option String → TokenStore → Option String
restored_token none s = item s
restored_token (some t) s = some t

unfoldable pub read_unless : Bool → TokenStore → TokenStore
read_unless true s = s
read_unless false s = record s { restored = true; token = restored_token s.token s }

unfoldable pub read_through : TokenStore → TokenStore
unfolding read_unless
read_through s = read_unless s.restored s

unfoldable pub set : String → TokenStore → TokenStore
set value s = record s {
  token = some value;
  restored = true;
  stored = if s.available then some value else s.stored;
}

unfoldable pub clear : TokenStore → TokenStore
clear s = record s {
  token = none;
  restored = true;
  stored = if s.available then none else s.stored;
}

-- What `get` returns; `read_through` is the store that it leaves.
unfoldable pub get : TokenStore → Option String
unfolding read_through
get s = (read_through s).token
