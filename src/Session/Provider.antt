-- ===== src/Session/Provider.antt =====
-- What `AuthProvider` shows and where it goes. The routes' patterns and `encodeURIComponent` are
-- parameters; the mounting of the component and its cleanup are not represented.
pub mod Shown
use sentinel_project.Base.{
  Bool, List, Option, String, [], false, get_or, if◌then◌else◌, none, not, some, true, ℕ, ◌&&◌,
  ◌||◌, ◌∷◌,
}
use sentinel_project.Base.Json.{Json, bool, lookup, null}
use sentinel_project.Base.Text.{◌⋯◌}
use sentinel_project.Monitors.{is_demo}
use sentinel_project.Session.{TokenStore, clear, get, read_through, set}
use sentinel_project.Session.Jwt.{Decoder, JwtPayload, decode_jwt_payload, is_expiring_soon}

pub record AuthSnapshot : Type 0 where
  pub is_authenticated : Bool
  pub user : Json
  pub is_demo : Bool
  pub expiring_soon : Bool

-- The path of the page, and the paths that the provider has navigated to, the last one first.
pub record Provider : Type 0 where
  pub store : TokenStore
  pub auth : AuthSnapshot
  pub pathname : String
  pub navigated : List String

-- `payload?.is_demo === true`.
abbrev is_true : Option Json → Bool
is_true (some (bool b)) = b
is_true _ = false

unfoldable pub snapshot_of : Option JwtPayload → ℕ → AuthSnapshot
unfolding is_expiring_soon lookup
snapshot_of none now = record {
  is_authenticated = true;
  user = null;
  is_demo = false;
  expiring_soon = false;
}
snapshot_of (some payload) now = record {
  is_authenticated = true;
  user = get_or (lookup "sub" payload.fields) null;
  is_demo = is_true (lookup "is_demo" payload.fields);
  expiring_soon = is_expiring_soon payload now 60;
}

-- `snapshot()`, for the token that `get` returns.
unfoldable pub snapshot : Decoder → ℕ → Option String → AuthSnapshot
unfolding snapshot_of decode_jwt_payload
snapshot d now none = record {
  is_authenticated = false;
  user = null;
  is_demo = false;
  expiring_soon = false;
}
snapshot d now (some token) = snapshot_of (decode_jwt_payload d token) now

-- What happens to a mounted provider.
pub data Event : Type 0 where
  ticked : ℕ → Event
  logged_in : ℕ → String → Event
  logged_out : ℕ → Event
  was_refused : ℕ → Event
  moved : String → Event

abbrev pub is_public_path : (String → String → Bool) → String → Bool
is_public_path matches path = matches "/status" path || matches "/register" path

-- `snap.isAuthenticated && snap.expiringSoon`, for the session that is shown.
abbrev pub is_expired_session : Provider → Bool
is_expired_session p = p.auth.is_authenticated && p.auth.expiring_soon

module _ (d : Decoder) (matches : String → String → Bool) (encode : String → String) where
  -- `setAuth(snapshot())` on a store.
  unfoldable pub refresh : ℕ → TokenStore → Provider → Provider
  unfolding snapshot get read_through
  refresh now s p = record p { store = read_through s; auth = snapshot d now (get s) }

  abbrev navigate : String → Provider → Provider
  navigate path p = record p { navigated = path ∷ p.navigated }

  unfoldable pub mount : ℕ → TokenStore → String → Provider
  unfolding snapshot get read_through
  mount now s path = record {
    store = read_through s;
    auth = snapshot d now (get s);
    pathname = path;
    navigated = [];
  }

  -- The handler that the provider registers.
  unfoldable pub unauthorized_handler : ℕ → Provider → Provider
  unfolding refresh clear
  unauthorized_handler now p =
      if is_public_path matches p.pathname
      then p
      else navigate ("/login?next=" ⋯ encode p.pathname) (refresh now (clear p.store) p)

  -- What `apiFetch` does on a 401: it clears the store and calls the handler.
  unfoldable pub refused : ℕ → Provider → Provider
  unfolding unauthorized_handler clear
  refused now p = unauthorized_handler now (record p { store = clear p.store })

  -- The watcher's tick.
  unfoldable pub tick : ℕ → Provider → Provider
  unfolding refresh clear
  tick now p =
      let seen = refresh now p.store p in
      let expired = is_expired_session seen in
      if not (is_public_path matches p.pathname) && expired
      then navigate "/login" (refresh now (clear seen.store) seen)
      else seen

  -- `login` and `demoLogin`, once the token has come.
  unfoldable pub login : ℕ → String → Provider → Provider
  unfolding refresh set
  login now token p = refresh now (set token p.store) p

  unfoldable pub logout : ℕ → Provider → Provider
  unfolding refresh clear
  logout now p = navigate "/login" (refresh now (clear p.store) p)

  unfoldable pub handle : Event → Provider → Provider
  unfolding tick login logout refused
  handle (ticked now) p = tick now p
  handle (logged_in now token) p = login now token p
  handle (logged_out now) p = logout now p
  handle (was_refused now) p = refused now p
  handle (moved path) p = record p { pathname = path }

  unfoldable pub handle_all : List Event → Provider → Provider
  unfolding handle
  handle_all [] p = p
  handle_all (e ∷ es) p = handle_all es (handle e p)
