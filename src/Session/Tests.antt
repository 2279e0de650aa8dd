-- ===== src/Session/Tests.antt =====
-- A page with a token that is about to expire, and the theorems at it.
use sentinel_project.Base.{
  Bool, List, String, [], false, if◌then◌else◌, nat_eq, none, refl, some, string_eq, true, ◌==◌,
  ◌∷◌, ◌≡◌, ◌⊎◌,
}
use sentinel_project.Base.Json.{Fields, end, field, number, obj, str}
use sentinel_project.Base.Number.{num}
use sentinel_project.Session.{loaded}
use sentinel_project.Session.Jwt.{Decoder, decode_jwt_payload}
use sentinel_project.Session.Provider.{
  Provider, handle_all, is_public_path, logged_in, mount, moved, tick, ticked, was_refused,
}
use sentinel_project.Session.Provider.Shown.{
  Agrees, IsQuiet, Shows, mount-handle_all-Shows, tick-IsCalm,
}
use sentinel_project.Session.Refined.{TabEvent, called, reloaded, shown, shown-cell_shown}
use sentinel_project.Session.Reload.{clearing, setting}

abbrev payload : Fields
payload = field "sub" (str "ada@example.com") (field "exp" (number (num 100)) end)

abbrev decoder : Decoder
decoder = record {
  atob = λ s. some s;
  decode_utf8 = λ s. some s;
  parse_json = λ s. if s == "e30=" then some (obj payload) else none;
}

abbrev matches : String → String → Bool
matches pattern path = pattern == path

abbrev encode : String → String
encode s = s

-- The token's payload expires at 100 s.
decodes : decode_jwt_payload decoder "h.e30.s" ≡ some (record { exp = num 100; fields = payload })
unfolding decode_jwt_payload
decodes = refl

abbrev monitors_page : Provider
monitors_page = record {
  store = record {
    token = some "h.e30.s";
    restored = true;
    stored = some "h.e30.s";
    available = true;
  };
  auth = record {
    is_authenticated = true;
    user = str "ada@example.com";
    is_demo = false;
    expiring_soon = false;
  };
  pathname = "/monitors";
  navigated = [];
}

ends_session : (tick decoder matches encode 50000 monitors_page).navigated ≡ "/login" ∷ []
unfolding tick
ends_session = refl

mount-handle_all-Shows_example : Shows (
    handle_all decoder matches encode
      (logged_in 5 "h.e30.s" ∷ moved "/status" ∷ was_refused 9 ∷ ticked 50000 ∷ [])
      (mount decoder matches encode 0 (loaded none true) "/login"))
mount-handle_all-Shows_example =
    mount-handle_all-Shows decoder matches encode 0 (loaded none true) "/login"
      (logged_in 5 "h.e30.s" ∷ moved "/status" ∷ was_refused 9 ∷ ticked 50000 ∷ [])

tick-IsCalm_example :
    Agrees (tick decoder matches encode 50000 monitors_page)
    × ((is_public_path matches monitors_page.pathname ≡ true)
        ⊎ IsQuiet decoder 50000 (tick decoder matches encode 50000 monitors_page).store)
tick-IsCalm_example = tick-IsCalm decoder matches encode 50000 monitors_page

abbrev status_page : Provider
status_page = record monitors_page { pathname = "/status" }

-- A login, a reload, a logout, another reload.
abbrev visit : List TabEvent
visit = called (setting "a") ∷ reloaded ∷ called clearing ∷ reloaded ∷ []

shown-cell_shown_example :
    shown visit (loaded none true) ≡ none ∷ some "a" ∷ some "a" ∷ none ∷ none ∷ []
shown-cell_shown_example = shown-cell_shown none true visit

private_visit : shown visit (loaded none false) ≡ none ∷ some "a" ∷ none ∷ none ∷ none ∷ []
private_visit = shown-cell_shown none false visit
