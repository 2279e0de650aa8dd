-- ===== src/Session/Refined.antt =====
-- The token store as one optional token that the pages of a tab share.
use sentinel_project.Base.{
  Bool, List, Option, String, [], false, if◌then◌else◌, none, refl, some, true, ◌∙◌, ◌∷◌, ◌≡◌,
}
use sentinel_project.Session.{
  TokenStore, clear, get, item, loaded, read_through, read_unless, reload, set,
}
use sentinel_project.Session.Reload.{Call, clearing, getting, run, setting}

pub data TabEvent : Type 0 where
  called : Call → TabEvent
  reloaded : TabEvent

-- What the store is after an event, and what its `get` returns between them.
abbrev pub step : TabEvent → TokenStore → TokenStore
step (called c) s = run c s
step reloaded s = reload s

unfoldable pub shown : List TabEvent → TokenStore → List (Option String)
unfolding run get
shown [] s = get s ∷ []
shown (e ∷ es) s = get s ∷ shown es (step e s)

-- The token alone. Where sessionStorage does not work, a reload loses it.
abbrev pub cell_step : Bool → TabEvent → Option String → Option String
cell_step works (called getting) cell = cell
cell_step works (called (setting v)) cell = some v
cell_step works (called clearing) cell = none
cell_step works reloaded cell = if works then cell else none

abbrev pub cell_shown : Bool → List TabEvent → Option String → List (Option String)
cell_shown works [] cell = cell ∷ []
cell_shown works (e ∷ es) cell = cell ∷ cell_shown works es (cell_step works e cell)

-- How the store represents the token, where it has been read and where it has not.
abbrev Holds : Bool → Option String → TokenStore → Type 0
Holds true cell s = s.token ≡ cell
Holds false cell s = (s.token ≡ none) × (item s ≡ cell)

abbrev Backed : Bool → Option String → Option String → Type 0
Backed true cell stored = stored ≡ cell
Backed false cell stored = Unit

record Represents (works : Bool) (cell : Option String) (s : TokenStore) : Type 0 where
  same : s.available ≡ works
  holds : Holds s.restored cell s
  backed : Backed works cell s.stored

read_unless-token :
    (b : Bool) (cell : Option String) (s : TokenStore)
    → Holds b cell s
    → (read_unless b s).token ≡ cell
unfolding read_unless
read_unless-token true cell s h = h
read_unless-token false cell s h = rw h.0 h.1

get-Represents :
    (works : Bool) (cell : Option String) (s : TokenStore) → Represents works cell s → get s ≡ cell
unfolding get read_through
get-Represents works cell s r = read_unless-token s.restored cell s r.holds

read_unless-Represents :
    (b works : Bool) (cell : Option String) (s : TokenStore)
    → s.restored ≡ b
    → Holds b cell s
    → Represents works cell s
    → Represents works cell (read_unless b s)
unfolding read_unless
read_unless-Represents true works cell s e h r = r
read_unless-Represents false works cell s e h r = record {
  same = r.same;
  holds = rw h.0 h.1;
  backed = r.backed;
}

written-Represents :
    (works b : Bool) (cell new : Option String) (s : TokenStore)
    → works ≡ b
    → Represents works cell s
    → Represents works new
        (record s { token = new; restored = true; stored = if s.available then new else s.stored })
written-Represents works true cell new s e r = record {
  same = r.same;
  holds = refl;
  backed = rw e (rw (r.same, e, if◌then◌else◌) refl);
}
written-Represents works false cell new s e r = record {
  same = r.same;
  holds = refl;
  backed = rw e tt;
}

reload-Represents :
    (works b : Bool) (cell : Option String) (s : TokenStore)
    → works ≡ b
    → Represents works cell s
    → Represents works (if works then cell else none) (reload s)
reload-Represents works true cell s e r =
    rw (e, if◌then◌else◌)
      (record {
        same = r.same ∙ e;
        holds = (refl, rw (r.same, e, if◌then◌else◌) (let k = rw e at (r.backed) in k));
        backed = let k = rw e at (r.backed) in k;
      })
reload-Represents works false cell s e r =
    rw (e, if◌then◌else◌)
      (record {
        same = r.same ∙ e;
        holds = (refl, rw (r.same, e, if◌then◌else◌) refl);
        backed = tt;
      })

step-Represents :
    (works : Bool) (e : TabEvent) (cell : Option String) (s : TokenStore)
    → Represents works cell s
    → Represents works (cell_step works e cell) (step e s)
unfolding run read_through set clear
step-Represents works (called getting) cell s r =
    read_unless-Represents s.restored works cell s refl r.holds r
step-Represents works (called (setting v)) cell s r =
    written-Represents works works cell (some v) s refl r
step-Represents works (called clearing) cell s r = written-Represents works works cell none s refl r
step-Represents works reloaded cell s r = reload-Represents works works cell s refl r

shown-Represents :
    (works : Bool) (es : List TabEvent) (cell : Option String) (s : TokenStore)
    → Represents works cell s
    → shown es s ≡ cell_shown works es cell
unfolding shown
shown-Represents works [] cell s r = rw (get-Represents works cell s r) refl
shown-Represents works (e ∷ es) cell s r =
    rw
      (
        get-Represents works cell s r,
        shown-Represents works es (cell_step works e cell) (step e s)
            (step-Represents works e cell s r),
      )
      refl

loaded-Represents :
    (stored : Option String) (works : Bool)
    → Represents works (if works then stored else none) (loaded stored works)
loaded-Represents stored true = record { same = refl; holds = (refl, refl); backed = refl }
loaded-Represents stored false = record { same = refl; holds = (refl, refl); backed = tt }

-- What `get` returns between any calls of the store and any reloads of the page is what one
-- optional token shows, whether sessionStorage works or not: a `set` replaces it, a `clear` removes
-- it, a `get` leaves it, and a reload leaves it where sessionStorage works and loses it otherwise.
pub shown-cell_shown :
    (stored : Option String) (works : Bool) (es : List TabEvent)
    → shown es (loaded stored works) ≡ cell_shown works es (if works then stored else none)
shown-cell_shown stored works es =
    shown-Represents works es (if works then stored else none) (loaded stored works)
      (loaded-Represents stored works)
