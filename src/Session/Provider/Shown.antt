-- ===== src/Session/Provider/Shown.antt =====
-- That the provider shows a session while there is a token.
use sentinel_project.Base.{
  Bool, Bool-cases, List, Option, Option-cases, String, [], ap, arith, false, if◌then◌else◌, inl,
  inr, is_some, none, not, refl, some, sym, true, ℕ, ◌&&◌, ◌*◌, ◌+◌, ◌∙◌, ◌∷◌, ◌≡◌, ◌≤◌, ◌⊎◌,
}
use sentinel_project.Base.Number.{
  Number, infinity, int, lt_num, nan, neg_infinity, negsuc, num, pos,
}
use sentinel_project.Session.{TokenStore, clear, get, read_through, read_unless, set}
use sentinel_project.Session.Jwt.{
  Decoder, JwtPayload, decode_jwt_payload, is_expiring_soon, thousand,
}
use sentinel_project.Session.Provider.{
  Event, Provider, handle, handle_all, is_expired_session, is_public_path, logged_in, logged_out,
  login, logout, mount, moved, refresh, refused, snapshot, snapshot_of, tick, ticked,
  unauthorized_handler, was_refused,
}

snapshot_authenticated :
    (d : Decoder) (now : ℕ) (o : Option String) → (snapshot d now o).is_authenticated ≡ is_some o
unfolding snapshot snapshot_of
snapshot_authenticated d now none = refl
snapshot_authenticated d now (some t) = elim (Option-cases (decode_jwt_payload d t)) [
  | inl e ↦ rw e refl
  | inr (u, e) ↦ rw e refl
]

read_again :
    (b : Bool) (s : TokenStore)
    → s.restored ≡ b
    → (read_unless (read_unless b s).restored (read_unless b s)).token ≡ (read_unless b s).token
unfolding read_unless
read_again true s e = rw e refl
read_again false s e = refl

pub get-read_through : (s : TokenStore) → get (read_through s) ≡ get s
unfolding get read_through
get-read_through s = read_again s.restored s refl

pub get-clear : (s : TokenStore) → get (clear s) ≡ none
unfolding get read_through read_unless clear
get-clear s = refl

-- A session is shown exactly where there is a token.
pub record Agrees (p : Provider) : Type 0 where
  pub shown : p.auth.is_authenticated ≡ is_some (get p.store)

-- No session is hidden: there is no token, or the provider shows a session.
abbrev pub Shows : Provider → Type 0
Shows p = (get p.store ≡ none) ⊎ (p.auth.is_authenticated ≡ true)

shows : (p : Provider) → Agrees p → Shows p
shows p h = elim (Option-cases (get p.store)) [
  | inl e ↦ inl e
  | inr (t, e) ↦ inr (h.shown ∙ ap is_some e)
]

-- Of two providers that agree, a test chooses one that does.
choose-Agrees : (b : Bool) (p q : Provider) → Agrees p → Agrees q → Agrees (if b then p else q)
choose-Agrees true p q h k = h
choose-Agrees false p q h k = k

-- The `exp` of a token, in seconds, is not before a minute after `now`, in milliseconds.
pub data IsLasting (now : ℕ) (exp : Number) : Type 0 where
  whole : (e : ℕ) → exp ≡ num e → now + 60000 ≤ e * 1000 → IsLasting now exp
  endless : exp ≡ infinity → IsLasting now exp
  no_number : exp ≡ nan → IsLasting now exp

-- A store whose token, if it has one, does not expire within a minute as far as it can be read.
pub data IsQuiet (d : Decoder) (now : ℕ) (s : TokenStore) : Type 0 where
  no_token : get s ≡ none → IsQuiet d now s
  unreadable : (t : String) → get s ≡ some t → decode_jwt_payload d t ≡ none → IsQuiet d now s
  lasting :
      (t : String) (payload : JwtPayload)
      → get s ≡ some t
      → decode_jwt_payload d t ≡ some payload
      → IsLasting now payload.exp
      → IsQuiet d now s

thousand-IsLasting :
    (now : ℕ) (exp : Number)
    → lt_num (thousand exp) (num (60 * 1000 + now)) ≡ false
    → IsLasting now exp
thousand-IsLasting now nan h = no_number refl
thousand-IsLasting now infinity h = endless refl
thousand-IsLasting now neg_infinity h = cc
thousand-IsLasting now (int (negsuc e)) h = cc
thousand-IsLasting now (int (pos e)) h = whole e refl (ground arith)

snapshot-IsQuiet :
    (d : Decoder) (now : ℕ) (s : TokenStore) (o : Option String)
    → get s ≡ o
    → ((snapshot d now o).is_authenticated && (snapshot d now o).expiring_soon) ≡ false
    → IsQuiet d now s
unfolding snapshot snapshot_of is_expiring_soon
snapshot-IsQuiet d now s none e h = no_token e
snapshot-IsQuiet d now s (some t) e h = elim (Option-cases (decode_jwt_payload d t)) [
  | inl k ↦ unreadable t e k
  | inr (payload, k) ↦ lasting t payload e k (thousand-IsLasting now payload.exp (rw k at h))
]

calm :
    (d : Decoder) (now : ℕ) (on_public : Bool) (seen out : Provider)
    → (is_expired_session seen ≡ false → IsQuiet d now seen.store)
    → IsQuiet d now out.store
    → (on_public ≡ true)
      ⊎ IsQuiet d now (if not on_public && is_expired_session seen then out else seen).store
calm d now true seen out k h = inl refl
calm d now false seen out k h = elim (Bool-cases (is_expired_session seen)) [
  | inl e ↦ inr (rw (e, if◌then◌else◌) h)
  | inr e ↦ inr (rw (e, if◌then◌else◌) (k e))
]

module _ (d : Decoder) (matches : String → String → Bool) (encode : String → String) where
  refresh-Agrees :
      (now : ℕ) (s : TokenStore) (p : Provider) → Agrees (refresh d matches encode now s p)
  unfolding refresh
  refresh-Agrees now s p = record {
    shown = snapshot_authenticated d now (get s) ∙ ap is_some (sym (get-read_through s));
  }

  refresh-Shows :
      (now : ℕ) (s : TokenStore) (p : Provider) → Shows (refresh d matches encode now s p)
  refresh-Shows now s p = shows (refresh d matches encode now s p) (refresh-Agrees now s p)

  mount-Shows :
      (now : ℕ) (s : TokenStore) (path : String) → Shows (mount d matches encode now s path)
  unfolding mount
  mount-Shows now s path = shows (mount d matches encode now s path) (record {
    shown = snapshot_authenticated d now (get s) ∙ ap is_some (sym (get-read_through s));
  })

  tick-Agrees : (now : ℕ) (p : Provider) → Agrees (tick d matches encode now p)
  unfolding tick
  tick-Agrees now p =
      let seen = refresh d matches encode now p.store p in
      let out = refresh d matches encode now (clear seen.store) seen in
      choose-Agrees (not (is_public_path matches p.pathname) && is_expired_session seen)
        (record out { navigated = "/login" ∷ p.navigated }) seen
        (record { shown = (refresh-Agrees now (clear seen.store) seen).shown })
        (refresh-Agrees now p.store p)

  handle-Shows : (e : Event) (p : Provider) → Shows p → Shows (handle d matches encode e p)
  unfolding handle login logout refused unauthorized_handler
  handle-Shows (ticked now) p h = shows (tick d matches encode now p) (tick-Agrees now p)
  handle-Shows (logged_in now t) p h = refresh-Shows now (set t p.store) p
  handle-Shows (logged_out now) p h = refresh-Shows now (clear p.store) p
  handle-Shows (was_refused now) p h = elim (Bool-cases (is_public_path matches p.pathname)) [
    | inl e ↦ rw (e, if◌then◌else◌) (inl (get-clear p.store))
    | inr e ↦
        rw (e, if◌then◌else◌)
          (refresh-Shows now (clear (clear p.store)) (record p { store = clear p.store }))
  ]
  handle-Shows (moved path) p h = h

  handle_all-Shows :
      (es : List Event) (p : Provider) → Shows p → Shows (handle_all d matches encode es p)
  unfolding handle_all
  handle_all-Shows [] p h = h
  handle_all-Shows (e ∷ es) p h =
      handle_all-Shows es (handle d matches encode e p) (handle-Shows e p h)

  -- After any ticks, logins, logouts, refused requests and changes of the page, there is no token
  -- or the provider shows a session: no session is hidden.
  pub mount-handle_all-Shows :
      (now : ℕ) (s : TokenStore) (path : String) (es : List Event)
      → Shows (handle_all d matches encode es (mount d matches encode now s path))
  mount-handle_all-Shows now s path es =
      handle_all-Shows es (mount d matches encode now s path) (mount-Shows now s path)

  refresh-IsQuiet :
      (now : ℕ) (s : TokenStore) (p : Provider)
      → is_expired_session (refresh d matches encode now s p) ≡ false
      → IsQuiet d now (refresh d matches encode now s p).store
  unfolding refresh
  refresh-IsQuiet now s p h = snapshot-IsQuiet d now (read_through s) (get s) (get-read_through s) h

  -- After a tick, whatever was shown before it, a session is shown exactly where there is a token;
  -- and unless the page is a public one, there is no token, or it cannot be read, or its `exp`, in
  -- seconds, is a minute or more after the time of the tick, or it is infinite or not a number.
  pub tick-IsCalm :
      (now : ℕ) (p : Provider)
      → Agrees (tick d matches encode now p)
        × ((is_public_path matches p.pathname ≡ true)
            ⊎ IsQuiet d now (tick d matches encode now p).store)
  unfolding tick refresh
  tick-IsCalm now p =
      let seen = refresh d matches encode now p.store p in
      let out = refresh d matches encode now (clear seen.store) seen in
      (
        tick-Agrees now p,
        calm d now (is_public_path matches p.pathname) seen
            (record out { navigated = "/login" ∷ p.navigated }) (refresh-IsQuiet now p.store p)
            (no_token (get-read_through (clear seen.store) ∙ get-clear seen.store)),
      )

  -- A refused request on a public page leaves the provider as it was, with the store cleared: what
  -- it shows is kept although there is no token.
  pub refused_public :
      (now : ℕ) (p : Provider)
      → is_public_path matches p.pathname ≡ true
      → ((refused d matches encode now p).auth ≡ p.auth)
        × (get (refused d matches encode now p).store ≡ none)
        × ((refused d matches encode now p).navigated ≡ p.navigated)
  unfolding refused unauthorized_handler
  refused_public now p e = rw (e, if◌then◌else◌) (refl, get-clear p.store, refl)
