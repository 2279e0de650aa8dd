-- ===== src/Auth/Guards.antt =====
-- What passes the strategy, the demo login, and the check of the secret key.
use sentinel_project.Auth.{
  Payload, Token, active_user, bearer, demo_login, demo_user, insecure_default_secrets,
  is_default_or_empty, is_missing, validate_payload, validate_secret_key,
}
use sentinel_project.Base.{
  Bool-cases, Option, String, ap, arith, eq_iff, false, find, find-some, get_or, if◌then◌else◌, inl,
  inr, nat_eq, none, not, refl, some, string_eq, subst, sym, true, ◌==◌, ◌||◌, ◌∙◌, ◌≡◌, ◌≢◌,
}
use sentinel_project.Base.Result.{error, ok, throw, unavailable}
use sentinel_project.Base.Text.{member, trim}
use sentinel_project.Db.{Prisma, User}
use sentinel_project.Users.{Argon, find_by_email, has_email}

module _ (c : Prisma) where
  open c use {Db, tables, user_find_lem}

  active_user_ok :
      (o : Option User) (u : User) → active_user c o ≡ ok u → (o ≡ some u) × (u.is_active ≡ true)
  active_user_ok none u h = cc
  active_user_ok (some v) u h = elim (Bool-cases v.is_active) [
    | inl e ↦
        let same : v ≡ u = ground (arith, rw (e, if◌then◌else◌) at h) in
        (ap some same, subst (λ w. w.is_active ≡ true) same e)
    | inr e ↦ absurd (ground (arith, rw (e, if◌then◌else◌) at h))
  ]

  -- A payload stands for a user only where its subject is not empty and is the e-mail address of
  -- that stored user, and the user is active.
  pub validate_payload-IsActive :
      (payload : Payload) (db : Db) (u : User)
      → validate_payload c payload db ≡ ok u
      → (payload.sub ≢ "")
        × (find (has_email payload.sub) (tables db).users ≡ some u)
        × (u.email ≡ payload.sub)
        × (u.is_active ≡ true)
  unfolding validate_payload
  validate_payload-IsActive payload db u h = elim (Bool-cases (payload.sub == "")) [
    | inl e ↦ absurd (ground (arith, rw (e, if◌then◌else◌) at h))
    | inr e ↦
        let (found, active) = active_user_ok _ u (rw (e, if◌then◌else◌) at h) in
        let stored = sym (user_find_lem (has_email payload.sub) db) ∙ found in
        let named = find-some (has_email payload.sub) (tables db).users u stored in
        (
          λ k. ground (arith, eq_iff payload.sub ""),
          stored,
          ground (arith, eq_iff u.email payload.sub),
          active,
        )
  ]

module _ (c : Prisma) (argon : Argon) (sign : Payload → String → String)
    (config : String → Option String) where
  open c use {Db, tables, user_find_lem}

  demo_user_ok :
      (o : Option User) (t : Token)
      → demo_user c argon sign config o ≡ ok t
      → (u : User) × (o ≡ some u)
        × (u.is_active ≡ true)
        × (u.is_demo ≡ true)
        × (t
            ≡ bearer sign
                (record { sub = u.email; is_demo = some true })
                (get_or (config "DEMO_ACCESS_TOKEN_EXPIRE_MINUTES") "15"))
  demo_user_ok none t h = cc
  demo_user_ok (some u) t h = elim (Bool-cases (not u.is_active || not u.is_demo)) [
    | inl e ↦ absurd (ground (arith, rw (e, if◌then◌else◌) at h))
    | inr e ↦ (u, refl, ground arith, ground arith, ground (arith, rw (e, if◌then◌else◌) at h))
  ]

  -- The demo login gives a token only where an address is configured and belongs to an active demo
  -- user; the token is then for that user, marked as a demo token, and lives for the configured
  -- minutes, 15 by default.
  pub demo_login-IsDemo :
      (db : Db) (t : Token)
      → demo_login c argon sign config db ≡ ok t
      → (email : String) × (config "DEMO_USER_EMAIL" ≡ some email)
        × (email ≢ "")
        × (u : User) × (find (has_email email) (tables db).users ≡ some u)
        × (u.is_active ≡ true)
        × (u.is_demo ≡ true)
        × (t
            ≡ bearer sign
                (record { sub = u.email; is_demo = some true })
                (get_or (config "DEMO_ACCESS_TOKEN_EXPIRE_MINUTES") "15"))
  unfolding demo_login
  demo_login-IsDemo db t h = from_email _ refl h
    where
      from_email :
          (o : Option String)
          → config "DEMO_USER_EMAIL" ≡ o
          → (if is_missing o
              then throw (unavailable "Demo account is not configured")
              else demo_user c argon sign config (find_by_email c (get_or o "") db))
            ≡ ok t
          → (email : String) × (config "DEMO_USER_EMAIL" ≡ some email)
            × (email ≢ "")
            × (u : User) × (find (has_email email) (tables db).users ≡ some u)
            × (u.is_active ≡ true)
            × (u.is_demo ≡ true)
            × (t
                ≡ bearer sign
                    (record { sub = u.email; is_demo = some true })
                    (get_or (config "DEMO_ACCESS_TOKEN_EXPIRE_MINUTES") "15"))
      from_email none e h = cc
      from_email (some email) e h = elim (Bool-cases (email == "")) [
        | inl k ↦ absurd (ground (arith, rw (k, if◌then◌else◌) at h))
        | inr k ↦
            let (u, found, active, demo, token) = demo_user_ok _ t (rw (k, if◌then◌else◌) at h) in
            (
              email,
              e,
              λ z. ground (arith, eq_iff email ""),
              u,
              sym (user_find_lem _ db) ∙ found,
              active,
              demo,
              token,
            )
      ]

kept :
    (v : String)
    → is_default_or_empty (some v) ≡ false
    → ((v == "") ≡ false)
      × ((trim v == "") ≡ false)
      × (member (trim v) insecure_default_secrets ≡ false)
kept v h = ground arith

-- In production the key that is accepted is the configured one, and without its outer blanks it is
-- neither empty nor one of the known defaults.
pub validate_secret_key-IsSecret :
    (config : String → Option String) (s : String)
    → config "NODE_ENV" ≡ some "production"
    → validate_secret_key config ≡ ok s
    → (config "SECRET_KEY" ≡ some s)
      × (trim s ≢ "")
      × (member (trim s) insecure_default_secrets ≡ false)
unfolding validate_secret_key
validate_secret_key-IsSecret config s e h = from_key _ refl (rw (e) at h)
  where
    from_key :
        (o : Option String)
        → config "SECRET_KEY" ≡ o
        → (if is_default_or_empty o
            then throw (
                error
                  "FATAL: In production, SECRET_KEY environment variable is mandatory and cannot be a default or placeholder value.")
            else ok (if is_missing o then "default-secret-key" else get_or o ""))
          ≡ ok s
        → (config "SECRET_KEY" ≡ some s)
          × (trim s ≢ "")
          × (member (trim s) insecure_default_secrets ≡ false)
    from_key none k h = cc
    from_key (some v) k h = elim (Bool-cases (is_default_or_empty (some v))) [
      | inl e ↦ absurd (ground (arith, rw (e, if◌then◌else◌) at h))
      | inr e ↦
          let (filled, blank, known) = kept v e in
          let same : v ≡ s = ground (arith, rw (e, filled, if◌then◌else◌) at h) in
          (
            k ∙ ap some same,
            λ z. ground (arith, eq_iff (trim v) "", ap trim same),
            ap (λ w. member (trim w) insecure_default_secrets) (sym same) ∙ known,
          )
    ]
