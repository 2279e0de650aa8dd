-- ===== src/Auth/Login.antt =====
-- Who gets a token, and whom a token stands for.
use sentinel_project.Auth.{
  Payload, Token, accepts, answer_login, authenticate_user, bearer, confirmed, expire_minutes,
  identify, login, payload_of, validate_payload,
}
use sentinel_project.Base.{
  Bool, Bool-cases, Option, String, ap, arith, eq_iff, false, find, find-last, get_or,
  if◌then◌else◌, inl, inr, nat_eq, none, refl, some, string_eq, subst, sym, true, ℕ, ◌==◌, ◌∙◌, ◌≡◌,
  ◌≢◌, ◌⊎◌,
}
use sentinel_project.Base.Result.{Result, ok, throw}
use sentinel_project.Db.{Prisma, User}
use sentinel_project.Users.{
  Argon, CreateUserDto, UserResponse, create, find_by_email, find_by_username, has_email,
  has_username, user_response, user_row,
}
use sentinel_project.Users.Register.{create-IsRegistered}

-- The payload of a normal session.
abbrev pub session : String → Payload
session email = record { sub = email; is_demo = none }

module _ (c : Prisma) (argon : Argon) (sign : Payload → String → String)
    (config : String → Option String) where
  open c use {Db, tables, user_find_lem}

  -- How `login` came to the token `t`.
  pub record IsLoggedIn (identifier pass : String) (db : Db) (t : Token) : Type 0 where
    pub user : User
    pub named :
        (find (has_email identifier) (tables db).users ≡ some user)
        ⊎ ((find (has_email identifier) (tables db).users ≡ none)
            × (find (has_username identifier) (tables db).users ≡ some user))
    pub verified : argon.verify user.password pass ≡ ok true
    pub token : t ≡ bearer sign (payload_of user) (expire_minutes config user)

  identified :
      (o : Option User) (identifier : String) (db : Db) (u : User)
      → identify c argon sign config o identifier db ≡ some u
      → (o ≡ some u) ⊎ ((o ≡ none) × (find_by_username c identifier db ≡ some u))
  identified none identifier db u h = inr (refl, h)
  identified (some v) identifier db u h = inl h

  accepted : (r : Result Bool) → accepts r ≡ true → r ≡ ok true
  accepted (ok b) h = cc
  accepted (throw e) h = cc

  confirmed_user :
      (o : Option User) (pass : String) (u : User)
      → confirmed c argon sign config o pass ≡ some u
      → (o ≡ some u) × (argon.verify u.password pass ≡ ok true)
  confirmed_user none pass u h = cc
  confirmed_user (some v) pass u h = elim (Bool-cases (accepts (argon.verify v.password pass))) [
    | inl e ↦
        let same : v ≡ u = ground (arith, rw (e, if◌then◌else◌) at h) in
        (ap some same, subst (λ w. argon.verify w.password pass ≡ ok true) same (accepted _ e))
    | inr e ↦ absurd (ground (arith, rw (e, if◌then◌else◌) at h))
  ]

  answered :
      (o : Option User) (t : Token)
      → answer_login c argon sign config o ≡ ok t
      → (u : User) × (o ≡ some u) × (t ≡ bearer sign (payload_of u) (expire_minutes config u))
  answered none t h = cc
  answered (some u) t h = (u, refl, cc)

  stored_user :
      (identifier : String) (db : Db) (u : User)
      → (find_by_email c identifier db ≡ some u)
        ⊎ ((find_by_email c identifier db ≡ none) × (find_by_username c identifier db ≡ some u))
      → (find (has_email identifier) (tables db).users ≡ some u)
        ⊎ ((find (has_email identifier) (tables db).users ≡ none)
            × (find (has_username identifier) (tables db).users ≡ some u))
  stored_user identifier db u (inl h) = inl (sym (user_find_lem _ db) ∙ h)
  stored_user identifier db u (inr h) =
      inr (sym (user_find_lem _ db) ∙ h.0, sym (user_find_lem _ db) ∙ h.1)

  -- A token that `login` gives is for a user whose e-mail address, or where no user has it as one,
  -- whose user name is the given one, and whose stored password is verified with the given one; its
  -- payload and its life are those of that user.
  pub login-IsLoggedIn :
      (identifier pass : String) (db : Db) (t : Token)
      → login c argon sign config identifier pass db ≡ ok t
      → IsLoggedIn identifier pass db t
  unfolding login authenticate_user
  login-IsLoggedIn identifier pass db t h =
      let (u, found, token) = answered _ t h in
      let (who, verified) = confirmed_user _ pass u found in
      let named = stored_user identifier db u (identified _ identifier db u who) in
      record { user = u; named = named; verified = verified; token = token }

  signed_in :
      (o : Option User) (identifier pass : String) (db : Db) (u : User)
      → o ≡ some u
      → argon.verify u.password pass ≡ ok true
      → confirmed c argon sign config (identify c argon sign config o identifier db) pass ≡ some u
  signed_in o identifier pass db u e v = rw (e, v, if◌then◌else◌)

  same_text : (a : String) → (a == a) ≡ true
  same_text a = ground (arith, eq_iff a a)

  other_text : (a b : String) → a ≢ b → (a == b) ≡ false
  other_text a b h = ground (arith, eq_iff a b)

  -- A user who has registered with an e-mail address that is not empty can log in with it and his
  -- password: he gets a token for that address that is not marked as a demo token, for the time of
  -- a normal session, and it stands for the new user.
  pub register_login :
      (dto : CreateUserDto) (now : ℕ) (db : Db) (r : UserResponse)
      → (create c argon.hash dto now db).0 ≡ ok r
      → dto.email ≢ ""
      → let after = (create c argon.hash dto now db).1 in
        (login c argon sign config dto.email dto.password after
          ≡ ok (
              bearer sign (session dto.email) (get_or (config "ACCESS_TOKEN_EXPIRE_MINUTES") "30")))
        × (u : User) × (validate_payload c (session dto.email) after ≡ ok u)
        × (user_response u ≡ r)
  unfolding login authenticate_user validate_payload
  register_login dto now db r h named =
      let done = create-IsRegistered c argon dto now db r h in
      let u = user_row dto (argon.hash dto.password) now done.id in
      let after = (create c argon.hash dto now db).1 in
      let same = same_text dto.email in
      let here : find_by_email c dto.email after ≡ some u =
        user_find_lem _ after
        ∙ ap (λ t. find (has_email dto.email) t.users) done.stored
        ∙ find-last (has_email dto.email) (tables db).users u done.email_free same in
      let signed =
        signed_in _ dto.email dto.password after u here (argon.verify_hash dto.password) in
      (rw signed, u, rw (other_text _ _ named, here, if◌then◌else◌), sym done.response)
