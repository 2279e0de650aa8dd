-- ===== src/Users/Register.antt =====
-- What `create` stores, and that e-mail addresses and user names stay unique.
use sentinel_project.Base.{
  All, All-append, All-both, List, Option, String, [], arith, eq_iff, false, find, find-none,
  nat_eq, none, refl, some, string_eq, subst, sym, ℕ, ◌++◌, ◌==◌, ◌∷◌, ◌≡◌, ◌≢◌,
}
use sentinel_project.Base.Result.{ok}
use sentinel_project.Db.{Prisma, User}
use sentinel_project.Users.{
  Argon, CreateUserDto, UserResponse, check_names, create, has_email, has_username, register,
  user_response, user_row,
}

module _ (c : Prisma) (argon : Argon) where
  open c use {Db, tables, user_create, user_create_lem, user_find_lem}

  -- What holds after a call of `create` that returned `r`.
  pub record IsRegistered (dto : CreateUserDto) (now : ℕ) (before after : Db) (r : UserResponse)
      : Type 0 where
    pub id : ℕ
    pub fresh : All (λ u. u.id ≢ id) (tables before).users
    pub email_free : find (has_email dto.email) (tables before).users ≡ none
    pub username_free : find (has_username dto.username) (tables before).users ≡ none
    pub stored : tables after ≡ record (tables before) {
      users = (tables before).users ++ user_row dto (argon.hash dto.password) now id ∷ [];
    }
    pub response : r ≡ user_response (user_row dto (argon.hash dto.password) now id)

  register-IsRegistered :
      (dto : CreateUserDto) (now : ℕ) (db : Db)
      → find (has_email dto.email) (tables db).users ≡ none
      → find (has_username dto.username) (tables db).users ≡ none
      → (r : UserResponse) × ((register c argon.hash dto now db).0 ≡ ok r)
        × IsRegistered dto now db (register c argon.hash dto now db).1 r
  unfolding register
  register-IsRegistered dto now db e n =
      let (i, made, fresh, stored) =
        user_create_lem (user_row dto (argon.hash dto.password) now) db in
      (
        user_response (user_row dto (argon.hash dto.password) now i),
        rw made,
        record {
          id = i;
          fresh = fresh;
          email_free = e;
          username_free = n;
          stored = stored;
          response = refl;
        },
      )

  check_names-IsRegistered :
      (dto : CreateUserDto) (now : ℕ) (db : Db) (r : UserResponse) (e n : Option User)
      → find (has_email dto.email) (tables db).users ≡ e
      → find (has_username dto.username) (tables db).users ≡ n
      → (check_names c argon.hash dto now e n db).0 ≡ ok r
      → IsRegistered dto now db (check_names c argon.hash dto now e n db).1 r
  unfolding check_names
  check_names-IsRegistered dto now db r (some u) n he hn h = cc
  check_names-IsRegistered dto now db r none (some u) he hn h = cc
  check_names-IsRegistered dto now db r none none he hn h =
      let (s, made, done) = register-IsRegistered dto now db he hn in
      let same : s ≡ r = cc in
      subst (IsRegistered dto now db (register c argon.hash dto now db).1) same done

  -- What a call that answers with a user has done: no stored user had its e-mail address or its user
  -- name; one row is added, under a new id, with the hash of the password, active and no demo user,
  -- and nothing else changes; and the response shows that row.
  pub create-IsRegistered :
      (dto : CreateUserDto) (now : ℕ) (db : Db) (r : UserResponse)
      → (create c argon.hash dto now db).0 ≡ ok r
      → IsRegistered dto now db (create c argon.hash dto now db).1 r
  unfolding create
  create-IsRegistered dto now db r h =
      check_names-IsRegistered dto now db r _ _ (sym (user_find_lem (has_email dto.email) db))
        (sym (user_find_lem (has_username dto.username) db)) h

  -- No two users share an e-mail address or a user name.
  abbrev pub Distinct : List User → Type 0
  Distinct [] = Unit
  Distinct (u ∷ us) = All (λ v. (v.email ≢ u.email) × (v.username ≢ u.username)) us × Distinct us

  Distinct-append :
      (us : List User) (v : User)
      → Distinct us
      → All (λ u. (has_email v.email u ≡ false) × (has_username v.username u ≡ false)) us
      → Distinct (us ++ v ∷ [])
  Distinct-append [] v d h = (tt, tt)
  Distinct-append (u ∷ us) v d h = (
    All-append _ us (v ∷ []) d.0 ((differ h.0.0, differ h.0.1), tt),
    Distinct-append us v d.1 h.1,
  )
    where
      differ : {a b : String} → (a == b) ≡ false → b ≢ a
      differ {a} {b} h = λ e. ground (arith, eq_iff a b)

  check_names-Distinct :
      (dto : CreateUserDto) (now : ℕ) (db : Db) (e n : Option User)
      → find (has_email dto.email) (tables db).users ≡ e
      → find (has_username dto.username) (tables db).users ≡ n
      → Distinct (tables db).users
      → Distinct (tables (check_names c argon.hash dto now e n db).1).users
  unfolding check_names register
  check_names-Distinct dto now db (some u) n he hn d = d
  check_names-Distinct dto now db none (some u) he hn d = d
  check_names-Distinct dto now db none none he hn d =
      let row = user_row dto (argon.hash dto.password) now in
      let (i, made, fresh, stored) = user_create_lem row db in
      let emails = find-none (has_email dto.email) _ he in
      let names = find-none (has_username dto.username) _ hn in
      rw stored (Distinct-append _ (row i) d (All-both _ _ _ emails names))

  -- A call of `create`, whatever its answer, keeps e-mail addresses and user names distinct.
  pub create-Distinct :
      (dto : CreateUserDto) (now : ℕ) (db : Db)
      → Distinct (tables db).users
      → Distinct (tables (create c argon.hash dto now db).1).users
  unfolding create
  create-Distinct dto now db d =
      check_names-Distinct dto now db _ _ (sym (user_find_lem (has_email dto.email) db))
        (sym (user_find_lem (has_username dto.username) db)) d
