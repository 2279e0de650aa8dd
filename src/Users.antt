-- ===== src/Users.antt =====
-- User accounts: sentinel-api/src/users/users.service.ts, users/dto/create-user.dto.ts and
-- users/dto/user-response.dto.ts. The calls of argon2 are parameters; the validation of the DTO by
-- class-validator happens before the service.
pub mod Register
pub mod Samples
mod Tests
use sentinel_project.Base.{
  Bool, Option, String, false, get_or, nat_eq, none, some, string_eq, true, ℕ, ◌==◌, ◌≡◌,
}
use sentinel_project.Base.Result.{Exec, Result, bad_request, ok, throw}
use sentinel_project.Db.{Prisma, User}
use sentinel_project.Monitors.{is_demo}

pub record CreateUserDto : Type 0 where
  pub name : String
  pub last_name : String
  pub username : String
  pub email : String
  pub password : String
  pub phonenumber : Option String

pub record UserResponse : Type 0 where
  pub id : ℕ
  pub name : String
  pub last_name : String
  pub username : String
  pub email : String
  pub phonenumber : Option String
  pub status : String
  pub is_active : Bool
  pub is_demo : Bool
  pub created_at : ℕ
  pub updated_at : ℕ

-- `fromEntity`.
abbrev pub user_response : User → UserResponse
user_response u = record {
  id = u.id;
  name = u.name;
  last_name = u.last_name;
  username = u.username;
  email = u.email;
  phonenumber = u.phonenumber;
  status = get_or u.status "Active";
  is_active = u.is_active;
  is_demo = u.is_demo;
  created_at = u.created_at;
  updated_at = u.updated_at;
}

-- argon2: `hash`, and `verify`, which throws where its first argument is no hash. A hash is
-- accepted with the password that it was made from.
pub record Argon : Type 0 where
  pub hash : String → String
  pub verify : String → String → Result Bool
  pub verify_hash : (password : String) → verify (hash password) password ≡ ok true

abbrev pub has_email : String → User → Bool
has_email e u = u.email == e

abbrev pub has_username : String → User → Bool
has_username n u = u.username == n

-- The row that `create` stores; the default of `is_demo` is the schema's.
abbrev pub user_row : CreateUserDto → String → ℕ → ℕ → User
user_row dto hashed now i = record {
  id = i;
  name = dto.name;
  last_name = dto.last_name;
  username = dto.username;
  email = dto.email;
  password = hashed;
  phonenumber = dto.phonenumber;
  created_at = now;
  updated_at = now;
  status = some "Active";
  is_active = true;
  is_demo = false;
}

module _ (prisma : Prisma) where
  abbrev pub find_by_email : String → prisma.Db → Option User
  find_by_email e = prisma.user_find_first (has_email e)

  abbrev pub find_by_username : String → prisma.Db → Option User
  find_by_username n = prisma.user_find_first (has_username n)

  abbrev pub find_by_id : ℕ → prisma.Db → Option User
  find_by_id i = prisma.user_find_first (λ u. u.id == i)

  -- The hash, the row and the answer.
  unfoldable pub register : (String → String) → CreateUserDto → ℕ → Exec prisma.Db UserResponse
  register hash dto now db =
      let (user, stored) = prisma.user_create (user_row dto (hash dto.password) now) db in
      (ok (user_response user), stored)

  unfoldable pub check_names :
      (String → String)
      → CreateUserDto
      → ℕ
      → Option User
      → Option User
      → Exec prisma.Db UserResponse
  unfolding register
  check_names hash dto now (some u) o db = (throw (bad_request "Email already registered"), db)
  check_names hash dto now none (some u) db = (throw (bad_request "Username already taken"), db)
  check_names hash dto now none none db = register hash dto now db

  unfoldable pub create : (String → String) → CreateUserDto → ℕ → Exec prisma.Db UserResponse
  unfolding check_names
  create hash dto now db =
      check_names hash dto now (find_by_email dto.email db) (find_by_username dto.username db) db
