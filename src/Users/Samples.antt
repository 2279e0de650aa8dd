-- ===== src/Users/Samples.antt =====
-- Concrete data for the tests: a registration in an empty database.
use sentinel_project.Base.{[], ap, eq_iff, nat_eq, none, refl, string_eq, ◌==◌, ◌≡◌}
use sentinel_project.Base.Result.{ok}
use sentinel_project.Db.{Tables}
use sentinel_project.Db.Memory.{above, memory}
use sentinel_project.Users.{Argon, CreateUserDto, UserResponse, create, user_response, user_row}

abbrev pub argon : Argon
argon = record {
  hash = λ p. p;
  verify = λ h p. ok (h == p);
  verify_hash = λ p. ap ok ((eq_iff p p).1 refl);
}

abbrev pub ada : CreateUserDto
ada = record {
  name = "Ada";
  last_name = "L";
  username = "ada";
  email = "ada@example.com";
  password = "secret12";
  phonenumber = none;
}

abbrev pub empty : Tables
empty = record { monitors = []; results = []; alerts = []; users = [] }

abbrev pub registered : UserResponse
registered = user_response (user_row ada "secret12" 7 1)

pub registers : (create memory argon.hash ada 7 empty).0 ≡ ok registered
unfolding create above
registers = refl
