-- ===== src/Settings/Environment.antt =====
-- What an environment that is accepted in production satisfies.
use sentinel_project.Auth.{validate_secret_key}
use sentinel_project.Base.{
  All, Bool-cases, List, Option, String, [], arith, eq_iff, false, if◌then◌else◌, inl, inr, nat_eq,
  none, refl, some, string_eq, ◌==◌, ◌∷◌, ◌≡◌, ◌≢◌,
}
use sentinel_project.Base.Json.{Json}
use sentinel_project.Base.Result.{Exception, Result, ok, throw, ◌>>◌}
use sentinel_project.Base.Text.{Platform, Url}
use sentinel_project.Settings.{
  Env, Origin, check_database, check_settings, check_url, decoded_password, done, get_cors_options,
  has_no_credentials, is_blank_setting, require_all, require_distinct, required_settings, text,
  validate_production_environment, void,
}

then_ok : (m k : Result (Unit {0})) → (m >> k) ≡ ok tt → (m ≡ ok tt) × (k ≡ ok tt)
then_ok (ok u) k h = (refl, h)
then_ok (throw e) k h = cc

require_all-All :
    (env : Env) (ns : List String)
    → require_all env ns ≡ ok tt
    → All (λ n. is_blank_setting (env n) ≡ false) ns
unfolding require_all
require_all-All env [] h = tt
require_all-All env (n ∷ ns) h = elim (Bool-cases (is_blank_setting (env n))) [
  | inl e ↦ absurd (ground (arith, rw (e, if◌then◌else◌) at h))
  | inr e ↦ (e, require_all-All env ns (rw (e, if◌then◌else◌) at h))
]

-- What is known of an accepted environment.
pub record IsAccepted (p : Platform) (decode_uri : String → Option String) (env : Env)
    : Type 0 where
  pub filled : All (λ n. is_blank_setting (env n) ≡ false) required_settings
  pub database :
      (u : Url) × (p.parse_url (text env "DATABASE_URL") ≡ some u)
      × (s : String) × (decode_uri u.password ≡ some s)
      × (s ≢ "postgres")
  pub secret : (s : String) × (validate_secret_key env ≡ ok s)
  pub origins : (o : Origin) × (get_cors_options p (env "CORS_ORIGINS") (some "production") ≡ ok o)
  pub distinct :
      p.to_lower (text env "DEMO_USER_EMAIL") ≢ p.to_lower (text env "STATUS_OWNER_EMAIL")

void_ok : (r : Result String) → void r ≡ ok tt → (s : String) × (r ≡ ok s)
void_ok (ok s) h = (s, refl)
void_ok (throw e) h = cc

done_ok {ℓ} : {A : Type ℓ} (e : Exception) (r : Result A) → done e r ≡ ok tt → (a : A) × (r ≡ ok a)
done_ok e (ok a) h = (a, refl)
done_ok e (throw x) h = cc

password_ok :
    (o : Option String)
    → decoded_password o ≡ ok tt
    → (s : String) × (o ≡ some s) × (s ≢ "postgres")
password_ok none h = cc
password_ok (some s) h = elim (Bool-cases (s == "postgres")) [
  | inl e ↦ absurd (ground (arith, rw (e, if◌then◌else◌) at h))
  | inr e ↦ (s, refl, λ k. ground (arith, eq_iff s "postgres"))
]

other_emails :
    (p : Platform) (a b : String) → require_distinct p a b ≡ ok tt → p.to_lower a ≢ p.to_lower b
other_emails p a b h = elim (Bool-cases (p.to_lower a == p.to_lower b)) [
  | inl e ↦ absurd (ground (arith, rw (e, if◌then◌else◌) at h))
  | inr e ↦ λ k. ground (arith, eq_iff (p.to_lower a) (p.to_lower b))
]

url_ok :
    (decode_uri : String → Option String) (o : Option Url)
    → check_url decode_uri o ≡ ok tt
    → (u : Url) × (o ≡ some u) × (s : String) × (decode_uri u.password ≡ some s) × (s ≢ "postgres")
url_ok decode_uri none h = cc
url_ok decode_uri (some u) h = elim (Bool-cases (has_no_credentials u)) [
  | inl e ↦ absurd (ground (arith, rw (e, if◌then◌else◌) at h))
  | inr e ↦
      let (s, decoded, other) = password_ok (decode_uri u.password) (rw (e, if◌then◌else◌) at h) in
      (u, refl, s, decoded, other)
]

database_ok :
    (p : Platform) (decode_uri : String → Option String) (url : String)
    → check_database p decode_uri url ≡ ok tt
    → (u : Url) × (p.parse_url url ≡ some u)
      × (s : String) × (decode_uri u.password ≡ some s)
      × (s ≢ "postgres")
unfolding check_database
database_ok p decode_uri url h = url_ok decode_uri (p.parse_url url) h

-- An environment of production that is accepted has all required settings; its database's password
-- is not the known default; its secret key and its origins are accepted; and the owner of the status
-- and the demo user have different addresses.
pub validate_production_environment-IsAccepted :
    (p : Platform) (decode_uri : String → Option String) (read : String → Option Json) (env : Env)
    → env "NODE_ENV" ≡ some "production"
    → validate_production_environment p decode_uri read env ≡ ok tt
    → IsAccepted p decode_uri env
unfolding validate_production_environment check_settings
validate_production_environment-IsAccepted p decode_uri read env e h =
    let (required, rest) = then_ok _ _ (rw e at h) in
    let (a7, status) = then_ok _ _ rest in
    let (a6, demo) = then_ok _ _ a7 in
    let (a5, emails) = then_ok _ _ a6 in
    let (a4, owner) = then_ok _ _ a5 in
    let (a3, user) = then_ok _ _ a4 in
    let (a2, cors) = then_ok _ _ a3 in
    let (base, key) = then_ok _ _ a2 in
    record {
      filled = require_all-All env required_settings required;
      database = database_ok p decode_uri _ base;
      secret = void_ok _ key;
      origins = done_ok _ _ cors;
      distinct = other_emails p _ _ emails;
    }
