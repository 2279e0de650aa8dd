-- ===== src/Settings/Origins.antt =====
-- Which origins are allowed in production.
use sentinel_project.Base.{
  All, Bool, List, Option, String, [], all, any, arith, false, if◌then◌else◌, is_empty, refl, some,
  true, ◌||◌, ◌∷◌, ◌≡◌,
}
use sentinel_project.Base.Result.{ok, throw}
use sentinel_project.Base.Text.{Platform, includes}
use sentinel_project.Settings.{
  Origin, cors_error, entries, filled, get_cors_options, is_origin, listed, listed_result,
  production_origins,
}

all-All :
    (p : Platform) (os : List String)
    → all (is_origin p) os ≡ true
    → All (λ o. is_origin p o ≡ true) os
all-All p [] h = tt
all-All p (o ∷ os) h = (ground arith, all-All p os (ground arith))

none-All :
    (os : List String) → any (λ s. includes s "*") os ≡ false → All (λ o. includes o "*" ≡ false) os
none-All [] h = tt
none-All (o ∷ os) h = (ground arith, none-All os (ground arith))

-- What is allowed in production, for the value of the setting.
pub record IsExplicit (p : Platform) (value : Option String) (os : List String) : Type 0 where
  pub some_origin : is_empty os ≡ false
  pub whole : os ≡ filled (entries value)
  pub no_wildcard : All (λ o. includes o "*" ≡ false) os
  pub bare : All (λ o. is_origin p o ≡ true) os

passed :
    (bad good : Bool) (os : List String) (o : Origin)
    → listed_result (if bad then throw cors_error else if good then ok os else throw cors_error)
      ≡ ok o
    → (bad ≡ false) × (good ≡ true) × (o ≡ listed os)
passed true good os o h = cc
passed false true os o h = (refl, refl, cc)
passed false false os o h = cc

parts : (a b c : Bool) → (a || b || c) ≡ false → (a ≡ false) × (c ≡ false)
parts a b c h = ground arith

-- In production the wildcard is never allowed: the allowed origins are at least one, all those of the
-- setting, none contains a wildcard, and each is the origin of an HTTP or HTTPS URL without a user.
pub get_cors_options-IsExplicit :
    (p : Platform) (value : Option String) (o : Origin)
    → get_cors_options p value (some "production") ≡ ok o
    → (os : List String) × (o ≡ listed os) × IsExplicit p value os
unfolding get_cors_options production_origins
get_cors_options-IsExplicit p value o h =
    let os = filled (entries value) in
    let (bad, good, same) = passed _ (all (is_origin p) os) os o h in
    let (filled_, plain) = parts _ _ _ bad in
    (
      os,
      same,
      record {
        some_origin = filled_;
        whole = refl;
        no_wildcard = none-All os plain;
        bare = all-All p os good;
      },
    )
