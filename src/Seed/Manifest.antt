-- ===== src/Seed/Manifest.antt =====
-- What the entries of an accepted manifest are. An entry that is accepted after the keys `seen`.
use sentinel_project.Base.{
  Bool-cases, List, String, [], arith, false, if◌then◌else◌, inl, inr, nat_eq, string_eq, true, ◌∷◌,
  ◌≡◌,
}
use sentinel_project.Base.Json.{str}
use sentinel_project.Base.Result.{ok}
use sentinel_project.Base.Text.{Platform, member}
use sentinel_project.Seed.{SeedEntry, check_manifest, is_invalid}
use sentinel_project.Target.{validate}

pub record IsEntry (p : Platform) (seen : List String) (e : SeedEntry) : Type 0 where
  pub new : member e.seed_key seen ≡ false
  pub target : validate p (str e.target) ≡ true

-- The entries are accepted one after the other, each after the keys of those before it.
abbrev pub Entries : Platform → List String → List SeedEntry → Type 0
Entries p seen [] = Unit
Entries p seen (e ∷ es) = IsEntry p seen e × Entries p (e.seed_key ∷ seen) es

valid-IsEntry :
    (p : Platform) (seen : List String) (e : SeedEntry)
    → is_invalid p seen e ≡ false
    → IsEntry p seen e
unfolding is_invalid
valid-IsEntry p seen e h = record { new = ground arith; target = ground arith }

-- In an accepted manifest no key stands twice, none is one of `seen`, and every target is one that
-- the validation of targets accepts.
pub check_manifest-Entries :
    (p : Platform) (seen : List String) (es : List SeedEntry)
    → check_manifest p seen es ≡ ok tt
    → Entries p seen es
unfolding check_manifest
check_manifest-Entries p seen [] h = tt
check_manifest-Entries p seen (e ∷ es) h = elim (Bool-cases (is_invalid p seen e)) [
  | inl k ↦ absurd (ground (arith, rw (k, if◌then◌else◌) at h))
  | inr k ↦ (
    valid-IsEntry p seen e k,
    check_manifest-Entries p (e.seed_key ∷ seen) es (rw (k, if◌then◌else◌) at h),
  )
]
