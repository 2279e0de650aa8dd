-- ===== src/Seed/Tests.antt =====
-- A seed of one monitor over a public monitor of another user, and the theorems at it.
use sentinel_project.Base.{
  Option, String, [], if◌then◌else◌, nat_eq, none, refl, some, string_eq, ◌==◌, ◌∷◌, ◌≡◌,
}
use sentinel_project.Base.Result.{ok}
use sentinel_project.Base.Text.{is_blank, member}
use sentinel_project.Db.{Tables}
use sentinel_project.Db.Memory.{above, memory}
use sentinel_project.Seed.{SeedEntry, check_manifest, seed, seeded_row, upsert_all}
use sentinel_project.Seed.Publication.{IsPublished, seed-IsPublished}
use sentinel_project.Target.Samples.{accepts_public, platform}
use sentinel_project.Users.Samples.{empty}

abbrev env : String → Option String
env s = if s == "STATUS_OWNER_EMAIL" then some "status@example.com" else none

abbrev entry : SeedEntry
entry = record {
  seed_key = "site";
  name = "Site";
  target = "https://example.com/";
  frequency = none;
}

abbrev stored : Tables
stored = record empty { monitors = record (seeded_row entry 7 3 1) { seed_key = none } ∷ [] }

accepts_manifest : check_manifest platform [] (entry ∷ []) ≡ ok tt
unfolding check_manifest member is_blank
accepts_manifest = rw accepts_public refl

-- The other user's monitor is hidden.
hides : (seed platform memory env (entry ∷ []) 9 stored).0 ≡ ok 1
unfolding seed upsert_all member is_blank above
hides = rw accepts_public refl

seed-IsPublished_example :
    IsPublished platform memory "status@example.com"
      (entry ∷ [])
      stored
      (seed platform memory env (entry ∷ []) 9 stored).1
seed-IsPublished_example = seed-IsPublished platform memory env (entry ∷ []) 9 stored 1 hides
