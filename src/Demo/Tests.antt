-- ===== src/Demo/Tests.antt =====
-- A seed over the tables of a user with a monitor, and the theorem at it.
use sentinel_project.Base.{Option, String, [], map, none, refl, some, ◌∷◌, ◌≡◌}
use sentinel_project.Base.Json.{end, obj}
use sentinel_project.Base.Result.{ok}
use sentinel_project.Db.Memory.{above, memory}
use sentinel_project.Demo.{DemoEntry, DemoManifest, check_demo, seed_demo, upsert_monitors}
use sentinel_project.Target.Samples.{accepts_public, platform}
use sentinel_project.Users.Samples.{argon, empty}

abbrev entry : DemoEntry
entry = record {
  seed_key = "site";
  name = "Site";
  target = "https://example.com/";
  frequency = 60;
  check_type = "http";
  check_config = obj end;
}

abbrev manifest : DemoManifest
manifest = record {
  email = "demo@example.com";
  password = "demo1234";
  monitors = entry ∷ entry ∷ [];
}

abbrev no_settings : String → Option String
no_settings s = none

seeds : (seed_demo platform memory argon.hash no_settings manifest 5 empty).0 ≡ ok tt
unfolding seed_demo check_demo
seeds = rw accepts_public refl

-- The entries have one key, and make one monitor.
one_monitor :
    map
      (λ m. m.seed_key)
      (memory.tables (seed_demo platform memory argon.hash no_settings manifest 5 empty).1).monitors
    ≡ some "site" ∷ []
unfolding seed_demo check_demo upsert_monitors above
one_monitor = rw accepts_public refl
