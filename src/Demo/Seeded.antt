-- ===== src/Demo/Seeded.antt =====
-- What a seed of the demo leaves in the tables.
use sentinel_project.Base.{
  All, Any, Bool, List, Option, String, false, filter, get_or, length, nat_eq, not, string_eq, true,
  ℕ, ◌&&◌, ◌≡◌,
}
use sentinel_project.Base.Result.{Result, ok, throw}
use sentinel_project.Base.Text.{Platform}
use sentinel_project.Db.{Prisma, Tables, User}
use sentinel_project.Demo.{DemoEntry, DemoManifest, check_demo, demo_limit, has_room}
use sentinel_project.Demo.Found.{IsKeyed}
use sentinel_project.Monitors.{owned_by}

abbrev pub is_ok {ℓ} : {A : Type ℓ} → Result A → Bool
is_ok (ok a) = true
is_ok (throw e) = false

module _ (p : Platform) (c : Prisma) where
  open c use {Db, tables}

  -- What the upserts of all entries do.
  pub record IsFilled (owner : ℕ) (es : List DemoEntry) (t t' : Tables) : Type 0 where
    others :
        filter (λ m. not (owned_by owner m)) t'.monitors
        ≡ filter (λ m. not (owned_by owner m)) t.monitors
    stored : All (λ e. Any (IsKeyed owner e.seed_key) t'.monitors) es
    kept : (k : String) → Any (IsKeyed owner k) t.monitors → Any (IsKeyed owner k) t'.monitors
    users : t'.users ≡ t.users

  -- A demo user with an address and the hash of a password.
  abbrev pub IsDemoUser : ℕ → String → String → User → Type 0
  IsDemoUser owner email hashed u =
      (u.id ≡ owner) × (u.email ≡ email) × (u.is_demo ≡ true) × (u.password ≡ hashed)

  -- What a seed leaves: a demo user with the address and the hash of the password, who has a
  -- monitor for each entry; the monitors of all others are as they were.
  pub record IsSeeded (email hashed : String) (es : List DemoEntry) (t t' : Tables) : Type 0 where
    pub owner : ℕ
    pub user : Any (IsDemoUser owner email hashed) t'.users
    pub entries : All (λ e. Any (IsKeyed owner e.seed_key) t'.monitors) es
    pub others :
        filter (λ m. not (owned_by owner m)) t'.monitors
        ≡ filter (λ m. not (owned_by owner m)) t.monitors

  -- There is a free slot and each entry is valid.
  abbrev pub is_good : (String → Option String) → DemoManifest → Bool
  is_good env manifest =
      has_room (demo_limit p (env "DEMO_MAX_MONITORS")) (length manifest.monitors)
      && is_ok (check_demo p manifest.monitors)

  -- How a seed ends.
  pub data IsDone (hash : String → String) (env : String → Option String) (manifest : DemoManifest)
      (before after : Db) : Result (Unit {0}) → Type 0 where
    done :
        (r : Result (Unit {0}))
        → is_good env manifest ≡ true
        → r ≡ ok tt
        → IsSeeded
            (get_or (env "DEMO_USER_EMAIL") manifest.email)
            (hash (get_or (env "DEMO_USER_PASSWORD") manifest.password))
            manifest.monitors
            (tables before)
            (tables after)
        → IsDone hash env manifest before after r
    turned_away :
        (r : Result (Unit {0}))
        → is_good env manifest ≡ false
        → is_ok r ≡ false
        → after ≡ before
        → IsDone hash env manifest before after r
