-- ===== src/Db.antt =====
-- The tables of sentinel-api/prisma/schema.prisma, and the Prisma client as an interface: its
-- database is opaque, and the laws say what a call reads and leaves in the tables. A `where` object
-- is the test that it denotes. A call that the database refuses is not represented, nor is ON
-- DELETE CASCADE, of which nothing is left to do where the results and alerts of a monitor are
-- deleted first.
pub mod Memory
use mathlib.Core.List.{Perm}
use mathlib.Core.Option
use sentinel_project.Base.{
  All, Bool, List, Option, String, [], filter, find, if◌then◌else◌, length, map, min, nat_eq, not,
  string_eq, take, true, ℕ, ◌++◌, ◌==◌, ◌∷◌, ◌≡◌, ◌≢◌, ◌≤◌,
}
use sentinel_project.Base.Json.{Json}

pub record Monitor : Type 0 where
  pub id : ℕ
  pub name : String
  pub target : String
  pub frequency : ℕ
  pub state : String
  pub created_at : ℕ
  pub check_type : String
  pub check_config : Option Json
  pub last_state : Option String
  pub last_checked_at : Option ℕ
  pub consecutive_failures : ℕ
  pub user_id : ℕ
  pub seed_key : Option String
  pub is_public : Bool

-- A latency is a float there; it is counted here in a unit that makes it whole.
pub record CheckResult : Type 0 where
  pub id : ℕ
  pub monitor_id : ℕ
  pub state : String
  pub status_code : Option ℕ
  pub latency_ms : Option ℕ
  pub response_sample : Option String
  pub error_message : Option String
  pub extra_data : Option Json
  pub created_at : ℕ

pub record Alert : Type 0 where
  pub id : ℕ
  pub monitor_id : ℕ
  pub alert_type : String
  pub message : String
  pub created_at : ℕ

pub record User : Type 0 where
  pub id : ℕ
  pub name : String
  pub last_name : String
  pub username : String
  pub email : String
  pub password : String
  pub phonenumber : Option String
  pub created_at : ℕ
  pub updated_at : ℕ
  pub status : Option String
  pub is_active : Bool
  pub is_demo : Bool

-- What the tables hold.
pub record Tables : Type 0 where
  pub monitors : List Monitor
  pub results : List CheckResult
  pub alerts : List Alert
  pub users : List User

-- The tables with another list of monitors.
abbrev pub with_monitors : Tables → List Monitor → Tables
with_monitors t ms = record t { monitors = ms }

abbrev pub delete_where {ℓ} : {A : Type ℓ} → (A → Bool) → List A → List A
delete_where p = filter (λ x. not (p x))

abbrev pub update_where {ℓ} : {A : Type ℓ} → (A → Bool) → (A → A) → List A → List A
update_where p f = map (λ x. if p x then f x else x)

-- The newest rows first, by `created_at`.
abbrev pub Descending : List ℕ → Type 0
Descending [] = Unit
Descending (x ∷ xs) = All (λ y. y ≤ x) xs × Descending xs

-- What `findMany({ where, orderBy: { created_at: 'desc' }, take })` returns: rows that satisfy the
-- test, each with another id, the newest first, `take` of them or all that there are, and none
-- older than one that it leaves out.
pub record IsPage {ℓ} {A : Type ℓ} (created_at : A → ℕ) (p : A → Bool) (take : ℕ)
    (rows page : List A) : Type ℓ where
  pub omitted : List A
  pub chosen : All (λ x. p x ≡ true) page
  pub perm : Perm (page ++ omitted) (filter p rows)
  pub newest : Descending (map created_at page)
  pub size : length page ≡ min take (length (filter p rows))
  pub bounds : All (λ x. All (λ y. created_at y ≤ created_at x) omitted) page

pub record Prisma : Type 1 where
  pub Db : Type 0
  pub tables : Db → Tables
  pub monitor_count : (Monitor → Bool) → Db → ℕ
  pub monitor_find_many : (Monitor → Bool) → Db → List Monitor
  pub monitor_find_first : (Monitor → Bool) → Db → Option Monitor
  pub monitor_create : (ℕ → Monitor) → Db → Monitor × Db
  pub monitor_update : ℕ → (Monitor → Monitor) → Db → Option Monitor × Db
  pub monitor_update_many : (Monitor → Bool) → (Monitor → Monitor) → Db → ℕ × Db
  pub monitor_delete : ℕ → Db → Db
  pub results_delete_many : (CheckResult → Bool) → Db → Db
  pub alerts_delete_many : (Alert → Bool) → Db → Db
  pub results_page : (CheckResult → Bool) → ℕ → Db → List CheckResult
  pub alerts_page : (Alert → Bool) → ℕ → Db → List Alert
  pub user_find_first : (User → Bool) → Db → Option User
  pub user_create : (ℕ → User) → Db → User × Db
  pub user_update : ℕ → (User → User) → Db → Db
  pub count_lem :
      (p : Monitor → Bool) (db : Db) → monitor_count p db ≡ length (filter p (tables db).monitors)
  pub find_many_lem :
      (p : Monitor → Bool) (db : Db) → monitor_find_many p db ≡ filter p (tables db).monitors
  pub find_first_lem :
      (p : Monitor → Bool) (db : Db) → monitor_find_first p db ≡ find p (tables db).monitors
  -- A created row has a new id, which the database chooses, and the given data.
  pub create_lem :
      (row : ℕ → Monitor) (db : Db)
      → (i : ℕ) × (monitor_create row db).0 ≡ row i
        × All (λ m. m.id ≢ i) (tables db).monitors
        × (tables (monitor_create row db).1
            ≡ with_monitors (tables db) ((tables db).monitors ++ row i ∷ []))
  pub update_lem :
      (i : ℕ) (f : Monitor → Monitor) (db : Db)
      → ((monitor_update i f db).0 ≡ Option.map f (find (λ m. m.id == i) (tables db).monitors))
        × (tables (monitor_update i f db).1
            ≡ with_monitors (tables db) (update_where (λ m. m.id == i) f (tables db).monitors))
  pub update_many_lem :
      (p : Monitor → Bool) (f : Monitor → Monitor) (db : Db)
      → ((monitor_update_many p f db).0 ≡ length (filter p (tables db).monitors))
        × (tables (monitor_update_many p f db).1
            ≡ with_monitors (tables db) (update_where p f (tables db).monitors))
  pub delete_lem :
      (i : ℕ) (db : Db)
      → tables (monitor_delete i db)
        ≡ with_monitors (tables db) (delete_where (λ m. m.id == i) (tables db).monitors)
  pub results_delete_lem :
      (p : CheckResult → Bool) (db : Db)
      → tables (results_delete_many p db)
        ≡ record (tables db) { results = delete_where p (tables db).results }
  pub alerts_delete_lem :
      (p : Alert → Bool) (db : Db)
      → tables (alerts_delete_many p db)
        ≡ record (tables db) { alerts = delete_where p (tables db).alerts }
  pub results_page_lem :
      (p : CheckResult → Bool) (n : ℕ) (db : Db)
      → IsPage (λ r. r.created_at) p n (tables db).results (results_page p n db)
  pub alerts_page_lem :
      (p : Alert → Bool) (n : ℕ) (db : Db)
      → IsPage (λ a. a.created_at) p n (tables db).alerts (alerts_page p n db)
  pub user_find_lem : (p : User → Bool) (db : Db) → user_find_first p db ≡ find p (tables db).users
  pub user_update_lem :
      (i : ℕ) (f : User → User) (db : Db)
      → tables (user_update i f db)
        ≡ record (tables db) { users = update_where (λ u. u.id == i) f (tables db).users }
  pub user_create_lem :
      (row : ℕ → User) (db : Db)
      → (i : ℕ) × (user_create row db).0 ≡ row i
        × All (λ u. u.id ≢ i) (tables db).users
        × (tables (user_create row db).1
            ≡ record (tables db) { users = (tables db).users ++ row i ∷ [] })
