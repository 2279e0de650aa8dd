-- ===== src/Monitors/Calls.antt =====
-- Sequences of calls of the service that change the database, and what each call may change.
use sentinel_project.Base.{
  All, Bool-cases, List, Option, [], ap, find, inl, inr, nat_eq, none, refl, some, string_eq, sym,
  ℕ, ◌++◌, ◌==◌, ◌∙◌, ◌∷◌, ◌≡◌, ◌≢◌,
}
use sentinel_project.Base.Result.{Result, ok, throw}
use sentinel_project.Base.Text.{Platform}
use sentinel_project.Db.{Monitor, Prisma, Tables, update_where, with_monitors}
use sentinel_project.Monitors.{
  Config, UserRef, bad_type, below, create_monitor, delete_found, delete_monitor, is_owned,
  min_frequency, patch, update_found, update_monitor, user_id,
}
use sentinel_project.Monitors.Create.{create_monitor-IsCreated, create_monitor_throws}
use sentinel_project.Monitors.Delete.{delete_all-without, without}
use sentinel_project.Monitors.Dto.{CreateMonitorDto, MonitorResponse, UpdateMonitorDto}
use sentinel_project.Monitors.Update.{updated_db}

-- A call of `createMonitor`, `updateMonitor` or `deleteMonitor`.
pub data ServiceCall : Type 0 where
  creating : CreateMonitorDto → UserRef → ℕ → ServiceCall
  updating : ℕ → UserRef → UpdateMonitorDto → ServiceCall
  deleting : ℕ → ℕ → ServiceCall

abbrev pub caller : ServiceCall → ℕ
caller (creating dto user now) = user_id user
caller (updating i user dto) = user_id user
caller (deleting i u) = u

-- The changes that the user `u` may make to the rows that are there.
pub data Edit (u : ℕ) (t : Tables) : Tables → Type 0 where
  unchanged : (t' : Tables) → t' ≡ t → Edit u t t'
  changed :
      (i : ℕ) (dto : UpdateMonitorDto) (m : Monitor) (t' : Tables)
      → find (is_owned i u) t.monitors ≡ some m
      → t' ≡ with_monitors t (update_where (λ x. x.id == i) (patch dto) t.monitors)
      → Edit u t t'
  removed :
      (i : ℕ) (m : Monitor) (t' : Tables)
      → find (is_owned i u) t.monitors ≡ some m
      → t' ≡ without i t
      → Edit u t t'

-- The changes that the user `u` may make at all.
pub data Change (u : ℕ) (t : Tables) : Tables → Type 0 where
  edited : (t' : Tables) → Edit u t t' → Change u t t'
  added :
      (row : Monitor) (t' : Tables)
      → row.user_id ≡ u
      → All (λ m. m.id ≢ row.id) t.monitors
      → t' ≡ with_monitors t (t.monitors ++ row ∷ [])
      → Change u t t'

module _ (p : Platform) (config : Config) (c : Prisma) where
  open c use {Db, tables, update_lem, find_first_lem}

  unfoldable pub serve : ServiceCall → Db → Db
  serve (creating dto user now) db = (create_monitor p config c dto user now db).1
  serve (updating i user dto) db = (update_monitor p config c i user dto db).1
  serve (deleting i u) db = (delete_monitor p config c i u db).1

  unfoldable pub serve_all : List ServiceCall → Db → Db
  unfolding serve
  serve_all [] db = db
  serve_all (x ∷ xs) db = serve_all xs (serve x db)

  create_by-Change :
      (dto : CreateMonitorDto) (user : UserRef) (now : ℕ) (db : Db)
      (answer : Result MonitorResponse)
      → (create_monitor p config c dto user now db).0 ≡ answer
      → Change (user_id user) (tables db) (tables (create_monitor p config c dto user now db).1)
  create_by-Change dto user now db (throw e) q =
      edited _ (unchanged _ (ap tables (create_monitor_throws p config c dto user now db e q)))
  create_by-Change dto user now db (ok r) q =
      let made = create_monitor-IsCreated p config c dto user now db r q in
      added made.row _ made.made.user_id made.fresh made.stored

  update_found-Edit :
      (i : ℕ) (user : UserRef) (dto : UpdateMonitorDto) (db : Db) (o : Option Monitor)
      → find (is_owned i (user_id user)) (tables db).monitors ≡ o
      → Edit (user_id user) (tables db) (tables (update_found p config c o i user dto db).1)
  unfolding update_found
  update_found-Edit i user dto db none q = unchanged _ refl
  update_found-Edit i user dto db (some m) q = elim (Bool-cases (bad_type dto.check_type)) [
    | inl e ↦ rw e (unchanged _ refl)
    | inr e ↦ elim (Bool-cases (below dto.frequency (min_frequency p config user))) [
      | inl f ↦ rw (e, f) (unchanged _ refl)
      | inr f ↦
          let (row, after) = c.monitor_update i (patch dto) db in
          rw (e, f)
            (changed i dto m _ q
              (ap tables (updated_db p config c row after) ∙ (update_lem i (patch dto) db).1))
    ]
  ]

  delete_found-Edit :
      (i u : ℕ) (db : Db) (o : Option Monitor)
      → find (is_owned i u) (tables db).monitors ≡ o
      → Edit u (tables db) (tables (delete_found p config c o i db).1)
  unfolding delete_found
  delete_found-Edit i u db none q = unchanged _ refl
  delete_found-Edit i u db (some m) q = removed i m _ q (delete_all-without p config c i db)

  pub update_monitor-Edit :
      (i : ℕ) (user : UserRef) (dto : UpdateMonitorDto) (db : Db)
      → Edit (user_id user) (tables db) (tables (update_monitor p config c i user dto db).1)
  unfolding update_monitor
  update_monitor-Edit i user dto db =
      update_found-Edit i user dto db (c.monitor_find_first (is_owned i (user_id user)) db)
        (sym (find_first_lem _ db))

  pub delete_monitor-Edit :
      (i u : ℕ) (db : Db) → Edit u (tables db) (tables (delete_monitor p config c i u db).1)
  unfolding delete_monitor
  delete_monitor-Edit i u db =
      delete_found-Edit i u db (c.monitor_find_first (is_owned i u) db) (sym (find_first_lem _ db))

  -- Each call makes a change that its caller may make.
  pub serve-Change :
      (x : ServiceCall) (db : Db) → Change (caller x) (tables db) (tables (serve x db))
  unfolding serve
  serve-Change (creating dto user now) db = create_by-Change dto user now db _ refl
  serve-Change (updating i user dto) db = edited _ (update_monitor-Edit i user dto db)
  serve-Change (deleting i u) db = edited _ (delete_monitor-Edit i u db)
