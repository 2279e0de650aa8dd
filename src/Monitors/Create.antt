-- ===== src/Monitors/Create.antt =====
-- What `createMonitor` stores, and that it keeps to the limit of monitors for each user.
use sentinel_project.Base.{
  All, Bool, List, String, [], ap, arith, eq_iff, false, filter, get_or, if◌then◌else◌, length,
  nat_eq, none, not, refl, some, string_eq, subst, true, ℕ, ◌&&◌, ◌++◌, ◌+◌, ◌<◌, ◌==◌, ◌∙◌, ◌∷◌,
  ◌≡◌, ◌≢◌, ◌≤◌,
}
use sentinel_project.Base.Number.{Number, le_num, lt_num, num}
use sentinel_project.Base.Result.{Exception, Result, ok, throw}
use sentinel_project.Base.Text.{Platform, member}
use sentinel_project.Db.{Monitor, Prisma, Tables, with_monitors}
use sentinel_project.Monitors.{
  Config, UserRef, after_check, check_type_or_http, create_check, create_monitor, create_store,
  empty_object, max_monitors, min_frequency, new_row, owned_by, user_id, valid_check_types,
}
use sentinel_project.Monitors.Dto.{CreateMonitorDto, MonitorResponse, monitor_response}

-- How many monitors a user has.
abbrev pub count_of : ℕ → Tables → ℕ
count_of u t = length (filter (owned_by u) t.monitors)

abbrev pub passes : Result (Unit {0}) → Bool
passes (ok u) = true
passes (throw e) = false

-- A row for a new monitor of a user.
pub record IsNew (dto : CreateMonitorDto) (user now : ℕ) (m : Monitor) : Type 0 where
  pub name : m.name ≡ dto.name
  pub target : m.target ≡ dto.target
  pub check_type : m.check_type ≡ "http"
  pub frequency : m.frequency ≡ get_or dto.frequency 60
  pub check_config : m.check_config ≡ some (get_or dto.check_config empty_object)
  pub user_id : m.user_id ≡ user
  pub state : m.state ≡ "Active"
  pub created_at : m.created_at ≡ now
  pub private : m.is_public ≡ false
  pub unseeded : m.seed_key ≡ none
  pub unchecked : (m.last_state ≡ none) × (m.last_checked_at ≡ none) × (m.consecutive_failures ≡ 0)

new_row-IsNew :
    (dto : CreateMonitorDto) (user : UserRef) (now i : ℕ)
    → check_type_or_http dto.check_type ≡ "http"
    → IsNew dto (user_id user) now (new_row dto user now i)
unfolding new_row
new_row-IsNew dto user now i typed = record {
  name = refl;
  target = refl;
  check_type = typed;
  frequency = refl;
  check_config = refl;
  user_id = refl;
  state = refl;
  created_at = refl;
  private = refl;
  unseeded = refl;
  unchecked = (refl, refl, refl);
}

new_row-frequency :
    (dto : CreateMonitorDto) (user : UserRef) (now i : ℕ)
    → (new_row dto user now i).frequency ≡ get_or dto.frequency 60
unfolding new_row
new_row-frequency dto user now i = refl

new_row-id : (dto : CreateMonitorDto) (user : UserRef) (now i : ℕ) → (new_row dto user now i).id ≡ i
unfolding new_row
new_row-id dto user now i = refl

module _ (p : Platform) (config : Config) (c : Prisma) where
  open c use {Db, tables, monitor_count, monitor_create, count_lem, create_lem}

  -- What holds after a call of `createMonitor` that returned `r`.
  pub record IsCreated (dto : CreateMonitorDto) (user : UserRef) (now : ℕ) (before after : Db)
      (r : MonitorResponse) : Type 0 where
    pub row : Monitor
    pub made : IsNew dto (user_id user) now row
    pub fresh : All (λ m. m.id ≢ row.id) (tables before).monitors
    pub stored : tables after ≡ with_monitors (tables before) ((tables before).monitors ++ row ∷ [])
    pub response : r ≡ monitor_response row
    pub frequent : (k : ℕ) → min_frequency p config user ≡ num k → k ≤ row.frequency
    pub limited :
        (k : ℕ) → max_monitors p config user ≡ num k → count_of (user_id user) (tables after) ≤ k

  check_ok :
      (dto : CreateMonitorDto) (user : UserRef) (db : Db)
      → create_check p config c dto user db ≡ ok tt
      → (member (check_type_or_http dto.check_type) valid_check_types ≡ true)
        × (lt_num (num (get_or dto.frequency 60)) (min_frequency p config user) ≡ false)
        × (le_num (max_monitors p config user) (num (monitor_count (owned_by (user_id user)) db))
            ≡ false)
  unfolding create_check
  check_ok dto user db h = ground arith

  -- The checks, for a body with the type `http`.
  pub create_check-passes :
      (dto : CreateMonitorDto) (user : UserRef) (db : Db)
      → check_type_or_http dto.check_type ≡ "http"
      → passes (create_check p config c dto user db) ≡ (
          not (lt_num (num (get_or dto.frequency 60)) (min_frequency p config user))
          && not (le_num (max_monitors p config user) (num (count_of (user_id user) (tables db)))))
  unfolding create_check member
  create_check-passes dto user db typed =
      rw (typed, count_lem (owned_by (user_id user)) db) (ground arith)

  member_http : (s : String) → member s valid_check_types ≡ true → s ≡ "http"
  unfolding member
  member_http s h = ground (arith, eq_iff "http" s)

  count-append :
      (u : ℕ) (m : Monitor) (ms : List Monitor)
      → length (filter (owned_by u) (ms ++ m ∷ []))
        ≡ length (filter (owned_by u) ms) + (if m.user_id == u then 1 else 0)
  count-append u m [] = ground arith
  count-append u m (x ∷ ms) = ground (arith, count-append u m ms)

  at_least : (a k : ℕ) (n : Number) → lt_num (num a) n ≡ false → n ≡ num k → k ≤ a
  at_least a k n h e = let f = rw e at h in ground (arith, f)

  room_left : (a k : ℕ) (n : Number) → le_num n (num a) ≡ false → n ≡ num k → a < k
  room_left a k n h e = let f = rw e at h in ground (arith, f)

  -- The count of the user who asked grows by one, all others stay.
  pub count-new_row :
      (u : ℕ) (dto : CreateMonitorDto) (user : UserRef) (now i : ℕ) (t : Tables)
      → count_of u (with_monitors t (t.monitors ++ new_row dto user now i ∷ []))
        ≡ count_of u t + (if user_id user == u then 1 else 0)
  unfolding new_row
  count-new_row u dto user now i t = count-append u (new_row dto user now i) t.monitors

  -- The same of any row that is new.
  pub count-IsNew :
      (u : ℕ) (dto : CreateMonitorDto) (user now : ℕ) (m : Monitor) (t : Tables)
      → IsNew dto user now m
      → count_of u (with_monitors t (t.monitors ++ m ∷ []))
        ≡ count_of u t + (if user == u then 1 else 0)
  count-IsNew u dto user now m t made = count-append u m t.monitors ∙ rw made.user_id refl

  store-IsCreated :
      (dto : CreateMonitorDto) (user : UserRef) (now : ℕ) (db : Db)
      → create_check p config c dto user db ≡ ok tt
      → (r : MonitorResponse) × ((create_store p config c dto user now db).0 ≡ ok r)
        × IsCreated dto user now db (create_store p config c dto user now db).1 r
  unfolding create_store
  store-IsCreated dto user now db h =
      let (typed, frequent, room) = check_ok dto user db h in
      let (i, made, fresh, stored) = create_lem (new_row dto user now) db in
      (
        monitor_response (new_row dto user now i),
        rw made,
        record {
          row = new_row dto user now i;
          made = new_row-IsNew dto user now i (member_http _ typed);
          fresh = rw (new_row-id dto user now i) fresh;
          stored = stored;
          response = refl;
          frequent = λ k e. rw (new_row-frequency dto user now i) (at_least _ k _ frequent e);
          limited = λ k e.
              let before = count_lem (owned_by (user_id user)) db in
              let after =
                ap (count_of (user_id user)) stored
                ∙ count-new_row (user_id user) dto user now i (tables db) in
              let less = room_left _ k _ room e in ground (arith, before, after, less);
        },
      )

  after_check-IsCreated :
      (dto : CreateMonitorDto) (user : UserRef) (now : ℕ) (db : Db) (r : MonitorResponse)
      (checked : Result (Unit {0}))
      → create_check p config c dto user db ≡ checked
      → (after_check p config c checked dto user now db).0 ≡ ok r
      → IsCreated dto user now db (after_check p config c checked dto user now db).1 r
  unfolding after_check
  after_check-IsCreated dto user now db r (throw e) k h = cc
  after_check-IsCreated dto user now db r (ok tt) k h =
      let (s, made, done) = store-IsCreated dto user now db k in
      let same : s ≡ r = cc in
      subst (IsCreated dto user now db (create_store p config c dto user now db).1) same done

  -- What a call that answers with a monitor has done: one row and nothing else is added, under an
  -- id that no row had; the row is the caller's, has the name, the target and the configuration of
  -- the call and its frequency or 60, the type `http`, is active, not public, not of the seed and
  -- not checked yet; its frequency is not below the configured least, where that is a whole number;
  -- the response shows that row; and where the configured limit is a whole number, the user has at
  -- most that many monitors.
  pub create_monitor-IsCreated :
      (dto : CreateMonitorDto) (user : UserRef) (now : ℕ) (db : Db) (r : MonitorResponse)
      → (create_monitor p config c dto user now db).0 ≡ ok r
      → IsCreated dto user now db (create_monitor p config c dto user now db).1 r
  unfolding create_monitor
  create_monitor-IsCreated dto user now db r h =
      after_check-IsCreated dto user now db r (create_check p config c dto user db) refl h

  -- The database after a call that throws is the one before it.
  pub create_monitor_throws :
      (dto : CreateMonitorDto) (user : UserRef) (now : ℕ) (db : Db) (e : Exception)
      → (create_monitor p config c dto user now db).0 ≡ throw e
      → (create_monitor p config c dto user now db).1 ≡ db
  unfolding create_monitor after_check create_store
  create_monitor_throws dto user now db e h = ground arith
