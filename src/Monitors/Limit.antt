-- ===== src/Monitors/Limit.antt =====
-- The limit of monitors over many calls of `createMonitor`: one after the other, and interleaved.
use sentinel_project.Base.{
  All, Bool-cases, List, [], ap, arith, beq→eq, false, get_or, inl, inr, length, nat_eq, refl,
  string_eq, suc, sym, true, ℕ, ◌+◌, ◌<◌, ◌==◌, ◌∙◌, ◌∷◌, ◌≡◌, ◌≤◌,
}
use sentinel_project.Base.Number.{lt_num, num}
use sentinel_project.Base.Result.{Result, ok, throw}
use sentinel_project.Base.Text.{Platform, member}
use sentinel_project.Db.{Prisma}
use sentinel_project.Monitors.{
  Config, UserRef, after_check, check_type_or_http, create_check, create_monitor, create_store,
  max_monitors, min_frequency, new_row, owned_by, user_id,
}
use sentinel_project.Monitors.Create.{
  count-IsNew, count-new_row, count_of, create_monitor-IsCreated, create_monitor_throws,
}
use sentinel_project.Monitors.Dto.{CreateMonitorDto, MonitorResponse}

pub record Request : Type 0 where
  pub dto : CreateMonitorDto
  pub user : UserRef
  pub now : ℕ

module _ (p : Platform) (config : Config) (c : Prisma) where
  open c use {Db, tables}

  -- One call after the other.
  unfoldable pub create_all : List Request → Db → Db
  create_all [] db = db
  create_all (r ∷ rs) db = create_all rs (create_monitor p config c r.dto r.user r.now db).1

  -- Calls that make their checks while the database is `start`, and store their rows one after the
  -- other later: `createMonitor` awaits the count before it stores.
  unfoldable pub interleave : Db → List Request → Db → Db
  interleave start [] db = db
  interleave start (r ∷ rs) db =
      interleave start rs
        (after_check p config c (create_check p config c r.dto r.user start) r.dto r.user r.now
          db).1

  pub count-create_monitor :
      (u k : ℕ) (r : Request) (db : Db)
      → (user_id r.user ≡ u → max_monitors p config r.user ≡ num k)
      → count_of u (tables db) ≤ k
      → count_of u (tables (create_monitor p config c r.dto r.user r.now db).1) ≤ k
  count-create_monitor u k r db limited h =
      go (create_monitor p config c r.dto r.user r.now db).0 refl
    where
      go :
          (answer : Result MonitorResponse)
          → (create_monitor p config c r.dto r.user r.now db).0 ≡ answer
          → count_of u (tables (create_monitor p config c r.dto r.user r.now db).1) ≤ k
      go (throw e) q = rw (create_monitor_throws p config c r.dto r.user r.now db e q) h
      go (ok m) q =
          let made = create_monitor-IsCreated p config c r.dto r.user r.now db m q in
          elim (Bool-cases (user_id r.user == u)) [
            | inl own ↦
                let same = beq→eq (user_id r.user) u own in
                rw (sym same) (made.limited k (limited same))
            | inr other ↦
                let stored = ap (count_of u) made.stored in
                let more =
                  count-IsNew p config c u r.dto (user_id r.user) r.now made.row (tables db)
                    made.made in
                ground (arith, stored, more, other, h)
          ]

  -- One call after the other, whoever calls, a user whose limit is a number and who keeps to it at
  -- the start keeps to it throughout.
  pub create_all-limit :
      (u k : ℕ) (rs : List Request) (db : Db)
      → All (λ r. user_id r.user ≡ u → max_monitors p config r.user ≡ num k) rs
      → count_of u (tables db) ≤ k
      → count_of u (tables (create_all rs db)) ≤ k
  unfolding create_all
  create_all-limit u k [] db l h = h
  create_all-limit u k (r ∷ rs) db l h =
      create_all-limit u k rs (create_monitor p config c r.dto r.user r.now db).1 l.1
        (count-create_monitor u k r db l.0 h)

  count-create_store :
      (u : ℕ) (r : Request) (db : Db)
      → user_id r.user ≡ u
      → count_of u (tables (create_store p config c r.dto r.user r.now db).1)
        ≡ suc (count_of u (tables db))
  unfolding create_store
  count-create_store u r db own =
      let (i, made, fresh, stored) = c.create_lem (new_row r.dto r.user r.now) db in
      let more = count-new_row p config c u r.dto r.user r.now i (tables db) in
      let same : (user_id r.user == u) ≡ true = ground arith in
      ap (count_of u) stored ∙ ground (arith, more, same)

  interleave-count :
      (u : ℕ) (start : Db) (rs : List Request) (db : Db)
      → All (λ r. (user_id r.user ≡ u) × (create_check p config c r.dto r.user start ≡ ok tt)) rs
      → count_of u (tables (interleave start rs db)) ≡ count_of u (tables db) + length rs
  unfolding interleave after_check
  interleave-count u start [] db h = omega arith
  interleave-count u start (r ∷ rs) db ((own, passed), h) =
      let db' = (create_store p config c r.dto r.user r.now db).1 in
      let more = count-create_store u r db own in
      let rest = interleave-count u start rs db' h in rw passed (omega (arith, more, rest))

  check_passes :
      (dto : CreateMonitorDto) (user : UserRef) (db : Db) (k : ℕ)
      → check_type_or_http dto.check_type ≡ "http"
      → lt_num (num (get_or dto.frequency 60)) (min_frequency p config user) ≡ false
      → max_monitors p config user ≡ num k
      → count_of (user_id user) (tables db) < k
      → create_check p config c dto user db ≡ ok tt
  unfolding create_check member
  check_passes dto user db k typed slow limit room =
      let count = c.count_lem (owned_by (user_id user)) db in
      rw (typed, slow, limit, count) (ground arith)

  all_pass :
      (user : UserRef) (k : ℕ) (rs : List Request) (db : Db)
      → max_monitors p config user ≡ num k
      → count_of (user_id user) (tables db) < k
      → All
          (λ r.
            (r.user ≡ user)
            × (check_type_or_http r.dto.check_type ≡ "http")
            × (lt_num (num (get_or r.dto.frequency 60)) (min_frequency p config user) ≡ false))
          rs
      → All
          (λ r. (user_id r.user ≡ user_id user) × (create_check p config c r.dto r.user db ≡ ok tt))
          rs
  all_pass user k [] db limit room h = tt
  all_pass user k (r ∷ rs) db limit room ((own, typed, slow), h) = (
    (ap user_id own, rw own (check_passes r.dto user db k typed slow limit room)),
    all_pass user k rs db limit room h,
  )

  -- The limit of monitors is not kept by calls that overlap: where a user may have `k` monitors and
  -- has less, and calls of that user, each with the type `http` and a frequency that is not below
  -- the least, all make their checks before any of them stores its row, then the user has more than
  -- `k` monitors after them, if they are more than those that were left.
  pub interleave-above_limit :
      (user : UserRef) (k : ℕ) (rs : List Request) (db : Db)
      → max_monitors p config user ≡ num k
      → count_of (user_id user) (tables db) < k
      → k < count_of (user_id user) (tables db) + length rs
      → All
          (λ r.
            (r.user ≡ user)
            × (check_type_or_http r.dto.check_type ≡ "http")
            × (lt_num (num (get_or r.dto.frequency 60)) (min_frequency p config user) ≡ false))
          rs
      → k < count_of (user_id user) (tables (interleave db rs db))
  interleave-above_limit user k rs db limit room many h =
      let made = interleave-count (user_id user) db rs db (all_pass user k rs db limit room h) in
      rw made many
