-- ===== src/Monitors/Update.antt =====
-- What `updateMonitor` changes, and whose monitors it leaves alone.
use mathlib.Core.Option
use sentinel_project.Base.{
  Any, Bool-cases, List, Option, String, [], ap, arith, beq→eq, eq_iff, false, filter, find,
  find-Any, get_or, if◌then◌else◌, inl, inr, nat_eq, none, not, refl, some, string_eq, sym, ℕ, ◌==◌,
  ◌∙◌, ◌∷◌, ◌≡◌, ◌≢◌, ◌≤◌, ◌⊎◌,
}
use sentinel_project.Base.Number.{Number, num}
use sentinel_project.Base.Result.{ok}
use sentinel_project.Base.Text.{Platform, member}
use sentinel_project.Db.{Monitor, Prisma, Tables, update_where, with_monitors}
use sentinel_project.Monitors.{
  Config, UserRef, bad_type, below, is_owned, min_frequency, owned_by, patch, update_found,
  update_monitor, updated, user_id,
}
use sentinel_project.Monitors.Dto.{MonitorResponse, UpdateMonitorDto, monitor_response}
use sentinel_project.Monitors.Owner.{
  DistinctIds, filter-update_where, find-OwnedAt, find-id, found-owner,
}

pub patch-user_id : (dto : UpdateMonitorDto) (m : Monitor) → (patch dto m).user_id ≡ m.user_id
unfolding patch
patch-user_id dto m = refl

-- A row `n` that is the row `m` but for the fields that `dto` gives.
pub record IsPatched (dto : UpdateMonitorDto) (m n : Monitor) : Type 0 where
  pub name : n.name ≡ get_or dto.name m.name
  pub target : n.target ≡ get_or dto.target m.target
  pub check_type : n.check_type ≡ get_or dto.check_type m.check_type
  pub frequency : n.frequency ≡ get_or dto.frequency m.frequency
  pub check_config :
      n.check_config ≡ elim dto.check_config [ none ↦ m.check_config | some j ↦ some j ]
  pub id : n.id ≡ m.id
  pub user_id : n.user_id ≡ m.user_id
  pub state : n.state ≡ m.state
  pub created_at : n.created_at ≡ m.created_at
  pub last_state : n.last_state ≡ m.last_state
  pub last_checked_at : n.last_checked_at ≡ m.last_checked_at
  pub consecutive_failures : n.consecutive_failures ≡ m.consecutive_failures
  pub seed_key : n.seed_key ≡ m.seed_key
  pub is_public : n.is_public ≡ m.is_public

-- Rows of which each is patched where it has the id `i`, and is as it was elsewhere.
abbrev pub ArePatched : ℕ → UpdateMonitorDto → List Monitor → List Monitor → Type 0
ArePatched i dto [] [] = Unit
ArePatched i dto [] (n ∷ ns) = ⊥
ArePatched i dto (m ∷ ms) [] = ⊥
ArePatched i dto (m ∷ ms) (n ∷ ns) =
    (((m.id ≡ i) × IsPatched dto m n) ⊎ ((m.id ≢ i) × (n ≡ m))) × ArePatched i dto ms ns

patch-IsPatched : (dto : UpdateMonitorDto) (m : Monitor) → IsPatched dto m (patch dto m)
unfolding patch
patch-IsPatched dto m = record {
  name = refl;
  target = refl;
  check_type = refl;
  frequency = refl;
  check_config = refl;
  id = refl;
  user_id = refl;
  state = refl;
  created_at = refl;
  last_state = refl;
  last_checked_at = refl;
  consecutive_failures = refl;
  seed_key = refl;
  is_public = refl;
}

update_where-ArePatched :
    (i : ℕ) (dto : UpdateMonitorDto) (ms : List Monitor)
    → ArePatched i dto ms (update_where (λ m. m.id == i) (patch dto) ms)
update_where-ArePatched i dto [] = tt
update_where-ArePatched i dto (m ∷ ms) = elim (Bool-cases (m.id == i)) [
  | inl e ↦
      rw (e, if◌then◌else◌)
        (inl (beq→eq m.id i e, patch-IsPatched dto m), update_where-ArePatched i dto ms)
  | inr e ↦
      rw (e, if◌then◌else◌)
        (inr ((λ q. ground (arith, q, e)), refl), update_where-ArePatched i dto ms)
]

-- A given type is empty or `http`.
typed_or_empty :
    (o : Option String) → bad_type o ≡ false → (o ≡ none) ⊎ (o ≡ some "") ⊎ (o ≡ some "http")
unfolding bad_type member
typed_or_empty none h = inl refl
typed_or_empty (some String.[]) h = inr (inl refl)
typed_or_empty (some (String.◌∷◌ x s)) h =
    inr (inr (ap some (ground (arith, eq_iff "http" (String.◌∷◌ x s)))))

module _ (p : Platform) (config : Config) (c : Prisma) where
  open c use {Db, tables, update_lem, find_first_lem}

  -- What holds after a call of `updateMonitor` that returned `r`.
  pub record IsUpdated (i : ℕ) (user : UserRef) (dto : UpdateMonitorDto) (before after : Db)
      (r : MonitorResponse) : Type 0 where
    pub found : Monitor
    pub at : Any (λ m. m ≡ found) (tables before).monitors
    pub own : (found.id ≡ i) × (found.user_id ≡ user_id user)
    pub row : Monitor
    pub patched : IsPatched dto found row
    pub stored : ArePatched i dto (tables before).monitors (tables after).monitors
    pub rest : tables after ≡ with_monitors (tables before) (tables after).monitors
    pub response : r ≡ monitor_response row
    pub typed :
        (dto.check_type ≡ none) ⊎ (dto.check_type ≡ some "") ⊎ (dto.check_type ≡ some "http")
    pub frequent : (f k : ℕ) → dto.frequency ≡ some f → min_frequency p config user ≡ num k → k ≤ f

  not_below :
      (o : Option ℕ) (n : Number) (f k : ℕ) → below o n ≡ false → o ≡ some f → n ≡ num k → k ≤ f
  unfolding below
  not_below o n f k h e q = let g = rw (e, q) at h in ground (arith, g)

  pub updated_db : (o : Option Monitor) (db : Db) → (updated p config c (o, db)).1 ≡ db
  unfolding updated
  updated_db none db = refl
  updated_db (some x) db = refl

  updated-some :
      (o : Option Monitor) (db : Db) (m : Monitor)
      → o ≡ some m
      → updated p config c (o, db) ≡ (ok (monitor_response m), db)
  unfolding updated
  updated-some none db m e = cc
  updated-some (some x) db m e = cc

  update_found-IsUpdated :
      (i : ℕ) (user : UserRef) (dto : UpdateMonitorDto) (db : Db) (r : MonitorResponse)
      (o : Option Monitor)
      → DistinctIds (tables db).monitors
      → find (is_owned i (user_id user)) (tables db).monitors ≡ o
      → (update_found p config c o i user dto db).0 ≡ ok r
      → IsUpdated i user dto db (update_found p config c o i user dto db).1 r
  unfolding update_found
  update_found-IsUpdated i user dto db r none d q h = cc
  update_found-IsUpdated i user dto db r (some m) d q h =
      elim (Bool-cases (bad_type dto.check_type)) [
        | inl e ↦ cc (rw e at h)
        | inr e ↦ elim (Bool-cases (below dto.frequency (min_frequency p config user))) [
          | inl f ↦ cc (rw (e, f) at h)
          | inr f ↦
              let (row, stored) = update_lem i (patch dto) db in
              let own = found-owner i (user_id user) (tables db).monitors m q in
              let by_id = find-id i (user_id user) (tables db).monitors m d q in
              let after = (c.monitor_update i (patch dto) db).1 in
              let shown =
                updated-some _ after (patch dto m) (row ∙ ap (Option.map (patch dto)) by_id) in
              rw (e, f)
                (rw shown record {
                  found = m;
                  at = find-Any (is_owned i (user_id user)) (tables db).monitors m q;
                  own = own;
                  row = patch dto m;
                  patched = patch-IsPatched dto m;
                  stored = rw stored (update_where-ArePatched i dto (tables db).monitors);
                  rest = rw stored refl;
                  response = let told = rw shown at (rw (e, f) at h) in cc;
                  typed = typed_or_empty dto.check_type e;
                  frequent = λ g k. not_below dto.frequency (min_frequency p config user) g k f;
                })
        ]
      ]

  -- What a call that answers with a monitor has done, where no two monitors share an id: a stored
  -- monitor with that id is the caller's; in its row the name, the target, the type, the frequency
  -- and the configuration are those of the call where it gives them, and all other fields are as
  -- they were; no other row of any table changes; the response shows the changed row; a given type
  -- is `http` or the empty text, which passes and is stored; and a given frequency is not below the
  -- configured least, where that is a whole number.
  pub update_monitor-IsUpdated :
      (i : ℕ) (user : UserRef) (dto : UpdateMonitorDto) (db : Db) (r : MonitorResponse)
      → DistinctIds (tables db).monitors
      → (update_monitor p config c i user dto db).0 ≡ ok r
      → IsUpdated i user dto db (update_monitor p config c i user dto db).1 r
  unfolding update_monitor
  update_monitor-IsUpdated i user dto db r d h =
      update_found-IsUpdated i user dto db r (c.monitor_find_first (is_owned i (user_id user)) db) d
        (sym (find_first_lem _ db)) h

  others_kept :
      (u : ℕ) (f : Monitor → Monitor) (db : Db) (i : ℕ) (m : Monitor)
      → DistinctIds (tables db).monitors
      → ((x : Monitor) → (f x).user_id ≡ x.user_id)
      → find (is_owned i u) (tables db).monitors ≡ some m
      → filter (λ x. not (owned_by u x)) (tables (c.monitor_update i f db).1).monitors
        ≡ filter (λ x. not (owned_by u x)) (tables db).monitors
  others_kept u f db i m d k q =
      ap (λ (t : Tables). filter (λ x. not (owned_by u x)) t.monitors) (update_lem i f db).1
      ∙ filter-update_where i u f (tables db).monitors k
          (find-OwnedAt i u (tables db).monitors m d q)

  update_found-others :
      (i : ℕ) (user : UserRef) (dto : UpdateMonitorDto) (db : Db) (o : Option Monitor)
      → DistinctIds (tables db).monitors
      → find (is_owned i (user_id user)) (tables db).monitors ≡ o
      → filter
          (λ x. not (owned_by (user_id user) x))
          (tables (update_found p config c o i user dto db).1).monitors
        ≡ filter (λ x. not (owned_by (user_id user) x)) (tables db).monitors
  unfolding update_found
  update_found-others i user dto db none d q = refl
  update_found-others i user dto db (some m) d q = elim (Bool-cases (bad_type dto.check_type)) [
    | inl e ↦ rw e
    | inr e ↦ elim (Bool-cases (below dto.frequency (min_frequency p config user))) [
      | inl f ↦ rw (e, f)
      | inr f ↦
          let after = (c.monitor_update i (patch dto) db).1 in
          rw (e, f)
            (rw (updated_db (c.monitor_update i (patch dto) db).0 after)
              (others_kept (user_id user) (patch dto) db i m d (patch-user_id dto) q))
    ]
  ]

  -- Where no two monitors share an id, a call, whatever its answer, leaves the monitors of all
  -- other users as they are.
  pub update_monitor-others :
      (i : ℕ) (user : UserRef) (dto : UpdateMonitorDto) (db : Db)
      → DistinctIds (tables db).monitors
      → filter
          (λ x. not (owned_by (user_id user) x))
          (tables (update_monitor p config c i user dto db).1).monitors
        ≡ filter (λ x. not (owned_by (user_id user) x)) (tables db).monitors
  unfolding update_monitor
  update_monitor-others i user dto db d =
      update_found-others i user dto db (c.monitor_find_first (is_owned i (user_id user)) db) d
        (sym (find_first_lem _ db))
