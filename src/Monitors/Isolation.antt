-- ===== src/Monitors/Isolation.antt =====
-- What one user sees of the tables, and that the calls of others do not change it.
use sentinel_project.Base.{
  All, Bool, Bool-cases, List, [], any, ap, arith, beq→eq, false, filter, if◌then◌else◌, inl, inr,
  nat_eq, not, refl, string_eq, sym, true, ℕ, ◌++◌, ◌==◌, ◌∙◌, ◌∷◌, ◌≡◌, ◌≢◌,
}
use sentinel_project.Base.Text.{Platform}
use sentinel_project.Db.{
  Alert, CheckResult, Monitor, Prisma, Tables, delete_where, update_where, with_monitors,
}
use sentinel_project.Monitors.{Config, owned_by, patch}
use sentinel_project.Monitors.Calls.{
  Change, Edit, ServiceCall, added, caller, changed, edited, removed, serve, serve-Change,
  serve_all, unchanged,
}
use sentinel_project.Monitors.Consistent.{Consistent, serve-Consistent}
use sentinel_project.Monitors.Delete.{without}
use sentinel_project.Monitors.Owner.{
  OwnedAt, filter-delete_where, filter-update_where, find-OwnedAt,
}
use sentinel_project.Monitors.Update.{patch-user_id}

pub record View : Type 0 where
  pub mine : List Monitor
  pub results : List CheckResult
  pub alerts : List Alert

abbrev has_id : List Monitor → ℕ → Bool
has_id ms i = any (λ m. m.id == i) ms

-- The monitors of a user, with their check results and their alerts.
abbrev pub view : ℕ → Tables → View
view u t =
    let mine = filter (owned_by u) t.monitors in
    record {
      mine = mine;
      results = filter (λ r. has_id mine r.monitor_id) t.results;
      alerts = filter (λ a. has_id mine a.monitor_id) t.alerts;
    }

-- A test that fails wherever another holds does not see what the other removes.
filter-skip {ℓ} :
    {A : Type ℓ} (q r : A → Bool) (xs : List A)
    → ((x : A) → q x ≡ true → r x ≡ false)
    → filter r (filter (λ x. not (q x)) xs) ≡ filter r xs
filter-skip q r [] h = refl
filter-skip q r (x ∷ xs) h = elim (Bool-cases (q x)) [
  | inl e ↦ rw (e, h x e, not, if◌then◌else◌) (filter-skip q r xs h)
  | inr e ↦ elim (Bool-cases (r x)) [
    | inl f ↦ rw (e, f, not, if◌then◌else◌) (ap (λ ys. x ∷ ys) (filter-skip q r xs h))
    | inr f ↦ rw (e, f, not, if◌then◌else◌) (filter-skip q r xs h)
  ]
]

owned_apart : (u v : ℕ) (m : Monitor) → v ≢ u → owned_by v m ≡ true → owned_by u m ≡ false
owned_apart u v m n h = ground arith

-- Where the monitors that are not of `v` stay, those of another user stay.
mine_kept :
    (u v : ℕ) (ms ms' : List Monitor)
    → v ≢ u
    → filter (λ m. not (owned_by v m)) ms' ≡ filter (λ m. not (owned_by v m)) ms
    → filter (owned_by u) ms' ≡ filter (owned_by u) ms
mine_kept u v ms ms' n h =
    sym (filter-skip (owned_by v) (owned_by u) ms' (λ m. owned_apart u v m n))
    ∙ ap (filter (owned_by u)) h
    ∙ filter-skip (owned_by v) (owned_by u) ms (λ m. owned_apart u v m n)

-- A monitor of `v` is none of another user.
not_mine :
    (i u v : ℕ) (ms : List Monitor)
    → v ≢ u
    → OwnedAt i v ms
    → has_id (filter (owned_by u) ms) i ≡ false
not_mine i u v [] n h = refl
not_mine i u v (m ∷ ms) n h = elim (Bool-cases (owned_by u m)) [
  | inl e ↦ elim (Bool-cases (m.id == i)) [
    | inl f ↦ absurd (n (sym (h.0 (beq→eq m.id i f)) ∙ beq→eq m.user_id u e))
    | inr f ↦ rw (e, if◌then◌else◌) (rw f (not_mine i u v ms n h.1))
  ]
  | inr e ↦ rw (e, if◌then◌else◌) (not_mine i u v ms n h.1)
]

view_of :
    {mine mine' : List Monitor} {results results' : List CheckResult} {alerts alerts' : List Alert}
    → mine' ≡ mine
    → results' ≡ results
    → alerts' ≡ alerts
    → ◌≡◌ {A = View}
        (record { mine = mine'; results = results'; alerts = alerts' })
        (record { mine = mine; results = results; alerts = alerts })
view_of a b c = cc

-- The view over other monitors that are the same for the user.
view-with_monitors :
    (u : ℕ) (t : Tables) (ms : List Monitor)
    → filter (owned_by u) ms ≡ filter (owned_by u) t.monitors
    → view u (with_monitors t ms) ≡ view u t
view-with_monitors u t ms e =
    view_of e (ap (λ (mine : List Monitor). filter (λ r. has_id mine r.monitor_id) t.results) e)
      (ap (λ (mine : List Monitor). filter (λ a. has_id mine a.monitor_id) t.alerts) e)

rows_kept :
    {A : Type 0} (id : A → ℕ) (i : ℕ) (mine mine' : List Monitor) (xs : List A)
    → mine' ≡ mine
    → has_id mine i ≡ false
    → filter (λ x. has_id mine' (id x)) (delete_where (λ x. id x == i) xs)
      ≡ filter (λ x. has_id mine (id x)) xs
rows_kept id i mine mine' xs e h =
    ap (λ (ms : List Monitor). filter (λ x. has_id ms (id x)) (delete_where (λ x. id x == i) xs)) e
    ∙ filter-skip (λ x. id x == i) (λ x. has_id mine (id x)) xs
        (λ x k. ap (has_id mine) (beq→eq (id x) i k) ∙ h)

view-without :
    (i u v : ℕ) (t : Tables) → v ≢ u → OwnedAt i v t.monitors → view u (without i t) ≡ view u t
view-without i u v t n h =
    let mine = filter (owned_by u) t.monitors in
    let mine' = filter (owned_by u) (without i t).monitors in
    let same : mine' ≡ mine =
      mine_kept u v t.monitors (without i t).monitors n (filter-delete_where i v t.monitors h) in
    let apart = not_mine i u v t.monitors n h in
    view_of same (rows_kept (λ r. r.monitor_id) i mine mine' t.results same apart)
      (rows_kept (λ a. a.monitor_id) i mine mine' t.alerts same apart)

Edit-view : (u v : ℕ) (t t' : Tables) → v ≢ u → Consistent t → Edit v t t' → view u t' ≡ view u t
Edit-view u v t _ n k (unchanged t' e) = ap (view u) e
Edit-view u v t _ n k (changed i dto m t' q e) =
    ap (view u) e
    ∙ view-with_monitors u t (update_where (λ x. x.id == i) (patch dto) t.monitors) (
        mine_kept u v t.monitors _ n (
          filter-update_where i v (patch dto) t.monitors (patch-user_id dto)
            (find-OwnedAt i v t.monitors m k.distinct q)))
Edit-view u v t _ n k (removed i m t' q e) =
    ap (view u) e ∙ view-without i u v t n (find-OwnedAt i v t.monitors m k.distinct q)

mine_end :
    (u : ℕ) (ms : List Monitor) (row : Monitor)
    → row.user_id ≢ u
    → filter (owned_by u) (ms ++ row ∷ []) ≡ filter (owned_by u) ms
mine_end u [] row n =
    let e : (row.user_id == u) ≡ false = ground arith in rw (e, if◌then◌else◌) refl
mine_end u (m ∷ ms) row n =
    ap (λ (ys : List Monitor). if owned_by u m then m ∷ ys else ys) (mine_end u ms row n)

Change-view :
    (u v : ℕ) (t t' : Tables) → v ≢ u → Consistent t → Change v t t' → view u t' ≡ view u t
Change-view u v t _ n k (edited t' h) = Edit-view u v t t' n k h
Change-view u v t _ n k (added row t' own fresh e) =
    ap (view u) e
    ∙ view-with_monitors u t (t.monitors ++ row ∷ [])
        (mine_end u t.monitors row (λ q. n (sym own ∙ q)))

module _ (p : Platform) (config : Config) (c : Prisma) where
  open c use {Db, tables}

  -- Calls of `createMonitor`, `updateMonitor` and `deleteMonitor` in any order and with any
  -- answers, by users other than `u`, on consistent tables, leave the monitors of `u`, their check
  -- results and their alerts as they are.
  pub serve_all-view :
      (u : ℕ) (xs : List ServiceCall) (db : Db)
      → All (λ x. caller x ≢ u) xs
      → Consistent (tables db)
      → view u (tables (serve_all p config c xs db)) ≡ view u (tables db)
  unfolding serve_all
  serve_all-view u [] db h k = refl
  serve_all-view u (x ∷ xs) db h k =
      serve_all-view u xs (serve p config c x db) h.1 (serve-Consistent p config c x db k)
      ∙ Change-view u (caller x) _ _ h.0 k (serve-Change p config c x db)
