-- ===== src/Monitors/Consistent.antt =====
-- What holds of the tables throughout the life of the service.
use sentinel_project.Base.{
  All, All-append, All-map, Any, Bool, Bool-cases, List, [], filter, if◌then◌else◌, inl, inr,
  nat_eq, not, refl, string_eq, subst, sym, ℕ, ◌++◌, ◌==◌, ◌∙◌, ◌∷◌, ◌≡◌, ◌≢◌,
}
use sentinel_project.Base.Text.{Platform}
use sentinel_project.Db.{Monitor, Prisma, Tables, update_where, with_monitors}
use sentinel_project.Monitors.{Config, patch}
use sentinel_project.Monitors.Calls.{
  Change, Edit, ServiceCall, added, caller, changed, edited, removed, serve, serve-Change,
  serve_all, unchanged,
}
use sentinel_project.Monitors.Delete.{NoOrphans, without-NoOrphans}
use sentinel_project.Monitors.Dto.{UpdateMonitorDto}
use sentinel_project.Monitors.Owner.{DistinctIds}

-- No two monitors share an id, and every check result and every alert is of a monitor that is
-- there.
pub record Consistent (t : Tables) : Type 0 where
  pub distinct : DistinctIds t.monitors
  pub no_orphans : NoOrphans t

pub distinct_end :
    (ms : List Monitor) (row : Monitor)
    → DistinctIds ms
    → All (λ m. m.id ≢ row.id) ms
    → DistinctIds (ms ++ row ∷ [])
distinct_end [] row d h = (tt, tt)
distinct_end (m ∷ ms) row d h = (
  All-append (λ x. x.id ≢ m.id) ms (row ∷ []) d.0 ((λ e. h.0 (sym e)), tt),
  distinct_end ms row d.1 h.1,
)

pub Any-end :
    (P : Monitor → Type 0) (ms : List Monitor) (row : Monitor) → Any P ms → Any P (ms ++ row ∷ [])
Any-end P [] row h = absurd h
Any-end P (m ∷ ms) row (inl h) = inl h
Any-end P (m ∷ ms) row (inr h) = inr (Any-end P ms row h)

-- A change that keeps the ids, made to some rows, leaves each id in its place.
module _ (q : Monitor → Bool) (f : Monitor → Monitor)
    (keeps : (m : Monitor) → (f m).id ≡ m.id) where
  update_id : (m : Monitor) → (if q m then f m else m).id ≡ m.id
  update_id m = elim (Bool-cases (q m)) [
    | inl e ↦ rw (e, if◌then◌else◌) (keeps m)
    | inr e ↦ rw (e, if◌then◌else◌) refl
  ]

  ids_differ :
      (k : ℕ) (ms : List Monitor)
      → All (λ x. x.id ≢ k) ms
      → All (λ x. x.id ≢ k) (update_where q f ms)
  ids_differ k [] h = tt
  ids_differ k (m ∷ ms) h = (λ e. h.0 (sym (update_id m) ∙ e), ids_differ k ms h.1)

  pub distinct_update : (ms : List Monitor) → DistinctIds ms → DistinctIds (update_where q f ms)
  distinct_update [] d = tt
  distinct_update (m ∷ ms) d = (
    subst (λ k. All (λ x. x.id ≢ k) (update_where q f ms)) (sym (update_id m))
        (ids_differ m.id ms d.0),
    distinct_update ms d.1,
  )

  Any-update :
      (k : ℕ) (ms : List Monitor)
      → Any (λ m. m.id ≡ k) ms
      → Any (λ m. m.id ≡ k) (update_where q f ms)
  Any-update k [] h = h
  Any-update k (m ∷ ms) (inl h) = inl (update_id m ∙ h)
  Any-update k (m ∷ ms) (inr h) = inr (Any-update k ms h)

patch-id : (dto : UpdateMonitorDto) (m : Monitor) → (patch dto m).id ≡ m.id
unfolding patch
patch-id dto m = refl

All-filter {ℓ} :
    {A : Type ℓ} (P : A → Type 0) (q : A → Bool) (xs : List A) → All P xs → All P (filter q xs)
All-filter P q [] h = tt
All-filter P q (x ∷ xs) h = elim (Bool-cases (q x)) [
  | inl e ↦ rw (e, if◌then◌else◌) (h.0, All-filter P q xs h.1)
  | inr e ↦ rw (e, if◌then◌else◌) (All-filter P q xs h.1)
]

distinct_filter :
    (q : Monitor → Bool) (ms : List Monitor) → DistinctIds ms → DistinctIds (filter q ms)
distinct_filter q [] d = tt
distinct_filter q (m ∷ ms) d = elim (Bool-cases (q m)) [
  | inl e ↦ rw (e, if◌then◌else◌) (All-filter (λ x. x.id ≢ m.id) q ms d.0, distinct_filter q ms d.1)
  | inr e ↦ rw (e, if◌then◌else◌) (distinct_filter q ms d.1)
]

-- Where every monitor that is there stays, no row loses its monitor.
orphans_with :
    (t : Tables) (ms : List Monitor)
    → ((k : ℕ) → Any (λ m. m.id ≡ k) t.monitors → Any (λ m. m.id ≡ k) ms)
    → NoOrphans t
    → NoOrphans (with_monitors t ms)
orphans_with t ms f h = record {
  results = All-map (λ r. f r.monitor_id) t.results h.results;
  alerts = All-map (λ a. f a.monitor_id) t.alerts h.alerts;
}

Edit-Consistent : (u : ℕ) (t t' : Tables) → Edit u t t' → Consistent t → Consistent t'
Edit-Consistent u t _ (unchanged t' e) h = subst Consistent (sym e) h
Edit-Consistent u t _ (changed i dto m t' q e) h = subst Consistent (sym e) record {
  distinct = distinct_update (λ x. x.id == i) (patch dto) (patch-id dto) t.monitors h.distinct;
  no_orphans =
      orphans_with t _ (λ k. Any-update (λ x. x.id == i) (patch dto) (patch-id dto) k t.monitors)
        h.no_orphans;
}
Edit-Consistent u t _ (removed i m t' q e) h = subst Consistent (sym e) record {
  distinct = distinct_filter (λ x. not (x.id == i)) t.monitors h.distinct;
  no_orphans = without-NoOrphans i t h.no_orphans;
}

Change-Consistent : (u : ℕ) (t t' : Tables) → Change u t t' → Consistent t → Consistent t'
Change-Consistent u t _ (edited t' h) k = Edit-Consistent u t t' h k
Change-Consistent u t _ (added row t' own fresh e) h = subst Consistent (sym e) record {
  distinct = distinct_end t.monitors row h.distinct fresh;
  no_orphans = orphans_with t _ (λ k. Any-end (λ m. m.id ≡ k) t.monitors row) h.no_orphans;
}

module _ (p : Platform) (config : Config) (c : Prisma) where
  open c use {Db, tables}

  pub serve-Consistent :
      (x : ServiceCall) (db : Db)
      → Consistent (tables db)
      → Consistent (tables (serve p config c x db))
  serve-Consistent x db h = Change-Consistent (caller x) _ _ (serve-Change p config c x db) h

  -- Calls of `createMonitor`, `updateMonitor` and `deleteMonitor` in any order, by any users and
  -- with any answers, keep the tables consistent: no two monitors share an id, and every check
  -- result and every alert is of a monitor that is there.
  pub serve_all-Consistent :
      (xs : List ServiceCall) (db : Db)
      → Consistent (tables db)
      → Consistent (tables (serve_all p config c xs db))
  unfolding serve_all
  serve_all-Consistent [] db h = h
  serve_all-Consistent (x ∷ xs) db h =
      serve_all-Consistent xs (serve p config c x db) (serve-Consistent x db h)
