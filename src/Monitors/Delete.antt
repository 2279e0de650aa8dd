-- ===== src/Monitors/Delete.antt =====
-- What `deleteMonitor` removes, and what it leaves.
use sentinel_project.Base.{
  All, Any, Bool-cases, List, Option, String, [], ap, arith, beq→eq, filter, find, find-Any,
  if◌then◌else◌, inl, inr, nat_eq, none, not, refl, some, string_eq, subst, sym, ℕ, ◌==◌, ◌∙◌, ◌∷◌,
  ◌≡◌, ◌≢◌,
}
use sentinel_project.Base.Result.{ok}
use sentinel_project.Base.Text.{Platform}
use sentinel_project.Db.{Monitor, Prisma, Tables, delete_where}
use sentinel_project.Monitors.{Config, delete_all, delete_found, delete_monitor, is_owned, owned_by}
use sentinel_project.Monitors.Owner.{DistinctIds, filter-delete_where, find-OwnedAt, found-owner}

-- Every check result and every alert is of a monitor that is there.
pub record NoOrphans (t : Tables) : Type 0 where
  pub results : All (λ r. Any (λ m. m.id ≡ r.monitor_id) t.monitors) t.results
  pub alerts : All (λ a. Any (λ m. m.id ≡ a.monitor_id) t.monitors) t.alerts

-- The tables without a monitor and what belongs to it.
abbrev pub without : ℕ → Tables → Tables
without i t = record {
  monitors = delete_where (λ m. m.id == i) t.monitors;
  results = delete_where (λ r. r.monitor_id == i) t.results;
  alerts = delete_where (λ a. a.monitor_id == i) t.alerts;
  users = t.users;
}

kept-ne {ℓ} :
    {A : Type ℓ} (id : A → ℕ) (i : ℕ) (xs : List A)
    → All (λ x. id x ≢ i) (delete_where (λ x. id x == i) xs)
kept-ne id i [] = tt
kept-ne id i (x ∷ xs) = elim (Bool-cases (id x == i)) [
  | inl e ↦ rw (e, not, if◌then◌else◌) (kept-ne id i xs)
  | inr e ↦ rw (e, not, if◌then◌else◌) ((λ q. ground arith), kept-ne id i xs)
]

Any-delete_where :
    (i j : ℕ) (ms : List Monitor)
    → j ≢ i
    → Any (λ m. m.id ≡ j) ms
    → Any (λ m. m.id ≡ j) (delete_where (λ m. m.id == i) ms)
Any-delete_where i j (m ∷ ms) n h = elim (Bool-cases (m.id == i)) [
  | inl e ↦
      rw (e, not, if◌then◌else◌)
        (elim h [
          | inl q ↦ absurd (n (sym q ∙ beq→eq m.id i e))
          | inr r ↦ Any-delete_where i j ms n r
        ])
  | inr e ↦
      rw (e, not, if◌then◌else◌)
        (elim h [ inl q ↦ inl q | inr r ↦ inr (Any-delete_where i j ms n r) ])
]
Any-delete_where i j [] n h = h

module _ {A : Type 0} (id : A → ℕ) (i : ℕ) (ms : List Monitor) where
  orphan_free :
      (xs : List A)
      → All (λ x. Any (λ m. m.id ≡ id x) ms) xs
      → All
          (λ x. Any (λ m. m.id ≡ id x) (delete_where (λ m. m.id == i) ms))
          (delete_where (λ x. id x == i) xs)
  orphan_free [] h = tt
  orphan_free (x ∷ xs) h = elim (Bool-cases (id x == i)) [
    | inl e ↦ rw (e, not, if◌then◌else◌) (orphan_free xs h.1)
    | inr e ↦
        rw (e, not, if◌then◌else◌)
          (Any-delete_where i (id x) ms (λ q. ground arith) h.0, orphan_free xs h.1)
  ]

pub without-NoOrphans : (i : ℕ) (t : Tables) → NoOrphans t → NoOrphans (without i t)
without-NoOrphans i t h = record {
  results = orphan_free (λ r. r.monitor_id) i t.monitors t.results h.results;
  alerts = orphan_free (λ a. a.monitor_id) i t.monitors t.alerts h.alerts;
}

module _ (p : Platform) (config : Config) (c : Prisma) where
  open c use {Db, tables, find_first_lem}

  pub delete_all-without :
      (i : ℕ) (db : Db) → tables (delete_all p config c i db) ≡ without i (tables db)
  unfolding delete_all
  delete_all-without i db =
      let without_results = c.results_delete_many (λ r. r.monitor_id == i) db in
      let without_alerts = c.alerts_delete_many (λ a. a.monitor_id == i) without_results in
      let first = c.results_delete_lem (λ r. r.monitor_id == i) db in
      let second = c.alerts_delete_lem (λ a. a.monitor_id == i) without_results in
      let third = c.delete_lem i without_alerts in rw (third, second, first)

  -- What holds after a call that answers.
  pub record IsDeleted (i u : ℕ) (before after : Db) : Type 0 where
    pub found : Monitor
    pub at : Any (λ m. m ≡ found) (tables before).monitors
    pub own : (found.id ≡ i) × (found.user_id ≡ u)
    pub stored : tables after ≡ without i (tables before)
    pub no_monitor : All (λ m. m.id ≢ i) (tables after).monitors
    pub no_result : All (λ r. r.monitor_id ≢ i) (tables after).results
    pub no_alert : All (λ a. a.monitor_id ≢ i) (tables after).alerts

  delete_found-IsDeleted :
      (i u : ℕ) (db : Db) (o : Option Monitor) (said : String)
      → find (is_owned i u) (tables db).monitors ≡ o
      → (delete_found p config c o i db).0 ≡ ok said
      → IsDeleted i u db (delete_found p config c o i db).1
  unfolding delete_found
  delete_found-IsDeleted i u db none said q h = cc
  delete_found-IsDeleted i u db (some m) said q h =
      let t = tables db in
      let gone = delete_all-without i db in
      record {
        found = m;
        at = find-Any (is_owned i u) t.monitors m q;
        own = found-owner i u t.monitors m q;
        stored = gone;
        no_monitor = rw gone (kept-ne (λ m. m.id) i t.monitors);
        no_result = rw gone (kept-ne (λ r. r.monitor_id) i t.results);
        no_alert = rw gone (kept-ne (λ a. a.monitor_id) i t.alerts);
      }

  -- What a call that answers has done: a stored monitor with that id was the caller's; every
  -- monitor with that id, and its check results and its alerts, are gone, and every other row of
  -- the tables is as it was.
  pub delete_monitor-IsDeleted :
      (i u : ℕ) (db : Db) (said : String)
      → (delete_monitor p config c i u db).0 ≡ ok said
      → IsDeleted i u db (delete_monitor p config c i u db).1
  unfolding delete_monitor
  delete_monitor-IsDeleted i u db said h =
      delete_found-IsDeleted i u db (c.monitor_find_first (is_owned i u) db) said
        (sym (find_first_lem _ db)) h

  delete_found-others :
      (i u : ℕ) (db : Db) (o : Option Monitor)
      → DistinctIds (tables db).monitors
      → find (is_owned i u) (tables db).monitors ≡ o
      → filter (λ x. not (owned_by u x)) (tables (delete_found p config c o i db).1).monitors
        ≡ filter (λ x. not (owned_by u x)) (tables db).monitors
  unfolding delete_found
  delete_found-others i u db none d q = refl
  delete_found-others i u db (some m) d q =
      ap (λ (t : Tables). filter (λ x. not (owned_by u x)) t.monitors) (delete_all-without i db)
      ∙ filter-delete_where i u (tables db).monitors (find-OwnedAt i u (tables db).monitors m d q)

  -- Where no two monitors share an id, a call, whatever its answer, leaves the monitors of all
  -- other users as they are.
  pub delete_monitor-others :
      (i u : ℕ) (db : Db)
      → DistinctIds (tables db).monitors
      → filter (λ x. not (owned_by u x)) (tables (delete_monitor p config c i u db).1).monitors
        ≡ filter (λ x. not (owned_by u x)) (tables db).monitors
  unfolding delete_monitor
  delete_monitor-others i u db d =
      delete_found-others i u db (c.monitor_find_first (is_owned i u) db) d
        (sym (find_first_lem _ db))

  delete_found-NoOrphans :
      (i : ℕ) (db : Db) (o : Option Monitor)
      → NoOrphans (tables db)
      → NoOrphans (tables (delete_found p config c o i db).1)
  unfolding delete_found
  delete_found-NoOrphans i db none h = h
  delete_found-NoOrphans i db (some m) h =
      subst NoOrphans (sym (delete_all-without i db)) (without-NoOrphans i (tables db) h)

  -- A call, whatever its answer, leaves no check result and no alert without its monitor.
  pub delete_monitor-NoOrphans :
      (i u : ℕ) (db : Db)
      → NoOrphans (tables db)
      → NoOrphans (tables (delete_monitor p config c i u db).1)
  unfolding delete_monitor
  delete_monitor-NoOrphans i u db h =
      delete_found-NoOrphans i db (c.monitor_find_first (is_owned i u) db) h
