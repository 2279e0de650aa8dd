-- ===== src/Monitors/Reads.antt =====
-- What the reads of a monitor's history and alerts return, and to whom.
use mathlib.Core.List.{Perm}
use sentinel_project.Base.{
  All, All-map, Any, Bool-cases, List, Option, [], arith, beq→eq, filter, find, find-Any, find-none,
  find-some, if◌then◌else◌, inl, inr, length, map, min, nat_eq, none, refl, some, string_eq, sym, ℕ,
  ◌++◌, ◌==◌, ◌∷◌, ◌≡◌, ◌≢◌, ◌≤◌,
}
use sentinel_project.Base.Number.{show}
use sentinel_project.Base.Result.{Result, forbidden, not_found, ok, throw, ◌>>◌}
use sentinel_project.Base.Text.{Platform}
use sentinel_project.Db.{Alert, CheckResult, Descending, IsPage, Monitor, Prisma}
use sentinel_project.Db.Memory.{page}
use sentinel_project.Monitors.{Config, get_alerts, get_history, get_monitor_by_id, readable}
use sentinel_project.Monitors.Dto.{
  AlertResponse, CheckResultResponse, alert_response, result_response,
}

abbrev pub Pairwise : {A B : Type 0} → (A → B → Type 0) → List A → List B → Type 0
Pairwise P [] [] = Unit
Pairwise P [] (y ∷ ys) = ⊥
Pairwise P (x ∷ xs) [] = ⊥
Pairwise P (x ∷ xs) (y ∷ ys) = P x y × Pairwise P xs ys

-- What an answer shows of a check result, and of an alert.
pub record ShowsResult (r : CheckResult) (a : CheckResultResponse) : Type 0 where
  pub id : a.id ≡ r.id
  pub monitor_id : a.monitor_id ≡ r.monitor_id
  pub state : a.state ≡ r.state
  pub status_code : a.status_code ≡ r.status_code
  pub latency_ms : a.latency_ms ≡ r.latency_ms
  pub error_message : a.error_message ≡ r.error_message
  pub created_at : a.created_at ≡ r.created_at

pub record ShowsAlert (r : Alert) (a : AlertResponse) : Type 0 where
  pub id : a.id ≡ r.id
  pub monitor_id : a.monitor_id ≡ r.monitor_id
  pub alert_type : a.alert_type ≡ r.alert_type
  pub message : a.message ≡ r.message
  pub created_at : a.created_at ≡ r.created_at

result_response-ShowsResult : (r : CheckResult) → ShowsResult r (result_response r)
unfolding result_response
result_response-ShowsResult r = record {
  id = refl;
  monitor_id = refl;
  state = refl;
  status_code = refl;
  latency_ms = refl;
  error_message = refl;
  created_at = refl;
}

alert_response-ShowsAlert : (a : Alert) → ShowsAlert a (alert_response a)
unfolding alert_response
alert_response-ShowsAlert a = record {
  id = refl;
  monitor_id = refl;
  alert_type = refl;
  message = refl;
  created_at = refl;
}

Pairwise-map :
    {A B : Type 0} (P : A → B → Type 0) (f : A → B) (xs : List A)
    → ((x : A) → P x (f x))
    → Pairwise P xs (map f xs)
Pairwise-map P f [] h = tt
Pairwise-map P f (x ∷ xs) h = (h x, Pairwise-map P f xs h)

module _ {A B : Type 0} (at : A → ℕ) (of : A → ℕ) (Shows : A → B → Type 0) where
  -- The newest `limit` of the rows of the monitor `i`, as an answer shows them: the rows that are
  -- shown and those that are left out are together the monitor's rows, and none that is left out is
  -- newer than one that is shown.
  pub record ShowsNewest (i limit : ℕ) (rows : List A) (answer : List B) : Type 0 where
    pub page : List A
    pub omitted : List A
    pub shown : Pairwise Shows page answer
    pub stored : Perm (page ++ omitted) (filter (λ x. of x == i) rows)
    pub newest : Descending (map at page)
    pub bounds : All (λ x. All (λ y. at y ≤ at x) omitted) page
    pub size : length page ≡ min limit (length (filter (λ x. of x == i) rows))

  -- What a read for the monitor `i` on behalf of `u` returns, on every branch.
  pub data IsRead (i u limit : ℕ) (ms : List Monitor) (rows : List A) (answer : Result (List B))
      : Type 0 where
    unknown :
        All (λ m. m.id ≢ i) ms
        → answer ≡ throw (not_found "Monitor no encontrado")
        → IsRead i u limit ms rows answer
    refused :
        (m : Monitor)
        → Any (λ x. x ≡ m) ms
        → m.id ≡ i
        → m.user_id ≢ u
        → answer ≡ throw (forbidden "No tienes permiso para ver el historial de este monitor")
        → IsRead i u limit ms rows answer
    allowed :
        (m : Monitor) (shown : List B)
        → Any (λ x. x ≡ m) ms
        → m.id ≡ i
        → m.user_id ≡ u
        → answer ≡ ok shown
        → ShowsNewest i limit rows shown
        → IsRead i u limit ms rows answer

  page-ShowsNewest :
      (show : A → B) (i limit : ℕ) (rows page : List A)
      → ((x : A) → Shows x (show x))
      → IsPage at (λ x. of x == i) limit rows page
      → ShowsNewest i limit rows (map show page)
  page-ShowsNewest show i limit rows page h r = record {
    page = page;
    omitted = r.omitted;
    shown = Pairwise-map Shows show page h;
    stored = r.perm;
    newest = r.newest;
    bounds = r.bounds;
    size = r.size;
  }

  found-IsRead :
      (p : Platform) (config : Config) (c : Prisma) (i u limit : ℕ) (ms : List Monitor)
      (rows : List A) (shown : List B) (o : Option Monitor)
      → find (λ m. m.id == i) ms ≡ o
      → ShowsNewest i limit rows shown
      → IsRead i u limit ms rows (readable p config c u o >> ok shown)
  unfolding readable
  found-IsRead p config c i u limit ms rows shown none e h =
      unknown (All-map (λ m f q. ground (arith, f, q)) ms (find-none (λ m. m.id == i) ms e)) refl
  found-IsRead p config c i u limit ms rows shown (some m) e h =
      let there = find-Any (λ m. m.id == i) ms m e in
      let same = beq→eq m.id i (find-some (λ m. m.id == i) ms m e) in
      elim (Bool-cases (m.user_id == u)) [
        | inl own ↦
            allowed m shown there same (beq→eq m.user_id u own) (rw (own, if◌then◌else◌) refl) h
        | inr other ↦
            refused m there same (λ q. ground (arith, q, other)) (rw (other, if◌then◌else◌) refl)
      ]

module _ (p : Platform) (config : Config) (c : Prisma) where
  open c use {Db, tables, find_first_lem}

  -- A read of a monitor's history answers 404 where no monitor has that id, 403 where the monitor
  -- with that id is another user's, and else shows check results of this monitor: at most `limit`
  -- of the stored ones, or all that there are, the newest first, and none that it leaves out is
  -- newer than one that it shows.
  pub get_history-IsRead :
      (i u limit : ℕ) (db : Db)
      → IsRead
          (λ r. r.created_at)
          (λ r. r.monitor_id)
          ShowsResult
          i
          u
          limit
          (tables db).monitors
          (tables db).results
          (get_history p config c i u limit db)
  unfolding get_history get_monitor_by_id
  get_history-IsRead i u limit db =
      found-IsRead (λ r. r.created_at) (λ r. r.monitor_id) ShowsResult p config c i u limit
        (tables db).monitors (tables db).results
        (map result_response (c.results_page (λ x. x.monitor_id == i) limit db))
        (c.monitor_find_first (λ m. m.id == i) db) (sym (find_first_lem _ db))
        (page-ShowsNewest (λ r. r.created_at) (λ r. r.monitor_id) ShowsResult result_response i
          limit (tables db).results (c.results_page (λ x. x.monitor_id == i) limit db)
          result_response-ShowsResult (c.results_page_lem (λ x. x.monitor_id == i) limit db))

  -- The same of a monitor's alerts.
  pub get_alerts-IsRead :
      (i u limit : ℕ) (db : Db)
      → IsRead
          (λ a. a.created_at)
          (λ a. a.monitor_id)
          ShowsAlert
          i
          u
          limit
          (tables db).monitors
          (tables db).alerts
          (get_alerts p config c i u limit db)
  unfolding get_alerts get_monitor_by_id
  get_alerts-IsRead i u limit db =
      found-IsRead (λ a. a.created_at) (λ a. a.monitor_id) ShowsAlert p config c i u limit
        (tables db).monitors (tables db).alerts
        (map alert_response (c.alerts_page (λ x. x.monitor_id == i) limit db))
        (c.monitor_find_first (λ m. m.id == i) db) (sym (find_first_lem _ db))
        (page-ShowsNewest (λ a. a.created_at) (λ a. a.monitor_id) ShowsAlert alert_response i limit
          (tables db).alerts (c.alerts_page (λ x. x.monitor_id == i) limit db)
          alert_response-ShowsAlert (c.alerts_page_lem (λ x. x.monitor_id == i) limit db))
