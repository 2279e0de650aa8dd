-- ===== src/PublicStatus/Published.antt =====
-- Which monitors the public status shows, and with what numbers.
use sentinel_project.Base.{
  All, Any, Bool-cases, List, [], any, ap, arith, eq_iff, false, filter, if◌then◌else◌, inl, inr,
  length, length-filter-le, map, nat_eq, not, refl, some, string_eq, suc, true, zero, ℕ, ◌&&◌, ◌*◌,
  ◌-◌, ◌<◌, ◌==◌, ◌∷◌, ◌≡◌, ◌≤◌,
}
use sentinel_project.Db.{Monitor, Tables, User}
use sentinel_project.PublicStatus.{
  PublicStatusResponse, hour, in_window, is_published, query_public_status, status_row, uptime,
}

-- Where a row of the answer comes from.
pub record IsShown (hours now : ℕ) (t : Tables) (r : PublicStatusResponse) : Type 0 where
  pub monitor : Monitor
  pub stored : Any (λ m. m ≡ monitor) t.monitors
  pub active : monitor.state ≡ "Active"
  pub public : monitor.is_public ≡ true
  pub owner : Any (λ u. (u.id ≡ monitor.user_id) × (u.is_demo ≡ false)) t.users
  pub row : r ≡ status_row hours now t.results monitor
  pub counts : r.check_summary.healthy_checks ≤ r.check_summary.total_checks
  pub share : (n d : ℕ) → r.uptime_percentage ≡ some (n, d) → (0 < d) × (n ≤ 100 * d)

owner-Any :
    (i : ℕ) (users : List User)
    → any (λ u. u.id == i && not u.is_demo) users ≡ true
    → Any (λ u. (u.id ≡ i) × (u.is_demo ≡ false)) users
owner-Any i [] h = cc
owner-Any i (u ∷ users) h = elim (Bool-cases (u.id == i && not u.is_demo)) [
  | inl e ↦ inl (ground arith)
  | inr e ↦ inr (owner-Any i users (rw e at h))
]

uptime_share :
    (healthy total n d : ℕ)
    → healthy ≤ total
    → uptime healthy total ≡ some (n, d)
    → (0 < d) × (n ≤ 100 * d)
unfolding uptime
uptime_share healthy zero n d h e = cc
uptime_share healthy (suc total) n d h e = ground arith

published :
    (users : List User) (m : Monitor)
    → is_published users m ≡ true
    → (m.state ≡ "Active")
      × (m.is_public ≡ true)
      × (any (λ u. u.id == m.user_id && not u.is_demo) users ≡ true)
unfolding is_published
published users m h = ground (arith, eq_iff m.state "Active")

status_row-IsShown :
    (hours now : ℕ) (t : Tables) (m : Monitor)
    → Any (λ x. x ≡ m) t.monitors
    → is_published t.users m ≡ true
    → IsShown hours now t (status_row hours now t.results m)
unfolding status_row
status_row-IsShown hours now t m at h =
    let (active, public, owner) = published t.users m h in
    let checks = filter (in_window m.id (now - hours * hour) now) t.results in
    let less = length-filter-le (λ r. r.state == "healthy") checks in
    record {
      monitor = m;
      stored = at;
      active = active;
      public = public;
      owner = owner-Any m.user_id t.users owner;
      row = refl;
      counts = less;
      share = λ n d. uptime_share _ (length checks) n d less;
    }

rows-IsShown :
    (hours now : ℕ) (t : Tables) (ms : List Monitor)
    → ((m : Monitor) → Any (λ x. x ≡ m) ms → Any (λ x. x ≡ m) t.monitors)
    → All
        (IsShown hours now t)
        (map (status_row hours now t.results) (filter (is_published t.users) ms))
rows-IsShown hours now t [] k = tt
rows-IsShown hours now t (m ∷ ms) k =
    let rest = rows-IsShown hours now t ms (λ x h. k x (inr h)) in
    elim (Bool-cases (is_published t.users m)) [
      | inl e ↦ rw (e, if◌then◌else◌) (status_row-IsShown hours now t m (k m (inl refl)) e, rest)
      | inr e ↦ rw (e, if◌then◌else◌) rest
    ]

-- Every row of the answer is that of a stored monitor, active and public, of a stored user who is
-- no demo user; its healthy checks are among its checks, and its uptime, where there is one, is
-- between 0 and 100 percent.
pub query_public_status-IsShown :
    (hours now : ℕ) (t : Tables) → All (IsShown hours now t) (query_public_status hours now t)
unfolding query_public_status
query_public_status-IsShown hours now t = rows-IsShown hours now t t.monitors (λ m h. h)

Any-owner :
    (i : ℕ) (users : List User)
    → Any (λ u. (u.id ≡ i) × (u.is_demo ≡ false)) users
    → any (λ u. u.id == i && not u.is_demo) users ≡ true
Any-owner i [] h = absurd h
Any-owner i (u ∷ users) (inl e) = ground (arith, e.0, e.1)
Any-owner i (u ∷ users) (inr h) = ground (arith, Any-owner i users h)

shown_from :
    (hours now : ℕ) (t : Tables) (m : Monitor) (ms : List Monitor)
    → is_published t.users m ≡ true
    → Any (λ x. x ≡ m) ms
    → Any
        (λ r. r ≡ status_row hours now t.results m)
        (map (status_row hours now t.results) (filter (is_published t.users) ms))
shown_from hours now t m [] e h = absurd h
shown_from hours now t m (x ∷ ms) e (inl q) =
    let same : is_published t.users x ≡ true = cc in
    rw (same, if◌then◌else◌) (inl (ap (status_row hours now t.results) q))
shown_from hours now t m (x ∷ ms) e (inr h) =
    let rest = shown_from hours now t m ms e h in
    elim (Bool-cases (is_published t.users x)) [
      | inl f ↦ rw (f, if◌then◌else◌) (inr rest)
      | inr f ↦ rw (f, if◌then◌else◌) rest
    ]

-- Every stored monitor that is active and public and whose owner is stored and no demo user has its
-- row in the answer: no published monitor is left out.
pub query_public_status_complete :
    (hours now : ℕ) (t : Tables) (m : Monitor)
    → Any (λ x. x ≡ m) t.monitors
    → m.state ≡ "Active"
    → m.is_public ≡ true
    → Any (λ u. (u.id ≡ m.user_id) × (u.is_demo ≡ false)) t.users
    → Any (λ r. r ≡ status_row hours now t.results m) (query_public_status hours now t)
unfolding query_public_status is_published
query_public_status_complete hours now t m at active public owner =
    let known = Any-owner m.user_id t.users owner in
    let running = (eq_iff m.state "Active").1 active in
    shown_from hours now t m t.monitors (rw (running, known) (ground (arith, public))) at
