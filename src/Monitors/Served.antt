-- ===== src/Monitors/Served.antt =====
-- The limit of monitors over all calls that change the database.
use sentinel_project.Base.{
  All, Bool, Bool-cases, List, [], arith, filter, if◌then◌else◌, inl, inr, length, nat_eq, not,
  refl, string_eq, ℕ, ◌==◌, ◌∷◌, ◌≡◌, ◌≢◌, ◌≤◌, ◌⊎◌,
}
use sentinel_project.Base.Number.{num}
use sentinel_project.Base.Text.{Platform}
use sentinel_project.Db.{Monitor, Prisma, Tables, update_where}
use sentinel_project.Monitors.{Config, max_monitors, owned_by, patch, user_id}
use sentinel_project.Monitors.Calls.{
  Edit, ServiceCall, changed, creating, delete_monitor-Edit, deleting, removed, serve, serve_all,
  unchanged, update_monitor-Edit, updating,
}
use sentinel_project.Monitors.Create.{count_of}
use sentinel_project.Monitors.Dto.{UpdateMonitorDto}
use sentinel_project.Monitors.Limit.{count-create_monitor}

-- A call that makes a monitor is of another user than `u`, or the limit configured for it is `k`.
abbrev pub IsLimited : Platform → Config → ℕ → ℕ → ServiceCall → Type 0
IsLimited p config u k (creating dto user now) =
    (user_id user ≢ u) ⊎ (max_monitors p config user ≡ num k)
IsLimited p config u k (updating i user dto) = Unit
IsLimited p config u k (deleting i v) = Unit

limit_of : {A B : Type 0} → (¬ A) ⊎ B → A → B
limit_of (inl n) a = absurd (n a)
limit_of (inr b) a = b

length-filter-filter {ℓ} :
    {A : Type ℓ} (q r : A → Bool) (xs : List A)
    → length (filter r (filter q xs)) ≤ length (filter r xs)
length-filter-filter q r [] = omega arith
length-filter-filter q r (x ∷ xs) = elim (Bool-cases (q x)) [
  | inl e ↦ rw (e, if◌then◌else◌) (ground (arith, length-filter-filter q r xs))
  | inr e ↦ rw (e, if◌then◌else◌) (ground (arith, length-filter-filter q r xs))
]

count_update :
    (u i : ℕ) (dto : UpdateMonitorDto) (ms : List Monitor)
    → length (filter (owned_by u) (update_where (λ x. x.id == i) (patch dto) ms))
      ≡ length (filter (owned_by u) ms)
unfolding patch
count_update u i dto [] = refl
count_update u i dto (m ∷ ms) = elim (Bool-cases (m.id == i)) [
  | inl e ↦ rw (e, if◌then◌else◌) (ground (arith, count_update u i dto ms))
  | inr e ↦ rw (e, if◌then◌else◌) (ground (arith, count_update u i dto ms))
]

-- An edit makes no monitor.
count-Edit : (u v : ℕ) (t t' : Tables) → Edit v t t' → count_of u t' ≤ count_of u t
count-Edit u v t _ (unchanged t' e) = rw e (omega arith)
count-Edit u v t _ (changed i dto m t' q e) = rw e (omega (arith, count_update u i dto t.monitors))
count-Edit u v t _ (removed i m t' q e) =
    rw e (length-filter-filter (λ x. not (x.id == i)) (owned_by u) t.monitors)

module _ (p : Platform) (config : Config) (c : Prisma) where
  open c use {Db, tables}

  count-serve :
      (u k : ℕ) (x : ServiceCall) (db : Db)
      → IsLimited p config u k x
      → count_of u (tables db) ≤ k
      → count_of u (tables (serve p config c x db)) ≤ k
  unfolding serve
  count-serve u k (creating dto user now) db l h =
      count-create_monitor p config c u k (record { dto = dto; user = user; now = now }) db
        (limit_of l) h
  count-serve u k (updating i user dto) db l h =
      let fewer = count-Edit u (user_id user) _ _ (update_monitor-Edit p config c i user dto db) in
      omega (arith, fewer, h)
  count-serve u k (deleting i v) db l h =
      let fewer = count-Edit u v _ _ (delete_monitor-Edit p config c i v db) in
      omega (arith, fewer, h)

  -- Calls of `createMonitor`, `updateMonitor` and `deleteMonitor` one after the other, in any order
  -- and with any answers, keep a user within a limit `k`, where that user keeps to it at the start,
  -- and `k` is the limit configured for each of the calls that make a monitor for that user.
  pub serve_all-limit :
      (u k : ℕ) (xs : List ServiceCall) (db : Db)
      → All (IsLimited p config u k) xs
      → count_of u (tables db) ≤ k
      → count_of u (tables (serve_all p config c xs db)) ≤ k
  unfolding serve_all
  serve_all-limit u k [] db l h = h
  serve_all-limit u k (x ∷ xs) db l h =
      serve_all-limit u k xs (serve p config c x db) l.1 (count-serve u k x db l.0 h)
