-- ===== src/StatusView/Classified.antt =====
-- When the page calls a monitor operational, and when it calls it down.
use sentinel_project.Base.{
  Bool, Bool-cases, Option, String, ap, arith, eq_iff, false, if◌then◌else◌, inl, inr, nat_eq, none,
  not, opt_eq, refl, some, string_eq, true, ℕ, ◌&&◌, ◌-◌, ◌||◌, ◌≡◌, ◌≤◌,
}
use sentinel_project.Base.Number.{Number, infinity, int, lt_num, nan, neg_infinity, num, ℤ}
use sentinel_project.Base.Text.{Platform}
use sentinel_project.Db.Memory.{above}
use sentinel_project.StatusView.{
  PublicStatusMonitor, StatusLabel, StatusOptions, by_uptime, checked_at, classify_status, down,
  is_stale, minutes, no_data, operational,
}

module _ (p : Platform) (o : StatusOptions) where
  -- The last check is known, is not in the future, and is not older than the limit.
  pub record IsFresh (m : PublicStatusMonitor) : Type 0 where
    pub time : ℕ
    pub parsed : checked_at p m ≡ some time
    pub past : time ≤ o.now
    pub recent : lt_num (minutes o.stale_after_minutes) (num (o.now - time)) ≡ false

  recent_check :
      (m : PublicStatusMonitor) (t : Option ℕ)
      → checked_at p m ≡ t
      → is_stale t o ≡ false
      → IsFresh m
  unfolding is_stale
  recent_check m none e h = cc
  recent_check m (some t) e h = record {
    time = t;
    parsed = e;
    past = ground arith;
    recent = ground arith;
  }

  state_text : (o' : Option String) (s : String) → opt_eq o' (some s) ≡ true → o' ≡ some s
  state_text none s h = cc
  state_text (some t) s h = ap some ((eq_iff t s).0 h)

  rated_operational :
      (u : Option Number) (n : Number)
      → by_uptime u n ≡ operational
      → (z : ℤ) × (u ≡ some (int z)) × (lt_num (int z) n ≡ false)
  unfolding by_uptime
  rated_operational none n h = absurd (ground arith)
  rated_operational (some nan) n h = absurd (ground arith)
  rated_operational (some infinity) n h = absurd (ground arith)
  rated_operational (some neg_infinity) n h = absurd (ground arith)
  rated_operational (some (int z)) n h = elim (Bool-cases (lt_num (int z) n)) [
    | inl e ↦ absurd (ground (arith, rw (e, if◌then◌else◌) at h))
    | inr e ↦ (z, refl, e)
  ]

  tested :
      (stale healthy unhealthy : Bool) (rated : StatusLabel)
      → (if stale || (not healthy && not unhealthy)
          then no_data
          else if unhealthy
          then down
          else rated)
        ≡ operational
      → (stale ≡ false) × (healthy ≡ true) × (rated ≡ operational)
  tested stale healthy unhealthy rated h = ground arith

  -- A monitor is called operational only where its last check is fresh and healthy, and its uptime
  -- is known and not below the threshold.
  pub classify_status-IsFresh :
      (m : PublicStatusMonitor)
      → classify_status p m o ≡ operational
      → IsFresh m
        × (m.last_state ≡ some "healthy")
        × (z : ℤ) × (m.uptime_percentage ≡ some (int z))
        × (lt_num (int z) o.degraded_threshold_percent ≡ false)
  unfolding classify_status
  classify_status-IsFresh m h =
      let (fresh, healthy, rated) = tested _ _ _ _ h in
      let (z, known, above) = rated_operational _ o.degraded_threshold_percent rated in
      (
        recent_check m (checked_at p m) refl fresh,
        state_text m.last_state "healthy" healthy,
        z,
        known,
        above,
      )
