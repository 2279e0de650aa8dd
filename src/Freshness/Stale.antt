-- ===== src/Freshness/Stale.antt =====
-- When the client doubts that the checks still run.
use sentinel_project.Base.{
  Bool, Bool-cases, Option, String, arith, false, inl, inr, ltb→lt, max, none, refl, some, sym,
  true, ℕ, ◌*◌, ◌+◌, ◌<◌, ◌∙◌, ◌≡◌, ◌≤◌,
}
use sentinel_project.Base.Text.{Platform}
use sentinel_project.Freshness.{
  clock_delay, freshness_delay, is_engine_stale, is_shown_stale, older, parse_api_date,
}

older_time :
    (o : Option ℕ) (f now later : ℕ)
    → older o (max f 30 * 2) now ≡ true
    → now ≤ later
    → (t : ℕ) × (o ≡ some t)
      × (t + 60000 < now)
      × (t + 2000 * f < now)
      × (older o (max f 30 * 2) later ≡ true)
older_time none f now later h k = cc
older_time (some t) f now later h k =
    let past = ltb→lt _ _ h in (t, refl, omega (arith, past), omega (arith, past), ground arith)

-- A monitor whose checks are doubted was checked at a known time, which is more than a minute and
-- more than two of its periods ago; and the doubt stays until there is another check.
pub is_engine_stale_since :
    (p : Platform) (s : String) (frequency now later : ℕ)
    → is_engine_stale p (some s) frequency now ≡ true
    → now ≤ later
    → (t : ℕ) × (parse_api_date p s ≡ some t)
      × (t + 60000 < now)
      × (t + 2000 * frequency < now)
      × (is_engine_stale p (some s) frequency later ≡ true)
unfolding is_engine_stale
is_engine_stale_since p s frequency now later h k =
    older_time (parse_api_date p s) frequency now later h k

still_fresh :
    (o : Option ℕ) (f now later : ℕ)
    → older o (max f 30 * 2) now ≡ false
    → later < now + clock_delay o f true now
    → older o (max f 30 * 2) later ≡ false
still_fresh none f now later h k = refl
still_fresh (some t) f now later h k = ground arith

-- What is shown from the run of the effect at `now` until the clock is read again, at a time
-- `later`, where the state of the clock is `clock` and `stale` says at which times the monitor is
-- in doubt.
pub data IsTimely (stale : ℕ → Bool) (delay clock now later : ℕ) : Type 0 where
  exact : stale clock ≡ stale later → IsTimely stale delay clock now later
  late :
      stale clock ≡ false
      → stale now ≡ true
      → delay ≡ 30000
      → stale (now + delay) ≡ true
      → IsTimely stale delay clock now later

older_later :
    (o : Option ℕ) (f now later : ℕ)
    → older o (max f 30 * 2) now ≡ true
    → now ≤ later
    → older o (max f 30 * 2) later ≡ true
older_later none f now later h k = cc
older_later (some t) f now later h k = ground arith

older_delay :
    (o : Option ℕ) (f now : ℕ)
    → older o (max f 30 * 2) now ≡ true
    → clock_delay o f true now ≡ 30000
older_delay none f now h = refl
older_delay (some t) f now h = ground arith

timely :
    (o : Option ℕ) (f clock now later : ℕ)
    → clock ≤ now
    → now ≤ later
    → later < now + clock_delay o f true now
    → IsTimely (λ n. older o (max f 30 * 2) n) (clock_delay o f true now) clock now later
timely o f clock now later h k l = elim (Bool-cases (older o (max f 30 * 2) clock)) [
  | inl e ↦ exact (e ∙ sym (older_later o f clock later e (omega (arith, h, k))))
  | inr e ↦ elim (Bool-cases (older o (max f 30 * 2) now)) [
    | inl g ↦ late e g (older_delay o f now g) (older_later o f now _ g (omega arith))
    | inr g ↦ exact (e ∙ sym (still_fresh o f now later g l))
  ]
]

-- From a run of the hook's effect until its timer fires, what is shown, for the state of the clock,
-- is what is the case; or the monitor came to be in doubt after the clock was read and before the
-- effect ran, so that it is shown as fresh although it is not, until the clock is read again 30
-- seconds after the effect, which then shows the doubt.
pub freshness_delay-IsTimely :
    (p : Platform) (last : Option String) (frequency : ℕ) (enabled : Bool) (clock now later : ℕ)
    → clock ≤ now
    → now ≤ later
    → later < now + freshness_delay p last frequency enabled now
    → IsTimely
        (is_shown_stale p last frequency enabled)
        (freshness_delay p last frequency enabled now)
        clock
        now
        later
unfolding is_shown_stale freshness_delay is_engine_stale
freshness_delay-IsTimely p last frequency false clock now later h k l = exact refl
freshness_delay-IsTimely p none frequency true clock now later h k l = exact refl
freshness_delay-IsTimely p (some s) frequency true clock now later h k l =
    timely (parse_api_date p s) frequency clock now later h k l
