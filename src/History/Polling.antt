-- ===== src/History/Polling.antt =====
-- That the hook waits as long as the service asks it to.
use sentinel_project.Base.{
  All, Any, Bool-cases, List, Option, String, [], ap, arith, eq_iff, false, if◌then◌else◌, inl, inr,
  is_some, min, nat_eq, none, not, refl, some, string_eq, true, ℕ, ◌*◌, ◌+◌, ◌<◌, ◌==◌, ◌||◌, ◌∷◌,
  ◌≡◌, ◌≢◌, ◌≤◌, ◌⊎◌,
}
use sentinel_project.Base.Number.{
  Number, infinity, int, is_finite, nan, neg_infinity, negsuc, num, pos,
}
use sentinel_project.Base.Text.{Platform, trim}
use sentinel_project.History.{
  Hook, Query, QueryError, api_error, can_load_more, deadline_of, history_limit, interval, is_for,
  is_full, is_in_retry_cooldown, is_terminal_failure, load_more_history, max_monitor_history_limit,
  other_error, polling_policy, retry_after_deadline, scope_rows,
}
use sentinel_project.History.Summary.{at}

abbrev pub terminal_statuses : List ℕ
terminal_statuses = 401 ∷ 403 ∷ 404 ∷ []

-- The time `t` that a text of `Retry-After` names, for an error that came `at` this time.
pub data Asks (p : Platform) (at : ℕ) (s : String) (t : ℕ) : Type 0 where
  seconds : (n : ℕ) → p.to_number (trim s) ≡ num n → t ≡ at + n * 1000 → Asks p at s t
  negative : (n : ℕ) → p.to_number (trim s) ≡ int (negsuc n) → t ≡ at → Asks p at s t
  date : is_finite (p.to_number (trim s)) ≡ false → p.parse_date (trim s) ≡ some t → Asks p at s t

-- An error that names no time.
pub data IsUnasked (p : Platform) (e : Option QueryError) : Type 0 where
  no_failure : e ≡ none → IsUnasked p e
  other : e ≡ some other_error → IsUnasked p e
  no_hint :
      (status : ℕ)
      → e ≡ some (api_error status none) ⊎ e ≡ some (api_error status (some ""))
      → All (λ x. status ≢ x) terminal_statuses
      → IsUnasked p e
  unreadable :
      (status : ℕ) (s : String)
      → e ≡ some (api_error status (some s))
      → All (λ x. status ≢ x) terminal_statuses
      → is_finite (p.to_number (trim s)) ≡ false
      → p.parse_date (trim s) ≡ none
      → IsUnasked p e

-- What a query that has failed with `e`, or has not failed, does next.
pub data IsPatient (p : Platform) (now at : ℕ) (e : Option QueryError) (policy : Option ℕ)
    : Type 0 where
  stops :
      (status : ℕ) (r : Option String)
      → e ≡ some (api_error status r)
      → Any (λ x. status ≡ x) terminal_statuses
      → policy ≡ none
      → IsPatient p now at e policy
  polls : IsUnasked p e → policy ≡ some 30000 → IsPatient p now at e policy
  waits :
      (status : ℕ) (s : String) (t d : ℕ)
      → e ≡ some (api_error status (some s))
      → All (λ x. status ≢ x) terminal_statuses
      → Asks p at s t
      → policy ≡ some d
      → (30000 ≤ d) × (t ≤ now + d) × ((d ≡ 30000) ⊎ (now + d ≡ t))
      → IsPatient p now at e policy

waited :
    (t now : ℕ)
    → (30000 ≤ interval (some t) now)
      × (t ≤ now + interval (some t) now)
      × ((interval (some t) now ≡ 30000) ⊎ (now + interval (some t) now ≡ t))
waited t now = ground arith

terminal :
    (status : ℕ) (r : Option String)
    → is_terminal_failure (some (api_error status r)) ≡ true
    → Any (λ x. status ≡ x) terminal_statuses
unfolding is_terminal_failure
terminal status r h = ground arith

passing :
    (status : ℕ) (r : Option String)
    → is_terminal_failure (some (api_error status r)) ≡ false
    → All (λ x. status ≢ x) terminal_statuses
unfolding is_terminal_failure
passing status r h = ground arith

module _ (p : Platform) (now at status : ℕ) (go : All (λ x. status ≢ x) terminal_statuses) where
  dated :
      (s : String) (o : Option ℕ)
      → is_finite (p.to_number (trim s)) ≡ false
      → p.parse_date (trim s) ≡ o
      → IsPatient p now at (some (api_error status (some s))) (some (interval o now))
  dated s none k h = polls (unreadable status s refl go k h) refl
  dated s (some t) k h = waits status s t _ refl go (date k h) refl (waited t now)

  timed :
      (s : String) (n : Number)
      → p.to_number (trim s) ≡ n
      → IsPatient p now at
          (some (api_error status (some s)))
          (some (interval (deadline_of p (trim s) at n) now))
  timed s nan h = dated s (p.parse_date (trim s)) (ap is_finite h) refl
  timed s infinity h = dated s (p.parse_date (trim s)) (ap is_finite h) refl
  timed s neg_infinity h = dated s (p.parse_date (trim s)) (ap is_finite h) refl
  timed s (int (pos n)) h = waits status s _ _ refl go (seconds n h refl) refl (waited _ now)
  timed s (int (negsuc n)) h = waits status s _ _ refl go (negative n h refl) refl (waited _ now)

  asked :
      (r : Option String)
      → IsPatient p now at
          (some (api_error status r))
          (some (interval (retry_after_deadline p (some (api_error status r)) at) now))
  unfolding retry_after_deadline
  asked none = polls (no_hint status (inl refl) go) refl
  asked (some s) = elim (Bool-cases (s == "")) [
    | inl e ↦
        let blank : s ≡ "" = (eq_iff s "").0 e in
        rw (e, if◌then◌else◌)
          (polls (no_hint status (inr (ap (λ x. some (api_error status (some x))) blank)) go) refl)
    | inr e ↦ rw (e, if◌then◌else◌) (timed s (p.to_number (trim s)) refl)
  ]

-- A query that failed with 401, 403 or 404 does not poll again. Any other does: where the failure
-- carries a `Retry-After` that names a time, by seconds after the failure (at once where they are
-- negative), or by a date, after 30 seconds or at that time, whichever is later; and else after 30
-- seconds.
pub polling_policy-IsPatient :
    (p : Platform) (now at : ℕ) (e : Option QueryError)
    → IsPatient p now at e (polling_policy p now e at)
unfolding polling_policy is_terminal_failure retry_after_deadline
polling_policy-IsPatient p now at none = polls (no_failure refl) refl
polling_policy-IsPatient p now at (some other_error) = polls (other refl) refl
polling_policy-IsPatient p now at (some (api_error status r)) =
    elim (Bool-cases (is_terminal_failure (some (api_error status r)))) [
      | inl k ↦ rw (k, if◌then◌else◌) (stops status r refl (terminal status r k) refl)
      | inr k ↦ rw (k, if◌then◌else◌) (asked p now at status (passing status r k) r)
    ]

no_error : (o : Option QueryError) → is_some o ≡ false → o ≡ none
no_error none e = refl
no_error (some x) e = cc

module _ {ℓ} {R : Type ℓ} where
  -- What a call of `load_more_history` that changes the hook has found and done.
  pub record IsExpanded (p : Platform) (now i : ℕ) (q : Query R) (before after : Hook R)
      : Type ℓ where
    pub full :
        is_full (history_limit i before) (scope_rows i (history_limit i before) before) ≡ true
    pub idle : q.is_fetching ≡ false
    pub first : is_for i before.expansion ≡ false
    pub calm : is_in_retry_cooldown p now q.error q.error_updated_at ≡ false
    pub sound : q.error ≡ none
    pub more : history_limit i before < history_limit i after
    pub bound : history_limit i after ≤ max_monitor_history_limit
    pub step : history_limit i after ≤ history_limit i before + 50

  could :
      (p : Platform) (now i : ℕ) (q : Query R) (h : Hook R)
      → can_load_more p now i q h ≡ true
      → (is_full (history_limit i h) (scope_rows i (history_limit i h) h) ≡ true)
        × (history_limit i h < max_monitor_history_limit)
        × (is_some q.error ≡ false)
        × (is_in_retry_cooldown p now q.error q.error_updated_at ≡ false)
  unfolding can_load_more
  could p now i q h e = ground arith

  own_limit : (i n : ℕ) (h : Hook R) → history_limit i (record h { limit_id = i; limit = n }) ≡ n
  unfolding history_limit
  own_limit i n h = ground arith

  -- A call of `load_more_history` changes nothing; or the last rows fill the present limit, no
  -- query runs, no other expansion does, none has failed or asked to wait, and the limit grows, by
  -- 50 at most and to no more than 200.
  pub load_more_history-IsExpanded :
      (p : Platform) (now i : ℕ) (q : Query R) (h : Hook R)
      → (load_more_history p now i q h ≡ h) ⊎ IsExpanded p now i q h (load_more_history p now i q h)
  unfolding load_more_history
  load_more_history-IsExpanded p now i q h =
      elim (Bool-cases
        (not (can_load_more p now i q h) || (q.is_fetching || is_for i h.expansion))) [
          | inl e ↦ inl (rw (e, if◌then◌else◌) refl)
          | inr e ↦
              let next_limit = min max_monitor_history_limit (history_limit i h + 50) in
              let (full, less, sound, calm) = could p now i q h (ground arith) in
              let now_ = own_limit i next_limit (record h { expansion = some (i, next_limit) }) in
              inr (
                rw (e, if◌then◌else◌)
                  (record {
                    full = full;
                    idle = ground arith;
                    first = ground arith;
                    calm = calm;
                    sound = no_error q.error sound;
                    more = omega (arith, now_, less);
                    bound = omega (arith, now_);
                    step = omega (arith, now_);
                  }))
        ]
