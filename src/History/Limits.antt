-- ===== src/History/Limits.antt =====
-- The limits that the hook asks for are those that the client and the service accept.
-- What happens to a mounted hook.
use sentinel_project.Base.{
  Bool, Bool-cases, List, [], arith, false, if◌then◌else◌, inl, inr, is_some, min, nat_eq, none,
  not, refl, some, string_eq, suc, true, ℕ, ◌&&◌, ◌+◌, ◌==◌, ◌||◌, ◌∷◌, ◌≡◌,
}
use sentinel_project.Base.Number.{num, show_num}
use sentinel_project.Base.Result.{ok}
use sentinel_project.Base.Text.{Platform, ◌⋯◌}
use sentinel_project.History.{
  Hook, Query, can_load_more, fetch_monitor_history, history_limit, is_for, is_history_limit,
  load_more_history, max_monitor_history_limit, mounted, no_rows, render, settle,
}

pub data Action {ℓ} (R : Type ℓ) : Type ℓ where
  rendered : ℕ → Query R → Action R
  settled : ℕ → Query R → Action R
  asked_more : ℕ → ℕ → Query R → Action R

abbrev IsLimit : ℕ → Type 0
IsLimit n = is_history_limit (num n) ≡ true

next-IsLimit : (n : ℕ) → IsLimit n → IsLimit (min max_monitor_history_limit (n + 50))
next-IsLimit n e = ground arith

fetched :
    (i n : ℕ)
    → IsLimit n
    → fetch_monitor_history (num (suc i)) (num n)
      ≡ ok ("/api/v1/monitors/" ⋯ show_num (num (suc i)) ⋯ "/history?limit=" ⋯ show_num (num n))
unfolding fetch_monitor_history
fetched i n e = ground arith

module _ {ℓ} {R : Type ℓ} (p : Platform) where
  unfoldable pub act : Action R → Hook R → Hook R
  unfolding render settle load_more_history
  act (rendered i q) h = render i q h
  act (settled i q) h = settle i q h
  act (asked_more now i q) h = load_more_history p now i q h

  unfoldable pub act_all : List (Action R) → Hook R → Hook R
  unfolding act
  act_all [] h = h
  act_all (a ∷ acts) h = act_all acts (act a h)

  history_limit-IsLimit : (i : ℕ) (h : Hook R) → IsLimit h.limit → IsLimit (history_limit i h)
  unfolding history_limit
  history_limit-IsLimit i h e = elim (Bool-cases (h.limit_id == i)) [
    | inl k ↦ rw (k, if◌then◌else◌) e
    | inr k ↦ rw (k, if◌then◌else◌) refl
  ]

  -- A test between two hooks with good limits chooses a good one.
  choose-IsLimit :
      (b : Bool) (h k : Hook R)
      → IsLimit h.limit
      → IsLimit k.limit
      → IsLimit (if b then h else k).limit
  choose-IsLimit true h k e f = e
  choose-IsLimit false h k e f = f

  render-IsLimit :
      (i : ℕ) (q : Query R) (h : Hook R) → IsLimit h.limit → IsLimit (render i q h).limit
  unfolding render
  render-IsLimit i q h e =
      let again : Hook R =
        if h.previous.monitor_id == i
        then h
        else record h { previous = no_rows i; expansion = none } in
      let good =
        choose-IsLimit (h.previous.monitor_id == i) h
          (record h { previous = no_rows i; expansion = none }) e e in
      choose-IsLimit (q.is_success && (is_some q.data_ && not q.is_placeholder_data))
        (record again {
          previous = record { monitor_id = i; limit = history_limit i h; rows = q.data_ };
        })
        again good good

  settle-IsLimit :
      (i : ℕ) (q : Query R) (h : Hook R) → IsLimit h.limit → IsLimit (settle i q h).limit
  unfolding settle
  settle-IsLimit i q h e =
      choose-IsLimit (is_for i h.expansion && not q.is_fetching) (record h { expansion = none }) h e
        e

  load_more_history-IsLimit :
      (now i : ℕ) (q : Query R) (h : Hook R)
      → IsLimit h.limit
      → IsLimit (load_more_history p now i q h).limit
  unfolding load_more_history
  load_more_history-IsLimit now i q h e =
      let next_limit = min max_monitor_history_limit (history_limit i h + 50) in
      choose-IsLimit (not (can_load_more p now i q h) || (q.is_fetching || is_for i h.expansion)) h
        (record h { limit_id = i; limit = next_limit; expansion = some (i, next_limit) }) e
        (next-IsLimit (history_limit i h) (history_limit-IsLimit i h e))

  act-IsLimit : (a : Action R) (h : Hook R) → IsLimit h.limit → IsLimit (act a h).limit
  unfolding act
  act-IsLimit (rendered i q) h e = render-IsLimit i q h e
  act-IsLimit (settled i q) h e = settle-IsLimit i q h e
  act-IsLimit (asked_more now i q) h e = load_more_history-IsLimit now i q h e

  act_all-IsLimit :
      (acts : List (Action R)) (h : Hook R) → IsLimit h.limit → IsLimit (act_all acts h).limit
  unfolding act_all
  act_all-IsLimit [] h e = e
  act_all-IsLimit (a ∷ acts) h e = act_all-IsLimit acts (act a h) (act-IsLimit a h e)

  -- However a hook was rendered, settled and asked for more, for any monitors, the request for the
  -- history of a monitor with a positive identifier is sent: the limit it asks for is never refused.
  pub act_all-fetch_monitor_history :
      (i j : ℕ) (acts : List (Action R))
      → let limit = history_limit (suc i) (act_all acts (mounted j)) in
        fetch_monitor_history (num (suc i)) (num limit)
        ≡ ok (
            "/api/v1/monitors/" ⋯ show_num (num (suc i)) ⋯ "/history?limit=" ⋯ show_num (num limit))
  act_all-fetch_monitor_history i j acts =
      fetched i _ (history_limit-IsLimit (suc i) _ (act_all-IsLimit acts (mounted j) refl))
