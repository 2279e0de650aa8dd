-- ===== src/Pages/DeleteButton.antt =====
-- The deletion of a monitor in two steps: frontend/src/features/monitors/DeleteButton.tsx.
use sentinel_project.Base.{
  Bool, List, Option, String, [], false, if◌then◌else◌, nat_eq, none, some, string_eq, true, ℕ, ◌+◌,
  ◌-◌, ◌==◌, ◌||◌, ◌∷◌,
}
use sentinel_project.Client.{ApiError}
use sentinel_project.Pages.{Reply, has_status, rejected, succeeded}

pub data Focus : Type 0 where
  cancel_button : Focus
  trigger : Focus

-- The state and the references of the component, the element that it last focused, and the requests
-- that it sent: how many, and how many of them have no answer yet.
pub record DeleteButton : Type 0 where
  pub confirming : Bool
  pub message : Option String
  pub in_flight : Bool
  pub restore_focus : Bool
  pub focused : Option Focus
  pub sent : ℕ
  pub outstanding : ℕ

abbrev pub no_click : DeleteButton
no_click = record {
  confirming = false;
  message = none;
  in_flight = false;
  restore_focus = false;
  focused = none;
  sent = 0;
  outstanding = 0;
}

abbrev pub delete_message : Option ApiError → String
delete_message e =
    if has_status 404 e
    then "Monitor not found — refreshing list"
    else "Could not delete the monitor — try again"

abbrev pub open_confirm : DeleteButton → DeleteButton
open_confirm s = record s { message = none; confirming = true }

-- `cancel`, and the handler of Escape, which has the same guard.
abbrev pub cancel : Bool → DeleteButton → DeleteButton
cancel is_pending s =
    if s.in_flight || is_pending then s else record s { restore_focus = true; confirming = false }

abbrev pub confirm : Bool → DeleteButton → DeleteButton
confirm is_pending s = if s.in_flight || is_pending then s else record s {
  in_flight = true;
  message = none;
  sent = s.sent + 1;
  outstanding = s.outstanding + 1;
}

-- `onSuccess` and `onError` of the mutation.
abbrev pub settle_delete : Reply → DeleteButton → DeleteButton
settle_delete succeeded s = record s {
  in_flight = false;
  confirming = false;
  outstanding = s.outstanding - 1;
}
settle_delete (rejected e) s = record s {
  in_flight = false;
  message = some (delete_message e);
  outstanding = s.outstanding - 1;
}

-- The effect that runs when `confirming` has changed.
abbrev focus_effect : DeleteButton → DeleteButton
focus_effect s =
    if s.confirming
    then record s { focused = some cancel_button }
    else if s.restore_focus
    then record s { restore_focus = false; focused = some trigger }
    else s

abbrev pub after_render : Bool → DeleteButton → DeleteButton
after_render true s = if s.confirming then s else focus_effect s
after_render false s = if s.confirming then focus_effect s else s

pub data DeleteEvent : Type 0 where
  trigger_clicked : DeleteEvent
  escape_pressed : Bool → DeleteEvent
  cancel_clicked : Bool → DeleteEvent
  confirm_clicked : Bool → DeleteEvent
  delete_answered : Reply → DeleteEvent

-- The trigger is shown while there is nothing to confirm, the other buttons and the listener of the
-- keyboard are there otherwise, and an answer comes only to a request.
abbrev pub react : DeleteEvent → DeleteButton → DeleteButton
react trigger_clicked s = if s.confirming then s else open_confirm s
react (escape_pressed b) s = if s.confirming then cancel b s else s
react (cancel_clicked b) s = if s.confirming then cancel b s else s
react (confirm_clicked b) s = if s.confirming then confirm b s else s
react (delete_answered a) s = if s.outstanding == 0 then s else settle_delete a s

unfoldable pub handle_delete : DeleteEvent → DeleteButton → DeleteButton
handle_delete e s = after_render s.confirming (react e s)

unfoldable pub handle_deletes : List DeleteEvent → DeleteButton → DeleteButton
unfolding handle_delete
handle_deletes [] s = s
handle_deletes (e ∷ es) s = handle_deletes es (handle_delete e s)
