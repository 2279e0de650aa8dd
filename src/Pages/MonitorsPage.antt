-- ===== src/Pages/MonitorsPage.antt =====
-- The page of the monitors with its form: the state of
-- frontend/src/features/monitors/MonitorsPage.tsx, and the component in
-- frontend/src/features/monitors/CreateMonitorForm.tsx, which exists while the form is open.
use sentinel_project.Base.{
  Bool, List, Option, String, [], false, if◌then◌else◌, nat_eq, none, not, some, string_eq, true, ℕ,
  ◌&&◌, ◌+◌, ◌-◌, ◌==◌, ◌||◌, ◌∷◌,
}
use sentinel_project.Base.Text.{Platform}
use sentinel_project.Pages.{Reply, rejected, succeeded}
use sentinel_project.Pages.CreateForm.{CreateValues, api_error_message, field_errors, is_valid}

-- `in_flight`, `root_error` and `errors` belong to the form. `focuses` counts how often the effect
-- has focused the button; `sent` and `outstanding` count the requests, and those with no answer
-- yet.
pub record MonitorsPage : Type 0 where
  pub form_open : Bool
  pub create_pending : Bool
  pub restore_focus : Bool
  pub in_flight : Bool
  pub root_error : Option String
  pub errors : List (String × String)
  pub focuses : ℕ
  pub sent : ℕ
  pub outstanding : ℕ

abbrev pub shown : MonitorsPage
shown = record {
  form_open = false;
  create_pending = false;
  restore_focus = false;
  in_flight = false;
  root_error = none;
  errors = [];
  focuses = 0;
  sent = 0;
  outstanding = 0;
}

abbrev close_form : MonitorsPage → MonitorsPage
close_form s = record s { restore_focus = true; form_open = false }

-- A form that opens is a new component.
abbrev open_form : MonitorsPage → MonitorsPage
open_form s = record s { form_open = true; in_flight = false; root_error = none; errors = [] }

abbrev pub toggle_form : MonitorsPage → MonitorsPage
toggle_form s = if s.create_pending then s else if s.form_open then close_form s else open_form s

-- `cancel` of the form, and the handler of Escape, which has the same guard.
abbrev pub cancel_form : Bool → Bool → MonitorsPage → MonitorsPage
cancel_form is_submitting is_pending s =
    if is_submitting || s.in_flight || is_pending then s else close_form s

-- `onSubmit`, and `onPendingChange(true)`.
abbrev pub submit_monitor : Bool → MonitorsPage → MonitorsPage
submit_monitor valid s =
    if valid && not s.in_flight
    then record s {
      in_flight = true;
      create_pending = true;
      sent = s.sent + 1;
      outstanding = s.outstanding + 1;
    }
    else s

-- `onSettled`.
abbrev on_settled : MonitorsPage → MonitorsPage
on_settled s = record s { in_flight = false; create_pending = false }

abbrev pub unreachable : String
unreachable = "Unable to reach the monitor service. Check your connection and try again."

-- `onSuccess` or `onError`, then `onSettled`.
abbrev pub settle_form : Platform → Reply → MonitorsPage → MonitorsPage
settle_form p succeeded s = on_settled (close_form s)
settle_form p (rejected none) s = on_settled (record s { root_error = some unreachable })
settle_form p (rejected (some e)) s =
    on_settled
      (record s { root_error = some (api_error_message p e); errors = field_errors p e.fields })

-- The effect that runs when `formOpen` has changed.
abbrev focus_button : MonitorsPage → MonitorsPage
focus_button s =
    if not s.form_open && s.restore_focus
    then record s { restore_focus = false; focuses = s.focuses + 1 }
    else s

abbrev after_render : Bool → MonitorsPage → MonitorsPage
after_render true s = if s.form_open then s else focus_button s
after_render false s = if s.form_open then focus_button s else s

pub data PageEvent : Type 0 where
  toggle_clicked : PageEvent
  cancel_asked : Bool → Bool → PageEvent
  create_submitted : CreateValues → PageEvent
  create_answered : Reply → PageEvent

-- The form's events come while it is there; the callbacks of a form that is gone are not called.
abbrev pub react : Platform → PageEvent → MonitorsPage → MonitorsPage
react p toggle_clicked s = toggle_form s
react p (cancel_asked b d) s = if s.form_open then cancel_form b d s else s
react p (create_submitted v) s = if s.form_open then submit_monitor (is_valid p v) s else s
react p (create_answered a) s =
    let heard = if s.form_open then settle_form p a s else s in
    if s.outstanding == 0 then s else record heard { outstanding = s.outstanding - 1 }

unfoldable pub handle_page : Platform → PageEvent → MonitorsPage → MonitorsPage
handle_page p e s = after_render s.form_open (react p e s)

unfoldable pub handle_pages : Platform → List PageEvent → MonitorsPage → MonitorsPage
unfolding handle_page
handle_pages p [] s = s
handle_pages p (e ∷ es) s = handle_pages p es (handle_page p e s)
