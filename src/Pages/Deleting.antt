-- ===== src/Pages/Deleting.antt =====
-- The button never sends a second request before the first is answered, and is usable after it.
use sentinel_project.Base.{
  List, Option, [], arith, false, not, refl, some, true, ◌+◌, ◌||◌, ◌∷◌, ◌≡◌,
}
use sentinel_project.Client.{ApiError}
use sentinel_project.Pages.{flight, rejected, succeeded}
use sentinel_project.Pages.DeleteButton.{
  DeleteButton, DeleteEvent, cancel_clicked, confirm_clicked, delete_answered, delete_message,
  escape_pressed, handle_delete, handle_deletes, no_click, trigger, trigger_clicked,
}

-- `in_flight` tells whether a request has no answer; meanwhile the dialog stays open; and no focus
-- is left to be restored.
pub record IsOrderly (s : DeleteButton) : Type 0 where
  pub single : s.outstanding ≡ flight s.in_flight
  pub held : (not s.in_flight || s.confirming) ≡ true
  pub restored : s.restore_focus ≡ false

handle_delete-IsOrderly :
    (e : DeleteEvent) (s : DeleteButton) → IsOrderly s → IsOrderly (handle_delete e s)
unfolding handle_delete
handle_delete-IsOrderly trigger_clicked s h = record {
  single = ground arith;
  held = ground arith;
  restored = ground arith;
}
handle_delete-IsOrderly (escape_pressed b) s h = record {
  single = ground arith;
  held = ground arith;
  restored = ground arith;
}
handle_delete-IsOrderly (cancel_clicked b) s h = record {
  single = ground arith;
  held = ground arith;
  restored = ground arith;
}
handle_delete-IsOrderly (confirm_clicked b) s h = record {
  single = ground arith;
  held = ground arith;
  restored = ground arith;
}
handle_delete-IsOrderly (delete_answered succeeded) s h = record {
  single = ground arith;
  held = ground arith;
  restored = ground arith;
}
handle_delete-IsOrderly (delete_answered (rejected o)) s h = record {
  single = ground arith;
  held = ground arith;
  restored = ground arith;
}

run_from-IsOrderly :
    (es : List DeleteEvent) (s : DeleteButton) → IsOrderly s → IsOrderly (handle_deletes es s)
unfolding handle_deletes
run_from-IsOrderly [] s h = h
run_from-IsOrderly (e ∷ es) s h =
    run_from-IsOrderly es (handle_delete e s) (handle_delete-IsOrderly e s h)

-- Whatever the user does and in whatever order answers come, and whatever the last render told the
-- handlers of a running mutation: at most one request has no answer, and `inFlightRef` tells so;
-- while one has none, the dialog is open; and no restoration of the focus is left undone.
pub handle_deletes-IsOrderly : (es : List DeleteEvent) → IsOrderly (handle_deletes es no_click)
handle_deletes-IsOrderly es =
    run_from-IsOrderly es no_click (record { single = refl; held = refl; restored = refl })

retry_from :
    (s : DeleteButton) (o : Option ApiError)
    → IsOrderly s
    → s.outstanding ≡ 1
    → let t = handle_delete (delete_answered (rejected o)) s in
      (t.message ≡ some (delete_message o))
      × ((handle_delete (confirm_clicked false) t).sent ≡ s.sent + 1)
      × ((handle_delete (cancel_clicked false) t).confirming ≡ false)
      × ((handle_delete (cancel_clicked false) t).focused ≡ some trigger)
unfolding handle_delete
retry_from s o h k = (ground arith, ground arith, ground arith, ground arith)

-- A failed deletion leaves the button usable: after any events that leave a request without an
-- answer, its failure is told by the message for it, and then a confirmation sends one more
-- request, and a cancellation closes the dialog and gives the focus back to the trigger.
pub handle_deletes-retry :
    (es : List DeleteEvent) (o : Option ApiError)
    → (handle_deletes es no_click).outstanding ≡ 1
    → let s = handle_deletes es no_click in
      let t = handle_delete (delete_answered (rejected o)) s in
      (t.message ≡ some (delete_message o))
      × ((handle_delete (confirm_clicked false) t).sent ≡ s.sent + 1)
      × ((handle_delete (cancel_clicked false) t).confirming ≡ false)
      × ((handle_delete (cancel_clicked false) t).focused ≡ some trigger)
handle_deletes-retry es o h =
    retry_from (handle_deletes es no_click) o (handle_deletes-IsOrderly es) h
