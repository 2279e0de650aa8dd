-- ===== src/Pages/Creating.antt =====
-- The form of a new monitor sends one request at a time, and is there until it has the answer.
use sentinel_project.Base.{List, [], arith, false, none, not, refl, some, true, ◌&&◌, ◌+◌, ◌∷◌, ◌≡◌}
use sentinel_project.Base.Text.{Platform}
use sentinel_project.Pages.{Reply, flight, rejected, succeeded}
use sentinel_project.Pages.CreateForm.{api_error_message, field_errors}
use sentinel_project.Pages.MonitorsPage.{
  MonitorsPage, PageEvent, cancel_asked, create_answered, create_submitted, handle_page,
  handle_pages, shown, toggle_clicked, unreachable,
}

-- `submissionInFlight` tells whether a request of the form has no answer, and so does the page's
-- `createPending`; meanwhile the form is open; and no restoration of the focus is left undone.
pub record IsGuarded (s : MonitorsPage) : Type 0 where
  pub single : s.outstanding ≡ flight s.create_pending
  pub agreed : s.create_pending ≡ (s.form_open && s.in_flight)
  pub restored : s.restore_focus ≡ false

handle_page-IsGuarded :
    (p : Platform) (e : PageEvent) (s : MonitorsPage) → IsGuarded s → IsGuarded (handle_page p e s)
unfolding handle_page
handle_page-IsGuarded p toggle_clicked s h = record {
  single = ground arith;
  agreed = ground arith;
  restored = ground arith;
}
handle_page-IsGuarded p (cancel_asked b d) s h = record {
  single = ground arith;
  agreed = ground arith;
  restored = ground arith;
}
handle_page-IsGuarded p (create_submitted v) s h = record {
  single = ground arith;
  agreed = ground arith;
  restored = ground arith;
}
handle_page-IsGuarded p (create_answered succeeded) s h = record {
  single = ground arith;
  agreed = ground arith;
  restored = ground arith;
}
handle_page-IsGuarded p (create_answered (rejected none)) s h = record {
  single = ground arith;
  agreed = ground arith;
  restored = ground arith;
}
handle_page-IsGuarded p (create_answered (rejected (some e))) s h = record {
  single = ground arith;
  agreed = ground arith;
  restored = ground arith;
}

run_from-IsGuarded :
    (p : Platform) (es : List PageEvent) (s : MonitorsPage)
    → IsGuarded s
    → IsGuarded (handle_pages p es s)
unfolding handle_pages
run_from-IsGuarded p [] s h = h
run_from-IsGuarded p (e ∷ es) s h =
    run_from-IsGuarded p es (handle_page p e s) (handle_page-IsGuarded p e s h)

-- Whatever the user does, whenever answers come, and whatever the last render told the handlers of
-- a running mutation: at most one request for a new monitor has no answer; the page's
-- `createPending` holds exactly while it has none, and exactly while the form is there and its
-- `submissionInFlight` holds, so that the form cannot go before the answer; and no restoration of
-- the focus is left undone.
pub handle_pages-IsGuarded :
    (p : Platform) (es : List PageEvent) → IsGuarded (handle_pages p es shown)
handle_pages-IsGuarded p es =
    run_from-IsGuarded p es shown (record { single = refl; agreed = refl; restored = refl })

-- What a request ends with: after a success the form is gone and the button has the focus; after a
-- failure the form is there with a message, and it can be cancelled.
abbrev pub IsTold : Platform → Reply → MonitorsPage → MonitorsPage → Type 0
IsTold p succeeded s t = (t.form_open ≡ false) × (t.focuses ≡ s.focuses + 1)
IsTold p (rejected none) s t =
    (t.form_open ≡ true) × (t.root_error ≡ some unreachable) × (t.errors ≡ s.errors)
IsTold p (rejected (some e)) s t =
    (t.form_open ≡ true)
    × (t.root_error ≡ some (api_error_message p e))
    × (t.errors ≡ field_errors p e.fields)

-- The page lets the user open or close the form again, and counts no request without an answer.
pub record IsSettled (p : Platform) (a : Reply) (s t : MonitorsPage) : Type 0 where
  pub idle : (t.outstanding ≡ 0) × (t.create_pending ≡ false)
  pub told : IsTold p a s t
  pub free : (handle_page p toggle_clicked t).form_open ≡ not t.form_open

outcome_from :
    (p : Platform) (a : Reply) (s : MonitorsPage)
    → IsGuarded s
    → s.outstanding ≡ 1
    → IsSettled p a s (handle_page p (create_answered a) s)
unfolding handle_page
outcome_from p succeeded s h k = record {
  idle = (ground arith, ground arith);
  told = (ground arith, ground arith);
  free = ground arith;
}
outcome_from p (rejected none) s h k = record {
  idle = (ground arith, ground arith);
  told = (ground arith, ground arith, ground arith);
  free = ground arith;
}
outcome_from p (rejected (some e)) s h k = record {
  idle = (ground arith, ground arith);
  told = (ground arith, ground arith, ground arith);
  free = ground arith;
}

-- After any events that leave a request without an answer, its answer settles it: none is left, the
-- page is no longer pending, and the form can be opened or closed again. A success closes the form
-- and gives the focus to the button; a failure leaves the form open with the message for the error,
-- and marks the fields that the error names.
pub handle_pages-IsSettled :
    (p : Platform) (es : List PageEvent) (a : Reply)
    → (handle_pages p es shown).outstanding ≡ 1
    → let s = handle_pages p es shown in IsSettled p a s (handle_page p (create_answered a) s)
handle_pages-IsSettled p es a h =
    outcome_from p a (handle_pages p es shown) (handle_pages-IsGuarded p es) h
