-- ===== src/Pages/SigningIn.antt =====
-- The login page runs one operation at a time, and goes where it should.
use sentinel_project.Base.{
  Bool, List, Option, Option-cases, String, [], ap, arith, false, inl, inr, is_some, map, none, not,
  refl, some, subst, sym, true, ◌||◌, ◌∙◌, ◌∷◌, ◌≡◌,
}
use sentinel_project.Pages.{Reply, rejected, succeeded}
use sentinel_project.Pages.LoginPage.{
  LoginEvent, LoginPage, Operation, answer_to, authentication_seen, demo, demo_clicked,
  demo_message, handle_login, handle_logins, login, login_answered, login_message, login_submitted,
  opened, without_op,
}

abbrev pub requests_of : Option Operation → List Operation
requests_of none = []
requests_of (some o) = o ∷ []

-- The operation that is shown is the one that runs, and there is no other; `busyRef` tells whether
-- there is one; and then the page owns the navigation.
pub record IsExclusive (s : LoginPage) : Type 0 where
  pub single : s.running ≡ requests_of s.active_operation
  pub marked : s.busy ≡ is_some s.active_operation
  pub owned : (not s.busy || s.owns_navigation) ≡ true

settled-IsExclusive :
    (from : String) (o x : Operation) (a : Reply) (s : LoginPage)
    → IsExclusive s
    → IsExclusive (answer_to from o a (without_op o (x ∷ [])) s)
settled-IsExclusive from login login succeeded s h = record {
  single = refl;
  marked = refl;
  owned = refl;
}
settled-IsExclusive from login login (rejected e) s h = record {
  single = refl;
  marked = refl;
  owned = refl;
}
settled-IsExclusive from demo demo succeeded s h = record {
  single = refl;
  marked = refl;
  owned = refl;
}
settled-IsExclusive from demo demo (rejected e) s h = record {
  single = refl;
  marked = refl;
  owned = refl;
}
settled-IsExclusive from login demo a s h = h
settled-IsExclusive from demo login a s h = h

handle_login-IsExclusive :
    (from : String) (e : LoginEvent) (s : LoginPage)
    → IsExclusive s
    → IsExclusive (handle_login from e s)
unfolding handle_login
handle_login-IsExclusive from demo_clicked s h = record {
  single = ground arith;
  marked = ground arith;
  owned = ground arith;
}
handle_login-IsExclusive from (login_submitted u p) s h = record {
  single = ground arith;
  marked = ground arith;
  owned = ground arith;
}
handle_login-IsExclusive from (authentication_seen b) s h = record {
  single = ground arith;
  marked = ground arith;
  owned = ground arith;
}
handle_login-IsExclusive from (login_answered o a) s h = elim (Option-cases s.active_operation) [
  | inl e ↦
      let none_runs : s.running ≡ [] = h.single ∙ ap requests_of e in
      subst (λ r. IsExclusive (answer_to from o a (without_op o r) s)) (sym none_runs) h
  | inr (x, e) ↦
      let runs : s.running ≡ x ∷ [] = h.single ∙ ap requests_of e in
      subst (λ r. IsExclusive (answer_to from o a (without_op o r) s)) (sym runs)
        (settled-IsExclusive from o x a s h)
]

run_from-IsExclusive :
    (from : String) (es : List LoginEvent) (s : LoginPage)
    → IsExclusive s
    → IsExclusive (handle_logins from es s)
unfolding handle_logins
run_from-IsExclusive from [] s h = h
run_from-IsExclusive from (e ∷ es) s h =
    run_from-IsExclusive from es (handle_login from e s) (handle_login-IsExclusive from e s h)

-- However the user clicks and whenever answers come, the page runs at most one operation, a login
-- or that of the demo; it shows that operation as the active one, and none where none runs; and
-- while one runs, the page owns the navigation.
pub handle_logins-IsExclusive :
    (from : String) (es : List LoginEvent) → IsExclusive (handle_logins from es opened)
handle_logins-IsExclusive from es =
    run_from-IsExclusive from es opened (record { single = refl; marked = refl; owned = refl })

seen_quiet :
    (from : String) (b : Bool) (s : LoginPage)
    → s.owns_navigation ≡ true
    → handle_login from (authentication_seen b) s ≡ s
unfolding handle_login
seen_quiet from b s h = ground arith

-- The renders after an operation do not navigate.
quiet :
    (from : String) (bs : List Bool) (s : LoginPage)
    → s.owns_navigation ≡ true
    → handle_logins from (map authentication_seen bs) s ≡ s
unfolding handle_logins
quiet from [] s h = refl
quiet from (b ∷ bs) s h =
    ap (handle_logins from (map authentication_seen bs)) (seen_quiet from b s h) ∙ quiet from bs s h

-- The page after the answer `a` to the operation `o`, and renders that see `bs`.
abbrev pub after_answer : String → Operation → Reply → List Bool → LoginPage → LoginPage
after_answer from o a bs s =
    handle_logins from (map authentication_seen bs) (handle_login from (login_answered o a) s)

abbrev pub places : String → Reply → List String → List String
places from succeeded before = from ∷ before
places from (rejected e) before = before

abbrev pub Told : Operation → Reply → LoginPage → Type 0
Told o succeeded s = Unit
Told login (rejected e) s = s.root_error ≡ some (login_message e)
Told demo (rejected e) s = s.demo_error ≡ some (demo_message e)

-- The page `t` after an operation that the page `s` ran has been answered.
pub record IsComplete (from : String) (o : Operation) (a : Reply) (s t : LoginPage) : Type 0 where
  pub idle : (t.running ≡ []) × (t.active_operation ≡ none) × (t.busy ≡ false)
  pub went : t.navigated ≡ places from a s.navigated
  pub message : Told o a t
  pub again : (handle_login from demo_clicked t).running ≡ demo ∷ []

settled-IsComplete :
    (from : String) (o : Operation) (a : Reply) (s : LoginPage)
    → IsComplete from o a s (answer_to from o a (without_op o (o ∷ [])) s)
unfolding handle_login
settled-IsComplete from login succeeded s = record {
  idle = (refl, refl, refl);
  went = refl;
  message = tt;
  again = refl;
}
settled-IsComplete from login (rejected e) s = record {
  idle = (refl, refl, refl);
  went = refl;
  message = refl;
  again = refl;
}
settled-IsComplete from demo succeeded s = record {
  idle = (refl, refl, refl);
  went = refl;
  message = tt;
  again = refl;
}
settled-IsComplete from demo (rejected e) s = record {
  idle = (refl, refl, refl);
  went = refl;
  message = refl;
  again = refl;
}

settled_owned :
    (from : String) (o : Operation) (a : Reply) (s : LoginPage)
    → s.owns_navigation ≡ true
    → (answer_to from o a (without_op o (o ∷ [])) s).owns_navigation ≡ true
settled_owned from login succeeded s h = h
settled_owned from login (rejected e) s h = h
settled_owned from demo succeeded s h = h
settled_owned from demo (rejected e) s h = h

login_answered-IsComplete :
    (from : String) (o : Operation) (a : Reply) (s : LoginPage)
    → s.running ≡ o ∷ []
    → IsComplete from o a s (handle_login from (login_answered o a) s)
unfolding handle_login
login_answered-IsComplete from o a s h =
    subst (λ r. IsComplete from o a s (answer_to from o a (without_op o r) s)) (sym h)
      (settled-IsComplete from o a s)

owned_after :
    (from : String) (o : Operation) (a : Reply) (s : LoginPage)
    → s.running ≡ o ∷ []
    → s.owns_navigation ≡ true
    → (handle_login from (login_answered o a) s).owns_navigation ≡ true
unfolding handle_login
owned_after from o a s h k =
    subst (λ r. (answer_to from o a (without_op o r) s).owns_navigation ≡ true) (sym h)
      (settled_owned from o a s k)

owned_running :
    (o : Operation) (s : LoginPage) → IsExclusive s → s.running ≡ o ∷ [] → s.owns_navigation ≡ true
owned_running o s h k = elim (Option-cases s.active_operation) [
  | inl e ↦ absurd (let none_runs : s.running ≡ [] = h.single ∙ ap requests_of e in cc)
  | inr (x, e) ↦
      let marked : s.busy ≡ true = h.marked ∙ ap is_some e in
      let owned = h.owned in ground (arith, marked, owned)
]

-- An operation that runs, after any events of the page, ends with its answer, whatever renders
-- follow: the page is idle again, and the demo can be asked for; after a success the page goes to
-- the attempted place and nowhere else, and after a failure it stays and tells the message for the
-- error.
pub handle_logins-IsComplete :
    (from : String) (es : List LoginEvent) (o : Operation) (a : Reply) (bs : List Bool)
    → (handle_logins from es opened).running ≡ o ∷ []
    → let s = handle_logins from es opened in IsComplete from o a s (after_answer from o a bs s)
handle_logins-IsComplete from es o a bs h =
    let s = handle_logins from es opened in
    let owned = owned_running o s (handle_logins-IsExclusive from es) h in
    subst (IsComplete from o a s)
      (sym
        (quiet from bs (handle_login from (login_answered o a) s) (owned_after from o a s h owned)))
      (login_answered-IsComplete from o a s h)
