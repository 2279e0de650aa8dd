-- ===== src/Pages/Tests.antt =====
-- Visits of the pages, and the theorems at them.
use sentinel_project.Base.{
  List, String, [], arith, false, length, none, refl, some, true, ℕ, ◌&&◌, ◌∷◌, ◌≡◌, ◌≤◌,
}
use sentinel_project.Base.Json.{lookup, str}
use sentinel_project.Base.Number.{num}
use sentinel_project.Base.Text.{Platform, codes, ends_with, is_blank, trim}
use sentinel_project.Client.{ApiError}
use sentinel_project.Db.Memory.{memory}
use sentinel_project.Monitors.{Config, by_id, create_check, max_monitors, min_frequency, setting}
use sentinel_project.Monitors.Create.{passes}
use sentinel_project.Pages.{rejected, succeeded}
use sentinel_project.Pages.Accepted.{is_registration-is_accepted}
use sentinel_project.Pages.CreateForm.{
  CreateValues, is_accepted_monitor, is_target, is_valid, posted_monitor, units,
}
use sentinel_project.Pages.Creating.{
  IsGuarded, IsSettled, handle_pages-IsGuarded, handle_pages-IsSettled,
}
use sentinel_project.Pages.DeleteButton.{
  DeleteEvent, confirm_clicked, escape_pressed, handle_delete, handle_deletes, no_click,
  trigger_clicked,
}
use sentinel_project.Pages.Deleting.{IsOrderly, handle_deletes-IsOrderly}
use sentinel_project.Pages.DeletionFocus.{deleted, handle_list, handle_lists, listed, no_deletion}
use sentinel_project.Pages.Lenient.{is_valid-is_accepted_monitor}
use sentinel_project.Pages.LoginPage.{
  LoginEvent, demo_clicked, destination, handle_login, handle_logins, login, login_submitted,
  opened, redirect_state,
}
use sentinel_project.Pages.Messages.{format_relative_time, parse_monitor_id}
use sentinel_project.Pages.MonitorsPage.{
  PageEvent, cancel_asked, create_answered, create_submitted, handle_page, handle_pages, shown,
  toggle_clicked,
}
use sentinel_project.Pages.RegisterForm.{RegisterValues, is_accepted, is_registration, posted}
use sentinel_project.Pages.RegisterPage.{
  RegisterEvent, register_answered, register_demo, register_submitted, registration,
}
use sentinel_project.Pages.SigningIn.{
  IsComplete, IsExclusive, after_answer, handle_logins-IsComplete, handle_logins-IsExclusive,
}
use sentinel_project.Target.{validate}
use sentinel_project.Target.Samples.{platform}
use sentinel_project.Users.Samples.{empty}

abbrev error_404 : ApiError
error_404 = record { status = 404; message = "gone"; fields = []; retry_after = none }

-- Two confirmations, of which one is sent.
abbrev impatient : List DeleteEvent
impatient =
    trigger_clicked ∷ confirm_clicked false ∷ confirm_clicked false ∷ escape_pressed true ∷ []

sent_once : (handle_deletes impatient no_click).sent ≡ 1
unfolding handle_deletes handle_delete
sent_once = refl

handle_deletes-IsOrderly_example : IsOrderly (handle_deletes impatient no_click)
handle_deletes-IsOrderly_example = handle_deletes-IsOrderly impatient

abbrev came_from : String
came_from = destination (redirect_state "/monitors")

destination_kept : came_from ≡ "/monitors"
unfolding destination lookup
destination_kept = refl

-- A click on the demo while a login runs.
abbrev both : List LoginEvent
both = login_submitted "ada" "secret" ∷ demo_clicked ∷ []

handle_logins-IsExclusive_example : IsExclusive (handle_logins "/monitors" both opened)
handle_logins-IsExclusive_example = handle_logins-IsExclusive "/monitors" both

handle_logins-IsComplete_example :
    let s = handle_logins "/monitors" both opened in
    IsComplete "/monitors" login succeeded s
      (after_answer "/monitors" login succeeded (true ∷ true ∷ []) s)
unfolding handle_logins handle_login
handle_logins-IsComplete_example =
    handle_logins-IsComplete "/monitors" both login succeeded (true ∷ true ∷ []) refl

abbrev values : CreateValues
values = record { name = "site"; target = "https://example.com/"; frequency = num 60 }

abbrev creation : List PageEvent
creation = toggle_clicked ∷ create_submitted values ∷ toggle_clicked ∷ cancel_asked false false ∷ []

handle_pages-IsGuarded_example : IsGuarded (handle_pages platform creation shown)
handle_pages-IsGuarded_example = handle_pages-IsGuarded platform creation

handle_pages-IsSettled_example :
    let s = handle_pages platform creation shown in
    IsSettled platform succeeded s (handle_page platform (create_answered succeeded) s)
unfolding handle_pages handle_page is_valid is_target ends_with
handle_pages-IsSettled_example = handle_pages-IsSettled platform creation succeeded refl

abbrev ada : RegisterValues
ada = record {
  name = " Ada ";
  last_name = "Lovelace";
  username = "ada1815";
  email = "ada@example.com";
  password = "engine1843";
  confirm_password = "engine1843";
}

abbrev visit : List RegisterEvent
visit = register_submitted ada ∷ register_demo ∷ register_answered registration (rejected none) ∷ []

-- A length that counts a surrogate pair once.
abbrev size : String → ℕ
size s = length (codes s)

is_registration-is_accepted_example : is_accepted (λ s. true) size (posted ada) ≡ true
unfolding is_registration is_blank trim
is_registration-is_accepted_example =
    is_registration-is_accepted (λ s. true) (λ s. true) size ada (λ s h. refl) refl

-- A password of eight code units and five code points is accepted by the form alone.
abbrev eve : RegisterValues
eve = record ada { password = "a1😀😀😀"; confirm_password = "a1😀😀😀" }

form_only : is_accepted (λ s. true) size (posted eve) ≡ false
unfolding is_registration is_blank trim
form_only = is_registration-is_accepted (λ s. true) (λ s. true) size eve (λ s h. refl) refl

length-units : (cs : List ℕ) → length cs ≤ units cs
length-units [] = omega arith
length-units (c ∷ cs) = ground (arith, length-units cs)

abbrev by_default : Config
by_default s = none

is_valid-is_accepted_monitor_example :
    (is_accepted_monitor platform size (posted_monitor values)
      && passes (create_check platform by_default memory (posted_monitor values) (by_id 7) empty))
    ≡ ((true && validate platform (str "https://example.com/")) && (true && true))
unfolding is_valid is_target ends_with min_frequency max_monitors setting
is_valid-is_accepted_monitor_example =
    is_valid-is_accepted_monitor platform by_default memory size values (by_id 7) empty
      (λ s. length-units (codes s)) refl

-- The form accepts a frequency of ten seconds, which the service refuses by default.
refused_by_default :
    (is_accepted_monitor platform size (posted_monitor (record values { frequency = num 10 }))
      && passes (
          create_check platform by_default memory
            (posted_monitor (record values { frequency = num 10 }))
            (by_id 7)
            empty))
    ≡ ((true && validate platform (str "https://example.com/")) && (false && true))
unfolding is_valid is_target ends_with min_frequency max_monitors setting
refused_by_default =
    is_valid-is_accepted_monitor platform by_default memory size
      (record values { frequency = num 10 }) (by_id 7) empty (λ s. length-units (codes s)) refl

half_an_hour : format_relative_time 1800000 0 ≡ "30m ago"
unfolding format_relative_time
half_an_hour = refl

abbrev counting : Platform
counting = record {
  parse_url = λ s. none;
  to_lower = λ s. s;
  to_number = λ s. num 42;
  parse_date = λ s. none;
}

known_id : parse_monitor_id counting (some "42") ≡ some 42
unfolding parse_monitor_id
known_id = refl

no_id : parse_monitor_id counting (some "4a") ≡ none
unfolding parse_monitor_id
no_id = refl

-- The second monitor is deleted, and the list without it comes twice.
focused_once :
    (handle_lists
      (listed (1 ∷ 2 ∷ []) true ∷ deleted 2 ∷ listed (1 ∷ []) true ∷ listed (1 ∷ []) true ∷ [])
      no_deletion).focuses
    ≡ 1
unfolding handle_lists handle_list
focused_once = refl
