-- ===== src/Pages/Lenient.antt =====
-- The form for a monitor turns away no target that the API accepts, but for names below localhost.
use sentinel_project.Base.{
  Option, String, arith, eq_iff, false, get_or, leb, nat_eq, not, refl, some, string_eq, subst,
  true, ℕ, ◌&&◌, ◌==◌, ◌||◌, ◌≡◌, ◌≤◌,
}
use sentinel_project.Base.Json.{str}
use sentinel_project.Base.Number.{
  Number, infinity, int, le_num, lt_num, nan, neg_infinity, negsuc, num, pos,
}
use sentinel_project.Base.Text.{Platform, Url, codes, ends_with, is_blank_text, not_blank_text}
use sentinel_project.Db.{Prisma}
use sentinel_project.Monitors.{
  Config, UserRef, check_type_or_http, create_check, max_monitors, min_frequency, user_id,
}
use sentinel_project.Monitors.Create.{count_of, create_check-passes, passes}
use sentinel_project.Pages.CreateForm.{
  CreateValues, is_accepted_monitor, is_frequency, is_least, is_target, is_valid, posted_monitor,
  units, whole,
}
use sentinel_project.Target.{validate}
use sentinel_project.Target.Accepts.{
  IsPublic, public_not_localhost, validate-IsPublic, validate-not_blank,
}

web_protocol :
    (p : Platform) (u : Url)
    → p.to_lower u.protocol ≡ u.protocol
    → IsPublic p u
    → (u.protocol == "http:" || u.protocol == "https:") ≡ true
web_protocol p u l h =
    ground (arith, l, h.scheme, eq_iff u.protocol "http:", eq_iff u.protocol "https:")

-- Where the platform gives the protocol of a URL in lower case, the form's rules for the target
-- accept each target that the API accepts, unless its host name, in lower case, ends in
-- ".localhost".
pub validate-is_target :
    (p : Platform) (s : String) (u : Url)
    → p.parse_url s ≡ some u
    → p.to_lower u.protocol ≡ u.protocol
    → ends_with (p.to_lower u.hostname) ".localhost" ≡ false
    → validate p (str s) ≡ true
    → is_target p s ≡ true
unfolding is_target
validate-is_target p s u e l d h =
    let (t, v, same, parsed, good) = validate-IsPublic p (str s) h in
    let filled = not_blank_text s (validate-not_blank p s h) in
    let one : ◌≡◌ {A = Option Url} (some u) (some v) = cc in
    let public : IsPublic p u = subst (IsPublic p) (cc) good in
    let named = public_not_localhost p u public in
    let scheme = web_protocol p u l public in rw (filled, e, scheme, named, d) refl

frequency_kept : (n : Number) → is_frequency n ≡ true → is_least (whole n) ≡ true
frequency_kept nan h = cc
frequency_kept infinity h = cc
frequency_kept neg_infinity h = cc
frequency_kept (int (negsuc n)) h = cc
frequency_kept (int (pos n)) h = h

dto_accepts :
    (p : Platform) (size : String → ℕ) (v : CreateValues)
    → size v.name ≤ units (codes v.name)
    → is_valid p v ≡ true
    → is_accepted_monitor p size (posted_monitor v)
      ≡ (leb 1 (size v.name) && validate p (str v.target))
unfolding is_valid is_target is_accepted_monitor posted_monitor
dto_accepts p size v k h =
    let named : is_blank_text v.name ≡ false = ground (arith, h) in
    let targeted : is_blank_text v.target ≡ false = ground (arith, h) in
    let timed = frequency_kept v.frequency (ground (arith, h)) in
    ground (arith, h, k, named, targeted, timed)

whole_kept : (n : Number) → is_frequency n ≡ true → num (get_or (whole n) 60) ≡ n
whole_kept nan h = cc
whole_kept infinity h = cc
whole_kept neg_infinity h = cc
whole_kept (int (negsuc n)) h = cc
whole_kept (int (pos n)) h = refl

posted_type : (v : CreateValues) → check_type_or_http (posted_monitor v).check_type ≡ "http"
unfolding posted_monitor check_type_or_http
posted_type v = refl

posted_frequency :
    (p : Platform) (v : CreateValues)
    → is_valid p v ≡ true
    → num (get_or (posted_monitor v).frequency 60) ≡ v.frequency
unfolding is_valid posted_monitor
posted_frequency p v h = whole_kept v.frequency (ground (arith, h))

-- Of the values that the form accepts, the API, which asks its decorators and then the checks of
-- `createMonitor`, accepts what the form posts exactly when class-validator counts at least one
-- character in the name, the API's test of the target holds, the frequency is not below the
-- configured least, and the limit of monitors is not reached. That class-validator counts no more
-- characters than there are UTF-16 code units is a hypothesis.
pub is_valid-is_accepted_monitor :
    (p : Platform) (config : Config) (c : Prisma) (size : String → ℕ) (v : CreateValues)
    (user : UserRef) (db : c.Db)
    → ((s : String) → size s ≤ units (codes s))
    → is_valid p v ≡ true
    → (is_accepted_monitor p size (posted_monitor v)
        && passes (create_check p config c (posted_monitor v) user db))
      ≡ ((leb 1 (size v.name) && validate p (str v.target))
          && (not (lt_num v.frequency (min_frequency p config user))
              && not (
                  le_num
                    (max_monitors p config user)
                    (num (count_of (user_id user) (c.tables db))))))
is_valid-is_accepted_monitor p config c size v user db k h =
    rw
      (
        dto_accepts p size v (k v.name) h,
        create_check-passes p config c (posted_monitor v) user db (posted_type v),
        posted_frequency p v h,
      )
      refl
