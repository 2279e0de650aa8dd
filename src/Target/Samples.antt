-- ===== src/Target/Samples.antt =====
-- Concrete data for the tests: a platform that knows some URLs, and a target that is accepted.
-- A platform that knows a few URLs, whose `toLowerCase` leaves texts as they are.
use sentinel_project.Base.{
  Option, String, if◌then◌else◌, nat_eq, none, refl, some, string_eq, true, ◌==◌, ◌≡◌,
}
use sentinel_project.Base.Json.{str}
use sentinel_project.Base.Number.{nan}
use sentinel_project.Base.Text.{Platform, Url, codes_beq, is_blank, prefix_of}
use sentinel_project.Target.{
  blocked_name, blocked_prefix, is_public_host, is_public_url, second_octet, strip_brackets,
  url_or_reject, validate,
}

abbrev pub url_of : String → String → Url
url_of protocol hostname = record {
  protocol = protocol;
  hostname = hostname;
  origin = "";
  username = "";
  password = "";
}

abbrev pub known : String → Option Url
known s =
    if s == "https://example.com/"
    then some (url_of "https:" "example.com")
    else if s == "http://172.20.0.9/"
    then some (url_of "http:" "172.20.0.9")
    else if s == "http://[fd00::1]/"
    then some (url_of "http:" "[fd00::1]")
    else if s == "ftp://example.com/"
    then some (url_of "ftp:" "example.com")
    else none

abbrev pub platform : Platform
platform = record {
  parse_url = known;
  to_lower = λ s. s;
  to_number = λ s. nan;
  parse_date = λ s. none;
}

pub accepts_public : validate platform (str "https://example.com/") ≡ true
unfolding validate url_or_reject is_blank is_public_url strip_brackets is_public_host blocked_name
    blocked_prefix second_octet codes_beq prefix_of
accepts_public = refl
