-- ===== src/Target/Tests.antt =====
-- Runs of the target check, and its theorems at concrete inputs.
use sentinel_project.Base.{arith, false, refl, ◌≡◌}
use sentinel_project.Base.Json.{str}
use sentinel_project.Base.Text.{is_blank}
use sentinel_project.Target.{is_public_url, url_or_reject, validate}
use sentinel_project.Target.Quads.{dotted, validate-dotted}
use sentinel_project.Target.Samples.{platform, url_of}

rejects_ftp : validate platform (str "ftp://example.com/") ≡ false
unfolding validate url_or_reject is_blank is_public_url
rejects_ftp = refl

validate-dotted_example : validate platform (str "http://172.20.0.9/") ≡ false
unfolding is_blank dotted
validate-dotted_example =
    validate-dotted platform "http://172.20.0.9/" (url_of "http:" "172.20.0.9") 172 20 0 9 refl refl
      refl refl (omega arith) (omega arith) (omega arith) (omega arith)
