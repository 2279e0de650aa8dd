-- ===== src/Target.antt =====
-- The check of a monitor's target: sentinel-api/src/monitors/validators/is-valid-target.validator.ts.
-- `new URL` and `toLowerCase` are the platform's. The host name is walked as its code points.
pub mod Quads
pub mod Accepts
pub mod Samples
mod Tests
use sentinel_project.Base.{
  Bool, List, Option, String, [], any, false, if◌then◌else◌, is_empty, leb, nat_eq, none, not, some,
  string_eq, suc, zero, ℕ, ◌&&◌, ◌*◌, ◌+◌, ◌-◌, ◌==◌, ◌||◌, ◌∷◌,
}
use sentinel_project.Base.Json.{Json, str}
use sentinel_project.Base.Text.{Platform, Url, codes, codes_beq, is_blank, prefix_of}

-- `replace(/^\[|\]$/g, '')`.
drop_open : List ℕ → List ℕ
drop_open [] = []
drop_open (c ∷ s) = if c == b'[' then s else c ∷ s

drop_close : List ℕ → List ℕ
drop_close [] = []
drop_close (c ∷ []) = if c == b']' then [] else c ∷ []
drop_close (c ∷ d ∷ s) = c ∷ drop_close (d ∷ s)

pub strip_brackets : List ℕ → List ℕ
unfolding drop_open drop_close
strip_brackets s = drop_close (drop_open s)

abbrev pub blocked_exact : List String
blocked_exact =
    "localhost" ∷ "127.0.0.1" ∷ "0.0.0.0" ∷ "::1" ∷ "::" ∷ "db" ∷ "postgres" ∷ "redis" ∷ "api"
    ∷ "worker" ∷ "frontend" ∷ "sentinel_db" ∷ []

abbrev pub blocked_prefixes : List String
blocked_prefixes = "127." ∷ "10." ∷ "192.168." ∷ "169.254." ∷ "0." ∷ []

is_digit : ℕ → Bool
is_digit c = leb b'0' c && leb c b'9'

-- At most `left` more digits and a dot, with the number read so far: `(\d{1,3})\.` and `parseInt`.
octet_from : ℕ → ℕ → List ℕ → Option ℕ
octet_from left value [] = none
octet_from zero value (c ∷ s) = if c == b'.' then some value else none
octet_from (suc left) value (c ∷ s) =
    let rest = octet_from left (value * 10 + (c - 48)) s in
    if c == b'.' then some value else if is_digit c then rest else none

first_digit : List ℕ → Option ℕ
first_digit [] = none
first_digit (c ∷ s) = if is_digit c then octet_from 2 (c - 48) s else none

abbrev drop_4 : List ℕ → List ℕ
drop_4 (_ ∷ _ ∷ _ ∷ _ ∷ s) = s
drop_4 _ = []

-- The second octet where `/^172\.(\d{1,3})\./` matches.
second_octet : List ℕ → Option ℕ
unfolding first_digit octet_from is_digit
second_octet host = if prefix_of (codes "172.") host then first_digit (drop_4 host) else none

abbrev in_172 : Option ℕ → Bool
in_172 none = false
in_172 (some n) = leb 16 n && leb n 31

-- `blockedExact.includes(hostname)`, and the tests by `startsWith`.
blocked_name : List ℕ → Bool
blocked_name host = any (λ s. codes_beq (codes s) host) blocked_exact

blocked_prefix : List ℕ → Bool
blocked_prefix host = any (λ s. prefix_of (codes s) host) blocked_prefixes

-- What `validate` checks of a host name.
pub is_public_host : List ℕ → Bool
is_public_host host =
    not (is_empty host || blocked_name host || blocked_prefix host || in_172 (second_octet host))

-- What `validate` checks of a parsed URL.
pub is_public_url : Platform → Url → Bool
is_public_url p u =
    let protocol = p.to_lower u.protocol in
    (protocol == "http:" || protocol == "https:")
    && is_public_host (strip_brackets (codes (p.to_lower u.hostname)))

url_or_reject : Platform → Option Url → Bool
url_or_reject p none = false
url_or_reject p (some u) = is_public_url p u

-- `IsValidTargetConstraint.validate`; a value that is no string is rejected.
pub validate : Platform → Json → Bool
unfolding url_or_reject
validate p (str s) = not (is_blank s) && url_or_reject p (p.parse_url s)
validate p _ = false
