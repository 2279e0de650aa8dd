-- ===== src/Session/Jwt.antt =====
-- frontend/src/app/auth/jwt.ts. `atob`, `JSON.parse`, and `decodeURIComponent` on the percent
-- encoding of each of a text's characters are parameters: `none` where they throw.

use Prim.Native.Char.{code}
use sentinel_project.Base.{
  Bool, List, Option, String, [], and_then, if◌then◌else◌, length, nat_eq, none, some, string_eq,
  suc, zero, ℕ, ◌%◌, ◌*◌, ◌+◌, ◌-◌, ◌==◌, ◌∷◌,
}
use sentinel_project.Base.Json.{Fields, Json, lookup, number, obj}
use sentinel_project.Base.Number.{Number, int, le_num, lt_num, negsuc, num, pos}
use sentinel_project.Base.Text.{codes, split, ◌⋯◌}

pub record Decoder : Type 0 where
  pub atob : String → Option String
  pub decode_utf8 : String → Option String
  pub parse_json : String → Option Json

pub record JwtPayload : Type 0 where
  pub exp : Number
  pub fields : Fields

abbrev normalize : String → String
normalize String.[] = ""
normalize (String.◌∷◌ c s) =
    let rest = normalize s in
    if code c == b'-' then "+" ⋯ rest else if code c == b'_' then "/" ⋯ rest else String.◌∷◌ c rest

abbrev padding : ℕ → String
padding zero = ""
padding (suc n) = "=" ⋯ padding n

-- Base64url characters are single code units, so that their number is that of code points.
abbrev base64_url_decode : Decoder → String → Option String
base64_url_decode d segment =
    let normalized = normalize segment in
    d.atob (normalized ⋯ padding ((4 - length (codes normalized) % 4) % 4))

-- The second part of the token, where it is there and not empty.
abbrev second_segment : List String → Option String
second_segment [] = none
second_segment (h ∷ []) = none
second_segment (h ∷ s ∷ rest) = if s == "" then none else some s

-- An object whose `exp` is a number; an array has no `exp`.
abbrev with_exp : Fields → Option Json → Option JwtPayload
with_exp fs (some (number n)) = some (record { exp = n; fields = fs })
with_exp fs _ = none

unfoldable pub payload_of_json : Json → Option JwtPayload
unfolding lookup
payload_of_json (obj fs) = with_exp fs (lookup "exp" fs)
payload_of_json _ = none

unfoldable pub decode_jwt_payload : Decoder → String → Option JwtPayload
unfolding payload_of_json split
decode_jwt_payload d token = and_then (second_segment (split token b'.')) λ segment.
    and_then (base64_url_decode d segment)
      λ binary. and_then (d.decode_utf8 binary) λ json. and_then (d.parse_json json) payload_of_json

abbrev pub thousand : Number → Number
thousand (int (pos n)) = num (n * 1000)
thousand (int (negsuc n)) = int (negsuc (n * 1000 + 999))
thousand n = n

-- `payload.exp * 1000 <= now`.
unfoldable pub is_expired : JwtPayload → ℕ → Bool
is_expired payload now = le_num (thousand payload.exp) (num now)

-- `payload.exp * 1000 - now < skewSeconds * 1000`, with `now` on the other side.
unfoldable pub is_expiring_soon : JwtPayload → ℕ → ℕ → Bool
is_expiring_soon payload now skew = lt_num (thousand payload.exp) (num (skew * 1000 + now))
