-- ===== src/Base/Text.antt =====
-- The parts of JavaScript's `String` that the program uses, over code points, and what it takes
-- from the platform.
use Prim.Native.Char.{code}
use Prim.Native.String
use sentinel_project.Base.{
  Bool, List, Option, String, [], false, if◌then◌else◌, leb, nat_eq, refl, string_eq, true, ℕ, ◌&&◌,
  ◌==◌, ◌||◌, ◌∷◌, ◌≡◌,
}
use sentinel_project.Base.Number.{Number}

-- Concatenation, as in a template string.
infixr 65 ◌⋯◌
abbrev pub ◌⋯◌ : String → String → String
s ⋯ t = String.◌++◌ s t

abbrev pub is_blank_text : String → Bool
is_blank_text String.[] = true
is_blank_text (String.◌∷◌ c s) = false

-- WhiteSpace and LineTerminator of ECMAScript.
unfoldable pub is_space : ℕ → Bool
is_space c =
    leb 9 c && leb c 13
    || c == 32
    || c == 160
    || c == 5760
    || leb 8192 c && leb c 8202
    || c == 8232
    || c == 8233
    || c == 8239
    || c == 8287
    || c == 12288
    || c == 65279

trim_start : String → String
trim_start String.[] = ""
trim_start (String.◌∷◌ c s) = if is_space (code c) then trim_start s else String.◌∷◌ c s

trim_end : String → String
trim_end String.[] = ""
trim_end (String.◌∷◌ c s) =
    let rest = trim_end s in
    if is_space (code c) && is_blank_text rest then "" else String.◌∷◌ c rest

unfoldable pub trim : String → String
unfolding trim_start trim_end is_space
trim s = trim_end (trim_start s)

-- `!s.trim()`.
unfoldable pub is_blank : String → Bool
unfolding trim
is_blank s = is_blank_text (trim s)

pub not_blank_text : (s : String) → is_blank s ≡ false → is_blank_text s ≡ false
unfolding is_blank trim trim_start trim_end
not_blank_text String.[] h = h
not_blank_text (String.◌∷◌ c s) h = refl

-- `list.includes(s)`.
unfoldable pub member : String → List String → Bool
member s [] = false
member s (x ∷ xs) = x == s || member s xs

-- The code points of a text.
abbrev pub codes : String → List ℕ
codes String.[] = []
codes (String.◌∷◌ c s) = code c ∷ codes s

unfoldable pub codes_beq : List ℕ → List ℕ → Bool
codes_beq [] [] = true
codes_beq [] (d ∷ ys) = false
codes_beq (c ∷ xs) [] = false
codes_beq (c ∷ xs) (d ∷ ys) = c == d && codes_beq xs ys

-- The first list begins the second.
unfoldable pub prefix_of : List ℕ → List ℕ → Bool
prefix_of [] s = true
prefix_of (c ∷ p) [] = false
prefix_of (c ∷ p) (d ∷ s) = c == d && prefix_of p s

substring_of : List ℕ → List ℕ → Bool
substring_of p [] = prefix_of p []
substring_of p (c ∷ s) = prefix_of p (c ∷ s) || substring_of p s

suffix_of : List ℕ → List ℕ → Bool
suffix_of p [] = codes_beq p []
suffix_of p (c ∷ s) = codes_beq p (c ∷ s) || suffix_of p s

-- `s.includes(p)`, `s.endsWith(p)`.
unfoldable pub includes : String → String → Bool
unfolding substring_of prefix_of
includes s p = substring_of (codes p) (codes s)

unfoldable pub ends_with : String → String → Bool
unfolding suffix_of codes_beq
ends_with s p = suffix_of (codes p) (codes s)

-- `s.split(sep)` for a separator of one code point; `cur` is the part that is being read.
split_from : ℕ → String → String → List String
split_from sep cur String.[] = cur ∷ []
split_from sep cur (String.◌∷◌ c s) =
    let closed = cur ∷ split_from sep "" s in
    let longer = split_from sep (cur ⋯ String.◌∷◌ c "") s in
    if code c == sep then closed else longer

unfoldable pub split : String → ℕ → List String
unfolding split_from
split s sep = split_from sep "" s

trim_test : trim "  a b\t " ≡ "a b"
unfolding trim
trim_test = refl

split_test : split "a,,b" b',' ≡ "a" ∷ "" ∷ "b" ∷ []
unfolding split
split_test = refl

-- A `URL` object's fields that the program reads.
pub record Url : Type 0 where
  pub protocol : String
  pub hostname : String
  pub origin : String
  pub username : String
  pub password : String

-- What the program takes from the platform: `new URL`, `none` where it throws; `toLowerCase`;
-- `Number(text)`; `Date.parse`, in milliseconds since the epoch, `none` for NaN.
pub record Platform : Type 0 where
  pub parse_url : String → Option Url
  pub to_lower : String → String
  pub to_number : String → Number
  pub parse_date : String → Option ℕ
