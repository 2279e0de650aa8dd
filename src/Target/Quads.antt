-- ===== src/Target/Quads.antt =====
-- Host names that are IPv4 addresses in dotted decimal: the target check rejects exactly the
-- reserved blocks.
use Prim.Native.Char.{code}
use sentinel_project.Base.{
  All, All-append, Bool, Bool-cases, List, String, [], any, ap, arith, beq→eq, false, if◌then◌else◌,
  inl, inr, is_empty, leb, ltb, nat_eq, not, refl, some, string_eq, true, ℕ, ◌%◌, ◌&&◌, ◌++◌, ◌+◌,
  ◌/◌, ◌<◌, ◌==◌, ◌||◌, ◌∙◌, ◌∷◌, ◌≡◌, ◌≤◌, ◌⊎◌,
}
use sentinel_project.Base.Json.{str}
use sentinel_project.Base.Text.{Platform, Url, codes, codes_beq, is_blank, prefix_of}
use sentinel_project.Target.{
  blocked_name, blocked_prefix, drop_close, first_digit, in_172, is_digit, is_public_host,
  is_public_url, octet_from, second_octet, strip_brackets, url_or_reject, validate,
}

-- A byte in decimal.
abbrev pub octet : ℕ → List ℕ
octet a =
    if ltb a 10
    then (48 + a) ∷ []
    else if ltb a 100
    then (48 + a / 10) ∷ (48 + a % 10) ∷ []
    else (48 + a / 100) ∷ (48 + a / 10 % 10) ∷ (48 + a % 10) ∷ []

unfoldable pub dotted : ℕ → ℕ → ℕ → ℕ → List ℕ
dotted a b c d = octet a ++ b'.' ∷ (octet b ++ b'.' ∷ (octet c ++ b'.' ∷ octet d))

-- 0.0.0.0/8, 10.0.0.0/8, 127.0.0.0/8, 169.254.0.0/16, 172.16.0.0/12 and 192.168.0.0/16.
abbrev pub is_reserved : ℕ → ℕ → Bool
is_reserved a b =
    a == 0
    || a == 10
    || a == 127
    || a == 169 && b == 254
    || a == 172 && (leb 16 b && leb b 31)
    || a == 192 && b == 168

-- The forms of a byte.
data Decimal (a : ℕ) : Type 0 where
  one : a < 10 → octet a ≡ (48 + a) ∷ [] → Decimal a
  two : 10 ≤ a → a < 100 → octet a ≡ (48 + a / 10) ∷ (48 + a % 10) ∷ [] → Decimal a
  three :
      100 ≤ a
      → a < 256
      → octet a ≡ (48 + a / 100) ∷ (48 + a / 10 % 10) ∷ (48 + a % 10) ∷ []
      → Decimal a

octet-Decimal : (a : ℕ) → a < 256 → Decimal a
octet-Decimal a h = elim (Bool-cases (ltb a 10)) [
  | inl e ↦ one (ground arith) (ground arith)
  | inr e ↦ elim (Bool-cases (ltb a 100)) [
    | inl f ↦ two (ground arith) (ground arith) (ground arith)
    | inr f ↦ three (ground arith) (ground arith) (ground arith)
  ]
]

prefix_10 :
    (a : ℕ) (s : List ℕ) → Decimal a → prefix_of (codes "10.") (octet a ++ b'.' ∷ s) ≡ (a == 10)
unfolding prefix_of
prefix_10 a s (one h e) = rw e (ground arith)
prefix_10 a s (two h k e) = rw e (ground arith)
prefix_10 a s (three h k e) = rw e (ground arith)

prefix_0 :
    (a : ℕ) (s : List ℕ) → Decimal a → prefix_of (codes "0.") (octet a ++ b'.' ∷ s) ≡ (a == 0)
unfolding prefix_of
prefix_0 a s (one h e) = rw e (ground arith)
prefix_0 a s (two h k e) = rw e (ground arith)
prefix_0 a s (three h k e) = rw e (ground arith)

prefix_127 :
    (a : ℕ) (s : List ℕ) → Decimal a → prefix_of (codes "127.") (octet a ++ b'.' ∷ s) ≡ (a == 127)
unfolding prefix_of
prefix_127 a s (one h e) = rw e (ground arith)
prefix_127 a s (two h k e) = rw e (ground arith)
prefix_127 a s (three h k e) = rw e (ground arith)

prefix_168 :
    (a : ℕ) (s : List ℕ) → Decimal a → prefix_of (codes "168.") (octet a ++ b'.' ∷ s) ≡ (a == 168)
unfolding prefix_of
prefix_168 a s (one h e) = rw e (ground arith)
prefix_168 a s (two h k e) = rw e (ground arith)
prefix_168 a s (three h k e) = rw e (ground arith)

prefix_254 :
    (a : ℕ) (s : List ℕ) → Decimal a → prefix_of (codes "254.") (octet a ++ b'.' ∷ s) ≡ (a == 254)
unfolding prefix_of
prefix_254 a s (one h e) = rw e (ground arith)
prefix_254 a s (two h k e) = rw e (ground arith)
prefix_254 a s (three h k e) = rw e (ground arith)

prefix_192 :
    (a : ℕ) (s : List ℕ)
    → Decimal a
    → prefix_of (codes "192.168.") (octet a ++ b'.' ∷ s) ≡ (a == 192 && prefix_of (codes "168.") s)
unfolding prefix_of
prefix_192 a s (one h e) = rw e (ground arith)
prefix_192 a s (two h k e) = rw e (ground arith)
prefix_192 a s (three h k e) = rw e (ground arith)

prefix_169 :
    (a : ℕ) (s : List ℕ)
    → Decimal a
    → prefix_of (codes "169.254.") (octet a ++ b'.' ∷ s) ≡ (a == 169 && prefix_of (codes "254.") s)
unfolding prefix_of
prefix_169 a s (one h e) = rw e (ground arith)
prefix_169 a s (two h k e) = rw e (ground arith)
prefix_169 a s (three h k e) = rw e (ground arith)

prefix_172 :
    (a : ℕ) (s : List ℕ) → Decimal a → prefix_of (codes "172.") (octet a ++ b'.' ∷ s) ≡ (a == 172)
unfolding prefix_of
prefix_172 a s (one h e) = rw e (ground arith)
prefix_172 a s (two h k e) = rw e (ground arith)
prefix_172 a s (three h k e) = rw e (ground arith)

-- What follows `172.` is read as the second octet.
first_digit-octet : (b : ℕ) (t : List ℕ) → Decimal b → first_digit (octet b ++ b'.' ∷ t) ≡ some b
unfolding first_digit octet_from is_digit
first_digit-octet b t (one h e) = rw e (ground arith)
first_digit-octet b t (two h k e) = rw e (ground arith)
first_digit-octet b t (three h k e) = rw e (ground arith)

in_172-second_octet :
    (a b : ℕ) (t : List ℕ)
    → a < 256
    → Decimal b
    → in_172 (second_octet (octet a ++ b'.' ∷ (octet b ++ b'.' ∷ t)))
      ≡ (a == 172 && (leb 16 b && leb b 31))
unfolding second_octet prefix_of
in_172-second_octet a b t h o = elim (Bool-cases (a == 172)) [
  | inl e ↦ let f : a ≡ 172 = beq→eq a 172 e in rw f (rw (first_digit-octet b t o))
  | inr e ↦ rw (prefix_172 a (octet b ++ b'.' ∷ t) (octet-Decimal a h), e)
]

codes_beq→prefix_of : (p q h : List ℕ) → codes_beq (p ++ q) h ≡ true → prefix_of p h ≡ true
unfolding codes_beq prefix_of
codes_beq→prefix_of [] q h e = refl
codes_beq→prefix_of (c ∷ p) q [] e = cc
codes_beq→prefix_of (c ∷ p) q (d ∷ h) e = ground (arith, codes_beq→prefix_of p q h)

-- A text that begins after the digits.
abbrev Late : String → Type 0
Late String.[] = ⊥
Late (String.◌∷◌ c s) = 57 < code c

any-Late :
    (names : List String) (x : ℕ) (s : List ℕ)
    → x ≤ 57
    → All Late names
    → any (λ n. codes_beq (codes n) (x ∷ s)) names ≡ false
unfolding codes_beq
any-Late [] x s h k = refl
any-Late (String.[] ∷ names) x s h k = absurd k.0
any-Late (String.◌∷◌ c n ∷ names) x s h k = ground (arith, any-Late names x s h k.1)

or_eq_false : (a b : Bool) → a ≡ false → b ≡ false → (a || b) ≡ false
or_eq_false a b p q = rw (p, q)

-- An address with another beginning is not that address.
not_exact : (p q h : List ℕ) → prefix_of p h ≡ false → codes_beq (p ++ q) h ≡ false
not_exact p q h e = elim (Bool-cases (codes_beq (p ++ q) h)) [
  | inl f ↦ cc (codes_beq→prefix_of p q h f)
  | inr f ↦ f
]

abbrev late_names : List String
late_names =
    "::1" ∷ "::" ∷ "db" ∷ "postgres" ∷ "redis" ∷ "api" ∷ "worker" ∷ "frontend" ∷ "sentinel_db" ∷ []

-- Of the blocked names only two begin with a digit, and both are reserved addresses.
blocked_digit :
    (x : ℕ) (s : List ℕ)
    → x ≤ 57
    → prefix_of (codes "127.") (x ∷ s) ≡ false
    → prefix_of (codes "0.") (x ∷ s) ≡ false
    → blocked_name (x ∷ s) ≡ false
unfolding blocked_name
blocked_digit x s h p q =
    let local = any-Late ("localhost" ∷ []) x s h (omega arith) in
    let late = any-Late late_names x s h (omega arith) in
    or_eq_false (codes_beq (codes "localhost") (x ∷ s)) _ (ground (arith, local)) (
      or_eq_false _ _ (not_exact (codes "127.") (codes "0.0.1") (x ∷ s) p)
        (or_eq_false _ _ (not_exact (codes "0.") (codes "0.0.0") (x ∷ s) q) late))

-- The first code point of a byte in decimal.
octet-head :
    (a : ℕ) (s : List ℕ)
    → Decimal a
    → (x : ℕ) × (t : List ℕ) × (octet a ++ b'.' ∷ s ≡ x ∷ t) × (x ≤ 57)
octet-head a s (one h e) = ((48 + a), b'.' ∷ s, rw e refl, omega arith)
octet-head a s (two h k e) = ((48 + a / 10), (48 + a % 10) ∷ b'.' ∷ s, rw e refl, omega arith)
octet-head a s (three h k e) =
    ((48 + a / 100), (48 + a / 10 % 10) ∷ (48 + a % 10) ∷ b'.' ∷ s, rw e refl, omega arith)

-- The tests by prefix in terms of the first two octets.
blocked_prefix-dotted :
    (a b : ℕ) (t : List ℕ)
    → Decimal a
    → Decimal b
    → blocked_prefix (octet a ++ b'.' ∷ (octet b ++ b'.' ∷ t)) ≡ (
        a == 127
        || (a == 10 || (a == 192 && b == 168 || (a == 169 && b == 254 || (a == 0 || false)))))
unfolding blocked_prefix
blocked_prefix-dotted a b t oa ob =
    let s = octet b ++ b'.' ∷ t in
    rw (
      prefix_127 a s oa,
      prefix_10 a s oa,
      prefix_192 a s oa,
      prefix_168 b t ob,
      prefix_169 a s oa,
      prefix_254 b t ob,
      prefix_0 a s oa,
    )

blocked_name-dotted :
    (a : ℕ) (t : List ℕ)
    → Decimal a
    → blocked_name (octet a ++ b'.' ∷ t) ≡ true
    → (a ≡ 127) ⊎ (a ≡ 0)
blocked_name-dotted a t oa h = elim (Bool-cases (a == 127)) [
  | inl p ↦ inl (beq→eq a 127 p)
  | inr p ↦ elim (Bool-cases (a == 0)) [
    | inl q ↦ inr (beq→eq a 0 q)
    | inr q ↦
        let (x, s, e, k) = octet-head a t oa in
        let e1 = prefix_127 a t oa ∙ p in
        let e2 = prefix_0 a t oa ∙ q in
        cc (rw e at h, blocked_digit x s k (rw e at e1) (rw e at e2))
  ]
]

-- The check in terms of the same.
is_public_host_parts :
    (host : List ℕ) (a b : ℕ)
    → is_empty host ≡ false
    → blocked_prefix host ≡ (
        a == 127
        || (a == 10 || (a == 192 && b == 168 || (a == 169 && b == 254 || (a == 0 || false)))))
    → in_172 (second_octet host) ≡ (a == 172 && (leb 16 b && leb b 31))
    → (blocked_name host ≡ true → (a ≡ 127) ⊎ (a ≡ 0))
    → is_public_host host ≡ not (is_reserved a b)
unfolding is_public_host
is_public_host_parts host a b e0 e1 e2 f = rw (e0, e1, e2) (ground arith)

-- The check of a host name that is an address in dotted decimal: the reserved blocks are rejected,
-- and no other address is.
pub is_public_host-dotted :
    (a b c d : ℕ) → a < 256 → b < 256 → is_public_host (dotted a b c d) ≡ not (is_reserved a b)
unfolding dotted
is_public_host-dotted a b c d ha hb =
    let oa = octet-Decimal a ha in
    let ob = octet-Decimal b hb in
    let t = octet c ++ b'.' ∷ octet d in
    let (x, s, e, k) = octet-head a (octet b ++ b'.' ∷ t) oa in
    is_public_host_parts _ a b (ap is_empty e) (blocked_prefix-dotted a b t oa ob)
      (in_172-second_octet a b t ha ob) (blocked_name-dotted a (octet b ++ b'.' ∷ t) oa)

abbrev Low : List ℕ → Type 0
Low = All (λ c. c ≤ 57)

octet-Low : (a : ℕ) → Decimal a → Low (octet a)
octet-Low a (one h e) = rw e (omega arith, tt)
octet-Low a (two h k e) = rw e (omega arith, (omega arith, tt))
octet-Low a (three h k e) = rw e (omega arith, (omega arith, (omega arith, tt)))

dotted-Low : (a b c d : ℕ) → a < 256 → b < 256 → c < 256 → d < 256 → Low (dotted a b c d)
unfolding dotted
dotted-Low a b c d ha hb hc hd =
    let low = λ (n : ℕ) (h : n < 256). octet-Low n (octet-Decimal n h) in
    All-append _ (octet a) _ (low a ha) (
      omega arith,
      All-append _ (octet b) _ (low b hb)
          (omega arith, All-append _ (octet c) _ (low c hc) (omega arith, low d hd)),
    )

drop_close-Low : (s : List ℕ) → Low s → drop_close s ≡ s
unfolding drop_close
drop_close-Low [] h = refl
drop_close-Low (c ∷ []) h = ground arith
drop_close-Low (c ∷ d ∷ s) h = ap (λ r. c ∷ r) (drop_close-Low (d ∷ s) h.1)

strip_brackets-Low : (s : List ℕ) → Low s → strip_brackets s ≡ s
unfolding strip_brackets
strip_brackets-Low [] h = refl
strip_brackets-Low (c ∷ s) h =
    let e : (c == b'[') ≡ false = ground (arith, h.0) in rw e (drop_close-Low (c ∷ s) h)

-- An HTTP or HTTPS URL whose host name is an IPv4 address in dotted decimal passes the check exactly
-- if the address is in none of 0.0.0.0/8, 10.0.0.0/8, 127.0.0.0/8, 169.254.0.0/16, 172.16.0.0/12
-- and 192.168.0.0/16.
pub validate-dotted :
    (p : Platform) (s : String) (u : Url) (a b c d : ℕ)
    → is_blank s ≡ false
    → p.parse_url s ≡ some u
    → (p.to_lower u.protocol == "http:" || p.to_lower u.protocol == "https:") ≡ true
    → codes (p.to_lower u.hostname) ≡ dotted a b c d
    → a < 256
    → b < 256
    → c < 256
    → d < 256
    → validate p (str s) ≡ not (is_reserved a b)
unfolding validate url_or_reject is_public_url
validate-dotted p s u a b c d blank parsed scheme host ha hb hc hd =
    rw (blank, parsed)
      (rw (scheme, host)
        (rw (strip_brackets-Low _ (dotted-Low a b c d ha hb hc hd))
          (is_public_host-dotted a b c d ha hb)))
