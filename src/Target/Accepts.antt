-- ===== src/Target/Accepts.antt =====
-- What an accepted target is, and IPv6 host names that are accepted.
use sentinel_project.Base.{
  All, All-map, Bool, Bool-cases, List, Option-cases, String, [], any, ap, arith, eq_iff, false,
  inl, inr, nat_eq, not, refl, some, string_eq, sym, true, ℕ, ◌&&◌, ◌==◌, ◌||◌, ◌∷◌, ◌≡◌, ◌≢◌, ◌⊎◌,
}
use sentinel_project.Base.Json.{Json, str}
use sentinel_project.Base.Text.{Platform, Url, codes, codes_beq, is_blank, prefix_of}
use sentinel_project.Target.{
  blocked_exact, blocked_name, blocked_prefix, blocked_prefixes, drop_close, drop_open,
  is_public_host, is_public_url, second_octet, strip_brackets, url_or_reject, validate,
}

-- What is asked of a parsed target.
pub record IsPublic (p : Platform) (u : Url) : Type 0 where
  pub scheme : (p.to_lower u.protocol ≡ "http:") ⊎ (p.to_lower u.protocol ≡ "https:")
  pub named : strip_brackets (codes (p.to_lower u.hostname)) ≢ []
  pub not_local : All (λ n. codes n ≢ strip_brackets (codes (p.to_lower u.hostname))) blocked_exact
  pub not_reserved :
      All
        (λ n. prefix_of (codes n) (strip_brackets (codes (p.to_lower u.hostname))) ≡ false)
        blocked_prefixes

codes_beq_refl : (s : List ℕ) → codes_beq s s ≡ true
unfolding codes_beq
codes_beq_refl [] = refl
codes_beq_refl (c ∷ s) = ground (arith, codes_beq_refl s)

any-false {ℓ} :
    {A : Type ℓ} (q : A → Bool) (xs : List A) → any q xs ≡ false → All (λ x. q x ≡ false) xs
any-false q [] h = tt
any-false q (x ∷ xs) h = elim (Bool-cases (q x)) [
  | inl e ↦ cc (rw e at h)
  | inr e ↦ (e, any-false q xs (rw e at h))
]

not_equal_of_beq : (s t : List ℕ) → codes_beq s t ≡ false → s ≢ t
not_equal_of_beq s t h e = cc (rw e at h, codes_beq_refl t)

and_true : (a b : Bool) → (a && b) ≡ true → (a ≡ true) × (b ≡ true)
and_true a b h = ground arith

public_parts :
    (host : List ℕ)
    → is_public_host host ≡ true
    → (host ≢ []) × (blocked_name host ≡ false) × (blocked_prefix host ≡ false)
unfolding is_public_host
public_parts [] h = cc
public_parts (c ∷ s) h = (λ e. cc, ground arith, ground arith)

is_public_url-IsPublic : (p : Platform) (u : Url) → is_public_url p u ≡ true → IsPublic p u
unfolding is_public_url blocked_name blocked_prefix
is_public_url-IsPublic p u h =
    let protocol : String = p.to_lower u.protocol in
    let host : List ℕ = strip_brackets (codes (p.to_lower u.hostname)) in
    let (scheme, good) = and_true (protocol == "http:" || protocol == "https:") _ h in
    let (named, exact, prefixes) = public_parts host good in
    record {
      scheme = ground (arith, scheme, eq_iff protocol "http:", eq_iff protocol "https:");
      named = named;
      not_local =
          All-map (λ n. not_equal_of_beq (codes n) host) blocked_exact
            (any-false (λ n. codes_beq (codes n) host) blocked_exact exact);
      not_reserved = any-false (λ n. prefix_of (codes n) host) blocked_prefixes prefixes;
    }

-- An accepted target is a text that parses to an HTTP or HTTPS URL, and its host name, without
-- brackets, is not empty, is none of the blocked names, and begins with none of the blocked
-- prefixes.
pub validate-IsPublic :
    (p : Platform) (v : Json)
    → validate p v ≡ true
    → (s : String) × (u : Url) × (v ≡ str s) × (p.parse_url s ≡ some u) × IsPublic p u
unfolding validate url_or_reject
validate-IsPublic p (str s) h =
    let (filled, good) = and_true (not (is_blank s)) (url_or_reject p (p.parse_url s)) h in
    elim (Option-cases (p.parse_url s)) [
      | inl e ↦ cc (rw e at good)
      | inr (u, e) ↦ (s, u, refl, e, is_public_url-IsPublic p u (rw e at good))
    ]
validate-IsPublic p _ h = cc

pub validate-not_blank :
    (p : Platform) (s : String) → validate p (str s) ≡ true → is_blank s ≡ false
unfolding validate
validate-not_blank p s h = ground (arith, h)

-- An accepted host name is not "localhost".
pub public_not_localhost :
    (p : Platform) (u : Url) → IsPublic p u → (p.to_lower u.hostname == "localhost") ≡ false
unfolding strip_brackets drop_open drop_close
public_not_localhost p u h = elim (Bool-cases (p.to_lower u.hostname == "localhost")) [
  | inl e ↦
      let same : p.to_lower u.hostname ≡ "localhost" =
        ground (arith, e, eq_iff (p.to_lower u.hostname) "localhost") in
      absurd (h.not_local.0 (sym (ap (λ (n : String). strip_brackets (codes n)) same)))
  | inr e ↦ e
]

-- Host names of IPv6 addresses from fd00::/8: the unique local addresses in use.
abbrev pub unique_local : List ℕ → List ℕ
unique_local rest = b'[' ∷ b'f' ∷ b'd' ∷ rest

unique_local_host : (rest : List ℕ) → is_public_host (b'f' ∷ b'd' ∷ rest) ≡ true
unfolding is_public_host blocked_name blocked_prefix second_octet codes_beq prefix_of
unique_local_host rest = refl

drop_close-cons : (c d : ℕ) (s : List ℕ) → drop_close (c ∷ d ∷ s) ≡ c ∷ drop_close (d ∷ s)
unfolding drop_close
drop_close-cons c d s = refl

-- An HTTP or HTTPS URL whose host name is a bracketed IPv6 address that begins with `fd` passes the
-- check, although such an address is private.
pub validate-unique_local :
    (p : Platform) (s : String) (u : Url) (x : ℕ) (rest : List ℕ)
    → is_blank s ≡ false
    → p.parse_url s ≡ some u
    → (p.to_lower u.protocol == "http:" || p.to_lower u.protocol == "https:") ≡ true
    → codes (p.to_lower u.hostname) ≡ unique_local (x ∷ rest)
    → validate p (str s) ≡ true
unfolding validate url_or_reject is_public_url strip_brackets drop_open
validate-unique_local p s u x rest blank parsed scheme host =
    rw (blank, parsed)
      (rw (scheme, host)
        (rw (drop_close-cons b'f' b'd' (x ∷ rest), drop_close-cons b'd' x rest)
          (unique_local_host (drop_close (x ∷ rest)))))
