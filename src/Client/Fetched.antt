-- ===== src/Client/Fetched.antt =====
-- What a request does to the session, and what the user reads of a failed one.
use sentinel_project.Base.{
  Bool, Bool-cases, Option, String, arith, eq_iff, false, if◌then◌else◌, inl, inr, nat_eq, none,
  refl, some, string_eq, true, ℕ, ◌==◌, ◌||◌, ◌∙◌, ◌≡◌, ◌≢◌, ◌⊎◌,
}
use sentinel_project.Base.Text.{includes}
use sentinel_project.Client.{
  Headers, Options, Parser, Response, detail_of, ends_session, error_message, error_of,
  limited_message, normalize_detail, parsed_body, request_headers, store_after, too_many,
}
use sentinel_project.Session.{TokenStore, clear, get, read_through}
use sentinel_project.Session.Provider.{refused}
use sentinel_project.Session.Provider.Shown.{get-clear, get-read_through}

get-seen :
    (anonymous : Bool) (s : TokenStore) → get (if anonymous then s else read_through s) ≡ get s
get-seen true s = refl
get-seen false s = get-read_through s

get-store :
    (ends : Bool) (s t : TokenStore)
    → get t ≡ get s
    → get (if ends then clear t else t) ≡ (if ends then none else get s)
get-store true s t e = get-clear t
get-store false s t e = e

-- What a request leaves of the token in the store `s`, `t` being the store after it.
pub data Keeps (o : Options) (r : Response) (s t : TokenStore) : Type 0 where
  ended :
      r.succeeded ≡ false
      → r.status ≡ 401
      → o.anonymous ≡ false
      → o.ignores_unauthorized ≡ false
      → get t ≡ none
      → Keeps o r s t
  kept :
      (r.succeeded ≡ true)
        ⊎ (r.status ≢ 401)
        ⊎ (o.anonymous ≡ true)
        ⊎ (o.ignores_unauthorized ≡ true)
      → get t ≡ get s
      → Keeps o r s t

ends :
    (o : Options) (r : Response)
    → ends_session o r ≡ true
    → (r.succeeded ≡ false)
      × (r.status ≡ 401)
      × (o.anonymous ≡ false)
      × (o.ignores_unauthorized ≡ false)
unfolding ends_session
ends o r e = ground arith

goes_on :
    (o : Options) (r : Response)
    → ends_session o r ≡ false
    → (r.succeeded ≡ true)
      ⊎ (r.status ≢ 401)
      ⊎ (o.anonymous ≡ true)
      ⊎ (o.ignores_unauthorized ≡ true)
unfolding ends_session
goes_on o r e = ground arith

-- A request ends the session, so that there is no token any more, where it fails with a 401 and is
-- neither anonymous nor made to ignore this; and any request that succeeds, has another status, is
-- anonymous or ignores it leaves the token as it was.
pub store_after-Keeps :
    (o : Options) (r : Response) (s : TokenStore) → Keeps o r s (store_after o r s)
unfolding store_after
store_after-Keeps o r s =
    let seen = if o.anonymous then s else read_through s in
    let token = get-store (ends_session o r) s seen (get-seen o.anonymous s) in
    elim (Bool-cases (ends_session o r)) [
      | inl e ↦
          let (refused, status, named, heeding) = ends o r e in
          ended refused status named heeding (token ∙ rw (e, if◌then◌else◌) refl)
      | inr e ↦ kept (goes_on o r e) (token ∙ rw (e, if◌then◌else◌) refl)
    ]

calls_no_end : (o : Options) (r : Response) → o.anonymous ≡ true → ends_session o r ≡ false
unfolding ends_session
calls_no_end o r e = ground arith

untouched :
    (anonymous ends : Bool) (s : TokenStore)
    → anonymous ≡ true
    → ends ≡ false
    → (let seen = if anonymous then s else read_through s in if ends then clear seen else seen) ≡ s
untouched true false s a e = refl
untouched true true s a e = cc
untouched false ends s a e = cc

-- An anonymous request carries no authorization, whatever the caller or the session has, and its
-- answer, whatever it is, leaves the store as it was.
pub anonymous_untouched :
    (o : Options) (token : Option String) (text_body : Bool) (h : Headers) (r : Response)
    (s : TokenStore)
    → o.anonymous ≡ true
    → ((request_headers o token text_body h).authorization ≡ none) × (store_after o r s ≡ s)
unfolding request_headers store_after
anonymous_untouched o token text_body h r s e =
    (rw (e, if◌then◌else◌) refl, untouched o.anonymous (ends_session o r) s e (calls_no_end o r e))

limited_readable :
    (m : Option String)
    → (limited_message m ≢ "") × (includes (limited_message m) "ThrottlerException" ≡ false)
unfolding includes
limited_readable none = (λ k. ground (arith, (eq_iff too_many "").1 k), refl)
limited_readable (some m) = elim (Bool-cases (m == "" || includes m "ThrottlerException")) [
  | inl e ↦ rw (e, if◌then◌else◌) (λ k. ground (arith, (eq_iff too_many "").1 k), refl)
  | inr e ↦ rw (e, if◌then◌else◌) (λ k. ground (arith, eq_iff m ""), ground arith)
]

message_readable :
    (status : ℕ) (m : Option String)
    → status ≡ 429
    → (error_message status m ≢ "")
      × (includes (error_message status m) "ThrottlerException" ≡ false)
unfolding error_message
message_readable status m e = rw e (limited_readable m)

-- The message of a request that was refused as one too many is not empty and does not name the
-- exception of the service, whatever its body.
pub error_of_readable :
    (p : Parser) (r : Response)
    → r.status ≡ 429
    → ((error_of p r).message ≢ "") × (includes (error_of p r).message "ThrottlerException" ≡ false)
unfolding error_of
error_of_readable p r e =
    message_readable r.status (normalize_detail p (detail_of (parsed_body p r.body))).message e
