-- ===== src/PublicStatus/Cache.antt =====
-- Runs of the service: calls, and queries that come back or fail, in any order.
use sentinel_project.Base.{
  Any, Bool-cases, List, Option, [], ap, arith, if◌then◌else◌, inl, inr, length, ltb, none, refl,
  some, subst, ℕ, ◌+◌, ◌<◌, ◌∙◌, ◌∷◌, ◌≡◌, ◌≤◌, ◌⊎◌,
}
use sentinel_project.PublicStatus.{
  Cached, PublicStatusResponse, Service, answer_call, arrive, cached_rows, call, fail, init,
  join_or_start, promise, remove,
}

-- The queries that run while `in_flight` is the field of that name.
abbrev flying : Option ℕ → List ℕ
flying none = []
flying (some q) = q ∷ []

-- The cached rows came back at some time, and expire `ttl` later.
abbrev FromArrival : ℕ → List (ℕ × List PublicStatusResponse) → Option Cached → Type 0
FromArrival ttl arrived none = Unit
FromArrival ttl arrived (some c) = Any (λ a. (a.1 ≡ c.rows) × (a.0 + ttl ≡ c.expires_at)) arrived

module _ (ttl : ℕ) where
  -- A query that settles is one that runs.
  pub data Step (s : Service) (t : Service) : Type 0 where
    called : (now : ℕ) → t ≡ (call now s).1 → Step s t
    came :
        (q now : ℕ) (rows : List PublicStatusResponse)
        → Any (λ r. r ≡ q) s.running
        → t ≡ arrive ttl q now rows s
        → Step s t
    failed : (q : ℕ) → Any (λ r. r ≡ q) s.running → t ≡ fail q s → Step s t

  pub data Reach : Service → Type 0 where
    here : Reach init
    next : {s t : Service} → Reach s → Step s t → Reach t

  record IsSound (s : Service) : Type 0 where
    one : s.running ≡ flying s.in_flight
    stamped : FromArrival ttl s.arrived s.cached

  join_or_start-IsSound :
      (o : Option ℕ) (s : Service) → s.in_flight ≡ o → IsSound s → IsSound (join_or_start o s).1
  unfolding join_or_start
  join_or_start-IsSound (some q) s e h = h
  join_or_start-IsSound none s e h =
      let empty : s.running ≡ [] = h.one ∙ ap flying e in
      record { one = rw empty; stamped = h.stamped }

  answer_call-IsSound :
      (o : Option Cached) (now : ℕ) (s : Service) → IsSound s → IsSound (answer_call o now s).1
  unfolding answer_call
  answer_call-IsSound none now s h = join_or_start-IsSound s.in_flight s refl h
  answer_call-IsSound (some c) now s h = elim (Bool-cases (ltb now c.expires_at)) [
    | inl e ↦ rw e h
    | inr e ↦ rw e (join_or_start-IsSound s.in_flight s refl h)
  ]

  remove_only : (q : ℕ) (o : Option ℕ) → Any (λ r. r ≡ q) (flying o) → remove q (flying o) ≡ []
  remove_only q none h = absurd h
  remove_only q (some r) (inl e) = ground arith
  remove_only q (some r) (inr e) = absurd e

  settled : (q : ℕ) (s : Service) → IsSound s → Any (λ r. r ≡ q) s.running → remove q s.running ≡ []
  settled q s h m =
      ap (remove q) h.one ∙ remove_only q s.in_flight (subst (Any (λ r. r ≡ q)) h.one m)

  Step-IsSound : {s t : Service} → Step s t → IsSound s → IsSound t
  unfolding call arrive fail
  Step-IsSound {s} (called now e) h = rw e (answer_call-IsSound s.cached now s h)
  Step-IsSound {s} (came q now rows m e) h =
      rw e record { one = settled q s h m; stamped = inl (refl, refl) }
  Step-IsSound {s} (failed q m e) h = rw e record { one = settled q s h m; stamped = h.stamped }

  Reach-IsSound : {s : Service} → Reach s → IsSound s
  Reach-IsSound here = record { one = refl; stamped = tt }
  Reach-IsSound (next r st) = Step-IsSound st (Reach-IsSound r)

  -- However calls, arrivals and failures interleave, at most one query runs at a time.
  pub one_query : (s : Service) → Reach s → length s.running ≤ 1
  one_query s r = rw (Reach-IsSound r).one (few s.in_flight)
    where
      few : (o : Option ℕ) → length (flying o) ≤ 1
      few none = omega arith
      few (some q) = omega arith

  cached_answer :
      (o : Option Cached) (now : ℕ) (s : Service) (rows : List PublicStatusResponse)
      → (answer_call o now s).0 ≡ cached_rows rows
      → (c : Cached) × (o ≡ some c) × (c.rows ≡ rows) × (now < c.expires_at)
  unfolding answer_call join_or_start
  cached_answer none now s rows h = ground arith
  cached_answer (some c) now s rows h = (c, refl, ground arith, ground arith)

  Any-map {ℓ} :
      {A : Type ℓ} {P Q : A → Type 0} → ((x : A) → P x → Q x) → (xs : List A) → Any P xs → Any Q xs
  Any-map f [] h = h
  Any-map f (x ∷ xs) (inl h) = inl (f x h)
  Any-map f (x ∷ xs) (inr h) = inr (Any-map f xs h)

  -- Rows that a call answers from the cache came back from a query less than `ttl` before.
  pub call_fresh :
      (s : Service) (now : ℕ) (rows : List PublicStatusResponse)
      → Reach s
      → (call now s).0 ≡ cached_rows rows
      → Any (λ a. (a.1 ≡ rows) × (now < a.0 + ttl)) s.arrived
  unfolding call
  call_fresh s now rows r h =
      let (c, stored, same, before) = cached_answer s.cached now s rows h in
      let stamp = subst (FromArrival ttl s.arrived) stored (Reach-IsSound r).stamped in
      Any-map (λ a q. (q.0 ∙ same, omega (arith, q.1, before))) s.arrived stamp

  -- A call that finds `running` running starts the query `q`, or joins it.
  abbrev Joins : List ℕ → ℕ → Service → Service → Type 0
  Joins running q s t = ((running ≡ []) × (t.running ≡ q ∷ [])) ⊎ ((running ≡ q ∷ []) × (t ≡ s))

  join_or_start-Joins :
      (o : Option ℕ) (s : Service) (q : ℕ)
      → s.running ≡ flying o
      → (join_or_start o s).0 ≡ promise q
      → Joins s.running q s (join_or_start o s).1
  unfolding join_or_start
  join_or_start-Joins (some r) s q e h = inr (e ∙ cc, refl)
  join_or_start-Joins none s q e h = inl (e, cc)

  answer_call-Joins :
      (o : Option Cached) (now : ℕ) (s : Service) (q : ℕ)
      → s.running ≡ flying s.in_flight
      → (answer_call o now s).0 ≡ promise q
      → Joins s.running q s (answer_call o now s).1
  unfolding answer_call
  answer_call-Joins none now s q e h = join_or_start-Joins s.in_flight s q e h
  answer_call-Joins (some c) now s q e h = elim (Bool-cases (ltb now c.expires_at)) [
    | inl b ↦ absurd (ground arith)
    | inr b ↦
        rw (b, if◌then◌else◌) (join_or_start-Joins s.in_flight s q e (rw (b, if◌then◌else◌) at h))
  ]

  -- A query is started only where none runs, and a call that finds one running joins it.
  pub call_joins :
      (s : Service) (now q : ℕ)
      → Reach s
      → (call now s).0 ≡ promise q
      → ((s.running ≡ []) × ((call now s).1.running ≡ q ∷ []))
        ⊎ ((s.running ≡ q ∷ []) × ((call now s).1 ≡ s))
  unfolding call
  call_joins s now q r h = answer_call-Joins s.cached now s q (Reach-IsSound r).one h
