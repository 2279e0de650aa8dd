-- ===== src/Monitors/Owner.antt =====
-- Rows found by their id and their owner, where no two rows share an id.
use sentinel_project.Base.{
  All, All-map, Bool-cases, List, [], arith, beq→eq, filter, find, if◌then◌else◌, inl, inr, nat_eq,
  none, not, refl, some, string_eq, sym, true, ℕ, ◌==◌, ◌∙◌, ◌∷◌, ◌≡◌, ◌≢◌,
}
use sentinel_project.Db.{Monitor, delete_where, update_where}
use sentinel_project.Monitors.{is_owned, owned_by}

-- No two monitors share an id, as the table's key demands.
abbrev pub DistinctIds : List Monitor → Type 0
DistinctIds [] = Unit
DistinctIds (m ∷ ms) = All (λ x. x.id ≢ m.id) ms × DistinctIds ms

-- Every row with the id `i` is owned by `u`.
abbrev pub OwnedAt : ℕ → ℕ → List Monitor → Type 0
OwnedAt i u = All (λ x. x.id ≡ i → x.user_id ≡ u)

module _ (i u : ℕ) where
  pub found_here : (m : Monitor) → is_owned i u m ≡ true → (m.id ≡ i) × (m.user_id ≡ u)
  found_here m h = ground arith

  pub found-owner :
      (ms : List Monitor) (m : Monitor)
      → find (is_owned i u) ms ≡ some m
      → (m.id ≡ i) × (m.user_id ≡ u)
  found-owner [] m h = cc
  found-owner (x ∷ ms) m h = elim (Bool-cases (is_owned i u x)) [
    | inl e ↦ let same : x ≡ m = cc (rw (e, if◌then◌else◌) at h) in rw (← same) (found_here x e)
    | inr e ↦ found-owner ms m (rw (e, if◌then◌else◌) at h)
  ]

  not_found_of_ids : (ms : List Monitor) → All (λ x. x.id ≢ i) ms → find (is_owned i u) ms ≡ none
  not_found_of_ids [] h = refl
  not_found_of_ids (x ∷ ms) h = ground (arith, h.0, not_found_of_ids ms h.1)

  rest_missing :
      (x : Monitor) (ms : List Monitor) (m : Monitor)
      → x.id ≡ i
      → All (λ y. y.id ≢ x.id) ms
      → find (is_owned i u) ms ≡ some m
      → ⊥
  rest_missing x ms m q d h = cc (h, not_found_of_ids ms (All-map (λ y n e. n (e ∙ sym q)) ms d))

  pub find-OwnedAt :
      (ms : List Monitor) (m : Monitor)
      → DistinctIds ms
      → find (is_owned i u) ms ≡ some m
      → OwnedAt i u ms
  find-OwnedAt [] m d h = tt
  find-OwnedAt (x ∷ ms) m d h = elim (Bool-cases (is_owned i u x)) [
    | inl e ↦
        let (same, own) = found_here x e in
        (λ q. own, All-map (λ y n q. absurd (n (q ∙ sym same))) ms d.0)
    | inr e ↦
        let later = rw (e, if◌then◌else◌) at h in
        (λ q. absurd (rest_missing x ms m q d.0 later), find-OwnedAt ms m d.1 later)
  ]

  -- The row found by id and owner is the one found by id.
  pub find-id :
      (ms : List Monitor) (m : Monitor)
      → DistinctIds ms
      → find (is_owned i u) ms ≡ some m
      → find (λ x. x.id == i) ms ≡ some m
  find-id [] m d h = cc
  find-id (x ∷ ms) m d h = elim (Bool-cases (x.id == i)) [
    | inl e ↦ elim (Bool-cases (x.user_id == u)) [
      | inl f ↦ rw (e, if◌then◌else◌) (rw (e, f, if◌then◌else◌) at h)
      | inr f ↦ absurd (rest_missing x ms m (beq→eq x.id i e) d.0 (rw (e, f, if◌then◌else◌) at h))
    ]
    | inr e ↦ rw (e, if◌then◌else◌) (find-id ms m d.1 (rw (e, if◌then◌else◌) at h))
  ]

  -- A change of the rows with the id `i` that leaves their owner alone does not reach the rows of
  -- another user.
  pub filter-update_where :
      (f : Monitor → Monitor) (ms : List Monitor)
      → ((m : Monitor) → (f m).user_id ≡ m.user_id)
      → OwnedAt i u ms
      → filter (λ m. not (owned_by u m)) (update_where (λ m. m.id == i) f ms)
        ≡ filter (λ m. not (owned_by u m)) ms
  filter-update_where f [] k h = refl
  filter-update_where f (x ∷ ms) k h = ground (arith, k x, h.0, filter-update_where f ms k h.1)

  pub filter-delete_where :
      (ms : List Monitor)
      → OwnedAt i u ms
      → filter (λ m. not (owned_by u m)) (delete_where (λ m. m.id == i) ms)
        ≡ filter (λ m. not (owned_by u m)) ms
  filter-delete_where [] h = refl
  filter-delete_where (x ∷ ms) h = ground (arith, h.0, filter-delete_where ms h.1)
