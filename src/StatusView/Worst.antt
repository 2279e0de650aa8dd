-- ===== src/StatusView/Worst.antt =====
-- What the summary of the page says of its monitors.
use sentinel_project.Base.{
  All, Any, Bool-cases, List, [], all, arith, false, if◌then◌else◌, inl, inr, ltb, ltb→lt, map,
  nat_eq, refl, string_eq, subst, true, ℕ, ◌<◌, ◌∙◌, ◌∷◌, ◌≡◌, ◌≢◌, ◌≤◌,
}
use sentinel_project.Base.Text.{Platform}
use sentinel_project.StatusView.{
  PublicStatusMonitor, StatusLabel, StatusOptions, StatusSummary, classify_status, degraded, down,
  is_operational, label_text, no_data, operational, severity, summarize_labels, summarize_status,
  worse, worst_of,
}

worst-ge :
    (l : StatusLabel) (ls : List StatusLabel)
    → All (λ k. severity k ≤ severity (worst_of l ls)) (l ∷ ls)
unfolding worst_of
worst-ge l [] = (omega arith, tt)
worst-ge l (k ∷ ls) =
    let (less, rest) = worst-ge (worse l k) ls in
    elim (Bool-cases (ltb (severity l) (severity k))) [
      | inl e ↦
          let new : worse l k ≡ k = rw (e, if◌then◌else◌) refl in
          let high = subst (λ w. severity w ≤ severity (worst_of (worse l k) ls)) new less in
          (omega (arith, ltb→lt _ _ e, high), (high, rest))
      | inr e ↦
          let old : worse l k ≡ l = rw (e, if◌then◌else◌) refl in
          let high = subst (λ w. severity w ≤ severity (worst_of (worse l k) ls)) old less in
          (high, (ground (arith, high), rest))
    ]

worst-Any : (l : StatusLabel) (ls : List StatusLabel) → Any (λ k. worst_of l ls ≡ k) (l ∷ ls)
unfolding worst_of
worst-Any l [] = inl refl
worst-Any l (k ∷ ls) = elim (worst-Any (worse l k) ls) [
  | inl e ↦ elim (Bool-cases (ltb (severity l) (severity k))) [
    | inl f ↦ inr (inl (e ∙ rw (f, if◌then◌else◌) refl))
    | inr f ↦ inl (e ∙ rw (f, if◌then◌else◌) refl)
  ]
  | inr h ↦ inr (inr h)
]

all_operational-All :
    (ls : List StatusLabel) → all is_operational ls ≡ true → All (λ k. k ≡ operational) ls
all_operational-All [] h = tt
all_operational-All (operational ∷ ls) h = (refl, all_operational-All ls h)
all_operational-All (degraded ∷ ls) h = cc
all_operational-All (down ∷ ls) h = cc
all_operational-All (no_data ∷ ls) h = cc

-- Where not all are operational, what bounds all severities is above 0.
some_severe :
    (n : ℕ) (ls : List StatusLabel)
    → all is_operational ls ≡ false
    → All (λ k. severity k ≤ n) ls
    → 0 < n
some_severe n [] h k = cc
some_severe n (operational ∷ ls) h k = some_severe n ls h k.1
some_severe n (degraded ∷ ls) h k = omega (arith, k.0)
some_severe n (down ∷ ls) h k = omega (arith, k.0)
some_severe n (no_data ∷ ls) h k = omega (arith, k.0)

-- The label of some monitor, none of which has a more severe one.
pub record IsWorst (label : StatusLabel) (ls : List StatusLabel) : Type 0 where
  pub member : Any (λ k. label ≡ k) ls
  pub bounds : All (λ k. severity k ≤ severity label) ls
  pub severe : 0 < severity label

-- What the summary of labels may be.
pub data IsSummary (ls : List StatusLabel) (s : StatusSummary) : Type 0 where
  nothing : ls ≡ [] → s ≡ record { label = "No data"; all_operational = false } → IsSummary ls s
  fine :
      ls ≢ []
      → All (λ k. k ≡ operational) ls
      → s ≡ record { label = "All systems operational"; all_operational = true }
      → IsSummary ls s
  trouble :
      (worst : StatusLabel)
      → IsWorst worst ls
      → s ≡ record { label = label_text worst; all_operational = false }
      → IsSummary ls s

labels-IsSummary : (ls : List StatusLabel) → IsSummary ls (summarize_labels ls)
unfolding summarize_labels
labels-IsSummary [] = nothing refl refl
labels-IsSummary (l ∷ ls) = elim (Bool-cases (all is_operational (l ∷ ls))) [
  | inl e ↦ fine (λ h. cc) (all_operational-All (l ∷ ls) e) (rw (e, if◌then◌else◌) refl)
  | inr e ↦
      let bounds = worst-ge l ls in
      trouble (worst_of l ls)
        (record {
          member = worst-Any l ls;
          bounds = bounds;
          severe = some_severe _ (l ∷ ls) e bounds;
        })
        (rw (e, if◌then◌else◌) refl)
]

-- The summary of a page without monitors is that there is no data; the page says that all systems
-- are operational exactly where there are monitors and each is operational; and else it shows the
-- label of some monitor, which is not the operational one, such that no monitor has a more severe
-- one.
pub summarize_status-IsSummary :
    (p : Platform) (ms : List PublicStatusMonitor) (o : StatusOptions)
    → IsSummary (map (λ m. classify_status p m o) ms) (summarize_status p ms o)
unfolding summarize_status
summarize_status-IsSummary p ms o = labels-IsSummary (map (λ m. classify_status p m o) ms)
