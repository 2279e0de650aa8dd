-- ===== src/History/Percentile.antt =====
-- The 95th percentile of `summarizeMonitorHistory` against the definition by ranks.
use sentinel_project.Base.{
  All, List, Option, Option-cases, Sorted, [], ap, arith, false, filter, inl, inr, leb, length,
  length-filter-sort, length-sort, ltb, none, refl, some, sort, sort-Sorted, suc, true, zero, ℕ,
  ◌*◌, ◌<◌, ◌∷◌, ◌≡◌, ◌≤◌,
}
use sentinel_project.History.Summary.{
  MonitorHistoryRow, at, latencies, p95, p95_index, p95_index_lt, summarize_monitor_history,
}

All-at {κ} : (P : ℕ → Type κ) (xs : List ℕ) (i : ℕ) → All P xs → i < length xs → P (at xs i)
All-at P [] i h k = absurd (omega arith)
All-at P (x ∷ xs) zero h k = h.0
All-at P (x ∷ xs) (suc i) h k = All-at P xs i h.1 (omega arith)

-- How many values are at most `x`, and how many are below it.
abbrev pub at_most : ℕ → List ℕ → ℕ
at_most x xs = length (filter (λ y. leb y x) xs)

abbrev pub less_than : ℕ → List ℕ → ℕ
less_than x xs = length (filter (λ y. ltb y x) xs)

none_less : (x : ℕ) (xs : List ℕ) → All (λ y. leb x y ≡ true) xs → less_than x xs ≡ 0
none_less x [] h = refl
none_less x (y ∷ ys) h = ground (arith, h.0, none_less x ys h.1)

rank_at_most : (xs : List ℕ) (i : ℕ) → Sorted leb xs → i < length xs → i < at_most (at xs i) xs
rank_at_most [] i h k = absurd (omega arith)
rank_at_most (x ∷ xs) zero h k = ground arith
rank_at_most (x ∷ xs) (suc i) h k =
    let first = All-at (λ y. leb x y ≡ true) xs i h.0 (omega arith) in
    ground (arith, first, rank_at_most xs i h.1 (omega arith))

rank_less : (xs : List ℕ) (i : ℕ) → Sorted leb xs → i < length xs → less_than (at xs i) xs ≤ i
rank_less [] i h k = absurd (omega arith)
rank_less (x ∷ xs) zero h k = ground (arith, none_less x xs h.0)
rank_less (x ∷ xs) (suc i) h k = ground (arith, rank_less xs i h.1 (omega arith))

leb_total : (x y : ℕ) → leb x y ≡ false → leb y x ≡ true
leb_total x y h = ground arith

leb_trans : (x y z : ℕ) → leb x y ≡ true → leb y z ≡ true → leb x z ≡ true
leb_trans x y z h k = ground arith

-- The nearest-rank definition: 95 of 100 values are at most `x`, and fewer are below it.
pub record IsPercentile (x : ℕ) (xs : List ℕ) : Type 0 where
  pub reached : 95 * length xs ≤ 100 * at_most x xs
  pub least : 100 * less_than x xs < 95 * length xs

p95-index :
    (xs : List ℕ) (x : ℕ)
    → p95 xs ≡ some x
    → (x ≡ at xs (p95_index (length xs))) × (p95_index (length xs) < length xs)
p95-index [] x h = absurd (ground arith)
p95-index (y ∷ ys) x h = (ground arith, p95_index_lt (length ys))

Sorted-IsPercentile : (xs : List ℕ) (x : ℕ) → Sorted leb xs → p95 xs ≡ some x → IsPercentile x xs
Sorted-IsPercentile xs x h e =
    let (same, inside) = p95-index xs x e in
    let more = rank_at_most xs (p95_index (length xs)) h inside in
    let less = rank_less xs (p95_index (length xs)) h inside in
    rw same (record { reached = omega (arith, more, inside); least = omega (arith, less, inside) })

shown-IsPercentile :
    (rows : List MonitorHistoryRow) (x : ℕ)
    → (summarize_monitor_history rows).p95_latency_ms ≡ some x
    → IsPercentile x (latencies rows)
unfolding summarize_monitor_history
shown-IsPercentile rows x h =
    let xs = latencies rows in
    let found = Sorted-IsPercentile (sort leb xs) x (sort-Sorted leb leb_total leb_trans xs) h in
    let size = length-sort leb xs in
    let upto = length-filter-sort leb (λ y. leb y x) xs in
    let under = length-filter-sort leb (λ y. ltb y x) xs in
    record {
      reached = omega (arith, found.reached, size, upto);
      least = omega (arith, found.least, size, under);
    }

p95-none : (xs : List ℕ) → p95 xs ≡ none → xs ≡ []
p95-none [] h = refl
p95-none (x ∷ xs) h = absurd (ground (arith, h))

nil_of_length : (xs : List ℕ) → length xs ≡ 0 → xs ≡ []
nil_of_length [] h = refl
nil_of_length (x ∷ xs) h = absurd (omega (arith, h))

none_shown :
    (rows : List MonitorHistoryRow)
    → (summarize_monitor_history rows).p95_latency_ms ≡ none
    → latencies rows ≡ []
unfolding summarize_monitor_history
none_shown rows h =
    let empty = ap length (p95-none (sort leb (latencies rows)) h) in
    let size = length-sort leb (latencies rows) in
    nil_of_length (latencies rows) (omega (arith, empty, size))

-- A percentile of the values, or none where there are no values.
abbrev pub IsP95 : Option ℕ → List ℕ → Type 0
IsP95 none xs = xs ≡ []
IsP95 (some x) xs = IsPercentile x xs

-- The 95th percentile that the summary shows is that of the loaded latencies by the definition of
-- the nearest rank: at least 95 of 100 are at most that latency, and fewer are below it. It shows
-- none only where no latency is loaded.
pub summarize_monitor_history-IsP95 :
    (rows : List MonitorHistoryRow)
    → IsP95 (summarize_monitor_history rows).p95_latency_ms (latencies rows)
summarize_monitor_history-IsP95 rows =
    elim (Option-cases (summarize_monitor_history rows).p95_latency_ms) [
      | inl e ↦ rw e (none_shown rows e)
      | inr (x, e) ↦ rw e (shown-IsPercentile rows x e)
    ]
