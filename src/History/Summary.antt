-- ===== src/History/Summary.antt =====
-- The summary of the loaded rows: frontend/src/features/monitors/history/summary.ts. A latency is
-- counted in a unit that makes it whole; a quotient is a numerator and a denominator.
use sentinel_project.Base.{
  Bool, List, Option, String, [], arith, filter, get_elem?, get_or, if◌then◌else◌, leb, length, ltb,
  nat_eq, none, refl, some, sort, string_eq, suc, zero, ℕ, ◌%◌, ◌&&◌, ◌*◌, ◌+◌, ◌-◌, ◌/◌, ◌<◌, ◌==◌,
  ◌||◌, ◌∷◌, ◌≡◌,
}
use sentinel_project.Base.Text.{Platform}

pub record MonitorHistoryRow : Type 0 where
  pub id : ℕ
  pub monitor_id : ℕ
  pub state : String
  pub status_code : Option ℕ
  pub latency_ms : Option ℕ
  pub error_message : Option String
  pub created_at : String

pub record MonitorHistorySummary : Type 0 where
  pub loaded_count : ℕ
  pub healthy_percentage : Option (ℕ × ℕ)
  pub median_latency_ms : Option (ℕ × ℕ)
  pub p95_latency_ms : Option ℕ

abbrev pub latencies : List MonitorHistoryRow → List ℕ
latencies [] = []
latencies (r ∷ rs) = elim r.latency_ms [ none ↦ latencies rs | some l ↦ l ∷ latencies rs ]

abbrev pub at : List ℕ → ℕ → ℕ
at xs i = get_or (get_elem? xs i) 0

abbrev median : List ℕ → Option (ℕ × ℕ)
median [] = none
median (x ∷ xs) =
    let n = length (x ∷ xs) in
    if n % 2 == 0
    then some (at (x ∷ xs) (n / 2 - 1) + at (x ∷ xs) (n / 2), 2)
    else some (at (x ∷ xs) (n / 2), 1)

-- `Math.ceil(0.95 * n) - 1`, for the exact product.
abbrev pub p95_index : ℕ → ℕ
p95_index n = (95 * n + 99) / 100 - 1

abbrev pub p95 : List ℕ → Option ℕ
p95 [] = none
p95 (x ∷ xs) = some (at (x ∷ xs) (p95_index (length (x ∷ xs))))

abbrev healthy_share : ℕ → ℕ → Option (ℕ × ℕ)
healthy_share healthy zero = none
healthy_share healthy (suc n) = some (healthy * 100, suc n)

unfoldable pub summarize_monitor_history : List MonitorHistoryRow → MonitorHistorySummary
unfolding sort
summarize_monitor_history rows =
    let sorted = sort leb (latencies rows) in
    record {
      loaded_count = length rows;
      healthy_percentage =
          healthy_share (length (filter (λ r. r.state == "healthy") rows)) (length rows);
      median_latency_ms = median sorted;
      p95_latency_ms = p95 sorted;
    }

-- The index of the 95th percentile stands in the list.
pub p95_index_lt : (n : ℕ) → p95_index (suc n) < suc n
p95_index_lt n = omega arith

-- The comparison of `chronologicalHistory`, for dates that are valid.
abbrev not_after : Platform → MonitorHistoryRow → MonitorHistoryRow → Bool
not_after p a b =
    let s = get_or (p.parse_date a.created_at) 0 in
    let t = get_or (p.parse_date b.created_at) 0 in ltb s t || s == t && leb a.id b.id

unfoldable pub chronological_history : Platform → List MonitorHistoryRow → List MonitorHistoryRow
unfolding sort
chronological_history p rows = sort (not_after p) rows

abbrev row : ℕ → String → Option ℕ → MonitorHistoryRow
row i state latency = record {
  id = i;
  monitor_id = 1;
  state = state;
  status_code = none;
  latency_ms = latency;
  error_message = none;
  created_at = "";
}

abbrev loaded_rows : List MonitorHistoryRow
loaded_rows = row 1 "healthy" (some 30) ∷ row 2 "unhealthy" none ∷ row 3 "healthy" (some 10) ∷ []

summary_test : (summarize_monitor_history loaded_rows).median_latency_ms ≡ some (40, 2)
unfolding summarize_monitor_history
summary_test = refl
