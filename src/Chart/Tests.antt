-- ===== src/Chart/Tests.antt =====
-- A few rows and the chart of them, and the theorems at them.
use mathlib.Core.Option
use sentinel_project.Base.{
  All, List, Option, String, [], map, none, refl, some, sort, ℕ, ◌*◌, ◌+◌, ◌-◌, ◌∷◌, ◌≡◌,
}
use sentinel_project.Base.Number.{num}
use sentinel_project.Base.Text.{Platform, codes}
use sentinel_project.Chart.Axis.{nice_step, power_from, x_ticks, y_max, y_ticks, y_ticks_from}
use sentinel_project.Chart.Drawing.{draw, draw_all, segments_of}
use sentinel_project.Chart.Geometry.{build_latency_chart_geometry}
use sentinel_project.Chart.Inside.{IsInside, build_latency_chart_geometry-IsInside}
use sentinel_project.Chart.Points.{ChartPoint, ordered}
use sentinel_project.Chart.Segments.{IsCut, segments_of-IsCut}
use sentinel_project.History.Summary.{MonitorHistoryRow}

-- The time of a text such as "01".
abbrev time_of : List ℕ → Option ℕ
time_of (a ∷ b ∷ []) = some (((a - 48) * 10 + (b - 48)) * 60000)
time_of _ = none

abbrev platform : Platform
platform = record {
  parse_url = λ s. none;
  to_lower = λ s. s;
  to_number = λ s. num 0;
  parse_date = λ s. time_of (codes s);
}

abbrev row : ℕ → String → Option ℕ → MonitorHistoryRow
row i time latency = record {
  id = i;
  monitor_id = 7;
  state = "healthy";
  status_code = some 200;
  latency_ms = latency;
  error_message = none;
  created_at = time;
}

abbrev rows : List MonitorHistoryRow
rows =
    row 1 "01" (some 120)
    ∷ row 2 "00" (some 80)
    ∷ row 3 "09" (some 95)
    ∷ row 4 "soon" (some 400)
    ∷ row 5 "09" none
    ∷ []

abbrev shown : List ChartPoint
shown = (build_latency_chart_geometry platform rows (some 60) 712).points

segments_of_rows :
    map (map (λ p. p.row.id)) (segments_of (some 180000) shown) ≡ (2 ∷ 1 ∷ []) ∷ (3 ∷ []) ∷ []
unfolding build_latency_chart_geometry ordered segments_of draw_all draw x_ticks y_ticks
    y_ticks_from nice_step power_from y_max sort
segments_of_rows = refl

segments_of-IsCut_example : IsCut (some 180000) shown
segments_of-IsCut_example = segments_of-IsCut (some 180000) shown

build_latency_chart_geometry-IsInside_example :
    let chart = build_latency_chart_geometry platform rows (some 60) 712 in
    All (IsInside chart.right) chart.points
build_latency_chart_geometry-IsInside_example =
    build_latency_chart_geometry-IsInside platform rows (some 60) 712

ticks_of_400 :
    Option.map (map (λ t. t.value.num)) (y_ticks (nice_step 400) (y_max 400 (nice_step 400)))
    ≡ some (0 ∷ 2000 ∷ 4000 ∷ [])
unfolding y_ticks y_ticks_from nice_step power_from y_max
ticks_of_400 = refl
