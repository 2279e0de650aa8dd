-- ===== src/Chart/Geometry.antt =====
-- `buildLatencyChartGeometry`.
use sentinel_project.Base.{List, Option, [], if◌then◌else◌, is_empty, map, some, ℕ, ◌-◌}
use sentinel_project.Base.Text.{Platform}
use sentinel_project.Chart.Axis.{ChartTick, nice_step, or_one, x_ticks, y_max, y_ticks}
use sentinel_project.Chart.Drawing.{ChartGap, draw_all, no_drawing, segments_of, threshold_of}
use sentinel_project.Chart.Points.{
  ChartPoint, Item, greatest, head_or, last_or, measured, ordered, point_of, right_of, times,
}
use sentinel_project.History.Summary.{MonitorHistoryRow}

pub record Geometry : Type 0 where
  pub right : ℕ
  pub points : List ChartPoint
  pub segments : List (List ChartPoint)
  pub gaps : List ChartGap
  pub x_axis : List ChartTick
  pub y_axis : Option (List ChartTick)

abbrev pub points_of : ℕ → List Item → List ChartPoint
points_of right items =
    let ts = times items in
    let first = head_or 0 ts in
    let high = greatest (measured items) in
    map (point_of right first (last_or first ts - first) (y_max high (nice_step (or_one high))))
      items

unfoldable pub build_latency_chart_geometry :
    Platform → List MonitorHistoryRow → Option ℕ → ℕ → Geometry
unfolding ordered segments_of draw_all x_ticks y_ticks nice_step y_max
build_latency_chart_geometry p rows frequency width =
    let items = ordered p rows in
    let right = right_of width in
    let points = points_of right items in
    let step = nice_step (or_one (greatest (measured items))) in
    let ticks = y_ticks step (y_max (greatest (measured items)) step) in
    record {
      right = right;
      points = points;
      segments = segments_of (threshold_of frequency) points;
      gaps = (draw_all (threshold_of frequency) points no_drawing).gaps;
      x_axis = x_ticks right (times items);
      y_axis = if is_empty (measured items) then some [] else ticks;
    }
