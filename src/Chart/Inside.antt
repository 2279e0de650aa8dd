-- ===== src/Chart/Inside.antt =====
-- The points of the chart lie inside it.
use native.Mathlib.Nat.{mul-le-mul_right}
use sentinel_project.Base.{
  All, All-map, List, Option, Option-cases, Sorted, [], ap, arith, inl, inr, leb, leb→le, map, none,
  some, suc, zero, ℕ, ◌*◌, ◌+◌, ◌-◌, ◌<◌, ◌∷◌, ◌≡◌, ◌≤◌,
}
use sentinel_project.Base.Text.{Platform}
use sentinel_project.Chart.Axis.{nice_step, or_one, y_max}
use sentinel_project.Chart.Geometry.{build_latency_chart_geometry}
use sentinel_project.Chart.Ordered.{ordered-Sorted, times-Sorted}
use sentinel_project.Chart.Points.{
  ChartPoint, Item, Position, bottom, greatest, head_or, height_of, last_or, left, measured,
  ordered, point_of, right_of, times, top, x_position, y_position,
}
use sentinel_project.Chart.Ticks.{nice_step_bounds, or_one_le, or_one_positive, y_max_bounds}
use sentinel_project.History.Summary.{MonitorHistoryRow}

-- The times are ones that the axis covers.
abbrev pub Covers : ℕ → ℕ → List ℕ → Type 0
Covers first last ts = All (λ t. (first ≤ t) × (t ≤ last)) ts

last_ge : (t : ℕ) (ts : List ℕ) → Sorted leb (t ∷ ts) → t ≤ last_or t ts
last_ge t [] h = omega arith
last_ge t (u ∷ ts) h = omega (arith, leb→le t u h.0.0, last_ge u ts h.1)

covered_from :
    (first t : ℕ) (ts : List ℕ)
    → first ≤ t
    → Sorted leb (t ∷ ts)
    → Covers first (last_or t ts) (t ∷ ts)
covered_from first t [] k h = ((k, omega arith), tt)
covered_from first t (u ∷ ts) k h =
    let next = leb→le t u h.0.0 in
    ((k, omega (arith, next, last_ge u ts h.1)), covered_from first u ts (omega (arith, next)) h.1)

covered :
    (ts : List ℕ) → Sorted leb ts → let first = head_or 0 ts in Covers first (last_or first ts) ts
covered [] h = tt
covered (t ∷ ts) h = covered_from t t ts (omega arith) h

-- A quotient between two whole numbers.
pub record IsBetween (low high : ℕ) (p : Position) : Type 0 where
  pub positive : 0 < p.den
  pub above : low * p.den ≤ p.num
  pub under : p.num ≤ high * p.den

abbrev pub IsHigh : Option Position → Type 0
IsHigh none = Unit
IsHigh (some y) = IsBetween top bottom y

-- A point lies between the left and the right edge, and where it has a height, between the top and
-- the bottom.
pub record IsInside (right : ℕ) (point : ChartPoint) : Type 0 where
  pub across : IsBetween left right point.x
  pub upright : IsHigh point.y

-- A time, where it is there, lies in a span.
abbrev InSpan : ℕ → ℕ → Option ℕ → Type 0
InSpan first span none = Unit
InSpan first span (some t) = (first ≤ t) × (t ≤ first + span)

-- A part of a whole, on an axis that starts at `low`.
part_from : (low width n d : ℕ) → d ≤ n → low * n + d * width ≤ (low + width) * n
part_from low width n d h = omega (arith, mul-le-mul_right width h)

part_under : (low high n d : ℕ) → low ≤ high → d ≤ n → low * n + d * (high - low) ≤ high * n
part_under low high n d h k =
    let e : low + (high - low) ≡ high = omega arith in
    omega (arith, part_from low (high - low) n d k, ap (λ (t : ℕ). t * n) e)

x_position-IsBetween :
    (right first span : ℕ) (o : Option ℕ)
    → left < right
    → InSpan first span o
    → IsBetween left right (x_position right first span o)
x_position-IsBetween right first span none l h = record {
  positive = omega arith;
  above = omega arith;
  under = omega arith;
}
x_position-IsBetween right first zero (some t) l h = record {
  positive = omega arith;
  above = omega arith;
  under = omega arith;
}
x_position-IsBetween right first (suc n) (some t) l h = record {
  positive = omega arith;
  above = omega arith;
  under = part_under left right (suc n) (t - first) (omega arith) (omega (arith, h.0, h.1));
}

y_position-IsBetween : (high v : ℕ) → 0 < high → v ≤ high → IsBetween top bottom (y_position high v)
y_position-IsBetween high v h k = record {
  positive = h;
  above = omega (arith, k);
  under = omega arith;
}

below_greatest : (vs : List ℕ) → All (λ v. v ≤ greatest vs) vs
below_greatest [] = tt
below_greatest (v ∷ vs) = (omega arith, All-map (λ w h. omega (arith, h)) vs (below_greatest vs))

time-InSpan :
    (first last : ℕ) (a : Item) (items : List Item)
    → Covers first last (times (a ∷ items))
    → InSpan first (last - first) a.timestamp × Covers first last (times items)
time-InSpan first last a items h = elim (Option-cases a.timestamp) [
  | inl e ↦ rw e (tt, rw e at h)
  | inr (t, e) ↦ let g = rw e at h in rw e ((g.0.0, omega (arith, g.0.0, g.0.1)), g.1)
]

latency_fits :
    (high : ℕ) (a : Item) (items : List Item)
    → 0 < high
    → All (λ v. 10 * v ≤ high) (measured (a ∷ items))
    → IsHigh (height_of high a.row.latency_ms) × All (λ v. 10 * v ≤ high) (measured items)
latency_fits high a items k h = elim (Option-cases a.row.latency_ms) [
  | inl e ↦ rw e (tt, rw e at h)
  | inr (l, e) ↦ let g = rw e at h in rw e (y_position-IsBetween high (10 * l) k g.0, g.1)
]

points-IsInside :
    (right first last high : ℕ) (items : List Item)
    → left < right
    → 0 < high
    → Covers first last (times items)
    → All (λ v. 10 * v ≤ high) (measured items)
    → All (IsInside right) (map (point_of right first (last - first) high) items)
points-IsInside right first last high [] l k h m = tt
points-IsInside right first last high (a ∷ items) l k h m =
    let (time, times_rest) = time-InSpan first last a items h in
    let (height, values_rest) = latency_fits high a items k m in
    (
      record {
        across = x_position-IsBetween right first (last - first) a.timestamp l time;
        upright = height;
      },
      points-IsInside right first last high items l k times_rest values_rest,
    )

-- The axis of a list of items reaches ten times each latency.
axis_reaches :
    (vs : List ℕ)
    → let high = y_max (greatest vs) (nice_step (or_one (greatest vs))) in
      (0 < high) × All (λ v. 10 * v ≤ high) vs
axis_reaches vs =
    let (positive, reaches) =
      nice_step_bounds (or_one (greatest vs)) (or_one_positive (greatest vs)) in
    let (step_fits, greatest_fits, short) =
      y_max_bounds (greatest vs) (nice_step (or_one (greatest vs))) positive
        (omega (arith, reaches, or_one_le (greatest vs))) in
    (
      omega (arith, positive, step_fits),
      All-map (λ v h. omega (arith, h, greatest_fits)) vs (below_greatest vs),
    )

-- However narrow the chart and whatever the rows are, in particular when their times cannot be
-- read, are all the same, or come in another order, each point of the chart lies between its left
-- and its right edge, and where its row has a latency, between its top and its bottom.
pub build_latency_chart_geometry-IsInside :
    (p : Platform) (rows : List MonitorHistoryRow) (frequency : Option ℕ) (width : ℕ)
    → let chart = build_latency_chart_geometry p rows frequency width in
      All (IsInside chart.right) chart.points
unfolding build_latency_chart_geometry
build_latency_chart_geometry-IsInside p rows frequency width =
    let items = ordered p rows in
    let first = head_or 0 (times items) in
    let (positive, reaches) = axis_reaches (measured items) in
    points-IsInside (right_of width) first (last_or first (times items))
      (y_max (greatest (measured items)) (nice_step (or_one (greatest (measured items))))) items
      (omega arith) positive (covered (times items) (times-Sorted items (ordered-Sorted p rows)))
      reaches
