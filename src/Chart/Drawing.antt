-- ===== src/Chart/Drawing.antt =====
-- The loop that cuts the points into segments and notes the gaps between them.
use sentinel_project.Base.{
  Bool, List, Option, [], false, if◌then◌else◌, is_some, ltb, none, not, some, suc, zero, ℕ, ◌&&◌,
  ◌*◌, ◌++◌, ◌-◌, ◌||◌, ◌∷◌,
}
use sentinel_project.Chart.Points.{ChartPoint, Position}

-- The `x` of the gap is the middle of `between`.
pub record ChartGap : Type 0 where
  pub between : Position × Position
  pub duration_ms : ℕ
  pub threshold_ms : ℕ

-- The frequency, where it is given and above 0, times three.
abbrev pub threshold_of : Option ℕ → Option ℕ
threshold_of none = none
threshold_of (some zero) = none
threshold_of (some (suc n)) = some (suc n * 3000)

-- What the loop over the points has built.
pub record Drawing : Type 0 where
  pub segment : List ChartPoint
  pub segments : List (List ChartPoint)
  pub gaps : List ChartGap
  pub previous : Option ChartPoint

abbrev pub elapsed_between : Option ℕ → Option ℕ → Option ℕ
elapsed_between (some s) (some t) = some (t - s)
elapsed_between _ _ = none

abbrev pub elapsed : Option ChartPoint → ChartPoint → Option ℕ
elapsed none point = none
elapsed (some previous) point = elapsed_between previous.timestamp point.timestamp

abbrev pub is_gap : Option ℕ → Option ℕ → Bool
is_gap (some threshold) (some ms) = ltb threshold ms
is_gap _ _ = false

-- A point that is drawn has a latency and a time.
abbrev pub is_drawn : ChartPoint → Bool
is_drawn point = is_some point.y && is_some point.timestamp

abbrev pub close_segment : List ChartPoint → List (List ChartPoint) → List (List ChartPoint)
close_segment [] segments = segments
close_segment (p ∷ ps) segments = segments ++ (p ∷ ps) ∷ []

abbrev pub gap_at : ℕ → Position × Position → Option ℕ → List ChartGap
gap_at threshold between none = []
gap_at threshold between (some ms) =
    if ltb threshold ms
    then record { between = between; duration_ms = ms; threshold_ms = threshold } ∷ []
    else []

abbrev pub gap_of : Option ℕ → Option ChartPoint → ChartPoint → List ChartGap
gap_of (some threshold) (some previous) point =
    gap_at threshold (previous.x, point.x) (elapsed (some previous) point)
gap_of _ _ point = []

-- One turn of the loop.
unfoldable pub draw : Option ℕ → ChartPoint → Drawing → Drawing
draw threshold point d =
    let breaks = not (is_drawn point) || is_gap threshold (elapsed d.previous point) in
    let segment = if breaks then [] else d.segment in
    record {
      segment = if is_drawn point then segment ++ point ∷ [] else segment;
      segments = if breaks then close_segment d.segment d.segments else d.segments;
      gaps = d.gaps ++ gap_of threshold d.previous point;
      previous = some point;
    }

unfoldable pub draw_all : Option ℕ → List ChartPoint → Drawing → Drawing
unfolding draw
draw_all threshold [] d = d
draw_all threshold (p ∷ ps) d = draw_all threshold ps (draw threshold p d)

abbrev pub no_drawing : Drawing
no_drawing = record { segment = []; segments = []; gaps = []; previous = none }

unfoldable pub segments_of : Option ℕ → List ChartPoint → List (List ChartPoint)
unfolding draw_all
segments_of threshold points =
    let d = draw_all threshold points no_drawing in close_segment d.segment d.segments
