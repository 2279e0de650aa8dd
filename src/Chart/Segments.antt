-- ===== src/Chart/Segments.antt =====
-- How the points of the chart are cut into segments.
use mathlib.Core.List.{append_assoc, append-nil, flatten}
use sentinel_project.Base.{
  All, All-append, Bool, Bool-cases, List, Option, [], ap, false, filter, if◌then◌else◌, inl, inr,
  length, none, not, refl, some, subst, sym, true, ℕ, ◌++◌, ◌||◌, ◌∙◌, ◌∷◌, ◌≡◌, ◌⊎◌,
}
use sentinel_project.Chart.Drawing.{
  Drawing, close_segment, draw, draw_all, elapsed, gap_of, is_drawn, is_gap, no_drawing,
  segments_of,
}
use sentinel_project.Chart.Lines.{
  Follows, IsLine, IsLong, IsTight, IsTight-snoc, close_point, close_segment-All,
  flatten-close_segment, gap_of-All, last_point, last_point_end,
}
use sentinel_project.Chart.Points.{ChartPoint}
use sentinel_project.Chart.Starts.{draw_all-gaps_between, gaps_between, length-segments_of, starts}

-- The points that the loop has kept.
abbrev kept : Drawing → List ChartPoint
kept d = flatten d.segments ++ d.segment

-- What the loop has built after the points `ps`.
pub record IsDrawn (threshold : Option ℕ) (ps : List ChartPoint) (d : Drawing) : Type 0 where
  pub complete : kept d ≡ filter is_drawn ps
  pub lines : All (IsLine threshold) d.segments
  pub tight : IsTight threshold none d.segment
  pub at_end : (d.segment ≡ []) ⊎ (last_point none d.segment ≡ d.previous)
  pub long : All IsLong d.gaps

filter-snoc :
    (ps : List ChartPoint) (p : ChartPoint) (b : Bool)
    → is_drawn p ≡ b
    → filter is_drawn (ps ++ p ∷ []) ≡ filter is_drawn ps ++ (if b then p ∷ [] else [])
filter-snoc [] p b h = rw h refl
filter-snoc (q ∷ ps) p b h = elim (Bool-cases (is_drawn q)) [
  | inl e ↦ rw (e, if◌then◌else◌) (ap (λ (r : List ChartPoint). q ∷ r) (filter-snoc ps p b h))
  | inr e ↦ rw (e, if◌then◌else◌) (filter-snoc ps p b h)
]

-- The turn of the loop by its two tests.
abbrev draw_by : Bool → Bool → Option ℕ → ChartPoint → Drawing → Drawing
draw_by drawn gap threshold point d =
    let breaks = not drawn || gap in
    let segment = if breaks then [] else d.segment in
    record {
      segment = if drawn then segment ++ point ∷ [] else segment;
      segments = if breaks then close_segment d.segment d.segments else d.segments;
      gaps = d.gaps ++ gap_of threshold d.previous point;
      previous = some point;
    }

kept-draw_by :
    (drawn gap : Bool) (threshold : Option ℕ) (p : ChartPoint) (d : Drawing)
    → kept (draw_by drawn gap threshold p d) ≡ kept d ++ (if drawn then p ∷ [] else [])
kept-draw_by true true threshold p d =
    ap (λ (r : List ChartPoint). r ++ p ∷ []) (flatten-close_segment d.segment d.segments)
kept-draw_by true false threshold p d = sym (append_assoc (flatten d.segments) d.segment (p ∷ []))
kept-draw_by false gap threshold p d =
    append-nil (flatten (close_segment d.segment d.segments))
    ∙ flatten-close_segment d.segment d.segments
    ∙ sym (append-nil (kept d))

-- A point that is near the one before it is near the end of the segment.
Follows-last_point :
    (threshold : Option ℕ) (d : Drawing) (p : ChartPoint)
    → (d.segment ≡ []) ⊎ (last_point none d.segment ≡ d.previous)
    → is_gap threshold (elapsed d.previous p) ≡ false
    → Follows threshold (last_point none d.segment) p
Follows-last_point threshold d p (inl e) h = rw e tt
Follows-last_point threshold d p (inr e) h = rw e (close_point threshold d.previous p h)

lines_by :
    (drawn gap : Bool) (threshold : Option ℕ) (p : ChartPoint) (d : Drawing)
    → IsTight threshold none d.segment
    → All (IsLine threshold) d.segments
    → All (IsLine threshold) (draw_by drawn gap threshold p d).segments
lines_by true true threshold p d h k = close_segment-All threshold d.segment d.segments h k
lines_by true false threshold p d h k = k
lines_by false gap threshold p d h k = close_segment-All threshold d.segment d.segments h k

IsTight-draw_by :
    (drawn gap : Bool) (threshold : Option ℕ) (p : ChartPoint) (d : Drawing)
    → is_gap threshold (elapsed d.previous p) ≡ gap
    → IsTight threshold none d.segment
    → (d.segment ≡ []) ⊎ (last_point none d.segment ≡ d.previous)
    → IsTight threshold none (draw_by drawn gap threshold p d).segment
IsTight-draw_by true true threshold p d k h l = (tt, tt)
IsTight-draw_by true false threshold p d k h l =
    IsTight-snoc threshold none d.segment p h (Follows-last_point threshold d p l k)
IsTight-draw_by false gap threshold p d k h l = tt

at_end_by :
    (drawn gap : Bool) (threshold : Option ℕ) (p : ChartPoint) (d : Drawing)
    → let e = draw_by drawn gap threshold p d in
      (e.segment ≡ []) ⊎ (last_point none e.segment ≡ e.previous)
at_end_by true true threshold p d = inr refl
at_end_by true false threshold p d = inr (last_point_end none d.segment p)
at_end_by false gap threshold p d = inl refl

draw_by-IsDrawn :
    (drawn gap : Bool) (threshold : Option ℕ) (ps : List ChartPoint) (p : ChartPoint) (d : Drawing)
    → is_drawn p ≡ drawn
    → is_gap threshold (elapsed d.previous p) ≡ gap
    → IsDrawn threshold ps d
    → IsDrawn threshold (ps ++ p ∷ []) (draw_by drawn gap threshold p d)
draw_by-IsDrawn drawn gap threshold ps p d h k inv = record {
  complete =
      kept-draw_by drawn gap threshold p d
      ∙ ap (λ (r : List ChartPoint). r ++ (if drawn then p ∷ [] else [])) inv.complete
      ∙ sym (filter-snoc ps p drawn h);
  lines = lines_by drawn gap threshold p d inv.tight inv.lines;
  tight = IsTight-draw_by drawn gap threshold p d k inv.tight inv.at_end;
  at_end = at_end_by drawn gap threshold p d;
  long =
      All-append IsLong d.gaps (gap_of threshold d.previous p) inv.long
        (gap_of-All threshold d.previous p);
}

draw_all-IsDrawn :
    (threshold : Option ℕ) (seen ps : List ChartPoint) (d : Drawing)
    → IsDrawn threshold seen d
    → IsDrawn threshold (seen ++ ps) (draw_all threshold ps d)
unfolding draw_all draw
draw_all-IsDrawn threshold seen [] d inv = rw (append-nil seen) inv
draw_all-IsDrawn threshold seen (p ∷ ps) d inv =
    subst (λ r. IsDrawn threshold r (draw_all threshold ps (draw threshold p d)))
      (append_assoc seen (p ∷ []) ps)
      (draw_all-IsDrawn threshold (seen ++ p ∷ []) ps (draw threshold p d) (
        draw_by-IsDrawn (is_drawn p) (is_gap threshold (elapsed d.previous p)) threshold seen p d
          refl refl inv))

-- How a list of points is drawn.
pub record IsCut (threshold : Option ℕ) (points : List ChartPoint) : Type 0 where
  pub complete : flatten (segments_of threshold points) ≡ filter is_drawn points
  pub lines : All (IsLine threshold) (segments_of threshold points)
  pub exact : length (segments_of threshold points) ≡ starts threshold none points
  pub long : All IsLong (draw_all threshold points no_drawing).gaps
  pub reported : (draw_all threshold points no_drawing).gaps ≡ gaps_between threshold none points

-- The segments, one after the other, are exactly the points with a latency and a time, in their
-- order. No segment is empty, and in a segment a point is never later than the one before it by
-- more than the threshold, where there is one. There are no more segments than that asks for: as
-- many as drawn points whose neighbour before is not drawn or is not near. The gaps that are
-- reported are those between neighbours, and each is longer than that.
pub segments_of-IsCut : (threshold : Option ℕ) (points : List ChartPoint) → IsCut threshold points
unfolding segments_of flatten
segments_of-IsCut threshold points =
    let d = draw_all threshold points no_drawing in
    let inv =
      draw_all-IsDrawn threshold [] points no_drawing
        (record { complete = refl; lines = tt; tight = tt; at_end = inl refl; long = tt }) in
    record {
      complete = flatten-close_segment d.segment d.segments ∙ inv.complete;
      lines = close_segment-All threshold d.segment d.segments inv.tight inv.lines;
      exact = length-segments_of threshold points;
      long = inv.long;
      reported = draw_all-gaps_between threshold points no_drawing;
    }
