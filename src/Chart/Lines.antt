-- ===== src/Chart/Lines.antt =====
-- Segments of the chart that can be drawn as one line, and gaps.
use mathlib.Core.List.{append_assoc, append-nil, flatten}
use sentinel_project.Base.{
  All, All-append, Bool-cases, List, Option, [], ap, arith, false, if◌then◌else◌, inl, inr, ltb,
  none, refl, some, sym, ℕ, ◌++◌, ◌+◌, ◌<◌, ◌∙◌, ◌∷◌, ◌≡◌, ◌≤◌,
}
use sentinel_project.Chart.Drawing.{
  ChartGap, close_segment, elapsed, elapsed_between, gap_at, gap_of, is_gap,
}
use sentinel_project.Chart.Points.{ChartPoint, Position}

-- The second time is not later than the first by more than the threshold, where these are known.
abbrev pub Near : Option ℕ → Option ℕ → Option ℕ → Type 0
Near (some threshold) (some s) (some t) = t ≤ s + threshold
Near _ _ _ = Unit

abbrev pub Follows : Option ℕ → Option ChartPoint → ChartPoint → Type 0
Follows threshold none p = Unit
Follows threshold (some q) p = Near threshold q.timestamp p.timestamp

-- Neighbours are near.
abbrev pub IsTight : Option ℕ → Option ChartPoint → List ChartPoint → Type 0
IsTight threshold o [] = Unit
IsTight threshold o (p ∷ ps) = Follows threshold o p × IsTight threshold (some p) ps

abbrev pub NonEmpty : List ChartPoint → Type 0
NonEmpty [] = ⊥
NonEmpty (p ∷ ps) = Unit

-- A segment that can be drawn as one line.
abbrev pub IsLine : Option ℕ → List ChartPoint → Type 0
IsLine threshold ps = NonEmpty ps × IsTight threshold none ps

abbrev pub last_point : Option ChartPoint → List ChartPoint → Option ChartPoint
last_point o [] = o
last_point o (p ∷ ps) = last_point (some p) ps

abbrev pub IsLong : ChartGap → Type 0
IsLong g = g.threshold_ms < g.duration_ms

pub close_times :
    (threshold s t : Option ℕ) → is_gap threshold (elapsed_between s t) ≡ false → Near threshold s t
close_times none s t h = tt
close_times (some n) none t h = tt
close_times (some n) (some s) none h = tt
close_times (some n) (some s) (some t) h = ground arith

pub close_point :
    (threshold : Option ℕ) (o : Option ChartPoint) (p : ChartPoint)
    → is_gap threshold (elapsed o p) ≡ false
    → Follows threshold o p
close_point threshold none p h = tt
close_point threshold (some q) p h = close_times threshold q.timestamp p.timestamp h

-- A point more at the end.
pub IsTight-snoc :
    (threshold : Option ℕ) (o : Option ChartPoint) (ps : List ChartPoint) (p : ChartPoint)
    → IsTight threshold o ps
    → Follows threshold (last_point o ps) p
    → IsTight threshold o (ps ++ p ∷ [])
IsTight-snoc threshold o [] p h k = (k, tt)
IsTight-snoc threshold o (q ∷ ps) p h k = (h.0, IsTight-snoc threshold (some q) ps p h.1 k)

pub last_point_end :
    (o : Option ChartPoint) (ps : List ChartPoint) (p : ChartPoint)
    → last_point o (ps ++ p ∷ []) ≡ some p
last_point_end o [] p = refl
last_point_end o (q ∷ ps) p = last_point_end (some q) ps p

pub flatten-snoc :
    (pss : List (List ChartPoint)) (ps : List ChartPoint)
    → flatten (pss ++ ps ∷ []) ≡ flatten pss ++ ps
unfolding flatten
flatten-snoc [] ps = append-nil ps
flatten-snoc (qs ∷ pss) ps =
    ap (λ (r : List ChartPoint). qs ++ r) (flatten-snoc pss ps)
    ∙ sym (append_assoc qs (flatten pss) ps)

pub flatten-close_segment :
    (ps : List ChartPoint) (pss : List (List ChartPoint))
    → flatten (close_segment ps pss) ≡ flatten pss ++ ps
flatten-close_segment [] pss = sym (append-nil (flatten pss))
flatten-close_segment (p ∷ ps) pss = flatten-snoc pss (p ∷ ps)

pub close_segment-All :
    (threshold : Option ℕ) (ps : List ChartPoint) (pss : List (List ChartPoint))
    → IsTight threshold none ps
    → All (IsLine threshold) pss
    → All (IsLine threshold) (close_segment ps pss)
close_segment-All threshold [] pss h k = k
close_segment-All threshold (p ∷ ps) pss h k =
    All-append (IsLine threshold) pss ((p ∷ ps) ∷ []) k ((tt, h), tt)

pub gap_at-All :
    (threshold : ℕ) (between : Position × Position) (o : Option ℕ)
    → All IsLong (gap_at threshold between o)
gap_at-All threshold between none = tt
gap_at-All threshold between (some ms) = elim (Bool-cases (ltb threshold ms)) [
  | inl e ↦ rw (e, if◌then◌else◌) (ground arith, tt)
  | inr e ↦ rw (e, if◌then◌else◌) tt
]

pub gap_of-All :
    (threshold : Option ℕ) (o : Option ChartPoint) (p : ChartPoint)
    → All IsLong (gap_of threshold o p)
gap_of-All none none p = tt
gap_of-All none (some q) p = tt
gap_of-All (some n) none p = tt
gap_of-All (some n) (some q) p = gap_at-All n (q.x, p.x) (elapsed (some q) p)
