-- ===== src/Chart/Starts.antt =====
-- How many segments the loop makes, and which gaps it reports.
use mathlib.Core.List.{append_assoc, append-nil}
use sentinel_project.Base.{
  Bool, List, Option, [], ap, arith, false, if◌then◌else◌, is_empty, leb, length, length-append,
  none, not, refl, some, suc, sym, true, ℕ, ◌&&◌, ◌++◌, ◌+◌, ◌||◌, ◌∙◌, ◌∷◌, ◌≡◌,
}
use sentinel_project.Chart.Drawing.{
  ChartGap, Drawing, close_segment, draw, draw_all, elapsed, elapsed_between, gap_of, is_drawn,
  is_gap, no_drawing, segments_of,
}
use sentinel_project.Chart.Points.{ChartPoint}

-- The second time is not later than the first by more than the threshold, where these are known.
abbrev is_near : Option ℕ → Option ℕ → Option ℕ → Bool
is_near (some threshold) (some s) (some t) = leb t (s + threshold)
is_near _ _ _ = true

-- A line comes from the point before to this one.
abbrev is_joined : Option ℕ → Option ChartPoint → ChartPoint → Bool
is_joined threshold none p = false
is_joined threshold (some q) p = is_drawn q && is_near threshold q.timestamp p.timestamp

-- The points that are drawn and to which no line comes.
abbrev pub starts : Option ℕ → Option ChartPoint → List ChartPoint → ℕ
starts threshold o [] = 0
starts threshold o (p ∷ ps) =
    let rest = starts threshold (some p) ps in
    if is_drawn p && not (is_joined threshold o p) then suc rest else rest

-- The gaps between neighbours.
abbrev pub gaps_between : Option ℕ → Option ChartPoint → List ChartPoint → List ChartGap
gaps_between threshold o [] = []
gaps_between threshold o (p ∷ ps) = gap_of threshold o p ++ gaps_between threshold (some p) ps

pub draw_all-gaps_between :
    (threshold : Option ℕ) (ps : List ChartPoint) (d : Drawing)
    → (draw_all threshold ps d).gaps ≡ d.gaps ++ gaps_between threshold d.previous ps
unfolding draw_all draw
draw_all-gaps_between threshold [] d = sym (append-nil d.gaps)
draw_all-gaps_between threshold (p ∷ ps) d =
    draw_all-gaps_between threshold ps (draw threshold p d)
    ∙ append_assoc d.gaps (gap_of threshold d.previous p) (gaps_between threshold (some p) ps)

near_gap :
    (threshold s t : Option ℕ)
    → is_near threshold s t ≡ not (is_gap threshold (elapsed_between s t))
near_gap none s t = refl
near_gap (some n) none t = refl
near_gap (some n) (some s) none = refl
near_gap (some n) (some s) (some t) = ground arith

abbrev was_drawn : Option ChartPoint → Bool
was_drawn none = false
was_drawn (some q) = is_drawn q

joined_gap :
    (threshold : Option ℕ) (o : Option ChartPoint) (p : ChartPoint)
    → is_joined threshold o p ≡ (was_drawn o && not (is_gap threshold (elapsed o p)))
joined_gap threshold none p = refl
joined_gap threshold (some q) p = rw (near_gap threshold q.timestamp p.timestamp) refl

-- The segments, with the one that is being made.
abbrev made : List ChartPoint → List (List ChartPoint) → ℕ
made ps pss = length (close_segment ps pss)

made_closed :
    (ps : List ChartPoint) (pss : List (List ChartPoint))
    → made ps pss ≡ (if is_empty ps then length pss else suc (length pss))
made_closed [] pss = refl
made_closed (p ∷ ps) pss = length-append pss ((p ∷ ps) ∷ []) ∙ omega arith

is_empty-snoc : (ps : List ChartPoint) (p : ChartPoint) → is_empty (ps ++ p ∷ []) ≡ false
is_empty-snoc [] p = refl
is_empty-snoc (q ∷ ps) p = refl

-- One turn of the loop, by its two tests and whether the point before is drawn.
turn_by :
    (drawn gap was : Bool) (p : ChartPoint) (ps : List ChartPoint) (pss : List (List ChartPoint))
    → is_empty ps ≡ not was
    → let breaks = not drawn || gap in
      let segment = if breaks then [] else ps in
      let ps' = if drawn then segment ++ p ∷ [] else segment in
      let pss' = if breaks then close_segment ps pss else pss in
      (is_empty ps' ≡ not drawn)
      × (made ps' pss' ≡ made ps pss + (if drawn && not (was && not gap) then 1 else 0))
turn_by false gap was p ps pss h = (refl, omega arith)
turn_by true true true p ps pss h = (refl, length-append (close_segment ps pss) ((p ∷ []) ∷ []))
turn_by true true false p ps pss h = (refl, length-append (close_segment ps pss) ((p ∷ []) ∷ []))
turn_by true false true p ps pss h =
    let before = made_closed ps pss in
    let after = made_closed (ps ++ p ∷ []) pss in
    (is_empty-snoc ps p, ground (arith, before, after, h, is_empty-snoc ps p))
turn_by true false false p ps pss h =
    let before = made_closed ps pss in
    let after = made_closed (ps ++ p ∷ []) pss in
    (is_empty-snoc ps p, ground (arith, before, after, h, is_empty-snoc ps p))

sum_by :
    (b b' : Bool) (total before now rest : ℕ)
    → b ≡ b'
    → total ≡ now + rest
    → now ≡ before + (if b' then 1 else 0)
    → total ≡ before + (if b then suc rest else rest)
sum_by true true total before now rest e h k = omega (arith, h, k)
sum_by false false total before now rest e h k = omega (arith, h, k)
sum_by true false total before now rest e h k = absurd (cc)
sum_by false true total before now rest e h k = absurd (cc)

draw_all-starts :
    (threshold : Option ℕ) (ps : List ChartPoint) (d : Drawing)
    → is_empty d.segment ≡ not (was_drawn d.previous)
    → let e = draw_all threshold ps d in
      made e.segment e.segments ≡ made d.segment d.segments + starts threshold d.previous ps
unfolding draw_all draw
draw_all-starts threshold [] d h = omega arith
draw_all-starts threshold (p ∷ ps) d h =
    let gap = is_gap threshold (elapsed d.previous p) in
    let (still, more) = turn_by (is_drawn p) gap (was_drawn d.previous) p d.segment d.segments h in
    let rest = draw_all-starts threshold ps (draw threshold p d) still in
    let same = ap (λ (b : Bool). is_drawn p && not b) (joined_gap threshold d.previous p) in
    sum_by _ _ _ (made d.segment d.segments) _ (starts threshold (some p) ps) same rest more

-- There are as many segments as points that are drawn and to which no line comes.
pub length-segments_of :
    (threshold : Option ℕ) (points : List ChartPoint)
    → length (segments_of threshold points) ≡ starts threshold none points
unfolding segments_of
length-segments_of threshold points =
    let counted = draw_all-starts threshold points no_drawing refl in omega (arith, counted)
