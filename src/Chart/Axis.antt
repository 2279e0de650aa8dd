-- ===== src/Chart/Axis.antt =====
-- The steps and the ticks of the two axes, on exact numbers: that a double is rounded, underflows
-- or overflows, so that `yMax` may be infinite and the loop over it endless, is not represented.
use mathlib.Core.Option
use sentinel_project.Base.{
  List, Option, [], if◌then◌else◌, leb, max, none, some, suc, zero, ℕ, ◌*◌, ◌+◌, ◌-◌, ◌/◌, ◌∷◌,
}
use sentinel_project.Chart.Points.{Position, greatest, last_or, left, y_position}

pub record ChartTick : Type 0 where
  pub value : Position
  pub position : Position

-- `10 ** Math.floor(Math.log10(range / 3))` in tenths, that is the greatest power of ten of which
-- the triple is at most `target`; the fuel bounds how often it is multiplied.
unfoldable pub power_from : ℕ → ℕ → ℕ → ℕ
power_from zero power target = power
power_from (suc fuel) power target =
    let rest = power_from fuel (10 * power) target in
    if leb (30 * power) target then rest else power

-- The fraction is `range / 3 / power`.
abbrev pub round_up : ℕ → ℕ → ℕ
round_up power target =
    if leb target (3 * power)
    then power
    else if leb target (6 * power)
    then 2 * power
    else if leb target (15 * power)
    then 5 * power
    else 10 * power

-- `niceStep(range, 4)`, in tenths.
unfoldable pub nice_step : ℕ → ℕ
unfolding power_from
nice_step zero = 10
nice_step (suc n) = let target = 10 * suc n in round_up (power_from target 1 target) target

-- `max || 1`, where 1 is a millisecond: where the greatest latency is 0, all latencies are 0, and
-- the unit is the millisecond itself.
abbrev pub or_one : ℕ → ℕ
or_one zero = 1
or_one (suc n) = suc n

-- `Math.max(step, Math.ceil(max / step) * step)`, in tenths.
unfoldable pub y_max : ℕ → ℕ → ℕ
y_max greatest step = max step ((10 * greatest + (step - 1)) / step * step)

-- `for (let value = 0; value <= yMax; value += step)`: `none` where the fuel runs out.
unfoldable pub y_ticks_from : ℕ → ℕ → ℕ → ℕ → Option (List ChartTick)
y_ticks_from zero step high value = none
y_ticks_from (suc fuel) step high value =
    let rest = y_ticks_from fuel step high (value + step) in
    let tick : ChartTick = record {
      value = record { num = value; den = 10 };
      position = y_position high value;
    } in
    if leb value high then Option.map (λ ts. tick ∷ ts) rest else some []

-- The turns that the loop needs.
abbrev pub y_fuel : ℕ → ℕ → ℕ
y_fuel step high = high / step + 2

unfoldable pub y_ticks : ℕ → ℕ → Option (List ChartTick)
unfolding y_ticks_from
y_ticks step high = y_ticks_from (y_fuel step high) step high 0

-- The tick `index` of `count`, for a span above 0.
abbrev x_tick : ℕ → ℕ → ℕ → ℕ → ℕ → ChartTick
x_tick right first span count index =
    let last = count - 1 in
    record {
      value = record { num = first * last + span * index; den = last };
      position = record { num = left * last + (right - left) * index; den = last };
    }

abbrev x_ticks_from : ℕ → ℕ → ℕ → ℕ → ℕ → ℕ → List ChartTick
x_ticks_from right first span count index zero = []
x_ticks_from right first span count index (suc n) =
    x_tick right first span count index ∷ x_ticks_from right first span count (index + 1) n

abbrev pub tick_count : ℕ → ℕ
tick_count right = max 2 ((right - left) / 110)

-- The ticks of the horizontal axis, for the times that are there.
unfoldable pub x_ticks : ℕ → List ℕ → List ChartTick
x_ticks right [] = []
x_ticks right (t ∷ ts) = elim (last_or t ts - t) [
  | zero ↦
      record {
        value = record { num = t; den = 1 };
        position = record { num = left + right; den = 2 };
      }
      ∷ []
  | suc n ↦ x_ticks_from right t (suc n) (tick_count right) 0 (tick_count right)
]
