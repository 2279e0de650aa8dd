-- ===== src/Chart/Ticks.antt =====
-- The steps of the vertical axis, and that its loop ends, on the exact numbers of the model.
use native.Mathlib.Nat.{div-lt_iff_lt-mul, lt-div-mul-add, mul-le-mul_right, le_of_mul-le-mul_right}
use sentinel_project.Base.{
  All, Bool-cases, List, [], arith, if◌then◌else◌, inl, inr, leb, leb→le, length, refl, some, suc,
  zero, ℕ, ◌*◌, ◌+◌, ◌-◌, ◌/◌, ◌<◌, ◌∷◌, ◌≡◌, ◌≤◌,
}
use sentinel_project.Chart.Axis.{
  ChartTick, nice_step, or_one, power_from, round_up, y_fuel, y_max, y_ticks, y_ticks_from,
}
use sentinel_project.Chart.Points.{y_position}

-- The power that is found: its triple is at most the target, and ten times it is not.
power_bounds :
    (fuel power target : ℕ)
    → target < fuel + power
    → 0 < power
    → 3 * power ≤ target
    → let found = power_from fuel power target in
      (0 < found) × (3 * found ≤ target) × (target < 30 * found)
unfolding power_from
power_bounds zero power target h k l = (k, l, omega (arith, h))
power_bounds (suc fuel) power target h k l = elim (Bool-cases (leb (30 * power) target)) [
  | inl e ↦
      let more = leb→le (30 * power) target e in
      rw (e, if◌then◌else◌)
        (power_bounds fuel (10 * power) target (omega (arith, h, k)) (omega (arith, k))
          (omega (arith, more)))
  | inr e ↦ rw (e, if◌then◌else◌) (k, l, ground arith)
]

round_up_bounds :
    (power target : ℕ)
    → 0 < power
    → target < 30 * power
    → (0 < round_up power target) × (target ≤ 3 * round_up power target)
round_up_bounds power target h k = ground arith

-- A step is positive, and three steps reach the range.
pub nice_step_bounds : (n : ℕ) → 0 < n → (0 < nice_step n) × (10 * n ≤ 3 * nice_step n)
unfolding nice_step
nice_step_bounds zero h = absurd (omega arith)
nice_step_bounds (suc n) h =
    let (positive, under, over) =
      power_bounds (10 * suc n) 1 (10 * suc n) (omega arith) (omega arith) (omega arith) in
    round_up_bounds (power_from (10 * suc n) 1 (10 * suc n)) (10 * suc n) positive over

-- The axis reaches the greatest value, and is at most three steps long.
pub y_max_bounds :
    (g step : ℕ)
    → 0 < step
    → 10 * g ≤ 3 * step
    → (step ≤ y_max g step) × (10 * g ≤ y_max g step) × (y_max g step ≤ 3 * step)
unfolding y_max
y_max_bounds g step h k =
    let q = (10 * g + (step - 1)) / step in
    let few : q < 4 = (div-lt_iff_lt-mul h).1 (omega arith) in
    let enough = lt-div-mul-add {a = 10 * g + (step - 1)} {b = step} h in
    let long = mul-le-mul_right {m = q} {n = 3} step (omega (arith, few)) in
    (omega arith, omega (arith, enough), omega (arith, long))

pub or_one_positive : (n : ℕ) → 0 < or_one n
or_one_positive zero = omega arith
or_one_positive (suc n) = omega arith

pub or_one_le : (n : ℕ) → n ≤ or_one n
or_one_le zero = omega arith
or_one_le (suc n) = omega arith

-- Ticks that start at `value` and are a step apart.
abbrev pub IsEven : ℕ → ℕ → List ChartTick → Type 0
IsEven step value [] = Unit
IsEven step value (t ∷ ts) = (t.value.num ≡ value) × IsEven step (value + step) ts

-- The ticks of an axis from `value`: they are a step apart, none is above the end, and one more
-- would be.
pub record IsAxis (step high value : ℕ) (ts : List ChartTick) : Type 0 where
  pub even : IsEven step value ts
  pub within : All (λ t. t.value.num ≤ high) ts
  pub full : high < value + length ts * step
  pub room : length ts * step + value ≤ high + step

y_ticks_from-IsAxis :
    (fuel step high value : ℕ)
    → 0 < step
    → value ≤ high + step
    → high + step < value + fuel * step
    → (ts : List ChartTick) × (y_ticks_from fuel step high value ≡ some ts)
      × IsAxis step high value ts
unfolding y_ticks_from
y_ticks_from-IsAxis zero step high value h k l = absurd (omega (arith, k, l))
y_ticks_from-IsAxis (suc fuel) step high value h k l = elim (Bool-cases (leb value high)) [
  | inl e ↦
      let fits = leb→le value high e in
      let (ts, out, axis) =
        y_ticks_from-IsAxis fuel step high (value + step) h (omega (arith, fits))
          (omega (arith, l)) in
      (
        record { value = record { num = value; den = 10 }; position = y_position high value } ∷ ts,
        rw (e, out, if◌then◌else◌) refl,
        record {
          even = (refl, axis.even);
          within = (fits, axis.within);
          full = omega (arith, axis.full);
          room = omega (arith, axis.room);
        },
      )
  | inr e ↦ (
    [],
    rw (e, if◌then◌else◌) refl,
    record { even = tt; within = tt; full = ground arith; room = omega (arith, k) },
  )
]

y_ticks-IsAxis :
    (step high : ℕ)
    → 0 < step
    → (ts : List ChartTick) × (y_ticks step high ≡ some ts) × IsAxis step high 0 ts
unfolding y_ticks
y_ticks-IsAxis step high h =
    y_ticks_from-IsAxis (y_fuel step high) step high 0 h (omega arith)
      (omega (arith, lt-div-mul-add {a = high} {b = step} h))

-- The vertical axis of a greatest latency `g`.
pub record IsScale (g : ℕ) (ts : List ChartTick) : Type 0 where
  pub axis : IsAxis (nice_step (or_one g)) (y_max g (nice_step (or_one g))) 0 ts
  pub reaches : 10 * g ≤ y_max g (nice_step (or_one g))
  pub several : 2 ≤ length ts
  pub few : length ts ≤ 4

count_bounds :
    (step high n : ℕ)
    → 0 < step
    → step ≤ high
    → high ≤ 3 * step
    → high < n * step
    → n * step ≤ high + step
    → (2 ≤ n) × (n ≤ 4)
count_bounds step high zero h k l m o = absurd (omega (arith, k, m))
count_bounds step high (suc zero) h k l m o = absurd (omega (arith, k, m))
count_bounds step high (suc (suc n)) h k l m o = (
  omega arith,
  le_of_mul-le-mul_right {m = suc (suc n)} {n = 4} {k = step} (omega (arith, l, o)) h,
)

-- On exact numbers the loop that draws the vertical axis ends: the ticks start at 0, are a step
-- apart, are at least two and at most four, none lies above the end of the axis and the next one
-- would, and the axis reaches the greatest latency.
pub y_ticks-IsScale :
    (g : ℕ)
    → (ts : List ChartTick) × (y_ticks (nice_step (or_one g)) (y_max g (nice_step (or_one g)))
        ≡ some ts)
      × IsScale g ts
y_ticks-IsScale g =
    let step = nice_step (or_one g) in
    let high = y_max g step in
    let (positive, reaches) = nice_step_bounds (or_one g) (or_one_positive g) in
    let (step_fits, greatest_fits, short) =
      y_max_bounds g step positive (omega (arith, reaches, or_one_le g)) in
    let (ts, out, axis) = y_ticks-IsAxis step high positive in
    let (several, few) =
      count_bounds step high (length ts) positive step_fits short (omega (arith, axis.full))
        (omega (arith, axis.room)) in
    (ts, out, record { axis = axis; reaches = greatest_fits; several = several; few = few })
