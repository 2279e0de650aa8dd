-- ===== src/Chart/Points.antt =====
-- The rows of the chart in their order, and where their points stand.
use sentinel_project.Base.{
  Bool, List, Option, [], false, leb, ltb, max, nat_eq, none, some, sort, string_eq, suc, true,
  zero, ℕ, ◌&&◌, ◌*◌, ◌+◌, ◌-◌, ◌==◌, ◌||◌, ◌∷◌,
}
use sentinel_project.Base.Text.{Platform}
use sentinel_project.History.Summary.{MonitorHistoryRow}

-- A row with its place in the list and its `Date.parse`: `none` is NaN.
pub record Item : Type 0 where
  pub row : MonitorHistoryRow
  pub index : ℕ
  pub timestamp : Option ℕ

-- A number on an axis, as a quotient.
pub record Position : Type 0 where
  pub num : ℕ
  pub den : ℕ

pub record ChartPoint : Type 0 where
  pub row : MonitorHistoryRow
  pub x : Position
  pub y : Option Position
  pub timestamp : Option ℕ

abbrev pub left : ℕ
left = 54

abbrev pub top : ℕ
top = 14

abbrev pub bottom : ℕ
bottom = 180

-- `Math.max(left + 1, availableWidth - RIGHT_PAD)`.
abbrev pub right_of : ℕ → ℕ
right_of width = max (left + 1) (width - 12)

abbrev pub items_from : Platform → ℕ → List MonitorHistoryRow → List Item
items_from p i [] = []
items_from p i (r ∷ rs) =
    record { row = r; index = i; timestamp = p.parse_date r.created_at } ∷ items_from p (i + 1) rs

-- The comparison of the sort: the first item does not come after the second.
abbrev pub comes_first : Item → Item → Bool
comes_first a b = elim a.timestamp [
  | none ↦ elim b.timestamp [ none ↦ leb a.index b.index | some t ↦ false ]
  | some s ↦ elim b.timestamp [ none ↦ true | some t ↦ ltb s t || s == t && leb a.row.id b.row.id ]
]

unfoldable pub ordered : Platform → List MonitorHistoryRow → List Item
unfolding sort
ordered p rows = sort comes_first (items_from p 0 rows)

abbrev pub times : List Item → List ℕ
times [] = []
times (a ∷ rest) = elim a.timestamp [ none ↦ times rest | some t ↦ t ∷ times rest ]

abbrev pub head_or : ℕ → List ℕ → ℕ
head_or d [] = d
head_or d (t ∷ ts) = t

abbrev pub last_or : ℕ → List ℕ → ℕ
last_or d [] = d
last_or d (t ∷ ts) = last_or t ts

abbrev pub measured : List Item → List ℕ
measured [] = []
measured (a ∷ rest) = elim a.row.latency_ms [ none ↦ measured rest | some l ↦ l ∷ measured rest ]

-- `Math.max(0, ...values)`.
abbrev pub greatest : List ℕ → ℕ
greatest [] = 0
greatest (v ∷ vs) = max v (greatest vs)

-- `bottom - (value / yMax) * (bottom - top)`, for a value in tenths that is at most `yMax`.
abbrev pub y_position : ℕ → ℕ → Position
y_position high value = record { num = bottom * high - value * (bottom - top); den = high }

abbrev pub x_position : ℕ → ℕ → ℕ → Option ℕ → Position
x_position right first span none = record { num = left; den = 1 }
x_position right first zero (some t) = record { num = left + right; den = 2 }
x_position right first (suc n) (some t) = record {
  num = left * suc n + (t - first) * (right - left);
  den = suc n;
}

abbrev pub height_of : ℕ → Option ℕ → Option Position
height_of high none = none
height_of high (some l) = some (y_position high (10 * l))

abbrev pub point_of : ℕ → ℕ → ℕ → ℕ → Item → ChartPoint
point_of right first span high a = record {
  row = a.row;
  x = x_position right first span a.timestamp;
  y = height_of high a.row.latency_ms;
  timestamp = a.timestamp;
}
