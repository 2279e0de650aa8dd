-- ===== src/Base/Number.antt =====
-- JavaScript's numbers as far as the program compares them: the integers, the infinities and NaN.
-- A fraction is not represented.
use Prim.Native.String
use sentinel_project.Base.{
  Bool, String, false, if◌then◌else◌, ltb, not, refl, suc, true, zero, ℕ, ◌%◌, ◌/◌, ◌||◌, ◌≡◌,
}

-- `negsuc n` is -(n + 1).
pub data ℤ : Type 0 where
  pos : ℕ → ℤ
  negsuc : ℕ → ℤ

abbrev pub ltb_ℤ : ℤ → ℤ → Bool
ltb_ℤ (pos a) (pos b) = ltb a b
ltb_ℤ (pos a) (negsuc b) = false
ltb_ℤ (negsuc a) (pos b) = true
ltb_ℤ (negsuc a) (negsuc b) = ltb b a

pub data Number : Type 0 where
  nan : Number
  infinity : Number
  neg_infinity : Number
  int : ℤ → Number

abbrev pub num : ℕ → Number
num n = int (pos n)

-- `a < b`: false where either is NaN.
abbrev pub lt_num : Number → Number → Bool
lt_num nan _ = false
lt_num infinity _ = false
lt_num neg_infinity nan = false
lt_num neg_infinity neg_infinity = false
lt_num neg_infinity infinity = true
lt_num neg_infinity (int b) = true
lt_num (int a) nan = false
lt_num (int a) neg_infinity = false
lt_num (int a) infinity = true
lt_num (int a) (int b) = ltb_ℤ a b

abbrev pub is_nan : Number → Bool
is_nan nan = true
is_nan _ = false

-- `a <= b`: false where either is NaN, and else the negation of `b < a`.
abbrev pub le_num : Number → Number → Bool
le_num a b = if is_nan a || is_nan b then false else not (lt_num b a)

-- `Number.isFinite`, `Number.isInteger`.
abbrev pub is_finite : Number → Bool
is_finite (int z) = true
is_finite _ = false

abbrev digit : ℕ → String
digit zero = "0"
digit (suc zero) = "1"
digit (suc (suc zero)) = "2"
digit (suc (suc (suc zero))) = "3"
digit (suc (suc (suc (suc zero)))) = "4"
digit (suc (suc (suc (suc (suc zero))))) = "5"
digit (suc (suc (suc (suc (suc (suc zero)))))) = "6"
digit (suc (suc (suc (suc (suc (suc (suc zero))))))) = "7"
digit (suc (suc (suc (suc (suc (suc (suc (suc zero)))))))) = "8"
digit _ = "9"

-- The digits of `n` in a template string; the fuel is more than their number.
show_from : ℕ → ℕ → String
show_from zero n = ""
show_from (suc fuel) n =
    let more = String.◌++◌ (show_from fuel (n / 10)) (digit (n % 10)) in
    if ltb n 10 then digit n else more

unfoldable pub show : ℕ → String
unfolding show_from
show n = show_from (suc n) n

unfoldable pub show_num : Number → String
unfolding show
show_num nan = "NaN"
show_num infinity = "Infinity"
show_num neg_infinity = "-Infinity"
show_num (int (pos n)) = show n
show_num (int (negsuc n)) = String.◌++◌ "-" (show (suc n))

show_test : show 1205 ≡ "1205"
unfolding show
show_test = refl
