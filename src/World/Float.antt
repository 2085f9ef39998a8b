-- ===== src/World/Float.antt =====
-- The `float` and `double` arithmetic that the source uses, as an interface: the program's guards
-- are comparisons of such numbers, and what is proved of it rests on no law of rounding.
use seed_origin.Base.{ℕ, Bool, List, Option, ℤ}

pub record FloatOps (F : Type 0) : Type 0 where
  -- A literal `numerator / denominator`.
  pub lit : ℕ → ℕ → F
  pub fadd : F → F → F
  pub fsub : F → F → F
  pub fmul : F → F → F
  pub fdiv : F → F → F
  pub fneg : F → F
  pub fabs : F → F
  -- `std::sqrt(a)`
  pub fsqrt : F → F
  -- `static_cast<float>(n)` of an unsigned number.
  pub of_count : ℕ → F
  -- `a < b`, false where one of them is a NaN.
  pub fltb : F → F → Bool
  -- `a <= b`
  pub fleb : F → F → Bool
  pub is_finite : F → Bool
  -- `static_cast<long>(a)`
  pub to_long : F → ℤ
  -- `std::ceil(static_cast<double>(a) / 10.0)` as a `long`, the test that this number is finite,
  -- the test that it is below 1.0 and the test that it is above `std::numeric_limits<long>::max()`.
  pub ceil_tenth : F → ℤ
  pub ceil_tenth_is_finite : F → Bool
  pub ceil_tenth_below_one : F → Bool
  pub ceil_tenth_above_max : F → Bool

-- What streams do with such numbers: `output << a`, and `input >> a` from a text that does not begin
-- with white space, with the text that is left.
pub record FloatText (F : Type 0) : Type 0 where
  pub show : F → List ℕ
  pub read : List ℕ → Option (F × List ℕ)
