-- ===== src/Decimal/RoundUp.antt =====
-- A context that rounds away from zero to three decimal places, for concrete runs. It shows that the
-- sign laws which the components assume can be met.
use native.Mathlib.Nat.{le-div_iff_mul-le}
use my_team_tradding.Decimal.{Decimal, DecimalContext, IsSignSafe, magnitude}
use my_team_tradding.Prelude.{
  Bool, arith, false, if◌then◌else◌, not, suc, true, zero, ℕ, ◌*◌, ◌+◌, ◌-◌, ◌/◌, ◌<◌,
}
use my_team_tradding.Prelude.Int.{abs_ℤ, negsuc, pos, ◌<ℤ◌, ◌≤ℤ◌}

abbrev signed : Bool → ℕ → Decimal
signed true n = pos n
signed false zero = pos 0
signed false (suc n) = negsuc n

abbrev is_nonneg : Decimal → Bool
is_nonneg (pos n) = true
is_nonneg (negsuc n) = false

abbrev same_sign : Decimal → Decimal → Bool
same_sign a b = if is_nonneg a then is_nonneg b else not (is_nonneg b)

mul_up : Decimal → Decimal → Decimal
mul_up a b = signed (same_sign a b) ((magnitude a * magnitude b + 999) / 1000)

div_up : Decimal → Decimal → Decimal
div_up a b = signed (same_sign a b) ((magnitude a * 1000 + (magnitude b - 1)) / magnitude b)

unfoldable pub round_up : DecimalContext
unfolding mul_up div_up
round_up = record { one = 1000; mul = mul_up; div = div_up; quotient_limit = 1000000 }

product_pos : (m n : ℕ) → 0 < m → 0 < n → 0 < (m * n + 999) / 1000
product_pos m n h k = let positive : 0 < m * n = grind arith in omega arith

quotient_pos : (m n : ℕ) → 0 < m → 0 < n → 0 < (m * 1000 + (n - 1)) / n
quotient_pos m n h k = (le-div_iff_mul-le k).1 (omega arith)

pos_of_magnitude : (n : ℕ) → 0 < n → pos 0 <ℤ pos n
pos_of_magnitude n h = omega arith

round_up-mul_pos : (a b : Decimal) → pos 0 <ℤ a → pos 0 <ℤ b → pos 0 <ℤ mul_up a b
unfolding mul_up abs_ℤ
round_up-mul_pos (pos m) (pos n) h k =
    pos_of_magnitude _ (product_pos m n (omega arith) (omega arith))
round_up-mul_pos (pos m) (negsuc n) h k = absurd (omega arith)
round_up-mul_pos (negsuc m) b h k = absurd (omega arith)

round_up-div_pos : (a b : Decimal) → pos 0 <ℤ a → pos 0 <ℤ b → pos 0 <ℤ div_up a b
unfolding div_up abs_ℤ
round_up-div_pos (pos m) (pos n) h k =
    pos_of_magnitude _ (quotient_pos m n (omega arith) (omega arith))
round_up-div_pos (pos m) (negsuc n) h k = absurd (omega arith)
round_up-div_pos (negsuc m) b h k = absurd (omega arith)

round_up-mul_nonneg : (a b : Decimal) → pos 0 ≤ℤ a → pos 0 ≤ℤ b → pos 0 ≤ℤ mul_up a b
unfolding mul_up abs_ℤ
round_up-mul_nonneg (pos m) (pos n) h k = omega arith
round_up-mul_nonneg (pos m) (negsuc n) h k = absurd (omega arith)
round_up-mul_nonneg (negsuc m) b h k = absurd (omega arith)

round_up-div_nonneg : (a b : Decimal) → pos 0 ≤ℤ a → pos 0 <ℤ b → pos 0 ≤ℤ div_up a b
unfolding div_up abs_ℤ
round_up-div_nonneg (pos m) (pos n) h k = omega arith
round_up-div_nonneg (pos m) (negsuc n) h k = absurd (omega arith)
round_up-div_nonneg (negsuc m) b h k = absurd (omega arith)

pub round_up-IsSignSafe : IsSignSafe round_up
unfolding round_up
round_up-IsSignSafe = record {
  one_pos = omega arith;
  mul_pos = round_up-mul_pos;
  div_pos = round_up-div_pos;
  mul_nonneg = round_up-mul_nonneg;
  div_nonneg = round_up-div_nonneg;
}
