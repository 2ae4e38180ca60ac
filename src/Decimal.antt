-- ===== src/Decimal.antt =====
-- `decimal.Decimal` as the components use it. Any finite set of finite decimals consists of whole
-- multiples of one power of ten, the quantum; a value is the integer number of quanta. Sums,
-- differences, remainders and rounding to an integer are taken as exact, which they are while their
-- results fit the precision of the context; comparisons, `max`, `min` and `abs` are exact anyway. `*` and `/`
-- round by the context of the thread (or of a `localcontext`), which is set outside the modelled
-- code: they are the fields `mul` and `div` of a context, so a theorem holds for every rounding.
pub mod RoundUp
use my_team_tradding.Prelude.{
  Bool, arith, ltb, ltb→lt, lt→ltb, true, ◌↔◌, ◌≡◌, ◌≤◌, if◌then◌else◌, suc, ℕ, ◌%◌, ◌*◌, ◌+◌, ◌-◌,
  ◌/◌, ◌<◌, ◌==◌,
}
use my_team_tradding.Prelude.Int.{abs_ℤ, negsuc, pos, pos_part, ℤ, ◌<ℤ◌, ◌≤ℤ◌}

abbrev pub Decimal : Type 0
Decimal = ℤ

abbrev pub zero_decimal : Decimal
zero_decimal = pos 0

pub record DecimalContext : Type 0 where
  -- the number of quanta in the decimal 1
  pub one : ℕ
  pub mul : Decimal → Decimal → Decimal
  pub div : Decimal → Decimal → Decimal
  -- the least integer with more digits than the precision of the context, 10 ^ 28 by default
  pub quotient_limit : ℕ

-- `Decimal(n)` of an integer that is not negative.
abbrev pub of_int : DecimalContext → ℕ → Decimal
of_int c n = pos (n * c.one)

-- What `a % b` is where it is defined: the remainder of the truncated quotient, with the sign of `a`.
unfoldable pub rem : Decimal → Decimal → Decimal
rem (pos a) b = pos (a % pos_part (abs_ℤ b))
rem (negsuc a) b = let r = suc a % pos_part (abs_ℤ b) in if r == 0 then pos 0 else negsuc (r - 1)

-- The number of quanta without the sign.
abbrev pub magnitude : Decimal → ℕ
magnitude a = pos_part (abs_ℤ a)

-- `a % b` raises `InvalidOperation` when the divisor is zero or when the integer quotient has more
-- digits than the precision of the context.
unfoldable pub is_divisible : DecimalContext → Decimal → Decimal → Bool
is_divisible c a b = ltb (magnitude a) (c.quotient_limit * magnitude b)

abbrev pub IsDivisible : DecimalContext → Decimal → Decimal → Type 0
IsDivisible c a b = magnitude a < c.quotient_limit * magnitude b

pub is_divisible-IsDivisible :
    (c : DecimalContext) (a b : Decimal) → (is_divisible c a b ≡ true) ↔ IsDivisible c a b
unfolding is_divisible
is_divisible-IsDivisible c a b = (ltb→lt _ _, lt→ltb _ _)

magnitude_mono : (a b : Decimal) → pos 0 ≤ℤ a → a ≤ℤ b → magnitude a ≤ magnitude b
unfolding abs_ℤ
magnitude_mono (pos m) (pos n) h k = omega arith
magnitude_mono (pos m) (negsuc n) h k = absurd (omega arith)
magnitude_mono (negsuc m) b h k = absurd (omega arith)

-- A smaller dividend has a smaller quotient.
pub IsDivisible-mono :
    (c : DecimalContext) (a b d : Decimal)
    → pos 0 ≤ℤ a
    → a ≤ℤ b
    → IsDivisible c b d
    → IsDivisible c a d
IsDivisible-mono c a b d nonneg below h = omega (arith, magnitude_mono a b nonneg below, h)

-- `d.to_integral_value(rounding=ROUND_FLOOR)`.
unfoldable pub floor : DecimalContext → Decimal → Decimal
floor c (pos a) = pos (a / c.one * c.one)
floor c (negsuc a) = negsuc ((a / c.one + 1) * c.one - 1)

-- What the code relies on: a product and a quotient of positive numbers are positive (the exponent
-- range of a context is far from used up), and neither changes the sign of a number that is not
-- negative.
pub record IsSignSafe (c : DecimalContext) : Type 0 where
  pub one_pos : 0 < c.one
  pub mul_pos : (a b : Decimal) → pos 0 <ℤ a → pos 0 <ℤ b → pos 0 <ℤ c.mul a b
  pub div_pos : (a b : Decimal) → pos 0 <ℤ a → pos 0 <ℤ b → pos 0 <ℤ c.div a b
  pub mul_nonneg : (a b : Decimal) → pos 0 ≤ℤ a → pos 0 ≤ℤ b → pos 0 ≤ℤ c.mul a b
  pub div_nonneg : (a b : Decimal) → pos 0 ≤ℤ a → pos 0 <ℤ b → pos 0 ≤ℤ c.div a b
