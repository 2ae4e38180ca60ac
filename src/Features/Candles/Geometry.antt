-- ===== src/Features/Candles/Geometry.antt =====
-- The parts of a candle.
use my_team_tradding.Decimal.{DecimalContext}
use my_team_tradding.Features.Candles.{MtCandle, candle_geometry, is_valid_candle}
use my_team_tradding.Prelude.{Bool, arith, false, if◌then◌else◌, none, refl, some, true, ◌↔◌, ◌≡◌}
use my_team_tradding.Prelude.Int.{
  abs_ℤ, eq_of_parts, eqb_ℤ, eqb_ℤ→eq, int_laws, leb_ℤ, ltb_ℤ→ge, max_ℤ, min_ℤ, pos, ℤ, ◌+ℤ◌, ◌-ℤ◌,
  ◌≤ℤ◌,
}
use my_team_tradding.Risk.Proposal.{ratio}

abs_of : (a b : ℤ) → abs_ℤ (b -ℤ a) ≡ max_ℤ a b -ℤ min_ℤ a b
unfolding abs_ℤ max_ℤ min_ℤ ◌-ℤ◌
abs_of a b = ground arith

split_sum : (h m n l : ℤ) → h -ℤ l ≡ (h -ℤ m) +ℤ ((m -ℤ n) +ℤ (n -ℤ l))
split_sum h m n l = eq_of_parts (h -ℤ l) ((h -ℤ m) +ℤ ((m -ℤ n) +ℤ (n -ℤ l))) (grind int_laws)

nonneg_of : (a b : ℤ) → b ≤ℤ a → pos 0 ≤ℤ a -ℤ b
nonneg_of a b h = grind int_laws

min_le_max : (a b : ℤ) → min_ℤ a b ≤ℤ max_ℤ a b
unfolding max_ℤ min_ℤ
min_le_max a b = ground arith

-- What the validator of a candle says.
valid_candle_elim :
    (candle : MtCandle)
    → is_valid_candle candle ≡ true
    → (max_ℤ candle.open_price candle.close ≤ℤ candle.high)
      × (candle.low ≤ℤ min_ℤ candle.open_price candle.close)
unfolding is_valid_candle
valid_candle_elim candle h = (
  ltb_ℤ→ge candle.high (max_ℤ candle.open_price candle.close) (ground arith),
  ltb_ℤ→ge (min_ℤ candle.open_price candle.close) candle.low (ground arith),
)

eq_of_zero : (a b : ℤ) → eqb_ℤ (a -ℤ b) (pos 0) ≡ true → a ≡ b
eq_of_zero a b h = eq_of_parts a b (grind (int_laws, eqb_ℤ→eq (a -ℤ b) (pos 0) h))

zero_of_eq : (a b : ℤ) → a ≡ b → eqb_ℤ (a -ℤ b) (pos 0) ≡ true
unfolding eqb_ℤ leb_ℤ ◌-ℤ◌
zero_of_eq a b h = ground arith

-- Nothing is returned exactly of equal numbers.
ratio_by :
    (a b : ℤ) (ratio : ℤ) (zeroed : Bool)
    → eqb_ℤ (a -ℤ b) (pos 0) ≡ zeroed
    → ((if zeroed then none else some ratio) ≡ none) ↔ (a ≡ b)
ratio_by a b ratio true h = (λ absent. eq_of_zero a b h, λ same. refl)
ratio_by a b ratio false h = (λ absent. absurd (cc (absent)), λ same. cc (h, zero_of_eq a b same))

-- The parts of a valid candle, its upper wick, its body and its lower wick, are not negative and add up
-- to its range; the ratio of body to range is left out exactly where the range is zero.
pub candle_geometry-adds_up :
    (c : DecimalContext) (candle : MtCandle)
    → is_valid_candle candle ≡ true
    → let g = candle_geometry c candle in
      (pos 0 ≤ℤ g.real_body)
      × ((pos 0 ≤ℤ g.upper_wick)
          × ((pos 0 ≤ℤ g.lower_wick)
              × ((g.candle_range ≡ g.upper_wick +ℤ (g.real_body +ℤ g.lower_wick))
                  × ((g.body_range_ratio ≡ none) ↔ (candle.high ≡ candle.low)))))
unfolding candle_geometry
candle_geometry-adds_up c candle h =
    let (upper, lower) = valid_candle_elim candle h in
    let body = abs_of candle.open_price candle.close in
    (
      rw (body) (nonneg_of _ _ (min_le_max candle.open_price candle.close)),
      (
        nonneg_of candle.high _ upper,
        (
          nonneg_of _ candle.low lower,
          (
            rw (body) (
                split_sum candle.high (max_ℤ candle.open_price candle.close)
                  (min_ℤ candle.open_price candle.close) candle.low),
            ratio_by candle.high candle.low _ _ refl,
          ),
        ),
      ),
    )
