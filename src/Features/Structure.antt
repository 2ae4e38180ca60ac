-- ===== src/Features/Structure.antt =====
-- The swings and the range of src/ai_trading_team/features/structure.py. Window sizes are native
-- numbers, so the test `<= 0` is a test for zero.
pub mod Pivots
pub mod Swings
pub mod Latest
pub mod Range
use my_team_tradding.Decimal.{Decimal}
use my_team_tradding.Features.Candles.{FeatureFault, MtCandle, timeframe_duration}
use my_team_tradding.Outcomes.{Timeframe}
use my_team_tradding.Prelude.{
  Bool, List, Option, [], all, drop, false, get_elem?, if◌then◌else◌, leb, length, ltb, none, slice,
  some, suc, true, zero, ℕ, ◌&&◌, ◌+◌, ◌-◌, ◌==◌, ◌||◌, ◌∷◌,
}
use my_team_tradding.Prelude.Int.{ltb_ℤ, max_ℤ, min_ℤ}
use my_team_tradding.Prelude.Result.{Result, err, ok, ◌>>=◌}

pub record SwingPoint : Type 0 where
  pub price : Decimal
  pub candle_open_at : ℕ
  pub confirmed_at : ℕ
  pub left_bars : ℕ
  pub right_bars : ℕ

-- `validate_confirmation`
unfoldable pub build_swing : SwingPoint → Result FeatureFault SwingPoint
build_swing p = if leb p.confirmed_at p.candle_open_at then err FeatureFault.value_error else ok p

-- `level`
abbrev pub level : Bool → MtCandle → Decimal
level high item = if high then item.high else item.low

-- `candidate > item` for a high, `candidate < item` for a low
unfoldable pub exceeds : Bool → Decimal → Decimal → Bool
unfolding ltb_ℤ
exceeds true candidate item = ltb_ℤ item candidate
exceeds false candidate item = ltb_ℤ candidate item

module _ (high : Bool) (left_bars right_bars : ℕ) (candles : List MtCandle) where
  -- `comparison`, at an index whose windows lie inside the candles
  unfoldable pub is_pivot : ℕ → MtCandle → Bool
  is_pivot index pivot =
      all (λ item. exceeds high (level high pivot) (level high item))
        (slice (index - left_bars) index candles)
      && all (λ item. exceeds high (level high pivot) (level high item))
          (slice (index + 1) (index + right_bars + 1) candles)

  abbrev pub pivot_at : ℕ → Option MtCandle → Bool
  pivot_at index none = false
  pivot_at index (some pivot) = is_pivot index pivot

  -- The loop over the indices from `left_bars + n - 1` down to `left_bars`: the first pivot.
  unfoldable pub scan : ℕ → Option ℕ
  unfolding is_pivot
  scan zero = none
  scan (suc n) =
      let rest = scan n in
      if pivot_at (left_bars + n) (get_elem? candles (left_bars + n))
      then some (left_bars + n)
      else rest

  -- The point of a pivot, with the candle that confirms it.
  abbrev pub point_of :
      Timeframe → Option MtCandle → Option MtCandle → Result FeatureFault (Option SwingPoint)
  point_of timeframe (some pivot) (some confirming) =
      build_swing (record {
        price = level high pivot;
        candle_open_at = pivot.open_time;
        confirmed_at = confirming.open_time + timeframe_duration timeframe;
        left_bars = left_bars;
        right_bars = right_bars;
      })
      >>= λ p. ok (some p)
  point_of timeframe _ _ = ok none

  abbrev pub point_at : Timeframe → Option ℕ → Result FeatureFault (Option SwingPoint)
  point_at timeframe none = ok none
  point_at timeframe (some index) =
      point_of timeframe (get_elem? candles index) (get_elem? candles (index + right_bars))

  unfoldable pub latest_confirmed_swing : Timeframe → Result FeatureFault (Option SwingPoint)
  unfolding scan build_swing
  latest_confirmed_swing timeframe =
      if left_bars == 0 || right_bars == 0
      then err FeatureFault.value_error
      else if ltb (length candles) (left_bars + right_bars + 1)
      then ok none
      else point_at timeframe (scan (length candles - right_bars - left_bars))

-- `max(…)` and `min(…)` over the rest of a window
unfoldable pub extreme :
    (Decimal → Decimal → Decimal) → (MtCandle → Decimal) → Decimal → List MtCandle → Decimal
extreme pick of best [] = best
extreme pick of best (item ∷ rest) = extreme pick of (pick best (of item)) rest

abbrev pub maximum : Decimal → List MtCandle → Decimal
maximum best rest = extreme max_ℤ (λ item. item.high) best rest

abbrev pub minimum : Decimal → List MtCandle → Decimal
minimum best rest = extreme min_ℤ (λ item. item.low) best rest

abbrev pub range_of : List MtCandle → Option (Decimal × Decimal)
range_of [] = none
range_of (item ∷ rest) = some (maximum item.high rest, minimum item.low rest)

unfoldable pub recent_range : List MtCandle → ℕ → Result FeatureFault (Option (Decimal × Decimal))
unfolding extreme
recent_range candles lookback =
    if lookback == 0
    then err FeatureFault.value_error
    else if ltb (length candles) lookback
    then ok none
    else ok (range_of (drop (length candles - lookback) candles))
