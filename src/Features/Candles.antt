-- ===== src/Features/Candles.antt =====
-- The candle of src/ai_trading_team/schemas/mt5.py with its validator, the durations of
-- schemas/timeframes.py, `validate_candles` of features/validation.py and `candle_geometry` of
-- features/geometry.py. Instants are microseconds.
pub mod Completed
pub mod Geometry
use my_team_tradding.Decimal.{Decimal, DecimalContext}
use my_team_tradding.Outcomes.{Timeframe, same_timeframe, timeframe_h1, timeframe_h4, timeframe_m15}
use my_team_tradding.Prelude.{
  Bool, List, Option, String, [], false, if◌then◌else◌, leb, ltb, none, not, some, str_eq, ℕ, ◌&&◌,
  ◌*◌, ◌+◌, ◌||◌, ◌∷◌,
}
use my_team_tradding.Prelude.Int.{abs_ℤ, eqb_ℤ, ltb_ℤ, max_ℤ, min_ℤ, pos, ◌-ℤ◌}

pub record MtCandle : Type 0 where
  pub symbol : String
  pub timeframe : Timeframe
  pub open_time : ℕ
  pub open_price : Decimal
  pub high : Decimal
  pub low : Decimal
  pub close : Decimal

-- `validate_ohlc_relationships`
unfoldable pub is_valid_candle : MtCandle → Bool
unfolding max_ℤ min_ℤ ltb_ℤ
is_valid_candle candle =
    not (
      ltb_ℤ candle.high (max_ℤ candle.open_price candle.close)
      || ltb_ℤ (min_ℤ candle.open_price candle.close) candle.low)
    && not (ltb_ℤ candle.high candle.low)

abbrev pub timeframe_duration : Timeframe → ℕ
timeframe_duration timeframe_m15 = 15 * 60000000
timeframe_duration timeframe_h1 = 60 * 60000000
timeframe_duration timeframe_h4 = 240 * 60000000

pub data FeatureErrorCategory : Type 0 where
  invalid_snapshot invalid_candle_order future_candle : FeatureErrorCategory
  incomplete_candle timeframe_mismatch symbol_mismatch : FeatureErrorCategory
  configuration_incompatible calculation_failure : FeatureErrorCategory

-- `FeatureEngineError`, and the built-in `ValueError`.
pub data FeatureFault : Type 0 where
  feature_error : FeatureErrorCategory → String → FeatureFault
  value_error : FeatureFault

abbrev pub is_not_after : ℕ → Option ℕ → Bool
is_not_after open_time none = false
is_not_after open_time (some previous) = leb open_time previous

-- One turn of the loop of `validate_candles`: the error that it raises, if any.
unfoldable pub candle_fault : String → ℕ → Timeframe → Option ℕ → MtCandle → Option FeatureFault
candle_fault symbol completed_at timeframe previous candle =
    if not (str_eq candle.symbol symbol)
    then some (
        feature_error FeatureErrorCategory.symbol_mismatch
          "source candle symbol does not match snapshot symbol")
    else if not (same_timeframe candle.timeframe timeframe)
    then some (
        feature_error FeatureErrorCategory.timeframe_mismatch
          "source candle timeframe does not match its collection")
    else if is_not_after candle.open_time previous
    then some (
        feature_error FeatureErrorCategory.invalid_candle_order
          "source candle times must be unique and strictly increasing")
    else if ltb completed_at candle.open_time
    then some (
        feature_error FeatureErrorCategory.future_candle
          "source candle opens after snapshot completion")
    else if ltb completed_at (candle.open_time + timeframe_duration timeframe)
    then some (
        feature_error FeatureErrorCategory.incomplete_candle
          "source candle was incomplete at snapshot completion")
    else none

unfoldable pub candles_fault :
    String → ℕ → Timeframe → Option ℕ → List MtCandle → Option FeatureFault
unfolding candle_fault
candles_fault symbol completed_at timeframe previous [] = none
candles_fault symbol completed_at timeframe previous (candle ∷ rest) =
    let behind = candles_fault symbol completed_at timeframe (some candle.open_time) rest in
    elim (candle_fault symbol completed_at timeframe previous candle) [
      | none ↦ behind
      | some fault ↦ some fault
    ]

-- `validate_candles`, of the symbol and the completion of the snapshot.
unfoldable pub validate_candles : String → ℕ → Timeframe → List MtCandle → Option FeatureFault
unfolding candles_fault
validate_candles symbol completed_at timeframe [] =
    some (feature_error FeatureErrorCategory.invalid_snapshot "snapshot candle collection is empty")
validate_candles symbol completed_at timeframe (candle ∷ rest) =
    candles_fault symbol completed_at timeframe none (candle ∷ rest)

pub record CandleGeometry : Type 0 where
  pub candle_range : Decimal
  pub real_body : Decimal
  pub upper_wick : Decimal
  pub lower_wick : Decimal
  pub body_range_ratio : Option Decimal

unfoldable pub candle_geometry : DecimalContext → MtCandle → CandleGeometry
unfolding max_ℤ min_ℤ abs_ℤ eqb_ℤ
candle_geometry c candle =
    let candle_range = candle.high -ℤ candle.low in
    let real_body = abs_ℤ (candle.close -ℤ candle.open_price) in
    record {
      candle_range = candle_range;
      real_body = real_body;
      upper_wick = candle.high -ℤ max_ℤ candle.open_price candle.close;
      lower_wick = min_ℤ candle.open_price candle.close -ℤ candle.low;
      body_range_ratio =
          if eqb_ℤ candle_range (pos 0) then none else some (c.div real_body candle_range);
    }
