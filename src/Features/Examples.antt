-- ===== src/Features/Examples.antt =====
-- Three quarter-hour candles with a high in the middle.
use my_team_tradding.Decimal.{Decimal}
use my_team_tradding.Decimal.RoundUp.{round_up}
use my_team_tradding.Features.Candles.{
  FeatureErrorCategory, MtCandle, candle_fault, candle_geometry, candles_fault, feature_error,
  is_valid_candle, validate_candles,
}
use my_team_tradding.Features.Candles.Completed.{AreCompleted, validate_candles_iff}
use my_team_tradding.Features.Candles.Geometry.{candle_geometry-adds_up}
use my_team_tradding.Features.Structure.{
  SwingPoint, build_swing, exceeds, is_pivot, latest_confirmed_swing, recent_range, scan,
}
use my_team_tradding.Features.Structure.Latest.{Answers, latest_confirmed_swing-IsSwing}
use my_team_tradding.Features.Structure.Range.{IsRange, recent_range-IsRange}
use my_team_tradding.Outcomes.{timeframe_m15}
use my_team_tradding.Prelude.{
  List, Option, [], arith, drop, length, none, refl, some, true, ℕ, ◌-◌, ◌<◌, ◌↔◌, ◌∷◌, ◌≡◌, ◌≢◌,
  ◌≤◌,
}
use my_team_tradding.Prelude.Int.{pos, ◌+ℤ◌, ◌≤ℤ◌}
use my_team_tradding.Prelude.Result.{ok}

abbrev bar : ℕ → ℕ → ℕ → MtCandle
bar open_time high low = record {
  symbol = "EURUSD";
  timeframe = timeframe_m15;
  open_time = open_time;
  open_price = pos 10;
  high = pos high;
  low = pos low;
  close = pos 12;
}

abbrev bars : List MtCandle
bars = bar 0 15 9 ∷ (bar 900000000 20 8 ∷ (bar 1800000000 14 7 ∷ []))

bars_pass : validate_candles "EURUSD" 2700000000 timeframe_m15 bars ≡ none
unfolding validate_candles candles_fault candle_fault
bars_pass = refl

-- The same candles a microsecond before the last one ended.
bars_early :
    validate_candles "EURUSD" 2699999999 timeframe_m15 bars
    ≡ some (
        feature_error FeatureErrorCategory.incomplete_candle
          "source candle was incomplete at snapshot completion")
unfolding validate_candles candles_fault candle_fault
bars_early = refl

found_swing :
    latest_confirmed_swing true 1 1 bars timeframe_m15
    ≡ ok (
        some (record {
          price = pos 20;
          candle_open_at = 900000000;
          confirmed_at = 2700000000;
          left_bars = 1;
          right_bars = 1;
        }))
unfolding latest_confirmed_swing scan is_pivot exceeds build_swing
found_swing = refl

one_positive : ◌≢◌ {A = ℕ} 1 0
one_positive p = omega (arith, p)

two_positive : ◌≢◌ {A = ℕ} 2 0
two_positive p = omega (arith, p)

bar_valid : is_valid_candle (bar 0 15 9) ≡ true
unfolding is_valid_candle
bar_valid = refl

validate_candles_iff_example :
    (validate_candles "EURUSD" 2700000000 timeframe_m15 bars ≡ none)
    ↔ AreCompleted "EURUSD" 2700000000 timeframe_m15 bars
validate_candles_iff_example = validate_candles_iff "EURUSD" 2700000000 timeframe_m15 bars

latest_confirmed_swing-IsSwing_example :
    (s : Option SwingPoint) × ((latest_confirmed_swing true 1 1 bars timeframe_m15 ≡ ok s)
      × Answers true 1 1 bars "EURUSD" 2700000000 timeframe_m15 s)
latest_confirmed_swing-IsSwing_example =
    latest_confirmed_swing-IsSwing true 1 1 bars "EURUSD" 2700000000 timeframe_m15 one_positive
      one_positive bars_pass

recent_range-IsRange_example :
    ((2 ≤ length bars)
      → (top bottom : Decimal) × ((recent_range bars 2 ≡ ok (some (top, bottom)))
          × IsRange (drop (length bars - 2) bars) top bottom))
    × (length bars < 2 → recent_range bars 2 ≡ ok none)
recent_range-IsRange_example = recent_range-IsRange bars 2 two_positive

candle_geometry-adds_up_example :
    let g = candle_geometry round_up (bar 0 15 9) in
    (pos 0 ≤ℤ g.real_body)
    × ((pos 0 ≤ℤ g.upper_wick)
        × ((pos 0 ≤ℤ g.lower_wick)
            × ((g.candle_range ≡ g.upper_wick +ℤ (g.real_body +ℤ g.lower_wick))
                × ((g.body_range_ratio ≡ none) ↔ (pos 15 ≡ pos 9)))))
candle_geometry-adds_up_example = candle_geometry-adds_up round_up (bar 0 15 9) bar_valid
