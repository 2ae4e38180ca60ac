-- ===== src/Outcomes/Examples.antt =====
-- A long trade whose second candle reaches the target, and the theorems on outcomes at it.
use my_team_tradding.Decimal.{Decimal}
use my_team_tradding.Decimal.RoundUp.{round_up}
use my_team_tradding.Outcomes.{
  Candle, Levels, Outcome, OutcomeBounds, check_horizon, check_order, evaluate_outcome, levels_of,
  outcome_of, priced_levels, resolution, take_profit_reached, timeframe_m15, unresolved_horizon,
  walk,
}
use my_team_tradding.Outcomes.Path.{walk_no_lookahead}
use my_team_tradding.Outcomes.Sound.{IsOutcome, evaluate_outcome-IsOutcome}
use my_team_tradding.Prelude.{List, [], none, refl, some, ℕ, ◌++◌, ◌+◌, ◌∷◌, ◌≡◌, ◌≢◌}
use my_team_tradding.Prelude.Int.{leb_ℤ, ltb_ℤ, max_ℤ, pos, ◌-ℤ◌}
use my_team_tradding.Prelude.Result.{ok}
use my_team_tradding.Risk.Types.{TradeProposal, buy}

abbrev traded : TradeProposal
traded = record {
  cycle_id = "c1";
  timestamp = 5;
  proposal_id = "p1";
  snapshot_id = "s1";
  symbol = "XAUUSD";
  side = buy;
  entry = some (pos 2000);
  stop_loss = some (pos 1990);
  take_profit = some (pos 2030);
}

abbrev levels : Levels
levels = record { side = buy; entry = pos 2000; stop = pos 1990; target = pos 2030 }

abbrev candle_at : ℕ → Decimal → Decimal → Candle
candle_at opening high low = record {
  symbol = "XAUUSD";
  timeframe = timeframe_m15;
  open_time = opening;
  close_time = opening + 15;
  high = high;
  low = low;
}

abbrev candles : List Candle
candles = candle_at 100 (pos 2010) (pos 1995) ∷ candle_at 115 (pos 2031) (pos 2005) ∷ []

abbrev crash : List Candle
crash = candle_at 130 (pos 2020) (pos 1900) ∷ []

abbrev bounds : OutcomeBounds
bounds = record {
  symbol = "XAUUSD";
  timeframe = timeframe_m15;
  decision_cutoff = 100;
  max_bars = some 100;
  max_elapsed = none;
  evaluation_end = 500;
}

target_first : (walk levels (pos 0) (pos 0) candles).status ≡ take_profit_reached
unfolding walk resolution leb_ℤ ltb_ℤ max_ℤ ◌-ℤ◌
target_first = refl

is_touched : (walk levels (pos 0) (pos 0) candles).status ≢ unresolved_horizon
is_touched h = cc (h, target_first)

walk_no_lookahead_example :
    walk levels (pos 0) (pos 0) (candles ++ crash) ≡ walk levels (pos 0) (pos 0) candles
walk_no_lookahead_example = walk_no_lookahead levels (pos 0) (pos 0) candles crash is_touched

abbrev outcome : Outcome
unfolding round_up walk
outcome = outcome_of round_up levels (walk levels (pos 0) (pos 0) candles)

evaluates : evaluate_outcome round_up traded bounds candles ≡ ok outcome
unfolding evaluate_outcome priced_levels levels_of check_order check_horizon outcome ltb_ℤ
evaluates = refl

evaluate_outcome-IsOutcome_example : IsOutcome traded bounds candles outcome
evaluate_outcome-IsOutcome_example =
    evaluate_outcome-IsOutcome round_up traded bounds candles outcome evaluates
