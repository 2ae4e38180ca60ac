-- ===== src/Replay/Examples/Source.antt =====
-- Four candles around a decision at 25, what it and its outcome read of them, and the theorem on the
-- two views at it.
use my_team_tradding.Outcomes.{Candle, timeframe_m15}
use my_team_tradding.Prelude.{[], none, refl, some, ℕ, ◌+◌, ◌∷◌, ◌≡◌}
use my_team_tradding.Prelude.Int.{pos}
use my_team_tradding.Prelude.Result.{ok}
use my_team_tradding.Replay.Examples.{range}
use my_team_tradding.Replay.Source.{
  DecisionView, FrozenReplayDecision, HistoricalDataset, OutcomeHorizon, OutcomeView,
  completed_candles, decision_view, find_partition, outcome_view,
}
use my_team_tradding.Replay.Source.Apart.{AreApart, views-AreApart}
use my_team_tradding.Time.{aware, normalize_utc}

abbrev candle_at : ℕ → Candle
candle_at at = record {
  symbol = "XAUUSD";
  timeframe = timeframe_m15;
  open_time = at;
  close_time = at + 5;
  high = pos 20;
  low = pos 10;
}

abbrev history : HistoricalDataset
history = record {
  dataset_digest = "digest";
  partitions = range ∷ [];
  candles = candle_at 15 ∷ candle_at 20 ∷ candle_at 25 ∷ candle_at 30 ∷ [];
  snapshot_observations = [];
}

abbrev frozen_decision : FrozenReplayDecision
frozen_decision = record { symbol = "XAUUSD"; decision_cutoff = 25 }

abbrev one_bar : OutcomeHorizon
one_bar = record { max_bars = some 1; max_elapsed = none }

abbrev decided_on : DecisionView
decided_on = record { dataset = history; partition = range; cutoff = 25 }

abbrev judged_by : OutcomeView
judged_by = record {
  dataset_digest = "digest";
  partition = range;
  cutoff = 25;
  timeframe = timeframe_m15;
  candles = candle_at 25 ∷ [];
}

views : decision_view history "test" (aware 25) ≡ ok decided_on
unfolding decision_view find_partition normalize_utc
views = refl

reads : completed_candles decided_on "XAUUSD" timeframe_m15 1 ≡ ok (candle_at 20 ∷ [])
unfolding completed_candles
reads = refl

judges : outcome_view history frozen_decision "test" timeframe_m15 one_bar ≡ ok judged_by
unfolding outcome_view find_partition
judges = refl

views-AreApart_example : AreApart decided_on "XAUUSD" timeframe_m15 1 (candle_at 20 ∷ []) judged_by
views-AreApart_example =
    views-AreApart history "test" frozen_decision "XAUUSD" timeframe_m15 timeframe_m15 1 one_bar
      decided_on (candle_at 20 ∷ []) judged_by views reads judges
