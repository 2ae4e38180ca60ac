-- ===== src/Outcomes.antt =====
-- `OutcomeEvaluator.evaluate` of src/ai_trading_team/evaluation/outcomes.py: the checks of the frozen
-- proposal and of the candles, the walk along the price path, and the multiples of the risk.
pub mod Path
pub mod Touch
pub mod Sound
mod Examples
use my_team_tradding.Decimal.{Decimal, DecimalContext, of_int}
use my_team_tradding.Prelude.{
  Bool, List, Option, String, [], any, false, if◌then◌else◌, is_empty, leb, length, ltb, none, not,
  some, str_eq, true, ℕ, ◌&&◌, ◌+◌, ◌||◌, ◌∷◌,
}
use my_team_tradding.Prelude.Int.{abs_ℤ, leb_ℤ, ltb_ℤ, max_ℤ, pos, ◌-ℤ◌}
use my_team_tradding.Prelude.Result.{Result, err, ok, ◌>>=◌}
use my_team_tradding.Replay.Clock.{
  ReplayError, ReplayErrorCategory, future_data_access, invalid_horizon, invalid_outcome_data,
  invalid_proposal, partition_violation,
}
use my_team_tradding.Risk.Types.{TradeProposal, TradeSide, buy, sell}

pub data TradeOutcomeStatus : Type 0 where
  take_profit_reached stop_loss_reached unresolved_horizon ambiguous_intrabar : TradeOutcomeStatus

pub data Timeframe : Type 0 where
  timeframe_m15 timeframe_h1 timeframe_h4 : Timeframe

abbrev pub same_timeframe : Timeframe → Timeframe → Bool
same_timeframe timeframe_m15 timeframe_m15 = true
same_timeframe timeframe_h1 timeframe_h1 = true
same_timeframe timeframe_h4 timeframe_h4 = true
same_timeframe _ _ = false

pub record Candle : Type 0 where
  pub symbol : String
  pub timeframe : Timeframe
  pub open_time : ℕ
  pub close_time : ℕ
  pub high : Decimal
  pub low : Decimal

-- The bounds of an evaluation: the frozen decision, the view and the horizon.
pub record OutcomeBounds : Type 0 where
  pub symbol : String
  pub timeframe : Timeframe
  pub decision_cutoff : ℕ
  pub max_bars : Option ℕ
  pub max_elapsed : Option ℕ
  pub evaluation_end : ℕ

-- The levels of the proposal.
pub record Levels : Type 0 where
  pub side : TradeSide
  pub entry : Decimal
  pub stop : Decimal
  pub target : Decimal

abbrev pub replay_error : ReplayErrorCategory → String → ReplayError
replay_error category message = record { category = category; message = message }

abbrev pub is_directed : TradeSide → Decimal → Decimal → Decimal → Bool
is_directed buy entry stop target = ltb_ℤ stop entry && ltb_ℤ entry target
is_directed sell entry stop target = ltb_ℤ target entry && ltb_ℤ entry stop

unfoldable pub priced_levels :
    TradeSide → Option Decimal → Option Decimal → Option Decimal → Result ReplayError Levels
priced_levels side (some entry) (some stop) (some target) =
    if is_directed side entry stop target
    then ok (record { side = side; entry = entry; stop = stop; target = target })
    else err (replay_error invalid_proposal "frozen proposal has invalid directional geometry")
priced_levels side _ _ _ = err (
    replay_error invalid_proposal
      "outcome evaluation requires frozen entry, stop loss, and take profit")

unfoldable pub levels_of : TradeProposal → Result ReplayError Levels
unfolding priced_levels
levels_of proposal =
    priced_levels proposal.side proposal.entry proposal.stop_loss proposal.take_profit

-- The loop over the candles; `previous_open` is the opening of the candle before.
unfoldable pub check_order : OutcomeBounds → Option ℕ → List Candle → Result ReplayError (Unit {0})
check_order bounds previous_open [] = ok tt
check_order bounds previous_open (candle ∷ rest) =
    let remaining = check_order bounds (some candle.open_time) rest in
    if not (str_eq candle.symbol bounds.symbol)
      || (not (same_timeframe candle.timeframe bounds.timeframe)
          || (ltb candle.open_time bounds.decision_cutoff
              || leb candle.close_time bounds.decision_cutoff))
    then err (
        replay_error future_data_access "outcome candle violates the strict post-decision boundary")
    else if elim previous_open [ none ↦ false | some before ↦ leb candle.open_time before ]
    then err (replay_error invalid_outcome_data "outcome candles must be strictly chronological")
    else remaining

unfoldable pub check_horizon : OutcomeBounds → List Candle → Result ReplayError (Unit {0})
check_horizon bounds candles =
    if elim bounds.max_bars [ none ↦ false | some bars ↦ ltb bars (length candles) ]
    then err (replay_error invalid_horizon "outcome view exceeds its declared maximum-bar horizon")
    else if elim bounds.max_elapsed [
      | none ↦ false
      | some elapsed ↦
          any (λ candle. ltb (bounds.decision_cutoff + elapsed) candle.close_time) candles
    ]
    then err (replay_error invalid_horizon "outcome view exceeds its declared elapsed-time horizon")
    else if any (λ candle. ltb bounds.evaluation_end candle.close_time) candles
    then err (replay_error partition_violation "outcome view crosses the partition evaluation end")
    else ok tt

-- How far a candle goes with the trade and against it.
abbrev pub gain_of : Levels → Candle → Decimal
gain_of levels candle = elim levels.side [
  | buy ↦ candle.high -ℤ levels.entry
  | sell ↦ levels.entry -ℤ candle.low
]

abbrev pub loss_of : Levels → Candle → Decimal
loss_of levels candle = elim levels.side [
  | buy ↦ levels.entry -ℤ candle.low
  | sell ↦ candle.high -ℤ levels.entry
]

abbrev pub hits_target : Levels → Candle → Bool
hits_target levels candle = elim levels.side [
  | buy ↦ leb_ℤ levels.target candle.high
  | sell ↦ leb_ℤ candle.low levels.target
]

abbrev pub hits_stop : Levels → Candle → Bool
hits_stop levels candle = elim levels.side [
  | buy ↦ leb_ℤ candle.low levels.stop
  | sell ↦ leb_ℤ levels.stop candle.high
]

-- The status that a candle ends the walk with, if it touches a level.
unfoldable pub resolution : Levels → Candle → Option TradeOutcomeStatus
resolution levels candle =
    if hits_target levels candle && hits_stop levels candle
    then some ambiguous_intrabar
    else if hits_target levels candle
    then some take_profit_reached
    else if hits_stop levels candle
    then some stop_loss_reached
    else none

pub record PricePath : Type 0 where
  pub favorable : Decimal
  pub adverse : Decimal
  pub status : TradeOutcomeStatus
  pub evaluated : List Candle

-- One turn of the loop: the candle ends the walk with a status, or the rest of the path goes on.
abbrev pub turn : Decimal → Decimal → Candle → PricePath → Option TradeOutcomeStatus → PricePath
turn gain loss candle path (some status) = record {
  favorable = gain;
  adverse = loss;
  status = status;
  evaluated = candle ∷ [];
}
turn gain loss candle path none = record path { evaluated = candle ∷ path.evaluated }

-- The loop along the path, from the excursions so far.
unfoldable pub walk : Levels → Decimal → Decimal → List Candle → PricePath
unfolding resolution
walk levels favorable adverse [] = record {
  favorable = favorable;
  adverse = adverse;
  status = unresolved_horizon;
  evaluated = [];
}
walk levels favorable adverse (candle ∷ rest) =
    let gain = max_ℤ favorable (gain_of levels candle) in
    let loss = max_ℤ adverse (loss_of levels candle) in
    turn gain loss candle (walk levels gain loss rest) (resolution levels candle)

-- `abs(entry - stop)`
abbrev pub risk_unit : Levels → Decimal
risk_unit levels = abs_ℤ (levels.entry -ℤ levels.stop)

abbrev pub realized : DecimalContext → Levels → TradeOutcomeStatus → Option Decimal
realized c levels take_profit_reached =
    some (c.div (abs_ℤ (levels.target -ℤ levels.entry)) (risk_unit levels))
realized c levels stop_loss_reached = some (pos 0 -ℤ of_int c 1)
realized c levels _ = none

pub record Outcome : Type 0 where
  pub path : PricePath
  pub realized_r_multiple : Option Decimal
  pub mfe_r : Decimal
  pub mae_r : Decimal

abbrev pub outcome_of : DecimalContext → Levels → PricePath → Outcome
outcome_of c levels path = record {
  path = path;
  realized_r_multiple = realized c levels path.status;
  mfe_r = c.div path.favorable (risk_unit levels);
  mae_r = c.div path.adverse (risk_unit levels);
}

-- The exceptions of the evaluation: `ReplayError`, and the `IndexError` of `evaluated[-1]` when there
-- is no candle.
pub data OutcomeFault : Type 0 where
  replay_fault : ReplayError → OutcomeFault
  index_error : OutcomeFault

abbrev pub lifted {ℓ} : {A : Type ℓ} → Result ReplayError A → Result OutcomeFault A
lifted (ok value) = ok value
lifted (err error) = err (replay_fault error)

unfoldable pub evaluate_outcome :
    DecimalContext → TradeProposal → OutcomeBounds → List Candle → Result OutcomeFault Outcome
unfolding levels_of check_order check_horizon walk
evaluate_outcome c proposal bounds candles = lifted (levels_of proposal) >>= λ levels.
    lifted (check_order bounds none candles) >>= λ ordered.
    lifted (check_horizon bounds candles) >>= λ bounded.
    if is_empty candles
    then err index_error
    else ok (outcome_of c levels (walk levels (pos 0) (pos 0) candles))
