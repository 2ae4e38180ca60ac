-- ===== src/Risk/Types.antt =====
-- The vocabulary and the records of the risk component: `schemas/enums.py`, `schemas/risk.py`,
-- `schemas/decisions.py`, `schemas/mt5.py`, `schemas/market.py` and `config/settings.py` under
-- src/ai_trading_team. A record has the fields that the risk component reads.
use my_team_tradding.Decimal.{Decimal, DecimalContext, of_int}
use my_team_tradding.Prelude.{Bool, List, Option, String, if◌then◌else◌, not, ℕ, ◌&&◌}
use my_team_tradding.Prelude.Int.{leb_ℤ, ltb_ℤ, pos}
use my_team_tradding.Prelude.Result.{Result, err, ok}

pub data RiskState : Type 0 where
  normal caution safe_mode halted : RiskState

pub data RiskDecisionStatus : Type 0 where
  approved rejected halted : RiskDecisionStatus

pub data PositionSizingStatus : Type 0 where
  approved rejected : PositionSizingStatus

pub data RiskReasonCode : Type 0 where
  traceability_mismatch symbol_mismatch account_context_mismatch : RiskReasonCode
  account_context_future_dated account_context_predates_snapshot : RiskReasonCode
  trading_day_context_invalid evaluation_timestamp_invalid : RiskReasonCode
  entry_price_required entry_price_invalid stop_loss_required stop_loss_invalid : RiskReasonCode
  take_profit_required take_profit_invalid : RiskReasonCode
  invalid_stop_geometry invalid_take_profit_geometry : RiskReasonCode
  price_not_aligned_to_tick_size stop_distance_below_broker_minimum : RiskReasonCode
  take_profit_distance_below_broker_minimum risk_reward_below_minimum : RiskReasonCode
  symbol_trading_disabled trade_side_not_allowed : RiskReasonCode
  account_trading_disabled expert_trading_disabled non_positive_equity : RiskReasonCode
  account_position_count_inconsistent maximum_positions_reached : RiskReasonCode
  daily_loss_limit_reached maximum_drawdown_reached : RiskReasonCode
  invalid_broker_risk_metadata minimum_volume_exceeds_risk : RiskReasonCode
  position_size_invariant_failed : RiskReasonCode

pub data TradeSide : Type 0 where
  buy sell : TradeSide

pub data SymbolTradeMode : Type 0 where
  disabled long_only short_only close_only full : SymbolTradeMode

-- The exceptions of the component: `ValueError`, and pydantic's `ValidationError`.
pub data RiskFault : Type 0 where
  value_error validation_error : RiskFault
  -- `decimal.InvalidOperation`
  invalid_operation : RiskFault

pub record RiskReason : Type 0 where
  pub code : RiskReasonCode
  pub message : String

abbrev pub risk_reason : RiskReasonCode → String → RiskReason
risk_reason code message = record { code = code; message = message }

pub record TradeProposal : Type 0 where
  pub cycle_id : String
  pub timestamp : ℕ
  pub proposal_id : String
  pub snapshot_id : String
  pub symbol : String
  pub side : TradeSide
  pub entry : Option Decimal
  pub stop_loss : Option Decimal
  pub take_profit : Option Decimal

pub data BrokerAccountMode : Type 0 where
  demo contest real : BrokerAccountMode

-- The fields of `MT5SymbolInfo` and of `MT5SymbolSummary`, which it extends.
pub record SymbolInfo : Type 0 where
  pub selected : Bool
  pub visible : Bool
  pub point : Decimal
  pub trade_tick_size : Decimal
  pub trade_tick_value : Decimal
  pub trade_contract_size : Decimal
  pub volume_min : Decimal
  pub volume_max : Decimal
  pub volume_step : Decimal
  pub trade_stops_level : ℕ
  pub trading_mode : SymbolTradeMode

pub record AccountInfo : Type 0 where
  pub account_id : ℕ
  pub server : String
  pub trade_mode : BrokerAccountMode
  pub trade_allowed : Bool
  pub expert_trading_allowed : Bool
  pub equity : Decimal

pub record OpenPosition : Type 0 where
  pub ticket : ℕ
  pub symbol : String

pub record MarketSnapshot : Type 0 where
  pub cycle_id : String
  pub snapshot_id : String
  pub symbol : String
  pub snapshot_completed_at : ℕ
  pub symbol_info : SymbolInfo
  pub account : AccountInfo
  pub open_positions : List OpenPosition

pub record AccountRiskContext : Type 0 where
  pub cycle_id : String
  pub snapshot_id : String
  pub account_ref : String
  pub context_as_of : ℕ
  pub trading_day_started_at : ℕ
  pub cash_flow_adjusted_peak_equity : Decimal
  pub adjusted_day_start_equity : Decimal
  pub account_open_position_count : ℕ

pub record RiskConstitutionSettings : Type 0 where
  pub minimum_risk_percent : Decimal
  pub normal_risk_percent : Decimal
  pub maximum_risk_percent : Decimal
  pub maximum_open_positions : ℕ
  pub maximum_daily_loss_percent : Decimal
  pub drawdown_warning_percent : Decimal
  pub drawdown_safe_mode_percent : Decimal
  pub drawdown_stop_percent : Decimal
  pub minimum_risk_reward : Decimal
  pub stop_loss_required : Bool
  pub martingale_enabled : Bool
  pub averaging_down_enabled : Bool
  pub revenge_trading_enabled : Bool

-- `RiskConstitutionSettings.validate_constitution`.
unfoldable pub validate_constitution :
    RiskConstitutionSettings → Result RiskFault RiskConstitutionSettings
validate_constitution s =
    if not (
      leb_ℤ s.minimum_risk_percent s.normal_risk_percent
      && leb_ℤ s.normal_risk_percent s.maximum_risk_percent)
    then err value_error
    else if not (
        ltb_ℤ s.drawdown_warning_percent s.drawdown_safe_mode_percent
        && ltb_ℤ s.drawdown_safe_mode_percent s.drawdown_stop_percent)
    then err value_error
    else if not s.stop_loss_required
    then err value_error
    else if s.martingale_enabled
    then err value_error
    else if s.averaging_down_enabled
    then err value_error
    else if s.revenge_trading_enabled
    then err value_error
    else ok s

-- The `PerTradeRiskPercentage` range, from 0 to 1.
unfoldable pub is_per_trade_percentage : DecimalContext → Decimal → Bool
is_per_trade_percentage c p = leb_ℤ (pos 0) p && leb_ℤ p (of_int c 1)

-- The `PositiveDecimal` and `NonNegativeDecimal` constraints.
abbrev pub is_positive : Decimal → Bool
is_positive d = ltb_ℤ (pos 0) d

abbrev pub is_nonnegative : Decimal → Bool
is_nonnegative d = leb_ℤ (pos 0) d
