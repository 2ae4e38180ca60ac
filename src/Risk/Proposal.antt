-- ===== src/Risk/Proposal.antt =====
-- `ProposalValidator.validate` of src/ai_trading_team/risk/proposal.py: price geometry and broker
-- capabilities of a proposal, with the reasons in the order in which the source appends them.
pub mod Sound
mod Blocks
pub mod Metadata
pub mod Accept
pub mod Exact
use my_team_tradding.Decimal.{Decimal, DecimalContext, is_divisible, of_int, rem}
use my_team_tradding.Prelude.{
  Bool, List, Option, String, [], false, if◌then◌else◌, is_empty, none, not, some, str_eq, true,
  ◌&&◌, ◌++◌, ◌||◌, ◌∷◌,
}
use my_team_tradding.Prelude.Int.{abs_ℤ, eqb_ℤ, leb_ℤ, ltb_ℤ, pos, ◌-ℤ◌}
use my_team_tradding.Prelude.Result.{Result, err, ok}
use my_team_tradding.Risk.Types.{
  AccountInfo, MarketSnapshot, RiskConstitutionSettings, RiskFault, RiskReason, RiskReasonCode,
  SymbolInfo, SymbolTradeMode, TradeProposal, TradeSide, account_trading_disabled, buy, close_only,
  disabled, entry_price_invalid, entry_price_required, expert_trading_disabled,
  invalid_broker_risk_metadata, invalid_operation, invalid_stop_geometry,
  invalid_take_profit_geometry, long_only, price_not_aligned_to_tick_size, risk_reason,
  risk_reward_below_minimum, sell, short_only, stop_distance_below_broker_minimum,
  stop_loss_invalid, stop_loss_required, symbol_mismatch, symbol_trading_disabled,
  take_profit_distance_below_broker_minimum, take_profit_invalid, take_profit_required,
  traceability_mismatch, trade_side_not_allowed,
}

pub record ProposalValidationResult : Type 0 where
  pub reasons : List RiskReason
  pub stop_distance : Option Decimal
  pub reward_distance : Option Decimal
  pub risk_reward : Option Decimal

abbrev pub valid : ProposalValidationResult → Bool
valid r = is_empty r.reasons

-- `if test: reasons.append(risk_reason(code, message))`
abbrev pub reason_if : Bool → RiskReasonCode → String → List RiskReason
reason_if test code message = if test then risk_reason code message ∷ [] else []

-- The presence and sign checks of one price.
abbrev pub price_reasons :
    Option Decimal → RiskReasonCode → String → RiskReasonCode → String → List RiskReason
price_reasons none required required_message invalid invalid_message =
    risk_reason required required_message ∷ []
price_reasons (some price) required required_message invalid invalid_message =
    reason_if (leb_ℤ price (pos 0)) invalid invalid_message

abbrev pub is_valid_stop : TradeSide → Decimal → Decimal → Bool
is_valid_stop buy stop_loss entry = ltb_ℤ stop_loss entry
is_valid_stop sell stop_loss entry = ltb_ℤ entry stop_loss

abbrev pub is_valid_take_profit : TradeSide → Decimal → Decimal → Bool
is_valid_take_profit buy take_profit entry = ltb_ℤ entry take_profit
is_valid_take_profit sell take_profit entry = ltb_ℤ take_profit entry

-- What the geometry block of `validate` leaves: its reasons and the three optional distances.
abbrev pub no_geometry : ProposalValidationResult
no_geometry = record {
  reasons = [];
  stop_distance = none;
  reward_distance = none;
  risk_reward = none;
}

abbrev pub ratio : DecimalContext → Option Decimal → Option Decimal → Option Decimal
ratio c (some stop_distance) (some reward_distance) = some (c.div reward_distance stop_distance)
ratio c none _ = none
ratio c _ none = none

abbrev pub is_below_minimum : Decimal → Option Decimal → Bool
is_below_minimum minimum none = false
is_below_minimum minimum (some value) = ltb_ℤ value minimum

-- The block that is entered when the three prices are present and positive.
unfoldable pub priced_geometry :
    DecimalContext → Decimal → TradeSide → Decimal → Decimal → Decimal → ProposalValidationResult
priced_geometry c minimum_risk_reward side entry stop_loss take_profit =
    let valid_stop = is_valid_stop side stop_loss entry in
    let valid_take_profit = is_valid_take_profit side take_profit entry in
    let stop_distance = if valid_stop then some (abs_ℤ (entry -ℤ stop_loss)) else none in
    let reward_distance = if valid_take_profit then some (abs_ℤ (take_profit -ℤ entry)) else none in
    let risk_reward = ratio c stop_distance reward_distance in
    record {
      reasons =
          reason_if (not valid_stop) invalid_stop_geometry "stop loss is on the wrong side of entry"
          ++ (reason_if (not valid_take_profit) invalid_take_profit_geometry
                "take profit is on the wrong side of entry"
              ++ reason_if (is_below_minimum minimum_risk_reward risk_reward)
                  risk_reward_below_minimum "proposal risk/reward is below the configured minimum");
      stop_distance = stop_distance;
      reward_distance = reward_distance;
      risk_reward = risk_reward;
    }

unfoldable pub geometry :
    DecimalContext
    → Decimal
    → TradeSide
    → Option Decimal
    → Option Decimal
    → Option Decimal
    → ProposalValidationResult
unfolding priced_geometry
geometry c minimum side (some entry) (some stop_loss) (some take_profit) =
    if ltb_ℤ (pos 0) entry && (ltb_ℤ (pos 0) stop_loss && ltb_ℤ (pos 0) take_profit)
    then priced_geometry c minimum side entry stop_loss take_profit
    else no_geometry
geometry c minimum side _ _ _ = no_geometry

-- `price is not None and price > 0 and price % tick_size != 0`
unfoldable pub misaligned : Decimal → Option Decimal → Bool
misaligned tick_size none = false
misaligned tick_size (some price) = ltb_ℤ (pos 0) price && not (eqb_ℤ (rem price tick_size) (pos 0))

-- The broker-metadata block. The loop over the prices breaks after its first reason.
unfoldable pub metadata_reasons :
    DecimalContext
    → SymbolInfo
    → Option Decimal
    → Option Decimal
    → Option Decimal
    → Option Decimal
    → Option Decimal
    → List RiskReason
unfolding misaligned
metadata_reasons c info entry stop_loss take_profit stop_distance reward_distance =
    let tick_size = info.trade_tick_size in
    let minimum_distance = c.mul (of_int c info.trade_stops_level) info.point in
    if leb_ℤ tick_size (pos 0) || leb_ℤ info.point (pos 0)
    then risk_reason invalid_broker_risk_metadata "broker tick size and point must be positive" ∷ []
    else (reason_if
          (misaligned tick_size entry
            || (misaligned tick_size stop_loss || misaligned tick_size take_profit))
          price_not_aligned_to_tick_size "proposal price is not aligned to broker tick size"
        ++ (reason_if (is_below_minimum minimum_distance stop_distance)
              stop_distance_below_broker_minimum "stop distance is below the broker minimum"
            ++ reason_if (is_below_minimum minimum_distance reward_distance)
                take_profit_distance_below_broker_minimum
                "take-profit distance is below the broker minimum"))

unfoldable pub mode_reasons : SymbolTradeMode → TradeSide → List RiskReason
mode_reasons disabled side =
    risk_reason symbol_trading_disabled "symbol is not enabled for opening trades" ∷ []
mode_reasons close_only side =
    risk_reason symbol_trading_disabled "symbol is not enabled for opening trades" ∷ []
mode_reasons long_only sell =
    risk_reason trade_side_not_allowed "proposal side is not allowed by broker symbol mode" ∷ []
mode_reasons short_only buy =
    risk_reason trade_side_not_allowed "proposal side is not allowed by broker symbol mode" ∷ []
mode_reasons _ _ = []

-- The reasons before the geometry block: traceability, symbol, presence and sign of the prices.
unfoldable pub identity_reasons : TradeProposal → MarketSnapshot → List RiskReason
identity_reasons p s =
    reason_if (not (str_eq p.cycle_id s.cycle_id) || not (str_eq p.snapshot_id s.snapshot_id))
      traceability_mismatch "proposal does not belong to the snapshot trace"
    ++ (reason_if (not (str_eq p.symbol s.symbol)) symbol_mismatch
          "proposal symbol does not match snapshot symbol"
        ++ (price_reasons p.entry entry_price_required "entry is required" entry_price_invalid
              "entry must be positive"
            ++ (price_reasons p.stop_loss stop_loss_required "stop loss is mandatory"
                  stop_loss_invalid "stop loss must be positive"
                ++ price_reasons p.take_profit take_profit_required
                    "take profit is required to validate minimum risk/reward" take_profit_invalid
                    "take profit must be positive")))

unfoldable pub account_reasons : AccountInfo → List RiskReason
account_reasons a =
    reason_if (not a.trade_allowed) account_trading_disabled "account is not enabled for trading"
    ++ reason_if (not a.expert_trading_allowed) expert_trading_disabled
        "account is not enabled for programmatic trading"

-- What `validate` returns, with remainders that are defined.
unfoldable pub validation :
    DecimalContext
    → RiskConstitutionSettings
    → TradeProposal
    → MarketSnapshot
    → ProposalValidationResult
unfolding geometry metadata_reasons mode_reasons identity_reasons account_reasons
validation c settings p s =
    let g = geometry c settings.minimum_risk_reward p.side p.entry p.stop_loss p.take_profit in
    record g {
      reasons =
          identity_reasons p s
          ++ (g.reasons
              ++ (metadata_reasons c s.symbol_info p.entry p.stop_loss p.take_profit g.stop_distance
                    g.reward_distance
                  ++ (mode_reasons s.symbol_info.trading_mode p.side
                      ++ account_reasons s.account)));
    }

-- Whether the loop over the prices comes to a `%` that raises, before a price off the grid ends it.
unfoldable pub overruns : DecimalContext → Decimal → List (Option Decimal) → Bool
unfolding is_divisible
overruns c tick_size [] = false
overruns c tick_size (none ∷ rest) = overruns c tick_size rest
overruns c tick_size (some price ∷ rest) =
    let later_overruns = overruns c tick_size rest in
    if leb_ℤ price (pos 0)
    then later_overruns
    else if not (is_divisible c price tick_size)
    then true
    else if misaligned tick_size (some price)
    then false
    else later_overruns

abbrev pub has_usable_ticks : SymbolInfo → Bool
has_usable_ticks info = not (leb_ℤ info.trade_tick_size (pos 0) || leb_ℤ info.point (pos 0))

-- `validate` has no effect but its result, so the error is raised before the reasons are listed.
unfoldable pub validate :
    DecimalContext
    → RiskConstitutionSettings
    → TradeProposal
    → MarketSnapshot
    → Result RiskFault ProposalValidationResult
unfolding validation overruns
validate c settings p s =
    if has_usable_ticks s.symbol_info
      && overruns c s.symbol_info.trade_tick_size (p.entry ∷ p.stop_loss ∷ p.take_profit ∷ [])
    then err invalid_operation
    else ok (validation c settings p s)
