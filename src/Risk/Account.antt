-- ===== src/Risk/Account.antt =====
-- `AccountRiskEvaluator` of src/ai_trading_team/risk/account.py: the account guards, the loss
-- metrics and the risk state.
pub mod Bands
pub mod Bounds
pub mod Total
use Prim.Native.String.{◌++◌ as text_append}
use my_team_tradding.Decimal.{Decimal, DecimalContext, of_int}
use my_team_tradding.Prelude.{
  List, String, if◌then◌else◌, leb, length, ltb, not, str_eq, ℕ, ◌&&◌, ◌++◌, ◌||◌,
}
use my_team_tradding.Prelude.Int.{leb_ℤ, max_ℤ, pos, ◌-ℤ◌}
use my_team_tradding.Prelude.Result.{Result, err, ok, ◌>>=◌}
use my_team_tradding.Risk.Proposal.{reason_if}
use my_team_tradding.Risk.Types.{
  AccountRiskContext, MarketSnapshot, RiskConstitutionSettings, RiskFault, RiskReason, RiskState,
  account_context_future_dated, account_context_mismatch, account_context_predates_snapshot,
  account_position_count_inconsistent, caution, daily_loss_limit_reached, halted, is_nonnegative,
  is_per_trade_percentage, is_positive, maximum_drawdown_reached, maximum_positions_reached,
  non_positive_equity, normal, safe_mode, traceability_mismatch, trading_day_context_invalid,
  validation_error, value_error,
}
use my_team_tradding.Time.{Datetime, normalize_utc}

-- What `account_fingerprint` takes from the standard library: `str.casefold`, the decimal print of
-- an integer and the hexadecimal SHA-256 digest of a text's UTF-8 bytes.
pub record Fingerprinting : Type 0 where
  pub casefold : String → String
  pub print : ℕ → String
  pub sha256_hex : String → String

unfoldable pub account_fingerprint : Fingerprinting → ℕ → String → String
account_fingerprint f account_id server = text_append "acct-v1:" (
    f.sha256_hex (
      text_append "ai-trading-team:account:v1\0"
        (text_append (f.casefold server) (text_append "\0" (f.print account_id)))))

pub record AccountRiskMetrics : Type 0 where
  pub account_ref : String
  pub current_equity : Decimal
  pub effective_peak_equity : Decimal
  pub drawdown_amount : Decimal
  pub drawdown_percent : Decimal
  pub daily_loss_amount : Decimal
  pub daily_loss_percent : Decimal
  pub account_open_position_count : ℕ
  pub permitted_risk_percent : Decimal

-- The field constraints of `AccountRiskMetrics`: its constructor raises when one fails.
unfoldable pub check_metrics :
    DecimalContext → AccountRiskMetrics → Result RiskFault AccountRiskMetrics
unfolding is_per_trade_percentage
check_metrics c m =
    if is_positive m.effective_peak_equity
      && (is_nonnegative m.drawdown_amount
          && (is_nonnegative m.drawdown_percent
              && (is_nonnegative m.daily_loss_amount
                  && (is_nonnegative m.daily_loss_percent
                      && is_per_trade_percentage c m.permitted_risk_percent))))
    then ok m
    else err validation_error

pub record AccountRiskAssessment : Type 0 where
  pub state : RiskState
  pub metrics : AccountRiskMetrics
  pub reasons : List RiskReason

-- `_drawdown_state`
unfoldable pub drawdown_state : RiskConstitutionSettings → Decimal → RiskState
drawdown_state settings drawdown_percent =
    if leb_ℤ settings.drawdown_stop_percent drawdown_percent
    then RiskState.halted
    else if leb_ℤ settings.drawdown_safe_mode_percent drawdown_percent
    then RiskState.safe_mode
    else if leb_ℤ settings.drawdown_warning_percent drawdown_percent
    then RiskState.caution
    else RiskState.normal

-- The reasons that precede the loss metrics.
unfoldable pub context_reasons :
    Fingerprinting
    → RiskConstitutionSettings
    → MarketSnapshot
    → AccountRiskContext
    → ℕ
    → List RiskReason
context_reasons f settings s x evaluated_at =
    reason_if (not (str_eq x.cycle_id s.cycle_id) || not (str_eq x.snapshot_id s.snapshot_id))
      traceability_mismatch "account context does not belong to the snapshot trace"
    ++ (reason_if
          (not (str_eq x.account_ref (account_fingerprint f s.account.account_id s.account.server)))
          account_context_mismatch "account context does not match the snapshot account"
        ++ (reason_if (ltb evaluated_at x.context_as_of) account_context_future_dated
              "account context is later than the evaluation timestamp"
            ++ (reason_if (ltb x.context_as_of s.snapshot_completed_at)
                  account_context_predates_snapshot "account context predates snapshot completion"
                ++ (reason_if (ltb x.context_as_of x.trading_day_started_at)
                      trading_day_context_invalid "trading-day start is later than account context"
                    ++ (reason_if (ltb x.account_open_position_count (length s.open_positions))
                          account_position_count_inconsistent
                          "account-wide position count is below the snapshot symbol count"
                        ++ reason_if
                            (leb settings.maximum_open_positions x.account_open_position_count)
                            maximum_positions_reached
                            "maximum concurrent position count has been reached")))))

-- `max(Decimal("0"), baseline - equity)` and `amount / baseline * 100`.
unfoldable pub loss_amount : Decimal → Decimal → Decimal
loss_amount baseline equity = max_ℤ (pos 0) (baseline -ℤ equity)

unfoldable pub loss_percent : DecimalContext → Decimal → Decimal → Decimal
unfolding loss_amount
loss_percent c baseline equity = c.mul (c.div (loss_amount baseline equity) baseline) (of_int c 100)

-- The three limits that halt the account, in order; each overrides the drawdown state.
unfoldable pub limit_reasons :
    RiskConstitutionSettings → Decimal → Decimal → Decimal → List RiskReason
limit_reasons settings equity drawdown_percent daily_loss_percent =
    reason_if (leb_ℤ equity (pos 0)) non_positive_equity "account equity must be positive"
    ++ (reason_if (leb_ℤ settings.maximum_daily_loss_percent daily_loss_percent)
          daily_loss_limit_reached "daily loss limit has been reached"
        ++ reason_if (leb_ℤ settings.drawdown_stop_percent drawdown_percent)
            maximum_drawdown_reached "maximum cash-flow-adjusted drawdown has been reached")

unfoldable pub account_state : RiskConstitutionSettings → Decimal → Decimal → Decimal → RiskState
unfolding drawdown_state
account_state settings equity drawdown_percent daily_loss_percent =
    let state = drawdown_state settings drawdown_percent in
    let state = if leb_ℤ equity (pos 0) then RiskState.halted else state in
    let state =
      if leb_ℤ settings.maximum_daily_loss_percent daily_loss_percent
      then RiskState.halted
      else state in
    if leb_ℤ settings.drawdown_stop_percent drawdown_percent then RiskState.halted else state

unfoldable pub permitted_risk : RiskConstitutionSettings → RiskState → Decimal
permitted_risk settings RiskState.halted = pos 0
permitted_risk settings RiskState.normal = settings.normal_risk_percent
permitted_risk settings RiskState.caution = settings.minimum_risk_percent
permitted_risk settings RiskState.safe_mode = settings.minimum_risk_percent

-- The metrics of an evaluation, before their constructor checks them.
unfoldable pub account_metrics :
    DecimalContext
    → RiskConstitutionSettings
    → MarketSnapshot
    → AccountRiskContext
    → AccountRiskMetrics
unfolding loss_amount loss_percent account_state permitted_risk
account_metrics c settings s x =
    let equity = s.account.equity in
    let effective_peak = max_ℤ x.cash_flow_adjusted_peak_equity equity in
    let drawdown_percent = loss_percent c effective_peak equity in
    let daily_loss_percent = loss_percent c x.adjusted_day_start_equity equity in
    record {
      account_ref = x.account_ref;
      current_equity = equity;
      effective_peak_equity = effective_peak;
      drawdown_amount = loss_amount effective_peak equity;
      drawdown_percent = drawdown_percent;
      daily_loss_amount = loss_amount x.adjusted_day_start_equity equity;
      daily_loss_percent = daily_loss_percent;
      account_open_position_count = x.account_open_position_count;
      permitted_risk_percent =
          permitted_risk settings
            (account_state settings equity drawdown_percent daily_loss_percent);
    }

unfoldable pub evaluate :
    DecimalContext
    → Fingerprinting
    → RiskConstitutionSettings
    → MarketSnapshot
    → AccountRiskContext
    → Datetime
    → Result RiskFault AccountRiskAssessment
unfolding account_metrics context_reasons limit_reasons check_metrics normalize_utc
evaluate c f settings s x evaluated_at = normalize_utc value_error evaluated_at >>= λ now.
    let m = account_metrics c settings s x in
    check_metrics c m >>= λ metrics. ok (record {
      state = account_state settings m.current_equity m.drawdown_percent m.daily_loss_percent;
      metrics = metrics;
      reasons =
          context_reasons f settings s x now
          ++ limit_reasons settings m.current_equity m.drawdown_percent m.daily_loss_percent;
    })
