-- ===== src/Risk/Engine.antt =====
-- `RiskEngine.evaluate` of src/ai_trading_team/risk/engine.py and the `RiskDecision` that it builds
-- (src/ai_trading_team/schemas/risk.py). The log line at its end has no effect on the result.
pub mod Total
pub mod Safety
pub mod Banded
use my_team_tradding.Decimal.{Decimal, DecimalContext}
use my_team_tradding.Prelude.{
  Bool, List, Option, String, [], false, if◌then◌else◌, is_empty, ltb, none, not, some, str_eq,
  true, ℕ, ◌&&◌, ◌++◌, ◌||◌, ◌∷◌,
}
use my_team_tradding.Prelude.Result.{Result, err, ok, ◌>>=◌}
use my_team_tradding.Risk.Account.{
  AccountRiskAssessment, AccountRiskMetrics, Fingerprinting, evaluate,
}
use my_team_tradding.Risk.Proposal.{ProposalValidationResult, reason_if, validate}
use my_team_tradding.Risk.Sizing.{
  PositionSizingOutcome, PositionSizingResult, calculate, is_approved_sizing,
}
use my_team_tradding.Risk.Types.{
  AccountRiskContext, MarketSnapshot, RiskConstitutionSettings, RiskDecisionStatus, RiskFault,
  RiskReason, RiskState, SymbolInfo, TradeProposal, approved, caution, evaluation_timestamp_invalid,
  halted, normal, rejected, safe_mode, validation_error, value_error,
}
use my_team_tradding.Time.{Datetime, aware, normalize_utc}

pub record RiskDecision : Type 0 where
  pub cycle_id : String
  pub snapshot_id : String
  pub timestamp : ℕ
  pub proposal_id : String
  pub account_ref : String
  pub symbol : String
  pub status : RiskDecisionStatus
  pub risk_state : RiskState
  pub reasons : List RiskReason
  pub account_metrics : AccountRiskMetrics
  pub position_sizing : Option PositionSizingResult

abbrev pub is_halted : RiskState → Bool
is_halted RiskState.halted = true
is_halted _ = false

-- `RiskDecision.validate_decision_consistency`, by the status.
unfoldable pub is_consistent :
    RiskDecisionStatus → RiskState → List RiskReason → Option PositionSizingResult → Bool
is_consistent RiskDecisionStatus.approved state reasons sizing =
    is_empty reasons && (is_approved_sizing sizing && not (is_halted state))
is_consistent RiskDecisionStatus.rejected state reasons sizing =
    not (is_empty reasons) && (not (is_halted state) && not (is_approved_sizing sizing))
is_consistent RiskDecisionStatus.halted state reasons sizing =
    not (is_empty reasons) && (is_halted state && not (is_approved_sizing sizing))

unfoldable pub build_decision : RiskDecision → Result RiskFault RiskDecision
unfolding is_consistent
build_decision d =
    if str_eq d.account_metrics.account_ref d.account_ref
      && is_consistent d.status d.risk_state d.reasons d.position_sizing
    then ok d
    else err validation_error

unfoldable pub decision_status : RiskState → List RiskReason → RiskDecisionStatus
decision_status RiskState.halted reasons = RiskDecisionStatus.halted
decision_status RiskState.normal [] = RiskDecisionStatus.approved
decision_status RiskState.caution [] = RiskDecisionStatus.approved
decision_status RiskState.safe_mode [] = RiskDecisionStatus.approved
decision_status _ (r ∷ rs) = RiskDecisionStatus.rejected

-- Sizing runs only when nothing has objected and the stop distance is known.
unfoldable pub size_if_clear :
    DecimalContext
    → List RiskReason
    → Option Decimal
    → AccountRiskMetrics
    → SymbolInfo
    → Result RiskFault PositionSizingOutcome
size_if_clear c [] (some stop_distance) metrics info =
    calculate c metrics.current_equity metrics.permitted_risk_percent stop_distance info
size_if_clear c [] none metrics info = ok (record { result = none; reasons = [] })
size_if_clear c (r ∷ rs) stop_distance metrics info = ok (record { result = none; reasons = [] })

-- The reasons that are collected before sizing.
unfoldable pub collected_reasons :
    ProposalValidationResult
    → AccountRiskAssessment
    → TradeProposal
    → MarketSnapshot
    → ℕ
    → List RiskReason
collected_reasons proposal_result account_result p s now =
    proposal_result.reasons
    ++ (account_result.reasons
        ++ reason_if (ltb now s.snapshot_completed_at || ltb now p.timestamp)
            evaluation_timestamp_invalid "evaluation timestamp predates an evaluated input")

unfoldable pub decide_risk :
    TradeProposal
    → MarketSnapshot
    → AccountRiskContext
    → ℕ
    → AccountRiskAssessment
    → List RiskReason
    → PositionSizingOutcome
    → RiskDecision
unfolding decision_status
decide_risk p s x now account_result collected sizing = record {
  cycle_id = s.cycle_id;
  snapshot_id = s.snapshot_id;
  timestamp = now;
  proposal_id = p.proposal_id;
  account_ref = x.account_ref;
  symbol = s.symbol;
  status = decision_status account_result.state (collected ++ sizing.reasons);
  risk_state = account_result.state;
  reasons = collected ++ sizing.reasons;
  account_metrics = account_result.metrics;
  position_sizing = sizing.result;
}

unfoldable pub evaluate_risk :
    DecimalContext
    → Fingerprinting
    → RiskConstitutionSettings
    → TradeProposal
    → MarketSnapshot
    → AccountRiskContext
    → Datetime
    → Result RiskFault RiskDecision
unfolding size_if_clear collected_reasons decide_risk build_decision normalize_utc
evaluate_risk c f settings p s x evaluated_at = normalize_utc value_error evaluated_at >>= λ now.
    validate c settings p s >>= λ proposal_result.
    evaluate c f settings s x (aware now) >>= λ account_result.
    let collected = collected_reasons proposal_result account_result p s now in
    size_if_clear c collected proposal_result.stop_distance account_result.metrics s.symbol_info
    >>= λ sizing. build_decision (decide_risk p s x now account_result collected sizing)
