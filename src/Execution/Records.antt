-- ===== src/Execution/Records.antt =====
-- The records of authority, src/ai_trading_team/schemas/execution.py, and those of the qualification
-- that they rest on, src/ai_trading_team/schemas/qualification.py, observation.py and shadow.py. A
-- record has the fields that the modelled code reads.
use my_team_tradding.Budget.Types.{ModelProvider}
use my_team_tradding.Decimal.{Decimal}
use my_team_tradding.Execution.Types.{DemoOrderIntent}
use my_team_tradding.Prelude.{Bool, List, Option, String, leb, ltb, ℕ, ◌&&◌}
use my_team_tradding.Risk.Engine.{RiskDecision}
use my_team_tradding.Risk.Types.{SymbolInfo, TradeProposal}

pub data ExecutionControlState : Type 0 where
  disabled enabled paused halted : ExecutionControlState

pub data GraduationDisposition : Type 0 where
  eligible_for_demo_review not_eligible : GraduationDisposition

pub data QualificationEvidenceValidity : Type 0 where
  valid expired invalidated contaminated : QualificationEvidenceValidity

pub data DemoOrderExecutionMode : Type 0 where
  request instant market exchange : DemoOrderExecutionMode

pub data DemoFillingMode : Type 0 where
  fok ioc return_mode : DemoFillingMode

pub record ShadowTradeIntent : Type 0 where
  pub cycle_id : String
  pub snapshot_id : String
  pub proposal : TradeProposal
  pub risk_decision : RiskDecision
  pub selected_volume : Decimal
  pub hypothetical_entry : Decimal

pub record ShadowRecord : Type 0 where
  pub shadow_trade_intent : Option ShadowTradeIntent

pub record ContinuousDecisionRecord : Type 0 where
  pub cycle_id : String
  pub recorded_at : ℕ
  pub symbol : String
  pub shadow_record : Option ShadowRecord

pub record QualifiedRoleAssignment : Type 0 where
  pub provider : ModelProvider
  pub acceptance_valid_until : Option ℕ

pub record SymbolTimestampAcceptance : Type 0 where
  pub symbol : String
  pub expires_at : ℕ

pub record QualificationDependencyManifest : Type 0 where
  pub generation_id : String
  pub assignments : List QualifiedRoleAssignment
  pub symbol_timestamp_acceptance : SymbolTimestampAcceptance
  pub risk_engine_version : String
  pub risk_policy_digest : String

pub record QualificationValidityAssessment : Type 0 where
  pub state : QualificationEvidenceValidity
  pub assessed_at : ℕ
  pub valid_until : Option ℕ
  pub dependency_manifest_digest : String

pub record CurrentQualificationStatus : Type 0 where
  pub qualification_run_id : String
  pub graduation_disposition : GraduationDisposition
  pub validity_assessment : QualificationValidityAssessment

pub record QualifiedDemoExecutionCandidate : Type 0 where
  pub candidate_id : String
  pub decision : ContinuousDecisionRecord
  pub qualification_status : CurrentQualificationStatus
  pub dependency_manifest : QualificationDependencyManifest
  pub dependency_manifest_digest : String
  pub qualification_status_digest : String

pub record DemoExecutionEnvironmentAcceptance : Type 0 where
  pub acceptance_id : String
  pub account_ref : String
  pub environment_ref : String
  pub symbol : String
  pub symbol_capability_digest : String
  pub execution_policy_digest : String
  pub expires_at : ℕ

pub record DemoExecutionApproval : Type 0 where
  pub approval_id : String
  pub candidate_id : String
  pub source_decision_record_digest : String
  pub source_shadow_intent_digest : String
  pub analysis_proposal_digest : String
  pub analysis_risk_decision_digest : String
  pub qualification_run_id : String
  pub qualification_status_digest : String
  pub generation_id : String
  pub generation_digest : String
  pub environment_acceptance_id : String
  pub environment_acceptance_digest : String
  pub account_ref : String
  pub environment_ref : String
  pub symbol : String
  pub execution_policy_digest : String
  pub effective_from : ℕ
  pub expires_at : ℕ

-- `DemoExecutionApproval.applies_at`
abbrev pub applies_at : DemoExecutionApproval → ℕ → Bool
applies_at approval moment = leb approval.effective_from moment && ltb moment approval.expires_at

pub record DemoExecutionPolicy : Type 0 where
  pub maximum_preflight_seconds : ℕ
  pub maximum_decision_age_seconds : ℕ
  pub maximum_adverse_slippage_ticks : Decimal
  pub intent_ttl_seconds : ℕ
  pub maximum_tick_age_seconds : ℕ
  pub maximum_spread_ticks : Decimal
  pub maximum_price_drift_ticks : Decimal
  pub supported_execution_modes : List DemoOrderExecutionMode
  pub filling_mode : DemoFillingMode

pub record DemoSymbolExecutionCapabilities : Type 0 where
  pub symbol_info_digest : String
  pub execution_mode : DemoOrderExecutionMode
  pub filling_modes : List DemoFillingMode
  pub market_order_allowed : Bool
  pub stop_loss_allowed : Bool
  pub take_profit_allowed : Bool

-- `content_digest` at the records it is taken of, `capability_definition_digest`,
-- `symbol_definition_digest`, and the digest that `verify_demo_order_intent` compares: SHA-256 of
-- the canonical JSON that pydantic and `json` print. The fields that a record here leaves out are
-- held fixed.
pub record Digests : Type 0 where
  pub of_decision : ContinuousDecisionRecord → String
  pub of_shadow_intent : ShadowTradeIntent → String
  pub of_proposal : TradeProposal → String
  pub of_risk_decision : RiskDecision → String
  pub of_status : CurrentQualificationStatus → String
  pub of_manifest : QualificationDependencyManifest → String
  pub of_acceptance : DemoExecutionEnvironmentAcceptance → String
  pub of_approval : DemoExecutionApproval → String
  pub of_policy : DemoExecutionPolicy → String
  pub of_sealed_intent : DemoOrderIntent → String
  pub of_capabilities : DemoSymbolExecutionCapabilities → String
  pub of_symbol_info : SymbolInfo → String
