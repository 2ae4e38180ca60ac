-- ===== src/Execution/Types.antt =====
-- The failures of execution and the sealed intent, src/ai_trading_team/schemas/execution.py and
-- enums.py, and sequences of checks that raise.
use my_team_tradding.Decimal.{Decimal}
use my_team_tradding.Prelude.{Bool, List, Option, String, [], all, false, none, some, true, ℕ, ◌∷◌}
use my_team_tradding.Risk.Types.{TradeSide, buy, sell}

pub data DemoExecutionFailureCategory : Type 0 where
  qualification_ineligible qualification_evidence_invalid : DemoExecutionFailureCategory
  fake_provider_evidence acceptance_chain_invalid : DemoExecutionFailureCategory
  environment_acceptance_expired environment_mismatch : DemoExecutionFailureCategory
  non_demo_account approval_missing approval_expired : DemoExecutionFailureCategory
  approval_revoked execution_disabled execution_paused : DemoExecutionFailureCategory
  execution_halted claim_not_owned account_mismatch : DemoExecutionFailureCategory
  symbol_mismatch timestamp_semantics_invalid : DemoExecutionFailureCategory
  stale_execution_tick decision_expired preflight_expired : DemoExecutionFailureCategory
  intent_expired spread_limit_exceeded price_drift_exceeded : DemoExecutionFailureCategory
  broker_metadata_changed unsupported_execution_mode : DemoExecutionFailureCategory
  unsupported_filling_mode open_position_conflict : DemoExecutionFailureCategory
  risk_rejected risk_halted fresh_volume_mismatch : DemoExecutionFailureCategory
  protection_unsupported duplicate_execution_intent : DemoExecutionFailureCategory
  storage_integrity_failure order_check_rejected : DemoExecutionFailureCategory
  broker_rejected dispatch_result_unknown partial_fill : DemoExecutionFailureCategory
  fill_outside_policy protective_level_mismatch : DemoExecutionFailureCategory
  broker_identity_mismatch unexpected_broker_position : DemoExecutionFailureCategory
  reconciliation_timeout reconciliation_failed : DemoExecutionFailureCategory
  process_restart adapter_failure unknown : DemoExecutionFailureCategory

pub record DemoExecutionFailure : Type 0 where
  pub code : DemoExecutionFailureCategory
  pub sanitized_detail : String

abbrev pub failure_of : DemoExecutionFailureCategory → String → DemoExecutionFailure
failure_of code detail = record { code = code; sanitized_detail = detail }

pub record DemoOrderIntent : Type 0 where
  pub execution_intent_id : String
  pub client_trade_id : String
  pub intent_digest : String
  pub account_ref : String
  pub environment_ref : String
  pub symbol : String
  pub side : TradeSide
  pub volume : Decimal
  pub reference_price : Decimal
  pub risk_validation_price : Decimal
  pub stop_loss : Decimal
  pub take_profit : Decimal
  pub source_decision_record_digest : String
  pub source_shadow_intent_digest : String
  pub analysis_risk_decision_digest : String
  pub revalidation_risk_decision_digest : String
  pub qualification_status_digest : String
  pub generation_digest : String
  pub environment_acceptance_digest : String
  pub approval_digest : String
  pub execution_policy_digest : String
  pub created_at : ℕ
  pub expires_at : ℕ

abbrev pub same_side : TradeSide → TradeSide → Bool
same_side buy buy = true
same_side sell sell = true
same_side _ _ = false

-- `all(checks)`
abbrev pub all_true : List Bool → Bool
all_true bs = all (λ b. b) bs

-- A sequence of `if …: raise …`: each test with the error that it raises.
abbrev pub Check : Type 0
Check = Bool × DemoExecutionFailure

abbrev pub raise_if : Bool → DemoExecutionFailureCategory → String → Check
raise_if test code detail = (test, failure_of code detail)

unfoldable pub first_failure : List Check → Option DemoExecutionFailure
first_failure [] = none
first_failure ((true, failure) ∷ checks) = some failure
first_failure ((false, failure) ∷ checks) = first_failure checks

-- Calls one after the other: the first that raises ends the sequence.
abbrev pub and_then :
    Option DemoExecutionFailure → Option DemoExecutionFailure → Option DemoExecutionFailure
and_then none rest = rest
and_then (some failure) rest = some failure
