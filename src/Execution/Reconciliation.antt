-- ===== src/Execution/Reconciliation.antt =====
-- `reconcile_broker_evidence` of src/ai_trading_team/execution/reconciliation.py, with the records of
-- schemas/execution.py that it reads and builds. Instants are microseconds.
pub mod Judged
pub mod Exact
use my_team_tradding.Decimal.{Decimal}
use my_team_tradding.Execution.Types.{
  DemoExecutionFailure, DemoOrderIntent, all_true, broker_identity_mismatch, failure_of,
  fill_outside_policy, partial_fill, protective_level_mismatch, reconciliation_failed,
  reconciliation_timeout, same_side,
}
use my_team_tradding.Prelude.{
  Bool, List, Option, String, [], false, if◌then◌else◌, leb, length, none, not, some, str_eq, true,
  ℕ, ◌&&◌, ◌++◌, ◌==◌, ◌||◌, ◌∷◌,
}
use my_team_tradding.Prelude.Int.{eqb_ℤ, ltb_ℤ}
use my_team_tradding.Prelude.Result.{Result, err, ok}
use my_team_tradding.Risk.Types.{RiskFault, TradeSide, buy, sell, validation_error}

pub data DemoReconciliationStatus : Type 0 where
  confirmed not_found mismatch : DemoReconciliationStatus

pub record CompositeBrokerEvidence : Type 0 where
  pub account_ref : String
  pub environment_ref : String
  pub symbol : String
  pub side : TradeSide
  pub volume : Decimal
  pub dispatch_started_at : ℕ
  pub dispatch_completed_at : ℕ
  pub observed_at : ℕ
  pub broker_order_id : Option ℕ
  pub broker_deal_id : Option ℕ
  pub resulting_position_id : Option ℕ
  pub fill_price : Option Decimal
  pub stop_loss : Option Decimal
  pub take_profit : Option Decimal

pub data DemoSubmissionDisposition : Type 0 where
  accepted rejected unknown : DemoSubmissionDisposition

pub record DemoSubmissionReceipt : Type 0 where
  pub execution_intent_id : String
  pub intent_digest : String
  pub disposition : DemoSubmissionDisposition
  pub dispatch_started_at : ℕ
  pub dispatch_completed_at : ℕ

pub record DemoReconciliationRecord : Type 0 where
  pub execution_intent_id : String
  pub intent_digest : String
  pub status : DemoReconciliationStatus
  pub reconciled_at : ℕ
  pub evidence : List CompositeBrokerEvidence
  pub failure : Option DemoExecutionFailure

-- `validate_status`: pydantic raises `ValidationError` where it does not hold.
unfoldable pub is_valid_record : DemoReconciliationRecord → Bool
is_valid_record r = elim r.status [
  | confirmed ↦ length r.evidence == 1 && elim r.failure [ none ↦ true | some f ↦ false ]
  | _ ↦ elim r.failure [ none ↦ false | some f ↦ true ]
]

unfoldable pub build_record : DemoReconciliationRecord → Result RiskFault DemoReconciliationRecord
unfolding is_valid_record
build_record r = if is_valid_record r then ok r else err validation_error

abbrev pub is_given : Option ℕ → Bool
is_given none = false
is_given (some n) = true

-- `base_identity_matches[:4]`
abbrev pub party_matches : DemoOrderIntent → CompositeBrokerEvidence → List Bool
party_matches intent item =
    str_eq item.account_ref intent.account_ref
    ∷ str_eq item.environment_ref intent.environment_ref
    ∷ str_eq item.symbol intent.symbol
    ∷ same_side item.side intent.side
    ∷ []

-- `base_identity_matches[4:]`
abbrev pub dispatch_matches : DemoSubmissionReceipt → CompositeBrokerEvidence → List Bool
dispatch_matches receipt item =
    leb receipt.dispatch_started_at item.dispatch_started_at
    ∷ leb item.dispatch_completed_at item.observed_at
    ∷ (is_given item.broker_order_id || is_given item.broker_deal_id)
    ∷ is_given item.resulting_position_id
    ∷ []

abbrev pub is_level : Option Decimal → Decimal → Bool
is_level none price = false
is_level (some level) price = eqb_ℤ level price

abbrev pub is_adverse_fill : TradeSide → Decimal → Decimal → Bool
is_adverse_fill buy fill price = ltb_ℤ price fill
is_adverse_fill sell fill price = ltb_ℤ fill price

-- The checks of the only item, in order: the failure of the first that it does not pass.
unfoldable pub item_failure :
    DemoOrderIntent → DemoSubmissionReceipt → CompositeBrokerEvidence → Option DemoExecutionFailure
item_failure intent receipt item =
    let base = party_matches intent item ++ dispatch_matches receipt item in
    let identity =
      party_matches intent item
      ++ (eqb_ℤ item.volume intent.volume ∷ dispatch_matches receipt item) in
    if all_true base && not (eqb_ℤ item.volume intent.volume)
    then some (
        failure_of partial_fill
          "broker evidence volume differs from the sealed all-or-nothing intent")
    else if not (all_true identity)
    then some (
        failure_of broker_identity_mismatch
          "composite broker identity differs from the sealed intent")
    else elim item.fill_price [
      | none ↦ some (failure_of reconciliation_failed "broker evidence has no confirmed fill price")
      | some fill ↦
          if is_adverse_fill intent.side fill intent.risk_validation_price
          then some (
              failure_of fill_outside_policy
                "confirmed fill exceeded the M3 worst-case risk-validation price")
          else if not (is_level item.stop_loss intent.stop_loss)
              || not (is_level item.take_profit intent.take_profit)
          then some (
              failure_of protective_level_mismatch
                "broker position does not retain the mandatory sealed SL and TP")
          else none
    ]

-- `_failure`
abbrev pub failed :
    DemoOrderIntent
    → DemoReconciliationStatus
    → DemoExecutionFailure
    → ℕ
    → List CompositeBrokerEvidence
    → DemoReconciliationRecord
failed intent status failure reconciled_at evidence = record {
  execution_intent_id = intent.execution_intent_id;
  intent_digest = intent.intent_digest;
  status = status;
  reconciled_at = reconciled_at;
  evidence = evidence;
  failure = some failure;
}

-- The record behind every check.
abbrev pub confirmation : DemoOrderIntent → ℕ → CompositeBrokerEvidence → DemoReconciliationRecord
confirmation intent reconciled_at item = record {
  execution_intent_id = intent.execution_intent_id;
  intent_digest = intent.intent_digest;
  status = confirmed;
  reconciled_at = reconciled_at;
  evidence = item ∷ [];
  failure = none;
}

abbrev pub judgement :
    DemoOrderIntent
    → ℕ
    → CompositeBrokerEvidence
    → Option DemoExecutionFailure
    → DemoReconciliationRecord
judgement intent reconciled_at item none = confirmation intent reconciled_at item
judgement intent reconciled_at item (some failure) =
    failed intent mismatch failure reconciled_at (item ∷ [])

unfoldable pub reconcile_broker_evidence :
    DemoOrderIntent
    → DemoSubmissionReceipt
    → List CompositeBrokerEvidence
    → ℕ
    → Result RiskFault DemoReconciliationRecord
unfolding item_failure build_record
reconcile_broker_evidence intent receipt [] reconciled_at = build_record (
    failed intent not_found
      (failure_of reconciliation_timeout
        "no conclusive broker evidence was found; submission remains uncertain")
      reconciled_at [])
reconcile_broker_evidence intent receipt (item ∷ []) reconciled_at =
    build_record (judgement intent reconciled_at item (item_failure intent receipt item))
reconcile_broker_evidence intent receipt (item ∷ (other ∷ rest)) reconciled_at = build_record (
    failed intent mismatch
      (failure_of broker_identity_mismatch
        "broker reconciliation returned multiple candidate executions")
      reconciled_at (item ∷ (other ∷ rest)))
