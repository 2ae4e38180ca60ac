-- ===== src/Execution/Guard.antt =====
-- `FinalDispatchGuard` of src/ai_trading_team/execution/preflight.py.
pub mod Observed
pub mod Safety
use my_team_tradding.Decimal.{DecimalContext}
use my_team_tradding.Execution.Authority.{shadow_intent_of, validate_execution_authority}
use my_team_tradding.Execution.Lifecycle.{DemoExecutionRecord}
use my_team_tradding.Execution.Records.{
  DemoExecutionApproval, DemoExecutionEnvironmentAcceptance, DemoExecutionPolicy, Digests,
  ExecutionControlState, QualifiedDemoExecutionCandidate, ShadowTradeIntent,
}
use my_team_tradding.Execution.Terminal.{
  FinalDispatchObservation, account_checks, capability_checks, quote_checks, reference_of,
}
use my_team_tradding.Execution.Types.{
  Check, DemoExecutionFailure, DemoOrderIntent, acceptance_chain_invalid, all_true, and_then,
  claim_not_owned, failure_of, first_failure, intent_expired, qualification_ineligible, raise_if,
  unknown,
}
use my_team_tradding.Prelude.{
  Bool, List, Option, String, [], false, if◌then◌else◌, leb, none, not, some, str_eq, true, ℕ, ◌∷◌,
}
use my_team_tradding.Prelude.Result.{Result, err, ok, ◌>>=◌}
use my_team_tradding.Risk.Engine.Total.{decision}
use my_team_tradding.Time.{Datetime, normalize_utc}

pub record FinalDispatchGuardResult : Type 0 where
  pub execution_intent_id : String
  pub evaluated_at : ℕ
  pub passed : Bool
  pub failure : Option DemoExecutionFailure

pub data GuardFault : Type 0 where
  execution_error : DemoExecutionFailure → GuardFault
  invalid_result : GuardFault

-- `validate_result`
unfoldable pub build_result : FinalDispatchGuardResult → Result GuardFault FinalDispatchGuardResult
build_result r = elim r.failure [
  | none ↦ if r.passed then ok r else err invalid_result
  | some failure ↦ if r.passed then err invalid_result else ok r
]

module _ (c : DecimalContext) (d : Digests) (execution : DemoExecutionRecord)
    (candidate : QualifiedDemoExecutionCandidate) (acceptance : DemoExecutionEnvironmentAcceptance)
    (approval : DemoExecutionApproval) (policy : DemoExecutionPolicy) where
  abbrev pub sealed : DemoOrderIntent
  sealed = execution.intent

  unfoldable pub validate_observation : FinalDispatchObservation → ℕ → Option DemoExecutionFailure
  unfolding account_checks quote_checks capability_checks first_failure
  validate_observation observation now =
      and_then (first_failure (account_checks d acceptance sealed observation)) (
        and_then
          (first_failure (
            quote_checks c policy observation.tick (reference_of sealed.side observation.tick)
              sealed.reference_price observation.symbol_info.trade_tick_size now))
          (first_failure (
            capability_checks d acceptance policy observation.symbol_info
              observation.capabilities)))

  -- `record.risk_revalidation is not None and …`
  abbrev pub is_revalidated : Bool
  is_revalidated = elim execution.risk_revalidation [
    | none ↦ false
    | some decision ↦ str_eq sealed.revalidation_risk_decision_digest (d.of_risk_decision decision)
  ]

  abbrev pub has_revalidation : Bool
  has_revalidation = elim execution.risk_revalidation [ none ↦ false | some decision ↦ true ]

  unfoldable pub linkage_matches : ShadowTradeIntent → List Bool
  linkage_matches shadow =
      str_eq sealed.source_decision_record_digest (d.of_decision candidate.decision)
      ∷ str_eq sealed.source_shadow_intent_digest (d.of_shadow_intent shadow)
      ∷ str_eq sealed.analysis_risk_decision_digest (d.of_risk_decision shadow.risk_decision)
      ∷ str_eq sealed.qualification_status_digest (d.of_status candidate.qualification_status)
      ∷ str_eq sealed.generation_digest (d.of_manifest candidate.dependency_manifest)
      ∷ str_eq sealed.environment_acceptance_digest (d.of_acceptance acceptance)
      ∷ str_eq sealed.approval_digest (d.of_approval approval)
      ∷ str_eq sealed.execution_policy_digest (d.of_policy policy)
      ∷ has_revalidation
      ∷ is_revalidated
      ∷ []

  unfoldable pub linkage_checks : ShadowTradeIntent → List Check
  unfolding linkage_matches
  linkage_checks shadow =
      raise_if (not (str_eq (d.of_sealed_intent sealed) sealed.intent_digest))
        acceptance_chain_invalid "sealed intent digest changed"
      ∷ raise_if (not (all_true (linkage_matches shadow))) acceptance_chain_invalid
          "intent, RiskDecision, or qualification linkage changed"
      ∷ []

  unfoldable pub validate_linkage : Option ShadowTradeIntent → Option DemoExecutionFailure
  unfolding linkage_checks first_failure
  validate_linkage none =
      some (failure_of qualification_ineligible "qualified decision has no approved shadow intent")
  validate_linkage (some shadow) = first_failure (linkage_checks shadow)

  unfoldable pub claim_checks : Bool → ℕ → List Check
  claim_checks claim_owned now =
      raise_if (not claim_owned) claim_not_owned "execution claim is no longer uniquely owned"
      ∷ raise_if (leb sealed.expires_at now) intent_expired "sealed intent expired before dispatch"
      ∷ []

  -- The body of the `try`: the error that ends it, if any.
  unfoldable pub guard_failure :
      FinalDispatchObservation
      → Bool
      → Bool
      → ExecutionControlState
      → ℕ
      → Option DemoExecutionFailure
  unfolding first_failure claim_checks validate_execution_authority validate_observation
      validate_linkage
  guard_failure observation claim_owned is_revoked control_state now =
      and_then (first_failure (claim_checks claim_owned now)) (
        and_then
          (validate_execution_authority d candidate acceptance approval policy control_state
            is_revoked now)
          (and_then (validate_observation observation now)
            (validate_linkage (shadow_intent_of candidate.decision))))

  abbrev pub guard_result : ℕ → Option DemoExecutionFailure → FinalDispatchGuardResult
  guard_result now failure = record {
    execution_intent_id = sealed.execution_intent_id;
    evaluated_at = now;
    passed = elim failure [ none ↦ true | some f ↦ false ];
    failure = failure;
  }

  unfoldable pub evaluate_guard :
      FinalDispatchObservation
      → Bool
      → Bool
      → ExecutionControlState
      → Datetime
      → Result GuardFault FinalDispatchGuardResult
  unfolding guard_failure build_result normalize_utc
  evaluate_guard observation claim_owned is_revoked control_state evaluated_at =
      normalize_utc (execution_error (failure_of unknown "execution time must be aware"))
        evaluated_at
      >>= λ now.
          build_result
            (guard_result now (guard_failure observation claim_owned is_revoked control_state now))
