-- ===== src/Execution/Authority.antt =====
-- `validate_execution_authority` of src/ai_trading_team/execution/acceptance.py, at an aware time: the
-- error that it raises, if any.
pub mod Sound
use my_team_tradding.Budget.Types.{ModelProvider, fake}
use my_team_tradding.Execution.Records.{
  ContinuousDecisionRecord, DemoExecutionApproval, DemoExecutionEnvironmentAcceptance,
  DemoExecutionPolicy, Digests, ExecutionControlState, GraduationDisposition,
  QualificationEvidenceValidity, QualifiedDemoExecutionCandidate, ShadowTradeIntent, applies_at,
  eligible_for_demo_review, not_eligible,
}
use my_team_tradding.Execution.Types.{
  Check, DemoExecutionFailure, acceptance_chain_invalid, all_true, and_then, approval_expired,
  approval_missing, approval_revoked, environment_acceptance_expired, environment_mismatch,
  execution_disabled, execution_halted, execution_paused, failure_of, fake_provider_evidence,
  first_failure, qualification_evidence_invalid, qualification_ineligible, raise_if,
  symbol_mismatch, timestamp_semantics_invalid,
}
use my_team_tradding.Prelude.{
  Bool, List, Option, [], any, false, if◌then◌else◌, leb, ltb, none, not, some, str_eq, true, ℕ,
  ◌||◌, ◌∷◌,
}
use my_team_tradding.Risk.Engine.Total.{decision}

abbrev pub control_failure : ExecutionControlState → Option DemoExecutionFailure
control_failure ExecutionControlState.enabled = none
control_failure ExecutionControlState.disabled =
    some (failure_of execution_disabled "DEMO execution control is not enabled")
control_failure ExecutionControlState.paused =
    some (failure_of execution_paused "DEMO execution control is not enabled")
control_failure ExecutionControlState.halted =
    some (failure_of execution_halted "DEMO execution control is not enabled")

abbrev pub is_eligible : GraduationDisposition → Bool
is_eligible eligible_for_demo_review = true
is_eligible not_eligible = false

abbrev pub is_valid_evidence : QualificationEvidenceValidity → Bool
is_valid_evidence QualificationEvidenceValidity.valid = true
is_valid_evidence _ = false

abbrev pub is_fake : ModelProvider → Bool
is_fake fake = true
is_fake _ = false

-- `limit is None or now >= limit`
abbrev pub is_over : ℕ → Option ℕ → Bool
is_over now none = true
is_over now (some limit) = leb limit now

abbrev pub shadow_intent_of : ContinuousDecisionRecord → Option ShadowTradeIntent
shadow_intent_of decision = elim decision.shadow_record [
  | none ↦ none
  | some shadow ↦ shadow.shadow_trade_intent
]

module _ (d : Digests) (candidate : QualifiedDemoExecutionCandidate)
    (acceptance : DemoExecutionEnvironmentAcceptance) (approval : DemoExecutionApproval)
    (policy : DemoExecutionPolicy) where
  -- The checks behind the control state and before the shadow intent is needed.
  unfoldable pub standing_checks : Bool → ℕ → List Check
  standing_checks is_revoked now =
      let status = candidate.qualification_status in
      let validity = status.validity_assessment in
      let manifest = candidate.dependency_manifest in
      let timestamps = manifest.symbol_timestamp_acceptance in
      raise_if (not (is_eligible status.graduation_disposition)) qualification_ineligible
        "qualification did not pass human DEMO-review eligibility"
      ∷ raise_if (not (is_valid_evidence validity.state)) qualification_evidence_invalid
          "qualification evidence is not currently valid"
      ∷ raise_if (ltb now validity.assessed_at || is_over now validity.valid_until)
          qualification_evidence_invalid "qualification validity window is not current"
      ∷ raise_if
          (not (str_eq candidate.dependency_manifest_digest (d.of_manifest manifest))
            || not
                (str_eq validity.dependency_manifest_digest candidate.dependency_manifest_digest))
          acceptance_chain_invalid "qualified material generation digest is incompatible"
      ∷ raise_if (not (str_eq candidate.qualification_status_digest (d.of_status status)))
          acceptance_chain_invalid "qualification status digest is incompatible"
      ∷ raise_if (any (λ item. is_fake item.provider) manifest.assignments) fake_provider_evidence
          "fake-provider evidence cannot authorize DEMO execution"
      ∷ raise_if (any (λ item. is_over now item.acceptance_valid_until) manifest.assignments)
          acceptance_chain_invalid
          "one or more real-provider acceptance records are absent or expired"
      ∷ raise_if
          (leb timestamps.expires_at now
            || not (str_eq timestamps.symbol candidate.decision.symbol))
          timestamp_semantics_invalid
          "symbol timestamp acceptance is absent, expired, or incompatible"
      ∷ raise_if (not (str_eq acceptance.execution_policy_digest (d.of_policy policy)))
          environment_mismatch "environment acceptance does not bind the current execution policy"
      ∷ raise_if (leb acceptance.expires_at now) environment_acceptance_expired
          "DEMO environment acceptance has expired"
      ∷ raise_if (not (str_eq acceptance.symbol candidate.decision.symbol)) symbol_mismatch
          "accepted DEMO symbol differs from the qualified decision symbol"
      ∷ raise_if is_revoked approval_revoked "human DEMO approval has been revoked"
      ∷ raise_if (not (applies_at approval now)) approval_expired
          "human DEMO approval is not effective"
      ∷ []

  -- `expected`
  unfoldable pub approval_matches : ShadowTradeIntent → List Bool
  approval_matches intent =
      let status = candidate.qualification_status in
      let manifest = candidate.dependency_manifest in
      str_eq approval.candidate_id candidate.candidate_id
      ∷ str_eq approval.source_decision_record_digest (d.of_decision candidate.decision)
      ∷ str_eq approval.source_shadow_intent_digest (d.of_shadow_intent intent)
      ∷ str_eq approval.analysis_proposal_digest (d.of_proposal intent.proposal)
      ∷ str_eq approval.analysis_risk_decision_digest (d.of_risk_decision intent.risk_decision)
      ∷ str_eq approval.qualification_run_id status.qualification_run_id
      ∷ str_eq approval.qualification_status_digest candidate.qualification_status_digest
      ∷ str_eq approval.generation_id manifest.generation_id
      ∷ str_eq approval.generation_digest candidate.dependency_manifest_digest
      ∷ str_eq approval.environment_acceptance_id acceptance.acceptance_id
      ∷ str_eq approval.environment_acceptance_digest (d.of_acceptance acceptance)
      ∷ str_eq approval.account_ref acceptance.account_ref
      ∷ str_eq approval.environment_ref acceptance.environment_ref
      ∷ str_eq approval.symbol acceptance.symbol
      ∷ str_eq approval.execution_policy_digest (d.of_policy policy)
      ∷ []

  unfoldable pub approval_failure : Option ShadowTradeIntent → Option DemoExecutionFailure
  unfolding approval_matches
  approval_failure none =
      some (failure_of qualification_ineligible "qualified decision has no immutable SHADOW intent")
  approval_failure (some intent) =
      if not (all_true (approval_matches intent))
      then some (
          failure_of approval_missing
            "human approval does not exactly authorize this generation and environment")
      else none

  unfoldable pub validate_execution_authority :
      ExecutionControlState → Bool → ℕ → Option DemoExecutionFailure
  unfolding standing_checks first_failure approval_failure
  validate_execution_authority control_state is_revoked now =
      and_then (control_failure control_state) (
        and_then (first_failure (standing_checks is_revoked now))
          (approval_failure (shadow_intent_of candidate.decision)))
