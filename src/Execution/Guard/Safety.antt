-- ===== src/Execution/Guard/Safety.antt =====
-- What holds when `FinalDispatchGuard.evaluate` passes.
use my_team_tradding.Decimal.{DecimalContext}
use my_team_tradding.Execution.Authority.{validate_execution_authority}
use my_team_tradding.Execution.Authority.Sound.{
  IsApproved, all_true-All, and_then-none, first_failure-none, leb→gt, refused_text, same_string,
  validate_execution_authority-IsApproved,
}
use my_team_tradding.Execution.Guard.{
  FinalDispatchGuardResult, build_result, claim_checks, evaluate_guard, guard_failure, guard_result,
  linkage_checks, linkage_matches, validate_linkage, validate_observation,
}
use my_team_tradding.Execution.Guard.Observed.{IsObserved, observation_sound}
use my_team_tradding.Execution.Lifecycle.{DemoExecutionRecord}
use my_team_tradding.Execution.Records.{
  DemoExecutionApproval, DemoExecutionEnvironmentAcceptance, DemoExecutionPolicy, Digests,
  ExecutionControlState, QualifiedDemoExecutionCandidate, ShadowTradeIntent,
}
use my_team_tradding.Execution.Terminal.{FinalDispatchObservation}
use my_team_tradding.Execution.Types.{DemoExecutionFailure, first_failure}
use my_team_tradding.Prelude.{
  Bool, Option, false, none, not-eq-false, refl, some, str_eq, subst, true, ℕ, ◌<◌, ◌≡◌,
}
use my_team_tradding.Prelude.Result.{ok}
use my_team_tradding.Risk.Engine.{RiskDecision}
use my_team_tradding.Time.{aware}

module _ (c : DecimalContext) (d : Digests) (execution : DemoExecutionRecord)
    (candidate : QualifiedDemoExecutionCandidate) (acceptance : DemoExecutionEnvironmentAcceptance)
    (approval : DemoExecutionApproval) (policy : DemoExecutionPolicy) where
  -- The sealed intent is unchanged and stems from these records and from a fresh risk decision.
  pub record IsLinked (shadow : ShadowTradeIntent) : Type 0 where
    pub sealed_intact : d.of_sealed_intent execution.intent ≡ execution.intent.intent_digest
    pub decision : execution.intent.source_decision_record_digest ≡ d.of_decision candidate.decision
    pub shadow_intent : execution.intent.source_shadow_intent_digest ≡ d.of_shadow_intent shadow
    pub analysis_is :
        execution.intent.analysis_risk_decision_digest ≡ d.of_risk_decision shadow.risk_decision
    pub status_is :
        execution.intent.qualification_status_digest ≡ d.of_status candidate.qualification_status
    pub generation_is :
        execution.intent.generation_digest ≡ d.of_manifest candidate.dependency_manifest
    pub approval_is : execution.intent.approval_digest ≡ d.of_approval approval
    pub acceptance_is : execution.intent.environment_acceptance_digest ≡ d.of_acceptance acceptance
    pub policy_is : execution.intent.execution_policy_digest ≡ d.of_policy policy
    pub revalidation : RiskDecision
    pub revalidated : execution.risk_revalidation ≡ some revalidation
    pub revalidation_is :
        execution.intent.revalidation_risk_decision_digest ≡ d.of_risk_decision revalidation

  pub record IsDispatchable (observation : FinalDispatchObservation) (claim_owned is_revoked : Bool)
      (control_state : ExecutionControlState) (now : ℕ) : Type 0 where
    pub owned : claim_owned ≡ true
    pub live : now < execution.intent.expires_at
    pub shadow : ShadowTradeIntent
    pub approved :
        IsApproved d candidate acceptance approval policy control_state is_revoked now shadow
    pub observed : IsObserved c d execution candidate acceptance approval policy observation now
    pub linked : IsLinked shadow

  revalidated_by :
      (o : Option RiskDecision)
      → (elim o [
        | none ↦ false
        | some decision ↦
            str_eq execution.intent.revalidation_risk_decision_digest (d.of_risk_decision decision)
      ])
        ≡ true
      → (decision : RiskDecision) × (o ≡ some decision)
        × (execution.intent.revalidation_risk_decision_digest ≡ d.of_risk_decision decision)
  revalidated_by none h = cc
  revalidated_by (some decision) h = (decision, refl, same_string h)

  linkage_sound :
      (shadow : ShadowTradeIntent)
      → validate_linkage c d execution candidate acceptance approval policy (some shadow) ≡ none
      → IsLinked shadow
  unfolding validate_linkage linkage_checks
  linkage_sound shadow h =
      let (intact, (matches, done)) =
        first_failure-none
          (linkage_checks c d execution candidate acceptance approval policy shadow) h in
      let (m1, (m2, (m3, (m4, (m5, (m6, (m7, (m8, (m9, (m10, end)))))))))) =
        all_true-All (linkage_matches c d execution candidate acceptance approval policy shadow)
          (not-eq-false _ matches) in
      let (decision, given, same) = revalidated_by execution.risk_revalidation m10 in
      record {
        sealed_intact = refused_text intact;
        decision = same_string m1;
        shadow_intent = same_string m2;
        analysis_is = same_string m3;
        status_is = same_string m4;
        generation_is = same_string m5;
        approval_is = same_string m7;
        acceptance_is = same_string m6;
        policy_is = same_string m8;
        revalidation = decision;
        revalidated = given;
        revalidation_is = same;
      }

  guard_sound :
      (observation : FinalDispatchObservation) (claim_owned is_revoked : Bool)
      (control_state : ExecutionControlState) (now : ℕ)
      → guard_failure c d execution candidate acceptance approval policy observation claim_owned
          is_revoked control_state now
        ≡ none
      → IsDispatchable observation claim_owned is_revoked control_state now
  unfolding guard_failure claim_checks
  guard_sound observation claim_owned is_revoked control_state now h =
      let claims =
        claim_checks c d execution candidate acceptance approval policy claim_owned now in
      let (claim_clear, h1) = and_then-none (first_failure claims) _ h in
      let (approved, h2) =
        and_then-none
          (validate_execution_authority d candidate acceptance approval policy control_state
            is_revoked now)
          _ h1 in
      let (observed, linked) =
        and_then-none
          (validate_observation c d execution candidate acceptance approval policy observation now)
          _ h2 in
      let (owned, (live, done)) = first_failure-none claims claim_clear in
      let (shadow, authority) =
        validate_execution_authority-IsApproved d candidate acceptance approval policy control_state
          is_revoked now approved in
      record {
        owned = not-eq-false _ owned;
        live = leb→gt _ _ live;
        shadow = shadow;
        approved = authority;
        observed =
            observation_sound c d execution candidate acceptance approval policy observation now
              observed;
        linked = linkage_sound shadow (
            subst
              (λ o. validate_linkage c d execution candidate acceptance approval policy o ≡ none)
              authority.has_shadow linked);
      }

  result_of :
      (now : ℕ) (failure : Option DemoExecutionFailure)
      → build_result (guard_result c d execution candidate acceptance approval policy now failure)
        ≡ ok (guard_result c d execution candidate acceptance approval policy now failure)
  unfolding build_result
  result_of now none = refl
  result_of now (some failure) = refl

  passed_means :
      (now : ℕ) (failure : Option DemoExecutionFailure)
      → (guard_result c d execution candidate acceptance approval policy now failure).passed ≡ true
      → failure ≡ none
  passed_means now none h = refl
  passed_means now (some failure) h = cc

  -- At every aware time the final guard returns a result, and when the result passes the order is
  -- dispatchable: the claim is owned, the sealed intent is intact and has not expired, a current
  -- qualification and an unrevoked, effective human approval of exactly these records stand behind
  -- it, and the terminal shows the accepted demo account with no positions, a fresh tick and a
  -- spread and a price drift within the policy.
  pub evaluate_guard-IsDispatchable :
      (observation : FinalDispatchObservation) (claim_owned is_revoked : Bool)
      (control_state : ExecutionControlState) (now : ℕ)
      → (r : FinalDispatchGuardResult) × (evaluate_guard c d execution candidate acceptance approval
            policy observation claim_owned is_revoked control_state
            (aware now)
          ≡ ok r)
        × (r.passed ≡ true → IsDispatchable observation claim_owned is_revoked control_state now)
  unfolding evaluate_guard
  evaluate_guard-IsDispatchable observation claim_owned is_revoked control_state now =
      let failure =
        guard_failure c d execution candidate acceptance approval policy observation claim_owned
          is_revoked control_state now in
      (
        guard_result c d execution candidate acceptance approval policy now failure,
        result_of now failure,
        λ h.
            guard_sound observation claim_owned is_revoked control_state now
              (passed_means now failure h),
      )
