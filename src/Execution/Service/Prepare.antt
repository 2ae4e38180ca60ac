-- ===== src/Execution/Service/Prepare.antt =====
-- `execute` of src/ai_trading_team/execution/service.py: the steps before the claim in their order, and
-- the whole method.
use my_team_tradding.Decimal.{Decimal}
use my_team_tradding.Execution.Authority.{shadow_intent_of}
use my_team_tradding.Execution.Lifecycle.{DemoExecutionRecord}
use my_team_tradding.Execution.Preflight.{
  DemoExecutionPreflight, FreshExecutionObservation, validate_fresh,
}
use my_team_tradding.Execution.Records.{
  DemoExecutionApproval, DemoExecutionEnvironmentAcceptance, DemoExecutionPolicy,
  QualifiedDemoExecutionCandidate, ShadowTradeIntent,
}
use my_team_tradding.Execution.Service.{DemoExecutionAdapter, Method, now}
use my_team_tradding.Execution.Service.Dispatch.{execute_intent}
use my_team_tradding.Execution.Service.Revalidation.{
  Arrangement, Prepared, fresh_risk_revalidation, require_single_approval, required_price,
  required_shadow, seal_intent, validate_authority, validate_risk_generation,
}
use my_team_tradding.Execution.Types.{DemoOrderIntent}
use my_team_tradding.Prelude.{String, ℕ, ◌*◌, ◌+◌}
use my_team_tradding.Prelude.State.{lifts, returns, ◌>>=◌}
use my_team_tradding.Risk.Engine.{RiskDecision}

module _ (a : Arrangement) (candidate : QualifiedDemoExecutionCandidate)
    (acceptance : DemoExecutionEnvironmentAcceptance) (policy : DemoExecutionPolicy) where
  -- `_seal_intent`
  unfoldable pub unsealed :
      DemoExecutionApproval
      → ShadowTradeIntent
      → DemoExecutionPreflight
      → RiskDecision
      → Decimal
      → Decimal
      → Decimal
      → ℕ
      → DemoOrderIntent
  unsealed approval shadow facts renewed volume stop_loss take_profit created_at =
      let d = a.digests in
      let id =
        a.identities.execution_intent_id (d.of_shadow_intent shadow) acceptance.environment_ref
          (d.of_policy policy) in
      record {
        execution_intent_id = id;
        client_trade_id = a.identities.client_trade_id id;
        intent_digest = "";
        account_ref = acceptance.account_ref;
        environment_ref = acceptance.environment_ref;
        symbol = candidate.decision.symbol;
        side = shadow.proposal.side;
        volume = volume;
        reference_price = facts.reference_price;
        risk_validation_price = facts.risk_validation_price;
        stop_loss = stop_loss;
        take_profit = take_profit;
        source_decision_record_digest = d.of_decision candidate.decision;
        source_shadow_intent_digest = d.of_shadow_intent shadow;
        analysis_risk_decision_digest = d.of_risk_decision shadow.risk_decision;
        revalidation_risk_decision_digest = d.of_risk_decision renewed;
        qualification_status_digest = d.of_status candidate.qualification_status;
        generation_digest = d.of_manifest candidate.dependency_manifest;
        environment_acceptance_digest = d.of_acceptance acceptance;
        approval_digest = d.of_approval approval;
        execution_policy_digest = d.of_policy policy;
        created_at = created_at;
        expires_at = created_at + policy.intent_ttl_seconds * 1000000;
      }

  unfoldable pub seals :
      DemoExecutionApproval
      → ShadowTradeIntent
      → DemoExecutionPreflight
      → RiskDecision
      → Decimal
      → ℕ
      → Method Prepared
  seals approval shadow facts renewed volume created_at =
      lifts (required_price shadow.proposal.stop_loss) >>= λ stop_loss.
      lifts (required_price shadow.proposal.take_profit) >>= λ take_profit.
      lifts (
        seal_intent a.digests
          (unsealed approval shadow facts renewed volume stop_loss take_profit created_at))
      >>= λ sealed_intent.
          returns (record { approval = approval; intent = sealed_intent; revalidation = renewed })

  -- From the fresh decision on.
  unfoldable pub renews :
      DemoExecutionApproval
      → ShadowTradeIntent
      → FreshExecutionObservation
      → DemoExecutionPreflight
      → Method Prepared
  renews approval shadow observation facts =
      lifts (fresh_risk_revalidation a candidate acceptance policy shadow observation facts)
      >>= λ renewed.
          now a.clock >>= λ created_at. seals approval shadow facts renewed.0 renewed.1 created_at

  -- From the capture on.
  unfoldable pub observes : ℕ → DemoExecutionApproval → Method Prepared
  observes started approval =
      lifts (
        a.capture candidate.decision.cycle_id
          (a.identities.execution_snapshot_id candidate.decision.cycle_id started))
      >>= λ observation. now a.clock >>= λ completed.
          lifts (required_shadow (shadow_intent_of candidate.decision)) >>= λ shadow.
          lifts (
            validate_fresh a.context a.fingerprinting a.digests acceptance policy candidate.decision
              shadow observation started completed)
          >>= λ facts. renews approval shadow observation facts

  unfoldable pub prepare : Method Prepared
  prepare = now a.clock >>= λ started.
      require_single_approval a candidate acceptance policy started >>= λ approval.
      validate_authority a candidate acceptance policy approval started >>= λ authorized.
      lifts (validate_risk_generation a candidate acceptance policy) >>= λ current.
      observes started approval

  unfoldable pub execute : DemoExecutionAdapter → String → Method DemoExecutionRecord
  execute adapter claim_owner = prepare >>= λ p.
      execute_intent a.clock adapter a.context a.digests candidate acceptance p.approval policy
        claim_owner p.intent p.revalidation
