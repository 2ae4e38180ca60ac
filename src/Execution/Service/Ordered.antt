-- ===== src/Execution/Service/Ordered.antt =====
-- What the intent says that `_seal_intent` of src/ai_trading_team/execution/service.py makes.
use my_team_tradding.Decimal.{Decimal}
use my_team_tradding.Execution.Preflight.{DemoExecutionPreflight}
use my_team_tradding.Execution.Records.{
  DemoExecutionApproval, DemoExecutionEnvironmentAcceptance, DemoExecutionPolicy,
  QualifiedDemoExecutionCandidate, ShadowTradeIntent,
}
use my_team_tradding.Execution.Service.{World}
use my_team_tradding.Execution.Service.Prepare.{seals, unsealed}
use my_team_tradding.Execution.Service.Prepared.{
  Protects, pair_of, required_price-some, seal_intent-IsSealed,
}
use my_team_tradding.Execution.Service.Revalidation.{
  Arrangement, Prepared, required_price, seal_intent,
}
use my_team_tradding.Execution.Types.{DemoOrderIntent}
use my_team_tradding.Prelude.{ap, refl, some, subst, sym, ℕ, ◌*◌, ◌+◌, ◌<◌, ◌∙◌, ◌≡◌}
use my_team_tradding.Prelude.Int.{pos, ◌<ℤ◌}
use my_team_tradding.Prelude.Result.{ok, ok-injective}
use my_team_tradding.Prelude.State.{>>=-returned, lifts}
use my_team_tradding.Risk.Engine.{RiskDecision}

module _ (a : Arrangement) (candidate : QualifiedDemoExecutionCandidate)
    (acceptance : DemoExecutionEnvironmentAcceptance) (policy : DemoExecutionPolicy) where
  -- The order is for the analysed trade at the volume and the levels that were analysed, at the prices
  -- of the facts, in the accepted environment, under the approval and with the fresh decision that go
  -- with it; its seal is the digest of the rest.
  pub record IsOrder (shadow : ShadowTradeIntent) (facts : DemoExecutionPreflight) (p : Prepared)
      : Type 0 where
    pub symbol : p.intent.symbol ≡ candidate.decision.symbol
    pub side : p.intent.side ≡ shadow.proposal.side
    pub volume : p.intent.volume ≡ shadow.selected_volume
    pub volume_pos : pos 0 <ℤ p.intent.volume
    pub reference : p.intent.reference_price ≡ facts.reference_price
    pub reached : p.intent.risk_validation_price ≡ facts.risk_validation_price
    pub stop : shadow.proposal.stop_loss ≡ some p.intent.stop_loss
    pub target : shadow.proposal.take_profit ≡ some p.intent.take_profit
    pub protected_by :
        Protects p.intent.side p.intent.stop_loss p.intent.risk_validation_price
          p.intent.take_profit
    pub account : p.intent.account_ref ≡ acceptance.account_ref
    pub environment : p.intent.environment_ref ≡ acceptance.environment_ref
    pub under_approval : p.intent.approval_digest ≡ a.digests.of_approval p.approval
    pub under_acceptance :
        p.intent.environment_acceptance_digest ≡ a.digests.of_acceptance acceptance
    pub under_policy : p.intent.execution_policy_digest ≡ a.digests.of_policy policy
    pub from_decision :
        p.intent.source_decision_record_digest ≡ a.digests.of_decision candidate.decision
    pub from_shadow : p.intent.source_shadow_intent_digest ≡ a.digests.of_shadow_intent shadow
    pub from_renewed :
        p.intent.revalidation_risk_decision_digest ≡ a.digests.of_risk_decision p.revalidation
    pub lasting : p.intent.created_at < p.intent.expires_at
    pub expiry : p.intent.expires_at ≡ p.intent.created_at + policy.intent_ttl_seconds * 1000000
    pub seal :
        p.intent.intent_digest ≡ a.digests.of_sealed_intent (record p.intent { intent_digest = "" })

  pub seals-IsOrder :
      (approval : DemoExecutionApproval) (shadow : ShadowTradeIntent)
      (facts : DemoExecutionPreflight) (fresh_decision : RiskDecision) (volume : Decimal)
      (created_at : ℕ) (w w' : World) (p : Prepared)
      → volume ≡ shadow.selected_volume
      → seals a candidate acceptance policy approval shadow facts fresh_decision volume created_at w
        ≡ (ok p, w')
      → (IsOrder shadow facts p)
        × (p.approval ≡ approval)
        × (p.revalidation ≡ fresh_decision)
        × (p.intent.volume ≡ volume)
        × (p.intent.created_at ≡ created_at)
        × (w ≡ w')
  unfolding seals unsealed
  seals-IsOrder approval shadow facts fresh_decision volume created_at w w' p same h =
      let (stop, w1, stopped, h1) =
        >>=-returned (lifts (required_price shadow.proposal.stop_loss)) _ w h in
      let (target, w2, targeted, h2) =
        >>=-returned (lifts (required_price shadow.proposal.take_profit)) _ w1 h1 in
      let bare =
        unsealed a candidate acceptance policy approval shadow facts fresh_decision volume stop
          target created_at in
      let (sealed_intent, w3, was_sealed, h3) =
        >>=-returned (lifts (seal_intent a.digests bare)) _ w2 h2 in
      let one = pair_of _ w w1 stop stopped in
      let two = pair_of _ w1 w2 target targeted in
      let three = pair_of _ w2 w3 sealed_intent was_sealed in
      let x = seal_intent-IsSealed a.digests bare sealed_intent three.0 in
      let made : DemoOrderIntent → Prepared =
        λ i. record { approval = approval; intent = i; revalidation = fresh_decision } in
      let order : IsOrder shadow facts
          (made (record bare { intent_digest = a.digests.of_sealed_intent bare })) =
        record {
          symbol = refl;
          side = refl;
          volume = same;
          volume_pos = x.positive;
          reference = refl;
          reached = refl;
          stop = (required_price-some _ stop one.0).0;
          target = (required_price-some _ target two.0).0;
          protected_by = x.protected_by;
          account = refl;
          environment = refl;
          under_approval = refl;
          under_acceptance = refl;
          under_policy = refl;
          from_decision = refl;
          from_shadow = refl;
          from_renewed = refl;
          lasting = x.lasting;
          expiry = refl;
          seal = refl;
        } in
      let result : made (record bare { intent_digest = a.digests.of_sealed_intent bare }) ≡ p =
        ap made (sym x.shape) ∙ ok-injective (ap (λ q. q.0) h3) in
      (
        subst (IsOrder shadow facts) result order,
        ap (λ q. q.approval) (sym result),
        ap (λ q. q.revalidation) (sym result),
        ap (λ q. q.intent.volume) (sym result),
        ap (λ q. q.intent.created_at) (sym result),
        one.1 ∙ (two.1 ∙ (three.1 ∙ ap (λ q. q.1) h3)),
      )
