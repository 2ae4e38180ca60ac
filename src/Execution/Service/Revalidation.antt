-- ===== src/Execution/Service/Revalidation.antt =====
-- The parts of `execute` of src/ai_trading_team/execution/service.py before the claim: the approval, the
-- authority, the fresh risk decision and the seal. Identifiers are content digests, a parameter.
use my_team_tradding.Decimal.{Decimal, DecimalContext}
use my_team_tradding.Execution.Authority.{validate_execution_authority}
use my_team_tradding.Execution.Preflight.{
  DemoExecutionPreflight, FreshExecutionObservation, passes, valid_when,
}
use my_team_tradding.Execution.Records.{
  DemoExecutionApproval, DemoExecutionEnvironmentAcceptance, DemoExecutionPolicy, Digests,
  QualifiedDemoExecutionCandidate, ShadowTradeIntent,
}
use my_team_tradding.Execution.Service.{Method}
use my_team_tradding.Execution.Store.{
  ExecutionFault, TextOrder, approval_is_revoked, control_state, effective_approvals, value_error,
}
use my_team_tradding.Execution.Store.Records.{validated}
use my_team_tradding.Execution.Types.{
  DemoExecutionFailureCategory, DemoOrderIntent, acceptance_chain_invalid, approval_missing,
  failure_of, fresh_volume_mismatch, qualification_ineligible, risk_halted, risk_rejected,
}
use my_team_tradding.Prelude.{
  Bool, List, Option, String, [], if◌then◌else◌, ltb, none, not, some, str_eq, ℕ, ◌&&◌, ◌||◌, ◌∷◌,
}
use my_team_tradding.Prelude.Int.{eqb_ℤ, leb_ℤ, ltb_ℤ, pos}
use my_team_tradding.Prelude.Result.{Result, err, ok, ◌>>=◌}
use my_team_tradding.Risk.Account.{Fingerprinting}
use my_team_tradding.Risk.Engine.{RiskDecision, evaluate_risk}
use my_team_tradding.Risk.Sizing.{PositionSizingResult}
use my_team_tradding.Risk.Types.{
  RiskConstitutionSettings, RiskDecisionStatus, TradeProposal, TradeSide, buy, sell,
}
use my_team_tradding.Time.{Datetime, aware}

pub record Identities : Type 0 where
  pub execution_snapshot_id : String → ℕ → String
  pub revalidation_proposal_id : String → String → String
  pub execution_intent_id : String → String → String → String
  pub client_trade_id : String → String

-- What the service is made with, less the repository and the broker.
pub record Arrangement : Type 0 where
  pub clock : ℕ → Datetime
  -- `source.capture`, for a cycle and a snapshot
  pub capture : String → String → Result ExecutionFault FreshExecutionObservation
  pub context : DecimalContext
  pub fingerprinting : Fingerprinting
  pub constitution : RiskConstitutionSettings
  pub risk_engine_version : String
  pub risk_policy_digest : String
  pub digests : Digests
  pub identities : Identities
  pub text_order : TextOrder

pub record Prepared : Type 0 where
  pub approval : DemoExecutionApproval
  pub intent : DemoOrderIntent
  pub revalidation : RiskDecision

abbrev pub only_approval : List DemoExecutionApproval → Result ExecutionFault DemoExecutionApproval
only_approval (approval ∷ []) = ok approval
only_approval _ = err (
    ExecutionFault.execution_error (
      failure_of approval_missing
        "exactly one compatible effective human DEMO approval is required"))

abbrev pub fails_with {ℓ} :
    {A : Type ℓ} → DemoExecutionFailureCategory → String → Result ExecutionFault A
fails_with code detail = err (ExecutionFault.execution_error (failure_of code detail))

-- `_shadow_intent`
abbrev pub required_shadow : Option ShadowTradeIntent → Result ExecutionFault ShadowTradeIntent
required_shadow none =
    fails_with qualification_ineligible "qualified decision has no approved shadow intent"
required_shadow (some shadow) = ok shadow

-- A `PositiveDecimal` that is required.
abbrev pub required_price : Option Decimal → Result ExecutionFault Decimal
required_price none = err value_error
required_price (some price) = if ltb_ℤ (pos 0) price then ok price else err value_error

-- `validate_protected_geometry`
abbrev pub is_protected : TradeSide → Decimal → Decimal → Decimal → Bool
is_protected buy stop price target = ltb_ℤ stop price && ltb_ℤ price target
is_protected sell stop price target = ltb_ℤ target price && ltb_ℤ price stop

-- `seal_demo_order_intent`; the digest leaves its own field out.
unfoldable pub seal_intent : Digests → DemoOrderIntent → Result ExecutionFault DemoOrderIntent
unfolding ltb_ℤ
seal_intent d x =
    if ltb_ℤ (pos 0) x.volume
      && (ltb_ℤ (pos 0) x.reference_price
          && (ltb x.created_at x.expires_at
              && is_protected x.side x.stop_loss x.risk_validation_price x.take_profit))
    then ok (record x { intent_digest = d.of_sealed_intent x })
    else err value_error

module _ (a : Arrangement) (candidate : QualifiedDemoExecutionCandidate)
    (acceptance : DemoExecutionEnvironmentAcceptance) (policy : DemoExecutionPolicy) where
  -- `_require_single_approval`
  unfoldable pub require_single_approval : ℕ → Method DemoExecutionApproval
  unfolding effective_approvals
  require_single_approval at w = (
    only_approval (
        effective_approvals a.text_order a.digests acceptance.account_ref acceptance.environment_ref
          candidate.decision.symbol at w.repository),
    w,
  )

  -- `_validate_authority`
  unfoldable pub validate_authority : DemoExecutionApproval → ℕ → Method (Unit {0})
  unfolding validate_execution_authority control_state approval_is_revoked
  validate_authority approval at w = (
    passes (
        validate_execution_authority a.digests candidate acceptance approval policy
          (control_state w.repository)
          (approval_is_revoked approval.approval_id (a.digests.of_approval approval) w.repository)
          at),
    w,
  )

  -- `_validate_risk_generation`
  unfoldable pub validate_risk_generation : Result ExecutionFault (Unit {0})
  validate_risk_generation =
      let manifest = candidate.dependency_manifest in
      passes (
        if not (str_eq manifest.risk_engine_version a.risk_engine_version)
          || not (str_eq manifest.risk_policy_digest a.risk_policy_digest)
        then some (
            failure_of acceptance_chain_invalid
              "current M3 Risk generation differs from qualified evidence")
        else none)

  -- The proposal that is evaluated afresh: the analysed one, at the price that slippage may reach.
  abbrev pub fresh_proposal :
      ShadowTradeIntent → FreshExecutionObservation → DemoExecutionPreflight → TradeProposal
  fresh_proposal shadow observation facts = record {
    cycle_id = observation.snapshot.cycle_id;
    timestamp = observation.snapshot.snapshot_completed_at;
    proposal_id =
        a.identities.revalidation_proposal_id shadow.proposal.proposal_id
          observation.snapshot.snapshot_id;
    snapshot_id = observation.snapshot.snapshot_id;
    symbol = shadow.proposal.symbol;
    side = shadow.proposal.side;
    entry = some facts.risk_validation_price;
    stop_loss = shadow.proposal.stop_loss;
    take_profit = shadow.proposal.take_profit;
  }

  -- The volume of an approved decision, when it is the analysed one.
  abbrev pub same_volume : Option Decimal → Decimal → Result ExecutionFault Decimal
  same_volume none analysed =
      fails_with fresh_volume_mismatch
        "fresh M3 volume differs from the immutable SHADOW-approved volume"
  same_volume (some volume) analysed =
      if eqb_ℤ volume analysed
      then ok volume
      else fails_with fresh_volume_mismatch
          "fresh M3 volume differs from the immutable SHADOW-approved volume"

  unfoldable pub accepted_volume :
      RiskDecisionStatus → Option PositionSizingResult → Decimal → Result ExecutionFault Decimal
  unfolding eqb_ℤ leb_ℤ
  accepted_volume RiskDecisionStatus.halted sizing analysed =
      fails_with risk_halted "fresh deterministic Risk evaluation halted execution"
  accepted_volume RiskDecisionStatus.rejected sizing analysed =
      fails_with risk_rejected "fresh deterministic Risk evaluation rejected execution"
  accepted_volume RiskDecisionStatus.approved none analysed =
      fails_with risk_rejected "fresh deterministic Risk evaluation rejected execution"
  accepted_volume RiskDecisionStatus.approved (some sizing) analysed =
      same_volume sizing.selected_volume analysed

  -- `FreshRiskRevalidation.validate_linkage`
  abbrev pub is_linked : TradeProposal → RiskDecision → DemoExecutionPreflight → Bool
  is_linked proposal renewed facts =
      str_eq proposal.snapshot_id facts.execution_snapshot_id
      && (str_eq renewed.snapshot_id facts.execution_snapshot_id
          && (str_eq renewed.proposal_id proposal.proposal_id
              && (str_eq renewed.cycle_id proposal.cycle_id
                  && str_eq renewed.symbol proposal.symbol)))

  -- `_fresh_risk_revalidation`: the decision and its volume.
  unfoldable pub fresh_risk_revalidation :
      ShadowTradeIntent
      → FreshExecutionObservation
      → DemoExecutionPreflight
      → Result ExecutionFault (RiskDecision × Decimal)
  unfolding evaluate_risk accepted_volume
  fresh_risk_revalidation shadow observation facts =
      let proposal = fresh_proposal shadow observation facts in
      validated (
        evaluate_risk a.context a.fingerprinting a.constitution proposal observation.snapshot
          observation.context (aware facts.completed_at))
      >>= λ renewed.
          accepted_volume renewed.status renewed.position_sizing shadow.selected_volume
          >>= λ volume.
              valid_when (is_linked proposal renewed facts) >>= λ linked. ok (renewed, volume)
