-- ===== src/Execution/Service/Prepared.antt =====
-- What `execute` has established before it claims an intent.
use my_team_tradding.Decimal.{Decimal}
use my_team_tradding.Execution.Preflight.{
  DemoExecutionPreflight, FreshExecutionObservation, valid_when,
}
use my_team_tradding.Execution.Authority.Sound.{same_string}
use my_team_tradding.Execution.Preflight.Fresh.{valid_when-true}
use my_team_tradding.Execution.Records.{
  DemoExecutionApproval, DemoExecutionEnvironmentAcceptance, DemoExecutionPolicy, Digests,
  QualifiedDemoExecutionCandidate, ShadowTradeIntent,
}
use my_team_tradding.Execution.Service.{World}
use my_team_tradding.Execution.Service.Revalidation.{
  Arrangement, accepted_volume, fresh_proposal, fresh_risk_revalidation, is_linked, is_protected,
  only_approval, required_price, required_shadow, same_volume, seal_intent,
}
use my_team_tradding.Execution.Store.{ExecutionFault, value_error}
use my_team_tradding.Execution.Store.Records.{validated}
use my_team_tradding.Execution.Types.{DemoOrderIntent}
use my_team_tradding.Prelude.{
  List, Option, [], and_elim, ap, ltb, ltb→lt, none, refl, some, str_eq, subst, sym, true, ◌<◌, ◌∙◌,
  ◌∷◌, ◌≡◌,
}
use my_team_tradding.Prelude.Int.{eqb_ℤ, eqb_ℤ→eq, ltb_ℤ, ltb_ℤ→lt, pos, ◌<ℤ◌}
use my_team_tradding.Prelude.Result.{>>=-returned, Result, err, ok, ok-injective, passed-eq-ok}
use my_team_tradding.Risk.Engine.{RiskDecision, evaluate_risk}
use my_team_tradding.Risk.Proposal.{geometry}
use my_team_tradding.Risk.Sizing.{PositionSizingResult}
use my_team_tradding.Risk.Types.{RiskDecisionStatus, RiskFault, TradeSide, buy, sell}
use my_team_tradding.Time.{aware}

pub pair_of :
    {A : Type 0} (r : Result ExecutionFault A) (w w' : World) (v : A)
    → ◌≡◌ {A = Result ExecutionFault A × World} (r, w) (ok v, w')
    → (r ≡ ok v) × (w ≡ w')
pair_of r w w' v h = (ap (λ p. p.0) h, ap (λ p. p.1) h)

pub only_approval-single :
    (approvals : List DemoExecutionApproval) (approval : DemoExecutionApproval)
    → only_approval approvals ≡ ok approval
    → approvals ≡ approval ∷ []
only_approval-single [] approval h = cc (h)
only_approval-single (x ∷ []) approval h = ap (λ y. y ∷ []) (ok-injective h)
only_approval-single (x ∷ (y ∷ rest)) approval h = cc (h)

validated-returned : {A : Type 0} (r : Result RiskFault A) (v : A) → validated r ≡ ok v → r ≡ ok v
validated-returned (ok a) v h = ap (λ x. ok x) (ok-injective h)
validated-returned (err fault) v h = cc (h)

pub required_shadow-some :
    (o : Option ShadowTradeIntent) (shadow : ShadowTradeIntent)
    → required_shadow o ≡ ok shadow
    → o ≡ some shadow
required_shadow-some none shadow h = cc (h)
required_shadow-some (some x) shadow h = ap (λ y. some y) (ok-injective h)

pub required_price-some :
    (o : Option Decimal) (price : Decimal)
    → required_price o ≡ ok price
    → (o ≡ some price) × (pos 0 <ℤ price)
required_price-some none price h = cc (h)
required_price-some (some x) price h =
    let (positive, same) = passed-eq-ok (ltb_ℤ (pos 0) x) (ok x) value_error price h in
    let same' : x ≡ price = ok-injective same in
    (ap (λ y. some y) same', subst (λ y. pos 0 <ℤ y) same' (ltb_ℤ→lt (pos 0) x positive))

-- The stop and the target of an order lie on either side of the price.
abbrev pub Protects : TradeSide → Decimal → Decimal → Decimal → Type 0
Protects buy stop price target = (stop <ℤ price) × (price <ℤ target)
Protects sell stop price target = (target <ℤ price) × (price <ℤ stop)

is_protected-Protects :
    (side : TradeSide) (stop price target : Decimal)
    → is_protected side stop price target ≡ true
    → Protects side stop price target
is_protected-Protects buy stop price target h =
    let (below, above) = and_elim (ltb_ℤ stop price) (ltb_ℤ price target) h in
    (ltb_ℤ→lt stop price below, ltb_ℤ→lt price target above)
is_protected-Protects sell stop price target h =
    let (below, above) = and_elim (ltb_ℤ target price) (ltb_ℤ price stop) h in
    (ltb_ℤ→lt target price below, ltb_ℤ→lt price stop above)

pub record IsSealed (d : Digests) (x y : DemoOrderIntent) : Type 0 where
  pub shape : y ≡ record x { intent_digest = d.of_sealed_intent x }
  pub positive : pos 0 <ℤ x.volume
  pub lasting : x.created_at < x.expires_at
  pub protected_by : Protects x.side x.stop_loss x.risk_validation_price x.take_profit

pub seal_intent-IsSealed :
    (d : Digests) (x y : DemoOrderIntent) → seal_intent d x ≡ ok y → IsSealed d x y
unfolding seal_intent
seal_intent-IsSealed d x y h =
    let (tests, same) = passed-eq-ok _ _ value_error y h in
    let (volume, rest) = and_elim (ltb_ℤ (pos 0) x.volume) _ tests in
    let (reference, rest') = and_elim (ltb_ℤ (pos 0) x.reference_price) _ rest in
    let (lasting, geometry) = and_elim (ltb x.created_at x.expires_at) _ rest' in
    record {
      shape = sym (ok-injective same);
      positive = ltb_ℤ→lt (pos 0) x.volume volume;
      lasting = ltb→lt x.created_at x.expires_at lasting;
      protected_by =
          is_protected-Protects x.side x.stop_loss x.risk_validation_price x.take_profit geometry;
    }

module _ (a : Arrangement) (candidate : QualifiedDemoExecutionCandidate)
    (acceptance : DemoExecutionEnvironmentAcceptance) (policy : DemoExecutionPolicy) where
  -- A decision that is approved at the analysed volume.
  pub record IsApprovedAt (renewed : RiskDecision) (volume : Decimal) : Type 0 where
    pub approved_here : renewed.status ≡ RiskDecisionStatus.approved
    pub sizing : PositionSizingResult
    pub sized : renewed.position_sizing ≡ some sizing
    pub selected : sizing.selected_volume ≡ some volume

  same_volume_elim :
      (selected : Option Decimal) (analysed volume : Decimal)
      → same_volume a candidate acceptance policy selected analysed ≡ ok volume
      → (selected ≡ some volume) × (volume ≡ analysed)
  same_volume_elim none analysed volume h = cc (h)
  same_volume_elim (some x) analysed volume h =
      let (equal, same) = passed-eq-ok (eqb_ℤ x analysed) (ok x) _ volume h in
      let same' : x ≡ volume = ok-injective same in
      (ap (λ y. some y) same', sym same' ∙ eqb_ℤ→eq x analysed equal)

  accepted_by :
      (status : RiskDecisionStatus) (o : Option PositionSizingResult) (renewed : RiskDecision)
      (analysed volume : Decimal)
      → renewed.status ≡ status
      → renewed.position_sizing ≡ o
      → accepted_volume a candidate acceptance policy status o analysed ≡ ok volume
      → IsApprovedAt renewed volume × (volume ≡ analysed)
  unfolding accepted_volume
  accepted_by RiskDecisionStatus.halted o renewed analysed volume s z h = cc (h)
  accepted_by RiskDecisionStatus.rejected o renewed analysed volume s z h = cc (h)
  accepted_by RiskDecisionStatus.approved none renewed analysed volume s z h = cc (h)
  accepted_by RiskDecisionStatus.approved (some sizing) renewed analysed volume s z h =
      let (selected, same) = same_volume_elim sizing.selected_volume analysed volume h in
      (record { approved_here = s; sizing = sizing; sized = z; selected = selected }, same)

  -- The fresh decision behind an intent: the analysed trade, evaluated on the observed market and
  -- account at the price of the facts.
  pub record IsRenewed (shadow : ShadowTradeIntent) (observation : FreshExecutionObservation)
      (facts : DemoExecutionPreflight) (renewed : RiskDecision) (volume : Decimal) : Type 0 where
    pub evaluated :
        evaluate_risk a.context a.fingerprinting a.constitution
          (record {
            cycle_id = observation.snapshot.cycle_id;
            timestamp = observation.snapshot.snapshot_completed_at;
            proposal_id =
                a.identities.revalidation_proposal_id shadow.proposal.proposal_id
                  observation.snapshot.snapshot_id;
            snapshot_id = observation.snapshot.snapshot_id;
            symbol = shadow.proposal.symbol;
            side = shadow.proposal.side;
            entry = some facts.risk_validation_price;
            stop_loss = shadow.proposal.stop_loss;
            take_profit = shadow.proposal.take_profit;
          })
          observation.snapshot
          observation.context
          (aware facts.completed_at)
        ≡ ok renewed
    pub approved_at : IsApprovedAt renewed volume
    pub kept_volume : volume ≡ shadow.selected_volume
    pub on_snapshot : observation.snapshot.snapshot_id ≡ facts.execution_snapshot_id
    pub of_snapshot : renewed.snapshot_id ≡ facts.execution_snapshot_id
    pub of_proposal :
        renewed.proposal_id
        ≡ a.identities.revalidation_proposal_id shadow.proposal.proposal_id
            observation.snapshot.snapshot_id
    pub of_cycle : renewed.cycle_id ≡ observation.snapshot.cycle_id
    pub of_symbol : renewed.symbol ≡ shadow.proposal.symbol

  pub fresh_risk_revalidation-IsRenewed :
      (shadow : ShadowTradeIntent) (observation : FreshExecutionObservation)
      (facts : DemoExecutionPreflight) (renewed : RiskDecision) (volume : Decimal)
      → fresh_risk_revalidation a candidate acceptance policy shadow observation facts
        ≡ ok (renewed, volume)
      → IsRenewed shadow observation facts renewed volume
  unfolding fresh_risk_revalidation
  fresh_risk_revalidation-IsRenewed shadow observation facts renewed volume h =
      let (renewed', evaluated, h1) = >>=-returned (validated _) _ h in
      let (volume', granted, h2) =
        >>=-returned
          (accepted_volume a candidate acceptance policy renewed'.status renewed'.position_sizing
            shadow.selected_volume)
          _ h1 in
      let (linked, link, h3) =
        >>=-returned
          (valid_when (
            is_linked a candidate acceptance policy
              (fresh_proposal a candidate acceptance policy shadow observation facts) renewed'
              facts))
          _ h2 in
      let tests = valid_when-true _ linked link in
      let (on_snapshot, rest) = and_elim (str_eq observation.snapshot.snapshot_id _) _ tests in
      let (of_snapshot, rest') = and_elim (str_eq renewed'.snapshot_id _) _ rest in
      let (of_proposal, rest'') = and_elim (str_eq renewed'.proposal_id _) _ rest' in
      let (of_cycle, of_symbol) = and_elim (str_eq renewed'.cycle_id _) _ rest'' in
      let one : renewed' ≡ renewed = ap (λ p. p.0) (ok-injective h3) in
      let two : volume' ≡ volume = ap (λ p. p.1) (ok-injective h3) in
      let (approved_at, same) =
        accepted_by renewed'.status renewed'.position_sizing renewed' shadow.selected_volume volume'
          refl refl granted in
      subst (λ r. IsRenewed shadow observation facts r volume) one
        (subst (IsRenewed shadow observation facts renewed') two (record {
          evaluated = validated-returned _ renewed' evaluated;
          approved_at = approved_at;
          kept_volume = same;
          on_snapshot = same_string on_snapshot;
          of_snapshot = same_string of_snapshot;
          of_proposal = same_string of_proposal;
          of_cycle = same_string of_cycle;
          of_symbol = same_string of_symbol;
        }))
