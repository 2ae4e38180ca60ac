-- ===== src/Execution/Service/Sealed.antt =====
-- What stands behind an intent that `execute` of src/ai_trading_team/execution/service.py is about to
-- claim.
use my_team_tradding.Execution.Authority.{shadow_intent_of, validate_execution_authority}
use my_team_tradding.Execution.Authority.Sound.{refused_text}
use my_team_tradding.Execution.Preflight.{DemoExecutionPreflight, FreshExecutionObservation}
use my_team_tradding.Execution.Preflight.Fresh.{IsFresh, passes-none}
use my_team_tradding.Execution.Records.{
  DemoExecutionApproval, DemoExecutionEnvironmentAcceptance, DemoExecutionPolicy,
  QualifiedDemoExecutionCandidate, ShadowTradeIntent,
}
use my_team_tradding.Execution.Service.{World, now}
use my_team_tradding.Execution.Service.Ordered.{IsOrder}
use my_team_tradding.Execution.Service.Prepare.{prepare}
use my_team_tradding.Execution.Service.Prepared.{IsRenewed, only_approval-single, pair_of}
use my_team_tradding.Execution.Service.Renewal.{Reads, now-Reads, observes-IsRenewal}
use my_team_tradding.Execution.Service.Revalidation.{
  Arrangement, Prepared, require_single_approval, validate_authority, validate_risk_generation,
}
use my_team_tradding.Execution.Store.{
  Repository, approval_is_revoked, control_state, effective_approvals,
}
use my_team_tradding.Execution.Types.{DemoExecutionFailure}
use my_team_tradding.Prelude.{
  Bool, List, Option, [], false, if◌then◌else◌, none, or-eq-false, refl, some, subst, suc, sym,
  true, ℕ, ◌∙◌, ◌∷◌, ◌≡◌,
}
use my_team_tradding.Prelude.Result.{ok}
use my_team_tradding.Prelude.State.{>>=-returned, lifts}
use my_team_tradding.Time.{aware}

failed-none :
    (b : Bool) (failure : DemoExecutionFailure)
    → (if b then some failure else none) ≡ none
    → b ≡ false
failed-none true failure h = cc (h)
failed-none false failure h = refl

module _ (a : Arrangement) (candidate : QualifiedDemoExecutionCandidate)
    (acceptance : DemoExecutionEnvironmentAcceptance) (policy : DemoExecutionPolicy) where
  abbrev effective_of : ℕ → Repository → List DemoExecutionApproval
  effective_of at r =
      effective_approvals a.text_order a.digests acceptance.account_ref acceptance.environment_ref
        candidate.decision.symbol at r

  abbrev authority_of : ℕ → DemoExecutionApproval → Repository → Option DemoExecutionFailure
  authority_of at approval r =
      validate_execution_authority a.digests candidate acceptance approval policy (control_state r)
        (approval_is_revoked approval.approval_id (a.digests.of_approval approval) r) at

  -- Behind a prepared intent, in the world where it was prepared.
  pub record IsPrepared (w : World) (p : Prepared) : Type 0 where
    pub started : ℕ
    pub started_at : a.clock w.readings ≡ aware started
    pub only :
        effective_approvals a.text_order a.digests acceptance.account_ref acceptance.environment_ref
          candidate.decision.symbol started w.repository
        ≡ p.approval ∷ []
    pub authorized :
        validate_execution_authority a.digests candidate acceptance p.approval policy
          (control_state w.repository)
          (approval_is_revoked p.approval.approval_id
            (a.digests.of_approval p.approval)
            w.repository)
          started
        ≡ none
    pub risk_engine : candidate.dependency_manifest.risk_engine_version ≡ a.risk_engine_version
    pub risk_policy : candidate.dependency_manifest.risk_policy_digest ≡ a.risk_policy_digest
    pub shadow : ShadowTradeIntent
    pub analysed : shadow_intent_of candidate.decision ≡ some shadow
    pub observation : FreshExecutionObservation
    pub captured :
        a.capture candidate.decision.cycle_id
          (a.identities.execution_snapshot_id candidate.decision.cycle_id started)
        ≡ ok observation
    pub completed : ℕ
    pub completed_at : a.clock (suc w.readings) ≡ aware completed
    pub facts : DemoExecutionPreflight
    pub fresh :
        IsFresh a.context a.fingerprinting a.digests acceptance policy candidate.decision shadow
          observation started completed facts
    pub renewed :
        IsRenewed a candidate acceptance policy shadow observation facts p.revalidation
          p.intent.volume
    pub created_at : a.clock (suc (suc w.readings)) ≡ aware p.intent.created_at
    pub order : IsOrder a candidate acceptance policy shadow facts p

  generation_current :
      (u : Unit {0})
      → validate_risk_generation a candidate acceptance policy ≡ ok u
      → (candidate.dependency_manifest.risk_engine_version ≡ a.risk_engine_version)
        × (candidate.dependency_manifest.risk_policy_digest ≡ a.risk_policy_digest)
  unfolding validate_risk_generation
  generation_current u h =
      let (engine, policies) = or-eq-false _ _ (failed-none _ _ (passes-none _ u h)) in
      (refused_text engine, refused_text policies)

  -- When the preparation returns, the clock was read three times. At the first reading exactly one human
  -- approval was effective and it authorises the candidate under the control state of the moment, and
  -- the risk generation is the qualified one. What the source captured for the cycle was fresh at the
  -- second: in time, another snapshot of the analysed market, the accepted demo account without
  -- positions, a capable symbol, a quote near the analysed entry. The risk engine, evaluated on it for
  -- the analysed trade at the price that slippage may reach, approved the analysed volume. The intent of
  -- the third reading is for that trade, in that volume, at those prices, with the analysed stop and
  -- target on either side, expires when the policy says and is sealed. Nothing was written or sent.
  pub prepare-IsPrepared :
      (w w' : World) (p : Prepared)
      → prepare a candidate acceptance policy w ≡ (ok p, w')
      → IsPrepared w p × (w'.repository ≡ w.repository) × (w'.sent ≡ w.sent)
  unfolding prepare require_single_approval validate_authority
  prepare-IsPrepared w w' p h =
      let (started, w1, timed, h1) = >>=-returned (now a.clock) _ w h in
      let (reads1, started_at) =
        now-Reads a candidate acceptance policy w.readings w w w1 started (refl, refl, refl)
          timed in
      let (approval, w2, single, h2) =
        >>=-returned (require_single_approval a candidate acceptance policy started) _ w1 h1 in
      let two = pair_of _ w1 w2 approval single in
      let reads2 = subst (Reads a candidate acceptance policy (suc w.readings) w) two.1 reads1 in
      let (authority, w3, authorized, h3) =
        >>=-returned (validate_authority a candidate acceptance policy approval started) _ w2 h2 in
      let three = pair_of _ w2 w3 authority authorized in
      let (current, w4, generation, h4) = >>=-returned (lifts _) _ w3 h3 in
      let four = pair_of _ w3 w4 current generation in
      let (kept, quiet, counted) =
        subst (Reads a candidate acceptance policy (suc w.readings) w) (three.1 ∙ four.1) reads2 in
      let (renewal, kept', quiet') =
        observes-IsRenewal a candidate acceptance policy started approval w4 w' p h4 in
      let single_here =
        subst (λ r. effective_of started r ≡ approval ∷ []) reads1.0
          (only_approval-single _ approval two.0) in
      let authorized_here =
        subst (λ r. authority_of started approval r ≡ none) reads2.0
          (passes-none _ authority three.0) in
      let chosen = sym renewal.same_approval in
      let current_now = generation_current current four.0 in
      (
        record {
          started = started;
          started_at = started_at;
          only = subst (λ x. effective_of started w.repository ≡ x ∷ []) chosen single_here;
          authorized =
              subst (λ x. authority_of started x w.repository ≡ none) chosen authorized_here;
          risk_engine = current_now.0;
          risk_policy = current_now.1;
          shadow = renewal.shadow;
          analysed = renewal.analysed;
          observation = renewal.observation;
          captured = renewal.captured;
          completed = renewal.completed;
          completed_at =
              subst (λ n. a.clock n ≡ aware renewal.completed) counted renewal.completed_at;
          facts = renewal.facts;
          fresh = renewal.fresh;
          renewed = renewal.renewed;
          created_at =
              subst (λ n. a.clock (suc n) ≡ aware p.intent.created_at) counted renewal.created_at;
          order = renewal.order;
        },
        kept' ∙ kept,
        quiet' ∙ quiet,
      )
