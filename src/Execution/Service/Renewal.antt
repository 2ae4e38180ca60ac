-- ===== src/Execution/Service/Renewal.antt =====
-- The part of `execute` of src/ai_trading_team/execution/service.py from the capture to the seal: what it
-- establishes, and the readings of the clock behind it.
use my_team_tradding.Decimal.{Decimal}
use my_team_tradding.Execution.Authority.{shadow_intent_of}
use my_team_tradding.Execution.Preflight.{DemoExecutionPreflight, FreshExecutionObservation}
use my_team_tradding.Execution.Preflight.Fresh.{IsFresh, validate_fresh-IsFresh}
use my_team_tradding.Execution.Records.{
  DemoExecutionApproval, DemoExecutionEnvironmentAcceptance, DemoExecutionPolicy,
  QualifiedDemoExecutionCandidate, ShadowTradeIntent,
}
use my_team_tradding.Execution.Service.{World, now}
use my_team_tradding.Execution.Service.Ordered.{IsOrder, seals-IsOrder}
use my_team_tradding.Execution.Service.Prepare.{observes, renews}
use my_team_tradding.Execution.Service.Prepared.{
  IsRenewed, fresh_risk_revalidation-IsRenewed, pair_of, required_shadow-some,
}
use my_team_tradding.Execution.Service.Revalidation.{Arrangement, Prepared, fresh_risk_revalidation}
use my_team_tradding.Prelude.{ap, refl, some, subst, suc, sym, ℕ, ◌∙◌, ◌≡◌}
use my_team_tradding.Prelude.Result.{ok, ok-injective}
use my_team_tradding.Prelude.State.{>>=-returned, lifts}
use my_team_tradding.Risk.Engine.{RiskDecision}
use my_team_tradding.Time.{Datetime, aware, naive, normalize_utc}

normalize_utc-aware {ℓ} :
    {E : Type ℓ} (e : E) (t : Datetime) (at : ℕ) → normalize_utc e t ≡ ok at → t ≡ aware at
unfolding normalize_utc
normalize_utc-aware e (aware t) at h = ap aware (ok-injective h)
normalize_utc-aware e (naive t) at h = cc (h)

module _ (a : Arrangement) (candidate : QualifiedDemoExecutionCandidate)
    (acceptance : DemoExecutionEnvironmentAcceptance) (policy : DemoExecutionPolicy) where
  -- Steps of the preparation read the repository, and leave it and the broker alone; the clock has been
  -- read `k` times behind them.
  abbrev pub Reads : ℕ → World → World → Type 0
  Reads k w w' = (w'.repository ≡ w.repository) × (w'.sent ≡ w.sent) × (w'.readings ≡ k)

  pub now-Reads :
      (k : ℕ) (w w1 w2 : World) (at : ℕ)
      → Reads k w w1
      → now a.clock w1 ≡ (ok at, w2)
      → Reads (suc k) w w2 × (a.clock k ≡ aware at)
  now-Reads k w w1 w2 at (kept, quiet, counted) h = (
    subst (Reads (suc k) w) (ap (λ q. q.1) h) (kept, quiet, ap (λ n. suc n) counted),
    subst (λ n. a.clock n ≡ aware at) counted
        (normalize_utc-aware _ (a.clock w1.readings) at (ap (λ q. q.0) h)),
  )

  renews-IsRenewed :
      (approval : DemoExecutionApproval) (shadow : ShadowTradeIntent)
      (observation : FreshExecutionObservation) (facts : DemoExecutionPreflight) (w w' : World)
      (p : Prepared)
      → renews a candidate acceptance policy approval shadow observation facts w ≡ (ok p, w')
      → (IsRenewed a candidate acceptance policy shadow observation facts p.revalidation
          p.intent.volume)
        × (IsOrder a candidate acceptance policy shadow facts p)
        × (p.approval ≡ approval)
        × (a.clock w.readings ≡ aware p.intent.created_at)
        × Reads (suc w.readings) w w'
  unfolding renews
  renews-IsRenewed approval shadow observation facts w w' p h =
      let (risk, w1, evaluated, h1) =
        >>=-returned
          (lifts (fresh_risk_revalidation a candidate acceptance policy shadow observation facts)) _
          w h in
      let one = pair_of _ w w1 risk evaluated in
      let (created_at, w2, timed, h2) = >>=-returned (now a.clock) _ w1 h1 in
      let (reads, clock_then) =
        now-Reads w.readings w w1 w2 created_at
          (subst (Reads w.readings w) one.1 (refl, refl, refl)) timed in
      let renewed =
        fresh_risk_revalidation-IsRenewed a candidate acceptance policy shadow observation facts
          risk.0 risk.1 one.0 in
      let (order, same_approval, same_risk, same_size, same_time, last) =
        seals-IsOrder a candidate acceptance policy approval shadow facts risk.0 risk.1 created_at
          w2 w' p renewed.kept_volume h2 in
      let for_risk : RiskDecision → Decimal → Type 0 =
        λ r. λ v. IsRenewed a candidate acceptance policy shadow observation facts r v in
      (
        subst (λ r. for_risk r p.intent.volume) (sym same_risk)
            (subst (λ v. for_risk risk.0 v) (sym same_size) renewed),
        order,
        same_approval,
        subst (λ at. a.clock w.readings ≡ aware at) (sym same_time) clock_then,
        subst (Reads (suc w.readings) w) last reads,
      )

  -- What an observed market adds to an approval, when the clock had been read `k` times before.
  pub record IsRenewal (started k : ℕ) (approval : DemoExecutionApproval) (p : Prepared)
      : Type 0 where
    pub same_approval : p.approval ≡ approval
    pub shadow : ShadowTradeIntent
    pub analysed : shadow_intent_of candidate.decision ≡ some shadow
    pub observation : FreshExecutionObservation
    pub captured :
        a.capture candidate.decision.cycle_id
          (a.identities.execution_snapshot_id candidate.decision.cycle_id started)
        ≡ ok observation
    pub completed : ℕ
    pub completed_at : a.clock k ≡ aware completed
    pub facts : DemoExecutionPreflight
    pub fresh :
        IsFresh a.context a.fingerprinting a.digests acceptance policy candidate.decision shadow
          observation started completed facts
    pub renewed :
        IsRenewed a candidate acceptance policy shadow observation facts p.revalidation
          p.intent.volume
    pub created_at : a.clock (suc k) ≡ aware p.intent.created_at
    pub order : IsOrder a candidate acceptance policy shadow facts p

  pub observes-IsRenewal :
      (started : ℕ) (approval : DemoExecutionApproval) (w w' : World) (p : Prepared)
      → observes a candidate acceptance policy started approval w ≡ (ok p, w')
      → IsRenewal started w.readings approval p
        × (w'.repository ≡ w.repository)
        × (w'.sent ≡ w.sent)
  unfolding observes
  observes-IsRenewal started approval w w' p h =
      let k = w.readings in
      let (observation, w1, captured, h1) = >>=-returned (lifts _) _ w h in
      let one = pair_of _ w w1 observation captured in
      let (completed, w2, timed, h2) = >>=-returned (now a.clock) _ w1 h1 in
      let (reads2, completed_at) =
        now-Reads k w w1 w2 completed (subst (Reads k w) one.1 (refl, refl, refl)) timed in
      let (shadow, w3, present, h3) = >>=-returned (lifts _) _ w2 h2 in
      let three = pair_of _ w2 w3 shadow present in
      let (facts, w4, fresh, h4) = >>=-returned (lifts _) _ w3 h3 in
      let four = pair_of _ w3 w4 facts fresh in
      let (kept, quiet, counted) = subst (Reads (suc k) w) (three.1 ∙ four.1) reads2 in
      let (renewed, order, same_approval, created_at, reads) =
        renews-IsRenewed approval shadow observation facts w4 w' p h4 in
      (
        record {
          same_approval = same_approval;
          shadow = shadow;
          analysed = required_shadow-some _ shadow three.0;
          observation = observation;
          captured = one.0;
          completed = completed;
          completed_at = completed_at;
          facts = facts;
          fresh =
              validate_fresh-IsFresh a.context a.fingerprinting a.digests acceptance policy
                candidate.decision shadow observation started completed facts four.0;
          renewed = renewed;
          created_at = subst (λ n. a.clock n ≡ aware p.intent.created_at) counted created_at;
          order = order;
        },
        reads.0 ∙ kept,
        reads.1 ∙ quiet,
      )
