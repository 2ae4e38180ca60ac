-- ===== src/Execution/Service/Authorized.antt =====
-- What stands behind an order that `execute` of src/ai_trading_team/execution/service.py sent.
use my_team_tradding.Decimal.{Decimal}
use my_team_tradding.Execution.Preflight.{DemoExecutionPreflight, FreshExecutionObservation}
use my_team_tradding.Execution.Records.{
  DemoExecutionApproval, DemoExecutionEnvironmentAcceptance, DemoExecutionPolicy,
  QualifiedDemoExecutionCandidate, ShadowTradeIntent,
}
use my_team_tradding.Execution.Service.{DemoExecutionAdapter, World}
use my_team_tradding.Execution.Service.Guarded.{WasSent, execute_intent-IsGuarded, silent-IsStable}
use my_team_tradding.Execution.Service.Prepare.{execute, observes, prepare, renews, seals}
use my_team_tradding.Execution.Service.Revalidation.{
  Arrangement, Prepared, require_single_approval, validate_authority,
}
use my_team_tradding.Execution.Service.Sealed.{IsPrepared, prepare-IsPrepared}
use my_team_tradding.Execution.Service.Sent.{IsStable, Keeps}
use my_team_tradding.Execution.Service.Sent.Methods.{
  >>=-Keeps, lifts-Keeps, now-Keeps, returns-Keeps,
}
use my_team_tradding.Execution.Store.{ExecutionFault}
use my_team_tradding.Prelude.{String, ap, inl, inr, refl, ℕ, ◌∙◌, ◌≡◌, ◌⊎◌}
use my_team_tradding.Prelude.Result.{Result, Result-cases}
use my_team_tradding.Prelude.State.{◌>>=◌}
use my_team_tradding.Risk.Engine.{RiskDecision}

module _ (a : Arrangement) (candidate : QualifiedDemoExecutionCandidate)
    (acceptance : DemoExecutionEnvironmentAcceptance) (policy : DemoExecutionPolicy) where
  module _ (P : World → Type 0) (stable : IsStable P) where
    reads-Keeps {ℓ} : {A : Type ℓ} (of : World → Result ExecutionFault A) → Keeps P (λ w. (of w, w))
    reads-Keeps of = record { holds = λ w h. h }

    seals-Keeps :
        (approval : DemoExecutionApproval) (shadow : ShadowTradeIntent)
        (facts : DemoExecutionPreflight) (renewed : RiskDecision) (volume : Decimal)
        (created_at : ℕ)
        → Keeps P
            (seals a candidate acceptance policy approval shadow facts renewed volume created_at)
    unfolding seals
    seals-Keeps approval shadow facts renewed volume created_at =
        >>=-Keeps P _ _ (lifts-Keeps P _) (λ stop.
          >>=-Keeps P _ _ (lifts-Keeps P _)
            (λ target. >>=-Keeps P _ _ (lifts-Keeps P _) (λ sealed_intent. returns-Keeps P _)))

    renews-Keeps :
        (approval : DemoExecutionApproval) (shadow : ShadowTradeIntent)
        (observation : FreshExecutionObservation) (facts : DemoExecutionPreflight)
        → Keeps P (renews a candidate acceptance policy approval shadow observation facts)
    unfolding renews
    renews-Keeps approval shadow observation facts = >>=-Keeps P _ _ (lifts-Keeps P _) (λ risk.
        >>=-Keeps P _ _ (now-Keeps P stable a.clock)
          (λ created_at. seals-Keeps approval shadow facts risk.0 risk.1 created_at))

    observes-Keeps :
        (started : ℕ) (approval : DemoExecutionApproval)
        → Keeps P (observes a candidate acceptance policy started approval)
    unfolding observes
    observes-Keeps started approval = >>=-Keeps P _ _ (lifts-Keeps P _) (λ observation.
        >>=-Keeps P _ _ (now-Keeps P stable a.clock) (λ completed.
          >>=-Keeps P _ _ (lifts-Keeps P _) (λ shadow.
            >>=-Keeps P _ _ (lifts-Keeps P _)
              (λ facts. renews-Keeps approval shadow observation facts))))

    prepare-Keeps : Keeps P (prepare a candidate acceptance policy)
    unfolding prepare require_single_approval validate_authority
    prepare-Keeps = >>=-Keeps P _ _ (now-Keeps P stable a.clock) (λ started.
        >>=-Keeps P _ _ (reads-Keeps _) (λ approval. >>=-Keeps P _ _ (reads-Keeps _) (λ authorized.
          >>=-Keeps P _ _ (lifts-Keeps P _) (λ current. observes-Keeps started approval))))

  module _ (adapter : DemoExecutionAdapter) (claim_owner : String) where
    -- An order that was prepared in `w` and sent on the way to `w'`.
    pub record WasAuthorized (w w' : World) : Type 0 where
      pub order : Prepared
      pub behind : World
      pub prepared_by : IsPrepared a candidate acceptance policy w order
      pub untouched : behind.repository ≡ w.repository
      pub unsent : behind.sent ≡ w.sent
      pub was_sent :
          WasSent a.clock adapter a.context a.digests candidate acceptance order.approval policy
            claim_owner order.intent order.revalidation behind w'

    -- Whether it returns or raises, `execute` sends nothing, or it sends one order that was prepared on
    -- the repository it found: under exactly one effective human approval, with a fresh decision of the
    -- risk engine for the analysed volume, on what was captured between two readings of the clock and
    -- passed every check of the preflight, and then under the claim, the broker's check and the final
    -- guard.
    pub execute-IsAuthorized :
        (w : World)
        → let w' = (execute a candidate acceptance policy adapter claim_owner w).1 in
          (w'.sent ≡ w.sent) ⊎ WasAuthorized w w'
    unfolding execute ◌>>=◌
    execute-IsAuthorized w =
        let behind = (prepare a candidate acceptance policy w).1 in
        elim (Result-cases (prepare a candidate acceptance policy w).0) [
          | inr (fault, stopped) ↦
              rw stopped
                (inl ((prepare-Keeps (λ v. v.sent ≡ w.sent) (silent-IsStable w.sent)).holds w refl))
          | inl (p, made) ↦
              let (prepared_by, untouched, unsent) =
                prepare-IsPrepared a candidate acceptance policy w behind p
                  (ap (λ r. (r, behind)) made) in
              rw made
                (elim (execute_intent-IsGuarded a.clock adapter a.context a.digests candidate
                  acceptance p.approval policy claim_owner p.intent p.revalidation behind) [
                    | inl quiet ↦ inl (quiet ∙ unsent)
                    | inr was_sent ↦ inr (record {
                      order = p;
                      behind = behind;
                      prepared_by = prepared_by;
                      untouched = untouched;
                      unsent = unsent;
                      was_sent = was_sent;
                    })
                  ])
        ]
