-- ===== src/Execution/Service/Guarded.antt =====
-- Under which checks the service of src/ai_trading_team/execution/service.py sends an intent.
use my_team_tradding.Decimal.{DecimalContext}
use my_team_tradding.Execution.Guard.Safety.{IsDispatchable, evaluate_guard-IsDispatchable}
use my_team_tradding.Execution.Lifecycle.{DemoExecutionRecord, DemoExecutionState, advance}
use my_team_tradding.Execution.Records.{
  DemoExecutionApproval, DemoExecutionEnvironmentAcceptance, DemoExecutionPolicy, Digests,
  QualifiedDemoExecutionCandidate,
}
use my_team_tradding.Execution.Service.{
  DemoExecutionAdapter, World, appends, logs, moves, now, reject_before_dispatch, saves,
}
use my_team_tradding.Prelude.State.{◌>>=◌}
use my_team_tradding.Execution.Service.Dispatch.{
  checked, dispatch, execute_intent, guard_call, guarded, obey, observed,
}
use my_team_tradding.Execution.Service.Sent.{IsStable}
use my_team_tradding.Execution.Service.Sent.Executions.{advance_updates}
use my_team_tradding.Execution.Service.Sent.Methods.{
  >>=-Keeps, moves-Keeps, now-Keeps, submission_over-Keeps,
}
use my_team_tradding.Execution.Store.{
  ExecutionControlEvent, Repository, append_control_event, approval_is_revoked, control_state,
}
use my_team_tradding.Execution.Store.Claims.{claim-wrote}
use my_team_tradding.Execution.Store.Records.{
  claim, claim_is_owned, claimed_record, save, store_claim, validated,
}
use my_team_tradding.Execution.Terminal.{FinalDispatchObservation}
use my_team_tradding.Execution.Types.{DemoExecutionFailure, DemoOrderIntent}
use my_team_tradding.Prelude.{
  Bool, Bool-cases, List, Option, String, ap, false, inl, inr, none, refl, some, subst, suc, true,
  ℕ, ◌∙◌, ◌∷◌, ◌≡◌, ◌⊎◌,
}
use my_team_tradding.Prelude.Dict.{lookup}
use my_team_tradding.Prelude.Result.{Result-cases}
use my_team_tradding.Risk.Engine.{RiskDecision}
use my_team_tradding.Time.{Datetime}

saves_silent :
    (s : List String) (x : DemoExecutionRecord) (w : World) → w.sent ≡ s → (saves x w).1.sent ≡ s
saves_silent s x w h = elim (Result-cases (save x w.repository)) [
  | inl (r', wrote) ↦ rw wrote h
  | inr (fault, raised) ↦ rw raised h
]

appends_silent :
    (s : List String) (event : ExecutionControlEvent) (w : World)
    → w.sent ≡ s
    → (appends event w).1.sent ≡ s
appends_silent s event w h = elim (Result-cases (append_control_event event w.repository)) [
  | inl (r', wrote) ↦ rw wrote h
  | inr (fault, raised) ↦ rw raised h
]

pub silent-IsStable : (s : List String) → IsStable (λ w. w.sent ≡ s)
silent-IsStable s = record {
  saved = saves_silent s;
  controlled = appends_silent s;
  read = λ w h. h;
}

module _ (clock : ℕ → Datetime) (adapter : DemoExecutionAdapter) where
  -- A dispatch sends its own intent or nothing.
  dispatch_sent :
      (x : DemoExecutionRecord) (t : ℕ) (w : World)
      → ((dispatch clock adapter x t w).1.sent ≡ w.sent)
        ⊎ ((dispatch clock adapter x t w).1.sent ≡ x.intent.execution_intent_id ∷ w.sent)
  unfolding dispatch moves ◌>>=◌
  dispatch_sent x t w =
      elim (Result-cases (validated (advance x DemoExecutionState.dispatching t none none none))) [
        | inr (fault, raised) ↦ rw raised (inl refl)
        | inl (y, advanced) ↦ rw advanced (elim (Result-cases (save y w.repository)) [
          | inr (fault, raised) ↦ rw raised (inl refl)
          | inl (r', wrote) ↦
              let id : y.intent.execution_intent_id ≡ x.intent.execution_intent_id =
                ap (λ z. z.intent.execution_intent_id)
                  (advance_updates x y DemoExecutionState.dispatching t none none none advanced) in
              let s = y.intent.execution_intent_id ∷ w.sent in
              rw wrote (
                inr (
                  (submission_over-Keeps (λ v. v.sent ≡ s) (silent-IsStable s) clock adapter
                      (adapter.submit_demo_market_intent y.intent) y t).holds
                    (logs y.intent (record w { repository = r' })).1 refl
                  ∙ ap (λ i. i ∷ w.sent) id))
        ])
      ]

  silent_rejection :
      (x : DemoExecutionRecord) (at : ℕ) (failure : Option DemoExecutionFailure) (w : World)
      → (reject_before_dispatch x failure at w).1.sent ≡ w.sent
  silent_rejection x at failure w =
      (moves-Keeps (λ v. v.sent ≡ w.sent) (silent-IsStable w.sent) x DemoExecutionState.rejected at
          failure none none).holds
        w refl

  silent_rejects :
      (x : DemoExecutionRecord) (failure : Option DemoExecutionFailure) (w : World)
      → ((now clock >>= λ at. reject_before_dispatch x failure at) w).1.sent ≡ w.sent
  silent_rejects x failure w =
      (>>=-Keeps (λ v. v.sent ≡ w.sent) (now clock) _
          (now-Keeps (λ v. v.sent ≡ w.sent) (silent-IsStable w.sent) clock)
          (λ at.
            moves-Keeps (λ v. v.sent ≡ w.sent) (silent-IsStable w.sent) x
              DemoExecutionState.rejected at failure none none)).holds
        w refl

  module _ (c : DecimalContext) (d : Digests) (candidate : QualifiedDemoExecutionCandidate)
      (acceptance : DemoExecutionEnvironmentAcceptance) (approval : DemoExecutionApproval)
      (policy : DemoExecutionPolicy) (claim_owner : String) where
    -- The intent of `x` was sent between `w` and `w'`, under a guard that passed.
    pub record WasGuarded (x : DemoExecutionRecord) (w w' : World) : Type 0 where
      pub observation : FinalDispatchObservation
      pub at : ℕ
      pub seen : adapter.observe_final_dispatch x.intent ≡ some observation
      pub fit :
          IsDispatchable c d x candidate acceptance approval policy observation
            (claim_is_owned x.intent.execution_intent_id claim_owner w.repository)
            (approval_is_revoked approval.approval_id (d.of_approval approval) w.repository)
            (control_state w.repository)
            at
      pub logged : w'.sent ≡ x.intent.execution_intent_id ∷ w.sent

    abbrev Outcome : DemoExecutionRecord → World → World → Type 0
    Outcome x w w' = (w'.sent ≡ w.sent) ⊎ WasGuarded x w w'

    guarded_outcome :
        (x : DemoExecutionRecord) (observation : FinalDispatchObservation) (w : World)
        → adapter.observe_final_dispatch x.intent ≡ some observation
        → Outcome x w
            (guarded clock adapter c d candidate acceptance approval policy claim_owner x
              observation w).1
    unfolding guarded guard_call obey ◌>>=◌
    guarded_outcome x observation w seen = elim (Result-cases (now clock w).0) [
      | inr (fault, raised) ↦ rw raised (inl refl)
      | inl (at, read) ↦
          let ticked : World = record w { readings = suc w.readings } in
          let (guard, judged, fits) =
            evaluate_guard-IsDispatchable c d x candidate acceptance approval policy observation
              (claim_is_owned x.intent.execution_intent_id claim_owner w.repository)
              (approval_is_revoked approval.approval_id (d.of_approval approval) w.repository)
              (control_state w.repository) at in
          rw (read, judged)
            (elim (Bool-cases guard.passed) [
              | inr stopped ↦ rw stopped (inl (silent_rejection x at guard.failure ticked))
              | inl passed ↦ rw passed (elim (dispatch_sent x at ticked) [
                | inl quiet ↦ inl quiet
                | inr logged ↦ inr (record {
                  observation = observation;
                  at = at;
                  seen = seen;
                  fit = fits passed;
                  logged = logged;
                })
              ])
            ])
    ]

    observed_outcome :
        (answer : Option FinalDispatchObservation) (x : DemoExecutionRecord) (w : World)
        → adapter.observe_final_dispatch x.intent ≡ answer
        → Outcome x w
            (observed clock adapter c d candidate acceptance approval policy claim_owner answer x
              w).1
    unfolding observed
    observed_outcome none x w seen = inl (silent_rejects x _ w)
    observed_outcome (some observation) x w seen = guarded_outcome x observation w seen

    -- A sent intent was accepted by the broker's check.
    checked_outcome :
        (answer : Option Bool) (x : DemoExecutionRecord) (w : World)
        → let w' =
            (checked clock adapter c d candidate acceptance approval policy claim_owner answer x
              w).1 in
          (w'.sent ≡ w.sent) ⊎ ((answer ≡ some true) × WasGuarded x w w')
    unfolding checked
    checked_outcome none x w = inl (silent_rejects x _ w)
    checked_outcome (some false) x w = inl (silent_rejects x _ w)
    checked_outcome (some true) x w =
        elim (observed_outcome (adapter.observe_final_dispatch x.intent) x w refl) [
          | inl quiet ↦ inl quiet
          | inr guarded_by ↦ inr (refl, guarded_by)
        ]

    -- The world behind a claim that wrote `r`.
    abbrev pub behind_claim : World → Repository → World
    behind_claim w r = record w { repository = r; readings = suc w.readings }

    pub record WasSent (intent : DemoOrderIntent) (risk_revalidation : RiskDecision) (w w' : World)
        : Type 0 where
      pub claimed_at : ℕ
      pub unclaimed : lookup intent.execution_intent_id w.repository.records ≡ none
      pub accepted : adapter.order_check intent ≡ some true
      pub guarded_by :
          let x = claimed_record intent risk_revalidation claim_owner claimed_at in
          WasGuarded x (behind_claim w (store_claim x w.repository)) w'

    -- An execution sends nothing, or it sends its intent once: then the intent had no record before,
    -- the broker's check accepted it, and the final guard passed on the claimed record, the broker's
    -- last observation and the approvals and control state of the repository behind the claim.
    pub execute_intent-IsGuarded :
        (intent : DemoOrderIntent) (risk_revalidation : RiskDecision) (w : World)
        → let w' =
            (execute_intent clock adapter c d candidate acceptance approval policy claim_owner
              intent risk_revalidation w).1 in
          (w'.sent ≡ w.sent) ⊎ WasSent intent risk_revalidation w w'
    unfolding execute_intent ◌>>=◌
    execute_intent-IsGuarded intent risk_revalidation w = elim (Result-cases (now clock w).0) [
      | inr (fault, raised) ↦ rw raised (inl refl)
      | inl (at, read) ↦
          rw read
            (elim (Result-cases (claim intent risk_revalidation claim_owner at w.repository)) [
              | inr (fault, raised) ↦ rw raised (inl refl)
              | inl ((x, r'), wrote) ↦
                  let (same, stored, absent) =
                    claim-wrote intent risk_revalidation claim_owner at w.repository r' x wrote in
                  let w' =
                    (checked clock adapter c d candidate acceptance approval policy claim_owner
                      (adapter.order_check x.intent) x (behind_claim w r')).1 in
                  rw wrote
                    (elim (checked_outcome (adapter.order_check x.intent) x (behind_claim w r')) [
                      | inl quiet ↦ inl quiet
                      | inr (answer, by) ↦ inr (record {
                        claimed_at = at;
                        unclaimed =
                            subst
                              (λ z. lookup z.intent.execution_intent_id w.repository.records ≡ none)
                              same absent;
                        accepted =
                            subst (λ z. adapter.order_check z.intent ≡ some true) same answer;
                        guarded_by =
                            subst
                              (λ z. WasGuarded z (behind_claim w (store_claim z w.repository)) w')
                              same (subst (λ r. WasGuarded x (behind_claim w r) w') stored by);
                      })
                    ])
            ])
    ]
