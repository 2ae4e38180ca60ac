-- ===== src/Execution/Service/Sent/Executions.antt =====
-- One execution by the service of src/ai_trading_team/execution/service.py and what it sends.
use my_team_tradding.Decimal.{DecimalContext}
use my_team_tradding.Execution.Guard.{FinalDispatchGuardResult}
use my_team_tradding.Execution.Lifecycle.{
  DemoExecutionEvent, DemoExecutionRecord, DemoExecutionState, advance, build_execution,
  is_valid_lifecycle, updated,
}
use my_team_tradding.Execution.Lifecycle.Once.{dispatches_in}
use my_team_tradding.Execution.Reconciliation.{DemoReconciliationRecord, DemoSubmissionReceipt}
use my_team_tradding.Execution.Records.{
  DemoExecutionApproval, DemoExecutionEnvironmentAcceptance, DemoExecutionPolicy, Digests,
  QualifiedDemoExecutionCandidate,
}
use my_team_tradding.Execution.Service.{
  DemoExecutionAdapter, Method, World, logs, moves, now, repository_call,
}
use my_team_tradding.Prelude.State.{◌>>=◌}
use my_team_tradding.Execution.Service.Dispatch.{
  checked, dispatch, execute_intent, guard_call, guarded, obey, observed,
}
use my_team_tradding.Execution.Service.Sent.{
  IsOnce, IsOnce-IsStable, Keeps, dispatches_of, is_update-grows, save-wrote, times_sent,
  write-IsOnce,
}
use my_team_tradding.Execution.Service.Sent.Methods.{
  >>=-Keeps, moves-Keeps, now-Keeps, submission_over-Keeps,
}
use my_team_tradding.Execution.Store.{Repository}
use my_team_tradding.Execution.Store.Claims.{claim-wrote}
use my_team_tradding.Execution.Store.Records.{claim, save, validated}
use my_team_tradding.Execution.Terminal.{FinalDispatchObservation}
use my_team_tradding.Execution.Types.{DemoExecutionFailure, DemoOrderIntent}
use my_team_tradding.Prelude.{
  Bool, Bool-cases, List, Option, String, [], ap, arith, false, inl, inr, none, some, str_eq,
  str_eq_iff, subst, suc, sym, true, ℕ, ◌++◌, ◌+◌, ◌∙◌, ◌∷◌, ◌≡◌, ◌≤◌,
}
use my_team_tradding.Prelude.Dict.{insert, lookup, lookup-insert_self}
use my_team_tradding.Prelude.Result.{Result-cases, ok, ok-injective}
use my_team_tradding.Risk.Engine.{RiskDecision}
use my_team_tradding.Time.{Datetime}

pub dispatches-add :
    (events : List DemoExecutionEvent) (event : DemoExecutionEvent)
    → dispatches_in (events ++ (event ∷ [])) ≡ dispatches_in events + dispatches_in (event ∷ [])
dispatches-add [] event = omega arith
dispatches-add (first ∷ rest) event = let behind = dispatches-add rest event in ground arith

pub advance_updates :
    (x y : DemoExecutionRecord) (state : DemoExecutionState) (at : ℕ)
    (failure : Option DemoExecutionFailure) (submission : Option DemoSubmissionReceipt)
    (reconciliation : Option DemoReconciliationRecord)
    → validated (advance x state at failure submission reconciliation) ≡ ok y
    → y ≡ updated x state at failure submission reconciliation
unfolding advance build_execution
advance_updates x y state at failure submission reconciliation h =
    let s = updated x state at failure submission reconciliation in
    elim (Bool-cases (is_valid_lifecycle s)) [
      | inl good ↦ sym (ok-injective (rw good at h))
      | inr bad ↦ cc (rw bad at h)
    ]

-- The record is stored, and has not been dispatched.
abbrev Ready : DemoExecutionRecord → World → Type 0
Ready x w =
    (lookup x.intent.execution_intent_id w.repository.records ≡ some x)
    × (dispatches_in x.events ≡ 0)

record ReadyKeeps {ℓ} {A : Type ℓ} (x : DemoExecutionRecord) (m : Method A) : Type 0 where
  pub holds : (w : World) → IsOnce w → Ready x w → IsOnce (m w).1

-- A log entry for an intent whose record tells of a dispatch and that was not sent before.
logs-IsOnce :
    (w : World) (intent : DemoOrderIntent)
    → IsOnce w
    → times_sent intent.execution_intent_id w.sent ≡ 0
    → 1 ≤ dispatches_of (lookup intent.execution_intent_id w.repository.records)
    → IsOnce (logs intent w).1
logs-IsOnce w intent h unsent told j =
    let here = h j in
    elim (Bool-cases (str_eq intent.execution_intent_id j)) [
      | inl own ↦
          let e = (str_eq_iff intent.execution_intent_id j).0 own in
          let zero_times : times_sent j w.sent ≡ 0 =
            subst (λ k. times_sent k w.sent ≡ 0) e unsent in
          let one : 1 ≤ dispatches_of (lookup j w.repository.records) =
            subst (λ k. 1 ≤ dispatches_of (lookup k w.repository.records)) e told in
          rw own (omega (arith, zero_times), omega (arith, zero_times, one))
      | inr other ↦ rw other (omega (arith, here))
    ]

module _ (clock : ℕ → Datetime) (adapter : DemoExecutionAdapter) where
  -- Behind the save of the record of the dispatch.
  sent-IsOnce :
      (w : World) (x y : DemoExecutionRecord) (t : ℕ) (r' : Repository)
      → IsOnce w
      → Ready x w
      → y ≡ updated x DemoExecutionState.dispatching t none none none
      → save y w.repository ≡ ok r'
      → IsOnce (logs y.intent (record w { repository = r' })).1
  sent-IsOnce w x y t r' h ready same wrote =
      let (current, found, passes, written) = save-wrote y w.repository r' wrote in
      let id : y.intent.execution_intent_id ≡ x.intent.execution_intent_id =
        ap (λ z. z.intent.execution_intent_id) same in
      let one : dispatches_in y.events ≡ 1 =
        ap (λ z. dispatches_in z.events) same
        ∙ (dispatches-add x.events _ ∙ omega (arith, ready.1)) in
      let stored : lookup y.intent.execution_intent_id r'.records ≡ some y =
        ap (λ z. lookup y.intent.execution_intent_id z.records) written
        ∙ lookup-insert_self y.intent.execution_intent_id y w.repository.records in
      let none_yet : times_sent y.intent.execution_intent_id w.sent ≡ 0 =
        rw id
          (omega (arith, (h x.intent.execution_intent_id).1, ap dispatches_of ready.0, ready.1)) in
      logs-IsOnce (record w { repository = r' }) y.intent
        (write-IsOnce w y.intent.execution_intent_id y r' h
          (rw found (is_update-grows current y passes)) (ap (λ r. r.records) written))
        none_yet (rw stored (omega (arith, one)))

  dispatch_keeps :
      (x : DemoExecutionRecord) (t : ℕ) (w : World)
      → IsOnce w
      → Ready x w
      → IsOnce (dispatch clock adapter x t w).1
  unfolding dispatch moves ◌>>=◌
  dispatch_keeps x t w h ready =
      elim (Result-cases (validated (advance x DemoExecutionState.dispatching t none none none))) [
        | inr (fault, raised) ↦ rw raised h
        | inl (y, advanced) ↦ rw advanced (elim (Result-cases (save y w.repository)) [
          | inr (fault, raised) ↦ rw raised h
          | inl (r', wrote) ↦ rw wrote (
              (submission_over-Keeps IsOnce IsOnce-IsStable clock adapter
                  (adapter.submit_demo_market_intent y.intent) y t).holds
                (logs y.intent (record w { repository = r' })).1
                (sent-IsOnce w x y t r' h ready
                  (advance_updates x y DemoExecutionState.dispatching t none none none advanced)
                  wrote))
        ])
      ]

  module _ (c : DecimalContext) (d : Digests) (candidate : QualifiedDemoExecutionCandidate)
      (acceptance : DemoExecutionEnvironmentAcceptance) (approval : DemoExecutionApproval)
      (policy : DemoExecutionPolicy) (claim_owner : String) where
    obey_keeps :
        (x : DemoExecutionRecord) (t : ℕ) (guard : FinalDispatchGuardResult) (w : World)
        → IsOnce w
        → Ready x w
        → IsOnce
            (obey clock adapter c d candidate acceptance approval policy claim_owner x t guard w).1
    unfolding obey
    obey_keeps x t guard w h ready = elim (Bool-cases guard.passed) [
      | inl passed ↦ rw passed (dispatch_keeps x t w h ready)
      | inr stopped ↦ rw stopped (
          (moves-Keeps IsOnce IsOnce-IsStable x DemoExecutionState.rejected t guard.failure none
              none).holds
            w h)
    ]

    guarded_keeps :
        (x : DemoExecutionRecord) (observation : FinalDispatchObservation) (w : World)
        → IsOnce w
        → Ready x w
        → IsOnce
            (guarded clock adapter c d candidate acceptance approval policy claim_owner x
              observation w).1
    unfolding guarded guard_call ◌>>=◌
    guarded_keeps x observation w h ready = elim (Result-cases (now clock w).0) [
      | inr (fault, raised) ↦ rw raised h
      | inl (at, read) ↦
          let ticked : World = record w { readings = suc w.readings } in
          rw read
            (elim (Result-cases
              (guard_call clock adapter c d candidate acceptance approval policy claim_owner x
                observation at ticked).0) [
                  | inr (fault, raised) ↦ rw raised h
                  | inl (guard, judged) ↦ rw judged (obey_keeps x at guard ticked h ready)
                ])
    ]

    observed_keeps :
        (observation : Option FinalDispatchObservation) (x : DemoExecutionRecord) (w : World)
        → IsOnce w
        → Ready x w
        → IsOnce
            (observed clock adapter c d candidate acceptance approval policy claim_owner observation
              x w).1
    unfolding observed
    observed_keeps none x w h ready =
        (>>=-Keeps IsOnce (now clock) _ (now-Keeps IsOnce IsOnce-IsStable clock)
            (λ at. moves-Keeps IsOnce IsOnce-IsStable x _ _ _ _ _)).holds
          w h
    observed_keeps (some observation) x w h ready = guarded_keeps x observation w h ready

    checked_keeps :
        (accepted : Option Bool) (x : DemoExecutionRecord) (w : World)
        → IsOnce w
        → Ready x w
        → IsOnce
            (checked clock adapter c d candidate acceptance approval policy claim_owner accepted x
              w).1
    unfolding checked
    checked_keeps none x w h ready =
        (>>=-Keeps IsOnce (now clock) _ (now-Keeps IsOnce IsOnce-IsStable clock)
            (λ at. moves-Keeps IsOnce IsOnce-IsStable x _ _ _ _ _)).holds
          w h
    checked_keeps (some false) x w h ready =
        (>>=-Keeps IsOnce (now clock) _ (now-Keeps IsOnce IsOnce-IsStable clock)
            (λ at. moves-Keeps IsOnce IsOnce-IsStable x _ _ _ _ _)).holds
          w h
    checked_keeps (some true) x w h ready =
        observed_keeps (adapter.observe_final_dispatch x.intent) x w h ready

    claimed_keeps :
        (intent : DemoOrderIntent) (risk_revalidation : RiskDecision) (at : ℕ) (w : World)
        → IsOnce w
        → IsOnce
            ((repository_call (claim intent risk_revalidation claim_owner at) >>= λ x.
                checked clock adapter c d candidate acceptance approval policy claim_owner
                  (adapter.order_check x.intent)
                  x)
              w).1
    unfolding ◌>>=◌
    claimed_keeps intent risk_revalidation at w h =
        elim (Result-cases (claim intent risk_revalidation claim_owner at w.repository)) [
          | inr (fault, raised) ↦ rw raised h
          | inl ((x, r'), wrote) ↦
              let (same, stored, absent) =
                claim-wrote intent risk_revalidation claim_owner at w.repository r' x wrote in
              let records : r'.records
                  ≡ insert x.intent.execution_intent_id x w.repository.records =
                ap (λ r. r.records) stored in
              rw wrote (
                checked_keeps (adapter.order_check x.intent) x (record w { repository = r' })
                  (write-IsOnce w x.intent.execution_intent_id x r' h (rw absent (omega arith))
                    records)
                  (
                    ap (lookup x.intent.execution_intent_id) records
                        ∙ lookup-insert_self x.intent.execution_intent_id x w.repository.records,
                    ap (λ z. dispatches_in z.events) same,
                  ))
        ]

    pub execute_intent-Keeps :
        (intent : DemoOrderIntent) (risk_revalidation : RiskDecision)
        → Keeps IsOnce (
            execute_intent clock adapter c d candidate acceptance approval policy claim_owner intent
              risk_revalidation)
    unfolding execute_intent
    execute_intent-Keeps intent risk_revalidation =
        >>=-Keeps IsOnce (now clock) _ (now-Keeps IsOnce IsOnce-IsStable clock)
          (λ at. record { holds = claimed_keeps intent risk_revalidation at })
