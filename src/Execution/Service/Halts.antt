-- ===== src/Execution/Service/Halts.antt =====
-- When the service of src/ai_trading_team/execution/service.py leaves execution halted.
use my_team_tradding.Decimal.{DecimalContext}
use my_team_tradding.Execution.Guard.{FinalDispatchGuardResult}
use my_team_tradding.Execution.Lifecycle.{
  DemoExecutionRecord, DemoExecutionState, same_execution_state,
}
use my_team_tradding.Execution.Reconciliation.{
  CompositeBrokerEvidence, DemoReconciliationRecord, DemoReconciliationStatus,
  DemoSubmissionDisposition, DemoSubmissionReceipt,
}
use my_team_tradding.Execution.Records.{
  DemoExecutionApproval, DemoExecutionEnvironmentAcceptance, DemoExecutionPolicy, Digests,
  ExecutionControlState, QualifiedDemoExecutionCandidate,
}
use my_team_tradding.Execution.Service.{
  DemoExecutionAdapter, Method, World, appends, halt, halted_from, moves, now, saves,
}
use my_team_tradding.Prelude.State.{goes_on, lifts, returns, ◌>>=◌}
use my_team_tradding.Execution.Service.Dispatch.{
  checked, dispatch, execute_intent, guarded, obey, observed, rejects, submission_answered,
  submission_lost, submission_over,
}
use my_team_tradding.Execution.Service.Reconcile.{
  evidence_failed, is_unknown, judge, judge_as, reconcile_record, reconcile_submission,
  weigh_evidence,
}
use my_team_tradding.Execution.Service.Sent.Executions.{advance_updates}
use my_team_tradding.Execution.Store.{
  ExecutionControlEvent, ExecutionFault, append_control_event, control_state, is_same_control,
  last_control, same_control,
}
use my_team_tradding.Execution.Store.Records.{save}
use my_team_tradding.Execution.Terminal.{FinalDispatchObservation}
use my_team_tradding.Execution.Types.{
  DemoExecutionFailure, DemoExecutionFailureCategory, DemoOrderIntent,
}
use my_team_tradding.Prelude.{
  Bool, Bool-cases, List, Option, String, ap, arith, false, if◌then◌else◌, inl, inr, none, refl,
  some, subst, sym, true, ℕ, ◌∙◌, ◌≡◌, ◌≢◌,
}
use my_team_tradding.Prelude.Result.{Result, Result-cases, err, ok}
use my_team_tradding.Risk.Engine.{RiskDecision}
use my_team_tradding.Time.{Datetime}

-- A chain that returned.
module _ {ℓ κ} {A : Type ℓ} {B : Type κ} where
  goes_on-returned :
      (f : A → Method B) (p : Result ExecutionFault A × World) (b : B) (w' : World)
      → goes_on f p ≡ (ok b, w')
      → (a : A) × (w1 : World) × (p ≡ (ok a, w1)) × (f a w1 ≡ (ok b, w'))
  goes_on-returned f (ok a, w1) b w' h = (a, w1, refl, h)
  goes_on-returned f (err fault, w1) b w' h = cc

  returned :
      (m : Method A) (f : A → Method B) (w w' : World) (b : B)
      → (m >>= f) w ≡ (ok b, w')
      → (a : A) × (w1 : World) × (m w ≡ (ok a, w1)) × (f a w1 ≡ (ok b, w'))
  unfolding ◌>>=◌
  returned m f w w' b h = goes_on-returned f (m w) b w' h

-- What holds of the result and the world of every call that returns.
record Ends {A : Type 0} (Q : A → World → Type 0) (m : Method A) : Type 0 where
  pub holds : (w w' : World) (a : A) → m w ≡ (ok a, w') → Q a w'

abbrev IsHalted : World → Type 0
IsHalted w = control_state w.repository ≡ ExecutionControlState.halted

-- An unknown result has halted the control.
abbrev Halts : DemoExecutionRecord → World → Type 0
Halts y w = y.state ≡ DemoExecutionState.unknown → IsHalted w

bind-Ends {ℓ} :
    {A : Type ℓ} {B : Type 0} (Q : B → World → Type 0) (m : Method A) (f : A → Method B)
    → ((a : A) → Ends Q (f a))
    → Ends Q (m >>= f)
bind-Ends Q m f h = record {
  holds =
      λ w w' b e. let (a, w1, first, second) = returned m f w w' b e in (h a).holds w1 w' b second;
}

same_control-eq : (a b : ExecutionControlState) → same_control a b ≡ true → a ≡ b
same_control-eq a b h = ground arith

appends_halted :
    (event : ExecutionControlEvent) (w w' : World) (done : Unit {0})
    → event.state ≡ ExecutionControlState.halted
    → appends event w ≡ (ok done, w')
    → IsHalted w'
unfolding append_control_event control_state
appends_halted event w w' done s h =
    elim (Bool-cases
      (is_same_control event.previous_state (last_control w.repository.control_events))) [
        | inl next ↦ subst IsHalted (ap (λ p. p.1) (rw (next, append_control_event) at h)) s
        | inr other ↦ cc (rw (other, append_control_event) at h)
      ]

halt-IsHalted :
    (at : ℕ) (reason : String) (w w' : World) (done : Unit {0})
    → halt at reason w ≡ (ok done, w')
    → IsHalted w'
unfolding halt
halt-IsHalted at reason w w' done h =
    elim (Bool-cases (same_control (control_state w.repository) ExecutionControlState.halted)) [
      | inl already ↦
          subst IsHalted (ap (λ p. p.1) (rw (already, halt) at h))
            (same_control-eq (control_state w.repository) ExecutionControlState.halted already)
      | inr other ↦
          appends_halted (halted_from (control_state w.repository) at reason) w w' done refl
            (rw (other, halt) at h)
    ]

halt_return-Ends :
    (y : DemoExecutionRecord) (at : ℕ) (reason : String)
    → Ends Halts (halt at reason >>= λ done. returns y)
halt_return-Ends y at reason = record {
  holds = λ w w' b e p.
      let (done, w1, first, second) = returned (halt at reason) (λ x. returns y) w w' b e in
      subst IsHalted (ap (λ q. q.1) second) (halt-IsHalted at reason w w1 done first);
}

-- A move that halts behind it.
halting-Ends :
    (m : Method DemoExecutionRecord) (at : ℕ) (reason : String)
    → Ends Halts (m >>= λ y. halt at reason >>= λ done. returns y)
halting-Ends m at reason = bind-Ends Halts m _ (λ y. halt_return-Ends y at reason)

saved_itself : (y z : DemoExecutionRecord) (w w' : World) → saves y w ≡ (ok z, w') → y ≡ z
saved_itself y z w w' h = elim (Result-cases (save y w.repository)) [
  | inl (r', wrote) ↦ cc (rw wrote at h)
  | inr (fault, raised) ↦ cc (rw raised at h)
]

-- A move that returns has reached its state.
moves_reached :
    (x : DemoExecutionRecord) (state : DemoExecutionState) (at : ℕ)
    (failure : Option DemoExecutionFailure) (submission : Option DemoSubmissionReceipt)
    (reconciliation : Option DemoReconciliationRecord) (w w' : World) (z : DemoExecutionRecord)
    → moves x state at failure submission reconciliation w ≡ (ok z, w')
    → z.state ≡ state
unfolding moves
moves_reached x state at failure submission reconciliation w w' z h =
    let (y, w1, first, second) = returned _ (λ y. saves y) w w' z h in
    let advanced = ap (λ p. p.0) first in
    let updates = advance_updates x y state at failure submission reconciliation advanced in
    ap (λ v. v.state) (sym (saved_itself y z w1 w' second) ∙ updates)

moves-Ends :
    (x : DemoExecutionRecord) (state : DemoExecutionState) (at : ℕ)
    (failure : Option DemoExecutionFailure) (submission : Option DemoSubmissionReceipt)
    (reconciliation : Option DemoReconciliationRecord)
    → state ≢ DemoExecutionState.unknown
    → Ends Halts (moves x state at failure submission reconciliation)
moves-Ends x state at failure submission reconciliation settled_state = record {
  holds = λ w w' z e p. absurd (
      settled_state
        (sym (moves_reached x state at failure submission reconciliation w w' z e) ∙ p));
}

raises-Ends : (fault : ExecutionFault) → Ends Halts (lifts (err fault))
raises-Ends fault = record { holds = λ w w' z e p. cc }

judge_as-Ends :
    (status : DemoReconciliationStatus) (x : DemoExecutionRecord) (r : DemoReconciliationRecord)
    → x.state ≡ DemoExecutionState.submitted
    → Ends Halts (judge_as status x r)
unfolding judge_as
judge_as-Ends DemoReconciliationStatus.confirmed x r open_state = moves-Ends x _ _ _ _ _ (λ p. cc)
judge_as-Ends DemoReconciliationStatus.not_found x r open_state = rw (ap is_unknown open_state) (
    halting-Ends (moves x DemoExecutionState.unknown r.reconciled_at r.failure none (some r))
      r.reconciled_at "broker evidence remains inconclusive")
judge_as-Ends DemoReconciliationStatus.mismatch x r open_state =
    halting-Ends
      (moves x DemoExecutionState.reconciliation_failed r.reconciled_at r.failure none (some r))
      r.reconciled_at "broker reconciliation mismatch"

module _ (clock : ℕ → Datetime) (adapter : DemoExecutionAdapter) where
  weigh_evidence-Ends :
      (evidence : Option (List CompositeBrokerEvidence)) (x : DemoExecutionRecord)
      (receipt : DemoSubmissionReceipt)
      → x.state ≡ DemoExecutionState.submitted
      → Ends Halts (weigh_evidence clock adapter evidence x receipt)
  unfolding weigh_evidence evidence_failed judge
  weigh_evidence-Ends none x receipt open_state =
      rw (ap (λ s. same_execution_state s DemoExecutionState.submitted) open_state) (
        bind-Ends Halts (now clock) _ (λ at. bind-Ends Halts _ _ (λ y.
          bind-Ends Halts (now clock) _
            (λ later_time. halt_return-Ends y later_time "broker reconciliation failed"))))
  weigh_evidence-Ends (some evidence) x receipt open_state =
      bind-Ends Halts (now clock) _
        (λ at. bind-Ends Halts _ _ (λ r. judge_as-Ends r.status x r open_state))

  reconcile_submission-Ends :
      (submission : Option DemoSubmissionReceipt) (x : DemoExecutionRecord)
      → x.state ≡ DemoExecutionState.submitted
      → Ends Halts (reconcile_submission clock adapter submission x)
  unfolding reconcile_submission
  reconcile_submission-Ends none x open_state = raises-Ends _
  reconcile_submission-Ends (some receipt) x open_state =
      weigh_evidence-Ends (adapter.find_broker_evidence x.intent receipt) x receipt open_state

  submission_answered-Ends :
      (disposition : DemoSubmissionDisposition) (x : DemoExecutionRecord)
      (receipt : DemoSubmissionReceipt)
      → Ends Halts (submission_answered clock adapter disposition x receipt)
  unfolding submission_answered reconcile_record
  submission_answered-Ends DemoSubmissionDisposition.rejected x receipt =
      moves-Ends x _ _ _ _ _ (λ p. cc)
  submission_answered-Ends DemoSubmissionDisposition.unknown x receipt =
      halting-Ends _ receipt.dispatch_completed_at "unknown broker dispatch result"
  submission_answered-Ends DemoSubmissionDisposition.accepted x receipt = record {
    holds = λ w w' z e.
        let (y, w1, first, second) =
          returned
            (moves x DemoExecutionState.submitted receipt.dispatch_completed_at none (some receipt)
              none)
            (λ y. reconcile_record clock adapter y) w w' z e in
        (reconcile_submission-Ends y.submission y (
            moves_reached x DemoExecutionState.submitted receipt.dispatch_completed_at none
              (some receipt) none w w1 y first)).holds
          w1 w' z second;
  }

  submission_over-Ends :
      (answer : Option DemoSubmissionReceipt) (x : DemoExecutionRecord) (guard_time : ℕ)
      → Ends Halts (submission_over clock adapter answer x guard_time)
  unfolding submission_over submission_lost
  submission_over-Ends none x guard_time =
      bind-Ends Halts (now clock) _
        (λ at. bind-Ends Halts _ _ (λ receipt. halting-Ends _ at "unknown broker dispatch result"))
  submission_over-Ends (some receipt) x guard_time =
      submission_answered-Ends receipt.disposition x receipt

  module _ (c : DecimalContext) (d : Digests) (candidate : QualifiedDemoExecutionCandidate)
      (acceptance : DemoExecutionEnvironmentAcceptance) (approval : DemoExecutionApproval)
      (policy : DemoExecutionPolicy) (claim_owner : String) where
    if-Ends :
        (b : Bool) (m n : Method DemoExecutionRecord)
        → Ends Halts m
        → Ends Halts n
        → Ends Halts (if b then m else n)
    if-Ends true m n h k = h
    if-Ends false m n h k = k

    obey-Ends :
        (x : DemoExecutionRecord) (t : ℕ) (guard : FinalDispatchGuardResult)
        → Ends Halts
            (obey clock adapter c d candidate acceptance approval policy claim_owner x t guard)
    unfolding obey dispatch
    obey-Ends x t guard =
        if-Ends guard.passed _ _
          (bind-Ends Halts _ _ (λ y.
            bind-Ends Halts _ _
              (λ done. submission_over-Ends (adapter.submit_demo_market_intent y.intent) y t)))
          (moves-Ends x _ _ _ _ _ (λ p. cc))

    rejects-Ends :
        (x : DemoExecutionRecord) (code : DemoExecutionFailureCategory) (detail : String)
        → Ends Halts (
            rejects clock adapter c d candidate acceptance approval policy claim_owner x code
              detail)
    rejects-Ends x code detail =
        bind-Ends Halts (now clock) _ (λ at. moves-Ends x _ _ _ _ _ (λ p. cc))

    observed-Ends :
        (answer : Option FinalDispatchObservation) (x : DemoExecutionRecord)
        → Ends Halts
            (observed clock adapter c d candidate acceptance approval policy claim_owner answer x)
    unfolding observed guarded
    observed-Ends none x = rejects-Ends x _ _
    observed-Ends (some observation) x =
        bind-Ends Halts (now clock) _ (λ at. bind-Ends Halts _ _ (λ guard. obey-Ends x at guard))

    checked-Ends :
        (answer : Option Bool) (x : DemoExecutionRecord)
        → Ends Halts
            (checked clock adapter c d candidate acceptance approval policy claim_owner answer x)
    unfolding checked
    checked-Ends none x = rejects-Ends x _ _
    checked-Ends (some false) x = rejects-Ends x _ _
    checked-Ends (some true) x = observed-Ends (adapter.observe_final_dispatch x.intent) x

    -- An execution that returns a record in the state UNKNOWN, so one whose order may exist, leaves the
    -- execution control halted.
    pub execute_intent-IsHalted :
        (intent : DemoOrderIntent) (risk_revalidation : RiskDecision) (w w' : World)
        (y : DemoExecutionRecord)
        → execute_intent clock adapter c d candidate acceptance approval policy claim_owner intent
            risk_revalidation w
          ≡ (ok y, w')
        → y.state ≡ DemoExecutionState.unknown
        → control_state w'.repository ≡ ExecutionControlState.halted
    unfolding execute_intent
    execute_intent-IsHalted intent risk_revalidation w w' y =
        (bind-Ends Halts (now clock) _
            (λ at. bind-Ends Halts _ _ (λ x. checked-Ends (adapter.order_check x.intent) x))).holds
          w w' y
