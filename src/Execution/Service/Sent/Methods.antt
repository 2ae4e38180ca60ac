-- ===== src/Execution/Service/Sent/Methods.antt =====
-- The methods of the service that send nothing.
use my_team_tradding.Execution.Lifecycle.{DemoExecutionRecord, DemoExecutionState, advance}
use my_team_tradding.Execution.Reconciliation.{
  CompositeBrokerEvidence, DemoReconciliationRecord, DemoReconciliationStatus,
  DemoSubmissionDisposition, DemoSubmissionReceipt, reconcile_broker_evidence,
}
use my_team_tradding.Execution.Records.{ExecutionControlState}
use my_team_tradding.Execution.Service.{
  DemoExecutionAdapter, Method, World, halt, halted_from, moves, now,
}
use my_team_tradding.Prelude.State.{goes_on, lifts, returns, ◌>>=◌}
use my_team_tradding.Execution.Service.Dispatch.{
  submission_answered, submission_lost, submission_over,
}
use my_team_tradding.Execution.Service.Reconcile.{
  evidence_failed, is_unknown, judge, judge_as, reconcile_record, reconcile_stored,
  reconcile_submission, reconcile_unknown, weigh_evidence,
}
use my_team_tradding.Execution.Service.Sent.{IsStable, Keeps}
use my_team_tradding.Execution.Store.{ExecutionFault, control_state, same_control}
use my_team_tradding.Execution.Store.Records.{get_record, validated}
use my_team_tradding.Execution.Store.Recovery.{build_receipt, unknown_receipt}
use my_team_tradding.Execution.Types.{DemoExecutionFailure}
use my_team_tradding.Prelude.{
  Bool, Bool-cases, List, Option, String, false, if◌then◌else◌, inl, inr, none, some, true, ℕ,
}
use my_team_tradding.Prelude.Result.{Result, err, ok}
use my_team_tradding.Time.{Datetime}

module _ (P : World → Type 0) where
  pub lifts-Keeps {ℓ} : {A : Type ℓ} (r : Result ExecutionFault A) → Keeps P (lifts r)
  lifts-Keeps r = record { holds = λ w h. h }

  pub returns-Keeps {ℓ} : {A : Type ℓ} (a : A) → Keeps P (returns a)
  returns-Keeps a = record { holds = λ w h. h }

  goes_on-Keeps {ℓ κ} :
      {A : Type ℓ} {B : Type κ} (f : A → Method B) (p : Result ExecutionFault A × World)
      → ((a : A) → Keeps P (f a))
      → P p.1
      → P (goes_on f p).1
  goes_on-Keeps f (ok a, w) k h = (k a).holds w h
  goes_on-Keeps f (err fault, w) k h = h

  pub >>=-Keeps {ℓ κ} :
      {A : Type ℓ} {B : Type κ} (m : Method A) (f : A → Method B)
      → Keeps P m
      → ((a : A) → Keeps P (f a))
      → Keeps P (m >>= f)
  unfolding ◌>>=◌
  >>=-Keeps m f keeps k = record { holds = λ w h. goes_on-Keeps f (m w) k (keeps.holds w h) }

  pub if-Keeps {ℓ} :
      {A : Type ℓ} (b : Bool) (m n : Method A)
      → Keeps P m
      → Keeps P n
      → Keeps P (if b then m else n)
  if-Keeps true m n h k = h
  if-Keeps false m n h k = k

module _ (P : World → Type 0) (stable : IsStable P) where
  pub now-Keeps : (clock : ℕ → Datetime) → Keeps P (now clock)
  now-Keeps clock = record { holds = stable.read }

  pub halt-Keeps : (at : ℕ) (reason : String) → Keeps P (halt at reason)
  unfolding halt
  halt-Keeps at reason = record {
    holds = λ w h.
        elim (Bool-cases (same_control (control_state w.repository) ExecutionControlState.halted)) [
          | inl already ↦ rw already h
          | inr other ↦
              rw other (stable.controlled (halted_from (control_state w.repository) at reason) w h)
        ];
  }

  pub moves-Keeps :
      (x : DemoExecutionRecord) (state : DemoExecutionState) (at : ℕ)
      (failure : Option DemoExecutionFailure) (submission : Option DemoSubmissionReceipt)
      (reconciliation : Option DemoReconciliationRecord)
      → Keeps P (moves x state at failure submission reconciliation)
  unfolding moves
  moves-Keeps x state at failure submission reconciliation =
      >>=-Keeps P _ _
        (lifts-Keeps P (validated (advance x state at failure submission reconciliation)))
        (λ y. record { holds = stable.saved y })

  -- A move, a halt, and the record of the move.
  pub moves_halting-Keeps :
      (m : Method DemoExecutionRecord) (at : ℕ) (reason : String)
      → Keeps P m
      → Keeps P (m >>= λ y. halt at reason >>= λ done. returns y)
  moves_halting-Keeps m at reason keeps =
      >>=-Keeps P m _ keeps
        (λ y. >>=-Keeps P _ _ (halt-Keeps at reason) (λ done. returns-Keeps P y))

  judge_as-Keeps :
      (status : DemoReconciliationStatus) (x : DemoExecutionRecord) (r : DemoReconciliationRecord)
      → Keeps P (judge_as status x r)
  unfolding judge_as
  judge_as-Keeps DemoReconciliationStatus.confirmed x r = search (moves-Keeps)
  judge_as-Keeps DemoReconciliationStatus.not_found x r =
      search (if-Keeps, returns-Keeps, moves_halting-Keeps, moves-Keeps)
  judge_as-Keeps DemoReconciliationStatus.mismatch x r = search (moves_halting-Keeps, moves-Keeps)

  judge-Keeps : (x : DemoExecutionRecord) (r : DemoReconciliationRecord) → Keeps P (judge x r)
  unfolding judge
  judge-Keeps x r = judge_as-Keeps r.status x r

  module _ (clock : ℕ → Datetime) (adapter : DemoExecutionAdapter) where
    evidence_failed-Keeps : (x : DemoExecutionRecord) → Keeps P (evidence_failed clock adapter x)
    unfolding evidence_failed
    evidence_failed-Keeps x =
        search (if-Keeps, >>=-Keeps, now-Keeps, moves-Keeps, halt-Keeps, returns-Keeps) depth 9

    weigh_evidence-Keeps :
        (evidence : Option (List CompositeBrokerEvidence)) (x : DemoExecutionRecord)
        (receipt : DemoSubmissionReceipt)
        → Keeps P (weigh_evidence clock adapter evidence x receipt)
    unfolding weigh_evidence
    weigh_evidence-Keeps none x receipt = evidence_failed-Keeps x
    weigh_evidence-Keeps (some evidence) x receipt =
        >>=-Keeps P (now clock) _ (now-Keeps clock) (λ at.
          >>=-Keeps P _ _
            (lifts-Keeps P (validated (reconcile_broker_evidence x.intent receipt evidence at)))
            (λ r. judge-Keeps x r))

    reconcile_submission-Keeps :
        (submission : Option DemoSubmissionReceipt) (x : DemoExecutionRecord)
        → Keeps P (reconcile_submission clock adapter submission x)
    unfolding reconcile_submission
    reconcile_submission-Keeps none x = lifts-Keeps P _
    reconcile_submission-Keeps (some receipt) x = weigh_evidence-Keeps _ x receipt

    pub reconcile_record-Keeps :
        (x : DemoExecutionRecord) → Keeps P (reconcile_record clock adapter x)
    unfolding reconcile_record
    reconcile_record-Keeps x = reconcile_submission-Keeps x.submission x

    reconcile_stored-Keeps :
        (stored : Option DemoExecutionRecord) → Keeps P (reconcile_stored clock adapter stored)
    unfolding reconcile_stored
    reconcile_stored-Keeps none = lifts-Keeps P _
    reconcile_stored-Keeps (some x) =
        if-Keeps P (is_unknown x.state) _ _ (reconcile_record-Keeps x) (lifts-Keeps P _)

    pub reconcile_unknown-Keeps : (id : String) → Keeps P (reconcile_unknown clock adapter id)
    unfolding reconcile_unknown
    reconcile_unknown-Keeps id = record {
      holds = λ w. (reconcile_stored-Keeps (get_record id w.repository)).holds w;
    }

    submission_lost-Keeps :
        (x : DemoExecutionRecord) (guard_time : ℕ)
        → Keeps P (submission_lost clock adapter x guard_time)
    unfolding submission_lost
    submission_lost-Keeps x guard_time = >>=-Keeps P (now clock) _ (now-Keeps clock) (λ at.
        >>=-Keeps P _ _ (lifts-Keeps P (build_receipt (unknown_receipt x.intent guard_time at)))
          (λ receipt. moves_halting-Keeps _ _ _ (moves-Keeps x _ _ _ _ _)))

    submission_answered-Keeps :
        (disposition : DemoSubmissionDisposition) (x : DemoExecutionRecord)
        (receipt : DemoSubmissionReceipt)
        → Keeps P (submission_answered clock adapter disposition x receipt)
    unfolding submission_answered
    submission_answered-Keeps DemoSubmissionDisposition.rejected x receipt = moves-Keeps x _ _ _ _ _
    submission_answered-Keeps DemoSubmissionDisposition.unknown x receipt =
        moves_halting-Keeps _ _ _ (moves-Keeps x _ _ _ _ _)
    submission_answered-Keeps DemoSubmissionDisposition.accepted x receipt =
        >>=-Keeps P _ _ (moves-Keeps x _ _ _ _ _) reconcile_record-Keeps

    pub submission_over-Keeps :
        (answer : Option DemoSubmissionReceipt) (x : DemoExecutionRecord) (guard_time : ℕ)
        → Keeps P (submission_over clock adapter answer x guard_time)
    unfolding submission_over
    submission_over-Keeps none x guard_time = submission_lost-Keeps x guard_time
    submission_over-Keeps (some receipt) x guard_time =
        submission_answered-Keeps receipt.disposition x receipt
