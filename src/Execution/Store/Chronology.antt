-- ===== src/Execution/Store/Chronology.antt =====
-- When a record that the recovery of src/ai_trading_team/storage/execution.py writes passes the
-- validator of its schema.
use my_team_tradding.Execution.Lifecycle.{
  DemoExecutionEvent, DemoExecutionRecord, DemoExecutionState, has_evidence, is_allowed,
  is_valid_history, is_valid_lifecycle, last_of, same_execution_state, updated,
}
use my_team_tradding.Execution.Lifecycle.Exact.{updated_valid}
use my_team_tradding.Execution.Lifecycle.Moves.{evidence_of}
use my_team_tradding.Execution.Lifecycle.Once.{history_tests}
use my_team_tradding.Execution.Reconciliation.{DemoSubmissionReceipt}
use my_team_tradding.Execution.Store.{ExecutionFault}
use my_team_tradding.Execution.Store.Recovery.{
  recover_as, recover_record, submission_or_unknown, unsure,
}
use my_team_tradding.Execution.Types.{
  DemoExecutionFailure, dispatch_result_unknown, failure_of, process_restart,
}
use my_team_tradding.Prelude.{
  Bool, List, Option, ap, arith, false, leb, none, refl, some, subst, true, ℕ, ◌&&◌, ◌↔◌, ◌∷◌, ◌≡◌,
  ◌≢◌, ◌≤◌,
}
use my_team_tradding.Prelude.Result.{Result, err, ok, ok-injective}

some_value {ℓ} : {A : Type ℓ} {a b : A} → some a ≡ some b → a ≡ b
some_value h = cc

remaining_iff :
    (late allowed evidence : Bool) (a b : ℕ)
    → late ≡ leb a b
    → allowed ≡ true
    → evidence ≡ true
    → ((late && (allowed && evidence)) ≡ true) ↔ (a ≤ b)
remaining_iff late allowed evidence a b h1 h2 h3 = (λ p. ground arith, λ p. ground arith)

rejected_evidence :
    (x : DemoExecutionRecord)
    → same_execution_state x.state DemoExecutionState.created ≡ false
    → has_evidence x ≡ true
    → (at : ℕ) (failure : Option DemoExecutionFailure)
    → has_evidence (updated x DemoExecutionState.rejected at failure none none) ≡ true
rejected_evidence x started evidence at failure =
    let (owner, sent, reconciled) = evidence_of x started evidence in rw owner refl

unknown_evidence :
    (x : DemoExecutionRecord)
    → same_execution_state x.state DemoExecutionState.created ≡ false
    → has_evidence x ≡ true
    → (at : ℕ) (failure : Option DemoExecutionFailure) (submission : DemoSubmissionReceipt)
    → has_evidence (updated x DemoExecutionState.unknown at failure (some submission) none) ≡ true
unknown_evidence x started evidence at failure submission =
    let (owner, sent, reconciled) = evidence_of x started evidence in rw owner refl

module _ (x : DemoExecutionRecord) (first : DemoExecutionEvent) (rest : List DemoExecutionEvent)
    (shape : x.events ≡ first ∷ rest) (good : is_valid_lifecycle x ≡ true) where
  evidence_held : has_evidence x ≡ true
  unfolding is_valid_lifecycle
  evidence_held =
      let (begins, ends, numbered, ordered, pairs, evidence) =
        history_tests x first rest (subst (λ l. is_valid_history x l ≡ true) shape good) in
      evidence

  moved_iff :
      (state : DemoExecutionState) (at : ℕ) (failure : Option DemoExecutionFailure)
      (submission : Option DemoSubmissionReceipt)
      → is_allowed x.state state ≡ true
      → has_evidence (updated x state at failure submission none) ≡ true
      → (is_valid_lifecycle (updated x state at failure submission none) ≡ true)
        ↔ ((last_of first rest).occurred_at ≤ at)
  moved_iff state at failure submission allowed evidence =
      let e = updated_valid x first rest state at failure submission none shape good in
      rw e (remaining_iff _ _ _ (last_of first rest).occurred_at at refl allowed evidence)

  abandoned_iff :
      (at : ℕ) (y : DemoExecutionRecord)
      → x.state ≡ DemoExecutionState.claimed
      → recover_as DemoExecutionState.claimed x at ≡ ok (some y)
      → (is_valid_lifecycle y ≡ true) ↔ ((last_of first rest).occurred_at ≤ at)
  unfolding is_allowed recover_as
  abandoned_iff at y s h =
      subst (λ z. (is_valid_lifecycle z ≡ true) ↔ ((last_of first rest).occurred_at ≤ at))
        (some_value (ok-injective h))
        (moved_iff DemoExecutionState.rejected at _ none
          (ap (λ t. is_allowed t DemoExecutionState.rejected) s)
          (rejected_evidence x (ap (λ t. same_execution_state t DemoExecutionState.created) s)
            evidence_held at
            (some
              (failure_of process_restart "pre-dispatch execution was abandoned after restart"))))

  unsure_iff :
      (at : ℕ) (submission : Result ExecutionFault DemoSubmissionReceipt) (y : DemoExecutionRecord)
      → is_allowed x.state DemoExecutionState.unknown ≡ true
      → same_execution_state x.state DemoExecutionState.created ≡ false
      → unsure x at submission ≡ ok (some y)
      → (is_valid_lifecycle y ≡ true) ↔ ((last_of first rest).occurred_at ≤ at)
  unsure_iff at (ok submission) y allowed started h =
      subst (λ z. (is_valid_lifecycle z ≡ true) ↔ ((last_of first rest).occurred_at ≤ at))
        (some_value (ok-injective h))
        (moved_iff DemoExecutionState.unknown at _ (some submission) allowed (
          unknown_evidence x started evidence_held at
            (some (
              failure_of dispatch_result_unknown
                "dispatch state is uncertain after process restart"))
            submission))
  unsure_iff at (err fault) y allowed started h = cc

  recover_as_iff :
      (state : DemoExecutionState) (at : ℕ) (y : DemoExecutionRecord)
      → x.state ≡ state
      → state ≢ DemoExecutionState.created
      → recover_as state x at ≡ ok (some y)
      → (is_valid_lifecycle y ≡ true) ↔ ((last_of first rest).occurred_at ≤ at)
  unfolding recover_as is_allowed
  recover_as_iff DemoExecutionState.created at y s n h = absurd (n refl)
  recover_as_iff DemoExecutionState.claimed at y s n h = abandoned_iff at y s h
  recover_as_iff DemoExecutionState.dispatching at y s n h =
      unsure_iff at (submission_or_unknown x at) y
        (ap (λ t. is_allowed t DemoExecutionState.unknown) s)
        (ap (λ t. same_execution_state t DemoExecutionState.created) s) h
  recover_as_iff DemoExecutionState.submitted at y s n h =
      unsure_iff at (submission_or_unknown x at) y
        (ap (λ t. is_allowed t DemoExecutionState.unknown) s)
        (ap (λ t. same_execution_state t DemoExecutionState.created) s) h
  recover_as_iff DemoExecutionState.confirmed at y s n h = cc
  recover_as_iff DemoExecutionState.rejected at y s n h = cc
  recover_as_iff DemoExecutionState.unknown at y s n h = cc
  recover_as_iff DemoExecutionState.reconciliation_failed at y s n h = cc

-- The record that the recovery writes for a valid record that was claimed passes the validator of its
-- schema exactly when the recovery is not earlier than the record's last event: the recovery copies
-- the record without validating it.
pub recover_record-valid_iff :
    (x y : DemoExecutionRecord) (first : DemoExecutionEvent) (rest : List DemoExecutionEvent)
    (at : ℕ)
    → x.events ≡ first ∷ rest
    → is_valid_lifecycle x ≡ true
    → x.state ≢ DemoExecutionState.created
    → recover_record x at ≡ ok (some y)
    → (is_valid_lifecycle y ≡ true) ↔ ((last_of first rest).occurred_at ≤ at)
unfolding recover_record
recover_record-valid_iff x y first rest at shape good started h =
    recover_as_iff x first rest shape good x.state at y refl started h
