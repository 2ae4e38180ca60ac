-- ===== src/Execution/Reconciliation/Exact.antt =====
-- What a confirmation by `reconcile_broker_evidence` stands for.
use my_team_tradding.Execution.Reconciliation.{
  CompositeBrokerEvidence, DemoReconciliationRecord, DemoReconciliationStatus,
  DemoSubmissionReceipt, build_record, confirmation, failed, item_failure, judgement, mismatch,
  reconcile_broker_evidence,
}
use my_team_tradding.Execution.Reconciliation.Judged.{
  IsExecutionOf, execution_passes, item_failure_iff, passes_execution,
}
use my_team_tradding.Execution.Types.{DemoExecutionFailure, DemoOrderIntent}
use my_team_tradding.Prelude.{List, Option, [], ap, none, refl, some, subst, sym, ℕ, ◌↔◌, ◌∷◌, ◌≡◌}
use my_team_tradding.Prelude.Result.{ok}

pub record IsConfirmation (intent : DemoOrderIntent) (receipt : DemoSubmissionReceipt)
    (evidence : List CompositeBrokerEvidence) : Type 0 where
  pub item : CompositeBrokerEvidence
  pub only : evidence ≡ item ∷ []
  pub execution : IsExecutionOf intent receipt item

pub record IsAnswer (intent : DemoOrderIntent) (receipt : DemoSubmissionReceipt)
    (evidence : List CompositeBrokerEvidence) (r : DemoReconciliationRecord) : Type 0 where
  pub same_intent : r.execution_intent_id ≡ intent.execution_intent_id
  pub same_digest : r.intent_digest ≡ intent.intent_digest
  pub kept : r.evidence ≡ evidence
  pub confirmed_iff :
      (r.status ≡ DemoReconciliationStatus.confirmed) ↔ IsConfirmation intent receipt evidence
  pub explained : (r.failure ≡ none) ↔ (r.status ≡ DemoReconciliationStatus.confirmed)

only_item :
    {x y : CompositeBrokerEvidence}
    → ◌≡◌ {A = List CompositeBrokerEvidence} (x ∷ []) (y ∷ [])
    → x ≡ y
only_item h = cc

IsAnswer-of_item :
    (intent : DemoOrderIntent) (receipt : DemoSubmissionReceipt) (item : CompositeBrokerEvidence)
    (reconciled_at : ℕ) (o : Option DemoExecutionFailure)
    → item_failure intent receipt item ≡ o
    → (r : DemoReconciliationRecord) × (reconcile_broker_evidence intent receipt
          (item ∷ [])
          reconciled_at
        ≡ ok r)
      × IsAnswer intent receipt (item ∷ []) r
unfolding reconcile_broker_evidence build_record
IsAnswer-of_item intent receipt item reconciled_at none judged = (
  confirmation intent reconciled_at item,
  ap (λ o. build_record (judgement intent reconciled_at item o)) judged,
  record {
    same_intent = refl;
    same_digest = refl;
    kept = refl;
    confirmed_iff = (
      λ h. record {
        item = item;
        only = refl;
        execution =
            passes_execution intent receipt item ((item_failure_iff intent receipt item).0 judged);
      },
      λ h. refl,
    );
    explained = (λ h. refl, λ h. refl);
  },
)
IsAnswer-of_item intent receipt item reconciled_at (some failure) judged = (
  failed intent mismatch failure reconciled_at (item ∷ []),
  ap (λ o. build_record (judgement intent reconciled_at item o)) judged,
  record {
    same_intent = refl;
    same_digest = refl;
    kept = refl;
    confirmed_iff = (
      λ h. cc,
      λ h.
          let executed : IsExecutionOf intent receipt item =
            subst (λ x. IsExecutionOf intent receipt x) (sym (only_item h.only)) h.execution in
          let passed =
            (item_failure_iff intent receipt item).1
              (execution_passes intent receipt item executed) in
          cc (judged, passed),
    );
    explained = (λ h. cc, λ h. cc);
  },
)

-- Reconciliation always returns a record. It is about the intent and holds the evidence, and it
-- confirms, with no failure, exactly when the evidence is one item that executes the whole sealed
-- intent: the same account, environment, symbol, side and volume, a dispatch after the submission,
-- broker ids, a fill no worse than the validated price, and the sealed stop loss and take profit.
pub reconcile_exact :
    (intent : DemoOrderIntent) (receipt : DemoSubmissionReceipt)
    (evidence : List CompositeBrokerEvidence) (reconciled_at : ℕ)
    → (r : DemoReconciliationRecord) × (reconcile_broker_evidence intent receipt evidence
          reconciled_at
        ≡ ok r)
      × IsAnswer intent receipt evidence r
unfolding reconcile_broker_evidence build_record
reconcile_exact intent receipt [] reconciled_at = (
  _,
  refl,
  record {
    same_intent = refl;
    same_digest = refl;
    kept = refl;
    confirmed_iff = (λ h. cc, λ h. cc (h.only));
    explained = (λ h. cc, λ h. cc);
  },
)
reconcile_exact intent receipt (item ∷ []) reconciled_at =
    IsAnswer-of_item intent receipt item reconciled_at _ refl
reconcile_exact intent receipt (item ∷ (other ∷ rest)) reconciled_at = (
  _,
  refl,
  record {
    same_intent = refl;
    same_digest = refl;
    kept = refl;
    confirmed_iff = (λ h. cc, λ h. cc (h.only));
    explained = (λ h. cc, λ h. cc);
  },
)
