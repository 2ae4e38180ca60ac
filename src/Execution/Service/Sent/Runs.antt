-- ===== src/Execution/Service/Sent/Runs.antt =====
-- Executions, reconciliations, recoveries and operator actions of src/ai_trading_team/execution and
-- storage/execution.py in any order.
use my_team_tradding.Decimal.{DecimalContext}
use my_team_tradding.Execution.Lifecycle.{
  DemoExecutionEvent, DemoExecutionRecord, DemoExecutionState,
}
use my_team_tradding.Execution.Lifecycle.Once.{dispatches_in}
use my_team_tradding.Execution.Reconciliation.{DemoSubmissionReceipt}
use my_team_tradding.Execution.Records.{
  DemoExecutionApproval, DemoExecutionEnvironmentAcceptance, DemoExecutionPolicy, Digests,
  QualifiedDemoExecutionCandidate,
}
use my_team_tradding.Execution.Service.{DemoExecutionAdapter, World}
use my_team_tradding.Execution.Service.Dispatch.{execute_intent}
use my_team_tradding.Execution.Service.Reconcile.{reconcile_unknown}
use my_team_tradding.Execution.Service.Sent.{IsOnce, IsOnce-IsStable, dispatches_of, times_sent}
use my_team_tradding.Execution.Service.Sent.Executions.{dispatches-add, execute_intent-Keeps}
use my_team_tradding.Execution.Service.Sent.Methods.{reconcile_unknown-Keeps}
use my_team_tradding.Execution.Store.{
  DemoExecutionApprovalRevocation, ExecutionControlEvent, ExecutionFault, Repository, add_approval,
  add_environment_acceptance, append_control_event, empty_repository, is_same_control, last_control,
  revoke_approval,
}
use my_team_tradding.Execution.Store.Recovery.{
  Entries, recover_as, recover_entries, recover_incomplete, recovered_or, unsure,
}
use my_team_tradding.Execution.Types.{DemoOrderIntent}
use my_team_tradding.Prelude.{
  Bool-cases, List, Option, Option-cases, String, [], ap, arith, inl, inr, str_eq, subst, sym, ℕ,
  ◌++◌, ◌∷◌, ◌≡◌, ◌≤◌,
}
use my_team_tradding.Prelude.Dict.{has, lookup}
use my_team_tradding.Prelude.Result.{
  Result, Result-cases, err, ok, ok-injective, passed-eq-ok, refused-eq-ok,
}
use my_team_tradding.Risk.Engine.{RiskDecision}
use my_team_tradding.Risk.Engine.Total.{decision}
use my_team_tradding.Time.{Datetime}

dispatches_grow :
    (events : List DemoExecutionEvent) (event : DemoExecutionEvent)
    → dispatches_in events ≤ dispatches_in (events ++ (event ∷ []))
dispatches_grow events event = omega (arith, dispatches-add events event)

unsure_grows :
    (x : DemoExecutionRecord) (at : ℕ) (submission : Result ExecutionFault DemoSubmissionReceipt)
    (o : Option DemoExecutionRecord)
    → unsure x at submission ≡ ok o
    → dispatches_in x.events ≤ dispatches_in (recovered_or x o).events
unsure_grows x at (ok submission) o h =
    subst (λ z. dispatches_in x.events ≤ dispatches_in (recovered_or x z).events) (ok-injective h)
      (dispatches_grow x.events _)
unsure_grows x at (err fault) o h = cc

-- A turn of the recovery tells of no fewer dispatches.
recover_as-grows :
    (state : DemoExecutionState) (x : DemoExecutionRecord) (at : ℕ) (o : Option DemoExecutionRecord)
    → recover_as state x at ≡ ok o
    → dispatches_in x.events ≤ dispatches_in (recovered_or x o).events
unfolding recover_as
recover_as-grows DemoExecutionState.created x at o h =
    subst (λ z. dispatches_in x.events ≤ dispatches_in (recovered_or x z).events) (ok-injective h)
      (dispatches_grow x.events _)
recover_as-grows DemoExecutionState.claimed x at o h =
    subst (λ z. dispatches_in x.events ≤ dispatches_in (recovered_or x z).events) (ok-injective h)
      (dispatches_grow x.events _)
recover_as-grows DemoExecutionState.dispatching x at o h = unsure_grows x at _ o h
recover_as-grows DemoExecutionState.submitted x at o h = unsure_grows x at _ o h
recover_as-grows DemoExecutionState.confirmed x at o h =
    subst (λ z. dispatches_in x.events ≤ dispatches_in (recovered_or x z).events) (ok-injective h)
      (omega arith)
recover_as-grows DemoExecutionState.rejected x at o h =
    subst (λ z. dispatches_in x.events ≤ dispatches_in (recovered_or x z).events) (ok-injective h)
      (omega arith)
recover_as-grows DemoExecutionState.unknown x at o h =
    subst (λ z. dispatches_in x.events ≤ dispatches_in (recovered_or x z).events) (ok-injective h)
      (omega arith)
recover_as-grows DemoExecutionState.reconciliation_failed x at o h =
    subst (λ z. dispatches_in x.events ≤ dispatches_in (recovered_or x z).events) (ok-injective h)
      (omega arith)

recover_entries-grows :
    (at : ℕ) (id : String) (entries : Entries)
    → dispatches_of (lookup id entries) ≤ dispatches_of (lookup id (recover_entries at entries).0)
unfolding recover_entries lookup
recover_entries-grows at id [] = omega arith
recover_entries-grows at id ((key, x) ∷ rest) = elim (Result-cases (recover_as x.state x at)) [
  | inr (fault, raised) ↦ rw raised (omega arith)
  | inl (o, turned_to) ↦ rw turned_to (elim (Bool-cases (str_eq key id)) [
    | inl own ↦ rw own (recover_as-grows x.state x at o turned_to)
    | inr other ↦ rw other (recover_entries-grows at id rest)
  ])
]

grown-IsOnce :
    (w : World) (r' : Repository)
    → IsOnce w
    → ((id : String)
        → dispatches_of (lookup id w.repository.records) ≤ dispatches_of (lookup id r'.records))
    → IsOnce (record w { repository = r' })
grown-IsOnce w r' h grows id = let here = h id in let more = grows id in omega (arith, here, more)

recovery-IsOnce :
    (w : World) (at : ℕ)
    → IsOnce w
    → IsOnce (record w { repository = (recover_incomplete at w.repository).0 })
unfolding recover_incomplete
recovery-IsOnce w at h =
    grown-IsOnce w (recover_incomplete at w.repository).0 h
      (λ id. recover_entries-grows at id w.repository.records)

-- What may happen: an execution or a reconciliation on any broker, a recovery after a restart, and
-- what an operator does. The ghost of sent intents outlives a restart.
pub data Step (d : Digests) (clock : ℕ → Datetime) : World → World → Type 0 where
  executes :
      {w : World} (adapter : DemoExecutionAdapter) (c : DecimalContext)
      (candidate : QualifiedDemoExecutionCandidate)
      (acceptance : DemoExecutionEnvironmentAcceptance) (approval : DemoExecutionApproval)
      (policy : DemoExecutionPolicy) (claim_owner : String) (intent : DemoOrderIntent)
      (risk_revalidation : RiskDecision)
      → Step d clock w
          (execute_intent clock adapter c d candidate acceptance approval policy claim_owner intent
            risk_revalidation w).1
  reconciles :
      {w : World} (adapter : DemoExecutionAdapter) (id : String)
      → Step d clock w (reconcile_unknown clock adapter id w).1
  recovers :
      {w : World} (at : ℕ)
      → Step d clock w (record w { repository = (recover_incomplete at w.repository).0 })
  accepts :
      {w : World} (acceptance : DemoExecutionEnvironmentAcceptance) (r' : Repository)
      → add_environment_acceptance acceptance w.repository ≡ ok r'
      → Step d clock w (record w { repository = r' })
  approves :
      {w : World} (approval : DemoExecutionApproval) (r' : Repository)
      → add_approval approval w.repository ≡ ok r'
      → Step d clock w (record w { repository = r' })
  revokes :
      {w : World} (revocation : DemoExecutionApprovalRevocation) (r' : Repository)
      → revoke_approval d revocation w.repository ≡ ok r'
      → Step d clock w (record w { repository = r' })
  controls :
      {w : World} (event : ExecutionControlEvent) (r' : Repository)
      → append_control_event event w.repository ≡ ok r'
      → Step d clock w (record w { repository = r' })

pub data Run (d : Digests) (clock : ℕ → Datetime) (first : World) : World → Type 0 where
  start : Run d clock first first
  later : {w w' : World} → Run d clock first w → Step d clock w w' → Run d clock first w'

-- What an operator does leaves the records alone.
accepts-records :
    (acceptance : DemoExecutionEnvironmentAcceptance) (r r' : Repository)
    → add_environment_acceptance acceptance r ≡ ok r'
    → r'.records ≡ r.records
unfolding add_environment_acceptance
accepts-records acceptance r r' h =
    let (clear, same) = refused-eq-ok (has acceptance.acceptance_id r.acceptances) _ _ r' h in
    sym (ap (λ z. z.records) (ok-injective same))

approves-records :
    (approval : DemoExecutionApproval) (r r' : Repository)
    → add_approval approval r ≡ ok r'
    → r'.records ≡ r.records
unfolding add_approval
approves-records approval r r' h =
    let (clear, same) = refused-eq-ok (has approval.approval_id r.approvals) _ _ r' h in
    sym (ap (λ z. z.records) (ok-injective same))

revokes-records :
    (d : Digests) (revocation : DemoExecutionApprovalRevocation) (r r' : Repository)
    → revoke_approval d revocation r ≡ ok r'
    → r'.records ≡ r.records
unfolding revoke_approval
revokes-records d revocation r r' h =
    let (clear, same) = refused-eq-ok (has revocation.revocation_id r.revocations) _ _ r' h in
    elim (Option-cases (lookup revocation.approval_id r.approvals)) [
      | inl absent ↦ cc (rw (absent, revoke_approval) at same)
      | inr (approval, found) ↦
          let (matches, written) =
            passed-eq-ok (str_eq (d.of_approval approval) revocation.approval_digest) _ _ r'
              (rw (found, revoke_approval) at same) in
          sym (ap (λ z. z.records) (ok-injective written))
    ]

controls-records :
    (event : ExecutionControlEvent) (r r' : Repository)
    → append_control_event event r ≡ ok r'
    → r'.records ≡ r.records
unfolding append_control_event
controls-records event r r' h =
    let (next, same) =
      passed-eq-ok (is_same_control event.previous_state (last_control r.control_events)) _ _ r'
        h in
    sym (ap (λ z. z.records) (ok-injective same))

same_records-IsOnce :
    (w : World) (r' : Repository)
    → IsOnce w
    → r'.records ≡ w.repository.records
    → IsOnce (record w { repository = r' })
same_records-IsOnce w r' h same = grown-IsOnce w r' h (λ id. rw same (omega arith))

Step-IsOnce :
    {d : Digests} {clock : ℕ → Datetime} {w w' : World} → Step d clock w w' → IsOnce w → IsOnce w'
Step-IsOnce {clock = clock}
      (executes {w = w} adapter c candidate acceptance approval policy owner intent decision) h =
    (execute_intent-Keeps clock adapter c _ candidate acceptance approval policy owner intent
        decision).holds
      w h
Step-IsOnce {clock = clock} (reconciles {w = w} adapter id) h =
    (reconcile_unknown-Keeps IsOnce IsOnce-IsStable clock adapter id).holds w h
Step-IsOnce (recovers {w = w} at) h = recovery-IsOnce w at h
Step-IsOnce (accepts {w = w} acceptance r' e) h =
    same_records-IsOnce w r' h (accepts-records acceptance w.repository r' e)
Step-IsOnce (approves {w = w} approval r' e) h =
    same_records-IsOnce w r' h (approves-records approval w.repository r' e)
Step-IsOnce {d = d} (revokes {w = w} revocation r' e) h =
    same_records-IsOnce w r' h (revokes-records d revocation w.repository r' e)
Step-IsOnce (controls {w = w} event r' e) h =
    same_records-IsOnce w r' h (controls-records event w.repository r' e)

Run-keeps :
    {d : Digests} {clock : ℕ → Datetime} {w w' : World} → Run d clock w w' → IsOnce w → IsOnce w'
Run-keeps start h = h
Run-keeps (later run step) h = Step-IsOnce step (Run-keeps run h)

-- In every world that a run reaches from the empty repository, no intent was sent to the broker twice,
-- and an intent that was sent has a stored record that tells of its dispatch.
pub Run-IsOnce :
    (d : Digests) (clock : ℕ → Datetime) (w : World) (id : String)
    → Run d clock (record { repository = empty_repository; readings = 0; sent = [] }) w
    → (times_sent id w.sent ≤ 1)
      × (times_sent id w.sent ≤ dispatches_of (lookup id w.repository.records))
unfolding lookup
Run-IsOnce d clock w id run = Run-keeps run (λ k. omega arith) id
