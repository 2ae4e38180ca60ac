-- ===== src/Execution/Store/Recovery.antt =====
-- `recover_incomplete` of src/ai_trading_team/storage/execution.py.
-- `validate_receipt`, of a receipt whose disposition is UNKNOWN
use my_team_tradding.Execution.Lifecycle.{
  DemoExecutionEvent, DemoExecutionRecord, DemoExecutionState, last_of, updated,
}
use my_team_tradding.Execution.Reconciliation.{DemoSubmissionDisposition, DemoSubmissionReceipt}
use my_team_tradding.Execution.Store.{ExecutionFault, Repository, value_error}
use my_team_tradding.Execution.Types.{
  DemoExecutionFailure, DemoOrderIntent, dispatch_result_unknown, failure_of, process_restart,
}
use my_team_tradding.Prelude.{List, Option, String, [], if◌then◌else◌, leb, none, some, ℕ, ◌∷◌}
use my_team_tradding.Prelude.Result.{Result, err, ok, ◌>>=◌}

abbrev pub build_receipt : DemoSubmissionReceipt → Result ExecutionFault DemoSubmissionReceipt
build_receipt x =
    if leb x.dispatch_started_at x.dispatch_completed_at then ok x else err value_error

abbrev pub unknown_receipt : DemoOrderIntent → ℕ → ℕ → DemoSubmissionReceipt
unknown_receipt intent started completed = record {
  execution_intent_id = intent.execution_intent_id;
  intent_digest = intent.intent_digest;
  disposition = DemoSubmissionDisposition.unknown;
  dispatch_started_at = started;
  dispatch_completed_at = completed;
}

abbrev pub last_time : List DemoExecutionEvent → ℕ
last_time [] = 0
last_time (event ∷ rest) = (last_of event rest).occurred_at

-- `current.submission or DemoSubmissionReceipt(…)`
abbrev pub submission_or_unknown :
    DemoExecutionRecord → ℕ → Result ExecutionFault DemoSubmissionReceipt
submission_or_unknown current at = elim current.submission [
  | none ↦ build_receipt (unknown_receipt current.intent (last_time current.events) at)
  | some submission ↦ ok submission
]

-- `_transition` is `_advance` without the validation of the record that it returns.
abbrev pub transition_record :
    DemoExecutionRecord
    → DemoExecutionState
    → ℕ
    → Option DemoExecutionFailure
    → Option DemoSubmissionReceipt
    → DemoExecutionRecord
transition_record x state at failure submission = updated x state at failure submission none

abbrev pub abandoned : DemoExecutionRecord → ℕ → DemoExecutionRecord
abandoned current at =
    transition_record current DemoExecutionState.rejected at
      (some (failure_of process_restart "pre-dispatch execution was abandoned after restart")) none

abbrev pub uncertain_record : DemoExecutionRecord → ℕ → DemoSubmissionReceipt → DemoExecutionRecord
uncertain_record current at submission =
    transition_record current DemoExecutionState.unknown at
      (some
        (failure_of dispatch_result_unknown "dispatch state is uncertain after process restart"))
      (some submission)

-- One turn of the loop: `none` where the record is left as it is.
abbrev pub unsure :
    DemoExecutionRecord
    → ℕ
    → Result ExecutionFault DemoSubmissionReceipt
    → Result ExecutionFault (Option DemoExecutionRecord)
unsure current at (ok submission) = ok (some (uncertain_record current at submission))
unsure current at (err fault) = err fault

unfoldable pub recover_as :
    DemoExecutionState
    → DemoExecutionRecord
    → ℕ
    → Result ExecutionFault (Option DemoExecutionRecord)
recover_as DemoExecutionState.created current at = ok (some (abandoned current at))
recover_as DemoExecutionState.claimed current at = ok (some (abandoned current at))
recover_as DemoExecutionState.dispatching current at =
    unsure current at (submission_or_unknown current at)
recover_as DemoExecutionState.submitted current at =
    unsure current at (submission_or_unknown current at)
recover_as _ current at = ok none

unfoldable pub recover_record :
    DemoExecutionRecord → ℕ → Result ExecutionFault (Option DemoExecutionRecord)
unfolding recover_as
recover_record current at = recover_as current.state current at

abbrev pub Entries : Type 0
Entries = List (String × DemoExecutionRecord)

-- What a turn leaves in the dictionary, where a record stands under the identity of its intent.
abbrev pub recovered_or : DemoExecutionRecord → Option DemoExecutionRecord → DemoExecutionRecord
recovered_or current none = current
recovered_or current (some x) = x

abbrev pub recovered_list :
    Option DemoExecutionRecord → List DemoExecutionRecord → List DemoExecutionRecord
recovered_list none rest = rest
recovered_list (some x) rest = x ∷ rest

-- A turn before the turns of the rest; one that raises ends the loop.
abbrev pub turned :
    String
    → DemoExecutionRecord
    → Entries
    → Result ExecutionFault (Option DemoExecutionRecord)
    → Entries × Result ExecutionFault (List DemoExecutionRecord)
    → Entries × Result ExecutionFault (List DemoExecutionRecord)
turned id current rest (err fault) unread = ((id, current) ∷ rest, err fault)
turned id current rest (ok x) (after, outcome) =
    ((id, recovered_or current x) ∷ after, outcome >>= λ xs. ok (recovered_list x xs))

-- The loop, which leaves what the turns before an error wrote.
unfoldable pub recover_entries :
    ℕ → Entries → Entries × Result ExecutionFault (List DemoExecutionRecord)
unfolding recover_record
recover_entries at [] = ([], ok [])
recover_entries at ((id, current) ∷ rest) =
    turned id current rest (recover_record current at) (recover_entries at rest)

unfoldable pub recover_incomplete :
    ℕ → Repository → Repository × Result ExecutionFault (List DemoExecutionRecord)
unfolding recover_entries
recover_incomplete at r =
    let (records, outcome) = recover_entries at r.records in
    (record r { records = records }, outcome)
