-- ===== src/Execution/Lifecycle.antt =====
-- `DemoExecutionRecord` of src/ai_trading_team/schemas/execution.py with its validator, and `_advance`
-- of src/ai_trading_team/execution/service.py. The preflight, the order check and the final guard
-- that a record also carries are left out: no check here reads them.
pub mod Exact
pub mod Moves
pub mod Once
use my_team_tradding.Execution.Reconciliation.{
  DemoReconciliationRecord, DemoReconciliationStatus, DemoSubmissionReceipt,
}
use my_team_tradding.Execution.Types.{DemoExecutionFailure, DemoOrderIntent}
use my_team_tradding.Prelude.{
  Bool, List, Option, String, [], false, if◌then◌else◌, leb, length, none, not, some, suc, true, ℕ,
  ◌&&◌, ◌++◌, ◌+◌, ◌==◌, ◌||◌, ◌∷◌,
}
use my_team_tradding.Prelude.Result.{Result, err, ok}
use my_team_tradding.Risk.Engine.{RiskDecision}
use my_team_tradding.Risk.Types.{RiskFault, validation_error}

pub data DemoExecutionState : Type 0 where
  created claimed dispatching submitted : DemoExecutionState
  confirmed rejected unknown reconciliation_failed : DemoExecutionState

pub record DemoExecutionEvent : Type 0 where
  pub sequence : ℕ
  pub state : DemoExecutionState
  pub occurred_at : ℕ
  pub failure : Option DemoExecutionFailure

-- Of the fresh revalidation a record keeps the decision here.
pub record DemoExecutionRecord : Type 0 where
  pub intent : DemoOrderIntent
  pub state : DemoExecutionState
  pub claim_owner : Option String
  pub risk_revalidation : Option RiskDecision
  pub submission : Option DemoSubmissionReceipt
  pub reconciliation : Option DemoReconciliationRecord
  pub events : List DemoExecutionEvent

abbrev pub same_execution_state : DemoExecutionState → DemoExecutionState → Bool
same_execution_state created created = true
same_execution_state claimed claimed = true
same_execution_state dispatching dispatching = true
same_execution_state submitted submitted = true
same_execution_state DemoExecutionState.confirmed DemoExecutionState.confirmed = true
same_execution_state DemoExecutionState.rejected DemoExecutionState.rejected = true
same_execution_state DemoExecutionState.unknown DemoExecutionState.unknown = true
same_execution_state DemoExecutionState.reconciliation_failed
      DemoExecutionState.reconciliation_failed =
    true
same_execution_state _ _ = false

-- `allowed`
unfoldable pub is_allowed : DemoExecutionState → DemoExecutionState → Bool
is_allowed created claimed = true
is_allowed claimed dispatching = true
is_allowed claimed DemoExecutionState.rejected = true
is_allowed dispatching submitted = true
is_allowed dispatching DemoExecutionState.rejected = true
is_allowed dispatching DemoExecutionState.unknown = true
is_allowed submitted DemoExecutionState.confirmed = true
is_allowed submitted DemoExecutionState.unknown = true
is_allowed submitted DemoExecutionState.reconciliation_failed = true
is_allowed DemoExecutionState.unknown DemoExecutionState.confirmed = true
is_allowed DemoExecutionState.unknown DemoExecutionState.reconciliation_failed = true
is_allowed _ _ = false

-- `zip(self.events, self.events[1:])`, from the event `left` on.
unfoldable pub all_pairs :
    (DemoExecutionEvent → DemoExecutionEvent → Bool)
    → DemoExecutionEvent
    → List DemoExecutionEvent
    → Bool
all_pairs p left [] = true
all_pairs p left (right ∷ rest) = p left right && all_pairs p right rest

abbrev pub last_of : DemoExecutionEvent → List DemoExecutionEvent → DemoExecutionEvent
last_of event [] = event
last_of event (next ∷ rest) = last_of next rest

-- The sequence numbers are those from `n` on.
abbrev pub is_numbered : ℕ → List DemoExecutionEvent → Bool
is_numbered n [] = true
is_numbered n (event ∷ rest) = event.sequence == n && is_numbered (suc n) rest

abbrev pub is_post_dispatch : DemoExecutionState → Bool
is_post_dispatch submitted = true
is_post_dispatch DemoExecutionState.confirmed = true
is_post_dispatch DemoExecutionState.unknown = true
is_post_dispatch DemoExecutionState.reconciliation_failed = true
is_post_dispatch _ = false

abbrev pub is_confirmed_by : Option DemoReconciliationRecord → Bool
is_confirmed_by none = false
is_confirmed_by (some r) = elim r.status [ DemoReconciliationStatus.confirmed ↦ true | _ ↦ false ]

abbrev pub is_some {ℓ} : {A : Type ℓ} → Option A → Bool
is_some none = false
is_some (some a) = true

-- Its tests of the owner, the submission and the reconciliation.
abbrev pub has_evidence : DemoExecutionRecord → Bool
has_evidence r =
    (same_execution_state r.state created || is_some r.claim_owner)
    && ((not (is_post_dispatch r.state) || is_some r.submission)
        && (not (same_execution_state r.state DemoExecutionState.confirmed)
            || is_confirmed_by r.reconciliation))

-- `validate_lifecycle` on the events of the record; a record without events is refused by its schema.
unfoldable pub is_valid_history : DemoExecutionRecord → List DemoExecutionEvent → Bool
unfolding all_pairs is_allowed
is_valid_history r [] = false
is_valid_history r (first ∷ rest) =
    same_execution_state first.state created
    && (same_execution_state (last_of first rest).state r.state
        && (is_numbered 1 (first ∷ rest)
            && (all_pairs (λ left right. leb left.occurred_at right.occurred_at) first rest
                && (all_pairs (λ left right. is_allowed left.state right.state) first rest
                    && has_evidence r))))

unfoldable pub is_valid_lifecycle : DemoExecutionRecord → Bool
unfolding is_valid_history
is_valid_lifecycle r = is_valid_history r r.events

unfoldable pub build_execution : DemoExecutionRecord → Result RiskFault DemoExecutionRecord
unfolding is_valid_lifecycle
build_execution r = if is_valid_lifecycle r then ok r else err validation_error

-- `submission or record.submission`
abbrev pub or_else {ℓ} : {A : Type ℓ} → Option A → Option A → Option A
or_else none old = old
or_else (some new) old = some new

abbrev pub new_event :
    DemoExecutionRecord → DemoExecutionState → ℕ → Option DemoExecutionFailure → DemoExecutionEvent
new_event r state at failure = record {
  sequence = length r.events + 1;
  state = state;
  occurred_at = at;
  failure = failure;
}

-- `payload` after its update
abbrev pub updated :
    DemoExecutionRecord
    → DemoExecutionState
    → ℕ
    → Option DemoExecutionFailure
    → Option DemoSubmissionReceipt
    → Option DemoReconciliationRecord
    → DemoExecutionRecord
updated r state at failure submission reconciliation = record r {
  state = state;
  submission = or_else submission r.submission;
  reconciliation = or_else reconciliation r.reconciliation;
  events = r.events ++ (new_event r state at failure ∷ []);
}

unfoldable pub advance :
    DemoExecutionRecord
    → DemoExecutionState
    → ℕ
    → Option DemoExecutionFailure
    → Option DemoSubmissionReceipt
    → Option DemoReconciliationRecord
    → Result RiskFault DemoExecutionRecord
unfolding build_execution
advance r state at failure submission reconciliation =
    build_execution (updated r state at failure submission reconciliation)
