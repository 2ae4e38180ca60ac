-- ===== src/Execution/Store.antt =====
-- `InMemoryDemoExecutionRepository` of src/ai_trading_team/storage/execution.py. A dictionary is an
-- association list; every method holds the lock for its whole body, so a method is one step. A call
-- that raises leaves the state as it was, so a method returns the new state only with its result.
-- Records of acceptances, revocations and control events have the fields that are read.
pub mod Records
pub mod Recovery
pub mod Claims
pub mod Recovered
pub mod Chronology
use my_team_tradding.Execution.Lifecycle.{DemoExecutionRecord}
use my_team_tradding.Execution.Records.{
  DemoExecutionApproval, DemoExecutionEnvironmentAcceptance, Digests, ExecutionControlState,
  applies_at,
}
use my_team_tradding.Execution.Types.{DemoExecutionFailure}
use my_team_tradding.Prelude.{
  Bool, List, Option, String, [], any, false, filter, if◌then◌else◌, map, none, not, some, str_eq,
  true, ℕ, ◌&&◌, ◌∷◌,
}
use my_team_tradding.Prelude.Dict.{has, insert, lookup}
use my_team_tradding.Prelude.Result.{Result, err, ok}

pub record DemoExecutionApprovalRevocation : Type 0 where
  pub revocation_id : String
  pub approval_id : String
  pub approval_digest : String

pub record ExecutionControlEvent : Type 0 where
  pub previous_state : Option ExecutionControlState
  pub state : ExecutionControlState
  pub occurred_at : ℕ
  pub reason : String

-- `DemoExecutionError`, and `ValueError` with pydantic's `ValidationError` below it.
pub data ExecutionFault : Type 0 where
  execution_error : DemoExecutionFailure → ExecutionFault
  value_error : ExecutionFault

pub record Repository : Type 0 where
  pub acceptances : List (String × DemoExecutionEnvironmentAcceptance)
  pub approvals : List (String × DemoExecutionApproval)
  pub revocations : List (String × DemoExecutionApprovalRevocation)
  -- the newest event first
  pub control_events : List ExecutionControlEvent
  pub records : List (String × DemoExecutionRecord)
  pub source_index : List (String × String)
  pub client_index : List (String × String)

abbrev pub empty_repository : Repository
empty_repository = record {
  acceptances = [];
  approvals = [];
  revocations = [];
  control_events = [];
  records = [];
  source_index = [];
  client_index = [];
}

abbrev pub same_control : ExecutionControlState → ExecutionControlState → Bool
same_control ExecutionControlState.disabled ExecutionControlState.disabled = true
same_control ExecutionControlState.enabled ExecutionControlState.enabled = true
same_control ExecutionControlState.paused ExecutionControlState.paused = true
same_control ExecutionControlState.halted ExecutionControlState.halted = true
same_control _ _ = false

-- `a is b` of two states of which either may be `None`
abbrev pub is_same_control : Option ExecutionControlState → Option ExecutionControlState → Bool
is_same_control none none = true
is_same_control (some a) (some b) = same_control a b
is_same_control _ _ = false

unfoldable pub add_environment_acceptance :
    DemoExecutionEnvironmentAcceptance → Repository → Result ExecutionFault Repository
unfolding has insert
add_environment_acceptance acceptance r =
    if has acceptance.acceptance_id r.acceptances
    then err value_error
    else ok (record r { acceptances = insert acceptance.acceptance_id acceptance r.acceptances })

unfoldable pub add_approval : DemoExecutionApproval → Repository → Result ExecutionFault Repository
unfolding has insert
add_approval approval r =
    if has approval.approval_id r.approvals
    then err value_error
    else ok (record r { approvals = insert approval.approval_id approval r.approvals })

unfoldable pub revoke_approval :
    Digests → DemoExecutionApprovalRevocation → Repository → Result ExecutionFault Repository
unfolding has insert lookup
revoke_approval d revocation r =
    if has revocation.revocation_id r.revocations
    then err value_error
    else elim (lookup revocation.approval_id r.approvals) [
      | none ↦ err value_error
      | some approval ↦
          if str_eq (d.of_approval approval) revocation.approval_digest
          then ok
              (record r { revocations = insert revocation.revocation_id revocation r.revocations })
          else err value_error
    ]

unfoldable pub approval_is_revoked : String → String → Repository → Bool
approval_is_revoked approval_id approval_digest r =
    any (λ e. str_eq e.1.approval_id approval_id && str_eq e.1.approval_digest approval_digest)
      r.revocations

-- Texts in the order of Python's `<=`, which `sorted` uses.
abbrev pub TextOrder : Type 0
TextOrder = String → String → Bool

unfoldable pub insert_by_id :
    TextOrder → DemoExecutionApproval → List DemoExecutionApproval → List DemoExecutionApproval
insert_by_id le a [] = a ∷ []
insert_by_id le a (b ∷ rest) =
    if le a.approval_id b.approval_id then a ∷ (b ∷ rest) else b ∷ insert_by_id le a rest

unfoldable pub sort_by_id : TextOrder → List DemoExecutionApproval → List DemoExecutionApproval
unfolding insert_by_id
sort_by_id le [] = []
sort_by_id le (a ∷ rest) = insert_by_id le a (sort_by_id le rest)

abbrev pub is_effective :
    Digests → Repository → String → String → String → ℕ → DemoExecutionApproval → Bool
is_effective d r account_ref environment_ref symbol at item =
    str_eq item.account_ref account_ref
    && (str_eq item.environment_ref environment_ref
        && (str_eq item.symbol symbol
            && (applies_at item at
                && not (approval_is_revoked item.approval_id (d.of_approval item) r))))

unfoldable pub effective_approvals :
    TextOrder → Digests → String → String → String → ℕ → Repository → List DemoExecutionApproval
unfolding sort_by_id approval_is_revoked
effective_approvals le d account_ref environment_ref symbol at r =
    sort_by_id le
      (filter (is_effective d r account_ref environment_ref symbol at) (map (λ e. e.1) r.approvals))

abbrev pub last_control : List ExecutionControlEvent → Option ExecutionControlState
last_control [] = none
last_control (event ∷ older) = some event.state

unfoldable pub append_control_event :
    ExecutionControlEvent → Repository → Result ExecutionFault Repository
append_control_event event r =
    if is_same_control event.previous_state (last_control r.control_events)
    then ok (record r { control_events = event ∷ r.control_events })
    else err value_error

abbrev pub state_or_disabled : Option ExecutionControlState → ExecutionControlState
state_or_disabled none = ExecutionControlState.disabled
state_or_disabled (some state) = state

unfoldable pub control_state : Repository → ExecutionControlState
control_state r = state_or_disabled (last_control r.control_events)
