-- ===== src/Execution/Store/Records.antt =====
-- The records of the repository of src/ai_trading_team/storage/execution.py: `claim`,
-- `claim_is_owned`, `save` and the reads.
-- The record that a claim writes.
use my_team_tradding.Execution.Lifecycle.{
  DemoExecutionEvent, DemoExecutionRecord, DemoExecutionState, build_execution,
  same_execution_state,
}
use my_team_tradding.Execution.Store.{ExecutionFault, Repository, value_error}
use my_team_tradding.Execution.Types.{DemoOrderIntent, duplicate_execution_intent, failure_of}
use my_team_tradding.Prelude.{
  Bool, List, Option, String, [], false, if◌then◌else◌, length, none, some, str_eq, true, ℕ,
  ℕ_discrete, ◌&&◌, ◌+◌, ◌==◌, ◌||◌, ◌∷◌,
}
use my_team_tradding.Prelude.Dict.{String-discrete, has, insert, lookup}
use my_team_tradding.Prelude.Result.{Result, err, ok, ◌>>=◌}
use my_team_tradding.Risk.Engine.{RiskDecision}
use my_team_tradding.Risk.Types.{RiskFault}

abbrev pub claimed_record : DemoOrderIntent → RiskDecision → String → ℕ → DemoExecutionRecord
claimed_record intent risk_revalidation owner claimed_at = record {
  intent = intent;
  state = DemoExecutionState.claimed;
  claim_owner = some owner;
  risk_revalidation = some risk_revalidation;
  submission = none;
  reconciliation = none;
  events =
      record {
        sequence = 1;
        state = DemoExecutionState.created;
        occurred_at = intent.created_at;
        failure = none;
      }
      ∷ (record {
        sequence = 2;
        state = DemoExecutionState.claimed;
        occurred_at = claimed_at;
        failure = none;
      }
          ∷ []);
}

abbrev pub is_known : DemoOrderIntent → Repository → Bool
is_known intent r =
    has intent.execution_intent_id r.records
    || (has intent.source_shadow_intent_digest r.source_index
        || has intent.client_trade_id r.client_index)

-- A validation that fails is a `ValueError`.
abbrev pub validated {ℓ} : {A : Type ℓ} → Result RiskFault A → Result ExecutionFault A
validated (ok a) = ok a
validated (err fault) = err value_error

abbrev pub store_claim : DemoExecutionRecord → Repository → Repository
store_claim x r =
    let id = x.intent.execution_intent_id in
    record r {
      records = insert id x r.records;
      source_index = insert x.intent.source_shadow_intent_digest id r.source_index;
      client_index = insert x.intent.client_trade_id id r.client_index;
    }

unfoldable pub claim :
    DemoOrderIntent
    → RiskDecision
    → String
    → ℕ
    → Repository
    → Result ExecutionFault (DemoExecutionRecord × Repository)
unfolding has build_execution
claim intent risk_revalidation owner claimed_at r =
    if is_known intent r
    then err (
        ExecutionFault.execution_error (
          failure_of duplicate_execution_intent
            "execution identity or source shadow intent was already claimed"))
    else validated (build_execution (claimed_record intent risk_revalidation owner claimed_at))
      >>= λ x. ok (x, store_claim x r)

abbrev pub is_owner : String → Option String → Bool
is_owner owner none = false
is_owner owner (some name) = str_eq name owner

unfoldable pub claim_is_owned : String → String → Repository → Bool
unfolding lookup
claim_is_owned id owner r = elim (lookup id r.records) [
  | none ↦ false
  | some x ↦ is_owner owner x.claim_owner && same_execution_state x.state DemoExecutionState.claimed
]

-- Equality of what an update may not change; `==` of pydantic compares every field.
unfoldable pub DemoOrderIntent-discrete : Discrete DemoOrderIntent
unfolding String-discrete
DemoOrderIntent-discrete = hlevel (String-discrete, ℕ_discrete)

unfoldable pub owner-discrete : Discrete (Option String)
unfolding String-discrete
owner-discrete = hlevel (String-discrete)

unfoldable pub events-discrete : Discrete (List DemoExecutionEvent)
unfolding String-discrete
events-discrete = hlevel (String-discrete, ℕ_discrete)

abbrev pub is_equal {ℓ} : {A : Type ℓ} → Discrete A → A → A → Bool
is_equal d a b = elim (d a b) [ yes same ↦ true | no other ↦ false ]

-- `events[:-1]`
abbrev pub all_but_last : List DemoExecutionEvent → List DemoExecutionEvent
all_but_last [] = []
all_but_last (event ∷ []) = []
all_but_last (event ∷ (next ∷ rest)) = event ∷ all_but_last (next ∷ rest)

-- What `save` asks of the record that is stored.
unfoldable pub is_update : DemoExecutionRecord → DemoExecutionRecord → Bool
unfolding DemoOrderIntent-discrete owner-discrete events-discrete
is_update current x =
    is_equal DemoOrderIntent-discrete x.intent current.intent
    && (is_equal owner-discrete x.claim_owner current.claim_owner
        && (length x.events == length current.events + 1
            && is_equal events-discrete (all_but_last x.events) current.events))

unfoldable pub save : DemoExecutionRecord → Repository → Result ExecutionFault Repository
unfolding is_update lookup insert
save x r = elim (lookup x.intent.execution_intent_id r.records) [
  | none ↦ err value_error
  | some current ↦
      if is_update current x
      then ok (record r { records = insert x.intent.execution_intent_id x r.records })
      else err value_error
]

unfoldable pub get_record : String → Repository → Option DemoExecutionRecord
unfolding lookup
get_record id r = lookup id r.records

-- Where an index names no record, `KeyError` in the source, this is `none`.
unfoldable pub get_by_source_digest : String → Repository → Option DemoExecutionRecord
unfolding lookup
get_by_source_digest digest r = elim (lookup digest r.source_index) [
  | none ↦ none
  | some id ↦ lookup id r.records
]
