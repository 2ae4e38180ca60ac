-- ===== src/Execution/Lifecycle/Once.antt =====
-- How often `DemoExecutionRecord` of src/ai_trading_team/schemas/execution.py tells of a dispatch.
use my_team_tradding.Execution.Lifecycle.{
  DemoExecutionEvent, DemoExecutionRecord, DemoExecutionState, all_pairs, build_execution, claimed,
  created, dispatching, has_evidence, is_allowed, is_numbered, is_valid_history, is_valid_lifecycle,
  last_of, same_execution_state, submitted,
}
use my_team_tradding.Prelude.{
  List, [], and_elim, arith, false, filter, if◌then◌else◌, leb, length, subst, sym, true, ℕ, ◌+◌,
  ◌<◌, ◌∷◌, ◌≡◌, ◌≤◌,
}
use my_team_tradding.Prelude.Result.{ok, ok-injective, passed-eq-ok}
use my_team_tradding.Risk.Proposal.Accept.{accepted}
use my_team_tradding.Risk.Types.{validation_error}

-- The events of a dispatch, counted.
abbrev pub dispatches_in : List DemoExecutionEvent → ℕ
dispatches_in events =
    length (filter (λ event. same_execution_state event.state dispatching) events)

-- How many dispatches, and how many events, may follow a state.
abbrev room : DemoExecutionState → ℕ
room created = 1
room claimed = 1
room _ = 0

abbrev height : DemoExecutionState → ℕ
height created = 5
height claimed = 4
height dispatching = 3
height submitted = 2
height DemoExecutionState.unknown = 1
height _ = 0

allowed_room :
    (left right : DemoExecutionState)
    → is_allowed left right ≡ true
    → (if same_execution_state right dispatching then 1 else 0) + room right ≤ room left
unfolding is_allowed
allowed_room left right h = ground arith

allowed_height :
    (left right : DemoExecutionState) → is_allowed left right ≡ true → height right < height left
unfolding is_allowed
allowed_height left right h = ground arith

abbrev pub AllowedPairs : DemoExecutionEvent → List DemoExecutionEvent → Type 0
AllowedPairs left rest =
    all_pairs (λ left right. is_allowed left.state right.state) left rest ≡ true

dispatches_room :
    (left : DemoExecutionEvent) (rest : List DemoExecutionEvent)
    → AllowedPairs left rest
    → dispatches_in rest ≤ room left.state
unfolding all_pairs
dispatches_room left [] h = omega arith
dispatches_room left (right ∷ rest) h =
    let (step, others) = and_elim (is_allowed left.state right.state) _ h in
    let here = allowed_room left.state right.state step in
    let behind = dispatches_room right rest others in ground arith

length-height :
    (left : DemoExecutionEvent) (rest : List DemoExecutionEvent)
    → AllowedPairs left rest
    → length rest ≤ height left.state
unfolding all_pairs
length-height left [] h = omega arith
length-height left (right ∷ rest) h =
    let (step, others) = and_elim (is_allowed left.state right.state) _ h in
    omega (arith, allowed_height left.state right.state step, length-height right rest others)

-- The tests of `validate_lifecycle`, one by one.
pub history_tests :
    (r : DemoExecutionRecord) (first : DemoExecutionEvent) (rest : List DemoExecutionEvent)
    → is_valid_history r (first ∷ rest) ≡ true
    → (same_execution_state first.state created ≡ true)
      × (same_execution_state (last_of first rest).state r.state ≡ true)
      × (is_numbered 1 (first ∷ rest) ≡ true)
      × (all_pairs (λ left right. leb left.occurred_at right.occurred_at) first rest ≡ true)
      × AllowedPairs first rest
      × (has_evidence r ≡ true)
unfolding is_valid_history
history_tests r first rest h =
    let in_order = all_pairs (λ left right. leb left.occurred_at right.occurred_at) first rest in
    let (begins, h1) = and_elim (same_execution_state first.state created) _ h in
    let (ends, h2) = and_elim (same_execution_state (last_of first rest).state r.state) _ h1 in
    let (numbered, h3) = and_elim (is_numbered 1 (first ∷ rest)) _ h2 in
    let (ordered, h4) = and_elim in_order _ h3 in
    let (pairs, evidence) = and_elim _ (has_evidence r) h4 in
    (begins, ends, numbered, ordered, pairs, evidence)

created_room :
    (s : DemoExecutionState)
    → same_execution_state s created ≡ true
    → (room s ≡ 1) × (height s ≡ 5) × (same_execution_state s dispatching ≡ false)
created_room s h = ground arith

pub valid_once :
    (r : DemoExecutionRecord) (events : List DemoExecutionEvent)
    → is_valid_history r events ≡ true
    → (dispatches_in events ≤ 1) × (length events ≤ 6)
unfolding is_valid_history
valid_once r [] h = cc
valid_once r (first ∷ rest) h =
    let (begins, ends, numbered, ordered, pairs, evidence) = history_tests r first rest h in
    let (one, five, other) = created_room first.state begins in
    let once = dispatches_room first rest pairs in
    let short = length-height first rest pairs in (ground arith, omega arith)

-- A record that its schema accepts is returned as it is, tells of at most one dispatch and has at
-- most six events.
pub build_execution-IsOnce :
    (r r' : DemoExecutionRecord)
    → build_execution r ≡ ok r'
    → (r' ≡ r) × (dispatches_in r'.events ≤ 1) × (length r'.events ≤ 6)
unfolding build_execution is_valid_lifecycle
build_execution-IsOnce r r' h =
    let (checked, accepted) = passed-eq-ok (is_valid_lifecycle r) (ok r) validation_error r' h in
    let same = ok-injective accepted in
    let bounds = valid_once r r.events checked in
    (
      sym same,
      subst (λ x. dispatches_in x.events ≤ 1) same bounds.0,
      subst (λ x. length x.events ≤ 6) same bounds.1,
    )
