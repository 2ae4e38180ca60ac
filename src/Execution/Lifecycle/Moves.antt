-- ===== src/Execution/Lifecycle/Moves.antt =====
-- What `_advance` of src/ai_trading_team/execution/service.py does to a record.
use my_team_tradding.Execution.Lifecycle.{
  DemoExecutionEvent, DemoExecutionRecord, DemoExecutionState, advance, all_pairs, build_execution,
  created, has_evidence, is_allowed, is_confirmed_by, is_post_dispatch, is_some, is_valid_history,
  is_valid_lifecycle, last_of, new_event, same_execution_state, updated,
}
use my_team_tradding.Execution.Lifecycle.Once.{dispatches_in, history_tests, valid_once}
use my_team_tradding.Execution.Reconciliation.{DemoReconciliationRecord, DemoSubmissionReceipt}
use my_team_tradding.Execution.Service.Dispatch.{checked}
use my_team_tradding.Execution.Types.{DemoExecutionFailure}
use my_team_tradding.Prelude.{
  Bool, List, Option, [], and_elim, arith, false, not, refl, subst, true, ℕ, ◌++◌, ◌||◌, ◌∷◌, ◌≡◌,
  ◌≤◌,
}
use my_team_tradding.Prelude.Result.{ok, ok-injective, passed-eq-ok}
use my_team_tradding.Risk.Proposal.Accept.{accepted}
use my_team_tradding.Risk.Types.{validation_error}

pub same_execution_state-eq : (a b : DemoExecutionState) → same_execution_state a b ≡ true → a ≡ b
same_execution_state-eq a b h = ground arith

pairs_last :
    (p : DemoExecutionEvent → DemoExecutionEvent → Bool) (left : DemoExecutionEvent)
    (rest : List DemoExecutionEvent) (next : DemoExecutionEvent)
    → all_pairs p left (rest ++ (next ∷ [])) ≡ true
    → p (last_of left rest) next ≡ true
unfolding all_pairs
pairs_last p left [] next h = (and_elim (p left next) true h).0
pairs_last p left (right ∷ rest) next h =
    pairs_last p right rest next (and_elim (p left right) _ h).1

-- The move of a record that is valid before and after it.
valid_move :
    (r s : DemoExecutionRecord) (events : List DemoExecutionEvent) (next : DemoExecutionEvent)
    → is_valid_history r events ≡ true
    → is_valid_history s (events ++ (next ∷ [])) ≡ true
    → (is_allowed r.state next.state ≡ true) × (has_evidence s ≡ true)
unfolding is_valid_history
valid_move r s [] next h g = cc
valid_move r s (first ∷ rest) next h g =
    let (begins, ends, numbered, ordered, pairs, evidence) = history_tests r first rest h in
    let (begins', ends', numbered', ordered', pairs', evidence') =
      history_tests s first (rest ++ (next ∷ [])) g in
    let step =
      pairs_last (λ left right. is_allowed left.state right.state) first rest next pairs' in
    let same = same_execution_state-eq (last_of first rest).state r.state ends in
    (subst (λ x. is_allowed x next.state ≡ true) same step, evidence')

not_to_created :
    (a b : DemoExecutionState) → is_allowed a b ≡ true → same_execution_state b created ≡ false
unfolding is_allowed
not_to_created a b h = ground arith

confirmed_reconciled :
    (s : DemoExecutionState) {b : Bool}
    → s ≡ DemoExecutionState.confirmed
    → (not (same_execution_state s DemoExecutionState.confirmed) || b) ≡ true
    → b ≡ true
confirmed_reconciled s {b} p h =
    subst (λ x. (not (same_execution_state x DemoExecutionState.confirmed) || b) ≡ true) p h

-- What the tests of the owner, the submission and the reconciliation mean.
pub evidence_of :
    (r : DemoExecutionRecord)
    → same_execution_state r.state created ≡ false
    → has_evidence r ≡ true
    → (is_some r.claim_owner ≡ true)
      × (is_post_dispatch r.state ≡ true → is_some r.submission ≡ true)
      × (r.state ≡ DemoExecutionState.confirmed → is_confirmed_by r.reconciliation ≡ true)
evidence_of r h g =
    let (owner, g1) =
      and_elim (same_execution_state r.state created || is_some r.claim_owner) _ g in
    let (submission, reconciled) =
      and_elim (not (is_post_dispatch r.state) || is_some r.submission) _ g1 in
    (ground arith, λ p. ground arith, λ p. confirmed_reconciled r.state p reconciled)

-- `r'` is `r` after a move to `state`.
pub record IsMove (r : DemoExecutionRecord) (state : DemoExecutionState) (at : ℕ)
    (failure : Option DemoExecutionFailure) (r' : DemoExecutionRecord) : Type 0 where
  pub allowed : is_allowed r.state state ≡ true
  pub reached : r'.state ≡ state
  pub kept : r'.intent ≡ r.intent
  pub appended : r'.events ≡ r.events ++ (new_event r state at failure ∷ [])
  pub owned : is_some r'.claim_owner ≡ true
  pub sent : is_post_dispatch state ≡ true → is_some r'.submission ≡ true
  pub reconciled : state ≡ DemoExecutionState.confirmed → is_confirmed_by r'.reconciliation ≡ true
  pub once : dispatches_in r'.events ≤ 1

-- When `_advance` returns on a valid record, the move is allowed, the record keeps its intent and its
-- events and ends in the new one, it has an owner, a submission if it is past the dispatch and a
-- confirmed reconciliation if it is confirmed, and it tells of at most one dispatch.
pub advance-IsMove :
    (r : DemoExecutionRecord) (state : DemoExecutionState) (at : ℕ)
    (failure : Option DemoExecutionFailure) (submission : Option DemoSubmissionReceipt)
    (reconciliation : Option DemoReconciliationRecord) (r' : DemoExecutionRecord)
    → is_valid_lifecycle r ≡ true
    → advance r state at failure submission reconciliation ≡ ok r'
    → IsMove r state at failure r'
unfolding advance build_execution is_valid_lifecycle
advance-IsMove r state at failure submission reconciliation r' checked h =
    let s = updated r state at failure submission reconciliation in
    let (accepted, returned) = passed-eq-ok (is_valid_lifecycle s) (ok s) validation_error r' h in
    let same = ok-injective returned in
    let (step, evidence) =
      valid_move r s r.events (new_event r state at failure) checked accepted in
    let (owner, submitted_by, confirmed_by) =
      evidence_of s (not_to_created r.state state step) evidence in
    subst (IsMove r state at failure) same (record {
      allowed = step;
      reached = refl;
      kept = refl;
      appended = refl;
      owned = owner;
      sent = submitted_by;
      reconciled = confirmed_by;
      once = (valid_once s s.events accepted).0;
    })
