-- ===== src/Execution/Lifecycle/Exact.antt =====
-- When `_advance` of src/ai_trading_team/execution/service.py returns.
use my_team_tradding.Execution.Lifecycle.{
  DemoExecutionEvent, DemoExecutionRecord, DemoExecutionState, advance, all_pairs, build_execution,
  has_evidence, is_allowed, is_numbered, is_valid_history, is_valid_lifecycle, last_of, new_event,
  same_execution_state, updated,
}
use my_team_tradding.Execution.Lifecycle.Moves.{same_execution_state-eq}
use my_team_tradding.Execution.Lifecycle.Once.{history_tests}
use my_team_tradding.Execution.Reconciliation.{DemoReconciliationRecord, DemoSubmissionReceipt}
use my_team_tradding.Execution.Service.Dispatch.{checked}
use my_team_tradding.Execution.Types.{DemoExecutionFailure}
use my_team_tradding.Prelude.{
  Bool, List, Option, [], and_elim, ap, arith, if◌then◌else◌, leb, length, refl, subst, suc, sym,
  true, ℕ, ◌&&◌, ◌++◌, ◌+◌, ◌==◌, ◌∙◌, ◌∷◌, ◌≡◌,
}
use my_team_tradding.Prelude.Result.{err, ok}
use my_team_tradding.Risk.Types.{validation_error}

all_pairs-append :
    (p : DemoExecutionEvent → DemoExecutionEvent → Bool) (left : DemoExecutionEvent)
    (rest : List DemoExecutionEvent) (next : DemoExecutionEvent)
    → all_pairs p left rest ≡ true
    → all_pairs p left (rest ++ (next ∷ [])) ≡ p (last_of left rest) next
unfolding all_pairs
all_pairs-append p left [] next h = ground arith
all_pairs-append p left (right ∷ rest) next h =
    let (first_step, others) = and_elim (p left right) _ h in
    let behind = all_pairs-append p right rest next others in ground arith

last_of-append :
    (left : DemoExecutionEvent) (rest : List DemoExecutionEvent) (next : DemoExecutionEvent)
    → last_of left (rest ++ (next ∷ [])) ≡ next
last_of-append left [] next = refl
last_of-append left (right ∷ rest) next = last_of-append right rest next

is_numbered-append :
    (n : ℕ) (events : List DemoExecutionEvent) (next : DemoExecutionEvent)
    → is_numbered n events ≡ true
    → next.sequence ≡ n + length events
    → is_numbered n (events ++ (next ∷ [])) ≡ true
is_numbered-append n [] next h g = ground arith
is_numbered-append n (event ∷ rest) next h g =
    let (here, others) = and_elim (event.sequence == n) _ h in
    let behind = is_numbered-append (suc n) rest next others (omega arith) in ground arith

same_state : (s : DemoExecutionState) → same_execution_state s s ≡ true
same_state s = ground arith

remaining_tests :
    (b1 b2 b3 b4 b5 evidence t m : Bool)
    → b1 ≡ true
    → b2 ≡ true
    → b3 ≡ true
    → b4 ≡ t
    → b5 ≡ m
    → (b1 && (b2 && (b3 && (b4 && (b5 && evidence))))) ≡ (t && (m && evidence))
remaining_tests b1 b2 b3 b4 b5 evidence t m h1 h2 h3 h4 h5 = ground arith

-- The tests of a valid history that one more event leaves to be made.
valid_extension :
    (r s : DemoExecutionRecord) (first : DemoExecutionEvent) (rest : List DemoExecutionEvent)
    (next : DemoExecutionEvent)
    → is_valid_history r (first ∷ rest) ≡ true
    → next.sequence ≡ 1 + length (first ∷ rest)
    → next.state ≡ s.state
    → is_valid_history s (first ∷ (rest ++ (next ∷ []))) ≡ (
        leb (last_of first rest).occurred_at next.occurred_at
        && (is_allowed r.state next.state && has_evidence s))
unfolding is_valid_history
valid_extension r s first rest next h g e =
    let (begins, ends, numbered, ordered, pairs, evidence) = history_tests r first rest h in
    let same = same_execution_state-eq (last_of first rest).state r.state ends in
    let times =
      all_pairs-append (λ left right. leb left.occurred_at right.occurred_at) first rest next
        ordered in
    let moves =
      all_pairs-append (λ left right. is_allowed left.state right.state) first rest next pairs in
    let numbers = is_numbered-append 1 (first ∷ rest) next numbered g in
    let at_end = last_of-append first rest next in
    let ends' : same_execution_state (last_of first (rest ++ (next ∷ []))).state s.state ≡ true =
      subst (λ x. same_execution_state x s.state ≡ true) (sym (ap (λ x. x.state) at_end ∙ e))
        (same_state s.state) in
    remaining_tests _ _ _ _ _ (has_evidence s) _ _ begins ends' numbers times (
      subst
        (λ x.
          all_pairs (λ left right. is_allowed left.state right.state) first (rest ++ (next ∷ []))
          ≡ is_allowed x next.state)
        same moves)

-- The validity of an updated record, in the tests that are left to be made.
pub updated_valid :
    (r : DemoExecutionRecord) (first : DemoExecutionEvent) (rest : List DemoExecutionEvent)
    (state : DemoExecutionState) (at : ℕ) (failure : Option DemoExecutionFailure)
    (submission : Option DemoSubmissionReceipt) (reconciliation : Option DemoReconciliationRecord)
    → r.events ≡ first ∷ rest
    → is_valid_lifecycle r ≡ true
    → is_valid_lifecycle (updated r state at failure submission reconciliation) ≡ (
        leb (last_of first rest).occurred_at at
        && (is_allowed r.state state
            && has_evidence (updated r state at failure submission reconciliation)))
unfolding is_valid_lifecycle
updated_valid r first rest state at failure submission reconciliation shape checked =
    let s = updated r state at failure submission reconciliation in
    let next = new_event r state at failure in
    let before = subst (λ x. is_valid_history r x ≡ true) shape checked in
    let size = ap length shape in
    let tests = valid_extension r s first rest next before (omega (arith, size)) refl in
    ap (λ x. is_valid_history s (x ++ (next ∷ []))) shape ∙ tests

-- On a valid record with the events `first ∷ rest`, `_advance` returns the updated record exactly when
-- the new time is not before the last event, the state may follow the record's, and the updated record
-- has its evidence: an owner, a submission if it is past the dispatch, a confirmed reconciliation if
-- it is confirmed. Otherwise it raises a validation error.
pub advance_exact :
    (r : DemoExecutionRecord) (first : DemoExecutionEvent) (rest : List DemoExecutionEvent)
    (state : DemoExecutionState) (at : ℕ) (failure : Option DemoExecutionFailure)
    (submission : Option DemoSubmissionReceipt) (reconciliation : Option DemoReconciliationRecord)
    → r.events ≡ first ∷ rest
    → is_valid_lifecycle r ≡ true
    → advance r state at failure submission reconciliation ≡ (
        if leb (last_of first rest).occurred_at at
          && (is_allowed r.state state
              && has_evidence (updated r state at failure submission reconciliation))
        then ok (updated r state at failure submission reconciliation)
        else err validation_error)
unfolding advance build_execution
advance_exact r first rest state at failure submission reconciliation shape checked =
    let s = updated r state at failure submission reconciliation in
    ap (λ b. if b then ok s else err validation_error)
      (updated_valid r first rest state at failure submission reconciliation shape checked)
