-- ===== src/Execution/Store/Recovered.antt =====
-- What the recovery of src/ai_trading_team/storage/execution.py leaves in the repository.
use my_team_tradding.Execution.Lifecycle.{DemoExecutionRecord, DemoExecutionState}
use my_team_tradding.Execution.Reconciliation.{DemoSubmissionReceipt}
use my_team_tradding.Execution.Store.{ExecutionFault, Repository}
use my_team_tradding.Execution.Store.Records.{get_record}
use my_team_tradding.Execution.Store.Recovery.{
  Entries, recover_as, recover_entries, recover_incomplete, recover_record, recovered_list,
  recovered_or, submission_or_unknown, unsure,
}
use my_team_tradding.Prelude.{
  Bool, Bool-cases, List, Option, String, [], ap, false, inl, inr, none, refl, some, str_eq, subst,
  sym, true, ℕ, ◌∷◌, ◌≡◌,
}
use my_team_tradding.Prelude.Dict.{lookup}
use my_team_tradding.Prelude.Result.{>>=-returned, Result, Result-cases, err, ok, ok-injective}

abbrev pub is_incomplete : DemoExecutionState → Bool
is_incomplete DemoExecutionState.created = true
is_incomplete DemoExecutionState.claimed = true
is_incomplete DemoExecutionState.dispatching = true
is_incomplete DemoExecutionState.submitted = true
is_incomplete _ = false

-- What a record becomes: rejected if it was not dispatched, unknown if it may have been.
abbrev pub recovered_state : DemoExecutionState → DemoExecutionState
recovered_state DemoExecutionState.created = DemoExecutionState.rejected
recovered_state DemoExecutionState.claimed = DemoExecutionState.rejected
recovered_state DemoExecutionState.dispatching = DemoExecutionState.unknown
recovered_state DemoExecutionState.submitted = DemoExecutionState.unknown
recovered_state state = state

-- The record behind a turn: in its new state, or untouched if it was complete.
pub record IsRecovered (x y : DemoExecutionRecord) : Type 0 where
  pub moved_to : y.state ≡ recovered_state x.state
  pub kept : is_incomplete x.state ≡ false → y ≡ x
  pub same_intent : y.intent ≡ x.intent

unsure-IsRecovered :
    (x : DemoExecutionRecord) (at : ℕ) (submission : Result ExecutionFault DemoSubmissionReceipt)
    (o : Option DemoExecutionRecord)
    → unsure x at submission ≡ ok o
    → ((recovered_or x o).state ≡ DemoExecutionState.unknown)
      × ((recovered_or x o).intent ≡ x.intent)
unsure-IsRecovered x at (ok submission) o h =
    subst
      (λ z.
        ((recovered_or x z).state ≡ DemoExecutionState.unknown)
        × ((recovered_or x z).intent ≡ x.intent))
      (ok-injective h) (refl, refl)
unsure-IsRecovered x at (err fault) o h = cc

-- A turn that leaves the record alone.
untouched :
    {state : DemoExecutionState} (x : DemoExecutionRecord) (o : Option DemoExecutionRecord)
    → state ≡ x.state
    → none ≡ o
    → ((recovered_or x o).state ≡ state)
      × (is_incomplete state ≡ false → recovered_or x o ≡ x)
      × ((recovered_or x o).intent ≡ x.intent)
untouched {state} x o s h =
    subst
      (λ z.
        ((recovered_or x z).state ≡ state)
        × (is_incomplete state ≡ false → recovered_or x z ≡ x)
        × ((recovered_or x z).intent ≡ x.intent))
      h (sym s, λ p. refl, refl)

-- The facts, by the state of the record.
recover_as_facts :
    (state : DemoExecutionState) (x : DemoExecutionRecord) (at : ℕ) (o : Option DemoExecutionRecord)
    → state ≡ x.state
    → recover_as state x at ≡ ok o
    → ((recovered_or x o).state ≡ recovered_state state)
      × (is_incomplete state ≡ false → recovered_or x o ≡ x)
      × ((recovered_or x o).intent ≡ x.intent)
unfolding recover_as
recover_as_facts DemoExecutionState.created x at o s h = (
  ap (λ z. (recovered_or x z).state) (sym (ok-injective h)),
  λ p. cc,
  ap (λ z. (recovered_or x z).intent) (sym (ok-injective h)),
)
recover_as_facts DemoExecutionState.claimed x at o s h = (
  ap (λ z. (recovered_or x z).state) (sym (ok-injective h)),
  λ p. cc,
  ap (λ z. (recovered_or x z).intent) (sym (ok-injective h)),
)
recover_as_facts DemoExecutionState.dispatching x at o s h =
    let (state, intent) = unsure-IsRecovered x at (submission_or_unknown x at) o h in
    (state, λ p. cc, intent)
recover_as_facts DemoExecutionState.submitted x at o s h =
    let (state, intent) = unsure-IsRecovered x at (submission_or_unknown x at) o h in
    (state, λ p. cc, intent)
recover_as_facts DemoExecutionState.confirmed x at o s h = untouched x o s (ok-injective h)
recover_as_facts DemoExecutionState.rejected x at o s h = untouched x o s (ok-injective h)
recover_as_facts DemoExecutionState.unknown x at o s h = untouched x o s (ok-injective h)
recover_as_facts DemoExecutionState.reconciliation_failed x at o s h =
    untouched x o s (ok-injective h)

recover_record-IsRecovered :
    (x : DemoExecutionRecord) (at : ℕ) (o : Option DemoExecutionRecord)
    → recover_record x at ≡ ok o
    → IsRecovered x (recovered_or x o)
unfolding recover_record
recover_record-IsRecovered x at o h =
    let (state, kept, intent) = recover_as_facts x.state x at o refl h in
    record { moved_to = state; kept = kept; same_intent = intent }

abbrev pub Agrees : Option DemoExecutionRecord → Option DemoExecutionRecord → Type 0
Agrees none none = Unit
Agrees (some x) (some y) = IsRecovered x y
Agrees _ _ = ⊥

recover_entries-Agrees :
    (at : ℕ) (id : String) (entries : Entries) (xs : List DemoExecutionRecord)
    → (recover_entries at entries).1 ≡ ok xs
    → Agrees (lookup id entries) (lookup id (recover_entries at entries).0)
unfolding recover_entries lookup
recover_entries-Agrees at id [] xs h = tt
recover_entries-Agrees at id ((key, x) ∷ rest) xs h = elim (Result-cases (recover_record x at)) [
  | inr (fault, raised) ↦ cc (rw (raised, recover_entries) at h)
  | inl (o, turned_to) ↦
      let (ys, others, listed) =
        >>=-returned (recover_entries at rest).1 (λ zs. ok (recovered_list o zs))
          (rw turned_to at h) in
      rw turned_to (elim (Bool-cases (str_eq key id)) [
        | inl own ↦ rw own (recover_record-IsRecovered x at o turned_to)
        | inr other ↦ rw other (recover_entries-Agrees at id rest ys others)
      ])
]

-- A recovery that returns keeps every identity: a record that was not dispatched is rejected, one that
-- may have been dispatched is unknown, every other one is untouched, and no intent changes.
pub recover_incomplete-Agrees :
    (at : ℕ) (r : Repository) (xs : List DemoExecutionRecord) (id : String)
    → (recover_incomplete at r).1 ≡ ok xs
    → Agrees (get_record id r) (get_record id (recover_incomplete at r).0)
unfolding recover_incomplete get_record
recover_incomplete-Agrees at r xs id h = recover_entries-Agrees at id r.records xs h
