-- ===== src/Budget/Sqlite/Calls.antt =====
-- Sequences of calls of a budget ledger, src/ai_trading_team/runtime/budget.py and
-- src/ai_trading_team/storage/ai_budget.py: a client sees the answers, and a call that raises leaves
-- the state as it was.
use my_team_tradding.Budget.Ledger.{
  Ledger, mark_dispatched, mark_uncertain, release, release_undispatched_attempt, reserve_if_within,
  settle,
}
use my_team_tradding.Budget.Sqlite.{
  Table, sqlite_mark_dispatched, sqlite_mark_uncertain, sqlite_release,
  sqlite_release_undispatched_attempt, sqlite_reserve, sqlite_settle,
}
use my_team_tradding.Budget.Sqlite.Loaded.{IsUnique, loaded, loaded_result}
use my_team_tradding.Budget.Sqlite.Refine.{
  sqlite_reserve-refines, sqlite_settle-refines, sqlite_transition-refines,
}
use my_team_tradding.Budget.Sqlite.Unique.{
  sqlite_reserve-IsUnique, sqlite_settle-IsUnique, sqlite_transition-IsUnique,
}
use my_team_tradding.Budget.Types.{
  AiBudgetPolicy, BudgetFault, BudgetReservation, Calendar, dispatched, released, reserved,
  uncertain,
}
use my_team_tradding.Decimal.{Decimal}
use my_team_tradding.Prelude.{All, List, String, [], ap, none, refl, ℕ, ◌∷◌, ◌≡◌}
use my_team_tradding.Prelude.Result.{Result, err, ok}

pub data Call : Type 0 where
  reserves_call : BudgetReservation → AiBudgetPolicy → Call
  dispatches_call releases_call loses_call undoes_call : String → ℕ → ℕ → Call
  settles_call : String → ℕ → Decimal → ℕ → Call

-- A reservation comes to a ledger with no settled amount.
abbrev pub IsNewCall : Call → Type 0
IsNewCall (reserves_call r policy) = r.settled_amount ≡ none
IsNewCall _ = Unit

unfoldable pub memory_call :
    Calendar → Call → Ledger → Result BudgetFault (BudgetReservation × Ledger)
unfolding reserve_if_within mark_dispatched release mark_uncertain release_undispatched_attempt
    settle
memory_call cal (reserves_call r policy) l = reserve_if_within cal r policy l
memory_call cal (dispatches_call i n at) l = mark_dispatched (i, n) at l
memory_call cal (releases_call i n at) l = release (i, n) at l
memory_call cal (loses_call i n at) l = mark_uncertain (i, n) at l
memory_call cal (undoes_call i n at) l = release_undispatched_attempt (i, n) at l
memory_call cal (settles_call i n amount at) l = settle (i, n) amount at l

unfoldable pub sqlite_call :
    Calendar → Call → Table → Result BudgetFault (BudgetReservation × Table)
unfolding sqlite_reserve sqlite_mark_dispatched sqlite_release sqlite_mark_uncertain
    sqlite_release_undispatched_attempt sqlite_settle
sqlite_call cal (reserves_call r policy) t = sqlite_reserve cal r policy t
sqlite_call cal (dispatches_call i n at) t = sqlite_mark_dispatched i n at t
sqlite_call cal (releases_call i n at) t = sqlite_release i n at t
sqlite_call cal (loses_call i n at) t = sqlite_mark_uncertain i n at t
sqlite_call cal (undoes_call i n at) t = sqlite_release_undispatched_attempt i n at t
sqlite_call cal (settles_call i n amount at) t = sqlite_settle i n amount at t

-- The state behind a call, and what its caller sees.
abbrev pub state_after {ℓ} : {S : Type ℓ} → Result BudgetFault (BudgetReservation × S) → S → S
state_after (ok (r, s)) old = s
state_after (err e) old = old

abbrev pub answer_of {ℓ} :
    {S : Type ℓ} → Result BudgetFault (BudgetReservation × S) → Result BudgetFault BudgetReservation
answer_of (ok (r, s)) = ok r
answer_of (err e) = err e

-- The answers to a sequence of calls, and the state behind them.
module _ {ℓ} {S : Type ℓ} (call : Call → S → Result BudgetFault (BudgetReservation × S)) where
  unfoldable pub run_calls : List Call → S → List (Result BudgetFault BudgetReservation) × S
  run_calls [] s = ([], s)
  run_calls (c ∷ cs) s =
      let (answers, end) = run_calls cs (state_after (call c s) s) in
      (answer_of (call c s) ∷ answers, end)

sqlite_call-refines :
    (cal : Calendar) (c : Call) (t : Table)
    → IsUnique t
    → IsNewCall c
    → memory_call cal c (loaded t) ≡ loaded_result (sqlite_call cal c t)
unfolding memory_call sqlite_call
sqlite_call-refines cal (reserves_call r policy) t unique new =
    sqlite_reserve-refines cal policy r t new
sqlite_call-refines cal (dispatches_call i n at) t unique new =
    sqlite_transition-refines i n reserved dispatched at t unique
sqlite_call-refines cal (releases_call i n at) t unique new =
    sqlite_transition-refines i n reserved released at t unique
sqlite_call-refines cal (loses_call i n at) t unique new =
    sqlite_transition-refines i n dispatched uncertain at t unique
sqlite_call-refines cal (undoes_call i n at) t unique new =
    sqlite_transition-refines i n dispatched released at t unique
sqlite_call-refines cal (settles_call i n amount at) t unique new =
    sqlite_settle-refines i n amount at t unique

sqlite_call-IsUnique :
    (cal : Calendar) (c : Call) (t t' : Table) (v : BudgetReservation)
    → IsUnique t
    → sqlite_call cal c t ≡ ok (v, t')
    → IsUnique t'
unfolding sqlite_call
sqlite_call-IsUnique cal (reserves_call r policy) t t' v unique h =
    sqlite_reserve-IsUnique cal r v policy t t' unique h
sqlite_call-IsUnique cal (dispatches_call i n at) t t' v unique h =
    sqlite_transition-IsUnique i n reserved dispatched at t t' v unique h
sqlite_call-IsUnique cal (releases_call i n at) t t' v unique h =
    sqlite_transition-IsUnique i n reserved released at t t' v unique h
sqlite_call-IsUnique cal (loses_call i n at) t t' v unique h =
    sqlite_transition-IsUnique i n dispatched uncertain at t t' v unique h
sqlite_call-IsUnique cal (undoes_call i n at) t t' v unique h =
    sqlite_transition-IsUnique i n dispatched released at t t' v unique h
sqlite_call-IsUnique cal (settles_call i n amount at) t t' v unique h =
    sqlite_settle-IsUnique i n amount at t t' v unique h

state_after-IsUnique :
    (m : Result BudgetFault (BudgetReservation × Table)) (t : Table)
    → ((v : BudgetReservation) (t' : Table) → m ≡ ok (v, t') → IsUnique t')
    → IsUnique t
    → IsUnique (state_after m t)
state_after-IsUnique (ok (v, t')) t h unique = h v t' refl
state_after-IsUnique (err e) t h unique = unique

state_after-loaded :
    (m : Result BudgetFault (BudgetReservation × Table)) (t : Table)
    → state_after (loaded_result m) (loaded t) ≡ loaded (state_after m t)
state_after-loaded (ok (v, t')) t = refl
state_after-loaded (err e) t = refl

answer_of-loaded :
    (m : Result BudgetFault (BudgetReservation × Table)) → answer_of (loaded_result m) ≡ answer_of m
answer_of-loaded (ok (v, t')) = refl
answer_of-loaded (err e) = refl

run_from :
    (cal : Calendar) (cs : List Call) (t : Table)
    → IsUnique t
    → All IsNewCall cs
    → run_calls (memory_call cal) cs (loaded t)
      ≡ ((run_calls (sqlite_call cal) cs t).0, loaded ((run_calls (sqlite_call cal) cs t).1))
unfolding run_calls
run_from cal [] t unique new = refl
run_from cal (c ∷ cs) t unique new =
    let m = sqlite_call cal c t in
    rw (sqlite_call-refines cal c t unique new.0, state_after-loaded m t, answer_of-loaded m)
      (ap (λ p. (answer_of m ∷ p.0, p.1))
        (run_from cal cs (state_after m t)
          (state_after-IsUnique m t (λ v t' h. sqlite_call-IsUnique cal c t t' v unique h) unique)
          new.1))

-- From an empty database every sequence of calls is answered as the in-memory ledger answers it, in
-- every error too, and leaves the same items, if no call reserves with a settled amount.
pub run_calls-refines :
    (cal : Calendar) (cs : List Call)
    → All IsNewCall cs
    → run_calls (memory_call cal) cs []
      ≡ ((run_calls (sqlite_call cal) cs []).0, loaded ((run_calls (sqlite_call cal) cs []).1))
run_calls-refines cal cs new = run_from cal cs [] tt new
