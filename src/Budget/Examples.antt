-- ===== src/Budget/Examples.antt =====
-- A budget at work: two calls of one invocation, and the theorems of the component at them. Amounts
-- are in thousandths of a dollar.
use my_team_tradding.Budget.Guard.{estimate_maximum_cost, new_reservation, preflight, reserve}
use my_team_tradding.Budget.Guard.Reserve.{IsAdmitted, IsWithinCall, reserve-IsWithinCall}
use my_team_tradding.Budget.Ledger.{
  Ledger, check_limits, get, has_any_attempt, has_attempt, has_key, is_active, mark_dispatched, put,
  release, require, reserve_if_within, same_key, settle, total, transition,
}
use my_team_tradding.Budget.Run.{
  HasPrices, IsBudgeted, Run, Run-IsBudgeted, later, marks_dispatched, reserves, settles, start,
}
use my_team_tradding.Budget.Run.Lifecycle.{Continues, Run-final, Step-Continues}
use my_team_tradding.Budget.Sqlite.{
  select_one, sqlite_get, sqlite_mark_dispatched, sqlite_release, sqlite_require, sqlite_reserve,
  sqlite_settle, sqlite_transition, update_rows, write_row,
}
use my_team_tradding.Budget.Sqlite.Calls.{
  Call, dispatches_call, memory_call, releases_call, reserves_call, run_calls, run_calls-refines,
  settles_call, sqlite_call,
}
use my_team_tradding.Budget.Types.{
  AiBudgetPolicy, BudgetReservation, Calendar, PricingProfile, RuntimeProfile, dispatched,
  effort_none, openai, settled, value_error,
}
use my_team_tradding.Decimal.{Decimal}
use my_team_tradding.Decimal.RoundUp.{round_up, round_up-IsSignSafe}
use my_team_tradding.Prelude.{List, [], arith, none, refl, some, ◌/◌, ◌∷◌, ◌≡◌}
use my_team_tradding.Prelude.Int.{abs_ℤ, ltb_ℤ, pos, ◌+ℤ◌}
use my_team_tradding.Prelude.Result.{err, ok}

abbrev pub calendar : Calendar
calendar = record { month = λ d. d / 30 }

abbrev pub budget : AiBudgetPolicy
budget = record {
  policy_ref = "team-v1";
  currency = "USD";
  maximum_estimated_cost_per_call = pos 5000;
  daily_budget = pos 6000;
  monthly_budget = pos 9000;
  maximum_calls_per_cycle = 2;
  maximum_calls_per_day = 3;
  maximum_input_tokens = 1000;
  maximum_output_tokens = 500;
}

abbrev pub model : RuntimeProfile
model = record {
  profile_ref = "fast";
  provider = openai;
  model_identifier = "gpt";
  cost_policy_ref = "team-v1";
  pricing_profile_ref = "gpt-v1";
  max_output_tokens = 400;
  request_timeout_seconds = 30;
  total_timeout_seconds = 90;
  reasoning_effort = effort_none;
  capability_profile_ref = "gpt-capability";
  retry_policy_ref = "retry-v1";
}

abbrev pub prices : PricingProfile
prices = record {
  profile_ref = "gpt-v1";
  provider = openai;
  model_identifier = "gpt";
  currency = "USD";
  input_cost_per_million_tokens = pos 2000000;
  output_cost_per_million_tokens = pos 5000000;
  valid_from = 10;
  valid_until = none;
}

abbrev first_call : BudgetReservation
first_call = new_reservation "i1" 1 "c1" budget (pos 3000) 20

abbrev sent : BudgetReservation
sent = record first_call { state = dispatched; updated_at = 21 }

abbrev paid : BudgetReservation
paid = record first_call { state = settled; settled_amount = some (pos 1500); updated_at = 22 }

abbrev after_first : Ledger
after_first = (("i1", 1), first_call) ∷ []

abbrev after_sent : Ledger
after_sent = (("i1", 1), sent) ∷ []

abbrev after_paid : Ledger
after_paid = (("i1", 1), paid) ∷ []

first_reserved :
    reserve round_up calendar "i1" "c1" model (some 500) budget prices 20 1 []
    ≡ ok (first_call, after_first)
unfolding reserve preflight estimate_maximum_cost reserve_if_within check_limits total is_active
    has_key get put has_attempt has_any_attempt ltb_ℤ ◌+ℤ◌ round_up abs_ℤ
first_reserved = refl

first_sent : mark_dispatched ("i1", 1) 21 after_first ≡ ok (sent, after_sent)
unfolding mark_dispatched transition require get put same_key
first_sent = refl

first_paid : settle ("i1", 1) (pos 1500) 22 after_sent ≡ ok (paid, after_paid)
unfolding settle require get put same_key ltb_ℤ
first_paid = refl

affordable : HasPrices prices
affordable = record { input_nonneg = omega arith; output_nonneg = omega arith }

call-Run : Run round_up calendar budget [] after_paid
call-Run =
    later
      (later
        (later start (
          reserves "i1" "c1" model (some 500) budget prices 20 1 first_call (λ _. refl) affordable
            first_reserved))
        (marks_dispatched ("i1", 1) 21 sent first_sent))
      (settles ("i1", 1) (pos 1500) 22 paid first_paid)

Run-IsBudgeted_example : IsBudgeted calendar budget after_paid
Run-IsBudgeted_example =
    Run-IsBudgeted round_up round_up-IsSignSafe calendar budget
      (record { daily_nonneg = omega arith; monthly_nonneg = omega arith }) call-Run

Run-final_example : get ("i1", 1) after_paid ≡ some paid
unfolding get same_key
Run-final_example =
    Run-final round_up round_up-IsSignSafe calendar budget {l = after_paid} ("i1", 1) paid start tt
      refl

Step-Continues_example :
    (w : BudgetReservation) × (get ("i1", 1) after_sent ≡ some w) × Continues first_call w
unfolding get same_key
Step-Continues_example =
    Step-Continues round_up round_up-IsSignSafe calendar budget ("i1", 1) first_call
      (marks_dispatched ("i1", 1) 21 sent first_sent) refl

reserve-IsWithinCall_example :
    (cost : Decimal) × IsWithinCall round_up model budget prices (some 500) 20 cost
    × (first_call ≡ new_reservation "i1" 1 "c1" budget cost 20)
    × IsAdmitted calendar budget first_call [] after_first
reserve-IsWithinCall_example =
    reserve-IsWithinCall round_up model budget prices 20 calendar "i1" "c1" (some 500) 1 []
      after_first first_call first_reserved

-- The last call raises: a settled reservation stays.
abbrev calls : List Call
calls =
    reserves_call first_call budget
    ∷ dispatches_call "i1" 1 21
    ∷ settles_call "i1" 1 (pos 1500) 22
    ∷ releases_call "i1" 1 23
    ∷ []

run_calls-refines_example :
    run_calls (memory_call calendar) calls []
    ≡ (ok first_call ∷ ok sent ∷ ok paid ∷ err value_error ∷ [], after_paid)
unfolding run_calls memory_call reserve_if_within check_limits total is_active has_key get put
    has_attempt has_any_attempt mark_dispatched release settle transition require same_key
    sqlite_call sqlite_reserve sqlite_mark_dispatched sqlite_settle sqlite_release ltb_ℤ ◌+ℤ◌
    select_one update_rows sqlite_transition sqlite_require write_row sqlite_get
run_calls-refines_example = run_calls-refines calendar calls (refl, (tt, (tt, (tt, tt))))
