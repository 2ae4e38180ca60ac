-- ===== src/Budget/Run.antt =====
-- Runs of the AI budget: any sequence of the guard's reservations and of the ledger's state changes,
-- which the lock puts in one order. A call that raises leaves the ledger as it was, so it is no step.
pub mod Lifecycle
use my_team_tradding.Budget.Guard.{estimate_maximum_cost, reserve}
use my_team_tradding.Budget.Guard.Reserve.{reserve-IsWithinCall}
use my_team_tradding.Budget.Ledger.{
  Key, Ledger, get, is_active, mark_dispatched, mark_uncertain, put, release,
  release_undispatched_attempt, settle, total,
}
use my_team_tradding.Budget.Ledger.Limits.{
  IsAffordable, IsLighter, IsWithin, put-IsWithin, put-IsWithin_new, put-IsWithin_other,
}
use my_team_tradding.Budget.Ledger.Steps.{
  Moveable, Moves, Moves-IsLighter, Settles, Settles-IsLighter, Wrote, dispatches, loses, releases,
  settle-Settles, transition-Moves, undoes,
}
use my_team_tradding.Budget.Ledger.Store.{AllItems, AllItems-get, AllItems-put}
use my_team_tradding.Budget.Types.{
  AiBudgetPolicy, BudgetReservation, BudgetReservationState, Calendar, PricingProfile,
  RuntimeProfile, dispatched, released, reserved, uncertain,
}
use my_team_tradding.Decimal.{Decimal, DecimalContext, IsSignSafe, of_int}
use my_team_tradding.Prelude.{
  Bool-cases, Option, String, [], ap, arith, false, inl, inr, none, some, str_eq, str_eq_iff, subst,
  ℕ, ◌≡◌, ◌⊎◌,
}
use my_team_tradding.Prelude.Int.{int_laws, pos, ◌<ℤ◌, ◌≤ℤ◌}
use my_team_tradding.Prelude.Result.{ok}

-- Prices that the schema admits.
pub record HasPrices (pricing : PricingProfile) : Type 0 where
  pub input_nonneg : pos 0 ≤ℤ pricing.input_cost_per_million_tokens
  pub output_nonneg : pos 0 ≤ℤ pricing.output_cost_per_million_tokens

-- `governed` is the one policy under its reference; others may run beside it.
pub data Step (c : DecimalContext) (cal : Calendar) (governed : AiBudgetPolicy)
    : Ledger → Ledger → Type 0 where
  reserves :
      {l l' : Ledger} (invocation_id cycle_id : String) (runtime : RuntimeProfile)
      (estimate : Option ℕ) (policy : AiBudgetPolicy) (pricing : PricingProfile)
      (moment attempt_number : ℕ) (r : BudgetReservation)
      → (policy.policy_ref ≡ governed.policy_ref → policy ≡ governed)
      → HasPrices pricing
      → reserve c cal invocation_id cycle_id runtime estimate policy pricing moment attempt_number l
        ≡ ok (r, l')
      → Step c cal governed l l'
  marks_dispatched :
      {l l' : Ledger} (k : Key) (at : ℕ) (r : BudgetReservation)
      → mark_dispatched k at l ≡ ok (r, l')
      → Step c cal governed l l'
  settles :
      {l l' : Ledger} (k : Key) (amount : Decimal) (at : ℕ) (r : BudgetReservation)
      → settle k amount at l ≡ ok (r, l')
      → Step c cal governed l l'
  releases_reserved :
      {l l' : Ledger} (k : Key) (at : ℕ) (r : BudgetReservation)
      → release k at l ≡ ok (r, l')
      → Step c cal governed l l'
  marks_uncertain :
      {l l' : Ledger} (k : Key) (at : ℕ) (r : BudgetReservation)
      → mark_uncertain k at l ≡ ok (r, l')
      → Step c cal governed l l'
  releases_undispatched :
      {l l' : Ledger} (k : Key) (at : ℕ) (r : BudgetReservation)
      → release_undispatched_attempt k at l ≡ ok (r, l')
      → Step c cal governed l l'

pub data Run (c : DecimalContext) (cal : Calendar) (governed : AiBudgetPolicy) (l : Ledger)
    : Ledger → Type 0 where
  start : Run c cal governed l l
  later : {m n : Ledger} → Run c cal governed l m → Step c cal governed m n → Run c cal governed l n

-- What a step has done to the ledger, whichever operation it was.
pub data Effect (cal : Calendar) (governed : AiBudgetPolicy) (l l' : Ledger) : Type 0 where
  added :
      (r : BudgetReservation)
      → r.state ≡ reserved
      → pos 0 ≤ℤ r.reserved_amount
      → get (r.invocation_id, r.attempt_number) l ≡ none
      → IsAffordable cal governed r l ⊎ (is_active governed.policy_ref r ≡ false)
      → l' ≡ put (r.invocation_id, r.attempt_number) r l
      → Effect cal governed l l'
  moved :
      (k : Key) (from to : BudgetReservationState) (at : ℕ)
      → Moveable from to
      → Wrote k (Moves from to at) l l'
      → Effect cal governed l l'
  charged :
      (k : Key) (amount : Decimal) (at : ℕ)
      → Wrote k (Settles amount at) l l'
      → Effect cal governed l l'

module _ (c : DecimalContext) (safe : IsSignSafe c) (cal : Calendar)
    (governed : AiBudgetPolicy) where
  estimate_nonneg :
      (input_tokens output_tokens : ℕ) (pricing : PricingProfile)
      → HasPrices pricing
      → pos 0 ≤ℤ estimate_maximum_cost c input_tokens output_tokens pricing
  unfolding estimate_maximum_cost
  estimate_nonneg input_tokens output_tokens pricing h =
      let million : pos 0 <ℤ of_int c 1000000 = omega (arith, safe.one_pos) in
      omega (
        int_laws,
        safe.div_nonneg _ (of_int c 1000000)
            (safe.mul_nonneg (of_int c input_tokens) _ (omega arith) h.input_nonneg) million,
        safe.div_nonneg _ (of_int c 1000000)
            (safe.mul_nonneg (of_int c output_tokens) _ (omega arith) h.output_nonneg) million,
      )

  -- The new item counts under the governed policy, within its limits, or not at all.
  governed_room :
      (policy : AiBudgetPolicy) (r : BudgetReservation) (l : Ledger)
      → (policy.policy_ref ≡ governed.policy_ref → policy ≡ governed)
      → r.policy_ref ≡ policy.policy_ref
      → IsAffordable cal policy r l
      → IsAffordable cal governed r l ⊎ (is_active governed.policy_ref r ≡ false)
  unfolding is_active
  governed_room policy r l single under room =
      elim (Bool-cases (str_eq policy.policy_ref governed.policy_ref)) [
        | inl same ↦
            inl (subst (λ q. IsAffordable cal q r l) (single ((str_eq_iff _ _).0 same)) room)
        | inr other ↦ inr (rw (under, other) (ground arith))
      ]

  pub Step-Effect : {l l' : Ledger} → Step c cal governed l l' → Effect cal governed l l'
  unfolding mark_dispatched release mark_uncertain release_undispatched_attempt
  Step-Effect
        (reserves {l = l} {l' = l'} i cy runtime estimate policy pricing moment n r single prices
          h) =
      let (cost, call, same, admitted) =
        reserve-IsWithinCall c runtime policy pricing moment cal i cy estimate n l l' r h in
      added r (ap (λ v. v.state) same)
        (rw (same, call.cost_is)
          (estimate_nonneg call.tokens runtime.max_output_tokens pricing prices))
        admitted.fresh (governed_room policy r l single (ap (λ v. v.policy_ref) same) admitted.room)
        admitted.written
  Step-Effect (marks_dispatched {l = l} {l' = l'} k at r h) =
      moved k reserved dispatched at dispatches (transition-Moves k reserved dispatched at l l' r h)
  Step-Effect (settles {l = l} {l' = l'} k amount at r h) =
      charged k amount at (settle-Settles k amount at l l' r h)
  Step-Effect (releases_reserved {l = l} {l' = l'} k at r h) =
      moved k reserved released at releases (transition-Moves k reserved released at l l' r h)
  Step-Effect (marks_uncertain {l = l} {l' = l'} k at r h) =
      moved k dispatched uncertain at loses (transition-Moves k dispatched uncertain at l l' r h)
  Step-Effect (releases_undispatched {l = l} {l' = l'} k at r h) =
      moved k dispatched released at undoes (transition-Moves k dispatched released at l l' r h)

-- The limits hold, and no item reserves a negative amount.
pub record IsBudgeted (cal : Calendar) (governed : AiBudgetPolicy) (l : Ledger) : Type 0 where
  pub within : IsWithin cal governed l
  pub amounts : AllItems (λ r. pos 0 ≤ℤ r.reserved_amount) l

-- Budgets that are not negative, as the schema of a policy requires.
pub record HasBudgets (policy : AiBudgetPolicy) : Type 0 where
  pub daily_nonneg : pos 0 ≤ℤ policy.daily_budget
  pub monthly_nonneg : pos 0 ≤ℤ policy.monthly_budget

module _ (cal : Calendar) (governed : AiBudgetPolicy) where
  wrote-IsBudgeted :
      {l l' : Ledger} (k : Key) (r v : BudgetReservation)
      → get k l ≡ some r
      → (pos 0 ≤ℤ r.reserved_amount → IsLighter v r)
      → v.reserved_amount ≡ r.reserved_amount
      → l' ≡ put k v l
      → IsBudgeted cal governed l
      → IsBudgeted cal governed l'
  wrote-IsBudgeted {l} k r v found lighter same_amount written h =
      let amount = AllItems-get (λ x. pos 0 ≤ℤ x.reserved_amount) k r l h.amounts found in
      rw written (record {
        within = put-IsWithin cal governed k v r l found (lighter amount) h.within;
        amounts =
            AllItems-put (λ x. pos 0 ≤ℤ x.reserved_amount) k v l h.amounts (rw same_amount amount);
      })

  pub Effect-IsBudgeted :
      {l l' : Ledger}
      → Effect cal governed l l'
      → IsBudgeted cal governed l
      → IsBudgeted cal governed l'
  Effect-IsBudgeted {l} (added r state amount fresh room written) h =
      let k : Key = (r.invocation_id, r.attempt_number) in
      rw written (record {
        within = elim room [
          | inl affordable ↦ put-IsWithin_new cal governed k r l fresh state affordable h.within
          | inr inactive ↦ put-IsWithin_other cal governed k r l fresh inactive h.within
        ];
        amounts = AllItems-put (λ x. pos 0 ≤ℤ x.reserved_amount) k r l h.amounts amount;
      })
  Effect-IsBudgeted (moved k from to at move (r, v, found, change, written)) h =
      wrote-IsBudgeted k r v found (Moves-IsLighter move change)
        (ap (λ x. x.reserved_amount) change.after) written h
  Effect-IsBudgeted (charged k amount at (r, v, found, change, written)) h =
      wrote-IsBudgeted k r v found (Settles-IsLighter change)
        (ap (λ x. x.reserved_amount) change.after) written h

  empty-IsBudgeted : HasBudgets governed → IsBudgeted cal governed []
  unfolding total
  empty-IsBudgeted h = record {
    within = record {
      cycles = λ cycle_id. omega arith;
      days = λ at. omega arith;
      daily = λ at. h.daily_nonneg;
      monthly = λ at. h.monthly_nonneg;
    };
    amounts = tt;
  }

module _ (c : DecimalContext) (safe : IsSignSafe c) (cal : Calendar)
    (governed : AiBudgetPolicy) where
  Run-keeps :
      {l l' : Ledger}
      → Run c cal governed l l'
      → IsBudgeted cal governed l
      → IsBudgeted cal governed l'
  Run-keeps start h = h
  Run-keeps (later run step) h =
      Effect-IsBudgeted cal governed (Step-Effect c safe cal governed step) (Run-keeps run h)

  -- With budgets that are not negative and arithmetic that keeps signs, every ledger that a run
  -- reaches from the empty one is budgeted: the calls of a cycle and of a day, and the charges of a
  -- day and of a month, are within the governed policy.
  pub Run-IsBudgeted :
      {l : Ledger} → HasBudgets governed → Run c cal governed [] l → IsBudgeted cal governed l
  Run-IsBudgeted budgets run = Run-keeps run (empty-IsBudgeted cal governed budgets)
