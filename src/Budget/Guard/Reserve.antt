-- ===== src/Budget/Guard/Reserve.antt =====
-- What a reservation that returns has checked and written.
use my_team_tradding.Budget.Guard.{
  estimate_maximum_cost, is_outside_window, new_reservation, preflight, reserve,
}
use my_team_tradding.Budget.Ledger.{
  Key, Ledger, check_limits, get, has_any_attempt, has_attempt, has_key, put, reserve_if_within,
  values,
}
use my_team_tradding.Budget.Ledger.Limits.{IsAffordable, check_limits-IsAffordable}
use my_team_tradding.Budget.Types.{
  AiBudgetPolicy, BudgetReservation, Calendar, PricingProfile, RuntimeProfile,
}
use my_team_tradding.Decimal.{Decimal, DecimalContext}
use my_team_tradding.Prelude.{
  Option, String, ap, arith, false, ltb, none, not, or-eq-false, refl, some, str_eq, str_eq_iff,
  subst, sym, true, ℕ, ◌&&◌, ◌-◌, ◌<◌, ◌==◌, ◌||◌, ◌≡◌, ◌≤◌,
}
use my_team_tradding.Prelude.Int.{ltb_ℤ, ltb_ℤ→ge, ◌≤ℤ◌}
use my_team_tradding.Prelude.Result.{>>=-returned, ok, ok-injective, refused-eq-ok}

-- The attempt is new, it is the first of its invocation or follows the attempt before it, and the
-- limits had room for it.
pub record IsAdmitted (cal : Calendar) (policy : AiBudgetPolicy) (r : BudgetReservation)
    (l l' : Ledger) : Type 0 where
  pub fresh : get (r.invocation_id, r.attempt_number) l ≡ none
  pub first : r.attempt_number ≡ 1 → has_any_attempt r.invocation_id l ≡ false
  pub follows : 1 < r.attempt_number → has_attempt r.invocation_id (r.attempt_number - 1) l ≡ true
  pub room : IsAffordable cal policy r l
  pub written : l' ≡ put (r.invocation_id, r.attempt_number) r l

has_key-eq-false : (k : Key) (l : Ledger) → has_key k l ≡ false → get k l ≡ none
unfolding has_key
has_key-eq-false k l h = ground arith

pub reserve_if_within-IsAdmitted :
    (cal : Calendar) (r v : BudgetReservation) (policy : AiBudgetPolicy) (l l' : Ledger)
    → reserve_if_within cal r policy l ≡ ok (v, l')
    → IsAdmitted cal policy r l l' × (v ≡ r)
unfolding reserve_if_within
reserve_if_within-IsAdmitted cal r v policy l l' h =
    let n = r.attempt_number in
    let key : Key = (r.invocation_id, n) in
    let (unique, h1) =
      refused-eq-ok (has_key key l || (n == 1 && has_any_attempt r.invocation_id l)) _ _ _ h in
    let (next, h2) =
      refused-eq-ok (ltb 1 n && not (has_attempt r.invocation_id (n - 1) l)) _ _ _ h1 in
    let (u, checked, written) = >>=-returned (check_limits cal (values l) r policy) _ h2 in
    let (absent, alone) = or-eq-false (has_key key l) _ unique in
    (
      record {
        fresh = has_key-eq-false key l absent;
        first = λ e. ground arith;
        follows = λ e. ground arith;
        room = check_limits-IsAffordable cal policy r l checked;
        written = ap (λ p. p.1) (ok-injective (sym written));
      },
      ap (λ p. p.0) (ok-injective (sym written)),
    )

-- The guard's own bounds on an accepted call.
pub record IsWithinCall (c : DecimalContext) (runtime : RuntimeProfile) (policy : AiBudgetPolicy)
    (pricing : PricingProfile) (estimate : Option ℕ) (moment : ℕ) (cost : Decimal) : Type 0 where
  pub tokens : ℕ
  pub estimated : estimate ≡ some tokens
  pub input_bound : tokens ≤ policy.maximum_input_tokens
  pub output_bound : runtime.max_output_tokens ≤ policy.maximum_output_tokens
  pub same_policy : runtime.cost_policy_ref ≡ policy.policy_ref
  pub same_currency : pricing.currency ≡ policy.currency
  pub priced : is_outside_window pricing moment ≡ false
  pub cost_is : cost ≡ estimate_maximum_cost c tokens runtime.max_output_tokens pricing
  pub cost_bound : cost ≤ℤ policy.maximum_estimated_cost_per_call

module _ (c : DecimalContext) (runtime : RuntimeProfile) (policy : AiBudgetPolicy)
    (pricing : PricingProfile) (moment : ℕ) where
  preflight_tests :
      (estimate : Option ℕ) (tokens : ℕ)
      → preflight runtime estimate policy pricing moment ≡ ok tokens
      → (str_eq runtime.cost_policy_ref policy.policy_ref ≡ true)
        × (estimate ≡ some tokens)
        × (tokens ≤ policy.maximum_input_tokens)
        × (runtime.max_output_tokens ≤ policy.maximum_output_tokens)
        × (str_eq pricing.currency policy.currency ≡ true)
        × (is_outside_window pricing moment ≡ false)
  unfolding preflight
  preflight_tests none tokens h = ground arith
  preflight_tests (some n) tokens h = ground arith

  -- A reservation through the guard is within the bounds of a call, and its reservation, which holds
  -- the estimated cost, is admitted by the ledger.
  pub reserve-IsWithinCall :
      (cal : Calendar) (invocation_id cycle_id : String) (estimate : Option ℕ) (attempt_number : ℕ)
      (l l' : Ledger) (v : BudgetReservation)
      → reserve c cal invocation_id cycle_id runtime estimate policy pricing moment attempt_number l
        ≡ ok (v, l')
      → (cost : Decimal) × IsWithinCall c runtime policy pricing estimate moment cost
        × (v ≡ new_reservation invocation_id attempt_number cycle_id policy cost moment)
        × IsAdmitted cal policy v l l'
  unfolding reserve
  reserve-IsWithinCall cal invocation_id cycle_id estimate attempt_number l l' v h =
      let (tokens, checked, rest) =
        >>=-returned (preflight runtime estimate policy pricing moment) _ h in
      let (same_policy, given, input, output, currency, window) =
        preflight_tests estimate tokens checked in
      let cost = estimate_maximum_cost c tokens runtime.max_output_tokens pricing in
      let (bound, admitted) =
        refused-eq-ok (ltb_ℤ policy.maximum_estimated_cost_per_call cost) _ _ _ rest in
      let r = new_reservation invocation_id attempt_number cycle_id policy cost moment in
      let (is_admitted, same) = reserve_if_within-IsAdmitted cal r v policy l l' admitted in
      (
        cost,
        record {
          tokens = tokens;
          estimated = given;
          input_bound = input;
          output_bound = output;
          same_policy = (str_eq_iff _ _).0 same_policy;
          same_currency = (str_eq_iff _ _).0 currency;
          priced = window;
          cost_is = refl;
          cost_bound = ltb_ℤ→ge _ _ bound;
        },
        same,
        subst (λ w. IsAdmitted cal policy w l l') (sym same) is_admitted,
      )
