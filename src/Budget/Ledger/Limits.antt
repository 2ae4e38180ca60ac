-- ===== src/Budget/Ledger/Limits.antt =====
-- The limits of a policy as a predicate on the ledger, through dispatch, settlement and release.
use native.Mathlib.Nat.{le_trans}
use my_team_tradding.Budget.Ledger.{
  Key, Ledger, active, charge, check_limits, get, is_active, is_same_cycle, is_same_day,
  is_same_month, put, total, values,
}
use my_team_tradding.Budget.Ledger.Sums.{
  charge_if, charged-put_le, charged-put_new, count_if, selected-put_le, selected-put_new,
}
use my_team_tradding.Budget.Types.{
  AiBudgetPolicy, BudgetReservation, Calendar, day_of, released, reserved, same_state,
}
use my_team_tradding.Decimal.{Decimal}
use my_team_tradding.Prelude.{
  ==_iff, Bool, String, arith, false, filter, if◌then◌else◌, inl, inr, length, none, refl, some,
  str_eq_iff, subst, true, ℕ, ◌+◌, ◌<◌, ◌==◌, ◌≡◌, ◌≤◌, ◌⊎◌,
}
use my_team_tradding.Prelude.Int.{int_laws, ltb_ℤ, pos, ◌+ℤ◌, ◌≤ℤ◌}
use my_team_tradding.Prelude.Result.{ok}

-- The limits, over the very selections that `reserve_if_within` makes. `at` ranges over instants.
pub record IsWithin (cal : Calendar) (policy : AiBudgetPolicy) (l : Ledger) : Type 0 where
  pub cycles :
      (cycle_id : String)
      → length (filter (is_same_cycle cycle_id) (active policy.policy_ref (values l)))
        ≤ policy.maximum_calls_per_cycle
  pub days :
      (at : ℕ)
      → length (filter (is_same_day at) (active policy.policy_ref (values l)))
        ≤ policy.maximum_calls_per_day
  pub daily :
      (at : ℕ)
      → total (filter (is_same_day at) (active policy.policy_ref (values l))) ≤ℤ policy.daily_budget
  pub monthly :
      (at : ℕ)
      → total (filter (is_same_month cal at) (active policy.policy_ref (values l)))
        ≤ℤ policy.monthly_budget

-- `v` may stand where `r` stood without weighing more.
pub record IsLighter (v r : BudgetReservation) : Type 0 where
  pub same_cycle : v.cycle_id ≡ r.cycle_id
  pub same_policy : v.policy_ref ≡ r.policy_ref
  pub same_time : v.created_at ≡ r.created_at
  pub stays_released : same_state r.state released ≡ true → same_state v.state released ≡ true
  pub costs_less : charge v ≤ℤ charge r
  pub costs_something : pos 0 ≤ℤ charge r

module _ (ref : String) (v r : BudgetReservation) (h : IsLighter v r) where
  cycle_lighter :
      (cycle_id : String)
      → count_if (is_active ref) (is_same_cycle cycle_id) v
        ≤ count_if (is_active ref) (is_same_cycle cycle_id) r
  unfolding is_active
  cycle_lighter cycle_id = ground arith

  day_lighter :
      (at : ℕ)
      → count_if (is_active ref) (is_same_day at) v ≤ count_if (is_active ref) (is_same_day at) r
  unfolding is_active
  day_lighter at = ground arith

  day_charge_lighter :
      (at : ℕ)
      → charge_if (is_active ref) (is_same_day at) v ≤ℤ charge_if (is_active ref) (is_same_day at) r
  unfolding is_active
  day_charge_lighter at = ground arith

  month_charge_lighter :
      (cal : Calendar) (at : ℕ)
      → charge_if (is_active ref) (is_same_month cal at) v
        ≤ℤ charge_if (is_active ref) (is_same_month cal at) r
  unfolding is_active
  month_charge_lighter cal at = ground arith

module _ (cal : Calendar) (policy : AiBudgetPolicy) where
  -- Writing a lighter item over an old one keeps the limits.
  pub put-IsWithin :
      (k : Key) (v r : BudgetReservation) (l : Ledger)
      → get k l ≡ some r
      → IsLighter v r
      → IsWithin cal policy l
      → IsWithin cal policy (put k v l)
  put-IsWithin k v r l found lighter h =
      let ref = policy.policy_ref in
      record {
        cycles = λ cycle_id.
            le_trans
              (selected-put_le (is_active ref) (is_same_cycle cycle_id) k v l r found
                (cycle_lighter ref v r lighter cycle_id))
              (h.cycles cycle_id);
        days = λ at.
            le_trans
              (selected-put_le (is_active ref) (is_same_day at) k v l r found
                (day_lighter ref v r lighter at))
              (h.days at);
        daily = λ at. omega (
          arith,
          charged-put_le (is_active ref) (is_same_day at) k v l r found
              (day_charge_lighter ref v r lighter at),
          h.daily at,
        );
        monthly = λ at. omega (
          arith,
          charged-put_le (is_active ref) (is_same_month cal at) k v l r found
              (month_charge_lighter ref v r lighter cal at),
          h.monthly at,
        );
      }

  -- What the limit check has established about a new item.
  pub record IsAffordable (r : BudgetReservation) (l : Ledger) : Type 0 where
    pub cycle_room :
        length (filter (is_same_cycle r.cycle_id) (active policy.policy_ref (values l)))
        < policy.maximum_calls_per_cycle
    pub day_room :
        length (filter (is_same_day r.created_at) (active policy.policy_ref (values l)))
        < policy.maximum_calls_per_day
    pub daily_room :
        total (filter (is_same_day r.created_at) (active policy.policy_ref (values l)))
          +ℤ r.reserved_amount
        ≤ℤ policy.daily_budget
    pub monthly_room :
        total (filter (is_same_month cal r.created_at) (active policy.policy_ref (values l)))
          +ℤ r.reserved_amount
        ≤ℤ policy.monthly_budget

  pub check_limits-IsAffordable :
      (r : BudgetReservation) (l : Ledger)
      → check_limits cal (values l) r policy ≡ ok tt
      → IsAffordable r l
  unfolding check_limits ltb_ℤ
  check_limits-IsAffordable r l h = ground arith

  -- One more item fits under a limit that its own selection has room below, and changes no other
  -- selection.
  counted_room :
      (q p : BudgetReservation → Bool) (r : BudgetReservation) (used limit : ℕ)
      → used ≤ limit
      → (p r ≡ true → used < limit)
      → used + count_if q p r ≤ limit
  counted_room q p r used limit h room = ground arith

  charged_room :
      (q p : BudgetReservation → Bool) (r : BudgetReservation) (used limit : Decimal)
      → r.state ≡ reserved
      → used ≤ℤ limit
      → (p r ≡ true → used +ℤ r.reserved_amount ≤ℤ limit)
      → used +ℤ charge_if q p r ≤ℤ limit
  unfolding charge
  charged_room q p r used limit state h room = elim (charge_cases (q r) (p r)) [
    | inl (counted, e) ↦ rw e (rw state (room counted))
    | inr e ↦ rw e (omega (int_laws, h))
  ]
    where
      charge_cases :
          (a b : Bool)
          → ((b ≡ true) × ((if a then (if b then charge r else pos 0) else pos 0) ≡ charge r))
            ⊎ ((if a then (if b then charge r else pos 0) else pos 0) ≡ pos 0)
      charge_cases true true = inl (refl, refl)
      charge_cases true false = inr refl
      charge_cases false b = inr refl

  -- A new item that the check lets through keeps the limits, also of the days, months and cycles
  -- that are not its own.
  pub put-IsWithin_new :
      (k : Key) (r : BudgetReservation) (l : Ledger)
      → get k l ≡ none
      → r.state ≡ reserved
      → IsAffordable r l
      → IsWithin cal policy l
      → IsWithin cal policy (put k r l)
  put-IsWithin_new k r l fresh state room h =
      let ref = policy.policy_ref in
      let items = active ref (values l) in
      record {
        cycles = λ cycle_id.
            rw (selected-put_new (is_active ref) (is_same_cycle cycle_id) k r l fresh) (
              counted_room (is_active ref) (is_same_cycle cycle_id) r _ _ (h.cycles cycle_id)
                λ same.
                  subst
                    (λ y. length (filter (is_same_cycle y) items) < policy.maximum_calls_per_cycle)
                    ((str_eq_iff _ _).0 same) room.cycle_room);
        days = λ at. rw (selected-put_new (is_active ref) (is_same_day at) k r l fresh) (
            counted_room (is_active ref) (is_same_day at) r _ _ (h.days at) λ same.
              subst
                (λ d.
                  length (filter (λ x. day_of x.created_at == d) items)
                  < policy.maximum_calls_per_day)
                ((==_iff _ _).0 same) room.day_room);
        daily = λ at. rw (charged-put_new (is_active ref) (is_same_day at) k r l fresh) (
            charged_room (is_active ref) (is_same_day at) r _ policy.daily_budget state (h.daily at)
              λ same.
                subst
                  (λ d.
                    total (filter (λ x. day_of x.created_at == d) items) +ℤ r.reserved_amount
                    ≤ℤ policy.daily_budget)
                  ((==_iff _ _).0 same) room.daily_room);
        monthly = λ at. rw (charged-put_new (is_active ref) (is_same_month cal at) k r l fresh) (
            charged_room (is_active ref) (is_same_month cal at) r _ policy.monthly_budget state
              (h.monthly at)
              λ same.
                subst
                  (λ m.
                    total (filter (λ x. cal.month (day_of x.created_at) == m) items)
                      +ℤ r.reserved_amount
                    ≤ℤ policy.monthly_budget)
                  ((==_iff _ _).0 same) room.monthly_room);
      }

  -- An item of another policy does not touch this one's limits.
  pub put-IsWithin_other :
      (k : Key) (r : BudgetReservation) (l : Ledger)
      → get k l ≡ none
      → is_active policy.policy_ref r ≡ false
      → IsWithin cal policy l
      → IsWithin cal policy (put k r l)
  put-IsWithin_other k r l fresh inactive h =
      let ref = policy.policy_ref in
      record {
        cycles = λ cycle_id.
            rw (selected-put_new (is_active ref) (is_same_cycle cycle_id) k r l fresh)
              (rw inactive (omega (arith, h.cycles cycle_id)));
        days = λ at.
            rw (selected-put_new (is_active ref) (is_same_day at) k r l fresh)
              (rw inactive (omega (arith, h.days at)));
        daily = λ at.
            rw (charged-put_new (is_active ref) (is_same_day at) k r l fresh)
              (rw inactive (omega (int_laws, h.daily at)));
        monthly = λ at.
            rw (charged-put_new (is_active ref) (is_same_month cal at) k r l fresh)
              (rw inactive (omega (int_laws, h.monthly at)));
      }
