-- ===== src/Budget/Sqlite/Refine.antt =====
-- `SQLiteBudgetLedger` of src/ai_trading_team/storage/ai_budget.py against `InMemoryBudgetLedger` of
-- src/ai_trading_team/runtime/budget.py: every operation of the one is that of the other.
use my_team_tradding.Budget.Ledger.{
  Ledger, check_limits, put, require, reserve_if_within, settle, transition,
}
use my_team_tradding.Budget.Sqlite.{
  Table, inserted, is_found, is_row, select_one, sqlite_get, sqlite_require, sqlite_reserve,
  sqlite_settle, sqlite_transition, write_row,
}
use my_team_tradding.Budget.Sqlite.Loaded.{
  IsUnique, SameIdentity, append-loaded, get-loaded, has_any_attempt-loaded, has_attempt-loaded,
  has_key-loaded, loaded, loaded_result, update-loaded, update_reads, values-loaded,
}
use my_team_tradding.Budget.Types.{
  AiBudgetPolicy, BudgetFault, BudgetReservation, BudgetReservationState, Calendar, dispatched,
  key_error, same_state, settled,
}
use my_team_tradding.Decimal.{Decimal}
use my_team_tradding.Prelude.{
  Bool, Bool-cases, Option, String, [], ap, false, if◌then◌else◌, inl, inr, ltb, none, not,
  or-eq-false, refl, some, str_eq, sym, true, ℕ, ◌&&◌, ◌++◌, ◌-◌, ◌==◌, ◌||◌, ◌∙◌, ◌∷◌, ◌≡◌,
}
use my_team_tradding.Prelude.Int.{ltb_ℤ, pos}
use my_team_tradding.Prelude.Result.{Result, err, ok, ◌>>=◌}

-- A guard that both sides have, and the rest behind it.
same_guard :
    (b : Bool) (e : BudgetFault) (m : Result BudgetFault (BudgetReservation × Ledger))
    (m' : Result BudgetFault (BudgetReservation × Table))
    → (b ≡ false → m ≡ loaded_result m')
    → (if b then err e else m) ≡ loaded_result (if b then err e else m')
same_guard true e m m' h = refl
same_guard false e m m' h = h refl

same_rest :
    (m : Result BudgetFault (Unit {0})) (r : BudgetReservation) (l : Ledger) (t : Table)
    → loaded t ≡ l
    → (m >>= λ _. ok (r, l)) ≡ loaded_result (m >>= λ _. ok (r, t))
same_rest (ok u) r l t h = ap (λ x. ok (r, x)) (sym h)
same_rest (err e) r l t h = refl

pub is_found-eq-false : (o : Option BudgetReservation) → is_found o ≡ false → o ≡ none
is_found-eq-false none h = refl
is_found-eq-false (some r) h = cc

module _ (cal : Calendar) (policy : AiBudgetPolicy) where
  inserted-loaded :
      (r : BudgetReservation) (t : Table)
      → r.settled_amount ≡ none
      → select_one (is_row r.invocation_id r.attempt_number) t ≡ none
      → loaded (t ++ (inserted r ∷ [])) ≡ put (r.invocation_id, r.attempt_number) r (loaded t)
  inserted-loaded r t unsettled absent =
      let same : inserted r ≡ r = ap (λ x. record r { settled_amount = x }) (sym unsettled) in
      ap (λ x. loaded (t ++ (x ∷ []))) same ∙ append-loaded r t absent

  -- Reserving in the database answers as reserving in memory does, with the same errors, for a
  -- reservation that holds no settled amount yet.
  pub sqlite_reserve-refines :
      (r : BudgetReservation) (t : Table)
      → r.settled_amount ≡ none
      → reserve_if_within cal r policy (loaded t) ≡ loaded_result (sqlite_reserve cal r policy t)
  unfolding reserve_if_within sqlite_reserve
  sqlite_reserve-refines r t unsettled =
      let i = r.invocation_id in
      let n = r.attempt_number in
      let taken = is_found (select_one (is_row i n) t) in
      rw
        (
          has_key-loaded i n t,
          has_any_attempt-loaded i t,
          has_attempt-loaded i (n - 1) t,
          values-loaded t,
        )
        (same_guard
          (taken || (n == 1 && is_found (select_one (λ row. str_eq row.invocation_id i) t))) _ _ _
          (λ fresh.
            same_guard (ltb 1 n && not (is_found (select_one (is_row i (n - 1)) t))) _ _ _ (λ next.
              same_rest (check_limits cal t r policy) r _ _ (
                inserted-loaded r t unsettled
                  (is_found-eq-false _ ((or-eq-false taken _ fresh).0))))))

-- A row that both sides require, and the rest behind it.
same_require :
    (o o' : Option BudgetReservation)
    (f : BudgetReservation → Result BudgetFault (BudgetReservation × Ledger))
    (f' : BudgetReservation → Result BudgetFault (BudgetReservation × Table))
    → o ≡ o'
    → ((r : BudgetReservation) → o' ≡ some r → f r ≡ loaded_result (f' r))
    → ((elim o [ none ↦ err key_error | some r ↦ ok r ]) >>= f)
      ≡ loaded_result ((elim o' [ none ↦ err key_error | some r ↦ ok r ]) >>= f')
same_require o none f f' e h = ap (λ x. (elim x [ none ↦ err key_error | some r ↦ ok r ]) >>= f) e
same_require o (some r) f f' e h =
    ap (λ x. (elim x [ none ↦ err key_error | some r ↦ ok r ]) >>= f) e ∙ h r refl

reread :
    (o : Option BudgetReservation) (v : BudgetReservation) (l : Ledger) (t : Table)
    → o ≡ some v
    → loaded t ≡ l
    → ok (v, l)
      ≡ loaded_result ((elim o [ none ↦ err key_error | some r ↦ ok r ]) >>= λ row. ok (row, t))
reread none v l t e h = cc
reread (some r) v l t e h = cc

-- A write to the row that was read, and the row read again.
write_row-loaded :
    (i : String) (n : ℕ) (f : BudgetReservation → BudgetReservation) (t : Table)
    (r : BudgetReservation)
    → SameIdentity f
    → IsUnique t
    → select_one (is_row i n) t ≡ some r
    → ok (f r, put (i, n) (f r) (loaded t)) ≡ loaded_result (write_row i n f t)
unfolding write_row sqlite_require sqlite_get
write_row-loaded i n f t r keeps unique found =
    reread _ (f r) _ _
      (update_reads (is_row i n) f t r (λ u. rw ((keeps u).0, (keeps u).1) refl) found)
      (update-loaded i n f t r keeps unique found)

-- A change of state in the database is the change of state in memory, with the same errors.
pub sqlite_transition-refines :
    (i : String) (n : ℕ) (expected target : BudgetReservationState) (at : ℕ) (t : Table)
    → IsUnique t
    → transition (i, n) expected target at (loaded t)
      ≡ loaded_result (sqlite_transition i n expected target at t)
unfolding transition require sqlite_transition sqlite_require sqlite_get
sqlite_transition-refines i n expected target at t unique =
    same_require _ _ _ _ (get-loaded i n t) (λ r found.
      elim (Bool-cases (same_state r.state expected)) [
        | inl same ↦ rw same (
            write_row-loaded i n (λ row. record row { state = target; updated_at = at }) t r
              (λ u. (refl, refl)) unique found)
        | inr other ↦ rw other refl
      ])

-- Settling in the database is settling in memory, with the same errors.
pub sqlite_settle-refines :
    (i : String) (n : ℕ) (amount : Decimal) (at : ℕ) (t : Table)
    → IsUnique t
    → settle (i, n) amount at (loaded t) ≡ loaded_result (sqlite_settle i n amount at t)
unfolding settle require sqlite_settle sqlite_require sqlite_get
sqlite_settle-refines i n amount at t unique = same_require _ _ _ _ (get-loaded i n t) (λ r found.
    same_guard (not (same_state r.state dispatched)) _ _ _ (λ is_dispatched.
      same_guard (ltb_ℤ amount (pos 0) || ltb_ℤ r.reserved_amount amount) _ _ _ (λ is_in_range.
        write_row-loaded i n
          (λ row. record row { state = settled; settled_amount = some amount; updated_at = at }) t r
          (λ u. (refl, refl)) unique found)))
