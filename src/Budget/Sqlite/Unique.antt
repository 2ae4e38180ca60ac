-- ===== src/Budget/Sqlite/Unique.antt =====
-- The primary key of the table of src/ai_trading_team/storage/ai_budget.py: what an insertion and an
-- update do to it.
use my_team_tradding.Budget.Ledger.{check_limits}
use my_team_tradding.Budget.Sqlite.{
  Table, inserted, is_found, is_row, select_one, sqlite_require, sqlite_reserve, sqlite_settle,
  sqlite_transition, update_rows, write_row,
}
use my_team_tradding.Budget.Sqlite.Loaded.{IsUnique, SameIdentity}
use my_team_tradding.Budget.Sqlite.Refine.{is_found-eq-false}
use my_team_tradding.Budget.Types.{
  AiBudgetPolicy, BudgetReservation, BudgetReservationState, Calendar, dispatched, same_state,
  settled,
}
use my_team_tradding.Decimal.{Decimal}
use my_team_tradding.Prelude.{
  Bool, Bool-cases, String, [], ap, arith, false, inl, inr, ltb, none, not, or-eq-false, refl, some,
  str_eq, str_eq_iff, subst, sym, ℕ, ◌&&◌, ◌++◌, ◌-◌, ◌==◌, ◌||◌, ◌∙◌, ◌∷◌, ◌≡◌,
}
use my_team_tradding.Prelude.Int.{ltb_ℤ, pos}
use my_team_tradding.Prelude.Result.{>>=-returned, ok, ok-injective, passed-eq-ok, refused-eq-ok}

select_one-append :
    (p : BudgetReservation → Bool) (r : BudgetReservation) (t : Table)
    → select_one p t ≡ none
    → p r ≡ false
    → select_one p (t ++ (r ∷ [])) ≡ none
unfolding select_one
select_one-append p r [] h other = rw other refl
select_one-append p r (u ∷ t) h other = elim (Bool-cases (p u)) [
  | inl same ↦ cc (rw same at h)
  | inr past ↦ rw past (select_one-append p r t (rw past at h) other)
]

is_row_comm :
    (r u : BudgetReservation)
    → is_row r.invocation_id r.attempt_number u ≡ is_row u.invocation_id u.attempt_number r
is_row_comm r u =
    ground (
      arith,
      str_eq_iff u.invocation_id r.invocation_id,
      str_eq_iff r.invocation_id u.invocation_id,
    )

IsUnique-append :
    (r : BudgetReservation) (t : Table)
    → select_one (is_row r.invocation_id r.attempt_number) t ≡ none
    → IsUnique t
    → IsUnique (t ++ (r ∷ []))
unfolding select_one
IsUnique-append r [] h unique = (refl, tt)
IsUnique-append r (u ∷ t) h unique = elim (Bool-cases (is_row r.invocation_id r.attempt_number u)) [
  | inl same ↦ cc (rw same at h)
  | inr other ↦ (
    select_one-append _ r t unique.0 (sym (is_row_comm r u) ∙ other),
    IsUnique-append r t (rw other at h) unique.1,
  )
]

select_one-update :
    (p q : BudgetReservation → Bool) (f : BudgetReservation → BudgetReservation) (t : Table)
    → ((u : BudgetReservation) → p (f u) ≡ p u)
    → select_one p t ≡ none
    → select_one p (update_rows q f t) ≡ none
unfolding select_one update_rows
select_one-update p q f [] keeps h = refl
select_one-update p q f (u ∷ t) keeps h = elim (Bool-cases (p u)) [
  | inl same ↦ cc (rw same at h)
  | inr other ↦ elim (Bool-cases (q u)) [
    | inl chosen ↦ rw (chosen, keeps u, other) (select_one-update p q f t keeps (rw other at h))
    | inr past ↦ rw (past, other) (select_one-update p q f t keeps (rw other at h))
  ]
]

IsUnique-update :
    (q : BudgetReservation → Bool) (f : BudgetReservation → BudgetReservation) (t : Table)
    → SameIdentity f
    → IsUnique t
    → IsUnique (update_rows q f t)
unfolding update_rows
IsUnique-update q f [] keeps unique = tt
IsUnique-update q f (u ∷ t) keeps unique =
    let rest =
      select_one-update (is_row u.invocation_id u.attempt_number) q f t
        (λ v. rw ((keeps v).0, (keeps v).1) refl) unique.0 in
    elim (Bool-cases (q u)) [
      | inl chosen ↦
          rw (chosen, (keeps u).0, (keeps u).1) (rest, IsUnique-update q f t keeps unique.1)
      | inr past ↦ rw past (rest, IsUnique-update q f t keeps unique.1)
    ]

pub sqlite_reserve-IsUnique :
    (cal : Calendar) (r v : BudgetReservation) (policy : AiBudgetPolicy) (t t' : Table)
    → IsUnique t
    → sqlite_reserve cal r policy t ≡ ok (v, t')
    → IsUnique t'
unfolding sqlite_reserve
sqlite_reserve-IsUnique cal r v policy t t' unique h =
    let i = r.invocation_id in
    let n = r.attempt_number in
    let taken = is_found (select_one (is_row i n) t) in
    let (fresh, h1) =
      refused-eq-ok
        (taken || (n == 1 && is_found (select_one (λ row. str_eq row.invocation_id i) t))) _ _ _
        h in
    let (next, h2) =
      refused-eq-ok (ltb 1 n && not (is_found (select_one (is_row i (n - 1)) t))) _ _ _ h1 in
    let (u, checked, written) = >>=-returned (check_limits cal t r policy) _ h2 in
    subst IsUnique (ap (λ p. p.1) (ok-injective written))
      (IsUnique-append (inserted r) t (is_found-eq-false _ ((or-eq-false taken _ fresh).0)) unique)

write_row-IsUnique :
    (i : String) (n : ℕ) (f : BudgetReservation → BudgetReservation) (t t' : Table)
    (v : BudgetReservation)
    → SameIdentity f
    → IsUnique t
    → write_row i n f t ≡ ok (v, t')
    → IsUnique t'
unfolding write_row
write_row-IsUnique i n f t t' v keeps unique h =
    let (row, found, written) =
      >>=-returned (sqlite_require i n (update_rows (is_row i n) f t)) _ h in
    subst IsUnique (ap (λ p. p.1) (ok-injective written)) (IsUnique-update _ f t keeps unique)

pub sqlite_transition-IsUnique :
    (i : String) (n : ℕ) (expected target : BudgetReservationState) (at : ℕ) (t t' : Table)
    (v : BudgetReservation)
    → IsUnique t
    → sqlite_transition i n expected target at t ≡ ok (v, t')
    → IsUnique t'
unfolding sqlite_transition
sqlite_transition-IsUnique i n expected target at t t' v unique h =
    let (row, found, rest) = >>=-returned (sqlite_require i n t) _ h in
    let (same, written) = passed-eq-ok (same_state row.state expected) _ _ _ rest in
    write_row-IsUnique i n (λ u. record u { state = target; updated_at = at }) t t' v
      (λ u. (refl, refl)) unique written

pub sqlite_settle-IsUnique :
    (i : String) (n : ℕ) (amount : Decimal) (at : ℕ) (t t' : Table) (v : BudgetReservation)
    → IsUnique t
    → sqlite_settle i n amount at t ≡ ok (v, t')
    → IsUnique t'
unfolding sqlite_settle
sqlite_settle-IsUnique i n amount at t t' v unique h =
    let (row, found, rest) = >>=-returned (sqlite_require i n t) _ h in
    let (same, rest1) = refused-eq-ok (not (same_state row.state dispatched)) _ _ _ rest in
    let (bound, written) =
      refused-eq-ok (ltb_ℤ amount (pos 0) || ltb_ℤ row.reserved_amount amount) _ _ _ rest1 in
    write_row-IsUnique i n
      (λ u. record u { state = settled; settled_amount = some amount; updated_at = at }) t t' v
      (λ u. (refl, refl)) unique written
