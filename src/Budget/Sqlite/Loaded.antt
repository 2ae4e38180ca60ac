-- ===== src/Budget/Sqlite/Loaded.antt =====
-- A table of src/ai_trading_team/storage/ai_budget.py read as the dictionary of the in-memory ledger,
-- and the selections and updates of the one as the reads and writes of the other.
use my_team_tradding.Budget.Ledger.{
  Key, Ledger, get, has_any_attempt, has_attempt, has_key, put, same_key, values,
}
use my_team_tradding.Budget.Sqlite.{Table, is_found, is_row, select_one, update_rows}
use my_team_tradding.Budget.Types.{BudgetFault, BudgetReservation}
use my_team_tradding.Prelude.{
  ==_iff, Bool, Bool-cases, Option, String, [], and_elim, ap, arith, false, if◌then◌else◌, inl, inr,
  none, refl, some, str_eq, str_eq_iff, true, ℕ, ◌&&◌, ◌++◌, ◌==◌, ◌∙◌, ◌∷◌, ◌≡◌,
}
use my_team_tradding.Prelude.Result.{Result, err, ok}

-- A table's rows under their keys.
abbrev pub loaded : Table → Ledger
loaded [] = []
loaded (r ∷ t) = ((r.invocation_id, r.attempt_number), r) ∷ loaded t

abbrev pub loaded_result :
    Result BudgetFault (BudgetReservation × Table) → Result BudgetFault (BudgetReservation × Ledger)
loaded_result (ok (r, t)) = ok (r, loaded t)
loaded_result (err e) = err e

-- `PRIMARY KEY (invocation_id, attempt_number)`.
abbrev pub IsUnique : Table → Type 0
IsUnique [] = Unit
IsUnique (r ∷ t) = (select_one (is_row r.invocation_id r.attempt_number) t ≡ none) × IsUnique t

pub values-loaded : (t : Table) → values (loaded t) ≡ t
values-loaded [] = refl
values-loaded (r ∷ t) = ap (λ x. r ∷ x) (values-loaded t)

pub get-loaded :
    (i : String) (n : ℕ) (t : Table) → get (i, n) (loaded t) ≡ select_one (is_row i n) t
unfolding get select_one same_key
get-loaded i n [] = refl
get-loaded i n (r ∷ t) =
    ap (λ x. if str_eq r.invocation_id i && r.attempt_number == n then some r else x)
      (get-loaded i n t)

pub has_attempt-loaded :
    (i : String) (n : ℕ) (t : Table)
    → has_attempt i n (loaded t) ≡ is_found (select_one (is_row i n) t)
unfolding has_attempt select_one
has_attempt-loaded i n [] = refl
has_attempt-loaded i n (r ∷ t) = ground (arith, has_attempt-loaded i n t)

pub has_any_attempt-loaded :
    (i : String) (t : Table)
    → has_any_attempt i (loaded t) ≡ is_found (select_one (λ r. str_eq r.invocation_id i) t)
unfolding has_any_attempt select_one
has_any_attempt-loaded i [] = refl
has_any_attempt-loaded i (r ∷ t) = ground (arith, has_any_attempt-loaded i t)

found_test : (o : Option BudgetReservation) → (elim o [ none ↦ false | some r ↦ true ]) ≡ is_found o
found_test none = refl
found_test (some r) = refl

pub has_key-loaded :
    (i : String) (n : ℕ) (t : Table)
    → has_key (i, n) (loaded t) ≡ is_found (select_one (is_row i n) t)
unfolding has_key
has_key-loaded i n t = found_test _ ∙ ap is_found (get-loaded i n t)

-- A row that is not there is put at the end.
pub append-loaded :
    (r : BudgetReservation) (t : Table)
    → select_one (is_row r.invocation_id r.attempt_number) t ≡ none
    → loaded (t ++ (r ∷ [])) ≡ put (r.invocation_id, r.attempt_number) r (loaded t)
unfolding put select_one same_key
append-loaded r [] h = refl
append-loaded r (u ∷ t) h = elim (Bool-cases (is_row r.invocation_id r.attempt_number u)) [
  | inl same ↦ cc (rw same at h)
  | inr other ↦
      rw other
        (ap (λ x. ((u.invocation_id, u.attempt_number), u) ∷ x) (append-loaded r t (rw other at h)))
]

abbrev pub SameIdentity : (BudgetReservation → BudgetReservation) → Type 0
SameIdentity f =
    (r : BudgetReservation)
    → ((f r).invocation_id ≡ r.invocation_id) × ((f r).attempt_number ≡ r.attempt_number)

update-absent :
    (p : BudgetReservation → Bool) (f : BudgetReservation → BudgetReservation) (t : Table)
    → select_one p t ≡ none
    → update_rows p f t ≡ t
unfolding select_one update_rows
update-absent p f [] h = refl
update-absent p f (u ∷ t) h = elim (Bool-cases (p u)) [
  | inl same ↦ cc (rw same at h)
  | inr other ↦ rw other (ap (λ x. u ∷ x) (update-absent p f t (rw other at h)))
]

pub update_reads :
    (p : BudgetReservation → Bool) (f : BudgetReservation → BudgetReservation) (t : Table)
    (r : BudgetReservation)
    → ((u : BudgetReservation) → p (f u) ≡ p u)
    → select_one p t ≡ some r
    → select_one p (update_rows p f t) ≡ some (f r)
unfolding select_one update_rows
update_reads p f [] r keeps found = cc
update_reads p f (u ∷ t) r keeps found = elim (Bool-cases (p u)) [
  | inl same ↦
      let item : u ≡ r = cc (rw same at found) in
      rw (same, keeps u, same) (ap (λ x. some (f x)) item)
  | inr other ↦ rw (other, other) (update_reads p f t r keeps (rw other at found))
]

-- An update of the row under a key, and the same write to the dictionary.
pub update-loaded :
    (i : String) (n : ℕ) (f : BudgetReservation → BudgetReservation) (t : Table)
    (r : BudgetReservation)
    → SameIdentity f
    → IsUnique t
    → select_one (is_row i n) t ≡ some r
    → loaded (update_rows (is_row i n) f t) ≡ put (i, n) (f r) (loaded t)
unfolding select_one update_rows put same_key
update-loaded i n f [] r keeps unique found = cc
update-loaded i n f (u ∷ t) r keeps unique found = elim (Bool-cases (is_row i n u)) [
  | inl same ↦
      let item : u ≡ r = cc (rw same at found) in
      let (names, numbers) = and_elim (str_eq u.invocation_id i) (u.attempt_number == n) same in
      let rest : select_one (is_row i n) t ≡ none =
        rw (← (str_eq_iff _ _).0 names, ← (==_iff _ _).0 numbers) unique.0 in
      let key : ◌≡◌ {A = Key} ((f u).invocation_id, (f u).attempt_number)
          (u.invocation_id, u.attempt_number) =
        cc ((keeps u).0, (keeps u).1) in
      rw (same, update-absent (is_row i n) f t rest)
        (ap (λ k. (k, f u) ∷ loaded t) key
          ∙ ap (λ x. ((u.invocation_id, u.attempt_number), f x) ∷ loaded t) item)
  | inr other ↦ rw other (
      ap (λ x. ((u.invocation_id, u.attempt_number), u) ∷ x)
        (update-loaded i n f t r keeps unique.1 (rw other at found)))
]
