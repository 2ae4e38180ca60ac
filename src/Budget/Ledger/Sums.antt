-- ===== src/Budget/Ledger/Sums.antt =====
-- Weights of the items of a ledger, summed: the counts and totals of the limits as one kind of sum,
-- and how a write moves it.
use mathlib.Core.Path.{subst₂}
use my_team_tradding.Budget.Ledger.{Key, Ledger, charge, get, put, same_key, total, values}
use my_team_tradding.Budget.Types.{BudgetReservation}
use my_team_tradding.Decimal.{Decimal}
use my_team_tradding.Prelude.{
  Bool, Bool-cases, [], arith, filter, if◌then◌else◌, inl, inr, length, none, refl, some, subst,
  sym, ℕ, ◌+◌, ◌∷◌, ◌≡◌, ◌≤◌,
}
use my_team_tradding.Prelude.Int.{int_laws, pos, ◌+ℤ◌, ◌≤ℤ◌}

-- `tally` counts, `weigh` sums amounts.
pub tally : (BudgetReservation → ℕ) → Ledger → ℕ
tally w [] = 0
tally w ((k, r) ∷ l) = w r + tally w l

pub weigh : (BudgetReservation → Decimal) → Ledger → Decimal
weigh w [] = pos 0
weigh w ((k, r) ∷ l) = w r +ℤ weigh w l

-- The weight of an item in `filter p (filter q …)`.
abbrev pub count_if :
    (BudgetReservation → Bool) → (BudgetReservation → Bool) → BudgetReservation → ℕ
count_if q p r = if q r then (if p r then 1 else 0) else 0

abbrev pub charge_if :
    (BudgetReservation → Bool) → (BudgetReservation → Bool) → BudgetReservation → Decimal
charge_if q p r = if q r then (if p r then charge r else pos 0) else pos 0

zero_add : (a : Decimal) → pos 0 +ℤ a ≡ a
zero_add a = omega int_laws

pub length-filter :
    (q p : BudgetReservation → Bool) (l : Ledger)
    → length (filter p (filter q (values l))) ≡ tally (count_if q p) l
unfolding tally
length-filter q p [] = refl
length-filter q p ((k, r) ∷ l) = ground (arith, length-filter q p l)

pub total-filter :
    (q p : BudgetReservation → Bool) (l : Ledger)
    → total (filter p (filter q (values l))) ≡ weigh (charge_if q p) l
unfolding weigh total
total-filter q p [] = refl
total-filter q p ((k, r) ∷ l) =
    ground (arith, total-filter q p l, zero_add (weigh (charge_if q p) l))

pub tally-put_new :
    (w : BudgetReservation → ℕ) (k : Key) (v : BudgetReservation) (l : Ledger)
    → get k l ≡ none
    → tally w (put k v l) ≡ tally w l + w v
unfolding tally get put
tally-put_new w k v [] h = omega arith
tally-put_new w k v ((j, r) ∷ l) h = ground (arith, tally-put_new w k v l)

pub weigh-put_new :
    (w : BudgetReservation → Decimal) (k : Key) (v : BudgetReservation) (l : Ledger)
    → get k l ≡ none
    → weigh w (put k v l) ≡ weigh w l +ℤ w v
unfolding weigh get put
weigh-put_new w k v [] h = omega int_laws
weigh-put_new w k v ((j, r) ∷ l) h = elim (Bool-cases (same_key j k)) [
  | inl same ↦ cc (rw same at h)
  | inr other ↦ rw other (rw (weigh-put_new w k v l (rw other at h)) (omega int_laws))
]

pub tally-put_le :
    (w : BudgetReservation → ℕ) (k : Key) (v r : BudgetReservation) (l : Ledger)
    → get k l ≡ some r
    → w v ≤ w r
    → tally w (put k v l) ≤ tally w l
unfolding tally get put
tally-put_le w k v r [] h le = cc
tally-put_le w k v r ((j, u) ∷ l) h le = ground (arith, tally-put_le w k v r l)

pub weigh-put_le :
    (w : BudgetReservation → Decimal) (k : Key) (v r : BudgetReservation) (l : Ledger)
    → get k l ≡ some r
    → w v ≤ℤ w r
    → weigh w (put k v l) ≤ℤ weigh w l
unfolding weigh get put
weigh-put_le w k v r [] h le = cc
weigh-put_le w k v r ((j, u) ∷ l) h le = elim (Bool-cases (same_key j k)) [
  | inl same ↦
      let first : u ≡ r = cc (rw same at h) in
      rw same (subst (λ y. w v +ℤ weigh w l ≤ℤ w y +ℤ weigh w l) (sym first) (omega int_laws))
  | inr other ↦ let rest = weigh-put_le w k v r l (rw other at h) le in rw other (omega int_laws)
]

module _ (q p : BudgetReservation → Bool) (k : Key) (v : BudgetReservation) (l : Ledger) where
  pub selected-put_new :
      get k l ≡ none
      → length (filter p (filter q (values (put k v l))))
        ≡ length (filter p (filter q (values l))) + count_if q p v
  selected-put_new h =
      rw (length-filter q p (put k v l), length-filter q p l) (tally-put_new (count_if q p) k v l h)

  pub charged-put_new :
      get k l ≡ none
      → total (filter p (filter q (values (put k v l))))
        ≡ total (filter p (filter q (values l))) +ℤ charge_if q p v
  charged-put_new h =
      rw (total-filter q p (put k v l), total-filter q p l) (weigh-put_new (charge_if q p) k v l h)

  pub selected-put_le :
      (r : BudgetReservation)
      → get k l ≡ some r
      → count_if q p v ≤ count_if q p r
      → length (filter p (filter q (values (put k v l)))) ≤ length (filter p (filter q (values l)))
  selected-put_le r h le =
      rw (length-filter q p (put k v l), length-filter q p l)
        (tally-put_le (count_if q p) k v r l h le)

  pub charged-put_le :
      (r : BudgetReservation)
      → get k l ≡ some r
      → charge_if q p v ≤ℤ charge_if q p r
      → total (filter p (filter q (values (put k v l)))) ≤ℤ total (filter p (filter q (values l)))
  charged-put_le r h le =
      subst₂ (λ a b. a ≤ℤ b) (sym (total-filter q p (put k v l))) (sym (total-filter q p l))
        (weigh-put_le (charge_if q p) k v r l h le)
