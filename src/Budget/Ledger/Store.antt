-- ===== src/Budget/Ledger/Store.antt =====
-- The ledger as a dictionary: what a read finds after a write, and predicates of every item.
use my_team_tradding.Budget.Ledger.{Key, Ledger, get, put, same_key}
use my_team_tradding.Budget.Types.{BudgetReservation}
use my_team_tradding.Prelude.{
  ==_iff, All, Bool-cases, [], and_elim, ap, arith, false, if◌then◌else◌, inl, inr, refl, some,
  str_eq, str_eq_iff, subst, sym, true, ◌==◌, ◌∙◌, ◌∷◌, ◌≡◌,
}

pub same_key_refl : (k : Key) → same_key k k ≡ true
unfolding same_key
same_key_refl (i, n) = ground (arith, str_eq_iff i i)

pub same_key→eq : (k j : Key) → same_key k j ≡ true → k ≡ j
unfolding same_key
same_key→eq (i, n) (j, m) h =
    let (names, numbers) = and_elim (str_eq i j) (n == m) h in
    cc ((str_eq_iff i j).0 names, (==_iff n m).0 numbers)

same_key-ne : (k j i : Key) → same_key k j ≡ true → same_key k i ≡ same_key j i
same_key-ne k j i h = ap (λ x. same_key x i) (same_key→eq k j h)

same_key_comm : (k j : Key) → same_key k j ≡ same_key j k
unfolding same_key
same_key_comm (i, n) (j, m) = ground (arith, str_eq_iff i j, str_eq_iff j i)

-- A key that is not `k` is not equal to it from the other side either.
same_key-other : (i j k : Key) → same_key i j ≡ true → same_key i k ≡ false → same_key k j ≡ false
same_key-other i j k found other =
    same_key_comm k j ∙ (ap (λ x. same_key x k) (sym (same_key→eq i j found)) ∙ other)

-- The law of a write, in one equation.
pub get-put :
    (k j : Key) (v : BudgetReservation) (l : Ledger)
    → get j (put k v l) ≡ (if same_key k j then some v else get j l)
unfolding get put
get-put k j v [] = refl
get-put k j v ((i, r) ∷ l) = elim (Bool-cases (same_key i k)) [
  | inl same ↦ rw same (ground (arith, same_key-ne i k j same))
  | inr other ↦ rw other (elim (Bool-cases (same_key i j)) [
    | inl found ↦ rw (found, same_key-other i j k found other) refl
    | inr past ↦ rw past (get-put k j v l)
  ])
]

-- A predicate of every item.
abbrev pub AllItems : (BudgetReservation → Type 0) → Ledger → Type 0
AllItems P l = All (λ e. P e.1) l

pub AllItems-get :
    (P : BudgetReservation → Type 0) (k : Key) (r : BudgetReservation) (l : Ledger)
    → AllItems P l
    → get k l ≡ some r
    → P r
unfolding get
AllItems-get P k r [] h found = cc
AllItems-get P k r ((j, u) ∷ l) h found = elim (Bool-cases (same_key j k)) [
  | inl same ↦ let e : u ≡ r = cc (rw same at found) in subst P e h.0
  | inr other ↦ AllItems-get P k r l h.1 (rw other at found)
]

pub AllItems-put :
    (P : BudgetReservation → Type 0) (k : Key) (v : BudgetReservation) (l : Ledger)
    → AllItems P l
    → P v
    → AllItems P (put k v l)
unfolding put
AllItems-put P k v [] h p = (p, tt)
AllItems-put P k v ((j, u) ∷ l) h p = elim (Bool-cases (same_key j k)) [
  | inl same ↦ rw same (p, h.1)
  | inr other ↦ rw other (h.0, AllItems-put P k v l h.1 p)
]
