-- ===== src/Replay/Clock/Exact.antt =====
-- The schedules that `ReplayClock` accepts.
use my_team_tradding.Budget.Ledger.{values}
use my_team_tradding.Prelude.{
  ==_iff, All, Bool-cases, List, [], and_elim, and_intro, any, ap, arith, false, inl, inr, is_empty,
  ltb, ltb→lt, lt→ltb, map, not, not-eq-false, or-eq-false, refl, subst, true, ℕ, ◌<◌, ◌==◌, ◌||◌,
  ◌↔◌, ◌∙◌, ◌∷◌, ◌≡◌, ◌≢◌, ◌≤◌,
}
use my_team_tradding.Prelude.Result.{>>=-returned, ok, ok-injective, refused-eq-ok, ◌>>=◌}
use my_team_tradding.Replay.Clock.{
  DatasetPartition, check_values, insert_new, is_outside, make_clock, normalize_schedule,
  same_values, sorted_set,
}
use my_team_tradding.Time.{Datetime, aware, naive}

-- Strictly increasing: each value lies below all that follow.
abbrev pub IsIncreasing : List ℕ → Type 0
IsIncreasing [] = Unit
IsIncreasing (x ∷ xs) = All (λ y. x < y) xs × IsIncreasing xs

All-insert_new : (P : ℕ → Type 0) (x : ℕ) (ys : List ℕ) → P x → All P ys → All P (insert_new x ys)
unfolding insert_new
All-insert_new P x [] p h = (p, tt)
All-insert_new P x (y ∷ ys) p h = elim (Bool-cases (ltb x y)) [
  | inl below ↦ rw below (p, h)
  | inr above ↦ elim (Bool-cases (x == y)) [
    | inl same ↦ rw (above, same) h
    | inr other ↦ rw (above, other) (h.0, All-insert_new P x ys p h.1)
  ]
]

below-All : (x y : ℕ) (ys : List ℕ) → x < y → All (λ z. y < z) ys → All (λ z. x < z) ys
below-All x y [] h below = tt
below-All x y (z ∷ zs) h below = (omega (arith, h, below.0), below-All x y zs h below.1)

insert_new-IsIncreasing : (x : ℕ) (ys : List ℕ) → IsIncreasing ys → IsIncreasing (insert_new x ys)
unfolding insert_new
insert_new-IsIncreasing x [] h = (tt, tt)
insert_new-IsIncreasing x (y ∷ ys) h = elim (Bool-cases (ltb x y)) [
  | inl below ↦
      let first : x < y = ltb→lt x y below in rw below ((first, below-All x y ys first h.0), h)
  | inr above ↦ elim (Bool-cases (x == y)) [
    | inl same ↦ rw (above, same) h
    | inr other ↦
        let last : y < x = ground arith in
        rw (above, other)
          (All-insert_new (λ z. y < z) x ys last h.0, insert_new-IsIncreasing x ys h.1)
  ]
]

pub sorted_set-IsIncreasing : (xs : List ℕ) → IsIncreasing (sorted_set xs)
unfolding sorted_set
sorted_set-IsIncreasing [] = tt
sorted_set-IsIncreasing (x ∷ xs) = insert_new-IsIncreasing x _ (sorted_set-IsIncreasing xs)

insert_first : (x : ℕ) (ys : List ℕ) → All (λ y. x < y) ys → insert_new x ys ≡ x ∷ ys
unfolding insert_new
insert_first x [] h = refl
insert_first x (y ∷ ys) h = rw (lt→ltb x y h.0) refl

sorted_set_fixed : (xs : List ℕ) → IsIncreasing xs → sorted_set xs ≡ xs
unfolding sorted_set
sorted_set_fixed [] h = refl
sorted_set_fixed (x ∷ xs) h = ap (insert_new x) (sorted_set_fixed xs h.1) ∙ insert_first x xs h.0

same_values_iff : (xs ys : List ℕ) → (same_values xs ys ≡ true) ↔ (xs ≡ ys)
same_values_iff [] [] = (λ h. refl, λ h. refl)
same_values_iff [] (y ∷ ys) = (λ h. cc, λ h. cc)
same_values_iff (x ∷ xs) [] = (λ h. cc, λ h. cc)
same_values_iff (x ∷ xs) (y ∷ ys) = (
  λ h.
      let (here, rest) = and_elim (x == y) (same_values xs ys) h in
      cc ((==_iff x y).0 here, (same_values_iff xs ys).0 rest),
  λ h. and_intro ((==_iff x y).1 (cc h)) ((same_values_iff xs ys).1 (cc h)),
)

-- A list is its own sorted set exactly when it is strictly increasing.
pub sorted_set_iff : (xs : List ℕ) → (same_values (sorted_set xs) xs ≡ true) ↔ IsIncreasing xs
sorted_set_iff xs = (
  λ h. subst IsIncreasing ((same_values_iff _ xs).0 h) (sorted_set-IsIncreasing xs),
  λ h. (same_values_iff _ xs).1 (sorted_set_fixed xs h),
)

abbrev pub IsInside : DatasetPartition → ℕ → Type 0
IsInside partition value = (partition.evaluation_start ≤ value) × (value < partition.evaluation_end)

IsInside-iff :
    (partition : DatasetPartition) (values : List ℕ)
    → (any (is_outside partition) values ≡ false) ↔ All (IsInside partition) values
IsInside-iff partition [] = (λ h. tt, λ h. refl)
IsInside-iff partition (v ∷ vs) = (
  λ h.
      let (here, rest) = or-eq-false (is_outside partition v) _ h in
      (ground arith, (IsInside-iff partition vs).0 rest),
  λ h. let rest = (IsInside-iff partition vs).1 h.1 in ground arith,
)

normalize_aware : (values : List ℕ) → normalize_schedule (map aware values) ≡ ok values
unfolding normalize_schedule
normalize_aware [] = refl
normalize_aware (v ∷ vs) = ap (λ m. m >>= λ instants. ok (v ∷ instants)) (normalize_aware vs)

all_aware :
    (schedule : List Datetime) (values : List ℕ)
    → normalize_schedule schedule ≡ ok values
    → schedule ≡ map aware values
unfolding normalize_schedule
all_aware [] values h = ap (map aware) (ok-injective h)
all_aware (naive t ∷ rest) values h = cc
all_aware (aware t ∷ rest) values h =
    let (instants, normalized, same) = >>=-returned (normalize_schedule rest) _ h in
    ap (λ x. aware t ∷ x) (all_aware rest instants normalized) ∙ ap (map aware) (ok-injective same)

-- The schedules of a partition.
pub record IsSchedule (schedule : List Datetime) (partition : DatasetPartition) (values : List ℕ)
    : Type 0 where
  pub instants : schedule ≡ map aware values
  pub nonempty : values ≢ []
  pub increasing : IsIncreasing values
  pub inside : All (IsInside partition) values

is_empty-ne : {A : Type 0} (xs : List A) → is_empty xs ≡ false → xs ≢ []
is_empty-ne [] h = cc
is_empty-ne (x ∷ xs) h = λ q. cc

ne-is_empty : {A : Type 0} (xs : List A) → xs ≢ [] → is_empty xs ≡ false
ne-is_empty [] h = absurd (h refl)
ne-is_empty (x ∷ xs) h = refl

check_values_ok :
    (partition : DatasetPartition) (values : List ℕ)
    → values ≢ []
    → IsIncreasing values
    → All (IsInside partition) values
    → check_values partition values ≡ ok (record { schedule = values; partition = partition })
unfolding check_values
check_values_ok partition values nonempty increasing inside =
    rw
      (
        ne-is_empty values nonempty,
        (sorted_set_iff values).1 increasing,
        (IsInside-iff partition values).1 inside,
      )
      refl

-- A replay clock is made of a schedule exactly when each of its timestamps is aware, there is one,
-- they are strictly increasing, and each lies in the evaluation range of the partition; the clock
-- then holds their instants in UTC.
pub make_clock_iff :
    (schedule : List Datetime) (partition : DatasetPartition) (values : List ℕ)
    → (make_clock schedule partition ≡ ok (record { schedule = values; partition = partition }))
      ↔ IsSchedule schedule partition values
unfolding make_clock check_values
make_clock_iff schedule partition values = (
  λ h.
      let (found, normalized, checked) = >>=-returned (normalize_schedule schedule) _ h in
      let (well_formed, h1) =
        refused-eq-ok (is_empty found || not (same_values (sorted_set found) found)) _ _ _
          checked in
      let (inside, h2) = refused-eq-ok (any (is_outside partition) found) _ _ _ h1 in
      let (some_value, ordered) = or-eq-false _ _ well_formed in
      let same : found ≡ values = ap (λ x. x.schedule) (ok-injective h2) in
      subst (IsSchedule schedule partition) same (record {
        instants = all_aware schedule found normalized;
        nonempty = is_empty-ne found some_value;
        increasing = (sorted_set_iff found).0 (not-eq-false _ ordered);
        inside = (IsInside-iff partition found).0 inside;
      }),
  λ h.
      let normalized : normalize_schedule schedule ≡ ok values =
        ap normalize_schedule h.instants ∙ normalize_aware values in
      ap (λ m. m >>= λ vs. check_values partition vs) normalized
      ∙ check_values_ok partition values h.nonempty h.increasing h.inside,
)
