-- ===== src/Prelude/Dict.antt =====
-- Dictionaries with text keys, as association lists in insertion order.
use my_team_tradding.Prelude.{
  Bool, Bool-cases, List, ap, Option, Option-cases, String, [], arith, false, if◌then◌else◌, inl,
  inr, none, refl, some, str_eq, str_eq_iff, true, ◌↔◌, ◌∷◌, ◌≡◌,
}

module _ {ℓ} {V : Type ℓ} where
  unfoldable pub lookup : String → List (String × V) → Option V
  lookup k [] = none
  lookup k ((j, v) ∷ m) = if str_eq j k then some v else lookup k m

  -- In place for a known key, at the end for a new one.
  unfoldable pub insert : String → V → List (String × V) → List (String × V)
  insert k v [] = (k, v) ∷ []
  insert k v ((j, w) ∷ m) = if str_eq j k then (j, v) ∷ m else (j, w) ∷ insert k v m

  -- `pop(k, None)`
  unfoldable pub remove : String → List (String × V) → List (String × V)
  remove k [] = []
  remove k ((j, v) ∷ m) = if str_eq j k then m else (j, v) ∷ remove k m

  unfoldable pub has : String → List (String × V) → Bool
  unfolding lookup
  has k m = elim (lookup k m) [ none ↦ false | some v ↦ true ]

  pub lookup-insert :
      (k j : String) (v : V) (m : List (String × V))
      → lookup j (insert k v m) ≡ (if str_eq k j then some v else lookup j m)
  unfolding lookup insert
  lookup-insert k j v [] = refl
  lookup-insert k j v ((i, w) ∷ m) =
      ground (arith, str_eq_iff k j, str_eq_iff i k, str_eq_iff i j, lookup-insert k j v m)

  pub lookup-insert_self :
      (k : String) (v : V) (m : List (String × V)) → lookup k (insert k v m) ≡ some v
  lookup-insert_self k v m = rw (lookup-insert k k v m, (str_eq_iff k k).1 refl) refl

  -- A new key that is taken out again.
  pub remove-insert :
      (k : String) (v : V) (m : List (String × V)) → lookup k m ≡ none → remove k (insert k v m) ≡ m
  unfolding lookup insert remove
  remove-insert k v [] h = rw ((str_eq_iff k k).1 refl) refl
  remove-insert k v ((j, w) ∷ m) h = elim (Bool-cases (str_eq j k)) [
    | inl same ↦ cc (rw same at h)
    | inr other ↦ rw (other, other) (ap (λ r. (j, w) ∷ r) (remove-insert k v m (rw other at h)))
  ]

  pub has_of_lookup :
      (k : String) (v : V) (m : List (String × V)) → lookup k m ≡ some v → has k m ≡ true
  unfolding has
  has_of_lookup k v m h = rw (h, has) refl

  pub has-eq-false : (k : String) (m : List (String × V)) → has k m ≡ false → lookup k m ≡ none
  unfolding has
  has-eq-false k m h = elim (Option-cases (lookup k m)) [
    | inl absent ↦ absent
    | inr (v, found) ↦ cc (rw (found, has) at h)
  ]

-- Texts have decidable equality, by the Boolean one.
pub decide_by {ℓ} : {A : Type ℓ} (b : Bool) (x y : A) → (b ≡ true) ↔ (x ≡ y) → Dec (x ≡ y)
decide_by true x y h = yes (h.0 refl)
decide_by false x y h = no (λ p. cc (h.1 p))

unfoldable pub String-discrete : Discrete String
unfolding decide_by
String-discrete a b = decide_by (str_eq a b) a b (str_eq_iff a b)
