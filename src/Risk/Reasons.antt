-- ===== src/Risk/Reasons.antt =====
-- Lists of reasons: when they are empty.
use my_team_tradding.Prelude.{
  Bool, List, String, [], false, is_empty, not, not-eq-false, refl, str_eq, str_eq_iff, true, ◌++◌,
  ◌∷◌, ◌≡◌,
}
use my_team_tradding.Risk.Proposal.{reason_if}
use my_team_tradding.Risk.Types.{RiskReasonCode}

pub append-eq-nil {ℓ} : {A : Type ℓ} (xs ys : List A) → xs ++ ys ≡ [] → (xs ≡ []) × (ys ≡ [])
append-eq-nil [] ys h = (refl, h)
append-eq-nil (x ∷ xs) ys h = cc

pub append-nil-nil {ℓ} : {A : Type ℓ} {xs ys : List A} → xs ≡ [] → ys ≡ [] → xs ++ ys ≡ []
append-nil-nil {xs} {ys} hx hy = rw (hx, hy)

pub reason_if-eq-nil :
    (test : Bool) (code : RiskReasonCode) (message : String)
    → reason_if test code message ≡ []
    → test ≡ false
reason_if-eq-nil true code message h = cc
reason_if-eq-nil false code message h = refl

pub reason_if-nil :
    {test : Bool} (code : RiskReasonCode) (message : String)
    → test ≡ false
    → reason_if test code message ≡ []
reason_if-nil code message h = rw h

pub is_empty-eq-nil {ℓ} : {A : Type ℓ} (xs : List A) → is_empty xs ≡ true → xs ≡ []
is_empty-eq-nil [] h = refl
is_empty-eq-nil (x ∷ xs) h = cc

pub same_text : (s t : String) → not (str_eq s t) ≡ false → s ≡ t
same_text s t h = (str_eq_iff s t).0 (not-eq-false _ h)

pub same_text-test : {s t : String} → s ≡ t → not (str_eq s t) ≡ false
same_text-test {s} {t} h = rw ((str_eq_iff s t).1 h)

pub append_five-eq-nil {ℓ} :
    {A : Type ℓ} (xs bs cs ds es : List A)
    → xs ++ (bs ++ (cs ++ (ds ++ es))) ≡ []
    → (xs ≡ []) × (bs ≡ []) × (cs ≡ []) × (ds ≡ []) × (es ≡ [])
append_five-eq-nil [] [] [] [] es h = (refl, refl, refl, refl, h)
append_five-eq-nil [] [] [] (d ∷ ds) es h = cc
append_five-eq-nil [] [] (c ∷ cs) ds es h = cc
append_five-eq-nil [] (b ∷ bs) cs ds es h = cc
append_five-eq-nil (x ∷ xs) bs cs ds es h = cc
