-- ===== src/Requests/Claims/Statement.antt =====
-- What a credential says of a claim, stated beside `extractDisclosedClaims`.
use ssi_academic_credential.Common.{
  String, true, Option, none, some, ◌≡◌, ◌≢◌, refl, arith, Bool-cases, Option-cases, inl, inr,
  subst, sym, ap, ◌∙◌, ◌⊎◌, ◌↔◌, false,
}
use ssi_academic_credential.Text.{◌===◌, ===_iff}
use ssi_academic_credential.Database.{Json, str, uuid, date, key_id, Fields}
use ssi_academic_credential.Requests.Claims.{get, is_string, record_of, issuer_name, claim_value}

-- A JSON text.
abbrev pub IsText : Json → Type 0
IsText (str s) = Unit
IsText (uuid n) = Unit
IsText (date n) = Unit
IsText (key_id did version) = Unit
IsText _ = ⊥

-- The credential has an issuer object whose own property `name` is this text.
abbrev pub IssuerName : Fields → Json → Type 0
IssuerName credential v =
    (issuer : Fields) × (get "issuer" credential ≡ some (Json.obj issuer))
    × (get "name" issuer ≡ some v)
    × IsText v

-- What a credential says of a claim: of `university` the issuer's name, if the issuer has one; else
-- the own property of the credential's subject.
pub data ClaimOf (credential : Fields) (c : String) (v : Json) : Type 0 where
  named : c ≡ "university" → IssuerName credential v → ClaimOf credential c v
  own :
      (subject : Fields)
      → (c ≢ "university") ⊎ ((w : Json) → ¬ IssuerName credential w)
      → get "credentialSubject" credential ≡ some (Json.obj subject)
      → get c subject ≡ some v
      → ClaimOf credential c v

pub record_some : (o : Option Json) (fs : Fields) → record_of o ≡ some fs → o ≡ some (Json.obj fs)
record_some none fs h = absurd (cc)
record_some (some (Json.obj gs)) fs h = cc
record_some (some _) fs h = absurd (cc)

pub is_string_lem : (v : Json) → (is_string v ≡ true) ↔ IsText v
is_string_lem (str s) = ((λ e. tt), λ e. refl)
is_string_lem (uuid n) = ((λ e. tt), λ e. refl)
is_string_lem (date n) = ((λ e. tt), λ e. refl)
is_string_lem (key_id did version) = ((λ e. tt), λ e. refl)
is_string_lem _ = ((λ e. absurd (cc)), λ e. absurd e)

found_name :
    (o : Option Fields) (v : Json)
    → issuer_name o ≡ some v
    → (issuer : Fields) × (o ≡ some issuer) × (get "name" issuer ≡ some v) × IsText v
found_name none v h = absurd (cc)
found_name (some issuer) v h = elim (Option-cases (get "name" issuer)) [
  | inl e ↦ absurd (ground arith)
  | inr (w, e) ↦ elim (Bool-cases (is_string w)) [
    | inr n ↦ absurd (ground arith)
    | inl t ↦
        let same : w ≡ v = ground arith in
        (issuer, refl, e ∙ ap some same, subst IsText same ((is_string_lem w).0 t))
  ]
]

no_name :
    (o : Option Fields) (issuer : Fields) (v : Json)
    → issuer_name o ≡ none
    → o ≡ some issuer
    → get "name" issuer ≡ some v
    → ¬ IsText v
no_name o issuer v h e n t = let q = (is_string_lem v).1 t in absurd (ground arith)

module _ (credential subject : Fields)
    (e : record_of (get "credentialSubject" credential) ≡ some subject) where
  value_own :
      (c : String) (v : Json)
      → (c ≢ "university") ⊎ ((w : Json) → ¬ IssuerName credential w)
      → get c subject ≡ some v
      → ClaimOf credential c v
  value_own c v why h = own subject why (record_some _ subject e) h

  pub claim_value-ClaimOf :
      (c : String) (v : Json)
      → claim_value subject (issuer_name (record_of (get "issuer" credential))) c ≡ some v
      → ClaimOf credential c v
  claim_value-ClaimOf c v h = elim (Bool-cases (c === "university")) [
    | inr q ↦
        value_own c v (inl (λ z. let y = (===_iff c "university").1 z in absurd (cc)))
          (sym (claim_value-other c q) ∙ h)
    | inl q ↦ elim (Option-cases (issuer_name (record_of (get "issuer" credential)))) [
      | inr (w, n) ↦
          let (issuer, known, name, text) = found_name _ w n in
          let same : w ≡ v = ground arith in
          named ((===_iff c "university").0 q)
            (issuer, record_some _ issuer known, name ∙ ap some same, subst IsText same text)
      | inl n ↦
          value_own c v
            (inr λ w x.
              no_name (record_of (get "issuer" credential)) x.0 w n (ap record_of x.1) x.2 x.3)
            (ground arith)
    ]
  ]
    where
      claim_value-other :
          (c : String)
          → (c === "university") ≡ false
          → claim_value subject (issuer_name (record_of (get "issuer" credential))) c
            ≡ get c subject
      claim_value-other c q = rw (claim_value, q) refl
