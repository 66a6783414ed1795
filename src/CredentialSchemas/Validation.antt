-- ===== src/CredentialSchemas/Validation.antt =====
-- Which claims a schema accepts: `validateClaims` of src/credential-schemas/credential-schemas.service.ts.
use ssi_academic_credential.Common.{
  String, false, List, [], ◌∷◌, ok, ◌≡◌, ◌↔◌, ◌⊎◌, refl, arith, inl, inr, All, Bool-cases,
  Result-cases, select, ◌≢◌, Option-cases, In, some, none, Bool, true, not, sym, ap, ◌∙◌,
}
use ssi_academic_credential.Text.{includes, includes-In, In-includes}
use ssi_academic_credential.Database.{Json, str, Fields}
use ssi_academic_credential.Requests.Claims.{get}
use ssi_academic_credential.CredentialSchemas.{
  CredentialSchemaDefinition, parse_schema_definition, missing, blank, inherited, validate_claims,
}

List-cases : (t : List String) → (t ≡ []) ⊎ ((c : String) × (cs : List String) × (t ≡ c ∷ cs))
List-cases [] = inl refl
List-cases (c ∷ cs) = inr (c, cs, refl)

-- A claim has a value that is neither null nor the empty text, or it has none and its name is that of
-- a property of `Object.prototype`.
pub data Supplied (claims : Fields) (c : String) : Type 0 where
  present : (v : Json) → get c claims ≡ some v → v ≢ Json.null → v ≢ str "" → Supplied claims c
  from_prototype : get c claims ≡ none → In c inherited → Supplied claims c

blank-false : (v : Json) → blank v ≡ false → (v ≢ Json.null) × (v ≢ str "")
blank-false v h = ((λ e. absurd (b1 e)), λ e. absurd (b2 e))
  where
    b1 : v ≡ Json.null → ⊥
    b1 e = ground arith

    b2 : v ≡ str "" → ⊥
    b2 e = ground arith

not_blank : (v : Json) → v ≢ Json.null → v ≢ str "" → blank v ≡ false
not_blank Json.null n m = absurd (n refl)
not_blank (str String.[]) n m = absurd (m refl)
not_blank (str (String.◌∷◌ c s)) n m = refl
not_blank _ n m = refl

missing-none :
    (claims : Fields) (c : String)
    → get c claims ≡ none
    → missing claims c ≡ not (includes inherited c)
missing-none claims c e = rw (missing, e) refl

missing-some :
    (claims : Fields) (c : String) (v : Json) → get c claims ≡ some v → missing claims c ≡ blank v
missing-some claims c v e = rw (missing, e) refl

negated_false : (b : Bool) → not b ≡ false → b ≡ true
negated_false true h = refl
negated_false false h = absurd (cc)

missing-Supplied : (claims : Fields) (c : String) → missing claims c ≡ false → Supplied claims c
missing-Supplied claims c h = elim (Option-cases (get c claims)) [
  | inl e ↦ from_prototype e (
      includes-In inherited c
        (negated_false (includes inherited c) (sym (missing-none claims c e) ∙ h)))
  | inr (v, e) ↦ let n = blank-false v (sym (missing-some claims c v e) ∙ h) in present v e n.0 n.1
]

Supplied-missing : (claims : Fields) (c : String) → Supplied claims c → missing claims c ≡ false
Supplied-missing claims c (present v e n m) = missing-some claims c v e ∙ not_blank v n m
Supplied-missing claims c (from_prototype e i) =
    missing-none claims c e ∙ ap not (In-includes inherited c i)

none_missing :
    (claims : Fields) (t : List String) → select (missing claims) t ≡ [] → All (Supplied claims) t
none_missing claims [] h = tt
none_missing claims (c ∷ t) h = elim (Bool-cases (missing claims c)) [
  | inl e ↦ absurd (ground arith)
  | inr e ↦ (missing-Supplied claims c e, none_missing claims t (ground arith))
]

select-none :
    (claims : Fields) (t : List String) → All (Supplied claims) t → select (missing claims) t ≡ []
select-none claims [] h = refl
select-none claims (c ∷ t) h =
    let e = Supplied-missing claims c h.0 in ground (arith, select-none claims t h.1)

-- Claims are accepted exactly if the schema is a definition and each claim that it requires is
-- supplied: it has a value that is neither null nor the empty text, or it has none and its name is that
-- of a property of `Object.prototype`.
pub validate_claims_iff :
    (schema_json : Json) (claims : Fields)
    → (validate_claims schema_json claims ≡ ok tt) ↔ (
        (d : CredentialSchemaDefinition) × (parse_schema_definition schema_json ≡ ok d)
        × All (Supplied claims) d.required_claims)
unfolding validate_claims
validate_claims_iff schema_json claims = (there, back)
  where
    there :
        validate_claims schema_json claims ≡ ok tt
        → (d : CredentialSchemaDefinition) × (parse_schema_definition schema_json ≡ ok d)
          × All (Supplied claims) d.required_claims
    there h = elim (Result-cases (parse_schema_definition schema_json)) [
      | inr (e, p) ↦ absurd (ground arith)
      | inl (d, p) ↦ elim (List-cases (select (missing claims) d.required_claims)) [
        | inl e ↦ (d, p, none_missing claims d.required_claims e)
        | inr (c, cs, e) ↦ absurd (ground arith)
      ]
    ]

    back :
        (d : CredentialSchemaDefinition) × (parse_schema_definition schema_json ≡ ok d)
          × All (Supplied claims) d.required_claims
        → validate_claims schema_json claims ≡ ok tt
    back (d, p, all) = let q = select-none claims d.required_claims all in ground arith
