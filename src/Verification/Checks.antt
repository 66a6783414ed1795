-- ===== src/Verification/Checks.antt =====
-- `validateCredentialChecks` of src/verification/verification.service.ts: the issuer, the credential's
-- status, its schema, its subject and the disclosed claims. The names of claims are `str` texts.
use Prim.Native.String
use ssi_academic_credential.Common.{
  ℕ, String, Bool, true, false, not, ◌&&◌, ◌||◌, List, [], ◌∷◌, Option, none, some, Result, ok, err,
  Error, Action, bad_request, ◌>>=◌, ◌>>◌, pure, raise_if, or_raise, of_result, gets, modify, ◌==◌,
  leb, length, if◌then◌else◌, any,
}
use ssi_academic_credential.Text.{◌===◌, is_empty, includes}
use ssi_academic_credential.Prisma.{Prisma}
use ssi_academic_credential.Database.{
  Json, str, arr, Items, nil, cons, Fields, end, field, Credential, CredentialStatus,
  CredentialSchema, Presentation,
}
use ssi_academic_credential.CredentialSchemas.{validate_claims, find_by_id_for_organization}
use ssi_academic_credential.Requests.Claims.{get, put, record_of, issuer_name}
use ssi_academic_credential.Requests.State.{Redis, Store, on_db}
use ssi_academic_credential.Trust.{is_trusted}
use ssi_academic_credential.Verification.{
  Verifier, Context, text_is, id_is, raise_some, validate_request_context,
}
use ssi_academic_credential.Verification.Proofs.{validate_holder_proof, validate_issuer_proof}

-- The status and the expiry date.
abbrev pub check_expiry : (now : ℕ) → Option ℕ → Option Error
check_expiry now none = none
check_expiry now (some at) =
    if leb at now then some (bad_request "Credential has expired") else none

abbrev pub check_credential_status : (now : ℕ) → Credential → CredentialStatus → Option Error
check_credential_status now c CredentialStatus.revoked =
    some (bad_request "Credential has been revoked")
check_credential_status now c CredentialStatus.suspended =
    some (bad_request "Credential has been suspended")
check_credential_status now c CredentialStatus.expired = some (bad_request "Credential has expired")
check_credential_status now c CredentialStatus.active = check_expiry now c.expires_at

-- The issuer and the holder that the document names, and its schema.
abbrev pub check_parties :
    Presentation → Credential → CredentialSchema → (subject issuer : Fields) → Option Error
check_parties p c schema subject issuer =
    if not (id_is c.issuer_did (get "id" issuer))
    then some (bad_request "Credential issuer DID does not match stored issuer")
    else if not (c.holder_id == p.holder_id)
        || not (id_is p.holder_did (get "id" subject))
        || not (id_is c.holder_did (get "id" subject))
    then some (bad_request "Credential holder DID does not match presentation holder")
    else none

abbrev pub check_metadata : CredentialSchema → Fields → Option Error
check_metadata schema metadata =
    if not (text_is schema.name (get "schema" metadata))
      || not (text_is schema.version (get "schemaVersion" metadata))
    then some (bad_request "Credential schema metadata is invalid")
    else none

-- The subject's claims, with the issuer's name for `university`.
abbrev pub credential_claims : (subject issuer : Fields) → Fields
credential_claims subject issuer = elim (issuer_name (some issuer)) [
  | none ↦ subject
  | some name ↦ put "university" name subject
]

abbrev pub names : Fields → List String
names end = []
names (field k v fs) = k ∷ names fs

-- `requireStringArray` on a stored value and on the session's list.
abbrev pub string_items : Items → Option (List String)
string_items nil = some []
string_items (cons (str s) vs) = elim (string_items vs) [
  | none ↦ none
  | some ss ↦ if is_empty s then none else some (s ∷ ss)
]
string_items (cons _ vs) = none

abbrev pub require_string_array : Json → Option (List String)
require_string_array (arr (cons v vs)) = string_items (cons v vs)
require_string_array _ = none

abbrev pub require_strings : List String → Option (List String)
require_strings [] = none
require_strings (s ∷ ss) = if any is_empty (s ∷ ss) then none else some (s ∷ ss)

abbrev pub same_texts : List String → List String → Bool
same_texts [] [] = true
same_texts (s ∷ ss) (t ∷ ts) = s === t && same_texts ss ts
same_texts _ _ = false

abbrev pub same_string_set : (sort : List String → List String) → List String → List String → Bool
same_string_set sort first second =
    length first == length second && same_texts (sort first) (sort second)

module _ (canonicalize : Json → Result ℕ) (requested session_requested : List String)
    (claims : Fields) where
  abbrev pub check_disclosed_claim : String → Json → Result (Unit {0})
  check_disclosed_claim claim value =
      if not (includes requested claim) || not (includes session_requested claim)
      then err (bad_request (String.◌++◌ "Disclosed claim was not requested: " claim))
      else elim (get claim claims) [
        | none ↦
            err (bad_request (String.◌++◌ "Credential does not contain disclosed claim: " claim))
        | some own ↦ elim (canonicalize value) [
          | err e ↦ err e
          | ok x ↦ elim (canonicalize own) [
            | err e ↦ err e
            | ok y ↦
                if x == y
                then ok tt
                else err
                    (bad_request (String.◌++◌ "Disclosed claim does not match credential: " claim))
          ]
        ]
      ]

  -- The loop over the disclosed claims.
  unfoldable pub check_disclosed : Fields → Result (Unit {0})
  check_disclosed end = ok tt
  check_disclosed (field claim value fs) = elim (check_disclosed_claim claim value) [
    | err e ↦ err e
    | ok u ↦ check_disclosed fs
  ]

abbrev pub invalid_disclosed : Error
invalid_disclosed = bad_request "Disclosed claims are invalid"

module _ (prisma : Prisma) (redis : Redis) (verifier : Verifier) where
  -- `others` is what other requests do between the reading of the registry and that of the schema.
  unfoldable pub check_issuer_and_status :
      (others : Store redis → Store redis) (now : ℕ)
      → Credential
      → Action (Store redis) CredentialSchema
  check_issuer_and_status others now c = do
    s ← gets (λ s. s)
    raise_if (not (is_trusted prisma c.issuer_did s.db))
        (bad_request "Credential issuer is not trusted")
    raise_some (check_credential_status now c c.status)
    modify others
    schema ← on_db redis (find_by_id_for_organization prisma c.schema_id c.issuer_organization_id)
    raise_if (not (schema.status === "ACTIVE")) (bad_request "Credential schema is not active")
    pure schema

  -- The claims of the document, once it is in order.
  unfoldable pub check_subject :
      Context → CredentialSchema → (unsigned : Fields) → Action (Store redis) Fields
  check_subject c schema unsigned = do
    subject ←
        or_raise (record_of (get "credentialSubject" unsigned))
          (bad_request "Credential subject is invalid")
    issuer ←
        or_raise (record_of (get "issuer" unsigned)) (bad_request "Credential issuer is invalid")
    raise_some (check_parties c.presentation c.credential schema subject issuer)
    metadata ←
        or_raise (record_of (get "metadata" unsigned))
          (bad_request "Credential metadata is invalid")
    raise_some (check_metadata schema metadata)
    of_result (validate_claims schema.schema_json (credential_claims subject issuer))
    pure (credential_claims subject issuer)

  unfoldable pub check_disclosure : Context → (claims : Fields) → Action (Store redis) (Unit {0})
  check_disclosure c claims = do
    disclosed ← or_raise (record_of (some c.presentation.disclosed_claims)) invalid_disclosed
    raise_if (length (names disclosed) == 0) (bad_request "No claims were disclosed")
    requested ←
        or_raise (require_string_array c.request.requested_claims)
          (bad_request "Stored requested claims are invalid")
    session_requested ←
        or_raise (require_strings c.session.requested_claims)
          (bad_request "Verification session requested claims are invalid")
    raise_if (not (same_string_set verifier.sort requested session_requested))
        (bad_request "Verification session requested claims mismatch")
    of_result (check_disclosed verifier.canonicalize requested session_requested claims disclosed)

  unfoldable pub validate_credential_checks :
      (others : Store redis → Store redis) (presentation_id now swept later : ℕ)
      → Action (Store redis) Context
  validate_credential_checks others presentation_id now swept later = do
    c ← validate_request_context prisma redis others verifier presentation_id now swept
    modify others
    validate_holder_proof prisma redis verifier c
    modify others
    unsigned ← validate_issuer_proof prisma redis verifier others c
    modify others
    schema ← check_issuer_and_status others later c.credential
    claims ← check_subject c schema unsigned
    check_disclosure c claims
    pure c
