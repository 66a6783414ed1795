-- ===== src/Verification/Proofs.antt =====
-- `validateCryptographicChecks` of src/verification/verification.service.ts: the holder's proof of the
-- presentation and the issuer's proof of the credential in the holder's wallet.
use ssi_academic_credential.Common.{
  ℕ, String, Bool, true, false, not, ◌&&◌, ◌||◌, List, [], ◌∷◌, Option, none, some, Result, ok, err,
  Error, Action, bad_request, conflict, not_found, ◌>>=◌, ◌>>◌, pure, raise_if, or_raise, of_result,
  gets, modify, ◌==◌, ltb, length, if◌then◌else◌,
}
use ssi_academic_credential.Text.{◌===◌}
use ssi_academic_credential.Prisma.{Prisma}
use ssi_academic_credential.Base58.{decode_proof_value}
use ssi_academic_credential.Database.{
  Json, str, uuid, key_id, arr, obj, object, Items, nil, cons, Fields, end, field, Presentation,
  VerificationRequest, WalletCredential,
}
use ssi_academic_credential.Dids.Signing.{ResolvedKey, resolve_verification_method}
use ssi_academic_credential.Requests.Claims.{get, put, record_of, is_string}
use ssi_academic_credential.Requests.Proof.{VerificationMethod, method_eq}
use ssi_academic_credential.Requests.State.{Redis, Store, VerificationSession}
use ssi_academic_credential.Verification.{Verifier, Context, text_is, id_is, is_text, raise_some}

pub data ProofOwner : Type 0 where
  holder issuer : ProofOwner

-- `delete object[key]`.
unfoldable pub without : String → Fields → Fields
without k end = end
without k (field j v fs) = let rest = without k fs in if j === k then rest else field j v rest

abbrev pub method_mismatch : ProofOwner → Error
method_mismatch ProofOwner.holder =
    bad_request "Holder verification method does not match holder DID"
method_mismatch ProofOwner.issuer =
    bad_request "Issuer verification method does not match issuer DID"

-- What `resolveProofVerificationMethod` makes of an exception.
abbrev pub relabel : {A : Type 0} → ProofOwner → Result A → Result A
relabel owner (ok a) = ok a
relabel owner (err (not_found m)) = err (method_mismatch owner)
relabel owner (err (conflict m)) = err (method_mismatch owner)
relabel owner (err e) = err e

-- The parts of a text `<did>#key-<version>`; another text is refused like one that names no key.
abbrev pub method_of : Option Json → Option VerificationMethod
method_of (some (key_id did version)) = some (record { did = did; key_version = version })
method_of _ = none

abbrev pub is_method : Option Json → ResolvedKey → Bool
is_method method key = elim (method_of method) [ none ↦ false | some m ↦ method_eq m key.method ]

abbrev pub unsecured : Presentation → VerificationRequest → Json
unsecured p r = object (
    ("presentationId", uuid p.id)
    ∷ ("requestId", uuid r.id)
    ∷ ("credentialId", uuid p.credential_id)
    ∷ ("holderDid", uuid p.holder_did)
    ∷ ("disclosedClaims", p.disclosed_claims)
    ∷ [])

-- The form of a proof with the given purpose.
abbrev pub is_proof : String → Fields → Bool
is_proof purpose proof =
    text_is "DataIntegrityProof" (get "type" proof)
    && text_is "eddsa-jcs-2022" (get "cryptosuite" proof)
    && text_is purpose (get "proofPurpose" proof)
    && is_text (get "proofValue" proof)
    && is_text (get "verificationMethod" proof)

abbrev pub valid_created : (is_date : Json → Bool) → Option Json → Bool
valid_created is_date none = true
valid_created is_date (some v) = is_string v && is_date v

abbrev pub invalid_holder_proof : Error
invalid_holder_proof = bad_request "Holder proof is invalid"

abbrev pub invalid_issuer_proof : Error
invalid_issuer_proof = bad_request "Issuer proof is invalid"

-- What `validateCryptographicChecks` checks of the holder's proof before it looks at keys.
abbrev pub check_holder_proof :
    (is_date : Json → Bool) → Presentation → VerificationSession → Fields → Option Error
check_holder_proof is_date p session proof =
    if not (
      is_proof "authentication" proof
      && is_text (get "challenge" proof)
      && is_text (get "domain" proof))
    then some invalid_holder_proof
    else if not (valid_created is_date (get "created" proof))
    then some invalid_holder_proof
    else if not (id_is p.nonce (get "challenge" proof))
        || not (id_is session.nonce (get "challenge" proof))
    then some (bad_request "Holder proof challenge is invalid")
    else if not (id_is session.bank_id (get "domain" proof))
    then some (bad_request "Holder proof domain is invalid")
    else none

abbrev pub check_issuer_proof : (is_date : Json → Bool) → Fields → Option Error
check_issuer_proof is_date proof =
    if not (is_proof "assertionMethod" proof)
    then some invalid_issuer_proof
    else if not (valid_created is_date (get "created" proof))
    then some invalid_issuer_proof
    else none

-- A context is an array or one value.
abbrev pub list_of : Items → List Json
list_of nil = []
list_of (cons v vs) = v ∷ list_of vs

abbrev pub contexts : Json → List Json
contexts (arr vs) = list_of vs
contexts v = v ∷ []

abbrev pub invalid_context : Error
invalid_context = bad_request "Issuer proof context is invalid"

-- The value of an optional property, or the document's own text.
abbrev pub proof_value_of : Fields → Json
proof_value_of proof = elim (get "proofValue" proof) [ none ↦ str "" | some v ↦ v ]

module _ (canonicalize : Json → Result ℕ) where
  -- `every` over the proof's contexts, each compared with the document's at its place.
  abbrev pub contexts_match : List Json → List Json → Result Bool
  contexts_match [] ds = ok true
  contexts_match (p ∷ ps) [] = ok false
  contexts_match (p ∷ ps) (d ∷ ds) = elim (canonicalize p) [
    | err e ↦ err e
    | ok x ↦ elim (canonicalize d) [
      | err e ↦ err e
      | ok y ↦ if x == y then contexts_match ps ds else ok false
    ]
  ]

  unfoldable pub apply_proof_context : Fields → Fields → Result Fields
  apply_proof_context unsigned options = elim (get "@context" options) [
    | none ↦ ok unsigned
    | some proof_context ↦ elim (get "@context" unsigned) [
      | none ↦ err invalid_context
      | some document_context ↦
          if ltb (length (contexts document_context)) (length (contexts proof_context))
          then err invalid_context
          else elim (contexts_match (contexts proof_context) (contexts document_context)) [
            | err e ↦ err e
            | ok matches ↦
                if matches then ok (put "@context" proof_context unsigned) else err invalid_context
          ]
    ]
  ]

module _ (prisma : Prisma) (redis : Redis) (verifier : Verifier) where
  unfoldable pub resolve_proof_verification_method :
      (did : ℕ) → Option Json → ProofOwner → Action (Store redis) ResolvedKey
  resolve_proof_verification_method did method owner s = elim (method_of method) [
    | none ↦ (err (method_mismatch owner), s)
    | some m ↦ (relabel owner (resolve_verification_method prisma did m s.db).0, s)
  ]

  -- The signature of a document by the key of a proof.
  unfoldable pub signature_valid :
      (document : ℕ) → Fields → Error → ResolvedKey → Action (Store redis) Bool
  signature_valid document proof invalid key = do
    bytes ← of_result (decode_proof_value invalid (verifier.characters (proof_value_of proof)))
    config ← of_result (verifier.canonicalize (obj (without "proofValue" proof)))
    of_result (
        verifier.verify (verifier.concat (verifier.sha256 config) (verifier.sha256 document)) bytes
          key.public_key)

  -- The hash of the presentation, and its signature by the key that was resolved.
  unfoldable pub holder_signature :
      Context → Fields → ResolvedKey → Action (Store redis) ResolvedKey
  holder_signature c proof key = do
    raise_if (not (is_method (get "verificationMethod" proof) key))
        (method_mismatch ProofOwner.holder)
    document ← of_result (verifier.canonicalize (unsecured c.presentation c.request))
    raise_if (not (verifier.sha256 document == c.presentation.presentation_hash))
        (bad_request "Presentation hash is invalid")
    valid ← signature_valid document proof invalid_holder_proof key
    raise_if (not valid) invalid_holder_proof
    pure key

  unfoldable pub validate_holder_proof : Context → Action (Store redis) ResolvedKey
  validate_holder_proof c = do
    proof ← or_raise (record_of (some c.presentation.holder_proof)) invalid_holder_proof
    raise_some (check_holder_proof verifier.is_date c.presentation c.session proof)
    key ←
        resolve_proof_verification_method c.presentation.holder_did (get "verificationMethod" proof)
          ProofOwner.holder
    holder_signature c proof key

  abbrev pub presented_in_wallet : Presentation → WalletCredential → Bool
  presented_in_wallet p w = w.credential_id == p.credential_id && w.holder_id == p.holder_id

  -- The credential in the wallet, decrypted and parsed.
  unfoldable pub stored_credential : Presentation → Action (Store redis) Fields
  stored_credential p = do
    s ← gets (λ s. s)
    w ←
        or_raise (prisma.find_first (presented_in_wallet p) (s.db).wallet_credentials)
          (not_found "Credential not found in holder wallet")
    text ← of_result (verifier.decrypt w)
    or_raise (record_of (verifier.parse text)) (bad_request "Stored credential is invalid")

  unfoldable pub issuer_signature :
      Fields → (document : ℕ) → ResolvedKey → Action (Store redis) (Unit {0})
  issuer_signature proof document key = do
    raise_if (not (is_method (get "verificationMethod" proof) key))
        (method_mismatch ProofOwner.issuer)
    valid ← signature_valid document proof invalid_issuer_proof key
    raise_if (not valid) (bad_request "Issuer signature is invalid")

  -- The document that the proof is of, once its hash is the stored one.
  unfoldable pub unsigned_document :
      Context → (signed proof : Fields) → Action (Store redis) (Fields × ℕ)
  unsigned_document c signed proof = do
    raise_some (check_issuer_proof verifier.is_date proof)
    unsigned ← of_result (
        apply_proof_context verifier.canonicalize (without "proof" signed)
          (without "proofValue" proof))
    document ← of_result (verifier.canonicalize (obj unsigned))
    raise_if (not (verifier.sha256 document == c.credential.credential_hash))
        (bad_request "Credential hash is invalid")
    pure (unsigned, document)

  -- `others` is what other requests do between the reading of the wallet and that of the key.
  unfoldable pub validate_issuer_proof :
      (others : Store redis → Store redis) → Context → Action (Store redis) Fields
  validate_issuer_proof others c = do
    signed ← stored_credential c.presentation
    proof ← or_raise (record_of (get "proof" signed)) invalid_issuer_proof
    x ← unsigned_document c signed proof
    modify others
    key ←
        resolve_proof_verification_method c.credential.issuer_did (get "verificationMethod" proof)
          ProofOwner.issuer
    issuer_signature proof x.1 key
    pure x.0
