-- ===== src/Tests/Verification.antt =====
-- src/verification at a concrete input: bank 5 verifies the presentation 60 of holder 9. The
-- cryptography is a toy: every value has one canonical text, and every signature is valid.
use ssi_academic_credential.Common.{
  ℕ, ◌+◌, String, true, false, [], ◌∷◌, none, some, ok, inl, inr, ◌≡◌, refl, ◌==◌, if◌then◌else◌,
}
use ssi_academic_credential.Text.{trim}
use ssi_academic_credential.Base58.{
  repeat, decode_proof_value, decode_base58, read_digits, index_of, alphabet,
}
use ssi_academic_credential.Base58.Digits.{split}
use ssi_academic_credential.CredentialSchemas.{
  definition_json, parse_schema_definition, validate_claims, find_by_id_for_organization,
}
use ssi_academic_credential.Database.{
  Db, empty_db, Json, str, uuid, key_id, obj, object, fields, Fields, DidOwnerType, DidStatus,
  CredentialStatus, TrustedIssuerStatus, Job, Credential, Presentation, VerificationRequest,
  ApplicationStatus, EducationVerificationStatus, VerificationRequestStatus,
}
use ssi_academic_credential.Dids.{new_key, SupportedSignatureAlgorithm}
use ssi_academic_credential.Dids.Signing.{resolve_verification_method}
use ssi_academic_credential.Requests.Answered.{Answered}
use ssi_academic_credential.Requests.Claims.{get, put, record_of}
use ssi_academic_credential.Requests.Service.{claims_json}
use ssi_academic_credential.Requests.State.{Store, VerificationSession}
use ssi_academic_credential.Trust.{is_trusted}
use ssi_academic_credential.Verification.{
  Verifier, Context, validate_request_context, validate_request_context_for_bank, load_presentation,
  read_session, refuse_expired,
}
use ssi_academic_credential.Verification.Proofs.{
  without, apply_proof_context, resolve_proof_verification_method, signature_valid,
  holder_signature, validate_holder_proof, stored_credential, issuer_signature, unsigned_document,
  validate_issuer_proof,
}
use ssi_academic_credential.Verification.Checks.{
  check_disclosed, check_issuer_and_status, check_subject, check_disclosure,
  validate_credential_checks,
}
use ssi_academic_credential.Verification.Failure.{build_failed_verification_checks, contains}
use ssi_academic_credential.Verification.Outcome.{
  VerifiedPresentation, verified_result, verified_body, record_success, check_unverified,
  verify_presentation,
}
use ssi_academic_credential.Verification.Theorems.Sound.{Checked, Recorded, verify_presentation_ok}
use ssi_academic_credential.Verification.Theorems.Kept.{outcome-Answered}
use ssi_academic_credential.Tests.Dids.{made}
use ssi_academic_credential.Tests.Memory.{memory}
use ssi_academic_credential.Tests.Requests.{cache, same_store}

abbrev proof_fields : String → ℕ → Fields → Fields
proof_fields purpose did more = Fields.field "type" (str "DataIntegrityProof") (
    Fields.field "cryptosuite" (str "eddsa-jcs-2022") (
      Fields.field "proofPurpose" (str purpose) (
        Fields.field "proofValue" (str "z")
          (Fields.field "verificationMethod" (key_id did 1) more))))

abbrev diploma : Json
diploma = object (
    ("issuer", object (("id", uuid 95) ∷ []))
    ∷ ("credentialSubject", object (("id", uuid 90) ∷ ("degree", str "BSc") ∷ []))
    ∷ ("metadata", object (("schema", str "Degree") ∷ ("schemaVersion", str "1") ∷ []))
    ∷ ("proof", obj (proof_fields "assertionMethod" 95 Fields.end))
    ∷ [])

abbrev toy : Verifier
toy = record {
  canonicalize = λ j. ok 1;
  sha256 = λ n. n + 1;
  concat = λ a b. a + b;
  verify = λ h b k. ok true;
  decrypt = λ w. ok 0;
  parse = λ n. some diploma;
  characters = λ j. b'z' ∷ repeat b'1' 64;
  is_date = λ j. true;
  sort = λ ts. ts;
}

abbrev shown : Fields
shown = fields (("degree", str "BSc") ∷ [])

abbrev diploma_row : Credential
diploma_row = record {
  id = 7;
  vc_id = 70;
  issuer_organization_id = 4;
  issuer_did = 95;
  holder_id = 9;
  holder_did = 90;
  schema_id = 3;
  academic_record_id = 8;
  credential_hash = 2;
  status = CredentialStatus.active;
  issued_at = 10;
  expires_at = none;
}

abbrev approved_request : VerificationRequest
approved_request = record {
  id = 10;
  application_id = 20;
  verifier_id = 30;
  holder_id = 9;
  requested_claims = claims_json ("degree" ∷ []);
  nonce_hash = 42;
  status = VerificationRequestStatus.approved;
  expires_at = 1000;
}

abbrev shown_presentation : Presentation
shown_presentation = record {
  id = 60;
  request_id = 10;
  credential_id = 7;
  holder_id = 9;
  holder_did = 90;
  disclosed_claims = obj shown;
  nonce = 41;
  presentation_hash = 2;
  holder_proof = obj (
      proof_fields "authentication" 90
        (Fields.field "challenge" (uuid 41) (Fields.field "domain" (uuid 5) Fields.end)));
}

abbrev analyst : Job
analyst = record {
  id = 21;
  bank_id = 5;
  title = "Analyst";
  description = none;
  required_claims = claims_json ("degree" ∷ []);
  status = "OPEN";
}

abbrev open_session : VerificationSession
open_session = record {
  application_id = 20;
  holder_id = 9;
  bank_id = 5;
  nonce = 41;
  requested_claims = "degree" ∷ [];
}

abbrev approved_db : Db
approved_db = record empty_db {
  dids =
      record {
        id = 1;
        did = 90;
        owner_type = DidOwnerType.user;
        owner_id = 9;
        current_key_version = 1;
        status = DidStatus.active;
      }
      ∷ record {
        id = 2;
        did = 95;
        owner_type = DidOwnerType.organization;
        owner_id = 4;
        current_key_version = 1;
        status = DidStatus.active;
      }
      ∷ [];
  did_keys =
      new_key 1 1 SupportedSignatureAlgorithm.ed25519 made
      ∷ new_key 2 1 SupportedSignatureAlgorithm.ed25519 made
      ∷ [];
  trusted_issuers =
      record {
        id = 1;
        organization_id = 4;
        issuer_did = 95;
        status = TrustedIssuerStatus.trusted;
        approved_by = 2;
        suspended_at = none;
      }
      ∷ [];
  credential_schemas =
      record {
        id = 3;
        organization_id = 4;
        name = "Degree";
        version = "1";
        description = none;
        schema_json =
            definition_json
              (record { name = "Degree"; version = "1"; required_claims = "degree" ∷ [] });
        status = "ACTIVE";
      }
      ∷ [];
  credentials = diploma_row ∷ [];
  wallet_credentials =
      record {
        id = 2;
        holder_id = 9;
        credential_id = 7;
        ciphertext = 1;
        iv = 1;
        auth_tag = 1;
        encryption_key_id = none;
      }
      ∷ [];
  jobs = analyst ∷ [];
  applications =
      record {
        id = 20;
        job_id = 21;
        holder_id = 9;
        status = ApplicationStatus.submitted;
        education_verification_status = EducationVerificationStatus.pending;
        verified_academic_data = none;
      }
      ∷ [];
  verification_requests = approved_request ∷ [];
  presentations = shown_presentation ∷ [];
}

abbrev approved_store : Store cache
approved_store = record {
  db = approved_db;
  cache = λ k. if k == 10 then some open_session else none;
}

abbrev accepted_presentation : VerifiedPresentation
accepted_presentation = record { verification_result_id = 80; verified_claims = shown }

abbrev verified_store : Store cache
verified_store =
    (verify_presentation memory cache same_store toy 80 60 5 30 500 500 500 500 500
      approved_store).1

verified :
    verify_presentation memory cache same_store toy 80 60 5 30 500 500 500 500 500 approved_store
    ≡ (ok accepted_presentation, verified_store)
unfolding verify_presentation record_success check_unverified verified_body
    validate_credential_checks check_disclosure check_subject check_issuer_and_status
    check_disclosed validate_issuer_proof unsigned_document issuer_signature stored_credential
    validate_holder_proof holder_signature signature_valid resolve_proof_verification_method
    apply_proof_context without validate_request_context_for_bank validate_request_context
    load_presentation read_session refuse_expired resolve_verification_method is_trusted get put
    validate_claims parse_schema_definition find_by_id_for_organization trim decode_proof_value
    decode_base58 read_digits index_of alphabet split
verified = refl

verify_presentation_ok_example :
    (c : Context) × Checked memory cache toy same_store 60 500 500 c approved_store
    × (accepted_presentation.verification_result_id ≡ 80)
    × (record_of (some c.presentation.disclosed_claims) ≡ some shown)
    × Recorded memory cache toy same_store 80 5 c shown approved_db verified_store.db
    × (cache.get_json c.request.id verified_store.cache ≡ none)
verify_presentation_ok_example =
    verify_presentation_ok memory cache toy same_store 80 60 5 30 500 500 500 500 500 approved_store
      accepted_presentation verified_store verified

abbrev seen_context : Context
seen_context = record {
  presentation = shown_presentation;
  request = approved_request;
  job = analyst;
  credential = diploma_row;
  session = open_session;
}

approved-Answered : Answered approved_db
approved-Answered = record {
  keys = (tt, tt);
  once = (tt, tt);
  approved = ((approved_request, inl refl, refl, refl), tt);
  explained = ((λ e. (shown_presentation, inl refl, refl)), tt);
}

recorded :
    verified_body memory 80 5 30 seen_context shown approved_db
    ≡ (ok (verified_result 80 seen_context), verified_store.db)
unfolding verify_presentation record_success check_unverified verified_body
    validate_credential_checks check_disclosure check_subject check_issuer_and_status
    check_disclosed validate_issuer_proof unsigned_document issuer_signature stored_credential
    validate_holder_proof holder_signature signature_valid resolve_proof_verification_method
    apply_proof_context without validate_request_context_for_bank validate_request_context
    load_presentation read_session refuse_expired resolve_verification_method is_trusted get put
    validate_claims parse_schema_definition find_by_id_for_organization trim decode_proof_value
    decode_base58 read_digits index_of alphabet split
recorded = refl

outcome-Answered_example : Answered verified_store.db
outcome-Answered_example =
    outcome-Answered memory 80 5 30 seen_context "Credential has been revoked" shown approved_db
      (verified_result 80 seen_context) verified_store.db (inr recorded) approved-Answered

-- A schema that is not active is reported as a credential whose status is not valid.
schema_not_active :
    (build_failed_verification_checks "Credential schema is not active").credential_status_valid
    ≡ false
unfolding build_failed_verification_checks contains
schema_not_active = refl

-- Claims that the schema requires and the credential lacks are reported with a valid schema.
claims_missing :
    (build_failed_verification_checks "Missing required credential claims: degree").schema_valid
    ≡ true
unfolding build_failed_verification_checks contains
claims_missing = refl

-- The name of a claim can pass for a status.
claim_named_suspended :
    (build_failed_verification_checks
      "Disclosed claim was not requested: suspended").credential_status_valid
    ≡ false
unfolding build_failed_verification_checks contains
claim_named_suspended = refl

-- An issuer's proof that is refused before the hash is compared is reported with a valid hash.
proof_before_hash : (build_failed_verification_checks "Issuer proof is invalid").hash_valid ≡ true
unfolding build_failed_verification_checks contains
proof_before_hash = refl
