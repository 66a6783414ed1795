-- ===== src/Verification/Outcome.antt =====
-- `verifyPresentation` of src/verification/verification.service.ts: the checks, and the transaction
-- that records their outcome. The body of the exception for a failed verification is its reason.
use ssi_academic_credential.Common.{
  ℕ, String, Bool, true, false, not, ◌&&◌, ◌||◌, List, [], ◌∷◌, Option, none, some, ok, err, Error,
  Action, conflict, unprocessable, unique_violation, ◌>>=◌, ◌>>◌, pure, raise, raise_if, or_raise,
  gets, modify, ◌==◌, any,
}
use ssi_academic_credential.Prisma.{Prisma}
use ssi_academic_credential.Database.{
  Db, Json, str, uuid, obj, object, Fields, Application, EducationVerificationStatus,
  education_verification_status_eq, VerificationRequest, VerificationRequestStatus,
  verification_request_status_eq, VerificationResult, VerificationFinalResult, AuditLog,
}
use ssi_academic_credential.Requests.Claims.{record_of}
use ssi_academic_credential.Requests.State.{Redis, Store, on_db, on_cache}
use ssi_academic_credential.Requests.Service.{set_request_status, application_of_bank}
use ssi_academic_credential.Verification.{
  Verifier, Context, is_approved, request_of_bank, validate_request_context_for_bank,
}
use ssi_academic_credential.Verification.Checks.{validate_credential_checks, invalid_disclosed}
use ssi_academic_credential.Verification.Failure.{
  VerificationChecks, build_failed_verification_checks, reason_of,
}

-- `try { a = m } catch (error) { ... }`, with what follows it.
abbrev pub either :
    {S A B : Type 0} → Action S A → (A → Action S B) → (Error → Action S B) → Action S B
either m done failed s = let (r, t) = m s in elim r [ ok a ↦ done a t | err e ↦ failed e t ]

pub record VerifiedPresentation : Type 0 where
  pub verification_result_id : ℕ
  pub verified_claims : Fields

-- The `where` of the two changes.
abbrev pub approved_of_bank : Db → (id bank_id : ℕ) → VerificationRequest → Bool
approved_of_bank d id bank_id r = r.id == id && is_approved r && request_of_bank d bank_id r

abbrev pub awaiting_of_bank : Db → (id bank_id : ℕ) → Application → Bool
awaiting_of_bank d id bank_id a =
    education_verification_status_eq a.education_verification_status
      EducationVerificationStatus.pending
    && application_of_bank d id bank_id a

abbrev pub set_verification : EducationVerificationStatus → Option Json → Application → Application
set_verification st academic_data a = record a {
  education_verification_status = st;
  verified_academic_data = academic_data;
}

-- The identifier and the presentation are unique.
abbrev pub result_clash : VerificationResult → VerificationResult → Bool
result_clash r q = q.id == r.id || q.presentation_id == r.presentation_id

abbrev pub failed_result : (id : ℕ) → Context → String → VerificationChecks → VerificationResult
failed_result id c reason checks = record {
  id = id;
  presentation_id = c.presentation.id;
  application_id = c.request.application_id;
  request_valid = checks.request_valid;
  nonce_valid = checks.nonce_valid;
  holder_proof_valid = checks.holder_proof_valid;
  hash_valid = checks.hash_valid;
  issuer_signature_valid = checks.issuer_signature_valid;
  issuer_trusted = checks.issuer_trusted;
  credential_status_valid = checks.credential_status_valid;
  schema_valid = checks.schema_valid;
  holder_matches = checks.holder_matches;
  claims_valid = checks.claims_valid;
  final_result = VerificationFinalResult.failed;
  failure_reason = some reason;
}

abbrev pub verified_result : (id : ℕ) → Context → VerificationResult
verified_result id c = record {
  id = id;
  presentation_id = c.presentation.id;
  application_id = c.request.application_id;
  request_valid = true;
  nonce_valid = true;
  holder_proof_valid = true;
  hash_valid = true;
  issuer_signature_valid = true;
  issuer_trusted = true;
  credential_status_valid = true;
  schema_valid = true;
  holder_matches = true;
  claims_valid = true;
  final_result = VerificationFinalResult.verified;
  failure_reason = none;
}

abbrev pub outcome_log :
    (actor_id bank_id result_id : ℕ) → String → Context → List (String × Json) → AuditLog
outcome_log actor_id bank_id result_id action c more = record {
  actor_id = some actor_id;
  organization_id = some bank_id;
  action = action;
  resource_type = some "Presentation";
  resource_id = some c.presentation.id;
  metadata = some (
      object (
        ("verificationResultId", uuid result_id)
        ∷ ("applicationId", uuid c.request.application_id)
        ∷ ("verificationRequestId", uuid c.request.id)
        ∷ more));
}

module _ (prisma : Prisma) where
  -- The transaction of a failed verification.
  unfoldable pub failed_body :
      (id bank_id actor_id : ℕ) → Context → String → Action Db VerificationResult
  failed_body id bank_id actor_id c reason = do
    d ← gets (λ d. d)
    let turned =
        prisma.update_many (approved_of_bank d c.request.id bank_id)
          (set_request_status VerificationRequestStatus.failed) d.verification_requests
    modify (λ d. record d { verification_requests = turned.1 })
    raise_if (not (turned.0 == 1)) (conflict "Verification request is no longer approved")
    d ← gets (λ d. d)
    let closed =
        prisma.update_many (awaiting_of_bank d c.request.application_id bank_id)
          (set_verification EducationVerificationStatus.failed none) d.applications
    modify (λ d. record d { applications = closed.1 })
    raise_if (not (closed.0 == 1)) (conflict "Application verification state has changed")
    d ← gets (λ d. d)
    results ←
        or_raise
          (prisma.create result_clash
            (failed_result id c reason (build_failed_verification_checks reason))
            d.verification_results)
          unique_violation
    modify (λ d. record d { verification_results = results })
    d ← gets (λ d. d)
    logs ←
        or_raise
          (prisma.create (λ _ _. false)
            (outcome_log actor_id bank_id id "VERIFICATION_FAILED" c (("reason", str reason) ∷ []))
            d.audit_logs)
          unique_violation
    modify (λ d. record d { audit_logs = logs })
    pure (failed_result id c reason (build_failed_verification_checks reason))

  -- The transaction of a successful one.
  unfoldable pub verified_body :
      (id bank_id actor_id : ℕ) → Context → Fields → Action Db VerificationResult
  verified_body id bank_id actor_id c disclosed = do
    d ← gets (λ d. d)
    let turned =
        prisma.update_many (approved_of_bank d c.request.id bank_id)
          (set_request_status VerificationRequestStatus.verified) d.verification_requests
    modify (λ d. record d { verification_requests = turned.1 })
    raise_if (not (turned.0 == 1)) (conflict "Verification request is no longer approved")
    d ← gets (λ d. d)
    let closed =
        prisma.update_many (awaiting_of_bank d c.request.application_id bank_id)
          (set_verification EducationVerificationStatus.verified (some (obj disclosed)))
          d.applications
    modify (λ d. record d { applications = closed.1 })
    raise_if (not (closed.0 == 1)) (conflict "Application verification state has changed")
    d ← gets (λ d. d)
    results ←
        or_raise (prisma.create result_clash (verified_result id c) d.verification_results)
          unique_violation
    modify (λ d. record d { verification_results = results })
    d ← gets (λ d. d)
    logs ←
        or_raise
          (prisma.create (λ _ _. false) (outcome_log actor_id bank_id id "CREDENTIAL_VERIFIED" c [])
            d.audit_logs)
          unique_violation
    modify (λ d. record d { audit_logs = logs })
    pure (verified_result id c)

  module _ (redis : Redis) (others : Store redis → Store redis) where
    -- `latestRequest?.status === EXPIRED`.
    abbrev pub expired_meanwhile : ℕ → Store redis → Bool
    expired_meanwhile id s =
        elim (prisma.find_first (λ (r : VerificationRequest). r.id == id)
          (s.db).verification_requests) [
            | none ↦ false
            | some r ↦ verification_request_status_eq r.status VerificationRequestStatus.expired
          ]

    -- The `catch` block.
    unfoldable pub record_failure :
        (id bank_id actor_id : ℕ) → Context → Error → Action (Store redis) VerifiedPresentation
    record_failure id bank_id actor_id c e = do
      reason ← or_raise (reason_of e) e
      modify others
      s ← gets (λ s. s)
      raise_if (expired_meanwhile c.request.id s) e
      modify others
      on_db redis (prisma.transaction (failed_body id bank_id actor_id c reason))
      on_cache redis (redis.delete c.request.id)
      raise (unprocessable reason)

    unfoldable pub record_success :
        (id bank_id actor_id : ℕ) → Context → Action (Store redis) VerifiedPresentation
    record_success id bank_id actor_id c = do
      disclosed ← or_raise (record_of (some c.presentation.disclosed_claims)) invalid_disclosed
      modify others
      on_db redis (prisma.transaction (verified_body id bank_id actor_id c disclosed))
      on_cache redis (redis.delete c.request.id)
      pure (record { verification_result_id = id; verified_claims = disclosed })

    -- The result of a presentation is unique.
    unfoldable pub check_unverified : (presentation_id : ℕ) → Action (Store redis) (Unit {0})
    check_unverified presentation_id = do
      s ← gets (λ s. s)
      raise_if
          (any (λ (r : VerificationResult). r.presentation_id == presentation_id)
            (s.db).verification_results)
          (conflict "Presentation has already been verified")

    module _ (verifier : Verifier) where
      -- `id` is the fresh identifier of the result. The times are those of the checks, in their order.
      unfoldable pub verify_presentation :
          (id presentation_id bank_id actor_id : ℕ)
          (first first_swept second second_swept later : ℕ)
          → Action (Store redis) VerifiedPresentation
      verify_presentation id presentation_id bank_id actor_id first first_swept second second_swept
            later =
          do
            c ←
                validate_request_context_for_bank prisma redis others verifier presentation_id
                  bank_id first first_swept
            modify others
            check_unverified presentation_id
            modify others
            either
                (validate_credential_checks prisma redis verifier others presentation_id second
                  second_swept later)
                (record_success id bank_id actor_id) (record_failure id bank_id actor_id c)
