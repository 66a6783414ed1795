-- ===== src/Requests/Answer.antt =====
-- `approve` and `reject` of src/verification-requests/verification-requests.service.ts.
use ssi_academic_credential.Common.{
  ℕ, String, Bool, false, not, ◌&&◌, ◌||◌, List, [], ◌∷◌, Option, none, some, Error, Action,
  conflict, bad_request, not_found, forbidden, server_error, unique_violation, ◌>>=◌, ◌>>◌, pure,
  raise, raise_if, or_raise, gets, modify, of_result, ◌==◌, if◌then◌else◌,
}
use ssi_academic_credential.Prisma.{Prisma}
use ssi_academic_credential.Database.{
  Db, Json, uuid, obj, object, Fields, VerificationRequest, VerificationRequestStatus,
  WalletCredential, Presentation, AuditLog,
}
use ssi_academic_credential.Requests.Claims.{validate_approved_claims, extract_disclosed_claims}
use ssi_academic_credential.Requests.Proof.{
  Crypto, DidSigningResult, ProofInput, HolderProof, create_holder_proof,
}
use ssi_academic_credential.Requests.Service.{
  claims_json, presentation_clash, request_log, set_request_status, pending_of, of_holder,
  expire_request, ensure_pending_and_active,
}
use ssi_academic_credential.Requests.State.{VerificationSession, Redis, Store, on_db, on_cache}

pub record ApproveVerificationRequestInput : Type 0 where
  pub request_id : ℕ
  pub holder_id : ℕ
  pub credential_id : ℕ
  pub approved_claims : List String

-- What `approve` returns; the status in it is always APPROVED.
pub record ApprovedRequest : Type 0 where
  pub presentation_id : ℕ
  pub request_id : ℕ
  pub disclosed_claims : Fields

abbrev pub no_longer_pending : Error
no_longer_pending = conflict "Verification request is no longer pending or has expired"

abbrev pub in_wallet : (credential_id holder_id : ℕ) → WalletCredential → Bool
in_wallet credential_id holder_id w = w.credential_id == credential_id && w.holder_id == holder_id

abbrev pub approved_log : ProofInput → VerificationRequest → List String → AuditLog
approved_log i r approved_claims =
    request_log i.holder_id i.bank_id "CREDENTIAL_REQUEST_APPROVED" r.id (
      object (
        ("applicationId", uuid r.application_id)
        ∷ ("credentialId", uuid i.credential_id)
        ∷ ("approvedClaims", claims_json approved_claims)
        ∷ []))

abbrev pub presentation_log : ProofInput → VerificationRequest → List String → AuditLog
presentation_log i r approved_claims = record {
  actor_id = some i.holder_id;
  organization_id = some i.bank_id;
  action = "PRESENTATION_CREATED";
  resource_type = some "Presentation";
  resource_id = some i.presentation_id;
  metadata = some (
      object (
        ("requestId", uuid r.id)
        ∷ ("applicationId", uuid r.application_id)
        ∷ ("credentialId", uuid i.credential_id)
        ∷ ("disclosedClaimNames", claims_json approved_claims)
        ∷ []));
}

abbrev pub rejected_log : (holder_id : ℕ) → VerificationRequest → VerificationSession → AuditLog
rejected_log holder_id r session =
    request_log holder_id session.bank_id "CREDENTIAL_REQUEST_REJECTED" r.id
      (object (("applicationId", uuid r.application_id) ∷ []))

abbrev pub new_presentation : ProofInput → HolderProof → Presentation
new_presentation i p = record {
  id = i.presentation_id;
  request_id = i.request_id;
  credential_id = i.credential_id;
  holder_id = i.holder_id;
  holder_did = p.holder_did;
  disclosed_claims = obj i.disclosed_claims;
  nonce = i.challenge;
  presentation_hash = p.presentation_hash;
  holder_proof = p.holder_proof;
}

-- What the checks before a transaction have found.
pub record Active : Type 0 where
  pub request : VerificationRequest
  pub session : VerificationSession

-- What the checks of `approve` end with.
pub record Approval : Type 0 where
  pub approved_claims : List String
  pub disclosed_claims : Fields

abbrev pub proof_input :
    (presentation_id created_at : ℕ)
    → ApproveVerificationRequestInput
    → Active
    → Approval
    → ProofInput
proof_input presentation_id created_at input a x = record {
  presentation_id = presentation_id;
  request_id = a.request.id;
  credential_id = input.credential_id;
  holder_id = input.holder_id;
  bank_id = a.session.bank_id;
  challenge = a.session.nonce;
  disclosed_claims = x.disclosed_claims;
  created_at = created_at;
}

module _ (prisma : Prisma) (redis : Redis) where
  unfoldable pub approve_body :
      (now : ℕ) (i : ProofInput) (p : HolderProof)
      → VerificationRequest
      → List String
      → Action Db Presentation
  approve_body now i p r approved_claims = do
    d ← gets (λ d. d)
    let transition =
        prisma.update_many (pending_of r.id i.holder_id now)
          (set_request_status VerificationRequestStatus.approved) d.verification_requests
    modify (λ d. record d { verification_requests = transition.1 })
    raise_if (not (transition.0 == 1)) no_longer_pending
    d ← gets (λ d. d)
    presentations ←
        or_raise (prisma.create presentation_clash (new_presentation i p) d.presentations)
          unique_violation
    modify (λ d. record d { presentations = presentations })
    d ← gets (λ d. d)
    logs ←
        or_raise (prisma.create (λ _ _. false) (approved_log i r approved_claims) d.audit_logs)
          unique_violation
    modify (λ d. record d { audit_logs = logs })
    d ← gets (λ d. d)
    logs ←
        or_raise (prisma.create (λ _ _. false) (presentation_log i r approved_claims) d.audit_logs)
          unique_violation
    modify (λ d. record d { audit_logs = logs })
    pure (new_presentation i p)

  unfoldable pub reject_body :
      (now holder_id : ℕ) → VerificationRequest → VerificationSession → Action Db (Unit {0})
  reject_body now holder_id r session = do
    d ← gets (λ d. d)
    let transition =
        prisma.update_many (pending_of r.id holder_id now)
          (set_request_status VerificationRequestStatus.rejected) d.verification_requests
    modify (λ d. record d { verification_requests = transition.1 })
    raise_if (not (transition.0 == 1)) no_longer_pending
    d ← gets (λ d. d)
    logs ←
        or_raise (prisma.create (λ _ _. false) (rejected_log holder_id r session) d.audit_logs)
          unique_violation
    modify (λ d. record d { audit_logs = logs })

  -- The session of a request; without one, the request expires.
  unfoldable pub session_or_expire :
      ℕ → Option VerificationSession → Action (Store redis) VerificationSession
  unfolding expire_request
  session_or_expire id none =
      expire_request prisma redis id >> raise (bad_request "Verification request has expired")
  session_or_expire id (some session) = pure session

  unfoldable pub session_of : ℕ → Action (Store redis) VerificationSession
  unfolding session_or_expire
  session_of id s = session_or_expire id (redis.get_json id s.cache) s

  -- The checks that `approve` and `reject` both start with.
  unfoldable pub find_request : (id holder_id : ℕ) → Action (Store redis) VerificationRequest
  find_request id holder_id = do
    s ← gets (λ s. s)
    or_raise (prisma.find_first (of_holder id holder_id) s.db.verification_requests)
        (not_found "Verification request not found")

  unfoldable pub check_session :
      ℕ → VerificationRequest → VerificationSession → Action (Store redis) Active
  check_session holder_id r session =
      if not (session.holder_id == holder_id) || not (session.application_id == r.application_id)
      then raise (forbidden "Verification session does not belong to this holder")
      else pure (record { request = r; session = session })

  unfoldable pub active_request : (id holder_id now : ℕ) → Action (Store redis) Active
  unfolding find_request session_of ensure_pending_and_active check_session
  active_request id holder_id now = do
    r ← find_request id holder_id
    ensure_pending_and_active prisma redis now r
    session ← session_of r.id
    check_session holder_id r session

  unfoldable pub reject :
      (others : Store redis → Store redis) (now later : ℕ) (request_id holder_id : ℕ)
      → Action (Store redis) ℕ
  unfolding active_request reject_body
  reject others now later request_id holder_id = do
    a ← active_request request_id holder_id now
    modify others
    on_db redis (prisma.transaction (reject_body later holder_id a.request a.session))
    on_cache redis (redis.delete a.request.id)
    pure a.request.id

  -- `decrypt` is `decryptForWallet`, which throws if the stored text was tampered with, and `parse` is
  -- `JSON.parse`; `now`, `created_at` and `later` are the times of the check, of the proof and of the
  -- transaction.
  module _ (crypto : Crypto) (sign_for_user : ℕ → ℕ → Action Db DidSigningResult) (Plain : Type 0)
      (decrypt : WalletCredential → Option Plain) (parse : Plain → Option Json) where
    -- The part of `approve` that reads: the claims, the wallet and the stored credential.
    unfoldable pub prepare_approval :
        ApproveVerificationRequestInput → Active → Action (Store redis) Approval
    prepare_approval input a = do
      approved_claims ←
          of_result (validate_approved_claims input.approved_claims a.request.requested_claims)
      s ← gets (λ s. s)
      wallet_credential ←
          or_raise
            (prisma.find_first (in_wallet input.credential_id input.holder_id)
              s.db.wallet_credentials)
            (not_found "Credential not found in holder wallet")
      decrypted ←
          or_raise (decrypt wallet_credential)
            (server_error "Unsupported state or unable to authenticate data")
      disclosed_claims ← of_result (extract_disclosed_claims (parse decrypted) approved_claims)
      pure (record { approved_claims = approved_claims; disclosed_claims = disclosed_claims })

    -- The part of `approve` that signs and writes.
    unfoldable pub commit_approval :
        (others : Store redis → Store redis) (signing : Db → Db) (later : ℕ)
        → ProofInput
        → VerificationRequest
        → List String
        → Action (Store redis) ApprovedRequest
    unfolding approve_body create_holder_proof
    commit_approval others signing later i request approved_claims = do
      proof ← on_db redis (create_holder_proof prisma crypto signing sign_for_user i)
      modify others
      on_db redis (prisma.transaction (approve_body later i proof request approved_claims))
      pure (record {
        presentation_id = i.presentation_id;
        request_id = request.id;
        disclosed_claims = i.disclosed_claims;
      })

    unfoldable pub approve :
        (others : Store redis → Store redis) (signing : Db → Db)
        (presentation_id now created_at later : ℕ)
        → ApproveVerificationRequestInput
        → Action (Store redis) ApprovedRequest
    unfolding active_request prepare_approval commit_approval
    approve others signing presentation_id now created_at later input = do
      a ← active_request input.request_id input.holder_id now
      x ← prepare_approval input a
      commit_approval others signing later (proof_input presentation_id created_at input a x)
          a.request x.approved_claims
