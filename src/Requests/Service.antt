-- ===== src/Requests/Service.antt =====
-- src/verification-requests/verification-requests.service.ts: the methods that write. `others` is
-- what other requests do to the store between a method's reads and its transaction.
use ssi_academic_credential.Common.{
  ℕ, ◌+◌, ◌*◌, String, Bool, false, not, ◌&&◌, ◌||◌, List, [], ◌∷◌, some, Action, bad_request,
  conflict, not_found, unique_violation, ◌>>=◌, ◌>>◌, pure, raise, raise_if, or_raise, gets, modify,
  of_result, ◌==◌, leb, ltb, if◌then◌else◌, any,
}
use ssi_academic_credential.Prisma.{Prisma}
use ssi_academic_credential.Database.{
  Db, Json, str, uuid, arr, object, items, Job, Application, VerificationRequest,
  VerificationRequestStatus, verification_request_status_eq, EducationVerificationStatus,
  Presentation, AuditLog,
}
use ssi_academic_credential.Requests.Claims.{validate_requested_claims}
use ssi_academic_credential.Requests.State.{Redis, Store, on_db, on_cache, catching}

abbrev pub ttl_seconds : ℕ
ttl_seconds = 300

pub record CreateVerificationRequestInput : Type 0 where
  pub application_id : ℕ
  pub verifier_id : ℕ
  pub bank_id : ℕ
  pub requested_claims : List String

-- `job: { is: { bankId } }` on an application.
abbrev pub job_of_bank : Db → ℕ → Application → Bool
job_of_bank d bank_id a = any (λ (j : Job). j.id == a.job_id && j.bank_id == bank_id) d.jobs

abbrev pub application_of_bank : Db → ℕ → ℕ → Application → Bool
application_of_bank d id bank_id a = a.id == id && job_of_bank d bank_id a

abbrev pub claim_list : List String → List Json
claim_list [] = []
claim_list (c ∷ cs) = str c ∷ claim_list cs

abbrev pub claims_json : List String → Json
claims_json claims = arr (items (claim_list claims))

abbrev pub request_clash : VerificationRequest → VerificationRequest → Bool
request_clash r q = q.id == r.id

-- A presentation's identifier and its request are unique.
abbrev pub presentation_clash : Presentation → Presentation → Bool
presentation_clash p q = q.id == p.id || q.request_id == p.request_id

abbrev pub new_request :
    (id holder_id nonce_hash expires_at : ℕ) → CreateVerificationRequestInput → VerificationRequest
new_request id holder_id nonce_hash expires_at input = record {
  id = id;
  application_id = input.application_id;
  verifier_id = input.verifier_id;
  holder_id = holder_id;
  requested_claims = claims_json input.requested_claims;
  nonce_hash = nonce_hash;
  status = VerificationRequestStatus.pending;
  expires_at = expires_at;
}

abbrev pub request_log :
    (actor_id organization_id : ℕ) → String → (resource_id : ℕ) → Json → AuditLog
request_log actor_id organization_id action resource_id metadata = record {
  actor_id = some actor_id;
  organization_id = some organization_id;
  action = action;
  resource_type = some "VerificationRequest";
  resource_id = some resource_id;
  metadata = some metadata;
}

abbrev pub created_log : CreateVerificationRequestInput → VerificationRequest → AuditLog
created_log input request =
    request_log input.verifier_id input.bank_id "CREDENTIAL_REQUEST_CREATED" request.id (
      object (
        ("applicationId", uuid input.application_id)
        ∷ ("holderId", uuid request.holder_id)
        ∷ ("requestedClaims", claims_json input.requested_claims)
        ∷ []))

abbrev pub set_request_status :
    VerificationRequestStatus → VerificationRequest → VerificationRequest
set_request_status st r = record r { status = st }

-- The `where` of `approve` and `reject`: still this holder's, pending and not expired.
abbrev pub pending_of : (id holder_id now : ℕ) → VerificationRequest → Bool
pending_of id holder_id now r =
    r.id == id
    && r.holder_id == holder_id
    && verification_request_status_eq r.status VerificationRequestStatus.pending
    && ltb now r.expires_at

-- The `where` of `expireRequest`.
abbrev pub still_pending : ℕ → VerificationRequest → Bool
still_pending id r =
    r.id == id && verification_request_status_eq r.status VerificationRequestStatus.pending

abbrev pub of_holder : (id holder_id : ℕ) → VerificationRequest → Bool
of_holder id holder_id r = r.id == id && r.holder_id == holder_id

module _ (prisma : Prisma) (redis : Redis) where
  -- The transaction of `create`.
  unfoldable pub create_body :
      CreateVerificationRequestInput → VerificationRequest → Action Db VerificationRequest
  create_body input request = do
    d ← gets (λ d. d)
    let updated =
        prisma.update_many (application_of_bank d input.application_id input.bank_id)
          (λ a. record a { education_verification_status = EducationVerificationStatus.pending })
          d.applications
    modify (λ d. record d { applications = updated.1 })
    raise_if (not (updated.0 == 1)) (not_found "Application not found")
    requests ←
        or_raise (prisma.create request_clash request d.verification_requests) unique_violation
    modify (λ d. record d { verification_requests = requests })
    d ← gets (λ d. d)
    logs ←
        or_raise (prisma.create (λ _ _. false) (created_log input request) d.audit_logs)
          unique_violation
    modify (λ d. record d { audit_logs = logs })
    pure request

  -- The part of `create` that reads.
  unfoldable pub requestable : CreateVerificationRequestInput → Action (Store redis) Application
  requestable input = do
    s ← gets (λ s. s)
    application ←
        or_raise
          (prisma.find_first (application_of_bank s.db input.application_id input.bank_id)
            s.db.applications)
          (not_found "Application not found")
    job ←
        or_raise (prisma.find_first (λ j. j.id == application.job_id) s.db.jobs)
          (not_found "Application not found")
    of_result (validate_requested_claims input.requested_claims job.required_claims)
    pure application

  -- The part of `create` that writes. `id` and `nonce` are fresh random values, `sha256` the hash of
  -- node:crypto.
  unfoldable pub store_request :
      (sha256 : ℕ → ℕ) (id nonce now : ℕ)
      → CreateVerificationRequestInput
      → Application
      → Action (Store redis) VerificationRequest
  unfolding create_body
  store_request sha256 id nonce now input application = do
    on_cache redis (
        redis.set_json id
          (record {
            application_id = input.application_id;
            holder_id = application.holder_id;
            bank_id = input.bank_id;
            nonce = nonce;
            requested_claims = input.requested_claims;
          })
          ttl_seconds)
    catching
        (on_db redis (
          prisma.transaction (
            create_body input (
              new_request id application.holder_id (sha256 nonce) (now + ttl_seconds * 1000)
                input))))
        (λ s. record s { cache = redis.delete id s.cache })

  unfoldable pub create :
      (others : Store redis → Store redis) (sha256 : ℕ → ℕ) (id nonce now : ℕ)
      → CreateVerificationRequestInput
      → Action (Store redis) VerificationRequest
  unfolding requestable store_request
  create others sha256 id nonce now input = do
    application ← requestable input
    modify others
    store_request sha256 id nonce now input application

  unfoldable pub expire_request : ℕ → Action (Store redis) (Unit {0})
  expire_request id = do
    modify λ s. record s {
      db = record (s.db) {
        verification_requests =
            (prisma.update_many (still_pending id)
              (set_request_status VerificationRequestStatus.expired) s.db.verification_requests).1;
      };
    }
    on_cache redis (redis.delete id)

  unfoldable pub ensure_pending_and_active :
      (now : ℕ) → VerificationRequest → Action (Store redis) (Unit {0})
  unfolding expire_request
  ensure_pending_and_active now r =
      if not (verification_request_status_eq r.status VerificationRequestStatus.pending)
      then raise (conflict "Verification request is no longer pending")
      else if leb r.expires_at now
      then expire_request r.id >> raise (bad_request "Verification request has expired")
      else pure tt
