-- ===== src/Verification.antt =====
-- src/verification/verification.service.ts: the verification of a presentation by a bank. This file
-- has what the steps share and `validateRequestContext`. `others` is what other requests do between
-- two reads.
pub mod Proofs
pub mod Checks
pub mod Failure
pub mod Outcome
pub mod Theorems
use ssi_academic_credential.Common.{
  ℕ, String, Bool, true, false, not, ◌&&◌, ◌||◌, List, [], ◌∷◌, Option, none, some, Result, ok, err,
  Error, Action, bad_request, conflict, not_found, server_error, ◌>>=◌, ◌>>◌, pure, raise, raise_if,
  or_raise, gets, modify, ◌==◌, leb, if◌then◌else◌, any,
}
use ssi_academic_credential.Text.{◌===◌}
use ssi_academic_credential.Prisma.{Prisma}
use ssi_academic_credential.Database.{
  Db, Json, str, uuid, key_id, Fields, Job, Application, Credential, Presentation,
  VerificationRequest, VerificationRequestStatus, verification_request_status_eq, WalletCredential,
}
use ssi_academic_credential.Requests.Claims.{is_string}
use ssi_academic_credential.Requests.Proof.{VerificationMethod}
use ssi_academic_credential.Requests.State.{Redis, Store, VerificationSession, on_cache}
use ssi_academic_credential.Requests.Service.{set_request_status, job_of_bank}

-- What the service uses of node:crypto, of the packages and of JavaScript: the canonical text of a
-- value, SHA-256, the bytes to be verified, the check of a signature, decryption, `JSON.parse`, the
-- characters of a JSON text, `Date.parse` and `sort`. An error is what they throw.
pub record Verifier : Type 0 where
  pub canonicalize : Json → Result ℕ
  pub sha256 : ℕ → ℕ
  pub concat : (proof_config document : ℕ) → ℕ
  pub verify : (hash_data : ℕ) → List ℕ → (public_key : ℕ) → Result Bool
  pub decrypt : WalletCredential → Result ℕ
  pub parse : ℕ → Option Json
  pub characters : Json → List ℕ
  pub is_date : Json → Bool
  pub sort : List String → List String

-- A presentation with the rows that it is read with.
pub record Loaded : Type 0 where
  pub presentation : Presentation
  pub request : VerificationRequest
  pub application : Application
  pub job : Job
  pub credential : Credential

pub record Context : Type 0 where
  pub presentation : Presentation
  pub request : VerificationRequest
  pub job : Job
  pub credential : Credential
  pub session : VerificationSession

-- `value === text`.
abbrev pub text_is : String → Option Json → Bool
text_is t (some (str s)) = s === t
text_is t _ = false

-- `value === id` for a value that should be the text of an identifier.
abbrev pub id_is : ℕ → Option Json → Bool
id_is n (some (uuid m)) = m == n
id_is n _ = false

abbrev pub is_text : Option Json → Bool
is_text none = false
is_text (some v) = is_string v

-- A related row that a foreign key names is there.
abbrev pub inconsistent : Error
inconsistent = server_error "Inconsistent query result"

abbrev pub is_consumed : VerificationRequestStatus → Bool
is_consumed VerificationRequestStatus.verified = true
is_consumed VerificationRequestStatus.failed = true
is_consumed VerificationRequestStatus.rejected = true
is_consumed _ = false

abbrev pub is_approved : VerificationRequest → Bool
is_approved r = verification_request_status_eq r.status VerificationRequestStatus.approved

abbrev pub approved_and_expired : (id now : ℕ) → VerificationRequest → Bool
approved_and_expired id now r = r.id == id && is_approved r && leb r.expires_at now

-- `request: { is: { application: { is: { job: { is: { bankId } } } } } }` on a presentation.
abbrev pub request_of_bank : Db → ℕ → VerificationRequest → Bool
request_of_bank d bank_id r =
    any (λ (a : Application). a.id == r.application_id && job_of_bank d bank_id a) d.applications

abbrev pub owned_presentation : Db → (id bank_id : ℕ) → Presentation → Bool
owned_presentation d id bank_id p =
    p.id == id
    && any (λ (r : VerificationRequest). r.id == p.request_id && request_of_bank d bank_id r)
        d.verification_requests

-- The comparisons of the request, its rows and the session, in their order.
abbrev pub check_context :
    (sha256 : ℕ → ℕ)
    → Presentation
    → VerificationRequest
    → Application
    → Job
    → VerificationSession
    → Option Error
check_context sha256 p r a j session =
    if not (session.bank_id == j.bank_id)
    then some (bad_request "Verification session bank mismatch")
    else if not (session.nonce == p.nonce && sha256 p.nonce == r.nonce_hash)
    then some (bad_request "Presentation nonce does not match verification request")
    else if not (
        r.holder_id == p.holder_id
        && a.holder_id == p.holder_id
        && session.holder_id == p.holder_id)
    then some (bad_request "Holder does not match verification request")
    else if not (session.application_id == r.application_id)
    then some (bad_request "Verification session application mismatch")
    else none

abbrev pub raise_some : {S : Type 0} → Option Error → Action S (Unit {0})
raise_some none s = (ok tt, s)
raise_some (some e) s = (err e, s)

module _ (prisma : Prisma) (redis : Redis) where
  unfoldable pub expire_approved : (id now : ℕ) → Action (Store redis) (Unit {0})
  expire_approved id now = do
    s ← gets (λ s. s)
    let expired =
        prisma.update_many (approved_and_expired id now)
          (set_request_status VerificationRequestStatus.expired) (s.db).verification_requests
    modify (λ s. record s { db = record (s.db) { verification_requests = expired.1 } })
    raise_if (not (expired.0 == 1)) (conflict "Verification request is no longer approved")
    on_cache redis (redis.delete id)

  unfoldable pub refuse_expired :
      (now swept : ℕ) → VerificationRequest → Action (Store redis) (Unit {0})
  refuse_expired now swept r =
      if leb r.expires_at now
      then expire_approved r.id swept >> raise (bad_request "Verification request has expired")
      else pure tt

  -- The presentation with its rows, of an approved request.
  unfoldable pub load_presentation : (presentation_id : ℕ) → Action (Store redis) Loaded
  load_presentation presentation_id = do
    s ← gets (λ s. s)
    p ←
        or_raise
          (prisma.find_first (λ (p : Presentation). p.id == presentation_id) (s.db).presentations)
          (not_found "Presentation not found")
    r ←
        or_raise
          (prisma.find_first (λ (r : VerificationRequest). r.id == p.request_id)
            (s.db).verification_requests)
          inconsistent
    a ←
        or_raise
          (prisma.find_first (λ (a : Application). a.id == r.application_id) (s.db).applications)
          inconsistent
    j ← or_raise (prisma.find_first (λ (j : Job). j.id == a.job_id) (s.db).jobs) inconsistent
    c ←
        or_raise
          (prisma.find_first (λ (c : Credential). c.id == p.credential_id) (s.db).credentials)
          inconsistent
    raise_if (is_consumed r.status) (conflict "Verification request has already been consumed")
    raise_if (not (is_approved r)) (conflict "Verification request is not approved")
    pure (record { presentation = p; request = r; application = a; job = j; credential = c })

  -- The session, and the comparisons with the rows.
  unfoldable pub read_session : (sha256 : ℕ → ℕ) → Loaded → Action (Store redis) Context
  read_session sha256 l = do
    s ← gets (λ s. s)
    session ←
        or_raise (redis.get_json (l.request).id s.cache)
          (bad_request "Verification session not found or expired")
    raise_some (check_context sha256 l.presentation l.request l.application l.job session)
    pure (record {
      presentation = l.presentation;
      request = l.request;
      job = l.job;
      credential = l.credential;
      session = session;
    })

  module _ (others : Store redis → Store redis) (verifier : Verifier) where
    unfoldable pub validate_request_context :
        (presentation_id now swept : ℕ) → Action (Store redis) Context
    validate_request_context presentation_id now swept = do
      l ← load_presentation presentation_id
      modify others
      refuse_expired now swept l.request
      read_session verifier.sha256 l

    unfoldable pub validate_request_context_for_bank :
        (presentation_id bank_id now swept : ℕ) → Action (Store redis) Context
    validate_request_context_for_bank presentation_id bank_id now swept = do
      s ← gets (λ s. s)
      or_raise
          (prisma.find_first (owned_presentation s.db presentation_id bank_id) (s.db).presentations)
          (not_found "Presentation not found")
      modify others
      validate_request_context presentation_id now swept
