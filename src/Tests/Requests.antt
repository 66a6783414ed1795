-- ===== src/Tests/Requests.antt =====
-- src/verification-requests at concrete inputs: one request of bank 5 for holder 9, with its session.
use ssi_academic_credential.Common.{
  ℕ, String, List, [], ◌∷◌, Option, none, some, ok, Action, ◌≡◌, ◌↔◌, refl, arith, ◌==◌,
  if◌then◌else◌, map,
}
use ssi_academic_credential.Text.{trim}
use ssi_academic_credential.Database.{
  Db, empty_db, Json, str, obj, fields, Fields, DidOwnerType, DidStatus, VerificationRequestStatus,
}
use ssi_academic_credential.Requests.Claims.{
  validate_approved_claims, validate_requested_claims, stored_claims, allowed_claims,
  extract_disclosed_claims, get, put, assign, disclose,
}
use ssi_academic_credential.Requests.Claims.Laws.{Acceptable, approved_iff, requested_iff}
use ssi_academic_credential.Requests.Claims.Disclosure.{Entry, disclosed_exactly}
use ssi_academic_credential.Requests.Proof.{
  Crypto, DidSigningResult, ProofInput, create_holder_proof,
}
use ssi_academic_credential.Requests.State.{Redis, Store, VerificationSession}
use ssi_academic_credential.Requests.Service.{claims_json, ensure_pending_and_active}
use ssi_academic_credential.Requests.Answer.{
  ApproveVerificationRequestInput, ApprovedRequest, approve, active_request, find_request,
  session_of, session_or_expire, check_session, prepare_approval, commit_approval, approve_body,
}
use ssi_academic_credential.Requests.Answered.{Answered}
use ssi_academic_credential.Requests.Lifecycle.Theorems.{approves, after, after-Answered}
use ssi_academic_credential.Requests.Lifecycle.Delivery.{Delivery, approve_ok}
use ssi_academic_credential.Tests.Memory.{memory}

abbrev pub cache : Redis
cache = record {
  Cache = ℕ → Option VerificationSession;
  set_json = λ k v ttl c j. if j == k then some v else c j;
  get_json = λ k c. c k;
  delete = λ k c j. if j == k then none else c j;
  get-set = λ k v ttl c. ground arith;
  get-delete = λ k c. ground arith;
}

abbrev crypto : Crypto
crypto = record { canonical_hash = λ j. some 11; hash_data = λ a b. 12; multibase = λ n. some n }

abbrev sign : ℕ → ℕ → Action Db DidSigningResult
sign holder_id hash d =
    (ok (record { method = record { did = 90; key_version = 1 }; signature = 77 }), d)

abbrev same_db : Db → Db
same_db d = d

abbrev pub same_store : Store cache → Store cache
same_store s = s

abbrev credential : Fields
credential =
    fields
      (("credentialSubject", obj (fields (("degree", str "BSc") ∷ ("cgpa", str "3.9") ∷ []))) ∷ [])

abbrev start : Store cache
start = record {
  db = record empty_db {
    dids =
        record {
          id = 1;
          did = 90;
          owner_type = DidOwnerType.user;
          owner_id = 9;
          current_key_version = 1;
          status = DidStatus.active;
        }
        ∷ [];
    wallet_credentials =
        record {
          id = 2;
          holder_id = 9;
          credential_id = 7;
          ciphertext = 1;
          iv = 1;
          auth_tag = 1;
          encryption_key_id = none;
        }
        ∷ [];
    verification_requests =
        record {
          id = 10;
          application_id = 20;
          verifier_id = 30;
          holder_id = 9;
          requested_claims = claims_json ("degree" ∷ []);
          nonce_hash = 40;
          status = VerificationRequestStatus.pending;
          expires_at = 1000;
        }
        ∷ [];
  };
  cache = λ k.
      if k == 10
      then some (record {
        application_id = 20;
        holder_id = 9;
        bank_id = 5;
        nonce = 41;
        requested_claims = "degree" ∷ [];
      })
      else none;
}

abbrev input : ApproveVerificationRequestInput
input = record {
  request_id = 10;
  holder_id = 9;
  credential_id = 7;
  approved_claims = " degree" ∷ [];
}

abbrev out : ApprovedRequest
out = record {
  presentation_id = 60;
  request_id = 10;
  disclosed_claims = fields (("degree", str "BSc") ∷ []);
}

start-Answered : Answered start.db
start-Answered = record {
  keys = (tt, tt);
  once = tt;
  approved = tt;
  explained = ((λ e. absurd (cc)), tt);
}

approved_iff_example :
    (validate_approved_claims (" degree" ∷ []) (claims_json ("degree" ∷ [])) ≡ ok ("degree" ∷ []))
    ↔ ((("degree" ∷ []) ≡ map trim (" degree" ∷ []))
        × ((allowed : List String) × (stored_claims (claims_json ("degree" ∷ [])) ≡ some allowed)
            × Acceptable allowed ("degree" ∷ [])))
approved_iff_example = approved_iff (" degree" ∷ []) (claims_json ("degree" ∷ [])) ("degree" ∷ [])

requested_iff_example :
    (validate_requested_claims (" degree" ∷ []) (claims_json ("degree" ∷ [])) ≡ ok tt) ↔ (
      (allowed : List String) × (allowed_claims (claims_json ("degree" ∷ [])) ≡ some allowed)
      × Acceptable allowed (map trim (" degree" ∷ [])))
requested_iff_example = requested_iff (" degree" ∷ []) (claims_json ("degree" ∷ []))

disclosed_exactly_example :
    Entry credential ("degree" ∷ []) "degree" (get "degree" (fields (("degree", str "BSc") ∷ [])))
unfolding extract_disclosed_claims get put assign disclose
disclosed_exactly_example =
    disclosed_exactly credential ("degree" ∷ []) (fields (("degree", str "BSc") ∷ [])) "degree" refl

abbrev proof_of : ProofInput
proof_of = record {
  presentation_id = 60;
  request_id = 10;
  credential_id = 7;
  holder_id = 9;
  bank_id = 5;
  challenge = 41;
  disclosed_claims = fields (("degree", str "BSc") ∷ []);
  created_at = 500;
}

approve_ok_example :
    Delivery memory cache crypto sign Json
      (λ w. some (obj credential))
      (λ j. some j)
      same_store
      same_db
      60
      500
      500
      500
      input
      start
      out
      (after memory cache
        (λ n. n)
        crypto
        sign
        Json
        (λ w. some (obj credential))
        (λ j. some j)
        same_store
        same_db
        (approves 60 500 500 500 input)
        start)
unfolding approve active_request find_request session_of session_or_expire check_session
    ensure_pending_and_active prepare_approval commit_approval approve_body create_holder_proof
    validate_approved_claims extract_disclosed_claims disclose get put assign trim
approve_ok_example =
    approve_ok memory cache crypto sign Json (λ w. some (obj credential)) (λ j. some j) same_store
      same_db 60 500 500 500 input start out
      (after memory cache (λ n. n) crypto sign Json (λ w. some (obj credential)) (λ j. some j)
        same_store same_db (approves 60 500 500 500 input) start)
      refl

after-Answered_example :
    Answered
      (after memory cache
        (λ n. n)
        crypto
        sign
        Json
        (λ w. some (obj credential))
        (λ j. some j)
        same_store
        same_db
        (approves 60 500 500 500 input)
        start).db
after-Answered_example =
    after-Answered memory cache (λ n. n) crypto sign Json (λ w. some (obj credential)) (λ j. some j)
      same_store same_db (λ s v. v) (λ d v. v) (λ holder_id hash d v. v)
      (approves 60 500 500 500 input) start start-Answered
