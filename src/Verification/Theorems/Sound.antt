-- ===== src/Verification/Theorems/Sound.antt =====
-- What a presentation that `verifyPresentation` of src/verification/verification.service.ts accepts has
-- passed, and what is recorded of it.
use ssi_academic_credential.Common.{
  In, count-pos, pure_ok, ℕ, String, false, ◌∷◌, none, some, Result, ok, err, Error, Action, ◌≡◌,
  refl, sym, subst, ap, ◌∙◌, arith, inl, inr, Bool-cases, ◌==◌, ◌>>=◌, ◌>>◌, pure, raise, modify,
  bind_inv, or_raise_then, raise_if_then, raise_if_ok, raise_if, gets, not_found, unprocessable,
  count, map_where, any, any_never, settle, conflict,
}
use ssi_academic_credential.Prisma.{Prisma}
use ssi_academic_credential.Database.{
  Db, obj, Fields, EducationVerificationStatus, VerificationRequestStatus, VerificationResult,
  CredentialSchema, Application, VerificationRequest,
}
use ssi_academic_credential.Requests.Claims.{record_of}
use ssi_academic_credential.Requests.State.{Redis, Store, on_db, on_cache}
use ssi_academic_credential.Requests.Service.{set_request_status}
use ssi_academic_credential.Requests.Claims.Statement.{ClaimOf}
use ssi_academic_credential.Verification.Theorems.Steps.{turns}
use ssi_academic_credential.Verification.{
  Verifier, Context, owned_presentation, validate_request_context,
  validate_request_context_for_bank,
}
use ssi_academic_credential.Verification.Failure.{reason_of}
use ssi_academic_credential.Verification.Proofs.{validate_holder_proof, validate_issuer_proof}
use ssi_academic_credential.Verification.Checks.{
  check_issuer_and_status, check_subject, check_disclosure, validate_credential_checks,
  invalid_disclosed,
}
use ssi_academic_credential.Verification.Outcome.{
  either, VerifiedPresentation, failed_body, expired_meanwhile, approved_of_bank, awaiting_of_bank,
  set_verification, result_clash, verified_result, verified_body, record_success, record_failure,
  check_unverified, verify_presentation,
}
use ssi_academic_credential.Verification.Theorems.Reading.{Read, validate_request_context_ok}
use ssi_academic_credential.Verification.Theorems.Bank.{JobOf, OfBank, approved_row, awaiting_row}
use ssi_academic_credential.Verification.Theorems.Signatures.{
  HolderProved, IssuerProved, validate_holder_proof_ok, validate_issuer_proof_ok,
}
use ssi_academic_credential.Verification.Theorems.Credential.{
  InForce, Described, Disclosed, check_issuer_and_status_ok, check_subject_ok, check_disclosure_ok,
}

module _ (prisma : Prisma) (redis : Redis) (verifier : Verifier) where
  module _ (others : Store redis → Store redis) where
    -- Everything that the checks establish. The presentation was read in the store `s`; each later read
    -- finds the store after one more turn of the other requests: the session, the holder's key, the
    -- wallet, the issuer's key, the registry of trusted issuers and the schema, in this order.
    pub record Checked (id now later : ℕ) (c : Context) (s : Store redis) : Type 0 where
      pub unsigned : Fields
      pub claims : Fields
      pub schema : CredentialSchema
      pub read : Read verifier.sha256 id now c s.db
      pub session : redis.get_json c.request.id (turns others 1 s).cache ≡ some c.session
      pub holder : HolderProved prisma redis verifier c (turns others 2 s).db
      pub issuer :
          IssuerProved prisma redis verifier c unsigned (turns others 3 s).db (turns others 4 s).db
      pub in_force :
          InForce prisma redis verifier later c.credential schema
            (turns others 5 s).db
            (turns others 6 s).db
      pub described : Described prisma redis verifier c schema unsigned claims
      pub disclosed : Disclosed prisma redis verifier (ClaimOf unsigned) c

    pub validate_credential_checks_ok :
        (id now swept later : ℕ) (s : Store redis) (c : Context) (u : Store redis)
        → validate_credential_checks prisma redis verifier others id now swept later s ≡ (ok c, u)
        → Checked id now later c s × (u ≡ turns others 6 s)
    unfolding validate_credential_checks
    validate_credential_checks_ok id now swept later s c u h =
        let k5 = λ (c : Context) (claims : Fields).
          check_disclosure prisma redis verifier c claims >> pure c in
        let k4 = λ (c : Context) (unsigned : Fields) (schema : CredentialSchema).
          check_subject prisma redis verifier c schema unsigned >>= k5 c in
        let k3 = λ (c : Context) (unsigned : Fields).
          modify others
          >> (check_issuer_and_status prisma redis verifier others later c.credential
              >>= k4 c unsigned) in
        let k2 = λ (c : Context).
          modify others >> (validate_issuer_proof prisma redis verifier others c >>= k3 c) in
        let k1 = λ (c : Context).
          modify others >> (validate_holder_proof prisma redis verifier c >> k2 c) in
        let (x, s1, read, h1) =
          bind_inv (validate_request_context prisma redis others verifier id now swept) k1 s c u
            h in
        let (rows, kept, e1) =
          validate_request_context_ok prisma redis others verifier id now swept s x s1 read in
        let (key, s2, holder, h2) =
          bind_inv (validate_holder_proof prisma redis verifier x) (λ _. k2 x) (others s1) c u h1 in
        let (proved, e2) =
          validate_holder_proof_ok prisma redis verifier x (others s1) key s2 holder in
        let (unsigned, s3, issuer, h3) =
          bind_inv (validate_issuer_proof prisma redis verifier others x) (k3 x) (others s2) c u
            h2 in
        let (signed, e3) =
          validate_issuer_proof_ok prisma redis verifier others x (others s2) unsigned s3 issuer in
        let (schema, s4, force, h4) =
          bind_inv (check_issuer_and_status prisma redis verifier others later x.credential)
            (k4 x unsigned) (others s3) c u h3 in
        let (in_force, e4) =
          check_issuer_and_status_ok prisma redis verifier others later x.credential (others s3)
            schema s4 force in
        let (claims, s5, subject, h5) =
          bind_inv (check_subject prisma redis verifier x schema unsigned) (k5 x) s4 c u h4 in
        let (described, e5) =
          check_subject_ok prisma redis verifier x schema unsigned s4 claims s5 subject in
        let (a, s6, disclosure, h6) =
          bind_inv (check_disclosure prisma redis verifier x claims) (λ _. pure x) s5 c u h5 in
        let (disclosed, e6) =
          check_disclosure_ok prisma redis verifier (ClaimOf unsigned) x claims s5 a s6
            described.says disclosure in
        let (same, e7) = pure_ok x c s6 u h6 in
        let to2 : others s1 ≡ turns others 2 s = ap others e1 in
        let to3 : others s2 ≡ turns others 3 s = ap others (e2 ∙ to2) in
        let to5 : others s3 ≡ turns others 5 s = ap others (e3 ∙ ap others to3) in
        subst (λ c. Checked id now later c s × (u ≡ turns others 6 s)) same
          (
            record {
              unsigned = unsigned;
              claims = claims;
              schema = schema;
              read = rows;
              session =
                  subst (λ (z : Store redis). redis.get_json x.request.id z.cache ≡ some x.session)
                    e1 kept;
              holder =
                  subst (λ (z : Store redis). HolderProved prisma redis verifier x z.db) to2 proved;
              issuer =
                  subst
                    (λ (z : Store redis).
                      IssuerProved prisma redis verifier x unsigned z.db (others z).db)
                    to3 signed;
              in_force =
                  subst
                    (λ (z : Store redis).
                      InForce prisma redis verifier later x.credential schema z.db (others z).db)
                    to5 in_force;
              described = described;
              disclosed = disclosed;
            },
            e7 ∙ e6 ∙ e5 ∙ e4 ∙ ap others to5,
          )

    -- What the transaction of a successful verification found and left.
    pub record Recorded (id bank_id : ℕ) (c : Context) (disclosed : Fields) (d t : Db)
        : Type 0 where
      pub request : VerificationRequest
      pub request_stored : In request d.verification_requests
      pub request_id : request.id ≡ c.request.id
      pub request_approved : request.status ≡ VerificationRequestStatus.approved
      pub request_of : OfBank d bank_id request.application_id
      pub application : Application
      pub application_stored : In application d.applications
      pub application_id : application.id ≡ c.request.application_id
      pub application_waits :
          application.education_verification_status ≡ EducationVerificationStatus.pending
      pub application_of : JobOf d bank_id application.job_id
      pub one_request : count (approved_of_bank d c.request.id bank_id) d.verification_requests ≡ 1
      pub requests :
          t.verification_requests
          ≡ map_where
              (approved_of_bank d c.request.id bank_id)
              (set_request_status VerificationRequestStatus.verified)
              d.verification_requests
      pub one_application :
          count (awaiting_of_bank d c.request.application_id bank_id) d.applications ≡ 1
      pub applications :
          t.applications
          ≡ map_where
              (awaiting_of_bank d c.request.application_id bank_id)
              (set_verification EducationVerificationStatus.verified (some (obj disclosed)))
              d.applications
      pub first_result : any (result_clash (verified_result id c)) d.verification_results ≡ false
      pub results : t.verification_results ≡ verified_result id c ∷ d.verification_results

    verified_body_ok :
        (id bank_id actor_id : ℕ) (c : Context) (disclosed : Fields) (d : Db)
        (a : VerificationResult) (t : Db)
        → verified_body prisma id bank_id actor_id c disclosed d ≡ (ok a, t)
        → Recorded id bank_id c disclosed d t
    unfolding verified_body
    verified_body_ok id bank_id actor_id c disclosed d a t h =
        elim (Bool-cases
          (count (approved_of_bank d c.request.id bank_id) d.verification_requests == 1)) [
            | inr e ↦ absurd (let q = simp (prisma.update_many_lem, e) at h in ground arith)
            | inl e ↦
                elim (Bool-cases (
                  count (awaiting_of_bank d c.request.application_id bank_id) d.applications
                  == 1)) [
                    | inr f ↦
                        absurd (let q = simp (prisma.update_many_lem, e, f) at h in ground arith)
                    | inl f ↦
                        elim (Bool-cases
                          (any (result_clash (verified_result id c)) d.verification_results)) [
                            | inl g ↦ absurd (
                                let q =
                                  simp (prisma.update_many_lem, e, f, prisma.create_lem, g) at h in
                                ground arith)
                            | inr g ↦
                                let q =
                                  simp
                                    (prisma.update_many_lem, e, f, prisma.create_lem, g, any_never)
                                    at h in
                                let w = ap (λ x. x.1) q in
                                let (r, r_in, r_is) =
                                  count-pos (approved_of_bank d c.request.id bank_id)
                                    d.verification_requests (ground arith) in
                                let (x, x_in, x_is) =
                                  count-pos (awaiting_of_bank d c.request.application_id bank_id)
                                    d.applications (ground arith) in
                                let (r_id, r_approved, r_of) =
                                  approved_row d c.request.id bank_id r r_is in
                                let (x_id, x_waits, x_of) =
                                  awaiting_row d c.request.application_id bank_id x x_is in
                                subst (Recorded id bank_id c disclosed d) w (record {
                                  request = r;
                                  request_stored = r_in;
                                  request_id = r_id;
                                  request_approved = r_approved;
                                  request_of = r_of;
                                  application = x;
                                  application_stored = x_in;
                                  application_id = x_id;
                                  application_waits = x_waits;
                                  application_of = x_of;
                                  one_request = ground arith;
                                  one_application = ground arith;
                                  requests = refl;
                                  applications = refl;
                                  first_result = g;
                                  results = refl;
                                })
                          ]
                  ]
          ]

    -- A transaction that succeeds is what its function does.
    settled_ok :
        {A : Type 0} (d : Db) (x : Result A × Db) (a : A) (t : Db)
        → settle d x ≡ (ok a, t)
        → x ≡ (ok a, t)
    settled_ok d (ok b, u) a t h = h
    settled_ok d (err e, u) a t h = absurd (cc)

    committed :
        {A : Type 0} (m : Action Db A) (s : Store redis) (a : A) (u : Store redis)
        → on_db redis (prisma.transaction m) s ≡ (ok a, u)
        → m s.db ≡ (ok a, u.db)
    committed m s a u h =
        settled_ok s.db (m s.db) a u.db
          (sym (prisma.transaction_lem m s.db) ∙ ap (λ x. (x.0, x.1.db)) h)

    record_success_ok :
        (id bank_id actor_id : ℕ) (c : Context) (s : Store redis) (out : VerifiedPresentation)
        (t : Store redis)
        → record_success prisma redis others id bank_id actor_id c s ≡ (ok out, t)
        → (out.verification_result_id ≡ id)
          × (record_of (some c.presentation.disclosed_claims) ≡ some out.verified_claims)
          × Recorded id bank_id c out.verified_claims (others s).db t.db
          × (redis.get_json c.request.id t.cache ≡ none)
    unfolding record_success
    record_success_ok id bank_id actor_id c s out t h =
        let out_of : Fields → VerifiedPresentation =
          λ disclosed. record { verification_result_id = id; verified_claims = disclosed } in
        let clear = λ (disclosed : Fields).
          on_cache redis (redis.delete c.request.id) >> pure (out_of disclosed) in
        let body = λ (disclosed : Fields).
          on_db redis (prisma.transaction (verified_body prisma id bank_id actor_id c disclosed)) in
        let write = λ (disclosed : Fields). modify others >> (body disclosed >> clear disclosed) in
        let (disclosed, of_presentation, h1) =
          or_raise_then (record_of (some c.presentation.disclosed_claims)) invalid_disclosed write s
            out t h in
        let (r, u, written, h2) =
          bind_inv (body disclosed) (λ _. clear disclosed) (others s) out t h1 in
        let (same, end) =
          pure_ok (out_of disclosed) out (record u { cache = redis.delete c.request.id u.cache }) t
            h2 in
        let done =
          committed (verified_body prisma id bank_id actor_id c disclosed) (others s) r u written in
        let claims : disclosed ≡ out.verified_claims =
          ap (λ (o : VerifiedPresentation). o.verified_claims) same in
        (
          ap (λ (o : VerifiedPresentation). o.verification_result_id) (sym same),
          of_presentation ∙ ap some claims,
          subst (λ f. Recorded id bank_id c f (others s).db t.db) claims
              (subst (λ (z : Store redis). Recorded id bank_id c disclosed (others s).db z.db)
                (sym end)
                (verified_body_ok id bank_id actor_id c disclosed (others s).db r u.db done)),
          subst (λ (z : Store redis). redis.get_json c.request.id z.cache ≡ none) (sym end)
              (redis.get-delete c.request.id u.cache),
        )

    record_failure_fails :
        (id bank_id actor_id : ℕ) (c : Context) (e : Error) (s : Store redis)
        (out : VerifiedPresentation) (t : Store redis)
        → record_failure prisma redis others id bank_id actor_id c e s ≡ (ok out, t)
        → ⊥
    unfolding record_failure
    record_failure_fails id bank_id actor_id c e s out t h =
        let last = raise {S = Store redis} {A = VerifiedPresentation} in
        let clear = λ (reason : String).
          on_cache redis (redis.delete c.request.id) >> last (unprocessable reason) in
        let write = λ (reason : String).
          on_db redis (prisma.transaction (failed_body prisma id bank_id actor_id c reason))
          >> clear reason in
        let look = λ (reason : String).
          modify others
          >> (gets (λ (s : Store redis). s) >>= λ s.
              raise_if (expired_meanwhile prisma redis others c.request.id s) e
              >> (modify others >> write reason)) in
        let (reason, is_reason, h1) = or_raise_then (reason_of e) e look s out t h in
        let (open_still, h2) =
          raise_if_then (expired_meanwhile prisma redis others c.request.id (others s)) e
            (modify others >> write reason) (others s) out t h1 in
        let (r, u, written, h3) =
          bind_inv
            (on_db redis (prisma.transaction (failed_body prisma id bank_id actor_id c reason)))
            (λ _. clear reason) (others (others s)) out t h2 in
        cc

    either_then :
        {A B : Type 0} (m : Action (Store redis) A) (done : A → Action (Store redis) B)
        (failed : Error → Action (Store redis) B) (s : Store redis) (b : B) (t : Store redis)
        → either m done failed s ≡ (ok b, t)
        → ((e : Error) (u : Store redis) → failed e u ≡ (ok b, t) → ⊥)
        → (a : A) × (u : Store redis) × (m s ≡ (ok a, u)) × (done a u ≡ (ok b, t))
    either_then {A} {B} m done failed s b t h never = go (m s) refl h
      where
        go :
            (x : Result A × Store redis)
            → m s ≡ x
            → elim x.0 as (λ _. Result B × Store redis) [ ok a ↦ done a x.1 | err e ↦ failed e x.1 ]
              ≡ (ok b, t)
            → (a : A) × (u : Store redis) × (m s ≡ (ok a, u)) × (done a u ≡ (ok b, t))
        go (ok a, u) e q = (a, u, e, q)
        go (err e, u) w q = absurd (never e u q)

    for_bank_ok :
        (id bank_id now swept : ℕ) (s : Store redis) (c : Context) (u : Store redis)
        → validate_request_context_for_bank prisma redis others verifier id bank_id now swept s
          ≡ (ok c, u)
        → u ≡ turns others 2 s
    unfolding validate_request_context_for_bank
    for_bank_ok id bank_id now swept s c u h =
        let (_, _, h1) =
          or_raise_then (prisma.find_first (owned_presentation s.db id bank_id) s.db.presentations)
            (not_found "Presentation not found")
            (λ _.
              modify others >> validate_request_context prisma redis others verifier id now swept)
            s c u h in
        let (_, _, end) =
          validate_request_context_ok prisma redis others verifier id now swept (others s) c u h1 in
        end

    check_unverified_ok :
        (id : ℕ) (s : Store redis) (a : Unit {0}) (u : Store redis)
        → check_unverified prisma redis others id s ≡ (ok a, u)
        → u ≡ s
    unfolding check_unverified
    check_unverified_ok id s a u h =
        (raise_if_ok
          (any (λ (r : VerificationResult). r.presentation_id == id) s.db.verification_results)
          (conflict "Presentation has already been verified") s a u h).1

    -- A verification succeeds only after every check, each on the store as the other requests have left it
    -- when the check reads it. The stored request of the presentation is approved and not expired, and
    -- the session agrees with it; the holder's proof is made for the session's nonce and bank and signs
    -- this presentation, and the issuer's signs the credential in the holder's wallet, whose hash is the
    -- stored one, both with a stored and unrevoked key of the stored, active DID in question. The issuer
    -- is in the registry as trusted, the credential is active and not expired, its document names the
    -- parties and the schema, its claims are complete for its own schema, which is active; some claims
    -- are disclosed, each of them requested, and each with the canonical text of what the document says.
    -- In one transaction the one request of this bank that is still approved becomes VERIFIED, the one
    -- pending application takes over the disclosed claims, and the presentation's first result is stored.
    -- The session is gone.
    pub verify_presentation_ok :
        (id presentation_id bank_id actor_id first first_swept second second_swept later : ℕ)
        (s : Store redis) (out : VerifiedPresentation) (t : Store redis)
        → verify_presentation prisma redis others verifier id presentation_id bank_id actor_id first
            first_swept second second_swept later s
          ≡ (ok out, t)
        → (c : Context) × Checked presentation_id second later c (turns others 4 s)
          × (out.verification_result_id ≡ id)
          × (record_of (some c.presentation.disclosed_claims) ≡ some out.verified_claims)
          × Recorded id bank_id c out.verified_claims (turns others 11 s).db t.db
          × (redis.get_json c.request.id t.cache ≡ none)
    unfolding verify_presentation
    verify_presentation_ok id pid bank_id actor_id first first_swept second second_swept later s out
          t h =
        let checks =
          validate_credential_checks prisma redis verifier others pid second second_swept later in
        let failed = λ (c : Context). record_failure prisma redis others id bank_id actor_id c in
        let done = record_success prisma redis others id bank_id actor_id in
        let k2 = λ (c : Context). modify others >> either checks done (failed c) in
        let k1 =
          λ (c : Context). modify others >> (check_unverified prisma redis others pid >> k2 c) in
        let (x, s1, owned_by, h1) =
          bind_inv
            (validate_request_context_for_bank prisma redis others verifier pid bank_id first
              first_swept)
            k1 s out t h in
        let e1 = for_bank_ok pid bank_id first first_swept s x s1 owned_by in
        let (a, s2, fresh, h2) =
          bind_inv (check_unverified prisma redis others pid) (λ _. k2 x) (others s1) out t h1 in
        let e2 = check_unverified_ok pid (others s1) a s2 fresh in
        let (c, u, passed, h3) =
          either_then checks done (failed x) (others s2) out t h2
            (λ e u q. record_failure_fails id bank_id actor_id x e u out t q) in
        let (checked, e3) =
          validate_credential_checks_ok pid second second_swept later (others s2) c u passed in
        let (same_id, same_claims, recorded, gone) =
          record_success_ok id bank_id actor_id c u out t h3 in
        let seen : others s2 ≡ turns others 4 s = ap others (e2 ∙ ap others e1) in
        let end : u ≡ turns others 10 s = e3 ∙ ap (turns others 6) seen in
        (
          c,
          subst (Checked pid second later c) seen checked,
          same_id,
          same_claims,
          subst (λ (z : Store redis). Recorded id bank_id c out.verified_claims (others z).db t.db)
              end recorded,
          gone,
        )
