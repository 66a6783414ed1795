-- ===== src/Requests/Lifecycle/Calls.antt =====
-- The methods of src/verification-requests/verification-requests.service.ts that write, as calls.
use ssi_academic_credential.Common.{
  ℕ, String, List, Option, Result, Action, ◌≡◌, refl, ◌>>=◌, ◌>>◌, pure, Keeps, Yields, bind-Keeps,
  or_raise-Keeps, settle-Keeps, raise_after-Keeps, Result-cases, modify, ◌||◌, ◌==◌, ◌+◌, ◌*◌,
  subst, sym, not, leb, Bool-cases, inl, inr, ok, err, none, some, bad_request, Option-cases, arith,
}
use ssi_academic_credential.Prisma.{Prisma}
use ssi_academic_credential.Database.{
  Db, Application, VerificationRequest, VerificationRequestStatus, WalletCredential, Json,
  verification_request_status_eq,
}
use ssi_academic_credential.Requests.Proof.{
  Crypto, DidSigningResult, ProofInput, create_holder_proof, create_holder_proof-Keeps,
}
use ssi_academic_credential.Requests.State.{
  Redis, Store, VerificationSession, on_db, on_cache, catching,
}
use ssi_academic_credential.Requests.Service.{
  CreateVerificationRequestInput, create, expire_request, ensure_pending_and_active, still_pending,
  set_request_status, new_request, create_body, requestable, store_request, ttl_seconds,
  application_of_bank,
}
use ssi_academic_credential.Requests.Answer.{
  ApproveVerificationRequestInput, approve, reject, Active, Approval, proof_input, ApprovedRequest,
  in_wallet, prepare_approval, commit_approval, active_request, find_request, check_session,
  session_of, session_or_expire, approve_body, reject_body,
}
use ssi_academic_credential.Requests.Claims.{
  validate_requested_claims, validate_approved_claims, extract_disclosed_claims,
}
use ssi_academic_credential.Requests.Answered.{Answered}
use ssi_academic_credential.Requests.Lifecycle.{approve_body-Answered, pending_only}
use ssi_academic_credential.Requests.Lifecycle.Writes.{
  closed-Answered, reject_body-Answered, create_body-Answered,
}

module _ (prisma : Prisma) (redis : Redis) where
  abbrev pub Sound : Store redis → Type 0
  Sound s = Answered s.db

  abbrev pub KeepsSound : {A : Type 0} → Action (Store redis) A → Type 0
  KeepsSound m = Keeps Sound m

  transaction-Sound :
      {A : Type 0} (m : Action Db A)
      → Yields Answered m
      → KeepsSound (on_db redis (prisma.transaction m))
  transaction-Sound m y s v =
      subst (λ x. Answered x.1) (sym (prisma.transaction_lem m s.db))
        (settle-Keeps Answered m y s.db v)

  expire_request-Sound : (id : ℕ) → KeepsSound (expire_request prisma redis id)
  unfolding expire_request
  expire_request-Sound id s v =
      subst (λ x. Answered (record (s.db) { verification_requests = x.1 }))
        (sym (
          prisma.update_many_lem (still_pending id)
            (set_request_status VerificationRequestStatus.expired) s.db.verification_requests))
        (closed-Answered (still_pending id) VerificationRequestStatus.expired s.db s.db.audit_logs
          (λ x u. pending_only x.status (ground arith)) refl v)

  session_or_expire-Sound :
      (id : ℕ) (o : Option VerificationSession) → KeepsSound (session_or_expire prisma redis id o)
  unfolding session_or_expire
  session_or_expire-Sound id none s v =
      raise_after-Keeps Sound VerificationSession (expire_request prisma redis id)
        (bad_request "Verification request has expired") (expire_request-Sound id) s v
  session_or_expire-Sound id (some x) s v = v

  session_of-Sound : (id : ℕ) → KeepsSound (session_of prisma redis id)
  unfolding session_of
  session_of-Sound id s v = session_or_expire-Sound id (redis.get_json id s.cache) s v

  ensure-Sound :
      (now : ℕ) (r : VerificationRequest)
      → KeepsSound (ensure_pending_and_active prisma redis now r)
  unfolding ensure_pending_and_active
  ensure-Sound now r s v =
      elim (Bool-cases
        (verification_request_status_eq r.status VerificationRequestStatus.pending)) [
          | inr e ↦ rw e v
          | inl e ↦ elim (Bool-cases (leb r.expires_at now)) [
            | inl q ↦
                rw (e, q)
                  (raise_after-Keeps Sound (Unit {0}) (expire_request prisma redis r.id)
                    (bad_request "Verification request has expired") (expire_request-Sound r.id) s
                    v)
            | inr q ↦ rw (e, q) v
          ]
        ]

  find_request-Sound : (id holder_id : ℕ) → KeepsSound (find_request prisma redis id holder_id)
  unfolding find_request
  find_request-Sound id holder_id s v = or_raise-Keeps Sound _ _ s v

  check_session-Sound :
      (holder_id : ℕ) (r : VerificationRequest) (session : VerificationSession)
      → KeepsSound (check_session prisma redis holder_id r session)
  unfolding check_session
  check_session-Sound holder_id r session s v =
      elim (Bool-cases (
        not (session.holder_id == holder_id) || not (session.application_id == r.application_id))) [
          | inl e ↦ rw e v
          | inr e ↦ rw e v
        ]

  active_request-Sound :
      (id holder_id now : ℕ) → KeepsSound (active_request prisma redis id holder_id now)
  unfolding active_request
  active_request-Sound id holder_id now =
      bind-Keeps Sound (find_request prisma redis id holder_id)
        (λ r.
          ensure_pending_and_active prisma redis now r
          >> (session_of prisma redis r.id >>= check_session prisma redis holder_id r))
        (find_request-Sound id holder_id)
        (λ r.
          bind-Keeps Sound (ensure_pending_and_active prisma redis now r)
            (λ _. session_of prisma redis r.id >>= check_session prisma redis holder_id r)
            (ensure-Sound now r)
            (λ _.
              bind-Keeps Sound (session_of prisma redis r.id)
                (check_session prisma redis holder_id r) (session_of-Sound r.id)
                (check_session-Sound holder_id r)))

  catching-Sound :
      {A : Type 0} (m : Action (Store redis) A) (f : Store redis → Store redis)
      → KeepsSound m
      → ((s : Store redis) → Sound s → Sound (f s))
      → KeepsSound (catching m f)
  catching-Sound {A} m f hm hf s v = go (m s) (hm s v)
    where
      go :
          (x : Result A × Store redis)
          → Sound x.1
          → Sound
              (elim x.0 as (λ _. Result A × Store redis) [
                | ok a ↦ (ok a, x.1)
                | err e ↦ (err e, f x.1)
              ]).1
      go (ok a, t) w = w
      go (err e, t) w = hf t w

  store_request-Sound :
      (sha256 : ℕ → ℕ) (id nonce now : ℕ) (input : CreateVerificationRequestInput) (a : Application)
      → KeepsSound (store_request prisma redis sha256 id nonce now input a)
  unfolding store_request
  store_request-Sound sha256 id nonce now input a s v =
      catching-Sound
        (on_db redis (
          prisma.transaction (
            create_body prisma redis input
              (new_request id a.holder_id (sha256 nonce) (now + ttl_seconds * 1000) input))))
        (λ s. record s { cache = redis.delete id s.cache })
        (transaction-Sound _
          (λ d x t h w. create_body-Answered prisma redis input _ d refl x t h w))
        (λ t w. w) _ v

  module _ (others : Store redis → Store redis)
      (others-Sound : (s : Store redis) → Sound s → Sound (others s)) where
    pub reject-Sound :
        (now later request_id holder_id : ℕ)
        → KeepsSound (reject prisma redis others now later request_id holder_id)
    unfolding reject
    reject-Sound now later request_id holder_id =
        bind-Keeps Sound (active_request prisma redis request_id holder_id now)
          (λ a.
            modify others
            >> (on_db redis (
                  prisma.transaction (reject_body prisma redis later holder_id a.request a.session))
                >> (on_cache redis (redis.delete a.request.id) >> pure a.request.id)))
          (active_request-Sound request_id holder_id now)
          (λ a s v.
            bind-Keeps Sound
              (on_db redis
                (prisma.transaction (reject_body prisma redis later holder_id a.request a.session)))
              (λ _. on_cache redis (redis.delete a.request.id) >> pure a.request.id)
              (transaction-Sound _ (λ d x t h w.
                reject_body-Answered prisma redis later holder_id a.request a.session d x t h w))
              (λ _ t w. w) (others s) (others-Sound s v))

    requestable-reads :
        (input : CreateVerificationRequestInput) (s : Store redis)
        → (requestable prisma redis input s).1 ≡ s
    unfolding requestable
    requestable-reads input s =
        elim (Option-cases (
          prisma.find_first (application_of_bank s.db input.application_id input.bank_id)
            s.db.applications)) [
              | inl e ↦ ground arith
              | inr (a, e) ↦
                  elim (Option-cases (prisma.find_first (λ j. j.id == a.job_id) s.db.jobs)) [
                    | inl q ↦ ground arith
                    | inr (j, q) ↦
                        elim (Result-cases
                          (validate_requested_claims input.requested_claims j.required_claims)) [
                            | inl (x, u) ↦ ground arith
                            | inr (x, u) ↦ ground arith
                          ]
                  ]
            ]

    pub create-Sound :
        (sha256 : ℕ → ℕ) (id nonce now : ℕ) (input : CreateVerificationRequestInput)
        → KeepsSound (create prisma redis others sha256 id nonce now input)
    unfolding create
    create-Sound sha256 id nonce now input =
        bind-Keeps Sound (requestable prisma redis input)
          (λ a. modify others >> store_request prisma redis sha256 id nonce now input a)
          (λ s v. subst Sound (sym (requestable-reads input s)) v)
          (λ a s v. store_request-Sound sha256 id nonce now input a (others s) (others-Sound s v))

    module _ (crypto : Crypto) (sign_for_user : ℕ → ℕ → Action Db DidSigningResult) (Plain : Type 0)
        (decrypt : WalletCredential → Option Plain) (parse : Plain → Option Json)
        (signing : Db → Db) (signing-Answered : (d : Db) → Answered d → Answered (signing d))
        (sign-Answered : (holder_id hash : ℕ) → Keeps Answered (sign_for_user holder_id hash)) where
      prepare_approval-reads :
          (input : ApproveVerificationRequestInput) (a : Active) (s : Store redis)
          → (prepare_approval prisma redis crypto sign_for_user Plain decrypt parse input a s).1 ≡ s
      unfolding prepare_approval
      prepare_approval-reads input a s =
          elim (Result-cases
            (validate_approved_claims input.approved_claims a.request.requested_claims)) [
              | inr (x, e) ↦ rw e refl
              | inl (claims, e) ↦
                  elim (Option-cases (
                    prisma.find_first (in_wallet input.credential_id input.holder_id)
                      s.db.wallet_credentials)) [
                        | inl q ↦ rw (e, q) refl
                        | inr (w, q) ↦ elim (Option-cases (decrypt w)) [
                          | inl u ↦ rw (e, q, u) refl
                          | inr (plain, u) ↦
                              elim (Result-cases (extract_disclosed_claims (parse plain) claims)) [
                                | inl (fs, z) ↦ rw (e, q, u, z) refl
                                | inr (x, z) ↦ rw (e, q, u, z) refl
                              ]
                        ]
                      ]
            ]

      commit_approval-Sound :
          (later : ℕ) (i : ProofInput) (r : VerificationRequest) (claims : List String)
          → i.request_id ≡ r.id
          → KeepsSound (
              commit_approval prisma redis crypto sign_for_user Plain decrypt parse others signing
                later i r claims)
      unfolding commit_approval
      commit_approval-Sound later i r claims same =
          let out : ApprovedRequest = record {
            presentation_id = i.presentation_id;
            request_id = r.id;
            disclosed_claims = i.disclosed_claims;
          } in
          bind-Keeps Sound (on_db redis (create_holder_proof prisma crypto signing sign_for_user i))
            (λ p.
              modify others
              >> (on_db redis (prisma.transaction (approve_body prisma redis later i p r claims))
                  >> pure out))
            (λ s v.
              create_holder_proof-Keeps prisma crypto signing sign_for_user Answered
                signing-Answered sign-Answered i s.db v)
            (λ p s v.
              bind-Keeps Sound
                (on_db redis (prisma.transaction (approve_body prisma redis later i p r claims)))
                (λ _. pure out)
                (transaction-Sound _ (λ d a t h w.
                  approve_body-Answered prisma redis later i p r claims d same a t h w))
                (λ _ t w. w) (others s) (others-Sound s v))

      pub approve-Sound :
          (presentation_id now created_at later : ℕ) (input : ApproveVerificationRequestInput)
          → KeepsSound (
              approve prisma redis crypto sign_for_user Plain decrypt parse others signing
                presentation_id now created_at later input)
      unfolding approve
      approve-Sound presentation_id now created_at later input =
          let commit : Active → Approval → Action (Store redis) ApprovedRequest = λ a x.
            commit_approval prisma redis crypto sign_for_user Plain decrypt parse others signing
              later (proof_input presentation_id created_at input a x) a.request
              x.approved_claims in
          bind-Keeps Sound (active_request prisma redis input.request_id input.holder_id now)
            (λ a.
              prepare_approval prisma redis crypto sign_for_user Plain decrypt parse input a
              >>= commit a)
            (active_request-Sound input.request_id input.holder_id now)
            (λ a.
              bind-Keeps Sound
                (prepare_approval prisma redis crypto sign_for_user Plain decrypt parse input a)
                (commit a) (λ s v. subst Sound (sym (prepare_approval-reads input a s)) v)
                (λ x.
                  commit_approval-Sound later (proof_input presentation_id created_at input a x)
                    a.request x.approved_claims refl))
