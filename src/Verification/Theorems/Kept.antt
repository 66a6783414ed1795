-- ===== src/Verification/Theorems/Kept.antt =====
-- The transactions of src/verification/verification.service.ts and the expiry of an approved request
-- keep the requests and the presentations in step.
use ssi_academic_credential.Common.{
  ℕ, String, Bool, true, List, [], ◌∷◌, ok, ◌≡◌, ◌⊎◌, refl, subst, ap, arith, inl, inr, Bool-cases,
  ◌==◌, Distinct-map_where, Yields, count, map_where, any, any_never, if◌then◌else◌,
}
use ssi_academic_credential.Prisma.{Prisma}
use ssi_academic_credential.Database.{
  Db, Fields, Application, VerificationRequest, VerificationRequestStatus,
  verification_request_status_eq, Presentation, VerificationResult, AuditLog,
}
use ssi_academic_credential.Dids.Invariant.{In-map}
use ssi_academic_credential.Requests.Answered.{
  Answered, granted, reached, Stands, Explained, All-Stands,
}
use ssi_academic_credential.Requests.Service.{set_request_status}
use ssi_academic_credential.Verification.{Context}
use ssi_academic_credential.Verification.Failure.{build_failed_verification_checks}
use ssi_academic_credential.Verification.Outcome.{
  approved_of_bank, awaiting_of_bank, result_clash, failed_result, verified_result, failed_body,
  verified_body,
}

approved_granted :
    (st : VerificationRequestStatus)
    → verification_request_status_eq st VerificationRequestStatus.approved ≡ true
    → granted st ≡ true
approved_granted VerificationRequestStatus.approved h = refl
approved_granted VerificationRequestStatus.pending h = absurd (cc)
approved_granted VerificationRequestStatus.rejected h = absurd (cc)
approved_granted VerificationRequestStatus.expired h = absurd (cc)
approved_granted VerificationRequestStatus.verified h = absurd (cc)
approved_granted VerificationRequestStatus.failed h = absurd (cc)

module _ (p : VerificationRequest → Bool) (st : VerificationRequestStatus)
    (only : (r : VerificationRequest) → p r ≡ true → granted r.status ≡ true)
    (on : reached st ≡ true) where
  moved_Stands :
      (k : ℕ) (t : List VerificationRequest)
      → Stands reached k t
      → Stands reached k (map_where p (set_request_status st) t)
  moved_Stands k t (r, i, e, s) = elim (Bool-cases (p r)) [
    | inl u ↦ (
      if p r then set_request_status st r else r,
      In-map p (set_request_status st) t r i,
      rw u e,
      rw u on,
    )
    | inr u ↦ (
      if p r then set_request_status st r else r,
      In-map p (set_request_status st) t r i,
      rw u e,
      rw u s,
    )
  ]

  moved_Explained :
      (ps : List Presentation) (t : List VerificationRequest)
      → Explained t ps
      → Explained (map_where p (set_request_status st) t) ps
  moved_Explained ps [] h = tt
  moved_Explained ps (x ∷ t) h = elim (Bool-cases (p x)) [
    | inl u ↦ rw u (λ g. h.0 (only x u), moved_Explained ps t h.1)
    | inr u ↦ rw u (h.0, moved_Explained ps t h.1)
  ]

  -- A change of requests that have a presentation to a status of such requests keeps the invariant.
  pub moved-Answered :
      (d : Db) (applications : List Application) (results : List VerificationResult)
      (logs : List AuditLog)
      → Answered d
      → Answered (record d {
        verification_requests = map_where p (set_request_status st) d.verification_requests;
        applications = applications;
        verification_results = results;
        audit_logs = logs;
      })
  moved-Answered d applications results logs v = record {
    keys = Distinct-map_where _ _ _ (λ _. refl) _ v.keys;
    once = v.once;
    approved =
        All-Stands d.verification_requests
          (map_where p (set_request_status st) d.verification_requests)
          (λ k s. moved_Stands k d.verification_requests s) d.presentations v.approved;
    explained = moved_Explained d.presentations d.verification_requests v.explained;
  }

module _ (prisma : Prisma) (id bank_id actor_id : ℕ) (c : Context) where
  of_bank_granted :
      (d : Db) (r : VerificationRequest)
      → approved_of_bank d c.request.id bank_id r ≡ true
      → granted r.status ≡ true
  of_bank_granted d r h = approved_granted r.status (ground arith)

  pub failed_body-Answered :
      (reason : String) → Yields Answered (failed_body prisma id bank_id actor_id c reason)
  unfolding failed_body
  failed_body-Answered reason d a t h v =
      let result = failed_result id c reason (build_failed_verification_checks reason) in
      elim (Bool-cases
        (count (approved_of_bank d c.request.id bank_id) d.verification_requests == 1)) [
          | inr e ↦ absurd (let q = simp (prisma.update_many_lem, e) at h in ground arith)
          | inl e ↦
              elim (Bool-cases
                (count (awaiting_of_bank d c.request.application_id bank_id) d.applications == 1)) [
                  | inr f ↦
                      absurd (let q = simp (prisma.update_many_lem, e, f) at h in ground arith)
                  | inl f ↦ elim (Bool-cases (any (result_clash result) d.verification_results)) [
                    | inl g ↦ absurd (
                        let q = simp (prisma.update_many_lem, e, f, prisma.create_lem, g) at h in
                        ground arith)
                    | inr g ↦
                        let q =
                          simp (prisma.update_many_lem, e, f, prisma.create_lem, g, any_never) at
                            h in
                        subst Answered (ap (λ x. x.1) q) (
                          moved-Answered (approved_of_bank d c.request.id bank_id)
                            VerificationRequestStatus.failed (of_bank_granted d) refl d _ _ _ v)
                  ]
                ]
        ]

  pub verified_body-Answered :
      (disclosed : Fields) → Yields Answered (verified_body prisma id bank_id actor_id c disclosed)
  unfolding verified_body
  verified_body-Answered disclosed d a t h v =
      elim (Bool-cases
        (count (approved_of_bank d c.request.id bank_id) d.verification_requests == 1)) [
          | inr e ↦ absurd (let q = simp (prisma.update_many_lem, e) at h in ground arith)
          | inl e ↦
              elim (Bool-cases
                (count (awaiting_of_bank d c.request.application_id bank_id) d.applications == 1)) [
                  | inr f ↦
                      absurd (let q = simp (prisma.update_many_lem, e, f) at h in ground arith)
                  | inl f ↦
                      elim (Bool-cases
                        (any (result_clash (verified_result id c)) d.verification_results)) [
                          | inl g ↦ absurd (
                              let q =
                                simp (prisma.update_many_lem, e, f, prisma.create_lem, g) at h in
                              ground arith)
                          | inr g ↦
                              let q =
                                simp (prisma.update_many_lem, e, f, prisma.create_lem, g, any_never)
                                  at h in
                              subst Answered (ap (λ x. x.1) q) (
                                moved-Answered (approved_of_bank d c.request.id bank_id)
                                  VerificationRequestStatus.verified (of_bank_granted d) refl d _ _
                                  _ v)
                        ]
                ]
        ]

  -- The transaction that records the outcome of a verification, whether it has failed or succeeded, keeps
  -- the requests and the presentations in step: identifiers of requests stay distinct, a request has one
  -- presentation at most, a presentation belongs to a request whose status is approved, verified, failed
  -- or expired, and a request whose status is one of the first three has a presentation.
  pub outcome-Answered :
      (reason : String) (disclosed : Fields) (d : Db) (a : VerificationResult) (t : Db)
      → (failed_body prisma id bank_id actor_id c reason d ≡ (ok a, t))
        ⊎ (verified_body prisma id bank_id actor_id c disclosed d ≡ (ok a, t))
      → Answered d
      → Answered t
  outcome-Answered reason disclosed d a t (inl h) v = failed_body-Answered reason d a t h v
  outcome-Answered reason disclosed d a t (inr h) v = verified_body-Answered disclosed d a t h v
