-- ===== src/Requests/Lifecycle/Writes.antt =====
-- The transactions that create and reject a request, and the write that lets one expire, in
-- src/verification-requests/verification-requests.service.ts: they keep the invariant.
use ssi_academic_credential.Common.{
  ℕ, Bool, true, false, List, ◌∷◌, ok, err, ◌≡◌, refl, inl, inr, arith, count, map_where, any,
  any_never, Bool-cases, ◌==◌, Distinct-map_where, subst, unique_violation, not_found,
}
use ssi_academic_credential.Prisma.{Prisma}
use ssi_academic_credential.Database.{
  Db, Application, EducationVerificationStatus, VerificationRequest, VerificationRequestStatus,
  AuditLog,
}
use ssi_academic_credential.Requests.State.{Redis, VerificationSession}
use ssi_academic_credential.Requests.Service.{
  CreateVerificationRequestInput, create_body, created_log, application_of_bank, pending_of,
  set_request_status, request_clash,
}
use ssi_academic_credential.Requests.Answer.{reject_body, rejected_log, no_longer_pending}
use ssi_academic_credential.Requests.Answered.{
  Answered, granted, reached, Stands-map_where, Explained-map_where, All-Stands, Stands-more,
  request_clash-Fresh,
}
use ssi_academic_credential.Requests.Lifecycle.{pending_only, settled}

-- A change of pending requests to a status that is no approval keeps the invariant, whatever is
-- logged.
pub closed-Answered :
    (p : VerificationRequest → Bool) (st : VerificationRequestStatus) (d : Db)
    (logs : List AuditLog)
    → ((r : VerificationRequest) → p r ≡ true → r.status ≡ VerificationRequestStatus.pending)
    → granted st ≡ false
    → Answered d
    → Answered (record d {
      verification_requests = map_where p (set_request_status st) d.verification_requests;
      audit_logs = logs;
    })
closed-Answered p st d logs only closed v = record {
  keys = Distinct-map_where _ _ _ (λ _. refl) _ v.keys;
  once = v.once;
  approved =
      All-Stands d.verification_requests
        (map_where p (set_request_status st) d.verification_requests)
        (λ k s.
          Stands-map_where p (set_request_status st) reached (λ r u. ground (arith, only r u)) k
            d.verification_requests s)
        d.presentations v.approved;
  explained =
      Explained-map_where p (set_request_status st) d.presentations (λ r u g. absurd (ground arith))
        _ v.explained;
}

module _ (prisma : Prisma) (redis : Redis) where
  module _ (now holder_id : ℕ) (r : VerificationRequest) (session : VerificationSession)
      (d : Db) where
    abbrev rejected : Db
    rejected = record d {
      verification_requests = settled r.id holder_id now VerificationRequestStatus.rejected d;
      audit_logs = rejected_log holder_id r session ∷ d.audit_logs;
    }

    reject_body_overtaken :
        (count (pending_of r.id holder_id now) d.verification_requests == 1) ≡ false
        → (reject_body prisma redis now holder_id r session d).0 ≡ err no_longer_pending
    unfolding reject_body
    reject_body_overtaken e = simp (prisma.update_many_lem, e)

    reject_body_done :
        count (pending_of r.id holder_id now) d.verification_requests ≡ 1
        → reject_body prisma redis now holder_id r session d ≡ (ok tt, rejected)
    unfolding reject_body
    reject_body_done one = simp (prisma.update_many_lem, one, prisma.create_lem, any_never)

    pub reject_body-Answered :
        (a : Unit {0}) (t : Db)
        → reject_body prisma redis now holder_id r session d ≡ (ok a, t)
        → Answered d
        → Answered t
    reject_body-Answered a t h v =
        elim (Bool-cases (count (pending_of r.id holder_id now) d.verification_requests == 1)) [
          | inr e ↦ absurd (let q = reject_body_overtaken e in ground arith)
          | inl e ↦
              let q = reject_body_done (ground arith) in
              let end : rejected ≡ t = ground arith in
              subst Answered end (
                closed-Answered (pending_of r.id holder_id now) VerificationRequestStatus.rejected d
                  _ (λ x u. pending_only x.status (ground arith)) refl v)
        ]

  module _ (input : CreateVerificationRequestInput) (r : VerificationRequest) (d : Db) where
    abbrev of_bank : Application → Bool
    of_bank = application_of_bank d input.application_id input.bank_id

    abbrev created : Db
    created = record d {
      applications =
          map_where of_bank
            (λ a. record a { education_verification_status = EducationVerificationStatus.pending })
            d.applications;
      verification_requests = r ∷ d.verification_requests;
      audit_logs = created_log input r ∷ d.audit_logs;
    }

    create_body_missing :
        (count of_bank d.applications == 1) ≡ false
        → (create_body prisma redis input r d).0 ≡ err (not_found "Application not found")
    unfolding create_body
    create_body_missing e = simp (prisma.update_many_lem, e)

    create_body_clash :
        count of_bank d.applications ≡ 1
        → any (request_clash r) d.verification_requests ≡ true
        → (create_body prisma redis input r d).0 ≡ err unique_violation
    unfolding create_body
    create_body_clash one c = simp (prisma.update_many_lem, one, prisma.create_lem, c)

    create_body_done :
        count of_bank d.applications ≡ 1
        → any (request_clash r) d.verification_requests ≡ false
        → create_body prisma redis input r d ≡ (ok r, created)
    unfolding create_body
    create_body_done one c = simp (prisma.update_many_lem, one, prisma.create_lem, c, any_never)

    pub create_body-Answered :
        granted r.status ≡ false
        → (a : VerificationRequest) (t : Db) → create_body prisma redis input r d ≡ (ok a, t)
        → Answered d
        → Answered t
    create_body-Answered waiting a t h v = elim (Bool-cases (count of_bank d.applications == 1)) [
      | inr e ↦ absurd (let q = create_body_missing e in ground arith)
      | inl e ↦ elim (Bool-cases (any (request_clash r) d.verification_requests)) [
        | inl c ↦ absurd (let q = create_body_clash (ground arith) c in ground arith)
        | inr c ↦
            let q = create_body_done (ground arith) c in
            let end : created ≡ t = ground arith in
            subst Answered end (record {
              keys = (request_clash-Fresh r d.verification_requests c, v.keys);
              once = v.once;
              approved =
                  All-Stands d.verification_requests (r ∷ d.verification_requests)
                    (Stands-more reached r d.verification_requests) d.presentations v.approved;
              explained = ((λ g. absurd (ground arith)), v.explained);
            })
      ]
    ]
