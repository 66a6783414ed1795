-- ===== src/Requests/Lifecycle.antt =====
-- The transactions of src/verification-requests/verification-requests.service.ts: what each leaves
-- when it succeeds, and what it keeps.
pub mod Writes
pub mod Calls
pub mod Open
pub mod Delivery
pub mod Theorems
use ssi_academic_credential.Common.{
  ℕ, String, Bool, true, false, List, [], ◌∷◌, Option, none, some, Result, ok, err, Action, ◌≡◌,
  ◌≢◌, refl, inl, inr, arith, count, map_where, any, any_never, Bool-cases, ◌==◌, ◌&&◌,
  if◌then◌else◌, unique_violation, Distinct-map_where, subst, not,
}
use ssi_academic_credential.Prisma.{Prisma}
use ssi_academic_credential.Database.{
  Db, VerificationRequest, VerificationRequestStatus, verification_request_status_eq, Presentation,
  AuditLog,
}
use ssi_academic_credential.Requests.Proof.{ProofInput, HolderProof}
use ssi_academic_credential.Requests.State.{Redis, VerificationSession}
use ssi_academic_credential.Requests.Service.{
  CreateVerificationRequestInput, create_body, pending_of, set_request_status, presentation_clash,
  request_clash,
}
use ssi_academic_credential.Requests.Answer.{
  approve_body, reject_body, new_presentation, no_longer_pending, approved_log, presentation_log,
}
use ssi_academic_credential.Requests.Answered.{
  Answered, reached, Stands, Stands-map_where, Stands-of_map_where, Explained-map_where,
  Explained-more, All-Stands, Stands-more, clash-Fresh, request_clash-Fresh, Presented,
}

pub pending_only :
    (st : VerificationRequestStatus)
    → verification_request_status_eq st VerificationRequestStatus.pending ≡ true
    → st ≡ VerificationRequestStatus.pending
pending_only VerificationRequestStatus.pending h = refl
pending_only VerificationRequestStatus.approved h = cc
pending_only VerificationRequestStatus.rejected h = cc
pending_only VerificationRequestStatus.expired h = cc
pending_only VerificationRequestStatus.verified h = cc
pending_only VerificationRequestStatus.failed h = cc

-- The requests after one has been answered.
abbrev pub settled :
    (id holder_id now : ℕ) → VerificationRequestStatus → Db → List VerificationRequest
settled id holder_id now st d =
    map_where (pending_of id holder_id now) (set_request_status st) d.verification_requests

module _ (prisma : Prisma) (redis : Redis) where
  -- What a successful approval leaves.
  pub record Approved (now : ℕ) (i : ProofInput) (p : HolderProof) (r : VerificationRequest)
      (d t : Db) : Type 0 where
    pub one : count (pending_of r.id i.holder_id now) d.verification_requests ≡ 1
    pub new : any (presentation_clash (new_presentation i p)) d.presentations ≡ false
    pub logs : List AuditLog
    pub end :
        record d {
          verification_requests = settled r.id i.holder_id now VerificationRequestStatus.approved d;
          presentations = new_presentation i p ∷ d.presentations;
          audit_logs = logs;
        }
        ≡ t

  module _ (now : ℕ) (i : ProofInput) (p : HolderProof) (r : VerificationRequest) (cs : List String)
      (d : Db) where
    approve_body_overtaken :
        (count (pending_of r.id i.holder_id now) d.verification_requests == 1) ≡ false
        → (approve_body prisma redis now i p r cs d).0 ≡ err no_longer_pending
    unfolding approve_body
    approve_body_overtaken e = simp (prisma.update_many_lem, e)

    approve_body_clash :
        count (pending_of r.id i.holder_id now) d.verification_requests ≡ 1
        → any (presentation_clash (new_presentation i p)) d.presentations ≡ true
        → (approve_body prisma redis now i p r cs d).0 ≡ err unique_violation
    unfolding approve_body
    approve_body_clash one c = simp (prisma.update_many_lem, one, prisma.create_lem, c)

    approve_body_done :
        count (pending_of r.id i.holder_id now) d.verification_requests ≡ 1
        → any (presentation_clash (new_presentation i p)) d.presentations ≡ false
        → approve_body prisma redis now i p r cs d ≡ (
          ok (new_presentation i p),
          record d {
            verification_requests =
                settled r.id i.holder_id now VerificationRequestStatus.approved d;
            presentations = new_presentation i p ∷ d.presentations;
            audit_logs = presentation_log i r cs ∷ approved_log i r cs ∷ d.audit_logs;
          },
        )
    unfolding approve_body
    approve_body_done one c = simp (prisma.update_many_lem, one, prisma.create_lem, c, any_never)

    pub approve_body_ok :
        (a : Presentation) (t : Db)
        → approve_body prisma redis now i p r cs d ≡ (ok a, t)
        → Approved now i p r d t
    approve_body_ok a t h =
        elim (Bool-cases (count (pending_of r.id i.holder_id now) d.verification_requests == 1)) [
          | inr e ↦ absurd (let q = approve_body_overtaken e in ground arith)
          | inl e ↦
              elim (Bool-cases (any (presentation_clash (new_presentation i p)) d.presentations)) [
                | inl c ↦ absurd (let q = approve_body_clash (ground arith) c in ground arith)
                | inr c ↦
                    let q = approve_body_done (ground arith) c in
                    record {
                      one = ground arith;
                      new = c;
                      logs = presentation_log i r cs ∷ approved_log i r cs ∷ d.audit_logs;
                      end = ground arith;
                    }
              ]
        ]

    -- A successful approval keeps the invariant, if the proof is for this request.
    pub approve_body-Answered :
        i.request_id ≡ r.id
        → (a : Presentation) (t : Db) → approve_body prisma redis now i p r cs d ≡ (ok a, t)
        → Answered d
        → Answered t
    approve_body-Answered same a t h v =
        let done = approve_body_ok a t h in
        let new = new_presentation i p in
        let here : Presented r.id (new ∷ d.presentations) = (new, inl refl, same) in
        let keep : (k : ℕ)
            → Stands reached k d.verification_requests
            → Stands reached k (settled r.id i.holder_id now VerificationRequestStatus.approved d) =
          λ k s.
            Stands-map_where (pending_of r.id i.holder_id now)
              (set_request_status VerificationRequestStatus.approved) reached
              (λ x u. ground (arith, pending_only x.status)) k d.verification_requests s in
        subst Answered done.end (record {
          keys = Distinct-map_where _ _ _ (λ _. refl) _ v.keys;
          once = (clash-Fresh new d.presentations done.new, v.once);
          approved = (
            Stands-of_map_where (pending_of r.id i.holder_id now)
                (set_request_status VerificationRequestStatus.approved) reached i.request_id _
                (λ x u. (ground arith, refl)) (omega arith),
            All-Stands _ _ keep d.presentations v.approved,
          );
          explained =
              Explained-map_where (pending_of r.id i.holder_id now)
                (set_request_status VerificationRequestStatus.approved) (new ∷ d.presentations)
                (λ x u g. subst (λ k. Presented k (new ∷ d.presentations)) (ground arith) here) _
                (Explained-more d.presentations new _ v.explained);
        })
