-- ===== src/Verification/Theorems/Bank.antt =====
-- The rows that the two changes of an outcome match in src/verification/verification.service.ts: a
-- request and an application of the bank.
use ssi_academic_credential.Common.{ℕ, true, ◌&&◌, ◌≡◌, ◌==◌, In}
use ssi_academic_credential.Database.{
  Db, Job, Application, VerificationRequest, VerificationRequestStatus, EducationVerificationStatus,
}
use ssi_academic_credential.Requests.Service.{job_of_bank}
use ssi_academic_credential.Verification.Outcome.{approved_of_bank, awaiting_of_bank}
use ssi_academic_credential.Verification.Theorems.Form.{and_both}
use ssi_academic_credential.Verification.Theorems.Steps.{any-In, equal, approved_lem, awaiting_lem}

-- A stored job of the bank, and an application to such a job.
abbrev pub JobOf : (d : Db) (bank_id id : ℕ) → Type 0
JobOf d bank_id id = (j : Job) × In j d.jobs × (j.id ≡ id) × (j.bank_id ≡ bank_id)

abbrev pub OfBank : (d : Db) (bank_id id : ℕ) → Type 0
OfBank d bank_id id =
    (a : Application) × In a d.applications × (a.id ≡ id) × JobOf d bank_id a.job_id

job_found :
    (d : Db) (bank_id : ℕ) (a : Application)
    → job_of_bank d bank_id a ≡ true
    → JobOf d bank_id a.job_id
job_found d bank_id a h =
    let (j, i, q) = any-In (λ (j : Job). j.id == a.job_id && j.bank_id == bank_id) d.jobs h in
    let (p, w) = and_both _ _ q in (j, i, equal j.id a.job_id p, equal j.bank_id bank_id w)

pub approved_row :
    (d : Db) (id bank_id : ℕ) (r : VerificationRequest)
    → approved_of_bank d id bank_id r ≡ true
    → (r.id ≡ id)
      × (r.status ≡ VerificationRequestStatus.approved)
      × OfBank d bank_id r.application_id
approved_row d id bank_id r h =
    let (h1, own) = and_both _ _ h in
    let (named, approved) = and_both _ _ h1 in
    let (a, i, q) =
      any-In (λ (a : Application). a.id == r.application_id && job_of_bank d bank_id a)
        d.applications own in
    let (p, w) = and_both _ _ q in
    (
      equal r.id id named,
      approved_lem r.status approved,
      (a, i, equal a.id r.application_id p, job_found d bank_id a w),
    )

pub awaiting_row :
    (d : Db) (id bank_id : ℕ) (a : Application)
    → awaiting_of_bank d id bank_id a ≡ true
    → (a.id ≡ id)
      × (a.education_verification_status ≡ EducationVerificationStatus.pending)
      × JobOf d bank_id a.job_id
awaiting_row d id bank_id a h =
    let (waits, h1) = and_both _ _ h in
    let (named, own) = and_both _ _ h1 in
    (
      equal a.id id named,
      awaiting_lem a.education_verification_status waits,
      job_found d bank_id a own,
    )
