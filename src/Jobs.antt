-- ===== src/Jobs.antt =====
-- src/jobs/jobs.service.ts: the methods that write, and the check of a job's claims. A job's
-- `requiredClaims` are stored as they come, not trimmed.
pub mod Claims
use ssi_academic_credential.Common.{
  ℕ, String, Bool, true, false, not, ◌&&◌, ◌||◌, List, [], ◌∷◌, Option, none, some, Result, ok, err,
  Error, Action, bad_request, conflict, not_found, unique_violation, ◌>>=◌, ◌>>◌, pure, raise_if,
  or_raise, gets, modify, of_result, ◌==◌, if◌then◌else◌, any, map, length, count, map_where, All,
  Keeps, Yields, bind-Keeps, Bool-cases, Option-cases, Result-cases, ◌≡◌, refl, arith, inl, inr,
  subst, sym,
}
use ssi_academic_credential.Text.{trim, is_empty, has_duplicates}
use ssi_academic_credential.Prisma.{Prisma}
use ssi_academic_credential.Database.{
  Db, Json, Organization, OrganizationType, organization_type_eq, OrganizationStatus,
  organization_status_eq, Job,
}
use ssi_academic_credential.Requests.Service.{claims_json}

pub record CreateJobInput : Type 0 where
  pub bank_id : ℕ
  pub title : String
  pub description : Option String
  pub required_claims : List String

pub record UpdateJobInput : Type 0 where
  pub title : Option String
  pub description : Option String
  pub required_claims : Option (List String)

unfoldable pub validate_required_claims : List String → Result (Unit {0})
validate_required_claims required_claims =
    let normalized = map trim required_claims in
    if length required_claims == 0
    then err (bad_request "At least one required claim is required")
    else if any is_empty normalized
    then err (bad_request "Required claims cannot contain empty values")
    else if has_duplicates normalized
    then err (bad_request "Required claims cannot contain duplicates")
    else ok tt

abbrev pub validate_if_given : Option (List String) → Result (Unit {0})
validate_if_given none = ok tt
validate_if_given (some required_claims) = validate_required_claims required_claims

abbrev pub new_job : ℕ → CreateJobInput → Job
new_job id input = record {
  id = id;
  bank_id = input.bank_id;
  title = input.title;
  description = input.description;
  required_claims = claims_json input.required_claims;
  status = "OPEN";
}

abbrev pub job_clash : Job → Job → Bool
job_clash j k = k.id == j.id

-- `data` of an update: a field that is `undefined` is left as it is.
abbrev pub given : {A : Type 0} → Option A → A → A
given none a = a
given (some b) a = b

abbrev pub given_text : Option String → Option String → Option String
given_text none a = a
given_text (some b) a = some b

abbrev pub given_claims : Option (List String) → Json → Json
given_claims none a = a
given_claims (some claims) a = claims_json claims

abbrev pub update_job : UpdateJobInput → Job → Job
update_job input j = record j {
  title = given input.title j.title;
  description = given_text input.description j.description;
  required_claims = given_claims input.required_claims j.required_claims;
}

abbrev pub owned_job : (id bank_id : ℕ) → Job → Bool
owned_job id bank_id j = j.id == id && j.bank_id == bank_id

module _ (prisma : Prisma) where
  unfoldable pub check_bank : ℕ → Action Db (Unit {0})
  check_bank bank_id = do
    s ← gets (λ s. s)
    bank ←
        or_raise (prisma.find_first (λ (o : Organization). o.id == bank_id) s.organizations)
          (not_found "Bank organization not found")
    raise_if (not (organization_type_eq bank.type OrganizationType.bank))
        (bad_request "Only bank organizations can own jobs")
    raise_if (not (organization_status_eq bank.status OrganizationStatus.active))
        (conflict "Bank organization is not active")

  unfoldable pub insert_job : Job → Action Db Job
  insert_job j = do
    s ← gets (λ s. s)
    jobs ← or_raise (prisma.create job_clash j s.jobs) unique_violation
    modify (λ s. record s { jobs = jobs })
    pure j

  unfoldable pub create : (others : Db → Db) (id : ℕ) → CreateJobInput → Action Db Job
  unfolding check_bank insert_job
  create others id input = do
    check_bank input.bank_id
    of_result (validate_required_claims input.required_claims)
    modify others
    insert_job (new_job id input)

  unfoldable pub find_job : (id bank_id : ℕ) → Action Db Job
  find_job id bank_id = do
    s ← gets (λ s. s)
    or_raise (prisma.find_first (owned_job id bank_id) s.jobs) (not_found "Job not found")

  unfoldable pub change_job : (id bank_id : ℕ) → UpdateJobInput → Action Db Job
  unfolding find_job
  change_job id bank_id input = do
    s ← gets (λ s. s)
    let result = prisma.update_many (owned_job id bank_id) (update_job input) s.jobs
    modify (λ s. record s { jobs = result.1 })
    raise_if (not (result.0 == 1)) (not_found "Job not found")
    find_job id bank_id

  unfoldable pub update : (others : Db → Db) (id bank_id : ℕ) → UpdateJobInput → Action Db Job
  unfolding find_job change_job
  update others id bank_id input = do
    find_job id bank_id
    of_result (validate_if_given input.required_claims)
    modify others
    change_job id bank_id input
