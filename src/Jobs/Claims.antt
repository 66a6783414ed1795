-- ===== src/Jobs/Claims.antt =====
-- The claims of the stored jobs, after any call of src/jobs/jobs.service.ts.
use ssi_academic_credential.Common.{
  ℕ, String, Bool, List, [], ◌∷◌, Result, ok, err, Action, ◌>>◌, modify, of_result, ◌==◌, any,
  count, map_where, All, Keeps, bind-Keeps, Bool-cases, Option-cases, ◌≡◌, refl, arith, inl, inr,
  subst, sym, ◌≢◌, map, length, true, false,
}
use ssi_academic_credential.Text.{trim, is_empty}
use ssi_academic_credential.Requests.Claims.Laws.{Distinct, duplicates-Distinct, blank-All}
use ssi_academic_credential.Prisma.{Prisma}
use ssi_academic_credential.Database.{
  Db, Organization, OrganizationType, organization_type_eq, OrganizationStatus,
  organization_status_eq, Job,
}
use ssi_academic_credential.Requests.Service.{claims_json}
use ssi_academic_credential.Jobs.{
  CreateJobInput, UpdateJobInput, validate_required_claims, validate_if_given, new_job, job_clash,
  update_job, owned_job, check_bank, insert_job, create, find_job, change_job, update,
}

-- A list of claims that a job may ask for: there is one, none is empty and no two are equal when
-- trimmed.
pub record Proper (claims : List String) : Type 0 where
  pub some_claim : claims ≢ []
  pub no_blank : All (λ c. c ≢ "") (map trim claims)
  pub distinct : Distinct (map trim claims)

full_lem : (ts : List String) → (length ts == 0) ≡ false → ts ≢ []
full_lem [] h = absurd (ground arith)
full_lem (t ∷ ts) h = λ e. absurd (cc)

nonempty_text : (c : String) → is_empty c ≡ false → c ≢ ""
nonempty_text String.[] h = absurd (cc)
nonempty_text (String.◌∷◌ c s) h =
    λ e. let q : true ≡ false = subst (λ c. is_empty c ≡ false) e h in absurd (cc)

nonempty_texts : (ts : List String) → All (λ c. is_empty c ≡ false) ts → All (λ c. c ≢ "") ts
nonempty_texts [] h = tt
nonempty_texts (t ∷ ts) h = (nonempty_text t h.0, nonempty_texts ts h.1)

validate_required_claims-Proper :
    (claims : List String) (a : Unit {0}) → validate_required_claims claims ≡ ok a → Proper claims
unfolding validate_required_claims
validate_required_claims-Proper claims a h = record {
  some_claim = full_lem claims (ground arith);
  no_blank = nonempty_texts (map trim claims) (blank-All (map trim claims) (ground arith));
  distinct = duplicates-Distinct (map trim claims) (ground arith);
}

-- The claims of a stored job are a list of texts that a job may ask for.
abbrev pub WellFormed : Job → Type 0
WellFormed j = (claims : List String) × (j.required_claims ≡ claims_json claims) × Proper claims

abbrev pub Jobs : Db → Type 0
Jobs s = All WellFormed s.jobs

update_job-WellFormed :
    (input : UpdateJobInput) (a : Unit {0}) (p : Job → Bool) (t : List Job)
    → validate_if_given input.required_claims ≡ ok a
    → All WellFormed t
    → All WellFormed (map_where p (update_job input) t)
update_job-WellFormed input a p [] h v = tt
update_job-WellFormed input a p (j ∷ t) h v = elim (Bool-cases (p j)) [
  | inr e ↦ rw e (v.0, update_job-WellFormed input a p t h v.1)
  | inl e ↦ rw e (elim (Option-cases input.required_claims) [
    | inl n ↦
        let (claims, stored, valid) = v.0 in
        ((claims, ground arith, valid), update_job-WellFormed input a p t h v.1)
    | inr (claims, n) ↦ (
      (claims, ground arith, validate_required_claims-Proper claims a (ground arith)),
      update_job-WellFormed input a p t h v.1,
    )
  ])
]

module _ (prisma : Prisma) where
  insert_job-Jobs : (j : Job) → WellFormed j → Keeps Jobs (insert_job prisma j)
  unfolding insert_job
  insert_job-Jobs j w s v = elim (Bool-cases (any (job_clash j) s.jobs)) [
    | inl e ↦ simp (prisma.create_lem, e) v
    | inr e ↦ simp (prisma.create_lem, e) (w, v)
  ]

  find_job-reads : (id bank_id : ℕ) (s : Db) → (find_job prisma id bank_id s).1 ≡ s
  unfolding find_job
  find_job-reads id bank_id s =
      elim (Option-cases (prisma.find_first (owned_job id bank_id) s.jobs)) [
        | inl e ↦ ground arith
        | inr (j, e) ↦ ground arith
      ]

  change_job-Jobs :
      (id bank_id : ℕ) (input : UpdateJobInput) (a : Unit {0})
      → validate_if_given input.required_claims ≡ ok a
      → Keeps Jobs (change_job prisma id bank_id input)
  unfolding change_job find_job
  change_job-Jobs id bank_id input a valid s v =
      let changed = map_where (owned_job id bank_id) (update_job input) s.jobs in
      let kept : All WellFormed changed =
        update_job-WellFormed input a (owned_job id bank_id) s.jobs valid v in
      elim (Bool-cases (count (owned_job id bank_id) s.jobs == 1)) [
        | inr e ↦ simp (prisma.update_many_lem, e) kept
        | inl e ↦ elim (Option-cases (prisma.find_first (owned_job id bank_id) changed)) [
          | inl q ↦ simp (prisma.update_many_lem, e, q) kept
          | inr (j, q) ↦ simp (prisma.update_many_lem, e, q) kept
        ]
      ]

  check_bank-reads : (bank_id : ℕ) (s : Db) → (check_bank prisma bank_id s).1 ≡ s
  unfolding check_bank
  check_bank-reads bank_id s =
      elim (Option-cases
        (prisma.find_first (λ (o : Organization). o.id == bank_id) s.organizations)) [
          | inl e ↦ ground arith
          | inr (o, e) ↦ elim (Bool-cases (organization_type_eq o.type OrganizationType.bank)) [
            | inr t ↦ ground arith
            | inl t ↦
                elim (Bool-cases (organization_status_eq o.status OrganizationStatus.active)) [
                  | inl q ↦ ground arith
                  | inr q ↦ ground arith
                ]
          ]
        ]

  of_result-Keeps :
      {A B : Type 0} (r : Result A) (m : Action Db B)
      → ((a : A) → r ≡ ok a → Keeps Jobs m)
      → Keeps Jobs (of_result r >> m)
  of_result-Keeps (ok a) m k s v = k a refl s v
  of_result-Keeps (err e) m k s v = v

  module _ (others : Db → Db) (others-keep : (s : Db) → Jobs s → Jobs (others s)) where
    create-Jobs : (id : ℕ) (input : CreateJobInput) → Keeps Jobs (create prisma others id input)
    unfolding create
    create-Jobs id input =
        bind-Keeps Jobs (check_bank prisma input.bank_id)
          (λ _.
            of_result (validate_required_claims input.required_claims)
            >> (modify others >> insert_job prisma (new_job id input)))
          (λ s v. subst Jobs (sym (check_bank-reads input.bank_id s)) v)
          (λ _.
            of_result-Keeps (validate_required_claims input.required_claims)
              (modify others >> insert_job prisma (new_job id input))
              (λ a e s v.
                insert_job-Jobs (new_job id input)
                  (
                    input.required_claims,
                    refl,
                    validate_required_claims-Proper input.required_claims a e,
                  )
                  (others s) (others-keep s v)))

    update-Jobs :
        (id bank_id : ℕ) (input : UpdateJobInput)
        → Keeps Jobs (update prisma others id bank_id input)
    unfolding update
    update-Jobs id bank_id input =
        bind-Keeps Jobs (find_job prisma id bank_id)
          (λ _.
            of_result (validate_if_given input.required_claims)
            >> (modify others >> change_job prisma id bank_id input))
          (λ s v. subst Jobs (sym (find_job-reads id bank_id s)) v)
          (λ _.
            of_result-Keeps (validate_if_given input.required_claims)
              (modify others >> change_job prisma id bank_id input)
              (λ a e s v. change_job-Jobs id bank_id input a e (others s) (others-keep s v)))

pub data Call : Type 0 where
  creates : (id : ℕ) → CreateJobInput → Call
  updates : (id bank_id : ℕ) → UpdateJobInput → Call

abbrev pub after : Prisma → (Db → Db) → Call → Db → Db
after prisma others (creates id input) s = (create prisma others id input s).1
after prisma others (updates id bank_id input) s = (update prisma others id bank_id input s).1

-- After every call that creates or updates a job, the required claims of every stored job are a list
-- of texts that is not empty, and no claim is blank and no two are equal when trimmed; this holds if it
-- held before and the other requests keep it.
pub after-Jobs :
    (prisma : Prisma) (others : Db → Db)
    → ((s : Db) → Jobs s → Jobs (others s))
    → (c : Call) (s : Db) → Jobs s
    → Jobs (after prisma others c s)
after-Jobs prisma others k (creates id input) s v = create-Jobs prisma others k id input s v
after-Jobs prisma others k (updates id bank_id input) s v =
    update-Jobs prisma others k id bank_id input s v
