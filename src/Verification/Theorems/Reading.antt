-- ===== src/Verification/Theorems/Reading.antt =====
-- What `validateRequestContext` of src/verification/verification.service.ts has read and compared.
use ssi_academic_credential.Common.{
  ℕ, true, false, ◌&&◌, none, some, ok, ◌≡◌, sym, subst, ap, ◌∙◌, arith, inl, inr, In, Bool-cases,
  Option-cases, leb, ◌==◌, ◌>>◌, raise, modify, bad_request, bind_inv, ◌<◌,
}
use ssi_academic_credential.Verification.Theorems.Steps.{approved_lem}
use ssi_academic_credential.Prisma.{Prisma}
use ssi_academic_credential.Database.{
  Db, Job, Application, Credential, Presentation, VerificationRequest, VerificationRequestStatus,
}
use ssi_academic_credential.Requests.State.{Redis, Store, VerificationSession}
use ssi_academic_credential.Verification.{
  Verifier, Context, Loaded, load_presentation, read_session, is_consumed, is_approved,
  check_context, refuse_expired, expire_approved, read_session, validate_request_context,
}

-- The request was approved and open when its presentation was read; the session agrees with the rows.
pub record Read (sha256 : ℕ → ℕ) (id now : ℕ) (c : Context) (s : Db) : Type 0 where
  pub presentation_stored : In c.presentation s.presentations
  pub presentation_id : c.presentation.id ≡ id
  pub request_stored : In c.request s.verification_requests
  pub request_id : c.request.id ≡ c.presentation.request_id
  pub credential_stored : In c.credential s.credentials
  pub credential_id : c.credential.id ≡ c.presentation.credential_id
  pub approved : c.request.status ≡ VerificationRequestStatus.approved
  pub not_expired : now < c.request.expires_at
  pub session_bank : c.session.bank_id ≡ c.job.bank_id
  pub session_nonce : c.session.nonce ≡ c.presentation.nonce
  pub nonce_hash : sha256 c.presentation.nonce ≡ c.request.nonce_hash
  pub request_holder : c.request.holder_id ≡ c.presentation.holder_id
  pub session_holder : c.session.holder_id ≡ c.presentation.holder_id
  pub session_application : c.session.application_id ≡ c.request.application_id

-- What the comparisons establish.
compared :
    (sha256 : ℕ → ℕ) (p : Presentation) (r : VerificationRequest) (a : Application) (j : Job)
    (x : VerificationSession)
    → check_context sha256 p r a j x ≡ none
    → (x.bank_id ≡ j.bank_id)
      × (x.nonce ≡ p.nonce)
      × (sha256 p.nonce ≡ r.nonce_hash)
      × (r.holder_id ≡ p.holder_id)
      × (x.holder_id ≡ p.holder_id)
      × (x.application_id ≡ r.application_id)
compared sha256 p r a j x h = elim (Bool-cases (x.bank_id == j.bank_id)) [
  | inr e ↦ absurd (ground arith)
  | inl e ↦ elim (Bool-cases (x.nonce == p.nonce && sha256 p.nonce == r.nonce_hash)) [
    | inr f ↦ absurd (ground arith)
    | inl f ↦
        elim (Bool-cases (
          r.holder_id == p.holder_id && a.holder_id == p.holder_id && x.holder_id == p.holder_id)) [
            | inr g ↦ absurd (ground arith)
            | inl g ↦ elim (Bool-cases (x.application_id == r.application_id)) [
              | inr k ↦ absurd (ground arith)
              | inl k ↦ (
                ground arith,
                ground arith,
                ground arith,
                ground arith,
                ground arith,
                ground arith,
              )
            ]
          ]
  ]
]

-- The rows, as they were stored.
record Rows (id : ℕ) (l : Loaded) (s : Db) : Type 0 where
  presentation_stored : In l.presentation s.presentations
  presentation_id : l.presentation.id ≡ id
  request_stored : In l.request s.verification_requests
  request_id : l.request.id ≡ l.presentation.request_id
  credential_stored : In l.credential s.credentials
  credential_id : l.credential.id ≡ l.presentation.credential_id
  approved : is_approved l.request ≡ true

equal : (m n : ℕ) → (m == n) ≡ true → m ≡ n
equal m n h = ground arith

module _ (prisma : Prisma) (redis : Redis) where
  refuse_expired_ok :
      (now swept : ℕ) (r : VerificationRequest) (s u : Store redis)
      → refuse_expired prisma redis now swept r s ≡ (ok tt, u)
      → (leb r.expires_at now ≡ false) × (u ≡ s)
  unfolding refuse_expired
  refuse_expired_ok now swept r s u h = elim (Bool-cases (leb r.expires_at now)) [
    | inr e ↦ (e, ground arith)
    | inl e ↦
        let (_, w, _, q) =
          bind_inv (expire_approved prisma redis r.id swept)
            (λ _. raise {A = Unit {0}} (bad_request "Verification request has expired")) s tt u
            (ground arith) in
        absurd (ground arith)
  ]

  load_presentation_ok :
      (id : ℕ) (s : Store redis) (l : Loaded) (u : Store redis)
      → load_presentation prisma redis id s ≡ (ok l, u)
      → Rows id l s.db × (u ≡ s)
  unfolding load_presentation
  load_presentation_ok id s l u h =
      elim (Option-cases
        (prisma.find_first (λ (p : Presentation). p.id == id) s.db.presentations)) [
          | inl e ↦ absurd (ground arith)
          | inr (p, e) ↦
              elim (Option-cases (
                prisma.find_first (λ (r : VerificationRequest). r.id == p.request_id)
                  s.db.verification_requests)) [
                    | inl e1 ↦ absurd (ground arith)
                    | inr (r, e1) ↦
                        elim (Option-cases (
                          prisma.find_first (λ (a : Application). a.id == r.application_id)
                            s.db.applications)) [
                              | inl e2 ↦ absurd (ground arith)
                              | inr (a, e2) ↦
                                  elim (Option-cases
                                    (prisma.find_first (λ (j : Job). j.id == a.job_id) s.db.jobs)) [
                                      | inl e3 ↦ absurd (ground arith)
                                      | inr (j, e3) ↦
                                          elim (Option-cases (
                                            prisma.find_first
                                              (λ (x : Credential). x.id == p.credential_id)
                                              s.db.credentials)) [
                                                | inl e4 ↦ absurd (ground arith)
                                                | inr (x, e4) ↦
                                                    elim (Bool-cases (is_consumed r.status)) [
                                                      | inl e5 ↦ absurd (ground arith)
                                                      | inr e5 ↦ elim (Bool-cases (is_approved r)) [
                                                        | inr e6 ↦ absurd (ground arith)
                                                        | inl e6 ↦
                                                            let same : record {
                                                            presentation = p;
                                                            request = r;
                                                            application = a;
                                                            job = j;
                                                            credential = x;
                                                            }
                                                            ≡ l =
                                                            ground arith in
                                                            let (p_is, p_in) =
                                                            prisma.find_first-some
                                                            (λ (p : Presentation). p.id == id)
                                                            s.db.presentations p e in
                                                            let (r_is, r_in) =
                                                            prisma.find_first-some
                                                            (λ (r : VerificationRequest).
                                                            r.id == p.request_id)
                                                            s.db.verification_requests r e1 in
                                                            let (x_is, x_in) =
                                                            prisma.find_first-some
                                                            (λ (x : Credential).
                                                            x.id == p.credential_id)
                                                            s.db.credentials x e4 in
                                                            (
                                                            subst (λ l. Rows id l s.db) same
                                                            (record {
                                                            presentation_stored = p_in;
                                                            presentation_id = equal p.id id p_is;
                                                            request_stored = r_in;
                                                            request_id =
                                                            equal r.id p.request_id r_is;
                                                            credential_stored = x_in;
                                                            credential_id =
                                                            equal x.id p.credential_id x_is;
                                                            approved = e6;
                                                            }),
                                                            ground arith,
                                                            )
                                                      ]
                                                    ]
                                              ]
                                    ]
                            ]
                  ]
        ]

  read_session_ok :
      (sha256 : ℕ → ℕ) (l : Loaded) (s : Store redis) (c : Context) (u : Store redis)
      → read_session prisma redis sha256 l s ≡ (ok c, u)
      → (v : VerificationSession) × (redis.get_json l.request.id s.cache ≡ some v)
        × (check_context sha256 l.presentation l.request l.application l.job v ≡ none)
        × (record {
          presentation = l.presentation;
          request = l.request;
          job = l.job;
          credential = l.credential;
          session = v;
        }
            ≡ c)
        × (u ≡ s)
  unfolding read_session
  read_session_ok sha256 l s c u h = elim (Option-cases (redis.get_json l.request.id s.cache)) [
    | inl e ↦ absurd (ground arith)
    | inr (v, e) ↦
        elim (Option-cases (check_context sha256 l.presentation l.request l.application l.job v)) [
          | inr (w, f) ↦ absurd (ground arith)
          | inl f ↦ (v, e, f, ground arith, ground arith)
        ]
  ]

  Rows-Read :
      (sha256 : ℕ → ℕ) (id now : ℕ) (l : Loaded) (v : VerificationSession) (s : Db)
      → Rows id l s
      → leb l.request.expires_at now ≡ false
      → check_context sha256 l.presentation l.request l.application l.job v ≡ none
      → Read sha256 id now
          (record {
            presentation = l.presentation;
            request = l.request;
            job = l.job;
            credential = l.credential;
            session = v;
          })
          s
  Rows-Read sha256 id now l v s rows still k =
      let (m1, m2, m3, m4, m5, m6) =
        compared sha256 l.presentation l.request l.application l.job v k in
      record {
        presentation_stored = rows.presentation_stored;
        presentation_id = rows.presentation_id;
        request_stored = rows.request_stored;
        request_id = rows.request_id;
        credential_stored = rows.credential_stored;
        credential_id = rows.credential_id;
        approved = approved_lem l.request.status rows.approved;
        not_expired = ground arith;
        session_bank = m1;
        session_nonce = m2;
        nonce_hash = m3;
        request_holder = m4;
        session_holder = m5;
        session_application = m6;
      }

  module _ (others : Store redis → Store redis) (verifier : Verifier) where
    pub validate_request_context_ok :
        (id now swept : ℕ) (s : Store redis) (c : Context) (u : Store redis)
        → validate_request_context prisma redis others verifier id now swept s ≡ (ok c, u)
        → Read verifier.sha256 id now c s.db
          × (redis.get_json c.request.id u.cache ≡ some c.session)
          × (u ≡ others s)
    unfolding validate_request_context
    validate_request_context_ok id now swept s c u h =
        let (l, w, found, q) =
          bind_inv (load_presentation prisma redis id)
            (λ l.
              modify others
              >> (refuse_expired prisma redis now swept l.request
                  >> read_session prisma redis verifier.sha256 l))
            s c u h in
        let (rows, back) = load_presentation_ok id s l w found in
        let (_, x, open_request, q1) =
          bind_inv (refuse_expired prisma redis now swept l.request)
            (λ _. read_session prisma redis verifier.sha256 l) (others w) c u q in
        let (still, same) = refuse_expired_ok now swept l.request (others w) x open_request in
        let (v, kept, agree, built, end) = read_session_ok verifier.sha256 l x c u q1 in
        subst
          (λ c.
            Read verifier.sha256 id now c s.db
            × (redis.get_json c.request.id u.cache ≡ some c.session)
            × (u ≡ others s))
          built
          (
            Rows-Read verifier.sha256 id now l v s.db rows still agree,
            subst (λ z. redis.get_json l.request.id z.cache ≡ some v) (sym end) kept,
            end ∙ same ∙ ap others back,
          )
