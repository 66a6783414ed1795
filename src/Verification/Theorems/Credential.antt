-- ===== src/Verification/Theorems/Credential.antt =====
-- What `validateCredentialChecks` of src/verification/verification.service.ts establishes of the
-- credential, and of the claims that were disclosed.
use ssi_academic_credential.Common.{
  Bool, Option, ◌≢◌, ◌<◌, All, modify, if◌then◌else◌, pure_ok, ℕ, String, true, false, not, ◌&&◌,
  List, none, some, ok, ◌≡◌, refl, sym, subst, ap, ◌∙◌, arith, inl, inr, In, Bool-cases,
  Option-cases, ◌==◌, length, ◌>>=◌, ◌>>◌, pure, raise_if, or_raise, of_result, bind_inv,
  or_raise_then, of_result_then, raise_if_then, bad_request,
}
use ssi_academic_credential.Text.{◌===◌, ===_iff}
use ssi_academic_credential.Prisma.{Prisma}
use ssi_academic_credential.Database.{
  Db, Json, str, uuid, TrustedIssuer, TrustedIssuerStatus, Fields, end, field, Credential,
  CredentialStatus, CredentialSchema,
}
use ssi_academic_credential.CredentialSchemas.{
  CredentialSchemaDefinition, parse_schema_definition, validate_claims, find_by_id_for_organization,
}
use ssi_academic_credential.CredentialSchemas.Validation.{Supplied, validate_claims_iff}
use ssi_academic_credential.Requests.Claims.{get, put, record_of, issuer_name, claim_value}
use ssi_academic_credential.Requests.Claims.Disclosure.{get-put}
use ssi_academic_credential.Requests.Claims.Statement.{ClaimOf, record_some, claim_value-ClaimOf}
use ssi_academic_credential.Requests.State.{Redis, Store, on_db}
use ssi_academic_credential.Trust.{of_did, is_trusted}
use ssi_academic_credential.Verification.{Verifier, Context, raise_some}
use ssi_academic_credential.Verification.Theorems.Steps.{
  equal, text_lem, id_lem, trusted_lem, raise_some_then, require_then,
}
use ssi_academic_credential.Verification.Theorems.Requested.{AsRequested, check_disclosed_ok}
use ssi_academic_credential.Verification.Checks.{
  check_expiry, check_credential_status, check_parties, check_metadata, credential_claims,
  require_string_array, require_strings, same_string_set, names, check_disclosed,
  check_issuer_and_status, check_subject, check_disclosure, invalid_disclosed,
}

active_status :
    (now : ℕ) (c : Credential) (st : CredentialStatus)
    → check_credential_status now c st ≡ none
    → (st ≡ CredentialStatus.active) × (check_expiry now c.expires_at ≡ none)
active_status now c CredentialStatus.active h = (refl, h)
active_status now c CredentialStatus.suspended h = absurd (cc)
active_status now c CredentialStatus.revoked h = absurd (cc)
active_status now c CredentialStatus.expired h = absurd (cc)

-- No expiry date, or one that is still to come.
abbrev pub Unexpired : (now : ℕ) → Option ℕ → Type 0
Unexpired now none = Unit
Unexpired now (some at) = now < at

check_expiry-Unexpired : (now : ℕ) (at : Option ℕ) → check_expiry now at ≡ none → Unexpired now at
check_expiry-Unexpired now none h = tt
check_expiry-Unexpired now (some at) h = ground arith

-- The claims that are compared are what the document says.
credential_claims-ClaimOf :
    (unsigned subject issuer : Fields)
    → record_of (get "credentialSubject" unsigned) ≡ some subject
    → record_of (get "issuer" unsigned) ≡ some issuer
    → (claim : String) (v : Json) → get claim (credential_claims subject issuer) ≡ some v
    → ClaimOf unsigned claim v
credential_claims-ClaimOf unsigned subject issuer s i claim v h =
    let known : issuer_name (record_of (get "issuer" unsigned)) ≡ issuer_name (some issuer) =
      ap issuer_name i in
    claim_value-ClaimOf unsigned subject s claim v
      (elim (Option-cases (issuer_name (some issuer))) [
        | inl n ↦
            let plain : credential_claims subject issuer ≡ subject =
              rw (credential_claims, n) refl in
            let found : get claim subject ≡ some v = ap (get claim) (sym plain) ∙ h in
            elim (Bool-cases (claim === "university")) [
              | inl q ↦ rw (claim_value, q, known ∙ n) found
              | inr q ↦ rw (claim_value, q) found
            ]
        | inr (name, n) ↦
            let named : credential_claims subject issuer ≡ put "university" name subject =
              rw (credential_claims, n) refl in
            let found : (if "university" === claim then some name else get claim subject) ≡ some v =
              sym (get-put claim "university" name subject) ∙ ap (get claim) (sym named) ∙ h in
            elim (Bool-cases (claim === "university")) [
              | inl q ↦
                  let turned : ("university" === claim) ≡ true =
                    (===_iff "university" claim).1 (sym ((===_iff claim "university").0 q)) in
                  rw (claim_value, q, known ∙ n)
                    (sym (ap (λ (x : Bool). if x then some name else get claim subject) turned)
                      ∙ found)
              | inr q ↦
                  let turned : ("university" === claim) ≡ false = other claim q in
                  rw (claim_value, q)
                    (sym (ap (λ (x : Bool). if x then some name else get claim subject) turned)
                      ∙ found)
            ]
      ])
  where
    other : (c : String) → (c === "university") ≡ false → ("university" === c) ≡ false
    other c q = elim (Bool-cases ("university" === c)) [
      | inr e ↦ e
      | inl e ↦
          let back : (c === "university") ≡ true =
            (===_iff c "university").1 (sym ((===_iff "university" c).0 e)) in
          absurd (cc)
    ]

module _ (prisma : Prisma) (redis : Redis) (verifier : Verifier) where
  -- The credential is in force, and so is its own schema; `s` is the database when the registry of
  -- trusted issuers was read, and `t` when the schema was.
  pub record InForce (now : ℕ) (c : Credential) (schema : CredentialSchema) (s t : Db)
      : Type 0 where
    pub issuer : TrustedIssuer
    pub issuer_stored : In issuer s.trusted_issuers
    pub issuer_did : issuer.issuer_did ≡ c.issuer_did
    pub trusted : issuer.status ≡ TrustedIssuerStatus.trusted
    pub active : c.status ≡ CredentialStatus.active
    pub not_expired : Unexpired now c.expires_at
    pub schema_stored : In schema t.credential_schemas
    pub schema_id : schema.id ≡ c.schema_id
    pub schema_organization : schema.organization_id ≡ c.issuer_organization_id
    pub schema_active : schema.status ≡ "ACTIVE"

  trusted_found :
      (did : ℕ) (s : Db)
      → is_trusted prisma did s ≡ true
      → (issuer : TrustedIssuer) × In issuer s.trusted_issuers
        × (issuer.issuer_did ≡ did)
        × (issuer.status ≡ TrustedIssuerStatus.trusted)
  unfolding is_trusted
  trusted_found did s h = elim (Option-cases (prisma.find_first (of_did did) s.trusted_issuers)) [
    | inl e ↦ absurd (ground arith)
    | inr (x, e) ↦
        let (own, stored) = prisma.find_first-some _ _ _ e in
        (x, stored, equal x.issuer_did did own, trusted_lem x.status (ground arith))
  ]

  schema_found :
      (id organization_id : ℕ) (s : Store redis) (x : CredentialSchema) (w : Store redis)
      → on_db redis (find_by_id_for_organization prisma id organization_id) s ≡ (ok x, w)
      → In x s.db.credential_schemas × (x.id ≡ id) × (x.organization_id ≡ organization_id) × (w ≡ s)
  unfolding find_by_id_for_organization
  schema_found id organization_id s x w h =
      elim (Option-cases (
        prisma.find_first
          (λ (c : CredentialSchema). c.id == id && c.organization_id == organization_id)
          s.db.credential_schemas)) [
            | inl e ↦ absurd (ground arith)
            | inr (y, e) ↦
                let same : y ≡ x = ground arith in
                let (own, stored) = prisma.find_first-some _ _ _ e in
                let of_id : y.id ≡ id = ground arith in
                let of_organization : y.organization_id ≡ organization_id = ground arith in
                (
                  subst (λ x. In x s.db.credential_schemas) same stored,
                  subst (λ (x : CredentialSchema). x.id ≡ id) same of_id,
                  subst (λ (x : CredentialSchema). x.organization_id ≡ organization_id) same
                      of_organization,
                  ground arith,
                )
          ]

  pub check_issuer_and_status_ok :
      (others : Store redis → Store redis) (now : ℕ) (c : Credential) (s : Store redis)
      (schema : CredentialSchema) (u : Store redis)
      → check_issuer_and_status prisma redis verifier others now c s ≡ (ok schema, u)
      → InForce now c schema s.db (others s).db × (u ≡ others s)
  unfolding check_issuer_and_status
  check_issuer_and_status_ok others now c s schema u h =
      let find =
        on_db redis (find_by_id_for_organization prisma c.schema_id c.issuer_organization_id) in
      let last = λ (x : CredentialSchema).
        raise_if {S = Store redis} (not (x.status === "ACTIVE"))
          (bad_request "Credential schema is not active")
        >> pure x in
      let look = modify others >> (find >>= last) in
      let (trusted, h1) =
        require_then (is_trusted prisma c.issuer_did s.db)
          (bad_request "Credential issuer is not trusted")
          (raise_some (check_credential_status now c c.status) >> look) s schema u h in
      let (standing, h2) =
        raise_some_then (check_credential_status now c c.status) look s schema u h1 in
      let (active, fresh) = active_status now c c.status standing in
      let (x, w, found, h3) = bind_inv find last (others s) schema u h2 in
      let (stored, of_id, of_organization, e) =
        schema_found c.schema_id c.issuer_organization_id (others s) x w found in
      let (in_use, h4) =
        require_then (x.status === "ACTIVE") (bad_request "Credential schema is not active")
          (pure x) w schema u h3 in
      let (same, back) = pure_ok x schema w u h4 in
      let (issuer, issuer_stored, issuer_did, status) = trusted_found c.issuer_did s.db trusted in
      (
        subst (λ x. InForce now c x s.db (others s).db) same
            (record {
              issuer = issuer;
              issuer_stored = issuer_stored;
              issuer_did = issuer_did;
              trusted = status;
              active = active;
              not_expired = check_expiry-Unexpired now c.expires_at fresh;
              schema_stored = stored;
              schema_id = of_id;
              schema_organization = of_organization;
              schema_active = (===_iff x.status "ACTIVE").0 in_use;
            }),
        back ∙ e,
      )

  same_id : (m n : ℕ) (o : Option Json) → o ≡ some (uuid m) → o ≡ some (uuid n) → m ≡ n
  same_id m n o e f = let q : some (uuid m) ≡ some (uuid n) = sym e ∙ f in cc

  -- The document names the parties and the schema, and its claims satisfy the schema.
  pub record Described (c : Context) (schema : CredentialSchema) (unsigned claims : Fields)
      : Type 0 where
    pub subject : Fields
    pub issuer : Fields
    pub metadata : Fields
    pub subject_of : get "credentialSubject" unsigned ≡ some (Json.obj subject)
    pub issuer_of : get "issuer" unsigned ≡ some (Json.obj issuer)
    pub metadata_of : get "metadata" unsigned ≡ some (Json.obj metadata)
    pub issuer_id : get "id" issuer ≡ some (uuid c.credential.issuer_did)
    pub subject_id : get "id" subject ≡ some (uuid c.presentation.holder_did)
    pub holder_did : c.credential.holder_did ≡ c.presentation.holder_did
    pub holder_id : c.credential.holder_id ≡ c.presentation.holder_id
    pub schema_name : get "schema" metadata ≡ some (str schema.name)
    pub schema_version : get "schemaVersion" metadata ≡ some (str schema.version)
    pub definition : CredentialSchemaDefinition
    pub schema_of : parse_schema_definition schema.schema_json ≡ ok definition
    pub complete : All (Supplied claims) definition.required_claims
    pub says : (k : String) (v : Json) → get k claims ≡ some v → ClaimOf unsigned k v

  pub check_subject_ok :
      (c : Context) (schema : CredentialSchema) (unsigned : Fields) (s : Store redis)
      (claims : Fields) (u : Store redis)
      → check_subject prisma redis verifier c schema unsigned s ≡ (ok claims, u)
      → Described c schema unsigned claims × (u ≡ s)
  unfolding check_subject
  check_subject_ok c schema unsigned s claims u h =
      let last = λ (subject issuer : Fields).
        of_result {S = Store redis}
          (validate_claims schema.schema_json (credential_claims subject issuer))
        >> pure (credential_claims subject issuer) in
      let meta = λ (subject issuer metadata : Fields).
        raise_some (check_metadata schema metadata) >> last subject issuer in
      let described = λ (subject issuer : Fields).
        or_raise (record_of (get "metadata" unsigned))
          (bad_request "Credential metadata is invalid")
        >>= meta subject issuer in
      let parties = λ (subject issuer : Fields).
        raise_some (check_parties c.presentation c.credential schema subject issuer)
        >> described subject issuer in
      let by = λ (subject : Fields).
        or_raise (record_of (get "issuer" unsigned)) (bad_request "Credential issuer is invalid")
        >>= parties subject in
      let (subject, subject_of, h1) =
        or_raise_then (record_of (get "credentialSubject" unsigned))
          (bad_request "Credential subject is invalid") by s claims u h in
      let (issuer, issuer_of, h2) =
        or_raise_then (record_of (get "issuer" unsigned))
          (bad_request "Credential issuer is invalid") (parties subject) s claims u h1 in
      let (agree, h3) =
        raise_some_then (check_parties c.presentation c.credential schema subject issuer)
          (described subject issuer) s claims u h2 in
      let (metadata, metadata_of, h4) =
        or_raise_then (record_of (get "metadata" unsigned))
          (bad_request "Credential metadata is invalid") (meta subject issuer) s claims u h3 in
      let (named, h5) =
        raise_some_then (check_metadata schema metadata) (last subject issuer) s claims u h4 in
      let (_, complete, h6) =
        of_result_then (validate_claims schema.schema_json (credential_claims subject issuer))
          (λ _. pure (credential_claims subject issuer)) s claims u h5 in
      let (same, back) = pure_ok (credential_claims subject issuer) claims s u h6 in
      let by_presentation = id_lem c.presentation.holder_did (get "id" subject) (ground arith) in
      let (definition, schema_of, supplied) =
        (validate_claims_iff schema.schema_json (credential_claims subject issuer)).0 complete in
      (
        subst (Described c schema unsigned) same (record {
          subject = subject;
          issuer = issuer;
          metadata = metadata;
          subject_of = record_some _ subject subject_of;
          issuer_of = record_some _ issuer issuer_of;
          metadata_of = record_some _ metadata metadata_of;
          issuer_id = id_lem c.credential.issuer_did (get "id" issuer) (ground arith);
          subject_id = by_presentation;
          holder_did =
              same_id c.credential.holder_did c.presentation.holder_did (get "id" subject)
                (id_lem c.credential.holder_did (get "id" subject) (ground arith)) by_presentation;
          holder_id = ground arith;
          schema_name = text_lem schema.name (get "schema" metadata) (ground arith);
          schema_version = text_lem schema.version (get "schemaVersion" metadata) (ground arith);
          definition = definition;
          schema_of = schema_of;
          complete = supplied;
          says = credential_claims-ClaimOf unsigned subject issuer subject_of issuer_of;
        }),
        back,
      )

  some_injective : {x y : Json} → some x ≡ some y → x ≡ y
  some_injective {x} {y} e = cc

  some_names : (fs : Fields) → (length (names fs) == 0) ≡ false → fs ≢ end
  some_names end h = absurd (cc)
  some_names (field k v fs) h = λ e. absurd (cc)

  -- What was disclosed is some claims, all requested, and all as the credential has them.
  pub record Disclosed (Says : String → Json → Type 0) (c : Context) : Type 0 where
    pub disclosed : Fields
    pub requested : List String
    pub session_requested : List String
    pub disclosed_of : c.presentation.disclosed_claims ≡ Json.obj disclosed
    pub not_empty : disclosed ≢ end
    pub requested_of : require_string_array c.request.requested_claims ≡ some requested
    pub session_claims : require_strings c.session.requested_claims ≡ some session_requested
    pub agreed : same_string_set verifier.sort requested session_requested ≡ true
    pub as_requested : AsRequested verifier.canonicalize Says requested session_requested disclosed

  pub check_disclosure_ok :
      (Says : String → Json → Type 0) (c : Context) (claims : Fields) (s : Store redis)
      (a : Unit {0}) (u : Store redis)
      → ((k : String) (v : Json) → get k claims ≡ some v → Says k v)
      → check_disclosure prisma redis verifier c claims s ≡ (ok a, u)
      → Disclosed Says c × (u ≡ s)
  unfolding check_disclosure
  check_disclosure_ok Says c claims s a u says h =
      let last = λ (disclosed : Fields) (r q : List String).
        of_result {S = Store redis} (check_disclosed verifier.canonicalize r q claims disclosed) in
      let same_set = λ (disclosed : Fields) (r q : List String).
        raise_if {S = Store redis} (not (same_string_set verifier.sort r q))
          (bad_request "Verification session requested claims mismatch")
        >> last disclosed r q in
      let of_session = λ (disclosed : Fields) (r : List String).
        or_raise (require_strings c.session.requested_claims)
          (bad_request "Verification session requested claims are invalid")
        >>= same_set disclosed r in
      let of_request = λ (disclosed : Fields).
        or_raise (require_string_array c.request.requested_claims)
          (bad_request "Stored requested claims are invalid")
        >>= of_session disclosed in
      let some_claims = λ (disclosed : Fields).
        raise_if {S = Store redis} (length (names disclosed) == 0)
          (bad_request "No claims were disclosed")
        >> of_request disclosed in
      let (disclosed, disclosed_of, h1) =
        or_raise_then (record_of (some c.presentation.disclosed_claims)) invalid_disclosed
          some_claims s a u h in
      let (not_empty, h2) =
        raise_if_then (length (names disclosed) == 0) (bad_request "No claims were disclosed")
          (of_request disclosed) s a u h1 in
      let (r, requested_of, h3) =
        or_raise_then (require_string_array c.request.requested_claims)
          (bad_request "Stored requested claims are invalid") (of_session disclosed) s a u h2 in
      let (q, session_claims, h4) =
        or_raise_then (require_strings c.session.requested_claims)
          (bad_request "Verification session requested claims are invalid") (same_set disclosed r) s
          a u h3 in
      let (agreed, h5) =
        require_then (same_string_set verifier.sort r q)
          (bad_request "Verification session requested claims mismatch") (last disclosed r q) s a u
          h4 in
      let checked : check_disclosed verifier.canonicalize r q claims disclosed ≡ ok tt =
        ap (λ x. x.0) h5 in
      (
        record {
          disclosed = disclosed;
          requested = r;
          session_requested = q;
          disclosed_of =
              some_injective
                (record_some (some c.presentation.disclosed_claims) disclosed disclosed_of);
          not_empty = some_names disclosed not_empty;
          requested_of = requested_of;
          session_claims = session_claims;
          agreed = agreed;
          as_requested =
              check_disclosed_ok verifier.canonicalize Says r q claims says disclosed checked;
        },
        ap (λ x. x.1) (sym h5),
      )
