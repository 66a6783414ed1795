-- ===== src/CredentialSchemas/WellFormed.antt =====
-- What a stored credential schema is: `create` of src/credential-schemas/credential-schemas.service.ts.
use ssi_academic_credential.Common.{
  ℕ, String, false, List, [], ◌∷◌, Option, none, some, ok, ◌≡◌, ◌≢◌, ◌⊎◌, refl, sym, subst, arith,
  inl, inr, All, any, Bool-cases, Option-cases, Result-cases, ◌==◌,
}
use ssi_academic_credential.Text.{◌===◌, ===_iff, trim, is_empty, has_duplicates}
use ssi_academic_credential.Prisma.{Prisma}
use ssi_academic_credential.Database.{
  Db, Json, null, bool, num, uuid, date, key_id, str, arr, obj, items, Items, nil, cons, Fields,
  Organization, OrganizationType, organization_type_eq, CredentialSchema,
}
use ssi_academic_credential.Requests.Claims.{get, record_of}
use ssi_academic_credential.Requests.Service.{claims_json, claim_list}
use ssi_academic_credential.CredentialSchemas.{
  CredentialSchemaDefinition, CreateCredentialSchemaInput, text_of, claim_texts, required_of,
  parse_schema_definition, definition_json, new_schema, schema_clash, create_schema,
}

-- What counts as a text is one, and is not blank.
pub text_of_inv :
    (j : Option Json) (s : String)
    → text_of j ≡ some s
    → (j ≡ some (str s)) × (is_empty (trim s) ≡ false)
text_of_inv (some (str t)) s h = elim (Bool-cases (is_empty (trim t))) [
  | inl e ↦ absurd (ground arith)
  | inr e ↦
      let same : t ≡ s = ground arith in
      subst (λ x. (some (str t) ≡ some (str x)) × (is_empty (trim x) ≡ false)) same (refl, e)
]
text_of_inv none s h = absurd (cc)
text_of_inv (some null) s h = absurd (cc)
text_of_inv (some (bool b)) s h = absurd (cc)
text_of_inv (some (num n)) s h = absurd (cc)
text_of_inv (some (uuid n)) s h = absurd (cc)
text_of_inv (some (date n)) s h = absurd (cc)
text_of_inv (some (key_id d n)) s h = absurd (cc)
text_of_inv (some (arr vs)) s h = absurd (cc)
text_of_inv (some (obj fs)) s h = absurd (cc)

text_of-str : (j : Option Json) (s : String) → text_of j ≡ some s → text_of (some (str s)) ≡ some s
text_of-str j s h = let (a, b) = text_of_inv j s h in ground arith

claim_texts-list :
    (vs : Items) (cs : List String)
    → claim_texts vs ≡ some cs
    → claim_texts (items (claim_list cs)) ≡ some cs
claim_texts-list nil cs h =
    let same : [] ≡ cs = ground arith in
    subst (λ x. claim_texts (items (claim_list x)) ≡ some x) same refl
claim_texts-list (cons v vs) cs h = elim (Option-cases (text_of (some v))) [
  | inl e ↦ absurd (ground arith)
  | inr (s, e) ↦ elim (Option-cases (claim_texts vs)) [
    | inl f ↦ absurd (ground arith)
    | inr (ts, f) ↦
        let same : (s ∷ ts) ≡ cs = ground arith in
        let a = text_of-str (some v) s e in
        let b = claim_texts-list vs ts f in
        subst (λ x. claim_texts (items (claim_list x)) ≡ some x) same (ground arith)
  ]
]

required_of-list :
    (j : Option Json) (cs : List String)
    → required_of j ≡ some cs
    → required_of (some (claims_json cs)) ≡ some cs
required_of-list (some (arr (cons v vs))) (c ∷ cs) h = claim_texts-list (cons v vs) (c ∷ cs) h
required_of-list (some (arr (cons v vs))) [] h = absurd (elim (Option-cases (text_of (some v))) [
  | inl e ↦ ground arith
  | inr (s, e) ↦ elim (Option-cases (claim_texts vs)) [
    | inl f ↦ ground arith
    | inr (ts, f) ↦ ground arith
  ]
])
required_of-list (some (arr nil)) cs h = absurd (cc)
required_of-list none cs h = absurd (cc)
required_of-list (some null) cs h = absurd (cc)
required_of-list (some (bool b)) cs h = absurd (cc)
required_of-list (some (num n)) cs h = absurd (cc)
required_of-list (some (uuid n)) cs h = absurd (cc)
required_of-list (some (date n)) cs h = absurd (cc)
required_of-list (some (key_id d n)) cs h = absurd (cc)
required_of-list (some (str t)) cs h = absurd (cc)
required_of-list (some (obj fs)) cs h = absurd (cc)

-- What the parser accepts.
pub record Parsed (j : Json) (d : CredentialSchemaDefinition) : Type 0 where
  pub schema : Fields
  pub is_object : record_of (some j) ≡ some schema
  pub name_of : text_of (get "name" schema) ≡ some d.name
  pub version_of : text_of (get "version" schema) ≡ some d.version
  pub claims_of : required_of (get "requiredClaims" schema) ≡ some d.required_claims
  pub distinct : has_duplicates d.required_claims ≡ false

pub parse_inv :
    (j : Json) (d : CredentialSchemaDefinition) → parse_schema_definition j ≡ ok d → Parsed j d
unfolding parse_schema_definition
parse_inv j d h = elim (Option-cases (record_of (some j))) [
  | inl e ↦ absurd (ground arith)
  | inr (schema, e) ↦ elim (Option-cases (text_of (get "name" schema))) [
    | inl a ↦ absurd (ground arith)
    | inr (name, a) ↦ elim (Option-cases (text_of (get "version" schema))) [
      | inl b ↦ absurd (ground arith)
      | inr (version, b) ↦ elim (Option-cases (required_of (get "requiredClaims" schema))) [
        | inl c ↦ absurd (ground arith)
        | inr (claims, c) ↦ elim (Bool-cases (has_duplicates claims)) [
          | inl u ↦ absurd (ground arith)
          | inr u ↦
              let same : record { name = name; version = version; required_claims = claims } ≡ d =
                ground arith in
              subst (Parsed j) same (record {
                schema = schema;
                is_object = e;
                name_of = a;
                version_of = b;
                claims_of = c;
                distinct = u;
              })
        ]
      ]
    ]
  ]
]

-- A definition that was parsed is parsed from what is stored of it.
pub parse-definition_json :
    (j : Json) (d : CredentialSchemaDefinition)
    → parse_schema_definition j ≡ ok d
    → parse_schema_definition (definition_json d) ≡ ok d
unfolding parse_schema_definition get
parse-definition_json j d h =
    let p = parse_inv j d h in
    let a = text_of-str (get "name" p.schema) d.name p.name_of in
    let b = text_of-str (get "version" p.schema) d.version p.version_of in
    let c = required_of-list (get "requiredClaims" p.schema) d.required_claims p.claims_of in
    let u = p.distinct in ground arith

required_of-All :
    (vs : Items) (cs : List String)
    → claim_texts vs ≡ some cs
    → All (λ c. is_empty (trim c) ≡ false) cs
required_of-All nil cs h =
    let same : [] ≡ cs = ground arith in subst (All (λ c. is_empty (trim c) ≡ false)) same tt
required_of-All (cons v vs) cs h = elim (Option-cases (text_of (some v))) [
  | inl e ↦ absurd (ground arith)
  | inr (s, e) ↦ elim (Option-cases (claim_texts vs)) [
    | inl f ↦ absurd (ground arith)
    | inr (ts, f) ↦
        let same : (s ∷ ts) ≡ cs = ground arith in
        subst (All (λ c. is_empty (trim c) ≡ false)) same
          ((text_of_inv (some v) s e).1, required_of-All vs ts f)
  ]
]

-- The required claims are some, and none is blank.
required_of_inv :
    (j : Option Json) (cs : List String)
    → required_of j ≡ some cs
    → (cs ≢ []) × All (λ c. is_empty (trim c) ≡ false) cs
required_of_inv (some (arr (cons v vs))) [] h = absurd (elim (Option-cases (text_of (some v))) [
  | inl e ↦ ground arith
  | inr (s, e) ↦ elim (Option-cases (claim_texts vs)) [
    | inl f ↦ ground arith
    | inr (ts, f) ↦ ground arith
  ]
])
required_of_inv (some (arr (cons v vs))) (c ∷ cs) h =
    ((λ e. cc), required_of-All (cons v vs) (c ∷ cs) h)
required_of_inv (some (arr nil)) cs h = absurd (cc)
required_of_inv none cs h = absurd (cc)
required_of_inv (some null) cs h = absurd (cc)
required_of_inv (some (bool b)) cs h = absurd (cc)
required_of_inv (some (num n)) cs h = absurd (cc)
required_of_inv (some (uuid n)) cs h = absurd (cc)
required_of_inv (some (date n)) cs h = absurd (cc)
required_of_inv (some (key_id d n)) cs h = absurd (cc)
required_of_inv (some (str t)) cs h = absurd (cc)
required_of_inv (some (obj fs)) cs h = absurd (cc)

-- A stored schema is a definition of its own name and version, which requires some claims, all
-- different and none of them blank.
pub record SchemaOk (c : CredentialSchema) : Type 0 where
  pub definition : CredentialSchemaDefinition
  pub parsed : parse_schema_definition c.schema_json ≡ ok definition
  pub same_name : definition.name ≡ c.name
  pub same_version : definition.version ≡ c.version
  pub some_claims : definition.required_claims ≢ []
  pub no_blank : All (λ claim. is_empty (trim claim) ≡ false) definition.required_claims
  pub distinct : has_duplicates definition.required_claims ≡ false

abbrev pub WellFormed : Db → Type 0
WellFormed s = All SchemaOk s.credential_schemas

module _ (prisma : Prisma) (others : Db → Db) (id : ℕ) (input : CreateCredentialSchemaInput) where
  -- What `create` leaves.
  create_cases :
      (s : Db)
      → ((create_schema prisma others id input s).1 ≡ s)
        ⊎ ((create_schema prisma others id input s).1 ≡ others s)
        ⊎ ((d : CredentialSchemaDefinition) × (parse_schema_definition input.schema_json ≡ ok d)
            × (d.name ≡ input.name)
            × (d.version ≡ input.version)
            × ((create_schema prisma others id input s).1 ≡ record (others s) {
              credential_schemas = new_schema id input d ∷ (others s).credential_schemas;
            }))
  unfolding create_schema
  create_cases s =
      elim (Option-cases
        (prisma.find_first (λ (o : Organization). o.id == input.organization_id) s.organizations)) [
          | inl e ↦ inl (ground arith)
          | inr (o, e) ↦
              elim (Bool-cases (organization_type_eq o.type OrganizationType.university)) [
                | inr u ↦ inl (ground arith)
                | inl u ↦ elim (Result-cases (parse_schema_definition input.schema_json)) [
                  | inr (w, p) ↦ inl (ground arith)
                  | inl (d, p) ↦ elim (Bool-cases (d.name === input.name)) [
                    | inr a ↦ inl (ground arith)
                    | inl a ↦ elim (Bool-cases (d.version === input.version)) [
                      | inr b ↦ inl (ground arith)
                      | inl b ↦
                          elim (Bool-cases (
                            any (schema_clash (new_schema id input d))
                              (others s).credential_schemas)) [
                                | inl c ↦ inr (
                                    inl (
                                      let q =
                                        prisma.create_lem schema_clash (new_schema id input d)
                                          (others s).credential_schemas in
                                      ground arith))
                                | inr c ↦
                                    let q =
                                      prisma.create_lem schema_clash (new_schema id input d)
                                        (others s).credential_schemas in
                                    inr (
                                      inr (
                                        d,
                                        p,
                                        (===_iff d.name input.name).0 a,
                                        (===_iff d.version input.version).0 b,
                                        ground arith,
                                      ))
                              ]
                    ]
                  ]
                ]
              ]
        ]

  -- `create`, whether it succeeds or throws, keeps every stored schema a definition of its own name and
  -- version, which requires some claims, all different and none of them blank, if the other requests do.
  pub create_schema-WellFormed :
      ((s : Db) → WellFormed s → WellFormed (others s))
      → (s : Db) → WellFormed s
      → WellFormed (create_schema prisma others id input s).1
  create_schema-WellFormed keep s v = elim (create_cases s) [
    | inl e ↦ subst WellFormed (sym e) v
    | inr (inl e) ↦ subst WellFormed (sym e) (keep s v)
    | inr (inr (d, p, a, b, e)) ↦
        let q = parse_inv input.schema_json d p in
        let (n, all) =
          required_of_inv (get "requiredClaims" q.schema) d.required_claims q.claims_of in
        subst WellFormed (sym e) (
          record {
            definition = d;
            parsed = parse-definition_json input.schema_json d p;
            same_name = a;
            same_version = b;
            some_claims = n;
            no_blank = all;
            distinct = q.distinct;
          },
          keep s v,
        )
  ]
