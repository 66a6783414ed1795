-- ===== src/CredentialSchemas.antt =====
-- src/credential-schemas/credential-schemas.service.ts: the parsing of schema definitions, `create`,
-- `findByIdForOrganization` and `validateClaims`. The texts of a definition are `str`: no identifier or
-- date names a schema, a version or a claim.
pub mod WellFormed
pub mod Validation
use Prim.Native.String
use ssi_academic_credential.Common.{
  ℕ, String, Bool, true, false, not, ◌&&◌, ◌||◌, List, [], ◌∷◌, Option, none, some, Result, ok, err,
  Action, bad_request, not_found, unique_violation, ◌>>=◌, ◌>>◌, pure, raise_if, or_raise,
  of_result, gets, modify, ◌==◌, if◌then◌else◌, any, select, length,
}
use ssi_academic_credential.Text.{◌===◌, trim, is_empty, includes, has_duplicates}
use ssi_academic_credential.Prisma.{Prisma}
use ssi_academic_credential.Database.{
  Db, Json, null, str, arr, obj, object, Items, nil, cons, Fields, Organization, OrganizationType,
  organization_type_eq, CredentialSchema,
}
use ssi_academic_credential.Requests.Claims.{get, record_of}
use ssi_academic_credential.Requests.Service.{claims_json}

pub record CredentialSchemaDefinition : Type 0 where
  pub name : String
  pub version : String
  pub required_claims : List String

pub record CreateCredentialSchemaInput : Type 0 where
  pub organization_id : ℕ
  pub name : String
  pub version : String
  pub description : Option String
  pub schema_json : Json

-- A text that is not blank.
abbrev pub text_of : Option Json → Option String
text_of (some (str s)) = if is_empty (trim s) then none else some s
text_of _ = none

abbrev pub claim_texts : Items → Option (List String)
claim_texts nil = some []
claim_texts (cons v vs) = elim (text_of (some v)) [
  | none ↦ none
  | some s ↦ elim (claim_texts vs) [ none ↦ none | some cs ↦ some (s ∷ cs) ]
]

-- `schema.requiredClaims`, if it is an array of such texts that has one at least.
abbrev pub required_of : Option Json → Option (List String)
required_of (some (arr (cons v vs))) = claim_texts (cons v vs)
required_of _ = none

unfoldable pub parse_schema_definition : Json → Result CredentialSchemaDefinition
parse_schema_definition schema_json = elim (record_of (some schema_json)) [
  | none ↦ err (bad_request "Invalid credential schema JSON")
  | some schema ↦ elim (text_of (get "name" schema)) [
    | none ↦ err (bad_request "Schema name is required")
    | some name ↦ elim (text_of (get "version" schema)) [
      | none ↦ err (bad_request "Schema version is required")
      | some version ↦ elim (required_of (get "requiredClaims" schema)) [
        | none ↦ err (bad_request "Schema requiredClaims must be a non-empty string array")
        | some claims ↦
            if has_duplicates claims
            then err (bad_request "Schema requiredClaims must not contain duplicates")
            else ok (record { name = name; version = version; required_claims = claims })
      ]
    ]
  ]
]

abbrev pub definition_json : CredentialSchemaDefinition → Json
definition_json d = object (
    ("name", str d.name)
    ∷ ("version", str d.version)
    ∷ ("requiredClaims", claims_json d.required_claims)
    ∷ [])

-- What every object inherits from `Object.prototype`.
abbrev pub inherited : List String
inherited =
    "constructor" ∷ "hasOwnProperty" ∷ "isPrototypeOf" ∷ "propertyIsEnumerable" ∷ "toLocaleString"
    ∷ "toString" ∷ "valueOf" ∷ "__proto__" ∷ "__defineGetter__" ∷ "__defineSetter__"
    ∷ "__lookupGetter__" ∷ "__lookupSetter__" ∷ []

-- `value === null || value === ''`.
abbrev pub blank : Json → Bool
blank null = true
blank (str s) = is_empty s
blank _ = false

-- `claims[claim]` is what the object has or inherits.
abbrev pub missing : Fields → String → Bool
missing claims claim = elim (get claim claims) [
  | none ↦ not (includes inherited claim)
  | some value ↦ blank value
]

abbrev pub join : List String → String
join [] = ""
join (c ∷ []) = c
join (c ∷ d ∷ cs) = String.◌++◌ c (String.◌++◌ ", " (join (d ∷ cs)))

unfoldable pub validate_claims : Json → Fields → Result (Unit {0})
validate_claims schema_json claims = elim (parse_schema_definition schema_json) [
  | err e ↦ err e
  | ok schema ↦ elim (select (missing claims) schema.required_claims) [
    | [] ↦ ok tt
    | c ∷ cs ↦
        err (bad_request (String.◌++◌ "Missing required credential claims: " (join (c ∷ cs))))
  ]
]

abbrev pub new_schema :
    (id : ℕ) → CreateCredentialSchemaInput → CredentialSchemaDefinition → CredentialSchema
new_schema id input schema = record {
  id = id;
  organization_id = input.organization_id;
  name = input.name;
  version = input.version;
  description = input.description;
  schema_json = definition_json schema;
  status = "ACTIVE";
}

abbrev pub schema_clash : CredentialSchema → CredentialSchema → Bool
schema_clash c d =
    d.id == c.id
    || (d.organization_id == c.organization_id && d.name === c.name && d.version === c.version)

module _ (prisma : Prisma) where
  unfoldable pub create_schema :
      (others : Db → Db) (id : ℕ) → CreateCredentialSchemaInput → Action Db CredentialSchema
  create_schema others id input = do
    s ← gets (λ s. s)
    organization ←
        or_raise
          (prisma.find_first (λ (o : Organization). o.id == input.organization_id) s.organizations)
          (not_found "Organization not found")
    raise_if (not (organization_type_eq organization.type OrganizationType.university))
        (bad_request "Credential schemas can only belong to universities")
    schema ← of_result (parse_schema_definition input.schema_json)
    raise_if (not (schema.name === input.name))
        (bad_request "Schema name must match the credential schema name")
    raise_if (not (schema.version === input.version))
        (bad_request "Schema version must match the credential schema version")
    modify others
    s ← gets (λ s. s)
    schemas ←
        or_raise (prisma.create schema_clash (new_schema id input schema) s.credential_schemas)
          unique_violation
    modify (λ s. record s { credential_schemas = schemas })
    pure (new_schema id input schema)

  unfoldable pub find_by_id_for_organization : (id organization_id : ℕ) → Action Db CredentialSchema
  find_by_id_for_organization id organization_id = do
    s ← gets (λ s. s)
    or_raise
        (prisma.find_first
          (λ (c : CredentialSchema). c.id == id && c.organization_id == organization_id)
          s.credential_schemas)
        (not_found "Credential schema not found")
