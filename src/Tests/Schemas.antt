-- ===== src/Tests/Schemas.antt =====
-- src/credential-schemas at concrete inputs: the schema of a degree.
use ssi_academic_credential.Common.{[], ◌∷◌, none, ok, err, bad_request, ◌≡◌, ◌↔◌, refl, All}
use ssi_academic_credential.Database.{
  Db, empty_db, Fields, fields, str, OrganizationType, OrganizationStatus,
}
use ssi_academic_credential.Text.{trim}
use ssi_academic_credential.Requests.Claims.{get}
use ssi_academic_credential.CredentialSchemas.{
  CredentialSchemaDefinition, CreateCredentialSchemaInput, parse_schema_definition, definition_json,
  validate_claims, new_schema, create_schema,
}
use ssi_academic_credential.CredentialSchemas.WellFormed.{WellFormed, create_schema-WellFormed}
use ssi_academic_credential.CredentialSchemas.Validation.{Supplied, validate_claims_iff}
use ssi_academic_credential.Tests.Memory.{memory}

abbrev degree_schema : CredentialSchemaDefinition
degree_schema = record {
  name = "Degree";
  version = "1";
  required_claims = "degree" ∷ "toString" ∷ [];
}

abbrev degree_input : CreateCredentialSchemaInput
degree_input = record {
  organization_id = 5;
  name = "Degree";
  version = "1";
  description = none;
  schema_json = definition_json degree_schema;
}

abbrev registered : Db
registered = record empty_db {
  organizations =
      record {
        id = 5;
        name = "University";
        type = OrganizationType.university;
        status = OrganizationStatus.active;
      }
      ∷ [];
}

abbrev left_alone : Db → Db
left_alone s = s

created : create_schema memory left_alone 1 degree_input registered ≡ (
  ok (new_schema 1 degree_input degree_schema),
  record registered { credential_schemas = new_schema 1 degree_input degree_schema ∷ [] },
)
unfolding create_schema parse_schema_definition get trim
created = refl

create_schema-WellFormed_example :
    WellFormed (create_schema memory left_alone 1 degree_input registered).1
create_schema-WellFormed_example =
    create_schema-WellFormed memory left_alone 1 degree_input (λ s v. v) registered tt

abbrev degree_claims : Fields
degree_claims = fields (("degree", str "BSc") ∷ [])

-- `toString` is not missing, although no claim has that name.
accepted : validate_claims (definition_json degree_schema) degree_claims ≡ ok tt
unfolding validate_claims parse_schema_definition get trim
accepted = refl

refused_blank :
    validate_claims (definition_json degree_schema) (fields (("degree", str "") ∷ []))
    ≡ err (bad_request "Missing required credential claims: degree")
unfolding validate_claims parse_schema_definition get trim
refused_blank = refl

validate_claims_iff_example :
    (validate_claims (definition_json degree_schema) degree_claims ≡ ok tt) ↔ (
      (d : CredentialSchemaDefinition) × (parse_schema_definition (definition_json degree_schema)
        ≡ ok d)
      × All (Supplied degree_claims) d.required_claims)
validate_claims_iff_example = validate_claims_iff (definition_json degree_schema) degree_claims
