-- ===== src/Database/Rows.antt =====
-- The rows of prisma/schema.prisma. `cgpa` is a decimal with two places, in hundredths.
use ssi_academic_credential.Common.{ℕ, String, Option, Bool}
use ssi_academic_credential.Database.Values.{Json}
use ssi_academic_credential.Database.Enums.{
  UserRole, OrganizationType, OrganizationStatus, DidOwnerType, DidStatus, DidKeyStatus,
  AcademicRecordStatus, CredentialStatus, TrustedIssuerStatus, ApplicationStatus,
  EducationVerificationStatus, VerificationRequestStatus, VerificationFinalResult,
}

pub record User : Type 0 where
  pub id : ℕ
  pub name : String
  pub email : String
  pub password_hash : ℕ
  pub role : UserRole

pub record RefreshTokenFamily : Type 0 where
  pub id : ℕ
  pub user_id : ℕ
  pub revoked_at : Option ℕ

pub record RefreshToken : Type 0 where
  pub user_id : ℕ
  pub family_id : ℕ
  pub token_hash : ℕ
  pub expires_at : ℕ
  pub revoked_at : Option ℕ

pub record Organization : Type 0 where
  pub id : ℕ
  pub name : String
  pub type : OrganizationType
  pub status : OrganizationStatus

pub record Did : Type 0 where
  pub id : ℕ
  pub did : ℕ
  pub owner_type : DidOwnerType
  pub owner_id : ℕ
  pub current_key_version : ℕ
  pub status : DidStatus

pub record DidKey : Type 0 where
  pub did_id : ℕ
  pub version : ℕ
  pub public_key : ℕ
  pub encrypted_private_key : Option ℕ
  pub iv : Option ℕ
  pub auth_tag : Option ℕ
  pub encryption_key_id : Option ℕ
  pub algorithm : String
  pub status : DidKeyStatus
  pub retired_at : Option ℕ
  pub revoked_at : Option ℕ

pub record AcademicRecord : Type 0 where
  pub id : ℕ
  pub university_id : ℕ
  pub holder_id : ℕ
  pub student_id : ℕ
  pub full_name : String
  pub degree : String
  pub department : Option String
  pub major : String
  pub cgpa : Option ℕ
  pub graduation_year : ℕ
  pub graduation_date : Option ℕ
  pub status : AcademicRecordStatus

pub record CredentialSchema : Type 0 where
  pub id : ℕ
  pub organization_id : ℕ
  pub name : String
  pub version : String
  pub description : Option String
  pub schema_json : Json
  pub status : String

pub record Credential : Type 0 where
  pub id : ℕ
  pub vc_id : ℕ
  pub issuer_organization_id : ℕ
  pub issuer_did : ℕ
  pub holder_id : ℕ
  pub holder_did : ℕ
  pub schema_id : ℕ
  pub academic_record_id : ℕ
  pub credential_hash : ℕ
  pub status : CredentialStatus
  pub issued_at : ℕ
  pub expires_at : Option ℕ

pub record WalletCredential : Type 0 where
  pub id : ℕ
  pub holder_id : ℕ
  pub credential_id : ℕ
  pub ciphertext : ℕ
  pub iv : ℕ
  pub auth_tag : ℕ
  pub encryption_key_id : Option ℕ

pub record TrustedIssuer : Type 0 where
  pub id : ℕ
  pub organization_id : ℕ
  pub issuer_did : ℕ
  pub status : TrustedIssuerStatus
  pub approved_by : ℕ
  pub suspended_at : Option ℕ

pub record CredentialStatusHistory : Type 0 where
  pub credential_id : ℕ
  pub previous_status : Option CredentialStatus
  pub new_status : CredentialStatus
  pub reason : Option String
  pub changed_by : ℕ

pub record Job : Type 0 where
  pub id : ℕ
  pub bank_id : ℕ
  pub title : String
  pub description : Option String
  pub required_claims : Json
  pub status : String

pub record Application : Type 0 where
  pub id : ℕ
  pub job_id : ℕ
  pub holder_id : ℕ
  pub status : ApplicationStatus
  pub education_verification_status : EducationVerificationStatus
  pub verified_academic_data : Option Json

pub record VerificationRequest : Type 0 where
  pub id : ℕ
  pub application_id : ℕ
  pub verifier_id : ℕ
  pub holder_id : ℕ
  pub requested_claims : Json
  pub nonce_hash : ℕ
  pub status : VerificationRequestStatus
  pub expires_at : ℕ

pub record Presentation : Type 0 where
  pub id : ℕ
  pub request_id : ℕ
  pub credential_id : ℕ
  pub holder_id : ℕ
  pub holder_did : ℕ
  pub disclosed_claims : Json
  pub nonce : ℕ
  pub presentation_hash : ℕ
  pub holder_proof : Json

pub record VerificationResult : Type 0 where
  pub id : ℕ
  pub presentation_id : ℕ
  pub application_id : ℕ
  pub request_valid : Bool
  pub nonce_valid : Bool
  pub holder_proof_valid : Bool
  pub hash_valid : Bool
  pub issuer_signature_valid : Bool
  pub issuer_trusted : Bool
  pub credential_status_valid : Bool
  pub schema_valid : Bool
  pub holder_matches : Bool
  pub claims_valid : Bool
  pub final_result : VerificationFinalResult
  pub failure_reason : Option String

pub record AuditLog : Type 0 where
  pub actor_id : Option ℕ
  pub organization_id : Option ℕ
  pub action : String
  pub resource_type : Option String
  pub resource_id : Option ℕ
  pub metadata : Option Json
