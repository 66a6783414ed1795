-- ===== src/Database/Enums.antt =====
-- The enumerations of prisma/schema.prisma, with the test of `===` on each.
use ssi_academic_credential.Common.{Bool, true, false}

pub data UserRole : Type 0 where
  system_admin issuer_admin holder verifier_admin : UserRole

abbrev pub user_role_eq : UserRole → UserRole → Bool
user_role_eq UserRole.system_admin UserRole.system_admin = true
user_role_eq UserRole.issuer_admin UserRole.issuer_admin = true
user_role_eq UserRole.holder UserRole.holder = true
user_role_eq UserRole.verifier_admin UserRole.verifier_admin = true
user_role_eq _ _ = false

pub data OrganizationType : Type 0 where
  university bank : OrganizationType

abbrev pub organization_type_eq : OrganizationType → OrganizationType → Bool
organization_type_eq OrganizationType.university OrganizationType.university = true
organization_type_eq OrganizationType.bank OrganizationType.bank = true
organization_type_eq _ _ = false

pub data OrganizationStatus : Type 0 where
  active suspended disabled : OrganizationStatus

abbrev pub organization_status_eq : OrganizationStatus → OrganizationStatus → Bool
organization_status_eq OrganizationStatus.active OrganizationStatus.active = true
organization_status_eq OrganizationStatus.suspended OrganizationStatus.suspended = true
organization_status_eq OrganizationStatus.disabled OrganizationStatus.disabled = true
organization_status_eq _ _ = false

pub data DidOwnerType : Type 0 where
  organization user : DidOwnerType

abbrev pub did_owner_type_eq : DidOwnerType → DidOwnerType → Bool
did_owner_type_eq DidOwnerType.organization DidOwnerType.organization = true
did_owner_type_eq DidOwnerType.user DidOwnerType.user = true
did_owner_type_eq _ _ = false

pub data DidStatus : Type 0 where
  active suspended revoked : DidStatus

abbrev pub did_status_eq : DidStatus → DidStatus → Bool
did_status_eq DidStatus.active DidStatus.active = true
did_status_eq DidStatus.suspended DidStatus.suspended = true
did_status_eq DidStatus.revoked DidStatus.revoked = true
did_status_eq _ _ = false

pub data AcademicRecordStatus : Type 0 where
  active graduated withdrawn invalid : AcademicRecordStatus

abbrev pub academic_record_status_eq : AcademicRecordStatus → AcademicRecordStatus → Bool
academic_record_status_eq AcademicRecordStatus.active AcademicRecordStatus.active = true
academic_record_status_eq AcademicRecordStatus.graduated AcademicRecordStatus.graduated = true
academic_record_status_eq AcademicRecordStatus.withdrawn AcademicRecordStatus.withdrawn = true
academic_record_status_eq AcademicRecordStatus.invalid AcademicRecordStatus.invalid = true
academic_record_status_eq _ _ = false

pub data CredentialStatus : Type 0 where
  active suspended revoked expired : CredentialStatus

abbrev pub credential_status_eq : CredentialStatus → CredentialStatus → Bool
credential_status_eq CredentialStatus.active CredentialStatus.active = true
credential_status_eq CredentialStatus.suspended CredentialStatus.suspended = true
credential_status_eq CredentialStatus.revoked CredentialStatus.revoked = true
credential_status_eq CredentialStatus.expired CredentialStatus.expired = true
credential_status_eq _ _ = false

pub data TrustedIssuerStatus : Type 0 where
  trusted suspended revoked : TrustedIssuerStatus

abbrev pub trusted_issuer_status_eq : TrustedIssuerStatus → TrustedIssuerStatus → Bool
trusted_issuer_status_eq TrustedIssuerStatus.trusted TrustedIssuerStatus.trusted = true
trusted_issuer_status_eq TrustedIssuerStatus.suspended TrustedIssuerStatus.suspended = true
trusted_issuer_status_eq TrustedIssuerStatus.revoked TrustedIssuerStatus.revoked = true
trusted_issuer_status_eq _ _ = false

pub data ApplicationStatus : Type 0 where
  draft submitted under_review accepted rejected : ApplicationStatus

abbrev pub application_status_eq : ApplicationStatus → ApplicationStatus → Bool
application_status_eq ApplicationStatus.draft ApplicationStatus.draft = true
application_status_eq ApplicationStatus.submitted ApplicationStatus.submitted = true
application_status_eq ApplicationStatus.under_review ApplicationStatus.under_review = true
application_status_eq ApplicationStatus.accepted ApplicationStatus.accepted = true
application_status_eq ApplicationStatus.rejected ApplicationStatus.rejected = true
application_status_eq _ _ = false

pub data EducationVerificationStatus : Type 0 where
  not_verified pending verified failed : EducationVerificationStatus

abbrev pub education_verification_status_eq :
    EducationVerificationStatus → EducationVerificationStatus → Bool
education_verification_status_eq EducationVerificationStatus.not_verified
      EducationVerificationStatus.not_verified =
    true
education_verification_status_eq EducationVerificationStatus.pending
      EducationVerificationStatus.pending =
    true
education_verification_status_eq EducationVerificationStatus.verified
      EducationVerificationStatus.verified =
    true
education_verification_status_eq EducationVerificationStatus.failed
      EducationVerificationStatus.failed =
    true
education_verification_status_eq _ _ = false

pub data VerificationRequestStatus : Type 0 where
  pending approved rejected expired verified failed : VerificationRequestStatus

abbrev pub verification_request_status_eq :
    VerificationRequestStatus → VerificationRequestStatus → Bool
verification_request_status_eq VerificationRequestStatus.pending VerificationRequestStatus.pending =
    true
verification_request_status_eq VerificationRequestStatus.approved
      VerificationRequestStatus.approved =
    true
verification_request_status_eq VerificationRequestStatus.rejected
      VerificationRequestStatus.rejected =
    true
verification_request_status_eq VerificationRequestStatus.expired VerificationRequestStatus.expired =
    true
verification_request_status_eq VerificationRequestStatus.verified
      VerificationRequestStatus.verified =
    true
verification_request_status_eq VerificationRequestStatus.failed VerificationRequestStatus.failed =
    true
verification_request_status_eq _ _ = false

pub data VerificationFinalResult : Type 0 where
  verified failed : VerificationFinalResult

pub data DidKeyStatus : Type 0 where
  active retired revoked : DidKeyStatus

abbrev pub did_key_status_eq : DidKeyStatus → DidKeyStatus → Bool
did_key_status_eq DidKeyStatus.active DidKeyStatus.active = true
did_key_status_eq DidKeyStatus.retired DidKeyStatus.retired = true
did_key_status_eq DidKeyStatus.revoked DidKeyStatus.revoked = true
did_key_status_eq _ _ = false
