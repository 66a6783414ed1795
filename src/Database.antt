-- ===== src/Database.antt =====
-- The tables of prisma/schema.prisma that the services read and write. Identifiers are only
-- compared, so they are numbers; a date is its number of milliseconds; the columns that no service
-- reads (`createdAt`, `updatedAt`, the keys of log rows) are left out, and a table holds its newest
-- row first.
mod Enums
mod Values
mod Rows
pub use Enums.*
pub use Values.*
pub use Rows.*
use ssi_academic_credential.Common.{List, []}

pub record Db : Type 0 where
  pub users : List User
  pub refresh_token_families : List RefreshTokenFamily
  pub refresh_tokens : List RefreshToken
  pub organizations : List Organization
  pub dids : List Did
  pub did_keys : List DidKey
  pub academic_records : List AcademicRecord
  pub credential_schemas : List CredentialSchema
  pub credentials : List Credential
  pub wallet_credentials : List WalletCredential
  pub trusted_issuers : List TrustedIssuer
  pub status_history : List CredentialStatusHistory
  pub jobs : List Job
  pub applications : List Application
  pub verification_requests : List VerificationRequest
  pub presentations : List Presentation
  pub verification_results : List VerificationResult
  pub audit_logs : List AuditLog

abbrev pub empty_db : Db
empty_db = record {
  users = [];
  refresh_token_families = [];
  refresh_tokens = [];
  organizations = [];
  dids = [];
  did_keys = [];
  academic_records = [];
  credential_schemas = [];
  credentials = [];
  wallet_credentials = [];
  trusted_issuers = [];
  status_history = [];
  jobs = [];
  applications = [];
  verification_requests = [];
  presentations = [];
  verification_results = [];
  audit_logs = [];
}
