-- ===== src/Credentials/Issuance.antt =====
-- src/credentials/credential-issuance.service.ts: the transaction of `issue`. The identifiers are
-- those that the database makes for the new rows.
use ssi_academic_credential.Common.{
  ℕ, Option, none, some, Bool, false, ◌||◌, ◌∷◌, [], Action, unique_violation, ◌>>=◌, ◌>>◌, pure,
  or_raise, gets, modify, ◌==◌,
}
use ssi_academic_credential.Prisma.{Prisma}
use ssi_academic_credential.Database.{
  Db, Credential, CredentialStatus, WalletCredential, CredentialStatusHistory, AuditLog, Json, uuid,
  object,
}

pub record EncryptedData : Type 0 where
  pub ciphertext : ℕ
  pub iv : ℕ
  pub auth_tag : ℕ
  pub key_id : ℕ

-- What `prepare` returns.
pub record PreparedCredential : Type 0 where
  pub vc_id : ℕ
  pub issuer_organization_id : ℕ
  pub issuer_did : ℕ
  pub holder_id : ℕ
  pub holder_did : ℕ
  pub schema_id : ℕ
  pub academic_record_id : ℕ
  pub credential_hash : ℕ
  pub issued_at : ℕ
  pub expires_at : Option ℕ
  pub signed_credential : Json
  pub encrypted_wallet_credential : EncryptedData

pub record IssuedCredential : Type 0 where
  pub credential : Credential
  pub wallet_credential_id : ℕ
  pub signed_credential : Json

-- The unique columns of a credential and of a wallet entry.
abbrev pub credential_clash : Credential → Credential → Bool
credential_clash c d = d.id == c.id || d.vc_id == c.vc_id

abbrev pub wallet_clash : WalletCredential → WalletCredential → Bool
wallet_clash v w = w.id == v.id || w.credential_id == v.credential_id

abbrev pub new_credential : ℕ → PreparedCredential → Credential
new_credential id p = record {
  id = id;
  vc_id = p.vc_id;
  issuer_organization_id = p.issuer_organization_id;
  issuer_did = p.issuer_did;
  holder_id = p.holder_id;
  holder_did = p.holder_did;
  schema_id = p.schema_id;
  academic_record_id = p.academic_record_id;
  credential_hash = p.credential_hash;
  status = CredentialStatus.active;
  issued_at = p.issued_at;
  expires_at = p.expires_at;
}

abbrev pub new_wallet_credential : ℕ → ℕ → PreparedCredential → WalletCredential
new_wallet_credential wallet_id id p = record {
  id = wallet_id;
  holder_id = p.holder_id;
  credential_id = id;
  ciphertext = p.encrypted_wallet_credential.ciphertext;
  iv = p.encrypted_wallet_credential.iv;
  auth_tag = p.encrypted_wallet_credential.auth_tag;
  encryption_key_id = some p.encrypted_wallet_credential.key_id;
}

abbrev pub issue_history : ℕ → ℕ → CredentialStatusHistory
issue_history id actor_id = record {
  credential_id = id;
  previous_status = none;
  new_status = CredentialStatus.active;
  reason = some "Credential issued";
  changed_by = actor_id;
}

abbrev pub issue_audit : ℕ → ℕ → PreparedCredential → AuditLog
issue_audit id actor_id p = record {
  actor_id = some actor_id;
  organization_id = some p.issuer_organization_id;
  action = "CREDENTIAL_ISSUED";
  resource_type = some "Credential";
  resource_id = some id;
  metadata = some (
      object (
        ("vcId", uuid p.vc_id)
        ∷ ("holderId", uuid p.holder_id)
        ∷ ("academicRecordId", uuid p.academic_record_id)
        ∷ ("schemaId", uuid p.schema_id)
        ∷ []));
}

module _ (prisma : Prisma) (id wallet_id actor_id : ℕ) (p : PreparedCredential) where
  unfoldable pub issue_body : Action Db IssuedCredential
  issue_body = do
    s ← gets (λ s. s)
    credentials ←
        or_raise (prisma.create credential_clash (new_credential id p) s.credentials)
          unique_violation
    modify (λ s. record s { credentials = credentials })
    wallet ←
        or_raise
          (prisma.create wallet_clash (new_wallet_credential wallet_id id p) s.wallet_credentials)
          unique_violation
    modify (λ s. record s { wallet_credentials = wallet })
    history ←
        or_raise (prisma.create (λ _ _. false) (issue_history id actor_id) s.status_history)
          unique_violation
    modify (λ s. record s { status_history = history })
    logs ←
        or_raise (prisma.create (λ _ _. false) (issue_audit id actor_id p) s.audit_logs)
          unique_violation
    modify (λ s. record s { audit_logs = logs })
    pure (record {
      credential = new_credential id p;
      wallet_credential_id = wallet_id;
      signed_credential = p.signed_credential;
    })

  unfoldable pub issue_transaction : Action Db IssuedCredential
  issue_transaction = prisma.transaction issue_body
