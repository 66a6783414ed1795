-- ===== src/Credentials/Status.antt =====
-- src/credentials/credential-status.service.ts. A method reads the credential first and changes it
-- in a transaction later; `others` is what other requests do to the database in between.
pub mod Laws
use ssi_academic_credential.Common.{
  ℕ, String, Option, none, some, Bool, true, false, not, ◌&&◌, ◌||◌, ◌∷◌, [], List, ◌++◌, Result,
  ok, err, Action, not_found, conflict, unique_violation, ◌>>=◌, ◌>>◌, pure, raise, raise_if,
  or_raise, gets, modify, of_result, ◌==◌, ltb, leb, if◌then◌else◌,
}
use ssi_academic_credential.Prisma.{Prisma}
use ssi_academic_credential.Database.{
  Db, Credential, CredentialStatus, credential_status_eq, CredentialStatusHistory, AuditLog, Json,
  str, object,
}

pub record ChangeCredentialStatusInput : Type 0 where
  pub credential_id : ℕ
  pub issuer_organization_id : ℕ
  pub changed_by : ℕ
  pub reason : Option String

-- The argument of `changeStatus`.
pub record StatusChange : Type 0 where
  pub credential_id : ℕ
  pub issuer_organization_id : ℕ
  pub previous_status : CredentialStatus
  pub new_status : CredentialStatus
  pub changed_by : ℕ
  pub reason : Option String
  pub audit_action : String
  pub require_unexpired : Bool

abbrev pub status_name : CredentialStatus → String
status_name CredentialStatus.active = "ACTIVE"
status_name CredentialStatus.suspended = "SUSPENDED"
status_name CredentialStatus.revoked = "REVOKED"
status_name CredentialStatus.expired = "EXPIRED"

-- `expiresAt` is null or later than `now`.
abbrev pub unexpired : ℕ → Credential → Bool
unexpired now c = elim c.expires_at [ none ↦ true | some e ↦ ltb now e ]

abbrev pub owned : ℕ → ℕ → Credential → Bool
owned id org c = c.id == id && c.issuer_organization_id == org

-- The `where` of the update in `changeStatus`.
abbrev pub change_where : ℕ → StatusChange → Credential → Bool
change_where now i c =
    owned i.credential_id i.issuer_organization_id c
    && credential_status_eq c.status i.previous_status
    && (not i.require_unexpired || unexpired now c)

abbrev pub set_status : CredentialStatus → Credential → Credential
set_status st c = record c { status = st }

abbrev pub history_entry : StatusChange → CredentialStatusHistory
history_entry i = record {
  credential_id = i.credential_id;
  previous_status = some i.previous_status;
  new_status = i.new_status;
  reason = i.reason;
  changed_by = i.changed_by;
}

-- `...(input.reason ? { reason } : {})`: an empty text is left out too.
abbrev pub reason_field : Option String → List (String × Json)
reason_field none = []
reason_field (some String.[]) = []
reason_field (some r) = ("reason", str r) ∷ []

abbrev pub change_audit : StatusChange → AuditLog
change_audit i = record {
  actor_id = some i.changed_by;
  organization_id = some i.issuer_organization_id;
  action = i.audit_action;
  resource_type = some "Credential";
  resource_id = some i.credential_id;
  metadata = some (
      object (
        ("previousStatus", str (status_name i.previous_status))
        ∷ ("newStatus", str (status_name i.new_status))
        ∷ reason_field i.reason));
}

module _ (prisma : Prisma) where
  unfoldable pub find_issuer_credential : ℕ → ℕ → Action Db Credential
  find_issuer_credential id org = do
    s ← gets (λ s. s)
    or_raise (prisma.find_first (owned id org) s.credentials) (not_found "Credential not found")

  -- The function that `changeStatus` hands to the transaction.
  unfoldable pub change_body : ℕ → StatusChange → Action Db Credential
  change_body now i = do
    s ← gets (λ s. s)
    let updated = prisma.update_many (change_where now i) (set_status i.new_status) s.credentials
    modify (λ s. record s { credentials = updated.1 })
    raise_if (not (updated.0 == 1)) (conflict "Credential status changed; retry request")
    history ←
        or_raise (prisma.create (λ _ _. false) (history_entry i) s.status_history) unique_violation
    modify (λ s. record s { status_history = history })
    logs ← or_raise (prisma.create (λ _ _. false) (change_audit i) s.audit_logs) unique_violation
    modify (λ s. record s { audit_logs = logs })
    find_issuer_credential i.credential_id i.issuer_organization_id

  unfoldable pub change_status : ℕ → StatusChange → Action Db Credential
  change_status now i = prisma.transaction (change_body now i)

-- What `suspend` decides from the credential that it reads.
unfoldable pub suspend_check : ChangeCredentialStatusInput → Credential → Result StatusChange
suspend_check input c =
    if not (credential_status_eq c.status CredentialStatus.active)
    then err (conflict "Only an active credential can be suspended")
    else ok (record {
      credential_id = c.id;
      issuer_organization_id = input.issuer_organization_id;
      previous_status = c.status;
      new_status = CredentialStatus.suspended;
      changed_by = input.changed_by;
      reason = input.reason;
      audit_action = "CREDENTIAL_SUSPENDED";
      require_unexpired = false;
    })

unfoldable pub revoke_check : ChangeCredentialStatusInput → Credential → Result StatusChange
revoke_check input c =
    if credential_status_eq c.status CredentialStatus.revoked
    then err (conflict "Credential is already revoked")
    else if credential_status_eq c.status CredentialStatus.expired
    then err (conflict "An expired credential cannot be revoked")
    else ok (record {
      credential_id = c.id;
      issuer_organization_id = input.issuer_organization_id;
      previous_status = c.status;
      new_status = CredentialStatus.revoked;
      changed_by = input.changed_by;
      reason = input.reason;
      audit_action = "CREDENTIAL_REVOKED";
      require_unexpired = false;
    })

unfoldable pub reactivate_check : ℕ → ChangeCredentialStatusInput → Credential → Result StatusChange
reactivate_check now input c =
    if not (credential_status_eq c.status CredentialStatus.suspended)
    then err (conflict "Only a suspended credential can be reactivated")
    else if not (unexpired now c)
    then err (conflict "An expired credential cannot be reactivated")
    else ok (record {
      credential_id = c.id;
      issuer_organization_id = input.issuer_organization_id;
      previous_status = c.status;
      new_status = CredentialStatus.active;
      changed_by = input.changed_by;
      reason = input.reason;
      audit_action = "CREDENTIAL_REACTIVATED";
      require_unexpired = true;
    })

module _ (prisma : Prisma) (others : Db → Db) (input : ChangeCredentialStatusInput) where
  -- A method reads, decides, lets the others run, and changes.
  unfoldable pub change_by : ℕ → (Credential → Result StatusChange) → Action Db Credential
  change_by now check = do
    c ← find_issuer_credential prisma input.credential_id input.issuer_organization_id
    i ← of_result (check c)
    modify others
    change_status prisma now i

  -- `now` is read by the transaction only where the update asks for an unexpired credential.
  unfoldable pub suspend : ℕ → Action Db Credential
  suspend now = change_by now (suspend_check input)

  unfoldable pub revoke : ℕ → Action Db Credential
  revoke now = change_by now (revoke_check input)

  -- The clock is read twice, by the check and by the update.
  unfoldable pub reactivate : (now later : ℕ) → Action Db Credential
  reactivate now later = change_by later (reactivate_check now input)
