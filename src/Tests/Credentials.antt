-- ===== src/Tests/Credentials.antt =====
-- src/credentials at concrete inputs.
use ssi_academic_credential.Common.{none, some, ◌≡◌, ◌⊎◌, refl, ok, err, conflict, [], ◌∷◌, arith}
use ssi_academic_credential.Database.{Db, empty_db, CredentialStatus, Json}
use ssi_academic_credential.Credentials.Status.{
  ChangeCredentialStatusInput, suspend, find_issuer_credential, change_by, suspend_check,
  change_status, change_body,
}
use ssi_academic_credential.Credentials.Issuance.{
  PreparedCredential, issue_transaction, issue_body, new_credential,
}
use ssi_academic_credential.Credentials.History.{Consistent, last_status}
use ssi_academic_credential.Credentials.History.Issue.{issued, issued_result, issued-Consistent}
use ssi_academic_credential.Credentials.Calls.Theorems.{
  suspends, reactivates, changes, after, perform, after-Consistent, perform_ok, perform_err,
  Outcome,
}
use ssi_academic_credential.Credentials.Calls.Final.{after-RevokedIn, RevokedIn}
use ssi_academic_credential.Tests.Memory.{memory}

abbrev alone : Db → Db
alone s = s

abbrev prepared : PreparedCredential
prepared = record {
  vc_id = 70;
  issuer_organization_id = 5;
  issuer_did = 50;
  holder_id = 9;
  holder_did = 90;
  schema_id = 3;
  academic_record_id = 4;
  credential_hash = 1000;
  issued_at = 100;
  expires_at = some 900;
  signed_credential = Json.null;
  encrypted_wallet_credential = record { ciphertext = 1; iv = 2; auth_tag = 3; key_id = 1 };
}

abbrev input : ChangeCredentialStatusInput
input = record { credential_id = 7; issuer_organization_id = 5; changed_by = 2; reason = none }

-- One credential, issued and active.
abbrev one_active : Db
one_active = issued 7 8 2 prepared empty_db

issue_once :
    issue_transaction memory 7 8 2 prepared empty_db ≡ (ok (issued_result 7 8 prepared), one_active)
unfolding issue_transaction issue_body
issue_once = refl

empty-Consistent : Consistent empty_db
unfolding last_status
empty-Consistent = record { keys = tt; linked = tt; lawful = tt; agrees = tt; known = λ k f. refl }

one_active-Consistent : Consistent one_active
one_active-Consistent = issued-Consistent memory 7 8 2 prepared empty_db refl empty-Consistent

after-Consistent_example :
    Consistent (after memory alone (changes suspends input 200 201) one_active)
after-Consistent_example =
    after-Consistent memory alone (λ s v. v) (changes suspends input 200 201) one_active
      one_active-Consistent

suspend_twice :
    (suspend memory alone input 202 (suspend memory alone input 201 one_active).1).0
    ≡ err (conflict "Only an active credential can be suspended")
unfolding suspend change_by find_issuer_credential suspend_check change_status change_body
suspend_twice = refl

-- The credential after another request has revoked it.
abbrev revoked_db : Db
revoked_db = record one_active {
  credentials = record (new_credential 7 prepared) { status = CredentialStatus.revoked } ∷ [];
}

-- A request that revokes the credential between the read and the transaction of another.
abbrev overtaking : Db → Db
overtaking s = revoked_db

perform_ok_example :
    Outcome suspends input 201 one_active
      (record (new_credential 7 prepared) { status = CredentialStatus.suspended })
      (perform memory alone suspends input 200 201 one_active).1
unfolding perform suspend change_by find_issuer_credential suspend_check change_status change_body
perform_ok_example =
    perform_ok memory alone suspends input 200 201 one_active
      (record (new_credential 7 prepared) { status = CredentialStatus.suspended })
      (perform memory alone suspends input 200 201 one_active).1 (omega arith) refl

perform_err_example : (revoked_db ≡ one_active) ⊎ (revoked_db ≡ overtaking one_active)
unfolding perform suspend change_by find_issuer_credential suspend_check change_status change_body
perform_err_example =
    perform_err memory overtaking suspends input 200 201 one_active
      (conflict "Credential status changed; retry request") revoked_db refl

after-RevokedIn_example :
    RevokedIn 7 (after memory alone (changes reactivates input 200 201) revoked_db).credentials
after-RevokedIn_example =
    after-RevokedIn memory alone 7 (λ s v. v) (changes reactivates input 200 201) revoked_db
      (λ id w a p e. cc) ((λ e. refl), tt)
