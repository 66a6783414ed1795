-- ===== src/Dids/Keys.antt =====
-- The methods of src/did/did.service.ts that write: creation, rotation, recovery and revocation. A
-- method reads the DID first; `others` is what other requests do before its transaction.
use ssi_academic_credential.Common.{
  ℕ, ◌+◌, String, false, not, [], ◌∷◌, Option, none, some, Action, bad_request, conflict, not_found,
  unique_violation, ◌>>=◌, ◌>>◌, pure, raise_if, or_raise, gets, modify, ◌==◌,
}
use ssi_academic_credential.Prisma.{Prisma}
use ssi_academic_credential.Database.{
  Db, num, Did, DidOwnerType, DidStatus, DidKeyStatus, did_key_status_eq,
}
use ssi_academic_credential.Dids.{
  SupportedSignatureAlgorithm, KeyMaterial, still_at, key_in_status, set_version, retire_key,
  revoke_key, did_clash, key_clash, new_key, audit_actor_id, reason_entry, did_log, find_key,
}

pub record DidKeyRotationResult : Type 0 where
  pub did : ℕ
  pub key_version : ℕ
  pub public_key : ℕ

pub record DidKeyRevocationResult : Type 0 where
  pub did : ℕ
  pub key_version : ℕ
  pub revoked_at : ℕ

abbrev pub new_did : (id did owner_id : ℕ) → DidOwnerType → Did
new_did id did owner_id owner_type = record {
  id = id;
  did = did;
  owner_type = owner_type;
  owner_id = owner_id;
  current_key_version = 1;
  status = DidStatus.active;
}

abbrev pub rotation_result : Did → (version : ℕ) → KeyMaterial → DidKeyRotationResult
rotation_result d version fresh = record {
  did = d.did;
  key_version = version;
  public_key = fresh.public_key;
}

module _ (prisma : Prisma) where
  unfoldable pub rotate_key_body :
      (rotated_at : ℕ)
      → Did
      → DidOwnerType
      → ℕ
      → Option ℕ
      → SupportedSignatureAlgorithm
      → KeyMaterial
      → Action Db DidKeyRotationResult
  rotate_key_body rotated_at d owner_type owner_id actor_id algorithm fresh = do
    s ← gets (λ s. s)
    let turned =
        prisma.update_many (still_at d.id d.current_key_version)
          (set_version (d.current_key_version + 1)) s.dids
    modify (λ s. record s { dids = turned.1 })
    raise_if (not (turned.0 == 1)) (conflict "DID key has already been rotated")
    s ← gets (λ s. s)
    let closed =
        prisma.update_many (key_in_status d.id d.current_key_version DidKeyStatus.active)
          (retire_key rotated_at) s.did_keys
    modify (λ s. record s { did_keys = closed.1 })
    raise_if (not (closed.0 == 1)) (conflict "Current DID key is no longer active")
    s ← gets (λ s. s)
    keys ←
        or_raise
          (prisma.create key_clash (new_key d.id (d.current_key_version + 1) algorithm fresh)
            s.did_keys)
          unique_violation
    modify (λ s. record s { did_keys = keys })
    s ← gets (λ s. s)
    logs ←
        or_raise
          (prisma.create (λ _ _. false)
            (did_log (audit_actor_id owner_type owner_id actor_id) owner_type owner_id d
              "DID_KEY_ROTATED"
              (("previousKeyVersion", num d.current_key_version)
                ∷ ("newKeyVersion", num (d.current_key_version + 1))
                ∷ []))
            s.audit_logs)
          unique_violation
    modify (λ s. record s { audit_logs = logs })
    pure (rotation_result d (d.current_key_version + 1) fresh)

  unfoldable pub recover_key_body :
      (recovered_at : ℕ)
      → Did
      → DidOwnerType
      → ℕ
      → ℕ
      → Option String
      → SupportedSignatureAlgorithm
      → KeyMaterial
      → Action Db DidKeyRotationResult
  recover_key_body recovered_at d owner_type owner_id actor_id reason algorithm fresh = do
    s ← gets (λ s. s)
    let turned =
        prisma.update_many (still_at d.id d.current_key_version)
          (set_version (d.current_key_version + 1)) s.dids
    modify (λ s. record s { dids = turned.1 })
    raise_if (not (turned.0 == 1)) (conflict "DID key has already changed")
    s ← gets (λ s. s)
    let closed =
        prisma.update_many (key_in_status d.id d.current_key_version DidKeyStatus.active)
          (revoke_key recovered_at) s.did_keys
    modify (λ s. record s { did_keys = closed.1 })
    raise_if (not (closed.0 == 1)) (conflict "Current DID key is no longer active")
    s ← gets (λ s. s)
    keys ←
        or_raise
          (prisma.create key_clash (new_key d.id (d.current_key_version + 1) algorithm fresh)
            s.did_keys)
          unique_violation
    modify (λ s. record s { did_keys = keys })
    s ← gets (λ s. s)
    logs ←
        or_raise
          (prisma.create (λ _ _. false)
            (did_log (some actor_id) owner_type owner_id d "DID_KEY_RECOVERED" (
              ("compromisedKeyVersion", num d.current_key_version)
              ∷ ("newKeyVersion", num (d.current_key_version + 1))
              ∷ reason_entry reason))
            s.audit_logs)
          unique_violation
    modify (λ s. record s { audit_logs = logs })
    pure (rotation_result d (d.current_key_version + 1) fresh)

  unfoldable pub check_historical : Did → (version : ℕ) → Action Db (Unit {0})
  check_historical d version = do
    raise_if (version == 0) (bad_request "DID key version must be a positive integer")
    raise_if (version == d.current_key_version)
        (conflict "Current DID key must be recovered instead of revoked")
    s ← gets (λ s. s)
    k ← or_raise (find_key prisma d.id version s) (not_found "DID key not found")
    raise_if (did_key_status_eq k.status DidKeyStatus.revoked)
        (conflict "DID key is already revoked")
    raise_if (not (did_key_status_eq k.status DidKeyStatus.retired))
        (conflict "Only a retired historical DID key can be revoked")

  unfoldable pub revoke_key_body :
      (revoked_at : ℕ)
      → Did
      → (version : ℕ) → DidOwnerType
      → ℕ
      → ℕ
      → Option String
      → Action Db DidKeyRevocationResult
  revoke_key_body revoked_at d version owner_type owner_id actor_id reason = do
    s ← gets (λ s. s)
    let closed =
        prisma.update_many (key_in_status d.id version DidKeyStatus.retired) (revoke_key revoked_at)
          s.did_keys
    modify (λ s. record s { did_keys = closed.1 })
    raise_if (not (closed.0 == 1)) (conflict "DID key status changed; retry request")
    s ← gets (λ s. s)
    logs ←
        or_raise
          (prisma.create (λ _ _. false)
            (did_log (some actor_id) owner_type owner_id d "DID_KEY_REVOKED"
              (("keyVersion", num version) ∷ reason_entry reason))
            s.audit_logs)
          unique_violation
    modify (λ s. record s { audit_logs = logs })
    pure (record { did = d.did; key_version = version; revoked_at = revoked_at })

  unfoldable pub create_did_body :
      (id did : ℕ) → DidOwnerType → ℕ → SupportedSignatureAlgorithm → KeyMaterial → Action Db Did
  create_did_body id did owner_type owner_id algorithm fresh = do
    s ← gets (λ s. s)
    dids ←
        or_raise (prisma.create did_clash (new_did id did owner_id owner_type) s.dids)
          unique_violation
    modify (λ s. record s { dids = dids })
    s ← gets (λ s. s)
    keys ←
        or_raise (prisma.create key_clash (new_key id 1 algorithm fresh) s.did_keys)
          unique_violation
    modify (λ s. record s { did_keys = keys })
    s ← gets (λ s. s)
    logs ←
        or_raise
          (prisma.create (λ _ _. false)
            (did_log (audit_actor_id owner_type owner_id none) owner_type owner_id
              (new_did id did owner_id owner_type) "DID_CREATED" (("keyVersion", num 1) ∷ []))
            s.audit_logs)
          unique_violation
    modify (λ s. record s { audit_logs = logs })
    pure (new_did id did owner_id owner_type)
