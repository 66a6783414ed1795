-- ===== src/Dids.antt =====
-- src/did/did.service.ts: DIDs and their keys. This file has the rows that the transactions write, the
-- lookups and the checks. Generating a key pair and encrypting its private key are outside: `fresh` is
-- what they make. A verification method `<did>#key-<version>` is the record of its two parts.
pub mod Keys
pub mod Methods
pub mod Signing
pub mod Invariant
pub mod Revoked
use ssi_academic_credential.Common.{
  ℕ, suc, ◌+◌, String, Bool, true, false, not, ◌&&◌, ◌||◌, List, [], ◌∷◌, ◌++◌, Option, none, some,
  Result, ok, err, Error, Action, bad_request, conflict, not_found, ◌>>=◌, ◌>>◌, pure, raise,
  raise_if, or_raise, gets, ◌==◌, if◌then◌else◌,
}
use ssi_academic_credential.Text.{◌===◌, is_empty}
use ssi_academic_credential.Prisma.{Prisma}
use ssi_academic_credential.Database.{
  Db, Json, str, num, uuid, object, User, UserRole, user_role_eq, Organization, OrganizationStatus,
  organization_status_eq, Did, DidOwnerType, did_owner_type_eq, DidStatus, did_status_eq, DidKey,
  DidKeyStatus, did_key_status_eq, AuditLog,
}

pub data SupportedSignatureAlgorithm : Type 0 where
  ed25519 p256 : SupportedSignatureAlgorithm

abbrev pub algorithm_name : SupportedSignatureAlgorithm → String
algorithm_name SupportedSignatureAlgorithm.ed25519 = "Ed25519"
algorithm_name SupportedSignatureAlgorithm.p256 = "P-256"

abbrev pub same_algorithm : SupportedSignatureAlgorithm → SupportedSignatureAlgorithm → Bool
same_algorithm SupportedSignatureAlgorithm.ed25519 SupportedSignatureAlgorithm.ed25519 = true
same_algorithm SupportedSignatureAlgorithm.p256 SupportedSignatureAlgorithm.p256 = true
same_algorithm _ _ = false

-- A new key pair, its private key encrypted.
pub record KeyMaterial : Type 0 where
  pub public_key : ℕ
  pub ciphertext : ℕ
  pub iv : ℕ
  pub auth_tag : ℕ
  pub key_id : ℕ

abbrev pub of_owner : DidOwnerType → ℕ → Did → Bool
of_owner owner_type owner_id d = did_owner_type_eq d.owner_type owner_type && d.owner_id == owner_id

abbrev pub key_at : (did_id version : ℕ) → DidKey → Bool
key_at did_id version k = k.did_id == did_id && k.version == version

abbrev pub is_active : DidKey → Bool
is_active k = did_key_status_eq k.status DidKeyStatus.active

-- The `where` of a rotation: the DID is active and has the version that was read.
abbrev pub still_at : (id version : ℕ) → Did → Bool
still_at id version d =
    d.id == id && did_status_eq d.status DidStatus.active && d.current_key_version == version

abbrev pub key_in_status : (did_id version : ℕ) → DidKeyStatus → DidKey → Bool
key_in_status did_id version st k = key_at did_id version k && did_key_status_eq k.status st

abbrev pub set_version : ℕ → Did → Did
set_version version d = record d { current_key_version = version }

abbrev pub retire_key : ℕ → DidKey → DidKey
retire_key at k = record k { status = DidKeyStatus.retired; retired_at = some at }

abbrev pub revoke_key : ℕ → DidKey → DidKey
revoke_key at k = record k { status = DidKeyStatus.revoked; revoked_at = some at }

-- The DID and its owner are unique, and so are a key's version and the active key of a DID.
abbrev pub did_clash : Did → Did → Bool
did_clash d e = e.id == d.id || e.did == d.did || of_owner d.owner_type d.owner_id e

abbrev pub key_clash : DidKey → DidKey → Bool
key_clash k j = key_at k.did_id k.version j || (j.did_id == k.did_id && is_active j && is_active k)

abbrev pub new_key : (did_id version : ℕ) → SupportedSignatureAlgorithm → KeyMaterial → DidKey
new_key did_id version algorithm fresh = record {
  did_id = did_id;
  version = version;
  public_key = fresh.public_key;
  encrypted_private_key = some fresh.ciphertext;
  iv = some fresh.iv;
  auth_tag = some fresh.auth_tag;
  encryption_key_id = some fresh.key_id;
  algorithm = algorithm_name algorithm;
  status = DidKeyStatus.active;
  retired_at = none;
  revoked_at = none;
}

abbrev pub owner_name : DidOwnerType → String
owner_name DidOwnerType.organization = "ORGANIZATION"
owner_name DidOwnerType.user = "USER"

-- `organizationId` is only logged for an organization.
abbrev pub organization_of : DidOwnerType → ℕ → Option ℕ
organization_of DidOwnerType.organization owner_id = some owner_id
organization_of DidOwnerType.user owner_id = none

abbrev pub audit_actor_id : DidOwnerType → ℕ → Option ℕ → Option ℕ
audit_actor_id owner_type owner_id (some actor_id) = some actor_id
audit_actor_id DidOwnerType.user owner_id none = some owner_id
audit_actor_id DidOwnerType.organization owner_id none = none

abbrev pub reason_entry : Option String → List (String × Json)
reason_entry none = []
reason_entry (some reason) = if is_empty reason then [] else ("reason", str reason) ∷ []

abbrev pub did_log : Option ℕ → DidOwnerType → ℕ → Did → String → List (String × Json) → AuditLog
did_log actor_id owner_type owner_id d action versions = record {
  actor_id = actor_id;
  organization_id = organization_of owner_type owner_id;
  action = action;
  resource_type = some "DID";
  resource_id = some d.id;
  metadata = some (
      object (
        ("did", uuid d.did)
        ∷ ("ownerType", str (owner_name owner_type))
        ∷ ("ownerId", uuid owner_id)
        ∷ versions));
}

abbrev pub supported_algorithm : String → Option SupportedSignatureAlgorithm
supported_algorithm name =
    if name === "Ed25519"
    then some SupportedSignatureAlgorithm.ed25519
    else if name === "P-256"
    then some SupportedSignatureAlgorithm.p256
    else none

abbrev pub unsupported : Error
unsupported = conflict "DID algorithm is not supported"

module _ (prisma : Prisma) where
  unfoldable pub require_active_organization_did : (organization_id : ℕ) → Action Db Did
  require_active_organization_did organization_id = do
    s ← gets (λ s. s)
    organization ←
        or_raise (prisma.find_first (λ (o : Organization). o.id == organization_id) s.organizations)
          (not_found "Organization not found")
    raise_if (not (organization_status_eq organization.status OrganizationStatus.active))
        (conflict "Organization is not active")
    d ←
        or_raise (prisma.find_first (of_owner DidOwnerType.organization organization_id) s.dids)
          (not_found "Organization DID not found")
    raise_if (not (did_status_eq d.status DidStatus.active))
        (conflict "Organization DID is not active")
    pure d

  unfoldable pub require_active_holder_did : (user_id : ℕ) → String → Action Db Did
  require_active_holder_did user_id role_error_message = do
    s ← gets (λ s. s)
    user ←
        or_raise (prisma.find_first (λ (u : User). u.id == user_id) s.users)
          (not_found "User not found")
    raise_if (not (user_role_eq user.role UserRole.holder)) (conflict role_error_message)
    d ←
        or_raise (prisma.find_first (of_owner DidOwnerType.user user_id) s.dids)
          (not_found "Holder DID not found")
    raise_if (not (did_status_eq d.status DidStatus.active)) (conflict "Holder DID is not active")
    pure d

  -- The key with a version, if there is one.
  abbrev pub find_key : (did_id version : ℕ) → Db → Option DidKey
  find_key did_id version s = prisma.find_first (key_at did_id version) s.did_keys

  unfoldable pub current_key_algorithm : Did → Action Db SupportedSignatureAlgorithm
  current_key_algorithm d = do
    s ← gets (λ s. s)
    k ← or_raise (find_key d.id d.current_key_version s) (conflict "Current DID key is not active")
    raise_if (not (is_active k)) (conflict "Current DID key is not active")
    or_raise (supported_algorithm k.algorithm) unsupported
