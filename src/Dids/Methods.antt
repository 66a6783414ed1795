-- ===== src/Dids/Methods.antt =====
-- The public methods of src/did/did.service.ts that write.
use ssi_academic_credential.Common.{
  ℕ, String, Bool, true, false, not, ◌&&◌, Option, none, some, Action, Error, conflict, not_found,
  ◌>>=◌, ◌>>◌, pure, raise_if, or_raise, gets, modify, ◌==◌,
}
use ssi_academic_credential.Prisma.{Prisma}
use ssi_academic_credential.Database.{
  Db, User, UserRole, user_role_eq, Organization, OrganizationStatus, organization_status_eq, Did,
  DidOwnerType, DidKey,
}
use ssi_academic_credential.Dids.{
  SupportedSignatureAlgorithm, KeyMaterial, of_owner, is_active, require_active_organization_did,
  require_active_holder_did, find_key, current_key_algorithm,
}
use ssi_academic_credential.Dids.Keys.{
  DidKeyRotationResult, DidKeyRevocationResult, rotate_key_body, recover_key_body, check_historical,
  revoke_key_body, create_did_body,
}

-- `algorithm ?? current`.
abbrev pub or_else : {A : Type 0} → Option A → Action Db A → Action Db A
or_else none m = m
or_else (some a) m = pure a

abbrev pub is_some : {A : Type 0} → Option A → Bool
is_some none = false
is_some (some a) = true

-- An empty text is `none`.
abbrev pub has_server_key : DidKey → Bool
has_server_key k = is_some k.encrypted_private_key && is_some k.iv && is_some k.auth_tag

abbrev pub unmanaged_key : DidOwnerType → Error
unmanaged_key DidOwnerType.organization =
    conflict "Organization DID signing key is not managed by the server"
unmanaged_key DidOwnerType.user =
    conflict "Holder DID is client-controlled; the private key must be used on the holder device"

module _ (prisma : Prisma) (others : Db → Db) where
  -- A method reads, and then writes in one transaction.
  abbrev pub then_write : {A B : Type 0} → Action Db A → (A → Action Db B) → Action Db B
  then_write read body = read >>= λ a. modify others >> prisma.transaction (body a)

  unfoldable pub check_new_organization : (organization_id : ℕ) → Action Db (Unit {0})
  check_new_organization organization_id = do
    s ← gets (λ s. s)
    organization ←
        or_raise (prisma.find_first (λ (o : Organization). o.id == organization_id) s.organizations)
          (not_found "Organization not found")
    raise_if (not (organization_status_eq organization.status OrganizationStatus.active))
        (conflict "Organization is not active")
    raise_if
        (is_some (prisma.find_first (of_owner DidOwnerType.organization organization_id) s.dids))
        (conflict "Organization already has a DID")

  unfoldable pub check_new_user : (user_id : ℕ) → Action Db (Unit {0})
  check_new_user user_id = do
    s ← gets (λ s. s)
    user ←
        or_raise (prisma.find_first (λ (u : User). u.id == user_id) s.users)
          (not_found "User not found")
    raise_if (not (user_role_eq user.role UserRole.holder))
        (conflict "Only holders can have user DIDs")
    raise_if (is_some (prisma.find_first (of_owner DidOwnerType.user user_id) s.dids))
        (conflict "User already has a DID")

  -- `id` and `did` are fresh; the prefix in the DID's text says what its owner is.
  unfoldable pub create_for_organization :
      (id did organization_id : ℕ) → SupportedSignatureAlgorithm → KeyMaterial → Action Db Did
  create_for_organization id did organization_id algorithm fresh =
      then_write (check_new_organization organization_id) (λ _.
        create_did_body prisma id did DidOwnerType.organization organization_id algorithm fresh)

  unfoldable pub create_for_user : (id did user_id : ℕ) → KeyMaterial → Action Db Did
  create_for_user id did user_id fresh = then_write (check_new_user user_id) (λ _.
      create_did_body prisma id did DidOwnerType.user user_id SupportedSignatureAlgorithm.ed25519
        fresh)

  unfoldable pub organization_target :
      (organization_id : ℕ)
      → Option SupportedSignatureAlgorithm
      → Action Db (Did × SupportedSignatureAlgorithm)
  organization_target organization_id algorithm = do
    d ← require_active_organization_did prisma organization_id
    target ← or_else algorithm (current_key_algorithm prisma d)
    pure (d, target)

  unfoldable pub require_server_managed_holder_key : Did → Action Db (Unit {0})
  require_server_managed_holder_key d = do
    s ← gets (λ s. s)
    k ←
        or_raise (find_key prisma d.id d.current_key_version s)
          (conflict "Current holder DID key is not active")
    raise_if (not (is_active k)) (conflict "Current holder DID key is not active")
    raise_if (not (has_server_key k)) (unmanaged_key DidOwnerType.user)

  unfoldable pub holder_target : (user_id : ℕ) → String → Action Db Did
  holder_target user_id role_error_message = do
    d ← require_active_holder_did prisma user_id role_error_message
    require_server_managed_holder_key d
    pure d

  unfoldable pub rotate_for_organization :
      (now organization_id : ℕ)
      → Option ℕ
      → Option SupportedSignatureAlgorithm
      → KeyMaterial
      → Action Db DidKeyRotationResult
  rotate_for_organization now organization_id actor_id algorithm fresh =
      then_write (organization_target organization_id algorithm) (λ x.
        rotate_key_body prisma now x.0 DidOwnerType.organization organization_id actor_id x.1 fresh)

  unfoldable pub rotate_for_user : (now user_id : ℕ) → KeyMaterial → Action Db DidKeyRotationResult
  rotate_for_user now user_id fresh =
      then_write (holder_target user_id "Only holders can rotate user DID keys") (λ d.
        rotate_key_body prisma now d DidOwnerType.user user_id (some user_id)
          SupportedSignatureAlgorithm.ed25519 fresh)

  unfoldable pub recover_for_organization :
      (now organization_id actor_id : ℕ)
      → Option String
      → Option SupportedSignatureAlgorithm
      → KeyMaterial
      → Action Db DidKeyRotationResult
  recover_for_organization now organization_id actor_id reason algorithm fresh =
      then_write (organization_target organization_id algorithm) (λ x.
        recover_key_body prisma now x.0 DidOwnerType.organization organization_id actor_id reason
          x.1 fresh)

  unfoldable pub recover_for_user :
      (now user_id : ℕ) → Option String → KeyMaterial → Action Db DidKeyRotationResult
  recover_for_user now user_id reason fresh =
      then_write (holder_target user_id "Only holders can recover user DIDs") (λ d.
        recover_key_body prisma now d DidOwnerType.user user_id user_id reason
          SupportedSignatureAlgorithm.ed25519 fresh)

  unfoldable pub historical_organization_key : (organization_id version : ℕ) → Action Db Did
  historical_organization_key organization_id version = do
    d ← require_active_organization_did prisma organization_id
    check_historical prisma d version
    pure d

  unfoldable pub historical_holder_key : (user_id version : ℕ) → Action Db Did
  historical_holder_key user_id version = do
    d ← require_active_holder_did prisma user_id "Only holders can revoke user DID keys"
    check_historical prisma d version
    pure d

  unfoldable pub revoke_historical_key_for_organization :
      (now organization_id version actor_id : ℕ) → Option String → Action Db DidKeyRevocationResult
  revoke_historical_key_for_organization now organization_id version actor_id reason =
      then_write (historical_organization_key organization_id version) (λ d.
        revoke_key_body prisma now d version DidOwnerType.organization organization_id actor_id
          reason)

  unfoldable pub revoke_historical_key_for_user :
      (now user_id version : ℕ) → Option String → Action Db DidKeyRevocationResult
  revoke_historical_key_for_user now user_id version reason =
      then_write (historical_holder_key user_id version)
        (λ d. revoke_key_body prisma now d version DidOwnerType.user user_id user_id reason)
