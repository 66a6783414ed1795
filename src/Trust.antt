-- ===== src/Trust.antt =====
-- src/trust-registry/trust-registry.service.ts: the registry of trusted issuers. The methods that list
-- issuers only read, and are left out; `others` is what other requests do between the reads of a
-- method and its transaction.
pub mod Theorems
use ssi_academic_credential.Common.{
  ℕ, String, Bool, true, false, not, ◌&&◌, ◌||◌, List, [], ◌∷◌, Option, none, some, Result, ok, err,
  Error, Action, conflict, not_found, unique_violation, ◌>>=◌, ◌>>◌, pure, raise_if, or_raise, gets,
  modify, ◌==◌,
}
use ssi_academic_credential.Prisma.{Prisma}
use ssi_academic_credential.Database.{
  Db, Json, uuid, object, Organization, OrganizationType, organization_type_eq, Did, DidOwnerType,
  did_owner_type_eq, DidStatus, did_status_eq, TrustedIssuer, TrustedIssuerStatus,
  trusted_issuer_status_eq, AuditLog,
}

pub record AddTrustedIssuerInput : Type 0 where
  pub organization_id : ℕ
  pub issuer_did : ℕ
  pub approved_by : ℕ

abbrev pub of_did : ℕ → TrustedIssuer → Bool
of_did did t = t.issuer_did == did

abbrev pub still_trusted : ℕ → TrustedIssuer → Bool
still_trusted id t = t.id == id && trusted_issuer_status_eq t.status TrustedIssuerStatus.trusted

abbrev pub set_suspended : ℕ → TrustedIssuer → TrustedIssuer
set_suspended now t = record t { status = TrustedIssuerStatus.suspended; suspended_at = some now }

-- The identifier and the DID of an issuer are unique.
abbrev pub issuer_clash : TrustedIssuer → TrustedIssuer → Bool
issuer_clash t u = u.id == t.id || u.issuer_did == t.issuer_did

abbrev pub new_issuer : ℕ → AddTrustedIssuerInput → TrustedIssuer
new_issuer id input = record {
  id = id;
  organization_id = input.organization_id;
  issuer_did = input.issuer_did;
  status = TrustedIssuerStatus.trusted;
  approved_by = input.approved_by;
  suspended_at = none;
}

abbrev pub issuer_log :
    (actor_id organization_id : ℕ) → String → (resource_id issuer_did : ℕ) → AuditLog
issuer_log actor_id organization_id action resource_id issuer_did = record {
  actor_id = some actor_id;
  organization_id = some organization_id;
  action = action;
  resource_type = some "TrustedIssuer";
  resource_id = some resource_id;
  metadata = some (object (("issuerDid", uuid issuer_did) ∷ []));
}

abbrev pub exists : Option TrustedIssuer → Bool
exists none = false
exists (some t) = true

module _ (prisma : Prisma) where
  unfoldable pub check_issuer : AddTrustedIssuerInput → Action Db (Unit {0})
  check_issuer input = do
    s ← gets (λ s. s)
    organization ←
        or_raise
          (prisma.find_first (λ (o : Organization). o.id == input.organization_id) s.organizations)
          (not_found "Issuer organization not found")
    raise_if (not (organization_type_eq organization.type OrganizationType.university))
        (conflict "Only university issuers can be trusted")
    did_record ←
        or_raise (prisma.find_first (λ (d : Did). d.did == input.issuer_did) s.dids)
          (not_found "Issuer DID not found")
    raise_if
        (not (did_owner_type_eq did_record.owner_type DidOwnerType.organization)
          || not (did_record.owner_id == organization.id))
        (conflict "Issuer DID does not belong to the organization")
    raise_if (not (did_status_eq did_record.status DidStatus.active))
        (conflict "Issuer DID is not active")

  unfoldable pub check_unregistered : ℕ → Action Db (Unit {0})
  check_unregistered issuer_did = do
    s ← gets (λ s. s)
    raise_if (exists (prisma.find_first (of_did issuer_did) s.trusted_issuers))
        (conflict "Issuer DID is already registered")

  unfoldable pub add_body : (id : ℕ) → AddTrustedIssuerInput → Action Db TrustedIssuer
  add_body id input = do
    s ← gets (λ s. s)
    issuers ←
        or_raise (prisma.create issuer_clash (new_issuer id input) s.trusted_issuers)
          unique_violation
    modify (λ s. record s { trusted_issuers = issuers })
    s ← gets (λ s. s)
    logs ←
        or_raise
          (prisma.create (λ _ _. false)
            (issuer_log input.approved_by input.organization_id "TRUSTED_ISSUER_ADDED" id
              input.issuer_did)
            s.audit_logs)
          unique_violation
    modify (λ s. record s { audit_logs = logs })
    pure (new_issuer id input)

  unfoldable pub create :
      (others : Db → Db) (id : ℕ) → AddTrustedIssuerInput → Action Db TrustedIssuer
  unfolding check_issuer check_unregistered add_body
  create others id input = do
    check_issuer input
    check_unregistered input.issuer_did
    modify others
    prisma.transaction (add_body id input)

  unfoldable pub is_trusted : ℕ → Db → Bool
  is_trusted issuer_did s = elim (prisma.find_first (of_did issuer_did) s.trusted_issuers) [
    | none ↦ false
    | some t ↦ trusted_issuer_status_eq t.status TrustedIssuerStatus.trusted
  ]

  unfoldable pub suspend_body : (id actor_id now : ℕ) → TrustedIssuer → Action Db TrustedIssuer
  suspend_body id actor_id now t = do
    s ← gets (λ s. s)
    let result = prisma.update_many (still_trusted id) (set_suspended now) s.trusted_issuers
    modify (λ s. record s { trusted_issuers = result.1 })
    raise_if (not (result.0 == 1)) (conflict "Trusted issuer status changed; retry request")
    s ← gets (λ s. s)
    updated ←
        or_raise (prisma.find_first (λ (t : TrustedIssuer). t.id == id) s.trusted_issuers)
          (not_found "Trusted issuer not found")
    logs ←
        or_raise
          (prisma.create (λ _ _. false)
            (issuer_log actor_id t.organization_id "TRUSTED_ISSUER_SUSPENDED" t.id t.issuer_did)
            s.audit_logs)
          unique_violation
    modify (λ s. record s { audit_logs = logs })
    pure updated

  unfoldable pub find_trusted : (id : ℕ) → Action Db TrustedIssuer
  find_trusted id = do
    s ← gets (λ s. s)
    t ←
        or_raise (prisma.find_first (λ (t : TrustedIssuer). t.id == id) s.trusted_issuers)
          (not_found "Trusted issuer not found")
    raise_if (not (trusted_issuer_status_eq t.status TrustedIssuerStatus.trusted))
        (conflict "Only a trusted issuer can be suspended")
    pure t

  unfoldable pub suspend : (others : Db → Db) (id actor_id now : ℕ) → Action Db TrustedIssuer
  unfolding find_trusted suspend_body
  suspend others id actor_id now = do
    t ← find_trusted id
    modify others
    prisma.transaction (suspend_body id actor_id now t)
