-- ===== src/Dids/Invariant/Calls.antt =====
-- The invariant after any public method of src/did/did.service.ts that writes.
use ssi_academic_credential.Common.{
  ℕ, String, ◌==◌, Option, none, some, Action, refl, sym, subst, arith, inl, inr, Bool-cases,
  Option-cases, Keeps, Yields, bind-Keeps, settle-Keeps, ◌>>=◌, ◌>>◌, modify, pure,
}
use ssi_academic_credential.Prisma.{Prisma}
use ssi_academic_credential.Database.{
  Db, User, UserRole, user_role_eq, Organization, OrganizationStatus, organization_status_eq, Did,
  DidOwnerType,
}
use ssi_academic_credential.Dids.{
  SupportedSignatureAlgorithm, KeyMaterial, of_owner, is_active, require_active_organization_did,
  require_active_holder_did, find_key, current_key_algorithm,
}
use ssi_academic_credential.Dids.Keys.{
  check_historical, rotate_key_body, recover_key_body, revoke_key_body, create_did_body,
}
use ssi_academic_credential.Dids.Methods.{
  or_else, is_some, has_server_key, then_write, check_new_organization, check_new_user,
  create_for_organization, create_for_user, organization_target, require_server_managed_holder_key,
  holder_target, rotate_for_organization, rotate_for_user, recover_for_organization,
  recover_for_user, historical_organization_key, historical_holder_key,
  revoke_historical_key_for_organization, revoke_historical_key_for_user,
}
use ssi_academic_credential.Dids.Invariant.{Keyed}
use ssi_academic_credential.Dids.Invariant.Reads.{
  Reads, then-Reads, require_active_organization_did-Reads, require_active_holder_did-Reads,
  current_key_algorithm-Reads, check_historical-Reads,
}
use ssi_academic_credential.Dids.Invariant.Transactions.{
  rotate_key_body-Keyed, recover_key_body-Keyed, revoke_key_body-Keyed, create_did_body-Keyed,
}

pub data Call : Type 0 where
  creates_organization :
      (id did organization_id : ℕ) → SupportedSignatureAlgorithm → KeyMaterial → Call
  creates_user : (id did user_id : ℕ) → KeyMaterial → Call
  rotates_organization :
      (now organization_id : ℕ) → Option ℕ → Option SupportedSignatureAlgorithm → KeyMaterial → Call
  rotates_user : (now user_id : ℕ) → KeyMaterial → Call
  recovers_organization :
      (now organization_id actor_id : ℕ)
      → Option String
      → Option SupportedSignatureAlgorithm
      → KeyMaterial
      → Call
  recovers_user : (now user_id : ℕ) → Option String → KeyMaterial → Call
  revokes_organization : (now organization_id version actor_id : ℕ) → Option String → Call
  revokes_user : (now user_id version : ℕ) → Option String → Call

module _ (prisma : Prisma) (others : Db → Db) where
  -- The database after a call, whether it succeeds or throws.
  abbrev pub after : Call → Db → Db
  after (creates_organization id did o alg fresh) s =
      (create_for_organization prisma others id did o alg fresh s).1
  after (creates_user id did u fresh) s = (create_for_user prisma others id did u fresh s).1
  after (rotates_organization now o actor alg fresh) s =
      (rotate_for_organization prisma others now o actor alg fresh s).1
  after (rotates_user now u fresh) s = (rotate_for_user prisma others now u fresh s).1
  after (recovers_organization now o actor r alg fresh) s =
      (recover_for_organization prisma others now o actor r alg fresh s).1
  after (recovers_user now u r fresh) s = (recover_for_user prisma others now u r fresh s).1
  after (revokes_organization now o version actor r) s =
      (revoke_historical_key_for_organization prisma others now o version actor r s).1
  after (revokes_user now u version r) s =
      (revoke_historical_key_for_user prisma others now u version r s).1

  pub check_new_organization-Reads : (id : ℕ) → Reads (check_new_organization prisma others id)
  unfolding check_new_organization
  check_new_organization-Reads id s =
      elim (Option-cases (prisma.find_first (λ (o : Organization). o.id == id) s.organizations)) [
        | inl e ↦ ground arith
        | inr (o, e) ↦
            elim (Bool-cases (organization_status_eq o.status OrganizationStatus.active)) [
              | inr t ↦ ground arith
              | inl t ↦
                  elim (Bool-cases
                    (is_some (prisma.find_first (of_owner DidOwnerType.organization id) s.dids))) [
                      | inl u ↦ ground arith
                      | inr u ↦ ground arith
                    ]
            ]
      ]

  pub check_new_user-Reads : (id : ℕ) → Reads (check_new_user prisma others id)
  unfolding check_new_user
  check_new_user-Reads id s =
      elim (Option-cases (prisma.find_first (λ (u : User). u.id == id) s.users)) [
        | inl e ↦ ground arith
        | inr (o, e) ↦ elim (Bool-cases (user_role_eq o.role UserRole.holder)) [
          | inr t ↦ ground arith
          | inl t ↦
              elim (Bool-cases
                (is_some (prisma.find_first (of_owner DidOwnerType.user id) s.dids))) [
                  | inl u ↦ ground arith
                  | inr u ↦ ground arith
                ]
        ]
      ]

  or_else-Reads : {A : Type 0} (o : Option A) (m : Action Db A) → Reads m → Reads (or_else o m)
  or_else-Reads none m h s = h s
  or_else-Reads (some a) m h s = refl

  pub organization_target-Reads :
      (id : ℕ) (alg : Option SupportedSignatureAlgorithm)
      → Reads (organization_target prisma others id alg)
  unfolding organization_target
  organization_target-Reads id alg =
      then-Reads prisma (require_active_organization_did prisma id)
        (λ d. or_else alg (current_key_algorithm prisma d) >>= λ t. pure (d, t))
        (require_active_organization_did-Reads prisma id)
        (λ d.
          then-Reads prisma (or_else alg (current_key_algorithm prisma d)) (λ t. pure (d, t))
            (or_else-Reads alg (current_key_algorithm prisma d)
              (current_key_algorithm-Reads prisma d))
            (λ t s. refl))

  require_server-Reads : (d : Did) → Reads (require_server_managed_holder_key prisma others d)
  unfolding require_server_managed_holder_key
  require_server-Reads d s = elim (Option-cases (find_key prisma d.id d.current_key_version s)) [
    | inl e ↦ ground arith
    | inr (k, e) ↦ elim (Bool-cases (is_active k)) [
      | inr t ↦ ground arith
      | inl t ↦ elim (Bool-cases (has_server_key k)) [ inl u ↦ ground arith | inr u ↦ ground arith ]
    ]
  ]

  pub holder_target-Reads : (id : ℕ) (m : String) → Reads (holder_target prisma others id m)
  unfolding holder_target
  holder_target-Reads id m =
      then-Reads prisma (require_active_holder_did prisma id m)
        (λ d. require_server_managed_holder_key prisma others d >> pure d)
        (require_active_holder_did-Reads prisma id m)
        (λ d.
          then-Reads prisma (require_server_managed_holder_key prisma others d) (λ _. pure d)
            (require_server-Reads d) (λ t s. refl))

  pub historical_organization_key-Reads :
      (id version : ℕ) → Reads (historical_organization_key prisma others id version)
  unfolding historical_organization_key
  historical_organization_key-Reads id version =
      then-Reads prisma (require_active_organization_did prisma id)
        (λ d. check_historical prisma d version >> pure d)
        (require_active_organization_did-Reads prisma id)
        (λ d.
          then-Reads prisma (check_historical prisma d version) (λ _. pure d)
            (check_historical-Reads prisma d version) (λ t s. refl))

  pub historical_holder_key-Reads :
      (id version : ℕ) → Reads (historical_holder_key prisma others id version)
  unfolding historical_holder_key
  historical_holder_key-Reads id version =
      then-Reads prisma
        (require_active_holder_did prisma id "Only holders can revoke user DID keys")
        (λ d. check_historical prisma d version >> pure d)
        (require_active_holder_did-Reads prisma id "Only holders can revoke user DID keys")
        (λ d.
          then-Reads prisma (check_historical prisma d version) (λ _. pure d)
            (check_historical-Reads prisma d version) (λ t s. refl))

  -- A method that reads and then writes keeps what its transaction keeps.
  pub then_write-Keeps :
      (P : Db → Type 0)
      → ((s : Db) → P s → P (others s))
      → {A B : Type 0} (read : Action Db A) (body : A → Action Db B) → Reads read
      → ((a : A) → Yields P (body a))
      → Keeps P (then_write prisma others read body)
  then_write-Keeps P keep read body reads yields =
      bind-Keeps P read (λ a. modify others >> prisma.transaction (body a))
        (λ s v. subst P (sym (reads s)) v)
        (λ a s v.
          subst (λ x. P x.1) (sym (prisma.transaction_lem (body a) (others s)))
            (settle-Keeps P (body a) (yields a) (others s) (keep s v)))

  -- The transactions keep a property when they succeed.
  pub record Transactional (P : Db → Type 0) : Type 0 where
    pub creates :
        (id did : ℕ) (owner_type : DidOwnerType) (owner_id : ℕ) (alg : SupportedSignatureAlgorithm)
        (fresh : KeyMaterial)
        → Yields P (create_did_body prisma id did owner_type owner_id alg fresh)
    pub rotates :
        (now : ℕ) (d : Did) (owner_type : DidOwnerType) (owner_id : ℕ) (actor : Option ℕ)
        (alg : SupportedSignatureAlgorithm) (fresh : KeyMaterial)
        → Yields P (rotate_key_body prisma now d owner_type owner_id actor alg fresh)
    pub recovers :
        (now : ℕ) (d : Did) (owner_type : DidOwnerType) (owner_id actor : ℕ) (r : Option String)
        (alg : SupportedSignatureAlgorithm) (fresh : KeyMaterial)
        → Yields P (recover_key_body prisma now d owner_type owner_id actor r alg fresh)
    pub revokes :
        (now : ℕ) (d : Did) (owner_type : DidOwnerType) (owner_id version actor : ℕ)
        (r : Option String)
        → Yields P (revoke_key_body prisma now d version owner_type owner_id actor r)

  -- What the other requests and the transactions keep, every method keeps.
  pub after-Kept :
      (P : Db → Type 0)
      → ((s : Db) → P s → P (others s))
      → Transactional P
      → (c : Call) (s : Db) → P s
      → P (after c s)
  unfolding create_for_organization create_for_user rotate_for_organization rotate_for_user
      recover_for_organization recover_for_user revoke_historical_key_for_organization
      revoke_historical_key_for_user
  after-Kept P keep kept (creates_organization id did o alg fresh) =
      then_write-Keeps P keep (check_new_organization prisma others o)
        (λ _. create_did_body prisma id did DidOwnerType.organization o alg fresh)
        (check_new_organization-Reads o)
        (λ _. kept.creates id did DidOwnerType.organization o alg fresh)
  after-Kept P keep kept (creates_user id did u fresh) =
      then_write-Keeps P keep (check_new_user prisma others u)
        (λ _.
          create_did_body prisma id did DidOwnerType.user u SupportedSignatureAlgorithm.ed25519
            fresh)
        (check_new_user-Reads u)
        (λ _. kept.creates id did DidOwnerType.user u SupportedSignatureAlgorithm.ed25519 fresh)
  after-Kept P keep kept (rotates_organization now o actor alg fresh) =
      then_write-Keeps P keep (organization_target prisma others o alg)
        (λ x. rotate_key_body prisma now x.0 DidOwnerType.organization o actor x.1 fresh)
        (organization_target-Reads o alg)
        (λ x. kept.rotates now x.0 DidOwnerType.organization o actor x.1 fresh)
  after-Kept P keep kept (rotates_user now u fresh) =
      then_write-Keeps P keep
        (holder_target prisma others u "Only holders can rotate user DID keys")
        (λ d.
          rotate_key_body prisma now d DidOwnerType.user u (some u)
            SupportedSignatureAlgorithm.ed25519 fresh)
        (holder_target-Reads u "Only holders can rotate user DID keys")
        (λ d.
          kept.rotates now d DidOwnerType.user u (some u) SupportedSignatureAlgorithm.ed25519 fresh)
  after-Kept P keep kept (recovers_organization now o actor r alg fresh) =
      then_write-Keeps P keep (organization_target prisma others o alg)
        (λ x. recover_key_body prisma now x.0 DidOwnerType.organization o actor r x.1 fresh)
        (organization_target-Reads o alg)
        (λ x. kept.recovers now x.0 DidOwnerType.organization o actor r x.1 fresh)
  after-Kept P keep kept (recovers_user now u r fresh) =
      then_write-Keeps P keep (holder_target prisma others u "Only holders can recover user DIDs")
        (λ d.
          recover_key_body prisma now d DidOwnerType.user u u r SupportedSignatureAlgorithm.ed25519
            fresh)
        (holder_target-Reads u "Only holders can recover user DIDs")
        (λ d. kept.recovers now d DidOwnerType.user u u r SupportedSignatureAlgorithm.ed25519 fresh)
  after-Kept P keep kept (revokes_organization now o version actor r) =
      then_write-Keeps P keep (historical_organization_key prisma others o version)
        (λ d. revoke_key_body prisma now d version DidOwnerType.organization o actor r)
        (historical_organization_key-Reads o version)
        (λ d. kept.revokes now d DidOwnerType.organization o version actor r)
  after-Kept P keep kept (revokes_user now u version r) =
      then_write-Keeps P keep (historical_holder_key prisma others u version)
        (λ d. revoke_key_body prisma now d version DidOwnerType.user u u r)
        (historical_holder_key-Reads u version)
        (λ d. kept.revokes now d DidOwnerType.user u version u r)

  -- Every method that creates a DID, or rotates, recovers or revokes a key of one, keeps the DIDs'
  -- identifiers distinct and their keys in order, if the other requests do: the key with the DID's
  -- current version is stored and active, no key of the DID has a later version, no other key of it is
  -- active, and every key belongs to a stored DID.
  pub after-Keyed :
      ((s : Db) → Keyed s → Keyed (others s)) → (c : Call) (s : Db) → Keyed s → Keyed (after c s)
  after-Keyed keep = after-Kept Keyed keep (record {
    creates = create_did_body-Keyed prisma;
    rotates = rotate_key_body-Keyed prisma;
    recovers = recover_key_body-Keyed prisma;
    revokes = λ now d owner_type owner_id version.
        revoke_key_body-Keyed prisma now d owner_type owner_id version;
  })
