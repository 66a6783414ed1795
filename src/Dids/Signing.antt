-- ===== src/Dids/Signing.antt =====
-- Signing with the keys of a DID, and finding the key that a verification method names:
-- `signForUser`, `signForOrganization`, `resolveDid` and `resolveVerificationMethod` of
-- src/did/did.service.ts. Decryption of a private key and the signature itself are one parameter, `sign`,
-- whose error is what either throws.
use ssi_academic_credential.Common.{
  ℕ, String, true, not, ◌||◌, some, Result, ok, Error, Action, conflict, not_found, ◌≡◌, refl,
  arith, In, inl, inr, ◌>>=◌, ◌>>◌, pure, raise_if, or_raise, gets, ◌==◌, bind_inv, of_result,
  Result-cases, Option-cases, Bool-cases, subst, ◌∙◌, ap, ◌≢◌, Option, none,
}
use ssi_academic_credential.Text.{◌===◌, ===_iff}
use ssi_academic_credential.Prisma.{Prisma}
use ssi_academic_credential.Database.{
  Db, User, UserRole, user_role_eq, Did, DidOwnerType, DidStatus, did_status_eq, DidKey,
  DidKeyStatus, did_key_status_eq,
}
use ssi_academic_credential.Requests.Proof.{VerificationMethod, DidSigningResult, user_owned}
use ssi_academic_credential.Dids.{
  SupportedSignatureAlgorithm, same_algorithm, supported_algorithm, unsupported, is_active,
  find_key, of_owner, require_active_organization_did, require_active_holder_did,
}
use ssi_academic_credential.Dids.Methods.{has_server_key, is_some, unmanaged_key}

same_algorithm_eq : (a b : SupportedSignatureAlgorithm) → same_algorithm a b ≡ true → a ≡ b
same_algorithm_eq SupportedSignatureAlgorithm.ed25519 SupportedSignatureAlgorithm.ed25519 h = refl
same_algorithm_eq SupportedSignatureAlgorithm.ed25519 SupportedSignatureAlgorithm.p256 h = cc
same_algorithm_eq SupportedSignatureAlgorithm.p256 SupportedSignatureAlgorithm.ed25519 h = cc
same_algorithm_eq SupportedSignatureAlgorithm.p256 SupportedSignatureAlgorithm.p256 h = refl

-- What a resolved document is used for: the method's identifier and its public key.
pub record ResolvedKey : Type 0 where
  pub method : VerificationMethod
  pub public_key : ℕ

abbrev pub no_method : Error
no_method = not_found "DID verification method not found"

abbrev pub no_signing_key : DidOwnerType → Error
no_signing_key DidOwnerType.organization = not_found "Organization DID signing key not found"
no_signing_key DidOwnerType.user = not_found "Holder DID signing key not found"

abbrev pub inactive_signing_key : DidOwnerType → Error
inactive_signing_key DidOwnerType.organization =
    conflict "Organization DID signing key is not active"
inactive_signing_key DidOwnerType.user = conflict "Holder DID signing key is not active"

abbrev pub other_algorithm : DidOwnerType → Error
other_algorithm DidOwnerType.organization =
    conflict "Organization DID signing key algorithm does not match requested algorithm"
other_algorithm DidOwnerType.user =
    conflict "Holder DID signing key algorithm does not match requested algorithm"

-- A stored DID that is active and owned by a stored user with the role of a holder.
pub record HolderDid (user_id : ℕ) (d : Did) (s : Db) : Type 0 where
  pub stored : In d s.dids
  pub owner_type : d.owner_type ≡ DidOwnerType.user
  pub owner : d.owner_id ≡ user_id
  pub status : d.status ≡ DidStatus.active
  pub user : User
  pub user_stored : In user s.users
  pub user_named : user.id ≡ user_id
  pub role : user.role ≡ UserRole.holder

pub did_active : (a : DidStatus) → did_status_eq a DidStatus.active ≡ true → a ≡ DidStatus.active
did_active DidStatus.active h = refl
did_active DidStatus.suspended h = cc
did_active DidStatus.revoked h = cc

key_active :
    (a : DidKeyStatus) → did_key_status_eq a DidKeyStatus.active ≡ true → a ≡ DidKeyStatus.active
key_active DidKeyStatus.active h = refl
key_active DidKeyStatus.retired h = cc
key_active DidKeyStatus.revoked h = cc

holder_role : (a : UserRole) → user_role_eq a UserRole.holder ≡ true → a ≡ UserRole.holder
holder_role UserRole.holder h = refl
holder_role UserRole.issuer_admin h = cc
holder_role UserRole.verifier_admin h = cc
holder_role UserRole.system_admin h = cc

is_some_lem : (o : Option ℕ) → is_some o ≡ true → o ≢ none
is_some_lem none h = absurd (cc)
is_some_lem (some n) h = λ e. absurd (cc)

-- The database's name of an algorithm.
abbrev pub algorithm_text : SupportedSignatureAlgorithm → String
algorithm_text SupportedSignatureAlgorithm.ed25519 = "Ed25519"
algorithm_text SupportedSignatureAlgorithm.p256 = "P-256"

supported_text :
    (name : String) (a : SupportedSignatureAlgorithm)
    → supported_algorithm name ≡ some a
    → name ≡ algorithm_text a
supported_text name a h = elim (Bool-cases (name === "Ed25519")) [
  | inl e ↦
      let q : name ≡ "Ed25519" = (===_iff name "Ed25519").0 e in
      let r : a ≡ SupportedSignatureAlgorithm.ed25519 = ground arith in rw r q
  | inr e ↦ elim (Bool-cases (name === "P-256")) [
    | inl f ↦
        let q : name ≡ "P-256" = (===_iff name "P-256").0 f in
        let r : a ≡ SupportedSignatureAlgorithm.p256 = ground arith in rw r q
    | inr f ↦ absurd (ground arith)
  ]
]

module _ (prisma : Prisma) where
  unfoldable pub resolve_did : (did : ℕ) → Action Db ResolvedKey
  resolve_did did = do
    s ← gets (λ s. s)
    d ← or_raise (prisma.find_first (λ (d : Did). d.did == did) s.dids) (not_found "DID not found")
    k ←
        or_raise (find_key prisma d.id d.current_key_version s)
          (conflict "Current DID key is not active")
    raise_if (not (is_active k)) (conflict "Current DID key is not active")
    or_raise (supported_algorithm k.algorithm) unsupported
    pure (record {
      method = record { did = d.did; key_version = k.version };
      public_key = k.public_key;
    })

  -- The version in a method's text starts with a digit from 1 to 9.
  unfoldable pub resolve_verification_method :
      (did : ℕ) → VerificationMethod → Action Db ResolvedKey
  resolve_verification_method did m = do
    s ← gets (λ s. s)
    d ← or_raise (prisma.find_first (λ (d : Did). d.did == did) s.dids) no_method
    raise_if (not (did_status_eq d.status DidStatus.active)) no_method
    raise_if (not (m.did == did) || m.key_version == 0) no_method
    k ← or_raise (find_key prisma d.id m.key_version s) no_method
    raise_if (did_key_status_eq k.status DidKeyStatus.revoked) no_method
    or_raise (supported_algorithm k.algorithm) unsupported
    pure (record {
      method = record { did = d.did; key_version = k.version };
      public_key = k.public_key;
    })

  require_active_holder_did-HolderDid :
      (user_id : ℕ) (m : String) (s : Db) (d : Did) (u : Db)
      → require_active_holder_did prisma user_id m s ≡ (ok d, u)
      → HolderDid user_id d s × (u ≡ s)
  unfolding require_active_holder_did
  require_active_holder_did-HolderDid id m s d u h =
      elim (Option-cases (prisma.find_first (λ (u : User). u.id == id) s.users)) [
        | inl e ↦ absurd (ground arith)
        | inr (o, e) ↦ elim (Bool-cases (user_role_eq o.role UserRole.holder)) [
          | inr t ↦ absurd (ground arith)
          | inl t ↦ elim (Option-cases (prisma.find_first (of_owner DidOwnerType.user id) s.dids)) [
            | inl q ↦ absurd (ground arith)
            | inr (x, q) ↦ elim (Bool-cases (did_status_eq x.status DidStatus.active)) [
              | inr a ↦ absurd (ground arith)
              | inl a ↦
                  let (fits, stored) = prisma.find_first-some _ _ _ q in
                  let (named, known) = prisma.find_first-some _ _ _ e in
                  let same : x ≡ d = ground arith in
                  (
                    subst (λ d. HolderDid id d s) same
                        (record {
                          stored = stored;
                          owner_type = user_owned x.owner_type (ground arith);
                          owner = ground arith;
                          status = did_active x.status a;
                          user = o;
                          user_stored = known;
                          user_named = ground arith;
                          role = holder_role o.role t;
                        }),
                    ground arith,
                  )
            ]
          ]
        ]
      ]

  module _ (sign : DidKey → ℕ → SupportedSignatureAlgorithm → Result ℕ) where
    -- The key of the current version, its checks and the signature.
    unfoldable pub sign_with :
        DidOwnerType → Did → (hash : ℕ) → SupportedSignatureAlgorithm → Action Db DidSigningResult
    sign_with owner d hash algorithm = do
      s ← gets (λ s. s)
      k ← or_raise (find_key prisma d.id d.current_key_version s) (no_signing_key owner)
      raise_if (not (is_active k)) (inactive_signing_key owner)
      own ← or_raise (supported_algorithm k.algorithm) unsupported
      raise_if (not (same_algorithm own algorithm)) (other_algorithm owner)
      raise_if (not (has_server_key k)) (unmanaged_key owner)
      signature ← of_result (sign k hash algorithm)
      pure (record {
        method = record { did = d.did; key_version = k.version };
        signature = signature;
      })

    unfoldable pub sign_for_organization :
        (organization_id hash : ℕ) → SupportedSignatureAlgorithm → Action Db DidSigningResult
    sign_for_organization organization_id hash algorithm = do
      d ← require_active_organization_did prisma organization_id
      sign_with DidOwnerType.organization d hash algorithm

    unfoldable pub sign_for_user : (user_id hash : ℕ) → Action Db DidSigningResult
    sign_for_user user_id hash = do
      d ← require_active_holder_did prisma user_id "Only holders can sign with user DIDs"
      sign_with DidOwnerType.user d hash SupportedSignatureAlgorithm.ed25519

    -- How a signature was made: with the stored, active key of the DID's current version, whose
    -- algorithm the DID's record of the key names and whose private key the server holds.
    pub record SignedWith (d : Did) (hash : ℕ) (algorithm : SupportedSignatureAlgorithm)
        (r : DidSigningResult) (s : Db) : Type 0 where
      pub key : DidKey
      pub stored : In key s.did_keys
      pub own : key.did_id ≡ d.id
      pub version : key.version ≡ d.current_key_version
      pub active : key.status ≡ DidKeyStatus.active
      pub supported : key.algorithm ≡ algorithm_text algorithm
      pub managed : (key.encrypted_private_key ≢ none) × (key.iv ≢ none) × (key.auth_tag ≢ none)
      pub made : sign key hash algorithm ≡ ok r.signature
      pub method : r.method ≡ record { did = d.did; key_version = d.current_key_version }

    sign_with_ok :
        (owner : DidOwnerType) (d : Did) (hash : ℕ) (algorithm : SupportedSignatureAlgorithm)
        (s : Db) (r : DidSigningResult) (t : Db)
        → sign_with owner d hash algorithm s ≡ (ok r, t)
        → SignedWith d hash algorithm r s × (t ≡ s)
    unfolding sign_with
    sign_with_ok owner d hash algorithm s r t h =
        elim (Option-cases (find_key prisma d.id d.current_key_version s)) [
          | inl e ↦ absurd (ground arith)
          | inr (k, e) ↦ elim (Bool-cases (is_active k)) [
            | inr a ↦ absurd (ground arith)
            | inl a ↦ elim (Option-cases (supported_algorithm k.algorithm)) [
              | inl u ↦ absurd (ground arith)
              | inr (own, u) ↦ elim (Bool-cases (same_algorithm own algorithm)) [
                | inr w ↦ absurd (ground arith)
                | inl w ↦ elim (Bool-cases (has_server_key k)) [
                  | inr m ↦ absurd (ground arith)
                  | inl m ↦ elim (Result-cases (sign k hash algorithm)) [
                    | inr (n, z) ↦ absurd (ground arith)
                    | inl (n, z) ↦
                        let (fits, stored) = prisma.find_first-some _ _ _ e in
                        let same = same_algorithm_eq own algorithm w in
                        (
                          record {
                            key = k;
                            stored = stored;
                            own = ground arith;
                            version = ground arith;
                            active = key_active k.status a;
                            supported = supported_text k.algorithm algorithm (u ∙ ap some same);
                            managed = (
                              is_some_lem k.encrypted_private_key (ground arith),
                              is_some_lem k.iv (ground arith),
                              is_some_lem k.auth_tag (ground arith),
                            );
                            made = z ∙ ap ok (ground arith);
                            method = ground arith;
                          },
                          ground arith,
                        )
                  ]
                ]
              ]
            ]
          ]
        ]

    -- `signForUser` signs only for a stored user with the role of a holder, with the user's own stored,
    -- active DID: the key is stored, belongs to this DID, has its current version, is active, is an
    -- Ed25519 key and is held by the server; the result names this DID and version, and nothing is
    -- written.
    pub sign_for_user_ok :
        (user_id hash : ℕ) (s : Db) (r : DidSigningResult) (t : Db)
        → sign_for_user user_id hash s ≡ (ok r, t)
        → (d : Did) × HolderDid user_id d s
          × SignedWith d hash SupportedSignatureAlgorithm.ed25519 r s
          × (t ≡ s)
    unfolding sign_for_user
    sign_for_user_ok user_id hash s r t h =
        let (d, u, e, q) =
          bind_inv (require_active_holder_did prisma user_id "Only holders can sign with user DIDs")
            (λ d. sign_with DidOwnerType.user d hash SupportedSignatureAlgorithm.ed25519) s r t h in
        let (holder, same) =
          require_active_holder_did-HolderDid user_id "Only holders can sign with user DIDs" s d u
            e in
        let (w, end) =
          sign_with_ok DidOwnerType.user d hash SupportedSignatureAlgorithm.ed25519 u r t q in
        (
          d,
          holder,
          subst (SignedWith d hash SupportedSignatureAlgorithm.ed25519 r) same w,
          end ∙ same,
        )
