-- ===== src/Tests/Dids.antt =====
-- src/did at concrete inputs: the DID 90 of organization 5, whose second key is active.

use ssi_academic_credential.Common.{
  ℕ, ◌+◌, ◌≡◌, refl, ok, err, [], ◌∷◌, inl, inr, some, arith, Result,
}
use ssi_academic_credential.Database.{
  Db, empty_db, Did, DidKey, DidOwnerType, DidStatus, OrganizationType, OrganizationStatus,
  UserRole,
}
use ssi_academic_credential.Dids.{
  KeyMaterial, SupportedSignatureAlgorithm, new_key, retire_key, revoke_key,
  require_active_holder_did,
}
use ssi_academic_credential.Dids.Invariant.{Keyed}
use ssi_academic_credential.Dids.Invariant.Calls.{after, rotates_organization, after-Keyed}
use ssi_academic_credential.Dids.Revoked.{Dead, after-unresolved}
use ssi_academic_credential.Dids.Signing.{
  resolve_verification_method, no_method, sign_for_user, sign_for_user_ok, sign_with, SignedWith,
  HolderDid,
}
use ssi_academic_credential.Requests.Proof.{DidSigningResult}
use ssi_academic_credential.Tests.Memory.{memory}

abbrev pub made : KeyMaterial
made = record { public_key = 40; ciphertext = 41; iv = 42; auth_tag = 43; key_id = 1 }

abbrev university_did : Did
university_did = record {
  id = 7;
  did = 90;
  owner_type = DidOwnerType.organization;
  owner_id = 5;
  current_key_version = 2;
  status = DidStatus.active;
}

abbrev first_key : DidKey
first_key = revoke_key 60 (retire_key 50 (new_key 7 1 SupportedSignatureAlgorithm.ed25519 made))

abbrev second_key : DidKey
second_key = new_key 7 2 SupportedSignatureAlgorithm.ed25519 made

abbrev holder_did : Did
holder_did = record university_did {
  id = 8;
  did = 91;
  owner_type = DidOwnerType.user;
  owner_id = 3;
  current_key_version = 1;
}

abbrev holder_key : DidKey
holder_key = new_key 8 1 SupportedSignatureAlgorithm.ed25519 made

abbrev keyed : Db
keyed = record empty_db {
  organizations =
      record {
        id = 5;
        name = "University";
        type = OrganizationType.university;
        status = OrganizationStatus.active;
      }
      ∷ [];
  users =
      record {
        id = 3;
        name = "Holder";
        email = "holder@example.org";
        password_hash = 1;
        role = UserRole.holder;
      }
      ∷ [];
  dids = university_did ∷ holder_did ∷ [];
  did_keys = second_key ∷ first_key ∷ holder_key ∷ [];
}

abbrev nobody : Db → Db
nobody s = s

-- The keys of `keyed` are in order.
keyed-Keyed : Keyed keyed
keyed-Keyed = record {
  ids = ground arith;
  keys = (
    (
      (second_key, inl refl, refl, refl, refl),
      (
        (λ q. (omega arith, λ a. refl)),
        ((λ q. (omega arith, λ a. absurd cc)), ((λ q. absurd (omega arith)), tt)),
      ),
    ),
    (
      (
        (holder_key, inr (inr (inl refl)), refl, refl, refl),
        (
          (λ q. absurd (omega arith)),
          ((λ q. absurd (omega arith)), ((λ q. (omega arith, λ a. refl)), tt)),
        ),
      ),
      tt,
    ),
  );
  belongs = (
    (university_did, inl refl, refl),
    ((university_did, inl refl, refl), ((holder_did, inr (inl refl), refl), tt)),
  );
}

after-Keyed_example : Keyed (
    after memory nobody
      (rotates_organization 70 5 (some 2) (some SupportedSignatureAlgorithm.ed25519) made)
      keyed)
after-Keyed_example =
    after-Keyed memory nobody (λ s v. v)
      (rotates_organization 70 5 (some 2) (some SupportedSignatureAlgorithm.ed25519) made) keyed
      keyed-Keyed

-- The first key is revoked.
keyed-Dead : Dead 90 7 1 keyed
keyed-Dead = record {
  known = (university_did, inl refl, refl);
  one_id = ((λ e. refl), ((λ e. absurd (omega arith)), tt));
  key = (first_key, inr (inl refl), refl);
  revoked = ((λ e. absurd (cc)), ((λ e. refl), ((λ e. absurd (cc)), tt)));
}

after-unresolved_example :
    (resolve_verification_method memory 90
      (record { did = 90; key_version = 1 })
      (after memory nobody
        (rotates_organization 70 5 (some 2) (some SupportedSignatureAlgorithm.ed25519) made)
        keyed)).0
    ≡ err no_method
after-unresolved_example =
    after-unresolved 90 7 1 memory nobody (λ s v. v)
      (rotates_organization 70 5 (some 2) (some SupportedSignatureAlgorithm.ed25519) made) keyed
      keyed-Dead

abbrev sign : DidKey → ℕ → SupportedSignatureAlgorithm → Result ℕ
sign k hash algorithm = ok (hash + 1)

abbrev expected_signature : DidSigningResult
expected_signature = record { method = record { did = 91; key_version = 1 }; signature = 21 }

signed : sign_for_user memory sign 3 20 keyed ≡ (ok expected_signature, keyed)
unfolding sign_for_user sign_with require_active_holder_did
signed = refl

sign_for_user_ok_example :
    (d : Did) × HolderDid 3 d keyed
    × SignedWith memory sign d 20 SupportedSignatureAlgorithm.ed25519 expected_signature keyed
    × (keyed ≡ keyed)
sign_for_user_ok_example = sign_for_user_ok memory sign 3 20 keyed expected_signature keyed signed
