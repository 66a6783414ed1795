-- ===== src/Dids/Invariant/Transactions.antt =====
-- The transactions of src/did/did.service.ts keep the invariant when they succeed.
use ssi_academic_credential.Common.{
  ℕ, ◌+◌, String, true, false, Option, ◌≡◌, refl, subst, ap, arith, inl, inr, ◌==◌, count,
  map_where, any, any_never, Bool-cases, Yields,
}
use ssi_academic_credential.Prisma.{Prisma}
use ssi_academic_credential.Database.{Did, DidOwnerType, DidKeyStatus, did_key_status_eq}
use ssi_academic_credential.Dids.{
  SupportedSignatureAlgorithm, KeyMaterial, still_at, key_in_status, retire_key, revoke_key,
  did_clash, key_clash, new_key,
}
use ssi_academic_credential.Dids.Keys.{
  rotate_key_body, recover_key_body, revoke_key_body, create_did_body, new_did,
}
use ssi_academic_credential.Dids.Invariant.{Keyed}
use ssi_academic_credential.Dids.Invariant.Step.{next-Keyed, created-Keyed, revoked-Keyed}

module _ (prisma : Prisma) (now : ℕ) (d : Did) (owner_type : DidOwnerType) (owner_id : ℕ) where
  module _ (actor_id : Option ℕ) (algorithm : SupportedSignatureAlgorithm)
      (fresh : KeyMaterial) where
    pub rotate_key_body-Keyed :
        Yields Keyed (rotate_key_body prisma now d owner_type owner_id actor_id algorithm fresh)
    unfolding rotate_key_body
    rotate_key_body-Keyed s a t h v =
        let new = new_key d.id (d.current_key_version + 1) algorithm fresh in
        let keys =
          map_where (key_in_status d.id d.current_key_version DidKeyStatus.active) (retire_key now)
            s.did_keys in
        elim (Bool-cases (count (still_at d.id d.current_key_version) s.dids == 1)) [
          | inr e ↦ absurd (let q = simp (prisma.update_many_lem, e) at h in ground arith)
          | inl e ↦
              elim (Bool-cases (
                count (key_in_status d.id d.current_key_version DidKeyStatus.active) s.did_keys
                == 1)) [
                  | inr f ↦
                      absurd (let q = simp (prisma.update_many_lem, e, f) at h in ground arith)
                  | inl f ↦ elim (Bool-cases (any (key_clash new) keys)) [
                    | inl g ↦ absurd (
                        let q = simp (prisma.update_many_lem, e, f, prisma.create_lem, g) at h in
                        ground arith)
                    | inr g ↦
                        let q =
                          simp (prisma.update_many_lem, e, f, prisma.create_lem, g, any_never) at
                            h in
                        subst Keyed (ap (λ x. x.1) q) (
                          next-Keyed d.id d.current_key_version (retire_key now) (λ _. refl)
                            (λ _. refl) (λ _. refl) new refl refl refl s v (ground arith) _)
                  ]
                ]
        ]

  module _ (actor_id : ℕ) (reason : Option String) (algorithm : SupportedSignatureAlgorithm)
      (fresh : KeyMaterial) where
    pub recover_key_body-Keyed :
        Yields Keyed
          (recover_key_body prisma now d owner_type owner_id actor_id reason algorithm fresh)
    unfolding recover_key_body
    recover_key_body-Keyed s a t h v =
        let new = new_key d.id (d.current_key_version + 1) algorithm fresh in
        let keys =
          map_where (key_in_status d.id d.current_key_version DidKeyStatus.active) (revoke_key now)
            s.did_keys in
        elim (Bool-cases (count (still_at d.id d.current_key_version) s.dids == 1)) [
          | inr e ↦ absurd (let q = simp (prisma.update_many_lem, e) at h in ground arith)
          | inl e ↦
              elim (Bool-cases (
                count (key_in_status d.id d.current_key_version DidKeyStatus.active) s.did_keys
                == 1)) [
                  | inr f ↦
                      absurd (let q = simp (prisma.update_many_lem, e, f) at h in ground arith)
                  | inl f ↦ elim (Bool-cases (any (key_clash new) keys)) [
                    | inl g ↦ absurd (
                        let q = simp (prisma.update_many_lem, e, f, prisma.create_lem, g) at h in
                        ground arith)
                    | inr g ↦
                        let q =
                          simp (prisma.update_many_lem, e, f, prisma.create_lem, g, any_never) at
                            h in
                        subst Keyed (ap (λ x. x.1) q) (
                          next-Keyed d.id d.current_key_version (revoke_key now) (λ _. refl)
                            (λ _. refl) (λ _. refl) new refl refl refl s v (ground arith) _)
                  ]
                ]
        ]

  pub revoke_key_body-Keyed :
      (version : ℕ) (actor_id : ℕ) (reason : Option String)
      → Yields Keyed (revoke_key_body prisma now d version owner_type owner_id actor_id reason)
  unfolding revoke_key_body
  revoke_key_body-Keyed version actor_id reason s a t h v =
      elim (Bool-cases (count (key_in_status d.id version DidKeyStatus.retired) s.did_keys == 1)) [
        | inr e ↦ absurd (let q = simp (prisma.update_many_lem, e) at h in ground arith)
        | inl e ↦
            let q = simp (prisma.update_many_lem, e, prisma.create_lem, any_never) at h in
            subst Keyed (ap (λ x. x.1) q) (
              revoked-Keyed (key_in_status d.id version DidKeyStatus.retired) (revoke_key now)
                (λ _. refl) (λ _. refl) (λ _. refl) (λ k u. retired_idle k.status (ground arith)) s
                _ v)
      ]
    where
      retired_idle :
          (st : DidKeyStatus)
          → did_key_status_eq st DidKeyStatus.retired ≡ true
          → did_key_status_eq st DidKeyStatus.active ≡ false
      retired_idle DidKeyStatus.active u = cc
      retired_idle DidKeyStatus.retired u = refl
      retired_idle DidKeyStatus.revoked u = refl

module _ (prisma : Prisma) (id did : ℕ) (owner_type : DidOwnerType) (owner_id : ℕ)
    (algorithm : SupportedSignatureAlgorithm) (fresh : KeyMaterial) where
  pub create_did_body-Keyed :
      Yields Keyed (create_did_body prisma id did owner_type owner_id algorithm fresh)
  unfolding create_did_body
  create_did_body-Keyed s a t h v =
      let new = new_did id did owner_id owner_type in
      elim (Bool-cases (any (did_clash new) s.dids)) [
        | inl e ↦ absurd (let q = simp (prisma.create_lem, e) at h in ground arith)
        | inr e ↦ elim (Bool-cases (any (key_clash (new_key id 1 algorithm fresh)) s.did_keys)) [
          | inl f ↦ absurd (let q = simp (prisma.create_lem, e, f) at h in ground arith)
          | inr f ↦
              let q = simp (prisma.create_lem, e, f, any_never) at h in
              subst Keyed (ap (λ x. x.1) q)
                (created-Keyed new (new_key id 1 algorithm fresh) refl refl refl s _ v e)
        ]
      ]
