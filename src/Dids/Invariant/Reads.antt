-- ===== src/Dids/Invariant/Reads.antt =====
-- The methods of src/did/did.service.ts that only read.
use ssi_academic_credential.Common.{
  ℕ, String, Action, ◌≡◌, refl, ◌∙◌, arith, inl, inr, Bool-cases, Option-cases, bind-Keeps, ◌>>=◌,
  ◌==◌,
}
use ssi_academic_credential.Prisma.{Prisma}
use ssi_academic_credential.Database.{
  Db, User, UserRole, user_role_eq, Organization, OrganizationStatus, organization_status_eq, Did,
  DidOwnerType, DidStatus, did_status_eq, DidKeyStatus, did_key_status_eq,
}
use ssi_academic_credential.Dids.{
  of_owner, is_active, require_active_organization_did, require_active_holder_did, find_key,
  current_key_algorithm, supported_algorithm,
}
use ssi_academic_credential.Dids.Keys.{check_historical}

-- An action that only reads.
abbrev pub Reads : {A : Type 0} → Action Db A → Type 0
Reads m = (s : Db) → (m s).1 ≡ s

module _ (prisma : Prisma) where
  pub require_active_organization_did-Reads :
      (id : ℕ) → Reads (require_active_organization_did prisma id)
  unfolding require_active_organization_did
  require_active_organization_did-Reads id s =
      elim (Option-cases (prisma.find_first (λ (o : Organization). o.id == id) s.organizations)) [
        | inl e ↦ ground arith
        | inr (o, e) ↦
            elim (Bool-cases (organization_status_eq o.status OrganizationStatus.active)) [
              | inr t ↦ ground arith
              | inl t ↦
                  elim (Option-cases
                    (prisma.find_first (of_owner DidOwnerType.organization id) s.dids)) [
                      | inl q ↦ ground arith
                      | inr (d, q) ↦ elim (Bool-cases (did_status_eq d.status DidStatus.active)) [
                        | inl u ↦ ground arith
                        | inr u ↦ ground arith
                      ]
                    ]
            ]
      ]

  pub require_active_holder_did-Reads :
      (id : ℕ) (m : String) → Reads (require_active_holder_did prisma id m)
  unfolding require_active_holder_did
  require_active_holder_did-Reads id m s =
      elim (Option-cases (prisma.find_first (λ (u : User). u.id == id) s.users)) [
        | inl e ↦ ground arith
        | inr (o, e) ↦ elim (Bool-cases (user_role_eq o.role UserRole.holder)) [
          | inr t ↦ ground arith
          | inl t ↦ elim (Option-cases (prisma.find_first (of_owner DidOwnerType.user id) s.dids)) [
            | inl q ↦ ground arith
            | inr (d, q) ↦ elim (Bool-cases (did_status_eq d.status DidStatus.active)) [
              | inl u ↦ ground arith
              | inr u ↦ ground arith
            ]
          ]
        ]
      ]

  pub current_key_algorithm-Reads : (d : Did) → Reads (current_key_algorithm prisma d)
  unfolding current_key_algorithm
  current_key_algorithm-Reads d s =
      elim (Option-cases (find_key prisma d.id d.current_key_version s)) [
        | inl e ↦ ground arith
        | inr (k, e) ↦ elim (Bool-cases (is_active k)) [
          | inr t ↦ ground arith
          | inl t ↦ elim (Option-cases (supported_algorithm k.algorithm)) [
            | inl u ↦ ground arith
            | inr u ↦ ground arith
          ]
        ]
      ]

  pub check_historical-Reads : (d : Did) (version : ℕ) → Reads (check_historical prisma d version)
  unfolding check_historical
  check_historical-Reads d version s = elim (Bool-cases (version == 0)) [
    | inl e ↦ ground arith
    | inr e ↦ elim (Bool-cases (version == d.current_key_version)) [
      | inl f ↦ ground arith
      | inr f ↦ elim (Option-cases (find_key prisma d.id version s)) [
        | inl q ↦ ground arith
        | inr (k, q) ↦ elim (Bool-cases (did_key_status_eq k.status DidKeyStatus.revoked)) [
          | inl u ↦ ground arith
          | inr u ↦ elim (Bool-cases (did_key_status_eq k.status DidKeyStatus.retired)) [
            | inl w ↦ ground arith
            | inr w ↦ ground arith
          ]
        ]
      ]
    ]
  ]

  module _ {A B : Type 0} where
    -- Two actions that read, one after the other.
    pub then-Reads :
        (m : Action Db A) (f : A → Action Db B)
        → Reads m
        → ((a : A) → Reads (f a))
        → Reads (m >>= f)
    then-Reads m f hm hf s =
        bind-Keeps (λ t. t ≡ s) m f (λ t e. hm t ∙ e) (λ a t e. hf a t ∙ e) s refl
