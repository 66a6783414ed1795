-- ===== src/Trust/Theorems.antt =====
-- The registry of src/trust-registry/trust-registry.service.ts after any call: a suspension is final.
use ssi_academic_credential.Common.{
  ℕ, true, false, List, [], ◌∷◌, ◌≡◌, ◌≢◌, refl, inl, inr, arith, ◌==◌, ◌||◌, ◌>>◌, modify, Action,
  All, In, count, map_where, any, any_never, Keeps, bind-Keeps, settle-Keeps, raise_if-Keeps,
  Bool-cases, Option-cases, subst, sym, not,
}
use ssi_academic_credential.Prisma.{Prisma}
use ssi_academic_credential.Database.{
  Db, AuditLog, Organization, Did, TrustedIssuer, TrustedIssuerStatus, trusted_issuer_status_eq,
  organization_type_eq, OrganizationType, did_owner_type_eq, DidOwnerType, did_status_eq, DidStatus,
}
use ssi_academic_credential.Trust.{
  AddTrustedIssuerInput, of_did, still_trusted, set_suspended, issuer_clash, new_issuer,
  check_issuer, check_unregistered, add_body, create, is_trusted, suspend_body, find_trusted,
  suspend,
}

-- The DID is registered, and no row of it is trusted.
pub record Distrusted (did : ℕ) (s : Db) : Type 0 where
  pub registered : count (of_did did) s.trusted_issuers ≢ 0
  pub distrusted :
      All
        (λ t.
          of_did did t ≡ true
          → trusted_issuer_status_eq t.status TrustedIssuerStatus.trusted ≡ false)
        s.trusted_issuers

All-In : {A : Type 0} (P : A → Type 0) (t : List A) (a : A) → All P t → In a t → P a
All-In P [] a h i = absurd i
All-In P (x ∷ t) a h (inl e) = subst P e h.0
All-In P (x ∷ t) a h (inr i) = All-In P t a h.1 i

registered_any :
    (did : ℕ) (t : List TrustedIssuer) (u : TrustedIssuer)
    → u.issuer_did ≡ did
    → any (issuer_clash u) t ≡ false
    → count (of_did did) t ≡ 0
registered_any did [] u e h = refl
registered_any did (x ∷ t) u e h = ground (arith, registered_any did t u e)

module _ (id now did : ℕ) where
  count-set_suspended :
      (t : List TrustedIssuer)
      → count (of_did did) (map_where (still_trusted id) (set_suspended now) t)
        ≡ count (of_did did) t
  count-set_suspended [] = refl
  count-set_suspended (x ∷ t) = ground (arith, count-set_suspended t)

  All-set_suspended :
      (t : List TrustedIssuer)
      → All
          (λ t.
            of_did did t ≡ true
            → trusted_issuer_status_eq t.status TrustedIssuerStatus.trusted ≡ false)
          t
      → All
          (λ t.
            of_did did t ≡ true
            → trusted_issuer_status_eq t.status TrustedIssuerStatus.trusted ≡ false)
          (map_where (still_trusted id) (set_suspended now) t)
  All-set_suspended [] h = tt
  All-set_suspended (x ∷ t) h = elim (Bool-cases (still_trusted id x)) [
    | inl e ↦ rw e ((λ _. refl), All-set_suspended t h.1)
    | inr e ↦ rw e (h.0, All-set_suspended t h.1)
  ]

module _ (prisma : Prisma) (did : ℕ) where
  pub Distrusted-not_trusted : (s : Db) → Distrusted did s → is_trusted prisma did s ≡ false
  unfolding is_trusted
  Distrusted-not_trusted s v =
      elim (Option-cases (prisma.find_first (of_did did) s.trusted_issuers)) [
        | inl e ↦ ground arith
        | inr (t, e) ↦
            let (own, stored) = prisma.find_first-some _ _ _ e in
            let q = All-In _ s.trusted_issuers t v.distrusted stored own in ground arith
      ]

  suspend_body-Distrusted :
      (id actor_id now : ℕ) (t : TrustedIssuer)
      → Keeps (Distrusted did) (suspend_body prisma id actor_id now t)
  unfolding suspend_body
  suspend_body-Distrusted id actor_id now t s v =
      let mapped = map_where (still_trusted id) (set_suspended now) s.trusted_issuers in
      let kept : (logs : List AuditLog)
          → Distrusted did (record s { trusted_issuers = mapped; audit_logs = logs }) =
        λ logs. record {
          registered =
              ground (arith, count-set_suspended id now did s.trusted_issuers, v.registered);
          distrusted = All-set_suspended id now did s.trusted_issuers v.distrusted;
        } in
      elim (Bool-cases (count (still_trusted id) s.trusted_issuers == 1)) [
        | inr e ↦ simp (prisma.update_many_lem, e) (kept s.audit_logs)
        | inl e ↦
            elim (Option-cases (prisma.find_first (λ (t : TrustedIssuer). t.id == id) mapped)) [
              | inl q ↦ simp (prisma.update_many_lem, e, q) (kept s.audit_logs)
              | inr (u, q) ↦
                  simp (prisma.update_many_lem, e, q, prisma.create_lem, any_never) (kept _)
            ]
      ]

  add_body-Distrusted :
      (id : ℕ) (input : AddTrustedIssuerInput) → Keeps (Distrusted did) (add_body prisma id input)
  unfolding add_body
  add_body-Distrusted id input s v =
      elim (Bool-cases (any (issuer_clash (new_issuer id input)) s.trusted_issuers)) [
        | inl e ↦ simp (prisma.create_lem, e) v
        | inr e ↦
            let other : input.issuer_did ≢ did =
              λ q. v.registered (registered_any did s.trusted_issuers (new_issuer id input) q e) in
            let added : (logs : List AuditLog)
                → Distrusted did (record s {
                  trusted_issuers = new_issuer id input ∷ s.trusted_issuers;
                  audit_logs = logs;
                }) =
              λ logs. record {
                registered = ground (arith, other, v.registered);
                distrusted = ((λ q. absurd (other (ground arith))), v.distrusted);
              } in
            simp (prisma.create_lem, e, any_never) (added _)
      ]

  transaction-Distrusted :
      {A : Type 0} (m : Action Db A)
      → Keeps (Distrusted did) m
      → Keeps (Distrusted did) (prisma.transaction m)
  transaction-Distrusted m k s v =
      subst (λ x. Distrusted did x.1) (sym (prisma.transaction_lem m s))
        (settle-Keeps (Distrusted did) m (λ s a t e w. subst (λ x. Distrusted did x.1) e (k s w)) s
          v)

  check_issuer-reads :
      (input : AddTrustedIssuerInput) (s : Db) → (check_issuer prisma input s).1 ≡ s
  unfolding check_issuer
  check_issuer-reads input s =
      elim (Option-cases
        (prisma.find_first (λ (o : Organization). o.id == input.organization_id) s.organizations)) [
          | inl e ↦ ground arith
          | inr (o, e) ↦
              elim (Bool-cases (organization_type_eq o.type OrganizationType.university)) [
                | inr t ↦ ground arith
                | inl t ↦
                    elim (Option-cases
                      (prisma.find_first (λ (d : Did). d.did == input.issuer_did) s.dids)) [
                        | inl q ↦ ground arith
                        | inr (d, q) ↦
                            elim (Bool-cases (
                              not (did_owner_type_eq d.owner_type DidOwnerType.organization)
                              || not (d.owner_id == o.id))) [
                                | inl u ↦ ground arith
                                | inr u ↦
                                    elim (Bool-cases (did_status_eq d.status DidStatus.active)) [
                                      | inl a ↦ ground arith
                                      | inr a ↦ ground arith
                                    ]
                              ]
                      ]
              ]
        ]

  check_unregistered-Keeps :
      (issuer_did : ℕ) → Keeps (Distrusted did) (check_unregistered prisma issuer_did)
  unfolding check_unregistered
  check_unregistered-Keeps issuer_did s v = raise_if-Keeps (Distrusted did) _ _ s v

  find_trusted-reads : (id : ℕ) (s : Db) → (find_trusted prisma id s).1 ≡ s
  unfolding find_trusted
  find_trusted-reads id s =
      elim (Option-cases
        (prisma.find_first (λ (t : TrustedIssuer). t.id == id) s.trusted_issuers)) [
          | inl e ↦ ground arith
          | inr (t, e) ↦
              elim (Bool-cases (trusted_issuer_status_eq t.status TrustedIssuerStatus.trusted)) [
                | inl q ↦ ground arith
                | inr q ↦ ground arith
              ]
        ]

  module _ (others : Db → Db)
      (others-keep : (s : Db) → Distrusted did s → Distrusted did (others s)) where
    create-Distrusted :
        (id : ℕ) (input : AddTrustedIssuerInput)
        → Keeps (Distrusted did) (create prisma others id input)
    unfolding create
    create-Distrusted id input =
        bind-Keeps (Distrusted did) (check_issuer prisma input)
          (λ _.
            check_unregistered prisma input.issuer_did
            >> (modify others >> prisma.transaction (add_body prisma id input)))
          (λ s v. subst (Distrusted did) (sym (check_issuer-reads input s)) v)
          (λ _.
            bind-Keeps (Distrusted did) (check_unregistered prisma input.issuer_did)
              (λ _. modify others >> prisma.transaction (add_body prisma id input))
              (check_unregistered-Keeps input.issuer_did)
              (λ _ s v.
                transaction-Distrusted _ (add_body-Distrusted id input) (others s)
                  (others-keep s v)))

    suspend-Distrusted :
        (id actor_id now : ℕ) → Keeps (Distrusted did) (suspend prisma others id actor_id now)
    unfolding suspend
    suspend-Distrusted id actor_id now =
        bind-Keeps (Distrusted did) (find_trusted prisma id)
          (λ t. modify others >> prisma.transaction (suspend_body prisma id actor_id now t))
          (λ s v. subst (Distrusted did) (sym (find_trusted-reads id s)) v)
          (λ t s v.
            transaction-Distrusted _ (suspend_body-Distrusted id actor_id now t) (others s)
              (others-keep s v))

pub data Call : Type 0 where
  adds : (id : ℕ) → AddTrustedIssuerInput → Call
  suspends : (id actor_id now : ℕ) → Call

abbrev pub after : Prisma → (Db → Db) → Call → Db → Db
after prisma others (adds id input) s = (create prisma others id input s).1
after prisma others (suspends id actor_id now) s = (suspend prisma others id actor_id now s).1

-- Suspension is final: once a DID is registered and no row of it is trusted, it is not trusted after
-- any call that adds or suspends an issuer, whichever one it names, and it stays registered and
-- distrusted for the next, if the other requests leave it so.
pub after-Distrusted :
    (prisma : Prisma) (did : ℕ) (others : Db → Db)
    → ((s : Db) → Distrusted did s → Distrusted did (others s))
    → (c : Call) (s : Db) → Distrusted did s
    → Distrusted did (after prisma others c s)
      × (is_trusted prisma did (after prisma others c s) ≡ false)
after-Distrusted prisma did others k (adds id input) s v =
    let w = create-Distrusted prisma did others k id input s v in
    (w, Distrusted-not_trusted prisma did _ w)
after-Distrusted prisma did others k (suspends id actor_id now) s v =
    let w = suspend-Distrusted prisma did others k id actor_id now s v in
    (w, Distrusted-not_trusted prisma did _ w)
