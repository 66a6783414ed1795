-- ===== src/Credentials/Status/Laws.antt =====
-- What a change of status does: all of it or nothing.
use ssi_academic_credential.Common.{
  ℕ, true, ◌∷◌, [], List, ok, err, conflict, ◌≡◌, ◌≢◌, refl, ◌⊎◌, inl, inr, arith, count, map_where,
  In, ◌==◌, if◌then◌else◌, Bool-cases, Option-cases, any_never,
}
use ssi_academic_credential.Prisma.{Prisma}
use ssi_academic_credential.Database.{Db, Credential}
use ssi_academic_credential.Credentials.Status.{
  StatusChange, owned, change_where, set_status, history_entry, change_audit,
  find_issuer_credential, change_body, change_status,
}

-- The database after the change.
abbrev pub changed : ℕ → StatusChange → Db → Db
changed now i s = record s {
  credentials = map_where (change_where now i) (set_status i.new_status) s.credentials;
  status_history = history_entry i ∷ s.status_history;
  audit_logs = change_audit i ∷ s.audit_logs;
}

module _ (prisma : Prisma) (now : ℕ) (i : StatusChange) where
  -- A row that is changed is still the issuer's.
  owned_after :
      (t : List Credential)
      → count
          (owned i.credential_id i.issuer_organization_id)
          (map_where (change_where now i) (set_status i.new_status) t)
        ≡ 0
      → count (change_where now i) t ≡ 0
  owned_after [] h = refl
  owned_after (c ∷ t) h = ground (arith, owned_after t)

  change_body_lem :
      (s : Db)
      → change_body prisma now i s ≡ (
          if count (change_where now i) s.credentials == 1
          then find_issuer_credential prisma i.credential_id i.issuer_organization_id
              (changed now i s)
          else (
            err (conflict "Credential status changed; retry request"),
            record s {
              credentials = map_where (change_where now i) (set_status i.new_status) s.credentials;
            },
          ))
  unfolding change_body
  change_body_lem s = elim (Bool-cases (count (change_where now i) s.credentials == 1)) [
    | inl e ↦ simp (prisma.update_many_lem, prisma.create_lem, any_never, e)
    | inr e ↦ simp (prisma.update_many_lem, prisma.create_lem, any_never, e)
  ]

  -- The change is made, one row is changed and the issuer's credential comes back, or nothing is.
  pub change_status_cases :
      (s : Db)
      → ((count (change_where now i) s.credentials ≡ 1)
          × ((c : Credential) × In c (changed now i s).credentials
              × (owned i.credential_id i.issuer_organization_id c ≡ true)
              × (change_status prisma now i s ≡ (ok c, changed now i s))))
        ⊎ ((count (change_where now i) s.credentials ≢ 1)
            × (change_status prisma now i s
                ≡ (err (conflict "Credential status changed; retry request"), s)))
  unfolding change_status find_issuer_credential
  change_status_cases s = elim (Bool-cases (count (change_where now i) s.credentials == 1)) [
    | inl one ↦
        elim (Option-cases (
          prisma.find_first (owned i.credential_id i.issuer_organization_id)
            (changed now i s).credentials)) [
              | inl e ↦ absurd (
                  let zero = owned_after s.credentials (prisma.find_first-none _ _ e) in
                  ground arith)
              | inr (c, e) ↦
                  let (o, m) = prisma.find_first-some _ _ _ e in
                  inl (
                    ground arith,
                    (c, m, o, simp (prisma.transaction_lem, change_body_lem, one, e)),
                  )
            ]
    | inr e ↦ inr (ground arith, simp (prisma.transaction_lem, change_body_lem, e))
  ]
