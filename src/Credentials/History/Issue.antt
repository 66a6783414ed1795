-- ===== src/Credentials/History/Issue.antt =====
-- An issued credential starts a history of its own.
use ssi_academic_credential.Common.{
  ℕ, false, ◌∷◌, [], List, ok, err, unique_violation, ◌≡◌, refl, ◌⊎◌, inl, inr, arith, Fresh, any,
  any_never, Bool-cases,
}
use ssi_academic_credential.Prisma.{Prisma}
use ssi_academic_credential.Database.{Db, Credential}
use ssi_academic_credential.Credentials.Issuance.{
  PreparedCredential, IssuedCredential, credential_clash, wallet_clash, new_credential,
  new_wallet_credential, issue_history, issue_audit, issue_body, issue_transaction,
}
use ssi_academic_credential.Credentials.History.{last_status, legal, Consistent, agrees_other}

abbrev pub issued : ℕ → ℕ → ℕ → PreparedCredential → Db → Db
issued id wallet_id actor_id p s = record s {
  credentials = new_credential id p ∷ s.credentials;
  wallet_credentials = new_wallet_credential wallet_id id p ∷ s.wallet_credentials;
  status_history = issue_history id actor_id ∷ s.status_history;
  audit_logs = issue_audit id actor_id p ∷ s.audit_logs;
}

abbrev pub issued_result : ℕ → ℕ → PreparedCredential → IssuedCredential
issued_result id wallet_id p = record {
  credential = new_credential id p;
  wallet_credential_id = wallet_id;
  signed_credential = p.signed_credential;
}

module _ (prisma : Prisma) (id wallet_id actor_id : ℕ) (p : PreparedCredential) where
  -- All four rows are written, or a unique column is taken and none is.
  pub issue_cases :
      (s : Db)
      → ((any (credential_clash (new_credential id p)) s.credentials ≡ false)
          × (any (wallet_clash (new_wallet_credential wallet_id id p)) s.wallet_credentials ≡ false)
          × (issue_transaction prisma id wallet_id actor_id p s
              ≡ (ok (issued_result id wallet_id p), issued id wallet_id actor_id p s)))
        ⊎ (issue_transaction prisma id wallet_id actor_id p s ≡ (err unique_violation, s))
  unfolding issue_transaction issue_body
  issue_cases s = elim (Bool-cases (any (credential_clash (new_credential id p)) s.credentials)) [
    | inl e ↦ inr (simp (prisma.transaction_lem, prisma.create_lem, e))
    | inr e ↦
        elim (Bool-cases
          (any (wallet_clash (new_wallet_credential wallet_id id p)) s.wallet_credentials)) [
            | inl q ↦ inr (simp (prisma.transaction_lem, prisma.create_lem, e, q))
            | inr q ↦ inl (e, q, simp (prisma.transaction_lem, prisma.create_lem, any_never, e, q))
          ]
  ]

  clash-Fresh :
      (t : List Credential)
      → any (credential_clash (new_credential id p)) t ≡ false
      → Fresh (λ (c : Credential). c.id) id t
  clash-Fresh [] h = tt
  clash-Fresh (c ∷ t) h = (ground arith, clash-Fresh t (ground arith))

  pub issued-Consistent :
      (s : Db)
      → any (credential_clash (new_credential id p)) s.credentials ≡ false
      → Consistent s
      → Consistent (issued id wallet_id actor_id p s)
  unfolding last_status legal
  issued-Consistent s h v =
      let f = clash-Fresh s.credentials h in
      record {
        keys = (f, v.keys);
        linked = (v.known id f, v.linked);
        lawful = (refl, v.lawful);
        agrees = (
          ground arith,
          agrees_other (issue_history id actor_id) s.status_history s.credentials f v.agrees,
        );
        known = λ k q. ground (arith, v.known k q.1, q.0);
      }
