-- ===== src/Credentials/Calls/Final.antt =====
-- Revocation is final.
use ssi_academic_credential.Common.{
  ℕ, ◌∷◌, [], List, ◌≡◌, ◌≢◌, refl, inl, inr, arith, All, map_where, Bool-cases,
}
use ssi_academic_credential.Prisma.{Prisma}
use ssi_academic_credential.Database.{Db, Credential, CredentialStatus}
use ssi_academic_credential.Credentials.Status.{
  ChangeCredentialStatusInput, StatusChange, change_where, set_status, change_by,
}
use ssi_academic_credential.Credentials.Status.Laws.{change_status_cases}
use ssi_academic_credential.Credentials.Issuance.{PreparedCredential}
use ssi_academic_credential.Credentials.History.{legal, credential_status_eq_sound}
use ssi_academic_credential.Credentials.History.Issue.{issue_cases}
use ssi_academic_credential.Credentials.Calls.{change_by_cases}
use ssi_academic_credential.Credentials.Calls.Theorems.{
  Method, Call, changes, issues, check, check-Lawful, perform-check, after,
}

-- Every credential with the identifier is revoked.
abbrev pub RevokedIn : ℕ → List Credential → Type 0
RevokedIn k = All (λ c. c.id ≡ k → c.status ≡ CredentialStatus.revoked)

changed-RevokedIn :
    (k now : ℕ) (i : StatusChange) (t : List Credential)
    → i.previous_status ≢ CredentialStatus.revoked
    → RevokedIn k t
    → RevokedIn k (map_where (change_where now i) (set_status i.new_status) t)
changed-RevokedIn k now i [] n r = tt
changed-RevokedIn k now i (c ∷ t) n r = (
  λ q. elim (Bool-cases (change_where now i c)) [
    | inl e ↦
        absurd (n (ground (arith, credential_status_eq_sound c.status i.previous_status, r.0)))
    | inr e ↦ ground (arith, r.0)
  ],
  changed-RevokedIn k now i t n r.1,
)

module _ (prisma : Prisma) (others : Db → Db) (k : ℕ)
    (keep : (s : Db) → RevokedIn k s.credentials → RevokedIn k (others s).credentials) where
  status_change_keeps :
      (m : Method) (input : ChangeCredentialStatusInput) (now later : ℕ) (s : Db)
      → RevokedIn k s.credentials
      → RevokedIn k (change_by prisma others input later (check m input now) s).1.credentials
  unfolding legal
  status_change_keeps m input now later s v =
      elim (change_by_cases prisma others input later (check m input now) s) [
        | inl (e, q) ↦ rw q v
        | inr (c, i, ok_i, _, q) ↦ elim (change_status_cases prisma later i (others s)) [
          | inl (one, (d, _, _, w)) ↦
              let lawful = (check-Lawful m input now c i ok_i).2 in
              rw (q, w)
                (changed-RevokedIn k later i (others s).credentials (λ e. ground arith) (keep s v))
          | inr (n, w) ↦ rw (q, w) (keep s v)
        ]
      ]

  -- Revocation is final: if the other requests leave every credential with this identifier revoked,
  -- so does every call, of any method and for any credential, unless it issues a new credential under
  -- that identifier.
  pub after-RevokedIn :
      (c : Call) (s : Db)
      → ((id wallet_id actor_id : ℕ) (p : PreparedCredential)
          → c ≡ issues id wallet_id actor_id p
          → id ≢ k)
      → RevokedIn k s.credentials
      → RevokedIn k (after prisma others c s).credentials
  unfolding after
  after-RevokedIn (changes m input now later) s new v =
      rw (perform-check prisma others m input now later s, after)
        (status_change_keeps m input now later s v)
  after-RevokedIn (issues id wallet_id actor_id p) s new v =
      elim (issue_cases prisma id wallet_id actor_id p (others s)) [
        | inl (h, _, w) ↦
            rw (w, after) ((λ e. absurd (new id wallet_id actor_id p refl e)), keep s v)
        | inr w ↦ rw (w, after) (keep s v)
      ]
