-- ===== src/Credentials/Calls.antt =====
-- The four methods of src/credentials that write, with any other requests between the reads and the
-- writes of each: what holds after every call.
pub mod Theorems
pub mod Final
use ssi_academic_credential.Common.{
  ℕ, Option, none, some, Bool, true, false, ◌&&◌, ◌∷◌, [], List, Result, ok, err, Error, ◌≡◌, ◌≢◌,
  refl, ◌⊎◌, inl, inr, arith, In, All, count, map_where, ap, Option-cases, Result-cases, Bool-cases,
  ◌==◌, if◌then◌else◌, Distinct, count-pos, conflict, not_found,
}
use ssi_academic_credential.Prisma.{Prisma}
use ssi_academic_credential.Database.{Db, Credential, CredentialStatus, credential_status_eq}
use ssi_academic_credential.Credentials.Status.{
  ChangeCredentialStatusInput, StatusChange, owned, change_where, set_status,
  find_issuer_credential, change_status, suspend_check, revoke_check, reactivate_check, change_by,
  suspend, revoke, reactivate,
}
use ssi_academic_credential.Credentials.Status.Laws.{changed, change_status_cases}
use ssi_academic_credential.Credentials.History.{legal, Consistent, credential_status_eq_sound}
use ssi_academic_credential.Credentials.History.Change.{changed-Consistent}

-- A check lets a credential through only with a legal change of that very credential.
abbrev pub Lawful : (Credential → Result StatusChange) → Type 0
Lawful check =
    (c : Credential) (i : StatusChange)
    → check c ≡ ok i
    → (i.credential_id ≡ c.id)
      × (i.previous_status ≡ c.status)
      × (legal (some i.previous_status) i.new_status ≡ true)

suspend-Lawful : (input : ChangeCredentialStatusInput) → Lawful (suspend_check input)
unfolding suspend_check legal
suspend-Lawful input c i h =
    ground (arith, credential_status_eq_sound c.status CredentialStatus.active)

revoke-Lawful : (input : ChangeCredentialStatusInput) → Lawful (revoke_check input)
unfolding revoke_check legal
revoke-Lawful input c i h = ground arith

reactivate-Lawful :
    (now : ℕ) (input : ChangeCredentialStatusInput) → Lawful (reactivate_check now input)
unfolding reactivate_check legal
reactivate-Lawful now input c i h = ground arith

module _ (prisma : Prisma) (others : Db → Db) (input : ChangeCredentialStatusInput) (now : ℕ)
    (check : Credential → Result StatusChange) where
  -- The three ends of a call: not found or refused, with nothing written; overtaken, with only the
  -- others' writes; or changed.
  pub change_by_cases :
      (s : Db)
      → ((e : Error) × (change_by prisma others input now check s ≡ (err e, s)))
        ⊎ ((c : Credential) × (i : StatusChange) × (check c ≡ ok i)
            × (owned input.credential_id input.issuer_organization_id c ≡ true)
            × (change_by prisma others input now check s ≡ change_status prisma now i (others s)))
  unfolding change_by find_issuer_credential
  change_by_cases s =
      elim (Option-cases (
        prisma.find_first (owned input.credential_id input.issuer_organization_id) s.credentials)) [
          | inl e ↦ inl (not_found "Credential not found", ground arith)
          | inr (c, e) ↦ elim (Result-cases (check c)) [
            | inl (i, q) ↦ inr (c, i, q, (prisma.find_first-some _ _ _ e).0, ground arith)
            | inr (x, q) ↦ inl (x, ground arith)
          ]
        ]

  pub change_by-Consistent :
      Lawful check
      → ((s : Db) → Consistent s → Consistent (others s))
      → (s : Db) → Consistent s
      → Consistent (change_by prisma others input now check s).1
  change_by-Consistent lawful keep s v = elim (change_by_cases s) [
    | inl (e, q) ↦ rw q v
    | inr (c, i, ok_i, _, q) ↦ elim (change_status_cases prisma now i (others s)) [
      | inl (one, (d, m, o, w)) ↦
          rw (q, w) (changed-Consistent now i (others s) (lawful c i ok_i).2 one (keep s v))
      | inr (n, w) ↦ rw (q, w) (keep s v)
    ]
  ]
