-- ===== src/Credentials/Calls/Theorems.antt =====
-- What holds of the status methods and of issuance, whatever other requests do in between.
use ssi_academic_credential.Common.{
  ℕ, some, Bool, true, false, ◌∷◌, [], List, Result, ok, err, Error, ◌≡◌, refl, ◌⊎◌, inl, inr,
  arith, In, count, map_where, ap, Bool-cases, Distinct, count-pos, sym, ◌∙◌, subst, Fresh-In,
  Fresh, Action,
}
use ssi_academic_credential.Prisma.{Prisma}
use ssi_academic_credential.Database.{Db, Credential, CredentialStatus}
use ssi_academic_credential.Credentials.Status.{
  ChangeCredentialStatusInput, StatusChange, owned, change_where, set_status, unexpired,
  suspend_check, revoke_check, reactivate_check, change_by, suspend, revoke, reactivate,
}
use ssi_academic_credential.Credentials.Status.Laws.{changed, change_status_cases}
use ssi_academic_credential.Credentials.Issuance.{PreparedCredential, issue_transaction}
use ssi_academic_credential.Credentials.History.{legal, Consistent}
use ssi_academic_credential.Credentials.History.Change.{fits, unchanged}
use ssi_academic_credential.Credentials.History.Issue.{issue_cases, issued-Consistent}
use ssi_academic_credential.Credentials.Calls.{
  Lawful, suspend-Lawful, revoke-Lawful, reactivate-Lawful, change_by_cases, change_by-Consistent,
}

pub data Method : Type 0 where
  suspends revokes reactivates : Method

-- The status that a method sets.
abbrev pub target : Method → CredentialStatus
target suspends = CredentialStatus.suspended
target revokes = CredentialStatus.revoked
target reactivates = CredentialStatus.active

pub data Call : Type 0 where
  changes : Method → ChangeCredentialStatusInput → (now later : ℕ) → Call
  issues : (id wallet_id actor_id : ℕ) → PreparedCredential → Call

abbrev pub check : Method → ChangeCredentialStatusInput → ℕ → Credential → Result StatusChange
check suspends input now = suspend_check input
check revokes input now = revoke_check input
check reactivates input now = reactivate_check now input

module _ (prisma : Prisma) (others : Db → Db) where
  -- A call of a status method; `later` is the time at which the transaction runs.
  unfoldable pub perform :
      Method → ChangeCredentialStatusInput → (now later : ℕ) → Action Db Credential
  perform suspends input now later = suspend prisma others input later
  perform revokes input now later = revoke prisma others input later
  perform reactivates input now later = reactivate prisma others input now later

  -- The database after a call.
  unfoldable pub after : Call → Db → Db
  after (changes m input now later) s = (perform m input now later s).1
  after (issues id wallet_id actor_id p) s =
      (issue_transaction prisma id wallet_id actor_id p (others s)).1

  pub perform-check :
      (m : Method) (input : ChangeCredentialStatusInput) (now later : ℕ) (s : Db)
      → perform m input now later s ≡ change_by prisma others input later (check m input now) s
  unfolding perform suspend revoke reactivate
  perform-check suspends input now later s = refl
  perform-check revokes input now later s = refl
  perform-check reactivates input now later s = refl

pub check-Lawful :
    (m : Method) (input : ChangeCredentialStatusInput) (now : ℕ) → Lawful (check m input now)
check-Lawful suspends input now = suspend-Lawful input
check-Lawful revokes input now = revoke-Lawful input
check-Lawful reactivates input now = reactivate-Lawful now input

module _ (prisma : Prisma) (others : Db → Db)
    (keep : (s : Db) → Consistent s → Consistent (others s)) where
  -- If the other requests keep the database consistent, then so does every call that suspends,
  -- revokes, reactivates or issues a credential: identifiers stay distinct, the status of every
  -- credential is the one that its history ends in, every entry of the history starts where the entry
  -- before it ended, and every change is a legal one.
  pub after-Consistent : (c : Call) (s : Db) → Consistent s → Consistent (after prisma others c s)
  unfolding after
  after-Consistent (changes m input now later) s v =
      rw (perform-check prisma others m input now later s, after)
        (change_by-Consistent prisma others input later (check m input now)
          (check-Lawful m input now) keep s v)
  after-Consistent (issues id wallet_id actor_id p) s v =
      elim (issue_cases prisma id wallet_id actor_id p (others s)) [
        | inl (h, _, w) ↦
            rw (w, after) (issued-Consistent prisma id wallet_id actor_id p (others s) h (keep s v))
        | inr w ↦ rw (w, after) (keep s v)
      ]

-- In a table of distinct identifiers the changed row is the one that carries the new status.
changed_row :
    (now : ℕ) (i : StatusChange) (t : List Credential) (r : Credential)
    → Distinct (λ (c : Credential). c.id) t
    → count (change_where now i) t ≡ 1
    → In r (map_where (change_where now i) (set_status i.new_status) t)
    → r.id ≡ i.credential_id
    → (c : Credential) × In c t × (change_where now i c ≡ true) × (r ≡ set_status i.new_status c)
changed_row now i [] r d n m e = absurd m
changed_row now i (c ∷ t) r d n (inl q) e = elim (Bool-cases (change_where now i c)) [
  | inl hit ↦ (c, inl refl, hit, ground arith)
  | inr miss ↦
      let (x, m, p) = count-pos (change_where now i) t (ground arith) in
      absurd (
        Fresh-In (λ (c : Credential). c.id) c.id t x d.0 m
          ((fits now i x p).0 ∙ sym e ∙ sym (ground arith)))
]
changed_row now i (c ∷ t) r d n (inr m) e = elim (Bool-cases (change_where now i c)) [
  | inl hit ↦
      let same = (fits now i c hit).0 in
      let rest : Fresh (λ (c : Credential). c.id) i.credential_id t = rw (← same) d.0 in
      absurd (
        Fresh-In (λ (c : Credential). c.id) i.credential_id t r rest
          (subst (In r) (unchanged now i t rest) m) e)
  | inr miss ↦ let (x, k, p, q) = changed_row now i t r d.1 (ground arith) m e in (x, inr k, p, q)
]

fits_unexpired :
    (now : ℕ) (i : StatusChange) (c : Credential)
    → i.require_unexpired ≡ true
    → change_where now i c ≡ true
    → unexpired now c ≡ true
fits_unexpired now i c need h = ground arith

-- Only `reactivate` asks the update for a credential that has not expired.
abbrev needs_unexpired : Method → Bool
needs_unexpired reactivates = true
needs_unexpired _ = false

check_ok :
    (m : Method) (input : ChangeCredentialStatusInput) (now : ℕ) (c : Credential) (i : StatusChange)
    → check m input now c ≡ ok i
    → (i.issuer_organization_id ≡ input.issuer_organization_id)
      × (i.new_status ≡ target m)
      × (i.changed_by ≡ input.changed_by)
      × (i.reason ≡ input.reason)
      × (i.require_unexpired ≡ needs_unexpired m)
unfolding suspend_check revoke_check reactivate_check
check_ok suspends input now c i h = ground arith
check_ok revokes input now c i h = ground arith
check_ok reactivates input now c i h = ground arith

-- The outcome of a status method that found the database at `before`, returned `r` and left `after`.
abbrev pub Outcome : Method → ChangeCredentialStatusInput → ℕ → Db → Credential → Db → Type 0
Outcome m input later before r after =
    (r.id ≡ input.credential_id)
    × (r.issuer_organization_id ≡ input.issuer_organization_id)
    × (r.status ≡ target m)
    × In r after.credentials
    × ((c : Credential) × In c before.credentials
        × (r ≡ set_status (target m) c)
        × (legal (some c.status) (target m) ≡ true)
        × (m ≡ reactivates → unexpired later c ≡ true)
        × (after.status_history
            ≡ record {
              credential_id = input.credential_id;
              previous_status = some c.status;
              new_status = target m;
              reason = input.reason;
              changed_by = input.changed_by;
            }
              ∷ before.status_history))

module _ (prisma : Prisma) (others : Db → Db) (m : Method) (input : ChangeCredentialStatusInput)
    (now later : ℕ) (s : Db) where
  committed :
      (c : Credential) (i : StatusChange) (r : Credential)
      → Distinct (λ (c : Credential). c.id) (others s).credentials
      → check m input now c ≡ ok i
      → owned input.credential_id input.issuer_organization_id c ≡ true
      → count (change_where later i) (others s).credentials ≡ 1
      → In r (changed later i (others s)).credentials
      → owned i.credential_id i.issuer_organization_id r ≡ true
      → Outcome m input later (others s) r (changed later i (others s))
  committed c i r d ok_i o one k own =
      let (org, st, by, why, fresh) = check_ok m input now c i ok_i in
      let (same, prev, law) = check-Lawful m input now c i ok_i in
      let (x, x_in, hit, e) = changed_row later i (others s).credentials r d one k (ground arith) in
      let (_, xs) = fits later i x hit in
      (
        ground arith,
        ground arith,
        ground arith,
        k,
        (
          x,
          x_in,
          rw (← st) e,
          rw (xs, ← st) law,
          (λ q. fits_unexpired later i x (fresh ∙ ap needs_unexpired q) hit),
          ground arith,
        ),
      )

  -- A status method that succeeds returns the issuer's credential with the requested identifier and
  -- the method's status, as it stands in the table afterwards; just before the change, after whatever
  -- the other requests did, that row differed in its status only and a legal change led from there;
  -- a reactivated credential had not expired; and the newest entry of the history records this change.
  pub perform_ok :
      (r : Credential) (t : Db)
      → Distinct (λ (c : Credential). c.id) (others s).credentials
      → perform prisma others m input now later s ≡ (ok r, t)
      → Outcome m input later (others s) r t
  perform_ok r t d h = elim (change_by_cases prisma others input later (check m input now) s) [
    | inl (e, q) ↦ absurd (cc (perform-check prisma others m input now later s))
    | inr (c, i, ok_i, o, q) ↦ elim (change_status_cases prisma later i (others s)) [
      | inl (one, (x, k, own, w)) ↦
          let same : x ≡ r = cc (perform-check prisma others m input now later s) in
          let end : changed later i (others s) ≡ t =
            cc (perform-check prisma others m input now later s) in
          rw (← same, ← end) (committed c i x d ok_i o one k own)
      | inr (n, w) ↦ absurd (cc (perform-check prisma others m input now later s))
    ]
  ]

  -- A status method that fails has written nothing: the database is as it was read, or as the other
  -- requests left it.
  pub perform_err :
      (e : Error) (t : Db)
      → perform prisma others m input now later s ≡ (err e, t)
      → (t ≡ s) ⊎ (t ≡ others s)
  perform_err e t h = elim (change_by_cases prisma others input later (check m input now) s) [
    | inl (_, q) ↦ inl (cc (perform-check prisma others m input now later s))
    | inr (c, i, ok_i, o, q) ↦ elim (change_status_cases prisma later i (others s)) [
      | inl (one, (x, k, own, w)) ↦ cc (perform-check prisma others m input now later s)
      | inr (n, w) ↦ inr (cc (perform-check prisma others m input now later s))
    ]
  ]
