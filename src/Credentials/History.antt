-- ===== src/Credentials/History.antt =====
-- The status history of src/credentials as a specification: the chain of legal changes that ends in
-- the status of the credential.
pub mod Change
pub mod Issue
use ssi_academic_credential.Common.{
  ℕ, Option, none, some, Bool, true, false, ◌&&◌, ◌∷◌, [], List, ◌≡◌, ◌≢◌, refl, arith, count,
  map_where, In, All, Fresh, Distinct, ◌==◌, if◌then◌else◌, Bool-cases, inl, inr, ap, sym, ◌∙◌,
}
use ssi_academic_credential.Database.{
  Db, Credential, CredentialStatus, CredentialStatusHistory, credential_status_eq,
}

-- The newest status that the history has for a credential.
unfoldable pub last_status : ℕ → List CredentialStatusHistory → Option CredentialStatus
last_status k [] = none
last_status k (h ∷ hs) = if h.credential_id == k then some h.new_status else last_status k hs

-- Each entry starts where the one before it for the same credential ended.
abbrev pub Linked : List CredentialStatusHistory → Type 0
Linked [] = Unit
Linked (h ∷ hs) = (last_status h.credential_id hs ≡ h.previous_status) × Linked hs

-- A credential is issued active; an active one is suspended or revoked; a suspended one is
-- reactivated or revoked; nothing follows on a revocation.
unfoldable pub legal : Option CredentialStatus → CredentialStatus → Bool
legal none CredentialStatus.active = true
legal (some CredentialStatus.active) CredentialStatus.suspended = true
legal (some CredentialStatus.active) CredentialStatus.revoked = true
legal (some CredentialStatus.suspended) CredentialStatus.active = true
legal (some CredentialStatus.suspended) CredentialStatus.revoked = true
legal _ _ = false

pub record Consistent (s : Db) : Type 0 where
  pub keys : Distinct (λ (c : Credential). c.id) s.credentials
  pub linked : Linked s.status_history
  pub lawful :
      All
        (λ (h : CredentialStatusHistory). legal h.previous_status h.new_status ≡ true)
        s.status_history
  pub agrees :
      All (λ (c : Credential). last_status c.id s.status_history ≡ some c.status) s.credentials
  pub known :
      (k : ℕ)
      → Fresh (λ (c : Credential). c.id) k s.credentials
      → last_status k s.status_history ≡ none

pub credential_status_eq_sound : (a b : CredentialStatus) → credential_status_eq a b ≡ true → a ≡ b
credential_status_eq_sound CredentialStatus.active b h = ground arith
credential_status_eq_sound CredentialStatus.suspended b h = ground arith
credential_status_eq_sound CredentialStatus.revoked b h = ground arith
credential_status_eq_sound CredentialStatus.expired b h = ground arith

-- A row that fits the test of a change agrees with the history: it ends in the old status.
pub agrees-In :
    (hs : List CredentialStatusHistory) (t : List Credential) (c : Credential)
    → All (λ (c : Credential). last_status c.id hs ≡ some c.status) t
    → In c t
    → last_status c.id hs ≡ some c.status
agrees-In hs [] c h i = absurd i
agrees-In hs (x ∷ t) c h (inl e) = rw (← e) h.0
agrees-In hs (x ∷ t) c h (inr i) = agrees-In hs t c h.1 i

-- A new entry for another credential changes nothing for these.
pub agrees_other :
    (e : CredentialStatusHistory) (hs : List CredentialStatusHistory) (t : List Credential)
    → Fresh (λ (c : Credential). c.id) e.credential_id t
    → All (λ (c : Credential). last_status c.id hs ≡ some c.status) t
    → All (λ (c : Credential). last_status c.id (e ∷ hs) ≡ some c.status) t
unfolding last_status
agrees_other e hs [] f h = tt
agrees_other e hs (x ∷ t) f h = (ground arith, agrees_other e hs t f.1 h.1)
