-- ===== src/Dids/Invariant.antt =====
-- The keys of every DID, as the transactions of src/did/did.service.ts keep them.
mod Step
mod Reads
pub mod Transactions
pub mod Calls
use ssi_academic_credential.Common.{
  ℕ, suc, ◌+◌, ◌≤◌, Bool, true, false, ◌&&◌, ◌||◌, List, [], ◌∷◌, Option, ◌≡◌, ◌≢◌, refl, sym,
  subst, ap, ◌∙◌, arith, inl, inr, ◌⊎◌, ◌==◌, if◌then◌else◌, In, All, Distinct, Fresh,
  Distinct-map_where, Fresh-In, count, map_where, any, Bool-cases, count-pos,
}
use ssi_academic_credential.Database.{
  Db, Did, DidStatus, did_status_eq, DidKey, DidKeyStatus, did_key_status_eq, AuditLog,
}
use ssi_academic_credential.Dids.{
  still_at, key_in_status, key_at, is_active, set_version, did_clash,
}

-- The current key of a DID is stored and active.
abbrev pub Current : Did → List DidKey → Type 0
Current d keys =
    (k : DidKey) × In k keys
    × (k.did_id ≡ d.id)
    × (k.version ≡ d.current_key_version)
    × (is_active k ≡ true)

-- No key of it is newer, and no other is active.
abbrev pub Bounded : Did → DidKey → Type 0
Bounded d k =
    k.did_id ≡ d.id
    → (k.version ≤ d.current_key_version) × (is_active k ≡ true → k.version ≡ d.current_key_version)

abbrev pub KeysOf : List DidKey → Did → Type 0
KeysOf keys d = Current d keys × All (Bounded d) keys

abbrev pub Owned : List Did → DidKey → Type 0
Owned dids k = (d : Did) × In d dids × (d.id ≡ k.did_id)

pub record Keyed (s : Db) : Type 0 where
  pub ids : Distinct (λ (d : Did). d.id) s.dids
  pub keys : All (KeysOf s.did_keys) s.dids
  pub belongs : All (Owned s.dids) s.did_keys

pub All-In : {A : Type 0} (P : A → Type 0) (t : List A) (a : A) → All P t → In a t → P a
All-In P [] a h i = absurd i
All-In P (x ∷ t) a h (inl e) = subst P e h.0
All-In P (x ∷ t) a h (inr i) = All-In P t a h.1 i

pub In-All : {A : Type 0} (P : A → Type 0) (t : List A) → ((a : A) → In a t → P a) → All P t
In-All P [] f = tt
In-All P (x ∷ t) f = (f x (inl (refl)), In-All P t (λ a i. f a (inr i)))

module _ {A : Type 0} (p : A → Bool) (f : A → A) where
  pub In-map : (t : List A) (a : A) → In a t → In (if p a then f a else a) (map_where p f t)
  In-map [] a i = i
  In-map (x ∷ t) a (inl e) = inl (ap (λ x. if p x then f x else x) e)
  In-map (x ∷ t) a (inr i) = inr (In-map t a i)

  pub map-In :
      (t : List A) (b : A)
      → In b (map_where p f t)
      → (a : A) × In a t × ((if p a then f a else a) ≡ b)
  map-In [] b i = absurd i
  map-In (x ∷ t) b (inl e) = (x, inl refl, e)
  map-In (x ∷ t) b (inr i) = let (a, j, q) = map-In t b i in (a, inr j, q)
