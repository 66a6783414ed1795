-- ===== src/Requests/Proof.antt =====
-- `createHolderDataIntegrityProof` of src/verification-requests/verification-requests.service.ts.
-- The text `<did>#key-<version>` is the record of its two parts, since a DID holds no `#`.
use ssi_academic_credential.Common.{
  ℕ, zero, suc, String, Bool, true, ◌&&◌, List, [], ◌∷◌, Option, some, ok, Action, Error, ◌++◌,
  not_found, conflict, bad_request, ◌>>=◌, ◌>>◌, pure, raise, or_raise, gets, modify, ◌==◌,
  if◌then◌else◌, ◌≡◌, refl, ap, subst, arith, Keeps, bind-Keeps, Bool-cases, Option-cases,
  Result-cases, inl, inr, ◌⊎◌, In,
}
use ssi_academic_credential.Prisma.{Prisma}
use ssi_academic_credential.Database.{
  Db, Did, DidOwnerType, did_owner_type_eq, Json, str, key_id, uuid, date, obj, object, Fields,
}

pub record VerificationMethod : Type 0 where
  pub did : ℕ
  pub key_version : ℕ

abbrev pub method_eq : VerificationMethod → VerificationMethod → Bool
method_eq a b = a.did == b.did && a.key_version == b.key_version

abbrev pub method_json : VerificationMethod → Json
method_json m = key_id m.did m.key_version

pub user_owned :
    (a : DidOwnerType) → did_owner_type_eq a DidOwnerType.user ≡ true → a ≡ DidOwnerType.user
user_owned DidOwnerType.user h = refl
user_owned DidOwnerType.organization h = cc

method_eq_iff : (a b : VerificationMethod) → method_eq a b ≡ true → a ≡ b
method_eq_iff a b h = ground arith

-- What `signForUser` returns.
pub record DidSigningResult : Type 0 where
  pub method : VerificationMethod
  pub signature : ℕ

-- What the method uses of node:crypto and of the package `canonicalize`: the hash of the canonical
-- form, the bytes to be signed from the hashes of the proof configuration and of the document, and the
-- multibase text of a signature; `none` is an exception.
pub record Crypto : Type 0 where
  pub canonical_hash : Json → Option ℕ
  pub hash_data : (proof_config document : ℕ) → ℕ
  pub multibase : ℕ → Option ℕ

pub record ProofInput : Type 0 where
  pub presentation_id : ℕ
  pub request_id : ℕ
  pub credential_id : ℕ
  pub holder_id : ℕ
  pub bank_id : ℕ
  pub challenge : ℕ
  pub disclosed_claims : Fields
  pub created_at : ℕ

pub record HolderProof : Type 0 where
  pub holder_did : ℕ
  pub presentation_hash : ℕ
  pub method : VerificationMethod
  pub proof_value : ℕ
  pub holder_proof : Json

abbrev pub unsecured_presentation : ProofInput → ℕ → Json
unsecured_presentation i holder_did = object (
    ("presentationId", uuid i.presentation_id)
    ∷ ("requestId", uuid i.request_id)
    ∷ ("credentialId", uuid i.credential_id)
    ∷ ("holderDid", uuid holder_did)
    ∷ ("disclosedClaims", obj i.disclosed_claims)
    ∷ [])

abbrev pub proof_options : ProofInput → VerificationMethod → List (String × Json)
proof_options i m =
    ("type", str "DataIntegrityProof")
    ∷ ("cryptosuite", str "eddsa-jcs-2022")
    ∷ ("created", date i.created_at)
    ∷ ("verificationMethod", method_json m)
    ∷ ("proofPurpose", str "authentication")
    ∷ ("challenge", uuid i.challenge)
    ∷ ("domain", uuid i.bank_id)
    ∷ []

abbrev pub did_of : DidOwnerType → ℕ → Did → Bool
did_of owner_type owner_id d = did_owner_type_eq d.owner_type owner_type && d.owner_id == owner_id

abbrev pub current_method : Did → VerificationMethod
current_method d = record { did = d.did; key_version = d.current_key_version }

abbrev pub made_proof : ProofInput → Did → (presentation_hash value : ℕ) → HolderProof
made_proof i r presentation_hash value = record {
  holder_did = r.did;
  presentation_hash = presentation_hash;
  method = current_method r;
  proof_value = value;
  holder_proof = object (proof_options i (current_method r) ++ (("proofValue", uuid value) ∷ []));
}

abbrev pub cannot_canonicalize : Error
cannot_canonicalize = bad_request "Unable to canonicalize presentation"

abbrev pub signature_length : Error
signature_length = conflict "Ed25519 signature must be exactly 64 bytes"

module _ (prisma : Prisma) (crypto : Crypto) (others : Db → Db)
    (sign_for_user : ℕ → ℕ → Action Db DidSigningResult) where
  -- What a round does with the signature.
  abbrev finish_attempt :
      ProofInput → Did → ℕ → Action Db HolderProof → DidSigningResult → Action Db HolderProof
  finish_attempt i r presentation_hash retry s =
      if method_eq s.method (current_method r)
      then (or_raise (crypto.multibase s.signature) signature_length >>= λ value.
          pure (made_proof i r presentation_hash value))
      else retry

  -- The body of the loop; other requests run before the signing, and `retry` is the next round.
  attempt_once : ProofInput → Action Db HolderProof → Action Db HolderProof
  attempt_once i retry = do
    d ← gets (λ d. d)
    r ←
        or_raise (prisma.find_first (did_of DidOwnerType.user i.holder_id) d.dids)
          (not_found "Holder DID not found")
    presentation_hash ←
        or_raise (crypto.canonical_hash (unsecured_presentation i r.did)) cannot_canonicalize
    config_hash ←
        or_raise (crypto.canonical_hash (object (proof_options i (current_method r))))
          cannot_canonicalize
    modify others
    s ← sign_for_user i.holder_id (crypto.hash_data config_hash presentation_hash)
    finish_attempt i r presentation_hash retry s

  -- The loop, with the rounds that are left after this one.
  attempt : (left : ℕ) → ProofInput → Action Db HolderProof
  attempt zero i =
      attempt_once i
        (raise (conflict "Holder DID key changed during presentation signing; retry approval"))
  attempt (suc left) i = attempt_once i (attempt left i)

  unfoldable pub create_holder_proof : ProofInput → Action Db HolderProof
  unfolding attempt attempt_once
  create_holder_proof i = attempt 2 i

  -- The states that the rounds of the loop may start from: each round runs the other requests and a
  -- signing.
  pub data Rounds (i : ProofInput) : Db → Db → Type 0 where
    here : (d : Db) → Rounds i d d
    again :
        (d e : Db) (hash : ℕ)
        → Rounds i (sign_for_user i.holder_id hash (others d)).1 e
        → Rounds i d e

  -- The signature in a proof was made, over the hashes of this presentation and of this configuration,
  -- by the key that the configuration names: the current key, in the state `seen`, of the holder's
  -- stored DID, which is the one in the presentation.
  pub record SignedBy (i : ProofInput) (seen : Db) (p : HolderProof) (t : Db) : Type 0 where
    pub holder : Did
    pub stored : In holder seen.dids
    pub owner_type : holder.owner_type ≡ DidOwnerType.user
    pub owner : holder.owner_id ≡ i.holder_id
    pub named : p.holder_did ≡ holder.did
    pub method : p.method ≡ record { did = holder.did; key_version = holder.current_key_version }
    pub config_hash : ℕ
    pub signing : DidSigningResult
    pub configured : crypto.canonical_hash (object (proof_options i p.method)) ≡ some config_hash
    pub presented :
        crypto.canonical_hash (unsecured_presentation i p.holder_did) ≡ some p.presentation_hash
    pub signed :
        sign_for_user i.holder_id (crypto.hash_data config_hash p.presentation_hash) (others seen)
        ≡ (ok signing, t)
    pub key : signing.method ≡ p.method
    pub published :
        p.holder_proof
        ≡ object (proof_options i p.method ++ (("proofValue", uuid p.proof_value) ∷ []))
    pub value : crypto.multibase signing.signature ≡ some p.proof_value

  once_cases :
      (i : ProofInput) (retry : Action Db HolderProof) (d : Db) (p : HolderProof) (t : Db)
      → attempt_once i retry d ≡ (ok p, t)
      → SignedBy i d p t
        ⊎ ((hash : ℕ) × (retry (sign_for_user i.holder_id hash (others d)).1 ≡ (ok p, t)))
  unfolding attempt_once
  once_cases i retry d p t h =
      elim (Option-cases (prisma.find_first (did_of DidOwnerType.user i.holder_id) d.dids)) [
        | inl e ↦ absurd (ground arith)
        | inr (r, e) ↦
            elim (Option-cases (crypto.canonical_hash (unsecured_presentation i r.did))) [
              | inl q ↦ absurd (ground arith)
              | inr (ph, q) ↦
                  elim (Option-cases
                    (crypto.canonical_hash (object (proof_options i (current_method r))))) [
                      | inl u ↦ absurd (ground arith)
                      | inr (ch, u) ↦
                          let c = current_method r in
                          let run = sign_for_user i.holder_id (crypto.hash_data ch ph) (others d) in
                          elim (Result-cases run.0) [
                            | inr (x, w) ↦ absurd (ground arith)
                            | inl (x, w) ↦ elim (Bool-cases (method_eq x.method c)) [
                              | inr z ↦ inr (crypto.hash_data ch ph, ground arith)
                              | inl z ↦ elim (Option-cases (crypto.multibase x.signature)) [
                                | inl v ↦ absurd (ground arith)
                                | inr (y, v) ↦ inl (
                                    let made = made_proof i r ph y in
                                    let got : made ≡ p = ground arith in
                                    let left : run.1 ≡ t = ground arith in
                                    let (fits, stored) = prisma.find_first-some _ _ _ e in
                                    let found : SignedBy i d made run.1 = record {
                                      holder = r;
                                      stored = stored;
                                      owner_type = user_owned r.owner_type (ground arith);
                                      owner = ground arith;
                                      named = refl;
                                      method = refl;
                                      config_hash = ch;
                                      signing = x;
                                      configured = u;
                                      presented = q;
                                      signed = ap (λ r. (r, run.1)) w;
                                      key = method_eq_iff x.method c z;
                                      published = refl;
                                      value = v;
                                    } in
                                    subst (λ t. SignedBy i d p t) left
                                      (subst (λ p. SignedBy i d p run.1) got found))
                              ]
                            ]
                          ]
                    ]
            ]
      ]

  attempt-SignedBy :
      (left : ℕ) (i : ProofInput) (d : Db) (p : HolderProof) (t : Db)
      → attempt left i d ≡ (ok p, t)
      → (seen : Db) × Rounds i d seen × SignedBy i seen p t
  unfolding attempt
  attempt-SignedBy zero i d p t h = elim (once_cases i _ d p t h) [
    | inl s ↦ (d, here d, s)
    | inr (hash, q) ↦ absurd (ground arith)
  ]
  attempt-SignedBy (suc left) i d p t h = elim (once_cases i (attempt left i) d p t h) [
    | inl s ↦ (d, here d, s)
    | inr (hash, q) ↦
        let (seen, rounds, s) =
          attempt-SignedBy left i (sign_for_user i.holder_id hash (others d)).1 p t q in
        (seen, again d seen hash rounds, s)
  ]

  -- Every proof that the loop makes, in whichever round, is signed by the key it names: that key is the
  -- current one of the holder's stored DID, which is the holder in the presentation, and what was
  -- signed are the hashes of this presentation and of the proof's own configuration. The state is the
  -- one that this signing left.
  pub create_holder_proof-SignedBy :
      (i : ProofInput) (d : Db) (p : HolderProof) (t : Db)
      → create_holder_proof i d ≡ (ok p, t)
      → (seen : Db) × Rounds i d seen × SignedBy i seen p t
  unfolding create_holder_proof
  create_holder_proof-SignedBy i d p t h = attempt-SignedBy 2 i d p t h

  -- The loop keeps what the signing and the other requests keep.
  module _ (P : Db → Type 0) (others-keep : (d : Db) → P d → P (others d))
      (sign-keep : (holder_id hash : ℕ) → Keeps P (sign_for_user holder_id hash)) where
    attempt_once-Keeps :
        (i : ProofInput) (retry : Action Db HolderProof)
        → Keeps P retry
        → Keeps P (attempt_once i retry)
    unfolding attempt_once
    attempt_once-Keeps i retry keep d v =
        elim (Option-cases (prisma.find_first (did_of DidOwnerType.user i.holder_id) d.dids)) [
          | inl e ↦ rw e v
          | inr (r, e) ↦
              elim (Option-cases (crypto.canonical_hash (unsecured_presentation i r.did))) [
                | inl q ↦ rw (e, q) v
                | inr (ph, q) ↦
                    elim (Option-cases
                      (crypto.canonical_hash (object (proof_options i (current_method r))))) [
                        | inl u ↦ rw (e, q, u) v
                        | inr (ch, u) ↦
                            rw (e, q, u)
                              (bind-Keeps P (sign_for_user i.holder_id (crypto.hash_data ch ph))
                                (finish_attempt i r ph retry)
                                (sign-keep i.holder_id (crypto.hash_data ch ph))
                                (λ x t w.
                                  elim (Bool-cases (method_eq x.method (current_method r))) [
                                    | inl z ↦
                                        rw z (elim (Option-cases (crypto.multibase x.signature)) [
                                          | inl y ↦ rw y w
                                          | inr (y, z) ↦ rw z w
                                        ])
                                    | inr z ↦ rw z (keep t w)
                                  ])
                                (others d) (others-keep d v))
                      ]
              ]
        ]

    attempt-Keeps : (left : ℕ) (i : ProofInput) → Keeps P (attempt left i)
    unfolding attempt
    attempt-Keeps zero i d v = attempt_once-Keeps i _ (λ s w. w) d v
    attempt-Keeps (suc left) i d v =
        attempt_once-Keeps i (attempt left i) (attempt-Keeps left i) d v

    pub create_holder_proof-Keeps : (i : ProofInput) → Keeps P (create_holder_proof i)
    unfolding create_holder_proof
    create_holder_proof-Keeps i = attempt-Keeps 2 i
