-- ===== src/Verification/Theorems/Signatures.antt =====
-- What the two proofs establish: `validateCryptographicChecks` of src/verification/verification.service.ts.
use ssi_academic_credential.Common.{
  ◌≢◌, modify, pure_ok, ℕ, Bool, true, false, not, ◌||◌, List, Option, none, some, Result, ok, err,
  Error, ◌≡◌, sym, subst, ap, ◌∙◌, arith, inl, inr, In, Bool-cases, Option-cases, Result-cases,
  ◌==◌, ◌>>=◌, ◌>>◌, raise_if, or_raise, of_result, pure, bind_inv, or_raise_then, of_result_then,
  bad_request,
}
use ssi_academic_credential.Prisma.{Prisma}
use ssi_academic_credential.Base58.{decode_proof_value}
use ssi_academic_credential.Database.{
  Db, Json, obj, Fields, Did, DidStatus, did_status_eq, DidKey, DidKeyStatus, did_key_status_eq,
  Presentation, WalletCredential,
}
use ssi_academic_credential.Dids.{find_key, supported_algorithm}
use ssi_academic_credential.Dids.Signing.{ResolvedKey, resolve_verification_method, did_active}
use ssi_academic_credential.Requests.Claims.{get, record_of}
use ssi_academic_credential.Requests.Proof.{VerificationMethod}
use ssi_academic_credential.Requests.State.{Redis, Store}
use ssi_academic_credential.Verification.{Verifier, Context, raise_some}
use ssi_academic_credential.Verification.Theorems.Form.{
  Formed, MadeFor, check_holder_proof-MadeFor, check_issuer_proof-Formed,
}
use ssi_academic_credential.Verification.Theorems.Steps.{
  equal, raise_some_then, require_then, require_ok,
}
use ssi_academic_credential.Verification.Proofs.{
  ProofOwner, without, relabel, method_of, is_method, unsecured, check_holder_proof,
  check_issuer_proof, proof_value_of, apply_proof_context, resolve_proof_verification_method,
  signature_valid, holder_signature, issuer_signature, unsigned_document, method_mismatch,
  validate_holder_proof, presented_in_wallet, stored_credential, validate_issuer_proof,
  invalid_holder_proof, invalid_issuer_proof,
}

-- A key of a DID that is stored and not revoked.
pub record Live (did : ℕ) (m : VerificationMethod) (public_key : ℕ) (s : Db) : Type 0 where
  pub owner : Did
  pub key : DidKey
  pub owner_stored : In owner s.dids
  pub same_did : owner.did ≡ did
  pub active : owner.status ≡ DidStatus.active
  pub method_did : m.did ≡ did
  pub key_stored : In key s.did_keys
  pub key_of_did : key.did_id ≡ owner.id
  pub version : key.version ≡ m.key_version
  pub not_revoked : key.status ≢ DidKeyStatus.revoked
  pub public : key.public_key ≡ public_key

unrevoked :
    (a : DidKeyStatus) → did_key_status_eq a DidKeyStatus.revoked ≡ false → a ≢ DidKeyStatus.revoked
unrevoked DidKeyStatus.active h = λ e. absurd (cc)
unrevoked DidKeyStatus.retired h = λ e. absurd (cc)
unrevoked DidKeyStatus.revoked h = absurd (cc)

module _ (prisma : Prisma) where
  resolved_Live :
      (did : ℕ) (m : VerificationMethod) (s : Db) (key : ResolvedKey)
      → (resolve_verification_method prisma did m s).0 ≡ ok key
      → Live did m key.public_key s
  unfolding resolve_verification_method
  resolved_Live did m s key h =
      elim (Option-cases (prisma.find_first (λ (d : Did). d.did == did) s.dids)) [
        | inl e ↦ absurd (ground arith)
        | inr (d, e) ↦ elim (Bool-cases (did_status_eq d.status DidStatus.active)) [
          | inr a ↦ absurd (ground arith)
          | inl a ↦ elim (Bool-cases (not (m.did == did) || m.key_version == 0)) [
            | inl z ↦ absurd (ground arith)
            | inr z ↦ elim (Option-cases (find_key prisma d.id m.key_version s)) [
              | inl f ↦ absurd (ground arith)
              | inr (k, f) ↦ elim (Bool-cases (did_key_status_eq k.status DidKeyStatus.revoked)) [
                | inl g ↦ absurd (ground arith)
                | inr g ↦ elim (Option-cases (supported_algorithm k.algorithm)) [
                  | inl u ↦ absurd (ground arith)
                  | inr (own, u) ↦
                      let (d_is, d_in) = prisma.find_first-some _ _ _ e in
                      let (k_is, k_in) = prisma.find_first-some _ _ _ f in
                      record {
                        owner = d;
                        key = k;
                        owner_stored = d_in;
                        same_did = ground arith;
                        active = did_active d.status a;
                        method_did = ground arith;
                        key_stored = k_in;
                        key_of_did = ground arith;
                        version = ground arith;
                        not_revoked = unrevoked k.status g;
                        public = ground arith;
                      }
                ]
              ]
            ]
          ]
        ]
      ]

relabel_ok :
    {A : Type 0} (owner : ProofOwner) (r : Result A) (a : A) → relabel owner r ≡ ok a → r ≡ ok a
relabel_ok owner (ok b) a h = h
relabel_ok owner (err (Error.bad_request m)) a h = absurd (cc)
relabel_ok owner (err (Error.unauthorized m)) a h = absurd (cc)
relabel_ok owner (err (Error.forbidden m)) a h = absurd (cc)
relabel_ok owner (err (Error.not_found m)) a h = absurd (cc)
relabel_ok owner (err (Error.conflict m)) a h = absurd (cc)
relabel_ok owner (err (Error.unprocessable m)) a h = absurd (cc)
relabel_ok owner (err (Error.server_error m)) a h = absurd (cc)
relabel_ok owner (err Error.unique_violation) a h = absurd (cc)

module _ (prisma : Prisma) (redis : Redis) (verifier : Verifier) where
  -- The proof's value is a signature of the document and of the proof's other properties.
  pub record SignedBy (document : ℕ) (proof : Fields) (invalid : Error) (public_key : ℕ)
      : Type 0 where
    pub bytes : List ℕ
    pub config : ℕ
    pub decoded : decode_proof_value invalid (verifier.characters (proof_value_of proof)) ≡ ok bytes
    pub configured : verifier.canonicalize (obj (without "proofValue" proof)) ≡ ok config
    pub verified :
        verifier.verify
          (verifier.concat (verifier.sha256 config) (verifier.sha256 document))
          bytes
          public_key
        ≡ ok true

  signature_valid_ok :
      (document : ℕ) (proof : Fields) (invalid : Error) (key : ResolvedKey) (s u : Store redis)
      → signature_valid prisma redis verifier document proof invalid key s ≡ (ok true, u)
      → SignedBy document proof invalid key.public_key × (u ≡ s)
  unfolding signature_valid
  signature_valid_ok document proof invalid key s u h =
      elim (Result-cases
        (decode_proof_value invalid (verifier.characters (proof_value_of proof)))) [
          | inr (n, e) ↦ absurd (ground arith)
          | inl (bytes, e) ↦
              elim (Result-cases (verifier.canonicalize (obj (without "proofValue" proof)))) [
                | inr (n, f) ↦ absurd (ground arith)
                | inl (config, f) ↦ (
                  record {
                    bytes = bytes;
                    config = config;
                    decoded = e;
                    configured = f;
                    verified = ground arith;
                  },
                  ground arith,
                )
              ]
        ]

  -- A signature with the key that the proof names, of the DID.
  pub record ProofBy (did document : ℕ) (proof : Fields) (invalid : Error) (s : Db) : Type 0 where
    pub method : VerificationMethod
    pub public_key : ℕ
    pub named : method_of (get "verificationMethod" proof) ≡ some method
    pub live : Live did method public_key s
    pub signed : SignedBy document proof invalid public_key

  resolve_proof_ok :
      (did : ℕ) (method : Option Json) (owner : ProofOwner) (s : Store redis) (key : ResolvedKey)
      (u : Store redis)
      → resolve_proof_verification_method prisma redis verifier did method owner s ≡ (ok key, u)
      → (m : VerificationMethod) × (method_of method ≡ some m)
        × Live did m key.public_key s.db
        × (u ≡ s)
  unfolding resolve_proof_verification_method
  resolve_proof_ok did method owner s key u h = elim (Option-cases (method_of method)) [
    | inl e ↦ absurd (ground arith)
    | inr (m, e) ↦ (
      m,
      e,
      resolved_Live prisma did m s.db key
          (relabel_ok owner (resolve_verification_method prisma did m s.db).0 key (ground arith)),
      ground arith,
    )
  ]

  -- What the holder's proof establishes.
  pub record HolderProved (c : Context) (s : Db) : Type 0 where
    pub proof : Fields
    pub document : ℕ
    pub stored : record_of (some c.presentation.holder_proof) ≡ some proof
    pub formed : MadeFor c.presentation c.session proof
    pub canonical : verifier.canonicalize (unsecured c.presentation c.request) ≡ ok document
    pub hashed : verifier.sha256 document ≡ c.presentation.presentation_hash
    pub by : ProofBy c.presentation.holder_did document proof invalid_holder_proof s

  -- What the issuer's proof establishes of the credential in the holder's wallet; `s` is the database
  -- when the wallet was read, and `t` when the key was.
  pub record IssuerProved (c : Context) (unsigned : Fields) (s t : Db) : Type 0 where
    pub held : WalletCredential
    pub text : ℕ
    pub signed : Fields
    pub proof : Fields
    pub document : ℕ
    pub stored : In held s.wallet_credentials
    pub credential_held : held.credential_id ≡ c.presentation.credential_id
    pub holder_held : held.holder_id ≡ c.presentation.holder_id
    pub opened : verifier.decrypt held ≡ ok text
    pub parsed : record_of (verifier.parse text) ≡ some signed
    pub proof_of : record_of (get "proof" signed) ≡ some proof
    pub formed : Formed "assertionMethod" proof
    pub context :
        apply_proof_context verifier.canonicalize
          (without "proof" signed)
          (without "proofValue" proof)
        ≡ ok unsigned
    pub canonical : verifier.canonicalize (obj unsigned) ≡ ok document
    pub hashed : verifier.sha256 document ≡ c.credential.credential_hash
    pub by : ProofBy c.credential.issuer_did document proof invalid_issuer_proof t

  holder_signature_ok :
      (c : Context) (proof : Fields) (key : ResolvedKey) (s : Store redis) (a : ResolvedKey)
      (u : Store redis)
      → holder_signature prisma redis verifier c proof key s ≡ (ok a, u)
      → (document : ℕ) × (verifier.canonicalize (unsecured c.presentation c.request) ≡ ok document)
        × (verifier.sha256 document ≡ c.presentation.presentation_hash)
        × SignedBy document proof invalid_holder_proof key.public_key
        × (u ≡ s)
  unfolding holder_signature
  holder_signature_ok c proof key s a u h =
      let check = λ (valid : Bool). raise_if (not valid) invalid_holder_proof >> pure key in
      let sign = λ (document : ℕ).
        signature_valid prisma redis verifier document proof invalid_holder_proof key >>= check in
      let hash = λ (document : ℕ).
        raise_if (not (verifier.sha256 document == c.presentation.presentation_hash))
          (bad_request "Presentation hash is invalid")
        >> sign document in
      let (_, h1) =
        require_then (is_method (get "verificationMethod" proof) key)
          (method_mismatch ProofOwner.holder)
          (of_result (verifier.canonicalize (unsecured c.presentation c.request)) >>= hash) s a u
          h in
      let (document, canonical, h2) =
        of_result_then (verifier.canonicalize (unsecured c.presentation c.request)) hash s a u h1 in
      let (hashed, h3) =
        require_then (verifier.sha256 document == c.presentation.presentation_hash)
          (bad_request "Presentation hash is invalid") (sign document) s a u h2 in
      let (valid, w, run, h4) =
        bind_inv (signature_valid prisma redis verifier document proof invalid_holder_proof key)
          check s a u h3 in
      let (is_valid, h5) = require_then valid invalid_holder_proof (pure key) w a u h4 in
      let (by, same) = signature_valid_ok document proof invalid_holder_proof key s w (
        subst
          (λ b.
            signature_valid prisma redis verifier document proof invalid_holder_proof key s
            ≡ (ok b, w))
          is_valid run) in
      (document, canonical, equal _ _ hashed, by, ap (λ x. x.1) (sym h5) ∙ same)

  pub validate_holder_proof_ok :
      (c : Context) (s : Store redis) (key : ResolvedKey) (u : Store redis)
      → validate_holder_proof prisma redis verifier c s ≡ (ok key, u)
      → HolderProved c s.db × (u ≡ s)
  unfolding validate_holder_proof
  validate_holder_proof_ok c s key u h =
      let resolve = λ (proof : Fields).
        resolve_proof_verification_method prisma redis verifier c.presentation.holder_did
          (get "verificationMethod" proof) ProofOwner.holder in
      let sign =
        λ (proof : Fields) (k : ResolvedKey). holder_signature prisma redis verifier c proof k in
      let form = λ (proof : Fields).
        raise_some (check_holder_proof verifier.is_date c.presentation c.session proof)
        >> (resolve proof >>= sign proof) in
      let (proof, stored, h1) =
        or_raise_then (record_of (some c.presentation.holder_proof)) invalid_holder_proof form s key
          u h in
      let (formed, h2) =
        raise_some_then (check_holder_proof verifier.is_date c.presentation c.session proof)
          (resolve proof >>= sign proof) s key u h1 in
      let (k, w, found, h3) = bind_inv (resolve proof) (sign proof) s key u h2 in
      let (m, named, live, same) =
        resolve_proof_ok c.presentation.holder_did (get "verificationMethod" proof)
          ProofOwner.holder s k w found in
      let (document, canonical, hashed, signed, end) = holder_signature_ok c proof k w key u h3 in
      (
        record {
          proof = proof;
          document = document;
          stored = stored;
          formed =
              check_holder_proof-MadeFor verifier.is_date c.presentation c.session proof formed;
          canonical = canonical;
          hashed = hashed;
          by = record {
            method = m;
            public_key = k.public_key;
            named = named;
            live = live;
            signed = signed;
          };
        },
        end ∙ same,
      )

  issuer_signature_ok :
      (proof : Fields) (document : ℕ) (key : ResolvedKey) (s : Store redis) (a : Unit {0})
      (u : Store redis)
      → issuer_signature prisma redis verifier proof document key s ≡ (ok a, u)
      → SignedBy document proof invalid_issuer_proof key.public_key × (u ≡ s)
  unfolding issuer_signature
  issuer_signature_ok proof document key s a u h =
      let run_it = signature_valid prisma redis verifier document proof invalid_issuer_proof key in
      let check = λ (valid : Bool).
        raise_if {S = Store redis} (not valid) (bad_request "Issuer signature is invalid") in
      let (_, h1) =
        require_then (is_method (get "verificationMethod" proof) key)
          (method_mismatch ProofOwner.issuer) (run_it >>= check) s a u h in
      let (valid, w, run, h2) = bind_inv run_it check s a u h1 in
      let (is_valid, same) =
        require_ok valid (bad_request "Issuer signature is invalid") w a u h2 in
      let (by, back) =
        signature_valid_ok document proof invalid_issuer_proof key s w
          (subst (λ b. run_it s ≡ (ok b, w)) is_valid run) in
      (by, same ∙ back)

  unsigned_document_ok :
      (c : Context) (signed proof : Fields) (s : Store redis) (x : Fields × ℕ) (u : Store redis)
      → unsigned_document prisma redis verifier c signed proof s ≡ (ok x, u)
      → (check_issuer_proof verifier.is_date proof ≡ none)
        × (apply_proof_context verifier.canonicalize
              (without "proof" signed)
              (without "proofValue" proof)
            ≡ ok x.0)
        × (verifier.canonicalize (obj x.0) ≡ ok x.1)
        × (verifier.sha256 x.1 ≡ c.credential.credential_hash)
        × (u ≡ s)
  unfolding unsigned_document
  unsigned_document_ok c signed proof s x u h =
      let applied =
        apply_proof_context verifier.canonicalize (without "proof" signed)
          (without "proofValue" proof) in
      let hash = λ (unsigned : Fields) (document : ℕ).
        raise_if {S = Store redis} (not (verifier.sha256 document == c.credential.credential_hash))
          (bad_request "Credential hash is invalid")
        >> pure (unsigned, document) in
      let canonical =
        λ (unsigned : Fields). of_result (verifier.canonicalize (obj unsigned)) >>= hash unsigned in
      let (formed, h1) =
        raise_some_then (check_issuer_proof verifier.is_date proof)
          (of_result applied >>= canonical) s x u h in
      let (unsigned, context, h2) = of_result_then applied canonical s x u h1 in
      let (document, form, h3) =
        of_result_then (verifier.canonicalize (obj unsigned)) (hash unsigned) s x u h2 in
      let (hashed, h4) =
        require_then (verifier.sha256 document == c.credential.credential_hash)
          (bad_request "Credential hash is invalid") (pure (unsigned, document)) s x u h3 in
      let (same, end) = pure_ok (unsigned, document) x s u h4 in
      subst
        (λ x.
          (check_issuer_proof verifier.is_date proof ≡ none)
          × (applied ≡ ok x.0)
          × (verifier.canonicalize (obj x.0) ≡ ok x.1)
          × (verifier.sha256 x.1 ≡ c.credential.credential_hash)
          × (u ≡ s))
        same (formed, context, form, equal _ _ hashed, end)

  stored_credential_ok :
      (p : Presentation) (s : Store redis) (signed : Fields) (u : Store redis)
      → stored_credential prisma redis verifier p s ≡ (ok signed, u)
      → (w : WalletCredential) × (text : ℕ) × In w s.db.wallet_credentials
        × (presented_in_wallet prisma redis verifier p w ≡ true)
        × (verifier.decrypt w ≡ ok text)
        × (record_of (verifier.parse text) ≡ some signed)
        × (u ≡ s)
  unfolding stored_credential
  stored_credential_ok p s signed u h =
      elim (Option-cases
        (prisma.find_first (presented_in_wallet prisma redis verifier p) s.db.wallet_credentials)) [
          | inl e ↦ absurd (ground arith)
          | inr (w, e) ↦ elim (Result-cases (verifier.decrypt w)) [
            | inr (n, f) ↦ absurd (ground arith)
            | inl (text, f) ↦ elim (Option-cases (record_of (verifier.parse text))) [
              | inl g ↦ absurd (ground arith)
              | inr (fs, g) ↦
                  let (own, stored) =
                    prisma.find_first-some (presented_in_wallet prisma redis verifier p)
                      s.db.wallet_credentials w e in
                  (w, text, stored, own, f, ground arith, ground arith)
            ]
          ]
        ]

  pub validate_issuer_proof_ok :
      (others : Store redis → Store redis) (c : Context) (s : Store redis) (unsigned : Fields)
      (u : Store redis)
      → validate_issuer_proof prisma redis verifier others c s ≡ (ok unsigned, u)
      → IssuerProved c unsigned s.db (others s).db × (u ≡ others s)
  unfolding validate_issuer_proof
  validate_issuer_proof_ok others c s unsigned u h =
      let resolve = λ (proof : Fields).
        resolve_proof_verification_method prisma redis verifier c.credential.issuer_did
          (get "verificationMethod" proof) ProofOwner.issuer in
      let finish = λ (proof : Fields) (x : Fields × ℕ) (k : ResolvedKey).
        issuer_signature prisma redis verifier proof x.1 k >> pure x.0 in
      let sign =
        λ (proof : Fields) (x : Fields × ℕ). modify others >> (resolve proof >>= finish proof x) in
      let document = λ (signed proof : Fields).
        unsigned_document prisma redis verifier c signed proof >>= sign proof in
      let split = λ (signed : Fields).
        or_raise (record_of (get "proof" signed)) invalid_issuer_proof >>= document signed in
      let (signed, v, opened, h1) =
        bind_inv (stored_credential prisma redis verifier c.presentation) split s unsigned u h in
      let (held, text, stored, own, decrypted, parsed, e1) =
        stored_credential_ok c.presentation s signed v opened in
      let (proof, proof_of, h2) =
        or_raise_then (record_of (get "proof" signed)) invalid_issuer_proof (document signed) v
          unsigned u h1 in
      let (x, w, made, h3) =
        bind_inv (unsigned_document prisma redis verifier c signed proof) (sign proof) v unsigned u
          h2 in
      let (formed, context, canonical, hashed, e2) =
        unsigned_document_ok c signed proof v x w made in
      let (k, y, found, h4) = bind_inv (resolve proof) (finish proof x) (others w) unsigned u h3 in
      let (m, named, live, e3) =
        resolve_proof_ok c.credential.issuer_did (get "verificationMethod" proof) ProofOwner.issuer
          (others w) k y found in
      let (_, z, verified, h5) =
        bind_inv (issuer_signature prisma redis verifier proof x.1 k) (λ _. pure x.0) y unsigned u
          h4 in
      let (signed_by, e4) = issuer_signature_ok proof x.1 k y tt z verified in
      let (same, e5) = pure_ok x.0 unsigned z u h5 in
      (
        record {
          held = held;
          text = text;
          signed = signed;
          proof = proof;
          document = x.1;
          stored = stored;
          credential_held = ground arith;
          holder_held = ground arith;
          opened = decrypted;
          parsed = parsed;
          proof_of = proof_of;
          formed = check_issuer_proof-Formed verifier.is_date proof formed;
          context = context ∙ ap ok same;
          canonical = subst (λ f. verifier.canonicalize (obj f) ≡ ok x.1) same canonical;
          hashed = hashed;
          by = record {
            method = m;
            public_key = k.public_key;
            named = named;
            live =
                subst (λ z. Live c.credential.issuer_did m k.public_key z.db) (ap others (e2 ∙ e1))
                  live;
            signed = signed_by;
          };
        },
        e5 ∙ e4 ∙ e3 ∙ ap others (e2 ∙ e1),
      )
