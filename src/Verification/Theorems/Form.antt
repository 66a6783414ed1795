-- ===== src/Verification/Theorems/Form.antt =====
-- The form of the two proofs, as `validateCryptographicChecks` of
-- src/verification/verification.service.ts checks it before it looks at keys.
use ssi_academic_credential.Common.{
  Bool, true, false, not, ◌&&◌, ◌||◌, String, if◌then◌else◌, Option, none, some, Error, bad_request,
  ◌≡◌, refl, subst,
}
use ssi_academic_credential.Database.{Json, str, uuid, Fields, Presentation}
use ssi_academic_credential.Requests.Claims.{get}
use ssi_academic_credential.Requests.State.{VerificationSession}
use ssi_academic_credential.Verification.{id_is}
use ssi_academic_credential.Verification.Theorems.Steps.{text_lem, id_lem}
use ssi_academic_credential.Verification.Proofs.{is_proof, check_holder_proof, check_issuer_proof}

-- The form of a proof with a purpose.
pub record Formed (purpose : String) (proof : Fields) : Type 0 where
  pub type : get "type" proof ≡ some (str "DataIntegrityProof")
  pub cryptosuite : get "cryptosuite" proof ≡ some (str "eddsa-jcs-2022")
  pub purpose_of : get "proofPurpose" proof ≡ some (str purpose)

-- The holder's proof is made for this presentation's nonce, the session's, and for the session's bank.
pub record MadeFor (p : Presentation) (session : VerificationSession) (proof : Fields)
    : Type 0 where
  pub form : Formed "authentication" proof
  pub challenge : get "challenge" proof ≡ some (uuid p.nonce)
  pub session_challenge : get "challenge" proof ≡ some (uuid session.nonce)
  pub domain : get "domain" proof ≡ some (uuid session.bank_id)

pub and_both : (a b : Bool) → (a && b) ≡ true → (a ≡ true) × (b ≡ true)
and_both true b h = (refl, h)
and_both false b h = absurd (cc)

is_proof-Formed :
    (purpose : String) (proof : Fields) → is_proof purpose proof ≡ true → Formed purpose proof
is_proof-Formed purpose proof h =
    let (h1, _) = and_both _ _ h in
    let (h2, _) = and_both _ _ h1 in
    let (h3, c) = and_both _ _ h2 in
    let (a, b) = and_both _ _ h3 in
    record {
      type = text_lem "DataIntegrityProof" (get "type" proof) a;
      cryptosuite = text_lem "eddsa-jcs-2022" (get "cryptosuite" proof) b;
      purpose_of = text_lem purpose (get "proofPurpose" proof) c;
    }

-- A guard that must not report an error.
passes :
    (c : Bool) (e : Error) (rest : Option Error)
    → (if not c then some e else rest) ≡ none
    → (c ≡ true) × (rest ≡ none)
passes true e rest h = (refl, h)
passes false e rest h = absurd (cc)

neither : (a b : Bool) → (not a || not b) ≡ not (a && b)
neither true b = refl
neither false b = refl

pub check_holder_proof-MadeFor :
    (is_date : Json → Bool) (p : Presentation) (session : VerificationSession) (proof : Fields)
    → check_holder_proof is_date p session proof ≡ none
    → MadeFor p session proof
check_holder_proof-MadeFor is_date p session proof h =
    let (a, h1) = passes _ _ _ h in
    let (_, h2) = passes _ _ _ h1 in
    let own = id_is p.nonce (get "challenge" proof) in
    let kept = id_is session.nonce (get "challenge" proof) in
    let rest : Option Error =
      if not (id_is session.bank_id (get "domain" proof))
      then some (bad_request "Holder proof domain is invalid")
      else none in
    let clash = bad_request "Holder proof challenge is invalid" in
    let (b, h3) =
      passes (own && kept) clash rest
        (subst (λ (x : Bool). (if x then some clash else rest) ≡ none) (neither own kept) h2) in
    let (d, _) = passes _ _ _ h3 in
    let (b1, b2) = and_both own kept b in
    let (a1, _) = and_both _ _ a in
    let (a2, _) = and_both _ _ a1 in
    record {
      form = is_proof-Formed "authentication" proof a2;
      challenge = id_lem p.nonce (get "challenge" proof) b1;
      session_challenge = id_lem session.nonce (get "challenge" proof) b2;
      domain = id_lem session.bank_id (get "domain" proof) d;
    }

pub check_issuer_proof-Formed :
    (is_date : Json → Bool) (proof : Fields)
    → check_issuer_proof is_date proof ≡ none
    → Formed "assertionMethod" proof
check_issuer_proof-Formed is_date proof h =
    is_proof-Formed "assertionMethod" proof (passes _ _ _ h).0
