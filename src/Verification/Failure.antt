-- ===== src/Verification/Failure.antt =====
-- `buildFailedVerificationChecks` of src/verification/verification.service.ts: which checks a failed
-- verification reports as passed, as it reads them off the message of the failure.
use Prim.Native.String.{String}
use Prim.Native.Char.{code}
use ssi_academic_credential.Common.{
  Bool, true, false, ◌&&◌, ◌||◌, List, [], ◌∷◌, ◌==◌, if◌then◌else◌, Option, none, some, Error,
  bad_request, not_found, any,
}

pub record VerificationChecks : Type 0 where
  pub request_valid : Bool
  pub nonce_valid : Bool
  pub holder_proof_valid : Bool
  pub hash_valid : Bool
  pub issuer_signature_valid : Bool
  pub issuer_trusted : Bool
  pub credential_status_valid : Bool
  pub credential_not_expired : Bool
  pub schema_valid : Bool
  pub holder_matches : Bool
  pub claims_valid : Bool

-- `text.startsWith(part)` and `text.includes(part)`.
starts_with : String → String → Bool
starts_with text String.[] = true
starts_with String.[] (String.◌∷◌ p ps) = false
starts_with (String.◌∷◌ c cs) (String.◌∷◌ p ps) = code c == code p && starts_with cs ps

contains_part : String → String → Bool
contains_part String.[] part = starts_with String.[] part
contains_part (String.◌∷◌ c cs) part = starts_with (String.◌∷◌ c cs) part || contains_part cs part

unfoldable pub contains : String → String → Bool
unfolding contains_part starts_with
contains text part = contains_part text part

abbrev pub contains_one : List String → String → Bool
contains_one parts text = any (contains text) parts

-- `getVerificationFailureReason`, for the two kinds of exception that are caught; each has a text.
abbrev pub reason_of : Error → Option String
reason_of (bad_request reason) = some reason
reason_of (not_found reason) = some reason
reason_of _ = none

abbrev pub none_passed : VerificationChecks
none_passed = record {
  request_valid = true;
  nonce_valid = true;
  holder_proof_valid = false;
  hash_valid = false;
  issuer_signature_valid = false;
  issuer_trusted = false;
  credential_status_valid = false;
  credential_not_expired = false;
  schema_valid = false;
  holder_matches = true;
  claims_valid = false;
}

abbrev pub proof_passed : VerificationChecks
proof_passed = record none_passed { holder_proof_valid = true }

abbrev pub hash_passed : VerificationChecks
hash_passed = record proof_passed { hash_valid = true }

abbrev pub signature_passed : VerificationChecks
signature_passed = record hash_passed { issuer_signature_valid = true }

abbrev pub trust_passed : VerificationChecks
trust_passed = record signature_passed { issuer_trusted = true }

abbrev pub status_passed : VerificationChecks
status_passed = record trust_passed {
  credential_status_valid = true;
  credential_not_expired = true;
}

abbrev pub schema_passed : VerificationChecks
schema_passed = record status_passed { schema_valid = true }

unfoldable pub build_failed_verification_checks : String → VerificationChecks
build_failed_verification_checks reason =
    if contains_one ("Holder proof" ∷ "Holder verification method" ∷ "Presentation hash" ∷ [])
      reason
    then none_passed
    else if contains_one
        ("Credential hash" ∷ "Stored credential" ∷ "Credential not found in holder wallet" ∷ [])
        reason
    then proof_passed
    else if contains_one ("Issuer proof" ∷ "Issuer verification method" ∷ "Issuer signature" ∷ [])
        reason
    then hash_passed
    else if contains reason "issuer is not trusted"
    then signature_passed
    else if contains_one ("revoked" ∷ "suspended" ∷ "not active" ∷ []) reason
    then record trust_passed { credential_not_expired = true }
    else if contains reason "expired"
    then trust_passed
    else if contains_one
        ("schema" ∷ "Credential subject is invalid" ∷ "Credential issuer is invalid"
          ∷ "issuer DID does not match" ∷ "metadata" ∷ [])
        reason
    then status_passed
    else if contains reason "holder DID does not match"
    then record schema_passed { holder_matches = false }
    else schema_passed
