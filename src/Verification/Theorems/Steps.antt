-- ===== src/Verification/Theorems/Steps.antt =====
-- The guards of src/verification/verification.service.ts that a successful check has passed.
use ssi_academic_credential.Common.{
  ℕ, Bool, true, false, not, Option, none, some, ok, Error, Action, ◌≡◌, refl, arith, ◌==◌, ◌>>◌,
  raise_if, zero, suc, List, [], ◌∷◌, any, In, Bool-cases, inl, inr, ap, String,
}
use ssi_academic_credential.Text.{===_iff}
use ssi_academic_credential.Database.{
  Json, str, uuid, VerificationRequestStatus, verification_request_status_eq,
  EducationVerificationStatus, education_verification_status_eq, TrustedIssuerStatus,
  trusted_issuer_status_eq,
}
use ssi_academic_credential.Verification.{raise_some, text_is, id_is}

pub equal : (m n : ℕ) → (m == n) ≡ true → m ≡ n
equal m n h = ground arith

pub raise_some_then :
    {S B : Type 0} (o : Option Error) (m : Action S B) (s : S) (b : B) (t : S)
    → (raise_some o >> m) s ≡ (ok b, t)
    → (o ≡ none) × (m s ≡ (ok b, t))
raise_some_then none m s b t h = (refl, h)
raise_some_then (some e) m s b t h = absurd (cc)

-- A guard that requires a test.
pub require_then :
    {S B : Type 0} (c : Bool) (e : Error) (m : Action S B) (s : S) (b : B) (t : S)
    → (raise_if (not c) e >> m) s ≡ (ok b, t)
    → (c ≡ true) × (m s ≡ (ok b, t))
require_then true e m s b t h = (refl, h)
require_then false e m s b t h = absurd (cc)

pub require_ok :
    {S : Type 0} (c : Bool) (e : Error) (s : S) (u : Unit {0}) (t : S)
    → raise_if (not c) e s ≡ (ok u, t)
    → (c ≡ true) × (t ≡ s)
require_ok true e s u t h = (refl, cc)
require_ok false e s u t h = absurd (cc)

-- The store after so many turns of the other requests.
abbrev pub turns : {S : Type 0} → (S → S) → ℕ → S → S
turns others zero s = s
turns others (suc n) s = others (turns others n s)

pub any-In :
    {A : Type 0} (p : A → Bool) (t : List A) → any p t ≡ true → (a : A) × In a t × (p a ≡ true)
any-In p [] h = absurd (cc)
any-In p (x ∷ t) h = elim (Bool-cases (p x)) [
  | inl e ↦ (x, inl refl, e)
  | inr e ↦ let (a, i, q) = any-In p t (ground arith) in (a, inr i, q)
]

pub approved_lem :
    (a : VerificationRequestStatus)
    → verification_request_status_eq a VerificationRequestStatus.approved ≡ true
    → a ≡ VerificationRequestStatus.approved
approved_lem VerificationRequestStatus.approved h = refl
approved_lem VerificationRequestStatus.pending h = absurd (cc)
approved_lem VerificationRequestStatus.rejected h = absurd (cc)
approved_lem VerificationRequestStatus.expired h = absurd (cc)
approved_lem VerificationRequestStatus.verified h = absurd (cc)
approved_lem VerificationRequestStatus.failed h = absurd (cc)

pub awaiting_lem :
    (a : EducationVerificationStatus)
    → education_verification_status_eq a EducationVerificationStatus.pending ≡ true
    → a ≡ EducationVerificationStatus.pending
awaiting_lem EducationVerificationStatus.pending h = refl
awaiting_lem EducationVerificationStatus.not_verified h = absurd (cc)
awaiting_lem EducationVerificationStatus.verified h = absurd (cc)
awaiting_lem EducationVerificationStatus.failed h = absurd (cc)

pub trusted_lem :
    (a : TrustedIssuerStatus)
    → trusted_issuer_status_eq a TrustedIssuerStatus.trusted ≡ true
    → a ≡ TrustedIssuerStatus.trusted
trusted_lem TrustedIssuerStatus.trusted h = refl
trusted_lem TrustedIssuerStatus.suspended h = absurd (cc)
trusted_lem TrustedIssuerStatus.revoked h = absurd (cc)

-- A property that is compared with a text, or with an identifier, has it.
pub text_lem : (t : String) (o : Option Json) → text_is t o ≡ true → o ≡ some (str t)
text_lem t none h = absurd (cc)
text_lem t (some (str s)) h = ap (λ x. some (str x)) ((===_iff s t).0 h)
text_lem t (some _) h = absurd (cc)

pub id_lem : (n : ℕ) (o : Option Json) → id_is n o ≡ true → o ≡ some (uuid n)
id_lem n none h = absurd (cc)
id_lem n (some (uuid m)) h = ap (λ x. some (uuid x)) (equal m n h)
id_lem n (some _) h = absurd (cc)
