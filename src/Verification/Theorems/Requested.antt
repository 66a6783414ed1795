-- ===== src/Verification/Theorems/Requested.antt =====
-- The loop over the disclosed claims in `validateCredentialChecks` of
-- src/verification/verification.service.ts.
use ssi_academic_credential.Common.{
  String, List, some, Result, ok, ◌≡◌, sym, ap, ◌∙◌, arith, inl, inr, In, Bool-cases, Option-cases,
  Result-cases, ◌==◌, ℕ,
}
use ssi_academic_credential.Text.{includes, includes-In}
use ssi_academic_credential.Database.{Json, Fields, end, field}
use ssi_academic_credential.Requests.Claims.{get}
use ssi_academic_credential.Verification.Checks.{check_disclosed_claim, check_disclosed}
use ssi_academic_credential.Verification.Theorems.Steps.{equal}

-- Each disclosed claim was requested, and has the canonical text of a value that `Says` gives for it.
abbrev pub AsRequested :
    (canonicalize : Json → Result ℕ) (Says : String → Json → Type 0)
    (requested session_requested : List String)
    → Fields
    → Type 0
AsRequested canonicalize Says requested session_requested end = Unit
AsRequested canonicalize Says requested session_requested (field claim value fs) =
    (In claim requested
      × In claim session_requested
      × ((own : Json) × (x : ℕ) × Says claim own
          × (canonicalize value ≡ ok x)
          × (canonicalize own ≡ ok x)))
    × AsRequested canonicalize Says requested session_requested fs

module _ (canonicalize : Json → Result ℕ) (Says : String → Json → Type 0)
    (requested session_requested : List String) (claims : Fields)
    (says : (claim : String) (v : Json) → get claim claims ≡ some v → Says claim v) where
  check_claim_ok :
      (claim : String) (value : Json)
      → check_disclosed_claim canonicalize requested session_requested claims claim value ≡ ok tt
      → In claim requested
        × In claim session_requested
        × ((own : Json) × (x : ℕ) × Says claim own
            × (canonicalize value ≡ ok x)
            × (canonicalize own ≡ ok x))
  check_claim_ok claim value h = elim (Bool-cases (includes requested claim)) [
    | inr e ↦ absurd (ground arith)
    | inl e ↦ elim (Bool-cases (includes session_requested claim)) [
      | inr f ↦ absurd (ground arith)
      | inl f ↦ elim (Option-cases (get claim claims)) [
        | inl g ↦ absurd (ground arith)
        | inr (own, g) ↦ elim (Result-cases (canonicalize value)) [
          | inr (n, i) ↦ absurd (ground arith)
          | inl (x, i) ↦ elim (Result-cases (canonicalize own)) [
            | inr (n, j) ↦ absurd (ground arith)
            | inl (y, j) ↦ elim (Bool-cases (x == y)) [
              | inr k ↦ absurd (ground arith)
              | inl k ↦ (
                includes-In requested claim e,
                includes-In session_requested claim f,
                (own, x, says claim own g, i, j ∙ ap ok (sym (equal x y k))),
              )
            ]
          ]
        ]
      ]
    ]
  ]

  pub check_disclosed_ok :
      (disclosed : Fields)
      → check_disclosed canonicalize requested session_requested claims disclosed ≡ ok tt
      → AsRequested canonicalize Says requested session_requested disclosed
  unfolding check_disclosed
  check_disclosed_ok end h = tt
  check_disclosed_ok (field claim value fs) h =
      elim (Result-cases
        (check_disclosed_claim canonicalize requested session_requested claims claim value)) [
          | inr (n, e) ↦ absurd (ground arith)
          | inl (u, e) ↦ (check_claim_ok claim value e, check_disclosed_ok fs (ground arith))
        ]
