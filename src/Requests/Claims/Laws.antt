-- ===== src/Requests/Claims/Laws.antt =====
-- What the claim checks let through, and what is disclosed.
use ssi_academic_credential.Common.{
  String, false, List, [], ◌∷◌, some, ok, any, map, length, ◌==◌, ◌≡◌, ◌≢◌, ◌↔◌, refl, arith,
  Bool-cases, Option-cases, inl, inr, All, In,
}
use ssi_academic_credential.Text.{
  trim, is_empty, includes, has_duplicates, includes-In, In-includes,
}
use ssi_academic_credential.Database.{Json}
use ssi_academic_credential.Requests.Claims.{
  allowed_claims, stored_claims, unauthorized, validate_requested_claims, validate_approved_claims,
}

-- No text stands twice.
abbrev pub Distinct : List String → Type 0
Distinct [] = Unit
Distinct (t ∷ ts) = (¬ In t ts) × Distinct ts

-- A list of claims that may be used: not empty, of distinct texts, none of them empty, each of them
-- among the allowed ones.
pub record Acceptable (allowed claims : List String) : Type 0 where
  pub some_claim : claims ≢ []
  pub no_blank : All (λ c. is_empty c ≡ false) claims
  pub distinct : Distinct claims
  pub within : All (λ c. In c allowed) claims

pub duplicates-Distinct : (ts : List String) → has_duplicates ts ≡ false → Distinct ts
duplicates-Distinct [] h = tt
duplicates-Distinct (t ∷ ts) h =
    ((λ i. let q = In-includes ts t i in ground arith), duplicates-Distinct ts (ground arith))

Distinct-duplicates : (ts : List String) → Distinct ts → has_duplicates ts ≡ false
Distinct-duplicates [] d = refl
Distinct-duplicates (t ∷ ts) d = elim (Bool-cases (includes ts t)) [
  | inl e ↦ absurd (d.0 (includes-In ts t e))
  | inr e ↦ let q = Distinct-duplicates ts d.1 in ground arith
]

pub blank-All : (ts : List String) → any is_empty ts ≡ false → All (λ c. is_empty c ≡ false) ts
blank-All [] h = tt
blank-All (t ∷ ts) h = (ground arith, blank-All ts (ground arith))

All-blank : (ts : List String) → All (λ c. is_empty c ≡ false) ts → any is_empty ts ≡ false
All-blank [] h = refl
All-blank (t ∷ ts) h = ground (arith, All-blank ts h.1)

within-All :
    (allowed ts : List String) → unauthorized allowed ts ≡ false → All (λ c. In c allowed) ts
within-All allowed [] h = tt
within-All allowed (t ∷ ts) h =
    (includes-In allowed t (ground arith), within-All allowed ts (ground arith))

All-within :
    (allowed ts : List String) → All (λ c. In c allowed) ts → unauthorized allowed ts ≡ false
All-within allowed [] h = refl
All-within allowed (t ∷ ts) h =
    let q = In-includes allowed t h.0 in ground (arith, All-within allowed ts h.1)

nonempty-length : (ts : List String) → ts ≢ [] → (length ts == 0) ≡ false
nonempty-length [] h = absurd (h refl)
nonempty-length (t ∷ ts) h = ground arith

nonempty-map : (ts : List String) → map trim ts ≡ [] → ts ≡ []
nonempty-map [] h = refl
nonempty-map (t ∷ ts) h = cc

length-map : (ts : List String) → (length (map trim ts) == 0) ≡ false → (length ts == 0) ≡ false
length-map [] h = h
length-map (t ∷ ts) h = ground arith

-- The holder's choice is accepted exactly if the stored request is a list of texts and the trimmed
-- choice is not empty, has no empty and no repeated claim, and stays within the request; the trimmed
-- choice is what is used from then on.
pub approved_iff :
    (approved : List String) (requested : Json) (claims : List String)
    → (validate_approved_claims approved requested ≡ ok claims) ↔ (
        (claims ≡ map trim approved)
        × ((allowed : List String) × (stored_claims requested ≡ some allowed)
            × Acceptable allowed claims))
unfolding validate_approved_claims
approved_iff approved requested claims = (to, from)
  where
    to :
        validate_approved_claims approved requested ≡ ok claims
        → (claims ≡ map trim approved)
          × ((allowed : List String) × (stored_claims requested ≡ some allowed)
              × Acceptable allowed claims)
    to h = elim (Option-cases (stored_claims requested)) [
      | inl e ↦ absurd (ground arith)
      | inr (allowed, e) ↦
          let same : claims ≡ map trim approved = ground arith in
          (
            same,
            (
              allowed,
              e,
              rw same (record {
                some_claim = λ q. ground arith;
                no_blank = blank-All (map trim approved) (ground arith);
                distinct = duplicates-Distinct (map trim approved) (ground arith);
                within = within-All allowed (map trim approved) (ground arith);
              }),
            ),
          )
    ]

    from :
        ((claims ≡ map trim approved)
          × ((allowed : List String) × (stored_claims requested ≡ some allowed)
              × Acceptable allowed claims))
        → validate_approved_claims approved requested ≡ ok claims
    from (same, (allowed, e, a)) =
        let full = nonempty-length claims a.some_claim in
        let blank = All-blank claims a.no_blank in
        let twice = Distinct-duplicates claims a.distinct in
        let beyond = All-within allowed claims a.within in ground arith

-- A bank's request is accepted exactly if it names a claim, the job's claims are an array, and the
-- trimmed request has no empty and no repeated claim and stays within the texts of that array.
pub requested_iff :
    (requested : List String) (required : Json)
    → (validate_requested_claims requested required ≡ ok tt) ↔ (
        (allowed : List String) × (allowed_claims required ≡ some allowed)
        × Acceptable allowed (map trim requested))
unfolding validate_requested_claims
requested_iff requested required = (to, from)
  where
    to :
        validate_requested_claims requested required ≡ ok tt
        → (allowed : List String) × (allowed_claims required ≡ some allowed)
          × Acceptable allowed (map trim requested)
    to h = elim (Option-cases (allowed_claims required)) [
      | inl e ↦ absurd (ground arith)
      | inr (allowed, e) ↦ (
        allowed,
        e,
        record {
          some_claim = λ q. let n = nonempty-map requested q in ground arith;
          no_blank = blank-All (map trim requested) (ground arith);
          distinct = duplicates-Distinct (map trim requested) (ground arith);
          within = within-All allowed (map trim requested) (ground arith);
        },
      )
    ]

    from :
        ((allowed : List String) × (allowed_claims required ≡ some allowed)
          × Acceptable allowed (map trim requested))
        → validate_requested_claims requested required ≡ ok tt
    from (allowed, e, a) =
        let full = length-map requested (nonempty-length (map trim requested) a.some_claim) in
        let blank = All-blank (map trim requested) a.no_blank in
        let twice = Distinct-duplicates (map trim requested) a.distinct in
        let beyond = All-within allowed (map trim requested) a.within in ground arith
