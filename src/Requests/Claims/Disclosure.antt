-- ===== src/Requests/Claims/Disclosure.antt =====
-- Selective disclosure: what `extractDisclosedClaims` puts into a presentation.
use ssi_academic_credential.Common.{
  String, true, List, [], ◌∷◌, Option, none, some, ok, if◌then◌else◌, ◌≡◌, ◌≢◌, refl, arith,
  Bool-cases, Option-cases, inl, inr, subst, sym, ap, ◌∙◌, In, false,
}
use ssi_academic_credential.Text.{◌===◌, ===_iff, includes, includes-In, In-includes}
use ssi_academic_credential.Database.{Json, Fields, end, field}
use ssi_academic_credential.Requests.Claims.Statement.{ClaimOf, claim_value-ClaimOf}
use ssi_academic_credential.Requests.Claims.{
  get, put, assign, record_of, issuer_name, claim_value, disclose, extract_disclosed_claims,
}

pub get-put :
    (k j : String) (v : Json) (fs : Fields)
    → get k (put j v fs) ≡ (if j === k then some v else get k fs)
unfolding get put
get-put k j v end = refl
get-put k j v (field i w fs) =
    ground (arith, ===_iff j k, ===_iff i k, ===_iff i j, get-put k j v fs)

get-assign :
    (k j : String) (v : Json) (fs : Fields)
    → (k === "__proto__") ≡ false
    → get k (assign j v fs) ≡ (if j === k then some v else get k fs)
unfolding assign
get-assign k j v fs n = elim (Bool-cases (j === "__proto__")) [
  | inr e ↦ rw e (get-put k j v fs)
  | inl e ↦ elim (Bool-cases (j === k)) [
    | inr q ↦ rw (e, q) refl
    | inl q ↦
        let same : j ≡ k = (===_iff j k).0 q in
        let clash : (k === "__proto__") ≡ true = subst (λ c. (c === "__proto__") ≡ true) same e in
        absurd (cc)
  ]
]

-- The key `__proto__` is given no entry.
proto-assign :
    (j : String) (v : Json) (fs : Fields) → get "__proto__" (assign j v fs) ≡ get "__proto__" fs
unfolding assign
proto-assign j v fs = elim (Bool-cases (j === "__proto__")) [
  | inl e ↦ rw e refl
  | inr e ↦
      let found : get "__proto__" (put j v fs)
          ≡ (if j === "__proto__" then some v else get "__proto__" fs) =
        get-put "__proto__" j v fs in
      rw e (found ∙ ap (λ b. if b then some v else get "__proto__" fs) e)
]

module _ (subject : Fields) (name : Option Json) where
  disclose-get :
      (claims : List String) (disclosed out : Fields) (k : String)
      → (k === "__proto__") ≡ false
      → disclose subject name claims disclosed ≡ ok out
      → get k out ≡ (if includes claims k then claim_value subject name k else get k disclosed)
  unfolding disclose
  disclose-get [] disclosed out k n h = ground arith
  disclose-get (claim ∷ claims) disclosed out k n h =
      elim (Option-cases (claim_value subject name claim)) [
        | inl e ↦ absurd (ground arith)
        | inr (v, e) ↦
            let rest = disclose-get claims (assign claim v disclosed) out k n (ground arith) in
            elim (Bool-cases (claim === k)) [
              | inl q ↦
                  let same : claim ≡ k = (===_iff claim k).0 q in
                  let value : claim_value subject name k ≡ some v =
                    subst (λ c. claim_value subject name c ≡ some v) same e in
                  ground (arith, get-assign k claim v disclosed n)
              | inr q ↦ ground (arith, get-assign k claim v disclosed n)
            ]
      ]

  disclose-value :
      (claims : List String) (disclosed out : Fields) (k : String)
      → disclose subject name claims disclosed ≡ ok out
      → includes claims k ≡ true
      → claim_value subject name k ≢ none
  unfolding disclose
  disclose-value [] disclosed out k h i = ground arith
  disclose-value (claim ∷ claims) disclosed out k h i =
      elim (Option-cases (claim_value subject name claim)) [
        | inl e ↦ absurd (ground arith)
        | inr (v, e) ↦ elim (Bool-cases (claim === k)) [
          | inl q ↦ λ z.
              let same : claim ≡ k = (===_iff claim k).0 q in
              let value : claim_value subject name k ≡ some v =
                subst (λ c. claim_value subject name c ≡ some v) same e in
              ground arith
          | inr q ↦
              disclose-value claims (assign claim v disclosed) out k (ground arith) (ground arith)
        ]
      ]

  disclose-proto :
      (claims : List String) (disclosed out : Fields)
      → disclose subject name claims disclosed ≡ ok out
      → get "__proto__" out ≡ get "__proto__" disclosed
  unfolding disclose
  disclose-proto [] disclosed out h = ap (get "__proto__") (cc)
  disclose-proto (claim ∷ claims) disclosed out h =
      elim (Option-cases (claim_value subject name claim)) [
        | inl e ↦ absurd (ground arith)
        | inr (v, e) ↦
            disclose-proto claims (assign claim v disclosed) out (ground arith)
            ∙ proto-assign claim v disclosed
      ]

-- What a disclosed object may hold under a key.
pub data Entry (credential : Fields) (approved : List String) (k : String) (found : Option Json)
    : Type 0 where
  left_out : ¬ In k approved → found ≡ none → Entry credential approved k found
  prototype : k ≡ "__proto__" → found ≡ none → Entry credential approved k found
  shown :
      (v : Json)
      → In k approved
      → k ≢ "__proto__"
      → ClaimOf credential k v
      → found ≡ some v
      → Entry credential approved k found

-- Selective disclosure: after a successful selection the disclosed object has under a key that is not
-- approved no entry, and under an approved one the value that the stored credential gives: the
-- issuer's name for `university` if the issuer has one, and else the subject's own property. Under
-- `__proto__` it never has an entry.
pub disclosed_exactly :
    (credential : Fields) (approved : List String) (out : Fields) (k : String)
    → extract_disclosed_claims (some (Json.obj credential)) approved ≡ ok out
    → Entry credential approved k (get k out)
unfolding extract_disclosed_claims
disclosed_exactly credential approved out k h =
    elim (Option-cases (record_of (get "credentialSubject" credential))) [
      | inl e ↦ absurd (ground arith)
      | inr (subject, e) ↦
          let name = issuer_name (record_of (get "issuer" credential)) in
          let made : disclose subject name approved end ≡ ok out = ground arith in
          elim (Bool-cases (k === "__proto__")) [
            | inl p ↦
                let same : k ≡ "__proto__" = (===_iff k "__proto__").0 p in
                prototype same (
                  subst (λ k. get k out ≡ none) (sym same)
                    (disclose-proto subject name approved end out made ∙ unfold get in refl))
            | inr p ↦
                let value = disclose-get subject name approved end out k p made in
                elim (Bool-cases (includes approved k)) [
                  | inr i ↦
                      left_out (λ j. let q = In-includes approved k j in absurd (cc))
                        (value ∙ rw i (unfold get in refl))
                  | inl i ↦ elim (Option-cases (claim_value subject name k)) [
                    | inl z ↦ absurd (disclose-value subject name approved end out k made i z)
                    | inr (v, z) ↦
                        shown v (includes-In approved k i)
                          (λ q. let y = (===_iff k "__proto__").1 q in absurd (cc))
                          (claim_value-ClaimOf credential subject e k v z) (value ∙ rw i z)
                  ]
                ]
          ]
    ]
