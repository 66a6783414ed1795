-- ===== src/Requests/Claims.antt =====
-- The claim checks of src/verification-requests/verification-requests.service.ts, and the selection
-- of the disclosed claims.
pub mod Laws
pub mod Statement
pub mod Disclosure
use Prim.Native.String
use ssi_academic_credential.Common.{
  ℕ, String, Bool, true, false, not, ◌&&◌, ◌||◌, List, [], ◌∷◌, ◌++◌, Option, none, some, Result,
  ok, err, bad_request, if◌then◌else◌, any, every, select, map, length, ◌==◌,
}
use ssi_academic_credential.Text.{◌===◌, trim, is_empty, includes, has_duplicates}
use ssi_academic_credential.Database.{
  Json, str, key_id, uuid, date, arr, obj, null, Items, nil, cons, Fields, end, field,
}

-- `typeof value === 'string'`.
abbrev pub is_string : Json → Bool
is_string (str s) = true
is_string (uuid n) = true
is_string (date n) = true
is_string (key_id did version) = true
is_string _ = false

abbrev pub all_strings : Items → Bool
all_strings nil = true
all_strings (cons v vs) = is_string v && all_strings vs

-- The texts of an array, as far as a claim name can equal them.
abbrev pub texts : Items → List String
texts nil = []
texts (cons (str s) vs) = s ∷ texts vs
texts (cons _ vs) = texts vs

-- `requiredClaims` as `validateRequestedClaims` reads it.
abbrev pub allowed_claims : Json → Option (List String)
allowed_claims (arr vs) = some (texts vs)
allowed_claims _ = none

-- `requestedClaims` as `validateApprovedClaims` reads it.
abbrev pub stored_claims : Json → Option (List String)
stored_claims (arr vs) = if all_strings vs then some (texts vs) else none
stored_claims _ = none

abbrev pub unauthorized : List String → List String → Bool
unauthorized allowed claims = any (λ claim. not (includes allowed claim)) claims

unfoldable pub validate_requested_claims : List String → Json → Result (Unit {0})
validate_requested_claims requested required =
    let normalized = map trim requested in
    if length requested == 0
    then err (bad_request "At least one claim must be requested")
    else if any is_empty normalized
    then err (bad_request "Requested claims cannot be empty")
    else if has_duplicates normalized
    then err (bad_request "Requested claims must be unique")
    else elim (allowed_claims required) [
      | none ↦ err (bad_request "Job required claims are invalid")
      | some allowed ↦
          if unauthorized allowed normalized
          then err (bad_request "Requested claims must be part of the job required claims")
          else ok tt
    ]

unfoldable pub validate_approved_claims : List String → Json → Result (List String)
validate_approved_claims approved requested =
    let normalized = map trim approved in
    if length normalized == 0 || any is_empty normalized
    then err (bad_request "Approved claims cannot be empty")
    else if has_duplicates normalized
    then err (bad_request "Approved claims must be unique")
    else elim (stored_claims requested) [
      | none ↦ err (bad_request "Stored requested claims are invalid")
      | some allowed ↦
          if unauthorized allowed normalized
          then err (bad_request "Approved claims must be a subset of requested claims")
          else ok normalized
    ]

-- `object[key]` for an own property; of two of one name the first counts.
unfoldable pub get : String → Fields → Option Json
get k end = none
get k (field j v fs) = if j === k then some v else get k fs

-- `isRecord`.
abbrev pub record_of : Option Json → Option Fields
record_of (some (obj fs)) = some fs
record_of _ = none

-- An object with `value` for the own property `key`.
unfoldable pub put : String → Json → Fields → Fields
put k v end = field k v end
put k v (field j w fs) = if j === k then field j v fs else field j w (put k v fs)

-- `object[key] = value`: to the key `__proto__` it sets the prototype, and makes no own property.
unfoldable pub assign : String → Json → Fields → Fields
assign k v fs = if k === "__proto__" then fs else put k v fs

-- `issuer.name`, if it is a text.
abbrev pub issuer_name : Option Fields → Option Json
issuer_name none = none
issuer_name (some issuer) = elim (get "name" issuer) [
  | none ↦ none
  | some v ↦ if is_string v then some v else none
]

-- The value that is disclosed for a claim.
abbrev pub claim_value : Fields → Option Json → String → Option Json
claim_value subject name claim =
    if claim === "university"
    then elim name [ some v ↦ some v | none ↦ get claim subject ]
    else get claim subject

-- The loop of `extractDisclosedClaims`.
unfoldable pub disclose : Fields → Option Json → List String → Fields → Result Fields
disclose subject name [] disclosed = ok disclosed
disclose subject name (claim ∷ claims) disclosed = elim (claim_value subject name claim) [
  | none ↦ err (bad_request (String.◌++◌ "Credential does not contain claim: " claim))
  | some v ↦ disclose subject name claims (assign claim v disclosed)
]

-- `parsed` is the result of `JSON.parse`, which fails on a text that is no JSON.
unfoldable pub extract_disclosed_claims : Option Json → List String → Result Fields
extract_disclosed_claims parsed approved = elim (record_of parsed) [
  | none ↦ err (bad_request "Stored credential is invalid")
  | some credential ↦ elim (record_of (get "credentialSubject" credential)) [
    | none ↦ err (bad_request "Credential subject is invalid")
    | some subject ↦
        disclose subject (issuer_name (record_of (get "issuer" credential))) approved end
  ]
]
