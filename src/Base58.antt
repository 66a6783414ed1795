-- ===== src/Base58.antt =====
-- The Base58 coding of signatures: `encodeBase58` and `signatureToMultibase` of
-- src/credentials/credentials.service.ts and src/verification-requests/verification-requests.service.ts,
-- `decodeBase58` and `decodeEddsaJcs2022ProofValue` of src/verification/verification.service.ts, and
-- `decodeClientProofValue` of src/verification-requests/verification-requests.service.ts. Bytes are
-- numbers below 256, and a text is the list of its characters' codes.
pub mod Digits
pub mod RoundTrip
use Prim.Native.Char.{code}
use Prim.Native.String.{String}
use ssi_academic_credential.Common.{
  ℕ, zero, suc, ◌+◌, ◌<◌, Bool, true, false, not, ◌||◌, List, [], ◌∷◌, ◌++◌, Option, none, some,
  Result, ok, err, Error, bad_request, conflict, ◌==◌, ltb, if◌then◌else◌, length, map,
}
use ssi_academic_credential.Base58.Digits.{from_digits, to_digits}

abbrev pub codes : String → List ℕ
codes String.[] = []
codes (String.◌∷◌ c s) = code c ∷ codes s

unfoldable pub alphabet : List ℕ
alphabet = codes "123456789ABCDEFGHJKLMNPQRSTUVWXYZabcdefghijkmnopqrstuvwxyz"

-- `text[i]`; the code never asks beyond the end.
abbrev pub get_elem : List ℕ → ℕ → ℕ
get_elem [] i = 0
get_elem (c ∷ cs) zero = c
get_elem (c ∷ cs) (suc i) = get_elem cs i

-- `text.indexOf(character)`, with `none` for -1.
unfoldable pub index_of : List ℕ → ℕ → Option ℕ
index_of [] c = none
index_of (d ∷ ds) c =
    if d == c then some 0 else elim (index_of ds c) [ none ↦ none | some i ↦ some (suc i) ]

-- How many of the first elements are `c`.
abbrev pub leading : ℕ → List ℕ → ℕ
leading c [] = 0
leading c (x ∷ xs) = if x == c then suc (leading c xs) else 0

abbrev pub repeat : ℕ → ℕ → List ℕ
repeat c zero = []
repeat c (suc n) = c ∷ repeat c n

unfoldable pub encode_base58 : List ℕ → List ℕ
encode_base58 bytes =
    repeat b'1' (leading 0 bytes)
    ++ map (get_elem alphabet) (to_digits 58 (from_digits 256 0 bytes) [])

-- The loop over the characters; a character that is none of the alphabet's is an error.
unfoldable pub read_digits : List ℕ → Option (List ℕ)
read_digits [] = some []
read_digits (c ∷ cs) = elim (index_of alphabet c) [
  | none ↦ none
  | some d ↦ elim (read_digits cs) [ none ↦ none | some ds ↦ some (d ∷ ds) ]
]

unfoldable pub decode_base58 : List ℕ → Option (List ℕ)
decode_base58 text = elim (read_digits text) [
  | none ↦ none
  | some ds ↦ some (repeat 0 (leading b'1' text) ++ to_digits 256 (from_digits 58 0 ds) [])
]

unfoldable pub signature_to_multibase : List ℕ → Result (List ℕ)
signature_to_multibase signature =
    if not (length signature == 64)
    then err (conflict "Ed25519 signature must be exactly 64 bytes")
    else ok (b'z' ∷ encode_base58 signature)

-- What follows a `z`, if it is not empty.
abbrev pub after_z : List ℕ → Option (List ℕ)
after_z (z ∷ c ∷ cs) = if z == b'z' then some (c ∷ cs) else none
after_z _ = none

abbrev pub of_64_bytes : Error → Option (List ℕ) → Result (List ℕ)
of_64_bytes e none = err e
of_64_bytes e (some bytes) = if length bytes == 64 then ok bytes else err e

unfoldable pub decode_proof_value : Error → List ℕ → Result (List ℕ)
decode_proof_value e text = elim (after_z text) [
  | none ↦ err e
  | some encoded ↦ of_64_bytes e (decode_base58 encoded)
]

abbrev pub invalid_proof_value : Error
invalid_proof_value = bad_request "Holder presentation proof value is invalid"

unfoldable pub decode_client_proof_value : List ℕ → Result (List ℕ)
decode_client_proof_value text =
    if ltb 128 (length text) then err invalid_proof_value else elim (after_z text) [
      | none ↦ err invalid_proof_value
      | some encoded ↦ of_64_bytes invalid_proof_value (decode_base58 encoded)
    ]
