-- ===== src/Tests/Signatures.antt =====
-- The Base58 coding at concrete inputs.
use ssi_academic_credential.Common.{
  ℕ, ◌<◌, List, [], ◌∷◌, some, ok, ◌≡◌, refl, arith, All, suc, zero,
}
use ssi_academic_credential.Base58.{
  codes, repeat, alphabet, encode_base58, decode_base58, index_of, read_digits,
  signature_to_multibase, decode_proof_value, decode_client_proof_value, invalid_proof_value,
}
use ssi_academic_credential.Base58.Digits.{split}
use ssi_academic_credential.Base58.RoundTrip.{
  decode_base58-encode_base58, decode-signature_to_multibase,
}

hello : encode_base58 (codes "Hello World!") ≡ codes "2NEpo7TZRRrLZSi2U"
unfolding encode_base58 alphabet split
hello = refl

zeros_kept : decode_base58 (codes "112") ≡ some (0 ∷ 0 ∷ 1 ∷ [])
unfolding decode_base58 read_digits index_of alphabet split
zeros_kept = refl

decode_base58-encode_base58_example :
    decode_base58 (encode_base58 (0 ∷ 255 ∷ 7 ∷ [])) ≡ some (0 ∷ 255 ∷ 7 ∷ [])
decode_base58-encode_base58_example =
    decode_base58-encode_base58 (0 ∷ 255 ∷ 7 ∷ []) (omega arith, (omega arith, (omega arith, tt)))

sevens_small : (n : ℕ) → All (λ b. b < 256) (repeat 7 n)
sevens_small zero = tt
sevens_small (suc n) = (omega arith, sevens_small n)

decode-signature_to_multibase_example :
    (text : List ℕ) × (signature_to_multibase (repeat 7 64) ≡ ok text)
    × (decode_proof_value invalid_proof_value text ≡ ok (repeat 7 64))
    × (decode_client_proof_value text ≡ ok (repeat 7 64))
decode-signature_to_multibase_example =
    decode-signature_to_multibase (repeat 7 64) invalid_proof_value (sevens_small 64) refl
