-- ===== src/Base58/RoundTrip.antt =====
-- Decoding a Base58 text gives back the bytes that it was made from, for every list of bytes and so
-- for every signature.
use ssi_academic_credential.Common.{
  ℕ, zero, suc, ◌+◌, ◌*◌, ◌/◌, ◌≤◌, ◌<◌, ◌^◌, Bool, true, false, ◌&&◌, List, [], ◌∷◌, ◌++◌, Option,
  none, some, ok, Error, ◌≡◌, refl, sym, ◌∙◌, ap, subst, arith, ◌==◌, leb, All, length, map,
  Bool-cases, inl, inr,
}
use native.Mathlib.Nat.{mul-le-mul_right}
use ssi_academic_credential.Base58.{
  alphabet, get_elem, index_of, leading, repeat, encode_base58, read_digits, decode_base58,
  signature_to_multibase, decode_proof_value, decode_client_proof_value,
}
use ssi_academic_credential.Base58.Digits.{
  from_digits, to_digits, split, Base, Canonical, to_digits-from_digits, from_digits-to_digits,
  to_digits-Canonical, length-to_digits,
}

base_58 : Base 58
base_58 = record {
  smaller = λ n h. omega arith;
  whole = λ n. omega arith;
  below = λ n. omega arith;
  quotient = λ n d h. omega arith;
  grows = λ n d h. omega arith;
  shrinks = λ n k h. omega arith;
  unit = omega arith;
  rest = λ n d h. omega arith;
}

base_256 : Base 256
base_256 = record {
  smaller = λ n h. omega arith;
  whole = λ n. omega arith;
  below = λ n. omega arith;
  quotient = λ n d h. omega arith;
  grows = λ n d h. omega arith;
  shrinks = λ n k h. omega arith;
  unit = omega arith;
  rest = λ n d h. omega arith;
}

-- A test of every number below a bound.
every_below : (ℕ → Bool) → ℕ → Bool
every_below p zero = true
every_below p (suc n) = p n && every_below p n

every_below-elim : (p : ℕ → Bool) (n i : ℕ) → every_below p n ≡ true → i < n → p i ≡ true
unfolding every_below
every_below-elim p zero i h lt = absurd (omega arith)
every_below-elim p (suc n) i h lt = elim (Bool-cases (i == n)) [
  | inl e ↦ let same : n ≡ i = ground arith in subst (λ m. p m ≡ true) same (ground arith)
  | inr e ↦ every_below-elim p n i (ground arith) (ground arith)
]

finds : Option ℕ → ℕ → Bool
finds none d = false
finds (some i) d = i == d

symbol_found : every_below (λ d. finds (index_of alphabet (get_elem alphabet d)) d) 58 ≡ true
unfolding every_below alphabet finds index_of
symbol_found = refl

-- The characters of the alphabet are told apart, and `1` is the digit 0 only.
index_of-get_elem : (d : ℕ) → d < 58 → index_of alphabet (get_elem alphabet d) ≡ some d
unfolding finds
index_of-get_elem d h = ground (
  arith,
  every_below-elim (λ d. finds (index_of alphabet (get_elem alphabet d)) d) 58 d symbol_found h,
)

one_first : get_elem alphabet 0 ≡ b'1'
unfolding alphabet
one_first = refl

-- A list of digits without the zeros that it starts with.
strip : List ℕ → List ℕ
strip [] = []
strip (d ∷ ds) = elim d [ zero ↦ strip ds | suc n ↦ suc n ∷ ds ]

strip-leading : (ds : List ℕ) → repeat 0 (leading 0 ds) ++ strip ds ≡ ds
unfolding strip
strip-leading [] = refl
strip-leading (zero ∷ ds) = ap (λ xs. 0 ∷ xs) (strip-leading ds)
strip-leading (suc n ∷ ds) = ground arith

strip-Canonical : (ds : List ℕ) → All (λ d. d < 256) ds → Canonical 256 base_256 (strip ds)
unfolding strip
strip-Canonical [] h = tt
strip-Canonical (zero ∷ ds) h = strip-Canonical ds h.1
strip-Canonical (suc n ∷ ds) h = (omega arith, h)

strip-All : (ds : List ℕ) → All (λ d. d < 256) ds → All (λ d. d < 256) (strip ds)
unfolding strip
strip-All [] h = tt
strip-All (zero ∷ ds) h = strip-All ds h.1
strip-All (suc n ∷ ds) h = h

from_digits-repeat :
    (b z : ℕ) (ds : List ℕ) → from_digits b 0 (repeat 0 z ++ ds) ≡ from_digits b 0 ds
from_digits-repeat b zero ds = refl
from_digits-repeat b (suc z) ds =
    let e : 0 * b + 0 ≡ 0 = omega arith in
    subst (λ n. from_digits b n (repeat 0 z ++ ds) ≡ from_digits b 0 ds) (sym e)
      (from_digits-repeat b z ds)

read_digits-map :
    (ds : List ℕ) → All (λ d. d < 58) ds → read_digits (map (get_elem alphabet) ds) ≡ some ds
unfolding read_digits
read_digits-map [] h = refl
read_digits-map (d ∷ ds) h =
    let found = index_of-get_elem d h.0 in let rest = read_digits-map ds h.1 in ground arith

index_of_one : index_of alphabet b'1' ≡ some 0
unfolding index_of alphabet
index_of_one = refl

read_digits-repeat :
    (z : ℕ) (text ds : List ℕ)
    → read_digits text ≡ some ds
    → read_digits (repeat b'1' z ++ text) ≡ some (repeat 0 z ++ ds)
unfolding read_digits
read_digits-repeat zero text ds h = h
read_digits-repeat (suc z) text ds h =
    let rest = read_digits-repeat z text ds h in ground (arith, index_of_one)

leading-repeat : (c z : ℕ) (xs : List ℕ) → leading c (repeat c z ++ xs) ≡ z + leading c xs
leading-repeat c zero xs = omega arith
leading-repeat c (suc z) xs = ground (arith, leading-repeat c z xs)

leading-map :
    (ds : List ℕ) → Canonical 58 base_58 ds → leading b'1' (map (get_elem alphabet) ds) ≡ 0
leading-map [] h = refl
leading-map (d ∷ ds) (p, h) = elim (Bool-cases (get_elem alphabet d == b'1')) [
  | inr e ↦ rw e refl
  | inl e ↦
      let same : get_elem alphabet d ≡ get_elem alphabet 0 = rw one_first (ground arith) in
      let q : some d ≡ some 0 =
        sym (index_of-get_elem d h.0)
        ∙ ap (index_of alphabet) same
        ∙ index_of-get_elem 0 (omega arith) in
      absurd (ground arith)
]

Canonical-All : (ds : List ℕ) → Canonical 58 base_58 ds → All (λ d. d < 58) ds
Canonical-All [] h = tt
Canonical-All (d ∷ ds) h = h.1

decode_digits :
    (text ds : List ℕ)
    → read_digits text ≡ some ds
    → decode_base58 text
      ≡ some (repeat 0 (leading b'1' text) ++ to_digits 256 (from_digits 58 0 ds) [])
unfolding decode_base58
decode_digits text ds h = ground arith

-- Base58 decoding undoes encoding: for every list of bytes, with whatever zeros it starts with, the
-- text that is made of it is decoded to the same bytes.
pub decode_base58-encode_base58 :
    (bytes : List ℕ) → All (λ b. b < 256) bytes → decode_base58 (encode_base58 bytes) ≡ some bytes
unfolding encode_base58
decode_base58-encode_base58 bytes h =
    let v = from_digits 256 0 bytes in
    let z = leading 0 bytes in
    let ds = to_digits 58 v [] in
    let canonical = to_digits-Canonical 58 base_58 v in
    let read =
      read_digits-repeat z (map (get_elem alphabet) ds) ds
        (read_digits-map ds (Canonical-All ds canonical)) in
    let ones : leading b'1' (repeat b'1' z ++ map (get_elem alphabet) ds) ≡ z =
      leading-repeat b'1' z (map (get_elem alphabet) ds)
      ∙ (let q = leading-map ds canonical in omega arith) in
    let number : from_digits 58 0 (repeat 0 z ++ ds) ≡ v =
      from_digits-repeat 58 z ds ∙ from_digits-to_digits 58 base_58 v [] in
    let stripped : v ≡ from_digits 256 0 (strip bytes) =
      ap (from_digits 256 0) (sym (strip-leading bytes)) ∙ from_digits-repeat 256 z (strip bytes) in
    let back : to_digits 256 v [] ≡ strip bytes =
      ap (λ n. to_digits 256 n []) stripped
      ∙ to_digits-from_digits 256 base_256 (strip bytes) (strip-Canonical bytes h) in
    decode_digits (repeat b'1' z ++ map (get_elem alphabet) ds) (repeat 0 z ++ ds) read
    ∙ ap (λ n. some (repeat 0 n ++ to_digits 256 (from_digits 58 0 (repeat 0 z ++ ds)) [])) ones
    ∙ ap (λ n. some (repeat 0 z ++ to_digits 256 n [])) number
    ∙ ap (λ xs. some (repeat 0 z ++ xs)) back
    ∙ ap some (strip-leading bytes)

widen : (n d p x : ℕ) → d < 256 → x < suc (n * 256 + d) * p → x < suc n * (p * 256)
widen n d p x h lt =
    let fits : suc (n * 256 + d) ≤ suc n * 256 = omega arith in
    let wide : suc (n * 256 + d) * p ≤ suc n * 256 * p = mul-le-mul_right p fits in grind arith

from_digits-bound :
    (ds : List ℕ) (n : ℕ) → All (λ d. d < 256) ds → from_digits 256 n ds < suc n * 256 ^ length ds
from_digits-bound [] n h = omega arith
from_digits-bound (d ∷ ds) n h =
    let rec = from_digits-bound ds (n * 256 + d) h.1 in
    let power : 256 ^ suc (length ds) ≡ 256 ^ length ds * 256 = omega arith in
    rw power (widen n d (256 ^ length ds) (from_digits 256 (n * 256 + d) ds) h.0 rec)

length-map : (xs : List ℕ) → length (map (get_elem alphabet) xs) ≡ length xs
length-map [] = refl
length-map (x ∷ xs) = ap suc (length-map xs)

length-repeat : (c z : ℕ) (xs : List ℕ) → length (repeat c z ++ xs) ≡ z + length xs
length-repeat c zero xs = omega arith
length-repeat c (suc z) xs = let q = length-repeat c z xs in omega arith

powers : every_below (λ m. leb (256 ^ m) (58 ^ (m + (m + 1) / 2))) 65 ≡ true
unfolding every_below
powers = refl

-- A text has at most three characters for two bytes.
length-encode_base58 :
    (bytes : List ℕ)
    → All (λ b. b < 256) bytes
    → length bytes ≡ 64
    → length (encode_base58 bytes) ≤ 96
unfolding encode_base58
length-encode_base58 bytes h e =
    let z = leading 0 bytes in
    let m = length (strip bytes) in
    let total : z + m ≡ 64 =
      sym (length-repeat 0 z (strip bytes)) ∙ ap length (strip-leading bytes) ∙ e in
    let v = from_digits 256 0 bytes in
    let number : from_digits 256 0 (strip bytes) ≡ v =
      sym (from_digits-repeat 256 z (strip bytes)) ∙ ap (from_digits 256 0) (strip-leading bytes) in
    let bound = from_digits-bound (strip bytes) 0 (strip-All bytes h) in
    let power : 256 ^ m ≤ 58 ^ (m + (m + 1) / 2) = ground (
      arith,
      every_below-elim (λ m. leb (256 ^ m) (58 ^ (m + (m + 1) / 2))) 65 m powers (omega arith),
    ) in
    let few = length-to_digits 58 base_58 (m + (m + 1) / 2) v (omega arith) in
    let q = length-repeat b'1' z (map (get_elem alphabet) (to_digits 58 v [])) in
    let r = length-map (to_digits 58 v []) in omega arith

decode_empty : decode_base58 [] ≡ some []
unfolding decode_base58 read_digits split
decode_empty = refl

encoded_some :
    (bytes text : List ℕ)
    → decode_base58 text ≡ some bytes
    → length bytes ≡ 64
    → (c : ℕ) × (cs : List ℕ) × (text ≡ c ∷ cs)
encoded_some bytes [] h e = absurd (let q = decode_empty in ground arith)
encoded_some bytes (c ∷ cs) h e = (c, cs, refl)

-- Every signature of 64 bytes is written as a multibase text, and both decoders read the same bytes
-- back from it: the verifier's, and the one for a proof that the holder's client made, with its limit
-- on the length.
pub decode-signature_to_multibase :
    (signature : List ℕ) (e : Error)
    → All (λ b. b < 256) signature
    → length signature ≡ 64
    → (text : List ℕ) × (signature_to_multibase signature ≡ ok text)
      × (decode_proof_value e text ≡ ok signature)
      × (decode_client_proof_value text ≡ ok signature)
unfolding signature_to_multibase decode_proof_value decode_client_proof_value
decode-signature_to_multibase signature e h n =
    let decoded = decode_base58-encode_base58 signature h in
    let short = length-encode_base58 signature h n in
    let (c, cs, shape) = encoded_some signature (encode_base58 signature) decoded n in
    let both : decode_base58 (c ∷ cs) ≡ some signature =
      subst (λ t. decode_base58 t ≡ some signature) shape decoded in
    let few : length (c ∷ cs) ≤ 96 = subst (λ t. length t ≤ 96) shape short in
    (
      b'z' ∷ encode_base58 signature,
      ground arith,
      subst (λ t. decode_proof_value e (b'z' ∷ t) ≡ ok signature) (sym shape) (ground arith),
      subst (λ t. decode_client_proof_value (b'z' ∷ t) ≡ ok signature) (sym shape) (ground arith),
    )
