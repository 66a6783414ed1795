-- ===== src/Base58/Digits.antt =====
-- The two loops of the Base58 coding, for any base: reading digits into a number, and splitting a
-- number into digits.
use ssi_academic_credential.Common.{
  ℕ, zero, suc, ◌+◌, ◌*◌, ◌/◌, ◌%◌, ◌≤◌, ◌<◌, ◌^◌, List, [], ◌∷◌, ◌++◌, ◌≡◌, refl, sym, subst, ◌∙◌,
  ap, arith, ◌==◌, true, false, All, length, Bool-cases, inl, inr,
}

-- `for (const digit of digits) value = value * base + digit`.
abbrev pub from_digits : (base : ℕ) → ℕ → List ℕ → ℕ
from_digits base n [] = n
from_digits base n (d ∷ ds) = from_digits base (n * base + d) ds

-- `while (value > 0) { digits = [value % base, ...digits]; value /= base; }`, in `fuel` rounds at most.
unfoldable pub split : (base fuel : ℕ) → ℕ → List ℕ → List ℕ
split base zero n out = out
split base (suc fuel) n out = elim (n == 0) [
  | true ↦ out
  | false ↦ split base fuel (n / base) ((n % base) ∷ out)
]

-- A number has fewer digits than it counts.
abbrev pub to_digits : (base : ℕ) → ℕ → List ℕ → List ℕ
to_digits base n out = split base n n out

-- What is used of the base; the laws hold for every base from 2.
pub record Base (b : ℕ) : Type 0 where
  pub smaller : (n : ℕ) → 0 < n → n / b < n
  pub whole : (n : ℕ) → n / b * b + n % b ≡ n
  pub below : (n : ℕ) → n % b < b
  pub quotient : (n d : ℕ) → d < b → (n * b + d) / b ≡ n
  pub grows : (n d : ℕ) → 0 < n → 0 < n * b + d
  pub shrinks : (n k : ℕ) → n < b ^ suc k → n / b < b ^ k
  pub unit : b ^ 0 ≡ 1
  pub rest : (n d : ℕ) → d < b → (n * b + d) % b ≡ d

append_nil : (xs : List ℕ) → xs ++ [] ≡ xs
append_nil [] = refl
append_nil (x ∷ xs) = ap (λ ys. x ∷ ys) (append_nil xs)

split_done : (b f : ℕ) (out : List ℕ) → split b f 0 out ≡ out
unfolding split
split_done b zero out = refl
split_done b (suc f) out = refl

split_go :
    (b f n : ℕ) (out : List ℕ) → 0 < n → split b (suc f) n out ≡ split b f (n / b) ((n % b) ∷ out)
unfolding split
split_go b f n out h = ground arith

module _ (b : ℕ) (base : Base b) where
  -- Fuel beyond the number changes nothing: the loop has ended.
  split-enough : (f n : ℕ) (out : List ℕ) → n ≤ f → split b f n out ≡ to_digits b n out
  unfolding split
  split-enough f n out h = split-same f n n out h (omega arith)
    where
      split-same : (f g n : ℕ) (out : List ℕ) → n ≤ f → n ≤ g → split b f n out ≡ split b g n out
      split-same zero zero n out h k = refl
      split-same zero (suc g) n out h k = ground arith
      split-same (suc f) zero n out h k = ground arith
      split-same (suc f) (suc g) n out h k = elim (Bool-cases (n == 0)) [
        | inl e ↦ ground arith
        | inr e ↦
            let q = base.smaller n (ground arith) in
            let rec = split-same f g (n / b) ((n % b) ∷ out) (omega arith) (omega arith) in
            ground arith
      ]

  pub to_digits_zero : (out : List ℕ) → to_digits b 0 out ≡ out
  unfolding split
  to_digits_zero out = refl

  pub to_digits_step :
      (n : ℕ) (out : List ℕ) → 0 < n → to_digits b n out ≡ to_digits b (n / b) ((n % b) ∷ out)
  unfolding split
  to_digits_step zero out h = absurd (omega arith)
  to_digits_step (suc n) out h =
      let q = base.smaller (suc n) h in
      let rec = split-enough n (suc n / b) ((suc n % b) ∷ out) (omega arith) in ground arith

  -- One more digit below a positive number.
  push :
      (n d : ℕ) (out : List ℕ)
      → 0 < n
      → d < b
      → to_digits b (n * b + d) out ≡ to_digits b n (d ∷ out)
  push n d out p h =
      to_digits_step (n * b + d) out (base.grows n d p)
      ∙ rw (base.quotient n d h, base.rest n d h) refl

  -- Splitting undoes reading, from any positive number on.
  to_digits-from_digits_on :
      (ds : List ℕ) (n : ℕ) (out : List ℕ)
      → 0 < n
      → All (λ d. d < b) ds
      → to_digits b (from_digits b n ds) out ≡ to_digits b n (ds ++ out)
  to_digits-from_digits_on [] n out p h = refl
  to_digits-from_digits_on (d ∷ ds) n out p h =
      to_digits-from_digits_on ds (n * b + d) out (base.grows n d p) h.1
      ∙ push n d (ds ++ out) p h.0

  -- A number's digits, the first of them not zero.
  abbrev pub Canonical : List ℕ → Type 0
  Canonical [] = Unit
  Canonical (d ∷ ds) = (0 < d) × All (λ d. d < b) (d ∷ ds)

  pub to_digits-from_digits :
      (ds : List ℕ) → Canonical ds → to_digits b (from_digits b 0 ds) [] ≡ ds
  to_digits-from_digits [] h = to_digits_zero []
  to_digits-from_digits (d ∷ ds) (p, h) =
      let pos : 0 < 0 * b + d = omega arith in
      to_digits-from_digits_on ds (0 * b + d) [] pos h.1
      ∙ to_digits_step (0 * b + d) (ds ++ []) pos
      ∙ rw (base.quotient 0 d h.0, base.rest 0 d h.0, append_nil ds) (to_digits_zero (d ∷ ds))

  -- Reading undoes splitting.
  split-from_digits :
      (f n : ℕ) (out : List ℕ) → n ≤ f → from_digits b 0 (split b f n out) ≡ from_digits b n out
  split-from_digits f zero out h = ap (from_digits b 0) (split_done b f out)
  split-from_digits zero (suc n) out h = absurd (omega arith)
  split-from_digits (suc f) (suc n) out h =
      let q = base.smaller (suc n) (omega arith) in
      ap (from_digits b 0) (split_go b f (suc n) out (omega arith))
      ∙ split-from_digits f (suc n / b) ((suc n % b) ∷ out) (omega arith)
      ∙ ap (λ m. from_digits b m out) (base.whole (suc n))

  pub from_digits-to_digits :
      (n : ℕ) (out : List ℕ) → from_digits b 0 (to_digits b n out) ≡ from_digits b n out
  from_digits-to_digits n out = split-from_digits n n out (omega arith)

  -- The digits are below the base, and the first of a positive number's is not zero.
  split-Canonical :
      (f n : ℕ) (out : List ℕ) → n ≤ f → 0 < n → All (λ d. d < b) out → Canonical (split b f n out)
  split-Canonical f zero out h p a = absurd (omega arith)
  split-Canonical zero (suc n) out h p a = absurd (omega arith)
  split-Canonical (suc f) (suc n) out h p a =
      let q = base.smaller (suc n) p in
      let low = base.below (suc n) in
      let w = base.whole (suc n) in
      subst Canonical (sym (split_go b f (suc n) out p)) (elim (Bool-cases (suc n / b == 0)) [
        | inr z ↦
            split-Canonical f (suc n / b) ((suc n % b) ∷ out) (omega arith) (ground arith) (low, a)
        | inl z ↦
            let none_left : suc n / b ≡ 0 = ground arith in
            let all : 0 * b + suc n % b ≡ suc n =
              subst (λ m. m * b + suc n % b ≡ suc n) none_left w in
            subst (λ m. Canonical (split b f m ((suc n % b) ∷ out))) (sym none_left)
              (subst Canonical (sym (split_done b f ((suc n % b) ∷ out))) (omega arith, (low, a)))
      ])

  pub to_digits-Canonical : (n : ℕ) → Canonical (to_digits b n [])
  to_digits-Canonical zero = subst Canonical (sym (split_done b 0 [])) tt
  to_digits-Canonical (suc n) = split-Canonical (suc n) (suc n) [] (omega arith) (omega arith) tt

  -- A number below the power has at most so many digits.
  split-length :
      (k f n : ℕ) (out : List ℕ) → n ≤ f → n < b ^ k → length (split b f n out) ≤ k + length out
  split-length k f zero out h p = rw (split_done b f out) (omega arith)
  split-length k zero (suc n) out h p = absurd (omega arith)
  split-length zero (suc f) (suc n) out h p = let one = base.unit in absurd (omega arith)
  split-length (suc k) (suc f) (suc n) out h p =
      let q = base.smaller (suc n) (omega arith) in
      let rec =
        split-length k f (suc n / b) ((suc n % b) ∷ out) (omega arith) (base.shrinks (suc n) k p) in
      rw (split_go b f (suc n) out (omega arith)) (omega arith)

  pub length-to_digits : (k n : ℕ) → n < b ^ k → length (to_digits b n []) ≤ k
  length-to_digits k n h = let q = split-length k n n [] (omega arith) h in omega arith
