-- ===== src/Common/Keys.antt =====
-- Tables with a key: no two rows have the same one.
use Prim.Native.Nat.{ℕ}
use mathlib.Core.Path.{◌≡◌}
use mathlib.Core.Logic.{◌≢◌, inl, inr}
use mathlib.Core.Bool.{Bool, true, false}
use mathlib.Core.List.{List, [], ◌∷◌}
use native.Mathlib.Omega.{arith}
use ssi_academic_credential.Common.Tests.{Bool-cases, ◌==◌}
use ssi_academic_credential.Common.Lists.{All, In, any, count, map_where}

module _ {A : Type 0} (key : A → ℕ) where
  -- No row has the key `k`.
  abbrev pub Fresh : ℕ → List A → Type 0
  Fresh k = All (λ a. key a ≢ k)

  abbrev pub Distinct : List A → Type 0
  Distinct [] = Unit
  Distinct (x ∷ xs) = Fresh (key x) xs × Distinct xs

  pub any-Fresh : (k : ℕ) (t : List A) → any (λ a. key a == k) t ≡ false → Fresh k t
  any-Fresh k [] h = tt
  any-Fresh k (x ∷ xs) h = (ground arith, any-Fresh k xs (ground arith))

  pub Fresh-In : (k : ℕ) (t : List A) (a : A) → Fresh k t → In a t → key a ≢ k
  Fresh-In k [] a h i = absurd i
  Fresh-In k (x ∷ xs) a h (inl e) = ground arith
  Fresh-In k (x ∷ xs) a h (inr i) = Fresh-In k xs a h.1 i

  module _ (p : A → Bool) (f : A → A) (keeps : (a : A) → key (f a) ≡ key a) where
    pub Fresh-map_where : (k : ℕ) (t : List A) → Fresh k t → Fresh k (map_where p f t)
    Fresh-map_where k [] h = tt
    Fresh-map_where k (x ∷ xs) h = (ground (arith, keeps x), Fresh-map_where k xs h.1)

    pub Fresh-of_map_where : (k : ℕ) (t : List A) → Fresh k (map_where p f t) → Fresh k t
    Fresh-of_map_where k [] h = tt
    Fresh-of_map_where k (x ∷ xs) h = (ground (arith, keeps x), Fresh-of_map_where k xs h.1)

    pub Distinct-map_where : (t : List A) → Distinct t → Distinct (map_where p f t)
    Distinct-map_where [] h = tt
    Distinct-map_where (x ∷ xs) h = elim (Bool-cases (p x)) [
      | inl e ↦ rw (e, keeps x) (Fresh-map_where (key x) xs h.0, Distinct-map_where xs h.1)
      | inr e ↦ rw e (Fresh-map_where (key x) xs h.0, Distinct-map_where xs h.1)
    ]

module _ {A : Type 0} (p : A → Bool) where
  pub count-pos : (t : List A) → count p t ≢ 0 → (a : A) × In a t × (p a ≡ true)
  count-pos [] h = absurd (omega arith)
  count-pos (x ∷ xs) h = elim (Bool-cases (p x)) [
    | inl e ↦ (x, inl refl', e)
    | inr e ↦ let (a, i, q) = count-pos xs (ground arith) in (a, inr i, q)
  ]
    where
      refl' : x ≡ x
      refl' = cc
