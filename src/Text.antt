-- ===== src/Text.antt =====
-- What the services use of JavaScript's strings: `===`, `trim`, `includes` on an array, and the size
-- of a `Set`.
use Prim.Native.Char.{Char, code}
use text.Mathlib.Text.{◌==◌ as eq_text}
use text.Mathlib.TextEquality.{eq_iff}
use ssi_academic_credential.Common.{
  String, Bool, true, false, ◌&&◌, ◌||◌, List, [], ◌∷◌, ◌==◌, leb, if◌then◌else◌, ◌≡◌, ◌↔◌, refl,
  arith, Bool-cases, inl, inr, In,
}

infix 50 ◌===◌
abbrev pub ◌===◌ : String → String → Bool
s === t = eq_text s t

pub ===_iff : (s t : String) → ((s === t) ≡ true) ↔ (s ≡ t)
===_iff s t = eq_iff s t

-- The white space and line terminators that `trim` removes.
is_space : Char → Bool
is_space c =
    let n = code c in
    (leb 9 n && leb n 13)
    || n == 32
    || n == 160
    || n == 0x1680
    || (leb 0x2000 n && leb n 0x200a)
    || n == 0x2028
    || n == 0x2029
    || n == 0x202f
    || n == 0x205f
    || n == 0x3000
    || n == 0xfeff

abbrev pub is_empty : String → Bool
is_empty String.[] = true
is_empty (String.◌∷◌ c s) = false

trim_start : String → String
trim_start String.[] = String.[]
trim_start (String.◌∷◌ c s) = if is_space c then trim_start s else String.◌∷◌ c s

trim_end : String → String
trim_end String.[] = String.[]
trim_end (String.◌∷◌ c s) =
    let rest = trim_end s in if is_space c && is_empty rest then String.[] else String.◌∷◌ c rest

unfoldable pub trim : String → String
unfolding trim_start trim_end is_space
trim s = trim_end (trim_start s)

-- `texts.includes(s)`.
abbrev pub includes : List String → String → Bool
includes [] s = false
includes (t ∷ ts) s = t === s || includes ts s

-- `new Set(texts).size !== texts.length`.
abbrev pub has_duplicates : List String → Bool
has_duplicates [] = false
has_duplicates (t ∷ ts) = includes ts t || has_duplicates ts

pub includes-In : (ts : List String) (s : String) → includes ts s ≡ true → In s ts
includes-In [] s h = cc
includes-In (t ∷ ts) s h = elim (Bool-cases (t === s)) [
  | inl e ↦ inl ((===_iff t s).0 e)
  | inr e ↦ inr (includes-In ts s (ground arith))
]

pub In-includes : (ts : List String) (s : String) → In s ts → includes ts s ≡ true
In-includes [] s i = absurd i
In-includes (t ∷ ts) s (inl e) = let q = (===_iff t s).1 e in ground arith
In-includes (t ∷ ts) s (inr i) = let q = In-includes ts s i in ground arith

trim_twice : trim " degree\t" ≡ "degree"
unfolding trim
trim_twice = refl
