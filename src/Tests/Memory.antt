-- ===== src/Tests/Memory.antt =====
-- A database client over lists, which keeps every law that the services rely on.
use ssi_academic_credential.Common.{
  ◌≡◌, refl, Bool, true, List, [], ◌∷◌, Option, none, some, count, map_where, any, In, settle,
  if◌then◌else◌, Bool-cases, arith, inl, inr,
}
use ssi_academic_credential.Prisma.{Prisma}

abbrev pub find_first : {A : Type 0} → (A → Bool) → List A → Option A
find_first p [] = none
find_first p (x ∷ t) = if p x then some x else find_first p t

pub find_first-some :
    {A : Type 0} (p : A → Bool) (t : List A) (a : A)
    → find_first p t ≡ some a
    → (p a ≡ true) × In a t
find_first-some p [] a h = cc
find_first-some p (x ∷ t) a h = elim (Bool-cases (p x)) [
  | inl e ↦ let same : x ≡ a = ground arith in (rw (← same) e, inl same)
  | inr e ↦ let (q, i) = find_first-some p t a (ground arith) in (q, inr i)
]

pub find_first-none :
    {A : Type 0} (p : A → Bool) (t : List A) → find_first p t ≡ none → count p t ≡ 0
find_first-none p [] h = refl
find_first-none p (x ∷ t) h = ground (arith, find_first-none p t)

abbrev pub memory : Prisma
memory = record {
  find_first = λ {A} p t. find_first p t;
  update_many = λ {A} p f t. (count p t, map_where p f t);
  create = λ {A} clash a t. if any (clash a) t then none else some (a ∷ t);
  transaction = λ {S} {A} m s. settle s (m s);
  find_first-some = λ {A} p t a. find_first-some p t a;
  find_first-none = λ {A} p t. find_first-none p t;
  update_many_lem = λ {A} p f t. refl;
  create_lem = λ {A} clash a t. refl;
  transaction_lem = λ {S} {A} m s. refl;
}
