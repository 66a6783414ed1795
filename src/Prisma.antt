-- ===== src/Prisma.antt =====
-- The database client, which is not part of the repository: its calls as a parameter, with the
-- documented behaviour that the services rely on. A table is the list of its rows, newest first;
-- `where` clauses are tests on rows.
use ssi_academic_credential.Common.{
  ℕ, ◌≡◌, Bool, true, List, ◌∷◌, Option, none, some, count, map_where, any, In, Action, settle,
  if◌then◌else◌,
}

pub record Prisma : Type 1 where
  pub find_first : {A : Type 0} → (A → Bool) → List A → Option A
  pub update_many : {A : Type 0} → (A → Bool) → (A → A) → List A → ℕ × List A
  pub create : {A : Type 0} → (A → A → Bool) → A → List A → Option (List A)
  pub transaction : {S A : Type 0} → Action S A → Action S A
  -- A row that is found is one of the table's and fits; if none is found, none fits.
  pub find_first-some :
      {A : Type 0} (p : A → Bool) (t : List A) (a : A)
      → find_first p t ≡ some a
      → (p a ≡ true) × In a t
  pub find_first-none :
      {A : Type 0} (p : A → Bool) (t : List A) → find_first p t ≡ none → count p t ≡ 0
  -- `updateMany` changes the rows that fit, and counts them.
  pub update_many_lem :
      {A : Type 0} (p : A → Bool) (f : A → A) (t : List A)
      → update_many p f t ≡ (count p t, map_where p f t)
  -- `create` adds the row, unless a unique constraint is violated.
  pub create_lem :
      {A : Type 0} (clash : A → A → Bool) (a : A) (t : List A)
      → create clash a t ≡ (if any (clash a) t then none else some (a ∷ t))
  -- An interactive transaction is rolled back when its function throws.
  pub transaction_lem : {S A : Type 0} (m : Action S A) (s : S) → transaction m s ≡ settle s (m s)
