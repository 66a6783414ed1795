-- ===== src/Common/Results.antt =====
-- Results of a service method: the value, or the exception with its message. A method is an action
-- on the state, which keeps what was written before a throw.
use Prim.Native.String.{String}
use mathlib.Core.Bool.{Bool, true, false}
use mathlib.Core.Path.{◌≡◌, refl}
use mathlib.Core.Logic.{◌⊎◌, inl, inr}
use mathlib.Core.Option.{Option, none, some}

pub data Error : Type 0 where
  bad_request unauthorized forbidden not_found conflict unprocessable server_error : String → Error
  unique_violation : Error

pub data Result (A : Type 0) : Type 0 where
  ok : A → Result A
  err : Error → Result A

abbrev pub Action : Type 0 → Type 0 → Type 0
Action S A = S → Result A × S

module _ {S A : Type 0} where
  abbrev pub pure : A → Action S A
  pure a s = (ok a, s)

  abbrev pub raise : Error → Action S A
  raise e s = (err e, s)

  abbrev pub or_raise : Option A → Error → Action S A
  or_raise none e s = (err e, s)
  or_raise (some a) e s = (ok a, s)

  abbrev pub of_result : Result A → Action S A
  of_result r s = (r, s)

abbrev pub gets : {S A : Type 0} → (S → A) → Action S A
gets f s = (ok (f s), s)

abbrev pub raise_if : {S : Type 0} → Bool → Error → Action S (Unit {0})
raise_if true e s = (err e, s)
raise_if false e s = (ok tt, s)

abbrev pub modify : {S : Type 0} → (S → S) → Action S (Unit {0})
modify f s = (ok tt, f s)

infixl 5 ◌>>=◌ ◌>>◌
abbrev pub ◌>>=◌ : {S A B : Type 0} → Action S A → (A → Action S B) → Action S B
◌>>=◌ m f s = let (r, s') = m s in elim r [ ok a ↦ f a s' | err e ↦ (err e, s') ]

abbrev pub ◌>>◌ : {S A B : Type 0} → Action S A → Action S B → Action S B
m >> k = m >>= λ _. k

-- A chain that succeeds has a first action that succeeded.
pub bind_inv :
    {S A B : Type 0} (m : Action S A) (f : A → Action S B) (s : S) (b : B) (t : S)
    → (m >>= f) s ≡ (ok b, t)
    → (a : A) × (u : S) × (m s ≡ (ok a, u)) × (f a u ≡ (ok b, t))
bind_inv {S} {A} {B} m f s b t h = go (m s) refl h
  where
    go :
        (x : Result A × S)
        → m s ≡ x
        → elim x.0 as (λ _. Result B × S) [ ok a ↦ f a x.1 | err e ↦ (err e, x.1) ] ≡ (ok b, t)
        → (a : A) × (u : S) × (m s ≡ (ok a, u)) × (f a u ≡ (ok b, t))
    go (ok a, u) e q = (a, u, e, q)
    go (err e, u) w q = absurd (cc)

-- What is left of a block of changes that stands or falls as one.
abbrev pub settle : {S A : Type 0} → S → Result A × S → Result A × S
settle s (ok a, t) = (ok a, t)
settle s (err e, t) = (err e, s)

pub Result-cases :
    {A : Type 0} (r : Result A) → ((a : A) × (r ≡ ok a)) ⊎ ((e : Error) × (r ≡ err e))
Result-cases (ok a) = inl (a, refl)
Result-cases (err e) = inr (e, refl)

-- A chain that succeeds has passed its first step, which read nothing and wrote nothing.
module _ {S A B : Type 0} where
  pub or_raise_then :
      (o : Option A) (e : Error) (f : A → Action S B) (s : S) (b : B) (t : S)
      → (or_raise o e >>= f) s ≡ (ok b, t)
      → (a : A) × (o ≡ some a) × (f a s ≡ (ok b, t))
  or_raise_then none e f s b t h = absurd (cc)
  or_raise_then (some a) e f s b t h = (a, refl, h)

  pub of_result_then :
      (r : Result A) (f : A → Action S B) (s : S) (b : B) (t : S)
      → (of_result r >>= f) s ≡ (ok b, t)
      → (a : A) × (r ≡ ok a) × (f a s ≡ (ok b, t))
  of_result_then (err e) f s b t h = absurd (cc)
  of_result_then (ok a) f s b t h = (a, refl, h)

pub raise_if_then :
    {S B : Type 0} (c : Bool) (e : Error) (m : Action S B) (s : S) (b : B) (t : S)
    → (raise_if c e >> m) s ≡ (ok b, t)
    → (c ≡ false) × (m s ≡ (ok b, t))
raise_if_then true e m s b t h = absurd (cc)
raise_if_then false e m s b t h = (refl, h)

pub raise_if_ok :
    {S : Type 0} (c : Bool) (e : Error) (s : S) (u : Unit {0}) (t : S)
    → raise_if c e s ≡ (ok u, t)
    → (c ≡ false) × (t ≡ s)
raise_if_ok true e s u t h = absurd (cc)
raise_if_ok false e s u t h = (refl, cc)

pub pure_ok : {S A : Type 0} (a b : A) (s t : S) → pure a s ≡ (ok b, t) → (a ≡ b) × (t ≡ s)
pure_ok a b s t h = (cc, cc)
