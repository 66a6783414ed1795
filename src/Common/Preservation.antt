-- ===== src/Common/Preservation.antt =====
-- Actions that keep a property of the state, and how they are put together.
use mathlib.Core.Bool.{Bool, true, false}
use mathlib.Core.Path.{◌≡◌, refl}
use mathlib.Core.Option.{Option, none, some}
use ssi_academic_credential.Common.Results.{
  Error, Result, ok, err, Action, ◌>>=◌, ◌>>◌, raise, or_raise, raise_if, settle,
}

module _ {S : Type 0} (P : S → Type 0) where
  -- Whatever comes of it, the property holds afterwards if it held before.
  abbrev pub Keeps : {A : Type 0} → Action S A → Type 0
  Keeps m = (s : S) → P s → P (m s).1

  -- The same, when the action succeeds.
  abbrev pub Yields : {A : Type 0} → Action S A → Type 0
  Yields {A} m = (s : S) (a : A) (t : S) → m s ≡ (ok a, t) → P s → P t

  module _ {A : Type 0} where
    pub or_raise-Keeps : (o : Option A) (e : Error) → Keeps (or_raise o e)
    or_raise-Keeps none e s h = h
    or_raise-Keeps (some a) e s h = h

    bind_end :
        {B : Type 0} (f : A → Action S B)
        → ((a : A) → Keeps (f a))
        → (x : Result A × S) → P x.1
        → P (elim x.0 as (λ _. Result B × S) [ ok a ↦ f a x.1 | err e ↦ (err e, x.1) ]).1
    bind_end f hf (ok a, t) h = hf a t h
    bind_end f hf (err e, t) h = h

    pub bind-Keeps :
        {B : Type 0} (m : Action S A) (f : A → Action S B)
        → Keeps m
        → ((a : A) → Keeps (f a))
        → Keeps (m >>= f)
    bind-Keeps m f hm hf s h = bind_end f hf (m s) (hm s h)

    pub settle-Keeps : (m : Action S A) → Yields m → (s : S) → P s → P (settle s (m s)).1
    settle-Keeps m y s h = go (m s) (λ a t e. y s a t e h)
      where
        go : (x : Result A × S) → ((a : A) (t : S) → x ≡ (ok a, t) → P t) → P (settle s x).1
        go (ok a, t) q = q a t refl
        go (err e, t) q = h

  pub raise_after-Keeps :
      {A : Type 0} (B : Type 0) (m : Action S A) (e : Error)
      → Keeps m
      → Keeps {A = B} (m >> raise e)
  raise_after-Keeps B m e h = bind-Keeps {B = B} m (λ _. raise e) h (λ a s v. v)

  pub raise_if-Keeps : (b : Bool) (e : Error) → Keeps (raise_if b e)
  raise_if-Keeps true e s h = h
  raise_if-Keeps false e s h = h
