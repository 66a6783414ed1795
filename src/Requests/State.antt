-- ===== src/Requests/State.antt =====
-- The state of src/verification-requests: the database, and the sessions that Redis keeps under
-- `verification-request:<id>`. The Redis client is not part of the repository: its calls, behind
-- src/redis/redis.service.ts, are a parameter with their documented behaviour.
use ssi_academic_credential.Common.{ℕ, String, List, Option, none, some, ◌≡◌, ok, err, Action}
use ssi_academic_credential.Database.{Db}

pub record VerificationSession : Type 0 where
  pub application_id : ℕ
  pub holder_id : ℕ
  pub bank_id : ℕ
  pub nonce : ℕ
  pub requested_claims : List String

pub record Redis : Type 1 where
  pub Cache : Type 0
  pub set_json : ℕ → VerificationSession → (ttl_seconds : ℕ) → Cache → Cache
  pub get_json : ℕ → Cache → Option VerificationSession
  pub delete : ℕ → Cache → Cache
  -- What is written can be read until it expires, and what is deleted cannot.
  pub get-set :
      (k : ℕ) (v : VerificationSession) (ttl : ℕ) (c : Cache)
      → get_json k (set_json k v ttl c) ≡ some v
  pub get-delete : (k : ℕ) (c : Cache) → get_json k (delete k c) ≡ none

pub record Store (redis : Redis) : Type 0 where
  pub db : Db
  pub cache : redis.Cache

-- An action of the database alone, and one of the cache alone.
abbrev pub on_db : {A : Type 0} (redis : Redis) → Action Db A → Action (Store redis) A
on_db redis m s = let (r, d) = m s.db in (r, record s { db = d })

abbrev pub on_cache :
    (redis : Redis) → (redis.Cache → redis.Cache) → Action (Store redis) (Unit {0})
on_cache redis f s = (ok tt, record s { cache = f s.cache })

-- `try { m } catch (error) { cleanup; throw error; }`.
abbrev pub catching : {S A : Type 0} → Action S A → (S → S) → Action S A
catching m cleanup s = let (r, t) = m s in elim r [ ok a ↦ (ok a, t) | err e ↦ (err e, cleanup t) ]
