-- ===== src/Auth/RefreshTokens/Live.antt =====
-- One live refresh token in a family, and a consumed token never again.
use ssi_academic_credential.Common.{
  ℕ, ◌+◌, ◌≤◌, Bool, false, ◌&&◌, ◌∷◌, [], List, ◌==◌, ◌≡◌, refl, arith, count, map_where, any,
  Distinct, any-Fresh, Distinct-map_where,
}
use ssi_academic_credential.Prisma.{Prisma}
use ssi_academic_credential.Database.{Db, RefreshToken}
use ssi_academic_credential.Auth.RefreshTokens.{
  is_null, consumable, revoke_token_at, token_clash, new_token, create_family, store_token,
  rotate_token, revoke_family, revoke_token,
}

abbrev pub hash_of : RefreshToken → ℕ
hash_of t = t.token_hash

-- A token of the family that is not revoked.
abbrev pub live_in : ℕ → RefreshToken → Bool
live_in k t = t.family_id == k && is_null t.revoked_at

-- Hashes are distinct, and a family has one live token at most.
pub record Inv (tokens : List RefreshToken) : Type 0 where
  pub keys : Distinct hash_of tokens
  pub single : (k : ℕ) → count (live_in k) tokens ≤ 1

revoke-live-le :
    (p : RefreshToken → Bool) (at k : ℕ) (t : List RefreshToken)
    → count (live_in k) (map_where p (revoke_token_at at) t) ≤ count (live_in k) t
revoke-live-le p at k [] = omega arith
revoke-live-le p at k (x ∷ t) = ground (arith, revoke-live-le p at k t)

-- A consumed token was live in its family.
pub consume-live :
    (hash user_id family_id now : ℕ) (t : List RefreshToken)
    → count
          (live_in family_id)
          (map_where (consumable hash user_id family_id now) (revoke_token_at now) t)
        + count (consumable hash user_id family_id now) t
      ≤ count (live_in family_id) t
consume-live hash user_id family_id now [] = omega arith
consume-live hash user_id family_id now (x ∷ t) =
    ground (arith, consume-live hash user_id family_id now t)

pub revoke-Inv :
    (p : RefreshToken → Bool) (at : ℕ) (t : List RefreshToken)
    → Inv t
    → Inv (map_where p (revoke_token_at at) t)
revoke-Inv p at t v = record {
  keys = Distinct-map_where hash_of p (revoke_token_at at) (λ a. refl) t v.keys;
  single = λ k. omega (arith, revoke-live-le p at k t, v.single k);
}

pub store-Inv :
    (user_id family_id hash expires_at : ℕ) (t : List RefreshToken)
    → any (token_clash (new_token user_id family_id hash expires_at)) t ≡ false
    → count (live_in family_id) t ≡ 0
    → Inv t
    → Inv (new_token user_id family_id hash expires_at ∷ t)
store-Inv user_id family_id hash expires_at t new empty v = record {
  keys = (any-Fresh hash_of hash t new, v.keys);
  single = λ k. ground (arith, v.single k);
}

pub data Op : Type 0 where
  creates : (id user_id : ℕ) → Op
  stores : (user_id family_id token expires_at : ℕ) → Op
  rotates : (current user_id family_id next next_expires_at now reused_at : ℕ) → Op
  revokes_family : (family_id user_id at : ℕ) → Op
  revokes_token : (others : Db → Db) (token user_id at : ℕ) → Op

module _ (prisma : Prisma) (hash_token : ℕ → ℕ) where
  -- The database after a method of the service.
  unfoldable pub after : Op → Db → Db
  after (creates id user_id) s = (create_family prisma hash_token id user_id s).1
  after (stores user_id family_id token expires_at) s =
      (store_token prisma hash_token user_id family_id token expires_at s).1
  after (rotates current user_id family_id next next_expires_at now reused_at) s =
      (rotate_token prisma hash_token current user_id family_id next next_expires_at now reused_at
        s).1
  after (revokes_family family_id user_id at) s =
      (revoke_family prisma hash_token family_id user_id at s).1
  after (revokes_token others token user_id at) s =
      (revoke_token prisma hash_token others token user_id at s).1

-- What the caller of a method grants, for a property of the tokens that it keeps: a token is only
-- stored in a family that has no live one, as `login` does, and other requests keep the property.
abbrev pub Allowed : (List RefreshToken → Type 0) → Op → Db → Type 0
Allowed P (stores user_id family_id token expires_at) s =
    count (live_in family_id) s.refresh_tokens ≡ 0
Allowed P (revokes_token others token user_id at) s =
    (s : Db) → P s.refresh_tokens → P (others s).refresh_tokens
Allowed P _ s = Unit
