-- ===== src/Auth/RefreshTokens.antt =====
-- src/auth/refresh-token.service.ts. A token is a text that is only hashed, by the SHA-256 of
-- node:crypto, which is the parameter `hash_token`.
pub mod Cases
pub mod Live
pub mod Kept
pub mod Reuse
pub mod Theorems
use ssi_academic_credential.Common.{
  ℕ, Option, none, some, Bool, true, false, not, ◌&&◌, ◌||◌, ◌∷◌, Result, ok, err, Action,
  unique_violation, ◌>>=◌, ◌>>◌, pure, or_raise, gets, modify, ◌==◌, ltb, leb, if◌then◌else◌,
}
use ssi_academic_credential.Prisma.{Prisma}
use ssi_academic_credential.Database.{Db, RefreshToken, RefreshTokenFamily}

pub data RotateTokenResult : Type 0 where
  rotated reused invalid : RotateTokenResult

abbrev pub is_null : Option ℕ → Bool
is_null none = true
is_null (some _) = false

-- A row of the family table is this user's family and is not revoked.
abbrev pub active_family : (family_id user_id : ℕ) → RefreshTokenFamily → Bool
active_family family_id user_id f =
    f.id == family_id && f.user_id == user_id && is_null f.revoked_at

abbrev pub live_token : (family_id user_id : ℕ) → RefreshToken → Bool
live_token family_id user_id t =
    t.family_id == family_id && t.user_id == user_id && is_null t.revoked_at

-- The `where` of the update that consumes the current token.
abbrev pub consumable : (hash user_id family_id now : ℕ) → RefreshToken → Bool
consumable hash user_id family_id now t =
    t.token_hash == hash
    && t.user_id == user_id
    && t.family_id == family_id
    && is_null t.revoked_at
    && ltb now t.expires_at

abbrev pub revoke_family_at : ℕ → RefreshTokenFamily → RefreshTokenFamily
revoke_family_at at f = record f { revoked_at = some at }

abbrev pub revoke_token_at : ℕ → RefreshToken → RefreshToken
revoke_token_at at t = record t { revoked_at = some at }

-- `tokenHash` is a unique column.
abbrev pub token_clash : RefreshToken → RefreshToken → Bool
token_clash t u = u.token_hash == t.token_hash

abbrev pub family_clash : RefreshTokenFamily → RefreshTokenFamily → Bool
family_clash f g = g.id == f.id

abbrev pub new_token : (user_id family_id hash expires_at : ℕ) → RefreshToken
new_token user_id family_id hash expires_at = record {
  user_id = user_id;
  family_id = family_id;
  token_hash = hash;
  expires_at = expires_at;
  revoked_at = none;
}

abbrev pub new_family : (id user_id : ℕ) → RefreshTokenFamily
new_family id user_id = record { id = id; user_id = user_id; revoked_at = none }

module _ (prisma : Prisma) (hash_token : ℕ → ℕ) where
  -- `id` is the identifier that the database makes.
  unfoldable pub create_family : (id user_id : ℕ) → Action Db ℕ
  create_family id user_id = do
    s ← gets (λ s. s)
    families ←
        or_raise (prisma.create family_clash (new_family id user_id) s.refresh_token_families)
          unique_violation
    modify (λ s. record s { refresh_token_families = families })
    pure id

  unfoldable pub store_token : (user_id family_id token expires_at : ℕ) → Action Db RefreshToken
  store_token user_id family_id token expires_at = do
    s ← gets (λ s. s)
    let row = new_token user_id family_id (hash_token token) expires_at
    tokens ← or_raise (prisma.create token_clash row s.refresh_tokens) unique_violation
    modify (λ s. record s { refresh_tokens = tokens })
    pure row

  -- The family and its tokens, as `rotateToken` revokes them on reuse and `revokeFamily` does.
  pub revoke_tokens : (family_id user_id at : ℕ) → Action Db (Unit {0})
  revoke_tokens family_id user_id at = modify λ s. record s {
    refresh_tokens =
        (prisma.update_many (live_token family_id user_id) (revoke_token_at at) s.refresh_tokens).1;
  }

  pub revoke_families : (family_id user_id at : ℕ) → Action Db ℕ
  revoke_families family_id user_id at = do
    s ← gets (λ s. s)
    let updated =
        prisma.update_many (active_family family_id user_id) (revoke_family_at at)
          s.refresh_token_families
    modify (λ s. record s { refresh_token_families = updated.1 })
    pure updated.0

  -- The end of `rotateToken` where the token was not consumed.
  unfoldable pub detect_reuse :
      (hash user_id family_id now reused_at : ℕ) → Option RefreshToken → Action Db RotateTokenResult
  unfolding revoke_families revoke_tokens
  detect_reuse hash user_id family_id now reused_at none = pure invalid
  detect_reuse hash user_id family_id now reused_at (some existing) =
      if not (existing.user_id == user_id)
        || not (existing.family_id == family_id)
        || leb existing.expires_at now
      then pure invalid
      else if is_null existing.revoked_at
      then pure invalid
      else do
        revoke_families family_id user_id reused_at
        revoke_tokens family_id user_id reused_at
        pure reused

  -- `rotateToken` from the consumption of the current token on.
  consume_token :
      (current user_id family_id next next_expires_at now reused_at : ℕ)
      → Action Db RotateTokenResult
  consume_token current user_id family_id next next_expires_at now reused_at = do
    s ← gets (λ s. s)
    let consumed =
        prisma.update_many (consumable (hash_token current) user_id family_id now)
          (revoke_token_at now) s.refresh_tokens
    modify (λ s. record s { refresh_tokens = consumed.1 })
    if consumed.0 == 1
        then store_token user_id family_id next next_expires_at >> pure rotated
        else detect_reuse (hash_token current) user_id family_id now reused_at
            (prisma.find_first (λ t. t.token_hash == hash_token current) consumed.1)

  -- The function that `rotateToken` hands to the transaction.
  unfoldable pub rotate_body :
      (current user_id family_id next next_expires_at now reused_at : ℕ)
      → Action Db RotateTokenResult
  unfolding consume_token store_token
  rotate_body current user_id family_id next next_expires_at now reused_at = do
    s ← gets (λ s. s)
    let family =
        prisma.update_many (active_family family_id user_id) (λ f. record f { revoked_at = none })
          s.refresh_token_families
    modify (λ s. record s { refresh_token_families = family.1 })
    if not (family.0 == 1)
        then pure invalid
        else consume_token current user_id family_id next next_expires_at now reused_at

  unfoldable pub rotate_token :
      (current user_id family_id next next_expires_at now reused_at : ℕ)
      → Action Db RotateTokenResult
  rotate_token current user_id family_id next next_expires_at now reused_at =
      prisma.transaction (rotate_body current user_id family_id next next_expires_at now reused_at)

  revoke_family_body : (family_id user_id at : ℕ) → Action Db (Unit {0})
  revoke_family_body family_id user_id at = do
    changed ← revoke_families family_id user_id at
    if not (changed == 1) then pure tt else revoke_tokens family_id user_id at

  unfoldable pub revoke_family : (family_id user_id at : ℕ) → Action Db (Unit {0})
  unfolding revoke_family_body revoke_families revoke_tokens
  revoke_family family_id user_id at = prisma.transaction (revoke_family_body family_id user_id at)

  -- `others` is what other requests do between the two database calls.
  unfoldable pub revoke_token : (others : Db → Db) (token user_id at : ℕ) → Action Db (Unit {0})
  revoke_token others token user_id at = do
    s ← gets (λ s. s)
    elim (prisma.find_first (λ t. t.token_hash == hash_token token) s.refresh_tokens) [
      | none ↦ pure tt
      | some stored ↦
          if not (stored.user_id == user_id)
          then pure tt
          else modify others >> revoke_family stored.family_id user_id at
    ]
