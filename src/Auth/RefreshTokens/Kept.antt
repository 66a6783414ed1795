-- ===== src/Auth/RefreshTokens/Kept.antt =====
-- A property of the token table that revocations and admissible new tokens keep is kept by every
-- method of the refresh token service.
use ssi_academic_credential.Common.{
  ℕ, Bool, false, ◌∷◌, List, ◌==◌, ◌≡◌, inl, inr, arith, count, map_where, any, Bool-cases,
  Option-cases,
}
use ssi_academic_credential.Prisma.{Prisma}
use ssi_academic_credential.Database.{Db, RefreshToken}
use ssi_academic_credential.Auth.RefreshTokens.{
  consumable, live_token, revoke_token_at, token_clash, new_token, revoke_family, revoke_token,
}
use ssi_academic_credential.Auth.RefreshTokens.Cases.{
  no_family, done, clashed, refused, replayed, rotate_cases, revoke_family_cases, store_token_cases,
  create_family_cases,
}
use ssi_academic_credential.Auth.RefreshTokens.Live.{
  Op, creates, stores, rotates, revokes_family, revokes_token, after, Allowed, live_in,
}

module _ (prisma : Prisma) (hash_token : ℕ → ℕ) (P : List RefreshToken → Type 0)
    (revokes : (p : RefreshToken → Bool) (at : ℕ) (t : List RefreshToken)
      → P t
      → P (map_where p (revoke_token_at at) t))
    (stored : (user_id family_id hash expires_at : ℕ) (t : List RefreshToken)
      → any (token_clash (new_token user_id family_id hash expires_at)) t ≡ false
      → count (live_in family_id) t ≡ 0
      → P t
      → P (new_token user_id family_id hash expires_at ∷ t))
    (renewed : (hash user_id family_id now next next_expires_at : ℕ) (t : List RefreshToken)
      → let t' = map_where (consumable hash user_id family_id now) (revoke_token_at now) t in
        count (consumable hash user_id family_id now) t ≡ 1
        → any (token_clash (new_token user_id family_id next next_expires_at)) t' ≡ false
        → P t
        → P (new_token user_id family_id next next_expires_at ∷ t')) where
  revoke_family_keeps :
      (family_id user_id at : ℕ) (s : Db)
      → P s.refresh_tokens
      → P (revoke_family prisma hash_token family_id user_id at s).1.refresh_tokens
  revoke_family_keeps family_id user_id at s v =
      elim (revoke_family_cases prisma hash_token family_id user_id at s) [
        | inl (_, w) ↦ rw w (revokes (live_token family_id user_id) at s.refresh_tokens v)
        | inr (_, w) ↦ rw w v
      ]

  pub after_keeps :
      (op : Op) (s : Db)
      → Allowed P op s
      → P s.refresh_tokens
      → P (after prisma hash_token op s).refresh_tokens
  unfolding after revoke_token
  after_keeps (creates id user_id) s a v =
      elim (create_family_cases prisma hash_token id user_id s) [
        | inl (_, w) ↦ rw (w, after) v
        | inr w ↦ rw (w, after) v
      ]
  after_keeps (stores user_id family_id token expires_at) s a v =
      elim (store_token_cases prisma hash_token user_id family_id token expires_at s) [
        | inl (c, w) ↦
            rw (w, after)
              (stored user_id family_id (hash_token token) expires_at s.refresh_tokens c a v)
        | inr w ↦ rw (w, after) v
      ]
  after_keeps (rotates current user_id family_id next next_expires_at now reused_at) s a v =
      elim (rotate_cases prisma hash_token current user_id family_id next next_expires_at now
        reused_at s) [
          | no_family _ w ↦ rw (w, after) v
          | done _ c n w ↦
              rw (w, after)
                (renewed (hash_token current) user_id family_id now (hash_token next)
                  next_expires_at s.refresh_tokens (ground arith) n v)
          | clashed _ _ w ↦ rw (w, after) v
          | refused _ _ w ↦ rw (w, after) (revokes _ now s.refresh_tokens v)
          | replayed t _ _ _ _ w ↦
              rw (w, after) (revokes _ reused_at _ (revokes _ now s.refresh_tokens v))
        ]
  after_keeps (revokes_family family_id user_id at) s a v =
      revoke_family_keeps family_id user_id at s v
  after_keeps (revokes_token others token user_id at) s a v =
      elim (Option-cases
        (prisma.find_first (λ t. t.token_hash == hash_token token) s.refresh_tokens)) [
          | inl e ↦ rw (e, revoke_token, after) v
          | inr (t, e) ↦ elim (Bool-cases (t.user_id == user_id)) [
            | inl q ↦
                rw (e, q, revoke_token, after)
                  (revoke_family_keeps t.family_id user_id at (others s) (a s v))
            | inr q ↦ rw (e, q, revoke_token, after) v
          ]
        ]
