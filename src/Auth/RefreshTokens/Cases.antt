-- ===== src/Auth/RefreshTokens/Cases.antt =====
-- The ends of each method of the refresh token service, in terms of the tables.
use ssi_academic_credential.Common.{
  ℕ, ◌<◌, none, some, Bool, true, false, not, ◌&&◌, ◌∷◌, [], List, Result, ok, err,
  unique_violation, ◌==◌, ltb, if◌then◌else◌, ◌≡◌, ◌≢◌, refl, ◌⊎◌, inl, inr, arith, In, count,
  map_where, any, Bool-cases, Option-cases,
}
use ssi_academic_credential.Prisma.{Prisma}
use ssi_academic_credential.Database.{Db, RefreshToken, RefreshTokenFamily}
use ssi_academic_credential.Auth.RefreshTokens.{
  RotateTokenResult, rotated, reused, invalid, is_null, active_family, live_token, consumable,
  revoke_family_at, revoke_token_at, token_clash, family_clash, new_token, new_family,
  create_family, store_token, detect_reuse, revoke_families, revoke_tokens, rotate_body,
  rotate_token, revoke_family,
}

-- The update that only counts the active family writes back what stands there.
same_families :
    (family_id user_id : ℕ) (t : List RefreshTokenFamily)
    → map_where (active_family family_id user_id) (λ f. record f { revoked_at = none }) t ≡ t
same_families family_id user_id [] = refl
same_families family_id user_id (f ∷ t) = ground (arith, same_families family_id user_id t)

-- The database after a revocation of the family and its tokens.
abbrev pub family_revoked : (family_id user_id at : ℕ) → Db → Db
family_revoked family_id user_id at s = record s {
  refresh_token_families =
      map_where (active_family family_id user_id) (revoke_family_at at) s.refresh_token_families;
  refresh_tokens = map_where (live_token family_id user_id) (revoke_token_at at) s.refresh_tokens;
}

-- The database after the current token is consumed.
abbrev pub token_consumed : (hash user_id family_id now : ℕ) → Db → Db
token_consumed hash user_id family_id now s = record s {
  refresh_tokens =
      map_where (consumable hash user_id family_id now) (revoke_token_at now) s.refresh_tokens;
}

abbrev pub token_stored : RefreshToken → Db → Db
token_stored row s = record s { refresh_tokens = row ∷ s.refresh_tokens }

module _ (prisma : Prisma) (hash_token : ℕ → ℕ) where
  pub revoke_family_cases :
      (family_id user_id at : ℕ) (s : Db)
      → ((count (active_family family_id user_id) s.refresh_token_families ≡ 1)
          × (revoke_family prisma hash_token family_id user_id at s
              ≡ (ok tt, family_revoked family_id user_id at s)))
        ⊎ ((count (active_family family_id user_id) s.refresh_token_families ≢ 1)
            × (revoke_family prisma hash_token family_id user_id at s ≡ (
              ok tt,
              record s {
                refresh_token_families =
                    map_where
                      (active_family family_id user_id)
                      (revoke_family_at at)
                      s.refresh_token_families;
              },
            )))
  unfolding revoke_family
  revoke_family_cases family_id user_id at s =
      elim (Bool-cases (count (active_family family_id user_id) s.refresh_token_families == 1)) [
        | inl e ↦ inl (ground arith, simp (prisma.transaction_lem, prisma.update_many_lem, e))
        | inr e ↦ inr (ground arith, simp (prisma.transaction_lem, prisma.update_many_lem, e))
      ]

  pub store_token_cases :
      (user_id family_id token expires_at : ℕ) (s : Db)
      → let row = new_token user_id family_id (hash_token token) expires_at in
        ((any (token_clash row) s.refresh_tokens ≡ false)
          × (store_token prisma hash_token user_id family_id token expires_at s
              ≡ (ok row, token_stored row s)))
        ⊎ (store_token prisma hash_token user_id family_id token expires_at s
            ≡ (err unique_violation, s))
  unfolding store_token
  store_token_cases user_id family_id token expires_at s =
      elim (Bool-cases (
        any (token_clash (new_token user_id family_id (hash_token token) expires_at))
          s.refresh_tokens)) [
            | inl e ↦ inr (simp (prisma.create_lem, e))
            | inr e ↦ inl (e, simp (prisma.create_lem, e))
          ]

  pub create_family_cases :
      (id user_id : ℕ) (s : Db)
      → ((any (family_clash (new_family id user_id)) s.refresh_token_families ≡ false)
          × (create_family prisma hash_token id user_id s ≡ (
            ok id,
            record s { refresh_token_families = new_family id user_id ∷ s.refresh_token_families },
          )))
        ⊎ (create_family prisma hash_token id user_id s ≡ (err unique_violation, s))
  unfolding create_family
  create_family_cases id user_id s =
      elim (Bool-cases (any (family_clash (new_family id user_id)) s.refresh_token_families)) [
        | inl e ↦ inr (simp (prisma.create_lem, e))
        | inr e ↦ inl (e, simp (prisma.create_lem, e))
      ]

  -- The stored token is this user's, of this family, unexpired and revoked.
  abbrev replay : (user_id family_id now : ℕ) → RefreshToken → Bool
  replay user_id family_id now t =
      t.user_id == user_id
      && t.family_id == family_id
      && ltb now t.expires_at
      && not (is_null t.revoked_at)

  detect_reuse-none :
      (hash user_id family_id now at : ℕ) (s : Db)
      → detect_reuse prisma hash_token hash user_id family_id now at none s ≡ (ok invalid, s)
  unfolding detect_reuse
  detect_reuse-none hash user_id family_id now at s = refl

  detect_reuse_lem :
      (hash user_id family_id now at : ℕ) (t : RefreshToken) (s : Db)
      → detect_reuse prisma hash_token hash user_id family_id now at (some t) s ≡ (
          if replay user_id family_id now t
          then (ok reused, family_revoked family_id user_id at s)
          else (ok invalid, s))
  unfolding detect_reuse revoke_families revoke_tokens
  detect_reuse_lem hash user_id family_id now at t s =
      elim (Bool-cases (replay user_id family_id now t)) [
        | inl r ↦ rw r (
            ground (
              arith,
              prisma.update_many_lem (active_family family_id user_id) (revoke_family_at at)
                  s.refresh_token_families,
              prisma.update_many_lem (live_token family_id user_id) (revoke_token_at at)
                  s.refresh_tokens,
            ))
        | inr r ↦ rw r (ground arith)
      ]

  module _ (current user_id family_id next next_expires_at now reused_at : ℕ) (s : Db) where
    abbrev rotation : Result RotateTokenResult × Db
    rotation =
        rotate_token prisma hash_token current user_id family_id next next_expires_at now reused_at
          s

    abbrev consumed : Db
    consumed = token_consumed (hash_token current) user_id family_id now s

    abbrev row : RefreshToken
    row = new_token user_id family_id (hash_token next) next_expires_at

    abbrev families_active : Bool
    families_active = count (active_family family_id user_id) s.refresh_token_families == 1

    abbrev tokens_consumed : Bool
    tokens_consumed =
        count (consumable (hash_token current) user_id family_id now) s.refresh_tokens == 1

    -- What each end of a rotation has done.
    pub data Rotation : Type 0 where
      no_family : families_active ≡ false → rotation ≡ (ok invalid, s) → Rotation
      done :
          families_active ≡ true
          → tokens_consumed ≡ true
          → any (token_clash row) consumed.refresh_tokens ≡ false
          → rotation ≡ (ok rotated, token_stored row consumed)
          → Rotation
      clashed :
          families_active ≡ true
          → tokens_consumed ≡ true
          → rotation ≡ (err unique_violation, s)
          → Rotation
      refused :
          families_active ≡ true
          → tokens_consumed ≡ false
          → rotation ≡ (ok invalid, consumed)
          → Rotation
      replayed :
          (t : RefreshToken)
          → families_active ≡ true
          → tokens_consumed ≡ false
          → In t consumed.refresh_tokens
          → (t.token_hash ≡ hash_token current)
            × (t.user_id ≡ user_id)
            × (t.family_id ≡ family_id)
            × (is_null t.revoked_at ≡ false)
            × (now < t.expires_at)
          → rotation ≡ (ok reused, family_revoked family_id user_id reused_at consumed)
          → Rotation

    pub rotate_cases : Rotation
    unfolding rotate_token rotate_body
    rotate_cases = elim (Bool-cases families_active) [
      | inr e ↦
          no_family e (simp (prisma.transaction_lem, prisma.update_many_lem, e, same_families))
      | inl e ↦ elim (Bool-cases tokens_consumed) [
        | inl q ↦ elim (Bool-cases (any (token_clash row) consumed.refresh_tokens)) [
          | inl c ↦ clashed e q (
              simp (
                prisma.transaction_lem, prisma.update_many_lem, prisma.create_lem, e, q, c,
                same_families,
              ))
          | inr c ↦ done e q c (
              simp
                (
                  prisma.transaction_lem, prisma.update_many_lem, prisma.create_lem, e, q,
                  same_families,
                )
                (ground arith))
        ]
        | inr q ↦
            elim (Option-cases (
              prisma.find_first (λ t. t.token_hash == hash_token current)
                consumed.refresh_tokens)) [
                  | inl z ↦ refused e q (
                      simp (
                        prisma.transaction_lem, prisma.update_many_lem, e, q, same_families, z,
                        detect_reuse-none,
                      ))
                  | inr (t, z) ↦
                      let (same, held) = prisma.find_first-some _ _ _ z in
                      elim (Bool-cases (replay user_id family_id now t)) [
                        | inl r ↦ replayed t e q held (ground arith) (
                            simp (
                              prisma.transaction_lem, prisma.update_many_lem, e, q, same_families,
                              z, detect_reuse_lem, r,
                            ))
                        | inr r ↦ refused e q (
                            simp (
                              prisma.transaction_lem, prisma.update_many_lem, e, q, same_families,
                              z, detect_reuse_lem, r,
                            ))
                      ]
                ]
      ]
    ]
