-- ===== src/Auth/RefreshTokens/Reuse.antt =====
-- A replayed token ends its family for good.
use ssi_academic_credential.Common.{
  ℕ, ◌<◌, Bool, true, false, ◌∷◌, [], List, Option, none, some, ok, ◌==◌, ◌≡◌, ◌≢◌, refl, subst,
  inl, inr, arith, count, map_where, any, In, Fresh, Distinct, Bool-cases, Option-cases,
}
use ssi_academic_credential.Prisma.{Prisma}
use ssi_academic_credential.Database.{Db, RefreshToken, RefreshTokenFamily}
use ssi_academic_credential.Auth.RefreshTokens.{
  reused, invalid, is_null, consumable, active_family, live_token, revoke_token_at,
  revoke_family_at, new_family, family_clash, rotate_token, revoke_family, revoke_token,
}
use ssi_academic_credential.Auth.RefreshTokens.Cases.{
  family_revoked, token_consumed, no_family, done, clashed, refused, replayed, rotate_cases,
  revoke_family_cases, store_token_cases, create_family_cases,
}
use ssi_academic_credential.Auth.RefreshTokens.Theorems.{Fresh-count}
use ssi_academic_credential.Auth.RefreshTokens.Live.{
  Op, hash_of, creates, stores, rotates, revokes_family, revokes_token, after,
}

-- The family is stored and not active.
pub record Ended (family_id user_id : ℕ) (families : List RefreshTokenFamily) : Type 0 where
  pub stored : any (λ f. f.id == family_id) families ≡ true
  pub inactive : count (active_family family_id user_id) families ≡ 0

revoke-inactive :
    (k u k' u' at : ℕ) (t : List RefreshTokenFamily)
    → count (active_family k u) t ≡ 0
    → count (active_family k u) (map_where (active_family k' u') (revoke_family_at at) t) ≡ 0
revoke-inactive k u k' u' at [] h = refl
revoke-inactive k u k' u' at (f ∷ t) h = ground (arith, revoke-inactive k u k' u' at t)

revoke-stored :
    (k k' u' at : ℕ) (t : List RefreshTokenFamily)
    → any (λ f. f.id == k) (map_where (active_family k' u') (revoke_family_at at) t)
      ≡ any (λ f. f.id == k) t
revoke-stored k k' u' at [] = refl
revoke-stored k k' u' at (f ∷ t) = ground (arith, revoke-stored k k' u' at t)

revoke-Ended :
    (k u k' u' at : ℕ) (t : List RefreshTokenFamily)
    → Ended k u t
    → Ended k u (map_where (active_family k' u') (revoke_family_at at) t)
revoke-Ended k u k' u' at t v = record {
  stored = rw (revoke-stored k k' u' at t) v.stored;
  inactive = revoke-inactive k u k' u' at t v.inactive;
}

clash_other :
    (k id user_id : ℕ) (t : List RefreshTokenFamily)
    → any (family_clash (new_family id user_id)) t ≡ false
    → any (λ f. f.id == k) t ≡ true
    → id ≢ k
clash_other k id user_id [] n s = ground arith
clash_other k id user_id (f ∷ t) n s = elim (Bool-cases (f.id == k)) [
  | inl e ↦ ground arith
  | inr e ↦ clash_other k id user_id t (ground arith) (ground arith)
]

revoked-none :
    (k u at : ℕ) (t : List RefreshTokenFamily)
    → count (active_family k u) (map_where (active_family k u) (revoke_family_at at) t) ≡ 0
revoked-none k u at [] = refl
revoked-none k u at (f ∷ t) = ground (arith, revoked-none k u at t)

revoked-tokens :
    (k u at : ℕ) (t : List RefreshToken)
    → count (live_token k u) (map_where (live_token k u) (revoke_token_at at) t) ≡ 0
revoked-tokens k u at [] = refl
revoked-tokens k u at (x ∷ t) = ground (arith, revoked-tokens k u at t)

active-stored :
    (k u : ℕ) (t : List RefreshTokenFamily)
    → count (active_family k u) t ≢ 0
    → any (λ f. f.id == k) t ≡ true
active-stored k u [] n = absurd (n refl)
active-stored k u (f ∷ t) n = ground (arith, active-stored k u t)

-- Of distinct hashes one is consumed or none.
consumed-none :
    (hash user_id family_id now : ℕ) (t : List RefreshToken)
    → Distinct hash_of t
    → (count (consumable hash user_id family_id now) t == 1) ≡ false
    → count (consumable hash user_id family_id now) t ≡ 0
consumed-none hash user_id family_id now [] d n = refl
consumed-none hash user_id family_id now (x ∷ t) d n =
    elim (Bool-cases (consumable hash user_id family_id now x)) [
      | inl e ↦
          let same : x.token_hash ≡ hash = ground arith in
          let rest : Fresh hash_of hash t = rw (← same) d.0 in
          let q = Fresh-count hash user_id family_id now t rest in absurd (ground arith)
      | inr e ↦
          let q = consumed-none hash user_id family_id now t d.1 (ground arith) in ground arith
    ]

unchanged :
    (p : RefreshToken → Bool) (f : RefreshToken → RefreshToken) (t : List RefreshToken)
    → count p t ≡ 0
    → map_where p f t ≡ t
unchanged p f [] n = refl
unchanged p f (x ∷ t) n = elim (Bool-cases (p x)) [
  | inl e ↦ absurd (ground arith)
  | inr e ↦ rw (e, unchanged p f t (ground arith)) refl
]

revoked_some : (o : Option ℕ) → is_null o ≡ false → o ≢ none
revoked_some none h = absurd (cc)
revoked_some (some n) h = λ e. absurd (cc)

-- Other requests that run inside `revokeToken` leave an ended family ended.
abbrev pub OthersKeep : (family_id user_id : ℕ) → Op → Type 0
OthersKeep k u (revokes_token others token user_id at) =
    (s : Db) → Ended k u s.refresh_token_families → Ended k u (others s).refresh_token_families
OthersKeep k u _ = Unit

module _ (prisma : Prisma) (hash_token : ℕ → ℕ) (k u : ℕ) where
  revoke_family-Ended :
      (family_id user_id at : ℕ) (s : Db)
      → Ended k u s.refresh_token_families
      → Ended k u (revoke_family prisma hash_token family_id user_id at s).1.refresh_token_families
  revoke_family-Ended family_id user_id at s v =
      elim (revoke_family_cases prisma hash_token family_id user_id at s) [
        | inl (_, w) ↦ rw w (revoke-Ended k u family_id user_id at s.refresh_token_families v)
        | inr (_, w) ↦ rw w (revoke-Ended k u family_id user_id at s.refresh_token_families v)
      ]

  -- No method of the service revives an ended family.
  pub after-Ended :
      (op : Op) (s : Db)
      → OthersKeep k u op
      → Ended k u s.refresh_token_families
      → Ended k u (after prisma hash_token op s).refresh_token_families
  unfolding after revoke_token
  after-Ended (creates id user_id) s a v =
      elim (create_family_cases prisma hash_token id user_id s) [
        | inl (c, w) ↦
            let other = clash_other k id user_id s.refresh_token_families c v.stored in
            rw (w, after)
              (record { stored = ground (arith, v.stored); inactive = ground (arith, v.inactive) })
        | inr w ↦ rw (w, after) v
      ]
  after-Ended (stores user_id family_id token expires_at) s a v =
      elim (store_token_cases prisma hash_token user_id family_id token expires_at s) [
        | inl (_, w) ↦ rw (w, after) v
        | inr w ↦ rw (w, after) v
      ]
  after-Ended (rotates current user_id family_id next next_expires_at now reused_at) s a v =
      elim (rotate_cases prisma hash_token current user_id family_id next next_expires_at now
        reused_at s) [
          | no_family _ w ↦ rw (w, after) v
          | done _ _ _ w ↦ rw (w, after) v
          | clashed _ _ w ↦ rw (w, after) v
          | refused _ _ w ↦ rw (w, after) v
          | replayed t _ _ _ _ w ↦
              rw (w, after)
                (revoke-Ended k u family_id user_id reused_at s.refresh_token_families v)
        ]
  after-Ended (revokes_family family_id user_id at) s a v =
      revoke_family-Ended family_id user_id at s v
  after-Ended (revokes_token others token user_id at) s a v =
      elim (Option-cases
        (prisma.find_first (λ t. t.token_hash == hash_token token) s.refresh_tokens)) [
          | inl e ↦ rw (e, revoke_token, after) v
          | inr (t, e) ↦ elim (Bool-cases (t.user_id == user_id)) [
            | inl q ↦
                rw (e, q, revoke_token, after)
                  (revoke_family-Ended t.family_id user_id at (others s) (a s v))
            | inr q ↦ rw (e, q, revoke_token, after) v
          ]
        ]

  -- In an ended family every rotation is refused, and nothing is written.
  pub Ended-refuses :
      (current next next_expires_at now reused_at : ℕ) (s : Db)
      → Ended k u s.refresh_token_families
      → rotate_token prisma hash_token current u k next next_expires_at now reused_at s
        ≡ (ok invalid, s)
  Ended-refuses current next next_expires_at now reused_at s v =
      let none_left = v.inactive in
      elim (rotate_cases prisma hash_token current u k next next_expires_at now reused_at s) [
        | no_family _ w ↦ w
        | done e _ _ w ↦ absurd (ground arith)
        | clashed e _ w ↦ absurd (ground arith)
        | refused e _ w ↦ absurd (ground arith)
        | replayed t e _ _ _ w ↦ absurd (ground arith)
      ]

  -- If the stored hashes are distinct, `rotateToken` reports reuse only if a token of that hash stands
  -- in the table before the call, of this user and family, revoked already and not expired; then the
  -- family is stored and not active for that user, and no token of the user in the family is live.
  pub reuse-Ended :
      (current next next_expires_at now reused_at : ℕ) (s t : Db)
      → Distinct hash_of s.refresh_tokens
      → rotate_token prisma hash_token current u k next next_expires_at now reused_at s
        ≡ (ok reused, t)
      → Ended k u t.refresh_token_families
        × (count (live_token k u) t.refresh_tokens ≡ 0)
        × ((x : RefreshToken) × In x s.refresh_tokens
            × (x.token_hash ≡ hash_token current)
            × (x.user_id ≡ u)
            × (x.family_id ≡ k)
            × (x.revoked_at ≢ none)
            × (now < x.expires_at))
  reuse-Ended current next next_expires_at now reused_at s t d h =
      elim (rotate_cases prisma hash_token current u k next next_expires_at now reused_at s) [
        | no_family _ w ↦ absurd (cc)
        | done _ _ _ w ↦ absurd (cc)
        | clashed _ _ w ↦ absurd (cc)
        | refused _ _ w ↦ absurd (cc)
        | replayed x one few i held w ↦
            let end : family_revoked k u reused_at (token_consumed (hash_token current) u k now s)
                ≡ t =
              cc in
            rw (← end) (
              record {
                stored =
                    rw (revoke-stored k k u reused_at s.refresh_token_families)
                      (active-stored k u s.refresh_token_families (ground arith));
                inactive = revoked-none k u reused_at s.refresh_token_families;
              },
              revoked-tokens k u reused_at
                  (token_consumed (hash_token current) u k now s).refresh_tokens,
              (
                x,
                subst (λ l. In x l) (untouched few) i,
                held.0,
                held.1,
                held.2,
                revoked_some x.revoked_at held.3,
                held.4,
              ),
            )
      ]
    where
      untouched :
          (count (consumable (hash_token current) u k now) s.refresh_tokens == 1) ≡ false
          → (token_consumed (hash_token current) u k now s).refresh_tokens ≡ s.refresh_tokens
      untouched few =
          unchanged (consumable (hash_token current) u k now) (revoke_token_at now) s.refresh_tokens
            (consumed-none (hash_token current) u k now s.refresh_tokens d few)
