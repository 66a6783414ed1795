-- ===== src/Auth/RefreshTokens/Theorems.antt =====
-- What the refresh token service guarantees: one live token in a family, single use, and the end of
-- a family whose token is replayed.
use ssi_academic_credential.Common.{
  ℕ, Bool, true, false, ◌∷◌, [], List, ok, ◌==◌, ◌≡◌, ◌≢◌, refl, inl, inr, arith, count, map_where,
  any, All, Fresh, Distinct, Bool-cases,
}
use ssi_academic_credential.Prisma.{Prisma}
use ssi_academic_credential.Database.{Db, RefreshToken}
use ssi_academic_credential.Auth.RefreshTokens.{
  rotated, is_null, consumable, revoke_token_at, token_clash, new_token, rotate_token,
}
use ssi_academic_credential.Auth.RefreshTokens.Cases.{
  token_consumed, token_stored, no_family, done, clashed, refused, replayed, rotate_cases,
}
use ssi_academic_credential.Auth.RefreshTokens.Live.{
  Inv, Op, after, Allowed, hash_of, revoke-Inv, store-Inv, consume-live,
}
use ssi_academic_credential.Auth.RefreshTokens.Kept.{after_keeps}

renew-Inv :
    (hash user_id family_id now next next_expires_at : ℕ) (t : List RefreshToken)
    → let t' = map_where (consumable hash user_id family_id now) (revoke_token_at now) t in
      count (consumable hash user_id family_id now) t ≡ 1
      → any (token_clash (new_token user_id family_id next next_expires_at)) t' ≡ false
      → Inv t
      → Inv (new_token user_id family_id next next_expires_at ∷ t')
renew-Inv hash user_id family_id now next next_expires_at t one new v =
    store-Inv user_id family_id next next_expires_at _ new
      (omega (arith, consume-live hash user_id family_id now t, v.single family_id))
      (revoke-Inv (consumable hash user_id family_id now) now t v)

-- The hash is that of a stored token, and each token with that hash is revoked.
pub record Spent (hash : ℕ) (tokens : List RefreshToken) : Type 0 where
  pub stored : any (λ t. t.token_hash == hash) tokens ≡ true
  pub revoked : All (λ t. t.token_hash ≡ hash → is_null t.revoked_at ≡ false) tokens

revoke-stored :
    (h : ℕ) (p : RefreshToken → Bool) (at : ℕ) (t : List RefreshToken)
    → any (λ t. t.token_hash == h) (map_where p (revoke_token_at at) t)
      ≡ any (λ t. t.token_hash == h) t
revoke-stored h p at [] = refl
revoke-stored h p at (x ∷ t) = ground (arith, revoke-stored h p at t)

revoke-revoked :
    (h : ℕ) (p : RefreshToken → Bool) (at : ℕ) (t : List RefreshToken)
    → All (λ t. t.token_hash ≡ h → is_null t.revoked_at ≡ false) t
    → All
        (λ t. t.token_hash ≡ h → is_null t.revoked_at ≡ false)
        (map_where p (revoke_token_at at) t)
revoke-revoked h p at [] r = tt
revoke-revoked h p at (x ∷ t) r = ((λ e. ground (arith, r.0)), revoke-revoked h p at t r.1)

revoke-Spent :
    (h : ℕ) (p : RefreshToken → Bool) (at : ℕ) (t : List RefreshToken)
    → Spent h t
    → Spent h (map_where p (revoke_token_at at) t)
revoke-Spent h p at t v = record {
  stored = rw (revoke-stored h p at t) v.stored;
  revoked = revoke-revoked h p at t v.revoked;
}

clash_other :
    (h user_id family_id hash expires_at : ℕ) (t : List RefreshToken)
    → any (token_clash (new_token user_id family_id hash expires_at)) t ≡ false
    → any (λ t. t.token_hash == h) t ≡ true
    → hash ≢ h
clash_other h user_id family_id hash expires_at [] n s = ground arith
clash_other h user_id family_id hash expires_at (x ∷ t) n s =
    elim (Bool-cases (x.token_hash == h)) [
      | inl e ↦ ground arith
      | inr e ↦ clash_other h user_id family_id hash expires_at t (ground arith) (ground arith)
    ]

store-Spent :
    (h user_id family_id hash expires_at : ℕ) (t : List RefreshToken)
    → any (token_clash (new_token user_id family_id hash expires_at)) t ≡ false
    → Spent h t
    → Spent h (new_token user_id family_id hash expires_at ∷ t)
store-Spent h user_id family_id hash expires_at t n v =
    let other = clash_other h user_id family_id hash expires_at t n v.stored in
    record { stored = ground (arith, v.stored); revoked = ((λ e. absurd (other e)), v.revoked) }

Spent-none :
    (hash user_id family_id now : ℕ) (t : List RefreshToken)
    → All (λ t. t.token_hash ≡ hash → is_null t.revoked_at ≡ false) t
    → count (consumable hash user_id family_id now) t ≡ 0
Spent-none hash user_id family_id now [] r = refl
Spent-none hash user_id family_id now (x ∷ t) r =
    ground (arith, r.0, Spent-none hash user_id family_id now t r.1)

count-stored :
    (hash user_id family_id now : ℕ) (t : List RefreshToken)
    → count (consumable hash user_id family_id now) t ≢ 0
    → any (λ t. t.token_hash == hash) t ≡ true
count-stored hash user_id family_id now [] n = absurd (omega arith)
count-stored hash user_id family_id now (x ∷ t) n =
    ground (arith, count-stored hash user_id family_id now t)

pub Fresh-count :
    (hash user_id family_id now : ℕ) (t : List RefreshToken)
    → Fresh hash_of hash t
    → count (consumable hash user_id family_id now) t ≡ 0
Fresh-count hash user_id family_id now [] f = refl
Fresh-count hash user_id family_id now (x ∷ t) f =
    ground (arith, Fresh-count hash user_id family_id now t f.1, f.0)

Fresh-revoked :
    (hash : ℕ) (p : RefreshToken → Bool) (at : ℕ) (t : List RefreshToken)
    → Fresh hash_of hash t
    → All
        (λ t. t.token_hash ≡ hash → is_null t.revoked_at ≡ false)
        (map_where p (revoke_token_at at) t)
Fresh-revoked hash p at [] f = tt
Fresh-revoked hash p at (x ∷ t) f = ((λ e. ground (arith, f.0)), Fresh-revoked hash p at t f.1)

consumed-revoked :
    (hash user_id family_id now : ℕ) (t : List RefreshToken)
    → Distinct hash_of t
    → count (consumable hash user_id family_id now) t ≡ 1
    → All
        (λ t. t.token_hash ≡ hash → is_null t.revoked_at ≡ false)
        (map_where (consumable hash user_id family_id now) (revoke_token_at now) t)
consumed-revoked hash user_id family_id now [] d n = tt
consumed-revoked hash user_id family_id now (x ∷ t) d n = elim (Bool-cases (x.token_hash == hash)) [
  | inl e ↦
      let same : x.token_hash ≡ hash = ground arith in
      let rest : Fresh hash_of hash t = rw (← same) d.0 in
      (
        (λ _. ground (arith, Fresh-count hash user_id family_id now t rest)),
        Fresh-revoked hash (consumable hash user_id family_id now) now t rest,
      )
  | inr e ↦ ((λ q. ground arith), consumed-revoked hash user_id family_id now t d.1 (ground arith))
]

renew-Spent :
    (hash user_id family_id now next next_expires_at : ℕ) (t : List RefreshToken)
    → Distinct hash_of t
    → count (consumable hash user_id family_id now) t ≡ 1
    → any
        (token_clash (new_token user_id family_id next next_expires_at))
        (map_where (consumable hash user_id family_id now) (revoke_token_at now) t)
      ≡ false
    → Spent hash (
        new_token user_id family_id next next_expires_at
        ∷ map_where (consumable hash user_id family_id now) (revoke_token_at now) t)
renew-Spent hash user_id family_id now next next_expires_at t d one new =
    store-Spent hash user_id family_id next next_expires_at _ new (record {
      stored =
          rw (revoke-stored hash (consumable hash user_id family_id now) now t)
            (count-stored hash user_id family_id now t (omega arith));
      revoked = consumed-revoked hash user_id family_id now t d one;
    })

module _ (prisma : Prisma) (hash_token : ℕ → ℕ) where
  -- Every method of the service keeps the hashes of the stored tokens distinct and at most one token
  -- of each family unrevoked, if a token is stored only in a family that has no unrevoked one, and if
  -- the other requests that run inside `revokeToken` keep both.
  pub after-Inv :
      (op : Op) (s : Db)
      → Allowed Inv op s
      → Inv s.refresh_tokens
      → Inv (after prisma hash_token op s).refresh_tokens
  after-Inv op s a v = after_keeps prisma hash_token Inv revoke-Inv store-Inv renew-Inv op s a v

  -- A history of method calls; each is allowed where it is made.
  pub run : List Op → Db → Db
  run [] s = s
  run (op ∷ ops) s = run ops (after prisma hash_token op s)

  abbrev pub AllAllowed : (List RefreshToken → Type 0) → List Op → Db → Type 0
  AllAllowed P [] s = Unit
  AllAllowed P (op ∷ ops) s = Allowed P op s × AllAllowed P ops (after prisma hash_token op s)

  run-Spent :
      (h : ℕ) (ops : List Op) (s : Db)
      → AllAllowed (Spent h) ops s
      → Spent h s.refresh_tokens
      → Spent h (run ops s).refresh_tokens
  unfolding run
  run-Spent h [] s a v = v
  run-Spent h (op ∷ ops) s a v = run-Spent h ops (after prisma hash_token op s) a.1 (
      after_keeps prisma hash_token (Spent h) (revoke-Spent h)
        (λ u f k x t n _ w. store-Spent h u f k x t n w)
        (λ k u f now next x t _ n w.
          store-Spent h u f next x _ n (revoke-Spent h (consumable k u f now) now t w))
        op s a.0 v)

  Spent-refused :
      (current user_id family_id next next_expires_at now reused_at : ℕ) (s : Db)
      → Spent (hash_token current) s.refresh_tokens
      → (rotate_token prisma hash_token current user_id family_id next next_expires_at now reused_at
          s).0
        ≢ ok rotated
  Spent-refused current user_id family_id next next_expires_at now reused_at s v =
      let zero = Spent-none (hash_token current) user_id family_id now s.refresh_tokens v.revoked in
      elim (rotate_cases prisma hash_token current user_id family_id next next_expires_at now
        reused_at s) [
          | no_family _ w ↦ rw w (λ e. cc)
          | done _ c _ w ↦ absurd (ground arith)
          | clashed _ c w ↦ absurd (ground arith)
          | refused _ _ w ↦ rw w (λ e. cc)
          | replayed t _ _ _ _ w ↦ rw w (λ e. cc)
        ]

  -- A refresh token rotates once. If the stored hashes are distinct and `rotateToken` succeeds with a
  -- token, then after any further history of method calls, whatever users, families, times and new
  -- tokens they name, `rotateToken` with that token never succeeds again.
  pub rotate_once :
      (current user_id family_id next next_expires_at now reused_at : ℕ) (s t : Db) (ops : List Op)
      (user_id' family_id' next' next_expires_at' now' reused_at' : ℕ)
      → Distinct hash_of s.refresh_tokens
      → rotate_token prisma hash_token current user_id family_id next next_expires_at now reused_at
          s
        ≡ (ok rotated, t)
      → AllAllowed (Spent (hash_token current)) ops t
      → (rotate_token prisma hash_token current user_id' family_id' next' next_expires_at' now'
          reused_at'
          (run ops t)).0
        ≢ ok rotated
  rotate_once current user_id family_id next next_expires_at now reused_at s t ops u' f' n' x' now'
        r' d h a =
      Spent-refused current u' f' n' x' now' r' (run ops t) (
        run-Spent (hash_token current) ops t a
          (elim (rotate_cases prisma hash_token current user_id family_id next next_expires_at now
            reused_at s) [
              | no_family _ w ↦ absurd (cc)
              | done _ c n w ↦
                  let end : token_stored
                        (new_token user_id family_id (hash_token next) next_expires_at)
                        (token_consumed (hash_token current) user_id family_id now s)
                      ≡ t =
                    cc in
                  rw (← end) (
                    renew-Spent (hash_token current) user_id family_id now (hash_token next)
                      next_expires_at s.refresh_tokens d (ground arith) n)
              | clashed _ c w ↦ absurd (cc)
              | refused _ _ w ↦ absurd (cc)
              | replayed t _ _ _ _ w ↦ absurd (cc)
            ]))
