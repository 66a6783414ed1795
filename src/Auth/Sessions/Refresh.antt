-- ===== src/Auth/Sessions/Refresh.antt =====
-- What `refresh` of src/auth/auth.service.ts has done when it hands out tokens.
use ssi_academic_credential.Common.{
  ℕ, ◌*◌, ◌<◌, true, false, not, Option, none, some, ok, ◌==◌, Action, ◌>>=◌, ◌>>◌, pure, raise_if,
  or_raise, gets, modify, ◌≡◌, ◌≢◌, refl, sym, ap, subst, ◌∙◌, arith, In, count-pos, bind_inv,
  pure_ok, or_raise_then, raise_if_then,
}
use ssi_academic_credential.Prisma.{Prisma}
use ssi_academic_credential.Database.{Db, User, RefreshToken, RefreshTokenFamily}
use ssi_academic_credential.Auth.RefreshTokens.{
  RotateTokenResult, rotate_token, new_token, consumable, active_family, is_null,
}
use ssi_academic_credential.Auth.RefreshTokens.Cases.{
  token_consumed, token_stored, no_family, done, clashed, refused, replayed, rotate_cases,
}
use ssi_academic_credential.Auth.Sessions.{
  Jwt, RefreshTokenPayload, TokenPair, invalid_refresh_token, no_expiry, is_rotated,
  create_token_pair, find_session, rotate_to, refresh,
}

null_none : (o : Option ℕ) → is_null o ≡ true → o ≡ none
null_none none h = refl
null_none (some n) h = absurd (cc)

some_other : {A : Type 0} (o : Option A) (a : A) → o ≡ some a → o ≢ none
some_other o a e n = absurd (cc)

equal : (m n : ℕ) → (m == n) ≡ true → m ≡ n
equal m n h = ground arith

nonzero : (n : ℕ) → (n == 0) ≡ false → n ≢ 0
nonzero n h = λ e. absurd (ground arith)

module _ (prisma : Prisma) (hash_token : ℕ → ℕ) (jwt : Jwt) where
  rotate_to_ok :
      (token : ℕ) (user : User) (family_id now reused_at : ℕ) (next : TokenPair) (s : Db)
      (out : TokenPair) (t : Db)
      → rotate_to prisma hash_token jwt token user family_id now reused_at next s ≡ (ok out, t)
      → (out ≡ next)
        × (rotate_token prisma hash_token token user.id family_id next.refresh_token
              next.refresh_token_expires_at now reused_at s
            ≡ (ok RotateTokenResult.rotated, t))
  unfolding rotate_to
  rotate_to_ok token user family_id now reused_at next s out t h =
      let (r, u, e, q) =
        bind_inv
          (rotate_token prisma hash_token token user.id family_id next.refresh_token
            next.refresh_token_expires_at now reused_at)
          (λ r. raise_if (not (is_rotated r)) invalid_refresh_token >> pure next) s out t h in
      elim r
          as (λ r.
            (rotate_token prisma hash_token token user.id family_id next.refresh_token
                next.refresh_token_expires_at now reused_at s
              ≡ (ok r, u))
            → ((raise_if (not (is_rotated r)) invalid_refresh_token >> pure next) u ≡ (ok out, t))
            → (out ≡ next)
              × (rotate_token prisma hash_token token user.id family_id next.refresh_token
                    next.refresh_token_expires_at now reused_at s
                  ≡ (ok RotateTokenResult.rotated, t))) [
                    | RotateTokenResult.rotated ↦ λ e q. (cc, cc)
                    | RotateTokenResult.reused ↦ λ e q. absurd (cc)
                    | RotateTokenResult.invalid ↦ λ e q. absurd (cc)
                  ]
        e q

  -- Whose session a token is of: the payload is that of a valid token, and names a stored user.
  pub record Session (token : ℕ) (s : Db) (user : User) (family_id : ℕ) : Type 0 where
    pub payload : RefreshTokenPayload
    pub valid : jwt.verify_refresh token ≡ some payload
    pub family : payload.family_id ≡ some family_id
    pub identified : payload.jti ≢ none
    pub stored : In user s.users
    pub named : user.id ≡ payload.sub

  find_session_ok :
      (token : ℕ) (s : Db) (x : User × ℕ) (u : Db)
      → find_session prisma hash_token jwt token s ≡ (ok x, u)
      → Session token s x.0 x.1 × (u ≡ s)
  unfolding find_session
  find_session_ok token s x u h =
      let k3 : User → RefreshTokenPayload → ℕ → Action Db (User × ℕ) = λ user payload family_id.
        or_raise payload.jti invalid_refresh_token >> pure (user, family_id) in
      let k2 : RefreshTokenPayload → User → Action Db (User × ℕ) =
        λ payload user. or_raise payload.family_id invalid_refresh_token >>= k3 user payload in
      let k1 : RefreshTokenPayload → Action Db (User × ℕ) = λ payload. gets (λ s. s) >>= λ s.
      or_raise (prisma.find_first (λ (u : User). u.id == payload.sub) s.users) invalid_refresh_token
      >>= k2 payload in
      let (payload, valid, h1) =
        or_raise_then (jwt.verify_refresh token) invalid_refresh_token k1 s x u h in
      let (user, found, h2) =
        or_raise_then (prisma.find_first (λ (u : User). u.id == payload.sub) s.users)
          invalid_refresh_token (k2 payload) s x u h1 in
      let (family_id, family, h3) =
        or_raise_then payload.family_id invalid_refresh_token (k3 user payload) s x u h2 in
      let (jti, known, h4) =
        or_raise_then payload.jti invalid_refresh_token (λ _. pure (user, family_id)) s x u h3 in
      let (own, stored) = prisma.find_first-some _ _ _ found in
      let (both, same) = pure_ok (user, family_id) x s u h4 in
      let who : user ≡ x.0 = ap (λ y. y.0) both in
      let which : family_id ≡ x.1 = ap (λ y. y.1) both in
      (
        record {
          payload = payload;
          valid = valid;
          family = family ∙ ap some which;
          identified = some_other payload.jti jti known;
          stored = subst (λ u. In u s.users) who stored;
          named = subst (λ u. u.id ≡ payload.sub) who (equal user.id payload.sub own);
        },
        same,
      )

  -- A pair of tokens that was signed for a user and a family, with the refresh token's own expiry.
  pub record Signed (user : User) (jti family_id : ℕ) (out : TokenPair) : Type 0 where
    pub access : out.access_token ≡ jwt.sign_access user
    pub made : out.refresh_token ≡ jwt.sign_refresh user jti family_id
    pub seconds : ℕ
    pub expiry : jwt.expiry out.refresh_token ≡ some seconds
    pub nonzero_expiry : seconds ≢ 0
    pub expires : out.refresh_token_expires_at ≡ seconds * 1000

  create_token_pair_ok :
      (user : User) (jti family_id : ℕ) (s : Db) (out : TokenPair) (t : Db)
      → create_token_pair prisma hash_token jwt user jti family_id s ≡ (ok out, t)
      → Signed user jti family_id out × (t ≡ s)
  unfolding create_token_pair
  create_token_pair_ok user jti family_id s out t h =
      let token = jwt.sign_refresh user jti family_id in
      let pair : ℕ → TokenPair = λ exp. record {
        access_token = jwt.sign_access user;
        refresh_token = token;
        refresh_token_expires_at = exp * 1000;
      } in
      let k : ℕ → Action Db TokenPair = λ exp. raise_if (exp == 0) no_expiry >> pure (pair exp) in
      let (exp, known, h1) = or_raise_then (jwt.expiry token) no_expiry k s out t h in
      let (positive, h2) = raise_if_then (exp == 0) no_expiry (pure (pair exp)) s out t h1 in
      let (same, reads) = pure_ok (pair exp) out s t h2 in
      (
        subst (Signed user jti family_id) same (record {
          access = refl;
          made = refl;
          seconds = exp;
          expiry = known;
          nonzero_expiry = nonzero exp positive;
          expires = refl;
        }),
        reads,
      )

  -- A live token in an active family of the user.
  pub record Live (token user_id family_id now : ℕ) (s : Db) : Type 0 where
    pub old : RefreshToken
    pub stored : In old s.refresh_tokens
    pub hash : old.token_hash ≡ hash_token token
    pub own : (old.user_id ≡ user_id) × (old.family_id ≡ family_id)
    pub unrevoked : old.revoked_at ≡ none
    pub in_time : now < old.expires_at
    pub family : RefreshTokenFamily
    pub family_stored : In family s.refresh_token_families
    pub family_own : (family.id ≡ family_id) × (family.user_id ≡ user_id)
    pub family_active : family.revoked_at ≡ none

  -- One token has been revoked and one stored.
  abbrev pub Exchanged : (token user_id family_id now : ℕ) → TokenPair → Db → Db → Type 0
  Exchanged token user_id family_id now out s t =
      t
      ≡ token_stored
          (new_token user_id family_id (hash_token out.refresh_token) out.refresh_token_expires_at)
          (token_consumed (hash_token token) user_id family_id now s)

  rotated-Live :
      (token user_id family_id next next_expires_at now reused_at : ℕ) (s t : Db)
      → rotate_token prisma hash_token token user_id family_id next next_expires_at now reused_at s
        ≡ (ok RotateTokenResult.rotated, t)
      → Live token user_id family_id now s
        × (t
            ≡ token_stored
                (new_token user_id family_id (hash_token next) next_expires_at)
                (token_consumed (hash_token token) user_id family_id now s))
  rotated-Live token u k next next_expires_at now reused_at s t h =
      elim (rotate_cases prisma hash_token token u k next next_expires_at now reused_at s) [
        | no_family _ w ↦ absurd (cc)
        | clashed _ _ w ↦ absurd (cc)
        | refused _ _ w ↦ absurd (cc)
        | replayed _ _ _ _ _ w ↦ absurd (cc)
        | done a b _ w ↦
            let (f, stored_f, p) =
              count-pos (active_family k u) s.refresh_token_families (ground arith) in
            let (x, stored, q) =
              count-pos (consumable (hash_token token) u k now) s.refresh_tokens (ground arith) in
            (
              record {
                old = x;
                stored = stored;
                hash = ground arith;
                own = (ground arith, ground arith);
                unrevoked = null_none x.revoked_at (ground arith);
                in_time = ground arith;
                family = f;
                family_stored = stored_f;
                family_own = (ground arith, ground arith);
                family_active = null_none f.revoked_at (ground arith);
              },
              cc,
            )
      ]

  -- `refresh` hands out tokens only for a valid refresh token that names a stored user and a family: the
  -- new pair is signed for this user and family and expires as its refresh token says, and in the
  -- database that the other requests left, the presented token was stored, of this user and family,
  -- neither revoked nor expired, in an active family; exactly it is revoked, and the new one is stored.
  pub refresh_ok :
      (others : Db → Db) (jti now reused_at token : ℕ) (s : Db) (out : TokenPair) (t : Db)
      → refresh prisma hash_token jwt others jti now reused_at token s ≡ (ok out, t)
      → (user : User) × (family_id : ℕ) × Session token s user family_id
        × Signed user jti family_id out
        × Live token user.id family_id now (others s)
        × Exchanged token user.id family_id now out (others s) t
  unfolding refresh
  refresh_ok others jti now reused_at token s out t h =
      let rotate : User × ℕ → TokenPair → Action Db TokenPair =
        λ x. rotate_to prisma hash_token jwt token x.0 x.1 now reused_at in
      let pair : User × ℕ → Action Db TokenPair =
        λ x. create_token_pair prisma hash_token jwt x.0 jti x.1 in
      let (x, u, found, h1) =
        bind_inv (find_session prisma hash_token jwt token)
          (λ x. modify others >> (pair x >>= rotate x)) s out t h in
      let (next, v, made, h2) = bind_inv (pair x) (rotate x) (others u) out t h1 in
      let (same, rotated) = rotate_to_ok token x.0 x.1 now reused_at next v out t h2 in
      let (session, reads) = find_session_ok token s x u found in
      let (signed, rest) = create_token_pair_ok x.0 jti x.1 (others u) next v made in
      let left : v ≡ others s = rest ∙ ap others reads in
      let (live, end) =
        rotated-Live token x.0.id x.1 next.refresh_token next.refresh_token_expires_at now reused_at
          v t rotated in
      (
        x.0,
        x.1,
        session,
        subst (Signed x.0 jti x.1) (sym same) signed,
        subst (Live token x.0.id x.1 now) left live,
        subst (λ o. Exchanged token x.0.id x.1 now o (others s) t) (sym same)
            (subst (λ w. Exchanged token x.0.id x.1 now next w t) left end),
      )
