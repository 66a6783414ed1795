-- ===== src/Auth/Sessions.antt =====
-- src/auth/auth.service.ts: login, refresh and logout. @nestjs/jwt and argon2 are the parameter `Jwt`;
-- tokens and passwords are numbers, since they are only compared.
pub mod Refresh
use ssi_academic_credential.Common.{
  ℕ, ◌*◌, String, Bool, true, false, not, [], ◌∷◌, Option, none, some, ok, Error, Action,
  unauthorized, server_error, unique_violation, ◌>>=◌, ◌>>◌, pure, raise_if, or_raise, gets, modify,
  ◌==◌,
}
use ssi_academic_credential.Text.{◌===◌}
use ssi_academic_credential.Prisma.{Prisma}
use ssi_academic_credential.Database.{Db, Json, object, str, User, UserRole, AuditLog}
use ssi_academic_credential.Auth.RefreshTokens.{
  RotateTokenResult, create_family, store_token, rotate_token, revoke_token,
}

pub record RefreshTokenPayload : Type 0 where
  pub sub : ℕ
  pub jti : Option ℕ
  pub family_id : Option ℕ

pub record TokenPair : Type 0 where
  pub access_token : ℕ
  pub refresh_token : ℕ
  pub refresh_token_expires_at : ℕ

-- What the service uses of @nestjs/jwt and argon2: `expiry` is the claim `exp` of a token, in seconds.
pub record Jwt : Type 0 where
  pub sign_access : User → ℕ
  pub sign_refresh : User → (jti family_id : ℕ) → ℕ
  pub expiry : ℕ → Option ℕ
  pub verify_refresh : ℕ → Option RefreshTokenPayload
  pub verify_password : (password_hash password : ℕ) → Bool

abbrev pub invalid_refresh_token : Error
invalid_refresh_token = unauthorized "Invalid refresh token"

abbrev pub invalid_login : Error
invalid_login = unauthorized "Invalid email or password"

abbrev pub no_expiry : Error
no_expiry = server_error "Refresh token expiration could not be determined"

abbrev pub is_rotated : RotateTokenResult → Bool
is_rotated RotateTokenResult.rotated = true
is_rotated _ = false

abbrev pub role_name : UserRole → String
role_name UserRole.holder = "HOLDER"
role_name UserRole.issuer_admin = "ISSUER_ADMIN"
role_name UserRole.verifier_admin = "VERIFIER_ADMIN"
role_name UserRole.system_admin = "SYSTEM_ADMIN"

abbrev pub session_log : (user_id : ℕ) → String → Option Json → AuditLog
session_log user_id action metadata = record {
  actor_id = some user_id;
  organization_id = none;
  action = action;
  resource_type = some "User";
  resource_id = some user_id;
  metadata = metadata;
}

module _ (prisma : Prisma) (hash_token : ℕ → ℕ) (jwt : Jwt) where
  unfoldable pub create_token_pair : User → (jti family_id : ℕ) → Action Db TokenPair
  create_token_pair user jti family_id = do
    let token = jwt.sign_refresh user jti family_id
    exp ← or_raise (jwt.expiry token) no_expiry
    raise_if (exp == 0) no_expiry
    pure (record {
      access_token = jwt.sign_access user;
      refresh_token = token;
      refresh_token_expires_at = exp * 1000;
    })

  unfoldable pub issue_tokens : User → (jti family_id : ℕ) → Action Db TokenPair
  unfolding create_token_pair
  issue_tokens user jti family_id = do
    tokens ← create_token_pair user jti family_id
    store_token prisma hash_token user.id family_id tokens.refresh_token
        tokens.refresh_token_expires_at
    pure tokens

  -- `family_id` and `jti` are fresh.
  unfoldable pub login : (family_id jti : ℕ) (email : String) (password : ℕ) → Action Db TokenPair
  unfolding issue_tokens
  login family_id jti email password = do
    s ← gets (λ s. s)
    user ← or_raise (prisma.find_first (λ (u : User). u.email === email) s.users) invalid_login
    raise_if (not (jwt.verify_password user.password_hash password)) invalid_login
    create_family prisma hash_token family_id user.id
    tokens ← issue_tokens user jti family_id
    s ← gets (λ s. s)
    logs ←
        or_raise
          (prisma.create (λ _ _. false)
            (session_log user.id "LOGIN" (some (object (("role", str (role_name user.role)) ∷ []))))
            s.audit_logs)
          unique_violation
    modify (λ s. record s { audit_logs = logs })
    pure tokens

  unfoldable pub find_session : (token : ℕ) → Action Db (User × ℕ)
  find_session token = do
    payload ← or_raise (jwt.verify_refresh token) invalid_refresh_token
    s ← gets (λ s. s)
    user ←
        or_raise (prisma.find_first (λ (u : User). u.id == payload.sub) s.users)
          invalid_refresh_token
    family_id ← or_raise payload.family_id invalid_refresh_token
    or_raise payload.jti invalid_refresh_token
    pure (user, family_id)

  -- `others` is what other requests do between the checks and the rotation.
  unfoldable pub rotate_to :
      (token : ℕ) → User → (family_id now reused_at : ℕ) → TokenPair → Action Db TokenPair
  rotate_to token user family_id now reused_at next = do
    result ←
        rotate_token prisma hash_token token user.id family_id next.refresh_token
          next.refresh_token_expires_at now reused_at
    raise_if (not (is_rotated result)) invalid_refresh_token
    pure next

  unfoldable pub refresh : (others : Db → Db) (jti now reused_at token : ℕ) → Action Db TokenPair
  unfolding find_session create_token_pair rotate_to
  refresh others jti now reused_at token = do
    x ← find_session token
    modify others
    next ← create_token_pair x.0 jti x.1
    rotate_to token x.0 x.1 now reused_at next

  unfoldable pub logout : (others : Db → Db) (user_id token now : ℕ) → Action Db (Unit {0})
  logout others user_id token now = do
    revoke_token prisma hash_token others token user_id now
    s ← gets (λ s. s)
    logs ←
        or_raise (prisma.create (λ _ _. false) (session_log user_id "LOGOUT" none) s.audit_logs)
          unique_violation
    modify (λ s. record s { audit_logs = logs })
