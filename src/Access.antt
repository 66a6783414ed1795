-- ===== src/Access.antt =====
-- Who may call what: src/auth/guards/jwt-auth.guard.ts and src/common/guards/roles.guard.ts. The
-- check of a JSON Web Token, by @nestjs/jwt, is the parameter `verify`; it throws on a token that is
-- not valid. The header is given by its parts between spaces, and no request is without the roles
-- that its handler or class asks for.
use ssi_academic_credential.Common.{
  ℕ, String, Bool, true, false, not, ◌||◌, List, [], ◌∷◌, Option, none, some, ok, Error, Action,
  ◌==◌, if◌then◌else◌, ◌≡◌, refl, arith, any, Option-cases, Bool-cases, inl, inr, In, ◌>>=◌, ◌>>◌,
  pure, or_raise, raise_if, gets, unauthorized, forbidden, ◌⊎◌,
}
use ssi_academic_credential.Text.{◌===◌, is_empty}
use ssi_academic_credential.Prisma.{Prisma}
use ssi_academic_credential.Database.{Db, User, UserRole, user_role_eq}

pub record AccessTokenPayload : Type 0 where
  pub sub : Option ℕ
  pub email : String
  pub role : UserRole

-- `request.user`.
pub record RequestUser : Type 0 where
  pub sub : ℕ
  pub email : String
  pub role : UserRole

abbrev pub request_user : User → RequestUser
request_user u = record { sub = u.id; email = u.email; role = u.role }

abbrev pub extract_token : Option (List String) → Option String
extract_token (some (type ∷ token ∷ _)) =
    if not (type === "Bearer") || is_empty token then none else some token
extract_token _ = none

abbrev pub of_id : ℕ → User → Bool
of_id id u = u.id == id

abbrev pub expired_token : Error
expired_token = unauthorized "Invalid or expired access token"

abbrev pub includes_role : List UserRole → UserRole → Bool
includes_role roles role = any (λ r. user_role_eq r role) roles

abbrev pub refused : List UserRole → Option RequestUser → Bool
refused [] user = false
refused (r ∷ rs) none = true
refused (r ∷ rs) (some user) = not (includes_role (r ∷ rs) user.role)

-- `RolesGuard.canActivate`.
unfoldable pub check_roles : List UserRole → Option RequestUser → Action Db (Unit {0})
check_roles roles user = raise_if (refused roles user) (forbidden "Insufficient permissions")

module _ (prisma : Prisma) (verify : String → Option AccessTokenPayload) where
  -- `JwtAuthGuard.canActivate`, with the user that it puts into the request.
  unfoldable pub authenticate : Option (List String) → Action Db RequestUser
  authenticate authorization = do
    token ← or_raise (extract_token authorization) (unauthorized "Access token is required")
    payload ← or_raise (verify token) expired_token
    sub ← or_raise payload.sub expired_token
    s ← gets (λ s. s)
    user ← or_raise (prisma.find_first (of_id sub) s.users) expired_token
    pure (request_user user)

  -- The two guards of a handler, in the order in which the controllers name them.
  unfoldable pub guarded : List UserRole → Option (List String) → Action Db RequestUser
  unfolding authenticate check_roles
  guarded roles authorization = do
    user ← authenticate authorization
    check_roles roles (some user)
    pure user

  -- What a request has shown that gets through both guards.
  pub record Granted (roles : List UserRole) (authorization : Option (List String)) (s : Db)
      (r : RequestUser) : Type 0 where
    pub token : String
    pub payload : AccessTokenPayload
    pub user : User
    pub sent : extract_token authorization ≡ some token
    pub valid : verify token ≡ some payload
    pub named : payload.sub ≡ some user.id
    pub stored : In user s.users
    pub same : request_user user ≡ r
    pub allowed : (roles ≡ []) ⊎ (includes_role roles user.role ≡ true)

  allowed_roles :
      (roles : List UserRole) (u : RequestUser)
      → refused roles (some u) ≡ false
      → (roles ≡ []) ⊎ (includes_role roles u.role ≡ true)
  allowed_roles [] u h = inl refl
  allowed_roles (r ∷ rs) u h = inr (ground arith)

  -- A request gets through both guards only if its header carries a token that is valid and names a
  -- stored user, whose role in the database, not in the token, is one of those the handler asks for, if
  -- it asks for any; the handler then sees this user, and nothing is written.
  pub guarded_ok :
      (roles : List UserRole) (authorization : Option (List String)) (s : Db) (r : RequestUser)
      (t : Db)
      → guarded roles authorization s ≡ (ok r, t)
      → Granted roles authorization s r × (t ≡ s)
  unfolding guarded authenticate check_roles
  guarded_ok roles authorization s r t h = elim (Option-cases (extract_token authorization)) [
    | inl e ↦ absurd (ground arith)
    | inr (token, e) ↦ elim (Option-cases (verify token)) [
      | inl q ↦ absurd (ground arith)
      | inr (payload, q) ↦ elim (Option-cases payload.sub) [
        | inl u ↦ absurd (ground arith)
        | inr (sub, u) ↦ elim (Option-cases (prisma.find_first (of_id sub) s.users)) [
          | inl f ↦ absurd (ground arith)
          | inr (user, f) ↦ elim (Bool-cases (refused roles (some (request_user user)))) [
            | inl n ↦ absurd (ground arith)
            | inr n ↦
                let (own, stored) = prisma.find_first-some _ _ _ f in
                (
                  record {
                    token = token;
                    payload = payload;
                    user = user;
                    sent = e;
                    valid = q;
                    named = ground arith;
                    stored = stored;
                    same = ground arith;
                    allowed = allowed_roles roles (request_user user) n;
                  },
                  ground arith,
                )
          ]
        ]
      ]
    ]
  ]
