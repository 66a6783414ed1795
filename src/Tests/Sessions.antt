-- ===== src/Tests/Sessions.antt =====
-- src/auth/auth.service.ts at a concrete input: holder 9 refreshes the token 100 of family 3.
use ssi_academic_credential.Common.{ℕ, [], ◌∷◌, none, some, refl, true}
use ssi_academic_credential.Database.{Db, empty_db, User, UserRole}
use ssi_academic_credential.Auth.RefreshTokens.{rotate_token, rotate_body, store_token}
use ssi_academic_credential.Auth.Sessions.{
  Jwt, TokenPair, refresh, find_session, create_token_pair, rotate_to,
}
use ssi_academic_credential.Auth.Sessions.Refresh.{Session, Signed, Live, Exchanged, refresh_ok}
use ssi_academic_credential.Tests.Memory.{memory}

abbrev jwt : Jwt
jwt = record {
  sign_access = λ u. u.id;
  sign_refresh = λ u jti family_id. jti;
  expiry = λ token. some 5;
  verify_refresh = λ token. some (record { sub = 9; jti = some token; family_id = some 3 });
  verify_password = λ h p. true;
}

abbrev same_hash : ℕ → ℕ
same_hash n = n

abbrev alone : Db → Db
alone d = d

abbrev start : Db
start = record empty_db {
  users =
      record { id = 9; name = "Holder"; email = "h@x"; password_hash = 1; role = UserRole.holder }
      ∷ [];
  refresh_token_families = record { id = 3; user_id = 9; revoked_at = none } ∷ [];
  refresh_tokens =
      record { user_id = 9; family_id = 3; token_hash = 100; expires_at = 900; revoked_at = none }
      ∷ [];
}

abbrev out : TokenPair
out = record { access_token = 9; refresh_token = 101; refresh_token_expires_at = 5000 }

refresh_ok_example :
    (user : User) × (family_id : ℕ) × Session memory same_hash jwt 100 start user family_id
    × Signed memory same_hash jwt user 101 family_id out
    × Live memory same_hash jwt 100 user.id family_id 500 (alone start)
    × Exchanged memory same_hash jwt 100 user.id family_id 500 out
        (alone start)
        (refresh memory same_hash jwt alone 101 500 501 100 start).1
unfolding refresh find_session create_token_pair rotate_to rotate_token rotate_body store_token
refresh_ok_example =
    refresh_ok memory same_hash jwt alone 101 500 501 100 start out
      (refresh memory same_hash jwt alone 101 500 501 100 start).1 refl
