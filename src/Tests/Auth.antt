-- ===== src/Tests/Auth.antt =====
-- src/auth at concrete inputs. `digest` stands for SHA-256.
use ssi_academic_credential.Common.{
  ℕ, ◌+◌, ◌≡◌, ◌≢◌, refl, ok, [], ◌∷◌, arith, count, ◌<◌, In, none,
}
use ssi_academic_credential.Database.{Db, empty_db, RefreshToken}
use ssi_academic_credential.Auth.RefreshTokens.{
  rotate_token, rotate_body, detect_reuse, rotated, reused, new_token, new_family, live_token,
}
use ssi_academic_credential.Auth.RefreshTokens.Cases.{token_consumed, token_stored, family_revoked}
use ssi_academic_credential.Auth.RefreshTokens.Live.{Inv, after, rotates, revokes_family}
use ssi_academic_credential.Auth.RefreshTokens.Theorems.{after-Inv, run, rotate_once}
use ssi_academic_credential.Auth.RefreshTokens.Reuse.{Ended, after-Ended, reuse-Ended}
use ssi_academic_credential.Tests.Memory.{memory}

abbrev digest : ℕ → ℕ
digest n = n + 1000

-- User 1 is logged in with token 11 in family 3.
abbrev session : Db
session = record empty_db {
  refresh_token_families = new_family 3 1 ∷ [];
  refresh_tokens = new_token 1 3 1011 500 ∷ [];
}

-- After token 11 is exchanged for token 12 at time 100.
abbrev exchanged : Db
exchanged = token_stored (new_token 1 3 1012 600) (token_consumed 1011 1 3 100 session)

exchange : rotate_token memory digest 11 1 3 12 600 100 101 session ≡ (ok rotated, exchanged)
unfolding rotate_token rotate_body
exchange = refl

-- The old token again: the family ends.
abbrev ended : Db
ended = family_revoked 3 1 201 (token_consumed 1011 1 3 200 exchanged)

replay : rotate_token memory digest 11 1 3 13 700 200 201 exchanged ≡ (ok reused, ended)
unfolding rotate_token rotate_body detect_reuse
replay = refl

session-Inv : Inv session.refresh_tokens
session-Inv = record { keys = (tt, tt); single = λ k. ground arith }

after-Inv_example : Inv (after memory digest (rotates 11 1 3 12 600 100 101) session).refresh_tokens
after-Inv_example = after-Inv memory digest (rotates 11 1 3 12 600 100 101) session tt session-Inv

rotate_once_example :
    (rotate_token memory digest 11 1 3 14 800 300 301
      (run memory digest (rotates 12 1 3 13 700 200 201 ∷ []) exchanged)).0
    ≢ ok rotated
rotate_once_example =
    rotate_once memory digest 11 1 3 12 600 100 101 session exchanged
      (rotates 12 1 3 13 700 200 201 ∷ []) 1 3 14 800 300 301 (tt, tt) exchange (tt, tt)

reuse-Ended_example :
    Ended 3 1 ended.refresh_token_families
    × (count (live_token 3 1) ended.refresh_tokens ≡ 0)
    × ((x : RefreshToken) × In x exchanged.refresh_tokens
        × (x.token_hash ≡ digest 11)
        × (x.user_id ≡ 1)
        × (x.family_id ≡ 3)
        × (x.revoked_at ≢ none)
        × (200 < x.expires_at))
reuse-Ended_example =
    reuse-Ended memory digest 3 1 11 13 700 200 201 exchanged ended
      (((λ e. absurd (omega arith)), tt), (tt, tt)) replay

after-Ended_example :
    Ended 3 1 (after memory digest (revokes_family 3 1 400) ended).refresh_token_families
after-Ended_example =
    after-Ended memory digest 3 1 (revokes_family 3 1 400) ended tt
      (record { stored = refl; inactive = refl })
