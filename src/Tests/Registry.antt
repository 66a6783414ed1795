-- ===== src/Tests/Registry.antt =====
-- src/trust-registry, src/jobs and the guards at concrete inputs.
use ssi_academic_credential.Common.{String, [], ◌∷◌, none, some, ◌≡◌, refl, arith, false, Option}
use ssi_academic_credential.Database.{
  Db, empty_db, TrustedIssuerStatus, OrganizationType, OrganizationStatus, UserRole,
}
use ssi_academic_credential.Trust.{is_trusted}
use ssi_academic_credential.Trust.Theorems as Trust
use ssi_academic_credential.Trust.Theorems.{Distrusted, after-Distrusted}
use ssi_academic_credential.Jobs.Claims as Jobs
use ssi_academic_credential.Jobs.Claims.{after-Jobs}
use ssi_academic_credential.Access.{
  AccessTokenPayload, RequestUser, Granted, guarded, guarded_ok, authenticate, check_roles,
}
use ssi_academic_credential.Tests.Memory.{memory}

abbrev others : Db → Db
others d = d

abbrev one_suspended : Db
one_suspended = record empty_db {
  organizations =
      record {
        id = 5;
        name = "University";
        type = OrganizationType.university;
        status = OrganizationStatus.active;
      }
      ∷ record {
        id = 6;
        name = "Bank";
        type = OrganizationType.bank;
        status = OrganizationStatus.active;
      }
      ∷ [];
  users =
      record { id = 9; name = "Holder"; email = "h@x"; password_hash = 1; role = UserRole.holder }
      ∷ [];
  trusted_issuers =
      record {
        id = 1;
        organization_id = 5;
        issuer_did = 50;
        status = TrustedIssuerStatus.suspended;
        approved_by = 2;
        suspended_at = some 10;
      }
      ∷ [];
}

one_suspended-Distrusted : Distrusted 50 one_suspended
one_suspended-Distrusted = record {
  registered = λ e. absurd (omega arith);
  distrusted = ((λ e. refl), tt);
}

abbrev again : Trust.Call
again = Trust.Call.adds 3 (record { organization_id = 5; issuer_did = 50; approved_by = 2 })

after-Distrusted_example :
    Distrusted 50 (Trust.after memory others again one_suspended)
    × (is_trusted memory 50 (Trust.after memory others again one_suspended) ≡ false)
after-Distrusted_example =
    after-Distrusted memory 50 others (λ s v. v) again one_suspended one_suspended-Distrusted

abbrev opening : Jobs.Call
opening =
    Jobs.Call.creates 8 (record {
      bank_id = 6;
      title = "Analyst";
      description = none;
      required_claims = "degree" ∷ [];
    })

after-Jobs_example : Jobs.Jobs (Jobs.after memory others opening one_suspended)
after-Jobs_example = after-Jobs memory others (λ s v. v) opening one_suspended tt

abbrev verify : String → Option AccessTokenPayload
verify token = some (record { sub = some 9; email = "h@x"; role = UserRole.system_admin })

abbrev holder : RequestUser
holder = record { sub = 9; email = "h@x"; role = UserRole.holder }

guarded_ok_example :
    Granted memory verify (UserRole.holder ∷ []) (some ("Bearer" ∷ "t" ∷ [])) one_suspended holder
    × (one_suspended ≡ one_suspended)
unfolding guarded authenticate check_roles
guarded_ok_example =
    guarded_ok memory verify (UserRole.holder ∷ []) (some ("Bearer" ∷ "t" ∷ [])) one_suspended
      holder one_suspended refl
