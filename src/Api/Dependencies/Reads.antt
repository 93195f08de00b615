-- ===== src/Api/Dependencies/Reads.antt =====
-- Authentication only reads, and what it has checked of the principal.
use identity_access_service.Base.{true, Option, List, ◌≡◌, arith, nat_eq}
use identity_access_service.Errors.{ok}
use identity_access_service.Models.{Role, role_eq}
use identity_access_service.Db.Session.{Session, ◌>>=◌}
use identity_access_service.Core.Context.{Context}
use identity_access_service.Core.Principal.{CurrentPrincipal}
use identity_access_service.Services.Auth.Issue.{tenant_of}
use identity_access_service.Services.Tenants.{is_among}
use identity_access_service.Api.Dependencies.{Credentials, get_current_principal, require_roles}

module _ (c : Context) (credentials : Option Credentials) (s : Session) where
  pub get_current_principal_reads : (get_current_principal c credentials s).1 ≡ s
  unfolding get_current_principal tenant_of ◌>>=◌
  get_current_principal_reads = ground arith

  pub require_roles_reads : (allowed : List Role) → (require_roles c allowed credentials s).1 ≡ s
  unfolding require_roles ◌>>=◌
  require_roles_reads allowed = ground (arith, get_current_principal_reads)

  pub require_roles_sound :
      (allowed : List Role) {p : CurrentPrincipal}
      → (require_roles c allowed credentials s).0 ≡ ok p
      → ((get_current_principal c credentials s).0 ≡ ok p) × (is_among p.role allowed ≡ true)
  unfolding require_roles ◌>>=◌
  require_roles_sound allowed h = ground (arith, get_current_principal_reads)
