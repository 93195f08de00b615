-- ===== src/Api/Dependencies/Authenticated.antt =====
-- Whom `get_current_principal` lets in.
use identity_access_service.Base.{
  true, Option, some, ◌≡◌, ◌↔◌, arith, nat_eq, Option-cases, inl, inr,
}
use identity_access_service.Errors.{ok}
use identity_access_service.Models.{User, Tenant, role_eq}
use identity_access_service.Db.{Db, user_by_id, tenant_by_id}
use identity_access_service.Db.Session.{Session, ◌>>=◌}
use identity_access_service.Core.Context.{Context}
use identity_access_service.Core.Principal.{CurrentPrincipal}
use identity_access_service.Core.Security.{AccessTokenClaims, decode_access_token}
use identity_access_service.Services.Auth.Issue.{tenant_of}
use identity_access_service.Api.Dependencies.{
  Credentials, get_current_principal, is_bearer, bearer_token,
}

abbrev pub principal_of : User → Tenant → CurrentPrincipal
principal_of user tenant = record {
  user_id = user.id;
  tenant_id = user.tenant_id;
  role = user.role;
  email = user.email;
  full_name = user.full_name;
  tenant_slug = tenant.slug;
  tenant_name = tenant.name;
}

-- The credentials are a bearer token that decodes, its user is there with the tenant and the role that
-- the token claims, and both the user and the tenant are active.
pub record IsAuthenticated (c : Context) (given : Option Credentials) (db : Db)
    (p : CurrentPrincipal) : Type 0 where
  pub bearer : is_bearer given ≡ true
  pub claims : AccessTokenClaims
  pub decoded : decode_access_token c (bearer_token given) ≡ some claims
  pub user : User
  pub found : user_by_id claims.user_id db ≡ some user
  pub user_active : user.is_active ≡ true
  pub tenant : Tenant
  pub home : tenant_by_id user.tenant_id db ≡ some tenant
  pub tenant_active : tenant.is_active ≡ true
  pub same_tenant : user.tenant_id ≡ claims.tenant_id
  pub same_role : user.role ≡ claims.role
  pub described : p ≡ principal_of user tenant

module _ (c : Context) (given : Option Credentials) (s : Session) where
  lets_in :
      {p : CurrentPrincipal}
      → IsAuthenticated c given s.db p
      → (get_current_principal c given s).0 ≡ ok p
  unfolding get_current_principal tenant_of ◌>>=◌
  lets_in a = ground (
    arith,
    a.bearer,
    a.decoded,
    a.found,
    a.user_active,
    a.home,
    a.tenant_active,
    a.same_tenant,
    a.same_role,
    a.described,
    nat_eq.reflects a.user.tenant_id a.claims.tenant_id,
  )

  let_in :
      {p : CurrentPrincipal}
      → (get_current_principal c given s).0 ≡ ok p
      → IsAuthenticated c given s.db p
  unfolding get_current_principal tenant_of ◌>>=◌
  let_in {p} h = elim (Option-cases (decode_access_token c (bearer_token given))) [
    | inl e ↦ absurd (ground arith)
    | inr (claims, decoded) ↦ elim (Option-cases (user_by_id claims.user_id s.db)) [
      | inl e ↦ absurd (ground arith)
      | inr (user, found) ↦ elim (Option-cases (tenant_by_id user.tenant_id s.db)) [
        | inl e ↦ absurd (ground arith)
        | inr (tenant, home) ↦ record {
          bearer = ground arith;
          claims = claims;
          decoded = decoded;
          user = user;
          found = found;
          user_active = ground arith;
          tenant = tenant;
          home = home;
          tenant_active = ground arith;
          same_tenant = ground (arith, nat_eq.reflects user.tenant_id claims.tenant_id);
          same_role = ground (arith);
          described = ground arith;
        }
      ]
    ]
  ]

  -- `get_current_principal` answers with a principal exactly when the credentials are a bearer token that
  -- decodes to claims, the claimed user is there and active, its tenant is there and active, the user's
  -- stored tenant and role are the claimed ones, and the principal is described by those rows.
  pub get_current_principal_iff :
      (p : CurrentPrincipal)
      → ((get_current_principal c given s).0 ≡ ok p) ↔ IsAuthenticated c given s.db p
  get_current_principal_iff p = (let_in, lets_in)
