-- ===== src/Services/Rbac.antt =====
-- app/services/rbac.py
pub mod Totals
use identity_access_service.Base.{
  ℕ, String, Bool, true, Option, none, some, filter, length, ◌==◌, ◌&&◌, not, nat_eq, if◌then◌else◌,
}
use identity_access_service.Models.{
  Uuid, Tenant, User, Role, sys_admin, tenant_admin, user, role_eq,
}
use identity_access_service.Db.{Db}
use identity_access_service.Db.Session.{Action, pure, query, ◌>>=◌}
use identity_access_service.Core.Principal.{CurrentPrincipal}

-- app/schemas/rbac.py
pub record PrincipalTenantResponse : Type 0 where
  pub id : Uuid
  pub name : String
  pub slug : String

pub record PrincipalResponse : Type 0 where
  pub id : Uuid
  pub email : String
  pub full_name : String
  pub role : Role
  pub tenant : PrincipalTenantResponse

pub record TenantAdminSummaryResponse : Type 0 where
  pub tenant_id : Uuid
  pub tenant_name : String
  pub tenant_slug : String
  pub total_users : ℕ
  pub active_users : ℕ
  pub tenant_admins : ℕ
  pub standard_users : ℕ

pub record SystemAdminSummaryResponse : Type 0 where
  pub total_tenants : ℕ
  pub active_tenants : ℕ
  pub total_users : ℕ
  pub system_admins : ℕ
  pub tenant_admins : ℕ
  pub standard_users : ℕ

unfoldable pub build_principal_response : CurrentPrincipal → PrincipalResponse
build_principal_response principal = record {
  id = principal.user_id;
  email = principal.email;
  full_name = principal.full_name;
  role = principal.role;
  tenant = record {
    id = principal.tenant_id;
    name = principal.tenant_name;
    slug = principal.tenant_slug;
  };
}

-- `column.is_(value)`, where the filter is given
abbrev pub is_value : Option Bool → Bool → Bool
is_value none column = true
is_value (some value) column = if value then column else not column

abbrev pub is_in : Option Uuid → User → Bool
is_in none u = true
is_in (some tenant_id) u = u.tenant_id == tenant_id

abbrev pub has_role : Option Role → User → Bool
has_role none u = true
has_role (some role) u = u.role == role

-- `_count_tenants`
unfoldable pub count_tenants : Option Bool → Db → ℕ
count_tenants is_active db =
    length (filter (λ (t : Tenant). is_value is_active t.is_active) db.tenants)

-- `_count_users`
unfoldable pub count_users : Option Uuid → Option Role → Option Bool → Db → ℕ
count_users tenant_id role is_active db = length (
    filter (λ (u : User). is_in tenant_id u && (has_role role u && is_value is_active u.is_active))
      db.users)

unfoldable pub build_tenant_admin_summary : CurrentPrincipal → Action TenantAdminSummaryResponse
unfolding count_users
build_tenant_admin_summary principal = do
  total_users ← query (count_users (some principal.tenant_id) none none)
  active_users ← query (count_users (some principal.tenant_id) none (some true))
  tenant_admins ← query (count_users (some principal.tenant_id) (some tenant_admin) none)
  standard_users ← query (count_users (some principal.tenant_id) (some user) none)
  pure (record {
    tenant_id = principal.tenant_id;
    tenant_name = principal.tenant_name;
    tenant_slug = principal.tenant_slug;
    total_users = total_users;
    active_users = active_users;
    tenant_admins = tenant_admins;
    standard_users = standard_users;
  })

unfoldable pub build_system_admin_summary : Action SystemAdminSummaryResponse
unfolding count_users count_tenants
build_system_admin_summary = do
  total_tenants ← query (count_tenants none)
  active_tenants ← query (count_tenants (some true))
  total_users ← query (count_users none none none)
  system_admins ← query (count_users none (some sys_admin) none)
  tenant_admins ← query (count_users none (some tenant_admin) none)
  standard_users ← query (count_users none (some user) none)
  pure (record {
    total_tenants = total_tenants;
    active_tenants = active_tenants;
    total_users = total_users;
    system_admins = system_admins;
    tenant_admins = tenant_admins;
    standard_users = standard_users;
  })
