-- ===== src/Api/Rbac.antt =====
-- app/api/v1/endpoints/rbac.py
use identity_access_service.Base.{Option, [], ◌∷◌}
use identity_access_service.Models.{sys_admin}
use identity_access_service.Db.Session.{Action, ◌>>=◌, ◌>>◌}
use identity_access_service.Core.Context.{Context}
use identity_access_service.Services.Tenants.{admin_roles}
use identity_access_service.Services.Rbac.{
  PrincipalResponse, TenantAdminSummaryResponse, SystemAdminSummaryResponse,
  build_principal_response, build_tenant_admin_summary, build_system_admin_summary,
}
use identity_access_service.Api.Http.{Reply, reply}
use identity_access_service.Api.Dependencies.{Credentials, get_current_principal, require_roles}

module _ (c : Context) (credentials : Option Credentials) where
  unfoldable pub read_current_principal : Action (Reply PrincipalResponse)
  read_current_principal = do
    principal ← get_current_principal c credentials
    reply 200 (build_principal_response principal)

  unfoldable pub read_tenant_admin_summary : Action (Reply TenantAdminSummaryResponse)
  read_tenant_admin_summary = do
    principal ← require_roles c admin_roles credentials
    summary ← build_tenant_admin_summary principal
    reply 200 summary

  unfoldable pub read_system_admin_summary : Action (Reply SystemAdminSummaryResponse)
  read_system_admin_summary = do
    require_roles c (sys_admin ∷ []) credentials
    summary ← build_system_admin_summary
    reply 200 summary
