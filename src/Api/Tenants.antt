-- ===== src/Api/Tenants.antt =====
-- app/api/v1/endpoints/tenants.py
use identity_access_service.Base.{List, Option, [], ◌∷◌}
use identity_access_service.Errors.{
  Error, http_exception, tenant_conflict, tenant_not_found, tenant_access_denied,
}
use identity_access_service.Models.{Uuid, sys_admin}
use identity_access_service.Db.Session.{Action, ◌>>=◌, ◌>>◌}
use identity_access_service.Core.Context.{Context, Client}
use identity_access_service.Services.Tenants.{
  TenantCreateRequest, TenantUpdateRequest, TenantResponse, list_tenants, create_tenant,
  get_current_tenant, get_tenant, update_tenant,
}
use identity_access_service.Api.Http.{Reply, reply, except}
use identity_access_service.Api.Dependencies.{Credentials, get_current_principal, require_roles}

unfoldable pub tenant_conflict_409 : Error → Error
tenant_conflict_409 (tenant_conflict detail) = http_exception 409 detail []
tenant_conflict_409 e = e

unfoldable pub tenant_404 : Error → Error
tenant_404 (tenant_not_found detail) = http_exception 404 detail []
tenant_404 e = e

unfoldable pub tenant_404_403 : Error → Error
tenant_404_403 (tenant_not_found detail) = http_exception 404 detail []
tenant_404_403 (tenant_access_denied detail) = http_exception 403 detail []
tenant_404_403 e = e

module _ (c : Context) (credentials : Option Credentials) where
  unfoldable pub list_tenants_endpoint : Action (Reply (List TenantResponse))
  list_tenants_endpoint = do
    require_roles c (sys_admin ∷ []) credentials
    tenants ← list_tenants c
    reply 200 tenants

  unfoldable pub create_tenant_endpoint :
      TenantCreateRequest → Client → Action (Reply TenantResponse)
  create_tenant_endpoint payload client = do
    principal ← require_roles c (sys_admin ∷ []) credentials
    tenant ← except tenant_conflict_409 (create_tenant c payload principal client)
    reply 201 tenant

  -- `read_current_tenant` catches nothing
  unfoldable pub read_current_tenant : Action (Reply TenantResponse)
  read_current_tenant = do
    principal ← get_current_principal c credentials
    tenant ← get_current_tenant principal
    reply 200 tenant

  -- `read_tenant` does not catch TenantAccessDeniedError
  unfoldable pub read_tenant : Uuid → Action (Reply TenantResponse)
  read_tenant tenant_id = do
    principal ← get_current_principal c credentials
    tenant ← except tenant_404 (get_tenant principal tenant_id)
    reply 200 tenant

  unfoldable pub update_tenant_endpoint : Uuid → TenantUpdateRequest → Action (Reply TenantResponse)
  update_tenant_endpoint tenant_id payload = do
    principal ← get_current_principal c credentials
    tenant ← except tenant_404_403 (update_tenant c tenant_id payload principal)
    reply 200 tenant
