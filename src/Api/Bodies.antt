-- ===== src/Api/Bodies.antt =====
-- The endpoints that take a body, from the body that the client sends. The framework resolves the
-- dependencies of an endpoint first, and validates the body then.
use identity_access_service.Base.{Option, [], ◌∷◌}
use identity_access_service.Models.{Uuid, sys_admin}
use identity_access_service.Db.Session.{Action, ◌>>=◌, ◌>>◌}
use identity_access_service.Core.Context.{Context, Client, Json}
use identity_access_service.Schemas.Fields.{validated}
use identity_access_service.Schemas.Body.{
  RegisterBody, LoginBody, TenantCreateBody, TenantUpdateBody, UserCreateBody, validate_register,
  validate_login, validate_tenant_create, validate_tenant_update, validate_user_create,
  validate_token, validate_role_update,
}
use identity_access_service.Services.Tenants.{TenantResponse}
use identity_access_service.Services.Users.{ManagedUserResponse}
use identity_access_service.Api.Http.{Reply}
use identity_access_service.Api.Dependencies.{Credentials, get_current_principal, require_roles}
use identity_access_service.Api.Auth.{
  AuthTokensResponse, register_endpoint, login_endpoint, refresh_endpoint, logout_endpoint,
}
use identity_access_service.Api.Tenants.{create_tenant_endpoint, update_tenant_endpoint}
use identity_access_service.Api.Users.{create_user_endpoint, update_user_role_endpoint}

module _ (c : Context) where
  unfoldable pub post_register : RegisterBody → Client → Action (Reply AuthTokensResponse)
  post_register body client = do
    payload ← validated (validate_register c.library body)
    register_endpoint c payload client

  unfoldable pub post_login : LoginBody → Client → Action (Reply AuthTokensResponse)
  post_login body client = do
    payload ← validated (validate_login c.library body)
    login_endpoint c payload client

  unfoldable pub post_refresh : Option Json → Client → Action (Reply AuthTokensResponse)
  post_refresh body client = do
    token ← validated (validate_token c.library body)
    refresh_endpoint c token client

  unfoldable pub post_logout : Option Json → Client → Action (Reply Unit)
  post_logout body client = do
    token ← validated (validate_token c.library body)
    logout_endpoint c token client

  -- The dependencies only read, so that the endpoint may resolve them again.
  unfoldable pub post_tenant :
      Option Credentials → TenantCreateBody → Client → Action (Reply TenantResponse)
  post_tenant who body client = do
    require_roles c (sys_admin ∷ []) who
    payload ← validated (validate_tenant_create c.library body)
    create_tenant_endpoint c who payload client

  unfoldable pub patch_tenant :
      Option Credentials → Uuid → TenantUpdateBody → Action (Reply TenantResponse)
  patch_tenant who id body = do
    get_current_principal c who
    payload ← validated (validate_tenant_update c.library body)
    update_tenant_endpoint c who id payload

  unfoldable pub post_user :
      Option Credentials → Uuid → UserCreateBody → Client → Action (Reply ManagedUserResponse)
  post_user who id body client = do
    get_current_principal c who
    payload ← validated (validate_user_create c.library body)
    create_user_endpoint c who id payload client

  unfoldable pub patch_user_role :
      Option Credentials → Uuid → Uuid → Option Json → Client → Action (Reply ManagedUserResponse)
  patch_user_role who id user_id body client = do
    get_current_principal c who
    role ← validated (validate_role_update c.library body)
    update_user_role_endpoint c who id user_id role client
