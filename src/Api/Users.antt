-- ===== src/Api/Users.antt =====
-- app/api/v1/endpoints/users.py
use identity_access_service.Base.{List, Option, []}
use identity_access_service.Errors.{
  Error, http_exception, tenant_not_found, tenant_access_denied, managed_user_conflict,
  managed_user_not_found, user_management_access_denied,
}
use identity_access_service.Models.{Uuid, Role}
use identity_access_service.Db.Session.{Action, ◌>>=◌, ◌>>◌}
use identity_access_service.Core.Context.{Context, Client}
use identity_access_service.Services.Users.{
  UserCreateRequest, ManagedUserResponse, list_users, create_user, update_user_role,
  deactivate_user,
}
use identity_access_service.Api.Http.{Reply, reply, except}
use identity_access_service.Api.Dependencies.{Credentials, get_current_principal}

unfoldable pub listing_404_403 : Error → Error
listing_404_403 (tenant_not_found detail) = http_exception 404 detail []
listing_404_403 (tenant_access_denied detail) = http_exception 403 detail []
listing_404_403 (user_management_access_denied detail) = http_exception 403 detail []
listing_404_403 e = e

unfoldable pub creation_404_409_403 : Error → Error
creation_404_409_403 (tenant_not_found detail) = http_exception 404 detail []
creation_404_409_403 (managed_user_conflict detail) = http_exception 409 detail []
creation_404_409_403 (tenant_access_denied detail) = http_exception 403 detail []
creation_404_409_403 (user_management_access_denied detail) = http_exception 403 detail []
creation_404_409_403 e = e

unfoldable pub change_404_403 : Error → Error
change_404_403 (tenant_not_found detail) = http_exception 404 detail []
change_404_403 (managed_user_not_found detail) = http_exception 404 detail []
change_404_403 (tenant_access_denied detail) = http_exception 403 detail []
change_404_403 (user_management_access_denied detail) = http_exception 403 detail []
change_404_403 e = e

module _ (c : Context) (credentials : Option Credentials) where
  unfoldable pub list_users_endpoint : Uuid → Action (Reply (List ManagedUserResponse))
  list_users_endpoint tenant_id = do
    principal ← get_current_principal c credentials
    users ← except listing_404_403 (list_users c principal tenant_id)
    reply 200 users

  unfoldable pub create_user_endpoint :
      Uuid → UserCreateRequest → Client → Action (Reply ManagedUserResponse)
  create_user_endpoint tenant_id payload client = do
    principal ← get_current_principal c credentials
    user ← except creation_404_409_403 (create_user c tenant_id payload principal client)
    reply 201 user

  unfoldable pub update_user_role_endpoint :
      Uuid → Uuid → Role → Client → Action (Reply ManagedUserResponse)
  update_user_role_endpoint tenant_id user_id role client = do
    principal ← get_current_principal c credentials
    user ← except change_404_403 (update_user_role c tenant_id user_id role principal client)
    reply 200 user

  unfoldable pub deactivate_user_endpoint : Uuid → Uuid → Client → Action (Reply Unit)
  deactivate_user_endpoint tenant_id user_id client = do
    principal ← get_current_principal c credentials
    except change_404_403 (deactivate_user c tenant_id user_id principal client)
    reply 204 tt
