-- ===== src/Api/Auth.antt =====
-- app/api/v1/endpoints/auth.py
use identity_access_service.Base.{ℕ, String, Bool, [], Option, none, some, leb, if◌then◌else◌}
use identity_access_service.Errors.{
  Error, http_exception, auth_conflict, invalid_credentials, invalid_refresh_token,
  response_validation_error,
}
use identity_access_service.Models.{Uuid, Role}
use identity_access_service.Db.Session.{Action, or_raise, ◌>>=◌, ◌>>◌}
use identity_access_service.Core.Context.{Context, Library, Client}
use identity_access_service.Services.Auth.Issue.{AuthResult}
use identity_access_service.Services.Auth.Register.{RegisterRequest, register}
use identity_access_service.Services.Auth.Login.{LoginRequest, login}
use identity_access_service.Services.Auth.Tokens.{refresh, logout}
use identity_access_service.Api.Http.{Reply, reply, except}

-- app/schemas/auth.py
pub record AuthTenantResponse : Type 0 where
  pub id : Uuid
  pub name : String
  pub slug : String

pub record AuthUserResponse : Type 0 where
  pub id : Uuid
  pub tenant_id : Uuid
  pub email : String
  pub full_name : String
  pub role : Role
  pub is_active : Bool

pub record AuthTokensResponse : Type 0 where
  pub access_token : String
  pub refresh_token : String
  pub token_type : String
  pub access_token_expires_in : ℕ
  pub user : AuthUserResponse
  pub tenant : AuthTenantResponse

-- The response, once the field `user.email` is validated.
abbrev response_with : AuthResult → Option String → Option AuthTokensResponse
response_with result none = none
response_with result (some email) = some (record {
  access_token = result.access_token;
  refresh_token = result.refresh_token;
  token_type = "bearer";
  access_token_expires_in = result.access_token_expires_in;
  user = record {
    id = result.user.id;
    tenant_id = result.user.tenant_id;
    email = email;
    full_name = result.user.full_name;
    role = result.user.role;
    is_active = result.user.is_active;
  };
  tenant = record { id = result.tenant.id; name = result.tenant.name; slug = result.tenant.slug };
})

-- `none` is the ValidationError of `AuthTokensResponse`
unfoldable pub build_auth_response : Library → AuthResult → Option AuthTokensResponse
build_auth_response library result =
    let response = response_with result (library.validate_email result.user.email) in
    if leb 1 result.access_token_expires_in then response else none

-- `build_auth_response` behind the `try`, and the status of the decorator
unfoldable pub auth_reply : Library → ℕ → AuthResult → Action (Reply AuthTokensResponse)
auth_reply library status result = do
  response ← or_raise (build_auth_response library result) response_validation_error
  reply status response

-- The `except` clauses of the endpoints.
unfoldable pub conflict_409 : Error → Error
conflict_409 (auth_conflict detail) = http_exception 409 detail []
conflict_409 e = e

unfoldable pub credentials_401 : Error → Error
credentials_401 (invalid_credentials detail) = http_exception 401 detail []
credentials_401 e = e

unfoldable pub token_401 : Error → Error
token_401 (invalid_refresh_token detail) = http_exception 401 detail []
token_401 e = e

module _ (c : Context) where
  unfoldable pub register_endpoint : RegisterRequest → Client → Action (Reply AuthTokensResponse)
  register_endpoint payload client = do
    result ← except conflict_409 (register c payload client)
    auth_reply c.library 201 result

  unfoldable pub login_endpoint : LoginRequest → Client → Action (Reply AuthTokensResponse)
  login_endpoint payload client = do
    result ← except credentials_401 (login c payload client)
    auth_reply c.library 200 result

  unfoldable pub refresh_endpoint : String → Client → Action (Reply AuthTokensResponse)
  refresh_endpoint refresh_token client = do
    result ← except token_401 (refresh c refresh_token client)
    auth_reply c.library 200 result

  unfoldable pub logout_endpoint : String → Client → Action (Reply Unit)
  logout_endpoint refresh_token client = do logout c refresh_token client; reply 204 tt
