-- ===== src/Schemas/Body.antt =====
-- app/schemas/auth.py, tenants.py and users.py: the bodies of requests. A field that the client left
-- out is `none`.
pub mod Sound
pub mod Logins
pub mod Crashes
use identity_access_service.Base.{String, Bool, true, Option, none, some, List, [], ◌∷◌}
use identity_access_service.Models.{Role, user}
use identity_access_service.Core.Context.{Library, Json, null}
use identity_access_service.Services.Auth.Register.{RegisterRequest}
use identity_access_service.Services.Auth.Login.{LoginRequest}
use identity_access_service.Services.Tenants.{TenantCreateRequest, TenantUpdateRequest}
use identity_access_service.Services.Users.{UserCreateRequest}
use identity_access_service.Schemas.Fields.{
  Checked, valid, ◌<*>◌, then_check, required, optional, human_name, slug_field, email_field,
  password_field, role_field, bool_field, refused, sized,
}

pub record RegisterBody : Type 0 where
  pub tenant_name : Option Json
  pub tenant_slug : Option Json
  pub full_name : Option Json
  pub email : Option Json
  pub password : Option Json

pub record LoginBody : Type 0 where
  pub tenant_slug : Option Json
  pub email : Option Json
  pub password : Option Json

pub record TenantCreateBody : Type 0 where
  pub name : Option Json
  pub slug : Option Json
  pub is_active : Option Json

pub record TenantUpdateBody : Type 0 where
  pub name : Option Json
  pub is_active : Option Json

pub record UserCreateBody : Type 0 where
  pub email : Option Json
  pub full_name : Option Json
  pub password : Option Json
  pub role : Option Json
  pub is_active : Option Json

abbrev pub register_request : String → String → String → String → String → RegisterRequest
register_request tenant_name tenant_slug full_name email password = record {
  tenant_name = tenant_name;
  tenant_slug = tenant_slug;
  full_name = full_name;
  email = email;
  password = password;
}

abbrev pub login_request : String → String → String → LoginRequest
login_request tenant_slug email password = record {
  tenant_slug = tenant_slug;
  email = email;
  password = password;
}

abbrev tenant_create_request : String → String → Bool → TenantCreateRequest
tenant_create_request name slug is_active = record {
  name = name;
  slug = slug;
  is_active = is_active;
}

abbrev tenant_update_request : Option (Option String) → Option (Option Bool) → TenantUpdateRequest
tenant_update_request name is_active = record { name = name; is_active = is_active }

abbrev user_create_request : String → String → String → Role → Bool → UserCreateRequest
user_create_request email full_name password role is_active = record {
  email = email;
  full_name = full_name;
  password = password;
  role = role;
  is_active = is_active;
}

-- `T | None`, which the client may have set to null
unfoldable pub nullable : {A : Type 0} → (Json → Checked A) → Json → Checked (Option (Option A))
nullable check null = valid (some none)
nullable check value = valid (λ a. some (some a)) <*> check value

module _ (c : Library) where
  unfoldable pub validate_register : RegisterBody → Checked RegisterRequest
  unfolding ◌<*>◌ required human_name slug_field email_field password_field
  validate_register body =
      valid register_request
      <*> required c "tenant_name" (human_name c "tenant_name" 3) body.tenant_name
      <*> required c "tenant_slug" (slug_field c "tenant_slug") body.tenant_slug
      <*> required c "full_name" (human_name c "full_name" 2) body.full_name
      <*> required c "email" (email_field c) body.email
      <*> required c "password" (password_field c) body.password

  unfoldable pub validate_login : LoginBody → Checked LoginRequest
  unfolding ◌<*>◌ required slug_field email_field password_field
  validate_login body =
      valid login_request
      <*> required c "tenant_slug" (slug_field c "tenant_slug") body.tenant_slug
      <*> required c "email" (email_field c) body.email
      <*> required c "password" (password_field c) body.password

  unfoldable pub validate_tenant_create : TenantCreateBody → Checked TenantCreateRequest
  unfolding ◌<*>◌ required optional human_name slug_field bool_field
  validate_tenant_create body =
      valid tenant_create_request
      <*> required c "name" (human_name c "name" 3) body.name
      <*> required c "slug" (slug_field c "slug") body.slug
      <*> optional c true (bool_field c) body.is_active

  unfoldable pub validate_tenant_update : TenantUpdateBody → Checked TenantUpdateRequest
  unfolding ◌<*>◌ optional nullable human_name bool_field
  validate_tenant_update body =
      valid tenant_update_request
      <*> optional c none (nullable (human_name c "name" 3)) body.name
      <*> optional c none (nullable (bool_field c)) body.is_active

  unfoldable pub validate_user_create : UserCreateBody → Checked UserCreateRequest
  unfolding ◌<*>◌ required optional human_name email_field password_field role_field bool_field
  validate_user_create body =
      valid user_create_request
      <*> required c "email" (email_field c) body.email
      <*> required c "full_name" (human_name c "full_name" 2) body.full_name
      <*> required c "password" (password_field c) body.password
      <*> optional c user (role_field c) body.role
      <*> optional c true (bool_field c) body.is_active

  -- UserRoleUpdateRequest
  unfoldable pub validate_role_update : Option Json → Checked Role
  unfolding required role_field
  validate_role_update = required c "role" (role_field c)

  -- RefreshTokenRequest and LogoutRequest
  unfoldable pub validate_token : Option Json → Checked String
  unfolding required sized refused
  validate_token = required c "refresh_token" token_field
    where
      token_field : Json → Checked String
      token_field (Json.string s) = sized c "refresh_token" 20 512 s
      token_field _ = refused c "refresh_token"
