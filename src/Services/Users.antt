-- ===== src/Services/Users.antt =====
-- app/services/users.py
pub mod Visible
use identity_access_service.Base.{
  String, Bool, true, false, not, Option, none, some, List, [], ◌∷◌, map, filter, is_some, is_none,
  ◌==◌, ◌&&◌, nat_eq, if◌then◌else◌, sort,
}
use identity_access_service.Models.{
  Uuid, User, RefreshToken, Role, sys_admin, role_eq, role_value, user_created, user_deactivated,
  role_changed, str, Datetime, aware,
}
use identity_access_service.Uuid.{str_uuid}
use identity_access_service.Errors.{
  Error, managed_user_conflict, managed_user_not_found, user_management_access_denied,
  invalid_request_error, response_validation_error,
}
use identity_access_service.Db.{Db, user_by_id, user_by_email, user_has_id}
use identity_access_service.Db.Session.{
  Action, pure, query, raise, raise_if, or_raise, write, commit, insert_user, set_user, set_tokens,
  ◌>>=◌, ◌>>◌,
}
use identity_access_service.Core.Context.{Context, Library, Client}
use identity_access_service.Core.Principal.{CurrentPrincipal}
use identity_access_service.Core.Security.{hash_password}
use identity_access_service.Services.Audit.{record_audit_event}
use identity_access_service.Services.Tenants.{resolve_visible_tenant, admin_roles}
use identity_access_service.Base.{first}

-- app/schemas/users.py
pub record UserCreateRequest : Type 0 where
  pub email : String
  pub full_name : String
  pub password : String
  pub role : Role
  pub is_active : Bool

pub record ManagedUserResponse : Type 0 where
  pub id : Uuid
  pub tenant_id : Uuid
  pub email : String
  pub full_name : String
  pub role : Role
  pub is_active : Bool

-- The response of a user, once the field `email` is validated.
abbrev response_with : User → Option String → Option ManagedUserResponse
response_with u none = none
response_with u (some email) = some (record {
  id = u.id;
  tenant_id = u.tenant_id;
  email = email;
  full_name = u.full_name;
  role = u.role;
  is_active = u.is_active;
})

-- `ManagedUserResponse.model_validate`; `none` is its ValidationError
unfoldable pub managed_user_response : Library → User → Option ManagedUserResponse
managed_user_response library u = response_with u (library.validate_email u.email)

infixr 20 ◌and_then◌
abbrev ◌and_then◌ :
    Option ManagedUserResponse
    → Option (List ManagedUserResponse)
    → Option (List ManagedUserResponse)
none and_then rest = none
some first and_then none = none
some first and_then some rest = some (first ∷ rest)

-- `[ManagedUserResponse.model_validate(user) for user in users]`
unfoldable pub managed_user_responses : Library → List User → Option (List ManagedUserResponse)
unfolding managed_user_response
managed_user_responses library [] = some []
managed_user_responses library (u ∷ users) =
    managed_user_response library u and_then managed_user_responses library users

abbrev pub user_in_tenant : Uuid → User → Bool
user_in_tenant tenant_id u = u.tenant_id == tenant_id

abbrev pub user_of_tenant : Uuid → Uuid → User → Bool
user_of_tenant tenant_id user_id u = u.id == user_id && u.tenant_id == tenant_id

-- The refresh tokens that a deactivation or a rotated password revokes.
abbrev pub live_token_of : Uuid → RefreshToken → Bool
live_token_of user_id t = t.user_id == user_id && is_none t.revoked_at

abbrev pub revoke_at : Datetime → RefreshToken → RefreshToken
revoke_at now t = record t { revoked_at = some now; last_used_at = some now }

unfoldable pub user_in_tenant_by_id : Uuid → Uuid → Db → Option User
user_in_tenant_by_id tenant_id user_id db = first (user_of_tenant tenant_id user_id) db.users

unfoldable pub refresh_user : Uuid → Action User
refresh_user id = do found ← query (user_by_id id); or_raise found invalid_request_error

-- `_ensure_manageable_target`
unfoldable pub ensure_manageable_target : Role → Role → Action Unit
ensure_manageable_target actor_role target_role =
    raise_if (not (actor_role == sys_admin) && target_role == sys_admin)
      (user_management_access_denied "You do not have permission to manage system administrators.")

-- `_ensure_role_assignment_allowed`
unfoldable pub ensure_role_assignment_allowed : Role → Role → Action Unit
ensure_role_assignment_allowed actor_role target_role =
    raise_if (not (actor_role == sys_admin) && target_role == sys_admin) (
      user_management_access_denied
        "You do not have permission to assign the system administrator role.")

-- `_get_visible_user`
unfoldable pub get_visible_user : CurrentPrincipal → Uuid → Uuid → Action User
get_visible_user actor tenant_id user_id = do
  found ← query (user_in_tenant_by_id tenant_id user_id)
  user ← or_raise found (managed_user_not_found "User not found.")
  raise_if (not (actor.role == sys_admin) && not (actor.tenant_id == user.tenant_id))
      (managed_user_not_found "User not found.")
  pure user

module _ (c : Context) where
  unfoldable pub list_users : CurrentPrincipal → Uuid → Action (List ManagedUserResponse)
  list_users principal tenant_id = do
    tenant ← resolve_visible_tenant principal tenant_id admin_roles
    users ← query (λ db.
        sort (λ (a b : User). c.text_le a.email b.email)
          (filter (user_in_tenant tenant.id) db.users))
    or_raise (managed_user_responses c.library users) response_validation_error

  -- the row that `create_user` adds
  abbrev pub created_user : Uuid → UserCreateRequest → User
  created_user tenant_id payload = record {
    id = c.new_user_id;
    tenant_id = tenant_id;
    email = payload.email;
    full_name = payload.full_name;
    password_hash = hash_password c payload.password;
    role = payload.role;
    is_active = payload.is_active;
    failed_login_attempts = 0;
    locked_until = none;
    last_login_at = none;
  }

  unfoldable pub create_user :
      Uuid → UserCreateRequest → CurrentPrincipal → Client → Action ManagedUserResponse
  create_user tenant_id payload actor client = do
    tenant ← resolve_visible_tenant actor tenant_id admin_roles
    ensure_role_assignment_allowed actor.role payload.role
    existing_user ← query (user_by_email tenant.id payload.email)
    raise_if (is_some existing_user)
        (managed_user_conflict "A user with this email already exists in the tenant.")
    insert_user (created_user tenant.id payload)
    record_audit_event c client (record {
      action = user_created;
      resource_type = "user";
      resource_id = str_uuid c.new_user_id;
      tenant_id = some tenant.id;
      actor_user_id = some actor.user_id;
      details = some (("role", str (role_value payload.role)) ∷ ("source", str "admin_api") ∷ []);
    })
    commit
    user ← refresh_user c.new_user_id
    or_raise (managed_user_response c.library user) response_validation_error

  -- `if previous_role != payload.role: record_audit_event(…)`
  unfoldable pub record_role_change : User → Role → CurrentPrincipal → Client → Action Unit
  record_role_change user role actor client =
      if user.role == role
      then pure tt
      else record_audit_event c client (record {
        action = role_changed;
        resource_type = "user";
        resource_id = str_uuid user.id;
        tenant_id = some user.tenant_id;
        actor_user_id = some actor.user_id;
        details =
            some
              (("old_role", str (role_value user.role)) ∷ ("new_role", str (role_value role)) ∷ []);
      })

  unfoldable pub update_user_role :
      Uuid → Uuid → Role → CurrentPrincipal → Client → Action ManagedUserResponse
  update_user_role tenant_id user_id role actor client = do
    resolve_visible_tenant actor tenant_id admin_roles
    user ← get_visible_user actor tenant_id user_id
    ensure_manageable_target actor.role user.role
    ensure_role_assignment_allowed actor.role role
    write (set_user user.id (λ u. record u { role = role }))
    record_role_change user role actor client
    commit
    updated ← refresh_user user.id
    or_raise (managed_user_response c.library updated) response_validation_error

  -- the part of `deactivate_user` for an active account
  unfoldable pub deactivate : User → CurrentPrincipal → Client → Action Unit
  deactivate user actor client = do
    write (set_user user.id (λ u. record u { is_active = false }))
    write (set_tokens (live_token_of user.id) (revoke_at (aware c.now)))
    record_audit_event c client (record {
      action = user_deactivated;
      resource_type = "user";
      resource_id = str_uuid user.id;
      tenant_id = some user.tenant_id;
      actor_user_id = some actor.user_id;
      details = some (("email", str user.email) ∷ []);
    })
    commit

  unfoldable pub deactivate_user : Uuid → Uuid → CurrentPrincipal → Client → Action Unit
  deactivate_user tenant_id user_id actor client = do
    resolve_visible_tenant actor tenant_id admin_roles
    user ← get_visible_user actor tenant_id user_id
    ensure_manageable_target actor.role user.role
    raise_if (actor.user_id == user.id)
        (user_management_access_denied "You cannot deactivate your own account.")
    if not user.is_active then pure tt else deactivate user actor client
