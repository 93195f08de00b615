-- ===== src/Services/Bootstrap.antt =====
-- app/services/bootstrap.py
use identity_access_service.Base.{
  String, Bool, true, false, not, Option, none, some, [], ◌∷◌, ◌==◌, if◌then◌else◌,
}
use identity_access_service.Models.{
  Uuid, Tenant, User, sys_admin, role_eq, role_value, AuditAction, str, aware,
}
use identity_access_service.Uuid.{str_uuid}
use identity_access_service.Errors.{bootstrap_conflict}
use identity_access_service.Db.{tenant_by_slug, user_by_email}
use identity_access_service.Db.Session.{
  Action, pure, query, raise_if, write, commit, insert_tenant, insert_user, set_tenant, set_user,
  set_tokens, ◌>>=◌, ◌>>◌,
}
use identity_access_service.Core.Context.{Context}
use identity_access_service.Core.Security.{hash_password}
use identity_access_service.Services.Audit.{record_audit_event, no_client}
use identity_access_service.Services.Tenants.{refresh_tenant}
use identity_access_service.Services.Users.{live_token_of, revoke_at, refresh_user}

pub record BootstrapAdminPayload : Type 0 where
  pub tenant_name : String
  pub tenant_slug : String
  pub full_name : String
  pub email : String
  pub password : String
  pub rotate_password : Bool

pub record BootstrapAdminResult : Type 0 where
  pub tenant_id : Uuid
  pub tenant_slug : String
  pub user_id : Uuid
  pub email : String
  pub tenant_created : Bool
  pub user_created : Bool
  pub password_rotated : Bool

module _ (c : Context) (payload : BootstrapAdminPayload) where
  -- the rows that a first bootstrap adds
  abbrev pub bootstrap_tenant : Tenant
  bootstrap_tenant = record {
    id = c.new_tenant_id;
    slug = payload.tenant_slug;
    name = payload.tenant_name;
    is_active = true;
  }

  abbrev pub bootstrap_user : Uuid → User
  bootstrap_user tenant_id = record {
    id = c.new_user_id;
    tenant_id = tenant_id;
    email = payload.email;
    full_name = payload.full_name;
    password_hash = hash_password c payload.password;
    role = sys_admin;
    is_active = true;
    failed_login_attempts = 0;
    locked_until = none;
    last_login_at = none;
  }

  -- the tenant, found or created, and whether it was created
  unfoldable pub ensure_tenant : Option Tenant → Action (Tenant × Bool)
  ensure_tenant none = do insert_tenant bootstrap_tenant; pure (bootstrap_tenant, true)
  ensure_tenant (some tenant) = do
    write (set_tenant tenant.id (λ t. record t { is_active = true }))
    pure (record tenant { is_active = true }, false)

  unfoldable pub recover : User → User
  recover u = record u {
    full_name = payload.full_name;
    is_active = true;
    failed_login_attempts = 0;
    locked_until = none;
  }

  -- `if payload.rotate_password: …`
  unfoldable pub rotate : User → Action Bool
  rotate user =
      if payload.rotate_password
      then (do
        write
            (set_user user.id (λ u. record u { password_hash = hash_password c payload.password }))
        write (set_tokens (live_token_of user.id) (revoke_at (aware c.now)))
        pure true)
      else pure false

  -- the user, whether it was created, and whether its password was rotated
  unfoldable pub ensure_user : Tenant → Option User → Action (User × Bool × Bool)
  ensure_user tenant none = do
    insert_user (bootstrap_user tenant.id)
    pure (bootstrap_user tenant.id, true, false)
  ensure_user tenant (some user) = do
    raise_if (not (user.role == sys_admin))
        (bootstrap_conflict "An existing user with this email is not a system administrator.")
    write (set_user user.id recover)
    rotated ← rotate user
    pure (user, false, rotated)

  unfoldable pub record_tenant_created : Tenant → User → Bool → Action Unit
  record_tenant_created tenant user created =
      if created
      then record_audit_event c no_client (record {
        action = AuditAction.tenant_created;
        resource_type = "tenant";
        resource_id = str_uuid tenant.id;
        tenant_id = some tenant.id;
        actor_user_id = some user.id;
        details =
            some (("tenant_slug", str tenant.slug) ∷ ("source", str "bootstrap_admin_cli") ∷ []);
      })
      else pure tt

  unfoldable pub record_user_created : Tenant → User → Bool → Action Unit
  record_user_created tenant user created =
      if created
      then record_audit_event c no_client (record {
        action = AuditAction.user_created;
        resource_type = "user";
        resource_id = str_uuid user.id;
        tenant_id = some tenant.id;
        actor_user_id = some user.id;
        details =
            some
              (("role", str (role_value user.role)) ∷ ("source", str "bootstrap_admin_cli") ∷ []);
      })
      else pure tt

  unfoldable pub ensure_system_admin : Action BootstrapAdminResult
  ensure_system_admin = do
    found_tenant ← query (tenant_by_slug payload.tenant_slug)
    (tenant, created) ← ensure_tenant found_tenant
    found_user ← query (user_by_email tenant.id payload.email)
    (user, added, rotated) ← ensure_user tenant found_user
    record_tenant_created tenant user created
    record_user_created tenant user added
    commit
    tenant' ← refresh_tenant tenant.id
    user' ← refresh_user user.id
    pure (record {
      tenant_id = tenant'.id;
      tenant_slug = tenant'.slug;
      user_id = user'.id;
      email = user'.email;
      tenant_created = created;
      user_created = added;
      password_rotated = rotated;
    })
