-- ===== src/Services/Auth/Register.antt =====
-- app/services/auth.py: `AuthService.register`
use identity_access_service.Base.{String, true, none, some, [], ◌∷◌, is_some}
use identity_access_service.Models.{
  Tenant, User, tenant_admin, role_value, tenant_created, user_created, str,
}
use identity_access_service.Uuid.{str_uuid}
use identity_access_service.Errors.{auth_conflict}
use identity_access_service.Db.{tenant_by_slug}
use identity_access_service.Db.Session.{
  Action, pure, query, raise_if, commit, insert_tenant, insert_user, ◌>>=◌, ◌>>◌,
}
use identity_access_service.Core.Context.{Context, Client}
use identity_access_service.Core.Security.{hash_password}
use identity_access_service.Services.Audit.{record_audit_event}
use identity_access_service.Services.Auth.Issue.{AuthResult, issue_tokens_for_user}

-- app/schemas/auth.py
pub record RegisterRequest : Type 0 where
  pub tenant_name : String
  pub tenant_slug : String
  pub full_name : String
  pub email : String
  pub password : String

module _ (c : Context) where
  -- the rows that `register` adds
  abbrev pub registered_tenant : RegisterRequest → Tenant
  registered_tenant payload = record {
    id = c.new_tenant_id;
    slug = payload.tenant_slug;
    name = payload.tenant_name;
    is_active = true;
  }

  abbrev pub registered_user : RegisterRequest → User
  registered_user payload = record {
    id = c.new_user_id;
    tenant_id = c.new_tenant_id;
    email = payload.email;
    full_name = payload.full_name;
    password_hash = hash_password c payload.password;
    role = tenant_admin;
    is_active = true;
    failed_login_attempts = 0;
    locked_until = none;
    last_login_at = none;
  }

  unfoldable pub register : RegisterRequest → Client → Action AuthResult
  register payload client = do
    tenant_exists ← query (tenant_by_slug payload.tenant_slug)
    raise_if (is_some tenant_exists) (auth_conflict "Tenant slug already exists.")
    insert_tenant (registered_tenant payload)
    insert_user (registered_user payload)
    auth_result ← issue_tokens_for_user c (registered_user payload)
    record_audit_event c client (record {
      action = tenant_created;
      resource_type = "tenant";
      resource_id = str_uuid c.new_tenant_id;
      tenant_id = some c.new_tenant_id;
      actor_user_id = some c.new_user_id;
      details =
          some (("tenant_slug", str payload.tenant_slug) ∷ ("source", str "self_signup") ∷ []);
    })
    record_audit_event c client (record {
      action = user_created;
      resource_type = "user";
      resource_id = str_uuid c.new_user_id;
      tenant_id = some c.new_tenant_id;
      actor_user_id = some c.new_user_id;
      details = some (("role", str (role_value tenant_admin)) ∷ ("source", str "self_signup") ∷ []);
    })
    commit
    pure auth_result
