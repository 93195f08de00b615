-- ===== src/Services/Audit/Listing.antt =====
-- app/services/audit.py: `AuditService`, the two listings of the audit log.
use Prim.Native.Nat.{min}
use identity_access_service.Base.{
  ℕ, String, Bool, true, false, Option, none, some, List, map, filter, sort, length, ltb, leb, ◌==◌,
  ◌&&◌, ◌||◌, nat_eq,
}
use identity_access_service.Base.Pages
use identity_access_service.Base.Int.{ℤ, max_int}
use identity_access_service.Models.{
  Uuid, AuditAction, AuditLog, Details, Tenant, User, Role, audit_action_eq,
}
use identity_access_service.Db.{Db, tenant_by_id, user_by_id}
use identity_access_service.Db.Session.{Action, pure, query, ◌>>=◌, ◌>>◌}
use identity_access_service.Core.Principal.{CurrentPrincipal}
use identity_access_service.Services.Tenants.{resolve_visible_tenant, admin_roles}

-- app/schemas/audit.py
pub record AuditActorResponse : Type 0 where
  pub id : Uuid
  pub email : String
  pub full_name : String
  pub role : Role

pub record AuditTenantResponse : Type 0 where
  pub id : Uuid
  pub name : String
  pub slug : String

pub record AuditLogResponse : Type 0 where
  pub id : Uuid
  pub action : AuditAction
  pub resource_type : String
  pub resource_id : String
  pub details : Option Details
  pub ip_address : Option String
  pub user_agent : Option String
  pub created_at : ℕ
  pub tenant : Option AuditTenantResponse
  pub actor : Option AuditActorResponse

pub record AuditLogListResponse : Type 0 where
  pub items : List AuditLogResponse
  pub total : ℕ
  pub limit : ℕ
  pub offset : ℕ

-- The optional filters of a listing.
pub record Filters : Type 0 where
  pub action : Option AuditAction
  pub tenant_id : Option Uuid
  pub actor_user_id : Option Uuid

-- `if action is not None: statement = statement.where(AuditLog.action == action)`
unfoldable pub has_action : Option AuditAction → AuditLog → Bool
has_action none a = true
has_action (some action) a = a.action == action

-- `AuditLog.tenant_id == tenant_id`, which is not true of a NULL
unfoldable pub equals : Uuid → Option Uuid → Bool
equals id none = false
equals id (some column) = column == id

unfoldable pub has_tenant : Option Uuid → AuditLog → Bool
unfolding equals
has_tenant none a = true
has_tenant (some tenant_id) a = equals tenant_id a.tenant_id

unfoldable pub has_actor : Option Uuid → AuditLog → Bool
unfolding equals
has_actor none a = true
has_actor (some actor_user_id) a = equals actor_user_id a.actor_user_id

-- `_build_statement`: the rows that it selects
unfoldable pub build_statement : Filters → Db → List AuditLog
unfolding has_action has_tenant has_actor
build_statement filters db =
    filter
      (λ a.
        has_action filters.action a
        && (has_tenant filters.tenant_id a && has_actor filters.actor_user_id a))
      db.audit_logs

-- ORDER BY created_at DESC, id DESC
abbrev pub newest_first : AuditLog → AuditLog → Bool
newest_first a b = ltb b.created_at a.created_at || (b.created_at == a.created_at && leb b.id a.id)

-- The attributes `audit_log.tenant` and `audit_log.actor`, loaded by an outer join.
unfoldable pub joined_tenant : Db → Option Uuid → Option Tenant
joined_tenant db none = none
joined_tenant db (some id) = tenant_by_id id db

unfoldable pub joined_actor : Db → Option Uuid → Option User
joined_actor db none = none
joined_actor db (some id) = user_by_id id db

unfoldable pub tenant_entry : Option Tenant → Option AuditTenantResponse
tenant_entry none = none
tenant_entry (some t) = some (record { id = t.id; name = t.name; slug = t.slug })

unfoldable pub actor_entry : Option User → Option AuditActorResponse
actor_entry none = none
actor_entry (some u) =
    some (record { id = u.id; email = u.email; full_name = u.full_name; role = u.role })

-- `_serialize_log`
unfoldable pub serialize_log : Db → AuditLog → AuditLogResponse
unfolding joined_tenant joined_actor tenant_entry actor_entry
serialize_log db a = record {
  id = a.id;
  action = a.action;
  resource_type = a.resource_type;
  resource_id = a.resource_id;
  details = a.details;
  ip_address = a.ip_address;
  user_agent = a.user_agent;
  created_at = a.created_at;
  tenant = tenant_entry (joined_tenant db a.tenant_id);
  actor = actor_entry (joined_actor db a.actor_user_id);
}

unfoldable pub safe_limit : ℤ → ℕ
safe_limit limit = min (max_int limit 1) 100

unfoldable pub safe_offset : ℤ → ℕ
safe_offset offset = max_int offset 0

-- `_build_response`
unfoldable pub build_response : (Db → List AuditLog) → ℤ → ℤ → Action AuditLogListResponse
unfolding safe_limit safe_offset
build_response statement limit offset = do
  total ← query (λ db. length (statement db))
  items ← query (λ db. map (serialize_log db) (
      Pages.limit (safe_limit limit)
        (Pages.offset (safe_offset offset) (sort newest_first (statement db)))))
  pure (record {
    items = items;
    total = total;
    limit = safe_limit limit;
    offset = safe_offset offset;
  })

unfoldable pub list_system_audit_logs : Filters → ℤ → ℤ → Action AuditLogListResponse
list_system_audit_logs filters limit offset = build_response (build_statement filters) limit offset

unfoldable pub list_tenant_audit_logs :
    CurrentPrincipal → Uuid → Option AuditAction → Option Uuid → ℤ → ℤ → Action AuditLogListResponse
list_tenant_audit_logs principal tenant_id action actor_user_id limit offset = do
  resolve_visible_tenant principal tenant_id admin_roles
  build_response
      (build_statement
        (record { action = action; tenant_id = some tenant_id; actor_user_id = actor_user_id }))
      limit offset
