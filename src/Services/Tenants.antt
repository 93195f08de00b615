-- ===== src/Services/Tenants.antt =====
-- app/services/tenants.py
pub mod Visible
use identity_access_service.Base.{
  String, Bool, true, false, not, Option, none, some, List, [], ◌∷◌, ◌++◌, map, any, is_some, ◌==◌,
  ◌||◌, nat_eq, if◌then◌else◌, sort,
}
use identity_access_service.Models.{
  Uuid, Tenant, Role, sys_admin, tenant_admin, user, role_eq, tenant_created, tenant_updated,
  Details, Value, str, bool, null,
}
use identity_access_service.Uuid.{str_uuid}
use identity_access_service.Errors.{
  tenant_conflict, tenant_not_found, tenant_access_denied, integrity_error, invalid_request_error,
}
use identity_access_service.Db.{Db, tenant_by_slug, tenant_by_id}
use identity_access_service.Db.Session.{
  Action, pure, query, raise, raise_if, or_raise, write, commit, insert_tenant, set_tenant, ◌>>=◌,
  ◌>>◌,
}
use identity_access_service.Core.Context.{Context, Client}
use identity_access_service.Core.Principal.{CurrentPrincipal}
use identity_access_service.Services.Audit.{record_audit_event, no_client}

-- app/schemas/tenants.py
pub record TenantCreateRequest : Type 0 where
  pub name : String
  pub slug : String
  pub is_active : Bool

-- A field that the client left out is `none`, and one that it set to null is `some none`.
pub record TenantUpdateRequest : Type 0 where
  pub name : Option (Option String)
  pub is_active : Option (Option Bool)

pub record TenantResponse : Type 0 where
  pub id : Uuid
  pub name : String
  pub slug : String
  pub is_active : Bool

-- `TenantResponse.model_validate`
unfoldable pub tenant_response : Tenant → TenantResponse
tenant_response t = record { id = t.id; name = t.name; slug = t.slug; is_active = t.is_active }

-- `role in roles`
abbrev pub is_among : Role → List Role → Bool
is_among role [] = false
is_among role (r ∷ roles) = role == r || is_among role roles

abbrev pub every_role : List Role
every_role = user ∷ tenant_admin ∷ sys_admin ∷ []

abbrev pub admin_roles : List Role
admin_roles = tenant_admin ∷ sys_admin ∷ []

-- The session reads the row again after the commit.
unfoldable pub refresh_tenant : Uuid → Action Tenant
refresh_tenant id = do found ← query (tenant_by_id id); or_raise found invalid_request_error

unfoldable pub resolve_visible_tenant : CurrentPrincipal → Uuid → List Role → Action Tenant
resolve_visible_tenant principal tenant_id allowed_same_tenant_roles =
    if principal.role == sys_admin
    then (do
      tenant ← query (tenant_by_id tenant_id)
      or_raise tenant (tenant_not_found "Tenant not found."))
    else (do
      raise_if (not (principal.tenant_id == tenant_id)) (tenant_not_found "Tenant not found.")
      raise_if (not (is_among principal.role allowed_same_tenant_roles))
          (tenant_access_denied "You do not have permission to perform this action.")
      tenant ← query (tenant_by_id tenant_id)
      or_raise tenant (tenant_not_found "Tenant not found."))

unfoldable pub get_tenant : CurrentPrincipal → Uuid → Action TenantResponse
get_tenant principal tenant_id = do
  tenant ← resolve_visible_tenant principal tenant_id every_role
  pure (tenant_response tenant)

unfoldable pub get_current_tenant : CurrentPrincipal → Action TenantResponse
get_current_tenant principal = do
  tenant ← resolve_visible_tenant principal principal.tenant_id every_role
  pure (tenant_response tenant)

-- `payload.model_dump(exclude_unset=True)`
unfoldable pub dump_name : Option (Option String) → Details
dump_name none = []
dump_name (some none) = ("name", null) ∷ []
dump_name (some (some name)) = ("name", str name) ∷ []

unfoldable pub dump_is_active : Option (Option Bool) → Details
dump_is_active none = []
dump_is_active (some none) = ("is_active", null) ∷ []
dump_is_active (some (some b)) = ("is_active", bool b) ∷ []

unfoldable pub tenant_updates : TenantUpdateRequest → Details
tenant_updates payload = dump_name payload.name ++ dump_is_active payload.is_active

-- `tenant.name = updates["name"]`; a null cannot be a value of the column, and waits for the flush
unfoldable pub assign_name : Option (Option String) → Tenant → Tenant
assign_name (some (some name)) t = record t { name = name }
assign_name _ t = t

unfoldable pub assign_is_active : Option (Option Bool) → Tenant → Tenant
assign_is_active (some (some b)) t = record t { is_active = b }
assign_is_active _ t = t

abbrev is_null {ℓ} : {A : Type ℓ} → Option (Option A) → Bool
is_null (some none) = true
is_null _ = false

-- Whether the flush meets a null in a column that is NOT NULL.
unfoldable pub has_null : TenantUpdateRequest → Bool
has_null payload = is_null payload.name || is_null payload.is_active

module _ (c : Context) where
  unfoldable pub list_tenants : Action (List TenantResponse)
  list_tenants = do
    tenants ← query (λ db. sort (λ (a b : Tenant). c.text_le a.name b.name) db.tenants)
    pure (map tenant_response tenants)

  unfoldable pub create_tenant :
      TenantCreateRequest → CurrentPrincipal → Client → Action TenantResponse
  create_tenant payload actor client = do
    existing_tenant ← query (tenant_by_slug payload.slug)
    raise_if (is_some existing_tenant) (tenant_conflict "Tenant slug already exists.")
    insert_tenant (record {
      id = c.new_tenant_id;
      slug = payload.slug;
      name = payload.name;
      is_active = payload.is_active;
    })
    record_audit_event c client (record {
      action = tenant_created;
      resource_type = "tenant";
      resource_id = str_uuid c.new_tenant_id;
      tenant_id = some c.new_tenant_id;
      actor_user_id = some actor.user_id;
      details = some (("tenant_slug", str payload.slug) ∷ ("source", str "system_admin") ∷ []);
    })
    commit
    tenant ← refresh_tenant c.new_tenant_id
    pure (tenant_response tenant)

  -- `if updates: record_audit_event(…)`
  unfoldable pub record_update : Tenant → Details → CurrentPrincipal → Action Unit
  record_update tenant [] principal = pure tt
  record_update tenant (u ∷ updates) principal = record_audit_event c no_client (record {
    action = tenant_updated;
    resource_type = "tenant";
    resource_id = str_uuid tenant.id;
    tenant_id = some tenant.id;
    actor_user_id = some principal.user_id;
    details = some (u ∷ updates);
  })

  unfoldable pub update_tenant :
      Uuid → TenantUpdateRequest → CurrentPrincipal → Action TenantResponse
  update_tenant tenant_id payload principal = do
    tenant ← resolve_visible_tenant principal tenant_id (sys_admin ∷ [])
    write (
        set_tenant tenant.id (λ t. assign_is_active payload.is_active (assign_name payload.name t)))
    record_update tenant (tenant_updates payload) principal
    raise_if (has_null payload) integrity_error
    commit
    updated ← refresh_tenant tenant.id
    pure (tenant_response updated)
