-- ===== src/Guarantees/Answers/Managing.antt =====
-- The exceptions of app/services/tenants.py, users.py and audit.py, once the endpoint's handler has seen
-- them.
use identity_access_service.Base.{String, true, Option, List, [], ◌∷◌, ◌≡◌, arith}
use identity_access_service.Errors.{
  Error, tenant_not_found, tenant_access_denied, managed_user_not_found,
  user_management_access_denied, integrity_error, invalid_request_error,
}
use identity_access_service.Models.{Uuid, AuditAction, Role, User, Tenant, Details}
use identity_access_service.Db.Session.{insert_tenant, insert_user}
use identity_access_service.Db.Raises.{Raises, raises_rules, raise_none}
use identity_access_service.Core.Context.{Context, Client}
use identity_access_service.Services.Tenants.{
  TenantCreateRequest, TenantUpdateRequest, resolve_visible_tenant, refresh_tenant, create_tenant,
  update_tenant, get_tenant, record_update, every_role, is_among,
}
use identity_access_service.Services.Users.{
  UserCreateRequest, list_users, create_user, update_user_role, deactivate_user, deactivate,
  record_role_change, get_visible_user, refresh_user, ensure_manageable_target,
  ensure_role_assignment_allowed,
}
use identity_access_service.Services.Audit.Listing.{list_tenant_audit_logs, build_response}
use identity_access_service.Base.Int.{ℤ}
use identity_access_service.Core.Principal.{CurrentPrincipal}
use identity_access_service.Api.Tenants.{tenant_conflict_409, tenant_404, tenant_404_403}
use identity_access_service.Api.Users.{listing_404_403, creation_404_409_403, change_404_403}
use identity_access_service.Guarantees.Answers.{Presented, is_presented}
use identity_access_service.Guarantees.Answers.SignIn.{record_audit_event-Raises}

-- The services of tenants.
module _ {P : Error → Type 0} (missing : (m : String) → P (tenant_not_found m)) where
  resolve-Raises :
      ((m : String) → P (tenant_access_denied m))
      → (a : CurrentPrincipal) (id : Uuid) (roles : List Role)
      → Raises P (resolve_visible_tenant a id roles)
  unfolding resolve_visible_tenant
  resolve-Raises denied a id roles = search (raises_rules, missing, denied) depth 10

module _ {P : Error → Type 0} (p : P integrity_error) (c : Context) where
  record_update-Raises :
      (t : Tenant) (updates : Details) (a : CurrentPrincipal)
      → Raises P (record_update c t updates a)
  unfolding record_update
  record_update-Raises t [] a = search raises_rules
  record_update-Raises t (u ∷ updates) a = search record_audit_event-Raises

pub create_tenant-Raises :
    (c : Context) (payload : TenantCreateRequest) (a : CurrentPrincipal) (client : Client)
    → Raises
        (Presented (401 ∷ 403 ∷ 409 ∷ []) tenant_conflict_409)
        (create_tenant c payload a client)
unfolding create_tenant insert_tenant refresh_tenant tenant_conflict_409 is_presented
create_tenant-Raises c payload a client = search (raises_rules, record_audit_event-Raises) depth 14

pub update_tenant-Raises :
    (c : Context) (id : Uuid) (payload : TenantUpdateRequest) (a : CurrentPrincipal)
    → Raises (Presented (401 ∷ 403 ∷ 404 ∷ []) tenant_404_403) (update_tenant c id payload a)
unfolding update_tenant refresh_tenant tenant_404_403 is_presented
update_tenant-Raises c id payload a =
    search (raises_rules, resolve-Raises, record_update-Raises) depth 14

pub every_role-is_among : (role : Role) → is_among role every_role ≡ true
every_role-is_among role = ground arith

-- No role is denied where every role is allowed.
pub get_tenant-Raises :
    (a : CurrentPrincipal) (id : Uuid)
    → Raises (Presented (401 ∷ 404 ∷ []) tenant_404) (get_tenant a id)
unfolding get_tenant resolve_visible_tenant tenant_404 is_presented
get_tenant-Raises a id =
    rw (every_role-is_among a.role) (search (raises_rules, raise_none) depth 12)

pub list_users-Raises :
    (c : Context) (a : CurrentPrincipal) (id : Uuid)
    → Raises (Presented (401 ∷ 403 ∷ 404 ∷ []) listing_404_403) (list_users c a id)
unfolding list_users listing_404_403 is_presented
list_users-Raises c a id = search (raises_rules, resolve-Raises)

-- The services of users.
module _ {P : Error → Type 0} (p : P integrity_error) (r : P invalid_request_error)
    (missing : (m : String) → P (managed_user_not_found m))
    (denied : (m : String) → P (user_management_access_denied m)) (c : Context) where
  get_visible_user-Raises :
      (a : CurrentPrincipal) (id user_id : Uuid) → Raises P (get_visible_user a id user_id)
  unfolding get_visible_user
  get_visible_user-Raises a id user_id = search (raises_rules, missing) depth 10

  ensure_manageable_target-Raises : (a b : Role) → Raises P (ensure_manageable_target a b)
  unfolding ensure_manageable_target
  ensure_manageable_target-Raises a b = search (raises_rules, denied)

  ensure_role_assignment_allowed-Raises :
      (a b : Role) → Raises P (ensure_role_assignment_allowed a b)
  unfolding ensure_role_assignment_allowed
  ensure_role_assignment_allowed-Raises a b = search (raises_rules, denied)

  record_role_change-Raises :
      (u : User) (role : Role) (a : CurrentPrincipal) (client : Client)
      → Raises P (record_role_change c u role a client)
  unfolding record_role_change
  record_role_change-Raises u role a client = search (raises_rules, record_audit_event-Raises)

  deactivate-Raises :
      (u : User) (a : CurrentPrincipal) (client : Client) → Raises P (deactivate c u a client)
  unfolding deactivate
  deactivate-Raises u a client = search (raises_rules, record_audit_event-Raises) depth 10

ruleset user_rules = (
  raises_rules, resolve-Raises, get_visible_user-Raises, ensure_manageable_target-Raises,
  ensure_role_assignment_allowed-Raises, record_role_change-Raises, deactivate-Raises,
  record_audit_event-Raises,
)

pub create_user-Raises :
    (c : Context) (id : Uuid) (payload : UserCreateRequest) (a : CurrentPrincipal) (client : Client)
    → Raises
        (Presented (401 ∷ 403 ∷ 404 ∷ 409 ∷ []) creation_404_409_403)
        (create_user c id payload a client)
unfolding create_user insert_user refresh_user ensure_role_assignment_allowed creation_404_409_403
    is_presented
create_user-Raises c id payload a client =
    search (raises_rules, resolve-Raises, record_audit_event-Raises) depth 16

pub update_user_role-Raises :
    (c : Context) (id user_id : Uuid) (role : Role) (a : CurrentPrincipal) (client : Client)
    → Raises
        (Presented (401 ∷ 403 ∷ 404 ∷ []) change_404_403)
        (update_user_role c id user_id role a client)
unfolding update_user_role refresh_user change_404_403 is_presented
update_user_role-Raises c id user_id role a client = search user_rules depth 16

pub deactivate_user-Raises :
    (c : Context) (id user_id : Uuid) (a : CurrentPrincipal) (client : Client)
    → Raises
        (Presented (401 ∷ 403 ∷ 404 ∷ []) change_404_403)
        (deactivate_user c id user_id a client)
unfolding deactivate_user change_404_403 is_presented
deactivate_user-Raises c id user_id a client = search user_rules depth 16

pub list_tenant_audit_logs-Raises :
    (a : CurrentPrincipal) (id : Uuid) (action : Option AuditAction) (actor : Option Uuid)
    (limit offset : ℤ)
    → Raises
        (Presented (401 ∷ 403 ∷ 404 ∷ 422 ∷ []) tenant_404_403)
        (list_tenant_audit_logs a id action actor limit offset)
unfolding list_tenant_audit_logs build_response tenant_404_403 is_presented
list_tenant_audit_logs-Raises a id action actor limit offset =
    search (raises_rules, resolve-Raises) depth 10
