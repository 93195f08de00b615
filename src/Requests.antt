-- ===== src/Requests.antt =====
-- The requests of the clients and the operator's command, each with the draws that it will meet, and
-- the database that it leaves.
pub mod Endpoints
pub mod Refines
use identity_access_service.Base.{String, Option, List, [], ◌∷◌, Bool}
use identity_access_service.Errors.{Result, ok, err}
use identity_access_service.Models.{Uuid, Role, AuditAction}
use identity_access_service.Db.{Db}
use identity_access_service.Db.Session.{run, open_session}
use identity_access_service.Core.Context.{Context, Client}
use identity_access_service.Core.Principal.{CurrentPrincipal}
use identity_access_service.Services.Auth.Register.{RegisterRequest}
use identity_access_service.Services.Auth.Login.{LoginRequest}
use identity_access_service.Services.Tenants.{TenantCreateRequest, TenantUpdateRequest}
use identity_access_service.Services.Users.{UserCreateRequest}
use identity_access_service.Services.Bootstrap.{BootstrapAdminPayload, ensure_system_admin}
use identity_access_service.Api.Dependencies.{Credentials, get_current_principal}
use identity_access_service.Api.Auth
use identity_access_service.Api.Tenants
use identity_access_service.Api.Users
use identity_access_service.Api.Rbac
use identity_access_service.Api.Audit
use identity_access_service.Base.Int.{ℤ}
use identity_access_service.Services.Audit.Listing.{Filters}
use identity_access_service.Policy.{Authority, anonymous, signed_in, operator}

pub data Request : Type 0 where
  register : Context → RegisterRequest → Client → Request
  login : Context → LoginRequest → Client → Request
  refresh : Context → String → Client → Request
  logout : Context → String → Client → Request
  list_tenants : Context → Option Credentials → Request
  create_tenant : Context → Option Credentials → TenantCreateRequest → Client → Request
  read_current_tenant : Context → Option Credentials → Request
  read_tenant : Context → Option Credentials → Uuid → Request
  update_tenant : Context → Option Credentials → Uuid → TenantUpdateRequest → Request
  list_users : Context → Option Credentials → Uuid → Request
  create_user : Context → Option Credentials → Uuid → UserCreateRequest → Client → Request
  update_user_role : Context → Option Credentials → Uuid → Uuid → Role → Client → Request
  deactivate_user : Context → Option Credentials → Uuid → Uuid → Client → Request
  read_current_principal : Context → Option Credentials → Request
  read_tenant_admin_summary : Context → Option Credentials → Request
  read_system_admin_summary : Context → Option Credentials → Request
  list_system_audit_logs : Context → Option Credentials → Filters → ℤ → ℤ → Request
  list_tenant_audit_logs :
      Context → Option Credentials → Uuid → Option AuditAction → Option Uuid → ℤ → ℤ → Request
  seed_system_admin : Context → BootstrapAdminPayload → Request

-- The database after the request.
unfoldable pub serve : Request → Db → Db
serve (register c payload client) db = (run (Auth.register_endpoint c payload client) db).1
serve (login c payload client) db = (run (Auth.login_endpoint c payload client) db).1
serve (refresh c token client) db = (run (Auth.refresh_endpoint c token client) db).1
serve (logout c token client) db = (run (Auth.logout_endpoint c token client) db).1
serve (list_tenants c who) db = (run (Tenants.list_tenants_endpoint c who) db).1
serve (create_tenant c who payload client) db =
    (run (Tenants.create_tenant_endpoint c who payload client) db).1
serve (read_current_tenant c who) db = (run (Tenants.read_current_tenant c who) db).1
serve (read_tenant c who id) db = (run (Tenants.read_tenant c who id) db).1
serve (update_tenant c who id payload) db =
    (run (Tenants.update_tenant_endpoint c who id payload) db).1
serve (list_users c who id) db = (run (Users.list_users_endpoint c who id) db).1
serve (create_user c who id payload client) db =
    (run (Users.create_user_endpoint c who id payload client) db).1
serve (update_user_role c who tenant_id id role client) db =
    (run (Users.update_user_role_endpoint c who tenant_id id role client) db).1
serve (deactivate_user c who tenant_id id client) db =
    (run (Users.deactivate_user_endpoint c who tenant_id id client) db).1
serve (read_current_principal c who) db = (run (Rbac.read_current_principal c who) db).1
serve (read_tenant_admin_summary c who) db = (run (Rbac.read_tenant_admin_summary c who) db).1
serve (read_system_admin_summary c who) db = (run (Rbac.read_system_admin_summary c who) db).1
serve (list_system_audit_logs c who filters limit offset) db =
    (run (Audit.list_system_audit_logs_endpoint c who filters limit offset) db).1
serve (list_tenant_audit_logs c who id action actor limit offset) db =
    (run (Audit.list_tenant_audit_logs_endpoint c who id action actor limit offset) db).1
serve (seed_system_admin c payload) db = (run (ensure_system_admin c payload) db).1

-- Requests in the order in which they are committed.
unfoldable pub serve_all : List Request → Db → Db
serve_all [] db = db
serve_all (r ∷ rs) db = serve_all rs (serve r db)

-- A caller whose credentials are refused is anonymous.
abbrev pub caller : Result CurrentPrincipal → Authority
caller (ok p) = signed_in p
caller (err e) = anonymous

abbrev pub signed_in_by : Context → Option Credentials → Db → Authority
signed_in_by c who db = caller (get_current_principal c who (open_session db)).0

-- On whose authority a request is made, at the database that it meets.
unfoldable pub authority : Request → Db → Authority
authority (register c payload client) db = anonymous
authority (login c payload client) db = anonymous
authority (refresh c token client) db = anonymous
authority (logout c token client) db = anonymous
authority (list_tenants c who) db = signed_in_by c who db
authority (create_tenant c who payload client) db = signed_in_by c who db
authority (read_current_tenant c who) db = signed_in_by c who db
authority (read_tenant c who id) db = signed_in_by c who db
authority (update_tenant c who id payload) db = signed_in_by c who db
authority (list_users c who id) db = signed_in_by c who db
authority (create_user c who id payload client) db = signed_in_by c who db
authority (update_user_role c who tenant_id id role client) db = signed_in_by c who db
authority (deactivate_user c who tenant_id id client) db = signed_in_by c who db
authority (read_current_principal c who) db = signed_in_by c who db
authority (read_tenant_admin_summary c who) db = signed_in_by c who db
authority (read_system_admin_summary c who) db = signed_in_by c who db
authority (list_system_audit_logs c who filters limit offset) db = signed_in_by c who db
authority (list_tenant_audit_logs c who id action actor limit offset) db = signed_in_by c who db
authority (seed_system_admin c payload) db = operator
