-- ===== src/Guarantees/Answers/Raised.antt =====
-- The exceptions that leave the endpoint of a request.
use identity_access_service.Base.{ℕ, List, ◌⊎◌, true, Option, none, some, ◌≡◌, inl, inr}
use identity_access_service.Errors.{Error, Result, ok, err, Result-cases}
use identity_access_service.Db.{Db}
use identity_access_service.Db.Session.{Action, run, open_session}
use identity_access_service.Db.Raises.{Raises}
use identity_access_service.Api.Auth
use identity_access_service.Api.Tenants
use identity_access_service.Api.Users
use identity_access_service.Api.Rbac
use identity_access_service.Api.Audit
use identity_access_service.Requests
use identity_access_service.Requests.{Request}
use identity_access_service.Guarantees.Answers.{statuses, is_fault, is_presented}
use identity_access_service.Guarantees.Answers.Codes.{IsDocumented, documented}
use identity_access_service.Guarantees.Answers.Endpoints.{
  IsPresented, list_tenants_endpoint-Raises, create_tenant_endpoint-Raises, read_tenant-Raises,
  update_tenant_endpoint-Raises, list_users_endpoint-Raises, create_user_endpoint-Raises,
  update_user_role_endpoint-Raises, deactivate_user_endpoint-Raises, read_current_principal-Raises,
  read_tenant_admin_summary-Raises, read_system_admin_summary-Raises,
  list_system_audit_logs_endpoint-Raises, list_tenant_audit_logs_endpoint-Raises,
  read_current_tenant-Raises, register_endpoint-Raises, login_endpoint-Raises,
  refresh_endpoint-Raises, logout_endpoint-Raises,
}

abbrev exception : {A : Type 0} → Result A → Option Error
exception (ok a) = none
exception (err e) = some e

-- The exception that leaves the endpoint, if one does. The operator's command is no endpoint.
unfoldable pub raised : Request → Db → Option Error
raised (Requests.register c payload client) db =
    exception (run (Auth.register_endpoint c payload client) db).0
raised (Requests.login c payload client) db =
    exception (run (Auth.login_endpoint c payload client) db).0
raised (Requests.refresh c token client) db =
    exception (run (Auth.refresh_endpoint c token client) db).0
raised (Requests.logout c token client) db =
    exception (run (Auth.logout_endpoint c token client) db).0
raised (Requests.list_tenants c who) db = exception (run (Tenants.list_tenants_endpoint c who) db).0
raised (Requests.create_tenant c who payload client) db =
    exception (run (Tenants.create_tenant_endpoint c who payload client) db).0
raised (Requests.read_current_tenant c who) db =
    exception (run (Tenants.read_current_tenant c who) db).0
raised (Requests.read_tenant c who id) db = exception (run (Tenants.read_tenant c who id) db).0
raised (Requests.update_tenant c who id payload) db =
    exception (run (Tenants.update_tenant_endpoint c who id payload) db).0
raised (Requests.list_users c who id) db = exception (run (Users.list_users_endpoint c who id) db).0
raised (Requests.create_user c who id payload client) db =
    exception (run (Users.create_user_endpoint c who id payload client) db).0
raised (Requests.update_user_role c who tenant_id id role client) db =
    exception (run (Users.update_user_role_endpoint c who tenant_id id role client) db).0
raised (Requests.deactivate_user c who tenant_id id client) db =
    exception (run (Users.deactivate_user_endpoint c who tenant_id id client) db).0
raised (Requests.read_current_principal c who) db =
    exception (run (Rbac.read_current_principal c who) db).0
raised (Requests.read_tenant_admin_summary c who) db =
    exception (run (Rbac.read_tenant_admin_summary c who) db).0
raised (Requests.read_system_admin_summary c who) db =
    exception (run (Rbac.read_system_admin_summary c who) db).0
raised (Requests.list_system_audit_logs c who filters limit offset) db =
    exception (run (Audit.list_system_audit_logs_endpoint c who filters limit offset) db).0
raised (Requests.list_tenant_audit_logs c who id action actor limit offset) db =
    exception (run (Audit.list_tenant_audit_logs_endpoint c who id action actor limit offset) db).0
raised (Requests.seed_system_admin c payload) db = none

-- An action whose exceptions are presented, run as a request.
presented :
    {A : Type 0} (m : Action A) (db : Db) (allowed : List ℕ) {e : Error}
    → Raises (IsPresented allowed) m
    → exception (run m db).0 ≡ some e
    → IsPresented allowed e
unfolding run
presented m db allowed {e} rm h = elim (Result-cases (m (open_session db)).0) [
  | inl (x, bad) ↦
      let same : x ≡ e = cc (rw bad at h) in rw (← same) (rm.only (open_session db) x bad)
  | inr (a, good) ↦ absurd (cc (rw good at h))
]

raised-is_presented :
    (r : Request) (db : Db) (e : Error) → raised r db ≡ some e → is_presented (statuses r) e ≡ true
unfolding raised statuses
raised-is_presented (Requests.register c payload client) db e h =
    presented _ db _ (register_endpoint-Raises c payload client) h
raised-is_presented (Requests.login c payload client) db e h =
    presented _ db _ (login_endpoint-Raises c payload client) h
raised-is_presented (Requests.refresh c token client) db e h =
    presented _ db _ (refresh_endpoint-Raises c token client) h
raised-is_presented (Requests.logout c token client) db e h =
    presented _ db _ (logout_endpoint-Raises c token client) h
raised-is_presented (Requests.list_tenants c who) db e h =
    presented _ db _ (list_tenants_endpoint-Raises c who) h
raised-is_presented (Requests.create_tenant c who payload client) db e h =
    presented _ db _ (create_tenant_endpoint-Raises c who payload client) h
raised-is_presented (Requests.read_current_tenant c who) db e h =
    presented _ db _ (read_current_tenant-Raises c who) h
raised-is_presented (Requests.read_tenant c who id) db e h =
    presented _ db _ (read_tenant-Raises c who id) h
raised-is_presented (Requests.update_tenant c who id payload) db e h =
    presented _ db _ (update_tenant_endpoint-Raises c who id payload) h
raised-is_presented (Requests.list_users c who id) db e h =
    presented _ db _ (list_users_endpoint-Raises c who id) h
raised-is_presented (Requests.create_user c who id payload client) db e h =
    presented _ db _ (create_user_endpoint-Raises c who id payload client) h
raised-is_presented (Requests.update_user_role c who tenant_id id role client) db e h =
    presented _ db _ (update_user_role_endpoint-Raises c who tenant_id id role client) h
raised-is_presented (Requests.deactivate_user c who tenant_id id client) db e h =
    presented _ db _ (deactivate_user_endpoint-Raises c who tenant_id id client) h
raised-is_presented (Requests.read_current_principal c who) db e h =
    presented _ db _ (read_current_principal-Raises c who) h
raised-is_presented (Requests.read_tenant_admin_summary c who) db e h =
    presented _ db _ (read_tenant_admin_summary-Raises c who) h
raised-is_presented (Requests.read_system_admin_summary c who) db e h =
    presented _ db _ (read_system_admin_summary-Raises c who) h
raised-is_presented (Requests.list_system_audit_logs c who filters limit offset) db e h =
    presented _ db _ (list_system_audit_logs_endpoint-Raises c who filters limit offset) h
raised-is_presented (Requests.list_tenant_audit_logs c who id action actor limit offset) db e h =
    presented _ db _ (list_tenant_audit_logs_endpoint-Raises c who id action actor limit offset) h
raised-is_presented (Requests.seed_system_admin c payload) db e h = absurd (cc)

-- Whatever the request and the database, an exception that leaves its endpoint is answered by an
-- envelope with one of the statuses listed for that request and with the code that STATUS_CODE_MAP has
-- for it, unless it is a fault: an IntegrityError, an attribute of a row that is missing, a refresh of a
-- row that is gone, or a response that its model refuses. No exception of a service is left to the
-- server.
pub raised-presented :
    (r : Request) (db : Db) (e : Error)
    → raised r db ≡ some e
    → IsDocumented r e ⊎ (is_fault e ≡ true)
raised-presented r db e h = documented r e (raised-is_presented r db e h)
