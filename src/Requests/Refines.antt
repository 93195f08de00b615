-- ===== src/Requests/Refines.antt =====
-- Every request makes only changes that the policy permits its caller.
use identity_access_service.Db.{Db}
use identity_access_service.Db.Keeps.{run_keeps}
use identity_access_service.Db.Session.{open_session}
use identity_access_service.Policy.{Reach, here}
use identity_access_service.Policy.Operating.{ensure_system_admin-Keeps}
use identity_access_service.Requests
use identity_access_service.Requests.{Request, serve, authority}
use identity_access_service.Requests.Endpoints.{
  list_tenants_endpoint-Keeps, create_tenant_endpoint-Keeps, read_current_tenant-Keeps,
  read_tenant-Keeps, update_tenant_endpoint-Keeps, list_users_endpoint-Keeps,
  create_user_endpoint-Keeps, update_user_role_endpoint-Keeps, deactivate_user_endpoint-Keeps,
  read_current_principal-Keeps, read_tenant_admin_summary-Keeps, read_system_admin_summary-Keeps,
  list_system_audit_logs_endpoint-Keeps, list_tenant_audit_logs_endpoint-Keeps,
  register_endpoint-Keeps, login_endpoint-Keeps, refresh_endpoint-Keeps, logout_endpoint-Keeps,
}

-- Whatever the request and the database, the request takes the database to the one that it leaves
-- by a sequence of steps, each of which the policy permits to the caller, who is the principal of
-- its credentials at that database, nobody, or the operator.
pub serve-Reach : (r : Request) (db : Db) → Reach (authority r db) db (serve r db)
unfolding serve authority
serve-Reach (Requests.register c payload client) db =
    run_keeps _ db (register_endpoint-Keeps db c payload client) here
serve-Reach (Requests.login c payload client) db =
    run_keeps _ db (login_endpoint-Keeps db c payload client) here
serve-Reach (Requests.refresh c token client) db =
    run_keeps _ db (refresh_endpoint-Keeps db c token client) here
serve-Reach (Requests.logout c token client) db =
    run_keeps _ db (logout_endpoint-Keeps db c token client) here
serve-Reach (Requests.list_tenants c who) db =
    run_keeps _ db (list_tenants_endpoint-Keeps db c who) here
serve-Reach (Requests.create_tenant c who payload client) db =
    run_keeps _ db (create_tenant_endpoint-Keeps db c who payload client) here
serve-Reach (Requests.read_current_tenant c who) db =
    run_keeps _ db (read_current_tenant-Keeps db c who) here
serve-Reach (Requests.read_tenant c who id) db = run_keeps _ db (read_tenant-Keeps db c who id) here
serve-Reach (Requests.update_tenant c who id payload) db =
    run_keeps _ db (update_tenant_endpoint-Keeps db c who id payload) here
serve-Reach (Requests.list_users c who id) db =
    run_keeps _ db (list_users_endpoint-Keeps db c who id) here
serve-Reach (Requests.create_user c who id payload client) db =
    run_keeps _ db (create_user_endpoint-Keeps db c who id payload client) here
serve-Reach (Requests.update_user_role c who tenant_id id role client) db =
    run_keeps _ db (update_user_role_endpoint-Keeps db c who tenant_id id role client) here
serve-Reach (Requests.deactivate_user c who tenant_id id client) db =
    run_keeps _ db (deactivate_user_endpoint-Keeps db c who tenant_id id client) here
serve-Reach (Requests.read_current_principal c who) db =
    run_keeps _ db (read_current_principal-Keeps db c who) here
serve-Reach (Requests.read_tenant_admin_summary c who) db =
    run_keeps _ db (read_tenant_admin_summary-Keeps db c who) here
serve-Reach (Requests.read_system_admin_summary c who) db =
    run_keeps _ db (read_system_admin_summary-Keeps db c who) here
serve-Reach (Requests.list_system_audit_logs c who filters limit offset) db =
    run_keeps _ db (list_system_audit_logs_endpoint-Keeps db c who filters limit offset) here
serve-Reach (Requests.list_tenant_audit_logs c who id action actor limit offset) db =
    run_keeps _ db (list_tenant_audit_logs_endpoint-Keeps db c who id action actor limit offset)
      here
serve-Reach (Requests.seed_system_admin c payload) db =
    run_keeps _ db (ensure_system_admin-Keeps c payload (open_session db)) here
