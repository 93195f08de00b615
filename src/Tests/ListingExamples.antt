-- ===== src/Tests/ListingExamples.antt =====
-- The listings of the audit log and the summaries at three events of two tenants.
use identity_access_service.Services.Auth.Issue.{
  assign_user, issue_tokens_for_user, tenant_of, token_row,
}
use identity_access_service.Services.Audit.{audit_row, log_size, record_audit_event}
use identity_access_service.Core.Security.{
  create_access_token, create_refresh_token, decode_access_token, hash_password,
  hash_refresh_token_secret, parse_refresh_token, parse_role, split_dot, verify_password,
  verify_refresh_token_secret,
}
use identity_access_service.Uuid.Numeral.{
  digit_value, hex, hex_digit, int_16, int_digits, int_space,
}
use identity_access_service.Uuid.{parse_uuid, str_uuid}
use mathlib.Core.List.{Perm}
use identity_access_service.Base.{
  ℕ, ◌≤◌, ◌+◌, ◌≡◌, refl, arith, none, some, List, [], ◌∷◌, map, All, length, filter, any, char_at,
  drop_while, first, insert_by, is_prefix, is_space, remove, sort, strip, take, update,
}
use identity_access_service.Base.Pages.{IsOrdered, limit, offset, pages}
use identity_access_service.Base.Int.{pos, max_int, at_least, at_most}
use identity_access_service.Errors.{ok}
use identity_access_service.Models.{Uuid, AuditLog, Tenant, user_created, sys_admin, role_value}
use identity_access_service.Db.{
  Db, tenant_by_id, audit_refused, dangling_tenant, dangling_user, tenant_by_slug, tenant_refused,
  token_by_id, token_refused, user_by_email, user_by_id, user_refused,
}
use identity_access_service.Db.Session.{
  Session, open_session, commit, insert, insert_audit_log, insert_tenant, insert_token, insert_user,
  or_raise, pure, query, raise_if, run, write, ◌>>=◌,
}
use identity_access_service.Core.Context.{Context}
use identity_access_service.Core.Principal.{CurrentPrincipal}
use identity_access_service.Services.Tenants.{
  admin_roles, assign_is_active, assign_name, create_tenant, dump_is_active, dump_name,
  get_current_tenant, get_tenant, has_null, list_tenants, record_update, refresh_tenant,
  resolve_visible_tenant, tenant_response, tenant_updates, update_tenant,
}
use identity_access_service.Services.Tenants.Visible.{MaySee}
use identity_access_service.Services.Audit.Listing.{
  Filters, AuditLogListResponse, newest_first, build_statement, serialize_log,
  list_system_audit_logs, list_tenant_audit_logs, actor_entry, build_response, equals, has_action,
  has_actor, has_tenant, joined_actor, joined_tenant, safe_limit, safe_offset, tenant_entry,
}
use identity_access_service.Services.Audit.Pages.{read_pages, read_pages_complete}
use identity_access_service.Services.Audit.Visible.{IsShownWith, list_tenant_audit_logs_sound}
use identity_access_service.Services.Rbac.{
  SystemAdminSummaryResponse, build_system_admin_summary, build_tenant_admin_summary,
}
use identity_access_service.Services.Rbac.Totals.{
  build_system_admin_summary_totals, build_tenant_admin_summary_local,
}
use identity_access_service.Services.Users.{
  user_in_tenant, create_user, deactivate, deactivate_user, ensure_manageable_target,
  ensure_role_assignment_allowed, get_visible_user, list_users, managed_user_response,
  managed_user_responses, record_role_change, refresh_user, update_user_role, user_in_tenant_by_id,
}
use identity_access_service.Api.Http.{
  build_error_response, code_of_status, code_or, except, handle, http_exception_handler, join_dots,
  reply, respond, validation_exception_handler, validation_item,
}
use identity_access_service.Api.Dependencies.{
  Credentials, get_current_principal, bearer_token, is_bearer, lower_ascii, require_roles,
  same_codes,
}
use identity_access_service.Api.Audit.{
  list_system_audit_logs_endpoint, limit_query, list_tenant_audit_logs_endpoint, offset_query,
  query_errors, validate_query,
}
use identity_access_service.Api.Audit.Ranges.{list_system_audit_logs_endpoint_requires}
use identity_access_service.Tests.Sample.{library, settings, env, database, ann_principal}

abbrev event : Uuid → Uuid → ℕ → AuditLog
event id tenant_id at = record {
  id = id;
  tenant_id = some tenant_id;
  actor_user_id = some 2;
  action = user_created;
  resource_type = "user";
  resource_id = "x";
  details = none;
  ip_address = none;
  user_agent = none;
  created_at = at;
}

abbrev logged : Session
logged =
    open_session (record database { audit_logs = event 7 1 20 ∷ event 8 5 30 ∷ event 9 1 10 ∷ [] })

abbrev everything : Filters
everything = record { action = none; tenant_id = none; actor_user_id = none }

selected_three : length (build_statement everything logged.db) ≡ 3
unfolding take char_at is_space drop_while strip is_prefix remove first filter any update insert_by
    sort str_uuid parse_uuid hex_digit hex digit_value int_digits int_space int_16 tenant_by_slug
    tenant_by_id user_by_id user_by_email token_by_id dangling_tenant dangling_user tenant_refused
    user_refused token_refused audit_refused pure query or_raise raise_if commit write insert ◌>>=◌
    insert_tenant insert_user insert_token insert_audit_log run role_value offset limit pages
    max_int at_least at_most has_action equals has_tenant has_actor build_statement joined_tenant
    joined_actor tenant_entry actor_entry serialize_log safe_limit safe_offset build_response
    list_system_audit_logs list_tenant_audit_logs read_pages
selected_three = refl

-- Two pages of two rows.
read_pages_complete_example :
    (rows : List AuditLog) × (read_pages everything 2 2 0 logged
      ≡ (ok (map (serialize_log logged.db) rows), logged))
    × Perm rows (build_statement everything logged.db)
    × IsOrdered newest_first rows
read_pages_complete_example =
    read_pages_complete everything logged 2 2 (omega arith) (omega arith)
      (omega (arith, selected_three))

abbrev shown_page : AuditLogListResponse
shown_page = record {
  items = map (serialize_log logged.db) (event 7 1 20 ∷ event 9 1 10 ∷ []);
  total = 2;
  limit = 50;
  offset = 0;
}

acme_log :
    (list_tenant_audit_logs ann_principal 1 none none (pos 50) (pos 0) logged).0 ≡ ok shown_page
unfolding take char_at is_space drop_while strip is_prefix remove first filter any update insert_by
    sort str_uuid parse_uuid hex_digit hex digit_value int_digits int_space int_16 tenant_by_slug
    tenant_by_id user_by_id user_by_email token_by_id dangling_tenant dangling_user tenant_refused
    user_refused token_refused audit_refused pure query or_raise raise_if commit write insert ◌>>=◌
    insert_tenant insert_user insert_token insert_audit_log run role_value offset limit pages
    max_int at_least at_most has_action equals has_tenant has_actor build_statement joined_tenant
    joined_actor tenant_entry actor_entry serialize_log safe_limit safe_offset build_response
    list_system_audit_logs list_tenant_audit_logs read_pages managed_user_response
    managed_user_responses user_in_tenant_by_id refresh_user ensure_manageable_target
    ensure_role_assignment_allowed get_visible_user list_users create_user record_role_change
    update_user_role deactivate deactivate_user tenant_response refresh_tenant
    resolve_visible_tenant get_tenant get_current_tenant dump_name dump_is_active tenant_updates
    assign_name assign_is_active has_null list_tenants create_tenant record_update update_tenant
acme_log = refl

list_tenant_audit_logs_sound_example :
    MaySee ann_principal 1 admin_roles
    × ((list_tenant_audit_logs ann_principal 1 none none (pos 50) (pos 0) logged).1 ≡ logged)
    × (t : Tenant) × (tenant_by_id 1 logged.db ≡ some t)
    × All (IsShownWith t) shown_page.items
list_tenant_audit_logs_sound_example =
    list_tenant_audit_logs_sound ann_principal 1 none none (pos 50) (pos 0) logged acme_log

-- A deployment whose access tokens name the system administrator.
abbrev root_context : Context
root_context = record {
  settings = settings;
  library = record library {
    jwt_decode = λ token key algorithm issuer now. some (record {
      sub = token;
      tenant_id = "00000000-0000-0000-0000-000000000005";
      role = "SYS_ADMIN";
      email = "sue@root.io";
      type = "access";
      iss = issuer;
    });
  };
  env = env 1 1_000 "s1";
}

abbrev sue_credentials : Credentials
sue_credentials = record { scheme = "Bearer"; credentials = "00000000-0000-0000-0000-000000000006" }

abbrev root_page : AuditLogListResponse
root_page = record {
  items = map (serialize_log logged.db) (event 8 5 30 ∷ event 7 1 20 ∷ []);
  total = 3;
  limit = 2;
  offset = 0;
}

root_log :
    (list_system_audit_logs_endpoint root_context
      (some sue_credentials)
      everything
      (pos 2)
      (pos 0)
      logged).0
    ≡ ok (record { status = 200; body = root_page })
unfolding take char_at is_space drop_while strip is_prefix remove first filter any update insert_by
    sort str_uuid parse_uuid hex_digit hex digit_value int_digits int_space int_16 tenant_by_slug
    tenant_by_id user_by_id user_by_email token_by_id dangling_tenant dangling_user tenant_refused
    user_refused token_refused audit_refused pure query or_raise raise_if commit write insert ◌>>=◌
    insert_tenant insert_user insert_token insert_audit_log run role_value parse_role split_dot
    parse_refresh_token hash_password verify_password hash_refresh_token_secret
    verify_refresh_token_secret create_refresh_token create_access_token decode_access_token
    audit_row log_size record_audit_event tenant_of assign_user token_row issue_tokens_for_user
    lower_ascii same_codes is_bearer bearer_token get_current_principal require_roles offset limit
    pages max_int at_least at_most has_action equals has_tenant has_actor build_statement
    joined_tenant joined_actor tenant_entry actor_entry serialize_log safe_limit safe_offset
    build_response list_system_audit_logs list_tenant_audit_logs read_pages reply except
    code_of_status code_or build_error_response join_dots validation_item
    validation_exception_handler http_exception_handler handle respond limit_query offset_query
    query_errors validate_query list_system_audit_logs_endpoint list_tenant_audit_logs_endpoint
    managed_user_response managed_user_responses user_in_tenant_by_id refresh_user
    ensure_manageable_target ensure_role_assignment_allowed get_visible_user list_users create_user
    record_role_change update_user_role deactivate deactivate_user tenant_response refresh_tenant
    resolve_visible_tenant get_tenant get_current_tenant dump_name dump_is_active tenant_updates
    assign_name assign_is_active has_null list_tenants create_tenant record_update update_tenant
root_log = refl

list_system_audit_logs_endpoint_requires_example :
    (p : CurrentPrincipal) × ((get_current_principal root_context (some sue_credentials) logged).0
      ≡ ok p)
    × (p.role ≡ sys_admin)
    × (pos 2 ≡ pos 2)
    × (pos 0 ≡ pos 0)
list_system_audit_logs_endpoint_requires_example =
    list_system_audit_logs_endpoint_requires root_context (some sue_credentials) everything (pos 2)
      (pos 0) logged root_log

build_system_admin_summary_totals_example :
    (r : SystemAdminSummaryResponse) × (build_system_admin_summary logged ≡ (ok r, logged))
    × (r.total_users ≡ length logged.db.users)
    × (r.total_tenants ≡ length logged.db.tenants)
    × (r.total_users ≡ r.system_admins + r.tenant_admins + r.standard_users)
    × (r.active_tenants ≤ r.total_tenants)
build_system_admin_summary_totals_example = build_system_admin_summary_totals logged

-- The same users of the first tenant without those of the second.
abbrev without_root : Db
without_root = record database { users = filter (user_in_tenant 1) database.users }

same_users : filter (user_in_tenant 1) database.users ≡ filter (user_in_tenant 1) without_root.users
unfolding take char_at is_space drop_while strip is_prefix remove first filter any update insert_by
    sort str_uuid parse_uuid hex_digit hex digit_value int_digits int_space int_16 tenant_by_slug
    tenant_by_id user_by_id user_by_email token_by_id dangling_tenant dangling_user tenant_refused
    user_refused token_refused audit_refused pure query or_raise raise_if commit write insert ◌>>=◌
    insert_tenant insert_user insert_token insert_audit_log run role_value
same_users = refl

build_tenant_admin_summary_local_example :
    (build_tenant_admin_summary ann_principal (open_session database)).0
    ≡ (build_tenant_admin_summary ann_principal (open_session without_root)).0
build_tenant_admin_summary_local_example =
    build_tenant_admin_summary_local ann_principal database without_root same_users
