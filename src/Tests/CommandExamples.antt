-- ===== src/Tests/CommandExamples.antt =====
-- The theorems on the command at a second run, at a typed password and at a conflict.
use identity_access_service.Services.Users.{
  create_user, deactivate, deactivate_user, ensure_manageable_target,
  ensure_role_assignment_allowed, get_visible_user, list_users, managed_user_response,
  managed_user_responses, record_role_change, refresh_user, update_user_role, user_in_tenant_by_id,
}
use identity_access_service.Services.Tenants.{
  assign_is_active, assign_name, create_tenant, dump_is_active, dump_name, get_current_tenant,
  get_tenant, has_null, list_tenants, record_update, refresh_tenant, resolve_visible_tenant,
  tenant_response, tenant_updates, update_tenant,
}
use identity_access_service.Services.Auth.Issue.{
  assign_user, issue_tokens_for_user, tenant_of, token_row,
}
use identity_access_service.Services.Audit.{audit_row, log_size, record_audit_event}
use identity_access_service.Core.Security.{
  create_access_token, create_refresh_token, decode_access_token, hash_password,
  hash_refresh_token_secret, parse_refresh_token, parse_role, split_dot, verify_password,
  verify_refresh_token_secret,
}
use identity_access_service.Models.{role_value}
use identity_access_service.Db.Session.{
  commit, insert, insert_audit_log, insert_tenant, insert_token, insert_user, or_raise, pure, query,
  raise_if, run, write, ◌>>=◌,
}
use identity_access_service.Uuid.Numeral.{
  digit_value, hex, hex_digit, int_16, int_digits, int_space,
}
use identity_access_service.Uuid.{parse_uuid, str_uuid}
use identity_access_service.Base.{
  String, ◌≡◌, ◌≢◌, ◌↔◌, arith, refl, true, false, none, any, char_at, drop_while, filter, first,
  insert_by, is_prefix, is_space, remove, sort, strip, take, update,
}
use identity_access_service.Errors.{ok}
use identity_access_service.Db.{
  audit_refused, dangling_tenant, dangling_user, tenant_by_id, tenant_by_slug, tenant_refused,
  token_by_id, token_refused, user_by_email, user_by_id, user_refused,
}
use identity_access_service.Core.Context.{Context}
use identity_access_service.Services.Bootstrap.{
  rotate, recover, BootstrapAdminPayload, BootstrapAdminResult, ensure_system_admin, ensure_tenant,
  ensure_user, record_tenant_created, record_user_created,
}
use identity_access_service.Guarantees.Integrity.{IsValid}
use identity_access_service.Guarantees.Seeding.{seeded}
use identity_access_service.Guarantees.Seeding.Again.{without_reset, seeding_is_idempotent}
use identity_access_service.Management.{
  Arguments, main, status_of, exited, payload_of, choose_password, exit_of, failed, main_with,
  prompt_for_password, ready,
}
use identity_access_service.Management.Exits.{IsChosen, main_succeeds, main_failure_keeps}
use identity_access_service.Tests.Sample.{context, database}

abbrev command : Context
command = context 2 1_000 "s1"

abbrev next_command : Context
next_command = context 3 2_000 "s2"

abbrev arguments : String → String → Arguments
arguments slug email = record {
  tenant_name = "Root";
  tenant_slug = slug;
  full_name = "Sue";
  email = email;
  password = none;
  reset_password = true;
}

abbrev payload : BootstrapAdminPayload
payload = payload_of (arguments "root" "sue@root.io") "changed"

abbrev result : BootstrapAdminResult
result = record {
  tenant_id = 5;
  tenant_slug = "root";
  user_id = 6;
  email = "sue@root.io";
  tenant_created = false;
  user_created = false;
  password_rotated = true;
}

rotates : (run (ensure_system_admin command payload) database).0 ≡ ok result
unfolding rotate recover take char_at is_space drop_while strip is_prefix remove first filter any
    update insert_by sort str_uuid parse_uuid hex_digit hex digit_value int_digits int_space int_16
    tenant_by_slug tenant_by_id user_by_id user_by_email token_by_id dangling_tenant dangling_user
    tenant_refused user_refused token_refused audit_refused pure query or_raise raise_if commit
    write insert ◌>>=◌ insert_tenant insert_user insert_token insert_audit_log run role_value
    parse_role split_dot parse_refresh_token hash_password verify_password hash_refresh_token_secret
    verify_refresh_token_secret create_refresh_token create_access_token decode_access_token
    audit_row log_size record_audit_event tenant_of assign_user token_row issue_tokens_for_user
    tenant_response refresh_tenant resolve_visible_tenant get_tenant get_current_tenant dump_name
    dump_is_active tenant_updates assign_name assign_is_active has_null list_tenants create_tenant
    record_update update_tenant managed_user_response managed_user_responses user_in_tenant_by_id
    refresh_user ensure_manageable_target ensure_role_assignment_allowed get_visible_user list_users
    create_user record_role_change update_user_role deactivate deactivate_user ensure_tenant
    ensure_user record_tenant_created record_user_created ensure_system_admin prompt_for_password
    choose_password payload_of failed ready exit_of main_with main
rotates = refl

valid : IsValid database
unfolding take char_at is_space drop_while strip is_prefix remove first filter any update insert_by
    sort str_uuid parse_uuid hex_digit hex digit_value int_digits int_space int_16 tenant_by_slug
    tenant_by_id user_by_id user_by_email token_by_id dangling_tenant dangling_user tenant_refused
    user_refused token_refused audit_refused pure query or_raise raise_if commit write insert ◌>>=◌
    insert_tenant insert_user insert_token insert_audit_log run role_value
valid = record {
  tenants_distinct = (refl, (refl, tt));
  users_distinct = (refl, (refl, (refl, tt)));
  tokens_distinct = (refl, tt);
  logs_distinct = tt;
  users_owned = (refl, (refl, (refl, tt)));
  tokens_owned = (refl, tt);
  logs_owned = tt;
}

seeding_is_idempotent_example :
    (r : BootstrapAdminResult) × (run
        (ensure_system_admin next_command (without_reset payload))
        (seeded command payload database)
      ≡ (ok r, seeded command payload database))
    × (r.tenant_created ≡ false)
    × (r.user_created ≡ false)
    × (r.password_rotated ≡ false)
seeding_is_idempotent_example =
    seeding_is_idempotent command payload database next_command valid rotates

main_succeeds_example :
    (status_of (main command (arguments "root" "sue@root.io") "changed" "changed" database).0 ≡ 0)
    ↔ ((p : String) × IsChosen none "changed" "changed" p
        × (r : BootstrapAdminResult) × (run
              (ensure_system_admin command (payload_of (arguments "root" "sue@root.io") p))
              database
            ≡ (
              ok r,
              (main command (arguments "root" "sue@root.io") "changed" "changed" database).1,
            )))
main_succeeds_example =
    main_succeeds command (arguments "root" "sue@root.io") "changed" "changed" database

-- The address of an account that is no system administrator.
conflict :
    (main command (arguments "acme" "ann@acme.io") "changed" "changed" database).0
    ≡ exited 1 ""
        "Bootstrap failed: An existing user with this email is not a system administrator."
unfolding rotate recover take char_at is_space drop_while strip is_prefix remove first filter any
    update insert_by sort str_uuid parse_uuid hex_digit hex digit_value int_digits int_space int_16
    tenant_by_slug tenant_by_id user_by_id user_by_email token_by_id dangling_tenant dangling_user
    tenant_refused user_refused token_refused audit_refused pure query or_raise raise_if commit
    write insert ◌>>=◌ insert_tenant insert_user insert_token insert_audit_log run role_value
    parse_role split_dot parse_refresh_token hash_password verify_password hash_refresh_token_secret
    verify_refresh_token_secret create_refresh_token create_access_token decode_access_token
    audit_row log_size record_audit_event tenant_of assign_user token_row issue_tokens_for_user
    tenant_response refresh_tenant resolve_visible_tenant get_tenant get_current_tenant dump_name
    dump_is_active tenant_updates assign_name assign_is_active has_null list_tenants create_tenant
    record_update update_tenant managed_user_response managed_user_responses user_in_tenant_by_id
    refresh_user ensure_manageable_target ensure_role_assignment_allowed get_visible_user list_users
    create_user record_role_change update_user_role deactivate deactivate_user ensure_tenant
    ensure_user record_tenant_created record_user_created ensure_system_admin prompt_for_password
    choose_password payload_of failed ready exit_of main_with main
conflict = refl

failed_run :
    status_of (main command (arguments "acme" "ann@acme.io") "changed" "changed" database).0 ≢ 0
unfolding rotate recover take char_at is_space drop_while strip is_prefix remove first filter any
    update insert_by sort str_uuid parse_uuid hex_digit hex digit_value int_digits int_space int_16
    tenant_by_slug tenant_by_id user_by_id user_by_email token_by_id dangling_tenant dangling_user
    tenant_refused user_refused token_refused audit_refused pure query or_raise raise_if commit
    write insert ◌>>=◌ insert_tenant insert_user insert_token insert_audit_log run role_value
    parse_role split_dot parse_refresh_token hash_password verify_password hash_refresh_token_secret
    verify_refresh_token_secret create_refresh_token create_access_token decode_access_token
    audit_row log_size record_audit_event tenant_of assign_user token_row issue_tokens_for_user
    tenant_response refresh_tenant resolve_visible_tenant get_tenant get_current_tenant dump_name
    dump_is_active tenant_updates assign_name assign_is_active has_null list_tenants create_tenant
    record_update update_tenant managed_user_response managed_user_responses user_in_tenant_by_id
    refresh_user ensure_manageable_target ensure_role_assignment_allowed get_visible_user list_users
    create_user record_role_change update_user_role deactivate deactivate_user ensure_tenant
    ensure_user record_tenant_created record_user_created ensure_system_admin prompt_for_password
    choose_password payload_of failed ready exit_of main_with main
failed_run h = omega arith

main_failure_keeps_example :
    (main command (arguments "acme" "ann@acme.io") "changed" "changed" database).1 ≡ database
main_failure_keeps_example =
    main_failure_keeps command (arguments "acme" "ann@acme.io") "changed" "changed" database
      failed_run
