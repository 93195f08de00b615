-- ===== src/Tests/SeedingExamples.antt =====
-- The theorem on the bootstrap command at a rotated password.
use identity_access_service.Schemas.Body.{
  nullable, validate_login, validate_register, validate_role_update, validate_tenant_create,
  validate_tenant_update, validate_token, validate_user_create,
}
use identity_access_service.Schemas.Fields.{
  bool_field, check_email, check_slug, email_field, has_length, human_name, is_slug, normalize,
  normalize_value, optional, or_refused, password_field, refused, required, role_field, sized,
  slug_field, strip_value, then_check, validated, ◌<*>◌,
}
use identity_access_service.Schemas.Slug.{join_dashes, matches, slug_pattern}
use identity_access_service.Schemas.Text.{
  append, len, lower_char, lower_text, lstrip, rstrip, strip_text,
}
use identity_access_service.Services.Users.{
  create_user, deactivate, deactivate_user, ensure_manageable_target,
  ensure_role_assignment_allowed, get_visible_user, list_users, managed_user_response,
  managed_user_responses, record_role_change, refresh_user, update_user_role, user_in_tenant_by_id,
}
use identity_access_service.Services.Tenants.{
  assign_is_active, assign_name, create_tenant, dump_is_active, dump_name, get_current_tenant,
  get_tenant, has_null, list_tenants, record_update, refresh_tenant, resolve_visible_tenant,
  tenant_response, tenant_updates, update_tenant,
}
use identity_access_service.Services.Auth.Issue.{
  assign_user, issue_tokens_for_user, tenant_of, token_row,
}
use identity_access_service.Services.Audit.{audit_row, log_size, record_audit_event}
use identity_access_service.Core.Security.{
  create_access_token, create_refresh_token, decode_access_token, hash_password,
  hash_refresh_token_secret, parse_refresh_token, parse_role, split_dot, verify_password,
  verify_refresh_token_secret,
}
use identity_access_service.Db.Session.{
  commit, insert, insert_audit_log, insert_tenant, insert_token, insert_user, or_raise, pure, query,
  raise_if, run, write, ◌>>=◌,
}
use identity_access_service.Db.{
  audit_refused, dangling_tenant, dangling_user, tenant_by_id, tenant_by_slug, tenant_refused,
  token_by_id, token_refused, user_by_email, user_by_id, user_refused,
}
use identity_access_service.Uuid.Numeral.{
  digit_value, hex, hex_digit, int_16, int_digits, int_space,
}
use identity_access_service.Uuid.{parse_uuid, str_uuid}
use identity_access_service.Base.{
  arith, some, ◌≡◌, refl, true, false, any, char_at, drop_while, filter, first, insert_by,
  is_prefix, is_space, remove, sort, strip, take, update,
}
use identity_access_service.Errors.{ok}
use identity_access_service.Models.{User, Tenant, sys_admin, role_value}
use identity_access_service.Core.Context.{Context}
use identity_access_service.Services.Bootstrap.{
  rotate, recover, BootstrapAdminPayload, BootstrapAdminResult, ensure_system_admin, ensure_tenant,
  ensure_user, record_tenant_created, record_user_created,
}
use identity_access_service.Services.Auth.Login.Success.{IsFresh, login_result, signed_in}
use identity_access_service.Guarantees.Seeding.{seeded}
use identity_access_service.Guarantees.Seeding.SignIn.{
  IsAdmissible, typed_login, seeded_admin_signs_in,
}
use identity_access_service.Api.Auth.{AuthTokensResponse, build_auth_response}
use identity_access_service.Api.Bodies.{post_login}
use identity_access_service.Tests.Sample.{context, client, database}

abbrev command : Context
command = context 2 1_000 "s1"

abbrev next_request : Context
next_request = context 3 2_000 "s2"

abbrev payload : BootstrapAdminPayload
payload = record {
  tenant_name = "Root";
  tenant_slug = "root";
  full_name = "Sue";
  email = "sue@root.io";
  password = "changed1";
  rotate_password = true;
}

abbrev result : BootstrapAdminResult
result = record {
  tenant_id = 5;
  tenant_slug = "root";
  user_id = 6;
  email = "sue@root.io";
  tenant_created = false;
  user_created = false;
  password_rotated = true;
}

rotates : (run (ensure_system_admin command payload) database).0 ≡ ok result
unfolding rotate recover take char_at is_space drop_while strip is_prefix remove first filter any
    update insert_by sort str_uuid parse_uuid hex_digit hex digit_value int_digits int_space int_16
    tenant_by_slug tenant_by_id user_by_id user_by_email token_by_id dangling_tenant dangling_user
    tenant_refused user_refused token_refused audit_refused pure query or_raise raise_if commit
    write insert ◌>>=◌ insert_tenant insert_user insert_token insert_audit_log run role_value
    parse_role split_dot parse_refresh_token hash_password verify_password hash_refresh_token_secret
    verify_refresh_token_secret create_refresh_token create_access_token decode_access_token
    audit_row log_size record_audit_event tenant_of assign_user token_row issue_tokens_for_user
    tenant_response refresh_tenant resolve_visible_tenant get_tenant get_current_tenant dump_name
    dump_is_active tenant_updates assign_name assign_is_active has_null list_tenants create_tenant
    record_update update_tenant managed_user_response managed_user_responses user_in_tenant_by_id
    refresh_user ensure_manageable_target ensure_role_assignment_allowed get_visible_user list_users
    create_user record_role_change update_user_role deactivate deactivate_user ensure_tenant
    ensure_user record_tenant_created record_user_created ensure_system_admin
rotates = refl

fresh : IsFresh next_request (seeded command payload database)
unfolding rotate recover take char_at is_space drop_while strip is_prefix remove first filter any
    update insert_by sort str_uuid parse_uuid hex_digit hex digit_value int_digits int_space int_16
    tenant_by_slug tenant_by_id user_by_id user_by_email token_by_id dangling_tenant dangling_user
    tenant_refused user_refused token_refused audit_refused pure query or_raise raise_if commit
    write insert ◌>>=◌ insert_tenant insert_user insert_token insert_audit_log run role_value
    parse_role split_dot parse_refresh_token hash_password verify_password hash_refresh_token_secret
    verify_refresh_token_secret create_refresh_token create_access_token decode_access_token
    audit_row log_size record_audit_event tenant_of assign_user token_row issue_tokens_for_user
    tenant_response refresh_tenant resolve_visible_tenant get_tenant get_current_tenant dump_name
    dump_is_active tenant_updates assign_name assign_is_active has_null list_tenants create_tenant
    record_update update_tenant managed_user_response managed_user_responses user_in_tenant_by_id
    refresh_user ensure_manageable_target ensure_role_assignment_allowed get_visible_user list_users
    create_user record_role_change update_user_role deactivate deactivate_user ensure_tenant
    ensure_user record_tenant_created record_user_created ensure_system_admin
fresh = record { token = refl; event = refl }

admissible : IsAdmissible next_request payload
unfolding take char_at is_space drop_while strip is_prefix remove first filter any update insert_by
    sort str_uuid parse_uuid hex_digit hex digit_value int_digits int_space int_16 tenant_by_slug
    tenant_by_id user_by_id user_by_email token_by_id dangling_tenant dangling_user tenant_refused
    user_refused token_refused audit_refused pure query or_raise raise_if commit write insert ◌>>=◌
    insert_tenant insert_user insert_token insert_audit_log run role_value append len lstrip rstrip
    strip_text lower_char lower_text matches slug_pattern join_dashes ◌<*>◌ then_check validated
    refused or_refused required optional strip_value normalize normalize_value has_length sized
    human_name is_slug check_slug slug_field check_email email_field password_field role_field
    bool_field nullable validate_register validate_login validate_tenant_create
    validate_tenant_update validate_user_create validate_role_update validate_token
admissible = record {
  slug = refl;
  normal = refl;
  email = refl;
  password = refl;
  lifetime = omega arith;
}

seeded_admin_signs_in_example :
    (w : User) × (home : Tenant) × (response : AuthTokensResponse) × (w.role ≡ sys_admin)
    × (build_auth_response next_request.library
          (login_result next_request (signed_in next_request w) home)
        ≡ some response)
    × ((run
          (post_login next_request (typed_login payload) client)
          (seeded command payload database)).0
        ≡ ok (record { status = 200; body = response }))
seeded_admin_signs_in_example =
    seeded_admin_signs_in command payload database next_request client rotates refl admissible refl
      fresh
