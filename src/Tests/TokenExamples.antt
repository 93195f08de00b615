-- ===== src/Tests/TokenExamples.antt =====
-- The theorems on refresh tokens at one rotation, one logout and one deactivation.
use identity_access_service.Services.Tenants.{
  assign_is_active, assign_name, create_tenant, dump_is_active, dump_name, get_current_tenant,
  get_tenant, has_null, list_tenants, record_update, refresh_tenant, resolve_visible_tenant,
  tenant_response, tenant_updates, update_tenant,
}
use identity_access_service.Services.Users.{
  create_user, deactivate, deactivate_user, ensure_manageable_target,
  ensure_role_assignment_allowed, get_visible_user, list_users, managed_user_response,
  managed_user_responses, record_role_change, refresh_user, update_user_role, user_in_tenant_by_id,
}
use identity_access_service.Services.Audit.{audit_row, log_size, record_audit_event}
use identity_access_service.Core.Security.{
  create_access_token, create_refresh_token, decode_access_token, hash_password,
  hash_refresh_token_secret, parse_refresh_token, parse_role, split_dot, verify_password,
  verify_refresh_token_secret,
}
use identity_access_service.Uuid.Numeral.{
  digit_value, hex, hex_digit, int_16, int_digits, int_space,
}
use identity_access_service.Uuid.{parse_uuid, str_uuid}
use identity_access_service.Base.{
  ◌≡◌, ◌↔◌, refl, some, [], ◌∷◌, true, false, any, char_at, drop_while, filter, first, insert_by,
  is_prefix, is_space, remove, sort, strip, take, update,
}
use identity_access_service.Errors.{ok, err}
use identity_access_service.Models.{sys_admin, RefreshToken, User, role_value}
use identity_access_service.Db.{
  Db, audit_refused, dangling_tenant, dangling_user, tenant_by_id, tenant_by_slug, tenant_refused,
  token_by_id, token_refused, user_by_email, user_by_id, user_refused,
}
use identity_access_service.Db.Session.{
  open_session, commit, insert, insert_audit_log, insert_tenant, insert_token, insert_user,
  or_raise, pure, query, raise_if, run, write, ◌>>=◌,
}
use identity_access_service.Services.Auth.Issue.{
  AuthResult, assign_user, issue_tokens_for_user, tenant_of, token_row,
}
use identity_access_service.Services.Auth.Tokens.{
  invalid_token, get_valid_refresh_token, logout, logout_parsed, logout_stored, logout_token,
  record_revocation, refresh, revoke_token, user_of,
}
use identity_access_service.Services.Auth.Tokens.Usable.{IsUsable, get_valid_refresh_token_iff}
use identity_access_service.Services.Auth.Tokens.Rotation.{refresh_rotates, rotated, revoked_only}
use identity_access_service.Requests.{Request, serve_all}
use identity_access_service.Guarantees.Revocation.{IsRevoked, serve_all-IsRevoked}
use identity_access_service.Core.Principal.{CurrentPrincipal}
use identity_access_service.Guarantees.Deactivation.{deactivation_ends_sessions}
use identity_access_service.Guarantees.SingleUse.{refresh_is_single_use, logout_ends_session}
use identity_access_service.Tests.Sample.{context, client, database, ann, acme, ann_text, ann_token}
use identity_access_service.Core.Context.{Context}

abbrev first_request : Context
first_request = context 2 1_000 "s1"

abbrev second_request : Context
second_request = context 3 2_000 "s2"

abbrev result : AuthResult
result = record {
  user = ann;
  tenant = acme;
  access_token = "00000000-0000-0000-0000-000000000002";
  refresh_token = "00000000-0000-0000-0000-000000000017.s1";
  access_token_expires_in = 900;
}

refreshes : (run (refresh first_request ann_text client) database).0 ≡ ok result
unfolding take char_at is_space drop_while strip is_prefix remove first filter any update insert_by
    sort str_uuid parse_uuid hex_digit hex digit_value int_digits int_space int_16 tenant_by_slug
    tenant_by_id user_by_id user_by_email token_by_id dangling_tenant dangling_user tenant_refused
    user_refused token_refused audit_refused pure query or_raise raise_if commit write insert ◌>>=◌
    insert_tenant insert_user insert_token insert_audit_log run role_value parse_role split_dot
    parse_refresh_token hash_password verify_password hash_refresh_token_secret
    verify_refresh_token_secret create_refresh_token create_access_token decode_access_token
    audit_row log_size record_audit_event tenant_of assign_user token_row issue_tokens_for_user
    user_of get_valid_refresh_token revoke_token record_revocation refresh logout_token
    logout_stored logout_parsed logout
refreshes = refl

logs_out : (run (logout first_request ann_text client) database).0 ≡ ok tt
unfolding take char_at is_space drop_while strip is_prefix remove first filter any update insert_by
    sort str_uuid parse_uuid hex_digit hex digit_value int_digits int_space int_16 tenant_by_slug
    tenant_by_id user_by_id user_by_email token_by_id dangling_tenant dangling_user tenant_refused
    user_refused token_refused audit_refused pure query or_raise raise_if commit write insert ◌>>=◌
    insert_tenant insert_user insert_token insert_audit_log run role_value parse_role split_dot
    parse_refresh_token hash_password verify_password hash_refresh_token_secret
    verify_refresh_token_secret create_refresh_token create_access_token decode_access_token
    audit_row log_size record_audit_event tenant_of assign_user token_row issue_tokens_for_user
    user_of get_valid_refresh_token revoke_token record_revocation refresh logout_token
    logout_stored logout_parsed logout
logs_out = refl

parses : parse_refresh_token ann_text ≡ some (13, "s0")
unfolding take char_at is_space drop_while strip is_prefix remove first filter any update insert_by
    sort str_uuid parse_uuid hex_digit hex digit_value int_digits int_space int_16 tenant_by_slug
    tenant_by_id user_by_id user_by_email token_by_id dangling_tenant dangling_user tenant_refused
    user_refused token_refused audit_refused pure query or_raise raise_if commit write insert ◌>>=◌
    insert_tenant insert_user insert_token insert_audit_log run role_value parse_role split_dot
    parse_refresh_token hash_password verify_password hash_refresh_token_secret
    verify_refresh_token_secret create_refresh_token create_access_token decode_access_token
    audit_row log_size record_audit_event tenant_of assign_user token_row issue_tokens_for_user
parses = refl

finds : token_by_id 13 database ≡ some ann_token
unfolding take char_at is_space drop_while strip is_prefix remove first filter any update insert_by
    sort str_uuid parse_uuid hex_digit hex digit_value int_digits int_space int_16 tenant_by_slug
    tenant_by_id user_by_id user_by_email token_by_id dangling_tenant dangling_user tenant_refused
    user_refused token_refused audit_refused pure query or_raise raise_if commit write insert ◌>>=◌
    insert_tenant insert_user insert_token insert_audit_log run role_value
finds = refl

verifies : verify_refresh_token_secret first_request "s0" "s0" ≡ true
unfolding take char_at is_space drop_while strip is_prefix remove first filter any update insert_by
    sort str_uuid parse_uuid hex_digit hex digit_value int_digits int_space int_16 tenant_by_slug
    tenant_by_id user_by_id user_by_email token_by_id dangling_tenant dangling_user tenant_refused
    user_refused token_refused audit_refused pure query or_raise raise_if commit write insert ◌>>=◌
    insert_tenant insert_user insert_token insert_audit_log run role_value parse_role split_dot
    parse_refresh_token hash_password verify_password hash_refresh_token_secret
    verify_refresh_token_secret create_refresh_token create_access_token decode_access_token
    audit_row log_size record_audit_event tenant_of assign_user token_row issue_tokens_for_user
verifies = refl

accepted : (get_valid_refresh_token first_request ann_text (open_session database)).0 ≡ ok ann_token
unfolding take char_at is_space drop_while strip is_prefix remove first filter any update insert_by
    sort str_uuid parse_uuid hex_digit hex digit_value int_digits int_space int_16 tenant_by_slug
    tenant_by_id user_by_id user_by_email token_by_id dangling_tenant dangling_user tenant_refused
    user_refused token_refused audit_refused pure query or_raise raise_if commit write insert ◌>>=◌
    insert_tenant insert_user insert_token insert_audit_log run role_value parse_role split_dot
    parse_refresh_token hash_password verify_password hash_refresh_token_secret
    verify_refresh_token_secret create_refresh_token create_access_token decode_access_token
    audit_row log_size record_audit_event tenant_of assign_user token_row issue_tokens_for_user
    user_of get_valid_refresh_token revoke_token record_revocation refresh logout_token
    logout_stored logout_parsed logout
accepted = refl

refresh_is_single_use_example :
    run (refresh second_request ann_text client) (
      serve_all
        (Request.logout second_request ann_text client ∷ [])
        (run (refresh first_request ann_text client) database).1)
    ≡ (
      err invalid_token,
      serve_all
          (Request.logout second_request ann_text client ∷ [])
          (run (refresh first_request ann_text client) database).1,
    )
refresh_is_single_use_example =
    refresh_is_single_use first_request ann_text client database
      (Request.logout second_request ann_text client ∷ []) second_request client refreshes

logout_ends_session_example :
    run (refresh second_request ann_text client) (
      serve_all
        (Request.refresh second_request ann_text client ∷ [])
        (run (logout first_request ann_text client) database).1)
    ≡ (
      err invalid_token,
      serve_all
          (Request.refresh second_request ann_text client ∷ [])
          (run (logout first_request ann_text client) database).1,
    )
logout_ends_session_example =
    logout_ends_session first_request ann_text client database 13 "s0" ann_token
      (Request.refresh second_request ann_text client ∷ []) second_request client parses finds
      verifies logs_out

refresh_rotates_example :
    (t : RefreshToken) × (u : User) × IsUsable first_request ann_text database t
    × (user_by_id t.user_id database ≡ some u)
    × (token_refused
          (token_row first_request u)
          (revoked_only first_request ann_text client database t)
        ≡ false)
    × ((run (refresh first_request ann_text client) database).1
        ≡ rotated first_request ann_text client database t u)
refresh_rotates_example = refresh_rotates first_request ann_text client database refreshes

get_valid_refresh_token_iff_example :
    (get_valid_refresh_token first_request ann_text (open_session database)).0 ≡ ok ann_token
    ↔ IsUsable first_request ann_text database ann_token
get_valid_refresh_token_iff_example =
    get_valid_refresh_token_iff first_request ann_text (open_session database) ann_token

abbrev after_logout : Db
after_logout = (run (logout first_request ann_text client) database).1

revoked : IsRevoked 13 after_logout
unfolding take char_at is_space drop_while strip is_prefix remove first filter any update insert_by
    sort str_uuid parse_uuid hex_digit hex digit_value int_digits int_space int_16 tenant_by_slug
    tenant_by_id user_by_id user_by_email token_by_id dangling_tenant dangling_user tenant_refused
    user_refused token_refused audit_refused pure query or_raise raise_if commit write insert ◌>>=◌
    insert_tenant insert_user insert_token insert_audit_log run role_value parse_role split_dot
    parse_refresh_token hash_password verify_password hash_refresh_token_secret
    verify_refresh_token_secret create_refresh_token create_access_token decode_access_token
    audit_row log_size record_audit_event tenant_of assign_user token_row issue_tokens_for_user
    user_of get_valid_refresh_token revoke_token record_revocation refresh logout_token
    logout_stored logout_parsed logout
revoked = (_, refl, refl)

serve_all-IsRevoked_example :
    IsRevoked 13 (serve_all (Request.refresh second_request ann_text client ∷ []) after_logout)
serve_all-IsRevoked_example =
    serve_all-IsRevoked 13 (Request.refresh second_request ann_text client ∷ []) after_logout
      revoked

-- Sue deactivates Ann.
abbrev sue_principal : CurrentPrincipal
sue_principal = record {
  user_id = 6;
  tenant_id = 5;
  role = sys_admin;
  email = "sue@root.io";
  full_name = "Sue";
  tenant_slug = "root";
  tenant_name = "Root";
}

deactivates : (run (deactivate_user first_request 1 2 sue_principal client) database).0 ≡ ok tt
unfolding take char_at is_space drop_while strip is_prefix remove first filter any update insert_by
    sort str_uuid parse_uuid hex_digit hex digit_value int_digits int_space int_16 tenant_by_slug
    tenant_by_id user_by_id user_by_email token_by_id dangling_tenant dangling_user tenant_refused
    user_refused token_refused audit_refused pure query or_raise raise_if commit write insert ◌>>=◌
    insert_tenant insert_user insert_token insert_audit_log run role_value parse_role split_dot
    parse_refresh_token hash_password verify_password hash_refresh_token_secret
    verify_refresh_token_secret create_refresh_token create_access_token decode_access_token
    audit_row log_size record_audit_event tenant_of assign_user token_row issue_tokens_for_user
    managed_user_response managed_user_responses user_in_tenant_by_id refresh_user
    ensure_manageable_target ensure_role_assignment_allowed get_visible_user list_users create_user
    record_role_change update_user_role deactivate deactivate_user tenant_response refresh_tenant
    resolve_visible_tenant get_tenant get_current_tenant dump_name dump_is_active tenant_updates
    assign_name assign_is_active has_null list_tenants create_tenant record_update update_tenant
deactivates = refl

finds_ann : user_in_tenant_by_id 1 2 database ≡ some ann
unfolding take char_at is_space drop_while strip is_prefix remove first filter any update insert_by
    sort str_uuid parse_uuid hex_digit hex digit_value int_digits int_space int_16 tenant_by_slug
    tenant_by_id user_by_id user_by_email token_by_id dangling_tenant dangling_user tenant_refused
    user_refused token_refused audit_refused pure query or_raise raise_if commit write insert ◌>>=◌
    insert_tenant insert_user insert_token insert_audit_log run role_value managed_user_response
    managed_user_responses user_in_tenant_by_id refresh_user ensure_manageable_target
    ensure_role_assignment_allowed get_visible_user list_users create_user record_role_change
    update_user_role deactivate deactivate_user tenant_response refresh_tenant
    resolve_visible_tenant get_tenant get_current_tenant dump_name dump_is_active tenant_updates
    assign_name assign_is_active has_null list_tenants create_tenant record_update update_tenant
finds_ann = refl

deactivation_ends_sessions_example :
    run (refresh second_request ann_text client) (
      serve_all
        (Request.logout second_request ann_text client ∷ [])
        (run (deactivate_user first_request 1 2 sue_principal client) database).1)
    ≡ (
      err invalid_token,
      serve_all
          (Request.logout second_request ann_text client ∷ [])
          (run (deactivate_user first_request 1 2 sue_principal client) database).1,
    )
deactivation_ends_sessions_example =
    deactivation_ends_sessions first_request 1 2 sue_principal client database ann ann_text 13 "s0"
      ann_token (Request.logout second_request ann_text client ∷ []) second_request client finds_ann
      refl parses finds refl deactivates
