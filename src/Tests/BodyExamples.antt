-- ===== src/Tests/BodyExamples.antt =====
-- The theorems on typed bodies at a sign-up in capitals, with a number for a name, and a login.
use identity_access_service.Services.Tenants.{
  assign_is_active, assign_name, create_tenant, dump_is_active, dump_name, get_current_tenant,
  get_tenant, has_null, list_tenants, record_update, refresh_tenant, resolve_visible_tenant,
  tenant_response, tenant_updates, update_tenant,
}
use identity_access_service.Services.Users.{
  create_user, deactivate, deactivate_user, ensure_manageable_target,
  ensure_role_assignment_allowed, get_visible_user, list_users, managed_user_response,
  managed_user_responses, record_role_change, refresh_user, update_user_role, user_in_tenant_by_id,
}
use identity_access_service.Api.Users.{
  change_404_403, create_user_endpoint, creation_404_409_403, deactivate_user_endpoint,
  list_users_endpoint, listing_404_403, update_user_role_endpoint,
}
use identity_access_service.Api.Tenants.{
  create_tenant_endpoint, list_tenants_endpoint, read_current_tenant, read_tenant, tenant_404,
  tenant_404_403, tenant_conflict_409, update_tenant_endpoint,
}
use identity_access_service.Services.Auth.Issue.{
  assign_user, issue_tokens_for_user, tenant_of, token_row,
}
use identity_access_service.Services.Audit.{audit_row, log_size, record_audit_event}
use identity_access_service.Core.Security.{
  create_access_token, create_refresh_token, decode_access_token, hash_password,
  hash_refresh_token_secret, parse_refresh_token, parse_role, split_dot, verify_password,
  verify_refresh_token_secret,
}
use identity_access_service.Uuid.Numeral.{
  digit_value, hex, hex_digit, int_16, int_digits, int_space,
}
use identity_access_service.Uuid.{parse_uuid, str_uuid}
use identity_access_service.Base.{
  String, true, Option, none, some, List, All, ◌≡◌, ◌↔◌, ◌≤◌, ◌⊎◌, refl, any, char_at, drop_while,
  filter, first, insert_by, is_prefix, is_space, remove, sort, strip, take, update,
}
use Prim.Native.Char.{Char}
use identity_access_service.Errors.{ok, attribute_error}
use identity_access_service.Models.{Tenant, tenant_admin, role_value}
use identity_access_service.Db.{
  audit_refused, dangling_tenant, dangling_user, tenant_by_id, tenant_by_slug, tenant_refused,
  token_by_id, token_refused, user_by_email, user_by_id, user_refused,
}
use identity_access_service.Db.Session.{
  run, commit, insert, insert_audit_log, insert_tenant, insert_token, insert_user, or_raise, pure,
  query, raise_if, write, ◌>>=◌,
}
use identity_access_service.Core.Context.{Context, Env, Json, with_draws}
use identity_access_service.Services.Auth.Register.{RegisterRequest, registered_user, register}
use identity_access_service.Services.Auth.Login.Success.{IsFresh, login_result, signed_in}
use identity_access_service.Schemas.Text.{
  len, append, lower_char, lower_text, lstrip, rstrip, strip_text,
}
use identity_access_service.Schemas.Slug.{
  slug_pattern, join_dashes, IsWord, slug_pattern_iff, matches,
}
use identity_access_service.Schemas.Fields.{
  valid, is_slug, normalize, bool_field, check_email, check_slug, email_field, has_length,
  human_name, normalize_value, optional, or_refused, password_field, refused, required, role_field,
  sized, slug_field, strip_value, then_check, validated, ◌<*>◌,
}
use identity_access_service.Schemas.Body.{
  RegisterBody, LoginBody, validate_register, validate_login, login_request, register_request,
  nullable, validate_role_update, validate_tenant_create, validate_tenant_update, validate_token,
  validate_user_create,
}
use identity_access_service.Schemas.Body.Sound.{login_of, IsName, validate_register_sound}
use identity_access_service.Api.Http.{
  Reply, server_error, respond, build_error_response, code_of_status, code_or, except, handle,
  http_exception_handler, join_dots, reply, validation_exception_handler, validation_item,
}
use identity_access_service.Api.Auth.{
  AuthTokensResponse, build_auth_response, auth_reply, conflict_409, credentials_401,
  login_endpoint, logout_endpoint, refresh_endpoint, register_endpoint, token_401,
}
use identity_access_service.Api.Bodies.{
  post_register, post_login, patch_tenant, patch_user_role, post_logout, post_refresh, post_tenant,
  post_user,
}
use identity_access_service.Api.Dependencies.{
  unauthorized_error, bearer_token, get_current_principal, is_bearer, lower_ascii, require_roles,
  same_codes,
}
use identity_access_service.Requests.{Request}
use identity_access_service.Guarantees.Typed.{register_crashes, typed_sign_up_then_login}
use identity_access_service.Guarantees.Answers.{is_fault, is_presented, statuses}
use identity_access_service.Guarantees.Answers.Codes.{IsDocumented}
use identity_access_service.Guarantees.Answers.Raised.{raised, raised-presented}
use identity_access_service.Tests.Sample.{context, env, library, client, database}

abbrev now : Context
now = context 2 1_000 "s1"

abbrev later : Env
later = env 3 2_000 "s2"

abbrev text : String → Option Json
text s = some (Json.string s)

abbrev typed : RegisterBody
typed = record {
  tenant_name = text " Beta ";
  tenant_slug = text "Beta-One ";
  full_name = text "Ben";
  email = text "ben@beta.io";
  password = text "password";
}

abbrev request : RegisterRequest
request = register_request "Beta" "beta-one" "Ben" "ben@beta.io" "password"

accepted : validate_register library typed ≡ valid request
unfolding take char_at is_space drop_while strip is_prefix remove first filter any update insert_by
    sort str_uuid parse_uuid hex_digit hex digit_value int_digits int_space int_16 tenant_by_slug
    tenant_by_id user_by_id user_by_email token_by_id dangling_tenant dangling_user tenant_refused
    user_refused token_refused audit_refused pure query or_raise raise_if commit write insert ◌>>=◌
    insert_tenant insert_user insert_token insert_audit_log run role_value append len lstrip rstrip
    strip_text lower_char lower_text matches slug_pattern join_dashes ◌<*>◌ then_check validated
    refused or_refused required optional strip_value normalize normalize_value has_length sized
    human_name is_slug check_slug slug_field check_email email_field password_field role_field
    bool_field nullable validate_register validate_login validate_tenant_create
    validate_tenant_update validate_user_create validate_role_update validate_token
accepted = refl

slug_pattern_iff_example : (slug_pattern "beta-one" ≡ true) ↔ (
    (w : String) × (ws : List String) × IsWord w × All IsWord ws × ("beta-one" ≡ join_dashes w ws))
slug_pattern_iff_example = slug_pattern_iff "beta-one"

validate_register_sound_example :
    (is_slug library "beta-one" ≡ true)
    × (normalize library "beta-one" ≡ "beta-one")
    × IsName 3 "Beta"
    × IsName 2 "Ben"
    × (8 ≤ len "password")
    × (len "password" ≤ 128)
    × (validate_login library (login_of typed)
        ≡ valid (login_request "beta-one" "ben@beta.io" "password"))
validate_register_sound_example = validate_register_sound library typed accepted

-- A name that is a number.
abbrev numbered : RegisterBody
numbered = record typed { tenant_name = some (Json.number 5) }

register_crashes_example :
    (respond (run (post_register now numbered client) database).0 ≡ server_error attribute_error)
    × ((run (post_register now numbered client) database).1 ≡ database)
register_crashes_example = register_crashes now numbered client database refl

abbrev answer : Reply AuthTokensResponse
answer = record {
  status = 201;
  body = record {
    access_token = "00000000-0000-0000-0000-000000000016";
    refresh_token = "00000000-0000-0000-0000-000000000017.s1";
    token_type = "bearer";
    access_token_expires_in = 900;
    user = record {
      id = 22;
      tenant_id = 21;
      email = "ben@beta.io";
      full_name = "Ben";
      role = tenant_admin;
      is_active = true;
    };
    tenant = record { id = 21; name = "Beta"; slug = "beta-one" };
  };
}

registers : (run (post_register now typed client) database).0 ≡ ok answer
unfolding take char_at is_space drop_while strip is_prefix remove first filter any update insert_by
    sort str_uuid parse_uuid hex_digit hex digit_value int_digits int_space int_16 tenant_by_slug
    tenant_by_id user_by_id user_by_email token_by_id dangling_tenant dangling_user tenant_refused
    user_refused token_refused audit_refused pure query or_raise raise_if commit write insert ◌>>=◌
    insert_tenant insert_user insert_token insert_audit_log run role_value parse_role split_dot
    parse_refresh_token hash_password verify_password hash_refresh_token_secret
    verify_refresh_token_secret create_refresh_token create_access_token decode_access_token
    audit_row log_size record_audit_event tenant_of assign_user token_row issue_tokens_for_user
    register append len lstrip rstrip strip_text lower_char lower_text matches slug_pattern
    join_dashes ◌<*>◌ then_check validated refused or_refused required optional strip_value
    normalize normalize_value has_length sized human_name is_slug check_slug slug_field check_email
    email_field password_field role_field bool_field nullable validate_register validate_login
    validate_tenant_create validate_tenant_update validate_user_create validate_role_update
    validate_token reply except code_of_status code_or build_error_response join_dots
    validation_item validation_exception_handler http_exception_handler handle respond
    build_auth_response auth_reply conflict_409 credentials_401 token_401 register_endpoint
    login_endpoint refresh_endpoint logout_endpoint post_register post_login post_refresh
    post_logout post_tenant patch_tenant post_user patch_user_role
registers = refl

fresh : IsFresh (with_draws now later) (run (post_register now typed client) database).1
unfolding take char_at is_space drop_while strip is_prefix remove first filter any update insert_by
    sort str_uuid parse_uuid hex_digit hex digit_value int_digits int_space int_16 tenant_by_slug
    tenant_by_id user_by_id user_by_email token_by_id dangling_tenant dangling_user tenant_refused
    user_refused token_refused audit_refused pure query or_raise raise_if commit write insert ◌>>=◌
    insert_tenant insert_user insert_token insert_audit_log run role_value parse_role split_dot
    parse_refresh_token hash_password verify_password hash_refresh_token_secret
    verify_refresh_token_secret create_refresh_token create_access_token decode_access_token
    audit_row log_size record_audit_event tenant_of assign_user token_row issue_tokens_for_user
    register append len lstrip rstrip strip_text lower_char lower_text matches slug_pattern
    join_dashes ◌<*>◌ then_check validated refused or_refused required optional strip_value
    normalize normalize_value has_length sized human_name is_slug check_slug slug_field check_email
    email_field password_field role_field bool_field nullable validate_register validate_login
    validate_tenant_create validate_tenant_update validate_user_create validate_role_update
    validate_token reply except code_of_status code_or build_error_response join_dots
    validation_item validation_exception_handler http_exception_handler handle respond
    build_auth_response auth_reply conflict_409 credentials_401 token_401 register_endpoint
    login_endpoint refresh_endpoint logout_endpoint post_register post_login post_refresh
    post_logout post_tenant patch_tenant post_user patch_user_role
fresh = record { token = refl; event = refl }

typed_sign_up_then_login_example :
    (home : Tenant) × (response : AuthTokensResponse) × (build_auth_response library (
        login_result
          (with_draws now later)
          (signed_in (with_draws now later) (registered_user now request))
          home)
      ≡ some response)
    × ((run
          (post_login (with_draws now later) (login_of typed) client)
          (run (post_register now typed client) database).1).0
        ≡ ok (record { status = 200; body = response }))
typed_sign_up_then_login_example =
    typed_sign_up_then_login now typed client database later client accepted registers refl fresh

abbrev ann_login : LoginBody
ann_login = record {
  tenant_slug = text " ACME";
  email = text "Ann@acme.io";
  password = text "password";
}

abbrev ann_answer : Reply AuthTokensResponse
ann_answer = record {
  status = 200;
  body = record {
    access_token = "00000000-0000-0000-0000-000000000002";
    refresh_token = "00000000-0000-0000-0000-000000000017.s1";
    token_type = "bearer";
    access_token_expires_in = 900;
    user = record {
      id = 2;
      tenant_id = 1;
      email = "ann@acme.io";
      full_name = "Ann";
      role = tenant_admin;
      is_active = true;
    };
    tenant = record { id = 1; name = "Acme"; slug = "acme" };
  };
}

-- A request without credentials.
abbrev nobodys : Request
nobodys = Request.read_tenant now none 1

turned_away : raised nobodys database ≡ some unauthorized_error
unfolding take char_at is_space drop_while strip is_prefix remove first filter any update insert_by
    sort str_uuid parse_uuid hex_digit hex digit_value int_digits int_space int_16 tenant_by_slug
    tenant_by_id user_by_id user_by_email token_by_id dangling_tenant dangling_user tenant_refused
    user_refused token_refused audit_refused pure query or_raise raise_if commit write insert ◌>>=◌
    insert_tenant insert_user insert_token insert_audit_log run role_value parse_role split_dot
    parse_refresh_token hash_password verify_password hash_refresh_token_secret
    verify_refresh_token_secret create_refresh_token create_access_token decode_access_token
    audit_row log_size record_audit_event tenant_of assign_user token_row issue_tokens_for_user
    lower_ascii same_codes is_bearer bearer_token get_current_principal require_roles reply except
    code_of_status code_or build_error_response join_dots validation_item
    validation_exception_handler http_exception_handler handle respond build_auth_response
    auth_reply conflict_409 credentials_401 token_401 register_endpoint login_endpoint
    refresh_endpoint logout_endpoint tenant_conflict_409 tenant_404 tenant_404_403
    list_tenants_endpoint create_tenant_endpoint read_current_tenant read_tenant
    update_tenant_endpoint listing_404_403 creation_404_409_403 change_404_403 list_users_endpoint
    create_user_endpoint update_user_role_endpoint deactivate_user_endpoint statuses is_fault
    is_presented raised managed_user_response managed_user_responses user_in_tenant_by_id
    refresh_user ensure_manageable_target ensure_role_assignment_allowed get_visible_user list_users
    create_user record_role_change update_user_role deactivate deactivate_user tenant_response
    refresh_tenant resolve_visible_tenant get_tenant get_current_tenant dump_name dump_is_active
    tenant_updates assign_name assign_is_active has_null list_tenants create_tenant record_update
    update_tenant
turned_away = refl

raised-presented_example :
    IsDocumented nobodys unauthorized_error ⊎ (is_fault unauthorized_error ≡ true)
raised-presented_example = raised-presented nobodys database unauthorized_error turned_away
