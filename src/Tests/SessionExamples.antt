-- ===== src/Tests/SessionExamples.antt =====
-- A sign-up and two refreshes, the first with the token of the sign-up, the second with that of the first.
use identity_access_service.Services.Audit.{audit_row, log_size, record_audit_event}
use identity_access_service.Core.Security.{
  create_access_token, create_refresh_token, decode_access_token, hash_password,
  hash_refresh_token_secret, parse_refresh_token, parse_role, split_dot, verify_password,
  verify_refresh_token_secret,
}
use identity_access_service.Uuid.Numeral.{
  digit_value, hex, hex_digit, int_16, int_digits, int_space,
}
use identity_access_service.Uuid.{parse_uuid, str_uuid}
use identity_access_service.Base.{
  ◌≡◌, refl, ◌∷◌, [], arith, any, char_at, drop_while, filter, first, insert_by, is_prefix,
  is_space, remove, sort, strip, take, update,
}
use identity_access_service.Errors.{ok}
use identity_access_service.Models.{User, role_value}
use identity_access_service.Db.{
  Db, audit_refused, dangling_tenant, dangling_user, tenant_by_id, tenant_by_slug, tenant_refused,
  token_by_id, token_refused, user_by_email, user_by_id, user_refused,
}
use identity_access_service.Db.Session.{
  run, commit, insert, insert_audit_log, insert_tenant, insert_token, insert_user, or_raise, pure,
  query, raise_if, write, ◌>>=◌,
}
use identity_access_service.Core.Context.{Context, Env, with_draws}
use identity_access_service.Services.Auth.Issue.{
  AuthResult, assign_user, issue_tokens_for_user, tenant_of, token_row,
}
use identity_access_service.Services.Auth.Register.{
  RegisterRequest, registered_user, registered_tenant, register,
}
use identity_access_service.Services.Auth.Tokens.{
  refresh, get_valid_refresh_token, logout, logout_parsed, logout_stored, logout_token,
  record_revocation, revoke_token, user_of,
}
use identity_access_service.Services.Auth.Login.Success.{IsFresh, login_result}
use identity_access_service.Guarantees.SignUp.{signed_up}
use identity_access_service.Guarantees.Sessions.{AllTimely, AllAnswer, issued_text, session_goes_on}
use identity_access_service.Tests.Sample.{context, env, client, database}

abbrev first_request : Context
first_request = context 2 1_000 "s1"

abbrev second_draws : Env
second_draws = env 3 2_000 "s2"

abbrev third_draws : Env
third_draws = env 4 3_000 "s3"

abbrev sign_up : RegisterRequest
sign_up = record {
  tenant_name = "Beta";
  tenant_slug = "beta";
  full_name = "Ben";
  email = "ben@beta.io";
  password = "password";
}

abbrev ben : User
ben = registered_user first_request sign_up

abbrev answer : AuthResult
answer = login_result first_request ben (registered_tenant first_request sign_up)

abbrev after_sign_up : Db
after_sign_up = signed_up first_request sign_up client database

abbrev after_refresh : Db
after_refresh =
    (run (refresh (with_draws first_request second_draws) (issued_text first_request) client)
      after_sign_up).1

signs_up : (run (register first_request sign_up client) database).0 ≡ ok answer
unfolding take char_at is_space drop_while strip is_prefix remove first filter any update insert_by
    sort str_uuid parse_uuid hex_digit hex digit_value int_digits int_space int_16 tenant_by_slug
    tenant_by_id user_by_id user_by_email token_by_id dangling_tenant dangling_user tenant_refused
    user_refused token_refused audit_refused pure query or_raise raise_if commit write insert ◌>>=◌
    insert_tenant insert_user insert_token insert_audit_log run role_value parse_role split_dot
    parse_refresh_token hash_password verify_password hash_refresh_token_secret
    verify_refresh_token_secret create_refresh_token create_access_token decode_access_token
    audit_row log_size record_audit_event tenant_of assign_user token_row issue_tokens_for_user
    register
signs_up = refl

second-IsFresh : IsFresh (with_draws first_request second_draws) after_sign_up
unfolding take char_at is_space drop_while strip is_prefix remove first filter any update insert_by
    sort str_uuid parse_uuid hex_digit hex digit_value int_digits int_space int_16 tenant_by_slug
    tenant_by_id user_by_id user_by_email token_by_id dangling_tenant dangling_user tenant_refused
    user_refused token_refused audit_refused pure query or_raise raise_if commit write insert ◌>>=◌
    insert_tenant insert_user insert_token insert_audit_log run role_value parse_role split_dot
    parse_refresh_token hash_password verify_password hash_refresh_token_secret
    verify_refresh_token_secret create_refresh_token create_access_token decode_access_token
    audit_row log_size record_audit_event tenant_of assign_user token_row issue_tokens_for_user
    register
second-IsFresh = record { token = refl; event = refl }

third-IsFresh : IsFresh (with_draws first_request third_draws) after_refresh
unfolding take char_at is_space drop_while strip is_prefix remove first filter any update insert_by
    sort str_uuid parse_uuid hex_digit hex digit_value int_digits int_space int_16 tenant_by_slug
    tenant_by_id user_by_id user_by_email token_by_id dangling_tenant dangling_user tenant_refused
    user_refused token_refused audit_refused pure query or_raise raise_if commit write insert ◌>>=◌
    insert_tenant insert_user insert_token insert_audit_log run role_value parse_role split_dot
    parse_refresh_token hash_password verify_password hash_refresh_token_secret
    verify_refresh_token_secret create_refresh_token create_access_token decode_access_token
    audit_row log_size record_audit_event tenant_of assign_user token_row issue_tokens_for_user
    register user_of get_valid_refresh_token revoke_token record_revocation refresh logout_token
    logout_stored logout_parsed logout
third-IsFresh = record { token = refl; event = refl }

in_time : AllTimely client first_request (second_draws ∷ third_draws ∷ []) after_sign_up
in_time = (
  record { is_uuid = omega arith; in_time = omega arith; fresh = second-IsFresh },
  (record { is_uuid = omega arith; in_time = omega arith; fresh = third-IsFresh }, tt),
)

session_goes_on_example :
    AllAnswer client first_request answer.refresh_token
      (second_draws ∷ third_draws ∷ [])
      after_sign_up
session_goes_on_example =
    session_goes_on client first_request sign_up database (second_draws ∷ third_draws ∷ []) signs_up
      in_time
