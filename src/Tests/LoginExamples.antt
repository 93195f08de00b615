-- ===== src/Tests/LoginExamples.antt =====
-- The theorems on logins at two wrong passwords and the right one, and after a sign-up.
use identity_access_service.Services.Audit.{audit_row, log_size, record_audit_event}
use identity_access_service.Core.Security.{
  create_access_token, create_refresh_token, decode_access_token, hash_password,
  hash_refresh_token_secret, parse_refresh_token, parse_role, split_dot, verify_password,
  verify_refresh_token_secret,
}
use identity_access_service.Uuid.Numeral.{
  digit_value, hex, hex_digit, int_16, int_digits, int_space,
}
use identity_access_service.Uuid.{parse_uuid, str_uuid}
use identity_access_service.Base.{
  ◌≡◌, ◌≢◌, refl, some, true, false, String, any, char_at, drop_while, filter, first, insert_by,
  is_prefix, is_space, remove, sort, strip, take, update,
}
use identity_access_service.Errors.{ok, err}
use identity_access_service.Base.{leb→le}
use identity_access_service.Models.{User, Tenant, aware, role_value}
use identity_access_service.Db.{
  Db, audit_refused, dangling_tenant, dangling_user, tenant_by_id, tenant_by_slug, tenant_refused,
  token_by_id, token_refused, user_by_email, user_by_id, user_refused,
}
use identity_access_service.Db.Session.{
  open_session, commit, insert, insert_audit_log, insert_tenant, insert_token, insert_user,
  or_raise, pure, query, raise_if, run, write, ◌>>=◌,
}
use identity_access_service.Core.Context.{Context}
use identity_access_service.Services.Auth.Issue.{
  AuthResult, assign_user, issue_tokens_for_user, tenant_of, token_row,
}
use identity_access_service.Services.Auth.Login.{
  LoginRequest, invalid_login, complete_login, is_locked_until, is_user_locked, login, login_active,
  login_tenant, login_unlocked, login_user, register_failed_login_attempt, reject_login,
  reset_failed_login_attempts, serialize_datetime,
}
use identity_access_service.Services.Auth.Login.Outcomes.{IsChecked, verifies, login_requires}
use identity_access_service.Services.Auth.Login.Failures.{failed, wrong_password_is_counted}
use identity_access_service.Services.Auth.Login.Success
use identity_access_service.Services.Auth.Login.Success.{IsFresh, login_result, login_succeeds}
use identity_access_service.Services.Auth.Register.{
  RegisterRequest, registered_tenant, registered_user, register,
}
use identity_access_service.Guarantees.SignUp.{signed_up, same_login, sign_up_then_login}
use identity_access_service.Guarantees.Lockout.{IsGuess, start, guess, IsOpen, lockout_after_limit}
use identity_access_service.Guarantees.Lockout.Held.{untried, tried}
use identity_access_service.Tests.Sample.{context, client, database, ann, acme}

abbrev first_request : Context
first_request = context 2 1_000 "s1"

abbrev second_request : Context
second_request = context 3 2_000 "s2"

abbrev third_request : Context
third_request = context 4 3_000 "s3"

abbrev fourth_request : Context
fourth_request = context 5 4_000 "s4"

abbrev attempt : String → LoginRequest
attempt password = record { tenant_slug = "acme"; email = "ann@acme.io"; password = password }

abbrev signed_in : User
signed_in = record ann { last_login_at = some (aware 1_000) }

abbrev result : AuthResult
result = record {
  user = signed_in;
  tenant = acme;
  access_token = "00000000-0000-0000-0000-000000000002";
  refresh_token = "00000000-0000-0000-0000-000000000017.s1";
  access_token_expires_in = 900;
}

signs_in : (login first_request (attempt "password") client (open_session database)).0 ≡ ok result
unfolding take char_at is_space drop_while strip is_prefix remove first filter any update insert_by
    sort str_uuid parse_uuid hex_digit hex digit_value int_digits int_space int_16 tenant_by_slug
    tenant_by_id user_by_id user_by_email token_by_id dangling_tenant dangling_user tenant_refused
    user_refused token_refused audit_refused pure query or_raise raise_if commit write insert ◌>>=◌
    insert_tenant insert_user insert_token insert_audit_log run role_value parse_role split_dot
    parse_refresh_token hash_password verify_password hash_refresh_token_secret
    verify_refresh_token_secret create_refresh_token create_access_token decode_access_token
    audit_row log_size record_audit_event tenant_of assign_user token_row issue_tokens_for_user
    serialize_datetime reset_failed_login_attempts reject_login register_failed_login_attempt
    is_locked_until is_user_locked complete_login login_unlocked login_active login_user
    login_tenant login
signs_in = refl

login_requires_example :
    (u : User) × IsChecked first_request (attempt "password") database u
    × (verifies first_request (attempt "password") u ≡ true)
login_requires_example =
    login_requires first_request (attempt "password") client (open_session database) signs_in

checked : IsChecked first_request (attempt "guess") database ann
unfolding take char_at is_space drop_while strip is_prefix remove first filter any update insert_by
    sort str_uuid parse_uuid hex_digit hex digit_value int_digits int_space int_16 tenant_by_slug
    tenant_by_id user_by_id user_by_email token_by_id dangling_tenant dangling_user tenant_refused
    user_refused token_refused audit_refused pure query or_raise raise_if commit write insert ◌>>=◌
    insert_tenant insert_user insert_token insert_audit_log run role_value parse_role split_dot
    parse_refresh_token hash_password verify_password hash_refresh_token_secret
    verify_refresh_token_secret create_refresh_token create_access_token decode_access_token
    audit_row log_size record_audit_event tenant_of assign_user token_row issue_tokens_for_user
checked = record {
  tenant = acme;
  found_tenant = refl;
  tenant_active = refl;
  found_user = refl;
  user_active = refl;
  unlocked = refl;
}

mismatch : verifies first_request (attempt "guess") ann ≡ false
unfolding parse_role split_dot parse_refresh_token hash_password verify_password
    hash_refresh_token_secret verify_refresh_token_secret create_refresh_token create_access_token
    decode_access_token audit_row log_size record_audit_event tenant_of assign_user token_row
    issue_tokens_for_user
mismatch = refl

abbrev after_first : Db
after_first = (run (login first_request (attempt "guess") client) database).1

first_answer : (run (login first_request (attempt "guess") client) database).0 ≡ err invalid_login
unfolding take char_at is_space drop_while strip is_prefix remove first filter any update insert_by
    sort str_uuid parse_uuid hex_digit hex digit_value int_digits int_space int_16 tenant_by_slug
    tenant_by_id user_by_id user_by_email token_by_id dangling_tenant dangling_user tenant_refused
    user_refused token_refused audit_refused pure query or_raise raise_if commit write insert ◌>>=◌
    insert_tenant insert_user insert_token insert_audit_log run role_value parse_role split_dot
    parse_refresh_token hash_password verify_password hash_refresh_token_secret
    verify_refresh_token_secret create_refresh_token create_access_token decode_access_token
    audit_row log_size record_audit_event tenant_of assign_user token_row issue_tokens_for_user
    serialize_datetime reset_failed_login_attempts reject_login register_failed_login_attempt
    is_locked_until is_user_locked complete_login login_unlocked login_active login_user
    login_tenant login
first_answer = refl

wrong_password_is_counted_example :
    (user_by_email checked.tenant.id "ann@acme.io" after_first ≡ some (failed first_request ann))
    × (after_first.tenants ≡ database.tenants)
wrong_password_is_counted_example =
    wrong_password_is_counted first_request (attempt "guess") client database checked mismatch
      first_answer

first-IsGuess :
    IsGuess 2 "acme" "ann@acme.io" "password" first_request (attempt "guess") client database
first-IsGuess = record {
  same_slug = refl;
  same_email = refl;
  same_limit = refl;
  wrong = mismatch;
  answered = first_answer;
}

second-IsGuess :
    IsGuess 2 "acme" "ann@acme.io" "password" second_request (attempt "other") client after_first
unfolding take char_at is_space drop_while strip is_prefix remove first filter any update insert_by
    sort str_uuid parse_uuid hex_digit hex digit_value int_digits int_space int_16 tenant_by_slug
    tenant_by_id user_by_id user_by_email token_by_id dangling_tenant dangling_user tenant_refused
    user_refused token_refused audit_refused pure query or_raise raise_if commit write insert ◌>>=◌
    insert_tenant insert_user insert_token insert_audit_log run role_value parse_role split_dot
    parse_refresh_token hash_password verify_password hash_refresh_token_secret
    verify_refresh_token_secret create_refresh_token create_access_token decode_access_token
    audit_row log_size record_audit_event tenant_of assign_user token_row issue_tokens_for_user
    serialize_datetime reset_failed_login_attempts reject_login register_failed_login_attempt
    is_locked_until is_user_locked complete_login login_unlocked login_active login_user
    login_tenant login
second-IsGuess = record {
  same_slug = refl;
  same_email = refl;
  same_limit = refl;
  wrong = refl;
  answered = refl;
}

opened : IsOpen "acme" "ann@acme.io" ann acme 0 database
unfolding take char_at is_space drop_while strip is_prefix remove first filter any update insert_by
    sort str_uuid parse_uuid hex_digit hex digit_value int_digits int_space int_16 tenant_by_slug
    tenant_by_id user_by_id user_by_email token_by_id dangling_tenant dangling_user tenant_refused
    user_refused token_refused audit_refused pure query or_raise raise_if commit write insert ◌>>=◌
    insert_tenant insert_user insert_token insert_audit_log run role_value
opened = record {
  found_tenant = refl;
  tenant_active = refl;
  found_user = refl;
  user_active = refl;
  unlocked = refl;
}

lockout_after_limit_example :
    (run
      (login fourth_request (attempt "password") client)
      (run
        (login third_request (attempt "password") client)
        (run (login second_request (attempt "other") client) after_first).1).1).0
    ≢ ok result
lockout_after_limit_example =
    lockout_after_limit opened (guess start first_request (attempt "guess") client first-IsGuess)
      second-IsGuess refl
      (tried untried third_request (attempt "password") client refl refl
        (leb→le 3_001 900_002_000 refl))
      fourth_request (attempt "password") client result refl refl (leb→le 4_001 900_002_000 refl)

right_password : verifies first_request (attempt "password") ann ≡ true
unfolding parse_role split_dot parse_refresh_token hash_password verify_password
    hash_refresh_token_secret verify_refresh_token_secret create_refresh_token create_access_token
    decode_access_token audit_row log_size record_audit_event tenant_of assign_user token_row
    issue_tokens_for_user
right_password = refl

checked_right : IsChecked first_request (attempt "password") database ann
unfolding take char_at is_space drop_while strip is_prefix remove first filter any update insert_by
    sort str_uuid parse_uuid hex_digit hex digit_value int_digits int_space int_16 tenant_by_slug
    tenant_by_id user_by_id user_by_email token_by_id dangling_tenant dangling_user tenant_refused
    user_refused token_refused audit_refused pure query or_raise raise_if commit write insert ◌>>=◌
    insert_tenant insert_user insert_token insert_audit_log run role_value parse_role split_dot
    parse_refresh_token hash_password verify_password hash_refresh_token_secret
    verify_refresh_token_secret create_refresh_token create_access_token decode_access_token
    audit_row log_size record_audit_event tenant_of assign_user token_row issue_tokens_for_user
checked_right = record {
  tenant = acme;
  found_tenant = refl;
  tenant_active = refl;
  found_user = refl;
  user_active = refl;
  unlocked = refl;
}

fresh : IsFresh first_request database
unfolding take char_at is_space drop_while strip is_prefix remove first filter any update insert_by
    sort str_uuid parse_uuid hex_digit hex digit_value int_digits int_space int_16 tenant_by_slug
    tenant_by_id user_by_id user_by_email token_by_id dangling_tenant dangling_user tenant_refused
    user_refused token_refused audit_refused pure query or_raise raise_if commit write insert ◌>>=◌
    insert_tenant insert_user insert_token insert_audit_log run role_value parse_role split_dot
    parse_refresh_token hash_password verify_password hash_refresh_token_secret
    verify_refresh_token_secret create_refresh_token create_access_token decode_access_token
    audit_row log_size record_audit_event tenant_of assign_user token_row issue_tokens_for_user
fresh = record { token = refl; event = refl }

login_succeeds_example :
    (home : Tenant) × ((run (login first_request (attempt "password") client) database).0
      ≡ ok (login_result first_request (Success.signed_in first_request ann) home))
login_succeeds_example =
    login_succeeds first_request (attempt "password") client database checked_right right_password
      fresh

abbrev sign_up : RegisterRequest
sign_up = record {
  tenant_name = "Beta";
  tenant_slug = "beta";
  full_name = "Ben";
  email = "ben@beta.io";
  password = "password";
}

abbrev ben : User
ben = registered_user first_request sign_up

signs_up :
    (run (register first_request sign_up client) database).0
    ≡ ok (login_result first_request ben (registered_tenant first_request sign_up))
unfolding take char_at is_space drop_while strip is_prefix remove first filter any update insert_by
    sort str_uuid parse_uuid hex_digit hex digit_value int_digits int_space int_16 tenant_by_slug
    tenant_by_id user_by_id user_by_email token_by_id dangling_tenant dangling_user tenant_refused
    user_refused token_refused audit_refused pure query or_raise raise_if commit write insert ◌>>=◌
    insert_tenant insert_user insert_token insert_audit_log run role_value parse_role split_dot
    parse_refresh_token hash_password verify_password hash_refresh_token_secret
    verify_refresh_token_secret create_refresh_token create_access_token decode_access_token
    audit_row log_size record_audit_event tenant_of assign_user token_row issue_tokens_for_user
    register
signs_up = refl

after-IsFresh : IsFresh second_request (signed_up first_request sign_up client database)
unfolding take char_at is_space drop_while strip is_prefix remove first filter any update insert_by
    sort str_uuid parse_uuid hex_digit hex digit_value int_digits int_space int_16 tenant_by_slug
    tenant_by_id user_by_id user_by_email token_by_id dangling_tenant dangling_user tenant_refused
    user_refused token_refused audit_refused pure query or_raise raise_if commit write insert ◌>>=◌
    insert_tenant insert_user insert_token insert_audit_log run role_value parse_role split_dot
    parse_refresh_token hash_password verify_password hash_refresh_token_secret
    verify_refresh_token_secret create_refresh_token create_access_token decode_access_token
    audit_row log_size record_audit_event tenant_of assign_user token_row issue_tokens_for_user
    register
after-IsFresh = record { token = refl; event = refl }

sign_up_then_login_example :
    (home : Tenant) × ((run
        (login second_request (same_login sign_up) client)
        (signed_up first_request sign_up client database)).0
      ≡ ok (login_result second_request (Success.signed_in second_request ben) home))
sign_up_then_login_example =
    sign_up_then_login first_request sign_up client database second_request client signs_up refl
      after-IsFresh
