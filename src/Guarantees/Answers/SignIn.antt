-- ===== src/Guarantees/Answers/SignIn.antt =====
-- The exceptions of app/services/auth.py, once the endpoint's handler has seen them.
use identity_access_service.Base.{[], ◌∷◌, String, Option, none, some, refl}
use identity_access_service.Errors.{Error, integrity_error, attribute_error}
use identity_access_service.Models.{Uuid, User, Tenant, RefreshToken, Details, Datetime}
use identity_access_service.Db.Session.{insert_tenant, insert_user, insert_token, insert_audit_log}
use identity_access_service.Db.Raises.{Raises, raises_rules}
use identity_access_service.Core.Context.{Context, Client}
use identity_access_service.Core.Security.{parse_refresh_token}
use identity_access_service.Services.Audit.{Event, record_audit_event}
use identity_access_service.Services.Auth.Issue.{issue_tokens_for_user, tenant_of, assign_user}
use identity_access_service.Services.Auth.Register.{RegisterRequest, register}
use identity_access_service.Services.Auth.Login.{
  LoginRequest, login, invalid_login, reject_login, register_failed_login_attempt, complete_login,
  reset_failed_login_attempts, login_unlocked, is_locked_until, is_user_locked, login_active,
  login_user, login_tenant,
}
use identity_access_service.Services.Auth.Tokens.{
  invalid_token, refresh, logout, user_of, get_valid_refresh_token, record_revocation, revoke_token,
  logout_parsed, logout_stored, logout_token,
}
use identity_access_service.Api.Auth.{conflict_409, credentials_401, token_401}
use identity_access_service.Guarantees.Answers.{Presented, is_presented}

pub record_audit_event-Raises :
    {P : Error → Type 0} (c : Context) (client : Client) (e : Event)
    → P integrity_error
    → Raises P (record_audit_event c client e)
unfolding record_audit_event insert_audit_log
record_audit_event-Raises c client e p = search raises_rules

issue_tokens_for_user-Raises :
    {P : Error → Type 0} (c : Context) (u : User)
    → P integrity_error
    → P attribute_error
    → Raises P (issue_tokens_for_user c u)
unfolding issue_tokens_for_user insert_token tenant_of
issue_tokens_for_user-Raises c u p q = search raises_rules

pub register-Raises :
    (c : Context) (payload : RegisterRequest) (client : Client)
    → Raises (Presented (409 ∷ []) conflict_409) (register c payload client)
unfolding register insert_tenant insert_user conflict_409 is_presented
register-Raises c payload client =
    search (raises_rules, record_audit_event-Raises, issue_tokens_for_user-Raises) depth 14

assign_user-Raises : {P : Error → Type 0} (u : User) (f : User → User) → Raises P (assign_user u f)
unfolding assign_user
assign_user-Raises u f = search raises_rules

-- Each part of `login`, for a property of what the database layer raises and of the refusal.
module _ {P : Error → Type 0} (p : P integrity_error) (q : P attribute_error) (r : P invalid_login)
    (c : Context) (payload : LoginRequest) (client : Client) where
  reject_login-Raises :
      {A : Type 0} (t u : Option Uuid) (d : Details)
      → Raises {A = A} P (reject_login c payload client t u d)
  unfolding reject_login
  reject_login-Raises t u d = search (raises_rules, record_audit_event-Raises)

  register_failed_login_attempt-Raises : (u : User) → Raises P (register_failed_login_attempt c u)
  unfolding register_failed_login_attempt
  register_failed_login_attempt-Raises u = search (raises_rules, assign_user-Raises)

  complete_login-Raises : (u : User) → Raises P (complete_login c u client)
  unfolding complete_login reset_failed_login_attempts tenant_of
  complete_login-Raises u =
      search
        (raises_rules, assign_user-Raises, record_audit_event-Raises, issue_tokens_for_user-Raises)
        depth 12

  login_unlocked-Raises : (t : Tenant) (u : User) → Raises P (login_unlocked c payload client t u)
  unfolding login_unlocked
  login_unlocked-Raises t u = search (
    raises_rules, complete_login-Raises, register_failed_login_attempt-Raises, reject_login-Raises,
  )

  is_locked_until-Raises : (u : User) (o : Option Datetime) → Raises P (is_locked_until c u o)
  unfolding is_locked_until reset_failed_login_attempts
  is_locked_until-Raises u none = search raises_rules
  is_locked_until-Raises u (some until) = search (raises_rules, assign_user-Raises)

  login_active-Raises : (t : Tenant) (u : User) → Raises P (login_active c payload client t u)
  unfolding login_active is_user_locked
  login_active-Raises t u =
      search (raises_rules, is_locked_until-Raises, reject_login-Raises, login_unlocked-Raises)

  login_user-Raises : (t : Tenant) (o : Option User) → Raises P (login_user c payload client t o)
  unfolding login_user
  login_user-Raises t none = search reject_login-Raises
  login_user-Raises t (some u) = search (raises_rules, login_active-Raises, reject_login-Raises)

  login_tenant-Raises : (o : Option Tenant) → Raises P (login_tenant c payload client o)
  unfolding login_tenant
  login_tenant-Raises none = search reject_login-Raises
  login_tenant-Raises (some t) = search (raises_rules, login_user-Raises, reject_login-Raises)

pub login-Raises :
    (c : Context) (payload : LoginRequest) (client : Client)
    → Raises (Presented (401 ∷ []) credentials_401) (login c payload client)
unfolding login credentials_401 is_presented
login-Raises c payload client = search (raises_rules, login_tenant-Raises)

-- `refresh` and `logout`.
module _ {P : Error → Type 0} (p : P integrity_error) (q : P attribute_error) (c : Context)
    (client : Client) where
  user_of-Raises : (t : RefreshToken) → Raises P (user_of t)
  unfolding user_of
  user_of-Raises t = search raises_rules

  revoke_token-Raises : (t : RefreshToken) → Raises P (revoke_token c t)
  unfolding revoke_token
  revoke_token-Raises t = search raises_rules

  record_revocation-Raises :
      (t : RefreshToken) (u : User) (reason : String)
      → Raises P (record_revocation c t u reason client)
  unfolding record_revocation
  record_revocation-Raises t u reason = search record_audit_event-Raises

  logout_token-Raises : (t : RefreshToken) → Raises P (logout_token c t client)
  unfolding logout_token
  logout_token-Raises t =
      search (raises_rules, revoke_token-Raises, user_of-Raises, record_revocation-Raises) depth 12

  logout_stored-Raises :
      (secret : String) (o : Option RefreshToken) → Raises P (logout_stored c secret client o)
  unfolding logout_stored
  logout_stored-Raises secret none = search raises_rules
  logout_stored-Raises secret (some t) = search (raises_rules, logout_token-Raises)

  logout_parsed-Raises : (o : Option (Uuid × String)) → Raises P (logout_parsed c client o)
  unfolding logout_parsed
  logout_parsed-Raises none = search raises_rules
  logout_parsed-Raises (some (id, secret)) = search (raises_rules, logout_stored-Raises)

  module _ (r : P invalid_token) where
    get_valid_refresh_token-Raises : (token : String) → Raises P (get_valid_refresh_token c token)
    unfolding get_valid_refresh_token tenant_of
    get_valid_refresh_token-Raises token = search (raises_rules, user_of-Raises) depth 24

    refresh_parts-Raises : (token : String) → Raises P (refresh c token client)
    unfolding refresh
    refresh_parts-Raises token =
        search
          (
            raises_rules, get_valid_refresh_token-Raises, revoke_token-Raises, user_of-Raises,
            issue_tokens_for_user-Raises, record_revocation-Raises,
          )
          depth 16

pub refresh-Raises :
    (c : Context) (token : String) (client : Client)
    → Raises (Presented (401 ∷ []) token_401) (refresh c token client)
unfolding token_401 is_presented
refresh-Raises c token client = refresh_parts-Raises refl refl c client refl token

pub logout-Raises :
    (c : Context) (token : String) (client : Client)
    → Raises (Presented [] (λ e. e)) (logout c token client)
unfolding logout is_presented
logout-Raises c token client = logout_parsed-Raises refl refl c client (parse_refresh_token token)
