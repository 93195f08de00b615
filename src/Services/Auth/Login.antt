-- ===== src/Services/Auth/Login.antt =====
-- app/services/auth.py: `AuthService.login`, the lockout, and the record of failures. Each part of
-- `login` behind an early exit is a function of its own.
pub mod Outcomes
pub mod Effects
pub mod Failures
pub mod Success
use identity_access_service.Base.{
  ℕ, ◌+◌, String, Bool, true, false, not, Option, none, some, List, [], ◌∷◌, ◌++◌, leb,
  if◌then◌else◌, Option-cases,
}
use mathlib.Core.Option
use identity_access_service.Models.{
  Uuid, Tenant, User, AuditAction, login_success, login_failure, Details, Value, null, int, str,
  isoformat, Datetime, aware, as_utc, instant, minutes,
}
use identity_access_service.Uuid.{str_uuid}
use identity_access_service.Errors.{Error, invalid_credentials}
use identity_access_service.Db.{tenant_by_slug, user_by_email}
use identity_access_service.Db.Session.{Action, pure, raise, query, commit, ◌>>=◌, ◌>>◌}
use identity_access_service.Core.Context.{Context, Client}
use identity_access_service.Core.Security.{verify_password}
use identity_access_service.Services.Audit.{record_audit_event}
use identity_access_service.Services.Auth.Issue.{
  AuthResult, tenant_of, assign_user, issue_tokens_for_user,
}

-- app/schemas/auth.py
pub record LoginRequest : Type 0 where
  pub tenant_slug : String
  pub email : String
  pub password : String

abbrev pub invalid_login : Error
invalid_login = invalid_credentials "Invalid tenant, email, or password."

-- `_serialize_datetime`
unfoldable pub serialize_datetime : Option Datetime → Value
serialize_datetime none = null
serialize_datetime (some value) = isoformat (as_utc value)

-- the `details` of a failure that counts
abbrev pub attempt_details : String → User → Details
attempt_details reason user =
    ("reason", str reason)
    ∷ ("failed_login_attempts", int user.failed_login_attempts)
    ∷ ("locked_until", serialize_datetime user.locked_until)
    ∷ []

-- `_reset_failed_login_attempts`
abbrev pub reset_attempts : User → User
reset_attempts u = record u { failed_login_attempts = 0; locked_until = none }

unfoldable pub reset_failed_login_attempts : User → Action User
reset_failed_login_attempts user = assign_user user reset_attempts

module _ (c : Context) where
  -- `_record_login_failure`, and the exception that follows each of its calls. Where a call passes the
  -- slug of the tenant, it is that of the payload, by which the tenant was found.
  unfoldable pub reject_login :
      {A : Type 0} → LoginRequest → Client → Option Uuid → Option Uuid → Details → Action A
  reject_login payload client tenant_id actor_user_id details = do
    record_audit_event c client (record {
      action = login_failure;
      resource_type = "auth";
      resource_id = "login";
      tenant_id = tenant_id;
      actor_user_id = actor_user_id;
      details =
          some (("email", str payload.email) ∷ ("tenant_slug", str payload.tenant_slug) ∷ details);
    })
    commit
    raise invalid_login

  -- `_register_failed_login_attempt`
  abbrev pub lock_until : User → User
  lock_until u = record u { locked_until = some (aware (c.now + minutes c.login_lockout_minutes)) }

  unfoldable pub register_failed_login_attempt : User → Action User
  register_failed_login_attempt user = do
    counted ←
        assign_user user (λ u. record u { failed_login_attempts = u.failed_login_attempts + 1 })
    (if leb c.max_failed_login_attempts counted.failed_login_attempts
        then assign_user counted lock_until
        else pure counted)

  -- `_is_user_locked`, with the user as it leaves it
  unfoldable pub is_locked_until : User → Option Datetime → Action (Bool × User)
  is_locked_until user none = pure (false, user)
  is_locked_until user (some locked_until) =
      if leb (instant (as_utc locked_until)) c.now
      then (do free ← reset_failed_login_attempts user; pure (false, free))
      else (do
        locked ← assign_user user (λ u. record u { locked_until = some (as_utc locked_until) })
        pure (true, locked))

  unfoldable pub is_user_locked : User → Action (Bool × User)
  is_user_locked user = is_locked_until user user.locked_until

  unfoldable pub complete_login : User → Client → Action AuthResult
  complete_login user client = do
    cleared ← reset_failed_login_attempts user
    signed_in ← assign_user cleared (λ u. record u { last_login_at = some (aware c.now) })
    auth_result ← issue_tokens_for_user c signed_in
    tenant ← tenant_of signed_in
    record_audit_event c client (record {
      action = login_success;
      resource_type = "user";
      resource_id = str_uuid signed_in.id;
      tenant_id = some signed_in.tenant_id;
      actor_user_id = some signed_in.id;
      details = some (("tenant_slug", str tenant.slug) ∷ []);
    })
    commit
    pure auth_result

  unfoldable pub login_unlocked : LoginRequest → Client → Tenant → User → Action AuthResult
  login_unlocked payload client tenant user =
      if verify_password c payload.password user.password_hash
      then complete_login user client
      else (do
        counted ← register_failed_login_attempt user
        reject_login payload client (some tenant.id) (some counted.id)
            (attempt_details "invalid_credentials" counted))

  unfoldable pub login_active : LoginRequest → Client → Tenant → User → Action AuthResult
  login_active payload client tenant user = do
    (locked, current) ← is_user_locked user
    (if locked
        then reject_login payload client (some tenant.id) (some current.id)
            (attempt_details "account_locked" current)
        else login_unlocked payload client tenant current)

  unfoldable pub login_user : LoginRequest → Client → Tenant → Option User → Action AuthResult
  login_user payload client tenant none =
      reject_login payload client (some tenant.id) none (("reason", str "invalid_credentials") ∷ [])
  login_user payload client tenant (some user) =
      if user.is_active
      then login_active payload client tenant user
      else reject_login payload client (some tenant.id) (some user.id)
          (("reason", str "invalid_credentials") ∷ [])

  unfoldable pub login_tenant : LoginRequest → Client → Option Tenant → Action AuthResult
  login_tenant payload client none =
      reject_login payload client none none (("reason", str "tenant_unavailable") ∷ [])
  login_tenant payload client (some tenant) =
      if tenant.is_active
      then (do
        user ← query (user_by_email tenant.id payload.email)
        login_user payload client tenant user)
      else reject_login payload client (some tenant.id) none
          (("reason", str "tenant_unavailable") ∷ [])

  unfoldable pub login : LoginRequest → Client → Action AuthResult
  login payload client = do
    tenant ← query (tenant_by_slug payload.tenant_slug)
    login_tenant payload client tenant
