-- ===== src/Policy/SignIn.antt =====
-- `login`, `refresh` and `logout` make only permitted changes.
use identity_access_service.Base.{leb, refl, Option, none, some, String, not, is_some}
use identity_access_service.Models.{
  Uuid, Tenant, User, RefreshToken, Details, Datetime, instant, as_utc,
}
use identity_access_service.Db.{Db}
use identity_access_service.Db.Session.{Session, pure}
use identity_access_service.Db.Keeps.{
  Keeps, Keeps-write, Keeps-write-bind, Keeps-if, Keeps-bind, Keeps-pure, Keeps-query-bind,
  keeps_rules,
}
use identity_access_service.Core.Context.{Context, Client}
use identity_access_service.Core.Security.{
  parse_refresh_token, verify_password, verify_refresh_token_secret,
}
use identity_access_service.Services.Auth.Issue.{tenant_of, assign_user}
use identity_access_service.Services.Auth.Login.{
  LoginRequest, reset_attempts, lock_until, reset_failed_login_attempts, reject_login,
  register_failed_login_attempt, is_locked_until, is_user_locked, complete_login, login_unlocked,
  login_active, login_user, login_tenant, login,
}
use identity_access_service.Services.Auth.Tokens.{
  user_of, get_valid_refresh_token, revoke_token, record_revocation, refresh, logout_token,
  logout_stored, logout_parsed, logout,
}
use identity_access_service.Policy.{anonymous, Reach, SameAccount, note_login, revoke, next}
use identity_access_service.Policy.Common.{record_audit_event-Keeps}
use identity_access_service.Policy.SignUp.{issue_tokens_for_user-Keeps}

module _ {b : Db} where
  assign_user-Keeps :
      (user : User) (f : User → User) (s : Session)
      → ((u : User) → SameAccount u (f u))
      → Keeps (Reach anonymous b) (assign_user user f) s
  unfolding assign_user
  assign_user-Keeps user f s same =
      Keeps-write-bind _ _ s (λ r. next r (note_login s.db user.id f refl same)) (Keeps-pure _ _)

  module _ (c : Context) where
    reject_login-Keeps :
        {A : Type 0} (payload : LoginRequest) (client : Client) (tenant_id actor : Option Uuid)
        (details : Details) (s : Session)
        → Keeps
            (Reach anonymous b)
            (reject_login c {A = A} payload client tenant_id actor details)
            s
    unfolding reject_login
    reject_login-Keeps payload client tenant_id actor details s =
        search (keeps_rules, record_audit_event-Keeps)

    reset_failed_login_attempts-Keeps :
        (user : User) (s : Session) → Keeps (Reach anonymous b) (reset_failed_login_attempts user) s
    unfolding reset_failed_login_attempts
    reset_failed_login_attempts-Keeps user s = assign_user-Keeps user reset_attempts s (λ u. search)

    register_failed_login_attempt-Keeps :
        (user : User) (s : Session)
        → Keeps (Reach anonymous b) (register_failed_login_attempt c user) s
    unfolding register_failed_login_attempt
    register_failed_login_attempt-Keeps user s =
        Keeps-bind _ _ s (assign_user-Keeps user _ s (λ u. search)) λ counted _.
          Keeps-if (leb c.max_failed_login_attempts counted.failed_login_attempts) _ (pure counted)
            _ (λ _. assign_user-Keeps counted (lock_until c) _ (λ u. search)) (λ _. Keeps-pure _ _)

    is_locked_until-Keeps :
        (user : User) (o : Option Datetime) (s : Session)
        → Keeps (Reach anonymous b) (is_locked_until c user o) s
    unfolding is_locked_until
    is_locked_until-Keeps user none s = Keeps-pure _ s
    is_locked_until-Keeps user (some locked_until) s =
        Keeps-if (leb (instant (as_utc locked_until)) c.now) _ _ s
          (λ _. search (keeps_rules, reset_failed_login_attempts-Keeps))
          (λ _. Keeps-bind _ _ s (assign_user-Keeps user _ s (λ u. search)) λ _ _. Keeps-pure _ _)

    complete_login-Keeps :
        (user : User) (client : Client) (s : Session)
        → Keeps (Reach anonymous b) (complete_login c user client) s
    unfolding complete_login tenant_of
    complete_login-Keeps user client s =
        Keeps-bind _ _ s (reset_failed_login_attempts-Keeps user s) λ cleared _.
          Keeps-bind _ _ _ (assign_user-Keeps cleared _ _ (λ u. search)) λ signed_in _.
            search (keeps_rules, issue_tokens_for_user-Keeps, record_audit_event-Keeps) depth 12

    login_unlocked-Keeps :
        (payload : LoginRequest) (client : Client) (tenant : Tenant) (user : User) (s : Session)
        → Keeps (Reach anonymous b) (login_unlocked c payload client tenant user) s
    unfolding login_unlocked
    login_unlocked-Keeps payload client tenant user s =
        Keeps-if (verify_password c payload.password user.password_hash) _ _ s
          (λ _. complete_login-Keeps user client s)
          (λ _. search (keeps_rules, register_failed_login_attempt-Keeps, reject_login-Keeps))

    login_active-Keeps :
        (payload : LoginRequest) (client : Client) (tenant : Tenant) (user : User) (s : Session)
        → Keeps (Reach anonymous b) (login_active c payload client tenant user) s
    unfolding login_active is_user_locked
    login_active-Keeps payload client tenant user s =
        Keeps-bind _ _ s (is_locked_until-Keeps user user.locked_until s) λ (locked, current) _.
          Keeps-if locked _ _ _ (λ _. reject_login-Keeps payload client _ _ _ _)
            (λ _. login_unlocked-Keeps payload client tenant current _)

    login_user-Keeps :
        (payload : LoginRequest) (client : Client) (tenant : Tenant) (o : Option User) (s : Session)
        → Keeps (Reach anonymous b) (login_user c payload client tenant o) s
    unfolding login_user
    login_user-Keeps payload client tenant none s = reject_login-Keeps payload client _ _ _ s
    login_user-Keeps payload client tenant (some user) s =
        Keeps-if user.is_active _ _ s (λ _. login_active-Keeps payload client tenant user s)
          (λ _. reject_login-Keeps payload client _ _ _ s)

    login_tenant-Keeps :
        (payload : LoginRequest) (client : Client) (o : Option Tenant) (s : Session)
        → Keeps (Reach anonymous b) (login_tenant c payload client o) s
    unfolding login_tenant
    login_tenant-Keeps payload client none s = reject_login-Keeps payload client _ _ _ s
    login_tenant-Keeps payload client (some tenant) s =
        Keeps-if tenant.is_active _ _ s
          (λ _. Keeps-query-bind _ _ s (login_user-Keeps payload client tenant _ s))
          (λ _. reject_login-Keeps payload client _ _ _ s)

    pub login-Keeps :
        (payload : LoginRequest) (client : Client) (s : Session)
        → Keeps (Reach anonymous b) (login c payload client) s
    unfolding login
    login-Keeps payload client s = Keeps-query-bind _ _ s (login_tenant-Keeps payload client _ s)

    get_valid_refresh_token-Keeps :
        (refresh_token : String) (s : Session)
        → Keeps (Reach anonymous b) (get_valid_refresh_token c refresh_token) s
    unfolding get_valid_refresh_token user_of tenant_of
    get_valid_refresh_token-Keeps refresh_token s = search keeps_rules depth 20

    revoke_token-Keeps :
        (stored_token : RefreshToken) (s : Session)
        → Keeps (Reach anonymous b) (revoke_token c stored_token) s
    unfolding revoke_token
    revoke_token-Keeps stored_token s =
        Keeps-write _ s λ r. next r (revoke s.db stored_token.id _ refl)

    pub refresh-Keeps :
        (refresh_token : String) (client : Client) (s : Session)
        → Keeps (Reach anonymous b) (refresh c refresh_token client) s
    unfolding refresh user_of record_revocation
    refresh-Keeps refresh_token client s =
        search
          (
            keeps_rules, get_valid_refresh_token-Keeps, revoke_token-Keeps,
            issue_tokens_for_user-Keeps, record_audit_event-Keeps,
          )
          depth 20

    logout_token-Keeps :
        (stored_token : RefreshToken) (client : Client) (s : Session)
        → Keeps (Reach anonymous b) (logout_token c stored_token client) s
    unfolding logout_token user_of record_revocation
    logout_token-Keeps stored_token client s =
        search (keeps_rules, revoke_token-Keeps, record_audit_event-Keeps) depth 20

    logout_stored-Keeps :
        (secret : String) (client : Client) (o : Option RefreshToken) (s : Session)
        → Keeps (Reach anonymous b) (logout_stored c secret client o) s
    unfolding logout_stored
    logout_stored-Keeps secret client none s = Keeps-pure _ s
    logout_stored-Keeps secret client (some t) s =
        Keeps-if (not (verify_refresh_token_secret c secret t.token_hash)) _ _ s
          (λ _. Keeps-pure _ s)
          λ _.
            Keeps-if (is_some t.revoked_at) _ _ s (λ _. Keeps-pure _ s)
              (λ _. logout_token-Keeps t client s)

    logout_parsed-Keeps :
        (client : Client) (o : Option (Uuid × String)) (s : Session)
        → Keeps (Reach anonymous b) (logout_parsed c client o) s
    unfolding logout_parsed
    logout_parsed-Keeps client none s = Keeps-pure _ s
    logout_parsed-Keeps client (some (token_id, secret)) s =
        Keeps-query-bind _ _ s (logout_stored-Keeps secret client _ s)

    pub logout-Keeps :
        (refresh_token : String) (client : Client) (s : Session)
        → Keeps (Reach anonymous b) (logout c refresh_token client) s
    unfolding logout
    logout-Keeps refresh_token client s =
        logout_parsed-Keeps client (parse_refresh_token refresh_token) s
