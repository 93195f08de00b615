-- ===== src/Requests/Endpoints.antt =====
-- Each endpoint makes only changes that the policy permits its caller.
use identity_access_service.Base.{ℕ, String, true, Option, List, [], ◌∷◌, ◌≡◌, refl, arith, ◌==◌}
use identity_access_service.Errors.{Error, Result, ok, err}
use identity_access_service.Models.{Uuid, Role, sys_admin, role_eq}
use identity_access_service.Db.{Db}
use identity_access_service.Db.Session.{Session, Action, open_session, ◌>>=◌}
use identity_access_service.Db.Keeps.{
  Kept, Keeps, Keeps-pure, Keeps-bind, Keeps-read-bind, Keeps-if, keeps_rules,
}
use identity_access_service.Core.Context.{Context, Client}
use identity_access_service.Core.Principal.{CurrentPrincipal}
use identity_access_service.Services.Tenants.{
  resolve_visible_tenant, admin_roles, list_tenants, get_tenant, get_current_tenant, is_among,
  TenantCreateRequest, TenantUpdateRequest,
}
use identity_access_service.Services.Users.{list_users, UserCreateRequest}
use identity_access_service.Services.Auth.Register.{RegisterRequest}
use identity_access_service.Services.Auth.Login.{LoginRequest}
use identity_access_service.Api.Http.{except, reply}
use identity_access_service.Api.Dependencies.{Credentials, get_current_principal, require_roles}
use identity_access_service.Api.Dependencies.Reads.{
  get_current_principal_reads, require_roles_reads, require_roles_sound,
}
use identity_access_service.Api.Auth
use identity_access_service.Api.Tenants
use identity_access_service.Api.Users
use identity_access_service.Policy.{Authority, anonymous, signed_in, Reach}
use identity_access_service.Policy.SignUp.{register-Keeps}
use identity_access_service.Policy.SignIn.{login-Keeps, refresh-Keeps, logout-Keeps}
use identity_access_service.Policy.Managing.{
  create_user-Keeps, update_user_role-Keeps, deactivate_user-Keeps, create_tenant-Keeps,
  update_tenant-Keeps,
}
use identity_access_service.Requests.{caller}
use identity_access_service.Api.Rbac
use identity_access_service.Api.Audit
use identity_access_service.Base.Int.{ℤ}
use identity_access_service.Models.{AuditAction}
use identity_access_service.Services.Rbac.{build_tenant_admin_summary, build_system_admin_summary}
use identity_access_service.Services.Audit.Listing.{
  Filters, build_response, list_system_audit_logs, list_tenant_audit_logs,
}

except-Kept :
    {A : Type 0} (P : Db → Type 0) (handler : Error → Error) (m : Action A) (s : Session)
    (r : Result A) (s' : Session)
    → m s ≡ (r, s')
    → Kept P (r, s')
    → Kept P (except handler m s)
unfolding except
except-Kept P handler m s (ok a) s' e k = rw e k
except-Kept P handler m s (err x) s' e k = rw e k

except-Keeps :
    {A : Type 0} {P : Db → Type 0} (handler : Error → Error) (m : Action A) (s : Session)
    → Keeps P m s
    → Keeps P (except handler m) s
except-Keeps {P} handler m s km = record {
  at = λ c d. except-Kept P handler m s (m s).0 (m s).1 refl (km.at c d);
}

reply-Keeps :
    {A : Type 0} {P : Db → Type 0} (status : ℕ) (body : A) (s : Session)
    → Keeps P (reply status body) s
unfolding reply
reply-Keeps status body s = Keeps-pure _ s

resolve_visible_tenant-Keeps :
    {P : Db → Type 0} (p : CurrentPrincipal) (tenant_id : Uuid) (roles : List Role) (s : Session)
    → Keeps P (resolve_visible_tenant p tenant_id roles) s
unfolding resolve_visible_tenant
resolve_visible_tenant-Keeps p tenant_id roles s =
    Keeps-if (p.role == sys_admin) _ _ s (λ _. search keeps_rules) (λ _. search keeps_rules)

abbrev who_calls : Context → Option Credentials → Session → Authority
who_calls c who s = caller (get_current_principal c who s).0

-- The part of an endpoint behind its authentication acts for the principal that was found.
module _ {b : Db} (c : Context) (who : Option Credentials) (s : Session) where
  pub authenticated-Keeps :
      {A : Type 0} (f : CurrentPrincipal → Action A)
      → ((p : CurrentPrincipal) → Keeps (Reach (signed_in p) b) (f p) s)
      → Keeps (Reach (who_calls c who s) b) (get_current_principal c who >>= f) s
  authenticated-Keeps f kf =
      Keeps-read-bind _ f s (get_current_principal_reads c who s) (λ p found. rw found (kf p))

  pub authorised-Keeps :
      {A : Type 0} (allowed : List Role) (f : CurrentPrincipal → Action A)
      → ((p : CurrentPrincipal)
          → is_among p.role allowed ≡ true
          → Keeps (Reach (signed_in p) b) (f p) s)
      → Keeps (Reach (who_calls c who s) b) (require_roles c allowed who >>= f) s
  authorised-Keeps allowed f kf =
      Keeps-read-bind _ f s (require_roles_reads c who s allowed) λ p found.
        let (signed, among) = require_roles_sound c who s allowed found in rw signed (kf p among)

ruleset endpoint_rules = (keeps_rules, except-Keeps, reply-Keeps, resolve_visible_tenant-Keeps)

list_tenant_audit_logs-Keeps :
    {P : Db → Type 0} (p : CurrentPrincipal) (id : Uuid) (action : Option AuditAction)
    (actor : Option Uuid) (limit offset : ℤ) (s : Session)
    → Keeps P (list_tenant_audit_logs p id action actor limit offset) s
unfolding list_tenant_audit_logs build_response
list_tenant_audit_logs-Keeps p id action actor limit offset s = search endpoint_rules

is_sys_admin : (role : Role) → is_among role (sys_admin ∷ []) ≡ true → role ≡ sys_admin
is_sys_admin role h = ground arith

module _ (db : Db) (c : Context) where
  abbrev ByCaller : {A : Type 0} → Option Credentials → Action A → Type 0
  ByCaller who m = Keeps (Reach (who_calls c who (open_session db)) db) m (open_session db)

  pub list_tenants_endpoint-Keeps :
      (who : Option Credentials) → ByCaller who (Tenants.list_tenants_endpoint c who)
  unfolding Tenants.list_tenants_endpoint list_tenants
  list_tenants_endpoint-Keeps who =
      authorised-Keeps c who _ (sys_admin ∷ []) _ (λ p _. search endpoint_rules)

  pub create_tenant_endpoint-Keeps :
      (who : Option Credentials) (payload : TenantCreateRequest) (client : Client)
      → ByCaller who (Tenants.create_tenant_endpoint c who payload client)
  unfolding Tenants.create_tenant_endpoint
  create_tenant_endpoint-Keeps who payload client =
      authorised-Keeps c who _ (sys_admin ∷ []) _ λ p among.
        Keeps-bind _ _ _
          (except-Keeps _ _ _
            (create_tenant-Keeps c p payload client _ (is_sys_admin p.role among)))
          (λ t _. reply-Keeps 201 t _)

  pub read_current_tenant-Keeps :
      (who : Option Credentials) → ByCaller who (Tenants.read_current_tenant c who)
  unfolding Tenants.read_current_tenant get_current_tenant
  read_current_tenant-Keeps who = authenticated-Keeps c who _ _ (λ p. search endpoint_rules)

  pub read_tenant-Keeps :
      (who : Option Credentials) (id : Uuid) → ByCaller who (Tenants.read_tenant c who id)
  unfolding Tenants.read_tenant get_tenant
  read_tenant-Keeps who id = authenticated-Keeps c who _ _ (λ p. search endpoint_rules)

  pub update_tenant_endpoint-Keeps :
      (who : Option Credentials) (id : Uuid) (payload : TenantUpdateRequest)
      → ByCaller who (Tenants.update_tenant_endpoint c who id payload)
  unfolding Tenants.update_tenant_endpoint
  update_tenant_endpoint-Keeps who id payload =
      authenticated-Keeps c who _ _ (λ p. search (endpoint_rules, update_tenant-Keeps))

  pub list_users_endpoint-Keeps :
      (who : Option Credentials) (id : Uuid) → ByCaller who (Users.list_users_endpoint c who id)
  unfolding Users.list_users_endpoint list_users
  list_users_endpoint-Keeps who id = authenticated-Keeps c who _ _ (λ p. search endpoint_rules)

  pub create_user_endpoint-Keeps :
      (who : Option Credentials) (id : Uuid) (payload : UserCreateRequest) (client : Client)
      → ByCaller who (Users.create_user_endpoint c who id payload client)
  unfolding Users.create_user_endpoint
  create_user_endpoint-Keeps who id payload client =
      authenticated-Keeps c who _ _ (λ p. search (endpoint_rules, create_user-Keeps))

  pub update_user_role_endpoint-Keeps :
      (who : Option Credentials) (tenant_id id : Uuid) (role : Role) (client : Client)
      → ByCaller who (Users.update_user_role_endpoint c who tenant_id id role client)
  unfolding Users.update_user_role_endpoint
  update_user_role_endpoint-Keeps who tenant_id id role client =
      authenticated-Keeps c who _ _ (λ p. search (endpoint_rules, update_user_role-Keeps))

  pub deactivate_user_endpoint-Keeps :
      (who : Option Credentials) (tenant_id id : Uuid) (client : Client)
      → ByCaller who (Users.deactivate_user_endpoint c who tenant_id id client)
  unfolding Users.deactivate_user_endpoint
  deactivate_user_endpoint-Keeps who tenant_id id client =
      authenticated-Keeps c who _ _ (λ p. search (endpoint_rules, deactivate_user-Keeps))

  pub read_current_principal-Keeps :
      (who : Option Credentials) → ByCaller who (Rbac.read_current_principal c who)
  unfolding Rbac.read_current_principal
  read_current_principal-Keeps who = authenticated-Keeps c who _ _ (λ p. search endpoint_rules)

  pub read_tenant_admin_summary-Keeps :
      (who : Option Credentials) → ByCaller who (Rbac.read_tenant_admin_summary c who)
  unfolding Rbac.read_tenant_admin_summary build_tenant_admin_summary ◌>>=◌
  read_tenant_admin_summary-Keeps who =
      authorised-Keeps c who _ admin_roles _ (λ p _. search endpoint_rules)

  pub read_system_admin_summary-Keeps :
      (who : Option Credentials) → ByCaller who (Rbac.read_system_admin_summary c who)
  unfolding Rbac.read_system_admin_summary build_system_admin_summary ◌>>=◌
  read_system_admin_summary-Keeps who =
      authorised-Keeps c who _ (sys_admin ∷ []) _ (λ p _. search endpoint_rules)

  pub list_system_audit_logs_endpoint-Keeps :
      (who : Option Credentials) (filters : Filters) (limit offset : ℤ)
      → ByCaller who (Audit.list_system_audit_logs_endpoint c who filters limit offset)
  unfolding Audit.list_system_audit_logs_endpoint Audit.validate_query list_system_audit_logs
      build_response
  list_system_audit_logs_endpoint-Keeps who filters limit offset =
      authorised-Keeps c who _ (sys_admin ∷ []) _ (λ p _. search endpoint_rules)

  pub list_tenant_audit_logs_endpoint-Keeps :
      (who : Option Credentials) (id : Uuid) (action : Option AuditAction) (actor : Option Uuid)
      (limit offset : ℤ)
      → ByCaller who (Audit.list_tenant_audit_logs_endpoint c who id action actor limit offset)
  unfolding Audit.list_tenant_audit_logs_endpoint Audit.validate_query
  list_tenant_audit_logs_endpoint-Keeps who id action actor limit offset =
      authenticated-Keeps c who _ _ (λ p. search (endpoint_rules, list_tenant_audit_logs-Keeps))

  abbrev Publicly : {A : Type 0} → Action A → Type 0
  Publicly m = Keeps (Reach anonymous db) m (open_session db)

  pub register_endpoint-Keeps :
      (payload : RegisterRequest) (client : Client)
      → Publicly (Auth.register_endpoint c payload client)
  unfolding Auth.register_endpoint Auth.auth_reply
  register_endpoint-Keeps payload client = search (endpoint_rules, register-Keeps)

  pub login_endpoint-Keeps :
      (payload : LoginRequest) (client : Client) → Publicly (Auth.login_endpoint c payload client)
  unfolding Auth.login_endpoint Auth.auth_reply
  login_endpoint-Keeps payload client = search (endpoint_rules, login-Keeps)

  pub refresh_endpoint-Keeps :
      (token : String) (client : Client) → Publicly (Auth.refresh_endpoint c token client)
  unfolding Auth.refresh_endpoint Auth.auth_reply
  refresh_endpoint-Keeps token client = search (endpoint_rules, refresh-Keeps)

  pub logout_endpoint-Keeps :
      (token : String) (client : Client) → Publicly (Auth.logout_endpoint c token client)
  unfolding Auth.logout_endpoint
  logout_endpoint-Keeps token client = search (endpoint_rules, logout-Keeps)
