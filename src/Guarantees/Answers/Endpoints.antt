-- ===== src/Guarantees/Answers/Endpoints.antt =====
-- The exceptions that leave each endpoint.
use identity_access_service.Base.{
  ℕ, String, true, [], ◌∷◌, nat_eq, Option, List, ◌≡◌, refl, ap, ◌∙◌, arith, inl, inr,
}
use identity_access_service.Errors.{Error, ok, Result-cases}
use identity_access_service.Models.{Role, Uuid, AuditAction, Tenant}
use identity_access_service.Db.{tenant_by_id}
use identity_access_service.Db.Session.{Session, Action, ◌>>=◌}
use identity_access_service.Db.Raises.{Raises, raises_rules, Raises-pure}
use identity_access_service.Core.Context.{Context, Client}
use identity_access_service.Core.Principal.{CurrentPrincipal}
use identity_access_service.Base.Int.{ℤ}
use identity_access_service.Services.Auth.Register.{RegisterRequest}
use identity_access_service.Services.Auth.Login.{LoginRequest}
use identity_access_service.Services.Users.{UserCreateRequest}
use identity_access_service.Services.Tenants.Visible.{resolve_visible_tenant_iff}
use identity_access_service.Api.Dependencies.Reads.{get_current_principal_reads}
use identity_access_service.Api.Dependencies.Authenticated.{get_current_principal_iff}
use identity_access_service.Services.Auth.Issue.{tenant_of}
use identity_access_service.Services.Tenants.{
  list_tenants, get_current_tenant, resolve_visible_tenant, every_role, TenantCreateRequest,
  TenantUpdateRequest,
}
use identity_access_service.Services.Rbac.{build_tenant_admin_summary, build_system_admin_summary}
use identity_access_service.Services.Audit.Listing.{Filters, list_system_audit_logs, build_response}
use identity_access_service.Api.Http.{except, reply}
use identity_access_service.Api.Dependencies.{Credentials, get_current_principal, require_roles}
use identity_access_service.Api.Auth
use identity_access_service.Api.Tenants
use identity_access_service.Api.Users
use identity_access_service.Api.Rbac
use identity_access_service.Api.Audit
use identity_access_service.Guarantees.Answers.{is_presented, is_status, Presented}
use identity_access_service.Guarantees.Answers.SignIn.{
  register-Raises, login-Raises, refresh-Raises, logout-Raises,
}
use identity_access_service.Guarantees.Answers.Managing.{
  create_tenant-Raises, update_tenant-Raises, get_tenant-Raises, list_users-Raises,
  create_user-Raises, update_user_role-Raises, deactivate_user-Raises,
  list_tenant_audit_logs-Raises, every_role-is_among,
}

abbrev pub IsPresented : List ℕ → Error → Type 0
IsPresented allowed e = is_presented allowed e ≡ true

except-Raises :
    {A : Type 0} (allowed : List ℕ) (handler : Error → Error) (m : Action A)
    → Raises (Presented allowed handler) m
    → Raises (IsPresented allowed) (except handler m)
unfolding except
except-Raises allowed handler m rm = record {
  only = λ s e h. elim (Result-cases (m s).0) [
    | inl (x, bad) ↦ let same : handler x ≡ e = cc (rw bad at h) in rw (← same) (rm.only s x bad)
    | inr (a, good) ↦ absurd (cc (rw good at h))
  ];
}

reply-Raises :
    {A : Type 0} (allowed : List ℕ) (status : ℕ) (body : A)
    → Raises (IsPresented allowed) (reply status body)
unfolding reply
reply-Raises allowed status body = Raises-pure _

module _ (allowed : List ℕ) (unauthorized : is_status 401 allowed ≡ true) (c : Context) where
  get_current_principal-Raises :
      (who : Option Credentials) → Raises (IsPresented allowed) (get_current_principal c who)
  unfolding get_current_principal tenant_of is_presented
  get_current_principal-Raises who = search raises_rules depth 24

  require_roles-Raises :
      (forbidden : is_status 403 allowed ≡ true) (roles : List Role) (who : Option Credentials)
      → Raises (IsPresented allowed) (require_roles c roles who)
  unfolding require_roles is_presented
  require_roles-Raises forbidden roles who =
      search (raises_rules, get_current_principal-Raises) depth 10

ruleset answer_rules =
    (raises_rules, except-Raises, reply-Raises, get_current_principal-Raises, require_roles-Raises)

module _ (c : Context) (who : Option Credentials) where
  pub list_tenants_endpoint-Raises :
      Raises (IsPresented (401 ∷ 403 ∷ [])) (Tenants.list_tenants_endpoint c who)
  unfolding Tenants.list_tenants_endpoint list_tenants
  list_tenants_endpoint-Raises = search (answer_rules) depth 12

  pub create_tenant_endpoint-Raises :
      (payload : TenantCreateRequest) (client : Client)
      → Raises
          (IsPresented (401 ∷ 403 ∷ 409 ∷ []))
          (Tenants.create_tenant_endpoint c who payload client)
  unfolding Tenants.create_tenant_endpoint
  create_tenant_endpoint-Raises payload client =
      search (answer_rules, create_tenant-Raises) depth 12

  pub read_tenant-Raises :
      (id : Uuid) → Raises (IsPresented (401 ∷ 404 ∷ [])) (Tenants.read_tenant c who id)
  unfolding Tenants.read_tenant
  read_tenant-Raises id = search (answer_rules, get_tenant-Raises) depth 12

  pub update_tenant_endpoint-Raises :
      (id : Uuid) (payload : TenantUpdateRequest)
      → Raises
          (IsPresented (401 ∷ 403 ∷ 404 ∷ []))
          (Tenants.update_tenant_endpoint c who id payload)
  unfolding Tenants.update_tenant_endpoint
  update_tenant_endpoint-Raises id payload = search (answer_rules, update_tenant-Raises) depth 12

  pub list_users_endpoint-Raises :
      (id : Uuid) → Raises (IsPresented (401 ∷ 403 ∷ 404 ∷ [])) (Users.list_users_endpoint c who id)
  unfolding Users.list_users_endpoint
  list_users_endpoint-Raises id = search (answer_rules, list_users-Raises) depth 12

  pub create_user_endpoint-Raises :
      (id : Uuid) (payload : UserCreateRequest) (client : Client)
      → Raises
          (IsPresented (401 ∷ 403 ∷ 404 ∷ 409 ∷ []))
          (Users.create_user_endpoint c who id payload client)
  unfolding Users.create_user_endpoint
  create_user_endpoint-Raises id payload client = search (answer_rules, create_user-Raises) depth 12

  pub update_user_role_endpoint-Raises :
      (tenant_id : Uuid) (id : Uuid) (role : Role) (client : Client)
      → Raises
          (IsPresented (401 ∷ 403 ∷ 404 ∷ []))
          (Users.update_user_role_endpoint c who tenant_id id role client)
  unfolding Users.update_user_role_endpoint
  update_user_role_endpoint-Raises tenant_id id role client =
      search (answer_rules, update_user_role-Raises) depth 12

  pub deactivate_user_endpoint-Raises :
      (tenant_id : Uuid) (id : Uuid) (client : Client)
      → Raises
          (IsPresented (401 ∷ 403 ∷ 404 ∷ []))
          (Users.deactivate_user_endpoint c who tenant_id id client)
  unfolding Users.deactivate_user_endpoint
  deactivate_user_endpoint-Raises tenant_id id client =
      search (answer_rules, deactivate_user-Raises) depth 12

  pub read_current_principal-Raises :
      Raises (IsPresented (401 ∷ [])) (Rbac.read_current_principal c who)
  unfolding Rbac.read_current_principal
  read_current_principal-Raises = search (answer_rules) depth 12

  pub read_tenant_admin_summary-Raises :
      Raises (IsPresented (401 ∷ 403 ∷ [])) (Rbac.read_tenant_admin_summary c who)
  unfolding Rbac.read_tenant_admin_summary build_tenant_admin_summary
  read_tenant_admin_summary-Raises = search (answer_rules) depth 12

  pub read_system_admin_summary-Raises :
      Raises (IsPresented (401 ∷ 403 ∷ [])) (Rbac.read_system_admin_summary c who)
  unfolding Rbac.read_system_admin_summary build_system_admin_summary
  read_system_admin_summary-Raises = search (answer_rules) depth 12

  pub list_system_audit_logs_endpoint-Raises :
      (filters : Filters) (limit : ℤ) (offset : ℤ)
      → Raises
          (IsPresented (401 ∷ 403 ∷ 422 ∷ []))
          (Audit.list_system_audit_logs_endpoint c who filters limit offset)
  unfolding Audit.list_system_audit_logs_endpoint Audit.validate_query list_system_audit_logs
      build_response is_presented
  list_system_audit_logs_endpoint-Raises filters limit offset = search (answer_rules) depth 12

  pub list_tenant_audit_logs_endpoint-Raises :
      (id : Uuid) (action : Option AuditAction) (actor : Option Uuid) (limit : ℤ) (offset : ℤ)
      → Raises
          (IsPresented (401 ∷ 403 ∷ 404 ∷ 422 ∷ []))
          (Audit.list_tenant_audit_logs_endpoint c who id action actor limit offset)
  unfolding Audit.list_tenant_audit_logs_endpoint Audit.validate_query is_presented
  list_tenant_audit_logs_endpoint-Raises id action actor limit offset =
      search (answer_rules, list_tenant_audit_logs-Raises) depth 12

  -- The tenant of a principal that was let in is there, so that its own tenant is always shown.
  own_tenant_shown :
      (s : Session) (p : CurrentPrincipal)
      → (get_current_principal c who s).0 ≡ ok p
      → (t : Tenant) × ((resolve_visible_tenant p p.tenant_id every_role
            (get_current_principal c who s).1).0
          ≡ ok t)
  own_tenant_shown s p signed =
      let a = (get_current_principal_iff c who s p).0 signed in
      (
        a.tenant,
        (resolve_visible_tenant_iff p p.tenant_id every_role _ a.tenant).1 (
          ap (λ s'. tenant_by_id p.tenant_id s'.db) (get_current_principal_reads c who s)
              ∙ ap (λ (q : CurrentPrincipal). tenant_by_id q.tenant_id s.db) a.described
              ∙ a.home,
          inr (refl, every_role-is_among p.role),
        ),
      )

  pub read_current_tenant-Raises :
      Raises (IsPresented (401 ∷ [])) (Tenants.read_current_tenant c who)
  unfolding Tenants.read_current_tenant get_current_tenant reply ◌>>=◌
  read_current_tenant-Raises = record {
    only = λ s e h. elim (Result-cases (get_current_principal c who s).0) [
      | inl (x, refused) ↦
          let same : x ≡ e = ground arith in
          rw (← same) ((get_current_principal-Raises (401 ∷ []) refl c who).only s x refused)
      | inr (p, signed) ↦ let (t, shown) = own_tenant_shown s p signed in absurd (ground arith)
    ];
  }

module _ (c : Context) where
  pub register_endpoint-Raises :
      (payload : RegisterRequest) (client : Client)
      → Raises (IsPresented (409 ∷ [])) (Auth.register_endpoint c payload client)
  unfolding Auth.register_endpoint Auth.auth_reply is_presented
  register_endpoint-Raises payload client = search (answer_rules, register-Raises) depth 12

  pub login_endpoint-Raises :
      (payload : LoginRequest) (client : Client)
      → Raises (IsPresented (401 ∷ [])) (Auth.login_endpoint c payload client)
  unfolding Auth.login_endpoint Auth.auth_reply is_presented
  login_endpoint-Raises payload client = search (answer_rules, login-Raises) depth 12

  pub refresh_endpoint-Raises :
      (token : String) (client : Client)
      → Raises (IsPresented (401 ∷ [])) (Auth.refresh_endpoint c token client)
  unfolding Auth.refresh_endpoint Auth.auth_reply is_presented
  refresh_endpoint-Raises token client = search (answer_rules, refresh-Raises) depth 12

  pub logout_endpoint-Raises :
      (token : String) (client : Client)
      → Raises (IsPresented ([])) (Auth.logout_endpoint c token client)
  unfolding Auth.logout_endpoint
  logout_endpoint-Raises token client = search (answer_rules, logout-Raises) depth 12
