-- ===== src/Services/Tenants/Visible.antt =====
-- `resolve_visible_tenant`: it only reads, and whom it shows which tenant.
use identity_access_service.Base.{true, some, List, ◌≡◌, ◌⊎◌, ◌↔◌, nat_eq, arith}
use identity_access_service.Models.{Uuid, Tenant, Role, sys_admin, role_eq}
use identity_access_service.Errors.{ok}
use identity_access_service.Db.{tenant_by_id}
use identity_access_service.Db.Session.{Session, ◌>>=◌}
use identity_access_service.Core.Principal.{CurrentPrincipal}
use identity_access_service.Services.Tenants.{resolve_visible_tenant, is_among}

-- A system administrator may see every tenant, any other principal its own if its role is allowed.
abbrev pub MaySee : CurrentPrincipal → Uuid → List Role → Type 0
MaySee p tenant_id roles =
    (p.role ≡ sys_admin) ⊎ (p.tenant_id ≡ tenant_id) × (is_among p.role roles ≡ true)

module _ (p : CurrentPrincipal) (tenant_id : Uuid) (roles : List Role) (s : Session) where
  pub resolve_reads : (resolve_visible_tenant p tenant_id roles s).1 ≡ s
  unfolding resolve_visible_tenant ◌>>=◌
  resolve_reads = ground arith

  resolve_sound :
      {t : Tenant}
      → (resolve_visible_tenant p tenant_id roles s).0 ≡ ok t
      → (tenant_by_id tenant_id s.db ≡ some t) × MaySee p tenant_id roles
  unfolding resolve_visible_tenant ◌>>=◌
  resolve_sound h = ground (arith, nat_eq.reflects p.tenant_id tenant_id)

  resolve_complete :
      {t : Tenant}
      → tenant_by_id tenant_id s.db ≡ some t
      → MaySee p tenant_id roles
      → (resolve_visible_tenant p tenant_id roles s).0 ≡ ok t
  unfolding resolve_visible_tenant ◌>>=◌
  resolve_complete h m = ground (arith, nat_eq.reflects p.tenant_id tenant_id)

  -- A tenant is shown exactly if it is stored under the id and the principal is a system
  -- administrator, or is of that tenant and has one of the allowed roles.
  pub resolve_visible_tenant_iff :
      (t : Tenant)
      → ((resolve_visible_tenant p tenant_id roles s).0 ≡ ok t)
        ↔ ((tenant_by_id tenant_id s.db ≡ some t) × MaySee p tenant_id roles)
  resolve_visible_tenant_iff t = (resolve_sound, λ (found, may). resolve_complete found may)
