-- ===== src/Policy/Operating.antt =====
-- `ensure_system_admin` makes only changes that the operator is permitted.
use identity_access_service.Base.{Bool, true, false, Option, none, some, refl}
use identity_access_service.Models.{Tenant, User, role_eq}
use identity_access_service.Db.{Db}
use identity_access_service.Db.Session.{Session, pure, insert_tenant, insert_user}
use identity_access_service.Db.Keeps.{
  Keeps, Keeps-pure, Keeps-if, Keeps-raise_if-bind, Keeps-insert-bind, Keeps-write-bind,
  keeps_rules,
}
use identity_access_service.Core.Context.{Context}
use identity_access_service.Services.Users.{refresh_user}
use identity_access_service.Services.Tenants.{refresh_tenant}
use identity_access_service.Services.Bootstrap
use identity_access_service.Services.Bootstrap.{
  BootstrapAdminPayload, bootstrap_tenant, bootstrap_user, ensure_tenant, ensure_user, rotate,
  record_tenant_created, record_user_created, ensure_system_admin,
}
use identity_access_service.Policy
use identity_access_service.Policy.{
  Authority, operator, Reach, next, SameIdentity, SameTenant, open_tenant, edit_tenant, enrol,
}
use identity_access_service.Policy.Common.{record_audit_event-Keeps}

module _ {b : Db} (c : Context) (payload : BootstrapAdminPayload) where
  ensure_tenant-Keeps :
      (o : Option Tenant) (s : Session) → Keeps (Reach operator b) (ensure_tenant c payload o) s
  unfolding ensure_tenant insert_tenant
  ensure_tenant-Keeps none s =
      Keeps-insert-bind _ _ _ s
        (λ fits r. next r (open_tenant s.db (bootstrap_tenant c payload) tt fits))
        (λ _. Keeps-pure _ _)
  ensure_tenant-Keeps (some t) s =
      Keeps-write-bind _ _ s (λ r. next r (edit_tenant s.db t.id _ tt (λ v. search)))
        (Keeps-pure _ _)

  rotate-Keeps : (u : User) (s : Session) → Keeps (Reach operator b) (rotate c payload u) s
  unfolding rotate
  rotate-Keeps u s =
      Keeps-if payload.rotate_password _ (pure false) s
        (λ _.
          Keeps-write-bind _ _ s (λ r. next r (Policy.recover s.db u _ refl (λ v. search)))
            (Keeps-write-bind _ _ _ (λ r. next r (Policy.rotate _ u.id _ refl)) (Keeps-pure _ _)))
        (λ _. Keeps-pure _ _)

  ensure_user-Keeps :
      (t : Tenant) (o : Option User) (s : Session)
      → Keeps (Reach operator b) (ensure_user c payload t o) s
  unfolding ensure_user insert_user Bootstrap.recover
  ensure_user-Keeps t none s =
      Keeps-insert-bind _ _ _ s
        (λ fits r. next r (enrol s.db (bootstrap_user c payload t.id) refl fits))
        (λ _. Keeps-pure _ _)
  ensure_user-Keeps t (some u) s = Keeps-raise_if-bind _ _ _ s λ admin.
      Keeps-write-bind _ _ s (λ r. next r (Policy.recover s.db u _ refl (λ v. search)))
        (search (keeps_rules, rotate-Keeps))

  record_tenant_created-Keeps :
      (t : Tenant) (u : User) (created : Bool) (s : Session)
      → Keeps (Reach operator b) (record_tenant_created c payload t u created) s
  unfolding record_tenant_created
  record_tenant_created-Keeps t u true s = record_audit_event-Keeps c _ _ s
  record_tenant_created-Keeps t u false s = Keeps-pure _ s

  record_user_created-Keeps :
      (t : Tenant) (u : User) (created : Bool) (s : Session)
      → Keeps (Reach operator b) (record_user_created c payload t u created) s
  unfolding record_user_created
  record_user_created-Keeps t u true s = record_audit_event-Keeps c _ _ s
  record_user_created-Keeps t u false s = Keeps-pure _ s

  pub ensure_system_admin-Keeps :
      (s : Session) → Keeps (Reach operator b) (ensure_system_admin c payload) s
  unfolding ensure_system_admin refresh_user refresh_tenant
  ensure_system_admin-Keeps s =
      search
        (
          keeps_rules, ensure_tenant-Keeps, ensure_user-Keeps, record_tenant_created-Keeps,
          record_user_created-Keeps,
        )
        depth 24
