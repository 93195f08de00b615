-- ===== src/Policy/Managing.antt =====
-- The services for administrators make only changes that their caller is permitted.
use identity_access_service.Base.{
  false, not, some, [], ◌∷◌, ◌≡◌, ◌≢◌, refl, ◌==◌, ◌&&◌, nat_eq, arith, ==→ne,
}
use identity_access_service.Base.Rows.{first_sound}
use identity_access_service.Models.{Uuid, Tenant, User, Role, sys_admin, role_eq, Details}
use identity_access_service.Errors.{ok}
use identity_access_service.Db.{Db, tenant_by_id, tenant_has_id}
use identity_access_service.Db.Session.{pure, Session, insert_tenant, insert_user}
use identity_access_service.Db.Keeps.{
  Keeps, Keeps-pure, Keeps-if, Keeps-read-bind, Keeps-query-bind, Keeps-raise_if-bind,
  Keeps-insert-bind, Keeps-write-bind, Keeps-write_twice-bind, keeps_rules,
}
use identity_access_service.Core.Context.{Context, Client}
use identity_access_service.Core.Principal.{CurrentPrincipal}
use identity_access_service.Services.Tenants.{
  TenantCreateRequest, TenantUpdateRequest, admin_roles, create_tenant, update_tenant,
  record_update, refresh_tenant, assign_name, assign_is_active,
}
use identity_access_service.Services.Tenants.Visible.{
  MaySee, resolve_reads, resolve_visible_tenant_iff,
}
use identity_access_service.Services.Users.{
  UserCreateRequest, created_user, ensure_manageable_target, ensure_role_assignment_allowed,
  create_user, refresh_user, get_visible_user, update_user_role, deactivate_user, deactivate,
  record_role_change,
}
use identity_access_service.Services.Users.Visible.{get_visible_user_reads, get_visible_user_sound}
use identity_access_service.Policy.{
  signed_in, Reach, next, SameTenant, MayManage, open_tenant, edit_tenant, enrol, assign_role,
  suspend,
}
use identity_access_service.Policy.Common.{record_audit_event-Keeps}

-- What the guards of the services let through is what the policy allows.
may_manage :
    (p : CurrentPrincipal) (tenant_id : Uuid) (role : Role)
    → MaySee p tenant_id admin_roles
    → (not (p.role == sys_admin) && role == sys_admin) ≡ false
    → MayManage p tenant_id role
may_manage p tenant_id role see guard = ground arith

-- The tenant that is found has the id that was asked for.
tenant_by_id_sound : (id : Uuid) (db : Db) {t : Tenant} → tenant_by_id id db ≡ some t → t.id ≡ id
unfolding tenant_by_id
tenant_by_id_sound id db {t} h =
    (nat_eq.reflects t.id id).0 (first_sound (tenant_has_id id) db.tenants h)

assign-SameTenant :
    (payload : TenantUpdateRequest) (t : Tenant)
    → SameTenant t (assign_is_active payload.is_active (assign_name payload.name t))
unfolding assign_is_active assign_name
assign-SameTenant payload t = ground arith

sees_as_admin :
    (p : CurrentPrincipal) (tenant_id : Uuid)
    → MaySee p tenant_id (sys_admin ∷ [])
    → p.role ≡ sys_admin
sees_as_admin p tenant_id see = ground arith

module _ {b : Db} (c : Context) (p : CurrentPrincipal) where
  pub create_user-Keeps :
      (tenant_id : Uuid) (payload : UserCreateRequest) (client : Client) (s : Session)
      → Keeps (Reach (signed_in p) b) (create_user c tenant_id payload p client) s
  unfolding create_user ensure_role_assignment_allowed insert_user refresh_user
  create_user-Keeps tenant_id payload client s =
      Keeps-read-bind _ _ s (resolve_reads p tenant_id admin_roles s) λ t found.
        let (there, see) = (resolve_visible_tenant_iff p tenant_id admin_roles s t).0 found in
        Keeps-raise_if-bind _ _ _ s λ guard. Keeps-query-bind _ _ s (
          Keeps-raise_if-bind _ _ _ s λ free.
            Keeps-insert-bind _ _ _ s
              (λ fits r. next r (
                enrol s.db (created_user c t.id payload)
                  (rw (tenant_by_id_sound tenant_id s.db there)
                    (may_manage p tenant_id payload.role see guard))
                  fits))
              (λ _. search (keeps_rules, record_audit_event-Keeps) depth 12))

  pub update_user_role-Keeps :
      (tenant_id user_id : Uuid) (role : Role) (client : Client) (s : Session)
      → Keeps (Reach (signed_in p) b) (update_user_role c tenant_id user_id role p client) s
  unfolding update_user_role ensure_manageable_target ensure_role_assignment_allowed refresh_user
      record_role_change
  update_user_role-Keeps tenant_id user_id role client s =
      Keeps-read-bind _ _ s (resolve_reads p tenant_id admin_roles s) λ t found.
        let (there, see) = (resolve_visible_tenant_iff p tenant_id admin_roles s t).0 found in
        Keeps-read-bind _ _ s (get_visible_user_reads p tenant_id user_id s) λ u target.
          Keeps-raise_if-bind _ _ _ s λ manageable. Keeps-raise_if-bind _ _ _ s λ assignable.
            Keeps-write-bind _ _ s
              (λ r. next r (
                assign_role s.db p tenant_id user_id u role refl
                  (get_visible_user_sound p tenant_id user_id s target)
                  (may_manage p tenant_id u.role see manageable)
                  (may_manage p tenant_id role see assignable)))
              (search (keeps_rules, record_audit_event-Keeps) depth 12)

  deactivate-Keeps :
      (tenant_id user_id : Uuid) (u : User) (client : Client) (s : Session)
      → (get_visible_user p tenant_id user_id s).0 ≡ ok u
      → MayManage p tenant_id u.role
      → p.user_id ≢ u.id
      → Keeps (Reach (signed_in p) b) (deactivate c u p client) s
  unfolding deactivate
  deactivate-Keeps tenant_id user_id u client s target may other =
      Keeps-write_twice-bind _ _ _ s
        (λ r. next r (
          suspend s.db p tenant_id user_id u _ refl
            (get_visible_user_sound p tenant_id user_id s target) may other))
        (search (keeps_rules, record_audit_event-Keeps))

  pub deactivate_user-Keeps :
      (tenant_id user_id : Uuid) (client : Client) (s : Session)
      → Keeps (Reach (signed_in p) b) (deactivate_user c tenant_id user_id p client) s
  unfolding deactivate_user ensure_manageable_target
  deactivate_user-Keeps tenant_id user_id client s =
      Keeps-read-bind _ _ s (resolve_reads p tenant_id admin_roles s) λ t found.
        let (there, see) = (resolve_visible_tenant_iff p tenant_id admin_roles s t).0 found in
        Keeps-read-bind _ _ s (get_visible_user_reads p tenant_id user_id s) λ u target.
          Keeps-raise_if-bind _ _ _ s λ manageable. Keeps-raise_if-bind _ _ _ s λ other.
            Keeps-if (not u.is_active) (pure tt) (deactivate c u p client) s (λ _. Keeps-pure tt s)
              (λ _.
                deactivate-Keeps tenant_id user_id u client s target
                  (may_manage p tenant_id u.role see manageable) (==→ne other))

  -- The endpoint lets only system administrators call `create_tenant`.
  pub create_tenant-Keeps :
      (payload : TenantCreateRequest) (client : Client) (s : Session)
      → p.role ≡ sys_admin
      → Keeps (Reach (signed_in p) b) (create_tenant c payload p client) s
  unfolding create_tenant insert_tenant refresh_tenant
  create_tenant-Keeps payload client s admin = Keeps-query-bind _ _ s (
      Keeps-raise_if-bind _ _ _ s λ free.
        Keeps-insert-bind _ _ _ s (λ fits r. next r (open_tenant s.db _ admin fits))
          (λ _. search (keeps_rules, record_audit_event-Keeps) depth 12))

  record_update-Keeps :
      (t : Tenant) (updates : Details) (s : Session)
      → Keeps (Reach (signed_in p) b) (record_update c t updates p) s
  unfolding record_update
  record_update-Keeps t [] s = Keeps-pure tt s
  record_update-Keeps t (u ∷ updates) s = record_audit_event-Keeps c _ _ s

  pub update_tenant-Keeps :
      (tenant_id : Uuid) (payload : TenantUpdateRequest) (s : Session)
      → Keeps (Reach (signed_in p) b) (update_tenant c tenant_id payload p) s
  unfolding update_tenant refresh_tenant
  update_tenant-Keeps tenant_id payload s =
      Keeps-read-bind _ _ s (resolve_reads p tenant_id (sys_admin ∷ []) s) λ t found.
        let (there, see) = (resolve_visible_tenant_iff p tenant_id (sys_admin ∷ []) s t).0 found in
        Keeps-write-bind _ _ s
          (λ r.
            next r
              (edit_tenant s.db t.id _ (sees_as_admin p tenant_id see) (assign-SameTenant payload)))
          (search (keeps_rules, record_update-Keeps) depth 12)
