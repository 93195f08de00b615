-- ===== src/Guarantees/Integrity/Growth.antt =====
-- No permitted change removes the row of a tenant or a user, and so no foreign key is left dangling.
use identity_access_service.Base.{
  Bool, true, false, Option, some, none, ◌≡◌, refl, ◌∙◌, arith, is_some, first, nat_eq,
}
use identity_access_service.Base.Rows.{is_some-first-update}
use identity_access_service.Models.{Uuid, Tenant, User, RefreshToken, AuditLog, Datetime}
use identity_access_service.Db.{
  Db, tenant_by_id, user_by_id, tenant_has_id, user_has_id, dangling_tenant, dangling_user,
}
use identity_access_service.Db.Session.{
  set_tenant, set_user, set_tokens, add_tenant, add_user, add_token, add_audit_log,
}
use identity_access_service.Services.Users.{revoke_at}
use identity_access_service.Policy.{
  Authority, Permitted, log, sign_up, open_tenant, edit_tenant, enrol, note_login, issue, revoke,
  assign_role, suspend, recover, rotate,
}
use identity_access_service.Guarantees.Integrity.{HasTenant, HasUser, HasSubjects}

pub record Grows (d e : Db) : Type 0 where
  pub tenants :
      (id : Uuid) → is_some (tenant_by_id id d) ≡ true → is_some (tenant_by_id id e) ≡ true
  pub users : (id : Uuid) → is_some (user_by_id id d) ≡ true → is_some (user_by_id id e) ≡ true

-- A write of users by which every user keeps its id.
pub set_user-Grows :
    (db : Db) (id : Uuid) (f : User → User)
    → ((u : User) → (f u).id ≡ u.id)
    → Grows db (set_user id f db)
unfolding user_by_id tenant_by_id
set_user-Grows db id f same = record {
  tenants = λ k h. h;
  users = λ k h.
      is_some-first-update (user_has_id id) (user_has_id k) f (λ u. rw (same u)) db.users ∙ h;
}

set_tenant-Grows :
    (db : Db) (id : Uuid) (f : Tenant → Tenant)
    → ((t : Tenant) → (f t).id ≡ t.id)
    → Grows db (set_tenant id f db)
unfolding user_by_id tenant_by_id
set_tenant-Grows db id f same = record {
  tenants = λ k h.
      is_some-first-update (tenant_has_id id) (tenant_has_id k) f (λ t. rw (same t)) db.tenants ∙ h;
  users = λ k h. h;
}

pub set_tokens-Grows :
    (db : Db) (p : RefreshToken → Bool) (now : Datetime)
    → Grows db (set_tokens p (revoke_at now) db)
unfolding user_by_id tenant_by_id
set_tokens-Grows db p now = record { tenants = λ k h. h; users = λ k h. h }

-- A new row in front.
pub user-Grows : (db : Db) (u : User) → Grows db (add_user u db)
unfolding user_by_id tenant_by_id first
user-Grows db u = record { tenants = λ k h. h; users = λ k h. ground arith }

pub tenant-Grows : (db : Db) (t : Tenant) → Grows db (add_tenant t db)
unfolding user_by_id tenant_by_id first
tenant-Grows db t = record { tenants = λ k h. ground arith; users = λ k h. h }

pub token-Grows : (db : Db) (t : RefreshToken) → Grows db (add_token t db)
unfolding user_by_id tenant_by_id
token-Grows db t = record { tenants = λ k h. h; users = λ k h. h }

pub log-Grows : (db : Db) (a : AuditLog) → Grows db (add_audit_log a db)
unfolding user_by_id tenant_by_id
log-Grows db a = record { tenants = λ k h. h; users = λ k h. h }

pub Permitted-Grows : {a : Authority} {d e : Db} → Permitted a d e → Grows d e
unfolding user_by_id tenant_by_id
Permitted-Grows (log db e _) = log-Grows db e
Permitted-Grows (sign_up db t u _ _ _ _ _) =
    let g = tenant-Grows db t in
    let h = user-Grows (add_tenant t db) u in
    record {
      tenants = λ k there. h.tenants k (g.tenants k there);
      users = λ k there. h.users k (g.users k there);
    }
Permitted-Grows (open_tenant db t _ _) = tenant-Grows db t
Permitted-Grows (edit_tenant db id f _ same) = set_tenant-Grows db id f (λ t. (same t).id)
Permitted-Grows (enrol db u _ _) = user-Grows db u
Permitted-Grows (note_login db id f _ same) = set_user-Grows db id f (λ u. (same u).id)
Permitted-Grows (issue db t _ _ _) = token-Grows db t
Permitted-Grows (revoke db id now _) = set_tokens-Grows db _ now
Permitted-Grows (assign_role db p _ _ u role _ _ _ _) = set_user-Grows db u.id _ (λ v. refl)
Permitted-Grows (suspend db p _ _ u now _ _ _ _) =
    let g = set_user-Grows db u.id (λ v. record v { is_active = false }) (λ v. refl) in
    record { tenants = g.tenants; users = g.users }
Permitted-Grows (recover db u f _ same) = set_user-Grows db u.id f (λ v. (same v).id)
Permitted-Grows (rotate db id now _) = set_tokens-Grows db _ now

module _ {d e : Db} (g : Grows d e) where
  pub HasTenant-grows : (u : User) → HasTenant d u → HasTenant e u
  HasTenant-grows u h = g.tenants u.tenant_id h

  pub HasUser-grows : (t : RefreshToken) → HasUser d t → HasUser e t
  HasUser-grows t h = g.users t.user_id h

  tenant_grows : (o : Option Uuid) → dangling_tenant o d ≡ false → dangling_tenant o e ≡ false
  unfolding dangling_tenant
  tenant_grows none h = refl
  tenant_grows (some id) h = ground (arith, g.tenants id)

  user_grows : (o : Option Uuid) → dangling_user o d ≡ false → dangling_user o e ≡ false
  unfolding dangling_user
  user_grows none h = refl
  user_grows (some id) h = ground (arith, g.users id)

  pub HasSubjects-grows : (a : AuditLog) → HasSubjects d a → HasSubjects e a
  HasSubjects-grows a h = ground (arith, tenant_grows a.tenant_id, user_grows a.actor_user_id)
